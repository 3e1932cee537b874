-- ===== src/ModelAdmin/Cleanup.antt =====
-- cmd/server/models.go: `disableEmptyTagModels`, and what `runBenchmarks` gives to the suite;
-- internal/benchmark/suite.go: the models that a run of the suite measures. The models of a run
-- differ in nothing but their turn, which `runForModel` does not depend on.
use pi_pi_mink.Prelude.{
  ℕ, Bool, false, ◌&&◌, ◌||◌, not, Option, none, some, List, [], ◌∷◌, if◌then◌else◌, ◌≡◌, refl,
  arith,
}
use pi_pi_mink.Prelude.Int.{ℤ, pos, is_pos}
use pi_pi_mink.Prelude.Text.{Bytes, str_eq, str_eq_iff, is_empty}
use pi_pi_mink.Prelude.Dict.{Dict, lookup, Unique}
use pi_pi_mink.Json.{Fields}
use pi_pi_mink.Models.{ModelInfo, ModelCollection, Row, get_or, get_enabled_models}
use pi_pi_mink.Tasks.{Task, BenchmarkTaskConfig, select_tasks, tasks_from_configs}
use pi_pi_mink.Benchmark.{JudgeSettings}
use pi_pi_mink.ModelAdmin.{DbCall, enable_model, has_useful_tags}

-- the test of `disableEmptyTagModels` on a row
unfoldable pub lacks_tags : (Bytes → Option Fields) → Row → Bool
unfolding has_useful_tags
lacks_tags decode row =
    get_or false row.enabled && not (has_useful_tags decode (get_or [] row.tags))

-- `disableEmptyTagModels`; the rows are `none` if they could not be read
unfoldable pub disable_rows : (Bytes → Option Fields) → Dict Row → List DbCall
unfolding lacks_tags
disable_rows decode [] = []
disable_rows decode ((name, row) ∷ rows) =
    let rest = disable_rows decode rows in
    if lacks_tags decode row then enable_model name (get_or [] row.source) false ∷ rest else rest

unfoldable pub disable_empty_tag_models : (Bytes → Option Fields) → Option (Dict Row) → List DbCall
unfolding disable_rows
disable_empty_tag_models decode none = []
disable_empty_tag_models decode (some rows) = disable_rows decode rows

-- `resolveBenchmarkJudgeName`
unfoldable pub resolve_benchmark_judge_name : JudgeSettings → Bytes
resolve_benchmark_judge_name cfg =
    if not (is_empty cfg.benchmark_judge_model)
    then cfg.benchmark_judge_model
    else cfg.model_selection_model

-- `loadBenchmarkTasksFromDB`; the rows are `none` on an error
unfoldable pub load_benchmark_tasks_from_db :
    (Bytes → Option (Bytes → ℕ)) → List Task → Option (List BenchmarkTaskConfig) → List Task
unfolding tasks_from_configs
load_benchmark_tasks_from_db validators all_tasks none = all_tasks
load_benchmark_tasks_from_db validators all_tasks (some []) = all_tasks
load_benchmark_tasks_from_db validators all_tasks (some (c ∷ cs)) =
    tasks_from_configs validators (c ∷ cs)

-- the work items of `Run`
unfoldable pub work_items : Bytes → Dict ModelInfo → Dict ModelInfo
work_items model_filter [] = []
work_items model_filter ((name, info) ∷ models) =
    let rest = work_items model_filter models in
    if not (is_empty model_filter) && not (str_eq name model_filter)
    then rest
    else (name, info) ∷ rest

-- `concurrency`
unfoldable pub concurrency : ℤ → ℤ
concurrency n = if is_pos n then n else pos 3

-- what a run measures
pub record Work : Type 0 where
  pub items : Dict ModelInfo
  pub tasks : List Task
  pub at_once : ℤ

abbrev pub no_work : Work
no_work = record { items = []; tasks = []; at_once = pos 3 }

abbrev pub work_of : ℤ → List Task → Dict ModelInfo → Option Work
work_of limit [] items = none
work_of limit (t ∷ ts) [] = none
work_of limit (t ∷ ts) (item ∷ items) =
    some (record { items = item ∷ items; tasks = t ∷ ts; at_once = concurrency limit })

-- `Run`; `none` is a run that starts nothing
unfoldable pub suite_run : List Task → List Task → ℤ → Dict ModelInfo → Bytes → Bytes → Option Work
unfolding select_tasks work_items concurrency
suite_run all_tasks tasks limit enabled_models category_filter model_filter =
    work_of limit (select_tasks all_tasks (some tasks) category_filter)
      (work_items model_filter enabled_models)

-- `runBenchmarks`, where it calls the suite
unfoldable pub run_benchmarks :
    Bool → List Task → List Task → ℤ → ModelCollection → Bytes → Bytes → Option Work
unfolding suite_run
run_benchmarks benchmark_enabled all_tasks tasks limit c model_filter category_filter =
    if not benchmark_enabled
    then none
    else suite_run all_tasks tasks limit (get_enabled_models c) category_filter model_filter

-- what the clean-up does for the row of a name
abbrev pub disabled_by : List DbCall → Bytes → Bool
disabled_by [] name = false
disabled_by (enable_model n source enabled ∷ cs) name =
    (str_eq n name && not enabled) || disabled_by cs name
disabled_by (_ ∷ cs) name = disabled_by cs name

abbrev row_lacks : (Bytes → Option Fields) → Option Row → Bool
row_lacks decode none = false
row_lacks decode (some row) = lacks_tags decode row

disable_rows_absent :
    (decode : Bytes → Option Fields) (name : Bytes) (rows : Dict Row)
    → lookup name rows ≡ none
    → disabled_by (disable_rows decode rows) name ≡ false
unfolding lookup disable_rows
disable_rows_absent decode name [] h = refl
disable_rows_absent decode name ((j, row) ∷ rows) h =
    ground (arith, disable_rows_absent decode name rows)

-- The clean-up disables a model exactly if its row says that it is enabled while its tags, `""` where
-- the column is absent, name no strength.
pub disable_empty_tag_models_lem :
    (decode : Bytes → Option Fields) (name : Bytes) (rows : Dict Row)
    → Unique rows
    → disabled_by (disable_empty_tag_models decode (some rows)) name
      ≡ row_lacks decode (lookup name rows)
unfolding lookup disable_rows disable_empty_tag_models
disable_empty_tag_models_lem decode name [] u = refl
disable_empty_tag_models_lem decode name ((j, row) ∷ rows) u = ground (
  arith,
  disable_empty_tag_models_lem decode name rows u.1,
  disable_rows_absent decode j rows u.0,
  str_eq_iff j name,
)
