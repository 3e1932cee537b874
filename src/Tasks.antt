-- ===== src/Tasks.antt =====
-- internal/benchmark/task.go: benchmark tasks and their stored form; `selectTasks` of suite.go, and
-- `Score` of scorer.go. A float64 is kept as its bits.
pub mod Configs
use pi_pi_mink.Prelude.{
  ℕ, zero, suc, Bool, true, false, not, Option, none, some, List, [], ◌∷◌, if◌then◌else◌, ltb,
  select, map,
}
use pi_pi_mink.Prelude.Int.{ℤ, pos, negsuc}
use pi_pi_mink.Prelude.Text.{Bytes, codes, str_eq, is_empty, contains, to_lower}

pub record JudgeCriterion : Type 0 where
  pub name : Bytes
  pub description : Bytes

pub record Task : Type 0 where
  pub id : Bytes
  pub category : Bytes
  pub prompt : Bytes
  pub scoring_method : Bytes
  pub expected_answer : Bytes
  pub format_validator : Option (Bytes → ℕ)
  pub judge_criteria : List JudgeCriterion
  pub judge_strictness : ℤ

-- the task as it is stored
pub record BenchmarkTaskConfig : Type 0 where
  pub task_id : Bytes
  pub category : Bytes
  pub prompt : Bytes
  pub scoring_method : Bytes
  pub expected_answer : Bytes
  pub judge_criteria : List JudgeCriterion
  pub judge_strictness : ℤ
  pub enabled : Bool
  pub is_builtin : Bool
  pub updated_at : Bytes

abbrev pub scoring_deterministic : Bytes
scoring_deterministic = codes "deterministic"

abbrev pub scoring_format : Bytes
scoring_format = codes "format"

abbrev pub scoring_llm_judge : Bytes
scoring_llm_judge = codes "llm-judge"

-- `NormalizeStrictness`; the default is 3
unfoldable pub normalize_strictness : ℤ → ℤ
normalize_strictness (negsuc n) = pos 1
normalize_strictness (pos zero) = pos 3
normalize_strictness (pos (suc n)) = if ltb 5 (suc n) then pos 5 else pos (suc n)

-- the loop of `TasksForCategory`, and of `selectTasks`
abbrev pub tasks_for_category : Bytes → List Task → List Task
tasks_for_category c = select (λ t. str_eq t.category c)

-- `selectTasks`; `tasks` is `none` where the suite has no list of its own
unfoldable pub select_tasks : List Task → Option (List Task) → Bytes → List Task
select_tasks all_tasks none category_filter =
    if is_empty category_filter then all_tasks else tasks_for_category category_filter all_tasks
select_tasks all_tasks (some tasks) category_filter =
    if is_empty category_filter then tasks else tasks_for_category category_filter tasks

abbrev pub task_of : (Bytes → Option (Bytes → ℕ)) → BenchmarkTaskConfig → Task
task_of builtin_format_validators c = record {
  id = c.task_id;
  category = c.category;
  prompt = c.prompt;
  scoring_method = c.scoring_method;
  expected_answer = c.expected_answer;
  format_validator =
      if str_eq c.scoring_method scoring_format then builtin_format_validators c.task_id else none;
  judge_criteria = c.judge_criteria;
  judge_strictness = normalize_strictness c.judge_strictness;
}

-- `TasksFromConfigs`
unfoldable pub tasks_from_configs :
    (Bytes → Option (Bytes → ℕ)) → List BenchmarkTaskConfig → List Task
unfolding normalize_strictness
tasks_from_configs validators [] = []
tasks_from_configs validators (c ∷ cs) =
    let rest = tasks_from_configs validators cs in
    if not c.enabled then rest else task_of validators c ∷ rest

abbrev pub config_of : Task → BenchmarkTaskConfig
config_of t = record {
  task_id = t.id;
  category = t.category;
  prompt = t.prompt;
  scoring_method = t.scoring_method;
  expected_answer = t.expected_answer;
  judge_criteria = t.judge_criteria;
  judge_strictness = normalize_strictness t.judge_strictness;
  enabled = true;
  is_builtin = true;
  updated_at = [];
}

-- `DefaultTaskConfigs`
unfoldable pub default_task_configs : List Task → List BenchmarkTaskConfig
default_task_configs [] = []
default_task_configs (t ∷ ts) = config_of t ∷ default_task_configs ts

-- the bits of 1.0 and of 0.0
abbrev pub full_score : ℕ
full_score = 4607182418800017408

abbrev pub no_score : ℕ
no_score = 0

-- `scoreDeterministic`
unfoldable pub score_deterministic : Bytes → Bytes → ℕ
score_deterministic expected response =
    if contains (to_lower expected) (to_lower response) then full_score else no_score

-- `Score`; `judged` is what `scoreLLMJudge` returns
unfoldable pub score : ℕ → Task → Bytes → ℕ
unfolding score_deterministic
score judged task response =
    if str_eq task.scoring_method scoring_deterministic
    then score_deterministic task.expected_answer response
    else if str_eq task.scoring_method scoring_format
    then elim task.format_validator [ none ↦ no_score | some f ↦ f response ]
    else if str_eq task.scoring_method scoring_llm_judge
    then judged
    else no_score
