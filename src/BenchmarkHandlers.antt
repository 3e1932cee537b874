-- ===== src/BenchmarkHandlers.antt =====
-- cmd/server/handlers.go: `handleRunBenchmarks`, and the goroutine that it starts for chosen models,
-- as long as no other run replaces the operation. The calls of `OnProgress` during the run of a target
-- are an argument.
pub mod Logged
use pi_pi_mink.Prelude.{
  ℕ, suc, Bool, true, false, not, Option, none, some, List, [], ◌∷◌, ◌++◌, if◌then◌else◌, length,
}
use pi_pi_mink.Prelude.Text.{Bytes, is_empty}
use pi_pi_mink.Benchmark.{Progress}
use pi_pi_mink.Operation.{OperationState, new_operation, completed, on_all}
use pi_pi_mink.ModelAdmin.{ModelTarget}

-- the body of the request; `none` is one that does not decode
pub record RunBody : Type 0 where
  pub models : List ModelTarget
  pub category : Bytes

-- What a request starts: nothing, with status 503, a run over chosen models, or one run with a filter.
pub data Start : Type 0 where
  unavailable : Start
  chosen : List ModelTarget → Bytes → Start
  filtered : Bytes → Bytes → Start

abbrev pub with_body : Option RunBody → Bytes → Bytes → Start
with_body none model_filter category_filter = filtered model_filter category_filter
with_body (some body) model_filter category_filter =
    let category = if not (is_empty body.category) then body.category else category_filter in
    elim body.models [ [] ↦ filtered model_filter category | t ∷ ts ↦ chosen (t ∷ ts) category ]

-- `handleRunBenchmarks`, on the two parameters of the query
unfoldable pub handle_run_benchmarks : Bool → Bytes → Bytes → Option RunBody → Start
handle_run_benchmarks benchmark_enabled model_filter category_filter body =
    if not benchmark_enabled then unavailable else with_body body model_filter category_filter

abbrev pub change :
    (OperationState → OperationState) → Option OperationState → Option OperationState
change f none = none
change f (some op) = some (f op)

-- the lock sections of the goroutine
abbrev pub begun : Bytes → OperationState → OperationState
begun name op = record op {
  current_model = name;
  completed_tasks = 0;
  total_tasks = 0;
  current_task = [];
}

abbrev pub counted : ℕ → OperationState → OperationState
counted n op = record op { completed_models = n }

abbrev pub over : OperationState → OperationState
over op = record op { status = completed; current_model = []; current_task = [] }

module _ (progress_of : ℕ → ModelTarget → List (Bytes × Progress)) where
  -- the loop from target number `i` on, and its end
  unfoldable pub benchmark_from :
      ℕ → List ModelTarget → Option OperationState → Option OperationState
  unfolding on_all
  benchmark_from i [] op = change over op
  benchmark_from i (t ∷ ts) op =
      benchmark_from (suc i) ts
        (change (counted (suc i)) (on_all (progress_of i t) (change (begun t.name) op)))

  -- the goroutine
  unfoldable pub benchmark_targets : Bytes → List ModelTarget → Option OperationState
  unfolding benchmark_from
  benchmark_targets started_at ts =
      benchmark_from 0 ts (some (new_operation (length ts) started_at))
