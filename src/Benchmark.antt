-- ===== src/Benchmark.antt =====
-- internal/benchmark: the run of a model over its tasks (runner.go), what the suite saves of it, and
-- the choice of the judge (suite.go). The model that is measured, the judge and the clock are
-- parameters, functions of the number of the task in the run, and so is the cancellation of the
-- context.
pub mod Runs
use pi_pi_mink.Prelude.{
  ℕ, suc, Bool, true, false, Option, none, some, List, [], ◌∷◌, if◌then◌else◌, length,
}
use pi_pi_mink.Prelude.Text.{Bytes, str_eq, is_empty}
use pi_pi_mink.Models.{ModelInfo}
use pi_pi_mink.Provider.{ProviderConfig, for_model}
use pi_pi_mink.Tasks.{Task, score, no_score}

-- `failed` is whether `Err` is set
pub record TaskResult : Type 0 where
  pub task_id : Bytes
  pub category : Bytes
  pub score : ℕ
  pub latency_ms : ℕ
  pub response : Bytes
  pub failed : Bool

-- a call of `onProgress`
pub record Progress : Type 0 where
  pub task_index : ℕ
  pub total_tasks : ℕ
  pub result : TaskResult

-- a row that is given to `SaveBenchmarkResult`
pub record SavedResult : Type 0 where
  pub model_name : Bytes
  pub source : Bytes
  pub category : Bytes
  pub task_id : Bytes
  pub score : ℕ
  pub latency_ms : ℕ
  pub judge_model : Bytes
  pub response : Bytes

-- the loop of `runForModel` over the results; an error of the database is only logged
unfoldable pub saved_results : Bytes → ModelInfo → Bytes → List TaskResult → List SavedResult
saved_results name info judge_model [] = []
saved_results name info judge_model (r ∷ rs) =
    let rest = saved_results name info judge_model rs in
    if r.failed
    then rest
    else record {
      model_name = name;
      source = info.source;
      category = r.category;
      task_id = r.task_id;
      score = r.score;
      latency_ms = r.latency_ms;
      judge_model = judge_model;
      response = r.response;
    }
      ∷ rest

module _ (cancelled : ℕ → Bool) (ask : ℕ → Bytes → Option Bytes) (latency judged : ℕ → ℕ) where
  -- `runSingleTask`, on the answer of the model; `none` is an error
  unfoldable pub result_of : ℕ → Task → Option Bytes → TaskResult
  unfolding score
  result_of i task none = record {
    task_id = task.id;
    category = task.category;
    score = no_score;
    latency_ms = latency i;
    response = [];
    failed = true;
  }
  result_of i task (some response) = record {
    task_id = task.id;
    category = task.category;
    score = score (judged i) task response;
    latency_ms = latency i;
    response = response;
    failed = false;
  }

  -- `runSingleTask`
  abbrev pub run_single_task : ℕ → Task → TaskResult
  run_single_task i task = result_of i task (ask i task.prompt)

  -- the loop of `RunModelTasks` from task number `i` on: the results, and the calls of `onProgress`
  unfoldable pub run_from : ℕ → ℕ → List Task → List TaskResult × List Progress
  unfolding result_of
  run_from total i [] = ([], [])
  run_from total i (task ∷ tasks) =
      let (results, calls) = run_from total (suc i) tasks in
      if cancelled i then ([], []) else (
        run_single_task i task ∷ results,
        record { task_index = i; total_tasks = total; result = run_single_task i task } ∷ calls,
      )

  -- `RunModelTasks`
  abbrev pub run_model_tasks : List Task → List TaskResult × List Progress
  run_model_tasks tasks = run_from (length tasks) 0 tasks

  -- `runForModel`: what is saved
  unfoldable pub run_for_model : Bytes → ModelInfo → Bytes → List Task → List SavedResult
  unfolding run_from saved_results
  run_for_model name info judge_model tasks =
      saved_results name info judge_model (run_model_tasks tasks).0

-- the settings that `resolveJudge` reads
pub record JudgeSettings : Type 0 where
  pub benchmark_judge_provider : Bytes
  pub benchmark_judge_model : Bytes
  pub model_selection_provider : Bytes
  pub model_selection_model : Bytes
  pub providers : List ProviderConfig

-- the loop of `resolveJudge`
unfoldable pub judge_provider : Bytes → Bytes → List ProviderConfig → Option ProviderConfig
judge_provider name model [] = none
judge_provider name model (p ∷ ps) =
    if str_eq p.name name then some (for_model p model) else judge_provider name model ps

-- `resolveJudge`; the provider is `none` for the zero value
unfoldable pub resolve_judge : JudgeSettings → Option ProviderConfig × Bytes
unfolding judge_provider
resolve_judge cfg =
    let name =
      if is_empty cfg.benchmark_judge_provider
      then cfg.model_selection_provider
      else cfg.benchmark_judge_provider in
    let model =
      if is_empty cfg.benchmark_judge_model
      then cfg.model_selection_model
      else cfg.benchmark_judge_model in
    (judge_provider name model cfg.providers, model)
