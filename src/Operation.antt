-- ===== src/Operation.antt =====
-- cmd/server/server.go and cmd/server/models.go: the record by which the console follows a tagging
-- run or a benchmark. A score is kept as the bits of its float64.
pub mod Log
use pi_pi_mink.Prelude.{
  ℕ, suc, ◌-◌, Bool, true, false, Option, none, some, List, [], ◌∷◌, ◌++◌, if◌then◌else◌, ltb,
  length, drop, not,
}
use pi_pi_mink.Prelude.Text.{Bytes}
use pi_pi_mink.Benchmark.{Progress}

pub data Status : Type 0 where
  running completed : Status

pub record LogEntry : Type 0 where
  pub model : Bytes
  pub task : Bytes
  pub category : Bytes
  pub score : ℕ
  pub ok : Bool

-- `started_at` is the clock, as it is printed
pub record OperationState : Type 0 where
  pub status : Status
  pub total : ℕ
  pub completed_models : ℕ
  pub current_model : Bytes
  pub started_at : Bytes
  pub failed_models : List Bytes
  pub total_tasks : ℕ
  pub completed_tasks : ℕ
  pub current_task : Bytes
  pub log_entries : List LogEntry

abbrev pub new_operation : ℕ → Bytes → OperationState
new_operation total started_at = record {
  status = running;
  total = total;
  completed_models = 0;
  current_model = [];
  started_at = started_at;
  failed_models = [];
  total_tasks = 0;
  completed_tasks = 0;
  current_task = [];
  log_entries = [];
}

-- `if len(entries) > 50 { entries = entries[len(entries)-50:] }`
unfoldable pub last_fifty : List LogEntry → List LogEntry
last_fifty entries = if ltb 50 (length entries) then drop (length entries - 50) entries else entries

abbrev pub entry_of : Bytes → Progress → LogEntry
entry_of model p = record {
  model = model;
  task = p.result.task_id;
  category = p.result.category;
  score = p.result.score;
  ok = not p.result.failed;
}

-- the callback `OnProgress` of `runBenchmarks`
unfoldable pub on_progress : Bytes → Progress → Option OperationState → Option OperationState
unfolding last_fifty
on_progress model p none = none
on_progress model p (some op) = some (record op {
  completed_tasks = suc p.task_index;
  total_tasks = p.total_tasks;
  current_task = p.result.task_id;
  log_entries = last_fifty (op.log_entries ++ entry_of model p ∷ []);
})

-- the callbacks of a run, in the order in which they take the lock
unfoldable pub on_all : List (Bytes × Progress) → Option OperationState → Option OperationState
unfolding on_progress
on_all [] op = op
on_all ((model, p) ∷ ps) op = on_all ps (on_progress model p op)
