-- ===== src/Tests/BenchmarkCases.antt =====
-- Benchmark tasks and a run.
use pi_pi_mink.Prelude.{
  ℕ, zero, suc, Bool, false, ◌≡◌, refl, Option, none, some, List, [], ◌∷◌, map, length,
}
use pi_pi_mink.Prelude.Int.{pos}
use pi_pi_mink.Prelude.Text.{Bytes, codes}
use pi_pi_mink.Tasks.{Task, scoring_deterministic}
use pi_pi_mink.Benchmark.{run_from, run_model_tasks, run_for_model, result_of, saved_results}
use pi_pi_mink.Benchmark.Runs.{Prefix, run_model_tasks-Prefix}
use pi_pi_mink.Tests.RoutingCases.{o3}

abbrev capital : Task
capital = record {
  id = codes "capital";
  category = codes "facts";
  prompt = codes "What is the capital of France?";
  scoring_method = scoring_deterministic;
  expected_answer = codes "Paris";
  format_validator = none;
  judge_criteria = [];
  judge_strictness = pos 9;
}

abbrev sum : Task
sum = record capital { id = codes "sum"; expected_answer = codes "4" }

abbrev two_tasks : List Task
two_tasks = capital ∷ sum ∷ []

abbrev never : ℕ → Bool
never i = false

-- a model that answers the first task and fails at the others
abbrev tired : ℕ → Bytes → Option Bytes
tired zero prompt = some (codes "PARIS")
tired (suc i) prompt = none

abbrev instant : ℕ → ℕ
instant i = 0

abbrev no_validators : Bytes → Option (Bytes → ℕ)
no_validators id = none

run_tired :
    map
      (λ s. s.task_id)
      (run_for_model never tired instant instant (codes "o3") o3 (codes "gpt-4") two_tasks)
    ≡ codes "capital" ∷ []
unfolding run_for_model run_from saved_results result_of
run_tired = refl

run_model_tasks-Prefix_example :
    Prefix never tired instant instant
      (length two_tasks)
      0
      two_tasks
      (run_model_tasks never tired instant instant two_tasks)
run_model_tasks-Prefix_example = run_model_tasks-Prefix never tired instant instant two_tasks
