-- ===== src/Tasks/Configs.antt =====
-- The stored form of the tasks, and the strictness of the judge.
use pi_pi_mink.Prelude.{
  ℕ, zero, suc, ◌≤◌, Option, none, List, [], ◌∷◌, ◌≡◌, refl, if◌then◌else◌, ltb, map, All, arith,
  inl, inr, Bool-cases,
}
use pi_pi_mink.Prelude.Int.{ℤ, pos, negsuc}
use pi_pi_mink.Prelude.Text.{Bytes, str_eq}
use pi_pi_mink.Tasks.{
  Task, scoring_format, normalize_strictness, task_of, config_of, tasks_from_configs,
  default_task_configs,
}

-- `NormalizeStrictness` returns a level from 1 to 5, and returns such a level unchanged.
pub normalize_strictness_lem :
    (level : ℤ)
    → ((n : ℕ) × (normalize_strictness level ≡ pos n) × (1 ≤ n) × (n ≤ 5))
      × (normalize_strictness (normalize_strictness level) ≡ normalize_strictness level)
unfolding normalize_strictness
normalize_strictness_lem (negsuc n) = ((1, refl, omega arith, omega arith), refl)
normalize_strictness_lem (pos zero) = ((3, refl, omega arith, omega arith), refl)
normalize_strictness_lem (pos (suc n)) = elim (Bool-cases (ltb 5 (suc n))) [
  | inl over ↦ rw over ((5, refl, omega arith, omega arith), refl)
  | inr fine ↦ rw (fine, fine) ((suc n, refl, omega arith, ground arith), refl)
]

-- a task whose validator is the one that the table has for its identifier
abbrev pub HasBuiltin : (Bytes → Option (Bytes → ℕ)) → Task → Type 0
HasBuiltin validators t =
    t.format_validator ≡ (if str_eq t.scoring_method scoring_format then validators t.id else none)

abbrev pub normalized_task : Task → Task
normalized_task t = record t { judge_strictness = normalize_strictness t.judge_strictness }

task_of-config_of :
    (validators : Bytes → Option (Bytes → ℕ)) (t : Task)
    → HasBuiltin validators t
    → task_of validators (config_of t) ≡ normalized_task t
task_of-config_of validators t h = rw (← h, (normalize_strictness_lem t.judge_strictness).1) refl

-- Storing the compiled-in tasks and loading them again gives the same tasks, in order, with the
-- strictness brought into range, provided that each has the validator of the table.
pub tasks_from_configs-default_task_configs :
    (validators : Bytes → Option (Bytes → ℕ)) (tasks : List Task)
    → All (HasBuiltin validators) tasks
    → tasks_from_configs validators (default_task_configs tasks) ≡ map normalized_task tasks
unfolding tasks_from_configs default_task_configs
tasks_from_configs-default_task_configs validators [] h = refl
tasks_from_configs-default_task_configs validators (t ∷ ts) h =
    rw
      (
        task_of-config_of validators t h.0,
        tasks_from_configs-default_task_configs validators ts h.1,
      )
      refl
