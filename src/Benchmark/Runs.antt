-- ===== src/Benchmark/Runs.antt =====
-- What a run leaves.
use pi_pi_mink.Prelude.{
  ℕ, zero, suc, ◌+◌, ◌<◌, Bool, true, false, Option, none, some, List, [], ◌∷◌, ◌≡◌, refl, ap, map,
  All, arith, take, length, inl, inr, Bool-cases, Option-cases, ◌⊎◌,
}
use pi_pi_mink.Prelude.Text.{Bytes}
use pi_pi_mink.Models.{ModelInfo}
use pi_pi_mink.Tasks.{Task}
use pi_pi_mink.Benchmark.{
  TaskResult, Progress, SavedResult, result_of, run_single_task, run_from, run_model_tasks,
  saved_results, run_for_model,
}

-- the numbers of the tasks from `i` on
abbrev pub counted : ℕ → ℕ → List ℕ
counted zero i = []
counted (suc n) i = i ∷ counted n (suc i)

suc_add : (n i : ℕ) → suc n + i ≡ n + suc i
suc_add n i = omega arith

module _ (cancelled : ℕ → Bool) (ask : ℕ → Bytes → Option Bytes) (latency judged : ℕ → ℕ) where
  -- The results are those of the first tasks and each was reported; the context was not cancelled
  -- before any of these tasks, and it was before the next one, if there is one.
  pub record Prefix (total i : ℕ) (tasks : List Task) (r : List TaskResult × List Progress)
      : Type 0 where
    pub in_order : map (λ x. x.task_id) r.0 ≡ take (length r.0) (map (λ t. t.id) tasks)
    pub reported : map (λ c. c.result) r.1 ≡ r.0
    pub numbered : map (λ c. c.task_index) r.1 ≡ counted (length r.0) i
    pub totals : All (λ c. c.total_tasks ≡ total) r.1
    pub uncancelled : (j : ℕ) → j < length r.0 → cancelled (j + i) ≡ false
    pub ended : (length r.0 ≡ length tasks) ⊎ (cancelled (length r.0 + i) ≡ true)

  uncancelled-cons :
      (i n : ℕ)
      → cancelled i ≡ false
      → ((j : ℕ) → j < n → cancelled (j + suc i) ≡ false)
      → (j : ℕ) → j < suc n
      → cancelled (j + i) ≡ false
  uncancelled-cons i n go later zero lt = let zero_add : 0 + i ≡ i = omega arith in rw zero_add go
  uncancelled-cons i n go later (suc j) lt = rw (suc_add j i) (later j (omega (arith, lt)))

  task_id-result_of :
      (i : ℕ) (t : Task) (o : Option Bytes)
      → (result_of cancelled ask latency judged i t o).task_id ≡ t.id
  unfolding result_of
  task_id-result_of i t none = refl
  task_id-result_of i t (some response) = refl

  run_from-Prefix :
      (total i : ℕ) (tasks : List Task)
      → Prefix total i tasks (run_from cancelled ask latency judged total i tasks)
  unfolding run_from
  run_from-Prefix total i [] = record {
    in_order = refl;
    reported = refl;
    numbered = refl;
    totals = tt;
    uncancelled = λ j lt. absurd (omega (arith, lt));
    ended = inl refl;
  }
  run_from-Prefix total i (t ∷ ts) =
      let ih = run_from-Prefix total (suc i) ts in
      elim (Bool-cases (cancelled i)) [
        | inl stop ↦ rw stop (record {
          in_order = refl;
          reported = refl;
          numbered = refl;
          totals = tt;
          uncancelled = λ j lt. absurd (omega (arith, lt));
          ended = inr (let zero_add : 0 + i ≡ i = omega arith in rw zero_add stop);
        })
        | inr go ↦ rw go (record {
          in_order = rw task_id-result_of (ap (◌∷◌ t.id) ih.in_order);
          reported = ap (◌∷◌ (run_single_task cancelled ask latency judged i t)) ih.reported;
          numbered = ap (◌∷◌ i) ih.numbered;
          totals = (refl, ih.totals);
          uncancelled = uncancelled-cons i _ go ih.uncancelled;
          ended = elim ih.ended [
            | inl whole ↦ inl (ap suc whole)
            | inr stopped ↦ inr (
                rw (suc_add (length (run_from cancelled ask latency judged total (suc i) ts).0) i)
                  stopped)
          ];
        })
      ]

  -- `RunModelTasks` gives one result for each task from the first on, in order, exactly up to the
  -- first task before which the context is found cancelled, or for all of them: it was not cancelled
  -- before any task with a result. Each result is reported once, with its number and the number of
  -- all tasks.
  pub run_model_tasks-Prefix :
      (tasks : List Task)
      → Prefix (length tasks) 0 tasks (run_model_tasks cancelled ask latency judged tasks)
  run_model_tasks-Prefix tasks = run_from-Prefix (length tasks) 0 tasks

  -- the tasks from number `i` on that the model answers
  abbrev pub answered_from : ℕ → List Task → List Task
  answered_from i [] = []
  answered_from i (t ∷ ts) = elim (ask i t.prompt) [
    | none ↦ answered_from (suc i) ts
    | some response ↦ t ∷ answered_from (suc i) ts
  ]

  abbrev pub OfModel : Bytes → ModelInfo → Bytes → SavedResult → Type 0
  OfModel name info judge_model s =
      (s.model_name ≡ name) × (s.source ≡ info.source) × (s.judge_model ≡ judge_model)

  saved_from :
      (name judge_model : Bytes) (info : ModelInfo) (total i : ℕ) (tasks : List Task)
      → ((n : ℕ) → cancelled n ≡ false)
      → let saved =
          saved_results name info judge_model
            (run_from cancelled ask latency judged total i tasks).0 in
        (map (λ s. s.task_id) saved ≡ map (λ t. t.id) (answered_from i tasks))
        × All (OfModel name info judge_model) saved
  unfolding run_from saved_results result_of
  saved_from name judge_model info total i [] on = (refl, tt)
  saved_from name judge_model info total i (t ∷ ts) on =
      let (ids, rows) = saved_from name judge_model info total (suc i) ts on in
      elim (Option-cases (ask i t.prompt)) [
        | inl e ↦ rw (on i, e, result_of, answered_from) (ids, rows)
        | inr (response, e) ↦
            rw (on i, e, result_of, answered_from) (ap (◌∷◌ t.id) ids, ((refl, refl, refl), rows))
      ]

  -- Without a cancellation, a run saves a row for exactly the tasks that the model answers, in
  -- order, and each row names the model, its source and the judge.
  pub run_for_model_lem :
      (name judge_model : Bytes) (info : ModelInfo) (tasks : List Task)
      → ((n : ℕ) → cancelled n ≡ false)
      → let saved = run_for_model cancelled ask latency judged name info judge_model tasks in
        (map (λ s. s.task_id) saved ≡ map (λ t. t.id) (answered_from 0 tasks))
        × All (OfModel name info judge_model) saved
  unfolding run_for_model
  run_for_model_lem name judge_model info tasks on =
      saved_from name judge_model info (length tasks) 0 tasks on
