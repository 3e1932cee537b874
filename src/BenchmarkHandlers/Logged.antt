-- ===== src/BenchmarkHandlers/Logged.antt =====
-- Where a benchmark of chosen models ends.
use pi_pi_mink.Prelude.{
  ℕ, suc, ◌+◌, ◌≤◌, Option, some, List, [], ◌∷◌, ◌++◌, ◌≡◌, ◌∙◌, refl, sym, ap, arith, length,
}
use mathlib.Core.List.{append-nil, append_assoc}
use pi_pi_mink.Prelude.Text.{Bytes}
use pi_pi_mink.Benchmark.{Progress}
use pi_pi_mink.Operation.{
  OperationState, LogEntry, new_operation, completed, on_all, on_progress, entry_of,
}
use pi_pi_mink.Operation.Log.{newest, entries_of, log_of, log_of-on_all, length-newest}
use pi_pi_mink.ModelAdmin.{ModelTarget}
use pi_pi_mink.BenchmarkHandlers.{begun, counted, over, benchmark_from, benchmark_targets}

-- an operation stays one through the callbacks
on_all-some :
    (ps : List (Bytes × Progress)) (op : OperationState)
    → (op' : OperationState) × (on_all ps (some op) ≡ some op')
unfolding on_all on_progress
on_all-some [] op = (op, refl)
on_all-some ((model, p) ∷ ps) op = on_all-some ps _

entries_of-append :
    (ps qs : List (Bytes × Progress)) → entries_of (ps ++ qs) ≡ entries_of ps ++ entries_of qs
entries_of-append [] qs = refl
entries_of-append (p ∷ ps) qs = ap (◌∷◌ (entry_of p.0 p.1)) (entries_of-append ps qs)

module _ (progress_of : ℕ → ModelTarget → List (Bytes × Progress)) where
  -- all callbacks of a run, in order
  abbrev pub all_progress : ℕ → List ModelTarget → List (Bytes × Progress)
  all_progress i [] = []
  all_progress i (t ∷ ts) = progress_of i t ++ all_progress (suc i) ts

  abbrev pub EndsWith : ℕ → List LogEntry → Option OperationState → Type 0
  EndsWith n log r =
      (op : OperationState) × (r ≡ some op)
      × (op.status ≡ completed)
      × (op.completed_models ≡ n)
      × (op.log_entries ≡ newest log)
      × (length op.log_entries ≤ 50)

  benchmark_from-EndsWith :
      (i : ℕ) (ts : List ModelTarget) (op : OperationState) (earlier : List LogEntry)
      → op.completed_models ≡ i
      → op.log_entries ≡ newest earlier
      → EndsWith
          (i + length ts)
          (earlier ++ entries_of (all_progress i ts))
          (benchmark_from progress_of i ts (some op))
  unfolding benchmark_from
  benchmark_from-EndsWith i [] op earlier e l =
      (over op, refl, refl, omega (arith, e), rw append-nil l, rw l (length-newest earlier))
  benchmark_from-EndsWith i (t ∷ ts) op earlier e l =
      let ps = progress_of i t in
      let (op', same) = on_all-some ps (begun t.name op) in
      let log : op'.log_entries ≡ newest (earlier ++ entries_of ps) =
        ap log_of (sym same) ∙ log_of-on_all ps (begun t.name op) earlier l in
      let ih =
        benchmark_from-EndsWith (suc i) ts (counted (suc i) op') (earlier ++ entries_of ps) refl
          log in
      let whole : (earlier ++ entries_of ps) ++ entries_of (all_progress (suc i) ts)
          ≡ earlier ++ entries_of (all_progress i (t ∷ ts)) =
        append_assoc earlier (entries_of ps) (entries_of (all_progress (suc i) ts))
        ∙ ap (◌++◌ earlier) (sym (entries_of-append ps (all_progress (suc i) ts))) in
      let number : suc i + length ts ≡ i + length (t ∷ ts) = omega arith in
      rw same (rw⁻¹ (whole, number) ih)

-- A benchmark of chosen models ends as completed, with all its targets counted, and its activity log
-- has the last fifty entries of the whole run, in order and across the models, and no more.
pub benchmark_targets-EndsWith :
    (progress_of : ℕ → ModelTarget → List (Bytes × Progress)) (started_at : Bytes)
    (ts : List ModelTarget)
    → EndsWith progress_of
        (length ts)
        (entries_of (all_progress progress_of 0 ts))
        (benchmark_targets progress_of started_at ts)
unfolding benchmark_targets
benchmark_targets-EndsWith progress_of started_at ts =
    let r =
      benchmark_from-EndsWith progress_of 0 ts (new_operation (length ts) started_at) [] refl
        refl in
    (r.0, r.1, r.2, omega (arith, r.3), r.4, r.5)
