-- ===== src/Operation/Log.antt =====
-- The activity log of a benchmark.
use pi_pi_mink.Prelude.{
  ℕ, zero, suc, ◌+◌, ◌-◌, ◌≤◌, Option, none, some, List, [], ◌∷◌, ◌++◌, ◌≡◌, refl, ap, ◌∙◌, inl,
  inr, Bool-cases, arith, ltb, length, drop, length-append, map,
}
use mathlib.Core.List.{append-nil, append_assoc}
use pi_pi_mink.Prelude.Text.{Bytes}
use pi_pi_mink.Benchmark.{Progress}
use pi_pi_mink.Operation.{
  OperationState, LogEntry, entry_of, new_operation, last_fifty, on_progress, on_all,
}

length-drop {ℓ} : {A : Type ℓ} (n : ℕ) (l : List A) → length (drop n l) ≡ length l - n
length-drop zero l = omega arith
length-drop (suc n) [] = omega arith
length-drop (suc n) (a ∷ l) = omega (arith, length-drop n l)

drop-drop {ℓ} : {A : Type ℓ} (k m : ℕ) (l : List A) → drop m (drop k l) ≡ drop (k + m) l
drop-drop zero m l = let e : 0 + m ≡ m = omega arith in rw e refl
drop-drop (suc k) zero [] = let e : suc k + 0 ≡ suc k = omega arith in rw e refl
drop-drop (suc k) (suc m) [] = let e : suc k + suc m ≡ suc (k + suc m) = omega arith in rw e refl
drop-drop (suc k) m (a ∷ l) =
    let e : suc k + m ≡ suc (k + m) = omega arith in rw e (drop-drop k m l)

drop-append {ℓ} :
    {A : Type ℓ} (k : ℕ) (l r : List A) → k ≤ length l → drop k (l ++ r) ≡ drop k l ++ r
drop-append zero l r h = refl
drop-append (suc k) [] r h = absurd (omega arith)
drop-append (suc k) (a ∷ l) r h = drop-append k l r (omega arith)

-- the last fifty of a list, whatever its length
abbrev pub newest : List LogEntry → List LogEntry
newest l = drop (length l - 50) l

last_fifty-newest : (l : List LogEntry) → last_fifty l ≡ newest l
unfolding last_fifty
last_fifty-newest l = elim (Bool-cases (ltb 50 (length l))) [
  | inl long ↦ rw long refl
  | inr short ↦ let e : length l - 50 ≡ 0 = ground (arith, short) in rw (short, e) refl
]

newest-append : (l r : List LogEntry) → newest (newest l ++ r) ≡ newest (l ++ r)
newest-append l r = elim (Bool-cases (ltb 50 (length l))) [
  | inr short ↦ let e : length l - 50 ≡ 0 = ground (arith, short) in rw e refl
  | inl long ↦
      let k = length l - 50 in
      let whole : length (drop k l ++ r) - 50 ≡ length r =
        ground (arith, length-append (drop k l) r, length-drop k l, long) in
      let rest : length (l ++ r) - 50 ≡ k + length r = ground (arith, length-append l r, long) in
      rw (whole, rest) (rw (← drop-append k l r (omega arith)) (drop-drop k (length r) (l ++ r)))
]

abbrev pub entries_of : List (Bytes × Progress) → List LogEntry
entries_of = map (λ e. entry_of e.0 e.1)

abbrev pub log_of : Option OperationState → List LogEntry
log_of none = []
log_of (some op) = op.log_entries

pub log_of-on_all :
    (ps : List (Bytes × Progress)) (op : OperationState) (earlier : List LogEntry)
    → op.log_entries ≡ newest earlier
    → log_of (on_all ps (some op)) ≡ newest (earlier ++ entries_of ps)
unfolding on_all on_progress
log_of-on_all [] op earlier e = rw append-nil e
log_of-on_all ((model, p) ∷ ps) op earlier e =
    let x = entry_of model p in
    let kept : last_fifty (op.log_entries ++ x ∷ []) ≡ newest (earlier ++ x ∷ []) =
      last_fifty-newest (op.log_entries ++ x ∷ []) ∙ simp e (newest-append earlier (x ∷ [])) in
    log_of-on_all ps
      (record op {
        completed_tasks = suc p.task_index;
        total_tasks = p.total_tasks;
        current_task = p.result.task_id;
        log_entries = last_fifty (op.log_entries ++ x ∷ []);
      })
      (earlier ++ x ∷ []) kept
    ∙ ap newest (append_assoc earlier (x ∷ []) (entries_of ps))

pub length-newest : (l : List LogEntry) → length (newest l) ≤ 50
length-newest l = omega (arith, length-drop (length l - 50) l)

-- However the callbacks of the models interleave, the activity log holds the entries of the last
-- fifty calls, in the order of the calls, and all of them as long as there are no more.
pub on_all_log :
    (total : ℕ) (started_at : Bytes) (ps : List (Bytes × Progress))
    → let log = log_of (on_all ps (some (new_operation total started_at))) in
      (log ≡ newest (entries_of ps)) × (length log ≤ 50)
on_all_log total started_at ps =
    let e = log_of-on_all ps (new_operation total started_at) [] refl in
    (e, rw e (length-newest (entries_of ps)))
