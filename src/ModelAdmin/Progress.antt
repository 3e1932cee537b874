-- ===== src/ModelAdmin/Progress.antt =====
-- What the console sees of a tagging run, and what the run writes.
use pi_pi_mink.Prelude.{
  ℕ, suc, ◌+◌, ◌≤◌, Bool, true, false, Option, none, some, List, [], ◌∷◌, ◌++◌, ◌≡◌, ◌∙◌, refl, inl,
  inr, Bool-cases, arith, if◌then◌else◌, length, All,
}
use mathlib.Core.List.{append-nil, append_assoc}
use pi_pi_mink.Prelude.Text.{Bytes}
use pi_pi_mink.Prelude.Dict.{Dict, lookup}
use pi_pi_mink.Json.{Fields}
use pi_pi_mink.Provider.{ProviderConfig}
use pi_pi_mink.Tagging.{Verdict, tags, disable, delete, fails}
use pi_pi_mink.Operation.{OperationState, new_operation, completed}
use pi_pi_mink.ModelAdmin.{
  ModelTarget, DbCall, save_model, enable_model, has_useful_tags, has_failed, call_after,
}
use pi_pi_mink.ModelAdmin.Runs.{
  provider_by_name, with_model, after_tagging, states_of, state_after, calls_of, tag_from,
  tag_models,
}

pub All-append {ℓ κ} :
    {A : Type ℓ} (P : A → Type κ) (xs ys : List A) → All P xs → All P ys → All P (xs ++ ys)
All-append P [] ys a b = b
All-append P (x ∷ xs) ys a b = (a.0, All-append P xs ys a.1 b)

-- a run never counts more models than it has
abbrev pub Counts : ℕ → OperationState → Type 0
Counts total op = (op.total ≡ total) × (op.completed_models ≤ total)

-- a call that enables a model gives it tags with a strength
abbrev pub EnablesUseful : (Bytes → Option Fields) → DbCall → Type 0
EnablesUseful decode (save_model name source t enabled reasoning) =
    enabled ≡ true → has_useful_tags decode t ≡ true
EnablesUseful decode (enable_model name source enabled) = enabled ≡ false
EnablesUseful decode _ = Unit

pub call_after-EnablesUseful :
    (decode : Bytes → Option Fields) (name source : Bytes) (v : Verdict)
    → EnablesUseful decode (call_after decode name source v)
unfolding call_after
call_after-EnablesUseful decode name source (tags t) = λ h. h
call_after-EnablesUseful decode name source (disable t) = λ h. ground (arith, h)
call_after-EnablesUseful decode name source delete = tt
call_after-EnablesUseful decode name source (fails f) = λ h. h

module _ (decode : Bytes → Option Fields) (verdict_of : Bytes → ProviderConfig → Verdict) where
  Counts-after_tagging :
      (total : ℕ) (name : Bytes) (v : Verdict) (op : OperationState)
      → Counts total op
      → Counts total (after_tagging decode verdict_of name v op)
  Counts-after_tagging total name (tags t) op h = h
  Counts-after_tagging total name (disable t) op h = h
  Counts-after_tagging total name delete op h = h
  Counts-after_tagging total name (fails f) op h = h

  states_of-Counts :
      (total i : ℕ) (name : Bytes) (found : Option ProviderConfig) (op : OperationState)
      → suc i ≤ total
      → Counts total op
      → All (Counts total) (states_of decode verdict_of i name found op)
        × Counts total (state_after decode verdict_of i name found op)
  states_of-Counts total i name none op le h = ((h, ((h.0, le), tt)), (h.0, le))
  states_of-Counts total i name (some p) op le h =
      let h' = Counts-after_tagging total name (verdict_of name p) (with_model name op) h in
      ((h, (h', ((h'.0, le), tt))), (h'.0, le))

  tag_from-Counts :
      (by_name : Dict ProviderConfig) (total i : ℕ) (targets : List ModelTarget)
      (op : OperationState)
      → i + length targets ≡ total
      → Counts total op
      → All (Counts total) (tag_from decode verdict_of by_name i targets op).seen
  unfolding tag_from
  tag_from-Counts by_name total i [] op e h = (h, tt)
  tag_from-Counts by_name total i (t ∷ ts) op e h =
      let found = lookup t.source by_name in
      let (seen, next) = states_of-Counts total i t.name found op (omega (arith, e)) h in
      All-append (Counts total) (states_of decode verdict_of i t.name found op)
        (tag_from decode verdict_of by_name (suc i) ts
          (state_after decode verdict_of i t.name found op)).seen
        seen
        (tag_from-Counts by_name total (suc i) ts (state_after decode verdict_of i t.name found op)
          (omega (arith, e)) next)

  calls_of-EnablesUseful :
      (t : ModelTarget) (found : Option ProviderConfig)
      → All (EnablesUseful decode) (calls_of decode verdict_of t found)
  calls_of-EnablesUseful t none = tt
  calls_of-EnablesUseful t (some p) =
      (call_after-EnablesUseful decode t.name t.source (verdict_of t.name p), tt)

  tag_from-EnablesUseful :
      (by_name : Dict ProviderConfig) (i : ℕ) (targets : List ModelTarget) (op : OperationState)
      → All (EnablesUseful decode) (tag_from decode verdict_of by_name i targets op).calls
  unfolding tag_from
  tag_from-EnablesUseful by_name i [] op = tt
  tag_from-EnablesUseful by_name i (t ∷ ts) op =
      let found = lookup t.source by_name in
      let op' = state_after decode verdict_of i t.name found op in
      All-append (EnablesUseful decode) (calls_of decode verdict_of t found)
        (tag_from decode verdict_of by_name (suc i) ts op').calls (calls_of-EnablesUseful t found)
        (tag_from-EnablesUseful by_name (suc i) ts op')

  -- the last state of a run
  abbrev pub last_state : OperationState → List OperationState → OperationState
  last_state op [] = op
  last_state op (s ∷ ss) = last_state s ss

  last_state-append :
      (op : OperationState) (xs ys : List OperationState)
      → last_state op (xs ++ ys) ≡ last_state (last_state op xs) ys
  last_state-append op [] ys = refl
  last_state-append op (x ∷ xs) ys = last_state-append x xs ys

  -- the targets that a run reports as failed: their provider is unknown, or the tagging fails
  abbrev pub has_trouble : Bytes → Option ProviderConfig → Bool
  has_trouble name none = true
  has_trouble name (some p) = has_failed (verdict_of name p)

  abbrev pub troubled : Dict ProviderConfig → List ModelTarget → List Bytes
  troubled by_name [] = []
  troubled by_name (t ∷ ts) =
      if has_trouble t.name (lookup t.source by_name)
      then t.name ∷ troubled by_name ts
      else troubled by_name ts

  last_state-states_of :
      (i : ℕ) (name : Bytes) (found : Option ProviderConfig) (op : OperationState)
      → last_state op (states_of decode verdict_of i name found op)
        ≡ state_after decode verdict_of i name found op
  last_state-states_of i name none op = refl
  last_state-states_of i name (some p) op = refl

  failed_models-state_after :
      (i : ℕ) (name : Bytes) (found : Option ProviderConfig) (op : OperationState)
      → (state_after decode verdict_of i name found op).failed_models
        ≡ op.failed_models ++ (if has_trouble name found then name ∷ [] else [])
  failed_models-state_after i name none op = refl
  failed_models-state_after i name (some p) op =
      elim (Bool-cases (has_failed (verdict_of name p))) [
        | inl e ↦ rw e refl
        | inr e ↦ rw (e, append-nil) refl
      ]

  completed_models-state_after :
      (i : ℕ) (name : Bytes) (found : Option ProviderConfig) (op : OperationState)
      → (state_after decode verdict_of i name found op).completed_models ≡ suc i
  completed_models-state_after i name none op = refl
  completed_models-state_after i name (some p) op = refl

  -- where a run from target number `i` on ends
  abbrev Ends :
      Dict ProviderConfig → ℕ → List ModelTarget → OperationState → OperationState → Type 0
  Ends by_name i ts op s =
      (s.status ≡ completed)
      × (s.current_model ≡ [])
      × (s.completed_models ≡ i + length ts)
      × (s.failed_models ≡ op.failed_models ++ troubled by_name ts)

  tag_from-Ends :
      (by_name : Dict ProviderConfig) (i : ℕ) (ts : List ModelTarget) (op : OperationState)
      → op.completed_models ≡ i
      → Ends by_name i ts op (last_state op (tag_from decode verdict_of by_name i ts op).seen)
  unfolding tag_from
  tag_from-Ends by_name i [] op e = (refl, refl, omega (arith, e), rw append-nil refl)
  tag_from-Ends by_name i (t ∷ ts) op e =
      let found = lookup t.source by_name in
      let op' = state_after decode verdict_of i t.name found op in
      let rest = (tag_from decode verdict_of by_name (suc i) ts op').seen in
      let same : last_state op (states_of decode verdict_of i t.name found op ++ rest)
          ≡ last_state op' rest =
        rw
          (
            last_state-append op (states_of decode verdict_of i t.name found op) rest,
            last_state-states_of i t.name found op,
          )
          refl in
      let ih =
        tag_from-Ends by_name (suc i) ts op' (completed_models-state_after i t.name found op) in
      rw same (
        ih.0,
        ih.1,
        omega (arith, ih.2),
        ih.3 ∙ elim (Bool-cases (has_trouble t.name found)) [
          | inl bad ↦ rw (failed_models-state_after i t.name found op, bad, append_assoc) refl
          | inr good ↦ rw (failed_models-state_after i t.name found op, good, append-nil) refl
        ],
      )

-- Whatever the models answer, each state of a tagging run that the console can see has all targets as
-- its total and counts no more of them; the last one is completed, counts all of them, and names as
-- failed exactly those whose provider is unknown or whose tagging ended in an error, in order.
pub tag_models-Ends :
    (decode : Bytes → Option Fields) (verdict_of : Bytes → ProviderConfig → Verdict)
    (providers : List ProviderConfig) (started_at : Bytes) (targets : List ModelTarget)
    → let seen = (tag_models decode verdict_of providers started_at targets).seen in
      let final = last_state decode verdict_of (new_operation (length targets) started_at) seen in
      All (Counts (length targets)) seen
      × (final.status ≡ completed)
      × (final.completed_models ≡ length targets)
      × (final.failed_models ≡ troubled decode verdict_of (provider_by_name providers []) targets)
unfolding tag_models
tag_models-Ends decode verdict_of providers started_at targets =
    let op = new_operation (length targets) started_at in
    let by_name = provider_by_name providers [] in
    let e = tag_from-Ends decode verdict_of by_name 0 targets op refl in
    (
      (
        (refl, omega arith),
        tag_from-Counts decode verdict_of by_name (length targets) 0 targets op (omega arith)
            (refl, omega arith),
      ),
      e.0,
      omega (arith, e.2),
      e.3,
    )

-- A tagging run enables no model without tags that name a strength, whatever the models answer.
pub tag_models-EnablesUseful :
    (decode : Bytes → Option Fields) (verdict_of : Bytes → ProviderConfig → Verdict)
    (providers : List ProviderConfig) (started_at : Bytes) (targets : List ModelTarget)
    → All (EnablesUseful decode) (tag_models decode verdict_of providers started_at targets).calls
unfolding tag_models
tag_models-EnablesUseful decode verdict_of providers started_at targets =
    tag_from-EnablesUseful decode verdict_of (provider_by_name providers []) 0 targets
      (new_operation (length targets) started_at)
