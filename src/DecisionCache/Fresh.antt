-- ===== src/DecisionCache/Fresh.antt =====
-- A decision that is served is the last one that was written for the key, and not past its time.
use pi_pi_mink.Prelude.{
  ℕ, zero, suc, ◌+◌, ◌≤◌, ◌≡◌, refl, true, false, Option, none, some, List, [], ◌∷◌, take, arith,
  if◌then◌else◌, ltb, inl, inr, Bool-cases, Option-cases,
}
use pi_pi_mink.Prelude.Text.{Bytes, str_eq, str_eq_iff}
use pi_pi_mink.Prelude.Dict.{
  Dict, lookup, delete, Unique, lookup-cons, lookup-delete, delete-Unique,
}
use pi_pi_mink.DecisionCache.{CacheConfig, new_decision_cache}
use pi_pi_mink.DecisionCache.Refinement.{Entry, spec_get, spec_set, spec_found}
use pi_pi_mink.DecisionCache.Runs.{Call, get, put, Reply, run, spec_run, run-new_decision_cache}

-- an ideal memory that keeps the last write of every key for ever
abbrev pub Memory : Type 0
Memory = Bytes → Option Entry

abbrev pub write : ℕ → ℕ → Bytes → Bytes → Memory → Memory
write ttl now k m w =
    λ j. if str_eq k j then some (record { model = m; expires_at = now + ttl }) else w j

-- a reply that serves a decision serves the last one written for the key, within its time
abbrev pub IsFresh : ℕ → Bytes → Memory → Option Bytes → Type 0
IsFresh now k w none = Unit
IsFresh now k w (some m) = (x : Entry) × (w k ≡ some x) × (x.model ≡ m) × (now ≤ x.expires_at)

-- each reply of a history is fresh at its moment
abbrev pub AllFresh : ℕ → Memory → List Call → List Reply → Type 0
AllFresh ttl w [] rs = Unit
AllFresh ttl w (get now k ∷ calls) [] = ⊥
AllFresh ttl w (get now k ∷ calls) (r ∷ rs) = IsFresh now k w r.0 × AllFresh ttl w calls rs
AllFresh ttl w (put now k m ∷ calls) rs = AllFresh ttl (write ttl now k m w) calls rs

-- the entries of the list are last writes
record Holds (w : Memory) (l : Dict Entry) : Type 0 where
  unique : Unique l
  last : (k : Bytes) (x : Entry) → lookup k l ≡ some x → w k ≡ some x

lookup-take {ℓ} :
    {V : Type ℓ} (k : Bytes) (n : ℕ) (l : Dict V) {x : V}
    → lookup k (take n l) ≡ some x
    → lookup k l ≡ some x
unfolding lookup
lookup-take k zero l h = cc
lookup-take k (suc n) [] h = h
lookup-take k (suc n) ((j, v) ∷ l) {x} h = ground (arith, lookup-take k n l {x = x})

lookup-take-none {ℓ} :
    {V : Type ℓ} (k : Bytes) (n : ℕ) (l : Dict V) → lookup k l ≡ none → lookup k (take n l) ≡ none
unfolding lookup
lookup-take-none k zero l h = refl
lookup-take-none k (suc n) [] h = refl
lookup-take-none k (suc n) ((j, v) ∷ l) h = ground (arith, lookup-take-none k n l)

take-Unique {ℓ} : {V : Type ℓ} (n : ℕ) (l : Dict V) → Unique l → Unique (take n l)
take-Unique zero l u = tt
take-Unique (suc n) [] u = tt
take-Unique (suc n) ((k, v) ∷ l) u = (lookup-take-none k n l u.0, take-Unique n l u.1)

module _ (w : Memory) (l : Dict Entry) (h : Holds w l) (k : Bytes) where
  cut : Holds w (delete k l)
  cut = record {
    unique = delete-Unique k l h.unique;
    last = λ j x e. ground (arith, lookup-delete k j l h.unique, h.last j x);
  }

  -- an entry that is in the memory may go to the front
  front :
      (x : Entry) (v : Memory)
      → v k ≡ some x
      → ((j : Bytes) → str_eq k j ≡ false → v j ≡ w j)
      → Holds v ((k, x) ∷ delete k l)
  front x v e same = record {
    unique =
        (ground (arith, lookup-delete k k l h.unique, str_eq_iff k k), delete-Unique k l h.unique);
    last = λ j y found. ground (
      arith,
      lookup-cons k j x (delete k l),
      lookup-delete k j l h.unique,
      h.last j y,
      same j,
      str_eq_iff k j,
    );
  }

  spec_get-Holds : (now : ℕ) → Holds w (spec_get now k l).0 × IsFresh now k w (spec_get now k l).1.0
  spec_get-Holds now = elim (Option-cases (lookup k l)) [
    | inl e ↦ rw (e, spec_found) (h, tt)
    | inr (x, e) ↦ elim (Bool-cases (ltb x.expires_at now)) [
      | inl late ↦ rw (e, late) (cut, tt)
      | inr live ↦
          rw (e, live)
            (front x w (h.last k x e) (λ j d. refl), (x, h.last k x e, refl, ground arith))
    ]
  ]

Holds-take : (n : ℕ) (w : Memory) (l : Dict Entry) → Holds w l → Holds w (take n l)
Holds-take n w l h = record {
  unique = take-Unique n l h.unique;
  last = λ k x e. h.last k x (lookup-take k n l e);
}

spec_run-AllFresh :
    (calls : List Call) (room ttl : ℕ) (w : Memory) (l : Dict Entry)
    → Holds w l
    → AllFresh ttl w calls (spec_run room ttl l calls)
unfolding spec_run
spec_run-AllFresh [] room ttl w l h = tt
spec_run-AllFresh (get now k ∷ calls) room ttl w l h =
    let (kept, fresh) = spec_get-Holds w l h k now in
    (fresh, spec_run-AllFresh calls room ttl w (spec_get now k l).0 kept)
spec_run-AllFresh (put now k m ∷ calls) room ttl w l h =
    let x : Entry = record { model = m; expires_at = now + ttl } in
    let v = write ttl now k m w in
    spec_run-AllFresh calls room ttl v (spec_set room k x l) (
      Holds-take room v ((k, x) ∷ delete k l)
        (front w l h k x v (ground (arith, str_eq_iff k k)) (λ j d. ground (arith, d))))

empty_Holds : Holds (λ k. none) []
unfolding lookup
empty_Holds = record { unique = tt; last = λ k x e. ground arith }

-- In every history of a cache that is on, each lookup that serves a decision serves the one that
-- was last written for that key, at a time that is not past its expiry.
pub run-AllFresh :
    (cfg : Option CacheConfig) (calls : List Call)
    → (new_decision_cache cfg).enabled ≡ true
    → (rs : List Reply) × (run (new_decision_cache cfg) calls ≡ some rs)
      × AllFresh (new_decision_cache cfg).ttl (λ k. none) calls rs
run-AllFresh cfg calls on =
    let c = new_decision_cache cfg in
    (
      spec_run c.max_entries c.ttl [] calls,
      run-new_decision_cache cfg calls on,
      spec_run-AllFresh calls c.max_entries c.ttl (λ k. none) [] empty_Holds,
    )
