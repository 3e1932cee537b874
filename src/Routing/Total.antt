-- ===== src/Routing/Total.antt =====
-- The decision returns, and keeps the cache valid.
use pi_pi_mink.Prelude.{
  ℕ, ◌==◌, ◌+◌, Option, none, some, ◌≡◌, refl, inl, inr, Bool-cases, ltb, ◌&&◌, ◌||◌, not,
}
use pi_pi_mink.Prelude.Text.{Bytes}
use pi_pi_mink.DecisionCache.{DecisionCache, get_with_status, maybe_stats_summary, set}
use pi_pi_mink.DecisionCache.Invariant.{IsValid}
use pi_pi_mink.DecisionCache.Refinement.{get_with_status-Shows}
use pi_pi_mink.DecisionCache.Writes.{set-Shows}
use pi_pi_mink.Routing.{Decision, and_then, store}

-- there is a result, with a valid cache and a decision as told
abbrev pub Yields : (Decision → Type 0) → Option (DecisionCache × Decision) → Type 0
Yields P none = ⊥
Yields P (some (cache, d)) = IsValid cache × P d

touched-IsValid :
    (n : ℕ) (c : DecisionCache) → IsValid c → IsValid (record c { last_stats_log = n })
touched-IsValid n c v = record { links = v.links; positive = v.positive; bounded = v.bounded }

pub maybe_stats_summary-IsValid :
    (now : ℕ) (raced : Option ℕ) (c : DecisionCache)
    → IsValid c
    → IsValid (maybe_stats_summary now raced c).0
unfolding maybe_stats_summary
maybe_stats_summary-IsValid now none c v =
    elim (Bool-cases (not c.enabled || c.stats_log_interval == 0)) [
      | inl off ↦ rw off v
      | inr on ↦
          elim (Bool-cases
            (ltb 0 c.last_stats_log && ltb now (c.last_stats_log + c.stats_log_interval))) [
              | inl early ↦ rw (on, early) v
              | inr due ↦ rw (on, due) (touched-IsValid now c v)
            ]
    ]
maybe_stats_summary-IsValid now (some other) c v =
    elim (Bool-cases (not c.enabled || c.stats_log_interval == 0)) [
      | inl off ↦ rw off v
      | inr on ↦
          elim (Bool-cases
            (ltb 0 c.last_stats_log && ltb now (c.last_stats_log + c.stats_log_interval))) [
              | inl early ↦ rw (on, early) v
              | inr due ↦ elim (Bool-cases (other == c.last_stats_log)) [
                | inl e ↦ rw (on, due, e) (touched-IsValid now c v)
                | inr e ↦ rw (on, due, e) (touched-IsValid other c v)
              ]
            ]
    ]

pub get_with_status-IsValid :
    (now : ℕ) (k : Bytes) (c : DecisionCache) → IsValid c → IsValid (get_with_status now k c).0
unfolding get_with_status
get_with_status-IsValid now k c v = elim (Bool-cases c.enabled) [
  | inl on ↦ (get_with_status-Shows now k c v on).0.valid
  | inr off ↦ simp off v
]

pub set_returns :
    (now : ℕ) (k model : Bytes) (c : DecisionCache)
    → IsValid c
    → (d : DecisionCache) × (set now k model c ≡ some d) × IsValid d
unfolding set
set_returns now k model c v = elim (Bool-cases c.enabled) [
  | inl on ↦ let (d, ran, shown) = set-Shows now k model c v on in (d, ran, shown.valid)
  | inr off ↦ (c, simp off refl, v)
]

pub store-Yields :
    (P : Decision → Type 0) (now : ℕ) (key : Option Bytes) (model : Bytes) (c : DecisionCache)
    (d : Decision)
    → IsValid c
    → P d
    → Yields P (and_then d (store now key model c))
unfolding store
store-Yields P now none model c d v p = (v, p)
store-Yields P now (some k) model c d v p =
    let (c', ran, v') = set_returns now k model c v in rw (ran, store) (v', p)
