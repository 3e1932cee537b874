-- ===== src/Routing/Chosen.antt =====
-- Which model a decision names.
use pi_pi_mink.Prelude.{
  ℕ, ◌≤◌, Bool, true, false, Bool-cases, arith, Option, none, some, List, [], ◌≡◌, ◌≢◌, refl, ◌⊎◌,
  inl, inr, Option-cases,
}
use pi_pi_mink.Prelude.Text.{Bytes}
use pi_pi_mink.Prelude.Dict.{Dict, lookup}
use pi_pi_mink.Json.{Fields}
use pi_pi_mink.Answers.{ResponsesBody}
use pi_pi_mink.Models.{ModelInfo}
use pi_pi_mink.Client.{Client}
use pi_pi_mink.Requests.{Request}
use pi_pi_mink.Chat.{Exchange}
use pi_pi_mink.CacheKey.{CacheModel, build_decision_cache_key}
use pi_pi_mink.DecisionCache.{
  CacheItem, DecisionCache, get_locked, get_with_status, maybe_stats_summary,
}
use pi_pi_mink.DecisionCache.Invariant.{IsValid}
use pi_pi_mink.Selection.{Settings, fallback_model, resolved_selection_provider}
use pi_pi_mink.Routing.{
  Decision, Clock, Verdict, gives_up, falls_back, names, conclude, evaluate, decide_with_key,
  decide_model_based_on_capabilities, fallback_result, chosen_result,
}
use pi_pi_mink.Routing.Total.{
  Yields, maybe_stats_summary-IsValid, get_with_status-IsValid, store-Yields,
}

-- The cache holds the name for the key, and its time is not over.
abbrev pub Cached : ℕ → Bytes → DecisionCache → Bytes → Type 0
Cached now key cache name =
    (cache.enabled ≡ true)
    × (item : CacheItem) × (lookup key cache.entries ≡ some item)
    × (item.model ≡ name)
    × (now ≤ item.expires_at)

-- the model is available, or it is the fallback and marked as such, or there is an error and no model
abbrev pub Made : Settings → Dict ModelInfo → Decision → Type 0
Made cfg available d =
    (d.result.cache_hit ≡ false)
    × (((d.error ≡ none)
          × (d.result.fallback_used ≡ false)
          × (info : ModelInfo) × (lookup d.result.model_name available ≡ some info))
        ⊎ (((d.result.fallback_used ≡ true) × (d.result.model_name ≡ fallback_model (some cfg)))
            ⊎ ((d.error ≢ none) × (d.result.fallback_used ≡ false) × (d.result.model_name ≡ []))))

-- The model is what the cache holds for the key of the request, without a request to a provider, or
-- the decision was made anew.
abbrev pub Grounded :
    Settings → ℕ → Option Bytes → DecisionCache → Dict ModelInfo → Decision → Type 0
Grounded cfg now key cache available d =
    ((d.result.cache_hit ≡ true)
      × (d.error ≡ none)
      × (d.made ≡ [])
      × (k : Bytes) × (key ≡ some k)
      × Cached now k cache d.result.model_name)
    ⊎ Made cfg available d

get_with_status-Cached :
    (now : ℕ) (key model : Bytes) (c : DecisionCache)
    → (get_with_status now key c).1.0 ≡ some model
    → Cached now key c model
unfolding get_with_status get_locked
get_with_status-Cached now key model c e = elim (Bool-cases c.enabled) [
  | inr off ↦ absurd (ground (arith, e, off))
  | inl on ↦ elim (Option-cases (lookup key c.entries)) [
    | inl absent ↦ absurd (ground (arith, e, on, absent))
    | inr (item, found) ↦
        (on, item, found, ground (arith, e, on, found), ground (arith, e, on, found))
  ]
]

Yields-mono :
    (P Q : Decision → Type 0) (x : Option (DecisionCache × Decision))
    → ((d : Decision) → P d → Q d)
    → Yields P x
    → Yields Q x
Yields-mono P Q none h y = y
Yields-mono P Q (some (cache, d)) h (v, p) = (v, h d p)

conclude-Made :
    (cfg : Settings) (t : Clock) (key : Option Bytes) (available : Dict ModelInfo)
    (made : List Request) (cache : DecisionCache) (v : Verdict)
    → IsValid cache
    → Yields (Made cfg available) (conclude cfg t key available made cache v)
unfolding conclude
conclude-Made cfg t key available made cache (gives_up e) v =
    (v, (refl, inr (inr (cc, refl, refl))))
conclude-Made cfg t key available made cache (falls_back e) v = (v, (refl, inr (inl (refl, refl))))
conclude-Made cfg t key available made cache (names selected reason tags relevance) v =
    elim (Option-cases (lookup selected available)) [
      | inl e ↦
          rw (e, conclude)
            (store-Yields (Made cfg available) t.stored key (fallback_model (some cfg)) cache
              (fallback_result cfg t.elapsed_ms none made) v (refl, inr (inl (refl, refl))))
      | inr (info, e) ↦
          rw (e, conclude)
            (store-Yields (Made cfg available) t.stored key selected cache
              (chosen_result cfg t.elapsed_ms selected reason tags relevance made) v
              (refl, inl (refl, refl, info, e)))
    ]

module _ (send : Request → Exchange) (decode : Bytes → Option Fields)
    (decode_responses : Bytes → Option ResponsesBody)
    (digest : Bytes → List CacheModel → Option Bytes) (prompt : Bool → Bool → Fields → Bytes) where
  evaluate-Made :
      (cfg : Settings) (c : Client) (t : Clock) (key : Option Bytes) (message : Bytes)
      (available : Dict ModelInfo) (cache : DecisionCache)
      → IsValid cache
      → Yields
          (Made cfg available)
          (evaluate send decode decode_responses digest prompt cfg c t key message available cache)
  unfolding evaluate
  evaluate-Made cfg c t key message available cache v =
      elim (Option-cases (resolved_selection_provider cfg c)) [
        | inl e ↦ rw (e, evaluate) (v, (refl, inr (inr (cc, refl, refl))))
        | inr (p, e) ↦ rw (e, evaluate) (conclude-Made cfg t key available _ cache _ v)
      ]

  decide_with_key-Grounded :
      (cfg : Settings) (c : Client) (t : Clock) (key : Option Bytes) (message : Bytes)
      (available : Dict ModelInfo) (cache : DecisionCache)
      → IsValid cache
      → Yields (Grounded cfg t.looked key cache available) (
          decide_with_key send decode decode_responses digest prompt cfg c t key message available
            cache)
  unfolding decide_with_key
  decide_with_key-Grounded cfg c t none message available cache v =
      Yields-mono (Made cfg available) (Grounded cfg t.looked none cache available) _ (λ d m. inr m)
        (evaluate-Made cfg c t none message available cache v)
  decide_with_key-Grounded cfg c t (some key) message available cache v =
      let v' =
        maybe_stats_summary-IsValid t.summarised t.raced (get_with_status t.looked key cache).0
          (get_with_status-IsValid t.looked key cache v) in
      elim (Option-cases (get_with_status t.looked key cache).1.0) [
        | inl e ↦
            rw (e, decide_with_key)
              (Yields-mono (Made cfg available) (Grounded cfg t.looked (some key) cache available) _
                (λ d m. inr m)
                (evaluate-Made cfg c t (some key) message available
                  (maybe_stats_summary t.summarised t.raced
                    (get_with_status t.looked key cache).0).0
                  v'))
        | inr (model, e) ↦
            let cached = get_with_status-Cached t.looked key model cache e in
            rw (e, decide_with_key) (v', inl (refl, refl, refl, key, refl, cached))
      ]

  -- With a valid cache, the decision always returns, and leaves a valid cache. Either it is a hit: the
  -- model is the one that the cache holds, not expired, for the key of the message and the models, there
  -- is no error, and no request was made. Or it is none: then the model is one of the available models,
  -- without an error; or it is the fallback model, marked as such; or there is an error and no model.
  pub decide_model_based_on_capabilities-Grounded :
      (cfg : Settings) (c : Client) (t : Clock) (message : Bytes) (available : Dict ModelInfo)
      (cache : DecisionCache)
      → IsValid cache
      → Yields
          (Grounded cfg t.looked
            (build_decision_cache_key digest message available)
            cache
            available)
          (decide_model_based_on_capabilities send decode decode_responses digest prompt cfg c t
            message available cache)
  unfolding decide_model_based_on_capabilities
  decide_model_based_on_capabilities-Grounded cfg c t message available cache v =
      decide_with_key-Grounded cfg c t (build_decision_cache_key digest message available) message
        available cache v
