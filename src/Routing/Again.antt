-- ===== src/Routing/Again.antt =====
-- A decision that is asked for again.
use pi_pi_mink.Prelude.{
  ℕ, zero, suc, ◌+◌, ◌≤◌, ◌<◌, Bool, true, false, Option, none, some, List, [], ◌≡◌, refl, sym, inl,
  inr, Option-cases, arith, ap, ◌∙◌,
}
use mathlib.Core.List.{Perm}
use pi_pi_mink.Prelude.Text.{Bytes, str_eq_iff}
use pi_pi_mink.Prelude.Dict.{Dict, lookup, Unique}
use pi_pi_mink.Json.{Fields}
use pi_pi_mink.Answers.{ResponsesBody}
use pi_pi_mink.Models.{ModelInfo}
use pi_pi_mink.Client.{Client}
use pi_pi_mink.Requests.{Request}
use pi_pi_mink.Chat.{Exchange}
use pi_pi_mink.CacheKey.{CacheModel, build_decision_cache_key}
use pi_pi_mink.CacheKey.Order.{build_decision_cache_key_perm}
use pi_pi_mink.DecisionCache.{DecisionCache, get_with_status, maybe_stats_summary, set}
use pi_pi_mink.DecisionCache.Invariant.{IsValid}
use pi_pi_mink.DecisionCache.Refinement.{
  Entry, Shows, view, spec_get, spec_set, get_with_status-Shows,
}
use pi_pi_mink.DecisionCache.Writes.{set-Shows}
use pi_pi_mink.DecisionCache.Runs.{Keeps, get-Keeps, Keeps-trans, set-Keeps}
use pi_pi_mink.Selection.{Settings, fallback_model, resolved_selection_provider}
use pi_pi_mink.Routing.{
  Decision, Clock, Verdict, gives_up, falls_back, names, conclude, evaluate, decide_with_key,
  decide_model_based_on_capabilities, fallback_result, chosen_result, hit_result, store, and_then,
}
use pi_pi_mink.Routing.Total.{maybe_stats_summary-IsValid, get_with_status-IsValid}

spec_get-spec_set :
    (now room : ℕ) (k : Bytes) (x : Entry) (l : Dict Entry)
    → 0 < room
    → now ≤ x.expires_at
    → (spec_get now k (spec_set room k x l)).1.0 ≡ some x.model
unfolding lookup
spec_get-spec_set now zero k x l pos fresh = absurd (omega arith)
spec_get-spec_set now (suc room) k x l pos fresh = ground (arith, str_eq_iff k k)

-- A write is read back, until its time is over.
get_with_status-set :
    (now later : ℕ) (k model : Bytes) (c d : DecisionCache)
    → IsValid c
    → c.enabled ≡ true
    → set now k model c ≡ some d
    → later ≤ now + c.ttl
    → (get_with_status later k d).1.0 ≡ some model
get_with_status-set now later k model c d v on ran soon =
    let (d', ran', shown) = set-Shows now k model c v on in
    let same : d' ≡ d = ground (arith, ran, ran') in
    let shown' : Shows d
        (spec_set c.max_entries k (record { model = model; expires_at = now + c.ttl }) (view c)) =
      rw same at shown in
    let on' : d.enabled ≡ true = (set-Keeps now k model c ran).on ∙ on in
    let (next, reply) = get_with_status-Shows later k d shown'.valid on' in
    ap (λ r. r.0) reply
    ∙ rw shown'.shows (
        spec_get-spec_set later c.max_entries k (record { model = model; expires_at = now + c.ttl })
          (view c) v.positive soon)

maybe_stats_summary-Keeps :
    (now : ℕ) (raced : Option ℕ) (c : DecisionCache) → Keeps c (maybe_stats_summary now raced c).0
unfolding maybe_stats_summary
maybe_stats_summary-Keeps now raced c = ground arith

-- the two changes of the cache before a decision is evaluated
abbrev before : Clock → Bytes → DecisionCache → DecisionCache
before t key c = (maybe_stats_summary t.summarised t.raced (get_with_status t.looked key c).0).0

before-Keeps : (t : Clock) (key : Bytes) (c : DecisionCache) → Keeps c (before t key c)
before-Keeps t key c =
    Keeps-trans (get-Keeps t.looked key c)
      (maybe_stats_summary-Keeps t.summarised t.raced (get_with_status t.looked key c).0)

-- there is a result, and it satisfies `Q`
abbrev Later : (DecisionCache → Decision → Type 0) → Option (DecisionCache × Decision) → Type 0
Later Q none = ⊥
Later Q (some (cache, d)) = Q cache d

-- a decision that was made anew without an error is served by the cache
abbrev Serves : ℕ → Bytes → DecisionCache → Decision → Type 0
Serves later key cache d =
    d.error ≡ none
    → d.result.cache_hit ≡ false
    → (get_with_status later key cache).1.0 ≡ some d.result.model_name

store-Serves :
    (now later : ℕ) (key model : Bytes) (c : DecisionCache) (d : Decision)
    → IsValid c
    → c.enabled ≡ true
    → later ≤ now + c.ttl
    → d.result.model_name ≡ model
    → Later (Serves later key) (and_then d (store now (some key) model c))
unfolding store
store-Serves now later key model c d v on soon e =
    let (c', ran, shown) = set-Shows now key model c v on in
    rw (ran, store)
      (λ fine fresh. rw e (get_with_status-set now later key model c c' v on ran soon))

conclude-Serves :
    (cfg : Settings) (t : Clock) (later : ℕ) (key : Bytes) (available : Dict ModelInfo)
    (made : List Request) (c : DecisionCache) (v : Verdict)
    → IsValid c
    → c.enabled ≡ true
    → later ≤ t.stored + c.ttl
    → Later (Serves later key) (conclude cfg t (some key) available made c v)
unfolding conclude
conclude-Serves cfg t later key available made c (gives_up e) v on soon = λ fine fresh. cc
conclude-Serves cfg t later key available made c (falls_back e) v on soon = λ fine fresh. cc
conclude-Serves cfg t later key available made c (names selected reason tags relevance) v on soon =
    elim (Option-cases (lookup selected available)) [
      | inl e ↦
          rw (e, conclude)
            (store-Serves t.stored later key (fallback_model (some cfg)) c
              (fallback_result cfg t.elapsed_ms none made) v on soon refl)
      | inr (info, e) ↦
          rw (e, conclude)
            (store-Serves t.stored later key selected c
              (chosen_result cfg t.elapsed_ms selected reason tags relevance made) v on soon refl)
    ]

module _ (send : Request → Exchange) (decode : Bytes → Option Fields)
    (decode_responses : Bytes → Option ResponsesBody)
    (digest : Bytes → List CacheModel → Option Bytes) (prompt : Bool → Bool → Fields → Bytes)
    (cfg : Settings) (client : Client) (message : Bytes) (available : Dict ModelInfo) where
  evaluate-Serves :
      (t : Clock) (later : ℕ) (key : Bytes) (c : DecisionCache)
      → IsValid c
      → c.enabled ≡ true
      → later ≤ t.stored + c.ttl
      → Later (Serves later key) (
          evaluate send decode decode_responses digest prompt cfg client t
            (some key)
            message
            available
            c)
  unfolding evaluate
  evaluate-Serves t later key c v on soon =
      elim (Option-cases (resolved_selection_provider cfg client)) [
        | inl e ↦ rw (e, evaluate) (λ fine fresh. cc)
        | inr (p, e) ↦ rw (e, evaluate) (conclude-Serves cfg t later key available _ c _ v on soon)
      ]

  decide_with_key-Serves :
      (t : Clock) (later : ℕ) (key : Bytes) (c : DecisionCache)
      → IsValid c
      → c.enabled ≡ true
      → later ≤ t.stored + c.ttl
      → Later (Serves later key) (
          decide_with_key send decode decode_responses digest prompt cfg client t
            (some key)
            message
            available
            c)
  unfolding decide_with_key
  decide_with_key-Serves t later key c v on soon =
      let k = before-Keeps t key c in
      let v' =
        maybe_stats_summary-IsValid t.summarised t.raced (get_with_status t.looked key c).0
          (get_with_status-IsValid t.looked key c v) in
      elim (Option-cases (get_with_status t.looked key c).1.0) [
        | inl e ↦
            rw (e, decide_with_key)
              (evaluate-Serves t later key (before t key c) v' (k.on ∙ on) (rw k.ttl soon))
        | inr (model, e) ↦ rw (e, decide_with_key) (λ fine fresh. cc)
      ]

  decide_with_key_hit :
      (t : Clock) (key model : Bytes) (c : DecisionCache) (models : Dict ModelInfo)
      → (get_with_status t.looked key c).1.0 ≡ some model
      → (c' : DecisionCache) × (decide_with_key send decode decode_responses digest prompt cfg
            client t
            (some key)
            message
            models
            c
          ≡ some (c', hit_result cfg t.elapsed_ms model))
  unfolding decide_with_key
  decide_with_key_hit t key model c models e = (before t key c, rw (e, decide_with_key) refl)

  -- A decision that was made anew without an error is made only once: if the same message comes again
  -- before the time of the cache is over, with the same models in whatever order their map is read,
  -- and nothing else in between, then the answer is the same model, from the cache, without an error
  -- or a request, and without the mark of the fallback, also where that model was the fallback.
  pub decide_model_based_on_capabilities_again :
      (t again : Clock) (key : Bytes) (c c' : DecisionCache) (d : Decision)
      (reordered : Dict ModelInfo)
      → IsValid c
      → c.enabled ≡ true
      → Unique available
      → Perm available reordered
      → build_decision_cache_key digest message available ≡ some key
      → decide_model_based_on_capabilities send decode decode_responses digest prompt cfg client t
          message available c
        ≡ some (c', d)
      → d.error ≡ none
      → d.result.cache_hit ≡ false
      → again.looked ≤ t.stored + c.ttl
      → (c'' : DecisionCache) × (d' : Decision) × (decide_model_based_on_capabilities send decode
            decode_responses digest prompt cfg client again message reordered c'
          ≡ some (c'', d'))
        × (d'.result.model_name ≡ d.result.model_name)
        × (d'.result.cache_hit ≡ true)
        × (d'.result.fallback_used ≡ false)
        × (d'.error ≡ none)
        × (d'.made ≡ [])
  unfolding decide_model_based_on_capabilities
  decide_model_based_on_capabilities_again t again key c c' d reordered v on u p k ran fine fresh
        soon =
      let served = decide_with_key-Serves t again.looked key c v on soon in
      let ran' = rw k at ran in
      let serves = rw ran' at served in
      let k' : build_decision_cache_key digest message reordered ≡ some key =
        sym (build_decision_cache_key_perm digest message p u) ∙ k in
      let (c'', hits) =
        decide_with_key_hit again key d.result.model_name c' reordered (serves fine fresh) in
      rw k' (
        c'',
        hit_result cfg again.elapsed_ms d.result.model_name,
        hits,
        refl,
        refl,
        refl,
        refl,
        refl,
      )
