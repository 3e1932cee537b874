-- ===== src/ChatHandlers/Backed.antt =====
-- The chat endpoints over the LLM client as it is: `DecideModelBasedOnCapabilities` and
-- `ChatWithModel`, at the state of the client and of the cache when the request comes in.
use pi_pi_mink.Prelude.{
  ℕ, Bool, true, false, not, Option, none, some, List, [], ◌∷◌, ◌≡◌, ◌⊎◌, refl, inl, inr,
  Bool-cases, Option-cases, if◌then◌else◌,
}
use pi_pi_mink.Prelude.Int.{ℤ}
use pi_pi_mink.Prelude.Text.{Bytes, str_eq, str_eq_iff, is_empty, trim_space}
use pi_pi_mink.Prelude.Dict.{Dict, lookup}
use pi_pi_mink.Json.{Fields}
use pi_pi_mink.Answers.{Result, ok, err, ResponsesBody}
use pi_pi_mink.Models.{ModelInfo, ModelCollection, get_enabled_models}
use pi_pi_mink.Client.{Client}
use pi_pi_mink.Requests.{Request}
use pi_pi_mink.Chat.{Exchange, chat_with_model}
use pi_pi_mink.CacheKey.{CacheModel, build_decision_cache_key}
use pi_pi_mink.DecisionCache.{DecisionCache}
use pi_pi_mink.DecisionCache.Invariant.{IsValid}
use pi_pi_mink.Selection.{Settings, fallback_model}
use pi_pi_mink.Routing.{
  RoutingResult, Decision, SelectionError, Clock, decide_model_based_on_capabilities,
}
use pi_pi_mink.Routing.Total.{Yields}
use pi_pi_mink.Routing.Chosen.{Cached, Grounded, decide_model_based_on_capabilities-Grounded}
use pi_pi_mink.ChatHandlers.{
  Gateway, Route, nobody, routed, named, first_name, get_fallback_model_name, route,
}

abbrev no_result : RoutingResult
no_result = record {
  model_name = [];
  reason = [];
  matching_tags = [];
  tag_relevance = [];
  evaluator_model = [];
  evaluation_time_ms = 0;
  cache_hit = false;
  fallback_used = false;
}

abbrev is_decided : Option SelectionError → Bool
is_decided none = true
is_decided (some e) = false

-- what a handler reads of a decision
unfoldable pub decided : Option (DecisionCache × Decision) → RoutingResult × Bool
decided none = (no_result, false)
decided (some (cache, d)) = (d.result, is_decided d.error)

abbrev text_of_result : Result → Option Bytes
text_of_result (ok content) = some content
text_of_result (err f) = none

-- the state of the client, and what its calls depend on
pub record Backend : Type 0 where
  pub select : Request → Exchange
  pub send : ℕ → Request → Exchange
  pub decode : Bytes → Option Fields
  pub decode_responses : Bytes → Option ResponsesBody
  pub digest : Bytes → List CacheModel → Option Bytes
  pub prompt : Bool → Bool → Fields → Bytes
  pub uses_mlx : Bool
  pub max_tokens : ℤ
  pub settings : Settings
  pub client : Client
  pub clock : Clock
  pub started : ℕ
  pub ended : ℕ
  pub cache : DecisionCache

abbrev pub decision_of : Backend → Bytes → Dict ModelInfo → Option (DecisionCache × Decision)
decision_of b message available =
    decide_model_based_on_capabilities b.select b.decode b.decode_responses b.digest b.prompt
      b.settings b.client b.clock message available b.cache

unfoldable pub gateway_of : Backend → Gateway
unfolding decided
gateway_of b = record {
  decide = λ message available. decided (decision_of b message available);
  chat = λ info name messages.
      text_of_result
        (chat_with_model b.send b.decode b.decode_responses b.uses_mlx b.max_tokens b.started
          b.ended info name messages b.client).outcome.result;
}

-- an enabled model has the name
abbrev pub IsEnabled : ModelCollection → Bytes → Type 0
IsEnabled c name = (info : ModelInfo) × (lookup name (get_enabled_models c) ≡ some info)

-- the cache of the client holds the name, not expired, for the key of the message and the models
abbrev pub NamedByCache : Backend → Bytes → Dict ModelInfo → Bytes → Type 0
NamedByCache b message available name =
    (key : Bytes) × (build_decision_cache_key b.digest message available ≡ some key)
    × Cached b.clock.looked key b.cache name

-- where the name of a routed request can come from
abbrev pub Sourced : Backend → Bytes → ModelCollection → Route → Type 0
Sourced b message c nobody = Unit
Sourced b message c (routed name result) =
    ((result.cache_hit ≡ true) × NamedByCache b message (get_enabled_models c) name)
    ⊎ (IsEnabled c name ⊎ (name ≡ fallback_model (some b.settings)))

first_name_found :
    (m : Bytes × ModelInfo) (ms : Dict ModelInfo)
    → (info : ModelInfo) × (lookup (first_name (m ∷ ms)) (m ∷ ms) ≡ some info)
unfolding lookup
first_name_found (name, info) ms =
    let same : str_eq name name ≡ true = (str_eq_iff name name).1 refl in (info, rw same refl)

get_fallback_model_name_found :
    (default_chat_model : Bytes) (m : Bytes × ModelInfo) (ms : Dict ModelInfo)
    → (info : ModelInfo) × (lookup (get_fallback_model_name default_chat_model (m ∷ ms)) (m ∷ ms)
        ≡ some info)
unfolding get_fallback_model_name
get_fallback_model_name_found default_chat_model m ms =
    let configured = trim_space default_chat_model in
    elim (Option-cases (lookup configured (m ∷ ms))) [
      | inl e ↦ rw (e, get_fallback_model_name) (first_name_found m ms)
      | inr (info, e) ↦ elim (Bool-cases (not (is_empty configured))) [
        | inl e' ↦ rw (e, e', get_fallback_model_name) (info, e)
        | inr e' ↦ rw (e, e', get_fallback_model_name) (first_name_found m ms)
      ]
    ]

-- the same, for the models that are available
abbrev SourcedIn : Backend → Bytes → Dict ModelInfo → Route → Type 0
SourcedIn b message available nobody = Unit
SourcedIn b message available (routed name result) =
    ((result.cache_hit ≡ true) × NamedByCache b message available name)
    ⊎ (((info : ModelInfo) × (lookup name available ≡ some info))
        ⊎ (name ≡ fallback_model (some b.settings)))

named-SourcedIn :
    (b : Backend) (message : Bytes) (available : Dict ModelInfo) (name : Bytes)
    (result : RoutingResult)
    → ((info : ModelInfo) × (lookup name available ≡ some info))
    → SourcedIn b message available (named name result)
named-SourcedIn b message available [] result h = tt
named-SourcedIn b message available (c ∷ name) result h = inr (inl h)

-- the route that a handler takes from a decision
abbrev taken : Bytes → Dict ModelInfo → RoutingResult × Bool → Route
taken default_chat_model available (result, fine) =
    if fine
    then routed result.model_name result
    else named (get_fallback_model_name default_chat_model available) result

-- a decision of the client on these models
abbrev Decided : Backend → Bytes → Dict ModelInfo → Decision → Type 0
Decided b message available =
    Grounded b.settings b.clock.looked (build_decision_cache_key b.digest message available) b.cache
      available

decision-SourcedIn :
    (b : Backend) (default_chat_model message : Bytes) (m : Bytes × ModelInfo) (ms : Dict ModelInfo)
    (d : Decision) (e : Option SelectionError)
    → d.error ≡ e
    → Decided b message (m ∷ ms) d
    → SourcedIn b message (m ∷ ms) (taken default_chat_model (m ∷ ms) (d.result, is_decided e))
decision-SourcedIn b default_chat_model message m ms d (some e) same g =
    named-SourcedIn b message (m ∷ ms) (get_fallback_model_name default_chat_model (m ∷ ms))
      d.result (get_fallback_model_name_found default_chat_model m ms)
decision-SourcedIn b default_chat_model message m ms d none same
      (inl (is_hit, fine, quiet, key, k, cached)) =
    inl (is_hit, (key, k, cached))
decision-SourcedIn b default_chat_model message m ms d none same
      (inr (anew, inl (fine, unmarked, info, found))) =
    inr (inl (info, found))
decision-SourcedIn b default_chat_model message m ms d none same
      (inr (anew, inr (inl (marked, fallback)))) =
    inr (inr fallback)
decision-SourcedIn b default_chat_model message m ms d none same
      (inr (anew, inr (inr (failed, unmarked, empty)))) =
    absurd (failed same)

taken-SourcedIn :
    (b : Backend) (default_chat_model message : Bytes) (m : Bytes × ModelInfo) (ms : Dict ModelInfo)
    (x : Option (DecisionCache × Decision))
    → Yields (Decided b message (m ∷ ms)) x
    → SourcedIn b message (m ∷ ms) (taken default_chat_model (m ∷ ms) (decided x))
unfolding decided
taken-SourcedIn b default_chat_model message m ms none y = absurd y
taken-SourcedIn b default_chat_model message m ms (some (cache, d)) y =
    decision-SourcedIn b default_chat_model message m ms d d.error refl y.1

-- Over the LLM client with a valid cache, the model that the chat endpoints ask by a route is an
-- enabled model of the collection, or the fallback model of the configuration, or, on a hit, the one
-- that the cache holds, not expired, for the key of the message and the enabled models.
pub route-Sourced :
    (b : Backend) (default_chat_model message : Bytes) (c : ModelCollection)
    → IsValid b.cache
    → Sourced b message c (route (gateway_of b) default_chat_model message c)
unfolding route gateway_of
route-Sourced b default_chat_model message c v = go (get_enabled_models c)
  where
    go :
        (l : Dict ModelInfo)
        → SourcedIn b message l (elim l [
          | [] ↦ nobody
          | m ∷ ms ↦ taken default_chat_model (m ∷ ms) (decided (decision_of b message (m ∷ ms)))
        ])
    go [] = tt
    go (m ∷ ms) =
        taken-SourcedIn b default_chat_model message m ms (decision_of b message (m ∷ ms)) (
          decide_model_based_on_capabilities-Grounded b.select b.decode b.decode_responses b.digest
            b.prompt b.settings b.client b.clock message (m ∷ ms) b.cache v)
