-- ===== src/Routing.antt =====
-- internal/llm/model_selection.go: the decision which model answers a prompt. The HTTP client is the
-- parameter `send`, `decode` and `decode_responses` are `json.Unmarshal`, `digest` is that of the
-- cache key, and `prompt` is the wording of the system message: a function of whether there are
-- benchmark scores and latencies, and of the capabilities that it ends with as JSON. The list
-- `available` has the models in the order in which this call reads them from their map; another call
-- can read them in another order.
pub mod Total
pub mod Again
pub mod Chosen
use pi_pi_mink.Prelude.{
  ℕ, suc, Bool, true, false, Option, none, some, List, [], ◌∷◌, if◌then◌else◌, ltb,
}
use pi_pi_mink.Prelude.Text.{Bytes, codes, str_eq, trim_space, index, last_index, slice}
use pi_pi_mink.Prelude.Dict.{Dict, lookup, insert}
use pi_pi_mink.Json.{
  Value, text, number, Values, end, item, Fields, blank, field, get, as_text, as_array, as_object,
}
use pi_pi_mink.Answers.{
  Failure, no_request, no_reply, unread, Result, ok, err, ResponsesBody, extract_anthropic_content,
  extract_responses_content, extract_selection_content,
}
use pi_pi_mink.Models.{ModelInfo}
use pi_pi_mink.Provider.{ProviderConfig, uses_responses_api, provider_type_anthropic}
use pi_pi_mink.Client.{Client}
use pi_pi_mink.Requests.{Request}
use pi_pi_mink.Chat.{Exchange, not_created, failed, broken, answered}
use pi_pi_mink.CacheKey.{CacheModel, build_decision_cache_key}
use pi_pi_mink.DecisionCache.{DecisionCache, get_with_status, maybe_stats_summary, set}
use pi_pi_mink.Selection.{
  Settings, selection_model, fallback_model, resolved_selection_provider, Capabilities,
  capabilities, selection_request,
}

-- The relevance of a tag is kept as the bits of its float64.
pub record RoutingResult : Type 0 where
  pub model_name : Bytes
  pub reason : Bytes
  pub matching_tags : List Bytes
  pub tag_relevance : Dict ℕ
  pub evaluator_model : Bytes
  pub evaluation_time_ms : ℕ
  pub cache_hit : Bool
  pub fallback_used : Bool

-- the errors: those returned with an empty result, and those returned with the fallback
pub data SelectionError : Type 0 where
  no_provider : SelectionError
  failure : Failure → SelectionError
  no_object undecodable no_modelname : SelectionError

pub record Decision : Type 0 where
  pub result : RoutingResult
  pub error : Option SelectionError
  pub made : List Request

-- the moments at which the clock is read, and how long the decision took, in milliseconds
pub record Clock : Type 0 where
  pub looked : ℕ
  pub summarised : ℕ
  pub raced : Option ℕ
  pub stored : ℕ
  pub elapsed_ms : ℕ

-- What the answer of the selection model comes to: an error, the fallback with an error, or a name
-- that is still to be looked up.
pub data Verdict : Type 0 where
  gives_up : SelectionError → Verdict
  falls_back : SelectionError → Verdict
  names : Bytes → Bytes → List Bytes → Dict ℕ → Verdict

-- the strings of `matching_tags`
unfoldable pub tag_list : Values → List Bytes
tag_list end = []
tag_list (item (text s) vs) = s ∷ tag_list vs
tag_list (item _ vs) = tag_list vs

-- the numbers of `tag_relevance`
unfoldable pub relevance_of : Fields → Dict ℕ
relevance_of blank = []
relevance_of (field k (number bits) m) = (k, bits) ∷ relevance_of m
relevance_of (field k _ m) = relevance_of m

abbrev pub text_or_empty : Option Bytes → Bytes
text_or_empty none = []
text_or_empty (some s) = s

-- the fields of the decoded answer
unfoldable pub read_selection : Fields → Verdict
read_selection m = elim (as_text (get (codes "modelname") m)) [
  | none ↦ falls_back no_modelname
  | some selected ↦
      names (trim_space selected) (text_or_empty (as_text (get (codes "reason") m)))
        (elim (as_array (get (codes "matching_tags") m)) [ none ↦ [] | some vs ↦ tag_list vs ])
        (elim (as_object (get (codes "tag_relevance") m)) [ none ↦ [] | some fs ↦ relevance_of fs ])
]

-- `content[jsonStart : jsonEnd+1]`
unfoldable pub object_part : Bytes → Option Bytes
object_part content = elim (index (codes "{") content) [
  | none ↦ none
  | some start ↦ elim (last_index b'}' content) [
    | none ↦ none
    | some last ↦ if ltb start last then some (slice start (suc last) content) else none
  ]
]

-- the two helpers that build a result, and the result of a cache hit
abbrev pub plain_result : Settings → Bytes → ℕ → RoutingResult
plain_result cfg name ms = record {
  model_name = name;
  reason = [];
  matching_tags = [];
  tag_relevance = [];
  evaluator_model = selection_model (some cfg);
  evaluation_time_ms = ms;
  cache_hit = false;
  fallback_used = false;
}

abbrev pub err_result : Settings → SelectionError → List Request → Decision
err_result cfg e made = record { result = plain_result cfg [] 0; error = some e; made = made }

abbrev pub fallback_result : Settings → ℕ → Option SelectionError → List Request → Decision
fallback_result cfg ms e made = record {
  result = record (plain_result cfg (fallback_model (some cfg)) ms) { fallback_used = true };
  error = e;
  made = made;
}

abbrev pub chosen_result :
    Settings → ℕ → Bytes → Bytes → List Bytes → Dict ℕ → List Request → Decision
chosen_result cfg ms model reason tags relevance made = record {
  result = record (plain_result cfg model ms) {
    reason = reason;
    matching_tags = tags;
    tag_relevance = relevance;
  };
  error = none;
  made = made;
}

abbrev pub hit_result : Settings → ℕ → Bytes → Decision
hit_result cfg ms model = record {
  result = record (plain_result cfg model ms) { cache_hit = true };
  error = none;
  made = [];
}

-- `if cacheKeyErr == nil { c.decisionCache.set(cacheKey, model) }`
unfoldable pub store : ℕ → Option Bytes → Bytes → DecisionCache → Option DecisionCache
store now none model cache = some cache
store now (some key) model cache = set now key model cache

abbrev pub and_then : Decision → Option DecisionCache → Option (DecisionCache × Decision)
and_then d none = none
and_then d (some cache) = some (cache, d)

-- the end of the decision, on the verdict
unfoldable pub conclude :
    Settings
    → Clock
    → Option Bytes
    → Dict ModelInfo
    → List Request
    → DecisionCache
    → Verdict
    → Option (DecisionCache × Decision)
unfolding store
conclude cfg t key available made cache (gives_up e) = some (cache, err_result cfg e made)
conclude cfg t key available made cache (falls_back e) =
    some (cache, fallback_result cfg t.elapsed_ms (some e) made)
conclude cfg t key available made cache (names selected reason tags relevance) =
    elim (lookup selected available) [
      | none ↦
          and_then (fallback_result cfg t.elapsed_ms none made)
            (store t.stored key (fallback_model (some cfg)) cache)
      | some info ↦
          and_then (chosen_result cfg t.elapsed_ms selected reason tags relevance made)
            (store t.stored key selected cache)
    ]

-- the requests that were made: none if the request could not be created
abbrev pub made_of : Request → Exchange → List Request
made_of req not_created = []
made_of req _ = req ∷ []

module _ (send : Request → Exchange) (decode : Bytes → Option Fields)
    (decode_responses : Bytes → Option ResponsesBody)
    (digest : Bytes → List CacheModel → Option Bytes) (prompt : Bool → Bool → Fields → Bytes) where
  -- the text of the answer, by the type of the provider
  unfoldable pub selection_content : ProviderConfig → Bytes → Result
  selection_content p body =
      if str_eq p.type provider_type_anthropic
      then extract_anthropic_content decode body
      else if uses_responses_api p
      then extract_responses_content decode_responses body
      else extract_selection_content decode body

  -- from the text of the answer to the verdict
  unfoldable pub judge_content : Result → Verdict
  unfolding read_selection object_part
  judge_content (err f) = gives_up (failure f)
  judge_content (ok content) = elim (object_part content) [
    | none ↦ falls_back no_object
    | some part ↦ elim (decode part) [ none ↦ falls_back undecodable | some m ↦ read_selection m ]
  ]

  unfoldable pub judge : ProviderConfig → Exchange → Verdict
  unfolding judge_content selection_content
  judge p not_created = gives_up (failure no_request)
  judge p failed = gives_up (failure no_reply)
  judge p (broken status part) = gives_up (failure unread)
  judge p (answered status body) = judge_content (selection_content p body)

  -- the decision behind the cache
  unfoldable pub evaluate :
      Settings
      → Client
      → Clock
      → Option Bytes
      → Bytes
      → Dict ModelInfo
      → DecisionCache
      → Option (DecisionCache × Decision)
  unfolding conclude judge
  evaluate cfg c t key message available cache = elim (resolved_selection_provider cfg c) [
    | none ↦ some (cache, err_result cfg no_provider [])
    | some p ↦
        let caps = capabilities decode available in
        let system = prompt caps.has_benchmark_scores caps.has_latency caps.models in
        let req = selection_request cfg p system message in
        let x = send req in conclude cfg t key available (made_of req x) cache (judge p x)
  ]

  -- the part that uses the cache, on the key
  unfoldable pub decide_with_key :
      Settings
      → Client
      → Clock
      → Option Bytes
      → Bytes
      → Dict ModelInfo
      → DecisionCache
      → Option (DecisionCache × Decision)
  unfolding evaluate
  decide_with_key cfg c t none message available cache =
      evaluate cfg c t none message available cache
  decide_with_key cfg c t (some key) message available cache =
      let (looked_up, (found, status)) = get_with_status t.looked key cache in
      let (reported, summary) = maybe_stats_summary t.summarised t.raced looked_up in
      elim found [
        | some model ↦ some (reported, hit_result cfg t.elapsed_ms model)
        | none ↦ evaluate cfg c t (some key) message available reported
      ]

  -- `DecideModelBasedOnCapabilities`; `none` only if the loop of the cache ran out of fuel
  unfoldable pub decide_model_based_on_capabilities :
      Settings
      → Client
      → Clock
      → Bytes
      → Dict ModelInfo
      → DecisionCache
      → Option (DecisionCache × Decision)
  unfolding decide_with_key
  decide_model_based_on_capabilities cfg c t message available cache =
      decide_with_key cfg c t (build_decision_cache_key digest message available) message available
        cache
