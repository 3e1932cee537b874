-- ===== src/Tests/AgainCases.antt =====
-- A prompt that is routed twice.
use mathlib.Core.List.Perm
use pi_pi_mink.Prelude.{true, List, ◌++◌, false, ◌≡◌, refl, Option, none, some, [], ◌∷◌, arith}
use pi_pi_mink.Prelude.Text.{
  Bytes, codes, str_eq, trim_space, trim_left, trim_right, has_prefix, index, last_index, contains,
}
use pi_pi_mink.Prelude.Dict.{Dict, Unique, lookup, insert}
use pi_pi_mink.Json.{
  text, array, object, end, item, Fields, blank, field, get, as_text, as_array, as_object,
}
use pi_pi_mink.Answers.{extract_selection_content}
use pi_pi_mink.Models.{ModelInfo}
use pi_pi_mink.Provider.{for_model_in, uses_responses_api}
use pi_pi_mink.Client.{Client, first_compatible, selection_provider}
use pi_pi_mink.Requests.{Request}
use pi_pi_mink.Chat.{Exchange, answered}
use pi_pi_mink.CacheKey.{
  normalized, fields_from, join_words, build_decision_cache_key, sorted_items, insert_sorted,
  str_lt, CacheModel,
}
use pi_pi_mink.CacheKey.Order.{build_decision_cache_key_perm}
use pi_pi_mink.DecisionCache.{
  DecisionCache, empty_cache, new_decision_cache, get_with_status, maybe_stats_summary, set,
  push_entry, evict, get_locked,
}
use pi_pi_mink.DecisionCache.Invariant.{new_decision_cache-IsValid}
use pi_pi_mink.Selection.{selection_model, resolved_selection_provider, fallback_model}
use pi_pi_mink.Routing.{
  Clock, Decision, decide_model_based_on_capabilities, decide_with_key, evaluate, conclude, judge,
  judge_content, read_selection, object_part, selection_content, store, tag_list, relevance_of,
}
use pi_pi_mink.Routing.Again.{decide_model_based_on_capabilities_again}
use pi_pi_mink.Tests.ProviderCases.{azure}
use pi_pi_mink.Tests.RoutingCases.{o3, settings, plain_prompt, clock, decode_no_responses}

-- the selection model names the model o3
abbrev answer_body : Fields
answer_body =
    field (codes "choices")
      (array (
        item
          (object (
            field (codes "message") (object (field (codes "content") (text (codes "{}")) blank))
              blank))
          end))
      blank

abbrev pub decode_choice : Bytes → Option Fields
decode_choice [] = some answer_body
decode_choice (c ∷ s) = some (field (codes "modelname") (text (codes "o3")) blank)

abbrev pub selector : Request → Exchange
selector req = answered 200 []

abbrev pub with_azure : Client
with_azure = record {
  providers =
      (codes "azure", record azure { type = codes "openai-compatible"; model_configs = [] }) ∷ [];
  provider_limiters = [];
  limiters = [];
}

abbrev pub fresh_cache : DecisionCache
fresh_cache = new_decision_cache none

-- a digest that tells the order of the items
abbrev names_of : List CacheModel → Bytes
names_of [] = []
names_of (m ∷ ms) = m.name ++ b',' ∷ names_of ms

abbrev ordered_digest : Bytes → List CacheModel → Option Bytes
ordered_digest message items = some (message ++ b':' ∷ names_of items)

-- two models, in two orders
abbrev two_models : Dict ModelInfo
two_models = (codes "o3", o3) ∷ (codes "o1", o3) ∷ []

abbrev reordered : Dict ModelInfo
reordered = (codes "o1", o3) ∷ (codes "o3", o3) ∷ []

abbrev routed : Clock → Dict ModelInfo → DecisionCache → Option (DecisionCache × Decision)
routed t available c =
    decide_model_based_on_capabilities selector decode_choice decode_no_responses ordered_digest
      plain_prompt settings with_azure t (codes "hi") available c

abbrev cache_of : Option (DecisionCache × Decision) → DecisionCache
cache_of none = empty_cache
cache_of (some (c, d)) = c

abbrev decision : Decision
decision = record {
  result = record {
    model_name = codes "o3";
    reason = [];
    matching_tags = [];
    tag_relevance = [];
    evaluator_model = codes "gpt-4-turbo";
    evaluation_time_ms = 0;
    cache_hit = false;
    fallback_used = false;
  };
  error = none;
  made = [];
}

program : Unit {0}
unfolding decide_model_based_on_capabilities decide_with_key evaluate conclude judge judge_content
    read_selection object_part selection_content store tag_list relevance_of new_decision_cache
    get_with_status get_locked maybe_stats_summary set push_entry evict lookup insert str_eq
    trim_space trim_left trim_right has_prefix index last_index contains normalized fields_from
    join_words build_decision_cache_key sorted_items insert_sorted str_lt selection_model
    resolved_selection_provider selection_provider first_compatible for_model_in uses_responses_api
    extract_selection_content get as_text as_array as_object fallback_model
program = tt

-- the decision of a run, without its requests
abbrev decision_of : Option (DecisionCache × Decision) → Decision
decision_of none = decision
decision_of (some (c, d)) = d

first_named : (decision_of (routed clock two_models fresh_cache)).result ≡ decision.result
unfolding program
first_named = refl

two_models_distinct : Unique two_models
unfolding lookup str_eq
two_models_distinct = (refl, (refl, tt))

decide_model_based_on_capabilities_again_example :
    (c'' : DecisionCache) × (d' : Decision) × (routed clock reordered
        (cache_of (routed clock two_models fresh_cache))
      ≡ some (c'', d'))
    × (d'.result.model_name ≡ codes "o3")
    × (d'.result.cache_hit ≡ true)
    × (d'.result.fallback_used ≡ false)
    × (d'.error ≡ none)
    × (d'.made ≡ [])
unfolding program
decide_model_based_on_capabilities_again_example =
    decide_model_based_on_capabilities_again selector decode_choice decode_no_responses
      ordered_digest plain_prompt settings with_azure (codes "hi") two_models clock clock
      (codes "hi:o1,o3,") fresh_cache (cache_of (routed clock two_models fresh_cache))
      (decision_of (routed clock two_models fresh_cache)) reordered
      (new_decision_cache-IsValid none) refl two_models_distinct
      (Perm.swap (codes "o1", o3) (codes "o3", o3) []) refl refl refl refl (omega arith)

build_decision_cache_key_perm_example :
    build_decision_cache_key ordered_digest (codes "hi") two_models
    ≡ build_decision_cache_key ordered_digest (codes "hi") reordered
build_decision_cache_key_perm_example =
    build_decision_cache_key_perm ordered_digest (codes "hi")
      (Perm.swap (codes "o1", o3) (codes "o3", o3) []) two_models_distinct
