-- ===== src/Tests/RoutingCases.antt =====
-- A collection of models, and a decision.
use pi_pi_mink.Prelude.{Bool, true, ◌≡◌, refl, Option, none, some, List, [], ◌∷◌}
use pi_pi_mink.Prelude.Int.{pos}
use pi_pi_mink.Prelude.Text.{Bytes, codes, trim_space, trim_left, trim_right}
use pi_pi_mink.Json.{Fields, blank}
use pi_pi_mink.Answers.{ResponsesBody}
use pi_pi_mink.Models.{ModelInfo, ModelCollection, Row}
use pi_pi_mink.Client.{empty_client}
use pi_pi_mink.Requests.{Request}
use pi_pi_mink.Chat.{Exchange, failed}
use pi_pi_mink.CacheKey.{CacheModel, normalized, fields_from, join_words, build_decision_cache_key}
use pi_pi_mink.DecisionCache.{new_decision_cache}
use pi_pi_mink.DecisionCache.Invariant.{new_decision_cache-IsValid}
use pi_pi_mink.Selection.{Settings}
use pi_pi_mink.Routing.{Clock, decide_model_based_on_capabilities}
use pi_pi_mink.Routing.Total.{Yields}
use pi_pi_mink.Routing.Chosen.{Grounded, decide_model_based_on_capabilities-Grounded}

abbrev pub o3 : ModelInfo
o3 = record {
  source = codes "openai";
  tags = codes "{}";
  response = [];
  enabled = true;
  has_reasoning = true;
  updated_at = [];
  benchmark_scores = [];
  avg_latency_ms = none;
}

abbrev pub models : ModelCollection
models = (codes "o3", o3) ∷ []

abbrev pub row : Row
row = record {
  source = some (codes "openai");
  tags = none;
  response = none;
  enabled = some true;
  has_reasoning = none;
  updated_at = none;
}

normalized_spaces : normalized (codes "  a \n b  ") ≡ normalized (codes "a b")
unfolding normalized fields_from join_words trim_space trim_left trim_right
normalized_spaces = refl

abbrev pub settings : Settings
settings = record {
  model_selection_provider = [];
  model_selection_model = [];
  default_chat_model = codes "gpt-4";
  anthropic_max_tokens = pos 0;
}

abbrev no_network : Request → Exchange
no_network req = failed

abbrev decode_blank : Bytes → Option Fields
decode_blank body = some blank

abbrev pub decode_no_responses : Bytes → Option ResponsesBody
decode_no_responses body = none

abbrev pub plain_digest : Bytes → List CacheModel → Option Bytes
plain_digest message items = some message

abbrev pub plain_prompt : Bool → Bool → Fields → Bytes
plain_prompt scores latency caps = []

abbrev pub clock : Clock
clock = record { looked = 1; summarised = 2; raced = none; stored = 3; elapsed_ms = 0 }

decide_model_based_on_capabilities-Grounded_example :
    Yields
      (Grounded settings clock.looked
        (build_decision_cache_key plain_digest (codes "hi") models)
        (new_decision_cache none)
        models)
      (decide_model_based_on_capabilities no_network decode_blank decode_no_responses plain_digest
        plain_prompt settings empty_client clock
        (codes "hi")
        models
        (new_decision_cache none))
decide_model_based_on_capabilities-Grounded_example =
    decide_model_based_on_capabilities-Grounded no_network decode_blank decode_no_responses
      plain_digest plain_prompt settings empty_client clock (codes "hi") models
      (new_decision_cache none) (new_decision_cache-IsValid none)
