-- ===== src/Selection.antt =====
-- internal/llm/model_selection.go: the request that asks the selection model which model is to
-- answer a prompt. `decode` is `json.Unmarshal` into a map.
use pi_pi_mink.Prelude.{
  ℕ, Bool, true, false, ◌||◌, not, Option, none, some, List, [], ◌∷◌, ◌++◌, if◌then◌else◌, ltb,
  length,
}
use pi_pi_mink.Prelude.Int.{ℤ, pos}
use pi_pi_mink.Prelude.Text.{Bytes, codes, str_eq, is_empty, trim_space}
use pi_pi_mink.Prelude.Dict.{Dict}
use pi_pi_mink.Json.{text, number, integer, array, object, Fields, blank, field, array_of}
use pi_pi_mink.Models.{ModelInfo}
use pi_pi_mink.Provider.{
  ProviderConfig, for_model, chat_completions_url, responses_url, uses_responses_api,
  provider_type_anthropic,
}
use pi_pi_mink.Client.{Client, selection_provider}
use pi_pi_mink.Requests.{
  Request, content_type, bearer_headers, objects, entry, max_tokens_or_default,
  build_responses_payload,
}

-- the settings that the decision reads
pub record Settings : Type 0 where
  pub model_selection_provider : Bytes
  pub model_selection_model : Bytes
  pub default_chat_model : Bytes
  pub anthropic_max_tokens : ℤ

-- `selectionModel`; `none` is a client without a configuration
unfoldable pub selection_model : Option Settings → Bytes
selection_model none = codes "gpt-4-turbo"
selection_model (some cfg) =
    let name = trim_space cfg.model_selection_model in
    if not (is_empty name) then name else codes "gpt-4-turbo"

-- `fallbackModel`
unfoldable pub fallback_model : Option Settings → Bytes
unfolding selection_model
fallback_model none = selection_model none
fallback_model (some cfg) =
    let name = trim_space cfg.default_chat_model in
    if not (is_empty name) then name else selection_model (some cfg)

-- `resolvedSelectionProvider`
unfoldable pub resolved_selection_provider : Settings → Client → Option ProviderConfig
resolved_selection_provider cfg c = elim (selection_provider cfg.model_selection_provider c) [
  | none ↦ none
  | some p ↦ some (for_model p (selection_model (some cfg)))
]

-- the scores of a model as a JSON object
unfoldable pub score_fields : Dict ℕ → Fields
score_fields [] = blank
score_fields ((name, bits) ∷ scores) = field name (number bits) (score_fields scores)

-- what the loop over the models collects
pub record Capabilities : Type 0 where
  pub has_benchmark_scores : Bool
  pub has_latency : Bool
  pub models : Fields

abbrev pub with_scores : ModelInfo → Fields → Fields
with_scores info e = elim info.benchmark_scores [
  | [] ↦ e
  | s ∷ ss ↦ field (codes "benchmark_scores") (object (score_fields (s ∷ ss))) e
]

abbrev pub with_latency : ModelInfo → Fields → Fields
with_latency info e = elim info.avg_latency_ms [
  | none ↦ e
  | some ms ↦ field (codes "avg_latency_ms") (integer ms) e
]

abbrev pub has_some {ℓ} : {A : Type ℓ} → Option A → Bool
has_some none = false
has_some (some x) = true

unfoldable pub capabilities : (Bytes → Option Fields) → Dict ModelInfo → Capabilities
capabilities decode [] = record {
  has_benchmark_scores = false;
  has_latency = false;
  models = blank;
}
capabilities decode ((name, info) ∷ rest) =
    let caps = capabilities decode rest in
    if not info.enabled then caps else elim (decode info.tags) [
      | none ↦ caps
      | some tags ↦
          let base =
            field (codes "source") (text info.source) (field (codes "tags") (object tags) blank) in
          record {
            has_benchmark_scores =
                ltb 0 (length info.benchmark_scores) || caps.has_benchmark_scores;
            has_latency = has_some info.avg_latency_ms || caps.has_latency;
            models = field name (object (with_latency info (with_scores info base))) caps.models;
          }
    ]

-- the two messages of the request
abbrev pub selection_messages : Bytes → Bytes → List Fields
selection_messages system message =
    entry (codes "system") (text system) ∷ entry (codes "user") (text message) ∷ []

-- `if selProvider.APIKey != "" { … "x-api-key" … }`
abbrev pub anthropic_headers : Bytes → Dict Bytes
anthropic_headers key =
    let version = (codes "anthropic-version", codes "2023-06-01") ∷ content_type in
    if not (is_empty key) then (codes "x-api-key", key) ∷ version else version

-- the request for the decision, in the format of the provider
unfoldable pub selection_request : Settings → ProviderConfig → Bytes → Bytes → Request
selection_request cfg p system message =
    let model = selection_model (some cfg) in
    if str_eq p.type provider_type_anthropic
    then record {
      url = p.base_url ++ codes "/v1/messages";
      headers = anthropic_headers p.api_key;
      payload = field (codes "model") (text model) (
          field (codes "max_tokens")
            (integer (pos (max_tokens_or_default cfg.anthropic_max_tokens)))
            (field (codes "system") (text system) (
              field (codes "messages")
                (array (array_of (objects (entry (codes "user") (text message) ∷ [])))) blank)));
    }
    else if uses_responses_api p
    then record {
      url = responses_url p;
      headers = bearer_headers p.api_key;
      payload = build_responses_payload model (selection_messages system message);
    }
    else record {
      url = chat_completions_url p;
      headers = bearer_headers p.api_key;
      payload = field (codes "model") (text model) (
          field (codes "temperature") (number 0) (
            field (codes "messages")
              (array (array_of (objects (selection_messages system message)))) blank));
    }
