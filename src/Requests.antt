-- ===== src/Requests.antt =====
-- internal/llm: the requests to the providers, as chat.go puts them together, and responses.go for
-- the Responses API; with the tests on model names and error messages of model_tags.go. Encoding a
-- payload does not fail, since it holds JSON values only.
use pi_pi_mink.Prelude.{Bool, ◌&&◌, ◌||◌, not, none, some, List, [], ◌∷◌, ◌++◌, if◌then◌else◌, ℕ}
use pi_pi_mink.Prelude.Int.{ℤ, pos, is_pos, to_ℕ}
use pi_pi_mink.Prelude.Text.{Bytes, codes, str_eq, is_empty, has_prefix, contains, to_lower}
use pi_pi_mink.Prelude.Dict.{Dict}
use pi_pi_mink.Json.{
  Value, null, text, number, integer, array, object, Fields, blank, field, get, as_text, array_of,
}
use pi_pi_mink.Provider.{ProviderConfig, chat_completions_url, responses_url}

pub record Request : Type 0 where
  pub url : Bytes
  pub headers : Dict Bytes
  pub payload : Fields

abbrev pub content_type : Dict Bytes
content_type = (codes "Content-Type", codes "application/json") ∷ []

-- `if key != "" { req.Header.Set("Authorization", "Bearer "+key) }`
abbrev pub bearer_headers : Bytes → Dict Bytes
bearer_headers key =
    if not (is_empty key)
    then (codes "Authorization", codes "Bearer " ++ key) ∷ content_type
    else content_type

-- `isReasoningModelNoSysMsg`
unfoldable pub is_reasoning_model_no_sys_msg : Bytes → Bool
is_reasoning_model_no_sys_msg model =
    let m = to_lower model in
    str_eq m (codes "o1")
    || str_eq m (codes "o1-mini")
    || str_eq m (codes "o1-2024-12-17")
    || has_prefix (codes "o1-") m
    || str_eq m (codes "o3")
    || str_eq m (codes "o3-mini")
    || str_eq m (codes "o3-mini-2025-01-31")
    || has_prefix (codes "o3-") m
    || str_eq m (codes "o4")
    || str_eq m (codes "o4-mini")
    || has_prefix (codes "o4-") m

-- `isTemperatureError`
unfoldable pub is_temperature_error : Bytes → Bool
is_temperature_error msg =
    contains (codes "temperature' does not support 0") msg
    || contains (codes "incompatible request argument supplied: temperature") msg
    || contains (codes "Unsupported value: 'temperature'") msg
    || contains (codes "temperature is not supported") msg

-- `[]map[string]interface{}` as a value
unfoldable pub objects : List Fields → List Value
objects [] = []
objects (m ∷ ms) = object m ∷ objects ms

-- the bits of the float64 0.7
abbrev pub chat_temperature : Value
chat_temperature = number 4604480259023595110

-- the payload of `chatWithOpenAICompatibleModel`; `cold` is whether it has no temperature
abbrev pub completion_payload : Bytes → List Fields → Bool → Fields
completion_payload model messages cold =
    let payload =
      field (codes "model") (text model)
        (field (codes "messages") (array (array_of (objects messages))) blank) in
    if cold then payload else field (codes "temperature") chat_temperature payload

-- `role, _ := m[key].(string)`
abbrev pub text_at : Bytes → Fields → Bytes
text_at key m = elim (as_text (get key m)) [ none ↦ [] | some s ↦ s ]

abbrev pub value_at : Bytes → Fields → Value
value_at key m = elim (get key m) [ none ↦ null | some v ↦ v ]

-- an entry of a conversation, as the two builders put it together
abbrev pub entry : Bytes → Value → Fields
entry role content = field (codes "role") (text role) (field (codes "content") content blank)

-- `buildResponsesInput`
unfoldable pub build_responses_input : List Fields → List Fields
build_responses_input [] = []
build_responses_input (m ∷ ms) =
    let rest = build_responses_input ms in
    let role = text_at (codes "role") m in
    if is_empty role then rest else entry role (value_at (codes "content") m) ∷ rest

-- `buildResponsesPayload`, with no options: every call in chat.go and model_selection.go has none
abbrev pub build_responses_payload : Bytes → List Fields → Fields
build_responses_payload model messages =
    field (codes "model") (text model)
      (field (codes "input") (array (array_of (objects (build_responses_input messages)))) blank)

-- the loop of `chatWithAnthropicModel`: the system parts, and the other messages
unfoldable pub split_system : List Fields → List Bytes × List Fields
split_system [] = ([], [])
split_system (m ∷ ms) =
    let (system, others) = split_system ms in
    let role = text_at (codes "role") m in
    let content = text_at (codes "content") m in
    if str_eq role (codes "system")
    then (content ∷ system, others)
    else if str_eq role (codes "user") || str_eq role (codes "assistant")
    then (system, entry role (text content) ∷ others)
    else (system, others)

-- `strings.Join(parts, "\n")`
unfoldable pub join_lines : List Bytes → Bytes
join_lines [] = []
join_lines (s ∷ []) = s
join_lines (s ∷ t ∷ ss) = s ++ b'\n' ∷ join_lines (t ∷ ss)

abbrev pub max_tokens_or_default : ℤ → ℕ
max_tokens_or_default n = if is_pos n then to_ℕ n else 12800

-- the payload of `chatWithAnthropicModel`
abbrev pub anthropic_payload : ℤ → Bytes → List Fields → Fields
anthropic_payload max_tokens model messages =
    let (system, others) = split_system messages in
    let payload = field (codes "model") (text model) (
      field (codes "max_tokens") (integer (pos (max_tokens_or_default max_tokens)))
        (field (codes "messages") (array (array_of (objects others))) blank)) in
    elim system [
      | [] ↦ payload
      | s ∷ ss ↦ field (codes "system") (text (join_lines (s ∷ ss))) payload
    ]

-- a server on this machine that runs on MLX
abbrev pub is_local : ProviderConfig → Bool
is_local p =
    has_prefix (codes "http://localhost") p.base_url
    || has_prefix (codes "http://127.0.0.1") p.base_url

-- the request of `chatWithOpenAICompatibleModel`
abbrev pub completion_request : Bool → ProviderConfig → Bytes → List Fields → Request
completion_request uses_mlx p model messages = record {
  url = chat_completions_url p;
  headers = bearer_headers p.api_key;
  payload =
      completion_payload model messages
        (is_reasoning_model_no_sys_msg model || (is_local p && uses_mlx));
}

-- the request of `chatWithOpenAIResponsesModel`
abbrev pub responses_request : ProviderConfig → Bytes → List Fields → Request
responses_request p model messages = record {
  url = responses_url p;
  headers = bearer_headers p.api_key;
  payload = build_responses_payload model messages;
}

-- the request of `chatWithAnthropicModel`
abbrev pub anthropic_request : ℤ → ProviderConfig → Bytes → List Fields → Request
anthropic_request max_tokens p model messages = record {
  url = p.base_url ++ codes "/v1/messages";
  headers =
      (codes "x-api-key", p.api_key)
      ∷ (codes "anthropic-version", codes "2023-06-01")
      ∷ content_type;
  payload = anthropic_payload max_tokens model messages;
}
