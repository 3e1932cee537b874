-- ===== src/OllamaHandlers.antt =====
-- cmd/server/ollama_handlers.go: `handleOllamaGenerate` and `handleOllamaChat`. The bodies are those
-- of the validator; `decode_generate` and `decode_chat` are `json.Unmarshal`, `itoa` is
-- `strconv.Itoa`. The reply of a stream is that of any other request but for its headers, so there is
-- one form of it.
pub mod Checks
use pi_pi_mink.Prelude.{
  ℕ, suc, Bool, true, false, ◌&&◌, not, Option, none, some, List, [], ◌∷◌, ◌++◌, if◌then◌else◌, map,
}
use pi_pi_mink.Prelude.Text.{Bytes, codes, str_eq, is_empty}
use pi_pi_mink.Prelude.Dict.{Dict, lookup}
use pi_pi_mink.Json.{text, Fields}
use pi_pi_mink.Models.{ModelInfo, ModelCollection}
use pi_pi_mink.Requests.{entry}
use pi_pi_mink.Validator.{
  ValidationResult, ValidationError, new_validation_result, add_error, has_errors, Body,
  validate_request_body,
}
use pi_pi_mink.ChatHandlers.{Gateway, Route, nobody, routed, route}

-- the bodies of the requests, less the fields that the handlers do not read
pub record GenerateRequest : Type 0 where
  pub model : Bytes
  pub prompt : Bytes
  pub stream : Bool

pub record ChatMessage : Type 0 where
  pub role : Bytes
  pub content : Bytes

pub record ChatRequest : Type 0 where
  pub model : Bytes
  pub messages : List ChatMessage
  pub stream : Bool

-- the replies: the errors of a validation, an error with its status, or a model with its answer
pub data Reply : Type 0 where
  invalid : List ValidationError → Reply
  refused : ℕ → Reply
  answered : Bytes → Bytes → Reply

-- the zero value of `ModelInfo`, which stands for a model that is not in the collection
abbrev pub no_model : ModelInfo
no_model = record {
  source = [];
  tags = [];
  response = [];
  enabled = false;
  has_reasoning = false;
  updated_at = [];
  benchmark_scores = [];
  avg_latency_ms = none;
}

abbrev pub or_no_model : Option ModelInfo → ModelInfo
or_no_model none = no_model
or_no_model (some info) = info

abbrev pub is_known_role : Bytes → Bool
is_known_role role =
    if str_eq role (codes "user")
    then true
    else if str_eq role (codes "system")
    then true
    else str_eq role (codes "assistant")

module _ (itoa : ℕ → Bytes) where
  abbrev role_checked : ℕ → Bytes → ValidationResult → ValidationResult
  role_checked i role v =
      if is_empty role
      then add_error (codes "messages")
          (codes "Message at index " ++ itoa i ++ codes " has empty role") v
      else if not (is_known_role role)
      then add_error (codes "messages")
          (codes "Message role must be 'user', 'system', or 'assistant'") v
      else v

  abbrev content_checked : ℕ → Bytes → ValidationResult → ValidationResult
  content_checked i content v =
      if is_empty content
      then add_error (codes "messages")
          (codes "Message at index " ++ itoa i ++ codes " has empty content") v
      else v

  -- the loop of `handleOllamaChat` from message number `i` on: the errors, and the last message of
  -- the user, if there is one
  unfoldable pub check_messages :
      ℕ → List ChatMessage → ValidationResult → Option Bytes → ValidationResult × Option Bytes
  unfolding add_error
  check_messages i [] v found = (v, found)
  check_messages i (msg ∷ msgs) v found =
      check_messages (suc i) msgs (content_checked i msg.content (role_checked i msg.role v))
        (if str_eq msg.role (codes "user") then some msg.content else found)

  abbrev some_message : List ChatMessage → ValidationResult → ValidationResult
  some_message [] v = add_error (codes "messages") (codes "At least one message is required") v
  some_message (msg ∷ msgs) v = v

  abbrev some_user : Option Bytes → ValidationResult → ValidationResult
  some_user none v = add_error (codes "messages") (codes "At least one user message is required") v
  some_user (some content) v = v

  -- the validation of a request for a chat
  unfoldable pub check_chat : List ChatMessage → ValidationResult × Option Bytes
  unfolding check_messages add_error
  check_chat msgs =
      let (v, found) = check_messages 0 msgs (some_message msgs new_validation_result) none in
      (some_user found v, found)

abbrev pub found_text : Option Bytes → Bytes
found_text none = []
found_text (some s) = s

-- the messages as `ChatWithModel` takes them
abbrev pub fields_of : ChatMessage → Fields
fields_of msg = entry msg.role (text msg.content)

module _ (g : Gateway) (default_chat_model : Bytes) where
  abbrev pub after_chat : Bytes → Option Bytes → Reply
  after_chat model none = refused 500
  after_chat model (some response) = answered model response

  -- from the route on; a name that is not in the collection gives the zero value
  unfoldable pub answer_route : Route → List Fields → ModelCollection → Reply
  answer_route nobody messages c = refused 500
  answer_route (routed name result) messages c =
      after_chat name (g.chat (or_no_model (lookup name c)) name messages)

  -- the end of both handlers
  unfoldable pub answer_model : Bytes → Bytes → List Fields → ModelCollection → Reply
  unfolding answer_route route
  answer_model model message messages c = elim (lookup model c) [
    | none ↦ answer_route (route g default_chat_model message c) messages c
    | some info ↦ after_chat model (g.chat info model messages)
  ]

  module _ (is_json : Bytes → Bool) where
    abbrev generate_request : Option GenerateRequest → ModelCollection → Reply
    generate_request none c = refused 400
    generate_request (some req) c =
        if is_empty req.prompt
        then invalid
            (add_error (codes "prompt") (codes "Prompt is required") new_validation_result).errors
        else answer_model req.model req.prompt (entry (codes "user") (text req.prompt) ∷ []) c

    abbrev on_body : (Bytes → Reply) → Option Bytes × ValidationResult → Reply
    on_body next (none, v) = invalid v.errors
    on_body next (some body, v) = if has_errors v then invalid v.errors else next body

    -- `handleOllamaGenerate`
    unfoldable pub handle_ollama_generate :
        (Bytes → Option GenerateRequest) → Bytes → Body → ModelCollection → Reply
    unfolding validate_request_body answer_model
    handle_ollama_generate decode_generate content_type read c =
        on_body (λ body. generate_request (decode_generate body) c)
          (validate_request_body is_json content_type read)

    module _ (itoa : ℕ → Bytes) where
      abbrev checked_chat : ChatRequest → ValidationResult × Option Bytes → ModelCollection → Reply
      checked_chat req (v, found) c =
          if has_errors v
          then invalid v.errors
          else answer_model req.model (found_text found) (map fields_of req.messages) c

      unfoldable pub chat_request : Option ChatRequest → ModelCollection → Reply
      unfolding check_chat answer_model
      chat_request none c = refused 400
      chat_request (some req) c = checked_chat req (check_chat itoa req.messages) c

      -- `handleOllamaChat`
      unfoldable pub handle_ollama_chat :
          (Bytes → Option ChatRequest) → Bytes → Body → ModelCollection → Reply
      unfolding validate_request_body chat_request
      handle_ollama_chat decode_chat content_type read c =
          on_body (λ body. chat_request (decode_chat body) c)
            (validate_request_body is_json content_type read)
