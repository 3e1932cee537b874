-- ===== src/Tagging.antt =====
-- internal/llm/model_tags.go: the prompts, the requests that ask a model for its capabilities, and
-- what an error message of the provider comes to.
use pi_pi_mink.Prelude.{
  Bool, true, ◌&&◌, ◌||◌, not, Option, none, some, List, [], ◌∷◌, ◌++◌, if◌then◌else◌,
}
use pi_pi_mink.Prelude.Int.{ℤ, pos, is_pos}
use pi_pi_mink.Prelude.Text.{Bytes, codes, is_empty, has_prefix, contains, to_lower}
use pi_pi_mink.Json.{text, number, integer, array, Fields, blank, field, array_of}
use pi_pi_mink.Answers.{Failure}
use pi_pi_mink.Provider.{ProviderConfig, chat_completions_url, responses_url}
use pi_pi_mink.Requests.{
  Request, content_type, bearer_headers, is_reasoning_model_no_sys_msg, is_temperature_error,
  objects, entry, build_responses_input, is_local,
}

-- the prompts of the client; the empty text stands for the built-in one
pub record Prompts : Type 0 where
  pub system : Bytes
  pub user : Bytes
  pub user_no_sys : Bytes

-- `UpdateTaggingPrompts`
unfoldable pub update_tagging_prompts : Bytes → Bytes → Bytes → Prompts → Prompts
update_tagging_prompts system user user_no_sys old = record {
  system = if not (is_empty system) then system else old.system;
  user = if not (is_empty user) then user else old.user;
  user_no_sys = if not (is_empty user_no_sys) then user_no_sys else old.user_no_sys;
}

-- `activeTaggingSystemPrompt` and its two like; `builtin` has the constants
unfoldable pub active_prompts : Prompts → Prompts → Prompts
active_prompts builtin own = record {
  system = if not (is_empty own.system) then own.system else builtin.system;
  user = if not (is_empty own.user) then own.user else builtin.user;
  user_no_sys = if not (is_empty own.user_no_sys) then own.user_no_sys else builtin.user_no_sys;
}

-- `taggingMaxTokens`; `none` is a client without a configuration
unfoldable pub tagging_max_tokens : Option ℤ → ℤ
tagging_max_tokens none = pos 1024
tagging_max_tokens (some n) = if is_pos n then n else pos 1024

-- The four results of `GetModelTags`: the tags, the tags with the flag to disable the model, the
-- flag to delete it, or an error.
pub data Verdict : Type 0 where
  tags : Bytes → Verdict
  disable : Bytes → Verdict
  delete : Verdict
  fails : Failure → Verdict

pub record Tagged : Type 0 where
  pub made : List Request
  pub verdict : Verdict

-- `isKnownNonChatModel`
unfoldable pub is_known_non_chat_model : Bytes → Bool
is_known_non_chat_model model =
    let m = to_lower model in
    contains (codes "dall-e") m
    || contains (codes "gpt-image") m
    || contains (codes "sora") m
    || contains (codes "text-embedding") m
    || has_prefix (codes "embedding") m
    || has_prefix (codes "whisper") m
    || has_prefix (codes "tts-") m
    || contains (codes "moderation") m

-- `IsModelIncompatibleError` of compatibility.go
unfoldable pub is_model_incompatible_error : Bytes → Bool
is_model_incompatible_error message =
    contains
      (codes "This model requires that either input content or output modality contain audio")
      message
    || contains (codes "This model requires input content in a different modality") message
    || contains (codes "This model doesn't support text input") message
    || contains (codes "This model requires specific input formats") message

abbrev pub incompatible_tags : Bytes
incompatible_tags = codes "{\"strengths\":[\"unavailable\"],\"weaknesses\":[\"text-incompatible\"]}"

-- What an error message comes to at the end: it ends with a verdict, or the body is read all the same.
pub data Final : Type 0 where
  deletes disables reads : Final

-- What it comes to in an attempt that may be followed by another.
pub data Next : Type 0 where
  finally : Final → Next
  retries_user_role_only retries_no_temp : Next

unfoldable pub is_not_chat : Bytes → Bool
is_not_chat msg =
    contains (codes "This is not a chat model") msg
    || contains (codes "not supported in the v1/chat/completions endpoint") msg

abbrev pub only_responses : Bytes → Bool
only_responses msg = contains (codes "only supported in v1/responses") msg

-- the tests of `getTagsOpenAICompatibleNoTemp`
unfoldable pub final_of : Bytes → Final
unfolding is_not_chat
final_of msg =
    if is_not_chat msg || only_responses msg
    then deletes
    else if is_model_incompatible_error msg
    then disables
    else reads

-- those of `getTagsOpenAIResponses`
unfoldable pub responses_final_of : Bytes → Final
responses_final_of msg =
    if is_not_chat msg then deletes else if is_model_incompatible_error msg then disables else reads

-- those of `getTagsOpenAICompatibleUserRoleOnly`
unfoldable pub user_role_next_of : Bytes → Next
user_role_next_of msg =
    if is_not_chat msg || only_responses msg
    then finally deletes
    else if is_temperature_error msg
    then retries_no_temp
    else if is_model_incompatible_error msg
    then finally disables
    else finally reads

-- those of `getTagsOpenAICompatible`
unfoldable pub first_next_of : Bytes → Next
first_next_of msg =
    if only_responses msg
    then finally deletes
    else if is_not_chat msg
    then finally deletes
    else if contains (codes "role' does not support 'system'") msg
    then retries_user_role_only
    else if is_temperature_error msg
    then retries_no_temp
    else if is_model_incompatible_error msg
    then finally disables
    else finally reads

-- a payload for `/v1/chat/completions`
abbrev pub tags_payload : Bytes → ℤ → List Fields → Bool → Fields
tags_payload model max_tokens messages cold =
    let payload = field (codes "model") (text model) (
      field (codes "max_tokens") (integer max_tokens) (
        field (codes "stop") (array (array_of (text (codes "<|user|>") ∷ [])))
          (field (codes "messages") (array (array_of (objects messages))) blank))) in
    if cold then payload else field (codes "temperature") (number 0) payload

-- the two forms of the conversation
abbrev pub user_only : Prompts → List Fields
user_only prompts = entry (codes "user") (text prompts.user_no_sys) ∷ []

abbrev pub with_system : Prompts → List Fields
with_system prompts =
    entry (codes "system") (text prompts.system) ∷ entry (codes "user") (text prompts.user) ∷ []

abbrev pub messages_for : Prompts → Bytes → List Fields
messages_for prompts model =
    if is_reasoning_model_no_sys_msg model then user_only prompts else with_system prompts

-- the requests of the three functions for `/v1/chat/completions`
abbrev pub tags_request : ProviderConfig → Fields → Request
tags_request p payload = record {
  url = chat_completions_url p;
  headers = bearer_headers p.api_key;
  payload = payload;
}

abbrev pub first_request : Prompts → ℤ → Bool → ProviderConfig → Bytes → Request
first_request prompts max_tokens uses_mlx p model = tags_request p (
    tags_payload model max_tokens (messages_for prompts model)
      (is_reasoning_model_no_sys_msg model || (is_local p && uses_mlx)))

abbrev pub user_role_request : Prompts → ℤ → Bool → ProviderConfig → Bytes → Request
user_role_request prompts max_tokens uses_mlx p model = tags_request p (
    tags_payload model max_tokens (user_only prompts)
      (is_reasoning_model_no_sys_msg model || (is_local p && uses_mlx)))

abbrev pub no_temp_request : Prompts → ℤ → ProviderConfig → Bytes → Request
no_temp_request prompts max_tokens p model =
    tags_request p (tags_payload model max_tokens (messages_for prompts model) true)

-- `buildResponsesPayload` with `maxOutputTokens`
abbrev pub tags_responses_request : Prompts → ℤ → ProviderConfig → Bytes → Request
tags_responses_request prompts max_tokens p model = record {
  url = responses_url p;
  headers = bearer_headers p.api_key;
  payload =
      let payload = field (codes "model") (text model) (
        field (codes "input")
          (array (array_of (objects (build_responses_input (messages_for prompts model)))))
          blank) in
      if is_pos max_tokens
      then field (codes "max_output_tokens") (integer max_tokens) payload
      else payload;
}

abbrev pub tags_anthropic_request : Prompts → ℤ → ProviderConfig → Bytes → Request
tags_anthropic_request prompts max_tokens p model = record {
  url = p.base_url ++ codes "/v1/messages";
  headers =
      (codes "x-api-key", p.api_key)
      ∷ (codes "anthropic-version", codes "2023-06-01")
      ∷ content_type;
  payload = field (codes "model") (text model) (
      field (codes "max_tokens") (integer max_tokens) (
        field (codes "system") (text prompts.system) (
          field (codes "messages")
            (array (array_of (objects (entry (codes "user") (text prompts.user) ∷ [])))) blank)));
}
