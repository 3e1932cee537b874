-- ===== src/ModelTags.antt =====
-- internal/llm/model_tags.go: `GetModelTags` asks a model for its capabilities, with the retries that
-- some models need. The HTTP client is the function `send` of the number of the attempt and of the
-- request; `is_json` and `is_object` are the decoders of `extractJSON`.
pub mod Attempts
pub mod Verdicts
use pi_pi_mink.Prelude.{ℕ, Bool, Option, none, some, List, [], ◌∷◌, ◌++◌, if◌then◌else◌, leb}
use pi_pi_mink.Prelude.Int.{ℤ}
use pi_pi_mink.Prelude.Text.{Bytes, codes, str_eq, is_empty}
use pi_pi_mink.Json.{Fields, get, as_array}
use pi_pi_mink.Answers.{
  Failure, Result, ok, err, no_request, no_reply, unread, bad_json, no_choices, choice_content,
  extract_anthropic_content, extract_responses_content, extract_api_error_message, ResponsesBody,
}
use pi_pi_mink.Extract.{extract_json}
use pi_pi_mink.Provider.{ProviderConfig, for_model, uses_responses_api, provider_type_anthropic}
use pi_pi_mink.Client.{Client, rate_limiter_for}
use pi_pi_mink.Requests.{Request}
use pi_pi_mink.Chat.{Exchange, not_created, failed, broken, answered, held, released}
use pi_pi_mink.Tagging.{
  Prompts, Verdict, tags, disable, delete, fails, Tagged, is_known_non_chat_model,
  incompatible_tags, Final, deletes, disables, reads, Next, finally, retries_user_role_only,
  retries_no_temp, final_of, responses_final_of, user_role_next_of, first_next_of, first_request,
  user_role_request, no_temp_request, tags_responses_request, tags_anthropic_request,
}

-- a verdict after one request
abbrev pub after : Request → Verdict → Tagged
after req v = record { made = req ∷ []; verdict = v }

-- a retry, behind the request that led to it
abbrev pub behind : Request → Tagged → Tagged
behind req t = record { made = req ∷ t.made; verdict = t.verdict }

abbrev pub nothing_made : Verdict → Tagged
nothing_made v = record { made = []; verdict = v }

-- what a run of the tagging depends on
pub record Setup : Type 0 where
  pub send : ℕ → Request → Exchange
  pub decode : Bytes → Option Fields
  pub decode_responses : Bytes → Option ResponsesBody
  pub is_json : Bytes → Bool
  pub is_object : Bytes → Bool
  pub prompts : Prompts
  pub max_tokens : ℤ
  pub uses_mlx : Bool

module _ (env : Setup) where
  open env use {send, decode, decode_responses, is_json, is_object, prompts, max_tokens, uses_mlx}

  abbrev pub extracted : Result → Verdict
  extracted (ok content) = tags (extract_json is_json is_object content)
  extracted (err f) = fails f

  -- `extractTagsFromOpenAIResponse`
  unfoldable pub extract_tags_from_openai_response : Bytes → Verdict
  extract_tags_from_openai_response body = elim (decode body) [
    | none ↦ fails bad_json
    | some result ↦ elim (as_array (get (codes "choices") result)) [
      | none ↦ fails no_choices
      | some choices ↦ extracted (choice_content choices)
    ]
  ]

  -- the message of an answer that is an error, and "" for any other
  unfoldable pub error_message : ℕ → Bytes → Bytes
  error_message status body = if leb 400 status then extract_api_error_message decode body else []

  unfoldable pub conclude_tags : Final → Bytes → Verdict
  unfolding extract_tags_from_openai_response
  conclude_tags deletes body = delete
  conclude_tags disables body = disable incompatible_tags
  conclude_tags reads body = extract_tags_from_openai_response body

  -- the tests on the message are made only if there is one
  abbrev pub final_message : Bytes → Final
  final_message msg = if is_empty msg then reads else final_of msg

  abbrev pub user_role_message : Bytes → Next
  user_role_message msg = if is_empty msg then finally reads else user_role_next_of msg

  abbrev pub first_message : Bytes → Next
  first_message msg = if is_empty msg then finally reads else first_next_of msg

  -- `getTagsOpenAICompatibleNoTemp`
  unfoldable pub after_no_temp : Request → Exchange → Tagged
  unfolding conclude_tags
  after_no_temp req not_created = nothing_made (fails no_request)
  after_no_temp req failed = after req (fails no_reply)
  after_no_temp req (broken status part) = after req (fails unread)
  after_no_temp req (answered status body) =
      after req (conclude_tags (final_message (error_message status body)) body)

  unfoldable pub get_tags_no_temp : ℕ → ProviderConfig → Bytes → Tagged
  unfolding after_no_temp
  get_tags_no_temp attempt p model =
      let req = no_temp_request prompts max_tokens p model in after_no_temp req (send attempt req)

  -- `getTagsOpenAICompatibleUserRoleOnly`, on what the message comes to; `attempt` is the number of
  -- the next request. A message never sends the second attempt into itself.
  unfoldable pub user_role_goes_on : ℕ → ProviderConfig → Bytes → Request → Next → Bytes → Tagged
  unfolding get_tags_no_temp
  user_role_goes_on attempt p model req (finally f) body = after req (conclude_tags f body)
  user_role_goes_on attempt p model req retries_no_temp body =
      behind req (get_tags_no_temp attempt p model)
  user_role_goes_on attempt p model req retries_user_role_only body =
      after req (conclude_tags reads body)

  unfoldable pub after_user_role : ℕ → ProviderConfig → Bytes → Request → Exchange → Tagged
  unfolding user_role_goes_on
  after_user_role attempt p model req not_created = nothing_made (fails no_request)
  after_user_role attempt p model req failed = after req (fails no_reply)
  after_user_role attempt p model req (broken status part) = after req (fails unread)
  after_user_role attempt p model req (answered status body) =
      user_role_goes_on attempt p model req (user_role_message (error_message status body)) body

  unfoldable pub get_tags_user_role_only : ProviderConfig → Bytes → Tagged
  unfolding after_user_role
  get_tags_user_role_only p model =
      let req = user_role_request prompts max_tokens uses_mlx p model in
      after_user_role 2 p model req (send 1 req)

  -- `getTagsOpenAICompatible`, on what the message comes to
  unfoldable pub first_goes_on : ProviderConfig → Bytes → Request → Next → Bytes → Tagged
  unfolding get_tags_no_temp get_tags_user_role_only
  first_goes_on p model req (finally f) body = after req (conclude_tags f body)
  first_goes_on p model req retries_no_temp body = behind req (get_tags_no_temp 1 p model)
  first_goes_on p model req retries_user_role_only body =
      behind req (get_tags_user_role_only p model)

  unfoldable pub after_first : ProviderConfig → Bytes → Request → Exchange → Tagged
  unfolding first_goes_on
  after_first p model req not_created = nothing_made (fails no_request)
  after_first p model req failed = after req (fails no_reply)
  after_first p model req (broken status part) = after req (fails unread)
  after_first p model req (answered status body) =
      first_goes_on p model req (first_message (error_message status body)) body

  unfoldable pub get_tags_openai_compatible : ProviderConfig → Bytes → Tagged
  unfolding after_first
  get_tags_openai_compatible p model =
      if is_known_non_chat_model model
      then nothing_made delete
      else (let req = first_request prompts max_tokens uses_mlx p model in
          after_first p model req (send 0 req))

  -- `getTagsOpenAIResponses`
  unfoldable pub conclude_responses : Final → Bytes → Verdict
  conclude_responses deletes body = delete
  conclude_responses disables body = disable incompatible_tags
  conclude_responses reads body = extracted (extract_responses_content decode_responses body)

  unfoldable pub after_tags_responses : Request → Exchange → Tagged
  unfolding conclude_responses
  after_tags_responses req not_created = nothing_made (fails no_request)
  after_tags_responses req failed = after req (fails no_reply)
  after_tags_responses req (broken status part) = after req (fails unread)
  after_tags_responses req (answered status body) =
      let msg = error_message status body in
      after req (conclude_responses (if is_empty msg then reads else responses_final_of msg) body)

  unfoldable pub get_tags_openai_responses : ProviderConfig → Bytes → Tagged
  unfolding after_tags_responses
  get_tags_openai_responses p model =
      if is_known_non_chat_model model
      then nothing_made delete
      else (let req = tags_responses_request prompts max_tokens p model in
          after_tags_responses req (send 0 req))

  -- `getTagsAnthropic`
  unfoldable pub after_tags_anthropic : Request → Exchange → Tagged
  after_tags_anthropic req not_created = nothing_made (fails no_request)
  after_tags_anthropic req failed = after req (fails no_reply)
  after_tags_anthropic req (broken status part) = after req (fails unread)
  after_tags_anthropic req (answered status body) =
      after req (extracted (extract_anthropic_content decode body))

  unfoldable pub get_tags_anthropic : ProviderConfig → Bytes → Tagged
  unfolding after_tags_anthropic
  get_tags_anthropic p model =
      let req = tags_anthropic_request prompts max_tokens p model in
      after_tags_anthropic req (send 0 req)

  -- the switch of `GetModelTags`
  unfoldable pub tags_by_type : ProviderConfig → Bytes → Tagged
  unfolding get_tags_anthropic get_tags_openai_responses get_tags_openai_compatible
  tags_by_type p model =
      if str_eq p.type provider_type_anthropic
      then get_tags_anthropic p model
      else if uses_responses_api p
      then get_tags_openai_responses p model
      else get_tags_openai_compatible p model

-- one call of `GetModelTags`: the client afterwards, the sleep, and the rest
pub record TagRun : Type 0 where
  pub client : Client
  pub slept : ℕ
  pub tagged : Tagged

-- `GetModelTags`, entered at `now`; the last answer is there at `done`
unfoldable pub get_model_tags : Setup → ℕ → ℕ → Bytes → ProviderConfig → Client → TagRun
unfolding tags_by_type held released
get_model_tags env now done model given c =
    let p = for_model given model in
    let rl = rate_limiter_for p.name c in
    record { client = released done rl c; slept = held now rl c; tagged = tags_by_type env p model }
