-- ===== src/ModelTags/Verdicts.antt =====
-- What a tagging finds.
use pi_pi_mink.Prelude.{ℕ, ◌≡◌, refl, inl, inr, Bool-cases, Option-cases}
use pi_pi_mink.Prelude.Text.{Bytes, codes, str_eq}
use pi_pi_mink.Json.{get, as_array}
use pi_pi_mink.Answers.{
  Result, ok, err, choice_content, extract_responses_content, extract_anthropic_content,
}
use pi_pi_mink.Extract.Sound.{Decodes, extract_json-Decodes}
use pi_pi_mink.Provider.{ProviderConfig, for_model, uses_responses_api, provider_type_anthropic}
use pi_pi_mink.Client.{Client}
use pi_pi_mink.Requests.{Request}
use pi_pi_mink.Chat.{Exchange, not_created, failed, broken, answered}
use pi_pi_mink.Tagging.{
  Verdict, tags, disable, delete, fails, Final, deletes, disables, reads, Next, finally,
  retries_user_role_only, retries_no_temp, is_known_non_chat_model, incompatible_tags,
  first_request, user_role_request, no_temp_request, tags_responses_request, tags_anthropic_request,
}
use pi_pi_mink.ModelTags.{
  Setup, extracted, extract_tags_from_openai_response, conclude_tags, after_no_temp,
  get_tags_no_temp, user_role_goes_on, after_user_role, get_tags_user_role_only, first_goes_on,
  after_first, conclude_responses, after_tags_responses, after_tags_anthropic, tags_by_type,
  get_model_tags, error_message, user_role_message, first_message, final_message,
}

module _ (env : Setup) where
  -- the tags of a verdict decode, and those of a model that is to be disabled are the constant
  abbrev pub Usable : Verdict → Type 0
  Usable (tags t) = Decodes env.is_json env.is_object t
  Usable (disable t) = t ≡ incompatible_tags
  Usable delete = Unit
  Usable (fails f) = Unit

  extracted-Usable : (r : Result) → Usable (extracted env r)
  extracted-Usable (ok content) = extract_json-Decodes env.is_json env.is_object content
  extracted-Usable (err f) = tt

  extract_tags_from_openai_response-Usable :
      (body : Bytes) → Usable (extract_tags_from_openai_response env body)
  unfolding extract_tags_from_openai_response
  extract_tags_from_openai_response-Usable body = elim (Option-cases (env.decode body)) [
    | inl e ↦ rw (e, extract_tags_from_openai_response) tt
    | inr (result, e) ↦ elim (Option-cases (as_array (get (codes "choices") result))) [
      | inl e' ↦ rw (e, e', extract_tags_from_openai_response) tt
      | inr (choices, e') ↦
          rw (e, e', extract_tags_from_openai_response) (extracted-Usable (choice_content choices))
    ]
  ]

  conclude_tags-Usable : (f : Final) (body : Bytes) → Usable (conclude_tags env f body)
  unfolding conclude_tags
  conclude_tags-Usable deletes body = tt
  conclude_tags-Usable disables body = refl
  conclude_tags-Usable reads body = extract_tags_from_openai_response-Usable body

  conclude_responses-Usable : (f : Final) (body : Bytes) → Usable (conclude_responses env f body)
  unfolding conclude_responses
  conclude_responses-Usable deletes body = tt
  conclude_responses-Usable disables body = refl
  conclude_responses-Usable reads body =
      extracted-Usable (extract_responses_content env.decode_responses body)

  after_no_temp-Usable : (req : Request) (x : Exchange) → Usable (after_no_temp env req x).verdict
  unfolding after_no_temp
  after_no_temp-Usable req not_created = tt
  after_no_temp-Usable req failed = tt
  after_no_temp-Usable req (broken status part) = tt
  after_no_temp-Usable req (answered status body) =
      conclude_tags-Usable (final_message env (error_message env status body)) body

  module _ (p : ProviderConfig) (model : Bytes) where
    get_tags_no_temp-Usable : (attempt : ℕ) → Usable (get_tags_no_temp env attempt p model).verdict
    unfolding get_tags_no_temp
    get_tags_no_temp-Usable attempt =
        let req = no_temp_request env.prompts env.max_tokens p model in
        after_no_temp-Usable req (env.send attempt req)

    user_role_goes_on-Usable :
        (attempt : ℕ) (req : Request) (n : Next) (body : Bytes)
        → Usable (user_role_goes_on env attempt p model req n body).verdict
    unfolding user_role_goes_on
    user_role_goes_on-Usable attempt req (finally f) body = conclude_tags-Usable f body
    user_role_goes_on-Usable attempt req retries_no_temp body = get_tags_no_temp-Usable attempt
    user_role_goes_on-Usable attempt req retries_user_role_only body =
        conclude_tags-Usable reads body

    after_user_role-Usable :
        (attempt : ℕ) (req : Request) (x : Exchange)
        → Usable (after_user_role env attempt p model req x).verdict
    unfolding after_user_role
    after_user_role-Usable attempt req not_created = tt
    after_user_role-Usable attempt req failed = tt
    after_user_role-Usable attempt req (broken status part) = tt
    after_user_role-Usable attempt req (answered status body) =
        user_role_goes_on-Usable attempt req (user_role_message env (error_message env status body))
          body

    first_goes_on-Usable :
        (req : Request) (n : Next) (body : Bytes)
        → Usable (first_goes_on env p model req n body).verdict
    unfolding first_goes_on get_tags_user_role_only
    first_goes_on-Usable req (finally f) body = conclude_tags-Usable f body
    first_goes_on-Usable req retries_no_temp body = get_tags_no_temp-Usable 1
    first_goes_on-Usable req retries_user_role_only body =
        let r = user_role_request env.prompts env.max_tokens env.uses_mlx p model in
        after_user_role-Usable 2 r (env.send 1 r)

    after_first-Usable :
        (req : Request) (x : Exchange) → Usable (after_first env p model req x).verdict
    unfolding after_first
    after_first-Usable req not_created = tt
    after_first-Usable req failed = tt
    after_first-Usable req (broken status part) = tt
    after_first-Usable req (answered status body) =
        first_goes_on-Usable req (first_message env (error_message env status body)) body

    after_tags_responses-Usable :
        (req : Request) (x : Exchange) → Usable (after_tags_responses env req x).verdict
    unfolding after_tags_responses
    after_tags_responses-Usable req not_created = tt
    after_tags_responses-Usable req failed = tt
    after_tags_responses-Usable req (broken status part) = tt
    after_tags_responses-Usable req (answered status body) = conclude_responses-Usable _ body

    after_tags_anthropic-Usable :
        (req : Request) (x : Exchange) → Usable (after_tags_anthropic env req x).verdict
    unfolding after_tags_anthropic
    after_tags_anthropic-Usable req not_created = tt
    after_tags_anthropic-Usable req failed = tt
    after_tags_anthropic-Usable req (broken status part) = tt
    after_tags_anthropic-Usable req (answered status body) =
        extracted-Usable (extract_anthropic_content env.decode body)

    tags_by_type-Usable : Usable (tags_by_type env p model).verdict
    unfolding tags_by_type
    tags_by_type-Usable = elim (Bool-cases (str_eq p.type provider_type_anthropic)) [
      | inl e ↦
          let req = tags_anthropic_request env.prompts env.max_tokens p model in
          rw e (after_tags_anthropic-Usable req (env.send 0 req))
      | inr e ↦ elim (Bool-cases (uses_responses_api p)) [
        | inl e' ↦ elim (Bool-cases (is_known_non_chat_model model)) [
          | inl k ↦ rw (e, e', k) tt
          | inr k ↦
              let req = tags_responses_request env.prompts env.max_tokens p model in
              rw (e, e', k) (after_tags_responses-Usable req (env.send 0 req))
        ]
        | inr e' ↦ elim (Bool-cases (is_known_non_chat_model model)) [
          | inl k ↦ rw (e, e', k) tt
          | inr k ↦
              let req = first_request env.prompts env.max_tokens env.uses_mlx p model in
              rw (e, e', k) (after_first-Usable req (env.send 0 req))
        ]
      ]
    ]

-- Whatever the provider answers, the tags of a verdict decode as JSON or as an object, or are the
-- constant for no tags; a model that is to be disabled gets the constant for it.
pub get_model_tags-Usable :
    (env : Setup) (now done : ℕ) (model : Bytes) (given : ProviderConfig) (c : Client)
    → Usable env (get_model_tags env now done model given c).tagged.verdict
unfolding get_model_tags
get_model_tags-Usable env now done model given c =
    tags_by_type-Usable env (for_model given model) model
