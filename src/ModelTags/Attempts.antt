-- ===== src/ModelTags/Attempts.antt =====
-- The requests of a tagging: where they go, how many there are, and what they hold.
use pi_pi_mink.Prelude.{ℕ, ◌≤◌, refl, inl, inr, Bool-cases, arith, All, length}
use pi_pi_mink.Prelude.Text.{Bytes, str_eq}
use pi_pi_mink.Prelude.Dict.{Dict}
use pi_pi_mink.Provider.{
  ProviderConfig, for_model, chat_completions_url, uses_responses_api, provider_type_anthropic,
}
use pi_pi_mink.Client.{Client}
use pi_pi_mink.Requests.{Request, bearer_headers}
use pi_pi_mink.Chat.{Exchange, not_created, failed, broken, answered}
use pi_pi_mink.Chat.Made.{SentTo, endpoint, credentials}
use pi_pi_mink.Tagging.{
  Tagged, Next, finally, retries_user_role_only, retries_no_temp, is_known_non_chat_model,
  no_temp_request, user_role_request, first_request, tags_responses_request, tags_anthropic_request,
}
use pi_pi_mink.ModelTags.{
  Setup, after_no_temp, get_tags_no_temp, user_role_goes_on, after_user_role,
  get_tags_user_role_only, first_goes_on, after_first, get_tags_openai_compatible,
  after_tags_responses, after_tags_anthropic, tags_by_type, get_model_tags, error_message,
  user_role_message, first_message,
}

-- the requests go to one endpoint with one set of headers, and are at most so many
abbrev pub Sent : Bytes → Dict Bytes → ℕ → Tagged → Type 0
Sent url headers most t = All (SentTo url headers) t.made × (length t.made ≤ most)

module _ (env : Setup) (p : ProviderConfig) (model : Bytes) where
  abbrev SentHere : ℕ → Tagged → Type 0
  SentHere = Sent (chat_completions_url p) (bearer_headers p.api_key)

  after_no_temp-Sent :
      (req : Request) (x : Exchange) → Sent req.url req.headers 1 (after_no_temp env req x)
  unfolding after_no_temp
  after_no_temp-Sent req not_created = (tt, omega arith)
  after_no_temp-Sent req failed = (((refl, refl), tt), omega arith)
  after_no_temp-Sent req (broken status part) = (((refl, refl), tt), omega arith)
  after_no_temp-Sent req (answered status body) = (((refl, refl), tt), omega arith)

  get_tags_no_temp-Sent : (attempt : ℕ) → SentHere 1 (get_tags_no_temp env attempt p model)
  unfolding get_tags_no_temp
  get_tags_no_temp-Sent attempt =
      let req = no_temp_request env.prompts env.max_tokens p model in
      after_no_temp-Sent req (env.send attempt req)

  user_role_goes_on-Sent :
      (attempt : ℕ) (req : Request) (n : Next) (body : Bytes)
      → SentTo (chat_completions_url p) (bearer_headers p.api_key) req
      → SentHere 2 (user_role_goes_on env attempt p model req n body)
  unfolding user_role_goes_on
  user_role_goes_on-Sent attempt req (finally f) body s = ((s, tt), omega arith)
  user_role_goes_on-Sent attempt req retries_no_temp body s =
      let (sent, few) = get_tags_no_temp-Sent attempt in ((s, sent), omega (arith, few))
  user_role_goes_on-Sent attempt req retries_user_role_only body s = ((s, tt), omega arith)

  after_user_role-Sent :
      (attempt : ℕ) (req : Request) (x : Exchange)
      → SentTo (chat_completions_url p) (bearer_headers p.api_key) req
      → SentHere 2 (after_user_role env attempt p model req x)
  unfolding after_user_role
  after_user_role-Sent attempt req not_created s = (tt, omega arith)
  after_user_role-Sent attempt req failed s = ((s, tt), omega arith)
  after_user_role-Sent attempt req (broken status part) s = ((s, tt), omega arith)
  after_user_role-Sent attempt req (answered status body) s =
      user_role_goes_on-Sent attempt req (user_role_message env (error_message env status body))
        body s

  get_tags_user_role_only-Sent : SentHere 2 (get_tags_user_role_only env p model)
  unfolding get_tags_user_role_only
  get_tags_user_role_only-Sent =
      let req = user_role_request env.prompts env.max_tokens env.uses_mlx p model in
      after_user_role-Sent 2 req (env.send 1 req) (refl, refl)

  first_goes_on-Sent :
      (req : Request) (n : Next) (body : Bytes)
      → SentTo (chat_completions_url p) (bearer_headers p.api_key) req
      → SentHere 3 (first_goes_on env p model req n body)
  unfolding first_goes_on
  first_goes_on-Sent req (finally f) body s = ((s, tt), omega arith)
  first_goes_on-Sent req retries_no_temp body s =
      let (sent, few) = get_tags_no_temp-Sent 1 in ((s, sent), omega (arith, few))
  first_goes_on-Sent req retries_user_role_only body s =
      let (sent, few) = get_tags_user_role_only-Sent in ((s, sent), omega (arith, few))

  after_first-Sent :
      (req : Request) (x : Exchange)
      → SentTo (chat_completions_url p) (bearer_headers p.api_key) req
      → SentHere 3 (after_first env p model req x)
  unfolding after_first
  after_first-Sent req not_created s = (tt, omega arith)
  after_first-Sent req failed s = ((s, tt), omega arith)
  after_first-Sent req (broken status part) s = ((s, tt), omega arith)
  after_first-Sent req (answered status body) s =
      first_goes_on-Sent req (first_message env (error_message env status body)) body s

  get_tags_openai_compatible-Sent : SentHere 3 (get_tags_openai_compatible env p model)
  unfolding get_tags_openai_compatible
  get_tags_openai_compatible-Sent = elim (Bool-cases (is_known_non_chat_model model)) [
    | inl e ↦ rw e (tt, omega arith)
    | inr e ↦
        let req = first_request env.prompts env.max_tokens env.uses_mlx p model in
        rw e (after_first-Sent req (env.send 0 req) (refl, refl))
  ]

  after_tags_responses-Sent :
      (req : Request) (x : Exchange) → Sent req.url req.headers 3 (after_tags_responses env req x)
  unfolding after_tags_responses
  after_tags_responses-Sent req not_created = (tt, omega arith)
  after_tags_responses-Sent req failed = (((refl, refl), tt), omega arith)
  after_tags_responses-Sent req (broken status part) = (((refl, refl), tt), omega arith)
  after_tags_responses-Sent req (answered status body) = (((refl, refl), tt), omega arith)

  after_tags_anthropic-Sent :
      (req : Request) (x : Exchange) → Sent req.url req.headers 3 (after_tags_anthropic env req x)
  unfolding after_tags_anthropic
  after_tags_anthropic-Sent req not_created = (tt, omega arith)
  after_tags_anthropic-Sent req failed = (((refl, refl), tt), omega arith)
  after_tags_anthropic-Sent req (broken status part) = (((refl, refl), tt), omega arith)
  after_tags_anthropic-Sent req (answered status body) = (((refl, refl), tt), omega arith)

  tags_by_type-Sent : Sent (endpoint p) (credentials p) 3 (tags_by_type env p model)
  unfolding tags_by_type
  tags_by_type-Sent = elim (Bool-cases (str_eq p.type provider_type_anthropic)) [
    | inl e ↦
        let req = tags_anthropic_request env.prompts env.max_tokens p model in
        rw e (after_tags_anthropic-Sent req (env.send 0 req))
    | inr e ↦ elim (Bool-cases (uses_responses_api p)) [
      | inl e' ↦ elim (Bool-cases (is_known_non_chat_model model)) [
        | inl k ↦ rw (e, e', k) (tt, omega arith)
        | inr k ↦
            let req = tags_responses_request env.prompts env.max_tokens p model in
            rw (e, e', k) (after_tags_responses-Sent req (env.send 0 req))
      ]
      | inr e' ↦ rw (e, e') get_tags_openai_compatible-Sent
    ]
  ]

-- All requests of a tagging, three at most, go to the endpoint of the provider with the overrides
-- for the model, and with the key of that endpoint.
pub get_model_tags-Sent :
    (env : Setup) (now done : ℕ) (model : Bytes) (given : ProviderConfig) (c : Client)
    → let p = for_model given model in
      Sent (endpoint p) (credentials p) 3 (get_model_tags env now done model given c).tagged
unfolding get_model_tags
get_model_tags-Sent env now done model given c = tags_by_type-Sent env (for_model given model) model
