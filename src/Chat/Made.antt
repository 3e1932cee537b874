-- ===== src/Chat/Made.antt =====
-- The requests that a chat makes: where they go, with which credentials, and how often.
use pi_pi_mink.Prelude.{
  ℕ, ◌≤◌, Bool, true, false, ◌&&◌, ◌||◌, List, [], ◌∷◌, ◌++◌, ◌≡◌, refl, inl, inr, Bool-cases,
  arith, if◌then◌else◌, All, length, map, select, ◌==◌, Option,
}
use pi_pi_mink.Prelude.Text.{Bytes, codes, str_eq, str_eq_iff}
use pi_pi_mink.Prelude.Int.{ℤ}
use pi_pi_mink.Prelude.Dict.{Dict}
use pi_pi_mink.Json.{text, Fields, remove}
use pi_pi_mink.Answers.{ResponsesBody, extract_api_error_message}
use pi_pi_mink.Provider.{
  ProviderConfig, chat_completions_url, responses_url, uses_responses_api, provider_type_anthropic,
}
use pi_pi_mink.Requests.{
  Request, content_type, bearer_headers, is_temperature_error, completion_payload, split_system,
  completion_request, responses_request, anthropic_request, text_at, entry,
}
use pi_pi_mink.Chat.{
  Exchange, not_created, failed, broken, answered, after_completion, after_responses,
  after_anthropic, chat_with_openai_compatible_model, chat_by_type,
}

-- the endpoint of a provider for chats, and the headers with its key
abbrev pub endpoint : ProviderConfig → Bytes
endpoint p =
    if str_eq p.type provider_type_anthropic
    then p.base_url ++ codes "/v1/messages"
    else if uses_responses_api p
    then responses_url p
    else chat_completions_url p

abbrev pub credentials : ProviderConfig → Dict Bytes
credentials p =
    if str_eq p.type provider_type_anthropic
    then (codes "x-api-key", p.api_key)
      ∷ (codes "anthropic-version", codes "2023-06-01")
      ∷ content_type
    else bearer_headers p.api_key

abbrev pub SentTo : Bytes → Dict Bytes → Request → Type 0
SentTo url headers req = (req.url ≡ url) × (req.headers ≡ headers)

abbrev pub role_is : Bytes → Fields → Bool
role_is role m = str_eq (text_at (codes "role") m) role

abbrev pub is_turn : Fields → Bool
is_turn m = role_is (codes "user") m || role_is (codes "assistant") m

abbrev pub turn_of : Fields → Fields
turn_of m = entry (text_at (codes "role") m) (text (text_at (codes "content") m))

roles_differ :
    (r : Bytes)
    → str_eq r (codes "system") ≡ true
    → (str_eq r (codes "user") || str_eq r (codes "assistant")) ≡ false
unfolding str_eq
roles_differ r e =
    let same : r ≡ codes "system" = (str_eq_iff r (codes "system")).0 e in rw same refl

-- For Anthropic, a conversation is split into the contents of its system messages and into its
-- user and assistant messages, both complete and in order; messages of other roles are dropped.
pub split_system_lem :
    (ms : List Fields)
    → split_system ms ≡ (
      map (text_at (codes "content")) (select (role_is (codes "system")) ms),
      map turn_of (select is_turn ms),
    )
unfolding split_system
split_system_lem [] = refl
split_system_lem (m ∷ ms) =
    let ih = split_system_lem ms in
    elim (Bool-cases (role_is (codes "system") m)) [
      | inl e ↦ rw (e, roles_differ (text_at (codes "role") m) e, ih) refl
      | inr e ↦ elim (Bool-cases (is_turn m)) [
        | inl t ↦ rw (e, t, ih) refl
        | inr t ↦ rw (e, t, ih) refl
      ]
    ]

module _ (send : ℕ → Request → Exchange) (decode : Bytes → Option Fields)
    (decode_responses : Bytes → Option ResponsesBody) (uses_mlx : Bool) (max_tokens : ℤ) where
  after_completion-SentTo :
      (req : Request) (x : Exchange)
      → All
          (SentTo req.url req.headers)
          (after_completion send decode decode_responses uses_mlx max_tokens req x).made
        × (length (after_completion send decode decode_responses uses_mlx max_tokens req x).made
            ≤ 2)
  unfolding after_completion
  after_completion-SentTo req not_created = (tt, omega arith)
  after_completion-SentTo req failed = (((refl, refl), tt), omega arith)
  after_completion-SentTo req (broken status part) = (((refl, refl), tt), omega arith)
  after_completion-SentTo req (answered status body) =
      elim (Bool-cases
        (status == 400 && is_temperature_error (extract_api_error_message decode body))) [
          | inl e ↦ rw e (((refl, refl), ((refl, refl), tt)), omega arith)
          | inr e ↦ rw e (((refl, refl), tt), omega arith)
        ]

  after_responses-SentTo :
      (req : Request) (x : Exchange)
      → All
          (SentTo req.url req.headers)
          (after_responses send decode decode_responses uses_mlx max_tokens req x).made
        × (length (after_responses send decode decode_responses uses_mlx max_tokens req x).made ≤ 2)
  unfolding after_responses
  after_responses-SentTo req not_created = (tt, omega arith)
  after_responses-SentTo req failed = (((refl, refl), tt), omega arith)
  after_responses-SentTo req (broken status part) = (((refl, refl), tt), omega arith)
  after_responses-SentTo req (answered status body) = (((refl, refl), tt), omega arith)

  after_anthropic-SentTo :
      (req : Request) (x : Exchange)
      → All
          (SentTo req.url req.headers)
          (after_anthropic send decode decode_responses uses_mlx max_tokens req x).made
        × (length (after_anthropic send decode decode_responses uses_mlx max_tokens req x).made ≤ 2)
  unfolding after_anthropic
  after_anthropic-SentTo req not_created = (tt, omega arith)
  after_anthropic-SentTo req failed = (((refl, refl), tt), omega arith)
  after_anthropic-SentTo req (broken status part) = (((refl, refl), tt), omega arith)
  after_anthropic-SentTo req (answered status body) = (((refl, refl), tt), omega arith)

  pub chat_by_type-SentTo :
      (p : ProviderConfig) (model : Bytes) (messages : List Fields)
      → All
          (SentTo (endpoint p) (credentials p))
          (chat_by_type send decode decode_responses uses_mlx max_tokens p model messages).made
        × (length
              (chat_by_type send decode decode_responses uses_mlx max_tokens p model messages).made
            ≤ 2)
  unfolding chat_by_type
  chat_by_type-SentTo p model messages = elim (Bool-cases (str_eq p.type provider_type_anthropic)) [
    | inl e ↦ rw e (
        after_anthropic-SentTo (anthropic_request max_tokens p model messages)
          (send 0 (anthropic_request max_tokens p model messages)))
    | inr e ↦ elim (Bool-cases (uses_responses_api p)) [
      | inl e' ↦
          rw (e, e')
            (after_responses-SentTo (responses_request p model messages)
              (send 0 (responses_request p model messages)))
      | inr e' ↦
          rw (e, e')
            (after_completion-SentTo (completion_request uses_mlx p model messages)
              (send 0 (completion_request uses_mlx p model messages)))
    ]
  ]

  remove_temperature :
      (model : Bytes) (messages : List Fields) (cold : Bool)
      → remove (codes "temperature") (completion_payload model messages cold)
        ≡ completion_payload model messages true
  unfolding remove str_eq
  remove_temperature model messages true = refl
  remove_temperature model messages false = refl

  -- Once the first request of a chat completion is answered, there is a second one exactly if the
  -- answer is a 400 whose message blames the temperature. The second request is the first without
  -- a temperature, and there is no third.
  pub chat_with_openai_compatible_model_retry :
      (p : ProviderConfig) (model : Bytes) (messages : List Fields) (status : ℕ) (body : Bytes)
      → send 0 (completion_request uses_mlx p model messages) ≡ answered status body
      → (chat_with_openai_compatible_model send decode decode_responses uses_mlx max_tokens p model
          messages).made
        ≡ (let req = completion_request uses_mlx p model messages in
            if status == 400 && is_temperature_error (extract_api_error_message decode body)
            then req ∷ record req { payload = completion_payload model messages true } ∷ []
            else req ∷ [])
  unfolding chat_with_openai_compatible_model after_completion
  chat_with_openai_compatible_model_retry p model messages status body e =
      elim (Bool-cases
        (status == 400 && is_temperature_error (extract_api_error_message decode body))) [
          | inl hot ↦ rw (e, hot, remove_temperature) refl
          | inr fine ↦ rw (e, fine) refl
        ]
