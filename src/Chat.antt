-- ===== src/Chat.antt =====
-- internal/llm/chat.go: a conversation is sent to the provider of a model, in the format of the
-- provider's type. The HTTP client is the parameter `send`, a function of the number of the attempt
-- and of the request; `uses_mlx` is what `isLocalServerUsingMLX` answers.
pub mod Made
pub mod Dispatch
use pi_pi_mink.Prelude.{
  ℕ, zero, suc, Bool, true, false, ◌&&◌, ◌||◌, not, Option, none, some, List, [], ◌∷◌, ◌++◌,
  if◌then◌else◌, ◌==◌, leb,
}
use pi_pi_mink.Prelude.Int.{ℤ, is_pos, to_ℕ}
use pi_pi_mink.Prelude.Text.{Bytes, codes, str_eq, is_empty, has_prefix, contains, to_lower}
use pi_pi_mink.Prelude.Dict.{Dict}
use pi_pi_mink.Json.{
  Value, null, text, number, integer, array, object, Fields, blank, field, get, remove, as_text,
  as_array, array_of,
}
use pi_pi_mink.Answers.{
  Result, ok, err, no_request, no_reply, unread, bad_json, no_choices, http_error, unknown_provider,
  choice_content, extract_anthropic_content, extract_responses_content, extract_api_error_message,
  ResponsesBody,
}
use pi_pi_mink.Models.{ModelInfo}
use pi_pi_mink.Provider.{
  ProviderConfig, for_model, chat_completions_url, responses_url, uses_responses_api,
  provider_type_anthropic,
}
use pi_pi_mink.Client.{
  Client, RateLimiter, find_provider, rate_limiter_for, wait, update_last_request_time,
}
use pi_pi_mink.Requests.{
  Request, is_temperature_error, completion_request, responses_request, anthropic_request,
}

-- What comes of a request: it is not created, `Do` fails, the body breaks off, or it is read.
pub data Exchange : Type 0 where
  not_created failed : Exchange
  broken answered : ℕ → Bytes → Exchange

-- The requests that were made, in order, and what is returned. A retry has the method and the URL
-- of the first request, and so is created if that was.
pub record Outcome : Type 0 where
  pub made : List Request
  pub result : Result

-- the limiter at an address, changed
unfoldable pub touch : ℕ → ℕ → List RateLimiter → List RateLimiter
touch now i [] = []
touch now zero (r ∷ rs) = update_last_request_time now r ∷ rs
touch now (suc i) (r ∷ rs) = r ∷ touch now i rs

unfoldable pub limiter_at : ℕ → List RateLimiter → Option RateLimiter
limiter_at i [] = none
limiter_at zero (r ∷ rs) = some r
limiter_at (suc i) (r ∷ rs) = limiter_at i rs

-- how long `rl.Wait()` holds the caller
unfoldable pub held : ℕ → Option ℕ → Client → ℕ
held now none c = 0
held now (some i) c = elim (limiter_at i c.limiters) [ none ↦ 0 | some r ↦ wait now r ]

-- the client after the deferred `rl.UpdateLastRequestTime()`
unfoldable pub released : ℕ → Option ℕ → Client → Client
released done none c = c
released done (some i) c = record c { limiters = touch done i c.limiters }

-- one call of `ChatWithModel`: the client afterwards, the sleep, and the rest
pub record ChatRun : Type 0 where
  pub client : Client
  pub slept : ℕ
  pub outcome : Outcome

module _ (send : ℕ → Request → Exchange) (decode : Bytes → Option Fields)
    (decode_responses : Bytes → Option ResponsesBody) (uses_mlx : Bool) (max_tokens : ℤ) where
  -- the end of `chatWithOpenAICompatibleModel`
  unfoldable pub completion_content : Bytes → Result
  completion_content body = elim (decode body) [
    | none ↦ err bad_json
    | some result ↦ elim (as_array (get (codes "choices") result)) [
      | none ↦ err no_choices
      | some choices ↦ choice_content choices
    ]
  ]

  -- the body after the retry; if there is none, that of the first answer
  unfoldable pub retried_body : Bytes → Exchange → Bytes
  retried_body body not_created = body
  retried_body body failed = body
  retried_body body (broken status part) = part
  retried_body body (answered status body') = body'

  -- what is done with the answer to the first request
  unfoldable pub after_completion : Request → Exchange → Outcome
  unfolding completion_content
  after_completion req not_created = record { made = []; result = err no_request }
  after_completion req failed = record { made = req ∷ []; result = err no_reply }
  after_completion req (broken status part) = record { made = req ∷ []; result = err unread }
  after_completion req (answered status body) =
      let retry = record req { payload = remove (codes "temperature") req.payload } in
      if status == 400 && is_temperature_error (extract_api_error_message decode body)
      then record {
        made = req ∷ retry ∷ [];
        result = completion_content (retried_body body (send 1 retry));
      }
      else record { made = req ∷ []; result = completion_content body }

  -- `chatWithOpenAICompatibleModel`
  unfoldable pub chat_with_openai_compatible_model : ProviderConfig → Bytes → List Fields → Outcome
  unfolding after_completion
  chat_with_openai_compatible_model p model messages =
      let req = completion_request uses_mlx p model messages in after_completion req (send 0 req)

  -- what is done with the answer to a Responses request
  unfoldable pub after_responses : Request → Exchange → Outcome
  after_responses req not_created = record { made = []; result = err no_request }
  after_responses req failed = record { made = req ∷ []; result = err no_reply }
  after_responses req (broken status part) = record { made = req ∷ []; result = err unread }
  after_responses req (answered status body) = record {
    made = req ∷ [];
    result =
        if leb 400 status
        then err (http_error status (extract_api_error_message decode body))
        else extract_responses_content decode_responses body;
  }

  -- `chatWithOpenAIResponsesModel`, with `sendResponsesRequest`
  unfoldable pub chat_with_openai_responses_model : ProviderConfig → Bytes → List Fields → Outcome
  unfolding after_responses
  chat_with_openai_responses_model p model messages =
      let req = responses_request p model messages in after_responses req (send 0 req)

  -- what is done with the answer to an Anthropic request
  unfoldable pub after_anthropic : Request → Exchange → Outcome
  after_anthropic req not_created = record { made = []; result = err no_request }
  after_anthropic req failed = record { made = req ∷ []; result = err no_reply }
  after_anthropic req (broken status part) = record { made = req ∷ []; result = err unread }
  after_anthropic req (answered status body) = record {
    made = req ∷ [];
    result = extract_anthropic_content decode body;
  }

  -- `chatWithAnthropicModel`
  unfoldable pub chat_with_anthropic_model : ProviderConfig → Bytes → List Fields → Outcome
  unfolding after_anthropic
  chat_with_anthropic_model p model messages =
      let req = anthropic_request max_tokens p model messages in after_anthropic req (send 0 req)

  -- the switch of `ChatWithModel`
  unfoldable pub chat_by_type : ProviderConfig → Bytes → List Fields → Outcome
  unfolding chat_with_anthropic_model chat_with_openai_responses_model
      chat_with_openai_compatible_model
  chat_by_type p model messages =
      if str_eq p.type provider_type_anthropic
      then chat_with_anthropic_model p model messages
      else if uses_responses_api p
      then chat_with_openai_responses_model p model messages
      else chat_with_openai_compatible_model p model messages

  -- `ChatWithModel`, entered at `now` and left at `done`
  unfoldable pub chat_with_model : ℕ → ℕ → ModelInfo → Bytes → List Fields → Client → ChatRun
  unfolding chat_by_type held released
  chat_with_model now done info model messages c =
      if not info.enabled
      then record {
        client = c;
        slept = 0;
        outcome = record { made = []; result = ok (codes "This model is currently disabled") };
      }
      else elim (find_provider info.source c) [
        | none ↦ record {
          client = c;
          slept = 0;
          outcome = record { made = []; result = err (unknown_provider info.source) };
        }
        | some found ↦
            let p = for_model found model in
            let rl = rate_limiter_for p.name c in
            record {
              client = released done rl c;
              slept = held now rl c;
              outcome = chat_by_type p model messages;
            }
      ]
