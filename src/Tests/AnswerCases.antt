-- ===== src/Tests/AnswerCases.antt =====
-- Texts in answers of models, and chats.
use pi_pi_mink.Prelude.{
  ℕ, ◌+◌, ◌*◌, ◌≤◌, Bool, true, false, ◌≡◌, refl, ◌⊎◌, Option, none, some, List, [], ◌∷◌, All,
  length, if◌then◌else◌, ◌&&◌, ◌==◌,
}
use pi_pi_mink.Prelude.Int.{pos, to_ℕ}
use pi_pi_mink.Prelude.Text.{Bytes, codes, str_eq}
use pi_pi_mink.Prelude.Dict.{lookup}
use pi_pi_mink.Json.{
  null, text, array, object, end, item, Fields, blank, field, get, as_text, as_array,
}
use pi_pi_mink.Extract.{step, scan, first_json_object}
use pi_pi_mink.Extract.Sound.{FirstObject, first_json_object_complete}
use pi_pi_mink.Answers.{
  ok, extract_anthropic_content, extract_api_error_message, ResponsesBody, non_empty, first_text,
  block_text,
}
use pi_pi_mink.Models.{ModelInfo}
use pi_pi_mink.Provider.{for_model, for_model_in}
use pi_pi_mink.Client.{Client, find_provider}
use pi_pi_mink.Requests.{
  Request, completion_request, completion_payload, is_temperature_error, entry,
}
use pi_pi_mink.Chat.{
  Exchange, answered, chat_with_openai_compatible_model, chat_with_model, limiter_at,
}
use pi_pi_mink.Chat.Made.{SentTo, endpoint, credentials, chat_with_openai_compatible_model_retry}
use pi_pi_mink.Chat.Dispatch.{chat_with_model-SentTo, chat_with_model-Spaced}
use pi_pi_mink.Tests.ProviderCases.{azure, limiter}

-- a decoder that takes texts that start with a brace
abbrev braced : Bytes → Bool
braced [] = false
braced (c ∷ s) = c == b'{'

abbrev answer : Bytes
answer = codes "x {\"a\": \"}\"} y"

run_first : first_json_object braced answer ≡ codes "{\"a\": \"}\"}"
unfolding first_json_object scan step
run_first = refl

first_json_object_complete_example :
    FirstObject braced (codes "x ] {{} y{}") (first_json_object braced (codes "x ] {{} y{}"))
first_json_object_complete_example = first_json_object_complete braced (codes "x ] {{} y{}")

-- an answer that thinks first
abbrev thinking : Fields
thinking =
    field (codes "content")
      (array (
        item (object (field (codes "type") (text (codes "thinking")) blank))
          (item (object (field (codes "text") (text (codes "hi")) blank)) end)))
      blank

abbrev decode_thinking : Bytes → Option Fields
decode_thinking body = some thinking

run_thinking : extract_anthropic_content decode_thinking [] ≡ ok (codes "hi")
unfolding extract_anthropic_content first_text block_text non_empty get as_text as_array str_eq
run_thinking = refl

abbrev streamed : ResponsesBody
streamed = record {
  error = none;
  output_text = [];
  incomplete_details = none;
  output =
      record {
        type = codes "message";
        content = record { type = codes "output_text"; text = codes "hi" } ∷ [];
      }
      ∷ [];
}

abbrev decode_streamed : Bytes → Option ResponsesBody
decode_streamed body = some streamed

abbrev conversation : List Fields
conversation =
    entry (codes "user") (text (codes "hi"))
    ∷ entry (codes "system") (text (codes "be brief"))
    ∷ entry (codes "tool") null
    ∷ []

-- a server that rejects the temperature
abbrev cold_server : ℕ → Request → Exchange
cold_server attempt req = answered 400 []

abbrev decode_rejection : Bytes → Option Fields
decode_rejection body =
    some (field (codes "error") (text (codes "temperature is not supported")) blank)

chat_with_openai_compatible_model_retry_example :
    (chat_with_openai_compatible_model cold_server decode_rejection decode_streamed false
      (pos 0)
      azure
      (codes "gpt-4")
      conversation).made
    ≡ (let req = completion_request false azure (codes "gpt-4") conversation in
        if 400 == 400 && is_temperature_error (extract_api_error_message decode_rejection [])
        then req
          ∷ record req { payload = completion_payload (codes "gpt-4") conversation true }
          ∷ []
        else req ∷ [])
chat_with_openai_compatible_model_retry_example =
    chat_with_openai_compatible_model_retry cold_server decode_rejection decode_streamed false
      (pos 0) azure (codes "gpt-4") conversation 400 [] refl

abbrev gpt : ModelInfo
gpt = record {
  source = codes "azure";
  tags = [];
  response = [];
  enabled = true;
  has_reasoning = false;
  updated_at = [];
  benchmark_scores = [];
  avg_latency_ms = none;
}

abbrev limited : Client
limited = record {
  providers = (codes "azure", azure) ∷ [];
  provider_limiters = (codes "azure", 0) ∷ [];
  limiters = limiter ∷ [];
}

chat_with_model-SentTo_example :
    let run =
      chat_with_model cold_server decode_rejection decode_streamed false
        (pos 0)
        6
        9
        gpt
        (codes "gpt-4")
        conversation
        limited in
    (run.outcome.made ≡ [])
    ⊎ ((gpt.enabled ≡ true)
        × ((p : _) × (find_provider gpt.source limited ≡ some p)
            × (All
                  (SentTo
                    (endpoint (for_model p (codes "gpt-4")))
                    (credentials (for_model p (codes "gpt-4"))))
                  run.outcome.made
                × (length run.outcome.made ≤ 2))))
chat_with_model-SentTo_example =
    chat_with_model-SentTo cold_server decode_rejection decode_streamed false (pos 0) 6 9 gpt
      (codes "gpt-4") conversation limited

chat_with_model-Spaced_example :
    let run =
      chat_with_model cold_server decode_rejection decode_streamed false
        (pos 0)
        6
        9
        gpt
        (codes "gpt-4")
        conversation
        limited in
    (to_ℕ limiter.wait_seconds * 1000000000 + 5 ≤ 6 + run.slept)
    × (limiter_at 0 run.client.limiters ≡ some (record limiter { last_request_time = some 9 }))
unfolding lookup str_eq for_model_in limiter_at
chat_with_model-Spaced_example =
    chat_with_model-Spaced cold_server decode_rejection decode_streamed false (pos 0) 6 9 gpt
      (codes "gpt-4") conversation limited azure 0 5 limiter refl refl refl refl refl
