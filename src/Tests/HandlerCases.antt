-- ===== src/Tests/HandlerCases.antt =====
-- Requests to the handlers.
use pi_pi_mink.Prelude.{
  ℕ, ◌&&◌, Bool, true, false, ◌≡◌, refl, Option, none, some, List, [], ◌∷◌, map,
}
use pi_pi_mink.Prelude.Int.{pos}
use pi_pi_mink.Prelude.Text.{Bytes, codes, str_eq}
use pi_pi_mink.Prelude.Dict.{Dict, lookup}
use pi_pi_mink.Json.{text, Fields, get, as_text}
use pi_pi_mink.Models.{ModelInfo, filter_models}
use pi_pi_mink.Requests.{entry}
use pi_pi_mink.Routing.{RoutingResult}
use pi_pi_mink.Validator.{new_validation_result, validate_field, rune_string, add_error}
use pi_pi_mink.Validator.Coherent.{IsCoherent, Passes, validate_field-IsCoherent}
use pi_pi_mink.ChatHandlers.{
  Gateway, handle_chat, last_user_text, first_user_text, user_text, route, serve_route,
  log_routing_decision, chat_messages,
}
use pi_pi_mink.ChatHandlers.OpenAi.{OpenAiRequest, handle_openai_chat_completions}
use pi_pi_mink.ChatHandlers.Agreement.{plain, answer_of, Agree, handle_openai-handle_chat}
use pi_pi_mink.OllamaHandlers.{ChatMessage, check_chat, found_text, fields_of}
use pi_pi_mink.OllamaHandlers.Checks.{all_good, is_some, last_of, check_chat_lem}
use pi_pi_mink.ModelHandlers.{StoreCall, EnableBody}
use pi_pi_mink.Tests.RoutingCases.{models}

abbrev chosen : RoutingResult
chosen = record {
  model_name = codes "o3";
  reason = [];
  matching_tags = [];
  tag_relevance = [];
  evaluator_model = [];
  evaluation_time_ms = 0;
  cache_hit = false;
  fallback_used = false;
}

abbrev gateway_decide : Bytes → Dict ModelInfo → RoutingResult × Bool
gateway_decide message available = (chosen, true)

abbrev gateway_chat : ModelInfo → Bytes → List Fields → Option Bytes
gateway_chat info name messages = some (codes "hello")

abbrev gateway : Gateway
gateway = record { decide = gateway_decide; chat = gateway_chat }

abbrev hi : Fields
hi = entry (codes "user") (text (codes "hi"))

abbrev openai_hi : OpenAiRequest
openai_hi = record { model = []; messages = hi ∷ []; stream = true }

handle_openai-handle_chat_example :
    Agree models
      (handle_openai_chat_completions gateway [] [] 0 (some openai_hi) models)
      (handle_chat gateway [] (some (plain (hi ∷ []))) models)
unfolding first_user_text user_text get as_text str_eq lookup
handle_openai-handle_chat_example =
    handle_openai-handle_chat gateway [] [] 0 [] true hi [] models refl refl

answered_hello :
    answer_of (handle_chat gateway [] (some (plain (hi ∷ []))) models).reply
    ≡ some (codes "o3", codes "hello")
unfolding handle_chat route serve_route filter_models lookup str_eq first_user_text user_text get
    as_text log_routing_decision chat_messages
answered_hello = refl

abbrev index_text : ℕ → Bytes
index_text i = i ∷ []

abbrev ollama_hi : ChatMessage
ollama_hi = record { role = codes "user"; content = codes "hi" }

check_chat_lem_example :
    ((check_chat index_text (ollama_hi ∷ [])).0.valid
      ≡ (all_good (ollama_hi ∷ []) && is_some (last_of none (ollama_hi ∷ []))))
    × (found_text (check_chat index_text (ollama_hi ∷ [])).1
        ≡ last_user_text [] (map fields_of (ollama_hi ∷ [])))
check_chat_lem_example = check_chat_lem index_text (ollama_hi ∷ [])

validate_field-IsCoherent_example :
    let v' =
      validate_field new_validation_result (codes "name") (codes "ab") true (pos 3) (pos 9) in
    IsCoherent v'
    × (v'.valid ≡ true → (true ≡ true) × Passes (codes "ab") true (pos 3) (pos 9))
    × (true ≡ true → Passes (codes "ab") true (pos 3) (pos 9) → v'.valid ≡ true)
validate_field-IsCoherent_example =
    validate_field-IsCoherent new_validation_result (codes "name") (codes "ab") true (pos 3) (pos 9)
      refl

-- the number 16 of a message is printed as the character behind '?'
at_least_sixteen :
    map
      (λ e. e.message)
      (validate_field new_validation_result (codes "key") (codes "ab") true (pos 16) (pos 0)).errors
    ≡ codes "Must be at least @ characters" ∷ []
unfolding validate_field add_error rune_string
at_least_sixteen = refl

abbrev always : StoreCall → Bool
always call = true

abbrev turn_off : EnableBody
turn_off = record { source = codes "other"; enabled = false }
