-- ===== src/ChatHandlers/OpenAi.antt =====
-- cmd/server/handlers.go: `handleOpenAIChatCompletions`, with its stream.
use pi_pi_mink.Prelude.{
  ℕ, ◌+◌, ◌/◌, Bool, true, false, not, Option, none, some, List, [], ◌∷◌, if◌then◌else◌, length,
}
use pi_pi_mink.Prelude.Text.{Bytes, codes, is_empty}
use pi_pi_mink.Prelude.Dict.{lookup}
use pi_pi_mink.Json.{Fields}
use pi_pi_mink.Models.{ModelInfo, ModelCollection}
use pi_pi_mink.ChatHandlers.{
  Gateway, Route, nobody, routed, RoutingDecisionRow, first_user_text, last_user_text,
  log_routing_decision, route,
}

-- a request of `/v1/chat/completions`
pub record OpenAiRequest : Type 0 where
  pub model : Bytes
  pub messages : List Fields
  pub stream : Bool

-- a line of a stream, with what its delta has
pub data Line : Type 0 where
  chunk : Bytes → ℕ → Bytes → Option Bytes → Option Bytes → Option Bytes → Line
  done_line : Line

-- the answer as one JSON document
pub record Completion : Type 0 where
  pub id : Bytes
  pub created : ℕ
  pub model : Bytes
  pub content : Bytes
  pub finish_reason : Bytes
  pub prompt_tokens : ℕ
  pub completion_tokens : ℕ
  pub total_tokens : ℕ

pub data OpenAiReply : Type 0 where
  failed : ℕ → OpenAiReply
  streamed : List Line → OpenAiReply
  completed : Completion → OpenAiReply

pub record OpenAiServed : Type 0 where
  pub reply : OpenAiReply
  pub logged : List RoutingDecisionRow

abbrev pub fail : ℕ → OpenAiServed
fail status = record { reply = failed status; logged = [] }

-- the three chunks and the end of a stream
unfoldable pub stream_of : Bytes → ℕ → Bytes → Bytes → List Line
stream_of id created model response =
    chunk id created model (some (codes "assistant")) (some []) none
    ∷ chunk id created model none (some response) none
    ∷ chunk id created model none none (some (codes "stop"))
    ∷ done_line
    ∷ []

unfoldable pub completion_of : Bytes → ℕ → Bytes → Bytes → Bytes → Completion
completion_of id created model user_message response = record {
  id = id;
  created = created;
  model = model;
  content = response;
  finish_reason = codes "stop";
  prompt_tokens = length user_message / 4;
  completion_tokens = length response / 4;
  total_tokens = (length user_message + length response) / 4;
}

module _ (g : Gateway) (default_chat_model : Bytes) where
  module _ (completion_id : Bytes) (now : ℕ) where
    -- the reply to a request with the answer of a model
    unfoldable pub openai_reply : OpenAiRequest → Bytes → Bytes → Bytes → OpenAiReply
    unfolding stream_of completion_of
    openai_reply req model user_message response =
        if req.stream
        then streamed (stream_of completion_id now model response)
        else completed (completion_of completion_id now model user_message response)

    abbrev pub openai_answered : OpenAiRequest → Bytes → Bytes → Option Bytes → OpenAiReply
    openai_answered req model user_message none = failed 500
    openai_answered req model user_message (some response) =
        openai_reply req model user_message response

    abbrev pub is_answer : Option Bytes → Bool
    is_answer none = false
    is_answer (some response) = true

    unfoldable pub openai_route : OpenAiRequest → Route → Bytes → ModelCollection → OpenAiServed
    unfolding openai_reply log_routing_decision
    openai_route req nobody message c = fail 500
    openai_route req (routed name result) message c = elim (lookup name c) [
      | none ↦ fail 400
      | some info ↦
          let answer = g.chat info name req.messages in
          record {
            reply = openai_answered req name message answer;
            logged = log_routing_decision result message info.source (is_answer answer) ∷ [];
          }
    ]

    -- the model that a request names, if the collection has it
    abbrev pub requested : OpenAiRequest → ModelCollection → Option ModelInfo
    requested req c = if not (is_empty req.model) then lookup req.model c else none

    -- `handleOpenAIChatCompletions`
    unfoldable pub handle_openai_chat_completions :
        Option OpenAiRequest → ModelCollection → OpenAiServed
    unfolding openai_route first_user_text route openai_reply
    handle_openai_chat_completions none c = fail 400
    handle_openai_chat_completions (some req) c =
        let message = last_user_text [] req.messages in
        if is_empty message then fail 400 else elim (requested req c) [
          | none ↦ openai_route req (route g default_chat_model message c) message c
          | some info ↦ record {
            reply = openai_answered req req.model message (g.chat info req.model req.messages);
            logged = [];
          }
        ]
