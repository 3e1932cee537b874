-- ===== src/ChatHandlers.antt =====
-- cmd/server/handlers.go: `handleChat`, with
-- `getFallbackModelName` of utils.go and `logRoutingDecision` of analytics_handlers.go. The LLM client
-- is the interface `Gateway`; a body is `none` if it does not decode.
pub mod OpenAi
pub mod Agreement
pub mod Backed
use pi_pi_mink.Prelude.{
  ℕ, ◌+◌, ◌/◌, Bool, true, false, ◌&&◌, not, Option, none, some, List, [], ◌∷◌, ◌++◌, if◌then◌else◌,
  ltb, length, take,
}
use pi_pi_mink.Prelude.Text.{Bytes, codes, str_eq, is_empty, trim_space}
use pi_pi_mink.Prelude.Dict.{Dict, lookup}
use mathlib.Core.List.{reverse}
use pi_pi_mink.Json.{text, Fields, field, blank, get, as_text}
use pi_pi_mink.Models.{ModelInfo, ModelCollection, get_enabled_models}
use pi_pi_mink.Requests.{entry}
use pi_pi_mink.Routing.{RoutingResult}

-- What the handlers use of the LLM client, at the moment of the request: the decision, with whether
-- it returned no error, and the answer of a model, `none` on an error.
pub record Gateway : Type 0 where
  pub decide : Bytes → Dict ModelInfo → RoutingResult × Bool
  pub chat : ModelInfo → Bytes → List Fields → Option Bytes

-- the content of a message of the user, if it is a text
unfoldable pub user_text : Fields → Option Bytes
unfolding get as_text
user_text msg = elim (as_text (get (codes "role") msg)) [
  | none ↦ none
  | some role ↦ if str_eq role (codes "user") then as_text (get (codes "content") msg) else none
]

unfoldable pub first_user_text : Bytes → List Fields → Bytes
unfolding user_text
first_user_text start [] = start
first_user_text start (msg ∷ msgs) = elim (user_text msg) [
  | none ↦ first_user_text start msgs
  | some content ↦ content
]

-- the loop from the last message to the first
abbrev pub last_user_text : Bytes → List Fields → Bytes
last_user_text start msgs = first_user_text start (reverse msgs)

-- `getFallbackModelName`
abbrev pub first_name : Dict ModelInfo → Bytes
first_name [] = []
first_name ((name, info) ∷ models) = name

unfoldable pub get_fallback_model_name : Bytes → Dict ModelInfo → Bytes
get_fallback_model_name default_chat_model enabled =
    let configured = trim_space default_chat_model in
    elim (lookup configured enabled) [
      | none ↦ first_name enabled
      | some info ↦ if not (is_empty configured) then configured else first_name enabled
    ]

-- The routing of a message: no model at all, or a name with the result of the decision.
pub data Route : Type 0 where
  nobody : Route
  routed : Bytes → RoutingResult → Route

abbrev pub named : Bytes → RoutingResult → Route
named [] result = nobody
named (c ∷ name) result = routed (c ∷ name) result

-- `SaveRoutingDecision`, without the user and the latency
pub record RoutingDecisionRow : Type 0 where
  pub prompt_snippet : Bytes
  pub full_prompt : Bytes
  pub decision : RoutingResult
  pub provider : Bytes
  pub succeeded : Bool

-- `snippet[:100] + "..."`
abbrev pub snippet : Bytes → Bytes
snippet prompt = if ltb 100 (length prompt) then take 100 prompt ++ codes "..." else prompt

-- `logRoutingDecision`
unfoldable pub log_routing_decision : RoutingResult → Bytes → Bytes → Bool → RoutingDecisionRow
log_routing_decision result prompt provider succeeded = record {
  prompt_snippet = snippet prompt;
  full_prompt = prompt;
  decision = result;
  provider = provider;
  succeeded = succeeded;
}

-- The replies of `handleChat`: an error with its status, the placeholder for a model that is not
-- there, or the answer of a model.
pub data Reply : Type 0 where
  refused : ℕ → Reply
  placeholder : Bytes → Reply
  replied : Bytes → Bytes → Reply

pub record Served : Type 0 where
  pub reply : Reply
  pub logged : List RoutingDecisionRow

abbrev pub refuse : ℕ → Served
refuse status = record { reply = refused status; logged = [] }

pub record ChatRequest : Type 0 where
  pub message : Bytes
  pub messages : List Fields

-- The messages of a request, `none` if it has neither.
unfoldable pub chat_messages : ChatRequest → Option (List Fields)
chat_messages req = elim req.messages [
  | [] ↦ if is_empty req.message then none else some (entry (codes "user") (text req.message) ∷ [])
  | msg ∷ msgs ↦ some (msg ∷ msgs)
]

module _ (g : Gateway) (default_chat_model : Bytes) where
  -- the decision, with the fallback of the handlers
  unfoldable pub route : Bytes → ModelCollection → Route
  unfolding get_fallback_model_name
  route message c = elim (get_enabled_models c) [
    | [] ↦ nobody
    | m ∷ ms ↦
        let (result, decided) = g.decide message (m ∷ ms) in
        if decided
        then routed result.model_name result
        else named (get_fallback_model_name default_chat_model (m ∷ ms)) result
  ]

  -- `handleChat` from the answer of the model on
  abbrev pub chat_reply : Bytes → RoutingResult → Bytes → Bytes → Option Bytes → Served
  chat_reply name result message source none = record {
    reply = refused 500;
    logged = log_routing_decision result message source false ∷ [];
  }
  chat_reply name result message source (some response) = record {
    reply = replied name response;
    logged = log_routing_decision result message source true ∷ [];
  }

  -- from the route on
  unfoldable pub serve_route : Route → Bytes → List Fields → ModelCollection → Served
  unfolding log_routing_decision
  serve_route nobody message messages c = refuse 500
  serve_route (routed name result) message messages c = elim (lookup name c) [
    | none ↦ record { reply = placeholder name; logged = [] }
    | some info ↦ chat_reply name result message info.source (g.chat info name messages)
  ]

  -- `handleChat`
  unfoldable pub handle_chat : Option ChatRequest → ModelCollection → Served
  unfolding chat_messages first_user_text route serve_route
  handle_chat none c = refuse 400
  handle_chat (some req) c = elim (chat_messages req) [
    | none ↦ refuse 400
    | some messages ↦
        let message = last_user_text req.message messages in
        serve_route (route message c) message messages c
  ]
