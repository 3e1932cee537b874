-- ===== src/ChatHandlers/Agreement.antt =====
-- What the chat endpoints answer.
use pi_pi_mink.Prelude.{
  ℕ, Bool, false, not, Option, none, some, List, [], ◌∷◌, ◌++◌, ◌≡◌, ◌≢◌, ◌⊎◌, refl, inl, inr,
  Bool-cases, Option-cases, arith, if◌then◌else◌,
}
use mathlib.Core.List.{append-nil}
use pi_pi_mink.Prelude.Text.{Bytes, codes, is_empty}
use pi_pi_mink.Prelude.Dict.{lookup}
use pi_pi_mink.Json.{Fields}
use pi_pi_mink.Models.{ModelInfo, ModelCollection}
use pi_pi_mink.ChatHandlers.{
  Gateway, last_user_text, Route, nobody, routed, Reply, refused, placeholder, replied, ChatRequest,
  Served, chat_messages, route, serve_route, handle_chat,
}
use pi_pi_mink.ChatHandlers.OpenAi.{
  OpenAiRequest, OpenAiServed, Line, chunk, done_line, OpenAiReply, failed, streamed, completed,
  openai_reply, openai_route, handle_openai_chat_completions, stream_of, completion_of,
}

-- the model and the text that a client gets, if it gets an answer of a model
abbrev pub answer_of : Reply → Option (Bytes × Bytes)
answer_of (refused status) = none
answer_of (placeholder name) = none
answer_of (replied name response) = some (name, response)

abbrev pub delta_text : Option Bytes → Bytes
delta_text none = []
delta_text (some s) = s

-- the text that a client puts together from a stream
abbrev pub text_of : List Line → Bytes
text_of [] = []
text_of (chunk id created model role content finish ∷ ls) = delta_text content ++ text_of ls
text_of (done_line ∷ ls) = text_of ls

abbrev pub model_of : List Line → Bytes
model_of [] = []
model_of (chunk id created model role content finish ∷ ls) = model
model_of (done_line ∷ ls) = model_of ls

-- What a client sees: the status of an error, or an answer with its model and its text. The
-- placeholder of `/chat` is such an answer, with status 200.
pub data Seen : Type 0 where
  error_status : ℕ → Seen
  answer : Bytes → Bytes → Seen

abbrev pub seen : Reply → Seen
seen (refused status) = error_status status
seen (placeholder name) = answer name (codes "This is a placeholder response (model not found)")
seen (replied name response) = answer name response

abbrev pub openai_seen : OpenAiReply → Seen
openai_seen (failed status) = error_status status
openai_seen (streamed ls) = answer (model_of ls) (text_of ls)
openai_seen (completed c) = answer c.model c.content

-- Two replies to one request: the same for the client and in the log, or the one case in which the
-- endpoints differ, a routed name that the collection does not have.
abbrev pub Agree : ModelCollection → OpenAiServed → Served → Type 0
Agree c theirs ours =
    ((openai_seen theirs.reply ≡ seen ours.reply)
      × (theirs.logged ≡ ours.logged)
      × ((name : Bytes) → ours.reply ≢ placeholder name))
    ⊎ ((name : Bytes) × (lookup name c ≡ none)
        × (ours.reply ≡ placeholder name)
        × (theirs.reply ≡ failed 400)
        × (ours.logged ≡ [])
        × (theirs.logged ≡ []))

-- a request with a history alone
abbrev pub plain : List Fields → ChatRequest
plain messages = record { message = []; messages = messages }

module _ (g : Gateway) (default_chat_model : Bytes) where
  -- an answer comes from the model that the collection has under the name, on these messages
  abbrev pub Honest : ModelCollection → List Fields → Option (Bytes × Bytes) → Type 0
  Honest c messages none = Unit
  Honest c messages (some (name, response)) =
      (info : ModelInfo) × (lookup name c ≡ some info) × (g.chat info name messages ≡ some response)

  serve_route-Honest :
      (r : Route) (message : Bytes) (messages : List Fields) (c : ModelCollection)
      → Honest c messages (answer_of (serve_route g default_chat_model r message messages c).reply)
  unfolding serve_route
  serve_route-Honest nobody message messages c = tt
  serve_route-Honest (routed name result) message messages c = elim (Option-cases (lookup name c)) [
    | inl e ↦ rw (e, serve_route) tt
    | inr (info, e) ↦ elim (Option-cases (g.chat info name messages)) [
      | inl e' ↦ rw (e, serve_route, e') tt
      | inr (response, e') ↦ rw (e, serve_route, e') (info, e, e')
    ]
  ]

  openai_seen-openai_reply :
      (id : Bytes) (now : ℕ) (req : OpenAiRequest) (model message response : Bytes)
      → openai_seen (openai_reply g default_chat_model id now req model message response)
        ≡ answer model response
  unfolding openai_reply stream_of completion_of
  openai_seen-openai_reply id now req model message response = elim (Bool-cases req.stream) [
    | inl e ↦ simp (e, append-nil)
    | inr e ↦ simp e
  ]

  openai_route-Agree :
      (id : Bytes) (now : ℕ) (req : OpenAiRequest) (r : Route) (message : Bytes)
      (c : ModelCollection)
      → Agree c
          (openai_route g default_chat_model id now req r message c)
          (serve_route g default_chat_model r message req.messages c)
  unfolding openai_route serve_route
  openai_route-Agree id now req nobody message c = inl (refl, refl, λ n e. cc)
  openai_route-Agree id now req (routed name result) message c =
      elim (Option-cases (lookup name c)) [
        | inl e ↦ rw (e, openai_route, serve_route) (inr (name, e, refl, refl, refl, refl))
        | inr (info, e) ↦ elim (Option-cases (g.chat info name req.messages)) [
          | inl e' ↦ rw (e, openai_route, serve_route, e') (inl (refl, refl, λ n e. cc))
          | inr (response, e') ↦
              rw (e, openai_route, serve_route, e')
                (inl (openai_seen-openai_reply id now req name message response, refl, λ n e. cc))
        ]
      ]

  -- A text that `/chat` answers is that of the model which the collection has under the name in the
  -- reply, asked with all messages of the request.
  pub handle_chat-Honest :
      (req : ChatRequest) (messages : List Fields) (c : ModelCollection)
      → chat_messages req ≡ some messages
      → Honest c messages (answer_of (handle_chat g default_chat_model (some req) c).reply)
  unfolding handle_chat
  handle_chat-Honest req messages c e =
      let message = last_user_text req.message messages in
      rw (e, handle_chat)
        (serve_route-Honest (route g default_chat_model message c) message messages c)

  -- `/chat` and `/v1/chat/completions` agree on a history of at least one message, with a last text of
  -- the user, and a model that is not given or not there: they log the same decision and give a client
  -- the same model and the same text, whether as a stream or not, or an error with the same status.
  -- There is one exception: for a routed name that the collection does not have, `/chat` answers a
  -- placeholder as if it were a text of that model, and the other endpoint answers 400; neither logs.
  pub handle_openai-handle_chat :
      (id : Bytes) (now : ℕ) (model : Bytes) (stream : Bool) (msg : Fields) (msgs : List Fields)
      (c : ModelCollection)
      → is_empty (last_user_text [] (msg ∷ msgs)) ≡ false
      → lookup model c ≡ none
      → let req : OpenAiRequest = record {
        model = model;
        messages = msg ∷ msgs;
        stream = stream;
      } in
        Agree c
          (handle_openai_chat_completions g default_chat_model id now (some req) c)
          (handle_chat g default_chat_model (some (plain (msg ∷ msgs))) c)
  unfolding handle_openai_chat_completions handle_chat chat_messages
  handle_openai-handle_chat id now model stream msg msgs c e absent =
      let message = last_user_text [] (msg ∷ msgs) in
      let req : OpenAiRequest = record { model = model; messages = msg ∷ msgs; stream = stream } in
      let nothing : (if not (is_empty model) then lookup model c else none) ≡ none =
        ground (arith, absent) in
      rw (e, nothing)
        (openai_route-Agree id now req (route g default_chat_model message c) message c)
