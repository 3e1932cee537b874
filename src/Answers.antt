-- ===== src/Answers.antt =====
-- internal/llm: what is read from the body of an answer, in model_tags.go (Anthropic answers and
-- error messages), model_selection.go and chat.go (chat completions) and responses.go (Responses
-- API). `decode` is `json.Unmarshal` into a map, `decode_responses` into the struct of responses.go.
pub mod Sound
use pi_pi_mink.Prelude.{
  ℕ, Bool, true, false, not, Option, none, some, List, [], ◌∷◌, ◌++◌, if◌then◌else◌,
}
use pi_pi_mink.Prelude.Text.{Bytes, codes, str_eq, is_empty}
use pi_pi_mink.Json.{
  Value, object, text, Values, end, item, Fields, get, as_text, as_array, as_object,
}

-- the errors, with the text of the provider where they carry it
pub data Failure : Type 0 where
  bad_json no_choices no_choice no_message no_content no_text truncated : Failure
  refused : Bytes → Failure
  api_error : Bytes → Failure
  http_error : ℕ → Bytes → Failure
  unknown_provider : Bytes → Failure
  no_request no_reply unread : Failure

-- `(string, error)`
pub data Result : Type 0 where
  ok : Bytes → Result
  err : Failure → Result

-- a message item of a Responses answer, and the answer
pub record Part : Type 0 where
  pub type : Bytes
  pub text : Bytes

pub record OutputItem : Type 0 where
  pub type : Bytes
  pub content : List Part

pub record ResponsesBody : Type 0 where
  pub error : Option Bytes
  pub output_text : Bytes
  pub incomplete_details : Option Bytes
  pub output : List OutputItem

-- `x, ok := o.(string); ok && x != ""`
unfoldable pub non_empty : Option Bytes → Option Bytes
non_empty none = none
non_empty (some s) = if is_empty s then none else some s

abbrev pub blocked : Bytes
blocked = codes "blocked by provider usage policy"

-- `anthropicRefusalReason`
unfoldable pub anthropic_refusal_reason : Fields → Bytes
anthropic_refusal_reason result = elim (as_object (get (codes "stop_details") result)) [
  | none ↦ blocked
  | some sd ↦ elim (non_empty (as_text (get (codes "explanation") sd))) [
    | some e ↦ e
    | none ↦ elim (non_empty (as_text (get (codes "category") sd))) [
      | some cat ↦ blocked ++ codes " (category: " ++ cat ++ codes ")"
      | none ↦ blocked
    ]
  ]
]

-- the text of one block of an Anthropic answer
unfoldable pub block_text : Value → Option Bytes
block_text (object block) = non_empty (as_text (get (codes "text") block))
block_text _ = none

-- the loop over the blocks: the first that carries text
unfoldable pub first_text : Values → Option Bytes
first_text end = none
first_text (item v vs) = elim (block_text v) [ some t ↦ some t | none ↦ first_text vs ]

-- `stop, _ := result["stop_reason"].(string); stop == reason`
abbrev pub stopped_by : Bytes → Fields → Bool
stopped_by reason result = elim (as_text (get (codes "stop_reason") result)) [
  | none ↦ false
  | some stop ↦ str_eq stop reason
]

-- `extractAnthropicContent` behind the test for a refusal
unfoldable pub anthropic_content : Fields → Result
anthropic_content result = elim (as_array (get (codes "content") result)) [
  | none ↦ err no_content
  | some blocks ↦ elim blocks [
    | end ↦ err no_content
    | item v vs ↦ elim (first_text (item v vs)) [
      | some t ↦ ok t
      | none ↦ if stopped_by (codes "max_tokens") result then err truncated else err no_text
    ]
  ]
]

-- the first choice of a chat completion, as the two readers of it share it
unfoldable pub choice_content : Values → Result
choice_content end = err no_choices
choice_content (item v vs) = elim (as_object (some v)) [
  | none ↦ err no_choice
  | some choice ↦ elim (as_object (get (codes "message") choice)) [
    | none ↦ err no_message
    | some message ↦ elim (as_text (get (codes "content") message)) [
      | none ↦ err no_content
      | some content ↦ ok content
    ]
  ]
]

-- the text of the parts that are "output_text", in order
unfoldable pub part_texts : List Part → Bytes
part_texts [] = []
part_texts (p ∷ ps) =
    if str_eq p.type (codes "output_text") then p.text ++ part_texts ps else part_texts ps

unfoldable pub message_texts : List OutputItem → Bytes
unfolding part_texts
message_texts [] = []
message_texts (o ∷ os) =
    if str_eq o.type (codes "message")
    then part_texts o.content ++ message_texts os
    else message_texts os

-- `extractResponsesContent` behind the decoding
unfoldable pub responses_content : ResponsesBody → Result
unfolding message_texts
responses_content r = elim (non_empty r.error) [
  | some message ↦ err (api_error message)
  | none ↦
      let streamed = message_texts r.output in
      let out = if is_empty streamed then r.output_text else streamed in
      if is_empty out
      then elim r.incomplete_details [
        | none ↦ err no_text
        | some reason ↦
            if str_eq reason (codes "max_output_tokens") then err truncated else err no_text
      ]
      else ok out
]

module _ (decode : Bytes → Option Fields) where
  -- `extractAnthropicContent`
  unfoldable pub extract_anthropic_content : Bytes → Result
  unfolding anthropic_content
  extract_anthropic_content body = elim (decode body) [
    | none ↦ err bad_json
    | some result ↦
        if stopped_by (codes "refusal") result
        then err (refused (anthropic_refusal_reason result))
        else anthropic_content result
  ]

  -- `extractOpenAISelectionContent`
  unfoldable pub extract_selection_content : Bytes → Result
  unfolding choice_content
  extract_selection_content body = elim (decode body) [
    | none ↦ err bad_json
    | some result ↦ elim (as_array (get (codes "choices") result)) [
      | none ↦ err no_choices
      | some choices ↦ choice_content choices
    ]
  ]

  -- `extractAPIErrorMessage`; "" is returned where no message is found
  unfoldable pub extract_api_error_message : Bytes → Bytes
  extract_api_error_message body = elim (decode body) [
    | none ↦ []
    | some error ↦ elim (get (codes "error") error) [
      | none ↦ []
      | some v ↦ elim v [
        | object m ↦ elim (as_text (get (codes "message") m)) [ none ↦ [] | some s ↦ s ]
        | text s ↦ s
        | _ ↦ []
      ]
    ]
  ]

-- `extractResponsesContent`
unfoldable pub extract_responses_content : (Bytes → Option ResponsesBody) → Bytes → Result
unfolding responses_content
extract_responses_content decode_responses body = elim (decode_responses body) [
  | none ↦ err bad_json
  | some r ↦ responses_content r
]
