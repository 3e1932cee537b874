-- ===== src/Extract.antt =====
-- internal/llm/utils.go: the JSON text in the answer of a model. `encoding/json` is a parameter:
-- `is_json` says whether a text decodes into a `json.RawMessage`, `is_object` whether it decodes
-- into a `map[string]interface{}`.
pub mod Scan
pub mod Sound
use pi_pi_mink.Prelude.{
  ℕ, zero, suc, ◌+◌, ◌-◌, Bool, true, false, ◌&&◌, Option, none, some, List, [], ◌∷◌, ◌++◌, length,
  take, drop, if◌then◌else◌, ltb, ◌==◌,
}
use pi_pi_mink.Prelude.Text.{Bytes, codes, index, last_index, slice, trim_space, is_empty}

-- The variables of the loop over a candidate. The depth is at least 1 from the first brace on, so
-- it never falls below 0.
pub record ScanState : Type 0 where
  pub depth : ℕ
  pub in_string : Bool
  pub escaped : Bool

abbrev pub initial : ScanState
initial = record { depth = 0; in_string = false; escaped = false }

-- the branch for a byte inside a quoted string
abbrev pub step_in_string : ℕ → ScanState → ScanState
step_in_string ch s =
    if s.escaped
    then record s { escaped = false }
    else if ch == b'\\'
    then record s { escaped = true }
    else if ch == b'"'
    then record s { in_string = false }
    else s

-- One byte: the new state, and whether the object is closed by it.
unfoldable pub step : ℕ → ScanState → ScanState × Bool
step ch s =
    if s.in_string
    then (step_in_string ch s, false)
    else if ch == b'"'
    then (record s { in_string = true }, false)
    else if ch == b'{'
    then (record s { depth = s.depth + 1 }, false)
    else if ch == b'}'
    then (record s { depth = s.depth - 1 }, s.depth == 1)
    else (s, false)

-- The loop `scanCandidate`: how many bytes the first closed object takes, if one is closed.
unfoldable pub scan : ScanState → Bytes → Option ℕ
scan s [] = none
scan s (ch ∷ text) =
    let (s', closed) = step ch s in
    let rest = scan s' text in
    if closed then some 1 else elim rest [ none ↦ none | some n ↦ some (suc n) ]

module _ (is_object : Bytes → Bool) where
  -- the candidate at the start of the text, if it decodes
  abbrev pub candidate : Bytes → Option Bytes
  candidate text = elim (scan initial text) [
    | none ↦ none
    | some n ↦ if is_object (take n text) then some (take n text) else none
  ]

  -- `firstJSONObject`. The search for the next opening brace is the recursion on the text.
  unfoldable pub first_json_object : Bytes → Bytes
  first_json_object [] = []
  first_json_object (ch ∷ text) =
      let later = first_json_object text in
      if ch == b'{'
      then elim (candidate (ch ∷ text)) [ some found ↦ found | none ↦ later ]
      else later

abbrev pub empty_tags : Bytes
empty_tags = codes "{\"strengths\":[], \"weaknesses\":[]}"

module _ (is_json is_object : Bytes → Bool) where
  -- the end of `extractJSON`: the text between the outer braces, or that text with its last brace
  -- replaced by "]}"
  abbrev pub between : Bytes → Bytes
  between text =
      let repaired = take (length text - 1) text ++ codes "]}" in
      if is_json text then text else if is_json repaired then repaired else empty_tags

  abbrev pub outer_braces : Bytes → Bytes
  outer_braces message = elim (index (codes "{") message) [
    | none ↦ empty_tags
    | some start ↦ elim (last_index b'}' message) [
      | none ↦ empty_tags
      | some end ↦ if ltb start end then between (slice start (suc end) message) else empty_tags
    ]
  ]

  -- the first object of the message, or what stands between the outer braces
  abbrev pub search_object : Bytes → Bytes
  search_object message =
      let found = first_json_object is_object message in
      if is_empty found then outer_braces message else found

  -- the text of the first block that is marked as JSON
  abbrev pub json_block : Bytes → Option Bytes
  json_block message = elim (index (codes "```json") message) [
    | none ↦ none
    | some i ↦
        let content = drop (i + length (codes "```json")) message in
        elim (index (codes "```") content) [
          | none ↦ none
          | some n ↦ some (trim_space (take n content))
        ]
  ]

  abbrev pub from_block : Option Bytes → Bytes → Bytes
  from_block none message = search_object message
  from_block (some block) message = if is_json block then block else search_object message

  -- `extractJSON`
  unfoldable pub extract_json : Bytes → Bytes
  extract_json message = elim (index (codes "<think>") message) [
    | some i ↦ from_block (json_block message) message
    | none ↦ if is_json message then message else search_object message
  ]
