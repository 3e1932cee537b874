-- ===== src/Answers/Sound.antt =====
-- What a text read from an answer is.
use pi_pi_mink.Prelude.{
  true, false, Option, none, some, [], ◌∷◌, ◌≡◌, ◌≢◌, refl, ◌↔◌, ◌⊎◌, inl, inr, Bool-cases,
  Option-cases, arith,
}
use pi_pi_mink.Prelude.Text.{Bytes, codes, is_empty}
use pi_pi_mink.Json.{Values, end, item, Fields, get, as_array}
use pi_pi_mink.Answers.{
  ok, ResponsesBody, non_empty, block_text, first_text, stopped_by, message_texts,
  anthropic_content, responses_content, extract_anthropic_content, extract_responses_content,
}

-- `t` is the text of the first block that has one
abbrev pub FirstText : Bytes → Values → Type 0
FirstText t end = ⊥
FirstText t (item v vs) = (block_text v ≡ some t) ⊎ ((block_text v ≡ none) × FirstText t vs)

is_empty_iff : (s : Bytes) → (is_empty s ≡ true) ↔ (s ≡ [])
is_empty_iff [] = ground arith
is_empty_iff (c ∷ s) = ground arith

non_empty_lem : (o : Option Bytes) (t : Bytes) → non_empty o ≡ some t → t ≢ []
unfolding non_empty
non_empty_lem none t e = cc
non_empty_lem (some []) t e = cc
non_empty_lem (some (c ∷ s)) t e = cc

first_text_iff : (t : Bytes) (vs : Values) → (first_text vs ≡ some t) ↔ FirstText t vs
unfolding first_text
first_text_iff t end = ground arith
first_text_iff t (item v vs) = ground (arith, first_text_iff t vs)

-- the decoded answer is no refusal, and its content starts its text with `t`
abbrev pub Says : Bytes → Fields → Type 0
Says t result =
    (stopped_by (codes "refusal") result ≡ false)
    × ((blocks : Values) × (as_array (get (codes "content") result) ≡ some blocks)
        × FirstText t blocks)

anthropic_content_iff :
    (t : Bytes) (result : Fields)
    → (anthropic_content result ≡ ok t) ↔ (
        (blocks : Values) × (as_array (get (codes "content") result) ≡ some blocks)
        × FirstText t blocks)
unfolding anthropic_content
anthropic_content_iff t result = elim (Option-cases (as_array (get (codes "content") result))) [
  | inl e ↦ rw (e, anthropic_content) (λ q. cc, λ (bs, q, f). cc)
  | inr (end, e) ↦ rw (e, anthropic_content) (λ q. cc, λ (bs, q, f). ground arith)
  | inr (item v vs, e) ↦ elim (Option-cases (first_text (item v vs))) [
    | inl none_has ↦
        rw (e, anthropic_content, none_has)
          (λ q. ground arith, λ (bs, q, f). ground (arith, first_text_iff t (item v vs)))
    | inr (s, has) ↦
        rw (e, anthropic_content, has)
          (
            λ q. (item v vs, refl, ground (arith, first_text_iff t (item v vs))),
            λ (bs, q, f). ground (arith, first_text_iff t (item v vs)),
          )
  ]
]

module _ (decode : Bytes → Option Fields) where
  -- `extractAnthropicContent` returns a text exactly for an answer that decodes, is no refusal,
  -- and has a content with a block that carries text: the text of the first such block.
  pub extract_anthropic_content_iff :
      (body t : Bytes)
      → (extract_anthropic_content decode body ≡ ok t)
        ↔ ((result : Fields) × (decode body ≡ some result) × Says t result)
  unfolding extract_anthropic_content
  extract_anthropic_content_iff body t = elim (Option-cases (decode body)) [
    | inl e ↦ rw (e, extract_anthropic_content) (λ q. cc, λ (r, q, f). cc)
    | inr (r, e) ↦ elim (Bool-cases (stopped_by (codes "refusal") r)) [
      | inl stop ↦ rw (e, extract_anthropic_content, stop) (λ q. cc, λ (r', q, f). ground arith)
      | inr go ↦
          rw (e, extract_anthropic_content, go)
            (
              λ q. (r, refl, (go, (anthropic_content_iff t r).0 q)),
              λ (r', q, f).
                  (anthropic_content_iff t r).1 (let same : r ≡ r' = ground arith in rw same f.1),
            )
    ]
  ]

responses_content-NonEmpty : (r : ResponsesBody) (t : Bytes) → responses_content r ≡ ok t → t ≢ []
unfolding responses_content
responses_content-NonEmpty r t e = ground (arith, is_empty_iff t)

responses_content_streamed :
    (r : ResponsesBody)
    → non_empty r.error ≡ none
    → message_texts r.output ≢ []
    → responses_content r ≡ ok (message_texts r.output)
unfolding responses_content
responses_content_streamed r q n = ground (arith, is_empty_iff (message_texts r.output))

-- `extractResponsesContent` never returns an empty text, and with no error and some streamed text
-- it returns that text.
pub extract_responses_content_lem :
    (decode_responses : Bytes → Option ResponsesBody) (body : Bytes)
    → ((t : Bytes) → extract_responses_content decode_responses body ≡ ok t → t ≢ [])
      × ((r : ResponsesBody)
          → decode_responses body ≡ some r
          → non_empty r.error ≡ none
          → message_texts r.output ≢ []
          → extract_responses_content decode_responses body ≡ ok (message_texts r.output))
unfolding extract_responses_content
extract_responses_content_lem d body = elim (Option-cases (d body)) [
  | inl e ↦ rw (e, extract_responses_content) (λ t q. cc, λ r q. cc)
  | inr (r, e) ↦
      rw (e, extract_responses_content)
        (
          responses_content-NonEmpty r,
          λ r' q. let same : r' ≡ r = ground arith in rw same (responses_content_streamed r),
        )
]
