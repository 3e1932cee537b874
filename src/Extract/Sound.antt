-- ===== src/Extract/Sound.antt =====
-- What the extraction returns: a part of the message that decodes, and the first such object.
use pi_pi_mink.Prelude.{
  ℕ, zero, suc, ◌<◌, Bool, true, ◌≡◌, refl, sym, ap, arith, ◌⊎◌, inl, inr, Option, none, some, [],
  ◌∷◌, ◌++◌, length, take, drop, Bool-cases, Option-cases, ◌==◌, ltb, ◌-◌,
}
use pi_pi_mink.Prelude.Text.{Bytes, codes, index, last_index, slice, is_empty}
use pi_pi_mink.Extract.{
  initial, scan, candidate, first_json_object, empty_tags, between, outer_braces, search_object,
  json_block, from_block, extract_json,
}

-- `part` stands in `text`
abbrev pub IsPart : Bytes → Bytes → Type 0
IsPart part text = (before : Bytes) × (after : Bytes) × (text ≡ before ++ (part ++ after))

take-append-drop : (n : ℕ) (s : Bytes) → s ≡ take n s ++ drop n s
take-append-drop zero s = refl
take-append-drop (suc n) [] = refl
take-append-drop (suc n) (c ∷ s) = ap (◌∷◌ c) (take-append-drop n s)

module _ (is_object : Bytes → Bool) where
  abbrev Found : Bytes → Bytes → Type 0
  Found text r = (r ≡ []) ⊎ ((is_object r ≡ true) × IsPart r text)

  candidate_lem : (text : Bytes) (n : ℕ) → is_object (take n text) ≡ true → Found text (take n text)
  candidate_lem text n h = inr (h, ([], drop n text, take-append-drop n text))

  Found-cons : (ch : ℕ) (text r : Bytes) → Found text r → Found (ch ∷ text) r
  Found-cons ch text r (inl e) = inl e
  Found-cons ch text r (inr (h, (before, after, e))) = inr (h, (ch ∷ before, after, ap (◌∷◌ ch) e))

  -- What `firstJSONObject` returns is empty, or a part of the text that decodes as an object.
  pub first_json_object_sound :
      (text : Bytes)
      → (first_json_object is_object text ≡ [])
        ⊎ ((is_object (first_json_object is_object text) ≡ true)
            × IsPart (first_json_object is_object text) text)
  unfolding first_json_object
  first_json_object_sound [] = inl refl
  first_json_object_sound (ch ∷ text) = elim (Bool-cases (ch == b'{')) [
    | inr other ↦ rw other (Found-cons ch text _ (first_json_object_sound text))
    | inl brace ↦ elim (Option-cases (scan initial (ch ∷ text))) [
      | inl e ↦ rw (brace, e, candidate) (Found-cons ch text _ (first_json_object_sound text))
      | inr (n, e) ↦ elim (Bool-cases (is_object (take n (ch ∷ text)))) [
        | inl good ↦ rw (brace, e, candidate, good) (candidate_lem (ch ∷ text) n good)
        | inr bad ↦
            rw (brace, e, candidate, bad) (Found-cons ch text _ (first_json_object_sound text))
      ]
    ]
  ]

  -- a text opens with an object: a brace from which the scan closes a candidate that decodes
  abbrev pub Object : Bytes → Bytes → Type 0
  Object text r =
      (tail : Bytes) × (n : ℕ) × (text ≡ b'{' ∷ tail)
      × (scan initial text ≡ some n)
      × (r ≡ take n text)
      × (is_object r ≡ true)

  -- `r` is the first object of the text, or empty if there is none
  abbrev pub FirstObject : Bytes → Bytes → Type 0
  FirstObject text r =
      ((r ≡ []) × ((j : ℕ) (other : Bytes) → ¬ Object (drop j text) other))
      ⊎ ((i : ℕ) × Object (drop i text) r
          × ((j : ℕ) → j < i → (other : Bytes) → ¬ Object (drop j text) other))

  no-Object : (j : ℕ) (other : Bytes) → ¬ Object (drop j []) other
  no-Object zero other (tail, n, e, s, same, good) = cc
  no-Object (suc j) other (tail, n, e, s, same, good) = cc

  FirstObject-cons :
      (ch : ℕ) (text r : Bytes)
      → ((other : Bytes) → ¬ Object (ch ∷ text) other)
      → FirstObject text r
      → FirstObject (ch ∷ text) r
  FirstObject-cons ch text r here (inl (e, later)) = inl (e, nowhere)
    where
      nowhere : (j : ℕ) (other : Bytes) → ¬ Object (drop j (ch ∷ text)) other
      nowhere zero other = here other
      nowhere (suc j) other = later j other
  FirstObject-cons ch text r here (inr (i, found, before)) = inr (suc i, found, earlier)
    where
      earlier : (j : ℕ) → j < suc i → (other : Bytes) → ¬ Object (drop j (ch ∷ text)) other
      earlier zero lt other = here other
      earlier (suc j) lt other = before j (omega (arith, lt)) other

  -- `firstJSONObject` returns the object at the first brace of the text from which the scan closes a
  -- candidate that decodes, or, if there is no such brace, nothing.
  pub first_json_object_complete :
      (text : Bytes) → FirstObject text (first_json_object is_object text)
  unfolding first_json_object
  first_json_object_complete [] = inl (refl, no-Object)
  first_json_object_complete (ch ∷ text) =
      let later = first_json_object_complete text in
      elim (Bool-cases (ch == b'{')) [
        | inr other ↦ rw other (
            FirstObject-cons ch text _ (λ r (tail, n, e, s, same, good). ground (arith, other, e))
              later)
        | inl brace ↦ elim (Option-cases (scan initial (ch ∷ text))) [
          | inl q ↦
              rw (brace, q, candidate)
                (FirstObject-cons ch text _ (λ r (tail, n, e, s, same, good). ground (arith, q, s))
                  later)
          | inr (m, q) ↦ elim (Bool-cases (is_object (take m (ch ∷ text)))) [
            | inl found ↦
                let opening : ch ≡ b'{' = ground (arith, brace) in
                rw (brace, q, candidate, found)
                  (inr (
                    0,
                    (text, m, ap (λ c. c ∷ text) opening, q, refl, found),
                    λ j lt. absurd (omega (arith, lt)),
                  ))
            | inr bad ↦
                rw (brace, q, candidate, bad)
                  (FirstObject-cons ch text _
                    (λ r (tail, n, e, s, same, good).
                      let n_is : m ≡ n = ground (arith, q, s) in
                      let good' = rw (same, sym n_is) at good in ground (arith, bad, good'))
                    later)
          ]
        ]
      ]

module _ (is_json is_object : Bytes → Bool) where
  -- a text that one of the two decoders takes, or the constant for no tags
  abbrev pub Decodes : Bytes → Type 0
  Decodes r = (is_json r ≡ true) ⊎ ((is_object r ≡ true) ⊎ (r ≡ empty_tags))

  between-Decodes : (text : Bytes) → Decodes (between is_json is_object text)
  between-Decodes text = elim (Bool-cases (is_json text)) [
    | inl good ↦ rw good (inl good)
    | inr bad ↦ elim (Bool-cases (is_json (take (length text - 1) text ++ codes "]}"))) [
      | inl good ↦ rw (bad, good) (inl good)
      | inr worse ↦ rw (bad, worse) (inr (inr refl))
    ]
  ]

  outer_braces-Decodes : (message : Bytes) → Decodes (outer_braces is_json is_object message)
  outer_braces-Decodes message = elim (Option-cases (index (codes "{") message)) [
    | inl e ↦ rw (e, outer_braces) (inr (inr refl))
    | inr (start, e) ↦ elim (Option-cases (last_index b'}' message)) [
      | inl e' ↦ rw (e, e', outer_braces) (inr (inr refl))
      | inr (end, e') ↦ elim (Bool-cases (ltb start end)) [
        | inl lt ↦ rw (e, e', outer_braces, lt) (between-Decodes (slice start (suc end) message))
        | inr ge ↦ rw (e, e', outer_braces, ge) (inr (inr refl))
      ]
    ]
  ]

  search_object-Decodes : (message : Bytes) → Decodes (search_object is_json is_object message)
  search_object-Decodes message = elim (first_json_object_sound is_object message) [
    | inl e ↦ rw e (outer_braces-Decodes message)
    | inr (good, part) ↦ elim (Bool-cases (is_empty (first_json_object is_object message))) [
      | inl e ↦ rw e (outer_braces-Decodes message)
      | inr e ↦ rw e (inr (inl good))
    ]
  ]

  from_block-Decodes :
      (o : Option Bytes) (message : Bytes) → Decodes (from_block is_json is_object o message)
  from_block-Decodes none message = search_object-Decodes message
  from_block-Decodes (some block) message = elim (Bool-cases (is_json block)) [
    | inl good ↦ rw good (inl good)
    | inr bad ↦ rw bad (search_object-Decodes message)
  ]

  -- Whatever a model answers, `extractJSON` returns a text that decodes as JSON or as an object,
  -- or the constant for no tags.
  pub extract_json-Decodes : (message : Bytes) → Decodes (extract_json is_json is_object message)
  unfolding extract_json
  extract_json-Decodes message = elim (Option-cases (index (codes "<think>") message)) [
    | inr (i, e) ↦
        rw (e, extract_json) (from_block-Decodes (json_block is_json is_object message) message)
    | inl e ↦ elim (Bool-cases (is_json message)) [
      | inl good ↦ rw (e, extract_json, good) (inl good)
      | inr bad ↦ rw (e, extract_json, bad) (search_object-Decodes message)
    ]
  ]

  -- A message that is JSON and has no <think> tag is returned as it is.
  pub extract_json_whole :
      (message : Bytes)
      → is_json message ≡ true
      → index (codes "<think>") message ≡ none
      → extract_json is_json is_object message ≡ message
  unfolding extract_json
  extract_json_whole message good e = rw (e, extract_json, good) refl
