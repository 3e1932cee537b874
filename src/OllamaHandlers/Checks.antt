-- ===== src/OllamaHandlers/Checks.antt =====
-- What `handleOllamaChat` accepts, and which message it routes by.
use pi_pi_mink.Prelude.{
  ℕ, suc, Bool, true, false, ◌&&◌, not, Option, none, some, List, [], ◌∷◌, ◌++◌, ◌≡◌, ◌∙◌, refl,
  sym, ap, inl, inr, Bool-cases, Option-cases, arith, if◌then◌else◌, map,
}
use mathlib.Core.List.{reverse, reverse-cons}
use pi_pi_mink.Prelude.Text.{Bytes, codes, str_eq, is_empty}
use pi_pi_mink.Json.{Fields, get, as_text}
use pi_pi_mink.Validator.{ValidationResult, add_error, new_validation_result}
use pi_pi_mink.ChatHandlers.{user_text, first_user_text, last_user_text}
use pi_pi_mink.OllamaHandlers.{
  ChatMessage, is_known_role, check_messages, check_chat, some_user, found_text, fields_of,
  role_checked, content_checked,
}

-- a message that is accepted
abbrev pub is_good : ChatMessage → Bool
is_good m = is_known_role m.role && not (is_empty m.content)

abbrev pub all_good : List ChatMessage → Bool
all_good [] = true
all_good (m ∷ ms) = is_good m && all_good ms

-- the last message of the user behind what was found before
abbrev pub last_of : Option Bytes → List ChatMessage → Option Bytes
last_of found [] = found
last_of found (m ∷ ms) = last_of (if str_eq m.role (codes "user") then some m.content else found) ms

abbrev pub is_some {ℓ} : {A : Type ℓ} → Option A → Bool
is_some none = false
is_some (some a) = true

module _ (itoa : ℕ → Bytes) where
  role_checked_valid :
      (i : ℕ) (role : Bytes) (v : ValidationResult)
      → (role_checked itoa i role v).valid ≡ (v.valid && is_known_role role)
  unfolding add_error str_eq
  role_checked_valid i [] v = ground arith
  role_checked_valid i (c ∷ role) v = elim (Bool-cases (is_known_role (c ∷ role))) [
    | inl e ↦ rw e (ground arith)
    | inr e ↦ rw e (ground arith)
  ]

  content_checked_valid :
      (i : ℕ) (content : Bytes) (v : ValidationResult)
      → (content_checked itoa i content v).valid ≡ (v.valid && not (is_empty content))
  unfolding add_error
  content_checked_valid i [] v = ground arith
  content_checked_valid i (c ∷ content) v = ground arith

  check_messages_lem :
      (i : ℕ) (msgs : List ChatMessage) (v : ValidationResult) (found : Option Bytes)
      → ((check_messages itoa i msgs v found).0.valid ≡ (v.valid && all_good msgs))
        × ((check_messages itoa i msgs v found).1 ≡ last_of found msgs)
  unfolding check_messages
  check_messages_lem i [] v found = (ground arith, refl)
  check_messages_lem i (m ∷ ms) v found =
      let v1 = role_checked itoa i m.role v in
      let v2 = content_checked itoa i m.content v1 in
      let ih =
        check_messages_lem (suc i) ms v2
          (if str_eq m.role (codes "user") then some m.content else found) in
      (
        ih.0 ∙ ground (arith, content_checked_valid i m.content v1, role_checked_valid i m.role v),
        ih.1,
      )

  some_user_valid :
      (found : Option Bytes) (v : ValidationResult)
      → (some_user itoa found v).valid ≡ (v.valid && is_some found)
  unfolding add_error
  some_user_valid none v = ground arith
  some_user_valid (some content) v = ground arith

first_user_text_snoc :
    (start : Bytes) (m : Fields) (ms : List Fields)
    → first_user_text start (ms ++ m ∷ []) ≡ first_user_text (first_user_text start (m ∷ [])) ms
unfolding first_user_text
first_user_text_snoc start m [] = refl
first_user_text_snoc start m (x ∷ ms) = elim (Option-cases (user_text x)) [
  | inl e ↦ rw (e, first_user_text) (first_user_text_snoc start m ms)
  | inr (content, e) ↦ rw (e, first_user_text) refl
]

user_text-fields_of :
    (m : ChatMessage)
    → user_text (fields_of m) ≡ (if str_eq m.role (codes "user") then some m.content else none)
unfolding user_text get as_text str_eq
user_text-fields_of m = refl

first_user_text_one :
    (found : Option Bytes) (m : ChatMessage)
    → first_user_text (found_text found) (fields_of m ∷ [])
      ≡ found_text (if str_eq m.role (codes "user") then some m.content else found)
unfolding first_user_text
first_user_text_one found m = elim (Bool-cases (str_eq m.role (codes "user"))) [
  | inl e ↦ rw (user_text-fields_of m, e, first_user_text) refl
  | inr e ↦ rw (user_text-fields_of m, e, first_user_text) refl
]

-- The loop of `handleOllamaChat`, from the first message on, finds the text that the loop of the
-- OpenAI endpoint finds from the last message on.
last_of-last_user_text :
    (found : Option Bytes) (msgs : List ChatMessage)
    → found_text (last_of found msgs) ≡ last_user_text (found_text found) (map fields_of msgs)
unfolding first_user_text
last_of-last_user_text found [] = refl
last_of-last_user_text found (m ∷ ms) =
    let next = if str_eq m.role (codes "user") then some m.content else found in
    last_of-last_user_text next ms
    ∙ ap (λ s. first_user_text s (reverse (map fields_of ms))) (sym (first_user_text_one found m))
    ∙ sym (first_user_text_snoc (found_text found) (fields_of m) (reverse (map fields_of ms)))
    ∙ ap (first_user_text (found_text found)) (sym (reverse-cons (fields_of m) (map fields_of ms)))

-- The validation of `handleOllamaChat` finds no error exactly if each message has one of the three
-- roles and some content, and one is the user's; it routes by the text by which the OpenAI endpoint
-- routes the same messages.
pub check_chat_lem :
    (itoa : ℕ → Bytes) (msgs : List ChatMessage)
    → ((check_chat itoa msgs).0.valid ≡ (all_good msgs && is_some (last_of none msgs)))
      × (found_text (check_chat itoa msgs).1 ≡ last_user_text [] (map fields_of msgs))
unfolding check_chat add_error first_user_text
check_chat_lem itoa [] = (refl, refl)
check_chat_lem itoa (m ∷ ms) =
    let run = check_messages_lem itoa 0 (m ∷ ms) new_validation_result none in
    (
      some_user_valid itoa (check_messages itoa 0 (m ∷ ms) new_validation_result none).1
            (check_messages itoa 0 (m ∷ ms) new_validation_result none).0
          ∙ rw (run.0, run.1) refl,
      ap found_text run.1 ∙ last_of-last_user_text none (m ∷ ms),
    )
