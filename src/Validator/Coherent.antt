-- ===== src/Validator/Coherent.antt =====
-- What `ValidateField` lets pass.
use pi_pi_mink.Prelude.{
  ℕ, zero, suc, ◌≤◌, ◌<◌, ◌≢◌, ◌⊎◌, inl, inr, Bool, true, false, ◌&&◌, not, List, [], ◌∷◌, ◌++◌,
  ◌≡◌, ◌∙◌, refl, sym, arith, if◌then◌else◌, length,
}
use pi_pi_mink.Prelude.Int.{ℤ, pos, negsuc}
use pi_pi_mink.Prelude.Text.{Bytes, codes, is_empty}
use pi_pi_mink.Validator.{
  ValidationResult, add_error, validate_field, too_short, too_long, min_checked, max_checked,
  rune_of,
}

abbrev pub is_nil {ℓ} : {A : Type ℓ} → List A → Bool
is_nil [] = true
is_nil (x ∷ xs) = false

-- a result is valid exactly if it lists no error
abbrev pub IsCoherent : ValidationResult → Type 0
IsCoherent v = v.valid ≡ is_nil v.errors

-- a value that `ValidateField` lets pass
abbrev pub fits : Bytes → Bool → ℤ → ℤ → Bool
fits value required min_len max_len =
    if is_empty value
    then not required
    else not (too_short value min_len) && not (too_long value max_len)

-- one more error
is_nil_last {ℓ} : {A : Type ℓ} (xs : List A) (x : A) → is_nil (xs ++ x ∷ []) ≡ false
is_nil_last [] x = refl
is_nil_last (y ∷ xs) x = refl

add_error-IsCoherent :
    (field message : Bytes) (v : ValidationResult) → IsCoherent (add_error field message v)
unfolding add_error
add_error-IsCoherent field message v =
    sym (is_nil_last v.errors (record { field = field; message = message }))

-- what a check with the outcome `bad` leaves
abbrev Checked : Bool → ValidationResult → ValidationResult → Type 0
Checked bad v v' = IsCoherent v' × (v'.valid ≡ (v.valid && not bad))

add_error-Checked :
    (bad : Bool) (field message : Bytes) (v : ValidationResult)
    → IsCoherent v
    → Checked bad v (if bad then add_error field message v else v)
unfolding add_error
add_error-Checked true field message v h = (add_error-IsCoherent field message v, ground arith)
add_error-Checked false field message v h = (h, ground arith)

validate_field-fits :
    (v : ValidationResult) (field value : Bytes) (required : Bool) (min_len max_len : ℤ)
    → IsCoherent v
    → IsCoherent (validate_field v field value required min_len max_len)
      × ((validate_field v field value required min_len max_len).valid
          ≡ (v.valid && fits value required min_len max_len))
unfolding validate_field
validate_field-fits v field [] true min_len max_len h =
    add_error-Checked true field (codes "Field is required") v h
validate_field-fits v field [] false min_len max_len h =
    add_error-Checked false field (codes "Field is required") v h
validate_field-fits v field (c ∷ value) required min_len max_len h =
    let short = too_short (c ∷ value) min_len in
    let long = too_long (c ∷ value) max_len in
    let v1 = min_checked field (c ∷ value) min_len v in
    let v2 = max_checked field (c ∷ value) max_len v1 in
    let first =
      add_error-Checked short field
        (codes "Must be at least " ++ rune_of min_len ++ codes " characters") v h in
    let second =
      add_error-Checked long field
        (codes "Must be at most " ++ rune_of max_len ++ codes " characters") v1 first.0 in
    let same : (required && false) ≡ false = ground arith in
    rw same (second.0, second.1 ∙ ground (arith, first.1))

-- what `ValidateField` asks of a value: absent, it is not required; present, it has at least the
-- minimal length, and at most the maximal one if that is positive
abbrev pub Passes : Bytes → Bool → ℤ → ℤ → Type 0
Passes value required min_len max_len =
    ((value ≡ []) × (required ≡ false))
    ⊎ ((value ≢ [])
        × ((n : ℕ) → min_len ≡ pos n → n ≤ length value)
        × ((n : ℕ) → max_len ≡ pos n → 0 < n → length value ≤ n))

long_enough :
    (value : Bytes) (min_len : ℤ) (n : ℕ)
    → too_short value min_len ≡ false
    → min_len ≡ pos n
    → n ≤ length value
long_enough value min_len zero e same = omega arith
long_enough value min_len (suc n) e same =
    let e' : too_short value (pos (suc n)) ≡ false = rw same at e in ground (arith, e')

not_too_short :
    (value : Bytes) (min_len : ℤ)
    → ((n : ℕ) → min_len ≡ pos n → n ≤ length value)
    → too_short value min_len ≡ false
not_too_short value (pos zero) h = refl
not_too_short value (pos (suc n)) h = ground (arith, h (suc n) refl)
not_too_short value (negsuc n) h = refl

short_enough :
    (value : Bytes) (max_len : ℤ) (n : ℕ)
    → too_long value max_len ≡ false
    → max_len ≡ pos n
    → 0 < n
    → length value ≤ n
short_enough value max_len zero e same positive = absurd (omega (arith, positive))
short_enough value max_len (suc n) e same positive =
    let e' : too_long value (pos (suc n)) ≡ false = rw same at e in ground (arith, e')

not_too_long :
    (value : Bytes) (max_len : ℤ)
    → ((n : ℕ) → max_len ≡ pos n → 0 < n → length value ≤ n)
    → too_long value max_len ≡ false
not_too_long value (pos zero) h = refl
not_too_long value (pos (suc n)) h = ground (arith, h (suc n) refl)
not_too_long value (negsuc n) h = refl

fits-Passes :
    (value : Bytes) (required : Bool) (min_len max_len : ℤ)
    → (fits value required min_len max_len ≡ true → Passes value required min_len max_len)
      × (Passes value required min_len max_len → fits value required min_len max_len ≡ true)
fits-Passes [] required min_len max_len = (
  λ e. inl (refl, ground (arith, e)),
  λ h. elim h [
    | inl (empty, free) ↦ ground (arith, free)
    | inr (present, low, high) ↦ absurd (present refl)
  ],
)
fits-Passes (c ∷ value) required min_len max_len = (
  λ e. inr (
    cc,
    (λ n same. long_enough (c ∷ value) min_len n (ground (arith, e)) same),
    λ n same positive. short_enough (c ∷ value) max_len n (ground (arith, e)) same positive,
  ),
  λ h. elim h [
    | inl (empty, free) ↦ absurd cc
    | inr (present, low, high) ↦
        let short = not_too_short (c ∷ value) min_len low in
        let long = not_too_long (c ∷ value) max_len high in rw (short, long) refl
  ],
)

-- `ValidateField` keeps a result coherent, which is to say valid exactly if it lists no error. The
-- result is valid exactly if it was valid and the value passes: it may be absent only if it is not
-- required, and a present value has at least the minimal length, and at most the maximal one if
-- that is positive.
pub validate_field-IsCoherent :
    (v : ValidationResult) (field value : Bytes) (required : Bool) (min_len max_len : ℤ)
    → IsCoherent v
    → let v' = validate_field v field value required min_len max_len in
      IsCoherent v'
      × (v'.valid ≡ true → (v.valid ≡ true) × Passes value required min_len max_len)
      × (v.valid ≡ true → Passes value required min_len max_len → v'.valid ≡ true)
validate_field-IsCoherent v field value required min_len max_len h =
    let (coherent, same) = validate_field-fits v field value required min_len max_len h in
    let (sound, complete) = fits-Passes value required min_len max_len in
    (
      coherent,
      (λ e. (ground (arith, e, same), sound (ground (arith, e, same)))),
      λ e p. rw same (ground (arith, e, complete p)),
    )
