-- ===== src/Validator.antt =====
-- internal/api/validator.go: the validation of requests. What reading the body comes to is an
-- argument, `is_json` is `json.Unmarshal` into a raw message.
pub mod Coherent
use pi_pi_mink.Prelude.{
  ℕ, zero, suc, ◌≤◌, ◌<◌, ◌≢◌, ◌⊎◌, inl, inr, ◌+◌, ◌/◌, ◌%◌, ◌^◌, Bool, true, false, ◌&&◌, ◌||◌,
  not, Option, none, some, List, [], ◌∷◌, ◌++◌, ◌≡◌, ◌∙◌, refl, sym, arith, if◌then◌else◌, ltb, leb,
  length,
}
use pi_pi_mink.Prelude.Int.{ℤ, pos, negsuc, is_pos, to_ℕ}
use pi_pi_mink.Prelude.Text.{Bytes, codes, str_eq, is_empty, contains}

pub record ValidationError : Type 0 where
  pub field : Bytes
  pub message : Bytes

pub record ValidationResult : Type 0 where
  pub valid : Bool
  pub errors : List ValidationError

-- `NewValidationResult`
abbrev pub new_validation_result : ValidationResult
new_validation_result = record { valid = true; errors = [] }

-- `AddError`
unfoldable pub add_error : Bytes → Bytes → ValidationResult → ValidationResult
add_error field message v = record v {
  valid = false;
  errors = v.errors ++ record { field = field; message = message } ∷ [];
}

-- `HasErrors`
abbrev pub has_errors : ValidationResult → Bool
has_errors v = not v.valid

-- what `io.ReadAll` returns under the limit
pub data Body : Type 0 where
  too_large unreadable : Body
  whole : Bytes → Body

abbrev refused : Bytes → Bytes → Option Bytes × ValidationResult
refused field message = (none, add_error field message new_validation_result)

abbrev checked_body : (Bytes → Bool) → Body → Option Bytes × ValidationResult
checked_body is_json too_large = refused (codes "body") (codes "Request body too large")
checked_body is_json unreadable = refused (codes "body") (codes "Error reading request body")
checked_body is_json (whole body) =
    if is_empty body
    then refused (codes "body") (codes "Request body cannot be empty")
    else if not (is_json body)
    then refused (codes "body") (codes "Request body must be valid JSON")
    else (some body, new_validation_result)

-- `ValidateRequestBody`, on the `Content-Type` header
unfoldable pub validate_request_body :
    (Bytes → Bool) → Bytes → Body → Option Bytes × ValidationResult
unfolding add_error
validate_request_body is_json content_type read =
    if not (contains (codes "application/json") content_type)
    then refused (codes "content-type") (codes "Content-Type must be application/json")
    else checked_body is_json read

-- `string(r)` for an int32 with these 32 bits: its UTF-8, or that of U+FFFD if it is no code point
unfoldable pub rune_string : ℕ → Bytes
rune_string c =
    if ltb c 128
    then c ∷ []
    else if ltb c 2048
    then (192 + c / 64) ∷ (128 + c % 64) ∷ []
    else if ltb 1114111 c || (leb 55296 c && leb c 57343)
    then 239 ∷ 191 ∷ 189 ∷ []
    else if ltb c 65536
    then (224 + c / 4096) ∷ (128 + c / 64 % 64) ∷ (128 + c % 64) ∷ []
    else (240 + c / 262144) ∷ (128 + c / 4096 % 64) ∷ (128 + c / 64 % 64) ∷ (128 + c % 64) ∷ []

-- `string(rune('0'+n))`
abbrev pub rune_of : ℤ → Bytes
rune_of n = rune_string ((b'0' + to_ℕ n) % 2 ^ 32)

abbrev pub too_short : Bytes → ℤ → Bool
too_short value min_len = is_pos min_len && ltb (length value) (to_ℕ min_len)

abbrev pub too_long : Bytes → ℤ → Bool
too_long value max_len = is_pos max_len && ltb (to_ℕ max_len) (length value)

abbrev pub min_checked : Bytes → Bytes → ℤ → ValidationResult → ValidationResult
min_checked field value min_len v =
    if too_short value min_len
    then add_error field (codes "Must be at least " ++ rune_of min_len ++ codes " characters") v
    else v

abbrev pub max_checked : Bytes → Bytes → ℤ → ValidationResult → ValidationResult
max_checked field value max_len v =
    if too_long value max_len
    then add_error field (codes "Must be at most " ++ rune_of max_len ++ codes " characters") v
    else v

-- `ValidateField`
unfoldable pub validate_field : ValidationResult → Bytes → Bytes → Bool → ℤ → ℤ → ValidationResult
unfolding add_error rune_string
validate_field v field value required min_len max_len =
    if required && is_empty value
    then add_error field (codes "Field is required") v
    else if is_empty value
    then v
    else max_checked field value max_len (min_checked field value min_len v)

-- `ValidateAuthKey`, on the header
unfoldable pub validate_auth_key : Bytes → Bytes → ValidationResult
unfolding add_error
validate_auth_key api_key expected_key =
    if is_empty api_key
    then add_error (codes "auth") (codes "API key is required") new_validation_result
    else if not (str_eq api_key expected_key)
    then add_error (codes "auth") (codes "Invalid API key") new_validation_result
    else new_validation_result
