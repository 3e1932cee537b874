-- ===== src/Json.antt =====
-- The decoded JSON that internal/llm passes around: the values of Go's `map[string]interface{}`, as
-- `encoding/json` fills it and as requests are put together. A float64 is kept as its bits.
use pi_pi_mink.Prelude.{ℕ, Bool, Option, none, some, List, [], ◌∷◌, if◌then◌else◌}
use pi_pi_mink.Prelude.Int.{ℤ}
use pi_pi_mink.Prelude.Text.{Bytes, str_eq}

mutual
  pub data Value : Type 0 where
    null : Value
    boolean : Bool → Value
    number : ℕ → Value
    integer : ℤ → Value
    text : Bytes → Value
    array : Values → Value
    object : Fields → Value

  pub data Values : Type 0 where
    end : Values
    item : Value → Values → Values

  pub data Fields : Type 0 where
    blank : Fields
    field : Bytes → Value → Fields → Fields

-- `m[k]`; `none` is the nil that Go returns for a missing key
unfoldable pub get : Bytes → Fields → Option Value
get k blank = none
get k (field j v m) = if str_eq j k then some v else get k m

-- `delete(m, k)`
unfoldable pub remove : Bytes → Fields → Fields
remove k blank = blank
remove k (field j v m) = if str_eq j k then m else field j v (remove k m)

-- the type assertions `v.(string)`, `v.([]interface{})` and `v.(map[string]interface{})`
unfoldable pub as_text : Option Value → Option Bytes
as_text (some (text s)) = some s
as_text _ = none

unfoldable pub as_array : Option Value → Option Values
as_array (some (array vs)) = some vs
as_array _ = none

unfoldable pub as_object : Option Value → Option Fields
as_object (some (object m)) = some m
as_object _ = none

unfoldable pub array_of : List Value → Values
array_of [] = end
array_of (v ∷ vs) = item v (array_of vs)
