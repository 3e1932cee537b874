-- ===== src/Prelude/Text.antt =====
-- Go strings as lists of bytes, and the functions of the package `strings` that the program calls.
-- Letter case is that of ASCII, and white space is that of `unicode.IsSpace` below 128.
use Prim.Native.Char.{code}
use Prim.Native.String.{String}
use Prim.Native.Nat.{ℕ, suc, ◌+◌, ◌-◌}
use mathlib.Core.Path.{◌≡◌, refl}
use mathlib.Core.Logic.{◌↔◌}
use mathlib.Core.Bool.{Bool, true, false, ◌&&◌, ◌||◌}
use mathlib.Core.Option.{Option, none, some}
use mathlib.Core.List.{List, [], ◌∷◌, ◌++◌, reverse, map}
use native.Mathlib.Omega.{arith}
use pi_pi_mink.Prelude.Tests.{if◌then◌else◌, ◌==◌, leb}
use pi_pi_mink.Prelude.Lists.{length, drop, take}

abbrev pub Bytes : Type 0
Bytes = List ℕ

-- the bytes of an ASCII literal
abbrev pub codes : String → Bytes
codes String.[] = []
codes (String.◌∷◌ c s) = code c ∷ codes s

-- `a == b` on strings
unfoldable pub str_eq : Bytes → Bytes → Bool
str_eq [] [] = true
str_eq (x ∷ a) (y ∷ b) = x == y && str_eq a b
str_eq _ _ = false

pub str_eq_iff : (a b : Bytes) → (str_eq a b ≡ true) ↔ (a ≡ b)
unfolding str_eq
str_eq_iff (x ∷ a) (y ∷ b) = ground (arith, str_eq_iff a b)
str_eq_iff _ _ = ground arith

-- `s == ""`
abbrev pub is_empty : Bytes → Bool
is_empty [] = true
is_empty (c ∷ s) = false

-- `strings.HasPrefix(s, p)`, the prefix first
unfoldable pub has_prefix : Bytes → Bytes → Bool
has_prefix [] s = true
has_prefix (x ∷ p) [] = false
has_prefix (x ∷ p) (y ∷ s) = x == y && has_prefix p s

-- `strings.TrimPrefix(s, p)`, the prefix first
unfoldable pub trim_prefix : Bytes → Bytes → Bytes
unfolding has_prefix
trim_prefix p s = if has_prefix p s then drop (length p) s else s

-- `strings.Contains(s, p)`, the part first
unfoldable pub contains : Bytes → Bytes → Bool
unfolding has_prefix
contains p [] = has_prefix p []
contains p (c ∷ s) = has_prefix p (c ∷ s) || contains p s

-- `strings.Index(s, p)`, the part first; `none` is -1
unfoldable pub index : Bytes → Bytes → Option ℕ
unfolding has_prefix
index p [] = if has_prefix p [] then some 0 else none
index p (c ∷ s) =
    if has_prefix p (c ∷ s)
    then some 0
    else elim (index p s) [ none ↦ none | some i ↦ some (suc i) ]

-- `strings.LastIndex(s, b)` for one byte `b`; `none` is -1
unfoldable pub last_index : ℕ → Bytes → Option ℕ
last_index b [] = none
last_index b (c ∷ s) = elim (last_index b s) [
  | none ↦ if c == b then some 0 else none
  | some i ↦ some (suc i)
]

-- `strings.ToLower` on ASCII
abbrev pub lower_byte : ℕ → ℕ
lower_byte c = if leb b'A' c && leb c b'Z' then c + 32 else c

abbrev pub to_lower : Bytes → Bytes
to_lower = map lower_byte

abbrev pub is_space : ℕ → Bool
is_space c = (leb 9 c && leb c 13) || c == 32

unfoldable pub trim_left : (ℕ → Bool) → Bytes → Bytes
trim_left p [] = []
trim_left p (c ∷ s) = if p c then trim_left p s else c ∷ s

unfoldable pub trim_right : (ℕ → Bool) → Bytes → Bytes
unfolding trim_left
trim_right p s = reverse (trim_left p (reverse s))

-- `strings.TrimSpace`
unfoldable pub trim_space : Bytes → Bytes
unfolding trim_left trim_right
trim_space s = trim_right is_space (trim_left is_space s)

-- `s[from:to]` with the bounds in range
abbrev pub slice : ℕ → ℕ → Bytes → Bytes
slice from to s = take (to - from) (drop from s)

pub has_prefix-append : (p s : Bytes) → has_prefix p (p ++ s) ≡ true
unfolding has_prefix
has_prefix-append [] s = refl
has_prefix-append (c ∷ p) s = ground (arith, has_prefix-append p s)

-- A string has a prefix exactly if it is that prefix and what follows.
pub has_prefix_split : (p s : Bytes) → has_prefix p s ≡ true → s ≡ p ++ drop (length p) s
unfolding has_prefix
has_prefix_split [] s h = refl
has_prefix_split (x ∷ p) [] h = ground arith
has_prefix_split (x ∷ p) (y ∷ s) h = ground (arith, has_prefix_split p s)
