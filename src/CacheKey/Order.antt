-- ===== src/CacheKey/Order.antt =====
-- The key of a decision does not depend on the order in which the models are read from their map.
use pi_pi_mink.Prelude.{
  true, false, ◌||◌, Option, none, List, [], ◌∷◌, ◌≡◌, ◌∙◌, refl, sym, ap, arith,
}
use mathlib.Core.Logic.{∥∥₁_elim}
use mathlib.Core.List.{Perm}
use mathlib.Core.List.{Permᴰ}
use pi_pi_mink.Prelude.Text.{Bytes, str_eq, str_eq_iff}
use pi_pi_mink.Prelude.Dict.{Dict, lookup, Unique}
use pi_pi_mink.Models.{ModelInfo}
use pi_pi_mink.CacheKey.{
  CacheModel, str_lt, item_of, insert_sorted, sorted_items, normalized, build_decision_cache_key,
}

str_lt_asymm : (a b : Bytes) → str_lt a b ≡ true → str_lt b a ≡ false
unfolding str_lt
str_lt_asymm a [] e = absurd (ground (arith, e))
str_lt_asymm [] (y ∷ b) e = refl
str_lt_asymm (x ∷ a) (y ∷ b) e = ground (arith, e, str_lt_asymm a b)

str_lt_total : (a b : Bytes) → str_eq a b ≡ false → (str_lt a b || str_lt b a) ≡ true
unfolding str_lt str_eq
str_lt_total [] [] e = absurd (ground (arith, e))
str_lt_total [] (y ∷ b) e = refl
str_lt_total (x ∷ a) [] e = refl
str_lt_total (x ∷ a) (y ∷ b) e = ground (arith, e, str_lt_total a b)

str_lt_between : (a b c : Bytes) → str_lt a c ≡ true → (str_lt a b || str_lt b c) ≡ true
unfolding str_lt
str_lt_between a b [] e = absurd (ground (arith, e))
str_lt_between [] [] (z ∷ c) e = refl
str_lt_between [] (y ∷ b) (z ∷ c) e = refl
str_lt_between (x ∷ a) [] (z ∷ c) e = refl
str_lt_between (x ∷ a) (y ∷ b) (z ∷ c) e = ground (arith, e, str_lt_between a b c)

insert_sorted_comm :
    (m n : CacheModel) (l : List CacheModel)
    → str_eq m.name n.name ≡ false
    → insert_sorted m (insert_sorted n l) ≡ insert_sorted n (insert_sorted m l)
unfolding insert_sorted
insert_sorted_comm m n [] e =
    ground (arith, str_lt_asymm m.name n.name, str_lt_total m.name n.name e)
insert_sorted_comm m n (x ∷ l) e = ground (
  arith,
  insert_sorted_comm m n l e,
  str_lt_asymm m.name n.name,
  str_lt_total m.name n.name e,
  str_lt_between x.name m.name n.name,
  str_lt_between x.name n.name m.name,
)

lookup_perm : (k : Bytes) {l r : Dict ModelInfo} → Permᴰ l r → lookup k l ≡ none → lookup k r ≡ none
unfolding lookup
lookup_perm k Permᴰ.nil h = h
lookup_perm k (Permᴰ.cons e p) h = ground (arith, h, ap (λ x. x.0) e, lookup_perm k p)
lookup_perm k (Permᴰ.swap e f) h = ground (arith, h, ap (λ x. x.0) e, ap (λ x. x.0) f)
lookup_perm k (Permᴰ.trans p q) h = lookup_perm k q (lookup_perm k p h)

Unique-perm : {l r : Dict ModelInfo} → Permᴰ l r → Unique l → Unique r
unfolding lookup
Unique-perm Permᴰ.nil u = u
Unique-perm (Permᴰ.cons e p) (absent, u) =
    (rw (sym (ap (λ x. x.0) e)) (lookup_perm _ p absent), Unique-perm p u)
Unique-perm (Permᴰ.swap {a = x} {b = y} e f) u =
    ground
      (arith, u.0, u.1, str_eq_iff x.0 y.0, str_eq_iff y.0 x.0, ap (λ z. z.0) e, ap (λ z. z.0) f)
Unique-perm (Permᴰ.trans p q) u = Unique-perm q (Unique-perm p u)

-- sorting forgets the order, as the names of a map differ
sorted_items_perm : {l r : Dict ModelInfo} → Permᴰ l r → Unique l → sorted_items l ≡ sorted_items r
unfolding sorted_items lookup
sorted_items_perm Permᴰ.nil u = refl
sorted_items_perm (Permᴰ.cons {a = x} e p) (absent, u) =
    rw (sym e) (ap (insert_sorted (item_of x.0 x.1)) (sorted_items_perm p u))
sorted_items_perm (Permᴰ.swap {a = x} {b = y} {l = l} e f) u =
    rw (sym e, sym f)
      (insert_sorted_comm (item_of x.0 x.1) (item_of y.0 y.1) (sorted_items l)
        (ground (arith, u.0, str_eq_iff x.0 y.0, str_eq_iff y.0 x.0)))
sorted_items_perm (Permᴰ.trans p q) u =
    sorted_items_perm p u ∙ sorted_items_perm q (Unique-perm p u)

-- The key of a decision is the same in whatever order the map of the models is read, as the items are
-- sorted by name and the names of a map differ.
pub build_decision_cache_key_perm :
    (digest : Bytes → List CacheModel → Option Bytes) (message : Bytes) {l r : Dict ModelInfo}
    → Perm l r
    → Unique l
    → build_decision_cache_key digest message l ≡ build_decision_cache_key digest message r
unfolding build_decision_cache_key
build_decision_cache_key_perm digest message {l} {r} p u =
    ∥∥₁_elim p (hlevel) (λ d. ap (digest (normalized message)) (sorted_items_perm d u))
