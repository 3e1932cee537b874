-- ===== src/Prelude/Dict.antt =====
-- Go maps with string keys, as association lists. Go leaves the order of iteration open: where
-- the program ranges over a map, the model takes the order of the list, whatever it is.
use Prim.Native.Nat.{suc}
use mathlib.Core.Path.{◌≡◌, refl}
use mathlib.Core.Option.{Option, none, some}
use mathlib.Core.List.{List, [], ◌∷◌}
use native.Mathlib.Omega.{arith}
use pi_pi_mink.Prelude.Tests.{if◌then◌else◌}
use pi_pi_mink.Prelude.Lists.{length}
use pi_pi_mink.Prelude.Text.{Bytes, str_eq, str_eq_iff}

abbrev pub Dict {ℓ} : Type ℓ → Type ℓ
Dict V = List (Bytes × V)

module _ {ℓ} {V : Type ℓ} where
  -- `v, ok := m[k]`
  unfoldable pub lookup : Bytes → Dict V → Option V
  lookup k [] = none
  lookup k ((j, v) ∷ m) = if str_eq j k then some v else lookup k m

  -- `m[k] = v`
  unfoldable pub insert : Bytes → V → Dict V → Dict V
  insert k v [] = (k, v) ∷ []
  insert k v ((j, w) ∷ m) = if str_eq j k then (k, v) ∷ m else (j, w) ∷ insert k v m

  -- `delete(m, k)`
  unfoldable pub delete : Bytes → Dict V → Dict V
  delete k [] = []
  delete k ((j, w) ∷ m) = if str_eq j k then m else (j, w) ∷ delete k m

  -- no key stands twice
  abbrev pub Unique : Dict V → Type ℓ
  Unique [] = Unit
  Unique ((k, v) ∷ m) = (lookup k m ≡ none) × Unique m

  pub lookup-insert :
      (k j : Bytes) (v : V) (m : Dict V)
      → lookup j (insert k v m) ≡ (if str_eq k j then some v else lookup j m)
  unfolding lookup insert
  lookup-insert k j v [] = refl
  lookup-insert k j v ((i, w) ∷ m) =
      ground (arith, str_eq_iff k j, str_eq_iff i k, str_eq_iff i j, lookup-insert k j v m)

  pub lookup-cons :
      (k j : Bytes) (v : V) (m : Dict V)
      → lookup j ((k, v) ∷ m) ≡ (if str_eq k j then some v else lookup j m)
  unfolding lookup
  lookup-cons k j v m = refl

  pub lookup-delete :
      (k j : Bytes) (m : Dict V)
      → Unique m
      → lookup j (delete k m) ≡ (if str_eq k j then none else lookup j m)
  unfolding lookup delete
  lookup-delete k j [] u = ground arith
  lookup-delete k j ((i, w) ∷ m) u =
      ground (arith, str_eq_iff k j, str_eq_iff i k, str_eq_iff i j, lookup-delete k j m u.1, u.0)

  pub insert-Unique : (k : Bytes) (v : V) (m : Dict V) → Unique m → Unique (insert k v m)
  unfolding lookup insert
  insert-Unique k v [] u = (refl, tt)
  insert-Unique k v ((i, w) ∷ m) u =
      ground (arith, insert-Unique k v m u.1, lookup-insert k i v m, str_eq_iff i k, str_eq_iff k i)

  pub delete-Unique : (k : Bytes) (m : Dict V) → Unique m → Unique (delete k m)
  unfolding lookup delete
  delete-Unique k [] u = tt
  delete-Unique k ((i, w) ∷ m) u = ground (arith, delete-Unique k m u.1, lookup-delete k i m u.1)

  pub delete_absent : (k : Bytes) (m : Dict V) → lookup k m ≡ none → delete k m ≡ m
  unfolding lookup delete
  delete_absent k [] h = refl
  delete_absent k ((i, w) ∷ m) h = ground (arith, delete_absent k m)

  pub length-insert_absent :
      (k : Bytes) (v : V) (m : Dict V) → lookup k m ≡ none → length (insert k v m) ≡ suc (length m)
  unfolding lookup insert
  length-insert_absent k v [] h = refl
  length-insert_absent k v ((i, w) ∷ m) h = ground (arith, length-insert_absent k v m)

  pub length-insert_present :
      (k : Bytes) (v w : V) (m : Dict V) → lookup k m ≡ some w → length (insert k v m) ≡ length m
  unfolding lookup insert
  length-insert_present k v w [] h = cc
  length-insert_present k v w ((i, x) ∷ m) h = ground (arith, length-insert_present k v w m)

  pub length-delete_present :
      (k : Bytes) (v : V) (m : Dict V) → lookup k m ≡ some v → suc (length (delete k m)) ≡ length m
  unfolding lookup delete
  length-delete_present k v [] h = cc
  length-delete_present k v ((i, x) ∷ m) h = ground (arith, length-delete_present k v m)
