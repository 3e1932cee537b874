-- ===== src/DecisionCache/Order.antt =====
-- The linked list of the cache: elements by their identity against elements by their key.
use pi_pi_mink.Prelude.{
  ℕ, zero, suc, ◌<◌, ◌≡◌, ◌≢◌, refl, ap, none, some, false, [], ◌∷◌, length, take, All, arith,
}
use pi_pi_mink.Prelude.Text.{Bytes, str_eq, str_eq_iff}
use pi_pi_mink.Prelude.Dict.{Dict, lookup, delete, Unique}
use pi_pi_mink.DecisionCache.{remove_element, value_of, move_to_front, back}

-- no element of the list has the identity `i`
abbrev pub NotId : ℕ → Dict ℕ → Type 0
NotId i = All (λ e. e.1 ≢ i)

abbrev pub DistinctIds : Dict ℕ → Type 0
DistinctIds [] = Unit
DistinctIds ((k, i) ∷ o) = NotId i o × DistinctIds o

NotId-lookup : (k : Bytes) (i : ℕ) (o : Dict ℕ) → NotId i o → lookup k o ≡ some i → ⊥
unfolding lookup
NotId-lookup k i [] n h = cc
NotId-lookup k i ((j, e) ∷ o) n h = ground (arith, NotId-lookup k i o n.1)

module _ (k : Bytes) (i : ℕ) where
  pub remove_element-delete :
      (o : Dict ℕ) → DistinctIds o → lookup k o ≡ some i → remove_element i o ≡ delete k o
  unfolding lookup delete remove_element
  remove_element-delete [] d h = refl
  remove_element-delete ((j, e) ∷ o) d h =
      ground (arith, NotId-lookup k e o d.0, remove_element-delete o d.1)

  pub value_of-lookup : (o : Dict ℕ) → DistinctIds o → lookup k o ≡ some i → value_of i o ≡ some k
  unfolding lookup value_of
  value_of-lookup [] d h = cc
  value_of-lookup ((j, e) ∷ o) d h =
      ground (arith, NotId-lookup k e o d.0, value_of-lookup o d.1, str_eq_iff j k)

  pub move_to_front-delete :
      (o : Dict ℕ) → DistinctIds o → lookup k o ≡ some i → move_to_front i o ≡ (k, i) ∷ delete k o
  unfolding move_to_front
  move_to_front-delete o d h =
      rw (value_of-lookup o d h, move_to_front) (ap (◌∷◌ (k, i)) (remove_element-delete o d h))

pub All-delete {ℓ κ} :
    {V : Type ℓ} (P : Bytes × V → Type κ) (k : Bytes) (o : Dict V) → All P o → All P (delete k o)
unfolding delete
All-delete P k [] h = h
All-delete P k ((j, v) ∷ o) h = ground (arith, All-delete P k o h.1)

pub delete-DistinctIds : (k : Bytes) (o : Dict ℕ) → DistinctIds o → DistinctIds (delete k o)
unfolding delete
delete-DistinctIds k [] d = d
delete-DistinctIds k ((j, i) ∷ o) d =
    ground (arith, All-delete (λ e. e.1 ≢ i) k o d.0, delete-DistinctIds k o d.1)

-- the identity of an element that the map points to does not stand behind it
pub delete-NotId :
    (k : Bytes) (i : ℕ) (o : Dict ℕ) → DistinctIds o → lookup k o ≡ some i → NotId i (delete k o)
unfolding delete lookup
delete-NotId k i [] d h = tt
delete-NotId k i ((j, e) ∷ o) d h = ground (arith, NotId-lookup k e o d.0, delete-NotId k i o d.1)

pub NotId-of_fresh : (n : ℕ) (o : Dict ℕ) → All (λ e. e.1 < n) o → NotId n o
NotId-of_fresh n [] h = tt
NotId-of_fresh n (e ∷ o) h = (λ q. omega (arith, h.0), NotId-of_fresh n o h.1)

pub All-lt_suc : (n : ℕ) (o : Dict ℕ) → All (λ e. e.1 < n) o → All (λ e. e.1 < suc n) o
All-lt_suc n [] h = tt
All-lt_suc n (e ∷ o) h = (omega (arith, h.0), All-lt_suc n o h.1)

pub fresh_of_lookup :
    (k : Bytes) (i n : ℕ) (o : Dict ℕ) → All (λ e. e.1 < n) o → lookup k o ≡ some i → i < n
unfolding lookup
fresh_of_lookup k i n [] h e = cc
fresh_of_lookup k i n ((j, v) ∷ o) h e = ground (arith, fresh_of_lookup k i n o h.1, h.0)

head_differs :
    (k j : Bytes) (i : ℕ) (o : Dict ℕ)
    → lookup k o ≡ none
    → lookup j o ≡ some i
    → str_eq k j ≡ false
head_differs k j i o absent found = ground (arith, str_eq_iff k j)

-- The back of a list with `suc n` elements is what is dropped to keep the first `n`.
pub back-take :
    (n : ℕ) (o : Dict ℕ)
    → Unique o
    → length o ≡ suc n
    → (e : Bytes × ℕ) × (back o ≡ some e) × (lookup e.0 o ≡ some e.1) × (delete e.0 o ≡ take n o)
unfolding back lookup delete
back-take n [] u h = absurd (omega arith)
back-take zero (e ∷ []) u h =
    (e, refl, ground (arith, str_eq_iff e.0 e.0), ground (arith, str_eq_iff e.0 e.0))
back-take (suc n) (e ∷ []) u h = absurd (omega arith)
back-take zero (e ∷ f ∷ o) u h = absurd (omega arith)
back-take (suc n) (e ∷ f ∷ o) u h =
    let (x, at_back, found, cut) = back-take n (f ∷ o) u.1 (omega arith) in
    let other = head_differs e.0 x.0 x.1 (f ∷ o) u.0 found in
    (x, at_back, rw other found, rw other (ap (◌∷◌ e) cut))
