-- ===== src/Client/Table.antt =====
-- The client's table of providers after `SetProviders`.
use mathlib.Core.List.{append-nil, append_assoc}
use pi_pi_mink.Prelude.{
  ℕ, Bool, ◌&&◌, ◌≡◌, refl, sym, ◌∙◌, Option, none, some, List, [], ◌∷◌, ◌++◌, length, any, arith,
  if◌then◌else◌, Bool-cases, inl, inr, Option-cases,
}
use pi_pi_mink.Prelude.Int.{is_pos}
use pi_pi_mink.Prelude.Text.{Bytes, str_eq, str_eq_iff}
use pi_pi_mink.Prelude.Dict.{Dict, lookup, insert, lookup-insert}
use pi_pi_mink.Provider.{ProviderConfig}
use pi_pi_mink.Client.{
  RateLimiter, new_rate_limiter, Client, Tables, add_limiter, add_provider, add_providers,
  set_providers, find_provider, rate_limiter_for,
}

-- the last provider of the list with the name, or `o`
abbrev pub last_named : Bytes → List ProviderConfig → Option ProviderConfig → Option ProviderConfig
last_named n [] o = o
last_named n (p ∷ ps) o = last_named n ps (if str_eq p.name n then some p else o)

-- a provider of the list has the name and a limit
abbrev pub is_limited : Bytes → List ProviderConfig → Bool
is_limited n = any (λ p. str_eq p.name n && is_pos p.rate_limit_seconds)

module _ (old : Dict ℕ) where
  add_provider-new_providers :
      (p : ProviderConfig) (t : Tables)
      → (add_provider old p t).new_providers ≡ insert p.name p t.new_providers
  add_provider-new_providers p t = elim (Bool-cases (is_pos p.rate_limit_seconds)) [
    | inr off ↦ rw off refl
    | inl on ↦ elim (Option-cases (lookup p.name old)) [
      | inl e ↦ rw (on, e, add_limiter) refl
      | inr (a, e) ↦ rw (on, e, add_limiter) refl
    ]
  ]

  lookup-add_providers :
      (n : Bytes) (ps : List ProviderConfig) (t : Tables)
      → lookup n (add_providers old ps t).new_providers ≡ last_named n ps (lookup n t.new_providers)
  unfolding add_providers
  lookup-add_providers n [] t = refl
  lookup-add_providers n (p ∷ ps) t =
      lookup-add_providers n ps (add_provider old p t)
      ∙ rw (add_provider-new_providers p t, lookup-insert p.name n p t.new_providers)

  add_provider_known :
      (n : Bytes) (a : ℕ) (p : ProviderConfig) (t : Tables)
      → lookup n old ≡ some a
      → lookup n (add_provider old p t).new_limiters ≡ (
          if str_eq p.name n && is_pos p.rate_limit_seconds
          then some a
          else lookup n t.new_limiters)
  add_provider_known n a p t h = elim (Bool-cases (is_pos p.rate_limit_seconds)) [
    | inr off ↦ ground (arith, off)
    | inl on ↦ elim (Option-cases (lookup p.name old)) [
      | inl e ↦ ground (
        arith,
        on,
        e,
        str_eq_iff p.name n,
        lookup-insert p.name n (length t.store) t.new_limiters,
      )
      | inr (b, e) ↦
          ground (arith, on, e, str_eq_iff p.name n, lookup-insert p.name n b t.new_limiters)
    ]
  ]

  add_providers_known :
      (n : Bytes) (a : ℕ) (ps : List ProviderConfig) (t : Tables)
      → lookup n old ≡ some a
      → lookup n (add_providers old ps t).new_limiters
        ≡ (if is_limited n ps then some a else lookup n t.new_limiters)
  unfolding add_providers
  add_providers_known n a [] t h = refl
  add_providers_known n a (p ∷ ps) t h =
      ground
        (arith, add_providers_known n a ps (add_provider old p t) h, add_provider_known n a p t h)

  add_provider-store :
      (p : ProviderConfig) (t : Tables)
      → (s : List RateLimiter) × ((add_provider old p t).store ≡ t.store ++ s)
  add_provider-store p t = elim (Bool-cases (is_pos p.rate_limit_seconds)) [
    | inr off ↦ ([], rw off (sym (append-nil t.store)))
    | inl on ↦ elim (Option-cases (lookup p.name old)) [
      | inl e ↦ (new_rate_limiter p.rate_limit_seconds ∷ [], rw (on, e, add_limiter) refl)
      | inr (b, e) ↦ ([], rw (on, e, add_limiter) (sym (append-nil t.store)))
    ]
  ]

  add_providers-store :
      (ps : List ProviderConfig) (t : Tables)
      → (s : List RateLimiter) × ((add_providers old ps t).store ≡ t.store ++ s)
  unfolding add_providers
  add_providers-store [] t = ([], sym (append-nil t.store))
  add_providers-store (p ∷ ps) t =
      let (s, e) = add_provider-store p t in
      let (s', e') = add_providers-store ps (add_provider old p t) in
      (s ++ s', e' ∙ rw e (append_assoc t.store s s'))

-- After `SetProviders` the client knows exactly the names of the list, and for each name the last
-- provider of the list that has it; what it knew before plays no part.
pub find_provider-set_providers :
    (n : Bytes) (ps : List ProviderConfig) (c : Client)
    → find_provider n (set_providers ps c) ≡ last_named n ps none
unfolding set_providers lookup
find_provider-set_providers n ps c = lookup-add_providers c.provider_limiters n ps _

-- A limiter that the client had for a name stays the same object while the list limits the name, and
-- is no longer that of the name if the list does not. All the limiters that were there keep their
-- state, the waiting time included, whatever waiting time the list now gives.
pub rate_limiter_for-set_providers :
    (n : Bytes) (a : ℕ) (ps : List ProviderConfig) (c : Client)
    → rate_limiter_for n c ≡ some a
    → (rate_limiter_for n (set_providers ps c) ≡ (if is_limited n ps then some a else none))
      × ((s : List RateLimiter) × ((set_providers ps c).limiters ≡ c.limiters ++ s))
unfolding set_providers lookup
rate_limiter_for-set_providers n a ps c h = (
  add_providers_known c.provider_limiters n a ps _ h,
  add_providers-store c.provider_limiters ps _,
)
