-- ===== src/ProviderAdmin/Names.antt =====
-- No two providers have one name.
use pi_pi_mink.Prelude.{
  ℕ, zero, suc, false, ◌≡◌, refl, ◌∙◌, Option, none, some, List, [], ◌∷◌, ◌++◌, arith, Bool-cases,
  Option-cases, inl, inr, ◌||◌, ◌&&◌, not,
}
use pi_pi_mink.Prelude.Int.{ℤ}
use pi_pi_mink.Prelude.Text.{Bytes, str_eq, str_eq_iff, is_empty}
use pi_pi_mink.Provider.{ProviderConfig, resolve_provider_keys}
use pi_pi_mink.ProviderAdmin.{
  FileSystem, Server, AddRequest, provider_of, find_provider_index, change_at, remove_at,
  save_providers, commit, change_named, add_checked, Command, add, update, remove, toggle,
  update_model_configs, handle, handle_add_provider, handle_delete_provider,
}

abbrev pub Distinct : List ProviderConfig → Type 0
Distinct [] = Unit
Distinct (p ∷ ps) = (find_provider_index p.name ps ≡ none) × Distinct ps

-- a change that leaves the name alone
abbrev KeepsName : (ProviderConfig → ProviderConfig) → Type 0
KeepsName f = (p : ProviderConfig) → (f p).name ≡ p.name

find-change_at :
    (n : Bytes) (f : ProviderConfig → ProviderConfig) (i : ℕ) (ps : List ProviderConfig)
    → KeepsName f
    → find_provider_index n (change_at i f ps) ≡ find_provider_index n ps
unfolding find_provider_index change_at
find-change_at n f i [] h = refl
find-change_at n f zero (p ∷ ps) h = rw (h p) refl
find-change_at n f (suc i) (p ∷ ps) h = rw (find-change_at n f i ps h) refl

change_at-Distinct :
    (f : ProviderConfig → ProviderConfig) (i : ℕ) (ps : List ProviderConfig)
    → KeepsName f
    → Distinct ps
    → Distinct (change_at i f ps)
unfolding change_at
change_at-Distinct f i [] h d = d
change_at-Distinct f zero (p ∷ ps) h d = (rw (h p) d.0, d.1)
change_at-Distinct f (suc i) (p ∷ ps) h d =
    (find-change_at p.name f i ps h ∙ d.0, change_at-Distinct f i ps h d.1)

find-remove_at :
    (n : Bytes) (i : ℕ) (ps : List ProviderConfig)
    → find_provider_index n ps ≡ none
    → find_provider_index n (remove_at i ps) ≡ none
unfolding find_provider_index remove_at
find-remove_at n i [] h = refl
find-remove_at n zero (p ∷ ps) h = ground arith
find-remove_at n (suc i) (p ∷ ps) h = ground (arith, find-remove_at n i ps)

remove_at-Distinct : (i : ℕ) (ps : List ProviderConfig) → Distinct ps → Distinct (remove_at i ps)
unfolding remove_at
remove_at-Distinct i [] d = d
remove_at-Distinct zero (p ∷ ps) d = d.1
remove_at-Distinct (suc i) (p ∷ ps) d =
    (find-remove_at p.name i ps d.0, remove_at-Distinct i ps d.1)

find-append :
    (n : Bytes) (p : ProviderConfig) (ps : List ProviderConfig)
    → find_provider_index n ps ≡ none
    → str_eq p.name n ≡ false
    → find_provider_index n (ps ++ p ∷ []) ≡ none
unfolding find_provider_index
find-append n p [] h d = rw d refl
find-append n p (q ∷ ps) h d = ground (arith, find-append n p ps)

find-head :
    (n : Bytes) (q : ProviderConfig) (ps : List ProviderConfig)
    → find_provider_index n (q ∷ ps) ≡ none
    → (str_eq q.name n ≡ false) × (find_provider_index n ps ≡ none)
unfolding find_provider_index
find-head n q ps h = ground arith

append-Distinct :
    (p : ProviderConfig) (ps : List ProviderConfig)
    → Distinct ps
    → find_provider_index p.name ps ≡ none
    → Distinct (ps ++ p ∷ [])
unfolding find_provider_index
append-Distinct p [] d h = (refl, tt)
append-Distinct p (q ∷ ps) d h =
    let (differ, absent) = find-head p.name q ps h in
    (
      find-append q.name p ps d.0
          (ground (arith, str_eq_iff p.name q.name, str_eq_iff q.name p.name)),
      append-Distinct p ps d.1 absent,
    )

pub find-remove_at_self :
    (n : Bytes) (i : ℕ) (ps : List ProviderConfig)
    → Distinct ps
    → find_provider_index n ps ≡ some i
    → find_provider_index n (remove_at i ps) ≡ none
unfolding remove_at find_provider_index
find-remove_at_self n i [] d h = cc
find-remove_at_self n zero (p ∷ ps) d h = ground (arith, str_eq_iff p.name n)
find-remove_at_self n (suc i) (p ∷ ps) d h = ground (arith, find-remove_at_self n i ps d.1)

commit-providers : (fs : FileSystem) (s : Server) → (commit fs s).0.providers ≡ s.providers
unfolding save_providers
commit-providers fs s = ground arith

change_named-Distinct :
    (fs : FileSystem) (name : Bytes) (f : ProviderConfig → ProviderConfig) (s : Server)
    → KeepsName f
    → Distinct s.providers
    → Distinct (change_named fs name f s).0.providers
change_named-Distinct fs name f s h d = elim (Option-cases (find_provider_index name s.providers)) [
  | inl e ↦ rw (e, change_named) d
  | inr (i, e) ↦ rw (e, change_named, commit-providers) (change_at-Distinct f i s.providers h d)
]

handle_delete_provider-Distinct :
    (fs : FileSystem) (name : Bytes) (s : Server)
    → Distinct s.providers
    → Distinct (handle_delete_provider fs name s).0.providers
unfolding handle_delete_provider
handle_delete_provider-Distinct fs name s d =
    elim (Option-cases (find_provider_index name s.providers)) [
      | inl e ↦ rw (e, handle_delete_provider) d
      | inr (i, e) ↦
          rw (e, handle_delete_provider, commit-providers) (remove_at-Distinct i s.providers d)
    ]

module _ (getenv : Bytes → Bytes) (parse_duration : Bytes → Option ℤ) (fs : FileSystem) where
  resolved-name :
      (p : ProviderConfig) → (resolve_provider_keys getenv parse_duration p).name ≡ p.name
  unfolding resolve_provider_keys
  resolved-name p = refl

  add_checked-Distinct :
      (req : AddRequest) (s : Server)
      → find_provider_index req.name s.providers ≡ none
      → Distinct s.providers
      → Distinct (add_checked getenv parse_duration fs req s).0.providers
  unfolding save_providers
  add_checked-Distinct req s h d =
      let p = resolve_provider_keys getenv parse_duration (provider_of req) in
      ground (arith, append-Distinct p s.providers d, resolved-name (provider_of req))

  handle_add_provider-Distinct :
      (req : Option AddRequest) (s : Server)
      → Distinct s.providers
      → Distinct (handle_add_provider getenv parse_duration fs req s).0.providers
  unfolding handle_add_provider
  handle_add_provider-Distinct none s d = d
  handle_add_provider-Distinct (some req) s d =
      elim (Bool-cases (is_empty req.name || is_empty req.base_url)) [
        | inl bad ↦ rw bad d
        | inr fine ↦ elim (Option-cases (find_provider_index req.name s.providers)) [
          | inl e ↦ rw (fine, e) (add_checked-Distinct req s e d)
          | inr (i, e) ↦ rw (fine, e) d
        ]
      ]

  -- Whatever the request and the file system, no two providers get one name.
  pub handle-Distinct :
      (c : Command) (s : Server)
      → Distinct s.providers
      → Distinct (handle getenv parse_duration fs c s).0.providers
  unfolding handle
  handle-Distinct (add req) s d = handle_add_provider-Distinct req s d
  handle-Distinct (update name none) s d = d
  handle-Distinct (update name (some req)) s d =
      elim (Bool-cases (not (is_empty req.name) && not (str_eq req.name name))) [
        | inl bad ↦ rw bad d
        | inr fine ↦ rw fine (change_named-Distinct fs name _ s (λ p. resolved-name _) d)
      ]
  handle-Distinct (remove name) s d = handle_delete_provider-Distinct fs name s d
  handle-Distinct (toggle name none) s d = d
  handle-Distinct (toggle name (some b)) s d = change_named-Distinct fs name _ s (λ p. refl) d
  handle-Distinct (update_model_configs name none) s d = d
  handle-Distinct (update_model_configs name (some mcs)) s d =
      change_named-Distinct fs name _ s (λ p. resolved-name _) d
