-- ===== src/ProviderAdmin/Outcome.antt =====
-- What the reply of a handler says of the memory, the file and the client.
use pi_pi_mink.Prelude.{
  ℕ, suc, false, List, [], ◌∷◌, ◌++◌, map, ◌≡◌, ◌≢◌, ◌⊎◌, refl, sym, ◌∙◌, ap, Option, none, some,
  arith, Bool-cases, Option-cases, inl, inr, ◌||◌, ◌&&◌, not,
}
use pi_pi_mink.Prelude.Int.{ℤ}
use pi_pi_mink.Prelude.Text.{Bytes, str_eq, str_eq_iff, is_empty}
use pi_pi_mink.Prelude.Dict.{delete}
use pi_pi_mink.Provider.{ProviderConfig}
use pi_pi_mink.Client.{set_providers}
use pi_pi_mink.ProviderAdmin.{
  FileSystem, StoredProvider, stored, Server, Reply, created, done, bad_request, not_found,
  conflict, internal_error, AddRequest, find_provider_index, remove_at, save_providers, commit,
  change_named, add_checked, Command, add, update, remove, toggle, update_model_configs, handle,
  handle_add_provider, handle_delete_provider,
}

-- What a reply promises of the states before and after it. A success: the file holds what is
-- stored of the providers in memory, and the client has been told of them. A refusal: nothing has changed. An internal error: the client has not been told.
abbrev pub Promises : Server → Server → Reply → Type 0
Promises s t created =
    (t.file ≡ some (map stored t.providers)) × (t.client ≡ set_providers t.providers s.client)
Promises s t done =
    (t.file ≡ some (map stored t.providers)) × (t.client ≡ set_providers t.providers s.client)
Promises s t bad_request = t ≡ s
Promises s t conflict = t ≡ s
Promises s t not_found = t ≡ s
Promises s t internal_error = t.client ≡ s.client

commit-Promises :
    (fs : FileSystem) (s t : Server)
    → t.client ≡ s.client
    → Promises s (commit fs t).0 (commit fs t).1
unfolding save_providers
commit-Promises fs s t e = elim (Bool-cases fs.write_temp) [
  | inr off ↦ simp off e
  | inl on ↦ elim (Bool-cases fs.rename) [
    | inl renamed ↦ simp (on, renamed) (refl, ap (set_providers t.providers) e)
    | inr busy ↦ elim (Bool-cases fs.write_in_place) [
      | inl written ↦ simp (on, busy, written) (refl, ap (set_providers t.providers) e)
      | inr broken ↦ simp (on, busy, broken) e
    ]
  ]
]

change_named-Promises :
    (fs : FileSystem) (name : Bytes) (f : ProviderConfig → ProviderConfig) (s : Server)
    → Promises s (change_named fs name f s).0 (change_named fs name f s).1
change_named-Promises fs name f s = elim (Option-cases (find_provider_index name s.providers)) [
  | inl e ↦ rw (e, change_named) refl
  | inr (i, e) ↦ rw (e, change_named) (commit-Promises fs s _ refl)
]

handle_delete_provider-Promises :
    (fs : FileSystem) (name : Bytes) (s : Server)
    → Promises s (handle_delete_provider fs name s).0 (handle_delete_provider fs name s).1
unfolding handle_delete_provider
handle_delete_provider-Promises fs name s =
    elim (Option-cases (find_provider_index name s.providers)) [
      | inl e ↦ rw (e, handle_delete_provider) refl
      | inr (i, e) ↦ rw (e, handle_delete_provider) (commit-Promises fs s _ refl)
    ]

save_providers_failed :
    (fs : FileSystem) (ps : List ProviderConfig) (file : Option (List StoredProvider))
    → (save_providers fs ps file).1 ≡ false
    → ((save_providers fs ps file).0 ≡ file) ⊎ ((save_providers fs ps file).0 ≡ none)
unfolding save_providers
save_providers_failed fs ps file e = elim (Bool-cases fs.write_temp) [
  | inr off ↦ simp off (inl refl)
  | inl on ↦ elim (Bool-cases fs.rename) [
    | inl renamed ↦ absurd (ground (arith, e, on, renamed))
    | inr busy ↦ elim (Bool-cases fs.write_in_place) [
      | inl written ↦ absurd (ground (arith, e, on, busy, written))
      | inr broken ↦ simp (on, busy, broken) (inr refl)
    ]
  ]
]

commit_failed :
    (fs : FileSystem) (s : Server)
    → (commit fs s).1 ≡ internal_error
    → ((commit fs s).0.providers ≡ s.providers)
      × ((commit fs s).0.client ≡ s.client)
      × (((commit fs s).0.file ≡ s.file) ⊎ ((commit fs s).0.file ≡ none))
commit_failed fs s e = elim (Bool-cases (save_providers fs s.providers s.file).1) [
  | inl saved ↦ absurd (ground (arith, e, saved))
  | inr off ↦ rw off (refl, refl, save_providers_failed fs s.providers s.file off)
]

-- a provider of this name stands between the two parts of the list
abbrev pub Between :
    Bytes → List ProviderConfig → List ProviderConfig → List ProviderConfig → Type 0
Between name before front back =
    (p : ProviderConfig) × (before ≡ front ++ p ∷ back) × (p.name ≡ name)

remove_at-Between :
    (name : Bytes) (ps : List ProviderConfig) (i : ℕ)
    → find_provider_index name ps ≡ some i
    → (front : List ProviderConfig) × (back : List ProviderConfig) × Between name ps front back
      × (remove_at i ps ≡ front ++ back)
unfolding find_provider_index remove_at
remove_at-Between name [] i e = absurd cc
remove_at-Between name (p ∷ ps) i e = elim (Bool-cases (str_eq p.name name)) [
  | inl same ↦
      let first : 0 ≡ i = ground (arith, e, same) in
      rw (sym first) ([], ps, (p, refl, (str_eq_iff p.name name).0 same), refl)
  | inr other ↦ elim (Option-cases (find_provider_index name ps)) [
    | inl absent ↦ absurd (ground (arith, e, other, absent))
    | inr (j, found) ↦
        let later : suc j ≡ i = ground (arith, e, other, found) in
        let (front, back, (q, split, named), removed) = remove_at-Between name ps j found in
        rw (sym later) (p ∷ front, back, (q, ap (◌∷◌ p) split, named), ap (◌∷◌ p) removed)
  ]
]

-- A delete that answers with an internal error, for whatever reason the save failed, has removed a
-- provider of that name from memory all the same and kept all others, while the client has its old
-- table, and the file is that of before or, if a write in place broke off, lost.
pub handle_delete_provider_failed :
    (fs : FileSystem) (name : Bytes) (s : Server)
    → (handle_delete_provider fs name s).1 ≡ internal_error
    → let t = (handle_delete_provider fs name s).0 in
      (front : List ProviderConfig) × (back : List ProviderConfig) × Between name s.providers front
        back
      × (t.providers ≡ front ++ back)
      × (t.client ≡ s.client)
      × ((t.file ≡ s.file) ⊎ (t.file ≡ none))
unfolding handle_delete_provider
handle_delete_provider_failed fs name s e =
    elim (Option-cases (find_provider_index name s.providers)) [
      | inl absent ↦ absurd (ground (arith, e, absent))
      | inr (i, found) ↦
          let next : Server = record s {
            providers = remove_at i s.providers;
            tested = delete name s.tested;
          } in
          let (front, back, between, removed) = remove_at-Between name s.providers i found in
          let e' = rw (found, handle_delete_provider) at e in
          let (memory, client, file) = commit_failed fs next e' in
          rw (found, handle_delete_provider) (front, back, between, memory ∙ removed, client, file)
    ]

module _ (getenv : Bytes → Bytes) (parse_duration : Bytes → Option ℤ) (fs : FileSystem) where
  -- An add that is not answered with success leaves the list in memory, the client and the test
  -- results as they were, also when the save fails.
  pub handle_add_provider_atomic :
      (req : Option AddRequest) (s : Server)
      → (handle_add_provider getenv parse_duration fs req s).1 ≢ created
      → ((handle_add_provider getenv parse_duration fs req s).0.providers ≡ s.providers)
        × ((handle_add_provider getenv parse_duration fs req s).0.client ≡ s.client)
        × ((handle_add_provider getenv parse_duration fs req s).0.tested ≡ s.tested)
  unfolding handle_add_provider save_providers
  handle_add_provider_atomic none s h = (refl, refl, refl)
  handle_add_provider_atomic (some req) s h = ground arith

  add_checked-Promises :
      (req : AddRequest) (s : Server)
      → Promises s
          (add_checked getenv parse_duration fs req s).0
          (add_checked getenv parse_duration fs req s).1
  unfolding save_providers
  add_checked-Promises req s = elim (Bool-cases fs.write_temp) [
    | inr off ↦ simp off
    | inl on ↦ elim (Bool-cases fs.rename) [
      | inl renamed ↦ simp (on, renamed) (refl, refl)
      | inr busy ↦ elim (Bool-cases fs.write_in_place) [
        | inl written ↦ simp (on, busy, written) (refl, refl)
        | inr broken ↦ simp (on, busy, broken)
      ]
    ]
  ]

  handle_add_provider-Promises :
      (req : Option AddRequest) (s : Server)
      → Promises s
          (handle_add_provider getenv parse_duration fs req s).0
          (handle_add_provider getenv parse_duration fs req s).1
  unfolding handle_add_provider
  handle_add_provider-Promises none s = refl
  handle_add_provider-Promises (some req) s =
      elim (Bool-cases (is_empty req.name || is_empty req.base_url)) [
        | inl bad ↦ rw bad refl
        | inr fine ↦ elim (Option-cases (find_provider_index req.name s.providers)) [
          | inl e ↦ rw (fine, e) (add_checked-Promises req s)
          | inr (i, e) ↦ rw (fine, e) refl
        ]
      ]

  -- Every reply to every request keeps its promise: after a success the file holds the providers in
  -- memory, each without its keys and its parsed timeout, and the client has been told of them; after
  -- a refusal (400, 404, 409) nothing has changed; after an internal error the client has its old
  -- table.
  pub handle-Promises :
      (c : Command) (s : Server)
      → Promises s (handle getenv parse_duration fs c s).0 (handle getenv parse_duration fs c s).1
  unfolding handle
  handle-Promises (add req) s = handle_add_provider-Promises req s
  handle-Promises (update name none) s = refl
  handle-Promises (update name (some req)) s =
      elim (Bool-cases (not (is_empty req.name) && not (str_eq req.name name))) [
        | inl bad ↦ rw bad refl
        | inr fine ↦ rw fine (change_named-Promises fs name _ s)
      ]
  handle-Promises (remove name) s = handle_delete_provider-Promises fs name s
  handle-Promises (toggle name none) s = refl
  handle-Promises (toggle name (some b)) s = change_named-Promises fs name _ s
  handle-Promises (update_model_configs name none) s = refl
  handle-Promises (update_model_configs name (some mcs)) s = change_named-Promises fs name _ s
