-- ===== src/ModelAdmin/Fetch.antt =====
-- A full run over all providers, whose goroutines take turns in any order, and the collection that is
-- loaded afterwards.
use pi_pi_mink.Prelude.{
  Bool, true, ◌&&◌, Option, List, [], ◌∷◌, ◌≡◌, inl, inr, Bool-cases, Option-cases, arith, All,
}
use pi_pi_mink.Prelude.Text.{Bytes, str_eq}
use pi_pi_mink.Prelude.Dict.{insert}
use pi_pi_mink.Json.{Fields}
use pi_pi_mink.Models.{ModelInfo, ModelCollection}
use pi_pi_mink.Provider.{ProviderConfig}
use pi_pi_mink.Tagging.{Verdict, tags, disable, delete, fails}
use pi_pi_mink.ModelAdmin.{DbCall, has_useful_tags, call_after}
use pi_pi_mink.ModelAdmin.Runs.{
  FetchEvent, called, entered, enters, fetched_model, fetch_one, fetch_names, fetch_provider,
  fetch_all, Takes, first, later, Interleaved, over, ended, turn, all_models, add_all,
  fetch_and_tag_models,
}
use pi_pi_mink.ModelAdmin.Progress.{EnablesUseful, call_after-EnablesUseful, All-append}

-- a model is routed to only if its tags name a strength
abbrev pub Routable : (Bytes → Option Fields) → ModelInfo → Type 0
Routable decode info = info.enabled ≡ true → has_useful_tags decode info.tags ≡ true

abbrev pub Safe : (Bytes → Option Fields) → FetchEvent → Type 0
Safe decode (called c) = EnablesUseful decode c
Safe decode (entered name info) = Routable decode info

module _ (decode : Bytes → Option Fields) (verdict_of : Bytes → ProviderConfig → Verdict)
    (ok : DbCall → Bool) (now : Bytes) where
  fetched_model-Routable :
      (name source : Bytes) (v : Verdict)
      → Routable decode (fetched_model decode verdict_of ok now name source v)
  fetched_model-Routable name source (tags t) = λ h. h
  fetched_model-Routable name source (disable t) = λ h. ground (arith, h)
  fetched_model-Routable name source delete = λ h. h
  fetched_model-Routable name source (fails f) = λ h. h

  fetch_one-Safe :
      (name source : Bytes) (v : Verdict)
      → All (Safe decode) (fetch_one decode verdict_of ok now name source v)
  fetch_one-Safe name source v = (
    call_after-EnablesUseful decode name source v,
    elim (Bool-cases (enters decode verdict_of ok now v && ok (call_after decode name source v))) [
      | inl e ↦ rw e (fetched_model-Routable name source v, tt)
      | inr e ↦ rw e tt
    ],
  )

  fetch_names-Safe :
      (p : ProviderConfig) (names : List Bytes)
      → All (Safe decode) (fetch_names decode verdict_of ok now p names)
  unfolding fetch_names
  fetch_names-Safe p [] = tt
  fetch_names-Safe p (name ∷ names) =
      All-append (Safe decode) (fetch_one decode verdict_of ok now name p.name (verdict_of name p))
        (fetch_names decode verdict_of ok now p names)
        (fetch_one-Safe name p.name (verdict_of name p)) (fetch_names-Safe p names)

  module _ (list_models : ProviderConfig → Option (List Bytes)) where
    fetch_provider-Safe :
        (p : ProviderConfig)
        → All (Safe decode) (fetch_provider decode verdict_of ok now list_models p)
    unfolding fetch_provider
    fetch_provider-Safe p = elim (Option-cases (list_models p)) [
      | inl e ↦ rw (e, fetch_provider) tt
      | inr (names, e) ↦ rw (e, fetch_provider) (fetch_names-Safe p names)
    ]

    fetch_all-Safe :
        (ps : List ProviderConfig)
        → All (All (Safe decode)) (fetch_all decode verdict_of ok now list_models ps)
    unfolding fetch_all
    fetch_all-Safe [] = tt
    fetch_all-Safe (p ∷ ps) = elim (Bool-cases p.enabled) [
      | inl e ↦ simp e (fetch_provider-Safe p, fetch_all-Safe ps)
      | inr e ↦ simp e (fetch_all-Safe ps)
    ]

-- what all goroutines keep to is kept in every order of their turns
module _ (P : FetchEvent → Type 0) where
  Takes-All :
      {e : FetchEvent} {l l' : List (List FetchEvent)}
      → Takes l e l'
      → All (All P) l
      → P e × All (All P) l'
  Takes-All (first e es rest) h = (h.0.0, (h.0.1, h.1))
  Takes-All (later es t) h = let r = Takes-All t h.1 in (r.0, (h.0, r.1))

  Interleaved-All :
      {l : List (List FetchEvent)} {es : List FetchEvent}
      → Interleaved l es
      → All (All P) l
      → All P es
  Interleaved-All over h = tt
  Interleaved-All (ended i) h = Interleaved-All i h.1
  Interleaved-All (turn t i) h = let r = Takes-All t h in (r.0, Interleaved-All i r.1)

-- every model of a collection is safe to route to
abbrev pub AllRoutable : (Bytes → Option Fields) → ModelCollection → Type 0
AllRoutable decode = All (λ e. Routable decode e.1)

insert-AllRoutable :
    (decode : Bytes → Option Fields) (name : Bytes) (info : ModelInfo) (c : ModelCollection)
    → Routable decode info
    → AllRoutable decode c
    → AllRoutable decode (insert name info c)
unfolding insert
insert-AllRoutable decode name info [] r a = (r, tt)
insert-AllRoutable decode name info ((j, w) ∷ c) r a = elim (Bool-cases (str_eq j name)) [
  | inl e ↦ rw e (r, a.1)
  | inr e ↦ rw e (a.0, insert-AllRoutable decode name info c r a.1)
]

all_models-AllRoutable :
    (decode : Bytes → Option Fields) (es : List FetchEvent) (m : ModelCollection)
    → All (Safe decode) es
    → AllRoutable decode m
    → AllRoutable decode (all_models es m)
unfolding all_models
all_models-AllRoutable decode [] m s a = a
all_models-AllRoutable decode (called c ∷ es) m s a = all_models-AllRoutable decode es m s.1 a
all_models-AllRoutable decode (entered name info ∷ es) m s a =
    all_models-AllRoutable decode es (insert name info m) s.1
      (insert-AllRoutable decode name info m s.0 a)

add_all-AllRoutable :
    (decode : Bytes → Option Fields) (m c : ModelCollection)
    → AllRoutable decode m
    → AllRoutable decode c
    → AllRoutable decode (add_all m c)
unfolding add_all
add_all-AllRoutable decode [] c a b = b
add_all-AllRoutable decode ((name, info) ∷ m) c a b =
    add_all-AllRoutable decode m (insert name info c) a.1
      (insert-AllRoutable decode name info c a.0 b)

-- In whatever order the goroutines of a full run take turns, a collection whose enabled models all
-- have tags with a strength keeps that, and the run enables no model in the database without them.
pub fetch_and_tag_models-AllRoutable :
    (decode : Bytes → Option Fields) (verdict_of : Bytes → ProviderConfig → Verdict)
    (ok : DbCall → Bool) (now : Bytes) (list_models : ProviderConfig → Option (List Bytes))
    (ps : List ProviderConfig) (es : List FetchEvent) (c : ModelCollection)
    → Interleaved (fetch_all decode verdict_of ok now list_models ps) es
    → AllRoutable decode c
    → All (Safe decode) es × AllRoutable decode (fetch_and_tag_models es c)
unfolding fetch_and_tag_models
fetch_and_tag_models-AllRoutable decode verdict_of ok now list_models ps es c i a =
    let safe =
      Interleaved-All (Safe decode) i (fetch_all-Safe decode verdict_of ok now list_models ps) in
    (
      safe,
      add_all-AllRoutable decode (all_models es []) c (all_models-AllRoutable decode es [] safe tt)
          a,
    )
