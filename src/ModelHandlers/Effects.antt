-- ===== src/ModelHandlers/Effects.antt =====
-- What the handlers of the models change.
use pi_pi_mink.Prelude.{
  ◌≤◌, Bool, true, false, Option, none, some, [], ◌∷◌, ◌≡◌, ◌⊎◌, refl, inl, inr, Bool-cases,
  Option-cases, arith, if◌then◌else◌, map,
}
use pi_pi_mink.Prelude.Text.{Bytes, str_eq, str_eq_iff, is_empty}
use pi_pi_mink.Prelude.Dict.{lookup, Unique, lookup-insert, lookup-delete}
use pi_pi_mink.Models.{ModelInfo, ModelCollection, get_enabled_models, filter_models}
use pi_pi_mink.ModelHandlers.{
  StoreCall, reset_model, delete_model_full, Changed, change_model, without_tags, EnableBody,
  ReasoningBody, handle_set_model_enabled, handle_reset_model, handle_delete_model,
  handle_update_model_reasoning, OpenAiModel, openai_entries, default_entry, or_default,
  handle_openai_models,
}

-- the requests that change a model
pub data Command : Type 0 where
  set_enabled : Bytes → Option EnableBody → Command
  reset : Bytes → Option Bytes → Command
  remove : Bytes → Option Bytes → Command
  set_reasoning : Bool → Option ReasoningBody → Command

unfoldable pub run : (StoreCall → Bool) → Command → ModelCollection → Changed
unfolding handle_set_model_enabled handle_reset_model handle_delete_model
    handle_update_model_reasoning
run ok (set_enabled name body) c = handle_set_model_enabled ok name body c
run ok (reset name body) c = handle_reset_model ok name body c
run ok (remove name body) c = handle_delete_model ok name body c
run ok (set_reasoning is_post body) c = handle_update_model_reasoning ok is_post body c

-- Either one call of the database was made and returned no error, or the collection is the one of
-- before: after a call that failed, with status 500, or after none, for a request that is at fault.
abbrev pub Atomic : (StoreCall → Bool) → ModelCollection → Changed → Type 0
Atomic ok c r =
    ((call : StoreCall) × (r.made ≡ call ∷ []) × (ok call ≡ true) × (r.status ≡ 200))
    ⊎ (((call : StoreCall) × (r.made ≡ call ∷ [])
          × (ok call ≡ false)
          × (r.status ≡ 500)
          × (r.models ≡ c))
        ⊎ ((r.made ≡ []) × (r.models ≡ c) × (400 ≤ r.status) × (r.status ≤ 405)))

-- what a change does to the model of a name
abbrev pub changed {ℓ} : {A : Type ℓ} → Bool → (A → A) → Option A → Option A
changed true f (some x) = some (f x)
changed _ f o = o

lookup-change_model :
    (name k : Bytes) (f : ModelInfo → ModelInfo) (c : ModelCollection)
    → lookup k (change_model name f c) ≡ changed (str_eq name k) f (lookup k c)
unfolding change_model
lookup-change_model name k f c = elim (Option-cases (lookup name c)) [
  | inl e ↦ rw (e, change_model) (ground (arith, e, str_eq_iff name k))
  | inr (info, e) ↦
      rw (e, change_model) (ground (arith, e, str_eq_iff name k, lookup-insert name k (f info) c))
]

-- After a model has been deleted, its name stands for nothing and all others for what they stood for;
-- after it has been reset, its name stands for the same model, disabled and with no tags.
pub models_gone :
    (ok : StoreCall → Bool) (name k source : Bytes) (c : ModelCollection)
    → Unique c
    → is_empty source ≡ false
    → ((call : StoreCall) → ok call ≡ true)
    → (lookup k (handle_delete_model ok name (some source) c).models
        ≡ (if str_eq name k then none else lookup k c))
      × (lookup k (handle_reset_model ok name (some source) c).models
          ≡ changed (str_eq name k) without_tags (lookup k c))
unfolding handle_delete_model handle_reset_model
models_gone ok name k source c u given taken =
    rw (given, taken (delete_model_full name source), taken (reset_model name source))
      (lookup-delete name k c u, lookup-change_model name k without_tags c)

abbrev pub openai_model : Bytes × ModelInfo → OpenAiModel
openai_model e = record { id = e.0; owned_by = e.1.source }

openai_entries-get_enabled_models :
    (c : ModelCollection) → openai_entries c ≡ map openai_model (get_enabled_models c)
unfolding openai_entries filter_models
openai_entries-get_enabled_models [] = refl
openai_entries-get_enabled_models ((name, info) ∷ c) = elim (Bool-cases info.enabled) [
  | inl e ↦ simp (e, openai_entries-get_enabled_models c)
  | inr e ↦ simp (e, openai_entries-get_enabled_models c)
]

-- The list of `/v1/models` has the enabled models, in the order of the collection and with their
-- providers, or the default model alone if there is none: it is never empty.
pub handle_openai_models_lem :
    (default_chat_model : Bytes) (c : ModelCollection)
    → handle_openai_models default_chat_model c
      ≡ or_default (default_entry default_chat_model) (map openai_model (get_enabled_models c))
unfolding handle_openai_models
handle_openai_models_lem default_chat_model c = rw (openai_entries-get_enabled_models c) refl
