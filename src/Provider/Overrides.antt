-- ===== src/Provider/Overrides.antt =====
-- What `ForModel` does to a provider.
use pi_pi_mink.Prelude.{
  ◌≡◌, refl, Option, none, some, List, [], ◌∷◌, arith, if◌then◌else◌, Bool-cases, inl, inr, ◌∙◌,
}
use pi_pi_mink.Prelude.Text.{Bytes, str_eq}
use pi_pi_mink.Provider.{ModelConfig, ProviderConfig, override, overridden, for_model_in, for_model}

-- the first configuration for the model
abbrev pub config_of : Bytes → List ModelConfig → Option ModelConfig
config_of name [] = none
config_of name (mc ∷ mcs) = if str_eq mc.name name then some mc else config_of name mcs

abbrev pub with_overrides : Option ModelConfig → ProviderConfig → ProviderConfig
with_overrides none p = p
with_overrides (some mc) p = overridden mc p

for_model_in-config_of :
    (mcs : List ModelConfig) (name : Bytes) (p : ProviderConfig)
    → for_model_in mcs name p ≡ with_overrides (config_of name mcs) p
unfolding for_model_in
for_model_in-config_of [] name p = refl
for_model_in-config_of (mc ∷ mcs) name p = elim (Bool-cases (str_eq mc.name name)) [
  | inl e ↦ rw e refl
  | inr e ↦ rw e (for_model_in-config_of mcs name p)
]

override_idem : (x field : Bytes) → override x (override x field) ≡ override x field
override_idem [] field = refl
override_idem (c ∷ x) field = refl

overridden_idem :
    (o : Option ModelConfig) (p : ProviderConfig)
    → with_overrides o (with_overrides o p) ≡ with_overrides o p
overridden_idem none p = refl
overridden_idem (some mc) p = ground (
  arith,
  override_idem mc.type p.type,
  override_idem mc.base_url p.base_url,
  override_idem mc.chat_path p.chat_path,
  override_idem mc.api_key p.api_key,
)

same_configs :
    (o : Option ModelConfig) (p : ProviderConfig)
    → (with_overrides o p).model_configs ≡ p.model_configs
same_configs none p = refl
same_configs (some mc) p = refl

again :
    (p : ProviderConfig) (name : Bytes) (o : Option ModelConfig)
    → config_of name p.model_configs ≡ o
    → for_model (with_overrides o p) name ≡ with_overrides o p
again p name o e =
    for_model_in-config_of (with_overrides o p).model_configs name (with_overrides o p)
    ∙ rw (same_configs o p, e) (overridden_idem o p)

-- The overrides are those of the first configuration with the model's name, if there is one, and
-- a second application changes nothing.
pub for_model_lem :
    (p : ProviderConfig) (name : Bytes)
    → (for_model p name ≡ with_overrides (config_of name p.model_configs) p)
      × (for_model (for_model p name) name ≡ for_model p name)
for_model_lem p name =
    let o = config_of name p.model_configs in
    let e = for_model_in-config_of p.model_configs name p in (e, rw e (again p name o refl))
