-- ===== src/ConfigLoad/Providers.antt =====
-- internal/config/config.go: `loadProviders` and `defaultProviders`. `parse` decodes providers.json into
-- the providers, `parse_raw` into what its second pass looks at; the file is `none` if it cannot be
-- read, and the environment is `getenv`.
use pi_pi_mink.Prelude.{
  Bool, true, false, ◌||◌, not, Option, none, some, List, [], ◌∷◌, ◌≡◌, refl, ap, if◌then◌else◌,
  map,
}
use pi_pi_mink.Prelude.Int.{ℤ, pos}
use pi_pi_mink.Prelude.Text.{Bytes, codes, is_empty}
use pi_pi_mink.Provider.{
  ModelConfig, ProviderConfig, resolve_provider_keys, provider_type_openai_compatible,
}

-- whether an object has the key "enabled", and the same of its model configs, `none` if they do not
-- decode
pub record RawProvider : Type 0 where
  pub has_enabled : Bool
  pub model_configs : Option (List Bool)

abbrev pub enabled_config : Bool → ModelConfig → ModelConfig
enabled_config has mc = if not has then record mc { enabled = true } else mc

-- the inner loop, over the configs that both lists have
unfoldable pub default_configs : List Bool → List ModelConfig → List ModelConfig
default_configs [] mcs = mcs
default_configs (has ∷ hs) [] = []
default_configs (has ∷ hs) (mc ∷ mcs) = enabled_config has mc ∷ default_configs hs mcs

abbrev pub with_configs : Option (List Bool) → ProviderConfig → ProviderConfig
with_configs none p = p
with_configs (some hs) p = record p { model_configs = default_configs hs p.model_configs }

abbrev pub enabled_provider : Bool → ProviderConfig → ProviderConfig
enabled_provider has p = if not has then record p { enabled = true } else p

-- the outer loop
unfoldable pub default_enabled : List RawProvider → List ProviderConfig → List ProviderConfig
unfolding default_configs
default_enabled [] ps = ps
default_enabled (r ∷ rs) [] = []
default_enabled (r ∷ rs) (p ∷ ps) =
    with_configs r.model_configs (enabled_provider r.has_enabled p) ∷ default_enabled rs ps

abbrev pub second_pass : Option (List RawProvider) → List ProviderConfig → List ProviderConfig
second_pass none ps = ps
second_pass (some rs) ps = default_enabled rs ps

module _ (getenv : Bytes → Bytes) where
  -- `defaultProviders`
  unfoldable pub default_providers : List ProviderConfig
  default_providers =
      record {
        name = codes "openai";
        type = provider_type_openai_compatible;
        base_url =
            if is_empty (getenv (codes "OPENAI_BASE_URL"))
            then codes "https://api.openai.com"
            else getenv (codes "OPENAI_BASE_URL");
        chat_path = [];
        api_key_env = codes "OPENAI_API_KEY";
        api_key = getenv (codes "OPENAI_API_KEY");
        timeout_str = [];
        timeout = pos 120000000000;
        rate_limit_seconds = pos 0;
        models = [];
        model_configs = [];
        enabled = true;
      }
      ∷ []

  module _ (parse_duration : Bytes → Option ℤ) (parse : Bytes → Option (List ProviderConfig))
      (parse_raw : Bytes → Option (List RawProvider)) where
    -- `loadProviders`
    unfoldable pub load_providers : Option Bytes → List ProviderConfig
    unfolding default_providers default_enabled resolve_provider_keys
    load_providers none = default_providers
    load_providers (some content) = elim (parse content) [
      | none ↦ default_providers
      | some ps ↦
          map (resolve_provider_keys getenv parse_duration) (second_pass (parse_raw content) ps)
    ]

    -- the flags of the providers, as the file means them
    abbrev pub meant : List RawProvider → List ProviderConfig → List Bool
    meant [] ps = map (λ p. p.enabled) ps
    meant (r ∷ rs) [] = []
    meant (r ∷ rs) (p ∷ ps) = (not r.has_enabled || p.enabled) ∷ meant rs ps

    enabled_flag :
        (mcs : Option (List Bool)) (has : Bool) (p : ProviderConfig)
        → (with_configs mcs (enabled_provider has p)).enabled ≡ (not has || p.enabled)
    enabled_flag none true p = refl
    enabled_flag none false p = refl
    enabled_flag (some hs) true p = refl
    enabled_flag (some hs) false p = refl

    default_enabled_flags :
        (rs : List RawProvider) (ps : List ProviderConfig)
        → map
            (λ p. p.enabled)
            (map (resolve_provider_keys getenv parse_duration) (default_enabled rs ps))
          ≡ meant rs ps
    unfolding default_enabled resolve_provider_keys
    default_enabled_flags [] [] = refl
    default_enabled_flags [] (p ∷ ps) = ap (◌∷◌ p.enabled) (default_enabled_flags [] ps)
    default_enabled_flags (r ∷ rs) [] = refl
    default_enabled_flags (r ∷ rs) (p ∷ ps) =
        rw (enabled_flag r.model_configs r.has_enabled p, default_enabled_flags rs ps) refl

    -- A provider of a file that decodes is enabled after loading unless the file says that it is not:
    -- where the key `enabled` is missing, it is enabled. Without such a file there is one provider, and
    -- it is enabled.
    pub load_providers_lem :
        (content : Bytes) (ps : List ProviderConfig) (rs : List RawProvider)
        → parse content ≡ some ps
        → parse_raw content ≡ some rs
        → (map (λ p. p.enabled) (load_providers (some content)) ≡ meant rs ps)
          × (map (λ p. p.enabled) (load_providers none) ≡ true ∷ [])
    unfolding load_providers default_providers
    load_providers_lem content ps rs e e' =
        (rw (e, load_providers, e') (default_enabled_flags rs ps), refl)
