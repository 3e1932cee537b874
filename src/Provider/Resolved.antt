-- ===== src/Provider/Resolved.antt =====
-- What `ResolveProviderKeys` leaves behind.
use pi_pi_mink.Prelude.{◌≡◌, ◌≢◌, refl, Option, List, [], ◌∷◌, map, arith}
use pi_pi_mink.Prelude.Int.{ℤ}
use pi_pi_mink.Prelude.Text.{Bytes}
use pi_pi_mink.Provider.{
  ModelConfig, ProviderConfig, default_type, resolve_model_key, resolve_provider_keys,
}

default_type_idem : (t : Bytes) → default_type (default_type t) ≡ default_type t
default_type_idem [] = refl
default_type_idem (c ∷ t) = refl

default_type-ne-nil : (t : Bytes) → default_type t ≢ []
default_type-ne-nil [] = λ e. cc
default_type-ne-nil (c ∷ t) = λ e. cc

module _ (getenv : Bytes → Bytes) (parse_duration : Bytes → Option ℤ) where
  resolve_model_key_idem :
      (mc : ModelConfig)
      → resolve_model_key getenv (resolve_model_key getenv mc) ≡ resolve_model_key getenv mc
  resolve_model_key_idem mc = ground arith

  map-resolve_model_key_idem :
      (mcs : List ModelConfig)
      → map (resolve_model_key getenv) (map (resolve_model_key getenv) mcs)
        ≡ map (resolve_model_key getenv) mcs
  map-resolve_model_key_idem [] = refl
  map-resolve_model_key_idem (mc ∷ mcs) =
      cc (resolve_model_key_idem mc, map-resolve_model_key_idem mcs)

  -- A second resolution in the same environment changes nothing, and the type is never empty.
  pub resolve_provider_keys_idem :
      (p : ProviderConfig)
      → (resolve_provider_keys getenv parse_duration (resolve_provider_keys getenv parse_duration p)
          ≡ resolve_provider_keys getenv parse_duration p)
        × ((resolve_provider_keys getenv parse_duration p).type ≢ [])
  unfolding resolve_provider_keys
  resolve_provider_keys_idem p = (
    ground (arith, map-resolve_model_key_idem p.model_configs, default_type_idem p.type),
    default_type-ne-nil p.type,
  )

  -- A provider whose `api_key_env` is cleared keeps the key that was resolved before.
  pub resolve_provider_keys_cleared :
      (p : ProviderConfig)
      → (resolve_provider_keys getenv parse_duration (record p { api_key_env = [] })).api_key
        ≡ p.api_key
  unfolding resolve_provider_keys
  resolve_provider_keys_cleared p = refl
