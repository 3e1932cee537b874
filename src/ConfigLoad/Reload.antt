-- ===== src/ConfigLoad/Reload.antt =====
-- A setting that was changed, read again at the next start.
use pi_pi_mink.Prelude.{
  ℕ, if◌then◌else◌, Option, none, some, ◌∷◌, ◌≡◌, ◌⊎◌, arith, inl, inr, Option-cases,
}
use pi_pi_mink.Prelude.Text.{Bytes, str_eq}
use pi_pi_mink.Prelude.Dict.{Dict, insert, lookup-insert}
use pi_pi_mink.Json.{text}
use pi_pi_mink.Settings.{
  Config, Conversions, Key, key_name, set_setting, parse_bool_value, parse_int_value,
  parse_float64_value, k_model_selection_provider, k_model_selection_model, k_default_chat_model,
  k_selection_cache_enabled, k_selection_cache_ttl, k_selection_cache_max_entries,
  k_selection_cache_stats_log_interval, k_database_url, k_database_max_connections,
  k_database_max_idle_connections, k_database_connection_max_lifetime, k_admin_api_key, k_port,
  k_require_auth_for_chat, k_benchmark_enabled, k_benchmark_schedule_enabled,
  k_benchmark_schedule_interval, k_benchmark_judge_provider, k_benchmark_judge_model,
  k_benchmark_concurrency, k_otel_enabled, k_otel_service_name, k_otel_exporter_otlp_endpoint,
  k_otel_exporter_otlp_insecure, k_otel_trace_sample_ratio,
}
use pi_pi_mink.Settings.RoundTrip.{IsLawful}
use pi_pi_mink.ConfigLoad.{get_env, get_env_or, load_settings}

abbrev pub or_else {ℓ} : {A : Type ℓ} → A → Option A → A
or_else default none = default
or_else default (some x) = x

get_env-insert :
    (j k default : Bytes) (c : ℕ) (s : Bytes) (vars : Dict Bytes)
    → get_env k default (insert j (c ∷ s) vars)
      ≡ (if str_eq j k then c ∷ s else get_env k default vars)
unfolding get_env
get_env-insert j k default c s vars = ground (arith, lookup-insert j k (c ∷ s) vars)

get_env_or-insert {ℓ} :
    {A : Type ℓ} (parse : Bytes → Option A) (j k : Bytes) (default : A) (c : ℕ) (s : Bytes)
    (vars : Dict Bytes)
    → get_env_or parse k default (insert j (c ∷ s) vars)
      ≡ (if str_eq j k then or_else default (parse (c ∷ s)) else get_env_or parse k default vars)
unfolding get_env_or
get_env_or-insert parse j k default c s vars = ground (arith, lookup-insert j k (c ∷ s) vars)

-- what a start reads of the changed variables
ruleset at_load = (get_env-insert, get_env_or-insert)

-- either an error, or the configuration of a start with the changed variable
abbrev Reloads : Conversions → Key → Bytes → Dict Bytes → Type 0
Reloads env k s vars =
    (set_setting env k (text s) (load_settings env vars) ≡ none)
    ⊎ (set_setting env k (text s) (load_settings env vars)
        ≡ some (load_settings env (insert (key_name k) s vars)))

module _ (env : Conversions) (laws : IsLawful env) (c : ℕ) (s : Bytes) (vars : Dict Bytes) where
  set_setting-load_settings : (k : Key) → Reloads env k (c ∷ s) vars
  unfolding set_setting parse_bool_value parse_int_value parse_float64_value str_eq load_settings
  set_setting-load_settings k_model_selection_provider = inr (simp (at_load, laws.prints))
  set_setting-load_settings k_model_selection_model = inr (simp (at_load, laws.prints))
  set_setting-load_settings k_default_chat_model = inr (simp (at_load, laws.prints))
  set_setting-load_settings k_selection_cache_enabled =
      elim (Option-cases (env.parse_bool (c ∷ s))) [
        | inl e ↦ inl (simp e)
        | inr (x, e) ↦ inr (simp (e, at_load))
      ]
  set_setting-load_settings k_selection_cache_ttl =
      elim (Option-cases (env.parse_duration (c ∷ s))) [
        | inl e ↦ inl (simp (e, laws.prints))
        | inr (x, e) ↦ inr (simp (e, at_load, laws.prints))
      ]
  set_setting-load_settings k_selection_cache_max_entries = elim (Option-cases (env.atoi (c ∷ s))) [
    | inl e ↦ inl (simp e)
    | inr (x, e) ↦ inr (simp (e, at_load))
  ]
  set_setting-load_settings k_selection_cache_stats_log_interval =
      elim (Option-cases (env.parse_duration (c ∷ s))) [
        | inl e ↦ inl (simp (e, laws.prints))
        | inr (x, e) ↦ inr (simp (e, at_load, laws.prints))
      ]
  set_setting-load_settings k_database_url = inr (simp (at_load, laws.prints))
  set_setting-load_settings k_database_max_connections = elim (Option-cases (env.atoi (c ∷ s))) [
    | inl e ↦ inl (simp e)
    | inr (x, e) ↦ inr (simp (e, at_load))
  ]
  set_setting-load_settings k_database_max_idle_connections =
      elim (Option-cases (env.atoi (c ∷ s))) [
        | inl e ↦ inl (simp e)
        | inr (x, e) ↦ inr (simp (e, at_load))
      ]
  set_setting-load_settings k_database_connection_max_lifetime =
      elim (Option-cases (env.parse_duration (c ∷ s))) [
        | inl e ↦ inl (simp (e, laws.prints))
        | inr (x, e) ↦ inr (simp (e, at_load, laws.prints))
      ]
  set_setting-load_settings k_admin_api_key = inr (simp (at_load, laws.prints))
  set_setting-load_settings k_port = inr (simp (at_load, laws.prints))
  set_setting-load_settings k_require_auth_for_chat = elim (Option-cases (env.parse_bool (c ∷ s))) [
    | inl e ↦ inl (simp e)
    | inr (x, e) ↦ inr (simp (e, at_load))
  ]
  set_setting-load_settings k_benchmark_enabled = elim (Option-cases (env.parse_bool (c ∷ s))) [
    | inl e ↦ inl (simp e)
    | inr (x, e) ↦ inr (simp (e, at_load))
  ]
  set_setting-load_settings k_benchmark_schedule_enabled =
      elim (Option-cases (env.parse_bool (c ∷ s))) [
        | inl e ↦ inl (simp e)
        | inr (x, e) ↦ inr (simp (e, at_load))
      ]
  set_setting-load_settings k_benchmark_schedule_interval =
      elim (Option-cases (env.parse_duration (c ∷ s))) [
        | inl e ↦ inl (simp (e, laws.prints))
        | inr (x, e) ↦ inr (simp (e, at_load, laws.prints))
      ]
  set_setting-load_settings k_benchmark_judge_provider = inr (simp (at_load, laws.prints))
  set_setting-load_settings k_benchmark_judge_model = inr (simp (at_load, laws.prints))
  set_setting-load_settings k_benchmark_concurrency = elim (Option-cases (env.atoi (c ∷ s))) [
    | inl e ↦ inl (simp e)
    | inr (x, e) ↦ inr (simp (e, at_load))
  ]
  set_setting-load_settings k_otel_enabled = elim (Option-cases (env.parse_bool (c ∷ s))) [
    | inl e ↦ inl (simp e)
    | inr (x, e) ↦ inr (simp (e, at_load))
  ]
  set_setting-load_settings k_otel_service_name = inr (simp (at_load, laws.prints))
  set_setting-load_settings k_otel_exporter_otlp_endpoint = inr (simp (at_load, laws.prints))
  set_setting-load_settings k_otel_exporter_otlp_insecure =
      elim (Option-cases (env.parse_bool (c ∷ s))) [
        | inl e ↦ inl (simp e)
        | inr (x, e) ↦ inr (simp (e, at_load))
      ]
  set_setting-load_settings k_otel_trace_sample_ratio =
      elim (Option-cases (env.parse_float (c ∷ s))) [
        | inl e ↦ inl (simp e)
        | inr (x, e) ↦ inr (simp (e, at_load))
      ]

settled :
    (m : Option Config) (target cfg : Config)
    → (m ≡ none) ⊎ (m ≡ some target)
    → m ≡ some cfg
    → target ≡ cfg
settled m target cfg (inl e) h = absurd (ground (arith, e, h))
settled m target cfg (inr e) h = ground (arith, e, h)

-- A setting that was loaded and then changed by a text that is not empty is the same after the next
-- start, if the variable reaches it: what `SetSettingValue` leaves, where it accepts the text, is what
-- `Load` reads with that variable.
pub set_setting-load_settings_lem :
    (env : Conversions) (k : Key) (c : ℕ) (s : Bytes) (vars : Dict Bytes) (cfg : Config)
    → IsLawful env
    → set_setting env k (text (c ∷ s)) (load_settings env vars) ≡ some cfg
    → load_settings env (insert (key_name k) (c ∷ s) vars) ≡ cfg
set_setting-load_settings_lem env k c s vars cfg laws =
    settled (set_setting env k (text (c ∷ s)) (load_settings env vars))
      (load_settings env (insert (key_name k) (c ∷ s) vars)) cfg
      (set_setting-load_settings env laws c s vars k)
