-- ===== src/Settings/RoundTrip.antt =====
-- Reading and writing a setting.
use pi_pi_mink.Prelude.{some, ◌≡◌, refl, sym, arith, inl, inr, Option-cases}
use pi_pi_mink.Prelude.Int.{ℤ}
use pi_pi_mink.Prelude.Text.{Bytes}
use pi_pi_mink.Prelude.Dict.{Dict, insert}
use pi_pi_mink.Json.{Value, text}
use pi_pi_mink.Settings.{
  Config, Conversions, Key, key_of, get_setting, set_setting, get_setting_value, set_setting_value,
  parse_bool_value, parse_int_value, parse_float64_value, k_model_selection_provider,
  k_model_selection_model, k_default_chat_model, k_selection_cache_enabled, k_selection_cache_ttl,
  k_selection_cache_max_entries, k_selection_cache_stats_log_interval, k_database_url,
  k_database_max_connections, k_database_max_idle_connections, k_database_connection_max_lifetime,
  k_admin_api_key, k_port, k_require_auth_for_chat, k_benchmark_enabled,
  k_benchmark_schedule_enabled, k_benchmark_schedule_interval, k_benchmark_judge_provider,
  k_benchmark_judge_model, k_benchmark_concurrency, k_otel_enabled, k_otel_service_name,
  k_otel_exporter_otlp_endpoint, k_otel_exporter_otlp_insecure, k_otel_trace_sample_ratio,
}

-- What `fmt` and `time` promise: `%v` prints a string as it is, and `ParseDuration` reads what
-- `String` prints of a duration.
pub record IsLawful (env : Conversions) : Type 0 where
  pub prints : (s : Bytes) → env.sprint (text s) ≡ s
  pub reads : (d : ℤ) → env.parse_duration (env.duration_string d) ≡ some d

module _ (env : Conversions) (laws : IsLawful env) where
  set_setting-get_setting :
      (k : Key) (cfg : Config) → set_setting env k (get_setting env k cfg) cfg ≡ some cfg
  unfolding set_setting get_setting parse_bool_value parse_int_value parse_float64_value
  set_setting-get_setting k_model_selection_provider cfg =
      rw (laws.prints cfg.model_selection_provider) refl
  set_setting-get_setting k_model_selection_model cfg =
      rw (laws.prints cfg.model_selection_model) refl
  set_setting-get_setting k_default_chat_model cfg = rw (laws.prints cfg.default_chat_model) refl
  set_setting-get_setting k_selection_cache_enabled cfg = refl
  set_setting-get_setting k_selection_cache_ttl cfg =
      rw
        (
          laws.prints (env.duration_string cfg.selection_cache_ttl),
          laws.reads cfg.selection_cache_ttl,
        )
        refl
  set_setting-get_setting k_selection_cache_max_entries cfg = refl
  set_setting-get_setting k_selection_cache_stats_log_interval cfg =
      rw
        (
          laws.prints (env.duration_string cfg.selection_cache_stats_log_interval),
          laws.reads cfg.selection_cache_stats_log_interval,
        )
        refl
  set_setting-get_setting k_database_url cfg = rw (laws.prints cfg.database_url) refl
  set_setting-get_setting k_database_max_connections cfg = refl
  set_setting-get_setting k_database_max_idle_connections cfg = refl
  set_setting-get_setting k_database_connection_max_lifetime cfg =
      rw
        (
          laws.prints (env.duration_string cfg.database_connection_max_lifetime),
          laws.reads cfg.database_connection_max_lifetime,
        )
        refl
  set_setting-get_setting k_admin_api_key cfg = rw (laws.prints cfg.admin_api_key) refl
  set_setting-get_setting k_port cfg = rw (laws.prints cfg.port) refl
  set_setting-get_setting k_require_auth_for_chat cfg = refl
  set_setting-get_setting k_benchmark_enabled cfg = refl
  set_setting-get_setting k_benchmark_schedule_enabled cfg = refl
  set_setting-get_setting k_benchmark_schedule_interval cfg =
      rw
        (
          laws.prints (env.duration_string cfg.benchmark_schedule_interval),
          laws.reads cfg.benchmark_schedule_interval,
        )
        refl
  set_setting-get_setting k_benchmark_judge_provider cfg =
      rw (laws.prints cfg.benchmark_judge_provider) refl
  set_setting-get_setting k_benchmark_judge_model cfg =
      rw (laws.prints cfg.benchmark_judge_model) refl
  set_setting-get_setting k_benchmark_concurrency cfg = refl
  set_setting-get_setting k_otel_enabled cfg = refl
  set_setting-get_setting k_otel_service_name cfg = rw (laws.prints cfg.otel_service_name) refl
  set_setting-get_setting k_otel_exporter_otlp_endpoint cfg =
      rw (laws.prints cfg.otel_exporter_otlp_endpoint) refl
  set_setting-get_setting k_otel_exporter_otlp_insecure cfg = refl
  set_setting-get_setting k_otel_trace_sample_ratio cfg = refl

-- To write back the value that was read of a setting succeeds and leaves the configuration as it is;
-- the variable of the environment gets the value as `%v` prints it.
pub set_setting_value-get_setting_value :
    (env : Conversions) (key : Bytes) (v : Value) (cfg : Config) (vars : Dict Bytes)
    → IsLawful env
    → get_setting_value env key cfg ≡ some v
    → set_setting_value env key v cfg vars ≡ some (cfg, insert key (env.sprint v) vars)
unfolding get_setting_value set_setting_value
set_setting_value-get_setting_value env key v cfg vars laws e = elim (Option-cases (key_of key)) [
  | inl unknown ↦ absurd (ground (arith, e, unknown))
  | inr (k, known) ↦
      let same : get_setting env k cfg ≡ v = ground (arith, e, known) in
      let written : set_setting env k v cfg ≡ some cfg =
        rw (sym same) (set_setting-get_setting env laws k cfg) in
      rw (known, set_setting_value, written) refl
]
