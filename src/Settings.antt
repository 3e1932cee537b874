-- ===== src/Settings.antt =====
-- internal/config/settings_registry.go: the settings that the console can change. A duration is its
-- nanoseconds, and a float64 its bits. `Conversions` has the functions of `fmt`, `strconv` and `time`,
-- and Go's conversions between float64 and int. A value is one of JSON, or a Go int.
pub mod Registry
pub mod DotEnv
pub mod Patch
pub mod RoundTrip
use pi_pi_mink.Prelude.{
  ℕ, ◌==◌, Bool, true, false, ◌||◌, not, Option, none, some, List, [], ◌∷◌, if◌then◌else◌,
}
use pi_pi_mink.Prelude.Int.{ℤ}
use pi_pi_mink.Prelude.Text.{Bytes, codes, str_eq}
use pi_pi_mink.Prelude.Dict.{Dict, insert}
use pi_pi_mink.Json.{Value, boolean, number, integer, text}

-- the fields of `Config` that are settings
pub record Config : Type 0 where
  pub model_selection_provider : Bytes
  pub model_selection_model : Bytes
  pub default_chat_model : Bytes
  pub selection_cache_enabled : Bool
  pub selection_cache_ttl : ℤ
  pub selection_cache_max_entries : ℤ
  pub selection_cache_stats_log_interval : ℤ
  pub database_url : Bytes
  pub database_max_connections : ℤ
  pub database_max_idle_connections : ℤ
  pub database_connection_max_lifetime : ℤ
  pub admin_api_key : Bytes
  pub port : Bytes
  pub require_auth_for_chat : Bool
  pub benchmark_enabled : Bool
  pub benchmark_schedule_enabled : Bool
  pub benchmark_schedule_interval : ℤ
  pub benchmark_judge_provider : Bytes
  pub benchmark_judge_model : Bytes
  pub benchmark_concurrency : ℤ
  pub otel_enabled : Bool
  pub otel_service_name : Bytes
  pub otel_exporter_otlp_endpoint : Bytes
  pub otel_exporter_otlp_insecure : Bool
  pub otel_trace_sample_ratio : ℕ

-- the keys, as the cases of the two switches name them
pub data Key : Type 0 where
  k_model_selection_provider k_model_selection_model k_default_chat_model k_selection_cache_enabled
        k_selection_cache_ttl k_selection_cache_max_entries k_selection_cache_stats_log_interval
        k_database_url k_database_max_connections k_database_max_idle_connections
        k_database_connection_max_lifetime k_admin_api_key k_port k_require_auth_for_chat
        k_benchmark_enabled k_benchmark_schedule_enabled k_benchmark_schedule_interval
        k_benchmark_judge_provider k_benchmark_judge_model k_benchmark_concurrency k_otel_enabled
        k_otel_service_name k_otel_exporter_otlp_endpoint k_otel_exporter_otlp_insecure
        k_otel_trace_sample_ratio :
      Key

abbrev pub key_name : Key → Bytes
key_name k_model_selection_provider = codes "MODEL_SELECTION_PROVIDER"
key_name k_model_selection_model = codes "MODEL_SELECTION_MODEL"
key_name k_default_chat_model = codes "DEFAULT_CHAT_MODEL"
key_name k_selection_cache_enabled = codes "SELECTION_CACHE_ENABLED"
key_name k_selection_cache_ttl = codes "SELECTION_CACHE_TTL"
key_name k_selection_cache_max_entries = codes "SELECTION_CACHE_MAX_ENTRIES"
key_name k_selection_cache_stats_log_interval = codes "SELECTION_CACHE_STATS_LOG_INTERVAL"
key_name k_database_url = codes "DATABASE_URL"
key_name k_database_max_connections = codes "DATABASE_MAX_CONNECTIONS"
key_name k_database_max_idle_connections = codes "DATABASE_MAX_IDLE_CONNECTIONS"
key_name k_database_connection_max_lifetime = codes "DATABASE_CONNECTION_MAX_LIFETIME"
key_name k_admin_api_key = codes "ADMIN_API_KEY"
key_name k_port = codes "PORT"
key_name k_require_auth_for_chat = codes "REQUIRE_AUTH_FOR_CHAT"
key_name k_benchmark_enabled = codes "BENCHMARK_ENABLED"
key_name k_benchmark_schedule_enabled = codes "BENCHMARK_SCHEDULE_ENABLED"
key_name k_benchmark_schedule_interval = codes "BENCHMARK_SCHEDULE_INTERVAL"
key_name k_benchmark_judge_provider = codes "BENCHMARK_JUDGE_PROVIDER"
key_name k_benchmark_judge_model = codes "BENCHMARK_JUDGE_MODEL"
key_name k_benchmark_concurrency = codes "BENCHMARK_CONCURRENCY"
key_name k_otel_enabled = codes "OTEL_ENABLED"
key_name k_otel_service_name = codes "OTEL_SERVICE_NAME"
key_name k_otel_exporter_otlp_endpoint = codes "OTEL_EXPORTER_OTLP_ENDPOINT"
key_name k_otel_exporter_otlp_insecure = codes "OTEL_EXPORTER_OTLP_INSECURE"
key_name k_otel_trace_sample_ratio = codes "OTEL_TRACE_SAMPLE_RATIO"

abbrev pub all_keys : List Key
all_keys =
    k_model_selection_provider ∷ k_model_selection_model ∷ k_default_chat_model
    ∷ k_selection_cache_enabled ∷ k_selection_cache_ttl ∷ k_selection_cache_max_entries
    ∷ k_selection_cache_stats_log_interval ∷ k_database_url ∷ k_database_max_connections
    ∷ k_database_max_idle_connections ∷ k_database_connection_max_lifetime ∷ k_admin_api_key
    ∷ k_port ∷ k_require_auth_for_chat ∷ k_benchmark_enabled ∷ k_benchmark_schedule_enabled
    ∷ k_benchmark_schedule_interval ∷ k_benchmark_judge_provider ∷ k_benchmark_judge_model
    ∷ k_benchmark_concurrency ∷ k_otel_enabled ∷ k_otel_service_name ∷ k_otel_exporter_otlp_endpoint
    ∷ k_otel_exporter_otlp_insecure ∷ k_otel_trace_sample_ratio ∷ []

-- the case of a switch that a text selects
unfoldable pub find_key : Bytes → List Key → Option Key
find_key key [] = none
find_key key (k ∷ ks) = if str_eq (key_name k) key then some k else find_key key ks

unfoldable pub key_of : Bytes → Option Key
unfolding find_key
key_of key = find_key key all_keys

pub record Conversions : Type 0 where
  pub sprint : Value → Bytes
  pub parse_bool : Bytes → Option Bool
  pub atoi : Bytes → Option ℤ
  pub parse_float : Bytes → Option ℕ
  pub parse_duration : Bytes → Option ℤ
  pub duration_string : ℤ → Bytes
  pub int_of_float : ℕ → ℤ
  pub float_of_int : ℤ → ℕ
  pub whole : ℕ → Option ℤ
  pub format_int : ℤ → Bytes
  pub format_float : ℕ → Bytes

module _ (env : Conversions) where
  open env use {
    sprint, parse_bool, atoi, parse_float, parse_duration, duration_string, int_of_float,
    float_of_int, whole, format_int, format_float,
  }

  -- `GetSettingValue`, for a key that it knows
  unfoldable pub get_setting : Key → Config → Value
  get_setting k_model_selection_provider cfg = text cfg.model_selection_provider
  get_setting k_model_selection_model cfg = text cfg.model_selection_model
  get_setting k_default_chat_model cfg = text cfg.default_chat_model
  get_setting k_selection_cache_enabled cfg = boolean cfg.selection_cache_enabled
  get_setting k_selection_cache_ttl cfg = text (duration_string cfg.selection_cache_ttl)
  get_setting k_selection_cache_max_entries cfg = integer cfg.selection_cache_max_entries
  get_setting k_selection_cache_stats_log_interval cfg =
      text (duration_string cfg.selection_cache_stats_log_interval)
  get_setting k_database_url cfg = text cfg.database_url
  get_setting k_database_max_connections cfg = integer cfg.database_max_connections
  get_setting k_database_max_idle_connections cfg = integer cfg.database_max_idle_connections
  get_setting k_database_connection_max_lifetime cfg =
      text (duration_string cfg.database_connection_max_lifetime)
  get_setting k_admin_api_key cfg = text cfg.admin_api_key
  get_setting k_port cfg = text cfg.port
  get_setting k_require_auth_for_chat cfg = boolean cfg.require_auth_for_chat
  get_setting k_benchmark_enabled cfg = boolean cfg.benchmark_enabled
  get_setting k_benchmark_schedule_enabled cfg = boolean cfg.benchmark_schedule_enabled
  get_setting k_benchmark_schedule_interval cfg =
      text (duration_string cfg.benchmark_schedule_interval)
  get_setting k_benchmark_judge_provider cfg = text cfg.benchmark_judge_provider
  get_setting k_benchmark_judge_model cfg = text cfg.benchmark_judge_model
  get_setting k_benchmark_concurrency cfg = integer cfg.benchmark_concurrency
  get_setting k_otel_enabled cfg = boolean cfg.otel_enabled
  get_setting k_otel_service_name cfg = text cfg.otel_service_name
  get_setting k_otel_exporter_otlp_endpoint cfg = text cfg.otel_exporter_otlp_endpoint
  get_setting k_otel_exporter_otlp_insecure cfg = boolean cfg.otel_exporter_otlp_insecure
  get_setting k_otel_trace_sample_ratio cfg = number cfg.otel_trace_sample_ratio

  -- `GetSettingValue`; `none` is nil
  unfoldable pub get_setting_value : Bytes → Config → Option Value
  unfolding key_of get_setting
  get_setting_value key cfg = elim (key_of key) [ none ↦ none | some k ↦ some (get_setting k cfg) ]

  -- `b != 0` for a float64: only the two zeros are equal to 0
  abbrev pub is_nonzero : ℕ → Bool
  is_nonzero bits = not (bits == 0 || bits == 9223372036854775808)

  -- `parseBoolValue`
  unfoldable pub parse_bool_value : Value → Option Bool
  parse_bool_value (boolean b) = some b
  parse_bool_value (text s) = parse_bool s
  parse_bool_value (number bits) = some (is_nonzero bits)
  parse_bool_value _ = none

  -- `parseIntValue`
  unfoldable pub parse_int_value : Value → Option ℤ
  parse_int_value (number bits) = some (int_of_float bits)
  parse_int_value (integer n) = some n
  parse_int_value (text s) = atoi s
  parse_int_value _ = none

  -- `parseFloat64Value`
  unfoldable pub parse_float64_value : Value → Option ℕ
  parse_float64_value (number bits) = some bits
  parse_float64_value (integer n) = some (float_of_int n)
  parse_float64_value (text s) = parse_float s
  parse_float64_value _ = none

  -- the new configuration, if the value was read
  abbrev pub put {ℓ} : {A : Type ℓ} → Option A → (A → Config) → Option Config
  put none f = none
  put (some x) f = some (f x)

  -- the cases of `SetSettingValue`; `none` is an error
  unfoldable pub set_setting : Key → Value → Config → Option Config
  unfolding parse_bool_value parse_int_value parse_float64_value
  set_setting k_model_selection_provider v cfg =
      some (record cfg { model_selection_provider = sprint v })
  set_setting k_model_selection_model v cfg = some (record cfg { model_selection_model = sprint v })
  set_setting k_default_chat_model v cfg = some (record cfg { default_chat_model = sprint v })
  set_setting k_selection_cache_enabled v cfg =
      put (parse_bool_value v) (λ x. record cfg { selection_cache_enabled = x })
  set_setting k_selection_cache_ttl v cfg =
      put (parse_duration (sprint v)) (λ x. record cfg { selection_cache_ttl = x })
  set_setting k_selection_cache_max_entries v cfg =
      put (parse_int_value v) (λ x. record cfg { selection_cache_max_entries = x })
  set_setting k_selection_cache_stats_log_interval v cfg =
      put (parse_duration (sprint v)) (λ x. record cfg { selection_cache_stats_log_interval = x })
  set_setting k_database_url v cfg = some (record cfg { database_url = sprint v })
  set_setting k_database_max_connections v cfg =
      put (parse_int_value v) (λ x. record cfg { database_max_connections = x })
  set_setting k_database_max_idle_connections v cfg =
      put (parse_int_value v) (λ x. record cfg { database_max_idle_connections = x })
  set_setting k_database_connection_max_lifetime v cfg =
      put (parse_duration (sprint v)) (λ x. record cfg { database_connection_max_lifetime = x })
  set_setting k_admin_api_key v cfg = some (record cfg { admin_api_key = sprint v })
  set_setting k_port v cfg = some (record cfg { port = sprint v })
  set_setting k_require_auth_for_chat v cfg =
      put (parse_bool_value v) (λ x. record cfg { require_auth_for_chat = x })
  set_setting k_benchmark_enabled v cfg =
      put (parse_bool_value v) (λ x. record cfg { benchmark_enabled = x })
  set_setting k_benchmark_schedule_enabled v cfg =
      put (parse_bool_value v) (λ x. record cfg { benchmark_schedule_enabled = x })
  set_setting k_benchmark_schedule_interval v cfg =
      put (parse_duration (sprint v)) (λ x. record cfg { benchmark_schedule_interval = x })
  set_setting k_benchmark_judge_provider v cfg =
      some (record cfg { benchmark_judge_provider = sprint v })
  set_setting k_benchmark_judge_model v cfg = some (record cfg { benchmark_judge_model = sprint v })
  set_setting k_benchmark_concurrency v cfg =
      put (parse_int_value v) (λ x. record cfg { benchmark_concurrency = x })
  set_setting k_otel_enabled v cfg = put (parse_bool_value v) (λ x. record cfg { otel_enabled = x })
  set_setting k_otel_service_name v cfg = some (record cfg { otel_service_name = sprint v })
  set_setting k_otel_exporter_otlp_endpoint v cfg =
      some (record cfg { otel_exporter_otlp_endpoint = sprint v })
  set_setting k_otel_exporter_otlp_insecure v cfg =
      put (parse_bool_value v) (λ x. record cfg { otel_exporter_otlp_insecure = x })
  set_setting k_otel_trace_sample_ratio v cfg =
      put (parse_float64_value v) (λ x. record cfg { otel_trace_sample_ratio = x })

  -- `SetSettingValue`: the configuration and the environment, if there was no error
  unfoldable pub set_setting_value :
      Bytes → Value → Config → Dict Bytes → Option (Config × Dict Bytes)
  unfolding key_of set_setting
  set_setting_value key v cfg vars = elim (key_of key) [
    | none ↦ none
    | some k ↦ elim (set_setting k v cfg) [
      | none ↦ none
      | some cfg' ↦ some (cfg', insert key (sprint v) vars)
    ]
  ]

  -- `ValueToEnvString`
  unfoldable pub value_to_env_string : Value → Bytes
  value_to_env_string (boolean b) = if b then codes "true" else codes "false"
  value_to_env_string (number bits) = elim (whole bits) [
    | none ↦ format_float bits
    | some n ↦ format_int n
  ]
  value_to_env_string (integer n) = format_int n
  value_to_env_string v = sprint v
