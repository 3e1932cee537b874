-- ===== src/Settings/Registry.antt =====
-- internal/config/settings_registry.go: the registry of the settings, less the label and the
-- description of each, which are only shown. A float64 is its bits.
use pi_pi_mink.Prelude.{
  ℕ, Bool, true, false, Option, none, some, List, [], ◌∷◌, ◌≡◌, refl, sym, arith, if◌then◌else◌,
  inl, inr, Bool-cases, All,
}
use pi_pi_mink.Prelude.Text.{Bytes, codes, str_eq, str_eq_iff}
use pi_pi_mink.Settings.{
  Key, key_name, key_of, find_key, k_model_selection_provider, k_model_selection_model,
  k_default_chat_model, k_selection_cache_enabled, k_selection_cache_ttl,
  k_selection_cache_max_entries, k_selection_cache_stats_log_interval, k_database_url,
  k_database_max_connections, k_database_max_idle_connections, k_database_connection_max_lifetime,
  k_admin_api_key, k_port, k_require_auth_for_chat, k_benchmark_enabled,
  k_benchmark_schedule_enabled, k_benchmark_schedule_interval, k_benchmark_judge_provider,
  k_benchmark_judge_model, k_benchmark_concurrency, k_otel_enabled, k_otel_service_name,
  k_otel_exporter_otlp_endpoint, k_otel_exporter_otlp_insecure, k_otel_trace_sample_ratio,
}

pub data SettingType : Type 0 where
  text_type number_type toggle_type duration_type url_type secret_type provider_select_type
        model_select_type :
      SettingType

pub data SettingCategory : Type 0 where
  routing cache database server benchmarking observability : SettingCategory

pub record SettingValidation : Type 0 where
  pub min : Option ℕ
  pub max : Option ℕ
  pub step : Option ℕ
  pub pattern : Bytes

pub record SettingDef : Type 0 where
  pub key : Bytes
  pub category : SettingCategory
  pub type : SettingType
  pub required : Bool
  pub depends_on : Bytes
  pub validation : Option SettingValidation

abbrev def : Bytes → SettingCategory → SettingType → SettingDef
def key category type = record {
  key = key;
  category = category;
  type = type;
  required = false;
  depends_on = [];
  validation = none;
}

abbrev a_duration : SettingValidation
a_duration = record { min = none; max = none; step = none; pattern = codes "^\\d+[smh]$" }

-- bounds, by their bits
abbrev between : ℕ → ℕ → SettingValidation
between lo hi = record { min = some lo; max = some hi; step = none; pattern = [] }

-- `Registry`
abbrev pub registry : List SettingDef
registry =
    record (def (codes "MODEL_SELECTION_PROVIDER") routing provider_select_type) { required = true }
    ∷ record (def (codes "MODEL_SELECTION_MODEL") routing model_select_type) {
      required = true;
      depends_on = codes "MODEL_SELECTION_PROVIDER";
    }
    ∷ record (def (codes "DEFAULT_CHAT_MODEL") routing model_select_type) {
      required = true;
      depends_on = codes "MODEL_SELECTION_PROVIDER";
    }
    ∷ def (codes "SELECTION_CACHE_ENABLED") cache toggle_type
    ∷ record (def (codes "SELECTION_CACHE_TTL") cache duration_type) {
      validation = some a_duration;
    }
    ∷ record (def (codes "SELECTION_CACHE_MAX_ENTRIES") cache number_type) {
      validation = some (between 4621819117588971520 4681608360884174848);
    }
    ∷ record (def (codes "SELECTION_CACHE_STATS_LOG_INTERVAL") cache duration_type) {
      validation = some a_duration;
    }
    ∷ record (def (codes "DATABASE_URL") database url_type) { required = true }
    ∷ record (def (codes "DATABASE_MAX_CONNECTIONS") database number_type) {
      validation = some (between 4607182418800017408 4647503709213818880);
    }
    ∷ record (def (codes "DATABASE_MAX_IDLE_CONNECTIONS") database number_type) {
      validation = some (between 0 4636737291354636288);
    }
    ∷ record (def (codes "DATABASE_CONNECTION_MAX_LIFETIME") database duration_type) {
      validation = some a_duration;
    }
    ∷ record (def (codes "ADMIN_API_KEY") server secret_type) { required = true }
    ∷ record (def (codes "PORT") server number_type) {
      required = true;
      validation = some (between 4607182418800017408 4679239875398991872);
    }
    ∷ def (codes "REQUIRE_AUTH_FOR_CHAT") server toggle_type
    ∷ def (codes "BENCHMARK_ENABLED") benchmarking toggle_type
    ∷ def (codes "BENCHMARK_SCHEDULE_ENABLED") benchmarking toggle_type
    ∷ record (def (codes "BENCHMARK_SCHEDULE_INTERVAL") benchmarking duration_type) {
      validation = some a_duration;
    }
    ∷ def (codes "BENCHMARK_JUDGE_PROVIDER") benchmarking provider_select_type
    ∷ record (def (codes "BENCHMARK_JUDGE_MODEL") benchmarking model_select_type) {
      depends_on = codes "BENCHMARK_JUDGE_PROVIDER";
    }
    ∷ record (def (codes "BENCHMARK_CONCURRENCY") benchmarking number_type) {
      validation = some (between 4607182418800017408 4626322717216342016);
    }
    ∷ def (codes "OTEL_ENABLED") observability toggle_type
    ∷ def (codes "OTEL_SERVICE_NAME") observability text_type
    ∷ def (codes "OTEL_EXPORTER_OTLP_ENDPOINT") observability text_type
    ∷ def (codes "OTEL_EXPORTER_OTLP_INSECURE") observability toggle_type
    ∷ record (def (codes "OTEL_TRACE_SAMPLE_RATIO") observability number_type) {
      validation =
          some (record (between 0 4607182418800017408) { step = some 4591870180066957722 });
    }
    ∷ []

-- the loop of `FindSettingDef`
unfoldable pub find_setting_def_in : Bytes → List SettingDef → Option SettingDef
find_setting_def_in key [] = none
find_setting_def_in key (d ∷ ds) = if str_eq d.key key then some d else find_setting_def_in key ds

-- `FindSettingDef`
unfoldable pub find_setting_def : Bytes → Option SettingDef
unfolding find_setting_def_in
find_setting_def key = find_setting_def_in key registry

abbrev pub same_category : SettingCategory → SettingCategory → Bool
same_category routing routing = true
same_category cache cache = true
same_category database database = true
same_category server server = true
same_category benchmarking benchmarking = true
same_category observability observability = true
same_category _ _ = false

-- `RegistryByCategory`, the list of one category
unfoldable pub of_category : SettingCategory → List SettingDef → List SettingDef
of_category c [] = []
of_category c (d ∷ ds) =
    let rest = of_category c ds in if same_category d.category c then d ∷ rest else rest

abbrev pub registry_by_category : SettingCategory → List SettingDef
registry_by_category c = of_category c registry

-- a key of the registry is a case of the switches
abbrev pub Known : Bytes → Type 0
Known key = (k : Key) × (key_of key ≡ some k)

registry-Known : All (λ d. Known d.key) registry
unfolding key_of find_key str_eq
registry-Known = (
  (k_model_selection_provider, refl),
  (
    (k_model_selection_model, refl),
    (
      (k_default_chat_model, refl),
      (
        (k_selection_cache_enabled, refl),
        (
          (k_selection_cache_ttl, refl),
          (
            (k_selection_cache_max_entries, refl),
            (
              (k_selection_cache_stats_log_interval, refl),
              (
                (k_database_url, refl),
                (
                  (k_database_max_connections, refl),
                  (
                    (k_database_max_idle_connections, refl),
                    (
                      (k_database_connection_max_lifetime, refl),
                      (
                        (k_admin_api_key, refl),
                        (
                          (k_port, refl),
                          (
                            (k_require_auth_for_chat, refl),
                            (
                              (k_benchmark_enabled, refl),
                              (
                                (k_benchmark_schedule_enabled, refl),
                                (
                                  (k_benchmark_schedule_interval, refl),
                                  (
                                    (k_benchmark_judge_provider, refl),
                                    (
                                      (k_benchmark_judge_model, refl),
                                      (
                                        (k_benchmark_concurrency, refl),
                                        (
                                          (k_otel_enabled, refl),
                                          (
                                            (k_otel_service_name, refl),
                                            (
                                              (k_otel_exporter_otlp_endpoint, refl),
                                              (
                                                (k_otel_exporter_otlp_insecure, refl),
                                                ((k_otel_trace_sample_ratio, refl), tt),
                                              ),
                                            ),
                                          ),
                                        ),
                                      ),
                                    ),
                                  ),
                                ),
                              ),
                            ),
                          ),
                        ),
                      ),
                    ),
                  ),
                ),
              ),
            ),
          ),
        ),
      ),
    ),
  ),
)

registered :
    (k : Key) → (d : SettingDef) × (find_setting_def (key_name k) ≡ some d) × (d.key ≡ key_name k)
unfolding find_setting_def find_setting_def_in str_eq
registered k_model_selection_provider = (_, refl, refl)
registered k_model_selection_model = (_, refl, refl)
registered k_default_chat_model = (_, refl, refl)
registered k_selection_cache_enabled = (_, refl, refl)
registered k_selection_cache_ttl = (_, refl, refl)
registered k_selection_cache_max_entries = (_, refl, refl)
registered k_selection_cache_stats_log_interval = (_, refl, refl)
registered k_database_url = (_, refl, refl)
registered k_database_max_connections = (_, refl, refl)
registered k_database_max_idle_connections = (_, refl, refl)
registered k_database_connection_max_lifetime = (_, refl, refl)
registered k_admin_api_key = (_, refl, refl)
registered k_port = (_, refl, refl)
registered k_require_auth_for_chat = (_, refl, refl)
registered k_benchmark_enabled = (_, refl, refl)
registered k_benchmark_schedule_enabled = (_, refl, refl)
registered k_benchmark_schedule_interval = (_, refl, refl)
registered k_benchmark_judge_provider = (_, refl, refl)
registered k_benchmark_judge_model = (_, refl, refl)
registered k_benchmark_concurrency = (_, refl, refl)
registered k_otel_enabled = (_, refl, refl)
registered k_otel_service_name = (_, refl, refl)
registered k_otel_exporter_otlp_endpoint = (_, refl, refl)
registered k_otel_exporter_otlp_insecure = (_, refl, refl)
registered k_otel_trace_sample_ratio = (_, refl, refl)

find_setting_def_in-Known :
    (key : Bytes) (ds : List SettingDef) (d : SettingDef)
    → All (λ e. Known e.key) ds
    → find_setting_def_in key ds ≡ some d
    → Known key
unfolding find_setting_def_in
find_setting_def_in-Known key [] d a e = absurd cc
find_setting_def_in-Known key (x ∷ ds) d a e = elim (Bool-cases (str_eq x.key key)) [
  | inl same ↦
      let (k, known) = a.0 in
      let equal : x.key ≡ key = (str_eq_iff x.key key).0 same in (k, rw (sym equal) known)
  | inr other ↦
      let later : find_setting_def_in key ds ≡ some d = ground (arith, e, other) in
      find_setting_def_in-Known key ds d a.1 later
]

pub find_setting_def_lem :
    ((key : Bytes) (d : SettingDef) → find_setting_def key ≡ some d → Known key)
    × ((k : Key)
        → (d : SettingDef) × (find_setting_def (key_name k) ≡ some d) × (d.key ≡ key_name k))
unfolding find_setting_def
find_setting_def_lem =
    (λ key d e. find_setting_def_in-Known key registry d registry-Known e, registered)
