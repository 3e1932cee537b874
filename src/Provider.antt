-- ===== src/Provider.antt =====
-- internal/config/config.go: the configuration of a provider, the overrides for a model, the URLs
-- of its endpoints, and the resolution of keys and defaults at load time. The environment and
-- `time.ParseDuration` are parameters.
pub mod Overrides
pub mod Urls
pub mod Resolved
use pi_pi_mink.Prelude.{
  ℕ, ◌*◌, Bool, true, false, ◌&&◌, ◌||◌, not, Option, none, some, List, [], ◌∷◌, ◌++◌, map,
  if◌then◌else◌, ◌==◌, length, ltb,
}
use pi_pi_mink.Prelude.Int.{ℤ, pos}
use pi_pi_mink.Prelude.Text.{Bytes, codes, str_eq, is_empty, contains, to_lower, trim_right}

pub record ModelConfig : Type 0 where
  pub name : Bytes
  pub api_key_env : Bytes
  pub api_key : Bytes
  pub chat_path : Bytes
  pub type : Bytes
  pub base_url : Bytes
  pub enabled : Bool

pub record ProviderConfig : Type 0 where
  pub name : Bytes
  pub type : Bytes
  pub base_url : Bytes
  pub chat_path : Bytes
  pub api_key_env : Bytes
  pub api_key : Bytes
  pub timeout_str : Bytes
  pub timeout : ℤ
  pub rate_limit_seconds : ℤ
  pub models : List Bytes
  pub model_configs : List ModelConfig
  pub enabled : Bool

abbrev pub provider_type_openai_compatible : Bytes
provider_type_openai_compatible = codes "openai-compatible"

abbrev pub provider_type_openai_responses : Bytes
provider_type_openai_responses = codes "openai-responses"

abbrev pub provider_type_anthropic : Bytes
provider_type_anthropic = codes "anthropic"

-- `ModelNames`
abbrev pub model_names : ProviderConfig → List Bytes
model_names p =
    if ltb 0 (length p.model_configs) then map (λ mc. mc.name) p.model_configs else p.models

-- `if x != "" { field = x }`
abbrev pub override : Bytes → Bytes → Bytes
override x field = if not (is_empty x) then x else field

-- the overrides of one model configuration
abbrev pub overridden : ModelConfig → ProviderConfig → ProviderConfig
overridden mc p = record p {
  type = override mc.type p.type;
  base_url = override mc.base_url p.base_url;
  chat_path = override mc.chat_path p.chat_path;
  api_key = override mc.api_key p.api_key;
}

-- the loop of `ForModel`
unfoldable pub for_model_in : List ModelConfig → Bytes → ProviderConfig → ProviderConfig
for_model_in [] name p = p
for_model_in (mc ∷ mcs) name p =
    if not (str_eq mc.name name) then for_model_in mcs name p else overridden mc p

-- `ForModel`
abbrev pub for_model : ProviderConfig → Bytes → ProviderConfig
for_model p name = for_model_in p.model_configs name p

abbrev pub trim_slashes : Bytes → Bytes
trim_slashes = trim_right (λ c. c == b'/')

-- `ChatCompletionsURL`
unfoldable pub chat_completions_url : ProviderConfig → Bytes
chat_completions_url p =
    let base = trim_slashes p.base_url in
    if not (is_empty p.chat_path) then base ++ p.chat_path else base ++ codes "/v1/chat/completions"

-- `UsesResponsesAPI`
unfoldable pub uses_responses_api : ProviderConfig → Bool
uses_responses_api p =
    if str_eq p.type provider_type_openai_responses
    then true
    else contains (codes "/responses") p.chat_path

-- `ResponsesURL`
unfoldable pub responses_url : ProviderConfig → Bytes
responses_url p =
    let base = trim_slashes p.base_url in
    if not (is_empty p.chat_path)
    then base ++ p.chat_path
    else if contains (codes "azure.com") (to_lower base)
    then base ++ codes "/openai/v1/responses"
    else base ++ codes "/v1/responses"

abbrev pub default_timeout : ℤ
default_timeout = pos (120 * 1000000000)

-- the body of the loop over the model configurations
abbrev pub resolve_model_key : (Bytes → Bytes) → ModelConfig → ModelConfig
resolve_model_key getenv mc =
    if not (is_empty mc.api_key_env) then record mc { api_key = getenv mc.api_key_env } else mc

abbrev pub resolve_timeout : (Bytes → Option ℤ) → Bytes → ℤ
resolve_timeout parse_duration s =
    if not (is_empty s)
    then elim (parse_duration s) [ none ↦ default_timeout | some d ↦ d ]
    else default_timeout

abbrev pub default_type : Bytes → Bytes
default_type type = if is_empty type then provider_type_openai_compatible else type

-- `ResolveProviderKeys`
unfoldable pub resolve_provider_keys :
    (Bytes → Bytes) → (Bytes → Option ℤ) → ProviderConfig → ProviderConfig
resolve_provider_keys getenv parse_duration p = record p {
  api_key = if not (is_empty p.api_key_env) then getenv p.api_key_env else p.api_key;
  model_configs = map (resolve_model_key getenv) p.model_configs;
  timeout = resolve_timeout parse_duration p.timeout_str;
  type = default_type p.type;
}
