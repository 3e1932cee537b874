-- ===== src/Tests/ProviderCases.antt =====
-- Providers, their client and its limiters.
use pi_pi_mink.Prelude.{
  ◌*◌, true, ◌≡◌, refl, Option, none, some, List, [], ◌∷◌, ◌++◌, if◌then◌else◌,
}
use pi_pi_mink.Prelude.Int.{ℤ, pos, to_ℕ}
use pi_pi_mink.Prelude.Text.{Bytes, codes, str_eq, trim_right, trim_left, contains, has_prefix}
use pi_pi_mink.Prelude.Dict.{lookup}
use pi_pi_mink.Provider.{ModelConfig, ProviderConfig, for_model, for_model_in, responses_url}
use pi_pi_mink.Client.{RateLimiter, Client, set_providers, rate_limiter_for}
use pi_pi_mink.Client.Limiter.{Visit, visits, Spaced, visits-Spaced}
use pi_pi_mink.Client.Table.{is_limited, rate_limiter_for-set_providers}

abbrev opus : ModelConfig
opus = record {
  name = codes "opus";
  api_key_env = [];
  api_key = codes "k2";
  chat_path = [];
  type = codes "anthropic";
  base_url = [];
  enabled = true;
}

abbrev pub azure : ProviderConfig
azure = record {
  name = codes "azure";
  type = [];
  base_url = codes "https://x.azure.com//";
  chat_path = [];
  api_key_env = codes "KEY";
  api_key = [];
  timeout_str = [];
  timeout = pos 0;
  rate_limit_seconds = pos 2;
  models = [];
  model_configs = opus ∷ [];
  enabled = true;
}

responses_url-azure : responses_url azure ≡ codes "https://x.azure.com/openai/v1/responses"
unfolding responses_url trim_right trim_left contains has_prefix
responses_url-azure = refl

for_model_opus : (for_model azure (codes "opus")).api_key ≡ codes "k2"
unfolding for_model_in str_eq
for_model_opus = refl

abbrev pub env : Bytes → Bytes
env n = codes "k1"

abbrev pub no_durations : Bytes → Option ℤ
no_durations s = none

abbrev pub limiter : RateLimiter
limiter = record { last_request_time = some 5; wait_seconds = pos 2 }

abbrev busy_day : List Visit
busy_day =
    record { idle = 1; late = 0; busy = 7 } ∷ record { idle = 3000000000; late = 2; busy = 1 } ∷ []

visits-Spaced_example :
    Spaced
      (to_ℕ limiter.wait_seconds * 1000000000)
      limiter.last_request_time
      (visits 6 limiter busy_day)
visits-Spaced_example = visits-Spaced busy_day 6 limiter

abbrev known : Client
known = record {
  providers = [];
  provider_limiters = (codes "azure", 0) ∷ [];
  limiters = limiter ∷ [];
}

rate_limiter_for-set_providers_example :
    (rate_limiter_for (codes "azure") (set_providers (azure ∷ []) known)
      ≡ (if is_limited (codes "azure") (azure ∷ []) then some 0 else none))
    × ((s : List RateLimiter) × ((set_providers (azure ∷ []) known).limiters ≡ known.limiters ++ s))
unfolding lookup str_eq
rate_limiter_for-set_providers_example =
    rate_limiter_for-set_providers (codes "azure") 0 (azure ∷ []) known refl
