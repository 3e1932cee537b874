-- ===== src/Client.antt =====
-- internal/llm/client.go and internal/llm/rate_limiter.go: the provider table of the client, and
-- the limiter that spaces the requests to a provider. A limiter is an object that the client's map
-- points to, so the limiters stand in a store, and the map has their addresses. Times are counts
-- of nanoseconds.
pub mod Limiter
pub mod Table
use pi_pi_mink.Prelude.{
  ℕ, zero, suc, ◌+◌, ◌-◌, ◌*◌, Bool, true, false, Option, none, some, List, [], ◌∷◌, if◌then◌else◌,
  ◌==◌, length, not, ◌++◌,
}
use pi_pi_mink.Prelude.Int.{ℤ, is_pos, to_ℕ}
use pi_pi_mink.Prelude.Text.{Bytes, str_eq, is_empty}
use pi_pi_mink.Prelude.Dict.{Dict, lookup, insert}
use pi_pi_mink.Provider.{ProviderConfig, provider_type_openai_compatible}

-- `last_request_time` is `none` for the zero time.
pub record RateLimiter : Type 0 where
  pub last_request_time : Option ℕ
  pub wait_seconds : ℤ

unfoldable pub new_rate_limiter : ℤ → RateLimiter
new_rate_limiter wait_seconds = record { last_request_time = none; wait_seconds = wait_seconds }

-- `Wait`: how long the caller sleeps. A wait that is not positive is no sleep, which is what the
-- subtraction on ℕ gives.
unfoldable pub wait : ℕ → RateLimiter → ℕ
wait now r = elim r.last_request_time [
  | none ↦ 0
  | some last ↦ (to_ℕ r.wait_seconds * 1000000000 + last) - now
]

-- `UpdateLastRequestTime`
unfoldable pub update_last_request_time : ℕ → RateLimiter → RateLimiter
update_last_request_time now r = record r { last_request_time = some now }

pub record Client : Type 0 where
  pub providers : Dict ProviderConfig
  pub provider_limiters : Dict ℕ
  pub limiters : List RateLimiter

abbrev pub empty_client : Client
empty_client = record { providers = []; provider_limiters = []; limiters = [] }

-- The new maps, while the loop of `SetProviders` runs; `old` is the map of the limiters before.
pub record Tables : Type 0 where
  pub new_providers : Dict ProviderConfig
  pub new_limiters : Dict ℕ
  pub store : List RateLimiter

abbrev pub add_limiter : Dict ℕ → ProviderConfig → Tables → Tables
add_limiter old p t = elim (lookup p.name old) [
  | some existing ↦ record t { new_limiters = insert p.name existing t.new_limiters }
  | none ↦ record t {
    new_limiters = insert p.name (length t.store) t.new_limiters;
    store = t.store ++ new_rate_limiter p.rate_limit_seconds ∷ [];
  }
]

-- one round of the loop
abbrev pub add_provider : Dict ℕ → ProviderConfig → Tables → Tables
add_provider old p t =
    let t' = record t { new_providers = insert p.name p t.new_providers } in
    if is_pos p.rate_limit_seconds then add_limiter old p t' else t'

unfoldable pub add_providers : Dict ℕ → List ProviderConfig → Tables → Tables
add_providers old [] t = t
add_providers old (p ∷ ps) t = add_providers old ps (add_provider old p t)

-- `SetProviders`
unfoldable pub set_providers : List ProviderConfig → Client → Client
unfolding add_providers
set_providers ps c =
    let t =
      add_providers c.provider_limiters ps
        (record { new_providers = []; new_limiters = []; store = c.limiters }) in
    record { providers = t.new_providers; provider_limiters = t.new_limiters; limiters = t.store }

-- `findProvider`
abbrev pub find_provider : Bytes → Client → Option ProviderConfig
find_provider name c = lookup name c.providers

-- the loop of `selectionProvider` over the map
unfoldable pub first_compatible : Dict ProviderConfig → Option ProviderConfig
first_compatible [] = none
first_compatible ((name, p) ∷ ps) =
    if str_eq p.type provider_type_openai_compatible then some p else first_compatible ps

-- `selectionProvider`, on the configured name
unfoldable pub selection_provider : Bytes → Client → Option ProviderConfig
unfolding first_compatible
selection_provider name c =
    let fallback = first_compatible c.providers in
    if not (is_empty name)
    then elim (lookup name c.providers) [ some p ↦ some p | none ↦ fallback ]
    else fallback

-- `rateLimiterFor`: the address of the limiter
abbrev pub rate_limiter_for : Bytes → Client → Option ℕ
rate_limiter_for name c = lookup name c.provider_limiters
