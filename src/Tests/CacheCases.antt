-- ===== src/Tests/CacheCases.antt =====
-- Histories of the cache of internal/llm/decision_cache.go.
use pi_pi_mink.Prelude.{true, ◌≡◌, refl, Option, none, some, List, [], ◌∷◌}
use pi_pi_mink.Prelude.Int.{pos, negsuc}
use pi_pi_mink.Prelude.Text.{codes, str_eq}
use pi_pi_mink.Prelude.Dict.{lookup, insert, delete}
use pi_pi_mink.DecisionCache.{
  CacheConfig, CacheStats, hit, miss, expired, DecisionCache, new_decision_cache, get_with_status,
  set, refresh, push_entry, evict,
}
use pi_pi_mink.DecisionCache.Runs.{Call, get, put, Reply, run, spec_run, run-new_decision_cache}
use pi_pi_mink.DecisionCache.Fresh.{AllFresh, run-AllFresh}

abbrev two_entries : Option CacheConfig
two_entries =
    some
      (record { enabled = true; ttl = pos 10; max_entries = pos 2; stats_log_interval = negsuc 0 })

-- the third write evicts `b`, which was used less recently than `a`
abbrev calls : List Call
calls =
    put 1 (codes "a") (codes "gpt-4")
    ∷ put 2 (codes "b") (codes "o3")
    ∷ get 3 (codes "a")
    ∷ put 4 (codes "c") (codes "opus")
    ∷ get 5 (codes "b")
    ∷ get 11 (codes "a")
    ∷ get 12 (codes "a")
    ∷ []

program : Unit {0}
unfolding new_decision_cache run spec_run get_with_status set refresh push_entry evict str_eq lookup
    insert delete
program = tt

replies :
    run (new_decision_cache two_entries) calls
    ≡ some (
        (some (codes "gpt-4"), hit)
        ∷ (none, miss)
        ∷ (some (codes "gpt-4"), hit)
        ∷ (none, expired)
        ∷ [])
unfolding program
replies = refl

is_on : (new_decision_cache two_entries).enabled ≡ true
unfolding new_decision_cache
is_on = refl

run-new_decision_cache_example :
    run (new_decision_cache two_entries) calls
    ≡ some (
        spec_run
          (new_decision_cache two_entries).max_entries
          (new_decision_cache two_entries).ttl
          []
          calls)
run-new_decision_cache_example = run-new_decision_cache two_entries calls is_on

run-AllFresh_example :
    (rs : List Reply) × (run (new_decision_cache two_entries) calls ≡ some rs)
    × AllFresh (new_decision_cache two_entries).ttl (λ k. none) calls rs
run-AllFresh_example = run-AllFresh two_entries calls is_on

abbrev fresh_cache : DecisionCache
fresh_cache = new_decision_cache two_entries

abbrev reported : CacheStats
reported = record { hits = 0; misses = 0; expired = 0; sets = 0; evictions = 0 }
