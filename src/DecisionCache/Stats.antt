-- ===== src/DecisionCache/Stats.antt =====
-- How often the cache reports its statistics.
use pi_pi_mink.Prelude.{ℕ, ◌+◌, ◌≤◌, ◌<◌, ◌≡◌, none, some, arith}
use pi_pi_mink.DecisionCache.{DecisionCache, CacheStats, maybe_stats_summary, stats_snapshot}

-- A report is the current snapshot and is followed by silence: the next report of the cache comes
-- at least the configured interval later, if no other goroutine swaps the time in between.
pub maybe_stats_summary_throttled :
    (now later : ℕ) (c : DecisionCache) {s s' : CacheStats}
    → 0 < now
    → (maybe_stats_summary now none c).1 ≡ some s
    → (maybe_stats_summary later none (maybe_stats_summary now none c).0).1 ≡ some s'
    → (s ≡ stats_snapshot c) × (s' ≡ stats_snapshot c) × (now + c.stats_log_interval ≤ later)
unfolding maybe_stats_summary
maybe_stats_summary_throttled now later c pos h h' = ground arith
