-- ===== src/DecisionCache.antt =====
-- internal/llm/decision_cache.go: the cache of routing decisions. Times and durations are counts
-- of nanoseconds, and the clock is an argument. `container/list` is a list of pairs, the front
-- first: the element's value (a key) and the identity of the element, by which an item of the map
-- points into the list. Counters wrap at 2 ^ 64.
pub mod Order
pub mod Invariant
pub mod Refinement
pub mod Writes
pub mod Runs
pub mod Fresh
pub mod Stats
use pi_pi_mink.Prelude.{
  ℕ, zero, suc, ◌+◌, ◌-◌, ◌*◌, ◌%◌, ◌^◌, Bool, true, false, ◌&&◌, ◌||◌, not, Option, none, some,
  List, [], ◌∷◌, length, if◌then◌else◌, leb, ltb, ◌==◌,
}
use pi_pi_mink.Prelude.Int.{ℤ, is_pos, is_nonneg, to_ℕ}
use pi_pi_mink.Prelude.Text.{Bytes}
use pi_pi_mink.Prelude.Dict.{Dict, lookup, insert, delete}

pub record CacheItem : Type 0 where
  pub model : Bytes
  pub expires_at : ℕ
  pub element : ℕ

pub record CacheStats : Type 0 where
  pub hits : ℕ
  pub misses : ℕ
  pub expired : ℕ
  pub sets : ℕ
  pub evictions : ℕ

-- `next_element` is the identity of the next element to be allocated.
pub record DecisionCache : Type 0 where
  pub enabled : Bool
  pub ttl : ℕ
  pub max_entries : ℕ
  pub stats_log_interval : ℕ
  pub entries : Dict CacheItem
  pub order : Dict ℕ
  pub next_element : ℕ
  pub stats : CacheStats
  pub last_stats_log : ℕ

-- the settings that `newDecisionCache` reads
pub record CacheConfig : Type 0 where
  pub enabled : Bool
  pub ttl : ℤ
  pub max_entries : ℤ
  pub stats_log_interval : ℤ

pub data CacheLookupStatus : Type 0 where
  hit miss expired disabled : CacheLookupStatus

abbrev pub second : ℕ
second = 1000000000

abbrev pub empty_cache : DecisionCache
empty_cache = record {
  enabled = true;
  ttl = 120 * second;
  max_entries = 1000;
  stats_log_interval = 60 * second;
  entries = [];
  order = [];
  next_element = 0;
  stats = record { hits = 0; misses = 0; expired = 0; sets = 0; evictions = 0 };
  last_stats_log = 0;
}

unfoldable pub new_decision_cache : Option CacheConfig → DecisionCache
new_decision_cache none = empty_cache
new_decision_cache (some cfg) = record empty_cache {
  enabled = cfg.enabled;
  ttl = if is_pos cfg.ttl then to_ℕ cfg.ttl else empty_cache.ttl;
  max_entries = if is_pos cfg.max_entries then to_ℕ cfg.max_entries else empty_cache.max_entries;
  stats_log_interval =
      if is_nonneg cfg.stats_log_interval
      then to_ℕ cfg.stats_log_interval
      else empty_cache.stats_log_interval;
}

-- `atomic.AddUint64(&x, 1)`
abbrev pub inc : ℕ → ℕ
inc x = (x + 1) % 2 ^ 64

-- `order.Remove(e)`: an element that is not in the list is left alone
unfoldable pub remove_element : ℕ → Dict ℕ → Dict ℕ
remove_element e [] = []
remove_element e ((k, i) ∷ o) = if i == e then o else (k, i) ∷ remove_element e o

-- the value of the element, if it is in the list
unfoldable pub value_of : ℕ → Dict ℕ → Option Bytes
value_of e [] = none
value_of e ((k, i) ∷ o) = if i == e then some k else value_of e o

-- `order.MoveToFront(e)`
unfoldable pub move_to_front : ℕ → Dict ℕ → Dict ℕ
unfolding remove_element value_of
move_to_front e o = elim (value_of e o) [ none ↦ o | some k ↦ (k, e) ∷ remove_element e o ]

-- `removeItem`
unfoldable pub remove_item : Bytes → CacheItem → DecisionCache → DecisionCache
remove_item key item c = record c {
  entries = delete key c.entries;
  order = remove_element item.element c.order;
}

-- the part of `getWithStatus` that holds the lock, on the item that the map has for the key
unfoldable pub get_locked :
    ℕ
    → Bytes
    → Option CacheItem
    → DecisionCache
    → DecisionCache × (Option Bytes × CacheLookupStatus)
unfolding remove_item
get_locked now key none c =
    (record c { stats = record c.stats { misses = inc c.stats.misses } }, (none, miss))
get_locked now key (some item) c =
    if ltb item.expires_at now
    then (
      record (remove_item key item c) {
        stats = record c.stats { expired = inc c.stats.expired; misses = inc c.stats.misses };
      },
      (none, expired),
    )
    else (
      record c {
        order = move_to_front item.element c.order;
        stats = record c.stats { hits = inc c.stats.hits };
      },
      (some item.model, hit),
    )

-- `getWithStatus`; the model is `none` where the Go function returns `"", false`
unfoldable pub get_with_status :
    ℕ → Bytes → DecisionCache → DecisionCache × (Option Bytes × CacheLookupStatus)
unfolding get_locked
get_with_status now key c =
    if not c.enabled then (c, (none, disabled)) else get_locked now key (lookup key c.entries) c

-- `order.Back()`
unfoldable pub back : Dict ℕ → Option (Bytes × ℕ)
back [] = none
back (e ∷ []) = some e
back (e ∷ f ∷ o) = back (f ∷ o)

-- One round of the loop at the end of `set`: `none` if the loop breaks. An element's value is
-- always a string here, so the branch that drops another value has no counterpart.
unfoldable pub evict_oldest : DecisionCache → Option (Bytes × ℕ) → Option DecisionCache
unfolding remove_item
evict_oldest c none = none
evict_oldest c (some (old_key, _)) = some (elim (lookup old_key c.entries) [
  | none ↦ c
  | some old_item ↦ record (remove_item old_key old_item c) {
    stats = record c.stats { evictions = inc c.stats.evictions };
  }
])

-- The loop itself, with fuel: `none` if it has not ended by then.
unfoldable pub evict : ℕ → DecisionCache → Option DecisionCache
unfolding evict_oldest back
evict zero c = none
evict (suc fuel) c =
    if ltb c.max_entries (length c.entries)
    then elim (evict_oldest c (back c.order)) [ none ↦ some c | some c' ↦ evict fuel c' ]
    else some c

-- the branch of `set` for a key that the map has
unfoldable pub refresh : ℕ → Bytes → Bytes → CacheItem → DecisionCache → DecisionCache
unfolding move_to_front
refresh now key model item c = record c {
  entries = insert key (record item { model = model; expires_at = now + c.ttl }) c.entries;
  order = move_to_front item.element c.order;
  stats = record c.stats { sets = inc c.stats.sets };
}

-- `PushFront` and the new entry
unfoldable pub push_entry : ℕ → Bytes → Bytes → DecisionCache → DecisionCache
push_entry now key model c = record c {
  entries =
      insert key (record { model = model; expires_at = now + c.ttl; element = c.next_element })
        c.entries;
  order = (key, c.next_element) ∷ c.order;
  next_element = suc c.next_element;
  stats = record c.stats { sets = inc c.stats.sets };
}

-- `set`; the eviction loop gets fuel for one round more than there are entries
unfoldable pub set : ℕ → Bytes → Bytes → DecisionCache → Option DecisionCache
set now key model c = if not c.enabled then some c else elim (lookup key c.entries) [
  | some item ↦ some (refresh now key model item c)
  | none ↦ let pushed = push_entry now key model c in evict (suc (length pushed.entries)) pushed
]

-- `statsSnapshot`
abbrev pub stats_snapshot : DecisionCache → CacheStats
stats_snapshot c = c.stats

-- `maybeStatsSummary`; `raced` is what another goroutine has stored in `lastStatsLogUnixNano`
-- between the load and the swap, which then fails unless it stored the value that was loaded.
unfoldable pub maybe_stats_summary :
    ℕ → Option ℕ → DecisionCache → DecisionCache × Option CacheStats
maybe_stats_summary now raced c =
    if not c.enabled || c.stats_log_interval == 0
    then (c, none)
    else if ltb 0 c.last_stats_log && ltb now (c.last_stats_log + c.stats_log_interval)
    then (c, none)
    else elim raced [
      | none ↦ (record c { last_stats_log = now }, some (stats_snapshot c))
      | some other ↦
          if other == c.last_stats_log
          then (record c { last_stats_log = now }, some (stats_snapshot c))
          else (record c { last_stats_log = other }, none)
    ]
