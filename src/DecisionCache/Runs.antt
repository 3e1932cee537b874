-- ===== src/DecisionCache/Runs.antt =====
-- Whole histories of calls, from the cache that the program makes.
use pi_pi_mink.Prelude.{
  ℕ, zero, suc, ◌+◌, ◌≡◌, refl, ap, ◌∙◌, true, Option, none, some, List, [], ◌∷◌, length, arith,
  ltb, inl, inr, Bool-cases, Option-cases,
}
use pi_pi_mink.Prelude.Text.{Bytes}
use pi_pi_mink.Prelude.Dict.{Dict, lookup}
use pi_pi_mink.DecisionCache.{
  DecisionCache, CacheConfig, CacheLookupStatus, new_decision_cache, get_with_status, set, refresh,
  push_entry, evict, evict_oldest, remove_item, back,
}
use pi_pi_mink.DecisionCache.Invariant.{new_decision_cache-IsValid}
use pi_pi_mink.DecisionCache.Refinement.{
  Entry, view, view_list, spec_get, spec_set, Shows, get_with_status-Shows,
}
use pi_pi_mink.DecisionCache.Writes.{set-Shows}

-- a call at a time
pub data Call : Type 0 where
  get : ℕ → Bytes → Call
  put : ℕ → Bytes → Bytes → Call

abbrev pub Reply : Type 0
Reply = Option Bytes × CacheLookupStatus

-- The replies to the lookups of a history: `none` if a `set` does not return.
unfoldable pub run : DecisionCache → List Call → Option (List Reply)
run c [] = some []
run c (get now k ∷ calls) = elim (run (get_with_status now k c).0 calls) [
  | none ↦ none
  | some rs ↦ some ((get_with_status now k c).1 ∷ rs)
]
run c (put now k m ∷ calls) = elim (set now k m c) [ none ↦ none | some d ↦ run d calls ]

-- The same history on the list of entries of the specification.
unfoldable pub spec_run : ℕ → ℕ → Dict Entry → List Call → List Reply
spec_run room ttl l [] = []
spec_run room ttl l (get now k ∷ calls) =
    (spec_get now k l).1 ∷ spec_run room ttl (spec_get now k l).0 calls
spec_run room ttl l (put now k m ∷ calls) =
    spec_run room ttl (spec_set room k (record { model = m; expires_at = now + ttl }) l) calls

-- what a call leaves alone
pub record Keeps (c d : DecisionCache) : Type 0 where
  pub on : d.enabled ≡ c.enabled
  pub ttl : d.ttl ≡ c.ttl
  pub room : d.max_entries ≡ c.max_entries

pub get-Keeps : (now : ℕ) (k : Bytes) (c : DecisionCache) → Keeps c (get_with_status now k c).0
unfolding get_with_status remove_item
get-Keeps now k c = ground arith

pub Keeps-trans : {c d e : DecisionCache} → Keeps c d → Keeps d e → Keeps c e
Keeps-trans h k = record { on = k.on ∙ h.on; ttl = k.ttl ∙ h.ttl; room = k.room ∙ h.room }

push-Keeps : (now : ℕ) (k m : Bytes) (c : DecisionCache) → Keeps c (push_entry now k m c)
unfolding push_entry
push-Keeps now k m c = ground arith

evict_oldest-Keeps :
    (c : DecisionCache) (o : Option (Bytes × ℕ)) {d : DecisionCache}
    → evict_oldest c o ≡ some d
    → Keeps c d
unfolding evict_oldest
evict_oldest-Keeps c none h = cc
evict_oldest-Keeps c (some e) h = ground arith

evict-Keeps : (fuel : ℕ) (c : DecisionCache) {d : DecisionCache} → evict fuel c ≡ some d → Keeps c d
unfolding evict
evict-Keeps zero c h = cc
evict-Keeps (suc fuel) c {d} h = elim (Bool-cases (ltb c.max_entries (length c.entries))) [
  | inr stop ↦ ground (arith, stop)
  | inl more ↦ elim (Option-cases (evict_oldest c (back c.order))) [
    | inl e ↦ ground (arith, more, e)
    | inr (c', e) ↦
        Keeps-trans (evict_oldest-Keeps c _ e) (evict-Keeps fuel c' (ground (arith, more, e)))
  ]
]

pub set-Keeps :
    (now : ℕ) (k m : Bytes) (c : DecisionCache) {d : DecisionCache}
    → set now k m c ≡ some d
    → Keeps c d
unfolding set refresh
set-Keeps now k m c {d} h = elim (Bool-cases c.enabled) [
  | inr off ↦ ground (arith, off)
  | inl on ↦ elim (Option-cases (lookup k c.entries)) [
    | inr (item, e) ↦ ground (arith, on, e)
    | inl e ↦
        let pushed = push_entry now k m c in
        Keeps-trans (push-Keeps now k m c)
          (evict-Keeps (suc (length pushed.entries)) pushed (ground (arith, on, e)))
  ]
]

-- a cache that is on and valid, its entries, and its two constants
record Tracks (room ttl : ℕ) (l : Dict Entry) (c : DecisionCache) : Type 0 where
  shown : Shows c l
  on : c.enabled ≡ true
  ttl_is : c.ttl ≡ ttl
  room_is : c.max_entries ≡ room

Tracks-next :
    {room ttl : ℕ} {l l' : Dict Entry} {c d : DecisionCache}
    → Tracks room ttl l c
    → Keeps c d
    → Shows d l'
    → Tracks room ttl l' d
Tracks-next t h s = record {
  shown = s;
  on = h.on ∙ t.on;
  ttl_is = h.ttl ∙ t.ttl_is;
  room_is = h.room ∙ t.room_is;
}

new_view : (cfg : Option CacheConfig) → view (new_decision_cache cfg) ≡ []
unfolding new_decision_cache view_list
new_view none = refl
new_view (some cfg) = refl

-- From a valid cache that is on, every history of calls returns, with the replies of the
-- specification.
run-spec_run :
    (calls : List Call) (room ttl : ℕ) (l : Dict Entry) (c : DecisionCache)
    → Tracks room ttl l c
    → run c calls ≡ some (spec_run room ttl l calls)
unfolding run spec_run
run-spec_run [] room ttl l c t = refl
run-spec_run (get now k ∷ calls) room ttl l c t =
    let (s, reply) = get_with_status-Shows now k c t.shown.valid t.on in
    let ih =
      run-spec_run calls room ttl (spec_get now k l).0 (get_with_status now k c).0
        (Tracks-next t (get-Keeps now k c) (rw t.shown.shows at s)) in
    rw ih (
      ap (λ (r : Reply). some (r ∷ spec_run room ttl (spec_get now k l).0 calls))
        (rw t.shown.shows at reply))
run-spec_run (put now k m ∷ calls) room ttl l c t =
    let (d, ran, s) = set-Shows now k m c t.shown.valid t.on in
    let x : Entry = record { model = m; expires_at = now + ttl } in
    rw (ran, run)
      (run-spec_run calls room ttl (spec_set room k x l) d
        (Tracks-next t (set-Keeps now k m c ran) (rw (t.ttl_is, t.room_is, t.shown.shows) at s)))

-- From the cache that the program makes, every history of lookups and writes returns, and its
-- replies are those of the specification: a list of entries, the most recently used first, cut
-- to the configured size at each write. The cache is on by its configuration.
pub run-new_decision_cache :
    (cfg : Option CacheConfig) (calls : List Call)
    → (new_decision_cache cfg).enabled ≡ true
    → run (new_decision_cache cfg) calls
      ≡ some (spec_run (new_decision_cache cfg).max_entries (new_decision_cache cfg).ttl [] calls)
run-new_decision_cache cfg calls on =
    let c = new_decision_cache cfg in
    run-spec_run calls c.max_entries c.ttl [] c (record {
      shown = record { valid = new_decision_cache-IsValid cfg; shows = new_view cfg };
      on = on;
      ttl_is = refl;
      room_is = refl;
    })
