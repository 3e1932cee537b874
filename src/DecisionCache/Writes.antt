-- ===== src/DecisionCache/Writes.antt =====
-- `set` against the specification: the branch for a known key, the new entry, and the eviction
-- loop, which ends after one round at most.
use pi_pi_mink.Prelude.{
  ℕ, suc, ◌+◌, ◌≤◌, ◌<◌, ◌≡◌, refl, ap, sym, ◌∙◌, true, false, Option, none, some, ◌∷◌, length,
  take, take_of_length-le, arith, inl, inr, Option-cases, Bool-cases, ltb,
}
use pi_pi_mink.Prelude.Text.{Bytes, str_eq, str_eq_iff}
use pi_pi_mink.Prelude.Dict.{
  Dict, lookup, insert, delete, lookup-insert, lookup-delete, delete_absent, length-delete_present,
  length-insert_absent, length-insert_present,
}
use pi_pi_mink.DecisionCache.{
  CacheItem, DecisionCache, back, evict_oldest, evict, refresh, push_entry, set, inc,
}
use pi_pi_mink.DecisionCache.Order.{back-take, remove_element-delete}
use pi_pi_mink.DecisionCache.Invariant.{
  element_of, Linked, Linked-front, Linked-rewrite, Linked-push, gone, IsValid, move_to_front_item,
  in_order, Linked-delete,
}
use pi_pi_mink.DecisionCache.Refinement.{
  Entry, entry_of, view_list, view, spec_set, Shows, view_list-delete, view_list-congr,
  view_list-take, length-view_list, lookup-view,
}

lookup-insert_self {ℓ} :
    {V : Type ℓ} (k : Bytes) (v : V) (m : Dict V) → lookup k (insert k v m) ≡ some v
lookup-insert_self k v m = ground (arith, lookup-insert k k v m, str_eq_iff k k)

lookup-insert_ne {ℓ} :
    {V : Type ℓ} (k j : Bytes) (v : V) (m : Dict V)
    → str_eq k j ≡ false
    → lookup j (insert k v m) ≡ lookup j m
lookup-insert_ne k j v m h = ground (arith, lookup-insert k j v m)

module _ (now : ℕ) (k model : Bytes) (c : DecisionCache) (v : IsValid c) where
  abbrev entry : Entry
  entry = record { model = model; expires_at = now + c.ttl }

  -- behind the entry for the key, the write of its item does not show
  view_rest :
      (item : CacheItem)
      → view_list (insert k item c.entries) (delete k c.order) ≡ delete k (view c)
  view_rest item =
      view_list-congr (insert k item c.entries) c.entries k (delete k c.order)
        (λ j d. lookup-insert_ne k j item c.entries d)
        (gone c.entries c.order c.next_element v.links k)
      ∙ view_list-delete c.entries k c.order

  fits :
      (item : CacheItem)
      → lookup k c.entries ≡ some item
      → suc (length (delete k (view c))) ≤ c.max_entries
  fits item e = omega (
    arith,
    length-delete_present k _ (view c) (lookup-view c k (some item) v e),
    length-view_list c.entries c.order,
    v.links.same_size,
    v.bounded,
  )

  refresh-Shows :
      (item : CacheItem)
      → lookup k c.entries ≡ some item
      → Shows (refresh now k model item c) (spec_set c.max_entries k entry (view c))
  unfolding refresh view_list entry_of
  refresh-Shows item e = record {
    valid = record {
      links = rw (move_to_front_item k item c v e) (
          Linked-rewrite c.entries ((k, item.element) ∷ delete k c.order) c.next_element
            (Linked-front c.entries c.order c.next_element v.links k item e) k item _ e refl);
      positive = v.positive;
      bounded = rw (length-insert_present k _ item c.entries e) v.bounded;
    };
    shows =
        rw (move_to_front_item k item c v e, lookup-insert_self)
          (ap (◌∷◌ (k, entry)) (view_rest _) ∙ sym (take_of_length-le _ _ (fits item e)));
  }

  push_entry-Linked :
      lookup k c.entries ≡ none
      → Linked
          (push_entry now k model c).entries
          (push_entry now k model c).order
          (suc c.next_element)
  unfolding push_entry
  push_entry-Linked e = Linked-push c.entries c.order c.next_element v.links k _ e refl

  push_entry-view :
      lookup k c.entries ≡ none → view (push_entry now k model c) ≡ (k, entry) ∷ delete k (view c)
  unfolding push_entry view_list entry_of
  push_entry-view e = rw lookup-insert_self (
      ap (◌∷◌ (k, entry)) (
        view_list-congr _ c.entries k c.order (λ j d. lookup-insert_ne k j _ c.entries d)
          (sym (v.links.linked k) ∙ ap element_of e)
        ∙ sym (delete_absent k (view c) (lookup-view c k none v e))))

evict_stop :
    (fuel : ℕ) (c : DecisionCache) → length c.entries ≤ c.max_entries → evict (suc fuel) c ≡ some c
unfolding evict
evict_stop fuel c h = ground arith

evict_round :
    (fuel : ℕ) (c : DecisionCache) {d : DecisionCache}
    → c.max_entries < length c.entries
    → evict_oldest c (back c.order) ≡ some d
    → evict (suc fuel) c ≡ evict fuel d
unfolding evict
evict_round fuel c h e = ground (arith, e)

module _ (c : DecisionCache) (l : Linked c.entries c.order c.next_element) where
  abbrev dropped : Bytes → DecisionCache
  dropped k = record c {
    entries = delete k c.entries;
    order = delete k c.order;
    stats = record c.stats { evictions = inc c.stats.evictions };
  }

  -- the round of the loop that drops the entry at the back
  evict_back :
      (k : Bytes) (i : ℕ) (o : Option CacheItem)
      → lookup k c.order ≡ some i
      → lookup k c.entries ≡ o
      → (item : CacheItem) × (lookup k c.entries ≡ some item)
        × (evict_oldest c (some (k, i)) ≡ some (dropped k))
  unfolding evict_oldest
  evict_back k i none found e = absurd (ground (arith, l.linked k, e))
  evict_back k i (some item) found e = (
    item,
    e,
    rw (
      e,
      remove_element-delete k item.element c.order l.distinct
          (in_order c.entries c.order c.next_element l k item e),
    ),
  )

  view-dropped :
      (k : Bytes) (n : ℕ) → delete k c.order ≡ take n c.order → view (dropped k) ≡ take n (view c)
  view-dropped k n cut =
      view_list-congr (delete k c.entries) c.entries k (delete k c.order)
        (λ j d. ground (arith, d, lookup-delete k j c.entries l.unique_entries))
        (gone c.entries c.order c.next_element l k)
      ∙ ap (view_list c.entries) cut
      ∙ view_list-take c.entries n c.order

  -- One round is enough: a cache with one entry too many loses its least recent one.
  evict_one :
      (fuel : ℕ)
      → 0 < c.max_entries
      → length c.entries ≡ suc c.max_entries
      → (d : DecisionCache) × (evict (suc (suc fuel)) c ≡ some d)
        × Shows d (take c.max_entries (view c))
  evict_one fuel pos size =
      let (b, at_back, found, cut) =
        back-take c.max_entries c.order l.unique_order (omega (arith, l.same_size)) in
      let (item, e, ran) = evict_back b.0 b.1 (lookup b.0 c.entries) found refl in
      let bound : length (delete b.0 c.entries) ≤ c.max_entries =
        omega (arith, length-delete_present b.0 item c.entries e) in
      (
        dropped b.0,
        evict_round (suc fuel) c {d = dropped b.0} (omega arith) (rw at_back ran)
            ∙ evict_stop fuel (dropped b.0) bound,
        record {
          valid = record {
            links = Linked-delete c.entries c.order c.next_element l b.0 item e;
            positive = pos;
            bounded = bound;
          };
          shows = view-dropped b.0 c.max_entries cut;
        },
      )

module _ (now : ℕ) (k model : Bytes) (c : DecisionCache) (v : IsValid c)
    (e : lookup k c.entries ≡ none) where
  abbrev pushed : DecisionCache
  pushed = push_entry now k model c

  length-pushed : length pushed.entries ≡ suc (length c.entries)
  unfolding push_entry
  length-pushed = length-insert_absent k _ c.entries e

  pushed-max : pushed.max_entries ≡ c.max_entries
  unfolding push_entry
  pushed-max = refl

  pushed_links : Linked pushed.entries pushed.order pushed.next_element
  unfolding push_entry
  pushed_links = push_entry-Linked now k model c v e

  pushed-view :
      view pushed ≡ (k, record { model = model; expires_at = now + c.ttl }) ∷ delete k (view c)
  pushed-view = push_entry-view now k model c v e

  length-pushed-view : length (view pushed) ≡ suc (length c.entries)
  length-pushed-view =
      length-view_list pushed.entries pushed.order ∙ sym pushed_links.same_size ∙ length-pushed

  push_fits :
      suc (length c.entries) ≤ c.max_entries → Shows pushed (take c.max_entries (view pushed))
  push_fits h = record {
    valid = record {
      links = pushed_links;
      positive = omega (arith, pushed-max, v.positive);
      bounded = omega (arith, pushed-max, length-pushed);
    };
    shows = sym (take_of_length-le c.max_entries (view pushed) (omega (arith, length-pushed-view)));
  }

  -- the loop behind a new entry: no round, or one
  push-Shows :
      (d : DecisionCache) × (evict (suc (length pushed.entries)) pushed ≡ some d)
      × Shows d
          (spec_set c.max_entries k (record { model = model; expires_at = now + c.ttl }) (view c))
  push-Shows = elim (Bool-cases (ltb (length c.entries) c.max_entries)) [
    | inl room ↦ (
      pushed,
      evict_stop (length pushed.entries) pushed (ground (arith, pushed-max, length-pushed)),
      rw pushed-view at (push_fits (ground arith)),
    )
    | inr full ↦
        let (d, ran, shown) =
          evict_one pushed pushed_links (length c.entries) (omega (arith, pushed-max, v.positive))
            (ground (arith, pushed-max, length-pushed, v.bounded)) in
        (d, rw length-pushed ran, rw (pushed-max, pushed-view) at shown)
  ]

-- `set` ends, keeps the cache valid, and does what the specification says.
pub set-Shows :
    (now : ℕ) (k model : Bytes) (c : DecisionCache)
    → IsValid c
    → c.enabled ≡ true
    → (d : DecisionCache) × (set now k model c ≡ some d)
      × Shows d
          (spec_set c.max_entries k (record { model = model; expires_at = now + c.ttl }) (view c))
unfolding set
set-Shows now k model c v on = elim (Option-cases (lookup k c.entries)) [
  | inr (item, e) ↦ (refresh now k model item c, simp (on, e), refresh-Shows now k model c v item e)
  | inl e ↦ let (d, ran, shown) = push-Shows now k model c v e in (d, simp (on, e, ran), shown)
]
