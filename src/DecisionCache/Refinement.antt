-- ===== src/DecisionCache/Refinement.antt =====
-- The cache against its specification: a list of live entries, the most recently used first.
use pi_pi_mink.Prelude.{
  ℕ, zero, suc, ◌≡◌, refl, ap, ◌∙◌, true, false, Option, none, some, [], ◌∷◌, length, take, arith,
  inl, inr, if◌then◌else◌, Bool-cases, ltb,
}
use pi_pi_mink.Prelude.Text.{Bytes, str_eq, str_eq_iff}
use pi_pi_mink.Prelude.Dict.{Dict, lookup, delete, lookup-delete}
use pi_pi_mink.DecisionCache.{
  CacheItem, CacheLookupStatus, hit, miss, expired, DecisionCache, get_locked, get_with_status,
  remove_item, move_to_front, CacheStats,
}
use pi_pi_mink.DecisionCache.Invariant.{
  IsValid, move_to_front_item, remove_element_item, remove_item-IsValid, front-IsValid,
}

-- a decision and when it expires
pub record Entry : Type 0 where
  pub model : Bytes
  pub expires_at : ℕ

unfoldable pub entry_of : Option CacheItem → Entry
entry_of none = record { model = []; expires_at = 0 }
entry_of (some item) = record { model = item.model; expires_at = item.expires_at }

-- The entries in the order of their last use. A key of the list that the map lacks would read as
-- the empty entry; in a valid cache there is none.
unfoldable pub view_list : Dict CacheItem → Dict ℕ → Dict Entry
view_list entries [] = []
view_list entries ((k, i) ∷ o) = (k, entry_of (lookup k entries)) ∷ view_list entries o

abbrev pub view : DecisionCache → Dict Entry
view c = view_list c.entries c.order

-- The specification of a lookup: an entry past its time is dropped, any other moves to the front.
abbrev pub spec_found :
    ℕ → Bytes → Option Entry → Dict Entry → Dict Entry × (Option Bytes × CacheLookupStatus)
spec_found now k none l = (l, (none, miss))
spec_found now k (some x) l =
    if ltb x.expires_at now
    then (delete k l, (none, expired))
    else ((k, x) ∷ delete k l, (some x.model, hit))

abbrev pub spec_get : ℕ → Bytes → Dict Entry → Dict Entry × (Option Bytes × CacheLookupStatus)
spec_get now k l = spec_found now k (lookup k l) l

-- The specification of a write: to the front, and keep what fits.
abbrev pub spec_set : ℕ → Bytes → Entry → Dict Entry → Dict Entry
spec_set room k x l = take room ((k, x) ∷ delete k l)

pub view_list-delete :
    (e : Dict CacheItem) (k : Bytes) (o : Dict ℕ)
    → view_list e (delete k o) ≡ delete k (view_list e o)
unfolding view_list delete
view_list-delete e k [] = refl
view_list-delete e k ((j, i) ∷ o) = ground (arith, view_list-delete e k o)

-- what the map holds for keys that the list lacks does not show
pub view_list-congr :
    (e f : Dict CacheItem) (k : Bytes) (o : Dict ℕ)
    → ((j : Bytes) → str_eq k j ≡ false → lookup j e ≡ lookup j f)
    → lookup k o ≡ none
    → view_list e o ≡ view_list f o
unfolding view_list lookup
view_list-congr e f k [] h a = refl
view_list-congr e f k ((j, i) ∷ o) h a =
    ground (arith, h j, view_list-congr e f k o h, str_eq_iff j k, str_eq_iff k j)

pub length-view_list : (e : Dict CacheItem) (o : Dict ℕ) → length (view_list e o) ≡ length o
unfolding view_list
length-view_list e [] = refl
length-view_list e (x ∷ o) = ap suc (length-view_list e o)

pub view_list-take :
    (e : Dict CacheItem) (n : ℕ) (o : Dict ℕ) → view_list e (take n o) ≡ take n (view_list e o)
unfolding view_list
view_list-take e zero o = refl
view_list-take e (suc n) [] = refl
view_list-take e (suc n) ((k, i) ∷ o) = ap (◌∷◌ (k, entry_of (lookup k e))) (view_list-take e n o)

lookup-view_list :
    (e : Dict CacheItem) (k : Bytes) (o : Dict ℕ)
    → lookup k (view_list e o)
      ≡ elim (lookup k o) [ none ↦ none | some i ↦ some (entry_of (lookup k e)) ]
unfolding view_list lookup
lookup-view_list e k [] = refl
lookup-view_list e k ((j, i) ∷ o) = ground (arith, lookup-view_list e k o, str_eq_iff j k)

-- the two sides of a cache that is valid, and shows the entries `l`
pub record Shows (c : DecisionCache) (l : Dict Entry) : Type 0 where
  pub valid : IsValid c
  pub shows : view c ≡ l

-- the counters play no part
Shows-stats :
    {l : Dict Entry} (s : CacheStats) (c : DecisionCache)
    → Shows c l
    → Shows (record c { stats = s }) l
Shows-stats s c h = record {
  valid = record { links = h.valid.links; positive = h.valid.positive; bounded = h.valid.bounded };
  shows = h.shows;
}

pub lookup-view :
    (c : DecisionCache) (k : Bytes) (o : Option CacheItem)
    → IsValid c
    → lookup k c.entries ≡ o
    → lookup k (view c) ≡ elim o [ none ↦ none | some item ↦ some (entry_of (some item)) ]
lookup-view c k none v e = ground (arith, lookup-view_list c.entries k c.order, v.links.linked k)
lookup-view c k (some item) v e =
    ground (arith, lookup-view_list c.entries k c.order, v.links.linked k, ap entry_of e)

module _ (now : ℕ) (k : Bytes) (c : DecisionCache) (v : IsValid c) where
  view-delete :
      (item : CacheItem)
      → lookup k c.entries ≡ some item
      → view_list (delete k c.entries) (delete k c.order) ≡ delete k (view c)
  view-delete item e =
      view_list-congr (delete k c.entries) c.entries k (delete k c.order)
        (λ j d. ground (arith, d, lookup-delete k j c.entries v.links.unique_entries))
        (ground (arith, lookup-delete k k c.order v.links.unique_order, str_eq_iff k k))
      ∙ view_list-delete c.entries k c.order

  removed :
      (item : CacheItem)
      → lookup k c.entries ≡ some item
      → Shows (remove_item k item c) (delete k (view c))
  unfolding remove_item
  removed item e = record {
    valid = remove_item-IsValid k item c v e;
    shows = rw (remove_element_item k item c v e) (view-delete item e);
  }

  fronted :
      (item : CacheItem)
      → lookup k c.entries ≡ some item
      → Shows
          (record c { order = move_to_front item.element c.order })
          ((k, entry_of (some item)) ∷ delete k (view c))
  unfolding view_list
  fronted item e = record {
    valid = front-IsValid k item c v e;
    shows =
        rw (move_to_front_item k item c v e, e)
          (ap (◌∷◌ (k, entry_of (some item))) (view_list-delete c.entries k c.order));
  }

  get_locked-Shows :
      (o : Option CacheItem)
      → lookup k c.entries ≡ o
      → Shows (get_locked now k o c).0 (spec_get now k (view c)).0
        × ((get_locked now k o c).1 ≡ (spec_get now k (view c)).1)
  unfolding get_locked
  get_locked-Shows none e =
      rw (lookup-view c k none v e) (Shows-stats _ c (record { valid = v; shows = refl }), refl)
  get_locked-Shows (some item) e = elim (Bool-cases (ltb item.expires_at now)) [
    | inl late ↦
        rw (lookup-view c k (some item) v e)
          (unfold entry_of in rw late (Shows-stats _ (remove_item k item c) (removed item e), refl))
    | inr live ↦ rw (lookup-view c k (some item) v e) (
        unfold entry_of in
        rw live (
          Shows-stats _ (record c { order = move_to_front item.element c.order }) (fronted item e),
          refl,
        ))
  ]

  -- A lookup does what the specification says, and keeps the cache valid.
  pub get_with_status-Shows :
      c.enabled ≡ true
      → Shows (get_with_status now k c).0 (spec_get now k (view c)).0
        × ((get_with_status now k c).1 ≡ (spec_get now k (view c)).1)
  unfolding get_with_status
  get_with_status-Shows on = simp on (get_locked-Shows (lookup k c.entries) refl)
