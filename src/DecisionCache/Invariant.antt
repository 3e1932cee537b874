-- ===== src/DecisionCache/Invariant.antt =====
-- The invariant that ties the map of the cache to its list.
use pi_pi_mink.Prelude.{
  ℕ, zero, suc, ◌≤◌, ◌<◌, ◌≡◌, refl, ap, sym, ◌∙◌, Option, none, some, [], ◌∷◌, length, All, arith,
  if◌then◌else◌,
}
use pi_pi_mink.Prelude.Int.{ℤ, pos, negsuc, is_pos, to_ℕ}
use pi_pi_mink.Prelude.Text.{Bytes, str_eq_iff}
use pi_pi_mink.Prelude.Dict.{
  Dict, lookup, insert, delete, Unique, lookup-cons, lookup-insert, lookup-delete, insert-Unique,
  delete-Unique, length-insert_absent, length-insert_present, length-delete_present,
}
use pi_pi_mink.DecisionCache.{
  CacheItem, CacheConfig, DecisionCache, new_decision_cache, remove_item, move_to_front,
  remove_element,
}
use pi_pi_mink.DecisionCache.Order.{
  DistinctIds, remove_element-delete, move_to_front-delete, All-delete, delete-DistinctIds,
  delete-NotId, NotId-of_fresh, All-lt_suc, fresh_of_lookup,
}

abbrev pub element_of : Option CacheItem → Option ℕ
element_of none = none
element_of (some item) = some item.element

-- The map and the list have the same keys, and each item points to the element of its key.
pub record Linked (entries : Dict CacheItem) (order : Dict ℕ) (n : ℕ) : Type 0 where
  pub unique_entries : Unique entries
  pub unique_order : Unique order
  pub distinct : DistinctIds order
  pub fresh : All (λ e. e.1 < n) order
  pub same_size : length entries ≡ length order
  pub linked : (k : Bytes) → element_of (lookup k entries) ≡ lookup k order

pub record IsValid (c : DecisionCache) : Type 0 where
  pub links : Linked c.entries c.order c.next_element
  pub positive : 0 < c.max_entries
  pub bounded : length c.entries ≤ c.max_entries

module _ (entries : Dict CacheItem) (order : Dict ℕ) (n : ℕ) (h : Linked entries order n) where
  pub in_order :
      (k : Bytes) (item : CacheItem)
      → lookup k entries ≡ some item
      → lookup k order ≡ some item.element
  in_order k item e = sym (h.linked k) ∙ ap element_of e

  pub Linked-delete :
      (k : Bytes) (item : CacheItem)
      → lookup k entries ≡ some item
      → Linked (delete k entries) (delete k order) n
  Linked-delete k item e = record {
    unique_entries = delete-Unique k entries h.unique_entries;
    unique_order = delete-Unique k order h.unique_order;
    distinct = delete-DistinctIds k order h.distinct;
    fresh = All-delete (λ x. x.1 < n) k order h.fresh;
    same_size = omega (
      arith,
      length-delete_present k item entries e,
      length-delete_present k item.element order (in_order k item e),
      h.same_size,
    );
    linked = λ j. ground (
      arith,
      lookup-delete k j entries h.unique_entries,
      lookup-delete k j order h.unique_order,
      h.linked j,
    );
  }

  pub gone : (k : Bytes) → lookup k (delete k order) ≡ none
  gone k = ground (arith, lookup-delete k k order h.unique_order, str_eq_iff k k)

  -- an element that moves to the front
  pub Linked-front :
      (k : Bytes) (item : CacheItem)
      → lookup k entries ≡ some item
      → Linked entries ((k, item.element) ∷ delete k order) n
  Linked-front k item e = record {
    unique_entries = h.unique_entries;
    unique_order = (gone k, delete-Unique k order h.unique_order);
    distinct = (
      delete-NotId k item.element order h.distinct (in_order k item e),
      delete-DistinctIds k order h.distinct,
    );
    fresh = (
      fresh_of_lookup k item.element n order h.fresh (in_order k item e),
      All-delete (λ x. x.1 < n) k order h.fresh,
    );
    same_size =
        omega (arith, length-delete_present k item.element order (in_order k item e), h.same_size);
    linked = λ j. ground (
      arith,
      lookup-cons k j item.element (delete k order),
      lookup-delete k j order h.unique_order,
      h.linked j,
      str_eq_iff k j,
    );
  }

  -- an item that is written again keeps its element
  pub Linked-rewrite :
      (k : Bytes) (old item : CacheItem)
      → lookup k entries ≡ some old
      → item.element ≡ old.element
      → Linked (insert k item entries) order n
  Linked-rewrite k old item e same = record {
    unique_entries = insert-Unique k item entries h.unique_entries;
    unique_order = h.unique_order;
    distinct = h.distinct;
    fresh = h.fresh;
    same_size = omega (arith, length-insert_present k item old entries e, h.same_size);
    linked = λ j.
        ground
          (arith, lookup-insert k j item entries, in_order k old e, h.linked j, str_eq_iff k j);
  }

  pub Linked-push :
      (k : Bytes) (item : CacheItem)
      → lookup k entries ≡ none
      → item.element ≡ n
      → Linked (insert k item entries) ((k, n) ∷ order) (suc n)
  Linked-push k item e same = record {
    unique_entries = insert-Unique k item entries h.unique_entries;
    unique_order = (sym (h.linked k) ∙ ap element_of e, h.unique_order);
    distinct = (NotId-of_fresh n order h.fresh, h.distinct);
    fresh = (omega arith, All-lt_suc n order h.fresh);
    same_size = omega (arith, length-insert_absent k item entries e, h.same_size);
    linked =
        λ j. ground (arith, lookup-insert k j item entries, lookup-cons k j n order, h.linked j);
  }

empty_links : Linked [] [] 0
unfolding lookup
empty_links = record {
  unique_entries = tt;
  unique_order = tt;
  distinct = tt;
  fresh = tt;
  same_size = refl;
  linked = λ k. refl;
}

room_of : ℤ → ℕ
room_of n = if is_pos n then to_ℕ n else 1000

room_pos : (n : ℤ) → 0 < room_of n
unfolding room_of
room_pos (pos zero) = omega arith
room_pos (pos (suc n)) = omega arith
room_pos (negsuc n) = omega arith

-- The settings never make a cache without room, whatever the configuration says.
pub new_decision_cache-IsValid : (cfg : Option CacheConfig) → IsValid (new_decision_cache cfg)
unfolding new_decision_cache
new_decision_cache-IsValid none = record {
  links = empty_links;
  positive = omega arith;
  bounded = omega arith;
}
new_decision_cache-IsValid (some cfg) = record {
  links = empty_links;
  positive = unfold room_of in room_pos cfg.max_entries;
  bounded = omega arith;
}

module _ (k : Bytes) (item : CacheItem) (c : DecisionCache) (v : IsValid c) where
  module _ (e : lookup k c.entries ≡ some item) where
    pub remove_element_item : remove_element item.element c.order ≡ delete k c.order
    remove_element_item =
        remove_element-delete k item.element c.order v.links.distinct
          (in_order c.entries c.order c.next_element v.links k item e)

    -- `removeItem` drops the key from the map and from the list
    pub remove_item-delete :
        remove_item k item c ≡ record c { entries = delete k c.entries; order = delete k c.order }
    unfolding remove_item
    remove_item-delete = rw remove_element_item

    pub move_to_front_item :
        move_to_front item.element c.order ≡ (k, item.element) ∷ delete k c.order
    move_to_front_item =
        move_to_front-delete k item.element c.order v.links.distinct
          (in_order c.entries c.order c.next_element v.links k item e)

    pub remove_item-IsValid : IsValid (remove_item k item c)
    remove_item-IsValid = rw remove_item-delete (record {
      links = Linked-delete c.entries c.order c.next_element v.links k item e;
      positive = v.positive;
      bounded = omega (arith, length-delete_present k item c.entries e, v.bounded);
    })

    pub front-IsValid : IsValid (record c { order = move_to_front item.element c.order })
    front-IsValid = record {
      links =
          rw move_to_front_item (Linked-front c.entries c.order c.next_element v.links k item e);
      positive = v.positive;
      bounded = v.bounded;
    }
