-- ===== src/CacheKey.antt =====
-- `buildDecisionCacheKey` of internal/llm/decision_cache.go. `digest` is the hex SHA-256 of the
-- JSON of the payload; it is `none` where encoding fails.
pub mod Order
use pi_pi_mink.Prelude.{
  Bool, true, false, ◌||◌, ◌&&◌, Option, List, [], ◌∷◌, ◌++◌, if◌then◌else◌, ◌==◌, ltb,
}
use pi_pi_mink.Prelude.Text.{Bytes, is_empty, is_space, trim_space}
use pi_pi_mink.Prelude.Dict.{Dict}
use pi_pi_mink.Models.{ModelInfo}

pub record CacheModel : Type 0 where
  pub name : Bytes
  pub source : Bytes
  pub tags : Bytes
  pub enabled : Bool
  pub has_reasoning : Bool

-- `strings.Fields`, with the word that is being read
unfoldable pub fields_from : Bytes → Bytes → List Bytes
fields_from word [] = if is_empty word then [] else word ∷ []
fields_from word (c ∷ s) = elim (is_space c) [
  | true ↦ if is_empty word then fields_from [] s else word ∷ fields_from [] s
  | false ↦ fields_from (word ++ c ∷ []) s
]

-- `strings.Join(words, " ")`
unfoldable pub join_words : List Bytes → Bytes
join_words [] = []
join_words (w ∷ []) = w
join_words (w ∷ v ∷ ws) = w ++ b' ' ∷ join_words (v ∷ ws)

-- the normalised message
unfoldable pub normalized : Bytes → Bytes
unfolding fields_from join_words
normalized message = join_words (fields_from [] (trim_space message))

-- `a < b` on strings
unfoldable pub str_lt : Bytes → Bytes → Bool
str_lt a [] = false
str_lt [] (y ∷ b) = true
str_lt (x ∷ a) (y ∷ b) = ltb x y || (x == y && str_lt a b)

abbrev pub item_of : Bytes → ModelInfo → CacheModel
item_of name info = record {
  name = name;
  source = info.source;
  tags = info.tags;
  enabled = info.enabled;
  has_reasoning = info.has_reasoning;
}

-- `sort.Slice` by name, the loop over the map before it included; the names of a map differ
unfoldable pub insert_sorted : CacheModel → List CacheModel → List CacheModel
insert_sorted m [] = m ∷ []
insert_sorted m (n ∷ ns) = if str_lt n.name m.name then n ∷ insert_sorted m ns else m ∷ n ∷ ns

unfoldable pub sorted_items : Dict ModelInfo → List CacheModel
unfolding insert_sorted
sorted_items [] = []
sorted_items ((name, info) ∷ models) = insert_sorted (item_of name info) (sorted_items models)

-- `buildDecisionCacheKey`
unfoldable pub build_decision_cache_key :
    (Bytes → List CacheModel → Option Bytes) → Bytes → Dict ModelInfo → Option Bytes
build_decision_cache_key digest message models = digest (normalized message) (sorted_items models)
