-- ===== src/Models/Filters.antt =====
-- What the filters keep.
use pi_pi_mink.Prelude.{
  ◌+◌, Bool, ◌&&◌, not, Option, none, some, [], ◌∷◌, ◌≡◌, refl, arith, if◌then◌else◌, length,
}
use pi_pi_mink.Prelude.Text.{Bytes, str_eq_iff}
use pi_pi_mink.Prelude.Dict.{Dict, lookup, insert, Unique, lookup-insert}
use pi_pi_mink.Models.{
  ModelInfo, ModelCollection, filter_models, get_enabled_models, get_reasoning_models,
  get_non_reasoning_models, Row, model_of_row, from_database_map,
}

-- the entry that a filter leaves
abbrev pub kept : (ModelInfo → Bool) → Option ModelInfo → Option ModelInfo
kept keep none = none
kept keep (some info) = if keep info then some info else none

filter_models_absent :
    (keep : ModelInfo → Bool) (k : Bytes) (c : ModelCollection)
    → lookup k c ≡ none
    → lookup k (filter_models keep c) ≡ none
unfolding lookup filter_models
filter_models_absent keep k [] h = refl
filter_models_absent keep k ((j, info) ∷ c) h = ground (arith, filter_models_absent keep k c)

pub lookup-filter_models :
    (keep : ModelInfo → Bool) (k : Bytes) (c : ModelCollection)
    → Unique c
    → lookup k (filter_models keep c) ≡ kept keep (lookup k c)
unfolding lookup filter_models
lookup-filter_models keep k [] u = refl
lookup-filter_models keep k ((j, info) ∷ c) u =
    ground
      (arith, lookup-filter_models keep k c u.1, filter_models_absent keep j c u.0, str_eq_iff j k)

length-filter_models :
    (c : ModelCollection)
    → length (get_reasoning_models c) + length (get_non_reasoning_models c)
      ≡ length (get_enabled_models c)
unfolding filter_models
length-filter_models [] = refl
length-filter_models ((j, info) ∷ c) = ground (arith, length-filter_models c)

-- In a collection, which has each name once, `GetEnabledModels`, `GetReasoningModels` and
-- `GetNonReasoningModels` have under a name the model of the collection if it passes, and nothing
-- otherwise; and the enabled models are as many as the reasoning and the other models together.
pub models_partition :
    (c : ModelCollection) (k : Bytes)
    → Unique c
    → (lookup k (get_enabled_models c) ≡ kept (λ info. info.enabled) (lookup k c))
      × ((lookup k (get_reasoning_models c)
            ≡ kept (λ info. info.has_reasoning && info.enabled) (lookup k c))
          × ((lookup k (get_non_reasoning_models c)
                ≡ kept (λ info. not info.has_reasoning && info.enabled) (lookup k c))
              × (length (get_reasoning_models c) + length (get_non_reasoning_models c)
                  ≡ length (get_enabled_models c))))
models_partition c k u = (
  lookup-filter_models (λ info. info.enabled) k c u,
  (
    lookup-filter_models (λ info. info.has_reasoning && info.enabled) k c u,
    (
      lookup-filter_models (λ info. not info.has_reasoning && info.enabled) k c u,
      length-filter_models c,
    ),
  ),
)

-- the model that the rows have for a name, or else the one of before
abbrev pub from_rows : Option Row → Option ModelInfo → Option ModelInfo
from_rows none before = before
from_rows (some row) before = some (model_of_row row)

from_database_map_absent :
    (k : Bytes) (rows : Dict Row) (c : ModelCollection)
    → lookup k rows ≡ none
    → lookup k (from_database_map rows c) ≡ lookup k c
unfolding lookup from_database_map
from_database_map_absent k [] c h = refl
from_database_map_absent k ((j, row) ∷ rows) c h = ground (
  arith,
  from_database_map_absent k rows (insert j (model_of_row row) c),
  lookup-insert j k (model_of_row row) c,
)

-- After `FromDatabaseMap`, a name stands for the model of its row, with the defaults for the
-- columns that are absent or nil; a name without a row stands for what it stood for before.
pub lookup-from_database_map :
    (k : Bytes) (rows : Dict Row) (c : ModelCollection)
    → Unique rows
    → lookup k (from_database_map rows c) ≡ from_rows (lookup k rows) (lookup k c)
unfolding lookup from_database_map
lookup-from_database_map k [] c u = refl
lookup-from_database_map k ((j, row) ∷ rows) c u = ground (
  arith,
  lookup-from_database_map k rows (insert j (model_of_row row) c) u.1,
  lookup-insert j k (model_of_row row) c,
  str_eq_iff j k,
  from_database_map_absent k rows (insert j (model_of_row row) c),
)
