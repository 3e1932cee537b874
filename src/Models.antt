-- ===== src/Models.antt =====
-- internal/models/models.go: what is known of a model, the collection of models by name with its
-- filters, and the test for reasoning models by name. `is_json` is `json.Unmarshal` into a raw
-- message.
pub mod Filters
use pi_pi_mink.Prelude.{
  ℕ, Bool, true, false, ◌&&◌, ◌||◌, not, Option, none, some, List, [], ◌∷◌, if◌then◌else◌, length,
  any,
}
use pi_pi_mink.Prelude.Int.{ℤ}
use pi_pi_mink.Prelude.Text.{Bytes, codes, str_eq, is_empty, has_prefix, contains, to_lower}
use pi_pi_mink.Prelude.Dict.{Dict, lookup, insert, delete}

-- The scores of `BenchmarkScores` are kept as the bits of their float64.
pub record ModelInfo : Type 0 where
  pub source : Bytes
  pub tags : Bytes
  pub response : Bytes
  pub enabled : Bool
  pub has_reasoning : Bool
  pub updated_at : Bytes
  pub benchmark_scores : Dict ℕ
  pub avg_latency_ms : Option ℤ

-- `ValidateJSONTags`
abbrev pub validate_json_tags : (Bytes → Bool) → Bytes → Bytes
validate_json_tags is_json tags =
    if is_empty tags then codes "{}" else if not (is_json tags) then codes "{}" else tags

-- `ModelCollection`: the map that is its only field
abbrev pub ModelCollection : Type 0
ModelCollection = Dict ModelInfo

-- `NewModelCollection`
abbrev pub new_model_collection : ModelCollection
new_model_collection = []

-- the methods of the collection
abbrev pub add_model : Bytes → ModelInfo → ModelCollection → ModelCollection
add_model name info c = insert name info c

abbrev pub get_model : Bytes → ModelCollection → Option ModelInfo
get_model name c = lookup name c

abbrev pub update_model : Bytes → ModelInfo → ModelCollection → ModelCollection
update_model name info c = insert name info c

abbrev pub remove_model : Bytes → ModelCollection → ModelCollection
remove_model name c = delete name c

abbrev pub model_count : ModelCollection → ℕ
model_count c = length c

-- A row of the database as `FromDatabaseMap` takes it: a column is `none` if it is absent or nil.
pub record Row : Type 0 where
  pub source : Option Bytes
  pub tags : Option Bytes
  pub response : Option Bytes
  pub enabled : Option Bool
  pub has_reasoning : Option Bool
  pub updated_at : Option Bytes

abbrev pub get_or {ℓ} : {A : Type ℓ} → A → Option A → A
get_or d none = d
get_or d (some x) = x

-- the body of the loop of `FromDatabaseMap`
abbrev pub model_of_row : Row → ModelInfo
model_of_row row = record {
  source = get_or [] row.source;
  tags = get_or (codes "{}") row.tags;
  response = get_or [] row.response;
  enabled = get_or false row.enabled;
  has_reasoning = get_or false row.has_reasoning;
  updated_at = get_or [] row.updated_at;
  benchmark_scores = [];
  avg_latency_ms = none;
}

-- `FromDatabaseMap`
unfoldable pub from_database_map : Dict Row → ModelCollection → ModelCollection
from_database_map [] c = c
from_database_map ((name, row) ∷ rows) c = from_database_map rows (insert name (model_of_row row) c)

-- the loop of the three filters
unfoldable pub filter_models : (ModelInfo → Bool) → ModelCollection → Dict ModelInfo
filter_models keep [] = []
filter_models keep ((name, info) ∷ c) =
    let rest = filter_models keep c in if keep info then (name, info) ∷ rest else rest

-- `GetEnabledModels`
abbrev pub get_enabled_models : ModelCollection → Dict ModelInfo
get_enabled_models = filter_models (λ info. info.enabled)

-- `GetReasoningModels`
abbrev pub get_reasoning_models : ModelCollection → Dict ModelInfo
get_reasoning_models = filter_models (λ info. info.has_reasoning && info.enabled)

-- `GetNonReasoningModels`
abbrev pub get_non_reasoning_models : ModelCollection → Dict ModelInfo
get_non_reasoning_models = filter_models (λ info. not info.has_reasoning && info.enabled)

-- `IsReasoningModel`
unfoldable pub is_reasoning_model : Bytes → Bool
is_reasoning_model name =
    let model = to_lower name in
    if str_eq model (codes "o1-mini")
      || has_prefix (codes "o1-") model
      || has_prefix (codes "o1-preview") model
      || str_eq model (codes "o1")
      || str_eq model (codes "o3-mini-2025-01-31")
      || str_eq model (codes "o3-mini")
      || str_eq model (codes "o1-2024-12-17")
      || str_eq model (codes "o4")
      || str_eq model (codes "o4-mini")
      || str_eq model (codes "o4-mini-2025-04-16")
    then true
    else contains (codes "reasoning") model
      || contains (codes "think") model
      || contains (codes "cot") model
