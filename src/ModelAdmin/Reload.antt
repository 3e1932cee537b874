-- ===== src/ModelAdmin/Reload.antt =====
-- The collection that is loaded from the database, with what was measured of its models.
use pi_pi_mink.Prelude.{
  ℕ, true, false, ◌⊎◌, inl, inr, Option, none, some, [], ◌∷◌, ◌++◌, ◌≡◌, refl, arith, if◌then◌else◌,
  ltb, length,
}
use pi_pi_mink.Prelude.Int.{ℤ}
use pi_pi_mink.Prelude.Text.{Bytes, codes, str_eq_iff}
use pi_pi_mink.Prelude.Dict.{Dict, lookup, Unique}
use pi_pi_mink.Models.{ModelInfo, ModelCollection, Row, get_or, from_database_map}
use pi_pi_mink.Models.Filters.{lookup-from_database_map, from_rows}
use pi_pi_mink.ModelAdmin.{enriched, enrich_all, scores_of, latency_of, load_models_from_database}

-- the model that a name stands for, with what was measured of it
abbrev pub enriched_model :
    Option (Dict (Dict ℕ)) → Option (Dict ℤ) → Bytes → Option ModelInfo → Option ModelInfo
enriched_model scores latencies name none = none
enriched_model scores latencies name (some info) = some (enriched scores latencies name info)

lookup-enrich_all :
    (scores : Option (Dict (Dict ℕ))) (latencies : Option (Dict ℤ)) (k : Bytes)
    (c : ModelCollection)
    → lookup k (enrich_all scores latencies c) ≡ enriched_model scores latencies k (lookup k c)
unfolding lookup enrich_all
lookup-enrich_all scores latencies k [] = refl
lookup-enrich_all scores latencies k ((j, info) ∷ c) =
    ground (arith, lookup-enrich_all scores latencies k c, str_eq_iff j k)

lookup-load_models_from_database :
    (rows : Dict Row) (scores : Option (Dict (Dict ℕ))) (latencies : Option (Dict ℤ))
    (old : ModelCollection) (k : Bytes)
    → Unique rows
    → lookup k (load_models_from_database (some rows) scores latencies old).0
      ≡ enriched_model scores latencies k (from_rows (lookup k rows) none)
unfolding load_models_from_database lookup
lookup-load_models_from_database rows scores latencies old k u =
    rw
      (
        lookup-enrich_all scores latencies k (from_database_map rows []),
        lookup-from_database_map k rows [] u,
      )
      refl

-- `value` is what the cell holds, or `default` if there is nothing
abbrev pub Shows {ℓ} : {A : Type ℓ} → A → Option A → A → Type ℓ
Shows default cell value = (cell ≡ some value) ⊎ ((cell ≡ none) × (value ≡ default))

-- the same for a table of measurements, which may not have been loaded
abbrev pub Measures : {A : Type 0} → A → Bytes → Option (Dict A) → A → Type 0
Measures default key none value = value ≡ default
Measures default key (some table) value = Shows default (lookup key table) value

abbrev Cells : {A : Type 0} → Bytes → Option (Dict A) → Option A → Type 0
Cells key none value = value ≡ none
Cells key (some table) value = value ≡ lookup key table

-- The model that a reload makes of a row: the columns with their defaults, the scores and the latency
-- that are measured of the name and the source.
pub record Reloaded (name : Bytes) (row : Row) (scores : Option (Dict (Dict ℕ)))
    (latencies : Option (Dict ℤ)) (info : ModelInfo) : Type 0 where
  pub source : Shows [] row.source info.source
  pub tags : Shows (codes "{}") row.tags info.tags
  pub response : Shows [] row.response info.response
  pub enabled : Shows false row.enabled info.enabled
  pub has_reasoning : Shows false row.has_reasoning info.has_reasoning
  pub updated_at : Shows [] row.updated_at info.updated_at
  pub scored : Measures [] (name ++ b'|' ∷ info.source) scores info.benchmark_scores
  pub timed : Cells (name ++ b'|' ∷ info.source) latencies info.avg_latency_ms

-- a name stands for a model exactly if it has a row
abbrev pub Stands :
    Bytes → Option Row → Option (Dict (Dict ℕ)) → Option (Dict ℤ) → Option ModelInfo → Type 0
Stands name none scores latencies none = Unit
Stands name none scores latencies (some info) = ⊥
Stands name (some row) scores latencies none = ⊥
Stands name (some row) scores latencies (some info) = Reloaded name row scores latencies info

Shows-get_or {ℓ} :
    {A : Type ℓ} (default : A) (cell : Option A) → Shows default cell (get_or default cell)
Shows-get_or default none = inr (refl, refl)
Shows-get_or default (some x) = inl refl

Shows-scores :
    (cell : Option (Dict ℕ))
    → Shows [] cell
        (elim cell [ none ↦ [] | some scores ↦ if ltb 0 (length scores) then scores else [] ])
Shows-scores none = inr (refl, refl)
Shows-scores (some []) = inl refl
Shows-scores (some (x ∷ xs)) =
    let positive : ltb 0 (length (x ∷ xs)) ≡ true = ground arith in rw positive (inl refl)

Measures-scores_of :
    (key : Bytes) (scores : Option (Dict (Dict ℕ)))
    → Measures [] key scores (scores_of scores key [])
unfolding scores_of
Measures-scores_of key none = refl
Measures-scores_of key (some table) = Shows-scores (lookup key table)

Cells-latency_of :
    (key : Bytes) (latencies : Option (Dict ℤ))
    → Cells key latencies (latency_of latencies key none)
unfolding latency_of
Cells-latency_of key none = refl
Cells-latency_of key (some table) = same (lookup key table)
  where
    same : (cell : Option ℤ) → elim cell [ none ↦ none | some ms ↦ some ms ] ≡ cell
    same none = refl
    same (some ms) = refl

enriched_model-Stands :
    (name : Bytes) (row : Option Row) (scores : Option (Dict (Dict ℕ)))
    (latencies : Option (Dict ℤ))
    → Stands name row scores latencies (enriched_model scores latencies name (from_rows row none))
unfolding enriched
enriched_model-Stands name none scores latencies = tt
enriched_model-Stands name (some row) scores latencies = record {
  source = Shows-get_or [] row.source;
  tags = Shows-get_or (codes "{}") row.tags;
  response = Shows-get_or [] row.response;
  enabled = Shows-get_or false row.enabled;
  has_reasoning = Shows-get_or false row.has_reasoning;
  updated_at = Shows-get_or [] row.updated_at;
  scored = Measures-scores_of (name ++ b'|' ∷ get_or [] row.source) scores;
  timed = Cells-latency_of (name ++ b'|' ∷ get_or [] row.source) latencies;
}

-- After a reload from rows that could be read, a name stands for a model exactly if it has a row. The
-- model has the values of the columns, empty, "{}" or false where there is none, and the scores and
-- the latency that were measured under its name, a bar and its source, if there are any.
pub load_models_from_database_lem :
    (rows : Dict Row) (scores : Option (Dict (Dict ℕ))) (latencies : Option (Dict ℤ))
    (old : ModelCollection) (name : Bytes)
    → Unique rows
    → Stands name
        (lookup name rows)
        scores
        latencies
        (lookup name (load_models_from_database (some rows) scores latencies old).0)
load_models_from_database_lem rows scores latencies old name u =
    rw (lookup-load_models_from_database rows scores latencies old name u)
      (enriched_model-Stands name (lookup name rows) scores latencies)
