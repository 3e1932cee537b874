-- ===== src/ModelAdmin.antt =====
-- cmd/server/models.go: discovery, tagging and clean-up of the models, over the calls to the
-- database. A call of the database is a value, and `ok` says whether it returns no error; what the
-- database reads back is an argument. `decode` is `json.Unmarshal` into a map, `verdict_of` is
-- `GetModelTags`, and `list_models` is `GetModelsByProvider`.
pub mod Runs
pub mod Cleanup
pub mod Progress
pub mod Fetch
pub mod Reload
use pi_pi_mink.Prelude.{
  ℕ, suc, ◌+◌, Bool, true, false, ◌&&◌, ◌||◌, not, Option, none, some, List, [], ◌∷◌, ◌++◌,
  if◌then◌else◌, length, ltb,
}
use pi_pi_mink.Prelude.Int.{ℤ}
use pi_pi_mink.Prelude.Text.{Bytes, codes, str_eq, is_empty}
use pi_pi_mink.Prelude.Dict.{Dict, lookup, insert}
use pi_pi_mink.Json.{Values, end, item, Fields, get, as_array}
use pi_pi_mink.Models.{
  ModelInfo, ModelCollection, Row, from_database_map, is_reasoning_model, get_or,
}
use pi_pi_mink.Provider.{ProviderConfig}
use pi_pi_mink.Tagging.{Verdict, tags, disable, delete, fails}
use pi_pi_mink.Operation.{OperationState, new_operation, running, completed}

pub record ModelTarget : Type 0 where
  pub name : Bytes
  pub source : Bytes

-- the calls of the database that change it
pub data DbCall : Type 0 where
  register_discovered_model : Bytes → Bytes → DbCall
  save_model : Bytes → Bytes → Bytes → Bool → Bool → DbCall
  delete_model : Bytes → Bytes → DbCall
  enable_model : Bytes → Bytes → Bool → DbCall

unfoldable pub has_items : Option Values → Bool
has_items none = false
has_items (some end) = false
has_items (some (item v vs)) = true

-- `hasUsefulTags`
unfoldable pub has_useful_tags : (Bytes → Option Fields) → Bytes → Bool
unfolding has_items
has_useful_tags decode raw =
    if is_empty raw || str_eq raw (codes "{}") then false else elim (decode raw) [
      | none ↦ false
      | some t ↦ has_items (as_array (get (codes "strengths") t))
    ]

-- `parseTags`; `decode_lists` is `json.Unmarshal` into its struct
pub record TagLists : Type 0 where
  pub strengths : List Bytes
  pub weaknesses : List Bytes

unfoldable pub parse_tags :
    (Bytes → Option (Option (List Bytes) × Option (List Bytes))) → Bytes → TagLists
parse_tags decode_lists raw =
    if is_empty raw || str_eq raw (codes "{}")
    then record { strengths = []; weaknesses = [] }
    else elim (decode_lists raw) [
      | none ↦ record { strengths = []; weaknesses = [] }
      | some (s, w) ↦ record { strengths = get_or [] s; weaknesses = get_or [] w }
    ]

-- the scores and latencies of a model, which stand under "name|source"; a map is `none` if it could
-- not be loaded
abbrev pub score_key : Bytes → Bytes → Bytes
score_key name source = name ++ b'|' ∷ source

unfoldable pub scores_of : Option (Dict (Dict ℕ)) → Bytes → Dict ℕ → Dict ℕ
scores_of none key old = old
scores_of (some all) key old = elim (lookup key all) [
  | none ↦ old
  | some scores ↦ if ltb 0 (length scores) then scores else old
]

unfoldable pub latency_of : Option (Dict ℤ) → Bytes → Option ℤ → Option ℤ
latency_of none key old = old
latency_of (some all) key old = elim (lookup key all) [ none ↦ old | some ms ↦ some ms ]

unfoldable pub enriched : Option (Dict (Dict ℕ)) → Option (Dict ℤ) → Bytes → ModelInfo → ModelInfo
unfolding scores_of latency_of
enriched scores latencies name info = record info {
  benchmark_scores = scores_of scores (score_key name info.source) info.benchmark_scores;
  avg_latency_ms = latency_of latencies (score_key name info.source) info.avg_latency_ms;
}

-- the loop that attaches them
unfoldable pub enrich_all :
    Option (Dict (Dict ℕ)) → Option (Dict ℤ) → ModelCollection → ModelCollection
unfolding enriched
enrich_all scores latencies [] = []
enrich_all scores latencies ((name, info) ∷ c) =
    (name, enriched scores latencies name info) ∷ enrich_all scores latencies c

-- `loadModelsFromDatabase`: the new collection, and whether it returned no error
unfoldable pub load_models_from_database :
    Option (Dict Row)
    → Option (Dict (Dict ℕ))
    → Option (Dict ℤ)
    → ModelCollection
    → ModelCollection × Bool
unfolding enrich_all
load_models_from_database none scores latencies old = (old, false)
load_models_from_database (some rows) scores latencies old =
    (enrich_all scores latencies (from_database_map rows []), true)

-- how many calls return no error
unfoldable pub count_ok : (DbCall → Bool) → List DbCall → ℕ
count_ok ok [] = 0
count_ok ok (c ∷ cs) = if ok c then suc (count_ok ok cs) else count_ok ok cs

abbrev pub register_all : Bytes → List Bytes → List DbCall
register_all source [] = []
register_all source (name ∷ names) =
    register_discovered_model name source ∷ register_all source names

pub record Discovery : Type 0 where
  pub providers : ℕ
  pub discovered : ℕ
  pub calls : List DbCall

abbrev pub no_discovery : Discovery
no_discovery = record { providers = 0; discovered = 0; calls = [] }

-- the two counters and the calls, where the loop has a provider in front of the others
abbrev pub with_provider : (DbCall → Bool) → Bytes → List Bytes → Discovery → Discovery
with_provider ok source names d = record {
  providers = suc d.providers;
  discovered = count_ok ok (register_all source names) + d.discovered;
  calls = register_all source names ++ d.calls;
}

-- the loops of `discoverModels`
unfoldable pub discover_models :
    (ProviderConfig → Option (List Bytes)) → (DbCall → Bool) → List ProviderConfig → Discovery
unfolding count_ok
discover_models list_models ok [] = no_discovery
discover_models list_models ok (p ∷ ps) =
    let rest = discover_models list_models ok ps in
    if not p.enabled
    then rest
    else elim (list_models p) [ none ↦ rest | some names ↦ with_provider ok p.name names rest ]

-- the four results of `GetModelTags` as the callers read them: the tags, and three flags
abbrev pub tags_of : Verdict → Bytes
tags_of (tags t) = t
tags_of (disable t) = t
tags_of delete = []
tags_of (fails f) = codes "{}"

abbrev pub should_disable : Verdict → Bool
should_disable (disable t) = true
should_disable _ = false

abbrev pub has_failed : Verdict → Bool
has_failed (fails f) = true
has_failed _ = false

-- the call of the database after a verdict, in `tagModels` and `fetchAndTagModels`
unfoldable pub call_after : (Bytes → Option Fields) → Bytes → Bytes → Verdict → DbCall
call_after decode name source delete = delete_model name source
call_after decode name source (tags t) =
    save_model name source t (has_useful_tags decode t) (is_reasoning_model name)
call_after decode name source (disable t) = save_model name source t false (is_reasoning_model name)
call_after decode name source (fails f) =
    save_model name source (codes "{}") (has_useful_tags decode (codes "{}"))
      (is_reasoning_model name)
