-- ===== src/ModelAdmin/Runs.antt =====
-- cmd/server/models.go: the two runs that tag models, `tagModels` over chosen models and
-- `fetchAndTagModels` over all that the providers list. The lock sections of a run are the states in
-- `seen`, in which the console can find the operation.
use pi_pi_mink.Prelude.{
  ℕ, suc, Bool, true, false, ◌&&◌, not, Option, none, some, List, [], ◌∷◌, ◌++◌, if◌then◌else◌,
  length,
}
use pi_pi_mink.Prelude.Text.{Bytes}
use pi_pi_mink.Prelude.Dict.{Dict, lookup, insert}
use pi_pi_mink.Json.{Fields}
use pi_pi_mink.Models.{ModelInfo, ModelCollection, add_model, is_reasoning_model}
use pi_pi_mink.Provider.{ProviderConfig}
use pi_pi_mink.Tagging.{Verdict, delete, Prompts, update_tagging_prompts}
use pi_pi_mink.Operation.{OperationState, new_operation, completed}
use pi_pi_mink.ModelAdmin.{
  ModelTarget, DbCall, has_useful_tags, tags_of, should_disable, has_failed, call_after,
}

-- `loadTaggingPromptsFromDB`, on what `GetSystemPrompt` returns for the three keys: `none` is an error
-- or a missing row
abbrev pub prompt_value : Option Bytes → Bytes
prompt_value none = []
prompt_value (some val) = val

unfoldable pub load_tagging_prompts_from_db :
    Option Bytes → Option Bytes → Option Bytes → Prompts → Prompts
unfolding update_tagging_prompts
load_tagging_prompts_from_db system user user_nosys =
    update_tagging_prompts (prompt_value system) (prompt_value user) (prompt_value user_nosys)

-- the map from names to providers
unfoldable pub provider_by_name : List ProviderConfig → Dict ProviderConfig → Dict ProviderConfig
provider_by_name [] m = m
provider_by_name (p ∷ ps) m = provider_by_name ps (insert p.name p m)

-- what a run leaves: the states of the operation, the calls of the database, and the operation
pub record Trace : Type 0 where
  pub seen : List OperationState
  pub calls : List DbCall

abbrev pub with_model : Bytes → OperationState → OperationState
with_model name op = record op { current_model = name }

abbrev pub with_failure : Bytes → OperationState → OperationState
with_failure name op = record op { failed_models = op.failed_models ++ name ∷ [] }

abbrev pub with_count : ℕ → OperationState → OperationState
with_count n op = record op { completed_models = n }

abbrev pub finished : OperationState → OperationState
finished op = record op { status = completed; current_model = [] }

-- What a goroutine of `fetchAndTagModels` does that others see: a call of the database, or an
-- entry in the map of all models.
pub data FetchEvent : Type 0 where
  called : DbCall → FetchEvent
  entered : Bytes → ModelInfo → FetchEvent

module _ (decode : Bytes → Option Fields) (verdict_of : Bytes → ProviderConfig → Verdict) where
  -- the operation after the tagging of a model
  abbrev pub after_tagging : Bytes → Verdict → OperationState → OperationState
  after_tagging name v op = if has_failed v then with_failure name op else op

  -- the states in the turn of target number `i`
  abbrev pub states_of : ℕ → Bytes → Option ProviderConfig → OperationState → List OperationState
  states_of i name none op =
      with_model name op ∷ with_count (suc i) (with_failure name (with_model name op)) ∷ []
  states_of i name (some p) op =
      let v = verdict_of name p in
      let op' = after_tagging name v (with_model name op) in
      with_model name op ∷ op' ∷ with_count (suc i) op' ∷ []

  abbrev pub state_after : ℕ → Bytes → Option ProviderConfig → OperationState → OperationState
  state_after i name none op = with_count (suc i) (with_failure name (with_model name op))
  state_after i name (some p) op =
      with_count (suc i) (after_tagging name (verdict_of name p) (with_model name op))

  abbrev pub calls_of : ModelTarget → Option ProviderConfig → List DbCall
  calls_of t none = []
  calls_of t (some p) = call_after decode t.name t.source (verdict_of t.name p) ∷ []

  -- the loop of `tagModels` from target number `i` on, and the end
  unfoldable pub tag_from : Dict ProviderConfig → ℕ → List ModelTarget → OperationState → Trace
  unfolding call_after
  tag_from by_name i [] op = record { seen = finished op ∷ []; calls = [] }
  tag_from by_name i (t ∷ ts) op =
      let found = lookup t.source by_name in
      let rest = tag_from by_name (suc i) ts (state_after i t.name found op) in
      record {
        seen = states_of i t.name found op ++ rest.seen;
        calls = calls_of t found ++ rest.calls;
      }

  -- `tagModels`
  unfoldable pub tag_models : List ProviderConfig → Bytes → List ModelTarget → Trace
  unfolding tag_from provider_by_name
  tag_models providers started_at targets =
      let op = new_operation (length targets) started_at in
      let run = tag_from (provider_by_name providers []) 0 targets op in
      record { seen = op ∷ run.seen; calls = run.calls }

  module _ (ok : DbCall → Bool) (now : Bytes) where
    -- the entry of a model; the run has one date for all
    abbrev pub fetched_model : Bytes → Bytes → Verdict → ModelInfo
    fetched_model name source v = record {
      source = source;
      tags = tags_of v;
      response = [];
      enabled = not (should_disable v) && has_useful_tags decode (tags_of v);
      has_reasoning = is_reasoning_model name;
      updated_at = now;
      benchmark_scores = [];
      avg_latency_ms = none;
    }

    abbrev pub enters : Verdict → Bool
    enters delete = false
    enters _ = true

    abbrev pub fetch_one : Bytes → Bytes → Verdict → List FetchEvent
    fetch_one name source v =
        let c = call_after decode name source v in
        called c
        ∷ (if enters v && ok c then entered name (fetched_model name source v) ∷ [] else [])

    unfoldable pub fetch_names : ProviderConfig → List Bytes → List FetchEvent
    unfolding call_after has_useful_tags
    fetch_names p [] = []
    fetch_names p (name ∷ names) = fetch_one name p.name (verdict_of name p) ++ fetch_names p names

    module _ (list_models : ProviderConfig → Option (List Bytes)) where
      -- a goroutine
      unfoldable pub fetch_provider : ProviderConfig → List FetchEvent
      unfolding fetch_names
      fetch_provider p = elim (list_models p) [ none ↦ [] | some names ↦ fetch_names p names ]

      -- the goroutines that are started
      unfoldable pub fetch_all : List ProviderConfig → List (List FetchEvent)
      unfolding fetch_provider
      fetch_all [] = []
      fetch_all (p ∷ ps) =
          let rest = fetch_all ps in if not p.enabled then rest else fetch_provider p ∷ rest

-- One turn of a goroutine, among those that are left.
pub data Takes : List (List FetchEvent) → FetchEvent → List (List FetchEvent) → Type 0 where
  first :
      (e : FetchEvent) (es : List FetchEvent) (rest : List (List FetchEvent))
      → Takes ((e ∷ es) ∷ rest) e (es ∷ rest)
  later :
      {e : FetchEvent} {l l' : List (List FetchEvent)} (es : List FetchEvent)
      → Takes l e l'
      → Takes (es ∷ l) e (es ∷ l')

-- The orders in which the goroutines can run, up to `wg.Wait`.
pub data Interleaved : List (List FetchEvent) → List FetchEvent → Type 0 where
  over : Interleaved [] []
  ended :
      {l : List (List FetchEvent)} {es : List FetchEvent}
      → Interleaved l es
      → Interleaved ([] ∷ l) es
  turn :
      {l l' : List (List FetchEvent)} {e : FetchEvent} {es : List FetchEvent}
      → Takes l e l'
      → Interleaved l' es
      → Interleaved l (e ∷ es)

-- the map of all models after the events
unfoldable pub all_models : List FetchEvent → ModelCollection → ModelCollection
all_models [] m = m
all_models (called c ∷ es) m = all_models es m
all_models (entered name info ∷ es) m = all_models es (insert name info m)

-- the loop that adds them to the collection
unfoldable pub add_all : ModelCollection → ModelCollection → ModelCollection
add_all [] c = c
add_all ((name, info) ∷ m) c = add_all m (add_model name info c)

-- the end of `fetchAndTagModels`
unfoldable pub fetch_and_tag_models : List FetchEvent → ModelCollection → ModelCollection
unfolding all_models add_all
fetch_and_tag_models es c = add_all (all_models es []) c
