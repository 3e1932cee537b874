-- ===== src/ModelHandlers.antt =====
-- cmd/server/handlers.go: the handlers that change a model, over the database and the collection in
-- memory. `ok` says whether the call of the database returns no error; a body is `none` if it does not
-- decode. `handleListModels` and the listings stand below them.
pub mod Effects
use pi_pi_mink.Prelude.{
  ℕ, ◌+◌, Bool, true, false, ◌||◌, not, Option, none, some, List, [], ◌∷◌, ◌++◌, if◌then◌else◌,
  length,
}
use pi_pi_mink.Prelude.Int.{ℤ}
use pi_pi_mink.Prelude.Text.{Bytes, codes, str_eq, is_empty, trim_space}
use pi_pi_mink.Prelude.Dict.{Dict, lookup}
use pi_pi_mink.Json.{Fields}
use pi_pi_mink.Models.{
  ModelInfo, ModelCollection, get_model, update_model, remove_model, get_enabled_models,
}
use pi_pi_mink.Benchmark.{JudgeSettings}
use pi_pi_mink.ModelAdmin.{TagLists, has_useful_tags, parse_tags, Discovery, discover_models}
use pi_pi_mink.ModelAdmin.Cleanup.{resolve_benchmark_judge_name}

-- the calls of the database
pub data StoreCall : Type 0 where
  enable_model : Bytes → Bytes → Bool → StoreCall
  reset_model : Bytes → Bytes → StoreCall
  delete_model_full : Bytes → Bytes → StoreCall
  update_model_reasoning : Bytes → Bytes → Bool → StoreCall

-- what a request leaves: its status, the calls that it made, and the collection
pub record Changed : Type 0 where
  pub status : ℕ
  pub made : List StoreCall
  pub models : ModelCollection

abbrev pub rejected : ℕ → ModelCollection → Changed
rejected status c = record { status = status; made = []; models = c }

-- the change of a model that the collection has
unfoldable pub change_model : Bytes → (ModelInfo → ModelInfo) → ModelCollection → ModelCollection
change_model name f c = elim (get_model name c) [
  | none ↦ c
  | some info ↦ update_model name (f info) c
]

abbrev pub with_enabled : Bool → ModelInfo → ModelInfo
with_enabled enabled info = record info { enabled = enabled }

abbrev pub with_reasoning : Bool → ModelInfo → ModelInfo
with_reasoning has_reasoning info = record info { has_reasoning = has_reasoning }

abbrev pub without_tags : ModelInfo → ModelInfo
without_tags info = record info {
  enabled = false;
  tags = codes "{\"strengths\":[],\"weaknesses\":[]}";
}

-- the bodies of the requests
pub record EnableBody : Type 0 where
  pub source : Bytes
  pub enabled : Bool

pub record ReasoningBody : Type 0 where
  pub model : Bytes
  pub source : Bytes
  pub has_reasoning : Bool

module _ (ok : StoreCall → Bool) where
  -- the database first, and the collection only if it returns no error
  abbrev pub stored : StoreCall → ModelCollection → ModelCollection → Changed
  stored call after c =
      if ok call
      then record { status = 200; made = call ∷ []; models = after }
      else record { status = 500; made = call ∷ []; models = c }

  -- `handleSetModelEnabled`
  unfoldable pub handle_set_model_enabled : Bytes → Option EnableBody → ModelCollection → Changed
  unfolding change_model
  handle_set_model_enabled name none c = rejected 400 c
  handle_set_model_enabled name (some body) c =
      if is_empty body.source
      then rejected 400 c
      else stored (enable_model name body.source body.enabled)
          (change_model name (with_enabled body.enabled) c) c

  -- `handleResetModel`, on the source of the body
  unfoldable pub handle_reset_model : Bytes → Option Bytes → ModelCollection → Changed
  unfolding change_model
  handle_reset_model name none c = rejected 400 c
  handle_reset_model name (some source) c =
      if is_empty source
      then rejected 400 c
      else stored (reset_model name source) (change_model name without_tags c) c

  -- `handleDeleteModel`, on the source of the body
  unfoldable pub handle_delete_model : Bytes → Option Bytes → ModelCollection → Changed
  handle_delete_model name none c = rejected 400 c
  handle_delete_model name (some source) c =
      if is_empty source
      then rejected 400 c
      else stored (delete_model_full name source) (remove_model name c) c

  -- `handleUpdateModelReasoning`, on whether the method is POST
  unfoldable pub handle_update_model_reasoning :
      Bool → Option ReasoningBody → ModelCollection → Changed
  unfolding change_model
  handle_update_model_reasoning is_post none c = rejected (if is_post then 400 else 405) c
  handle_update_model_reasoning is_post (some body) c =
      if not is_post
      then rejected 405 c
      else if is_empty body.model || is_empty body.source
      then rejected 400 c
      else stored (update_model_reasoning body.model body.source body.has_reasoning)
          (change_model body.model (with_reasoning body.has_reasoning) c) c

-- a model in the list of `handleListModels`
pub record ListedModel : Type 0 where
  pub name : Bytes
  pub source : Bytes
  pub enabled : Bool
  pub tagged : Bool
  pub has_reasoning : Bool
  pub updated_at : Bytes
  pub benchmark_scores : Dict ℕ
  pub avg_latency_ms : Option ℤ
  pub tags : TagLists
  pub tagged_by : Option Bytes

pub record ModelList : Type 0 where
  pub models : List ListedModel
  pub count : ℕ
  pub benchmark_judge : Bytes

module _ (decode : Bytes → Option Fields)
    (decode_lists : Bytes → Option (Option (List Bytes) × Option (List Bytes))) where
  abbrev pub listed : Bytes → ModelInfo → ListedModel
  listed name info =
      let useful = has_useful_tags decode info.tags in
      record {
        name = name;
        source = info.source;
        enabled = info.enabled;
        tagged = useful;
        has_reasoning = info.has_reasoning;
        updated_at = info.updated_at;
        benchmark_scores = info.benchmark_scores;
        avg_latency_ms = info.avg_latency_ms;
        tags = parse_tags decode_lists info.tags;
        tagged_by = if useful then some (codes "self-assessment") else none;
      }

  unfoldable pub list_models : ModelCollection → List ListedModel
  unfolding has_useful_tags parse_tags
  list_models [] = []
  list_models ((name, info) ∷ c) = listed name info ∷ list_models c

  -- `handleListModels`
  unfoldable pub handle_list_models : JudgeSettings → ModelCollection → ModelList
  unfolding list_models resolve_benchmark_judge_name
  handle_list_models cfg c = record {
    models = list_models c;
    count = length (list_models c);
    benchmark_judge = resolve_benchmark_judge_name cfg;
  }

-- an entry of `handleOpenAIModels`, without its date
pub record OpenAiModel : Type 0 where
  pub id : Bytes
  pub owned_by : Bytes

unfoldable pub openai_entries : Dict ModelInfo → List OpenAiModel
openai_entries [] = []
openai_entries ((name, info) ∷ c) =
    let rest = openai_entries c in
    if info.enabled then record { id = name; owned_by = info.source } ∷ rest else rest

-- the entry that stands for an empty list
abbrev pub default_entry : Bytes → OpenAiModel
default_entry default_chat_model =
    let name = trim_space default_chat_model in
    record { id = if is_empty name then codes "gpt-4-turbo" else name; owned_by = codes "openai" }

abbrev pub or_default : OpenAiModel → List OpenAiModel → List OpenAiModel
or_default d [] = d ∷ []
or_default d (m ∷ ms) = m ∷ ms

-- `handleOpenAIModels`
unfoldable pub handle_openai_models : Bytes → ModelCollection → List OpenAiModel
unfolding openai_entries
handle_openai_models default_chat_model c =
    or_default (default_entry default_chat_model) (openai_entries c)
