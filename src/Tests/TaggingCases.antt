-- ===== src/Tests/TaggingCases.antt =====
-- Tagging runs.
use pi_pi_mink.Prelude.{
  ℕ, zero, suc, Bool, true, false, ◌≡◌, refl, Option, none, some, List, [], ◌∷◌, All, length,
}
use pi_pi_mink.Prelude.Int.{ℤ, pos}
use pi_pi_mink.Prelude.Text.{Bytes, codes, str_eq}
use pi_pi_mink.Prelude.Dict.{Dict, lookup, insert}
use pi_pi_mink.Json.{text, array, object, end, item, Fields, blank, field, get, as_array}
use pi_pi_mink.Answers.{ResponsesBody}
use pi_pi_mink.Models.{Row, ModelInfo, ModelCollection, from_database_map}
use pi_pi_mink.ModelAdmin.Reload.{Stands, load_models_from_database_lem}
use pi_pi_mink.Provider.{ProviderConfig, for_model}
use pi_pi_mink.Client.{empty_client}
use pi_pi_mink.Requests.{Request}
use pi_pi_mink.Chat.{Exchange, answered}
use pi_pi_mink.Chat.Made.{endpoint, credentials}
use pi_pi_mink.Benchmark.{Progress}
use pi_pi_mink.Operation.{new_operation, completed}
use pi_pi_mink.Operation.Log.{entries_of}
use pi_pi_mink.Tagging.{Prompts, Verdict, tags}
use pi_pi_mink.ModelTags.{Setup, get_model_tags}
use pi_pi_mink.ModelTags.Attempts.{Sent, get_model_tags-Sent}
use pi_pi_mink.ModelTags.Verdicts.{Usable, get_model_tags-Usable}
use pi_pi_mink.ModelAdmin.{
  ModelTarget, DbCall, has_useful_tags, has_items, call_after, load_models_from_database,
  enrich_all, enriched, scores_of, latency_of,
}
use pi_pi_mink.ModelAdmin.Runs.{
  Trace, tag_models, provider_by_name, first, over, ended, turn, fetch_all, fetch_provider,
  fetch_names, fetch_and_tag_models, FetchEvent, Interleaved,
}
use pi_pi_mink.ModelAdmin.Progress.{
  Counts, EnablesUseful, last_state, troubled, tag_models-Ends, tag_models-EnablesUseful,
}
use pi_pi_mink.ModelAdmin.Fetch.{Safe, AllRoutable, fetch_and_tag_models-AllRoutable}
use pi_pi_mink.BenchmarkHandlers.{benchmark_targets}
use pi_pi_mink.BenchmarkHandlers.Logged.{EndsWith, all_progress, benchmark_targets-EndsWith}
use pi_pi_mink.Tests.ProviderCases.{azure}
use pi_pi_mink.Tests.RoutingCases.{row}

-- the body of an error, by the number of the attempt
abbrev error_body : Bytes → Fields
error_body message =
    field (codes "error") (object (field (codes "message") (text message) blank)) blank

abbrev decode_body : Bytes → Option Fields
decode_body (zero ∷ s) = some (error_body (codes "role' does not support 'system'"))
decode_body (suc zero ∷ s) = some (error_body (codes "temperature is not supported"))
decode_body _ = none

abbrev no_responses : Bytes → Option ResponsesBody
no_responses body = none

abbrev never : Bytes → Bool
never s = false

abbrev picky : ℕ → Request → Exchange
picky attempt req = answered 400 (attempt ∷ [])

abbrev prompts : Prompts
prompts = record { system = codes "sys"; user = codes "user"; user_no_sys = codes "both" }

abbrev env : Setup
env = record {
  send = picky;
  decode = decode_body;
  decode_responses = no_responses;
  is_json = never;
  is_object = never;
  prompts = prompts;
  max_tokens = pos 1024;
  uses_mlx = false;
}

abbrev local : ProviderConfig
local = record azure { model_configs = [] }

get_model_tags-Sent_example :
    let p = for_model azure (codes "opus") in
    Sent
      (endpoint p)
      (credentials p)
      3
      (get_model_tags env 0 0 (codes "opus") azure empty_client).tagged
get_model_tags-Sent_example = get_model_tags-Sent env 0 0 (codes "opus") azure empty_client

get_model_tags-Usable_example :
    Usable env (get_model_tags env 0 0 (codes "opus") azure empty_client).tagged.verdict
get_model_tags-Usable_example = get_model_tags-Usable env 0 0 (codes "opus") azure empty_client

abbrev progress : Progress
progress = record {
  task_index = 0;
  total_tasks = 1;
  result = record {
    task_id = codes "sum";
    category = codes "facts";
    score = 0;
    latency_ms = 7;
    response = [];
    failed = true;
  };
}

-- a decoder that finds a strength in the text "s"
abbrev decode_tags : Bytes → Option Fields
decode_tags (c ∷ []) =
    some (field (codes "strengths") (array (item (text (codes "code")) end)) blank)
decode_tags _ = none

abbrev strong : Bytes → ProviderConfig → Verdict
strong name p = tags (codes "s")

abbrev targets : List ModelTarget
targets =
    record { name = codes "m"; source = codes "azure" }
    ∷ record { name = codes "n"; source = codes "gone" }
    ∷ []

abbrev tagging : Trace
tagging = tag_models decode_tags strong (azure ∷ []) [] targets

tag_models-Ends_example :
    All (Counts 2) tagging.seen
    × ((last_state decode_tags strong (new_operation 2 []) tagging.seen).status ≡ completed)
    × ((last_state decode_tags strong (new_operation 2 []) tagging.seen).completed_models ≡ 2)
    × ((last_state decode_tags strong (new_operation 2 []) tagging.seen).failed_models
        ≡ troubled decode_tags strong (provider_by_name (azure ∷ []) []) targets)
tag_models-Ends_example = tag_models-Ends decode_tags strong (azure ∷ []) [] targets

failed_names :
    troubled decode_tags strong (provider_by_name (azure ∷ []) []) targets ≡ codes "n" ∷ []
unfolding provider_by_name lookup insert str_eq
failed_names = refl

tag_models-EnablesUseful_example : All (EnablesUseful decode_tags) tagging.calls
tag_models-EnablesUseful_example =
    tag_models-EnablesUseful decode_tags strong (azure ∷ []) [] targets

abbrev always : DbCall → Bool
always c = true

abbrev lists : ProviderConfig → Option (List Bytes)
lists p = some (codes "m" ∷ [])

abbrev events : List FetchEvent
events = fetch_provider decode_tags strong always [] lists azure

-- a goroutine that is alone
alone : (es : List FetchEvent) → Interleaved (es ∷ []) es
alone [] = ended over
alone (e ∷ es) = turn (first e es []) (alone es)

one_call : length events ≡ 2
unfolding fetch_provider fetch_names call_after has_useful_tags has_items get as_array str_eq
one_call = refl

fetch_and_tag_models-AllRoutable_example :
    All (Safe decode_tags) events × AllRoutable decode_tags (fetch_and_tag_models events [])
unfolding fetch_all
fetch_and_tag_models-AllRoutable_example =
    fetch_and_tag_models-AllRoutable decode_tags strong always [] lists (azure ∷ []) events []
      (alone events) tt

abbrev one_row : Dict Row
one_row = (codes "o4", row) ∷ []

-- what was measured of the model of that row
abbrev one_key : Bytes
one_key = codes "o4|openai"

abbrev one_score : Dict (Dict ℕ)
one_score = (one_key, (codes "coding", 7) ∷ []) ∷ []

abbrev one_latency : Dict ℤ
one_latency = (one_key, pos 120) ∷ []

abbrev reloaded : ModelCollection
reloaded = (load_models_from_database (some one_row) (some one_score) (some one_latency) []).0

load_models_from_database_lem_example :
    Stands
      (codes "o4")
      (lookup (codes "o4") one_row)
      (some one_score)
      (some one_latency)
      (lookup (codes "o4") reloaded)
unfolding lookup
load_models_from_database_lem_example =
    load_models_from_database_lem one_row (some one_score) (some one_latency) [] (codes "o4")
      (refl, tt)

abbrev latency : Option ModelInfo → Option ℤ
latency none = none
latency (some info) = info.avg_latency_ms

measured : latency (lookup (codes "o4") reloaded) ≡ some (pos 120)
unfolding lookup load_models_from_database enrich_all enriched scores_of latency_of
    from_database_map insert str_eq
measured = refl

abbrev one_progress : ℕ → ModelTarget → List (Bytes × Progress)
one_progress i t = (t.name, progress) ∷ []

benchmark_targets-EndsWith_example :
    EndsWith one_progress 2
      (entries_of (all_progress one_progress 0 targets))
      (benchmark_targets one_progress [] targets)
benchmark_targets-EndsWith_example = benchmark_targets-EndsWith one_progress [] targets
