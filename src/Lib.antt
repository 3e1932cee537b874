-- ===== src/Lib.antt =====
-- PiPiMink, a proxy that routes chat requests to language models (Go).
--
-- The program's parts, and the files that model them:
--   * Auth (cmd/server/auth_middleware.go): who calls (`identifyCaller`), what a path needs
--     (`requiredLevel`), and what the middleware answers. Auth/Paths, Auth/Callers, Auth/Access.
--   * DecisionCache (internal/llm/decision_cache.go): the cache of routing decisions, its map, its
--     list in order of use, its eviction loop and its report. DecisionCache/Order has the list,
--     Invariant what ties it to the map, Refinement and Writes the two operations against the
--     specification, Runs and Fresh whole histories, Stats the report.
--   * Provider (internal/config/config.go): provider settings, overrides for a model, endpoint
--     URLs, key resolution.
--   * Client (internal/llm/client.go, internal/llm/rate_limiter.go): the table of providers and
--     the limiters that space the requests.
--   * ProviderAdmin (cmd/server/providers.go, `SaveProviders` of internal/config/config.go): the
--     handlers that change providers, over memory, providers.json and the client. The file holds
--     `StoredProvider`s: the fields that are written as JSON, which the resolved keys and the parsed
--     timeout are not. ProviderAdmin/Names, ProviderAdmin/Outcome.
--   * Extract (internal/llm/utils.go): the search for a JSON text in an answer. Extract/Scan,
--     Extract/Sound.
--   * Json: decoded JSON values. Answers (internal/llm/model_tags.go, responses.go,
--     model_selection.go): what is read from the body of an answer. Answers/Sound.
--   * Models (internal/models/models.go): the collection of models. Models/Filters.
--   * Requests and Chat (internal/llm/chat.go, responses.go): the requests in the three formats, and
--     `ChatWithModel` with its retry and the limiter. Chat/Made, Chat/Dispatch.
--   * CacheKey (internal/llm/decision_cache.go), Selection and Routing
--     (internal/llm/model_selection.go): the key of a prompt, the request for a decision, and
--     `DecideModelBasedOnCapabilities`. CacheKey/Order (the sort), Routing/Total,
--     Routing/Chosen, Routing/Again.
--   * Tasks (internal/benchmark/task.go, with `selectTasks` of suite.go and `Score` of scorer.go) and
--     Benchmark (internal/benchmark/runner.go, suite.go): benchmark tasks, and the run of a model
--     over them. Tasks/Configs, Benchmark/Runs.
--   * Tagging and ModelTags (internal/llm/model_tags.go, compatibility.go): the prompts, the requests and
--     the error messages of a tagging, and `GetModelTags` with its retries. ModelTags/Attempts,
--     ModelTags/Verdicts. ModelList (internal/llm/model_list.go): `GetModelsByProvider`.
--   * Operation (cmd/server/server.go): the record of a running operation. Operation/Log.
--   * ModelAdmin (cmd/server/models.go): discovery, the reload of the models, and the tests on tags. Its
--     Runs has both tagging runs, with the turns of the goroutines as a relation, its Cleanup the
--     clean-up and, from internal/benchmark/suite.go, the models of a benchmark. ModelAdmin/Progress,
--     ModelAdmin/Fetch, ModelAdmin/Reload.
--   * BenchmarkHandlers (cmd/server/handlers.go): the start of a benchmark, and the run of chosen models.
--     BenchmarkHandlers/Logged.
--   * Validator (internal/api/validator.go): the validation of requests. Validator/Coherent.
--   * ChatHandlers (cmd/server/handlers.go, utils.go, analytics_handlers.go) and OllamaHandlers
--     (cmd/server/ollama_handlers.go): the chat endpoints, over the interface `Gateway` to the LLM
--     client. ChatHandlers/OpenAi, ChatHandlers/Agreement,
--     ChatHandlers/Backed (the client behind the interface), OllamaHandlers/Checks.
--   * ModelHandlers (cmd/server/handlers.go): the handlers that change or list models.
--     ModelHandlers/Effects.
--   * Settings (internal/config/settings_registry.go): the settings and both switches over their keys.
--     Settings/Registry, Settings/RoundTrip; Settings/DotEnv (internal/config/dotenv.go);
--     Settings/Patch with Settings/Patch/Refused (cmd/server/settings_handlers.go).
--   * ConfigLoad (internal/config/config.go): the settings as `Load` reads them, and the providers.
--     ConfigLoad/Reload, ConfigLoad/Providers.
--   * Prelude: shared names, byte strings (`Text`), Go maps (`Dict`), signed integers (`Int`).
--   * Tests: runs at concrete inputs, and the theorems applied to them.
--
-- Strings are lists of bytes, with letter case and white space as in ASCII. Maps are association
-- lists, in the order in which they are read; where two calls read one map, the second may have a
-- permutation of it. Go's `int` and `time.Duration` are unbounded here; counters that the
-- program adds to atomically wrap at 2 ^ 64. The clock, the environment, the database, the file
-- system, the HTTP client, hashes and codecs are arguments. A float64 is kept as its bits.
--
-- The eviction loop of the cache runs on fuel for one round more than there are entries: after a
-- write the cache has at most one entry too many, and one round takes it away.
--
-- A routing decision is `none` only where that loop would run out of fuel, which with a valid cache
-- it does not.
--
-- Nothing else runs on fuel: a tagging makes a fixed number of attempts, and the loops over models,
-- providers, messages and settings are recursions on their lists.
--
-- Not modelled: HTTP transport, SQL, metrics, tracing, MLX detection, the wording of the prompts, the
-- score of a judge, the leaderboard, the handlers for users, tokens and analytics,
-- OAuth, the web console.
pub mod Prelude
pub mod Auth
pub mod DecisionCache
pub mod Provider
pub mod Client
pub mod ProviderAdmin
pub mod Extract
pub mod Json
pub mod Models
pub mod Requests
pub mod Chat
pub mod Tagging
pub mod ModelTags
pub mod CacheKey
pub mod Selection
pub mod Tasks
pub mod Benchmark
pub mod Operation
pub mod ModelAdmin
pub mod Routing
pub mod Answers
mod Tests
pub mod ChatHandlers
pub mod ModelHandlers
pub mod Settings
pub mod Validator
pub mod OllamaHandlers
pub mod ModelList
pub mod ConfigLoad
pub mod BenchmarkHandlers
