-- ===== src/ModelList.antt =====
-- internal/llm/model_list.go: the names of the models of a provider. The HTTP client is the parameter
-- `get_models`, on the URL and the headers; `decode` is `json.NewDecoder`. The result is the names,
-- `none` on an error, with the request that was made, if one was, and the client.
use pi_pi_mink.Prelude.{
  ℕ, Option, none, some, List, [], ◌∷◌, ◌++◌, ◌≡◌, ◌⊎◌, refl, sym, ap, inl, inr, Bool-cases,
  Option-cases, if◌then◌else◌,
}
use pi_pi_mink.Prelude.Text.{Bytes, codes, str_eq, is_empty}
use pi_pi_mink.Prelude.Dict.{Dict}
use pi_pi_mink.Json.{Value, object, Values, end, item, Fields, get, as_text, as_array}
use pi_pi_mink.Provider.{ProviderConfig, model_names, provider_type_anthropic}
use pi_pi_mink.Client.{Client, rate_limiter_for}
use pi_pi_mink.Chat.{held, released}

-- a request without a body
pub record GetRequest : Type 0 where
  pub url : Bytes
  pub headers : Dict Bytes

-- What comes of it: it cannot be created, there is no response, or there is a body. The status is not
-- looked at.
pub data Fetched : Type 0 where
  not_created unanswered : Fetched
  received : Bytes → Fetched

pub record Listing : Type 0 where
  pub names : Option (List Bytes)
  pub made : List GetRequest
  pub slept : ℕ
  pub client : Client

-- the id of an item
unfoldable pub model_id : Value → Option Bytes
model_id (object m) = as_text (get (codes "id") m)
model_id _ = none

-- the loop over `data`
unfoldable pub model_ids : Values → List Bytes
unfolding model_id
model_ids end = []
model_ids (item v vs) = elim (model_id v) [ none ↦ model_ids vs | some id ↦ id ∷ model_ids vs ]

unfoldable pub ids_of : Fields → List Bytes
unfolding model_ids
ids_of result = elim (as_array (get (codes "data") result)) [ none ↦ [] | some vs ↦ model_ids vs ]

abbrev pub models_request : ProviderConfig → GetRequest
models_request p = record {
  url = p.base_url ++ codes "/v1/models";
  headers =
      if is_empty p.api_key then [] else (codes "Authorization", codes "Bearer " ++ p.api_key) ∷ [];
}

module _ (decode : Bytes → Option Fields) (get_models : GetRequest → Fetched) where
  abbrev pub decoded_ids : Option Fields → Option (List Bytes)
  decoded_ids none = none
  decoded_ids (some result) = some (ids_of result)

  -- from the response on, entered at `now`; the limiter is set only if there is a response, at `done`
  unfoldable pub after_fetch : ℕ → ℕ → ProviderConfig → Client → GetRequest → Fetched → Listing
  unfolding ids_of held released
  after_fetch now done p c req not_created = record {
    names = none;
    made = [];
    slept = held now (rate_limiter_for p.name c) c;
    client = c;
  }
  after_fetch now done p c req unanswered = record {
    names = none;
    made = req ∷ [];
    slept = held now (rate_limiter_for p.name c) c;
    client = c;
  }
  after_fetch now done p c req (received body) = record {
    names = decoded_ids (decode body);
    made = req ∷ [];
    slept = held now (rate_limiter_for p.name c) c;
    client = released done (rate_limiter_for p.name c) c;
  }

  abbrev pub without_request : Option (List Bytes) → Client → Listing
  without_request names c = record { names = names; made = []; slept = 0; client = c }

  -- `GetModelsByProvider`, where the configuration has no models
  unfoldable pub query_models : ℕ → ℕ → ProviderConfig → Client → Listing
  unfolding after_fetch
  query_models now done p c =
      if str_eq p.type provider_type_anthropic
      then without_request none c
      else (let req = models_request p in after_fetch now done p c req (get_models req))

  abbrev pub configured_or : Listing → List Bytes → Client → Listing
  configured_or query [] c = query
  configured_or query (name ∷ names) c = without_request (some (name ∷ names)) c

  -- `GetModelsByProvider`
  unfoldable pub get_models_by_provider : ℕ → ℕ → ProviderConfig → Client → Listing
  unfolding query_models
  get_models_by_provider now done p c = configured_or (query_models now done p c) (model_names p) c

  -- the models of a provider come from its configuration without a request, or else from one request
  -- to its own list
  abbrev pub FromProvider : ProviderConfig → Listing → Type 0
  FromProvider p l =
      ((l.made ≡ []) × ((l.names ≡ none) ⊎ (l.names ≡ some (model_names p))))
      ⊎ ((l.made ≡ models_request p ∷ [])
          × ((l.names ≡ none)
              ⊎ ((body : Bytes) × (result : Fields) × (get_models (models_request p)
                    ≡ received body)
                  × (decode body ≡ some result)
                  × (l.names ≡ some (ids_of result)))))

  fetched-FromProvider :
      (now done : ℕ) (p : ProviderConfig) (c : Client) (x : Fetched)
      → get_models (models_request p) ≡ x
      → FromProvider p (after_fetch now done p c (models_request p) x)
  unfolding after_fetch
  fetched-FromProvider now done p c not_created e = inl (refl, inl refl)
  fetched-FromProvider now done p c unanswered e = inr (refl, inl refl)
  fetched-FromProvider now done p c (received body) e = elim (Option-cases (decode body)) [
    | inl d ↦ rw d (inr (refl, inl refl))
    | inr (result, d) ↦
        let named : decoded_ids (decode body) ≡ some (ids_of result) = rw d refl in
        inr (refl, inr (body, result, e, d, named))
  ]

  query_models-FromProvider :
      (now done : ℕ) (p : ProviderConfig) (c : Client) → FromProvider p (query_models now done p c)
  unfolding query_models
  query_models-FromProvider now done p c =
      elim (Bool-cases (str_eq p.type provider_type_anthropic)) [
        | inl e ↦ rw e (inl (refl, inl refl))
        | inr e ↦ rw e (fetched-FromProvider now done p c (get_models (models_request p)) refl)
      ]

  configured-FromProvider :
      (query : Listing) (p : ProviderConfig) (c : Client) (names : List Bytes)
      → model_names p ≡ names
      → FromProvider p query
      → FromProvider p (configured_or query names c)
  configured-FromProvider query p c [] e q = q
  configured-FromProvider query p c (name ∷ names) e q = inl (refl, inr (ap some (sym e)))

  -- Without a request, a provider has the models of its configuration or an error; otherwise there is
  -- one request, to `/v1/models` of the provider with its key, and the result is an error or the texts
  -- under `id` of the objects in the answer's `data`.
  pub get_models_by_provider-FromProvider :
      (now done : ℕ) (p : ProviderConfig) (c : Client)
      → FromProvider p (get_models_by_provider now done p c)
  unfolding get_models_by_provider
  get_models_by_provider-FromProvider now done p c =
      configured-FromProvider (query_models now done p c) p c (model_names p) refl
        (query_models-FromProvider now done p c)
