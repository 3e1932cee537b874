-- ===== src/ProviderAdmin.antt =====
-- cmd/server/providers.go: the handlers that change the list of providers, over the list in
-- memory, the file providers.json and the table of the LLM client. `SaveProviders` is that of
-- internal/config/config.go; what the file system answers is an argument.
pub mod Names
pub mod Outcome
use pi_pi_mink.Prelude.{
  ℕ, zero, suc, Bool, true, false, ◌&&◌, ◌||◌, not, Option, none, some, List, [], ◌∷◌, ◌++◌, map,
  if◌then◌else◌,
}
use pi_pi_mink.Prelude.Int.{ℤ, pos}
use pi_pi_mink.Prelude.Text.{Bytes, str_eq, is_empty}
use pi_pi_mink.Prelude.Dict.{Dict, delete}
use pi_pi_mink.Provider.{ModelConfig, ProviderConfig, override, resolve_provider_keys}
use pi_pi_mink.Client.{Client, set_providers}

-- Whether each call of `SaveProviders` succeeds.
pub record FileSystem : Type 0 where
  pub write_temp : Bool
  pub rename : Bool
  pub write_in_place : Bool

-- What providers.json holds: the fields that `json.MarshalIndent` writes. The keys and the duration
-- that are resolved at load time are marked `json:"-"` and stay out of the file.
pub record StoredModel : Type 0 where
  pub name : Bytes
  pub api_key_env : Bytes
  pub chat_path : Bytes
  pub type : Bytes
  pub base_url : Bytes
  pub enabled : Bool

pub record StoredProvider : Type 0 where
  pub name : Bytes
  pub type : Bytes
  pub base_url : Bytes
  pub chat_path : Bytes
  pub api_key_env : Bytes
  pub timeout : Bytes
  pub rate_limit_seconds : ℤ
  pub models : List Bytes
  pub model_configs : List StoredModel
  pub enabled : Bool

unfoldable pub stored_model : ModelConfig → StoredModel
stored_model m = record {
  name = m.name;
  api_key_env = m.api_key_env;
  chat_path = m.chat_path;
  type = m.type;
  base_url = m.base_url;
  enabled = m.enabled;
}

unfoldable pub stored : ProviderConfig → StoredProvider
unfolding stored_model
stored p = record {
  name = p.name;
  type = p.type;
  base_url = p.base_url;
  chat_path = p.chat_path;
  api_key_env = p.api_key_env;
  timeout = p.timeout_str;
  rate_limit_seconds = p.rate_limit_seconds;
  models = p.models;
  model_configs = map stored_model p.model_configs;
  enabled = p.enabled;
}

-- `file` is the content of providers.json, `none` if a write in place broke off, and `tested` the
-- results of the connection tests.
pub record Server : Type 0 where
  pub providers : List ProviderConfig
  pub file : Option (List StoredProvider)
  pub client : Client
  pub tested : Dict (Bytes × ℕ)

pub data Reply : Type 0 where
  created done : Reply
  bad_request not_found conflict internal_error : Reply

-- the bodies of the requests
pub record AddRequest : Type 0 where
  pub name : Bytes
  pub type : Bytes
  pub base_url : Bytes
  pub api_key_env : Bytes
  pub timeout : Bytes
  pub rate_limit_seconds : ℤ
  pub enabled : Bool
  pub models : List Bytes
  pub model_configs : List ModelConfig

pub record UpdateRequest : Type 0 where
  pub name : Bytes
  pub type : Bytes
  pub base_url : Bytes
  pub api_key_env : Bytes
  pub timeout : Bytes
  pub rate_limit_seconds : ℤ
  pub enabled : Bool

-- `SaveProviders`: the file afterwards, and whether it returned no error
unfoldable pub save_providers :
    FileSystem
    → List ProviderConfig
    → Option (List StoredProvider)
    → Option (List StoredProvider) × Bool
unfolding stored
save_providers fs ps file =
    if not fs.write_temp
    then (file, false)
    else if fs.rename
    then (some (map stored ps), true)
    else if fs.write_in_place
    then (some (map stored ps), true)
    else (none, false)

-- the loop of `findProviderIndex`; `none` is -1
unfoldable pub find_provider_index : Bytes → List ProviderConfig → Option ℕ
find_provider_index name [] = none
find_provider_index name (p ∷ ps) =
    if str_eq p.name name
    then some 0
    else elim (find_provider_index name ps) [ none ↦ none | some i ↦ some (suc i) ]

-- `providers[i]` changed through a pointer
unfoldable pub change_at :
    ℕ → (ProviderConfig → ProviderConfig) → List ProviderConfig → List ProviderConfig
change_at i f [] = []
change_at zero f (p ∷ ps) = f p ∷ ps
change_at (suc i) f (p ∷ ps) = p ∷ change_at i f ps

-- `append(providers[:i], providers[i+1:]...)`
unfoldable pub remove_at : ℕ → List ProviderConfig → List ProviderConfig
remove_at i [] = []
remove_at zero (p ∷ ps) = ps
remove_at (suc i) (p ∷ ps) = p ∷ remove_at i ps

-- the new provider of `handleAddProvider`, before its keys are resolved
abbrev pub provider_of : AddRequest → ProviderConfig
provider_of req = record {
  name = req.name;
  type = req.type;
  base_url = req.base_url;
  chat_path = [];
  api_key_env = req.api_key_env;
  api_key = [];
  timeout_str = req.timeout;
  timeout = pos 0;
  rate_limit_seconds = req.rate_limit_seconds;
  models = req.models;
  model_configs = req.model_configs;
  enabled = req.enabled;
}

-- the end of the four handlers that change a provider: save, and tell the client
abbrev pub commit : FileSystem → Server → Server × Reply
commit fs s =
    let (file, saved) = save_providers fs s.providers s.file in
    if saved
    then (record s { file = file; client = set_providers s.providers s.client }, done)
    else (record s { file = file }, internal_error)

-- a change of the provider with the name
abbrev pub change_named :
    FileSystem → Bytes → (ProviderConfig → ProviderConfig) → Server → Server × Reply
change_named fs name f s = elim (find_provider_index name s.providers) [
  | none ↦ (s, not_found)
  | some i ↦ commit fs (record s { providers = change_at i f s.providers })
]

-- `handleDeleteProvider`
unfoldable pub handle_delete_provider : FileSystem → Bytes → Server → Server × Reply
handle_delete_provider fs name s = elim (find_provider_index name s.providers) [
  | none ↦ (s, not_found)
  | some i ↦
      commit fs (record s { providers = remove_at i s.providers; tested = delete name s.tested })
]

-- `handleToggleProvider`; the request is the new value of `enabled`
unfoldable pub handle_toggle_provider : FileSystem → Bytes → Option Bool → Server → Server × Reply
handle_toggle_provider fs name none s = (s, bad_request)
handle_toggle_provider fs name (some enabled) s =
    change_named fs name (λ p. record p { enabled = enabled }) s

-- One request to the provider API.
pub data Command : Type 0 where
  add : Option AddRequest → Command
  update : Bytes → Option UpdateRequest → Command
  remove : Bytes → Command
  toggle : Bytes → Option Bool → Command
  update_model_configs : Bytes → Option (List ModelConfig) → Command

module _ (getenv : Bytes → Bytes) (parse_duration : Bytes → Option ℤ) where
  -- the body of `handleAddProvider` behind its checks; a failed save is rolled back in memory
  abbrev pub add_checked : FileSystem → AddRequest → Server → Server × Reply
  add_checked fs req s =
      let p = resolve_provider_keys getenv parse_duration (provider_of req) in
      let ps = s.providers ++ p ∷ [] in
      let (file, saved) = save_providers fs ps s.file in
      if saved
      then (record s { providers = ps; file = file; client = set_providers ps s.client }, created)
      else (record s { file = file }, internal_error)

  -- `handleAddProvider`; the request is `none` if its body is no JSON
  unfoldable pub handle_add_provider : FileSystem → Option AddRequest → Server → Server × Reply
  handle_add_provider fs none s = (s, bad_request)
  handle_add_provider fs (some req) s =
      if is_empty req.name || is_empty req.base_url
      then (s, bad_request)
      else elim (find_provider_index req.name s.providers) [
        | some i ↦ (s, conflict)
        | none ↦ add_checked fs req s
      ]

  -- the assignments of `handleUpdateProvider`
  abbrev pub updated : UpdateRequest → ProviderConfig → ProviderConfig
  updated req p = resolve_provider_keys getenv parse_duration (record p {
    type = override req.type p.type;
    base_url = override req.base_url p.base_url;
    api_key_env = req.api_key_env;
    timeout_str = req.timeout;
    rate_limit_seconds = req.rate_limit_seconds;
    enabled = req.enabled;
  })

  -- `handleUpdateProvider`
  unfoldable pub handle_update_provider :
      FileSystem → Bytes → Option UpdateRequest → Server → Server × Reply
  handle_update_provider fs name none s = (s, bad_request)
  handle_update_provider fs name (some req) s =
      if not (is_empty req.name) && not (str_eq req.name name)
      then (s, bad_request)
      else change_named fs name (updated req) s

  -- `handleUpdateModelConfigs`
  unfoldable pub handle_update_model_configs :
      FileSystem → Bytes → Option (List ModelConfig) → Server → Server × Reply
  handle_update_model_configs fs name none s = (s, bad_request)
  handle_update_model_configs fs name (some mcs) s =
      change_named fs name
        (λ p. resolve_provider_keys getenv parse_duration (record p { model_configs = mcs })) s

  unfoldable pub handle : FileSystem → Command → Server → Server × Reply
  unfolding handle_add_provider handle_update_provider handle_delete_provider handle_toggle_provider
      handle_update_model_configs
  handle fs (add req) = handle_add_provider fs req
  handle fs (update name req) = handle_update_provider fs name req
  handle fs (remove name) = handle_delete_provider fs name
  handle fs (toggle name req) = handle_toggle_provider fs name req
  handle fs (update_model_configs name req) = handle_update_model_configs fs name req
