-- ===== src/Tests/AdminCases.antt =====
-- Requests to the provider API.
use pi_pi_mink.Prelude.{true, false, ◌≡◌, ◌≢◌, ◌⊎◌, refl, none, some, List, [], ◌∷◌, ◌++◌}
use pi_pi_mink.Prelude.Int.{pos}
use pi_pi_mink.Prelude.Text.{codes, str_eq}
use pi_pi_mink.Client.{empty_client}
use pi_pi_mink.Provider.{ProviderConfig}
use pi_pi_mink.ProviderAdmin.{
  FileSystem, Server, created, internal_error, AddRequest, add, handle, handle_add_provider,
  handle_delete_provider, find_provider_index, save_providers, stored,
}
use pi_pi_mink.ProviderAdmin.Names.{Distinct, handle-Distinct}
use pi_pi_mink.ProviderAdmin.Outcome.{
  Promises, Between, handle-Promises, handle_delete_provider_failed,
}
use pi_pi_mink.Tests.ProviderCases.{azure, env, no_durations}

abbrev full_disk : FileSystem
full_disk = record { write_temp = false; rename = true; write_in_place = true }

abbrev one_provider : Server
one_provider = record {
  providers = azure ∷ [];
  file = some (stored azure ∷ []);
  client = empty_client;
  tested = [];
}

abbrev local_server : AddRequest
local_server = record {
  name = codes "local";
  type = [];
  base_url = codes "http://localhost:11434";
  api_key_env = [];
  timeout = [];
  rate_limit_seconds = pos 0;
  enabled = true;
  models = [];
  model_configs = [];
}

rejected :
    (handle_add_provider env no_durations full_disk (some local_server) one_provider).1
    ≡ internal_error
unfolding handle_add_provider find_provider_index save_providers str_eq
rejected = refl

handle-Distinct_example :
    Distinct (handle env no_durations full_disk (add (some local_server)) one_provider).0.providers
unfolding find_provider_index
handle-Distinct_example =
    handle-Distinct env no_durations full_disk (add (some local_server)) one_provider (refl, tt)

handle-Promises_example :
    Promises one_provider
      (handle env no_durations full_disk (add (some local_server)) one_provider).0
      (handle env no_durations full_disk (add (some local_server)) one_provider).1
handle-Promises_example =
    handle-Promises env no_durations full_disk (add (some local_server)) one_provider

not_created :
    (handle_add_provider env no_durations full_disk (some local_server) one_provider).1 ≢ created
unfolding handle_add_provider find_provider_index save_providers str_eq
not_created e = cc

handle_delete_provider_failed_example :
    let t = (handle_delete_provider full_disk (codes "azure") one_provider).0 in
    (front : List ProviderConfig) × (back : List ProviderConfig) × Between
      (codes "azure")
      one_provider.providers
      front
      back
    × (t.providers ≡ front ++ back)
    × (t.client ≡ one_provider.client)
    × ((t.file ≡ one_provider.file) ⊎ (t.file ≡ none))
unfolding handle_delete_provider find_provider_index save_providers str_eq
handle_delete_provider_failed_example =
    handle_delete_provider_failed full_disk (codes "azure") one_provider refl
