-- ===== src/Tests/AuthCases.antt =====
-- Requests through the middleware of cmd/server/auth_middleware.go.
use pi_pi_mink.Prelude.{true, false, ◌≡◌, refl, none, some, [], ◌⊎◌, if◌then◌else◌}
use pi_pi_mink.Prelude.Text.{codes, str_eq, has_prefix, trim_prefix}
use pi_pi_mink.Prelude.Dict.{lookup}
use pi_pi_mink.Auth.{
  Settings, Request, Backend, Context, User, next, redirect_to_login, unauthorized, auth_middleware,
  auth_admin, required_level, is_public_path, identify_caller, context_of, anonymous, oauth_enabled,
  as_user,
}
use pi_pi_mink.Auth.Callers.{Presents, token, key, key_holder, identify_caller_complete}
use pi_pi_mink.Auth.Callers
use pi_pi_mink.Auth.Access
use pi_pi_mink.Auth.Access.{IsAdmin, IsBare}

abbrev settings : Settings
settings = record {
  admin_api_key = codes "secret";
  oauth_issuer_url = codes "https://id";
  oauth_client_id = codes "pink";
  oauth_client_secret = codes "hush";
  require_auth_for_chat = true;
}

abbrev root : User
root = record { id = codes "u1"; role = codes "admin" }

abbrev backend : Backend
backend = record {
  hash_token = λ t. t;
  get_user_by_api_token = λ h. if str_eq h (codes "tok") then some root else none;
  get_user_by_email = λ e. none;
  secure_cookie = none;
}

abbrev request : Request
request = record {
  path = codes "/admin/settings";
  method = codes "PATCH";
  api_key = [];
  authorization = codes "Bearer tok";
  cookie = none;
}

abbrev bare : Request
bare = record request { path = codes "/auth/me"; authorization = [] }

abbrev context : Context
context = record {
  level = auth_admin;
  user_id = codes "u1";
  api_key_auth = false;
  user = some root;
}

middleware : Unit {0}
unfolding auth_middleware identify_caller required_level is_public_path oauth_enabled str_eq
    has_prefix trim_prefix lookup
middleware = tt

admin_by_token : auth_middleware settings backend request ≡ next context
unfolding middleware
admin_by_token = refl

no_credential :
    auth_middleware settings backend (record request { authorization = [] }) ≡ unauthorized
unfolding middleware
no_credential = refl

console_login :
    auth_middleware settings backend
      (record request { path = codes "/console/models"; authorization = [] })
    ≡ redirect_to_login
unfolding middleware
console_login = refl

auth_middleware-IsAdmin_example :
    IsAdmin settings request context
    × Presents settings backend request (identify_caller settings backend request)
unfolding middleware
auth_middleware-IsAdmin_example =
    Access.auth_middleware-IsAdmin settings backend request (codes "settings") refl (λ e. cc) refl

auth_middleware_locked_example : (is_public_path bare.path ≡ true) ⊎ (bare.path ≡ codes "/auth/me")
unfolding middleware
auth_middleware_locked_example =
    Access.auth_middleware_locked settings backend bare refl refl
      (record { no_key = refl; no_token = refl; no_cookie = refl }) refl

auth_middleware_wrong_key_example :
    auth_middleware settings backend (record bare { api_key = codes "guess" })
    ≡ next (context_of anonymous)
unfolding middleware
auth_middleware_wrong_key_example =
    Access.auth_middleware_wrong_key settings backend (record bare { api_key = codes "guess" })
      (λ e. cc) (λ e. cc) refl

token_of_root : Presents settings backend request (as_user root)
unfolding str_eq
token_of_root = token (codes "tok") root refl refl (λ e. cc) refl

identify_caller_complete_example : identify_caller settings backend request ≡ as_user root
identify_caller_complete_example = identify_caller_complete token_of_root

identify_caller_sound_example :
    (identify_caller settings backend request ≡ anonymous)
    ⊎ Presents settings backend request (identify_caller settings backend request)
identify_caller_sound_example = Callers.identify_caller_sound settings backend request
