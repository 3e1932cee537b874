-- ===== src/Auth.antt =====
-- cmd/server/auth_middleware.go: who calls, what a path needs, and what the middleware answers.
-- The database, the hash of a token and the cookie codec are parameters, of which nothing is
-- assumed. `OAuthEnabled` is that of internal/config/config.go.
pub mod Paths
pub mod Callers
pub mod Access
use pi_pi_mink.Prelude.{
  ℕ, Bool, true, false, ◌&&◌, ◌||◌, not, Option, none, some, List, [], ◌∷◌, if◌then◌else◌, leb, ltb,
}
use pi_pi_mink.Prelude.Text.{Bytes, codes, str_eq, is_empty, has_prefix, trim_prefix}
use pi_pi_mink.Prelude.Dict.{Dict, lookup}

pub data AuthLevel : Type 0 where
  auth_public auth_user auth_admin : AuthLevel

-- the `iota` of the Go constants
abbrev pub rank : AuthLevel → ℕ
rank auth_public = 0
rank auth_user = 1
rank auth_admin = 2

-- the fields of `UserRow` that the middleware reads
pub record User : Type 0 where
  pub id : Bytes
  pub role : Bytes

pub record Settings : Type 0 where
  pub admin_api_key : Bytes
  pub oauth_issuer_url : Bytes
  pub oauth_client_id : Bytes
  pub oauth_client_secret : Bytes
  pub require_auth_for_chat : Bool

-- A header that is absent is the empty string, as `Header.Get` returns it. `cookie` is the value
-- of the session cookie.
pub record Request : Type 0 where
  pub path : Bytes
  pub method : Bytes
  pub api_key : Bytes
  pub authorization : Bytes
  pub cookie : Option Bytes

-- What the handlers find in the request's context.
pub record Context : Type 0 where
  pub level : AuthLevel
  pub user_id : Bytes
  pub api_key_auth : Bool
  pub user : Option User

pub data Answer : Type 0 where
  next : Context → Answer
  redirect_to_login unauthorized : Answer

pub record Caller : Type 0 where
  pub level : AuthLevel
  pub user_id : Bytes
  pub user : Option User

unfoldable pub oauth_enabled : Settings → Bool
oauth_enabled c =
    not (is_empty c.oauth_issuer_url)
    && not (is_empty c.oauth_client_id)
    && not (is_empty c.oauth_client_secret)

unfoldable pub is_public_path : Bytes → Bool
is_public_path path =
    str_eq path (codes "/auth/login")
    || str_eq path (codes "/auth/callback")
    || str_eq path (codes "/auth/logout")
    || has_prefix (codes "/swagger/") path
    || has_prefix (codes "/assets/") path
    || str_eq path (codes "/admin/status")
    || str_eq path (codes "/metrics")
    || str_eq path (codes "/favicon.ico")

abbrev pub is_chat_path : Bytes → Bool
is_chat_path path =
    str_eq path (codes "/chat") || has_prefix (codes "/v1/") path || has_prefix (codes "/api/") path

abbrev pub is_console_path : Bytes → Bool
is_console_path path = has_prefix (codes "/console") path || str_eq path (codes "/")

unfoldable pub required_level : Settings → Bytes → Bytes → AuthLevel
unfolding oauth_enabled
required_level c path method =
    let chat : AuthLevel = if c.require_auth_for_chat then auth_user else auth_public in
    if is_chat_path path
    then chat
    else if has_prefix (codes "/models") path
    then (if not (str_eq method (codes "GET")) then auth_admin else chat)
    else if has_prefix (codes "/benchmarks/") path
    then chat
    else if is_console_path path
    then (if oauth_enabled c then auth_user else auth_public)
    else if str_eq path (codes "/auth/me")
    then auth_public
    else if has_prefix (codes "/auth/tokens") path
    then auth_user
    else if has_prefix (codes "/admin/") path
    then auth_admin
    else if has_prefix (codes "/providers") path
    then auth_admin
    else auth_admin

abbrev pub anonymous : Caller
anonymous = record { level = auth_public; user_id = codes "anonymous"; user = none }

-- `lvl := AuthUser; if user.Role == "admin" { lvl = AuthAdmin }`
unfoldable pub as_user : User → Caller
as_user u = record {
  level = if str_eq u.role (codes "admin") then auth_admin else auth_user;
  user_id = u.id;
  user = some u;
}

-- an answer of the database: `none` for an error as well as for no row
abbrev pub found : Option User → Caller
found none = anonymous
found (some u) = as_user u

-- What lies outside of the program: `secure_cookie` is `none` where no codec is set up.
pub record Backend : Type 0 where
  pub hash_token : Bytes → Bytes
  pub get_user_by_api_token : Bytes → Option User
  pub get_user_by_email : Bytes → Option User
  pub secure_cookie : Option (Bytes → Option (Dict Bytes))

-- the e-mail address in a session; a missing key reads as the empty string
abbrev pub email_of : Dict Bytes → Bytes
email_of session = elim (lookup (codes "email") session) [ none ↦ [] | some e ↦ e ]

abbrev pub from_session : Backend → Option (Dict Bytes) → Caller
from_session b none = anonymous
from_session b (some session) =
    let email = email_of session in
    if is_empty email then anonymous else found (b.get_user_by_email email)

abbrev pub from_cookie : Backend → Option (Bytes → Option (Dict Bytes)) → Option Bytes → Caller
from_cookie b none cookie = anonymous
from_cookie b (some decode) none = anonymous
from_cookie b (some decode) (some value) = from_session b (decode value)

abbrev pub from_bearer : Backend → Bytes → Caller
from_bearer b authorization =
    let token = trim_prefix (codes "Bearer ") authorization in
    if is_empty token then anonymous else found (b.get_user_by_api_token (b.hash_token token))

unfoldable pub identify_caller : Settings → Backend → Request → Caller
unfolding as_user
identify_caller c b r =
    if not (is_empty r.api_key)
    then (if not (is_empty c.admin_api_key) && str_eq r.api_key c.admin_api_key
        then record { level = auth_admin; user_id = codes "admin:api-key"; user = none }
        else anonymous)
    else if has_prefix (codes "Bearer ") r.authorization
    then from_bearer b r.authorization
    else from_cookie b b.secure_cookie r.cookie

abbrev pub is_none {ℓ} : {A : Type ℓ} → Option A → Bool
is_none none = true
is_none (some a) = false

-- phase 5: the context of a caller who may proceed
abbrev pub context_of : Caller → Context
context_of k = record {
  level = k.level;
  user_id = k.user_id;
  api_key_auth = leb (rank auth_admin) (rank k.level) && is_none k.user;
  user = k.user;
}

abbrev pub public_context : Context
public_context = record {
  level = auth_public;
  user_id = codes "anonymous";
  api_key_auth = false;
  user = none;
}

-- phase 4, for a caller who was identified
abbrev pub enforce : Settings → Request → Caller → Answer
enforce c r k =
    if ltb (rank k.level) (rank (required_level c r.path r.method))
    then (if oauth_enabled c && is_console_path r.path then redirect_to_login else unauthorized)
    else next (context_of k)

unfoldable pub auth_middleware : Settings → Backend → Request → Answer
auth_middleware c b r =
    if is_public_path r.path then next public_context else enforce c r (identify_caller c b r)
