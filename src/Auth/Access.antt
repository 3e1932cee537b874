-- ===== src/Auth/Access.antt =====
-- What the middleware lets through.
use pi_pi_mink.Prelude.{
  true, false, ◌≡◌, ◌≢◌, refl, ◌++◌, ◌⊎◌, inl, inr, arith, none, some, [], Bool-cases, Option-cases,
  ◌≤◌, ap, ◌<◌,
}
use pi_pi_mink.Prelude.Text.{Bytes, codes, str_eq, str_eq_iff, has_prefix}
use pi_pi_mink.Auth.{
  auth_public, auth_admin, rank, User, Settings, Request, Context, next, redirect_to_login, Caller,
  Backend, as_user, anonymous, identify_caller, context_of, required_level, is_public_path,
  is_console_path, oauth_enabled, auth_middleware,
}
use pi_pi_mink.Auth.Callers.{Presents, key, token, session, identify_caller_sound, is_empty→nil}
use pi_pi_mink.Auth.Paths.{required_level_admin}

pub auth_middleware_next :
    (c : Settings) (b : Backend) (r : Request) {x : Context}
    → is_public_path r.path ≡ false
    → auth_middleware c b r ≡ next x
    → (rank (required_level c r.path r.method) ≤ rank x.level)
      × (x ≡ context_of (identify_caller c b r))
unfolding auth_middleware
auth_middleware_next c b r p h = ground arith

-- The role of an administrator, or the global key.
abbrev pub IsAdmin : Settings → Request → Context → Type 0
IsAdmin c r x =
    ((r.api_key ≢ []) × (r.api_key ≡ c.admin_api_key) × (x.user ≡ none) × (x.api_key_auth ≡ true))
    ⊎ ((u : User) × (x.user ≡ some u) × (u.role ≡ codes "admin") × (x.api_key_auth ≡ false))

Presents-IsAdmin :
    {c : Settings} {b : Backend} {r : Request} {k : Caller}
    → Presents c b r k
    → k.level ≡ auth_admin
    → IsAdmin c r (context_of k)
unfolding as_user
Presents-IsAdmin (key ne e) h = inl (ne, e, refl, refl)
Presents-IsAdmin (token t u a e ne f) h =
    inr (u, refl, ground (arith, str_eq_iff u.role (codes "admin")), ground arith)
Presents-IsAdmin (session d v s e u a p sc ck de le ne f) h =
    inr (u, refl, ground (arith, str_eq_iff u.role (codes "admin")), ground arith)

not_public :
    (rest : Bytes) → rest ≢ codes "status" → is_public_path (codes "/admin/" ++ rest) ≡ false
unfolding is_public_path has_prefix str_eq
not_public rest ne = ground (arith, str_eq_iff rest (codes "status"))

is_admin_level : (k : Caller) → rank auth_admin ≤ rank k.level → k.level ≡ auth_admin
is_admin_level k h = ground arith

-- the level of a caller above public is proved by a credential
Presents-of_level :
    (c : Settings) (b : Backend) (r : Request)
    → 0 < rank (identify_caller c b r).level
    → Presents c b r (identify_caller c b r)
Presents-of_level c b r h = elim (identify_caller_sound c b r) [
  | inl e ↦ absurd (ground (arith, ap (λ (k : Caller). rank k.level) e))
  | inr p ↦ p
]

-- Below /admin/, all but the status page is reached only by an administrator: with the global
-- key, or as a user whose role is admin, proved by a token or a session.
pub auth_middleware-IsAdmin :
    (c : Settings) (b : Backend) (r : Request) (rest : Bytes) {x : Context}
    → r.path ≡ codes "/admin/" ++ rest
    → rest ≢ codes "status"
    → auth_middleware c b r ≡ next x
    → IsAdmin c r x × Presents c b r (identify_caller c b r)
auth_middleware-IsAdmin c b r rest {x} e ne h =
    let (enough, is_ctx) = auth_middleware_next c b r (rw e (not_public rest ne)) h in
    let level : 2 ≤ rank x.level = rw (e, required_level_admin c rest r.method) at enough in
    let admin : 2 ≤ rank (identify_caller c b r).level = rw is_ctx at level in
    let p = Presents-of_level c b r (omega arith) in
    (rw is_ctx (Presents-IsAdmin p (is_admin_level (identify_caller c b r) admin)), p)

-- The login redirect is for the console alone, and only where OAuth is set up.
pub auth_middleware_redirect :
    (c : Settings) (b : Backend) (r : Request)
    → auth_middleware c b r ≡ redirect_to_login
    → (oauth_enabled c ≡ true) × (is_console_path r.path ≡ true) × (is_public_path r.path ≡ false)
unfolding auth_middleware
auth_middleware_redirect c b r h = ground arith

-- A request with no credential at all.
pub record IsBare (r : Request) : Type 0 where
  pub no_key : r.api_key ≡ []
  pub no_token : has_prefix (codes "Bearer ") r.authorization ≡ false
  pub no_cookie : r.cookie ≡ none

bare-anonymous :
    (c : Settings) (b : Backend) (r : Request) → IsBare r → identify_caller c b r ≡ anonymous
unfolding identify_caller
bare-anonymous c b r h = elim (Option-cases b.secure_cookie) [
  | inl e ↦ rw (h.no_key, h.no_token, e) refl
  | inr (d, e) ↦ rw (h.no_key, h.no_token, h.no_cookie, e) refl
]

required_level_open :
    (c : Settings) (path method : Bytes)
    → oauth_enabled c ≡ true
    → c.require_auth_for_chat ≡ true
    → required_level c path method ≡ auth_public
    → path ≡ codes "/auth/me"
unfolding required_level
required_level_open c path method o q h =
    unfold oauth_enabled in ground (arith, str_eq_iff path (codes "/auth/me"))

-- Where OAuth is set up and the chat needs a login, a request with no credential gets through to
-- a public path and to /auth/me, and to nothing else.
pub auth_middleware_locked :
    (c : Settings) (b : Backend) (r : Request) {x : Context}
    → oauth_enabled c ≡ true
    → c.require_auth_for_chat ≡ true
    → IsBare r
    → auth_middleware c b r ≡ next x
    → (is_public_path r.path ≡ true) ⊎ (r.path ≡ codes "/auth/me")
auth_middleware_locked c b r o q bare h = elim (Bool-cases (is_public_path r.path)) [
  | inl open_path ↦ inl open_path
  | inr p ↦
      let (enough, e) = auth_middleware_next c b r p h in
      let low : rank (required_level c r.path r.method) ≤ 0 =
        rw (e, bare-anonymous c b r bare) at enough in
      inr (required_level_open c r.path r.method o q (ground arith))
]

-- A wrong key in X-API-Key is no 401 by itself: on a path that needs no login the request goes
-- on, as an anonymous one, whatever else it presents.
pub auth_middleware_wrong_key :
    (c : Settings) (b : Backend) (r : Request)
    → r.api_key ≢ []
    → r.api_key ≢ c.admin_api_key
    → required_level c r.path r.method ≡ auth_public
    → auth_middleware c b r ≡ next (context_of anonymous)
unfolding auth_middleware identify_caller
auth_middleware_wrong_key c b r ne wrong h =
    ground (arith, str_eq_iff r.api_key c.admin_api_key, is_empty→nil r.api_key)
