-- ===== src/Auth/Callers.antt =====
-- `identifyCaller` against the credentials that a request presents.
use pi_pi_mink.Prelude.{
  true, false, ◌≡◌, ◌≢◌, refl, ◌++◌, ◌⊎◌, inl, inr, arith, Option, none, some, [], ◌∷◌, drop,
  length, Bool-cases, ◌&&◌, not, ap, Option-cases, if◌then◌else◌,
}
use pi_pi_mink.Prelude.Text.{
  Bytes, codes, str_eq, str_eq_iff, is_empty, has_prefix, trim_prefix, has_prefix_split,
  has_prefix-append,
}
use pi_pi_mink.Prelude.Dict.{Dict, lookup}
use pi_pi_mink.Auth.{
  auth_admin, User, Settings, Request, Caller, Backend, as_user, found, anonymous, identify_caller,
  email_of, from_bearer, from_cookie, from_session,
}

abbrev pub key_holder : Caller
key_holder = record { level = auth_admin; user_id = codes "admin:api-key"; user = none }

-- The request proves that `k` calls: by the global key, by a token, or by a session. A key that
-- is sent hides the two others, and a bearer token hides the session.
pub data Presents (c : Settings) (b : Backend) (r : Request) : Caller → Type 0 where
  key : r.api_key ≢ [] → r.api_key ≡ c.admin_api_key → Presents c b r key_holder
  token :
      (t : Bytes) (u : User)
      → r.api_key ≡ []
      → r.authorization ≡ codes "Bearer " ++ t
      → t ≢ []
      → b.get_user_by_api_token (b.hash_token t) ≡ some u
      → Presents c b r (as_user u)
  session :
      (decode : Bytes → Option (Dict Bytes)) (v : Bytes) (s : Dict Bytes) (e : Bytes) (u : User)
      → r.api_key ≡ []
      → has_prefix (codes "Bearer ") r.authorization ≡ false
      → b.secure_cookie ≡ some decode
      → r.cookie ≡ some v
      → decode v ≡ some s
      → lookup (codes "email") s ≡ some e
      → e ≢ []
      → b.get_user_by_email e ≡ some u
      → Presents c b r (as_user u)

pub is_empty→nil : (s : Bytes) → is_empty s ≡ true → s ≡ []
is_empty→nil [] h = refl
is_empty→nil (c ∷ s) h = cc

drop-append : (p t : Bytes) → drop (length p) (p ++ t) ≡ t
drop-append [] t = refl
drop-append (c ∷ p) t = drop-append p t

trim_prefix-append : (p t : Bytes) → trim_prefix p (p ++ t) ≡ t
unfolding trim_prefix
trim_prefix-append p t = rw (has_prefix-append p t) (drop-append p t)

trim_prefix_split : (p s : Bytes) → has_prefix p s ≡ true → s ≡ p ++ trim_prefix p s
unfolding trim_prefix
trim_prefix_split p s h = rw h (has_prefix_split p s h)

-- What a credential proves is what `identifyCaller` returns.
pub identify_caller_complete :
    {c : Settings} {b : Backend} {r : Request} {k : Caller}
    → Presents c b r k
    → identify_caller c b r ≡ k
unfolding identify_caller
identify_caller_complete {c} {b} {r} (key ne e) = ground (
  arith,
  str_eq_iff r.api_key c.admin_api_key,
  is_empty→nil r.api_key,
  is_empty→nil c.admin_api_key,
)
identify_caller_complete {c} {b} {r} (token t u e h ne f) =
    rw (e, h, has_prefix-append, trim_prefix-append) (ground (arith, is_empty→nil t))
identify_caller_complete {c} {b} {r} (session d v s e u h p sc ck de le ne f) =
    rw (h, p, sc, ck) (ground (arith, is_empty→nil e))

abbrev Justified : Settings → Backend → Request → Caller → Type 0
Justified c b r k = (k ≡ anonymous) ⊎ Presents c b r k

module _ (c : Settings) (b : Backend) (r : Request) (h : r.api_key ≡ []) where
  found_token :
      (t : Bytes) (o : Option User)
      → r.authorization ≡ codes "Bearer " ++ t
      → t ≢ []
      → b.get_user_by_api_token (b.hash_token t) ≡ o
      → Justified c b r (found o)
  found_token t none e ne f = inl refl
  found_token t (some u) e ne f = inr (token t u h e ne f)

  bearer-Justified :
      has_prefix (codes "Bearer ") r.authorization ≡ true
      → Justified c b r (from_bearer b r.authorization)
  bearer-Justified p =
      let t = trim_prefix (codes "Bearer ") r.authorization in
      elim (Bool-cases (is_empty t)) [
        | inl e ↦ rw e (inl refl)
        | inr ne ↦
            rw ne
              (found_token t _ (trim_prefix_split _ _ p) (λ e. ground (arith, ap is_empty e)) refl)
      ]

  module _ (p : has_prefix (codes "Bearer ") r.authorization ≡ false) where
    found_email :
        (d : Bytes → Option (Dict Bytes)) (v : Bytes) (s : Dict Bytes) (e : Bytes) (o : Option User)
        → b.secure_cookie ≡ some d
        → r.cookie ≡ some v
        → d v ≡ some s
        → lookup (codes "email") s ≡ some e
        → e ≢ []
        → b.get_user_by_email e ≡ o
        → Justified c b r (found o)
    found_email d v s e none sc ck de le ne f = inl refl
    found_email d v s e (some u) sc ck de le ne f = inr (session d v s e u h p sc ck de le ne f)

    email-Justified :
        (d : Bytes → Option (Dict Bytes)) (v : Bytes) (s : Dict Bytes) (e : Bytes)
        → b.secure_cookie ≡ some d
        → r.cookie ≡ some v
        → d v ≡ some s
        → lookup (codes "email") s ≡ some e
        → Justified c b r (if is_empty e then anonymous else found (b.get_user_by_email e))
    email-Justified d v s [] sc ck de le = inl refl
    email-Justified d v s (x ∷ e) sc ck de le =
        found_email d v s (x ∷ e) _ sc ck de le (λ q. cc) refl

    session-Justified :
        (d : Bytes → Option (Dict Bytes)) (v : Bytes) (o : Option (Dict Bytes))
        → b.secure_cookie ≡ some d
        → r.cookie ≡ some v
        → d v ≡ o
        → Justified c b r (from_session b o)
    session-Justified d v none sc ck de = inl refl
    session-Justified d v (some s) sc ck de = elim (Option-cases (lookup (codes "email") s)) [
      | inl absent ↦ rw (absent, email_of) (inl refl)
      | inr (e, le) ↦ rw (le, email_of) (email-Justified d v s e sc ck de le)
    ]

    cookie-Justified :
        (o : Option (Bytes → Option (Dict Bytes))) (w : Option Bytes)
        → b.secure_cookie ≡ o
        → r.cookie ≡ w
        → Justified c b r (from_cookie b o w)
    cookie-Justified none w sc ck = inl refl
    cookie-Justified (some d) none sc ck = inl refl
    cookie-Justified (some d) (some v) sc ck = session-Justified d v (d v) sc ck refl

key-Justified :
    (c : Settings) (b : Backend) (r : Request)
    → is_empty r.api_key ≡ false
    → Justified c b r (identify_caller c b r)
unfolding identify_caller
key-Justified c b r h =
    elim (Bool-cases (not (is_empty c.admin_api_key) && str_eq r.api_key c.admin_api_key)) [
      | inl match ↦
          rw (h, match)
            (inr (
              key (λ e. ground (arith, h, ap is_empty e))
                (ground (arith, str_eq_iff r.api_key c.admin_api_key))))
      | inr differ ↦ rw (h, differ) (inl refl)
    ]

-- Whoever is not anonymous has presented a credential.
pub identify_caller_sound :
    (c : Settings) (b : Backend) (r : Request)
    → (identify_caller c b r ≡ anonymous) ⊎ Presents c b r (identify_caller c b r)
unfolding identify_caller
identify_caller_sound c b r = elim (Bool-cases (is_empty r.api_key)) [
  | inr sent ↦ key-Justified c b r sent
  | inl absent ↦ elim (Bool-cases (has_prefix (codes "Bearer ") r.authorization)) [
    | inl p ↦ rw (absent, p) (bearer-Justified c b r (is_empty→nil _ absent) p)
    | inr p ↦ rw (absent, p) (cookie-Justified c b r (is_empty→nil _ absent) p _ _ refl refl)
  ]
]
