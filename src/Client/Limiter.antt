-- ===== src/Client/Limiter.antt =====
-- The spacing of requests by the limiter of a provider.
use pi_pi_mink.Prelude.{ℕ, ◌+◌, ◌*◌, ◌≤◌, ◌≡◌, refl, Option, none, some, List, [], ◌∷◌, arith}
use pi_pi_mink.Prelude.Int.{to_ℕ}
use pi_pi_mink.Client.{RateLimiter, wait, update_last_request_time}

-- One request: the caller comes `idle` after the last one was done, is up to `late` slower than
-- it asked to sleep, and takes `busy`.
pub record Visit : Type 0 where
  pub idle : ℕ
  pub late : ℕ
  pub busy : ℕ

-- When a request is sent, and when it is done.
pub record Sent : Type 0 where
  pub at : ℕ
  pub done : ℕ

-- `rl.Wait()`, the request, `rl.UpdateLastRequestTime()`, one visit after the other
unfoldable pub visits : ℕ → RateLimiter → List Visit → List Sent
visits clock r [] = []
visits clock r (v ∷ vs) =
    let now = clock + v.idle in
    let at = now + wait now r + v.late in
    let done = at + v.busy in
    record { at = at; done = done } ∷ visits done (update_last_request_time done r) vs

-- each request is sent at least `gap` after the one before it was done
abbrev pub Spaced : ℕ → Option ℕ → List Sent → Type 0
Spaced gap last [] = Unit
Spaced gap none (s ∷ ss) = Spaced gap (some s.done) ss
Spaced gap (some t) (s ∷ ss) = (t + gap ≤ s.at) × Spaced gap (some s.done) ss

none_sent : (gap : ℕ) (o : Option ℕ) → Spaced gap o []
none_sent gap none = tt
none_sent gap (some t) = tt

Spaced-cons :
    (gap : ℕ) (o : Option ℕ) (s : Sent) (ss : List Sent)
    → ((t : ℕ) → o ≡ some t → t + gap ≤ s.at)
    → Spaced gap (some s.done) ss
    → Spaced gap o (s ∷ ss)
Spaced-cons gap none s ss h rest = rest
Spaced-cons gap (some t) s ss h rest = (h t refl, rest)

-- after its sleep the caller is far enough from the last request
wait_enough :
    (now : ℕ) (r : RateLimiter) (t : ℕ)
    → r.last_request_time ≡ some t
    → t + to_ℕ r.wait_seconds * 1000000000 ≤ now + wait now r
unfolding wait
wait_enough now r t e = ground (arith, e)

-- Requests that come one after the other are spaced by the seconds of the limiter, however long
-- the callers pause or the requests take.
pub visits-Spaced :
    (vs : List Visit) (clock : ℕ) (r : RateLimiter)
    → Spaced (to_ℕ r.wait_seconds * 1000000000) r.last_request_time (visits clock r vs)
unfolding visits update_last_request_time
visits-Spaced [] clock r = none_sent (to_ℕ r.wait_seconds * 1000000000) r.last_request_time
visits-Spaced (v ∷ vs) clock r =
    let now = clock + v.idle in
    let at = now + wait now r + v.late in
    let done = at + v.busy in
    Spaced-cons (to_ℕ r.wait_seconds * 1000000000) r.last_request_time
      (record { at = at; done = done }) (visits done (update_last_request_time done r) vs)
      (λ t e. omega (arith, wait_enough now r t e))
      (visits-Spaced vs done (update_last_request_time done r))
