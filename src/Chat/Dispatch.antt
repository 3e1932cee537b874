-- ===== src/Chat/Dispatch.antt =====
-- Which provider a chat goes to, and how the limiter holds it back.
use pi_pi_mink.Prelude.{
  ℕ, zero, suc, ◌+◌, ◌*◌, ◌≤◌, Bool, true, Option, some, List, [], ◌∷◌, ◌≡◌, refl, ◌⊎◌, inl, inr,
  Bool-cases, Option-cases, arith, All, length,
}
use pi_pi_mink.Prelude.Int.{ℤ, to_ℕ}
use pi_pi_mink.Prelude.Text.{Bytes}
use pi_pi_mink.Json.{Fields}
use pi_pi_mink.Answers.{ResponsesBody}
use pi_pi_mink.Models.{ModelInfo}
use pi_pi_mink.Provider.{ProviderConfig, for_model}
use pi_pi_mink.Client.{
  Client, RateLimiter, find_provider, rate_limiter_for, wait, update_last_request_time,
}
use pi_pi_mink.Requests.{Request}
use pi_pi_mink.Chat.{Exchange, chat_with_model, touch, limiter_at, held, released}
use pi_pi_mink.Chat.Made.{SentTo, endpoint, credentials, chat_by_type-SentTo}

limiter_at-touch :
    (now i : ℕ) (r : RateLimiter) (rs : List RateLimiter)
    → limiter_at i rs ≡ some r
    → limiter_at i (touch now i rs) ≡ some (update_last_request_time now r)
unfolding limiter_at touch
limiter_at-touch now i r [] e = cc
limiter_at-touch now zero r (s ∷ rs) e = ground arith
limiter_at-touch now (suc i) r (s ∷ rs) e = limiter_at-touch now i r rs e

held-Spaced :
    (now i last : ℕ) (c : Client) (r : RateLimiter)
    → limiter_at i c.limiters ≡ some r
    → r.last_request_time ≡ some last
    → to_ℕ r.wait_seconds * 1000000000 + last ≤ now + held now (some i) c
unfolding held wait
held-Spaced now i last c r e t = rw (e, t, held, wait) (omega arith)

released-limiter :
    (done i : ℕ) (r : RateLimiter) (c : Client)
    → limiter_at i c.limiters ≡ some r
    → limiter_at i (released done (some i) c).limiters
      ≡ some (record r { last_request_time = some done })
unfolding released update_last_request_time
released-limiter done i r c e = limiter_at-touch done i r c.limiters e

module _ (send : ℕ → Request → Exchange) (decode : Bytes → Option Fields)
    (decode_responses : Bytes → Option ResponsesBody) (uses_mlx : Bool) (max_tokens : ℤ) where
  -- A chat asks a provider only for an enabled model whose source is a provider of the table. All
  -- its requests, two at most, then go to the endpoint of that provider with the overrides for the
  -- model, and with the key of that endpoint.
  pub chat_with_model-SentTo :
      (now done : ℕ) (info : ModelInfo) (model : Bytes) (messages : List Fields) (c : Client)
      → let run =
          chat_with_model send decode decode_responses uses_mlx max_tokens now done info model
            messages c in
        (run.outcome.made ≡ [])
        ⊎ ((info.enabled ≡ true)
            × ((p : ProviderConfig) × (find_provider info.source c ≡ some p)
                × (All
                      (SentTo (endpoint (for_model p model)) (credentials (for_model p model)))
                      run.outcome.made
                    × (length run.outcome.made ≤ 2))))
  unfolding chat_with_model
  chat_with_model-SentTo now done info model messages c = elim (Bool-cases info.enabled) [
    | inr off ↦ inl (simp off refl)
    | inl on ↦ elim (Option-cases (find_provider info.source c)) [
      | inl e ↦ inl (simp (on, e) refl)
      | inr (p, e) ↦ inr (
        on,
        (
          p,
          e,
          simp (on, e)
              (chat_by_type-SentTo send decode decode_responses uses_mlx max_tokens
                (for_model p model) model messages),
        ),
      )
    ]
  ]

  -- A chat with a provider whose limiter has seen a request sleeps until the wait of the limiter
  -- has passed since then, and leaves the limiter with the time at which the chat returned.
  pub chat_with_model-Spaced :
      (now done : ℕ) (info : ModelInfo) (model : Bytes) (messages : List Fields) (c : Client)
      (p : ProviderConfig) (i last : ℕ) (r : RateLimiter)
      → info.enabled ≡ true
      → find_provider info.source c ≡ some p
      → rate_limiter_for (for_model p model).name c ≡ some i
      → limiter_at i c.limiters ≡ some r
      → r.last_request_time ≡ some last
      → let run =
          chat_with_model send decode decode_responses uses_mlx max_tokens now done info model
            messages c in
        (to_ℕ r.wait_seconds * 1000000000 + last ≤ now + run.slept)
        × (limiter_at i run.client.limiters ≡ some (record r { last_request_time = some done }))
  unfolding chat_with_model
  chat_with_model-Spaced now done info model messages c p i last r on e l at t =
      simp (on, e, l) (held-Spaced now i last c r at t, released-limiter done i r c at)
