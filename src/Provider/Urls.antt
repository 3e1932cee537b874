-- ===== src/Provider/Urls.antt =====
-- The URLs of a provider's endpoints.
use mathlib.Core.List.{reverse, reverse-append}
use pi_pi_mink.Prelude.{ℕ, ◌≡◌, refl, [], ◌∷◌, ◌++◌}
use pi_pi_mink.Prelude.Text.{Bytes, trim_right}
use pi_pi_mink.Provider.{ProviderConfig, trim_slashes, chat_completions_url, responses_url}

reverse-concat : (s : Bytes) (c : ℕ) → reverse (s ++ c ∷ []) ≡ c ∷ reverse s
reverse-concat s c = reverse-append s (c ∷ [])

trim_slashes-slash : (s : Bytes) → trim_slashes (s ++ b'/' ∷ []) ≡ trim_slashes s
unfolding trim_right
trim_slashes-slash s = rw reverse-concat refl

-- A slash at the end of the base URL changes neither of the two endpoint URLs.
pub urls-slash :
    (p : ProviderConfig)
    → (chat_completions_url (record p { base_url = p.base_url ++ b'/' ∷ [] })
        ≡ chat_completions_url p)
      × (responses_url (record p { base_url = p.base_url ++ b'/' ∷ [] }) ≡ responses_url p)
unfolding chat_completions_url responses_url
urls-slash p = rw (trim_slashes-slash p.base_url) (refl, refl)
