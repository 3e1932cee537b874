-- ===== src/Auth/Paths.antt =====
-- What the paths of the API need.
use pi_pi_mink.Prelude.{false, ◌≡◌, ◌≢◌, refl, ◌++◌, arith}
use pi_pi_mink.Prelude.Text.{Bytes, codes, str_eq, str_eq_iff, has_prefix}
use pi_pi_mink.Auth.{auth_admin, Settings, required_level}

-- Every path below /admin/ needs an administrator, whatever the settings and the method.
pub required_level_admin :
    (c : Settings) (rest method : Bytes)
    → required_level c (codes "/admin/" ++ rest) method ≡ auth_admin
unfolding required_level has_prefix str_eq
required_level_admin c rest method = refl

-- So does every path that begins with /providers.
pub required_level_providers :
    (c : Settings) (rest method : Bytes)
    → required_level c (codes "/providers" ++ rest) method ≡ auth_admin
unfolding required_level has_prefix str_eq
required_level_providers c rest method = refl

no_chat : (rest : Bytes) → str_eq (codes "/models" ++ rest) (codes "/chat") ≡ false
unfolding str_eq
no_chat rest = refl

-- Below /models, all but the method GET needs an administrator.
pub required_level_models :
    (c : Settings) (rest method : Bytes)
    → method ≢ codes "GET"
    → required_level c (codes "/models" ++ rest) method ≡ auth_admin
unfolding required_level has_prefix
required_level_models c rest method h =
    ground (arith, str_eq_iff method (codes "GET"), no_chat rest)
