-- ===== src/Tests/SettingsCases.antt =====
-- Settings that are read, changed and read again.
use pi_pi_mink.Prelude.{
  ℕ, zero, suc, Bool, true, false, ◌≡◌, ◌⊎◌, refl, sym, arith, Option, none, some, [], ◌∷◌,
}
use pi_pi_mink.Prelude.Int.{ℤ, pos, negsuc}
use pi_pi_mink.Prelude.Text.{Bytes, codes, str_eq}
use pi_pi_mink.Prelude.Dict.{Dict, lookup, insert}
use pi_pi_mink.Json.{Value, text}
use pi_pi_mink.Settings.{
  Conversions, Config, k_otel_enabled, parse_bool_value, set_setting_value, get_setting_value,
  k_port, key_of, find_key, get_setting, set_setting, value_to_env_string,
}
use pi_pi_mink.Settings.RoundTrip.{IsLawful, set_setting_value-get_setting_value}
use pi_pi_mink.Settings.DotEnv.{
  Disk, Files, merge, patch_dot_env, read_dot_env, patched, Failed, patch_dot_env-Replaced,
}
use pi_pi_mink.Settings.Patch.{
  State, SettingChange, Answered, handle_patch_settings, handle_patch_settings-Untouched,
}
use pi_pi_mink.Settings.Patch.Refused.{handle_patch_settings_refused}
use pi_pi_mink.ConfigLoad.{load_settings}
use pi_pi_mink.ConfigLoad.Reload.{set_setting-load_settings_lem}

abbrev print : Value → Bytes
print (text s) = s
print v = []

abbrev no_bool : Bytes → Option Bool
no_bool s = none

abbrev no_int : Bytes → Option ℤ
no_int s = none

abbrev no_float : Bytes → Option ℕ
no_float s = none

-- a sign and a size
abbrev duration_text : ℤ → Bytes
duration_text (pos n) = zero ∷ n ∷ []
duration_text (negsuc n) = suc zero ∷ n ∷ []

abbrev duration_of : Bytes → Option ℤ
duration_of (zero ∷ n ∷ []) = some (pos n)
duration_of (suc zero ∷ n ∷ []) = some (negsuc n)
duration_of _ = none

abbrev int_of : ℕ → ℤ
int_of bits = pos bits

abbrev float_of : ℤ → ℕ
float_of n = 0

abbrev whole_of : ℕ → Option ℤ
whole_of bits = none

abbrev int_text : ℤ → Bytes
int_text n = []

abbrev float_text : ℕ → Bytes
float_text bits = bits ∷ []

abbrev conversions : Conversions
conversions = record {
  sprint = print;
  parse_bool = no_bool;
  atoi = no_int;
  parse_float = no_float;
  parse_duration = duration_of;
  duration_string = duration_text;
  int_of_float = int_of;
  float_of_int = float_of;
  whole = whole_of;
  format_int = int_text;
  format_float = float_text;
}

duration_of-duration_text : (d : ℤ) → duration_of (duration_text d) ≡ some d
duration_of-duration_text (pos n) = refl
duration_of-duration_text (negsuc n) = refl

conversions-IsLawful : IsLawful conversions
conversions-IsLawful = record { prints = λ s. refl; reads = duration_of-duration_text }

abbrev config : Config
config = load_settings conversions []

set_setting_value-get_setting_value_example :
    set_setting_value conversions (codes "PORT") (text config.port) config []
    ≡ some (config, insert (codes "PORT") config.port [])
unfolding get_setting_value get_setting key_of find_key str_eq
set_setting_value-get_setting_value_example =
    set_setting_value-get_setting_value conversions (codes "PORT") (text config.port) config []
      conversions-IsLawful refl

set_setting-load_settings_lem_example :
    load_settings conversions (insert (codes "PORT") (codes "9090") [])
    ≡ record config { port = codes "9090" }
unfolding set_setting
set_setting-load_settings_lem_example =
    set_setting-load_settings_lem conversions k_port b'9' (codes "090") []
      (record config { port = codes "9090" }) conversions-IsLawful refl

-- a file with one variable
abbrev read_one : Bytes → Option (Dict Bytes)
read_one [] = some []
read_one (c ∷ s) = some ((codes "PORT", s) ∷ [])

abbrev marshal_one : Dict Bytes → Option Bytes
marshal_one [] = some []
marshal_one ((k, v) ∷ m) = some (b'=' ∷ v)

abbrev disk : Disk
disk = record { has_directory = true; write = true; part = none; rename = true; remove = true }

abbrev no_files : Files
no_files = record { file = none; temp = none }

abbrev port_update : Dict Bytes
port_update = (codes "PORT", codes "90") ∷ []

reads_back :
    (existing : Dict Bytes) (content : Bytes)
    → read_dot_env read_one marshal_one disk no_files ≡ some existing
    → marshal_one (merge read_one marshal_one port_update existing) ≡ some content
    → read_one content ≡ some (merge read_one marshal_one port_update existing)
unfolding read_dot_env merge insert
reads_back existing content e m =
    let none_there : [] ≡ existing = ground (arith, e) in
    let m' = rw (sym none_there) at m in
    let same : b'=' ∷ codes "90" ≡ content = ground (arith, m') in
    rw (sym none_there, sym same) refl

patch_dot_env-Replaced_example :
    let after = patch_dot_env read_one marshal_one disk port_update no_files in
    ((after.1 ≡ false) × Failed read_one marshal_one disk port_update no_files after.0)
    ⊎ ((after.1 ≡ true)
        × (after.0.temp ≡ none)
        × (existing : Dict Bytes) × (read_dot_env read_one marshal_one disk no_files
            ≡ some existing)
        × (values : Dict Bytes) × (read_dot_env read_one marshal_one disk after.0 ≡ some values)
        × (lookup (codes "PORT") values
            ≡ patched read_one marshal_one
                (lookup (codes "PORT") port_update)
                (lookup (codes "PORT") existing)))
unfolding read_dot_env lookup
patch_dot_env-Replaced_example =
    patch_dot_env-Replaced read_one marshal_one disk disk port_update no_files (codes "PORT")
      (refl, tt) refl reads_back

abbrev state : State
state = record { files = no_files; config = config; vars = [] }

-- a flag that is neither true nor false
abbrev maybe : SettingChange
maybe = record { key = codes "OTEL_ENABLED"; value = text (codes "maybe") }

handle_patch_settings-Untouched_example :
    Answered
      (maybe ∷ [])
      state
      (handle_patch_settings conversions read_one marshal_one disk (some (maybe ∷ [])) state)
handle_patch_settings-Untouched_example =
    handle_patch_settings-Untouched conversions read_one marshal_one disk (maybe ∷ []) state

abbrev read_flag : Bytes → Option (Dict Bytes)
read_flag [] = some []
read_flag (c ∷ s) = some ((codes "OTEL_ENABLED", s) ∷ [])

handle_patch_settings_refused_example :
    let (s', status) =
      handle_patch_settings conversions read_flag marshal_one disk (some (maybe ∷ [])) state in
    (status ≡ 200)
    × (s'.config ≡ config)
    × (s'.vars ≡ [])
    × (values : Dict Bytes) × (read_dot_env read_flag marshal_one disk s'.files ≡ some values)
    × (lookup (codes "OTEL_ENABLED") values ≡ some (codes "maybe"))
unfolding set_setting_value set_setting parse_bool_value key_of find_key str_eq read_dot_env merge
    insert value_to_env_string
handle_patch_settings_refused_example =
    handle_patch_settings_refused conversions read_flag marshal_one disk maybe state []
      (b'=' ∷ codes "maybe") refl refl refl (k_otel_enabled, refl) refl refl refl refl
