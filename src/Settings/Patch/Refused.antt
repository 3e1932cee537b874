-- ===== src/Settings/Patch/Refused.antt =====
-- A patch of a setting whose value the configuration refuses.
use pi_pi_mink.Prelude.{true, Option, none, some, [], ◌∷◌, ◌≡◌, ◌∙◌, refl, arith}
use pi_pi_mink.Prelude.Text.{Bytes, str_eq, str_eq_iff}
use pi_pi_mink.Prelude.Dict.{Dict, lookup, insert}
use pi_pi_mink.Settings.{Conversions, set_setting_value, value_to_env_string}
use pi_pi_mink.Settings.Registry.{SettingDef, find_setting_def, Known}
use pi_pi_mink.Settings.DotEnv.{
  Files, Disk, merge, read_dot_env, write_dot_env, patch_dot_env, lookup-merge,
}
use pi_pi_mink.Settings.Patch.{
  SettingChange, State, unknown_key, env_updates, apply_changes, handle_patch_settings,
  find_setting_def-Known,
}

module _ (env : Conversions) (read_env : Bytes → Option (Dict Bytes))
    (marshal : Dict Bytes → Option Bytes) where
  -- a patch on a disk that works
  patch_dot_env_works :
      (disk : Disk) (updates existing : Dict Bytes) (files : Files) (content : Bytes)
      → disk.has_directory ≡ true
      → disk.write ≡ true
      → disk.rename ≡ true
      → read_dot_env read_env marshal disk files ≡ some existing
      → marshal (merge read_env marshal updates existing) ≡ some content
      → patch_dot_env read_env marshal disk updates files
        ≡ (record { file = some content; temp = none }, true)
  unfolding patch_dot_env write_dot_env
  patch_dot_env_works disk updates existing files content here writes renames reads marshals =
      rw (reads, patch_dot_env) (simp (here, marshals, writes, renames) refl)

  lookup_one : (k v : Bytes) → lookup k ((k, v) ∷ []) ≡ some v
  unfolding lookup
  lookup_one k v = ground (arith, str_eq_iff k k)

  refused_answer :
      (disk : Disk) (ch : SettingChange) (d : SettingDef) (s : State) (files : Files)
      → find_setting_def ch.key ≡ some d
      → set_setting_value env ch.key ch.value s.config s.vars ≡ none
      → patch_dot_env read_env marshal disk
          ((ch.key, value_to_env_string env ch.value) ∷ [])
          s.files
        ≡ (files, true)
      → handle_patch_settings env read_env marshal disk (some (ch ∷ [])) s
        ≡ (record s { files = files }, 200)
  unfolding handle_patch_settings unknown_key env_updates apply_changes insert str_eq
  refused_answer disk ch d s files known refused_value saved =
      rw (known, unknown_key, saved, refused_value, apply_changes) refl

  read_back :
      (disk : Disk) (k v content : Bytes) (existing : Dict Bytes)
      → disk.has_directory ≡ true
      → read_env content ≡ some (merge read_env marshal ((k, v) ∷ []) existing)
      → (values : Dict Bytes) × (read_dot_env read_env marshal disk
            (record { file = some content; temp = none })
          ≡ some values)
        × (lookup k values ≡ some v)
  unfolding read_dot_env lookup
  read_back disk k v content existing here back = (
    merge read_env marshal ((k, v) ∷ []) existing,
    simp here back,
    lookup-merge read_env marshal k ((k, v) ∷ []) existing (refl, tt) ∙ rw (lookup_one k v) refl,
  )

  -- A value that `SetSettingValue` refuses for a key of the registry is written to .env all the same:
  -- where the files can be read and written and godotenv reads what it wrote, the answer is 200, the
  -- configuration and the environment stay, and .env reads back with the refused value for the key.
  pub handle_patch_settings_refused :
      (disk : Disk) (ch : SettingChange) (s : State) (existing : Dict Bytes) (content : Bytes)
      → disk.has_directory ≡ true
      → disk.write ≡ true
      → disk.rename ≡ true
      → Known ch.key
      → set_setting_value env ch.key ch.value s.config s.vars ≡ none
      → read_dot_env read_env marshal disk s.files ≡ some existing
      → marshal (merge read_env marshal ((ch.key, value_to_env_string env ch.value) ∷ []) existing)
        ≡ some content
      → read_env content
        ≡ some (merge read_env marshal ((ch.key, value_to_env_string env ch.value) ∷ []) existing)
      → let (s', status) = handle_patch_settings env read_env marshal disk (some (ch ∷ [])) s in
        (status ≡ 200)
        × (s'.config ≡ s.config)
        × (s'.vars ≡ s.vars)
        × (values : Dict Bytes) × (read_dot_env read_env marshal disk s'.files ≡ some values)
        × (lookup ch.key values ≡ some (value_to_env_string env ch.value))
  handle_patch_settings_refused disk ch s existing content here writes renames known refused_value
        reads marshals back =
      let (d, found) = find_setting_def-Known ch.key known in
      let v = value_to_env_string env ch.value in
      let saved =
        patch_dot_env_works disk ((ch.key, v) ∷ []) existing s.files content here writes renames
          reads marshals in
      let (values, reads_back, holds) = read_back disk ch.key v content existing here back in
      rw
        (refused_answer disk ch d s (record { file = some content; temp = none }) found
          refused_value saved)
        (refl, refl, refl, values, reads_back, holds)
