-- ===== src/Settings/Patch.antt =====
-- cmd/server/settings_handlers.go: `handlePatchSettings`, over .env, the configuration and the
-- environment, and the settings that are shown, with the secrets masked.
pub mod Refused
use pi_pi_mink.Prelude.{
  ℕ, zero, suc, ◌-◌, Bool, true, false, Option, none, some, List, [], ◌∷◌, ◌++◌, ◌≡◌, ◌⊎◌, refl,
  inl, inr, Option-cases, if◌then◌else◌, length, take, drop, leb, ◌≢◌, All, arith,
}
use pi_pi_mink.Prelude.Text.{Bytes, str_eq_iff}
use pi_pi_mink.Prelude.Dict.{Dict, insert}
use pi_pi_mink.Json.{Value, text}
use pi_pi_mink.Settings.{
  Config, Conversions, set_setting_value, get_setting_value, value_to_env_string, Key, all_keys,
  key_name, key_of, find_key,
}
use pi_pi_mink.Settings.Registry.{
  SettingDef, SettingType, SettingCategory, secret_type, find_setting_def, registry_by_category,
  Known, find_setting_def_lem,
}
use pi_pi_mink.Settings.DotEnv.{Files, Disk, patch_dot_env, patch_dot_env_failed}

pub record SettingChange : Type 0 where
  pub key : Bytes
  pub value : Value

-- what a patch can change
pub record State : Type 0 where
  pub files : Files
  pub config : Config
  pub vars : Dict Bytes

-- `maskValue`: eight bullets, or fourteen between the first and the last four bytes
abbrev pub bullets : ℕ → Bytes
bullets zero = []
bullets (suc n) = 226 ∷ 128 ∷ 162 ∷ bullets n

unfoldable pub mask_value : Bytes → Bytes
mask_value s =
    if leb (length s) 8 then bullets 8 else take 4 s ++ bullets 14 ++ drop (length s - 4) s

-- the value that is shown of a setting
abbrev pub is_secret : SettingType → Bool
is_secret secret_type = true
is_secret _ = false

abbrev pub mask_text : Value → Value
mask_text (text (c ∷ s)) = text (mask_value (c ∷ s))
mask_text v = v

abbrev pub masked : SettingType → Option Value → Option Value
masked type none = none
masked type (some v) = if is_secret type then some (mask_text v) else some v

pub record Shown : Type 0 where
  pub key : Bytes
  pub value : Option Value

module _ (env : Conversions) where
  -- `toResponses` of `buildSettingsMap`, on the definitions of a category
  unfoldable pub to_responses : Config → List SettingDef → List Shown
  unfolding get_setting_value mask_value
  to_responses cfg [] = []
  to_responses cfg (d ∷ ds) =
      record { key = d.key; value = masked d.type (get_setting_value env d.key cfg) }
      ∷ to_responses cfg ds

  -- `buildSettingsMap`, one category
  abbrev pub build_settings_map : Config → SettingCategory → List Shown
  build_settings_map cfg c = to_responses cfg (registry_by_category c)

  -- the loops of `handlePatchSettings`
  unfoldable pub unknown_key : List SettingChange → Option Bytes
  unfolding find_setting_def
  unknown_key [] = none
  unknown_key (ch ∷ chs) = elim (find_setting_def ch.key) [
    | none ↦ some ch.key
    | some d ↦ unknown_key chs
  ]

  unfoldable pub env_updates : List SettingChange → Dict Bytes → Dict Bytes
  unfolding value_to_env_string
  env_updates [] m = m
  env_updates (ch ∷ chs) m = env_updates chs (insert ch.key (value_to_env_string env ch.value) m)

  -- the loop over the configuration; an error is only logged
  unfoldable pub apply_changes : List SettingChange → Config → Dict Bytes → Config × Dict Bytes
  unfolding set_setting_value
  apply_changes [] cfg vars = (cfg, vars)
  apply_changes (ch ∷ chs) cfg vars = elim (set_setting_value env ch.key ch.value cfg vars) [
    | none ↦ apply_changes chs cfg vars
    | some (cfg', vars') ↦ apply_changes chs cfg' vars'
  ]

  module _ (read_env : Bytes → Option (Dict Bytes)) (marshal : Dict Bytes → Option Bytes) where
    abbrev pub after_patch : List SettingChange → State → Files × Bool → State × ℕ
    after_patch chs s (files, false) = (record s { files = files }, 500)
    after_patch chs s (files, true) =
        let (cfg, vars) = apply_changes chs s.config s.vars in
        (record { files = files; config = cfg; vars = vars }, 200)

    -- `handlePatchSettings`: the state afterwards, and the status
    unfoldable pub handle_patch_settings : Disk → Option (List SettingChange) → State → State × ℕ
    unfolding unknown_key env_updates patch_dot_env apply_changes
    handle_patch_settings disk none s = (s, 400)
    handle_patch_settings disk (some []) s = (s, 400)
    handle_patch_settings disk (some (ch ∷ chs)) s = elim (unknown_key (ch ∷ chs)) [
      | some key ↦ (s, 400)
      | none ↦
          after_patch (ch ∷ chs) s
            (patch_dot_env read_env marshal disk (env_updates (ch ∷ chs) []) s.files)
    ]

key_name-find_key :
    (key : Bytes) (ks : List Key) (k : Key) → find_key key ks ≡ some k → key_name k ≡ key
unfolding find_key
key_name-find_key key [] k e = absurd cc
key_name-find_key key (j ∷ ks) k e =
    ground (arith, str_eq_iff (key_name j) key, key_name-find_key key ks k)

pub find_setting_def-Known :
    (key : Bytes) → Known key → (d : SettingDef) × (find_setting_def key ≡ some d)
unfolding key_of
find_setting_def-Known key (k, e) =
    let same : key_name k ≡ key = key_name-find_key key all_keys k e in
    let (d, found, named) = find_setting_def_lem.1 k in (d, rw same at found)

-- a key that is not in the registry is no case of the switches
find_setting_def_unknown : (key : Bytes) → find_setting_def key ≡ none → ¬ Known key
find_setting_def_unknown key absent known =
    let (d, found) = find_setting_def-Known key known in ground (arith, absent, found)

-- A patch that fails changes nothing that counts: the configuration, the environment and .env are
-- those of before.
abbrev pub Untouched : State → State → Type 0
Untouched s s' = (s'.config ≡ s.config) × (s'.vars ≡ s.vars) × (s'.files.file ≡ s.files.file)

-- some change of the list is of a key that no setting has
abbrev pub Stray : List SettingChange → Type 0
Stray [] = ⊥
Stray (ch ∷ chs) = (¬ Known ch.key) ⊎ Stray chs

-- What the answer says: a request is refused exactly if it is empty or one of its keys is unknown,
-- and then nothing at all has changed.
abbrev pub Answered : List SettingChange → State → State × ℕ → Type 0
Answered chs s (s', status) =
    (((status ≡ 400) × (s' ≡ s)) × ((chs ≡ []) ⊎ Stray chs))
    ⊎ ((chs ≢ [])
        × All (λ ch. Known ch.key) chs
        × ((status ≡ 200) ⊎ ((status ≡ 500) × Untouched s s')))

module _ (env : Conversions) (read_env : Bytes → Option (Dict Bytes))
    (marshal : Dict Bytes → Option Bytes) where
  after_patch-Untouched :
      (chs : List SettingChange) (s : State) (r : Files × Bool)
      → (r.1 ≡ false → r.0.file ≡ s.files.file)
      → ((after_patch env read_env marshal chs s r).1 ≡ 200)
        ⊎ (((after_patch env read_env marshal chs s r).1 ≡ 500)
            × Untouched s (after_patch env read_env marshal chs s r).0)
  after_patch-Untouched chs s (files, false) h = inr (refl, (refl, refl, h refl))
  after_patch-Untouched chs s (files, true) h = inl refl

  unknown_key-Stray :
      (chs : List SettingChange) (key : Bytes) → unknown_key env chs ≡ some key → Stray chs
  unfolding unknown_key
  unknown_key-Stray [] key e = cc
  unknown_key-Stray (ch ∷ chs) key e = elim (Option-cases (find_setting_def ch.key)) [
    | inl absent ↦ inl (find_setting_def_unknown ch.key absent)
    | inr (d, known) ↦ inr (unknown_key-Stray chs key (ground (arith, e, known)))
  ]

  unknown_key-Known :
      (chs : List SettingChange) → unknown_key env chs ≡ none → All (λ ch. Known ch.key) chs
  unfolding unknown_key
  unknown_key-Known [] e = tt
  unknown_key-Known (ch ∷ chs) e = elim (Option-cases (find_setting_def ch.key)) [
    | inl absent ↦ absurd (ground (arith, e, absent))
    | inr (d, known) ↦
        (find_setting_def_lem.0 ch.key d known, unknown_key-Known chs (ground (arith, e, known)))
  ]

  -- A patch of the settings answers 400 exactly if it has no change or one of its keys is that of no
  -- setting, and then nothing has changed, not even a temporary file. Else it answers 200 or 500, and
  -- after 500 the configuration, the environment and .env are those of before.
  pub handle_patch_settings-Untouched :
      (disk : Disk) (chs : List SettingChange) (s : State)
      → Answered chs s (handle_patch_settings env read_env marshal disk (some chs) s)
  unfolding handle_patch_settings
  handle_patch_settings-Untouched disk [] s = inl ((refl, refl), inl refl)
  handle_patch_settings-Untouched disk (ch ∷ chs) s =
      elim (Option-cases (unknown_key env (ch ∷ chs))) [
        | inr (key, e) ↦
            rw (e, handle_patch_settings)
              (inl ((refl, refl), inr (unknown_key-Stray (ch ∷ chs) key e)))
        | inl e ↦
            let updates = env_updates env (ch ∷ chs) [] in
            let r = patch_dot_env read_env marshal disk updates s.files in
            let kept : r.1 ≡ false → r.0.file ≡ s.files.file =
              patch_dot_env_failed read_env marshal disk updates s.files in
            rw (e, handle_patch_settings)
              (inr (cc, unknown_key-Known (ch ∷ chs) e, after_patch-Untouched (ch ∷ chs) s r kept))
      ]
