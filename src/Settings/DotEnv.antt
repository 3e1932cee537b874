-- ===== src/Settings/DotEnv.antt =====
-- internal/config/dotenv.go: the .env file, which is replaced through a temporary file. `read_env` and
-- `marshal` are those of the package godotenv; what the file system answers is an argument.
use pi_pi_mink.Prelude.{
  Bool, true, false, Option, none, some, [], ◌∷◌, ◌≡◌, ◌⊎◌, refl, ap, arith, inl, inr, Bool-cases,
  Option-cases, if◌then◌else◌,
}
use pi_pi_mink.Prelude.Text.{Bytes, str_eq_iff}
use pi_pi_mink.Prelude.Dict.{Dict, lookup, insert, delete, Unique, lookup-insert}

-- `file` is the content of .env, `none` if there is none, and `temp` that of .env.tmp
pub record Files : Type 0 where
  pub file : Option Bytes
  pub temp : Option Bytes

-- Whether the calls succeed; a write that fails leaves the part `part` of the file.
pub record Disk : Type 0 where
  pub has_directory : Bool
  pub write : Bool
  pub part : Option Bytes
  pub rename : Bool
  pub remove : Bool

module _ (read_env : Bytes → Option (Dict Bytes)) (marshal : Dict Bytes → Option Bytes) where
  -- `ReadDotEnv`; `none` is an error
  unfoldable pub read_dot_env : Disk → Files → Option (Dict Bytes)
  read_dot_env disk fs =
      if disk.has_directory
      then elim fs.file [ none ↦ some [] | some content ↦ read_env content ]
      else none

  abbrev pub renamed : Disk → Bytes → Files → Files × Bool
  renamed disk content fs =
      if disk.rename
      then (record { file = some content; temp = none }, true)
      else (record { file = fs.file; temp = if disk.remove then none else some content }, false)

  abbrev pub written : Disk → Bytes → Files → Files × Bool
  written disk content fs =
      if disk.write
      then renamed disk content fs
      else (record { file = fs.file; temp = disk.part }, false)

  -- `writeDotEnv`: the files afterwards, and whether it returned no error
  unfoldable pub write_dot_env : Disk → Dict Bytes → Files → Files × Bool
  write_dot_env disk values fs =
      if disk.has_directory
      then elim (marshal values) [ none ↦ (fs, false) | some content ↦ written disk content fs ]
      else (fs, false)

  -- the loop of `PatchDotEnv`
  unfoldable pub merge : Dict Bytes → Dict Bytes → Dict Bytes
  merge [] existing = existing
  merge ((k, v) ∷ updates) existing = merge updates (insert k v existing)

  -- `PatchDotEnv`
  unfoldable pub patch_dot_env : Disk → Dict Bytes → Files → Files × Bool
  unfolding read_dot_env write_dot_env merge
  patch_dot_env disk updates fs = elim (read_dot_env disk fs) [
    | none ↦ (fs, false)
    | some existing ↦ write_dot_env disk (merge updates existing) fs
  ]

  -- `RemoveDotEnvKey`
  unfoldable pub remove_dot_env_key : Disk → Bytes → Files → Files × Bool
  unfolding read_dot_env write_dot_env
  remove_dot_env_key disk key fs = elim (read_dot_env disk fs) [
    | none ↦ (fs, false)
    | some existing ↦ write_dot_env disk (delete key existing) fs
  ]

  -- Why a write fails, and what is then at .env.tmp: what was there, if the directory is missing or
  -- the values cannot be marshalled; a part, if writing fails; if renaming fails, nothing or the new
  -- content, as removing it succeeds or not.
  abbrev pub Left : Disk → Dict Bytes → Files → Option Bytes → Type 0
  Left disk values fs temp =
      ((temp ≡ fs.temp) × ((disk.has_directory ≡ false) ⊎ (marshal values ≡ none)))
      ⊎ (((disk.write ≡ false) × (temp ≡ disk.part))
          ⊎ ((disk.rename ≡ false)
              × (((disk.remove ≡ true) × (temp ≡ none))
                  ⊎ ((disk.remove ≡ false) × (marshal values ≡ temp)))))

  -- a write that fails leaves .env as it is, and one that succeeds leaves what was marshalled
  abbrev pub Replaced : Disk → Dict Bytes → Files → Files × Bool → Type 0
  Replaced disk values fs (fs', done) =
      ((done ≡ false) × (fs'.file ≡ fs.file) × Left disk values fs fs'.temp)
      ⊎ ((done ≡ true)
          × (content : Bytes) × (marshal values ≡ some content)
          × (fs' ≡ record { file = some content; temp = none }))

  write_dot_env-Replaced :
      (disk : Disk) (values : Dict Bytes) (fs : Files)
      → Replaced disk values fs (write_dot_env disk values fs)
  unfolding write_dot_env
  write_dot_env-Replaced disk values fs = elim (Bool-cases disk.has_directory) [
    | inr e ↦ simp e (inl (refl, refl, inl (refl, inl refl)))
    | inl e ↦ elim (Option-cases (marshal values)) [
      | inl m ↦ simp (e, m) (inl (refl, refl, inl (refl, inr refl)))
      | inr (content, m) ↦ elim (Bool-cases disk.write) [
        | inr w ↦ simp (e, m, w) (inl (refl, refl, inr (inl (refl, refl))))
        | inl w ↦ elim (Bool-cases disk.rename) [
          | inl r ↦ simp (e, m, w, r) (inr (refl, content, refl, refl))
          | inr r ↦ elim (Bool-cases disk.remove) [
            | inl d ↦ simp (e, m, w, r, d) (inl (refl, refl, inr (inr (refl, inl (refl, refl)))))
            | inr d ↦ simp (e, m, w, r, d) (inl (refl, refl, inr (inr (refl, inr (refl, refl)))))
          ]
        ]
      ]
    ]
  ]

  -- the value of a key after a patch
  abbrev pub patched : Option Bytes → Option Bytes → Option Bytes
  patched none before = before
  patched (some v) before = some v

  merge_absent :
      (k : Bytes) (updates existing : Dict Bytes)
      → lookup k updates ≡ none
      → lookup k (merge updates existing) ≡ lookup k existing
  unfolding lookup merge
  merge_absent k [] existing h = refl
  merge_absent k ((j, v) ∷ updates) existing h =
      ground (arith, merge_absent k updates (insert j v existing), lookup-insert j k v existing)

  pub lookup-merge :
      (k : Bytes) (updates existing : Dict Bytes)
      → Unique updates
      → lookup k (merge updates existing) ≡ patched (lookup k updates) (lookup k existing)
  unfolding lookup merge
  lookup-merge k [] existing u = refl
  lookup-merge k ((j, v) ∷ updates) existing u = ground (
    arith,
    lookup-merge k updates (insert j v existing) u.1,
    lookup-insert j k v existing,
    str_eq_iff j k,
    merge_absent k updates (insert j v existing),
  )

  -- what a patch that fails leaves: .env as it was, and .env.tmp untouched if reading failed
  abbrev pub Failed : Disk → Dict Bytes → Files → Files → Type 0
  Failed disk updates fs fs' =
      (fs'.file ≡ fs.file)
      × (((read_dot_env disk fs ≡ none) × (fs' ≡ fs))
          ⊎ ((existing : Dict Bytes) × (read_dot_env disk fs ≡ some existing)
              × Left disk (merge updates existing) fs fs'.temp))

  -- A patch of .env either fails and leaves .env as it was, where .env.tmp can stay behind: a part of
  -- it if writing failed, all of it if it could be neither renamed nor removed. Or it succeeds, after
  -- .env was read, and leaves no temporary file. Then, if godotenv reads the values of the patch as
  -- it wrote them, .env reads back with the new value for each key of the patch and the one of before
  -- for all others.
  pub patch_dot_env-Replaced :
      (disk disk' : Disk) (updates : Dict Bytes) (fs : Files) (k : Bytes)
      → Unique updates
      → disk'.has_directory ≡ true
      → ((existing : Dict Bytes) (content : Bytes)
          → read_dot_env disk fs ≡ some existing
          → marshal (merge updates existing) ≡ some content
          → read_env content ≡ some (merge updates existing))
      → let after = patch_dot_env disk updates fs in
        ((after.1 ≡ false) × Failed disk updates fs after.0)
        ⊎ ((after.1 ≡ true)
            × (after.0.temp ≡ none)
            × (existing : Dict Bytes) × (read_dot_env disk fs ≡ some existing)
            × (values : Dict Bytes) × (read_dot_env disk' after.0 ≡ some values)
            × (lookup k values ≡ patched (lookup k updates) (lookup k existing)))
  unfolding patch_dot_env read_dot_env
  patch_dot_env-Replaced disk disk' updates fs k u here reads =
      elim (Option-cases (read_dot_env disk fs)) [
        | inl e ↦ rw (e, patch_dot_env) (inl (refl, (refl, inl (refl, refl))))
        | inr (existing, e) ↦
            let values = merge updates existing in
            let same : patch_dot_env disk updates fs ≡ write_dot_env disk values fs =
              rw (e, patch_dot_env) refl in
            rw same (elim (write_dot_env-Replaced disk values fs) [
              | inl (fails, kept, left) ↦ inl (fails, (kept, inr (existing, e, left)))
              | inr (works, content, m, new) ↦ inr (
                works,
                ap (λ f. f.temp) new,
                existing,
                e,
                values,
                rw new (simp here (reads existing content e m)),
                lookup-merge k updates existing u,
              )
            ])
      ]

  -- a patch that fails, for whatever reason, leaves .env as it is
  pub patch_dot_env_failed :
      (disk : Disk) (updates : Dict Bytes) (fs : Files)
      → (patch_dot_env disk updates fs).1 ≡ false
      → (patch_dot_env disk updates fs).0.file ≡ fs.file
  unfolding patch_dot_env
  patch_dot_env_failed disk updates fs = elim (Option-cases (read_dot_env disk fs)) [
    | inl e ↦ rw (e, patch_dot_env) (λ h. refl)
    | inr (existing, e) ↦
        rw (e, patch_dot_env)
          (elim (write_dot_env-Replaced disk (merge updates existing) fs) [
            | inl (fails, kept, left) ↦ λ h. kept
            | inr (works, content, m, new) ↦ λ h. absurd (ground (arith, works, h))
          ])
  ]
