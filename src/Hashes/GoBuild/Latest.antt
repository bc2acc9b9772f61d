-- ===== src/Hashes/GoBuild/Latest.antt =====
-- Which of the lines of `go version -m` decide each field of the build information.
use elisa_lsp.Base.{
  ℕ, Bool, true, false, ◌||◌, Option, none, some, List, [], ◌∷◌, ◌≡◌, ◌≢◌, ◌↔◌, ◌⊎◌, refl, inl, inr,
  arith,
}
use elisa_lsp.Base.Text.{Text, codes, equal, equal_iff, equal_refl, splitlines, is_space}
use elisa_lsp.Base.Tables.{look_up, or_before-none}
use elisa_lsp.Hashes.GoBuild.{
  go_version_of, Found, GoBuildInfo, dirty_of, is_present, is_filled, read_build_lines,
  parse_go_build_info,
}
use elisa_lsp.Hashes.GoBuild.Split.{States, Sets}
use elisa_lsp.Hashes.GoBuild.Stated.{value_in-Sets, module_in-States}
use elisa_lsp.Hashes.GoBuild.Deciding.{First, Last, last_of, last_of_iff, first_of_iff}
use elisa_lsp.Hashes.GoBuild.Version.{VersionIn}
use elisa_lsp.Hashes.GoBuild.Search.{go_version_of_iff}
use elisa_lsp.Hashes.GoBuild.Loop.{
  value_on, module_on, source_after, read_build_lines-version, read_build_lines-source,
  read_build_lines-setting,
}

present_iff : (o : Option Text) → (is_present o ≡ true) ↔ ((t : Text) × (o ≡ some t))
present_iff none = (λ h. absurd (cc h), λ (t, e). absurd (cc e))
present_iff (some t) = (λ h. (t, refl), λ _. refl)

filled_iff :
    (settings : List (Text × Text))
    → (is_filled settings ≡ true)
      ↔ ((key : Text) × (value : Text) × (look_up settings key ≡ some value))
unfolding look_up
filled_iff [] = (λ h. absurd (cc h), λ (k, v, e). absurd (cc e))
filled_iff ((k, v) ∷ rest) = (λ h. (k, v, rw (equal_refl k)), λ _. refl)

or-cases : (a b c : Bool) → ((a || b || c) ≡ true) ↔ ((a ≡ true) ⊎ ((b ≡ true) ⊎ (c ≡ true)))
or-cases true b c = (λ h. inl refl, λ _. refl)
or-cases false true c = (λ h. inr (inl refl), λ _. refl)
or-cases false false true = (λ h. inr (inr refl), λ _. refl)
or-cases false false false =
    (λ h. absurd (cc h), λ k. elim k [ inl e ↦ cc e | inr (inl e) ↦ cc e | inr (inr e) ↦ cc e ])

source_iff :
    (o : Option Text) (m : Text) → (source_after o none ≡ some m) ↔ ((m ≢ []) × (o ≡ some m))
source_iff none m = (λ h. absurd (cc h), λ (_, e). absurd (cc e))
source_iff (some []) m = (λ h. absurd (cc h), λ (n, e). absurd (n (cc e)))
source_iff (some (c ∷ cs)) m = (λ h. (λ e. cc, h), λ (n, e). e)

clean_lem : (t : Text) → t ≡ codes "false" → dirty_of (some t) ≡ some false
unfolding equal
clean_lem t e = rw e refl

dirty_of_iff :
    (o : Option Text)
    → ((dirty_of o ≡ some true) ↔ (o ≡ some (codes "true")))
      × ((dirty_of o ≡ some false) ↔ (o ≡ some (codes "false")))
dirty_of_iff none =
    ((λ h. absurd (cc h), λ h. absurd (cc h)), (λ h. absurd (cc h), λ h. absurd (cc h)))
dirty_of_iff (some t) = (
  (
    λ h. ground (arith, equal_iff t (codes "true"), equal_iff t (codes "false")),
    λ h. ground (arith, equal_iff t (codes "true")),
  ),
  (
    λ h. ground (arith, equal_iff t (codes "true"), equal_iff t (codes "false")),
    λ h. clean_lem t (cc h),
  ),
)

-- What the lines state of the version, the module and a setting.
abbrev pub VersionOf : (ℕ → Bool) → List Text → Text → Type 0
VersionOf is_decimal = First (VersionIn is_decimal)

abbrev pub ModuleOf : List Text → Text → Type 0
ModuleOf lines m = (m ≢ []) × Last (States (codes "path")) lines m

abbrev pub SettingOf : Text → List Text → Text → Type 0
SettingOf key = Last (Sets key)

-- How the lines decide the fields.
pub record IsRead (is_decimal : ℕ → Bool) (lines : List Text) (info : GoBuildInfo) : Type 0 where
  version : (v : Text) → (info.go_version ≡ some v) ↔ VersionOf is_decimal lines v
  source : (m : Text) → (info.source_module ≡ some m) ↔ ModuleOf lines m
  revision : (v : Text) → (info.source_revision ≡ some v) ↔ SettingOf (codes "vcs.revision") lines v
  commit_time :
      (v : Text) → (info.source_commit_time_utc ≡ some v) ↔ SettingOf (codes "vcs.time") lines v
  dirty :
      (info.source_dirty_at_build ≡ some true)
      ↔ SettingOf (codes "vcs.modified") lines (codes "true")
  clean :
      (info.source_dirty_at_build ≡ some false)
      ↔ SettingOf (codes "vcs.modified") lines (codes "false")
  os : (v : Text) → (info.goos ≡ some v) ↔ SettingOf (codes "GOOS") lines v
  arch : (v : Text) → (info.goarch ≡ some v) ↔ SettingOf (codes "GOARCH") lines v
  available : (info.metadata_available ≡ true) ↔ (
      ((v : Text) × VersionOf is_decimal lines v)
      ⊎ (((m : Text) × ModuleOf lines m) ⊎ ((key : Text) × (v : Text) × SettingOf key lines v)))

abbrev start : Found
start = record { version = none; source = none; settings = [] }

abbrev left_by : (ℕ → Bool) → List Text → Found
left_by is_decimal lines = read_build_lines is_decimal start lines

setting_left :
    (is_decimal : ℕ → Bool) (lines : List Text) (key v : Text)
    → (look_up (left_by is_decimal lines).settings key ≡ some v) ↔ SettingOf key lines v
unfolding look_up
setting_left is_decimal lines key v =
    rw
      (
        read_build_lines-setting is_decimal lines start key,
        or_before-none (last_of (value_on key) lines),
      )
      (last_of_iff (value_on key) (Sets key) (λ a line. value_in-Sets key a line) lines v)

module_left :
    (is_decimal : ℕ → Bool) (lines : List Text) (m : Text)
    → ((left_by is_decimal lines).source ≡ some m) ↔ ModuleOf lines m
module_left is_decimal lines m =
    let last = last_of_iff module_on (States (codes "path")) module_in-States lines m in
    let found = source_iff (last_of module_on lines) m in
    rw (read_build_lines-source is_decimal lines start) (
      λ h. let (filled, e) = found.0 h in (filled, last.0 e),
      λ (filled, l). found.1 (filled, last.1 l),
    )

dirty_left :
    (is_decimal : ℕ → Bool) (lines : List Text)
    → ((dirty_of (look_up (left_by is_decimal lines).settings (codes "vcs.modified")) ≡ some true)
        ↔ SettingOf (codes "vcs.modified") lines (codes "true"))
      × ((dirty_of (look_up (left_by is_decimal lines).settings (codes "vcs.modified"))
            ≡ some false)
          ↔ SettingOf (codes "vcs.modified") lines (codes "false"))
dirty_left is_decimal lines =
    let left = setting_left is_decimal lines (codes "vcs.modified") in
    let flag = dirty_of_iff (look_up (left_by is_decimal lines).settings (codes "vcs.modified")) in
    (
      (λ h. (left (codes "true")).0 (flag.0.0 h), λ l. flag.0.1 ((left (codes "true")).1 l)),
      (λ h. (left (codes "false")).0 (flag.1.0 h), λ l. flag.1.1 ((left (codes "false")).1 l)),
    )

module _ (is_decimal : ℕ → Bool) (digits : (c : ℕ) → is_decimal c ≡ true → is_space c ≡ false) where
  version_left :
      (lines : List Text) (v : Text)
      → ((left_by is_decimal lines).version ≡ some v) ↔ VersionOf is_decimal lines v
  version_left lines v = rw (read_build_lines-version is_decimal lines start) (
      first_of_iff (go_version_of is_decimal) (VersionIn is_decimal)
        (λ a line. go_version_of_iff is_decimal digits a line) lines v)

  available_left :
      (lines : List Text)
      → ((is_present (left_by is_decimal lines).version
            || is_present (left_by is_decimal lines).source
            || is_filled (left_by is_decimal lines).settings)
          ≡ true)
        ↔ (((v : Text) × VersionOf is_decimal lines v)
            ⊎ (((m : Text) × ModuleOf lines m)
                ⊎ ((key : Text) × (v : Text) × SettingOf key lines v)))
  available_left lines =
      let s = left_by is_decimal lines in
      let any = or-cases (is_present s.version) (is_present s.source) (is_filled s.settings) in
      (
        λ h. elim (any.0 h) [
          | inl e ↦ let (v, f) = (present_iff s.version).0 e in inl (v, (version_left lines v).0 f)
          | inr (inl e) ↦
              let (m, f) = (present_iff s.source).0 e in
              inr (inl (m, (module_left is_decimal lines m).0 f))
          | inr (inr e) ↦
              let (key, v, f) = (filled_iff s.settings).0 e in
              inr (inr (key, v, (setting_left is_decimal lines key v).0 f))
        ],
        λ k. any.1 (elim k [
          | inl (v, l) ↦ inl ((present_iff s.version).1 (v, (version_left lines v).1 l))
          | inr (inl (m, l)) ↦
              inr (inl ((present_iff s.source).1 (m, (module_left is_decimal lines m).1 l)))
          | inr (inr (key, v, l)) ↦
              inr (
                inr ((filled_iff s.settings).1 (key, v, (setting_left is_decimal lines key v).1 l)))
        ]),
      )

  -- For every output, if no decimal digit is a space: the version is the one that the pattern's
  -- grammar has in the first line that has one; the module is the third field of the last line whose
  -- second field is "path", if that is not empty; and each setting is the value in the last line that
  -- sets its key in its third field, behind "build" in the second. The dirty flag is true or false
  -- exactly if "vcs.modified" is last set to "true" or "false", and metadata is available exactly if
  -- there is such a version, such a module, or a line that sets any key.
  pub parse_go_build_info-IsRead :
      (output : Text)
      → IsRead is_decimal (splitlines output) (parse_go_build_info is_decimal output)
  unfolding parse_go_build_info
  parse_go_build_info-IsRead output =
      let lines = splitlines output in
      record {
        version = version_left lines;
        source = module_left is_decimal lines;
        revision = setting_left is_decimal lines (codes "vcs.revision");
        commit_time = setting_left is_decimal lines (codes "vcs.time");
        dirty = (dirty_left is_decimal lines).0;
        clean = (dirty_left is_decimal lines).1;
        os = setting_left is_decimal lines (codes "GOOS");
        arch = setting_left is_decimal lines (codes "GOARCH");
        available = available_left lines;
      }
