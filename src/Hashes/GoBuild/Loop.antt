-- ===== src/Hashes/GoBuild/Loop.antt =====
-- What the loop of `parse_go_build_info` of scripts/build_hashes.py leaves in its variables.
use elisa_lsp.Base.{
  ℕ, Bool, none, some, Option, List, [], ◌∷◌, ◌≡◌, refl, ap, ◌∙◌, inl, inr, Bool-cases,
  Option-cases,
}
use elisa_lsp.Base.Text.{Text, codes, equal}
use elisa_lsp.Base.Tables.{look_up, look_up-set_at, or_before, or_before_assoc}
use elisa_lsp.Hashes.GoBuild.{
  Saying, module_is, setting, nothing_said, said_by, split_tabs, partition_equals, go_version_of,
  Found, first_of, apply_saying, or_none, setting_in, read_build_line, read_build_lines,
}
use elisa_lsp.Hashes.GoBuild.Stated.{value_in, module_in}
use elisa_lsp.Hashes.GoBuild.Deciding.{last_of}
use elisa_lsp.Hashes.GoBuild.Deciding

-- What a line says of a setting, and the module it names.
abbrev pub value_on : Text → Text → Option Text
value_on key line = value_in (said_by (split_tabs line)) key

abbrev pub module_on : Text → Option Text
module_on line = module_in (split_tabs line)

-- The module after a line that may name one; the empty text is no module.
abbrev pub source_after : Option Text → Option Text → Option Text
source_after none before = before
source_after (some m) before = or_none m

apply_saying-settings :
    (m : Saying) (s : Found) (key : Text)
    → look_up (apply_saying m s).settings key ≡ or_before (value_in m key) (look_up s.settings key)
apply_saying-settings (module_is m) s key = refl
apply_saying-settings nothing_said s key = refl
apply_saying-settings (setting k v) s key =
    look_up-set_at s.settings k v key
    ∙ elim (Bool-cases (equal k key)) [ inl e ↦ rw e | inr e ↦ rw e ]

apply_saying-version : (m : Saying) (s : Found) → (apply_saying m s).version ≡ s.version
apply_saying-version (module_is m) s = refl
apply_saying-version nothing_said s = refl
apply_saying-version (setting k v) s = refl

setting_in-source :
    (field : Text) (s : Found) → (apply_saying (setting_in field) s).source ≡ s.source
setting_in-source field s = elim (Option-cases (partition_equals field)) [
  | inl e ↦ rw (apply_saying, e)
  | inr (_, e) ↦ rw (apply_saying, e)
]

said_by-source :
    (fields : List Text) (s : Found)
    → (apply_saying (said_by fields) s).source ≡ source_after (module_in fields) s.source
unfolding said_by module_in
said_by-source [] s = refl
said_by-source (a ∷ []) s = refl
said_by-source (a ∷ b ∷ []) s = refl
said_by-source (a ∷ b ∷ c ∷ rest) s = elim (Bool-cases (equal b (codes "path"))) [
  | inl e ↦ rw (said_by, module_in, e)
  | inr e ↦ elim (Bool-cases (equal b (codes "build"))) [
    | inl f ↦ rw (said_by, module_in, e, f) (setting_in-source c s)
    | inr f ↦ rw (said_by, module_in, e, f)
  ]
]

first_of_assoc : (a b c : Option Text) → first_of (first_of a b) c ≡ first_of a (or_before b c)
first_of_assoc none none c = refl
first_of_assoc none (some x) c = refl
first_of_assoc (some x) b c = refl

first_of-none : (a : Option Text) → a ≡ first_of a none
first_of-none none = refl
first_of-none (some x) = refl

source_after_assoc :
    (a b before : Option Text)
    → source_after a (source_after b before) ≡ source_after (or_before a b) before
source_after_assoc none b before = refl
source_after_assoc (some x) b before = refl

module _ (is_decimal : ℕ → Bool) where
  pub read_build_lines-version :
      (lines : List Text) (s : Found)
      → (read_build_lines is_decimal s lines).version
        ≡ first_of s.version (Deciding.first_of (go_version_of is_decimal) lines)
  unfolding read_build_lines read_build_line
  read_build_lines-version [] s = first_of-none s.version
  read_build_lines-version (line ∷ lines) s =
      let v = first_of s.version (go_version_of is_decimal line) in
      let others = Deciding.first_of (go_version_of is_decimal) lines in
      read_build_lines-version lines (read_build_line is_decimal s line)
      ∙ (ap (λ x. first_of x others)
            (apply_saying-version (said_by (split_tabs line)) (record s { version = v }))
          ∙ first_of_assoc s.version _ _)

  pub read_build_lines-source :
      (lines : List Text) (s : Found)
      → (read_build_lines is_decimal s lines).source
        ≡ source_after (last_of module_on lines) s.source
  unfolding read_build_lines read_build_line
  read_build_lines-source [] s = refl
  read_build_lines-source (line ∷ lines) s =
      let v = first_of s.version (go_version_of is_decimal line) in
      read_build_lines-source lines (read_build_line is_decimal s line)
      ∙ (ap (source_after (last_of module_on lines))
            (said_by-source (split_tabs line) (record s { version = v }))
          ∙ source_after_assoc (last_of module_on lines) _ _)

  pub read_build_lines-setting :
      (lines : List Text) (s : Found) (key : Text)
      → look_up (read_build_lines is_decimal s lines).settings key
        ≡ or_before (last_of (value_on key) lines) (look_up s.settings key)
  unfolding read_build_lines read_build_line
  read_build_lines-setting [] s key = refl
  read_build_lines-setting (line ∷ lines) s key =
      let v = first_of s.version (go_version_of is_decimal line) in
      read_build_lines-setting lines (read_build_line is_decimal s line) key
      ∙ (ap (or_before (last_of (value_on key) lines))
            (apply_saying-settings (said_by (split_tabs line)) (record s { version = v }) key)
          ∙ or_before_assoc (last_of (value_on key) lines) _ _)
