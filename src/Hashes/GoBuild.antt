-- ===== src/Hashes/GoBuild.antt =====
-- `parse_go_build_info` and `stage0_provenance` of scripts/build_hashes.py.
pub mod Split
pub mod Stated
pub mod Deciding
pub mod Version
pub mod Matches
pub mod Search
pub mod Loop
pub mod Latest
use elisa_lsp.Base.{
  Bool, true, false, not, ◌&&◌, ◌||◌, Option, none, some, List, [], ◌∷◌, ◌++◌, ◌==◌, leb,
  if◌then◌else◌, ℕ,
}
use elisa_lsp.Base.Int.{ℤ, is_nat}
use elisa_lsp.Base.Text.{Text, codes, equal, is_space, splitlines}
use elisa_lsp.Base.Tables.{look_up, set_at}
use elisa_lsp.Base.Patterns.{span, after}

-- `[A-Za-z0-9.+-]`
abbrev pub is_suffix_char : ℕ → Bool
is_suffix_char c =
    leb b'A' c && leb c b'Z'
    || leb b'a' c && leb c b'z'
    || leb b'0' c && leb c b'9'
    || c == b'.'
    || c == b'+'
    || c == b'-'

abbrev pub is_all_space : Text → Bool
is_all_space [] = true
is_all_space (c ∷ cs) = is_space c && is_all_space cs

-- Where a match of `\d+(?:\.\d+)*(?:[A-Za-z0-9.+-]*)?` may stand behind its first digit.
pub data Place : Type 0 where
  in_number behind_dot in_suffix : Place

abbrev pub with_char : ℕ → Option Text → Option Text
with_char c none = none
with_char c (some t) = some (c ∷ t)

module _ (is_decimal : ℕ → Bool) where
  unfoldable pub next_place : Place → ℕ → Option Place
  next_place in_suffix c = if is_suffix_char c then some in_suffix else none
  next_place in_number c =
      if is_decimal c
      then some in_number
      else if c == b'.'
      then some behind_dot
      else if is_suffix_char c
      then some in_suffix
      else none
  next_place behind_dot c =
      if is_decimal c then some in_number else if is_suffix_char c then some in_suffix else none

  -- The rest of the version, if only spaces stand behind it.
  unfoldable pub version_rest : Place → Text → Option Text
  unfolding next_place
  version_rest place [] = some []
  version_rest place (c ∷ cs) = elim (next_place place c) [
    | some next ↦ with_char c (version_rest next cs)
    | none ↦ if is_all_space (c ∷ cs) then some [] else none
  ]

  -- `go\d+...` at the beginning of a text, to its end.
  unfoldable pub version_at : Text → Option Text
  unfolding after version_rest
  version_at text = elim (after (codes "go") text) [
    | none ↦ none
    | some [] ↦ none
    | some (c ∷ cs) ↦
        if is_decimal c
        then elim (version_rest in_number cs) [
          | none ↦ none
          | some rest ↦ some (codes "go" ++ (c ∷ rest))
        ]
        else none
  ]

  -- `re.search(r":\s+(go...)\s*$", line)` and its group.
  unfoldable pub go_version_of : Text → Option Text
  unfolding version_at span is_space
  go_version_of [] = none
  go_version_of (c ∷ cs) =
      let later = go_version_of cs in
      let (spaces, rest) = span is_space cs in
      if c == b':'
      then elim spaces [
        | [] ↦ later
        | s ∷ ss ↦ elim (version_at rest) [ none ↦ later | some version ↦ some version ]
      ]
      else later

-- `line.split("\t")`
abbrev pub joined_field : ℕ → List Text → List Text
joined_field c [] = []
joined_field c (f ∷ fs) = (c ∷ f) ∷ fs

unfoldable pub split_tabs : Text → List Text
split_tabs [] = [] ∷ []
split_tabs (c ∷ cs) =
    let later = split_tabs cs in if c == 0x09 then [] ∷ later else joined_field c later

-- `key, separator, value = field.partition("=")`; nothing where the separator is missing.
unfoldable pub partition_equals : Text → Option (Text × Text)
partition_equals [] = none
partition_equals (c ∷ cs) =
    let later : Option (Text × Text) = elim (partition_equals cs) [
      | none ↦ none
      | some (key, value) ↦ some (c ∷ key, value)
    ] in
    if c == b'=' then some ([], cs) else later

-- What one line says beside the version: the module (`fields[2] or None`) or a setting.
pub data Saying : Type 0 where
  module_is : Option Text → Saying
  setting : Text → Text → Saying
  nothing_said : Saying

abbrev pub or_none : Text → Option Text
or_none [] = none
or_none (c ∷ cs) = some (c ∷ cs)

abbrev pub setting_in : Text → Saying
setting_in field = elim (partition_equals field) [
  | none ↦ nothing_said
  | some (key, value) ↦ setting key value
]

unfoldable pub said_by : List Text → Saying
unfolding partition_equals
said_by (first ∷ kind ∷ field ∷ rest) =
    if equal kind (codes "path")
    then module_is (or_none field)
    else if equal kind (codes "build")
    then setting_in field
    else nothing_said
said_by _ = nothing_said

-- The variables of the loop.
pub record Found : Type 0 where
  pub version : Option Text
  pub source : Option Text
  pub settings : List (Text × Text)

abbrev pub first_of : Option Text → Option Text → Option Text
first_of none found = found
first_of (some version) found = some version

abbrev pub apply_saying : Saying → Found → Found
apply_saying (module_is m) s = record s { source = m }
apply_saying (setting key value) s = record s { settings = set_at s.settings key value }
apply_saying nothing_said s = s

pub record GoBuildInfo : Type 0 where
  pub metadata_available : Bool
  pub metadata_source : Text
  pub source_module : Option Text
  pub source_revision : Option Text
  pub source_commit_time_utc : Option Text
  pub source_dirty_at_build : Option Bool
  pub go_version : Option Text
  pub goos : Option Text
  pub goarch : Option Text
  pub rebuild_recipe : Text

abbrev pub stage0_rebuild_recipe : Text
stage0_rebuild_recipe =
    codes "go build -C <stage0-source-root>/compiler -o <stage0-output>/elisac-stage0 ./src"

abbrev pub is_present : Option Text → Bool
is_present none = false
is_present (some t) = true

abbrev pub is_filled : List (Text × Text) → Bool
is_filled [] = false
is_filled (s ∷ ss) = true

abbrev pub dirty_of : Option Text → Option Bool
dirty_of none = none
dirty_of (some t) =
    if equal t (codes "true")
    then some true
    else if equal t (codes "false")
    then some false
    else none

-- How the subprocess of `stage0_provenance` ends, if there is a `go` at all.
pub data GoRun : Type 0 where
  no_go cannot_run : GoRun
  exited : ℤ → Text → GoRun

module _ (is_decimal : ℕ → Bool) where
  unfoldable pub read_build_line : Found → Text → Found
  unfolding go_version_of split_tabs said_by set_at
  read_build_line s line =
      apply_saying (said_by (split_tabs line))
        (record s { version = first_of s.version (go_version_of is_decimal line) })

  unfoldable pub read_build_lines : Found → List Text → Found
  unfolding read_build_line
  read_build_lines s [] = s
  read_build_lines s (line ∷ lines) = read_build_lines (read_build_line s line) lines

  unfoldable pub parse_go_build_info : Text → GoBuildInfo
  unfolding read_build_lines look_up splitlines
  parse_go_build_info output =
      let s =
        read_build_lines (record { version = none; source = none; settings = [] })
          (splitlines output) in
      record {
        metadata_available = is_present s.version || is_present s.source || is_filled s.settings;
        metadata_source = codes "go version -m";
        source_module = s.source;
        source_revision = look_up s.settings (codes "vcs.revision");
        source_commit_time_utc = look_up s.settings (codes "vcs.time");
        source_dirty_at_build = dirty_of (look_up s.settings (codes "vcs.modified"));
        go_version = s.version;
        goos = look_up s.settings (codes "GOOS");
        goarch = look_up s.settings (codes "GOARCH");
        rebuild_recipe = stage0_rebuild_recipe;
      }

  unfoldable pub stage0_provenance : GoRun → GoBuildInfo
  unfolding parse_go_build_info
  stage0_provenance no_go = parse_go_build_info []
  stage0_provenance cannot_run = parse_go_build_info []
  stage0_provenance (exited status output) =
      if is_nat status 0 then parse_go_build_info output else parse_go_build_info []
