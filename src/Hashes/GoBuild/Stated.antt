-- ===== src/Hashes/GoBuild/Stated.antt =====
-- What a line of `go version -m` states of the module and of the settings, read off the line itself.
use mathlib.Core.Path.{subst}
use elisa_lsp.Base.{
  if◌then◌else◌, Option, List, ◌∷◌, ◌++◌, ◌≡◌, ◌↔◌, inl, inr, refl, ap, ◌∙◌, arith, some, none,
  Bool-cases,
}
use elisa_lsp.Base.Text.{Text, codes, equal, equal_iff, equal_refl}
use elisa_lsp.Hashes.GoBuild.{
  split_tabs, partition_equals, Saying, module_is, setting, nothing_said, setting_in, said_by,
}
use elisa_lsp.Hashes.GoBuild.Split.{
  Lacks, States, Sets, cut_at, partition_equals-append, partition_equals-whole, fields_of,
  States-split,
}

-- What a line says of a setting.
abbrev pub value_in : Saying → Text → Option Text
value_in (module_is m) key = none
value_in (setting k v) key = if equal k key then some v else none
value_in nothing_said key = none

-- The module that the fields of a line name; it may be the empty text.
unfoldable pub module_in : List Text → Option Text
module_in (first ∷ kind ∷ field ∷ rest) = if equal kind (codes "path") then some field else none
module_in _ = none

setting_in-value :
    (field key value : Text)
    → value_in (setting_in field) key ≡ some value
    → (field ≡ key ++ (b'=' ∷ value)) × Lacks b'=' key
setting_in-value field key value h = elim (cut_at b'=' field) [
  | inl k ↦
      let h' : none ≡ some value = rw (value_in, partition_equals-whole field k) at h in
      absurd (cc h')
  | inr (before, later, e, k) ↦
      let parts : partition_equals field ≡ some (before, later) =
        ap partition_equals e ∙ partition_equals-append before later k in
      let h' : (if equal before key then some later else none) ≡ some value =
        rw (value_in, parts) at h in
      elim (Bool-cases (equal before key)) [
        | inl same ↦
            let h'' : some later ≡ some value = rw same at h' in
            let is_key = (equal_iff before key).0 same in
            let is_value : later ≡ value = cc h'' in
            (e ∙ rw (is_key, is_value) refl, subst (Lacks b'=') is_key k)
        | inr other ↦ let h'' : none ≡ some value = rw other at h' in absurd (cc h'')
      ]
]

said_by-third :
    (first kind field : Text) (more : List Text) (key value : Text)
    → value_in (said_by (first ∷ kind ∷ field ∷ more)) key ≡ some value
    → (kind ≡ codes "build") × (value_in (setting_in field) key ≡ some value)
unfolding said_by
said_by-third first kind field more key value h =
    ground (arith, equal_iff kind (codes "path"), equal_iff kind (codes "build"))

module_in-third :
    (first kind field : Text) (more : List Text) (found : Text)
    → module_in (first ∷ kind ∷ field ∷ more) ≡ some found
    → (kind ≡ codes "path") × (field ≡ found)
unfolding module_in
module_in-third first kind field more found h = ground (arith, equal_iff kind (codes "path"))

build-Lacks_tab : Lacks 0x09 (codes "build")
build-Lacks_tab = omega arith

path-Lacks_tab : Lacks 0x09 (codes "path")
path-Lacks_tab = omega arith

said_by-build :
    (first field : Text) (more : List Text)
    → said_by (first ∷ codes "build" ∷ field ∷ more) ≡ setting_in field
unfolding said_by equal
said_by-build first field more = refl

setting_in-eq :
    (key value : Text)
    → Lacks b'=' key
    → value_in (setting_in (key ++ (b'=' ∷ value))) key ≡ some value
setting_in-eq key value k = rw (value_in, partition_equals-append key value k, equal_refl key)

-- The code reads a setting off a line exactly if the line sets it.
pub value_in-Sets :
    (key value line : Text)
    → (value_in (said_by (split_tabs line)) key ≡ some value) ↔ Sets key value line
unfolding said_by equal
value_in-Sets key value line = (
  λ h. elim (fields_of line) [
    | inl (a, e) ↦ let h' : none ≡ some value = rw e at h in absurd (cc h')
    | inr (inl (a, b, e)) ↦ let h' : none ≡ some value = rw e at h in absurd (cc h')
    | inr (inr t) ↦
        let h' : value_in (said_by (t.first ∷ t.kind ∷ t.field ∷ t.more)) key ≡ some value =
          rw t.is_split at h in
        let (build, found) = said_by-third t.first t.kind t.field t.more key value h' in
        let (reads, k) = setting_in-value t.field key value found in
        (k, rw (← build, ← reads) t.states)
  ],
  λ (k, s).
      let (more, e) = States-split (codes "build") (key ++ (b'=' ∷ value)) line build-Lacks_tab s in
      ap (λ (fs : List Text). value_in (said_by fs) key) e
      ∙ (ap (λ (m : Saying). value_in m key) (said_by-build s.first (key ++ (b'=' ∷ value)) more)
          ∙ setting_in-eq key value k),
)

-- The code takes a module from a line exactly if the line states it.
pub module_in-States :
    (field line : Text)
    → (module_in (split_tabs line) ≡ some field) ↔ States (codes "path") field line
unfolding module_in equal
module_in-States field line = (
  λ h. elim (fields_of line) [
    | inl (a, e) ↦ let h' : none ≡ some field = rw e at h in absurd (cc h')
    | inr (inl (a, b, e)) ↦ let h' : none ≡ some field = rw e at h in absurd (cc h')
    | inr (inr t) ↦
        let h' : module_in (t.first ∷ t.kind ∷ t.field ∷ t.more) ≡ some field =
          rw t.is_split at h in
        let (path, found) = module_in-third t.first t.kind t.field t.more field h' in
        rw (← path, ← found) t.states
  ],
  λ s. let (more, e) = States-split (codes "path") field line path-Lacks_tab s in ap module_in e,
)
