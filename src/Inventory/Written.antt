-- ===== src/Inventory/Written.antt =====
-- What an inventory that scripts/diagnostic_span_inventory.py builds vouches for, and what `--check`
-- does.
use elisa_lsp.Base.{
  ℕ, Bool, true, false, Option, none, some, List, ◌++◌, length, ◌≡◌, ◌≢◌, ◌↔◌, ◌⊎◌, inl, inr, refl,
  arith, ap, ◌∙◌, Bool-cases, Option-cases,
}
use elisa_lsp.Base.Text.{Text, codes, equal, equal_iff, equal_refl}
use elisa_lsp.Codes
use elisa_lsp.Codes.{enum_variants}
use elisa_lsp.Codes.Checked.{enum_variants-IsVariants}
use elisa_lsp.Codes.Printed.{Variants-cases}
use elisa_lsp.Hashes.Files.{FilePath}
use elisa_lsp.Hashes.Result.{Error, Result, ok, err}
use elisa_lsp.Hashes.Trees.{compiler_sources_sha256}
use elisa_lsp.Inventory.Counts.Summed.{AddsUp, summary_of-AddsUp}
use elisa_lsp.Inventory.Scan.{Site}
use elisa_lsp.Inventory.{
  Inventory, Sources, Failure, unresolved_root, no_source_directory, unreadable, unclosed_literal,
  bad_enum, no_fingerprint, is_reported, Built, built, failed, scan_files, inventory_of,
  build_inventory, failure_status, main, summary_of, diagnostics_of,
}

Built-cases {ℓ} :
    {A : Type ℓ} (b : Built A) → ((a : A) × (b ≡ built a)) ⊎ ((why : Failure) × (b ≡ failed why))
Built-cases (built a) = inl (a, refl)
Built-cases (failed why) = inr (why, refl)

Result-cases {ℓ} :
    {A : Type ℓ} (r : Result A) → ((a : A) × (r ≡ ok a)) ⊎ ((e : Error) × (r ≡ err e))
Result-cases (ok a) = inl (a, refl)
Result-cases (err e) = inr (e, refl)

module _ (is_alnum : ℕ → Bool) (s : Sources) where
  -- The parts of an inventory, and where they come from.
  pub record IsInventory (inventory : Inventory) : Type 0 where
    pub root : FilePath
    pub variants : List Text
    pub records : List Site
    pub resolves : s.files.resolve s.compiler_root ≡ some root
    pub source_directory : s.has_src ≡ true
    pub enum_read : enum_variants is_alnum s.enum_source ≡ Codes.found variants
    pub scanned : scan_files is_alnum s.elisa_files ≡ built records
    pub fingerprint :
        compiler_sources_sha256 s.files root ≡ ok inventory.compiler_source_fingerprint
    pub summarized : inventory.summary ≡ summary_of variants (length s.elisa_files) records
    pub listed : inventory.diagnostics ≡ diagnostics_of variants records
    pub adds_up : AddsUp variants records inventory.summary

  inventory_of-IsInventory :
      (root : FilePath) (variants : List Text) (records : List Site) {inventory : Inventory}
      → s.files.resolve s.compiler_root ≡ some root
      → s.has_src ≡ true
      → enum_variants is_alnum s.enum_source ≡ Codes.found variants
      → scan_files is_alnum s.elisa_files ≡ built records
      → inventory_of is_alnum s root variants records ≡ built inventory
      → IsInventory inventory
  unfolding inventory_of
  inventory_of-IsInventory root variants records {inventory} r d v f e =
      elim (Result-cases (compiler_sources_sha256 s.files root)) [
        | inr (why, x) ↦ cc (rw (inventory_of, x) at e)
        | inl (fingerprint, x) ↦
            let made = rw (inventory_of, x) at e in
            let same : inventory.summary ≡ summary_of variants (length s.elisa_files) records =
              cc made in
            let printed : fingerprint ≡ inventory.compiler_source_fingerprint = cc made in
            let distinct = (enum_variants-IsVariants is_alnum s.enum_source v).distinct in
            record {
              root = root;
              variants = variants;
              records = records;
              resolves = r;
              source_directory = d;
              enum_read = v;
              scanned = f;
              fingerprint = x ∙ ap ok printed;
              summarized = same;
              listed = cc made;
              adds_up =
                  rw same (summary_of-AddsUp variants (length s.elisa_files) records distinct);
            }
      ]

  -- An inventory that is built has the fingerprint of the resolved root, its summary and its list are
  -- those of the enum's variants and of the records of all source files, and its figures add up.
  pub build_inventory-IsInventory :
      {inventory : Inventory} → build_inventory is_alnum s ≡ built inventory → IsInventory inventory
  unfolding build_inventory
  build_inventory-IsInventory e = elim (Option-cases (s.files.resolve s.compiler_root)) [
    | inl r ↦ cc (rw (build_inventory, r) at e)
    | inr (root, r) ↦ elim (Bool-cases s.has_src) [
      | inr d ↦ cc (rw (build_inventory, r, d) at e)
      | inl d ↦ elim (Variants-cases (enum_variants is_alnum s.enum_source)) [
        | inr (p, v) ↦ cc (rw (build_inventory, r, d, v) at e)
        | inl (variants, v) ↦ elim (Built-cases (scan_files is_alnum s.elisa_files)) [
          | inr (why, f) ↦ cc (rw (build_inventory, r, d, v, f) at e)
          | inl (records, f) ↦
              inventory_of-IsInventory root variants records r d v f
                (rw (build_inventory, r, d, v, f) at e)
        ]
      ]
    ]
  ]

failure_status-ne-zero : (why : Failure) → failure_status why ≢ 0
unfolding failure_status
failure_status-ne-zero unresolved_root e = omega arith
failure_status-ne-zero no_source_directory e = omega arith
failure_status-ne-zero unreadable e = omega arith
failure_status-ne-zero (unclosed_literal path line) e = omega arith
failure_status-ne-zero (bad_enum problem) e = omega arith
failure_status-ne-zero (no_fingerprint why) e = elim (Bool-cases (is_reported why)) [
  | inl x ↦ cc (rw (failure_status, x) at e)
  | inr x ↦ cc (rw (failure_status, x) at e)
]

checked :
    (is_alnum : ℕ → Bool) (dumps : Inventory → Text) (s : Sources) (current : Option Text)
    → (main is_alnum dumps s current true).0 ≡ 0
    → (inventory : Inventory) × (build_inventory is_alnum s ≡ built inventory)
      × (current ≡ some (dumps inventory ++ codes "\n"))
unfolding main
checked is_alnum dumps s current h = elim (Built-cases (build_inventory is_alnum s)) [
  | inr (why, b) ↦ elim (failure_status-ne-zero why (rw (main, b) at h)) [ ]
  | inl (inventory, b) ↦ elim (Option-cases current) [
    | inl c ↦ cc (rw (main, b, c) at h)
    | inr (t, c) ↦ elim (Bool-cases (equal t (dumps inventory ++ codes "\n"))) [
      | inl same ↦ (inventory, b, c ∙ ap some ((equal_iff t _).0 same))
      | inr other ↦ cc (rw (main, b, c, other) at h)
    ]
  ]
]

-- `--check` exits with 0 exactly when an inventory is built and the output is its text with a line
-- break.
pub main-check_iff :
    (is_alnum : ℕ → Bool) (dumps : Inventory → Text) (s : Sources) (current : Option Text)
    → ((main is_alnum dumps s current true).0 ≡ 0) ↔ (
        (inventory : Inventory) × (build_inventory is_alnum s ≡ built inventory)
        × (current ≡ some (dumps inventory ++ codes "\n")))
unfolding main
main-check_iff is_alnum dumps s current = (
  checked is_alnum dumps s current,
  λ (inventory, b, e). rw (main, b, e, equal_refl (dumps inventory ++ codes "\n")),
)

-- What the program writes passes `--check` against the same sources.
pub main-main :
    (is_alnum : ℕ → Bool) (dumps : Inventory → Text) (s : Sources) (current : Option Text)
    (written : Text)
    → main is_alnum dumps s current false ≡ (0, some written)
    → main is_alnum dumps s (some written) true ≡ (0, none)
unfolding main
main-main is_alnum dumps s current written h = elim (Built-cases (build_inventory is_alnum s)) [
  | inl (inventory, b) ↦
      let same : dumps inventory ++ codes "\n" ≡ written = cc (rw (main, b) at h) in
      rw (main, b, ← same, equal_refl (dumps inventory ++ codes "\n"))
  | inr (why, b) ↦ cc (rw (main, b) at h)
]
