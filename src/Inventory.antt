-- ===== src/Inventory.antt =====
-- build_inventory and main of scripts/diagnostic_span_inventory.py.
pub mod Masking
pub mod Fields
pub mod Scan
pub mod Counts
pub mod Written
use elisa_lsp.Base.{
  ℕ, suc, ◌+◌, ◌-◌, Bool, true, false, not, ◌&&◌, Option, none, some, List, [], ◌∷◌, ◌++◌, map,
  length, ltb, if◌then◌else◌,
}
use elisa_lsp.Base.Sort.{sort, pair_lt, text_lt}
use elisa_lsp.Base.Text.{Text, codes, equal, contains}
use elisa_lsp.Codes
use elisa_lsp.Codes.{enum_variants}
use elisa_lsp.Hashes.Files.{Files, FilePath}
use elisa_lsp.Hashes.Result.{Error, Result, ok, err, os_error, unicode_error, value_error}
use elisa_lsp.Hashes.Trees.{compiler_sources_sha256}
use elisa_lsp.Markers.Distinct.{push_new}
use Scan.{Site, Scanned, sites, unclosed, scan_diagnostic_constructors}

pub record Entry : Type 0 where
  pub construction_sites : ℕ
  pub explicit_position_sites : ℕ
  pub default_position_sites : List Text

abbrev pub no_entry : Entry
no_entry = record {
  construction_sites = 0;
  explicit_position_sites = 0;
  default_position_sites = [];
}

-- What the loop over the records collects; `stats` gives the entry of a kind.
pub record Tally : Type 0 where
  pub stats : Text → Entry
  pub unclassified : List Site
  pub unknown_kind_names : List Text
  pub explicit_position_sites : ℕ

abbrev pub no_records : Tally
no_records = record {
  stats = λ kind. no_entry;
  unclassified = [];
  unknown_kind_names = [];
  explicit_position_sites = 0;
}

unfoldable pub counted : Site → Entry → Entry
counted s e = record {
  construction_sites = e.construction_sites + 1;
  explicit_position_sites =
      if s.explicit_position_argument
      then e.explicit_position_sites + 1
      else e.explicit_position_sites;
  default_position_sites =
      if s.explicit_position_argument
      then e.default_position_sites
      else e.default_position_sites ++ (s.site ∷ []);
}

-- `stats[kind] = entry`
unfoldable pub set_entry : Text → Entry → (Text → Entry) → Text → Entry
set_entry kind entry stats k = if equal kind k then entry else stats k

-- The loop's body.
unfoldable pub add_record : List Text → Tally → Site → Tally
unfolding counted set_entry
add_record variants t s =
    let explicit =
      if s.explicit_position_argument
      then t.explicit_position_sites + 1
      else t.explicit_position_sites in
    if not (contains variants s.kind)
    then record t {
      explicit_position_sites = explicit;
      unclassified = t.unclassified ++ (s ∷ []);
      unknown_kind_names = push_new (some s.kind) t.unknown_kind_names;
    }
    else record t {
      explicit_position_sites = explicit;
      stats = set_entry s.kind (counted s (t.stats s.kind)) t.stats;
    }

unfoldable pub add_records : List Text → Tally → List Site → Tally
add_records variants t [] = t
add_records variants t (s ∷ rest) = add_records variants (add_record variants t s) rest

pub record Diagnostic : Type 0 where
  pub kind : Text
  pub construction_sites : ℕ
  pub explicit_position_sites : ℕ
  pub default_position_sites : List Text

unfoldable pub diagnostic_of : (Text → Entry) → Text → Diagnostic
diagnostic_of stats kind = record {
  kind = kind;
  construction_sites = (stats kind).construction_sites;
  explicit_position_sites = (stats kind).explicit_position_sites;
  default_position_sites = sort text_lt (stats kind).default_position_sites;
}

-- `sum(1 for item in items if test(item))`
unfoldable pub count_if {ℓ} : {A : Type ℓ} → (A → Bool) → List A → ℕ
count_if test [] = 0
count_if test (x ∷ xs) = let rest = count_if test xs in if test x then rest + 1 else rest

abbrev pub is_positive : ℕ → Bool
is_positive n = ltb 0 n

abbrev pub has_items {ℓ} : {A : Type ℓ} → List A → Bool
has_items [] = false
has_items (x ∷ xs) = true

-- `key=lambda item: (item["kind_expression"], item["site"])`
abbrev pub site_lt : Site → Site → Bool
site_lt a b = pair_lt text_lt text_lt (a.kind, a.site) (b.kind, b.site)

pub record Summary : Type 0 where
  pub diagnostic_kind_count : ℕ
  pub source_file_count : ℕ
  pub construction_site_count : ℕ
  pub classified_construction_site_count : ℕ
  pub unclassified_construction_site_count : ℕ
  pub kinds_with_constructors : ℕ
  pub kinds_with_only_explicit_position_arguments : ℕ
  pub kinds_with_default_position_sites : ℕ
  pub explicit_position_site_count : ℕ
  pub default_position_site_count : ℕ
  pub unclassified_explicit_position_site_count : ℕ
  pub unclassified_default_position_site_count : ℕ
  pub unclassified_sites : List Site
  pub unknown_kind_names : List Text

unfoldable pub diagnostics_of : List Text → List Site → List Diagnostic
unfolding diagnostic_of
diagnostics_of variants records =
    map (diagnostic_of (add_records variants no_records records).stats) (sort text_lt variants)

unfoldable pub summary_of : List Text → ℕ → List Site → Summary
unfolding add_records diagnostics_of count_if
summary_of variants file_count records =
    let t = add_records variants no_records records in
    let diagnostics = diagnostics_of variants records in
    record {
      diagnostic_kind_count = length variants;
      source_file_count = file_count;
      construction_site_count = length records;
      classified_construction_site_count = length records - length t.unclassified;
      unclassified_construction_site_count = length t.unclassified;
      kinds_with_constructors = count_if (λ d. is_positive d.construction_sites) diagnostics;
      kinds_with_only_explicit_position_arguments =
          count_if
            (λ d. is_positive d.construction_sites && not (has_items d.default_position_sites))
            diagnostics;
      kinds_with_default_position_sites =
          count_if (λ d. has_items d.default_position_sites) diagnostics;
      explicit_position_site_count = t.explicit_position_sites;
      default_position_site_count = length records - t.explicit_position_sites;
      unclassified_explicit_position_site_count =
          count_if (λ s. s.explicit_position_argument) t.unclassified;
      unclassified_default_position_site_count =
          count_if (λ s. not s.explicit_position_argument) t.unclassified;
      unclassified_sites = sort site_lt t.unclassified;
      unknown_kind_names = sort text_lt t.unknown_kind_names;
    }

pub record Inventory : Type 0 where
  pub compiler_source_fingerprint : Text
  pub summary : Summary
  pub diagnostics : List Diagnostic

-- What the script reads. `elisa_files` are the sources below `src` in sorted order, by their path
-- below the root, each with what `read_text` returns; `none` is an exception.
pub record Sources : Type 0 where
  pub files : Files
  pub compiler_root : FilePath
  pub has_src : Bool
  pub enum_source : Option Text
  pub elisa_files : List (Text × Option Text)

pub data Failure : Type 0 where
  unresolved_root no_source_directory unreadable : Failure
  unclosed_literal : Text → ℕ → Failure
  bad_enum : Codes.Problem → Failure
  no_fingerprint : Error → Failure

pub data Built {ℓ} (A : Type ℓ) : Type ℓ where
  built : A → Built A
  failed : Failure → Built A

-- `except (OSError, UnicodeError, ValueError)`
unfoldable pub is_reported : Error → Bool
is_reported os_error = true
is_reported unicode_error = true
is_reported value_error = true
is_reported why = false

-- 2 for what is reported, and else 1: for `SystemExit` and for what nothing catches.
unfoldable pub failure_status : Failure → ℕ
failure_status unresolved_root = 2
failure_status no_source_directory = 2
failure_status unreadable = 2
failure_status (unclosed_literal path line) = 2
failure_status (bad_enum problem) = 1
failure_status (no_fingerprint why) = if is_reported why then 2 else 1

module _ (is_alnum : ℕ → Bool) where
  -- The records of all files.
  unfoldable pub scan_files : List (Text × Option Text) → Built (List Site)
  scan_files [] = built []
  scan_files ((relative, none) ∷ rest) = failed unreadable
  scan_files ((relative, some source) ∷ rest) =
      elim (scan_diagnostic_constructors is_alnum source relative) [
        | unclosed line ↦ failed (unclosed_literal relative line)
        | sites found ↦ elim (scan_files rest) [
          | failed why ↦ failed why
          | built later ↦ built (found ++ later)
        ]
      ]

  unfoldable pub inventory_of : Sources → FilePath → List Text → List Site → Built Inventory
  inventory_of s root variants records = elim (compiler_sources_sha256 s.files root) [
    | err why ↦ failed (no_fingerprint why)
    | ok fingerprint ↦ built (record {
      compiler_source_fingerprint = fingerprint;
      summary = summary_of variants (length s.elisa_files) records;
      diagnostics = diagnostics_of variants records;
    })
  ]

  unfoldable pub build_inventory : Sources → Built Inventory
  build_inventory s = elim (s.files.resolve s.compiler_root) [
    | none ↦ failed unresolved_root
    | some root ↦
        if not s.has_src
        then failed no_source_directory
        else elim (enum_variants is_alnum s.enum_source) [
          | Codes.stops problem ↦ failed (bad_enum problem)
          | Codes.found variants ↦ elim (scan_files s.elisa_files) [
            | failed why ↦ failed why
            | built records ↦ inventory_of s root variants records
          ]
        ]
  ]

  -- The exit status, and the output if it is written. `dumps` stands for `json.dumps`, and `current`
  -- is what `read_text` of the output returns.
  unfoldable pub main : (Inventory → Text) → Sources → Option Text → Bool → ℕ × Option Text
  main dumps s current check = elim (build_inventory s) [
    | failed why ↦ (failure_status why, none)
    | built inventory ↦
        if check
        then elim current [
          | none ↦ (2, none)
          | some text ↦ if equal text (dumps inventory ++ codes "\n") then (0, none) else (2, none)
        ]
        else (0, some (dumps inventory ++ codes "\n"))
  ]
