-- ===== src/Tests/Spans.antt =====
-- The span inventory of a small source.
use elisa_lsp.Base.{
  ℕ, ◌||◌, leb, ◌&&◌, Bool, true, false, Option, none, some, List, [], ◌∷◌, ◌++◌, map, length, ◌≡◌,
  ◌≢◌, ◌↔◌, not, refl, All,
}
use elisa_lsp.Base.Decimal.{decimal}
use elisa_lsp.Base.Patterns.{identifier, after}
use elisa_lsp.Base.Sort.{sort, lex_lt, text_lt}
use elisa_lsp.Base.Text.{Text, codes, equal, contains, lstrip, strip, starts_with}
use elisa_lsp.Inventory.Masking.{mask_literals_and_comments}
use elisa_lsp.Inventory.Masking.Blanked.{AreMasksOf, IsClean, mask_literals_and_comments-keeps}
use elisa_lsp.Inventory.Fields.{split_constructor_fields}
use elisa_lsp.Inventory.Fields.Pieces.{joined, Nests, split_constructor_fields_iff}
use elisa_lsp.Inventory.Scan.{
  Site, sites, unknown, scan_diagnostic_constructors, read_fields, match_field, kind_of,
}
use elisa_lsp.Inventory.{
  Inventory, Sources, built, build_inventory, scan_files, inventory_of, diagnostics_of, add_records,
  no_records, no_entry, count_if, summary_of,
}
use elisa_lsp.Inventory
use elisa_lsp.Inventory.Written.{IsInventory, build_inventory-IsInventory, main-check_iff}
use elisa_lsp.Hashes.Result.{Result, ok, err}
use elisa_lsp.Hashes.Files.{
  suffix, name, parent, parts, join, relative_to, resolve_file, sha256_file,
}
use elisa_lsp.Hashes.Trees.{
  compiler_sources_sha256, tree_digest, tree_bytes, entry_bytes, only_files,
}
use elisa_lsp.Base.Bytes.{encode, to_bytes8, from_hex, to_hex, is_all_hex}
use elisa_lsp.Tests.Fixture.{world, root}
use elisa_lsp.Tests.Adapters.{is_alnum, enum_source, variants, variants_read}

abbrev source : Text
source = codes "a 'Diagnostic{' # x\nDiagnostic { pos: f(1, 2), kind: DiagnosticKind.Alpha }\n"

mask_literals_and_comments-keeps_example :
    AreMasksOf source (mask_literals_and_comments source)
    × IsClean (mask_literals_and_comments source)
    × (mask_literals_and_comments (mask_literals_and_comments source)
        ≡ mask_literals_and_comments source)
mask_literals_and_comments-keeps_example = mask_literals_and_comments-keeps source

split_constructor_fields_iff_example :
    (split_constructor_fields (codes "f(1,2),b}z") ≡ some (codes "f(1,2)" ∷ codes "b" ∷ [])) ↔ (
      ((rest : Text) × (codes "f(1,2),b}z" ≡ joined (codes "f(1,2)" ∷ codes "b" ∷ []) rest))
      × All (Nests []) (codes "f(1,2)" ∷ codes "b" ∷ []))
split_constructor_fields_iff_example =
    split_constructor_fields_iff (codes "f(1,2),b}z") (codes "f(1,2)") (codes "b" ∷ [])

scanned :
    scan_diagnostic_constructors is_alnum source (codes "p")
    ≡ sites (
        record { kind = codes "Alpha"; explicit_position_argument = true; site = codes "p:2" } ∷ [])
unfolding scan_diagnostic_constructors elisa_lsp.Inventory.Scan.scan_from
    elisa_lsp.Inventory.Scan.site_on elisa_lsp.Inventory.Scan.match_constructor
    mask_literals_and_comments split_constructor_fields read_fields match_field kind_of
    elisa_lsp.Inventory.Scan.next_kind elisa_lsp.Inventory.Scan.search_kind
    elisa_lsp.Inventory.Scan.match_kind elisa_lsp.Inventory.Scan.line_of
    elisa_lsp.Base.Text.starts_with identifier after lstrip strip equal decimal
scanned = refl

abbrev records : List Site
records =
    record { kind = codes "Alpha"; explicit_position_argument = true; site = codes "p:2" }
    ∷ record { kind = codes "Zeta"; explicit_position_argument = false; site = codes "p:3" }
    ∷ record { kind = codes "Alpha"; explicit_position_argument = false; site = codes "q:1" }
    ∷ []

abbrev or_blank : Result Text → Text
or_blank (ok t) = t
or_blank (err e) = []

abbrev sources : Sources
sources = record {
  files = world;
  compiler_root = root;
  has_src = true;
  enum_source = some enum_source;
  elisa_files = (codes "p", some source) ∷ [];
}

abbrev found_records : List Site
found_records =
    record { kind = codes "Alpha"; explicit_position_argument = true; site = codes "p:2" } ∷ []

inventory : Inventory
inventory = record {
  compiler_source_fingerprint = or_blank (compiler_sources_sha256 world root);
  summary = summary_of variants 1 found_records;
  diagnostics = diagnostics_of variants found_records;
}

listed : inventory_of is_alnum sources root variants found_records ≡ built inventory
unfolding inventory_of inventory compiler_sources_sha256 tree_digest tree_bytes entry_bytes
    only_files sort lex_lt text_lt suffix name parent parts join relative_to resolve_file
    sha256_file contains encode to_bytes8 from_hex to_hex is_all_hex starts_with equal
listed = refl

inventory_built : build_inventory is_alnum sources ≡ built inventory
unfolding build_inventory scan_files
inventory_built = rw (build_inventory, variants_read, scanned) listed

build_inventory-IsInventory_example : IsInventory is_alnum sources inventory
build_inventory-IsInventory_example = build_inventory-IsInventory is_alnum sources inventory_built

abbrev dumps : Inventory → Text
dumps i = i.compiler_source_fingerprint

main-check_iff_example :
    ((Inventory.main is_alnum dumps sources (some (codes "old")) true).0 ≡ 0) ↔ (
      (i : Inventory) × (build_inventory is_alnum sources ≡ built i)
      × (◌≡◌ {A = Option Text} (some (codes "old")) (some (dumps i ++ codes "\n"))))
main-check_iff_example = main-check_iff is_alnum dumps sources (some (codes "old"))

inventory_written :
    Inventory.main is_alnum dumps sources none false ≡ (0, some (dumps inventory ++ codes "\n"))
unfolding Inventory.main
inventory_written = rw (Inventory.main, inventory_built)
