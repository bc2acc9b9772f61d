-- ===== src/Tests/Adapters.antt =====
-- The diagnostic-code adapter of a small enum.
use elisa_lsp.Base.{
  ℕ, ◌||◌, leb, ◌&&◌, Bool, true, false, none, some, List, [], ◌∷◌, ◌++◌, ◌≡◌, ◌↔◌, refl,
}
use elisa_lsp.Base.Patterns.{
  identifier, skip_spaces, to_line_end, after, search_lines, before_match, find_lines,
}
use elisa_lsp.Base.Text.{Text, codes, equal, contains}
use elisa_lsp.Codes.{
  found, match_variant, match_start, match_end, variant_names, enum_variants, render, main,
}
use elisa_lsp.Codes.Checked.{IsVariants, enum_variants-IsVariants}
use elisa_lsp.Codes.Printed.{main_check-write}
use elisa_lsp.Markers.Distinct.{is_nodup}

abbrev pub is_alnum : ℕ → Bool
is_alnum c = leb b'0' c && leb c b'9' || leb b'A' c && leb c b'Z' || leb b'a' c && leb c b'z'

abbrev pub enum_source : Text
enum_source =
    codes "namespace X\n        const enum DiagnosticKind of u16:\n"
    ++ codes "            Alpha\n            Beta_2\n        enum Other:\n            Gamma\n"

abbrev pub variants : List Text
variants = codes "Alpha" ∷ codes "Beta_2" ∷ []

pub variants_read : enum_variants is_alnum (some enum_source) ≡ found variants
unfolding enum_variants variant_names match_variant match_start match_end identifier skip_spaces
    to_line_end after search_lines before_match find_lines is_nodup contains equal
variants_read = refl

enum_variants-IsVariants_example : IsVariants variants
enum_variants-IsVariants_example =
    enum_variants-IsVariants is_alnum (some enum_source) variants_read

written : main is_alnum (some enum_source) none false ≡ (0, some (render variants))
unfolding main enum_variants variant_names match_variant match_start match_end identifier
    skip_spaces to_line_end after search_lines before_match find_lines is_nodup contains equal
written = refl

main_check-write_example :
    ((main is_alnum none (some (render variants)) true).0 ≡ 0)
    ↔ (enum_variants is_alnum none ≡ enum_variants is_alnum (some enum_source))
main_check-write_example =
    main_check-write is_alnum (some enum_source) none none (render variants) written
