-- ===== src/Codes.antt =====
-- scripts/generate_diagnostic_codes.py: the variants of the compiler's enum, and the adapter that is
-- generated from them.
pub mod Checked
pub mod Printed
use elisa_lsp.Base.{
  ℕ, suc, Bool, true, false, not, ◌||◌, Option, none, some, List, [], ◌∷◌, ◌++◌, map, ◌==◌,
  if◌then◌else◌,
}
use elisa_lsp.Base.Bytes.{◌>>=◌}
use elisa_lsp.Base.Text.{Text, codes, equal}
use elisa_lsp.Base.Patterns.{
  identifier, is_name_char, skip_spaces, to_line_end, after, search_lines, before_match, find_lines,
}
use elisa_lsp.Markers.Distinct.{is_nodup}

-- The `SystemExit`s of enum_variants.
pub data Problem : Type 0 where
  cannot_read not_found no_variants duplicates : Problem

pub data Variants : Type 0 where
  found : List Text → Variants
  stops : Problem → Variants

-- `VARIANT_RE`
unfoldable pub match_variant : Text → Option (Text × Text)
match_variant text = do
  indented ← skip_spaces 12 text
  (name, behind) ← identifier indented
  rest ← to_line_end behind
  some (name, rest)

-- `ENUM_START_RE`
unfoldable pub match_start : Text → Option (Unit {0} × Text)
match_start text = do
  indented ← skip_spaces 8 text
  behind ← after (codes "const enum DiagnosticKind of u16:") indented
  rest ← to_line_end behind
  some (tt, rest)

-- `\b` behind a word; `is_alnum` stands for `str.isalnum` of one character.
abbrev pub at_boundary : (ℕ → Bool) → Text → Bool
at_boundary is_alnum [] = true
at_boundary is_alnum (c ∷ cs) = not (is_alnum c || c == b'_')

first_of : {A : Type 0} → Option A → Option A → Option A
first_of (some a) later = some a
first_of none later = later

-- The first of the words that the text begins with and that ends at a word boundary.
abbrev word_of : (ℕ → Bool) → List Text → Text → Option (Unit {0} × Text)
word_of is_alnum [] text = none
word_of is_alnum (w ∷ ws) text =
    first_of (do rest ← after w text; if at_boundary is_alnum rest then some (tt, rest) else none)
      (word_of is_alnum ws text)

abbrev pub end_words : List Text
end_words = codes "const enum" ∷ codes "enum" ∷ codes "extend" ∷ []

-- `ENUM_END_RE`
unfoldable pub match_end : (ℕ → Bool) → Text → Option (Unit {0} × Text)
unfolding first_of
match_end is_alnum text = do indented ← skip_spaces 8 text; word_of is_alnum end_words indented

-- The names between the enum's declaration and the next one.
unfoldable pub variant_names : (ℕ → Bool) → Text → List Text
variant_names is_alnum tail =
    find_lines match_variant 0 true (before_match (match_end is_alnum) true tail)

check_names : List Text → Variants
check_names [] = stops no_variants
check_names (n ∷ ns) = if not (is_nodup (n ∷ ns)) then stops duplicates else found (n ∷ ns)

-- The argument is what `read_text` returns, `none` where it raises.
unfoldable pub enum_variants : (ℕ → Bool) → Option Text → Variants
unfolding check_names
enum_variants is_alnum none = stops cannot_read
enum_variants is_alnum (some source) = elim (search_lines match_start true source) [
  | none ↦ stops not_found
  | some (_, tail) ↦ check_names (variant_names is_alnum tail)
]

newline : ℕ
newline = 0x0a

-- `"\n".join(lines)`
unfoldable pub join_lines : List Text → Text
unfolding newline
join_lines [] = []
join_lines (line ∷ []) = line
join_lines (line ∷ next ∷ rest) = line ++ (newline ∷ join_lines (next ∷ rest))

abbrev pub header : List Text
header =
    codes "# GENERATED FILE. Do not edit by hand."
    ∷ codes "# Source: src/semantic/semantic_types_diagnostic_kind.elisa in the pinned compiler."
    ∷ codes "# Regenerate with: python3 scripts/generate_diagnostic_codes.py"
    ∷ codes
        "# Stable identifiers are ELISA-<DiagnosticKind>; wording/severity remain frontend-owned."
    ∷ codes "def diagnostic_code(kind: Semantic::DiagnosticKind) -> sview:"
    ∷ codes "    return match kind:"
    ∷ []

abbrev pub arm : Text → Text
arm name =
    codes "        Semantic::DiagnosticKind."
    ++ (name ++ (codes ": \"ELISA-" ++ (name ++ codes "\"")))

unfoldable pub render : List Text → Text
render variants =
    join_lines (header ++ (map arm variants ++ (codes "        _: \"ELISA-Unknown\"" ∷ [] ∷ [])))

-- The exit status, and what the output file holds afterwards if it was written. The second text is
-- what `read_text` of the output returns.
unfoldable pub main : (ℕ → Bool) → Option Text → Option Text → Bool → ℕ × Option Text
main is_alnum enum_source output check = elim (enum_variants is_alnum enum_source) [
  | stops problem ↦ (1, none)
  | found variants ↦
      if check
      then elim output [
        | none ↦ (2, none)
        | some current ↦ if equal current (render variants) then (0, none) else (1, none)
      ]
      else (0, some (render variants))
]
