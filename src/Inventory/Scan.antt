-- ===== src/Inventory/Scan.antt =====
-- `scan_diagnostic_constructors` of scripts/diagnostic_span_inventory.py.
pub mod Sites
use elisa_lsp.Base.{
  ℕ, zero, suc, ◌+◌, Bool, true, false, not, ◌&&◌, ◌||◌, Option, none, some, List, [], ◌∷◌, ◌++◌,
  take, ◌==◌, if◌then◌else◌,
}
use elisa_lsp.Base.Bytes.{◌>>=◌}
use elisa_lsp.Base.Decimal.{decimal}
use elisa_lsp.Base.Text.{Text, codes, equal, is_space, lstrip, strip}
use elisa_lsp.Base.Patterns.{identifier, is_name_char, after}
use elisa_lsp.Codes.{at_boundary}
use elisa_lsp.Inventory.Masking.{mask_literals_and_comments, newline}
use elisa_lsp.Inventory.Fields.{split_constructor_fields}

pub record Site : Type 0 where
  pub kind : Text
  pub explicit_position_argument : Bool
  pub site : Text

-- `unclosed` is the `ValueError` of a constructor without an end, with its line.
pub data Scanned : Type 0 where
  sites : List Site → Scanned
  unclosed : ℕ → Scanned

abbrev pub unknown : Text
unknown = codes "dynamic/unknown"

-- `FIELD_RE.match(field)`: the name, and what follows the colon.
unfoldable pub match_field : Text → Option (Text × Text)
match_field field = do
  (name, behind) ← identifier (lstrip field)
  rest ← after (codes ":") (lstrip behind)
  some (name, rest)

-- `source.count("\n", 0, offset) + 1`
count_newlines : Text → ℕ
count_newlines [] = 0
count_newlines (c ∷ cs) = let rest = count_newlines cs in if c == newline then rest + 1 else rest

unfoldable pub line_of : Text → ℕ → ℕ
unfolding count_newlines
line_of source offset = count_newlines (take offset source) + 1

-- `IDENTIFIER_RE.fullmatch(value)`
unfoldable pub is_identifier : Text → Bool
is_identifier value = elim (identifier value) [ some (name, []) ↦ true | _ ↦ false ]

-- `is_alnum` stands for `str.isalnum` of one character, which `\w` and `\b` are made of.
module _ (is_alnum : ℕ → Bool) where
  abbrev pub is_word : ℕ → Bool
  is_word c = is_alnum c || c == b'_'

  -- `CONSTRUCTOR_RE` behind its first `\b`: what follows the brace.
  unfoldable pub match_constructor : Text → Option Text
  match_constructor text = do
    behind ← after (codes "Diagnostic") text
    bounded ← if at_boundary is_alnum behind then some behind else none
    after (codes "{") (lstrip bounded)

  -- `KIND_RE` behind its first `\b`: the name of the variant.
  unfoldable pub match_kind : Text → Option Text
  match_kind text = do
    behind ← after (codes "DiagnosticKind.") text
    (name, rest) ← identifier behind
    if at_boundary is_alnum rest then some name else none

  -- `KIND_RE.search(field)`; the flag says that the character before is a word's.
  unfoldable pub search_kind : Bool → Text → Option Text
  search_kind inside [] = none
  search_kind inside (c ∷ cs) =
      let later = search_kind (is_word c) cs in
      elim (if inside then none else match_kind (c ∷ cs)) [ none ↦ later | some name ↦ some name ]

  -- The kind that a field `kind` names.
  unfoldable pub kind_of : Text → Text → Text
  kind_of field behind = elim (search_kind false field) [
    | some name ↦ name
    | none ↦ if is_identifier (strip behind) then strip behind else unknown
  ]

  -- `if field_name == "pos": ... elif field_name == "kind": ...`, as far as it sets the kind.
  unfoldable pub next_kind : Text → Text → Text → Text → Text
  next_kind field name behind kind =
      if equal name (codes "pos")
      then kind
      else if equal name (codes "kind")
      then kind_of field behind
      else kind

  -- The loop over the fields: the kind so far, and whether a position was given.
  unfoldable pub read_fields : List Text → Text → Bool → Text × Bool
  read_fields [] kind has_position = (kind, has_position)
  read_fields (field ∷ rest) kind has_position = elim (match_field field) [
    | none ↦ read_fields rest kind has_position
    | some (name, behind) ↦
        read_fields rest (next_kind field name behind kind)
          (has_position || equal name (codes "pos"))
  ]

  -- The site of a constructor on the line, whose text behind the brace is given, and the later ones.
  unfoldable pub site_on : ℕ → Text → Text → Scanned → Scanned
  site_on line relative_path opening later = elim (split_constructor_fields opening) [
    | none ↦ unclosed line
    | some fields ↦ elim later [
      | unclosed below ↦ unclosed below
      | sites more ↦
          let (kind, has_position) = read_fields fields unknown false in
          sites (
            record {
              kind = kind;
              explicit_position_argument = has_position;
              site = relative_path ++ (codes ":" ++ decimal line);
            }
            ∷ more)
    ]
  ]

  -- The constructors that begin in the masked text, which starts at the offset; no two matches of
  -- the pattern overlap.
  unfoldable pub scan_from : Text → Text → ℕ → Bool → Text → Scanned
  scan_from source relative_path offset inside [] = sites []
  scan_from source relative_path offset inside (c ∷ cs) =
      let later = scan_from source relative_path (suc offset) (is_word c) cs in
      elim (if inside then none else match_constructor (c ∷ cs)) [
        | none ↦ later
        | some opening ↦ site_on (line_of source offset) relative_path opening later
      ]

  unfoldable pub scan_diagnostic_constructors : Text → Text → Scanned
  scan_diagnostic_constructors source relative_path =
      scan_from source relative_path 0 false (mask_literals_and_comments source)
