-- ===== src/Hashes/Directives.antt =====
-- `INCLUDE_DIRECTIVE_RE` of scripts/build_hashes.py and its `finditer`: the quoted includes of a
-- source, as the compiler's line-oriented grammar has them.
use elisa_lsp.Base.{
  ℕ, zero, suc, ◌-◌, Bool, true, ◌||◌, Option, none, some, List, [], ◌∷◌, length, ◌==◌,
  if◌then◌else◌,
}
use elisa_lsp.Base.Text.{codes}
use elisa_lsp.Base.Bytes.{Bytes, ◌>>=◌}

abbrev pub is_blank : ℕ → Bool
is_blank c = c == b' ' || c == b'\t'

abbrev pub is_tail : ℕ → Bool
is_tail c = is_blank c || c == b'\r'

-- What is left behind the longest run of bytes that pass the test, with the run's length added.
-- No part of the pattern that follows a run begins with a byte of the run, so the longest run is
-- the one that can match.
unfoldable pub skip : (ℕ → Bool) → Bytes → Bytes
skip test [] = []
skip test (c ∷ cs) = let rest = skip test cs in if test c then rest else c ∷ cs

abbrev drop_hash : Bytes → Bytes
drop_hash [] = []
drop_hash (c ∷ cs) = if c == b'#' then cs else c ∷ cs

abbrev pub at_line_end : Bytes → Bool
at_line_end [] = true
at_line_end (c ∷ cs) = c == b'\n'

-- `[^"]*"`: the bytes up to the next quotation mark, and what follows it.
unfoldable pub quoted : Bytes → Option (Bytes × Bytes)
quoted [] = none
quoted (c ∷ cs) = elim (quoted cs) [
  | none ↦ if c == b'"' then some ([], cs) else none
  | some (path, rest) ↦ if c == b'"' then some ([], cs) else some (c ∷ path, rest)
]

abbrev pub keyword : Bytes
keyword = codes "include"

-- What follows the literal, if the text begins with it.
unfoldable pub after_literal : Bytes → Bytes → Option Bytes
after_literal [] text = some text
after_literal (k ∷ ks) [] = none
after_literal (k ∷ ks) (c ∷ cs) = if c == k then after_literal ks cs else none

abbrev after_mark : Bytes → Option Bytes
after_mark [] = none
after_mark (c ∷ cs) = if c == b'"' then some cs else none

-- `[ \t]+"`: at least one blank, then the mark.
abbrev after_opening : Bytes → Option Bytes
after_opening [] = none
after_opening (c ∷ cs) = if is_blank c then after_mark (skip is_blank cs) else none

abbrev at_end : Bytes × Bytes → Option (Bytes × Bytes)
at_end (path, rest) =
    let behind = skip is_tail rest in if at_line_end behind then some (path, behind) else none

-- The directive at the beginning of a line: the quoted path, and what follows the match.
unfoldable pub match_directive : Bytes → Option (Bytes × Bytes)
match_directive text = do
  body ← after_literal keyword (skip is_blank (drop_hash (skip is_blank text)))
  opened ← after_opening body
  found ← quoted opened
  at_end found

-- `finditer` with `re.MULTILINE`: the first number counts the bytes of the last match that are
-- still to pass, the flag says that a line begins here.
unfoldable pub scan : ℕ → Bool → Bytes → List Bytes
scan passing starts [] = []
scan (suc n) starts (c ∷ cs) = scan n (c == b'\n') cs
scan zero starts (c ∷ cs) =
    let plain = scan zero (c == b'\n') cs in
    elim (if starts then match_directive (c ∷ cs) else none) [
      | none ↦ plain
      | some (path, rest) ↦ path ∷ scan (length cs - length rest) (c == b'\n') cs
    ]

unfoldable pub directives : Bytes → List Bytes
directives = scan 0 true
