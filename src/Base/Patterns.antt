-- ===== src/Base/Patterns.antt =====
-- Pieces of the scripts' regular expressions over Python's `str`, and how `re` goes over a text.
use Prim.Native.Nat.{ℕ, zero, suc, ◌-◌}
use mathlib.Core.Bool.{Bool, true, false, ◌&&◌, ◌||◌}
use mathlib.Core.Option.{Option, none, some}
use mathlib.Core.List.{List, [], ◌∷◌}
use elisa_lsp.Base.Tests.{leb, ◌==◌, if◌then◌else◌}
use elisa_lsp.Base.Lists.{length}
use elisa_lsp.Base.Text.{Text, is_space}

-- `[A-Za-z_]`
unfoldable pub is_name_start : ℕ → Bool
is_name_start c = leb b'A' c && leb c b'Z' || leb b'a' c && leb c b'z' || c == b'_'

-- `[A-Za-z0-9_]`
unfoldable pub is_name_char : ℕ → Bool
unfolding is_name_start
is_name_char c = is_name_start c || leb b'0' c && leb c b'9'

-- The longest run of characters that pass the test, and what follows it.
unfoldable pub span : (ℕ → Bool) → Text → Text × Text
span test [] = ([], [])
span test (c ∷ cs) =
    let (run, rest) = span test cs in if test c then (c ∷ run, rest) else ([], c ∷ cs)

-- `[A-Za-z_][A-Za-z0-9_]*`: the longest name, and what follows it.
unfoldable pub identifier : Text → Option (Text × Text)
unfolding span is_name_start is_name_char
identifier [] = none
identifier (c ∷ cs) =
    let (run, rest) = span is_name_char cs in if is_name_start c then some (c ∷ run, rest) else none

-- `\s{k}`
unfoldable pub skip_spaces : ℕ → Text → Option Text
skip_spaces zero t = some t
skip_spaces (suc k) [] = none
skip_spaces (suc k) (c ∷ cs) = if is_space c then skip_spaces k cs else none

-- `\s*$` with `re.MULTILINE`: the longest run of spaces that ends before a "\n" or with the text.
unfoldable pub to_line_end : Text → Option Text
unfolding is_space
to_line_end [] = some []
to_line_end (c ∷ cs) =
    let here = if c == 0x0a then some (c ∷ cs) else none in
    let later : Option Text = elim (to_line_end cs) [ none ↦ here | some rest ↦ some rest ] in
    if is_space c then later else none

-- A literal: what follows it, if the text begins with it.
unfoldable pub after : Text → Text → Option Text
after [] text = some text
after (k ∷ ks) [] = none
after (k ∷ ks) (c ∷ cs) = if c == k then after ks cs else none

module _ {ℓ} {A : Type ℓ} (matches : Text → Option (A × Text)) where
  -- A pattern that begins with `^` matches only where the flag says that a line begins.
  abbrev pub at_line : Bool → Text → Option (A × Text)
  at_line true text = matches text
  at_line false text = none

  -- `search`: what the first match finds, and what follows it.
  unfoldable pub search_lines : Bool → Text → Option (A × Text)
  search_lines starts [] = at_line starts []
  search_lines starts (c ∷ cs) = elim (at_line starts (c ∷ cs)) [
    | none ↦ search_lines (c == 0x0a) cs
    | some found ↦ some found
  ]

  -- `text[: match.start()]` of the first match, or the whole text.
  unfoldable pub before_match : Bool → Text → Text
  before_match starts [] = []
  before_match starts (c ∷ cs) = elim (at_line starts (c ∷ cs)) [
    | none ↦ c ∷ before_match (c == 0x0a) cs
    | some found ↦ []
  ]

  -- `findall`: the number counts the characters of the last match that are still to pass.
  unfoldable pub find_lines : ℕ → Bool → Text → List A
  find_lines passing starts [] = []
  find_lines (suc n) starts (c ∷ cs) = find_lines n (c == 0x0a) cs
  find_lines zero starts (c ∷ cs) = elim (at_line starts (c ∷ cs)) [
    | none ↦ find_lines zero (c == 0x0a) cs
    | some (found, rest) ↦ found ∷ find_lines (length cs - length rest) (c == 0x0a) cs
  ]
