-- ===== src/Base/Text.antt =====
-- Python's `str` as its list of code points, with the methods that the scripts call.
use Prim.Native.Char.{code}
use Prim.Native.String.{String}
use elisa_lsp.Base.Tests.{Bool-cases, leb, ◌==◌, if◌then◌else◌}
use Prim.Native.Nat.{ℕ}
use mathlib.Core.Path.{◌≡◌, refl}
use mathlib.Core.Logic.{inr, inl, ◌≢◌, ◌↔◌}
use mathlib.Core.Bool.{Bool, true, false, ◌&&◌, ◌||◌}
use mathlib.Core.List.{List, [], ◌∷◌, ◌++◌, reverse}
use native.Mathlib.Omega.{arith}

abbrev pub Text : Type 0
Text = List ℕ

-- A literal of the source.
abbrev pub codes : String → Text
codes String.[] = []
codes (String.◌∷◌ c s) = code c ∷ codes s

unfoldable pub equal : Text → Text → Bool
equal [] [] = true
equal [] (y ∷ ys) = false
equal (x ∷ xs) [] = false
equal (x ∷ xs) (y ∷ ys) = x == y && equal xs ys

pub equal_sound : (xs ys : Text) → equal xs ys ≡ true → xs ≡ ys
unfolding equal
equal_sound [] [] h = refl
equal_sound [] (y ∷ ys) h = cc
equal_sound (x ∷ xs) [] h = cc
equal_sound (x ∷ xs) (y ∷ ys) h = ground (arith, equal_sound xs ys)

pub equal_refl : (xs : Text) → equal xs xs ≡ true
unfolding equal
equal_refl [] = refl
equal_refl (x ∷ xs) = ground (arith, equal_refl xs)

pub equal_iff : (xs ys : Text) → (equal xs ys ≡ true) ↔ (xs ≡ ys)
equal_iff xs ys = (equal_sound xs ys, λ e. rw e (equal_refl ys))

-- `x in xs`, `x not in xs` for a list of texts
unfoldable pub contains : List Text → Text → Bool
contains [] t = false
contains (x ∷ xs) t = equal t x || contains xs t

-- `str.startswith`
unfoldable pub starts_with : Text → Text → Bool
starts_with t [] = true
starts_with [] (p ∷ ps) = false
starts_with (c ∷ cs) (p ∷ ps) = c == p && starts_with cs ps

-- `needle in text`
unfoldable pub has_infix : Text → Text → Bool
unfolding starts_with
has_infix [] needle = starts_with [] needle
has_infix (c ∷ cs) needle = starts_with (c ∷ cs) needle || has_infix cs needle

-- `str.isspace` of one character
unfoldable pub is_space : ℕ → Bool
is_space c =
    leb 0x09 c && leb c 0x0d
    || leb 0x1c c && leb c 0x20
    || c == 0x85
    || c == 0xa0
    || c == 0x1680
    || leb 0x2000 c && leb c 0x200a
    || c == 0x2028
    || c == 0x2029
    || c == 0x202f
    || c == 0x205f
    || c == 0x3000

unfoldable pub lstrip : Text → Text
lstrip [] = []
lstrip (c ∷ cs) = let rest = lstrip cs in if is_space c then rest else c ∷ cs

-- `str.strip()`
unfoldable pub strip : Text → Text
unfolding lstrip is_space
strip t = reverse (lstrip (reverse (lstrip t)))

-- The line boundaries of `str.splitlines`; "\r\n" is one boundary.
unfoldable pub is_break : ℕ → Bool
is_break c =
    leb 0x0a c && leb c 0x0d || leb 0x1c c && leb c 0x1e || c == 0x85 || c == 0x2028 || c == 0x2029

-- One line with its boundary stripped is kept for each boundary, and a last one if it is not empty.
-- `line` is the current line so far; the flag says that the character before was "\r".
lines_onto : Text → Bool → Text → List Text
lines_onto [] after_cr [] = []
lines_onto (x ∷ xs) after_cr [] = (x ∷ xs) ∷ []
lines_onto line after_cr (c ∷ cs) =
    let skipped = lines_onto [] false cs in
    let broken = lines_onto [] (c == 0x0d) cs in
    let same = lines_onto (line ++ (c ∷ [])) false cs in
    if after_cr && c == 0x0a then skipped else if is_break c then line ∷ broken else same

unfoldable pub splitlines : Text → List Text
unfolding lines_onto is_break
splitlines = lines_onto [] false

splitlines_example :
    splitlines (0x61 ∷ 0x0d ∷ 0x0a ∷ 0x0a ∷ 0x62 ∷ 0x0a ∷ []) ≡ (0x61 ∷ []) ∷ [] ∷ (0x62 ∷ []) ∷ []
unfolding splitlines
splitlines_example = refl

lines_onto-ne-nil : (x : ℕ) (xs t : Text) → lines_onto (x ∷ xs) false t ≢ []
unfolding lines_onto
lines_onto-ne-nil x xs [] h = cc
lines_onto-ne-nil x xs (c ∷ cs) h = elim (Bool-cases (is_break c)) [
  | inl e ↦ cc (rw (lines_onto, e) at h)
  | inr e ↦ lines_onto-ne-nil x (xs ++ (c ∷ [])) cs (rw (lines_onto, e) at h)
]

-- A text with a character in it has a line.
pub splitlines-ne-nil : (c : ℕ) (cs : Text) → splitlines (c ∷ cs) ≢ []
unfolding splitlines lines_onto
splitlines-ne-nil c cs h = elim (Bool-cases (is_break c)) [
  | inl e ↦ cc (rw (splitlines, lines_onto, e) at h)
  | inr e ↦ lines_onto-ne-nil c [] cs (rw (splitlines, lines_onto, e) at h)
]
