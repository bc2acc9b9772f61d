-- ===== src/Inventory/Masking.antt =====
-- `_mask_literals_and_comments` of scripts/diagnostic_span_inventory.py.
pub mod Blanked
pub mod Literals
use elisa_lsp.Base.{ℕ, zero, suc, Bool, true, false, ◌||◌, List, [], ◌∷◌, ◌==◌, if◌then◌else◌}
use elisa_lsp.Base.Text.{Text, starts_with}

abbrev pub newline : ℕ
newline = 0x0a

abbrev pub hash : ℕ
hash = b'#'

abbrev pub backslash : ℕ
backslash = 0x5c

abbrev pub double_quote : ℕ
double_quote = 0x22

abbrev pub single_quote : ℕ
single_quote = 0x27

abbrev triple : Text
triple = double_quote ∷ double_quote ∷ double_quote ∷ []

-- Where the cursor stands. The number in `opening` and `closing` counts the characters of the
-- delimiter that are left; `escaped` is the character behind a backslash.
pub data Mode : Type 0 where
  plain comment : Mode
  opening : ℕ → Text → Mode
  quoted escaped : Text → Mode
  closing : ℕ → Mode

abbrev pub blank : ℕ → ℕ
blank c = if c == newline then c else b' '

-- The delimiter of a literal that begins here; the text begins with a quotation mark.
unfoldable pub delimiter : Text → Text
delimiter [] = []
delimiter (c ∷ cs) =
    if c == double_quote then (if starts_with (c ∷ cs) triple then triple else c ∷ []) else c ∷ []

-- The rest of a delimiter, when its first character has been passed.
abbrev pub opened : Text → Mode
opened [] = plain
opened (q ∷ []) = quoted (q ∷ [])
opened (q ∷ r ∷ []) = opening 1 (q ∷ r ∷ [])
opened (q ∷ r ∷ s ∷ rest) = opening 2 (q ∷ r ∷ s ∷ rest)

abbrev pub closed : Text → Mode
closed [] = plain
closed (q ∷ []) = plain
closed (q ∷ r ∷ []) = closing 1
closed (q ∷ r ∷ s ∷ rest) = closing 2

-- What becomes of the first character, and the mode for the rest.
unfoldable pub step : Mode → ℕ → Text → ℕ × Mode
unfolding delimiter
step plain c cs =
    if c == hash
    then (b' ', comment)
    else if c == double_quote || c == single_quote
    then (blank c, opened (delimiter (c ∷ cs)))
    else (c, plain)
step comment c cs = if c == newline then (c, plain) else (b' ', comment)
step (opening zero d) c cs = (blank c, quoted d)
step (opening (suc zero) d) c cs = (blank c, quoted d)
step (opening (suc (suc n)) d) c cs = (blank c, opening (suc n) d)
step (quoted d) c cs =
    if c == backslash
    then (blank c, escaped d)
    else if starts_with (c ∷ cs) d
    then (blank c, closed d)
    else (blank c, quoted d)
step (escaped d) c cs = (blank c, quoted d)
step (closing zero) c cs = (blank c, plain)
step (closing (suc zero)) c cs = (blank c, plain)
step (closing (suc (suc n))) c cs = (blank c, closing (suc n))

unfoldable pub mask : Mode → Text → Text
unfolding step
mask mode [] = []
mask mode (c ∷ cs) = let (d, next) = step mode c cs in d ∷ mask next cs

unfoldable pub mask_literals_and_comments : Text → Text
unfolding mask
mask_literals_and_comments = mask plain
