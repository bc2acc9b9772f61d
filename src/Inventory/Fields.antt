-- ===== src/Inventory/Fields.antt =====
-- `_split_constructor_fields` of scripts/diagnostic_span_inventory.py.
pub mod Pieces
use elisa_lsp.Base.{
  ℕ, Bool, true, false, not, ◌&&◌, ◌||◌, Option, none, some, List, [], ◌∷◌, ◌++◌, ◌==◌,
  if◌then◌else◌,
}
use elisa_lsp.Base.Text.{Text}

abbrev pub is_opening : ℕ → Bool
is_opening c = c == b'(' || c == b'[' || c == b'{'

abbrev pub is_closing : ℕ → Bool
is_closing c = c == b')' || c == b']' || c == b'}'

-- `matching[char]`
abbrev pub matching : ℕ → ℕ
matching c = if c == b')' then b'(' else if c == b']' then b'[' else b'{'

-- `stack[-1] == opening`
abbrev pub tops : List ℕ → ℕ → Bool
tops [] c = false
tops (s ∷ stack) c = s == c

abbrev pub popped : List ℕ → List ℕ
popped [] = []
popped (s ∷ stack) = stack

abbrev pub is_empty : List ℕ → Bool
is_empty [] = true
is_empty (s ∷ stack) = false

-- What one character does: it ends the constructor, ends a field, is an error, or is part of the
-- field and leaves a stack.
pub data Effect : Type 0 where
  ends_constructor ends_field mismatch : Effect
  stays : List ℕ → Effect

unfoldable pub effect : List ℕ → ℕ → Effect
effect stack c =
    if is_opening c
    then stays (c ∷ stack)
    else if is_closing c
    then (if c == b'}' && is_empty stack
        then ends_constructor
        else if tops stack (matching c)
        then stays (popped stack)
        else mismatch)
    else if c == b',' && is_empty stack
    then ends_field
    else stays stack

-- The text begins behind the opening brace; `field` is the current field so far.
unfoldable pub split : List ℕ → Text → Text → Option (List Text)
unfolding effect
split stack field [] = none
split stack field (c ∷ cs) = elim (effect stack c) [
  | ends_constructor ↦ some (field ∷ [])
  | mismatch ↦ none
  | stays next ↦ split next (field ++ (c ∷ [])) cs
  | ends_field ↦ elim (split [] [] cs) [ none ↦ none | some later ↦ some (field ∷ later) ]
]

unfoldable pub split_constructor_fields : Text → Option (List Text)
unfolding split
split_constructor_fields = split [] []
