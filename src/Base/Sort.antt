-- ===== src/Base/Sort.antt =====
-- `sorted` and `list.sort` over a total order, and the orders of Python's `str`, lists and tuples.
pub mod Laws
use mathlib.Core.Bool.{Bool, true, false}
use mathlib.Core.List.{List, [], ◌∷◌}
use elisa_lsp.Base.Tests.{ltb, if◌then◌else◌}
use elisa_lsp.Base.Text.{Text}

module _ {ℓ} {A : Type ℓ} (lt : A → A → Bool) where
  -- The order is total, so the sorted list is the one that insertion gives.
  unfoldable pub insert : A → List A → List A
  insert r [] = r ∷ []
  insert r (s ∷ rest) = let later = s ∷ insert r rest in if lt s r then later else r ∷ s ∷ rest

  unfoldable pub sort : List A → List A
  unfolding insert
  sort [] = []
  sort (r ∷ rs) = insert r (sort rs)

  -- By the first place that differs.
  unfoldable pub lex_lt : List A → List A → Bool
  lex_lt [] [] = false
  lex_lt [] (y ∷ ys) = true
  lex_lt (x ∷ xs) [] = false
  lex_lt (x ∷ xs) (y ∷ ys) =
      let rest = lex_lt xs ys in if lt x y then true else if lt y x then false else rest

abbrev pub pair_lt {ℓ κ} :
    {A : Type ℓ} {B : Type κ} → (A → A → Bool) → (B → B → Bool) → A × B → A × B → Bool
pair_lt lt lt' (x, y) (x', y') = if lt x x' then true else if lt x' x then false else lt' y y'

unfoldable pub text_lt : Text → Text → Bool
unfolding lex_lt
text_lt = lex_lt ltb
