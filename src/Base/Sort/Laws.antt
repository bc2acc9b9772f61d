-- ===== src/Base/Sort/Laws.antt =====
-- The orders are total, and sorting forgets the order in which the items are given.
use mathlib.Core.Path.{◌≡◌, refl, ◌∙◌}
use mathlib.Core.List.{List, [], ◌∷◌, Permᴰ}
use mathlib.Core.Bool.{Bool, true, false}
use native.Mathlib.Omega.{arith}
use elisa_lsp.Base.Tests.{ltb}
use elisa_lsp.Base.Sort.{insert, sort, lex_lt, pair_lt, text_lt}

-- What `sorted` asks of `<`, as the lemmas on insertion use it.
pub record IsOrder {ℓ} {A : Type ℓ} (lt : A → A → Bool) : Type ℓ where
  pub asymm : (a b : A) → lt a b ≡ true → lt b a ≡ false
  pub of_le : (r x s : A) → lt x r ≡ false → lt x s ≡ true → lt r s ≡ true
  pub antisymm : (r s : A) → lt r s ≡ false → lt s r ≡ false → r ≡ s

pub ltb-IsOrder : IsOrder ltb
ltb-IsOrder = record {
  asymm = λ a b h. ground arith;
  of_le = λ r x s h k. ground arith;
  antisymm = λ r s h k. ground arith;
}

module _ {ℓ} {A : Type ℓ} {lt : A → A → Bool} (o : IsOrder lt) where
  lex_lt_asymm : (a b : List A) → lex_lt lt a b ≡ true → lex_lt lt b a ≡ false
  unfolding lex_lt
  lex_lt_asymm [] [] h = refl
  lex_lt_asymm [] (y ∷ ys) h = refl
  lex_lt_asymm (x ∷ xs) [] h = cc
  lex_lt_asymm (x ∷ xs) (y ∷ ys) h = ground (arith, lex_lt_asymm xs ys, o.asymm x y)

  lex_lt_of_le :
      (r x s : List A) → lex_lt lt x r ≡ false → lex_lt lt x s ≡ true → lex_lt lt r s ≡ true
  unfolding lex_lt
  lex_lt_of_le r [] [] h k = cc
  lex_lt_of_le r (x ∷ xs) [] h k = cc
  lex_lt_of_le [] x (z ∷ zs) h k = refl
  lex_lt_of_le (r ∷ rs) [] (z ∷ zs) h k = cc
  lex_lt_of_le (r ∷ rs) (x ∷ xs) (z ∷ zs) h k = ground (
    arith,
    lex_lt_of_le rs xs zs,
    o.of_le r x z,
    o.asymm x z,
    o.asymm r x,
    o.asymm r z,
    o.antisymm r x,
    o.antisymm x z,
    o.antisymm r z,
  )

  lex_lt_antisymm : (r s : List A) → lex_lt lt r s ≡ false → lex_lt lt s r ≡ false → r ≡ s
  unfolding lex_lt
  lex_lt_antisymm [] [] h k = refl
  lex_lt_antisymm [] (y ∷ ys) h k = cc
  lex_lt_antisymm (x ∷ xs) [] h k = cc
  lex_lt_antisymm (x ∷ xs) (y ∷ ys) h k = ground (arith, lex_lt_antisymm xs ys, o.antisymm x y)

  pub lex_lt-IsOrder : IsOrder (lex_lt lt)
  lex_lt-IsOrder = record { asymm = lex_lt_asymm; of_le = lex_lt_of_le; antisymm = lex_lt_antisymm }

  -- Where `r` and `s` are inserted does not depend on which comes first.
  insert_comm : (r s : A) (l : List A) → insert lt r (insert lt s l) ≡ insert lt s (insert lt r l)
  unfolding insert
  insert_comm r s [] = ground (arith, o.asymm r s, o.antisymm r s)
  insert_comm r s (x ∷ l) =
      ground (arith, insert_comm r s l, o.asymm r s, o.antisymm r s, o.of_le r x s, o.of_le s x r)

  pub sort-Permᴰ : {rs ss : List A} → Permᴰ rs ss → sort lt rs ≡ sort lt ss
  unfolding sort
  sort-Permᴰ Permᴰ.nil = refl
  sort-Permᴰ (Permᴰ.cons {a = r} {b = s} e p) = cc (sort-Permᴰ p, e)
  sort-Permᴰ (Permᴰ.swap {a = r} {b = s} {l = l} e e') = cc (insert_comm r s (sort lt l), e, e')
  sort-Permᴰ (Permᴰ.trans p q) = sort-Permᴰ p ∙ sort-Permᴰ q

module _ {ℓ κ} {A : Type ℓ} {B : Type κ} {lt : A → A → Bool} {lt' : B → B → Bool} where
  pub pair_lt-IsOrder : IsOrder lt → IsOrder lt' → IsOrder (pair_lt lt lt')
  pair_lt-IsOrder o o' = record {
    asymm = λ a b h. ground (arith, o.asymm a.0 b.0, o'.asymm a.1 b.1);
    of_le = λ r x s h k. ground (
      arith,
      o.of_le r.0 x.0 s.0,
      o.asymm x.0 s.0,
      o.asymm r.0 x.0,
      o.asymm r.0 s.0,
      o.antisymm r.0 x.0,
      o.antisymm x.0 s.0,
      o.antisymm r.0 s.0,
      o'.of_le r.1 x.1 s.1,
    );
    antisymm = λ r s h k.
        let first : r.0 ≡ s.0 = ground (arith, o.antisymm r.0 s.0) in
        let second : r.1 ≡ s.1 = ground (arith, o'.antisymm r.1 s.1) in λ i. (first i, second i);
  }

pub text_lt-IsOrder : IsOrder text_lt
unfolding text_lt
text_lt-IsOrder = lex_lt-IsOrder ltb-IsOrder
