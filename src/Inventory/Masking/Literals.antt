-- ===== src/Inventory/Masking/Literals.antt =====
-- What stands in a comment or in a literal leaves no trace in the masked source.
use elisa_lsp.Base.{ℕ, false, [], ◌∷◌, ◌++◌, map, ◌==◌, ◌≡◌, refl, ◌∙◌, All, ap}
use elisa_lsp.Base.Text.{Text, starts_with}
use elisa_lsp.Inventory.Masking.{
  plain, comment, quoted, blank, newline, hash, single_quote, backslash, step, mask,
  mask_literals_and_comments,
}
use elisa_lsp.Inventory.Masking.Blanked.{IsClean, mask-clean}

-- What a literal in single quotation marks holds: a backslash makes the next character part of it.
pub data IsBody : Text → Type 0 where
  nil : IsBody []
  cons :
      {c : ℕ} {cs : Text}
      → (c == backslash) ≡ false
      → (c == single_quote) ≡ false
      → IsBody cs
      → IsBody (c ∷ cs)
  escape : {c : ℕ} {cs : Text} → IsBody cs → IsBody (backslash ∷ c ∷ cs)

abbrev pub IsLine : Text → Type 0
IsLine t = All (λ c. (c == newline) ≡ false) t

mask-body :
    {body : Text} (rest : Text)
    → IsBody body
    → mask (quoted (single_quote ∷ [])) (body ++ (single_quote ∷ rest))
      ≡ map blank body ++ (b' ' ∷ mask plain rest)
unfolding mask step starts_with
mask-body rest nil = refl
mask-body rest (cons {c} p q t) =
    rw (mask, step, starts_with, p, q) (ap (λ r. blank c ∷ r) (mask-body rest t))
mask-body rest (escape {c} t) = ap (λ r. b' ' ∷ blank c ∷ r) (mask-body rest t)

mask-line :
    (body rest : Text)
    → IsLine body
    → mask comment (body ++ (newline ∷ rest)) ≡ map (λ c. b' ') body ++ (newline ∷ mask plain rest)
unfolding mask step
mask-line [] rest h = refl
mask-line (c ∷ cs) rest h = rw (mask, step, h.0, mask-line cs rest h.1)

-- Behind text without marks, a literal in single quotation marks is masked as one space for each
-- character but line breaks, escaped marks included, and what follows it is masked as if it stood
-- alone.
pub mask_literals_and_comments-literal :
    (before body rest : Text)
    → IsClean before
    → IsBody body
    → mask_literals_and_comments (before ++ (single_quote ∷ (body ++ (single_quote ∷ rest))))
      ≡ before ++ (b' ' ∷ (map blank body ++ (b' ' ∷ mask_literals_and_comments rest)))
unfolding mask_literals_and_comments
mask_literals_and_comments-literal before body rest clean h =
    mask-clean before _ clean ∙ ap (λ t. before ++ (b' ' ∷ t)) (mask-body rest h)

-- Behind text without marks, a comment is masked as one space for each character, its line break
-- stays, and the next line is masked as if it stood alone.
pub mask_literals_and_comments-comment :
    (before body rest : Text)
    → IsClean before
    → IsLine body
    → mask_literals_and_comments (before ++ (hash ∷ (body ++ (newline ∷ rest))))
      ≡ before ++ (b' ' ∷ (map (λ c. b' ') body ++ (newline ∷ mask_literals_and_comments rest)))
unfolding mask_literals_and_comments mask step
mask_literals_and_comments-comment before body rest clean h =
    mask-clean before _ clean ∙ ap (λ t. before ++ (b' ' ∷ t)) (mask-line body rest h)
