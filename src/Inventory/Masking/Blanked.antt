-- ===== src/Inventory/Masking/Blanked.antt =====
-- Masking keeps the shape of a source: every character stays or becomes a space, line breaks stay.
use elisa_lsp.Base.{
  ℕ, zero, suc, Bool, false, ◌||◌, [], ◌∷◌, ◌++◌, ◌==◌, ◌≡◌, ◌⊎◌, inl, inr, refl, arith, Bool-cases,
  All,
}
use elisa_lsp.Base.Text.{Text, starts_with}
use elisa_lsp.Inventory.Masking.{
  Mode, plain, comment, opening, quoted, escaped, closing, blank, newline, hash, double_quote,
  single_quote, step, mask, mask_literals_and_comments,
}

-- A character is kept, or is no line break and becomes a space.
abbrev pub IsMaskOf : ℕ → ℕ → Type 0
IsMaskOf c d = (d ≡ c) ⊎ ((d ≡ b' ') × ((c == newline) ≡ false))

-- Character by character, and so of one length.
abbrev pub AreMasksOf : Text → Text → Type 0
AreMasksOf [] [] = Unit
AreMasksOf [] (d ∷ ds) = ⊥
AreMasksOf (c ∷ cs) [] = ⊥
AreMasksOf (c ∷ cs) (d ∷ ds) = IsMaskOf c d × AreMasksOf cs ds

blank-IsMaskOf : (c : ℕ) → IsMaskOf c (blank c)
blank-IsMaskOf c = elim (Bool-cases (c == newline)) [ inl e ↦ inl (rw e) | inr e ↦ inr (rw e, e) ]

step-IsMaskOf : (mode : Mode) (c : ℕ) (cs : Text) → IsMaskOf c (step mode c cs).0
unfolding step
step-IsMaskOf plain c cs = elim (Bool-cases (c == hash)) [
  | inl e ↦ inr (rw e, ground arith)
  | inr e ↦ elim (Bool-cases (c == double_quote || c == single_quote)) [
    | inl f ↦ rw (e, f) (blank-IsMaskOf c)
    | inr f ↦ inl (rw (e, f))
  ]
]
step-IsMaskOf comment c cs = elim (Bool-cases (c == newline)) [
  | inl e ↦ inl (rw e)
  | inr e ↦ inr (rw e, e)
]
step-IsMaskOf (opening zero d) c cs = blank-IsMaskOf c
step-IsMaskOf (opening (suc zero) d) c cs = blank-IsMaskOf c
step-IsMaskOf (opening (suc (suc n)) d) c cs = blank-IsMaskOf c
step-IsMaskOf (quoted d) c cs = elim (Bool-cases (c == 0x5c)) [
  | inl e ↦ rw e (blank-IsMaskOf c)
  | inr e ↦ elim (Bool-cases (starts_with (c ∷ cs) d)) [
    | inl f ↦ rw (e, f) (blank-IsMaskOf c)
    | inr f ↦ rw (e, f) (blank-IsMaskOf c)
  ]
]
step-IsMaskOf (escaped d) c cs = blank-IsMaskOf c
step-IsMaskOf (closing zero) c cs = blank-IsMaskOf c
step-IsMaskOf (closing (suc zero)) c cs = blank-IsMaskOf c
step-IsMaskOf (closing (suc (suc n))) c cs = blank-IsMaskOf c

mask-AreMasksOf : (mode : Mode) (t : Text) → AreMasksOf t (mask mode t)
unfolding mask
mask-AreMasksOf mode [] = tt
mask-AreMasksOf mode (c ∷ cs) = (step-IsMaskOf mode c cs, mask-AreMasksOf (step mode c cs).1 cs)

abbrev pub is_mark : ℕ → Bool
is_mark c = c == hash || c == double_quote || c == single_quote

-- No character that begins a comment or a literal.
abbrev pub IsClean : Text → Type 0
IsClean t = All (λ c. is_mark c ≡ false) t

blank-clean : (c : ℕ) → is_mark (blank c) ≡ false
blank-clean c = elim (Bool-cases (c == newline)) [ inl e ↦ ground arith | inr e ↦ rw e ]

step-clean : (mode : Mode) (c : ℕ) (cs : Text) → is_mark (step mode c cs).0 ≡ false
unfolding step
step-clean plain c cs = elim (Bool-cases (c == hash)) [
  | inl e ↦ rw e
  | inr e ↦ elim (Bool-cases (c == double_quote || c == single_quote)) [
    | inl f ↦ rw (e, f) (blank-clean c)
    | inr f ↦ rw (e, f) (ground arith)
  ]
]
step-clean comment c cs = elim (Bool-cases (c == newline)) [ inl e ↦ ground arith | inr e ↦ rw e ]
step-clean (opening zero d) c cs = blank-clean c
step-clean (opening (suc zero) d) c cs = blank-clean c
step-clean (opening (suc (suc n)) d) c cs = blank-clean c
step-clean (quoted d) c cs = elim (Bool-cases (c == 0x5c)) [
  | inl e ↦ rw e (blank-clean c)
  | inr e ↦ elim (Bool-cases (starts_with (c ∷ cs) d)) [
    | inl f ↦ rw (e, f) (blank-clean c)
    | inr f ↦ rw (e, f) (blank-clean c)
  ]
]
step-clean (escaped d) c cs = blank-clean c
step-clean (closing zero) c cs = blank-clean c
step-clean (closing (suc zero)) c cs = blank-clean c
step-clean (closing (suc (suc n))) c cs = blank-clean c

mask-IsClean : (mode : Mode) (t : Text) → IsClean (mask mode t)
unfolding mask
mask-IsClean mode [] = tt
mask-IsClean mode (c ∷ cs) = (step-clean mode c cs, mask-IsClean (step mode c cs).1 cs)

step-plain : (c : ℕ) (cs : Text) → is_mark c ≡ false → step plain c cs ≡ (c, plain)
unfolding step
step-plain c cs h =
    let e : (c == hash) ≡ false = ground arith in
    let f : (c == double_quote || c == single_quote) ≡ false = ground arith in rw (e, f)

-- Text without marks stands as it is, whatever follows.
pub mask-clean : (pre t : Text) → IsClean pre → mask plain (pre ++ t) ≡ pre ++ mask plain t
unfolding mask
mask-clean [] t h = refl
mask-clean (c ∷ cs) t h = rw (mask, step-plain c (cs ++ t) h.0, mask-clean cs t h.1)

mask-clean_all : (t : Text) → IsClean t → mask plain t ≡ t
unfolding mask
mask-clean_all [] h = refl
mask-clean_all (c ∷ cs) h = rw (mask, step-plain c cs h.0, mask-clean_all cs h.1)

-- The masked source has the length and the line breaks of the source; each other character is kept
-- or becomes a space; no comment sign and no quotation mark is left; masking again changes nothing.
pub mask_literals_and_comments-keeps :
    (source : Text)
    → AreMasksOf source (mask_literals_and_comments source)
      × IsClean (mask_literals_and_comments source)
      × (mask_literals_and_comments (mask_literals_and_comments source)
          ≡ mask_literals_and_comments source)
unfolding mask_literals_and_comments
mask_literals_and_comments-keeps source =
    let masked = mask plain source in
    (
      mask-AreMasksOf plain source,
      mask-IsClean plain source,
      mask-clean_all masked (mask-IsClean plain source),
    )
