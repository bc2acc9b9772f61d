-- ===== src/Frames/Printed.antt =====
-- The header that test/lsp_client.py writes is read as the length that it announces.
use mathlib.Core.List.{reverse, reverse-reverse, reverse-cons}
use elisa_lsp.Base.{
  ℕ, ◌≤◌, true, false, [], ◌∷◌, ◌++◌, length, ltb, ◌≡◌, ◌≢◌, refl, arith, inr, ◌==◌, All, not,
}
use elisa_lsp.Base.Bytes.{Bytes}
use elisa_lsp.Base.Text.{codes, equal}
use elisa_lsp.Base.Patterns.{span}
use elisa_lsp.Base.Decimal.{decimal, is_digit, decimal-is_digit, value_of-decimal, decimal-ne-nil}
use elisa_lsp.Frames.{
  Limits, Python, cr, content_length_colon, content_length, all_bytes, is_allowed, is_blank,
  is_nonempty, strip_blanks, split_lines, partition, read_lines, read_line, length_of,
  is_token_byte,
}

abbrev IsDigits : Bytes → Type 0
IsDigits = All (λ c. is_digit c ≡ true)

split_lines-no_cr : (t : Bytes) → t ≢ [] → All (λ c. (c == cr) ≡ false) t → split_lines t ≡ t ∷ []
unfolding split_lines
split_lines-no_cr [] ne h = elim (ne refl) [ ]
split_lines-no_cr (c ∷ []) ne h = refl
split_lines-no_cr (c ∷ d ∷ t) ne h = rw (split_lines, h.0, split_lines-no_cr (d ∷ t) (λ e. cc) h.1)

digits_no_cr : (t : Bytes) → IsDigits t → All (λ c. (c == cr) ≡ false) t
unfolding is_digit
digits_no_cr [] h = tt
digits_no_cr (c ∷ t) h = (ground arith, digits_no_cr t h.1)

digits_allowed : (t : Bytes) → IsDigits t → all_bytes is_allowed t ≡ true
unfolding is_digit
digits_allowed [] h = refl
digits_allowed (c ∷ t) h = ground (arith, digits_allowed t h.1)

all_digits : (t : Bytes) → IsDigits t → all_bytes is_digit t ≡ true
all_digits [] h = refl
all_digits (c ∷ t) h = rw (h.0, all_digits t h.1)

span_blank-digits : (t : Bytes) → IsDigits t → (span is_blank t).1 ≡ t
unfolding span is_digit
span_blank-digits [] h = refl
span_blank-digits (c ∷ t) h = ground arith

All-append {κ} : (P : ℕ → Type κ) (xs ys : Bytes) → All P xs → All P ys → All P (xs ++ ys)
All-append P [] ys p q = q
All-append P (x ∷ xs) ys p q = (p.0, All-append P xs ys p.1 q)

All-reverse : (xs : Bytes) → IsDigits xs → IsDigits (reverse xs)
All-reverse [] p = tt
All-reverse (x ∷ xs) p =
    rw (reverse-cons x xs)
      (All-append (λ c. is_digit c ≡ true) (reverse xs) (x ∷ []) (All-reverse xs p.1) (p.0, tt))

strip_blanks-digits : (t : Bytes) → IsDigits t → strip_blanks (0x20 ∷ t) ≡ t
unfolding strip_blanks span
strip_blanks-digits t h =
    rw (span_blank-digits t h, span_blank-digits (reverse t) (All-reverse t h), reverse-reverse t)

abbrev pub header_of : ℕ → Bytes
header_of n = content_length_colon ++ decimal n

read_line-digits :
    (t : Bytes)
    → IsDigits t
    → read_line [] (content_length_colon ++ t) ≡ inr ((codes "content-length", t) ∷ [])
unfolding read_line partition is_token_byte
read_line-digits t h = rw (read_line, strip_blanks-digits t h, digits_allowed t h)

is_nonempty-ne : (t : Bytes) → t ≢ [] → is_nonempty t ≡ true
is_nonempty-ne [] h = elim (h refl) [ ]
is_nonempty-ne (c ∷ t) h = refl

All-no_cr : (t : Bytes) → all_bytes (λ c. not (c == cr)) t ≡ true → All (λ c. (c == cr) ≡ false) t
All-no_cr [] h = tt
All-no_cr (c ∷ t) h = (ground arith, All-no_cr t (ground arith))

pub header_no_cr : (n : ℕ) → All (λ c. (c == cr) ≡ false) (header_of n)
header_no_cr n =
    All-append (λ c. (c == cr) ≡ false) content_length_colon (decimal n)
      (All-no_cr content_length_colon refl) (digits_no_cr (decimal n) (decimal-is_digit n))

le-ltb : (a b : ℕ) → a ≤ b → ltb b a ≡ false
le-ltb a b h = ground arith

module _ (py : Python) (limits : Limits) where
  -- A body of so many bytes can be announced.
  pub record IsSendable (n : ℕ) : Type 0 where
    pub header_fits : length (header_of n) ≤ limits.max_header_bytes
    pub body_fits : n ≤ limits.max_body_bytes
    pub digits_fit : py.takes_digits (length (decimal n)) ≡ true

  length_of-decimal : (n : ℕ) → IsSendable n → length_of py limits (decimal n) ≡ inr n
  unfolding length_of
  length_of-decimal n h = rw (
    length_of,
    is_nonempty-ne (decimal n) (decimal-ne-nil n),
    all_digits (decimal n) (decimal-is_digit n),
    h.digits_fit,
    value_of-decimal n,
    le-ltb n limits.max_body_bytes h.body_fits,
  )

  -- The header that announces a body is read as the body's length.
  pub content_length-header_of :
      (n : ℕ) → IsSendable n → content_length py limits (header_of n) ≡ inr n
  unfolding content_length read_lines equal
  content_length-header_of n h =
      rw
        (
          content_length,
          le-ltb (length (header_of n)) limits.max_header_bytes h.header_fits,
          split_lines-no_cr (header_of n) (λ e. cc) (header_no_cr n),
          read_line-digits (decimal n) (decimal-is_digit n),
        )
        (length_of-decimal n h)
