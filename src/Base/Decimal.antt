-- ===== src/Base/Decimal.antt =====
-- `str(n)` and `int(text)` for natural numbers in ASCII digits.
use Prim.Native.Nat.{◌≤◌, ◌^◌, ℕ, zero, suc, ◌+◌, ◌-◌, ◌*◌, ◌/◌, ◌%◌, ◌<◌}
use mathlib.Core.Path.{◌≡◌, refl}
use mathlib.Core.Logic.{◌≢◌}
use mathlib.Core.Bool.{Bool, true, ◌&&◌}
use mathlib.Core.List.{[], ◌∷◌, ◌++◌}
use native.Mathlib.Omega.{arith}
use elisa_lsp.Base.Tests.{ltb, leb, if◌then◌else◌, Bool-cases}
use elisa_lsp.Base.Lists.{length-append, length, All}
use elisa_lsp.Base.Text.{Text}
use mathlib.Core.Logic.{inl, inr}

-- The number of rounds bounds the number of digits.
digits : ℕ → ℕ → Text
digits zero n = []
digits (suc rounds) n =
    let more = digits rounds (n / 10) ++ ((48 + n % 10) ∷ []) in
    if ltb n 10 then (48 + n) ∷ [] else more

unfoldable pub decimal : ℕ → Text
unfolding digits
decimal n = digits (suc n) n

unfoldable pub is_digit : ℕ → Bool
is_digit c = leb b'0' c && leb c b'9'

value_onto : ℕ → Text → ℕ
value_onto n [] = n
value_onto n (c ∷ cs) = value_onto (n * 10 + (c - 48)) cs

-- Every character is a digit.
unfoldable pub value_of : Text → ℕ
unfolding value_onto
value_of = value_onto 0

All-concat {κ} : (P : ℕ → Type κ) (t : Text) (c : ℕ) → All P t → P c → All P (t ++ (c ∷ []))
All-concat P [] c h p = (p, tt)
All-concat P (x ∷ xs) c h p = (h.0, All-concat P xs c h.1 p)

digits-is_digit : (rounds n : ℕ) → n < rounds → All (λ c. is_digit c ≡ true) (digits rounds n)
unfolding digits is_digit
digits-is_digit zero n h = elim h [ ]
digits-is_digit (suc rounds) n h = elim (Bool-cases (ltb n 10)) [
  | inl e ↦ rw e (ground arith, tt)
  | inr e ↦ rw e (
      All-concat (λ c. is_digit c ≡ true) (digits rounds (n / 10)) (48 + n % 10)
        (digits-is_digit rounds (n / 10) (ground arith)) (ground arith))
]

pub decimal-is_digit : (n : ℕ) → All (λ c. is_digit c ≡ true) (decimal n)
unfolding decimal
decimal-is_digit n = digits-is_digit (suc n) n (omega arith)

value_onto-append :
    (n : ℕ) (xs ys : Text) → value_onto n (xs ++ ys) ≡ value_onto (value_onto n xs) ys
unfolding value_onto
value_onto-append n [] ys = refl
value_onto-append n (x ∷ xs) ys = value_onto-append (n * 10 + (x - 48)) xs ys

value_onto-digits : (rounds n : ℕ) → n < rounds → value_onto 0 (digits rounds n) ≡ n
unfolding value_onto digits
value_onto-digits zero n h = elim h [ ]
value_onto-digits (suc rounds) n h = elim (Bool-cases (ltb n 10)) [
  | inl e ↦ rw e (omega arith)
  | inr e ↦
      rw (e, value_onto-append 0 (digits rounds (n / 10)) ((48 + n % 10) ∷ []))
        (rw (value_onto-digits rounds (n / 10) (ground arith)) (omega arith))
]

-- The decimal digits of a number are read back as the number.
pub value_of-decimal : (n : ℕ) → value_of (decimal n) ≡ n
unfolding value_of decimal
value_of-decimal n = value_onto-digits (suc n) n (omega arith)

concat-ne-nil : (t : Text) (c : ℕ) → t ++ (c ∷ []) ≢ []
concat-ne-nil [] c h = cc
concat-ne-nil (x ∷ xs) c h = cc

pub decimal-ne-nil : (n : ℕ) → decimal n ≢ []
unfolding decimal digits
decimal-ne-nil n = elim (Bool-cases (ltb n 10)) [
  | inl e ↦ λ h. cc (rw (decimal, digits, e) at h)
  | inr e ↦ λ h. concat-ne-nil (digits n (n / 10)) (48 + n % 10) (rw (decimal, digits, e) at h)
]

-- A number below a power of ten has no more digits than the exponent.
length-digits : (rounds n k : ℕ) → n < 10 ^ suc k → length (digits rounds n) ≤ suc k
unfolding digits
length-digits zero n k h = omega arith
length-digits (suc rounds) n zero h = elim (Bool-cases (ltb n 10)) [
  | inl e ↦ rw e (omega arith)
  | inr e ↦ ground arith
]
length-digits (suc rounds) n (suc k) h = elim (Bool-cases (ltb n 10)) [
  | inl e ↦ rw e (omega arith)
  | inr e ↦
      let more = digits rounds (n / 10) in
      let few = length-digits rounds (n / 10) k (omega arith) in
      rw e (omega (arith, length-append more ((48 + n % 10) ∷ [])))
]

pub length-decimal : (n k : ℕ) → n < 10 ^ suc k → length (decimal n) ≤ suc k
unfolding decimal
length-decimal n k h = length-digits (suc n) n k h
