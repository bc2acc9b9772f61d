-- ===== src/Base/Bytes/Injective.antt =====
-- The encodings determine what was encoded.
use Prim.Native.Nat.{ℕ, zero, suc, ◌+◌, ◌*◌, ◌/◌, ◌%◌, ◌^◌, ◌<◌}
use mathlib.Core.Path.{◌≡◌, refl, ap}
use mathlib.Core.List.{[], ◌∷◌, ◌++◌}
use mathlib.Core.Bool.{true}
use mathlib.Core.Option.{some}
use mathlib.Core.Logic.{inl, inr}
use native.Mathlib.Omega.{arith}
use native.Mathlib.Nat.{pow-suc}
use elisa_lsp.Base.Tests.{Option-cases}
use elisa_lsp.Base.Lists.{length, length-append}
use elisa_lsp.Base.Text.{Text}
use elisa_lsp.Base.Bytes.{
  is_lower_hex, is_all_hex, bind-eq-some, Bytes, encode_char, encode, big_endian, to_bytes8,
  hex_value, from_hex,
}

pub append_injective :
    (xs ys : Bytes) {us vs : Bytes}
    → length xs ≡ length ys
    → xs ++ us ≡ ys ++ vs
    → (xs ≡ ys) × (us ≡ vs)
append_injective [] [] h e = (refl, e)
append_injective [] (y ∷ ys) h e = absurd (omega arith)
append_injective (x ∷ xs) [] h e = absurd (omega arith)
append_injective (x ∷ xs) (y ∷ ys) {us} {vs} h e =
    let tails : xs ++ us ≡ ys ++ vs = cc in
    let head : x ≡ y = cc in
    let (p, q) = append_injective xs ys (omega arith) tails in (cc (p, head), q)

encode_char_prefix :
    (c d : ℕ) (b b' r r' : Bytes)
    → encode_char c ≡ some b
    → encode_char d ≡ some b'
    → b ++ r ≡ b' ++ r'
    → (c ≡ d) × (r ≡ r')
unfolding encode_char
encode_char_prefix c d b b' r r' p q e = ground arith

encode_cons :
    (c : ℕ) (cs : Text) {bs : Bytes}
    → encode (c ∷ cs) ≡ some bs
    → (b : Bytes) × (r : Bytes) × (encode_char c ≡ some b) × (encode cs ≡ some r) × (bs ≡ b ++ r)
unfolding encode
encode_cons c cs e = ground arith

encode_char-length : (c : ℕ) (b : Bytes) → encode_char c ≡ some b → 0 < length b
unfolding encode_char
encode_char-length c b e = ground arith

encode_nil : (c : ℕ) (cs : Text) → encode (c ∷ cs) ≡ some [] → ⊥
encode_nil c cs e =
    let (b, r, p, q, s) = encode_cons c cs e in
    omega (arith, encode_char-length c b p, length-append b r, ap (length {0}) s)

-- UTF-8 text is determined by its bytes.
pub encode_injective : (s t : Text) {bs : Bytes} → encode s ≡ some bs → encode t ≡ some bs → s ≡ t
encode_injective [] [] p q = refl
encode_injective [] (d ∷ ds) p q = absurd (encode_nil d ds (unfold encode in cc))
encode_injective (c ∷ cs) [] p q = absurd (encode_nil c cs (unfold encode in cc))
encode_injective (c ∷ cs) (d ∷ ds) p q =
    let (b, r, pc, ps, pe) = encode_cons c cs p in
    let (b', r', qc, qs, qe) = encode_cons d ds q in
    let (same, rest) = encode_char_prefix c d b b' r r' pc qc (cc (pe, qe)) in
    let ih = encode_injective cs ds {bs = r} ps (cc (qs, rest)) in cc (same, ih)

-- The number that big-endian bytes stand for.
value_of : ℕ → Bytes → ℕ
value_of n [] = n
value_of n (b ∷ bs) = value_of (n * 256 + b) bs

value_of-concat :
    (n : ℕ) (bs : Bytes) (b : ℕ) → value_of n (bs ++ (b ∷ [])) ≡ value_of n bs * 256 + b
unfolding value_of
value_of-concat n [] b = refl
value_of-concat n (x ∷ xs) b = value_of-concat (n * 256 + x) xs b

value_of-big_endian : (k n : ℕ) → n < 256 ^ k → value_of 0 (big_endian k n) ≡ n
unfolding value_of big_endian
value_of-big_endian zero n h = grind arith
value_of-big_endian (suc k) n h =
    rw value_of-concat
      (omega (arith, value_of-big_endian k (n / 256) (omega (arith, pow-suc 256 k))))

length-big_endian : (k n : ℕ) → length (big_endian k n) ≡ k
unfolding big_endian
length-big_endian zero n = refl
length-big_endian (suc k) n =
    omega
      (arith, length-append (big_endian k (n / 256)) (n % 256 ∷ []), length-big_endian k (n / 256))

pub length-to_bytes8 : (n : ℕ) {bs : Bytes} → to_bytes8 n ≡ some bs → length bs ≡ 8
unfolding to_bytes8
length-to_bytes8 n {bs} e = ground (arith, length-big_endian 8 n)

pub to_bytes8_injective :
    (m n : ℕ) {bs : Bytes} → to_bytes8 m ≡ some bs → to_bytes8 n ≡ some bs → m ≡ n
unfolding to_bytes8
to_bytes8_injective m n p q = ground (arith, value_of-big_endian 8 m, value_of-big_endian 8 n)

hex_value_injective :
    (a b : ℕ) → is_lower_hex a ≡ true → is_lower_hex b ≡ true → hex_value a ≡ hex_value b → a ≡ b
unfolding hex_value is_lower_hex
hex_value_injective a b p q e = ground arith

hex_value_bound : (a : ℕ) (h : ℕ) → hex_value a ≡ some h → h < 16
unfolding hex_value
hex_value_bound a h e = ground arith

hex_value_total : (a : ℕ) → is_lower_hex a ≡ true → (h : ℕ) × (hex_value a ≡ some h)
unfolding hex_value is_lower_hex
hex_value_total a p = elim (Option-cases (hex_value a)) [
  | inl e ↦ absurd (ground arith)
  | inr found ↦ found
]

-- Lower-case digits of even number have a value, half as long.
pub from_hex_total :
    (t : Text) (k : ℕ)
    → is_all_hex t ≡ true
    → length t ≡ 2 * k
    → (bs : Bytes) × (from_hex t ≡ some bs) × (length bs ≡ k)
unfolding is_all_hex from_hex
from_hex_total [] k h e = ([], refl, omega arith)
from_hex_total (a ∷ []) k h e = absurd (omega arith)
from_hex_total (a ∷ b ∷ rest) zero h e = absurd (omega arith)
from_hex_total (a ∷ b ∷ rest) (suc k) h e =
    let (x, p) = hex_value_total a (ground arith) in
    let (y, q) = hex_value_total b (ground arith) in
    let (bs, r, l) = from_hex_total rest k (ground arith) (omega arith) in
    ((16 * x + y) ∷ bs, ground arith, omega arith)

from_hex_cons :
    (a b : ℕ) (rest : Text) {bs : Bytes}
    → from_hex (a ∷ b ∷ rest) ≡ some bs
    → (x : ℕ) × (y : ℕ) × (r : Bytes) × (hex_value a ≡ some x)
      × (hex_value b ≡ some y)
      × (from_hex rest ≡ some r)
      × (bs ≡ (16 * x + y) ∷ r)
unfolding from_hex
from_hex_cons a b rest e =
    let (x, p, e₁) = bind-eq-some (hex_value a) _ e in
    let (y, q, e₂) = bind-eq-some (hex_value b) _ e₁ in
    let (r, s, e₃) = bind-eq-some (from_hex rest) _ e₂ in (x, y, r, p, q, s, cc)

from_hex_step :
    (a b c d : ℕ) (s t : Text) {bs : Bytes}
    → is_lower_hex a ≡ true
    → is_lower_hex b ≡ true
    → is_lower_hex c ≡ true
    → is_lower_hex d ≡ true
    → from_hex (a ∷ b ∷ s) ≡ some bs
    → from_hex (c ∷ d ∷ t) ≡ some bs
    → (a ≡ c) × (b ≡ d) × (r : Bytes) × (from_hex s ≡ some r) × (from_hex t ≡ some r)
from_hex_step a b c d s t ha hb hc hd p q =
    let (x, y, r, px, py, pr, pe) = from_hex_cons a b s p in
    let (x', y', r', qx, qy, qr, qe) = from_hex_cons c d t q in
    let heads : (16 * x + y ≡ 16 * x' + y') × (r ≡ r') = (cc (pe, qe), cc (pe, qe)) in
    let high : x ≡ x' = omega (arith, hex_value_bound b y py, hex_value_bound d y' qy) in
    let low : y ≡ y' = omega (arith, hex_value_bound b y py, hex_value_bound d y' qy) in
    (
      hex_value_injective a c ha hc (cc (px, qx, high)),
      hex_value_injective b d hb hd (cc (py, qy, low)),
      r,
      pr,
      cc (qr, heads.1),
    )

pub from_hex_injective :
    (s t : Text) {bs : Bytes}
    → is_all_hex s ≡ true
    → is_all_hex t ≡ true
    → from_hex s ≡ some bs
    → from_hex t ≡ some bs
    → s ≡ t
unfolding is_all_hex
from_hex_injective [] [] hs ht p q = refl
from_hex_injective [] (c ∷ []) hs ht p q = unfold from_hex in cc
from_hex_injective [] (c ∷ d ∷ t) hs ht p q =
    let (x, y, r, _, _, _, e) = from_hex_cons c d t q in unfold from_hex in cc
from_hex_injective (a ∷ []) t hs ht p q = unfold from_hex in cc
from_hex_injective (a ∷ b ∷ s) [] hs ht p q =
    let (x, y, r, _, _, _, e) = from_hex_cons a b s p in unfold from_hex in cc
from_hex_injective (a ∷ b ∷ s) (c ∷ []) hs ht p q = unfold from_hex in cc
from_hex_injective (a ∷ b ∷ s) (c ∷ d ∷ t) hs ht p q =
    let (ac, bd, r, pr, qr) =
      from_hex_step a b c d s t (ground arith) (ground arith) (ground arith) (ground arith) p q in
    let ih = from_hex_injective s t {bs = r} (ground arith) (ground arith) pr qr in cc (ac, bd, ih)
