-- ===== src/Base/Bytes.antt =====
-- Byte strings: `str.encode("utf-8")`, `int.to_bytes(8, "big")`, `bytes.fromhex` and `bytes.hex`.
pub mod Injective
use elisa_lsp.Base.Tests.{leb, ltb, ◌==◌, if◌then◌else◌}
use Prim.Native.Nat.{ℕ, zero, suc, ◌+◌, ◌-◌, ◌*◌, ◌/◌, ◌%◌, ◌^◌}
use mathlib.Core.Bool.{Bool, true, false, ◌&&◌, ◌||◌}
use mathlib.Core.Path.{◌≡◌, refl}
use mathlib.Core.Option.{Option, none, some}
use mathlib.Core.List.{List, [], ◌∷◌, ◌++◌}
use elisa_lsp.Base.Text.{Text}

abbrev pub Bytes : Type 0
Bytes = List ℕ

-- A failed conversion ends the rest.
abbrev pub ◌>>=◌ {ℓ κ} : {X : Type ℓ} {Y : Type κ} → Option X → (X → Option Y) → Option Y
some x >>= rest = rest x
none >>= rest = none

infixl 5 ◌>>=◌
pub bind-eq-some {ℓ κ} :
    {X : Type ℓ} {Y : Type κ} (first : Option X) (rest : X → Option Y) {y : Y}
    → (first >>= rest) ≡ some y
    → (x : X) × (first ≡ some x) × (rest x ≡ some y)
bind-eq-some (some x) rest e = (x, refl, e)
bind-eq-some none rest e = cc

-- One character; a surrogate has no encoding.
unfoldable pub encode_char : ℕ → Option Bytes
encode_char c =
    if ltb c 0x80
    then some (c ∷ [])
    else if ltb c 0x800
    then some ((0xc0 + c / 64) ∷ (0x80 + c % 64) ∷ [])
    else if leb 0xd800 c && leb c 0xdfff
    then none
    else if ltb c 0x10000
    then some ((0xe0 + c / 4096) ∷ (0x80 + c / 64 % 64) ∷ (0x80 + c % 64) ∷ [])
    else if ltb c 0x110000
    then some
        ((0xf0 + c / 262144) ∷ (0x80 + c / 4096 % 64) ∷ (0x80 + c / 64 % 64) ∷ (0x80 + c % 64) ∷ [])
    else none

-- `none` is `UnicodeEncodeError`.
unfoldable pub encode : Text → Option Bytes
unfolding encode_char
encode [] = some []
encode (c ∷ cs) = do b ← encode_char c; bs ← encode cs; some (b ++ bs)

-- The last `k` base-256 digits, the highest first.
unfoldable pub big_endian : ℕ → ℕ → Bytes
big_endian zero n = []
big_endian (suc k) n = big_endian k (n / 256) ++ (n % 256 ∷ [])

-- `n.to_bytes(8, "big")`; `none` is `OverflowError`.
unfoldable pub to_bytes8 : ℕ → Option Bytes
unfolding big_endian
to_bytes8 n = if ltb n (256 ^ 8) then some (big_endian 8 n) else none

unfoldable pub hex_value : ℕ → Option ℕ
hex_value c =
    if leb b'0' c && leb c b'9'
    then some (c - 48)
    else if leb b'a' c && leb c b'f'
    then some (c - 87)
    else if leb b'A' c && leb c b'F'
    then some (c - 55)
    else none

-- On text with no space in it; `none` is `ValueError`.
unfoldable pub from_hex : Text → Option Bytes
unfolding hex_value
from_hex [] = some []
from_hex (a ∷ []) = none
from_hex (a ∷ b ∷ rest) = do
  h ← hex_value a
  l ← hex_value b
  bs ← from_hex rest
  some ((16 * h + l) ∷ bs)

abbrev pub hex_digit : ℕ → ℕ
hex_digit n = if ltb n 10 then 48 + n else 87 + n

unfoldable pub to_hex : Bytes → Text
to_hex [] = []
to_hex (b ∷ bs) = hex_digit (b / 16) ∷ hex_digit (b % 16) ∷ to_hex bs

-- `character in "0123456789abcdef"`
unfoldable pub is_lower_hex : ℕ → Bool
is_lower_hex c = leb b'0' c && leb c b'9' || leb b'a' c && leb c b'f'

unfoldable pub is_all_hex : Text → Bool
unfolding is_lower_hex
is_all_hex [] = true
is_all_hex (c ∷ cs) = is_lower_hex c && is_all_hex cs
