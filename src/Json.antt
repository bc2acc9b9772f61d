-- ===== src/Json.antt =====
-- What `json.loads` returns, as far as the scripts look at it.
use elisa_lsp.Base.{
  ℕ, suc, ◌*◌, ◌^◌, Bool, true, false, Option, none, some, List, [], ◌∷◌, ◌==◌, if◌then◌else◌,
}
use elisa_lsp.Base.Int.{ℤ, pos, negsuc, is_nat}
use elisa_lsp.Base.Text.{Text, equal}

-- A finite float is `m * 2 ^ e`; the parser also takes `NaN` and the infinities.
mutual
  pub data Value : Type 0 where
    null : Value
    bool : Bool → Value
    int : ℤ → Value
    float : ℤ → ℤ → Value
    non_finite : Value
    str : Text → Value
    arr : Items → Value
    obj : Fields → Value

  pub data Items : Type 0 where
    nil : Items
    cons : Value → Items → Items

  pub data Fields : Type 0 where
    end : Fields
    field : Text → Value → Fields → Fields

-- `d.get(key)`: a missing key and `null` both give `None`.
unfoldable pub get : Fields → Text → Value
get end key = null
get (field k v rest) key = if equal k key then v else get rest key

-- `value == text` for a `str`
unfoldable pub is_text : Value → Text → Bool
is_text (str t) u = equal t u
is_text _ u = false

-- `value == n` for an integer literal: `True == 1` and `3.0 == 3` hold in Python.
unfoldable pub is_number : Value → ℕ → Bool
is_number (bool true) n = 1 == n
is_number (bool false) n = 0 == n
is_number (int i) n = is_nat i n
is_number (float (pos m) (pos e)) n = m * 2 ^ e == n
is_number (float (pos m) (negsuc e)) n = m == n * 2 ^ suc e
is_number _ n = false

abbrev pub as_text : Value → Option Text
as_text (str t) = some t
as_text _ = none

abbrev pub as_object : Value → Option Fields
as_object (obj fs) = some fs
as_object _ = none

abbrev pub as_list : Value → Option Items
as_list (arr xs) = some xs
as_list _ = none

unfoldable pub to_list : Items → List Value
to_list nil = []
to_list (cons v rest) = v ∷ to_list rest

-- `d.get(key, default)`
unfoldable pub get_or : Fields → Text → Value → Value
get_or end key default = default
get_or (field k v rest) key default = if equal k key then v else get_or rest key default
