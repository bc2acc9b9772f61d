-- ===== src/Frames/Ids.antt =====
-- The identifiers of JSON-RPC as test/lsp_client.py reads them, and its tables keyed by them.
use elisa_lsp.Base.{
  ◌^◌, Bool, true, false, ◌||◌, Option, none, some, List, [], ◌∷◌, ltb, ◌==◌, if◌then◌else◌,
}
use elisa_lsp.Base.Int.{ℤ, pos, negsuc}
use elisa_lsp.Base.Text.{Text, equal}
use elisa_lsp.Json.{Value, null, bool, int, float, non_finite, str, arr, obj, Fields, end, field}

-- The type of an identifier and its value.
pub data IdKey : Type 0 where
  int_key : ℤ → IdKey
  str_key : Text → IdKey
  null_key : IdKey

unfoldable pub id_equal : IdKey → IdKey → Bool
id_equal (int_key (pos m)) (int_key (pos n)) = m == n
id_equal (int_key (negsuc m)) (int_key (negsuc n)) = m == n
id_equal (str_key t) (str_key u) = equal t u
id_equal null_key null_key = true
id_equal _ _ = false

-- `-(2**31) <= value <= 2**31 - 1`
abbrev pub is_int32 : ℤ → Bool
is_int32 (pos n) = ltb n (2 ^ 31)
is_int32 (negsuc n) = ltb n (2 ^ 31)

-- `_id_key`; nothing is `FrameError`.
unfoldable pub id_key : Value → Bool → Option IdKey
id_key (int i) response = if is_int32 i then some (int_key i) else none
id_key (str t) response = some (str_key t)
id_key null response = if response then some null_key else none
id_key (bool b) response = none
id_key (float m e) response = none
id_key non_finite response = none
id_key (arr xs) response = none
id_key (obj fs) response = none

-- `key in message`
unfoldable pub has : Fields → Text → Bool
has end key = false
has (field k v rest) key = equal k key || has rest key

unfoldable pub has_id : List (IdKey × Fields) → IdKey → Bool
unfolding id_equal
has_id [] key = false
has_id ((k, m) ∷ rest) key = id_equal k key || has_id rest key

-- `table[key] = message`
unfoldable pub set_id : List (IdKey × Fields) → IdKey → Fields → List (IdKey × Fields)
unfolding id_equal
set_id [] key message = (key, message) ∷ []
set_id ((k, m) ∷ rest) key message =
    let later = (k, m) ∷ set_id rest key message in
    if id_equal k key then (k, message) ∷ rest else later
