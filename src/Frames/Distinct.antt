-- ===== src/Frames/Distinct.antt =====
-- The tables of test/lsp_client.py that are keyed by identifiers hold each one once.
use elisa_lsp.Base.{false, ◌||◌, List, [], ◌∷◌, ◌++◌, ◌≡◌, refl, arith}
use elisa_lsp.Base.Int.{pos, negsuc}
use elisa_lsp.Base.Text.{Text, equal}
use elisa_lsp.Json.{Fields}
use elisa_lsp.Frames.Ids.{IdKey, int_key, str_key, null_key, id_equal, has_id, set_id}

equal_sym : (t u : Text) → equal t u ≡ equal u t
unfolding equal
equal_sym [] [] = refl
equal_sym [] (y ∷ ys) = refl
equal_sym (x ∷ xs) [] = refl
equal_sym (x ∷ xs) (y ∷ ys) = ground (arith, equal_sym xs ys)

id_equal_sym : (a b : IdKey) → id_equal a b ≡ id_equal b a
unfolding id_equal
id_equal_sym (int_key (pos m)) (int_key (pos n)) = ground arith
id_equal_sym (int_key (pos m)) (int_key (negsuc n)) = refl
id_equal_sym (int_key (pos m)) (str_key u) = refl
id_equal_sym (int_key (pos m)) null_key = refl
id_equal_sym (int_key (negsuc m)) (int_key (pos n)) = refl
id_equal_sym (int_key (negsuc m)) (int_key (negsuc n)) = ground arith
id_equal_sym (int_key (negsuc m)) (str_key u) = refl
id_equal_sym (int_key (negsuc m)) null_key = refl
id_equal_sym (str_key t) (int_key (pos n)) = refl
id_equal_sym (str_key t) (int_key (negsuc n)) = refl
id_equal_sym (str_key t) (str_key u) = equal_sym t u
id_equal_sym (str_key t) null_key = refl
id_equal_sym null_key (int_key (pos n)) = refl
id_equal_sym null_key (int_key (negsuc n)) = refl
id_equal_sym null_key (str_key u) = refl
id_equal_sym null_key null_key = refl

-- No two entries have equal keys.
abbrev pub IsDistinct : List (IdKey × Fields) → Type 0
IsDistinct [] = Unit
IsDistinct ((k, m) ∷ rest) = (has_id rest k ≡ false) × IsDistinct rest

pub set_id-fresh :
    (table : List (IdKey × Fields)) (k : IdKey) (m : Fields)
    → has_id table k ≡ false
    → set_id table k m ≡ table ++ ((k, m) ∷ [])
unfolding has_id set_id
set_id-fresh [] k m h = refl
set_id-fresh ((k', m') ∷ rest) k m h = ground (arith, set_id-fresh rest k m)

has_id-append :
    (table : List (IdKey × Fields)) (k x : IdKey) (m : Fields)
    → has_id (table ++ ((k, m) ∷ [])) x ≡ (has_id table x || id_equal k x)
unfolding has_id
has_id-append [] k x m = ground arith
has_id-append ((k', m') ∷ rest) k x m = ground (arith, has_id-append rest k x m)

pub set_id-IsDistinct :
    (table : List (IdKey × Fields)) (k : IdKey) (m : Fields)
    → has_id table k ≡ false
    → IsDistinct table
    → IsDistinct (table ++ ((k, m) ∷ []))
unfolding has_id
set_id-IsDistinct [] k m h d = (refl, tt)
set_id-IsDistinct ((k', m') ∷ rest) k m h d = (
  ground (arith, has_id-append rest k k' m, id_equal_sym k k', d.0),
  set_id-IsDistinct rest k m (ground arith) d.1,
)
