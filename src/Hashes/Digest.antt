-- ===== src/Hashes/Digest.antt =====
-- `dependency_closure_sha256` of scripts/build_hashes.py: the digest of a closure's records.
pub mod Records
pub mod Payload
use elisa_lsp.Base.{
  ℕ, ◌%◌, Bool, true, false, not, ◌&&◌, ◌||◌, Option, none, some, List, [], ◌∷◌, ◌++◌, map, length,
  ltb, ◌==◌, if◌then◌else◌,
}
use elisa_lsp.Base.Text.{Text, codes, equal}
use elisa_lsp.Base.Bytes.{Bytes, encode, to_bytes8, from_hex, to_hex, is_all_hex}
use elisa_lsp.Base.Sort.{sort, pair_lt, text_lt}
use elisa_lsp.Json.{Value, str, obj, get}
use elisa_lsp.Hashes.Result.{
  Result, ok, err, ◌>>=◌, or_raise, not_an_object, invalid_record, no_files, duplicate_paths,
  unicode_error, overflow_error, value_error,
}

abbrev pub Record : Type 0
Record = Text × Text

abbrev pub closure_digest_tag : Bytes
closure_digest_tag = codes "elisa-lsp-compiler-include-closure-v1" ++ (0 ∷ [])

abbrev is_empty : Text → Bool
is_empty [] = true
is_empty (x ∷ xs) = false

-- The tests on the two fields; a field that is no text is refused.
unfoldable pub check_fields : Value → Value → Result Record
check_fields (str logical) (str content_hash) =
    if is_empty logical || not (length content_hash == 64) || not (is_all_hex content_hash)
    then err invalid_record
    else ok (logical, content_hash)
check_fields _ _ = err invalid_record

unfoldable pub normalize_record : Value → Result Record
unfolding check_fields
normalize_record (obj fields) =
    check_fields (get fields (codes "path")) (get fields (codes "sha256"))
normalize_record _ = err not_an_object

unfoldable pub normalize : List Value → Result (List Record)
unfolding normalize_record
normalize [] = ok []
normalize (v ∷ vs) = do r ← normalize_record v; rs ← normalize vs; ok (r ∷ rs)

-- The order in which `normalized.sort()` compares the pairs.
abbrev pub record_lt : Record → Record → Bool
record_lt = pair_lt text_lt text_lt

unfoldable pub has_path : Text → List Record → Bool
has_path l [] = false
has_path l ((m, g) ∷ rs) = equal l m || has_path l rs

-- `len({path for ...}) != len(normalized)`
unfoldable pub has_duplicate : List Record → Bool
unfolding has_path
has_duplicate [] = false
has_duplicate ((l, h) ∷ rs) = has_path l rs || has_duplicate rs

unfoldable pub record_bytes : Record → Result Bytes
record_bytes (logical, content_hash) = do
  encoded ← or_raise (encode logical) unicode_error
  size ← or_raise (to_bytes8 (length encoded)) overflow_error
  content ← or_raise (from_hex content_hash) value_error
  ok (size ++ (encoded ++ content))

unfoldable pub records_bytes : List Record → Result Bytes
unfolding record_bytes
records_bytes [] = ok []
records_bytes (r ∷ rs) = do b ← record_bytes r; bs ← records_bytes rs; ok (b ++ bs)

abbrev check_files : List Record → Result (List Record)
check_files [] = err no_files
check_files (r ∷ rs) = if has_duplicate (r ∷ rs) then err duplicate_paths else ok (r ∷ rs)

-- The records in the order in which they are hashed.
unfoldable pub closure_records : List Value → Result (List Record)
closure_records records = do rs ← normalize records; check_files (sort record_lt rs)

-- All that `digest.update` is given.
unfoldable pub closure_payload : List Value → Result Bytes
closure_payload records = do
  rs ← closure_records records
  bs ← records_bytes rs
  ok (closure_digest_tag ++ bs)

-- `sha256` stands for `hashlib.sha256(...).digest()`.
unfoldable pub dependency_closure_sha256 : (Bytes → Bytes) → List Value → Result Text
dependency_closure_sha256 sha256 records = do
  payload ← closure_payload records
  ok (to_hex (sha256 payload))
