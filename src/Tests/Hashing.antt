-- ===== src/Tests/Hashing.antt =====
-- The digests of records and trees at concrete inputs.
use mathlib.Core.List.Perm
use elisa_lsp.Base.{List, [], ◌∷◌, ◌++◌, ◌≡◌, refl}
use elisa_lsp.Base.Text.{codes, equal}
use elisa_lsp.Base.Bytes.{Bytes, encode, to_bytes8, from_hex, to_hex, is_all_hex}
use elisa_lsp.Base.Sort.{sort, text_lt, lex_lt}
use elisa_lsp.Json.{Value, get}
use elisa_lsp.Hashes.Result.{Result, ok, err}
use elisa_lsp.Hashes.Digest.{
  closure_records, closure_payload, dependency_closure_sha256, normalize, has_duplicate,
  records_bytes,
}
use elisa_lsp.Hashes.Digest.Payload.{closure_payload_injective}
use elisa_lsp.Hashes.Digest.Records.{dependency_closure_sha256-perm}
use elisa_lsp.Hashes.Trees.{tree_digest}
use elisa_lsp.Hashes.Trees.Enumeration.{relisted, tree_digest-perm}
use elisa_lsp.Hashes.Files.{FilePath}
use elisa_lsp.Tests.Fixture.{
  first_bytes, world, root, main_file, other_file, first_record, second_record,
}

abbrev two_records : List Value
two_records = first_record ∷ second_record ∷ []

abbrev swapped_records : List Value
swapped_records = second_record ∷ first_record ∷ []

abbrev or_nothing : Result Bytes → Bytes
or_nothing (ok b) = b
or_nothing (err e) = []

payload : Bytes
payload = or_nothing (closure_payload two_records)

payload_two : closure_payload two_records ≡ ok payload
unfolding payload closure_payload closure_records normalize get equal is_all_hex has_duplicate sort
    text_lt lex_lt records_bytes encode to_bytes8 from_hex
payload_two = refl

payload_swapped : closure_payload swapped_records ≡ ok payload
unfolding payload closure_payload closure_records normalize get equal is_all_hex has_duplicate sort
    text_lt lex_lt records_bytes encode to_bytes8 from_hex
payload_swapped = refl

closure_payload_injective_example : closure_records two_records ≡ closure_records swapped_records
closure_payload_injective_example =
    closure_payload_injective two_records swapped_records payload_two payload_swapped

digest_two : dependency_closure_sha256 first_bytes two_records ≡ ok (to_hex (first_bytes payload))
unfolding dependency_closure_sha256 payload closure_payload closure_records normalize get equal
    is_all_hex has_duplicate sort text_lt lex_lt records_bytes encode to_bytes8 from_hex
digest_two = refl

dependency_closure_sha256-perm_example :
    dependency_closure_sha256 first_bytes swapped_records ≡ ok (to_hex (first_bytes payload))
dependency_closure_sha256-perm_example =
    dependency_closure_sha256-perm first_bytes two_records swapped_records
      (Perm.swap second_record first_record []) digest_two

abbrev other_order : FilePath → List FilePath
other_order r =
    (r ++ (codes "notes.txt" ∷ []))
    ∷ (r ++ (codes "main.elisa" ∷ []))
    ∷ (r ++ (codes "b.elisa" ∷ []))
    ∷ []

tree_digest-perm_example :
    tree_digest world root (codes ".elisa" ∷ [])
    ≡ tree_digest (relisted world other_order) root (codes ".elisa" ∷ [])
tree_digest-perm_example =
    tree_digest-perm world other_order root (codes ".elisa" ∷ [])
      (Perm.swap (root ++ (codes "notes.txt" ∷ [])) main_file (other_file ∷ []))
