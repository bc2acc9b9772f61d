-- ===== src/Tests/Builds.antt =====
-- The freshness checks at concrete inputs.
use elisa_lsp.Base.{true, some, [], ◌∷◌, ◌++◌, ◌≡◌, ◌≢◌, refl}
use elisa_lsp.Base.Int.{pos}
use elisa_lsp.Base.Text.{Text, codes, equal, starts_with, contains}
use elisa_lsp.Base.Bytes.{encode, to_bytes8, from_hex, to_hex, is_all_hex}
use elisa_lsp.Base.Sort.{sort, text_lt, lex_lt}
use elisa_lsp.Json.{
  int, str, obj, arr, Items, nil, cons, Fields, field, end, get, get_or, is_text, is_number,
  to_list,
}
use elisa_lsp.Hashes.Result.{Result, ok, err, os_error}
use elisa_lsp.Hashes.Digest.{
  Record, dependency_closure_sha256, closure_payload, normalize, has_duplicate, records_bytes,
}
use elisa_lsp.Hashes.Digest
use elisa_lsp.Hashes.Files.{
  name, parent, parts, join, suffix, relative_to, resolve_file, sha256_file,
}
use elisa_lsp.Hashes.Trees.{
  lsp_inputs_sha256, compiler_sources_sha256, build_pipeline_sha256, tree_digest, tree_bytes,
  entry_bytes, only_files, pipeline_bytes,
}
use elisa_lsp.Hashes.Closure.{
  as_value, dependency_closure_sha256_for_roots, refresh, refresh_record, logical_of, locate,
}
use elisa_lsp.Freshness.{
  Inputs, main, check_manifest, check_artifact, check_live_inputs, verify_live_include_closure,
  check_live_closure, check_compiler_tree, check_compiler_binary,
}
use elisa_lsp.Freshness.Verdict.{accept, reject, staged_closure_differs}
use elisa_lsp.Freshness.Snapshot.{
  Disk, regular, directory, snapshot_prefix, verify_source_snapshot, check_layout, check_tree,
  check_inputs, check_closure, check_entries,
}
use elisa_lsp.Freshness.Fresh.{IsFresh, main_accepts, check_closure-ne_staged_closure_differs}
use elisa_lsp.Tests.Fixture.{world, root, first_bytes}

abbrev or_blank : Result Text → Text
or_blank (ok t) = t
or_blank (err e) = []

-- All trees of the small world have the same digests, wherever they stand.
inputs_hash : Text
inputs_hash = or_blank (lsp_inputs_sha256 world root)

compiler_hash : Text
compiler_hash = or_blank (compiler_sources_sha256 world root)

pipeline_hash : Text
pipeline_hash = or_blank (build_pipeline_sha256 world root)

file_hash : Text → Text
file_hash n = or_blank (sha256_file world (n ∷ []))

closure_files : Items
closure_files =
    cons (as_value (codes "lsp/b.elisa", file_hash (codes "b.elisa")))
      (cons (as_value (codes "lsp/main.elisa", file_hash (codes "main.elisa"))) nil)

closure_hash : Text
closure_hash = or_blank (dependency_closure_sha256 first_bytes (to_list closure_files))

abbrev snapshot_dir : Text
snapshot_dir = snapshot_prefix ++ (inputs_hash ++ (codes "." ++ compiler_hash))

abbrev snapshot_root : Text
snapshot_root = codes "/r/build/" ++ (snapshot_dir ++ codes "/source")

manifest : Fields
manifest = field (codes "schema_version") (int (pos 3)) (
    field (codes "artifact") (str (codes "elisa-lsp")) (
      field (codes "artifact_sha256") (str (file_hash (codes "elisa-lsp"))) (
        field (codes "lsp_inputs_sha256") (str inputs_hash) (
          field (codes "compiler_sources_sha256") (str compiler_hash) (
            field (codes "build_pipeline_sha256") (str pipeline_hash) (
              field (codes "source_snapshot_root") (str snapshot_root) (
                field (codes "staged_compiler_root")
                  (str (snapshot_root ++ codes "/Elisa-compiler"))
                  (field (codes "include_closure")
                    (obj (
                      field (codes "schema_version") (int (pos 1)) (
                        field (codes "files") (arr closure_files)
                          (field (codes "sha256") (str closure_hash) end))))
                    end))))))))

abbrev disk : Disk
disk = record {
  files = world;
  is_dir = λ p. true;
  walk = λ p.
      some (record { kind = directory; mode = 0o555 })
      ∷ some (record { kind = regular; mode = 0o444 })
      ∷ [];
  render = λ v. codes "None";
}

abbrev inputs : Inputs
inputs = record {
  root = root;
  resolved_root = root;
  binary = root ++ (codes "build" ∷ codes "elisa-lsp" ∷ []);
  manifest = some (obj manifest);
  closure_of = λ r c b e. err os_error;
}

accepted : main disk inputs ≡ accept tt
unfolding main check_manifest check_artifact check_live_inputs verify_source_snapshot check_layout
    check_tree check_inputs check_closure check_entries verify_live_include_closure
    check_live_closure check_compiler_tree check_compiler_binary manifest inputs_hash compiler_hash
    pipeline_hash file_hash closure_files closure_hash get get_or is_text is_number equal
    lsp_inputs_sha256 compiler_sources_sha256 build_pipeline_sha256 tree_digest tree_bytes
    entry_bytes only_files pipeline_bytes sort lex_lt text_lt suffix name parent parts join
    relative_to resolve_file sha256_file contains encode to_bytes8 from_hex to_hex is_all_hex
    dependency_closure_sha256 closure_payload Digest.closure_records normalize has_duplicate
    records_bytes to_list dependency_closure_sha256_for_roots refresh refresh_record logical_of
    locate starts_with
accepted = refl

main_accepts_example : IsFresh disk inputs
main_accepts_example = main_accepts disk inputs accepted

check_closure-ne_staged_closure_differs_example :
    check_closure disk manifest root root ≢ reject staged_closure_differs
check_closure-ne_staged_closure_differs_example =
    check_closure-ne_staged_closure_differs disk manifest root root
