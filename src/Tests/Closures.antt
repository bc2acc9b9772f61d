-- ===== src/Tests/Closures.antt =====
-- The include closure at concrete inputs.
use elisa_lsp.Base.{true, List, [], ◌∷◌, ◌≡◌, ◌≢◌, ◌↔◌, refl, some, map, All, false, arith, Option}
use elisa_lsp.Base.Int.{pos}
use elisa_lsp.Base.Text.{Text, codes, equal, starts_with}
use elisa_lsp.Base.Bytes.{Bytes, encode, to_bytes8, from_hex, to_hex, is_all_hex}
use elisa_lsp.Base.Sort.{sort, text_lt, lex_lt}
use elisa_lsp.Json.{Value, get, str, obj, arr, nil, cons, field, end, is_text}
use elisa_lsp.Hashes.Result.{Result, ok, err, recursion_error}
use elisa_lsp.Hashes.Digest.{
  Record, dependency_closure_sha256, has_duplicate, normalize, records_bytes, closure_payload,
}
use elisa_lsp.Hashes.Digest
use elisa_lsp.Hashes.Files.{
  Files, FilePath, resolve_file, sha256_file, parts, relative_to, join, parent, name,
}
use elisa_lsp.Hashes.Closure.{
  closure_records, as_value, dependency_closure_sha256_for_roots, collect, collect_step, add_found,
  find, logical_path, logical_name, refresh, refresh_record, logical_of, locate,
}
use elisa_lsp.Hashes.Closure.Sources.{IsSource, HasRecord, closure_records_exact}
use elisa_lsp.Hashes.Closure.Verified.{dependency_closure_sha256_for_roots_verified}
use elisa_lsp.Hashes.Directives.{directives, scan, match_directive, after_literal, skip, quoted}
use elisa_lsp.Hashes.Includes.{
  recursive_include_paths, visit, visit_resolved, visit_all, member, parser_include_paths,
  include_paths,
}
use elisa_lsp.Hashes.Includes.Traversal.{Reaches, recursive_include_paths_exact}
use elisa_lsp.Hashes.Includes.Depth.{recursive_include_paths-ne_recursion_error}
use elisa_lsp.Hashes.Report.{
  exited, View, ClosureInfo, compiler_include_closure, view_paths, compiler_report_paths,
  report_files, select_paths, conservative_source_tree,
}
use elisa_lsp.Hashes.Report.Sound.{IsSound, compiler_include_closure-IsSound}
use elisa_lsp.Tests.Fixture.{world, root, compiler, main_file, other_file, first_bytes}

abbrev or_empty {ℓ} : {A : Type ℓ} → Result (List A) → List A
or_empty (ok xs) = xs
or_empty (err e) = []

abbrev or_blank : Result Text → Text
or_blank (ok t) = t
or_blank (err e) = []

abbrev paths : List FilePath
paths = main_file ∷ other_file ∷ main_file ∷ []

records : List Record
records = or_empty (closure_records world root compiler paths)

records_made : closure_records world root compiler paths ≡ ok records
unfolding records closure_records collect collect_step add_found find logical_path logical_name
    resolve_file sha256_file relative_to join equal sort text_lt lex_lt to_hex
records_made = refl

closure_records_exact_example :
    All (IsSource world root compiler paths) records
    × All (HasRecord world root compiler records) paths
    × (has_duplicate records ≡ false)
closure_records_exact_example = closure_records_exact world root compiler paths records_made

digest : Text
digest =
    or_blank (dependency_closure_sha256_for_roots world root compiler (map as_value records) true)

digest_made :
    dependency_closure_sha256_for_roots world root compiler (map as_value records) true ≡ ok digest
unfolding name digest dependency_closure_sha256_for_roots refresh refresh_record logical_of locate
    parts starts_with get equal resolve_file relative_to sha256_file to_hex is_text records
    closure_records collect collect_step add_found find logical_path logical_name join sort text_lt
    lex_lt dependency_closure_sha256 closure_payload Digest.closure_records normalize has_duplicate
    is_all_hex records_bytes encode to_bytes8 from_hex
digest_made = refl

dependency_closure_sha256_for_roots_verified_example :
    dependency_closure_sha256 first_bytes (map as_value records) ≡ ok digest
dependency_closure_sha256_for_roots_verified_example =
    dependency_closure_sha256_for_roots_verified world root compiler (map as_value records)
      digest_made

traversed : recursive_include_paths world 3 main_file ≡ ok (main_file ∷ other_file ∷ [])
unfolding name recursive_include_paths visit visit_resolved visit_all resolve_file equal
    parser_include_paths include_paths directives scan match_directive after_literal skip quoted
    parent parts
traversed = refl

recursive_include_paths_exact_example :
    (file : FilePath) × (resolve_file world main_file ≡ ok file)
    × ((q : FilePath) → (member q (main_file ∷ other_file ∷ []) ≡ true) ↔ Reaches world file q)
recursive_include_paths_exact_example = recursive_include_paths_exact world 3 main_file traversed

-- Every path leads to one file, which includes itself.
abbrev knot : Files
knot = record world { resolve = λ p. some main_file }

knot_finite : (p q : FilePath) → resolve_file knot p ≡ ok q → member q (main_file ∷ []) ≡ true
unfolding resolve_file equal
knot_finite p q h = let same : main_file ≡ q = ground arith in rw (← same)

recursive_include_paths-ne_recursion_error_example :
    recursive_include_paths knot 2 other_file ≢ err recursion_error
recursive_include_paths-ne_recursion_error_example =
    recursive_include_paths-ne_recursion_error knot (main_file ∷ []) knot_finite 2 other_file
      (omega arith)

-- The compiler reports the two files of the view.
abbrev report : Value
report = obj (
    field (codes "root") (str (codes "/r/main.elisa")) (
      field (codes "files")
        (arr (cons (str (codes "/r/main.elisa")) (cons (str (codes "/r/b.elisa")) nil))) end))

abbrev loads : Bytes → Option Value
loads b = some report

abbrev view : View
view = record { files = world; source_view = root; run = λ c s. exited (pos 0) [] }

abbrev stage : FilePath → FilePath → Option View
stage l c = some view

closure_run : Result ClosureInfo
closure_run =
    compiler_include_closure world loads stage 5 root compiler compiler (codes "main.elisa")

abbrev no_info : ClosureInfo
no_info = record {
  mode = conservative_source_tree;
  root = [];
  file_count = 0;
  files = [];
  sha256 = [];
}

abbrev or_no_info : Result ClosureInfo → ClosureInfo
or_no_info (ok i) = i
or_no_info (err e) = no_info

info : ClosureInfo
info = or_no_info closure_run

info_made :
    compiler_include_closure world loads stage 5 root compiler compiler (codes "main.elisa")
    ≡ ok info
unfolding name info closure_run compiler_include_closure view_paths select_paths
    compiler_report_paths report_files parts get equal resolve_file relative_to sha256_file to_hex
    closure_records collect collect_step add_found find logical_path logical_name join sort text_lt
    lex_lt dependency_closure_sha256 closure_payload Digest.closure_records normalize has_duplicate
    is_all_hex records_bytes encode to_bytes8 from_hex
info_made = refl

compiler_include_closure-IsSound_example :
    IsSound world loads stage 5 root compiler compiler (codes "main.elisa") info
compiler_include_closure-IsSound_example =
    compiler_include_closure-IsSound world loads stage 5 root compiler compiler (codes "main.elisa")
      info info_made
