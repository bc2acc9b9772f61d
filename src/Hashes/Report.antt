-- ===== src/Hashes/Report.antt =====
-- `_compiler_report_paths`, `_conservative_source_paths` and `compiler_include_closure` of
-- scripts/build_hashes.py: where the paths of an include closure come from.
pub mod Sound
use elisa_lsp.Base.{
  ℕ, Bool, true, false, not, ◌&&◌, Option, none, some, List, [], ◌∷◌, ◌++◌, length, map,
  if◌then◌else◌,
}
use elisa_lsp.Base.Int.{ℤ, is_nat}
use elisa_lsp.Base.Text.{Text, codes, contains}
use elisa_lsp.Base.Bytes.{Bytes}
use elisa_lsp.Base.Sort.{sort}
use elisa_lsp.Json.{Value, str, obj, arr, Items, nil, cons, Fields, get}
use elisa_lsp.Hashes.Result.{
  Error, Result, ok, err, ◌>>=◌, ◌>>◌, or_raise, os_error, unicode_error, overflow_error,
  value_error, recursion_error, compiler_unavailable, invalid_dependency,
}
use elisa_lsp.Hashes.Digest.{Record, dependency_closure_sha256}
use elisa_lsp.Hashes.Files.{Files, FilePath, join, joined, parts, suffix, resolve_file}
use elisa_lsp.Hashes.Trees.{path_lt, only_files, elisa_suffixes, lsp_suffixes}
use elisa_lsp.Hashes.Closure.{same_path, closure_records, as_value}
use elisa_lsp.Hashes.Includes.{recursive_include_paths}

-- How the run of the compiler with `-emit deps-json` ends.
pub data CompilerRun : Type 0 where
  not_run : CompilerRun
  exited : ℤ → Bytes → CompilerRun

abbrev report_output : CompilerRun → Result Bytes
report_output not_run = err compiler_unavailable
report_output (exited returncode stdout) =
    if is_nat returncode 0 then ok stdout else err compiler_unavailable

abbrev text_or_invalid : Value → Result Text
text_or_invalid (str t) = ok t
text_or_invalid _ = err invalid_dependency

abbrev object_or_invalid : Value → Result Fields
object_or_invalid (obj fields) = ok fields
object_or_invalid _ = err invalid_dependency

-- A list with an item in it.
abbrev items_or_invalid : Value → Result Items
items_or_invalid (arr nil) = err invalid_dependency
items_or_invalid (arr (cons v rest)) = ok (cons v rest)
items_or_invalid _ = err invalid_dependency

abbrev file_or_invalid : Value → Result Text
file_or_invalid (str []) = err invalid_dependency
file_or_invalid (str (c ∷ cs)) = ok (c ∷ cs)
file_or_invalid _ = err invalid_dependency

abbrev require_same : Bool → Result (Unit {0})
require_same true = ok tt
require_same false = err invalid_dependency

-- `loads` is the decoding of UTF-8 and `json.loads`; `none` is a failure of either.
module _ (fs : Files) (loads : Bytes → Option Value) where
  unfoldable pub report_files : Items → Result (List FilePath)
  report_files nil = ok []
  report_files (cons v rest) = do
    t ← file_or_invalid v
    ps ← report_files rest
    ok (joined fs.cwd t ∷ ps)

  unfoldable pub compiler_report_paths : CompilerRun → FilePath → Result (List FilePath)
  compiler_report_paths run source_path = do
    output ← report_output run
    payload ← or_raise (loads output) compiler_unavailable
    fields ← object_or_invalid payload
    root ← text_or_invalid (get fields (codes "root"))
    expected ← or_raise (fs.resolve source_path) invalid_dependency
    reported ← or_raise (fs.resolve (joined fs.cwd root)) invalid_dependency
    require_same (same_path reported expected)
    items ← items_or_invalid (get fields (codes "files"))
    report_files items

unfoldable pub with_suffix : List Text → List FilePath → List FilePath
with_suffix suffixes [] = []
with_suffix suffixes (p ∷ ps) =
    let rest = with_suffix suffixes ps in if contains suffixes (suffix p) then p ∷ rest else rest

unfoldable pub sources_below : Files → FilePath → List Text → List FilePath
unfolding with_suffix
sources_below fs root suffixes = with_suffix suffixes (only_files fs.is_file (fs.rglob root))

unfoldable pub conservative_source_paths : Files → FilePath → FilePath → List FilePath
conservative_source_paths fs lsp_root compiler_root = sort path_lt (
    sources_below fs (lsp_root ++ (codes "src" ∷ [])) lsp_suffixes
    ++ (sources_below fs (compiler_root ++ (codes "src" ∷ [])) elisa_suffixes
        ++ sources_below fs (compiler_root ++ (codes "elisacore_std" ∷ [])) elisa_suffixes))

pub data Mode : Type 0 where
  compiler_emitted_deps_json recursive_include_parser conservative_source_tree : Mode

-- `DependencyClosureError` and its subclasses; the other errors are not caught by the fallback.
abbrev pub is_dependency_error : Error → Bool
is_dependency_error os_error = false
is_dependency_error unicode_error = false
is_dependency_error overflow_error = false
is_dependency_error value_error = false
is_dependency_error recursion_error = false
is_dependency_error _ = true

abbrev pub Selected : Type 0
Selected = Mode × List FilePath

-- The fallback when the parser raises.
abbrev or_conservative : Result (List FilePath) → List FilePath → Result Selected
or_conservative (ok paths) conservative = ok (recursive_include_parser, paths)
or_conservative (err e) conservative =
    if is_dependency_error e then ok (conservative_source_tree, conservative) else err e

-- The report, if there is one; only an unavailable report lets the parser try.
unfoldable pub select_paths :
    Result (List FilePath) → Result (List FilePath) → List FilePath → Result Selected
select_paths (ok paths) parsed conservative = ok (compiler_emitted_deps_json, paths)
select_paths (err compiler_unavailable) parsed conservative = or_conservative parsed conservative
select_paths (err e) parsed conservative = err e

pub record ClosureInfo : Type 0 where
  pub mode : Mode
  pub root : Text
  pub file_count : ℕ
  pub files : List Record
  pub sha256 : Text

-- The private source view: a copy of the sources beside the alias of the compiler, and what the
-- compiler says of an entry there.
pub record View : Type 0 where
  pub files : Files
  pub source_view : FilePath
  pub run : FilePath → FilePath → CompilerRun

abbrev ok_or {ℓ} : {A : Type ℓ} → Result A → A → A
ok_or (ok a) d = a
ok_or (err e) d = d

-- `stage` makes the view, or fails with an `OSError`; `depth` is the interpreter's recursion limit.
module _ (fs : Files) (loads : Bytes → Option Value) (stage : FilePath → FilePath → Option View)
    (depth : ℕ) where
  -- The paths of the closure in a view.
  unfoldable pub view_paths : View → FilePath → FilePath → FilePath → Result Selected
  view_paths view compiler_path compiler_root source_path =
      select_paths
        (compiler_report_paths view.files loads (view.run compiler_path source_path) source_path)
        (recursive_include_paths view.files depth source_path)
        (conservative_source_paths view.files view.source_view compiler_root)

  unfoldable pub compiler_include_closure :
      FilePath → FilePath → FilePath → Text → Result ClosureInfo
  compiler_include_closure lsp_root compiler_root compiler_bin entry = do
    lsp_resolved ← or_raise (fs.resolve lsp_root) os_error
    compiler_resolved ← or_raise (fs.resolve compiler_root) os_error
    let compiler_path = ok_or (resolve_file fs compiler_bin) compiler_bin
    view ← or_raise (stage lsp_resolved compiler_resolved) os_error
    source_path ← resolve_file view.files (joined view.source_view entry)
    selected ← view_paths view compiler_path compiler_resolved source_path
    records ← closure_records view.files view.source_view compiler_resolved selected.1
    digest ← dependency_closure_sha256 view.files.sha256 (map as_value records)
    ok (record {
      mode = selected.0;
      root = codes "lsp/" ++ join (parts entry);
      file_count = length records;
      files = records;
      sha256 = digest;
    })
