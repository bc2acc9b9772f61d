-- ===== src/Hashes/Closure.antt =====
-- `_logical_path`, `_closure_records` and `dependency_closure_sha256_for_roots` of
-- scripts/build_hashes.py: the records of an include closure, and their verification.
pub mod Lists
pub mod Sources
pub mod Verified
use elisa_lsp.Base.{
  ℕ, Bool, true, false, not, ◌&&◌, Option, none, some, List, [], ◌∷◌, ◌++◌, length, drop, map,
  if◌then◌else◌,
}
use elisa_lsp.Base.Text.{Text, codes, equal, starts_with}
use elisa_lsp.Base.Sort.{sort, text_lt}
use elisa_lsp.Json.{Value, str, obj, Fields, field, end, get, is_text}
use elisa_lsp.Hashes.Result.{
  Result, ok, err, ◌>>=◌, ◌>>◌, or_raise, os_error, invalid_dependency, no_files, no_logical_path,
  unknown_logical_path, escapes_root, content_changed,
}
use elisa_lsp.Hashes.Digest.{Record, dependency_closure_sha256}
use elisa_lsp.Hashes.Files.{Files, FilePath, join, joined, relative_to, resolve_file, sha256_file}

abbrev pub lsp_prefix : Text
lsp_prefix = codes "lsp/"

abbrev pub compiler_prefix : Text
compiler_prefix = codes "compiler/"

-- Below a root: the prefix and the relative path, which must have a part.
unfoldable pub named : Text → List Text → Result Text
named prefix [] = err invalid_dependency
named prefix (p ∷ rest) = ok (prefix ++ join (p ∷ rest))

-- The two roots in turn; a path below neither is refused.
unfoldable pub logical_name : FilePath → FilePath → FilePath → Result Text
unfolding named
logical_name lsp_root compiler_root path = elim (relative_to path lsp_root) [
  | some relative ↦ named lsp_prefix relative
  | none ↦ elim (relative_to path compiler_root) [
    | some relative ↦ named compiler_prefix relative
    | none ↦ err invalid_dependency
  ]
]

-- One entry of `resolved_paths` with its record: the logical path, the file, the content hash.
pub record Found : Type 0 where
  pub logical : Text
  pub resolved : FilePath
  pub content : Text

abbrev pub same_path : FilePath → FilePath → Bool
same_path [] [] = true
same_path (p ∷ ps) (q ∷ qs) = equal p q && same_path ps qs
same_path _ _ = false

-- `resolved_paths.get(logical)`
unfoldable pub find : Text → List Found → Option FilePath
find logical [] = none
find logical (f ∷ fs) = if equal logical f.logical then some f.resolved else find logical fs

abbrev pub found_lt : Found → Found → Bool
found_lt f g = text_lt f.logical g.logical

abbrev pub as_record : Found → Record
as_record f = (f.logical, f.content)

module _ (fs : Files) (lsp_root compiler_root : FilePath) where
  unfoldable pub logical_path : FilePath → Result Text
  logical_path path = do
    resolved ← resolve_file fs path
    lsp_resolved ← or_raise (fs.resolve lsp_root) os_error
    compiler_resolved ← or_raise (fs.resolve compiler_root) os_error
    logical_name lsp_resolved compiler_resolved resolved

  -- A path that is there already must be the same file; a new one is hashed and added.
  unfoldable pub add_found : List Found → FilePath → Text → Option FilePath → Result (List Found)
  add_found found resolved logical (some old) =
      if same_path old resolved then ok found else err invalid_dependency
  add_found found resolved logical none = do
    content ← sha256_file fs resolved
    ok (found ++ (record { logical = logical; resolved = resolved; content = content } ∷ []))

  unfoldable pub collect_step : List Found → FilePath → Result (List Found)
  collect_step found path = do
    resolved ← resolve_file fs path
    logical ← logical_path resolved
    add_found found resolved logical (find logical found)

  unfoldable pub collect : List Found → List FilePath → Result (List Found)
  collect found [] = ok found
  collect found (path ∷ rest) = do found' ← collect_step found path; collect found' rest

  abbrev pub check_found : List Found → Result (List Record)
  check_found [] = err no_files
  check_found (f ∷ rest) = ok (map as_record (sort found_lt (f ∷ rest)))

  unfoldable pub closure_records : List FilePath → Result (List Record)
  closure_records paths = do found ← collect [] paths; check_found found

-- A record as the JSON object that the manifest holds.
abbrev pub as_value : Record → Value
as_value r = obj (field (codes "path") (str r.0) (field (codes "sha256") (str r.1) end))

-- `record["path"]`, which has to be text, beside the recorded hash
abbrev logical_in : Value → Value → Result (Text × Value)
logical_in (str logical) recorded = ok (logical, recorded)
logical_in _ recorded = err no_logical_path

unfoldable pub logical_of : Value → Result (Text × Value)
logical_of (obj fields) = logical_in (get fields (codes "path")) (get fields (codes "sha256"))
logical_of _ = err no_logical_path

-- Where a logical path stands below the roots: the root, and the path to open.
unfoldable pub locate : FilePath → FilePath → Text → Result (FilePath × FilePath)
locate lsp_root compiler_root logical =
    if starts_with logical lsp_prefix
    then ok (lsp_root, joined lsp_root (drop (length lsp_prefix) logical))
    else if starts_with logical compiler_prefix
    then ok (compiler_root, joined compiler_root (drop (length compiler_prefix) logical))
    else err unknown_logical_path

abbrev require_below : FilePath → FilePath → Result (Unit {0})
require_below resolved root = elim (relative_to resolved root) [
  | none ↦ err escapes_root
  | some relative ↦ ok tt
]

abbrev require_hash : Bool → Text → Value → Result (Unit {0})
require_hash verify content recorded =
    if verify && not (is_text recorded content) then err content_changed else ok tt

module _ (fs : Files) (lsp_root compiler_root : FilePath) (verify : Bool) where
  unfoldable pub refresh_record : Value → Result Record
  refresh_record v = do
    (logical, recorded) ← logical_of v
    (root, path) ← locate lsp_root compiler_root logical
    resolved ← resolve_file fs path
    require_below resolved root
    content ← sha256_file fs resolved
    require_hash verify content recorded
    ok (logical, content)

  unfoldable pub refresh : List Value → Result (List Record)
  refresh [] = ok []
  refresh (v ∷ vs) = do r ← refresh_record v; rs ← refresh vs; ok (r ∷ rs)

-- The roots are resolved first.
unfoldable pub dependency_closure_sha256_for_roots :
    Files → FilePath → FilePath → List Value → Bool → Result Text
dependency_closure_sha256_for_roots fs lsp_root compiler_root records verify = do
  lsp_resolved ← or_raise (fs.resolve lsp_root) os_error
  compiler_resolved ← or_raise (fs.resolve compiler_root) os_error
  refreshed ← refresh fs lsp_resolved compiler_resolved verify records
  dependency_closure_sha256 fs.sha256 (map as_value refreshed)
