-- ===== src/Freshness/Snapshot.antt =====
-- `verify_source_snapshot` of scripts/check_build_freshness.py: the immutable copy of the sources that
-- a build was made from.
use Prim.Native.Nat.{bit_and}
use elisa_lsp.Base.{ℕ, Bool, true, false, not, ◌&&◌, Option, none, some, List, [], ◌∷◌, ◌++◌, ◌==◌}
use elisa_lsp.Base.Text.{Text, codes, equal}
use elisa_lsp.Json.{
  Value, str, Fields, get, get_or, is_text, is_number, as_text, as_object, as_list, to_list,
}
use elisa_lsp.Hashes.Files.{Files, FilePath, name, parent, parts, is_absolute, relative_to}
use elisa_lsp.Hashes.Trees.{lsp_inputs_sha256, compiler_sources_sha256}
use elisa_lsp.Hashes.Digest.{dependency_closure_sha256}
use elisa_lsp.Hashes.Closure.{same_path, dependency_closure_sha256_for_roots}
use elisa_lsp.Freshness.Verdict.{
  Check, accept, reject, ◌>>=◌, ◌>>◌, require, require_some, catching, is_os_error, is_caught,
  no_snapshot, relative_snapshot, snapshot_unresolved, snapshot_symlink, snapshot_outside,
  snapshot_layout, snapshot_name, staged_compiler_path, snapshot_missing, entry_unreadable,
  entry_symlink, file_writable, directory_writable, snapshot_unreadable, staged_lsp_differs,
  staged_compiler_differs, no_closure, malformed_closure, closure_unreadable, inconsistent_closure,
  staged_closure_differs,
}

pub data Kind : Type 0 where
  regular directory symlink other : Kind

-- The type and the permission bits of an entry.
pub record Metadata : Type 0 where
  pub kind : Kind
  pub mode : ℕ

-- What the checks ask of the disk. `walk` is `os.walk` without following links, the directory itself
-- first, with the `lstat` of each entry, `none` where that fails; `render` is `str` of a JSON value.
pub record Disk : Type 0 where
  pub files : Files
  pub is_dir : FilePath → Bool
  pub walk : FilePath → List (Option Metadata)
  pub render : Value → Text

abbrev pub is_link : Kind → Bool
is_link symlink = true
is_link _ = false

abbrev pub is_regular : Kind → Bool
is_regular regular = true
is_regular _ = false

abbrev pub is_directory : Kind → Bool
is_directory directory = true
is_directory _ = false

-- `st_mode & 0o222`
abbrev pub is_writable : Metadata → Bool
is_writable m = not (bit_and m.mode 0o222 == 0)

unfoldable pub check_entry : Metadata → Check (Unit {0})
check_entry m = do
  require (not (is_link m.kind)) entry_symlink
  require (not (is_regular m.kind && is_writable m)) file_writable
  require (not (is_directory m.kind && is_writable m)) directory_writable

unfoldable pub check_entries : List (Option Metadata) → Check (Unit {0})
unfolding check_entry
check_entries [] = accept tt
check_entries (none ∷ rest) = reject entry_unreadable
check_entries (some m ∷ rest) = do check_entry m; check_entries rest

abbrev pub snapshot_prefix : Text
snapshot_prefix = codes ".elisa-lsp-source-v1."

abbrev text_of : (Value → Text) → Value → Text
text_of render (str t) = t
text_of render v = render v

abbrev below : FilePath → Text → FilePath
below path part = path ++ (part ∷ [])

abbrev pub is_below : FilePath → FilePath → Bool
is_below path root = elim (relative_to path root) [ none ↦ false | some rest ↦ true ]

-- The resolved snapshot and staged compiler.
abbrev pub Roots : Type 0
Roots = FilePath × FilePath

abbrev pub lsp_below : FilePath → FilePath
lsp_below snapshot = below snapshot (codes "Elisa-LSP")

module _ (disk : Disk) where
  -- The name of the directory above the snapshot: it holds the two recorded fingerprints.
  abbrev pub expected_name : Fields → Text
  expected_name manifest =
      snapshot_prefix
      ++ (text_of disk.render (get_or manifest (codes "lsp_inputs_sha256") (str []))
          ++ (codes "."
              ++ text_of disk.render (get_or manifest (codes "compiler_sources_sha256") (str []))))

  unfoldable pub check_layout : Fields → FilePath → Check Roots
  check_layout manifest repository_root = do
    snapshot_value ←
        require_some (as_text (get manifest (codes "source_snapshot_root"))) no_snapshot
    compiler_value ←
        require_some (as_text (get manifest (codes "staged_compiler_root"))) no_snapshot
    require (is_absolute snapshot_value && is_absolute compiler_value) relative_snapshot
    snapshot ← require_some (disk.files.resolve (parts snapshot_value)) snapshot_unresolved
    compiler ← require_some (disk.files.resolve (parts compiler_value)) snapshot_unresolved
    build ←
        require_some (disk.files.resolve (below repository_root (codes "build")))
          snapshot_unresolved
    require (same_path (parts snapshot_value) snapshot && same_path (parts compiler_value) compiler)
        snapshot_symlink
    require (is_below snapshot build) snapshot_outside
    require (same_path (parent (parent snapshot)) build && equal (name snapshot) (codes "source"))
        snapshot_layout
    require (equal (name (parent snapshot)) (expected_name manifest)) snapshot_name
    require (same_path compiler (below snapshot (codes "Elisa-compiler"))) staged_compiler_path
    accept (snapshot, compiler)

  unfoldable pub check_tree : FilePath → FilePath → Check (Unit {0})
  check_tree snapshot compiler = do
    require (disk.is_dir snapshot && (disk.is_dir (lsp_below snapshot) && disk.is_dir compiler))
        snapshot_missing
    check_entries (disk.walk snapshot)

  unfoldable pub check_inputs : Fields → FilePath → FilePath → Check (Unit {0})
  check_inputs manifest snapshot compiler = do
    lsp_hash ←
        catching is_os_error snapshot_unreadable (lsp_inputs_sha256 disk.files (lsp_below snapshot))
    compiler_hash ←
        catching is_os_error snapshot_unreadable (compiler_sources_sha256 disk.files compiler)
    require (is_text (get manifest (codes "lsp_inputs_sha256")) lsp_hash) staged_lsp_differs
    require (is_text (get manifest (codes "compiler_sources_sha256")) compiler_hash)
        staged_compiler_differs

  unfoldable pub check_closure : Fields → FilePath → FilePath → Check (Unit {0})
  check_closure manifest snapshot compiler = do
    closure ← require_some (as_object (get manifest (codes "include_closure"))) no_closure
    require (is_number (get closure (codes "schema_version")) 1) malformed_closure
    records ← require_some (as_list (get closure (codes "files"))) malformed_closure
    snapshot_hash ← catching is_caught closure_unreadable (
        dependency_closure_sha256_for_roots disk.files (lsp_below snapshot) compiler
          (to_list records) true)
    recorded_hash ←
        catching is_caught closure_unreadable
          (dependency_closure_sha256 disk.files.sha256 (to_list records))
    require (is_text (get closure (codes "sha256")) recorded_hash) inconsistent_closure
    require (equal snapshot_hash recorded_hash) staged_closure_differs

  unfoldable pub verify_source_snapshot : Fields → FilePath → Check (Unit {0})
  verify_source_snapshot manifest repository_root = do
    roots ← check_layout manifest repository_root
    check_tree roots.0 roots.1
    check_inputs manifest roots.0 roots.1
    check_closure manifest roots.0 roots.1
