-- ===== src/Freshness/Accepts.antt =====
-- What holds of a build that the checks accept.
use elisa_lsp.Base.{true, false, ◌&&◌, Option, none, some, List, [], ◌∷◌, ◌≡◌, arith, All}
use elisa_lsp.Base.Text.{Text, codes, equal, equal_iff}
use elisa_lsp.Json.{
  Value, str, obj, arr, Items, Fields, get, is_text, is_number, as_object, as_list, to_list,
}
use elisa_lsp.Hashes.Result.{Result, ok}
use elisa_lsp.Hashes.Files.{FilePath}
use elisa_lsp.Hashes.Trees.{lsp_inputs_sha256, compiler_sources_sha256}
use elisa_lsp.Hashes.Digest.{dependency_closure_sha256}
use elisa_lsp.Hashes.Closure.{dependency_closure_sha256_for_roots}
use elisa_lsp.Hashes.Closure.Verified.{is_text_sound}
use elisa_lsp.Freshness.{fingerprint}
use elisa_lsp.Freshness.Verdict.{
  accept, require, require_some, catching, is_caught, is_os_error, bind-eq-accept,
  require-eq-accept, require_some-eq-accept, catching-eq-accept, no_closure, malformed_closure,
  closure_unreadable, inconsistent_closure, snapshot_unreadable, staged_lsp_differs,
  snapshot_missing,
}
use elisa_lsp.Freshness.Layout.{IsLaidOut, check_layout-IsLaidOut}
use elisa_lsp.Freshness.Snapshot.{
  Disk, Metadata, is_link, is_regular, is_directory, is_writable, check_entry, check_entries,
  check_layout, check_tree, check_inputs, check_closure, verify_source_snapshot, lsp_below,
}

-- An entry was inspected, is no link, and is no file or directory that can be written.
abbrev pub IsFrozen : Option Metadata → Type 0
IsFrozen none = ⊥
IsFrozen (some m) =
    (is_link m.kind ≡ false)
    × ((is_regular m.kind && is_writable m) ≡ false)
    × ((is_directory m.kind && is_writable m) ≡ false)

check_entry-IsFrozen : (m : Metadata) → check_entry m ≡ accept tt → IsFrozen (some m)
unfolding check_entry
check_entry-IsFrozen m h = (ground arith, ground arith, ground arith)

check_entries-IsFrozen :
    (entries : List (Option Metadata)) → check_entries entries ≡ accept tt → All IsFrozen entries
unfolding check_entries
check_entries-IsFrozen [] h = tt
check_entries-IsFrozen (none ∷ rest) h = cc
check_entries-IsFrozen (some m ∷ rest) h =
    let (u, first, later) = bind-eq-accept (check_entry m) _ h in
    (check_entry-IsFrozen m (first), check_entries-IsFrozen rest later)

pub as_object_sound : (v : Value) (fs : Fields) → as_object v ≡ some fs → v ≡ obj fs
as_object_sound (obj x) fs h = ground arith
as_object_sound v fs h = cc

as_list_sound : (v : Value) (xs : Items) → as_list v ≡ some xs → v ≡ arr xs
as_list_sound (arr x) xs h = ground arith
as_list_sound v xs h = cc

pub fingerprint_sound : (v : Value) (t : Text) → fingerprint v ≡ some t → v ≡ str t
fingerprint_sound (str u) t h = ground arith
fingerprint_sound v t h = cc

module _ (disk : Disk) (manifest : Fields) where
  -- The recorded closure of a snapshot: its digest is recorded, and the staged files have it too.
  pub record ClosureHolds (snapshot compiler : FilePath) : Type 0 where
    pub closure : Fields
    pub records : Items
    pub digest : Text
    pub is_object : get manifest (codes "include_closure") ≡ obj closure
    pub lists : get closure (codes "files") ≡ arr records
    pub recorded : get closure (codes "sha256") ≡ str digest
    pub of_records : dependency_closure_sha256 disk.files.sha256 (to_list records) ≡ ok digest
    pub of_files :
        dependency_closure_sha256_for_roots disk.files
          (lsp_below snapshot)
          compiler
          (to_list records)
          true
        ≡ ok digest

  check_closure-holds :
      (snapshot compiler : FilePath)
      → check_closure disk manifest snapshot compiler ≡ accept tt
      → ClosureHolds snapshot compiler
  unfolding check_closure
  check_closure-holds snapshot compiler h =
      let (closure, a, h₁) =
        bind-eq-accept
          (require_some (as_object (get manifest (codes "include_closure"))) no_closure) _ h in
      let (_, _, h₂) =
        bind-eq-accept
          (require (is_number (get closure (codes "schema_version")) 1) malformed_closure) _ h₁ in
      let (records, b, h₃) =
        bind-eq-accept (require_some (as_list (get closure (codes "files"))) malformed_closure) _
          h₂ in
      let (staged, c, h₄) =
        bind-eq-accept
          (catching is_caught closure_unreadable (
            dependency_closure_sha256_for_roots disk.files (lsp_below snapshot) compiler
              (to_list records) true))
          _ h₃ in
      let (recorded, d, h₅) =
        bind-eq-accept
          (catching is_caught closure_unreadable
            (dependency_closure_sha256 disk.files.sha256 (to_list records)))
          _ h₄ in
      let (_, e, h₆) =
        bind-eq-accept
          (require (is_text (get closure (codes "sha256")) recorded) inconsistent_closure) _ h₅ in
      let same = (equal_iff staged recorded).0 (require-eq-accept (equal staged recorded) _ h₆) in
      record {
        closure = closure;
        records = records;
        digest = recorded;
        is_object = as_object_sound _ _ (require_some-eq-accept _ _ a);
        lists = as_list_sound _ _ (require_some-eq-accept _ _ b);
        recorded = is_text_sound _ _ (require-eq-accept _ _ e);
        of_records = catching-eq-accept _ _ _ d;
        of_files = rw (← same) (catching-eq-accept _ _ _ c);
      }

  -- A digest that the manifest records is the one that the files have now.
  pub record Recorded (key : Text) (current : Result Text) : Type 0 where
    pub hash : Text
    pub is_current : current ≡ ok hash
    pub is_recorded : get manifest key ≡ str hash

  -- The snapshot that a verified manifest names.
  pub record SnapshotHolds (root : FilePath) : Type 0 where
    pub snapshot : FilePath
    pub compiler : FilePath
    pub are_there :
        (disk.is_dir snapshot && (disk.is_dir (lsp_below snapshot) && disk.is_dir compiler)) ≡ true
    pub frozen : All IsFrozen (disk.walk snapshot)
    pub lsp_inputs :
        Recorded (codes "lsp_inputs_sha256") (lsp_inputs_sha256 disk.files (lsp_below snapshot))
    pub compiler_sources :
        Recorded (codes "compiler_sources_sha256") (compiler_sources_sha256 disk.files compiler)
    pub laid_out :
        IsLaidOut disk manifest root lsp_inputs.hash compiler_sources.hash snapshot compiler
    pub closure_holds : ClosureHolds snapshot compiler

  check_tree-IsFrozen :
      (snapshot compiler : FilePath)
      → check_tree disk snapshot compiler ≡ accept tt
      → ((disk.is_dir snapshot && (disk.is_dir (lsp_below snapshot) && disk.is_dir compiler))
          ≡ true)
        × All IsFrozen (disk.walk snapshot)
  unfolding check_tree
  check_tree-IsFrozen snapshot compiler h =
      let (_, a, h₁) =
        bind-eq-accept
          (require
            (disk.is_dir snapshot && (disk.is_dir (lsp_below snapshot) && disk.is_dir compiler))
            snapshot_missing)
          _ h in
      (require-eq-accept _ _ a, check_entries-IsFrozen (disk.walk snapshot) h₁)

  check_inputs-Recorded :
      (snapshot compiler : FilePath)
      → check_inputs disk manifest snapshot compiler ≡ accept tt
      → Recorded (codes "lsp_inputs_sha256") (lsp_inputs_sha256 disk.files (lsp_below snapshot))
        × Recorded (codes "compiler_sources_sha256") (compiler_sources_sha256 disk.files compiler)
  unfolding check_inputs
  check_inputs-Recorded snapshot compiler h =
      let (l, a, h₁) =
        bind-eq-accept
          (catching is_os_error snapshot_unreadable
            (lsp_inputs_sha256 disk.files (lsp_below snapshot)))
          _ h in
      let (c, b, h₂) =
        bind-eq-accept
          (catching is_os_error snapshot_unreadable (compiler_sources_sha256 disk.files compiler)) _
          h₁ in
      let (_, d, h₃) =
        bind-eq-accept
          (require (is_text (get manifest (codes "lsp_inputs_sha256")) l) staged_lsp_differs) _
          h₂ in
      (
        record {
          hash = l;
          is_current = catching-eq-accept _ _ _ a;
          is_recorded = is_text_sound _ _ (require-eq-accept _ _ d);
        },
        record {
          hash = c;
          is_current = catching-eq-accept _ _ _ b;
          is_recorded = is_text_sound _ _ (require-eq-accept _ _ h₃);
        },
      )

  pub verify_source_snapshot-holds :
      (root : FilePath) → verify_source_snapshot disk manifest root ≡ accept tt → SnapshotHolds root
  unfolding verify_source_snapshot
  verify_source_snapshot-holds root h =
      let (roots, layout, h₁) = bind-eq-accept (check_layout disk manifest root) _ h in
      let (_, tree, h₂) = bind-eq-accept (check_tree disk roots.0 roots.1) _ h₁ in
      let (_, input, h₃) = bind-eq-accept (check_inputs disk manifest roots.0 roots.1) _ h₂ in
      let recorded = check_inputs-Recorded roots.0 roots.1 input in
      record {
        snapshot = roots.0;
        compiler = roots.1;
        are_there = (check_tree-IsFrozen roots.0 roots.1 tree).0;
        frozen = (check_tree-IsFrozen roots.0 roots.1 tree).1;
        lsp_inputs = recorded.0;
        compiler_sources = recorded.1;
        laid_out =
            check_layout-IsLaidOut disk manifest root recorded.0.hash recorded.1.hash roots
              recorded.0.is_recorded recorded.1.is_recorded layout;
        closure_holds = check_closure-holds roots.0 roots.1 h₃;
      }
