-- ===== src/Freshness/Fresh.antt =====
-- What an accepted build is: the whole program of scripts/check_build_freshness.py.
use elisa_lsp.Base.{List, true, some, ◌≡◌, ◌≢◌, ◌∙◌, refl, ap, arith}
use elisa_lsp.Base.Text.{Text, codes, equal, equal_iff}
use elisa_lsp.Json.{Value, str, obj, Fields, get, is_text, is_number, as_object, as_list, to_list}
use elisa_lsp.Hashes.Result.{Result, ok, err}
use elisa_lsp.Hashes.Files.{Files, name, sha256_file, FilePath}
use elisa_lsp.Hashes.Trees.{lsp_inputs_sha256, build_pipeline_sha256}
use elisa_lsp.Hashes.Digest.{dependency_closure_sha256}
use elisa_lsp.Hashes.Closure.{dependency_closure_sha256_for_roots}
use elisa_lsp.Hashes.Closure.Verified.{is_text_sound, dependency_closure_sha256_for_roots_verified}
use elisa_lsp.Freshness.{
  Inputs, fingerprint, check_artifact, check_live_inputs, check_manifest, main,
}
use elisa_lsp.Freshness.Accepts.{
  SnapshotHolds, Recorded, as_object_sound, fingerprint_sound, verify_source_snapshot-holds,
}
use elisa_lsp.Freshness.Snapshot.{Disk, verify_source_snapshot, check_closure, lsp_below}
use elisa_lsp.Freshness.Verdict.{
  Check, accept, reject, crash, ◌>>=◌, require, require_some, catching, is_os_error, is_caught,
  bind-eq-accept, require-eq-accept, require_some-eq-accept, catching-eq-accept, Reason,
  manifest_unreadable, wrong_schema, other_artifact, executable_missing, artifact_unreadable,
  lsp_unreadable, lsp_inputs_differ, no_pipeline, pipeline_unreadable, staged_closure_differs,
  no_closure, malformed_closure, closure_unreadable, inconsistent_closure,
}

module _ (disk : Disk) (inputs : Inputs) where
  -- The manifest, and what it records of the executable, the live tree and the snapshot.
  pub record IsFresh : Type 0 where
    pub manifest : Fields
    pub is_manifest : inputs.manifest ≡ some (obj manifest)
    pub describes : is_text (get manifest (codes "artifact")) (name inputs.binary) ≡ true
    pub exists : disk.files.is_file inputs.binary ≡ true
    pub artifact :
        Recorded disk manifest (codes "artifact_sha256") (sha256_file disk.files inputs.binary)
    pub lsp_inputs :
        Recorded disk manifest
          (codes "lsp_inputs_sha256")
          (lsp_inputs_sha256 disk.files inputs.root)
    pub pipeline :
        Recorded disk manifest
          (codes "build_pipeline_sha256")
          (build_pipeline_sha256 disk.files inputs.root)
    pub snapshot_holds : SnapshotHolds disk manifest inputs.resolved_root

  check_artifact-Recorded :
      (manifest : Fields)
      → check_artifact disk inputs manifest ≡ accept tt
      → (is_text (get manifest (codes "artifact")) (name inputs.binary) ≡ true)
        × (disk.files.is_file inputs.binary ≡ true)
        × Recorded disk manifest (codes "artifact_sha256") (sha256_file disk.files inputs.binary)
  unfolding check_artifact
  check_artifact-Recorded manifest h =
      let (_, _, h₁) =
        bind-eq-accept (require (is_number (get manifest (codes "schema_version")) 3) wrong_schema)
          _ h in
      let (_, a, h₂) =
        bind-eq-accept
          (require (is_text (get manifest (codes "artifact")) (name inputs.binary)) other_artifact)
          _ h₁ in
      let (_, b, h₃) =
        bind-eq-accept (require (disk.files.is_file inputs.binary) executable_missing) _ h₂ in
      let (current, c, h₄) =
        bind-eq-accept
          (catching is_os_error artifact_unreadable (sha256_file disk.files inputs.binary)) _ h₃ in
      (
        require-eq-accept _ _ a,
        require-eq-accept _ _ b,
        record {
          hash = current;
          is_current = catching-eq-accept _ _ _ c;
          is_recorded = is_text_sound _ _ (require-eq-accept _ _ h₄);
        },
      )

  check_live_inputs-Recorded :
      (manifest : Fields)
      → check_live_inputs disk inputs manifest ≡ accept tt
      → Recorded disk manifest
          (codes "lsp_inputs_sha256")
          (lsp_inputs_sha256 disk.files inputs.root)
        × Recorded disk manifest
            (codes "build_pipeline_sha256")
            (build_pipeline_sha256 disk.files inputs.root)
  unfolding check_live_inputs
  check_live_inputs-Recorded manifest h =
      let (l, a, h₁) =
        bind-eq-accept
          (catching is_os_error lsp_unreadable (lsp_inputs_sha256 disk.files inputs.root)) _ h in
      let (_, b, h₂) =
        bind-eq-accept
          (require (is_text (get manifest (codes "lsp_inputs_sha256")) l) lsp_inputs_differ) _ h₁ in
      let (recorded, c, h₃) =
        bind-eq-accept
          (require_some (fingerprint (get manifest (codes "build_pipeline_sha256"))) no_pipeline) _
          h₂ in
      let (p, d, h₄) =
        bind-eq-accept
          (catching is_os_error pipeline_unreadable (build_pipeline_sha256 disk.files inputs.root))
          _ h₃ in
      let same = (equal_iff recorded p).0 (require-eq-accept (equal recorded p) _ h₄) in
      (
        record {
          hash = l;
          is_current = catching-eq-accept _ _ _ a;
          is_recorded = is_text_sound _ _ (require-eq-accept _ _ b);
        },
        record {
          hash = p;
          is_current = catching-eq-accept _ _ _ d;
          is_recorded = fingerprint_sound _ _ (require_some-eq-accept _ _ c) ∙ ap str same;
        },
      )

  -- When the checks accept, the manifest is an object that names the executable, the executable is
  -- there, and the manifest records its hash, the live source tree's and the build pipeline's. The
  -- manifest names a snapshot and a staged compiler by absolute paths that resolve to themselves: the
  -- snapshot is the entry "source" of a directory in the root's resolved build directory, named after
  -- the two recorded digests, and the compiler is the entry "Elisa-compiler" of the snapshot. They
  -- are there, the snapshot has no link and no file or directory that can be written, the digests are
  -- those of its source tree and of that compiler, and its files have the digest of the recorded
  -- include closure.
  pub main_accepts : main disk inputs ≡ accept tt → IsFresh
  unfolding main check_manifest
  main_accepts h =
      let (value, a, h₁) = bind-eq-accept (require_some inputs.manifest manifest_unreadable) _ h in
      let (manifest, b, h₂) = bind-eq-accept (require_some (as_object value) wrong_schema) _ h₁ in
      let (_, c, h₃) = bind-eq-accept (check_artifact disk inputs manifest) _ h₂ in
      let (_, d, h₄) = bind-eq-accept (check_live_inputs disk inputs manifest) _ h₃ in
      let (_, e, h₅) =
        bind-eq-accept (verify_source_snapshot disk manifest inputs.resolved_root) _ h₄ in
      let artifact = check_artifact-Recorded manifest c in
      let live = check_live_inputs-Recorded manifest d in
      record {
        manifest = manifest;
        is_manifest =
            require_some-eq-accept _ _ a
            ∙ ap some (as_object_sound _ _ (require_some-eq-accept _ _ b));
        describes = artifact.0;
        exists = artifact.1;
        artifact = artifact.2;
        lsp_inputs = live.0;
        pipeline = live.1;
        snapshot_holds = verify_source_snapshot-holds disk manifest inputs.resolved_root e;
      }

  -- When the checks accept, the tree of the snapshot and the live source tree have the same digest.
  pub main_same_inputs :
      main disk inputs ≡ accept tt
      → (snapshot : FilePath) × (hash : Text) × (lsp_inputs_sha256 disk.files (lsp_below snapshot)
          ≡ ok hash)
        × (lsp_inputs_sha256 disk.files inputs.root ≡ ok hash)
  main_same_inputs h =
      let fresh = main_accepts h in
      let s = fresh.snapshot_holds in
      let same : fresh.lsp_inputs.hash ≡ s.lsp_inputs.hash =
        ground (arith, fresh.lsp_inputs.is_recorded, s.lsp_inputs.is_recorded) in
      (
        s.snapshot,
        s.lsp_inputs.hash,
        s.lsp_inputs.is_current,
        fresh.lsp_inputs.is_current ∙ ap ok same,
      )

bind-ne {ℓ} :
    {A : Type ℓ} (m : Check A) (f : A → Check (Unit {0}))
    → m ≢ reject staged_closure_differs
    → ((a : A) → m ≡ accept a → f a ≢ reject staged_closure_differs)
    → (m >>= f) ≢ reject staged_closure_differs
bind-ne (accept a) f h k = k a refl
bind-ne (reject r) f h k = λ e. h (ground arith)
bind-ne (crash x) f h k = λ e. cc

catching-ne :
    (r : Reason) (m : Result Text)
    → r ≢ staged_closure_differs
    → catching is_caught r m ≢ reject staged_closure_differs
catching-ne r (ok a) h = λ e. cc
catching-ne r (err x) h = λ e. ground arith

require-equal-ne :
    (s t : Text)
    → s ≡ t
    → require (equal s t) staged_closure_differs ≢ reject staged_closure_differs
require-equal-ne s t e = λ h. ground (arith, equal_iff s t)

verified_same :
    (fs : Files) (lsp_root compiler_root : FilePath) (records : List Value) {staged recorded : Text}
    → dependency_closure_sha256_for_roots fs lsp_root compiler_root records true ≡ ok staged
    → dependency_closure_sha256 fs.sha256 records ≡ ok recorded
    → staged ≡ recorded
verified_same fs l c records h k =
    let digest = dependency_closure_sha256_for_roots_verified fs l c records h in
    ground (arith, digest)

-- The last comparison of the snapshot's closure never fails: whatever the manifest and the disk, the
-- checks of the closure do not end in the rejection that the staged closure differs, since a staged
-- file that differs is refused before.
pub check_closure-ne_staged_closure_differs :
    (disk : Disk) (manifest : Fields) (snapshot compiler : FilePath)
    → check_closure disk manifest snapshot compiler ≢ reject staged_closure_differs
unfolding check_closure
check_closure-ne_staged_closure_differs disk manifest snapshot compiler =
    bind-ne (require_some (as_object (get manifest (codes "include_closure"))) no_closure) _
      (λ e. ground arith)
      λ closure _.
        bind-ne (require (is_number (get closure (codes "schema_version")) 1) malformed_closure) _
          (λ e. ground arith)
          λ _ _.
            bind-ne (require_some (as_list (get closure (codes "files"))) malformed_closure) _
              (λ e. ground arith)
              λ records _.
                bind-ne
                  (catching is_caught closure_unreadable (
                    dependency_closure_sha256_for_roots disk.files (lsp_below snapshot) compiler
                      (to_list records) true))
                  _ (catching-ne closure_unreadable _ (λ e. grind arith))
                  λ staged s.
                    bind-ne
                      (catching is_caught closure_unreadable
                        (dependency_closure_sha256 disk.files.sha256 (to_list records)))
                      _ (catching-ne closure_unreadable _ (λ e. grind arith))
                      λ recorded r.
                        bind-ne
                          (require (is_text (get closure (codes "sha256")) recorded)
                            inconsistent_closure)
                          _ (λ e. ground arith)
                          λ _ _. require-equal-ne staged recorded (
                            verified_same disk.files (lsp_below snapshot) compiler (to_list records)
                              (catching-eq-accept _ _ _ s) (catching-eq-accept _ _ _ r))
