-- ===== src/Freshness.antt =====
-- scripts/check_build_freshness.py: the checks that a test run makes before it trusts an executable.
pub mod Verdict
pub mod Snapshot
pub mod Layout
pub mod Accepts
pub mod Fresh
use elisa_lsp.Base.{
  ℕ, Bool, true, false, not, ◌&&◌, ◌||◌, Option, none, some, List, [], ◌∷◌, length, ◌==◌,
  if◌then◌else◌,
}
use elisa_lsp.Base.Text.{Text, codes, equal}
use elisa_lsp.Base.Bytes.{is_all_hex}
use elisa_lsp.Json.{Value, str, obj, Fields, get, is_text, is_number, as_text, as_object}
use elisa_lsp.Hashes.Files.{FilePath, joined, name, sha256_file}
use elisa_lsp.Hashes.Trees.{lsp_inputs_sha256, compiler_sources_sha256, build_pipeline_sha256}
use elisa_lsp.Hashes.Result.{Result}
use elisa_lsp.Hashes.Report.{ClosureInfo}
use Verdict.{
  Check, accept, reject, crash, ◌>>=◌, ◌>>◌, require, require_some, catching, is_os_error,
  is_caught, manifest_unreadable, wrong_schema, other_artifact, executable_missing,
  artifact_unreadable, artifact_differs, lsp_unreadable, lsp_inputs_differ, no_pipeline,
  pipeline_unreadable, pipeline_differs, live_closure_unreadable, live_closure_differs,
  compiler_unreadable, compiler_differs, binary_unreadable, binary_differs,
}
use Snapshot.{Disk, verify_source_snapshot}

-- The parsed arguments, and the manifest that they name: `none` where the file cannot be read or is
-- no JSON. `closure_of` is `compiler_include_closure` of the live tree.
pub record Inputs : Type 0 where
  pub root : FilePath
  pub resolved_root : FilePath
  pub binary : FilePath
  pub manifest : Option Value
  pub closure_of : FilePath → FilePath → FilePath → Text → Result ClosureInfo

-- A pipeline fingerprint is 64 lower-case hexadecimal digits.
abbrev pub fingerprint : Value → Option Text
fingerprint (str t) = if length t == 64 && is_all_hex t then some t else none
fingerprint _ = none

-- The three texts that the live check wants.
abbrev all_texts : Value → Value → Value → Option (Text × Text × Text)
all_texts (str a) (str b) (str c) = some (a, b, c)
all_texts _ _ _ = none

abbrev both_texts : Value → Value → Option (Text × Text)
both_texts (str a) (str b) = some (a, b)
both_texts _ _ = none

module _ (disk : Disk) (inputs : Inputs) where
  -- The manifest describes the executable that is there.
  unfoldable pub check_artifact : Fields → Check (Unit {0})
  check_artifact manifest = do
    require (is_number (get manifest (codes "schema_version")) 3) wrong_schema
    require (is_text (get manifest (codes "artifact")) (name inputs.binary)) other_artifact
    require (disk.files.is_file inputs.binary) executable_missing
    current ← catching is_os_error artifact_unreadable (sha256_file disk.files inputs.binary)
    require (is_text (get manifest (codes "artifact_sha256")) current) artifact_differs

  unfoldable pub check_live_inputs : Fields → Check (Unit {0})
  check_live_inputs manifest = do
    current ← catching is_os_error lsp_unreadable (lsp_inputs_sha256 disk.files inputs.root)
    require (is_text (get manifest (codes "lsp_inputs_sha256")) current) lsp_inputs_differ
    recorded ← require_some (fingerprint (get manifest (codes "build_pipeline_sha256"))) no_pipeline
    pipeline ←
        catching is_os_error pipeline_unreadable (build_pipeline_sha256 disk.files inputs.root)
    require (equal recorded pipeline) pipeline_differs

  -- `verify_live_include_closure` once the recorded toolchain is known.
  unfoldable pub check_live_closure : Fields → Text × Text × Text → Check Bool
  check_live_closure closure (compiler_root, compiler_binary, entry) =
      let root = joined disk.files.cwd compiler_root in
      let binary = joined disk.files.cwd compiler_binary in
      let compared = do
        current ←
            catching is_caught live_closure_unreadable
              (inputs.closure_of inputs.resolved_root root binary entry)
        require (is_text (get closure (codes "sha256")) current.sha256) live_closure_differs
        accept true
      in if not (disk.is_dir root) || not (disk.files.is_file binary) then accept true else compared

  -- Whether a closure was there to verify.
  unfoldable pub verify_live_include_closure : Fields → Check Bool
  verify_live_include_closure manifest = elim (as_object (get manifest (codes "include_closure"))) [
    | none ↦ accept false
    | some closure ↦
        elim (all_texts (get manifest (codes "compiler_root")) (get manifest (codes "elisac"))
          (get manifest (codes "entry"))) [
            | none ↦ accept true
            | some toolchain ↦ check_live_closure closure toolchain
          ]
  ]

  -- The whole compiler tree, where no closure was verified and the tree is still there.
  unfoldable pub check_compiler_tree : Bool → Fields → Check (Unit {0})
  check_compiler_tree verified manifest =
      elim (if verified
        then none
        else both_texts (get manifest (codes "compiler_root"))
            (get manifest (codes "compiler_sources_sha256"))) [
              | none ↦ accept tt
              | some (root, recorded) ↦
                  let path = joined disk.files.cwd root in
                  let compared =
                    catching is_os_error compiler_unreadable
                      (compiler_sources_sha256 disk.files path)
                    >>= λ current. require (equal current recorded) compiler_differs in
                  if disk.is_dir path then compared else accept tt
            ]

  -- The compiler that built the executable, where it is still there.
  unfoldable pub check_compiler_binary : Fields → Check (Unit {0})
  check_compiler_binary manifest =
      elim (both_texts (get manifest (codes "elisac")) (get manifest (codes "elisac_sha256"))) [
        | none ↦ accept tt
        | some (binary, recorded) ↦
            let path = joined disk.files.cwd binary in
            let compared =
              catching is_os_error binary_unreadable (sha256_file disk.files path) >>= λ current.
              require (equal current recorded) binary_differs in
            if disk.files.is_file path then compared else accept tt
      ]

  unfoldable pub check_manifest : Fields → Check (Unit {0})
  check_manifest manifest = do
    check_artifact manifest
    check_live_inputs manifest
    verify_source_snapshot disk manifest inputs.resolved_root
    verified ← verify_live_include_closure manifest
    check_compiler_tree verified manifest
    check_compiler_binary manifest

  unfoldable pub main : Check (Unit {0})
  main = do
    value ← require_some inputs.manifest manifest_unreadable
    manifest ← require_some (as_object value) wrong_schema
    check_manifest manifest
