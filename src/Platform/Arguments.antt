-- ===== src/Platform/Arguments.antt =====
-- The arguments of main of scripts/platform_validation.py: the paths and tools that they stand for,
-- and the whole program from them on.
use elisa_lsp.Base.{ℕ, Bool, Option, none, some, [], ◌∷◌, ◌++◌}
use elisa_lsp.Base.Bytes.{◌>>=◌}
use elisa_lsp.Base.Text.{Text, codes}
use elisa_lsp.Json.{Value, Fields}
use elisa_lsp.Hashes.Files.{FilePath, joined, parent}
use elisa_lsp.Platform.{Env, Host, Args, Report, read_manifest, report, main}
use elisa_lsp.Platform.Toolchain.{
  Tools, path_text, or_else, resolve_path, discover_compiler, map_path, get_from, has_manifest,
  Identity, toolchain_identity,
}

-- What the command line says.
pub record RawArgs : Type 0 where
  pub root : Text
  pub compiler : Option Text
  pub frontend : Option Text
  pub binary : Option Text
  pub manifest : Option Text
  pub build : Bool
  pub tests : Bool
  pub require_platform : Option Text
  pub build_timeout : ℕ
  pub test_timeout : ℕ

-- The paths that main works with.
pub record Paths : Type 0 where
  pub root : FilePath
  pub binary : FilePath
  pub manifest_path : FilePath
  pub compiler : Option FilePath
  pub frontend : Option FilePath

module _ (tools : Tools) where
  abbrev under_build : FilePath → Text → FilePath
  under_build root file = root ++ (codes "build" ∷ file ∷ [])

  -- `(given or root / "build" / file).resolve(strict=False)`
  abbrev given_or_built : FilePath → Option Text → Text → FilePath
  given_or_built root none file = tools.resolve_loosely (under_build root file)
  given_or_built root (some given) file = tools.resolve_loosely (joined tools.files.cwd given)

  -- Nothing is an exception: a root that is not there, or a home directory that is not known.
  unfoldable pub paths : Env → RawArgs → Option Paths
  unfolding discover_compiler resolve_path
  paths environ raw = do
    root ← tools.files.resolve (joined tools.files.cwd raw.root)
    compiler ← discover_compiler tools (or_else raw.compiler (environ (codes "ELISAC")))
    frontend ←
        resolve_path tools (or_else raw.frontend (environ (codes "ELISA_COMPILER_ROOT")))
          (some (parent root ++ (codes "Elisa-compiler" ∷ [])))
    some (record {
      root = root;
      binary = given_or_built root raw.binary (codes "elisa-lsp");
      manifest_path = given_or_built root raw.manifest (codes "manifest.json");
      compiler = compiler;
      frontend = frontend;
    })

  unfoldable pub arguments : RawArgs → Paths → Args
  arguments raw p = record {
    root = path_text p.root;
    binary = path_text p.binary;
    manifest_path = path_text p.manifest_path;
    compiler = map_path path_text p.compiler;
    frontend = map_path path_text p.frontend;
    build = raw.build;
    tests = raw.tests;
    require_platform = raw.require_platform;
    build_timeout = raw.build_timeout;
    test_timeout = raw.test_timeout;
  }

  -- The part of the report about the manifest.
  pub record ManifestSummary : Type 0 where
    pub path : Text
    pub schema_version : Option Value
    pub artifact_sha256 : Option Value
    pub compiler_sources_sha256 : Option Value
    pub built_at_utc : Option Value
    pub os_arch : Option Value

  unfoldable pub manifest_summary : Args → Option Fields → ManifestSummary
  manifest_summary args manifest =
      let fields = has_manifest manifest in
      record {
        path = args.manifest_path;
        schema_version = get_from fields (codes "schema_version");
        artifact_sha256 = get_from fields (codes "artifact_sha256");
        compiler_sources_sha256 = get_from fields (codes "compiler_sources_sha256");
        built_at_utc = get_from fields (codes "built_at_utc");
        os_arch = get_from fields (codes "os_arch");
      }

  pub record FullReport : Type 0 where
    pub result : Report
    pub toolchain : Identity
    pub manifest : ManifestSummary

  unfoldable pub full_report : Host → RawArgs → Option FullReport
  unfolding paths arguments manifest_summary toolchain_identity
  full_report host raw = do
    p ← paths host.environ raw
    let args = arguments raw p
    let (manifest, problem) = read_manifest host.manifest
    identity ← toolchain_identity tools host p.root p.compiler p.frontend manifest
    some (record {
      result = report host args;
      toolchain = identity;
      manifest = manifest_summary args manifest;
    })

  -- The exit status of the program; an exception that nothing catches ends with 1.
  unfoldable pub validate : Host → RawArgs → ℕ
  unfolding full_report
  validate host raw = elim (paths host.environ raw) [
    | none ↦ 1
    | some p ↦ elim (full_report host raw) [ none ↦ 1 | some r ↦ main host (arguments raw p) ]
  ]
