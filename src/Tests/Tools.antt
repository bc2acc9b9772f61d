-- ===== src/Tests/Tools.antt =====
-- The tools and the report of a validation host at concrete inputs.
use elisa_lsp.Base.{true, false, none, some, [], ◌∷◌, ◌≡◌, refl}
use elisa_lsp.Base.Sort.{sort, lex_lt, text_lt}
use elisa_lsp.Base.Bytes.{encode, to_bytes8, from_hex, to_hex}
use elisa_lsp.Hashes.Trees.{tree_digest, tree_bytes, entry_bytes, only_files}
use elisa_lsp.Hashes.Files.{suffix, relative_to, sha256_file}
use elisa_lsp.Platform.Toolchain.{file_sha256}
use elisa_lsp.Platform.{command_record}
use elisa_lsp.Markers.{failure_markers}
use elisa_lsp.Markers.Distinct.{distinct_onto}
use elisa_lsp.Base.Int.{pos}
use elisa_lsp.Base.Text.{Text, codes, equal, splitlines, starts_with, strip, contains}
use elisa_lsp.Hashes.Result.{Result, ok, err}
use elisa_lsp.Hashes.Files.{join, parts, name, parent}
use elisa_lsp.Hashes.Trees.{
  only_files, entry_bytes, tree_bytes, tree_digest, compiler_sources_sha256,
}
use elisa_lsp.Platform.{command_record, Host, completed, environment}
use elisa_lsp.Platform.Toolchain.{file_sha256, Tools, Identity, path_text, toolchain_identity}
use elisa_lsp.Platform.Arguments.{RawArgs, Paths, paths, arguments}
use elisa_lsp.Platform.Named.{named_tools_kept}
use elisa_lsp.Platform.Identity.{
  Overflows, sources_overflow, closure_overflow, toolchain_identity_made,
}
use elisa_lsp.Tests.Fixture.{world, root, compiler}

abbrev tools : Tools
tools = record {
  files = world;
  loads = λ b. none;
  stage = λ a b. none;
  depth = 5;
  resolve_loosely = λ p. p;
  is_dir = λ p. true;
  is_executable = λ p. true;
  home = codes "h" ∷ [];
  expand_user = λ t. some t;
  git = λ p arguments. some (pos 0, codes " x ");
  imports = true;
  text_of = λ v. [];
  which_clang = some (codes "/clang");
  clang = λ command. completed (pos 0) (some (codes "clang 1"));
  elapsed = λ command. 1;
  release = codes "6";
  version = codes "1";
  python = codes "3";
}

abbrev host : Host
host = record {
  system = codes "Linux";
  machine = codes "x86_64";
  environ = λ name. some (codes "/f");
  run = λ command env timeout. completed (pos 0) (some (codes "ok"));
  elapsed = λ command. 5;
  manifest = none;
}

abbrev raw : RawArgs
raw = record {
  root = codes "/r";
  compiler = some (codes "/t/elisac");
  frontend = none;
  binary = none;
  manifest = none;
  build = true;
  tests = true;
  require_platform = none;
  build_timeout = 1;
  test_timeout = 1;
}

abbrev found : Paths
found = record {
  root = codes "r" ∷ [];
  binary = codes "r" ∷ codes "build" ∷ codes "elisa-lsp" ∷ [];
  manifest_path = codes "r" ∷ codes "build" ∷ codes "manifest.json" ∷ [];
  compiler = some (codes "t" ∷ codes "elisac" ∷ []);
  frontend = some (codes "f" ∷ []);
}

paths_found : paths tools host.environ raw ≡ some found
unfolding paths parts equal
paths_found = refl

named_tools_kept_example :
    (environment host (arguments tools raw found) (codes "ELISAC")
      ≡ some (path_text (codes "t" ∷ codes "elisac" ∷ [])))
    × (environment host (arguments tools raw found) (codes "ELISA_COMPILER_ROOT")
        ≡ some (path_text (codes "f" ∷ [])))
unfolding parts equal
named_tools_kept_example =
    named_tools_kept tools host raw found b'/' b'/' (codes "t/elisac") (codes "f")
      (codes "t" ∷ codes "elisac" ∷ []) (codes "f" ∷ []) refl refl refl refl paths_found

abbrev or_blank : Result Text → Text
or_blank (ok t) = t
or_blank (err e) = []

sources_read :
    compiler_sources_sha256 world root ≡ ok (or_blank (compiler_sources_sha256 world root))
unfolding compiler_sources_sha256 tree_digest tree_bytes entry_bytes only_files sort lex_lt text_lt
    suffix name parent parts join relative_to sha256_file contains encode to_bytes8 from_hex to_hex
    starts_with equal
sources_read = refl

fits : ¬ (Overflows tools root (some compiler) none (some root))
fits (sources_overflow path e overflow) =
    let same : root ≡ path = cc e in
    let read : compiler_sources_sha256 world path
        ≡ ok (or_blank (compiler_sources_sha256 world root)) =
      rw (← same) sources_read in
    cc (read, overflow)
fits (closure_overflow path binary fields e c m overflow) = cc m

toolchain_identity_made_example :
    (identity : Identity) × (toolchain_identity tools host root (some compiler) (some root) none
      ≡ some identity)
toolchain_identity_made_example =
    toolchain_identity_made tools host root (some compiler) (some root) none fits

abbrev identity : Identity
identity = record {
  system = codes "Linux";
  release = codes "6";
  version = codes "1";
  machine = codes "x86_64";
  python = codes "3";
  compiler = some (codes "/c");
  compiler_sha256 = file_sha256 tools compiler;
  compiler_stage1_named = false;
  frontend = some (codes "/r");
  frontend_revision = some (codes "x");
  frontend_dirty = some true;
  frontend_hashes = record {
    sources = some (or_blank (compiler_sources_sha256 world root));
    closure = none;
  };
  clang = record {
    clang = some (codes "/clang");
    clang_version = some (codes "clang 1");
    clang_target = some (codes "clang 1");
    clang_version_probe = some (
        command_record (codes "/clang" ∷ codes "--version" ∷ []) 1
          (completed (pos 0) (some (codes "clang 1"))));
  };
  manifest_os_arch = none;
  manifest_compiler_sha256 = none;
}

identity_made : toolchain_identity tools host root (some compiler) (some root) none ≡ some identity
unfolding toolchain_identity compiler_sources_sha256 tree_digest tree_bytes entry_bytes only_files
    sort lex_lt text_lt suffix name parent parts join relative_to sha256_file contains encode
    to_bytes8 from_hex to_hex starts_with equal file_sha256 strip splitlines command_record
    failure_markers distinct_onto
identity_made = refl
