-- ===== src/Platform/Toolchain.antt =====
-- The tools that scripts/platform_validation.py finds, and what its report says of them:
-- resolve_path, discover_compiler, git_value, toolchain_identity, and the arguments of main.
use elisa_lsp.Base.{
  ℕ, Bool, true, false, not, ◌&&◌, Option, none, some, List, [], ◌∷◌, ◌++◌, if◌then◌else◌,
}
use elisa_lsp.Base.Int.{ℤ, is_nat}
use elisa_lsp.Base.Text.{Text, codes, splitlines, starts_with, strip}
use elisa_lsp.Base.Bytes.{Bytes, to_hex, ◌>>=◌}
use elisa_lsp.Json.{Value, str, Fields, end, field, get, get_or}
use elisa_lsp.Hashes.Result.{Error, Result, ok, err, overflow_error}
use elisa_lsp.Hashes.Files.{Files, FilePath, join, joined, name}
use elisa_lsp.Hashes.Trees.{compiler_sources_sha256}
use elisa_lsp.Hashes.Report.{ClosureInfo, View, compiler_include_closure}
use elisa_lsp.Platform.{Ran, CommandRecord, command_record, Host}

-- What the host answers beside its commands. `resolve_loosely` is `resolve(strict=False)`, `expand_user`
-- is `expanduser`, where nothing is `RuntimeError`; `git` is the exit status and the output of `git -C`,
-- where nothing is `OSError` or `TimeoutExpired`; `imports` is whether build_hashes can be imported, and
-- `text_of` is `str` of a JSON value that is no text.
pub record Tools : Type 0 where
  pub files : Files
  pub loads : Bytes → Option Value
  pub stage : FilePath → FilePath → Option View
  pub depth : ℕ
  pub resolve_loosely : FilePath → FilePath
  pub is_dir : FilePath → Bool
  pub is_executable : FilePath → Bool
  pub home : FilePath
  pub expand_user : Text → Option Text
  pub git : FilePath → List Text → Option (ℤ × Text)
  pub imports : Bool
  pub text_of : Value → Text
  pub which_clang : Option Text
  pub clang : List Text → Ran
  pub elapsed : List Text → ℕ
  pub release : Text
  pub version : Text
  pub python : Text

-- `str(path)`
abbrev pub path_text : FilePath → Text
path_text path = b'/' ∷ join path

-- The second where the first is missing or empty.
abbrev pub or_else : Option Text → Option Text → Option Text
or_else none second = second
or_else (some []) second = second
or_else (some (c ∷ cs)) second = some (c ∷ cs)

abbrev pub text_or_null : Option Text → Option Text
text_or_null none = none
text_or_null (some []) = none
text_or_null (some (c ∷ cs)) = some (c ∷ cs)

-- An exception is an outer nothing, here and below.
module _ (tools : Tools) where
  abbrev pub from_user : Text → Option FilePath
  from_user text = do
    expanded ← tools.expand_user text
    some (tools.resolve_loosely (joined tools.files.cwd expanded))

  unfoldable pub resolve_path : Option Text → Option FilePath → Option (Option FilePath)
  resolve_path (some (c ∷ cs)) fallback = do path ← from_user (c ∷ cs); some (some path)
  resolve_path _ none = some none
  resolve_path _ (some fallback) = some (some (tools.resolve_loosely fallback))

  abbrev installed : Text → FilePath
  installed compiler = tools.home ++ (codes ".elisac" ∷ compiler ∷ [])

  abbrev usable : FilePath → Bool
  usable path = tools.files.is_file path && tools.is_executable path

  unfoldable pub discover_compiler : Option Text → Option (Option FilePath)
  unfolding resolve_path
  discover_compiler (some (c ∷ cs)) = resolve_path (some (c ∷ cs)) none
  discover_compiler _ =
      if usable (installed (codes "elisac-stage0"))
      then some (some (tools.resolve_loosely (installed (codes "elisac-stage0"))))
      else if usable (installed (codes "elisac"))
      then some (some (tools.resolve_loosely (installed (codes "elisac"))))
      else some none

  unfoldable pub git_value : FilePath → List Text → Option Text
  unfolding strip
  git_value path arguments = elim (tools.git path arguments) [
    | none ↦ none
    | some (returncode, output) ↦
        if is_nat returncode 0 then text_or_null (some (strip output)) else none
  ]

  -- `sha256_file` of this script
  unfoldable pub file_sha256 : FilePath → Option Text
  file_sha256 path = do content ← tools.files.read path; some (to_hex (tools.files.sha256 content))

-- What the report says of the frontend: the fingerprint of its sources, and its include closure.
pub record FrontendHashes : Type 0 where
  pub sources : Option Text
  pub closure : Option ClosureInfo

abbrev pub no_hashes : FrontendHashes
no_hashes = record { sources = none; closure = none }

-- `except (ImportError, OSError, RuntimeError, ValueError)`: all errors of build_hashes but one.
abbrev pub is_caught : Error → Bool
is_caught overflow_error = false
is_caught _ = true

-- A caught error leaves no hash; another ends the program.
abbrev pub unless_caught {ℓ} :
    {A : Type ℓ} → Result A → (A → Option FrontendHashes) → Option FrontendHashes
unless_caught (ok a) next = next a
unless_caught (err e) next = if is_caught e then some no_hashes else none

-- `not manifest` for what read_manifest returns: nothing, or an object without fields.
abbrev pub has_manifest : Option Fields → Option Fields
has_manifest none = none
has_manifest (some end) = none
has_manifest (some (field k v rest)) = some (field k v rest)

abbrev pub show : (Value → Text) → Value → Text
show text_of (str t) = t
show text_of v = text_of v

abbrev pub get_from : Option Fields → Text → Option Value
get_from none key = none
get_from (some fields) key = some (get fields key)

-- What `text.splitlines()[0]` gives; nothing is `IndexError`.
abbrev pub first_line : Text → Option Text
first_line text = elim (splitlines text) [ [] ↦ none | line ∷ lines ↦ some line ]

-- The version is asked of clang, and its first line kept if there is any output.
abbrev pub first_if_any : Text → Option (Option Text)
first_if_any [] = some none
first_if_any (c ∷ cs) = do line ← first_line (c ∷ cs); some (some line)

pub record ClangIdentity : Type 0 where
  pub clang : Option Text
  pub clang_version : Option Text
  pub clang_target : Option Text
  pub clang_version_probe : Option CommandRecord

pub record Identity : Type 0 where
  pub system : Text
  pub release : Text
  pub version : Text
  pub machine : Text
  pub python : Text
  pub compiler : Option Text
  pub compiler_sha256 : Option Text
  pub compiler_stage1_named : Bool
  pub frontend : Option Text
  pub frontend_revision : Option Text
  pub frontend_dirty : Option Bool
  pub frontend_hashes : FrontendHashes
  pub clang : ClangIdentity
  pub manifest_os_arch : Option Value
  pub manifest_compiler_sha256 : Option Value

abbrev pub map_path {ℓ} : {A : Type ℓ} → (FilePath → A) → Option FilePath → Option A
map_path f none = none
map_path f (some path) = some (f path)

abbrev pub is_some : Option Text → Bool
is_some none = false
is_some (some t) = true

module _ (tools : Tools) where
  -- `root` is the repository, and the compiler is the one that is a file, if any.
  unfoldable pub frontend_hashes :
      FilePath → Option FilePath → Option FilePath → Option Fields → Option FrontendHashes
  unfolding get_or
  frontend_hashes root compiler none manifest = some no_hashes
  frontend_hashes root compiler (some frontend) manifest =
      if not (tools.is_dir frontend && tools.imports)
      then some no_hashes
      else unless_caught (compiler_sources_sha256 tools.files frontend) λ sources.
        elim (has_manifest manifest) [
          | none ↦ some (record { sources = some sources; closure = none })
          | some fields ↦ elim compiler [
            | none ↦ some (record { sources = some sources; closure = none })
            | some path ↦
                unless_caught
                  (compiler_include_closure tools.files tools.loads tools.stage tools.depth root
                    frontend path
                    (show tools.text_of
                      (get_or fields (codes "entry") (str (codes "src/main.elisa")))))
                  λ info. some (record { sources = some sources; closure = some info })
          ]
        ]

  abbrev pub only_file : Option FilePath → Option FilePath
  only_file none = none
  only_file (some path) = if tools.files.is_file path then some path else none

  abbrev pub clang_record : Text → Text → CommandRecord
  clang_record clang flag =
      let command = clang ∷ flag ∷ [] in
      command_record command (tools.elapsed command) (tools.clang command)

  unfoldable pub clang_identity : Option Text → Option ClangIdentity
  unfolding strip
  clang_identity none = some (record {
    clang = none;
    clang_version = none;
    clang_target = none;
    clang_version_probe = none;
  })
  clang_identity (some clang) = do
    let probe = clang_record clang (codes "--version")
    let target = clang_record clang (codes "-dumpmachine")
    first ← first_if_any probe.output_tail
    some (record {
      clang = some clang;
      clang_version = first;
      clang_target =
          if is_nat target.returncode 0
          then text_or_null (some (strip target.output_tail))
          else none;
      clang_version_probe = some probe;
    })

  abbrev named_stage1 : Option FilePath → Bool
  named_stage1 none = false
  named_stage1 (some path) = starts_with (name path) (codes "elisac-stage1")

  abbrev pub flat_file : Option FilePath → Option Text
  flat_file none = none
  flat_file (some path) = file_sha256 tools path

  abbrev revision_of : Option FilePath → Option Text
  revision_of none = none
  revision_of (some path) = git_value tools path (codes "rev-parse" ∷ codes "HEAD" ∷ [])

  -- git_value gives no empty text.
  abbrev is_dirty : FilePath → Bool
  is_dirty path = is_some (git_value tools path (codes "status" ∷ codes "--porcelain" ∷ []))

  unfoldable pub toolchain_identity :
      Host → FilePath → Option FilePath → Option FilePath → Option Fields → Option Identity
  unfolding file_sha256 git_value frontend_hashes clang_identity
  toolchain_identity host root compiler frontend manifest = do
    hashes ← frontend_hashes root (only_file compiler) frontend manifest
    clang ← clang_identity tools.which_clang
    some (record {
      system = host.system;
      release = tools.release;
      version = tools.version;
      machine = host.machine;
      python = tools.python;
      compiler = map_path path_text compiler;
      compiler_sha256 = flat_file (only_file compiler);
      compiler_stage1_named = named_stage1 compiler;
      frontend = map_path path_text frontend;
      frontend_revision = revision_of frontend;
      frontend_dirty = map_path is_dirty frontend;
      frontend_hashes = hashes;
      clang = clang;
      manifest_os_arch = get_from (has_manifest manifest) (codes "os_arch");
      manifest_compiler_sha256 = get_from (has_manifest manifest) (codes "elisac_sha256");
    })
