-- ===== src/Platform/Named.antt =====
-- What the arguments of scripts/platform_validation.py mean for the commands.
use elisa_lsp.Base.{ℕ, Option, none, some, [], ◌∷◌, ◌++◌, ◌≡◌, refl, ap}
use elisa_lsp.Base.Bytes.{bind-eq-some}
use elisa_lsp.Base.Text.{Text, codes}
use elisa_lsp.Hashes.Files.{FilePath, joined, parent}
use elisa_lsp.Platform.{Host, environment}
use elisa_lsp.Platform.Label.{environment_exact}
use elisa_lsp.Platform.Toolchain.{
  Tools, path_text, or_else, from_user, resolve_path, discover_compiler, map_path,
}
use elisa_lsp.Platform.Arguments.{RawArgs, Paths, paths, arguments}

abbrev elisac : Text
elisac = codes "ELISAC"

abbrev compiler_root : Text
compiler_root = codes "ELISA_COMPILER_ROOT"

-- What the command line gives, or else the environment.
abbrev pub named_compiler : Host → RawArgs → Option Text
named_compiler host raw = or_else raw.compiler (host.environ (codes "ELISAC"))

abbrev pub named_frontend : Host → RawArgs → Option Text
named_frontend host raw = or_else raw.frontend (host.environ (codes "ELISA_COMPILER_ROOT"))

module _ (tools : Tools) where
  resolve_path-given :
      (given : Option Text) (c : ℕ) (cs : Text) (fallback found : Option FilePath) (path : FilePath)
      → given ≡ some (c ∷ cs)
      → from_user tools (c ∷ cs) ≡ some path
      → resolve_path tools given fallback ≡ some found
      → found ≡ some path
  unfolding resolve_path
  resolve_path-given given c cs fallback found path e f h =
      let h' : resolve_path tools (some (c ∷ cs)) fallback ≡ some found = rw e at h in
      cc (rw (resolve_path, f) at h')

  discover_compiler-given :
      (given : Option Text) (c : ℕ) (cs : Text) (found : Option FilePath) (path : FilePath)
      → given ≡ some (c ∷ cs)
      → from_user tools (c ∷ cs) ≡ some path
      → discover_compiler tools given ≡ some found
      → found ≡ some path
  unfolding discover_compiler
  discover_compiler-given given c cs found path e f h =
      let h' : discover_compiler tools (some (c ∷ cs)) ≡ some found = rw e at h in
      resolve_path-given (some (c ∷ cs)) c cs none found path refl f h'

  -- A compiler and a frontend that the caller names, on the command line or else in the environment,
  -- are the ones that the commands see, whatever is installed in the home directory or lies beside
  -- the repository, and whether or not they are there.
  pub named_tools_kept :
      (host : Host) (raw : RawArgs) (p : Paths) (c d : ℕ) (cs ds : Text)
      (compiler frontend : FilePath)
      → named_compiler host raw ≡ some (c ∷ cs)
      → named_frontend host raw ≡ some (d ∷ ds)
      → from_user tools (c ∷ cs) ≡ some compiler
      → from_user tools (d ∷ ds) ≡ some frontend
      → paths tools host.environ raw ≡ some p
      → (environment host (arguments tools raw p) (codes "ELISAC") ≡ some (path_text compiler))
        × (environment host (arguments tools raw p) (codes "ELISA_COMPILER_ROOT")
            ≡ some (path_text frontend))
  unfolding paths arguments
  named_tools_kept host raw p c d cs ds compiler frontend e₁ e₂ f₁ f₂ h =
      let (root, r, h₁) =
        bind-eq-some (tools.files.resolve (joined tools.files.cwd raw.root)) _ h in
      let (found, k, h₂) = bind-eq-some (discover_compiler tools (named_compiler host raw)) _ h₁ in
      let beside = some (parent root ++ (codes "Elisa-compiler" ∷ [])) in
      let (found', k', h₃) =
        bind-eq-some (resolve_path tools (named_frontend host raw) beside) _ h₂ in
      let same : found ≡ some compiler =
        discover_compiler-given (named_compiler host raw) c cs found compiler e₁ f₁ k in
      let same' : found' ≡ some frontend =
        resolve_path-given (named_frontend host raw) d ds beside found' frontend e₂ f₂ k' in
      let seen : p.compiler ≡ some compiler = cc (h₃, same) in
      let seen' : p.frontend ≡ some frontend = cc (h₃, same') in
      let exact = environment_exact host (arguments tools raw p) in
      (
        exact.1 (path_text compiler) (ap (map_path path_text) seen),
        exact.2 (path_text frontend) (ap (map_path path_text) seen'),
      )
