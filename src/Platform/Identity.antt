-- ===== src/Platform/Identity.antt =====
-- What the hashes in the report of scripts/platform_validation.py are hashes of, and when the report
-- about the tools cannot be made.
use elisa_lsp.Base.{
  List-cases, true, ◌&&◌, Option, none, some, [], ◌∷◌, ◌≡◌, ◌≢◌, ◌⊎◌, refl, ap, ◌∙◌, inl, inr,
  Option-cases, Bool-cases,
}
use elisa_lsp.Base.Bytes.{bind-eq-some}
use elisa_lsp.Base.Text.{splitlines-ne-nil, Text, codes, splitlines}
use elisa_lsp.Json.{str, Fields, get_or}
use elisa_lsp.Hashes.Result.{Result-cases, Error, ok, err, overflow_error}
use elisa_lsp.Hashes.Files.{FilePath}
use elisa_lsp.Hashes.Trees.{compiler_sources_sha256}
use elisa_lsp.Hashes.Report.{ClosureInfo, compiler_include_closure}
use elisa_lsp.Platform.{Host}
use elisa_lsp.Platform.Toolchain.{
  first_line, clang_record, Tools, FrontendHashes, no_hashes, is_caught, unless_caught,
  has_manifest, show, first_if_any, Identity, frontend_hashes, only_file, clang_identity,
  toolchain_identity, flat_file,
}

abbrev pub entry_of : Tools → Fields → Text
entry_of tools fields =
    show tools.text_of (get_or fields (codes "entry") (str (codes "src/main.elisa")))

module _ (tools : Tools) where
  -- The frontend's fingerprint is the one that build_hashes makes of the frontend's sources, and the
  -- closure the one that it makes of the manifest's entry with the compiler.
  pub data IsHashed (root : FilePath) (compiler : Option FilePath)
      : Option FilePath → Option Fields → FrontendHashes → Type 0 where
    nothing_hashed :
        {frontend : Option FilePath} {manifest : Option Fields} {hashes : FrontendHashes}
        → hashes ≡ no_hashes
        → IsHashed root compiler frontend manifest hashes
    sources_hashed :
        {frontend : Option FilePath} {manifest : Option Fields} {hashes : FrontendHashes}
        (path : FilePath) (sources : Text)
        → frontend ≡ some path
        → compiler_sources_sha256 tools.files path ≡ ok sources
        → hashes ≡ record { sources = some sources; closure = none }
        → IsHashed root compiler frontend manifest hashes
    closure_hashed :
        {frontend : Option FilePath} {manifest : Option Fields} {hashes : FrontendHashes}
        (path binary : FilePath) (sources : Text) (fields : Fields) (info : ClosureInfo)
        → frontend ≡ some path
        → compiler ≡ some binary
        → has_manifest manifest ≡ some fields
        → compiler_sources_sha256 tools.files path ≡ ok sources
        → compiler_include_closure tools.files tools.loads tools.stage tools.depth root path binary
            (entry_of tools fields)
          ≡ ok info
        → hashes ≡ record { sources = some sources; closure = some info }
        → IsHashed root compiler frontend manifest hashes

  -- A length that does not fit into 8 bytes is the one error of build_hashes that is not caught.
  pub data Overflows (root : FilePath) (compiler : Option FilePath) (manifest : Option Fields)
      : Option FilePath → Type 0 where
    sources_overflow :
        {frontend : Option FilePath} (path : FilePath)
        → frontend ≡ some path
        → compiler_sources_sha256 tools.files path ≡ err overflow_error
        → Overflows root compiler manifest frontend
    closure_overflow :
        {frontend : Option FilePath} (path binary : FilePath) (fields : Fields)
        → frontend ≡ some path
        → compiler ≡ some binary
        → has_manifest manifest ≡ some fields
        → compiler_include_closure tools.files tools.loads tools.stage tools.depth root path binary
            (entry_of tools fields)
          ≡ err overflow_error
        → Overflows root compiler manifest frontend

  abbrev Outcome :
      FilePath → Option FilePath → Option FilePath → Option Fields → Option FrontendHashes → Type 0
  Outcome root compiler frontend manifest none = Overflows root compiler manifest frontend
  Outcome root compiler frontend manifest (some hashes) =
      IsHashed root compiler frontend manifest hashes

  is_caught-cases : (e : Error) → (is_caught e ≡ true) ⊎ (e ≡ overflow_error)
  is_caught-cases overflow_error = inr refl
  is_caught-cases e = inl refl

  closure-Outcome :
      (root path : FilePath) (compiler : Option FilePath) (manifest : Option Fields)
      (fields : Fields) (sources : Text) (binary : FilePath)
      → compiler ≡ some binary
      → has_manifest manifest ≡ some fields
      → compiler_sources_sha256 tools.files path ≡ ok sources
      → Outcome root compiler (some path) manifest (
          unless_caught
            (compiler_include_closure tools.files tools.loads tools.stage tools.depth root path
              binary
              (entry_of tools fields))
            λ info. some (record { sources = some sources; closure = some info }))
  closure-Outcome root path compiler manifest fields sources binary c m s =
      elim (Result-cases (
        compiler_include_closure tools.files tools.loads tools.stage tools.depth root path binary
          (entry_of tools fields))) [
            | inr (info, e) ↦
                rw e (closure_hashed path binary sources fields info refl c m s e refl)
            | inl (why, e) ↦ elim (is_caught-cases why) [
              | inl f ↦ rw (e, f) (nothing_hashed refl)
              | inr f ↦ rw (e, f) (closure_overflow path binary fields refl c m (e ∙ ap err f))
            ]
          ]

  frontend_hashes-Outcome :
      (root : FilePath) (compiler frontend : Option FilePath) (manifest : Option Fields)
      → Outcome root compiler frontend manifest
          (frontend_hashes tools root compiler frontend manifest)
  unfolding frontend_hashes
  frontend_hashes-Outcome root compiler none manifest = nothing_hashed refl
  frontend_hashes-Outcome root compiler (some path) manifest =
      elim (Bool-cases (tools.is_dir path && tools.imports)) [
        | inr e ↦ rw (frontend_hashes, e) (nothing_hashed refl)
        | inl e ↦ elim (Result-cases (compiler_sources_sha256 tools.files path)) [
          | inl (why, f) ↦ elim (is_caught-cases why) [
            | inl g ↦ rw (frontend_hashes, e, f, g) (nothing_hashed refl)
            | inr g ↦ rw (frontend_hashes, e, f, g) (sources_overflow path refl (f ∙ ap err g))
          ]
          | inr (sources, f) ↦ elim (Option-cases (has_manifest manifest)) [
            | inl g ↦ rw (frontend_hashes, e, f, g) (sources_hashed path sources refl f refl)
            | inr (fields, g) ↦ elim (Option-cases compiler) [
              | inl k ↦ rw (frontend_hashes, e, f, g, k) (sources_hashed path sources refl f refl)
              | inr (binary, k) ↦
                  let all =
                    closure-Outcome root path compiler manifest fields sources binary k g f in
                  rw (frontend_hashes, e, f, g, k) (rw k at all)
            ]
          ]
        ]
      ]

  first_if_any-ne-none : (text : Text) → first_if_any text ≢ none
  first_if_any-ne-none [] h = cc
  first_if_any-ne-none (c ∷ cs) h = elim (List-cases (splitlines (c ∷ cs))) [
    | inl e ↦ splitlines-ne-nil c cs e
    | inr (l, ls, e) ↦ cc (rw (first_if_any, first_line, e) at h)
  ]

  clang_identity-ne-none : (clang : Option Text) → clang_identity tools clang ≢ none
  unfolding clang_identity
  clang_identity-ne-none none h = cc
  clang_identity-ne-none (some clang) h =
      let probe = clang_record tools clang (codes "--version") in
      elim (Option-cases (first_if_any probe.output_tail)) [
        | inl e ↦ first_if_any-ne-none probe.output_tail e
        | inr (first, e) ↦ cc (rw (clang_identity, e) at h)
      ]

  -- The hashes of a report are those that build_hashes makes: none, the fingerprint of the frontend's
  -- sources alone, or that and the closure of the manifest's entry.
  pub toolchain_identity-IsHashed :
      (host : Host) (root : FilePath) (compiler frontend : Option FilePath)
      (manifest : Option Fields) (identity : Identity)
      → toolchain_identity tools host root compiler frontend manifest ≡ some identity
      → IsHashed root (only_file tools compiler) frontend manifest identity.frontend_hashes
        × (identity.compiler_sha256 ≡ flat_file tools (only_file tools compiler))
  unfolding toolchain_identity
  toolchain_identity-IsHashed host root compiler frontend manifest identity h =
      let file = only_file tools compiler in
      let (hashes, e, h₁) = bind-eq-some (frontend_hashes tools root file frontend manifest) _ h in
      let (clang, f, h₂) = bind-eq-some (clang_identity tools tools.which_clang) _ h₁ in
      let outcome : IsHashed root file frontend manifest hashes =
        rw e at (frontend_hashes-Outcome root file frontend manifest) in
      let same : hashes ≡ identity.frontend_hashes = cc h₂ in (rw (← same) outcome, cc h₂)

  toolchain_identity-Overflows :
      (host : Host) (root : FilePath) (compiler frontend : Option FilePath)
      (manifest : Option Fields)
      → toolchain_identity tools host root compiler frontend manifest ≡ none
      → Overflows root (only_file tools compiler) manifest frontend
  unfolding toolchain_identity
  toolchain_identity-Overflows host root compiler frontend manifest h =
      let file = only_file tools compiler in
      let outcome = frontend_hashes-Outcome root file frontend manifest in
      elim (Option-cases (frontend_hashes tools root file frontend manifest)) [
        | inl e ↦ rw e at outcome
        | inr (hashes, e) ↦ elim (Option-cases (clang_identity tools tools.which_clang)) [
          | inl f ↦ elim (clang_identity-ne-none tools.which_clang f) [ ]
          | inr (clang, f) ↦ cc (rw (toolchain_identity, e, f) at h)
        ]
      ]

  -- The report about the tools is made unless a length among the hashed files does not fit into 8
  -- bytes: no other error of build_hashes ends the program, and clang's output always has a line.
  pub toolchain_identity_made :
      (host : Host) (root : FilePath) (compiler frontend : Option FilePath)
      (manifest : Option Fields)
      → ¬ (Overflows root (only_file tools compiler) manifest frontend)
      → (identity : Identity) × (toolchain_identity tools host root compiler frontend manifest
          ≡ some identity)
  toolchain_identity_made host root compiler frontend manifest fits =
      elim (Option-cases (toolchain_identity tools host root compiler frontend manifest)) [
        | inr made ↦ made
        | inl e ↦
            elim (fits (toolchain_identity-Overflows host root compiler frontend manifest e)) [ ]
      ]
