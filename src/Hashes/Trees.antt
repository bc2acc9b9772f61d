-- ===== src/Hashes/Trees.antt =====
-- The digests of whole source trees: `tree_digest`, `lsp_inputs_sha256`, `compiler_sources_sha256`
-- and `build_pipeline_sha256` of scripts/build_hashes.py.
pub mod Enumeration
use elisa_lsp.Base.{ℕ, Bool, true, false, not, List, [], ◌∷◌, ◌++◌, length, if◌then◌else◌}
use elisa_lsp.Base.Text.{Text, codes, contains}
use elisa_lsp.Base.Bytes.{Bytes, encode, to_bytes8, from_hex, to_hex}
use elisa_lsp.Base.Sort.{sort, lex_lt, text_lt}
use elisa_lsp.Hashes.Result.{
  Result, ok, err, ◌>>=◌, or_raise, unicode_error, overflow_error, value_error, os_error,
}
use elisa_lsp.Hashes.Files.{Files, FilePath, join, parts, relative_to, suffix, sha256_file}

abbrev pub elisa_suffixes : List Text
elisa_suffixes = codes ".elisa" ∷ codes ".elisai" ∷ []

abbrev pub lsp_suffixes : List Text
lsp_suffixes = codes ".elisa" ∷ codes ".elisai" ∷ codes ".c" ∷ codes ".h" ∷ []

abbrev pub build_pipeline_files : List Text
build_pipeline_files =
    codes "build.sh"
    ∷ codes "project.json"
    ∷ codes "scripts/build_hashes.py"
    ∷ codes "scripts/generate_diagnostic_codes.py"
    ∷ []

-- Paths are compared part by part.
abbrev pub path_lt : FilePath → FilePath → Bool
path_lt = lex_lt text_lt

unfoldable pub only_files : (FilePath → Bool) → List FilePath → List FilePath
only_files is_file [] = []
only_files is_file (p ∷ ps) =
    let rest = only_files is_file ps in if is_file p then p ∷ rest else rest

module _ (fs : Files) where
  -- What one named file adds to a digest: the length of the name, the name, and the content's hash.
  unfoldable pub entry_bytes : Text → FilePath → Result Bytes
  entry_bytes relative path = do
    encoded ← or_raise (encode relative) unicode_error
    size ← or_raise (to_bytes8 (length encoded)) overflow_error
    content_hash ← sha256_file fs path
    content ← or_raise (from_hex content_hash) value_error
    ok (size ++ (encoded ++ content))

  tree_entry : FilePath → FilePath → Result Bytes
  tree_entry root path = do
    relative ← or_raise (relative_to path root) value_error
    entry_bytes (join relative) path

  unfoldable pub tree_bytes : FilePath → List Text → List FilePath → Result Bytes
  unfolding tree_entry
  tree_bytes root suffixes [] = ok []
  tree_bytes root suffixes (path ∷ rest) =
      let skipped = tree_bytes root suffixes rest in
      let taken =
        tree_entry root path >>= λ b. tree_bytes root suffixes rest >>= λ bs. ok (b ++ bs) in
      if contains suffixes (suffix path) then taken else skipped

  unfoldable pub tree_digest : FilePath → List Text → Result Text
  tree_digest root suffixes = do
    bytes ← tree_bytes root suffixes (sort path_lt (only_files fs.is_file (fs.rglob root)))
    ok (to_hex (fs.sha256 bytes))

  abbrev pub under : FilePath → Text → FilePath
  under root relative = root ++ parts relative

  unfoldable pub lsp_inputs_sha256 : FilePath → Result Text
  lsp_inputs_sha256 root = do
    source_hash ← tree_digest (under root (codes "src")) lsp_suffixes
    project_hash ← sha256_file fs (under root (codes "project.json"))
    ok (to_hex (fs.sha256 (source_hash ++ project_hash)))

  unfoldable pub compiler_sources_sha256 : FilePath → Result Text
  compiler_sources_sha256 root = do
    source_hash ← tree_digest (under root (codes "src")) elisa_suffixes
    standard_library_hash ← tree_digest (under root (codes "elisacore_std")) elisa_suffixes
    sources ← or_raise (from_hex source_hash) value_error
    library ← or_raise (from_hex standard_library_hash) value_error
    ok (
        to_hex (
          fs.sha256 (
            (codes "compiler-src" ++ (0 ∷ sources))
            ++ (codes "compiler-elisacore_std" ++ (0 ∷ library)))))

  unfoldable pub pipeline_bytes : FilePath → List Text → Result Bytes
  pipeline_bytes root [] = ok []
  pipeline_bytes root (relative ∷ rest) = do
    b ← entry_bytes relative (under root relative)
    bs ← pipeline_bytes root rest
    ok (b ++ bs)

  unfoldable pub build_pipeline_sha256 : FilePath → Result Text
  build_pipeline_sha256 root = do
    bytes ← pipeline_bytes root build_pipeline_files
    ok (to_hex (fs.sha256 (codes "elisa-lsp-build-pipeline-v1" ++ (0 ∷ bytes))))
