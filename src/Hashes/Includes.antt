-- ===== src/Hashes/Includes.antt =====
-- `_parser_include_paths` and `_recursive_include_paths` of scripts/build_hashes.py: the depth-first
-- traversal of the include graph.
pub mod Members
pub mod Traversal
pub mod Depth
use elisa_lsp.Base.{ℕ, zero, suc, Bool, true, false, ◌||◌, List, [], ◌∷◌, ◌++◌, if◌then◌else◌}
use elisa_lsp.Base.Text.{equal}
use elisa_lsp.Base.Bytes.{Bytes}
use elisa_lsp.Hashes.Result.{
  Result, ok, err, ◌>>=◌, or_raise, unreadable_source, empty_include, cyclic_include,
  recursion_error,
}
use elisa_lsp.Hashes.Files.{Files, FilePath, parent, joined, resolve_file}
use elisa_lsp.Hashes.Closure.{same_path}
use elisa_lsp.Hashes.Directives.{directives}

module _ (fs : Files) where
  unfoldable pub include_paths : FilePath → List Bytes → Result (List FilePath)
  include_paths source_path [] = ok []
  include_paths source_path (found ∷ rest) =
      let requested = fs.fsdecode found in
      let taken =
        include_paths source_path rest >>= λ ps. ok (joined (parent source_path) requested ∷ ps) in
      if equal requested [] then err empty_include else taken

  unfoldable pub parser_include_paths : FilePath → Result (List FilePath)
  parser_include_paths source_path = do
    source ← or_raise (fs.read source_path) unreadable_source
    include_paths source_path (directives source)

abbrev pub member : FilePath → List FilePath → Bool
member p [] = false
member p (q ∷ qs) = same_path p q || member p qs

-- `visit` of each child in turn, over the files seen so far.
unfoldable pub visit_all :
    (List FilePath → FilePath → Result (List FilePath))
    → List FilePath
    → List FilePath
    → Result (List FilePath)
visit_all visit ordered [] = ok ordered
visit_all visit ordered (p ∷ ps) = do ordered' ← visit ordered p; visit_all visit ordered' ps

module _ (fs : Files) where
  -- `seen` holds the files of `ordered`, so one list stands for both. The first argument is the
  -- recursive call.
  unfoldable pub visit_resolved :
      (List FilePath → List FilePath → FilePath → Result (List FilePath))
      → List FilePath
      → List FilePath
      → FilePath
      → Result (List FilePath)
  visit_resolved again active ordered resolved =
      if member resolved active
      then err cyclic_include
      else if member resolved ordered
      then ok ordered
      else (do
        children ← parser_include_paths fs resolved
        visit_all (again (active ++ (resolved ∷ []))) (ordered ++ (resolved ∷ [])) children)

  -- The first number is the depth that the interpreter's recursion limit leaves.
  unfoldable pub visit : ℕ → List FilePath → List FilePath → FilePath → Result (List FilePath)
  visit zero active ordered path = err recursion_error
  visit (suc depth) active ordered path = do
    resolved ← resolve_file fs path
    visit_resolved (visit depth) active ordered resolved

  unfoldable pub recursive_include_paths : ℕ → FilePath → Result (List FilePath)
  recursive_include_paths depth source_path = visit depth [] [] source_path
