-- ===== src/Hashes/Trees/Enumeration.antt =====
-- The digest of a tree does not depend on the order in which directories list their entries.
use mathlib.Core.Logic.{∥∥₁_elim}
use mathlib.Core.List.{Perm, Permᴰ}
use mathlib.Core.List.Permᴰ
use elisa_lsp.Base.{Bool, List, [], ◌∷◌, ◌≡◌, refl, Bool-cases, inl, inr}
use elisa_lsp.Base.Text.{Text}
use elisa_lsp.Base.Sort.{sort}
use elisa_lsp.Base.Sort.Laws.{IsOrder, lex_lt-IsOrder, text_lt-IsOrder, sort-Permᴰ}
use elisa_lsp.Hashes.Files.{Files, FilePath, sha256_file}
use elisa_lsp.Hashes.Trees.{entry_bytes, path_lt, only_files, tree_bytes, tree_digest}

path_lt-IsOrder : IsOrder path_lt
path_lt-IsOrder = lex_lt-IsOrder text_lt-IsOrder

only_files_swap :
    (is_file : FilePath → Bool) (p q : FilePath) (l : List FilePath)
    → Permᴰ (only_files is_file (p ∷ q ∷ l)) (only_files is_file (q ∷ p ∷ l))
unfolding only_files
only_files_swap is_file p q l = elim (Bool-cases (is_file p)) [
  | inl x ↦ elim (Bool-cases (is_file q)) [
    | inl y ↦ rw (x, y) (Permᴰ.swap refl refl)
    | inr y ↦ rw (x, y) (Permᴰ.refl (p ∷ only_files is_file l))
  ]
  | inr x ↦ elim (Bool-cases (is_file q)) [
    | inl y ↦ rw (x, y) (Permᴰ.refl (q ∷ only_files is_file l))
    | inr y ↦ rw (x, y) (Permᴰ.refl (only_files is_file l))
  ]
]

only_files-Permᴰ :
    (is_file : FilePath → Bool) {ps qs : List FilePath}
    → Permᴰ ps qs
    → Permᴰ (only_files is_file ps) (only_files is_file qs)
unfolding only_files
only_files-Permᴰ is_file Permᴰ.nil = Permᴰ.nil
only_files-Permᴰ is_file (Permᴰ.cons {a = p} {b = q} e h) = elim (Bool-cases (is_file p)) [
  | inl x ↦ rw (x, ← e, x) (Permᴰ.cons refl (only_files-Permᴰ is_file h))
  | inr x ↦ rw (x, ← e, x) (only_files-Permᴰ is_file h)
]
only_files-Permᴰ is_file (Permᴰ.swap {a = p} {b = q} {a' = q'} {b' = p'} {l = l} e e') =
    rw (← e, ← e') (only_files_swap is_file p q l)
only_files-Permᴰ is_file (Permᴰ.trans h k) =
    Permᴰ.trans (only_files-Permᴰ is_file h) (only_files-Permᴰ is_file k)

module _ (fs : Files) (listing : FilePath → List FilePath) where
  -- The same file system, whose directories list their entries in another order.
  abbrev pub relisted : Files
  relisted = record fs { rglob = listing }

  tree_bytes-relisted :
      (root : FilePath) (suffixes : List Text) (paths : List FilePath)
      → tree_bytes fs root suffixes paths ≡ tree_bytes relisted root suffixes paths
  unfolding tree_bytes entry_bytes sha256_file
  tree_bytes-relisted root suffixes [] = refl
  tree_bytes-relisted root suffixes (p ∷ ps) = rw (tree_bytes-relisted root suffixes ps)

  tree_digest-Permᴰ :
      (root : FilePath) (suffixes : List Text)
      → Permᴰ (fs.rglob root) (listing root)
      → tree_digest fs root suffixes ≡ tree_digest relisted root suffixes
  unfolding tree_digest
  tree_digest-Permᴰ root suffixes h = rw (
    sort-Permᴰ path_lt-IsOrder (only_files-Permᴰ fs.is_file h),
    tree_bytes-relisted root suffixes (sort path_lt (only_files fs.is_file (listing root))),
  )

  -- Two listings of a directory that hold the same paths, in whatever order, give the same digest of
  -- the tree, or the same error.
  pub tree_digest-perm :
      (root : FilePath) (suffixes : List Text)
      → Perm (fs.rglob root) (listing root)
      → tree_digest fs root suffixes ≡ tree_digest relisted root suffixes
  tree_digest-perm root suffixes h = ∥∥₁_elim h (hlevel) (tree_digest-Permᴰ root suffixes)
