-- ===== src/Hashes/Includes/Depth.antt =====
-- How deep the traversal of `_recursive_include_paths` goes.
use elisa_lsp.Base.{
  ℕ, zero, suc, ◌+◌, ◌≤◌, ◌<◌, Bool, true, false, ◌&&◌, List, [], ◌∷◌, ◌++◌, ◌≡◌, ◌≢◌, ◌∙◌, refl,
  sym, arith, length, length-append, Bool-cases, inl, inr, if◌then◌else◌, not,
}
use elisa_lsp.Base.Bytes.{Bytes}
use elisa_lsp.Hashes.Result.{Result, ok, err, ◌>>=◌, recursion_error, unreadable_source, or_raise}
use elisa_lsp.Hashes.Files.{Files, FilePath, resolve_file}
use elisa_lsp.Hashes.Closure.{same_path}
use elisa_lsp.Hashes.Directives.{directives}
use elisa_lsp.Hashes.Includes.{
  include_paths, parser_include_paths, member, visit_all, visit_resolved, visit,
  recursive_include_paths,
}
use elisa_lsp.Hashes.Includes.Members.{same_path_sound, same_path_refl, member-append}

-- The call stays within the recursion limit.
abbrev Fits : Result (List FilePath) → Type 0
Fits r = r ≢ err recursion_error

bind-Fits {ℓ} :
    {A : Type ℓ} (m : Result A) (f : A → Result (List FilePath))
    → m ≢ err recursion_error
    → ((a : A) → m ≡ ok a → Fits (f a))
    → Fits (m >>= f)
bind-Fits (ok a) f h k = k a refl
bind-Fits (err e) f h k = λ x. h (ground arith)

erase : FilePath → List FilePath → List FilePath
erase p [] = []
erase p (q ∷ qs) = let rest = erase p qs in if same_path p q then rest else q ∷ rest

erase-length : (p : FilePath) (qs : List FilePath) → length (erase p qs) ≤ length qs
unfolding erase
erase-length p [] = omega arith
erase-length p (q ∷ qs) = ground (arith, erase-length p qs)

erase-lt :
    (p : FilePath) (qs : List FilePath) → member p qs ≡ true → length (erase p qs) < length qs
unfolding erase
erase-lt p [] h = cc
erase-lt p (q ∷ qs) h = ground (arith, erase-lt p qs, erase-length p qs)

member-erase :
    (x p : FilePath) (qs : List FilePath)
    → member x qs ≡ true
    → same_path p x ≡ false
    → member x (erase p qs) ≡ true
unfolding erase
member-erase x p [] h n = cc
member-erase x p (q ∷ qs) h n = elim (Bool-cases (same_path p q)) [
  | inl e ↦ rw e (
      member-erase x p qs
        (elim (Bool-cases (same_path x q)) [
          | inl f ↦ absurd (
              let a = same_path_sound p q e in
              let b = same_path_sound x q f in
              let s : p ≡ x = a ∙ sym b in
              let t : same_path p x ≡ true = rw s (same_path_refl x) in cc)
          | inr f ↦ ground arith
        ])
        n)
  | inr e ↦ rw e (ground (arith, member-erase x p qs))
]

-- No file stands twice.
is_distinct : List FilePath → Bool
is_distinct [] = true
is_distinct (p ∷ ps) = not (member p ps) && is_distinct ps

abbrev AllIn : List FilePath → List FilePath → Type 0
AllIn files [] = Unit
AllIn files (p ∷ ps) = (member p files ≡ true) × AllIn files ps

AllIn-erase :
    (files ps : List FilePath) (p : FilePath)
    → AllIn files ps
    → member p ps ≡ false
    → AllIn (erase p files) ps
AllIn-erase files [] p a h = tt
AllIn-erase files (q ∷ ps) p a h =
    (member-erase q p files a.0 (ground arith), AllIn-erase files ps p a.1 (ground arith))

-- Different files of a list are no more than its items.
distinct-length :
    (ps files : List FilePath) → is_distinct ps ≡ true → AllIn files ps → length ps ≤ length files
unfolding is_distinct
distinct-length [] files d a = omega arith
distinct-length (p ∷ ps) files d a =
    let fewer = erase-lt p files a.0 in
    let inner = AllIn-erase files ps p a.1 (ground arith) in
    omega (arith, distinct-length ps (erase p files) (ground arith) inner)

is_distinct-concat :
    (ps : List FilePath) (p : FilePath)
    → is_distinct ps ≡ true
    → member p ps ≡ false
    → is_distinct (ps ++ (p ∷ [])) ≡ true
unfolding is_distinct
is_distinct-concat [] p d h = refl
is_distinct-concat (q ∷ ps) p d h = elim (Bool-cases (same_path q p)) [
  | inl e ↦ absurd (
      let s = same_path_sound q p e in
      let t : same_path p q ≡ true = rw s (same_path_refl p) in ground arith)
  | inr e ↦ ground (arith, is_distinct-concat ps p, member-append q ps (p ∷ []))
]

AllIn-concat :
    (files ps : List FilePath) (p : FilePath)
    → AllIn files ps
    → member p files ≡ true
    → AllIn files (ps ++ (p ∷ []))
AllIn-concat files [] p a h = (h, tt)
AllIn-concat files (q ∷ ps) p a h = (a.0, AllIn-concat files ps p a.1 h)

visit_all-Fits :
    (again : List FilePath → FilePath → Result (List FilePath))
    → ((old : List FilePath) (p : FilePath) → Fits (again old p))
    → (old ps : List FilePath) → Fits (visit_all again old ps)
unfolding visit_all
visit_all-Fits again step old [] = λ e. cc
visit_all-Fits again step old (p ∷ ps) =
    bind-Fits (again old p) _ (step old p) (λ mid e. visit_all-Fits again step mid ps)

module _ (fs : Files) where
  resolve_file-ne : (p : FilePath) → resolve_file fs p ≢ err recursion_error
  unfolding resolve_file
  resolve_file-ne p e = ground arith

  include_paths-ne :
      (p : FilePath) (found : List Bytes) → include_paths fs p found ≢ err recursion_error
  unfolding include_paths
  include_paths-ne p [] e = cc
  include_paths-ne p (b ∷ bs) e = ground (arith, include_paths-ne p bs)

  parser_include_paths-ne : (p : FilePath) → parser_include_paths fs p ≢ err recursion_error
  unfolding parser_include_paths
  parser_include_paths-ne p =
      bind-Fits (or_raise (fs.read p) unreadable_source) _ (λ e. ground arith)
        (λ source e. include_paths-ne p (directives source))

  visit_resolved-Fits :
      (again : List FilePath → List FilePath → FilePath → Result (List FilePath))
      (active old : List FilePath) (resolved : FilePath)
      → (member resolved active ≡ false
          → (files : List FilePath) (p : FilePath)
          → Fits (again (active ++ (resolved ∷ [])) files p))
      → Fits (visit_resolved fs again active old resolved)
  unfolding visit_resolved
  visit_resolved-Fits again active old resolved step = elim (Bool-cases (member resolved active)) [
    | inl cyclic ↦ rw cyclic (λ e. cc)
    | inr x ↦ elim (Bool-cases (member resolved old)) [
      | inl seen ↦ rw (x, seen) (λ e. cc)
      | inr fresh ↦
          rw (x, fresh)
            (bind-Fits (parser_include_paths fs resolved) _ (parser_include_paths-ne resolved)
              (λ children e.
                visit_all-Fits (again (active ++ (resolved ∷ []))) (step x) (old ++ (resolved ∷ []))
                  children))
    ]
  ]

  -- `files` holds every file to which a path resolves.
  module _ (files : List FilePath)
      (finite : (p q : FilePath) → resolve_file fs p ≡ ok q → member q files ≡ true) where
    visit-Fits :
        (depth : ℕ) (active old : List FilePath) (path : FilePath)
        → is_distinct active ≡ true
        → AllIn files active
        → length files < depth + length active
        → Fits (visit fs depth active old path)
    unfolding visit
    visit-Fits zero active old path d a h = absurd (omega (arith, distinct-length active files d a))
    visit-Fits (suc depth) active old path d a h =
        bind-Fits (resolve_file fs path) _ (resolve_file-ne path) (λ resolved r.
          visit_resolved-Fits (visit fs depth) active old resolved (λ new seen p.
            visit-Fits depth (active ++ (resolved ∷ [])) seen p
              (is_distinct-concat active resolved d new)
              (AllIn-concat files active resolved a (finite path resolved r))
              (omega (arith, h, length-append active (resolved ∷ [])))))

    -- If every path resolves, when it does, to one of a list of files, a recursion depth above the
    -- length of the list is enough: the traversal never fails for want of depth, whatever cycles the
    -- includes form.
    pub recursive_include_paths-ne_recursion_error :
        (depth : ℕ) (source_path : FilePath)
        → length files < depth
        → recursive_include_paths fs depth source_path ≢ err recursion_error
    unfolding recursive_include_paths
    recursive_include_paths-ne_recursion_error depth source_path h =
        visit-Fits depth [] [] source_path (unfold is_distinct in refl) tt (omega arith)
