-- ===== src/Hashes/Report/Sound.antt =====
-- What an include closure rests on, whichever way its paths were found.
use mathlib.Core.Path.{subst}
use elisa_lsp.Base.{
  true, false, Option, some, List, ◌++◌, ◌≡◌, ◌↔◌, ◌⊎◌, inl, inr, refl, arith, map, length, ℕ, All,
  Bool-cases,
}
use elisa_lsp.Base.Text.{codes, Text}
use elisa_lsp.Base.Bytes.{Bytes}
use elisa_lsp.Json.{Value}
use elisa_lsp.Hashes.Result.{
  Error, Result, ok, err, or_raise, or_raise-eq-ok, bind-eq-ok, Result-cases, compiler_unavailable,
}
use elisa_lsp.Hashes.Digest.{Record, has_duplicate, dependency_closure_sha256}
use elisa_lsp.Hashes.Files.{parts, join, Files, FilePath, joined, resolve_file}
use elisa_lsp.Hashes.Closure.{closure_records, as_value}
use elisa_lsp.Hashes.Closure.Sources.{IsSource, HasRecord, closure_records_exact}
use elisa_lsp.Hashes.Includes.{member, recursive_include_paths}
use elisa_lsp.Hashes.Includes.Traversal.{Reaches, recursive_include_paths_exact}
use elisa_lsp.Hashes.Report.{
  compiler_report_paths, conservative_source_paths, select_paths, or_conservative, Selected,
  compiler_emitted_deps_json, recursive_include_parser, conservative_source_tree,
  is_dependency_error, ClosureInfo, View, view_paths, compiler_include_closure, ok_or,
}

module _ (depth : ℕ) (files : Files) where
  -- The compiler's report gave the paths.
  abbrev pub FromReport : Result (List FilePath) → Selected → Type 0
  FromReport reported s = (s.0 ≡ compiler_emitted_deps_json) × (reported ≡ ok s.1)

  -- There was no report, and the paths are the files that the source includes, directly or not.
  abbrev pub FromParser : Result (List FilePath) → FilePath → Selected → Type 0
  FromParser reported source s =
      (s.0 ≡ recursive_include_parser)
      × (reported ≡ err compiler_unavailable)
      × (root : FilePath) × (resolve_file files source ≡ ok root)
      × ((q : FilePath) → (member q s.1 ≡ true) ↔ Reaches files root q)

  -- There was no report, the parser refused an include, and the paths are the whole source tree.
  abbrev pub FromTree : Result (List FilePath) → FilePath → List FilePath → Selected → Type 0
  FromTree reported source tree s =
      (s.0 ≡ conservative_source_tree)
      × (reported ≡ err compiler_unavailable)
      × (e : Error) × (recursive_include_paths files depth source ≡ err e)
      × (is_dependency_error e ≡ true)
      × (s.1 ≡ tree)

  -- Where the paths of a closure come from.
  abbrev pub Origin : Result (List FilePath) → FilePath → List FilePath → Selected → Type 0
  Origin reported source tree s =
      FromReport reported s ⊎ (FromParser reported source s ⊎ FromTree reported source tree s)

  refused-FromTree :
      (source : FilePath) (tree : List FilePath) (e : Error) (s : Selected)
      → recursive_include_paths files depth source ≡ err e
      → or_conservative (err e) tree ≡ ok s
      → FromTree (err compiler_unavailable) source tree s
  refused-FromTree source tree e s p h = elim (Bool-cases (is_dependency_error e)) [
    | inl d ↦
        let h' : ok (conservative_source_tree, tree) ≡ ok s = rw d at h in
        (cc h', refl, e, p, d, cc h')
    | inr d ↦ let h' : err e ≡ ok s = rw d at h in absurd (cc h')
  ]

  select_paths-Origin :
      (reported : Result (List FilePath)) (source : FilePath) (tree : List FilePath) (s : Selected)
      → select_paths reported (recursive_include_paths files depth source) tree ≡ ok s
      → Origin reported source tree s
  unfolding select_paths
  select_paths-Origin (ok paths) source tree s h = inl (ground arith, ground arith)
  select_paths-Origin (err compiler_unavailable) source tree s h =
      elim (Result-cases (recursive_include_paths files depth source)) [
        | inl (e, p) ↦ inr (inr (refused-FromTree source tree e s p (rw p at h)))
        | inr (paths, p) ↦
            let h' : ok (recursive_include_parser, paths) ≡ ok s = rw p at h in
            let mode : s.0 ≡ recursive_include_parser = cc h' in
            let same : paths ≡ s.1 = cc h' in
            let (root, resolves, exact) = recursive_include_paths_exact files depth source p in
            let Exact : List FilePath → Type 0 =
              λ ps. (q : FilePath) → (member q ps ≡ true) ↔ Reaches files root q in
            inr (inl (mode, refl, root, resolves, subst Exact same exact))
      ]
  select_paths-Origin (err e) source tree s h = cc

module _ (fs : Files) (loads : Bytes → Option Value) (stage : FilePath → FilePath → Option View)
    (depth : ℕ) (lsp_root compiler_root compiler_bin : FilePath) (entry : Text) where
  -- The compiler as it is resolved, or as it was given if that fails.
  abbrev pub IsCompiler : FilePath → Type 0
  IsCompiler path =
      (resolve_file fs compiler_bin ≡ ok path)
      ⊎ ((e : Error) × (resolve_file fs compiler_bin ≡ err e) × (path ≡ compiler_bin))

  -- What a closure that was made says of the view that is staged for the two resolved roots.
  pub record IsSound (info : ClosureInfo) : Type 0 where
    pub view : View
    pub lsp_resolved : FilePath
    pub compiler_resolved : FilePath
    pub is_lsp : fs.resolve lsp_root ≡ some lsp_resolved
    pub is_frontend : fs.resolve compiler_root ≡ some compiler_resolved
    pub staged : stage lsp_resolved compiler_resolved ≡ some view
    pub compiler_path : FilePath
    pub source_path : FilePath
    pub paths : List FilePath
    pub is_compiler : IsCompiler compiler_path
    pub is_entry : resolve_file view.files (joined view.source_view entry) ≡ ok source_path
    pub origin :
        Origin depth view.files
          (compiler_report_paths view.files loads (view.run compiler_path source_path) source_path)
          source_path
          (conservative_source_paths view.files view.source_view compiler_resolved)
          (info.mode, paths)
    pub sources : All (IsSource view.files view.source_view compiler_resolved paths) info.files
    pub complete : All (HasRecord view.files view.source_view compiler_resolved info.files) paths
    pub distinct : has_duplicate info.files ≡ false
    pub counted : info.file_count ≡ length info.files
    pub digest :
        dependency_closure_sha256 view.files.sha256 (map as_value info.files) ≡ ok info.sha256

  ok_or-IsCompiler : IsCompiler (ok_or (resolve_file fs compiler_bin) compiler_bin)
  ok_or-IsCompiler = elim (Result-cases (resolve_file fs compiler_bin)) [
    | inl (e, p) ↦ inr (e, p, rw p refl)
    | inr (path, p) ↦ inl (rw p refl)
  ]

  -- The last steps, in a view and for paths that are given.
  made-IsSound :
      (view : View) (l c cp source : FilePath) (selected : Selected) (records : List Record)
      (digest : Text) (info : ClosureInfo)
      → fs.resolve lsp_root ≡ some l
      → fs.resolve compiler_root ≡ some c
      → stage l c ≡ some view
      → IsCompiler cp
      → resolve_file view.files (joined view.source_view entry) ≡ ok source
      → view_paths fs loads stage depth view cp c source ≡ ok selected
      → closure_records view.files view.source_view c selected.1 ≡ ok records
      → dependency_closure_sha256 view.files.sha256 (map as_value records) ≡ ok digest
      → info ≡ record {
        mode = selected.0;
        root = codes "lsp/" ++ join (parts entry);
        file_count = length records;
        files = records;
        sha256 = digest;
      }
      → IsSound info
  unfolding view_paths
  made-IsSound view l c cp source selected records digest info r r' staged k e chosen made hashed
        same =
      let (sources, complete, distinct) =
        closure_records_exact view.files view.source_view c selected.1 made in
      rw same (record {
        view = view;
        lsp_resolved = l;
        compiler_resolved = c;
        is_lsp = r;
        is_frontend = r';
        staged = staged;
        is_compiler = k;
        compiler_path = cp;
        source_path = source;
        paths = selected.1;
        is_entry = e;
        origin = select_paths-Origin depth view.files _ source _ selected chosen;
        sources = sources;
        complete = complete;
        distinct = distinct;
        counted = refl;
        digest = hashed;
      })

  -- When a closure is made, it is made in the view that is staged for the resolved roots, from the
  -- entry that the view's file system resolves. Its paths are those of the compiler's report there; or
  -- the report is unavailable and they are exactly the files that the source includes, directly or by
  -- a chain, or, where the parser ends in a dependency error, the whole source tree: a report that is
  -- malformed or out of scope is never replaced. Each record is the hash of one of the paths, each
  -- path has a record, no logical path stands twice, the count is that of the records, and the digest
  -- is theirs.
  pub compiler_include_closure-IsSound :
      (info : ClosureInfo)
      → compiler_include_closure fs loads stage depth lsp_root compiler_root compiler_bin entry
        ≡ ok info
      → IsSound info
  unfolding compiler_include_closure
  compiler_include_closure-IsSound info h =
      let (l, r, h₁) = bind-eq-ok (or_raise (fs.resolve lsp_root) _) _ h in
      let (c, r', h₂) = bind-eq-ok (or_raise (fs.resolve compiler_root) _) _ h₁ in
      let (view, staged, h₃) = bind-eq-ok (or_raise (stage l c) _) _ h₂ in
      let (source, is_entry, h₄) =
        bind-eq-ok (resolve_file view.files (joined view.source_view entry)) _ h₃ in
      let (selected, chosen, h₅) =
        bind-eq-ok
          (view_paths fs loads stage depth view (ok_or (resolve_file fs compiler_bin) compiler_bin)
            c source)
          _ h₄ in
      let (records, made, h₆) =
        bind-eq-ok (closure_records view.files view.source_view c selected.1) _ h₅ in
      let (digest, hashed, h₇) =
        bind-eq-ok (dependency_closure_sha256 view.files.sha256 (map as_value records)) _ h₆ in
      made-IsSound view l c (ok_or (resolve_file fs compiler_bin) compiler_bin) source selected
        records digest info (or_raise-eq-ok _ _ r) (or_raise-eq-ok _ _ r')
        (or_raise-eq-ok _ _ staged) ok_or-IsCompiler is_entry chosen made hashed (ground arith)
