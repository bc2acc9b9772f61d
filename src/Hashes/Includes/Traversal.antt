-- ===== src/Hashes/Includes/Traversal.antt =====
-- What `_recursive_include_paths` returns: the files that the source includes, directly or not.
use elisa_lsp.Base.{
  ℕ, zero, suc, true, false, List, [], ◌∷◌, ◌++◌, ◌≡◌, ◌↔◌, refl, arith, All, Bool-cases, inl, inr,
}
use elisa_lsp.Hashes.Result.{Result, ok, bind-eq-ok}
use elisa_lsp.Hashes.Files.{Files, FilePath, resolve_file}
use elisa_lsp.Hashes.Closure.Sources.{In}
use elisa_lsp.Hashes.Includes.{
  parser_include_paths, member, visit_all, visit_resolved, visit, recursive_include_paths,
}
use elisa_lsp.Hashes.Includes.Members.{member-concat_self, member-concat_left, member-concat_new}

module _ (fs : Files) where
  -- The path stands for a file of the list.
  pub record Found (files : List FilePath) (path : FilePath) : Type 0 where
    pub resolved : FilePath
    pub resolves : resolve_file fs path ≡ ok resolved
    pub is_there : member resolved files ≡ true

  -- All that a file includes is in the list.
  pub record IsClosed (files : List FilePath) (p : FilePath) : Type 0 where
    pub children : List FilePath
    pub includes : parser_include_paths fs p ≡ ok children
    pub found : All (Found files) children

  -- A file includes another by a chain of directives.
  pub data Reaches (p : FilePath) : FilePath → Type 0 where
    here : Reaches p p
    next :
        {q : FilePath} (c r : FilePath) (children : List FilePath)
        → Reaches p q
        → parser_include_paths fs q ≡ ok children
        → In c children
        → resolve_file fs c ≡ ok r
        → Reaches p r

  -- One of the paths stands for a file that includes `q`, directly or not.
  record IsBelow (paths : List FilePath) (q : FilePath) : Type 0 where
    path : FilePath
    resolved : FilePath
    is_given : In path paths
    resolves : resolve_file fs path ≡ ok resolved
    reaches : Reaches resolved q

  Reaches-cons :
      (p c r : FilePath) (children : List FilePath) {q : FilePath}
      → parser_include_paths fs p ≡ ok children
      → In c children
      → resolve_file fs c ≡ ok r
      → Reaches r q
      → Reaches p q
  Reaches-cons p c r children h i e here = next c r children here h i e
  Reaches-cons p c r children h i e (next c' r' children' reach h' i' e') =
      next c' r' children' (Reaches-cons p c r children h i e reach) h' i' e'

  IsBelow-cons : (p q : FilePath) (ps : List FilePath) → IsBelow ps q → IsBelow (p ∷ ps) q
  IsBelow-cons p q ps b = record {
    path = b.path;
    resolved = b.resolved;
    is_given = inr b.is_given;
    resolves = b.resolves;
    reaches = b.reaches;
  }

  IsBelow-head : (p q : FilePath) (ps : List FilePath) → IsBelow (p ∷ []) q → IsBelow (p ∷ ps) q
  IsBelow-head p q ps b = record {
    path = b.path;
    resolved = b.resolved;
    is_given = elim b.is_given [ inl e ↦ inl e | inr i ↦ absurd i ];
    resolves = b.resolves;
    reaches = b.reaches;
  }

  All-Found-mono :
      (files more : List FilePath)
      → ((q : FilePath) → member q files ≡ true → member q more ≡ true)
      → (ps : List FilePath) → All (Found files) ps
      → All (Found more) ps
  All-Found-mono files more k [] a = tt
  All-Found-mono files more k (p ∷ ps) a = (
    record {
      resolved = a.0.resolved;
      resolves = a.0.resolves;
      is_there = k a.0.resolved a.0.is_there;
    },
    All-Found-mono files more k ps a.1,
  )

  -- What a call of `visit`, or a run over several paths, does to the list of files.
  record Grows (paths : List FilePath) (old new : List FilePath) : Type 0 where
    keeps : (q : FilePath) → member q old ≡ true → member q new ≡ true
    found : All (Found new) paths
    closed : (q : FilePath) → member q new ≡ true → member q old ≡ false → IsClosed new q
    below : (q : FilePath) → member q new ≡ true → member q old ≡ false → IsBelow paths q

  Grows-trans :
      {old mid new : List FilePath} (p : FilePath) (ps : List FilePath)
      → Grows (p ∷ []) old mid
      → Grows ps mid new
      → Grows (p ∷ ps) old new
  Grows-trans {old} {mid} {new} p ps g h = record {
    keeps = λ q m. h.keeps q (g.keeps q m);
    found = ((All-Found-mono mid new h.keeps (p ∷ []) g.found).0, h.found);
    closed = λ q m n. elim (Bool-cases (member q mid)) [
      | inl x ↦
          let c = g.closed q x n in
          record {
            children = c.children;
            includes = c.includes;
            found = All-Found-mono mid new h.keeps c.children c.found;
          }
      | inr x ↦ h.closed q m x
    ];
    below = λ q m n. elim (Bool-cases (member q mid)) [
      | inl x ↦ IsBelow-head p q ps (g.below q x n)
      | inr x ↦ IsBelow-cons p q ps (h.below q m x)
    ];
  }

  Grows-nil : (files : List FilePath) → Grows [] files files
  Grows-nil files = record {
    keeps = λ q m. m;
    found = tt;
    closed = λ q m n. cc;
    below = λ q m n. cc;
  }

  visit_all-Grows :
      (again : List FilePath → FilePath → Result (List FilePath))
      → ((old new : List FilePath) (p : FilePath) → again old p ≡ ok new → Grows (p ∷ []) old new)
      → (ps old new : List FilePath) → visit_all again old ps ≡ ok new
      → Grows ps old new
  unfolding visit_all
  visit_all-Grows again step [] old new h = let same : old ≡ new = cc in rw (← same) (Grows-nil old)
  visit_all-Grows again step (p ∷ ps) old new h =
      let (mid, first, later) = bind-eq-ok (again old p) _ h in
      Grows-trans p ps (step old mid p first) (visit_all-Grows again step ps mid new later)

  -- The file itself and then its includes.
  Grows-enter :
      (path resolved : FilePath) (children old new : List FilePath)
      → resolve_file fs path ≡ ok resolved
      → parser_include_paths fs resolved ≡ ok children
      → Grows children (old ++ (resolved ∷ [])) new
      → Grows (path ∷ []) old new
  Grows-enter path resolved children old new r c g = record {
    keeps = λ q m. g.keeps q (member-concat_left q resolved old m);
    found = (
      record {
        resolved = resolved;
        resolves = r;
        is_there = g.keeps resolved (member-concat_self resolved old);
      },
      tt,
    );
    closed = λ q m n. elim (Bool-cases (member q (old ++ (resolved ∷ [])))) [
      | inl x ↦
          rw (member-concat_new q resolved old x n)
            (record { children = children; includes = c; found = g.found })
      | inr x ↦ g.closed q m x
    ];
    below = λ q m n. record {
      path = path;
      resolved = resolved;
      is_given = inl refl;
      resolves = r;
      reaches = elim (Bool-cases (member q (old ++ (resolved ∷ [])))) [
        | inl x ↦ rw (member-concat_new q resolved old x n) here
        | inr x ↦
            let b = g.below q m x in
            Reaches-cons resolved b.path b.resolved children c b.is_given b.resolves b.reaches
      ];
    };
  }

  visit_resolved-Grows :
      (again : List FilePath → List FilePath → FilePath → Result (List FilePath))
      → ((active old new : List FilePath) (p : FilePath)
          → again active old p ≡ ok new
          → Grows (p ∷ []) old new)
      → (active old new : List FilePath) (path resolved : FilePath)
      → resolve_file fs path ≡ ok resolved
      → visit_resolved fs again active old resolved ≡ ok new
      → Grows (path ∷ []) old new
  unfolding visit_resolved
  visit_resolved-Grows again step active old new path resolved r h =
      elim (Bool-cases (member resolved active)) [
        | inl cyclic ↦ absurd (ground arith)
        | inr x ↦ elim (Bool-cases (member resolved old)) [
          | inl seen ↦
              let same : old ≡ new = ground arith in
              rw (← same) (record {
                keeps = λ q m. m;
                found = (record { resolved = resolved; resolves = r; is_there = seen }, tt);
                closed = λ q m n. cc;
                below = λ q m n. cc;
              })
          | inr fresh ↦
              let entered = rw (x, fresh) at h in
              let (children, c, rest) = bind-eq-ok (parser_include_paths fs resolved) _ entered in
              Grows-enter path resolved children old new r c (
                visit_all-Grows (again (active ++ (resolved ∷ [])))
                  (step (active ++ (resolved ∷ []))) children (old ++ (resolved ∷ [])) new rest)
        ]
      ]

  visit-Grows :
      (depth : ℕ) (active old new : List FilePath) (path : FilePath)
      → visit fs depth active old path ≡ ok new
      → Grows (path ∷ []) old new
  unfolding visit
  visit-Grows zero active old new path h = cc
  visit-Grows (suc depth) active old new path h =
      let (resolved, r, rest) = bind-eq-ok (resolve_file fs path) _ h in
      visit_resolved-Grows (visit fs depth) (visit-Grows depth) active old new path resolved r rest

  In-Found :
      (files ps : List FilePath) (c r : FilePath)
      → All (Found files) ps
      → In c ps
      → resolve_file fs c ≡ ok r
      → member r files ≡ true
  In-Found files [] c r a i e = absurd i
  In-Found files (p ∷ ps) c r a (inl same) e =
      let f = a.0 in
      let resolved : f.resolved ≡ r = cc (f.resolves, e, same) in rw resolved at f.is_there
  In-Found files (p ∷ ps) c r a (inr i) e = In-Found files ps c r a.1 i e

  member-Reaches :
      (p : FilePath) (files : List FilePath) {q : FilePath}
      → member p files ≡ true
      → ((x : FilePath) → member x files ≡ true → IsClosed files x)
      → Reaches p q
      → member q files ≡ true
  member-Reaches p files m closed here = m
  member-Reaches p files m closed (next {q = x} c r children reach h i e) =
      let k = closed x (member-Reaches p files m closed reach) in
      let same : k.children ≡ children = cc (k.includes, h) in
      In-Found files children c r (rw same at k.found) i e

  -- When the traversal returns a list, the source resolves to a file, and the list holds exactly the
  -- files that this file includes, directly or by a chain of includes, itself among them.
  pub recursive_include_paths_exact :
      (depth : ℕ) (source_path : FilePath) {out : List FilePath}
      → recursive_include_paths fs depth source_path ≡ ok out
      → (root : FilePath) × (resolve_file fs source_path ≡ ok root)
        × ((q : FilePath) → (member q out ≡ true) ↔ Reaches root q)
  unfolding recursive_include_paths
  recursive_include_paths_exact depth source_path {out} h =
      let g = visit-Grows depth [] [] out source_path h in
      let root = g.found.0 in
      (
        root.resolved,
        root.resolves,
        λ q. (
          λ m.
              let b = g.below q m refl in
              elim b.is_given [
                | inl same ↦
                    let file : b.resolved ≡ root.resolved = cc (b.resolves, root.resolves, same) in
                    rw file at b.reaches
                | inr i ↦ absurd i
              ],
          λ reach. member-Reaches root.resolved out root.is_there (λ x m. g.closed x m refl) reach,
        ),
      )
