-- ===== src/Hashes/Closure/Sources.antt =====
-- What `_closure_records` returns: the records of the given files, each logical path once.
use elisa_lsp.Base.{
  true, false, Option, none, some, List, [], ◌∷◌, ◌++◌, ◌≡◌, ◌∙◌, ◌⊎◌, refl, arith, All, inl, inr,
}
use elisa_lsp.Base.Text.{Text, equal_iff}
use elisa_lsp.Base.Sort.{sort}
use elisa_lsp.Hashes.Result.{ok, bind-eq-ok}
use elisa_lsp.Hashes.Digest.{Record, has_path, has_duplicate}
use elisa_lsp.Hashes.Files.{Files, FilePath, resolve_file, sha256_file}
use elisa_lsp.Hashes.Closure.Lists.{
  records_of, find-none, find-some, has_path-sort, has_duplicate-sort, sort-All, concat-All,
  has_path-concat, distinct_concat,
}
use elisa_lsp.Hashes.Closure.{
  Found, find, found_lt, logical_path, add_found, collect_step, collect, check_found,
  closure_records,
}

abbrev pub In : FilePath → List FilePath → Type 0
In p [] = ⊥
In p (q ∷ qs) = (p ≡ q) ⊎ In p qs

module _ (fs : Files) (lsp_root compiler_root : FilePath) where
  -- A record is made from one of the paths: its logical path, and the hash of the file's content.
  pub record IsSource (paths : List FilePath) (r : Record) : Type 0 where
    pub path : FilePath
    pub resolved : FilePath
    pub is_given : In path paths
    pub resolves : resolve_file fs path ≡ ok resolved
    pub is_named : logical_path fs lsp_root compiler_root resolved ≡ ok r.0
    pub is_hashed : sha256_file fs resolved ≡ ok r.1

  -- A path has a record: its logical path is among them.
  pub record HasRecord (rs : List Record) (path : FilePath) : Type 0 where
    pub logical : Text
    pub resolved : FilePath
    pub resolves : resolve_file fs path ≡ ok resolved
    pub is_named : logical_path fs lsp_root compiler_root resolved ≡ ok logical
    pub is_there : has_path logical rs ≡ true

  -- What one path does to the records.
  record Extends (paths : List FilePath) (path : FilePath) (old new : List Found) : Type 0 where
    sources : All (IsSource paths) (records_of new)
    distinct : has_duplicate (records_of new) ≡ false
    has : HasRecord (records_of new) path
    keeps : (l : Text) → has_path l (records_of old) ≡ true → has_path l (records_of new) ≡ true

  add_found-Extends :
      (paths : List FilePath) (path resolved : FilePath) (logical : Text) (old new : List Found)
      (seen : Option FilePath)
      → find logical old ≡ seen
      → In path paths
      → resolve_file fs path ≡ ok resolved
      → logical_path fs lsp_root compiler_root resolved ≡ ok logical
      → All (IsSource paths) (records_of old)
      → has_duplicate (records_of old) ≡ false
      → add_found fs lsp_root compiler_root old resolved logical seen ≡ ok new
      → Extends paths path old new
  unfolding add_found
  add_found-Extends paths path resolved logical old new (some p) e i r n a d h =
      let same : old ≡ new = ground arith in
      rw (← same) (record {
        sources = a;
        distinct = d;
        has = record {
          logical = logical;
          resolved = resolved;
          resolves = r;
          is_named = n;
          is_there = find-some logical old p e;
        };
        keeps = λ l k. k;
      })
  add_found-Extends paths path resolved logical old new none e i r n a d h =
      let (content, hashed, h₁) = bind-eq-ok (sha256_file fs resolved) _ h in
      let added : Found = record { logical = logical; resolved = resolved; content = content } in
      let same : old ++ (added ∷ []) ≡ new = cc in
      let absent = find-none logical old e in
      let there : has_path logical (records_of (old ++ (added ∷ []))) ≡ true =
        has_path-concat logical old added ∙ ground (arith, equal_iff logical logical) in
      rw (← same) (record {
        sources = concat-All (IsSource paths) old added a (record {
          path = path;
          resolved = resolved;
          is_given = i;
          resolves = r;
          is_named = n;
          is_hashed = hashed;
        });
        distinct = distinct_concat old added d absent;
        has = record {
          logical = logical;
          resolved = resolved;
          resolves = r;
          is_named = n;
          is_there = there;
        };
        keeps = λ l k. rw (has_path-concat l old added, k);
      })

  collect_step-Extends :
      (paths : List FilePath) (path : FilePath) (old new : List Found)
      → In path paths
      → All (IsSource paths) (records_of old)
      → has_duplicate (records_of old) ≡ false
      → collect_step fs lsp_root compiler_root old path ≡ ok new
      → Extends paths path old new
  unfolding collect_step
  collect_step-Extends paths path old new i a d h =
      let (resolved, r, h₁) = bind-eq-ok (resolve_file fs path) _ h in
      let (logical, named, h₂) =
        bind-eq-ok (logical_path fs lsp_root compiler_root resolved) _ h₁ in
      add_found-Extends paths path resolved logical old new (find logical old) refl i r named a d h₂

  -- What is there stays there, through the rest of the loop.
  All-HasRecord-keeps :
      (rs : List Record) (ss : List Record) (ps : List FilePath)
      → ((l : Text) → has_path l rs ≡ true → has_path l ss ≡ true)
      → All (HasRecord rs) ps
      → All (HasRecord ss) ps
  All-HasRecord-keeps rs ss [] k a = tt
  All-HasRecord-keeps rs ss (p ∷ ps) k a = (
    record {
      logical = a.0.logical;
      resolved = a.0.resolved;
      resolves = a.0.resolves;
      is_named = a.0.is_named;
      is_there = k a.0.logical a.0.is_there;
    },
    All-HasRecord-keeps rs ss ps k a.1,
  )

  record Collected (paths rest : List FilePath) (old out : List Found) : Type 0 where
    sources : All (IsSource paths) (records_of out)
    distinct : has_duplicate (records_of out) ≡ false
    has : All (HasRecord (records_of out)) rest
    keeps : (l : Text) → has_path l (records_of old) ≡ true → has_path l (records_of out) ≡ true

  collect-Collected :
      (paths rest : List FilePath) (old out : List Found)
      → All (λ p. In p paths) rest
      → All (IsSource paths) (records_of old)
      → has_duplicate (records_of old) ≡ false
      → collect fs lsp_root compiler_root old rest ≡ ok out
      → Collected paths rest old out
  unfolding collect
  collect-Collected paths [] old out i a d h =
      let same : old ≡ out = cc in
      rw (← same) (record { sources = a; distinct = d; has = tt; keeps = λ l k. k })
  collect-Collected paths (p ∷ ps) old out i a d h =
      let (mid, stepped, h₁) = bind-eq-ok (collect_step fs lsp_root compiler_root old p) _ h in
      let first = collect_step-Extends paths p old mid i.0 a d stepped in
      let later = collect-Collected paths ps mid out i.1 first.sources first.distinct h₁ in
      record {
        sources = later.sources;
        distinct = later.distinct;
        has = (
          record {
            logical = first.has.logical;
            resolved = first.has.resolved;
            resolves = first.has.resolves;
            is_named = first.has.is_named;
            is_there = later.keeps first.has.logical first.has.is_there;
          },
          later.has,
        );
        keeps = λ l k. later.keeps l (first.keeps l k);
      }

  In-All : (ps qs : List FilePath) → ((p : FilePath) → In p ps → In p qs) → All (λ p. In p qs) ps
  In-All [] qs f = tt
  In-All (p ∷ ps) qs f = (f p (inl refl), In-All ps qs (λ q i. f q (inr i)))

  check_found-sorted :
      (found : List Found) (out : List Record)
      → check_found fs lsp_root compiler_root found ≡ ok out
      → records_of (sort found_lt found) ≡ out
  check_found-sorted [] out h = cc
  check_found-sorted (f ∷ rest) out h = cc

  -- When the records of a list of paths are made, each is made from one of the paths (its logical
  -- path and its content's hash), each path has a record, and no logical path stands twice.
  pub closure_records_exact :
      (paths : List FilePath) {out : List Record}
      → closure_records fs lsp_root compiler_root paths ≡ ok out
      → All (IsSource paths) out × All (HasRecord out) paths × (has_duplicate out ≡ false)
  unfolding closure_records
  closure_records_exact paths {out} h =
      let (found, collected, checked) =
        bind-eq-ok (collect fs lsp_root compiler_root [] paths) _ h in
      let c =
        collect-Collected paths paths [] found (In-All paths paths (λ p i. i)) tt
          (unfold has_duplicate in refl) collected in
      let sorted = check_found-sorted found out checked in
      (
        rw sorted at (sort-All (IsSource paths) found c.sources),
        All-HasRecord-keeps (records_of found) out paths
            (λ l k. rw sorted at (has_path-sort l found ∙ k)) c.has,
        rw sorted at (has_duplicate-sort found ∙ c.distinct),
      )
