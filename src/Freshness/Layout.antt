-- ===== src/Freshness/Layout.antt =====
-- Where the snapshot of an accepted build stands: what the layout checks of `verify_source_snapshot` of
-- scripts/check_build_freshness.py leave.
use mathlib.Core.Path.{subst}
use mathlib.Core.List.{append_assoc}
use elisa_lsp.Base.{
  ℕ, Bool, true, false, ◌&&◌, some, [], ◌∷◌, ◌++◌, ◌≡◌, refl, sym, ap, ◌∙◌, inl, inr, arith,
  Bool-cases,
}
use elisa_lsp.Base.Text.{Text, codes, equal, equal_iff}
use elisa_lsp.Json.{Value, str, Fields, end, field, get, get_or, as_text}
use elisa_lsp.Hashes.Files.{FilePath, parts, parent, name, is_absolute}
use elisa_lsp.Hashes.Closure.{same_path}
use elisa_lsp.Hashes.Includes.Members.{same_path_sound}
use elisa_lsp.Freshness.Verdict.{
  accept, accept-injective, require, require_some, bind-eq-accept, require-eq-accept,
  require_some-eq-accept, no_snapshot, relative_snapshot, snapshot_unresolved, snapshot_symlink,
  snapshot_outside, snapshot_layout, snapshot_name, staged_compiler_path,
}
use elisa_lsp.Freshness.Snapshot.{Disk, Roots, check_layout, expected_name, is_below}

as_text_sound : (v : Value) (t : Text) → as_text v ≡ some t → v ≡ str t
as_text_sound (str u) t h = ground arith
as_text_sound v t h = cc

get_or-eq_str :
    (fields : Fields) (key t : Text) (default : Value)
    → get fields key ≡ str t
    → get_or fields key default ≡ str t
unfolding get get_or
get_or-eq_str end key t default h = cc
get_or-eq_str (field k v rest) key t default h = elim (Bool-cases (equal k key)) [
  | inl e ↦ let h' : v ≡ str t = rw e at h in rw e h'
  | inr e ↦ let h' : get rest key ≡ str t = rw e at h in rw e (get_or-eq_str rest key t default h')
]

and-eq-true : (a b : Bool) → (a && b) ≡ true → (a ≡ true) × (b ≡ true)
and-eq-true true b h = (refl, h)
and-eq-true false b h = cc

-- A path that has a name is its parent and the name.
parent-append-name :
    (path : FilePath) (c : ℕ) (cs : Text)
    → name path ≡ c ∷ cs
    → path ≡ parent path ++ (name path ∷ [])
unfolding parent name
parent-append-name [] c cs h = cc
parent-append-name (p ∷ []) c cs h = refl
parent-append-name (p ∷ q ∷ rest) c cs h =
    ap (λ (r : FilePath). p ∷ r) (parent-append-name (q ∷ rest) c cs h)

-- The last two parts of a path that has two names.
two_below :
    (path above : FilePath) {c d : ℕ} {cs ds : Text}
    → parent (parent path) ≡ above
    → name (parent path) ≡ c ∷ cs
    → name path ≡ d ∷ ds
    → path ≡ above ++ ((c ∷ cs) ∷ (d ∷ ds) ∷ [])
two_below path above {c} {d} {cs} {ds} e f g =
    parent-append-name path d ds g
    ∙ ap (λ (r : FilePath). r ++ (name path ∷ [])) (parent-append-name (parent path) c cs f)
    ∙ rw (e, f, g) (append_assoc above ((c ∷ cs) ∷ []) ((d ∷ ds) ∷ []))

module _ (disk : Disk) (manifest : Fields) where
  -- The snapshot and the staged compiler that the manifest names: absolute paths without links, the
  -- snapshot below the build directory of the root, in a directory whose name holds the two recorded
  -- digests, and the compiler below the snapshot.
  pub record IsLaidOut (root : FilePath) (lsp_hash compiler_hash : Text)
      (snapshot compiler : FilePath) : Type 0 where
    pub snapshot_text : Text
    pub compiler_text : Text
    pub build : FilePath
    pub names_snapshot : get manifest (codes "source_snapshot_root") ≡ str snapshot_text
    pub names_compiler : get manifest (codes "staged_compiler_root") ≡ str compiler_text
    pub are_absolute : (is_absolute snapshot_text && is_absolute compiler_text) ≡ true
    pub is_snapshot : parts snapshot_text ≡ snapshot
    pub is_compiler : parts compiler_text ≡ compiler
    pub snapshot_resolved : disk.files.resolve snapshot ≡ some snapshot
    pub compiler_resolved : disk.files.resolve compiler ≡ some compiler
    pub is_build : disk.files.resolve (root ++ (codes "build" ∷ [])) ≡ some build
    pub in_build :
        snapshot
        ≡ build
          ++ ((codes ".elisa-lsp-source-v1." ++ (lsp_hash ++ (codes "." ++ compiler_hash)))
              ∷ codes "source"
              ∷ [])
    pub in_snapshot : compiler ≡ snapshot ++ (codes "Elisa-compiler" ∷ [])

  expected_name-eq :
      (lsp_hash compiler_hash : Text)
      → get manifest (codes "lsp_inputs_sha256") ≡ str lsp_hash
      → get manifest (codes "compiler_sources_sha256") ≡ str compiler_hash
      → expected_name disk manifest
        ≡ codes ".elisa-lsp-source-v1." ++ (lsp_hash ++ (codes "." ++ compiler_hash))
  expected_name-eq lsp_hash compiler_hash e f = rw (
    get_or-eq_str manifest (codes "lsp_inputs_sha256") lsp_hash (str []) e,
    get_or-eq_str manifest (codes "compiler_sources_sha256") compiler_hash (str []) f,
  )

  pub check_layout-IsLaidOut :
      (root : FilePath) (lsp_hash compiler_hash : Text) (roots : Roots)
      → get manifest (codes "lsp_inputs_sha256") ≡ str lsp_hash
      → get manifest (codes "compiler_sources_sha256") ≡ str compiler_hash
      → check_layout disk manifest root ≡ accept roots
      → IsLaidOut root lsp_hash compiler_hash roots.0 roots.1
  unfolding check_layout
  check_layout-IsLaidOut root lsp_hash compiler_hash roots e f h =
      let (s, a, h₁) =
        bind-eq-accept
          (require_some (as_text (get manifest (codes "source_snapshot_root"))) no_snapshot) _ h in
      let (c, b, h₂) =
        bind-eq-accept
          (require_some (as_text (get manifest (codes "staged_compiler_root"))) no_snapshot) _ h₁ in
      let (_, absolute, h₃) =
        bind-eq-accept (require (is_absolute s && is_absolute c) relative_snapshot) _ h₂ in
      let (snapshot, r, h₄) =
        bind-eq-accept (require_some (disk.files.resolve (parts s)) snapshot_unresolved) _ h₃ in
      let (compiler, r', h₅) =
        bind-eq-accept (require_some (disk.files.resolve (parts c)) snapshot_unresolved) _ h₄ in
      let (build, is_build, h₆) =
        bind-eq-accept
          (require_some (disk.files.resolve (root ++ (codes "build" ∷ []))) snapshot_unresolved) _
          h₅ in
      let (_, same, h₇) =
        bind-eq-accept
          (require (same_path (parts s) snapshot && same_path (parts c) compiler) snapshot_symlink)
          _ h₆ in
      let (_, _, h₈) = bind-eq-accept (require (is_below snapshot build) snapshot_outside) _ h₇ in
      let (_, layout, h₉) =
        bind-eq-accept
          (require
            (same_path (parent (parent snapshot)) build && equal (name snapshot) (codes "source"))
            snapshot_layout)
          _ h₈ in
      let (_, named, h₁₀) =
        bind-eq-accept
          (require (equal (name (parent snapshot)) (expected_name disk manifest)) snapshot_name) _
          h₉ in
      let (_, staged, h₁₁) =
        bind-eq-accept
          (require (same_path compiler (snapshot ++ (codes "Elisa-compiler" ∷ [])))
            staged_compiler_path)
          _ h₁₀ in
      let both = and-eq-true _ _ (require-eq-accept _ _ same) in
      let places = and-eq-true _ _ (require-eq-accept _ _ layout) in
      let p : parts s ≡ snapshot = same_path_sound _ _ both.0 in
      let q : parts c ≡ compiler = same_path_sound _ _ both.1 in
      let named' = (equal_iff _ _).0 (require-eq-accept _ _ named) in
      let in_build =
        two_below snapshot _ (same_path_sound _ _ places.0)
          (named' ∙ expected_name-eq lsp_hash compiler_hash e f) ((equal_iff _ _).0 places.1) in
      let made : IsLaidOut root lsp_hash compiler_hash snapshot compiler = record {
        snapshot_text = s;
        compiler_text = c;
        build = build;
        names_snapshot = as_text_sound _ _ (require_some-eq-accept _ _ a);
        names_compiler = as_text_sound _ _ (require_some-eq-accept _ _ b);
        are_absolute = require-eq-accept _ _ absolute;
        is_snapshot = p;
        is_compiler = q;
        snapshot_resolved = ap disk.files.resolve (sym p) ∙ require_some-eq-accept _ _ r;
        compiler_resolved = ap disk.files.resolve (sym q) ∙ require_some-eq-accept _ _ r';
        is_build = require_some-eq-accept _ _ is_build;
        in_build = in_build;
        in_snapshot = same_path_sound _ _ (require-eq-accept _ _ staged);
      } in
      let found = accept-injective (snapshot, compiler) roots h₁₁ in
      subst (λ (t : Roots). IsLaidOut root lsp_hash compiler_hash t.0 t.1) found made
