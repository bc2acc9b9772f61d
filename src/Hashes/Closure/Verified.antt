-- ===== src/Hashes/Closure/Verified.antt =====
-- Re-hashing the recorded files against a source tree.
use elisa_lsp.Base.{true, List, [], ◌∷◌, ◌≡◌, ◌∙◌, refl, sym, ap, arith, map}
use elisa_lsp.Base.Text.{Text, codes, equal, equal_iff}
use elisa_lsp.Base.Bytes.{Bytes}
use elisa_lsp.Json.{Value, str, obj, get, is_text}
use elisa_lsp.Hashes.Result.{ok, or_raise, bind-eq-ok}
use elisa_lsp.Hashes.Digest.{
  Record, normalize_record, normalize, closure_records, closure_payload, dependency_closure_sha256,
}
use elisa_lsp.Hashes.Files.{Files, FilePath, resolve_file, sha256_file}
use elisa_lsp.Hashes.Closure.{
  as_value, logical_in, logical_of, locate, require_below, require_hash, refresh_record, refresh,
  dependency_closure_sha256_for_roots,
}

pub is_text_sound : (v : Value) (t : Text) → is_text v t ≡ true → v ≡ str t
unfolding is_text
is_text_sound (str u) t h = ap str ((equal_iff u t).0 h)
is_text_sound v t h = cc

require_hash_sound :
    (content : Text) (v : Value) → require_hash true content v ≡ ok tt → v ≡ str content
require_hash_sound content v h = is_text_sound v content (ground arith)

logical_in_sound :
    (v u : Value) (l : Text) (w : Value) → logical_in v u ≡ ok (l, w) → (v ≡ str l) × (u ≡ w)
logical_in_sound (str m) u l w h = ground arith
logical_in_sound v u l w h = cc

-- A record of text has the normal form that its two fields have.
normalize_record-as_value :
    (v : Value) (l h : Text)
    → logical_of v ≡ ok (l, str h)
    → normalize_record v ≡ normalize_record (as_value (l, h))
unfolding logical_of normalize_record
normalize_record-as_value (obj fields) l h e =
    let (path, content) =
      logical_in_sound (get fields (codes "path")) (get fields (codes "sha256")) l (str h) e in
    rw (path, content) (unfold get equal in refl)
normalize_record-as_value v l h e = cc

module _ (fs : Files) (lsp_root compiler_root : FilePath) where
  refresh_record-normal :
      (v : Value) (r : Record)
      → refresh_record fs lsp_root compiler_root true v ≡ ok r
      → normalize_record v ≡ normalize_record (as_value r)
  unfolding refresh_record
  refresh_record-normal v r e =
      let (named, p, e₁) = bind-eq-ok (logical_of v) _ e in
      let (located, _, e₂) = bind-eq-ok (locate lsp_root compiler_root named.0) _ e₁ in
      let (resolved, _, e₃) = bind-eq-ok (resolve_file fs located.1) _ e₂ in
      let (_, _, e₄) = bind-eq-ok (require_below resolved located.0) _ e₃ in
      let (content, _, e₅) = bind-eq-ok (sha256_file fs resolved) _ e₄ in
      let (_, checked, e₆) = bind-eq-ok (require_hash true content named.1) _ e₅ in
      let recorded = require_hash_sound content named.1 checked in
      let same : ok r ≡ ok (named.0, content) = sym e₆ in
      let normal =
        normalize_record-as_value v named.0 content (p ∙ ap (λ w. ok (named.0, w)) recorded) in
      cc (normal, same)

  refresh-normal :
      (vs : List Value) (rs : List Record)
      → refresh fs lsp_root compiler_root true vs ≡ ok rs
      → normalize vs ≡ normalize (map as_value rs)
  unfolding refresh normalize
  refresh-normal [] [] e = refl
  refresh-normal [] (r ∷ rs) e = cc
  refresh-normal (v ∷ vs) rs e =
      let (r, p, e₁) = bind-eq-ok (refresh_record fs lsp_root compiler_root true v) _ e in
      let (ts, q, e₂) = bind-eq-ok (refresh fs lsp_root compiler_root true vs) _ e₁ in
      let same : r ∷ ts ≡ rs = cc in
      rw (← same, refresh_record-normal v r p, refresh-normal vs ts q)

digest-eq_of_normal :
    (sha256 : Bytes → Bytes) (vs ws : List Value)
    → normalize vs ≡ normalize ws
    → dependency_closure_sha256 sha256 vs ≡ dependency_closure_sha256 sha256 ws
unfolding dependency_closure_sha256 closure_payload closure_records
digest-eq_of_normal sha256 vs ws e = rw e

-- When the records are checked against a source tree with their hashes verified, and a digest comes
-- out, it is the digest of the records as they were recorded.
pub dependency_closure_sha256_for_roots_verified :
    (fs : Files) (lsp_root compiler_root : FilePath) (records : List Value) {digest : Text}
    → dependency_closure_sha256_for_roots fs lsp_root compiler_root records true ≡ ok digest
    → dependency_closure_sha256 fs.sha256 records ≡ ok digest
unfolding dependency_closure_sha256_for_roots
dependency_closure_sha256_for_roots_verified fs lsp_root compiler_root records e =
    let (l, _, e₁) = bind-eq-ok (or_raise (fs.resolve lsp_root) _) _ e in
    let (c, _, e₂) = bind-eq-ok (or_raise (fs.resolve compiler_root) _) _ e₁ in
    let (rs, p, e₃) = bind-eq-ok (refresh fs l c true records) _ e₂ in
    digest-eq_of_normal fs.sha256 records (map as_value rs) (refresh-normal fs l c records rs p)
    ∙ e₃
