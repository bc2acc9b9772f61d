-- ===== src/Hashes/Digest/Records.antt =====
-- The digest of `dependency_closure_sha256` does not depend on the order of the records.
use mathlib.Core.Logic.{∥∥₁_elim}
use mathlib.Core.List.{Perm, Permᴰ}
use mathlib.Core.List.Permᴰ
use elisa_lsp.Base.{List, ◌∷◌, ◌≡◌, refl}
use elisa_lsp.Base.Text.{Text}
use elisa_lsp.Base.Bytes.{Bytes}
use elisa_lsp.Json.{Value}
use elisa_lsp.Hashes.Result.{ok, bind-eq-ok}
use elisa_lsp.Hashes.Digest.{
  Record, normalize_record, normalize, record_lt, closure_records, closure_payload,
  dependency_closure_sha256,
}
use elisa_lsp.Base.Sort.Laws.{IsOrder, pair_lt-IsOrder, text_lt-IsOrder, sort-Permᴰ}

record_lt-IsOrder : IsOrder record_lt
record_lt-IsOrder = pair_lt-IsOrder text_lt-IsOrder text_lt-IsOrder

pub normalize_cons :
    (v : Value) (vs : List Value) {out : List Record}
    → normalize (v ∷ vs) ≡ ok out
    → (r : Record) × (rs : List Record) × (normalize_record v ≡ ok r)
      × (normalize vs ≡ ok rs)
      × (out ≡ r ∷ rs)
unfolding normalize
normalize_cons v vs e =
    let (r, p, e₁) = bind-eq-ok (normalize_record v) _ e in
    let (rs, q, e₂) = bind-eq-ok (normalize vs) _ e₁ in (r, rs, p, q, cc)

normalize_cons_intro :
    (v : Value) (vs : List Value) {r : Record} {rs : List Record}
    → normalize_record v ≡ ok r
    → normalize vs ≡ ok rs
    → normalize (v ∷ vs) ≡ ok (r ∷ rs)
unfolding normalize
normalize_cons_intro v vs p q = rw (p, q)

-- Values in another order are normalised to records that sort to the same list.
normalize-Permᴰ :
    {vs ws : List Value}
    → Permᴰ vs ws
    → (rs : List Record) → normalize vs ≡ ok rs
    → (ss : List Record) × (normalize ws ≡ ok ss) × Permᴰ rs ss
normalize-Permᴰ Permᴰ.nil rs h = (rs, h, Permᴰ.refl rs)
normalize-Permᴰ (Permᴰ.cons {a = v} {b = w} {l₁ = vs} {l₂ = ws} e p) rs h =
    let (r, ts, hv, hvs, he) = normalize_cons v vs h in
    let (us, hws, q) = normalize-Permᴰ p ts hvs in
    (r ∷ us, normalize_cons_intro w ws (rw e at hv) hws, rw he (Permᴰ.cons refl q))
normalize-Permᴰ (Permᴰ.swap {a = v} {b = w} {a' = v'} {b' = w'} {l = vs} e e') rs h =
    let (r, ts, hv, hts, he) = normalize_cons v (w ∷ vs) h in
    let (s, us, hw, hus, hf) = normalize_cons w vs hts in
    (
      s ∷ r ∷ us,
      normalize_cons_intro v' (w' ∷ vs) (rw e' at hw) (normalize_cons_intro w' vs (rw e at hv) hus),
      rw (he, hf) (Permᴰ.swap refl refl),
    )
normalize-Permᴰ (Permᴰ.trans p q) rs h =
    let (ss, hs, ps) = normalize-Permᴰ p rs h in
    let (ts, ht, pt) = normalize-Permᴰ q ss hs in (ts, ht, Permᴰ.trans ps pt)

closure_records-Permᴰ :
    {vs ws : List Value} {out : List Record}
    → Permᴰ vs ws
    → closure_records vs ≡ ok out
    → closure_records ws ≡ ok out
unfolding closure_records
closure_records-Permᴰ {vs} {ws} p h =
    let (rs, hr, checked) = bind-eq-ok (normalize vs) _ h in
    let (ss, hs, q) = normalize-Permᴰ p rs hr in rw (hs, ← sort-Permᴰ record_lt-IsOrder q) checked

closure_payload-eq_of_records :
    (vs ws : List Value) {payload : Bytes}
    → ((out : List Record) → closure_records vs ≡ ok out → closure_records ws ≡ ok out)
    → closure_payload vs ≡ ok payload
    → closure_payload ws ≡ ok payload
unfolding closure_payload
closure_payload-eq_of_records vs ws same h =
    let (rs, hr, rest) = bind-eq-ok (closure_records vs) _ h in rw (same rs hr) rest

-- A closure that has a digest has the same one when its records are given in any other order,
-- whatever the hash function.
pub dependency_closure_sha256-perm :
    (sha256 : Bytes → Bytes) (vs ws : List Value) {digest : Text}
    → Perm vs ws
    → dependency_closure_sha256 sha256 vs ≡ ok digest
    → dependency_closure_sha256 sha256 ws ≡ ok digest
unfolding dependency_closure_sha256
dependency_closure_sha256-perm sha256 vs ws p h =
    let (payload, hp, hashed) = bind-eq-ok (closure_payload vs) _ h in
    let moved : closure_payload ws ≡ ok payload =
      ∥∥₁_elim p (hlevel)
        (λ q. closure_payload-eq_of_records vs ws (λ out. closure_records-Permᴰ q) hp) in
    rw moved hashed
