-- ===== src/Hashes/Digest/Payload.antt =====
-- The bytes that `dependency_closure_sha256` hashes determine the records.
use mathlib.Core.List.{append_assoc}
use elisa_lsp.Base.{
  true, some, List, [], ◌∷◌, ◌++◌, ◌≡◌, ◌∙◌, refl, sym, ap, arith, length, length-append, All,
  Bool-cases, inl, inr,
}
use elisa_lsp.Base.Text.{Text, codes}
use elisa_lsp.Base.Bytes.{Bytes, encode, to_bytes8, from_hex, is_all_hex}
use elisa_lsp.Base.Bytes.Injective.{
  append_injective, encode_injective, to_bytes8_injective, length-to_bytes8, from_hex_total,
  from_hex_injective,
}
use elisa_lsp.Base.Sort.{insert, sort}
use elisa_lsp.Json.{Value, str, obj, get}
use elisa_lsp.Hashes.Result.{ok, or_raise, bind-eq-ok, or_raise-eq-ok}
use elisa_lsp.Hashes.Digest.{
  Record, closure_digest_tag, check_fields, normalize_record, normalize, record_lt, check_files,
  closure_records, record_bytes, records_bytes, closure_payload,
}
use elisa_lsp.Hashes.Digest.Records.{normalize_cons}

-- The second field is a SHA-256 in hexadecimal.
abbrev pub HasHash : Record → Type 0
HasHash r = (length r.1 ≡ 64) × (is_all_hex r.1 ≡ true)

check_fields-HasHash : (v w : Value) (r : Record) → check_fields v w ≡ ok r → HasHash r
unfolding check_fields
check_fields-HasHash (str l) (str h) r e = ground arith
check_fields-HasHash v w r e = cc

normalize_record-HasHash : (v : Value) (r : Record) → normalize_record v ≡ ok r → HasHash r
unfolding normalize_record
normalize_record-HasHash (obj fs) r e =
    check_fields-HasHash (get fs (codes "path")) (get fs (codes "sha256")) r e
normalize_record-HasHash v r e = cc

normalize-HasHash : (vs : List Value) (rs : List Record) → normalize vs ≡ ok rs → All HasHash rs
normalize-HasHash [] [] e = tt
normalize-HasHash [] (r ∷ rs) e = unfold normalize in cc
normalize-HasHash (v ∷ vs) rs e =
    let (r, ts, p, q, he) = normalize_cons v vs e in
    rw he (normalize_record-HasHash v r p, normalize-HasHash vs ts q)

insert-HasHash :
    (r : Record) (rs : List Record)
    → HasHash r
    → All HasHash rs
    → All HasHash (insert record_lt r rs)
unfolding insert
insert-HasHash r [] h a = (h, tt)
insert-HasHash r (s ∷ rs) h a = elim (Bool-cases (record_lt s r)) [
  | inl e ↦ rw e (a.0, insert-HasHash r rs h a.1)
  | inr e ↦ rw e (h, a)
]

sort-HasHash : (rs : List Record) → All HasHash rs → All HasHash (sort record_lt rs)
unfolding sort
sort-HasHash [] a = tt
sort-HasHash (r ∷ rs) a = insert-HasHash r (sort record_lt rs) a.0 (sort-HasHash rs a.1)

check_files-same : (rs : List Record) (out : List Record) → check_files rs ≡ ok out → rs ≡ out
check_files-same [] out e = cc
check_files-same (r ∷ rs) out e = ground arith

closure_records-HasHash :
    (vs : List Value) (out : List Record) → closure_records vs ≡ ok out → All HasHash out
unfolding closure_records
closure_records-HasHash vs out e =
    let (rs, p, q) = bind-eq-ok (normalize vs) _ e in
    rw (check_files-same (sort record_lt rs) out q) at (sort-HasHash rs (normalize-HasHash vs rs p))

-- The three parts of a record's bytes.
record_bytes_parts :
    (l h : Text) (b : Bytes)
    → record_bytes (l, h) ≡ ok b
    → (e : Bytes) × (n : Bytes) × (c : Bytes) × (encode l ≡ some e)
      × (to_bytes8 (length e) ≡ some n)
      × (from_hex h ≡ some c)
      × (b ≡ n ++ (e ++ c))
unfolding record_bytes
record_bytes_parts l h b e =
    let (x, p, e₁) = bind-eq-ok (or_raise (encode l) _) _ e in
    let (n, q, e₂) = bind-eq-ok (or_raise (to_bytes8 (length x)) _) _ e₁ in
    let (c, r, e₃) = bind-eq-ok (or_raise (from_hex h) _) _ e₂ in
    (x, n, c, or_raise-eq-ok _ _ p, or_raise-eq-ok _ _ q, or_raise-eq-ok _ _ r, cc)

length-content : (l h : Text) (c : Bytes) → HasHash (l, h) → from_hex h ≡ some c → length c ≡ 32
length-content l h c v e =
    let (d, p, l) = from_hex_total h 32 v.1 (omega arith) in let same : c ≡ d = cc in rw same l

record_bytes_prefix :
    (r s : Record) (b b' : Bytes) {u v : Bytes}
    → HasHash r
    → HasHash s
    → record_bytes r ≡ ok b
    → record_bytes s ≡ ok b'
    → b ++ u ≡ b' ++ v
    → (r ≡ s) × (u ≡ v)
record_bytes_prefix (l, h) (m, g) b b' {u} {v} hr hs p q e =
    let (x, n, c, xe, ne, ce, be) = record_bytes_parts l h b p in
    let (y, k, d, ye, ke, de, be') = record_bytes_parts m g b' q in
    let grouped : n ++ (x ++ (c ++ u)) ≡ k ++ (y ++ (d ++ v)) =
      sym (regroup n x c u) ∙ (cc (be, be', e) ∙ regroup k y d v) in
    let (sizes, rest) =
      append_injective n k
        (omega (arith, length-to_bytes8 (length x) ne, length-to_bytes8 (length y) ke)) grouped in
    let lengths : length x ≡ length y =
      to_bytes8_injective (length x) (length y) {bs = n} ne (cc (ke, sizes)) in
    let (names, rest') = append_injective x y lengths rest in
    let (contents, tails) =
      append_injective c d (omega (arith, length-content l h c hr ce, length-content m g d hs de))
        rest' in
    let paths : l ≡ m = encode_injective l m {bs = x} xe (cc (ye, names)) in
    let hashes : h ≡ g = from_hex_injective h g {bs = c} hr.1 hs.1 ce (cc (de, contents)) in
    (cc (paths, hashes), tails)
  where
    regroup : (n x c u : Bytes) → (n ++ (x ++ c)) ++ u ≡ n ++ (x ++ (c ++ u))
    regroup n x c u = simp append_assoc

records_bytes_cons :
    (r : Record) (rs : List Record) (out : Bytes)
    → records_bytes (r ∷ rs) ≡ ok out
    → (b : Bytes) × (bs : Bytes) × (record_bytes r ≡ ok b)
      × (records_bytes rs ≡ ok bs)
      × (out ≡ b ++ bs)
unfolding records_bytes
records_bytes_cons r rs out e =
    let (b, p, e₁) = bind-eq-ok (record_bytes r) _ e in
    let (bs, q, e₂) = bind-eq-ok (records_bytes rs) _ e₁ in (b, bs, p, q, cc)

records_bytes_nonempty : (r : Record) (rs : List Record) → records_bytes (r ∷ rs) ≡ ok [] → ⊥
records_bytes_nonempty (l, h) rs e =
    let (b, bs, p, q, split) = records_bytes_cons (l, h) rs [] e in
    let (x, n, c, xe, ne, ce, be) = record_bytes_parts l h b p in
    omega (
      arith,
      length-to_bytes8 (length x) ne,
      ap (length {0}) be,
      ap (length {0}) split,
      length-append n (x ++ c),
      length-append b bs,
    )

records_bytes_injective :
    (rs ss : List Record) (out : Bytes)
    → All HasHash rs
    → All HasHash ss
    → records_bytes rs ≡ ok out
    → records_bytes ss ≡ ok out
    → rs ≡ ss
records_bytes_injective [] [] out hr hs p q = refl
records_bytes_injective [] (s ∷ ss) out hr hs p q =
    absurd (records_bytes_nonempty s ss (unfold records_bytes in cc))
records_bytes_injective (r ∷ rs) [] out hr hs p q =
    absurd (records_bytes_nonempty r rs (unfold records_bytes in cc))
records_bytes_injective (r ∷ rs) (s ∷ ss) out hr hs p q =
    let (b, bs, pb, pbs, pe) = records_bytes_cons r rs out p in
    let (d, ds, qd, qds, qe) = records_bytes_cons s ss out q in
    let (heads, tails) =
      record_bytes_prefix r s b d {u = bs} {v = ds} hr.0 hs.0 pb qd (cc (pe, qe)) in
    let rests = records_bytes_injective rs ss bs hr.1 hs.1 pbs (cc (qds, tails)) in
    cc (heads, rests)

closure_payload_parts :
    (vs : List Value) (payload : Bytes)
    → closure_payload vs ≡ ok payload
    → (rs : List Record) × (bs : Bytes) × (closure_records vs ≡ ok rs)
      × (records_bytes rs ≡ ok bs)
      × (payload ≡ closure_digest_tag ++ bs)
unfolding closure_payload
closure_payload_parts vs payload e =
    let (rs, p, e₁) = bind-eq-ok (closure_records vs) _ e in
    let (bs, q, e₂) = bind-eq-ok (records_bytes rs) _ e₁ in (rs, bs, p, q, cc)

-- What is hashed is unambiguous: two lists of records for which the same bytes are hashed hold the
-- same paths with the same content hashes.
pub closure_payload_injective :
    (vs ws : List Value) {payload : Bytes}
    → closure_payload vs ≡ ok payload
    → closure_payload ws ≡ ok payload
    → closure_records vs ≡ closure_records ws
closure_payload_injective vs ws {payload} p q =
    let (rs, bs, hr, hb, he) = closure_payload_parts vs payload p in
    let (ss, ds, gs, gd, ge) = closure_payload_parts ws payload q in
    let same =
      append_injective closure_digest_tag closure_digest_tag {us = bs} {vs = ds} refl
        (sym he ∙ ge) in
    let records =
      records_bytes_injective rs ss bs (closure_records-HasHash vs rs hr)
        (closure_records-HasHash ws ss gs) hb (cc (gd, same.1)) in
    cc (hr, gs, records)
