-- ===== src/Frames/Marker.antt =====
-- Where the decoder of test/lsp_client.py finds the end of a header.
use elisa_lsp.Base.{◌+◌, ◌≤◌, none, some, [], ◌∷◌, ◌++◌, length, ◌≡◌, arith, inl, inr, Option-cases}
use elisa_lsp.Base.Bytes.{Bytes}
use elisa_lsp.Base.Patterns.{after}
use elisa_lsp.Frames.{marker}
use elisa_lsp.Frames.Decoder.{split_marker}

after-append_some :
    (k xs ys rest : Bytes) → after k xs ≡ some rest → after k (xs ++ ys) ≡ some (rest ++ ys)
unfolding after
after-append_some [] xs ys rest h = cc
after-append_some (k ∷ ks) [] ys rest h = cc
after-append_some (k ∷ ks) (x ∷ xs) ys rest h = ground (arith, after-append_some ks xs ys rest)

after-append_none :
    (k xs ys : Bytes) → length k ≤ length xs → after k xs ≡ none → after k (xs ++ ys) ≡ none
unfolding after
after-append_none [] xs ys l h = cc
after-append_none (k ∷ ks) [] ys l h = elim l [ ]
after-append_none (k ∷ ks) (x ∷ xs) ys l h = ground (arith, after-append_none ks xs ys)

after-length : (k xs rest : Bytes) → after k xs ≡ some rest → length xs ≡ length k + length rest
unfolding after
after-length [] xs rest h = let e : xs ≡ rest = cc in rw e (omega arith)
after-length (k ∷ ks) [] rest h = cc
after-length (k ∷ ks) (x ∷ xs) rest h = ground (arith, after-length ks xs rest)

-- The marker stands where it is first found.
pub split_marker-length :
    (xs header rest : Bytes)
    → split_marker xs ≡ some (header, rest)
    → length xs ≡ length header + 4 + length rest
unfolding split_marker
split_marker-length [] header rest h = cc
split_marker-length (x ∷ xs) header rest h = elim (Option-cases (after marker (x ∷ xs))) [
  | inr (r, e) ↦
      let found = rw (split_marker, e) at h in
      let empty : [] ≡ header = cc found in
      let same : r ≡ rest = cc found in
      rw (← empty, ← same) (omega (arith, after-length marker (x ∷ xs) r e))
  | inl e ↦ elim (Option-cases (split_marker xs)) [
    | inl e' ↦ cc (rw (split_marker, e, e') at h)
    | inr ((h', r'), e') ↦
        let found = rw (split_marker, e, e') at h in
        let head : x ∷ h' ≡ header = cc found in
        let same : r' ≡ rest = cc found in
        rw (← head, ← same) (omega (arith, split_marker-length xs h' r' e'))
  ]
]

pub split_marker-append :
    (xs ys header rest : Bytes)
    → split_marker xs ≡ some (header, rest)
    → split_marker (xs ++ ys) ≡ some (header, rest ++ ys)
unfolding split_marker
split_marker-append [] ys header rest h = cc
split_marker-append (x ∷ xs) ys header rest h = elim (Option-cases (after marker (x ∷ xs))) [
  | inr (r, e) ↦
      let found = rw (split_marker, e) at h in
      let empty : [] ≡ header = cc found in
      let same : r ≡ rest = cc found in
      rw (split_marker, after-append_some marker (x ∷ xs) ys r e, ← empty, ← same)
  | inl e ↦ elim (Option-cases (split_marker xs)) [
    | inl e' ↦ cc (rw (split_marker, e, e') at h)
    | inr ((h', r'), e') ↦
        let found = rw (split_marker, e, e') at h in
        let head : x ∷ h' ≡ header = cc found in
        let same : r' ≡ rest = cc found in
        let far = split_marker-length xs h' r' e' in
        rw (
          split_marker,
          after-append_none marker (x ∷ xs) ys (omega arith) e,
          split_marker-append xs ys h' r' e',
          ← head,
          ← same,
        )
  ]
]
