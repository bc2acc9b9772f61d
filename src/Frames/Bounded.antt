-- ===== src/Frames/Bounded.antt =====
-- The body that the decoder of test/lsp_client.py waits for is within its limit.
use elisa_lsp.Base.{
  ℕ, zero, suc, ◌≤◌, none, some, List, [], length, ltb, ◌≡◌, refl, arith, inl, inr, Bool-cases,
  Option-cases, Sum-cases, ◌&&◌,
}
use elisa_lsp.Base.Bytes.{Bytes}
use elisa_lsp.Base.Text.{codes}
use elisa_lsp.Base.Decimal.{value_of, is_digit}
use elisa_lsp.Frames.{
  Limits, Python, content_length, length_of, is_nonempty, all_bytes, all_nonempty, split_lines,
  read_lines, field_of,
}
use elisa_lsp.Frames.Decoder.{
  Decoder, LspFrame, fed, breaks, completes, round, rounds, body_round, header_round, split_marker,
  feed,
}
use elisa_lsp.Frames.Rounds.{
  at_header, extend, fuel, body_round-breaks, body_round-completes, Round-cases,
}
use elisa_lsp.Frames.Chunks.{onto-eq-fed}

module _ (py : Python) (limits : Limits) where
  length_of-le :
      (value : Bytes) (n : ℕ) → length_of py limits value ≡ inr n → n ≤ limits.max_body_bytes
  unfolding length_of
  length_of-le value n h = elim (Bool-cases (is_nonempty value && all_bytes is_digit value)) [
    | inr e ↦ cc (rw (length_of, e) at h)
    | inl e ↦ elim (Bool-cases (py.takes_digits (length value))) [
      | inr e' ↦ cc (rw (length_of, e, e') at h)
      | inl e' ↦ elim (Bool-cases (ltb limits.max_body_bytes (value_of value))) [
        | inl e'' ↦ cc (rw (length_of, e, e', e'') at h)
        | inr e'' ↦
            let same : value_of value ≡ n = cc (rw (length_of, e, e', e'') at h) in
            rw (← same) (ground arith)
      ]
    ]
  ]

  content_length-le :
      (header : Bytes) (n : ℕ) → content_length py limits header ≡ inr n → n ≤ limits.max_body_bytes
  unfolding content_length
  content_length-le header n h = elim (Bool-cases (ltb limits.max_header_bytes (length header))) [
    | inl e ↦ cc (rw (content_length, e) at h)
    | inr e ↦ elim (Bool-cases (all_nonempty (split_lines header))) [
      | inr e' ↦ cc (rw (content_length, e, e') at h)
      | inl e' ↦ elim (Sum-cases (read_lines [] (split_lines header))) [
        | inl (why, f) ↦ cc (rw (content_length, e, e', f) at h)
        | inr (fields, f) ↦ elim (Option-cases (field_of fields (codes "content-length"))) [
          | inl g ↦ cc (rw (content_length, e, e', f, g) at h)
          | inr (value, g) ↦ length_of-le value n (rw (content_length, e, e', f, g) at h)
        ]
      ]
    ]
  ]

  abbrev pub IsBounded : Decoder → Type 0
  IsBounded d = (n : ℕ) → d.expected_body ≡ some n → n ≤ limits.max_body_bytes

  body_round-IsBounded :
      (n : ℕ) (b : Bytes) (d : Decoder)
      → n ≤ limits.max_body_bytes
      → body_round py limits n b ≡ breaks d
      → IsBounded d
  body_round-IsBounded n b d p h m e =
      let (short, same) = body_round-breaks py limits n b d h in
      let equal : n ≡ m = cc (rw (← same) at e) in rw (← equal) p

  round-IsBounded : (d d' : Decoder) → IsBounded d → round py limits d ≡ breaks d' → IsBounded d'
  unfolding round header_round
  round-IsBounded d d' p h = elim (Option-cases d.expected_body) [
    | inr (n, e) ↦ body_round-IsBounded n d.buffer d' (p n e) (rw (round, e) at h)
    | inl e ↦ elim (Option-cases (split_marker d.buffer)) [
      | inl f ↦ elim (Bool-cases (ltb limits.max_header_bytes (length d.buffer))) [
        | inl g ↦ cc (rw (round, e, header_round, f, g) at h)
        | inr g ↦
            let same : at_header d.buffer ≡ d' = cc (rw (round, e, header_round, f, g) at h) in
            λ m x. cc (rw (← same) at x)
      ]
      | inr ((head, rest), f) ↦ elim (Sum-cases (content_length py limits head)) [
        | inl (why, g) ↦ cc (rw (round, e, header_round, f, g) at h)
        | inr (n, g) ↦
            body_round-IsBounded n rest d' (content_length-le head n g)
              (rw (round, e, header_round, f, g) at h)
      ]
    ]
  ]

  body_fresh :
      (n : ℕ) (b : Bytes) (f : LspFrame) (d : Decoder)
      → body_round py limits n b ≡ completes f d
      → d.expected_body ≡ none
  body_fresh n b f d h = rw (← (body_round-completes py limits n b f d h).1) refl

  round-completes_fresh :
      (d : Decoder) (f : LspFrame) (d' : Decoder)
      → round py limits d ≡ completes f d'
      → d'.expected_body ≡ none
  unfolding round header_round
  round-completes_fresh d f d' h = elim (Option-cases d.expected_body) [
    | inr (n, e) ↦ body_fresh n d.buffer f d' (rw (round, e) at h)
    | inl e ↦ elim (Option-cases (split_marker d.buffer)) [
      | inl g ↦ elim (Bool-cases (ltb limits.max_header_bytes (length d.buffer))) [
        | inl l ↦ cc (rw (round, e, header_round, g, l) at h)
        | inr l ↦ cc (rw (round, e, header_round, g, l) at h)
      ]
      | inr ((head, rest), g) ↦ elim (Sum-cases (content_length py limits head)) [
        | inl (why, l) ↦ cc (rw (round, e, header_round, g, l) at h)
        | inr (n, l) ↦ body_fresh n rest f d' (rw (round, e, header_round, g, l) at h)
      ]
    ]
  ]

  -- The body that a decoder waits for is within the limit.
  rounds-IsBounded :
      (i : ℕ) (d d' : Decoder) (fs : List LspFrame)
      → IsBounded d
      → rounds py limits i d ≡ fed fs d'
      → IsBounded d'
  unfolding rounds
  rounds-IsBounded zero d d' fs p h = cc
  rounds-IsBounded (suc i) d d' fs p h = elim (Round-cases (round py limits d)) [
    | inl (d1, e) ↦
        let same : d1 ≡ d' = cc (rw (rounds, e) at h) in rw (← same) (round-IsBounded d d1 p e)
    | inr (inr (why, d1, e)) ↦ cc (rw (rounds, e) at h)
    | inr (inl (f, d1, e)) ↦
        let (later, r, all) = onto-eq-fed f (rounds py limits i d1) fs d' (rw (rounds, e) at h) in
        rounds-IsBounded i d1 d' later (λ n x. cc (round-completes_fresh d f d1 e, x)) r
  ]

  pub feed-IsBounded :
      (d d' : Decoder) (chunk : Bytes) (fs : List LspFrame)
      → IsBounded d
      → feed py limits d chunk ≡ fed fs d'
      → IsBounded d'
  unfolding feed
  feed-IsBounded d d' chunk fs p h =
      rounds-IsBounded (fuel (extend d chunk)) (extend d chunk) d' fs p h
