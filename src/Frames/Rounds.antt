-- ===== src/Frames/Rounds.antt =====
-- One round of the loop of `FrameDecoder.feed`, with bytes behind those that it reads.
use elisa_lsp.Base.{
  drop-append, length-drop, take-append, Sum-cases, ℕ, suc, ◌+◌, ◌≤◌, ◌<◌, true, false, Option,
  none, some, ◌++◌, length, take, drop, ltb, ◌≡◌, ◌⊎◌, refl, arith, inl, inr, Bool-cases,
  Option-cases, length-append,
}
use elisa_lsp.Base.Bytes.{Bytes}
use elisa_lsp.Frames.{FrameError, Limits, Python, content_length, decode_message}
use elisa_lsp.Frames.Marker.{split_marker-length, split_marker-append}
use elisa_lsp.Frames.Decoder.{
  Decoder, LspFrame, Round, breaks, completes, raises, split_marker, body_round, header_round,
  round,
}

abbrev with_body : Bytes → ℕ → Decoder
with_body b n = record { buffer = b; expected_body = some n }

abbrev pub at_header : Bytes → Decoder
at_header b = record { buffer = b; expected_body = none }

abbrev pub extend : Decoder → Bytes → Decoder
extend d more = record { buffer = d.buffer ++ more; expected_body = d.expected_body }

abbrev pub pending : Option ℕ → ℕ
pending none = 0
pending (some n) = 1

-- What is left to do.
abbrev pub size : Decoder → ℕ
size d = length d.buffer + pending d.expected_body

enough : (n : ℕ) (b : Bytes) → ltb (length b) n ≡ false → n ≤ length b
enough n b e = ground arith

still_enough :
    (n : ℕ) (b more : Bytes) → ltb (length b) n ≡ false → ltb (length (b ++ more)) n ≡ false
still_enough n b more e = ground (arith, length-append b more)

-- The rounds that `feed` allows a decoder that holds the chunk.
abbrev pub fuel : Decoder → ℕ
fuel d = suc (suc (length d.buffer))

pub room : (d : Decoder) → size d < fuel d
room d = elim (Option-cases d.expected_body) [
  | inl e ↦ rw e (omega arith)
  | inr (n, e) ↦ rw e (omega arith)
]

module _ (py : Python) (limits : Limits) where
  pub body_round-breaks :
      (n : ℕ) (b : Bytes) (d : Decoder)
      → body_round py limits n b ≡ breaks d
      → (ltb (length b) n ≡ true) × (with_body b n ≡ d)
  unfolding body_round
  body_round-breaks n b d h = elim (Bool-cases (ltb (length b) n)) [
    | inl e ↦ (e, cc (rw (body_round, e) at h))
    | inr e ↦ elim (Sum-cases (decode_message py (take n b))) [
      | inl (why, e') ↦ cc (rw (body_round, e, e') at h)
      | inr (m, e') ↦ cc (rw (body_round, e, e') at h)
    ]
  ]

  pub body_round-completes :
      (n : ℕ) (b : Bytes) (f : LspFrame) (d : Decoder)
      → body_round py limits n b ≡ completes f d
      → (ltb (length b) n ≡ false)
        × (at_header (drop n b) ≡ d)
        × ((more : Bytes) → body_round py limits n (b ++ more) ≡ completes f (extend d more))
  unfolding body_round
  body_round-completes n b f d h = elim (Bool-cases (ltb (length b) n)) [
    | inl e ↦ cc (rw (body_round, e) at h)
    | inr e ↦ elim (Sum-cases (decode_message py (take n b))) [
      | inl (why, e') ↦ cc (rw (body_round, e, e') at h)
      | inr (m, e') ↦
          let done = rw (body_round, e, e') at h in
          let left : at_header (drop n b) ≡ d = cc done in
          let made : record { message = m; body = take n b } ≡ f = cc done in
          (
            e,
            left,
            λ more. rw (
              body_round,
              still_enough n b more e,
              take-append n b more (enough n b e),
              e',
              take-append n b more (enough n b e),
              drop-append n b more (enough n b e),
              ← left,
              ← made,
            ),
          )
    ]
  ]

  pub header_round-breaks :
      (b : Bytes) (d : Decoder) (more : Bytes)
      → header_round py limits b ≡ breaks d
      → (header_round py limits (b ++ more) ≡ round py limits (extend d more)) × (size d ≤ length b)
  unfolding header_round round
  header_round-breaks b d more h = elim (Option-cases (split_marker b)) [
    | inl e ↦ elim (Bool-cases (ltb limits.max_header_bytes (length b))) [
      | inl e' ↦ cc (rw (header_round, e, e') at h)
      | inr e' ↦
          let same : at_header b ≡ d = cc (rw (header_round, e, e') at h) in
          rw (← same) (refl, omega arith)
    ]
    | inr ((head, rest), e) ↦ elim (Sum-cases (content_length py limits head)) [
      | inl (why, e') ↦ cc (rw (header_round, e, e') at h)
      | inr (n, e') ↦
          let (short, same) = body_round-breaks n rest d (rw (header_round, e, e') at h) in
          let far = split_marker-length b head rest e in
          rw (← same) (rw (header_round, split_marker-append b more head rest e, e'), omega arith)
    ]
  ]

  pub header_round-completes :
      (b : Bytes) (f : LspFrame) (d : Decoder) (more : Bytes)
      → header_round py limits b ≡ completes f d
      → (header_round py limits (b ++ more) ≡ completes f (extend d more)) × (size d < length b)
  unfolding header_round
  header_round-completes b f d more h = elim (Option-cases (split_marker b)) [
    | inl e ↦ elim (Bool-cases (ltb limits.max_header_bytes (length b))) [
      | inl e' ↦ cc (rw (header_round, e, e') at h)
      | inr e' ↦ cc (rw (header_round, e, e') at h)
    ]
    | inr ((head, rest), e) ↦ elim (Sum-cases (content_length py limits head)) [
      | inl (why, e') ↦ cc (rw (header_round, e, e') at h)
      | inr (n, e') ↦
          let (long, same, later) =
            body_round-completes n rest f d (rw (header_round, e, e') at h) in
          let far = split_marker-length b head rest e in
          (
            rw (header_round, split_marker-append b more head rest e, e', later more),
            rw (← same) (omega (arith, length-drop n rest)),
          )
    ]
  ]

  pub round-breaks :
      (d d' : Decoder) (more : Bytes)
      → round py limits d ≡ breaks d'
      → (round py limits (extend d more) ≡ round py limits (extend d' more)) × (size d' ≤ size d)
  unfolding round
  round-breaks d d' more h = elim (Option-cases d.expected_body) [
    | inl e ↦
        let r = header_round-breaks d.buffer d' more (rw (round, e) at h) in
        (rw (round, e) (r.0), rw e (omega (arith, r.1)))
    | inr (n, e) ↦
        let (short, same) = body_round-breaks n d.buffer d' (rw (round, e) at h) in
        rw (← same) (rw (round, e), rw e (omega arith))
  ]

  pub round-completes :
      (d : Decoder) (f : LspFrame) (d' : Decoder) (more : Bytes)
      → round py limits d ≡ completes f d'
      → (round py limits (extend d more) ≡ completes f (extend d' more)) × (size d' < size d)
  unfolding round
  round-completes d f d' more h = elim (Option-cases d.expected_body) [
    | inl e ↦
        let r = header_round-completes d.buffer f d' more (rw (round, e) at h) in
        (rw (round, e) (r.0), rw e (omega (arith, r.1)))
    | inr (n, e) ↦
        let (long, same, later) = body_round-completes n d.buffer f d' (rw (round, e) at h) in
        (rw (round, e) (later more), rw (← same, e) (omega (arith, length-drop n d.buffer)))
  ]

pub Round-cases :
    (r : Round)
    → ((d : Decoder) × (r ≡ breaks d))
      ⊎ (((f : LspFrame) × (d : Decoder) × (r ≡ completes f d))
          ⊎ ((e : FrameError) × (d : Decoder) × (r ≡ raises e d)))
Round-cases (breaks d) = inl (d, refl)
Round-cases (completes f d) = inr (inl (f, d, refl))
Round-cases (raises e d) = inr (inr (e, d, refl))
