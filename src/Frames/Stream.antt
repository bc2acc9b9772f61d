-- ===== src/Frames/Stream.antt =====
-- The frames that test/lsp_client.py writes are read back by its decoder.
use mathlib.Core.List.{append_assoc}
use elisa_lsp.Base.{
  drop-all_append, take-all_append, ℕ, zero, suc, ◌≤◌, ◌<◌, false, some, List, [], ◌∷◌, ◌++◌,
  length, ltb, ◌≡◌, refl, arith, ◌∙◌, inr, All, length-append, ◌==◌,
}
use elisa_lsp.Base.Bytes.{Bytes}
use elisa_lsp.Base.Patterns.{after}
use elisa_lsp.Base.Decimal.{decimal}
use elisa_lsp.Frames.{Limits, Python, marker, cr, decode_message, frame_bytes}
use elisa_lsp.Frames.Decoder.{
  breaks, onto, LspFrame, split_marker, header_round, body_round, round, rounds, completes, feed,
  fed,
}
use elisa_lsp.Frames.Rounds.{at_header}
use elisa_lsp.Frames.Printed.{header_of, header_no_cr, IsSendable, content_length-header_of}

frame_bytes-append :
    (body rest : Bytes)
    → frame_bytes body ++ rest ≡ header_of (length body) ++ (marker ++ (body ++ rest))
unfolding frame_bytes
frame_bytes-append body rest = rw (append_assoc (decimal (length body)) (marker ++ body) rest)

after-nil : (k xs : Bytes) → after k (k ++ xs) ≡ some xs
unfolding after
after-nil [] xs = refl
after-nil (k ∷ ks) xs = ground (arith, after-nil ks xs)

split_marker-marker :
    (h rest : Bytes)
    → All (λ c. (c == cr) ≡ false) h
    → split_marker (h ++ (marker ++ rest)) ≡ some (h, rest)
unfolding split_marker after
split_marker-marker [] rest p = refl
split_marker-marker (c ∷ cs) rest p = rw (split_marker, after, p.0, split_marker-marker cs rest p.1)

module _ (py : Python) (limits : Limits) where
  -- Behind the header of a body's length the decoder reads as if it expected the body.
  pub header_round-header_of :
      (n : ℕ) (rest : Bytes)
      → IsSendable py limits n
      → header_round py limits (header_of n ++ (marker ++ rest)) ≡ body_round py limits n rest
  unfolding header_round
  header_round-header_of n rest h = rw (
    header_round,
    split_marker-marker (header_of n) rest (header_no_cr n),
    content_length-header_of py limits n h,
  )

  -- The frame's body can be announced, and is read as its message.
  pub record IsReadable (f : LspFrame) : Type 0 where
    pub is_sendable : IsSendable py limits (length f.body)
    pub decodes : decode_message py f.body ≡ inr f.message

  round-frame_bytes :
      (f : LspFrame) (rest : Bytes)
      → IsReadable f
      → round py limits (at_header (frame_bytes f.body ++ rest)) ≡ completes f (at_header rest)
  unfolding round frame_bytes body_round
  round-frame_bytes f rest h =
      let n = length f.body in
      let long : ltb (length (f.body ++ rest)) n ≡ false =
        ground (arith, length-append f.body rest) in
      rw (frame_bytes-append f.body rest) (
        header_round-header_of n (f.body ++ rest) h.is_sendable
        ∙ rw (
          body_round,
          long,
          take-all_append f.body rest,
          h.decodes,
          drop-all_append f.body rest,
          take-all_append f.body rest,
        ))

abbrev pub stream : List LspFrame → Bytes
stream [] = []
stream (f ∷ fs) = frame_bytes f.body ++ stream fs

pub nothing_exceeds : (n : ℕ) → ltb n 0 ≡ false
nothing_exceeds n = ground arith

length-stream : (fs : List LspFrame) → length fs ≤ length (stream fs)
unfolding frame_bytes
length-stream [] = omega arith
length-stream (f ∷ fs) =
    omega (arith, length-append (frame_bytes f.body) (stream fs), length-stream fs)

module _ (py : Python) (limits : Limits) where
  rounds-stream :
      (fs : List LspFrame) (fuel : ℕ)
      → All (IsReadable py limits) fs
      → length fs < fuel
      → rounds py limits fuel (at_header (stream fs)) ≡ fed fs (at_header [])
  unfolding rounds onto
  rounds-stream fs zero h p = elim p [ ]
  rounds-stream [] (suc fuel) h p = rw (rounds, nothing_exceeds limits.max_header_bytes)
  rounds-stream (f ∷ fs) (suc fuel) h p = rw (
    rounds,
    round-frame_bytes py limits f (stream fs) h.0,
    rounds-stream fs fuel h.1 (omega arith),
  )

  pub new_decoder-waits : round py limits (at_header []) ≡ breaks (at_header [])
  unfolding round header_round split_marker
  new_decoder-waits = rw (round, header_round, nothing_exceeds limits.max_header_bytes)

  -- A decoder that is fed frames whose bodies can be announced and decoded completes those frames,
  -- in their order, and has nothing left.
  pub feed-stream :
      (fs : List LspFrame)
      → All (IsReadable py limits) fs
      → feed py limits (at_header []) (stream fs) ≡ fed fs (at_header [])
  unfolding feed
  feed-stream fs h =
      rounds-stream fs (suc (suc (length (stream fs)))) h (omega (arith, length-stream fs))
