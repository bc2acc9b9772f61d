-- ===== src/Frames/Chunks.antt =====
-- How the bytes of the stream are cut into chunks makes no difference to `FrameDecoder.feed`.
use mathlib.Core.List.{append_assoc, append-nil}
use elisa_lsp.Base.{
  ℕ, zero, suc, ◌≤◌, ◌<◌, List, [], ◌∷◌, ◌++◌, ◌≡◌, ◌≢◌, ◌⊎◌, refl, sym, ap, arith, ◌∙◌, inl, inr,
  length-append,
}
use elisa_lsp.Base.Bytes.{Bytes}
use elisa_lsp.Frames.{join_bytes, FrameError, Limits, Python}
use elisa_lsp.Frames.Rounds.{fuel, room, size, extend, Round-cases, round-breaks, round-completes}
use elisa_lsp.Frames.Decoder.{
  Decoder, LspFrame, breaks, Fed, fed, refused, unfinished, onto, prepend, round, rounds, feed,
  feed_all,
}

onto-ne-unfinished : (f : LspFrame) (r : Fed) → r ≢ unfinished → onto f r ≢ unfinished
unfolding onto
onto-ne-unfinished f (fed fs d) h u = cc
onto-ne-unfinished f (refused e d) h u = cc
onto-ne-unfinished f unfinished h u = h refl

pub onto-eq-fed :
    (f : LspFrame) (r : Fed) (fs : List LspFrame) (d : Decoder)
    → onto f r ≡ fed fs d
    → (later : List LspFrame) × (r ≡ fed later d) × (f ∷ later ≡ fs)
unfolding onto
onto-eq-fed f (fed gs d') fs d h = (gs, cc, cc)
onto-eq-fed f (refused e d') fs d h = cc
onto-eq-fed f unfinished fs d h = cc

extend-nil : (d : Decoder) → extend d [] ≡ d
extend-nil d = rw (append-nil d.buffer)

prepend-eq-fed :
    (fs : List LspFrame) (r : Fed) (gs : List LspFrame) (d : Decoder)
    → prepend fs r ≡ fed gs d
    → (later : List LspFrame) × (r ≡ fed later d)
unfolding prepend
prepend-eq-fed [] r gs d h = (gs, h)
prepend-eq-fed (f ∷ fs) r gs d h =
    let (later, e, all) = onto-eq-fed f (prepend fs r) gs d h in prepend-eq-fed fs r later d e

pub Fed-cases :
    (r : Fed)
    → ((fs : List LspFrame) × (d : Decoder) × (r ≡ fed fs d))
      ⊎ (((e : FrameError) × (d : Decoder) × (r ≡ refused e d)) ⊎ (r ≡ unfinished))
Fed-cases (fed fs d) = inl (fs, d, refl)
Fed-cases (refused e d) = inr (inl (e, d, refl))
Fed-cases unfinished = inr (inr refl)

module _ (py : Python) (limits : Limits) where
  -- The number of rounds is more than there is to do, so the loop ends, in one way.
  pub rounds-enough :
      (i j : ℕ) (d : Decoder)
      → size d < i
      → size d < j
      → (rounds py limits i d ≡ rounds py limits j d) × (rounds py limits i d ≢ unfinished)
  unfolding rounds
  rounds-enough zero j d p q = elim p [ ]
  rounds-enough (suc i) zero d p q = elim q [ ]
  rounds-enough (suc i) (suc j) d p q = elim (Round-cases (round py limits d)) [
    | inl (d', e) ↦ rw (rounds, e) (refl, λ u. cc)
    | inr (inr (why, d', e)) ↦ rw (rounds, e) (refl, λ u. cc)
    | inr (inl (f, d', e)) ↦
        let less = (round-completes py limits d f d' [] e).1 in
        let (same, ends) = rounds-enough i j d' (omega arith) (omega arith) in
        rw (rounds, e) (ap (onto f) same, onto-ne-unfinished f _ ends)
  ]

  -- A decoder that the loop leaves waits for more bytes.
  rounds-waits :
      (i : ℕ) (d d' : Decoder) (fs : List LspFrame)
      → rounds py limits i d ≡ fed fs d'
      → round py limits d' ≡ breaks d'
  unfolding rounds
  rounds-waits zero d d' fs h = cc
  rounds-waits (suc i) d d' fs h = elim (Round-cases (round py limits d)) [
    | inl (d1, e) ↦
        let same : d1 ≡ d' = cc (rw (rounds, e) at h) in
        let again = (round-breaks py limits d d1 [] e).0 in
        rw (← same) (sym (rw (append-nil d.buffer, append-nil d1.buffer) at again) ∙ e)
    | inr (inr (why, d1, e)) ↦ cc (rw (rounds, e) at h)
    | inr (inl (f, d1, e)) ↦
        let (later, r, all) = onto-eq-fed f (rounds py limits i d1) fs d' (rw (rounds, e) at h) in
        rounds-waits i d1 d' later r
  ]

  -- Bytes that come later do not change the frames that are complete.
  rounds-extend :
      (i j : ℕ) (d d' : Decoder) (fs : List LspFrame) (more : Bytes)
      → rounds py limits i d ≡ fed fs d'
      → size (extend d more) < j
      → (rounds py limits j (extend d more) ≡ prepend fs (rounds py limits j (extend d' more)))
        × (size d' ≤ size d)
  unfolding rounds prepend
  rounds-extend zero j d d' fs more h p = cc
  rounds-extend (suc i) zero d d' fs more h p = elim p [ ]
  rounds-extend (suc i) (suc j) d d' fs more h p = elim (Round-cases (round py limits d)) [
    | inl (d1, e) ↦
        let done = rw (rounds, e) at h in
        let same : d1 ≡ d' = cc done in
        let none_yet : [] ≡ fs = cc done in
        let (later, less) = round-breaks py limits d d1 more e in
        rw (← same, ← none_yet) (rw (rounds, later), less)
    | inr (inr (why, d1, e)) ↦ cc (rw (rounds, e) at h)
    | inr (inl (f, d1, e)) ↦
        let (later, r, all) = onto-eq-fed f (rounds py limits i d1) fs d' (rw (rounds, e) at h) in
        let (next, less) = round-completes py limits d f d1 more e in
        let below : size (extend d1 more) < j =
          omega (arith, length-append d.buffer more, length-append d1.buffer more) in
        let (ih, fewer) = rounds-extend i j d1 d' later more r below in
        let room : size (extend d' more) < j =
          omega (arith, length-append d'.buffer more, length-append d1.buffer more) in
        let level = rounds-enough j (suc j) (extend d' more) room (omega arith) in
        rw (← all)
          (rw (rounds, next) (ap (onto f) (ih ∙ ap (prepend later) (level.0))), omega arith)
  ]

  -- Feeding two chunks together completes the frames that the first completes and then what the
  -- second completes from there, or ends with the error that the second has from there.
  pub feed-append :
      (d d' : Decoder) (a b : Bytes) (fs : List LspFrame)
      → feed py limits d a ≡ fed fs d'
      → feed py limits d (a ++ b) ≡ prepend fs (feed py limits d' b)
  unfolding feed
  feed-append d d' a b fs h =
      let one = extend d a in
      let (whole, less) =
        rounds-extend (fuel one) (fuel (extend one b)) one d' fs b h (room (extend one b)) in
      let bound = room (extend one b) in
      let few : size (extend d' b) < fuel (extend one b) =
        omega (arith, length-append one.buffer b, length-append d'.buffer b) in
      let (same, ends) =
        rounds-enough (fuel (extend one b)) (fuel (extend d' b)) (extend d' b) few
          (room (extend d' b)) in
      rw (← append_assoc d.buffer a b) (whole ∙ ap (prepend fs) same)

  -- `feed` ends: it completes frames or refuses.
  pub feed-ne-unfinished : (d : Decoder) (chunk : Bytes) → feed py limits d chunk ≢ unfinished
  unfolding feed
  feed-ne-unfinished d chunk =
      let d' = extend d chunk in (rounds-enough (fuel d') (fuel d') d' (room d') (room d')).1

  -- Where feeding the chunks one after another completes frames, feeding all their bytes at once
  -- completes the same frames and leaves the same decoder.
  pub feed_all-feed :
      (d d' : Decoder) (chunks : List Bytes) (fs : List LspFrame)
      → round py limits d ≡ breaks d
      → feed_all py limits d chunks ≡ fed fs d'
      → feed py limits d (join_bytes chunks) ≡ fed fs d'
  unfolding feed_all feed rounds
  feed_all-feed d d' [] fs w h =
      let same : d ≡ d' = cc h in
      let no_frames : [] ≡ fs = cc h in
      let start : feed py limits d [] ≡ fed [] d =
        ap (λ x. rounds py limits (fuel x) x) (extend-nil d) ∙ rw (rounds, w) in
      rw (← same, ← no_frames) start
  feed_all-feed d d' (chunk ∷ chunks) fs w h = elim (Fed-cases (feed py limits d chunk)) [
    | inl (gs, d1, e) ↦
        let all = rw (feed_all, e) at h in
        let (later, r) = prepend-eq-fed gs (feed_all py limits d1 chunks) fs d' all in
        let d2 = extend d chunk in
        let ih = feed_all-feed d1 d' chunks later (rounds-waits (fuel d2) d2 d1 gs e) r in
        feed-append d d1 chunk (join_bytes chunks) gs e ∙ (ap (prepend gs) (ih ∙ sym r) ∙ all)
    | inr (inl (why, d1, e)) ↦ cc (rw (feed_all, e) at h)
    | inr (inr e) ↦ cc (rw (feed_all, e) at h)
  ]
