-- ===== src/Frames/Fragments.antt =====
-- send_fragmented of test/lsp_client.py: the pieces in which a byte stream is written.
use elisa_lsp.Base.{
  take-drop, drop-drop, drop-length, ℕ, ◌-◌, ◌≤◌, ◌||◌, Option, none, some, List, [], ◌∷◌, ◌++◌,
  length, take, drop, ◌==◌, ltb, leb, if◌then◌else◌, ◌≡◌, sym, ap, ◌∙◌, arith, All, inl, inr,
  Bool-cases,
}
use elisa_lsp.Base.Bytes.{Bytes, ◌>>=◌, bind-eq-some}
use elisa_lsp.Base.Int.{ℤ, pos, negsuc}
use elisa_lsp.Frames.{Limits, Python, join_bytes}
use elisa_lsp.Frames.Decoder.{Decoder, LspFrame, fed, feed, feed_all}
use elisa_lsp.Frames.Rounds.{at_header}
use elisa_lsp.Frames.Chunks.{feed_all-feed}
use elisa_lsp.Frames.Stream.{new_decoder-waits, IsReadable, stream, feed-stream}

-- Into an ascending list without duplicates.
unfoldable pub insert_point : ℕ → List ℕ → List ℕ
insert_point p [] = p ∷ []
insert_point p (q ∷ qs) =
    let later = q ∷ insert_point p qs in
    if p == q then q ∷ qs else if ltb p q then p ∷ q ∷ qs else later

-- `sorted(set(...))`, with a point outside the stream refused.
unfoldable pub points : ℕ → List ℤ → Option (List ℕ)
unfolding insert_point
points size [] = some []
points size (negsuc n ∷ splits) = none
points size (pos n ∷ splits) = do
  later ← points size splits
  if leb n size then some (insert_point n later) else none

-- `[p for p in points if p not in (0, size)]`
unfoldable pub inner : ℕ → List ℕ → List ℕ
inner size [] = []
inner size (p ∷ ps) = let later = inner size ps in if p == 0 || p == size then later else p ∷ later

-- `stream[start:end]`
abbrev pub slice : Bytes → ℕ → ℕ → Bytes
slice stream start end = take (end - start) (drop start stream)

-- From one edge to the next, up to the end of the stream.
unfoldable pub slices : Bytes → ℕ → List ℕ → List Bytes
slices stream start [] = slice stream start (length stream) ∷ []
slices stream start (p ∷ ps) = slice stream start p ∷ slices stream p ps

-- The pieces, in the order of the writes; nothing is `ValueError`.
unfoldable pub send_fragmented : Bytes → List ℤ → Option (List Bytes)
unfolding points inner slices
send_fragmented stream splits = do
  ps ← points (length stream) splits
  some (slices stream 0 (inner (length stream) ps))

-- Each point is at least the one before and at most the size.
abbrev Climbs : ℕ → ℕ → List ℕ → Type 0
Climbs size start [] = start ≤ size
Climbs size start (p ∷ ps) = (start ≤ p) × Climbs size p ps

Climbs-le : (size start : ℕ) (ps : List ℕ) → Climbs size start ps → start ≤ size
Climbs-le size start [] h = h
Climbs-le size start (p ∷ ps) h = omega (arith, h.0, Climbs-le size p ps h.1)

Climbs-lower :
    (size start lower : ℕ) (ps : List ℕ)
    → lower ≤ start
    → Climbs size start ps
    → Climbs size lower ps
Climbs-lower size start lower [] l h = omega arith
Climbs-lower size start lower (p ∷ ps) l h = (omega (arith, h.0), h.1)

insert_point-Climbs :
    (size start p : ℕ) (ps : List ℕ)
    → start ≤ p
    → p ≤ size
    → Climbs size start ps
    → Climbs size start (insert_point p ps)
unfolding insert_point
insert_point-Climbs size start p [] a b h = (a, b)
insert_point-Climbs size start p (q ∷ qs) a b h = elim (Bool-cases (p == q)) [
  | inl e ↦ rw (insert_point, e) h
  | inr e ↦ elim (Bool-cases (ltb p q)) [
    | inl f ↦ rw (insert_point, e, f) (a, (ground arith, h.1))
    | inr f ↦ rw (insert_point, e, f) (h.0, insert_point-Climbs size q p qs (ground arith) b h.1)
  ]
]

points-Climbs :
    (size : ℕ) (splits : List ℤ) (ps : List ℕ) → points size splits ≡ some ps → Climbs size 0 ps
unfolding points
points-Climbs size [] ps h = let none_there : [] ≡ ps = cc h in rw (← none_there) (omega arith)
points-Climbs size (negsuc n ∷ splits) ps h = cc
points-Climbs size (pos n ∷ splits) ps h =
    let (later, e, rest) = bind-eq-some (points size splits) _ h in
    elim (Bool-cases (leb n size)) [
      | inr f ↦ cc (rw f at rest)
      | inl f ↦
          let same : insert_point n later ≡ ps = cc (rw f at rest) in
          rw (← same) (
            insert_point-Climbs size 0 n later (omega arith) (ground arith)
              (points-Climbs size splits later e))
    ]

inner-Climbs :
    (size start : ℕ) (ps : List ℕ) → Climbs size start ps → Climbs size start (inner size ps)
unfolding inner
inner-Climbs size start [] h = h
inner-Climbs size start (p ∷ ps) h =
    let later = inner-Climbs size p ps h.1 in
    elim (Bool-cases (p == 0 || p == size)) [
      | inl e ↦ rw (inner, e) (Climbs-lower size p start (inner size ps) h.0 later)
      | inr e ↦ rw (inner, e) (h.0, later)
    ]

slice-drop :
    (whole : Bytes) (start end : ℕ)
    → start ≤ end
    → slice whole start end ++ drop end whole ≡ drop start whole
slice-drop whole start end h =
    ap (λ r. slice whole start end ++ r)
      (sym (drop-drop (end - start) start end whole (omega arith)))
    ∙ take-drop (end - start) (drop start whole)

slices-join :
    (whole : Bytes) (start : ℕ) (ps : List ℕ)
    → Climbs (length whole) start ps
    → join_bytes (slices whole start ps) ≡ drop start whole
unfolding slices
slices-join whole start [] h =
    ap (λ r. slice whole start (length whole) ++ r) (sym (drop-length whole))
    ∙ slice-drop whole start (length whole) h
slices-join whole start (p ∷ ps) h =
    ap (λ r. slice whole start p ++ r) (slices-join whole p ps h.1) ∙ slice-drop whole start p h.0

-- The pieces are the byte stream, cut.
pub send_fragmented-join :
    (whole : Bytes) (splits : List ℤ) (pieces : List Bytes)
    → send_fragmented whole splits ≡ some pieces
    → join_bytes pieces ≡ whole
unfolding send_fragmented
send_fragmented-join whole splits pieces h =
    let (ps, e, made) = bind-eq-some (points (length whole) splits) _ h in
    let cut : slices whole 0 (inner (length whole) ps) ≡ pieces = cc made in
    let climbs = inner-Climbs (length whole) 0 ps (points-Climbs (length whole) splits ps e) in
    rw (← cut) (slices-join whole 0 (inner (length whole) ps) climbs)

-- The pieces in which a stream of frames is written make up the stream, whatever the splits are, and
-- a decoder that accepts them one after another completes the frames, in order, with nothing left.
pub send_fragmented-stream :
    (py : Python) (limits : Limits) (fs gs : List LspFrame) (splits : List ℤ) (pieces : List Bytes)
    (d : Decoder)
    → All (IsReadable py limits) fs
    → send_fragmented (stream fs) splits ≡ some pieces
    → feed_all py limits (at_header []) pieces ≡ fed gs d
    → (join_bytes pieces ≡ stream fs) × (gs ≡ fs) × (d ≡ at_header [])
send_fragmented-stream py limits fs gs splits pieces d readable sent h =
    let joined = send_fragmented-join (stream fs) splits pieces sent in
    let fed_whole =
      feed_all-feed py limits (at_header []) d pieces gs (new_decoder-waits py limits) h in
    let same : fed gs d ≡ fed fs (at_header []) =
      sym fed_whole
      ∙ (ap (feed py limits (at_header [])) joined ∙ feed-stream py limits fs readable) in
    (joined, cc same, cc same)
