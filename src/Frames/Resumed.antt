-- ===== src/Frames/Resumed.antt =====
-- `parse_stream` of test/lsp_client.py: its tail stands for the decoder that it does not keep.
use mathlib.Core.List.{append_assoc}
use elisa_lsp.Base.{
  length-append, ℕ, zero, suc, ◌≤◌, ◌<◌, true, Option, none, some, List, [], ◌∷◌, ◌++◌, length, ◌≡◌,
  refl, sym, ap, arith, ◌∙◌, inl, inr, Option-cases,
}
use elisa_lsp.Base.Bytes.{Bytes}
use elisa_lsp.Base.Decimal.{decimal, length-decimal}
use elisa_lsp.Frames.{content_length_colon, Limits, Python, marker}
use elisa_lsp.Frames.Decoder.{
  Decoder, LspFrame, Fed, fed, refused, unfinished, round, rounds, feed, prepend, onto, rebuilt,
  parse_stream, default_limits,
}
use elisa_lsp.Frames.Rounds.{round-completes, size, at_header, extend, fuel, room, Round-cases}
use elisa_lsp.Frames.Chunks.{Fed-cases, feed-append, rounds-enough}
use elisa_lsp.Frames.Bounded.{IsBounded, feed-IsBounded}
use elisa_lsp.Frames.Printed.{IsSendable, header_of}
use elisa_lsp.Frames.Stream.{header_round-header_of}

module _ (py : Python) (limits : Limits) where
  -- Decoders that go on alike complete the same frames.
  rounds-round :
      (i j : ℕ) (d d' : Decoder)
      → round py limits d ≡ round py limits d'
      → size d < i
      → size d' < j
      → rounds py limits i d ≡ rounds py limits j d'
  unfolding rounds
  rounds-round zero j d d' e p q = elim p [ ]
  rounds-round (suc i) zero d d' e p q = elim q [ ]
  rounds-round (suc i) (suc j) d d' e p q = elim (Round-cases (round py limits d')) [
    | inl (x, r) ↦ rw (rounds, e, r)
    | inr (inr (why, x, r)) ↦ rw (rounds, e, r)
    | inr (inl (f, x, r)) ↦
        let less = (round-completes py limits d f x [] (e ∙ r)).1 in
        let less' = (round-completes py limits d' f x [] r).1 in
        let same = (rounds-enough py limits i j x (omega arith) (omega arith)).0 in
        rw (rounds, e, r) (ap (onto f) same)
  ]

  -- The rebuilt header and the partial body behind it stand for the decoder that waits for the body.
  feed-rebuilt :
      (d : Decoder) (more : Bytes)
      → ((n : ℕ) → n ≤ limits.max_body_bytes → IsSendable py limits n)
      → IsBounded py limits d
      → feed py limits (at_header []) (rebuilt d ++ more) ≡ feed py limits d more
  unfolding feed rebuilt round
  feed-rebuilt d more announced p = elim (Option-cases d.expected_body) [
    | inl e ↦
        let joint = d.buffer ++ more in
        let kept : rebuilt d ++ more ≡ joint = rw (rebuilt, e) in
        ap (λ b. rounds py limits (fuel (at_header b)) (at_header b)) kept
        ∙ ap
            (λ o.
              rounds py limits (fuel (at_header joint))
                (record { buffer = joint; expected_body = o }))
            (sym e)
    | inr (n, e) ↦
        let whole = at_header (header_of n ++ (marker ++ (d.buffer ++ more))) in
        let next : round py limits whole ≡ round py limits (extend d more) =
          header_round-header_of py limits n (d.buffer ++ more) (announced n (p n e))
          ∙ rw (round, e) in
        let same =
          rounds-round (fuel whole) (fuel (extend d more)) whole (extend d more) next (room whole)
            (room (extend d more)) in
        let kept : rebuilt d ++ more ≡ whole.buffer =
          rw (rebuilt, e, append_assoc (decimal n) (marker ++ d.buffer) more) in
        ap (λ b. rounds py limits (fuel (at_header b)) (at_header b)) kept ∙ same
  ]

-- The frames of two calls, and the tail of the second.
abbrev pub resumed : List LspFrame → Option (List LspFrame × Bytes) → Option (List LspFrame × Bytes)
resumed fs none = none
resumed fs (some (gs, tail)) = some (fs ++ gs, tail)

abbrev parsed : Fed → Option (List LspFrame × Bytes)
parsed r = elim r [ fed fs d ↦ some (fs, rebuilt d) | refused e d ↦ none | unfinished ↦ none ]

parsed-onto : (f : LspFrame) (r : Fed) → parsed (onto f r) ≡ resumed (f ∷ []) (parsed r)
unfolding onto
parsed-onto f (fed gs d) = refl
parsed-onto f (refused e d) = refl
parsed-onto f unfinished = refl

resumed-cons :
    (f : LspFrame) (fs : List LspFrame) (o : Option (List LspFrame × Bytes))
    → resumed (f ∷ []) (resumed fs o) ≡ resumed (f ∷ fs) o
resumed-cons f fs none = refl
resumed-cons f fs (some (gs, tail)) = refl

resumed-nil : (o : Option (List LspFrame × Bytes)) → o ≡ resumed [] o
resumed-nil none = refl
resumed-nil (some (gs, tail)) = refl

parsed-prepend : (fs : List LspFrame) (r : Fed) → parsed (prepend fs r) ≡ resumed fs (parsed r)
unfolding prepend
parsed-prepend [] r = resumed-nil (parsed r)
parsed-prepend (f ∷ fs) r =
    parsed-onto f (prepend fs r)
    ∙ (ap (resumed (f ∷ [])) (parsed-prepend fs r) ∙ resumed-cons f fs (parsed r))

default-IsSendable :
    (py : Python)
    → ((k : ℕ) → k ≤ 8 → py.takes_digits k ≡ true)
    → (n : ℕ) → n ≤ default_limits.max_body_bytes
    → IsSendable py default_limits n
default-IsSendable py digits n h =
    let short = length-decimal n 7 (omega arith) in
    record {
      header_fits = omega (arith, length-append content_length_colon (decimal n));
      body_fits = h;
      digits_fit = digits (length (decimal n)) short;
    }

-- Parsing the tail that a call leaves with more bytes behind it completes what parsing all the
-- bytes at once completes behind the frames of the call, or fails where that fails. The interpreter
-- reads numbers of up to eight digits.
pub parse_stream-append :
    (py : Python) (buf more tail : Bytes) (fs : List LspFrame)
    → ((k : ℕ) → k ≤ 8 → py.takes_digits k ≡ true)
    → parse_stream py buf ≡ some (fs, tail)
    → parse_stream py (buf ++ more) ≡ resumed fs (parse_stream py (tail ++ more))
unfolding parse_stream
parse_stream-append py buf more tail fs digits h =
    elim (Fed-cases (feed py default_limits (at_header []) buf)) [
      | inr (inl (why, d, e)) ↦ cc (rw (parse_stream, e) at h)
      | inr (inr e) ↦ cc (rw (parse_stream, e) at h)
      | inl (gs, d, e) ↦
          let done = rw (parse_stream, e) at h in
          let same : gs ≡ fs = cc done in
          let left : rebuilt d ≡ tail = cc done in
          let bounded = feed-IsBounded py default_limits (at_header []) d buf gs (λ n x. cc) e in
          let whole = feed-append py default_limits (at_header []) d buf more gs e in
          let again =
            feed-rebuilt py default_limits d more (default-IsSendable py digits) bounded in
          rw (← same, ← left)
            (ap parsed whole ∙ (parsed-prepend gs _ ∙ ap (λ r. resumed gs (parsed r)) (sym again)))
    ]
