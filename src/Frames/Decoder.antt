-- ===== src/Frames/Decoder.antt =====
-- `FrameDecoder` of test/lsp_client.py: its state, and `feed`, `finish` and `parse_stream`.
use elisa_lsp.Base.{
  ℕ, ◌*◌, ◌^◌, zero, suc, Option, none, some, List, [], ◌∷◌, ◌++◌, length, take, drop, ltb,
  if◌then◌else◌, inl, inr,
}
use elisa_lsp.Base.Bytes.{Bytes}
use elisa_lsp.Base.Patterns.{after}
use elisa_lsp.Base.Decimal.{decimal}
use elisa_lsp.Json.{Fields}
use elisa_lsp.Frames.{
  FrameError, header_exceeds, truncated_body, truncated_header, Limits, Python, marker,
  content_length_colon, content_length, decode_message,
}

pub record Decoder : Type 0 where
  pub buffer : Bytes
  pub expected_body : Option ℕ

pub record LspFrame : Type 0 where
  pub message : Fields
  pub body : Bytes

-- `FrameDecoder(...)`; nothing is `ValueError`.
unfoldable pub new_decoder : Limits → Option Decoder
new_decoder limits =
    if ltb 0 limits.max_header_bytes
    then (if ltb 0 limits.max_body_bytes
        then some (record { buffer = []; expected_body = none })
        else none)
    else none

-- The bytes before the first marker and those behind it, by `buffer.find(marker)`.
unfoldable pub split_marker : Bytes → Option (Bytes × Bytes)
unfolding after
split_marker [] = none
split_marker (c ∷ cs) = elim (after marker (c ∷ cs)) [
  | some rest ↦ some ([], rest)
  | none ↦ elim (split_marker cs) [ none ↦ none | some (header, rest) ↦ some (c ∷ header, rest) ]
]

-- What one round of the loop of `feed` does: it breaks, completes a frame, or raises.
pub data Round : Type 0 where
  breaks : Decoder → Round
  completes : LspFrame → Decoder → Round
  raises : FrameError → Decoder → Round

-- What `feed` leaves: the decoder, and the frames or the error; `unfinished` is a loop cut short.
pub data Fed : Type 0 where
  fed : List LspFrame → Decoder → Fed
  refused : FrameError → Decoder → Fed
  unfinished : Fed

unfoldable pub onto : LspFrame → Fed → Fed
onto f (fed fs d) = fed (f ∷ fs) d
onto f (refused e d) = refused e d
onto f unfinished = unfinished

-- The frames before those of the later chunks.
unfoldable pub prepend : List LspFrame → Fed → Fed
unfolding onto
prepend [] r = r
prepend (f ∷ fs) r = onto f (prepend fs r)

-- The header of a body's missing rest is written again.
unfoldable pub rebuilt : Decoder → Bytes
unfolding decimal
rebuilt d = elim d.expected_body [
  | none ↦ d.buffer
  | some n ↦ content_length_colon ++ (decimal n ++ (marker ++ d.buffer))
]

module _ (py : Python) (limits : Limits) where
  -- The second half of a round, with a body of so many bytes expected.
  unfoldable pub body_round : ℕ → Bytes → Round
  unfolding decode_message
  body_round n buffer =
      if ltb (length buffer) n
      then breaks (record { buffer = buffer; expected_body = some n })
      else elim (decode_message py (take n buffer)) [
        | inl e ↦ raises e (record { buffer = drop n buffer; expected_body = none })
        | inr message ↦
            completes (record { message = message; body = take n buffer })
              (record { buffer = drop n buffer; expected_body = none })
      ]

  unfoldable pub header_round : Bytes → Round
  unfolding split_marker body_round content_length
  header_round buffer = elim (split_marker buffer) [
    | none ↦
        let d : Decoder = record { buffer = buffer; expected_body = none } in
        if ltb limits.max_header_bytes (length buffer) then raises header_exceeds d else breaks d
    | some (header, rest) ↦ elim (content_length py limits header) [
      | inl e ↦ raises e (record { buffer = buffer; expected_body = none })
      | inr n ↦ body_round n rest
    ]
  ]

  unfoldable pub round : Decoder → Round
  unfolding header_round body_round
  round d = elim d.expected_body [ none ↦ header_round d.buffer | some n ↦ body_round n d.buffer ]

  -- `while True`, for at most so many rounds.
  unfoldable pub rounds : ℕ → Decoder → Fed
  unfolding round onto
  rounds zero d = unfinished
  rounds (suc fuel) d = elim (round d) [
    | breaks d' ↦ fed [] d'
    | completes f d' ↦ onto f (rounds fuel d')
    | raises e d' ↦ refused e d'
  ]

  -- Each round but the first removes a byte or more.
  unfoldable pub feed : Decoder → Bytes → Fed
  unfolding rounds
  feed d chunk =
      rounds (suc (suc (length (d.buffer ++ chunk))))
        (record { buffer = d.buffer ++ chunk; expected_body = d.expected_body })

  -- `feed` on one chunk after another.
  unfoldable pub feed_all : Decoder → List Bytes → Fed
  unfolding feed
  feed_all d [] = fed [] d
  feed_all d (chunk ∷ chunks) = elim (feed d chunk) [
    | fed fs d' ↦ prepend fs (feed_all d' chunks)
    | refused e d' ↦ refused e d'
    | unfinished ↦ unfinished
  ]

abbrev pub default_limits : Limits
default_limits = record { max_header_bytes = 8192; max_body_bytes = 16 * 2 ^ 20 }

-- The frames, and what is left of the buffer; nothing is `FrameError`.
unfoldable pub parse_stream : Python → Bytes → Option (List LspFrame × Bytes)
unfolding feed rebuilt
parse_stream py buf =
    elim (feed py default_limits (record { buffer = []; expected_body = none }) buf) [
      | fed frames d ↦ some (frames, rebuilt d)
      | refused e d ↦ none
      | unfinished ↦ none
    ]

-- `FrameDecoder.finish`: the error, if it raises one.
unfoldable pub finish : Decoder → Option FrameError
finish d = elim d.expected_body [
  | some n ↦ some truncated_body
  | none ↦ elim d.buffer [ [] ↦ none | b ∷ bs ↦ some truncated_header ]
]
