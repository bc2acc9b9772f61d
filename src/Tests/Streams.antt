-- ===== src/Tests/Streams.antt =====
-- The properties of the framed client at concrete streams.
use elisa_lsp.Base.{
  if◌then◌else◌, true, none, some, List, [], ◌∷◌, ◌++◌, ◌≡◌, ◌≢◌, refl, arith, inr, map,
}
use elisa_lsp.Base.Text.{codes, equal}
use elisa_lsp.Base.Bytes.{Bytes}
use elisa_lsp.Base.Decimal.{decimal}
use elisa_lsp.Json.{str, int, obj, Fields, end, field}
use elisa_lsp.Base.Int.{pos}
use elisa_lsp.Frames.{Limits, Python, frame_bytes, join_bytes, content_length, decode_message}
use elisa_lsp.Frames.Decoder.{LspFrame, fed, unfinished, feed, prepend, parse_stream}
use elisa_lsp.Frames.Rounds.{at_header}
use elisa_lsp.Frames.Chunks.{feed-append, feed-ne-unfinished}
use elisa_lsp.Frames.Stream.{IsReadable, stream, feed-stream}
use elisa_lsp.Frames.Resumed.{resumed, parse_stream-append}
use elisa_lsp.Frames.Session.{Settings, LspSession, new_session, Event, stdout, eof, pump_all}
use elisa_lsp.Frames.Recorded.{IsConsistent}
use elisa_lsp.Frames.Pumped.{messages, bodies, pump_all-IsConsistent}
use elisa_lsp.Frames.Drained.{pump_all-drained}

abbrev pub note : Fields
note = field (codes "jsonrpc") (str (codes "2.0")) (field (codes "method") (str (codes "m")) end)

abbrev pub reply : Fields
reply =
    field (codes "jsonrpc") (str (codes "2.0"))
      (field (codes "id") (int (pos 7)) (field (codes "result") (int (pos 1)) end))

-- Bytes are their own text, and two texts are JSON.
abbrev pub py : Python
py = record {
  decode = λ b. some b;
  loads = λ t.
      if equal t (codes "n")
      then some (obj note)
      else if equal t (codes "re")
      then some (obj reply)
      else none;
  takes_digits = λ k. true;
}

abbrev pub limits : Limits
limits = record { max_header_bytes = 64; max_body_bytes = 100 }

abbrev pub note_frame : LspFrame
note_frame = record { message = note; body = codes "n" }

abbrev pub reply_frame : LspFrame
reply_frame = record { message = reply; body = codes "re" }

abbrev first_chunk : Bytes
first_chunk = frame_bytes (codes "n") ++ codes "Content-Le"

abbrev second_chunk : Bytes
second_chunk = codes "ngth: 2\r\n\r\nre"

first_fed :
    feed py limits (at_header []) first_chunk
    ≡ fed (note_frame ∷ []) (at_header (codes "Content-Le"))
unfolding feed frame_bytes content_length equal
first_fed = refl

feed-append_example :
    feed py limits (at_header []) (first_chunk ++ second_chunk)
    ≡ prepend (note_frame ∷ []) (feed py limits (at_header (codes "Content-Le")) second_chunk)
feed-append_example =
    feed-append py limits (at_header []) (at_header (codes "Content-Le")) first_chunk second_chunk
      (note_frame ∷ []) first_fed

feed-ne-unfinished_example : feed py limits (at_header []) first_chunk ≢ unfinished
feed-ne-unfinished_example = feed-ne-unfinished py limits (at_header []) first_chunk

pub note-IsReadable : IsReadable py limits note_frame
unfolding decimal decode_message equal
note-IsReadable = record {
  is_sendable = record { header_fits = omega arith; body_fits = omega arith; digits_fit = refl };
  decodes = refl;
}

pub reply-IsReadable : IsReadable py limits reply_frame
unfolding decimal decode_message equal
reply-IsReadable = record {
  is_sendable = record { header_fits = omega arith; body_fits = omega arith; digits_fit = refl };
  decodes = refl;
}

feed-stream_example :
    feed py limits (at_header []) (stream (note_frame ∷ reply_frame ∷ []))
    ≡ fed (note_frame ∷ reply_frame ∷ []) (at_header [])
feed-stream_example =
    feed-stream py limits (note_frame ∷ reply_frame ∷ []) (note-IsReadable, (reply-IsReadable, tt))

abbrev cut_body : Bytes
cut_body = frame_bytes (codes "n") ++ codes "X: 1\r\nContent-Length: 2\r\n\r\nr"

abbrev tail : Bytes
tail = codes "Content-Length: 2\r\n\r\nr"

cut_parsed : parse_stream py cut_body ≡ some (note_frame ∷ [], tail)
unfolding parse_stream frame_bytes equal
cut_parsed = refl

parse_stream-append_example :
    parse_stream py (cut_body ++ codes "e")
    ≡ resumed (note_frame ∷ []) (parse_stream py (tail ++ codes "e"))
parse_stream-append_example =
    parse_stream-append py cut_body (codes "e") tail (note_frame ∷ []) (λ k h. refl) cut_parsed

abbrev pub settings : Settings
settings = record { limits = limits; max_stream_bytes = 1000; max_messages = 10 }

abbrev finished : LspSession
finished = record {
  decoder = at_header [];
  responses = [];
  notifications = note ∷ [];
  server_requests = [];
  all_messages = note ∷ [];
  raw_bodies = codes "n" ∷ [];
  response_by_id = [];
  stdout_eof = true;
  stream_bytes = 22;
}

abbrev chunks : List Bytes
chunks = codes "Content-Length: 1\r\n" ∷ codes "\r\nn" ∷ []

abbrev events : List Event
events = map stdout chunks ++ (eof ∷ [])

all_pumped : pump_all py settings new_session events ≡ inr finished
unfolding pump_all new_session equal
all_pumped = refl

pump_all-IsConsistent_example : IsConsistent settings finished
pump_all-IsConsistent_example = pump_all-IsConsistent py settings events finished all_pumped

pump_all-drained_example :
    (fs : List LspFrame) × (feed py limits (at_header []) (join_bytes chunks)
      ≡ fed fs (at_header []))
    × (finished.all_messages ≡ messages fs)
    × (finished.raw_bodies ≡ bodies fs)
pump_all-drained_example = pump_all-drained py settings chunks finished all_pumped
