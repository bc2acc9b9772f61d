-- ===== src/Tests/Waiting.antt =====
-- The properties of the client's waits and of its writes in pieces, at concrete streams.
use elisa_lsp.Base.{Bool, true, false, some, List, [], ◌∷◌, ◌++◌, ◌≡◌, refl, inr}
use elisa_lsp.Base.Text.{codes, equal}
use elisa_lsp.Base.Bytes.{Bytes}
use elisa_lsp.Base.Int.{pos}
use elisa_lsp.Base.Decimal.{decimal}
use elisa_lsp.Json.{int, Fields, is_text, get}
use elisa_lsp.Frames.{frame_bytes, join_bytes, content_length}
use elisa_lsp.Frames.Decoder.{fed, feed_all, prepend}
use elisa_lsp.Frames.Ids.{int_key, id_key}
use elisa_lsp.Frames.Rounds.{at_header}
use elisa_lsp.Frames.Stream.{stream}
use elisa_lsp.Frames.Session.{LspSession, new_session, Event, stdout, eof, pump_all}
use elisa_lsp.Frames.Waits.{
  returned, wait_response, wait_notification, item_at, is_claimed, response_of,
}
use elisa_lsp.Frames.Waits.Responses.{wait_response-returns}
use elisa_lsp.Frames.Waits.Notifications.{wait_notification-IsNew}
use elisa_lsp.Frames.Fragments.{send_fragmented, send_fragmented-stream}
use elisa_lsp.Tests.Streams.{note, reply, py, note_frame, limits, settings, note-IsReadable}

-- A notification has come, and then a response.
abbrev pub note_event : Event
note_event = stdout (frame_bytes (codes "n"))

abbrev pub reply_event : Event
reply_event = stdout (frame_bytes (codes "re"))

abbrev noted : LspSession
noted = record {
  decoder = at_header [];
  responses = [];
  server_requests = [];
  response_by_id = [];
  stdout_eof = false;
  notifications = note ∷ [];
  all_messages = note ∷ [];
  raw_bodies = codes "n" ∷ [];
  stream_bytes = 22;
}

abbrev replied : LspSession
replied = record noted {
  responses = (int_key (pos 7), reply) ∷ [];
  all_messages = note ∷ reply ∷ [];
  raw_bodies = codes "n" ∷ codes "re" ∷ [];
  response_by_id = (int_key (pos 7), reply) ∷ [];
  stream_bytes = 45;
}

-- The response alone has come.
abbrev pub replied_alone : LspSession
replied_alone = record replied {
  notifications = [];
  all_messages = reply ∷ [];
  raw_bodies = codes "re" ∷ [];
  stream_bytes = 23;
}

noted_pumped : pump_all py settings new_session (note_event ∷ []) ≡ inr noted
unfolding pump_all new_session equal frame_bytes
noted_pumped = refl

replied_pumped : pump_all py settings noted (reply_event ∷ []) ≡ inr replied
unfolding pump_all new_session equal frame_bytes
replied_pumped = refl

wait_response-returns_example :
    (s' : LspSession) × (rest : List Event) × (wait_response py settings
        (int (pos 7))
        noted
        (reply_event ∷ eof ∷ [])
      ≡ returned reply s' rest)
unfolding id_key response_of
wait_response-returns_example =
    wait_response-returns py settings (note_event ∷ []) (reply_event ∷ []) (eof ∷ []) noted replied
      (int (pos 7)) (int_key (pos 7)) reply refl noted_pumped replied_pumped refl refl

abbrev is_version_2 : Fields → Bool
is_version_2 m = is_text (get m (codes "jsonrpc")) (codes "2.0")

waited :
    wait_notification py settings is_version_2 (codes "m") [] new_session (note_event ∷ eof ∷ [])
    ≡ returned (0, note) noted (eof ∷ [])
unfolding wait_notification new_session equal frame_bytes
waited = refl

wait_notification-IsNew_example :
    (read : List Event) × (note_event ∷ eof ∷ [] ≡ read ++ (eof ∷ []))
    × (pump_all py settings new_session read ≡ inr noted)
    × (item_at 0 noted.notifications ≡ some note)
    × (is_claimed [] 0 ≡ false)
    × (is_text (get note (codes "method")) (codes "m") ≡ true)
    × (is_version_2 note ≡ true)
wait_notification-IsNew_example =
    wait_notification-IsNew py settings is_version_2 (codes "m") [] new_session noted
      (note_event ∷ eof ∷ []) (eof ∷ []) 0 note waited

abbrev pub pieces : List Bytes
pieces = codes "Content-Le" ∷ codes "ngth: 1\r\n\r\nn" ∷ []

pub cut_sent :
    send_fragmented (stream (note_frame ∷ [])) (pos 10 ∷ pos 0 ∷ pos 10 ∷ []) ≡ some pieces
unfolding send_fragmented frame_bytes decimal
cut_sent = refl

cut_fed : feed_all py limits (at_header []) pieces ≡ fed (note_frame ∷ []) (at_header [])
unfolding feed_all content_length equal prepend
cut_fed = refl

send_fragmented-stream_example :
    (join_bytes pieces ≡ stream (note_frame ∷ []))
    × (note_frame ∷ [] ≡ note_frame ∷ [])
    × (at_header [] ≡ at_header [])
send_fragmented-stream_example =
    send_fragmented-stream py limits (note_frame ∷ []) (note_frame ∷ [])
      (pos 10 ∷ pos 0 ∷ pos 10 ∷ []) pieces (at_header []) (note-IsReadable, tt) cut_sent cut_fed
