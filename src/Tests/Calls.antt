-- ===== src/Tests/Calls.antt =====
-- The properties of the client's writes, requests and stderr at concrete bytes.
use elisa_lsp.Base.{
  suc, true, false, none, some, List, [], ◌∷◌, ◌++◌, length, ◌≤◌, ◌≡◌, ◌↔◌, ◌⊎◌, refl, arith, All,
}
use elisa_lsp.Base.Bytes.{Bytes}
use elisa_lsp.Base.Int.{pos}
use elisa_lsp.Base.Text.{codes, equal, starts_with, splitlines}
use elisa_lsp.Json.{int, obj}
use elisa_lsp.Frames.{frame_bytes}
use elisa_lsp.Frames.Ids.{id_key, has}
use elisa_lsp.Frames.Stream.{stream}
use elisa_lsp.Frames.Waits.{wait_response}
use elisa_lsp.Frames.Session.{new_session}
use elisa_lsp.Frames.Writes.{
  Turn, interrupted, wrote, ProcessState, running, exited, complete, write_all, write_pieces,
}
use elisa_lsp.Frames.Writes.Sent.{IsCut, write_all-complete, send_fragmented-IsCut}
use elisa_lsp.Frames.Stderr.{
  new_stderr, drain_stderr, Reading, clean, is_unexpected, assert_no_stderr_errors,
}
use elisa_lsp.Frames.Stderr.Kept.{read_bytes, assert_no_stderr_errors_iff}
use elisa_lsp.Frames.Requests.{
  Dumps, Client, Call, Exchange, answered, request_message, frame, request, initialized,
  initialize_params, initialize,
}
use elisa_lsp.Frames.Requests.Answered.{IsResponse, request-IsResponse}
use elisa_lsp.Frames.Requests.Handshake.{initialize-IsResponse}
use elisa_lsp.Tests.Streams.{reply, py, settings, note_frame}
use elisa_lsp.Tests.Waiting.{reply_event, replied_alone, pieces, cut_sent}

abbrev body : Bytes
body = codes "n"

abbrev framed : Bytes
framed = codes "Content-Length: 1\r\n\r\nn"

abbrev turns : List Turn
turns = wrote 10 ∷ interrupted ∷ wrote 12 ∷ []

write_all-complete_example :
    ((write_all running framed turns).ending ≡ complete)
    × ((write_all running framed turns).sent ≡ framed)
write_all-complete_example = write_all-complete framed turns (tt, (tt, (tt, tt))) (omega arith)

-- The process has exited before the second piece.
abbrev states : List ProcessState
states = running ∷ exited ∷ []

send_fragmented-IsCut_example : IsCut (stream (note_frame ∷ [])) (write_pieces states pieces turns)
send_fragmented-IsCut_example =
    send_fragmented-IsCut (stream (note_frame ∷ [])) (pos 10 ∷ pos 0 ∷ pos 10 ∷ []) pieces states
      turns cut_sent

-- A pattern is found at the start of a line.
abbrev reading : Reading
reading = record { decode = λ b. b; search = λ pattern line. starts_with line pattern }

abbrev chunks : List Bytes
chunks = codes "ready\nwar" ∷ codes "ning\n" ∷ [] ∷ []

assert_no_stderr_errors_iff_example :
    (assert_no_stderr_errors reading (codes "error" ∷ []) [] (drain_stderr 20 new_stderr chunks)
      ≡ clean)
    ↔ ((length (read_bytes chunks) ≤ 20)
        × All
            (λ line. is_unexpected reading (codes "error" ∷ []) [] line ≡ false)
            (splitlines (reading.decode (read_bytes chunks))))
assert_no_stderr_errors_iff_example =
    assert_no_stderr_errors_iff reading (codes "error" ∷ []) [] 20 chunks

abbrev dumps : Dumps
dumps value = some body

abbrev client : Client
client = record { session = new_session; next_id = 7 }

abbrev call : Call
call = record {
  is_positive = true;
  state = running;
  later_state = running;
  turns = turns ++ (wrote 22 ∷ []);
  events = reply_event ∷ [];
}

abbrev exchange : Exchange
exchange = record {
  message = reply;
  client = record { session = replied_alone; next_id = 8 };
  sent = framed;
  turns = wrote 22 ∷ [];
  events = [];
}

requested : request dumps py settings client (codes "shutdown") none none call ≡ answered exchange
unfolding request new_session frame_bytes equal id_key write_all wait_response
requested = refl

request-IsResponse_example :
    (raw : Bytes) × (frame dumps (obj (request_message (int (pos 7)) (codes "shutdown") none))
      ≡ some raw)
    × (framed ≡ raw)
    × (8 ≡ suc 7)
    × IsResponse py settings new_session call (int (pos 7)) exchange
request-IsResponse_example =
    request-IsResponse py settings dumps client (codes "shutdown") none call exchange requested

abbrev greeted : Exchange
greeted = record exchange { sent = framed ++ framed; turns = [] }

confirmed : initialize dumps py settings client none call ≡ answered greeted
unfolding initialize new_session frame_bytes equal write_all wait_response
confirmed = refl

initialize-IsResponse_example :
    (raw : Bytes) × (frame dumps
        (obj (request_message (int (pos 7)) (codes "initialize") (some (initialize_params none))))
      ≡ some raw)
    × (((has reply (codes "result") ≡ false) × (framed ++ framed ≡ raw))
        ⊎ ((has reply (codes "result") ≡ true)
            × (more : Bytes) × (frame dumps (obj initialized) ≡ some more)
            × (framed ++ framed ≡ raw ++ more)))
    × (8 ≡ suc 7)
    × IsResponse py settings new_session call (int (pos 7)) greeted
initialize-IsResponse_example =
    initialize-IsResponse py settings dumps client none call greeted confirmed
