-- ===== src/Frames/Requests.antt =====
-- The calls of LspSession of test/lsp_client.py that write messages: send, send_many, notify, request,
-- _request_until, initialize and shutdown.
pub mod Answered
pub mod Handshake
use elisa_lsp.Base.{
  ℕ, suc, Bool, true, false, not, Option, none, some, List, [], ◌∷◌, ◌++◌, if◌then◌else◌, ◌⊎◌, inl,
  inr,
}
use elisa_lsp.Base.Bytes.{Bytes, ◌>>=◌}
use elisa_lsp.Base.Int.{pos}
use elisa_lsp.Base.Text.{Text, codes}
use elisa_lsp.Json.{Value, int, str, obj, Fields, end, field}
use elisa_lsp.Frames.{Python, frame_bytes}
use elisa_lsp.Frames.Ids.{id_key, has}
use elisa_lsp.Frames.Session.{Settings, LspSession, Event}
use elisa_lsp.Frames.Waits.{Waited, returned, closed, invalid, raised, wait_response}
use elisa_lsp.Frames.Writes.{
  Turn, ProcessState, WriteEnd, complete, not_running, Written, write_all,
}

-- `json.dumps` with the arguments of `frame`, and its encoding; nothing is an exception.
abbrev pub Dumps : Type 0
Dumps = Value → Option Bytes

-- The session with the identifier that the next request gets.
pub record Client : Type 0 where
  pub session : LspSession
  pub next_id : ℕ

-- What one call meets: whether its duration is positive, what its checks find of the process, the
-- rounds of its writes, and the events that come before its deadline.
pub record Call : Type 0 where
  pub is_positive : Bool
  pub state : ProcessState
  pub later_state : ProcessState
  pub turns : List Turn
  pub events : List Event

-- What a call returns, with what it has written and what is left.
pub record Exchange : Type 0 where
  pub message : Fields
  pub client : Client
  pub sent : Bytes
  pub turns : List Turn
  pub events : List Event

-- The exceptions that leave the session open.
pub data Refusal : Type 0 where
  no_request_id no_duration not_encoded not_ready : Refusal

pub data Answer : Type 0 where
  answered : Exchange → Answer
  refused : Refusal → Client → Answer
  aborted : Answer

abbrev pub with_params : Option Value → Fields
with_params none = end
with_params (some params) = field (codes "params") params end

abbrev pub request_message : Value → Text → Option Value → Fields
request_message req_id method params =
    field (codes "jsonrpc") (str (codes "2.0"))
      (field (codes "id") req_id (field (codes "method") (str method) (with_params params)))

abbrev pub notification_message : Text → Option Value → Fields
notification_message method params =
    field (codes "jsonrpc") (str (codes "2.0"))
      (field (codes "method") (str method) (with_params params))

-- The identifier of a request, and the next one.
abbrev pub given_id : Option Value → ℕ → Value
given_id none next = int (pos next)
given_id (some req_id) next = req_id

abbrev pub next_after : Option Value → ℕ → ℕ
next_after none next = suc next
next_after (some req_id) next = next

abbrev pub after_wait : Client → Written → Waited Fields → Answer
after_wait client w (returned message session events) = answered (record {
  message = message;
  client = record client { session = session };
  sent = w.sent;
  turns = w.turns;
  events = events;
})
after_wait client w invalid = refused no_request_id client
after_wait client w closed = aborted
after_wait client w (raised why) = aborted

-- How the write ended decides whether the answer is waited for.
abbrev pub after_write : WriteEnd → Client → Answer → Answer
after_write complete client answer = answer
after_write not_running client answer = refused not_ready client
after_write _ client answer = aborted

-- `{"capabilities":{}} if params is None else params`
abbrev pub initialize_params : Option Value → Value
initialize_params none = obj (field (codes "capabilities") (obj end) end)
initialize_params (some params) = params

abbrev pub initialized : Fields
initialized = notification_message (codes "initialized") (some (obj end))

module _ (dumps : Dumps) where
  -- `frame` of an object
  unfoldable pub frame : Value → Option Bytes
  frame value = do body ← dumps value; some (frame_bytes body)

  unfoldable pub send : Value ⊎ Bytes → Call → Refusal ⊎ Written
  unfolding frame
  send (inr raw) call =
      if call.is_positive then inr (write_all call.state raw call.turns) else inl no_duration
  send (inl value) call = elim (frame value) [
    | none ↦ inl not_encoded
    | some raw ↦
        if call.is_positive then inr (write_all call.state raw call.turns) else inl no_duration
  ]

  unfoldable pub frames : List Value → Option Bytes
  unfolding frame
  frames [] = some []
  frames (value ∷ values) = do first ← frame value; rest ← frames values; some (first ++ rest)

  unfoldable pub send_many : List Value → Call → Refusal ⊎ Written
  unfolding frames
  send_many values call = elim (frames values) [
    | none ↦ inl not_encoded
    | some raw ↦ inr (write_all call.state raw call.turns)
  ]

  unfoldable pub notify : Text → Option Value → Call → Refusal ⊎ Written
  unfolding send
  notify method params call = send (inl (obj (notification_message method params))) call

  module _ (py : Python) (settings : Settings) where
    unfoldable pub request_until : Client → Fields → Value → Call → Answer
    unfolding frame
    request_until client message req_id call = elim (frame (obj message)) [
      | none ↦ refused not_encoded client
      | some raw ↦
          let w = write_all call.state raw call.turns in
          after_write w.ending client
            (after_wait client w (wait_response py settings req_id client.session call.events))
    ]

    unfoldable pub request : Client → Text → Option Value → Option Value → Call → Answer
    unfolding request_until
    request client method params req_id call =
        let given = given_id req_id client.next_id in
        let next = record client { next_id = next_after req_id client.next_id } in
        let sending = request_until next (request_message given method params) given call in
        elim (id_key given false) [
          | none ↦ refused no_request_id next
          | some key ↦ if call.is_positive then sending else refused no_duration next
        ]

    unfoldable pub shutdown : Client → Call → Answer
    unfolding request
    shutdown client call = request client (codes "shutdown") none none call

    -- The notification after a response with a result.
    unfoldable pub confirm : Call → Exchange → Answer
    unfolding frame
    confirm call x = elim (frame (obj initialized)) [
      | none ↦ refused not_encoded x.client
      | some raw ↦
          let w = write_all call.later_state raw x.turns in
          after_write w.ending x.client
            (answered (record x { sent = x.sent ++ w.sent; turns = w.turns }))
    ]

    unfoldable pub initialize : Client → Option Value → Call → Answer
    unfolding request_until confirm
    initialize client params call =
        let given = int (pos client.next_id) in
        let message =
          request_message given (codes "initialize") (some (initialize_params params)) in
        let next = record client { next_id = suc client.next_id } in
        let reply : Answer = elim (request_until next message given call) [
          | answered x ↦ if has x.message (codes "result") then confirm call x else answered x
          | refused why c ↦ refused why c
          | aborted ↦ aborted
        ] in
        if call.is_positive then reply else refused no_duration client
