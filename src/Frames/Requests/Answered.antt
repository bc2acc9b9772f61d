-- ===== src/Frames/Requests/Answered.antt =====
-- What has been written and read when a request of test/lsp_client.py is answered.
use elisa_lsp.Base.{
  suc, false, Option, none, some, List, ◌++◌, ◌≡◌, refl, sym, ap, ◌∙◌, inl, inr, Bool-cases,
  Option-cases,
}
use elisa_lsp.Base.Bytes.{Bytes}
use elisa_lsp.Base.Int.{pos}
use elisa_lsp.Base.Text.{Text}
use elisa_lsp.Json.{Value, int, obj, Fields}
use elisa_lsp.Frames.{Python}
use elisa_lsp.Frames.Ids.{IdKey, id_key}
use elisa_lsp.Frames.Session.{Settings, LspSession, Event, pump_all}
use elisa_lsp.Frames.Waits.{Waited, returned, closed, invalid, raised, wait_response, response_of}
use elisa_lsp.Frames.Waits.Found.{wait_until_sound}
use elisa_lsp.Frames.Writes.{
  Turn, ProcessState, WriteEnd, complete, timed_out_writing, input_closed, no_bytes, not_running,
  Written, write_all,
}
use elisa_lsp.Frames.Writes.Sent.{write_all-IsCut}
use elisa_lsp.Frames.Requests.{
  Dumps, Client, Call, Exchange, Answer, answered, request_message, frame, after_wait, after_write,
  request_until, request,
}

pub answered_injective : (x y : Exchange) → answered x ≡ answered y → x ≡ y
answered_injective x y h = cc h

module _ (py : Python) (settings : Settings) where
  -- A response to the identifier that the session holds after the events that were read.
  pub record IsResponse (session : LspSession) (call : Call) (req_id : Value) (x : Exchange)
      : Type 0 where
    pub key : IdKey
    pub is_key : id_key req_id false ≡ some key
    pub is_there : response_of x.client.session.responses key ≡ some x.message
    pub read : List Event
    pub is_read : call.events ≡ read ++ x.events
    pub is_pumped : pump_all py settings session read ≡ inr x.client.session

  wait_response_sound :
      (req_id : Value) (s s' : LspSession) (events rest : List Event) (m : Fields)
      → wait_response py settings req_id s events ≡ returned m s' rest
      → (key : IdKey) × (id_key req_id false ≡ some key)
        × (read : List Event) × (events ≡ read ++ rest)
        × (pump_all py settings s read ≡ inr s')
        × (response_of s'.responses key ≡ some m)
  unfolding wait_response
  wait_response_sound req_id s s' events rest m h = elim (Option-cases (id_key req_id false)) [
    | inl e ↦ cc (rw (wait_response, e) at h)
    | inr (key, e) ↦
        let (read, split, pumped, there) =
          wait_until_sound py settings (λ x. response_of x.responses key) events rest s s' m
            (rw (wait_response, e) at h) in
        (key, e, read, split, pumped, there)
  ]

  module _ (dumps : Dumps) where
    pub after_write-answered :
        (ending : WriteEnd) (client : Client) (answer : Answer) (x : Exchange)
        → after_write ending client answer ≡ answered x
        → (ending ≡ complete) × (answer ≡ answered x)
    after_write-answered complete client answer x h = (refl, h)
    after_write-answered not_running client answer x h = cc h
    after_write-answered timed_out_writing client answer x h = cc h
    after_write-answered input_closed client answer x h = cc h
    after_write-answered no_bytes client answer x h = cc h

    after_wait-answered :
        (client : Client) (w : Written) (waited : Waited Fields) (x : Exchange)
        → after_wait client w waited ≡ answered x
        → (waited ≡ returned x.message x.client.session x.events)
          × (x.sent ≡ w.sent)
          × (x.client.next_id ≡ client.next_id)
          × (x.turns ≡ w.turns)
    after_wait-answered client w (returned m s events) x h =
        let same = answered_injective _ x h in
        (
          ap {B = Waited Fields} (λ (y : Exchange). returned y.message y.client.session y.events)
              same,
          ap (λ (y : Exchange). y.sent) (sym same),
          ap (λ (y : Exchange). y.client.next_id) (sym same),
          ap (λ (y : Exchange). y.turns) (sym same),
        )
    after_wait-answered client w closed x h = cc h
    after_wait-answered client w invalid x h = cc h
    after_wait-answered client w (raised why) x h = cc h

    pub write_all-sent :
        (state : ProcessState) (raw : Bytes) (turns : List Turn)
        → (write_all state raw turns).ending ≡ complete
        → (write_all state raw turns).sent ≡ raw
    write_all-sent state raw turns done = elim (write_all-IsCut state raw turns) [
      | inl (ends, whole) ↦ whole
      | inr (n, other, below, part) ↦ absurd (other done)
    ]

    pub request_until-IsResponse :
        (client : Client) (message : Fields) (req_id : Value) (call : Call) (x : Exchange)
        → request_until dumps py settings client message req_id call ≡ answered x
        → (raw : Bytes) × (frame dumps (obj message) ≡ some raw)
          × (x.sent ≡ raw)
          × (x.client.next_id ≡ client.next_id)
          × IsResponse client.session call req_id x
    unfolding request_until
    request_until-IsResponse client message req_id call x h =
        elim (Option-cases (frame dumps (obj message))) [
          | inl e ↦ cc (rw (request_until, e) at h)
          | inr (raw, e) ↦
              let w = write_all call.state raw call.turns in
              let waited = wait_response py settings req_id client.session call.events in
              let (done, answer) =
                after_write-answered w.ending client (after_wait client w waited) x
                  (rw (request_until, e) at h) in
              let (found, sent, next, left) = after_wait-answered client w waited x answer in
              let (key, k, read, split, pumped, there) =
                wait_response_sound req_id client.session x.client.session call.events x.events
                  x.message found in
              let all = write_all-sent call.state raw call.turns done in
              (
                raw,
                e,
                sent ∙ all,
                next,
                record {
                  key = key;
                  is_key = k;
                  is_there = there;
                  read = read;
                  is_read = split;
                  is_pumped = pumped;
                },
              )
        ]

    -- A request without an identifier of its own that is answered has written its frame in full, with
    -- the next identifier, which it has taken; its answer is the response that the session holds for
    -- that identifier after the events that were read.
    pub request-IsResponse :
        (client : Client) (method : Text) (params : Option Value) (call : Call) (x : Exchange)
        → request dumps py settings client method params none call ≡ answered x
        → (raw : Bytes) × (frame dumps
              (obj (request_message (int (pos client.next_id)) method params))
            ≡ some raw)
          × (x.sent ≡ raw)
          × (x.client.next_id ≡ suc client.next_id)
          × IsResponse client.session call (int (pos client.next_id)) x
    unfolding request
    request-IsResponse client method params call x h =
        let given = int (pos client.next_id) in
        elim (Option-cases (id_key given false)) [
          | inl e ↦ cc (rw (request, e) at h)
          | inr (key, e) ↦ elim (Bool-cases call.is_positive) [
            | inr f ↦ cc (rw (request, e, f) at h)
            | inl f ↦
                let (raw, framed, sent, next, response) =
                  request_until-IsResponse (record client { next_id = suc client.next_id })
                    (request_message given method params) given call x (rw (request, e, f) at h) in
                (raw, framed, sent, next, response)
          ]
        ]
