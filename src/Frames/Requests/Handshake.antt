-- ===== src/Frames/Requests/Handshake.antt =====
-- What initialize of test/lsp_client.py has written when it is answered.
use elisa_lsp.Base.{
  suc, true, false, Option, some, List, ◌++◌, ◌≡◌, refl, sym, ap, ◌∙◌, ◌⊎◌, inl, inr, Bool-cases,
  Option-cases,
}
use elisa_lsp.Base.Bytes.{Bytes}
use elisa_lsp.Base.Int.{pos}
use elisa_lsp.Base.Text.{codes}
use elisa_lsp.Json.{Value, int, obj}
use elisa_lsp.Frames.{Python}
use elisa_lsp.Frames.Ids.{has}
use elisa_lsp.Frames.Session.{Settings, LspSession}
use elisa_lsp.Frames.Writes.{Turn, write_all}
use elisa_lsp.Frames.Requests.{
  Dumps, Client, Call, Exchange, Refusal, Answer, answered, refused, aborted, request_message,
  frame, request_until, initialized, initialize_params, confirm, initialize,
}
use elisa_lsp.Frames.Requests.Answered.{
  answered_injective, IsResponse, after_write-answered, write_all-sent, request_until-IsResponse,
}

Answer-cases :
    (a : Answer)
    → ((y : Exchange) × (a ≡ answered y))
      ⊎ (((why : Refusal) × (c : Client) × (a ≡ refused why c)) ⊎ (a ≡ aborted))
Answer-cases (answered y) = inl (y, refl)
Answer-cases (refused why c) = inr (inl (why, c, refl))
Answer-cases aborted = inr (inr refl)

module _ (py : Python) (settings : Settings) where
  confirmed-IsResponse :
      (session : LspSession) (call : Call) (req_id : Value) (y : Exchange) (more : Bytes)
      (turns : List Turn)
      → IsResponse py settings session call req_id y
      → IsResponse py settings session call req_id
          (record y { sent = y.sent ++ more; turns = turns })
  confirmed-IsResponse session call req_id y more turns r = record {
    key = r.key;
    is_key = r.is_key;
    is_there = r.is_there;
    read = r.read;
    is_read = r.is_read;
    is_pumped = r.is_pumped;
  }

  module _ (dumps : Dumps) where
    confirm-answered :
        (call : Call) (y x : Exchange)
        → confirm dumps py settings call y ≡ answered x
        → (raw : Bytes) × (frame dumps (obj initialized) ≡ some raw)
          × (record y { sent = y.sent ++ raw; turns = x.turns } ≡ x)
    unfolding confirm
    confirm-answered call y x h = elim (Option-cases (frame dumps (obj initialized))) [
      | inl e ↦ cc (rw (confirm, e) at h)
      | inr (raw, e) ↦
          let w = write_all call.later_state raw y.turns in
          let after : Answer = answered (record y { sent = y.sent ++ w.sent; turns = w.turns }) in
          let (done, answer) =
            after_write-answered py settings dumps w.ending y.client after x
              (rw (confirm, e) at h) in
          let same = answered_injective _ x answer in
          let all = write_all-sent py settings dumps call.later_state raw y.turns done in
          (
            raw,
            e,
            ap (λ b. record y { sent = y.sent ++ b; turns = x.turns }) (sym all)
                ∙ ap (λ t. record y { sent = y.sent ++ w.sent; turns = t })
                    (ap (λ (z : Exchange). z.turns) (sym same))
                ∙ same,
          )
    ]

    -- An answered initialize has written its request, and after it the notification `initialized`
    -- exactly if the response has a result; the response is the one that the session holds for the
    -- request's identifier, which is the next one.
    pub initialize-IsResponse :
        (client : Client) (params : Option Value) (call : Call) (x : Exchange)
        → initialize dumps py settings client params call ≡ answered x
        → (raw : Bytes) × (frame dumps (
              obj (
                request_message
                  (int (pos client.next_id))
                  (codes "initialize")
                  (some (initialize_params params))))
            ≡ some raw)
          × (((has x.message (codes "result") ≡ false) × (x.sent ≡ raw))
              ⊎ ((has x.message (codes "result") ≡ true)
                  × (more : Bytes) × (frame dumps (obj initialized) ≡ some more)
                  × (x.sent ≡ raw ++ more)))
          × (x.client.next_id ≡ suc client.next_id)
          × IsResponse py settings client.session call (int (pos client.next_id)) x
    unfolding initialize
    initialize-IsResponse client params call x h =
        let given = int (pos client.next_id) in
        let message =
          request_message given (codes "initialize") (some (initialize_params params)) in
        let next = record client { next_id = suc client.next_id } in
        elim (Bool-cases call.is_positive) [
          | inr e ↦ cc (rw (initialize, e) at h)
          | inl e ↦ elim (Answer-cases (request_until dumps py settings next message given call)) [
            | inr (inr f) ↦ cc (rw (initialize, e, f) at h)
            | inr (inl (why, c, f)) ↦ cc (rw (initialize, e, f) at h)
            | inl (y, f) ↦
                let (raw, framed, sent, taken, response) =
                  request_until-IsResponse py settings dumps next message given call y f in
                elim (Bool-cases (has y.message (codes "result"))) [
                  | inr g ↦
                      let same = answered_injective y x (rw (initialize, e, f, g) at h) in
                      rw (← same) (raw, framed, inl (g, sent), taken, response)
                  | inl g ↦
                      let (more, framed', same) =
                        confirm-answered call y x (rw (initialize, e, f, g) at h) in
                      rw (← same) (
                        raw,
                        framed,
                        inr (g, more, framed', ap (λ b. b ++ more) sent),
                        taken,
                        confirmed-IsResponse client.session call given y more x.turns response,
                      )
                ]
          ]
        ]
