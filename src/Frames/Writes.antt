-- ===== src/Frames/Writes.antt =====
-- What LspSession of test/lsp_client.py writes to the server's stdin: _ensure_running and _write_all.
-- What the system answers to one round of the loop is a turn; rounds that find the deadline past stand
-- at the end of the turns.
pub mod Sent
use elisa_lsp.Base.{
  ℕ, zero, suc, ◌+◌, Bool, true, false, List, [], ◌∷◌, ◌++◌, length, take, drop, ltb, if◌then◌else◌,
  ◌⊎◌, inl, inr,
}
use elisa_lsp.Base.Bytes.{Bytes}

-- What `select` and `os.write` do; `wrote n` is the number that `os.write` returns.
pub data Turn : Type 0 where
  too_late interrupted not_writable write_failed : Turn
  wrote : ℕ → Turn

-- What the checks before a write find of the process.
pub data ProcessState : Type 0 where
  not_entered already_closed exited running : ProcessState

-- How a write ends; all but `complete` are `LspError`.
pub data WriteEnd : Type 0 where
  complete timed_out_writing input_closed no_bytes not_running : WriteEnd

pub record Written : Type 0 where
  pub sent : Bytes
  pub ending : WriteEnd
  pub turns : List Turn

-- The number of bytes that a round sends, or how the write ends in it.
abbrev pub round_of : Turn → ℕ ⊎ WriteEnd
round_of too_late = inr timed_out_writing
round_of interrupted = inl 0
round_of not_writable = inr timed_out_writing
round_of write_failed = inr input_closed
round_of (wrote zero) = inr no_bytes
round_of (wrote (suc n)) = inl (suc n)

-- The loop; `sent` has gone into the pipe so far.
unfoldable pub write_from : Bytes → ℕ → Bytes → List Turn → Written
write_from payload offset sent [] =
    if ltb offset (length payload)
    then record { sent = sent; ending = timed_out_writing; turns = [] }
    else record { sent = sent; ending = complete; turns = [] }
write_from payload offset sent (turn ∷ turns) =
    let next : Written = elim (round_of turn) [
      | inr ending ↦ record { sent = sent; ending = ending; turns = turns }
      | inl n ↦ write_from payload (offset + n) (sent ++ take n (drop offset payload)) turns
    ] in
    if ltb offset (length payload)
    then next
    else record { sent = sent; ending = complete; turns = turn ∷ turns }

-- `_write_all`
unfoldable pub write_all : ProcessState → Bytes → List Turn → Written
unfolding write_from
write_all running payload turns = write_from payload 0 [] turns
write_all _ payload turns = record { sent = []; ending = not_running; turns = turns }

-- The first write, and the second if the first returns.
abbrev pub followed_by : WriteEnd → Written → Written → Written
followed_by complete first rest = record {
  sent = first.sent ++ rest.sent;
  ending = rest.ending;
  turns = rest.turns;
}
followed_by _ first rest = first

-- `for start, end in ...: self._write_all(data[start:end], deadline)`, with the states that the checks
-- find; an error ends the writes.
unfoldable pub write_pieces : List ProcessState → List Bytes → List Turn → Written
unfolding write_all
write_pieces states [] turns = record { sent = []; ending = complete; turns = turns }
write_pieces [] (piece ∷ pieces) turns = record { sent = []; ending = not_running; turns = turns }
write_pieces (state ∷ states) (piece ∷ pieces) turns =
    let first = write_all state piece turns in
    followed_by first.ending first (write_pieces states pieces first.turns)
