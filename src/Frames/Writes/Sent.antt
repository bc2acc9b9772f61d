-- ===== src/Frames/Writes/Sent.antt =====
-- What has gone into the server's stdin when a write of test/lsp_client.py ends.
use elisa_lsp.Base.{
  ℕ, zero, suc, ◌+◌, ◌≤◌, false, some, List, [], ◌∷◌, ◌++◌, length, take, drop, ltb, ◌≡◌, ◌≢◌, ◌⊎◌,
  refl, sym, ap, ◌∙◌, arith, All, inl, inr, Bool-cases, take_all, take-append, length-append,
  Sum-cases,
}
use elisa_lsp.Base.Bytes.{Bytes}
use elisa_lsp.Base.Int.{ℤ}
use elisa_lsp.Frames.{join_bytes}
use elisa_lsp.Frames.Fragments.{send_fragmented, send_fragmented-join}
use elisa_lsp.Frames.Writes.{
  round_of, Turn, too_late, interrupted, not_writable, write_failed, wrote, ProcessState,
  not_entered, already_closed, exited, running, WriteEnd, complete, timed_out_writing, input_closed,
  no_bytes, not_running, Written, write_from, write_all, write_pieces, followed_by,
}

-- The write returned and all has been sent, or it raised and only a part from the start has.
abbrev pub IsCut : Bytes → Written → Type 0
IsCut payload w =
    ((w.ending ≡ complete) × (w.sent ≡ payload))
    ⊎ ((n : ℕ) × (w.ending ≢ complete) × (n ≤ length payload) × (w.sent ≡ take n payload))

take-nil : (n : ℕ) → take {A = ℕ} n [] ≡ []
take-nil zero = refl
take-nil (suc n) = refl

take-take :
    (m n : ℕ) (payload : Bytes) → take m payload ++ take n (drop m payload) ≡ take (m + n) payload
take-take zero n payload = let same : n ≡ 0 + n = omega arith in ap (λ k. take k payload) same
take-take (suc m) n [] = take-nil n ∙ sym (take-nil (suc m + n))
take-take (suc m) n (b ∷ bs) =
    let same : suc (m + n) ≡ suc m + n = omega arith in
    ap (λ r. b ∷ r) (take-take m n bs) ∙ ap (λ k. take k (b ∷ bs)) same

round_of-ne-complete : (turn : Turn) → round_of turn ≢ inr complete
round_of-ne-complete too_late h = cc h
round_of-ne-complete interrupted h = cc h
round_of-ne-complete not_writable h = cc h
round_of-ne-complete write_failed h = cc h
round_of-ne-complete (wrote zero) h = cc h
round_of-ne-complete (wrote (suc n)) h = cc h

write_from-IsCut :
    (payload : Bytes) (offset : ℕ) (turns : List Turn)
    → IsCut payload (write_from payload offset (take offset payload) turns)
unfolding write_from
write_from-IsCut payload offset [] = elim (Bool-cases (ltb offset (length payload))) [
  | inl e ↦ rw (write_from, e) (inr (offset, (λ h. cc h), ground arith, refl))
  | inr e ↦ rw (write_from, e) (inl (refl, take_all offset payload (ground arith)))
]
write_from-IsCut payload offset (turn ∷ turns) = elim (Bool-cases (ltb offset (length payload))) [
  | inr e ↦ rw (write_from, e) (inl (refl, take_all offset payload (ground arith)))
  | inl e ↦ elim (Sum-cases (round_of turn)) [
    | inl (n, f) ↦
        rw (write_from, e, f, take-take offset n payload)
          (write_from-IsCut payload (offset + n) turns)
    | inr (ending, f) ↦
        rw (write_from, e, f)
          (inr (offset, (λ h. round_of-ne-complete turn (f ∙ ap inr h)), ground arith, refl))
  ]
]

pub write_all-IsCut :
    (state : ProcessState) (payload : Bytes) (turns : List Turn)
    → IsCut payload (write_all state payload turns)
unfolding write_all
write_all-IsCut running payload turns = write_from-IsCut payload 0 turns
write_all-IsCut not_entered payload turns = inr (0, (λ e. cc e), omega arith, refl)
write_all-IsCut already_closed payload turns = inr (0, (λ e. cc e), omega arith, refl)
write_all-IsCut exited payload turns = inr (0, (λ e. cc e), omega arith, refl)

followed_by-ne-complete :
    (ending : WriteEnd) (first rest : Written)
    → ending ≢ complete
    → followed_by ending first rest ≡ first
followed_by-ne-complete complete first rest h = absurd (h refl)
followed_by-ne-complete timed_out_writing first rest h = refl
followed_by-ne-complete input_closed first rest h = refl
followed_by-ne-complete no_bytes first rest h = refl
followed_by-ne-complete not_running first rest h = refl

take-past : (n : ℕ) (xs ys : Bytes) → xs ++ take n ys ≡ take (length xs + n) (xs ++ ys)
take-past n [] ys = let same : n ≡ 0 + n = omega arith in ap (λ k. take k ys) same
take-past n (x ∷ xs) ys =
    let same : suc (length xs + n) ≡ suc (length xs) + n = omega arith in
    ap (λ r. x ∷ r) (take-past n xs ys) ∙ ap (λ k. take k (x ∷ (xs ++ ys))) same

write_pieces-IsCut :
    (states : List ProcessState) (pieces : List Bytes) (turns : List Turn)
    → IsCut (join_bytes pieces) (write_pieces states pieces turns)
unfolding write_pieces
write_pieces-IsCut states [] turns = inl (refl, refl)
write_pieces-IsCut [] (piece ∷ pieces) turns = inr (0, (λ e. cc e), omega arith, refl)
write_pieces-IsCut (state ∷ states) (piece ∷ pieces) turns =
    let first = write_all state piece turns in
    elim (write_all-IsCut state piece turns) [
      | inl (done, sent) ↦ elim (write_pieces-IsCut states pieces first.turns) [
        | inl (all_done, rest) ↦
            rw (write_pieces, done)
              (inl
                (all_done, ap (λ r. first.sent ++ r) rest ∙ ap (λ r. r ++ join_bytes pieces) sent))
        | inr (n, other, below, rest) ↦
            rw (write_pieces, done)
              (inr (
                length piece + n,
                other,
                omega (arith, below, length-append piece (join_bytes pieces)),
                ap (λ r. first.sent ++ r) rest
                    ∙ ap (λ r. r ++ take n (join_bytes pieces)) sent
                    ∙ take-past n piece (join_bytes pieces),
              ))
      ]
      | inr (n, other, below, sent) ↦
          let stops =
            followed_by-ne-complete first.ending first (write_pieces states pieces first.turns)
              other in
          rw (write_pieces, stops)
            (inr (
              n,
              other,
              omega (arith, below, length-append piece (join_bytes pieces)),
              sent ∙ sym (take-append n piece (join_bytes pieces) below),
            ))
    ]

-- When send_fragmented writes a byte stream, either all its writes return and the server's stdin has
-- got the stream, or it raises and stdin has got a part from the start of the stream; whatever the
-- splits, the reads of the other side and the interruptions are.
pub send_fragmented-IsCut :
    (whole : Bytes) (splits : List ℤ) (pieces : List Bytes) (states : List ProcessState)
    (turns : List Turn)
    → send_fragmented whole splits ≡ some pieces
    → IsCut whole (write_pieces states pieces turns)
send_fragmented-IsCut whole splits pieces states turns h =
    rw (send_fragmented-join whole splits pieces h) at (write_pieces-IsCut states pieces turns)

-- Rounds in which the system sends something or is interrupted.
abbrev pub IsHealthy : Turn → Type 0
IsHealthy interrupted = Unit
IsHealthy (wrote (suc n)) = Unit
IsHealthy _ = ⊥

abbrev pub offered : List Turn → ℕ
offered [] = 0
offered (wrote n ∷ turns) = n + offered turns
offered (_ ∷ turns) = offered turns

write_from-complete :
    (payload : Bytes) (offset : ℕ) (sent : Bytes) (turns : List Turn)
    → All IsHealthy turns
    → length payload ≤ offset + offered turns
    → (write_from payload offset sent turns).ending ≡ complete
unfolding write_from
write_from-complete payload offset sent [] healthy enough =
    let done : ltb offset (length payload) ≡ false = ground arith in rw (write_from, done) refl
write_from-complete payload offset sent (interrupted ∷ turns) healthy enough =
    elim (Bool-cases (ltb offset (length payload))) [
      | inr e ↦ rw (write_from, e) refl
      | inl e ↦
          rw (write_from, e)
            (write_from-complete payload (offset + 0) (sent ++ []) turns healthy.1
              (omega (arith, enough)))
    ]
write_from-complete payload offset sent (wrote (suc n) ∷ turns) healthy enough =
    elim (Bool-cases (ltb offset (length payload))) [
      | inr e ↦ rw (write_from, e) refl
      | inl e ↦
          rw (write_from, e)
            (write_from-complete payload (offset + suc n)
              (sent ++ take (suc n) (drop offset payload)) turns healthy.1 (omega (arith, enough)))
    ]
write_from-complete payload offset sent (wrote zero ∷ turns) healthy enough = absurd healthy.0
write_from-complete payload offset sent (too_late ∷ turns) healthy enough = absurd healthy.0
write_from-complete payload offset sent (not_writable ∷ turns) healthy enough = absurd healthy.0
write_from-complete payload offset sent (write_failed ∷ turns) healthy enough = absurd healthy.0

-- A write to a running process sends all the bytes and returns, if no round fails or comes too late and
-- the other side takes as many bytes in all.
pub write_all-complete :
    (payload : Bytes) (turns : List Turn)
    → All IsHealthy turns
    → length payload ≤ offered turns
    → ((write_all running payload turns).ending ≡ complete)
      × ((write_all running payload turns).sent ≡ payload)
unfolding write_all
write_all-complete payload turns healthy enough =
    let ends = write_from-complete payload 0 [] turns healthy (omega (arith, enough)) in
    elim (write_all-IsCut running payload turns) [
      | inl all ↦ all
      | inr (n, other, below, sent) ↦ absurd (other ends)
    ]
