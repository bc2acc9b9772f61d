-- ===== src/Frames/Stderr/Kept.antt =====
-- Which bytes of stderr test/lsp_client.py keeps, and what it takes for stderr to be clean.
use mathlib.Core.List.{append_assoc, append-nil}
use elisa_lsp.Base.{
  ℕ, ◌+◌, ◌-◌, ◌≤◌, Bool, false, List, [], ◌∷◌, ◌++◌, length, drop, ltb, ◌≡◌, ◌↔◌, refl, sym, ap,
  ◌∙◌, arith, All, inl, inr, Bool-cases, length-append, length-drop, drop-append, drop-drop,
  drop-nil, List-cases,
}
use elisa_lsp.Base.Bytes.{Bytes}
use elisa_lsp.Base.Text.{Text, splitlines}
use elisa_lsp.Frames.Stderr.{
  Stderr, new_stderr, drain_chunk, drain_stderr, Reading, clean, is_unexpected, unexpected_lines,
  assert_no_stderr_errors,
}

-- All that was read, up to the end of stderr.
abbrev pub read_bytes : List Bytes → Bytes
read_bytes [] = []
read_bytes ([] ∷ chunks) = []
read_bytes ((b ∷ bs) ∷ chunks) = (b ∷ bs) ++ read_bytes chunks

-- The last bytes within the limit, and whether there were others.
abbrev pub last_of : ℕ → Bytes → Stderr
last_of stderr_limit all = record {
  tail = drop (length all - stderr_limit) all;
  is_truncated = ltb stderr_limit (length all);
}

last_tail :
    (stderr_limit k : ℕ) (all chunk : Bytes)
    → length all - stderr_limit ≡ k
    → drop k all ++ chunk ≡ drop k (all ++ chunk)
last_tail stderr_limit k all chunk h = sym (drop-append k all chunk (omega (arith, h)))

abbrev kept_as : Bytes → Bool → Stderr
kept_as t b = record { tail = t; is_truncated = b }

Stderr-eq : {t t' : Bytes} {b b' : Bool} → t ≡ t' → b ≡ b' → kept_as t b ≡ kept_as t' b'
Stderr-eq p q = λ i. kept_as (p i) (q i)

drain_chunk-last_of :
    (stderr_limit : ℕ) (all chunk : Bytes)
    → drain_chunk stderr_limit (last_of stderr_limit all) chunk
      ≡ last_of stderr_limit (all ++ chunk)
unfolding drain_chunk
drain_chunk-last_of stderr_limit all chunk =
    let k = length all - stderr_limit in
    let whole = all ++ chunk in
    let joined : drop k all ++ chunk ≡ drop k whole = last_tail stderr_limit k all chunk refl in
    let size : length whole ≡ length all + length chunk = length-append all chunk in
    let left : length (drop k whole) ≡ length whole - k = length-drop k whole in
    elim (Bool-cases (ltb stderr_limit (length (drop k whole)))) [
      | inl e ↦
          rw (drain_chunk, joined, e)
            (Stderr-eq
              (drop-drop (length (drop k whole) - stderr_limit) k (length whole - stderr_limit)
                whole (ground arith))
              (ground arith))
      | inr e ↦
          let same : k ≡ length whole - stderr_limit = ground arith in
          rw (drain_chunk, joined, e) (Stderr-eq (ap (λ n. drop n whole) same) (ground arith))
    ]

drain_stderr-last_of :
    (stderr_limit : ℕ) (all : Bytes) (chunks : List Bytes)
    → drain_stderr stderr_limit (last_of stderr_limit all) chunks
      ≡ last_of stderr_limit (all ++ read_bytes chunks)
unfolding drain_stderr
drain_stderr-last_of stderr_limit all [] = ap (last_of stderr_limit) (sym (append-nil all))
drain_stderr-last_of stderr_limit all ([] ∷ chunks) =
    ap (last_of stderr_limit) (sym (append-nil all))
drain_stderr-last_of stderr_limit all ((b ∷ bs) ∷ chunks) =
    ap (λ s. drain_stderr stderr_limit s chunks) (drain_chunk-last_of stderr_limit all (b ∷ bs))
    ∙ drain_stderr-last_of stderr_limit (all ++ (b ∷ bs)) chunks
    ∙ ap (last_of stderr_limit) (append_assoc all (b ∷ bs) (read_bytes chunks))

-- What is kept of stderr is its last bytes within the limit, however the reads cut it, and it counts
-- as truncated exactly if there were more.
pub drain_stderr_exact :
    (stderr_limit : ℕ) (chunks : List Bytes)
    → drain_stderr stderr_limit new_stderr chunks ≡ last_of stderr_limit (read_bytes chunks)
drain_stderr_exact stderr_limit chunks =
    let start : new_stderr ≡ last_of stderr_limit [] =
      Stderr-eq (sym (drop-nil (0 - stderr_limit))) (ground arith) in
    ap (λ s. drain_stderr stderr_limit s chunks) start ∙ drain_stderr-last_of stderr_limit [] chunks

module _ (reading : Reading) (patterns allowed : List Text) where
  unexpected_lines_iff :
      (lines : List Text)
      → (unexpected_lines reading patterns allowed lines ≡ [])
        ↔ All (λ line. is_unexpected reading patterns allowed line ≡ false) lines
  unfolding unexpected_lines
  unexpected_lines_iff [] = (λ h. tt, λ h. refl)
  unexpected_lines_iff (line ∷ lines) =
      let (to, from) = unexpected_lines_iff lines in
      elim (Bool-cases (is_unexpected reading patterns allowed line)) [
        | inl e ↦ (λ h. cc (rw (unexpected_lines, e) at h), λ h. cc (h.0, e))
        | inr e ↦
            (λ h. (e, to (rw (unexpected_lines, e) at h)), λ h. rw (unexpected_lines, e) (from h.1))
      ]

  assertion_iff :
      (s : Stderr)
      → (assert_no_stderr_errors reading patterns allowed s ≡ clean) ↔ (
          (s.is_truncated ≡ false)
          × All
              (λ line. is_unexpected reading patterns allowed line ≡ false)
              (splitlines (reading.decode s.tail)))
  unfolding assert_no_stderr_errors
  assertion_iff s =
      let lines = splitlines (reading.decode s.tail) in
      let (to, from) = unexpected_lines_iff lines in
      elim (Bool-cases s.is_truncated) [
        | inl e ↦ (λ h. cc (rw (assert_no_stderr_errors, e) at h), λ h. cc (h.0, e))
        | inr e ↦ elim (List-cases (unexpected_lines reading patterns allowed lines)) [
          | inl f ↦ (λ h. (e, to f), λ h. rw (assert_no_stderr_errors, e, f))
          | inr (line, more, f) ↦
              (λ h. cc (rw (assert_no_stderr_errors, e, f) at h), λ h. cc (f, from h.1))
        ]
      ]

  -- The assertion passes exactly if all that the server wrote to stderr was kept, and no line of it
  -- has an error pattern without an allowed one.
  pub assert_no_stderr_errors_iff :
      (stderr_limit : ℕ) (chunks : List Bytes)
      → (assert_no_stderr_errors reading patterns allowed
            (drain_stderr stderr_limit new_stderr chunks)
          ≡ clean)
        ↔ ((length (read_bytes chunks) ≤ stderr_limit)
            × All
                (λ line. is_unexpected reading patterns allowed line ≡ false)
                (splitlines (reading.decode (read_bytes chunks))))
  assert_no_stderr_errors_iff stderr_limit chunks =
      let all = read_bytes chunks in
      let kept = drain_stderr_exact stderr_limit chunks in
      let (to, from) = assertion_iff (last_of stderr_limit all) in
      (
        λ h.
            let (whole, lines) = to (rw kept at h) in
            let fits : length all ≤ stderr_limit = ground arith in
            let none_lost : length all - stderr_limit ≡ 0 = omega (arith, fits) in
            (fits, rw none_lost at lines),
        λ (fits, lines).
            let none_lost : length all - stderr_limit ≡ 0 = omega (arith, fits) in
            rw kept (from (ground arith, rw none_lost lines)),
      )
