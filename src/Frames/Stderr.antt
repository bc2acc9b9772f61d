-- ===== src/Frames/Stderr.antt =====
-- The server's stderr in test/lsp_client.py: _drain_stderr, stderr_text and assert_no_stderr_errors
-- of LspSession.
pub mod Kept
use elisa_lsp.Base.{
  ℕ, ◌-◌, Bool, true, false, not, ◌&&◌, ◌||◌, List, [], ◌∷◌, ◌++◌, length, take, drop, ltb,
  if◌then◌else◌,
}
use elisa_lsp.Base.Bytes.{Bytes}
use elisa_lsp.Base.Text.{Text, codes, splitlines}

-- `_stderr_tail` and `_stderr_truncated`
pub record Stderr : Type 0 where
  pub tail : Bytes
  pub is_truncated : Bool

abbrev pub new_stderr : Stderr
new_stderr = record { tail = []; is_truncated = false }

unfoldable pub drain_chunk : ℕ → Stderr → Bytes → Stderr
drain_chunk stderr_limit s chunk =
    let tail = s.tail ++ chunk in
    if ltb stderr_limit (length tail)
    then record { tail = drop (length tail - stderr_limit) tail; is_truncated = true }
    else record { tail = tail; is_truncated = s.is_truncated }

-- The chunks that `os.read` returns, up to an empty one or until the readers stop.
unfoldable pub drain_stderr : ℕ → Stderr → List Bytes → Stderr
unfolding drain_chunk
drain_stderr stderr_limit s [] = s
drain_stderr stderr_limit s ([] ∷ chunks) = s
drain_stderr stderr_limit s ((b ∷ bs) ∷ chunks) =
    drain_stderr stderr_limit (drain_chunk stderr_limit s (b ∷ bs)) chunks

-- `decode("utf-8", errors="replace")`, and whether `re.search` with `re.IGNORECASE` finds a pattern in
-- a line.
pub record Reading : Type 0 where
  pub decode : Bytes → Text
  pub search : Text → Text → Bool

pub data Assertion : Type 0 where
  clean truncated : Assertion
  unexpected : List Text → Assertion

module _ (reading : Reading) where
  unfoldable pub stderr_text : Stderr → Text
  stderr_text s =
      if s.is_truncated
      then codes "[earlier stderr truncated] " ++ reading.decode s.tail
      else reading.decode s.tail

  abbrev pub any_found : List Text → Text → Bool
  any_found [] line = false
  any_found (pattern ∷ patterns) line = reading.search pattern line || any_found patterns line

  abbrev pub is_unexpected : List Text → List Text → Text → Bool
  is_unexpected patterns allowed line = any_found patterns line && not (any_found allowed line)

  unfoldable pub unexpected_lines : List Text → List Text → List Text → List Text
  unexpected_lines patterns allowed [] = []
  unexpected_lines patterns allowed (line ∷ lines) =
      let later = unexpected_lines patterns allowed lines in
      if is_unexpected patterns allowed line then line ∷ later else later

  -- The error names the first eight lines.
  unfoldable pub assert_no_stderr_errors : List Text → List Text → Stderr → Assertion
  unfolding unexpected_lines
  assert_no_stderr_errors patterns allowed s =
      let found = unexpected_lines patterns allowed (splitlines (reading.decode s.tail)) in
      let checked : Assertion = elim found [
        | [] ↦ clean
        | line ∷ lines ↦ unexpected (take 8 (line ∷ lines))
      ] in
      if s.is_truncated then truncated else checked
