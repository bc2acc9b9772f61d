-- ===== src/Frames.antt =====
-- The frames of the language server protocol, as test/lsp_client.py reads and writes them: the bytes
-- of a frame, its header, and its message.
pub mod Decoder
pub mod Marker
pub mod Rounds
pub mod Chunks
pub mod Printed
pub mod Stream
pub mod Bounded
pub mod Resumed
pub mod Ids
pub mod Distinct
pub mod Session
pub mod Recorded
pub mod Pumped
pub mod Drained
pub mod Waits
pub mod Fragments
pub mod Stderr
pub mod Writes
pub mod Requests
use mathlib.Core.List.{reverse}
use elisa_lsp.Base.{
  ℕ, ◌+◌, Bool, true, false, not, ◌&&◌, ◌||◌, Option, none, some, List, [], ◌∷◌, ◌++◌, length, ◌==◌,
  ltb, leb, if◌then◌else◌, ◌⊎◌, inl, inr, map,
}
use elisa_lsp.Base.Text.{Text, codes, equal}
use elisa_lsp.Base.Bytes.{Bytes}
use elisa_lsp.Base.Patterns.{span}
use elisa_lsp.Base.Decimal.{decimal, is_digit, value_of}
use elisa_lsp.Json.{Value, Fields, as_object}

pub data FrameError : Type 0 where
  header_exceeds empty_line malformed_line duplicate_field control_byte : FrameError
  no_content_length invalid_length length_too_large body_exceeds : FrameError
  invalid_text invalid_json not_an_object : FrameError
  truncated_body truncated_header : FrameError

pub record Limits : Type 0 where
  pub max_header_bytes : ℕ
  pub max_body_bytes : ℕ

-- What Python does behind the module: `bytes.decode`, `json.loads` with the module's hooks, and
-- whether `int` takes a text of so many digits.
pub record Python : Type 0 where
  pub decode : Bytes → Option Text
  pub loads : Text → Option Value
  pub takes_digits : ℕ → Bool

abbrev pub cr : ℕ
cr = 0x0d

abbrev pub lf : ℕ
lf = 0x0a

abbrev pub marker : Bytes
marker = cr ∷ lf ∷ cr ∷ lf ∷ []

abbrev pub content_length_colon : Bytes
content_length_colon = codes "Content-Length: "

unfoldable pub frame_bytes : Bytes → Bytes
unfolding decimal
frame_bytes body = content_length_colon ++ (decimal (length body) ++ (marker ++ body))

-- `b"".join(...)`
abbrev pub join_bytes : List Bytes → Bytes
join_bytes [] = []
join_bytes (b ∷ bs) = b ++ join_bytes bs

abbrev pub joined : ℕ → List Bytes → List Bytes
joined c [] = []
joined c (l ∷ ls) = (c ∷ l) ∷ ls

-- `header.split(b"\r\n")`
unfoldable pub split_lines : Bytes → List Bytes
split_lines [] = [] ∷ []
split_lines (c ∷ []) = (c ∷ []) ∷ []
split_lines (c ∷ d ∷ rest) =
    let apart = [] ∷ split_lines rest in
    let same = joined c (split_lines (d ∷ rest)) in if c == cr && d == lf then apart else same

-- `[!#$%&'*+\-.^_`|~0-9A-Za-z]`
unfoldable pub is_token_byte : ℕ → Bool
is_token_byte c =
    c == b'!'
    || leb b'#' c && leb c 0x27
    || c == b'*'
    || c == b'+'
    || c == b'-'
    || c == b'.'
    || leb b'^' c && leb c b'z'
    || c == b'|'
    || c == b'~'
    || leb b'0' c && leb c b'9'
    || leb b'A' c && leb c b'Z'

abbrev pub all_bytes : (ℕ → Bool) → Bytes → Bool
all_bytes test [] = true
all_bytes test (c ∷ cs) = test c && all_bytes test cs

abbrev pub is_nonempty : Bytes → Bool
is_nonempty [] = false
is_nonempty (c ∷ cs) = true

abbrev pub lower_byte : ℕ → ℕ
lower_byte c = if leb b'A' c && leb c b'Z' then c + 32 else c

abbrev pub is_blank : ℕ → Bool
is_blank c = c == 0x20 || c == 0x09

-- `value.strip(b" \t")`
unfoldable pub strip_blanks : Bytes → Bytes
unfolding span
strip_blanks value = reverse (span is_blank (reverse (span is_blank value).1)).1

abbrev pub is_control : ℕ → Bool
is_control c = ltb c 0x20 && not (c == 0x09) || c == 0x7f

abbrev pub is_allowed : ℕ → Bool
is_allowed c = not (is_control c)

-- `name, colon, value = line.partition(b":")`; nothing where the line has no colon.
unfoldable pub partition : Bytes → Option (Bytes × Bytes)
partition [] = none
partition (c ∷ cs) =
    let later : Option (Bytes × Bytes) = elim (partition cs) [
      | none ↦ none
      | some (name, value) ↦ some (c ∷ name, value)
    ] in
    if c == b':' then some ([], cs) else later

-- `fields.get(key)`; a key occurs once.
abbrev pub field_of : List (Bytes × Bytes) → Bytes → Option Bytes
field_of [] key = none
field_of ((k, v) ∷ rest) key = if equal k key then some v else field_of rest key

abbrev pub has_field : List (Bytes × Bytes) → Bytes → Bool
has_field [] key = false
has_field ((k, v) ∷ rest) key = equal k key || has_field rest key

-- One header line; the fields so far have distinct names.
unfoldable pub read_line : List (Bytes × Bytes) → Bytes → FrameError ⊎ List (Bytes × Bytes)
unfolding partition is_token_byte strip_blanks
read_line fields line = elim (partition line) [
  | none ↦ inl malformed_line
  | some (name, value) ↦
      let folded = map lower_byte name in
      let bare = strip_blanks value in
      if not (is_nonempty name && all_bytes is_token_byte name)
      then inl malformed_line
      else if has_field fields folded
      then inl duplicate_field
      else if not (all_bytes is_allowed bare)
      then inl control_byte
      else inr (fields ++ ((folded, bare) ∷ []))
]

unfoldable pub read_lines : List (Bytes × Bytes) → List Bytes → FrameError ⊎ List (Bytes × Bytes)
unfolding read_line
read_lines fields [] = inr fields
read_lines fields (line ∷ rest) = elim (read_line fields line) [
  | inl e ↦ inl e
  | inr more ↦ read_lines more rest
]

abbrev pub all_nonempty : List Bytes → Bool
all_nonempty [] = true
all_nonempty (l ∷ ls) = is_nonempty l && all_nonempty ls

module _ (py : Python) (limits : Limits) where
  -- The value of the field `Content-Length`.
  unfoldable pub length_of : Bytes → FrameError ⊎ ℕ
  unfolding is_digit value_of
  length_of value =
      if not (is_nonempty value && all_bytes is_digit value)
      then inl invalid_length
      else if not (py.takes_digits (length value))
      then inl length_too_large
      else if ltb limits.max_body_bytes (value_of value)
      then inl body_exceeds
      else inr (value_of value)

  -- `FrameDecoder._content_length`
  unfoldable pub content_length : Bytes → FrameError ⊎ ℕ
  unfolding split_lines read_lines length_of
  content_length header =
      if ltb limits.max_header_bytes (length header)
      then inl header_exceeds
      else if not (all_nonempty (split_lines header))
      then inl empty_line
      else elim (read_lines [] (split_lines header)) [
        | inl e ↦ inl e
        | inr fields ↦ elim (field_of fields (codes "content-length")) [
          | none ↦ inl no_content_length
          | some value ↦ length_of value
        ]
      ]

-- `_decode_message`
unfoldable pub decode_message : Python → Bytes → FrameError ⊎ Fields
decode_message py body = elim (py.decode body) [
  | none ↦ inl invalid_text
  | some source ↦ elim (py.loads source) [
    | none ↦ inl invalid_json
    | some value ↦ elim (as_object value) [ none ↦ inl not_an_object | some message ↦ inr message ]
  ]
]
