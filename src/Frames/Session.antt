-- ===== src/Frames/Session.antt =====
-- `LspSession` of test/lsp_client.py as far as it reads: how the decoded frames are recorded, and
-- what one event of the stdout reader does; Frames/Writes and Frames/Stderr are about stdin and stderr.
-- The process and the clock are left out: an error ends the session, and a wait that runs out of time
-- is an event.
use elisa_lsp.Base.{
  ℕ, ◌+◌, Bool, true, false, not, ◌&&◌, ◌||◌, none, some, List, [], ◌∷◌, ◌++◌, length, ltb, leb,
  if◌then◌else◌, ◌⊎◌, inl, inr,
}
use elisa_lsp.Base.Text.{codes}
use elisa_lsp.Base.Bytes.{Bytes}
use elisa_lsp.Json.{Value, int, str, obj, Fields, get, is_text}
use elisa_lsp.Frames.{FrameError, Limits, Python}
use elisa_lsp.Frames.Ids.{IdKey, id_key, has, has_id, set_id}
use elisa_lsp.Frames.Decoder.{Decoder, LspFrame, fed, refused, unfinished, feed, finish}

pub data SessionError : Type 0 where
  too_many_messages no_version method_not_text mixed_method invalid_id : SessionError
  not_a_response invalid_error duplicate_response : SessionError
  stream_exceeds reader_failed timed_out endless : SessionError
  bad_frame : FrameError → SessionError

pub record Settings : Type 0 where
  pub limits : Limits
  pub max_stream_bytes : ℕ
  pub max_messages : ℕ

pub record LspSession : Type 0 where
  pub decoder : Decoder
  pub responses : List (IdKey × Fields)
  pub notifications : List Fields
  pub server_requests : List Fields
  pub all_messages : List Fields
  pub raw_bodies : List Bytes
  pub response_by_id : List (IdKey × Fields)
  pub stdout_eof : Bool
  pub stream_bytes : ℕ

unfoldable pub new_session : LspSession
new_session = record {
  decoder = record { buffer = []; expected_body = none };
  responses = [];
  notifications = [];
  server_requests = [];
  all_messages = [];
  raw_bodies = [];
  response_by_id = [];
  stdout_eof = false;
  stream_bytes = 0;
}

-- `type(value) is int`
abbrev pub is_int : Value → Bool
is_int (int i) = true
is_int _ = false

abbrev pub is_str : Value → Bool
is_str (str t) = true
is_str _ = false

-- The error object of a response.
unfoldable pub is_error : Value → Bool
unfolding get
is_error (obj error) = is_int (get error (codes "code")) && is_str (get error (codes "message"))
is_error _ = false

-- The last two statements of `_record_frame`.
abbrev pub kept : LspSession → LspFrame → LspSession
kept s f = record s {
  all_messages = s.all_messages ++ (f.message ∷ []);
  raw_bodies = s.raw_bodies ++ (f.body ∷ []);
}

-- A message with a method: a request of the server or a notification.
unfoldable pub record_call : LspSession → Fields → SessionError ⊎ LspSession
unfolding has id_key get
record_call s message =
    if not (is_str (get message (codes "method")))
    then inl method_not_text
    else if has message (codes "result") || has message (codes "error")
    then inl mixed_method
    else if has message (codes "id")
    then elim (id_key (get message (codes "id")) false) [
      | none ↦ inl invalid_id
      | some key ↦ inr (record s { server_requests = s.server_requests ++ (message ∷ []) })
    ]
    else inr (record s { notifications = s.notifications ++ (message ∷ []) })

-- A message without a method. `responses` is keyed by the name of the identifier's type and its
-- value, which the key holds.
unfoldable pub record_response : LspSession → Fields → SessionError ⊎ LspSession
unfolding has id_key get is_error has_id set_id
record_response s message =
    let result = has message (codes "result") in
    let error = has message (codes "error") in
    if not (has message (codes "id")) || (result && error || not result && not error)
    then inl not_a_response
    else elim (id_key (get message (codes "id")) true) [
      | none ↦ inl invalid_id
      | some key ↦
          if error && not (is_error (get message (codes "error")))
          then inl invalid_error
          else if has_id s.response_by_id key
          then inl duplicate_response
          else inr (record s {
            response_by_id = set_id s.response_by_id key message;
            responses = set_id s.responses key message;
          })
    ]

abbrev pub keeping : SessionError ⊎ LspSession → LspFrame → SessionError ⊎ LspSession
keeping (inl e) f = inl e
keeping (inr s) f = inr (kept s f)

-- `_record_frame`
unfoldable pub record_frame : Settings → LspSession → LspFrame → SessionError ⊎ LspSession
unfolding record_call record_response has is_text get
record_frame settings s f =
    if leb settings.max_messages (length s.all_messages)
    then inl too_many_messages
    else if not (is_text (get f.message (codes "jsonrpc")) (codes "2.0"))
    then inl no_version
    else if has f.message (codes "method")
    then keeping (record_call s f.message) f
    else keeping (record_response s f.message) f

unfoldable pub record_frames : Settings → LspSession → List LspFrame → SessionError ⊎ LspSession
unfolding record_frame
record_frames settings s [] = inr s
record_frames settings s (f ∷ fs) = elim (record_frame settings s f) [
  | inl e ↦ inl e
  | inr s' ↦ record_frames settings s' fs
]

-- What the stdout reader puts into the queue; `nothing` is a wait that ran out of time.
pub data Event : Type 0 where
  stdout : Bytes → Event
  eof reader_error nothing : Event

-- `_pump_once`
unfoldable pub pump_once : Python → Settings → LspSession → Event → SessionError ⊎ LspSession
unfolding feed finish record_frames
pump_once py settings s nothing = inl timed_out
pump_once py settings s reader_error = inl reader_failed
pump_once py settings s eof = elim (finish s.decoder) [
  | some e ↦ inl (bad_frame e)
  | none ↦ inr (record s { stdout_eof = true })
]
pump_once py settings s (stdout payload) =
    if ltb settings.max_stream_bytes (s.stream_bytes + length payload)
    then inl stream_exceeds
    else elim (feed py settings.limits s.decoder payload) [
      | fed frames d ↦
          record_frames settings
            (record s { decoder = d; stream_bytes = s.stream_bytes + length payload }) frames
      | refused e d ↦ inl (bad_frame e)
      | unfinished ↦ inl endless
    ]

unfoldable pub pump_all : Python → Settings → LspSession → List Event → SessionError ⊎ LspSession
unfolding pump_once
pump_all py settings s [] = inr s
pump_all py settings s (e ∷ es) = elim (pump_once py settings s e) [
  | inl why ↦ inl why
  | inr s' ↦ pump_all py settings s' es
]
