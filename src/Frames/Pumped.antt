-- ===== src/Frames/Pumped.antt =====
-- A session of test/lsp_client.py that reads the events of its stdout reader one after another.
use mathlib.Core.List.{append_assoc, append-nil}
use elisa_lsp.Base.{
  ◌+◌, ◌≤◌, true, none, List, [], ◌∷◌, ◌++◌, length, ltb, map, ◌≡◌, refl, sym, ap, ◌∙◌, arith, inl,
  inr, Bool-cases, Option-cases, Sum-cases,
}
use elisa_lsp.Base.Bytes.{Bytes}
use elisa_lsp.Json.{Fields}
use elisa_lsp.Frames.{Python}
use elisa_lsp.Frames.Decoder.{Decoder, LspFrame, fed, feed, finish}
use elisa_lsp.Frames.Chunks.{Fed-cases}
use elisa_lsp.Frames.Session.{
  Settings, LspSession, new_session, record_frame, record_frames, Event, stdout, eof, reader_error,
  nothing, pump_once, pump_all,
}
use elisa_lsp.Frames.Recorded.{
  IsConsistent, record_frame-IsEntered, IsEntered-keeps, kept-IsConsistent,
}

abbrev pub messages : List LspFrame → List Fields
messages = map (λ f. f.message)

abbrev pub bodies : List LspFrame → List Bytes
bodies = map (λ f. f.body)

module _ (settings : Settings) where
  record_frames-IsConsistent :
      (fs : List LspFrame) (s s' : LspSession)
      → IsConsistent settings s
      → record_frames settings s fs ≡ inr s'
      → IsConsistent settings s'
  unfolding record_frames
  record_frames-IsConsistent [] s s' c h = let same : s ≡ s' = cc h in rw (← same) c
  record_frames-IsConsistent (f ∷ fs) s s' c h = elim (Sum-cases (record_frame settings s f)) [
    | inl (why, e) ↦ cc (rw (record_frames, e) at h)
    | inr (s1, e) ↦
        let (t, entered, same, below) = record_frame-IsEntered settings s f s1 e in
        let next = kept-IsConsistent settings s t f entered below c in
        record_frames-IsConsistent fs s1 s' (rw (← same) next) (rw (record_frames, e) at h)
  ]

  record_frame-keeps :
      (s s' : LspSession) (f : LspFrame)
      → record_frame settings s f ≡ inr s'
      → (s'.decoder ≡ s.decoder)
        × (s'.all_messages ≡ s.all_messages ++ (f.message ∷ []))
        × (s'.raw_bodies ≡ s.raw_bodies ++ (f.body ∷ []))
  record_frame-keeps s s' f h =
      let (t, entered, same, below) = record_frame-IsEntered settings s f s' h in
      let (d, m, b, bytes) = IsEntered-keeps entered in
      rw (← same)
        (sym d, ap (λ xs. xs ++ (f.message ∷ [])) (sym m), ap (λ xs. xs ++ (f.body ∷ [])) (sym b))

  -- The session keeps the decoder, and adds the messages and the bodies in the order of the frames.
  pub record_frames-keeps :
      (fs : List LspFrame) (s s' : LspSession)
      → record_frames settings s fs ≡ inr s'
      → (s'.decoder ≡ s.decoder)
        × (s'.all_messages ≡ s.all_messages ++ messages fs)
        × (s'.raw_bodies ≡ s.raw_bodies ++ bodies fs)
  unfolding record_frames
  record_frames-keeps [] s s' h =
      let same : s ≡ s' = cc h in
      rw (← same) (refl, sym (append-nil s.all_messages), sym (append-nil s.raw_bodies))
  record_frames-keeps (f ∷ fs) s s' h = elim (Sum-cases (record_frame settings s f)) [
    | inl (why, e) ↦ cc (rw (record_frames, e) at h)
    | inr (s1, e) ↦
        let (d, m, b) = record_frame-keeps s s1 f e in
        let (d', m', b') = record_frames-keeps fs s1 s' (rw (record_frames, e) at h) in
        (
          d' ∙ d,
          m' ∙ (ap (λ xs. xs ++ messages fs) m ∙ append_assoc s.all_messages (f.message ∷ []) _),
          b' ∙ (ap (λ xs. xs ++ bodies fs) b ∙ append_assoc s.raw_bodies (f.body ∷ []) _),
        )
  ]

abbrev pub received : LspSession → Decoder → Bytes → LspSession
received s d payload = record s { decoder = d; stream_bytes = s.stream_bytes + length payload }

module _ (py : Python) (settings : Settings) where
  -- A chunk is decoded within the limit, and its frames are recorded.
  pub pump_once-stdout :
      (s s' : LspSession) (payload : Bytes)
      → pump_once py settings s (stdout payload) ≡ inr s'
      → (fs : List LspFrame) × (d : Decoder) × (feed py settings.limits s.decoder payload
          ≡ fed fs d)
        × (record_frames settings (received s d payload) fs ≡ inr s')
        × (s.stream_bytes + length payload ≤ settings.max_stream_bytes)
  unfolding pump_once
  pump_once-stdout s s' payload h =
      elim (Bool-cases (ltb settings.max_stream_bytes (s.stream_bytes + length payload))) [
        | inl e ↦ cc (rw (pump_once, e) at h)
        | inr e ↦ elim (Fed-cases (feed py settings.limits s.decoder payload)) [
          | inl (fs, d, r) ↦ (fs, d, r, rw (pump_once, e, r) at h, ground arith)
          | inr (inl (why, d, r)) ↦ cc (rw (pump_once, e, r) at h)
          | inr (inr r) ↦ cc (rw (pump_once, e, r) at h)
        ]
      ]

  pub pump_once-eof :
      (s s' : LspSession)
      → pump_once py settings s eof ≡ inr s'
      → (finish s.decoder ≡ none) × (record s { stdout_eof = true } ≡ s')
  unfolding pump_once
  pump_once-eof s s' h = elim (Option-cases (finish s.decoder)) [
    | inl e ↦ (e, cc (rw (pump_once, e) at h))
    | inr (why, e) ↦ cc (rw (pump_once, e) at h)
  ]

  pub pump_once-IsConsistent :
      (s s' : LspSession) (event : Event)
      → IsConsistent settings s
      → pump_once py settings s event ≡ inr s'
      → IsConsistent settings s'
  unfolding pump_once
  pump_once-IsConsistent s s' nothing c h = cc h
  pump_once-IsConsistent s s' reader_error c h = cc h
  pump_once-IsConsistent s s' eof c h =
      let (done, same) = pump_once-eof s s' h in
      rw (← same) (record {
        bodies = c.bodies;
        messages_within = c.messages_within;
        bytes_within = c.bytes_within;
        tables_agree = c.tables_agree;
        ids_distinct = c.ids_distinct;
        each_once = c.each_once;
      })
  pump_once-IsConsistent s s' (stdout payload) c h =
      let (fs, d, e, recorded, within) = pump_once-stdout s s' payload h in
      record_frames-IsConsistent settings fs (received s d payload) s'
        (record {
          bodies = c.bodies;
          messages_within = c.messages_within;
          bytes_within = within;
          tables_agree = c.tables_agree;
          ids_distinct = c.ids_distinct;
          each_once = c.each_once;
        })
        recorded

  pub pump_all-keeps :
      (events : List Event) (s s' : LspSession)
      → IsConsistent settings s
      → pump_all py settings s events ≡ inr s'
      → IsConsistent settings s'
  unfolding pump_all
  pump_all-keeps [] s s' c h = let same : s ≡ s' = cc h in rw (← same) c
  pump_all-keeps (event ∷ events) s s' c h = elim (Sum-cases (pump_once py settings s event)) [
    | inl (why, e) ↦ cc (rw (pump_all, e) at h)
    | inr (s1, e) ↦
        pump_all-keeps events s1 s' (pump_once-IsConsistent s s1 event c e) (rw (pump_all, e) at h)
  ]

  -- Whatever events a new session reads, it holds at most as many messages and bytes as its settings
  -- allow, one body for each message, each message once among the responses, the notifications and
  -- the requests, and no two responses with one identifier; the two tables of responses agree.
  pub pump_all-IsConsistent :
      (events : List Event) (s : LspSession)
      → pump_all py settings new_session events ≡ inr s
      → IsConsistent settings s
  unfolding new_session
  pump_all-IsConsistent events s h =
      pump_all-keeps events new_session s
        (record {
          bodies = refl;
          messages_within = omega arith;
          bytes_within = omega arith;
          tables_agree = refl;
          ids_distinct = tt;
          each_once = refl;
        })
        h
