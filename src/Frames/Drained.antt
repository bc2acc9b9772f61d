-- ===== src/Frames/Drained.antt =====
-- A session of test/lsp_client.py that has read its server's stdout to the end.
use mathlib.Core.List.{append_assoc, append-nil}
use elisa_lsp.Base.{
  none, List, [], ◌∷◌, ◌++◌, map, ◌≡◌, refl, sym, ap, ◌∙◌, inl, inr, Option-cases, Sum-cases, ◌⊎◌,
  ℕ,
}
use elisa_lsp.Base.Bytes.{Bytes}
use elisa_lsp.Frames.{Python, join_bytes}
use elisa_lsp.Frames.Decoder.{Decoder, LspFrame, fed, feed, feed_all, finish, prepend, onto}
use elisa_lsp.Frames.Rounds.{at_header}
use elisa_lsp.Frames.Chunks.{feed_all-feed}
use elisa_lsp.Frames.Stream.{new_decoder-waits}
use elisa_lsp.Frames.Session.{
  Settings, LspSession, new_session, Event, stdout, eof, pump_once, pump_all,
}
use elisa_lsp.Frames.Pumped.{
  messages, bodies, received, record_frames-keeps, pump_once-stdout, pump_once-eof,
}

prepend-fed : (fs gs : List LspFrame) (d : Decoder) → prepend fs (fed gs d) ≡ fed (fs ++ gs) d
unfolding prepend onto
prepend-fed [] gs d = refl
prepend-fed (f ∷ fs) gs d = ap (onto f) (prepend-fed fs gs d)

Bytes-cases : (t : Bytes) → (t ≡ []) ⊎ ((c : ℕ) × (cs : Bytes) × (t ≡ c ∷ cs))
Bytes-cases [] = inl refl
Bytes-cases (c ∷ cs) = inr (c, cs, refl)

finish-none : (d : Decoder) → finish d ≡ none → d ≡ at_header []
unfolding finish
finish-none d h = elim (Option-cases d.expected_body) [
  | inr (n, e) ↦ cc (rw (finish, e) at h)
  | inl e ↦ elim (Bytes-cases d.buffer) [
    | inl f ↦ λ i. record { buffer = f i; expected_body = e i }
    | inr (c, cs, f) ↦ cc (rw (finish, e, f) at h)
  ]
]

messages-append : (fs gs : List LspFrame) → messages (fs ++ gs) ≡ messages fs ++ messages gs
messages-append [] gs = refl
messages-append (f ∷ fs) gs = ap (λ xs. f.message ∷ xs) (messages-append fs gs)

bodies-append : (fs gs : List LspFrame) → bodies (fs ++ gs) ≡ bodies fs ++ bodies gs
bodies-append [] gs = refl
bodies-append (f ∷ fs) gs = ap (λ xs. f.body ∷ xs) (bodies-append fs gs)

module _ (py : Python) (settings : Settings) where
  -- What is added to a session while chunks are read.
  pub record Adds (s s' : LspSession) (chunks : List Bytes) (fs : List LspFrame) : Type 0 where
    pub decoded : feed_all py settings.limits s.decoder chunks ≡ fed fs s'.decoder
    pub kept_messages : s'.all_messages ≡ s.all_messages ++ messages fs
    pub kept_bodies : s'.raw_bodies ≡ s.raw_bodies ++ bodies fs

  pump_all-Adds :
      (chunks : List Bytes) (s s' : LspSession)
      → pump_all py settings s (map stdout chunks) ≡ inr s'
      → (fs : List LspFrame) × Adds s s' chunks fs
  unfolding pump_all feed_all
  pump_all-Adds [] s s' h =
      let same : s ≡ s' = cc h in
      (
        [],
        rw (← same) (record {
          decoded = refl;
          kept_messages = sym (append-nil s.all_messages);
          kept_bodies = sym (append-nil s.raw_bodies);
        }),
      )
  pump_all-Adds (chunk ∷ chunks) s s' h =
      elim (Sum-cases (pump_once py settings s (stdout chunk))) [
        | inl (why, e) ↦ cc (rw (pump_all, e) at h)
        | inr (s1, e) ↦
            let (fs, d, r, recorded, within) = pump_once-stdout py settings s s1 chunk e in
            let (k, m, b) = record_frames-keeps settings fs (received s d chunk) s1 recorded in
            let (gs, later) = pump_all-Adds chunks s1 s' (rw (pump_all, e) at h) in
            let rest : feed_all py settings.limits d chunks ≡ fed gs s'.decoder =
              ap (λ x. feed_all py settings.limits x chunks) (sym k) ∙ later.decoded in
            (
              fs ++ gs,
              record {
                decoded = rw (feed_all, r) (ap (prepend fs) rest ∙ prepend-fed fs gs s'.decoder);
                kept_messages =
                    later.kept_messages
                    ∙ (ap (λ xs. xs ++ messages gs) m
                        ∙ (append_assoc s.all_messages (messages fs) (messages gs)
                            ∙ ap (λ xs. s.all_messages ++ xs) (sym (messages-append fs gs))));
                kept_bodies =
                    later.kept_bodies
                    ∙ (ap (λ xs. xs ++ bodies gs) b
                        ∙ (append_assoc s.raw_bodies (bodies fs) (bodies gs)
                            ∙ ap (λ xs. s.raw_bodies ++ xs) (sym (bodies-append fs gs))));
              },
            )
      ]

  pump_all-append :
      (xs ys : List Event) (s s' : LspSession)
      → pump_all py settings s (xs ++ ys) ≡ inr s'
      → (t : LspSession) × (pump_all py settings s xs ≡ inr t)
        × (pump_all py settings t ys ≡ inr s')
  unfolding pump_all
  pump_all-append [] ys s s' h = (s, refl, h)
  pump_all-append (x ∷ xs) ys s s' h = elim (Sum-cases (pump_once py settings s x)) [
    | inl (why, e) ↦ cc (rw (pump_all, e) at h)
    | inr (s1, e) ↦
        let (t, first, second) = pump_all-append xs ys s1 s' (rw (pump_all, e) at h) in
        (t, rw (pump_all, e) first, second)
  ]

  -- A session that reads chunks and then the end of stdout without an error has recorded the
  -- messages and the bodies of the whole byte stream, in the stream's order, and decoding the whole
  -- stream at once leaves no byte and no announced body.
  pub pump_all-drained :
      (chunks : List Bytes) (s : LspSession)
      → pump_all py settings new_session (map stdout chunks ++ (eof ∷ [])) ≡ inr s
      → (fs : List LspFrame) × (feed py settings.limits (at_header []) (join_bytes chunks)
          ≡ fed fs (at_header []))
        × (s.all_messages ≡ messages fs)
        × (s.raw_bodies ≡ bodies fs)
  unfolding pump_all new_session
  pump_all-drained chunks s h =
      let (t, read, ended) = pump_all-append (map stdout chunks) (eof ∷ []) new_session s h in
      let (fs, added) = pump_all-Adds chunks new_session t read in
      elim (Sum-cases (pump_once py settings t eof)) [
        | inl (why, e) ↦ cc (rw (pump_all, e) at ended)
        | inr (u, e) ↦
            let (empty, same) = pump_once-eof py settings t u e in
            let last : u ≡ s = cc (rw (pump_all, e) at ended) in
            let whole =
              feed_all-feed py settings.limits (at_header []) t.decoder chunks fs
                (new_decoder-waits py settings.limits) added.decoded in
            (
              fs,
              whole ∙ ap (fed fs) (finish-none t.decoder empty),
              ap (λ x. x.all_messages) (sym (same ∙ last)) ∙ added.kept_messages,
              ap (λ x. x.raw_bodies) (sym (same ∙ last)) ∙ added.kept_bodies,
            )
      ]
