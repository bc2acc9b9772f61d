-- ===== src/Frames/Waits/Found.antt =====
-- What a wait of test/lsp_client.py returns, and that it returns what has arrived.
use elisa_lsp.Base.{
  true, false, Option, some, List, [], ◌∷◌, ◌++◌, ◌≡◌, refl, sym, ap, ◌∙◌, inl, inr, Bool-cases,
  Option-cases, Sum-cases,
}
use elisa_lsp.Json.{Fields}
use elisa_lsp.Frames.{Bytes, Python}
use elisa_lsp.Frames.Decoder.{Decoder, LspFrame}
use elisa_lsp.Frames.Session.{
  Settings, LspSession, Event, stdout, eof, reader_error, nothing, record_frame, record_frames,
  pump_once, pump_all,
}
use elisa_lsp.Frames.Recorded.{IsEntered, requests, notifies, responds, record_frame-IsEntered}
use elisa_lsp.Frames.Pumped.{received, pump_once-stdout, pump_once-eof}
use elisa_lsp.Frames.Waits.{returned, wait_until}

-- An event keeps what recording a frame, taking in bytes, and the end of stdout keep.
module _ (py : Python) (settings : Settings) (P : LspSession → Type 0)
    (recorded : (s s' : LspSession) (f : LspFrame)
      → P s
      → record_frame settings s f ≡ inr s'
      → P s')
    (took : (s : LspSession) (d : Decoder) (payload : Bytes) → P s → P (received s d payload))
    (ended : (s : LspSession) → P s → P (record s { stdout_eof = true })) where
  record_frames-keeps_all :
      (fs : List LspFrame) (s s' : LspSession) → P s → record_frames settings s fs ≡ inr s' → P s'
  unfolding record_frames
  record_frames-keeps_all [] s s' p h = let same : s ≡ s' = cc h in rw (← same) p
  record_frames-keeps_all (f ∷ fs) s s' p h = elim (Sum-cases (record_frame settings s f)) [
    | inl (why, e) ↦ cc (rw (record_frames, e) at h)
    | inr (s₁, e) ↦
        record_frames-keeps_all fs s₁ s' (recorded s s₁ f p e) (rw (record_frames, e) at h)
  ]

  pub pump_once-keeps :
      (s s' : LspSession) (event : Event) → P s → pump_once py settings s event ≡ inr s' → P s'
  unfolding pump_once
  pump_once-keeps s s' nothing p h = cc h
  pump_once-keeps s s' reader_error p h = cc h
  pump_once-keeps s s' eof p h =
      let (done, same) = pump_once-eof py settings s s' h in rw (← same) (ended s p)
  pump_once-keeps s s' (stdout payload) p h =
      let (fs, d, e, made, within) = pump_once-stdout py settings s s' payload h in
      record_frames-keeps_all fs (received s d payload) s' (took s d payload p) made

IsEntered-stdout_eof :
    {s : LspSession} {m : Fields} {t : LspSession} → IsEntered s m t → s.stdout_eof ≡ t.stdout_eof
IsEntered-stdout_eof (requests e) = rw (← e) refl
IsEntered-stdout_eof (notifies e) = rw (← e) refl
IsEntered-stdout_eof (responds k p e) = rw (← e) refl

-- The end of stdout is not taken back.
pump_once-stdout_eof :
    (py : Python) (settings : Settings) (s s' : LspSession) (event : Event)
    → pump_once py settings s event ≡ inr s'
    → s'.stdout_eof ≡ false
    → s.stdout_eof ≡ false
pump_once-stdout_eof py settings s s' event h e = elim (Bool-cases s.stdout_eof) [
  | inr f ↦ f
  | inl f ↦
      let stays : s'.stdout_eof ≡ true =
        pump_once-keeps py settings (λ x. x.stdout_eof ≡ true)
          (λ a b g p r.
            let (t, entered, same, below) = record_frame-IsEntered settings a g b r in
            rw (← same) (sym (IsEntered-stdout_eof entered) ∙ p))
          (λ a d payload p. p) (λ a p. refl) s s' event f h in
      cc (e, stays)
]

pump_all-stdout_eof :
    (py : Python) (settings : Settings) (s s' : LspSession) (events : List Event)
    → pump_all py settings s events ≡ inr s'
    → s'.stdout_eof ≡ false
    → s.stdout_eof ≡ false
unfolding pump_all
pump_all-stdout_eof py settings s s' [] h e = let same : s ≡ s' = cc h in rw same e
pump_all-stdout_eof py settings s s' (event ∷ events) h e =
    elim (Sum-cases (pump_once py settings s event)) [
      | inl (why, f) ↦ cc (rw (pump_all, f) at h)
      | inr (s₁, f) ↦
          pump_once-stdout_eof py settings s s₁ event f
            (pump_all-stdout_eof py settings s₁ s' events (rw (pump_all, f) at h) e)
    ]

module _ (py : Python) (settings : Settings) where
  module _ {ℓ} {A : Type ℓ} (look : LspSession → Option A) where
    -- What is returned is what the session holds after the events that were read.
    pub wait_until_sound :
        (events rest : List Event) (s s' : LspSession) (a : A)
        → wait_until py settings look s events ≡ returned a s' rest
        → (read : List Event) × (events ≡ read ++ rest)
          × (pump_all py settings s read ≡ inr s')
          × (look s' ≡ some a)
    unfolding wait_until pump_all
    wait_until_sound [] rest s s' a h = elim (Option-cases (look s)) [
      | inr (b, e) ↦
          let done = rw (wait_until, e) at h in
          let same : s ≡ s' = cc done in
          let value : b ≡ a = cc done in
          let left : [] ≡ rest = cc done in ([], left, rw same, rw (← same) (e ∙ ap some value))
      | inl e ↦ elim (Bool-cases s.stdout_eof) [
        | inl f ↦ cc (rw (wait_until, e, f) at h)
        | inr f ↦ cc (rw (wait_until, e, f) at h)
      ]
    ]
    wait_until_sound (event ∷ events) rest s s' a h = elim (Option-cases (look s)) [
      | inr (b, e) ↦
          let done = rw (wait_until, e) at h in
          let same : s ≡ s' = cc done in
          let value : b ≡ a = cc done in
          let left : event ∷ events ≡ rest = cc done in
          ([], left, rw same, rw (← same) (e ∙ ap some value))
      | inl e ↦ elim (Bool-cases s.stdout_eof) [
        | inl f ↦ cc (rw (wait_until, e, f) at h)
        | inr f ↦ elim (Sum-cases (pump_once py settings s event)) [
          | inl (why, g) ↦ cc (rw (wait_until, e, f, g) at h)
          | inr (s₁, g) ↦
              let (read, split, pumped, found) =
                wait_until_sound events rest s₁ s' a (rw (wait_until, e, f, g) at h) in
              (event ∷ read, ap (λ es. event ∷ es) split, rw (pump_all, g) pumped, found)
        ]
      ]
    ]

    at_once :
        (events : List Event) (s : LspSession) (a : A)
        → look s ≡ some a
        → wait_until py settings look s events ≡ returned a s events
    unfolding wait_until
    at_once [] s a e = rw (wait_until, e)
    at_once (event ∷ events) s a e = rw (wait_until, e)

    -- A wait returns as soon as what it looks for is there, and what it leaves leads on to where it is.
    pub wait_until-returns :
        (before after : List Event) (s s₁ : LspSession) (a : A)
        → pump_all py settings s before ≡ inr s₁
        → s₁.stdout_eof ≡ false
        → look s₁ ≡ some a
        → (b : A) × (s' : LspSession) × (more : List Event) × (wait_until py settings look s
              (before ++ after)
            ≡ returned b s' (more ++ after))
          × (pump_all py settings s' more ≡ inr s₁)
          × (look s' ≡ some b)
    unfolding wait_until pump_all
    wait_until-returns [] after s s₁ a h e f =
        let same : s ≡ s₁ = cc h in
        let there : look s ≡ some a = rw same f in (a, s, [], at_once after s a there, h, there)
    wait_until-returns (event ∷ before) after s s₁ a h e f = elim (Option-cases (look s)) [
      | inr (b, g) ↦ (b, s, event ∷ before, at_once (event ∷ (before ++ after)) s b g, h, g)
      | inl g ↦ elim (Sum-cases (pump_once py settings s event)) [
        | inl (why, k) ↦ cc (rw (pump_all, k) at h)
        | inr (s₂, k) ↦
            let pumped = rw (pump_all, k) at h in
            let open_yet = pump_all-stdout_eof py settings s s₁ (event ∷ before) h e in
            let (b, s', more, r, on, there) = wait_until-returns before after s₂ s₁ a pumped e f in
            (b, s', more, rw (wait_until, g, open_yet, k) r, on, there)
      ]
    ]
