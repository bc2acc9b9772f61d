-- ===== src/Frames/Waits/Responses.antt =====
-- A response of the server reaches the one that waits for it in test/lsp_client.py.
use elisa_lsp.Base.{
  false, Option, some, List, [], ◌∷◌, ◌++◌, ◌≡◌, ap, ◌∙◌, inl, inr, Bool-cases, Sum-cases,
}
use elisa_lsp.Json.{Value, Fields}
use elisa_lsp.Frames.{Python}
use elisa_lsp.Frames.Ids.{IdKey, id_equal, id_key, has_id, set_id}
use elisa_lsp.Frames.Distinct.{set_id-fresh}
use elisa_lsp.Frames.Session.{Settings, LspSession, new_session, Event, pump_once, pump_all}
use elisa_lsp.Frames.Recorded.{IsEntered, requests, notifies, responds, record_frame-IsEntered}
use elisa_lsp.Frames.Pumped.{pump_all-keeps, pump_all-IsConsistent}
use elisa_lsp.Frames.Waits.{response_of, returned, wait_response}
use elisa_lsp.Frames.Waits.Found.{pump_once-keeps, wait_until_sound, wait_until-returns}

response_of-append :
    (table more : List (IdKey × Fields)) (k : IdKey) (m : Fields)
    → response_of table k ≡ some m
    → response_of (table ++ more) k ≡ some m
unfolding response_of
response_of-append [] more k m h = cc
response_of-append ((k', m') ∷ rest) more k m h = elim (Bool-cases (id_equal k' k)) [
  | inl e ↦ rw (response_of, e) (rw (response_of, e) at h)
  | inr e ↦ rw (response_of, e) (response_of-append rest more k m (rw (response_of, e) at h))
]

-- The two tables agree, and the response is in them.
abbrev Holds : IdKey → Fields → LspSession → Type 0
Holds k m s = (s.responses ≡ s.response_by_id) × (response_of s.responses k ≡ some m)

IsEntered-Holds :
    (k : IdKey) (m : Fields) {s : LspSession} {message : Fields} {t : LspSession}
    → IsEntered s message t
    → Holds k m s
    → Holds k m t
IsEntered-Holds k m (requests e) h = rw (← e) h
IsEntered-Holds k m (notifies e) h = rw (← e) h
IsEntered-Holds k m {s} {message} (responds k' new e) h =
    let fresh : has_id s.responses k' ≡ false = ap (λ table. has_id table k') h.0 ∙ new in
    rw (← e) (
      ap (λ table. set_id table k' message) h.0,
      rw (set_id-fresh s.responses k' message fresh)
          (response_of-append s.responses ((k', message) ∷ []) k m h.1),
    )

module _ (py : Python) (settings : Settings) where
  pump_all-Holds :
      (k : IdKey) (m : Fields) (events : List Event) (s s' : LspSession)
      → Holds k m s
      → pump_all py settings s events ≡ inr s'
      → Holds k m s'
  unfolding pump_all
  pump_all-Holds k m [] s s' p h = let same : s ≡ s' = cc h in rw (← same) p
  pump_all-Holds k m (event ∷ events) s s' p h = elim (Sum-cases (pump_once py settings s event)) [
    | inl (why, e) ↦ cc (rw (pump_all, e) at h)
    | inr (s₁, e) ↦
        let next : Holds k m s₁ =
          pump_once-keeps py settings (Holds k m)
            (λ a b f q r.
              let (t, entered, same, below) = record_frame-IsEntered settings a f b r in
              rw (← same) (IsEntered-Holds k m entered q))
            (λ a d payload q. q) (λ a q. q) s s₁ event p e in
        pump_all-Holds k m events s₁ s' next (rw (pump_all, e) at h)
  ]

  -- A wait for a response returns it: if, from the session at hand, some of the events to come lead,
  -- without an error and before the end of stdout, to a session that holds a response with the
  -- identifier, then the wait on these events and any later ones returns that response.
  pub wait_response-returns :
      (prior before after : List Event) (s s₁ : LspSession) (req_id : Value) (k : IdKey)
      (m : Fields)
      → id_key req_id false ≡ some k
      → pump_all py settings new_session prior ≡ inr s
      → pump_all py settings s before ≡ inr s₁
      → s₁.stdout_eof ≡ false
      → response_of s₁.responses k ≡ some m
      → (s' : LspSession) × (rest : List Event) × (wait_response py settings req_id s
            (before ++ after)
          ≡ returned m s' rest)
  unfolding wait_response
  wait_response-returns prior before after s s₁ req_id k m i p h e f =
      let look : LspSession → Option Fields = λ x. response_of x.responses k in
      let (b, s', more, r, on, there) =
        wait_until-returns py settings look before after s s₁ m h e f in
      let (read, split, pumped, found) =
        wait_until_sound py settings look (before ++ after) (more ++ after) s s' b r in
      let consistent =
        pump_all-keeps py settings read s s' (pump_all-IsConsistent py settings prior s p) pumped in
      let held : Holds k b s₁ = pump_all-Holds k b more s' s₁ (consistent.tables_agree, there) on in
      let same : b ≡ m = cc (held.1, f) in (s', more ++ after, rw (wait_response, i, ← same) r)
