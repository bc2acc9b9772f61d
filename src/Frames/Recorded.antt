-- ===== src/Frames/Recorded.antt =====
-- What `LspSession` of test/lsp_client.py has recorded is consistent after each event.
use elisa_lsp.Base.{
  ◌<◌, suc, ◌+◌, ◌≤◌, true, false, not, ◌&&◌, ◌||◌, List, [], ◌∷◌, ◌++◌, length, leb, ◌≡◌, refl, ap,
  arith, inl, inr, Bool-cases, Option-cases, Sum-cases, length-append,
}
use elisa_lsp.Base.Text.{codes}
use elisa_lsp.Json.{Fields, get, is_text}
use elisa_lsp.Frames.Decoder.{LspFrame}
use elisa_lsp.Frames.Ids.{IdKey, id_key, has, has_id, set_id}
use elisa_lsp.Frames.Distinct.{IsDistinct, set_id-fresh, set_id-IsDistinct}
use elisa_lsp.Frames.Session.{
  Settings, LspSession, is_str, is_error, kept, record_call, record_response, record_frame,
}

-- What `LspSession` promises of what it holds, but for the count of the messages, which is one
-- ahead while a message is being recorded.
pub record IsConsistent (settings : Settings) (s : LspSession) : Type 0 where
  pub bodies : length s.raw_bodies ≡ length s.all_messages
  pub messages_within : length s.all_messages ≤ settings.max_messages
  pub bytes_within : s.stream_bytes ≤ settings.max_stream_bytes
  pub tables_agree : s.responses ≡ s.response_by_id
  pub ids_distinct : IsDistinct s.response_by_id
  pub each_once :
      length s.response_by_id + length s.notifications + length s.server_requests
      ≡ length s.all_messages

-- The one list or table in which a message is entered.
pub data IsEntered (s : LspSession) (m : Fields) : LspSession → Type 0 where
  requests :
      {t : LspSession}
      → record s { server_requests = s.server_requests ++ (m ∷ []) } ≡ t
      → IsEntered s m t
  notifies :
      {t : LspSession}
      → record s { notifications = s.notifications ++ (m ∷ []) } ≡ t
      → IsEntered s m t
  responds :
      {t : LspSession} (k : IdKey)
      → has_id s.response_by_id k ≡ false
      → record s {
        response_by_id = set_id s.response_by_id k m;
        responses = set_id s.responses k m;
      }
        ≡ t
      → IsEntered s m t

record_call-IsEntered :
    (s : LspSession) (m : Fields) (t : LspSession) → record_call s m ≡ inr t → IsEntered s m t
unfolding record_call
record_call-IsEntered s m t h = elim (Bool-cases (is_str (get m (codes "method")))) [
  | inr e ↦ cc (rw (record_call, e) at h)
  | inl e ↦ elim (Bool-cases (has m (codes "result") || has m (codes "error"))) [
    | inl f ↦ cc (rw (record_call, e, f) at h)
    | inr f ↦ elim (Bool-cases (has m (codes "id"))) [
      | inr g ↦ notifies (cc (rw (record_call, e, f, g) at h))
      | inl g ↦ elim (Option-cases (id_key (get m (codes "id")) false)) [
        | inl k ↦ cc (rw (record_call, e, f, g, k) at h)
        | inr (key, k) ↦ requests (cc (rw (record_call, e, f, g, k) at h))
      ]
    ]
  ]
]

record_response-IsEntered :
    (s : LspSession) (m : Fields) (t : LspSession) → record_response s m ≡ inr t → IsEntered s m t
unfolding record_response
record_response-IsEntered s m t h =
    let result = has m (codes "result") in
    let error = has m (codes "error") in
    elim (Bool-cases (not (has m (codes "id")) || (result && error || not result && not error))) [
      | inl e ↦ cc (rw (record_response, e) at h)
      | inr e ↦ elim (Option-cases (id_key (get m (codes "id")) true)) [
        | inl k ↦ cc (rw (record_response, e, k) at h)
        | inr (key, k) ↦ elim (Bool-cases (error && not (is_error (get m (codes "error"))))) [
          | inl f ↦ cc (rw (record_response, e, k, f) at h)
          | inr f ↦ elim (Bool-cases (has_id s.response_by_id key)) [
            | inl g ↦ cc (rw (record_response, e, k, f, g) at h)
            | inr g ↦ responds key g (cc (rw (record_response, e, k, f, g) at h))
          ]
        ]
      ]
    ]

-- A frame that is accepted is entered once and kept, and the number of messages was below the limit.
pub record_frame-IsEntered :
    (settings : Settings) (s : LspSession) (f : LspFrame) (s' : LspSession)
    → record_frame settings s f ≡ inr s'
    → (t : LspSession) × (IsEntered s f.message t)
      × (kept t f ≡ s')
      × (length s.all_messages < settings.max_messages)
unfolding record_frame
record_frame-IsEntered settings s f s' h =
    elim (Bool-cases (leb settings.max_messages (length s.all_messages))) [
      | inl e ↦ cc (rw (record_frame, e) at h)
      | inr e ↦ elim (Bool-cases (is_text (get f.message (codes "jsonrpc")) (codes "2.0"))) [
        | inr v ↦ cc (rw (record_frame, e, v) at h)
        | inl v ↦ elim (Bool-cases (has f.message (codes "method"))) [
          | inl g ↦ elim (Sum-cases (record_call s f.message)) [
            | inl (why, r) ↦ cc (rw (record_frame, e, v, g, r) at h)
            | inr (t, r) ↦ (
              t,
              record_call-IsEntered s f.message t r,
              cc (rw (record_frame, e, v, g, r) at h),
              ground arith,
            )
          ]
          | inr g ↦ elim (Sum-cases (record_response s f.message)) [
            | inl (why, r) ↦ cc (rw (record_frame, e, v, g, r) at h)
            | inr (t, r) ↦ (
              t,
              record_response-IsEntered s f.message t r,
              cc (rw (record_frame, e, v, g, r) at h),
              ground arith,
            )
          ]
        ]
      ]
    ]

-- The fields that entering a message leaves as they are.
pub IsEntered-keeps :
    {s : LspSession} {m : Fields} {t : LspSession}
    → IsEntered s m t
    → (s.decoder ≡ t.decoder)
      × (s.all_messages ≡ t.all_messages)
      × (s.raw_bodies ≡ t.raw_bodies)
      × (s.stream_bytes ≡ t.stream_bytes)
IsEntered-keeps (requests e) = rw (← e) (refl, refl, refl, refl)
IsEntered-keeps (notifies e) = rw (← e) (refl, refl, refl, refl)
IsEntered-keeps (responds k p e) = rw (← e) (refl, refl, refl, refl)

longer {ℓ} : {A : Type ℓ} (xs : List A) (x : A) → length (xs ++ (x ∷ [])) ≡ suc (length xs)
longer xs x = omega (arith, length-append xs (x ∷ []))

pub kept-IsConsistent :
    (settings : Settings) (s t : LspSession) (f : LspFrame)
    → IsEntered s f.message t
    → length s.all_messages < settings.max_messages
    → IsConsistent settings s
    → IsConsistent settings (kept t f)
kept-IsConsistent settings s t f (requests e) p c = rw (← e) (record {
  bodies = omega (arith, longer s.raw_bodies f.body, longer s.all_messages f.message, c.bodies);
  messages_within = omega (arith, longer s.all_messages f.message);
  bytes_within = c.bytes_within;
  tables_agree = c.tables_agree;
  ids_distinct = c.ids_distinct;
  each_once =
      omega
        (arith, longer s.all_messages f.message, longer s.server_requests f.message, c.each_once);
})
kept-IsConsistent settings s t f (notifies e) p c = rw (← e) (record {
  bodies = omega (arith, longer s.raw_bodies f.body, longer s.all_messages f.message, c.bodies);
  messages_within = omega (arith, longer s.all_messages f.message);
  bytes_within = c.bytes_within;
  tables_agree = c.tables_agree;
  ids_distinct = c.ids_distinct;
  each_once =
      omega (arith, longer s.all_messages f.message, longer s.notifications f.message, c.each_once);
})
kept-IsConsistent settings s t f (responds k q e) p c =
    let added = set_id-fresh s.response_by_id k f.message q in
    rw (← e) (record {
      bodies = omega (arith, longer s.raw_bodies f.body, longer s.all_messages f.message, c.bodies);
      messages_within = omega (arith, longer s.all_messages f.message);
      bytes_within = c.bytes_within;
      tables_agree = ap (λ table. set_id table k f.message) c.tables_agree;
      ids_distinct = rw added (set_id-IsDistinct s.response_by_id k f.message q c.ids_distinct);
      each_once = rw added (
          omega (
            arith,
            longer s.all_messages f.message,
            longer s.response_by_id (k, f.message),
            c.each_once,
          ));
    })
