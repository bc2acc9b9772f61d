-- ===== src/Frames/Waits.antt =====
-- What the methods of LspSession of test/lsp_client.py that wait for output return: wait_response,
-- wait_notification and recv. The events are those that the reader threads put into the queue from
-- then on; a wait that finds the queue empty until its deadline reads `nothing`.
pub mod Found
pub mod Responses
pub mod Notifications
use elisa_lsp.Base.{
  ℕ, zero, suc, ◌+◌, Bool, true, false, not, ◌&&◌, ◌||◌, Option, none, some, List, [], ◌∷◌, ◌++◌,
  length, ◌==◌, ltb, if◌then◌else◌, inl, inr,
}
use elisa_lsp.Base.Bytes.{Bytes}
use elisa_lsp.Base.Text.{Text, codes}
use elisa_lsp.Json.{Value, Fields, get, is_text}
use elisa_lsp.Frames.{Python}
use elisa_lsp.Frames.Ids.{IdKey, id_equal, id_key}
use elisa_lsp.Frames.Session.{
  SessionError, timed_out, Settings, LspSession, new_session, Event, pump_once,
}

-- `self.responses[key]`
unfoldable pub response_of : List (IdKey × Fields) → IdKey → Option Fields
unfolding id_equal
response_of [] key = none
response_of ((k, m) ∷ rest) key =
    let later = response_of rest key in if id_equal k key then some m else later

-- A wait returns a value with the session and the events that are left, or it raises; an error of the
-- session ends the session.
pub data Waited {ℓ} (A : Type ℓ) : Type ℓ where
  returned : A → LspSession → List Event → Waited A
  closed : Waited A
  invalid : Waited A
  raised : SessionError → Waited A

module _ (py : Python) (settings : Settings) where
  -- The loop that all waits share: what the session holds is looked at before each event is read.
  unfoldable pub wait_until {ℓ} :
      {A : Type ℓ} → (LspSession → Option A) → LspSession → List Event → Waited A
  unfolding pump_once
  wait_until {A} look s [] = elim (look s) [
    | some a ↦ returned a s []
    | none ↦ if s.stdout_eof then closed else raised timed_out
  ]
  wait_until {A} look s (event ∷ events) = elim (look s) [
    | some a ↦ returned a s (event ∷ events)
    | none ↦
        let next : Waited A = elim (pump_once py settings s event) [
          | inl why ↦ raised why
          | inr s' ↦ wait_until look s' events
        ] in
        if s.stdout_eof then closed else next
  ]

  -- `wait_response`
  unfoldable pub wait_response : Value → LspSession → List Event → Waited Fields
  unfolding wait_until id_key response_of
  wait_response req_id s events = elim (id_key req_id false) [
    | none ↦ invalid
    | some key ↦ wait_until (λ s'. response_of s'.responses key) s events
  ]

abbrev pub is_claimed : List ℕ → ℕ → Bool
is_claimed [] index = false
is_claimed (c ∷ claimed) index = c == index || is_claimed claimed index

-- The first notification from an index on that is not claimed and has the method, with its index.
unfoldable pub first_notification :
    (Fields → Bool) → Text → List ℕ → ℕ → List Fields → Option (ℕ × Fields)
unfolding get is_text
first_notification predicate method claimed index [] = none
first_notification predicate method claimed index (m ∷ ms) =
    let later = first_notification predicate method claimed (suc index) ms in
    if not (is_claimed claimed index) && is_text (get m (codes "method")) method && predicate m
    then some (index, m)
    else later

abbrev pub item_at {ℓ} : {A : Type ℓ} → ℕ → List A → Option A
item_at n [] = none
item_at zero (x ∷ xs) = some x
item_at (suc n) (x ∷ xs) = item_at n xs

module _ (py : Python) (settings : Settings) where
  -- `wait_notification`; the index that is returned joins the claimed ones.
  unfoldable pub wait_notification :
      (Fields → Bool) → Text → List ℕ → LspSession → List Event → Waited (ℕ × Fields)
  unfolding wait_until first_notification
  wait_notification predicate method claimed =
      wait_until py settings λ s. first_notification predicate method claimed 0 s.notifications

  abbrev pub message_at : ℕ → LspSession → Option (Fields × Bytes)
  message_at cursor s = elim (item_at cursor s.all_messages) [
    | none ↦ none
    | some message ↦ elim (item_at cursor s.raw_bodies) [
      | none ↦ none
      | some body ↦ some (message, body)
    ]
  ]

  -- `recv`; the cursor goes to the next message.
  unfoldable pub recv : ℕ → LspSession → List Event → Waited (Fields × Bytes)
  unfolding wait_until
  recv cursor = wait_until py settings (message_at cursor)
