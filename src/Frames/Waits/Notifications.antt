-- ===== src/Frames/Waits/Notifications.antt =====
-- The notifications and messages that the waits of test/lsp_client.py return.
use elisa_lsp.Base.{
  ℕ, suc, ◌+◌, true, false, Bool, ◌&&◌, not, Option, some, List, [], ◌∷◌, ◌++◌, ◌≡◌, ap, inl, inr,
  arith, Bool-cases,
}
use elisa_lsp.Base.Text.{Text, codes}
use elisa_lsp.Json.{Fields, get, is_text}
use elisa_lsp.Frames.{Python}
use elisa_lsp.Frames.Session.{Settings, LspSession, Event, pump_all}
use elisa_lsp.Frames.Waits.{returned, wait_notification, first_notification, is_claimed, item_at}
use elisa_lsp.Frames.Waits.Found.{wait_until_sound}

-- What `first_notification` finds from an index on.
first_notification-IsNew :
    (predicate : Fields → Bool) (method : Text) (claimed : List ℕ) (start index : ℕ)
    (ms : List Fields) (m : Fields)
    → first_notification predicate method claimed start ms ≡ some (index, m)
    → (place : ℕ) × (index ≡ start + place)
      × (item_at place ms ≡ some m)
      × (is_claimed claimed index ≡ false)
      × (is_text (get m (codes "method")) method ≡ true)
      × (predicate m ≡ true)
unfolding first_notification
first_notification-IsNew predicate method claimed start index [] m h = cc
first_notification-IsNew predicate method claimed start index (x ∷ xs) m h =
    elim (Bool-cases
      (not (is_claimed claimed start) && is_text (get x (codes "method")) method && predicate x)) [
        | inl e ↦
            let done = rw (first_notification, e) at h in
            let here : start ≡ index = cc done in
            let same : x ≡ m = cc done in
            (
              0,
              omega (arith, here),
              ap some same,
              rw (← here) (ground arith),
              rw (← same) (ground arith),
              rw (← same) (ground arith),
            )
        | inr e ↦
            let (place, at_index, there, new, named, meets) =
              first_notification-IsNew predicate method claimed (suc start) index xs m
                (rw (first_notification, e) at h) in
            (suc place, omega (arith, at_index), there, new, named, meets)
      ]

module _ (py : Python) (settings : Settings) where
  -- The notification that a wait returns is one that the session holds at the returned index, with
  -- the method asked for and as the predicate wants it, and its index is not among the claimed ones;
  -- the session is the one that the events read so far lead to.
  pub wait_notification-IsNew :
      (predicate : Fields → Bool) (method : Text) (claimed : List ℕ) (s s' : LspSession)
      (events rest : List Event) (index : ℕ) (m : Fields)
      → wait_notification py settings predicate method claimed s events
        ≡ returned (index, m) s' rest
      → (read : List Event) × (events ≡ read ++ rest)
        × (pump_all py settings s read ≡ inr s')
        × (item_at index s'.notifications ≡ some m)
        × (is_claimed claimed index ≡ false)
        × (is_text (get m (codes "method")) method ≡ true)
        × (predicate m ≡ true)
  unfolding wait_notification
  wait_notification-IsNew predicate method claimed s s' events rest index m h =
      let look : LspSession → Option (ℕ × Fields) =
        λ x. first_notification predicate method claimed 0 x.notifications in
      let (read, split, pumped, found) =
        wait_until_sound py settings look events rest s s' (index, m) h in
      let (place, at_index, there, new, named, meets) =
        first_notification-IsNew predicate method claimed 0 index s'.notifications m found in
      let same : index ≡ place = omega (arith, at_index) in
      (read, split, pumped, rw same there, new, named, meets)
