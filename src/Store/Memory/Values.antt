-- ===== src/Store/Memory/Values.antt =====
-- What a caller sees of the memory store: the values that have not expired. Expired entries are
-- removed when they are met, which no later call can tell.
use scpy.Prelude.{
  ℕ, ◌≤◌, ◌≡◌, ◌≢◌, arith, ltb, Option, none, some, Text, text_eq, text_eq_iff, if◌then◌else◌,
}
use scpy.HashMap.{lookup}
use scpy.HashMap.Laws.{lookup-insert, lookup-remove, lookup-remove_self}
use scpy.Time.{Clock, expires_after}
use scpy.Auth.{StoredOpaqueLoginState, StoredOpaqueSession}
use scpy.Store.Types.{StoredRoomRecord, ok}
use scpy.Store.Memory.{
  ExpiringRoom, ExpiringValue, MemoryRoomStore, remove_if_expired, get, get_expiring_value,
  put_login_state, take_login_state, put_session, get_session, delete_session,
}

-- The value, if it is still alive.
abbrev pub live_value : {T : Type 0} → ℕ → Option (ExpiringValue T) → Option T
live_value now none = none
live_value now (some entry) = if ltb now entry.expires_at then some entry.value else none

abbrev pub live_room : {P : Type 0} → ℕ → Option (ExpiringRoom P) → Option (StoredRoomRecord P)
live_room now none = none
live_room now (some entry) = if ltb now entry.expires_at then some entry.room_record else none

module _ {P L : Type 0} where
  abbrev pub room_at : MemoryRoomStore P L → ℕ → Text → Option (StoredRoomRecord P)
  room_at s now room_id = live_room now (lookup room_id s.rooms)

  abbrev pub session_at : MemoryRoomStore P L → ℕ → Text → Option StoredOpaqueSession
  session_at s now key = live_value now (lookup key s.sessions)

  abbrev pub login_state_at : MemoryRoomStore P L → ℕ → Text → Option (StoredOpaqueLoginState L)
  login_state_at s now key = live_value now (lookup key s.login_states)

  -- `get` answers with the live room, and leaves what can be seen from then on as it was.
  pub get-room_at :
      (clock : Clock) (s : MemoryRoomStore P L) (room_id : Text)
      → ((get clock s room_id).1 ≡ ok (room_at s clock.now room_id))
        × ((now : ℕ) (k : Text)
            → clock.now ≤ now
            → room_at (get clock s room_id).0 now k ≡ room_at s now k)
  unfolding get remove_if_expired
  get-room_at clock s room_id = (
    ground arith,
    λ now k h. ground (arith, lookup-remove room_id k s.rooms, text_eq_iff room_id k),
  )

  -- So does `get_session` with sessions.
  pub get_session-session_at :
      (clock : Clock) (s : MemoryRoomStore P L) (key : Text)
      → ((get_session clock s key).1 ≡ ok (session_at s clock.now key))
        × ((now : ℕ) (k : Text)
            → clock.now ≤ now
            → session_at (get_session clock s key).0 now k ≡ session_at s now k)
  unfolding get_session get_expiring_value
  get_session-session_at clock s key =
      (ground arith, λ now k h. ground (arith, lookup-remove key k s.sessions, text_eq_iff key k))

  -- A session can be read until its end, unless it is deleted, and no other session changes.
  pub session_at-put_session :
      (clock : Clock) (s : MemoryRoomStore P L) (key : Text) (session : StoredOpaqueSession)
      (ttl now : ℕ) (k : Text)
      → session_at (put_session clock s key session ttl).0 now k ≡ (
          if text_eq key k
          then (if ltb now (expires_after clock ttl) then some session else none)
          else session_at s now k)
  unfolding put_session
  session_at-put_session clock s key session ttl now k = ground (
    arith,
    lookup-insert key k (record { value = session; expires_at = expires_after clock ttl })
        s.sessions,
  )

  pub session_at-delete_session :
      (s : MemoryRoomStore P L) (key : Text) (now : ℕ) (k : Text)
      → session_at (delete_session s key).0 now k
        ≡ (if text_eq key k then none else session_at s now k)
  unfolding delete_session
  session_at-delete_session s key now k = ground (arith, lookup-remove key k s.sessions)

  login_state_at-put_login_state :
      (clock : Clock) (s : MemoryRoomStore P L) (key : Text) (state : StoredOpaqueLoginState L)
      (ttl now : ℕ) (k : Text)
      → login_state_at (put_login_state clock s key state ttl).0 now k ≡ (
          if text_eq key k
          then (if ltb now (expires_after clock ttl) then some state else none)
          else login_state_at s now k)
  unfolding put_login_state
  login_state_at-put_login_state clock s key state ttl now k = ground (
    arith,
    lookup-insert key k (record { value = state; expires_at = expires_after clock ttl })
        s.login_states,
  )

  -- `take_login_state` answers with the live login state of a key; taken again, at any clock, it
  -- answers with nothing, and every other key keeps its login state.
  pub take_login_state_once :
      (clock : Clock) (s : MemoryRoomStore P L) (key : Text)
      → ((take_login_state clock s key).1 ≡ ok (login_state_at s clock.now key))
        × ((clock' : Clock)
            → (take_login_state clock' (take_login_state clock s key).0 key).1 ≡ ok none)
        × ((now : ℕ) (k : Text)
            → k ≢ key
            → login_state_at (take_login_state clock s key).0 now k ≡ login_state_at s now k)
  unfolding take_login_state
  take_login_state_once clock s key = (
    ground arith,
    λ clock'. ground (arith, lookup-remove_self key s.login_states),
    λ now k h. ground (arith, lookup-remove key k s.login_states, text_eq_iff key k),
  )
