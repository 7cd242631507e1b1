-- ===== src/Store/Trait.antt =====
-- src/store.rs: the trait `RoomStore`, as the methods over a type of states, and what a caller may
-- rely on: each kind of value is seen until it expires.
use scpy.Prelude.{ℕ, ◌≤◌, ◌≡◌, Option, none, some, Text, text_eq, ltb, if◌then◌else◌}
use scpy.Time.{Clock, expires_after}
use scpy.Auth.{StoredOpaqueRegistration, StoredOpaqueLoginState, StoredOpaqueSession}
use scpy.Crypto.{CipherEnvelope}
use scpy.Store.Types.{StoredRoom, StoredRoomRecord, Result, ok}

pub record RoomStore (P L S : Type 0) : Type 0 where
  pub create : Clock → S → StoredRoom P → ℕ → S × Result (StoredRoomRecord P)
  pub get : Clock → S → Text → S × Result (Option (StoredRoomRecord P))
  pub get_registration : Clock → S → Text → S × Result (Option (StoredOpaqueRegistration P))
  pub update : Clock → S → Text → CipherEnvelope → ℕ → S × Result (Option (StoredRoomRecord P))
  pub put_login_state : Clock → S → Text → StoredOpaqueLoginState L → ℕ → S × Result (Unit {0})
  pub take_login_state : Clock → S → Text → S × Result (Option (StoredOpaqueLoginState L))
  pub put_session : Clock → S → Text → StoredOpaqueSession → ℕ → S × Result (Unit {0})
  pub get_session : Clock → S → Text → S × Result (Option StoredOpaqueSession)
  pub delete_session : S → Text → S × Result (Unit {0})

-- The values that a store answers with at a time, and how the methods change them.
pub record IsLawful {P L S : Type 0} (store : RoomStore P L S) : Type 0 where
  pub room_at : S → ℕ → Text → Option (StoredRoomRecord P)
  pub session_at : S → ℕ → Text → Option StoredOpaqueSession
  pub get_lem :
      (clock : Clock) (s : S) (room_id : Text)
      → ((store.get clock s room_id).1 ≡ ok (room_at s clock.now room_id))
        × ((now : ℕ) (k : Text)
            → clock.now ≤ now
            → room_at (store.get clock s room_id).0 now k ≡ room_at s now k)
  pub get_session_lem :
      (clock : Clock) (s : S) (key : Text)
      → ((store.get_session clock s key).1 ≡ ok (session_at s clock.now key))
        × ((now : ℕ) (k : Text)
            → clock.now ≤ now
            → session_at (store.get_session clock s key).0 now k ≡ session_at s now k)
        × ((now : ℕ) (k : Text) → room_at (store.get_session clock s key).0 now k ≡ room_at s now k)
  pub put_session_lem :
      (clock : Clock) (s : S) (key : Text) (session : StoredOpaqueSession) (ttl now : ℕ) (k : Text)
      → session_at (store.put_session clock s key session ttl).0 now k ≡ (
          if text_eq key k
          then (if ltb now (expires_after clock ttl) then some session else none)
          else session_at s now k)
  pub put_session_ok :
      (clock : Clock) (s : S) (key : Text) (session : StoredOpaqueSession) (ttl : ℕ)
      → (store.put_session clock s key session ttl).1 ≡ ok tt
