-- ===== src/Store/Memory.antt =====
-- src/store.rs: `MemoryRoomStore`. Each method takes the store and the clock, runs from its start to
-- its end with no other task in between, and returns the new store and its result.
pub mod Invariant
pub mod Steps
pub mod Rooms
pub mod Updates
pub mod Values
pub mod Instance
pub mod Tasks
pub mod Others
use scpy.Prelude.{
  ℕ, ◌+◌, ◌%◌, ◌^◌, Text, Option, none, some, [], ltb, leb, ◌==◌, if◌then◌else◌, ◌>>=◌,
}
use scpy.HashMap.{HashMap, lookup, insert, remove}
use scpy.Time.{Clock, saturating_add, ttl_to_millis, now_unix_ms, expires_after}
use scpy.Auth.{StoredOpaqueRegistration, StoredOpaqueLoginState, StoredOpaqueSession}
use scpy.Crypto.{CipherEnvelope}
use scpy.Alloc.Code.{CodeAllocation}
use scpy.Alloc.Tier
use scpy.Alloc.Tier.{TieredAllocator}
use scpy.Store.Types.{
  StoredRoom, StoredRoomRecord, allocator_exhausted, version_conflict, Result, ok, err, new_record,
}

pub record ExpiringRoom (PasswordFile : Type 0) : Type 0 where
  pub room_record : StoredRoomRecord PasswordFile
  pub expires_at : ℕ

pub record ExpiringValue (T : Type 0) : Type 0 where
  pub value : T
  pub expires_at : ℕ

pub record MemoryRoomStore (PasswordFile ServerLogin : Type 0) : Type 0 where
  pub rooms : HashMap (ExpiringRoom PasswordFile)
  pub login_states : HashMap (ExpiringValue (StoredOpaqueLoginState ServerLogin))
  pub sessions : HashMap (ExpiringValue StoredOpaqueSession)
  pub allocator : TieredAllocator

-- `MemoryRoomStore::new`; `none` is a panic of `TieredAllocator::new`.
unfoldable pub new : {P L : Type 0} → Option (MemoryRoomStore P L)
new = do
  allocator ← Tier.new
  some (record { rooms = []; login_states = []; sessions = []; allocator = allocator })

-- A live value stays, an expired one is removed.
unfoldable pub get_expiring_value :
    {T : Type 0} → HashMap (ExpiringValue T) → Text → ℕ → HashMap (ExpiringValue T) × Option T
get_expiring_value values key now = elim (lookup key values) [
  | none ↦ (values, none)
  | some entry ↦
      if ltb now entry.expires_at then (values, some entry.value) else (remove key values, none)
]

abbrev pub map_option : {A B : Type 0} → (A → B) → Result (Option A) → Result (Option B)
map_option f (ok none) = ok none
map_option f (ok (some a)) = ok (some (f a))
map_option f (err e) = err e

-- The record of a room after a write.
unfoldable pub updated_record :
    {P : Type 0} → Clock → StoredRoomRecord P → CipherEnvelope → ℕ → StoredRoomRecord P
updated_record clock r envelope ttl =
    let updated_at_ms = now_unix_ms clock in
    record r {
      envelope = envelope;
      content_version = envelope.version;
      updated_at_ms = updated_at_ms;
      expires_at_ms = saturating_add updated_at_ms (ttl_to_millis ttl);
    }

module _ {P L : Type 0} where
  -- `remove_if_expired`: an expired room is removed, and its id is freed.
  unfoldable pub remove_if_expired :
      MemoryRoomStore P L → Text → ℕ → MemoryRoomStore P L × Option (StoredRoomRecord P)
  remove_if_expired s room_id now = elim (lookup room_id s.rooms) [
    | none ↦ (s, none)
    | some entry ↦
        let expired = entry.room_record in
        if leb entry.expires_at now
        then (
          record s {
            rooms = remove room_id s.rooms;
            allocator = (Tier.free s.allocator expired.code_len expired.local_id).0;
          },
          some expired,
        )
        else (s, none)
  ]

  -- `create` with what the allocator has answered.
  unfoldable pub admit :
      Clock
      → MemoryRoomStore P L
      → StoredRoom P
      → ℕ
      → TieredAllocator × Option CodeAllocation
      → MemoryRoomStore P L × Result (StoredRoomRecord P)
  admit clock s room ttl (allocator, none) =
      (record s { allocator = allocator }, err allocator_exhausted)
  admit clock s room ttl (allocator, some a) =
      let room_record = new_record clock a.room_id a.code_len a.local_id room ttl in
      let entry : ExpiringRoom P = record {
        room_record = room_record;
        expires_at = expires_after clock ttl;
      } in
      (record s { rooms = insert a.room_id entry s.rooms; allocator = allocator }, ok room_record)

  unfoldable pub create :
      Clock
      → MemoryRoomStore P L
      → StoredRoom P
      → ℕ
      → MemoryRoomStore P L × Result (StoredRoomRecord P)
  create clock s room ttl = admit clock s room ttl (Tier.allocate s.allocator)

  unfoldable pub get :
      Clock
      → MemoryRoomStore P L
      → Text
      → MemoryRoomStore P L × Result (Option (StoredRoomRecord P))
  get clock s room_id = elim (lookup room_id s.rooms) [
    | none ↦ (s, ok none)
    | some entry ↦
        let (evicted, removed) = remove_if_expired s room_id clock.now in
        if ltb clock.now entry.expires_at
        then (s, ok (some entry.room_record))
        else (evicted, ok none)
  ]

  unfoldable pub get_registration :
      Clock
      → MemoryRoomStore P L
      → Text
      → MemoryRoomStore P L × Result (Option (StoredOpaqueRegistration P))
  get_registration clock s room_id =
      let (s', found) = get clock s room_id in (s', map_option (λ r. r.auth) found)

  -- The part of `update` under the write lock.
  unfoldable pub write :
      Clock
      → MemoryRoomStore P L
      → Text
      → CipherEnvelope
      → ℕ
      → MemoryRoomStore P L × Result (Option (StoredRoomRecord P))
  write clock s room_id envelope ttl = elim (lookup room_id s.rooms) [
    | none ↦ (s, ok none)
    | some entry ↦
        let current = entry.room_record.content_version in
        let room_record = updated_record clock entry.room_record envelope ttl in
        if envelope.version == (current + 1) % 2 ^ 64
        then (
          record s {
            rooms =
                insert room_id
                  (record { room_record = room_record; expires_at = expires_after clock ttl })
                  s.rooms;
          },
          ok (some room_record),
        )
        else (s, err (version_conflict current envelope.version))
  ]

  unfoldable pub update :
      Clock
      → MemoryRoomStore P L
      → Text
      → CipherEnvelope
      → ℕ
      → MemoryRoomStore P L × Result (Option (StoredRoomRecord P))
  update clock s room_id envelope ttl = elim (lookup room_id s.rooms) [
    | none ↦ (s, ok none)
    | some entry ↦
        let (evicted, removed) = remove_if_expired s room_id clock.now in
        if leb entry.expires_at clock.now
        then (evicted, ok none)
        else write clock s room_id envelope ttl
  ]

  unfoldable pub put_login_state :
      Clock
      → MemoryRoomStore P L
      → Text
      → StoredOpaqueLoginState L
      → ℕ
      → MemoryRoomStore P L × Result (Unit {0})
  put_login_state clock s login_session_id state ttl =
      let entry : ExpiringValue (StoredOpaqueLoginState L) = record {
        value = state;
        expires_at = expires_after clock ttl;
      } in
      (record s { login_states = insert login_session_id entry s.login_states }, ok tt)

  unfoldable pub take_login_state :
      Clock
      → MemoryRoomStore P L
      → Text
      → MemoryRoomStore P L × Result (Option (StoredOpaqueLoginState L))
  take_login_state clock s login_session_id =
      let s' = record s { login_states = remove login_session_id s.login_states } in
      elim (lookup login_session_id s.login_states) [
        | none ↦ (s', ok none)
        | some entry ↦ (s', ok (if ltb clock.now entry.expires_at then some entry.value else none))
      ]

  unfoldable pub put_session :
      Clock
      → MemoryRoomStore P L
      → Text
      → StoredOpaqueSession
      → ℕ
      → MemoryRoomStore P L × Result (Unit {0})
  put_session clock s session_id session ttl =
      let entry : ExpiringValue StoredOpaqueSession = record {
        value = session;
        expires_at = expires_after clock ttl;
      } in
      (record s { sessions = insert session_id entry s.sessions }, ok tt)

  unfoldable pub get_session :
      Clock → MemoryRoomStore P L → Text → MemoryRoomStore P L × Result (Option StoredOpaqueSession)
  get_session clock s session_id =
      let (sessions, found) = get_expiring_value s.sessions session_id clock.now in
      (record s { sessions = sessions }, ok found)

  unfoldable pub delete_session :
      MemoryRoomStore P L → Text → MemoryRoomStore P L × Result (Unit {0})
  delete_session s session_id = (record s { sessions = remove session_id s.sessions }, ok tt)
