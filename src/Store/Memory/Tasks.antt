-- ===== src/Store/Memory/Tasks.antt =====
-- src/store.rs: the methods of `MemoryRoomStore` as tasks. A task runs from one lock that it awaits to
-- the next, and any other task may run in between. A task that is dropped is one that never goes on.
pub mod Alone
pub mod Held
pub mod Turns
pub mod Runs
pub mod Changes
use scpy.Prelude.{ℕ, zero, suc, Text, Option, none, some, List, [], ◌∷◌, ltb, leb, if◌then◌else◌}
use scpy.HashMap.{lookup, insert, remove}
use scpy.Time.{Clock, expires_after}
use scpy.Auth.{StoredOpaqueLoginState, StoredOpaqueSession}
use scpy.Crypto.{CipherEnvelope}
use scpy.Alloc.Code.{CodeAllocation}
use scpy.Alloc.Tier
use scpy.Alloc.Tier.{TieredAllocator}
use scpy.Store.Types.{
  StoredRoom, StoredRoomRecord, allocator_exhausted, Result, ok, err, new_record,
}
use scpy.Store.Memory.{ExpiringValue, MemoryRoomStore, write}
use scpy.Store.Memory.Steps.{
  Call, creates, gets, gets_registration, updates, puts_login_state, takes_login_state,
  puts_session, gets_session, deletes_session,
}

-- What a method returns.
pub data Answer (P L : Type 0) : Type 0 where
  created : Result (StoredRoomRecord P) → Answer P L
  found : Result (Option (StoredRoomRecord P)) → Answer P L
  login_found : Result (Option (StoredOpaqueLoginState L)) → Answer P L
  session_found : Result (Option StoredOpaqueSession) → Answer P L
  done : Result (Unit {0}) → Answer P L

-- Where a method waits for a lock, with its local variables that are live there.
pub data Task (P L : Type 0) : Type 0 where
  allocating : StoredRoom P → (ttl : ℕ) → Task P L
  inserting : StoredRoomRecord P → (expires_at : ℕ) → Task P L
  reading : Text → (now : ℕ) → Task P L
  evicting : Text → (now : ℕ) → Task P L
  freeing : (code_len local_id : ℕ) → Task P L
  checking : Text → (now : ℕ) → CipherEnvelope → (ttl : ℕ) → Task P L
  writing : Text → (now : ℕ) → CipherEnvelope → (ttl : ℕ) → Task P L
  putting_login_state : Text → ExpiringValue (StoredOpaqueLoginState L) → Task P L
  taking_login_state : Text → (now : ℕ) → Task P L
  putting_session : Text → ExpiringValue StoredOpaqueSession → Task P L
  reading_session : Text → (now : ℕ) → Task P L
  removing_session : Text → Task P L
  deleting_session : Text → Task P L
  returned : Answer P L → Task P L

module _ {P L : Type 0} where
  -- A method up to its first lock. `get_registration` awaits `get`, and takes its answer's `auth`.
  unfoldable pub start : Clock → Call P L → Task P L
  start clock (creates room ttl) = allocating room ttl
  start clock (gets room_id) = reading room_id clock.now
  start clock (gets_registration room_id) = reading room_id clock.now
  start clock (updates room_id envelope ttl) = checking room_id clock.now envelope ttl
  start clock (puts_login_state key state ttl) =
      putting_login_state key (record { value = state; expires_at = expires_after clock ttl })
  start clock (takes_login_state key) = taking_login_state key clock.now
  start clock (puts_session key session ttl) =
      putting_session key (record { value = session; expires_at = expires_after clock ttl })
  start clock (gets_session key) = reading_session key clock.now
  start clock (deletes_session key) = deleting_session key

  -- `create` with what the allocator has answered, up to the lock of the rooms.
  unfoldable pub offered :
      Clock
      → MemoryRoomStore P L
      → StoredRoom P
      → ℕ
      → TieredAllocator × Option CodeAllocation
      → MemoryRoomStore P L × Task P L
  offered clock s room ttl (allocator, none) =
      (record s { allocator = allocator }, returned (created (err allocator_exhausted)))
  offered clock s room ttl (allocator, some a) = (
    record s { allocator = allocator },
    inserting (new_record clock a.room_id a.code_len a.local_id room ttl) (expires_after clock ttl),
  )

  -- `remove_if_expired` up to the lock of the allocator.
  unfoldable pub evict : MemoryRoomStore P L → Text → ℕ → MemoryRoomStore P L × Task P L
  evict s room_id now = elim (lookup room_id s.rooms) [
    | none ↦ (s, returned (found (ok none)))
    | some entry ↦
        if leb entry.expires_at now
        then (
          record s { rooms = remove room_id s.rooms },
          freeing entry.room_record.code_len entry.room_record.local_id,
        )
        else (s, returned (found (ok none)))
  ]

  -- The part of `get` and of `update` under the read lock.
  unfoldable pub read : MemoryRoomStore P L → Text → ℕ → Task P L
  read s room_id now = elim (lookup room_id s.rooms) [
    | none ↦ returned (found (ok none))
    | some entry ↦
        if ltb now entry.expires_at
        then returned (found (ok (some entry.room_record)))
        else evicting room_id now
  ]

  unfoldable pub check : MemoryRoomStore P L → Text → ℕ → CipherEnvelope → ℕ → Task P L
  check s room_id now envelope ttl = elim (lookup room_id s.rooms) [
    | none ↦ returned (found (ok none))
    | some entry ↦
        if leb entry.expires_at now then evicting room_id now else writing room_id now envelope ttl
  ]

  -- `get_expiring_value` under its read lock.
  unfoldable pub read_session : MemoryRoomStore P L → Text → ℕ → Task P L
  read_session s key now = elim (lookup key s.sessions) [
    | none ↦ returned (session_found (ok none))
    | some entry ↦
        if ltb now entry.expires_at
        then returned (session_found (ok (some entry.value)))
        else removing_session key
  ]

  unfoldable pub take_state : MemoryRoomStore P L → Text → ℕ → Option (StoredOpaqueLoginState L)
  take_state s key now = elim (lookup key s.login_states) [
    | none ↦ none
    | some entry ↦ if ltb now entry.expires_at then some entry.value else none
  ]

  -- One turn of a task: it has its lock, and goes on to the next. The clock is what it reads there.
  unfoldable pub resume : Clock → MemoryRoomStore P L → Task P L → MemoryRoomStore P L × Task P L
  resume clock s (allocating room ttl) = offered clock s room ttl (Tier.allocate s.allocator)
  resume clock s (inserting r expires_at) = (
    record s {
      rooms = insert r.room_id (record { room_record = r; expires_at = expires_at }) s.rooms;
    },
    returned (created (ok r)),
  )
  resume clock s (reading room_id now) = (s, read s room_id now)
  resume clock s (evicting room_id now) = evict s room_id now
  resume clock s (freeing code_len local_id) = (
    record s { allocator = (Tier.free s.allocator code_len local_id).0 },
    returned (found (ok none)),
  )
  resume clock s (checking room_id now envelope ttl) = (s, check s room_id now envelope ttl)
  resume clock s (writing room_id now envelope ttl) =
      let (s', answer) = write (record clock { now = now }) s room_id envelope ttl in
      (s', returned (found answer))
  resume clock s (putting_login_state key entry) =
      (record s { login_states = insert key entry s.login_states }, returned (done (ok tt)))
  resume clock s (taking_login_state key now) = (
    record s { login_states = remove key s.login_states },
    returned (login_found (ok (take_state s key now))),
  )
  resume clock s (putting_session key entry) =
      (record s { sessions = insert key entry s.sessions }, returned (done (ok tt)))
  resume clock s (reading_session key now) = (s, read_session s key now)
  resume clock s (removing_session key) =
      (record s { sessions = remove key s.sessions }, returned (session_found (ok none)))
  resume clock s (deleting_session key) =
      (record s { sessions = remove key s.sessions }, returned (done (ok tt)))
  resume clock s (returned answer) = (s, returned answer)

-- The store with its tasks, the one that started last first.
pub record System (P L : Type 0) : Type 0 where
  pub store : MemoryRoomStore P L
  pub tasks : List (Task P L)

-- A method is called, or the task in a place of the list has its turn.
pub data Event (P L : Type 0) : Type 0 where
  starts : Clock → Call P L → Event P L
  resumes : Clock → (place : ℕ) → Event P L

module _ {P L : Type 0} where
  unfoldable pub take_turn :
      Clock → ℕ → MemoryRoomStore P L → List (Task P L) → MemoryRoomStore P L × List (Task P L)
  take_turn clock place s [] = (s, [])
  take_turn clock zero s (t ∷ ts) = let (s', t') = resume clock s t in (s', t' ∷ ts)
  take_turn clock (suc place) s (t ∷ ts) =
      let (s', ts') = take_turn clock place s ts in (s', t ∷ ts')

  unfoldable pub happen : System P L → Event P L → System P L
  happen y (starts clock call) = record y { tasks = start clock call ∷ y.tasks }
  happen y (resumes clock place) =
      let (store, tasks) = take_turn clock place y.store y.tasks in
      record { store = store; tasks = tasks }

  unfoldable pub interleave : System P L → List (Event P L) → System P L
  interleave y [] = y
  interleave y (event ∷ events) = interleave (happen y event) events
