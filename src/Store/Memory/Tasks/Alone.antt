-- ===== src/Store/Memory/Tasks/Alone.antt =====
-- A task that no other interrupts does what its method does in one go.
use scpy.Prelude.{ℕ, zero, suc, ◌≤◌, ◌≡◌, refl, ap, arith, Option, none, some, Text}
use scpy.HashMap.{lookup}
use scpy.HashMap.Laws.{lookup-remove_self}
use scpy.Time.{Clock}
use scpy.Alloc.Code.{CodeAllocation}
use scpy.Alloc.Tier
use scpy.Alloc.Tier.{TieredAllocator}
use scpy.Store.Types.{StoredRoom, StoredRoomRecord, Result, ok, new_record}
use scpy.Crypto.{CipherEnvelope}
use scpy.Store.Memory.{
  ExpiringRoom, MemoryRoomStore, remove_if_expired, admit, create, get, get_registration, update,
  put_login_state, take_login_state, put_session, get_expiring_value, get_session, delete_session,
}
use scpy.Store.Memory.Invariant.{IsConsistent}
use scpy.Store.Memory.Rooms.{Created, create-Created, IsEvicted, get_expired, update_expired}
use scpy.Store.Memory.Values.{login_state_at, take_login_state_once}
use scpy.Store.Memory.Steps.{
  Call, creates, gets, gets_registration, updates, puts_login_state, takes_login_state,
  puts_session, gets_session, deletes_session, step,
}
use scpy.Store.Memory.Tasks.{
  Answer, created, found, login_found, session_found, done, Task, returned, start, offered, evict,
  read, check, read_session, take_state, resume,
}

module _ {P L : Type 0} where
  -- What the methods of `MemoryRoomStore` answer; `gets_registration` as the `get` that it awaits.
  abbrev pub answer : MemoryRoomStore P L → Clock × Call P L → Answer P L
  answer s (clock, creates room ttl) = created (create clock s room ttl).1
  answer s (clock, gets room_id) = found (get clock s room_id).1
  answer s (clock, gets_registration room_id) = found (get clock s room_id).1
  answer s (clock, updates room_id envelope ttl) = found (update clock s room_id envelope ttl).1
  answer s (clock, puts_login_state key state ttl) = done (put_login_state clock s key state ttl).1
  answer s (clock, takes_login_state key) = login_found (take_login_state clock s key).1
  answer s (clock, puts_session key session ttl) = done (put_session clock s key session ttl).1
  answer s (clock, gets_session key) = session_found (get_session clock s key).1
  answer s (clock, deletes_session key) = done (delete_session s key).1

  -- A task that has so many turns after one another.
  unfoldable pub turns : ℕ → Clock → MemoryRoomStore P L × Task P L → MemoryRoomStore P L × Task P L
  turns zero clock (s, t) = (s, t)
  turns (suc n) clock (s, t) = turns n clock (resume clock s t)

module _ {P L : Type 0} (clock : Clock) (s : MemoryRoomStore P L) where
  alone-offered :
      (room : StoredRoom P) (ttl : ℕ) (out : TieredAllocator × Option CodeAllocation)
      → turns 2 clock (offered clock s room ttl out)
        ≡ ((admit clock s room ttl out).0, returned (created (admit clock s room ttl out).1))
  unfolding turns resume offered admit new_record
  alone-offered room ttl (allocator, none) = refl
  alone-offered room ttl (allocator, some a) = refl

  alone_get :
      (room_id : Text)
      → turns 3 clock (s, start clock (gets room_id))
        ≡ ((get clock s room_id).0, returned (found (get clock s room_id).1))
  unfolding turns resume start read evict get remove_if_expired
  alone_get room_id = ground arith

  alone_update :
      (room_id : Text) (envelope : CipherEnvelope) (ttl : ℕ)
      → turns 3 clock (s, start clock (updates room_id envelope ttl)) ≡ (
        (update clock s room_id envelope ttl).0,
        returned (found (update clock s room_id envelope ttl).1),
      )
  unfolding turns resume start check evict update remove_if_expired
  alone_update room_id envelope ttl = ground arith

-- After three turns the store is as the method leaves it, and the task has the method's answer.
turns-step :
    {P L : Type 0} (clock : Clock) (s : MemoryRoomStore P L) (call : Call P L)
    → turns 3 clock (s, start clock call)
      ≡ (step s (clock, call), returned (answer s (clock, call)))
unfolding turns start resume step read_session take_state
turns-step clock s (creates room ttl) =
    unfold create in alone-offered clock s room ttl (Tier.allocate s.allocator)
turns-step clock s (gets room_id) = alone_get clock s room_id
turns-step clock s (gets_registration room_id) =
    unfold get_registration in alone_get clock s room_id
turns-step clock s (updates room_id envelope ttl) = alone_update clock s room_id envelope ttl
turns-step clock s (puts_login_state key state ttl) = unfold put_login_state in refl
turns-step clock s (takes_login_state key) = unfold take_login_state in ground arith
turns-step clock s (puts_session key session ttl) = unfold put_session in refl
turns-step clock s (gets_session key) = unfold get_session get_expiring_value in ground arith
turns-step clock s (deletes_session key) = unfold delete_session in refl

-- The store and the task of a call after three turns that no other task interrupts.
abbrev pub end :
    {P L : Type 0} → Clock → MemoryRoomStore P L → Call P L → MemoryRoomStore P L × Task P L
end clock s call = turns 3 clock (s, start clock call)

module _ {P L : Type 0} (clock : Clock) (s : MemoryRoomStore P L) (c : IsConsistent s)
    (room : StoredRoom P) (ttl : ℕ) (room_id : Text) (entry : ExpiringRoom P)
    (stored : lookup room_id s.rooms ≡ some entry) (expired : entry.expires_at ≤ clock.now)
    (envelope : CipherEnvelope) (key : Text) where
  taken_is_gone : (now : ℕ) → login_state_at (take_login_state clock s key).0 now key ≡ none
  unfolding take_login_state
  taken_is_gone now = ground (arith, lookup-remove_self key s.login_states)

  -- In a consistent store, of tasks that have three turns with no other task in between: a `create`
  -- has returned, having stored its room under a code that no room has and changed nothing else, or
  -- failed for want of a free id, changing nothing; a `get` and an `update` of an expired room have
  -- returned nothing, removed that room and no other, and freed its id; and a `take_login_state`
  -- has returned the live login state of its key and left none there.
  pub turns-IsDone :
      let created_end = end clock s (creates room ttl) in
      let got = end clock s (gets room_id) in
      let updated = end clock s (updates room_id envelope ttl) in
      let taken = end clock s (takes_login_state key) in
      ((result : Result (StoredRoomRecord P)) × (created_end.1 ≡ returned (created result))
        × Created clock s room ttl (created_end.0, result))
      × (got.1 ≡ returned (found (ok none)))
      × IsEvicted s got.0 room_id entry.room_record
      × (updated.1 ≡ returned (found (ok none)))
      × IsEvicted s updated.0 room_id entry.room_record
      × (taken.1 ≡ returned (login_found (ok (login_state_at s clock.now key))))
      × ((now : ℕ) → login_state_at taken.0 now key ≡ none)
  unfolding step
  turns-IsDone =
      let got = get_expired s c clock room_id entry stored expired in
      let updated = update_expired s c clock room_id entry stored expired envelope ttl in
      let taken = take_login_state_once clock s key in
      (
        (
          (create clock s room ttl).1,
          ap (λ out. out.1) (turns-step clock s (creates room ttl)),
          rw (turns-step clock s (creates room ttl)) (create-Created s c clock room ttl),
        ),
        rw (turns-step clock s (gets room_id), got.0) refl,
        rw (turns-step clock s (gets room_id)) (got.1),
        rw (turns-step clock s (updates room_id envelope ttl), updated.0) refl,
        rw (turns-step clock s (updates room_id envelope ttl)) (updated.1),
        rw (turns-step clock s (takes_login_state key), taken.0) refl,
        λ now. rw (turns-step clock s (takes_login_state key)) (taken_is_gone now),
      )
