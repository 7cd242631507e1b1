-- ===== src/Tests/TaskTests.antt =====
-- src/store.rs: tasks of the memory store that come in between one another.
use scpy.Prelude.{
  ℕ, ◌*◌, ◌≡◌, refl, ap, arith, Option, none, some, [], ◌∷◌, List, codes, true, false,
}
use scpy.HashMap.{lookup, insert, remove}
use scpy.Time.{Clock, expires_after}
use scpy.Alloc.Code.{encode_local_id}
use scpy.Alloc.Tier.{allocate}
use scpy.Store.Types.{StoredRoomRecord, Result, new_record, ok}
use scpy.Store.Memory.Rooms.{Created, IsEvicted}
use scpy.Store.Memory.Values.{login_state_at}
use scpy.Store.Memory.{write, updated_record}
use scpy.Store.Memory.Invariant.{IsConsistent}
use scpy.Store.Memory.Steps.{creates, gets, updates, takes_login_state}
use scpy.Store.Memory.Tasks.{
  created, found, login_found, inserting, writing, returned, System, Event, starts, resumes, start,
  offered, check, read, evict, resume, take_turn, happen, interleave,
}
use scpy.Store.Memory.Tasks.Alone.{end, turns-IsDone}
use scpy.Store.Memory.Tasks.Turns.{IsSound}
use scpy.Store.Memory.Tasks.Runs.{
  begin, interleave-new, IsQuiet, interleave-IsConsistent, task_at, IsHeldAlone,
  interleave-IsHeldAlone,
}
use scpy.Store.Memory.Tasks.Changes.{Change, happen-Change}
use scpy.Tests.AllocTests.{one_taken, allocate_full}
use scpy.Tests.StoreTests.{
  fresh, fresh_lem, room, second, at_second, first_room, first_entry, one_room, envelope,
  one_room-IsConsistent, found_first, login_key,
}

-- A `create` that has been given an id, and the same when it has stored its room.
abbrev given : List (Event ℕ ℕ)
given = starts (at_second 0) (creates room (60 * second)) ∷ resumes (at_second 0) 0 ∷ []

abbrev stored : List (Event ℕ ℕ)
stored =
    starts (at_second 0) (creates room (60 * second))
    ∷ resumes (at_second 0) 0
    ∷ resumes (at_second 0) 0
    ∷ []

abbrev waiting : System ℕ ℕ
waiting = record {
  store = record fresh { allocator = one_taken };
  tasks = inserting first_entry.room_record (60 * second) ∷ [];
}

interleave-given : interleave (begin fresh) given ≡ waiting
unfolding interleave happen start take_turn resume offered new_record expires_after
    scpy.Time.now_unix_ms scpy.Time.ttl_to_millis
interleave-given =
    ap
      (λ out.
        let (store, t) = offered (at_second 0) fresh room (60 * second) out in
        record { store = store; tasks = t ∷ [] })
      allocate_full

interleave-stored : interleave (begin fresh) stored ≡ record {
  store = record fresh { rooms = (first_room, first_entry) ∷ []; allocator = one_taken };
  tasks = returned (created (ok first_entry.room_record)) ∷ [];
}
unfolding interleave resume happen take_turn insert
interleave-stored = ap (λ y. happen y (resumes (at_second 0) 0)) interleave-given

-- An update that saw a room alive writes to the room that has its code when it comes to write, here
-- the one that was created after the first room was evicted.
abbrev late : List (Event ℕ ℕ)
late =
    starts (at_second 59) (updates first_room (envelope 2) (60 * second))
    ∷ resumes (at_second 59) 0
    ∷ starts (at_second 61) (gets first_room)
    ∷ resumes (at_second 61) 0
    ∷ resumes (at_second 61) 0
    ∷ resumes (at_second 61) 0
    ∷ []

abbrev after_late : System ℕ ℕ
after_late = record {
  store = fresh;
  tasks =
      returned (found (ok none)) ∷ writing first_room (59 * second) (envelope 2) (60 * second) ∷ [];
}

interleave-late : interleave (begin one_room) late ≡ after_late
unfolding interleave happen start take_turn resume check read evict lookup remove
    scpy.Alloc.Tier.free scpy.Alloc.Tier.free_in scpy.Alloc.Tier.left_adjacent
    scpy.Alloc.Tier.right_adjacent scpy.Alloc.Tier.merge scpy.Alloc.Tier.covers
    scpy.Alloc.Code.tier_capacity scpy.BTree.get scpy.BTree.insert scpy.BTree.remove
    scpy.BTree.last_up_to scpy.Prelude.text_eq
interleave-late = refl

abbrev later_events : List (Event ℕ ℕ)
later_events =
    starts (at_second 62) (creates room (60 * second))
    ∷ resumes (at_second 62) 0
    ∷ resumes (at_second 62) 0
    ∷ resumes (at_second 63) 2
    ∷ []

abbrev overwritten : StoredRoomRecord ℕ
overwritten = record first_entry.room_record {
  created_at_ms = 1_700_000_062_000;
  updated_at_ms = 1_700_000_063_000;
  expires_at_ms = 1_700_000_123_000;
  content_version = 2;
  envelope = envelope 2;
}

interleave-later_events :
    (interleave after_late later_events).store.rooms
    ≡ (first_room, record { room_record = overwritten; expires_at = 119 * second }) ∷ []
unfolding interleave happen start take_turn resume offered new_record write updated_record insert
    lookup expires_after scpy.Time.now_unix_ms scpy.Time.ttl_to_millis scpy.Prelude.text_eq
interleave-later_events =
    ap
      (λ out.
        let (store, t) = offered (at_second 62) fresh room (60 * second) out in
        (interleave (record { store = store; tasks = t ∷ after_late.tasks })
          (resumes (at_second 62) 0 ∷ resumes (at_second 63) 2 ∷ [])).store.rooms)
      allocate_full

encode_first : encode_local_id 3 0 ≡ some first_room
encode_first =
    let i : IsSound waiting = rw interleave-given at (interleave-new fresh given fresh_lem) in
    i.are_tasks.0

given_at :
    task_at 0 (interleave (begin fresh) given).tasks
    ≡ some (inserting first_entry.room_record (60 * second))
given_at = rw interleave-given refl

turns-IsDone_example :
    let at = at_second 60 in
    let created_end = end at one_room (creates room (60 * second)) in
    let got = end at one_room (gets first_room) in
    let updated = end at one_room (updates first_room (envelope 2) (60 * second)) in
    let taken = end at one_room (takes_login_state login_key) in
    ((result : Result (StoredRoomRecord ℕ)) × (created_end.1 ≡ returned (created result))
      × Created at one_room room (60 * second) (created_end.0, result))
    × (got.1 ≡ returned (found (ok none)))
    × IsEvicted one_room got.0 first_room first_entry.room_record
    × (updated.1 ≡ returned (found (ok none)))
    × IsEvicted one_room updated.0 first_room first_entry.room_record
    × (taken.1 ≡ returned (login_found (ok (login_state_at one_room at.now login_key))))
    × ((now : ℕ) → login_state_at taken.0 now login_key ≡ none)
turns-IsDone_example =
    turns-IsDone (at_second 60) one_room one_room-IsConsistent room (60 * second) first_room
      first_entry found_first (omega arith) (envelope 2) login_key

interleave-new_example : IsSound (interleave (begin fresh) given)
interleave-new_example = interleave-new fresh given fresh_lem

stored_IsQuiet : IsQuiet (interleave (begin fresh) stored).tasks
stored_IsQuiet = rw interleave-stored (refl, tt)

interleave-IsConsistent_example : IsConsistent (interleave (begin fresh) stored).store
interleave-IsConsistent_example = interleave-IsConsistent fresh stored fresh_lem stored_IsQuiet

interleave-IsHeldAlone_example : IsHeldAlone (interleave (begin fresh) given) 0 3 0 first_room
interleave-IsHeldAlone_example =
    interleave-IsHeldAlone fresh given 0 3 0 first_room
      (inserting first_entry.room_record (60 * second)) fresh_lem given_at refl encode_first

happen-Change_example :
    Change {L = ℕ}
      (at_second 1)
      first_room
      (inserting first_entry.room_record (60 * second))
      (lookup first_room (interleave (begin fresh) given).store.rooms)
      (lookup first_room
        (happen (interleave (begin fresh) given) (resumes (at_second 1) 0)).store.rooms)
happen-Change_example =
    happen-Change fresh given (at_second 1) 0 (inserting first_entry.room_record (60 * second))
      first_room fresh_lem given_at
