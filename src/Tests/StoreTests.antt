-- ===== src/Tests/StoreTests.antt =====
-- src/store.rs: a memory store with one room, whose password files and login states are numbers.
use scpy.Prelude.{
  ℕ, ◌<◌, ◌+◌, ◌*◌, ◌≢◌, ◌≡◌, refl, ap, sym, arith, Option, none, some, Text, [], ◌∷◌, List, codes,
  true, false,
}
use scpy.HashMap.{lookup}
use scpy.Time.{Clock, expires_after}
use scpy.Crypto.{RoomMeta, CipherEnvelope}
use scpy.Alloc.Tier.Invariant.Fresh.{full_tiers, new-IsValid}
use scpy.Tests.AllocTests.{one_taken, allocate_full}
use scpy.Store.Types.{StoredRoom, StoredRoomRecord, version_conflict, ok, err, new_record}
use scpy.Store.Trait.{IsLawful}
use scpy.Store.Memory.{
  ExpiringRoom, ExpiringValue, MemoryRoomStore, new, admit, create, get, update, updated_record,
  put_login_state, take_login_state,
}
use scpy.Store.Memory.Invariant.{IsConsistent}
use scpy.Store.Memory.Steps.{Call, creates, step, run, run-new}
use scpy.Store.Memory.Rooms.{Created, create-Created, IsEvicted, get_expired, update_expired}
use scpy.Store.Memory.Updates.{
  IsWritten, Conflict, update-IsWritten, update_fails, get-update, update_once,
}
use scpy.Store.Memory.Values.{login_state_at, take_login_state_once}
use scpy.Store.Memory.Instance.{memory, memory-IsLawful}

abbrev pub Store : Type 0
Store = MemoryRoomStore ℕ ℕ

-- Moments that are seconds after the start, and lifetimes in seconds.
abbrev pub second : ℕ
second = 1_000_000_000

abbrev pub at_second : ℕ → Clock
at_second n = record {
  now = n * second;
  fallback = n * second;
  unix_millis = 1_700_000_000_000 + n * 1_000;
}

abbrev pub envelope : ℕ → CipherEnvelope
envelope version = record {
  version = version;
  nonce_b64 = codes "AAAA";
  ciphertext_b64 = codes "BBBB";
}

abbrev pub room_meta : RoomMeta
room_meta = record {
  schema_version = 1;
  kdf = record { memory_cost_kib = 65536; time_cost = 3; parallelism = 1 };
  kdf_salt_b64 = codes "CCCC";
  wrapped_room_key_nonce_b64 = codes "DDDD";
  wrapped_room_key_b64 = codes "EEEE";
}

abbrev pub room : StoredRoom ℕ
room = record {
  auth = record { credential_id = 1 ∷ 2 ∷ []; password_file = 7 };
  meta = room_meta;
  envelope = envelope 1;
}

abbrev pub fresh : Store
fresh = record { rooms = []; login_states = []; sessions = []; allocator = full_tiers }

pub fresh_lem : new ≡ some fresh
unfolding new
fresh_lem = rw (new-IsValid.0) refl

abbrev pub first_room : Text
first_room = codes "Cxm"

abbrev pub first_entry : ExpiringRoom ℕ
first_entry = record {
  room_record = record {
    schema_version = 1;
    room_id = first_room;
    code_len = 3;
    local_id = 0;
    created_at_ms = 1_700_000_000_000;
    updated_at_ms = 1_700_000_000_000;
    expires_at_ms = 1_700_000_060_000;
    content_version = 1;
    auth = room.auth;
    meta = room_meta;
    envelope = envelope 1;
  };
  expires_at = 60 * second;
}

abbrev pub calls : List (Clock × Call ℕ ℕ)
calls = (at_second 0, creates room (60 * second)) ∷ []

-- The store after its first room, which lives for a minute.
abbrev pub one_room : Store
one_room = record {
  rooms = (first_room, first_entry) ∷ [];
  login_states = [];
  sessions = [];
  allocator = one_taken;
}

run-calls : run fresh calls ≡ one_room
unfolding run step create admit new_record expires_after scpy.Time.now_unix_ms
    scpy.Time.ttl_to_millis scpy.HashMap.insert
run-calls = ap (λ out. (admit (at_second 0) fresh room (60 * second) out).0) allocate_full

pub one_room-IsConsistent : IsConsistent one_room
one_room-IsConsistent = rw run-calls at (run-new fresh calls fresh_lem)

pub found_first : lookup first_room one_room.rooms ≡ some first_entry
unfolding lookup scpy.Prelude.text_eq
found_first = refl

abbrev second_version : StoredRoomRecord ℕ
second_version = record first_entry.room_record {
  content_version = 2;
  updated_at_ms = 1_700_000_010_000;
  expires_at_ms = 1_700_000_070_000;
  envelope = envelope 2;
}

update_second :
    (update (at_second 10) one_room first_room (envelope 2) (60 * second)).1
    ≡ ok (some second_version)
unfolding update lookup scpy.Prelude.text_eq scpy.Store.Memory.write updated_record
    scpy.Time.now_unix_ms scpy.Time.ttl_to_millis
update_second = refl

update_third :
    (update (at_second 10) one_room first_room (envelope 3) (60 * second)).1
    ≡ err (version_conflict 1 3)
unfolding update lookup scpy.Prelude.text_eq scpy.Store.Memory.write
update_third = refl

in_time : (at_second 20).now < expires_after (at_second 10) (60 * second)
unfolding expires_after
in_time = omega arith

run-new_example : IsConsistent (run fresh calls)
run-new_example = run-new fresh calls fresh_lem

create-Created_example :
    Created (at_second 5) one_room room second (create (at_second 5) one_room room second)
create-Created_example = create-Created one_room one_room-IsConsistent (at_second 5) room second

get_expired_example :
    ((get (at_second 60) one_room first_room).1 ≡ ok none)
    × IsEvicted one_room
        (get (at_second 60) one_room first_room).0
        first_room
        first_entry.room_record
get_expired_example =
    get_expired one_room one_room-IsConsistent (at_second 60) first_room first_entry found_first
      (omega arith)

update_expired_example :
    ((update (at_second 60) one_room first_room (envelope 2) second).1 ≡ ok none)
    × IsEvicted one_room
        (update (at_second 60) one_room first_room (envelope 2) second).0
        first_room
        first_entry.room_record
update_expired_example =
    update_expired one_room one_room-IsConsistent (at_second 60) first_room first_entry found_first
      (omega arith) (envelope 2) second

update-IsWritten_example :
    IsWritten one_room
      (at_second 10)
      first_room
      (envelope 2)
      (60 * second)
      (update (at_second 10) one_room first_room (envelope 2) (60 * second)).0
      second_version
update-IsWritten_example =
    update-IsWritten one_room (at_second 10) first_room (envelope 2) (60 * second) second_version
      update_second

update_fails_example :
    Conflict one_room
      (at_second 10)
      first_room
      (envelope 3)
      (60 * second)
      (update (at_second 10) one_room first_room (envelope 3) (60 * second)).0
      (version_conflict 1 3)
update_fails_example =
    update_fails one_room (at_second 10) first_room (envelope 3) (60 * second)
      (version_conflict 1 3) update_third

get-update_example :
    let s' = (update (at_second 10) one_room first_room (envelope 2) (60 * second)).0 in
    (get (at_second 20) s' first_room ≡ (s', ok (some second_version)))
    × (second_version.envelope ≡ envelope 2)
    × (second_version.content_version ≡ (envelope 2).version)
get-update_example =
    get-update one_room (at_second 10) first_room (envelope 2) (60 * second) second_version
      update_second (at_second 20) in_time

update_once_example :
    let s' = (update (at_second 10) one_room first_room (envelope 2) (60 * second)).0 in
    update (at_second 20) s' first_room (envelope 2) second ≡ (s', err (version_conflict 2 2))
update_once_example =
    update_once one_room (at_second 10) first_room (envelope 2) (60 * second) second_version
      update_second (at_second 20) (envelope 2) second in_time refl

-- A store with one login under way.
abbrev pub login_key : Text
login_key = codes "a1"

abbrev pub logging_in : Store
logging_in = record one_room {
  login_states =
      (
        login_key,
        record { value = record { room_id = first_room; state = 9 }; expires_at = 60 * second },
      )
      ∷ [];
}

take_login_state_once_example :
    ((take_login_state (at_second 1) logging_in login_key).1
      ≡ ok (login_state_at logging_in second login_key))
    × ((clock' : Clock)
        → (take_login_state clock'
            (take_login_state (at_second 1) logging_in login_key).0
            login_key).1
          ≡ ok none)
    × ((now : ℕ) (k : Text)
        → k ≢ login_key
        → login_state_at (take_login_state (at_second 1) logging_in login_key).0 now k
          ≡ login_state_at logging_in now k)
take_login_state_once_example = take_login_state_once (at_second 1) logging_in login_key

memory-IsLawful_example : IsLawful (memory {P = ℕ} {L = ℕ})
memory-IsLawful_example = memory-IsLawful {P = ℕ} {L = ℕ}
