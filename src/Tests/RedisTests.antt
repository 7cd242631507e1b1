-- ===== src/Tests/RedisTests.antt =====
-- src/store.rs and redis/: the Redis store and its scripts over a toy Redis.
use scpy.Prelude.{
  ◌∷◌, List, ℕ, ◌+◌, ◌≤◌, ◌≡◌, refl, ap, arith, none, some, [], codes, true, if◌then◌else◌,
}
use scpy.Auth.{StoredOpaqueLoginState, StoredOpaqueSession}
use scpy.Alloc.Code.{CodeAllocation, decode_room_id, encode_local_id}
use scpy.Alloc.Code.RoundTrip.{decode-encode}
use scpy.Store.Redis.Refines.Reclaimed.{IsReclaimed}
use scpy.Alloc.Tier.{TieredAllocator, allocate}
use scpy.Alloc.Tier.Invariant.{is_free}
use scpy.Alloc.Tier.Invariant.Allocate.{allocate-Outcome}
use scpy.Alloc.Tier.Invariant.Fresh.{full_tiers, new-IsValid}
use scpy.Tests.AllocTests.{allocate_full}
use scpy.Tests.StoreTests.{room, at_second, envelope, first_room}
use scpy.Store.Types.{StoredRoomRecord, ok, err, version_conflict, redis}
use scpy.Store.Redis.{
  Trip, answered, refused, lost, connect_with_options, create, free, freed, already_free, update,
  get, put_login_state, take_login_state, put_session, get_session, delete_session,
  get_or_create_server_setup, reclaim_expired, ReclaimResult,
}
use scpy.Store.Redis.Database.{
  stored, zset_remove, zset_insert, zset_up_to, take, clip, expiring, pair,
}
use scpy.Store.Redis.Scripts.{Codec, alloc_init}
use scpy.Store.Redis.Commands.{
  IsKept, Command, initializes, creates, writes, reclaims, execute, run,
}
use scpy.Store.Redis.Runs.{run-IsKept}
use scpy.Store.Redis.Mirror.{IsMirror, IsMirror-IsSameTiers}
use scpy.Store.Redis.Refines.Init.{alloc_init-full_tiers}
use scpy.Store.Redis.Refines.Free.{IsClipFreed}
use scpy.Store.Redis.Laws.Tiers.{free-IsClipFreed, reclaim_expired-IsReclaimed}
use scpy.Store.Redis.Laws.Rooms.{
  create-allocate, get-create, created_room, created_result, created_strings, encoded_of,
}
use scpy.Store.Redis.Laws.Updates.{updated_room, update-update}
use scpy.Store.Redis.Laws.Lost.{get-update_lost}
use scpy.Store.Redis.Laws.Sessions.{take_login_state-put_login_state}
use scpy.Tests.ToyRedis.{
  init, room_of, Db, redis_db, redis_db-IsRedis, json, json-IsCodec, blank, at_time,
}

-- A database after alloc_init.lua.
abbrev seeded : Db
seeded = (alloc_init redis_db init 0 blank).0

seeded-IsMirror : IsMirror seeded full_tiers
seeded-IsMirror = (alloc_init-full_tiers redis_db redis_db-IsRedis init 0 0 blank refl).0

abbrev first_code : CodeAllocation
first_code = record { room_id = first_room; code_len = 3; local_id = 0 }

allocated_first : (allocate full_tiers).1 ≡ some first_code
allocated_first = ap (λ out. out.1) allocate_full

abbrev minute : ℕ
minute = 60_000_000_000

create-allocate_example :
    let (d', result) = create redis_db json true (at_second 0) (at_time 0) room minute seeded in
    (result ≡ created_result (at_second 0) room minute (allocate full_tiers).1)
    × IsMirror d' (allocate full_tiers).0
    × (d'.strings
        ≡ created_strings json
            (at_second 0)
            (at_time 0)
            room
            minute
            seeded.strings
            (allocate full_tiers).1)
unfolding scpy.Time.ttl_to_millis scpy.Time.now_unix_ms
create-allocate_example =
    create-allocate redis_db redis_db-IsRedis json json-IsCodec true (at_second 0) (at_time 0) room
      minute seeded full_tiers refl (new-IsValid.1) seeded-IsMirror (omega arith) (omega arith)

abbrev stored_room : StoredRoomRecord ℕ
stored_room = created_room (at_second 0) first_code room minute

get-create_example :
    let (d', result) = create redis_db json true (at_second 0) (at_time 0) room minute seeded in
    (result ≡ ok stored_room)
    × (get redis_db json true (at_time 59_999) first_room d' ≡ (d', ok (some stored_room)))
unfolding scpy.Time.ttl_to_millis scpy.Time.now_unix_ms
get-create_example =
    get-create redis_db redis_db-IsRedis json json-IsCodec true (at_second 0) (at_time 0) room
      minute seeded full_tiers refl (new-IsValid.1) seeded-IsMirror (omega arith) (omega arith)
      first_code (at_time 59_999) allocated_first refl (omega arith) refl

encoded_first : encode_local_id 3 0 ≡ some first_room
encoded_first = encoded_of first_code (allocate-Outcome full_tiers (new-IsValid.1)) allocated_first

decoded_first : decode_room_id first_room ≡ some first_code
decoded_first = decode-encode 3 0 first_room encoded_first

free-IsClipFreed_example :
    (d' : Db) × (free redis_db json true (at_time 0) first_room seeded
      ≡ (d', ok (if is_free full_tiers 3 0 then already_free else freed)))
    × IsClipFreed seeded d' full_tiers 3 0
free-IsClipFreed_example =
    free-IsClipFreed redis_db redis_db-IsRedis json true (at_time 0) seeded full_tiers first_room
      first_code refl (new-IsValid.1) seeded-IsMirror decoded_first

-- The database with a room.
abbrev with_room : Db
with_room = stored (clip 3 0) (room_of stored_room, some 60_000) seeded

update-update_example :
    let (d', result) =
      update redis_db json true
        (at_second 1)
        (at_time 1_000)
        (at_time 1_001)
        first_room
        (envelope 2)
        minute
        with_room in
    (result ≡ ok (some (updated_room (at_second 1) (envelope 2) minute stored_room)))
    × (update redis_db json true
          (at_second 2)
          (at_time 2_000)
          (at_time 2_001)
          first_room
          (envelope 2)
          minute
          d'
        ≡ (d', err (version_conflict 2 2)))
unfolding scpy.Time.ttl_to_millis scpy.Time.now_unix_ms
update-update_example =
    update-update redis_db redis_db-IsRedis json json-IsCodec true (at_second 1) (at_time 1_000)
      (at_time 1_001) first_room first_code (envelope 2) minute stored_room with_room refl
      decoded_first (at_second 2) (at_time 2_000) (at_time 2_001) (envelope 2) minute refl refl refl
      encoded_first refl refl (omega arith) (omega arith) (omega arith) refl refl

abbrev cut_off : Trip
cut_off = record {
  delivery = lost (codes "timed out");
  time = 1_000;
  script_error = codes "script failed";
}

get-update_lost_example :
    let (d', result) =
      update redis_db json true
        (at_second 1)
        cut_off
        (at_time 1_001)
        first_room
        (envelope 2)
        minute
        with_room in
    (result ≡ err (redis (codes "timed out")))
    × (get redis_db json true (at_time 1_500) first_room d'
        ≡ (d', ok (some (updated_room (at_second 1) (envelope 2) minute stored_room))))
    × (update redis_db json true
          (at_second 2)
          (at_time 2_000)
          (at_time 2_001)
          first_room
          (envelope 2)
          minute
          d'
        ≡ (d', err (version_conflict 2 2)))
unfolding scpy.Time.ttl_to_millis scpy.Time.now_unix_ms
get-update_lost_example =
    get-update_lost redis_db redis_db-IsRedis json json-IsCodec true (at_second 1) cut_off
      (at_time 1_001) (at_time 1_500) first_room first_code (envelope 2) minute stored_room
      with_room (codes "timed out") decoded_first (at_second 2) (at_time 2_000) (at_time 2_001)
      (envelope 2) minute refl refl refl refl refl refl encoded_first (omega arith) (omega arith)
      (omega arith) refl refl

abbrev login_state : StoredOpaqueLoginState ℕ
login_state = record { room_id = first_room; state = 5 }

take_login_state-put_login_state_example :
    let (d₁, put) =
      put_login_state redis_db json true (at_time 0) (codes "login") login_state minute blank in
    let (d₂, taken) =
      take_login_state redis_db json true (at_time 1) (at_time 2) (codes "login") d₁ in
    let (d₃, again) =
      take_login_state redis_db json true (at_time 3) (at_time 4) (codes "login") d₂ in
    (put ≡ ok tt) × (taken ≡ ok (some login_state)) × (again ≡ ok none)
unfolding scpy.Time.ttl_to_millis
take_login_state-put_login_state_example =
    take_login_state-put_login_state redis_db redis_db-IsRedis json json-IsCodec true (at_time 0)
      (at_time 1) (at_time 2) (at_time 3) (at_time 4) (codes "login") login_state minute blank refl
      refl refl refl refl (omega arith)

abbrev session_value : StoredOpaqueSession
session_value = record { room_id = first_room; created_at_ms = 0; expires_at_ms = 60_000 }

-- The index names a room that is not there, whose id is free.
abbrev pub indexed : Db
indexed = redis_db.zadd expiring 5 (pair 3 0) seeded

pub indexed-IsMirror : IsMirror indexed full_tiers
indexed-IsMirror =
    IsMirror-IsSameTiers (record { sets = λ n. refl; hashes = λ n. refl }) seeded-IsMirror

reclaim_expired-IsReclaimed_example :
    (d' : Db) × (a' : TieredAllocator) × (result : ReclaimResult) × (reclaim_expired redis_db json
        true
        (at_second 0)
        (at_time 10)
        8
        indexed
      ≡ (d', ok result))
    × (result.reclaimed + result.cleaned ≤ result.scanned)
    × (result.scanned ≤ 8)
    × IsReclaimed 10 indexed d' full_tiers a'
unfolding take zset_up_to zset_insert zset_remove alloc_init scpy.Store.Redis.Scripts.init_tiers
    scpy.Time.now_unix_ms scpy.Alloc.Code.tier_capacity
reclaim_expired-IsReclaimed_example =
    reclaim_expired-IsReclaimed redis_db redis_db-IsRedis json true (at_second 0) (at_time 10) 8
      indexed full_tiers refl (new-IsValid.1) indexed-IsMirror ((175616, refl, omega arith), tt)

abbrev pub offline : Trip
offline = record {
  delivery = refused (codes "offline");
  time = 0;
  script_error = codes "script failed";
}

-- A room made, written to and reclaimed after it has expired.
abbrev commands : List (ℕ × Command ℕ ℕ ℕ)
commands =
    (1, creates 1_700_000_000_000 60_000 room)
    ∷ (2, writes first_room 1_700_000_000_001 60_000 (envelope 2))
    ∷ (70_000, reclaims 1_700_000_070_000 8)
    ∷ []

run-IsKept_example :
    IsKept 70_000 (run redis_db json true commands (execute redis_db json true 0 initializes blank))
run-IsKept_example =
    run-IsKept redis_db redis_db-IsRedis json true 0 commands blank refl (λ n id. refl) refl
      (omega arith, (omega arith, (omega arith, tt)))
