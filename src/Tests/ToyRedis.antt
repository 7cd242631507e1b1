-- ===== src/Tests/ToyRedis.antt =====
-- A Redis that is its contents, with strings that are the values they stand for.
use scpy.Prelude.{
  ℕ, ◌+◌, ◌≡◌, refl, Option, none, some, Text, [], codes, ◌⊎◌, inl, inr, true, false, Bool,
  if◌then◌else◌,
}
use scpy.Auth.{StoredOpaqueLoginState, StoredOpaqueSession}
use scpy.Store.Types.{StoredRoomRecord}
use scpy.Store.Redis.{Trip, answered}
use scpy.Store.Redis.Database.{
  Key, Member, Redis, Contents, Entry, unexpired, at_key, emptied, stored, at_field, zset_remove,
  zset_insert, zset_up_to, zset_at, first_of, last_of, take, members, IsRedis,
}
use scpy.Store.Redis.Scripts.{Codec}
use scpy.Store.Redis.Laws.Codecs.{IsCodec}

-- The numbers stand for password files, logins and key pairs.
pub data Json : Type 0 where
  init : Json
  room_of : StoredRoomRecord ℕ → Json
  login_of : StoredOpaqueLoginState ℕ → Json
  session_of : StoredOpaqueSession → Json
  setup_of : ℕ → Json

abbrev pub Db : Type 0
Db = Contents Json

abbrev pub is_some : Option Json → Bool
is_some none = false
is_some (some v) = true

-- Strings in no particular order where the scores are equal.
abbrev pub any_order : Member → Member → Bool
any_order a b = true

abbrev pub set_string : Key → Entry Json → Db → Db
set_string k entry d = stored k entry d

abbrev pub redis_db : Redis Db Json
redis_db = record {
  exists = λ time k d. is_some (unexpired time (d.strings k));
  get = λ time k d. unexpired time (d.strings k);
  set = λ k v d. stored k (v, none) d;
  set_px = λ time k v ttl d. stored k (v, some (time + ttl)) d;
  accepts_px = λ time ttl. true;
  setnx = λ time k v d.
      if is_some (unexpired time (d.strings k)) then (d, false) else (stored k (v, none) d, true);
  del = λ k d. record (emptied k d) { strings = at_key k none d.strings };
  zadd = λ k s m d. record d {
    sets = at_key k (zset_insert any_order s m (zset_remove m (d.sets k))) d.sets;
  };
  zrem = λ k m d. record d { sets = at_key k (zset_remove m (d.sets k)) d.sets };
  zrange = λ k d. members (d.sets k);
  zrange_first = λ k d. first_of (members (d.sets k));
  zrange_up_to = λ k score limit d. take limit (zset_up_to score (d.sets k));
  zrange_at = λ k score d. zset_at score (d.sets k);
  zrevrange_up_to = λ k score d. last_of (zset_up_to score (d.sets k));
  hset = λ k field value d. record d {
    hashes = at_key k (at_field field (some value) (d.hashes k)) d.hashes;
  };
  hget = λ k field d. d.hashes k field;
  hdel = λ k field d. record d { hashes = at_key k (at_field field none (d.hashes k)) d.hashes };
}

pub is_some_lem :
    (value : Option Json) → is_some value ≡ (elim value [ none ↦ false | some v ↦ true ])
is_some_lem none = refl
is_some_lem (some v) = refl

abbrev pub redis_db-IsRedis : IsRedis redis_db
redis_db-IsRedis = record {
  before = any_order;
  view = λ d. d;
  exists_lem = λ time k d. is_some_lem (unexpired time (d.strings k));
  get_lem = λ time k d. refl;
  set_lem = λ k v d. refl;
  set_px_lem = λ time k v ttl d. refl;
  accepts_px_lem = λ time ttl h k. refl;
  setnx_lem = λ time k v d. refl;
  del_lem = λ k d. refl;
  zadd_lem = λ k s m d. refl;
  zrem_lem = λ k m d. refl;
  zrange_lem = λ k d. refl;
  zrange_first_lem = λ k d. refl;
  zrange_up_to_lem = λ k score limit d. refl;
  zrange_at_lem = λ k score d. refl;
  zrevrange_up_to_lem = λ k score d. refl;
  hset_lem = λ k field value d. refl;
  hget_lem = λ k field d. refl;
  hdel_lem = λ k field d. refl;
}

abbrev pub wrong : Text
wrong = codes "another value"

abbrev pub cjson_room : Json → Option (StoredRoomRecord ℕ)
cjson_room (room_of x) = some x
cjson_room _ = none

abbrev pub serde_room : Json → Text ⊎ StoredRoomRecord ℕ
serde_room (room_of x) = inr x
serde_room _ = inl wrong

abbrev pub serde_login : Json → Text ⊎ StoredOpaqueLoginState ℕ
serde_login (login_of x) = inr x
serde_login _ = inl wrong

abbrev pub serde_session : Json → Text ⊎ StoredOpaqueSession
serde_session (session_of x) = inr x
serde_session _ = inl wrong

abbrev pub serde_setup : Json → Text ⊎ ℕ
serde_setup (setup_of x) = inr x
serde_setup _ = inl wrong

abbrev pub json : Codec Json ℕ ℕ ℕ
json = record {
  initialized = init;
  room_json = room_of;
  cjson_room = cjson_room;
  serde_room = serde_room;
  lua_number = λ n. n;
  serde_created = λ answer. inr answer;
  serde_written = λ answer. inr answer;
  login_json = login_of;
  serde_login = serde_login;
  session_json = session_of;
  serde_session = serde_session;
  setup_json = setup_of;
  serde_setup = serde_setup;
}

pub json-IsCodec : IsCodec json
json-IsCodec = record {
  cjson_room_lem = λ x h. refl;
  serde_room_lem = λ x h. refl;
  lua_number_lem = λ n h. refl;
  serde_created_lem = λ answer h. refl;
  serde_written_lem = λ answer h. refl;
  serde_login_lem = λ x. refl;
  serde_session_lem = λ x. refl;
  serde_setup_lem = λ x. refl;
}

abbrev pub blank : Db
blank = record { strings = λ k. none; sets = λ k. []; hashes = λ k field. none }

abbrev pub at_time : ℕ → Trip
at_time n = record { delivery = answered; time = n; script_error = codes "script failed" }
