-- ===== src/Store/Redis/Scripts/Rooms.antt =====
-- redis/clip_create.lua and redis/clip_write.lua: what the scripts do to the rooms.
use scpy.Prelude.{ℕ, ◌+◌, Bool, Option, none, some, ◌==◌, Text, codes, if◌then◌else◌}
use scpy.Crypto.{CipherEnvelope}
use scpy.Alloc.Code.{code_lengths}
use scpy.Store.Types.{store_schema_version, StoredRoom, StoredRoomRecord}
use scpy.Store.Redis.Database.{expiring, clip, pair, Redis}
use scpy.Store.Redis.Scripts.Answers.{Codec, CreateScriptResponse, WriteScriptResponse, clip_member}
use scpy.Store.Redis.Scripts.Tiers.{take_id}

-- The sum of two numbers of the arguments, in doubles.
abbrev pub expiry : {V P L Setup : Type 0} → Codec V P L Setup → ℕ → ℕ → ℕ
expiry codec now_ms ttl_ms = codec.lua_number (codec.lua_number now_ms + codec.lua_number ttl_ms)

-- The record that clip_create.lua makes of its payload.
abbrev pub created_record : {P : Type 0} → ℕ → ℕ → ℕ → ℕ → StoredRoom P → StoredRoomRecord P
created_record now_ms expires_at_ms code_len local_id room = record {
  schema_version = store_schema_version;
  room_id = clip_member code_len local_id;
  code_len = code_len;
  local_id = local_id;
  created_at_ms = now_ms;
  updated_at_ms = now_ms;
  expires_at_ms = expires_at_ms;
  content_version = room.envelope.version;
  auth = room.auth;
  meta = room.meta;
  envelope = room.envelope;
}

abbrev pub write_error : Text → Option ℕ → WriteScriptResponse
write_error error current = record {
  status = codes "err";
  error = some error;
  room_id = none;
  content_version = none;
  expires_at_ms = none;
  current_content_version = current;
}

-- The record that clip_write.lua makes of the one stored.
abbrev pub written_record :
    {P : Type 0} → ℕ → ℕ → CipherEnvelope → StoredRoomRecord P → StoredRoomRecord P
written_record now_ms expires_at_ms envelope stored = record stored {
  envelope = envelope;
  content_version = envelope.version;
  updated_at_ms = now_ms;
  expires_at_ms = expires_at_ms;
}

module _ {D V P L Setup : Type 0} (r : Redis D V) (codec : Codec V P L Setup) where
  -- A room written under its key, and in the index where that is kept.
  unfoldable pub put_clip : ℕ → Bool → ℕ → ℕ → ℕ → StoredRoomRecord P → D → D
  put_clip time use_expiry_index code_len local_id ttl_ms room_record d =
      let written = r.set_px time (clip code_len local_id) (codec.room_json room_record) ttl_ms d in
      if use_expiry_index
      then r.zadd expiring room_record.expires_at_ms (pair code_len local_id) written
      else written

  -- The rest of clip_create.lua.
  unfoldable pub place :
      ℕ
      → Bool
      → ℕ
      → ℕ
      → StoredRoom P
      → D × Option (Option (ℕ × ℕ))
      → D × Option CreateScriptResponse
  place time use_expiry_index now_ms ttl_ms room (d, none) = (d, none)
  place time use_expiry_index now_ms ttl_ms room (d, some none) = (
    d,
    some (record {
      status = codes "err";
      error = some (codes "allocator_exhausted");
      code_len = none;
      local_id = none;
      expires_at_ms = none;
    }),
  )
  place time use_expiry_index now_ms ttl_ms room (d, some (some (code_len, local_id))) =
      if r.accepts_px time ttl_ms
      then (
        put_clip time use_expiry_index code_len local_id ttl_ms
            (created_record now_ms (expiry codec now_ms ttl_ms) code_len local_id room) d,
        some (record {
          status = codes "ok";
          error = none;
          code_len = some code_len;
          local_id = some local_id;
          expires_at_ms = some (expiry codec now_ms ttl_ms);
        }),
      )
      else (d, none)

  -- clip_create.lua.
  unfoldable pub clip_create : ℕ → Bool → ℕ → ℕ → StoredRoom P → D → D × Option CreateScriptResponse
  clip_create time use_expiry_index now_ms ttl_ms room d =
      place time use_expiry_index now_ms ttl_ms room (take_id r code_lengths d)

  -- clip_write.lua once it has read the record.
  unfoldable pub write_stored :
      ℕ
      → Bool
      → Text
      → ℕ
      → ℕ
      → ℕ
      → ℕ
      → CipherEnvelope
      → StoredRoomRecord P
      → D
      → D × Option WriteScriptResponse
  write_stored time use_expiry_index room_id code_len local_id now_ms ttl_ms envelope stored d =
      if codec.lua_number envelope.version
        == codec.lua_number (codec.lua_number stored.content_version + 1)
      then (if r.accepts_px time ttl_ms
          then (
            put_clip time use_expiry_index code_len local_id ttl_ms
                (written_record now_ms (expiry codec now_ms ttl_ms) envelope stored) d,
            some (record {
              status = codes "ok";
              error = none;
              room_id = some room_id;
              content_version = some envelope.version;
              expires_at_ms = some (expiry codec now_ms ttl_ms);
              current_content_version = none;
            }),
          )
          else (d, none))
      else (d, some (write_error (codes "version_conflict") (some stored.content_version)))

  -- clip_write.lua.
  unfoldable pub clip_write :
      ℕ → Bool → Text → ℕ → ℕ → ℕ → ℕ → CipherEnvelope → D → D × Option WriteScriptResponse
  clip_write time use_expiry_index room_id code_len local_id now_ms ttl_ms envelope d =
      elim (r.get time (clip code_len local_id) d) [
        | none ↦ (d, some (write_error (codes "not_found") none))
        | some payload ↦ elim (codec.cjson_room payload) [
          | none ↦ (d, none)
          | some stored ↦
              write_stored time use_expiry_index room_id code_len local_id now_ms ttl_ms envelope
                stored d
        ]
      ]
