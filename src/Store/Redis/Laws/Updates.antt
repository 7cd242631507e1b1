-- ===== src/Store/Redis/Laws/Updates.antt =====
-- `update` of a room of the database.
use scpy.Prelude.{
  ℕ, ◌+◌, ◌^◌, ◌<◌, ◌≡◌, codes, refl, ◌∙◌, true, false, Bool, Option, none, some, arith, ◌==◌, Text,
  text_eq, text_eq_refl,
}
use scpy.Time.{Clock, now_unix_ms, ttl_to_millis}
use scpy.Crypto.{CipherEnvelope}
use scpy.Alloc.Code.{CodeAllocation, decode_room_id, encode_local_id}
use scpy.Store.Types.{StoredRoomRecord, ok, err, version_conflict}
use scpy.Store.Redis.{Trip, answered, update, confirm}
use scpy.Store.Redis.Database.{clip, Redis, IsRedis, unexpired}
use scpy.Store.Redis.Scripts.{
  Codec, put_clip, written_record, write_error, clip_write, write_stored,
}
use scpy.Store.Redis.Laws.Codecs.{fits, expiry_lem, fits_json, IsCodec}
use scpy.Store.Redis.Laws.Rooms.{put_clip-IsWritten, get_stored, unexpired-IsWritten}

-- What the room becomes.
abbrev pub updated_room :
    {P : Type 0} → Clock → CipherEnvelope → ℕ → StoredRoomRecord P → StoredRoomRecord P
updated_room clock envelope ttl stored =
    written_record (now_unix_ms clock) (now_unix_ms clock + ttl_to_millis ttl) envelope stored

-- The test of the script, in the doubles that the numbers are there.
pub next_version_lem :
    {V P L Setup : Type 0} (codec : Codec V P L Setup)
    → IsCodec codec
    → (version content_version : ℕ) → fits version ≡ true
    → fits content_version ≡ true
    → (codec.lua_number version == codec.lua_number (codec.lua_number content_version + 1))
      ≡ (version == content_version + 1)
next_version_lem codec exact version content_version h k =
    let current = exact.lua_number_lem content_version (ground arith) in
    let next = exact.lua_number_lem (content_version + 1) (ground arith) in
    let attempted = exact.lua_number_lem version (ground arith) in
    rw (current, next, attempted) refl

module _ {D V P L Setup : Type 0} (r : Redis D V) (law : IsRedis r) (codec : Codec V P L Setup)
    (exact : IsCodec codec) (use_expiry_index : Bool) (clock : Clock) (trip get_trip : Trip)
    (room_id : Text) (code : CodeAllocation) (envelope : CipherEnvelope) (ttl : ℕ)
    (h : trip.delivery ≡ answered) (decoded : decode_room_id room_id ≡ some code) where
  pub update_conflict :
      (stored : StoredRoomRecord P) (d : D)
      → unexpired trip.time ((law.view d).strings (clip code.code_len code.local_id))
        ≡ some (codec.room_json stored)
      → fits_json stored ≡ true
      → fits envelope.version ≡ true
      → (envelope.version == stored.content_version + 1) ≡ false
      → update r codec use_expiry_index clock trip get_trip room_id envelope ttl d
        ≡ (d, err (version_conflict stored.content_version envelope.version))
  unfolding update clip_write write_stored text_eq
  update_conflict stored d e f small stale =
      let found = law.get_lem trip.time (clip code.code_len code.local_id) d ∙ e in
      let current : fits stored.content_version ≡ true = ground arith in
      let compared =
        next_version_lem codec exact envelope.version stored.content_version small current
        ∙ stale in
      let read =
        exact.serde_written_lem
          (write_error (codes "version_conflict") (some stored.content_version)) (ground arith) in
      rw (update, decoded, h, clip_write, found, exact.cjson_room_lem stored f, compared, read) refl

module _ {D V P L Setup : Type 0} (r : Redis D V) (law : IsRedis r) (codec : Codec V P L Setup)
    (exact : IsCodec codec) (use_expiry_index : Bool) (clock : Clock) (trip get_trip : Trip)
    (room_id : Text) (code : CodeAllocation) (envelope : CipherEnvelope) (ttl : ℕ)
    (stored : StoredRoomRecord P) (d : D) (h : trip.delivery ≡ answered)
    (decoded : decode_room_id room_id ≡ some code) where
  abbrev place : Option V
  place = unexpired trip.time ((law.view d).strings (clip code.code_len code.local_id))

  abbrev updated : StoredRoomRecord P
  updated = updated_room clock envelope ttl stored

  abbrev written : D
  written =
      put_clip r codec trip.time use_expiry_index code.code_len code.local_id (ttl_to_millis ttl)
        updated d

  found :
      place ≡ some (codec.room_json stored)
      → r.get trip.time (clip code.code_len code.local_id) d ≡ some (codec.room_json stored)
  found e = law.get_lem trip.time (clip code.code_len code.local_id) d ∙ e

  pub update_missing :
      place ≡ none
      → update r codec use_expiry_index clock trip get_trip room_id envelope ttl d ≡ (d, ok none)
  unfolding update clip_write text_eq
  update_missing e =
      let missing = law.get_lem trip.time (clip code.code_len code.local_id) d ∙ e in
      let read = exact.serde_written_lem (write_error (codes "not_found") none) refl in
      rw (update, decoded, h, clip_write, missing, read) refl

  pub update_written :
      place ≡ some (codec.room_json stored)
      → fits_json stored ≡ true
      → fits_json updated ≡ true
      → encode_local_id stored.code_len stored.local_id ≡ some room_id
      → get_trip.delivery ≡ answered
      → get_trip.time < trip.time + ttl_to_millis ttl
      → trip.time + ttl_to_millis ttl < 10 ^ 14
      → (envelope.version == stored.content_version + 1) ≡ true
      → update r codec use_expiry_index clock trip get_trip room_id envelope ttl d
        ≡ (written, ok (some (record updated { room_id = room_id })))
  unfolding update clip_write write_stored confirm text_eq
  update_written e f f' encoded k early in_range next =
      let w =
        put_clip-IsWritten r law codec exact use_expiry_index trip.time code.code_len code.local_id
          (ttl_to_millis ttl) updated d in
      let alive =
        unexpired-IsWritten r law codec exact use_expiry_index _ _ code.code_len code.local_id _
          get_trip.time updated w early in
      let read =
        get_stored r law codec exact use_expiry_index get_trip room_id code updated room_id written
          k decoded alive f' encoded in
      let same_version : (envelope.version == envelope.version) ≡ true = ground arith in
      let expires_at_ms = now_unix_ms clock + ttl_to_millis ttl in
      let same_expiry : (expires_at_ms == expires_at_ms) ≡ true = ground arith in
      let accepted =
        law.accepts_px_lem trip.time (ttl_to_millis ttl) (unfold ttl_to_millis in ground arith)
          in_range in
      let version_fits : fits envelope.version ≡ true = ground arith in
      let current_fits : fits stored.content_version ≡ true = ground arith in
      let expiry_fits : fits expires_at_ms ≡ true = ground arith in
      let sum = expiry_lem codec exact (now_unix_ms clock) (ttl_to_millis ttl) expiry_fits in
      let compared =
        next_version_lem codec exact envelope.version stored.content_version version_fits
          current_fits
        ∙ next in
      let answer =
        exact.serde_written_lem
          (record {
            status = codes "ok";
            error = none;
            room_id = some room_id;
            content_version = some envelope.version;
            expires_at_ms = some expires_at_ms;
            current_content_version = none;
          })
          (ground arith) in
      rw
        (
          update,
          decoded,
          h,
          clip_write,
          found e,
          exact.cjson_room_lem stored f,
          compared,
          accepted,
          sum,
          answer,
          confirm,
          read,
          text_eq_refl room_id,
          same_version,
          same_expiry,
        )
        refl

  -- The next writer, with its own clocks and requests.
  module _ (clock' : Clock) (trip' get_trip' : Trip) (envelope' : CipherEnvelope) (ttl' : ℕ) where
    -- Under the conditions of a successful `update` of the Redis store (JSON that is read back as
    -- it was written, records whose clocks and versions are below 10 ^ 14 and whose credential id
    -- is not empty, an expiry below 10 ^ 14 by the server's clock, a room that has not expired,
    -- requests that are answered, and the next version), a second `update` with the same version,
    -- answered before the room expires, fails with a version conflict and changes nothing.
    pub update-update :
        place ≡ some (codec.room_json stored)
        → fits_json stored ≡ true
        → fits_json updated ≡ true
        → encode_local_id stored.code_len stored.local_id ≡ some room_id
        → get_trip.delivery ≡ answered
        → trip'.delivery ≡ answered
        → get_trip.time < trip.time + ttl_to_millis ttl
        → trip'.time < trip.time + ttl_to_millis ttl
        → trip.time + ttl_to_millis ttl < 10 ^ 14
        → envelope.version ≡ stored.content_version + 1
        → envelope'.version ≡ envelope.version
        → let (d', result) =
            update r codec use_expiry_index clock trip get_trip room_id envelope ttl d in
          (result ≡ ok (some (record updated { room_id = room_id })))
          × (update r codec use_expiry_index clock' trip' get_trip' room_id envelope' ttl' d'
              ≡ (d', err (version_conflict envelope.version envelope'.version)))
    update-update e f f' encoded k k' early early' in_range next same =
        let w =
          put_clip-IsWritten r law codec exact use_expiry_index trip.time code.code_len
            code.local_id (ttl_to_millis ttl) updated d in
        let alive =
          unexpired-IsWritten r law codec exact use_expiry_index _ _ code.code_len code.local_id _
            trip'.time updated w early' in
        rw (update_written e f f' encoded k early in_range (ground arith)) (
          refl,
          update_conflict r law codec exact use_expiry_index clock' trip' get_trip' room_id code
              envelope' ttl' k' decoded updated written alive f' (ground arith) (ground arith),
        )
