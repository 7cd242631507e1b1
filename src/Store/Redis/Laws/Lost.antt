-- ===== src/Store/Redis/Laws/Lost.antt =====
-- An `update` of the Redis store whose answer is lost after the script has run.
use scpy.Prelude.{ℕ, ◌+◌, ◌^◌, ◌<◌, ◌≡◌, refl, ◌∙◌, true, Bool, some, arith, ◌==◌, Text}
use scpy.Time.{Clock, now_unix_ms, ttl_to_millis}
use scpy.Crypto.{CipherEnvelope}
use scpy.Alloc.Code.{CodeAllocation, decode_room_id, encode_local_id}
use scpy.Store.Types.{StoredRoomRecord, ok, err, redis, version_conflict}
use scpy.Store.Redis.{Trip, answered, lost, get, update}
use scpy.Store.Redis.Database.{clip, Redis, IsRedis, unexpired}
use scpy.Store.Redis.Scripts.{Codec, put_clip, clip_write, write_stored}
use scpy.Store.Redis.Laws.Codecs.{fits, expiry_lem, fits_json, IsCodec}
use scpy.Store.Redis.Laws.Rooms.{put_clip-IsWritten, get_stored, unexpired-IsWritten}
use scpy.Store.Redis.Laws.Updates.{updated_room, next_version_lem, update_conflict}

module _ {D V P L Setup : Type 0} (r : Redis D V) (law : IsRedis r) (codec : Codec V P L Setup)
    (exact : IsCodec codec) (use_expiry_index : Bool) (clock : Clock) (trip other get_trip : Trip)
    (room_id : Text) (code : CodeAllocation) (envelope : CipherEnvelope) (ttl : ℕ)
    (stored : StoredRoomRecord P) (d : D) (message : Text)
    (decoded : decode_room_id room_id ≡ some code) where
  abbrev after : D
  after =
      put_clip r codec trip.time use_expiry_index code.code_len code.local_id (ttl_to_millis ttl)
        (updated_room clock envelope ttl stored) d

  update_is_lost :
      trip.delivery ≡ lost message
      → unexpired trip.time ((law.view d).strings (clip code.code_len code.local_id))
        ≡ some (codec.room_json stored)
      → fits_json stored ≡ true
      → fits envelope.version ≡ true
      → envelope.version ≡ stored.content_version + 1
      → trip.time + ttl_to_millis ttl < 10 ^ 14
      → fits (now_unix_ms clock + ttl_to_millis ttl) ≡ true
      → update r codec use_expiry_index clock trip other room_id envelope ttl d
        ≡ (after, err (redis message))
  unfolding update clip_write write_stored
  update_is_lost h e f small next in_range expiry_fits =
      let found = law.get_lem trip.time (clip code.code_len code.local_id) d ∙ e in
      let accepted =
        law.accepts_px_lem trip.time (ttl_to_millis ttl) (unfold ttl_to_millis in ground arith)
          in_range in
      let sum = expiry_lem codec exact (now_unix_ms clock) (ttl_to_millis ttl) expiry_fits in
      let current : fits stored.content_version ≡ true = ground arith in
      let same : (envelope.version == stored.content_version + 1) ≡ true = ground arith in
      let compared =
        next_version_lem codec exact envelope.version stored.content_version small current ∙ same in
      rw
        (
          update,
          decoded,
          h,
          clip_write,
          found,
          exact.cjson_room_lem stored f,
          compared,
          accepted,
          sum,
        )
        refl

  -- With JSON that is read back as it was written, for records whose clocks and versions are below
  -- 10 ^ 14 and whose credential id is not empty, and an expiry below 10 ^ 14 by the server's
  -- clock: where the answer to the write of an `update` with the next version is lost, `update`
  -- fails with the client's error but has written: before the expiry a `get` answers with the
  -- updated room, and an `update` tried again with the same version fails with a version conflict
  -- and changes nothing.
  pub get-update_lost :
      (clock' : Clock) (trip' other' : Trip) (envelope' : CipherEnvelope) (ttl' : ℕ)
      → trip.delivery ≡ lost message
      → get_trip.delivery ≡ answered
      → trip'.delivery ≡ answered
      → unexpired trip.time ((law.view d).strings (clip code.code_len code.local_id))
        ≡ some (codec.room_json stored)
      → fits_json stored ≡ true
      → fits_json (updated_room clock envelope ttl stored) ≡ true
      → encode_local_id stored.code_len stored.local_id ≡ some room_id
      → trip.time + ttl_to_millis ttl < 10 ^ 14
      → get_trip.time < trip.time + ttl_to_millis ttl
      → trip'.time < trip.time + ttl_to_millis ttl
      → envelope.version ≡ stored.content_version + 1
      → envelope'.version ≡ envelope.version
      → let (d', result) =
          update r codec use_expiry_index clock trip other room_id envelope ttl d in
        (result ≡ err (redis message))
        × (get r codec use_expiry_index get_trip room_id d' ≡ (
          d',
          ok (some (record (updated_room clock envelope ttl stored) { room_id = room_id })),
        ))
        × (update r codec use_expiry_index clock' trip' other' room_id envelope' ttl' d'
            ≡ (d', err (version_conflict envelope.version envelope'.version)))
  get-update_lost clock' trip' other' envelope' ttl' h k k' e f f' encoded in_range early early'
        next same =
      let updated = updated_room clock envelope ttl stored in
      let small : fits envelope.version ≡ true = ground arith in
      let small' : fits envelope'.version ≡ true = ground arith in
      let w =
        put_clip-IsWritten r law codec exact use_expiry_index trip.time code.code_len code.local_id
          (ttl_to_millis ttl) updated d in
      let alive =
        unexpired-IsWritten r law codec exact use_expiry_index _ _ code.code_len code.local_id _
          get_trip.time updated w early in
      let alive' =
        unexpired-IsWritten r law codec exact use_expiry_index _ _ code.code_len code.local_id _
          trip'.time updated w early' in
      rw (update_is_lost h e f small next in_range (ground arith)) (
        refl,
        get_stored r law codec exact use_expiry_index get_trip room_id code updated room_id after k
            decoded alive f' encoded,
        update_conflict r law codec exact use_expiry_index clock' trip' other' room_id code
            envelope' ttl' k' decoded updated after alive' f' small' (ground arith),
      )
