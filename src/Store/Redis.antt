-- ===== src/Store/Redis.antt =====
-- src/store.rs: `RedisRoomStore`. Each method is an action on the database; the client's clock, what
-- becomes of each request and the server's clock at it are arguments.
mod Requests
pub mod Database
pub mod Scripts
pub mod Intervals
pub mod Edits
pub mod Merges
pub mod Mirror
pub mod Index
pub mod Refines
pub mod Laws
pub mod Commands
pub mod Kept
pub mod Runs
pub use Requests.*
use scpy.Prelude.{
  ℕ, ◌+◌, Bool, true, false, ◌&&◌, Option, none, some, List, [], ◌∷◌, ltb, leb, ◌==◌, Text, text_eq,
  codes, if◌then◌else◌, ◌⊎◌, inl, inr,
}
use scpy.Time.{Clock, ttl_to_millis, now_unix_ms}
use scpy.Auth.{StoredOpaqueRegistration, StoredOpaqueLoginState, StoredOpaqueSession}
use scpy.Crypto.{CipherEnvelope}
use scpy.Alloc.Code.{CodeAllocation, encode_local_id, decode_room_id}
use scpy.Store.Types.{
  store_schema_version, StoredRoom, StoredRoomRecord, StoreError, redis, serialization,
  allocator_exhausted, invalid_room_id, version_conflict, script_protocol, Result, ok, err,
}
use scpy.Store.Action.{Action, then_do, ◌>>=◌, return}
use scpy.Store.Redis.Database.{
  Key, sentinel, expiring, setup, starts, ends, clip, login, session, Member, tonumber, Redis,
}
use scpy.Store.Redis.Scripts.{
  Codec, InitScriptResponse, CreateScriptResponse, WriteScriptResponse, FreeScriptResponse,
  ReclaimScriptResponse, alloc_init, clip_create, clip_write, clip_free, clip_reclaim_expired,
}

-- `normalize_record`: the code is computed from the id.
unfoldable pub normalize_record :
    {D P : Type 0} → StoredRoomRecord P → Action D (StoredRoomRecord P)
normalize_record stored = do
  room_id ←
      or_protocol (codes "stored record had invalid allocation")
        (encode_local_id stored.code_len stored.local_id)
  return (record stored { room_id = room_id })

module _ {D V P L Setup : Type 0} (r : Redis D V) (codec : Codec V P L Setup)
    (use_expiry_index : Bool) where
  -- `connect_with_options` after it has a connection.
  unfoldable pub connect_with_options : Trip → Action D (Unit {0})
  connect_with_options trip = do
    response ← invoke trip (alloc_init r codec.initialized)
    if text_eq response.status (codes "ok")
        then if text_eq response.state (codes "initialized")
          then return tt
          else if text_eq response.state (codes "already_initialized")
          then return tt
          else fail (script_protocol (codes "alloc_init returned unknown state"))
        else fail (script_protocol (codes "alloc_init returned non-ok status"))

  abbrev free_result : Option Text → Action D FreeRoomResult
  free_result result =
      if is_text result (codes "freed")
      then return freed
      else if is_text result (codes "already_free")
      then return already_free
      else fail (script_protocol (codes "clip_free returned unknown result"))

  unfoldable pub free : Trip → Text → Action D FreeRoomResult
  free trip room_id = elim (decode_room_id room_id) [
    | none ↦ fail invalid_room_id
    | some allocation ↦ (do
      response ←
          invoke trip (λ time. clip_free r use_expiry_index allocation.code_len allocation.local_id)
      if text_eq response.status (codes "ok")
          then free_result response.result
          else fail (script_protocol (codes "clip_free returned non-ok status")))
  ]

  unfoldable pub reclaim_expired : Clock → Trip → ℕ → Action D ReclaimResult
  reclaim_expired clock trip limit = do
    response ← invoke trip (λ time. clip_reclaim_expired r time (now_unix_ms clock) (max_one limit))
    if text_eq response.status (codes "ok")
        then return (record {
          reclaimed = or_default response.reclaimed;
          cleaned = or_default response.cleaned;
          scanned = or_default response.scanned;
        })
        else fail (script_protocol (codes "clip_reclaim_expired returned non-ok status"))

  -- `get_or_create_server_setup`, with the key pair that `new_server_setup` draws.
  unfoldable pub get_or_create_server_setup : Trip → Trip → Trip → Setup → Action D Setup
  get_or_create_server_setup get_trip setnx_trip again_trip drawn = do
    payload ← ask get_trip (λ time. r.get time setup)
    elim payload [
      | some json ↦ or_serialization (codec.serde_setup json)
      | none ↦ (do
        inserted ← send setnx_trip (λ time. r.setnx time setup (codec.setup_json drawn))
        if inserted then return drawn else (do
          again ← ask again_trip (λ time. r.get time setup)
          json ← or_protocol (codes "opaque setup missing after failed setnx") again
          or_serialization (codec.serde_setup json)))
    ]

  -- The loop of `free_intervals`, with a request for each of its ends.
  unfoldable pub interval_ends : Trip → ℕ → List Member → Action D (List (ℕ × ℕ))
  interval_ends trip code_len [] = return []
  interval_ends trip code_len (start ∷ rest) = do
    found ← ask trip (λ time. r.hget (ends code_len) start)
    end_member ← or_protocol (codes "missing interval end") found
    first ← or_protocol (codes "invalid interval start") (tonumber start)
    last ← or_protocol (codes "invalid interval end") (tonumber end_member)
    later ← interval_ends trip code_len rest
    return ((first, last) ∷ later)

  unfoldable pub free_intervals : Trip → Trip → ℕ → Action D (List (ℕ × ℕ))
  free_intervals range_trip end_trip code_len = do
    members ← ask range_trip (λ time. r.zrange (starts code_len))
    interval_ends end_trip code_len members

  abbrev created : Clock → StoredRoom P → CreateScriptResponse → Action D (StoredRoomRecord P)
  created clock room response = do
    code_len ← or_protocol (codes "missing created code_len") response.code_len
    local_id ← or_protocol (codes "missing created local_id") response.local_id
    room_id ←
        or_protocol (codes "created allocation was invalid") (encode_local_id code_len local_id)
    expires_at_ms ← or_protocol (codes "missing created expires_at_ms") response.expires_at_ms
    return (record {
      schema_version = store_schema_version;
      room_id = room_id;
      code_len = code_len;
      local_id = local_id;
      created_at_ms = now_unix_ms clock;
      updated_at_ms = now_unix_ms clock;
      expires_at_ms = expires_at_ms;
      content_version = room.envelope.version;
      auth = room.auth;
      meta = room.meta;
      envelope = room.envelope;
    })

  unfoldable pub create : Clock → Trip → StoredRoom P → ℕ → Action D (StoredRoomRecord P)
  create clock trip room ttl = do
    answer ← invoke trip (λ time.
        clip_create r codec time use_expiry_index (now_unix_ms clock) (ttl_to_millis ttl) room)
    response ← or_serialization (codec.serde_created answer)
    if text_eq response.status (codes "ok")
        then created clock room response
        else if text_eq response.status (codes "err")
            && is_text response.error (codes "allocator_exhausted")
        then fail allocator_exhausted
        else fail (script_protocol (codes "clip_create returned unknown response"))

  abbrev read_room : Option V → Action D (Option (StoredRoomRecord P))
  read_room none = return none
  read_room (some json) = do
    stored ← or_serialization (codec.serde_room json)
    normal ← normalize_record stored
    return (some normal)

  unfoldable pub get : Trip → Text → Action D (Option (StoredRoomRecord P))
  get trip room_id = elim (decode_room_id room_id) [
    | none ↦ return none
    | some allocation ↦ (do
      payload ← ask trip (λ time. r.get time (clip allocation.code_len allocation.local_id))
      read_room payload)
  ]

  abbrev auth_of : Option (StoredRoomRecord P) → Option (StoredOpaqueRegistration P)
  auth_of none = none
  auth_of (some stored) = some stored.auth

  unfoldable pub get_registration : Trip → Text → Action D (Option (StoredOpaqueRegistration P))
  get_registration trip room_id = do found ← get trip room_id; return (auth_of found)

  -- The `ok` branch of `update`, which reads the room again.
  unfoldable pub confirm :
      Trip → Text → WriteScriptResponse → Action D (Option (StoredRoomRecord P))
  confirm trip room_id response = do
    found ← get trip room_id
    stored ← or_protocol (codes "updated record missing after write") found
    if is_text response.room_id room_id
        then if is_number response.content_version stored.content_version
            && is_number response.expires_at_ms stored.expires_at_ms
          then return (some stored)
          else fail (script_protocol (codes "clip_write returned mismatched state"))
        else fail (script_protocol (codes "clip_write returned mismatched room_id"))

  unfoldable pub update :
      Clock → Trip → Trip → Text → CipherEnvelope → ℕ → Action D (Option (StoredRoomRecord P))
  update clock write_trip get_trip room_id envelope ttl = elim (decode_room_id room_id) [
    | none ↦ return none
    | some allocation ↦ (do
      answer ← invoke write_trip (λ time.
          clip_write r codec time use_expiry_index room_id allocation.code_len allocation.local_id
            (now_unix_ms clock) (ttl_to_millis ttl) envelope)
      response ← or_serialization (codec.serde_written answer)
      if text_eq response.status (codes "ok")
          then confirm get_trip room_id response
          else if text_eq response.status (codes "err")
              && is_text response.error (codes "not_found")
          then return none
          else if text_eq response.status (codes "err")
              && is_text response.error (codes "version_conflict")
          then fail
              (version_conflict (or_default response.current_content_version) envelope.version)
          else fail (script_protocol (codes "clip_write returned unknown response")))
  ]

  unfoldable pub put_login_state : Trip → Text → StoredOpaqueLoginState L → ℕ → Action D (Unit {0})
  put_login_state trip login_session_id state ttl = send trip (λ time d.
      (r.set_px time (login login_session_id) (codec.login_json state) (ttl_to_millis ttl) d, tt))

  abbrev read_json : {X : Type 0} → (V → Text ⊎ X) → Option V → Action D (Option X)
  read_json serde none = return none
  read_json serde (some json) = do value ← or_serialization (serde json); return (some value)

  unfoldable pub take_login_state :
      Trip → Trip → Text → Action D (Option (StoredOpaqueLoginState L))
  take_login_state get_trip del_trip login_session_id = do
    payload ← ask get_trip (λ time. r.get time (login login_session_id))
    done ← send del_trip (λ time d. (r.del (login login_session_id) d, tt))
    read_json codec.serde_login payload

  unfoldable pub put_session : Trip → Text → StoredOpaqueSession → ℕ → Action D (Unit {0})
  put_session trip session_id value ttl = send trip (λ time d.
      (r.set_px time (session session_id) (codec.session_json value) (ttl_to_millis ttl) d, tt))

  unfoldable pub get_session : Trip → Text → Action D (Option StoredOpaqueSession)
  get_session trip session_id = do
    payload ← ask trip (λ time. r.get time (session session_id))
    read_json codec.serde_session payload

  unfoldable pub delete_session : Trip → Text → Action D (Unit {0})
  delete_session trip session_id = send trip (λ time d. (r.del (session session_id) d, tt))
