-- ===== src/Api/State.antt =====
-- src/api.rs: `AppState` and its methods. A method is an action on the state; the clock of each call
-- of the store and the random bytes are arguments.
use scpy.Prelude.{
  ◌*◌, [], ℕ, Bool, false, ◌⊎◌, inl, inr, Option, none, some, Text, text_eq, if◌then◌else◌, List,
}
use scpy.HashMap.{HashMap, lookup, insert}
use scpy.Time.{Clock, saturating_add, ttl_to_millis, now_unix_ms}
use scpy.Auth.{StoredOpaqueLoginState, StoredOpaqueSession}
use scpy.Crypto.{CipherEnvelope}
use scpy.Opaque.{Opaque}
use scpy.Protocol.{
  OpaqueRegistrationStartRequest, OpaqueRegistrationStartResponse, OpaqueLoginStartRequest,
  OpaqueLoginStartResponse, OpaqueLoginFinishRequest, CreateRoomRequest, GetRoomResponse,
  UpdateClipboardResponse, ClipboardEvent,
}
use scpy.Store.Types.{StoredRoomRecord, Result, ok, err, opaque}
use scpy.Store.Action.{Action, ◌>>=◌, return}
use scpy.Store.Trait.{RoomStore}
use scpy.Store.Memory
use scpy.Store.Memory.{MemoryRoomStore}
use scpy.Api.Cookie.{session_cookie_value, session_cookie_name, random_token}

-- `tokio::sync::broadcast`: a channel with its capacity, and the two calls of its sender.
pub record Broadcast (Sender Receiver : Type 0) : Type 0 where
  pub channel : ℕ → Sender
  pub send : ClipboardEvent → Sender → Sender
  pub subscribe : Sender → Sender × Receiver

pub record AppState (Setup S Sender : Type 0) : Type 0 where
  pub store : S
  pub channels : HashMap Sender
  pub opaque_setup : Setup
  pub room_ttl : ℕ
  pub login_ttl : ℕ
  pub session_ttl : ℕ

-- In nanoseconds.
abbrev pub default_room_ttl : ℕ
default_room_ttl = 60 * 60 * 24 * 1_000_000_000

abbrev pub default_login_ttl : ℕ
default_login_ttl = 60 * 1_000_000_000

abbrev pub default_session_ttl : ℕ
default_session_ttl = 60 * 30 * 1_000_000_000

-- `AppState::new`.
unfoldable pub new : {Setup S Sender : Type 0} → S → Setup → ℕ → ℕ → ℕ → AppState Setup S Sender
new store opaque_setup room_ttl login_ttl session_ttl = record {
  store = store;
  channels = [];
  opaque_setup = opaque_setup;
  room_ttl = room_ttl;
  login_ttl = login_ttl;
  session_ttl = session_ttl;
}

-- `AppState::memory`, with the key pair that `new_server_setup` draws; `none` is a panic.
unfoldable pub over_memory :
    {Setup P L Sender : Type 0} → Setup → ℕ → Option (AppState Setup (MemoryRoomStore P L) Sender)
over_memory opaque_setup room_ttl = elim Memory.new [
  | none ↦ none
  | some store ↦ some (new store opaque_setup room_ttl default_login_ttl default_session_ttl)
]

abbrev pub from_result : {A X : Type 0} → Text ⊎ X → Action A X
from_result (inl message) a = (a, err (opaque message))
from_result (inr x) a = (a, ok x)

-- The capacity that `sender_for` gives a new channel.
abbrev pub channel_capacity : ℕ
channel_capacity = 32

abbrev pub new_session : Clock → Text → ℕ → StoredOpaqueSession
new_session clock room_id session_ttl =
    let created_at_ms = now_unix_ms clock in
    record {
      room_id = room_id;
      created_at_ms = created_at_ms;
      expires_at_ms = saturating_add created_at_ms (ttl_to_millis session_ttl);
    }

-- Whether a session is one of a room.
abbrev pub is_of_room : Text → Option StoredOpaqueSession → Bool
is_of_room room_id none = false
is_of_room room_id (some session) = text_eq session.room_id room_id

module _ (o : Opaque) {S Sender Receiver : Type 0}
    (rooms : RoomStore o.PasswordFile o.ServerLogin S) (broadcast : Broadcast Sender Receiver) where
  abbrev pub State : Type 0
  State = AppState o.ServerSetup S Sender

  -- A call of the store.
  abbrev pub on_store : {X : Type 0} → (S → S × Result X) → Action State X
  on_store call a = let (store, result) = call a.store in (record a { store = store }, result)

  -- `sender_for`: the room's channel, made when it is first asked for.
  unfoldable pub sender_for : Text → State → State × Sender
  sender_for room_id a = elim (lookup room_id a.channels) [
    | some sender ↦ (a, sender)
    | none ↦
        let sender = broadcast.channel channel_capacity in
        (record a { channels = insert room_id sender a.channels }, sender)
  ]

  -- `sender.send(event)` on the shared channel of a room.
  abbrev pub send_event : Text → ClipboardEvent → State → State
  send_event room_id event a =
      let (a', sender) = sender_for room_id a in
      record a' { channels = insert room_id (broadcast.send event sender) a'.channels }

  unfoldable pub create_room : Clock → CreateRoomRequest o → Action State GetRoomResponse
  create_room clock request a =
      (do
        stored ← on_store (λ s.
            rooms.create clock s
              (record {
                auth = record {
                  credential_id = request.auth.credential_id;
                  password_file = o.finish_registration request.auth.registration_upload;
                };
                meta = request.meta;
                envelope = request.envelope;
              })
              a.room_ttl)
        λ a'. (
          (sender_for stored.room_id a').0,
          ok (record { room_id = stored.room_id; meta = stored.meta; envelope = stored.envelope }),
        ))
        a

  unfoldable pub get_room : Clock → Text → Action State (Option GetRoomResponse)
  get_room clock room_id = do
    found ← on_store (λ s. rooms.get clock s room_id)
    elim found [
      | none ↦ return none
      | some room ↦
          return (some (record { room_id = room_id; meta = room.meta; envelope = room.envelope }))
    ]

  unfoldable pub start_registration :
      List ℕ → OpaqueRegistrationStartRequest o → Action State (OpaqueRegistrationStartResponse o)
  start_registration credential_id request a =
      (do
        message ← from_result (o.start_registration a.opaque_setup request.message credential_id)
        return (record { credential_id = credential_id; message = message }))
        a

  -- `start_login`, with the bytes that the protocol and the token draw.
  unfoldable pub start_login :
      Clock
      → Clock
      → List ℕ
      → List ℕ
      → OpaqueLoginStartRequest o
      → Action State (OpaqueLoginStartResponse o)
  start_login get_clock put_clock random token_bytes request a =
      (do
        registration ← on_store (λ s. rooms.get_registration get_clock s request.room_id)
        answer ← from_result (
            o.start_login random a.opaque_setup
              (elim registration [ none ↦ none | some r ↦ some r.password_file ]) request.message
              (elim registration [ none ↦ request.room_id | some r ↦ r.credential_id ]))
        let login_session_id = random_token token_bytes
        done ← on_store (λ s.
            rooms.put_login_state put_clock s login_session_id
              (record { room_id = request.room_id; state = answer.0 }) a.login_ttl)
        return (record { login_session_id = login_session_id; message = answer.1 }))
        a

  -- The end of `finish_login`: the room and its new session.
  unfoldable pub open_session : Clock → List ℕ → Text → Action State (Option (Text × Text))
  open_session clock token_bytes room_id a =
      (do
        let session_id = random_token token_bytes
        done ← on_store (λ s.
            rooms.put_session clock s session_id (new_session clock room_id a.session_ttl)
              a.session_ttl)
        return (some (room_id, session_id)))
        a

  abbrev pub finish_login_of :
      Clock
      → List ℕ
      → o.CredentialFinalization
      → Option (StoredOpaqueLoginState o.ServerLogin)
      → Action State (Option (Text × Text))
  finish_login_of clock token_bytes message none = return none
  finish_login_of clock token_bytes message (some login) =
      if o.finish_login login.state message
      then open_session clock token_bytes login.room_id
      else return none

  unfoldable pub finish_login :
      Clock → Clock → List ℕ → OpaqueLoginFinishRequest o → Action State (Option (Text × Text))
  finish_login take_clock put_clock token_bytes request = do
    found ← on_store (λ s. rooms.take_login_state take_clock s request.login_session_id)
    finish_login_of put_clock token_bytes request.message found

  abbrev pub update_of :
      Text
      → CipherEnvelope
      → Option (StoredRoomRecord o.PasswordFile)
      → Action State (Option UpdateClipboardResponse)
  update_of room_id envelope none a = return none a
  update_of room_id envelope (some room) a = (
    send_event room_id (record { room_id = room_id; envelope = envelope }) a,
    ok (some (record { room_id = room_id; version = room.content_version })),
  )

  unfoldable pub update_room :
      Clock → Text → CipherEnvelope → Action State (Option UpdateClipboardResponse)
  update_room clock room_id envelope a =
      (do
        updated ← on_store (λ s. rooms.update clock s room_id envelope a.room_ttl)
        update_of room_id envelope updated)
        a

  -- `subscribe`: a receiver on the room's channel.
  abbrev pub subscribe_channel : Text → Action State (Option Receiver)
  subscribe_channel room_id a =
      let (a', sender) = sender_for room_id a in
      let (sender', receiver) = broadcast.subscribe sender in
      (record a' { channels = insert room_id sender' a'.channels }, ok (some receiver))

  unfoldable pub subscribe : Clock → Text → Action State (Option Receiver)
  subscribe clock room_id = do
    found ← on_store (λ s. rooms.get clock s room_id)
    elim found [ none ↦ return none | some room ↦ subscribe_channel room_id ]

  abbrev pub is_authorized_by : Clock → Text → Option Text → Action State Bool
  is_authorized_by clock room_id none = return false
  is_authorized_by clock room_id (some token) = do
    session ← on_store (λ s. rooms.get_session clock s token)
    return (is_of_room room_id session)

  unfoldable pub is_authorized : Clock → Option Text → Text → Action State Bool
  is_authorized clock cookies room_id =
      is_authorized_by clock room_id (session_cookie_value cookies (session_cookie_name room_id))
