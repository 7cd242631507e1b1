-- ===== src/Api/Handlers.antt =====
-- src/api.rs: the handlers. A handler answers with a status or with its response; the state is what
-- it leaves, whichever it answers.
pub mod Guards
pub mod Login
pub mod Events
use scpy.Prelude.{
  ℕ, Bool, true, false, ◌⊎◌, inl, inr, Option, none, some, Text, List, ◌==◌, if◌then◌else◌,
}
use scpy.HashMap.{HashMap}
use scpy.Time.{Clock}
use scpy.Crypto.{CipherEnvelope}
use scpy.Opaque.{Opaque}
use scpy.Protocol.{
  OpaqueRegistrationStartRequest, OpaqueRegistrationStartResponse, OpaqueLoginStartRequest,
  OpaqueLoginStartResponse, OpaqueLoginFinishRequest, OpaqueLoginFinishResponse, CreateRoomRequest,
  CreateRoomResponse, GetRoomResponse, UpdateClipboardRequest, UpdateClipboardResponse,
}
use scpy.Store.Types.{
  StoreError, allocator_exhausted, version_conflict, invalid_room_id, opaque, redis, serialization,
  script_protocol, Result, ok, err,
}
use scpy.Store.Trait.{RoomStore}
use scpy.Api.Cookie.{session_cookie_text}
use scpy.Api.Status
use scpy.Api.State
use scpy.Api.State.{Broadcast}

unfoldable pub store_error_to_status : StoreError → ℕ
store_error_to_status allocator_exhausted = Status.service_unavailable
store_error_to_status (version_conflict current attempted) = Status.conflict
store_error_to_status invalid_room_id = Status.not_found
store_error_to_status (opaque message) = Status.unprocessable_entity
store_error_to_status (redis message) = Status.internal_server_error
store_error_to_status (serialization message) = Status.internal_server_error
store_error_to_status (script_protocol message) = Status.internal_server_error

abbrev pub Handler : Type 0 → Type 0 → Type 0
Handler A X = A → A × (ℕ ⊎ X)

-- `map_err(store_error_to_status)?`, and then the rest of the handler.
abbrev pub or_status : {A X Y : Type 0} → A × Result X → (X → Handler A Y) → A × (ℕ ⊎ Y)
or_status (a, ok x) f = f x a
or_status (a, err e) f = (a, inl (store_error_to_status e))

abbrev pub answer : {A X : Type 0} → X → Handler A X
answer x a = (a, inr x)

abbrev pub refuse : {A X : Type 0} → ℕ → Handler A X
refuse status a = (a, inl status)

abbrev pub or_not_found : {A X : Type 0} → Option X → Handler A X
or_not_found none = refuse Status.not_found
or_not_found (some x) = answer x

-- `HeaderValue::from_str` of the library `http`, as whether it takes the text.
unfoldable pub build_session_cookie : (Text → Bool) → Text → Text → ℕ → ℕ ⊎ Text
build_session_cookie is_header_value room_id session_id ttl =
    let value = session_cookie_text room_id session_id ttl in
    if is_header_value value then inr value else inl Status.internal_server_error

module _ (o : Opaque) {S Sender Receiver : Type 0}
    (rooms : RoomStore o.PasswordFile o.ServerLogin S) (broadcast : Broadcast Sender Receiver) where
  abbrev Server : Type 0
  Server = State.State o rooms broadcast

  unfoldable pub register_start :
      List ℕ → OpaqueRegistrationStartRequest o → Handler Server (OpaqueRegistrationStartResponse o)
  register_start random request a =
      or_status (State.start_registration o rooms broadcast random request a) answer

  unfoldable pub login_start :
      Clock
      → Clock
      → List ℕ
      → List ℕ
      → OpaqueLoginStartRequest o
      → Handler Server (OpaqueLoginStartResponse o)
  login_start get_clock put_clock random token_bytes request a =
      or_status
        (State.start_login o rooms broadcast get_clock put_clock random token_bytes request a)
        answer

  -- The response of a login and its `Set-Cookie` header.
  abbrev with_cookie : ℕ ⊎ Text → Handler Server (OpaqueLoginFinishResponse × Text)
  with_cookie (inl status) = refuse status
  with_cookie (inr cookie) = answer (record { authenticated = true }, cookie)

  unfoldable pub login_finish :
      (Text → Bool)
      → Clock
      → Clock
      → List ℕ
      → OpaqueLoginFinishRequest o
      → Handler Server (OpaqueLoginFinishResponse × Text)
  login_finish is_header_value take_clock put_clock token_bytes request a =
      or_status (State.finish_login o rooms broadcast take_clock put_clock token_bytes request a)
        (λ found. elim found [
          | none ↦ refuse Status.unauthorized
          | some (room_id, session_id) ↦
              with_cookie (build_session_cookie is_header_value room_id session_id a.session_ttl)
        ])

  -- The answer has the status `CREATED`.
  unfoldable pub create_room : Clock → CreateRoomRequest o → Handler Server (ℕ × CreateRoomResponse)
  create_room clock request a =
      if request.envelope.version == 0
      then refuse Status.unprocessable_entity a
      else or_status (State.create_room o rooms broadcast clock request a)
          (λ room. answer (Status.created, record { room_id = room.room_id }))

  -- The guard of the handlers of one room.
  unfoldable pub authorized :
      {X : Type 0} → Clock → Option Text → Text → Handler Server X → Handler Server X
  authorized clock cookies room_id handler a =
      or_status (State.is_authorized o rooms broadcast clock cookies room_id a) (λ is_authorized.
        elim is_authorized [ false ↦ refuse Status.unauthorized | true ↦ handler ])

  -- The rest of `get_room` and of `update_clipboard`, behind the guard.
  abbrev pub open_room : Clock → Text → Handler Server GetRoomResponse
  open_room clock room_id a =
      or_status (State.get_room o rooms broadcast clock room_id a) or_not_found

  abbrev pub write_room : Clock → Text → CipherEnvelope → Handler Server UpdateClipboardResponse
  write_room clock room_id envelope a =
      or_status (State.update_room o rooms broadcast clock room_id envelope a) or_not_found

  unfoldable pub get_room : Clock → Clock → Option Text → Text → Handler Server GetRoomResponse
  get_room session_clock get_clock cookies room_id =
      authorized session_clock cookies room_id (open_room get_clock room_id)

  unfoldable pub update_clipboard :
      Clock
      → Clock
      → Option Text
      → Text
      → UpdateClipboardRequest
      → Handler Server UpdateClipboardResponse
  update_clipboard session_clock update_clock cookies room_id request a =
      if request.envelope.version == 0
      then refuse Status.unprocessable_entity a
      else authorized session_clock cookies room_id
          (write_room update_clock room_id request.envelope) a

  -- `room_events` up to its stream: the receiver that the stream reads.
  unfoldable pub room_events : Clock → Clock → Option Text → Text → Handler Server Receiver
  room_events session_clock get_clock cookies room_id =
      authorized session_clock cookies room_id
        (λ a. or_status (State.subscribe o rooms broadcast get_clock room_id a) or_not_found)
