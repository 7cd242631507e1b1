-- ===== src/Api/Router/Keepers.antt =====
-- src/api.rs: what the calls of the memory store keep, the handlers keep.
use scpy.Prelude.{ℕ, ◌⊎◌, inl, inr, Bool-cases, Text, List, arith, ◌==◌, Option, Bool}
use scpy.Time.{Clock}
use scpy.Opaque.{Opaque}
use scpy.Auth.{StoredOpaqueLoginState, StoredOpaqueSession}
use scpy.Protocol.{
  OpaqueRegistrationStartRequest, OpaqueLoginStartRequest, OpaqueLoginFinishRequest,
  CreateRoomRequest, UpdateClipboardRequest,
}
use scpy.Store.Types.{StoredRoom}
use scpy.Store.Memory.{
  MemoryRoomStore, create, get, get_registration, update, put_login_state, take_login_state,
  put_session, get_session,
}
use scpy.Store.Memory.Steps.{
  Call, creates, gets, gets_registration, updates, puts_login_state, takes_login_state,
  puts_session, gets_session, step,
}
use scpy.Store.Memory.Others.{MayCall}
use scpy.Store.Memory.Instance.{memory, memory-IsLawful}
use scpy.Api.Cookie.{random_token}
use scpy.Api.State
use scpy.Api.State.{Broadcast, AppState, is_authorized}
use scpy.Api.Handlers.{
  register_start, login_start, login_finish, create_room, get_room, update_clipboard, room_events,
  authorized, build_session_cookie,
}
use scpy.Api.Handlers.Guards.{has_session, is_authorized-has_session}

module _ (o : Opaque) {Sender Receiver : Type 0} (broadcast : Broadcast Sender Receiver)
    (IsTimely : Clock → Type 0) (may_update : Text → Type 0)
    (Keeping : MemoryRoomStore o.PasswordFile o.ServerLogin → Type 0)
    (step-Keeping : (s : MemoryRoomStore o.PasswordFile o.ServerLogin)
        (call : Clock × Call o.PasswordFile o.ServerLogin)
      → IsTimely call.0
      → MayCall may_update call.1
      → Keeping s
      → Keeping (step s call)) where
  abbrev Store : Type 0
  Store = MemoryRoomStore o.PasswordFile o.ServerLogin

  abbrev Server : Type 0
  Server = AppState o.ServerSetup Store Sender

  -- A handler that keeps what the calls keep.
  abbrev IsKeeper : {X : Type 0} → (Server → Server × X) → Type 0
  IsKeeper m = (a : Server) → Keeping a.store → Keeping (m a).0.store

  pub register_start-IsKeeper :
      (random : List ℕ) (request : OpaqueRegistrationStartRequest o)
      → IsKeeper (register_start o memory broadcast random request)
  unfolding register_start State.start_registration
  register_start-IsKeeper random request a h = ground arith

  pub create_room-IsKeeper :
      (clock : Clock) (request : CreateRoomRequest o)
      → IsTimely clock
      → IsKeeper (create_room o memory broadcast clock request)
  unfolding create_room State.create_room State.sender_for step
  create_room-IsKeeper clock request timely a h =
      let made : (room : StoredRoom o.PasswordFile)
          → Keeping (create clock a.store room a.room_ttl).0 =
        λ room. step-Keeping a.store (clock, creates room a.room_ttl) timely tt h in
      grind (arith, made)

  pub is_authorized-IsKeeper :
      (clock : Clock) (cookies : Option Text) (room_id : Text)
      → IsTimely clock
      → IsKeeper (is_authorized o memory broadcast clock cookies room_id)
  unfolding is_authorized step
  is_authorized-IsKeeper clock cookies room_id timely a h =
      let read : (token : Text) → Keeping (get_session clock a.store token).0 =
        λ token. step-Keeping a.store (clock, gets_session token) timely tt h in
      grind (arith, read)

  -- The guard, and what it lets through.
  authorized-IsKeeper :
      {X : Type 0} (clock : Clock) (cookies : Option Text) (room_id : Text)
      (handler : Server → Server × (ℕ ⊎ X))
      → IsTimely clock
      → IsKeeper handler
      → IsKeeper (authorized o memory broadcast clock cookies room_id handler)
  unfolding authorized
  authorized-IsKeeper clock cookies room_id handler timely then_keeps a h =
      let guarded = is_authorized-IsKeeper clock cookies room_id timely a h in
      let answers =
        (is_authorized-has_session o memory broadcast memory-IsLawful clock cookies room_id a).0 in
      elim (Bool-cases
        (has_session o memory broadcast memory-IsLawful a.store clock.now cookies room_id)) [
          | inl e ↦ rw (answers, e) (then_keeps _ guarded)
          | inr e ↦ rw (answers, e) guarded
        ]

  module _ (first second : Clock) (is_first : IsTimely first) (is_second : IsTimely second) where
    pub login_start-IsKeeper :
        (random token_bytes : List ℕ) (request : OpaqueLoginStartRequest o)
        → IsKeeper (login_start o memory broadcast first second random token_bytes request)
    unfolding login_start State.start_login step
    login_start-IsKeeper random token_bytes request a h =
        let read : Keeping (get_registration first a.store request.room_id).0 =
          step-Keeping a.store (first, gets_registration request.room_id) is_first tt h in
        let put : (state : StoredOpaqueLoginState o.ServerLogin)
            → Keeping
                (put_login_state second (get_registration first a.store request.room_id).0
                  (random_token token_bytes) state a.login_ttl).0 =
          λ state. step-Keeping _ (second, puts_login_state _ state _) is_second tt read in
        grind (arith, put)

    pub login_finish-IsKeeper :
        (is_header_value : Text → Bool) (token_bytes : List ℕ)
        (request : OpaqueLoginFinishRequest o)
        → IsKeeper
            (login_finish o memory broadcast is_header_value first second token_bytes request)
    unfolding login_finish State.finish_login State.open_session build_session_cookie step
    login_finish-IsKeeper is_header_value token_bytes request a h =
        let taken : Keeping (take_login_state first a.store request.login_session_id).0 =
          step-Keeping a.store (first, takes_login_state request.login_session_id) is_first tt h in
        let put : (session : StoredOpaqueSession)
            → Keeping
                (put_session second (take_login_state first a.store request.login_session_id).0
                  (random_token token_bytes) session a.session_ttl).0 =
          λ session. step-Keeping _ (second, puts_session _ session _) is_second tt taken in
        grind (arith, put)

    pub get_room-IsKeeper :
        (cookies : Option Text) (room_id : Text)
        → IsKeeper (get_room o memory broadcast first second cookies room_id)
    unfolding get_room State.get_room step
    get_room-IsKeeper cookies room_id = authorized-IsKeeper first cookies room_id _ is_first (λ a h.
        let read : Keeping (get second a.store room_id).0 =
          step-Keeping a.store (second, gets room_id) is_second tt h in
        grind arith)

    pub room_events-IsKeeper :
        (cookies : Option Text) (room_id : Text)
        → IsKeeper (room_events o memory broadcast first second cookies room_id)
    unfolding room_events State.subscribe State.sender_for step
    room_events-IsKeeper cookies room_id =
        authorized-IsKeeper first cookies room_id _ is_first (λ a h.
          let read : Keeping (get second a.store room_id).0 =
            step-Keeping a.store (second, gets room_id) is_second tt h in
          grind arith)

    pub update_clipboard-IsKeeper :
        (cookies : Option Text) (room_id : Text) (request : UpdateClipboardRequest)
        → may_update room_id
        → IsKeeper (update_clipboard o memory broadcast first second cookies room_id request)
    unfolding update_clipboard State.update_room State.sender_for step
    update_clipboard-IsKeeper cookies room_id request may a h =
        elim (Bool-cases (request.envelope.version == 0)) [
          | inl zero ↦ rw zero h
          | inr positive ↦ rw positive (
              authorized-IsKeeper first cookies room_id _ is_first
                (λ b k.
                  let written : Keeping
                      (update second b.store room_id request.envelope b.room_ttl).0 =
                    step-Keeping b.store (second, updates room_id request.envelope b.room_ttl)
                      is_second may k in
                  grind arith)
                a h)
        ]
