-- ===== src/Api/Handlers/Guards.antt =====
-- src/api.rs: what the guards of the handlers let through, over any lawful store.
use scpy.Prelude.{
  ℕ, ◌≡◌, refl, ap, ◌∙◌, Bool, true, false, ◌⊎◌, inl, inr, Option, none, some, Text, text_eq, ◌==◌,
  if◌then◌else◌, Bool-cases, Option-cases, arith,
}
use scpy.Time.{Clock}
use scpy.Auth.{StoredOpaqueSession}
use scpy.Opaque.{Opaque}
use scpy.Protocol.{GetRoomResponse, UpdateClipboardRequest}
use scpy.Store.Types.{StoredRoomRecord, ok}
use scpy.Store.Trait.{RoomStore, IsLawful}
use scpy.Api.Cookie.{session_cookie_value, session_cookie_name}
use scpy.Api.Status
use scpy.Api.State
use scpy.Api.State.{Broadcast, AppState, is_authorized, is_authorized_by, is_of_room}
use scpy.Api.Handlers.{Handler, authorized, open_room, get_room, update_clipboard}

module _ (o : Opaque) {S Sender Receiver : Type 0}
    (rooms : RoomStore o.PasswordFile o.ServerLogin S) (broadcast : Broadcast Sender Receiver)
    (lawful : IsLawful rooms) where
  -- Whether a session is there, and is one of a room.
  abbrev opens : Text → Option StoredOpaqueSession → Bool
  opens room_id none = false
  opens room_id (some session) = text_eq session.room_id room_id

  abbrev has_session_by : S → ℕ → Text → Option Text → Bool
  has_session_by s now room_id none = false
  has_session_by s now room_id (some token) = opens room_id (lawful.session_at s now token)

  -- Whether the request's cookie names a session of the room that is live at a time.
  abbrev pub has_session : S → ℕ → Option Text → Text → Bool
  has_session s now cookies room_id =
      has_session_by s now room_id (session_cookie_value cookies (session_cookie_name room_id))

  is_of_room-opens :
      (room_id : Text) (found : Option StoredOpaqueSession)
      → is_of_room room_id found ≡ opens room_id found
  is_of_room-opens room_id none = refl
  is_of_room-opens room_id (some session) = refl

  is_authorized_by_lem :
      (clock : Clock) (room_id : Text) (token : Option Text) (a : AppState o.ServerSetup S Sender)
      → let after = is_authorized_by o rooms broadcast clock room_id token a in
        (after.1 ≡ ok (has_session_by a.store clock.now room_id token))
        × ((now : ℕ) (k : Text) → lawful.room_at after.0.store now k ≡ lawful.room_at a.store now k)
        × (after.0.channels ≡ a.channels)
  is_authorized_by_lem clock room_id none a = (refl, λ now k. refl, refl)
  is_authorized_by_lem clock room_id (some token) a =
      let l = lawful.get_session_lem clock a.store token in
      let opened = is_of_room-opens room_id (lawful.session_at a.store clock.now token) in
      (rw (l.0, opened) refl, λ now k. rw (l.0) (l.2 now k), rw (l.0) refl)

  -- The guard answers whether there is such a session, and leaves every room and every channel as
  -- it is.
  pub is_authorized-has_session :
      (clock : Clock) (cookies : Option Text) (room_id : Text) (a : AppState o.ServerSetup S Sender)
      → let after = is_authorized o rooms broadcast clock cookies room_id a in
        (after.1 ≡ ok (has_session a.store clock.now cookies room_id))
        × ((now : ℕ) (k : Text) → lawful.room_at after.0.store now k ≡ lawful.room_at a.store now k)
        × (after.0.channels ≡ a.channels)
  unfolding is_authorized
  is_authorized-has_session clock cookies room_id a = is_authorized_by_lem clock room_id _ a

  -- Without a session the handler behind the guard does not run.
  pub authorized-refuses :
      {X : Type 0} (clock : Clock) (cookies : Option Text) (room_id : Text)
      (handler : Handler (AppState o.ServerSetup S Sender) X) (a : AppState o.ServerSetup S Sender)
      → has_session a.store clock.now cookies room_id ≡ false
      → let after = authorized o rooms broadcast clock cookies room_id handler a in
        (after.1 ≡ inl Status.unauthorized)
        × ((now : ℕ) (k : Text) → lawful.room_at after.0.store now k ≡ lawful.room_at a.store now k)
        × (after.0.channels ≡ a.channels)
  unfolding authorized
  authorized-refuses clock cookies room_id handler a e =
      let l = is_authorized-has_session clock cookies room_id a in
      (rw (l.0, e) refl, λ now k. rw (l.0, e) (l.1 now k), rw (l.0, e) l.2)

  -- With one it runs on the state that the guard leaves.
  pub authorized-runs :
      {X : Type 0} (clock : Clock) (cookies : Option Text) (room_id : Text)
      (handler : Handler (AppState o.ServerSetup S Sender) X) (a : AppState o.ServerSetup S Sender)
      → has_session a.store clock.now cookies room_id ≡ true
      → authorized o rooms broadcast clock cookies room_id handler a
        ≡ handler (is_authorized o rooms broadcast clock cookies room_id a).0
  unfolding authorized
  authorized-runs clock cookies room_id handler a e =
      rw ((is_authorized-has_session clock cookies room_id a).0, e) refl

  -- What `get_room` answers about a room.
  abbrev pub room_response : Text → Option (StoredRoomRecord o.PasswordFile) → ℕ ⊎ GetRoomResponse
  room_response room_id none = inl Status.not_found
  room_response room_id (some r) =
      inr (record { room_id = room_id; meta = r.meta; envelope = r.envelope })

  open_room_lem :
      (clock : Clock) (room_id : Text) (a : AppState o.ServerSetup S Sender)
      → (open_room o rooms broadcast clock room_id a).1
        ≡ room_response room_id (lawful.room_at a.store clock.now room_id)
  unfolding State.get_room
  open_room_lem clock room_id a = elim (Option-cases (lawful.room_at a.store clock.now room_id)) [
    | inl e ↦ rw ((lawful.get_lem clock a.store room_id).0, e) refl
    | inr (r, e) ↦ rw ((lawful.get_lem clock a.store room_id).0, e) refl
  ]

  -- Over any lawful store the handler `get_room` answers with the room, or 404 if none is live, to
  -- a request whose cookie names a live session of that room, and with 401 to any other.
  pub get_room_lem :
      (session_clock clock : Clock) (cookies : Option Text) (room_id : Text)
      (a : AppState o.ServerSetup S Sender)
      → (get_room o rooms broadcast session_clock clock cookies room_id a).1 ≡ (
          if has_session a.store session_clock.now cookies room_id
          then room_response room_id (lawful.room_at a.store clock.now room_id)
          else inl Status.unauthorized)
  unfolding get_room
  get_room_lem session_clock clock cookies room_id a =
      elim (Bool-cases (has_session a.store session_clock.now cookies room_id)) [
        | inl e ↦ rw e (
            ap (λ (p : AppState o.ServerSetup S Sender × (ℕ ⊎ GetRoomResponse)). p.1)
              (authorized-runs session_clock cookies room_id _ a e)
            ∙ open_room_lem clock room_id _
            ∙ ap (room_response room_id)
                ((is_authorized-has_session session_clock cookies room_id a).1 clock.now room_id))
        | inr e ↦ rw e (authorized-refuses session_clock cookies room_id _ a e).0
      ]

  -- Over any lawful store `update_clipboard` refuses a request whose version is 0 with 422, and any
  -- other whose cookie names no live session of the room with 401; every room reads as before, and
  -- no channel changes.
  pub update_clipboard-refuses :
      (session_clock clock : Clock) (cookies : Option Text) (room_id : Text)
      (request : UpdateClipboardRequest) (a : AppState o.ServerSetup S Sender)
      → (request.envelope.version ≡ 0)
        ⊎ (has_session a.store session_clock.now cookies room_id ≡ false)
      → let after =
          update_clipboard o rooms broadcast session_clock clock cookies room_id request a in
        (after.1 ≡ (
          if request.envelope.version == 0
          then inl Status.unprocessable_entity
          else inl Status.unauthorized))
        × ((now : ℕ) (k : Text) → lawful.room_at after.0.store now k ≡ lawful.room_at a.store now k)
        × (after.0.channels ≡ a.channels)
  unfolding update_clipboard
  update_clipboard-refuses session_clock clock cookies room_id request a h =
      elim (Bool-cases (request.envelope.version == 0)) [
        | inl e ↦ (rw e refl, λ now k. rw e refl, rw e refl)
        | inr e ↦
            let no_session : has_session a.store session_clock.now cookies room_id ≡ false =
              elim h [ inl zero ↦ ground arith | inr none_live ↦ none_live ] in
            let refused = authorized-refuses session_clock cookies room_id _ a no_session in
            (rw e (refused.0), λ now k. rw e (refused.1 now k), rw e (refused.2))
      ]
