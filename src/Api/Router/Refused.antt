-- ===== src/Api/Router/Refused.antt =====
-- src/api.rs: which requests the guards of the API refuse, and with which status.
use scpy.Prelude.{
  ℕ, ◌≡◌, refl, sym, ◌∙◌, true, false, ◌⊎◌, inl, inr, Option, none, some, some_inj, Bool, Text,
  if◌then◌else◌, ◌==◌,
}
use scpy.Opaque.{Opaque}
use scpy.Store.Trait.{RoomStore, IsLawful}
use scpy.Api.Status
use scpy.Api.State.{Broadcast, AppState}
use scpy.Api.Handlers.{get_room, update_clipboard, room_events}
use scpy.Api.Handlers.Guards.{has_session, authorized-refuses, update_clipboard-refuses}
use scpy.Api.Router.{
  Request, get_healthz, get_architecture, post_register_start, post_login_start, post_login_finish,
  post_rooms, get_rooms, post_clipboard, get_events, Arrival, respond_as, respond,
}

-- The room that a request reads or writes.
abbrev pub room_of : {o : Opaque} → Request o → Option Text
room_of (get_rooms room_id) = some room_id
room_of (post_clipboard room_id request) = some room_id
room_of (get_events room_id) = some room_id
room_of _ = none

-- The status of a request of a room that is refused.
abbrev pub refusal : {o : Opaque} → Request o → ℕ
refusal (post_clipboard room_id request) =
    if request.envelope.version == 0 then Status.unprocessable_entity else Status.unauthorized
refusal _ = Status.unauthorized

choice :
    {X : Type 0} (b : Bool) (s s' : ℕ)
    → let chosen : ℕ ⊎ X = if b then inl s else inl s' in chosen ≡ inl (if b then s else s')
choice true s s' = refl
choice false s s' = refl

module _ (o : Opaque) {S Sender Receiver : Type 0}
    (rooms : RoomStore o.PasswordFile o.ServerLogin S) (broadcast : Broadcast Sender Receiver)
    (lawful : IsLawful rooms) where
  abbrev Server : Type 0
  Server = AppState o.ServerSetup S Sender

  -- The answer is a status, and every room and every channel is as before.
  abbrev pub IsRefused : {X : Type 0} → Server → ℕ → Server × (ℕ ⊎ X) → Type 0
  IsRefused a status after =
      (after.1 ≡ inl status)
      × ((now : ℕ) (k : Text) → lawful.room_at after.0.store now k ≡ lawful.room_at a.store now k)
      × (after.0.channels ≡ a.channels)

  respond_as-IsRefused :
      {X Y : Type 0} (f : X → Y) (a : Server) (status : ℕ) (p : Server × (ℕ ⊎ X))
      → IsRefused a status p
      → IsRefused a status (respond_as f p)
  respond_as-IsRefused f a status (after, inl s) (h, same, sent) = (cc, same, sent)
  respond_as-IsRefused f a status (after, inr x) (h, same, sent) = absurd (cc)

  -- Over any lawful store a request that reads, writes or follows a room, and whose cookies name no
  -- live session of that room, is refused with 401, or with 422 if it is a write with version 0;
  -- every room reads as before, and no channel changes.
  pub respond-refuses :
      (is_header_value : Text → Bool) (request : Request o) (t : Arrival) (k : Text) (a : Server)
      → room_of request ≡ some k
      → has_session o rooms broadcast lawful a.store t.first.now t.cookies k ≡ false
      → IsRefused a (refusal request) (respond o rooms broadcast is_header_value request t a)
  unfolding respond get_room room_events
  respond-refuses is_header_value (get_rooms room_id) t k a e no_session =
      let same : k ≡ room_id = sym (some_inj e) in
      respond_as-IsRefused _ a _ (get_room o rooms broadcast t.first t.second t.cookies room_id a) (
        authorized-refuses o rooms broadcast lawful t.first t.cookies room_id _ a
          (rw same at no_session))
  respond-refuses is_header_value (get_events room_id) t k a e no_session =
      let same : k ≡ room_id = sym (some_inj e) in
      respond_as-IsRefused _ a _
        (room_events o rooms broadcast t.first t.second t.cookies room_id a)
        (authorized-refuses o rooms broadcast lawful t.first t.cookies room_id _ a
          (rw same at no_session))
  respond-refuses is_header_value (post_clipboard room_id request) t k a e no_session =
      let same : k ≡ room_id = sym (some_inj e) in
      let (status, kept, sent) =
        update_clipboard-refuses o rooms broadcast lawful t.first t.second t.cookies room_id request
          a (inr (rw same at no_session)) in
      respond_as-IsRefused _ a _
        (update_clipboard o rooms broadcast t.first t.second t.cookies room_id request a)
        (status ∙ choice (request.envelope.version == 0) _ _, kept, sent)
  respond-refuses is_header_value get_healthz t k a e no_session = absurd (cc)
  respond-refuses is_header_value get_architecture t k a e no_session = absurd (cc)
  respond-refuses is_header_value (post_register_start request) t k a e no_session = absurd (cc)
  respond-refuses is_header_value (post_login_start request) t k a e no_session = absurd (cc)
  respond-refuses is_header_value (post_login_finish request) t k a e no_session = absurd (cc)
  respond-refuses is_header_value (post_rooms request) t k a e no_session = absurd (cc)
