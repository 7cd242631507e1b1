-- ===== src/Api/Handlers/Events.antt =====
-- src/api.rs: what `update_clipboard` has done when it answers with a version.
use scpy.Prelude.{
  ℕ, ◌≡◌, ◌≢◌, refl, sym, ap, ◌∙◌, ◌⊎◌, true, inl, inr, Option, none, some, Text, ◌==◌, arith,
  Bool-cases, Option-cases,
}
use scpy.HashMap.{HashMap, lookup}
use scpy.HashMap.Laws.{lookup-insert_self}
use scpy.Time.{Clock}
use scpy.Crypto.{CipherEnvelope}
use scpy.Opaque.{Opaque}
use scpy.Protocol.{UpdateClipboardRequest, UpdateClipboardResponse, ClipboardEvent}
use scpy.Store.Types.{StoredRoomRecord, Result, ok, err}
use scpy.Store.Action.{then_do}
use scpy.Store.Trait.{RoomStore, IsLawful}
use scpy.Api.State.{
  Broadcast, AppState, channel_capacity, sender_for, is_authorized, update_of, update_room,
}
use scpy.Api.Handlers.{or_status, or_not_found, write_room, update_clipboard}
use scpy.Api.Handlers.Guards.{has_session, update_clipboard-refuses, authorized-runs}

module _ (o : Opaque) {S Sender Receiver : Type 0}
    (rooms : RoomStore o.PasswordFile o.ServerLogin S) (broadcast : Broadcast Sender Receiver) where
  abbrev Server : Type 0
  Server = AppState o.ServerSetup S Sender

  -- The sender that `sender_for` answers with.
  abbrev pub room_sender : HashMap Sender → Text → Sender
  room_sender channels room_id = elim (lookup room_id channels) [
    | none ↦ broadcast.channel channel_capacity
    | some sender ↦ sender
  ]

  sender_for_lem :
      (room_id : Text) (a : Server)
      → ((sender_for o rooms broadcast room_id a).1 ≡ room_sender a.channels room_id)
        × ((sender_for o rooms broadcast room_id a).0.store ≡ a.store)
  sender_for_lem room_id a = elim (Option-cases (lookup room_id a.channels)) [
    | inl e ↦ (
      unfold sender_for in rw (e, sender_for, room_sender) refl,
      unfold sender_for in rw (e, sender_for) refl,
    )
    | inr (sender, e) ↦ (
      unfold sender_for in rw (e, sender_for, room_sender) refl,
      unfold sender_for in rw (e, sender_for) refl,
    )
  ]

  -- The store has written the envelope, and the room's subscribers have been sent it.
  pub record IsSent (clock : Clock) (room_id : Text) (envelope : CipherEnvelope)
      (before after : Server) (response : UpdateClipboardResponse) : Type 0 where
    pub stored : StoredRoomRecord o.PasswordFile
    pub was_updated :
        rooms.update clock before.store room_id envelope before.room_ttl
        ≡ (after.store, ok (some stored))
    pub answer : (response.room_id ≡ room_id) × (response.version ≡ stored.content_version)
    pub sent :
        lookup room_id after.channels
        ≡ some (
            broadcast.send
              (record { room_id = room_id; envelope = envelope })
              (room_sender before.channels room_id))

  answer_inj :
      {x y : UpdateClipboardResponse} → Path (ℕ ⊎ UpdateClipboardResponse) (inr x) (inr y) → x ≡ y
  answer_inj {x} e =
      ap {B = UpdateClipboardResponse} (λ r. elim r [ inl status ↦ x | inr answer ↦ answer ]) e

  update_of-IsSent :
      (clock : Clock) (room_id : Text) (envelope : CipherEnvelope) (a : Server) (s : S)
      (found : Result (Option (StoredRoomRecord o.PasswordFile)))
      → rooms.update clock a.store room_id envelope a.room_ttl ≡ (s, found)
      → (response : UpdateClipboardResponse)
      → let after =
          or_status
            (then_do (record a { store = s }, found) (update_of o rooms broadcast room_id envelope))
            or_not_found in
        after.1 ≡ inr response → IsSent clock room_id envelope a after.0 response
  update_of-IsSent clock room_id envelope a s (err e) u response h = absurd (cc)
  update_of-IsSent clock room_id envelope a s (ok none) u response h = absurd (cc)
  update_of-IsSent clock room_id envelope a s (ok (some r)) u response h =
      let event : ClipboardEvent = record { room_id = room_id; envelope = envelope } in
      let l = sender_for_lem room_id (record a { store = s }) in
      let same : record { room_id = room_id; version = r.content_version } ≡ response =
        answer_inj h in
      record {
        stored = r;
        was_updated = u ∙ rw l.1 refl;
        answer = (
          ap (λ (x : UpdateClipboardResponse). x.room_id) (sym same),
          ap (λ (x : UpdateClipboardResponse). x.version) (sym same),
        );
        sent =
            lookup-insert_self room_id _ _ ∙ ap (λ sender. some (broadcast.send event sender)) l.0;
      }

  write_room-IsSent :
      (clock : Clock) (room_id : Text) (envelope : CipherEnvelope) (a : Server)
      (response : UpdateClipboardResponse)
      → let after = write_room o rooms broadcast clock room_id envelope a in
        after.1 ≡ inr response → IsSent clock room_id envelope a after.0 response
  unfolding update_room
  write_room-IsSent clock room_id envelope a = update_of-IsSent clock room_id envelope a _ _ refl

  module _ (lawful : IsLawful rooms) where
    -- When `update_clipboard` over a lawful store answers with a version, the request's cookie
    -- names a live session of the room, its version is not 0, the store has written its envelope,
    -- the answer is the stored version, and the envelope is what the room's channel was sent.
    pub update_clipboard-IsSent :
        (session_clock clock : Clock) (cookies : Option Text) (room_id : Text)
        (request : UpdateClipboardRequest) (a : Server) (response : UpdateClipboardResponse)
        → let guarded = (is_authorized o rooms broadcast session_clock cookies room_id a).0 in
          let after =
            update_clipboard o rooms broadcast session_clock clock cookies room_id request a in
          after.1 ≡ inr response
          → (has_session o rooms broadcast lawful a.store session_clock.now cookies room_id ≡ true)
            × (request.envelope.version ≢ 0)
            × IsSent clock room_id request.envelope guarded after.0 response
    update_clipboard-IsSent session_clock clock cookies room_id request a response h =
        let refused =
          update_clipboard-refuses o rooms broadcast lawful session_clock clock cookies room_id
            request a in
        elim (Bool-cases (request.envelope.version == 0)) [
          | inl e ↦ absurd (let r = (refused (inl (ground arith))).0 in cc)
          | inr e ↦
              elim (Bool-cases
                (has_session o rooms broadcast lawful a.store session_clock.now cookies room_id)) [
                  | inl f ↦ (
                    f,
                    ground arith,
                    let guarded =
                          (is_authorized o rooms broadcast session_clock cookies room_id a).0 in
                        let same : update_clipboard o rooms broadcast session_clock clock cookies
                              room_id request a
                            ≡ write_room o rooms broadcast clock room_id request.envelope guarded =
                          unfold update_clipboard in
                          rw (update_clipboard, e)
                            (authorized-runs o rooms broadcast lawful session_clock cookies room_id
                              _ a f) in
                        rw same (
                          write_room-IsSent clock room_id request.envelope guarded response
                            (ap (λ p. p.1) (sym same) ∙ h)),
                  )
                  | inr f ↦ absurd (let r = (refused (inr f)).0 in cc)
                ]
        ]
