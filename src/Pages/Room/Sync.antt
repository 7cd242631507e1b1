-- ===== src/Pages/Room/Sync.antt =====
-- Two pages on one room: what one creates or saves the other shows.
use scpy.Prelude.{ℕ, ◌≡◌, refl, ap, true, false, Option, none, some, List, Text, ◌⊎◌, inl, inr}
use scpy.HashMap.{lookup}
use scpy.Time.{Clock, saturating_add}
use scpy.Opaque.{Opaque}
use scpy.Protocol.{GetRoomResponse, UpdateClipboardRequest, UpdateClipboardResponse, ClipboardEvent}
use scpy.Crypto.{
  CryptoError, Primitives, Draws, CipherEnvelope, CreatedRoom, create_room, decrypt_clipboard,
  is_utf8, nonce_len, salt_len, room_key_len,
}
use scpy.Crypto.RoundTrip.{
  IsSound, HasLength, decrypt-encrypt_clipboard, unlock_room_key-create_room,
}
use scpy.Store.Trait.{RoomStore, IsLawful}
use scpy.Api.State.{Broadcast, AppState, is_authorized}
use scpy.Api.Handlers.{update_clipboard}
use scpy.Api.Handlers.Events.{room_sender, update_clipboard-IsSent}
use scpy.Pages.Landing.{interactive}
use scpy.Pages.Remote.{◌>>=◌, Remote, OpaqueClient, or_text, fetch_room_snapshot}
use scpy.Pages.Room.{
  RoomPage, sign_in, reveal, unlock_task, save_request, on_clipboard, received, clipboard_received,
  step, unlock_finished, attach_room_stream, close_room_stream, connected,
}

inr_inj : {A : Type 0} {x y : A} → Path (Text ⊎ A) (inr x) (inr y) → x ≡ y
inr_inj {A} {x} e = ap {B = A} (λ r. elim r [ inl error ↦ x | inr a ↦ a ]) e

-- A request carries what the encryption gave.
save_request_inv :
    (encrypted : CryptoError ⊎ CipherEnvelope) (request : UpdateClipboardRequest)
    → (or_text encrypted >>= λ envelope. inr (record { envelope = envelope })) ≡ inr request
    → encrypted ≡ inr request.envelope
save_request_inv (inl error) request h = absurd (cc)
save_request_inv (inr envelope) request h =
    ap (λ (r : UpdateClipboardRequest). inr r.envelope) (inr_inj h)

-- The page shows the text, at the version, and is otherwise as it was.
pub record Shows (before after : RoomPage) (text : Text) (version : ℕ) : Type 0 where
  pub clipboard : after.clipboard ≡ text
  pub version_lem : after.version ≡ version
  pub room_key : after.room_key ≡ before.room_key
  pub unlocked : after.unlocked ≡ before.unlocked
  pub stream : after.stream ≡ before.stream

module _ (p : Primitives) (sound : IsSound p) where
  received-Shows :
      (page : RoomPage) (room_id key text : Text) (envelope : CipherEnvelope) (version : ℕ)
      → page.stream ≡ some key
      → decrypt_clipboard p key envelope ≡ inr text
      → envelope.version ≡ version
      → Shows page
          (step p page
            (clipboard_received (some (inr (record { room_id = room_id; envelope = envelope })))))
          text
          version
  unfolding step on_clipboard
  received-Shows page room_id key text envelope version open_stream read v =
      let shown : step p page
            (clipboard_received (some (inr (record { room_id = room_id; envelope = envelope }))))
          ≡ received (inr (text, envelope.version)) page =
        received_eq page.stream open_stream in
      rw shown (record {
        clipboard = refl;
        version_lem = v;
        room_key = refl;
        unlocked = refl;
        stream = refl;
      })
    where
      received_eq :
          (stream : Option Text)
          → stream ≡ some key
          → (elim stream [
            | none ↦ page
            | some k ↦
                on_clipboard p k
                  (some (inr (record { room_id = room_id; envelope = envelope })))
                  page
          ])
            ≡ received (inr (text, envelope.version)) page
      received_eq stream e = rw (e, read) refl

  module _ (o : Opaque) {S Sender Receiver : Type 0}
      (rooms : RoomStore o.PasswordFile o.ServerLogin S) (broadcast : Broadcast Sender Receiver)
      (lawful : IsLawful rooms) where
    -- With ciphers and an encoding that are undone by their inverses, and a nonce drawn at its
    -- length, when a page's save of UTF-8 text is answered with a version by `update_clipboard`
    -- over a lawful store, the room's channel has been sent an event that makes any page with an
    -- open stream of the same key show that text, at the version after the sender's, with its key,
    -- lock and stream as before.
    pub update_clipboard-Shows :
        (session_clock clock : Clock) (cookies nonce : Option Text) (room_id key text : Text)
        (request : UpdateClipboardRequest) (sender receiver : RoomPage)
        (a : AppState o.ServerSetup S Sender) (response : UpdateClipboardResponse)
        → HasLength nonce_len nonce
        → is_utf8 text ≡ true
        → save_request p nonce key text sender ≡ inr request
        → receiver.stream ≡ some key
        → let guarded = (is_authorized o rooms broadcast session_clock cookies room_id a).0 in
          let after =
            update_clipboard o rooms broadcast session_clock clock cookies room_id request a in
          after.1 ≡ inr response
          → (event : ClipboardEvent) × (lookup room_id after.0.channels
              ≡ some
                  (broadcast.send event (room_sender o rooms broadcast guarded.channels room_id)))
            × Shows receiver
                (step p receiver (clipboard_received (some (inr event))))
                text
                (saturating_add sender.version 1)
    unfolding save_request
    update_clipboard-Shows session_clock clock cookies nonce room_id key text request sender
          receiver a response fits utf8 h open_stream answered =
        let encrypted = save_request_inv _ request h in
        let (read, v) =
          decrypt-encrypt_clipboard p sound nonce key text (saturating_add sender.version 1)
            request.envelope fits utf8 encrypted in
        let (has, positive, sent) =
          update_clipboard-IsSent o rooms broadcast lawful session_clock clock cookies room_id
            request a response answered in
        (
          record { room_id = room_id; envelope = request.envelope },
          sent.sent,
          received-Shows receiver room_id key text request.envelope
              (saturating_add sender.version 1) open_stream read v,
        )

  module _ {o : Opaque} (client : OpaqueClient o) (remote : Remote o) where
    -- With ciphers and an encoding that are undone by their inverses, and arrays drawn at their
    -- lengths, a page that signs in with the password of a room that `create_room` made, is given
    -- that room's metadata and envelope, and connects, shows the room's UTF-8 text at version 1, is
    -- unlocked with the room's key, has a stream of that key and is no longer loading.
    pub unlock_task-create_room :
        (draws : Draws) (drawn : List ℕ) (room_id password text : Text) (created : CreatedRoom)
        (snapshot : GetRoomResponse) (page : RoomPage)
        → HasLength salt_len draws.salt
        → HasLength nonce_len draws.wrap_nonce
        → HasLength room_key_len draws.room_key
        → HasLength nonce_len draws.nonce
        → is_utf8 text ≡ true
        → create_room p draws password text interactive ≡ inr created
        → sign_in p client remote drawn room_id password ≡ inr tt
        → fetch_room_snapshot remote room_id ≡ inr snapshot
        → snapshot.meta ≡ created.meta
        → snapshot.envelope ≡ created.envelope
        → let page' =
            unlock_finished connected (unlock_task p client remote drawn room_id password) page in
          (page'.clipboard ≡ text)
          × (page'.version ≡ 1)
          × (page'.unlocked ≡ true)
          × (page'.room_key ≡ some created.room_key)
          × (page'.stream ≡ some created.room_key)
          × (page'.loading ≡ false)
    unfolding unlock_task reveal unlock_finished attach_room_stream close_room_stream
    unlock_task-create_room draws drawn room_id password text created snapshot page s w k n utf8 c
          signed fetched same_meta same_envelope =
        let (unlocks, reads, first) =
          unlock_room_key-create_room p sound draws password text interactive created s w k n utf8
            c in
        rw (signed, fetched, same_meta, unlocks, same_envelope, reads, first)
          (refl, refl, refl, refl, refl, refl)
