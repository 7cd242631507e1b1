-- ===== src/Pages/Room.antt =====
-- src/app.rs: `RoomPage`. Its signals are a record; what happens to the page is an event, and a task
-- that waits for the server has an event for its end.
pub mod Invariant
pub mod Sync
use scpy.Prelude.{
  ℕ, Bool, true, false, ◌||◌, not, Option, none, some, List, [], ◌∷◌, ◌++◌, Text, codes, decimal,
  if◌then◌else◌, ◌⊎◌, inl, inr,
}
use scpy.Time.{saturating_add}
use scpy.Opaque.{Opaque}
use scpy.Protocol.{
  OpaqueLoginStartRequest, OpaqueLoginFinishRequest, GetRoomResponse, UpdateClipboardRequest,
  UpdateClipboardResponse, ClipboardEvent,
}
use scpy.Crypto.{
  Primitives, CipherEnvelope, unlock_room_key, decrypt_clipboard, encrypt_clipboard, blank_from,
}
use scpy.Pages.Landing.{ellipsis}
use scpy.Pages.Remote.{
  ◌>>=◌, Remote, OpaqueClient, or_text, login_start_remote, finish_login_remote,
  fetch_room_snapshot,
}

-- The stream is the key that its closure decrypts with.
pub record RoomPage : Type 0 where
  pub password : Text
  pub clipboard : Text
  pub room_key : Option Text
  pub unlocked : Bool
  pub loading : Bool
  pub saving : Bool
  pub version : ℕ
  pub status : Text
  pub stream : Option Text

abbrev pub opened : RoomPage
opened = record {
  password = [];
  clipboard = [];
  room_key = none;
  unlocked = false;
  loading = false;
  saving = false;
  version = 0;
  status = codes "Unlock the clipboard to fetch the encrypted snapshot and begin live updates.";
  stream = none;
}

unfoldable pub close_room_stream : RoomPage → RoomPage
close_room_stream page = record page { stream = none }

-- The page without its key, which the error paths share.
unfoldable pub lock : Text → RoomPage → RoomPage
lock status page = record (close_room_stream page) {
  room_key = none;
  unlocked = false;
  status = status;
}

-- The handler `unlock_room`; its button is disabled while the page is loading.
unfoldable pub unlock_room : RoomPage → RoomPage
unlock_room page =
    if blank_from [] page.password
    then lock (codes "Enter the password to unlock the clipboard.") page
    else record page {
      loading = true;
      status = codes "Authenticating locally and requesting ciphertext" ++ ellipsis;
    }

-- What a login opens: the key, the text and its version.
pub record Unlocked : Type 0 where
  pub key : Text
  pub plaintext : Text
  pub version : ℕ

-- How the connection for live updates comes out.
pub data StreamSetup : Type 0 where
  connected : StreamSetup
  no_connection no_listener : Text → StreamSetup

abbrev or_incorrect : {A : Type 0} → Option A → Text ⊎ A
or_incorrect none = inl (codes "incorrect password or clipboard unavailable.")
or_incorrect (some a) = inr a

module _ {o : Opaque} (p : Primitives) (client : OpaqueClient o) (remote : Remote o) where
  -- The login of the task of `unlock_room`.
  unfoldable pub sign_in : List ℕ → Text → Text → Text ⊎ Unit {0}
  sign_in drawn room_id password = do
    started ← client.start_login drawn password
    let (state, message) = started
    response ← login_start_remote remote (record { room_id = room_id; message = message })
    finalization ← or_incorrect (client.finish_login state password response.message)
    done ←
        finish_login_remote remote
          (record { login_session_id = response.login_session_id; message = finalization })
    inr tt

  unfoldable pub reveal : Text → GetRoomResponse → Text ⊎ Unlocked
  reveal password snapshot = do
    key ← or_text (unlock_room_key p password snapshot.meta)
    plaintext ← or_text (decrypt_clipboard p key snapshot.envelope)
    inr (record { key = key; plaintext = plaintext; version = snapshot.envelope.version })

  -- The task of `unlock_room`, up to its result.
  unfoldable pub unlock_task : List ℕ → Text → Text → Text ⊎ Unlocked
  unlock_task drawn room_id password = do
    done ← sign_in drawn room_id password
    snapshot ← fetch_room_snapshot remote room_id
    reveal password snapshot

unfoldable pub attach_room_stream : StreamSetup → Text → RoomPage → RoomPage
attach_room_stream connected key page = record (close_room_stream page) {
  stream = some key;
  status = page.status ++ codes " SSE connected.";
}
attach_room_stream (no_connection error) key page = record (close_room_stream page) {
  status = codes "Clipboard unlocked, but the live SSE connection failed: " ++ error;
}
attach_room_stream (no_listener error) key page = record (close_room_stream page) {
  status = codes "Clipboard unlocked, but the SSE listener setup failed: " ++ error;
}

-- The end of the task of `unlock_room`.
unfoldable pub unlock_finished : StreamSetup → Text ⊎ Unlocked → RoomPage → RoomPage
unlock_finished setup (inl error) page = record (lock (codes "Unlock failed: " ++ error) page) {
  loading = false;
}
unlock_finished setup (inr opens) page =
    record (attach_room_stream setup opens.key (record page {
      clipboard = opens.plaintext;
      version = opens.version;
      room_key = some opens.key;
      unlocked = true;
      status =
          codes
            "Clipboard unlocked with Argon2id + XChaCha20-Poly1305. Listening for live encrypted updates.";
    })) { loading = false }

-- The handler `save_update`, with the key and the text that its task takes along.
unfoldable pub save_update : RoomPage → RoomPage × Option (Text × Text)
save_update page = elim page.room_key [
  | none ↦ (
    record page { status = codes "Unlock the clipboard before sending an encrypted update." },
    none,
  )
  | some key ↦ (
    record page {
      saving = true;
      status =
          codes "Encrypting the updated clipboard and sending ciphertext to the server" ++ ellipsis;
    },
    some (key, page.clipboard),
  )
]

-- The request of the task of `save_update`, on the page as the task finds it.
unfoldable pub save_request :
    Primitives → Option Text → Text → Text → RoomPage → Text ⊎ UpdateClipboardRequest
save_request p nonce key plaintext page = do
  envelope ← or_text (encrypt_clipboard p nonce key plaintext (saturating_add page.version 1))
  inr (record { envelope = envelope })

-- The end of the task of `save_update`.
unfoldable pub save_finished : Text ⊎ UpdateClipboardResponse → RoomPage → RoomPage
save_finished (inl error) page = record page {
  saving = false;
  status = codes "Update failed: " ++ error;
}
save_finished (inr response) page = record page {
  saving = false;
  version = response.version;
  status = codes "Encrypted update sent at version " ++ decimal response.version ++ codes ".";
}

abbrev pub read_event : Primitives → Text → Text ⊎ ClipboardEvent → Text ⊎ (Text × ℕ)
read_event p key payload = do
  clipboard_event ← payload
  decrypted ← or_text (decrypt_clipboard p key clipboard_event.envelope)
  inr (decrypted, clipboard_event.envelope.version)

abbrev pub received : Text ⊎ (Text × ℕ) → RoomPage → RoomPage
received (inl error) page = record page {
  status = codes "Live update failed to decrypt: " ++ error;
}
received (inr (decrypted, next_version)) page = record page {
  clipboard = decrypted;
  version = next_version;
  status = codes "Live update received at version " ++ decimal next_version ++ codes ".";
}

-- The closure `on_clipboard`: the payload as text, if it is one, read as JSON.
unfoldable pub on_clipboard :
    Primitives → Text → Option (Text ⊎ ClipboardEvent) → RoomPage → RoomPage
on_clipboard p key none page = record page { status = codes "Received a non-text SSE payload." }
on_clipboard p key (some payload) page = received (read_event p key payload) page

unfoldable pub on_error : RoomPage → RoomPage
on_error page = record page {
  status = codes "Live connection dropped. Unlock the clipboard again to resync.";
}

-- What happens to a page. The ends of tasks come with their results.
pub data PageEvent : Type 0 where
  password_typed clipboard_typed : Text → PageEvent
  unlock_clicked save_clicked stream_error : PageEvent
  unlock_ended : StreamSetup → Text ⊎ Unlocked → PageEvent
  save_ended : Text ⊎ UpdateClipboardResponse → PageEvent
  clipboard_received : Option (Text ⊎ ClipboardEvent) → PageEvent

-- One event; a disabled button is not clicked, and a closed stream has no events.
unfoldable pub step : Primitives → RoomPage → PageEvent → RoomPage
step p page (password_typed text) = record page { password = text }
step p page (clipboard_typed text) = record page { clipboard = text }
step p page unlock_clicked = if page.loading then page else unlock_room page
step p page save_clicked = if not page.unlocked || page.saving then page else (save_update page).0
step p page (unlock_ended setup result) = unlock_finished setup result page
step p page (save_ended result) = save_finished result page
step p page (clipboard_received payload) = elim page.stream [
  | none ↦ page
  | some key ↦ on_clipboard p key payload page
]
step p page stream_error = elim page.stream [ none ↦ page | some key ↦ on_error page ]

unfoldable pub run : Primitives → RoomPage → List PageEvent → RoomPage
run p page [] = page
run p page (event ∷ rest) = run p (step p page event) rest
