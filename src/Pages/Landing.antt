-- ===== src/Pages/Landing.antt =====
-- src/app.rs: `LandingPage`, which creates a room and goes to its page.
use scpy.Prelude.{
  ℕ, Bool, true, false, Option, some, List, [], ◌∷◌, ◌++◌, Text, codes, if◌then◌else◌, ◌⊎◌, inl,
  inr,
}
use scpy.Opaque.{Opaque}
use scpy.Protocol.{CreateRoomResponse}
use scpy.Crypto.{Primitives, Draws, KdfParams, CreatedRoom, create_room, blank_from}
use scpy.Pages.Remote.{
  ◌>>=◌, Remote, OpaqueClient, or_text, create_remote_room, register_start_remote,
}

-- `KdfParams::interactive`.
abbrev pub interactive : KdfParams
interactive = record { memory_cost_kib = 19_456; time_cost = 2; parallelism = 1 }

-- The UTF-8 of the ellipsis.
abbrev pub ellipsis : Text
ellipsis = 226 ∷ 128 ∷ 166 ∷ []

-- The signals of the page, and where it has navigated.
pub record LandingPage : Type 0 where
  pub create_password : Text
  pub create_clipboard : Text
  pub create_pending : Bool
  pub create_status : Text
  pub location : Option Text

abbrev pub room_href : Text → Text
room_href room_id = codes "/c/" ++ room_id

-- The handler `create_room`, and whether it goes on to its task.
unfoldable pub create_click : LandingPage → LandingPage × Bool
create_click page =
    if blank_from [] page.create_password
    then (
      record page { create_status = codes "Enter a password before creating a clipboard." },
      false,
    )
    else (
      record page {
        create_pending = true;
        create_status =
            codes "Encrypting locally, registering password auth, and uploading ciphertext"
            ++ ellipsis;
      },
      true,
    )

module _ {o : Opaque} (p : Primitives) (client : OpaqueClient o) (remote : Remote o) where
  -- The registration of the password, once the room is encrypted.
  unfoldable pub register_room : List ℕ → List ℕ → Text → CreatedRoom → Text ⊎ CreateRoomResponse
  register_room start_draw finish_draw password created = do
    started ← client.start_registration start_draw password
    let (state, message) = started
    response ← register_start_remote remote (record { message = message })
    upload ← client.finish_registration finish_draw state password response.message
    create_remote_room remote (record {
      auth = record { credential_id = response.credential_id; registration_upload = upload };
      meta = created.meta;
      envelope = created.envelope;
    })

  -- The task of `create_room`, up to its result.
  unfoldable pub create_task : Draws → List ℕ → List ℕ → Text → Text → Text ⊎ CreateRoomResponse
  create_task draws start_draw finish_draw password clipboard = do
    created ← or_text (create_room p draws password clipboard interactive)
    register_room start_draw finish_draw password created

-- The end of the task.
unfoldable pub create_finished : Text ⊎ CreateRoomResponse → LandingPage → LandingPage
create_finished (inl error) page = record page {
  create_pending = false;
  create_status = codes "Clipboard creation failed: " ++ error;
}
create_finished (inr response) page = record page {
  create_pending = false;
  create_status = codes "Clipboard created. Opening it now" ++ ellipsis;
  location = some (room_href response.room_id);
}
