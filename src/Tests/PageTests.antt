-- ===== src/Tests/PageTests.antt =====
-- src/app.rs: pages on a room, over ciphers that leave the message as it is.
use scpy.Prelude.{
  ℕ, ◌≡◌, refl, Option, none, some, Text, List, [], ◌∷◌, codes, true, false, ◌⊎◌, inl, inr,
}
use scpy.HashMap.{lookup}
use scpy.Crypto.{CreatedRoom, create_room}
use scpy.Protocol.{GetRoomResponse, UpdateClipboardRequest, ClipboardEvent}
use scpy.Api.State.{is_authorized}
use scpy.Api.Handlers.{update_clipboard}
use scpy.Api.Handlers.Events.{room_sender}
use scpy.Store.Memory.Instance.{memory, memory-IsLawful}
use scpy.Pages.Landing.{interactive}
use scpy.Pages.Remote.{Remote, OpaqueClient, failed, responded, fetch_room_snapshot}
use scpy.Pages.Room.{
  RoomPage, opened, connected, PageEvent, password_typed, unlock_clicked, unlock_ended,
  save_clicked, save_ended, clipboard_received, step, run, save_request, sign_in, unlock_task,
  unlock_finished,
}
use scpy.Pages.Room.Invariant.{IsPage, run-IsPage}
use scpy.Pages.Room.Sync.{Shows, update_clipboard-Shows, unlock_task-create_room}
use scpy.Tests.StoreTests.{at_second, first_room}
use scpy.Tests.ApiTests.{toy, sent, logged_in, cookie_header}
use scpy.Tests.CryptoTests.{
  plain, plain-IsSound, draws, created, salt_fits, nonce_fits, key_fits, note_utf8,
}

-- A page that shows version 1 of the room.
abbrev live : RoomPage
live = record opened {
  password = codes "secret";
  clipboard = codes "note";
  room_key = some created.room_key;
  unlocked = true;
  version = 1;
  stream = some created.room_key;
}

abbrev events : List PageEvent
events =
    password_typed (codes "secret")
    ∷ unlock_clicked
    ∷ unlock_ended connected
        (inr (record { key = created.room_key; plaintext = codes "note"; version = 1 }))
    ∷ clipboard_received none
    ∷ save_clicked
    ∷ save_ended (inr (record { room_id = first_room; version = 2 }))
    ∷ unlock_clicked
    ∷ unlock_ended connected (inl (codes "gone"))
    ∷ []

run-IsPage_example : IsPage (run plain opened events)
run-IsPage_example = run-IsPage plain events

abbrev request : UpdateClipboardRequest
request = record {
  envelope = record {
    version = 2;
    nonce_b64 = created.envelope.nonce_b64;
    ciphertext_b64 = codes "note";
  };
}

requested : save_request plain draws.nonce created.room_key (codes "note") live ≡ inr request
unfolding save_request scpy.Crypto.encrypt_clipboard
requested = refl

answered_second :
    (update_clipboard toy memory sent
      (at_second 1)
      (at_second 2)
      (some cookie_header)
      first_room
      request
      logged_in).1
    ≡ inr (record { room_id = first_room; version = 2 })
unfolding update_clipboard scpy.Api.Handlers.authorized is_authorized
    scpy.Api.Cookie.session_cookie_value scpy.Api.Cookie.find_pair scpy.Api.Cookie.split
    scpy.Api.Cookie.split_pair scpy.Api.Cookie.trim scpy.Api.Cookie.trim_start scpy.Prelude.text_eq
    scpy.Api.Cookie.session_cookie_name scpy.Store.Memory.get_session
    scpy.Store.Memory.get_expiring_value lookup scpy.Api.State.update_room scpy.Store.Memory.update
    scpy.Store.Memory.write scpy.Store.Memory.updated_record
answered_second = refl

update_clipboard-Shows_example :
    let guarded =
      (is_authorized toy memory sent (at_second 1) (some cookie_header) first_room logged_in).0 in
    let after =
      update_clipboard toy memory sent
        (at_second 1)
        (at_second 2)
        (some cookie_header)
        first_room
        request
        logged_in in
    (event : ClipboardEvent) × (lookup first_room after.0.channels
      ≡ some (sent.send event (room_sender toy memory sent guarded.channels first_room)))
    × Shows live (step plain live (clipboard_received (some (inr event)))) (codes "note") 2
update_clipboard-Shows_example =
    update_clipboard-Shows plain plain-IsSound toy memory sent memory-IsLawful (at_second 1)
      (at_second 2) (some cookie_header) draws.nonce first_room created.room_key (codes "note")
      request live live logged_in (record { room_id = first_room; version = 2 }) nonce_fits
      note_utf8 requested refl answered_second

-- The client's half of the protocol in which a password is a number.
abbrev toy_client : OpaqueClient toy
toy_client = record {
  Login = ℕ;
  Registration = ℕ;
  start_login = λ drawn password. inr (0, 7);
  finish_login = λ login password message. some 7;
  start_registration = λ drawn password. inr (0, 7);
  finish_registration = λ drawn registration password message. inr 7;
}

abbrev landed : CreatedRoom
landed = record created { meta = record (created.meta) { kdf = interactive } }

abbrev snapshot : GetRoomResponse
snapshot = record { room_id = first_room; meta = landed.meta; envelope = landed.envelope }

-- A server with the room.
abbrev toy_remote : Remote toy
toy_remote = record {
  post_rooms = λ request. failed (codes "offline");
  post_register_start = λ request. failed (codes "offline");
  post_login_start = λ request.
      responded 200 none (inr (record { login_session_id = codes "login"; message = 7 }));
  post_login_finish = λ request. responded 200 none (inr (record { authenticated = true }));
  get_room = λ room_id. responded 200 none (inr snapshot);
  post_clipboard = λ room_id request. failed (codes "offline");
}

created_interactive :
    create_room plain draws (codes "secret") (codes "note") interactive ≡ inr landed
unfolding create_room scpy.Crypto.ensure_password scpy.Crypto.blank_from scpy.Crypto.is_whitespace
    scpy.Prelude.text_eq scpy.Crypto.wrap_key scpy.Crypto.encrypt_clipboard
created_interactive = refl

signed : sign_in plain toy_client toy_remote [] first_room (codes "secret") ≡ inr tt
unfolding sign_in scpy.Pages.Remote.login_start_remote scpy.Pages.Remote.finish_login_remote
signed = refl

fetched : fetch_room_snapshot toy_remote first_room ≡ inr snapshot
unfolding fetch_room_snapshot
fetched = refl

unlock_task-create_room_example :
    let page =
      unlock_finished connected
        (unlock_task plain toy_client toy_remote [] first_room (codes "secret"))
        opened in
    (page.clipboard ≡ codes "note")
    × (page.version ≡ 1)
    × (page.unlocked ≡ true)
    × (page.room_key ≡ some created.room_key)
    × (page.stream ≡ some created.room_key)
    × (page.loading ≡ false)
unlock_task-create_room_example =
    unlock_task-create_room plain plain-IsSound toy_client toy_remote draws [] first_room
      (codes "secret") (codes "note") landed snapshot opened salt_fits nonce_fits key_fits
      nonce_fits note_utf8 created_interactive signed fetched refl refl
