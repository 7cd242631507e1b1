-- ===== src/Tests/RouterTests.antt =====
-- src/api.rs: requests to a server over the memory store, from its start on.
use scpy.Prelude.{
  ℕ, ◌≤◌, ◌*◌, ◌≡◌, refl, ap, arith, Bool, true, false, Option, none, some, Text, List, [], ◌∷◌,
  inr,
}
use scpy.HashMap.{lookup}
use scpy.Store.Types.{Result, ok, new_record}
use scpy.Protocol.{CreateRoomRequest, CreateRoomResponse, GetRoomResponse, ClipboardEvent}
use scpy.Api.Status
use scpy.Store.Memory.{admit, create}
use scpy.Store.Memory.Instance.{memory, memory-IsLawful}
use scpy.Store.Memory.Values.{room_at}
use scpy.Api.State
use scpy.Api.State.{over_memory, default_login_ttl, default_session_ttl, sender_for}
use scpy.Api.Handlers.{create_room, or_status, answer}
use scpy.Api.Handlers.Guards.{has_session}
use scpy.Api.Cookie.{session_cookie_value}
use scpy.Api.Router.{
  Request, post_rooms, post_clipboard, of_rooms, Response, Arrival, respond_as, respond, serve,
}
use scpy.Api.Router.Refused.{IsRefused, refusal, respond-refuses}
use scpy.Api.Router.Guarded.{respond-serve}
use scpy.Tests.AllocTests.{allocate_full}
use scpy.Tests.StoreTests.{
  second, at_second, envelope, room_meta, room, fresh, fresh_lem, first_room, first_entry, one_room,
}
use scpy.Tests.ApiTests.{toy, sent, Server}

abbrev any_value : Text → Bool
any_value value = true

abbrev start : Server
start = record {
  store = fresh;
  channels = [];
  opaque_setup = 0;
  room_ttl = 60 * second;
  login_ttl = default_login_ttl;
  session_ttl = default_session_ttl;
}

starts : over_memory 0 (60 * second) ≡ some start
unfolding over_memory State.new
starts = rw (over_memory, fresh_lem) refl

abbrev arrival : ℕ → Arrival
arrival n = record {
  cookies = none;
  first = at_second n;
  second = at_second n;
  random = [];
  token_bytes = [];
}

abbrev create_first : CreateRoomRequest toy
create_first = record {
  meta = room_meta;
  envelope = envelope 1;
  auth = record { credential_id = 1 ∷ 2 ∷ []; registration_upload = 7 };
}

abbrev requests : List (Request toy × Arrival)
requests = (post_rooms create_first, arrival 0) ∷ []

abbrev served : Server
served = record start { store = one_room; channels = (first_room, []) ∷ [] }

created : create (at_second 0) fresh room (60 * second) ≡ (one_room, ok first_entry.room_record)
unfolding create admit new_record scpy.Time.expires_after scpy.Time.now_unix_ms
    scpy.Time.ttl_to_millis scpy.HashMap.insert
created = ap (admit (at_second 0) fresh room (60 * second)) allocate_full

created_room :
    State.create_room toy memory sent (at_second 0) create_first start
    ≡ (served, ok (record { room_id = first_room; meta = room_meta; envelope = envelope 1 }))
unfolding State.create_room sender_for scpy.HashMap.insert lookup
created_room = rw created refl

abbrev response : GetRoomResponse → ℕ × CreateRoomResponse
response stored = (Status.created, record { room_id = stored.room_id })

serve-requests : serve toy memory sent any_value requests start ≡ served
unfolding serve respond create_room
serve-requests =
    ap
      (λ (out : Server × Result GetRoomResponse).
        (respond_as {Y = Response toy (List ClipboardEvent)} of_rooms
          (or_status {Y = ℕ × CreateRoomResponse} out (λ stored. answer (response stored)))).0)
      created_room

found_first :
    room_at (serve toy memory sent any_value requests start).store (30 * second) first_room
    ≡ some first_entry.room_record
unfolding lookup scpy.Prelude.text_eq
found_first = rw serve-requests refl

no_session :
    has_session toy memory sent memory-IsLawful
      (serve toy memory sent any_value requests start).store
      (2 * second)
      none
      first_room
    ≡ false
unfolding session_cookie_value
no_session = refl

abbrev write_second : Request toy
write_second = post_clipboard first_room (record { envelope = envelope 2 })

in_time : 2 * second ≤ 30 * second
in_time = omega arith

respond-serve_example :
    let a = serve toy memory sent any_value requests start in
    room_at
      (respond toy memory sent any_value write_second (arrival 2) a).0.store
      (30 * second)
      first_room
    ≡ some first_entry.room_record
respond-serve_example =
    respond-serve toy sent any_value 0 (60 * second) start starts requests write_second (arrival 2)
      first_room no_session (30 * second) in_time in_time first_entry.room_record found_first

respond-refuses_example :
    let a = serve toy memory sent any_value requests start in
    IsRefused toy memory sent memory-IsLawful a
      (refusal write_second)
      (respond toy memory sent any_value write_second (arrival 2) a)
respond-refuses_example =
    respond-refuses toy memory sent memory-IsLawful any_value write_second (arrival 2) first_room
      (serve toy memory sent any_value requests start) refl no_session
