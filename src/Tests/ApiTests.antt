-- ===== src/Tests/ApiTests.antt =====
-- src/api.rs: a server over the memory store, with a protocol in which a password is a number and a
-- channel that is the list of what was sent.
use scpy.Prelude.{
  ℕ, ◌≡◌, ◌≢◌, ◌<◌, ◌*◌, ◌⊎◌, refl, arith, Option, none, some, Text, List, [], ◌∷◌, ◌++◌, codes,
  Bool, true, false, ◌==◌, inl, inr, if◌then◌else◌,
}
use scpy.HashMap.{HashMap, lookup}
use scpy.Time.{expires_after}
use scpy.Opaque.{Opaque}
use scpy.Protocol.{UpdateClipboardRequest, ClipboardEvent, OpaqueLoginFinishRequest}
use scpy.Store.Types.{ok}
use scpy.Store.Memory.Instance.{memory, memory-IsLawful}
use scpy.Api.Cookie.{session_cookie_value, session_cookie_name, equals}
use scpy.Api.Cookie.RoundTrip.{AreCookies, more_cookies}
use scpy.Api.Status
use scpy.Api.State.{Broadcast, AppState, finish_login, is_authorized}
use scpy.Api.Handlers.{authorized, open_room, get_room, update_clipboard}
use scpy.Api.Handlers.Guards.{has_session, room_response, get_room_lem}
use scpy.Api.Handlers.Login.{authorized-finish_login}
use scpy.Api.Handlers.Events.{IsSent, update_clipboard-IsSent}
use scpy.Tests.StoreTests.{
  Store, second, at_second, envelope, first_room, one_room, logging_in, login_key,
}

abbrev pub toy : Opaque
toy = record {
  ServerSetup = ℕ;
  PasswordFile = ℕ;
  ServerLogin = ℕ;
  RegistrationRequest = ℕ;
  RegistrationResponse = ℕ;
  RegistrationUpload = ℕ;
  CredentialRequest = ℕ;
  CredentialResponse = ℕ;
  CredentialFinalization = ℕ;
  start_registration = λ setup request credential_id. inr request;
  finish_registration = λ upload. upload;
  start_login = λ random setup file request credential_id. inr (request, request);
  finish_login = λ login message. login == message;
}

abbrev pub sent : Broadcast (List ClipboardEvent) (List ClipboardEvent)
sent = record {
  channel = λ capacity. [];
  send = λ event events. event ∷ events;
  subscribe = λ events. (events, events);
}

abbrev pub Server : Type 0
Server = AppState ℕ Store (List ClipboardEvent)

abbrev server : Store → Server
server store = record {
  store = store;
  channels = [];
  opaque_setup = 0;
  room_ttl = 60 * second;
  login_ttl = 60 * second;
  session_ttl = 60 * second;
}

abbrev token : Text
token = codes "ab"

-- A server with a session of its room.
abbrev pub logged_in : Server
logged_in = server (record one_room {
  sessions =
      (
        token,
        record {
          value = record {
            room_id = first_room;
            created_at_ms = 1_700_000_000_000;
            expires_at_ms = 1_700_000_060_000;
          };
          expires_at = 60 * second;
        },
      )
      ∷ [];
})

abbrev other_cookies : HashMap Text
other_cookies = (codes "x", codes "y") ∷ []

abbrev pub cookie_header : Text
cookie_header = codes "scpy_session_Cxm" ++ (equals ∷ token ++ more_cookies other_cookies)

cookies_lem : AreCookies ((codes "scpy_session_Cxm", token) ∷ other_cookies)
cookies_lem = (
  (
    refl,
    (
      refl,
      (
        refl,
        (
          refl,
          (
            refl,
            (
              refl,
              (refl, (refl, (refl, (refl, (refl, (refl, (refl, (refl, (refl, (refl, tt)))))))))),
            ),
          ),
        ),
      ),
    ),
  ),
  (refl, (refl, tt)),
  ((refl, tt), (refl, tt), tt),
)

abbrev login : OpaqueLoginFinishRequest toy
login = record { login_session_id = login_key; message = 9 }

finish_first :
    (finish_login toy memory sent
      (at_second 1)
      (at_second 1)
      (171 ∷ [])
      login
      (server logging_in)).1
    ≡ ok (some (first_room, token))
unfolding finish_login scpy.Store.Memory.take_login_state lookup scpy.Prelude.text_eq
    scpy.Api.State.open_session scpy.Store.Memory.put_session scpy.Api.Cookie.random_token
finish_first = refl

abbrev write_second : UpdateClipboardRequest
write_second = record { envelope = envelope 2 }

update_first :
    (update_clipboard toy memory sent
      (at_second 1)
      (at_second 2)
      (some cookie_header)
      first_room
      write_second
      logged_in).1
    ≡ inr (record { room_id = first_room; version = 2 })
unfolding update_clipboard scpy.Api.Handlers.authorized is_authorized session_cookie_value
    scpy.Api.Cookie.find_pair scpy.Api.Cookie.split scpy.Api.Cookie.split_pair scpy.Api.Cookie.trim
    scpy.Api.Cookie.trim_start scpy.Prelude.text_eq session_cookie_name
    scpy.Store.Memory.get_session scpy.Store.Memory.get_expiring_value lookup
    scpy.Api.State.update_room scpy.Store.Memory.update scpy.Store.Memory.write
    scpy.Store.Memory.updated_record
update_first = refl

found_cookie :
    lookup (session_cookie_name first_room) ((codes "scpy_session_Cxm", token) ∷ other_cookies)
    ≡ some token
unfolding lookup scpy.Prelude.text_eq session_cookie_name
found_cookie = refl

in_time : 2 * second < expires_after (at_second 1) (60 * second)
unfolding expires_after
in_time = omega arith

authorized-finish_login_example :
    let login =
      finish_login toy memory sent
        (at_second 1)
        (at_second 1)
        (171 ∷ [])
        login
        (server logging_in) in
    let header = some cookie_header in
    let guard = is_authorized toy memory sent (at_second 2) header first_room login.0 in
    (guard.1 ≡ ok true)
    × (authorized toy memory sent
          (at_second 2)
          header
          first_room
          (open_room toy memory sent (at_second 2) first_room)
          login.0
        ≡ open_room toy memory sent (at_second 2) first_room guard.0)
    × ((now : ℕ) (k : Text)
        → memory-IsLawful.room_at guard.0.store now k ≡ memory-IsLawful.room_at login.0.store now k)
authorized-finish_login_example =
    authorized-finish_login toy memory sent memory-IsLawful (at_second 1) (at_second 1) (171 ∷ [])
      login first_room token (server logging_in) finish_first (at_second 2) in_time
      (codes "scpy_session_Cxm") token other_cookies cookies_lem found_cookie
      (open_room toy memory sent (at_second 2) first_room)

get_room_lem_example :
    (get_room toy memory sent
      (at_second 1)
      (at_second 2)
      (some cookie_header)
      first_room
      logged_in).1
    ≡ (if has_session toy memory sent memory-IsLawful logged_in.store
          (1 * second)
          (some cookie_header)
          first_room
        then room_response toy memory sent memory-IsLawful first_room
            (memory-IsLawful.room_at logged_in.store (2 * second) first_room)
        else inl Status.unauthorized)
get_room_lem_example =
    get_room_lem toy memory sent memory-IsLawful (at_second 1) (at_second 2) (some cookie_header)
      first_room logged_in

update_clipboard-IsSent_example :
    let guarded =
      (is_authorized toy memory sent (at_second 1) (some cookie_header) first_room logged_in).0 in
    let after =
      update_clipboard toy memory sent
        (at_second 1)
        (at_second 2)
        (some cookie_header)
        first_room
        write_second
        logged_in in
    (has_session toy memory sent memory-IsLawful logged_in.store
        (1 * second)
        (some cookie_header)
        first_room
      ≡ true)
    × ((envelope 2).version ≢ 0)
    × IsSent toy memory sent
        (at_second 2)
        first_room
        (envelope 2)
        guarded
        after.0
        (record { room_id = first_room; version = 2 })
update_clipboard-IsSent_example =
    update_clipboard-IsSent toy memory sent memory-IsLawful (at_second 1) (at_second 2)
      (some cookie_header) first_room write_second logged_in
      (record { room_id = first_room; version = 2 }) update_first
