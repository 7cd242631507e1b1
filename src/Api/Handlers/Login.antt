-- ===== src/Api/Handlers/Login.antt =====
-- src/api.rs: from `finish_login` to the guard: the cookie of a login opens its room.
use scpy.Prelude.{
  ℕ, ◌<◌, ◌≡◌, refl, sym, ap, subst, ◌∙◌, Bool, true, false, Option, none, some, List, Text,
  text_eq_refl, ◌++◌, ◌∷◌, arith, ltb, if◌then◌else◌,
}
use scpy.HashMap.{HashMap, lookup}
use scpy.Time.{Clock, expires_after}
use scpy.Auth.{StoredOpaqueLoginState, StoredOpaqueSession}
use scpy.Opaque.{Opaque}
use scpy.Protocol.{OpaqueLoginFinishRequest}
use scpy.Store.Types.{Result, ok, err, ok_some}
use scpy.Store.Action.{then_do, return}
use scpy.Store.Trait.{RoomStore, IsLawful}
use scpy.Api.Cookie.{equals, random_token, session_cookie_name}
use scpy.Api.Cookie.RoundTrip.{AreCookies, more_cookies, session_cookie_value-lookup}
use scpy.Api.State.{
  Broadcast, AppState, new_session, open_session, finish_login_of, finish_login, is_authorized,
}
use scpy.Api.Handlers.{Handler, authorized}
use scpy.Api.Handlers.Guards.{has_session, is_authorized-has_session, authorized-runs}

module _ (o : Opaque) {S Sender Receiver : Type 0}
    (rooms : RoomStore o.PasswordFile o.ServerLogin S) (broadcast : Broadcast Sender Receiver)
    (lawful : IsLawful rooms) where
  abbrev Server : Type 0
  Server = AppState o.ServerSetup S Sender

  -- What a login leaves when it answers with a room and a session.
  abbrev IsOpened : Clock → ℕ → Text → Text → S → Type 0
  IsOpened clock ttl room_id session_id s =
      (now : ℕ)
      → now < expires_after clock ttl
      → (session : StoredOpaqueSession) × (lawful.session_at s now session_id ≡ some session)
        × (session.room_id ≡ room_id)

  open_session_lem :
      (clock : Clock) (token_bytes : List ℕ) (room_id : Text) (a : Server)
      → let token = random_token token_bytes in
        let session = new_session clock room_id a.session_ttl in
        open_session o rooms broadcast clock token_bytes room_id a ≡ (
          record a { store = (rooms.put_session clock a.store token session a.session_ttl).0 },
          ok (some (room_id, token)),
        )
  unfolding open_session
  open_session_lem clock token_bytes room_id a = rw (lawful.put_session_ok clock a.store _ _ _) refl

  open_session-IsOpened :
      (clock : Clock) (token_bytes : List ℕ) (room_id : Text) (a : Server)
      → IsOpened clock a.session_ttl room_id
          (random_token token_bytes)
          (open_session o rooms broadcast clock token_bytes room_id a).0.store
  open_session-IsOpened clock token_bytes room_id a now live =
      let token = random_token token_bytes in
      let session = new_session clock room_id a.session_ttl in
      let in_time : ltb now (expires_after clock a.session_ttl) ≡ true = ground arith in
      (
        session,
        rw (open_session_lem clock token_bytes room_id a) (
            lawful.put_session_lem clock a.store token session a.session_ttl now token
            ∙ rw (text_eq_refl token, in_time) refl),
        refl,
      )

  -- The session is open if the protocol accepted the login, and there is none if it did not.
  login-IsOpened :
      (clock : Clock) (token_bytes : List ℕ) (login_room room_id session_id : Text) (a : Server)
      (accepted : Bool)
      → let login = open_session o rooms broadcast clock token_bytes login_room in
        let after = (if accepted then login else return none) a in
        after.1 ≡ ok (some (room_id, session_id))
        → IsOpened clock a.session_ttl room_id session_id after.0.store
  login-IsOpened clock token_bytes login_room room_id session_id a false h = absurd (cc)
  login-IsOpened clock token_bytes login_room room_id session_id a true h =
      let opened = open_session o rooms broadcast clock token_bytes login_room a in
      let same : (login_room, random_token token_bytes) ≡ (room_id, session_id) =
        ok_some (ap (λ r. r.1) (sym (open_session_lem clock token_bytes login_room a)) ∙ h) in
      subst (λ (p : Text × Text). IsOpened clock a.session_ttl p.0 p.1 opened.0.store) same
        (open_session-IsOpened clock token_bytes login_room a)

  finish_login_of-IsOpened :
      (clock : Clock) (token_bytes : List ℕ) (message : o.CredentialFinalization)
      (room_id session_id : Text) (a : Server) (s : S)
      (found : Result (Option (StoredOpaqueLoginState o.ServerLogin)))
      → let after =
          then_do
            (record a { store = s }, found)
            (finish_login_of o rooms broadcast clock token_bytes message) in
        after.1 ≡ ok (some (room_id, session_id))
        → IsOpened clock a.session_ttl room_id session_id after.0.store
  finish_login_of-IsOpened clock token_bytes message room_id session_id a s (err e) h = absurd (cc)
  finish_login_of-IsOpened clock token_bytes message room_id session_id a s (ok none) h =
      absurd (cc)
  finish_login_of-IsOpened clock token_bytes message room_id session_id a s (ok (some login)) h =
      login-IsOpened clock token_bytes login.room_id room_id session_id (record a { store = s })
        (o.finish_login login.state message) h

  finish_login-IsOpened :
      (take_clock put_clock : Clock) (token_bytes : List ℕ) (request : OpaqueLoginFinishRequest o)
      (room_id session_id : Text) (a : Server)
      → let after = finish_login o rooms broadcast take_clock put_clock token_bytes request a in
        after.1 ≡ ok (some (room_id, session_id))
        → IsOpened put_clock a.session_ttl room_id session_id after.0.store
  unfolding finish_login
  finish_login-IsOpened take_clock put_clock token_bytes request room_id session_id a =
      finish_login_of-IsOpened put_clock token_bytes request.message room_id session_id a _ _

  -- While the session lives, the cookie names it.
  has_session-finish_login :
      (take_clock put_clock : Clock) (token_bytes : List ℕ) (request : OpaqueLoginFinishRequest o)
      (room_id session_id : Text) (a : Server)
      → let after = finish_login o rooms broadcast take_clock put_clock token_bytes request a in
        after.1 ≡ ok (some (room_id, session_id))
        → (now : ℕ) → now < expires_after put_clock a.session_ttl
        → (name value : Text) (cookies : HashMap Text) → AreCookies ((name, value) ∷ cookies)
        → lookup (session_cookie_name room_id) ((name, value) ∷ cookies) ≡ some session_id
        → has_session o rooms broadcast lawful after.0.store now
            (some (name ++ (equals ∷ value ++ more_cookies cookies)))
            room_id
          ≡ true
  has_session-finish_login take_clock put_clock token_bytes request room_id session_id a h now live
        name value cookies c found =
      let (session, is_live, of_room) =
        finish_login-IsOpened take_clock put_clock token_bytes request room_id session_id a h now
          live in
      let sent = session_cookie_value-lookup (session_cookie_name room_id) name value cookies c in
      rw (sent, found, is_live, of_room) (text_eq_refl room_id)

  -- After a `finish_login` over a lawful store that answers with a room and a session id, while
  -- that session lives, the guard answers true to any request in whose well-formed cookies the
  -- room's cookie is that id, and the handler behind it runs, on a state in which every room reads
  -- as before.
  pub authorized-finish_login :
      {X : Type 0} (take_clock put_clock : Clock) (token_bytes : List ℕ)
      (request : OpaqueLoginFinishRequest o) (room_id session_id : Text) (a : Server)
      → let login = finish_login o rooms broadcast take_clock put_clock token_bytes request a in
        login.1 ≡ ok (some (room_id, session_id))
        → (clock : Clock) → clock.now < expires_after put_clock a.session_ttl
        → (name value : Text) (cookies : HashMap Text) → AreCookies ((name, value) ∷ cookies)
        → lookup (session_cookie_name room_id) ((name, value) ∷ cookies) ≡ some session_id
        → (handler : Handler Server X)
        → let header = some (name ++ (equals ∷ value ++ more_cookies cookies)) in
          let guard = is_authorized o rooms broadcast clock header room_id login.0 in
          (guard.1 ≡ ok true)
          × (authorized o rooms broadcast clock header room_id handler login.0 ≡ handler guard.0)
          × ((now : ℕ) (k : Text)
              → lawful.room_at guard.0.store now k ≡ lawful.room_at login.0.store now k)
  authorized-finish_login take_clock put_clock token_bytes request room_id session_id a h clock live
        name value cookies c found handler =
      let login = finish_login o rooms broadcast take_clock put_clock token_bytes request a in
      let header = some (name ++ (equals ∷ value ++ more_cookies cookies)) in
      let opened =
        has_session-finish_login take_clock put_clock token_bytes request room_id session_id a h
          clock.now live name value cookies c found in
      let (answers, rooms_same, channels_same) =
        is_authorized-has_session o rooms broadcast lawful clock header room_id login.0 in
      (
        answers ∙ ap ok opened,
        authorized-runs o rooms broadcast lawful clock header room_id handler login.0 opened,
        rooms_same,
      )
