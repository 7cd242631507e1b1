-- ===== src/Store/Redis/Laws/Sessions.antt =====
-- The login states, the sessions and the key pair of the server in the database.
use scpy.Prelude.{
  ℕ, ◌+◌, ◌<◌, ◌≡◌, refl, ◌∙◌, inl, inr, true, false, Bool, none, some, arith, if◌then◌else◌,
  Bool-cases, ltb, Text, text_eq_refl,
}
use scpy.Time.{ttl_to_millis}
use scpy.Auth.{StoredOpaqueLoginState, StoredOpaqueSession}
use scpy.Store.Types.{ok}
use scpy.Store.Redis.{
  Trip, answered, put_login_state, take_login_state, put_session, get_session, delete_session,
  get_or_create_server_setup,
}
use scpy.Store.Redis.Database.{login, session, setup, Redis, IsRedis}
use scpy.Store.Redis.Scripts.{Codec}
use scpy.Store.Redis.Laws.Codecs.{IsCodec}

module _ {D V P L Setup : Type 0} (r : Redis D V) (law : IsRedis r) (codec : Codec V P L Setup)
    (exact : IsCodec codec) (use_expiry_index : Bool) where
  get_missing :
      (trip get_trip : Trip) (id : Text) (d : D)
      → r.get get_trip.time (login id) (r.del (login id) d) ≡ none
  get_missing trip get_trip id d =
      law.get_lem get_trip.time (login id) (r.del (login id) d)
      ∙ rw (law.del_lem, text_eq_refl id) refl

  -- With JSON that is read back as it was written, when the requests are answered one after
  -- another, a login state put is taken before it expires, and taken again it is not there.
  pub take_login_state-put_login_state :
      (put_trip get_trip del_trip get_again del_again : Trip) (id : Text)
      (state : StoredOpaqueLoginState L) (ttl : ℕ) (d : D)
      → put_trip.delivery ≡ answered
      → get_trip.delivery ≡ answered
      → del_trip.delivery ≡ answered
      → get_again.delivery ≡ answered
      → del_again.delivery ≡ answered
      → get_trip.time < put_trip.time + ttl_to_millis ttl
      → let (d₁, put) = put_login_state r codec use_expiry_index put_trip id state ttl d in
        let (d₂, taken) = take_login_state r codec use_expiry_index get_trip del_trip id d₁ in
        let (d₃, again) = take_login_state r codec use_expiry_index get_again del_again id d₂ in
        (put ≡ ok tt) × (taken ≡ ok (some state)) × (again ≡ ok none)
  unfolding put_login_state take_login_state
  take_login_state-put_login_state put_trip get_trip del_trip get_again del_again id state ttl d h k
        l m n early =
      let d₁ = r.set_px put_trip.time (login id) (codec.login_json state) (ttl_to_millis ttl) d in
      let alive : ltb get_trip.time (put_trip.time + ttl_to_millis ttl) ≡ true = ground arith in
      let found : r.get get_trip.time (login id) d₁ ≡ some (codec.login_json state) =
        law.get_lem get_trip.time (login id) d₁
        ∙ rw (law.set_px_lem, text_eq_refl id, alive) refl in
      rw (h, k, l, m, n, found, exact.serde_login_lem state, get_missing get_trip get_again id d₁)
        (refl, refl, refl)

  -- With JSON that is read back as it was written, when the requests are answered, a session put is
  -- found until it expires and not after, and once deleted it is found at no time.
  get_session-put_session :
      (put_trip get_trip del_trip get_again : Trip) (id : Text) (value : StoredOpaqueSession)
      (ttl : ℕ) (d : D)
      → put_trip.delivery ≡ answered
      → get_trip.delivery ≡ answered
      → del_trip.delivery ≡ answered
      → get_again.delivery ≡ answered
      → let (d₁, put) = put_session r codec use_expiry_index put_trip id value ttl d in
        let (d₂, found) = get_session r codec use_expiry_index get_trip id d₁ in
        let (d₃, deleted) = delete_session r codec use_expiry_index del_trip id d₂ in
        (put ≡ ok tt)
        × (found
            ≡ ok (
                if ltb get_trip.time (put_trip.time + ttl_to_millis ttl) then some value else none))
        × (deleted ≡ ok tt)
        × (get_session r codec use_expiry_index get_again id d₃ ≡ (d₃, ok none))
  unfolding put_session get_session delete_session
  get_session-put_session put_trip get_trip del_trip get_again id value ttl d h k l m =
      let d₁ =
        r.set_px put_trip.time (session id) (codec.session_json value) (ttl_to_millis ttl) d in
      let read = law.get_lem get_trip.time (session id) d₁ in
      let gone : r.get get_again.time (session id) (r.del (session id) d₁) ≡ none =
        law.get_lem get_again.time (session id) (r.del (session id) d₁)
        ∙ rw (law.del_lem, text_eq_refl id) refl in
      elim (Bool-cases (ltb get_trip.time (put_trip.time + ttl_to_millis ttl))) [
        | inl alive ↦
            let found : r.get get_trip.time (session id) d₁ ≡ some (codec.session_json value) =
              read ∙ rw (law.set_px_lem, text_eq_refl id, alive) refl in
            rw (h, k, l, m, found, exact.serde_session_lem value, gone, alive)
              (refl, refl, refl, refl)
        | inr expired ↦
            let found : r.get get_trip.time (session id) d₁ ≡ none =
              read ∙ rw (law.set_px_lem, text_eq_refl id, expired) refl in
            rw (h, k, l, m, found, gone, expired) (refl, refl, refl, refl)
      ]

  pub get_or_create_server_setup_first :
      (get_trip setnx_trip again_trip : Trip) (drawn : Setup) (d : D)
      → get_trip.delivery ≡ answered
      → setnx_trip.delivery ≡ answered
      → (law.view d).strings setup ≡ none
      → get_or_create_server_setup r codec use_expiry_index get_trip setnx_trip again_trip drawn d
        ≡ (r.set setup (codec.setup_json drawn) d, ok drawn)
  unfolding get_or_create_server_setup
  get_or_create_server_setup_first get_trip setnx_trip again_trip drawn d h k absent =
      let missing : r.get get_trip.time setup d ≡ none =
        law.get_lem get_trip.time setup d ∙ rw absent refl in
      let vacant : r.exists setnx_trip.time setup d ≡ false =
        law.exists_lem setnx_trip.time setup d ∙ rw absent refl in
      let inserted : r.setnx setnx_trip.time setup (codec.setup_json drawn) d
          ≡ (r.set setup (codec.setup_json drawn) d, true) =
        law.setnx_lem setnx_trip.time setup (codec.setup_json drawn) d ∙ rw vacant refl in
      rw (h, missing, k, inserted) refl

  -- With JSON that is read back as it was written, when the requests are answered, the first server
  -- on a database without a key pair stores and uses the one that it drew, and a server that starts
  -- after it uses that one, not its own.
  pub get_or_create_server_setup_shared :
      (get_trip setnx_trip again_trip get_trip' setnx_trip' again_trip' : Trip)
      (drawn drawn' : Setup) (d : D)
      → get_trip.delivery ≡ answered
      → setnx_trip.delivery ≡ answered
      → get_trip'.delivery ≡ answered
      → (law.view d).strings setup ≡ none
      → let (d', first) =
          get_or_create_server_setup r codec use_expiry_index get_trip setnx_trip again_trip drawn
            d in
        (first ≡ ok drawn)
        × (get_or_create_server_setup r codec use_expiry_index get_trip' setnx_trip' again_trip'
              drawn' d'
            ≡ (d', ok drawn))
  unfolding get_or_create_server_setup
  get_or_create_server_setup_shared get_trip setnx_trip again_trip get_trip' setnx_trip' again_trip'
        drawn drawn' d h k l absent =
      let d' = r.set setup (codec.setup_json drawn) d in
      let first =
        get_or_create_server_setup_first get_trip setnx_trip again_trip drawn d h k absent in
      let found : r.get get_trip'.time setup d' ≡ some (codec.setup_json drawn) =
        law.get_lem get_trip'.time setup d' ∙ rw law.set_lem refl in
      rw first (refl, rw (get_or_create_server_setup, l, found, exact.serde_setup_lem drawn) refl)
