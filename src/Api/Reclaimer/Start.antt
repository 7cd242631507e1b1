-- ===== src/Api/Reclaimer/Start.antt =====
-- Servers that start over one database share its free ids and its key pair.
use scpy.Prelude.{ℕ, ◌≡◌, refl, ◌∙◌, true, false, none, List, [], ◌∷◌, text_eq}
use scpy.Alloc.Tier.Invariant.Fresh.{full_tiers}
use scpy.Store.Types.{ok}
use scpy.Store.Redis.{Trip, answered, connect_with_options}
use scpy.Store.Redis.Database.{sentinel, setup, Redis, IsRedis, unexpired}
use scpy.Store.Redis.Scripts.{Codec, init_tiers, capacities, alloc_init}
use scpy.Store.Redis.Mirror.{IsMirror, IsSameTiers, IsMirror-IsSameTiers}
use scpy.Store.Redis.Laws.Codecs.{IsCodec}
use scpy.Store.Redis.Laws.Tiers.{connect_with_options-IsMirror}
use scpy.Store.Redis.Laws.Sessions.{
  get_or_create_server_setup_first, get_or_create_server_setup_shared,
}
use scpy.Api.State.{new, default_login_ttl, default_session_ttl}
use scpy.Api.Reclaimer.{over_redis}

module _ {D V P L Setup : Type 0} (r : Redis D V) (law : IsRedis r)
    (codec : Codec V P L Setup) where
  init_tiers_setup :
      (list : List (ℕ × ℕ)) (d : D)
      → (law.view (init_tiers r list d)).strings setup ≡ (law.view d).strings setup
  unfolding init_tiers
  init_tiers_setup [] d = refl
  init_tiers_setup ((n, last) ∷ rest) d =
      init_tiers_setup rest _ ∙ rw (law.hset_lem, law.zadd_lem, law.del_lem, law.del_lem) refl

  set_setup : (v : V) (d : D) → IsSameTiers (law.view d) (law.view (r.set setup v d))
  set_setup v d = rw law.set_lem (record { sets = λ n. refl; hashes = λ n. refl })

  connect_first :
      (trip : Trip) (d : D)
      → trip.delivery ≡ answered
      → r.exists trip.time sentinel d ≡ false
      → connect_with_options r codec true trip d
        ≡ (r.set sentinel codec.initialized (init_tiers r capacities d), ok tt)
  unfolding connect_with_options alloc_init text_eq
  connect_first trip d h absent = rw (h, absent) refl

  connect_again :
      (trip : Trip) (d : D)
      → trip.delivery ≡ answered
      → r.exists trip.time sentinel d ≡ true
      → connect_with_options r codec true trip d ≡ (d, ok tt)
  unfolding connect_with_options alloc_init text_eq
  connect_again trip d h present = rw (h, present) refl

  module _ (exact : IsCodec codec) where
    -- With JSON that is read back as it was written, when the requests are answered, the first
    -- server that starts on a database with neither sentinel nor key pair leaves it mirroring the
    -- allocator that `new` builds and uses the key pair that it drew; a server that starts after it
    -- uses that one, with its own room lifetime, and changes nothing.
    pub over_redis_shared :
        {Sender : Type 0} (connect_trip get_trip setnx_trip again_trip : Trip)
        (connect_trip' get_trip' setnx_trip' again_trip' : Trip) (drawn drawn' : Setup)
        (ttl ttl' : ℕ) (d : D)
        → connect_trip.delivery ≡ answered
        → get_trip.delivery ≡ answered
        → setnx_trip.delivery ≡ answered
        → connect_trip'.delivery ≡ answered
        → get_trip'.delivery ≡ answered
        → unexpired connect_trip.time ((law.view d).strings sentinel) ≡ none
        → (law.view d).strings setup ≡ none
        → let (d', first) =
            over_redis r codec {Sender = Sender} connect_trip get_trip setnx_trip again_trip drawn
              ttl d in
          (first ≡ ok (new d' drawn ttl default_login_ttl default_session_ttl))
          × IsMirror (law.view d') full_tiers
          × (over_redis r codec {Sender = Sender} connect_trip' get_trip' setnx_trip' again_trip'
                drawn' ttl' d'
              ≡ (d', ok (new d' drawn ttl' default_login_ttl default_session_ttl)))
    unfolding over_redis
    over_redis_shared connect_trip get_trip setnx_trip again_trip connect_trip' get_trip'
          setnx_trip' again_trip' drawn drawn' ttl ttl' d c g s c' g' no_sentinel no_setup =
        let missing : r.exists connect_trip.time sentinel d ≡ false =
          law.exists_lem connect_trip.time sentinel d ∙ rw no_sentinel refl in
        let d₀ = r.set sentinel codec.initialized (init_tiers r capacities d) in
        let connected = connect_first connect_trip d c missing in
        let absent : (law.view d₀).strings setup ≡ none =
          rw law.set_lem (init_tiers_setup capacities d ∙ no_setup) in
        let made =
          get_or_create_server_setup_first r law codec exact true get_trip setnx_trip again_trip
            drawn d₀ g s absent in
        let (answer, shared) =
          get_or_create_server_setup_shared r law codec exact true get_trip setnx_trip again_trip
            get_trip' setnx_trip' again_trip' drawn drawn' d₀ g s g' absent in
        let d' = r.set setup (codec.setup_json drawn) d₀ in
        let present : r.exists connect_trip'.time sentinel d' ≡ true =
          law.exists_lem connect_trip'.time sentinel d' ∙ rw (law.set_lem, law.set_lem) refl in
        let (done, mirrors, again) =
          connect_with_options-IsMirror r law codec true connect_trip connect_trip' d c c'
            no_sentinel in
        let seeded : IsMirror (law.view d₀) full_tiers = rw connected at mirrors in
        let shared' = rw made at shared in
        rw (connected, made)
          (
            refl,
            IsMirror-IsSameTiers (set_setup (codec.setup_json drawn) d₀) seeded,
            rw (over_redis, connect_again connect_trip' d' c' present) (rw shared' refl),
          )
