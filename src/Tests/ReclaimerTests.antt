-- ===== src/Tests/ReclaimerTests.antt =====
-- src/api.rs: servers over a toy Redis.
use scpy.Prelude.{ℕ, ◌*◌, ◌≡◌, refl, arith, [], ◌∷◌, List}
use scpy.Time.{Clock}
use scpy.Alloc.Tier.Invariant.Fresh.{full_tiers, new-IsValid}
use scpy.Store.Types.{ok}
use scpy.Store.Redis.{Trip}
use scpy.Store.Redis.Database.{take, zset_up_to, zset_insert, zset_remove, members}
use scpy.Store.Redis.Scripts.{alloc_init}
use scpy.Store.Redis.Mirror.{IsMirror}
use scpy.Api.State.{new, default_login_ttl, default_session_ttl}
use scpy.Api.Reclaimer.{over_redis, reclaimer}
use scpy.Api.Reclaimer.Drains.{IsCleared, reclaimer-IsCleared}
use scpy.Api.Reclaimer.Start.{over_redis_shared}
use scpy.Tests.StoreTests.{second, at_second}
use scpy.Tests.ToyRedis.{redis_db, redis_db-IsRedis, json, json-IsCodec, blank, at_time}
use scpy.Tests.RedisTests.{indexed, indexed-IsMirror, offline}

-- A tick whose request does not reach the server, and one whose does.
abbrev ticks : List (Clock × Trip)
ticks = (at_second 0, record offline { time = 10 }) ∷ (at_second 1, at_time 11) ∷ []

reclaimer-IsCleared_example :
    IsCleared redis_db redis_db-IsRedis 5 indexed
      (reclaimer redis_db json 8 ticks indexed).0
      full_tiers
unfolding take zset_up_to zset_insert zset_remove members alloc_init
    scpy.Store.Redis.Scripts.init_tiers scpy.Time.now_unix_ms scpy.Alloc.Code.tier_capacity
reclaimer-IsCleared_example =
    reclaimer-IsCleared redis_db redis_db-IsRedis json 8 10 5 1_800_000_000_000 0 ticks indexed
      full_tiers (new-IsValid.1) indexed-IsMirror ((175616, refl, omega arith), tt)
      (omega arith, tt) (refl, tt)
      (omega arith, omega arith, omega arith, (omega arith, omega arith, omega arith, tt))
      (omega arith)

over_redis_shared_example :
    let (d', first) =
      over_redis redis_db json {Sender = ℕ}
        (at_time 0)
        (at_time 1)
        (at_time 2)
        (at_time 3)
        11
        (60 * second)
        blank in
    (first ≡ ok (new d' 11 (60 * second) default_login_ttl default_session_ttl))
    × IsMirror d' full_tiers
    × (over_redis redis_db json {Sender = ℕ}
          (at_time 4)
          (at_time 5)
          (at_time 6)
          (at_time 7)
          12
          (30 * second)
          d'
        ≡ (d', ok (new d' 11 (30 * second) default_login_ttl default_session_ttl)))
over_redis_shared_example =
    over_redis_shared redis_db redis_db-IsRedis json json-IsCodec (at_time 0) (at_time 1)
      (at_time 2) (at_time 3) (at_time 4) (at_time 5) (at_time 6) (at_time 7) 11 12 (60 * second)
      (30 * second) blank refl refl refl refl refl refl refl
