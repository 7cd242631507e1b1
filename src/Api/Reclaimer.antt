-- ===== src/Api/Reclaimer.antt =====
-- src/api.rs: `AppState::redis_with_reclaimer`. The task that it spawns runs `reclaim_expired` at every
-- tick of its interval, whatever the one before has answered.
pub mod Drains
pub mod Start
use scpy.Prelude.{ℕ, Bool, true, ◌||◌, List, [], ◌∷◌, ◌++◌, ltb, if◌then◌else◌}
use scpy.Time.{Clock}
use scpy.Store.Types.{StoreError, Result, ok, err}
use scpy.Store.Action.{Action, ◌>>=◌}
use scpy.Store.Redis.{
  Trip, ReclaimResult, connect_with_options, get_or_create_server_setup, reclaim_expired,
}
use scpy.Store.Redis.Database.{Redis}
use scpy.Store.Redis.Scripts.{Codec}
use scpy.Api.State.{AppState, new, default_login_ttl, default_session_ttl}

-- What the task tells the log.
pub data LogLine : Type 0 where
  reclaimed_line : ReclaimResult → LogLine
  failed_line : StoreError → LogLine

unfoldable pub log_of : Result ReclaimResult → List LogLine
log_of (ok result) =
    if ltb 0 result.reclaimed || ltb 0 result.cleaned then reclaimed_line result ∷ [] else []
log_of (err error) = failed_line error ∷ []

module _ {D V P L Setup : Type 0} (r : Redis D V) (codec : Codec V P L Setup) where
  -- The state over a Redis store, which keeps the expiry index; `drawn` is what `new_server_setup`
  -- draws.
  unfoldable pub over_redis :
      {Sender : Type 0} → Trip → Trip → Trip → Trip → Setup → ℕ → Action D (AppState Setup D Sender)
  over_redis connect_trip get_trip setnx_trip again_trip drawn room_ttl = do
    connected ← connect_with_options r codec true connect_trip
    opaque_setup ← get_or_create_server_setup r codec true get_trip setnx_trip again_trip drawn
    λ d. (d, ok (new d opaque_setup room_ttl default_login_ttl default_session_ttl))

  -- The loop of the spawned task over its ticks, with the batch limit.
  unfoldable pub reclaimer : ℕ → List (Clock × Trip) → D → D × List LogLine
  reclaimer limit [] d = (d, [])
  reclaimer limit ((clock, trip) ∷ ticks) d =
      let (d', result) = reclaim_expired r codec true clock trip limit d in
      let (d'', lines) = reclaimer limit ticks d' in (d'', log_of result ++ lines)
