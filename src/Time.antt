-- ===== src/Time.antt =====
-- src/store.rs and src/api.rs: `ttl_to_millis` and `now_unix_ms`, which both files declare, and the
-- parts of `std::time` that they use. A `Duration` is its nanoseconds, an `Instant` the nanoseconds
-- of a monotonic clock.
use scpy.Prelude.{ℕ, ◌+◌, ◌-◌, ◌*◌, ◌/◌, ◌^◌, Option, none, some, ltb, leb, if◌then◌else◌}

abbrev pub u64_max : ℕ
u64_max = 2 ^ 64 - 1

-- `u64::try_from(n).unwrap_or(u64::MAX)`.
abbrev pub to_u64 : ℕ → ℕ
to_u64 n = if leb n u64_max then n else u64_max

abbrev pub saturating_add : ℕ → ℕ → ℕ
saturating_add a b = to_u64 (a + b)

abbrev pub as_millis : ℕ → ℕ
as_millis duration = duration / 1_000_000

abbrev pub as_secs : ℕ → ℕ
as_secs duration = duration / 1_000_000_000

-- An `Instant` holds the seconds as an i64.
abbrev instant_limit : ℕ
instant_limit = 2 ^ 63 * 1_000_000_000

abbrev pub checked_add : ℕ → ℕ → Option ℕ
checked_add instant duration =
    if ltb (instant + duration) instant_limit then some (instant + duration) else none

-- What the clocks give during one operation: the first `Instant::now()`, the one of
-- `unwrap_or_else`, and the milliseconds since the epoch.
pub record Clock : Type 0 where
  pub now : ℕ
  pub fallback : ℕ
  pub unix_millis : ℕ

unfoldable pub ttl_to_millis : ℕ → ℕ
ttl_to_millis ttl = to_u64 (if ltb (as_millis ttl) 1 then 1 else as_millis ttl)

unfoldable pub now_unix_ms : Clock → ℕ
now_unix_ms clock = to_u64 clock.unix_millis

-- `now.checked_add(ttl).unwrap_or_else(Instant::now)`.
unfoldable pub expires_after : Clock → ℕ → ℕ
expires_after clock ttl = elim (checked_add clock.now ttl) [ none ↦ clock.fallback | some t ↦ t ]
