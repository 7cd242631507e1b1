-- ===== src/Config.antt =====
-- src/main.rs: the settings that the process reads from its environment.
pub mod RoundTrip
use scpy.Prelude.{
  ℕ, ◌+◌, ◌-◌, ◌*◌, ◌^◌, Bool, ◌&&◌, Option, none, some, List, [], ◌∷◌, ltb, leb, ◌==◌,
  if◌then◌else◌, ◌>>=◌, Text, codes,
}
use scpy.HashMap.{HashMap, lookup}
use scpy.Time.{u64_max}
use scpy.Api.State.{default_room_ttl}

-- The variables with their values, where they are UTF-8; `env::var(..).ok()` looks one up.
abbrev pub Environment : Type 0
Environment = HashMap Text

abbrev pub u16_max : ℕ
u16_max = 2 ^ 16 - 1

-- The digits of an unsigned number of the standard library, after what has been read.
unfoldable pub parse_digits : ℕ → ℕ → Text → Option ℕ
parse_digits max value [] = some value
parse_digits max value (byte ∷ rest) =
    let next = value * 10 + (byte - 48) in
    let later = parse_digits max next rest in
    if leb 48 byte && leb byte 57 then (if leb next max then later else none) else none

abbrev pub parse_some : ℕ → Text → Option ℕ
parse_some max [] = none
parse_some max (byte ∷ rest) = parse_digits max 0 (byte ∷ rest)

-- `str::parse` for a type of numbers up to a greatest: one plus sign may stand first.
unfoldable pub parse : ℕ → Text → Option ℕ
parse max [] = none
parse max (byte ∷ rest) = if byte == 43 then parse_some max rest else parse_some max (byte ∷ rest)

abbrev pub unwrap_or {ℓ} : {A : Type ℓ} → Option A → A → A
unwrap_or none default = default
unwrap_or (some a) default = a

abbrev pub or_else {ℓ} : {A : Type ℓ} → Option A → Option A → Option A
or_else none other = other
or_else (some a) other = some a

-- `0.0.0.0` with a port, or the address of the configuration of Leptos.
pub data SocketAddr (A : Type 0) : Type 0 where
  unspecified : (port : ℕ) → SocketAddr A
  site_addr : A → SocketAddr A

-- Which store the state is made over.
pub data Start : Type 0 where
  memory : (room_ttl : ℕ) → Start
  redis_with_reclaimer :
      (redis_url : Text) → (room_ttl reclaim_interval reclaim_batch_limit : ℕ) → Start

-- The numbers are read by `parse`; durations are nanoseconds.
unfoldable pub number_of : Environment → Text → ℕ → Option ℕ
number_of env key max = lookup key env >>= parse max

unfoldable pub address : {A : Type 0} → Environment → A → SocketAddr A
address env configured = elim (number_of env (codes "PORT") u16_max) [
  | none ↦ site_addr configured
  | some port ↦ unspecified port
]

abbrev pub nanos_of : Option ℕ → ℕ → ℕ → ℕ
nanos_of none unit default = default
nanos_of (some n) unit default = n * unit

abbrev pub app_state : Option Text → ℕ → ℕ → ℕ → Start
app_state none room_ttl reclaim_interval reclaim_batch_limit = memory room_ttl
app_state (some redis_url) room_ttl reclaim_interval reclaim_batch_limit =
    redis_with_reclaimer redis_url room_ttl reclaim_interval reclaim_batch_limit

unfoldable pub start : Environment → Start
start env =
    let room_ttl =
      nanos_of (number_of env (codes "SCPY_ROOM_TTL_SECONDS") u64_max) 1_000_000_000
        default_room_ttl in
    let redis_url =
      or_else (lookup (codes "SCPY_REDIS_URL") env) (lookup (codes "REDIS_URL") env) in
    let reclaim_interval =
      nanos_of (number_of env (codes "SCPY_RECLAIM_INTERVAL_MILLIS") u64_max) 1_000_000
        1_000_000_000 in
    let reclaim_batch_limit =
      unwrap_or (number_of env (codes "SCPY_RECLAIM_BATCH_LIMIT") u64_max) 128 in
    app_state redis_url room_ttl reclaim_interval reclaim_batch_limit
