-- ===== src/Store/Redis/Requests.antt =====
-- src/store.rs: the requests of `RedisRoomStore`, and what it makes of their answers.
use scpy.Prelude.{
  ℕ, Bool, false, Option, none, some, ltb, ◌==◌, Text, text_eq, if◌then◌else◌, ◌⊎◌, inl, inr,
}
use scpy.Store.Types.{StoreError, redis, serialization, script_protocol, Result, ok, err}
use scpy.Store.Action.{Action, ◌>>=◌}

pub data FreeRoomResult : Type 0 where
  freed already_free : FreeRoomResult

pub record ReclaimResult : Type 0 where
  pub reclaimed : ℕ
  pub cleaned : ℕ
  pub scanned : ℕ

-- What becomes of a request: it is answered, it does not reach the server, or its answer is lost. The
-- texts are the errors of the client.
pub data Delivery : Type 0 where
  answered : Delivery
  refused lost : Text → Delivery

-- One request: what becomes of it, the server's clock, and what the client says of a script that
-- fails.
pub record Trip : Type 0 where
  pub delivery : Delivery
  pub time : ℕ
  pub script_error : Text

module _ {D : Type 0} where
  abbrev pub delivered : {X : Type 0} → Delivery → D → D × X → D × Result X
  delivered answered d (d', x) = (d', ok x)
  delivered (refused message) d (d', x) = (d, err (redis message))
  delivered (lost message) d (d', x) = (d', err (redis message))

  -- A command, and a command that only reads.
  abbrev pub send : {X : Type 0} → Trip → (ℕ → D → D × X) → Action D X
  send trip command d = delivered trip.delivery d (command trip.time d)

  abbrev pub ask : {X : Type 0} → Trip → (ℕ → D → X) → Action D X
  ask trip command = send trip (λ time d. (d, command time d))

  abbrev pub or_script_error : {X : Type 0} → Text → Option X → Action D X
  or_script_error message none d = (d, err (redis message))
  or_script_error message (some x) d = (d, ok x)

  abbrev pub invoke : {X : Type 0} → Trip → (ℕ → D → D × Option X) → Action D X
  invoke trip script = send trip script >>= or_script_error trip.script_error

  -- `ok_or(StoreError::ScriptProtocol(..))` and `serde_json::from_str(..)?`.
  abbrev pub or_protocol : {X : Type 0} → Text → Option X → Action D X
  or_protocol message none d = (d, err (script_protocol message))
  or_protocol message (some x) d = (d, ok x)

  abbrev pub or_serialization : {X : Type 0} → Text ⊎ X → Action D X
  or_serialization (inl message) d = (d, err (serialization message))
  or_serialization (inr x) d = (d, ok x)

  abbrev pub fail : {X : Type 0} → StoreError → Action D X
  fail e d = (d, err e)

-- `as_deref() == Some(..)`, and `==` of optional numbers.
abbrev pub is_text : Option Text → Text → Bool
is_text none text = false
is_text (some answer) text = text_eq answer text

abbrev pub is_number : Option ℕ → ℕ → Bool
is_number none n = false
is_number (some answer) n = answer == n

abbrev pub or_default : Option ℕ → ℕ
or_default none = 0
or_default (some n) = n

abbrev pub max_one : ℕ → ℕ
max_one n = if ltb n 1 then 1 else n
