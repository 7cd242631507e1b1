-- ===== src/Config/RoundTrip.antt =====
-- A setting written in decimal is read back.
use scpy.Prelude.{
  ℕ, zero, suc, ◌+◌, ◌*◌, ◌/◌, ◌%◌, ◌^◌, ◌≤◌, ◌<◌, ◌≡◌, refl, ◌∙◌, ap, inl, inr, Bool, ltb→lt, ◌&&◌,
  ◌-◌, true, false, Option, none, some, arith, ltb, leb, ◌==◌, Bool-cases, Text, codes, [], ◌∷◌,
  decimal, decimal_digits,
}
use native.Mathlib.Nat.{pow-suc}
use scpy.HashMap.{lookup}
use scpy.Time.{u64_max}
use scpy.Config.{
  Environment, u16_max, parse_digits, parse, or_else, unspecified, site_addr, number_of, address,
  memory, redis_with_reclaimer, start,
}

-- One more digit.
parse_digits-digit :
    (max value digit : ℕ) (rest : Text)
    → digit < 10
    → value * 10 + digit ≤ max
    → parse_digits max value ((48 + digit) ∷ rest) ≡ parse_digits max (value * 10 + digit) rest
unfolding parse_digits
parse_digits-digit max value digit rest h k =
    let is_digit : (leb 48 (48 + digit) && leb (48 + digit) 57) ≡ true = ground arith in
    let of_byte : 48 + digit - 48 ≡ digit = omega arith in
    let fits : leb (value * 10 + digit) max ≡ true = ground arith in
    rw (parse_digits, is_digit, of_byte, fits) refl

parse_digits-decimal_digits :
    (max fuel n : ℕ) (rest : Text)
    → n ≤ max
    → n < 10 ^ fuel
    → parse_digits max 0 (decimal_digits fuel n rest) ≡ parse_digits max n rest
unfolding decimal_digits
parse_digits-decimal_digits max zero n rest h k =
    let nothing : n ≡ 0 = omega arith in rw nothing refl
parse_digits-decimal_digits max (suc fuel) n rest h k = elim (Bool-cases (ltb n 10)) [
  | inl small ↦
      rw (decimal_digits, small)
        (parse_digits-digit max 0 (n % 10) rest (omega arith) (omega (arith, ltb→lt n 10 small))
          ∙ ap (λ v. parse_digits max v rest) (omega (arith, ltb→lt n 10 small)))
  | inr large ↦
      rw (decimal_digits, large)
        (parse_digits-decimal_digits max fuel (n / 10) ((48 + n % 10) ∷ rest) (omega arith)
            (omega (arith, pow-suc 10 fuel))
          ∙ parse_digits-digit max (n / 10) (n % 10) rest (omega arith) (omega arith)
          ∙ ap (λ v. parse_digits max v rest) (omega arith))
]

-- A decimal starts with a digit.
starts_with_digit : Text → Bool
starts_with_digit [] = false
starts_with_digit (byte ∷ rest) = leb 48 byte

decimal_digits_starts :
    (fuel n : ℕ) (rest : Text)
    → starts_with_digit rest ≡ true
    → starts_with_digit (decimal_digits fuel n rest) ≡ true
unfolding decimal_digits starts_with_digit
decimal_digits_starts zero n rest h = h
decimal_digits_starts (suc fuel) n rest h = elim (Bool-cases (ltb n 10)) [
  | inl small ↦ rw (decimal_digits, small) (ground arith)
  | inr large ↦ rw (decimal_digits, large) (decimal_digits_starts fuel (n / 10) _ (ground arith))
]

decimal_starts : (n : ℕ) → starts_with_digit (decimal n) ≡ true
unfolding decimal_digits starts_with_digit
decimal_starts n = elim (Bool-cases (ltb n 10)) [
  | inl small ↦ rw (decimal_digits, small) (ground arith)
  | inr large ↦ rw (decimal_digits, large) (decimal_digits_starts 19 (n / 10) _ (ground arith))
]

parse_unsigned :
    (max : ℕ) (text : Text)
    → starts_with_digit text ≡ true
    → parse max text ≡ parse_digits max 0 text
unfolding parse starts_with_digit
parse_unsigned max [] h = absurd (ground arith)
parse_unsigned max (byte ∷ rest) h =
    let no_sign : (byte == 43) ≡ false = ground arith in rw (parse, no_sign) refl

-- A number up to the greatest of its type is read back from its decimal.
pub parse-decimal : (max n : ℕ) → n ≤ max → max ≤ u64_max → parse max (decimal n) ≡ some n
unfolding parse_digits
parse-decimal max n h k =
    parse_unsigned max (decimal n) (decimal_starts n)
    ∙ parse_digits-decimal_digits max 20 n [] h (omega arith)

-- How a number is set: not at all, by a text that is none of its type, or in decimal.
pub data Reads (env : Environment) (key : Text) (max : ℕ) : Option ℕ → Type 0 where
  absent : lookup key env ≡ none → Reads env key max none
  garbled :
      (text : Text) → lookup key env ≡ some text → parse max text ≡ none → Reads env key max none
  written : (n : ℕ) → lookup key env ≡ some (decimal n) → n ≤ max → Reads env key max (some n)

number_of-Reads :
    {env : Environment} {key : Text} {max : ℕ} {o : Option ℕ}
    → max ≤ u64_max
    → Reads env key max o
    → number_of env key max ≡ o
unfolding number_of
number_of-Reads small (absent e) = rw e refl
number_of-Reads small (garbled text e bad) = rw (e, bad) refl
number_of-Reads {env} {key} {max} small (written n e h) = rw e (parse-decimal max n h small)

-- Which address of Redis is set: the variable of the program, or the general one without it.
pub data HasUrl (env : Environment) : Option Text → Type 0 where
  own : (url : Text) → lookup (codes "SCPY_REDIS_URL") env ≡ some url → HasUrl env (some url)
  general :
      (url : Text)
      → lookup (codes "SCPY_REDIS_URL") env ≡ none
      → lookup (codes "REDIS_URL") env ≡ some url
      → HasUrl env (some url)
  neither :
      lookup (codes "SCPY_REDIS_URL") env ≡ none
      → lookup (codes "REDIS_URL") env ≡ none
      → HasUrl env none

or_else-HasUrl :
    {env : Environment} {url : Option Text}
    → HasUrl env url
    → or_else (lookup (codes "SCPY_REDIS_URL") env) (lookup (codes "REDIS_URL") env) ≡ url
or_else-HasUrl (own url e) = rw e refl
or_else-HasUrl (general url e e') = rw (e, e') refl
or_else-HasUrl (neither e e') = rw (e, e') refl

-- Where each numeric variable is missing, holds a text that does not parse at its type, or holds
-- the decimal of a number of its type, the process takes its default in the first two cases and
-- that number in the third, in its unit, for the port, the lifetime of rooms (a day), the
-- reclaiming interval (a second) and the batch limit (128); and it starts over Redis at
-- SCPY_REDIS_URL, or at REDIS_URL where that is not set, and over the memory store where neither
-- is.
pub start-Reads :
    {A : Type 0} (env : Environment) (configured : A) {port ttl interval limit : Option ℕ}
    {redis_url : Option Text}
    → Reads env (codes "PORT") u16_max port
    → Reads env (codes "SCPY_ROOM_TTL_SECONDS") u64_max ttl
    → Reads env (codes "SCPY_RECLAIM_INTERVAL_MILLIS") u64_max interval
    → Reads env (codes "SCPY_RECLAIM_BATCH_LIMIT") u64_max limit
    → HasUrl env redis_url
    → let room_ttl : ℕ = elim ttl [
      | none ↦ 86_400_000_000_000
      | some seconds ↦ seconds * 1_000_000_000
    ] in
      let reclaim_interval : ℕ = elim interval [
        | none ↦ 1_000_000_000
        | some millis ↦ millis * 1_000_000
      ] in
      let reclaim_batch_limit : ℕ = elim limit [ none ↦ 128 | some n ↦ n ] in
      (address env configured
        ≡ (elim port [ none ↦ site_addr configured | some p ↦ unspecified p ]))
      × (start env ≡ (elim redis_url [
        | none ↦ memory room_ttl
        | some url ↦ redis_with_reclaimer url room_ttl reclaim_interval reclaim_batch_limit
      ]))
unfolding address start
start-Reads env configured {port} {ttl} {interval} {limit} {redis_url} p t i l u =
    let port_read = number_of-Reads (omega arith) p in
    let ttl_read = number_of-Reads (omega arith) t in
    let interval_read = number_of-Reads (omega arith) i in
    let limit_read = number_of-Reads (omega arith) l in
    (
      rw (address, port_read) refl,
      rw (start, ttl_read, interval_read, limit_read, or_else-HasUrl u) (ground arith),
    )
