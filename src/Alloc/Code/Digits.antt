-- ===== src/Alloc/Code/Digits.antt =====
-- The base-56 digits of a rank: the loop of `encode_local_id` writes them, and the loop of
-- `decode_public_rank` reads them.
use native.Mathlib.Nat.{
  mod-eq_of_lt, pow-suc, one-le-pow, div-div-eq-div-mul, div-one, mul-le-mul_right, mul-le-mul_left,
}
use mathlib.Core.List.{append_assoc}
use scpy.Prelude.{
  if◌then◌else◌, ℕ, zero, suc, ◌+◌, ◌*◌, ◌/◌, ◌%◌, ◌^◌, ◌≤◌, ◌<◌, ◌≡◌, refl, sym, ap, ap₂, ◌∙◌, inl,
  inr, Bool, true, false, none, some, [], ◌∷◌, ◌++◌, arith, ◌>>=◌, Text, get_or, set, drop, length,
  length-append, length-set, drop-set, ◌==◌, Bool-cases, Option-cases,
}
use scpy.Alloc.Code.{base56_alphabet, fill_slots, position, rank_bytes}

abbrev pub symbol : ℕ → ℕ
symbol digit = get_or base56_alphabet digit 0

-- The last `n` digits of a number.
unfoldable pub digits : ℕ → ℕ → Text
digits zero value = []
digits (suc n) value = digits n (value / 56) ++ symbol (value % 56) ∷ []

pub length-digits : (n value : ℕ) → length (digits n value) ≡ n
unfolding digits
length-digits zero value = refl
length-digits (suc n) value = omega (
  arith,
  length-append (digits n (value / 56)) (symbol (value % 56) ∷ []),
  length-digits n (value / 56),
)

pub fill_slots-digits :
    (n value : ℕ) (chars : Text)
    → n ≤ length chars
    → fill_slots n value chars ≡ digits n value ++ drop n chars
unfolding fill_slots digits
fill_slots-digits zero value chars h = refl
fill_slots-digits (suc n) value chars h =
    fill_slots-digits n (value / 56) (set chars n (symbol (value % 56)))
      (rw length-set (omega arith))
    ∙ rw (drop-set chars n (symbol (value % 56)) h, append_assoc) refl

-- Every digit has its own symbol, checked on all 56.
abbrev reads_back : ℕ → Bool
reads_back digit = elim (position (symbol digit) base56_alphabet) [
  | none ↦ false
  | some read ↦ read == digit
]

read_count : ℕ → ℕ
read_count zero = 0
read_count (suc count) = read_count count + (if reads_back count then 1 else 0)

read_count-le : (count : ℕ) → read_count count ≤ count
unfolding read_count
read_count-le zero = omega arith
read_count-le (suc count) = ground (arith, read_count-le count)

-- When none of the first digits is missing, each of them reads back.
none_missing :
    (digit count : ℕ) → digit < count → read_count count ≡ count → reads_back digit ≡ true
unfolding read_count
none_missing digit zero h all = absurd (omega (arith, h))
none_missing digit (suc count) h all =
    let fewer = read_count-le count in
    elim (Bool-cases (digit == count)) [
      | inl last ↦
          let same : digit ≡ count = ground arith in
          elim (Bool-cases (reads_back count)) [
            | inl reads ↦ rw same reads
            | inr missing ↦ absurd (omega (arith, fewer, rw missing at all))
          ]
      | inr before ↦ elim (Bool-cases (reads_back count)) [
        | inl reads ↦ none_missing digit count (ground arith) (omega (arith, rw reads at all))
        | inr missing ↦ absurd (omega (arith, fewer, rw missing at all))
      ]
    ]

symbol_table : read_count 56 ≡ 56
unfolding read_count position
symbol_table = refl

position-symbol : (digit : ℕ) → digit < 56 → position (symbol digit) base56_alphabet ≡ some digit
position-symbol digit h =
    let checked : reads_back digit ≡ true = none_missing digit 56 h symbol_table in ground arith

pub position_lem :
    (byte : ℕ) (xs : Text) (i : ℕ)
    → position byte xs ≡ some i
    → (get_or xs i 0 ≡ byte) × (i < length xs)
unfolding position
position_lem byte [] i h = ground arith
position_lem byte (x ∷ xs) i h = elim (Bool-cases (x == byte)) [
  | inl same ↦ let first : i ≡ 0 = ground arith in rw first (ground arith, omega arith)
  | inr other ↦ elim (Option-cases (position byte xs)) [
    | inl e ↦ absurd (ground arith)
    | inr (j, e) ↦
        let later : i ≡ suc j = ground arith in
        let ih = position_lem byte xs j e in rw later (ih.0, omega arith)
  ]
]

rank_bytes-append :
    (acc : ℕ) (xs ys : Text)
    → rank_bytes acc (xs ++ ys) ≡ (rank_bytes acc xs >>= λ a. rank_bytes a ys)
unfolding rank_bytes
rank_bytes-append acc [] ys = refl
rank_bytes-append acc (x ∷ xs) ys = elim (Option-cases (position x base56_alphabet)) [
  | inl e ↦ rw e refl
  | inr (d, e) ↦ rw e (rank_bytes-append ((acc * 56 + d) % 2 ^ 64) xs ys)
]

pub rank_bytes-digits :
    (n value : ℕ) → value < 56 ^ n → value < 2 ^ 64 → rank_bytes 0 (digits n value) ≡ some value
unfolding digits
rank_bytes-digits zero value h k = let e : value ≡ 0 = omega arith in unfold rank_bytes in rw e refl
rank_bytes-digits (suc n) value h k =
    let upper : value / 56 < 56 ^ n = omega (arith, pow-suc 56 n) in
    rw (rank_bytes-append, rank_bytes-digits n (value / 56) upper (omega arith))
      (unfold rank_bytes in rw (position-symbol (value % 56) (omega arith)) (ap some (omega arith)))

-- The other way to take a digit off: the first one.
digits_first : (n value : ℕ) → digits (suc n) value ≡ symbol (value / 56 ^ n % 56) ∷ digits n value
unfolding digits
digits_first zero value = rw (div-one value) refl
digits_first (suc n) value =
    let shift : value / 56 / 56 ^ n ≡ value / 56 ^ suc n =
      div-div-eq-div-mul value 56 (56 ^ n)
      ∙ ap (λ (t : ℕ). value / t) (omega (arith, pow-suc 56 n)) in
    rw (digits_first n (value / 56), shift) refl

-- One more byte neither wraps nor leaves the bound.
rank_bound :
    (acc d n : ℕ)
    → d < 56
    → (acc + 1) * 56 ^ suc n ≤ 2 ^ 64
    → ((acc * 56 + d + 1) * 56 ^ n ≤ 2 ^ 64) × (acc * 56 + d < 2 ^ 64)
rank_bound acc d n lt h =
    let positive = one-le-pow n 56 (omega arith) in
    let grown : (acc * 56 + d + 1) * 56 ^ n ≤ (acc * 56 + 56) * 56 ^ n =
      mul-le-mul_right (56 ^ n) (omega arith) in
    let least : (acc * 56 + d + 1) * 1 ≤ (acc * 56 + d + 1) * 56 ^ n =
      mul-le-mul_left (acc * 56 + d + 1) positive in
    let total = ap (λ (t : ℕ). (acc + 1) * t) (pow-suc 56 n) in
    (omega (arith, total), omega (arith, total))

-- What reading a code of `length bytes` symbols on from `acc` gives, where nothing wraps.
pub digits-rank_bytes :
    (acc : ℕ) (bytes : Text) (rank : ℕ)
    → (acc + 1) * 56 ^ length bytes ≤ 2 ^ 64
    → rank_bytes acc bytes ≡ some rank
    → (digits (length bytes) rank ≡ bytes) × (rank / 56 ^ length bytes ≡ acc)
unfolding rank_bytes
digits-rank_bytes acc [] rank h e = (unfold digits in refl, rw div-one (ground arith))
digits-rank_bytes acc (b ∷ bytes) rank h e = elim (Option-cases (position b base56_alphabet)) [
  | inl missing ↦ absurd (ground arith)
  | inr (d, found) ↦
      let n = length bytes in
      let (same, below) = position_lem b base56_alphabet d found in
      let (bound, exact) = rank_bound acc d n below h in
      let (rest, quotient) =
        digits-rank_bytes (acc * 56 + d) bytes rank bound (rw (found, mod-eq_of_lt exact) at e) in
      (
        digits_first n rank
            ∙ ap₂ ◌∷◌ (ap symbol {y = d} (ap (λ (t : ℕ). t % 56) quotient ∙ omega arith) ∙ same)
                rest,
        ap (λ (t : ℕ). rank / t) (omega (arith, pow-suc 56 n))
            ∙ sym (div-div-eq-div-mul rank (56 ^ n) 56)
            ∙ ap (λ (t : ℕ). t / 56) quotient
            ∙ omega arith,
      )
]
