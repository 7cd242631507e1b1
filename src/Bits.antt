-- ===== src/Bits.antt =====
-- The laws of `&`, `|` and `^` on machine words that the code permutation relies on, at every
-- width: a low mask is a remainder, `|` of disjoint fields is a sum, and `^` undoes itself and
-- stays within the width of its operands.
mod Step
use Step.{bit_and-IsDigitwise, bit_or-IsDigitwise, bit_xor-IsDigitwise}
use Prim.Native.Nat.{differ}
use native.Mathlib.Nat.{pow-suc, one-le-pow}
use scpy.Prelude.{
  ℕ, zero, suc, ◌+◌, ◌-◌, ◌*◌, ◌/◌, ◌%◌, ◌^◌, ◌≤◌, ◌<◌, ◌≡◌, refl, ap, ◌⊎◌, inl, inr, arith,
  bit_and, bit_or, bit_xor,
}

-- u64 shifts: the left one drops what passes bit 63.
abbrev pub shl : ℕ → ℕ → ℕ
shl x k = x * 2 ^ k % 2 ^ 64

abbrev pub shr : ℕ → ℕ → ℕ
shr x k = x / 2 ^ k

double_pow : (q k : ℕ) → q * 2 ^ suc k ≡ 2 * (q * 2 ^ k)
double_pow q k = omega (arith, ap (λ (t : ℕ). q * t) (pow-suc 2 k))

-- A bound for `a` serves as fuel where the recursion goes to `a / 2`.
or-zero_below : (n a : ℕ) → a ≤ n → bit_or a 0 ≡ a
or-zero_below zero a h = let e : a ≡ 0 = omega arith in rw e refl
or-zero_below (suc n) a h =
    ground (arith, bit_or-IsDigitwise a 0, or-zero_below n (a / 2) (omega arith))

and-zero_below : (n a : ℕ) → a ≤ n → bit_and a 0 ≡ 0
and-zero_below zero a h = let e : a ≡ 0 = omega arith in rw e refl
and-zero_below (suc n) a h =
    ground (arith, bit_and-IsDigitwise a 0, and-zero_below n (a / 2) (omega arith))

-- `(q << k) | r` is a sum when `r` has `k` bits.
pub or_fields : (k q r : ℕ) → r < 2 ^ k → bit_or (q * 2 ^ k) r ≡ q * 2 ^ k + r
or_fields zero q r h = ground (arith, or-zero_below q q)
or_fields (suc k) q r h = ground (
  arith,
  bit_or-IsDigitwise (q * 2 ^ suc k) r,
  double_pow q k,
  or_fields k q (r / 2) (omega (arith, pow-suc 2 k)),
)

and_fields : (k q r : ℕ) → r < 2 ^ k → bit_and (q * 2 ^ k + r) (2 ^ k - 1) ≡ r
and_fields zero q r h = ground (arith, and-zero_below (q * 1 + r) (q * 1 + r))
and_fields (suc k) q r h = ground (
  arith,
  bit_and-IsDigitwise (q * 2 ^ suc k + r) (2 ^ suc k - 1),
  double_pow q k,
  pow-suc 2 k,
  and_fields k q (r / 2) (omega (arith, pow-suc 2 k)),
)

-- Masking by `2 ^ k - 1` is the remainder by `2 ^ k`.
pub and_mask : (k a : ℕ) → bit_and a (2 ^ k - 1) ≡ a % 2 ^ k
and_mask k a = ground (arith, one-le-pow k 2, and_fields k (a / 2 ^ k) (a % 2 ^ k))

digit_cases : (d : ℕ) → d < 2 → (d ≡ 0) ⊎ (d ≡ 1)
digit_cases d h = omega arith

differ_digits : (x y : ℕ) → x < 2 → y < 2 → (differ x y < 2) × (differ (differ x y) y ≡ x)
differ_digits x y hx hy = elim (digit_cases x hx) [
  | inl p ↦ elim (digit_cases y hy) [
    | inl q ↦ rw (p, q) (omega arith)
    | inr q ↦ rw (p, q) (omega arith)
  ]
  | inr p ↦ elim (digit_cases y hy) [
    | inl q ↦ rw (p, q) (omega arith)
    | inr q ↦ rw (p, q) (omega arith)
  ]
]

-- The halves and the lowest digit of an exclusive or.
xor_parts :
    (a b : ℕ)
    → (bit_xor a b / 2 ≡ bit_xor (a / 2) (b / 2)) × (bit_xor a b % 2 ≡ differ (a % 2) (b % 2))
xor_parts a b =
    omega
      (arith, bit_xor-IsDigitwise a b, differ_digits (a % 2) (b % 2) (omega arith) (omega arith))

-- `^` with the same word twice gives the first word back.
pub xor-xor : (k a b : ℕ) → a < 2 ^ k → b < 2 ^ k → bit_xor (bit_xor a b) b ≡ a
xor-xor zero a b h l = let p : a ≡ 0 = omega arith in let q : b ≡ 0 = omega arith in rw (p, q) refl
xor-xor (suc k) a b h l = ground (
  arith,
  pow-suc 2 k,
  bit_xor-IsDigitwise (bit_xor a b) b,
  xor_parts a b,
  differ_digits (a % 2) (b % 2),
  xor-xor k (a / 2) (b / 2),
)

-- `^` needs no more bits than its operands.
pub xor-lt : (k a b : ℕ) → a < 2 ^ k → b < 2 ^ k → bit_xor a b < 2 ^ k
xor-lt zero a b h l =
    let p : a ≡ 0 = omega arith in let q : b ≡ 0 = omega arith in rw (p, q) (omega arith)
xor-lt (suc k) a b h l = ground (
  arith,
  pow-suc 2 k,
  bit_xor-IsDigitwise a b,
  differ_digits (a % 2) (b % 2),
  xor-lt k (a / 2) (b / 2),
)
