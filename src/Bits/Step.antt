-- ===== src/Bits/Step.antt =====
-- The native bit operations stand for `bitwise`, a recursion on binary digits with fuel. What the
-- laws need of them is one property without fuel: they work digit by digit.
use Prim.Native.Nat.{
  min, max, differ, digits, bitwise, bit_and-bitwise, bit_or-bitwise, bit_xor-bitwise,
}
use scpy.Prelude.{
  ℕ, zero, suc, ◌+◌, ◌*◌, ◌/◌, ◌%◌, ◌≤◌, ◌≡◌, refl, ap, arith, bit_and, bit_or, bit_xor,
}

-- The lowest digit of the result is what `digit` makes of the lowest digits, and the rest is the
-- operation on the rest.
abbrev pub IsDigitwise : (op digit : ℕ → ℕ → ℕ) → Type 0
IsDigitwise op digit = (x y : ℕ) → op x y ≡ op (x / 2) (y / 2) * 2 + digit (x % 2) (y % 2)

module _ (base : ℕ → ℕ) (digit : ℕ → ℕ → ℕ) where
  digits-zero : (fuel y : ℕ) → base y ≡ digits base digit fuel 0 y
  digits-zero zero y = refl
  digits-zero (suc fuel) y = refl

  -- What is computed does not depend on the fuel, once it is enough.
  same_digits :
      (fuel other x y : ℕ)
      → (x ≤ fuel) × (x ≤ other)
      → digits base digit fuel x y ≡ digits base digit other x y
  same_digits zero other zero y bounds = digits-zero other y
  same_digits zero other (suc x) y bounds = absurd (omega (arith, bounds.0))
  same_digits (suc fuel) other zero y bounds = digits-zero other y
  same_digits (suc fuel) zero (suc x) y bounds = absurd (omega (arith, bounds.1))
  same_digits (suc fuel) (suc other) (suc x) y bounds =
      let half : suc x / 2 ≤ fuel = omega (arith, bounds.0) in
      let half' : suc x / 2 ≤ other = omega (arith, bounds.1) in
      ap (λ (rest : ℕ). rest * 2 + digit (suc x % 2) (y % 2))
        (same_digits fuel other (suc x / 2) (y / 2) (half, half'))

  module _ (op : ℕ → ℕ → ℕ) (meaning : (x y : ℕ) → op x y ≡ bitwise base digit x y)
      (at_zero : (y : ℕ) → base y ≡ base (y / 2) * 2 + digit 0 (y % 2)) where
    -- An operation that stands for `bitwise` works digit by digit, if its values at 0 do.
    op-IsDigitwise : IsDigitwise op digit
    op-IsDigitwise zero y = simp meaning (at_zero y)
    op-IsDigitwise (suc x) y =
        let half : suc x / 2 ≤ x = omega arith in
        simp meaning (
          ap (λ (rest : ℕ). rest * 2 + digit (suc x % 2) (y % 2))
            (same_digits x (suc x / 2) (suc x / 2) (y / 2) (half, omega arith)))

pub bit_and-IsDigitwise : IsDigitwise bit_and min
bit_and-IsDigitwise = op-IsDigitwise _ min bit_and bit_and-bitwise (λ y. omega arith)

pub bit_or-IsDigitwise : IsDigitwise bit_or max
bit_or-IsDigitwise = op-IsDigitwise _ max bit_or bit_or-bitwise (λ y. omega arith)

pub bit_xor-IsDigitwise : IsDigitwise bit_xor differ
bit_xor-IsDigitwise = op-IsDigitwise _ differ bit_xor bit_xor-bitwise (λ y. omega arith)
