-- ===== src/Prelude/Bits/Digits.antt =====
-- `bit_and` and `bit_xor` by their lowest binary digit.
use Prim.Native.Nat.{
  ℕ, zero, suc, ◌+◌, ◌-◌, ◌*◌, ◌/◌, ◌%◌, ◌≤◌, min, bit_and, bit_xor, digits, bitwise, differ,
  bit_and-bitwise, bit_xor-bitwise,
}
use mathlib.Core.Path.{◌≡◌, refl}
use native.Mathlib.Omega.{arith}

module _ (rest : ℕ → ℕ) (op : ℕ → ℕ → ℕ) where
  -- Whatever the fuel from the first number up, the digits are those at that number itself. The bound is
  -- what the recursion goes down on.
  at_number :
      (bound fuel x y : ℕ)
      → fuel ≤ bound
      → x ≤ fuel
      → digits rest op fuel x y ≡ digits rest op x x y
  at_number bound zero zero y below enough = refl
  at_number bound (suc fuel) zero y below enough = refl
  at_number bound zero (suc x) y below enough = absurd (omega arith)
  at_number zero (suc fuel) (suc x) y below enough = absurd (omega arith)
  at_number (suc bound) (suc fuel) (suc x) y below enough = rw (
    at_number bound fuel (suc x / 2) (y / 2) (omega arith) (omega arith),
    at_number bound x (suc x / 2) (y / 2) (omega arith) (omega arith),
  )

  lowest_digit :
      (x y : ℕ)
      → op (suc x % 2) (y % 2) + 2 * bitwise rest op (suc x / 2) (y / 2) ≡ bitwise rest op (suc x) y
  lowest_digit x y = omega (arith, at_number x x (suc x / 2) (y / 2) (omega arith) (omega arith))

pub bit_and_digit : (x y : ℕ) → bit_and x y ≡ min (x % 2) (y % 2) + 2 * bit_and (x / 2) (y / 2)
bit_and_digit (suc x) y = simp bit_and-bitwise (omega (arith, lowest_digit (λ _. 0) min x y))
bit_and_digit zero y = simp bit_and-bitwise (omega arith)

differ_lem : (a b : ℕ) → differ a b ≡ (a - b) + (b - a)
differ_lem zero b = omega arith
differ_lem (suc a) zero = omega arith
differ_lem (suc a) (suc b) = omega (arith, differ_lem a b)

-- The last digit of an exclusive or is 1 where the last digits differ.
pub bit_xor_digit : (x y : ℕ) → bit_xor x y ≡ (x + y) % 2 + 2 * bit_xor (x / 2) (y / 2)
bit_xor_digit (suc x) y =
    simp bit_xor-bitwise
      (omega (arith, lowest_digit (λ b. b) differ x y, differ_lem (suc x % 2) (y % 2)))
bit_xor_digit zero y = simp bit_xor-bitwise (omega arith)
