-- ===== src/Prelude/Bits.antt =====
-- Laws of the bit operations at variables, from one equation for their lowest digit.
mod Digits
use Digits.{bit_and_digit, bit_xor_digit}
use Prim.Native.Nat.{ℕ, zero, suc, ◌+◌, ◌-◌, ◌*◌, ◌/◌, ◌%◌, ◌^◌, ◌≤◌, ◌<◌, bit_and, bit_xor, min}
use mathlib.Core.Path.{◌≡◌, refl, sym, ap, ◌∙◌}
use native.Mathlib.Nat.{
  pow-suc, pow-succ', one-le-pow, mul-add-mod_self_left, mod-eq_of_lt, mod-lt, div-add-mod,
}
use native.Mathlib.Decide.{dec_lt}
use native.Mathlib.Omega.{arith}

-- Each law is proved below a bound, by induction on the bound.
bit_xor-zero_below : (n a : ℕ) → a ≤ n → bit_xor a 0 ≡ a
bit_xor-zero_below n zero h = refl
bit_xor-zero_below zero (suc a) h = absurd (omega arith)
bit_xor-zero_below (suc n) (suc a) h =
    omega (arith, bit_xor_digit (suc a) 0, bit_xor-zero_below n (suc a / 2) (omega arith))

pub bit_xor-zero : (a : ℕ) → bit_xor a 0 ≡ a
bit_xor-zero a = bit_xor-zero_below a a (omega arith)

bit_xor_self_below : (n a : ℕ) → a ≤ n → bit_xor a a ≡ 0
bit_xor_self_below n zero h = refl
bit_xor_self_below zero (suc a) h = absurd (omega arith)
bit_xor_self_below (suc n) (suc a) h =
    omega (arith, bit_xor_digit (suc a) (suc a), bit_xor_self_below n (suc a / 2) (omega arith))

pub bit_xor_self : (a : ℕ) → bit_xor a a ≡ 0
bit_xor_self a = bit_xor_self_below a a (omega arith)

bit_xor_comm_below : (n a b : ℕ) → a ≤ n → b ≤ n → bit_xor a b ≡ bit_xor b a
bit_xor_comm_below zero zero zero h k = refl
bit_xor_comm_below zero zero (suc b) h k = absurd (omega arith)
bit_xor_comm_below zero (suc a) b h k = absurd (omega arith)
bit_xor_comm_below (suc n) a b h k = omega (
  arith,
  bit_xor_digit a b,
  bit_xor_digit b a,
  bit_xor_comm_below n (a / 2) (b / 2) (omega arith) (omega arith),
)

pub bit_xor_comm : (a b : ℕ) → bit_xor a b ≡ bit_xor b a
bit_xor_comm a b = bit_xor_comm_below (a + b) a b (omega arith) (omega arith)

pub zero-bit_xor : (a : ℕ) → bit_xor 0 a ≡ a
zero-bit_xor a = omega (arith, bit_xor_comm 0 a, bit_xor-zero a)

-- The half of an exclusive or, and its last digit.
bit_xor-half : (a b : ℕ) → bit_xor a b / 2 ≡ bit_xor (a / 2) (b / 2)
bit_xor-half a b = omega (arith, bit_xor_digit a b)

bit_xor_assoc_below :
    (n a b c : ℕ) → a ≤ n → b ≤ n → c ≤ n → bit_xor (bit_xor a b) c ≡ bit_xor a (bit_xor b c)
bit_xor_assoc_below zero zero zero zero h k l = refl
bit_xor_assoc_below zero zero zero (suc c) h k l = absurd (omega arith)
bit_xor_assoc_below zero zero (suc b) c h k l = absurd (omega arith)
bit_xor_assoc_below zero (suc a) b c h k l = absurd (omega arith)
bit_xor_assoc_below (suc n) a b c h k l =
    let ih =
      bit_xor_assoc_below n (a / 2) (b / 2) (c / 2) (omega arith) (omega arith) (omega arith) in
    omega (
      arith,
      bit_xor_digit (bit_xor a b) c,
      bit_xor_digit a (bit_xor b c),
      bit_xor_digit a b,
      bit_xor_digit b c,
      ap (λ t. bit_xor t (c / 2)) (bit_xor-half a b),
      ap (λ t. bit_xor (a / 2) t) (bit_xor-half b c),
      ih,
    )

pub bit_xor_assoc : (a b c : ℕ) → bit_xor (bit_xor a b) c ≡ bit_xor a (bit_xor b c)
bit_xor_assoc a b c =
    bit_xor_assoc_below (a + b + c) a b c (omega arith) (omega arith) (omega arith)

bit_xor_lt_pow : (k a b : ℕ) → a < 2 ^ k → b < 2 ^ k → bit_xor a b < 2 ^ k
bit_xor_lt_pow zero zero b h l = omega (arith, zero-bit_xor b)
bit_xor_lt_pow zero (suc a) b h l = absurd (omega arith)
bit_xor_lt_pow (suc k) a b h l = omega (
  arith,
  pow-suc 2 k,
  bit_xor_digit a b,
  bit_xor_lt_pow k (a / 2) (b / 2) (omega (arith, pow-suc 2 k)) (omega (arith, pow-suc 2 k)),
)

-- Exclusive or stays within a byte.
pub bit_xor-byte : (a b : ℕ) → a < 256 → b < 256 → bit_xor a b < 256
bit_xor-byte a b h l = bit_xor_lt_pow 8 a b h l

bit_and-zero_below : (bound x : ℕ) → x ≤ bound → bit_and x 0 ≡ 0
bit_and-zero_below zero (suc x) below = absurd (omega arith)
bit_and-zero_below bound zero below = refl
bit_and-zero_below (suc bound) (suc x) below =
    let halved = bit_and-zero_below bound (suc x / 2) (omega arith) in
    omega (arith, halved, bit_and_digit (suc x) 0)

half_mask : (k : ℕ) → (2 ^ suc k - 1) / 2 ≡ 2 ^ k - 1
half_mask k = omega (arith, pow-suc 2 k, one-le-pow k 2 (omega arith))

mod_double : (a m : ℕ) → 0 < m → a % (2 * m) ≡ a / 2 % m * 2 + a % 2
mod_double a m h =
    ap (λ t. t % (2 * m)) apart
    ∙ mul-add-mod_self_left (2 * m) (a / 2 / m) (a / 2 % m * 2 + a % 2)
    ∙ mod-eq_of_lt (omega (arith, mod-lt (a / 2) h))
  where
    apart : a ≡ 2 * m * (a / 2 / m) + (a / 2 % m * 2 + a % 2)
    apart = omega (arith, div-add-mod (a / 2) m)

odd_mask : (k : ℕ) → (2 ^ suc k - 1) % 2 ≡ 1
odd_mask k = omega (arith, pow-suc 2 k, one-le-pow k 2 (omega arith))

-- `&` with a mask of `k` ones keeps the remainder by `2 ^ k`.
pub bit_and-mask : (k a : ℕ) → bit_and a (2 ^ k - 1) ≡ a % 2 ^ k
bit_and-mask zero a = omega (arith, bit_and-zero_below a a (omega arith))
bit_and-mask (suc k) a =
    digit (bit_and-mask k (a / 2))
    ∙ sym (ap (λ t. a % t) (pow-succ' 2 k) ∙ mod_double a (2 ^ k) (one-le-pow k 2 (omega arith)))
  where
    digit :
        bit_and (a / 2) (2 ^ k - 1) ≡ a / 2 % 2 ^ k
        → bit_and a (2 ^ suc k - 1) ≡ a / 2 % 2 ^ k * 2 + a % 2
    digit ih =
        omega (
          arith,
          ih,
          odd_mask k,
          bit_and_digit a (2 ^ suc k - 1),
          ap (bit_and (a / 2)) (half_mask k),
        )

bit_and-self_below : (n a : ℕ) → a ≤ n → bit_and a a ≡ a
bit_and-self_below n zero h = refl
bit_and-self_below zero (suc a) h = absurd (omega arith)
bit_and-self_below (suc n) (suc a) h =
    omega (arith, bit_and_digit (suc a) (suc a), bit_and-self_below n (suc a / 2) (omega arith))

pow_two_below : (n c : ℕ) → c ≤ n → 0 < c → bit_and c (c - 1) ≡ 0 → (k : ℕ) × (c ≡ 2 ^ k)
pow_two_below zero c h p e = absurd (omega arith)
pow_two_below (suc n) c h p e = elim (dec_lt 0 (c % 2)) [
  | yes odd ↦ (
    0,
    omega
        (arith, bit_and_digit c (c - 1), odd_half odd, bit_and-self_below c (c / 2) (omega arith)),
  )
  | no even ↦
      let (k, q) = pow_two_below n (c / 2) (omega arith) (omega arith) (below even) in
      (suc k, omega (arith, pow-suc 2 k, q))
]
  where
    odd_half : 0 < c % 2 → bit_and (c / 2) ((c - 1) / 2) ≡ bit_and (c / 2) (c / 2)
    odd_half odd = ap (bit_and (c / 2)) (omega arith)

    below : ¬ (0 < c % 2) → bit_and (c / 2) (c / 2 - 1) ≡ 0
    below even =
        let half : (c - 1) / 2 ≡ c / 2 - 1 = omega arith in
        omega (arith, bit_and_digit c (c - 1), ap (bit_and (c / 2)) half)

-- A positive number without a common digit with its predecessor is a power of two.
pub pow_two_of_bit_and : (c : ℕ) → 0 < c → bit_and c (c - 1) ≡ 0 → (k : ℕ) × (c ≡ 2 ^ k)
pow_two_of_bit_and c p e = pow_two_below c c (omega arith) p e

pub bit_and-four : (a : ℕ) → bit_and a 4 ≡ a / 4 % 2 * 4
bit_and-four a = omega (
  arith,
  bit_and_digit a 4,
  bit_and_digit (a / 2) 2,
  bit_and_digit (a / 2 / 2) 1,
  bit_and-zero_below (a / 2 / 2 / 2) (a / 2 / 2 / 2) (omega arith),
)

pub bit_and-eight : (a : ℕ) → bit_and a 8 ≡ a / 8 % 2 * 8
bit_and-eight a = omega (arith, bit_and_digit a 8, bit_and-four (a / 2))

-- A digit of a conjunction is one of both numbers.
pub bit_and-third : (a b : ℕ) → bit_and a b / 4 % 2 ≡ min (a / 4 % 2) (b / 4 % 2)
bit_and-third a b =
    omega (
      arith,
      bit_and_digit a b,
      bit_and_digit (a / 2) (b / 2),
      bit_and_digit (a / 2 / 2) (b / 2 / 2),
    )

pub bit_and-fourth : (a b : ℕ) → bit_and a b / 8 % 2 ≡ min (a / 8 % 2) (b / 8 % 2)
bit_and-fourth a b = omega (arith, bit_and_digit a b, bit_and-third (a / 2) (b / 2))
