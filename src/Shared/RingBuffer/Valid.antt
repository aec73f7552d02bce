-- ===== src/Shared/RingBuffer/Valid.antt =====
-- The representation invariant of the ring buffer, and what the constructor settles on.
use Prim.Native.Nat.{bit_and}
use native.Mathlib.Nat.{pow-suc, one-le-pow, pow-le-pow_right}
use native.Mathlib.Decide.{dec_lt}
use ultra_display_os.Prelude.{
  ℕ, zero, suc, ◌+◌, ◌-◌, ◌*◌, ◌%◌, ◌^◌, ◌≤◌, ◌<◌, ◌≡◌, refl, sym, ap, ◌∙◌, ◌⊎◌, inl, inr, false,
  some, arith, length, lt→ltb, not_lt→ltb, Bool-cases, ◌==◌, length-replicate, length-set,
}
use ultra_display_os.Prelude.Bits.{bit_and-mask, pow_two_of_bit_and}
use ultra_display_os.Shared.RingBuffer.{
  RingBuffer, round_up, actual_capacity, create, next_index, try_push, try_pop, push_overwrite,
}

-- A power of two that a 64-bit index can run past.
pub record IsCapacity (c : ℕ) : Type 0 where
  pub exponent : ℕ
  pub is_pow : c ≡ 2 ^ exponent
  pub small : c ≤ 2 ^ 63

pub IsCapacity-pos : {c : ℕ} → IsCapacity c → 0 < c
IsCapacity-pos v = omega (arith, one-le-pow v.exponent 2 (omega arith))

pub record IsValid {ℓ} {A : Type ℓ} (r : RingBuffer A) : Type ℓ where
  pub width : IsCapacity r.capacity
  pub masked : r.mask ≡ r.capacity - 1
  pub stored : length r.buffer ≡ r.capacity
  pub head_in : r.head < r.capacity
  pub tail_in : r.tail < r.capacity

round_up_pow :
    (fuel capacity k : ℕ)
    → capacity ≤ 2 ^ 63
    → k + fuel ≡ 65
    → (2 ^ k < 2 * capacity ⊎ (2 ^ k ≡ 1))
    → 2 ^ k ≤ 2 ^ 63
    → (c : ℕ) × (round_up fuel capacity (2 ^ k) ≡ some c)
      × IsCapacity c
      × (capacity ≤ c)
      × (c < 2 * capacity ⊎ (c ≡ 1))
unfolding round_up
round_up_pow zero capacity k h e b s =
    let at_end : k ≡ 65 = omega arith in absurd (omega (arith, ap (λ (t : ℕ). 2 ^ t) at_end))
round_up_pow (suc fuel) capacity k h e b s = elim (dec_lt (2 ^ k) capacity) [
  | yes p ↦
      rw (lt→ltb _ _ p, doubled p)
        (round_up_pow fuel capacity (suc k) h (omega arith) (inl (omega (arith, pow-suc 2 k)))
          (next_small p))
  | no p ↦
      rw (not_lt→ltb _ _ p)
        (2 ^ k, refl, record { exponent = k; is_pow = refl; small = s }, omega arith, b)
]
  where
    doubled : 2 ^ k < capacity → 2 ^ k * 2 % 2 ^ 64 ≡ 2 ^ suc k
    doubled p = omega (arith, pow-suc 2 k)

    next_small : 2 ^ k < capacity → 2 ^ suc k ≤ 2 ^ 63
    next_small p = elim (dec_lt k 63) [
      | yes q ↦ pow-le-pow_right (omega arith) q
      | no q ↦
          absurd
            (omega (arith, pow-le-pow_right {n = 2} (omega arith) {i = 63} {j = k} (omega arith)))
    ]

suc_ne_zero : (n : ℕ) → (suc n == 0) ≡ false
suc_ne_zero n = ground arith

-- Up to 2 ^ 63 the constructor's loop ends, on the least power of two that is at least the capacity
-- asked for (1 if that is 0).
pub actual_capacity_lem :
    (capacity : ℕ)
    → capacity ≤ 2 ^ 63
    → (c : ℕ) × (actual_capacity capacity ≡ some c)
      × IsCapacity c
      × (capacity ≤ c)
      × (c < 2 * capacity ⊎ (c ≡ 1))
unfolding actual_capacity
actual_capacity_lem zero h = round_up_pow 65 0 0 h refl (inr refl) (omega arith)
actual_capacity_lem (suc n) h = elim (Bool-cases (bit_and (suc n) (suc n - 1) == 0)) [
  | inl e ↦
      let (k, q) = pow_two_of_bit_and (suc n) (omega arith) (ground arith) in
      rw (suc_ne_zero n, e)
        (suc n, refl, record { exponent = k; is_pow = q; small = h }, omega arith, omega arith)
  | inr e ↦ rw (suc_ne_zero n, e) (round_up_pow 65 (suc n) 0 h refl (inr refl) (omega arith))
]

module _ {ℓ} {A : Type ℓ} where
  -- The mask takes an index round the ring.
  pub next_index_lem :
      (r : RingBuffer A) (i : ℕ)
      → IsValid r
      → i < r.capacity
      → next_index r.mask i ≡ (i + 1) % r.capacity
  unfolding next_index
  next_index_lem r i v h =
      ap (bit_and ((i + 1) % 2 ^ 64)) (v.masked ∙ ap (λ c. c - 1) v.width.is_pow)
      ∙ bit_and-mask v.width.exponent ((i + 1) % 2 ^ 64)
      ∙ ap (λ c. (i + 1) % 2 ^ 64 % c) (sym v.width.is_pow)
      ∙ ap (λ n. n % r.capacity) small_index
    where
      small_index : (i + 1) % 2 ^ 64 ≡ i + 1
      small_index = let s = v.width.small in omega arith

  pub next_index-lt :
      (r : RingBuffer A) (i : ℕ) → IsValid r → i < r.capacity → next_index r.mask i < r.capacity
  next_index-lt r i v h = omega (arith, next_index_lem r i v h)

  pub create-IsValid : (fill : A) (c : ℕ) → IsCapacity c → IsValid (create fill c)
  unfolding create
  create-IsValid fill c w = record {
    width = w;
    masked = refl;
    stored = length-replicate c fill;
    head_in = IsCapacity-pos w;
    tail_in = IsCapacity-pos w;
  }

  pub try_push-IsValid : (r : RingBuffer A) (x : A) → IsValid r → IsValid (try_push r x).1
  unfolding try_push
  try_push-IsValid r x v =
      ground (arith, next_index-lt r r.head v v.head_in, length-set r.buffer r.head x)

  pub try_pop-IsValid : (r : RingBuffer A) → IsValid r → IsValid (try_pop r).2
  unfolding try_pop
  try_pop-IsValid r v = ground (arith, next_index-lt r r.tail v v.tail_in)

  pub push_overwrite-IsValid : (r : RingBuffer A) (x : A) → IsValid r → IsValid (push_overwrite r x)
  unfolding push_overwrite
  push_overwrite-IsValid r x v = ground (
    arith,
    next_index-lt r r.head v v.head_in,
    next_index-lt r r.tail v v.tail_in,
    length-set r.buffer r.head x,
  )
