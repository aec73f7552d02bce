-- ===== src/Shared/RingBuffer.antt =====
-- shared/util/ring_buffer.hpp: the ring buffer of one producer and one consumer, each call whole.
pub mod Valid
pub mod Queue
pub mod Fifo
pub mod Run
mod Tests
use Prim.Native.Nat.{bit_and}
use ultra_display_os.Prelude.{
  ℕ, zero, suc, ◌+◌, ◌-◌, ◌*◌, ◌%◌, ◌^◌, Bool, true, false, not, ◌||◌, List, Option, none, some,
  ltb, leb, ◌==◌, if◌then◌else◌, get_elem?, set, replicate,
}

pub record RingBuffer {ℓ} (A : Type ℓ) : Type ℓ where
  pub capacity : ℕ
  pub mask : ℕ
  pub buffer : List A
  pub head : ℕ
  pub tail : ℕ

-- `while (capacity_ < capacity) capacity_ <<= 1;` on a 64-bit `size_t`; `none`: out of fuel.
round_up : ℕ → ℕ → ℕ → Option ℕ
round_up zero capacity c = none
round_up (suc fuel) capacity c =
    let rest = round_up fuel capacity (c * 2 % 2 ^ 64) in if ltb c capacity then rest else some c

-- The capacity that the constructor settles on. 64 doublings are all that a `size_t` admits.
pub actual_capacity : ℕ → Option ℕ
unfolding round_up
actual_capacity capacity =
    if capacity == 0 || not (bit_and capacity (capacity - 1) == 0)
    then round_up 65 capacity 1
    else some capacity

-- `(index + 1) & mask_`
pub next_index : ℕ → ℕ → ℕ
next_index mask index = bit_and ((index + 1) % 2 ^ 64) mask

module _ {ℓ} {A : Type ℓ} where
  -- The constructor, for the capacity settled on; `fill` is the value-initialised element.
  pub create : A → ℕ → RingBuffer A
  create fill c = record {
    capacity = c;
    mask = c - 1;
    buffer = replicate c fill;
    head = 0;
    tail = 0;
  }

  pub try_push : RingBuffer A → A → Bool × RingBuffer A
  try_push r item =
      let next_head = next_index r.mask r.head in
      if next_head == r.tail
      then (false, r)
      else (true, record r { buffer = set r.buffer r.head item; head = next_head })

  -- The option is what `item` receives.
  pub try_pop : RingBuffer A → Bool × Option A × RingBuffer A
  try_pop r =
      if r.tail == r.head
      then (false, none, r)
      else (true, get_elem? r.buffer r.tail, record r { tail = next_index r.mask r.tail })

  pub push_overwrite : RingBuffer A → A → RingBuffer A
  push_overwrite r item =
      let next_head = next_index r.mask r.head in
      let pushed = record r { buffer = set r.buffer r.head item; head = next_head } in
      if next_head == pushed.tail
      then record pushed { tail = next_index pushed.mask pushed.tail }
      else pushed

  pub size : RingBuffer A → ℕ
  size r = if leb r.tail r.head then r.head - r.tail else r.capacity - r.tail + r.head
