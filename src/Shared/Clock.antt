-- ===== src/Shared/Clock.antt =====
-- shared/util/clock.hpp: the offset between two clocks. A Timestamp is a uint64_t, and differences of
-- timestamps wrap; a Duration is an int64_t.
pub mod Offset
pub mod Sync
mod Tests
use ultra_display_os.Prelude.{
  ℕ, zero, suc, ◌+◌, ◌-◌, ◌*◌, ◌/◌, ◌%◌, ◌^◌, Bool, true, false, ltb, if◌then◌else◌,
}
use ultra_display_os.Prelude.Int.{ℤ, pos, negsuc, ◌+ℤ◌, ◌*ℤ◌}

abbrev pub word : ℕ
word = 2 ^ 64

-- a + b, a - b on uint64_t.
abbrev pub add64 : ℕ → ℕ → ℕ
add64 a b = (a + b) % word

abbrev pub sub64 : ℕ → ℕ → ℕ
sub64 a b = (a + word - b) % word

-- A uint64_t converted to int64_t, and back.
abbrev pub to_int64 : ℕ → ℤ
to_int64 n = if ltb n (2 ^ 63) then pos n else negsuc (word - n - 1)

abbrev pub to_uint64 : ℤ → ℕ
to_uint64 (pos n) = n % word
to_uint64 (negsuc n) = (word - 1 - n % word) % word

-- Division by a positive number on int64_t cuts towards zero.
abbrev neg_of : ℕ → ℤ
neg_of zero = pos zero
neg_of (suc n) = negsuc n

abbrev pub div_int : ℤ → ℕ → ℤ
div_int (pos n) d = pos (n / d)
div_int (negsuc n) d = neg_of ((n + 1) / d)

pub record ClockSync : Type 0 where
  pub initialized : Bool
  pub smoothed_rtt : ℤ
  pub offset : ℤ

abbrev pub new : ClockSync
new = record { initialized = false; smoothed_rtt = pos 0; offset = pos 0 }

-- `(t3 - t0) - (t2 - t1)`
pub round_trip : ℕ → ℕ → ℕ → ℕ → ℤ
round_trip t0 t1 t2 t3 = to_int64 (sub64 (sub64 t3 t0) (sub64 t2 t1))

-- `((t1 - t0) + (t2 - t3)) / 2`, the division on uint64_t.
pub measured_offset : ℕ → ℕ → ℕ → ℕ → ℤ
measured_offset t0 t1 t2 t3 = to_int64 (add64 (sub64 t1 t0) (sub64 t2 t3) / 2)

-- `(old * 7 + new) / 8`. Overflow of int64_t is undefined; `Offset` bounds the values.
pub smooth : ℤ → ℤ → ℤ
smooth old sample = div_int (old *ℤ pos 7 +ℤ sample) 8

pub update : ClockSync → ℕ → ℕ → ℕ → ℕ → ClockSync
unfolding round_trip measured_offset smooth
update c t0 t1 t2 t3 =
    let rtt = round_trip t0 t1 t2 t3 in
    let offset = measured_offset t0 t1 t2 t3 in
    if c.initialized
    then record c { smoothed_rtt = smooth c.smoothed_rtt rtt; offset = smooth c.offset offset }
    else record { initialized = true; smoothed_rtt = rtt; offset = offset }

-- `local + offset_` and `remote - offset_`: the offset becomes unsigned.
pub local_to_remote : ClockSync → ℕ → ℕ
local_to_remote c time = add64 time (to_uint64 c.offset)

pub remote_to_local : ClockSync → ℕ → ℕ
remote_to_local c time = sub64 time (to_uint64 c.offset)
