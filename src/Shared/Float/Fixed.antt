-- ===== src/Shared/Float/Fixed.antt =====
-- Numbers in thousandths, which stand for floating point in the tests.
use ultra_display_os.Prelude.{ℕ, ◌*◌, ◌/◌, ltb}
use ultra_display_os.Prelude.Int.{ℤ, pos, ◌+ℤ◌, ◌-ℤ◌, ◌*ℤ◌, ltb_ℤ, pos_part, neg_part}
use ultra_display_os.Shared.Float.{Floats}

abbrev thousandths : ℕ → ℕ → ℕ
thousandths n d = n * 1000 / d

abbrev pub fixed : Floats
fixed = record {
  Double = ℤ;
  Single = ℕ;
  double_lit = λ n d. pos (thousandths n d);
  single_lit = thousandths;
  to_double = λ n. pos (n * 1000);
  to_single = λ n. n * 1000;
  promote = pos;
  double_to_uint64 = λ x. pos_part x / 1000;
  single_to_uint32 = λ x. x / 1000;
  add = ◌+ℤ◌;
  sub = ◌-ℤ◌;
  mul = λ x y. (pos (pos_part (x *ℤ y) / 1000)) -ℤ pos (neg_part (x *ℤ y) / 1000);
  neg = λ x. pos 0 -ℤ x;
  mul_single = λ x y. x * y / 1000;
  div_single = λ x y. x * 1000 / y;
  lt_double = ltb_ℤ;
  lt_single = ltb;
}
