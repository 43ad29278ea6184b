-- ===== src/Prelude/Fixed.antt =====
-- A number type with an exact `Double` interface on which the models run in tests: thousandths, with
-- `none` for NaN.
use Prim.Native.Nat.{◌+◌, ◌*◌, ◌/◌, ◌^◌}
use mathlib.Core.Bool.{Bool, false, ◌&&◌}
use mathlib.Core.Option.{Option, none, some}
use go_speedtest.Prelude.Tests.{◌==◌, if◌then◌else◌}
use go_speedtest.Prelude.Int.{ℤ, pos, pos_part, neg_part, sub_ℕ, ltb_ℤ, leb_ℤ}
use go_speedtest.Prelude.Double.{Double}

abbrev pub Fixed : Type 0
Fixed = Option ℤ

abbrev pub lift : (ℤ → ℤ → ℤ) → Fixed → Fixed → Fixed
lift f (some a) (some b) = some (f a b)
lift f _ _ = none

abbrev pub compare_by : (ℤ → ℤ → Bool) → Fixed → Fixed → Bool
compare_by f (some a) (some b) = f a b
compare_by f _ _ = false

abbrev pub scaled : ℤ → ℤ
scaled a = sub_ℕ (pos_part a * 1000) (neg_part a * 1000)

abbrev pub times : ℤ → ℤ → ℤ
times a b =
    sub_ℕ ((pos_part a * pos_part b + neg_part a * neg_part b) / 1000)
      ((pos_part a * neg_part b + neg_part a * pos_part b) / 1000)

-- Only one part of an integer is not 0, and n / 0 is 0.
abbrev pub over : ℤ → ℤ → ℤ
over a b =
    sub_ℕ (pos_part a * 1000 / pos_part b + neg_part a * 1000 / neg_part b)
      (pos_part a * 1000 / neg_part b + neg_part a * 1000 / pos_part b)

abbrev pub divide : Fixed → Fixed → Fixed
divide a (some b) = if (pos_part b == 0) && (neg_part b == 0) then none else lift over a (some b)
divide a none = none

abbrev pub magnitude : Fixed → Fixed
magnitude (some a) = some (pos (pos_part a + neg_part a))
magnitude none = none

instance abbrev pub fixed_double : Double Fixed
fixed_double = record {
  dec = λ n k. some (pos (n * 1000 / 10 ^ k));
  of_int = λ a. some (scaled a);
  add = lift (λ a b. sub_ℕ (pos_part a + pos_part b) (neg_part a + neg_part b));
  sub = lift (λ a b. sub_ℕ (pos_part a + neg_part b) (neg_part a + pos_part b));
  mul = lift times;
  div = divide;
  abs = magnitude;
  fmin = lift (λ a b. if ltb_ℤ b a then b else a);
  lt = compare_by ltb_ℤ;
  le = compare_by leb_ℤ;
}
