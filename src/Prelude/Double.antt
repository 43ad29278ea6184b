-- ===== src/Prelude/Double.antt =====
-- What the code does with a `float64`, over any type that stands for it.
use Prim.Native.Nat.{ℕ, suc, ◌/◌, ◌%◌}
use mathlib.Core.Bool.{Bool}
use go_speedtest.Prelude.Int.{ℤ, pos, negsuc, sub_ℕ}
use go_speedtest.Prelude.Instant.{second}

-- `dec n k` is the literal n / 10 ^ k, `of_int` the conversion `float64(n)`, and `fmin` the built-in
-- `min` on floats.
pub record Double (F : Type 0) : Type 0 where
  pub dec : ℕ → ℕ → F
  pub of_int : ℤ → F
  pub add : F → F → F
  pub sub : F → F → F
  pub mul : F → F → F
  pub div : F → F → F
  pub abs : F → F
  pub fmin : F → F → F
  pub lt : F → F → Bool
  pub le : F → F → Bool

module _ {F : Type 0} ⦃d : Double F⦄ where
  -- `Duration.Seconds`: the whole seconds and the rest, each converted.
  unfoldable pub seconds : ℤ → F
  seconds (pos n) =
      d.add (d.of_int (pos (n / second))) (d.div (d.of_int (pos (n % second))) (d.dec second 0))
  seconds (negsuc n) =
      d.add (d.of_int (sub_ℕ 0 (suc n / second)))
        (d.div (d.of_int (sub_ℕ 0 (suc n % second))) (d.dec second 0))
