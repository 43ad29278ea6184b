-- ===== src/Prelude/Instant.antt =====
-- `time.Time` and `time.Duration`: an instant is the nanoseconds since Go's zero time, and a
-- duration is a signed number of nanoseconds.
use Prim.Native.Nat.{ℕ, ◌-◌, ◌^◌, ◌≤◌, min}
use mathlib.Core.Path.{◌≡◌}
use go_speedtest.Prelude.Tests.{leb, if◌then◌else◌}
use go_speedtest.Prelude.Int.{ℤ, pos, negsuc, ◌≤ℤ◌}
use native.Mathlib.Omega.{arith}

abbrev pub millisecond : ℕ
millisecond = 1_000_000

abbrev pub second : ℕ
second = 1_000_000_000

-- The largest `time.Duration`.
abbrev pub max_duration : ℕ
max_duration = 2 ^ 63 - 1

-- `t.Sub(u)`, which saturates at the ends of `time.Duration`.
unfoldable pub sub_time : ℕ → ℕ → ℤ
sub_time t u =
    if leb u t then pos (min (t - u) max_duration) else negsuc (min (u - t - 1) max_duration)

-- Saturation only shortens a difference.
pub sub_time-le : (t u e : ℕ) → t ≤ e → sub_time t u ≤ℤ pos (e - u)
unfolding sub_time
sub_time-le t u e h = ground arith

pub sub_time_self : (t : ℕ) → sub_time t t ≡ pos 0
unfolding sub_time
sub_time_self t = ground arith

-- Below 292 years a difference is exact.
pub sub_time-pos : (t u : ℕ) → u ≤ t → t - u ≤ max_duration → sub_time t u ≡ pos (t - u)
unfolding sub_time
sub_time-pos t u h k = ground arith
