-- ===== src/Handlers/Gate.antt =====
-- `testMW` of internal/handlers/handlers.go: admission by the limiter, and the metrics of a test.
pub mod Balance
pub mod Served
pub mod Traffic
use go_speedtest.Prelude.{
  ℕ, suc, ◌+◌, ◌^◌, ◌≤◌, ◌<◌, ◌≡◌, refl, ◌≢◌, sym, ap, ◌∙◌, Bool, true, false, not, Option, none,
  some, List, [], ◌∷◌, String, str_eq, arith, if◌then◌else◌, Comparable, get_elem?, Bool-cases,
  Option-cases,
}
use go_speedtest.Prelude.Int.{ℤ, pos, negsuc, ◌+ℤ◌, int64, int64-add}
use go_speedtest.Prelude.Double.{Double}
use go_speedtest.Metrics.{Registry, inc, add_gauge, active_streams}
use go_speedtest.Metrics.Series.{value}
use go_speedtest.RateLimit.{
  AnyLimiter, Limiter, Ticket, refused, free, held, acquire_any, release_any,
}

pub record World (IP F : Type 0) : Type 0 where
  pub limiter : AnyLimiter IP F
  pub metrics : Registry

-- How the wrapped handler ends: it may panic, and the deferred calls run all the same.
pub data Ending : Type 0 where
  returned panicked : Ending

module _ {IP F : Type 0} ⦃c : Comparable IP⦄ ⦃d : Double F⦄ where
  -- the deferred calls, last in first out: the gauge, then the release function
  pub deferred : Ticket → World IP F → World IP F
  deferred t w = record {
    limiter = release_any w.limiter t;
    metrics = add_gauge w.metrics active_streams (negsuc 0);
  }

  -- what follows the wrapped handler
  pub conclude : (completed : String) → Ticket → World IP F × Ending → World IP F
  unfolding deferred
  conclude completed t (w, returned) = deferred t (record w { metrics = inc w.metrics completed })
  conclude completed t (w, panicked) = deferred t w

  -- before the wrapped handler
  pub begin : (started : String) → World IP F → World IP F
  begin started w = record w { metrics = add_gauge (inc w.metrics started) active_streams (pos 1) }

  -- An admitted request
  pub admitted :
      (started completed : String) (next : World IP F → World IP F × Ending)
      → Ticket
      → World IP F
      → World IP F × Option ℕ
  unfolding conclude begin
  admitted started completed next refused w = (w, some 429)
  admitted started completed next t w = (conclude completed t (next (begin started w)), none)

  -- `started` and `completed` are the series of the test's type; the status is that of a refusal.
  pub test_mw :
      (started completed : String) (next : World IP F → World IP F × Ending)
      → World IP F
      → ℕ
      → IP
      → World IP F × Option ℕ
  unfolding admitted
  test_mw started completed next w now ip =
      let (l, t) = acquire_any w.limiter now ip in
      admitted started completed next t (record w { limiter = l })
