-- ===== src/Metrics.antt =====
-- internal/metrics/metrics.go: the registry of counters and gauges. A map is an association list
-- with one pair for each series, a value an `atomic.Int64`.
pub mod Order
pub mod Exposition
pub mod Series
pub mod Tests
use go_speedtest.Prelude.{
  ◌≡◌, refl, Bool, true, false, Option, none, some, List, [], ◌∷◌, String, str_eq, if◌then◌else◌,
}
use go_speedtest.Prelude.Int.{ℤ, pos, ◌+ℤ◌, int64}

abbrev pub tests_started : String
tests_started = "gospeedtest_tests_started_total"

abbrev pub tests_completed : String
tests_completed = "gospeedtest_tests_completed_total"

abbrev pub bytes_served : String
bytes_served = "gospeedtest_bytes_served_total"

abbrev pub bytes_received : String
bytes_received = "gospeedtest_bytes_received_total"

abbrev pub active_streams : String
active_streams = "gospeedtest_active_streams"

abbrev pub Cells : Type 0
Cells = List (String × ℤ)

pub record Registry : Type 0 where
  pub counters : Cells
  pub gauges : Cells

-- The cell of a series after `f`; a series that is not there starts at 0.
unfoldable pub at_series : (ℤ → ℤ) → String → Cells → Cells
at_series f name [] = (name, f (pos 0)) ∷ []
at_series f name ((n, v) ∷ cells) =
    if str_eq n name then (n, f v) ∷ cells else (n, v) ∷ at_series f name cells

abbrev pub plus : ℤ → ℤ → ℤ
plus delta v = int64 (v +ℤ delta)

-- `Registry.Add`, `Inc`, `Set` and `AddGauge`
unfoldable pub add : Registry → String → ℤ → Registry
add r name delta = record r { counters = at_series (plus delta) name r.counters }

unfoldable pub inc : Registry → String → Registry
unfolding add
inc r name = add r name (pos 1)

unfoldable pub set : Registry → String → ℤ → Registry
set r name v = record r { gauges = at_series (λ _. v) name r.gauges }

unfoldable pub add_gauge : Registry → String → ℤ → Registry
add_gauge r name delta = record r { gauges = at_series (plus delta) name r.gauges }

-- `NewRegistry`
unfoldable pub new_registry : Registry
new_registry = record {
  counters =
      (bytes_served, pos 0)
      ∷ (bytes_received, pos 0)
      ∷ ("gospeedtest_tests_started_total{type=\"download\"}", pos 0)
      ∷ ("gospeedtest_tests_started_total{type=\"upload\"}", pos 0)
      ∷ ("gospeedtest_tests_started_total{type=\"ws\"}", pos 0)
      ∷ ("gospeedtest_tests_completed_total{type=\"download\"}", pos 0)
      ∷ ("gospeedtest_tests_completed_total{type=\"upload\"}", pos 0)
      ∷ ("gospeedtest_tests_completed_total{type=\"ws\"}", pos 0)
      ∷ [];
  gauges = (active_streams, pos 0) ∷ [];
}
