-- ===== src/Handlers/Gate/Traffic/Tests.antt =====
-- Two tests of one client and a third that is refused, interleaved, on a server that allows two.
use go_speedtest.Prelude.{ℕ, ◌≡◌, refl, some, List, [], ◌∷◌, String, String_comparable, arith}
use go_speedtest.Prelude.Int.{pos, ◌≤ℤ◌}
use go_speedtest.Prelude.Fixed.{Fixed, fixed_double}
use go_speedtest.Metrics.{new_registry}
use go_speedtest.Metrics.Series.{value}
use go_speedtest.Handlers.Gate.{returned, panicked}
use go_speedtest.Handlers.Gate.Balance.{streams, running}
use go_speedtest.Handlers.Gate.Traffic.{Event, arrives, moves, counts, Traffic, run_traffic}
use go_speedtest.Handlers.Gate.Traffic.Matching.{streaming, underway}
use go_speedtest.Handlers.Gate.Traffic.Steady.{no_traffic, run_traffic_lem}

abbrev comes : ℕ → Event String
comes now = arrives now "10.0.0.1" "started" "completed"

-- The first test panics in its handler, the second is still in its own at the end.
abbrev events : List (Event String)
events =
    comes 1
    ∷ moves 0 returned
    ∷ comes 2
    ∷ moves 0 returned
    ∷ comes 3
    ∷ moves 1 returned
    ∷ counts "bytes" (pos 5)
    ∷ moves 1 returned
    ∷ moves 0 panicked
    ∷ moves 0 panicked
    ∷ moves 0 panicked
    ∷ []

abbrev busy : Traffic String Fixed
busy = run_traffic (no_traffic (pos 2) (some (pos 0)) (pos 0) new_registry) events

nothing_runs : streams new_registry ≡ pos 0
unfolding new_registry value
nothing_runs = refl

run_traffic_lem_example :
    (streams busy.world.metrics ≡ pos (streaming busy.tests))
    × (running "10.0.0.1" busy.world.limiter ≡ underway "10.0.0.1" busy.tests)
    × (pos (underway "10.0.0.1" busy.tests) ≤ℤ pos 2)
run_traffic_lem_example =
    run_traffic_lem (pos 2) (some (pos 0)) (pos 0) new_registry events "10.0.0.1" (omega arith)
      nothing_runs (omega arith)
