-- ===== src/Measure/Tests.antt =====
-- The meter and the ping statistics of internal/measure/measure.go on a few samples.
use go_speedtest.Prelude.{suc, ◌-◌, ◌≡◌, refl, List, [], ◌∷◌, ◌++◌, some, arith, All, length}
use go_speedtest.Prelude.Int.{ℤ, pos, ◌≤ℤ◌, int64, ◌-ℤ◌}
use go_speedtest.Prelude.Fixed.{Fixed, fixed_double}
use go_speedtest.Measure.{
  Sample, ThroughputMeter, new_throughput_meter, start, stop, new_ping_stats, delta_ms,
}
use go_speedtest.Prelude.Instant.{sub_time}
use go_speedtest.Measure.Counting.{IsBy}
use go_speedtest.Measure.Window.{IsEarly, total_bytes, add_samples, stop_window, stop_in_grace}
use go_speedtest.Measure.Ping.{IsIn, add_pings, deltas, jitter_of, ewma, blend, add_pings_lem}

-- A meter with a grace period of 5, started at 10.
abbrev running : ThroughputMeter Fixed
running = start (new_throughput_meter (some (pos 1060)) (pos 5)) 10

abbrev warm_up : List Sample
warm_up = record { bytes = pos 70; at = 11 } ∷ record { bytes = pos 30; at = 14 } ∷ []

abbrev first_counted : Sample
first_counted = record { bytes = pos 40; at = 16 }

abbrev measured : List Sample
measured = record { bytes = pos 8; at = 17 } ∷ record { bytes = pos 9; at = 19 } ∷ []

warm_up-IsEarly : All (IsEarly 10 (pos 5)) warm_up × (total_bytes warm_up ≡ 100)
unfolding total_bytes sub_time
warm_up-IsEarly = ground arith

measured-IsBy : All (IsBy 20) measured × (total_bytes measured ≡ 17)
unfolding total_bytes
measured-IsBy = ground arith

stop_window_holds :
    let m' = stop (add_samples running (warm_up ++ first_counted ∷ measured)) 20 in
    (m'.bytes ≡ pos (total_bytes measured)) × (m'.elapsed ≡ pos (20 - 16))
stop_window_holds =
    stop_window (some (pos 1060)) (pos 5) 10 20 warm_up measured first_counted (omega arith)
      (omega arith) warm_up-IsEarly.0 (unfold sub_time in ground arith) measured-IsBy.0
      (omega arith) (ground arith) (ground (arith, warm_up-IsEarly.1))
      (ground (arith, measured-IsBy.1))

stop_in_grace_example :
    let m = add_samples running warm_up in (stop m 20 ≡ m) × (m.bytes ≡ pos (total_bytes warm_up))
stop_in_grace_example =
    stop_in_grace (some (pos 1060)) (pos 5) 10 20 warm_up (omega arith) (omega arith)
      warm_up-IsEarly.0 (ground (arith, warm_up-IsEarly.1))

add_pings_lem_example :
    let p =
      add_pings (new_ping_stats {F = Fixed}) (pos 9_000_000 ∷ pos 7_000_000 ∷ pos 8_000_000 ∷ []) in
    All (λ r. p.min ≤ℤ r) (pos 9_000_000 ∷ pos 7_000_000 ∷ pos 8_000_000 ∷ [])
    × IsIn p.min (pos 9_000_000 ∷ pos 7_000_000 ∷ pos 8_000_000 ∷ [])
    × (p.jitter.value ≡ jitter_of (deltas (pos 9_000_000) (pos 7_000_000 ∷ pos 8_000_000 ∷ [])))
    × (p.count ≡ suc (length {A = ℤ} (pos 7_000_000 ∷ pos 8_000_000 ∷ [])))
add_pings_lem_example = add_pings_lem (pos 9_000_000) (pos 7_000_000 ∷ pos 8_000_000 ∷ [])

-- Deltas of 2 ms and 1 ms: 0.8 * 2 + 0.2 * 1.
jitter_test :
    jitter_of {F = Fixed} (deltas (pos 9_000_000) (pos 7_000_000 ∷ pos 8_000_000 ∷ []))
    ≡ some (pos 1800)
unfolding jitter_of deltas ewma blend delta_ms int64 ◌-ℤ◌
jitter_test = refl
