-- ===== src/Cli/Progress/Tests.antt =====
-- The progress line of cmd/go-speedtest-cli/main.go, and the small functions of its phases.
use go_speedtest.Prelude.{ℕ, ◌≡◌, refl, ◌≢◌, true, false, none, some, List, [], ◌∷◌}
use go_speedtest.Prelude.Int.{ℤ, pos, ◌+ℤ◌, int64, quot, scale, min_ℤ}
use go_speedtest.Prelude.Instant.{sub_time}
use go_speedtest.Prelude.Fixed.{Fixed, fixed_double}
use go_speedtest.Cli.Stream.{counted, sleep_ctx}
use go_speedtest.Cli.Phase.{warn_if_truncated}
use go_speedtest.Cli.World.{is_terminal}
use go_speedtest.Cli.Progress.{
  selecting, gone, measuring, finished, Event, ticks, stops, meets, wakes, closes, partial, full,
  percent, step_progress, run_progress, start_progress,
}
use go_speedtest.Cli.Progress.Display.{Shown, endgame, run_progress_lem}

-- A phase of ten seconds whose stop function is called just as the printer ticks.
abbrev shown : List (Event ℕ)
shown =
    ticks 2_500_001_000 81
    ∷ stops
    ∷ ticks 10_000_001_000 80
    ∷ meets
    ∷ ticks 10_250_001_000 80
    ∷ closes 79
    ∷ wakes
    ∷ []

start_progress_run :
    start_progress 1000 10_000_000_000 true shown
    ≡ partial (pos 25) 81 ∷ partial (pos 99) 80 ∷ full 79 ∷ []
unfolding start_progress run_progress step_progress percent sub_time scale int64 quot min_ℤ
start_progress_run = refl

run_progress_lem_example :
    let r = run_progress 1000 10_000_000_000 selecting measuring shown in
    Shown r.0.0 r.1
    × (r.0.1 ≡ finished → r.0.0 ≡ gone)
    × ((m : ℕ)
        → r.0.1 ≢ measuring
        → (run_progress 1000 10_000_000_000 r.0.0 r.0.1 (endgame m)).0.1 ≡ finished)
run_progress_lem_example = run_progress_lem 1000 10_000_000_000 shown

abbrev truncate : Fixed → ℤ
truncate none = pos 0
truncate (some a) = quot a 1000

-- 0.8 of ten is eight.
warnings :
    (warn_if_truncated truncate (pos 10) (pos 7) ≡ true)
    × (warn_if_truncated truncate (pos 10) (pos 8) ≡ false)
unfolding warn_if_truncated quot
warnings = (refl, refl)

-- a read of 4096 bytes and one of 904 to the end
counts : counted (pos 0) (4096 ∷ 904 ∷ 0 ∷ []) ≡ pos 5000
unfolding counted int64 ◌+ℤ◌
counts = refl

sleeps : (sleep_ctx 100 200 true ≡ false) × (sleep_ctx 200 100 false ≡ true)
unfolding sleep_ctx
sleeps = (refl, refl)

-- a character device, and a regular file
terminals :
    (is_terminal (some 0x2001b6) ≡ true)
    × (is_terminal (some 0x1a4) ≡ false)
    × (is_terminal none ≡ false)
unfolding is_terminal
terminals = (refl, refl, refl)
