-- ===== src/Cli/Progress.antt =====
-- `startProgress` of cmd/go-speedtest-cli/main.go: the goroutine that shows how far a phase has come,
-- and the stop function, which meets it on an unbuffered channel and then waits until it has closed
-- that channel. A schedule is the list of what happens to the two, in any order.
pub mod Display
mod Tests
use go_speedtest.Prelude.{
  ℕ, Bool, true, false, not, Option, none, some, List, [], ◌∷◌, ◌++◌, if◌then◌else◌,
}
use go_speedtest.Prelude.Int.{ℤ, pos, int64, quot, scale, min_ℤ}
use go_speedtest.Prelude.Instant.{sub_time}

-- Where the goroutine stands: in its `select`, past `<-done`, or returned.
pub data Printer : Type 0 where
  selecting informed gone : Printer

-- Where the caller stands: before its call of the stop function, in the send, in the receive after
-- it, or behind the call.
pub data Caller : Type 0 where
  measuring sending awaiting finished : Caller

-- What happens: a tick is taken by the `select`, where `mbps` returns a value; the caller calls the
-- stop function; the send meets the receive; the goroutine prints its last line and closes the
-- channel; the caller's receive returns.
pub data Event (F : Type 0) : Type 0 where
  ticks : (now : ℕ) → (mbps : F) → Event F
  stops meets wakes : Event F
  closes : (mbps : F) → Event F

-- What is printed: a line that the next one overwrites, or the last one with its 100%.
pub data Line (F : Type 0) : Type 0 where
  partial : (percent : ℤ) → F → Line F
  full : F → Line F

-- `min(int(time.Since(start)*100/total), 99)`, for a positive `total`
unfoldable pub percent : (start total now : ℕ) → ℤ
percent start total now = min_ℤ (quot (int64 (scale (sub_time now start) 100)) total) (pos 99)

module _ {F : Type 0} (start total : ℕ) where
  -- One event: where the two stand then, and what is printed. One that cannot happen where they
  -- stand changes nothing.
  unfoldable pub step_progress : Printer → Caller → Event F → (Printer × Caller) × List (Line F)
  step_progress selecting c (ticks now mbps) =
      ((selecting, c), partial (percent start total now) mbps ∷ [])
  step_progress p measuring stops = ((p, sending), [])
  step_progress selecting sending meets = ((informed, awaiting), [])
  step_progress informed c (closes mbps) = ((gone, c), full mbps ∷ [])
  step_progress gone awaiting wakes = ((gone, finished), [])
  step_progress p c e = ((p, c), [])

  unfoldable pub run_progress :
      Printer → Caller → List (Event F) → (Printer × Caller) × List (Line F)
  run_progress p c [] = ((p, c), [])
  run_progress p c (e ∷ es) =
      let s = step_progress p c e in let r = run_progress s.0.0 s.0.1 es in (r.0, s.1 ++ r.1)

  -- What a phase prints: nothing, where progress is not shown.
  unfoldable pub start_progress : (progress : Bool) → List (Event F) → List (Line F)
  start_progress progress es = if not progress then [] else (run_progress selecting measuring es).1
