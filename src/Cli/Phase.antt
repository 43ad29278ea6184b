-- ===== src/Cli/Phase.antt =====
-- `runDownload` and `runUpload` of cmd/go-speedtest-cli/main.go: streams that share a meter behind a
-- mutex. A schedule is the list of what happens, in the order of the mutex, to any of the streams.
pub mod Transfer
pub mod Windows
pub mod Refused
mod Tests
use go_speedtest.Prelude.{
  ℕ, zero, suc, ◌+◌, Bool, true, false, not, ◌&&◌, ◌||◌, Option, none, some, List, [], ◌∷◌, ◌==◌,
  leb, ltb, if◌then◌else◌,
}
use go_speedtest.Prelude.Int.{ℤ, pos, pos_part, ◌+ℤ◌, int64, eqb_ℤ, ltb_ℤ}
use go_speedtest.Prelude.Double.{Double}
use go_speedtest.Measure.{ThroughputMeter, new_throughput_meter, start, add, stop, mbps}
use go_speedtest.Cli.Stream.{
  Stream, polling, working, backing_off, returned, Event, Progress, step_stream, Download,
  requesting, DownloadEvent, download_once, download_adds, Upload, UploadEvent, upload_once,
  upload_adds,
}

-- The events of a schedule: which stream, when, and what.
pub record Moment (O : Type 0) : Type 0 where
  pub stream : ℕ
  pub now : ℕ
  pub event : Event O

-- The goroutines of a phase by their number, and the meter of its `lockedMeter`.
pub record Phase (R F : Type 0) : Type 0 where
  pub streams : ℕ → Stream R
  pub meter : ThroughputMeter F

-- the meter after `lockedMeter.add`, where the event calls it
abbrev pub locked_add : {F : Type 0} → ThroughputMeter F → Option ℤ → ℕ → ThroughputMeter F
locked_add m none now = m
locked_add m (some n) now = add m n now

-- `lockedMeter.mbps`: what the progress line shows
unfoldable pub locked_mbps : {R F : Type 0} ⦃d : Double F⦄ → Phase R F → F
locked_mbps p = mbps p.meter

-- `warnIfTruncated`: whether it warns; `truncate` is the conversion `time.Duration` of a float.
unfoldable pub warn_if_truncated :
    {F : Type 0} ⦃d : Double F⦄ → (truncate : F → ℤ) → (want got : ℤ) → Bool
warn_if_truncated ⦃d⦄ truncate want got = ltb_ℤ got (truncate (d.mul (d.of_int want) (d.dec 8 1)))

-- What a phase returns: it still waits for a stream, it has failed, or it hands out its meter.
pub data Measured (F : Type 0) : Type 0 where
  waiting failed : Measured F
  measured : ThroughputMeter F → Measured F

abbrev pub has_returned : {R : Type 0} → Stream R → Bool
has_returned returned = true
has_returned s = false

-- `wg.Wait`: whether the streams below `n` have all returned
unfoldable pub all_returned : {R : Type 0} → ℕ → (ℕ → Stream R) → Bool
all_returned zero streams = true
all_returned (suc n) streams = has_returned (streams n) && all_returned n streams

abbrev pub phase_result : {F : Type 0} → (all : Bool) → ThroughputMeter F → Measured F
phase_result all m =
    if not all then waiting else if eqb_ℤ m.bytes (pos 0) then failed else measured m

-- `context.WithTimeout`: the time at which it ends; a timeout that is not positive has ended at once.
abbrev pub deadline_of : ℕ → ℤ → ℕ
deadline_of t total = t + pos_part total

module _ {R O F : Type 0} (begin : R) (once : R → O → Progress R)
    (adds : Stream R → Event O → Option ℤ) where
  unfoldable pub phase_step : (deadline : ℕ) → Phase R F → Moment O → Phase R F
  phase_step deadline p m = record {
    streams = λ i.
        if i == m.stream
        then step_stream begin once deadline m.now (p.streams i) m.event
        else p.streams i;
    meter = locked_add p.meter (adds (p.streams m.stream) m.event) m.now;
  }

  unfoldable pub run_phase : (deadline : ℕ) → Phase R F → List (Moment O) → Phase R F
  run_phase deadline p [] = p
  run_phase deadline p (m ∷ ms) = run_phase deadline (phase_step deadline p m) ms

  -- The phase from its start at `t`, with its grace period and its duration, over a schedule, to the
  -- `Stop` at `e`.
  unfoldable pub run_streams :
      (n : ℤ) (overhead : F) (grace duration : ℤ) (t e : ℕ) → List (Moment O) → Measured F
  run_streams n overhead grace duration t e schedule =
      let p : Phase R F =
        run_phase (deadline_of t (int64 (grace +ℤ duration)))
          (record { streams = λ i. polling; meter = start (new_throughput_meter overhead grace) t })
          schedule in
      phase_result (all_returned (pos_part n) p.streams) (stop p.meter e)

module _ {F : Type 0} where
  -- `runDownload` and `runUpload`; the query of the download requests is in `System.Downloading`.
  unfoldable pub run_download :
      (streams : ℤ) (overhead : F) (grace duration : ℤ) (t e : ℕ)
      → List (Moment DownloadEvent)
      → Measured F
  unfolding run_streams
  run_download = run_streams requesting download_once download_adds

  unfoldable pub run_upload :
      (streams : ℤ) (overhead : F) (grace duration : ℤ) (t e : ℕ)
      → List (Moment UploadEvent)
      → Measured F
  unfolding run_streams
  run_upload = run_streams tt upload_once upload_adds
