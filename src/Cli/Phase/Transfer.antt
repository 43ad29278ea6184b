-- ===== src/Cli/Phase/Transfer.antt =====
-- What the shared meter of cmd/go-speedtest-cli/main.go measures, under every schedule of the
-- streams.
use go_speedtest.Prelude.{
  ℕ, zero, suc, ◌-◌, ◌^◌, ◌≤◌, ◌<◌, ◌≡◌, refl, sym, ap, ◌∙◌, ◌≢◌, ◌⊎◌, inl, inr, Bool, true, false,
  Option, none, some, List, [], ◌∷◌, ◌++◌, ◌==◌, All, arith, if◌then◌else◌, Option-cases,
}
use go_speedtest.Prelude.Int.{ℤ, pos, ◌+ℤ◌, ◌<ℤ◌, ◌≤ℤ◌, int64, pos_part}
use go_speedtest.Prelude.Instant.{sub_time, max_duration}
use go_speedtest.Measure.{Sample, ThroughputMeter, new_throughput_meter, start, add_sample, stop}
use go_speedtest.Measure.Counting.{IsBy}
use go_speedtest.Measure.Window.{total_bytes, IsEarly, add_samples, stop_window}
use go_speedtest.Cli.Stream.{
  Stream, polling, Event, Progress, step_stream, requesting, DownloadEvent, download_once,
  download_adds, UploadEvent, upload_once, upload_adds,
}
use go_speedtest.Cli.Phase.{
  Moment, Measured, Phase, waiting, failed, measured, all_returned, phase_result, deadline_of,
  phase_step, run_phase, run_streams, run_download, run_upload,
}

module _ {R O : Type 0} (begin : R) (once : R → O → Progress R)
    (adds : Stream R → Event O → Option ℤ) where
  abbrev pub moved_on : (deadline : ℕ) → (ℕ → Stream R) → Moment O → ℕ → Stream R
  moved_on deadline streams m i =
      if i == m.stream then step_stream begin once deadline m.now (streams i) m.event else streams i

  abbrev sample_of : Option ℤ → ℕ → List Sample → List Sample
  sample_of none now rest = rest
  sample_of (some n) now rest = record { bytes = n; at = now } ∷ rest

  -- What all streams hand to the meter, in the order of the schedule.
  unfoldable pub transfers : (deadline : ℕ) → (ℕ → Stream R) → List (Moment O) → List Sample
  transfers deadline streams [] = []
  transfers deadline streams (m ∷ ms) =
      sample_of (adds (streams m.stream) m.event) m.now
        (transfers deadline (moved_on deadline streams m) ms)

  -- Whatever the schedule, the meter is that of one list of samples.
  run_phase-meter :
      {F : Type 0} (deadline : ℕ) (p : Phase R F) (ms : List (Moment O))
      → (run_phase begin once adds deadline p ms).meter
        ≡ add_samples p.meter (transfers deadline p.streams ms)
  unfolding run_phase transfers add_samples add_sample phase_step
  run_phase-meter deadline p [] = refl
  run_phase-meter deadline p (m ∷ ms) = elim (Option-cases (adds (p.streams m.stream) m.event)) [
    | inl e ↦
        rw e (run_phase-meter deadline (phase_step begin once adds deadline p m) ms ∙ rw e refl)
    | inr (n, e) ↦
        rw e (run_phase-meter deadline (phase_step begin once adds deadline p m) ms ∙ rw e refl)
  ]

-- The start of a phase's streams.
abbrev pub fresh : {R : Type 0} → ℕ → Stream R
fresh i = polling

phase_result-all :
    {F : Type 0} (all : Bool) (m : ThroughputMeter F)
    → phase_result all m ≢ waiting
    → phase_result all m ≡ phase_result true m
phase_result-all true m h = refl
phase_result-all false m h = absurd (h refl)

phase_result_returned : {F : Type 0} (m : ThroughputMeter F) → phase_result true m ≢ waiting
phase_result_returned m h = ground arith

phase_result-measured :
    {F : Type 0} (all : Bool) (m : ThroughputMeter F) {m' : ThroughputMeter F}
    → phase_result all m ≡ measured m'
    → m'.bytes ≢ pos 0
phase_result-measured true m h = ground arith
phase_result-measured false m h = ground arith

module _ {F : Type 0} where
  -- A phase has failed, or it has measured a positive number of bytes in a time.
  abbrev pub IsWindow : (bytes : ℕ) → (elapsed : ℤ) → Measured F → Type 0
  IsWindow b l r =
      ((b ≡ 0) × (r ≡ failed))
      ⊎ ((0 < b)
          × ((m : ThroughputMeter F) × (r ≡ measured m) × (m.bytes ≡ pos b) × (m.elapsed ≡ l)))

  phase_result-bytes :
      (m : ThroughputMeter F) (b : ℕ) (l : ℤ)
      → m.bytes ≡ pos b
      → m.elapsed ≡ l
      → IsWindow b l (phase_result true m)
  phase_result-bytes m zero l hb hl = inl (refl, rw hb refl)
  phase_result-bytes m (suc b) l hb hl = inr (omega arith, (m, (ground arith), hb, hl))

module _ {R O F : Type 0} (begin : R) (once : R → O → Progress R)
    (adds : Stream R → Event O → Option ℤ) where
  abbrev meter_of : F → ℤ → ℕ → ℕ → List Sample → ThroughputMeter F
  meter_of overhead grace t e ss =
      stop (add_samples (start (new_throughput_meter overhead grace) t) ss) e

  -- A phase that no longer waits reports the meter of its transfers, unless that is empty.
  pub run_streams-transfers :
      (n : ℤ) (overhead : F) (grace duration : ℤ) (t e : ℕ) (ms : List (Moment O))
      → run_streams begin once adds n overhead grace duration t e ms ≢ waiting
      → run_streams begin once adds n overhead grace duration t e ms
        ≡ phase_result true (
            meter_of overhead grace t e
              (transfers begin once adds (deadline_of t (int64 (grace +ℤ duration))) fresh ms))
  unfolding run_streams
  run_streams-transfers n overhead grace duration t e ms h =
      let p : Phase R F =
        run_phase begin once adds (deadline_of t (int64 (grace +ℤ duration)))
          (record { streams = fresh; meter = start (new_throughput_meter overhead grace) t }) ms in
      phase_result-all (all_returned (pos_part n) p.streams) (stop p.meter e) h
      ∙ ap (λ m. phase_result true (stop m e)) (run_phase-meter begin once adds _ _ ms)

  -- A phase waits no longer once its streams have returned.
  run_streams_returned :
      (n : ℤ) (overhead : F) (grace duration : ℤ) (t e : ℕ) (ms : List (Moment O))
      → let m = start (new_throughput_meter overhead grace) t in
        all_returned
            (pos_part n)
            (run_phase begin once adds
              (deadline_of t (int64 (grace +ℤ duration)))
              (record { streams = fresh; meter = m })
              ms).streams
          ≡ true
        → run_streams begin once adds n overhead grace duration t e ms ≢ waiting
  unfolding run_streams
  run_streams_returned n overhead grace duration t e ms h k =
      let p : Phase R F =
        run_phase begin once adds (deadline_of t (int64 (grace +ℤ duration)))
          (record { streams = fresh; meter = start (new_throughput_meter overhead grace) t }) ms in
      phase_result_returned (stop p.meter e) (ap (λ b. phase_result b (stop p.meter e)) (sym h) ∙ k)

  run_streams-measured :
      (n : ℤ) (overhead : F) (grace duration : ℤ) (t e : ℕ) (ms : List (Moment O))
      → {m : ThroughputMeter F}
      → run_streams begin once adds n overhead grace duration t e ms ≡ measured m
      → m.bytes ≢ pos 0
  unfolding run_streams
  run_streams-measured n overhead grace duration t e ms h =
      let p : Phase R F =
        run_phase begin once adds (deadline_of t (int64 (grace +ℤ duration)))
          (record { streams = fresh; meter = start (new_throughput_meter overhead grace) t }) ms in
      phase_result-measured (all_returned (pos_part n) p.streams) (stop p.meter e) h

  -- What a phase comes to that no longer waits: see `run_download_window` and `run_upload_window`.
  pub run_streams-IsWindow :
      (n : ℤ) (overhead : F) (grace duration : ℤ) (t e : ℕ) (ms : List (Moment O))
      → (early late : List Sample) (crossing : Sample)
      → run_streams begin once adds n overhead grace duration t e ms ≢ waiting
      → transfers begin once adds (deadline_of t (int64 (grace +ℤ duration))) fresh ms
        ≡ early ++ crossing ∷ late
      → 0 < t
      → pos 0 <ℤ grace
      → All (IsEarly t grace) early
      → grace ≤ℤ sub_time crossing.at t
      → All (IsBy e) late
      → crossing.at ≤ e
      → e - crossing.at ≤ max_duration
      → total_bytes early < 2 ^ 63
      → total_bytes late < 2 ^ 63
      → IsWindow
          (total_bytes late)
          (pos (e - crossing.at))
          (run_streams begin once adds n overhead grace duration t e ms)
  run_streams-IsWindow n overhead grace duration t e ms early late crossing hw hs ht hg he hc hl hb
        hd be bl =
      let (b, l) = stop_window overhead grace t e early late crossing ht hg he hc hl hb hd be bl in
      rw (run_streams-transfers n overhead grace duration t e ms hw, hs)
        (phase_result-bytes _ (total_bytes late) (pos (e - crossing.at)) b l)

module _ {F : Type 0} where
  pub run_download_returned :
      (n : ℤ) (overhead : F) (grace duration : ℤ) (t e : ℕ) (ms : List (Moment DownloadEvent))
      → let m = start (new_throughput_meter overhead grace) t in
        all_returned
            (pos_part n)
            (run_phase requesting download_once download_adds
              (deadline_of t (int64 (grace +ℤ duration)))
              (record { streams = fresh; meter = m })
              ms).streams
          ≡ true
        → run_download n overhead grace duration t e ms ≢ waiting
  unfolding run_download
  run_download_returned = run_streams_returned requesting download_once download_adds

  pub run_upload_returned :
      (n : ℤ) (overhead : F) (grace duration : ℤ) (t e : ℕ) (ms : List (Moment UploadEvent))
      → let m = start (new_throughput_meter overhead grace) t in
        all_returned
            (pos_part n)
            (run_phase tt upload_once upload_adds
              (deadline_of t (int64 (grace +ℤ duration)))
              (record { streams = fresh; meter = m })
              ms).streams
          ≡ true
        → run_upload n overhead grace duration t e ms ≢ waiting
  unfolding run_upload
  run_upload_returned = run_streams_returned tt upload_once upload_adds

  -- The meter of a phase that has not failed is not empty.
  pub run_download-measured :
      (n : ℤ) (overhead : F) (grace duration : ℤ) (t e : ℕ) (ms : List (Moment DownloadEvent))
      → {m : ThroughputMeter F} → run_download n overhead grace duration t e ms ≡ measured m
      → m.bytes ≢ pos 0
  unfolding run_download
  run_download-measured = run_streams-measured requesting download_once download_adds

  pub run_upload-measured :
      (n : ℤ) (overhead : F) (grace duration : ℤ) (t e : ℕ) (ms : List (Moment UploadEvent))
      → {m : ThroughputMeter F} → run_upload n overhead grace duration t e ms ≡ measured m
      → m.bytes ≢ pos 0
  unfolding run_upload
  run_upload-measured = run_streams-measured tt upload_once upload_adds
