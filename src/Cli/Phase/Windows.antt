-- ===== src/Cli/Phase/Windows.antt =====
-- What the download and the upload phase of cmd/go-speedtest-cli/main.go report after the grace
-- period, under every schedule of the streams.
use go_speedtest.Prelude.{ℕ, ◌-◌, ◌^◌, ◌≤◌, ◌<◌, ◌≡◌, ◌≢◌, ◌⊎◌, List, ◌∷◌, ◌++◌, All}
use go_speedtest.Prelude.Int.{ℤ, pos, ◌+ℤ◌, ◌<ℤ◌, ◌≤ℤ◌, int64}
use go_speedtest.Prelude.Instant.{sub_time, max_duration}
use go_speedtest.Measure.{Sample, ThroughputMeter}
use go_speedtest.Measure.Counting.{IsBy}
use go_speedtest.Measure.Window.{total_bytes, IsEarly}
use go_speedtest.Cli.Stream.{
  requesting, DownloadEvent, download_once, download_adds, UploadEvent, upload_once, upload_adds,
}
use go_speedtest.Cli.Phase.{
  Moment, waiting, failed, measured, deadline_of, run_download, run_upload,
}
use go_speedtest.Cli.Phase.Transfer.{transfers, fresh, run_streams-IsWindow}

module _ {F : Type 0} where
  pub run_download_window :
      (n : ℤ) (overhead : F) (grace duration : ℤ) (t e : ℕ) (ms : List (Moment DownloadEvent))
      → (early late : List Sample) (crossing : Sample)
      → run_download n overhead grace duration t e ms ≢ waiting
      → transfers requesting download_once download_adds
          (deadline_of t (int64 (grace +ℤ duration)))
          fresh
          ms
        ≡ early ++ crossing ∷ late
      → 0 < t
      → pos 0 <ℤ grace
      → All (IsEarly t grace) early
      → grace ≤ℤ sub_time crossing.at t
      → All (IsBy e) late
      → crossing.at ≤ e
      → e - crossing.at ≤ max_duration
      → total_bytes early < 2 ^ 63
      → total_bytes late < 2 ^ 63
      → ((total_bytes late ≡ 0) × (run_download n overhead grace duration t e ms ≡ failed))
        ⊎ ((0 < total_bytes late)
            × ((m : ThroughputMeter F) × (run_download n overhead grace duration t e ms
                  ≡ measured m)
                × (m.bytes ≡ pos (total_bytes late))
                × (m.elapsed ≡ pos (e - crossing.at))))
  unfolding run_download
  run_download_window = run_streams-IsWindow requesting download_once download_adds

  pub run_upload_window :
      (n : ℤ) (overhead : F) (grace duration : ℤ) (t e : ℕ) (ms : List (Moment UploadEvent))
      → (early late : List Sample) (crossing : Sample)
      → run_upload n overhead grace duration t e ms ≢ waiting
      → transfers tt upload_once upload_adds (deadline_of t (int64 (grace +ℤ duration))) fresh ms
        ≡ early ++ crossing ∷ late
      → 0 < t
      → pos 0 <ℤ grace
      → All (IsEarly t grace) early
      → grace ≤ℤ sub_time crossing.at t
      → All (IsBy e) late
      → crossing.at ≤ e
      → e - crossing.at ≤ max_duration
      → total_bytes early < 2 ^ 63
      → total_bytes late < 2 ^ 63
      → ((total_bytes late ≡ 0) × (run_upload n overhead grace duration t e ms ≡ failed))
        ⊎ ((0 < total_bytes late)
            × ((m : ThroughputMeter F) × (run_upload n overhead grace duration t e ms ≡ measured m)
                × (m.bytes ≡ pos (total_bytes late))
                × (m.elapsed ≡ pos (e - crossing.at))))
  unfolding run_upload
  run_upload_window = run_streams-IsWindow tt upload_once upload_adds
