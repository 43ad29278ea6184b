-- ===== src/Cli/Phase/Tests.antt =====
-- A stream of the download phase of cmd/go-speedtest-cli/main.go, one that the server refuses, and
-- uploads that it takes and refuses.
use go_speedtest.Prelude.{
  ℕ, ◌≤◌, ◌<◌, ◌≡◌, refl, ◌≢◌, ◌⊎◌, true, false, some, List, [], ◌∷◌, ◌++◌, arith,
}
use go_speedtest.Prelude.Int.{pos, ◌+ℤ◌, int64}
use go_speedtest.Prelude.Instant.{sub_time}
use go_speedtest.Prelude.Fixed.{Fixed, fixed_double}
use go_speedtest.Measure.{Sample, ThroughputMeter}
use go_speedtest.Measure.Window.{total_bytes}
use go_speedtest.Cli.Stream.{
  Event, polls, goes, wakes, working, returned, requesting, reading, step_stream, download_once,
  download_adds, DownloadEvent, no_response, responds, reads, more, eof, broken, UploadEvent,
  upload_once, upload_adds, counted, count_read,
}
use go_speedtest.Cli.Stream.Ending.{DownloadStep, run_stream, moved, begun, moves, run_stream_ends}
use go_speedtest.Cli.Phase.{
  Moment, failed, measured, all_returned, phase_step, run_phase, run_download, run_upload, waiting,
}
use go_speedtest.Cli.Phase.Transfer.{transfers, fresh, run_download_returned, run_upload_returned}
use go_speedtest.Cli.Phase.Windows.{run_download_window, run_upload_window}
use go_speedtest.Cli.Phase.Refused.{run_upload_refused}

-- The context ends at 1110; the read under way goes on, its error is the end.
abbrev last_events : List DownloadStep
last_events = (1120, goes (reads 5 more)) ∷ (1130, goes (reads 0 broken)) ∷ (1140, polls) ∷ []

run_stream_ends_example :
    (begun 1110 (working reading) last_events ≡ 0)
    × (moved 1110 (working reading) last_events ≤ 3)
    × ((run_stream 1110 (working reading) last_events ≡ returned)
        ⊎ ((e : Event DownloadEvent) × (moves (run_stream 1110 (working reading) last_events) e
              ≡ true)))
run_stream_ends_example =
    run_stream_ends 1110 (working reading) last_events
      (omega arith, (omega arith, (omega arith, tt)))

abbrev at : ℕ → ℕ → Event DownloadEvent → Moment DownloadEvent
at now stream event = record { stream = stream; now = now; event = event }

-- Stream 0 downloads from 1000 on; stream 1 is refused and backs off.
abbrev schedule : List (Moment DownloadEvent)
schedule =
    at 1001 0 polls
    ∷ at 1001 1 polls
    ∷ at 1002 0 (goes (responds 200))
    ∷ at 1003 1 (goes (responds 429))
    ∷ at 1005 0 (goes (reads 100 more))
    ∷ at 1020 0 (goes (reads 50 more))
    ∷ at 1050 0 (goes (reads 30 more))
    ∷ at 1060 0 (goes (reads 20 eof))
    ∷ at 1100 0 polls
    ∷ at 1110 1 (wakes false)
    ∷ at 1115 0 (goes no_response)
    ∷ []

abbrev early : List Sample
early = record { bytes = pos 100; at = 1005 } ∷ []

abbrev late : List Sample
late = record { bytes = pos 30; at = 1050 } ∷ record { bytes = pos 20; at = 1060 } ∷ []

abbrev crossing : Sample
crossing = record { bytes = pos 50; at = 1020 }

abbrev overhead : Fixed
overhead = some (pos 1060)

phase_over : run_download (pos 2) overhead (pos 10) (pos 100) 1000 1120 schedule ≢ waiting
unfolding run_phase phase_step all_returned step_stream download_once int64 ◌+ℤ◌
phase_over = run_download_returned (pos 2) overhead (pos 10) (pos 100) 1000 1120 schedule refl

read_by_streams :
    transfers requesting download_once download_adds 1110 fresh schedule ≡ early ++ crossing ∷ late
unfolding transfers download_adds step_stream download_once
read_by_streams = refl

run_download_window_example :
    ((total_bytes late ≡ 0)
      × (run_download (pos 2) overhead (pos 10) (pos 100) 1000 1120 schedule ≡ failed))
    ⊎ ((0 < total_bytes late)
        × ((m : ThroughputMeter Fixed) × (run_download
                (pos 2)
                overhead
                (pos 10)
                (pos 100)
                1000
                1120
                schedule
              ≡ measured m)
            × (m.bytes ≡ pos (total_bytes late))
            × (m.elapsed ≡ pos 100)))
unfolding total_bytes sub_time int64 ◌+ℤ◌
run_download_window_example =
    run_download_window (pos 2) overhead (pos 10) (pos 100) 1000 1120 schedule early late crossing
      phase_over read_by_streams (omega arith) (omega arith) ((omega arith, omega arith), tt)
      (omega arith) ((omega arith, omega arith), ((omega arith, omega arith), tt)) (omega arith)
      (omega arith) (omega arith) (omega arith)

-- Both uploads are answered with 429 after all their bytes.
abbrev refused : List (Moment UploadEvent)
refused =
    record { stream = 0; now = 1001; event = polls }
    ∷ record { stream = 0; now = 1040; event = goes (responds 429 (4000 ∷ 96 ∷ [])) }
    ∷ record { stream = 0; now = 1050; event = wakes true }
    ∷ record { stream = 0; now = 1051; event = polls }
    ∷ record { stream = 0; now = 1110; event = goes (responds 429 (4000 ∷ 96 ∷ [])) }
    ∷ []

uploads_over : run_upload (pos 1) overhead (pos 10) (pos 100) 1000 1120 refused ≢ waiting
unfolding run_phase phase_step all_returned step_stream upload_once int64 ◌+ℤ◌
uploads_over = run_upload_returned (pos 1) overhead (pos 10) (pos 100) 1000 1120 refused refl

run_upload-refused_holds : run_upload (pos 1) overhead (pos 10) (pos 100) 1000 1120 refused ≡ failed
run_upload-refused_holds =
    run_upload_refused (pos 1) overhead (pos 10) (pos 100) 1000 1120 refused
      (tt, (omega arith, (tt, (tt, (omega arith, tt))))) uploads_over

abbrev up_at : ℕ → Event UploadEvent → Moment UploadEvent
up_at now event = record { stream = 0; now = now; event = event }

-- Four uploads of one stream from 1000 on, the last of which is answered with 429.
abbrev uploads : List (Moment UploadEvent)
uploads =
    up_at 1001 polls
    ∷ up_at 1005 (goes (responds 200 (100 ∷ [])))
    ∷ up_at 1006 polls
    ∷ up_at 1020 (goes (responds 200 (40 ∷ 10 ∷ [])))
    ∷ up_at 1021 polls
    ∷ up_at 1050 (goes (responds 200 (30 ∷ [])))
    ∷ up_at 1051 polls
    ∷ up_at 1060 (goes (responds 429 (20 ∷ [])))
    ∷ up_at 1080 (wakes true)
    ∷ up_at 1115 polls
    ∷ []

abbrev uploaded : List Sample
uploaded = record { bytes = pos 30; at = 1050 } ∷ []

one_upload_over : run_upload (pos 1) overhead (pos 10) (pos 100) 1000 1120 uploads ≢ waiting
unfolding run_phase phase_step all_returned step_stream upload_once int64 ◌+ℤ◌
one_upload_over = run_upload_returned (pos 1) overhead (pos 10) (pos 100) 1000 1120 uploads refl

taken_by_server :
    transfers tt upload_once upload_adds 1110 fresh uploads ≡ early ++ crossing ∷ uploaded
unfolding transfers upload_adds counted count_read step_stream upload_once int64 ◌+ℤ◌
taken_by_server = refl

run_upload_window_example :
    ((total_bytes uploaded ≡ 0)
      × (run_upload (pos 1) overhead (pos 10) (pos 100) 1000 1120 uploads ≡ failed))
    ⊎ ((0 < total_bytes uploaded)
        × ((m : ThroughputMeter Fixed) × (run_upload
                (pos 1)
                overhead
                (pos 10)
                (pos 100)
                1000
                1120
                uploads
              ≡ measured m)
            × (m.bytes ≡ pos (total_bytes uploaded))
            × (m.elapsed ≡ pos 100)))
unfolding total_bytes sub_time int64 ◌+ℤ◌
run_upload_window_example =
    run_upload_window (pos 1) overhead (pos 10) (pos 100) 1000 1120 uploads early uploaded crossing
      one_upload_over taken_by_server (omega arith) (omega arith) ((omega arith, omega arith), tt)
      (omega arith) ((omega arith, omega arith), tt) (omega arith) (omega arith) (omega arith)
      (omega arith)
