-- ===== src/Cli/Run/Tests.antt =====
-- Runs of cmd/go-speedtest-cli/main.go against a server that answers every ping, but not over a
-- WebSocket, and lets one of three streams download.
use go_speedtest.Prelude.{
  ℕ, suc, ◌≤◌, ◌++◌, ◌==◌, if◌then◌else◌, ◌+◌, ◌≡◌, refl, ◌↔◌, ◌⊎◌, true, false, none, some, List,
  [], ◌∷◌, String, length, map,
}
use go_speedtest.Prelude.Int.{ℤ, pos, ◌+ℤ◌}
use go_speedtest.Prelude.Fixed.{Fixed, fixed_double}
use go_speedtest.Prelude.Int.{int64}
use go_speedtest.Prelude.Instant.{sub_time}
use go_speedtest.Measure.{
  Result, PingStats, new_ping_stats, set_ping, set_download, ThroughputMeter, new_throughput_meter,
  start, add, add_started, extend, stop,
}
use go_speedtest.Cli.Stream.{
  Event, polls, goes, DownloadEvent, responds, reads, more, eof, step_stream, download_once,
  download_adds,
}
use go_speedtest.Cli.Phase.{Moment, run_download, run_phase, phase_step, all_returned}
use go_speedtest.Measure.Ping.{add_pings}
use go_speedtest.Cli.{ServerInfo, Options, resolve_options}
use go_speedtest.Cli.Flags.{Flags, RunError, check_flags}
use go_speedtest.Cli.Ping.{Network, accepted, http_loop, ws_loop, ping_ws, ping_http, run_ping}
use go_speedtest.Cli.Ping.Counter.{
  progress_ping, progress_done, ws_marks, http_marks, run_ping_marks, counts, run_ping_marks_lem,
}
use go_speedtest.Cli.Ping.Samples.{Echoes, Replies, ping_http_iff, run_ping-some}
use go_speedtest.Cli.World.{answered, World, Call, asks_info, stops, prints}
use go_speedtest.Cli.Run.{
  run, plan_of, first_result, parse_server, fetch_info, ping_phase, upload_phase, download_phase,
  push_phase, push_result,
}
use go_speedtest.Cli.Run.Accepting.{IsAccepted, run_accepting}
use go_speedtest.Cli.Run.Calls.{IsAlong, IsStopped, phase_calls, run_calls}
use go_speedtest.Cli.Run.Report.{IsReport, run-IsReport}
use go_speedtest.Cli.Output.{csv_header, csv_row}
use go_speedtest.Cli.Output.Columns.{json_fields, lookup, csv_columns}

abbrev pub network : Network
network = record { dials = false; echo = λ i. none; reply = λ i. some (200, pos (1000 + i)) }

abbrev pub two_pings : PingStats Fixed
two_pings = add_pings new_ping_stats (pos 1001 ∷ pos 1002 ∷ [])

pinged : ping_http network (pos 2) ≡ some two_pings
unfolding ping_http http_loop accepted add_pings ◌+ℤ◌
pinged = refl

ping_http_iff_example : (ping_http network (pos 2) ≡ some two_pings) ↔ (
    (warmup : ℤ) × (rtts : List ℤ) × (length rtts ≡ 2)
    × Replies network 0 (warmup ∷ rtts)
    × (two_pings ≡ add_pings new_ping_stats rtts))
ping_http_iff_example = ping_http_iff network 2 two_pings

pinged_either_way : run_ping network true (pos 2) ≡ some two_pings
unfolding run_ping ping_ws
pinged_either_way = pinged

run_ping-some_example :
    (rtts : List ℤ) × (length rtts ≡ 2)
    × (two_pings ≡ add_pings new_ping_stats rtts)
    × (((true ≡ true) × (false ≡ true) × Echoes network 0 rtts) ⊎ Replies network 1 rtts)
run_ping-some_example = run_ping-some network true 2 pinged_either_way

-- A connection that breaks off at the second sample of two.
abbrev flaky : Network
flaky = record network { dials = true; echo = λ i. if i == 0 then some (pos 900) else none }

flaky_counter :
    run_ping_marks flaky Fixed true true (pos 2)
    ≡ progress_ping 1 ∷ progress_ping 1 ∷ progress_ping 2 ∷ progress_done ∷ []
unfolding run_ping_marks ws_marks http_marks ping_ws ws_loop accepted ◌+ℤ◌
flaky_counter = refl

flaky_pinged : run_ping flaky true (pos 2) ≡ some two_pings
unfolding run_ping ping_ws ws_loop ping_http http_loop accepted add_pings ◌+ℤ◌
flaky_pinged = refl

run_ping_marks_lem_example :
    (k : ℕ) × ((k ≡ 0) ⊎ (suc k ≤ 2))
    × (run_ping_marks flaky Fixed true true (pos 2)
        ≡ counts k 0 ++ (counts 2 0 ++ progress_done ∷ []))
run_ping_marks_lem_example = run_ping_marks_lem flaky true 2 flaky_pinged

abbrev pub site : String
site = "http://a.example"

-- A server whose info asks for two samples and allows WebSocket pings.
abbrev pub told : ServerInfo Fixed
told = record {
  server_name = "a";
  test_duration_ms = pos 0;
  grace_download_ms = pos 0;
  grace_upload_ms = pos 0;
  download_streams = pos 0;
  upload_streams = pos 0;
  overhead_factor = some (pos 0);
  chunk_size_bytes = pos 0;
  upload_blob_bytes = pos 0;
  ping_samples = pos 2;
  download_chunks = pos 0;
  websocket_ping = true;
  endpoints = record { download = ""; upload = ""; ping = ""; ip = ""; ws = ""; results = "" };
}

abbrev pub at : ℕ → ℕ → Event DownloadEvent → Moment DownloadEvent
at now stream event = record { stream = stream; now = now; event = event }

abbrev pub schedule : List (Moment DownloadEvent)
schedule =
    at 1001 0 polls
    ∷ at 1002 0 (goes (responds 200))
    ∷ at 1_600_000_000 0 (goes (reads 100 more))
    ∷ at 2_600_000_000 0 (goes (reads 50 eof))
    ∷ at 17_000_000_000 0 polls
    ∷ at 17_000_000_000 1 polls
    ∷ at 17_000_000_000 2 polls
    ∷ []

abbrev pub world : World String Fixed
world = record {
  parse = λ s. some s;
  scheme = λ u. "http";
  host = λ u. "a.example";
  rfc3339 = λ t. "2026-01-01T00:00:00Z";
  marshals = λ r. true;
  stderr_mode = none;
  now = 1000;
  info = answered 200 (some told);
  network = network;
  download = record { started = 1000; stopped = 17_000_001_000; moments = schedule };
  upload = record { started = 1000; stopped = 1000; moments = [] };
  pushed = answered 200 (some "f00d");
}

-- -streams-download 3 -no-upload -push
abbrev pub flags : Flags
flags = record {
  server = site;
  json = true;
  csv = false;
  prometheus = false;
  duration = pos 0;
  streams_download = pos 3;
  streams_upload = pos 12;
  no_download = false;
  no_upload = true;
  no_ping = false;
  push = true;
  token = "s3cret";
  timeout = pos 10_000_000_000;
}

abbrev pub options : Options String Fixed
options = plan_of world flags site told

-- 50 bytes in the window
abbrev pub meter : ThroughputMeter Fixed
meter = record {
  overhead = options.overhead;
  grace = options.grace_download;
  started = 1000;
  grace_ended = true;
  base_time = 1_600_000_000;
  bytes = pos 50;
  elapsed = pos 15_400_001_000;
}

abbrev pub printed : Result Fixed
printed = record (set_download (set_ping (first_result world options) two_pings) meter) {
  id = "f00d";
  streams_download = options.streams_dl;
}

pub prints_result : (run world flags).ending ≡ prints options printed
unfolding run ping_phase download_phase upload_phase push_phase push_result fetch_info parse_server
    check_flags plan_of resolve_options run_ping ping_ws ping_http http_loop accepted add_pings ◌+ℤ◌
    run_download all_returned run_phase phase_step step_stream int64 download_once stop
    download_adds add add_started start new_throughput_meter sub_time extend
prints_result = refl

run_accepting_example :
    let r = run world flags in
    (IsAccepted world flags × ((rest : List Call) × (r.calls ≡ asks_info ∷ rest)))
    ⊎ (¬ IsAccepted world flags × ((r.calls ≡ []) × ((e : RunError) × (r.ending ≡ stops e))))
run_accepting_example = run_accepting world flags

run-IsReport_example : IsReport world flags options printed
run-IsReport_example = run-IsReport world flags prints_result

csv_columns_holds :
    map (λ key. lookup key (json_fields printed)) csv_header ≡ map some (csv_row printed)
csv_columns_holds = csv_columns printed

run_calls_example :
    let r = run world flags in
    ((r.calls ≡ []) × IsStopped r)
    ⊎ ((r.calls ≡ asks_info ∷ []) × (fetch_info world ≡ none) × IsStopped r)
    ⊎ ((base : String) × (info : ServerInfo Fixed) × (parse_server world flags.server ≡ some base)
        × (fetch_info world ≡ some info)
        × IsAlong r (asks_info ∷ phase_calls world (plan_of world flags base info)))
run_calls_example = run_calls world flags
