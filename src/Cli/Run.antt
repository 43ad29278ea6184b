-- ===== src/Cli/Run.antt =====
-- `run` of cmd/go-speedtest-cli/main.go: the checks of the flags, the server's info, the phases in
-- their order and the result that they fill in. What stands outside, from net/url to the network, is
-- in the record `World`.
pub mod Accepting
pub mod Calls
pub mod Phases
pub mod Report
pub mod Tests
use Prim.Native.String.{◌++◌ as concat}
use go_speedtest.Prelude.{
  ℕ, suc, ◌≡◌, refl, Bool, true, false, not, ◌&&◌, ◌||◌, Option, none, some, List, [], ◌∷◌, ◌++◌,
  String, str_eq, ltb, if◌then◌else◌, ◌==◌, ◌+◌,
}
use go_speedtest.Prelude.Int.{ℤ, pos, ltb_ℤ, eqb_ℤ, ◌+ℤ◌, max_ℤ}
use go_speedtest.Prelude.Double.{Double}
use go_speedtest.Measure.{
  Result, new_result, set_ping, set_download, set_upload, source_cli, PingStats, ThroughputMeter,
}
use go_speedtest.Cli.{ServerInfo, Options, resolve_options}
use go_speedtest.Cli.World.{
  Reply, unreachable, answered, Schedule, World, HttpClient, is_terminal, new_http_client, Call,
  asks_info, pings, downloads, uploads, pushes, Ending, stops, waits, prints, Run, ends, calling,
}
use go_speedtest.Cli.Flags.{
  Flags, RunError, server_required, invalid_server, info_failed, ping_failed, download_failed,
  upload_failed, push_failed, formats, check_flags,
}
use go_speedtest.Cli.Ping.{Network, run_ping}
use go_speedtest.Cli.Stream.{DownloadEvent, UploadEvent}
use go_speedtest.Cli.Phase.{Moment, Measured, waiting, failed, measured, run_download, run_upload}

-- the headers of `pushResult`
abbrev pub push_headers : (token : String) → List (String × String)
push_headers token =
    ("Content-Type", "application/json")
    ∷ (if not (str_eq token "") then ("Authorization", concat "Bearer " token) ∷ [] else [])

module _ {U F : Type 0} where
  -- `url.Parse` and the test of its result
  unfoldable pub parse_server : World U F → String → Option U
  parse_server w s = elim (w.parse s) [
    | none ↦ none
    | some base ↦ if str_eq (w.scheme base) "" || str_eq (w.host base) "" then none else some base
  ]

  -- `pushResult`: the identifier that the server answers
  unfoldable pub push_result : World U F → Result F → Option String
  push_result w res = if not (w.marshals res) then none else elim w.pushed [
    | unreachable ↦ none
    | answered status body ↦ if not (status == 200) && not (status == 201) then none else body
  ]

module _ {F : Type 0} ⦃d : Double F⦄ where
  -- the zero value of `serverInfo`
  unfoldable pub zero_info : ServerInfo F
  zero_info = record {
    server_name = "";
    test_duration_ms = pos 0;
    grace_download_ms = pos 0;
    grace_upload_ms = pos 0;
    download_streams = pos 0;
    upload_streams = pos 0;
    overhead_factor = d.of_int (pos 0);
    chunk_size_bytes = pos 0;
    upload_blob_bytes = pos 0;
    ping_samples = pos 0;
    download_chunks = pos 0;
    websocket_ping = false;
    endpoints = record { download = ""; upload = ""; ping = ""; ip = ""; ws = ""; results = "" };
  }

  -- `fetchInfo`
  unfoldable pub fetch_info : {U : Type 0} → World U F → Option (ServerInfo F)
  unfolding zero_info
  fetch_info w = elim w.info [
    | unreachable ↦ none
    | answered status body ↦ if not (status == 200) then some zero_info else body
  ]

module _ {U F : Type 0} ⦃d : Double F⦄ (w : World U F) (opt : Options U F) where
  abbrev pub client : HttpClient
  client = new_http_client (max_ℤ opt.streams_dl opt.streams_ul)

  -- the result before the phases
  unfoldable pub first_result : Result F
  first_result =
      let res : Result F = new_result w.rfc3339 w.now source_cli in
      record res { server_name = opt.server_name; overhead_factor = opt.overhead }

  abbrev pub print_phase : Result F → Run U F
  print_phase res = ends (prints opt res)

  unfoldable pub push_phase : Result F → Run U F
  unfolding push_result new_http_client
  push_phase res =
      if opt.push
      then calling (pushes client (push_headers opt.token)) (elim (push_result w res) [
        | none ↦ ends (stops push_failed)
        | some id ↦ print_phase (record res { id = id })
      ])
      else print_phase res

  -- what the upload phase comes to, with its schedule
  abbrev pub upload_outcome : Measured F
  upload_outcome =
      let s : Schedule UploadEvent = w.upload in
      run_upload opt.streams_ul opt.overhead opt.grace_upload opt.duration s.started s.stopped
        s.moments

  abbrev pub uploaded : Result F → Measured F → Run U F
  uploaded res waiting = ends waits
  uploaded res failed = ends (stops upload_failed)
  uploaded res (measured m) =
      push_phase (record (set_upload res m) { streams_upload = opt.streams_ul })

  unfoldable pub upload_phase : Result F → Run U F
  unfolding push_phase
  upload_phase res =
      if opt.do_upload
      then calling (uploads client) (uploaded res upload_outcome)
      else push_phase res

  abbrev pub download_outcome : Measured F
  download_outcome =
      let s : Schedule DownloadEvent = w.download in
      run_download opt.streams_dl opt.overhead opt.grace_download opt.duration s.started s.stopped
        s.moments

  abbrev pub downloaded : Result F → Measured F → Run U F
  downloaded res waiting = ends waits
  downloaded res failed = ends (stops download_failed)
  downloaded res (measured m) =
      upload_phase (record (set_download res m) { streams_download = opt.streams_dl })

  unfoldable pub download_phase : Result F → Run U F
  unfolding upload_phase
  download_phase res =
      if opt.do_download
      then calling (downloads client) (downloaded res download_outcome)
      else upload_phase res

  abbrev pub ping_outcome : Option (PingStats F)
  ping_outcome = run_ping w.network opt.ws_ping opt.ping_samples

  abbrev pub pinged : Result F → Option (PingStats F) → Run U F
  pinged res none = ends (stops ping_failed)
  pinged res (some ps) = download_phase (set_ping res ps)

  unfoldable pub ping_phase : Result F → Run U F
  unfolding download_phase
  ping_phase res =
      if opt.do_ping then calling (pings client) (pinged res ping_outcome) else download_phase res

module _ {U F : Type 0} ⦃d : Double F⦄ (w : World U F) (f : Flags) where
  -- The plan: the options that the phases run with.
  unfoldable pub plan_of : U → ServerInfo F → Options U F
  unfolding formats
  plan_of base info =
      let opt : Options U F =
        resolve_options base info f.duration f.streams_download f.streams_upload in
      let format : String = (formats f).1 in
      record opt {
        do_ping = not f.no_ping;
        do_download = not f.no_download;
        do_upload = not f.no_upload;
        push = f.push;
        token = f.token;
        timeout = f.timeout;
        format = format;
        progress = str_eq format "human" && is_terminal w.stderr_mode;
      }

  abbrev pub informed : U → Option (ServerInfo F) → Run U F
  informed base none = ends (stops info_failed)
  informed base (some info) =
      let opt : Options U F = plan_of base info in ping_phase w opt (first_result w opt)

  abbrev pub checked : U → Option RunError → Run U F
  checked base (some e) = ends (stops e)
  checked base none = calling asks_info (informed base (fetch_info w))

  abbrev pub parsed : Option U → Run U F
  parsed none = ends (stops (invalid_server f.server))
  parsed (some base) = checked base (check_flags f)

  -- `run` after `fs.Parse`
  unfoldable pub run : Run U F
  unfolding check_flags parse_server fetch_info plan_of first_result ping_phase
  run =
      if str_eq f.server "" then ends (stops server_required) else parsed (parse_server w f.server)
