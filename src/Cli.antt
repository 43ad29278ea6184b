-- ===== src/Cli.antt =====
-- cmd/go-speedtest-cli/main.go: the plan of a test, from the server's info and the flags. The URL
-- type `U` and the operations on it stand for net/url.
pub mod Plan
pub mod Flags
pub mod Units
pub mod Ping
pub mod Progress
pub mod Stream
pub mod Phase
pub mod World
pub mod Run
pub mod Output
pub mod Tests
use go_speedtest.Prelude.{ℕ, ◌+◌, ◌*◌, Bool, true, false, not, String, str_eq, if◌then◌else◌}
use go_speedtest.Prelude.Int.{ℤ, pos, ltb_ℤ, int64, scale, min_ℤ, max_ℤ}
use go_speedtest.Prelude.Double.{Double}
use go_speedtest.Prelude.Instant.{millisecond, second}
use go_speedtest.WebUi.{Endpoints}
use go_speedtest.Measure.{
  default_test_duration, default_grace_download, default_grace_upload, default_download_streams,
  default_upload_streams, default_ping_samples, min_configurable_streams, max_configurable_streams,
}

-- `serverInfo`; what the document lacks is the zero value.
pub record ServerInfo (F : Type 0) : Type 0 where
  pub server_name : String
  pub test_duration_ms : ℤ
  pub grace_download_ms : ℤ
  pub grace_upload_ms : ℤ
  pub download_streams : ℤ
  pub upload_streams : ℤ
  pub overhead_factor : F
  pub chunk_size_bytes : ℤ
  pub upload_blob_bytes : ℤ
  pub ping_samples : ℤ
  pub download_chunks : ℤ
  pub websocket_ping : Bool
  pub endpoints : Endpoints

pub record Options (U F : Type 0) : Type 0 where
  pub server_url : U
  pub server_name : String
  pub duration : ℤ
  pub grace_download : ℤ
  pub grace_upload : ℤ
  pub overhead : F
  pub streams_dl : ℤ
  pub streams_ul : ℤ
  pub ping_samples : ℤ
  pub chunks : ℤ
  pub blob_bytes : ℤ
  pub ws_ping : Bool
  pub ep_download : String
  pub ep_upload : String
  pub ep_ping : String
  pub ep_ws : String
  pub ep_results : String
  pub do_ping : Bool
  pub do_download : Bool
  pub do_upload : Bool
  pub push : Bool
  pub token : String
  pub timeout : ℤ
  pub format : String
  pub progress : Bool

unfoldable pub clamp_streams : ℤ → ℤ
unfolding min_ℤ max_ℤ
clamp_streams n = min_ℤ (max_ℤ n min_configurable_streams) max_configurable_streams

-- `if v > 0 { dst = f(v) }`
abbrev pub override : ℤ → ℤ → ℤ → ℤ
override v new old = if ltb_ℤ (pos 0) v then new else old

-- `time.Duration(ms) * time.Millisecond`
abbrev pub of_ms : ℤ → ℤ
of_ms ms = int64 (scale ms millisecond)

-- `if src != "" { *dst = src }`
abbrev pub or_default : String → String → String
or_default src dst = if not (str_eq src "") then src else dst

module _ {U F : Type 0} ⦃d : Double F⦄ where
  -- the options that come from the server, before the flags
  pub server_options : U → ServerInfo F → Options U F
  unfolding clamp_streams
  server_options base info = record {
    server_url = base;
    server_name = info.server_name;
    duration = override info.test_duration_ms (of_ms info.test_duration_ms) default_test_duration;
    grace_download =
        override info.grace_download_ms (of_ms info.grace_download_ms) default_grace_download;
    grace_upload = override info.grace_upload_ms (of_ms info.grace_upload_ms) default_grace_upload;
    overhead =
        if d.lt (d.of_int (pos 0)) info.overhead_factor then info.overhead_factor else d.dec 106 2;
    streams_dl =
        override info.download_streams (clamp_streams info.download_streams)
          default_download_streams;
    streams_ul =
        override info.upload_streams (clamp_streams info.upload_streams) default_upload_streams;
    ping_samples = override info.ping_samples info.ping_samples default_ping_samples;
    chunks = override info.download_chunks info.download_chunks (pos 4);
    blob_bytes = override info.upload_blob_bytes info.upload_blob_bytes (pos 20_971_520);
    ws_ping = info.websocket_ping;
    ep_download = or_default info.endpoints.download "/api/v1/download";
    ep_upload = or_default info.endpoints.upload "/api/v1/upload";
    ep_ping = or_default info.endpoints.ping "/api/v1/ping";
    ep_ws = or_default info.endpoints.ws "/api/v1/ws";
    ep_results = or_default info.endpoints.results "/api/v1/results";
    do_ping = false;
    do_download = false;
    do_upload = false;
    push = false;
    token = "";
    timeout = pos 0;
    format = "";
    progress = false;
  }

  -- `resolveOptions`
  unfoldable pub resolve_options : U → ServerInfo F → ℤ → ℤ → ℤ → Options U F
  unfolding server_options
  resolve_options base info duration streams_dl streams_ul =
      let opt : Options U F = server_options base info in
      record opt {
        duration = override duration duration opt.duration;
        streams_dl = override streams_dl streams_dl opt.streams_dl;
        streams_ul = override streams_ul streams_ul opt.streams_ul;
      }
