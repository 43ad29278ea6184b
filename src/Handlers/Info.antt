-- ===== src/Handlers/Info.antt =====
-- `handleInfo` of internal/handlers/handlers.go: the document served at `/api/v1/info`.
use go_speedtest.Prelude.{Bool, true, String}
use go_speedtest.Prelude.Int.{ℤ, pos, quot}
use go_speedtest.Prelude.Instant.{millisecond}
use go_speedtest.Config.{Config}
use go_speedtest.WebUi.{upload_blob_bytes}

abbrev pub version : String
version = "0.1.0"

abbrev pub default_download_chunks : ℤ
default_download_chunks = pos 4

-- `payload.ChunkSize`
abbrev pub chunk_size : ℤ
chunk_size = pos 1_048_576

abbrev pub ep_download : String
ep_download = "/api/v1/download"

abbrev pub ep_upload : String
ep_upload = "/api/v1/upload"

abbrev pub ep_ping : String
ep_ping = "/api/v1/ping"

abbrev pub ep_ip : String
ep_ip = "/api/v1/ip"

abbrev pub ep_ws : String
ep_ws = "/api/v1/ws"

abbrev pub ep_results : String
ep_results = "/api/v1/results"

pub record InfoEndpoints : Type 0 where
  pub download : String
  pub upload : String
  pub ping : String
  pub ip : String
  pub ws : String
  pub results : String
  pub info : String

pub record Info (F : Type 0) : Type 0 where
  pub server_name : String
  pub version : String
  pub mode : String
  pub test_duration_ms : ℤ
  pub grace_download_ms : ℤ
  pub grace_upload_ms : ℤ
  pub download_streams : ℤ
  pub upload_streams : ℤ
  pub overhead_factor : F
  pub chunk_size_bytes : ℤ
  pub upload_blob_bytes : ℤ
  pub download_chunks : ℤ
  pub chunk_cap : ℤ
  pub max_upload_bytes : ℤ
  pub ping_samples : ℤ
  pub websocket_ping : Bool
  pub endpoints : InfoEndpoints

-- what `handleInfo` hands to `writeJSON`
unfoldable pub handle_info : {F : Type 0} → Config F → Info F
handle_info cfg = record {
  server_name = cfg.server_name;
  version = version;
  mode = cfg.mode;
  test_duration_ms = quot cfg.test_duration millisecond;
  grace_download_ms = quot cfg.grace_download millisecond;
  grace_upload_ms = quot cfg.grace_upload millisecond;
  download_streams = cfg.download_streams;
  upload_streams = cfg.upload_streams;
  overhead_factor = cfg.overhead_factor;
  chunk_size_bytes = chunk_size;
  upload_blob_bytes = upload_blob_bytes;
  download_chunks = default_download_chunks;
  chunk_cap = cfg.chunk_cap;
  max_upload_bytes = cfg.max_upload_bytes;
  ping_samples = cfg.ping_samples;
  websocket_ping = true;
  endpoints = record {
    download = ep_download;
    upload = ep_upload;
    ping = ep_ping;
    ip = ep_ip;
    ws = ep_ws;
    results = ep_results;
    info = "/api/v1/info";
  };
}
