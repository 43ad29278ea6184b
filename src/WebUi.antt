-- ===== src/WebUi.antt =====
-- internal/webui/webui.go: the document served at `/config.json`, and the handler that serves it.
mod Tests
use go_speedtest.Prelude.{
  ℕ, Bool, true, not, ◌&&◌, Option, none, some, String, str_eq, if◌then◌else◌,
}
use go_speedtest.Prelude.Int.{ℤ, pos, quot}
use go_speedtest.Prelude.Instant.{millisecond}
use go_speedtest.Config.{Config}

abbrev pub chunk_size_bytes : ℤ
chunk_size_bytes = pos 1_048_576

abbrev pub download_chunks : ℤ
download_chunks = pos 4

abbrev pub upload_blob_bytes : ℤ
upload_blob_bytes = pos 20_971_520

pub record Endpoints : Type 0 where
  pub download : String
  pub upload : String
  pub ping : String
  pub ip : String
  pub ws : String
  pub results : String

pub record UiConfig (F : Type 0) : Type 0 where
  pub server_name : String
  pub test_duration_ms : ℤ
  pub grace_download_ms : ℤ
  pub grace_upload_ms : ℤ
  pub download_streams : ℤ
  pub upload_streams : ℤ
  pub overhead_factor : F
  pub chunk_size_bytes : ℤ
  pub upload_blob_bytes : ℤ
  pub ping_samples : ℤ
  pub download_chunks : ℤ
  pub websocket_ping : Bool
  pub endpoints : Endpoints

-- `BuildUIConfig`
unfoldable pub build_ui_config : {F : Type 0} → Config F → UiConfig F
build_ui_config cfg = record {
  server_name = cfg.server_name;
  test_duration_ms = quot cfg.test_duration millisecond;
  grace_download_ms = quot cfg.grace_download millisecond;
  grace_upload_ms = quot cfg.grace_upload millisecond;
  download_streams = cfg.download_streams;
  upload_streams = cfg.upload_streams;
  overhead_factor = cfg.overhead_factor;
  chunk_size_bytes = chunk_size_bytes;
  upload_blob_bytes = upload_blob_bytes;
  ping_samples = cfg.ping_samples;
  download_chunks = download_chunks;
  websocket_ping = true;
  endpoints = record {
    download = "/api/v1/download";
    upload = "/api/v1/upload";
    ping = "/api/v1/ping";
    ip = "/api/v1/ip";
    ws = "/api/v1/ws";
    results = "/api/v1/results";
  };
}

-- What `Handler` answers: an error, the document with the type of its content, or a file that
-- `http.FileServer` serves, with the Cache-Control header that comes with it.
pub data Page : Type 0 where
  refused : (status : ℕ) → Page
  document : (content_type cache_control body : String) → Page
  file : (cache_control path : String) → Page

-- `assetCacheControl`
abbrev pub asset_cache_control : String
asset_cache_control = "public, max-age=300"

-- the handler of `/config.json`
unfoldable pub serve_config : (config_json method : String) → Page
serve_config config_json method =
    if not (str_eq method "GET") && not (str_eq method "HEAD")
    then refused 405
    else document "application/json; charset=utf-8" "no-store" config_json

-- the mux of the two routes
unfoldable pub serve_page : (config_json method path : String) → Page
unfolding serve_config
serve_page config_json method path =
    if str_eq path "/config.json"
    then serve_config config_json method
    else file asset_cache_control path

-- `Handler`: it marshals the document once, and panics where that fails, which is none here.
unfoldable pub handler :
    {F : Type 0}
    → (marshal : UiConfig F → Option String) → Config F
    → Option (String → String → Page)
unfolding serve_page build_ui_config
handler marshal cfg = elim (marshal (build_ui_config cfg)) [
  | none ↦ none
  | some config_json ↦ some (serve_page config_json)
]
