-- ===== src/Cli/Plan.antt =====
-- The client's plan against the server's configuration: `fetchInfo` and `resolveOptions` of
-- cmd/go-speedtest-cli/main.go after `handleInfo` or `BuildUIConfig`.
use go_speedtest.Prelude.{
  ℕ, ◌*◌, ◌/◌, ◌^◌, ◌<◌, ◌≡◌, refl, ◌⊎◌, Bool, true, String, if◌then◌else◌, arith, ◌==◌,
}
use go_speedtest.Prelude.Int.{ℤ, pos, ◌<ℤ◌, int64-pos, quot, scale}
use go_speedtest.Prelude.Double.{Double}
use go_speedtest.Prelude.Instant.{millisecond}
use go_speedtest.Measure.{default_test_duration, default_grace_download, default_grace_upload}
use go_speedtest.Config.{Config}
use go_speedtest.Config.Validity.{IsValid, IsInRange}
use go_speedtest.WebUi.{UiConfig, build_ui_config}
use go_speedtest.Handlers.Info.{
  Info, handle_info, ep_download, ep_upload, ep_ping, ep_ws, ep_results,
}
use go_speedtest.Cli.{ServerInfo, Options, clamp_streams, override, of_ms, resolve_options}

-- What `fetchInfo` decodes from the info document: JSON fields meet by their names.
unfoldable pub decode_info : {F : Type 0} → Info F → ServerInfo F
decode_info i = record {
  server_name = i.server_name;
  test_duration_ms = i.test_duration_ms;
  grace_download_ms = i.grace_download_ms;
  grace_upload_ms = i.grace_upload_ms;
  download_streams = i.download_streams;
  upload_streams = i.upload_streams;
  overhead_factor = i.overhead_factor;
  chunk_size_bytes = i.chunk_size_bytes;
  upload_blob_bytes = i.upload_blob_bytes;
  ping_samples = i.ping_samples;
  download_chunks = i.download_chunks;
  websocket_ping = i.websocket_ping;
  endpoints = record {
    download = i.endpoints.download;
    upload = i.endpoints.upload;
    ping = i.endpoints.ping;
    ip = i.endpoints.ip;
    ws = i.endpoints.ws;
    results = i.endpoints.results;
  };
}

-- The same of `/config.json`.
pub decode_ui : {F : Type 0} → UiConfig F → ServerInfo F
decode_ui u = record {
  server_name = u.server_name;
  test_duration_ms = u.test_duration_ms;
  grace_download_ms = u.grace_download_ms;
  grace_upload_ms = u.grace_upload_ms;
  download_streams = u.download_streams;
  upload_streams = u.upload_streams;
  overhead_factor = u.overhead_factor;
  chunk_size_bytes = u.chunk_size_bytes;
  upload_blob_bytes = u.upload_blob_bytes;
  ping_samples = u.ping_samples;
  download_chunks = u.download_chunks;
  websocket_ping = u.websocket_ping;
  endpoints = u.endpoints;
}

-- The browser and the command-line client are told the same parameters.
pub info_agrees :
    {F : Type 0} (cfg : Config F) → decode_info (handle_info cfg) ≡ decode_ui (build_ui_config cfg)
unfolding decode_info decode_ui handle_info build_ui_config
info_agrees cfg = refl

clamp_streams_bounds : (n : ℤ) → IsInRange (clamp_streams n)
unfolding clamp_streams
clamp_streams_bounds n = ground arith

clamp_streams-IsInRange : (n : ℤ) → IsInRange n → clamp_streams n ≡ n
unfolding clamp_streams
clamp_streams-IsInRange n h = ground arith

-- A positive duration survives the trip in milliseconds but for its rest.
of_ms-quot :
    (n : ℕ) → n < 2 ^ 63 → of_ms (quot (pos n) millisecond) ≡ pos (n / millisecond * millisecond)
unfolding quot scale
of_ms-quot n h = ground (arith, int64-pos (n / millisecond * millisecond))

-- A duration in whole milliseconds, or the client's default where that is 0.
pub in_ms : ℕ → ℤ → ℤ
in_ms n default = if n / millisecond == 0 then default else pos (n / millisecond * millisecond)

override_ms :
    (n : ℕ) (default : ℤ)
    → n < 2 ^ 63
    → override (quot (pos n) millisecond) (of_ms (quot (pos n) millisecond)) default
      ≡ in_ms n default
unfolding in_ms quot
override_ms n default h = ground (arith, of_ms-quot n h)

-- A flag for streams that the client accepts: 0 for the server's default, or in range.
abbrev pub IsStreamsFlag : ℤ → Type 0
IsStreamsFlag n = (n ≡ pos 0) ⊎ IsInRange n

module _ {U F : Type 0} ⦃d : Double F⦄ where
  -- A plan that the measurement can run: both stream counts within 3 to 12, and positive samples,
  -- chunks and upload size.
  pub record IsRunnable (opt : Options U F) : Type 0 where
    pub streams_dl_in : IsInRange opt.streams_dl
    pub streams_ul_in : IsInRange opt.streams_ul
    pub ping_samples_pos : pos 0 <ℤ opt.ping_samples
    pub chunks_pos : pos 0 <ℤ opt.chunks
    pub blob_bytes_pos : pos 0 <ℤ opt.blob_bytes

  -- Whatever a server answers, the resolved plan is runnable, provided that the stream flags passed
  -- the client's check.
  pub resolve_options-IsRunnable :
      (base : U) (info : ServerInfo F) (duration streams_dl streams_ul : ℤ)
      → IsStreamsFlag streams_dl
      → IsStreamsFlag streams_ul
      → IsRunnable (resolve_options base info duration streams_dl streams_ul)
  unfolding resolve_options
  resolve_options-IsRunnable base info duration streams_dl streams_ul h k = record {
    streams_dl_in = ground (arith, clamp_streams_bounds info.download_streams);
    streams_ul_in = ground (arith, clamp_streams_bounds info.upload_streams);
    ping_samples_pos = ground arith;
    chunks_pos = ground arith;
    blob_bytes_pos = ground arith;
  }

  -- What a client with no flags takes over from the server's configuration.
  pub record Follows (cfg : Config F) (opt : Options U F) : Type 0 where
    pub server_name : opt.server_name ≡ cfg.server_name
    pub overhead : opt.overhead ≡ cfg.overhead_factor
    pub streams_dl : opt.streams_dl ≡ cfg.download_streams
    pub streams_ul : opt.streams_ul ≡ cfg.upload_streams
    pub ping_samples : opt.ping_samples ≡ cfg.ping_samples
    pub download_route : opt.ep_download ≡ ep_download
    pub upload_route : opt.ep_upload ≡ ep_upload
    pub ping_route : opt.ep_ping ≡ ep_ping
    pub ws_route : opt.ep_ws ≡ ep_ws
    pub results_route : opt.ep_results ≡ ep_results

  unfoldable pub plan : U → Config F → Options U F
  plan base cfg = resolve_options base (decode_info (handle_info cfg)) (pos 0) (pos 0) (pos 0)

  -- With a valid configuration on the server whose overhead factor is positive, and no flags, the
  -- client runs with the server's name, streams, samples, overhead and routes.
  pub plan-Follows :
      (is_prefix : String → Bool) (to_lower : String → String) (base : U) (cfg : Config F)
      → IsValid is_prefix to_lower cfg
      → d.lt (d.of_int (pos 0)) cfg.overhead_factor ≡ true
      → Follows cfg (plan base cfg)
  unfolding plan resolve_options decode_info handle_info
  plan-Follows is_prefix to_lower base cfg v h = record {
    server_name = refl;
    overhead = ground arith;
    streams_dl = ground (arith, clamp_streams-IsInRange cfg.download_streams v.download_streams_in);
    streams_ul = ground (arith, clamp_streams-IsInRange cfg.upload_streams v.upload_streams_in);
    ping_samples = ground (arith, v.ping_samples_pos);
    download_route = refl;
    upload_route = refl;
    ping_route = refl;
    ws_route = refl;
    results_route = refl;
  }

  -- To a client with no flags durations come rounded down to milliseconds, and one below a
  -- millisecond, a grace period of zero among them, is replaced by the client's own default. The
  -- durations of the server are not negative and fit an `int64`.
  pub plan_durations :
      (base : U) (cfg : Config F) (test down up : ℕ)
      → cfg.test_duration ≡ pos test
      → cfg.grace_download ≡ pos down
      → cfg.grace_upload ≡ pos up
      → test < 2 ^ 63
      → down < 2 ^ 63
      → up < 2 ^ 63
      → let opt = plan base cfg in
        (opt.duration ≡ in_ms test default_test_duration)
        × (opt.grace_download ≡ in_ms down default_grace_download)
        × (opt.grace_upload ≡ in_ms up default_grace_upload)
  unfolding plan resolve_options decode_info handle_info in_ms
  plan_durations base cfg test down up e₁ e₂ e₃ h₁ h₂ h₃ = (
    rw e₁ (override_ms test default_test_duration h₁),
    rw e₂ (override_ms down default_grace_download h₂),
    rw e₃ (override_ms up default_grace_upload h₃),
  )
