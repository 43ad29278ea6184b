-- ===== src/Config.antt =====
-- internal/config/config.go: the configuration, its defaults, the mode profile and the validation.
-- The flags and `Load` are in `Config.Flags`.
pub mod Flags
pub mod Validity
pub mod Precedence
pub mod Tests
use go_speedtest.Prelude.{
  Bool, true, false, not, ◌&&◌, ◌||◌, Option, none, some, List, [], ◌∷◌, String, str_eq,
  if◌then◌else◌,
}
use go_speedtest.Prelude.Int.{ℤ, pos, ltb_ℤ, leb_ℤ}
use go_speedtest.Prelude.Double.{Double}
use go_speedtest.Measure.{min_configurable_streams, max_configurable_streams}

abbrev pub mode_lan : String
mode_lan = "lan"

abbrev pub mode_internet : String
mode_internet = "internet"

abbrev pub telemetry_none : String
telemetry_none = "none"

abbrev pub telemetry_sqlite : String
telemetry_sqlite = "sqlite"

pub record Config (F : Type 0) : Type 0 where
  pub listen : String
  pub mode : String
  pub http2 : Bool
  pub server_name : String
  pub log_level : String
  pub trusted_proxies : List String
  pub telemetry_backend : String
  pub telemetry_path : String
  pub api_token : String
  pub cors_origins : List String
  pub overhead_factor : F
  pub download_streams : ℤ
  pub upload_streams : ℤ
  pub test_duration : ℤ
  pub grace_download : ℤ
  pub grace_upload : ℤ
  pub ping_samples : ℤ
  pub per_ip_concurrency : ℤ
  pub chunk_cap : ℤ
  pub max_upload_bytes : ℤ
  pub rate_limit_per_sec : F
  pub rate_limit_burst : ℤ
  pub read_deadline : ℤ

-- The errors of `validate`, in its order.
pub data Invalid : Type 0 where
  listen_empty bad_mode bad_telemetry_backend no_telemetry_path bad_log_level : Invalid
  bad_overhead bad_download_streams bad_upload_streams bad_test_duration bad_grace : Invalid
  bad_ping_samples bad_per_ip_concurrency bad_chunk_cap bad_max_upload_bytes : Invalid
  bad_rate_limit bad_rate_limit_burst bad_read_deadline : Invalid
  bad_trusted_proxy : String → Invalid

unfoldable pub valid_log_level : String → Bool
valid_log_level l =
    str_eq l "trace"
    || (str_eq l "debug"
        || (str_eq l "info"
            || (str_eq l "warn" || (str_eq l "error" || (str_eq l "fatal" || str_eq l "panic")))))

abbrev pub streams_out_of_range : ℤ → Bool
streams_out_of_range n = ltb_ℤ n min_configurable_streams || ltb_ℤ max_configurable_streams n

-- `if bad { return e }`, and then the rest of the function
abbrev pub check : Bool → Invalid → Option Invalid → Option Invalid
check bad e rest = if bad then some e else rest

abbrev pub or_zero : Bool → ℤ → ℤ
or_zero explicit n = if not explicit then pos 0 else n

-- The loop over the trusted proxies; `is_prefix` says whether `netip.ParsePrefix` accepts.
unfoldable pub check_proxies : (is_prefix : String → Bool) → List String → Option Invalid
check_proxies is_prefix [] = none
check_proxies is_prefix (c ∷ cs) =
    if not (is_prefix c) then some (bad_trusted_proxy c) else check_proxies is_prefix cs

module _ {F : Type 0} ⦃d : Double F⦄ where
  unfoldable pub defaults : Config F
  defaults = record {
    listen = ":8080";
    mode = mode_lan;
    http2 = false;
    server_name = "go-speedtest";
    log_level = "info";
    trusted_proxies = [];
    telemetry_backend = telemetry_none;
    telemetry_path = "speedtest.db";
    api_token = "";
    cors_origins = [];
    overhead_factor = d.dec 106 2;
    download_streams = pos 6;
    upload_streams = pos 3;
    test_duration = pos 15_000_000_000;
    grace_download = pos 1_500_000_000;
    grace_upload = pos 3_000_000_000;
    ping_samples = pos 10;
    per_ip_concurrency = pos 8;
    chunk_cap = pos 256;
    max_upload_bytes = pos 104_857_600;
    rate_limit_per_sec = d.of_int (pos 5);
    rate_limit_burst = pos 10;
    read_deadline = pos 30_000_000_000;
  }

  -- every assignment of the lan profile
  pub lan_profile : Config F → (String → Bool) → Config F
  lan_profile cfg explicit = record cfg {
    per_ip_concurrency = or_zero (explicit "per-ip-concurrency") cfg.per_ip_concurrency;
    chunk_cap = or_zero (explicit "chunk-cap") cfg.chunk_cap;
    max_upload_bytes = or_zero (explicit "max-upload-bytes") cfg.max_upload_bytes;
    rate_limit_per_sec =
        if not (explicit "rate-limit") then d.of_int (pos 0) else cfg.rate_limit_per_sec;
    rate_limit_burst = or_zero (explicit "rate-limit-burst") cfg.rate_limit_burst;
    read_deadline = or_zero (explicit "read-deadline") cfg.read_deadline;
  }

  unfoldable pub apply_mode_profile : Config F → (String → Bool) → Config F
  unfolding lan_profile
  apply_mode_profile cfg explicit =
      if not (str_eq cfg.mode mode_lan) then cfg else lan_profile cfg explicit

  unfoldable pub check_limits : (is_prefix : String → Bool) → Config F → Option Invalid
  check_limits is_prefix cfg = check (ltb_ℤ cfg.per_ip_concurrency (pos 0)) bad_per_ip_concurrency (
      check (ltb_ℤ cfg.chunk_cap (pos 0)) bad_chunk_cap (
        check (ltb_ℤ cfg.max_upload_bytes (pos 0)) bad_max_upload_bytes (
          check (d.lt cfg.rate_limit_per_sec (d.of_int (pos 0))) bad_rate_limit (
            check (ltb_ℤ cfg.rate_limit_burst (pos 0)) bad_rate_limit_burst (
              check (ltb_ℤ cfg.read_deadline (pos 0)) bad_read_deadline
                (check_proxies is_prefix cfg.trusted_proxies))))))

  unfoldable pub check_method : (is_prefix : String → Bool) → Config F → Option Invalid
  check_method is_prefix cfg = check (d.le cfg.overhead_factor (d.of_int (pos 0))) bad_overhead (
      check (streams_out_of_range cfg.download_streams) bad_download_streams (
        check (streams_out_of_range cfg.upload_streams) bad_upload_streams (
          check (leb_ℤ cfg.test_duration (pos 0)) bad_test_duration (
            check (ltb_ℤ cfg.grace_download (pos 0) || ltb_ℤ cfg.grace_upload (pos 0)) bad_grace (
              check (leb_ℤ cfg.ping_samples (pos 0)) bad_ping_samples
                (check_limits is_prefix cfg))))))

  -- `to_lower` is `strings.ToLower`.
  unfoldable pub validate :
      (is_prefix : String → Bool) (to_lower : String → String) → Config F → Option Invalid
  validate is_prefix to_lower cfg = check (str_eq cfg.listen "") listen_empty (
      check (not (str_eq cfg.mode mode_lan) && not (str_eq cfg.mode mode_internet)) bad_mode (
        check
          (not (str_eq cfg.telemetry_backend telemetry_none)
            && not (str_eq cfg.telemetry_backend telemetry_sqlite))
          bad_telemetry_backend
          (check (str_eq cfg.telemetry_backend telemetry_sqlite && str_eq cfg.telemetry_path "")
            no_telemetry_path
            (check (not (valid_log_level (to_lower cfg.log_level))) bad_log_level
              (check_method is_prefix cfg)))))
