-- ===== src/Server.antt =====
-- cmd/go-speedtest/main.go, internal/server/server.go and internal/payload/payload.go: what the
-- server is built from.
pub mod Admitting
pub mod Program
pub mod Tests
use go_speedtest.Prelude.{
  ℕ, ◌*◌, ◌^◌, ◌≡◌, Bool, true, false, not, ◌&&◌, ◌||◌, Option, none, some, List, [], ◌∷◌, String,
  str_eq, if◌then◌else◌, Comparable,
}
use go_speedtest.Prelude.Int.{ℤ, pos, ltb_ℤ}
use go_speedtest.Prelude.Double.{Double}
use go_speedtest.Prelude.Instant.{second}
use go_speedtest.Config.{Config, telemetry_none, telemetry_sqlite}
use go_speedtest.RateLimit.{AnyLimiter, noop, limited, new}

-- `newStore`: the backend that it opens, or none where it returns an error of its own
pub data Backend : Type 0 where
  nowhere : Backend
  sqlite : String → Backend

pub new_store : {F : Type 0} → Config F → Option Backend
new_store cfg =
    if str_eq cfg.telemetry_backend telemetry_sqlite
    then some (sqlite cfg.telemetry_path)
    else if str_eq cfg.telemetry_backend telemetry_none || str_eq cfg.telemetry_backend ""
    then some nowhere
    else none

-- `newLimiter`
pub new_limiter : {IP F : Type 0} ⦃c : Comparable IP⦄ ⦃d : Double F⦄ → Config F → AnyLimiter IP F
new_limiter cfg =
    if ltb_ℤ (pos 0) cfg.per_ip_concurrency || ltb_ℤ (pos 0) cfg.rate_limit_burst
    then limited (new cfg.per_ip_concurrency cfg.rate_limit_per_sec cfg.rate_limit_burst)
    else noop

-- `warnIfUnguarded`: whether it logs the warning
pub warns_unguarded : {F : Type 0} → Config F → Bool
warns_unguarded cfg = not (
    ltb_ℤ (pos 0) cfg.per_ip_concurrency
    || (ltb_ℤ (pos 0) cfg.chunk_cap
        || (ltb_ℤ (pos 0) cfg.max_upload_bytes
            || (ltb_ℤ (pos 0) cfg.rate_limit_burst || ltb_ℤ (pos 0) cfg.read_deadline))))

-- The `http.Server` of `BuildServer`, with the settings of the h2c handler where it wraps one.
pub record H2 : Type 0 where
  pub max_read_frame_size : ℕ
  pub max_upload_buffer_per_connection : ℕ
  pub max_upload_buffer_per_stream : ℕ

pub record HttpServer : Type 0 where
  pub addr : String
  pub h2c : Option H2
  pub read_timeout : ℕ
  pub write_timeout : ℕ
  pub idle_timeout : ℕ
  pub read_header_timeout : ℕ

pub build_server : {F : Type 0} → Config F → HttpServer
build_server cfg = record {
  addr = cfg.listen;
  h2c =
      if cfg.http2
      then some (record {
        max_read_frame_size = 262_144;
        max_upload_buffer_per_connection = 16_777_216;
        max_upload_buffer_per_stream = 8_388_608;
      })
      else none;
  read_timeout = 0;
  write_timeout = 0;
  idle_timeout = 120 * second;
  read_header_timeout = 10 * second;
}

-- internal/payload: the buffer and the error that `Init` leaves, and its `sync.Once`. `random` is
-- `rand.Read` into a new buffer: its bytes, or none on an error.
pub record Payload : Type 0 where
  pub buf : Option (List ℕ)
  pub failed : Bool
  pub done : Bool

-- `Init`; the result is whether it returns an error
pub init : (random : Option (List ℕ)) → Payload → Payload × Bool
init random p = if p.done then (p, p.failed) else elim random [
  | none ↦ (record { buf = p.buf; failed = true; done = true }, true)
  | some b ↦ (record { buf = some b; failed = p.failed; done = true }, p.failed)
]
