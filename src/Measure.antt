-- ===== src/Measure.antt =====
-- internal/measure/measure.go: the throughput meter, the ping statistics and the result that they
-- fill in. A method that changes its receiver returns the new record.
pub mod Counting
pub mod Window
pub mod Ping
pub mod Tests
use go_speedtest.Prelude.{
  ℕ, suc, ◌≡◌, Bool, true, false, not, ◌&&◌, ◌||◌, List, [], ◌∷◌, String, ◌==◌, if◌then◌else◌,
}
use go_speedtest.Prelude.Int.{ℤ, pos, ◌+ℤ◌, ◌-ℤ◌, ltb_ℤ, leb_ℤ, int64, quot}
use go_speedtest.Prelude.Double.{Double, seconds}
use go_speedtest.Prelude.Instant.{millisecond, second, sub_time}

abbrev pub source_web : String
source_web = "web"

abbrev pub source_cli : String
source_cli = "cli"

abbrev pub source_api : String
source_api = "api"

abbrev pub default_test_duration : ℤ
default_test_duration = pos 15_000_000_000

abbrev pub default_grace_download : ℤ
default_grace_download = pos 1_500_000_000

abbrev pub default_grace_upload : ℤ
default_grace_upload = pos 3_000_000_000

abbrev pub default_download_streams : ℤ
default_download_streams = pos 6

abbrev pub default_upload_streams : ℤ
default_upload_streams = pos 3

abbrev pub default_ping_samples : ℤ
default_ping_samples = pos 10

abbrev pub min_configurable_streams : ℤ
min_configurable_streams = pos 3

abbrev pub max_configurable_streams : ℤ
max_configurable_streams = pos 12

pub record Result (F : Type 0) : Type 0 where
  pub id : String
  pub timestamp : String
  pub client_ip : String
  pub user_agent : String
  pub download_mbps : F
  pub upload_mbps : F
  pub ping_ms : F
  pub jitter_ms : F
  pub download_bytes : ℤ
  pub upload_bytes : ℤ
  pub download_duration_ms : ℤ
  pub upload_duration_ms : ℤ
  pub streams_download : ℤ
  pub streams_upload : ℤ
  pub overhead_factor : F
  pub source : String
  pub server_name : String

pub record Sample : Type 0 where
  pub bytes : ℤ
  pub at : ℕ

pub record ThroughputMeter (F : Type 0) : Type 0 where
  pub overhead : F
  pub grace : ℤ
  pub started : ℕ
  pub grace_ended : Bool
  pub base_time : ℕ
  pub bytes : ℤ
  pub elapsed : ℤ

pub record JitterEwma (F : Type 0) : Type 0 where
  pub value : F
  pub init : Bool

pub record PingStats (F : Type 0) : Type 0 where
  pub min : ℤ
  pub last : ℤ
  pub count : ℕ
  pub jitter : JitterEwma F

module _ {F : Type 0} where
  unfoldable pub new_throughput_meter : F → ℤ → ThroughputMeter F
  new_throughput_meter overhead grace = record {
    overhead = overhead;
    grace = grace;
    started = 0;
    grace_ended = false;
    base_time = 0;
    bytes = pos 0;
    elapsed = pos 0;
  }

  unfoldable pub start : ThroughputMeter F → ℕ → ThroughputMeter F
  start m now = record m {
    started = now;
    base_time = now;
    grace_ended = leb_ℤ m.grace (pos 0);
    bytes = pos 0;
    elapsed = pos 0;
  }

  -- `if d := now.Sub(m.baseTime); d > m.elapsed`
  unfoldable pub extend : ThroughputMeter F → ℕ → ThroughputMeter F
  extend m now =
      let d : ℤ = sub_time now m.base_time in
      if ltb_ℤ m.elapsed d then record m { elapsed = d } else m

  -- `Add` on a meter that was started
  unfoldable pub add_started : ThroughputMeter F → ℤ → ℕ → ThroughputMeter F
  add_started m n now =
      if not m.grace_ended && leb_ℤ m.grace (sub_time now m.started)
      then record m { grace_ended = true; base_time = now; bytes = pos 0; elapsed = pos 0 }
      else extend (record m { bytes = int64 (m.bytes +ℤ n) }) now

  unfoldable pub add : ThroughputMeter F → ℤ → ℕ → ThroughputMeter F
  add m n now = add_started (if m.started == 0 then start m now else m) n now

  unfoldable pub add_sample : ThroughputMeter F → Sample → ThroughputMeter F
  add_sample m s = add m s.bytes s.at

  unfoldable pub stop : ThroughputMeter F → ℕ → ThroughputMeter F
  stop m now = if m.started == 0 || not m.grace_ended then m else extend m now

module _ {F : Type 0} ⦃d : Double F⦄ where
  unfoldable pub mbps : ThroughputMeter F → F
  mbps m =
      let secs : F = seconds m.elapsed in
      if d.le secs (d.of_int (pos 0)) || leb_ℤ m.bytes (pos 0)
      then d.of_int (pos 0)
      else d.mul
          (d.div (d.mul (d.div (d.of_int m.bytes) secs) (d.of_int (pos 8))) (d.dec 1_000_000 0))
          m.overhead

  unfoldable pub update : JitterEwma F → F → JitterEwma F
  update j inst =
      if not j.init
      then record { value = inst; init = true }
      else if d.lt j.value inst
      then record j { value = d.add (d.mul (d.dec 3 1) j.value) (d.mul (d.dec 7 1) inst) }
      else record j { value = d.add (d.mul (d.dec 8 1) j.value) (d.mul (d.dec 2 1) inst) }

  unfoldable pub new_ping_stats : PingStats F
  new_ping_stats = record {
    min = pos 0;
    last = pos 0;
    count = 0;
    jitter = record { value = d.of_int (pos 0); init = false };
  }

  -- the delta between two round trips, in milliseconds
  unfoldable pub delta_ms : ℤ → ℤ → F
  delta_ms last rtt = d.div (d.abs (d.of_int (int64 (rtt -ℤ last)))) (d.of_int (pos millisecond))

  -- `PingStats.Add`
  unfoldable pub add_ping : PingStats F → ℤ → PingStats F
  add_ping p rtt = record {
    min = if p.count == 0 || ltb_ℤ rtt p.min then rtt else p.min;
    last = rtt;
    count = suc p.count;
    jitter = if p.count == 0 then p.jitter else update p.jitter (delta_ms p.last rtt);
  }

  -- `NewResult`; `rfc3339` is `now.UTC().Format(time.RFC3339)`.
  unfoldable pub new_result : (rfc3339 : ℕ → String) → ℕ → String → Result F
  new_result rfc3339 now source = record {
    id = "";
    timestamp = rfc3339 now;
    client_ip = "";
    user_agent = "";
    download_mbps = d.of_int (pos 0);
    upload_mbps = d.of_int (pos 0);
    ping_ms = d.of_int (pos 0);
    jitter_ms = d.of_int (pos 0);
    download_bytes = pos 0;
    upload_bytes = pos 0;
    download_duration_ms = pos 0;
    upload_duration_ms = pos 0;
    streams_download = pos 0;
    streams_upload = pos 0;
    overhead_factor = d.of_int (pos 0);
    source = source;
    server_name = "";
  }

  unfoldable pub set_download : Result F → ThroughputMeter F → Result F
  set_download r m = record r {
    download_mbps = mbps m;
    download_bytes = m.bytes;
    download_duration_ms = quot m.elapsed millisecond;
  }

  unfoldable pub set_upload : Result F → ThroughputMeter F → Result F
  set_upload r m = record r {
    upload_mbps = mbps m;
    upload_bytes = m.bytes;
    upload_duration_ms = quot m.elapsed millisecond;
  }

  unfoldable pub set_ping : Result F → PingStats F → Result F
  set_ping r p = record r {
    ping_ms = d.div (d.of_int p.min) (d.of_int (pos millisecond));
    jitter_ms = p.jitter.value;
  }
