-- ===== src/System/Downloading/Tests.antt =====
-- A download of four chunks from a server whose cap is two, which breaks off in the second one.
use go_speedtest.Prelude.{
  ℕ, ◌+◌, ◌*◌, ◌≡◌, refl, ◌≢◌, ◌⊎◌, Bool, false, none, some, List, [], ◌∷◌, String, str_eq, arith,
  if◌then◌else◌, String_comparable,
}
use go_speedtest.Prelude.Int.{ℤ, pos}
use go_speedtest.Prelude.Fixed.{Fixed, fixed_double}
use go_speedtest.Config.{Config, defaults}
use go_speedtest.ClientIp.{v4}
use go_speedtest.Metrics.{new_registry}
use go_speedtest.Metrics.Series.{value}
use go_speedtest.RateLimit.{limited, new, refused}
use go_speedtest.Telemetry.{none_store}
use go_speedtest.Handlers.Download.{requested, capped, write_loop, serve, handle_download}
use go_speedtest.Handlers.Download.Bytes.{served, bytes_of, chunks_for}
use go_speedtest.Handlers.Info.{handle_info}
use go_speedtest.Handlers.Recorder.{wire_status}
use go_speedtest.Handlers.Gate.{World}
use go_speedtest.Handlers.Router.{Request}
use go_speedtest.Handlers.Router.Site.{Wire}
use go_speedtest.Cli.{ServerInfo, resolve_options}
use go_speedtest.Cli.Plan.{decode_info}
use go_speedtest.Cli.Stream.{broken}
use go_speedtest.Cli.Phase.Transfer.{fresh}
use go_speedtest.System.Receiving.{Read, size_of, request, taken}
use go_speedtest.System.Downloading.{asked_for, ticket, body_answer, exchange, request_counted}

abbrev cfg : Config Fixed
cfg = record (defaults {F = Fixed}) { chunk_cap = pos 2 }

abbrev info : ServerInfo Fixed
info = decode_info (handle_info cfg)

abbrev base : String
base = "http://a.example"

abbrev itoa : ℤ → String
itoa n = "4"

abbrev whole_chunks : ℕ → ℕ × Bool
whole_chunks i = (1_048_576, false)

abbrev wire : Wire String Unit Fixed
wire = record {
  parse_int = λ q. if str_eq q "4" then some (pos 4) else none;
  query = λ r. "4";
  write = λ r. whole_chunks;
  drain = λ r l. (0, none);
  buffer = some (7 ∷ []);
  encode = λ s. [];
  authorization = λ r. [];
  addr = λ r. v4 0x0a000001;
  text = λ a. "10.0.0.1";
  decoded = λ r. none;
  context = λ r. record { now = ""; address = none; user_agent = ""; server_name = ""; id = none };
  store = none_store;
  kept = tt;
  id = λ r. "00ff";
  limit = λ r. "";
  config_json = "{}";
  file_status = λ path. 200;
  handshake = λ r. 101;
  panics = λ h r. false;
}

abbrev asks : Request String
asks = record { method = "GET"; path = "/api/v1/download"; origin = ""; ip = "10.0.0.1"; now = 1 }

abbrev idle : World String Fixed
idle = record { limiter = limited (new (pos 2) (some (pos 0)) (pos 0)); metrics = new_registry }

four_chunks : asked_for base info (pos 0) (pos 0) (pos 0) ≡ pos 4
unfolding resolve_options decode_info handle_info
four_chunks = refl

two_left : chunks_for (pos 2) (asked_for base info (pos 0) (pos 0) (pos 0)) ≡ 2
unfolding chunks_for capped
two_left = rw four_chunks refl

two_written : bytes_of whole_chunks 2 0 ≡ 2_097_152
unfolding bytes_of
two_written = refl

none_served : served new_registry ≡ pos 0
unfolding new_registry value
none_served = refl

both_written : (body_answer base info (pos 0) (pos 0) (pos 0) itoa wire cfg asks idle).writes ≡ 2
unfolding handle_download serve requested capped write_loop resolve_options decode_info handle_info
both_written = refl

abbrev arrived : List Read
arrived = (1005, 1_048_576) ∷ []

request_counted_example :
    let n = asked_for base info (pos 0) (pos 0) (pos 0) in
    let t = ticket asks idle in
    let x = exchange asks idle wire cfg in
    let status = wire_status x.writes in
    let got = taken 2000 fresh (request 1000 1001 status arrived (1009, 1_048_000) broken) in
    ((t ≡ refused) × (status ≡ 429) × (got ≡ 0) × (served x.world.metrics ≡ pos 0))
    ⊎ ((t ≢ refused)
        × (status ≡ 200)
        × ((body_answer base info (pos 0) (pos 0) (pos 0) itoa wire cfg asks idle).content_length
            ≡ some (pos (chunks_for (pos 2) n * 1_048_576)))
        × (served x.world.metrics ≡ pos (0 + (got + 576))))
unfolding size_of
request_counted_example =
    request_counted base info (pos 0) (pos 0) (pos 0) itoa wire cfg asks idle 0 2000 1000 1001 576
      arrived (1009, 1_048_000) broken refl refl (λ e. cc) (rw four_chunks refl) none_served
      (rw two_left (omega arith)) (rw (two_left, two_written) (omega arith)) (omega arith)
      (rw (both_written, two_written) refl)
