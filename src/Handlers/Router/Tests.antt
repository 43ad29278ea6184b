-- ===== src/Handlers/Router/Tests.antt =====
-- A download on the whole handler of internal/handlers/handlers.go, one that panics behind the limiter,
-- and a WebSocket connection that ends in its third round.
use go_speedtest.Prelude.{
  ℕ, ◌≤◌, ◌<◌, ◌≡◌, refl, ◌⊎◌, inl, inr, true, false, Option, none, some, [], ◌∷◌, String, arith,
  ltb, leb, ◌&&◌, subst, Bool-cases, if◌then◌else◌, length, String_comparable,
}
use go_speedtest.Prelude.Int.{pos}
use go_speedtest.Prelude.Fixed.{Fixed, fixed_double}
use go_speedtest.Metrics.{new_registry}
use go_speedtest.Metrics.Series.{value}
use go_speedtest.RateLimit.{limited, new}
use go_speedtest.ClientIp.{Bytes, v4}
use go_speedtest.Handlers.Gate.{World, returned, panicked}
use go_speedtest.Handlers.Gate.Balance.{streams}
use go_speedtest.Handlers.Router.{Handler, LogLine, Request, Mux, Served, serve, typed_series}
use go_speedtest.Config.{defaults}
use go_speedtest.Handlers.Router.Site.{
  Wire, site as site_handler, site-AreQuiet, new_handler, new_handler-IsBalanced,
}
use go_speedtest.Telemetry.{none_store}
use go_speedtest.Handlers.Router.Whole.{
  IsBalanced, AreQuiet, IsLineOf, serve-IsBalanced, serve_logged,
}
use go_speedtest.Handlers.Socket.{Conn, IsLimited, AreEchoed, echo, handle_ws, handle_ws_lem}

abbrev Site : Type 0
Site = World String Fixed

abbrev mux : Mux
mux = record {
  pattern = λ patterns method path. some "GET /api/v1/download";
  refusal = λ method path. 404;
}

-- The handlers over a wire that takes every write and every body, without a store; each of them
-- panics at the end.
abbrev wire : Wire String Unit Fixed
wire = record {
  parse_int = λ q. none;
  query = λ r. "";
  write = λ r i. (1_048_576, false);
  drain = λ r l. (0, none);
  buffer = some (7 ∷ []);
  encode = λ s. [];
  authorization = λ r. [];
  addr = λ r. v4 0x0a000001;
  text = λ a. "10.0.0.1";
  decoded = λ r. none;
  context = λ r. record { now = ""; address = none; user_agent = ""; server_name = ""; id = none };
  store = none_store;
  kept = tt;
  id = λ r. "00ff";
  limit = λ r. "";
  config_json = "{}";
  file_status = λ path. 200;
  handshake = λ r. 101;
  panics = λ h r. true;
}

abbrev payloads : Handler → Request String → Site → Served String Fixed
payloads = site_handler wire (defaults {F = Fixed})

payloads-AreQuiet : AreQuiet payloads
payloads-AreQuiet = site-AreQuiet wire (defaults {F = Fixed})

abbrev request : Request String
request = record {
  method = "GET";
  path = "/api/v1/download";
  origin = "";
  ip = "10.0.0.1";
  now = 1;
}

abbrev quiet_site : Site
quiet_site = record {
  limiter = limited (new (pos 2) (some (pos 0)) (pos 0));
  metrics = new_registry;
}

nothing_runs : streams new_registry ≡ pos 0
unfolding new_registry value
nothing_runs = refl

series_of_downloads :
    typed_series "gospeedtest_tests_started_total" "download"
    ≡ "gospeedtest_tests_started_total{type=\"download\"}"
unfolding typed_series
series_of_downloads = refl

serve-IsBalanced_holds :
    IsBalanced "10.0.0.1" 0 quiet_site (serve mux payloads [] request quiet_site).served.world
serve-IsBalanced_holds =
    serve-IsBalanced mux payloads [] request quiet_site "10.0.0.1" 0 payloads-AreQuiet nothing_runs
      (omega arith)

new_handler-IsBalanced_example :
    IsBalanced "10.0.0.1" 0 quiet_site
      (new_handler mux wire (defaults {F = Fixed}) request quiet_site).served.world
new_handler-IsBalanced_example =
    new_handler-IsBalanced mux wire (defaults {F = Fixed}) request quiet_site "10.0.0.1" 0
      nothing_runs (omega arith)

-- A WebSocket connection is accepted, which the line does not say.
abbrev ws_mux : Mux
ws_mux = record mux { pattern = λ patterns method path. some "GET /api/v1/ws" }

abbrev connects : Request String
connects = record request { path = "/api/v1/ws" }

abbrev accepting : Handler → Request String → Site → Served String Fixed
accepting = site_handler (record wire { panics = λ h r. false }) (defaults {F = Fixed})

serve_logged_example :
    let x = serve ws_mux accepting [] connects quiet_site in
    ((x.served.ending ≡ panicked) × (x.line ≡ none))
    ⊎ ((x.served.ending ≡ returned)
        × ((l : LogLine String) × (x.line ≡ some l) × IsLineOf connects x.served.writes l))
serve_logged_example = serve_logged ws_mux accepting [] connects quiet_site

-- Two messages, then the client closes the connection.
abbrev conn : Conn
conn = record {
  sets_read_deadline = λ i. true;
  receive = λ max i. if ltb i 2 && leb 1 max then some (i ∷ []) else none;
  sets_write_deadline = λ i. true;
  sends = λ i. true;
}

abbrev from_some : Option Bytes → ℕ
from_some none = 0
from_some (some m) = length m

none-ne_some : {m : Bytes} → none ≡ some m → ⊥
none-ne_some h = cc

one_byte-le : (max i : ℕ) {m : Bytes} → conn.receive max i ≡ some m → length m ≤ max
one_byte-le max i {m} h = elim (Bool-cases (ltb i 2 && leb 1 max)) [
  | inl e ↦
      let k : some (i ∷ []) ≡ some m = rw e at h in subst (λ o. from_some o ≤ max) k (ground arith)
  | inr e ↦ absurd (none-ne_some (rw e at h))
]

conn-IsLimited : IsLimited conn
conn-IsLimited = record { within = one_byte-le }

handle_ws_lem_example :
    let (sent, over) = handle_ws conn 5 0 in
    AreEchoed conn 0 sent
    × (((over ≡ false) × (length sent ≡ 5))
        ⊎ ((over ≡ true) × (length sent < 5) × (echo conn (length sent) ≡ none)))
handle_ws_lem_example = handle_ws_lem conn conn-IsLimited 5
