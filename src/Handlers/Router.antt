-- ===== src/Handlers/Router.antt =====
-- `New` and `routes` of internal/handlers/handlers.go: the table of routes, and the middleware that
-- stands around it, `logMW` outside `corsMW`. `http.ServeMux` is a parameter: the pattern that it
-- chooses for a request, if any, and the status that it answers with else.
pub mod Whole
pub mod Site
mod Tests
use Prim.Native.String.{◌++◌ as concat}
use go_speedtest.Prelude.{
  ℕ, ◌≡◌, refl, Bool, true, false, not, Option, none, some, List, [], ◌∷◌, String, str_eq,
  str_eq_iff, if◌then◌else◌, Comparable, map,
}
use go_speedtest.Prelude.Double.{Double}
use go_speedtest.Metrics.{tests_started, tests_completed}
use go_speedtest.RateLimit.{acquire_any}
use go_speedtest.Handlers.Cors.{Outcome, cors_mw}
use go_speedtest.Handlers.Recorder.{
  Write, header, body, new_recorder, observe_all, is_payload_route,
}
use go_speedtest.Handlers.Gate.{World, Ending, returned, panicked, begin, test_mw}

-- The handlers by their method of `server`; `exposition` is `metrics.Handler` and `ui` is
-- `webui.Handler`.
pub data Handler : Type 0 where
  download upload socket ping address info ingest result_get stats healthz readyz exposition ui :
      Handler

-- A pattern of the mux, the type of test that `testMW` wraps the handler with, if it does, and the
-- handler.
pub record Route : Type 0 where
  pub pattern : String
  pub test : Option String
  pub handler : Handler

abbrev open_route : String → Handler → Route
open_route pattern h = record { pattern = pattern; test = none; handler = h }

abbrev test_route : String → String → Handler → Route
test_route pattern typ h = record { pattern = pattern; test = some typ; handler = h }

-- `routes`
unfoldable pub routes : List Route
routes =
    test_route "GET /api/v1/download" "download" download
    ∷ test_route "POST /api/v1/upload" "upload" upload
    ∷ test_route "GET /api/v1/ws" "ws" socket
    ∷ open_route "GET /api/v1/ping" ping
    ∷ open_route "GET /api/v1/ip" address
    ∷ open_route "GET /api/v1/info" info
    ∷ open_route "POST /api/v1/results" ingest
    ∷ open_route "GET /api/v1/results/{id}" result_get
    ∷ open_route "GET /api/v1/stats" stats
    ∷ open_route "GET /healthz" healthz
    ∷ open_route "GET /readyz" readyz
    ∷ open_route "GET /metrics" exposition
    ∷ open_route "GET /" ui
    ∷ []

-- `typedSeries`
unfoldable pub typed_series : (name typ : String) → String
typed_series name typ = concat name (concat "{type=\"" (concat typ "\"}"))

-- What the server sees of a request; `ip` is the address that the resolver finds.
pub record Request (IP : Type 0) : Type 0 where
  pub method : String
  pub path : String
  pub origin : String
  pub ip : IP
  pub now : ℕ

pub record Mux : Type 0 where
  pub pattern : List String → (method path : String) → Option String
  pub refusal : (method path : String) → ℕ

-- What is left of a handler: the state, whether it panicked, and its calls of the ResponseWriter.
pub record Served (IP F : Type 0) : Type 0 where
  pub world : World IP F
  pub ending : Ending
  pub writes : List Write

-- a line of `logMW`
pub record LogLine (IP : Type 0) : Type 0 where
  pub debug : Bool
  pub method : String
  pub path : String
  pub status : ℕ
  pub ip : IP

pub record Exchange (IP F : Type 0) : Type 0 where
  pub served : Served IP F
  pub cors : Outcome
  pub line : Option (LogLine IP)

-- The route with a pattern.
unfoldable pub route_of : List Route → String → Option Route
route_of [] p = none
route_of (r ∷ rs) p = let rest = route_of rs p in if str_eq r.pattern p then some r else rest

unfoldable pub chosen : Option String → Option Route
unfolding route_of routes
chosen none = none
chosen (some p) = route_of routes p

-- A panic passes through `logMW`, which then logs nothing.
abbrev pub line_of : {IP : Type 0} → Request IP → Ending → List Write → Option (LogLine IP)
line_of r panicked writes = none
line_of r returned writes = some (record {
  debug = is_payload_route r.path;
  method = r.method;
  path = r.path;
  status = (observe_all new_recorder writes).status;
  ip = r.ip;
})

module _ {IP F : Type 0} ⦃c : Comparable IP⦄ ⦃d : Double F⦄ where
  abbrev pub as_next : (World IP F → Served IP F) → World IP F → World IP F × Ending
  as_next h w = let s = h w in (s.world, s.ending)

  -- the answer of a test: that of `testMW`, or of the handler behind it
  abbrev pub answered :
      (World IP F → Served IP F) → World IP F → World IP F × Option ℕ → Served IP F
  answered h entered (w, some code) = record {
    world = w;
    ending = returned;
    writes = header code ∷ body ∷ [];
  }
  answered h entered (w, none) = record (h entered) { world = w }

  -- a handler behind `testMW`
  unfoldable pub gated : String → (World IP F → Served IP F) → Request IP → World IP F → Served IP F
  unfolding typed_series
  gated typ h r w =
      let started : String = typed_series tests_started typ in
      let completed : String = typed_series tests_completed typ in
      let entered : World IP F =
        begin started (record w { limiter = (acquire_any w.limiter r.now r.ip).0 }) in
      answered h entered (test_mw started completed (as_next h) w r.now r.ip)

module _ {IP F : Type 0} ⦃c : Comparable IP⦄ ⦃d : Double F⦄ (mux : Mux)
    (handle : Handler → Request IP → World IP F → Served IP F) where
  abbrev pub routed : Request IP → World IP F → Option Route → Served IP F
  routed r w none = record {
    world = w;
    ending = returned;
    writes = header (mux.refusal r.method r.path) ∷ body ∷ [];
  }
  routed r w (some t) = elim t.test [
    | none ↦ handle t.handler r w
    | some typ ↦ gated typ (handle t.handler r) r w
  ]

  -- the mux over the routes
  unfoldable pub dispatch : Request IP → World IP F → Served IP F
  unfolding gated routes chosen
  dispatch r w = routed r w (chosen (mux.pattern (map (λ t. t.pattern) routes) r.method r.path))

  -- `corsMW` around it
  abbrev pub crossed : Request IP → World IP F → Option ℕ → Served IP F
  crossed r w none = dispatch r w
  crossed r w (some code) = record { world = w; ending = returned; writes = header code ∷ [] }

  -- The handler that `New` returns, on a request.
  unfoldable pub serve : (cors_origins : List String) → Request IP → World IP F → Exchange IP F
  unfolding dispatch
  serve cors_origins r w =
      let o : Outcome = cors_mw cors_origins r.origin r.method in
      let s : Served IP F = crossed r w o.answered in
      record { served = s; cors = o; line = line_of r s.ending s.writes }
