-- ===== src/Handlers/Router/Site.antt =====
-- The handlers of internal/handlers/handlers.go in their places behind the routes, and the handler that
-- `New` returns.
use go_speedtest.Prelude.{
  ℕ, suc, ◌^◌, ◌<◌, ◌≡◌, refl, ap, Bool, true, false, Option, none, some, List, [], ◌∷◌, String,
  Comparable, if◌then◌else◌,
}
use go_speedtest.Prelude.Int.{ℤ, pos}
use go_speedtest.Prelude.Double.{Double}
use go_speedtest.ClientIp.{Bytes, Addr}
use go_speedtest.Config.{Config}
use go_speedtest.Measure.{Result}
use go_speedtest.Metrics.{Registry, active_streams}
use go_speedtest.Metrics.Series.{value}
use go_speedtest.Telemetry.{Store}
use go_speedtest.WebUi.{Page, refused, document, file, serve_page}
use go_speedtest.Handlers.Auth.{authorized}
use go_speedtest.Handlers.Recorder.{header, taken_over}
use go_speedtest.Handlers.Gate.{World, returned, panicked}
use go_speedtest.Handlers.Gate.Balance.{streams}
use go_speedtest.Handlers.Download.{handle_download}
use go_speedtest.Handlers.Download.Quiet.{handle_download-gauges}
use go_speedtest.Handlers.Upload.{ReadError, handle_upload, handle_upload-gauges}
use go_speedtest.Handlers.Probes.{handle_ping, handle_ip, handle_healthz, handle_readyz}
use go_speedtest.Handlers.Results as results
use go_speedtest.Handlers.Results.{Context}
use go_speedtest.Handlers.Router.{
  Handler, download, upload, socket, ping, address, info, ingest, result_get, stats, healthz,
  readyz, exposition, ui, Request, Mux, Served, Exchange, serve,
}
use go_speedtest.Handlers.Router.Whole.{AreQuiet, IsBalanced, serve-IsBalanced}

-- What the handlers read of a request and of what stands behind them: the query of a download, what
-- its writes return, the body of an upload, and the payload buffer; the bytes of a text and the
-- Authorization header; the resolved address and its text; the result in a body, what belongs to an
-- upload of it, and the store as the request finds it; the id of a path and the limit of a query; the
-- document of the web UI and the status with which its files are served; the status
-- with which the WebSocket handshake is answered, 101 if it succeeds; and whether the code that a
-- handler calls panics, after what the handler has counted.
pub record Wire (IP S F : Type 0) : Type 0 where
  pub parse_int : String → Option ℤ
  pub query : Request IP → String
  pub write : Request IP → ℕ → ℕ × Bool
  pub drain : Request IP → Option ℕ → ℕ × Option ReadError
  pub buffer : Option (List ℕ)
  pub encode : String → Bytes
  pub authorization : Request IP → Bytes
  pub addr : Request IP → Addr
  pub text : Addr → String
  pub decoded : Request IP → Option (Result F)
  pub context : Request IP → Context
  pub store : Store S F
  pub kept : S
  pub id : Request IP → String
  pub limit : Request IP → String
  pub config_json : String
  pub file_status : String → ℕ
  pub handshake : Request IP → ℕ
  pub panics : Handler → Request IP → Bool

abbrev pub is_ready : Option (List ℕ) → Bool
is_ready none = false
is_ready (some b) = true

abbrev pub page_status : (file_status : String → ℕ) → Page → ℕ
page_status file_status (refused status) = status
page_status file_status (document content_type cache_control body) = 200
page_status file_status (file cache_control path) = file_status path

module _ {IP S F : Type 0} ⦃d : Double F⦄ (wire : Wire IP S F) (cfg : Config F) where
  -- Of the calls of the ResponseWriter only the first is kept, which fixes the status.
  abbrev pub answers : World IP F → Registry → (status : ℕ) → Served IP F
  answers w m status = record {
    world = record w { metrics = m };
    ending = returned;
    writes = header status ∷ [];
  }

  abbrev pub is_authorized : Request IP → Bool
  is_authorized r = authorized (wire.encode cfg.api_token) (wire.authorization r)

  -- The handlers by their names. `websocket.Handler` takes the connection over, whatever `handleWS`
  -- then does, and answers the handshake on it;
  -- what an upload of a result does to the store is not part of a `World`.
  unfoldable pub site_handler : Handler → Request IP → World IP F → Served IP F
  unfolding handle_ping handle_ip handle_healthz handle_readyz serve_page authorized
  site_handler download r w =
      let x =
        handle_download wire.parse_int (wire.write r) (is_ready wire.buffer) cfg.chunk_cap
          (wire.query r) w.metrics in
      answers w x.metrics x.status
  site_handler upload r w =
      let x = handle_upload (wire.drain r) cfg.max_upload_bytes cfg.read_deadline w.metrics in
      answers w x.metrics x.status
  site_handler socket r w = record {
    world = w;
    ending = returned;
    writes = taken_over (wire.handshake r) ∷ [];
  }
  site_handler ping r w = answers w w.metrics handle_ping.status
  site_handler address r w = answers w w.metrics (handle_ip wire.text (wire.addr r)).status
  site_handler info r w = answers w w.metrics 200
  site_handler ingest r w =
      let a =
        results.ingest wire.store (is_authorized r) (wire.context r) (wire.decoded r) wire.kept in
      answers w w.metrics (results.status_of a.1)
  site_handler result_get r w =
      answers w w.metrics (results.status_of (results.result_get wire.store wire.kept (wire.id r)))
  site_handler stats r w =
      let a = results.stats wire.store wire.parse_int (is_authorized r) (wire.limit r) wire.kept in
      answers w w.metrics (results.status_of a)
  site_handler healthz r w = answers w w.metrics handle_healthz.status
  site_handler readyz r w = answers w w.metrics (handle_readyz wire.buffer).status
  site_handler exposition r w = answers w w.metrics 200
  site_handler ui r w =
      answers w w.metrics
        (page_status wire.file_status (serve_page wire.config_json r.method r.path))

  -- a handler that may panic
  abbrev pub panic_if : Bool → Served IP F → Served IP F
  panic_if b s = record s { ending = if b then panicked else s.ending }

  unfoldable pub site : Handler → Request IP → World IP F → Served IP F
  unfolding site_handler
  site h r w = panic_if (wire.panics h r) (site_handler h r w)

  site_handler-AreQuiet : ⦃c : Comparable IP⦄ → AreQuiet site_handler
  unfolding site_handler
  site_handler-AreQuiet download r w = (
    refl,
    ap (value active_streams) (
        handle_download-gauges wire.parse_int (wire.write r) (is_ready wire.buffer) cfg.chunk_cap
          (wire.query r) w.metrics),
  )
  site_handler-AreQuiet upload r w = (
    refl,
    ap (value active_streams)
        (handle_upload-gauges (wire.drain r) cfg.max_upload_bytes cfg.read_deadline w.metrics),
  )
  site_handler-AreQuiet h r w = (refl, refl)

  pub site-AreQuiet : ⦃c : Comparable IP⦄ → AreQuiet site
  unfolding site
  site-AreQuiet h r w = site_handler-AreQuiet h r w

module _ {IP S F : Type 0} ⦃c : Comparable IP⦄ ⦃d : Double F⦄ (mux : Mux) (wire : Wire IP S F)
    (cfg : Config F) where
  -- `New`: the handler that the server runs on each request
  unfoldable pub new_handler : Request IP → World IP F → Exchange IP F
  unfolding serve site
  new_handler = serve mux (site wire cfg) cfg.cors_origins

  -- Whatever the request and whichever route the mux chooses, be it refused, answered by its handler
  -- or ended by a panic of it, afterwards every client has as many tests running as before, and the gauge of active
  -- streams is back where it was. The gauge is not negative and stays within an `int64`.
  pub new_handler-IsBalanced :
      (r : Request IP) (w : World IP F) (other : IP) (g : ℕ)
      → streams w.metrics ≡ pos g
      → suc g < 2 ^ 63
      → IsBalanced other g w (new_handler r w).served.world
  unfolding new_handler
  new_handler-IsBalanced r w other g =
      serve-IsBalanced mux (site wire cfg) cfg.cors_origins r w other g (site-AreQuiet wire cfg)
