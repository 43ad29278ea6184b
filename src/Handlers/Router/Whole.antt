-- ===== src/Handlers/Router/Whole.antt =====
-- The whole handler of internal/handlers/handlers.go, on every request.
use go_speedtest.Prelude.{
  ℕ, true, ◌↔◌, suc, ◌^◌, ◌<◌, ◌≡◌, refl, ap, ◌∙◌, ◌⊎◌, inl, inr, Option, none, some, List, [], ◌∷◌,
  String, Comparable, Option-cases, map,
}
use go_speedtest.Prelude.Int.{pos}
use go_speedtest.Prelude.Double.{Double}
use go_speedtest.Metrics.{tests_started, tests_completed}
use go_speedtest.RateLimit.{acquire_any}
use go_speedtest.Handlers.Cors.{cors_mw, cors_mw_lem}
use go_speedtest.Handlers.Recorder.{
  Write, header, taken_over, wire_status, IsAnswered, IsPayloadPath, is_payload_route_iff,
  observe_all-status, observe_all_taken_over,
}
use go_speedtest.Handlers.Gate.{World, Ending, returned, panicked, begin, test_mw}
use go_speedtest.Handlers.Gate.Balance.{running, streams, test_mw_balanced}
use go_speedtest.Handlers.Router.{
  Handler, LogLine, Route, routes, typed_series, Request, Mux, Served, as_next, answered, gated,
  routed, chosen, dispatch, crossed, line_of, serve,
}

-- What a line says of a request and of the calls of the ResponseWriter.
pub record IsLineOf {IP : Type 0} (r : Request IP) (writes : List Write) (l : LogLine IP)
    : Type 0 where
  pub method : l.method ≡ r.method
  pub path : l.path ≡ r.path
  pub ip : l.ip ≡ r.ip
  pub debug : (l.debug ≡ true) ↔ IsPayloadPath r.path
  pub status : IsAnswered writes → l.status ≡ wire_status writes
  pub taken : (status : ℕ) → writes ≡ taken_over status ∷ [] → l.status ≡ 200

line_of_lem :
    {IP : Type 0}
    → (r : Request IP) (ending : Ending) (writes : List Write)
    → ((ending ≡ panicked) × (line_of r ending writes ≡ none))
      ⊎ ((ending ≡ returned)
          × ((l : LogLine IP) × (line_of r ending writes ≡ some l) × IsLineOf r writes l))
line_of_lem r panicked writes = inl (refl, refl)
line_of_lem r returned writes = inr (
  refl,
  (
    _,
    refl,
    record {
      method = refl;
      path = refl;
      ip = refl;
      debug = is_payload_route_iff r.path;
      status = observe_all-status writes;
      taken = λ status e. rw e (observe_all_taken_over status);
    },
  ),
)

module _ {IP F : Type 0} ⦃c : Comparable IP⦄ ⦃d : Double F⦄ where
  -- The tests of every client and the gauge of active streams are as they were.
  abbrev pub IsBalanced : IP → ℕ → World IP F → World IP F → Type 0
  IsBalanced other g w w' =
      (running other w'.limiter ≡ running other w.limiter) × (streams w'.metrics ≡ pos g)

  -- The handlers leave the limiter and the gauge as they find them.
  abbrev pub AreQuiet : (Handler → Request IP → World IP F → Served IP F) → Type 0
  AreQuiet handle =
      (h : Handler) (r : Request IP) (w : World IP F)
      → ((handle h r w).world.limiter ≡ w.limiter)
        × (streams (handle h r w).world.metrics ≡ streams w.metrics)

  answered-world :
      (h : World IP F → Served IP F) (entered : World IP F) (r : World IP F × Option ℕ)
      → (answered h entered r).world ≡ r.0
  answered-world h entered (w, none) = refl
  answered-world h entered (w, some code) = refl

  module _ (mux : Mux) (handle : Handler → Request IP → World IP F → Served IP F) where
    gated-IsBalanced :
        (typ : String) (h : Handler) (r : Request IP) (w : World IP F) (other : IP) (g : ℕ)
        → AreQuiet handle
        → streams w.metrics ≡ pos g
        → suc g < 2 ^ 63
        → IsBalanced other g w (gated typ (handle h r) r w).world
    unfolding gated
    gated-IsBalanced typ h r w other g q e b =
        let started = typed_series tests_started typ in
        let completed = typed_series tests_completed typ in
        let next = as_next (handle h r) in
        rw
          (answered-world (handle h r)
            (begin started (record w { limiter = (acquire_any w.limiter r.now r.ip).0 }))
            (test_mw started completed next w r.now r.ip))
          (test_mw_balanced started completed next (λ v. q h r v) w r.now r.ip other g e b)

    routed-IsBalanced :
        (t : Option Route) (r : Request IP) (w : World IP F) (other : IP) (g : ℕ)
        → AreQuiet handle
        → streams w.metrics ≡ pos g
        → suc g < 2 ^ 63
        → IsBalanced other g w (routed mux handle r w t).world
    routed-IsBalanced none r w other g q e b = (refl, e)
    routed-IsBalanced (some t) r w other g q e b = elim (Option-cases t.test) [
      | inl n ↦ simp n (ap (running other) (q t.handler r w).0, (q t.handler r w).1 ∙ e)
      | inr (typ, n) ↦ simp n (gated-IsBalanced typ t.handler r w other g q e b)
    ]

    crossed-IsBalanced :
        (o : Option ℕ) (r : Request IP) (w : World IP F) (other : IP) (g : ℕ)
        → AreQuiet handle
        → streams w.metrics ≡ pos g
        → suc g < 2 ^ 63
        → IsBalanced other g w (crossed mux handle r w o).world
    unfolding dispatch
    crossed-IsBalanced none r w other g q e b =
        routed-IsBalanced (chosen (mux.pattern (map (λ t. t.pattern) routes) r.method r.path)) r w
          other g q e b
    crossed-IsBalanced (some code) r w other g q e b = (refl, e)

    -- Whatever the request and whichever route the mux chooses, be it refused, answered or ended by
    -- a panic, afterwards every client has as many tests running as before, and the gauge of active
    -- streams is back where it was. The handlers leave the limiter and the gauge as they find them,
    -- and the gauge is not negative and stays within an `int64`.
    pub serve-IsBalanced :
        (cors_origins : List String) (r : Request IP) (w : World IP F) (other : IP) (g : ℕ)
        → AreQuiet handle
        → streams w.metrics ≡ pos g
        → suc g < 2 ^ 63
        → IsBalanced other g w (serve mux handle cors_origins r w).served.world
    unfolding serve
    serve-IsBalanced cors_origins r w other g q e b =
        crossed-IsBalanced (cors_mw cors_origins r.origin r.method).answered r w other g q e b

    -- A request with the method OPTIONS is answered with 204 on every path, reaches no handler and
    -- changes nothing.
    pub serve_preflight :
        (cors_origins : List String) (r : Request IP) (w : World IP F)
        → r.method ≡ "OPTIONS"
        → (serve mux handle cors_origins r w).served
          ≡ record { world = w; ending = returned; writes = header 204 ∷ [] }
    unfolding serve
    serve_preflight cors_origins r w h =
        rw ((cors_mw_lem cors_origins r.origin r.method).2.1 h) refl

    -- A request is logged once, unless its handler panics, with its method, its path and the client's
    -- address, at debug level for the four payload paths only, and with the status that the client
    -- gets, where the handler answers by its ResponseWriter. Where it takes the connection over and
    -- calls nothing else, the line says 200, whatever the client gets.
    -- All status codes of the handlers are final ones.
    pub serve_logged :
        (cors_origins : List String) (r : Request IP) (w : World IP F)
        → let x = serve mux handle cors_origins r w in
          ((x.served.ending ≡ panicked) × (x.line ≡ none))
          ⊎ ((x.served.ending ≡ returned)
              × ((l : LogLine IP) × (x.line ≡ some l) × IsLineOf r x.served.writes l))
    unfolding serve
    serve_logged cors_origins r w =
        let s = crossed mux handle r w (cors_mw cors_origins r.origin r.method).answered in
        line_of_lem r s.ending s.writes
