-- ===== src/Handlers/Gate/Traffic/Steady.antt =====
-- The gauge and the limiter of internal/handlers/handlers.go under every interleaving of its tests.
use go_speedtest.Prelude.{
  ℕ, zero, suc, ◌+◌, ◌^◌, ◌≤◌, ◌<◌, ◌≡◌, refl, sym, ap, subst, ◌∙◌, Bool, Option, none, some, List,
  [], ◌∷◌, arith, if◌then◌else◌, length, length-append, get_elem?, set, Comparable, String,
}
use go_speedtest.Prelude.Int.{ℤ, pos, negsuc, ◌+ℤ◌, int64, int64-pos, ◌≤ℤ◌, ◌<ℤ◌}
use go_speedtest.Prelude.Double.{Double}
use go_speedtest.Metrics.{Registry, inc, add}
use go_speedtest.RateLimit.{
  AnyLimiter, noop, limited, Ticket, refused, free, held, new, acquire_any,
}
use go_speedtest.RateLimit.Concurrency.{new-Inv}
use go_speedtest.RateLimit.Admission.{open_for-le}
use go_speedtest.RateLimit.Handout.{new_lem}
use go_speedtest.Handlers.Gate.{World, Ending, returned, panicked}
use go_speedtest.Handlers.Gate.Balance.{streams, streams-add_gauge, running}
use go_speedtest.Handlers.Gate.Traffic.{
  Stage, entered, counted, serving, leaving, releasing, over, Test, Traffic, Event, arrives, moves,
  counts, join, new_test, perform, move, step_traffic, run_traffic,
}
use go_speedtest.Handlers.Gate.Traffic.Ownership.{IsMatched, perform-IsMatched, acquired-IsMatched}
use go_speedtest.Handlers.Gate.Traffic.Matching.{
  is_streaming, streaming, streaming-append, streaming-set, streaming-le, underway,
  Matched-underway,
}

length-set : {A : Type 0} (xs : List A) (i : ℕ) (a : A) → length (set xs i a) ≡ length xs
length-set [] i a = refl
length-set (x ∷ xs) zero a = refl
length-set (x ∷ xs) (suc i) a = ap suc (length-set xs i a)

abbrev as_one : Bool → ℕ
as_one b = if b then 1 else 0

up : (g : ℕ) → suc g < 2 ^ 63 → int64 (pos g +ℤ pos 1) ≡ pos (suc g)
unfolding ◌+ℤ◌
up g h = ground (arith, int64-pos (suc g) h)

down : (g : ℕ) → suc g < 2 ^ 63 → int64 (pos (suc g) +ℤ negsuc 0) ≡ pos g
unfolding ◌+ℤ◌
down g h = ground (arith, int64-pos g)

module _ {IP F : Type 0} ⦃c : Comparable IP⦄ ⦃d : Double F⦄ where
  -- A step moves the gauge as it moves the test into it or out of it.
  perform-streams :
      (e : Ending) (t : Test IP) (stage : Stage) (w : World IP F) (g g' : ℕ)
      → streams w.metrics ≡ pos g
      → g' + as_one (is_streaming stage) ≡ g + as_one (is_streaming (perform e t stage w).1)
      → suc g < 2 ^ 63
      → streams (perform e t stage w).0.metrics ≡ pos g'
  unfolding perform inc add
  perform-streams e t entered w g g' h k b = h ∙ ap pos (omega arith)
  perform-streams e t counted w g g' h k b =
      streams-add_gauge w.metrics (pos 1)
      ∙ ap (λ x. int64 (x +ℤ pos 1)) h
      ∙ up g b
      ∙ ap pos (omega arith)
  perform-streams returned t serving w g g' h k b = h ∙ ap pos (omega arith)
  perform-streams panicked t serving w g g' h k b = h ∙ ap pos (omega arith)
  perform-streams e t leaving w g g' h k b =
      streams-add_gauge w.metrics (negsuc 0)
      ∙ ap (λ x. int64 (x +ℤ negsuc 0)) (h ∙ ap pos (omega arith))
      ∙ down g' (omega arith)
  perform-streams e t releasing w g g' h k b = h ∙ ap pos (omega arith)
  perform-streams e t over w g g' h k b = h ∙ ap pos (omega arith)

  -- The gauge is the number of the tests that are in it, and the release functions belong to the
  -- tests.
  pub record IsSteady (per_ip : Option ℤ) (s : Traffic IP F) : Type 0 where
    pub shown : streams s.world.metrics ≡ pos (streaming s.tests)
    pub owned : IsMatched per_ip s.world.limiter s.tests

  module _ (per_ip : Option ℤ) where
    move-IsSteady :
        (s : Traffic IP F) (i : ℕ) (e : Ending) (o : Option (Test IP))
        → get_elem? s.tests i ≡ o
        → suc (length s.tests) < 2 ^ 63
        → IsSteady per_ip s
        → IsSteady per_ip (move s i e o)
    unfolding move
    move-IsSteady s i e none g b v = v
    move-IsSteady s i e (some t) g b v =
        let p = perform e t t.stage s.world in
        record {
          shown =
              perform-streams e t t.stage s.world (streaming s.tests)
                (streaming (set s.tests i (record t { stage = p.1 }))) v.shown
                (streaming-set s.tests i t (record t { stage = p.1 }) g)
                (omega (arith, streaming-le s.tests));
          owned = perform-IsMatched per_ip e i s.tests t t.stage s.world g refl v.owned;
        }

    join-streams :
        (s : Traffic IP F) (ip : IP) (started completed : String) (a : AnyLimiter IP F × Ticket)
        → streams s.world.metrics ≡ pos (streaming s.tests)
        → let s' = join s (new_test ip started completed) a in
          (streams s'.world.metrics ≡ pos (streaming s'.tests))
          × (length s'.tests ≤ suc (length s.tests))
    join-streams s ip started completed (l, refused) h = (h, omega arith)
    join-streams s ip started completed (l, free) h =
        let t = new_test ip started completed free in
        (
          h ∙ ap pos (omega (arith, streaming-append s.tests t)),
          omega (arith, length-append s.tests (t ∷ [])),
        )
    join-streams s ip started completed (l, held n) h =
        let t = new_test ip started completed (held n) in
        (
          h ∙ ap pos (omega (arith, streaming-append s.tests t)),
          omega (arith, length-append s.tests (t ∷ [])),
        )

    move-length :
        (s : Traffic IP F) (i : ℕ) (e : Ending) (o : Option (Test IP))
        → length (move s i e o).tests ≤ suc (length s.tests)
    unfolding move
    move-length s i e none = omega arith
    move-length s i e (some t) = omega (arith, length-set s.tests i _)

    step_traffic-IsSteady :
        (s : Traffic IP F) (e : Event IP)
        → suc (length s.tests) < 2 ^ 63
        → IsSteady per_ip s
        → IsSteady per_ip (step_traffic s e)
          × (length (step_traffic s e).tests ≤ suc (length s.tests))
    unfolding step_traffic add
    step_traffic-IsSteady s (arrives now ip started completed) b v =
        let a = acquire_any s.world.limiter now ip in
        let (g, n) = join-streams s ip started completed a v.shown in
        (
          record {
            shown = g;
            owned =
                acquired-IsMatched per_ip s.world s.tests s.world.limiter now ip started completed
                  v.owned;
          },
          n,
        )
    step_traffic-IsSteady s (moves i e) b v =
        let o = get_elem? s.tests i in (move-IsSteady s i e o refl b v, move-length s i e o)
    step_traffic-IsSteady s (counts name delta) b v =
        (record { shown = v.shown; owned = v.owned }, omega arith)

    run_traffic-IsSteady :
        (s : Traffic IP F) (es : List (Event IP))
        → length s.tests + length es < 2 ^ 63
        → IsSteady per_ip s
        → IsSteady per_ip (run_traffic s es)
    unfolding run_traffic
    run_traffic-IsSteady s [] b v = v
    run_traffic-IsSteady s (e ∷ es) b v =
        let (v', n) = step_traffic-IsSteady s e (omega arith) v in
        run_traffic-IsSteady (step_traffic s e) es (omega arith) v'

  owned-underway :
      (per_ip : ℤ) (l : AnyLimiter IP F) (ts : List (Test IP)) (ip : IP)
      → pos 0 <ℤ per_ip
      → IsMatched (some per_ip) l ts
      → (running ip l ≡ underway ip ts) × (pos (underway ip ts) ≤ℤ per_ip)
  unfolding running
  owned-underway per_ip noop ts ip h o = cc
  owned-underway per_ip (limited l) ts ip h (v, p, m) =
      let q : per_ip ≡ l.per_ip = cc in
      let e = Matched-underway 0 ts l.releases ip m in
      (
        e,
        subst (λ n. pos (underway ip ts) ≤ℤ n) (sym q)
            (subst (λ k. pos k ≤ℤ l.per_ip) e (open_for-le l ip v (subst (λ n. pos 0 <ℤ n) q h))),
      )

  -- The server before its first test, with a real limiter.
  abbrev pub no_traffic : (per_ip : ℤ) (rate : F) (burst : ℤ) → Registry → Traffic IP F
  no_traffic per_ip rate burst m = record {
    world = record { limiter = limited (new per_ip rate burst); metrics = m };
    tests = [];
  }

  no_traffic-IsSteady :
      (per_ip : ℤ) (rate : F) (burst : ℤ) (m : Registry)
      → streams m ≡ pos 0
      → IsSteady (some per_ip) (no_traffic per_ip rate burst m)
  unfolding streaming
  no_traffic-IsSteady per_ip rate burst m h =
      let (p, r) = new_lem {IP = IP} per_ip rate burst in
      record { shown = h; owned = (new-Inv per_ip rate burst, ap some (sym p), rw r tt) }

  -- Under every interleaving of the requests, of the steps of the tests that were admitted, ended by
  -- a panic or not, and of what their handlers count, from the start of a server with a positive
  -- limit per address: the gauge of active streams is the number of the tests that are between its
  -- two changes, each client has as many tests open at the limiter as it has tests that have not
  -- called their release functions, and these are never more than the limit. There are fewer than
  -- 2 ^ 63 events.
  pub run_traffic_lem :
      (per_ip : ℤ) (rate : F) (burst : ℤ) (m : Registry) (events : List (Event IP)) (ip : IP)
      → pos 0 <ℤ per_ip
      → streams m ≡ pos 0
      → length events < 2 ^ 63
      → let s = run_traffic (no_traffic per_ip rate burst m) events in
        (streams s.world.metrics ≡ pos (streaming s.tests))
        × (running ip s.world.limiter ≡ underway ip s.tests)
        × (pos (underway ip s.tests) ≤ℤ per_ip)
  run_traffic_lem per_ip rate burst m events ip h z b =
      let s = run_traffic (no_traffic per_ip rate burst m) events in
      let v =
        run_traffic-IsSteady (some per_ip) (no_traffic per_ip rate burst m) events (omega arith)
          (no_traffic-IsSteady per_ip rate burst m z) in
      let (r, u) = owned-underway per_ip s.world.limiter s.tests ip h v.owned in (v.shown, r, u)
