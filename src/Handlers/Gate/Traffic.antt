-- ===== src/Handlers/Gate/Traffic.antt =====
-- `testMW` of internal/handlers/handlers.go run by many goroutines at once. Each of its calls that
-- another goroutine can see, of the limiter and of the metrics, is a step of its own; a schedule is
-- the list of these steps, of any of the goroutines in any order.
pub mod Matching
pub mod Ownership
pub mod Steady
mod Tests
use go_speedtest.Prelude.{
  ℕ, Bool, true, false, Option, none, some, List, [], ◌∷◌, ◌++◌, String, get_elem?, set, Comparable,
}
use go_speedtest.Prelude.Int.{ℤ, pos, negsuc}
use go_speedtest.Prelude.Double.{Double}
use go_speedtest.Metrics.{Registry, inc, add, add_gauge, active_streams}
use go_speedtest.RateLimit.{AnyLimiter, Ticket, refused, free, held, acquire_any, release_any}
use go_speedtest.Handlers.Gate.{World, Ending, returned, panicked}

-- How far an admitted goroutine has come: it has its release function; it is counted as started; it
-- is in the gauge and runs the wrapped handler; that one has ended; it has left the gauge; it has
-- called the release function.
pub data Stage : Type 0 where
  entered counted serving leaving releasing over : Stage

-- `started` and `completed` are the series of its type.
pub record Test (IP : Type 0) : Type 0 where
  pub client : IP
  pub started : String
  pub completed : String
  pub ticket : Ticket
  pub stage : Stage

-- The goroutines that were admitted, the first one first.
pub record Traffic (IP F : Type 0) : Type 0 where
  pub world : World IP F
  pub tests : List (Test IP)

-- A request asks the limiter; the admitted goroutine with a number takes its next step, and `ending`
-- is how its wrapped handler ends, if that is the step; a handler adds to a counter.
pub data Event (IP : Type 0) : Type 0 where
  arrives : (now : ℕ) → IP → (started completed : String) → Event IP
  moves : (i : ℕ) → (ending : Ending) → Event IP
  counts : String → ℤ → Event IP

abbrev pub new_test : {IP : Type 0} → IP → (started completed : String) → Ticket → Test IP
new_test ip started completed t = record {
  client = ip;
  started = started;
  completed = completed;
  ticket = t;
  stage = entered;
}

module _ {IP F : Type 0} where
  abbrev pub gauge : World IP F → ℤ → World IP F
  gauge w delta = record w { metrics = add_gauge w.metrics active_streams delta }

  abbrev pub count : World IP F → String → World IP F
  count w series = record w { metrics = inc w.metrics series }

  -- a request that was admitted, unless it was refused
  abbrev pub join : Traffic IP F → (Ticket → Test IP) → AnyLimiter IP F × Ticket → Traffic IP F
  join s test (l, refused) = record s { world = record s.world { limiter = l } }
  join s test (l, t) = record {
    world = record s.world { limiter = l };
    tests = s.tests ++ test t ∷ [];
  }

module _ {IP F : Type 0} ⦃c : Comparable IP⦄ ⦃d : Double F⦄ where
  -- The next step of a goroutine, from its stage.
  unfoldable pub perform : Ending → Test IP → Stage → World IP F → World IP F × Stage
  perform e t entered w = (count w t.started, counted)
  perform e t counted w = (gauge w (pos 1), serving)
  perform returned t serving w = (count w t.completed, leaving)
  perform panicked t serving w = (w, leaving)
  perform e t leaving w = (gauge w (negsuc 0), releasing)
  perform e t releasing w = (record w { limiter = release_any w.limiter t.ticket }, over)
  perform e t over w = (w, over)

  unfoldable pub move : Traffic IP F → (i : ℕ) → Ending → Option (Test IP) → Traffic IP F
  unfolding perform
  move s i e none = s
  move s i e (some t) =
      let (w, stage) = perform e t t.stage s.world in
      record { world = w; tests = set s.tests i (record t { stage = stage }) }

  unfoldable pub step_traffic : Traffic IP F → Event IP → Traffic IP F
  unfolding move
  step_traffic s (arrives now ip started completed) =
      join s (new_test ip started completed) (acquire_any s.world.limiter now ip)
  step_traffic s (moves i e) = move s i e (get_elem? s.tests i)
  step_traffic s (counts name delta) = record s {
    world = record s.world { metrics = add s.world.metrics name delta };
  }

  unfoldable pub run_traffic : Traffic IP F → List (Event IP) → Traffic IP F
  run_traffic s [] = s
  run_traffic s (e ∷ es) = run_traffic (step_traffic s e) es
