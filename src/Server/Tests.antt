-- ===== src/Server/Tests.antt =====
-- What cmd/go-speedtest/main.go builds for the default configuration in lan mode.
use go_speedtest.Prelude.{
  ◌≡◌, refl, ◌⊎◌, ◌↔◌, true, ◌≢◌, false, none, some, [], ◌∷◌, String, String_comparable, arith,
}
use go_speedtest.Prelude.Int.{ℤ, pos, ◌≤ℤ◌}
use go_speedtest.Prelude.Fixed.{Fixed, fixed_double}
use go_speedtest.Config.{Config, defaults}
use go_speedtest.RateLimit.{Limiter, acquires, noop, new, run, acquire}
use go_speedtest.Server.{Backend, new_limiter, new_store, nowhere}
use go_speedtest.Server.Program.{World, signalled, run as run_server}
use go_speedtest.Server.Program.Running.{at_start, IsOrderly, Serves, IsServable, EndsWell, run_lem}
use go_speedtest.Handlers.Probes.{handle_readyz}
use go_speedtest.Server.Admitting.{new_limiter_noop}

abbrev unlimited : Config Fixed
unlimited = record (defaults {F = Fixed}) {
  per_ip_concurrency = pos 0;
  rate_limit_per_sec = some (pos 0);
  rate_limit_burst = pos 0;
}

chooses_noop : new_limiter {IP = String} unlimited ≡ noop
unfolding new_limiter
chooses_noop = refl

stores_nowhere : new_store unlimited ≡ some nowhere
unfolding new_store defaults
stores_nowhere = refl

scaled_nonpos :
    (n : ℤ)
    → n ≤ℤ pos 0
    → fixed_double.lt (fixed_double.of_int (pos 0)) (fixed_double.of_int n) ≡ false
scaled_nonpos n h = ground arith

abbrev unlimited_limiter : Limiter String Fixed
unlimited_limiter = new (pos 0) (some (pos 0)) (pos 0)

new_limiter_noop_example :
    (acquire (run unlimited_limiter (acquires 1 "a" ∷ acquires 2 "a" ∷ [])) 3 "a").1 ≢ none
new_limiter_noop_example =
    new_limiter_noop unlimited (acquires 1 "a" ∷ acquires 2 "a" ∷ []) 3 "a" scaled_nonpos
      chooses_noop

-- The signal comes, and the connections do not drain in time.
abbrev busy : World Fixed
busy = record {
  config = some (defaults {F = Fixed});
  random = some (7 ∷ []);
  opens = λ b. true;
  first = signalled;
  drains = false;
}

run_lem_example :
    let o = run_server busy in
    IsOrderly at_start o.steps
    × (((b : Backend) × IsServable busy b
          × Serves b o.steps
          × ((o.error ≡ none) ↔ EndsWell busy)
          × ((handle_readyz o.payload.buf).status ≡ 200))
        ⊎ (((b : Backend) → ¬ IsServable busy b)
            × ((b : Backend) → ¬ Serves b o.steps)
            × (o.error ≢ none)))
run_lem_example = run_lem busy
