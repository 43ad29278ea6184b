-- ===== src/Server/Admitting.antt =====
-- `newLimiter` of cmd/go-speedtest/main.go, whose comment promises that nothing is lost where it
-- chooses the no-op limiter.
use go_speedtest.Prelude.{ℕ, ◌≡◌, false, none, List, arith, Comparable, ◌≢◌}
use go_speedtest.Prelude.Int.{ℤ, pos, ◌≤ℤ◌}
use go_speedtest.Prelude.Double.{Double}
use go_speedtest.Config.{Config}
use go_speedtest.RateLimit.{noop, Call, new, run, acquire}
use go_speedtest.RateLimit.Admission.{acquire-eq_none_iff}
use go_speedtest.Server.{new_limiter}

module _ {IP F : Type 0} ⦃c : Comparable IP⦄ ⦃d : Double F⦄ where
  new_limiter-eq_noop :
      (cfg : Config F)
      → new_limiter {IP = IP} cfg ≡ noop
      → (cfg.per_ip_concurrency ≤ℤ pos 0) × (cfg.rate_limit_burst ≤ℤ pos 0)
  unfolding new_limiter
  new_limiter-eq_noop cfg h = ground arith

  -- Where the no-op limiter is chosen, the real one would have admitted the next request of every
  -- history, provided that a number that is not positive converts to a float that is not.
  pub new_limiter_noop :
      (cfg : Config F) (calls : List (Call IP)) (now : ℕ) (ip : IP)
      → ((n : ℤ) → n ≤ℤ pos 0 → d.lt (d.of_int (pos 0)) (d.of_int n) ≡ false)
      → new_limiter {IP = IP} cfg ≡ noop
      → (acquire
          (run (new cfg.per_ip_concurrency cfg.rate_limit_per_sec cfg.rate_limit_burst) calls)
          now
          ip).1
        ≢ none
  new_limiter_noop cfg calls now ip law h none_left =
      let (p, b) = new_limiter-eq_noop cfg h in
      let admits =
        acquire-eq_none_iff cfg.per_ip_concurrency cfg.rate_limit_per_sec cfg.rate_limit_burst calls
          now ip (law cfg.rate_limit_burst b) in
      let full = (admits.0 none_left).0 in absurd (omega arith)
