-- ===== src/RateLimit/Tests.antt =====
-- A limiter of internal/ratelimit/ratelimit.go for two tests at once, run on a few calls.
use go_speedtest.Prelude.{
  ℕ, get_elem?, ◌≤◌, ◌+◌, ◌≡◌, refl, ◌↔◌, false, none, some, List, [], ◌∷◌, String, arith,
  if◌then◌else◌, String_comparable, str_eq,
}
use go_speedtest.Prelude.Int.{pos, ◌≤ℤ◌, ◌<ℤ◌, ◌+ℤ◌, ◌-ℤ◌}
use go_speedtest.Prelude.Instant.{sub_time}
use go_speedtest.Prelude.Fixed.{Fixed, fixed_double}
use go_speedtest.RateLimit.{
  Release, Limiter, Call, acquires, releases, new, run, acquire, release, step, sweep, entry_for,
  refill, decide_entry,
}
use go_speedtest.RateLimit.Open.{open_for}
use go_speedtest.RateLimit.Admission.{concurrency_bounded, acquire-eq_none_iff, release_once}
use go_speedtest.RateLimit.Bucket.{IsExact, starts}
use go_speedtest.RateLimit.Burst.{burst_bounded}
use go_speedtest.RateLimit.Handout.{acquire-release}

abbrev two_at_once : Limiter String Fixed
two_at_once = new (pos 2) (some (pos 0)) (pos 0)

abbrev busy_client : List (Call String)
busy_client =
    acquires 1 "a"
    ∷ acquires 2 "a"
    ∷ acquires 3 "a"
    ∷ acquires 4 "b"
    ∷ releases 0
    ∷ releases 0
    ∷ acquires 5 "a"
    ∷ []

-- The third test is refused, and again the one after that of the other client.
refused_twice :
    ((acquire (run two_at_once (acquires 1 "a" ∷ acquires 2 "a" ∷ [])) 3 "a").1 ≡ none)
    × ((acquire (run two_at_once busy_client) 6 "a").1 ≡ none)
    × (open_for "a" (run two_at_once busy_client).releases ≡ 2)
unfolding new run acquire open_for decide_entry entry_for sweep step refill sub_time ◌+ℤ◌ release
    ◌-ℤ◌
refused_twice = (refl, refl, refl)

concurrency_bounded_example : pos (open_for "a" (run two_at_once busy_client).releases) ≤ℤ pos 2
concurrency_bounded_example =
    concurrency_bounded (pos 2) (some (pos 0)) (pos 0) busy_client "a" (omega arith)

acquire-eq_none_iff_example :
    ((acquire (run two_at_once busy_client) 6 "a").1 ≡ none)
    ↔ ((pos 0 <ℤ pos 2) × (pos 2 ≤ℤ pos (open_for "a" (run two_at_once busy_client).releases)))
acquire-eq_none_iff_example =
    acquire-eq_none_iff (pos 2) (some (pos 0)) (pos 0) busy_client 6 "a" refl

first_admitted : (acquire two_at_once 1 "a").1 ≡ some 0
unfolding new acquire decide_entry entry_for sweep refill sub_time
first_admitted = refl

acquire-release_holds :
    open_for "b" (release (acquire two_at_once 1 "a").0 0).releases
    ≡ open_for "b" two_at_once.releases
acquire-release_holds = acquire-release two_at_once 1 "a" "b" first_admitted

abbrev open_test : Release String
open_test = record { entry = 1; fired = false; client = "a" }

abbrev one_running : List (Call String)
one_running = acquires 1 "b" ∷ releases 0 ∷ acquires 2 "a" ∷ []

abbrev after_one : Limiter String Fixed
after_one = run two_at_once one_running

was_handed_out : get_elem? after_one.releases 1 ≡ some open_test
unfolding new run acquire decide_entry entry_for sweep step refill sub_time ◌+ℤ◌ release ◌-ℤ◌
was_handed_out = refl

release_once_example :
    let l' = release after_one 1 in
    ((l'.heap 1).active ≡ (after_one.heap 1).active -ℤ pos 1)
    × ((ip : String)
        → open_for ip l'.releases + (if str_eq "a" ip then 1 else 0)
          ≡ open_for ip after_one.releases)
    × ((ip : String) (p : ℕ)
        → l'.entries ip ≡ some p
        → (l'.heap p).active ≡ pos (open_for ip l'.releases))
    × (release l' 1 ≡ l')
release_once_example =
    release_once (pos 2) (some (pos 0)) (pos 0) one_running 1 open_test was_handed_out refl

fixed-IsExact : IsExact fixed_double
fixed-IsExact = record {
  below_one = λ n h. ground arith;
  positive = λ n h. ground arith;
  minus_one = λ n h. ground arith;
}

abbrev rush : List (Call String)
rush = acquires 7 "a" ∷ acquires 7 "a" ∷ acquires 7 "b" ∷ releases 0 ∷ acquires 7 "a" ∷ []

burst_bounded_example :
    starts "a" (run (new {F = Fixed} (pos 0) (some (pos 0)) (pos 2)) rush).releases ≤ 2
burst_bounded_example =
    burst_bounded fixed-IsExact (pos 0) (some (pos 0)) 2 7 rush "a" (omega arith) (omega arith)
      (refl, (refl, (refl, (tt, (refl, tt)))))
