-- ===== src/Handlers/Gate/Balance.antt =====
-- `testMW` of internal/handlers/handlers.go gives back what it takes.
use go_speedtest.Prelude.{
  ℕ, suc, ◌^◌, ◌<◌, ◌≡◌, refl, sym, ap, ◌∙◌, inl, inr, String, arith, Comparable, Option-cases,
}
use go_speedtest.Prelude.Int.{ℤ, pos, negsuc, ◌+ℤ◌, int64, int64-pos}
use go_speedtest.Prelude.Double.{Double}
use go_speedtest.Metrics.{Registry, inc, add, add_gauge, active_streams, plus}
use go_speedtest.Metrics.Series.{value, value-at_series}
use go_speedtest.RateLimit.{
  AnyLimiter, noop, limited, Ticket, refused, free, held, acquire, acquire_any, release_any,
}
use go_speedtest.RateLimit.Open.{open_for}
use go_speedtest.RateLimit.Handout.{acquire-release, acquire-none}
use go_speedtest.Handlers.Gate.{
  World, Ending, returned, panicked, deferred, conclude, begin, admitted, test_mw,
}

abbrev pub streams : Registry → ℤ
streams m = value active_streams m.gauges

pub streams-add_gauge :
    (m : Registry) (delta : ℤ)
    → streams (add_gauge m active_streams delta) ≡ int64 (streams m +ℤ delta)
unfolding add_gauge
streams-add_gauge m delta = value-at_series (plus delta) active_streams active_streams m.gauges

-- One up and one down.
up_and_down : (g : ℕ) → suc g < 2 ^ 63 → int64 (int64 (pos g +ℤ pos 1) +ℤ negsuc 0) ≡ pos g
unfolding ◌+ℤ◌
up_and_down g h = ground (arith, int64-pos (suc g) h, int64-pos g)

module _ {IP F : Type 0} ⦃c : Comparable IP⦄ ⦃d : Double F⦄ where
  -- The tests of a client that run under a limiter.
  unfoldable pub running : IP → AnyLimiter IP F → ℕ
  running ip noop = 0
  running ip (limited l) = open_for ip l.releases

  running-release_any :
      (l : AnyLimiter IP F) (now : ℕ) (ip other : IP)
      → let (l', t) = acquire_any l now ip in running other (release_any l' t) ≡ running other l
  unfolding acquire_any release_any running
  running-release_any noop now ip other = refl
  running-release_any (limited l) now ip other = elim (Option-cases (acquire l now ip).1) [
    | inl e ↦ rw (e, release_any) (ap (open_for other) (acquire-none l now ip e))
    | inr (n, e) ↦ rw (e, release_any) (acquire-release l now ip other e)
  ]

  -- A handler that leaves the limiter and the gauge of active streams as it finds them.
  abbrev pub IsQuiet : (World IP F → World IP F × Ending) → Type 0
  IsQuiet next =
      (w : World IP F)
      → ((next w).0.limiter ≡ w.limiter) × (streams (next w).0.metrics ≡ streams w.metrics)

  release_refused : (l : AnyLimiter IP F) → release_any l refused ≡ l
  unfolding release_any
  release_refused noop = refl
  release_refused (limited l) = refl

  conclude_lem :
      (completed : String) (t : Ticket) (r : World IP F × Ending)
      → ((conclude completed t r).limiter ≡ release_any r.0.limiter t)
        × (streams (conclude completed t r).metrics ≡ int64 (streams r.0.metrics +ℤ negsuc 0))
  unfolding conclude deferred inc add
  conclude_lem completed t (w, returned) =
      (refl, streams-add_gauge (inc w.metrics completed) (negsuc 0))
  conclude_lem completed t (w, panicked) = (refl, streams-add_gauge w.metrics (negsuc 0))

  begin-streams :
      (started : String) (w : World IP F)
      → streams (begin started w).metrics ≡ int64 (streams w.metrics +ℤ pos 1)
  unfolding begin inc add
  begin-streams started w = streams-add_gauge (inc w.metrics started) (pos 1)

  module _ (started completed : String) (next : World IP F → World IP F × Ending)
      (quiet : IsQuiet next) where
    passed_lem :
        (t : Ticket) (w : World IP F) (g : ℕ)
        → streams w.metrics ≡ pos g
        → suc g < 2 ^ 63
        → let w' = conclude completed t (next (begin started w)) in
          (w'.limiter ≡ release_any w.limiter t) × (streams w'.metrics ≡ pos g)
    passed_lem t w g h b =
        let (l, s) = conclude_lem completed t (next (begin started w)) in
        let (ql, qs) = quiet (begin started w) in
        (
          l ∙ ap (λ x. release_any x t) (ql ∙ unfold begin in refl),
          s
              ∙ ap (λ x. int64 (x +ℤ negsuc 0))
                  (qs ∙ begin-streams started w ∙ ap (λ x. int64 (x +ℤ pos 1)) h)
              ∙ up_and_down g b,
        )

    admitted_lem :
        (t : Ticket) (w : World IP F) (g : ℕ)
        → streams w.metrics ≡ pos g
        → suc g < 2 ^ 63
        → let w' = (admitted started completed next t w).0 in
          (w'.limiter ≡ release_any w.limiter t) × (streams w'.metrics ≡ pos g)
    unfolding admitted release_any
    admitted_lem refused w g h b = (sym (release_refused w.limiter), h)
    admitted_lem free w g h b = passed_lem free w g h b
    admitted_lem (held n) w g h b = passed_lem (held n) w g h b

    -- Whether a test is refused, ends or panics, afterwards every client has as many tests running
    -- as before it, and the gauge of active streams is back where it was. The handler itself
    -- leaves the limiter and the gauge as it finds them, and the gauge is not negative and stays
    -- within an `int64`.
    pub test_mw_balanced :
        (w : World IP F) (now : ℕ) (ip other : IP) (g : ℕ)
        → streams w.metrics ≡ pos g
        → suc g < 2 ^ 63
        → let w' = (test_mw started completed next w now ip).0 in
          (running other w'.limiter ≡ running other w.limiter) × (streams w'.metrics ≡ pos g)
    unfolding test_mw
    test_mw_balanced w now ip other g h b =
        let (l, s) =
          admitted_lem (acquire_any w.limiter now ip).1
            (record w { limiter = (acquire_any w.limiter now ip).0 }) g h b in
        (ap (running other) l ∙ running-release_any w.limiter now ip other, s)
