-- ===== src/Handlers/Gate/Traffic/Ownership.antt =====
-- Who holds the release functions of internal/ratelimit/ratelimit.go in the tests of
-- internal/handlers/handlers.go.
use go_speedtest.Prelude.{
  ℕ, ◌≡◌, refl, sym, ap, subst, ◌∙◌, inl, inr, false, Option, none, some, List, [], ◌∷◌, ◌++◌,
  arith, get_elem?, set, Comparable, Option-cases, String,
}
use go_speedtest.Prelude.Int.{ℤ}
use go_speedtest.Prelude.Double.{Double}
use go_speedtest.RateLimit.{
  Release, AnyLimiter, noop, limited, held, acquire, acquire_any, release_any,
}
use go_speedtest.RateLimit.Concurrency.{Inv}
use go_speedtest.RateLimit.Handout.{
  acquire-some, acquire-none, acquire-Inv, release-Inv, release-releases,
}
use go_speedtest.Handlers.Gate.{World, Ending, returned, panicked}
use go_speedtest.Handlers.Gate.Traffic.{
  Stage, entered, counted, serving, leaving, releasing, over, Test, join, new_test, perform,
}
use go_speedtest.Handlers.Gate.Traffic.Matching.{
  is_over, Matched, Matched-append, Matched-set, Matched-get, Matched-set_over,
}

module _ {IP F : Type 0} ⦃c : Comparable IP⦄ ⦃d : Double F⦄ where
  -- The release functions of a real limiter, whose limit is `per_ip`, belong to the tests; it is none
  -- for the no-op one.
  abbrev pub IsMatched : (per_ip : Option ℤ) → AnyLimiter IP F → List (Test IP) → Type 0
  IsMatched per_ip noop ts = per_ip ≡ none
  IsMatched per_ip (limited l) ts = Inv l × (per_ip ≡ some l.per_ip) × Matched 0 ts l.releases

  module _ (per_ip : Option ℤ) where
    kept-IsMatched :
        (l : AnyLimiter IP F) (ts : List (Test IP)) (i : ℕ) (t t' : Test IP)
        → get_elem? ts i ≡ some t
        → IsMatched per_ip l ts
        → t'.ticket ≡ t.ticket
        → t'.client ≡ t.client
        → is_over t'.stage ≡ is_over t.stage
        → IsMatched per_ip l (set ts i t')
    kept-IsMatched noop ts i t t' e h a b f = h
    kept-IsMatched (limited l) ts i t t' e (v, p, m) a b f =
        (v, p, Matched-set 0 i ts l.releases t t' m e a b f)

    released-IsMatched :
        (l : AnyLimiter IP F) (ts : List (Test IP)) (i : ℕ) (t : Test IP)
        → get_elem? ts i ≡ some t
        → IsMatched per_ip l ts
        → is_over t.stage ≡ false
        → IsMatched per_ip (release_any l t.ticket) (set ts i (record t { stage = over }))
    unfolding release_any
    released-IsMatched noop ts i t e h o = h
    released-IsMatched (limited l) ts i t e (v, p, m) o =
        let (r, g, k, _, f) = Matched-get 0 i ts l.releases t m e in
        let k' : t.ticket ≡ held i = k ∙ ap held (omega arith) in
        let (v', p') = release-Inv l i v in
        let over_now : List (Test IP) = set ts i (record t { stage = over }) in
        subst (λ ticket. IsMatched per_ip (release_any (limited l) ticket) over_now) (sym k')
          (
            v',
            p ∙ ap some (sym p'),
            subst (λ rs. Matched 0 over_now rs) (sym (release-releases l i r g (f ∙ o)))
                (Matched-set_over 0 i ts l.releases t r m e g),
          )

    pub acquired-IsMatched :
        (w : World IP F) (ts : List (Test IP)) (l : AnyLimiter IP F) (now : ℕ) (ip : IP)
        (started completed : String)
        → IsMatched per_ip l ts
        → let s' =
            join
              (record { world = w; tests = ts })
              (new_test ip started completed)
              (acquire_any l now ip) in
          IsMatched per_ip s'.world.limiter s'.tests
    unfolding acquire_any
    acquired-IsMatched w ts noop now ip started completed h = h
    acquired-IsMatched w ts (limited l) now ip started completed (v, p, m) =
        let (v', p') = acquire-Inv l now ip v in
        elim (Option-cases (acquire l now ip).1) [
          | inl e ↦ rw e (
            v',
            p ∙ ap some (sym p'),
            subst (λ rs. Matched 0 ts rs) (sym (acquire-none l now ip e)) m,
          )
          | inr (n, e) ↦
              let (q, en, rs) = acquire-some l now ip e in
              let t = new_test ip started completed (held n) in
              let r : Release IP = record { entry = q; fired = false; client = ip } in
              rw e (
                v',
                p ∙ ap some (sym p'),
                subst (λ rs. Matched 0 (ts ++ t ∷ []) rs) (sym rs)
                    (Matched-append 0 ts l.releases t r m (ap held (omega arith)) refl refl),
              )
        ]

    -- The step of a test.
    pub perform-IsMatched :
        (e : Ending) (i : ℕ) (ts : List (Test IP)) (t : Test IP) (stage : Stage) (w : World IP F)
        → get_elem? ts i ≡ some t
        → t.stage ≡ stage
        → IsMatched per_ip w.limiter ts
        → let (w', stage') = perform e t stage w in
          IsMatched per_ip w'.limiter (set ts i (record t { stage = stage' }))
    unfolding perform
    perform-IsMatched e i ts t entered w g k h =
        kept-IsMatched w.limiter ts i t _ g h refl refl (ap is_over (sym k))
    perform-IsMatched e i ts t counted w g k h =
        kept-IsMatched w.limiter ts i t _ g h refl refl (ap is_over (sym k))
    perform-IsMatched returned i ts t serving w g k h =
        kept-IsMatched w.limiter ts i t _ g h refl refl (ap is_over (sym k))
    perform-IsMatched panicked i ts t serving w g k h =
        kept-IsMatched w.limiter ts i t _ g h refl refl (ap is_over (sym k))
    perform-IsMatched e i ts t leaving w g k h =
        kept-IsMatched w.limiter ts i t _ g h refl refl (ap is_over (sym k))
    perform-IsMatched e i ts t releasing w g k h =
        released-IsMatched w.limiter ts i t g h (ap is_over k)
    perform-IsMatched e i ts t over w g k h =
        kept-IsMatched w.limiter ts i t _ g h refl refl (ap is_over (sym k))
