-- ===== src/Handlers/Gate/Traffic/Matching.antt =====
-- Counting the tests of internal/handlers/handlers.go, and matching them with the release functions of
-- internal/ratelimit/ratelimit.go.
use go_speedtest.Prelude.{
  ℕ, zero, suc, ◌+◌, ◌≤◌, ◌≡◌, refl, ap, ◌∙◌, Bool, true, false, not, ◌&&◌, some, List, [], ◌∷◌,
  ◌++◌, arith, if◌then◌else◌, length, get_elem?, set, Comparable,
}
use go_speedtest.RateLimit.{Release, held}
use go_speedtest.RateLimit.Open.{open_for}
use go_speedtest.Handlers.Gate.Traffic.{Stage, serving, leaving, over, Test}

abbrev pub is_streaming : Stage → Bool
is_streaming serving = true
is_streaming leaving = true
is_streaming s = false

abbrev pub is_over : Stage → Bool
is_over over = true
is_over s = false

module _ {IP : Type 0} where
  -- The tests that are in the gauge.
  unfoldable pub streaming : List (Test IP) → ℕ
  streaming [] = 0
  streaming (t ∷ ts) = (if is_streaming t.stage then 1 else 0) + streaming ts

  pub streaming-append :
      (ts : List (Test IP)) (t : Test IP)
      → streaming (ts ++ t ∷ []) ≡ streaming ts + (if is_streaming t.stage then 1 else 0)
  unfolding streaming
  streaming-append [] t = omega arith
  streaming-append (x ∷ ts) t = omega (arith, streaming-append ts t)

  pub streaming-set :
      (ts : List (Test IP)) (i : ℕ) (t t' : Test IP)
      → get_elem? ts i ≡ some t
      → streaming (set ts i t') + (if is_streaming t.stage then 1 else 0)
        ≡ streaming ts + (if is_streaming t'.stage then 1 else 0)
  unfolding streaming
  streaming-set [] i t t' e = cc
  streaming-set (x ∷ ts) zero t t' e = ground arith
  streaming-set (x ∷ ts) (suc i) t t' e = omega (arith, streaming-set ts i t t' e)

  pub streaming-le : (ts : List (Test IP)) → streaming ts ≤ length ts
  unfolding streaming
  streaming-le [] = omega arith
  streaming-le (t ∷ ts) = ground (arith, streaming-le ts)

module _ {IP : Type 0} ⦃c : Comparable IP⦄ where
  -- The tests of a client that are not over.
  unfoldable pub underway : IP → List (Test IP) → ℕ
  underway ip [] = 0
  underway ip (t ∷ ts) =
      (if not (is_over t.stage) && c.eq t.client ip then 1 else 0) + underway ip ts

  -- The release functions of a limiter, from the number i on, belong to the tests, one to each, and
  -- are called where the test is over.
  abbrev pub Matched : (i : ℕ) → List (Test IP) → List (Release IP) → Type 0
  Matched i [] [] = Unit
  Matched i [] (r ∷ rs) = ⊥
  Matched i (t ∷ ts) [] = ⊥
  Matched i (t ∷ ts) (r ∷ rs) =
      (t.ticket ≡ held i)
      × (r.client ≡ t.client)
      × (r.fired ≡ is_over t.stage)
      × Matched (suc i) ts rs

  pub Matched-underway :
      (i : ℕ) (ts : List (Test IP)) (rs : List (Release IP)) (ip : IP)
      → Matched i ts rs
      → open_for ip rs ≡ underway ip ts
  unfolding open_for underway
  Matched-underway i [] [] ip h = refl
  Matched-underway i [] (r ∷ rs) ip h = elim h [ ]
  Matched-underway i (t ∷ ts) [] ip h = elim h [ ]
  Matched-underway i (t ∷ ts) (r ∷ rs) ip (a, b, f, h) =
      ground (arith, Matched-underway (suc i) ts rs ip h)

  pub Matched-append :
      (i : ℕ) (ts : List (Test IP)) (rs : List (Release IP)) (t : Test IP) (r : Release IP)
      → Matched i ts rs
      → t.ticket ≡ held (i + length rs)
      → r.client ≡ t.client
      → r.fired ≡ is_over t.stage
      → Matched i (ts ++ t ∷ []) (rs ++ r ∷ [])
  Matched-append i [] [] t r h a b f = (a ∙ ap held (omega arith), b, f, tt)
  Matched-append i [] (y ∷ rs) t r h a b f = elim h [ ]
  Matched-append i (x ∷ ts) [] t r h a b f = elim h [ ]
  Matched-append i (x ∷ ts) (y ∷ rs) t r (p, q, g, h) a b f =
      (p, q, g, Matched-append (suc i) ts rs t r h (a ∙ ap held (omega arith)) b f)

  -- A step of a test that keeps its ticket and its client, and is over neither before nor after.
  pub Matched-set :
      (i n : ℕ) (ts : List (Test IP)) (rs : List (Release IP)) (t t' : Test IP)
      → Matched i ts rs
      → get_elem? ts n ≡ some t
      → t'.ticket ≡ t.ticket
      → t'.client ≡ t.client
      → is_over t'.stage ≡ is_over t.stage
      → Matched i (set ts n t') rs
  Matched-set i n [] [] t t' h e a b f = tt
  Matched-set i n [] (r ∷ rs) t t' h e a b f = elim h [ ]
  Matched-set i n (x ∷ ts) [] t t' h e a b f = elim h [ ]
  Matched-set i zero (x ∷ ts) (r ∷ rs) t t' (p, q, g, h) e a b f = (cc, cc, cc, h)
  Matched-set i (suc n) (x ∷ ts) (r ∷ rs) t t' (p, q, g, h) e a b f =
      (p, q, g, Matched-set (suc i) n ts rs t t' h e a b f)

  pub Matched-get :
      (i n : ℕ) (ts : List (Test IP)) (rs : List (Release IP)) (t : Test IP)
      → Matched i ts rs
      → get_elem? ts n ≡ some t
      → (r : Release IP) × (get_elem? rs n ≡ some r)
        × (t.ticket ≡ held (i + n))
        × (r.client ≡ t.client)
        × (r.fired ≡ is_over t.stage)
  Matched-get i n [] rs t h e = cc
  Matched-get i n (x ∷ ts) [] t h e = elim h [ ]
  Matched-get i zero (x ∷ ts) (r ∷ rs) t (a, b, f, h) e =
      (r, refl, ground (arith, a), cc, ground (arith, f))
  Matched-get i (suc n) (x ∷ ts) (r ∷ rs) t (a, b, f, h) e =
      let (r', g, k, l, m) = Matched-get (suc i) n ts rs t h e in
      (r', g, k ∙ ap held (omega arith), l, m)

  -- The last step of a test calls its release function.
  pub Matched-set_over :
      (i n : ℕ) (ts : List (Test IP)) (rs : List (Release IP)) (t : Test IP) (r : Release IP)
      → Matched i ts rs
      → get_elem? ts n ≡ some t
      → get_elem? rs n ≡ some r
      → Matched i (set ts n (record t { stage = over })) (set rs n (record r { fired = true }))
  Matched-set_over i n [] rs t r h e g = cc
  Matched-set_over i n (x ∷ ts) [] t r h e g = elim h [ ]
  Matched-set_over i zero (x ∷ ts) (y ∷ rs) t r (a, b, f, h) e g =
      (ground (arith, a), ground (arith, b), refl, h)
  Matched-set_over i (suc n) (x ∷ ts) (y ∷ rs) t r (a, b, f, h) e g =
      (a, b, f, Matched-set_over (suc i) n ts rs t r h e g)

  pub Matched-length :
      (i : ℕ) (ts : List (Test IP)) (rs : List (Release IP))
      → Matched i ts rs
      → length ts ≡ length rs
  Matched-length i [] [] h = refl
  Matched-length i [] (r ∷ rs) h = elim h [ ]
  Matched-length i (t ∷ ts) [] h = elim h [ ]
  Matched-length i (t ∷ ts) (r ∷ rs) (a, b, f, h) = ap suc (Matched-length (suc i) ts rs h)
