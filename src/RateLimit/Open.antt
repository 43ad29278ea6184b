-- ===== src/RateLimit/Open.antt =====
-- Counting the release functions of internal/ratelimit/ratelimit.go that are still to be called.
use go_speedtest.Prelude.{
  ℕ, zero, suc, ◌+◌, ◌≤◌, ◌<◌, ◌≡◌, refl, true, false, not, ◌&&◌, some, List, [], ◌∷◌, ◌++◌, arith,
  ◌==◌, if◌then◌else◌, length, get_elem?, set, Comparable,
}
use go_speedtest.RateLimit.{Release}

-- Release functions of the entry `p` that were not called yet.
unfoldable pub open_at : {IP : Type 0} → ℕ → List (Release IP) → ℕ
open_at p [] = 0
open_at p (r ∷ rs) = (if not r.fired && r.entry == p then 1 else 0) + open_at p rs

module _ {IP : Type 0} ⦃c : Comparable IP⦄ where
  -- Tests of the client `ip` that were admitted and not released yet.
  unfoldable pub open_for : IP → List (Release IP) → ℕ
  open_for ip [] = 0
  open_for ip (r ∷ rs) = (if not r.fired && c.eq r.client ip then 1 else 0) + open_for ip rs

module _ {IP : Type 0} where
  pub open_at-append :
      (p : ℕ) (rs : List (Release IP)) (r : Release IP)
      → open_at p (rs ++ r ∷ []) ≡ open_at p rs + open_at p (r ∷ [])
  unfolding open_at
  open_at-append p [] r = omega arith
  open_at-append p (x ∷ rs) r = omega (arith, open_at-append p rs r)

  pub open_at-pos :
      (rs : List (Release IP)) (n : ℕ) (r : Release IP)
      → get_elem? rs n ≡ some r
      → r.fired ≡ false
      → 1 ≤ open_at r.entry rs
  unfolding open_at
  open_at-pos [] n r e f = cc
  open_at-pos (x ∷ rs) zero r e f = ground arith
  open_at-pos (x ∷ rs) (suc n) r e f = omega (arith, open_at-pos rs n r e f)

  -- Calling an open release function takes one off its entry's count, and off no other.
  pub open_at-set :
      (p : ℕ) (rs : List (Release IP)) (n : ℕ) (r : Release IP)
      → get_elem? rs n ≡ some r
      → r.fired ≡ false
      → open_at p (set rs n (record r { fired = true })) + (if r.entry == p then 1 else 0)
        ≡ open_at p rs
  unfolding open_at
  open_at-set p [] n r e f = cc
  open_at-set p (x ∷ rs) zero r e f = ground arith
  open_at-set p (x ∷ rs) (suc n) r e f = omega (arith, open_at-set p rs n r e f)

  pub open_at_unused :
      (p : ℕ) (rs : List (Release IP))
      → ((n : ℕ) (r : Release IP) → get_elem? rs n ≡ some r → r.entry < p)
      → open_at p rs ≡ 0
  unfolding open_at
  open_at_unused p [] h = refl
  open_at_unused p (x ∷ rs) h =
      ground (arith, h 0 x refl, open_at_unused p rs (λ n r e. h (suc n) r e))

module _ {IP : Type 0} ⦃c : Comparable IP⦄ where
  pub open_for-eq-open_at :
      (ip : IP) (p : ℕ) (rs : List (Release IP))
      → ((n : ℕ) (r : Release IP)
          → get_elem? rs n ≡ some r
          → r.fired ≡ false
          → (c.eq r.client ip) ≡ (r.entry == p))
      → open_for ip rs ≡ open_at p rs
  unfolding open_for open_at
  open_for-eq-open_at ip p [] h = refl
  open_for-eq-open_at ip p (r ∷ rs) h =
      ground (arith, h 0 r refl, open_for-eq-open_at ip p rs (λ n x e. h (suc n) x e))

  pub open_for_absent :
      (ip : IP) (rs : List (Release IP))
      → ((n : ℕ) (r : Release IP)
          → get_elem? rs n ≡ some r
          → r.fired ≡ false
          → c.eq r.client ip ≡ false)
      → open_for ip rs ≡ 0
  unfolding open_for
  open_for_absent ip [] h = refl
  open_for_absent ip (r ∷ rs) h =
      ground (arith, h 0 r refl, open_for_absent ip rs (λ n x e. h (suc n) x e))

  pub open_for-set :
      (ip : IP) (rs : List (Release IP)) (n : ℕ) (r : Release IP)
      → get_elem? rs n ≡ some r
      → r.fired ≡ false
      → open_for ip (set rs n (record r { fired = true })) + (if c.eq r.client ip then 1 else 0)
        ≡ open_for ip rs
  unfolding open_for
  open_for-set ip [] n r e f = cc
  open_for-set ip (x ∷ rs) zero r e f = ground arith
  open_for-set ip (x ∷ rs) (suc n) r e f = omega (arith, open_for-set ip rs n r e f)

  pub open_for-append :
      (ip : IP) (rs : List (Release IP)) (r : Release IP)
      → open_for ip (rs ++ r ∷ []) ≡ open_for ip rs + open_for ip (r ∷ [])
  unfolding open_for
  open_for-append ip [] r = omega arith
  open_for-append ip (x ∷ rs) r = omega (arith, open_for-append ip rs r)

module _ {IP : Type 0} ⦃c : Comparable IP⦄ where
  pub open_for_one :
      (ip : IP) (r : Release IP)
      → r.fired ≡ false
      → open_for ip (r ∷ []) ≡ (if c.eq r.client ip then 1 else 0)
  unfolding open_for
  open_for_one ip r f = ground arith

pub get_elem?-length :
    {A : Type 0} (xs : List A) (a : A) → get_elem? (xs ++ a ∷ []) (length xs) ≡ some a
get_elem?-length [] a = refl
get_elem?-length (x ∷ xs) a = get_elem?-length xs a
