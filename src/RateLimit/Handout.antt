-- ===== src/RateLimit/Handout.antt =====
-- The release functions that `Acquire` of internal/ratelimit/ratelimit.go hands out.
use go_speedtest.Prelude.{
  ℕ, ◌≡◌, refl, ap, ◌∙◌, true, false, none, some, [], ◌∷◌, ◌++◌, arith, length, get_elem?, set,
  Comparable,
}
use go_speedtest.Prelude.Int.{ℤ}
use go_speedtest.Prelude.Double.{Double}
use go_speedtest.RateLimit.Open.{open_for, open_for-append, open_for_one, get_elem?-length}
use go_speedtest.RateLimit.Admission.{acquire_frame, release-open_for, step_frame}
use go_speedtest.RateLimit.Concurrency.{Inv, step-Inv}
use go_speedtest.RateLimit.{
  Release, Limiter, update, sweep, entry_for, refill, decide_entry, acquire, release, acquires,
  releases, fire, step, new,
}

module _ {IP F : Type 0} ⦃c : Comparable IP⦄ ⦃d : Double F⦄ where
  decide_entry-some :
      (l : Limiter IP F) (p : ℕ) (ip : IP) {n : ℕ}
      → (decide_entry l p ip).1 ≡ some n
      → (n ≡ length l.releases)
        × ((decide_entry l p ip).0.releases
            ≡ l.releases ++ record { entry = p; fired = false; client = ip } ∷ [])
  unfolding decide_entry
  decide_entry-some l p ip h = ground arith

  -- An admission hands out a new release function for the client.
  pub acquire-some :
      (l : Limiter IP F) (now : ℕ) (ip : IP) {n : ℕ}
      → (acquire l now ip).1 ≡ some n
      → (p : ℕ) × (n ≡ length l.releases)
        × ((acquire l now ip).0.releases
            ≡ l.releases ++ record { entry = p; fired = false; client = ip } ∷ [])
  unfolding acquire
  acquire-some l now ip h =
      let l₁ : Limiter IP F = (entry_for (sweep l now) now ip).0 in
      let p : ℕ = (entry_for (sweep l now) now ip).1 in
      let l₂ : Limiter IP F = record l₁ {
        heap = update l₁.heap p (refill l₁.rate l₁.burst now (l₁.heap p));
      } in
      let (e, r) = decide_entry-some l₂ p ip h in
      let (rs, _, _) = acquire_frame l now ip in
      (
        p,
        e ∙ ap length rs,
        r ∙ ap (λ x. x ++ record { entry = p; fired = false; client = ip } ∷ []) rs,
      )

  -- A test that is admitted and whose release function is then called leaves every client with the
  -- tests that it had.
  pub acquire-release :
      (l : Limiter IP F) (now : ℕ) (ip other : IP) {n : ℕ}
      → (acquire l now ip).1 ≡ some n
      → open_for other (release (acquire l now ip).0 n).releases ≡ open_for other l.releases
  acquire-release l now ip other {n} h =
      let (p, e, rs) = acquire-some l now ip h in
      let l' : Limiter IP F = (acquire l now ip).0 in
      let r : Release IP = record { entry = p; fired = false; client = ip } in
      let found : get_elem? l'.releases n ≡ some r = rw (rs, e) (get_elem?-length l.releases r) in
      let (ends, _) = release-open_for l' n r found refl in
      omega (
        arith,
        ends other,
        ap (open_for other) rs,
        open_for-append other l.releases r,
        open_for_one other r refl,
      )

  decide_entry-none :
      (l : Limiter IP F) (p : ℕ) (ip : IP)
      → (decide_entry l p ip).1 ≡ none
      → (decide_entry l p ip).0.releases ≡ l.releases
  unfolding decide_entry
  decide_entry-none l p ip h = ground arith

  pub acquire-none :
      (l : Limiter IP F) (now : ℕ) (ip : IP)
      → (acquire l now ip).1 ≡ none
      → (acquire l now ip).0.releases ≡ l.releases
  unfolding acquire
  acquire-none l now ip h =
      let l₁ : Limiter IP F = (entry_for (sweep l now) now ip).0 in
      let p : ℕ = (entry_for (sweep l now) now ip).1 in
      let l₂ : Limiter IP F = record l₁ {
        heap = update l₁.heap p (refill l₁.rate l₁.burst now (l₁.heap p));
      } in
      decide_entry-none l₂ p ip h ∙ (acquire_frame l now ip).0

  -- What every call keeps: the invariant, and the limit per address.
  pub acquire-Inv :
      (l : Limiter IP F) (now : ℕ) (ip : IP)
      → Inv l
      → Inv (acquire l now ip).0 × ((acquire l now ip).0.per_ip ≡ l.per_ip)
  unfolding step
  acquire-Inv l now ip v = (step-Inv l (acquires now ip) v, (step_frame l (acquires now ip)).0)

  pub release-Inv :
      (l : Limiter IP F) (n : ℕ) → Inv l → Inv (release l n) × ((release l n).per_ip ≡ l.per_ip)
  unfolding step
  release-Inv l n v = (step-Inv l (releases n) v, (step_frame l (releases n)).0)

  pub release-releases :
      (l : Limiter IP F) (n : ℕ) (r : Release IP)
      → get_elem? l.releases n ≡ some r
      → r.fired ≡ false
      → (release l n).releases ≡ set l.releases n (record r { fired = true })
  unfolding release
  release-releases l n r e f = rw (e, fire, f) refl

  -- A new limiter has its limit, and has handed out nothing.
  pub new_lem :
      (per_ip : ℤ) (rate : F) (burst : ℤ)
      → let l : Limiter IP F = new per_ip rate burst in (l.per_ip ≡ per_ip) × (l.releases ≡ [])
  unfolding new
  new_lem per_ip rate burst = (refl, refl)
