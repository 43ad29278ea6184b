-- ===== src/RateLimit/Admission.antt =====
-- What `Acquire` and the release functions of internal/ratelimit/ratelimit.go promise a client.
use go_speedtest.Prelude.{
  ℕ, ◌+◌, ◌≡◌, refl, sym, ap, subst, ◌∙◌, inl, inr, ◌↔◌, true, false, Option, none, some, List, [],
  ◌∷◌, arith, ◌==◌, if◌then◌else◌, Bool-cases, Option-cases, get_elem?, get_elem?-set_self,
  Comparable,
}
use go_speedtest.Prelude.Int.{ℤ, pos, ◌≤ℤ◌, ◌<ℤ◌, ◌-ℤ◌}
use go_speedtest.Prelude.Double.{Double}
use go_speedtest.RateLimit.Open.{open_for, open_for-eq-open_at, open_for_absent, open_for-set}
use go_speedtest.RateLimit.Concurrency.{
  Inv, new-Inv, step-Inv, run-Inv, sweep-Inv, entry_for-Inv, refill-Inv,
}
use go_speedtest.RateLimit.{
  Release, Limiter, Call, acquires, releases, step, limits_rate, at_capacity, update, new, sweep,
  entry_for, refill, decide_entry, acquire, fire, release, run,
}

module _ {IP F : Type 0} ⦃c : Comparable IP⦄ ⦃d : Double F⦄ where
  -- A client's entry counts that client's open tests, and nobody else's.
  active-eq-open_for :
      (l : Limiter IP F) (ip : IP) (p : ℕ)
      → Inv l
      → l.entries ip ≡ some p
      → (l.heap p).active ≡ pos (open_for ip l.releases)
  active-eq-open_for l ip p v e =
      v.counted p ∙ ap pos (sym (open_for-eq-open_at ip p l.releases same))
    where
      same :
          (n : ℕ) (r : Release IP)
          → get_elem? l.releases n ≡ some r
          → r.fired ≡ false
          → c.eq r.client ip ≡ (r.entry == p)
      same n r g f =
          ground (arith, v.placed n r g f, v.distinct r.client ip p, c.eq_iff r.client ip)

  pub open_for-le :
      (l : Limiter IP F) (ip : IP)
      → Inv l
      → pos 0 <ℤ l.per_ip
      → pos (open_for ip l.releases) ≤ℤ l.per_ip
  open_for-le l ip v h = elim (Option-cases (l.entries ip)) [
    | inl e ↦ ground (
      arith,
      open_for_absent ip l.releases
          (λ n r g f. ground (arith, v.placed n r g f, c.eq_iff r.client ip)),
    )
    | inr (p, e) ↦ ground (arith, active-eq-open_for l ip p v e, v.within p)
  ]

  -- No call changes the limits.
  pub step_frame :
      (l : Limiter IP F) (k : Call IP)
      → ((step l k).per_ip ≡ l.per_ip) × ((step l k).burst ≡ l.burst)
  unfolding step acquire release sweep entry_for decide_entry
  step_frame l (acquires now ip) = ground arith
  step_frame l (releases n) = ground arith

  run_frame :
      (l : Limiter IP F) (ks : List (Call IP))
      → ((run l ks).per_ip ≡ l.per_ip) × ((run l ks).burst ≡ l.burst)
  unfolding run
  run_frame l [] = (refl, refl)
  run_frame l (k ∷ ks) =
      let (p, b) = run_frame (step l k) ks in let (p', b') = step_frame l k in (p ∙ p', b ∙ b')

  new_frame :
      (per_ip : ℤ) (rate : F) (burst : ℤ) (ks : List (Call IP))
      → let l = run (new per_ip rate burst) ks in (l.per_ip ≡ per_ip) × (l.burst ≡ d.of_int burst)
  unfolding new
  new_frame per_ip rate burst ks = run_frame (new per_ip rate burst) ks

  pub acquire_frame :
      (l : Limiter IP F) (now : ℕ) (ip : IP)
      → let l' = (entry_for (sweep l now) now ip).0 in
        (l'.releases ≡ l.releases) × (l'.per_ip ≡ l.per_ip) × (l'.burst ≡ l.burst)
  unfolding sweep entry_for
  acquire_frame l now ip = ground arith

  -- On every history of a new limiter with a positive limit per address, a client never has more
  -- tests running than the limit.
  pub concurrency_bounded :
      (per_ip : ℤ) (rate : F) (burst : ℤ) (calls : List (Call IP)) (ip : IP)
      → pos 0 <ℤ per_ip
      → pos (open_for ip (run (new per_ip rate burst) calls).releases) ≤ℤ per_ip
  concurrency_bounded per_ip rate burst calls ip h =
      let l : Limiter IP F = run (new per_ip rate burst) calls in
      let (n, _) = new_frame per_ip rate burst calls in
      subst (λ m. pos (open_for ip l.releases) ≤ℤ m) n
        (open_for-le l ip (run-Inv _ calls (new-Inv per_ip rate burst))
          (subst (λ m. pos 0 <ℤ m) (sym n) h))

  decide_entry-eq_none_iff :
      (l : Limiter IP F) (p : ℕ) (ip : IP)
      → limits_rate l.burst ≡ false
      → ((decide_entry l p ip).1 ≡ none) ↔ (at_capacity l.per_ip (l.heap p) ≡ true)
  unfolding decide_entry
  decide_entry-eq_none_iff l p ip h = ground arith

  refused_iff :
      (l : Limiter IP F) (now : ℕ) (ip : IP)
      → Inv l
      → limits_rate l.burst ≡ false
      → ((acquire l now ip).1 ≡ none)
        ↔ ((pos 0 <ℤ l.per_ip) × (l.per_ip ≤ℤ pos (open_for ip l.releases)))
  unfolding acquire
  refused_iff l now ip v h =
      let l₁ : Limiter IP F = (entry_for (sweep l now) now ip).0 in
      let p : ℕ = (entry_for (sweep l now) now ip).1 in
      let l₂ : Limiter IP F = record l₁ {
        heap = update l₁.heap p (refill l₁.rate l₁.burst now (l₁.heap p));
      } in
      let (w, e) = entry_for-Inv (sweep l now) now ip (sweep-Inv l now v) in
      let (rs, n, b) = acquire_frame l now ip in
      let off : limits_rate l₁.burst ≡ false = rw b h in
      ground (
        arith,
        rs,
        n,
        active-eq-open_for l₂ ip p (refill-Inv l₁ p now w) e,
        decide_entry-eq_none_iff l₂ p ip off,
      )

  -- A client is refused exactly when it has as many tests running as the limit allows, provided
  -- that the token bucket is off: tests of other clients and released tests do not count.
  pub acquire-eq_none_iff :
      (per_ip : ℤ) (rate : F) (burst : ℤ) (calls : List (Call IP)) (now : ℕ) (ip : IP)
      → limits_rate (d.of_int burst) ≡ false
      → let l = run (new per_ip rate burst) calls in
        ((acquire l now ip).1 ≡ none)
        ↔ ((pos 0 <ℤ per_ip) × (per_ip ≤ℤ pos (open_for ip l.releases)))
  acquire-eq_none_iff per_ip rate burst calls now ip h =
      let l : Limiter IP F = run (new per_ip rate burst) calls in
      let (n, b) = new_frame per_ip rate burst calls in
      subst
        (λ m. ((acquire l now ip).1 ≡ none) ↔ ((pos 0 <ℤ m) × (m ≤ℤ pos (open_for ip l.releases))))
        n (refused_iff l now ip (run-Inv _ calls (new-Inv per_ip rate burst)) (rw b h))

  fire_idem :
      (l : Limiter IP F) (n : ℕ) (o : Option (Release IP))
      → get_elem? l.releases n ≡ o
      → fire (fire l n o) n (get_elem? (fire l n o).releases n) ≡ fire l n o
  unfolding fire
  fire_idem l n none e = rw e
  fire_idem l n (some r) e = elim (Bool-cases r.fired) [
    | inl f ↦ rw (f, e, fire, f)
    | inr f ↦ rw (f, get_elem?-set_self l.releases n (record r { fired = true }) e)
  ]

  -- The tests that are open after the first call of a release function; a second call of it does
  -- nothing.
  pub release-open_for :
      (l : Limiter IP F) (n : ℕ) (r : Release IP)
      → get_elem? l.releases n ≡ some r
      → r.fired ≡ false
      → let l' = release l n in
        ((ip : IP)
          → open_for ip l'.releases + (if c.eq r.client ip then 1 else 0) ≡ open_for ip l.releases)
        × (release l' n ≡ l')
  unfolding release
  release-open_for l n r e f =
      (λ ip. rw (e, fire, f) (open_for-set ip l.releases n r e f), fire_idem l n _ refl)

  release-active :
      (l : Limiter IP F) (n : ℕ) (r : Release IP)
      → get_elem? l.releases n ≡ some r
      → r.fired ≡ false
      → ((release l n).heap r.entry).active ≡ (l.heap r.entry).active -ℤ pos 1
  unfolding release fire
  release-active l n r e f = rw (e, f) (ground arith)

  -- The first call of a release function that `Acquire` has handed out, on any history of a new
  -- limiter, takes one off the counter of its entry; with it one test of its client ends, and none of
  -- anybody else. Afterwards the counter of every client is again the number of the tests that are
  -- running, and a second call of the release function does nothing.
  pub release_once :
      (per_ip : ℤ) (rate : F) (burst : ℤ) (calls : List (Call IP)) (n : ℕ) (r : Release IP)
      → let l = run (new per_ip rate burst) calls in
        get_elem? l.releases n ≡ some r
        → r.fired ≡ false
        → let l' = release l n in
          ((l'.heap r.entry).active ≡ (l.heap r.entry).active -ℤ pos 1)
          × ((ip : IP)
              → open_for ip l'.releases + (if c.eq r.client ip then 1 else 0)
                ≡ open_for ip l.releases)
          × ((ip : IP) (p : ℕ)
              → l'.entries ip ≡ some p
              → (l'.heap p).active ≡ pos (open_for ip l'.releases))
          × (release l' n ≡ l')
  unfolding step
  release_once per_ip rate burst calls n r e f =
      let l : Limiter IP F = run (new per_ip rate burst) calls in
      let v : Inv (release l n) =
        step-Inv l (releases n) (run-Inv _ calls (new-Inv per_ip rate burst)) in
      let (ends, idle) = release-open_for l n r e f in
      (release-active l n r e f, ends, (λ ip p. active-eq-open_for (release l n) ip p v), idle)
