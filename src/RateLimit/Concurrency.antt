-- ===== src/RateLimit/Concurrency.antt =====
-- The per-address concurrency gate of internal/ratelimit/ratelimit.go: the counter of an entry
-- against the release functions that are still to be called.
use go_speedtest.Prelude.{
  ℕ, ◌≤◌, ◌<◌, ◌≡◌, refl, inl, inr, false, Option, none, some, List, [], ◌∷◌, ◌++◌, arith, ltb,
  Bool-cases, Option-cases, get_elem?, get_elem?-set, get_elem?-append_one, Comparable,
}
use go_speedtest.Prelude.Int.{ℤ, pos, ◌+ℤ◌, ◌-ℤ◌, ◌≤ℤ◌, ◌<ℤ◌}
use go_speedtest.Prelude.Double.{Double}
use go_speedtest.RateLimit.Open.{open_at, open_at-append, open_at-pos, open_at-set, open_at_unused}
use go_speedtest.RateLimit.{
  Entry, Release, Limiter, Call, acquires, releases, update, at_capacity, out_of_tokens, new, keep,
  sweep, entry_for, refill, admit, decide_entry, acquire, fire, release, step, run,
}

module _ {F : Type 0} where
  -- A kept pointer is the one that stood there.
  keep-eq_some :
      (h : ℕ → Entry F) (now : ℕ) (o : Option ℕ) (p : ℕ) → keep h now o ≡ some p → o ≡ some p
  keep-eq_some h now none p e = e
  keep-eq_some h now (some q) p e = ground arith

  keep_busy :
      (h : ℕ → Entry F) (now p k : ℕ) (o : Option ℕ)
      → o ≡ some p
      → (h p).active ≡ pos k
      → 1 ≤ k
      → keep h now o ≡ some p
  keep_busy h now p k none e a b = cc
  keep_busy h now p k (some q) e a b = ground arith

module _ {F : Type 0} ⦃d : Double F⦄ where
  admit-active : (b : F) (e : Entry F) → (admit b e).active ≡ e.active +ℤ pos 1
  unfolding admit
  admit-active b e = ground arith

module _ {IP F : Type 0} ⦃c : Comparable IP⦄ ⦃d : Double F⦄ where
  -- The counter of each entry is the number of its open release functions; an open release function
  -- captured the entry that its client has in the map now; entries are not shared; and the counter
  -- stays within the limit.
  pub record Inv (l : Limiter IP F) : Type 0 where
    pub counted : (p : ℕ) → (l.heap p).active ≡ pos (open_at p l.releases)
    pub placed :
        (n : ℕ) (r : Release IP)
        → get_elem? l.releases n ≡ some r
        → r.fired ≡ false
        → l.entries r.client ≡ some r.entry
    pub captured : (n : ℕ) (r : Release IP) → get_elem? l.releases n ≡ some r → r.entry < l.next
    pub allocated : (ip : IP) (p : ℕ) → l.entries ip ≡ some p → p < l.next
    pub distinct : (i j : IP) (p : ℕ) → l.entries i ≡ some p → l.entries j ≡ some p → i ≡ j
    pub within : (p : ℕ) → pos 0 <ℤ l.per_ip → (l.heap p).active ≤ℤ l.per_ip

  pub new-Inv : (per_ip : ℤ) (rate : F) (burst : ℤ) → Inv (new per_ip rate burst)
  unfolding new open_at
  new-Inv per_ip rate burst = record {
    counted = λ p. refl;
    placed = λ n r e f. cc;
    captured = λ n r e. cc;
    allocated = λ ip p e. cc;
    distinct = λ i j p e f. cc;
    within = λ p h. ground arith;
  }

  pub sweep-Inv : (l : Limiter IP F) (now : ℕ) → Inv l → Inv (sweep l now)
  unfolding sweep
  sweep-Inv l now v = elim (Bool-cases (ltb l.next_cleanup now)) [
    | inl e ↦ rw e (record {
      counted = v.counted;
      placed = λ n r g f.
          keep_busy l.heap now r.entry _ _ (v.placed n r g f) (v.counted r.entry)
            (open_at-pos l.releases n r g f);
      captured = v.captured;
      allocated = λ ip p g. v.allocated ip p (keep-eq_some l.heap now _ p g);
      distinct = λ i j p g h.
          v.distinct i j p (keep-eq_some l.heap now _ p g) (keep-eq_some l.heap now _ p h);
      within = v.within;
    })
    | inr e ↦ rw e v
  ]

  pub entry_for-Inv :
      (l : Limiter IP F) (now : ℕ) (ip : IP)
      → Inv l
      → Inv (entry_for l now ip).0
        × ((entry_for l now ip).0.entries ip ≡ some (entry_for l now ip).1)
  unfolding entry_for
  entry_for-Inv l now ip v = elim (Option-cases (l.entries ip)) [
    | inr (p, e) ↦ rw (e, entry_for) (v, e)
    | inl e ↦
        rw (e, entry_for)
          (
            record {
              counted = λ p.
                  let unused = open_at_unused l.next l.releases v.captured in
                  ground (arith, v.counted p, unused);
              placed = λ n r g f. ground (arith, v.placed n r g f, c.eq_iff r.client ip);
              captured = λ n r g. omega (arith, v.captured n r g);
              allocated = λ j p g. ground (arith, v.allocated j p);
              distinct = λ i j p g h. ground (
                arith,
                c.eq_iff i ip,
                c.eq_iff j ip,
                v.distinct i j p,
                v.allocated i p,
                v.allocated j p,
              );
              within = λ p h. ground (arith, v.within p h);
            },
            ground (arith, c.eq_iff ip ip),
          )
  ]

  pub refill-Inv :
      (l : Limiter IP F) (p now : ℕ)
      → Inv l
      → Inv (record l { heap = update l.heap p (refill l.rate l.burst now (l.heap p)) })
  unfolding refill
  refill-Inv l p now v = record {
    counted = λ q. ground (arith, v.counted q);
    placed = v.placed;
    captured = v.captured;
    allocated = v.allocated;
    distinct = v.distinct;
    within = λ q h. ground (arith, v.within q h);
  }

  -- An admission below the limit, under a release function that captures the client's entry.
  admit-Inv :
      (l : Limiter IP F) (p : ℕ) (ip : IP)
      → Inv l
      → l.entries ip ≡ some p
      → at_capacity l.per_ip (l.heap p) ≡ false
      → Inv (record l {
        heap = update l.heap p (admit l.burst (l.heap p));
        releases = l.releases ++ record { entry = p; fired = false; client = ip } ∷ [];
      })
  unfolding ◌+ℤ◌ open_at
  admit-Inv l p ip v e room = record {
    counted = λ q. ground (
      arith,
      v.counted q,
      v.counted p,
      admit-active l.burst (l.heap p),
      open_at-append q l.releases (record { entry = p; fired = false; client = ip }),
    );
    placed = λ n r g f. ground (arith, get_elem?-append_one l.releases n _ g, v.placed n r);
    captured = λ n r g.
        ground (arith, get_elem?-append_one l.releases n _ g, v.captured n r, v.allocated ip p e);
    allocated = v.allocated;
    distinct = v.distinct;
    within = λ q h. ground (arith, v.within q h, v.counted p, admit-active l.burst (l.heap p));
  }

  decide_entry-Inv :
      (l : Limiter IP F) (p : ℕ) (ip : IP)
      → Inv l
      → l.entries ip ≡ some p
      → Inv (decide_entry l p ip).0
  unfolding decide_entry
  decide_entry-Inv l p ip v e = elim (Bool-cases (at_capacity l.per_ip (l.heap p))) [
    | inl full ↦ rw full v
    | inr room ↦ elim (Bool-cases (out_of_tokens l.burst (l.heap p))) [
      | inl poor ↦ rw (room, poor) v
      | inr rich ↦ rw (room, rich) (admit-Inv l p ip v e room)
    ]
  ]

  fire-Inv :
      (l : Limiter IP F) (n : ℕ) (o : Option (Release IP))
      → get_elem? l.releases n ≡ o
      → Inv l
      → Inv (fire l n o)
  unfolding fire ◌-ℤ◌
  fire-Inv l n none e v = v
  fire-Inv l n (some r) e v = elim (Bool-cases r.fired) [
    | inl f ↦ rw f v
    | inr f ↦ rw f (record {
      counted =
          λ p. ground (arith, v.counted p, v.counted r.entry, open_at-set p l.releases n r e f);
      placed = λ m x g h. ground (arith, get_elem?-set l.releases n m _ g, v.placed m x);
      captured = λ m x g.
          ground (arith, get_elem?-set l.releases n m _ g, v.captured m x, v.captured n r e);
      allocated = v.allocated;
      distinct = v.distinct;
      within =
          λ p h. ground (arith, v.within p h, v.counted r.entry, open_at-set p l.releases n r e f);
    })
  ]

  acquired-Inv : (l : Limiter IP F) (now : ℕ) (ip : IP) → Inv l → Inv (acquire l now ip).0
  unfolding acquire
  acquired-Inv l now ip v =
      let (w, e) = entry_for-Inv (sweep l now) now ip (sweep-Inv l now v) in
      decide_entry-Inv _ _ ip (refill-Inv _ _ now w) e

  pub step-Inv : (l : Limiter IP F) (k : Call IP) → Inv l → Inv (step l k)
  unfolding step release
  step-Inv l (acquires now ip) v = acquired-Inv l now ip v
  step-Inv l (releases n) v = fire-Inv l n _ refl v

  pub run-Inv : (l : Limiter IP F) (ks : List (Call IP)) → Inv l → Inv (run l ks)
  unfolding run
  run-Inv l [] v = v
  run-Inv l (k ∷ ks) v = run-Inv (step l k) ks (step-Inv l k v)
