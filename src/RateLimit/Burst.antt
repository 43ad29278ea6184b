-- ===== src/RateLimit/Burst.antt =====
-- How many tests the token bucket of internal/ratelimit/ratelimit.go lets start at one instant.
use go_speedtest.Prelude.{
  ℕ, zero, suc, ◌+◌, ◌^◌, ◌≤◌, ◌<◌, ◌≡◌, refl, sym, subst, inl, inr, false, Option, none, some,
  List, [], ◌∷◌, ◌++◌, arith, Bool-cases, Option-cases, get_elem?, All, Comparable,
}
use go_speedtest.Prelude.Int.{ℤ, pos}
use go_speedtest.Prelude.Double.{Double}
use go_speedtest.RateLimit.Concurrency.{
  Inv, new-Inv, step-Inv, sweep-Inv, entry_for-Inv, refill-Inv,
}
use go_speedtest.RateLimit.{
  Release, Limiter, Call, acquires, releases, update, at_capacity, out_of_tokens, admit, new, sweep,
  decide_entry, acquire, fire, release, step, run,
}
use go_speedtest.RateLimit.Bucket.{
  IsExact, IsAt, starts, starts-append, starts-set, Level, Seen, sweep-Level, entry_for-Level,
  refill-Level, admit-tokens, out_of_tokens-eq,
}

module _ {IP F : Type 0} ⦃c : Comparable IP⦄ ⦃d : Double F⦄ where
  -- What `decide_entry` makes of an admission.
  abbrev admitted_entry : Limiter IP F → ℕ → IP → Limiter IP F
  admitted_entry l p ip = record l {
    heap = update l.heap p (admit l.burst (l.heap p));
    releases = l.releases ++ record { entry = p; fired = false; client = ip } ∷ [];
  }

  admitted_entry-Level :
      (x : IsExact d) (b t : ℕ) (l : Limiter IP F) (ip : IP) (p : ℕ)
      → 0 < b
      → b ≤ 2 ^ 53
      → Inv l
      → l.entries ip ≡ some p
      → out_of_tokens l.burst (l.heap p) ≡ false
      → Seen t l
      → Level b t l
      → Level b t (admitted_entry l p ip) × Seen t (admitted_entry l p ip)
  admitted_entry-Level x b t l ip p pb mb i e rich s v =
      let (k, tk, left) = v.level ip p e in
      let rest = out_of_tokens-eq x b k (l.heap p) l.burst v.capacity pb mb tk (omega arith) in
      paid k tk left (ground arith)
    where
      paid :
          (k : ℕ)
          → (l.heap p).tokens ≡ d.of_int (pos k)
          → k + starts ip l.releases ≡ b
          → 0 < k
          → Level b t (admitted_entry l p ip) × Seen t (admitted_entry l p ip)
      paid zero tk left more = absurd (omega arith)
      paid (suc k) tk left more =
          let r : Release IP = record { entry = p; fired = false; client = ip } in
          let (a, f, g) = admit-tokens x b k (l.heap p) l.burst v.capacity pb mb tk (omega arith) in
          (
            record {
              capacity = v.capacity;
              level = λ j q h.
                  let more = starts-append j l.releases r in
                  let (m, y, z) = v.level j q h in
                  elim (Bool-cases (c.eq ip j)) [
                    | inl y' ↦ (k, ground (arith, c.eq_iff ip j), ground (arith, c.eq_iff ip j))
                    | inr n ↦ (m, ground (arith, i.distinct j ip p, c.eq_iff ip j), ground arith)
                  ];
              unknown =
                  λ j h. ground (arith, starts-append j l.releases r, v.unknown j h, c.eq_iff ip j);
              filled = λ j q h. ground (arith, v.filled j q h, v.filled ip p e);
            },
            λ j q h. ground (arith, s j q h, s ip p e),
          )

  decide_entry-Level :
      (x : IsExact d) (b t : ℕ) (l : Limiter IP F) (ip : IP) (p : ℕ)
      → 0 < b
      → b ≤ 2 ^ 53
      → Inv l
      → l.entries ip ≡ some p
      → Seen t l
      → Level b t l
      → Level b t (decide_entry l p ip).0 × Seen t (decide_entry l p ip).0
  unfolding decide_entry
  decide_entry-Level x b t l ip p pb mb i e s v =
      elim (Bool-cases (at_capacity l.per_ip (l.heap p))) [
        | inl full ↦ rw full (v, s)
        | inr room ↦ elim (Bool-cases (out_of_tokens l.burst (l.heap p))) [
          | inl poor ↦ rw (room, poor) (v, s)
          | inr rich ↦ rw (room, rich) (admitted_entry-Level x b t l ip p pb mb i e rich s v)
        ]
      ]

  acquire-Level :
      (x : IsExact d) (b t : ℕ) (l : Limiter IP F) (ip : IP)
      → 0 < b
      → b ≤ 2 ^ 53
      → Inv l
      → Seen t l
      → Level b t l
      → Level b t (acquire l t ip).0 × Seen t (acquire l t ip).0
  unfolding acquire
  acquire-Level x b t l ip pb mb i s v =
      let i₁ = sweep-Inv l t i in
      let (v₁, s₁) = sweep-Level b t l s v in
      let (i₂, e) = entry_for-Inv (sweep l t) t ip i₁ in
      let (v₂, s₂) = entry_for-Level b t (sweep l t) ip i₁ s₁ v₁ in
      let (v₃, s₃) = refill-Level b t _ ip _ e s₂ v₂ in
      decide_entry-Level x b t _ ip _ pb mb (refill-Inv _ _ t i₂) e s₃ v₃

  fire-Level :
      (b t : ℕ) (l : Limiter IP F) (n : ℕ) (o : Option (Release IP))
      → get_elem? l.releases n ≡ o
      → Seen t l
      → Level b t l
      → Level b t (fire l n o) × Seen t (fire l n o)
  unfolding fire
  fire-Level b t l n none e s v = (v, s)
  fire-Level b t l n (some r) e s v = elim (Bool-cases r.fired) [
    | inl f ↦ rw f (v, s)
    | inr f ↦ rw f (
      record {
        capacity = v.capacity;
        level = λ j q h.
            let (k, x, z) = v.level j q h in
            (k, ground (arith, x), rw (starts-set j l.releases n r e) z);
        unknown = λ j h. rw (starts-set j l.releases n r e) (v.unknown j h);
        filled = λ j q h. ground (arith, v.filled j q h);
      },
      λ j q h. ground (arith, s j q h),
    )
  ]

  step-Level :
      (x : IsExact d) (b t : ℕ) (l : Limiter IP F) (k : Call IP)
      → 0 < b
      → b ≤ 2 ^ 53
      → IsAt t k
      → Inv l
      → Seen t l
      → Level b t l
      → Level b t (step l k) × Seen t (step l k)
  unfolding step release
  step-Level x b t l (acquires now ip) pb mb a i s v =
      subst (λ u. Level b t (acquire l u ip).0 × Seen t (acquire l u ip).0) (sym a)
        (acquire-Level x b t l ip pb mb i s v)
  step-Level x b t l (releases n) pb mb a i s v = fire-Level b t l n _ refl s v

  run-Level :
      (x : IsExact d) (b t : ℕ) (l : Limiter IP F) (ks : List (Call IP))
      → 0 < b
      → b ≤ 2 ^ 53
      → All (IsAt t) ks
      → Inv l
      → Seen t l
      → Level b t l
      → Level b t (run l ks)
  unfolding run
  run-Level x b t l [] pb mb a i s v = v
  run-Level x b t l (k ∷ ks) pb mb (a, as') i s v =
      let (v', s') = step-Level x b t l k pb mb a i s v in
      run-Level x b t (step l k) ks pb mb as' (step-Inv l k i) s' v'

  new-Level :
      (per_ip : ℤ) (rate : F) (b t : ℕ)
      → Level b t (new {IP = IP} per_ip rate (pos b)) × Seen t (new {IP = IP} per_ip rate (pos b))
  unfolding new starts
  new-Level per_ip rate b t = (
    record { capacity = refl; level = λ ip p e. cc; unknown = λ ip e. refl; filled = λ ip p e. cc },
    λ ip p e. cc,
  )

  pub burst_bounded :
      (x : IsExact d) (per_ip : ℤ) (rate : F) (b t : ℕ) (calls : List (Call IP)) (ip : IP)
      → 0 < b
      → b ≤ 2 ^ 53
      → All (IsAt t) calls
      → starts ip (run (new per_ip rate (pos b)) calls).releases ≤ b
  burst_bounded x per_ip rate b t calls ip pb mb a =
      let l : Limiter IP F = run (new per_ip rate (pos b)) calls in
      let (v₀, s₀) = new-Level per_ip rate b t in
      let v =
        run-Level x b t (new per_ip rate (pos b)) calls pb mb a (new-Inv per_ip rate (pos b)) s₀
          v₀ in
      elim (Option-cases (l.entries ip)) [
        | inl e ↦ omega (arith, v.unknown ip e)
        | inr (p, e) ↦ let (k, _, left) = v.level ip p e in omega arith
      ]
