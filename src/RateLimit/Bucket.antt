-- ===== src/RateLimit/Bucket.antt =====
-- The token bucket of internal/ratelimit/ratelimit.go at one instant.
use go_speedtest.Prelude.{
  ℕ, zero, suc, ◌+◌, ◌^◌, ◌≤◌, ◌<◌, ◌≡◌, refl, sym, ◌∙◌, ◌⊎◌, inl, inr, true, Option, none, some,
  List, [], ◌∷◌, ◌++◌, arith, ltb, ◌==◌, if◌then◌else◌, Bool-cases, Option-cases, get_elem?, set,
  Comparable,
}
use go_speedtest.Prelude.Int.{pos}
use go_speedtest.Prelude.Double.{Double}
use go_speedtest.Prelude.Instant.{sub_time_self}
use go_speedtest.RateLimit.Concurrency.{Inv}
use go_speedtest.RateLimit.{
  Entry, Release, Limiter, Call, acquires, releases, update, keep, out_of_tokens, refill, admit,
  sweep, entry_for,
}

-- Whole numbers up to 2 ^ 53 are exact, as in IEEE 754.
pub record IsExact {F : Type 0} (d : Double F) : Type 0 where
  pub below_one : (n : ℕ) → n ≤ 2 ^ 53 → d.lt (d.of_int (pos n)) (d.of_int (pos 1)) ≡ (n == 0)
  pub positive : (n : ℕ) → n ≤ 2 ^ 53 → d.lt (d.of_int (pos 0)) (d.of_int (pos n)) ≡ ltb 0 n
  pub minus_one :
      (n : ℕ) → n < 2 ^ 53 → d.sub (d.of_int (pos (suc n))) (d.of_int (pos 1)) ≡ d.of_int (pos n)

-- A call that happens at `t`; a release may happen at any time.
abbrev pub IsAt : {IP : Type 0} → ℕ → Call IP → Type 0
IsAt t (acquires now ip) = now ≡ t
IsAt t (releases n) = Unit {0}

module _ {IP : Type 0} ⦃c : Comparable IP⦄ where
  -- The tests of a client that were admitted, released or not.
  unfoldable pub starts : IP → List (Release IP) → ℕ
  starts ip [] = 0
  starts ip (r ∷ rs) = (if c.eq r.client ip then 1 else 0) + starts ip rs

  pub starts-append :
      (ip : IP) (rs : List (Release IP)) (r : Release IP)
      → starts ip (rs ++ r ∷ []) ≡ starts ip rs + (if c.eq r.client ip then 1 else 0)
  unfolding starts
  starts-append ip [] r = omega arith
  starts-append ip (x ∷ rs) r = omega (arith, starts-append ip rs r)

  pub starts-set :
      (ip : IP) (rs : List (Release IP)) (n : ℕ) (r : Release IP)
      → get_elem? rs n ≡ some r
      → starts ip (set rs n (record r { fired = true })) ≡ starts ip rs
  unfolding starts
  starts-set ip [] n r e = cc
  starts-set ip (x ∷ rs) zero r e = ground arith
  starts-set ip (x ∷ rs) (suc n) r e = omega (arith, starts-set ip rs n r e)

module _ {F : Type 0} where
  keep_seen :
      (h : ℕ → Entry F) (t : ℕ) (o : Option ℕ)
      → ((p : ℕ) → o ≡ some p → (h p).last_seen ≡ t)
      → keep h t o ≡ o
  keep_seen h t none s = refl
  keep_seen h t (some p) s = ground (arith, s p refl, sub_time_self t)

module _ {F : Type 0} ⦃d : Double F⦄ where
  -- At the instant of the last refill nothing is added.
  refill_now :
      (rate burst : F) (t : ℕ) (e : Entry F)
      → e.last_refill ≡ t
      → refill rate burst t e ≡ record e { last_seen = t }
  unfolding refill
  refill_now rate burst t e h = ground (arith, sub_time_self t)

  pub admit-tokens :
      (x : IsExact d) (b k : ℕ) (e : Entry F) (burst : F)
      → burst ≡ d.of_int (pos b)
      → 0 < b
      → b ≤ 2 ^ 53
      → e.tokens ≡ d.of_int (pos (suc k))
      → k < b
      → ((admit burst e).tokens ≡ d.of_int (pos k))
        × ((admit burst e).last_refill ≡ e.last_refill)
        × ((admit burst e).last_seen ≡ e.last_seen)
  unfolding admit
  admit-tokens x b k e burst h p m t lt =
      ground (arith, x.positive b m, x.minus_one k (omega arith))

  pub out_of_tokens-eq :
      (x : IsExact d) (b k : ℕ) (e : Entry F) (burst : F)
      → burst ≡ d.of_int (pos b)
      → 0 < b
      → b ≤ 2 ^ 53
      → e.tokens ≡ d.of_int (pos k)
      → k ≤ b
      → out_of_tokens burst e ≡ (k == 0)
  out_of_tokens-eq x b k e burst h p m t le =
      rw (h, t) (ground (arith, x.positive b m, x.below_one k (omega arith)))

module _ {IP F : Type 0} ⦃c : Comparable IP⦄ ⦃d : Double F⦄ where
  -- Each client's bucket holds what its starts have left of `b`, and was filled at `t`.
  pub record Level (b t : ℕ) (l : Limiter IP F) : Type 0 where
    pub capacity : l.burst ≡ d.of_int (pos b)
    pub level :
        (ip : IP) (p : ℕ)
        → l.entries ip ≡ some p
        → (k : ℕ) × ((l.heap p).tokens ≡ d.of_int (pos k)) × (k + starts ip l.releases ≡ b)
    pub unknown : (ip : IP) → l.entries ip ≡ none → starts ip l.releases ≡ 0
    pub filled : (ip : IP) (p : ℕ) → l.entries ip ≡ some p → (l.heap p).last_refill ≡ t

  -- Every entry was used at `t`; or every one but perhaps that of the client `ip`.
  abbrev pub Seen : ℕ → Limiter IP F → Type 0
  Seen t l = (j : IP) (p : ℕ) → l.entries j ≡ some p → (l.heap p).last_seen ≡ t

  abbrev pub SeenBut : ℕ → IP → Limiter IP F → Type 0
  SeenBut t ip l = (j : IP) (p : ℕ) → l.entries j ≡ some p → (j ≡ ip) ⊎ ((l.heap p).last_seen ≡ t)

  sweep-entries :
      (l : Limiter IP F) (t : ℕ) → Seen t l → (ip : IP) → (sweep l t).entries ip ≡ l.entries ip
  unfolding sweep
  sweep-entries l t s ip = elim (Bool-cases (ltb l.next_cleanup t)) [
    | inl e ↦ rw e (keep_seen l.heap t (l.entries ip) (s ip))
    | inr e ↦ rw e
  ]

  sweep_frame :
      (l : Limiter IP F) (t : ℕ)
      → ((sweep l t).heap ≡ l.heap)
        × ((sweep l t).releases ≡ l.releases)
        × ((sweep l t).burst ≡ l.burst)
  unfolding sweep
  sweep_frame l t = ground arith

  pub sweep-Level :
      (b t : ℕ) (l : Limiter IP F)
      → Seen t l
      → Level b t l
      → Level b t (sweep l t) × Seen t (sweep l t)
  sweep-Level b t l s v =
      let same = sweep-entries l t s in
      let (h, r, u) = sweep_frame l t in
      (
        record {
          capacity = u ∙ v.capacity;
          level = λ ip p e. rw (h, r) (v.level ip p (sym (same ip) ∙ e));
          unknown = λ ip e. rw r (v.unknown ip (sym (same ip) ∙ e));
          filled = λ ip p e. rw h (v.filled ip p (sym (same ip) ∙ e));
        },
        λ ip p e. rw h (s ip p (sym (same ip) ∙ e)),
      )

  pub entry_for-Level :
      (b t : ℕ) (l : Limiter IP F) (ip : IP)
      → Inv l
      → Seen t l
      → Level b t l
      → Level b t (entry_for l t ip).0 × SeenBut t ip (entry_for l t ip).0
  unfolding entry_for
  entry_for-Level b t l ip i s v = elim (Option-cases (l.entries ip)) [
    | inr (p, e) ↦ rw (e, entry_for) (v, λ j q g. inr (s j q g))
    | inl e ↦
        rw (e, entry_for)
          (
            record {
              capacity = v.capacity;
              level = λ j q g. elim (Bool-cases (c.eq j ip)) [
                | inl y ↦
                    (b, ground (arith, v.capacity), ground (arith, c.eq_iff j ip, v.unknown ip e))
                | inr n ↦
                    let old : l.entries j ≡ some q = rw n at g in
                    let (k, x, z) = v.level j q old in (k, ground (arith, i.allocated j q old), z)
              ];
              unknown = λ j g. ground (arith, v.unknown j);
              filled = λ j q g. ground (arith, v.filled j q, i.allocated j q);
            },
            λ j q g. ground (arith, s j q, i.allocated j q, c.eq_iff j ip),
          )
  ]

  pub refill-Level :
      (b t : ℕ) (l : Limiter IP F) (ip : IP) (p : ℕ)
      → l.entries ip ≡ some p
      → SeenBut t ip l
      → Level b t l
      → let l' = record l { heap = update l.heap p (refill l.rate l.burst t (l.heap p)) } in
        Level b t l' × Seen t l'
  refill-Level b t l ip p e s v = rw (refill_now l.rate l.burst t (l.heap p) (v.filled ip p e)) (
    record {
      capacity = v.capacity;
      level = λ j q g. let (k, x, z) = v.level j q g in (k, ground (arith, x), z);
      unknown = v.unknown;
      filled = λ j q g. ground (arith, v.filled j q g);
    },
    λ j q g. ground (arith, s j q g),
  )
