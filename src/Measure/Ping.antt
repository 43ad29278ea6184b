-- ===== src/Measure/Ping.antt =====
-- `PingStats` of internal/measure/measure.go against a list of round trips.
use go_speedtest.Prelude.{
  suc, ◌+◌, ◌<◌, ◌≡◌, refl, ap, ◌∙◌, ◌⊎◌, true, false, List, [], ◌∷◌, arith, if◌then◌else◌, All,
  length,
}
use go_speedtest.Prelude.Int.{ℤ, pos, ◌≤ℤ◌}
use go_speedtest.Prelude.Double.{Double}
use go_speedtest.Measure.{PingStats, JitterEwma, new_ping_stats, add_ping, update, delta_ms}

-- The element is in the list.
abbrev pub IsIn : ℤ → List ℤ → Type 0
IsIn a [] = ⊥
IsIn a (x ∷ xs) = (a ≡ x) ⊎ IsIn a xs

module _ {F : Type 0} ⦃d : Double F⦄ where
  -- One `Add` after another.
  unfoldable pub add_pings : PingStats F → List ℤ → PingStats F
  add_pings p [] = p
  add_pings p (rtt ∷ rtts) = add_pings (add_ping p rtt) rtts

  -- The deltas between successive round trips, the first of them from `last`.
  unfoldable pub deltas : ℤ → List ℤ → List F
  deltas last [] = []
  deltas last (rtt ∷ rtts) = delta_ms last rtt ∷ deltas rtt rtts

  -- The asymmetric average of DESIGN.md: a spike counts 0.7, a decay 0.2.
  unfoldable pub blend : F → F → F
  blend j x =
      if d.lt j x
      then d.add (d.mul (d.dec 3 1) j) (d.mul (d.dec 7 1) x)
      else d.add (d.mul (d.dec 8 1) j) (d.mul (d.dec 2 1) x)

  unfoldable pub ewma : F → List F → F
  ewma j [] = j
  ewma j (x ∷ xs) = ewma (blend j x) xs

  -- Zero with no sample; the first sample starts the average.
  unfoldable pub jitter_of : List F → F
  jitter_of [] = d.of_int (pos 0)
  jitter_of (x ∷ xs) = ewma x xs

  updates : JitterEwma F → List F → JitterEwma F
  updates j [] = j
  updates j (x ∷ xs) = updates (update j x) xs

  update_later :
      (j : JitterEwma F) (x : F)
      → j.init ≡ true
      → ((update j x).value ≡ blend j.value x) × ((update j x).init ≡ true)
  unfolding update blend
  update_later j x h = ground arith

  updates-ewma :
      (j : JitterEwma F) (xs : List F) → j.init ≡ true → (updates j xs).value ≡ ewma j.value xs
  unfolding updates ewma
  updates-ewma j [] h = refl
  updates-ewma j (x ∷ xs) h =
      let (v, i) = update_later j x h in updates-ewma (update j x) xs i ∙ ap (λ w. ewma w xs) v

  updates-jitter_of :
      (xs : List F)
      → (updates (record { value = d.of_int (pos 0); init = false }) xs).value ≡ jitter_of xs
  unfolding updates jitter_of update
  updates-jitter_of [] = refl
  updates-jitter_of (x ∷ xs) = updates-ewma (record { value = x; init = true }) xs refl

  add_ping_facts :
      (p : PingStats F) (rtt : ℤ)
      → 0 < p.count
      → let p' = add_ping p rtt in
        (p'.count ≡ suc p.count)
        × (p'.last ≡ rtt)
        × (p'.jitter ≡ update p.jitter (delta_ms p.last rtt))
        × (p'.min ≤ℤ p.min)
        × (p'.min ≤ℤ rtt)
        × ((p'.min ≡ p.min) ⊎ (p'.min ≡ rtt))
  unfolding add_ping
  add_ping_facts p rtt h = ground arith

  add_pings-jitter :
      (p : PingStats F) (rtts : List ℤ)
      → 0 < p.count
      → (add_pings p rtts).jitter ≡ updates p.jitter (deltas p.last rtts)
  unfolding add_pings updates deltas
  add_pings-jitter p [] h = refl
  add_pings-jitter p (rtt ∷ rtts) h =
      let (c, l, j, _, _, _) = add_ping_facts p rtt h in
      rw (add_pings-jitter (add_ping p rtt) rtts (omega arith), j, l)

  -- The minimum and the count, once there is a sample.
  add_pings-min :
      (p : PingStats F) (rtts : List ℤ)
      → 0 < p.count
      → let p' = add_pings p rtts in
        (p'.min ≤ℤ p.min)
        × All (λ r. p'.min ≤ℤ r) rtts
        × ((p'.min ≡ p.min) ⊎ IsIn p'.min rtts)
        × (p'.count ≡ p.count + length rtts)
  unfolding add_pings
  add_pings-min p [] h = ground arith
  add_pings-min p (rtt ∷ rtts) h =
      let (c, l, j, m, r, e) = add_ping_facts p rtt h in
      let (m', rs, e', c') = add_pings-min (add_ping p rtt) rtts (omega arith) in
      (omega arith, (omega arith, rs), ground arith, omega arith)

  -- After any samples the reported ping is the least of them, and one of them; the jitter is the
  -- asymmetric average of the deltas between successive samples, and no sample is lost.
  pub add_pings_lem :
      (rtt : ℤ) (rtts : List ℤ)
      → let p = add_pings new_ping_stats (rtt ∷ rtts) in
        All (λ r. p.min ≤ℤ r) (rtt ∷ rtts)
        × IsIn p.min (rtt ∷ rtts)
        × (p.jitter.value ≡ jitter_of (deltas rtt rtts))
        × (p.count ≡ suc (length rtts))
  unfolding add_pings new_ping_stats add_ping
  add_pings_lem rtt rtts =
      let first : PingStats F = add_ping new_ping_stats rtt in
      let (m, rs, e, c) = add_pings-min first rtts (omega arith) in
      let j = add_pings-jitter first rtts (omega arith) in
      ((m, rs), e, ap (λ w. w.value) j ∙ updates-jitter_of (deltas rtt rtts), omega arith)
