-- ===== src/Measure/Window.antt =====
-- The measurement window of internal/measure/measure.go: what `Add` counts after the grace period,
-- and what `Stop` makes of it.
use native.Mathlib.Nat.{zero-add}
use go_speedtest.Prelude.{
  ℕ, ◌+◌, ◌-◌, ◌≤◌, ◌<◌, ◌^◌, ◌≡◌, refl, sym, subst, ◌∙◌, false, List, [], ◌∷◌, ◌++◌, arith, All,
}
use go_speedtest.Prelude.Int.{ℤ, pos, pos_part, ◌≤ℤ◌, ◌<ℤ◌}
use go_speedtest.Prelude.Instant.{sub_time, sub_time-pos, max_duration}
use go_speedtest.Measure.{Sample, ThroughputMeter, new_throughput_meter, start, add_sample, stop}
use go_speedtest.Measure.Counting.{
  IsBy, InGrace, Measures, add_sample-InGrace, add_sample_crossing, add_sample-Measures,
  extend_frame, extend-elapsed,
}

-- The bytes of a list of samples.
unfoldable pub total_bytes : List Sample → ℕ
total_bytes [] = 0
total_bytes (s ∷ ss) = pos_part s.bytes + total_bytes ss

-- A sample of no negative size before the grace period `g` that began at `t` is over.
abbrev pub IsEarly : ℕ → ℤ → Sample → Type 0
IsEarly t g s = (pos 0 ≤ℤ s.bytes) × (sub_time s.at t <ℤ g)

module _ {F : Type 0} where
  -- One `AddSample` after another.
  unfoldable pub add_samples : ThroughputMeter F → List Sample → ThroughputMeter F
  add_samples m [] = m
  add_samples m (s ∷ ss) = add_samples (add_sample m s) ss

  add_samples-append :
      (m : ThroughputMeter F) (xs ys : List Sample)
      → add_samples m (xs ++ ys) ≡ add_samples (add_samples m xs) ys
  unfolding add_samples
  add_samples-append m [] ys = refl
  add_samples-append m (x ∷ xs) ys = add_samples-append (add_sample m x) xs ys

  add_samples-InGrace :
      {t : ℕ} (n : ℕ) (m : ThroughputMeter F) (ss : List Sample)
      → InGrace t n m
      → All (IsEarly t m.grace) ss
      → n + total_bytes ss < 2 ^ 63
      → InGrace t (n + total_bytes ss) (add_samples m ss) × ((add_samples m ss).grace ≡ m.grace)
  unfolding add_samples total_bytes
  add_samples-InGrace {t} n m [] v h k = (subst (λ x. InGrace t x m) (omega arith) v, refl)
  add_samples-InGrace {t} n m (s ∷ ss) v ((b, h), hs) k =
      let (w, g) = add_sample-InGrace m s v h b (omega arith) in
      let (u, g') =
        add_samples-InGrace (n + pos_part s.bytes) (add_sample m s) ss w
          (subst (λ k. All (IsEarly t k) ss) (sym g) hs) (omega arith) in
      (subst (λ x. InGrace t x (add_samples (add_sample m s) ss)) (omega arith) u, g' ∙ g)

  add_samples-Measures :
      {t e : ℕ} (n : ℕ) (m : ThroughputMeter F) (ss : List Sample)
      → Measures t n e m
      → All (IsBy e) ss
      → n + total_bytes ss < 2 ^ 63
      → Measures t (n + total_bytes ss) e (add_samples m ss)
  unfolding add_samples total_bytes
  add_samples-Measures {t} {e} n m [] v h k = subst (λ x. Measures t x e m) (omega arith) v
  add_samples-Measures {t} {e} n m (s ∷ ss) v (h, hs) k =
      let w = add_sample-Measures m s v h (omega arith) in
      subst (λ x. Measures t x e (add_samples (add_sample m s) ss)) (omega arith)
        (add_samples-Measures (n + pos_part s.bytes) (add_sample m s) ss w hs (omega arith))

  stop-Measures :
      {t n e : ℕ} (m : ThroughputMeter F)
      → Measures t n e m
      → t ≤ e
      → e - t ≤ max_duration
      → ((stop m e).bytes ≡ pos n) × ((stop m e).elapsed ≡ pos (e - t))
  unfolding stop
  stop-Measures {t} {n} {e} m v h k =
      ground (arith, extend_frame m e, extend-elapsed m e, sub_time-pos e t h k)

  stop_waiting : (m : ThroughputMeter F) (e : ℕ) → m.grace_ended ≡ false → stop m e ≡ m
  unfolding stop
  stop_waiting m e h = ground arith

  start-InGrace :
      (overhead : F) (grace : ℤ) (t : ℕ)
      → 0 < t
      → pos 0 <ℤ grace
      → InGrace t 0 (start (new_throughput_meter overhead grace) t)
  unfolding start new_throughput_meter
  start-InGrace overhead grace t h g = ground arith

  early-InGrace :
      (overhead : F) (grace : ℤ) (t : ℕ) (early : List Sample)
      → 0 < t
      → pos 0 <ℤ grace
      → All (IsEarly t grace) early
      → total_bytes early < 2 ^ 63
      → let m = add_samples (start (new_throughput_meter overhead grace) t) early in
        InGrace t (total_bytes early) m × (m.grace ≡ grace)
  early-InGrace overhead grace t early ht hg he be =
      let m : ThroughputMeter F = start (new_throughput_meter overhead grace) t in
      let g : m.grace ≡ grace = unfold start new_throughput_meter in refl in
      let (v, g') =
        add_samples-InGrace 0 m early (start-InGrace overhead grace t ht hg)
          (subst (λ k. All (IsEarly t k) early) (sym g) he) (omega arith) in
      (subst (λ x. InGrace t x (add_samples m early)) (omega arith) v, g' ∙ g)

  -- The counters of a measurement with a positive grace period that starts at `t`, not the zero
  -- time, and stops at `e`: the samples up to the one that crosses the end of the grace period are
  -- discarded with it, the bytes are the sum of the later ones, and the time runs from that sample
  -- to the stop. No sample that counts is negative or later than the stop, the byte counts fit an
  -- `int64` and the window a `time.Duration`.
  pub stop_window :
      (overhead : F) (grace : ℤ) (t e : ℕ) (early late : List Sample) (crossing : Sample)
      → 0 < t
      → pos 0 <ℤ grace
      → All (IsEarly t grace) early
      → grace ≤ℤ sub_time crossing.at t
      → All (IsBy e) late
      → crossing.at ≤ e
      → e - crossing.at ≤ max_duration
      → total_bytes early < 2 ^ 63
      → total_bytes late < 2 ^ 63
      → let m = start (new_throughput_meter overhead grace) t in
        let m' = stop (add_samples m (early ++ crossing ∷ late)) e in
        (m'.bytes ≡ pos (total_bytes late)) × (m'.elapsed ≡ pos (e - crossing.at))
  unfolding add_samples
  stop_window overhead grace t e early late crossing ht hg he hc hl hb hd be bl =
      let m : ThroughputMeter F = start (new_throughput_meter overhead grace) t in
      let (v, g) = early-InGrace overhead grace t early ht hg he be in
      let begun = add_sample_crossing e (add_samples m early) crossing v (rw g hc) in
      rw (add_samples-append m early (crossing ∷ late)) (
        stop-Measures _
          (subst
            (λ n.
              Measures crossing.at n e
                (add_samples (add_sample (add_samples m early) crossing) late))
            (zero-add _) (add_samples-Measures 0 _ late begun hl (omega arith)))
          hb hd)

  -- A measurement with a positive grace period, none of whose samples crosses the end of it,
  -- reports the bytes of the grace period, and `Stop` leaves it as it is. It does not start at the
  -- zero time, no sample is negative, and the byte count fits an `int64`.
  pub stop_in_grace :
      (overhead : F) (grace : ℤ) (t e : ℕ) (early : List Sample)
      → 0 < t
      → pos 0 <ℤ grace
      → All (IsEarly t grace) early
      → total_bytes early < 2 ^ 63
      → let m = add_samples (start (new_throughput_meter overhead grace) t) early in
        (stop m e ≡ m) × (m.bytes ≡ pos (total_bytes early))
  stop_in_grace overhead grace t e early ht hg he be =
      let (v, _) = early-InGrace overhead grace t early ht hg he be in
      (stop_waiting _ e v.waiting, v.counted)
