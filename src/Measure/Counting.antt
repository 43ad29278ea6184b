-- ===== src/Measure/Counting.antt =====
-- One sample under `Add` of internal/measure/measure.go, before and after the grace period.
use go_speedtest.Prelude.{
  ℕ, ◌+◌, ◌-◌, ◌≤◌, ◌<◌, ◌^◌, ◌≡◌, ◌⊎◌, inl, inr, Bool, true, false, arith, Bool-cases,
}
use go_speedtest.Prelude.Int.{pos, pos_part, ◌+ℤ◌, ◌≤ℤ◌, ◌<ℤ◌, leb_ℤ, ltb_ℤ, int64, int64-add}
use go_speedtest.Prelude.Instant.{sub_time, sub_time-le}
use go_speedtest.Measure.{Sample, ThroughputMeter, add_started, add, add_sample, extend}

-- A sample of no negative size, no later than `t`.
abbrev pub IsBy : ℕ → Sample → Type 0
IsBy t s = (pos 0 ≤ℤ s.bytes) × (s.at ≤ t)

module _ {F : Type 0} where
  -- A running meter before the end of its grace period, which began at `t`, with `n` bytes counted.
  pub record InGrace (t n : ℕ) (m : ThroughputMeter F) : Type 0 where
    pub began : m.started ≡ t
    pub live : 0 < t
    pub waiting : m.grace_ended ≡ false
    pub counted : m.bytes ≡ pos n

  -- A meter that measures since `t` and has counted `n` bytes by the time `e`.
  pub record Measures (t n e : ℕ) (m : ThroughputMeter F) : Type 0 where
    pub live : 0 < m.started
    pub ended : m.grace_ended ≡ true
    pub base : m.base_time ≡ t
    pub counted : m.bytes ≡ pos n
    pub spanned : m.elapsed ≤ℤ pos (e - t)
    pub positive : pos 0 ≤ℤ m.elapsed

  -- On a running meter `Add` does not start it again.
  pub add_sample_running :
      (m : ThroughputMeter F) (s : Sample)
      → 0 < m.started
      → add_sample m s ≡ add_started m s.bytes s.at
  unfolding add_sample add
  add_sample_running m s h = ground arith

  abbrev pub crosses : ThroughputMeter F → Sample → Bool
  crosses m s = leb_ℤ m.grace (sub_time s.at m.started)

  -- `extend` changes the span alone, and to the later of the two.
  pub extend_frame :
      (m : ThroughputMeter F) (t : ℕ)
      → let m' = extend m t in
        (m'.started ≡ m.started)
        × (m'.grace ≡ m.grace)
        × (m'.grace_ended ≡ m.grace_ended)
        × (m'.base_time ≡ m.base_time)
        × (m'.bytes ≡ m.bytes)
  unfolding extend
  extend_frame m t = ground arith

  pub extend-elapsed :
      (m : ThroughputMeter F) (t : ℕ)
      → let m' = extend m t in
        (m.elapsed ≤ℤ m'.elapsed)
        × (sub_time t m.base_time ≤ℤ m'.elapsed)
        × ((m'.elapsed ≡ m.elapsed) ⊎ (m'.elapsed ≡ sub_time t m.base_time))
  unfolding extend
  extend-elapsed m t = elim (Bool-cases (ltb_ℤ m.elapsed (sub_time t m.base_time))) [
    | inl e ↦ rw (e, extend) (ground arith)
    | inr e ↦ rw (e, extend) (ground arith)
  ]

  pub add_started_early :
      (m : ThroughputMeter F) (s : Sample)
      → m.grace_ended ≡ false
      → crosses m s ≡ false
      → ((add_started m s.bytes s.at).grace_ended ≡ false)
        × ((add_started m s.bytes s.at).started ≡ m.started)
        × ((add_started m s.bytes s.at).grace ≡ m.grace)
        × ((add_started m s.bytes s.at).bytes ≡ int64 (m.bytes +ℤ s.bytes))
  unfolding add_started
  add_started_early m s g h =
      rw (g, h)
        (ground (
          arith,
          extend_frame (record m { grace_ended = false; bytes = int64 (m.bytes +ℤ s.bytes) }) s.at,
        ))

  pub add_started_crossing :
      (m : ThroughputMeter F) (s : Sample)
      → m.grace_ended ≡ false
      → crosses m s ≡ true
      → add_started m s.bytes s.at
        ≡ record m { grace_ended = true; base_time = s.at; bytes = pos 0; elapsed = pos 0 }
  unfolding add_started
  add_started_crossing m s g h = rw (g, h)

  pub add_started_late :
      (m : ThroughputMeter F) (s : Sample)
      → m.grace_ended ≡ true
      → add_started m s.bytes s.at ≡ extend (record m { bytes = int64 (m.bytes +ℤ s.bytes) }) s.at
  unfolding add_started
  add_started_late m s g = rw g

  pub add_sample-InGrace :
      {t n : ℕ} (m : ThroughputMeter F) (s : Sample)
      → InGrace t n m
      → sub_time s.at t <ℤ m.grace
      → pos 0 ≤ℤ s.bytes
      → n + pos_part s.bytes < 2 ^ 63
      → InGrace t (n + pos_part s.bytes) (add_sample m s) × ((add_sample m s).grace ≡ m.grace)
  add_sample-InGrace {t} {n} m s v h b k =
      let e : crosses m s ≡ false = ground arith in
      rw (add_sample_running m s (ground arith))
        (ground (arith, add_started_early m s v.waiting e, int64-add n s.bytes b k))

  pub add_sample_crossing :
      {t n : ℕ} (e : ℕ) (m : ThroughputMeter F) (s : Sample)
      → InGrace t n m
      → m.grace ≤ℤ sub_time s.at t
      → Measures s.at 0 e (add_sample m s)
  add_sample_crossing e m s v h =
      rw (add_sample_running m s (ground arith), add_started_crossing m s v.waiting (ground arith))
        (ground arith)

  pub add_sample-Measures :
      {t n e : ℕ} (m : ThroughputMeter F) (s : Sample)
      → Measures t n e m
      → IsBy e s
      → n + pos_part s.bytes < 2 ^ 63
      → Measures t (n + pos_part s.bytes) e (add_sample m s)
  add_sample-Measures {t} {n} {e} m s v h k =
      let m' : ThroughputMeter F = record m { bytes = int64 (m.bytes +ℤ s.bytes) } in
      rw (add_sample_running m s v.live, add_started_late m s v.ended)
        (ground (
          arith,
          extend_frame m' s.at,
          extend-elapsed m' s.at,
          sub_time-le s.at t e,
          int64-add n s.bytes h.0 k,
        ))
