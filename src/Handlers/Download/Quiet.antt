-- ===== src/Handlers/Download/Quiet.antt =====
-- `handleDownload` of internal/handlers/handlers.go leaves the gauges alone.
use go_speedtest.Prelude.{
  ℕ, zero, suc, ◌≡◌, refl, ◌∙◌, inl, inr, Bool, true, false, Option, String, ltb, Bool-cases,
  Option-cases,
}
use go_speedtest.Prelude.Int.{ℤ, pos_part}
use go_speedtest.Metrics.{Registry, add}
use go_speedtest.Handlers.Download.{requested, capped, counted, write_loop, serve, handle_download}

counted-gauges : (m : Registry) (n : ℕ) → (counted m n).gauges ≡ m.gauges
unfolding add
counted-gauges m n = elim (Bool-cases (ltb 0 n)) [ inl e ↦ simp e refl | inr e ↦ simp e refl ]

write_loop-gauges :
    (write : ℕ → ℕ × Bool) (left i : ℕ) (m : Registry)
    → (write_loop write left i m).1.gauges ≡ m.gauges
unfolding write_loop
write_loop-gauges write zero i m = refl
write_loop-gauges write (suc left) i m = elim (Bool-cases (write i).1) [
  | inl e ↦ simp e (counted-gauges m (write i).0)
  | inr e ↦
      simp e (
        write_loop-gauges write left (suc i) (counted m (write i).0) ∙ counted-gauges m (write i).0)
]

serve-gauges :
    (write : ℕ → ℕ × Bool) (ready : Bool) (m : Registry) (chunks : ℤ)
    → (serve write ready m chunks).metrics.gauges ≡ m.gauges
unfolding serve
serve-gauges write false m chunks = refl
serve-gauges write true m chunks = write_loop-gauges write (pos_part chunks) 0 m

pub handle_download-gauges :
    (parse_int : String → Option ℤ) (write : ℕ → ℕ × Bool) (ready : Bool) (chunk_cap : ℤ)
    (q : String) (m : Registry)
    → (handle_download parse_int write ready chunk_cap q m).metrics.gauges ≡ m.gauges
unfolding handle_download
handle_download-gauges parse_int write ready chunk_cap q m =
    elim (Option-cases (requested parse_int q)) [
      | inl e ↦ simp (e, handle_download) refl
      | inr (n, e) ↦ simp (e, handle_download) (serve-gauges write ready m (capped chunk_cap n))
    ]
