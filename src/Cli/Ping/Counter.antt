-- ===== src/Cli/Ping/Counter.antt =====
-- The counter that the ping phase of cmd/go-speedtest-cli/main.go shows on a terminal: `progressPing`
-- and `progressDone` where `pingWS` and `pingHTTP` call them.
use go_speedtest.Prelude.{
  ℕ, zero, suc, ◌≤◌, ◌≡◌, refl, sym, ap, ◌∙◌, ◌⊎◌, inl, inr, Bool, true, false, not, Option, none,
  some, List, [], ◌∷◌, ◌++◌, arith, if◌then◌else◌, Bool-cases, Option-cases,
}
use go_speedtest.Prelude.Int.{ℤ, pos, pos_part, ◌+ℤ◌}
use go_speedtest.Prelude.Double.{Double}
use go_speedtest.Measure.{PingStats, new_ping_stats, add_ping}
use mathlib.Core.List.{append-nil}
use go_speedtest.Cli.Ping.Samples.{ping_http_rounds}
use go_speedtest.Cli.Ping.{Network, accepted, ws_loop, ping_ws, http_loop, ping_http, run_ping}

-- What is written: the samples taken, over the line as it stands, or the end of the line.
pub data Mark : Type 0 where
  progress_ping : (done : ℕ) → Mark
  progress_done : Mark

module _ (net : Network) where
  -- the loop of `pingWS`, with `left` rounds to go from the number i
  unfoldable pub ws_marks : (left i : ℕ) → List Mark
  ws_marks zero i = progress_done ∷ []
  ws_marks (suc left) i = elim (net.echo i) [
    | none ↦ []
    | some rtt ↦ progress_ping (suc i) ∷ ws_marks left (suc i)
  ]

  -- `pingWS`
  abbrev pub ping_ws_marks : ℤ → List Mark
  ping_ws_marks samples = if not net.dials then [] else ws_marks (pos_part samples) 0

  -- the mark of the round i, of which the warmup has none
  abbrev pub mark_of : ℕ → List Mark → List Mark
  mark_of zero rest = rest
  mark_of (suc i) rest = progress_ping (suc i) ∷ rest

  -- the loop of `pingHTTP`
  unfoldable pub http_marks : (left i : ℕ) → List Mark
  http_marks zero i = progress_done ∷ []
  http_marks (suc left) i = elim (accepted (net.reply i)) [
    | none ↦ []
    | some rtt ↦ mark_of i (http_marks left (suc i))
  ]

  -- `pingHTTP`
  abbrev pub ping_http_marks : ℤ → List Mark
  ping_http_marks samples = http_marks (pos_part (samples +ℤ pos 1)) 0

  -- `runPing`, whose result over the WebSocket is `over_ws`
  abbrev pub or_http_marks : {F : Type 0} → (over_ws : Option (PingStats F)) → ℤ → List Mark
  or_http_marks none samples = ping_http_marks samples
  or_http_marks (some ps) samples = []

  unfoldable pub run_ping_marks :
      (F : Type 0) ⦃d : Double F⦄ → (progress ws_ping : Bool) → ℤ → List Mark
  run_ping_marks F progress ws_ping samples =
      if not progress
      then []
      else if ws_ping
      then ping_ws_marks samples ++ or_http_marks (ping_ws {F = F} net samples) samples
      else ping_http_marks samples

-- The counter from i + 1 on, for as many rounds.
unfoldable pub counts : (rounds i : ℕ) → List Mark
counts zero i = []
counts (suc rounds) i = progress_ping (suc i) ∷ counts rounds (suc i)

module _ {F : Type 0} ⦃d : Double F⦄ (net : Network) where
  ws_marks-none :
      (left i : ℕ) (ps : PingStats F)
      → ws_loop net left i ps ≡ none
      → (k : ℕ) × (suc k ≤ left) × (ws_marks net left i ≡ counts k i)
  unfolding ws_loop ws_marks counts
  ws_marks-none zero i ps h = cc
  ws_marks-none (suc left) i ps h = elim (Option-cases (net.echo i)) [
    | inl e ↦ (0, omega arith, rw (e, ws_marks) refl)
    | inr (rtt, e) ↦
        let (k, l, q) = ws_marks-none left (suc i) (add_ping ps rtt) (rw (e, ws_loop) at h) in
        (suc k, omega arith, rw (e, ws_marks) (ap (λ ms. progress_ping (suc i) ∷ ms) q))
  ]

  ws_marks-some :
      (left i : ℕ) (ps : PingStats F) {p : PingStats F}
      → ws_loop net left i ps ≡ some p
      → ws_marks net left i ≡ counts left i ++ progress_done ∷ []
  unfolding ws_loop ws_marks counts
  ws_marks-some zero i ps h = refl
  ws_marks-some (suc left) i ps h = elim (Option-cases (net.echo i)) [
    | inl e ↦ cc
    | inr (rtt, e) ↦
        rw (e, ws_marks)
          (ap (λ ms. progress_ping (suc i) ∷ ms)
            (ws_marks-some left (suc i) (add_ping ps rtt) (rw (e, ws_loop) at h)))
  ]

  http_marks-some :
      (left i : ℕ) (ps : PingStats F) {p : PingStats F}
      → http_loop net left (suc i) ps ≡ some p
      → http_marks net left (suc i) ≡ counts left i ++ progress_done ∷ []
  unfolding http_loop http_marks counts
  http_marks-some zero i ps h = refl
  http_marks-some (suc left) i ps h = elim (Option-cases (accepted (net.reply (suc i)))) [
    | inl e ↦ cc
    | inr (rtt, e) ↦
        rw (e, http_marks)
          (ap (λ ms. progress_ping (suc i) ∷ ms)
            (http_marks-some left (suc i) (add_ping ps rtt) (rw (e, http_loop) at h)))
  ]

  ping_http_marks-some :
      (n : ℕ) {p : PingStats F}
      → ping_http net (pos n) ≡ some p
      → ping_http_marks net (pos n) ≡ counts n 0 ++ progress_done ∷ []
  unfolding http_loop http_marks ◌+ℤ◌
  ping_http_marks-some n {p} h =
      let e : pos_part (pos n +ℤ pos 1) ≡ suc n = ground arith in
      let h' : http_loop net (suc n) 0 new_ping_stats ≡ some p = sym (ping_http_rounds net n) ∙ h in
      elim (Option-cases (accepted (net.reply 0))) [
        | inl r ↦ cc
        | inr (rtt, r) ↦
            ap (λ left. http_marks net left 0) e
            ∙ rw (r, http_marks) (http_marks-some n 0 new_ping_stats (rw (r, http_loop) at h'))
      ]

  ping_ws_marks-none :
      (n : ℕ)
      → ping_ws {F = F} net (pos n) ≡ none
      → (k : ℕ) × ((k ≡ 0) ⊎ (suc k ≤ n)) × (ping_ws_marks net (pos n) ≡ counts k 0)
  unfolding ping_ws counts
  ping_ws_marks-none n h = elim (Bool-cases net.dials) [
    | inl e ↦
        let (k, l, q) = ws_marks-none n 0 new_ping_stats (simp (e) at h) in (k, inr l, simp (e) q)
    | inr e ↦ (0, inl refl, simp (e) refl)
  ]

  ping_ws_marks-some :
      (n : ℕ) {p : PingStats F}
      → ping_ws net (pos n) ≡ some p
      → ping_ws_marks net (pos n) ≡ counts n 0 ++ progress_done ∷ []
  unfolding ping_ws
  ping_ws_marks-some n h = elim (Bool-cases net.dials) [
    | inl e ↦ simp (e) (ws_marks-some n 0 new_ping_stats (simp (e) at h))
    | inr e ↦ absurd (ground arith)
  ]

  pub run_ping_marks_lem :
      (ws_ping : Bool) (n : ℕ) {p : PingStats F}
      → run_ping net ws_ping (pos n) ≡ some p
      → (k : ℕ) × ((k ≡ 0) ⊎ (suc k ≤ n))
        × (run_ping_marks net F true ws_ping (pos n)
            ≡ counts k 0 ++ (counts n 0 ++ progress_done ∷ []))
  unfolding run_ping run_ping_marks counts
  run_ping_marks_lem false n h = (0, inl refl, ping_http_marks-some n h)
  run_ping_marks_lem true n h = elim (Option-cases (ping_ws {F = F} net (pos n))) [
    | inl w ↦
        let (k, l, q) = ping_ws_marks-none n w in
        let g : ping_http_marks net (pos n) ≡ counts n 0 ++ progress_done ∷ [] =
          ping_http_marks-some n (rw w at h) in
        (
          k,
          l,
          rw w (ap (λ ms. ms ++ ping_http_marks net (pos n)) q ∙ ap (λ ms. counts k 0 ++ ms) g),
        )
    | inr (ps, w) ↦ (0, inl refl, rw (w, ping_ws_marks-some n w) (append-nil _))
  ]
