-- ===== src/Cli/Ping/Samples.antt =====
-- Which samples the ping phase of cmd/go-speedtest-cli/main.go reports.
use go_speedtest.Prelude.{
  ℕ, zero, suc, ◌≡◌, refl, sym, ap, ◌∙◌, ◌↔◌, ◌⊎◌, inl, inr, Bool, true, false, Option, none, some,
  List, [], ◌∷◌, arith, length, Bool-cases, Option-cases,
}
use go_speedtest.Prelude.Int.{ℤ, pos, pos_part, ◌+ℤ◌}
use go_speedtest.Prelude.Double.{Double}
use go_speedtest.Measure.{PingStats, new_ping_stats, add_ping}
use go_speedtest.Measure.Ping.{add_pings}
use go_speedtest.Cli.Ping.{Network, accepted, ws_loop, ping_ws, http_loop, ping_http, run_ping}

-- The rounds from i on were echoed, with these round trips.
abbrev pub Echoes : Network → ℕ → List ℤ → Type 0
Echoes net i [] = Unit {0}
Echoes net i (rtt ∷ rtts) = (net.echo i ≡ some rtt) × Echoes net (suc i) rtts

-- The rounds from i on were answered with 200, with these round trips.
abbrev pub Replies : Network → ℕ → List ℤ → Type 0
Replies net i [] = Unit {0}
Replies net i (rtt ∷ rtts) = (net.reply i ≡ some (200, rtt)) × Replies net (suc i) rtts

accepted-some : (r : Option (ℕ × ℤ)) {rtt : ℤ} → accepted r ≡ some rtt → r ≡ some (200, rtt)
unfolding accepted
accepted-some none h = cc
accepted-some (some (status, rtt)) h = ground arith

module _ {F : Type 0} ⦃d : Double F⦄ (net : Network) where
  ws_loop-some :
      (left i : ℕ) (ps : PingStats F) {p : PingStats F}
      → ws_loop net left i ps ≡ some p
      → (rtts : List ℤ) × (length rtts ≡ left) × Echoes net i rtts × (p ≡ add_pings ps rtts)
  unfolding ws_loop add_pings
  ws_loop-some zero i ps h = ([], refl, tt, cc)
  ws_loop-some (suc left) i ps h = elim (Option-cases (net.echo i)) [
    | inl e ↦ cc
    | inr (rtt, e) ↦
        let (rtts, l, es, q) = ws_loop-some left (suc i) (add_ping ps rtt) (rw (e, ws_loop) at h) in
        (rtt ∷ rtts, ap suc l, (e, es), q)
  ]

  ws_loop-Echoes :
      (i : ℕ) (ps : PingStats F) (rtts : List ℤ)
      → Echoes net i rtts
      → ws_loop net (length rtts) i ps ≡ some (add_pings ps rtts)
  unfolding ws_loop add_pings
  ws_loop-Echoes i ps [] es = refl
  ws_loop-Echoes i ps (rtt ∷ rtts) (e, es) = rw e (ws_loop-Echoes (suc i) (add_ping ps rtt) rtts es)

  -- The rounds behind the warmup.
  http_loop-some :
      (left i : ℕ) (ps : PingStats F) {p : PingStats F}
      → http_loop net left (suc i) ps ≡ some p
      → (rtts : List ℤ) × (length rtts ≡ left) × Replies net (suc i) rtts × (p ≡ add_pings ps rtts)
  unfolding http_loop add_pings
  http_loop-some zero i ps h = ([], refl, tt, cc)
  http_loop-some (suc left) i ps h = elim (Option-cases (accepted (net.reply (suc i)))) [
    | inl e ↦ cc
    | inr (rtt, e) ↦
        let (rtts, l, es, q) =
          http_loop-some left (suc i) (add_ping ps rtt) (rw (e, http_loop) at h) in
        (rtt ∷ rtts, ap suc l, (accepted-some (net.reply (suc i)) e, es), q)
  ]

  http_loop-Replies :
      (i : ℕ) (ps : PingStats F) (rtts : List ℤ)
      → Replies net (suc i) rtts
      → http_loop net (length rtts) (suc i) ps ≡ some (add_pings ps rtts)
  unfolding http_loop accepted add_pings
  http_loop-Replies i ps [] es = refl
  http_loop-Replies i ps (rtt ∷ rtts) (e, es) =
      rw (e, http_loop) (http_loop-Replies (suc i) (add_ping ps rtt) rtts es)

  pub ping_http_rounds :
      (n : ℕ) → ping_http net (pos n) ≡ http_loop net (suc n) 0 (new_ping_stats {F = F})
  unfolding ping_http ◌+ℤ◌
  ping_http_rounds n =
      let e : pos_part (pos n +ℤ pos 1) ≡ suc n = ground arith in
      ap (λ left. http_loop net left 0 new_ping_stats) e

  ping_http-some :
      (n : ℕ) {p : PingStats F}
      → http_loop net (suc n) 0 new_ping_stats ≡ some p
      → (warmup : ℤ) × (rtts : List ℤ) × (length rtts ≡ n)
        × Replies net 0 (warmup ∷ rtts)
        × (p ≡ add_pings new_ping_stats rtts)
  unfolding http_loop
  ping_http-some n h = elim (Option-cases (accepted (net.reply 0))) [
    | inl e ↦ cc
    | inr (warmup, e) ↦
        let (rtts, l, es, q) = http_loop-some n 0 new_ping_stats (rw (e, http_loop) at h) in
        (warmup, rtts, l, (accepted-some (net.reply 0) e, es), q)
  ]

  ping_http-Replies :
      (warmup : ℤ) (rtts : List ℤ)
      → Replies net 0 (warmup ∷ rtts)
      → http_loop net (suc (length rtts)) 0 new_ping_stats
        ≡ some (add_pings (new_ping_stats {F = F}) rtts)
  unfolding http_loop accepted
  ping_http-Replies warmup rtts (e, es) =
      rw (e, http_loop) (http_loop-Replies 0 new_ping_stats rtts es)

  -- `pingHTTP` succeeds exactly if the warmup and all samples are answered with 200, and then it
  -- reports the round trips of the samples alone, all of them, in their order.
  pub ping_http_iff :
      (n : ℕ) (p : PingStats F)
      → (ping_http net (pos n) ≡ some p) ↔ (
          (warmup : ℤ) × (rtts : List ℤ) × (length rtts ≡ n)
          × Replies net 0 (warmup ∷ rtts)
          × (p ≡ add_pings new_ping_stats rtts))
  ping_http_iff n p = (
    λ h. ping_http-some n (sym (ping_http_rounds n) ∙ h),
    λ (warmup, rtts, l, es, q).
        ping_http_rounds n
        ∙ ap (λ m. http_loop net (suc m) 0 new_ping_stats) (sym l)
        ∙ ping_http-Replies warmup rtts es
        ∙ ap some (sym q),
  )

  -- `pingWS` succeeds only if it connects and every round is echoed.
  ping_ws-some :
      (n : ℕ) {p : PingStats F}
      → ping_ws net (pos n) ≡ some p
      → (rtts : List ℤ) × (length rtts ≡ n)
        × (net.dials ≡ true)
        × Echoes net 0 rtts
        × (p ≡ add_pings new_ping_stats rtts)
  unfolding ping_ws
  ping_ws-some n h = elim (Bool-cases net.dials) [
    | inl e ↦
        let (rtts, l, es, q) = ws_loop-some n 0 new_ping_stats (rw (e) at h) in (rtts, l, e, es, q)
    | inr e ↦ ground arith
  ]

  -- The ping phase reports as many samples as were asked for, all of one kind: round trips over the
  -- WebSocket, if it is in use, or those of HTTP without the warmup. What a WebSocket that fails half
  -- way has measured is not mixed in.
  pub run_ping-some :
      (ws_ping : Bool) (n : ℕ) {p : PingStats F}
      → run_ping net ws_ping (pos n) ≡ some p
      → (rtts : List ℤ) × (length rtts ≡ n)
        × (p ≡ add_pings new_ping_stats rtts)
        × (((ws_ping ≡ true) × (net.dials ≡ true) × Echoes net 0 rtts) ⊎ Replies net 1 rtts)
  unfolding run_ping
  run_ping-some false n h =
      let (w, rtts, l, (_, es), q) = (ping_http_iff n _).0 h in (rtts, l, q, inr es)
  run_ping-some true n {p} h = elim (Option-cases (ping_ws {F = F} net (pos n))) [
    | inl e ↦
        let (w, rtts, l, (_, es), q) = (ping_http_iff n _).0 (rw e at h) in (rtts, l, q, inr es)
    | inr (p', e) ↦
        let same : some p' ≡ some p = rw e at h in
        let (rtts, l, c, es, q) = ping_ws-some n (e ∙ same) in (rtts, l, q, inl (refl, c, es))
  ]
