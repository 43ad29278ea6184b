-- ===== src/Cli/Ping.antt =====
-- The ping phase of cmd/go-speedtest-cli/main.go: `runPing`, `pingWS` and `pingHTTP`, over what the
-- network answers to each exchange.
pub mod Counter
pub mod Samples
use go_speedtest.Prelude.{ℕ, zero, suc, Bool, not, Option, none, some, ◌==◌, if◌then◌else◌}
use go_speedtest.Prelude.Int.{ℤ, pos, pos_part, ◌+ℤ◌}
use go_speedtest.Prelude.Double.{Double}
use go_speedtest.Measure.{PingStats, new_ping_stats, add_ping}

-- The network of the phase. `dials` is whether a connection is made to the URL that `pingWS` builds from
-- the server's by package net/url, with the scheme wss for https and ws else. `echo` is one round of `pingWS` with the number i, its round trip or none
-- where a deadline, a send or a receive fails; `reply` is one round of `pingHTTP`, the status of the
-- response and the time since its start, or none where there is no response.
pub record Network : Type 0 where
  pub dials : Bool
  pub echo : ℕ → Option ℤ
  pub reply : ℕ → Option (ℕ × ℤ)

-- the time of a response with status 200; none is the error of a round of `pingHTTP`
unfoldable pub accepted : Option (ℕ × ℤ) → Option ℤ
accepted none = none
accepted (some (status, rtt)) = if not (status == 200) then none else some rtt

module _ {F : Type 0} ⦃d : Double F⦄ (net : Network) where
  -- the loop of `pingWS`, with `left` rounds to go from the number i
  unfoldable pub ws_loop : (left i : ℕ) → PingStats F → Option (PingStats F)
  ws_loop zero i ps = some ps
  ws_loop (suc left) i ps = elim (net.echo i) [
    | none ↦ none
    | some rtt ↦ ws_loop left (suc i) (add_ping ps rtt)
  ]

  -- `pingWS`
  unfoldable pub ping_ws : ℤ → Option (PingStats F)
  unfolding ws_loop
  ping_ws samples = if not net.dials then none else ws_loop (pos_part samples) 0 new_ping_stats

  -- the sample of the round i, which is not taken from the warmup
  abbrev pub sampled : ℕ → PingStats F → ℤ → PingStats F
  sampled zero ps rtt = ps
  sampled (suc i) ps rtt = add_ping ps rtt

  -- the loop of `pingHTTP`
  unfoldable pub http_loop : (left i : ℕ) → PingStats F → Option (PingStats F)
  http_loop zero i ps = some ps
  http_loop (suc left) i ps = elim (accepted (net.reply i)) [
    | none ↦ none
    | some rtt ↦ http_loop left (suc i) (sampled i ps rtt)
  ]

  -- `pingHTTP`: the rounds are those from 0 to the number of samples.
  unfoldable pub ping_http : ℤ → Option (PingStats F)
  unfolding http_loop
  ping_http samples = http_loop (pos_part (samples +ℤ pos 1)) 0 new_ping_stats

  abbrev pub or_http : Option (PingStats F) → Option (PingStats F) → Option (PingStats F)
  or_http none http = http
  or_http (some ps) http = some ps

  -- `runPing`
  unfoldable pub run_ping : (ws_ping : Bool) → ℤ → Option (PingStats F)
  unfolding ping_ws ping_http
  run_ping ws_ping samples =
      if ws_ping then or_http (ping_ws samples) (ping_http samples) else ping_http samples
