-- ===== src/System/Downloading.antt =====
-- One download request of cmd/go-speedtest-cli/main.go on the server of
-- internal/handlers/handlers.go: the chunks that the client asks for, and the bytes that the two
-- count.
mod Tests
use go_speedtest.Prelude.{
  ℕ, str_eq, ◌+◌, ◌*◌, ◌^◌, ◌<◌, ◌≡◌, refl, sym, ap, subst, ◌∙◌, ◌≢◌, ◌⊎◌, inl, inr, none, Bool,
  Comparable, true, false, Option, some, List, [], ◌∷◌, String, str_eq_iff, arith, ltb, leb,
  Bool-cases,
}
use go_speedtest.Prelude.Int.{ℤ, pos, ◌≤ℤ◌}
use go_speedtest.Prelude.Double.{Double}
use go_speedtest.Metrics.{Registry, bytes_served, tests_started, tests_completed}
use go_speedtest.Measure.Window.{total_bytes}
use go_speedtest.Handlers.Download.{Download as Answer, requested, handle_download}
use go_speedtest.Handlers.Download.Bytes.{bytes_of, served, chunks_for, handle_download_lem}
use go_speedtest.Handlers.Recorder.{wire_status}
use go_speedtest.Handlers.Gate.{World, begin, test_mw}
use go_speedtest.Handlers.Gate.Served.{Passes, test_mw-Passes, served-begin}
use go_speedtest.RateLimit.{Ticket, refused, acquire_any}
use go_speedtest.Config.{Config}
use go_speedtest.Handlers.Router.Site.{Wire, site, site_handler}
use go_speedtest.Handlers.Router.{Request, Served, answered, gated, download, as_next, typed_series}
use go_speedtest.Cli.{ServerInfo, resolve_options}
use go_speedtest.Cli.Stream.{
  Stream, working, backing_off, returned, polls, goes, Event, Download, requesting, reading,
  ReadEnd, more, DownloadEvent, responds, reads, step_stream, download_once, download_adds,
}
use go_speedtest.Cli.Phase.{Moment}
use go_speedtest.Cli.Phase.Transfer.{transfers, fresh, moved_on}
use go_speedtest.System.Receiving.{
  Read, size_of, body, request, taken, taken-request, taken-refused,
}

module _ {U F : Type 0} ⦃d : Double F⦄ (base : U) (info : ServerInfo F)
    (duration streams_dl streams_ul : ℤ) where
  -- the chunks that the client asks for
  abbrev pub asked_for : ℤ
  asked_for = (resolve_options base info duration streams_dl streams_ul).chunks

  -- Whatever the server's info and the flags say, there is one at least.
  chunks_pos : pos 1 ≤ℤ asked_for
  unfolding resolve_options
  chunks_pos = ground arith

  module _ (itoa : ℤ → String) (parse_int : String → Option ℤ) (write : ℕ → ℕ × Bool)
      (chunk_cap : ℤ) (m : Registry) where
    -- the answer of the server to the request for these chunks
    abbrev pub answer : Answer
    answer = handle_download parse_int write true chunk_cap (itoa asked_for) m

    asked_for-requested :
        itoa asked_for ≢ ""
        → parse_int (itoa asked_for) ≡ some asked_for
        → requested parse_int (itoa asked_for) ≡ some asked_for
    unfolding requested
    asked_for-requested h e =
        let p : pos 1 ≤ℤ asked_for = chunks_pos in ground (arith, str_eq_iff (itoa asked_for) "")

    -- What `handleDownload` counts, and the client.
    handle_download-counted :
        (v deadline asked answered lost : ℕ) (rs : List Read) (last : Read) (end : ReadEnd)
        → itoa asked_for ≢ ""
        → parse_int (itoa asked_for) ≡ some asked_for
        → served m ≡ pos v
        → chunks_for chunk_cap asked_for < 2 ^ 43
        → v + bytes_of write (chunks_for chunk_cap asked_for) 0 < 2 ^ 63
        → asked < deadline
        → size_of rs + last.1 + lost ≡ bytes_of write answer.writes 0
        → let got = total_bytes (
            transfers requesting download_once download_adds deadline fresh
              (request asked answered answer.status rs last end)) in
          (answer.status ≡ 200)
          × (answer.content_length ≡ some (pos (chunks_for chunk_cap asked_for * 1_048_576)))
          × (served answer.metrics ≡ pos (v + (got + lost)))
    handle_download-counted v deadline asked answered lost rs last end ne pe sv hc hb hd hl =
        let (st, cl, low, high, free, most, count, early, final) =
          handle_download_lem parse_int write chunk_cap (itoa asked_for) m asked_for v
            (asked_for-requested ne pe) sv hc hb in
        let got = taken-request deadline asked answered rs last end hd in
        (st, cl, rw (st, got) (count ∙ ap (λ n. pos (v + n)) (sym hl)))

some_injective : {A : Type 0} {x y : A} → some x ≡ some y → x ≡ y
some_injective h = cc

module _ {IP F : Type 0} ⦃c : Comparable IP⦄ ⦃d : Double F⦄ where
  answered-refused :
      (h : World IP F → Served IP F) (entered : World IP F) (x : World IP F × Option ℕ)
      → x.1 ≡ some 429
      → (wire_status (answered h entered x).writes ≡ 429) × ((answered h entered x).world ≡ x.0)
  unfolding wire_status
  answered-refused h entered (w, none) e = cc
  answered-refused h entered (w, some code) e = (some_injective e, refl)

  answered-passed :
      (h : World IP F → Served IP F) (entered : World IP F) (x : World IP F × Option ℕ)
      → x.1 ≡ none
      → ((answered h entered x).writes ≡ (h entered).writes) × ((answered h entered x).world ≡ x.0)
  answered-passed h entered (w, none) e = (refl, refl)
  answered-passed h entered (w, some code) e = cc

module _ {IP F : Type 0} ⦃c : Comparable IP⦄ ⦃d : Double F⦄ (r : Request IP) (w : World IP F) where
  -- the admission of the request, and the state in which its handler runs
  abbrev pub ticket : Ticket
  ticket = (acquire_any w.limiter r.now r.ip).1

  abbrev pub entered : World IP F
  entered =
      begin (typed_series tests_started "download")
        (record w { limiter = (acquire_any w.limiter r.now r.ip).0 })

  -- what the route answers
  abbrev pub exchange : {S : Type 0} → Wire IP S F → Config F → Served IP F
  exchange wire cfg = gated "download" (site wire cfg download r) r w

module _ {U IP S F : Type 0} ⦃c : Comparable IP⦄ ⦃d : Double F⦄ (base : U) (info : ServerInfo F)
    (duration streams_dl streams_ul : ℤ) (itoa : ℤ → String) (wire : Wire IP S F) (cfg : Config F)
    (r : Request IP) (w : World IP F) where
  -- what `handleDownload` answers, if it runs
  abbrev pub body_answer : Answer
  body_answer =
      answer base info duration streams_dl streams_ul itoa wire.parse_int (wire.write r)
        cfg.chunk_cap (entered r w).metrics

  series_apart :
      (str_eq (typed_series tests_started "download") bytes_served ≡ false)
      × (str_eq (typed_series tests_completed "download") bytes_served ≡ false)
  unfolding typed_series
  series_apart = (refl, refl)

  site_download :
      {buf : List ℕ}
      → wire.buffer ≡ some buf
      → wire.query r ≡ itoa (asked_for base info duration streams_dl streams_ul)
      → (wire_status (site wire cfg download r (entered r w)).writes ≡ body_answer.status)
        × ((site wire cfg download r (entered r w)).world.metrics ≡ body_answer.metrics)
  unfolding site site_handler wire_status
  site_download b q = rw (b, q) (refl, refl)

  exchange-Passes :
      Passes
        (typed_series tests_started "download")
        (typed_series tests_completed "download")
        (as_next (site wire cfg download r))
        (ticket r w)
        (record w { limiter = (acquire_any w.limiter r.now r.ip).0 })
        (test_mw
          (typed_series tests_started "download")
          (typed_series tests_completed "download")
          (as_next (site wire cfg download r))
          w
          r.now
          r.ip)
  exchange-Passes = test_mw-Passes _ _ _ w r.now r.ip series_apart.1

  -- Whatever the server's info and the flags say, a download request on its route is refused by the
  -- limiter with 429, and then neither side counts a byte of it; or the limiter admits it, and it is
  -- answered with 200. Then what the client's meter takes from its body, with what the server wrote
  -- and did not arrive, is by how much the server's counter of bytes grows, and the announced length
  -- is that of the chunks that the cap leaves. The payload is ready; the query that the server reads
  -- is the client's; `strconv.Atoi` reads the text of `strconv.Itoa`, which is not empty; the request
  -- begins before the deadline; the chunks are fewer than 2 ^ 43 and the counter stays within an
  -- `int64`.
  pub request_counted :
      (v deadline asked answered lost : ℕ) (rs : List Read) (last : Read) (end : ReadEnd)
      → {buf : List ℕ}
      → let n = asked_for base info duration streams_dl streams_ul in
        wire.buffer ≡ some buf
        → wire.query r ≡ itoa n
        → itoa n ≢ ""
        → wire.parse_int (itoa n) ≡ some n
        → served w.metrics ≡ pos v
        → chunks_for cfg.chunk_cap n < 2 ^ 43
        → v + bytes_of (wire.write r) (chunks_for cfg.chunk_cap n) 0 < 2 ^ 63
        → asked < deadline
        → size_of rs + last.1 + lost ≡ bytes_of (wire.write r) body_answer.writes 0
        → let status = wire_status (exchange r w wire cfg).writes in
          let got = taken deadline fresh (request asked answered status rs last end) in
          ((ticket r w ≡ refused)
            × (status ≡ 429)
            × (got ≡ 0)
            × (served (exchange r w wire cfg).world.metrics ≡ pos v))
          ⊎ ((ticket r w ≢ refused)
              × (status ≡ 200)
              × (body_answer.content_length ≡ some (pos (chunks_for cfg.chunk_cap n * 1_048_576)))
              × (served (exchange r w wire cfg).world.metrics ≡ pos (v + (got + lost))))
  unfolding gated
  request_counted v deadline asked answered lost rs last end b q ne pe sv hc hb hd hl =
      let h : World IP F → Served IP F = site wire cfg download r in
      elim exchange-Passes [
        | inl (t, s, m) ↦
            let (status, world) = answered-refused h (entered r w) _ s in
            inl (
              t,
              status,
              rw status (taken-refused deadline asked answered rs last end hd),
              ap (λ x. served x.metrics) world ∙ m ∙ sv,
            )
        | inr (t, s, m) ↦
            let (writes, world) = answered-passed h (entered r w) _ s in
            let (status, metrics) = site_download b q in
            let (ok, announced, count) =
              handle_download-counted base info duration streams_dl streams_ul itoa wire.parse_int
                (wire.write r) cfg.chunk_cap (entered r w).metrics v deadline asked answered lost rs
                last end ne pe (served-begin _ _ series_apart.0 ∙ sv) hc hb hd hl in
            let final : wire_status (exchange r w wire cfg).writes ≡ 200 =
              ap wire_status writes ∙ status ∙ ok in
            let counted_by : ℕ → Type 0 = λ st.
              served body_answer.metrics
              ≡ pos (v + (taken deadline fresh (request asked answered st rs last end) + lost)) in
            inr (
              t,
              final,
              announced,
              ap (λ x. served x.metrics) world
                  ∙ m
                  ∙ ap served metrics
                  ∙ subst counted_by (ok ∙ sym final) count,
            )
      ]
