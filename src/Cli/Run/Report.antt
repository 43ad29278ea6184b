-- ===== src/Cli/Run/Report.antt =====
-- The result that cmd/go-speedtest-cli/main.go prints, field by field, from what its phases measured.
use go_speedtest.Prelude.{
  ◌≡◌, refl, sym, ap, subst, ◌∙◌, ◌⊎◌, inl, inr, true, false, not, Option, none, some, String,
  str_eq, Bool-cases, Option-cases,
}
use go_speedtest.Prelude.Int.{pos, quot}
use go_speedtest.Prelude.Double.{Double}
use go_speedtest.Prelude.Instant.{millisecond}
use go_speedtest.Measure.{
  Result, new_result, set_ping, set_download, set_upload, source_cli, PingStats, ThroughputMeter,
  mbps,
}
use go_speedtest.Cli.{Options, ServerInfo}
use go_speedtest.Cli.Flags.{Flags, check_flags, check_flags_iff}
use go_speedtest.Cli.World.{World, prints}
use go_speedtest.Cli.Run.{
  push_result, upload_outcome, download_outcome, ping_outcome, first_result, plan_of, fetch_info,
  parse_server, informed, run,
}
use go_speedtest.Cli.Plan.{IsRunnable, resolve_options-IsRunnable}
use go_speedtest.Cli.Run.Phases.{
  stops-ne_prints, Taken, IsMeasuredBy, with_ping, with_download, with_upload, IsIdOf,
  ping_phase-prints,
}

abbrev from : {A B : Type 0} → B → (A → B) → Option A → B
from zero f none = zero
from zero f (some a) = f a

module _ {U F : Type 0} ⦃d : Double F⦄ (w : World U F) (opt : Options U F) where
  abbrev pub zero_double : F
  zero_double = d.of_int (pos 0)

  -- The result of what the phases measured, none where a phase is disabled.
  unfoldable pub report :
      Option (PingStats F) → (down up : Option (ThroughputMeter F)) → (id : String) → Result F
  report p down up id = record {
    id = id;
    timestamp = w.rfc3339 w.now;
    client_ip = "";
    user_agent = "";
    download_mbps = from zero_double (λ m. mbps m) down;
    upload_mbps = from zero_double (λ m. mbps m) up;
    ping_ms = from zero_double (λ s. d.div (d.of_int s.min) (d.of_int (pos millisecond))) p;
    jitter_ms = from zero_double (λ s. s.jitter.value) p;
    download_bytes = from (pos 0) (λ m. m.bytes) down;
    upload_bytes = from (pos 0) (λ m. m.bytes) up;
    download_duration_ms = from (pos 0) (λ m. quot m.elapsed millisecond) down;
    upload_duration_ms = from (pos 0) (λ m. quot m.elapsed millisecond) up;
    streams_download = from (pos 0) (λ m. opt.streams_dl) down;
    streams_upload = from (pos 0) (λ m. opt.streams_ul) up;
    overhead_factor = opt.overhead;
    source = source_cli;
    server_name = opt.server_name;
  }

  report_lem :
      (p : Option (PingStats F)) (down up : Option (ThroughputMeter F))
      → with_upload w opt up (with_download w opt down (with_ping w opt p (first_result w opt)))
        ≡ report p down up ""
  unfolding report first_result new_result set_ping set_download set_upload
  report_lem none none none = refl
  report_lem none none (some u) = refl
  report_lem none (some m) none = refl
  report_lem none (some m) (some u) = refl
  report_lem (some s) none none = refl
  report_lem (some s) none (some u) = refl
  report_lem (some s) (some m) none = refl
  report_lem (some s) (some m) (some u) = refl

module _ {U F : Type 0} ⦃d : Double F⦄ (w : World U F) (f : Flags) where
  plan_of-IsRunnable :
      (base : U) (info : ServerInfo F) → check_flags f ≡ none → IsRunnable (plan_of w f base info)
  unfolding plan_of
  plan_of-IsRunnable base info h =
      let v = (check_flags_iff f).0 h in
      let r =
        resolve_options-IsRunnable base info f.duration f.streams_download f.streams_upload
          v.streams_download_in v.streams_upload_in in
      record {
        streams_dl_in = r.streams_dl_in;
        streams_ul_in = r.streams_ul_in;
        ping_samples_pos = r.ping_samples_pos;
        chunks_pos = r.chunks_pos;
        blob_bytes_pos = r.blob_bytes_pos;
      }

  -- Where the identifier comes from, for a result without one.
  abbrev pub IsPushed : Result F → String → Type 0
  IsPushed res id =
      ((f.push ≡ false) × (id ≡ "")) ⊎ ((f.push ≡ true) × (push_result w res ≡ some id))

  -- A result that the program prints, with the options of its phases.
  pub record IsReport (opt : Options U F) (res : Result F) : Type 0 where
    pub base : U
    pub info : ServerInfo F
    pub parsed_from : parse_server w f.server ≡ some base
    pub told : fetch_info w ≡ some info
    pub planned : opt ≡ plan_of w f base info
    pub runnable : IsRunnable opt
    pub pings : Option (PingStats F)
    pub down : Option (ThroughputMeter F)
    pub up : Option (ThroughputMeter F)
    pub pings_taken : Taken (not f.no_ping) pings (λ s. ping_outcome w opt ≡ some s)
    pub down_taken : Taken (not f.no_download) down (IsMeasuredBy (download_outcome w opt))
    pub up_taken : Taken (not f.no_upload) up (IsMeasuredBy (upload_outcome w opt))
    pub pushed : IsPushed (report w opt pings down up "") res.id
    pub reported : res ≡ report w opt pings down up res.id

  module _ {opt : Options U F} {res : Result F} where
    informed-IsReport :
        (base : U) (info : ServerInfo F)
        → check_flags f ≡ none
        → parse_server w f.server ≡ some base
        → fetch_info w ≡ some info
        → (informed w f base (some info)).ending ≡ prints opt res
        → IsReport opt res
    unfolding plan_of report
    informed-IsReport base info c pb pi h =
        let o : Options U F = plan_of w f base info in
        let (q, (p, down, up, id, r, t₁, t₂, t₃, i)) = ping_phase-prints w o (first_result w o) h in
        let e = report_lem w o p down up in
        let n : res.id ≡ id = ap (λ x. x.id) r in
        let whole : res ≡ report w o p down up id =
          r ∙ ap {A = Result F} (λ x. record x { id = id }) e in
        subst (λ x. IsReport x res) (sym q)
          (record {
            base = base;
            info = info;
            parsed_from = pb;
            told = pi;
            planned = refl;
            runnable = plan_of-IsRunnable base info c;
            pings = p;
            down = down;
            up = up;
            pings_taken = t₁;
            down_taken = t₂;
            up_taken = t₃;
            pushed =
                subst (λ x. IsPushed (report w o p down up "") x) (sym n)
                  (subst (λ x. IsIdOf w o x id) e i);
            reported = whole ∙ ap (λ x. report w o p down up x) (sym n);
          })

    -- What the program prints is a report: its plan comes from the server's info and the flags and
    -- can run; each phase that is not disabled was
    -- carried out, a download or upload with bytes, and gives its fields of the result, the others
    -- being zero; and the identifier is the one that the server answers to the push of that very
    -- result, or empty if there is none.
    pub run-IsReport : (run w f).ending ≡ prints opt res → IsReport opt res
    unfolding run
    run-IsReport h = elim (Bool-cases (str_eq f.server "")) [
      | inl e ↦ absurd (stops-ne_prints (simp (e, run) at h))
      | inr e ↦ elim (Option-cases (parse_server w f.server)) [
        | inl p ↦ absurd (stops-ne_prints (simp (e, p, run) at h))
        | inr (base, p) ↦ elim (Option-cases (check_flags f)) [
          | inr (x, c) ↦ absurd (stops-ne_prints (simp (e, p, c, run) at h))
          | inl c ↦ elim (Option-cases (fetch_info w)) [
            | inl i ↦ absurd (stops-ne_prints (simp (e, p, c, i, run) at h))
            | inr (info, i) ↦ informed-IsReport base info c p i (simp (e, p, c, i, run) at h)
          ]
        ]
      ]
    ]
