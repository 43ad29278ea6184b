-- ===== src/Cli/Run/Calls.antt =====
-- What cmd/go-speedtest-cli/main.go asks of the network, and in which order.
use go_speedtest.Prelude.{
  ◌≡◌, refl, ap, ◌⊎◌, inl, inr, Bool, true, false, Option, none, some, List, [], ◌∷◌, ◌++◌, str_eq,
  if◌then◌else◌, Bool-cases, Option-cases,
}
use go_speedtest.Prelude.Double.{Double}
use go_speedtest.Measure.{Result, set_ping, PingStats}
use go_speedtest.Cli.{ServerInfo, Options}
use go_speedtest.Cli.Flags.{
  Flags, RunError, ping_failed, download_failed, upload_failed, push_failed, check_flags,
}
use go_speedtest.Cli.Phase.{Measured, waiting, failed, measured}
use go_speedtest.Cli.World.{
  World, Call, asks_info, pings, downloads, uploads, pushes, stops, waits, prints, Run, ends,
  calling,
}
use go_speedtest.Cli.Run.{
  push_headers, client, push_result, push_phase, upload_outcome, uploaded, upload_phase,
  download_outcome, downloaded, download_phase, ping_outcome, pinged, ping_phase, first_result,
  plan_of, fetch_info, parse_server, informed, run,
}
use go_speedtest.Cli.Run.Phases.{stops-ne_prints, waits-ne_prints}

abbrev also : {A : Type 0} → Bool → A → List A → List A
also true c cs = c ∷ cs
also false c cs = cs

module _ {U F : Type 0} where
  -- The calls of a run are the first ones of a list, and all of it where the run prints a result.
  abbrev pub IsAlong : Run U F → List Call → Type 0
  IsAlong r all =
      (rest : List Call) × (r.calls ++ rest ≡ all)
      × ((o : Options U F) (res : Result F) → r.ending ≡ prints o res → rest ≡ [])

  -- The run ends with an error.
  abbrev pub IsStopped : Run U F → Type 0
  IsStopped r = (e : RunError) × (r.ending ≡ stops e)

  stops-IsAlong : (e : RunError) (all : List Call) → IsAlong (ends (stops e)) all
  stops-IsAlong e all = (all, refl, λ o res h. absurd (stops-ne_prints h))

  waits-IsAlong : (all : List Call) → IsAlong (ends waits) all
  waits-IsAlong all = (all, refl, λ o res h. absurd (waits-ne_prints h))

  prints-IsAlong : (o : Options U F) (res : Result F) → IsAlong (ends (prints o res)) []
  prints-IsAlong o res = ([], refl, λ o' res' h. refl)

  also-IsAlong :
      (b : Bool) (c : Call) (r r' : Run U F) (all : List Call)
      → IsAlong r all
      → IsAlong r' all
      → IsAlong (if b then calling c r else r') (also b c all)
  also-IsAlong true c r r' all (rest, e, k) h' = (rest, ap (λ cs. c ∷ cs) e, k)
  also-IsAlong false c r r' all h h' = h'

module _ {U F : Type 0} ⦃d : Double F⦄ (w : World U F) (opt : Options U F) where
  -- The calls of the phases that the options enable, in their order.
  push_calls : List Call
  push_calls = also opt.push (pushes (client w opt) (push_headers opt.token)) []

  upload_calls : List Call
  upload_calls = also opt.do_upload (uploads (client w opt)) push_calls

  download_calls : List Call
  download_calls = also opt.do_download (downloads (client w opt)) upload_calls

  pub phase_calls : List Call
  phase_calls = also opt.do_ping (pings (client w opt)) download_calls

  push_phase-IsAlong : (res : Result F) → IsAlong (push_phase w opt res) push_calls
  unfolding push_phase push_calls
  push_phase-IsAlong res =
      also-IsAlong opt.push (pushes (client w opt) (push_headers opt.token)) _
        (ends (prints opt res)) []
        (elim (Option-cases (push_result w res)) [
          | inl p ↦ rw p (stops-IsAlong push_failed [])
          | inr (id, p) ↦ rw p (prints-IsAlong opt (record res { id = id }))
        ])
        (prints-IsAlong opt res)

  uploaded-IsAlong : (res : Result F) (m : Measured F) → IsAlong (uploaded w opt res m) push_calls
  uploaded-IsAlong res waiting = waits-IsAlong push_calls
  uploaded-IsAlong res failed = stops-IsAlong upload_failed push_calls
  uploaded-IsAlong res (measured m) = push_phase-IsAlong _

  upload_phase-IsAlong : (res : Result F) → IsAlong (upload_phase w opt res) upload_calls
  unfolding upload_phase upload_calls
  upload_phase-IsAlong res =
      also-IsAlong opt.do_upload (uploads (client w opt))
        (uploaded w opt res (upload_outcome w opt)) (push_phase w opt res) push_calls
        (uploaded-IsAlong res (upload_outcome w opt)) (push_phase-IsAlong res)

  downloaded-IsAlong :
      (res : Result F) (m : Measured F) → IsAlong (downloaded w opt res m) upload_calls
  downloaded-IsAlong res waiting = waits-IsAlong upload_calls
  downloaded-IsAlong res failed = stops-IsAlong download_failed upload_calls
  downloaded-IsAlong res (measured m) = upload_phase-IsAlong _

  download_phase-IsAlong : (res : Result F) → IsAlong (download_phase w opt res) download_calls
  unfolding download_phase download_calls
  download_phase-IsAlong res =
      also-IsAlong opt.do_download (downloads (client w opt))
        (downloaded w opt res (download_outcome w opt)) (upload_phase w opt res) upload_calls
        (downloaded-IsAlong res (download_outcome w opt)) (upload_phase-IsAlong res)

  pinged-IsAlong :
      (res : Result F) (p : Option (PingStats F)) → IsAlong (pinged w opt res p) download_calls
  pinged-IsAlong res none = stops-IsAlong ping_failed download_calls
  pinged-IsAlong res (some s) = download_phase-IsAlong (set_ping res s)

  ping_phase-IsAlong : (res : Result F) → IsAlong (ping_phase w opt res) phase_calls
  unfolding ping_phase phase_calls
  ping_phase-IsAlong res =
      also-IsAlong opt.do_ping (pings (client w opt)) (pinged w opt res (ping_outcome w opt))
        (download_phase w opt res) download_calls (pinged-IsAlong res (ping_outcome w opt))
        (download_phase-IsAlong res)

module _ {U F : Type 0} ⦃d : Double F⦄ (w : World U F) (f : Flags) where
  informed-IsAlong :
      (base : U) (info : ServerInfo F)
      → IsAlong
          (calling asks_info (informed w f base (some info)))
          (asks_info ∷ phase_calls w (plan_of w f base info))
  informed-IsAlong base info =
      let opt = plan_of w f base info in
      also-IsAlong true asks_info (ping_phase w opt (first_result w opt)) (ends waits) _
        (ping_phase-IsAlong w opt (first_result w opt)) (waits-IsAlong _)

  pub run_calls :
      (((run w f).calls ≡ []) × IsStopped (run w f))
      ⊎ (((run w f).calls ≡ asks_info ∷ []) × (fetch_info w ≡ none) × IsStopped (run w f))
      ⊎ ((base : U) × (info : ServerInfo F) × (parse_server w f.server ≡ some base)
          × (fetch_info w ≡ some info)
          × IsAlong (run w f) (asks_info ∷ phase_calls w (plan_of w f base info)))
  unfolding run
  run_calls = elim (Bool-cases (str_eq f.server "")) [
    | inl e ↦ inl (rw e (refl, (_, refl)))
    | inr e ↦ elim (Option-cases (parse_server w f.server)) [
      | inl p ↦ inl (rw (e, p) (refl, (_, refl)))
      | inr (base, p) ↦ elim (Option-cases (check_flags f)) [
        | inr (x, c) ↦ inl (rw (e, p, c) (refl, (_, refl)))
        | inl c ↦ elim (Option-cases (fetch_info w)) [
          | inl i ↦ inr (inl (rw (e, p, c, i) (refl, refl, (_, refl))))
          | inr (info, i) ↦
              inr (inr (base, info, p, i, rw (e, p, c, i) (informed-IsAlong base info)))
        ]
      ]
    ]
  ]
