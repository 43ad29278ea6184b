-- ===== src/Cli/Run/Phases.antt =====
-- What the phases of cmd/go-speedtest-cli/main.go have measured where the run prints a result.
use go_speedtest.Prelude.{
  ◌≡◌, refl, ◌≢◌, ◌⊎◌, inl, inr, Bool, true, false, Option, none, some, String, Bool-cases,
  Option-cases,
}
use go_speedtest.Prelude.Int.{pos}
use go_speedtest.Prelude.Double.{Double}
use go_speedtest.Measure.{Result, set_ping, set_download, set_upload, PingStats, ThroughputMeter}
use go_speedtest.Cli.{Options}
use go_speedtest.Cli.Flags.{RunError}
use go_speedtest.Cli.Phase.{Measured, waiting, failed, measured}
use go_speedtest.Cli.Phase.Transfer.{run_download-measured, run_upload-measured}
use go_speedtest.Cli.World.{World, stops, waits, prints}
use go_speedtest.Cli.Run.{
  push_result, push_phase, upload_outcome, upload_phase, download_outcome, download_phase,
  ping_outcome, ping_phase,
}

-- What a phase has measured, where it is enabled.
abbrev pub Taken : {A : Type 0} → (enabled : Bool) → Option A → (A → Type 0) → Type 0
Taken {A = A} enabled o P =
    ((enabled ≡ false) × (o ≡ none)) ⊎ ((enabled ≡ true) × ((a : A) × (o ≡ some a) × P a))

-- The meter of a phase that has not failed, which is not empty.
abbrev pub IsMeasuredBy : {F : Type 0} → Measured F → ThroughputMeter F → Type 0
IsMeasuredBy o m = (o ≡ measured m) × (m.bytes ≢ pos 0)

pub stops-ne_prints :
    {U F : Type 0} {e : RunError} {o : Options U F} {r : Result F} → stops e ≡ prints o r → ⊥
stops-ne_prints h = cc

pub waits-ne_prints : {U F : Type 0} {o : Options U F} {r : Result F} → waits ≡ prints o r → ⊥
waits-ne_prints h = cc

Measured-cases :
    {F : Type 0} (m : Measured F)
    → ((m ≡ waiting) ⊎ (m ≡ failed)) ⊎ ((a : ThroughputMeter F) × (m ≡ measured a))
Measured-cases waiting = inl (inl refl)
Measured-cases failed = inl (inr refl)
Measured-cases (measured a) = inr (a, refl)

module _ {U F : Type 0} ⦃d : Double F⦄ (w : World U F) (opt : Options U F) where
  -- what the phases make of a result
  abbrev pub with_ping : Option (PingStats F) → Result F → Result F
  with_ping none res = res
  with_ping (some s) res = set_ping res s

  abbrev pub with_download : Option (ThroughputMeter F) → Result F → Result F
  with_download none res = res
  with_download (some m) res = record (set_download res m) { streams_download = opt.streams_dl }

  abbrev pub with_upload : Option (ThroughputMeter F) → Result F → Result F
  with_upload none res = res
  with_upload (some m) res = record (set_upload res m) { streams_upload = opt.streams_ul }

  download_outcome-measured :
      {m : ThroughputMeter F} → download_outcome w opt ≡ measured m → m.bytes ≢ pos 0
  download_outcome-measured h =
      run_download-measured opt.streams_dl opt.overhead opt.grace_download opt.duration
        w.download.started w.download.stopped w.download.moments h

  upload_outcome-measured :
      {m : ThroughputMeter F} → upload_outcome w opt ≡ measured m → m.bytes ≢ pos 0
  upload_outcome-measured h =
      run_upload-measured opt.streams_ul opt.overhead opt.grace_upload opt.duration w.upload.started
        w.upload.stopped w.upload.moments h

  -- The identifier is the server's answer to the push of the result, where it is pushed.
  abbrev pub IsIdOf : Result F → String → Type 0
  IsIdOf res id =
      ((opt.push ≡ false) × (id ≡ res.id)) ⊎ ((opt.push ≡ true) × (push_result w res ≡ some id))

  module _ {o : Options U F} {res' : Result F} where
    push_phase-prints :
        (res : Result F)
        → (push_phase w opt res).ending ≡ prints o res'
        → (o ≡ opt) × ((id : String) × (res' ≡ record res { id = id }) × IsIdOf res id)
    unfolding push_phase
    push_phase-prints res h = elim (Bool-cases opt.push) [
      | inl e ↦ elim (Option-cases (push_result w res)) [
        | inl p ↦ absurd (stops-ne_prints (simp (e, p, push_phase) at h))
        | inr (id, p) ↦
            let k : prints opt (record res { id = id }) ≡ prints o res' =
              simp (e, p, push_phase) at h in
            (cc, (id, cc, inr (e, p)))
      ]
      | inr e ↦
          let k : prints opt res ≡ prints o res' = simp (e, push_phase) at h in
          (cc, (res.id, cc, inl (e, refl)))
    ]

    upload_phase-prints :
        (res : Result F)
        → (upload_phase w opt res).ending ≡ prints o res'
        → (o ≡ opt)
          × ((up : Option (ThroughputMeter F)) × (id : String) × (res'
                ≡ record (with_upload up res) { id = id })
              × Taken opt.do_upload up (IsMeasuredBy (upload_outcome w opt))
              × IsIdOf (with_upload up res) id)
    unfolding upload_phase
    upload_phase-prints res h = elim (Bool-cases opt.do_upload) [
      | inl e ↦ elim (Measured-cases (upload_outcome w opt)) [
        | inl (inl m) ↦ absurd (waits-ne_prints (simp (e, m, upload_phase) at h))
        | inl (inr m) ↦ absurd (stops-ne_prints (simp (e, m, upload_phase) at h))
        | inr (a, m) ↦
            let (q, (id, r, i)) =
              push_phase-prints (with_upload (some a) res) (simp (e, m, upload_phase) at h) in
            (q, (some a, id, r, inr (e, (a, refl, (m, upload_outcome-measured m))), i))
      ]
      | inr e ↦
          let (q, (id, r, i)) = push_phase-prints res (simp (e, upload_phase) at h) in
          (q, (none, id, r, inl (e, refl), i))
    ]

    download_phase-prints :
        (res : Result F)
        → (download_phase w opt res).ending ≡ prints o res'
        → (o ≡ opt)
          × ((down up : Option (ThroughputMeter F)) × (id : String) × (res'
                ≡ record (with_upload up (with_download down res)) { id = id })
              × Taken opt.do_download down (IsMeasuredBy (download_outcome w opt))
              × Taken opt.do_upload up (IsMeasuredBy (upload_outcome w opt))
              × IsIdOf (with_upload up (with_download down res)) id)
    unfolding download_phase
    download_phase-prints res h = elim (Bool-cases opt.do_download) [
      | inl e ↦ elim (Measured-cases (download_outcome w opt)) [
        | inl (inl m) ↦ absurd (waits-ne_prints (simp (e, m, download_phase) at h))
        | inl (inr m) ↦ absurd (stops-ne_prints (simp (e, m, download_phase) at h))
        | inr (a, m) ↦
            let (q, (up, id, r, t, i)) =
              upload_phase-prints (with_download (some a) res) (simp (e, m, download_phase) at h) in
            (q, (some a, up, id, r, inr (e, (a, refl, (m, download_outcome-measured m))), t, i))
      ]
      | inr e ↦
          let (q, (up, id, r, t, i)) = upload_phase-prints res (simp (e, download_phase) at h) in
          (q, (none, up, id, r, inl (e, refl), t, i))
    ]

    pub ping_phase-prints :
        (res : Result F)
        → (ping_phase w opt res).ending ≡ prints o res'
        → (o ≡ opt)
          × ((p : Option (PingStats F)) × (down up : Option (ThroughputMeter F)) × (id : String)
              × (res' ≡ record (with_upload up (with_download down (with_ping p res))) { id = id })
              × Taken opt.do_ping p (λ s. ping_outcome w opt ≡ some s)
              × Taken opt.do_download down (IsMeasuredBy (download_outcome w opt))
              × Taken opt.do_upload up (IsMeasuredBy (upload_outcome w opt))
              × IsIdOf (with_upload up (with_download down (with_ping p res))) id)
    unfolding ping_phase
    ping_phase-prints res h = elim (Bool-cases opt.do_ping) [
      | inl e ↦ elim (Option-cases (ping_outcome w opt)) [
        | inl m ↦ absurd (stops-ne_prints (simp (e, m, ping_phase) at h))
        | inr (a, m) ↦
            let (q, (down, up, id, r, t, u, i)) =
              download_phase-prints (with_ping (some a) res) (simp (e, m, ping_phase) at h) in
            (q, (some a, down, up, id, r, inr (e, (a, refl, m)), t, u, i))
      ]
      | inr e ↦
          let (q, (down, up, id, r, t, u, i)) =
            download_phase-prints res (simp (e, ping_phase) at h) in
          (q, (none, down, up, id, r, inl (e, refl), t, u, i))
    ]
