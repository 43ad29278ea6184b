-- ===== src/System/Uploading.antt =====
-- The uploads of cmd/go-speedtest-cli/main.go on the server of internal/handlers/handlers.go: the size
-- that the server tells its clients to send, and the limit that it sets.
use go_speedtest.Prelude.{
  ℕ, ◌≡◌, refl, sym, ◌≢◌, ◌∙◌, ◌⊎◌, inl, inr, Option, some, List, [], ◌∷◌, All, arith,
}
use go_speedtest.Prelude.Int.{ℤ, pos, pos_part, ◌≤ℤ◌, ◌<ℤ◌}
use go_speedtest.Prelude.Double.{Double}
use go_speedtest.Config.{Config}
use go_speedtest.Metrics.{Registry}
use go_speedtest.WebUi.{upload_blob_bytes}
use go_speedtest.Handlers.Info.{handle_info}
use go_speedtest.Handlers.Upload.{ReadError, other, limit_of, handle_upload, IsReader}
use go_speedtest.Cli.{resolve_options}
use go_speedtest.Cli.Plan.{decode_info, plan}
use go_speedtest.Cli.Stream.{Event, polls, goes, wakes, UploadEvent, no_response, responds}
use go_speedtest.Cli.Phase.{Moment, Measured, waiting, failed, run_upload}
use go_speedtest.Cli.Phase.Refused.{IsRefused, run_upload_refused}

module _ (size : ℕ) (drain : Option ℕ → ℕ × Option ReadError) (max_upload_bytes read_deadline : ℤ)
    (m : Registry) where
  -- The limit lets a body of that size through.
  abbrev pub IsWithin : Type 0
  IsWithin = (max_upload_bytes ≤ℤ pos 0) ⊎ (pos size ≤ℤ max_upload_bytes)

  handle_upload-IsWithin :
      IsReader size drain
      → (handle_upload drain max_upload_bytes read_deadline m).status ≡ 200
      → IsWithin
  unfolding handle_upload
  handle_upload-IsWithin d h =
      let l = limit_of max_upload_bytes in
      ground (arith, d.complete l, d.within_limit (pos_part max_upload_bytes), d.over l)

  IsWithin-handle_upload :
      IsReader size drain
      → (drain (limit_of max_upload_bytes)).1 ≢ some other
      → IsWithin
      → (handle_upload drain max_upload_bytes read_deadline m).status ≡ 200
  unfolding handle_upload
  IsWithin-handle_upload d ne h =
      let l = limit_of max_upload_bytes in
      ground (arith, d.complete l, d.within_limit (pos_part max_upload_bytes), d.over l)

module _ {U F : Type 0} ⦃d : Double F⦄ (base : U) (cfg : Config F) where
  -- The size that a client with no flags takes over from the server's info.
  plan-blob_bytes : (plan base cfg).blob_bytes ≡ upload_blob_bytes
  unfolding plan resolve_options decode_info handle_info
  plan-blob_bytes = refl

  -- What the server does with an upload of the plan's size: it answers as `handleUpload` does, over
  -- readers of a body of that size, or refuses it in the middleware.
  abbrev pub IsServed : Event UploadEvent → Type 0
  IsServed (goes (responds status ks)) =
      (status ≡ 429)
      ⊎ ((drain : Option ℕ → ℕ × Option ReadError) × (m : Registry) × IsReader
            (pos_part (plan base cfg).blob_bytes) drain
          × (status ≡ (handle_upload drain cfg.max_upload_bytes cfg.read_deadline m).status))
  IsServed e = Unit

  IsServed-IsRefused :
      (e : Event UploadEvent)
      → pos 0 <ℤ cfg.max_upload_bytes
      → cfg.max_upload_bytes <ℤ upload_blob_bytes
      → IsServed e
      → IsRefused e
  unfolding plan resolve_options decode_info handle_info
  IsServed-IsRefused polls h k s = tt
  IsServed-IsRefused (wakes b) h k s = tt
  IsServed-IsRefused (goes no_response) h k s = tt
  IsServed-IsRefused (goes (responds status ks)) h k (inl e) = omega arith
  IsServed-IsRefused (goes (responds status ks)) h k (inr (drain, m, r, e)) = λ ok.
      elim (handle_upload-IsWithin 20_971_520 drain cfg.max_upload_bytes cfg.read_deadline m r
        (sym e ∙ ok)) [ inl o ↦ omega arith | inr o ↦ omega arith ]

  All-IsRefused :
      (ms : List (Moment UploadEvent))
      → pos 0 <ℤ cfg.max_upload_bytes
      → cfg.max_upload_bytes <ℤ upload_blob_bytes
      → All (λ x. IsServed x.event) ms
      → All (λ x. IsRefused x.event) ms
  All-IsRefused [] h k s = tt
  All-IsRefused (x ∷ ms) h k (s, ss) = (IsServed-IsRefused x.event h k s, All-IsRefused ms h k ss)

  -- The upload phase of a client with no flags.
  abbrev pub upload_run : (t e : ℕ) → List (Moment UploadEvent) → Measured F
  upload_run t e ms =
      let opt = plan base cfg in
      run_upload opt.streams_ul opt.overhead opt.grace_upload opt.duration t e ms

  -- A client with no flags takes the size of its uploads from the server's info, which is 20 MiB.
  -- Where the upload limit of the server is below that, the upload phase of the client fails once its
  -- streams have returned. Every response that the client gets is one of `handleUpload`, whose readers
  -- behave as documented, or a refusal of the middleware.
  pub run_upload_over_limit :
      (t e : ℕ) (ms : List (Moment UploadEvent))
      → pos 0 <ℤ cfg.max_upload_bytes
      → cfg.max_upload_bytes <ℤ upload_blob_bytes
      → All (λ x. IsServed x.event) ms
      → upload_run t e ms ≢ waiting
      → upload_run t e ms ≡ failed
  run_upload_over_limit t e ms h k s =
      let opt = plan base cfg in
      run_upload_refused opt.streams_ul opt.overhead opt.grace_upload opt.duration t e ms
        (All-IsRefused ms h k s)
