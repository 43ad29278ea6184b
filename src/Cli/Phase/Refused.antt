-- ===== src/Cli/Phase/Refused.antt =====
-- The uploads of cmd/go-speedtest-cli/main.go that the server does not accept.
use go_speedtest.Prelude.{ℕ, ◌≡◌, refl, ◌≢◌, none, List, [], ◌∷◌, All, arith}
use go_speedtest.Prelude.Int.{ℤ, pos, ◌+ℤ◌, int64}
use go_speedtest.Measure.{new_throughput_meter, start, stop}
use go_speedtest.Measure.Counting.{extend_frame}
use go_speedtest.Measure.Window.{add_samples}
use go_speedtest.Cli.Stream.{
  Stream, working, polling, backing_off, returned, Event, polls, goes, wakes, UploadEvent,
  no_response, responds, upload_once, upload_adds,
}
use go_speedtest.Cli.Phase.{Moment, waiting, failed, deadline_of, run_upload}
use go_speedtest.Cli.Phase.Transfer.{transfers, fresh, moved_on, run_streams-transfers}

-- No response, or one with another status than 200.
abbrev pub IsRefused : Event UploadEvent → Type 0
IsRefused (goes (responds status ks)) = status ≢ 200
IsRefused e = Unit

upload_adds-IsRefused :
    (s : Stream Unit) (e : Event UploadEvent) → IsRefused e → upload_adds s e ≡ none
unfolding upload_adds
upload_adds-IsRefused polling e h = refl
upload_adds-IsRefused (working r) polls h = refl
upload_adds-IsRefused (working r) (goes no_response) h = refl
upload_adds-IsRefused (working r) (goes (responds status ks)) h = ground arith
upload_adds-IsRefused (working r) (wakes b) h = refl
upload_adds-IsRefused backing_off e h = refl
upload_adds-IsRefused returned e h = refl

transfers-IsRefused :
    (deadline : ℕ) (streams : ℕ → Stream Unit) (ms : List (Moment UploadEvent))
    → All (λ m. IsRefused m.event) ms
    → transfers tt upload_once upload_adds deadline streams ms ≡ []
unfolding transfers
transfers-IsRefused deadline streams [] h = refl
transfers-IsRefused deadline streams (m ∷ ms) (h, hs) =
    rw (upload_adds-IsRefused (streams m.stream) m.event h)
      (transfers-IsRefused deadline (moved_on tt upload_once upload_adds deadline streams m) ms hs)

stop-fresh :
    {F : Type 0} (overhead : F) (grace : ℤ) (t e : ℕ)
    → (stop (start (new_throughput_meter overhead grace) t) e).bytes ≡ pos 0
unfolding stop start new_throughput_meter
stop-fresh overhead grace t e =
    ground (arith, extend_frame (start (new_throughput_meter overhead grace) t) e)

-- An upload phase none of whose requests is answered with 200 fails once its streams have returned,
-- whatever the requests had sent.
pub run_upload_refused :
    {F : Type 0} (n : ℤ) (overhead : F) (grace duration : ℤ) (t e : ℕ)
    (ms : List (Moment UploadEvent))
    → All (λ m. IsRefused m.event) ms
    → run_upload n overhead grace duration t e ms ≢ waiting
    → run_upload n overhead grace duration t e ms ≡ failed
unfolding run_upload add_samples
run_upload_refused n overhead grace duration t e ms h w =
    rw
      (
        run_streams-transfers tt upload_once upload_adds n overhead grace duration t e ms w,
        transfers-IsRefused (deadline_of t (int64 (grace +ℤ duration))) fresh ms h,
      )
      (rw (stop-fresh overhead grace t e) refl)
