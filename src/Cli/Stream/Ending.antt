-- ===== src/Cli/Stream/Ending.antt =====
-- A stream of cmd/go-speedtest-cli/main.go after the context has ended.
use go_speedtest.Prelude.{
  ℕ, ◌+◌, ◌≤◌, ◌≡◌, refl, ◌⊎◌, inl, inr, Bool, true, false, All, List, [], ◌∷◌, arith,
  if◌then◌else◌,
}
use go_speedtest.Cli.Stream.{
  Stream, polling, working, backing_off, returned, Event, polls, goes, wakes, step_stream, Download,
  requesting, reading, more, eof, broken, DownloadEvent, no_response, responds, reads,
  download_once,
}

abbrev pub DownloadStep : Type 0
DownloadStep = ℕ × Event DownloadEvent

abbrev step : ℕ → Stream Download → DownloadStep → Stream Download
step deadline s e = step_stream requesting download_once deadline e.0 s e.1

-- A stream of `runDownload` under events and their times.
unfoldable pub run_stream : (deadline : ℕ) → Stream Download → List DownloadStep → Stream Download
run_stream deadline s [] = s
run_stream deadline s (e ∷ es) = run_stream deadline (step deadline s e) es

-- The event moves the stream on; a read that is followed by another does not.
abbrev pub moves : Stream Download → Event DownloadEvent → Bool
moves polling polls = true
moves (working requesting) (goes no_response) = true
moves (working requesting) (goes (responds status)) = true
moves (working reading) (goes (reads n eof)) = true
moves (working reading) (goes (reads n broken)) = true
moves backing_off (wakes slept) = true
moves s e = false

-- How often the stream was moved on.
unfoldable pub moved : (deadline : ℕ) → Stream Download → List DownloadStep → ℕ
moved deadline s [] = 0
moved deadline s (e ∷ es) = (if moves s e.1 then 1 else 0) + moved deadline (step deadline s e) es

abbrev sends : Stream Download → Stream Download → Bool
sends polling (working r) = true
sends s s' = false

-- How many requests the stream has begun.
unfoldable pub begun : (deadline : ℕ) → Stream Download → List DownloadStep → ℕ
begun deadline s [] = 0
begun deadline s (e ∷ es) =
    (if sends s (step deadline s e) then 1 else 0) + begun deadline (step deadline s e) es

-- The moves that a stream has left once the context has ended.
abbrev left : Stream Download → ℕ
left polling = 1
left (working requesting) = 3
left (working reading) = 2
left backing_off = 2
left returned = 0

step-left :
    (deadline : ℕ) (s : Stream Download) (e : DownloadStep)
    → deadline ≤ e.0
    → ((if moves s e.1 then 1 else 0) + left (step deadline s e) ≤ left s)
      × (sends s (step deadline s e) ≡ false)
unfolding step_stream download_once
step-left deadline polling (now, polls) h = ground arith
step-left deadline polling (now, goes o) h = ground arith
step-left deadline polling (now, wakes b) h = ground arith
step-left deadline (working requesting) (now, polls) h = ground arith
step-left deadline (working requesting) (now, goes no_response) h = ground arith
step-left deadline (working requesting) (now, goes (responds status)) h = ground arith
step-left deadline (working requesting) (now, goes (reads n r)) h = ground arith
step-left deadline (working requesting) (now, wakes b) h = ground arith
step-left deadline (working reading) (now, polls) h = ground arith
step-left deadline (working reading) (now, goes no_response) h = ground arith
step-left deadline (working reading) (now, goes (responds status)) h = ground arith
step-left deadline (working reading) (now, goes (reads n more)) h = ground arith
step-left deadline (working reading) (now, goes (reads n eof)) h = ground arith
step-left deadline (working reading) (now, goes (reads n broken)) h = ground arith
step-left deadline (working reading) (now, wakes b) h = ground arith
step-left deadline backing_off (now, polls) h = ground arith
step-left deadline backing_off (now, goes o) h = ground arith
step-left deadline backing_off (now, wakes b) h = ground arith
step-left deadline returned e h = ground arith

run_stream-left :
    (deadline : ℕ) (s : Stream Download) (es : List DownloadStep)
    → All (λ e. deadline ≤ e.0) es
    → (moved deadline s es + left (run_stream deadline s es) ≤ left s) × (begun deadline s es ≡ 0)
unfolding run_stream moved begun
run_stream-left deadline s [] h = ground arith
run_stream-left deadline s (e ∷ es) (h, hs) =
    let (m, b) = step-left deadline s e h in
    let (ms, bs) = run_stream-left deadline (step deadline s e) es hs in ground arith

-- A stream that has not returned can be moved on.
run_stream-can_move :
    (s : Stream Download) → (s ≡ returned) ⊎ ((e : Event DownloadEvent) × (moves s e ≡ true))
run_stream-can_move polling = inr (polls, refl)
run_stream-can_move (working requesting) = inr (goes no_response, refl)
run_stream-can_move (working reading) = inr (goes (reads 0 eof), refl)
run_stream-can_move backing_off = inr (wakes false, refl)
run_stream-can_move returned = inl refl

left-le : (s : Stream Download) → left s ≤ 3
left-le polling = omega arith
left-le (working requesting) = omega arith
left-le (working reading) = omega arith
left-le backing_off = omega arith
left-le returned = omega arith

-- Once the context has ended, a download stream begins no request, wherever it stands and whatever
-- happens to it, and it is moved on three times at most, not counting reads that others follow; it
-- is never stuck: as long as it has not returned, some event moves it on.
pub run_stream_ends :
    (deadline : ℕ) (s : Stream Download) (es : List DownloadStep)
    → All (λ e. deadline ≤ e.0) es
    → (begun deadline s es ≡ 0)
      × (moved deadline s es ≤ 3)
      × ((run_stream deadline s es ≡ returned)
          ⊎ ((e : Event DownloadEvent) × (moves (run_stream deadline s es) e ≡ true)))
run_stream_ends deadline s es h =
    let (m, b) = run_stream-left deadline s es h in
    let l = left-le s in (b, omega arith, run_stream-can_move (run_stream deadline s es))
