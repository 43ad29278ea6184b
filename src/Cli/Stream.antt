-- ===== src/Cli/Stream.antt =====
-- One stream of `runDownload` or `runUpload` of cmd/go-speedtest-cli/main.go: the loop of its
-- goroutine, which makes one request after another until the context ends, and backs off after an
-- error. A stream is moved by events of its own; the schedule of all streams is in `Cli.Phase`.
pub mod Ending
use go_speedtest.Prelude.{
  ℕ, Bool, true, false, not, Option, none, some, List, [], ◌∷◌, leb, ltb, ◌==◌, if◌then◌else◌,
}
use go_speedtest.Prelude.Int.{ℤ, pos, ◌+ℤ◌, int64}

-- Where a goroutine stands: before `ctx.Err()`, inside its request, in `sleepCtx`, or returned.
pub data Stream (R : Type 0) : Type 0 where
  polling : Stream R
  working : R → Stream R
  backing_off : Stream R
  returned : Stream R

-- What happens to a goroutine: it reads `ctx.Err()`, its request goes on, or `sleepCtx` returns.
pub data Event (O : Type 0) : Type 0 where
  polls : Event O
  goes : O → Event O
  wakes : (slept : Bool) → Event O

-- `sleepCtx`, as it returns: which of the two channels its `select` takes, the timer's, from `fires` on,
-- or the context's, from `ends` on; `chance` is its choice where both are ready.
unfoldable pub sleep_ctx : (ends fires : ℕ) → (chance : Bool) → Bool
sleep_ctx ends fires chance =
    if ltb ends fires then false else if ltb fires ends then true else chance

-- What a request comes to: it goes on, it returns nil, or it returns an error.
pub data Progress (R : Type 0) : Type 0 where
  still : R → Progress R
  succeeded failed : Progress R

-- The context is a timeout: it has ended from the deadline on.
abbrev pub ended : (deadline now : ℕ) → Bool
ended deadline now = leb deadline now

module _ {R O : Type 0} (begin : R) (once : R → O → Progress R) where
  abbrev pub after : (deadline now : ℕ) → Progress R → Stream R
  after deadline now (still r) = working r
  after deadline now succeeded = polling
  after deadline now failed = if ended deadline now then returned else backing_off

  -- One event of a stream; an event that does not fit where it stands changes nothing.
  unfoldable pub step_stream : (deadline now : ℕ) → Stream R → Event O → Stream R
  step_stream deadline now polling polls = if ended deadline now then returned else working begin
  step_stream deadline now (working r) (goes o) = after deadline now (once r o)
  step_stream deadline now backing_off (wakes slept) = if slept then polling else returned
  step_stream deadline now s e = s

-- `downloadOnce`: the request is sent, or the body is read.
pub data Download : Type 0 where
  requesting reading : Download

-- What the network does to it: no response, a response with its status, or a read of n bytes with
-- nil, `io.EOF` or another error.
pub data ReadEnd : Type 0 where
  more eof broken : ReadEnd

pub data DownloadEvent : Type 0 where
  no_response : DownloadEvent
  responds : (status : ℕ) → DownloadEvent
  reads : (n : ℕ) → ReadEnd → DownloadEvent

unfoldable pub download_once : Download → DownloadEvent → Progress Download
download_once requesting no_response = failed
download_once requesting (responds status) = if not (status == 200) then failed else still reading
download_once reading (reads n more) = still reading
download_once reading (reads n eof) = succeeded
download_once reading (reads n broken) = failed
download_once r o = still r

-- The bytes that an event hands to the meter, if any.
unfoldable pub download_adds : Stream Download → Event DownloadEvent → Option ℤ
download_adds (working reading) (goes (reads n end)) = if ltb 0 n then some (pos n) else none
download_adds s e = none

-- The `n` of a `countingReader` after a `Read` that returns k bytes, and after several.
unfoldable pub count_read : ℤ → (k : ℕ) → ℤ
count_read n k = int64 (n +ℤ pos k)

unfoldable pub counted : ℤ → List ℕ → ℤ
unfolding count_read
counted n [] = n
counted n (k ∷ ks) = counted (count_read n k) ks

-- `uploadOnce`: no response, or a response with its status, after the transport's reads of the
-- `countingReader`.
pub data UploadEvent : Type 0 where
  no_response : UploadEvent
  responds : (status : ℕ) → (read_sizes : List ℕ) → UploadEvent

abbrev pub Upload : Type 0
Upload = Unit {0}

unfoldable pub upload_once : Upload → UploadEvent → Progress Upload
upload_once r no_response = failed
upload_once r (responds status ks) = if not (status == 200) then failed else succeeded

unfoldable pub upload_adds : Stream Upload → Event UploadEvent → Option ℤ
unfolding counted
upload_adds (working r) (goes (responds status ks)) =
    if not (status == 200) then none else some (counted (pos 0) ks)
upload_adds s e = none
