-- ===== src/Lib.antt =====
-- A model of go-speedtest: a server that measures a client's throughput and latency, and its
-- command-line client.
--
-- The program. `run` (cmd/go-speedtest/main.go) loads a configuration (internal/config), makes
-- the payload buffer (internal/payload), a result store (internal/telemetry) and an admission
-- limiter (internal/ratelimit), and serves the routes of internal/handlers with the settings of
-- internal/server. The middleware `testMW` asks the limiter about the client's address
-- (internal/clientip) before it runs a download, an upload or a WebSocket test, and counts them
-- in a metrics registry (internal/metrics). The browser is told the measurement's parameters by
-- `/config.json` (internal/webui), the command-line client (cmd/go-speedtest-cli/main.go) by
-- `/api/v1/info`; the client turns them into a plan and feeds a meter (internal/measure).
--
-- The files.
--   Prelude       shared names; Int: `int64` with its wrap-around; Double: what the code does
--                 with a `float64`; Instant: `time.Time` and `time.Duration`; Fixed: thousandths,
--                 on which the tests run
--   RateLimit     internal/ratelimit/ratelimit.go: `acquire` is `limiter.Acquire` (`sweep`,
--                 `entry_for`, `refill` and `decide_entry` in turn) and `release` a call of the
--                 function that it returns. Open, Concurrency, Admission and Handout have the
--                 proofs about the tests of a client at once, Bucket and Burst those about the
--                 token bucket
--   Measure       internal/measure/measure.go: `ThroughputMeter`, `JitterEwma`, `PingStats`,
--                 `Result`. Proofs: Counting and Window (the meter) and Ping
--   Config        internal/config/config.go: `defaults`, `apply_mode_profile`, `validate`; Flags
--                 has the flags and `load`. Proofs: Validity and Precedence
--   ClientIp      internal/clientip/clientip.go: `from_request`. Proofs: Hops and Trust
--   Metrics       internal/metrics/metrics.go: the registry, and Exposition (`expose`). Proofs:
--                 Series, Order, Exposition.Sorted and Exposition.Steady
--   WebUi         internal/webui/webui.go: `build_ui_config` and `handler`
--   Handlers      internal/handlers/handlers.go: Info (`handleInfo`), Download, Upload, Auth
--                 (`authorized`), Cors (`corsMW`), Recorder (`statusRecorder`), Gate (`testMW`),
--                 Gate.Traffic (`testMW` in many goroutines, each of its visible calls a step),
--                 Socket (`handleWS`), Probes (the small handlers), Results (the handlers of
--                 results and stats), Router (`routes` and the middleware) and Router.Site (the
--                 handlers in their places, and `New`). Proofs: Download.Bytes, Download.Quiet,
--                 Gate.Balance, Gate.Served, Gate.Traffic.Matching, Gate.Traffic.Ownership,
--                 Gate.Traffic.Steady, Router.Whole and Results.Sharing, and in the files
--                 themselves
--   Telemetry     internal/telemetry/telemetry.go and sqlite.go: `Store`, `none_store` and
--                 `sqlite_store`, and Opening (`NewSQLite`, `newID`). Proofs: Opening, and
--                 Keeping, whose `IsKeeping` is the contract of a store that the handlers use
--   Cli           cmd/go-speedtest-cli/main.go: `resolve_options`; Flags (the checks of the
--                 flags), Ping (`runPing`; Counter is what it shows on a terminal), Stream (one
--                 goroutine of `runDownload` or `runUpload`), Phase (all of them, with the meter
--                 that they share), Run (`run`, over what World says of the network), Progress
--                 (`startProgress`), Output (`output`) and Units (`humanBytes`). Proofs: Plan,
--                 Ping.Samples, Stream.Ending, Phase.Transfer, Phase.Windows,
--                 Phase.Refused, Run.Accepting, Run.Calls, Run.Phases, Run.Report,
--                 Progress.Display, Ping.Counter, Output.Columns, and in Flags and Units
--                 themselves
--   Server        cmd/go-speedtest/main.go, internal/server/server.go,
--                 internal/payload/payload.go; Program has `run`. Proofs: Admitting and
--                 Program.Running
--   System        the client against the server: the request of `pushResult` on
--                 `handleResultsIngest`. Proofs: Receiving and Downloading (the bytes of a
--                 download, counted by both), Pushing (the token), Sharing (a pushed result is served again) and
--                 Uploading (the upload size against the upload limit)
-- Each component's Tests runs it on concrete inputs.
--
-- Conventions. An integer is a `ℤ` over the native numbers; where a value may leave its 64 bits
-- the wrap-around is written out (`int64`). An instant is a number of nanoseconds since Go's zero
-- time, and a difference of two saturates as `Time.Sub` does. A `float64` is a parameter `F` with
-- the operations of `Double`, of which no law is assumed but where a hypothesis says so. A Go map
-- is a function or an association list, a pointer that several owners share is a number on a
-- heap, and what a mutex or an atomic cell makes atomic is one step: a history of calls from any
-- number of goroutines is a list of such steps, and so are the schedules of the client's streams
-- and of its progress line, and of the server's tests, where what is outside, such as the end of a
-- request, is as the schedule says. Loops are structural recursion,
-- but for that of `humanBytes`, whose fuel is seven rounds, since an `int64` can be divided by
-- 1024 at most six times before nothing is left. A loop that only an event from outside ends is
-- followed for as many events as there are: the streams of the client along their schedule, the
-- echo loop for any number of rounds.
--
-- Parameters. Go's standard library where the model does not read its source: the parsers of
-- net/netip, net.SplitHostPort, strings.TrimSpace, the value parsers and the splitting of the
-- command line of package flag, strconv.Atoi, the readers and writers of net/http, the random
-- source, the multiplexer of net/http, the connection of golang.org/x/net/websocket, the
-- operations on URLs of net/url and the answers of the network, and the statements of the SQL
-- database. The hypotheses on them are `IsReader` (http.MaxBytesReader and io.Copy), `IsExact`
-- (whole numbers up to 2 ^ 53 are exact as floats), `IsTable` (a table with a primary key),
-- `IsLimited` (a WebSocket message is within its limit), `IsEncoding` (the bytes of a text) and
-- those written in a theorem.
--
-- Not modelled: the files that the web UI serves; the client's random upload blob
-- and the texts of the numbers that it prints; what is logged, but for the line of a request, and
-- the exit status of both programs; and the browser's scripts. They are mostly input and output
-- over libraries.
pub mod Cli
pub mod ClientIp
pub mod Config
pub mod Handlers
pub mod Measure
pub mod Metrics
pub mod Prelude
pub mod RateLimit
pub mod Server
pub mod System
pub mod Telemetry
pub mod WebUi
