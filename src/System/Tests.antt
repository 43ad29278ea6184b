-- ===== src/System/Tests.antt =====
-- The run of `Cli.Run.Tests` against a server with the same token and the sqlite store over a table
-- that is a list.
use Prim.Native.String.{◌++◌ as concat}
use mathlib.Core.Path.{ap₂}
use Prim.Native.Char.{code}
use text.Mathlib.TextLemmas.{nil-append, cons-append}
use text.Mathlib.TextEquality.{Char-path}
use go_speedtest.Prelude.{
  ◌≡◌, refl, ap, ◌∙◌, ◌⊎◌, inr, true, false, some, List, [], ◌∷◌, ◌++◌, String, arith, ◌≢◌, All,
}
use go_speedtest.Prelude.Fixed.{Fixed, fixed_double}
use go_speedtest.ClientIp.{Bytes}
use go_speedtest.Measure.{
  Result, new_result, set_ping, set_download, mbps, new_ping_stats, add_ping, update, delta_ms,
}
use go_speedtest.Prelude.Int.{pos, int64, ◌-ℤ◌, ◌+ℤ◌, quot, scale, max_ℤ, min_ℤ}
use go_speedtest.Measure.Ping.{add_pings}
use go_speedtest.Prelude.Double.{seconds}
use go_speedtest.Cli.{resolve_options}
use go_speedtest.Telemetry.{sqlite_store, sqlite_save}
use go_speedtest.Telemetry.Keeping.{sqlite_store-IsKeeping}
use go_speedtest.Telemetry.Tests.{Table, table, table-IsTable}
use go_speedtest.Handlers.Auth.{authorized}
use go_speedtest.Handlers.Results.{Context, Answer, answered, is_negative, ingest, result_get}
use go_speedtest.Cli.Run.{push_headers, plan_of, first_result}
use go_speedtest.Cli.Run.Tests.{site, world, flags, printed, prints_result}
use go_speedtest.Config.{Config, defaults}
use go_speedtest.Metrics.{new_registry}
use go_speedtest.Handlers.Info.{handle_info}
use go_speedtest.Handlers.Upload.{handle_upload}
use go_speedtest.Handlers.Tests.{body_reader, body_reader-IsReader}
use go_speedtest.Cli.{clamp_streams}
use go_speedtest.Cli.Plan.{decode_info, plan}
use go_speedtest.Cli.Stream.{polls, goes, wakes, UploadEvent, responds, step_stream, upload_once}
use go_speedtest.Cli.Phase.{Moment, waiting, failed, all_returned, phase_step, run_phase}
use go_speedtest.Cli.Phase.Transfer.{run_upload_returned}
use go_speedtest.System.Uploading.{IsServed, upload_run, run_upload_over_limit}
use go_speedtest.System.{get_header, IsEncoding, reply_of, receive_push}
use go_speedtest.System.Pushing.{push_headers-authorized}
use go_speedtest.Handlers.Results.Sharing.{IsFilled}
use go_speedtest.System.Sharing.{unnamed, run-result_get}

-- The code points of a text: its bytes, if it is ASCII.
codes : String → Bytes
codes String.[] = []
codes (String.◌∷◌ c s) = code c ∷ codes s

codes-append : (s t : String) → codes (concat s t) ≡ codes s ++ codes t
unfolding codes
codes-append String.[] t = ap codes (nil-append t)
codes-append (String.◌∷◌ c s) t =
    ap codes (cons-append c s t) ∙ ap (λ x. code c ∷ x) (codes-append s t)

codes_injective : (s t : String) → codes s ≡ codes t → s ≡ t
unfolding codes
codes_injective String.[] String.[] h = refl
codes_injective String.[] (String.◌∷◌ c t) h = cc
codes_injective (String.◌∷◌ c s) String.[] h = cc
codes_injective (String.◌∷◌ c s) (String.◌∷◌ c' t) h =
    let e : code c ≡ code c' = cc in
    let f : codes s ≡ codes t = cc in ap₂ String.◌∷◌ (Char-path c c' e) (codes_injective s t f)

codes-IsEncoding : IsEncoding codes
unfolding codes
codes-IsEncoding = record {
  empty = refl;
  after_bearer = λ s. codes-append "Bearer " s;
  injective = codes_injective;
}

abbrev context : Context
context = record {
  now = "2026-01-02T03:04:05Z";
  address = some "192.0.2.7";
  user_agent = "go";
  server_name = "a";
  id = some "f00d";
}

abbrev api_token : String
api_token = "s3cret"

abbrev pushed : Table × Answer String
pushed =
    receive_push (sqlite_store table) codes some api_token flags.token context (unnamed printed) []

let_through :
    authorized (codes api_token) (codes (get_header "Authorization" (push_headers flags.token)))
    ≡ true
let_through = (push_headers-authorized codes-IsEncoding api_token flags.token).1 (inr refl)

printed_positive : is_negative (unnamed printed) ≡ false
unfolding is_negative set_download set_ping first_result new_result plan_of mbps seconds add_pings
    new_ping_stats add_ping update delta_ms int64 ◌-ℤ◌ resolve_options
printed_positive = refl

served : world.pushed ≡ reply_of pushed.1
unfolding receive_push ingest sqlite_store sqlite_save
served = rw (let_through, printed_positive) refl

run-result_get_example :
    ((api_token ≡ "") ⊎ (api_token ≡ flags.token))
    × ((kept : Result Fixed) × (result_get (sqlite_store table) pushed.0 printed.id ≡ answered kept)
        × (kept.id ≡ printed.id)
        × IsFilled context printed kept)
run-result_get_example =
    run-result_get world flags (sqlite_store table) codes some api_token context [] codes-IsEncoding
      (sqlite_store-IsKeeping table table-IsTable) (λ r m. refl) refl served prints_result

-- A limit of 8 MiB. One of the three streams makes a request, and all return at the deadline.
abbrev cfg : Config Fixed
cfg = record (defaults {F = Fixed}) { max_upload_bytes = pos 8_388_608 }

abbrev uploads : List (Moment UploadEvent)
uploads =
    record { stream = 0; now = 1001; event = polls }
    ∷ record { stream = 0; now = 2000; event = goes (responds 413 (8_388_608 ∷ [])) }
    ∷ record { stream = 0; now = 2001; event = wakes true }
    ∷ record { stream = 0; now = 40_000_000_000; event = polls }
    ∷ record { stream = 1; now = 40_000_000_000; event = polls }
    ∷ record { stream = 2; now = 40_000_000_000; event = polls }
    ∷ []

too_large_lem :
    413
    ≡ (handle_upload
        (body_reader 20_971_520)
        cfg.max_upload_bytes
        cfg.read_deadline
        new_registry).status
unfolding handle_upload
too_large_lem = refl

All-IsServed : All (λ x. IsServed site cfg x.event) uploads
unfolding plan resolve_options decode_info handle_info
All-IsServed = (
  tt,
  (
    inr (body_reader 20_971_520, new_registry, body_reader-IsReader 20_971_520, too_large_lem),
    (tt, (tt, (tt, (tt, tt)))),
  ),
)

uploads_over : upload_run site cfg 1000 41_000_000_000 uploads ≢ waiting
unfolding run_phase phase_step all_returned step_stream upload_once int64 ◌+ℤ◌ plan resolve_options
    decode_info handle_info scale quot clamp_streams max_ℤ min_ℤ defaults
uploads_over =
    let opt = plan site cfg in
    run_upload_returned opt.streams_ul opt.overhead opt.grace_upload opt.duration 1000
      41_000_000_000 uploads refl

run_upload_over_limit_example : upload_run site cfg 1000 41_000_000_000 uploads ≡ failed
run_upload_over_limit_example =
    run_upload_over_limit site cfg 1000 41_000_000_000 uploads (omega arith) (omega arith)
      All-IsServed uploads_over
