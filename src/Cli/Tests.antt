-- ===== src/Cli/Tests.antt =====
-- The plan of cmd/go-speedtest-cli/main.go for a server with nearly the default configuration, and
-- a size in its output.
use go_speedtest.Prelude.{
  ℕ, suc, ◌*◌, ◌≤◌, get_elem?, ◌≡◌, refl, inl, inr, true, none, some, ◌^◌, ◌<◌, String, arith,
}
use go_speedtest.Prelude.Int.{pos, int64, scale}
use go_speedtest.Prelude.Fixed.{Fixed, fixed_double}
use go_speedtest.Config.{
  Config, defaults, validate, valid_log_level, check_method, check_limits, check_proxies,
}
use go_speedtest.Config.Validity.{IsValid, validate_iff}
use go_speedtest.Measure.{default_test_duration, default_grace_download, default_grace_upload}
use go_speedtest.WebUi.{build_ui_config}
use go_speedtest.Handlers.Info.{handle_info}
use go_speedtest.Cli.{ServerInfo, resolve_options}
use go_speedtest.Cli.Units.{unit, prefixes, prefixed, scale_down, human_bytes, human_bytes_lem}
use go_speedtest.Cli.Plan.{
  decode_info, decode_ui, plan, in_ms, IsRunnable, Follows, info_agrees, resolve_options-IsRunnable,
  plan-Follows, plan_durations,
}

abbrev server : Config Fixed
server = record (defaults {F = Fixed}) { download_streams = pos 12; grace_upload = pos 0 }

info_agrees_holds : decode_info (handle_info server) ≡ decode_ui (build_ui_config server)
info_agrees_holds = info_agrees server

abbrev site : String
site = "http://a.example"

abbrev told : ServerInfo Fixed
told = decode_info (handle_info server)

resolve_options-IsRunnable_holds : IsRunnable (resolve_options site told (pos 0) (pos 5) (pos 0))
resolve_options-IsRunnable_holds =
    resolve_options-IsRunnable site told (pos 0) (pos 5) (pos 0) (inr (ground arith)) (inl refl)

server_accepted : validate (λ s. true) (λ s. s) server ≡ none
unfolding validate defaults valid_log_level check_method check_limits check_proxies
server_accepted = refl

server-IsValid : IsValid (λ s. true) (λ s. s) server
server-IsValid = (validate_iff (λ s. true) (λ s. s) server).0 server_accepted

plan-Follows_example : Follows server (plan site server)
plan-Follows_example =
    plan-Follows (λ s. true) (λ s. s) site server server-IsValid (unfold defaults in refl)

-- No grace period for uploads on the server is 3 s of it on the client.
plan_durations_example :
    let opt = plan site server in
    (opt.duration ≡ in_ms 15_000_000_000 default_test_duration)
    × (opt.grace_download ≡ in_ms 1_500_000_000 default_grace_download)
    × (opt.grace_upload ≡ in_ms 0 default_grace_upload)
plan_durations_example =
    plan_durations site server 15_000_000_000 1_500_000_000 0 (unfold defaults in refl)
      (unfold defaults in refl) refl (omega arith) (omega arith) (omega arith)

-- 20 MiB
human_bytes_lem_example :
    (k e c : ℕ) × (human_bytes {F = Fixed} (pos 20_971_520)
      ≡ some (
          prefixed
            (fixed_double.div (fixed_double.of_int (pos 20_971_520)) (fixed_double.of_int (pos k)))
            c))
    × (get_elem? prefixes e ≡ some c)
    × (k ≡ unit ^ suc e)
    × (k ≤ 20_971_520)
    × (20_971_520 < k * unit)
human_bytes_lem_example = human_bytes_lem 20_971_520 (omega arith) (omega arith)

twenty_mebibytes :
    human_bytes {F = Fixed} (pos 20_971_520) ≡ some (prefixed (some (pos 20_000)) b'M')
unfolding human_bytes scale_down int64 scale
twenty_mebibytes = refl
