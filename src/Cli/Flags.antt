-- ===== src/Cli/Flags.antt =====
-- The flags of cmd/go-speedtest-cli/main.go and the checks of them in `run`.
use go_speedtest.Prelude.{
  ℕ, suc, ◌≡◌, ◌↔◌, Bool, false, not, ◌&&◌, ◌||◌, Option, none, some, List, [], ◌∷◌, String, ltb,
  if◌then◌else◌, arith,
}
use go_speedtest.Prelude.Int.{ℤ, pos, ltb_ℤ, eqb_ℤ}
use go_speedtest.Cli.Plan.{IsStreamsFlag}
use go_speedtest.Measure.{min_configurable_streams, max_configurable_streams}

-- The flags, as the package flag parses them.
pub record Flags : Type 0 where
  pub server : String
  pub json : Bool
  pub csv : Bool
  pub prometheus : Bool
  pub duration : ℤ
  pub streams_download : ℤ
  pub streams_upload : ℤ
  pub no_download : Bool
  pub no_upload : Bool
  pub no_ping : Bool
  pub push : Bool
  pub token : String
  pub timeout : ℤ

pub data RunError : Type 0 where
  server_required exclusive_formats all_disabled : RunError
  invalid_server : String → RunError
  out_of_range : String → RunError
  info_failed ping_failed download_failed upload_failed push_failed : RunError

-- The loop over the format flags: how many are set, and the last of them.
unfoldable pub count_formats : List (Bool × String) → (n : ℕ) (format : String) → ℕ × String
count_formats [] n format = (n, format)
count_formats ((on, name) ∷ fs) n format =
    count_formats fs (if on then suc n else n) (if on then name else format)

unfoldable pub formats : Flags → ℕ × String
unfolding count_formats
formats f =
    count_formats ((f.json, "json") ∷ (f.csv, "csv") ∷ (f.prometheus, "prometheus") ∷ []) 0 "human"

-- The loop over the stream flags.
unfoldable pub check_streams : List (ℤ × String) → Option RunError
check_streams [] = none
check_streams ((v, name) ∷ fs) =
    let rest = check_streams fs in
    if not (eqb_ℤ v (pos 0))
      && (ltb_ℤ v min_configurable_streams || ltb_ℤ max_configurable_streams v)
    then some (out_of_range name)
    else rest

-- The checks behind the URL.
unfoldable pub check_flags : Flags → Option RunError
unfolding check_streams formats
check_flags f =
    if ltb 1 (formats f).0
    then some exclusive_formats
    else elim (check_streams
        ((f.streams_download, "streams-download") ∷ (f.streams_upload, "streams-upload") ∷ [])) [
          | some e ↦ some e
          | none ↦ if f.no_ping && f.no_download && f.no_upload then some all_disabled else none
        ]

-- The flags are in order: at most one format, streams that are the server's default or from 3 to 12,
-- and a phase that is not disabled.
pub record IsInOrder (f : Flags) : Type 0 where
  pub no_json_csv : f.json && f.csv ≡ false
  pub no_json_prometheus : f.json && f.prometheus ≡ false
  pub no_csv_prometheus : f.csv && f.prometheus ≡ false
  pub streams_download_in : IsStreamsFlag f.streams_download
  pub streams_upload_in : IsStreamsFlag f.streams_upload
  pub some_phase : f.no_ping && f.no_download && f.no_upload ≡ false

one_format_iff :
    (f : Flags)
    → (ltb 1 (formats f).0 ≡ false) ↔ (
        (f.json && f.csv ≡ false)
        × (f.json && f.prometheus ≡ false)
        × (f.csv && f.prometheus ≡ false))
unfolding formats count_formats
one_format_iff f = ground arith

check_stream_iff :
    (v : ℤ)
    → (not (eqb_ℤ v (pos 0))
          && (ltb_ℤ v min_configurable_streams || ltb_ℤ max_configurable_streams v)
        ≡ false)
      ↔ IsStreamsFlag v
check_stream_iff v = ground arith

pub check_flags_iff : (f : Flags) → (check_flags f ≡ none) ↔ IsInOrder f
unfolding check_flags check_streams
check_flags_iff f = ground (
  arith,
  one_format_iff f,
  check_stream_iff f.streams_download,
  check_stream_iff f.streams_upload,
)
