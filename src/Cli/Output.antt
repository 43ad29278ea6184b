-- ===== src/Cli/Output.antt =====
-- `output` of cmd/go-speedtest-cli/main.go: the four forms of a result, up to the texts of numbers,
-- and the JSON fields of `Result` in internal/measure/measure.go.
pub mod Columns
use go_speedtest.Prelude.{
  ℕ, ◌≡◌, refl, Bool, true, false, not, Option, none, some, List, [], ◌∷◌, ◌++◌, String, str_eq,
  if◌then◌else◌, map,
}
use go_speedtest.Prelude.Int.{ℤ, pos}
use go_speedtest.Prelude.Double.{Double}
use go_speedtest.Measure.{Result}
use go_speedtest.Cli.{Options}
use go_speedtest.Cli.Units.{Size, human_bytes}

-- A value as it is written: a text, a whole number or a `float64`.
pub data Cell (F : Type 0) : Type 0 where
  text : String → Cell F
  whole : ℤ → Cell F
  decimal : F → Cell F

-- a metric of `outputPrometheus`: its name, help and value
pub record Metric (F : Type 0) : Type 0 where
  pub name : String
  pub help : String
  pub value : F

-- the lines of `outputHuman`; a size is none where `humanBytes` panics.
pub data Line (U F : Type 0) : Type 0 where
  server_line : String → U → Line U F
  ping_line : (ping jitter : F) → Line U F
  download_line upload_line :
      (mbps : F) (size : Option (Size F)) (secs : F) (streams : ℤ) → Line U F
  id_line : String → Line U F

-- What is written; a Prometheus text has the server's name as its label, if there is one.
pub data Document (U F : Type 0) : Type 0 where
  json_document : Result F → Document U F
  csv_document : (header : List String) (row : List (Cell F)) → Document U F
  prometheus_document : (label : Option String) → List (Metric F) → Document U F
  human_document : List (Line U F) → Document U F

unfoldable pub csv_header : List String
csv_header =
    "id" ∷ "timestamp" ∷ "server_name" ∷ "source" ∷ "ping_ms" ∷ "jitter_ms" ∷ "download_mbps"
    ∷ "upload_mbps" ∷ "download_bytes" ∷ "upload_bytes" ∷ "download_duration_ms"
    ∷ "upload_duration_ms" ∷ "streams_download" ∷ "streams_upload" ∷ "overhead_factor" ∷ []

unfoldable pub csv_row : {F : Type 0} → Result F → List (Cell F)
csv_row res =
    text res.id
    ∷ text res.timestamp
    ∷ text res.server_name
    ∷ text res.source
    ∷ decimal res.ping_ms
    ∷ decimal res.jitter_ms
    ∷ decimal res.download_mbps
    ∷ decimal res.upload_mbps
    ∷ whole res.download_bytes
    ∷ whole res.upload_bytes
    ∷ whole res.download_duration_ms
    ∷ whole res.upload_duration_ms
    ∷ whole res.streams_download
    ∷ whole res.streams_upload
    ∷ decimal res.overhead_factor
    ∷ []

-- the label of `outputPrometheus`
abbrev pub label_of : String → Option String
label_of name = if not (str_eq name "") then some name else none

-- `if b { … }`
abbrev pub only_if : {A : Type 0} → Bool → List A → List A
only_if b xs = if b then xs else []

module _ {U F : Type 0} ⦃d : Double F⦄ where
  -- `outputPrometheus`; `unix` is `time.Parse` of a timestamp and its Unix time, none on an error.
  unfoldable pub prometheus_metrics :
      (unix : String → Option ℤ) → Options U F → Result F → List (Metric F)
  prometheus_metrics unix opt res =
      only_if opt.do_ping (
        record {
          name = "speedtest_ping_ms";
          help = "Minimum round-trip time in milliseconds.";
          value = res.ping_ms;
        }
        ∷ record {
          name = "speedtest_jitter_ms";
          help = "Asymmetric-EWMA RTT jitter in milliseconds.";
          value = res.jitter_ms;
        }
        ∷ [])
      ++ only_if opt.do_download (
          record {
            name = "speedtest_download_mbps";
            help = "Download throughput in Mbps (overhead-compensated).";
            value = res.download_mbps;
          }
          ∷ record {
            name = "speedtest_download_bytes";
            help = "Bytes counted in the download measurement window.";
            value = d.of_int res.download_bytes;
          }
          ∷ [])
      ++ only_if opt.do_upload (
          record {
            name = "speedtest_upload_mbps";
            help = "Upload throughput in Mbps (overhead-compensated).";
            value = res.upload_mbps;
          }
          ∷ record {
            name = "speedtest_upload_bytes";
            help = "Bytes counted in the upload measurement window.";
            value = d.of_int res.upload_bytes;
          }
          ∷ [])
      ++ elim (unix res.timestamp) [
        | none ↦ []
        | some ts ↦
            record {
              name = "speedtest_last_run_timestamp_seconds";
              help = "Unix time of the last completed test.";
              value = d.of_int ts;
            }
            ∷ []
      ]

  -- `outputHuman`; `host` is that of net/url.
  unfoldable pub human_lines : (host : U → String) → Options U F → Result F → List (Line U F)
  human_lines host opt res =
      let name : String =
        if str_eq res.server_name "" then host opt.server_url else res.server_name in
      server_line name opt.server_url
        ∷ only_if opt.do_ping (ping_line res.ping_ms res.jitter_ms ∷ [])
      ++ only_if opt.do_download (
          download_line res.download_mbps (human_bytes res.download_bytes)
            (d.div (d.of_int res.download_duration_ms) (d.dec 1000 0)) res.streams_download
          ∷ [])
      ++ only_if opt.do_upload (
          upload_line res.upload_mbps (human_bytes res.upload_bytes)
            (d.div (d.of_int res.upload_duration_ms) (d.dec 1000 0)) res.streams_upload
          ∷ [])
      ++ only_if (not (str_eq res.id "")) (id_line res.id ∷ [])

  -- `output`
  unfoldable pub output :
      (unix : String → Option ℤ) (host : U → String) → Options U F → Result F → Document U F
  unfolding csv_header csv_row prometheus_metrics human_lines
  output unix host opt res =
      if str_eq opt.format "json"
      then json_document res
      else if str_eq opt.format "csv"
      then csv_document csv_header (csv_row res)
      else if str_eq opt.format "prometheus"
      then prometheus_document (label_of res.server_name) (prometheus_metrics unix opt res)
      else human_document (human_lines host opt res)
