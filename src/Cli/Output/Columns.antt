-- ===== src/Cli/Output/Columns.antt =====
-- The CSV form of a result in cmd/go-speedtest-cli/main.go against its JSON form, by the struct tags
-- of internal/measure/measure.go.
use go_speedtest.Prelude.{
  ◌≡◌, refl, Bool, false, Option, none, some, List, [], ◌∷◌, String, str_eq, if◌then◌else◌, map,
  Bool-cases, inl, inr, str_eq_iff,
}
use go_speedtest.Measure.{Result}
use go_speedtest.Cli.Output.{Cell, text, whole, decimal, csv_header, csv_row}

-- A field of a JSON object; `omitted` where its tag has omitempty and its value is empty.
pub record Field (F : Type 0) : Type 0 where
  pub key : String
  pub omitted : Bool
  pub value : Cell F

module _ {F : Type 0} where
  -- the fields of a `Result` in their order
  unfoldable pub json_fields : Result F → List (Field F)
  json_fields r =
      record { key = "id"; omitted = false; value = text r.id }
      ∷ record { key = "timestamp"; omitted = false; value = text r.timestamp }
      ∷ record { key = "client_ip"; omitted = str_eq r.client_ip ""; value = text r.client_ip }
      ∷ record { key = "user_agent"; omitted = str_eq r.user_agent ""; value = text r.user_agent }
      ∷ record { key = "download_mbps"; omitted = false; value = decimal r.download_mbps }
      ∷ record { key = "upload_mbps"; omitted = false; value = decimal r.upload_mbps }
      ∷ record { key = "ping_ms"; omitted = false; value = decimal r.ping_ms }
      ∷ record { key = "jitter_ms"; omitted = false; value = decimal r.jitter_ms }
      ∷ record { key = "download_bytes"; omitted = false; value = whole r.download_bytes }
      ∷ record { key = "upload_bytes"; omitted = false; value = whole r.upload_bytes }
      ∷ record {
        key = "download_duration_ms";
        omitted = false;
        value = whole r.download_duration_ms;
      }
      ∷ record { key = "upload_duration_ms"; omitted = false; value = whole r.upload_duration_ms }
      ∷ record { key = "streams_download"; omitted = false; value = whole r.streams_download }
      ∷ record { key = "streams_upload"; omitted = false; value = whole r.streams_upload }
      ∷ record { key = "overhead_factor"; omitted = false; value = decimal r.overhead_factor }
      ∷ record { key = "source"; omitted = false; value = text r.source }
      ∷ record {
        key = "server_name";
        omitted = str_eq r.server_name "";
        value = text r.server_name;
      }
      ∷ []

  -- The value of a key; a key that is omitted has the empty text.
  unfoldable pub lookup : String → List (Field F) → Option (Cell F)
  lookup key [] = none
  lookup key (f ∷ fs) =
      let rest = lookup key fs in
      if str_eq f.key key then some (if f.omitted then text "" else f.value) else rest

  or_empty : (s : String) → let c : Cell F = text s in (if str_eq s "" then text "" else c) ≡ c
  or_empty s = elim (Bool-cases (str_eq s "")) [
    | inl e ↦ rw ((str_eq_iff s "").0 e) refl
    | inr e ↦ rw e refl
  ]

  -- Under each column of the CSV form stands the value that the JSON form has under that key, and
  -- there is a value for every column.
  pub csv_columns :
      (res : Result F)
      → map (λ key. lookup key (json_fields res)) csv_header ≡ map some (csv_row res)
  unfolding csv_header csv_row json_fields lookup
  csv_columns res = rw (or_empty res.server_name) refl
