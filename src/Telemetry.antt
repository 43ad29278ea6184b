-- ===== src/Telemetry.antt =====
-- internal/telemetry: the `Store` interface, the store that keeps nothing, and the sqlite store over
-- a database. `id` is what `newID` returns, none on an error, and `now` the time in RFC 3339.
pub mod Keeping
pub mod Opening
pub mod Tests
use go_speedtest.Prelude.{
  ℕ, Bool, true, false, Option, none, some, List, [], ◌∷◌, String, str_eq, if◌then◌else◌,
}
use go_speedtest.Prelude.Int.{ℤ, pos, pos_part, leb_ℤ}
use go_speedtest.Measure.{Result}

-- What `Get` returns; `absent` is `ErrNotFound`.
pub data Fetched (F : Type 0) : Type 0 where
  found : Result F → Fetched F
  absent broken : Fetched F

-- `Store`; `none` is an error.
pub record Store (S F : Type 0) : Type 0 where
  pub save : S → (id : Option String) → (now : String) → Result F → S × Option String
  pub get : S → String → Fetched F
  pub list : S → ℤ → Option (List (Result F))

-- `noneStore`
pub none_store : {F : Type 0} → Store Unit F
none_store = record {
  save = λ s id now r. (s, id);
  get = λ s id. absent;
  list = λ s limit. some [];
}

-- A value of a column, and the values of a row in the order of `columns`.
pub data Value (F : Type 0) : Type 0 where
  text : String → Value F
  real : F → Value F
  integer : ℤ → Value F

abbrev pub Row : Type 0 → Type 0
Row F = List (Value F)

-- What `QueryRowContext` finds; `no_rows` is `sql.ErrNoRows`.
pub data Selected (F : Type 0) : Type 0 where
  row : Row F → Selected F
  no_rows query_failed : Selected F

-- The database behind `database/sql`: the statements of the store, none for an error.
pub record Database (Db F : Type 0) : Type 0 where
  pub insert : Db → Row F → Option Db
  pub select_by_id : Db → String → Selected F
  pub select_recent : Db → ℕ → Option (List (Row F))

-- the values of the INSERT
unfoldable pub values : {F : Type 0} → Result F → Row F
values r =
    text r.id
    ∷ text r.timestamp
    ∷ text r.client_ip
    ∷ text r.user_agent
    ∷ real r.download_mbps
    ∷ real r.upload_mbps
    ∷ real r.ping_ms
    ∷ real r.jitter_ms
    ∷ integer r.download_bytes
    ∷ integer r.upload_bytes
    ∷ integer r.download_duration_ms
    ∷ integer r.upload_duration_ms
    ∷ integer r.streams_download
    ∷ integer r.streams_upload
    ∷ real r.overhead_factor
    ∷ text r.source
    ∷ text r.server_name
    ∷ []

-- `scanResult`
unfoldable pub scan_result : {F : Type 0} → Row F → Option (Result F)
scan_result
      (text id
        ∷ text timestamp
        ∷ text client_ip
        ∷ text user_agent
        ∷ real download_mbps
        ∷ real upload_mbps
        ∷ real ping_ms
        ∷ real jitter_ms
        ∷ integer download_bytes
        ∷ integer upload_bytes
        ∷ integer download_duration_ms
        ∷ integer upload_duration_ms
        ∷ integer streams_download
        ∷ integer streams_upload
        ∷ real overhead_factor
        ∷ text source
        ∷ text server_name
        ∷ []) =
    some (record {
      id = id;
      timestamp = timestamp;
      client_ip = client_ip;
      user_agent = user_agent;
      download_mbps = download_mbps;
      upload_mbps = upload_mbps;
      ping_ms = ping_ms;
      jitter_ms = jitter_ms;
      download_bytes = download_bytes;
      upload_bytes = upload_bytes;
      download_duration_ms = download_duration_ms;
      upload_duration_ms = upload_duration_ms;
      streams_download = streams_download;
      streams_upload = streams_upload;
      overhead_factor = overhead_factor;
      source = source;
      server_name = server_name;
    })
scan_result _ = none

-- the loop over the rows of `List`
unfoldable pub scan_all : {F : Type 0} → List (Row F) → Option (List (Result F))
scan_all [] = some []
scan_all (r ∷ rs) = elim (scan_result r) [
  | none ↦ none
  | some x ↦ elim (scan_all rs) [ none ↦ none | some xs ↦ some (x ∷ xs) ]
]

-- the row that `Save` inserts
unfoldable pub stamped : {F : Type 0} → String → String → Result F → Result F
stamped i now r = record r {
  id = i;
  timestamp = if str_eq r.timestamp "" then now else r.timestamp;
}

abbrev pub fetched : {F : Type 0} → Option (Result F) → Fetched F
fetched none = broken
fetched (some r) = found r

abbrev pub of_selected : {F : Type 0} → Selected F → Fetched F
of_selected (row r) = fetched (scan_result r)
of_selected no_rows = absent
of_selected query_failed = broken

module _ {Db F : Type 0} (db : Database Db F) where
  abbrev pub inserted : Db → String → Option Db → Db × Option String
  inserted s i none = (s, none)
  inserted s i (some s') = (s', some i)

  unfoldable pub sqlite_save : Db → Option String → String → Result F → Db × Option String
  sqlite_save s none now r = (s, none)
  sqlite_save s (some i) now r = inserted s i (db.insert s (values (stamped i now r)))

  unfoldable pub sqlite_list : Db → ℤ → Option (List (Result F))
  sqlite_list s limit =
      if leb_ℤ limit (pos 0)
      then some []
      else elim (db.select_recent s (pos_part limit)) [ none ↦ none | some rows ↦ scan_all rows ]

  -- `sqliteStore`
  unfoldable pub sqlite_store : Store Db F
  sqlite_store = record {
    save = sqlite_save;
    get = λ s i. of_selected (db.select_by_id s i);
    list = sqlite_list;
  }
