-- ===== src/Handlers/Results/Tests.antt =====
-- An upload of a result to the sqlite store over a table that is a list.
use go_speedtest.Prelude.{◌≡◌, refl, ◌≢◌, ◌⊎◌, inl, inr, true, none, some, [], ◌∷◌, String, map}
use go_speedtest.Prelude.Int.{pos}
use go_speedtest.Prelude.Fixed.{Fixed, fixed_double}
use go_speedtest.Measure.{Result, new_result, source_web}
use go_speedtest.Telemetry.{values, sqlite_store, sqlite_save, stamped}
use go_speedtest.Telemetry.Keeping.{sqlite_store-IsKeeping}
use go_speedtest.Telemetry.Tests.{Table, table, table-IsTable}
use go_speedtest.Handlers.Results.{
  Context, answered, unauthorized, bad_request, fill, is_negative, ingest, result_get, stats_limit,
  stats,
}
use go_speedtest.Handlers.Results.Sharing.{
  IsNonnegative, IsFilled, ingest-result_get, ingest_refused, stats-sqlite_store,
}

abbrev context : Context
context = record {
  now = "2026-01-02T03:04:05Z";
  address = some "192.0.2.7";
  user_agent = "curl";
  server_name = "go-speedtest";
  id = some "00ff";
}

abbrev sent : Result Fixed
sent = record (new_result (λ t. "2026-01-01T00:00:00Z") 0 source_web) { ping_ms = some (pos 7000) }

abbrev kept : Table
kept = values (record (fill context sent) { id = "00ff" }) ∷ []

accepted : ingest (sqlite_store table) true context (some sent) [] ≡ (kept, answered "00ff")
unfolding ingest is_negative new_result sqlite_store sqlite_save stamped values fill
accepted = refl

ingest-result_get_example :
    (r : Result Fixed) × (true ≡ true)
    × (some sent ≡ some r)
    × IsNonnegative r
    × ((served : Result Fixed) × (result_get (sqlite_store table) kept "00ff" ≡ answered served)
        × (served.id ≡ "00ff")
        × IsFilled context r served)
    × ((j : String)
        → j ≢ "00ff"
        → result_get (sqlite_store table) kept j ≡ result_get (sqlite_store table) [] j)
ingest-result_get_example =
    ingest-result_get (sqlite_store table) true context (some sent) []
      (sqlite_store-IsKeeping table table-IsTable) accepted

ingest_refused_holds :
    ((ingest (sqlite_store table) true context none []).0 ≡ [])
    × (((ingest (sqlite_store table) true context none []).1 ≡ unauthorized)
        ⊎ ((ingest (sqlite_store table) true context none []).1 ≡ bad_request))
ingest_refused_holds = ingest_refused (sqlite_store table) true context none [] (inr (inl refl))

selects_kept :
    table.select_recent kept 50
    ≡ some (map values (record (fill context sent) { id = "00ff" } ∷ []))
selects_kept = refl

stats-sqlite_store_holds :
    stats (sqlite_store table) (λ q. none) true "ten" kept
    ≡ answered (record (fill context sent) { id = "00ff" } ∷ [])
stats-sqlite_store_holds =
    stats-sqlite_store table (λ q. none) "ten" kept
      (record (fill context sent) { id = "00ff" } ∷ []) (unfold stats_limit in selects_kept)
