-- ===== src/Telemetry/Tests.antt =====
-- A table as a list of rows, the last inserted first, under the sqlite store of internal/telemetry.
use go_speedtest.Prelude.{
  ℕ, zero, suc, ◌<◌, ◌≡◌, refl, ◌≢◌, none, All, length, replicate, Bool, false, Option, some, List,
  [], ◌∷◌, String, str_eq, str_eq_iff, if◌then◌else◌, arith, take,
}
use go_speedtest.Prelude.Fixed.{Fixed}
use go_speedtest.Telemetry.{text, Row, Selected, row, no_rows, Database, sqlite_store}
use go_speedtest.Telemetry.Opening.{
  Driver, closed_again, dsn_of, new_sqlite, new_id, IsByte, IsHex, new_id_lem,
}
use go_speedtest.Telemetry.Keeping.{IsTable, IsKeeping, sqlite_store-IsKeeping}

abbrev pub Table : Type 0
Table = List (Row Fixed)

abbrev pub has_id : String → Row Fixed → Bool
has_id i (text k ∷ r) = str_eq k i
has_id i _ = false

abbrev pub lookup : Table → String → Selected Fixed
lookup [] i = no_rows
lookup (r ∷ rs) i = if has_id i r then row r else lookup rs i

abbrev pub insert_row : Table → Row Fixed → Option Table
insert_row rs r = some (r ∷ rs)

abbrev pub table : Database Table Fixed
table = record {
  insert = insert_row;
  select_by_id = lookup;
  select_recent = λ rs n. some (take n rs);
}

inserted-lookup :
    (s : Table) (i : String) (r : Row Fixed) {s' : Table}
    → insert_row s (text i ∷ r) ≡ some s'
    → lookup s' i ≡ row (text i ∷ r)
inserted-lookup s i r h = ground (arith, str_eq_iff i i)

other-lookup :
    (s : Table) (i : String) (r : Row Fixed) {s' : Table} (j : String)
    → insert_row s (text i ∷ r) ≡ some s'
    → j ≢ i
    → lookup s' j ≡ lookup s j
other-lookup s i r j h ne = ground (arith, str_eq_iff i j)

pub table-IsTable : IsTable table
table-IsTable = record { selected = inserted-lookup; unchanged = other-lookup }

sqlite_store-IsKeeping_example : IsKeeping (sqlite_store table)
sqlite_store-IsKeeping_example = sqlite_store-IsKeeping table table-IsTable

replicate-IsByte : (n b : ℕ) → b < 256 → All IsByte (replicate n b)
replicate-IsByte zero b h = tt
replicate-IsByte (suc n) b h = (h, replicate-IsByte n b h)

abbrev zeros : List ℕ
zeros = replicate 16 0

abbrev one_set : List ℕ
one_set = replicate 16 255

zeros-ne : zeros ≢ one_set
zeros-ne e = cc

new_id_lem_holds :
    ((id : List ℕ) × (new_id (some zeros) ≡ some id) × (length id ≡ 32) × All IsHex id)
    × (new_id (some zeros) ≢ new_id (some one_set))
new_id_lem_holds =
    new_id_lem zeros one_set (replicate-IsByte 16 0 (omega arith))
      (replicate-IsByte 16 255 (omega arith)) refl zeros-ne

-- A driver that opens every path and creates no schema.
abbrev driver : Driver String
driver = record {
  connect = λ dsn. some dsn;
  set_max_open_conns = λ db n. db;
  exec_schema = λ db. none;
}

not_opened :
    new_sqlite driver "/a"
    ≡ closed_again
        "file:/a?_pragma=journal_mode(WAL)&_pragma=busy_timeout(5000)&_pragma=synchronous(NORMAL)"
unfolding new_sqlite dsn_of
not_opened = refl
