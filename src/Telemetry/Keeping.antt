-- ===== src/Telemetry/Keeping.antt =====
-- What internal/telemetry keeps: the contract of a store, and the sqlite store's part of it.
use go_speedtest.Prelude.{
  ◌≡◌, refl, ◌≢◌, ap, Option, none, some, List, [], ◌∷◌, String, arith, map, Option-cases, inl, inr,
}
use go_speedtest.Prelude.Int.{ℤ, pos, pos_part, ◌<ℤ◌}
use go_speedtest.Measure.{Result}
use go_speedtest.Telemetry.{
  found, Store, text, Row, row, Database, values, scan_result, scan_all, stamped, of_selected,
  sqlite_save, sqlite_list, sqlite_store,
}

-- A store that keeps what it saves: a saved result is found under its id, with a time if it had
-- none, and every other id is answered as before.
pub record IsKeeping {S F : Type 0} (store : Store S F) : Type 0 where
  pub saved :
      (s : S) (id : Option String) (now : String) (r : Result F) {s' : S} {i : String}
      → store.save s id now r ≡ (s', some i)
      → store.get s' i ≡ found (stamped i now r)
  pub others :
      (s : S) (id : Option String) (now : String) (r : Result F) {s' : S} {i : String} (j : String)
      → store.save s id now r ≡ (s', some i)
      → j ≢ i
      → store.get s' j ≡ store.get s j

-- The documented behaviour of a table with a primary key, the first column.
pub record IsTable {Db F : Type 0} (db : Database Db F) : Type 0 where
  pub selected :
      (s : Db) (i : String) (r : Row F) {s' : Db}
      → db.insert s (text i ∷ r) ≡ some s'
      → db.select_by_id s' i ≡ row (text i ∷ r)
  pub unchanged :
      (s : Db) (i : String) (r : Row F) {s' : Db} (j : String)
      → db.insert s (text i ∷ r) ≡ some s'
      → j ≢ i
      → db.select_by_id s' j ≡ db.select_by_id s j

-- The INSERT and the scan agree on the order of the seventeen columns.
scan_result-values : {F : Type 0} (r : Result F) → scan_result (values r) ≡ some r
unfolding scan_result values
scan_result-values r = refl

scan_all-map : {F : Type 0} (rs : List (Result F)) → scan_all (map values rs) ≡ some rs
unfolding scan_all scan_result values
scan_all-map [] = refl
scan_all-map (r ∷ rs) = rw (scan_all-map rs)

module _ {Db F : Type 0} (db : Database Db F) where
  -- A save that returns an id has inserted the stamped row under that id.
  sqlite_save-some :
      (s : Db) (id : Option String) (now : String) (r : Result F) {s' : Db} {i : String}
      → sqlite_save db s id now r ≡ (s', some i)
      → db.insert s (values (stamped i now r)) ≡ some s'
  unfolding sqlite_save
  sqlite_save-some s none now r h = cc
  sqlite_save-some s (some k) now r h =
      elim (Option-cases (db.insert s (values (stamped k now r)))) [ inl e ↦ cc | inr (t, e) ↦ cc ]

  pub sqlite_store-IsKeeping : IsTable db → IsKeeping (sqlite_store db)
  unfolding sqlite_store values stamped scan_result
  sqlite_store-IsKeeping t = record {
    saved =
        λ s id now r {s'} {i} h. ap of_selected (t.selected s i _ (sqlite_save-some s id now r h));
    others = λ s id now r {s'} {i} j h ne.
        ap of_selected (t.unchanged s i _ j (sqlite_save-some s id now r h) ne);
  }

  -- A list of a positive limit gives back the results of the rows that the database selects, in
  -- their order, where these are rows that `Save` wrote.
  pub sqlite_list_lem :
      (s : Db) (limit : ℤ) (rs : List (Result F))
      → pos 0 <ℤ limit
      → db.select_recent s (pos_part limit) ≡ some (map values rs)
      → sqlite_list db s limit ≡ some rs
  unfolding sqlite_list
  sqlite_list_lem s limit rs h e = ground (arith, scan_all-map rs)
