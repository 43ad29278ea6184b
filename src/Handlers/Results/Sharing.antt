-- ===== src/Handlers/Results/Sharing.antt =====
-- Results that internal/handlers/handlers.go accepts, serves again and lists, over a store of
-- internal/telemetry.
use go_speedtest.Prelude.{
  ◌≡◌, refl, ◌≢◌, ap, ◌∙◌, ◌⊎◌, inl, inr, Bool, true, false, Option, none, some, List, String,
  str_eq, str_eq_iff, arith, Bool-cases, map,
}
use go_speedtest.Prelude.Int.{ℤ, pos, pos_part, ◌<ℤ◌}
use go_speedtest.Prelude.Double.{Double}
use go_speedtest.Measure.{Result}
use go_speedtest.Telemetry.{found, Store, Database, values, stamped, sqlite_store}
use go_speedtest.Telemetry.Keeping.{IsKeeping, sqlite_list_lem}
use go_speedtest.Handlers.Results.{
  Context, or_text, or_address, answered, unauthorized, bad_request, fill, is_negative, stored_id,
  ingest, result_get, of_fetched, stats_limit, stats,
}

-- The field of a result that is served: what was sent, or the default where that is empty.
abbrev pub IsDefaulted : (sent default served : String) → Type 0
IsDefaulted sent default served = (sent ≢ "" → served ≡ sent) × (sent ≡ "" → served ≡ default)

-- The address of the client is set only where the request has one.
abbrev pub IsAddressed : (sent : String) → Option String → (served : String) → Type 0
IsAddressed sent none served = served ≡ sent
IsAddressed sent (some address) served = IsDefaulted sent address served

-- What is served for a result that was sent: all that was measured, and five fields that are filled
-- in where they were empty.
pub record IsFilled {F : Type 0} (c : Context) (r served : Result F) : Type 0 where
  pub timestamp : IsDefaulted r.timestamp c.now served.timestamp
  pub source : IsDefaulted r.source "api" served.source
  pub client_ip : IsAddressed r.client_ip c.address served.client_ip
  pub user_agent : IsDefaulted r.user_agent c.user_agent served.user_agent
  pub server_name : IsDefaulted r.server_name c.server_name served.server_name
  pub download_mbps : served.download_mbps ≡ r.download_mbps
  pub upload_mbps : served.upload_mbps ≡ r.upload_mbps
  pub ping_ms : served.ping_ms ≡ r.ping_ms
  pub jitter_ms : served.jitter_ms ≡ r.jitter_ms
  pub download_bytes : served.download_bytes ≡ r.download_bytes
  pub upload_bytes : served.upload_bytes ≡ r.upload_bytes
  pub download_duration_ms : served.download_duration_ms ≡ r.download_duration_ms
  pub upload_duration_ms : served.upload_duration_ms ≡ r.upload_duration_ms
  pub streams_download : served.streams_download ≡ r.streams_download
  pub streams_upload : served.streams_upload ≡ r.streams_upload
  pub overhead_factor : served.overhead_factor ≡ r.overhead_factor

-- No measured value is below zero.
abbrev pub IsNonnegative : {F : Type 0} ⦃d : Double F⦄ → Result F → Type 0
IsNonnegative ⦃d⦄ r =
    (d.lt r.download_mbps (d.of_int (pos 0)) ≡ false)
    × (d.lt r.upload_mbps (d.of_int (pos 0)) ≡ false)
    × (d.lt r.ping_ms (d.of_int (pos 0)) ≡ false)
    × (d.lt r.jitter_ms (d.of_int (pos 0)) ≡ false)

or_text-IsDefaulted : (sent default : String) → IsDefaulted sent default (or_text sent default)
or_text-IsDefaulted sent default = ground (arith, str_eq_iff sent "")

or_address-IsAddressed :
    (sent : String) (o : Option String) → IsAddressed sent o (or_address sent o)
or_address-IsAddressed sent none = refl
or_address-IsAddressed sent (some a) = or_text-IsDefaulted sent a

fill-IsFilled :
    {F : Type 0} (c : Context) (r : Result F) (i : String)
    → IsFilled c r (record (fill c r) { id = i })
unfolding fill
fill-IsFilled c r i = record {
  timestamp = or_text-IsDefaulted r.timestamp c.now;
  source = or_text-IsDefaulted r.source "api";
  client_ip = or_address-IsAddressed r.client_ip c.address;
  user_agent = or_text-IsDefaulted r.user_agent c.user_agent;
  server_name = or_text-IsDefaulted r.server_name c.server_name;
  download_mbps = refl;
  upload_mbps = refl;
  ping_ms = refl;
  jitter_ms = refl;
  download_bytes = refl;
  upload_bytes = refl;
  download_duration_ms = refl;
  upload_duration_ms = refl;
  streams_download = refl;
  streams_upload = refl;
  overhead_factor = refl;
}

is_negative-IsNonnegative :
    {F : Type 0} ⦃d : Double F⦄ (r : Result F) → is_negative r ≡ false → IsNonnegative r
unfolding is_negative
is_negative-IsNonnegative r h = ground arith

-- The time that `fill` sets is the one that `Save` would set.
stamped-fill :
    {F : Type 0} (i : String) (c : Context) (r : Result F)
    → stamped i c.now (fill c r) ≡ record (fill c r) { id = i }
unfolding stamped fill
stamped-fill i c r = elim (Bool-cases (str_eq r.timestamp "")) [
  | inl e ↦ elim (Bool-cases (str_eq c.now "")) [ inl f ↦ rw (e, f) | inr f ↦ rw (e, f) ]
  | inr e ↦ rw (e, e)
]

module _ {S : Type 0} where
  stored_id-answered :
      (r : S × Option String) {s : S} {i : String} → stored_id r ≡ (s, answered i) → r ≡ (s, some i)
  stored_id-answered (t, none) h = cc
  stored_id-answered (t, some k) h = cc

module _ {S F : Type 0} ⦃d : Double F⦄ (store : Store S F) where
  -- An accepted result was authorized and decoded, has no negative metric, and was saved.
  ingest-answered :
      (authorized : Bool) (c : Context) (decoded : Option (Result F)) (s : S) {s' : S} {i : String}
      → ingest store authorized c decoded s ≡ (s', answered i)
      → (r : Result F) × (authorized ≡ true)
        × (decoded ≡ some r)
        × (is_negative r ≡ false)
        × (store.save s c.id c.now (fill c r) ≡ (s', some i))
  unfolding ingest
  ingest-answered false c decoded s h = cc
  ingest-answered true c none s h = cc
  ingest-answered true c (some r) s h = elim (Bool-cases (is_negative r)) [
    | inl e ↦ cc
    | inr e ↦ (r, refl, refl, e, stored_id-answered _ (rw e at h))
  ]

  result_get_found :
      (s : S) (i : String) {r : Result F}
      → store.get s i ≡ found r
      → result_get store s i ≡ answered r
  unfolding result_get
  result_get_found s i h = ap of_fetched h

  result_get_agree :
      (s s' : S) (i : String)
      → store.get s i ≡ store.get s' i
      → result_get store s i ≡ result_get store s' i
  unfolding result_get
  result_get_agree s s' i h = ap of_fetched h

  -- Over a store that keeps what it saves, a result that was accepted is served under the id of the
  -- answer: every measured field is as it was sent, and so is each of timestamp, source, client
  -- address, user agent and server name, unless it was sent empty: then it is the time of the request,
  -- "api", the address of the request if there is one, its user agent and the server's name. What is
  -- served under any other id does not change. The upload was authorized and none of its four metrics
  -- is below zero.
  pub ingest-result_get :
      (authorized : Bool) (c : Context) (decoded : Option (Result F)) (s : S) {s' : S} {i : String}
      → IsKeeping store
      → ingest store authorized c decoded s ≡ (s', answered i)
      → (r : Result F) × (authorized ≡ true)
        × (decoded ≡ some r)
        × IsNonnegative r
        × ((served : Result F) × (result_get store s' i ≡ answered served)
            × (served.id ≡ i)
            × IsFilled c r served)
        × ((j : String) → j ≢ i → result_get store s' j ≡ result_get store s j)
  ingest-result_get authorized c decoded s {i = i} keeping h =
      let (r, a, e, n, saved) = ingest-answered authorized c decoded s h in
      (
        r,
        a,
        e,
        is_negative-IsNonnegative r n,
        (
          record (fill c r) { id = i },
          result_get_found _ _ (keeping.saved s c.id c.now (fill c r) saved)
              ∙ ap answered (stamped-fill _ c r),
          refl,
          fill-IsFilled c r i,
        ),
        λ j ne. result_get_agree _ _ j (keeping.others s c.id c.now (fill c r) j saved ne),
      )

  -- An upload without the token, of no result, or of one with a negative metric changes nothing.
  pub ingest_refused :
      (authorized : Bool) (c : Context) (decoded : Option (Result F)) (s : S)
      → (authorized ≡ false)
        ⊎ (decoded ≡ none)
        ⊎ ((r : Result F) × (decoded ≡ some r) × (is_negative r ≡ true))
      → ((ingest store authorized c decoded s).0 ≡ s)
        × (((ingest store authorized c decoded s).1 ≡ unauthorized)
            ⊎ ((ingest store authorized c decoded s).1 ≡ bad_request))
  unfolding ingest
  ingest_refused authorized c decoded s h = ground arith

stats_limit-pos : (parse_int : String → Option ℤ) (q : String) → pos 0 <ℤ stats_limit parse_int q
unfolding stats_limit
stats_limit-pos parse_int q = ground arith

-- Whatever limit is asked for, the sqlite store is queried with a positive one, and the list that
-- is served is the one that the database selects, where its rows are rows that `Save` wrote.
pub stats-sqlite_store :
    {Db F : Type 0} (db : Database Db F) (parse_int : String → Option ℤ) (q : String) (s : Db)
    (rs : List (Result F))
    → db.select_recent s (pos_part (stats_limit parse_int q)) ≡ some (map values rs)
    → stats (sqlite_store db) parse_int true q s ≡ answered rs
unfolding stats sqlite_store
stats-sqlite_store db parse_int q s rs e =
    rw (sqlite_list_lem db s (stats_limit parse_int q) rs (stats_limit-pos parse_int q) e)
