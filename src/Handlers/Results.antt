-- ===== src/Handlers/Results.antt =====
-- `handleResultsIngest`, `handleResultGet` and `handleStats` of internal/handlers/handlers.go, over a
-- store of internal/telemetry.
pub mod Sharing
pub mod Tests
use go_speedtest.Prelude.{
  ℕ, Bool, true, false, not, ◌||◌, Option, none, some, List, String, str_eq, if◌then◌else◌,
}
use go_speedtest.Prelude.Int.{ℤ, pos, ltb_ℤ}
use go_speedtest.Prelude.Double.{Double}
use go_speedtest.Measure.{Result, source_api}
use go_speedtest.Telemetry.{Fetched, found, absent, broken, Store}

-- What a request and its surroundings bring to an upload of a result: the time in RFC 3339, the
-- resolved address as a text, if it is valid, the User-Agent header, the server's name, and what
-- `newID` returns.
pub record Context : Type 0 where
  pub now : String
  pub address : Option String
  pub user_agent : String
  pub server_name : String
  pub id : Option String

-- The answers: an error's status, or the JSON of a 200.
pub data Answer (A : Type 0) : Type 0 where
  answered : A → Answer A
  unauthorized bad_request not_found internal : Answer A

-- the status that an answer goes out with
abbrev pub status_of : {A : Type 0} → Answer A → ℕ
status_of (answered a) = 200
status_of unauthorized = 401
status_of bad_request = 400
status_of not_found = 404
status_of internal = 500

abbrev pub or_text : String → String → String
or_text s default = if str_eq s "" then default else s

abbrev pub or_address : String → Option String → String
or_address s none = s
or_address s (some a) = or_text s a

module _ {F : Type 0} ⦃d : Double F⦄ where
  -- the four metrics that must not be negative
  unfoldable pub is_negative : Result F → Bool
  is_negative r =
      d.lt r.download_mbps (d.of_int (pos 0))
      || (d.lt r.upload_mbps (d.of_int (pos 0))
          || (d.lt r.ping_ms (d.of_int (pos 0)) || d.lt r.jitter_ms (d.of_int (pos 0))))

module _ {F : Type 0} where
  -- the defaults of the fields that a client leaves empty
  unfoldable pub fill : Context → Result F → Result F
  fill c r = record r {
    timestamp = or_text r.timestamp c.now;
    source = or_text r.source source_api;
    client_ip = or_address r.client_ip c.address;
    user_agent = or_text r.user_agent c.user_agent;
    server_name = or_text r.server_name c.server_name;
  }

abbrev pub stored_id : {S : Type 0} → S × Option String → S × Answer String
stored_id (s, none) = (s, internal)
stored_id (s, some i) = (s, answered i)

module _ {S F : Type 0} ⦃d : Double F⦄ (store : Store S F) where
  -- `handleResultsIngest`: `decoded` is the result in the body, none if it is not one.
  unfoldable pub ingest :
      (authorized : Bool) → Context → (decoded : Option (Result F)) → S → S × Answer String
  ingest authorized c decoded s = if not authorized then (s, unauthorized) else elim decoded [
    | none ↦ (s, bad_request)
    | some r ↦
        if is_negative r then (s, bad_request) else stored_id (store.save s c.id c.now (fill c r))
  ]

abbrev pub of_fetched : {F : Type 0} → Fetched F → Answer (Result F)
of_fetched (found r) = answered r
of_fetched absent = not_found
of_fetched broken = internal

-- the limit of `handleStats`, for the text `q` of the parameter
pub stats_limit : (parse_int : String → Option ℤ) → String → ℤ
stats_limit parse_int q =
    if str_eq q ""
    then pos 50
    else elim (parse_int q) [ none ↦ pos 50 | some n ↦ if ltb_ℤ (pos 0) n then n else pos 50 ]

module _ {S F : Type 0} (store : Store S F) where
  -- `handleResultGet`
  pub result_get : S → String → Answer (Result F)
  result_get s id = of_fetched (store.get s id)

  -- `handleStats`
  pub stats :
      (parse_int : String → Option ℤ) (authorized : Bool) → String → S → Answer (List (Result F))
  stats parse_int authorized q s =
      if not authorized
      then unauthorized
      else elim (store.list s (stats_limit parse_int q)) [ none ↦ internal | some rs ↦ answered rs ]
