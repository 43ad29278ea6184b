-- ===== src/Handlers/Download.antt =====
-- `handleDownload` of internal/handlers/handlers.go. `write i` is what `w.Write` returns for the
-- chunk with the number i: the bytes written, and whether it failed.
pub mod Bytes
pub mod Quiet
use go_speedtest.Prelude.{
  ℕ, zero, suc, ◌+◌, ◌*◌, ◌^◌, ◌≤◌, ◌<◌, ◌≡◌, refl, ◌≢◌, Bool, true, false, not, ◌&&◌, Option, none,
  some, List, [], ◌∷◌, String, arith, ltb, if◌then◌else◌, str_eq,
}
use go_speedtest.Prelude.Int.{
  ℤ, pos, negsuc, pos_part, ◌≤ℤ◌, ◌<ℤ◌, ltb_ℤ, int64, int64-pos, scale, ◌+ℤ◌,
}
use go_speedtest.Metrics.{Registry, add, bytes_served}
use go_speedtest.Handlers.Info.{default_download_chunks, chunk_size}

pub record Download : Type 0 where
  pub status : ℕ
  -- the Content-Length header of a 200
  pub content_length : Option ℤ
  pub writes : ℕ
  pub metrics : Registry

-- `chunks` of the query, for the text `q` of the parameter: none if it is refused
unfoldable pub requested : (parse_int : String → Option ℤ) → String → Option ℤ
requested parse_int q =
    if str_eq q ""
    then some default_download_chunks
    else elim (parse_int q) [ none ↦ none | some n ↦ if ltb_ℤ n (pos 1) then none else some n ]

unfoldable pub capped : ℤ → ℤ → ℤ
capped chunk_cap chunks =
    if ltb_ℤ (pos 0) chunk_cap && ltb_ℤ chunk_cap chunks then chunk_cap else chunks

abbrev pub content_length_of : ℤ → ℤ
content_length_of chunks = int64 (scale chunks 1_048_576)

abbrev pub counted : Registry → ℕ → Registry
counted m n = if ltb 0 n then add m bytes_served (pos n) else m

-- The write loop, with `left` chunks to go from the number i: the writes made and the metrics.
unfoldable pub write_loop : (write : ℕ → ℕ × Bool) → ℕ → ℕ → Registry → ℕ × Registry
write_loop write zero i m = (i, m)
write_loop write (suc left) i m =
    let rest = write_loop write left (suc i) (counted m (write i).0) in
    if (write i).1 then (suc i, counted m (write i).0) else rest

abbrev pub refused : ℕ → Registry → Download
refused status m = record { status = status; content_length = none; writes = 0; metrics = m }

abbrev pub sent : ℤ → ℕ × Registry → Download
sent chunks r = record {
  status = 200;
  content_length = some (content_length_of chunks);
  writes = r.0;
  metrics = r.1;
}

unfoldable pub serve : (write : ℕ → ℕ × Bool) → (ready : Bool) → Registry → ℤ → Download
serve write ready m chunks =
    if not ready then refused 503 m else sent chunks (write_loop write (pos_part chunks) 0 m)

-- `ready` is whether the payload buffer is initialised.
unfoldable pub handle_download :
    (parse_int : String → Option ℤ) (write : ℕ → ℕ × Bool)
    → (ready : Bool) → (chunk_cap : ℤ) → (q : String) → Registry
    → Download
unfolding serve
handle_download parse_int write ready chunk_cap q m = elim (requested parse_int q) [
  | none ↦ refused 400 m
  | some n ↦ serve write ready m (capped chunk_cap n)
]
