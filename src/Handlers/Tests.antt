-- ===== src/Handlers/Tests.antt =====
-- The handlers of internal/handlers/handlers.go on concrete requests.
use go_speedtest.Prelude.{
  str_eq, inl, ℕ, suc, ◌+◌, ◌*◌, ◌≤◌, ◌<◌, ◌≡◌, refl, ◌≢◌, ◌↔◌, ◌⊎◌, inr, Bool, true, false, Option,
  none, some, List, [], ◌∷◌, ◌++◌, String, arith, leb, ◌==◌, if◌then◌else◌, String_comparable,
}
use go_speedtest.Prelude.Int.{min_ℤ, ℤ, pos, ◌≤ℤ◌, ◌<ℤ◌}
use go_speedtest.Prelude.Fixed.{Fixed, fixed_double}
use go_speedtest.Metrics.{new_registry}
use go_speedtest.Metrics.Series.{value}
use go_speedtest.RateLimit.{limited, new}
use go_speedtest.ClientIp.{Bytes}
use go_speedtest.Handlers.Auth.{bearer, authorized, authorized_iff}
use go_speedtest.Handlers.Cors.{Allows, AllowsNothing, cors_mw, Lists, cors_mw_lem}
use go_speedtest.Handlers.Recorder.{
  Write, header, body, new_recorder, observe_all, wire_status, observe_all-status,
}
use go_speedtest.Handlers.Download.{requested, capped, handle_download}
use go_speedtest.Handlers.Download.Bytes.{
  served, bytes_of, chunks_for, handle_download_lem, handle_download_refused,
  handle_download_overflow,
}
use go_speedtest.Handlers.Upload.{
  ReadError, too_large, limit_of, IsReader, received, handle_upload, handle_upload_lem,
}
use go_speedtest.Handlers.Gate.{World, Ending, panicked, test_mw}
use go_speedtest.Handlers.Gate.Balance.{running, streams, test_mw_balanced}

abbrev secret : Bytes
secret = b's' ∷ b'3' ∷ []

authorized_iff_holds :
    (authorized secret (bearer ++ secret) ≡ true)
    ↔ ((secret ≡ []) ⊎ (bearer ++ secret ≡ bearer ++ secret))
authorized_iff_holds = authorized_iff secret (bearer ++ secret)

abbrev origin : String
origin = "https://a.example"

abbrev method : String
method = "GET"

cors_mw_lem_example :
    let o = cors_mw (origin ∷ []) origin method in
    let listed = Lists (origin ∷ []) origin in
    (((origin ≢ "") × listed) → Allows origin o)
    × (¬ ((origin ≢ "") × listed) → AllowsNothing o)
    × ((o.answered ≡ some 204) ↔ (method ≡ "OPTIONS"))
    × ((o.calls_next ≡ true) ↔ (method ≢ "OPTIONS"))
cors_mw_lem_example = cors_mw_lem (origin ∷ []) origin method

abbrev late_error : List Write
late_error = body ∷ header 500 ∷ []

observe_all-status_holds : (observe_all new_recorder late_error).status ≡ wire_status late_error
observe_all-status_holds = observe_all-status late_error tt

abbrev three : String → Option ℤ
three q = some (pos 3)

-- Every write takes the whole chunk, but for the second, which fails half way.
abbrev broken_pipe : ℕ → ℕ × Bool
broken_pipe i = if i == 1 then (524_288, true) else (1_048_576, false)

served_nothing : served new_registry ≡ pos 0
unfolding new_registry value
served_nothing = refl

asks_for_three : requested three "3" ≡ some (pos 3)
unfolding requested
asks_for_three = refl

two_chunks : (chunks_for (pos 2) (pos 3) ≡ 2) × (bytes_of broken_pipe 2 0 ≡ 1_572_864)
unfolding chunks_for capped bytes_of
two_chunks = (refl, refl)

handle_download_lem_example :
    let r = handle_download three broken_pipe true (pos 2) "3" new_registry in
    let chunks = chunks_for (pos 2) (pos 3) in
    (r.status ≡ 200)
    × (r.content_length ≡ some (pos (chunks * 1_048_576)))
    × (1 ≤ chunks)
    × (pos 0 <ℤ pos 2 → pos chunks ≡ min_ℤ (pos 3) (pos 2))
    × (pos 2 ≤ℤ pos 0 → pos chunks ≡ pos 3)
    × (r.writes ≤ chunks)
    × (served r.metrics ≡ pos (0 + bytes_of broken_pipe r.writes 0))
    × ((j : ℕ) → suc j < r.writes → (broken_pipe j).1 ≡ false)
    × ((r.writes ≡ chunks) ⊎ ((j : ℕ) × (suc j ≡ r.writes) × ((broken_pipe j).1 ≡ true)))
handle_download_lem_example =
    handle_download_lem three broken_pipe (pos 2) "3" new_registry (pos 3) 0 asks_for_three
      served_nothing (rw two_chunks.0 (omega arith)) (rw (two_chunks.0, two_chunks.1) (omega arith))

handle_download_refused_holds :
    let r = handle_download three broken_pipe false (pos 2) "3" new_registry in
    ((r.status ≡ 400) ⊎ (r.status ≡ 503))
    × (r.writes ≡ 0)
    × (r.content_length ≡ none)
    × (r.metrics ≡ new_registry)
handle_download_refused_holds =
    handle_download_refused three broken_pipe (pos 2) "3" new_registry false (inr refl)

-- A request for 2 ^ 43 chunks, in lan mode; the client is gone at the first write.
abbrev many : String → Option ℤ
many q = if str_eq q "8796093022208" then some (pos 8_796_093_022_208) else none

asks_for_many : requested many "8796093022208" ≡ some (pos 8_796_093_022_208)
unfolding requested
asks_for_many = refl

handle_download_overflow_example :
    let r = handle_download many (λ i. (0, true)) true (pos 0) "8796093022208" new_registry in
    (r.status ≡ 200) × ((k : ℤ) × (r.content_length ≡ some k) × (k <ℤ pos 0))
handle_download_overflow_example =
    handle_download_overflow many (λ i. (0, true)) (pos 0) "8796093022208" new_registry
      8_796_093_022_208 asks_for_many (inl (omega arith)) (omega arith) (omega arith)

-- A body of a size behind a limit.
abbrev pub body_reader : (size : ℕ) → Option ℕ → ℕ × Option ReadError
body_reader size none = (size, none)
body_reader size (some l) = if leb size l then (size, none) else (l, some too_large)

body_reader-le : (size : ℕ) (l : Option ℕ) → (body_reader size l).0 ≤ size
body_reader-le size none = omega arith
body_reader-le size (some k) = ground arith

body_reader-le_limit : (size l : ℕ) → (body_reader size (some l)).0 ≤ l
body_reader-le_limit size l = ground arith

body_reader-eq_none :
    (size : ℕ) (l : Option ℕ) → (body_reader size l).1 ≡ none → (body_reader size l).0 ≡ size
body_reader-eq_none size none h = refl
body_reader-eq_none size (some k) h = ground arith

body_reader-eq_too_large :
    (size : ℕ) (l : Option ℕ)
    → (body_reader size l).1 ≡ some too_large
    → (k : ℕ) × (l ≡ some k) × (k < size)
body_reader-eq_too_large size none h = cc
body_reader-eq_too_large size (some k) h = (k, refl, ground arith)

pub body_reader-IsReader : (size : ℕ) → IsReader size (body_reader size)
body_reader-IsReader size = record {
  within_body = body_reader-le size;
  within_limit = body_reader-le_limit size;
  complete = body_reader-eq_none size;
  over = body_reader-eq_too_large size;
}

received_nothing : received new_registry ≡ pos 0
unfolding new_registry value
received_nothing = refl

handle_upload_lem_example :
    let r = handle_upload (body_reader 5) (pos 4) (pos 30) new_registry in
    let n = (body_reader 5 (limit_of (pos 4))).0 in
    (r.status ≡ 200 → (n ≡ 5) × (pos 0 <ℤ pos 4 → pos 5 ≤ℤ pos 4))
    × (r.status ≡ 413 → (pos 0 <ℤ pos 4) × (pos 4 <ℤ pos 5))
    × (received r.metrics ≡ pos (0 + n))
    × (n ≤ 5)
    × (pos 0 <ℤ pos 4 → pos n ≤ℤ pos 4)
handle_upload_lem_example =
    handle_upload_lem 5 0 (body_reader 5) (pos 4) (pos 30) new_registry (body_reader-IsReader 5)
      received_nothing (omega arith)

abbrev crash : World String Fixed → World String Fixed × Ending
crash w = (w, panicked)

abbrev fresh : World String Fixed
fresh = record { limiter = limited (new (pos 2) (some (pos 0)) (pos 0)); metrics = new_registry }

nothing_runs : streams new_registry ≡ pos 0
unfolding new_registry value
nothing_runs = refl

test_mw_balanced_holds :
    let w' = (test_mw "started" "completed" crash fresh 1 "10.0.0.1").0 in
    (running "10.0.0.1" w'.limiter ≡ running "10.0.0.1" fresh.limiter)
    × (streams w'.metrics ≡ pos 0)
test_mw_balanced_holds =
    test_mw_balanced "started" "completed" crash (λ w. (refl, refl)) fresh 1 "10.0.0.1" "10.0.0.1" 0
      nothing_runs (omega arith)
