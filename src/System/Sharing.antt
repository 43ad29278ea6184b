-- ===== src/System/Sharing.antt =====
-- A result on its way from a run of cmd/go-speedtest-cli/main.go to the store behind
-- internal/handlers/handlers.go, and back under its identifier.
use go_speedtest.Prelude.{
  ◌≡◌, sym, ap, subst, ◌∙◌, ◌⊎◌, inl, inr, true, Option, some, String, arith,
}
use go_speedtest.Prelude.Double.{Double}
use go_speedtest.ClientIp.{Bytes}
use go_speedtest.Measure.{Result}
use go_speedtest.Telemetry.{Store}
use go_speedtest.Telemetry.Keeping.{IsKeeping}
use go_speedtest.Handlers.Results as results
use go_speedtest.Handlers.Results.{Context, Answer, ingest, result_get}
use go_speedtest.Handlers.Results.Sharing.{IsFilled, ingest-result_get}
use go_speedtest.Cli.{Options}
use go_speedtest.Cli.Flags.{Flags}
use go_speedtest.Cli.World.{World, prints}
use go_speedtest.Cli.Run.{push_result, run}
use go_speedtest.Cli.Run.Report.{IsReport, report, run-IsReport}
use go_speedtest.System.{IsEncoding, reply_of, receive_push}
use go_speedtest.System.Pushing.{push_headers-authorized}

module _ {U F : Type 0} (w : World U F) where
  -- The client takes an identifier only from an answer of the server that has one.
  push_result-reply_of :
      (r : Result F) (a : Answer String) {id : String}
      → w.pushed ≡ reply_of a
      → push_result w r ≡ some id
      → (w.marshals r ≡ true) × (a ≡ results.answered id)
  unfolding push_result
  push_result-reply_of r (results.answered i) h k = ground (arith, h)
  push_result-reply_of r results.unauthorized h k = ground (arith, h)
  push_result-reply_of r results.bad_request h k = ground (arith, h)
  push_result-reply_of r results.not_found h k = ground (arith, h)
  push_result-reply_of r results.internal h k = ground (arith, h)

module _ {S F : Type 0} ⦃d : Double F⦄ (store : Store S F) (encode : String → Bytes)
    (transfer : Result F → Option (Result F)) where
  some_injective : {r r' : Result F} → some r ≡ some r' → r ≡ r'
  some_injective h = cc

  -- A push that the server answers with an identifier came with the right token, and its result is
  -- served under that identifier.
  receive_push-answered :
      (api_token token : String) (c : Context) (r : Result F) (s : S) {s' : S} {id : String}
      → IsEncoding encode
      → IsKeeping store
      → transfer r ≡ some r
      → receive_push store encode transfer api_token token c r s ≡ (s', results.answered id)
      → ((api_token ≡ "") ⊎ (api_token ≡ token))
        × ((served : Result F) × (result_get store s' id ≡ results.answered served)
            × (served.id ≡ id)
            × IsFilled c r served)
  unfolding receive_push
  receive_push-answered api_token token c r s {s'} {id} e keeping t h =
      let (r', a, dec, n, (served, got, named, filled), _) =
        ingest-result_get store _ c (transfer r) s keeping h in
      let k : r ≡ r' = some_injective (sym t ∙ dec) in
      (
        (push_headers-authorized e api_token token).0 a,
        (served, got, named, subst (λ x. IsFilled c x served) (sym k) filled),
      )

-- A result as it is pushed, which has no identifier yet.
abbrev pub unnamed : {F : Type 0} → Result F → Result F
unnamed r = record r { id = "" }

of_unnamed :
    {F : Type 0} {res : Result F} {c : Context} {kept : Result F}
    → IsFilled c (unnamed res) kept
    → IsFilled c res kept
of_unnamed x = record {
  timestamp = x.timestamp;
  source = x.source;
  client_ip = x.client_ip;
  user_agent = x.user_agent;
  server_name = x.server_name;
  download_mbps = x.download_mbps;
  upload_mbps = x.upload_mbps;
  ping_ms = x.ping_ms;
  jitter_ms = x.jitter_ms;
  download_bytes = x.download_bytes;
  upload_bytes = x.upload_bytes;
  download_duration_ms = x.download_duration_ms;
  upload_duration_ms = x.upload_duration_ms;
  streams_download = x.streams_download;
  streams_upload = x.streams_upload;
  overhead_factor = x.overhead_factor;
}

module _ {U F : Type 0} ⦃d : Double F⦄ (w : World U F) (f : Flags) {opt : Options U F}
    {res : Result F} where
  IsReport-pushed : IsReport w f opt res → f.push ≡ true → push_result w (unnamed res) ≡ some res.id
  unfolding report
  IsReport-pushed x p = elim x.pushed [
    | inl (n, _) ↦ cc
    | inr (_, h) ↦ subst (λ r. push_result w (unnamed r) ≡ some res.id) (sym x.reported) h
  ]

  module _ {S : Type 0} (store : Store S F) (encode : String → Bytes)
      (transfer : Result F → Option (Result F)) where
    -- A result that the program prints after it has pushed it to the server is what the server then
    -- serves under the printed identifier: every measured field is as it is printed, and so is each of
    -- timestamp, source, client address, user agent and server name, unless it is printed empty: then
    -- it is the time of the push, "api", the client's address if there is one, its user agent and the
    -- server's name; and the client's token was the server's, if that has one. The answer to the push is the
    -- server's, which reads texts and results as they were written, and its store keeps what it
    -- saves.
    pub run-result_get :
        (api_token : String) (c : Context) (s : S)
        → IsEncoding encode
        → IsKeeping store
        → ((r : Result F) → w.marshals r ≡ true → transfer r ≡ some r)
        → f.push ≡ true
        → w.pushed
          ≡ reply_of (receive_push store encode transfer api_token f.token c (unnamed res) s).1
        → (run w f).ending ≡ prints opt res
        → ((api_token ≡ "") ⊎ (api_token ≡ f.token))
          × ((kept : Result F) × (result_get store
                  (receive_push store encode transfer api_token f.token c (unnamed res) s).0
                  res.id
                ≡ results.answered kept)
              × (kept.id ≡ res.id)
              × IsFilled c res kept)
    run-result_get api_token c s e keeping t p served h =
        let push = receive_push store encode transfer api_token f.token c (unnamed res) s in
        let pushed = IsReport-pushed (run-IsReport w f h) p in
        let (m, a) = push_result-reply_of w (unnamed res) push.1 served pushed in
        let (x, (kept, got, named, filled)) =
          receive_push-answered store encode transfer api_token f.token c (unnamed res) s e keeping
            (t (unnamed res) m) (ap (λ i. (push.0, i)) a) in
        (x, (kept, got, named, of_unnamed filled))
