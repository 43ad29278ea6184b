-- ===== src/System.antt =====
-- The command-line client (cmd/go-speedtest-cli/main.go) against the server's handlers
-- (internal/handlers/handlers.go): what one sends is what the other reads.
pub mod Downloading
pub mod Receiving
pub mod Pushing
pub mod Sharing
pub mod Uploading
mod Tests
use Prim.Native.String.{◌++◌ as concat}
use go_speedtest.Prelude.{
  ℕ, ◌≡◌, Bool, Option, none, some, List, [], ◌∷◌, ◌++◌, String, str_eq, if◌then◌else◌,
}
use go_speedtest.Prelude.Double.{Double}
use go_speedtest.ClientIp.{Bytes}
use go_speedtest.Measure.{Result}
use go_speedtest.Telemetry.{Store}
use go_speedtest.Handlers.Auth.{bearer, authorized}
use go_speedtest.Handlers.Results.{
  Context, Answer, answered, unauthorized, bad_request, not_found, internal, status_of, ingest,
}
use go_speedtest.Cli.World as client
use go_speedtest.Cli.World.{Reply}
use go_speedtest.Cli.Run.{push_headers}

-- `r.Header.Get`: the first value of a header, or the empty text.
unfoldable pub get_header : String → List (String × String) → String
get_header key [] = ""
get_header key ((k, v) ∷ hs) = if str_eq k key then v else get_header key hs

-- The bytes of a text: what a Go string is, and the client's header on the wire.
pub record IsEncoding (encode : String → Bytes) : Type 0 where
  pub empty : encode "" ≡ []
  pub after_bearer : (s : String) → encode (concat "Bearer " s) ≡ bearer ++ encode s
  pub injective : (s t : String) → encode s ≡ encode t → s ≡ t

-- The response of `handleResultsIngest` as the client reads it; an error's text is no JSON.
abbrev pub id_of : Answer String → Option String
id_of (answered id) = some id
id_of a = none

abbrev pub reply_of : Answer String → Reply String
reply_of a = client.answered (status_of a) (id_of a)

module _ {S F : Type 0} ⦃d : Double F⦄ (store : Store S F) (encode : String → Bytes)
    (transfer : Result F → Option (Result F)) where
  -- `handleResultsIngest` on the request of `pushResult`: `api_token` is the server's, `token` the
  -- client's, and `transfer r` what the server reads of the body that the client writes for `r`.
  unfoldable pub receive_push :
      (api_token token : String) → Context → Result F → S → S × Answer String
  receive_push api_token token c r s =
      let header : Bytes = encode (get_header "Authorization" (push_headers token)) in
      ingest store (authorized (encode api_token) header) c (transfer r) s
