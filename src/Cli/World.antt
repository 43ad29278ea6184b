-- ===== src/Cli/World.antt =====
-- What `run` of cmd/go-speedtest-cli/main.go meets outside, what it asks of it, and how it ends.
use go_speedtest.Prelude.{
  ℕ, ◌/◌, ◌%◌, ◌^◌, Bool, false, not, Option, none, some, List, [], ◌∷◌, String, ◌==◌,
}
use go_speedtest.Prelude.Int.{ℤ, pos, ◌+ℤ◌}
use go_speedtest.Measure.{Result}
use go_speedtest.Cli.{ServerInfo, Options}
use go_speedtest.Cli.Flags.{RunError}
use go_speedtest.Cli.Ping.{Network}
use go_speedtest.Cli.Stream.{DownloadEvent, UploadEvent}
use go_speedtest.Cli.Phase.{Moment}

-- What comes back from a control request: no response, or its status and what its body decodes to.
pub data Reply (A : Type 0) : Type 0 where
  unreachable : Reply A
  answered : (status : ℕ) → Option A → Reply A

-- The times of a phase and what happens to its streams.
pub record Schedule (O : Type 0) : Type 0 where
  pub started : ℕ
  pub stopped : ℕ
  pub moments : List (Moment O)

-- `parse`, `scheme` and `host` are those of net/url, `rfc3339` the format of package time, `marshals`
-- whether encoding/json accepts a result, and `stderr_mode` the
-- mode that `os.Stderr.Stat` returns, none for an error.
pub record World (U F : Type 0) : Type 0 where
  pub parse : String → Option U
  pub scheme : U → String
  pub host : U → String
  pub rfc3339 : ℕ → String
  pub marshals : Result F → Bool
  pub stderr_mode : Option ℕ
  pub now : ℕ
  pub info : Reply (ServerInfo F)
  pub network : Network
  pub download : Schedule DownloadEvent
  pub upload : Schedule UploadEvent
  pub pushed : Reply String

-- `isTerminal`: the bit of a mode that is `os.ModeCharDevice`
unfoldable pub is_terminal : Option ℕ → Bool
is_terminal none = false
is_terminal (some mode) = not (mode / 2 ^ 21 % 2 == 0)

-- `newHTTPClient`, up to the settings that are fixed.
pub record HttpClient : Type 0 where
  pub max_idle_conns : ℤ
  pub max_idle_conns_per_host : ℤ
  pub max_conns_per_host : ℤ

unfoldable pub new_http_client : (streams : ℤ) → HttpClient
new_http_client streams =
    let conns : ℤ = streams +ℤ pos 2 in
    record { max_idle_conns = conns; max_idle_conns_per_host = conns; max_conns_per_host = conns }

-- What the program asks of the network, in order.
pub data Call : Type 0 where
  asks_info : Call
  pings downloads uploads : HttpClient → Call
  pushes : HttpClient → (headers : List (String × String)) → Call

-- How a run ends: with an error, with the options and the result that it prints, or not, as long as
-- a stream of a phase has not returned.
pub data Ending (U F : Type 0) : Type 0 where
  stops : RunError → Ending U F
  waits : Ending U F
  prints : Options U F → Result F → Ending U F

pub record Run (U F : Type 0) : Type 0 where
  pub calls : List Call
  pub ending : Ending U F

module _ {U F : Type 0} where
  abbrev pub ends : Ending U F → Run U F
  ends e = record { calls = []; ending = e }

  abbrev pub calling : Call → Run U F → Run U F
  calling c r = record { calls = c ∷ r.calls; ending = r.ending }
