-- ===== src/Server/Program.antt =====
-- `run` of cmd/go-speedtest/main.go: what it sets up, in its order, how it ends, and what it gives
-- back.
pub mod Running
use go_speedtest.Prelude.{
  ℕ, ◌≡◌, refl, sym, ap, ◌∙◌, ◌⊎◌, inl, inr, Bool, true, false, Option, none, some, List, [], ◌∷◌,
  ◌++◌, if◌then◌else◌, Bool-cases, arith, ◌≢◌, ◌↔◌,
}
use go_speedtest.Config.{Config}
use go_speedtest.Server.{Backend, new_store, warns_unguarded, Payload, init}
use go_speedtest.Handlers.Probes.{handle_readyz}

-- What comes first: `ListenAndServe` returns, with `http.ErrServerClosed` or another error, or the
-- context of the signals is done.
pub data First : Type 0 where
  server_closed serve_fails signalled : First

-- What stands outside: the result of `config.Load`, the random source, whether a backend can be
-- opened, what ends the server and whether `Shutdown` succeeds.
pub record World (F : Type 0) : Type 0 where
  pub config : Option (Config F)
  pub random : Option (List ℕ)
  pub opens : Backend → Bool
  pub first : First
  pub drains : Bool

pub data Step : Type 0 where
  logging_set_up unguarded_warned payload_filled : Step
  store_opened : Backend → Step
  listening shutdown forced_close store_closed : Step

pub data RunError : Type 0 where
  load_failed payload_failed unknown_backend open_failed serve_failed shutdown_failed : RunError

pub record Outcome : Type 0 where
  pub steps : List Step
  pub payload : Payload
  pub error : Option RunError

-- the package payload before `Init`
abbrev pub no_payload : Payload
no_payload = record { buf = none; failed = false; done = false }

-- the `select` on what comes first, and its result
abbrev pub ended : First → (drains : Bool) → List Step × Option RunError
ended server_closed drains = ([], none)
ended serve_fails drains = ([], some serve_failed)
ended signalled true = (shutdown ∷ [], none)
ended signalled false = (shutdown ∷ forced_close ∷ [], some shutdown_failed)

-- what comes before
abbrev pub following : List Step → Outcome → Outcome
following steps o = record o { steps = steps ++ o.steps }

-- `setupLogging` and `warnIfUnguarded`
abbrev pub prepared : {F : Type 0} → Config F → List Step
prepared cfg = logging_set_up ∷ (if warns_unguarded cfg then unguarded_warned ∷ [] else [])

module _ {F : Type 0} (w : World F) where
  -- from the open store on; the deferred `Close` comes last.
  abbrev pub serving : Payload → Backend → Outcome
  serving p b =
      let (steps, error) = ended w.first w.drains in
      record {
        steps = store_opened b ∷ listening ∷ steps ++ store_closed ∷ [];
        payload = p;
        error = error;
      }

  abbrev pub stopped : Payload → RunError → Outcome
  stopped p e = record { steps = []; payload = p; error = some e }

  abbrev pub storing : Payload → Option Backend → Outcome
  storing p none = stopped p unknown_backend
  storing p (some b) = if w.opens b then serving p b else stopped p open_failed

  -- from the result of `payload.Init` on
  abbrev pub paid : Config F → Payload × Bool → Outcome
  paid cfg (p, true) = stopped p payload_failed
  paid cfg (p, false) = following (payload_filled ∷ []) (storing p (new_store cfg))

  abbrev pub configured : Option (Config F) → Outcome
  configured none = stopped no_payload load_failed
  configured (some cfg) = following (prepared cfg) (paid cfg (init w.random no_payload))

  -- `run`
  unfoldable pub run : Outcome
  run = configured w.config
