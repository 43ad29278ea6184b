-- ===== src/Server/Program/Running.antt =====
-- What stands at each step of `run` of cmd/go-speedtest/main.go, when it serves and how it ends.
use go_speedtest.Prelude.{
  ℕ, ◌≡◌, refl, sym, ap, ◌∙◌, ◌⊎◌, inl, inr, Bool, true, false, Option, none, some, List, [], ◌∷◌,
  ◌++◌, Bool-cases, arith, ◌≢◌, ◌↔◌,
}
use go_speedtest.Config.{Config}
use go_speedtest.Server.{Backend, new_store, warns_unguarded, Payload, init}
use go_speedtest.Handlers.Probes.{handle_readyz}
use go_speedtest.Server.Program.{
  First, server_closed, serve_fails, signalled, World, Step, logging_set_up, unguarded_warned,
  payload_filled, store_opened, listening, shutdown, forced_close, store_closed, RunError,
  load_failed, payload_failed, unknown_backend, open_failed, Outcome, no_payload, ended, stopped,
  storing, paid, configured, run,
}

-- What stands at a point of a run.
pub record Standing : Type 0 where
  pub logs : Bool
  pub payload : Bool
  pub store : Option Backend
  pub listens : Bool

abbrev pub at_start : Standing
at_start = record { logs = false; payload = false; store = none; listens = false }

-- Each step finds what it needs, and no store is left open at the end.
unfoldable pub IsOrderly : Standing → List Step → Type 0
IsOrderly s [] = s.store ≡ none
IsOrderly s (logging_set_up ∷ ss) = IsOrderly (record s { logs = true }) ss
IsOrderly s (unguarded_warned ∷ ss) = (s.logs ≡ true) × (s.listens ≡ false) × IsOrderly s ss
IsOrderly s (payload_filled ∷ ss) = (s.listens ≡ false) × IsOrderly (record s { payload = true }) ss
IsOrderly s (store_opened b ∷ ss) = (s.store ≡ none) × IsOrderly (record s { store = some b }) ss
IsOrderly s (listening ∷ ss) =
    (s.logs ≡ true)
    × (s.payload ≡ true)
    × ((b : Backend) × (s.store ≡ some b))
    × IsOrderly (record s { listens = true }) ss
IsOrderly s (shutdown ∷ ss) = (s.listens ≡ true) × IsOrderly s ss
IsOrderly s (forced_close ∷ ss) = (s.listens ≡ true) × IsOrderly s ss
IsOrderly s (store_closed ∷ ss) =
    ((b : Backend) × (s.store ≡ some b)) × IsOrderly (record s { store = none }) ss

-- The server listens at some point, with the store of a backend.
unfoldable pub Serves : Backend → List Step → Type 0
Serves b [] = ⊥
Serves b (store_opened a ∷ listening ∷ ss) = a ≡ b
Serves b (s ∷ ss) = Serves b ss

some_injective : {A : Type 0} {x y : A} → some x ≡ some y → x ≡ y
some_injective h = cc

module _ {F : Type 0} (w : World F) where
  -- All that the program needs is there: a configuration that loads, random bytes for the payload, and
  -- the backend that the configuration names, which can be opened.
  abbrev pub IsServable : Backend → Type 0
  IsServable b =
      (cfg : Config F) × (buf : List ℕ) × (w.config ≡ some cfg)
      × (w.random ≡ some buf)
      × (new_store cfg ≡ some b)
      × (w.opens b ≡ true)

  -- The server ends by itself, without an error, or on a signal, and drains.
  abbrev pub EndsWell : Type 0
  EndsWell = (w.first ≡ server_closed) ⊎ ((w.first ≡ signalled) × (w.drains ≡ true))

  abbrev pub IsRun : Standing → Outcome → Type 0
  IsRun s o =
      IsOrderly s o.steps
      × (((b : Backend) × IsServable b
            × Serves b o.steps
            × ((o.error ≡ none) ↔ EndsWell)
            × ((handle_readyz o.payload.buf).status ≡ 200))
          ⊎ (((b : Backend) → ¬ IsServable b)
              × ((b : Backend) → ¬ Serves b o.steps)
              × (o.error ≢ none)))

  EndsWell-ended :
      (first : First) (drains : Bool)
      → w.first ≡ first
      → w.drains ≡ drains
      → ((ended first drains).1 ≡ none) ↔ EndsWell
  EndsWell-ended server_closed drains e f = (λ _. inl e, λ _. refl)
  EndsWell-ended serve_fails drains e f = ground arith
  EndsWell-ended signalled true e f = (λ _. inr (e, f), λ _. refl)
  EndsWell-ended signalled false e f = ground arith

  serving_lem :
      (s : Standing) (b : Backend) (first : First) (drains : Bool)
      → s.logs ≡ true
      → s.payload ≡ true
      → s.store ≡ none
      → IsOrderly s (store_opened b ∷ listening ∷ (ended first drains).0 ++ store_closed ∷ [])
  unfolding IsOrderly
  serving_lem s b server_closed drains l p n = (n, (l, p, (b, refl), ((b, refl), refl)))
  serving_lem s b serve_fails drains l p n = (n, (l, p, (b, refl), ((b, refl), refl)))
  serving_lem s b signalled true l p n = (n, (l, p, (b, refl), (refl, ((b, refl), refl))))
  serving_lem s b signalled false l p n = (n, (l, p, (b, refl), (refl, (refl, ((b, refl), refl)))))

  IsServable-backend :
      (cfg : Config F) (b : Backend)
      → w.config ≡ some cfg
      → IsServable b
      → (new_store cfg ≡ some b) × (w.opens b ≡ true)
  IsServable-backend cfg b c (cfg', buf, c', r, h, x) =
      (ap new_store (some_injective (sym c ∙ c')) ∙ h, x)

  -- A run that stops before it serves.
  stopped-IsRun :
      (s : Standing) (p : Payload) (e : RunError)
      → s.store ≡ none
      → ((b : Backend) → ¬ IsServable b)
      → IsRun s (stopped w p e)
  unfolding IsOrderly Serves
  stopped-IsRun s p e n h = (n, inr (h, (λ b x. x), (λ x. cc)))

  storing-IsRun :
      (s : Standing) (cfg : Config F) (p : Payload) {buf : List ℕ} (o : Option Backend)
      → s.logs ≡ true
      → s.payload ≡ true
      → s.store ≡ none
      → w.config ≡ some cfg
      → w.random ≡ some buf
      → new_store cfg ≡ o
      → (handle_readyz p.buf).status ≡ 200
      → IsRun s (storing w p o)
  unfolding Serves
  storing-IsRun s cfg p none l f n c r h k =
      stopped-IsRun s p unknown_backend n (λ b v. let (h', x) = IsServable-backend cfg b c v in cc)
  storing-IsRun s cfg p {buf} (some b) l f n c r h k = elim (Bool-cases (w.opens b)) [
    | inl x ↦ simp x (
        (
          serving_lem s b w.first w.drains l f n,
          inl (b, (cfg, buf, c, r, h, x), refl, EndsWell-ended w.first w.drains refl refl, k),
        ))
    | inr x ↦ simp x (
        stopped-IsRun s p open_failed n (λ b' v.
          let (h', x') = IsServable-backend cfg b' c v in
          let same : b ≡ b' = some_injective (sym h ∙ h') in
          let opens : w.opens b ≡ true = rw same x' in cc))
  ]

  -- From the payload on, and from the start of `run` on.
  paid-IsRun :
      (s : Standing) (cfg : Config F) (random : Option (List ℕ))
      → s.logs ≡ true
      → s.store ≡ none
      → s.listens ≡ false
      → w.config ≡ some cfg
      → w.random ≡ random
      → IsRun s (paid w cfg (init random no_payload))
  unfolding init handle_readyz IsOrderly Serves
  paid-IsRun s cfg none l n q c r =
      stopped-IsRun s (init none no_payload).0 payload_failed n
        (λ b (cfg', buf', c', r', h', x). cc)
  paid-IsRun s cfg (some buf) l n q c r =
      let p : Payload = record { buf = some buf; failed = false; done = true } in
      let (o, x) =
        storing-IsRun (record s { payload = true }) cfg p (new_store cfg) l refl n c r refl refl in
      ((q, o), x)

  configured-IsRun : (o : Option (Config F)) → w.config ≡ o → IsRun at_start (configured w o)
  unfolding IsOrderly Serves
  configured-IsRun none c =
      stopped-IsRun at_start no_payload load_failed refl (λ b (cfg', buf', c', r', h', x). cc)
  configured-IsRun (some cfg) c =
      let (o, x) =
        paid-IsRun (record at_start { logs = true }) cfg w.random refl refl refl c refl in
      elim (Bool-cases (warns_unguarded cfg)) [
        | inl e ↦ rw e ((refl, refl, o), x)
        | inr e ↦ rw e (o, x)
      ]

  pub run_lem :
      IsOrderly at_start (run w).steps
      × (((b : Backend) × IsServable b
            × Serves b (run w).steps
            × (((run w).error ≡ none) ↔ EndsWell)
            × ((handle_readyz (run w).payload.buf).status ≡ 200))
          ⊎ (((b : Backend) → ¬ IsServable b)
              × ((b : Backend) → ¬ Serves b (run w).steps)
              × ((run w).error ≢ none)))
  unfolding run
  run_lem = configured-IsRun w.config refl
