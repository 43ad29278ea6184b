-- ===== src/System/Receiving.antt =====
-- One download request of cmd/go-speedtest-cli/main.go as its meter sees it.
use go_speedtest.Prelude.{
  ℕ, ◌+◌, ◌<◌, ◌≡◌, refl, ◌⊎◌, inl, inr, false, List, [], ◌∷◌, arith, ltb, leb, Bool-cases,
}
use go_speedtest.Measure.Window.{total_bytes}
use go_speedtest.Handlers.Router.{answered}
use go_speedtest.Cli.Stream.{
  Stream, working, backing_off, returned, polls, goes, Event, Download, requesting, reading,
  ReadEnd, more, DownloadEvent, responds, reads, step_stream, download_once, download_adds,
}
use go_speedtest.Cli.Phase.{Moment}
use go_speedtest.Cli.Phase.Transfer.{transfers, fresh, moved_on}

abbrev at : ℕ → Event DownloadEvent → Moment DownloadEvent
at now event = record { stream = 0; now = now; event = event }

-- The reads of a body: when, and how many bytes, up to the one that ends it.
abbrev pub Read : Type 0
Read = ℕ × ℕ

unfoldable pub size_of : List Read → ℕ
size_of [] = 0
size_of ((now, n) ∷ rs) = n + size_of rs

unfoldable pub body : List Read → (last : Read) → ReadEnd → List (Moment DownloadEvent)
body [] (now, n) end = at now (goes (reads n end)) ∷ []
body ((now, n) ∷ rs) last end = at now (goes (reads n more)) ∷ body rs last end

-- A request of the stream 0, from its look at the context to the end of the body.
abbrev pub request :
    (asked answered : ℕ)
    → (status : ℕ) → List Read
    → (last : Read) → ReadEnd
    → List (Moment DownloadEvent)
request asked answered status rs last end =
    at asked polls ∷ at answered (goes (responds status)) ∷ body rs last end

module _ (deadline : ℕ) where
  abbrev pub taken : (ℕ → Stream Download) → List (Moment DownloadEvent) → ℕ
  taken streams ms =
      total_bytes (transfers requesting download_once download_adds deadline streams ms)

  abbrev moved : (ℕ → Stream Download) → Moment DownloadEvent → ℕ → Stream Download
  moved streams m = moved_on requesting download_once download_adds deadline streams m

  pub taken-body :
      (streams : ℕ → Stream Download) (rs : List Read) (last : Read) (end : ReadEnd)
      → streams 0 ≡ working reading
      → taken streams (body rs last end) ≡ size_of rs + last.1
  unfolding body size_of transfers total_bytes download_adds step_stream download_once
  taken-body streams [] (now, n) end h = elim (Bool-cases (ltb 0 n)) [
    | inl e ↦ rw (h, e) (omega arith)
    | inr e ↦ rw (h, e) (ground arith)
  ]
  taken-body streams ((now, n) ∷ rs) last end h =
      let streams' : ℕ → Stream Download = moved streams (at now (goes (reads n more))) in
      let ih : taken streams' (body rs last end) ≡ size_of rs + last.1 =
        taken-body streams' rs last end (rw h refl) in
      elim (Bool-cases (ltb 0 n)) [
        | inl e ↦ rw (h, e) (omega arith)
        | inr e ↦ rw (h, e) (ground arith)
      ]

  pub taken-request :
      (asked answered : ℕ) (rs : List Read) (last : Read) (end : ReadEnd)
      → asked < deadline
      → taken fresh (request asked answered 200 rs last end) ≡ size_of rs + last.1
  unfolding transfers total_bytes download_adds step_stream download_once
  taken-request asked answered rs last end h =
      let e : leb deadline asked ≡ false = ground arith in
      let sent : ℕ → Stream Download = moved fresh (at asked polls) in
      let streams : ℕ → Stream Download = moved sent (at answered (goes (responds 200))) in
      let ih : taken streams (body rs last end) ≡ size_of rs + last.1 =
        taken-body streams rs last end (rw e refl) in
      rw e ih

  -- A stream whose request has failed takes nothing more of it.
  taken-idle :
      (rs : List Read) (streams : ℕ → Stream Download) (last : Read) (end : ReadEnd)
      → (streams 0 ≡ backing_off) ⊎ (streams 0 ≡ returned)
      → taken streams (body rs last end) ≡ 0
  unfolding body transfers total_bytes download_adds step_stream
  taken-idle [] streams (now, n) end (inl h) = rw h refl
  taken-idle ((now, n) ∷ rs) streams last end (inl h) =
      let streams' : ℕ → Stream Download = moved streams (at now (goes (reads n more))) in
      let ih : taken streams' (body rs last end) ≡ 0 =
        taken-idle rs streams' last end (inl (rw h refl)) in
      rw h ih
  taken-idle [] streams (now, n) end (inr h) = rw h refl
  taken-idle ((now, n) ∷ rs) streams last end (inr h) =
      let streams' : ℕ → Stream Download = moved streams (at now (goes (reads n more))) in
      let ih : taken streams' (body rs last end) ≡ 0 =
        taken-idle rs streams' last end (inr (rw h refl)) in
      rw h ih

  pub taken-refused :
      (asked answered : ℕ) (rs : List Read) (last : Read) (end : ReadEnd)
      → asked < deadline
      → taken fresh (request asked answered 429 rs last end) ≡ 0
  unfolding transfers total_bytes download_adds step_stream download_once
  taken-refused asked answered rs last end h =
      let e : leb deadline asked ≡ false = ground arith in
      let sent : ℕ → Stream Download = moved fresh (at asked polls) in
      let streams : ℕ → Stream Download = moved sent (at answered (goes (responds 429))) in
      elim (Bool-cases (leb deadline answered)) [
        | inl f ↦
            let ih : taken streams (body rs last end) ≡ 0 =
              taken-idle rs streams last end (inr (rw (e, f) refl)) in
            rw e ih
        | inr f ↦
            let ih : taken streams (body rs last end) ≡ 0 =
              taken-idle rs streams last end (inl (rw (e, f) refl)) in
            rw e ih
      ]
