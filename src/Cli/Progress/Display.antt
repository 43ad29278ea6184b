-- ===== src/Cli/Progress/Display.antt =====
-- What `startProgress` of cmd/go-speedtest-cli/main.go prints, and how its stop function ends.
use go_speedtest.Prelude.{
  ℕ, ◌-◌, ◌*◌, ◌/◌, ◌^◌, ◌≤◌, ◌<◌, ◌≡◌, refl, ◌≢◌, List, [], ◌∷◌, ◌++◌, arith,
}
use go_speedtest.Prelude.Int.{ℤ, pos, ◌≤ℤ◌, int64-pos, quot, scale, min_ℤ}
use go_speedtest.Prelude.Instant.{sub_time-pos}
use go_speedtest.Cli.Progress.{
  Printer, selecting, informed, gone, Caller, measuring, sending, awaiting, finished, Event, ticks,
  stops, meets, wakes, closes, Line, partial, full, percent, step_progress, run_progress,
}

min_ℤ-le_right : (a b : ℤ) → min_ℤ a b ≤ℤ b
unfolding min_ℤ
min_ℤ-le_right a b = ground arith

percent-le : (start total now : ℕ) → percent start total now ≤ℤ pos 99
unfolding percent
percent-le start total now = min_ℤ-le_right _ (pos 99)

scale-pos : (n k : ℕ) → scale (pos n) k ≡ pos (n * k)
unfolding scale
scale-pos n k = ground arith

-- Within 2 ^ 63 / 100 nanoseconds of the start, which are two and a half years, the percentage is that
-- of the time that has passed, up to 99.
percent_lem :
    (start total now : ℕ)
    → start ≤ now
    → (now - start) * 100 < 2 ^ 63
    → percent start total now ≡ min_ℤ (pos ((now - start) * 100 / total)) (pos 99)
unfolding percent quot
percent_lem start total now h k =
    let n = now - start in
    rw (sub_time-pos now start h (omega arith), scale-pos n 100, int64-pos (n * 100) k) refl

-- Where the goroutine and its caller can stand together: the goroutine hears of the stop only from the
-- caller, and the caller is behind its call only when the goroutine has returned.
pub data Together : Printer → Caller → Type 0 where
  unasked : Together selecting measuring
  asked : Together selecting sending
  told : Together informed awaiting
  closed : Together gone awaiting
  over : Together gone finished

Together-finished : {p : Printer} {c : Caller} → Together p c → c ≡ finished → p ≡ gone
Together-finished unasked e = cc
Together-finished asked e = cc
Together-finished told e = cc
Together-finished closed e = refl
Together-finished over e = refl

module _ {F : Type 0} where
  -- Lines below 100%.
  abbrev pub ArePartial : List (Line F) → Type 0
  ArePartial [] = Unit
  ArePartial (partial p m ∷ ls) = (p ≤ℤ pos 99) × ArePartial ls
  ArePartial (full m ∷ ls) = ⊥

  -- What a goroutine prints from its `select` on until it stands at p: lines below 100%, and once it
  -- has returned one full line after them.
  abbrev pub Shown : Printer → List (Line F) → Type 0
  Shown gone ls = (ps : List (Line F)) × (m : F) × (ls ≡ ps ++ full m ∷ []) × ArePartial ps
  Shown p ls = ArePartial ls

  -- The same once it is past `<-done`: at most the full line.
  abbrev Ending : Printer → List (Line F) → Type 0
  Ending gone ls = (m : F) × (ls ≡ full m ∷ [])
  Ending informed ls = ls ≡ []
  Ending selecting ls = ⊥

  Shown-of_Ending : (p : Printer) (ls : List (Line F)) → Ending p ls → Shown p ls
  Shown-of_Ending gone ls (m, e) = ([], m, e, tt)
  Shown-of_Ending informed ls e = rw e tt
  Shown-of_Ending selecting ls h = absurd h

  Shown-partial :
      (p : Printer) (n : ℤ) (m : F) (ls : List (Line F))
      → n ≤ℤ pos 99
      → Shown p ls
      → Shown p (partial n m ∷ ls)
  Shown-partial selecting n m ls h s = (h, s)
  Shown-partial informed n m ls h s = (h, s)
  Shown-partial gone n m ls h (ps, l, e, a) = (partial n m ∷ ps, l, rw e refl, (h, a))

  -- The events that are left to the two, once the stop function is called.
  abbrev pub endgame : F → List (Event F)
  endgame m = meets ∷ closes m ∷ wakes ∷ []

module _ {F : Type 0} (start total : ℕ) where
  abbrev run : Printer → Caller → List (Event F) → (Printer × Caller) × List (Line F)
  run p c es = run_progress start total p c es

  step_progress-Together :
      {p : Printer} {c : Caller} (e : Event F)
      → Together p c
      → let s = step_progress start total p c e in Together s.0.0 s.0.1
  unfolding step_progress
  step_progress-Together (ticks n m) unasked = unasked
  step_progress-Together (ticks n m) asked = asked
  step_progress-Together stops unasked = asked
  step_progress-Together meets asked = told
  step_progress-Together (closes m) told = closed
  step_progress-Together wakes closed = over
  step_progress-Together stops asked = asked
  step_progress-Together e h = h

  run_progress-Together :
      (p : Printer) (c : Caller) (es : List (Event F))
      → Together p c
      → Together (run p c es).0.0 (run p c es).0.1
  unfolding run_progress
  run_progress-Together p c [] h = h
  run_progress-Together p c (e ∷ es) h =
      let s = step_progress start total p c e in
      run_progress-Together s.0.0 s.0.1 es (step_progress-Together e h)

  -- A goroutine that has returned prints nothing.
  run_progress-gone :
      (c : Caller) (es : List (Event F)) → ((run gone c es).0.0 ≡ gone) × ((run gone c es).1 ≡ [])
  unfolding run_progress step_progress
  run_progress-gone c [] = (refl, refl)
  run_progress-gone measuring (stops ∷ es) = run_progress-gone sending es
  run_progress-gone awaiting (wakes ∷ es) = run_progress-gone finished es
  run_progress-gone c (e ∷ es) = run_progress-gone c es

  run_progress-informed :
      (c : Caller) (es : List (Event F)) → Ending (run informed c es).0.0 (run informed c es).1
  unfolding run_progress step_progress
  run_progress-informed c [] = refl
  run_progress-informed measuring (stops ∷ es) = run_progress-informed sending es
  run_progress-informed measuring (closes m ∷ es) =
      let (p, l) = run_progress-gone measuring es in rw (p, l) (m, refl)
  run_progress-informed sending (closes m ∷ es) =
      let (p, l) = run_progress-gone sending es in rw (p, l) (m, refl)
  run_progress-informed awaiting (closes m ∷ es) =
      let (p, l) = run_progress-gone awaiting es in rw (p, l) (m, refl)
  run_progress-informed finished (closes m ∷ es) =
      let (p, l) = run_progress-gone finished es in rw (p, l) (m, refl)
  run_progress-informed c (e ∷ es) = run_progress-informed c es

  run_progress-selecting :
      (c : Caller) (es : List (Event F)) → Shown (run selecting c es).0.0 (run selecting c es).1
  unfolding run_progress step_progress
  run_progress-selecting c [] = tt
  run_progress-selecting c (ticks n m ∷ es) =
      Shown-partial _ _ m _ (percent-le start total n) (run_progress-selecting c es)
  run_progress-selecting measuring (stops ∷ es) = run_progress-selecting sending es
  run_progress-selecting sending (meets ∷ es) =
      Shown-of_Ending _ _ (run_progress-informed awaiting es)
  run_progress-selecting c (e ∷ es) = run_progress-selecting c es

  Together-endgame :
      {p : Printer} {c : Caller} (m : F)
      → Together p c
      → c ≢ measuring
      → (run p c (endgame m)).0.1 ≡ finished
  unfolding run_progress step_progress
  Together-endgame m unasked ne = absurd (ne refl)
  Together-endgame m asked ne = refl
  Together-endgame m told ne = refl
  Together-endgame m closed ne = refl
  Together-endgame m over ne = refl

  -- What the goroutine prints, whatever happens and in whatever order: lines below 100%, and once it
  -- has returned a full one after them, which is the last. When the call of the stop function has
  -- returned, the full line has been printed; and wherever the two stand after that call, the
  -- meeting, the full line and the end of the wait, as far as they are left, let it return.
  pub run_progress_lem :
      (es : List (Event F))
      → let r = run selecting measuring es in
        Shown r.0.0 r.1
        × (r.0.1 ≡ finished → r.0.0 ≡ gone)
        × ((m : F) → r.0.1 ≢ measuring → (run r.0.0 r.0.1 (endgame m)).0.1 ≡ finished)
  run_progress_lem es =
      let t = run_progress-Together selecting measuring es unasked in
      (run_progress-selecting measuring es, Together-finished t, λ m ne. Together-endgame m t ne)
