-- ===== src/Handlers/Gate/Served.antt =====
-- The counter of bytes served across `testMW` of internal/handlers/handlers.go.
use go_speedtest.Prelude.{
  ℕ, ◌≡◌, refl, ◌∙◌, ◌≢◌, ◌⊎◌, inl, inr, false, Option, none, some, String, str_eq, Comparable,
}
use go_speedtest.Prelude.Int.{ℤ, pos}
use go_speedtest.Prelude.Double.{Double}
use go_speedtest.Metrics.{Registry, inc, add_gauge, bytes_served}
use go_speedtest.Metrics.Series.{value-add}
use go_speedtest.RateLimit.{Ticket, refused, free, held, acquire_any}
use go_speedtest.Handlers.Download.Bytes.{served}
use go_speedtest.Handlers.Gate.{
  World, Ending, returned, panicked, deferred, conclude, begin, admitted, test_mw,
}

served-inc :
    (m : Registry) (name : String)
    → str_eq name bytes_served ≡ false
    → served (inc m name) ≡ served m
unfolding inc
served-inc m name h = value-add m name bytes_served (pos 1) ∙ rw h refl

served-add_gauge :
    (m : Registry) (name : String) (delta : ℤ) → served (add_gauge m name delta) ≡ served m
unfolding add_gauge
served-add_gauge m name delta = refl

module _ {IP F : Type 0} ⦃c : Comparable IP⦄ ⦃d : Double F⦄ where
  pub served-begin :
      (started : String) (w : World IP F)
      → str_eq started bytes_served ≡ false
      → served (begin started w).metrics ≡ served w.metrics
  unfolding begin
  served-begin started w h = served-add_gauge _ _ _ ∙ served-inc w.metrics started h

  served-conclude :
      (completed : String) (t : Ticket) (w : World IP F) (e : Ending)
      → str_eq completed bytes_served ≡ false
      → served (conclude completed t (w, e)).metrics ≡ served w.metrics
  unfolding conclude deferred
  served-conclude completed t w returned h =
      served-add_gauge _ _ _ ∙ served-inc w.metrics completed h
  served-conclude completed t w panicked h = served-add_gauge _ _ _

  module _ (started completed : String) (next : World IP F → World IP F × Ending) where
    -- A test is refused with 429 and nothing else, or its handler has run, and the bytes that are
    -- counted afterwards are those of the handler.
    abbrev pub Passes : Ticket → World IP F → World IP F × Option ℕ → Type 0
    Passes t w r =
        ((t ≡ refused) × (r.1 ≡ some 429) × (served r.0.metrics ≡ served w.metrics))
        ⊎ ((t ≢ refused)
            × (r.1 ≡ none)
            × (served r.0.metrics ≡ served (next (begin started w)).0.metrics))

    admitted-Passes :
        (t : Ticket) (w : World IP F)
        → str_eq completed bytes_served ≡ false
        → Passes t w (admitted started completed next t w)
    unfolding admitted
    admitted-Passes refused w h = inl (refl, refl, refl)
    admitted-Passes free w h =
        let (w', e) = next (begin started w) in
        inr ((λ x. cc), refl, served-conclude completed free w' e h)
    admitted-Passes (held n) w h =
        let (w', e) = next (begin started w) in
        inr ((λ x. cc), refl, served-conclude completed (held n) w' e h)

    pub test_mw-Passes :
        (w : World IP F) (now : ℕ) (ip : IP)
        → str_eq completed bytes_served ≡ false
        → Passes
            (acquire_any w.limiter now ip).1
            (record w { limiter = (acquire_any w.limiter now ip).0 })
            (test_mw started completed next w now ip)
    unfolding test_mw
    test_mw-Passes w now ip h = admitted-Passes (acquire_any w.limiter now ip).1 _ h
