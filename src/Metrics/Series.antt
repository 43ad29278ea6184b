-- ===== src/Metrics/Series.antt =====
-- The cells of internal/metrics/metrics.go as a map from names to values.
use go_speedtest.Prelude.{
  ◌≡◌, refl, ap, ◌∙◌, List, [], ◌∷◌, String, str_eq, str_eq_iff, if◌then◌else◌, arith,
}
use go_speedtest.Prelude.Int.{ℤ, pos, ◌+ℤ◌, int64}
use go_speedtest.Metrics.{Cells, Registry, at_series, plus, add}

-- The value of a series, 0 if there is none.
unfoldable pub value : String → Cells → ℤ
value name [] = pos 0
value name ((n, v) ∷ cells) = if str_eq n name then v else value name cells

-- An operation on a series changes that one alone.
pub value-at_series :
    (f : ℤ → ℤ) (name other : String) (cells : Cells)
    → value other (at_series f name cells)
      ≡ (if str_eq name other then f (value name cells) else value other cells)
unfolding value at_series
value-at_series f name other [] = refl
value-at_series f name other ((n, v) ∷ cells) = ground (
  arith,
  str_eq_iff n name,
  str_eq_iff n other,
  str_eq_iff name other,
  value-at_series f name other cells,
)

pub value-add :
    (r : Registry) (name other : String) (delta : ℤ)
    → value other (add r name delta).counters ≡ (
        if str_eq name other
        then int64 (value other r.counters +ℤ delta)
        else value other r.counters)
unfolding add
value-add r name other delta =
    ground (arith, value-at_series (plus delta) name other r.counters, str_eq_iff name other)

-- Additions to counters, in any order of the names.
unfoldable pub add_all : Registry → List (String × ℤ) → Registry
add_all r [] = r
add_all r ((name, delta) ∷ adds) = add_all (add r name delta) adds

-- The sum of the additions to one series, as an `int64`.
pub total : String → ℤ → List (String × ℤ) → ℤ
total name v [] = v
total name v ((n, delta) ∷ adds) = total name (if str_eq n name then int64 (v +ℤ delta) else v) adds

-- A counter holds the sum of the additions to it, whatever was added to the others, and the gauges
-- are untouched.
pub add_all_lem :
    (r : Registry) (adds : List (String × ℤ)) (name : String)
    → let r' = add_all r adds in
      (value name r'.counters ≡ total name (value name r.counters) adds) × (r'.gauges ≡ r.gauges)
unfolding add_all total
add_all_lem r [] name = (refl, refl)
add_all_lem r ((n, delta) ∷ adds) name =
    let (v, g) = add_all_lem (add r n delta) adds name in
    (v ∙ ap (λ x. total name x adds) (value-add r n name delta), g ∙ unfold add in refl)
