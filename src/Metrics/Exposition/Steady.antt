-- ===== src/Metrics/Exposition/Steady.antt =====
-- The exposition of internal/metrics/metrics.go does not depend on the order in which Go iterates over
-- its maps.
use go_speedtest.Prelude.{◌≡◌, refl, sym, ap, ◌∙◌, ◌≢◌, [], ◌∷◌, String}
use go_speedtest.Prelude.Int.{ℤ}
use go_speedtest.Metrics.{Cells, Registry}
use go_speedtest.Metrics.Exposition.{
  Families, family_of, at_family, collect, sort_families, all_lines, expose,
}
use go_speedtest.Metrics.Exposition.Sorted.{put, put_comm, sort_families-at_family}

-- The pairs of one map in two orders: two neighbours, whose keys differ, may change places.
pub data IsReordered : Cells → Cells → Type 0 where
  same : {xs : Cells} → IsReordered xs xs
  next : {x : String × ℤ} {xs ys : Cells} → IsReordered xs ys → IsReordered (x ∷ xs) (x ∷ ys)
  swap : {x y : String × ℤ} {xs : Cells} → x.0 ≢ y.0 → IsReordered (x ∷ y ∷ xs) (y ∷ x ∷ xs)
  then_also : {xs ys zs : Cells} → IsReordered xs ys → IsReordered ys zs → IsReordered xs zs

-- All samples enter sorted families.
puts : (kind : String) → Cells → Families → Families
puts kind [] fams = fams
puts kind (s ∷ cells) fams = puts kind cells (put kind (family_of s.0) s fams)

sort_families-collect :
    (kind : String) (cells : Cells) (fams : Families)
    → sort_families (collect kind cells fams) ≡ puts kind cells (sort_families fams)
unfolding collect puts
sort_families-collect kind [] fams = refl
sort_families-collect kind (s ∷ cells) fams =
    sort_families-collect kind cells (at_family kind (family_of s.0) s fams)
    ∙ ap (puts kind cells) (sort_families-at_family kind (family_of s.0) s fams)

puts-IsReordered :
    (kind : String) {xs ys : Cells}
    → IsReordered xs ys
    → (fams : Families) → puts kind xs fams ≡ puts kind ys fams
unfolding puts
puts-IsReordered kind same fams = refl
puts-IsReordered kind (next {x = x} o) fams =
    puts-IsReordered kind o (put kind (family_of x.0) x fams)
puts-IsReordered kind (swap {x = x} {y = y} {xs = xs} h) fams =
    ap (puts kind xs) (put_comm kind (family_of y.0) (family_of x.0) y x fams (λ e. h (sym e)))
puts-IsReordered kind (then_also o o') fams =
    puts-IsReordered kind o fams ∙ puts-IsReordered kind o' fams

-- The exposition is the same text for every order in which the two maps are iterated over.
pub expose_steady :
    (r r' : Registry)
    → IsReordered r.counters r'.counters
    → IsReordered r.gauges r'.gauges
    → expose r ≡ expose r'
unfolding expose
expose_steady r r' c g = ap all_lines (
    sort_families-collect "gauge" r.gauges (collect "counter" r.counters [])
    ∙ ap (puts "gauge" r.gauges) (sort_families-collect "counter" r.counters [])
    ∙ puts-IsReordered "gauge" g (puts "counter" r.counters (sort_families []))
    ∙ ap (puts "gauge" r'.gauges) (puts-IsReordered "counter" c (sort_families []))
    ∙ sym (
        sort_families-collect "gauge" r'.gauges (collect "counter" r'.counters [])
        ∙ ap (puts "gauge" r'.gauges) (sort_families-collect "counter" r'.counters [])))
