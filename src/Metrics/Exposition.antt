-- ===== src/Metrics/Exposition.antt =====
-- The text exposition of internal/metrics/metrics.go: `expose`, up to the layout of its lines. The
-- iteration over a map takes its pairs in the order of the list that stands for it; `sort.Strings`
-- and `sort.Slice` are insertion sorts, since the keys that they sort by are distinct.
pub mod Sorted
pub mod Steady
use text.Mathlib.Text.{find?, get?}
use go_speedtest.Prelude.{
  ℕ, ◌≡◌, refl, Bool, true, false, Option, none, some, List, [], ◌∷◌, ◌++◌, String, str_eq,
  if◌then◌else◌, map,
}
use go_speedtest.Prelude.Int.{ℤ}
use go_speedtest.Metrics.{
  Cells, Registry, tests_started, tests_completed, bytes_served, bytes_received, active_streams,
}
use go_speedtest.Metrics.Order.{before}

-- the loop of a sort by the first components
unfoldable pub insert : {A : Type 0} → String × A → List (String × A) → List (String × A)
insert x [] = x ∷ []
insert x (y ∷ ys) = let rest = insert x ys in if before y.0 x.0 then y ∷ rest else x ∷ y ∷ ys

-- `family`
pub record Family : Type 0 where
  pub kind : String
  pub samples : Cells

-- `fams`, a map
abbrev pub Families : Type 0
Families = List (String × Family)

abbrev pub or_whole : String → Option String → String
or_whole name none = name
or_whole name (some s) = s

-- `fam[:i]` where the name has a brace at i, or else the name
unfoldable pub family_of : String → String
family_of name = elim (find? name "{") [ none ↦ name | some i ↦ or_whole name (get? name 0 i) ]

abbrev pub append_sample : Family → String × ℤ → Family
append_sample f s = record f { samples = f.samples ++ s ∷ [] }

-- The body of the loop of `collect`, for a sample of the family `fam`.
unfoldable pub at_family : (kind fam : String) → String × ℤ → Families → Families
at_family kind fam s [] = (fam, append_sample (record { kind = kind; samples = [] }) s) ∷ []
at_family kind fam s (f ∷ fams) =
    let rest = at_family kind fam s fams in
    if str_eq f.0 fam then (f.0, append_sample f.1 s) ∷ fams else f ∷ rest

-- `collect`
unfoldable pub collect : (kind : String) → Cells → Families → Families
collect kind [] fams = fams
collect kind (s ∷ cells) fams = collect kind cells (at_family kind (family_of s.0) s fams)

-- The samples that come in one after another, sorted.
unfoldable pub sort_onto : Cells → Cells → Cells
sort_onto done [] = done
sort_onto done (s ∷ samples) = sort_onto (insert s done) samples

abbrev pub sort_samples : Family → Family
sort_samples f = record f { samples = sort_onto [] f.samples }

-- The families sorted by their names, each with its samples sorted.
unfoldable pub sort_families : Families → Families
sort_families [] = []
sort_families (f ∷ fams) = insert (f.0, sort_samples f.1) (sort_families fams)

-- `helpText`
unfoldable pub help_text : String → Option String
help_text name =
    if str_eq name tests_started
    then some "Payload requests started, by type."
    else if str_eq name tests_completed
    then some "Payload requests completed, by type."
    else if str_eq name bytes_served
    then some "Total payload bytes served to clients."
    else if str_eq name bytes_received
    then some "Total payload bytes received from clients."
    else if str_eq name active_streams
    then some "Currently active payload streams."
    else none

pub data Line : Type 0 where
  help : (name text : String) → Line
  type_of : (name kind : String) → Line
  sample : String → ℤ → Line

abbrev pub help_line : String → Option String → List Line
help_line name none = []
help_line name (some text) = help name text ∷ []

-- the lines of one family
unfoldable pub family_lines : String × Family → List Line
unfolding help_text
family_lines f =
    help_line f.0 (help_text f.0) ++ type_of f.0 f.1.kind ∷ map (λ s. sample s.0 s.1) f.1.samples

unfoldable pub all_lines : Families → List Line
unfolding family_lines
all_lines [] = []
all_lines (f ∷ fams) = family_lines f ++ all_lines fams

-- `expose`
unfoldable pub expose : Registry → List Line
unfolding collect sort_families all_lines
expose r = all_lines (sort_families (collect "gauge" r.gauges (collect "counter" r.counters [])))

-- `Registry.Handler`: the headers and the body
unfoldable pub handle_metrics : Registry → List (String × String) × List Line
unfolding expose
handle_metrics r = (("Content-Type", "text/plain; version=0.0.4; charset=utf-8") ∷ [], expose r)
