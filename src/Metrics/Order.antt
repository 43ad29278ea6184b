-- ===== src/Metrics/Order.antt =====
-- The order of Go's strings, by their bytes, and insertion into a list that is sorted by a key.
use Prim.Native.Nat.{compare as compare_ℕ, Ordering}
use Prim.Native.String.compare
use Prim.Native.String.{String as Text, [] as nil, ◌∷◌ as cons, compare, then as and_then}
use Prim.Native.Char.{Char, code}
use mathlib.Core.Path.{ap₂}
use text.Mathlib.Text.{is_lt}
use text.Mathlib.TextPositions.{compare_refl, compare_self}
use text.Mathlib.TextEquality.{codes_equal}
use go_speedtest.Prelude.{
  ◌≡◌, refl, sym, ap, ◌∙◌, ◌≢◌, ◌⊎◌, inl, inr, Bool, true, false, ◌&&◌, ◌||◌, String, ltb, ◌==◌,
  ==_iff, arith, Bool-cases,
}

abbrev pub before : String → String → Bool
before s t = is_lt (compare s t)

and_then-is_lt :
    (o p : Ordering)
    → is_lt (and_then o p) ≡ (is_lt o || ((elim o [ Ordering.eq ↦ true | _ ↦ false ]) && is_lt p))
and_then-is_lt Ordering.lt p = refl
and_then-is_lt Ordering.eq p = refl
and_then-is_lt Ordering.gt p = refl

before-cons :
    (c d : Char) (s t : Text)
    → before (cons c s) (cons d t) ≡ (ltb (code c) (code d) || (code c == code d && before s t))
before-cons c d s t =
    ap is_lt (compare.cons-cons c d s t)
    ∙ and_then-is_lt (compare_ℕ (code c) (code d)) (compare s t)

before-nil-cons : (d : Char) (t : Text) → before nil (cons d t) ≡ true
before-nil-cons d t = ap is_lt (compare.nil-cons d t)

before-cons-nil : (c : Char) (s : Text) → before (cons c s) nil ≡ false
before-cons-nil c s = ap is_lt (compare.cons-nil c s)

before-nil-nil : before nil nil ≡ false
before-nil-nil = ap is_lt compare.nil-nil

pub before_irrefl : (s : String) → before s s ≡ false
before_irrefl s = ap is_lt (compare_refl s)

pub before_trans : (s t u : String) → before s t ≡ true → before t u ≡ true → before s u ≡ true
before_trans nil nil u h k = k
before_trans nil (cons d t) nil h k = ground (arith, before-cons-nil d t)
before_trans nil (cons d t) (cons e u) h k = before-nil-cons e u
before_trans (cons c s) nil u h k = ground (arith, before-cons-nil c s)
before_trans (cons c s) (cons d t) nil h k = ground (arith, before-cons-nil d t)
before_trans (cons c s) (cons d t) (cons e u) h k =
    ground
      (arith, before-cons c d s t, before-cons d e t u, before-cons c e s u, before_trans s t u)

same_code : (c d : Char) → (code c == code d) ≡ true → c ≡ d
same_code c d h =
    let e : code c ≡ code d = (==_iff (code c) (code d)).0 h in
    codes_equal c d (ap (λ n. compare_ℕ (code c) n) (sym e) ∙ compare_self (code c))

pub before_total : (s t : String) → s ≢ t → before s t ≡ false → before t s ≡ true
before_total nil nil h k = absurd (h refl)
before_total nil (cons d t) h k = ground (arith, before-nil-cons d t)
before_total (cons c s) nil h k = before-nil-cons c s
before_total (cons c s) (cons d t) h k = elim (Bool-cases (code c == code d)) [
  | inl e ↦
      let p : c ≡ d = same_code c d e in
      let q : s ≢ t = λ r. h (ap₂ (λ x y. cons x y) p r) in
      ground (arith, before-cons c d s t, before-cons d c t s, before_total s t q)
  | inr e ↦ ground (arith, before-cons c d s t, before-cons d c t s)
]

-- Of two strings that differ exactly one comes first.
pub before_either :
    (s t : String)
    → s ≢ t
    → ((before s t ≡ true) × (before t s ≡ false)) ⊎ ((before t s ≡ true) × (before s t ≡ false))
before_either s t h = elim (Bool-cases (before s t)) [
  | inl e ↦ elim (Bool-cases (before t s)) [
    | inl f ↦ ground (arith, before_trans s t s e f, before_irrefl s)
    | inr f ↦ inl (e, f)
  ]
  | inr e ↦ inr (before_total s t h e, e)
]
