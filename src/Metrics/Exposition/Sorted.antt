-- ===== src/Metrics/Exposition/Sorted.antt =====
-- Insertions into the sorted lists of `expose` of internal/metrics/metrics.go change places.
use go_speedtest.Prelude.{
  ◌≡◌, refl, sym, ap, subst, ◌∙◌, ◌≢◌, inl, inr, true, false, List, [], ◌∷◌, ◌++◌, String, str_eq,
  str_eq_iff, if◌then◌else◌, arith, Bool-cases,
}
use go_speedtest.Prelude.Int.{ℤ}
use go_speedtest.Metrics.{Cells}
use go_speedtest.Metrics.Order.{before, before_irrefl, before_trans, before_either, before_total}
use go_speedtest.Metrics.Exposition.{
  insert, Family, Families, at_family, sort_onto, sort_samples, sort_families,
}

insert_comm_before :
    {A : Type 0} (x y : String × A) (zs : List (String × A))
    → before x.0 y.0 ≡ true
    → before y.0 x.0 ≡ false
    → insert x (insert y zs) ≡ insert y (insert x zs)
unfolding insert
insert_comm_before x y [] p q = simp (p, q)
insert_comm_before x y (z ∷ zs) p q = elim (Bool-cases (before z.0 x.0)) [
  | inl e ↦ simp (e, before_trans z.0 x.0 y.0 e p, insert, insert_comm_before x y zs p q)
  | inr e ↦ elim (Bool-cases (before z.0 y.0)) [
    | inl f ↦ simp (e, f, p, insert)
    | inr f ↦ simp (e, f, p, q, insert)
  ]
]

-- Two insertions with different keys may change places.
insert_comm :
    {A : Type 0} (x y : String × A) (zs : List (String × A))
    → x.0 ≢ y.0
    → insert x (insert y zs) ≡ insert y (insert x zs)
insert_comm x y zs h = elim (before_either x.0 y.0 h) [
  | inl (p, q) ↦ insert_comm_before x y zs p q
  | inr (p, q) ↦ sym (insert_comm_before y x zs p q)
]

differ : (s t : String) → s ≢ t → str_eq s t ≡ false
differ s t h = ground (arith, str_eq_iff s t)

before-ne : (s t : String) → before s t ≡ true → s ≢ t
before-ne s t h e = cc (h, before_irrefl t, e)

abbrev insert_sample : Family → String × ℤ → Family
insert_sample f s = record f { samples = insert s f.samples }

abbrev first_of : (kind fam : String) → String × ℤ → String × Family
first_of kind fam s = (fam, record { kind = kind; samples = s ∷ [] })

-- A sample enters sorted families.
unfoldable pub put : (kind fam : String) → String × ℤ → Families → Families
put kind fam s [] = first_of kind fam s ∷ []
put kind fam s (g ∷ gs) =
    let rest = put kind fam s gs in
    if str_eq g.0 fam
    then (g.0, insert_sample g.1 s) ∷ gs
    else if before g.0 fam
    then g ∷ rest
    else first_of kind fam s ∷ g ∷ gs

sort_onto-append_one :
    (done samples : Cells) (s : String × ℤ)
    → sort_onto done (samples ++ s ∷ []) ≡ insert s (sort_onto done samples)
unfolding sort_onto
sort_onto-append_one done [] s = refl
sort_onto-append_one done (x ∷ samples) s = sort_onto-append_one (insert x done) samples s

put-insert_self :
    (kind fam : String) (s : String × ℤ) (g : Family) (fams : Families)
    → put kind fam s (insert (fam, g) fams) ≡ insert (fam, insert_sample g s) fams
unfolding put insert
put-insert_self kind fam s g [] = simp ((str_eq_iff fam fam).1 refl)
put-insert_self kind fam s g (m ∷ fams) = elim (Bool-cases (before m.0 fam)) [
  | inl e ↦
      simp (e, differ m.0 fam (before-ne m.0 fam e), put, insert, put-insert_self kind fam s g fams)
  | inr e ↦ simp (e, (str_eq_iff fam fam).1 refl, put, insert)
]

-- What is neither the family nor before it comes after it.
after_both : (s t : String) → str_eq s t ≡ false → before s t ≡ false → before t s ≡ true
after_both s t q r = before_total s t (λ e. cc (q, (str_eq_iff s t).1 e)) r

not_same : (m s t : String) → before m t ≡ false → before s t ≡ true → str_eq m s ≡ false
not_same m s t e p = differ m s (λ h. cc (e, p, h))

not_before : (m s t : String) → before m t ≡ false → before s t ≡ true → before m s ≡ false
not_before m s t e p = elim (Bool-cases (before m s)) [
  | inl r ↦ cc (e, before_trans m s t r p)
  | inr r ↦ r
]

put-insert :
    (kind fam : String) (s : String × ℤ) (f : String × Family) (fams : Families)
    → f.0 ≢ fam
    → put kind fam s (insert f fams) ≡ insert f (put kind fam s fams)
unfolding put insert
put-insert kind fam s f [] h = elim (before_either f.0 fam h) [
  | inl (p, q) ↦ simp (p, q, differ f.0 fam h)
  | inr (p, q) ↦ simp (p, q, differ f.0 fam h)
]
put-insert kind fam s f (m ∷ fams) h = elim (Bool-cases (before m.0 f.0)) [
  | inl e ↦ elim (Bool-cases (str_eq m.0 fam)) [
    | inl q ↦ simp (e, q, put, insert)
    | inr q ↦ elim (Bool-cases (before m.0 fam)) [
      | inl r ↦ simp (e, q, r, put, insert, put-insert kind fam s f fams h)
      | inr r ↦ simp (e, q, r, before_trans fam m.0 f.0 (after_both m.0 fam q r) e, put, insert)
    ]
  ]
  | inr e ↦ elim (before_either f.0 fam h) [
    | inl (p, p') ↦ elim (Bool-cases (str_eq m.0 fam)) [
      | inl q ↦ simp (e, p, q, differ f.0 fam h, put, insert)
      | inr q ↦ elim (Bool-cases (before m.0 fam)) [
        | inl r ↦ simp (e, p, q, r, differ f.0 fam h, put, insert)
        | inr r ↦ simp (e, p, p', q, r, differ f.0 fam h, put, insert)
      ]
    ]
    | inr (p, p') ↦ simp (
      e,
      p,
      p',
      differ f.0 fam h,
      not_same m.0 fam f.0 e p,
      not_before m.0 fam f.0 e p,
      put,
      insert,
    )
  ]
]

pub sort_families-at_family :
    (kind fam : String) (s : String × ℤ) (fams : Families)
    → sort_families (at_family kind fam s fams) ≡ put kind fam s (sort_families fams)
unfolding sort_families at_family put sort_onto insert
sort_families-at_family kind fam s [] = refl
sort_families-at_family kind fam s (f ∷ fams) = elim (Bool-cases (str_eq f.0 fam)) [
  | inl e ↦
      let same = (str_eq_iff f.0 fam).0 e in
      simp (e, sort_families, sort_onto-append_one [] f.1.samples s)
        (sym (
          ap (λ n. put kind n s (insert (f.0, sort_samples f.1) (sort_families fams))) (sym same)
          ∙ put-insert_self kind f.0 s (sort_samples f.1) (sort_families fams)))
  | inr e ↦
      simp (e, sort_families, sort_families-at_family kind fam s fams)
        (sym (
          put-insert kind fam s (f.0, sort_samples f.1) (sort_families fams)
            (λ h. cc (e, (str_eq_iff f.0 fam).1 h))))
]

insert_two : (s t : String × ℤ) → s.0 ≢ t.0 → insert s (t ∷ []) ≡ insert t (s ∷ [])
unfolding insert
insert_two s t h = insert_comm s t [] h

put_comm_same :
    (kind fam : String) (s t : String × ℤ) (fams : Families)
    → s.0 ≢ t.0
    → put kind fam s (put kind fam t fams) ≡ put kind fam t (put kind fam s fams)
unfolding put
put_comm_same kind fam s t [] h = simp ((str_eq_iff fam fam).1 refl, insert_two s t h)
put_comm_same kind fam s t (m ∷ fams) h = elim (Bool-cases (str_eq m.0 fam)) [
  | inl q ↦ simp (q, put, insert_comm s t m.1.samples h)
  | inr q ↦ elim (Bool-cases (before m.0 fam)) [
    | inl r ↦ simp (q, r, put, put_comm_same kind fam s t fams h)
    | inr r ↦ simp (q, r, (str_eq_iff fam fam).1 refl, put, insert_two s t h)
  ]
]

put_comm_before :
    (kind a b : String) (s t : String × ℤ) (fams : Families)
    → before a b ≡ true
    → before b a ≡ false
    → put kind a s (put kind b t fams) ≡ put kind b t (put kind a s fams)
unfolding put
put_comm_before kind a b s t [] p q =
    simp (p, q, differ a b (before-ne a b p), differ b a (λ e. before-ne a b p (sym e)))
put_comm_before kind a b s t (m ∷ fams) p q =
    let ab = differ a b (before-ne a b p) in
    let ba = differ b a (λ e. before-ne a b p (sym e)) in
    elim (Bool-cases (str_eq m.0 a)) [
      | inl e ↦
          let n : before m.0 b ≡ true = cc (p, (str_eq_iff m.0 a).0 e) in
          simp (e, n, differ m.0 b (before-ne m.0 b n), put)
      | inr e ↦ elim (Bool-cases (before m.0 a)) [
        | inl r ↦
            let n = before_trans m.0 a b r p in
            simp (
              e,
              r,
              n,
              differ m.0 b (before-ne m.0 b n),
              put,
              put_comm_before kind a b s t fams p q,
            )
        | inr r ↦ elim (Bool-cases (str_eq m.0 b)) [
          | inl f ↦ simp (e, r, p, f, ab, put)
          | inr f ↦ elim (Bool-cases (before m.0 b)) [
            | inl g ↦ simp (e, r, p, f, g, ab, put)
            | inr g ↦ simp (e, r, p, q, f, g, ab, ba, put)
          ]
        ]
      ]
    ]

pub put_comm :
    (kind a b : String) (s t : String × ℤ) (fams : Families)
    → s.0 ≢ t.0
    → put kind a s (put kind b t fams) ≡ put kind b t (put kind a s fams)
put_comm kind a b s t fams h = elim (Bool-cases (str_eq a b)) [
  | inl e ↦
      subst (λ x. put kind a s (put kind x t fams) ≡ put kind x t (put kind a s fams))
        ((str_eq_iff a b).0 e) (put_comm_same kind a s t fams h)
  | inr e ↦ elim (before_either a b (λ x. cc (e, (str_eq_iff a b).1 x))) [
    | inl (p, q) ↦ put_comm_before kind a b s t fams p q
    | inr (p, q) ↦ sym (put_comm_before kind b a t s fams p q)
  ]
]
