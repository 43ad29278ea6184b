-- ===== src/ClientIp/Hops.antt =====
-- The parts of X-Forwarded-For in internal/clientip/clientip.go.
use mathlib.Core.List.{reverse, reverse-append, reverse-cons, append_assoc}
use go_speedtest.Prelude.{
  ℕ, ◌≡◌, refl, ◌≢◌, true, false, some, List, [], ◌∷◌, ◌++◌, arith, All, All-append, ◌⊎◌,
}
use go_speedtest.ClientIp.{
  Bytes, Prefix, Net, is_valid, split_comma, extend_first, parse_addr, trusted, rightmost_untrusted,
}

split_comma-ne_nil : (s : Bytes) → split_comma s ≢ []
unfolding split_comma
split_comma-ne_nil [] h = cc
split_comma-ne_nil (c ∷ s) h = ground arith

extend_first-append :
    (c : ℕ) (ps qs : List Bytes) → ps ≢ [] → extend_first c (ps ++ qs) ≡ extend_first c ps ++ qs
unfolding extend_first
extend_first-append c [] qs h = absurd (h refl)
extend_first-append c (p ∷ ps) qs h = refl

-- A comma separates the parts before it from those behind it.
pub split_comma-append :
    (s t : Bytes) → split_comma (s ++ b',' ∷ t) ≡ split_comma s ++ split_comma t
unfolding split_comma
split_comma-append [] t = refl
split_comma-append (c ∷ s) t =
    let more = extend_first-append c (split_comma s) (split_comma t) (split_comma-ne_nil s) in
    ground (arith, split_comma-append s t, more)

module _ (net : Net) (cidrs : List Prefix) where
  -- A part that the walk passes over: no address, or a trusted one.
  abbrev pub IsSkipped : Bytes → Type 0
  IsSkipped part =
      (is_valid (parse_addr net part) ≡ false) ⊎ (trusted cidrs (parse_addr net part) ≡ true)

  -- The walk stops at the first part that is an address and not trusted.
  rightmost_untrusted-append :
      (skipped rest : List Bytes) (part : Bytes)
      → All IsSkipped skipped
      → is_valid (parse_addr net part) ≡ true
      → trusted cidrs (parse_addr net part) ≡ false
      → rightmost_untrusted net cidrs (skipped ++ part ∷ rest) ≡ some (parse_addr net part)
  unfolding rightmost_untrusted
  rightmost_untrusted-append [] rest part s v t = ground arith
  rightmost_untrusted-append (p ∷ ps) rest part (s, ss) v t =
      ground (arith, rightmost_untrusted-append ps rest part ss v t)

  All-reverse : (ps : List Bytes) → All IsSkipped ps → All IsSkipped (reverse ps)
  All-reverse [] s = tt
  All-reverse (p ∷ ps) (s, ss) =
      rw (reverse-cons p ps)
        (All-append IsSkipped (reverse ps) (p ∷ []) (All-reverse ps ss) (s, tt))

  pub rightmost_untrusted-reverse :
      (before after : List Bytes) (part : Bytes)
      → All IsSkipped after
      → is_valid (parse_addr net part) ≡ true
      → trusted cidrs (parse_addr net part) ≡ false
      → rightmost_untrusted net cidrs (reverse (before ++ part ∷ after))
        ≡ some (parse_addr net part)
  rightmost_untrusted-reverse before after part s v t =
      rw (reverse-append before (part ∷ after), reverse-cons part after, append_assoc)
        (rightmost_untrusted-append (reverse after) (reverse before) part (All-reverse after s) v t)
