-- ===== src/Cli/Units.antt =====
-- `humanBytes` of cmd/go-speedtest-cli/main.go, up to the formatting of the numbers. The loop runs
-- on fuel: seven rounds are enough for an `int64`.
use go_speedtest.Prelude.{
  ℕ, zero, suc, ◌*◌, ◌/◌, ◌^◌, ◌≤◌, ◌<◌, ◌≡◌, refl, Option, none, some, List, [], ◌∷◌, arith, leb,
  ltb, if◌then◌else◌, get_elem?, Bool-cases, inl, inr,
}
use go_speedtest.Prelude.Int.{ℤ, pos, pos_part, ltb_ℤ, int64, scale}
use go_speedtest.Prelude.Double.{Double}

abbrev pub unit : ℕ
unit = 1024

-- "KMGTPE"
abbrev pub prefixes : List ℕ
prefixes = b'K' ∷ b'M' ∷ b'G' ∷ b'T' ∷ b'P' ∷ b'E' ∷ []

-- "%d B", or "%.2f %ciB" of a quotient and a prefix
pub data Size (F : Type 0) : Type 0 where
  plain : ℤ → Size F
  prefixed : F → ℕ → Size F

-- The loop from `m`, `div` and `exp` on; none if the fuel runs out.
unfoldable pub scale_down : (fuel m : ℕ) → (div : ℤ) → (exp : ℕ) → Option (ℤ × ℕ)
scale_down zero m div exp = none
scale_down (suc fuel) m div exp =
    let rest = scale_down fuel (m / unit) (int64 (scale div unit)) (suc exp) in
    if leb unit m then rest else some (div, exp)

module _ {F : Type 0} ⦃d : Double F⦄ where
  abbrev pub with_prefix : F → Option ℕ → Option (Size F)
  with_prefix q none = none
  with_prefix q (some c) = some (prefixed q c)

  -- `humanBytes`; none is a panic of the index expression, or no fuel.
  unfoldable pub human_bytes : ℤ → Option (Size F)
  human_bytes n =
      if ltb_ℤ n (pos unit)
      then some (plain n)
      else elim (scale_down 7 (pos_part n / unit) (pos unit) 0) [
        | none ↦ none
        | some r ↦ with_prefix (d.div (d.of_int n) (d.of_int r.0)) (get_elem? prefixes r.1)
      ]

-- What the loop finds: the power of 1024 that leaves a quotient from 1 to 1024.
abbrev IsScaled : ℕ → Option (ℤ × ℕ) → ℕ → ℕ → Type 0
IsScaled n r k e = (r ≡ some (pos k, e)) × (k ≡ unit ^ suc e) × (k ≤ n) × (n < k * unit)

scale_down_lem :
    (n : ℕ)
    → unit ≤ n
    → n < 2 ^ 63
    → (k e : ℕ) × (e < 6) × IsScaled n (scale_down 7 (n / unit) (pos unit) 0) k e
unfolding scale_down int64 scale
scale_down_lem n h b = elim (Bool-cases (ltb n (2 ^ 20))) [
  | inl l₁ ↦ (2 ^ 10, 0, omega arith, ground arith)
  | inr g₁ ↦ elim (Bool-cases (ltb n (2 ^ 30))) [
    | inl l₂ ↦ (2 ^ 20, 1, omega arith, ground arith)
    | inr g₂ ↦ elim (Bool-cases (ltb n (2 ^ 40))) [
      | inl l₃ ↦ (2 ^ 30, 2, omega arith, ground arith)
      | inr g₃ ↦ elim (Bool-cases (ltb n (2 ^ 50))) [
        | inl l₄ ↦ (2 ^ 40, 3, omega arith, ground arith)
        | inr g₄ ↦ elim (Bool-cases (ltb n (2 ^ 60))) [
          | inl l₅ ↦ (2 ^ 50, 4, omega arith, ground arith)
          | inr g₅ ↦ (2 ^ 60, 5, omega arith, ground arith)
        ]
      ]
    ]
  ]
]

prefix_at : (e : ℕ) → e < 6 → (c : ℕ) × (get_elem? prefixes e ≡ some c)
prefix_at zero h = (b'K', refl)
prefix_at (suc zero) h = (b'M', refl)
prefix_at (suc (suc zero)) h = (b'G', refl)
prefix_at (suc (suc (suc zero))) h = (b'T', refl)
prefix_at (suc (suc (suc (suc zero)))) h = (b'P', refl)
prefix_at (suc (suc (suc (suc (suc zero))))) h = (b'E', refl)
prefix_at (suc (suc (suc (suc (suc (suc e)))))) h = absurd (omega arith)

module _ {F : Type 0} ⦃d : Double F⦄ where
  -- Every count of at least 1024 bytes that fits an `int64` is shown: the loop ends, the index stays
  -- within the six prefixes, and with the prefix at e goes the quotient by the power e + 1 of 1024,
  -- which lies from 1 up to 1024.
  pub human_bytes_lem :
      (n : ℕ)
      → unit ≤ n
      → n < 2 ^ 63
      → (k e c : ℕ) × (human_bytes (pos n)
          ≡ some (prefixed (d.div (d.of_int (pos n)) (d.of_int (pos k))) c))
        × (get_elem? prefixes e ≡ some c)
        × (k ≡ unit ^ suc e)
        × (k ≤ n)
        × (n < k * unit)
  unfolding human_bytes
  human_bytes_lem n h b =
      let (k, e, small, (found, power, low, high)) = scale_down_lem n h b in
      let (c, at) = prefix_at e small in (k, e, c, ground (arith, found, at), at, power, low, high)
