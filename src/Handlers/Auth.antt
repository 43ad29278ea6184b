-- ===== src/Handlers/Auth.antt =====
-- `authorized` of internal/handlers/handlers.go, over the bytes of the token and of the header.
use mathlib.Core.Path.{ap₂}
use go_speedtest.Prelude.{
  ℕ, ◌≡◌, refl, sym, ◌∙◌, ◌↔◌, ◌⊎◌, inl, inr, Bool, true, false, not, ◌&&◌, ◌||◌, [], ◌∷◌, ◌++◌,
  arith, leb, ◌==◌, if◌then◌else◌, length, take, drop, take-append-drop,
}
use go_speedtest.ClientIp.{Bytes, is_empty}

-- Equality of texts; `subtle.ConstantTimeCompare` is 1 exactly where it holds.
unfoldable pub same_bytes : Bytes → Bytes → Bool
same_bytes [] [] = true
same_bytes (a ∷ as') (b ∷ bs) = a == b && same_bytes as' bs
same_bytes _ _ = false

-- "Bearer "
abbrev pub bearer : Bytes
bearer = b'B' ∷ b'e' ∷ b'a' ∷ b'r' ∷ b'e' ∷ b'r' ∷ b' ' ∷ []

unfoldable pub authorized : (token header : Bytes) → Bool
authorized token header =
    if is_empty token
    then true
    else if leb (length header) (length bearer)
        || not (same_bytes (take (length bearer) header) bearer)
    then false
    else same_bytes (drop (length bearer) header) token

cons-ne_nil : {a : ℕ} {s : Bytes} → a ∷ s ≡ [] → ⊥
cons-ne_nil h = cc

same_bytes_iff : (s t : Bytes) → (same_bytes s t ≡ true) ↔ (s ≡ t)
unfolding same_bytes
same_bytes_iff [] [] = ground arith
same_bytes_iff [] (b ∷ t) = ground arith
same_bytes_iff (a ∷ s) [] = ground arith
same_bytes_iff (a ∷ s) (b ∷ t) = ground (arith, same_bytes_iff s t)

same_bytes_refl : (s : Bytes) → same_bytes s s ≡ true
same_bytes_refl s = (same_bytes_iff s s).1 refl

authorized_sound :
    (t : ℕ) (token header : Bytes)
    → authorized (t ∷ token) header ≡ true
    → header ≡ bearer ++ t ∷ token
unfolding authorized
authorized_sound t token header h =
    let prefix = take (length bearer) header in
    let rest = drop (length bearer) header in
    let e : prefix ≡ bearer = (same_bytes_iff prefix bearer).0 (ground arith) in
    let f : rest ≡ t ∷ token = (same_bytes_iff rest (t ∷ token)).0 (ground arith) in
    sym (take-append-drop (length bearer) header) ∙ ap₂ (λ a b. a ++ b) e f

authorized_complete : (t : ℕ) (token : Bytes) → authorized (t ∷ token) (bearer ++ t ∷ token) ≡ true
unfolding authorized
authorized_complete t token = ground (arith, same_bytes_refl bearer, same_bytes_refl (t ∷ token))

-- With no token every request passes; with one, exactly those whose header is "Bearer " followed
-- by the token.
pub authorized_iff :
    (token header : Bytes)
    → (authorized token header ≡ true) ↔ ((token ≡ []) ⊎ (header ≡ bearer ++ token))
authorized_iff [] header = ((λ _. inl refl), (λ _. unfold authorized in refl))
authorized_iff (t ∷ token) header = (
  λ h. inr (authorized_sound t token header h),
  λ o. elim o [ inl e ↦ absurd (cons-ne_nil e) | inr e ↦ rw e (authorized_complete t token) ],
)
