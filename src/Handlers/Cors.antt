-- ===== src/Handlers/Cors.antt =====
-- `corsMW` and `originAllowed` of internal/handlers/handlers.go.
use go_speedtest.Prelude.{
  ◌≡◌, ◌≢◌, ◌↔◌, ◌⊎◌, Bool, true, false, not, ◌&&◌, ◌||◌, Option, none, some, List, [], ◌∷◌, String,
  arith, if◌then◌else◌, str_eq, str_eq_iff, ℕ,
}

-- The headers that the middleware adds, the status that it answers with, if it does, and whether
-- the next handler runs.
pub record Outcome : Type 0 where
  pub allow_origin : Option String
  pub vary_origin : Bool
  pub allow_methods : Option String
  pub allow_headers : Option String
  pub answered : Option ℕ
  pub calls_next : Bool

pub origin_allowed : List String → String → Bool
origin_allowed [] origin = false
origin_allowed (o ∷ os) origin = (str_eq o origin || str_eq o "*") || origin_allowed os origin

-- `origin` is the Origin header, "" if there is none.
pub cors_mw : List String → (origin method : String) → Outcome
unfolding origin_allowed
cors_mw origins origin method =
    let allowed = not (str_eq origin "") && origin_allowed origins origin in
    let preflight = str_eq method "OPTIONS" in
    record {
      allow_origin = if allowed then some origin else none;
      vary_origin = allowed;
      allow_methods = if allowed then some "GET, POST, OPTIONS" else none;
      allow_headers = if allowed then some "Authorization, Content-Type" else none;
      answered = if preflight then some 204 else none;
      calls_next = not preflight;
    }

-- The allowlist has the origin or the wildcard.
abbrev pub Lists : List String → String → Type 0
Lists [] origin = ⊥
Lists (o ∷ os) origin = (o ≡ origin) ⊎ (o ≡ "*") ⊎ Lists os origin

origin_allowed_iff :
    (origins : List String) (origin : String)
    → (origin_allowed origins origin ≡ true) ↔ Lists origins origin
unfolding origin_allowed
origin_allowed_iff [] origin = ground arith
origin_allowed_iff (o ∷ os) origin =
    ground (arith, str_eq_iff o origin, str_eq_iff o "*", origin_allowed_iff os origin)

-- The headers that let a page of the origin use the API, and none of them.
abbrev pub Allows : String → Outcome → Type 0
Allows origin o =
    (o.allow_origin ≡ some origin)
    × (o.vary_origin ≡ true)
    × (o.allow_methods ≡ some "GET, POST, OPTIONS")
    × (o.allow_headers ≡ some "Authorization, Content-Type")

abbrev pub AllowsNothing : Outcome → Type 0
AllowsNothing o =
    (o.allow_origin ≡ none)
    × (o.vary_origin ≡ false)
    × (o.allow_methods ≡ none)
    × (o.allow_headers ≡ none)

-- An origin gets all four CORS headers if there is one and the allowlist has it or "*", on whatever
-- path; then the first of them names that origin. Else it gets none of them. A preflight is answered
-- with 204 and any other request goes on.
pub cors_mw_lem :
    (origins : List String) (origin method : String)
    → let o = cors_mw origins origin method in
      (((origin ≢ "") × Lists origins origin) → Allows origin o)
      × (¬ ((origin ≢ "") × Lists origins origin) → AllowsNothing o)
      × ((o.answered ≡ some 204) ↔ (method ≡ "OPTIONS"))
      × ((o.calls_next ≡ true) ↔ (method ≢ "OPTIONS"))
unfolding cors_mw
cors_mw_lem origins origin method =
    ground
      (arith, str_eq_iff origin "", str_eq_iff method "OPTIONS", origin_allowed_iff origins origin)
