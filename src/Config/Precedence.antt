-- ===== src/Config/Precedence.antt =====
-- `Load` of internal/config/config.go: which source of a value wins, and what the lan profile resets.
use mathlib.Core.Option.{some-injective}
use go_speedtest.Prelude.{
  ◌≡◌, refl, sym, ap, ◌∙◌, ◌⊎◌, inl, inr, Bool, true, false, ◌||◌, Option, none, some, List, [],
  ◌∷◌, String, str_eq, str_eq_iff, Bool-cases, Option-cases, arith,
}
use go_speedtest.Prelude.Int.{pos}
use go_speedtest.Prelude.Double.{Double}
use go_speedtest.Config.{Config, mode_lan, defaults, apply_mode_profile, validate}
use go_speedtest.Config.Validity.{IsValid, validate_iff}
use go_speedtest.Config.Flags.{
  Std, Flag, State, Loaded, LoadError, loaded, rejected, ◌>>=◌, all_flags, flag_name, mark,
  set_flag, parse_flags, visit, visit_all, finish, load,
}

>>=-eq_loaded {ℓ κ} :
    {A : Type ℓ} {B : Type κ} (m : Loaded A) (f : A → Loaded B) {b : B}
    → (m >>= f) ≡ loaded b
    → (a : A) × (m ≡ loaded a) × (f a ≡ loaded b)
>>=-eq_loaded (loaded a) f h = (a, refl, h)
>>=-eq_loaded (rejected e) f h = cc

loaded_or_rejected {ℓ} :
    {A : Type ℓ} (m : Loaded A) → ((a : A) × (m ≡ loaded a)) ⊎ ((x : LoadError) × (m ≡ rejected x))
loaded_or_rejected (loaded a) = inl (a, refl)
loaded_or_rejected (rejected x) = inr (x, refl)

loaded-injective {ℓ} : {A : Type ℓ} {a b : A} → loaded a ≡ loaded b → a ≡ b
loaded-injective h = cc

loaded-ne-rejected {ℓ} : {A : Type ℓ} {a : A} {x : LoadError} → loaded a ≡ rejected x → ⊥
loaded-ne-rejected h = cc

-- The command line gives the flag of this name.
unfoldable pub is_given : String → List (Flag × String) → Bool
is_given n [] = false
is_given n ((f, v) ∷ rest) = str_eq n (flag_name f) || is_given n rest

module _ {F : Type 0} ⦃d : Double F⦄ (std : Std F) where
  -- After the command line is parsed, the explicit flags are those that it gives.
  parse_flags-explicit :
      (s : State F) (flags : List (Flag × String)) {s' : State F} (n : String)
      → parse_flags std s flags ≡ loaded s'
      → s'.explicit n ≡ (s.explicit n || is_given n flags)
  unfolding parse_flags is_given
  parse_flags-explicit s [] n h = ground arith
  parse_flags-explicit s ((f, v) ∷ rest) {s'} n h = elim (Option-cases (set_flag std s.cfg f v)) [
    | inl e ↦ ground arith
    | inr (c, e) ↦
        let s₁ : State F = record { cfg = c; explicit = mark s.explicit (flag_name f) } in
        ground (arith, parse_flags-explicit s₁ rest {s' = s'} n (ground arith))
  ]

  -- A visit of the loop over the environment keeps every flag that is explicit, and makes no flag
  -- explicit whose variable is unset.
  visit-explicit :
      (env : String → Option String) (s : State F) (f : Flag) {s' : State F} (n : String)
      → visit std env s f ≡ loaded s'
      → (s.explicit n ≡ true → s'.explicit n ≡ true)
        × (s.explicit n ≡ false → env (std.env_key n) ≡ none → s'.explicit n ≡ false)
  unfolding visit
  visit-explicit env s f n h = ground (arith, str_eq_iff n (flag_name f))

  visit_all-explicit :
      (env : String → Option String) (s : State F) (fs : List Flag) {s' : State F} (n : String)
      → visit_all std env s fs ≡ loaded s'
      → s.explicit n ≡ false
      → env (std.env_key n) ≡ none
      → s'.explicit n ≡ false
  unfolding visit_all
  visit_all-explicit env s [] n h u e = ground arith
  visit_all-explicit env s (f ∷ fs) n h u e =
      let (s₁, v, h') = >>=-eq_loaded (visit std env s f) (λ t. visit_all std env t fs) h in
      visit_all-explicit env s₁ fs n h' ((visit-explicit env s f n v).1 u e) e

  visit_agree :
      (env env' : String → Option String) (s : State F) (f : Flag)
      → (s.explicit (flag_name f) ≡ false
          → env (std.env_key (flag_name f)) ≡ env' (std.env_key (flag_name f)))
      → visit std env s f ≡ visit std env' s f
  unfolding visit
  visit_agree env env' s f h = elim (Bool-cases (s.explicit (flag_name f))) [
    | inl e ↦ rw e
    | inr e ↦ rw (e, h e)
  ]

  -- Two environments that agree on the flags that are not explicit yet.
  visit_all_agree :
      (env env' : String → Option String) (s : State F) (fs : List Flag)
      → ((f : Flag)
          → s.explicit (flag_name f) ≡ false
          → env (std.env_key (flag_name f)) ≡ env' (std.env_key (flag_name f)))
      → visit_all std env s fs ≡ visit_all std env' s fs
  unfolding visit_all
  visit_all_agree env env' s [] h = refl
  visit_all_agree env env' s (f ∷ fs) h = elim (loaded_or_rejected (visit std env s f)) [
    | inr (x, e) ↦ rw (e, sym (visit_agree env env' s f (h f)) ∙ e)
    | inl (s₁, e) ↦
        rw (e, sym (visit_agree env env' s f (h f)) ∙ e)
          (visit_all_agree env env' s₁ fs
            (λ g u. h g (ground (arith, visit-explicit env s f (flag_name g) e))))
  ]

  abbrev initial : State F
  initial = record { cfg = defaults; explicit = λ n. false }

  -- A flag on the command line wins over its environment variable: two environments that agree on
  -- the variables of the flags that are not given lead to the same outcome of `Load`, an error
  -- included.
  pub load_ignores_env :
      (flags : List (Flag × String)) (env env' : String → Option String)
      → ((f : Flag)
          → is_given (flag_name f) flags ≡ false
          → env (std.env_key (flag_name f)) ≡ env' (std.env_key (flag_name f)))
      → load std (some flags) env ≡ load std (some flags) env'
  unfolding load
  load_ignores_env flags env env' h = elim (loaded_or_rejected (parse_flags std initial flags)) [
    | inr (x, e) ↦ rw e
    | inl (s, e) ↦ rw (
      e,
      visit_all_agree env env' s all_flags
          (λ f u. h f (ground (arith, parse_flags-explicit initial flags (flag_name f) e))),
    )
  ]

  finish_loaded :
      (s : State F) {cfg : Config F}
      → finish std s ≡ loaded cfg
      → (cfg ≡ apply_mode_profile s.cfg s.explicit)
        × (validate std.is_prefix std.to_lower cfg ≡ none)
  unfolding finish
  finish_loaded s {cfg} h =
      let c : Config F = apply_mode_profile s.cfg s.explicit in
      elim (Option-cases (validate std.is_prefix std.to_lower c)) [
        | inl e ↦ let same : c ≡ cfg = loaded-injective (rw e at h) in (sym same, rw (← same) e)
        | inr (x, e) ↦ absurd (loaded-ne-rejected (sym (rw e at h)))
      ]

  load_loaded :
      (args : Option (List (Flag × String))) (env : String → Option String) {cfg : Config F}
      → load std args env ≡ loaded cfg
      → (flags : List (Flag × String)) × (s s' : State F) × (args ≡ some flags)
        × (parse_flags std initial flags ≡ loaded s)
        × (visit_all std env s all_flags ≡ loaded s')
        × (finish std s' ≡ loaded cfg)
  unfolding load
  load_loaded none env h = absurd (loaded-ne-rejected (sym h))
  load_loaded (some flags) env h =
      let (s, p, h₁) = >>=-eq_loaded (parse_flags std initial flags) _ h in
      let (s', v, h₂) = >>=-eq_loaded (visit_all std env s all_flags) _ h₁ in
      (flags, s, s', refl, p, v, h₂)

  -- A configuration that `Load` returns is valid.
  pub load-IsValid :
      (args : Option (List (Flag × String))) (env : String → Option String) {cfg : Config F}
      → load std args env ≡ loaded cfg
      → IsValid std.is_prefix std.to_lower cfg
  load-IsValid args env {cfg} h =
      let (flags, s, s', a, p, v, f) = load_loaded args env h in
      (validate_iff std.is_prefix std.to_lower cfg).0 (finish_loaded s' f).1

  -- Neither the command line nor the environment gives the flag of this name.
  abbrev pub IsUnset : List (Flag × String) → (String → Option String) → String → Type 0
  IsUnset flags env n = (is_given n flags ≡ false) × (env (std.env_key n) ≡ none)

  explicit_unset :
      (flags : List (Flag × String)) (env : String → Option String) {s s' : State F} (n : String)
      → parse_flags std initial flags ≡ loaded s
      → visit_all std env s all_flags ≡ loaded s'
      → IsUnset flags env n
      → s'.explicit n ≡ false
  explicit_unset flags env {s} n p v (g, e) =
      visit_all-explicit env s all_flags n v
        (parse_flags-explicit initial flags n p ∙ ap (λ b. false || b) g) e

  -- The limits that the lan profile leaves at zero.
  pub record IsUnlimited (unset : String → Type 0) (cfg : Config F) : Type 0 where
    pub per_ip_concurrency : unset "per-ip-concurrency" → cfg.per_ip_concurrency ≡ pos 0
    pub chunk_cap : unset "chunk-cap" → cfg.chunk_cap ≡ pos 0
    pub max_upload_bytes : unset "max-upload-bytes" → cfg.max_upload_bytes ≡ pos 0
    pub rate_limit : unset "rate-limit" → cfg.rate_limit_per_sec ≡ d.of_int (pos 0)
    pub rate_limit_burst : unset "rate-limit-burst" → cfg.rate_limit_burst ≡ pos 0
    pub read_deadline : unset "read-deadline" → cfg.read_deadline ≡ pos 0

  lan_profile_lem :
      (s : State F) (cfg : Config F) (unset : String → Type 0)
      → cfg ≡ apply_mode_profile s.cfg s.explicit
      → cfg.mode ≡ mode_lan
      → ((n : String) → unset n → s.explicit n ≡ false)
      → IsUnlimited unset cfg
  unfolding apply_mode_profile
  lan_profile_lem s cfg unset e m h =
      let lan : str_eq s.cfg.mode mode_lan ≡ true =
        ground (arith, e, m, str_eq_iff s.cfg.mode mode_lan) in
      let same = rw lan at e in
      record {
        per_ip_concurrency = λ u. let x = h _ u in ground (arith, same, x);
        chunk_cap = λ u. let x = h _ u in ground (arith, same, x);
        max_upload_bytes = λ u. let x = h _ u in ground (arith, same, x);
        rate_limit = λ u. let x = h _ u in ground (arith, same, x);
        rate_limit_burst = λ u. let x = h _ u in ground (arith, same, x);
        read_deadline = λ u. let x = h _ u in ground (arith, same, x);
      }

  -- If `Load` returns a lan configuration, each limit that neither the command line nor the
  -- environment gives is zero.
  pub load-IsUnlimited :
      (flags : List (Flag × String)) (env : String → Option String) {cfg : Config F}
      → load std (some flags) env ≡ loaded cfg
      → cfg.mode ≡ mode_lan
      → IsUnlimited (IsUnset flags env) cfg
  load-IsUnlimited flags env {cfg} h m =
      let (flags', s, s', a, p, v, f) = load_loaded (some flags) env h in
      lan_profile_lem s' cfg (IsUnset flags env) (finish_loaded s' f).0 m
        (λ n u. explicit_unset flags env n (rw (← some-injective _ _ a) at p) v u)
