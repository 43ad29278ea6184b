-- ===== src/Config/Validity.antt =====
-- What `validate` of internal/config/config.go accepts.
use go_speedtest.Prelude.{
  ◌≡◌, refl, ◌≢◌, ◌↔◌, ◌⊎◌, Bool, true, false, none, List, [], ◌∷◌, String, str_eq_iff, All, arith,
  inl, inr, Bool-cases,
}
use go_speedtest.Prelude.Int.{ℤ, pos, ◌≤ℤ◌, ◌<ℤ◌}
use go_speedtest.Prelude.Double.{Double}
use go_speedtest.Measure.{min_configurable_streams, max_configurable_streams}
use go_speedtest.Config.{
  Config, mode_lan, mode_internet, telemetry_none, telemetry_sqlite, valid_log_level, validate,
  check_proxies, check_limits, check_method,
}

abbrev pub IsInRange : ℤ → Type 0
IsInRange n = (min_configurable_streams ≤ℤ n) × (n ≤ℤ max_configurable_streams)

-- A telemetry backend that exists, with a path where it needs one.
abbrev pub IsBackend : String → String → Type 0
IsBackend backend path = (backend ≡ telemetry_none) ⊎ ((backend ≡ telemetry_sqlite) × (path ≢ ""))

-- The names in the help text of `-log-level`.
abbrev pub IsLogLevel : String → Type 0
IsLogLevel l =
    (l ≡ "trace")
    ⊎ (l ≡ "debug")
    ⊎ (l ≡ "info")
    ⊎ (l ≡ "warn")
    ⊎ (l ≡ "error")
    ⊎ (l ≡ "fatal")
    ⊎ (l ≡ "panic")

module _ {F : Type 0} ⦃d : Double F⦄ where
  -- above zero, as an infinity is, too
  abbrev pub IsPositive : F → Type 0
  IsPositive x = (d.lt (d.of_int (pos 0)) x ≡ true) × (d.le x (d.of_int (pos 0)) ≡ false)

  -- neither above zero nor at most zero: not a number
  abbrev pub IsUnordered : F → Type 0
  IsUnordered x = (d.lt (d.of_int (pos 0)) x ≡ false) × (d.le x (d.of_int (pos 0)) ≡ false)

  overhead_iff : (x : F) → (d.le x (d.of_int (pos 0)) ≡ false) ↔ (IsPositive x ⊎ IsUnordered x)
  overhead_iff x = (
    λ h. elim (Bool-cases (d.lt (d.of_int (pos 0)) x)) [ inl e ↦ inl (e, h) | inr e ↦ inr (e, h) ],
    λ h. elim h [ inl (_, e) ↦ e | inr (_, e) ↦ e ],
  )

valid_log_level_iff : (l : String) → (valid_log_level l ≡ true) ↔ IsLogLevel l
unfolding valid_log_level
valid_log_level_iff l = ground (
  arith,
  str_eq_iff l "trace",
  str_eq_iff l "debug",
  str_eq_iff l "info",
  str_eq_iff l "warn",
  str_eq_iff l "error",
  str_eq_iff l "fatal",
  str_eq_iff l "panic",
)

-- What the flags' help texts and DESIGN.md ask of a configuration; of the overhead factor, only that
-- it is not at most zero.
pub record IsValid {F : Type 0} ⦃d : Double F⦄ (is_prefix : String → Bool)
    (to_lower : String → String) (cfg : Config F) : Type 0 where
  pub listens : cfg.listen ≢ ""
  pub has_mode : (cfg.mode ≡ mode_lan) ⊎ (cfg.mode ≡ mode_internet)
  pub has_backend : IsBackend cfg.telemetry_backend cfg.telemetry_path
  pub has_log_level : IsLogLevel (to_lower cfg.log_level)
  pub overhead : IsPositive cfg.overhead_factor ⊎ IsUnordered cfg.overhead_factor
  pub download_streams_in : IsInRange cfg.download_streams
  pub upload_streams_in : IsInRange cfg.upload_streams
  pub test_duration_pos : pos 0 <ℤ cfg.test_duration
  pub grace_download_nonneg : pos 0 ≤ℤ cfg.grace_download
  pub grace_upload_nonneg : pos 0 ≤ℤ cfg.grace_upload
  pub ping_samples_pos : pos 0 <ℤ cfg.ping_samples
  pub per_ip_concurrency_nonneg : pos 0 ≤ℤ cfg.per_ip_concurrency
  pub chunk_cap_nonneg : pos 0 ≤ℤ cfg.chunk_cap
  pub max_upload_bytes_nonneg : pos 0 ≤ℤ cfg.max_upload_bytes
  pub rate_limit_nonneg : d.lt cfg.rate_limit_per_sec (d.of_int (pos 0)) ≡ false
  pub rate_limit_burst_nonneg : pos 0 ≤ℤ cfg.rate_limit_burst
  pub read_deadline_nonneg : pos 0 ≤ℤ cfg.read_deadline
  pub proxies_parse : All (λ c. is_prefix c ≡ true) cfg.trusted_proxies

check_proxies_iff :
    (is_prefix : String → Bool) (cs : List String)
    → (check_proxies is_prefix cs ≡ none) ↔ All (λ c. is_prefix c ≡ true) cs
unfolding check_proxies
check_proxies_iff is_prefix [] = ((λ _. tt), (λ _. refl))
check_proxies_iff is_prefix (c ∷ cs) = ground (arith, check_proxies_iff is_prefix cs)

module _ {F : Type 0} ⦃d : Double F⦄ where
  check_limits_iff :
      (is_prefix : String → Bool) (cfg : Config F)
      → (check_limits is_prefix cfg ≡ none) ↔ (
          (pos 0 ≤ℤ cfg.per_ip_concurrency)
          × (pos 0 ≤ℤ cfg.chunk_cap)
          × (pos 0 ≤ℤ cfg.max_upload_bytes)
          × (d.lt cfg.rate_limit_per_sec (d.of_int (pos 0)) ≡ false)
          × (pos 0 ≤ℤ cfg.rate_limit_burst)
          × (pos 0 ≤ℤ cfg.read_deadline)
          × All (λ c. is_prefix c ≡ true) cfg.trusted_proxies)
  unfolding check_limits
  check_limits_iff is_prefix cfg = ground (arith, check_proxies_iff is_prefix cfg.trusted_proxies)

  check_method_iff :
      (is_prefix : String → Bool) (cfg : Config F)
      → (check_method is_prefix cfg ≡ none) ↔ (
          (d.le cfg.overhead_factor (d.of_int (pos 0)) ≡ false)
          × IsInRange cfg.download_streams
          × IsInRange cfg.upload_streams
          × (pos 0 <ℤ cfg.test_duration)
          × (pos 0 ≤ℤ cfg.grace_download)
          × (pos 0 ≤ℤ cfg.grace_upload)
          × (pos 0 <ℤ cfg.ping_samples)
          × (check_limits is_prefix cfg ≡ none))
  unfolding check_method
  check_method_iff is_prefix cfg = ground arith

  module _ (is_prefix : String → Bool) (to_lower : String → String) (cfg : Config F) where
    check_server_iff : (validate is_prefix to_lower cfg ≡ none) ↔ (
        (cfg.listen ≢ "")
        × ((cfg.mode ≡ mode_lan) ⊎ (cfg.mode ≡ mode_internet))
        × IsBackend cfg.telemetry_backend cfg.telemetry_path
        × (valid_log_level (to_lower cfg.log_level) ≡ true)
        × (check_method is_prefix cfg ≡ none))
    unfolding validate
    check_server_iff = ground (
      arith,
      str_eq_iff cfg.listen "",
      str_eq_iff cfg.mode mode_lan,
      str_eq_iff cfg.mode mode_internet,
      str_eq_iff cfg.telemetry_backend telemetry_none,
      str_eq_iff cfg.telemetry_backend telemetry_sqlite,
      str_eq_iff cfg.telemetry_path "",
      str_eq_iff telemetry_none telemetry_sqlite,
    )

    pub validate_iff : (validate is_prefix to_lower cfg ≡ none) ↔ IsValid is_prefix to_lower cfg
    validate_iff = ground (
      arith,
      check_server_iff,
      check_method_iff is_prefix cfg,
      check_limits_iff is_prefix cfg,
      valid_log_level_iff (to_lower cfg.log_level),
      overhead_iff cfg.overhead_factor,
    )
