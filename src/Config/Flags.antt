-- ===== src/Config/Flags.antt =====
-- The flags of internal/config/config.go and `Load`, which merges the command line, the environment
-- and the mode profile. The value parsers and string functions of Go's standard library, and the
-- splitting of the command line into flags, are parameters.
use go_speedtest.Prelude.{
  Bool, true, false, Option, none, some, List, [], ◌∷◌, ◌++◌, String, str_eq, if◌then◌else◌,
}
use go_speedtest.Prelude.Int.{ℤ}
use go_speedtest.Prelude.Double.{Double}
use go_speedtest.Config.{Config, Invalid, defaults, apply_mode_profile, validate}

-- `flag.Value.Set` for each type, `strings.Split(s, ",")`, `strings.TrimSpace`, `strings.ToLower`,
-- `strings.ToUpper(strings.ReplaceAll(s, "-", "_"))`, and whether `netip.ParsePrefix` accepts.
pub record Std (F : Type 0) : Type 0 where
  pub parse_bool : String → Option Bool
  pub parse_int : String → Option ℤ
  pub parse_int64 : String → Option ℤ
  pub parse_float : String → Option F
  pub parse_duration : String → Option ℤ
  pub split_comma : String → List String
  pub trim_space : String → String
  pub to_lower : String → String
  pub env_key : String → String
  pub is_prefix : String → Bool

pub data Flag : Type 0 where
  listen mode http2 server_name log_level : Flag
  trusted_proxies telemetry telemetry_path api_token cors : Flag
  overhead download_streams upload_streams test_duration grace_download : Flag
  grace_upload ping_samples per_ip_concurrency chunk_cap max_upload_bytes : Flag
  rate_limit rate_limit_burst read_deadline : Flag

-- Every flag, in the lexical order in which `VisitAll` goes.
abbrev pub all_flags : List Flag
all_flags =
    api_token ∷ chunk_cap ∷ cors ∷ download_streams ∷ grace_download ∷ grace_upload ∷ http2 ∷ listen
    ∷ log_level ∷ max_upload_bytes ∷ mode ∷ overhead ∷ per_ip_concurrency ∷ ping_samples
    ∷ rate_limit ∷ rate_limit_burst ∷ read_deadline ∷ server_name ∷ telemetry ∷ telemetry_path
    ∷ test_duration ∷ trusted_proxies ∷ upload_streams ∷ []

unfoldable pub flag_name : Flag → String
flag_name listen = "listen"
flag_name mode = "mode"
flag_name http2 = "http2"
flag_name server_name = "server-name"
flag_name log_level = "log-level"
flag_name trusted_proxies = "trusted-proxies"
flag_name telemetry = "telemetry"
flag_name telemetry_path = "telemetry-path"
flag_name api_token = "api-token"
flag_name cors = "cors"
flag_name overhead = "overhead"
flag_name download_streams = "download-streams"
flag_name upload_streams = "upload-streams"
flag_name test_duration = "test-duration"
flag_name grace_download = "grace-download"
flag_name grace_upload = "grace-upload"
flag_name ping_samples = "ping-samples"
flag_name per_ip_concurrency = "per-ip-concurrency"
flag_name chunk_cap = "chunk-cap"
flag_name max_upload_bytes = "max-upload-bytes"
flag_name rate_limit = "rate-limit"
flag_name rate_limit_burst = "rate-limit-burst"
flag_name read_deadline = "read-deadline"

module _ {F : Type 0} ⦃d : Double F⦄ (std : Std F) where
  -- `listFlag.Set`
  pub add_parts : List String → List String → List String
  add_parts p [] = p
  add_parts p (part ∷ parts) =
      let t : String = std.trim_space part in
      add_parts (if str_eq t "" then p else p ++ t ∷ []) parts

  pub list_set : List String → String → List String
  unfolding add_parts
  list_set p v = add_parts p (std.split_comma v)

  abbrev with_value : {A : Type 0} → Option A → (A → Config F) → Option (Config F)
  with_value none store = none
  with_value (some a) store = some (store a)

  -- `fs.Set` of a flag of `registerFlags`
  unfoldable pub set_flag : Config F → Flag → String → Option (Config F)
  set_flag cfg listen v = some (record cfg { listen = v })
  set_flag cfg mode v = some (record cfg { mode = v })
  set_flag cfg http2 v = with_value (std.parse_bool v) (λ x. record cfg { http2 = x })
  set_flag cfg server_name v = some (record cfg { server_name = v })
  set_flag cfg log_level v = some (record cfg { log_level = v })
  set_flag cfg trusted_proxies v =
      some (record cfg { trusted_proxies = list_set cfg.trusted_proxies v })
  set_flag cfg telemetry v = some (record cfg { telemetry_backend = v })
  set_flag cfg telemetry_path v = some (record cfg { telemetry_path = v })
  set_flag cfg api_token v = some (record cfg { api_token = v })
  set_flag cfg cors v = some (record cfg { cors_origins = list_set cfg.cors_origins v })
  set_flag cfg overhead v = with_value (std.parse_float v) (λ x. record cfg { overhead_factor = x })
  set_flag cfg download_streams v =
      with_value (std.parse_int v) (λ x. record cfg { download_streams = x })
  set_flag cfg upload_streams v =
      with_value (std.parse_int v) (λ x. record cfg { upload_streams = x })
  set_flag cfg test_duration v =
      with_value (std.parse_duration v) (λ x. record cfg { test_duration = x })
  set_flag cfg grace_download v =
      with_value (std.parse_duration v) (λ x. record cfg { grace_download = x })
  set_flag cfg grace_upload v =
      with_value (std.parse_duration v) (λ x. record cfg { grace_upload = x })
  set_flag cfg ping_samples v = with_value (std.parse_int v) (λ x. record cfg { ping_samples = x })
  set_flag cfg per_ip_concurrency v =
      with_value (std.parse_int v) (λ x. record cfg { per_ip_concurrency = x })
  set_flag cfg chunk_cap v = with_value (std.parse_int v) (λ x. record cfg { chunk_cap = x })
  set_flag cfg max_upload_bytes v =
      with_value (std.parse_int64 v) (λ x. record cfg { max_upload_bytes = x })
  set_flag cfg rate_limit v =
      with_value (std.parse_float v) (λ x. record cfg { rate_limit_per_sec = x })
  set_flag cfg rate_limit_burst v =
      with_value (std.parse_int v) (λ x. record cfg { rate_limit_burst = x })
  set_flag cfg read_deadline v =
      with_value (std.parse_duration v) (λ x. record cfg { read_deadline = x })

pub data LoadError : Type 0 where
  bad_args : LoadError
  bad_flag : Flag → LoadError
  bad_env : Flag → LoadError
  invalid : Invalid → LoadError

-- what `Load` and its parts return
pub data Loaded {ℓ} (A : Type ℓ) : Type ℓ where
  rejected : LoadError → Loaded A
  loaded : A → Loaded A

infixl 5 ◌>>=◌
abbrev pub ◌>>=◌ {ℓ κ} :
    {Cfg : Type ℓ} {Next : Type κ} → Loaded Cfg → (Cfg → Loaded Next) → Loaded Next
rejected why >>= next = rejected why
loaded cfg >>= next = next cfg

abbrev pub split_args : Option (List (Flag × String)) → Loaded (List (Flag × String))
split_args none = rejected bad_args
split_args (some flags) = loaded flags

-- The configuration so far, and the map `explicit`.
pub record State (F : Type 0) : Type 0 where
  pub cfg : Config F
  pub explicit : String → Bool

abbrev pub mark : (String → Bool) → String → String → Bool
mark explicit name n = if str_eq n name then true else explicit n

module _ {F : Type 0} where
  abbrev pub stored : Option (Config F) → State F → Flag → LoadError → Loaded (State F)
  stored none s f e = rejected e
  stored (some cfg) s f e = loaded (record { cfg = cfg; explicit = mark s.explicit (flag_name f) })

  abbrev pub checked : Option Invalid → Config F → Loaded (Config F)
  checked none cfg = loaded cfg
  checked (some e) cfg = rejected (invalid e)

module _ {F : Type 0} ⦃d : Double F⦄ (std : Std F) where
  -- `fs.Parse` after the command line is split, and `fs.Visit`
  unfoldable pub parse_flags : State F → List (Flag × String) → Loaded (State F)
  parse_flags s [] = loaded s
  parse_flags s ((f, v) ∷ rest) =
      stored (set_flag std s.cfg f v) s f (bad_flag f) >>= λ s'. parse_flags s' rest

  -- one visit of the loop over the environment
  unfoldable pub visit : (env : String → Option String) → State F → Flag → Loaded (State F)
  visit env s f =
      if s.explicit (flag_name f) then loaded s else elim (env (std.env_key (flag_name f))) [
        | none ↦ loaded s
        | some v ↦ stored (set_flag std s.cfg f v) s f (bad_env f)
      ]

  unfoldable pub visit_all : (env : String → Option String) → State F → List Flag → Loaded (State F)
  visit_all env s [] = loaded s
  visit_all env s (f ∷ fs) = visit env s f >>= λ s'. visit_all env s' fs

  unfoldable pub finish : State F → Loaded (Config F)
  unfolding apply_mode_profile validate
  finish s =
      let cfg : Config F = apply_mode_profile s.cfg s.explicit in
      checked (validate std.is_prefix std.to_lower cfg) cfg

  -- `Load`, of the command line that `flag` has split, or of none if it could not
  unfoldable pub load :
      Option (List (Flag × String)) → (env : String → Option String) → Loaded (Config F)
  load args env = do
    flags ← split_args args
    s ← parse_flags (record { cfg = defaults; explicit = λ n. false }) flags
    s' ← visit_all env s all_flags
    finish s'
