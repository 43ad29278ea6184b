-- ===== src/Config/Tests.antt =====
-- `Load` of internal/config/config.go on small command lines and environments.
use go_speedtest.Prelude.{
  ◌≡◌, refl, ◌↔◌, true, false, Option, none, some, List, [], ◌∷◌, String, str_eq, if◌then◌else◌,
  arith,
}
use go_speedtest.Prelude.Int.{pos}
use go_speedtest.Prelude.Fixed.{Fixed, fixed_double}
use go_speedtest.Config.{
  Config, defaults, lan_profile, validate, mode_lan, valid_log_level, check_method, check_limits,
  check_proxies, apply_mode_profile,
}
use go_speedtest.Config.Flags.{
  Std, Flag, mode, flag_name, loaded, load, parse_flags, visit_all, visit, finish, set_flag,
}
use go_speedtest.Config.Validity.{IsValid, validate_iff}
use go_speedtest.Config.Precedence.{
  is_given, IsUnset, IsUnlimited, load_ignores_env, load-IsValid, load-IsUnlimited,
}

-- Parsers that know one text each; a variable has the name of its flag.
abbrev std : Std Fixed
std = record {
  parse_bool = λ s. some (str_eq s "true");
  parse_int = λ s. if str_eq s "4" then some (pos 4) else none;
  parse_int64 = λ s. if str_eq s "4" then some (pos 4) else none;
  parse_float = λ s. none;
  parse_duration = λ s. none;
  split_comma = λ s. s ∷ [];
  trim_space = λ s. s;
  to_lower = λ s. s;
  env_key = λ s. s;
  is_prefix = λ s. true;
}

abbrev public : List (Flag × String)
public = (mode, "internet") ∷ []

abbrev unset : String → Option String
unset k = none

abbrev lan_in_env : String → Option String
lan_in_env k = if str_eq k "mode" then some "lan" else none

validate_iff_example :
    (validate std.is_prefix std.to_lower (defaults {F = Fixed}) ≡ none)
    ↔ IsValid std.is_prefix std.to_lower (defaults {F = Fixed})
validate_iff_example = validate_iff std.is_prefix std.to_lower (defaults {F = Fixed})

-- The environment does not matter where the command line gives the mode.
agrees :
    (f : Flag)
    → is_given (flag_name f) public ≡ false
    → unset (flag_name f) ≡ lan_in_env (flag_name f)
unfolding is_given flag_name
agrees f h = ground arith

load_ignores_env_example : load std (some public) unset ≡ load std (some public) lan_in_env
load_ignores_env_example = load_ignores_env std public unset lan_in_env agrees

abbrev public_config : Config Fixed
public_config = record (defaults {F = Fixed}) { mode = "internet" }

loads_public : load std (some public) unset ≡ loaded public_config
unfolding load parse_flags visit_all visit finish set_flag flag_name apply_mode_profile validate
    defaults valid_log_level check_method check_limits check_proxies
loads_public = refl

load-IsValid_holds : IsValid std.is_prefix std.to_lower public_config
load-IsValid_holds = load-IsValid std (some public) unset loads_public

abbrev private_config : Config Fixed
private_config = lan_profile defaults (λ n. false)

loads_private : load std (some []) unset ≡ loaded private_config
unfolding load parse_flags visit_all visit finish set_flag flag_name apply_mode_profile validate
    defaults valid_log_level check_method check_limits check_proxies
loads_private = refl

is_private : private_config.mode ≡ mode_lan
unfolding lan_profile defaults
is_private = refl

load-IsUnlimited_example : IsUnlimited std (IsUnset std [] unset) private_config
load-IsUnlimited_example = load-IsUnlimited std [] unset loads_private is_private
