-- ===== src/Config/Checks.antt =====
-- The checks that the validation of a configuration is made of, internal/config/validate.go.
use credimi_runner.Prelude.{
  ℕ, Bool, true, false, ◌&&◌, ◌||◌, not, String, str_eq, str_append, Option, none, some, List, [],
  ◌∷◌, if◌then◌else◌, codes, leb, ◌==◌,
}
use credimi_runner.GoError.{or_else}
use credimi_runner.Strings.{trim_space, is_blank, has_prefix, contains}
use credimi_runner.Strings.Numbers.{all_digits, atoi, is_port}
use credimi_runner.Strings.Addresses.{
  split_host_port, Split, host_and_port, wrong_address, SplitError,
}
use credimi_runner.Strings.Patterns.{Pattern, one_of, then_by, star, optional, plus, matches}
use credimi_runner.Config.{GoInt, CredimiConfig, ExposureConfig, AndroidConfig}

-- The errors, by their texts: a field that is required, another rule, the same for the device at an
-- index with what follows the label, and a value that occurs twice.
pub data ConfigError : Type 0 where
  bad_schema_version : GoInt → ConfigError
  is_required : String → ConfigError
  breaks_rule : String → ConfigError
  bad_listen : String → SplitError → ConfigError
  device_requires : ℕ → String → ConfigError
  device_breaks : ℕ → String → ConfigError
  is_duplicate : ℕ → String → String → ConfigError

-- What `url.ParseRequestURI` gives: the scheme and the host of the URL.
pub record Url : Type 0 where
  pub scheme : String
  pub host : String

-- What the validation takes from outside: the parser of URLs, and the order in which `range`
-- visits the entries of a map, which Go leaves open.
pub record Outside : Type 0 where
  pub parse_request_uri : String → Option Url
  pub arrange : List (String × String) → List (String × String)

-- A sequence of `if err := …; err != nil { return err }`.
abbrev pub first_error {ℓ} : {E : Type ℓ} → List (Option E) → Option E
first_error [] = none
first_error (e ∷ es) = or_else e (first_error es)

abbrev pub must : Bool → ConfigError → Option ConfigError
must true e = none
must false e = some e

-- `required`
abbrev pub required : String → String → Option ConfigError
required name value = must (not (is_blank value)) (is_required name)

-- `required` in a `range` over a map of names and values.
unfoldable pub required_all : (String → ConfigError) → List (String × String) → Option ConfigError
required_all f [] = none
required_all f ((name, value) ∷ rest) =
    or_else (must (not (is_blank value)) (f name)) (required_all f rest)

-- `canonicalID`
abbrev is_lower_or_digit : ℕ → Bool
is_lower_or_digit c = (leb b'a' c && leb c b'z') || (leb b'0' c && leb c b'9')

abbrev is_lower_digit_or_dash : ℕ → Bool
is_lower_digit_or_dash c = is_lower_or_digit c || c == b'-'

abbrev pub id_segment : Pattern
id_segment =
    then_by (one_of is_lower_or_digit)
      (optional (then_by (star (one_of is_lower_digit_or_dash)) (one_of is_lower_or_digit)))

abbrev pub canonical_id : Pattern
canonical_id = then_by id_segment (plus (then_by (one_of (λ c. c == b'/')) id_segment))

unfoldable pub is_canonical : String → Bool
is_canonical id = matches canonical_id (codes id)

abbrev pub wifi_port_default : String
wifi_port_default = "5555"

-- `validPort`. The port is within the range if it is a number at all.
abbrev pub in_ports : Option GoInt → Bool
in_ports none = false
in_ports (some n) = is_port n

unfoldable pub valid_port : String → Bool
valid_port value = all_digits value && in_ports (atoi value)

-- `ParseADBPort`, `none` for its error.
abbrev pub port_or_error : Option GoInt → Option GoInt
port_or_error none = none
port_or_error (some n) = if is_port n then some n else none

unfoldable pub parse_adb_port : String → Option GoInt
parse_adb_port value =
    if is_blank value then some (GoInt.pos 5555) else port_or_error (atoi (trim_space value))

abbrev pub listen_error : String → Split → Option ConfigError
listen_error name (host_and_port h p) = none
listen_error name (wrong_address e) = some (bad_listen name e)

-- `validateListen`
unfoldable pub validate_listen : String → String → Option ConfigError
validate_listen name value = listen_error name (split_host_port (codes value))

-- `validateAuth`
unfoldable pub validate_auth : CredimiConfig → Option ConfigError
validate_auth cfg =
    if str_eq cfg.auth_mode "user"
    then must (not (is_blank cfg.user_api_key) && is_blank cfg.internal_admin_key)
        (breaks_rule "credimi.auth_mode user requires exactly user_api_key")
    else if str_eq cfg.auth_mode "internal_admin"
    then must (not (is_blank cfg.internal_admin_key) && is_blank cfg.user_api_key)
        (breaks_rule "credimi.auth_mode internal_admin requires exactly internal_admin_key")
    else some (breaks_rule "credimi.auth_mode must be user or internal_admin")

-- A URL with a scheme and a host, and one with a host.
abbrev pub is_absolute : Option Url → Bool
is_absolute none = false
is_absolute (some u) = not (str_eq u.scheme "") && not (str_eq u.host "")

abbrev pub has_host : Option Url → Bool
has_host none = false
has_host (some u) = not (str_eq u.host "")

-- `filepath.IsAbs` on Unix.
abbrev pub is_abs : String → Bool
is_abs path = has_prefix path "/"

abbrev pub android_fields : AndroidConfig → List (String × String)
android_fields cfg =
    ("network", cfg.network)
    ∷ ("state_volume", cfg.state_volume)
    ∷ ("tool_cache_volume", cfg.tool_cache_volume)
    ∷ ("sdk_volume", cfg.sdk_volume)
    ∷ []

abbrev pub is_pull_policy : String → Bool
is_pull_policy p = str_eq p "always" || str_eq p "if-not-present" || str_eq p "never"

module _ (out : Outside) where
  -- `validateExposure`
  unfoldable pub validate_mode : ExposureConfig → Option ConfigError
  validate_mode cfg =
      if str_eq cfg.mode "manual"
      then first_error (
          must (not (is_blank cfg.public_url)) (breaks_rule "manual exposure requires public_url")
          ∷ must (is_absolute (out.parse_request_uri cfg.public_url))
              (breaks_rule "exposure.public_url must be an absolute URL")
          ∷ [])
      else if str_eq cfg.mode "quick_tunnel"
      then must (is_blank cfg.cloudflare_token)
          (breaks_rule "quick_tunnel must not configure cloudflare_token")
      else if str_eq cfg.mode "named_tunnel"
      then first_error (
          must (not (is_blank cfg.domain)) (breaks_rule "named_tunnel requires domain")
          ∷ must (not (is_blank cfg.cloudflare_token))
              (breaks_rule "named_tunnel requires cloudflare_token")
          ∷ must (not (contains cfg.domain "://") || has_host (out.parse_request_uri cfg.domain))
              (breaks_rule "exposure.domain must be a hostname or absolute URL")
          ∷ [])
      else some (breaks_rule "exposure.mode must be manual, quick_tunnel, or named_tunnel")

  unfoldable pub validate_exposure : ExposureConfig → Option ConfigError
  unfolding validate_mode
  validate_exposure cfg = first_error (
      must (is_blank cfg.public_port || valid_port (trim_space cfg.public_port))
        (breaks_rule "exposure.public_port must be a valid TCP port")
      ∷ validate_mode cfg
      ∷ [])

  -- `validateAndroid`
  unfoldable pub validate_android : AndroidConfig → Option ConfigError
  unfolding required_all
  validate_android cfg = first_error (
      required "android.runner_image" cfg.runner_image
      ∷ must (is_pull_policy cfg.pull_policy)
          (breaks_rule "android.pull_policy must be always, if-not-present, or never")
      ∷ required_all (λ name. is_required (str_append "android." name))
          (out.arrange (android_fields cfg))
      ∷ [])
