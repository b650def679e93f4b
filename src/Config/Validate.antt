-- ===== src/Config/Validate.antt =====
-- `ValidateForPlatform`, internal/config/validate.go.
use credimi_runner.Prelude.{◌&&◌, String, str_append, Option, some, [], ◌∷◌, leb}
use credimi_runner.GoError.{or_else}
use credimi_runner.Strings.{has_prefix}
use credimi_runner.Strings.Numbers.{is_positive, int_eq}
use credimi_runner.Config.{Config, schema_version_current, pos}
use credimi_runner.Config.Checks.{
  ConfigError, bad_schema_version, breaks_rule, Outside, first_error, must, required, is_canonical,
  is_absolute, is_abs, validate_auth, validate_listen, validate_exposure, validate_android,
}
use credimi_runner.Config.Devices.{Checked, accepted, rejected, check_devices, nothing_seen}

-- The checks after the loop over the devices.
abbrev pub validate_counts : Checked → Option ConfigError
validate_counts (rejected e) = some e
validate_counts (accepted s) = first_error (
    must (leb s.emulators 1) (breaks_rule "only one Android emulator device is allowed")
    ∷ must (leb s.simulators 1) (breaks_rule "only one iOS Simulator device is allowed")
    ∷ [])

module _ (out : Outside) where
  -- The checks before the loop over the devices.
  unfoldable pub validate_head : Config → Option ConfigError
  validate_head cfg = first_error (
      must (int_eq cfg.schema_version (pos schema_version_current))
        (bad_schema_version cfg.schema_version)
      ∷ required "runner.id" cfg.runner.id
      ∷ must (is_canonical cfg.runner.id)
          (breaks_rule "runner.id must be a canonical organization/name ID")
      ∷ required "runner.name" cfg.runner.name
      ∷ required "runner.organization" cfg.runner.organization
      ∷ must (has_prefix cfg.runner.id (str_append cfg.runner.organization "/"))
          (breaks_rule "runner.id must belong to runner.organization")
      ∷ required "credimi.url" cfg.credimi.url
      ∷ must (is_absolute (out.parse_request_uri cfg.credimi.url))
          (breaks_rule "credimi.url must be an absolute URL")
      ∷ validate_auth cfg.credimi
      ∷ required "temporal.address" cfg.temporal_address
      ∷ validate_listen "server.api_listen" cfg.server.api_listen
      ∷ validate_listen "server.dashboard_listen" cfg.server.dashboard_listen
      ∷ must (is_positive cfg.server.read_header_timeout && is_positive cfg.server.shutdown_timeout)
          (breaks_rule "server durations must be positive")
      ∷ must (is_positive cfg.storage.artifact_retention)
          (breaks_rule "storage.artifact_retention must be positive")
      ∷ required "storage.state_dir" cfg.storage.state_dir
      ∷ must (is_abs cfg.storage.state_dir) (breaks_rule "storage.state_dir must be absolute")
      ∷ validate_exposure out cfg.exposure
      ∷ validate_android out cfg.android
      ∷ [])

  unfoldable pub validate_for_platform : Config → String → Option ConfigError
  unfolding validate_head check_devices
  validate_for_platform cfg goos =
      or_else (validate_head cfg)
        (validate_counts (check_devices out goos cfg.runner.id 0 cfg.devices nothing_seen))
