-- ===== src/Config/Defaults.antt =====
-- Defaults, directories and redaction of a configuration: internal/config/defaults.go, paths.go,
-- address.go and `Redacted` of store.go.
use credimi_runner.Prelude.{ℕ, ◌*◌, not, String, str_eq, if◌then◌else◌, List, [], ◌∷◌}
use credimi_runner.GoError.{GoError, wrap, Result, ok, err}
use credimi_runner.Strings.{trim_space, is_blank}
use credimi_runner.Strings.Numbers.{is_zero}
use credimi_runner.Strings.Addresses.{join_host_port}
use credimi_runner.Config.{Config, GoInt, pos, ServerConfig, StorageConfig, AndroidConfig}
use credimi_runner.Config.Checks.{wifi_port_default}

-- `if s == "" { s = default }`, and the same for a number.
abbrev pub text_or : String → String → String
text_or s default = if str_eq s "" then default else s

abbrev pub int_or : GoInt → GoInt → GoInt
int_or n default = if is_zero n then default else n

-- A `time.Duration` counts nanoseconds.
abbrev second : ℕ
second = 1000000000

abbrev pub one_minute : GoInt
one_minute = pos (60 * second)

abbrev pub half_minute : GoInt
half_minute = pos (30 * second)

abbrev pub one_week : GoInt
one_week = pos (168 * 3600 * second)

abbrev pub default_android : AndroidConfig → AndroidConfig
default_android a = record a {
  runner_image = text_or a.runner_image "ghcr.io/forkbombeu/credimi-runner:latest";
  pull_policy = text_or a.pull_policy "if-not-present";
  network = text_or a.network "credimi-runner";
  state_volume = text_or a.state_volume "credimi-runner-state";
  tool_cache_volume = text_or a.tool_cache_volume "credimi-runner-tools";
  sdk_volume = text_or a.sdk_volume "credimi-runner-sdk";
}

abbrev pub default_server : ServerConfig → ServerConfig
default_server s = record s {
  api_listen = text_or s.api_listen "0.0.0.0:8050";
  dashboard_listen = text_or s.dashboard_listen "0.0.0.0:8051";
  read_header_timeout = int_or s.read_header_timeout one_minute;
  shutdown_timeout = int_or s.shutdown_timeout half_minute;
}

-- `filepath.Join`, the environment, and what `os.UserHomeDir`,
-- `os.UserConfigDir` and `filepath.Abs` answer.
pub record Host : Type 0 where
  pub join : List String → String
  pub env : String → String
  pub home_dir : Result String
  pub config_dir : Result String
  pub abs : String → Result String

abbrev pub map_ok : {A B : Type 0} → (A → B) → (GoError → GoError) → Result A → Result B
map_ok f g (ok a) = ok (f a)
map_ok f g (err e) = err (g e)

abbrev pub identity : GoError → GoError
identity e = e

module _ (host : Host) where
  -- `DefaultStateDir`
  unfoldable pub default_state_dir : Result String
  default_state_dir =
      let dir = trim_space (host.env "XDG_STATE_HOME") in
      map_ok (λ d. host.join (d ∷ "credimi-runner" ∷ [])) identity
        (if str_eq dir ""
          then map_ok (λ home. host.join (home ∷ ".local" ∷ "state" ∷ []))
              (wrap "resolve user home directory") host.home_dir
          else ok dir)

  -- `DefaultPath`
  unfoldable pub default_path : Result String
  default_path =
      map_ok (λ dir. host.join (dir ∷ "credimi-runner" ∷ "config.toml" ∷ []))
        (wrap "resolve user config directory") host.config_dir

  -- `ResolvePath`
  unfoldable pub resolve_path : String → Result String
  unfolding default_path
  resolve_path explicit = if not (is_blank explicit) then host.abs explicit else default_path

  -- The directories of `ApplyDefaults`.
  abbrev pub state_dir : StorageConfig → Result String
  state_dir s = if str_eq s.state_dir "" then default_state_dir else ok s.state_dir

  abbrev pub with_state_dir : Config → String → Config
  with_state_dir cfg dir = record cfg {
    server = default_server cfg.server;
    exposure = record cfg.exposure { mode = text_or cfg.exposure.mode "manual" };
    storage = record cfg.storage {
      artifact_retention = int_or cfg.storage.artifact_retention one_week;
      state_dir = dir;
      temp_dir = text_or cfg.storage.temp_dir (host.join (dir ∷ "tmp" ∷ []));
    };
    android = default_android cfg.android;
  }

  -- `ApplyDefaults`. Its callers drop the configuration that an error leaves half done.
  unfoldable pub apply_defaults : Config → Result Config
  apply_defaults cfg = map_ok (with_state_dir cfg) identity (state_dir cfg.storage)

-- `AndroidWiFiSerial`
unfoldable pub android_wifi_serial : String → String → String
android_wifi_serial ip port =
    let host = trim_space ip in
    let number = text_or (trim_space port) wifi_port_default in
    if str_eq host "" then "" else join_host_port host number

-- `Redacted`
abbrev pub hidden : String → String
hidden s = if str_eq s "" then s else "[redacted]"

unfoldable pub redacted : Config → Config
redacted cfg = record cfg {
  credimi = record cfg.credimi {
    user_api_key = hidden cfg.credimi.user_api_key;
    internal_admin_key = hidden cfg.credimi.internal_admin_key;
  };
  server = record cfg.server { dashboard_token = hidden cfg.server.dashboard_token };
  exposure = record cfg.exposure { cloudflare_token = hidden cfg.exposure.cloudflare_token };
}
