-- ===== src/Config.antt =====
-- The typed runner configuration, internal/config/model.go: one record for each struct. The
-- `toml` tags, which only the decoder reads, are left out.
pub mod Checks
pub mod Devices
pub mod Validate
pub mod Valid
pub mod DeviceRules
pub mod DeviceLoop
pub mod TableRules
pub mod Soundness
pub mod Defaults
pub mod Ports
pub mod Filled
pub mod Store
pub mod Loading
pub mod RoundTrip
mod Tests
use credimi_runner.Prelude.{ℕ, String, Bool, true, false, Option, List, []}

-- `DeviceType`, a string in the source: the four names it declares, or any other text.
pub data DeviceType : Type 0 where
  android_physical android_emulator redroid ios_simulator : DeviceType
  other_type : String → DeviceType

-- A Go `int` or `time.Duration` read from the file may be negative.
pub data GoInt : Type 0 where
  pos : ℕ → GoInt
  negsuc : ℕ → GoInt

pub record RunnerConfig : Type 0 where
  pub id : String
  pub name : String
  pub organization : String
  pub description : String
  pub published : Bool

pub record CredimiConfig : Type 0 where
  pub url : String
  pub auth_mode : String
  pub user_api_key : String
  pub internal_admin_key : String

pub record ServerConfig : Type 0 where
  pub api_listen : String
  pub dashboard_listen : String
  pub open_browser : Bool
  pub dashboard_token : String
  pub read_header_timeout : GoInt
  pub shutdown_timeout : GoInt

pub record ExposureConfig : Type 0 where
  pub mode : String
  pub public_url : String
  pub public_port : String
  pub domain : String
  pub cloudflare_token : String

pub record ObservabilityConfig : Type 0 where
  pub enabled : Bool
  pub service_name : String
  pub otlp_endpoint : String

pub record StorageConfig : Type 0 where
  pub state_dir : String
  pub temp_dir : String
  pub artifact_retention : GoInt

pub record AndroidConfig : Type 0 where
  pub runner_image : String
  pub pull_policy : String
  pub network : String
  pub state_volume : String
  pub tool_cache_volume : String
  pub sdk_volume : String
  pub adb_keys_path : String
  pub screen_record_size : String

pub record AndroidPhysicalConfig : Type 0 where
  pub transport : String
  pub serial : String
  pub wifi_ip : String
  pub wifi_port : String

pub record AndroidEmulatorConfig : Type 0 where
  pub api_level : GoInt
  pub abi : String
  pub system_image : String
  pub base_name : String
  pub golden_source : String
  pub headless : Bool
  pub memory_mb : GoInt
  pub cores : GoInt

pub record RedroidConfig : Type 0 where
  pub host : String
  pub image : String
  pub data_dir : String
  pub data_archive : String
  pub adb_port : GoInt
  pub avdctl_ssh_target : String
  pub avdctl_ssh_password : String
  pub avdctl_ssh_known_hosts_path : String
  pub avdctl_sudo : Bool
  pub avdctl_sudo_password : String

pub record IosSimulatorConfig : Type 0 where
  pub udid : String

-- A nil pointer to a subtable is `none`.
pub record DeviceConfig : Type 0 where
  pub id : String
  pub name : String
  pub description : String
  pub device_type : DeviceType
  pub enabled : Bool
  pub physical : Option AndroidPhysicalConfig
  pub emulator : Option AndroidEmulatorConfig
  pub redroid_config : Option RedroidConfig
  pub simulator : Option IosSimulatorConfig

-- `active`, the pointer to the generation's activated configuration, is the field
-- `active_config` of the generation in this development.
pub record Config : Type 0 where
  pub schema_version : GoInt
  pub runner : RunnerConfig
  pub credimi : CredimiConfig
  pub temporal_address : String
  pub server : ServerConfig
  pub exposure : ExposureConfig
  pub observability : ObservabilityConfig
  pub storage : StorageConfig
  pub android : AndroidConfig
  pub devices : List DeviceConfig

abbrev pub schema_version_current : ℕ
schema_version_current = 1

-- `Bootstrap`: the zero value but for the fields that it sets.
unfoldable pub bootstrap : Config
bootstrap = record {
  schema_version = pos schema_version_current;
  runner = record { id = ""; name = ""; organization = ""; description = ""; published = false };
  credimi = record { url = ""; auth_mode = "user"; user_api_key = ""; internal_admin_key = "" };
  temporal_address = "";
  server = record {
    api_listen = "0.0.0.0:8050";
    dashboard_listen = "0.0.0.0:8051";
    open_browser = true;
    dashboard_token = "";
    read_header_timeout = pos 0;
    shutdown_timeout = pos 0;
  };
  exposure = record {
    mode = "quick_tunnel";
    public_url = "";
    public_port = "";
    domain = "";
    cloudflare_token = "";
  };
  observability = record { enabled = false; service_name = ""; otlp_endpoint = "" };
  storage = record { state_dir = ""; temp_dir = ""; artifact_retention = pos 0 };
  android = record {
    runner_image = "";
    pull_policy = "";
    network = "";
    state_volume = "";
    tool_cache_volume = "";
    sdk_volume = "";
    adb_keys_path = "";
    screen_record_size = "";
  };
  devices = [];
}
