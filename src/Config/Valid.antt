-- ===== src/Config/Valid.antt =====
-- What a valid configuration is, said field by field, without the order of the checks.
use credimi_runner.Prelude.{
  ℕ, ◌≤◌, ◌+◌, Bool, true, false, ◌≡◌, ◌⊎◌, String, str_append, Option, none, some, List, [], ◌∷◌,
  All, NoDup, codes,
}
use credimi_runner.Strings.{is_blank, has_prefix, contains, trim_space}
use credimi_runner.Strings.Numbers.{is_port, is_positive}
use credimi_runner.Strings.Addresses.{split_host_port, host_and_port}
use credimi_runner.Config.{
  Config, schema_version_current, GoInt, pos, CredimiConfig, ExposureConfig, AndroidConfig,
  DeviceConfig, DeviceType, android_physical, android_emulator, redroid, ios_simulator, other_type,
  AndroidPhysicalConfig, AndroidEmulatorConfig, RedroidConfig, IosSimulatorConfig,
}
use credimi_runner.Config.Checks.{Outside, is_canonical, valid_port, is_absolute, has_host, is_abs}
use credimi_runner.Config.Devices.{wifi_port, address, one, is_emulator, is_simulator}

abbrev pub NotBlank : String → Type 0
NotBlank s = is_blank s ≡ false

abbrev pub Blank : String → Type 0
Blank s = is_blank s ≡ true

abbrev pub Positive : GoInt → Type 0
Positive n = is_positive n ≡ true

-- One of the ways to address a phone, and nothing of the others.
abbrev pub FitsPhysical : AndroidPhysicalConfig → Type 0
FitsPhysical p =
    ((p.transport ≡ "usb") × NotBlank p.serial × (p.wifi_ip ≡ "") × (p.wifi_port ≡ ""))
    ⊎ ((p.transport ≡ "wifi")
        × NotBlank p.wifi_ip
        × (p.serial ≡ "")
        × (valid_port (wifi_port p) ≡ true))
    ⊎ ((p.transport ≡ "no_device") × (p.serial ≡ "") × (p.wifi_ip ≡ "") × (p.wifi_port ≡ ""))

abbrev pub Desktop : String → Type 0
Desktop goos = (goos ≡ "linux") ⊎ (goos ≡ "darwin")

abbrev pub FitsEmulator : String → AndroidEmulatorConfig → Type 0
FitsEmulator goos e =
    Desktop goos
    × NotBlank e.abi
    × NotBlank e.system_image
    × NotBlank e.base_name
    × NotBlank e.golden_source
    × Positive e.api_level
    × Positive e.memory_mb
    × Positive e.cores

abbrev pub FitsRedroid : String → RedroidConfig → Type 0
FitsRedroid goos r =
    Desktop goos
    × NotBlank r.host
    × NotBlank r.image
    × NotBlank r.data_dir
    × NotBlank r.data_archive
    × (is_port r.adb_port ≡ true)

abbrev pub FitsSimulator : String → IosSimulatorConfig → Type 0
FitsSimulator goos s = (goos ≡ "darwin") × NotBlank s.udid

-- The device has the subtable of its type, which fits, and no other.
abbrev pub FitsType : String → DeviceConfig → DeviceType → Type 0
FitsType goos d android_physical =
    (p : AndroidPhysicalConfig) × (d.physical ≡ some p)
    × (d.emulator ≡ none)
    × (d.redroid_config ≡ none)
    × (d.simulator ≡ none)
    × FitsPhysical p
FitsType goos d android_emulator =
    (e : AndroidEmulatorConfig) × (d.physical ≡ none)
    × (d.emulator ≡ some e)
    × (d.redroid_config ≡ none)
    × (d.simulator ≡ none)
    × FitsEmulator goos e
FitsType goos d redroid =
    (r : RedroidConfig) × (d.physical ≡ none)
    × (d.emulator ≡ none)
    × (d.redroid_config ≡ some r)
    × (d.simulator ≡ none)
    × FitsRedroid goos r
FitsType goos d ios_simulator =
    (s : IosSimulatorConfig) × (d.physical ≡ none)
    × (d.emulator ≡ none)
    × (d.redroid_config ≡ none)
    × (d.simulator ≡ some s)
    × FitsSimulator goos s
FitsType goos d (other_type t) = ⊥

-- A device below a runner, by itself.
abbrev pub FitsDevice : String → String → DeviceConfig → Type 0
FitsDevice goos runner_id d =
    NotBlank d.id
    × (has_prefix d.id (str_append runner_id "/") ≡ true)
    × (is_canonical d.id ≡ true)
    × NotBlank d.name
    × FitsType goos d d.device_type

abbrev pub add_key : Option (String × String) → List String → List String
add_key none keys = keys
add_key (some (key, label)) keys = key ∷ keys

-- What the validation compares as the addresses of the devices, in order: the IP of a phone on
-- Wi-Fi is taken as it is written.
abbrev pub addresses : List DeviceConfig → List String
addresses [] = []
addresses (d ∷ ds) = add_key (address d) (addresses ds)

abbrev pub count : (DeviceType → Bool) → List DeviceConfig → ℕ
count p [] = 0
count p (d ∷ ds) = one (p d.device_type) + count p ds

abbrev pub ids : List DeviceConfig → List String
ids [] = []
ids (d ∷ ds) = d.id ∷ ids ds

abbrev pub names : List DeviceConfig → List String
names [] = []
names (d ∷ ds) = d.name ∷ names ds

-- The credentials of one of the two modes, and not those of the other.
abbrev pub FitsAuth : CredimiConfig → Type 0
FitsAuth c =
    ((c.auth_mode ≡ "user") × NotBlank c.user_api_key × Blank c.internal_admin_key)
    ⊎ ((c.auth_mode ≡ "internal_admin") × NotBlank c.internal_admin_key × Blank c.user_api_key)

-- An address of a host and a port.
abbrev pub FitsListen : String → Type 0
FitsListen value = (h : List ℕ) × (p : List ℕ) × (split_host_port (codes value) ≡ host_and_port h p)

-- A public URL, or a tunnel with the credentials of its kind; and a port, if one is given.
abbrev pub FitsMode : Outside → ExposureConfig → Type 0
FitsMode out x =
    ((x.mode ≡ "manual")
      × NotBlank x.public_url
      × (is_absolute (out.parse_request_uri x.public_url) ≡ true))
    ⊎ ((x.mode ≡ "quick_tunnel") × Blank x.cloudflare_token)
    ⊎ ((x.mode ≡ "named_tunnel")
        × NotBlank x.domain
        × NotBlank x.cloudflare_token
        × (contains x.domain "://" ≡ true → has_host (out.parse_request_uri x.domain) ≡ true))

abbrev pub FitsExposure : Outside → ExposureConfig → Type 0
FitsExposure out x =
    (Blank x.public_port ⊎ (valid_port (trim_space x.public_port) ≡ true)) × FitsMode out x

abbrev pub FitsAndroid : AndroidConfig → Type 0
FitsAndroid a =
    NotBlank a.runner_image
    × ((a.pull_policy ≡ "always") ⊎ (a.pull_policy ≡ "if-not-present") ⊎ (a.pull_policy ≡ "never"))
    × NotBlank a.network
    × NotBlank a.state_volume
    × NotBlank a.tool_cache_volume
    × NotBlank a.sdk_volume

-- A valid configuration for a platform: what each table asks for, and what the devices ask of
-- each other.
pub record IsValid (out : Outside) (goos : String) (cfg : Config) : Type 0 where
  pub schema : cfg.schema_version ≡ pos schema_version_current
  pub runner_id : NotBlank cfg.runner.id
  pub canonical : is_canonical cfg.runner.id ≡ true
  pub runner_name : NotBlank cfg.runner.name
  pub organization : NotBlank cfg.runner.organization
  pub within : has_prefix cfg.runner.id (str_append cfg.runner.organization "/") ≡ true
  pub url_given : NotBlank cfg.credimi.url
  pub url_absolute : is_absolute (out.parse_request_uri cfg.credimi.url) ≡ true
  pub auth : FitsAuth cfg.credimi
  pub temporal : NotBlank cfg.temporal_address
  pub api_listen : FitsListen cfg.server.api_listen
  pub dashboard_listen : FitsListen cfg.server.dashboard_listen
  pub durations : Positive cfg.server.read_header_timeout × Positive cfg.server.shutdown_timeout
  pub retention : Positive cfg.storage.artifact_retention
  pub state_dir : NotBlank cfg.storage.state_dir
  pub state_dir_absolute : is_abs cfg.storage.state_dir ≡ true
  pub exposure : FitsExposure out cfg.exposure
  pub android : FitsAndroid cfg.android
  pub devices : All (FitsDevice goos cfg.runner.id) cfg.devices
  pub ids_differ : NoDup (ids cfg.devices)
  pub names_differ : NoDup (names cfg.devices)
  pub addresses_differ : NoDup (addresses cfg.devices)
  pub one_emulator : count is_emulator cfg.devices ≤ 1
  pub one_simulator : count is_simulator cfg.devices ≤ 1
