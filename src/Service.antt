-- ===== src/Service.antt =====
-- What the service container of the runner depends on: the projection of the configuration in
-- internal/servicemanager/service_fingerprint.go. `url.Parse`, `net`, the case of letters,
-- `sort.Strings`, the addresses on which the container listens and the digest are parameters.
pub mod Locality
pub mod Compatible
pub mod Laws
pub mod Exported
mod Tests
use Prim.Native.String.{String}
use credimi_runner.Prelude.{
  Bool, true, false, ◌||◌, ◌&&◌, not, Option, none, some, List, [], ◌∷◌, if◌then◌else◌, str_eq, any,
}
use credimi_runner.Config.{
  Config, GoInt, DeviceConfig, DeviceType, android_physical, android_emulator, redroid,
  ios_simulator, other_type, AndroidPhysicalConfig, RedroidConfig,
}
use credimi_runner.Strings.{trim_space, is_blank}
use credimi_runner.Service.Locality.{Net, HostContext, host_local_dependencies, is_manual_exposure}

-- `serviceAndroidProjection`
pub record AndroidProjection : Type 0 where
  pub runner_image : String
  pub pull_policy : String
  pub network : String
  pub state_volume : String
  pub tool_cache_volume : String
  pub sdk_volume : String
  pub adb_keys_path : String

-- `serviceConfigProjection`. A timeout is the duration whose text the source stores.
pub record Projection : Type 0 where
  pub configured : Bool
  pub api_published_port : String
  pub dashboard_listen : String
  pub dashboard_published_port : String
  pub dashboard_publish_host : String
  pub read_header_timeout : GoInt
  pub shutdown_timeout : GoInt
  pub api_publish_host : String
  pub network_mode : String
  pub android : AndroidProjection
  pub needs_host_adb : Bool
  pub needs_usb : Bool
  pub needs_emulator : Bool
  pub redroid_known_hosts : List String

-- What the loop over the devices collects, the known hosts as a set.
pub record Needs : Type 0 where
  pub host_adb : Bool
  pub usb : Bool
  pub emulator : Bool
  pub known_hosts : List String

abbrev pub default_redroid_known_hosts : String
default_redroid_known_hosts = "<host-default-known-hosts>"

abbrev pub with_known_host : String → Needs → Needs
with_known_host path n =
    if str_eq path "" || any (str_eq path) n.known_hosts
    then n
    else record n { known_hosts = path ∷ n.known_hosts }

abbrev pub needs_physical : Option AndroidPhysicalConfig → Needs → Needs
unfolding trim_space
needs_physical none n = n
needs_physical (some p) n =
    let transport = trim_space p.transport in
    if str_eq transport "usb"
    then record n { usb = true; host_adb = true }
    else if str_eq transport "wifi"
    then record n { host_adb = true }
    else n

abbrev pub needs_redroid : Option RedroidConfig → Needs → Needs
unfolding trim_space is_blank
needs_redroid none n = n
needs_redroid (some r) n =
    let path = trim_space r.avdctl_ssh_known_hosts_path in
    with_known_host
      (if str_eq path "" && not (is_blank r.avdctl_ssh_target)
        then default_redroid_known_hosts
        else path)
      n

abbrev pub needs_of_type : DeviceType → DeviceConfig → Needs → Needs
unfolding trim_space is_blank
needs_of_type android_physical d n = needs_physical d.physical n
needs_of_type android_emulator d n = record n { emulator = true }
needs_of_type redroid d n = needs_redroid d.redroid_config n
needs_of_type ios_simulator d n = n
needs_of_type (other_type name) d n = n

-- The loop over the devices.
unfoldable pub device_needs : List DeviceConfig → Needs → Needs
unfolding trim_space is_blank
device_needs [] n = n
device_needs (d ∷ ds) n =
    let next = if d.enabled then needs_of_type d.device_type d n else n in device_needs ds next

-- What is called outside the file: `config.ApplyDefaults`, as it leaves the configuration, the port of
-- `listenPort`, and the host and port of `dashboardBindListen`.
pub record Container : Type 0 where
  pub net : Net
  pub goos : String
  pub apply_defaults : Config → Config
  pub listen_port : String → String → String
  pub dashboard_bind_listen : String → String × String
  pub join_host_port : String → String → String
  pub sort : List String → List String
  pub fingerprint : Projection → String

module _ (c : Container) where
  -- `serviceNeedsUSB`
  abbrev pub is_usb_device : DeviceConfig → Bool
  unfolding trim_space
  is_usb_device d = elim d.physical [
    | none ↦ false
    | some p ↦
        d.enabled && is_physical d.device_type && c.net.equal_fold (trim_space p.transport) "usb"
  ]
    where
      is_physical : DeviceType → Bool
      is_physical android_physical = true
      is_physical android_emulator = false
      is_physical redroid = false
      is_physical ios_simulator = false
      is_physical (other_type name) = false

  -- `ServiceNetworkModeForConfig`
  unfoldable pub network_mode_for : Config → HostContext → String
  unfolding trim_space host_local_dependencies
  network_mode_for cfg host =
      let os = if str_eq host.os "" then c.goos else host.os in
      if c.net.equal_fold (trim_space cfg.android.network) "host"
      then "host"
      else if not (str_eq os "linux")
      then "bridge"
      else if host.before_setup
          || any is_usb_device cfg.devices
          || host_local_dependencies c.net cfg host
      then "host"
      else "bridge"

  -- `serviceAPIPublishHost`
  unfoldable pub api_publish_host_for : Config → HostContext → String
  unfolding network_mode_for is_manual_exposure
  api_publish_host_for cfg host =
      if str_eq (network_mode_for cfg host) "host"
      then ""
      else if is_manual_exposure c.net cfg.exposure.mode
      then "0.0.0.0"
      else "127.0.0.1"

  -- The ports, which depend on the network mode.
  abbrev pub dashboard_address : Config → String
  dashboard_address cfg =
      let address = c.dashboard_bind_listen cfg.server.dashboard_listen in
      c.join_host_port address.0 address.1

  abbrev pub on_bridge : String → String → String
  on_bridge mode s = if str_eq mode "host" then "" else s

  abbrev pub projected : Config → Bool → HostContext → Needs → Projection
  unfolding network_mode_for api_publish_host_for
  projected cfg configured host n =
      let mode = network_mode_for cfg host in
      record {
        configured = configured;
        api_published_port = on_bridge mode (c.listen_port cfg.server.api_listen "8050");
        dashboard_listen = if str_eq mode "host" then dashboard_address cfg else "";
        dashboard_published_port =
            on_bridge mode (c.listen_port cfg.server.dashboard_listen "8051");
        dashboard_publish_host =
            on_bridge mode (c.dashboard_bind_listen cfg.server.dashboard_listen).0;
        read_header_timeout = cfg.server.read_header_timeout;
        shutdown_timeout = cfg.server.shutdown_timeout;
        api_publish_host = api_publish_host_for cfg host;
        network_mode = mode;
        android = record {
          runner_image = cfg.android.runner_image;
          pull_policy = cfg.android.pull_policy;
          network = cfg.android.network;
          state_volume = cfg.android.state_volume;
          tool_cache_volume = cfg.android.tool_cache_volume;
          sdk_volume = cfg.android.sdk_volume;
          adb_keys_path = cfg.android.adb_keys_path;
        };
        needs_host_adb = n.host_adb;
        needs_usb = n.usb;
        needs_emulator = n.emulator;
        redroid_known_hosts = c.sort n.known_hosts;
      }

  abbrev pub no_needs : Bool → Needs
  no_needs configured = record {
    host_adb = not configured;
    usb = false;
    emulator = false;
    known_hosts = [];
  }

  -- `serviceConfigProjectionForHost`
  unfoldable pub projection_for_host : Config → Bool → HostContext → Projection
  unfolding device_needs network_mode_for api_publish_host_for
  projection_for_host cfg configured host =
      let full = c.apply_defaults cfg in
      projected full configured host (device_needs full.devices (no_needs configured))
