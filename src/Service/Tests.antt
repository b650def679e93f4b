-- ===== src/Service/Tests.antt =====
-- The comparison of service containers at concrete configurations.
use Prim.Native.String.{String}
use credimi_runner.Prelude.{
  true, false, ◌≡◌, ◌↔◌, refl, inr, if◌then◌else◌, Option, none, some, [], ◌∷◌, str_eq, str_append,
}
use credimi_runner.Config.{Config, DeviceConfig, android_physical, bootstrap}
use credimi_runner.Strings.{trim_space, trim_left, trim_right, is_blank}
use credimi_runner.Service.{
  Container, projection_for_host, network_mode_for, api_publish_host_for, device_needs,
}
use credimi_runner.Service.Locality.{
  Net, HostContext, host_locality_unknown, host_local_dependencies, host_is_local_url,
  host_is_local_address, host_name_locality, is_manual_exposure, normalize_hostname,
  dependency_hostnames, trim_brackets, trim_left_brackets, trim_right_brackets, without_dot,
}
use credimi_runner.Service.Compatible.{
  Capabilities, configs_compatible_with_host, compatible_with_fingerprint, host_of, is_superset,
}
use credimi_runner.Service.Laws.{Covers, HostsKnown, configs_compatible_iff}
use credimi_runner.Service.Exported.{compatible_with_fingerprint-agrees}

abbrev net : Net
net = record {
  to_lower = λ s. s;
  equal_fold = str_eq;
  parse_ip = λ s. none;
  equal_ip = λ a b. str_eq a.text b.text;
  hostname = λ s. if_url s;
  split_host = λ s. none;
}
  where
    if_url : String → Option String
    if_url s = if str_eq s "https://credimi.io" then some "credimi.io" else none

abbrev container : Container
container = record {
  net = net;
  goos = "linux";
  apply_defaults = λ cfg. cfg;
  listen_port = λ address port. port;
  dashboard_bind_listen = λ address. ("127.0.0.1", "8051");
  join_host_port = λ h p. str_append h p;
  sort = λ xs. xs;
  fingerprint = λ p. if p.needs_host_adb then "adb" else "none";
}

abbrev phone : DeviceConfig
phone = record {
  id = "acme/lab/phone";
  name = "Phone";
  description = "";
  device_type = android_physical;
  enabled = true;
  physical =
      some (record { transport = "wifi"; serial = ""; wifi_ip = "10.0.0.5"; wifi_port = "" });
  emulator = none;
  redroid_config = none;
  simulator = none;
}

abbrev bare : Config
bare = record bootstrap { credimi = record bootstrap.credimi { url = "https://credimi.io" } }

abbrev with_phone : Config
with_phone = record bare { devices = phone ∷ [] }

-- The host process has found that Credimi is elsewhere.
abbrev exported : Capabilities
exported = record {
  needs_host_adb = true;
  needs_usb = false;
  needs_emulator = false;
  redroid_known_hosts = [];
  network_mode = "bridge";
  resolved = some (λ name. some "");
}

abbrev host : HostContext
host = host_of container exported

-- A container with a phone on Wi-Fi serves a configuration without it, and not the other way round.
keeps_phone :
    (configs_compatible_with_host container with_phone bare true host ≡ true)
    × (configs_compatible_with_host container bare with_phone true host ≡ false)
unfolding configs_compatible_with_host projection_for_host network_mode_for api_publish_host_for
    device_needs host_locality_unknown host_local_dependencies host_is_local_url
    host_is_local_address host_name_locality is_manual_exposure normalize_hostname
    dependency_hostnames trim_brackets trim_left_brackets trim_right_brackets without_dot
    is_superset trim_space trim_left trim_right is_blank bootstrap
keeps_phone = (refl, refl)

configs_compatible_iff_example :
    (configs_compatible_with_host container with_phone bare true host ≡ true) ↔ (
      HostsKnown container bare host
      × Covers container
          (projection_for_host container with_phone true host)
          (projection_for_host container bare true host))
unfolding configs_compatible_with_host projection_for_host network_mode_for api_publish_host_for
    device_needs host_locality_unknown host_local_dependencies host_is_local_url
    host_is_local_address host_name_locality is_manual_exposure normalize_hostname
    dependency_hostnames trim_brackets trim_left_brackets trim_right_brackets without_dot
    is_superset trim_space trim_left trim_right is_blank bootstrap
configs_compatible_iff_example =
    configs_compatible_iff container with_phone bare true host (λ e. refl) (λ xs. refl)

compatible_with_fingerprint-agrees_example :
    compatible_with_fingerprint container bare true
      (container.fingerprint (projection_for_host container with_phone true host))
      exported
    ≡ configs_compatible_with_host container with_phone bare true host
unfolding configs_compatible_with_host projection_for_host network_mode_for api_publish_host_for
    device_needs host_locality_unknown host_local_dependencies host_is_local_url
    host_is_local_address host_name_locality is_manual_exposure normalize_hostname
    dependency_hostnames trim_brackets trim_left_brackets trim_right_brackets without_dot
    is_superset trim_space trim_left trim_right is_blank bootstrap
compatible_with_fingerprint-agrees_example =
    compatible_with_fingerprint-agrees container with_phone bare true exported (λ e. refl)
      (λ xs. refl)
      (record { adb = refl; usb = refl; emulator = refl; hosts = refl; mode = inr refl })
