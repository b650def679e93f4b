-- ===== src/Service/Compatible.antt =====
-- Whether a service container that runs can serve another configuration: the two comparisons of
-- internal/servicemanager/service_fingerprint.go.
use Prim.Native.String.{String}
use credimi_runner.Prelude.{
  Bool, true, false, ◌&&◌, not, Option, List, [], ◌∷◌, if◌then◌else◌, str_eq, any,
}
use credimi_runner.Config.{Config}
use credimi_runner.Service.{Projection, Container, projection_for_host}
use credimi_runner.Service.Locality.{HostContext, host_locality_unknown}

-- `ServiceCapabilities`
pub record Capabilities : Type 0 where
  pub needs_host_adb : Bool
  pub needs_usb : Bool
  pub needs_emulator : Bool
  pub redroid_known_hosts : List String
  pub network_mode : String
  pub resolved : Option (String → Option String)

-- `isStringSetSuperset`
unfoldable pub is_superset : List String → List String → Bool
is_superset have [] = true
is_superset have (w ∷ ws) = any (str_eq w) have && is_superset have ws

module _ (c : Container) where
  -- The desired projection with what the container may keep.
  abbrev pub widened : Bool → Bool → Bool → List String → Projection → Projection
  widened adb usb emulator hosts d = record d {
    needs_host_adb = if adb then true else d.needs_host_adb;
    needs_usb = if usb then true else d.needs_usb;
    needs_emulator = if emulator then true else d.needs_emulator;
    redroid_known_hosts = c.sort hosts;
  }

  -- The comparison of two projections.
  abbrev pub covers : Projection → Projection → Bool
  covers a d =
      if is_superset a.redroid_known_hosts d.redroid_known_hosts
      then str_eq (c.fingerprint a) (
          c.fingerprint
            (widened a.needs_host_adb a.needs_usb a.needs_emulator a.redroid_known_hosts d))
      else false

  -- `ServiceConfigsCompatibleWithHost`
  unfoldable pub configs_compatible_with_host : Config → Config → Bool → HostContext → Bool
  unfolding host_locality_unknown projection_for_host is_superset
  configs_compatible_with_host applied desired configured host =
      if host_locality_unknown c.net desired host
      then false
      else covers (projection_for_host c applied configured host)
          (projection_for_host c desired configured host)

  -- The host of the Dashboard, with what the host process has resolved.
  abbrev pub host_of : Capabilities → HostContext
  host_of k = record {
    os = c.goos;
    before_setup = false;
    host_addresses = [];
    resolved = k.resolved;
  }

  -- The comparison of a projection with a fingerprint and the capabilities behind it.
  abbrev pub covers_by_fingerprint : String → Capabilities → Projection → Bool
  covers_by_fingerprint applied k d =
      if not (str_eq k.network_mode "") && not (str_eq d.network_mode k.network_mode)
      then false
      else if is_superset k.redroid_known_hosts d.redroid_known_hosts
      then str_eq
          (c.fingerprint
            (widened k.needs_host_adb k.needs_usb k.needs_emulator k.redroid_known_hosts d))
          applied
      else false

  -- `ServiceConfigCompatibleWithFingerprint`
  unfoldable pub compatible_with_fingerprint : Config → Bool → String → Capabilities → Bool
  unfolding host_locality_unknown projection_for_host is_superset
  compatible_with_fingerprint cfg configured applied k =
      if host_locality_unknown c.net cfg (host_of k)
      then false
      else covers_by_fingerprint applied k (projection_for_host c cfg configured (host_of k))
