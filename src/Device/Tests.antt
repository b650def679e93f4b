-- ===== src/Device/Tests.antt =====
-- The gates with one grant out, and given back.
use credimi_runner.Prelude.{◌≡◌, refl, false, none, arith}
use credimi_runner.Device.Gate.{Gates, new_gates, granted, acquire, release}
use credimi_runner.Device.Exclusion.{
  Reachable, starts_empty, goes_on, acquires, releases, IsExclusive, Reachable-IsExclusive,
  acquire-release,
}
use credimi_runner.Prelude.{[], ◌∷◌, String, true}
use credimi_runner.Config.{DeviceConfig, android_physical}
use credimi_runner.Device.Registry.{
  found, Registry, replace, resolve, resolve_enabled, devices_from_config, collect,
}

one_out : Gates
unfolding acquire new_gates
one_out = (acquire none none "pixel" new_gates).0

one_back : Gates
unfolding one_out release
one_back = release 0 one_out

one_out-Reachable : Reachable one_out
unfolding one_out
one_out-Reachable = goes_on starts_empty (acquires none none "pixel")

one_back-Reachable : Reachable one_back
unfolding one_back one_out acquire new_gates
one_back-Reachable = goes_on one_out-Reachable (releases 0 (omega arith))

out_unused : (one_out.grants 0).used ≡ false
unfolding one_out acquire new_gates
out_unused = refl

Reachable-IsExclusive_example : IsExclusive one_back
Reachable-IsExclusive_example = Reachable-IsExclusive one_back-Reachable

acquire-release_example :
    (acquire none none (one_out.grants 0).device (release 0 one_out)).1 ≡ granted one_out.fresh
acquire-release_example = acquire-release 0 one_out out_unused

abbrev a_device : String → DeviceConfig
a_device id = record {
  id = id;
  name = "Phone";
  description = "";
  device_type = android_physical;
  enabled = true;
  physical = none;
  emulator = none;
  redroid_config = none;
  simulator = none;
}

abbrev unfilled : Registry
unfilled = record { current = none }

filled : Registry
unfolding replace devices_from_config collect
filled = (replace (a_device "b" ∷ a_device "a" ∷ []) unfilled).0

a_found : resolve_enabled "a" filled ≡ found (a_device "a")
unfolding filled replace devices_from_config collect resolve_enabled resolve
a_found = refl
