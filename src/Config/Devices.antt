-- ===== src/Config/Devices.antt =====
-- The validation of devices, internal/config/validate.go: `validateDevice`, `unique` and the loop
-- of `ValidateForPlatform`.
use credimi_runner.Prelude.{
  ℕ, ◌+◌, Bool, true, false, ◌&&◌, ◌||◌, not, String, str_eq, str_append, Option, none, some,
  is_some, List, [], ◌∷◌, if◌then◌else◌, any, ◌==◌,
}
use credimi_runner.Strings.{trim_space, is_blank, has_prefix}
use credimi_runner.Strings.Numbers.{is_port, is_positive, itoa}
use credimi_runner.Strings.Addresses.{join_host_port}
use credimi_runner.Config.{
  DeviceConfig, DeviceType, android_physical, android_emulator, redroid, ios_simulator, other_type,
  AndroidPhysicalConfig, AndroidEmulatorConfig, RedroidConfig, IosSimulatorConfig,
}
use credimi_runner.Config.Checks.{
  ConfigError, device_requires, device_breaks, is_duplicate, Outside, first_error, must,
  required_all, is_canonical, valid_port, wifi_port_default,
}

abbrev pub requires : ℕ → String → String → Option ConfigError
requires i name value = must (not (is_blank value)) (device_requires i name)

-- `unique`: the value joins those seen.
unfoldable pub unique : List String → String → ConfigError → Option ConfigError × List String
unique seen value e = if any (str_eq value) seen then (some e, seen) else (none, value ∷ seen)

-- The tail `return unique(serials, …)` after the other checks of a device.
abbrev pub then_unique :
    Option ConfigError → List String → String → ConfigError → Option ConfigError × List String
then_unique (some x) seen value e = (some x, seen)
then_unique none seen value e = unique seen value e

abbrev pub wifi_port : AndroidPhysicalConfig → String
wifi_port p = if is_blank p.wifi_port then wifi_port_default else trim_space p.wifi_port

abbrev pub one : Bool → ℕ
one b = if b then 1 else 0

-- The number of type-specific subtables.
unfoldable pub subtables : DeviceConfig → ℕ
subtables d =
    one (is_some d.physical)
    + one (is_some d.emulator)
    + one (is_some d.redroid_config)
    + one (is_some d.simulator)

abbrev pub is_desktop : String → Bool
is_desktop goos = str_eq goos "linux" || str_eq goos "darwin"

-- What the device is addressed by, where that must be unique, and the label of the error.
unfoldable pub physical_address : AndroidPhysicalConfig → Option (String × String)
physical_address p =
    if str_eq p.transport "usb"
    then some (p.serial, "android_physical.serial")
    else if str_eq p.transport "wifi"
    then some (join_host_port p.wifi_ip (wifi_port p), "android_physical.wifi")
    else none

unfoldable pub physical_error : ℕ → AndroidPhysicalConfig → Option ConfigError
physical_error i p =
    if str_eq p.transport "usb"
    then first_error (
        requires i "android_physical.serial" p.serial
        ∷ must (str_eq p.wifi_ip "" && str_eq p.wifi_port "")
            (device_breaks i "android_physical.usb must not configure Wi-Fi addressing")
        ∷ [])
    else if str_eq p.transport "wifi"
    then first_error (
        requires i "android_physical.wifi_ip" p.wifi_ip
        ∷ must (str_eq p.serial "")
            (device_breaks i "android_physical.wifi must not configure serial")
        ∷ must (valid_port (wifi_port p))
            (device_breaks i "android_physical.wifi_port must be between 1 and 65535")
        ∷ [])
    else if str_eq p.transport "no_device"
    then must (str_eq p.serial "" && str_eq p.wifi_ip "" && str_eq p.wifi_port "")
        (device_breaks i "android_physical.no_device must not configure an address")
    else some (device_breaks i "android_physical.transport must be wifi, usb, or no_device")

-- What the loop over the devices has seen.
pub record Seen : Type 0 where
  pub ids : List String
  pub names : List String
  pub serials : List String
  pub emulators : ℕ
  pub simulators : ℕ

abbrev pub nothing_seen : Seen
nothing_seen = record { ids = []; names = []; serials = []; emulators = 0; simulators = 0 }

pub data Checked : Type 0 where
  accepted : Seen → Checked
  rejected : ConfigError → Checked

-- A round's error ends the loop.
abbrev pub after_round : Option ConfigError → Checked → Checked
after_round (some e) rest = rejected e
after_round none rest = rest

abbrev pub is_emulator : DeviceType → Bool
is_emulator android_emulator = true
is_emulator _ = false

abbrev pub is_simulator : DeviceType → Bool
is_simulator ios_simulator = true
is_simulator _ = false

abbrev pub counted : DeviceType → Seen → Seen
counted t s = record s {
  emulators = s.emulators + one (is_emulator t);
  simulators = s.simulators + one (is_simulator t);
}

abbrev pub id_error : String → ℕ → DeviceConfig → Option ConfigError
id_error runner_id i d = first_error (
    requires i "id" d.id
    ∷ must (has_prefix d.id (str_append runner_id "/") && is_canonical d.id)
        (device_breaks i "id must be a canonical child of runner.id")
    ∷ [])

abbrev redroid_address : RedroidConfig → String × String
redroid_address r = (join_host_port r.host (itoa r.adb_port), "redroid")

abbrev of_redroid : Option RedroidConfig → Option (String × String)
of_redroid none = none
of_redroid (some r) = some (redroid_address r)

abbrev of_physical : Option AndroidPhysicalConfig → Option (String × String)
of_physical none = none
of_physical (some p) = physical_address p

unfoldable pub address_by : DeviceConfig → DeviceType → Option (String × String)
unfolding physical_address
address_by d android_physical = of_physical d.physical
address_by d redroid = of_redroid d.redroid_config
address_by d android_emulator = none
address_by d ios_simulator = none
address_by d (other_type t) = none

abbrev pub address : DeviceConfig → Option (String × String)
address d = address_by d d.device_type

abbrev pub unique_address :
    Option ConfigError
    → Option (String × String)
    → ℕ
    → List String
    → Option ConfigError × List String
unique_address e none i serials = (e, serials)
unique_address e (some (key, label)) i serials =
    then_unique e serials key (is_duplicate i label key)

module _ (out : Outside) (goos : String) where
  unfoldable pub emulator_error : ℕ → AndroidEmulatorConfig → Option ConfigError
  unfolding required_all
  emulator_error i e = first_error (
      must (is_desktop goos) (device_breaks i "Android emulator devices require Linux or macOS")
      ∷ required_all (λ name. device_requires i (str_append "android_emulator." name))
          (out.arrange (
            ("abi", e.abi)
            ∷ ("system_image", e.system_image)
            ∷ ("base_name", e.base_name)
            ∷ ("golden_source", e.golden_source)
            ∷ []))
      ∷ must (is_positive e.api_level && is_positive e.memory_mb && is_positive e.cores)
          (device_breaks i "android_emulator API level, memory_mb, and cores must be positive")
      ∷ [])

  unfoldable pub redroid_error : ℕ → RedroidConfig → Option ConfigError
  unfolding required_all
  redroid_error i r = first_error (
      must (is_desktop goos) (device_breaks i "Redroid devices require Linux or macOS")
      ∷ required_all (λ name. device_requires i (str_append "redroid." name))
          (out.arrange (
            ("host", r.host)
            ∷ ("image", r.image)
            ∷ ("data_dir", r.data_dir)
            ∷ ("data_archive", r.data_archive)
            ∷ []))
      ∷ must (is_port r.adb_port) (device_breaks i "redroid.adb_port must be between 1 and 65535")
      ∷ [])

  unfoldable pub simulator_error : ℕ → IosSimulatorConfig → Option ConfigError
  simulator_error i s = first_error (
      must (str_eq goos "darwin") (device_breaks i "iOS Simulator devices require macOS")
      ∷ requires i "ios_simulator.udid" s.udid
      ∷ [])

  -- The error of the subtable that the type asks for; the subtable may be another one.
  abbrev pub of_subtable :
      {T : Type 0} → Option T → (T → Option ConfigError) → ConfigError → Option ConfigError
  of_subtable none f e = some e
  of_subtable (some t) f e = f t

  unfoldable pub typed_error : ℕ → DeviceConfig → DeviceType → Option ConfigError
  unfolding physical_error emulator_error redroid_error simulator_error
  typed_error i d android_physical =
      of_subtable d.physical (physical_error i)
        (device_breaks i "type android_physical requires [devices.android_physical]")
  typed_error i d android_emulator =
      of_subtable d.emulator (emulator_error i)
        (device_breaks i "type android_emulator requires [devices.android_emulator]")
  typed_error i d redroid =
      of_subtable d.redroid_config (redroid_error i)
        (device_breaks i "type redroid requires [devices.redroid]")
  typed_error i d ios_simulator =
      of_subtable d.simulator (simulator_error i)
        (device_breaks i "type ios_simulator requires [devices.ios_simulator]")
  typed_error i d (other_type t) = some (device_breaks i "type is unsupported")

  -- The checks of a device that do not look at the others.
  unfoldable pub device_error : ℕ → DeviceConfig → Option ConfigError
  unfolding subtables typed_error
  device_error i d = first_error (
      must (subtables d == 1) (device_breaks i "must contain exactly one type-specific subtable")
      ∷ typed_error i d d.device_type
      ∷ [])

  -- `validateDevice`
  unfoldable pub validate_device : ℕ → DeviceConfig → List String → Option ConfigError × List String
  unfolding device_error unique address_by
  validate_device i d serials = unique_address (device_error i d) (address d) i serials

  -- One round of the loop: the checks of the ID, of the name, and of the rest.
  unfoldable pub check_device : String → ℕ → DeviceConfig → Seen → Option ConfigError × Seen
  unfolding unique validate_device
  check_device runner_id i d s =
      let (id_seen, ids) =
        then_unique (id_error runner_id i d) s.ids d.id (is_duplicate i "id" d.id) in
      let (name_seen, names) =
        then_unique (requires i "name" d.name) s.names d.name (is_duplicate i "name" d.name) in
      let (rest, serials) = validate_device i d s.serials in
      (
        first_error (id_seen ∷ name_seen ∷ rest ∷ []),
        counted d.device_type (record s { ids = ids; names = names; serials = serials }),
      )

  unfoldable pub check_devices : String → ℕ → List DeviceConfig → Seen → Checked
  unfolding check_device
  check_devices runner_id i [] s = accepted s
  check_devices runner_id i (d ∷ ds) s =
      let (e, next) = check_device runner_id i d s in
      after_round e (check_devices runner_id (i + 1) ds next)
