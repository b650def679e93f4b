-- ===== src/Artifacts.antt =====
-- Devices and artifact directories named in requests, pkg/server/device_inventory.go.
pub mod Laws
mod Tests
use Prim.Native.Char.{code}
use Prim.Native.String.{String}
use credimi_runner.Prelude.{
  ℕ, Bool, true, false, not, ◌||◌, ◌&&◌, str_eq, str_append, Option, none, some, List, [], ◌∷◌,
  if◌then◌else◌, ◌==◌, leb, codes,
}
use credimi_runner.GoError.{GoError, message, Result, ok, err}
use credimi_runner.Strings.{trim_space, has_prefix, split_on, trim_first_of}
use credimi_runner.Strings.Patterns.{Pattern, one_of, plus, matches}

abbrev pub slash : ℕ
slash = b'/'

-- `canonicalDeviceIdentifier`
unfoldable pub canonical_device_identifier : String → String
canonical_device_identifier value = trim_first_of slash (trim_space value)

-- `safePathComponent`
abbrev is_safe_character : ℕ → Bool
is_safe_character c =
    (leb b'A' c && leb c b'Z')
    || (leb b'a' c && leb c b'z')
    || (leb b'0' c && leb c b'9')
    || c == b'.'
    || c == b'_'
    || c == b'-'

abbrev pub safe_path_component : Pattern
safe_path_component = plus (one_of is_safe_character)

abbrev pub is_unsafe : String → Bool
is_unsafe part =
    str_eq part "." || str_eq part ".." || not (matches safe_path_component (codes part))

-- The loop over the parts of an identifier.
unfoldable pub check_parts : String → List String → Option GoError
check_parts text [] = none
check_parts text (part ∷ parts) =
    let rest = check_parts text parts in if is_unsafe part then some (message text) else rest

-- `filepath.Join`, and the hexadecimal SHA-256 of a text.
pub record Paths : Type 0 where
  pub join : List String → String
  pub digest : String → String

-- The parts of the path below the device's workspace.
abbrev pub run_parts : String → List String
run_parts run = split_on slash (trim_first_of slash (trim_space run))

module _ (paths : Paths) where
  abbrev pub workspace : String → String
  workspace id = str_append "device-" (paths.digest id)

  abbrev pub after_checks : Option GoError → String → Result String
  after_checks (some e) path = err e
  after_checks none path = ok path

  abbrev pub both_checked : Option GoError → Option GoError → String → Result String
  both_checked (some e) later path = err e
  both_checked none later path = after_checks later path

  abbrev root_for : String → String → String → Result String
  root_for root id run =
      if str_eq id "" || str_eq run ""
      then err (message "device and run identifiers are required")
      else both_checked (check_parts "unsafe device identifier" (split_on slash id))
          (check_parts "unsafe run identifier" (run_parts run))
          (paths.join (root ∷ workspace id ∷ paths.join (run_parts run) ∷ []))

  -- `deviceArtifactRoot`
  unfoldable pub device_artifact_root : String → String → String → Result String
  unfolding check_parts canonical_device_identifier
  device_artifact_root root device run = root_for root (canonical_device_identifier device) run

-- A device of the runtime configuration.
pub record RuntimeDevice : Type 0 where
  pub id : String
  pub enabled : Bool

-- The errors of `configuredDevice`, by their reasons.
pub data DeviceRefused : Type 0 where
  missing_identifier disabled_identifier unknown_identifier : DeviceRefused

-- What `configuredDevice` answers: a device, the zero device where the configuration cannot be
-- read, or an error.
pub data Configured : Type 0 where
  configured : RuntimeDevice → Configured
  unreadable : Configured
  refused : DeviceRefused → Configured

abbrev enabled_or_refused : RuntimeDevice → Configured
enabled_or_refused d = if d.enabled then configured d else refused disabled_identifier

unfoldable pub find_configured : String → String → List RuntimeDevice → Configured
unfolding canonical_device_identifier
find_configured runner identifier [] = refused unknown_identifier
find_configured runner identifier (d ∷ ds) =
    let rest = find_configured runner identifier ds in
    if str_eq (canonical_device_identifier d.id) identifier
    then if not (has_prefix identifier (str_append runner "/"))
      then refused unknown_identifier
      else enabled_or_refused d
    else rest

abbrev in_config : Option (String × List RuntimeDevice) → String → Configured
in_config none identifier = unreadable
in_config (some (runner, devices)) identifier =
    find_configured (canonical_device_identifier runner) identifier devices

-- `configuredDevice`; the configuration is the runner's ID and its devices, none if it cannot be
-- read.
unfoldable pub configured_device : Option (String × List RuntimeDevice) → String → Configured
unfolding find_configured canonical_device_identifier
configured_device config device =
    let identifier = canonical_device_identifier device in
    if str_eq identifier "" then refused missing_identifier else in_config config identifier
