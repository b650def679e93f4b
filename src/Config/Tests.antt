-- ===== src/Config/Tests.antt =====
-- The configuration rules at concrete inputs.
use credimi_runner.Prelude.{
  Bool, true, false, ◌≡◌, ◌≢◌, ◌↔◌, ◌⊎◌, refl, subst, eq_iff, String, str_eq, str_append, Option,
  none, some, List, [], ◌∷◌, if◌then◌else◌,
}
use credimi_runner.GoError.{message, Result, ok, err}
use credimi_runner.Config.{
  Config, pos, bootstrap, DeviceConfig, android_physical, android_emulator, AndroidPhysicalConfig,
}
use credimi_runner.Config.Checks.{
  Outside, Url, is_canonical, validate_auth, validate_exposure, validate_android, validate_listen,
}
use credimi_runner.Config.Devices.{physical_address}
use credimi_runner.Config.Validate.{validate_for_platform}
use credimi_runner.Config.Valid.{IsValid}
use credimi_runner.Config.DeviceRules.{Visits}
use credimi_runner.Config.Soundness.{validate_iff}
use credimi_runner.Config.Defaults.{Host, apply_defaults, android_wifi_serial, redacted}
use credimi_runner.Config.Filled.{JoinsTmp, redacted_hides, with_secrets}
use credimi_runner.Config.Store.{
  Codec, StoreError, configured_owner, read_cleanly, loaded, load_file, write_file,
}
use credimi_runner.Config.Loading.{Readable, Accepted, load_file_iff}
use credimi_runner.Config.RoundTrip.{Decodes, load_file-write_file, write_file-Leaves}
use credimi_runner.Disk.{File, regular, Disk, Faults, no_faults, repaired, write_atomic}
use credimi_runner.Disk.Atomic.{IsWhole, write_atomic-IsWhole}
use credimi_runner.Strings.{trim_space, is_blank, has_prefix}
use credimi_runner.Strings.Patterns.{matches}
use credimi_runner.Strings.Addresses.{split_host_port, join_host_port}
use credimi_runner.Strings.Numbers.{atoi}

-- Of the URLs, only one that these tests use is parsed.
abbrev url_of : String → Option Url
url_of s =
    if str_eq s "https://credimi.io"
    then some (record { scheme = "https"; host = "credimi.io" })
    else none

abbrev outside : Outside
outside = record { parse_request_uri = url_of; arrange = λ fields. fields }

outside-Visits : Visits outside
outside-Visits = record { all = λ p fields. refl }

-- A phone on USB and an emulator.
abbrev phone : DeviceConfig
phone = record {
  id = "acme/lab/phone";
  name = "Phone";
  description = "";
  device_type = android_physical;
  enabled = true;
  physical = some (record { transport = "usb"; serial = "R58M"; wifi_ip = ""; wifi_port = "" });
  emulator = none;
  redroid_config = none;
  simulator = none;
}

abbrev emulator : DeviceConfig
emulator = record {
  id = "acme/lab/emulator";
  name = "Emulator";
  description = "";
  device_type = android_emulator;
  enabled = true;
  physical = none;
  emulator = some (record {
    api_level = pos 34;
    abi = "x86_64";
    system_image = "google_apis";
    base_name = "base";
    golden_source = "golden";
    headless = true;
    memory_mb = pos 4096;
    cores = pos 4;
  });
  redroid_config = none;
  simulator = none;
}

-- The file of a small laboratory, whose other fields are left to the defaults.
abbrev laboratory : Config
laboratory = record bootstrap {
  runner = record {
    id = "acme/lab";
    name = "Laboratory";
    organization = "acme";
    description = "";
    published = false;
  };
  credimi = record {
    url = "https://credimi.io";
    auth_mode = "user";
    user_api_key = "key";
    internal_admin_key = "";
  };
  temporal_address = "temporal:7233";
  storage = record { state_dir = "/var/lib/credimi"; temp_dir = ""; artifact_retention = pos 0 };
  devices = phone ∷ emulator ∷ [];
}

abbrev rooted : String → String
rooted s = if str_eq s "" then "/" else s

-- The parts, each after a slash.
abbrev joined_path : List String → String
joined_path [] = ""
joined_path (p ∷ ps) = str_append "/" (str_append p (joined_path ps))

abbrev host : Host
host = record {
  join = λ parts. rooted (joined_path parts);
  env = λ name. "";
  home_dir = ok "/root";
  config_dir = ok "/root/.config";
  abs = λ path. ok path;
}

abbrev or_config : Result Config → Config
or_config (ok c) = c
or_config (err e) = bootstrap

-- The same with its defaults.
abbrev filled : Config
unfolding apply_defaults bootstrap
filled = or_config (apply_defaults host laboratory)

accepts : validate_for_platform outside filled "linux" ≡ none
unfolding validate_for_platform bootstrap filled is_blank is_canonical matches has_prefix
    validate_auth validate_listen split_host_port validate_exposure validate_android
accepts = refl

-- Two phones whose Wi-Fi addresses differ in a space: the validation takes them for different
-- phones, and `AndroidWiFiSerial` gives them one serial.
abbrev by_wifi : String → AndroidPhysicalConfig
by_wifi ip = record { transport = "wifi"; serial = ""; wifi_ip = ip; wifi_port = "" }

twin_address :
    physical_address (by_wifi " 10.0.0.5") ≡ some (" 10.0.0.5:5555", "android_physical.wifi")
unfolding physical_address is_blank join_host_port
twin_address = refl

twin_serial : android_wifi_serial "10.0.0.5" "" ≡ android_wifi_serial " 10.0.0.5" ""
unfolding android_wifi_serial trim_space
twin_serial = refl

validate_iff_example :
    (validate_for_platform outside filled "linux" ≡ none) ↔ IsValid outside "linux" filled
validate_iff_example = validate_iff outside "linux" filled outside-Visits

rooted_by : (b : Bool) (s : String) → str_eq s "" ≡ b → str_eq (if b then "/" else s) "" ≡ false
rooted_by true s e = refl
rooted_by false s e = e

rooted_given : (s : String) → str_eq (rooted s) "" ≡ false
rooted_given s = rooted_by (str_eq s "") s refl

joins : JoinsTmp host
joins dir = rooted_given (str_append "/" (str_append dir "/tmp"))

redacted_hides_example :
    redacted (with_secrets laboratory "other key" "" "" "") ≡ redacted laboratory
unfolding bootstrap
redacted_hides_example = redacted_hides laboratory "other key" "" "" "" refl refl refl refl

-- A codec that knows this configuration.
abbrev codec : Codec
unfolding filled
codec = record { decode = λ text. ok filled; encode = λ c. ok "[runner]"; digest = λ text. text }

empty_disk : Disk
empty_disk path = none

-- A write of the file.
abbrev path : String
path = "/etc/credimi.toml"

abbrev temporary : String
temporary = "/etc/.atomic-1"

apart : temporary ≢ path
apart e = let q = (eq_iff temporary path).1 e in cc

or_text : Result String → String
or_text (ok t) = t
or_text (err e) = ""

laboratory-Decodes :
    Decodes host codec outside "linux" no_faults none none none temporary false path apart
      laboratory
unfolding codec filled apply_defaults bootstrap or_text
laboratory-Decodes c text h e = (h, subst (λ r. str_eq (or_text r) "" ≡ false) e refl)

abbrev after_write : Disk × Option StoreError
after_write =
    write_file host codec outside "linux" no_faults none none none temporary false path laboratory
      empty_disk

writes : after_write.1 ≡ none
unfolding write_file codec filled apply_defaults validate_for_platform bootstrap is_blank
    is_canonical matches has_prefix validate_auth validate_listen split_host_port validate_exposure
    validate_android empty_disk write_atomic configured_owner atoi
writes = refl

load_file-write_file_example :
    (c : Config) × (apply_defaults host laboratory ≡ ok c)
    × (load_file host codec outside "linux" read_cleanly after_write.0 path ≡ loaded c)
load_file-write_file_example =
    load_file-write_file host codec outside "linux" no_faults none none none temporary false path
      apart laboratory empty_disk laboratory-Decodes joins writes

-- The file is there, and is read.
load_file_iff_example :
    (load_file host codec outside "linux" read_cleanly after_write.0 path ≡ loaded filled) ↔ (
      (f : File) × (d : Config) × (read_cleanly.lstat ≡ none)
      × (read_cleanly.read_file ≡ none)
      × Readable (after_write.0 path) f
      × (codec.decode f.contents ≡ ok d)
      × Accepted host codec outside "linux" d filled)
load_file_iff_example =
    load_file_iff host codec outside "linux" read_cleanly after_write.0 path filled

-- A rename that fails.
abbrev no_rename : Faults
no_rename = record no_faults { rename = some (message "read-only file system") }

abbrev after_failure : Disk × Option StoreError
after_failure =
    write_file host codec outside "linux" no_rename none none none temporary false path laboratory
      empty_disk

write_file-Leaves_example :
    (after_failure.0 path ≡ empty_disk path)
    ⊎ ((c : Config) × (text : String) × Accepted host codec outside "linux" laboratory c
        × (codec.encode c ≡ ok text)
        × (after_failure.0 path
            ≡ some (
                regular (record {
                  contents = text;
                  perm = 384;
                  owner = repaired (configured_owner host.env) false;
                }))))
write_file-Leaves_example =
    write_file-Leaves host codec outside "linux" no_rename none none none temporary false path apart
      laboratory empty_disk

write_atomic-IsWhole_example :
    IsWhole no_rename temporary path 420 none false
      (record { text = "new"; error = none })
      empty_disk
      apart
      (write_atomic no_rename temporary path 420 none false
        (some (record { text = "new"; error = none }))
        empty_disk)
write_atomic-IsWhole_example =
    write_atomic-IsWhole no_rename temporary path 420 none false
      (record { text = "new"; error = none }) empty_disk apart
