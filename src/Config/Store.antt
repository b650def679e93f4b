-- ===== src/Config/Store.antt =====
-- Reading and writing the configuration file: internal/config/load.go and `WriteFile`
-- of store.go.
use credimi_runner.Prelude.{
  ℕ, suc, ◌%◌, Bool, not, String, str_eq, Option, none, some, if◌then◌else◌, ◌==◌,
}
use credimi_runner.GoError.{GoError, wrap, message, syscall, enoent, Result, ok, err}
use credimi_runner.Strings.{trim_space}
use credimi_runner.Strings.Numbers.{atoi}
use credimi_runner.Config.{Config, GoInt, pos}
use credimi_runner.Config.Checks.{ConfigError, Outside}
use credimi_runner.Config.Validate.{validate_for_platform}
use credimi_runner.Config.Defaults.{Host, apply_defaults, resolve_path}
use credimi_runner.Disk.{
  Ownership, File, Entry, regular, symlink, irregular, Disk, Faults, wrapped, write_atomic,
}

-- The error of a load or a write: an error of its own, or one of the validation.
pub data StoreError : Type 0 where
  failure : GoError → StoreError
  invalid : ConfigError → StoreError

pub data Loaded (A : Type 0) : Type 0 where
  loaded : A → Loaded A
  not_loaded : StoreError → Loaded A

-- The TOML codec, which refuses unknown fields, and SHA-256 in hexadecimal digits.
pub record Codec : Type 0 where
  pub decode : String → Result Config
  pub encode : Config → Result String
  pub digest : String → String

-- The errors of `Lstat` and `ReadFile` other than those of what they find.
pub record ReadFaults : Type 0 where
  pub lstat : Option GoError
  pub read_file : Option GoError

abbrev pub read_cleanly : ReadFaults
read_cleanly = record { lstat = none; read_file = none }

-- No one but the owner may read the file: `Perm()&0o077 == 0`.
abbrev pub is_private : ℕ → Bool
is_private perm = perm % 64 == 0

abbrev pub opened : Option GoError → File → Result String
opened none f = ok f.contents
opened (some e) f = err (wrap "open config" e)

abbrev pub read_entry : Option GoError → Option Entry → Result String
read_entry fault none = err (wrap "read config" (syscall enoent))
read_entry fault (some symlink) = err (message "config file must not be a symlink")
read_entry fault (some irregular) = err (message "config path must be a regular file")
read_entry fault (some (regular f)) =
    if str_eq f.contents ""
    then err (message "config file is empty")
    else if not (is_private f.perm)
    then err (message "config file must not be group- or world-readable")
    else opened fault f

abbrev pub read_found : Option GoError → Option GoError → Option Entry → Result String
read_found (some e) fault found = err (wrap "read config" e)
read_found none fault found = read_entry fault found

-- `readConfigFile`
unfoldable pub read_config_file : ReadFaults → Disk → String → Result String
read_config_file faults disk path = read_found faults.lstat faults.read_file (disk path)

abbrev pub checked : Option ConfigError → Config → Loaded Config
checked none c = loaded c
checked (some e) c = not_loaded (invalid e)

abbrev pub after_read {ℓ} : {A : Type ℓ} {B : Type 0} → Result A → (A → Loaded B) → Loaded B
after_read (ok a) f = f a
after_read (err e) f = not_loaded (failure e)

abbrev pub wrap_result {ℓ} : {A : Type ℓ} → String → Result A → Result A
wrap_result text (ok a) = ok a
wrap_result text (err e) = err (wrap text e)

abbrev pub finished : Disk → Option GoError → Disk × Option StoreError
finished disk none = (disk, none)
finished disk (some e) = (disk, some (failure e))

-- `configuredOwner`
abbrev positive_owner : Option GoInt → Option GoInt → Option Ownership
positive_owner (some (pos (suc u))) (some (pos (suc g))) =
    some (record { uid = suc u; gid = suc g })
positive_owner _ _ = none

unfoldable pub configured_owner : (String → String) → Option Ownership
configured_owner env =
    positive_owner (atoi (trim_space (env "CREDIMI_CONFIG_OWNER_UID")))
      (atoi (trim_space (env "CREDIMI_CONFIG_OWNER_GID")))

-- `Lstat` of the path that `WriteFile` replaces.
abbrev pub inspected : Option GoError → Option Entry → Option GoError
inspected (some e) found = some (wrap "inspect config path" e)
inspected none (some symlink) = some (message "config file must not be a symlink")
inspected none found = none

-- A call that may fail before anything is written.
abbrev pub before_write :
    Option GoError → Disk → Disk × Option StoreError → Disk × Option StoreError
before_write (some e) disk rest = (disk, some (failure e))
before_write none disk rest = rest

module _ (host : Host) (codec : Codec) (out : Outside) (goos : String) where
  abbrev pub default_and_check : Config → Loaded Config
  default_and_check cfg =
      after_read (apply_defaults host cfg) (λ c. checked (validate_for_platform out c goos) c)

  -- `loadConfigBytes`
  unfoldable pub load_config_bytes : String → Loaded Config
  load_config_bytes contents =
      if str_eq contents ""
      then not_loaded (failure (message "config file is empty"))
      else after_read (wrap_result "decode TOML config" (codec.decode contents)) default_and_check

  -- `LoadFile`
  unfoldable pub load_file : ReadFaults → Disk → String → Loaded Config
  unfolding read_config_file load_config_bytes
  load_file faults disk path = after_read (read_config_file faults disk path) load_config_bytes

  abbrev pub with_digest : String → Loaded Config → Loaded (Config × String)
  with_digest contents (loaded c) = loaded (c, codec.digest contents)
  with_digest contents (not_loaded e) = not_loaded e

  -- `LoadFileSnapshot`
  unfoldable pub load_file_snapshot : ReadFaults → Disk → String → Loaded (Config × String)
  unfolding read_config_file load_config_bytes
  load_file_snapshot faults disk path =
      after_read (read_config_file faults disk path)
        (λ contents. with_digest contents (load_config_bytes contents))

  -- `Load`: the path is that of the file, or empty.
  abbrev load_at : ReadFaults → Disk → Result String → Loaded Config × String
  load_at faults disk (ok path) = (load_file faults disk path, path)
  load_at faults disk (err e) = (not_loaded (failure e), "")

  unfoldable pub load : ReadFaults → Disk → String → Loaded Config × String
  unfolding load_file resolve_path
  load faults disk explicit = load_at faults disk (resolve_path host explicit)

  module _ (faults : Faults) (lstat mkdir write : Option GoError) (temporary : String) (root : Bool)
      (path : String) where
    abbrev pub write_encoded : Result String → Disk → Disk × Option StoreError
    write_encoded (err e) disk = (disk, some (failure (wrap "encode TOML config" e)))
    write_encoded (ok text) disk =
        let (after, error) =
          write_atomic faults temporary path 384 (configured_owner host.env) root
            (some (record { text = text; error = write })) disk in
        finished after error

    abbrev pub write_checked : Loaded Config → Disk → Disk × Option StoreError
    write_checked (not_loaded e) disk = (disk, some e)
    write_checked (loaded c) disk = before_write (inspected lstat (disk path)) disk (
        before_write (wrapped "create config directory" mkdir) disk
          (write_encoded (codec.encode c) disk))

    -- `WriteFile`, with the defaults and the validation of a load.
    unfoldable pub write_file : Config → Disk → Disk × Option StoreError
    write_file cfg disk = write_checked (default_and_check cfg) disk
