-- ===== src/Disk.antt =====
-- Files shared between processes, internal/atomicfile/atomicfile.go. A disk maps a path to what
-- `Lstat` finds there; directories that hold the files are not part of it. Each call of the
-- operating system may fail with an error of its own.
pub mod Atomic
use credimi_runner.Prelude.{
  ℕ, Bool, true, false, ◌||◌, String, str_eq, Option, none, some, if◌then◌else◌,
}
use credimi_runner.GoError.{GoError, wrap, message}
use credimi_runner.Config.{GoInt, pos, negsuc}
use credimi_runner.Strings.Numbers.{atoi}

pub record Ownership : Type 0 where
  pub uid : ℕ
  pub gid : ℕ

pub record File : Type 0 where
  pub contents : String
  pub perm : ℕ
  pub owner : Option Ownership

pub data Entry : Type 0 where
  regular : File → Entry
  symlink irregular : Entry

abbrev pub Disk : Type 0
Disk = String → Option Entry

abbrev pub set_entry : String → Option Entry → Disk → Disk
set_entry path e disk = λ q. if str_eq q path then e else disk q

abbrev owner_of : Option GoInt → Option GoInt → Option Ownership
owner_of (some (pos u)) (some (pos g)) = some (record { uid = u; gid = g })
owner_of _ _ = none

-- `FromEnvironment`
unfoldable pub from_environment : (String → String) → Option Ownership
from_environment env =
    owner_of (atoi (env "CREDIMI_CONFIG_OWNER_UID")) (atoi (env "CREDIMI_CONFIG_OWNER_GID"))

-- The errors of the calls of `writeAtomic`, none where a call succeeds.
pub record Faults : Type 0 where
  pub mkdir : Option GoError
  pub create : Option GoError
  pub chmod : Option GoError
  pub chown : Option GoError
  pub sync : Option GoError
  pub close : Option GoError
  pub rename : Option GoError
  pub open_dir : Option GoError
  pub sync_dir : Option GoError
  pub close_dir : Option GoError

abbrev pub no_faults : Faults
no_faults = record {
  mkdir = none;
  create = none;
  chmod = none;
  chown = none;
  sync = none;
  close = none;
  rename = none;
  open_dir = none;
  sync_dir = none;
  close_dir = none;
}

abbrev pub Done : Type 0
Done = Disk × Option GoError

-- `if err != nil { return err }`, with the disk as it is then, before the rest.
abbrev pub or_fail : Option GoError → Disk → Done → Done
or_fail (some e) disk rest = (disk, some e)
or_fail none disk rest = rest

abbrev pub wrapped : String → Option GoError → Option GoError
wrapped text none = none
wrapped text (some e) = some (wrap text e)

-- The ownership that `writeAtomic` gives the file.
abbrev pub repaired : Option Ownership → Bool → Option Ownership
repaired none root = none
repaired (some o) root = if root then some o else none

abbrev pub chown_error : Option Ownership → Option GoError → Option GoError
chown_error none e = none
chown_error (some o) e = e

-- What the callback `write` writes, and its error.
pub record Written : Type 0 where
  pub text : String
  pub error : Option GoError

-- `temporary` is the name that `os.CreateTemp` picks.
module _ (faults : Faults) (temporary path : String) (perm : ℕ) (owner : Option Ownership)
    (root : Bool) where
  abbrev pub new_file : Written → Entry
  new_file w = regular (record { contents = w.text; perm = perm; owner = repaired owner root })

  -- The directory is synchronised after the rename.
  abbrev sync_directory : Disk → Done
  sync_directory disk = or_fail (wrapped "open atomic file directory" faults.open_dir) disk (
      or_fail (wrapped "sync atomic file directory" faults.sync_dir) disk
        (disk, wrapped "close atomic file directory" faults.close_dir))

  -- `writeAtomic` from the creation of the temporary file on, without its deferred removal.
  abbrev replace : Written → Disk → Done
  replace w disk =
      let empty =
        set_entry temporary (some (regular (record { contents = ""; perm = 384; owner = none })))
          disk in
      let permitted =
        set_entry temporary (some (regular (record { contents = ""; perm = perm; owner = none })))
          disk in
      let filled = set_entry temporary (some (new_file w)) disk in
      or_fail faults.chmod empty (
        or_fail (wrapped "set atomic file owner" (chown_error (repaired owner root) faults.chown))
          permitted
          (or_fail w.error filled (
            or_fail faults.sync filled (
              or_fail faults.close filled (
                or_fail (wrapped "replace atomic file" faults.rename) filled (
                  sync_directory
                    (set_entry path (some (new_file w)) (set_entry temporary none disk))))))))

  -- `writeAtomic`; `none` is a nil callback.
  unfoldable pub write_atomic : Option Written → Disk → Done
  write_atomic none disk = (
    disk,
    some (
        message
          (if str_eq path "" then "atomic file path is empty" else "atomic file writer is nil")),
  )
  write_atomic (some w) disk =
      let (after, error) = replace w disk in
      or_fail (if str_eq path "" then some (message "atomic file path is empty") else none) disk (
        or_fail (wrapped "create atomic file directory" faults.mkdir) disk (
          or_fail (wrapped "create atomic file temporary" faults.create) disk
            (set_entry temporary none after, error)))
