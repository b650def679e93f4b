-- ===== src/Coordination.antt =====
-- Who coordinates a configuration directory: the lock and presence files of
-- internal/servicecoordination/servicecoordination.go, shared by several processes. A function is
-- one call of the operating system of one process, or a read of the lock with what is done at once
-- when it is one's own; between two of them another process may act. The calls of `StartPresence`
-- are numbered; the number of a call stands for its random nonce. A process makes any number of
-- calls, and a PID may be used again: `process` gives the PID of the process that makes a call.
pub mod Laws
pub mod Guarded
pub mod Messages
mod Tests
use credimi_runner.Prelude.{
  ℕ, suc, ◌+◌, ◌-◌, ◌≤◌, Bool, true, false, ◌&&◌, not, ◌≡◌, ◌⊎◌, Option, none, some, if◌then◌else◌,
  leb, ltb, ◌==◌,
}
use credimi_runner.Process.{set_at}

-- `service-coordinator.lock`: who created the file, whether its nonce is written, and the time of
-- its last change.
pub record LockFile : Type 0 where
  pub creator : ℕ
  pub written : Bool
  pub modified : ℕ

-- `Presence`
pub record Presence : Type 0 where
  pub pid : ℕ
  pub nonce : ℕ
  pub updated_at : ℕ

-- Where a call stands: not begun; before the exclusive creation of the lock in an attempt; with
-- the lock created and not written; having found a lock that another one created, before it reads
-- the presence, before `Stat`, and before `Remove`; holding the lock; and, in its cleanup, before
-- it reads the lock and before it removes it; at its end. `refused` is the error that another
-- runner coordinates.
pub data Stage : Type 0 where
  outside refused writing holding leaving removing_own finished : Stage
  creating checking inspecting reclaiming : ℕ → Stage

-- The files, the time, the PID of each call's process, and the calls.
pub record Directory : Type 0 where
  pub lock : Option LockFile
  pub presence : Option Presence
  pub now : ℕ
  pub process : ℕ → ℕ
  pub stage : ℕ → Stage

abbrev pub coordinator_max_age : ℕ
coordinator_max_age = 15

abbrev pub to_stage : ℕ → Stage → Directory → Directory
to_stage i s d = record d { stage = set_at i s d.stage }

-- The loop of `acquireCoordinator` has two attempts.
abbrev pub next_attempt : ℕ → Stage
next_attempt n = if ltb (suc n) 2 then creating (suc n) else refused

-- `OpenFile` with `O_EXCL`
abbrev pub created : ℕ → Option LockFile → ℕ → Directory → Directory
created i (some f) n d = to_stage i (checking n) d
created i none n d =
    to_stage i writing
      (record d { lock = some (record { creator = i; written = false; modified = d.now }) })

unfoldable pub create_lock : ℕ → ℕ → Directory → Directory
create_lock i n d = created i d.lock n d

-- `WriteString` and `Close` of the file that this process has created, if the path still leads to
-- it.
abbrev pub filled : ℕ → ℕ → Option LockFile → Option LockFile
filled i now none = none
filled i now (some f) =
    if f.creator == i then some (record f { written = true; modified = now }) else some f

unfoldable pub write_nonce : ℕ → Directory → Directory
write_nonce i d = to_stage i holding (record d { lock = filled i d.now d.lock })

-- The write or the close fails: the lock is removed.
unfoldable pub write_failed : ℕ → Directory → Directory
write_failed i d = to_stage i finished (record d { lock = none })

-- `CoordinatorActive`: the presence is of now or of the last seconds.
abbrev pub is_active : Option Presence → ℕ → Bool
is_active none now = false
is_active (some p) now = leb p.updated_at now && leb (now - p.updated_at) coordinator_max_age

unfoldable pub check_presence : ℕ → ℕ → Directory → Directory
check_presence i n d = to_stage i (if is_active d.presence d.now then refused else inspecting n) d

-- `Stat`, and the age of the lock.
abbrev pub is_fresh : ℕ → LockFile → Bool
is_fresh now f = leb (now - f.modified) coordinator_max_age

abbrev pub inspected : Option LockFile → ℕ → ℕ → Stage
inspected none now n = next_attempt n
inspected (some f) now n = if is_fresh now f then refused else reclaiming n

unfoldable pub inspect_lock : ℕ → ℕ → Directory → Directory
inspect_lock i n d = to_stage i (inspected d.lock d.now n) d

-- `Remove` of the lock that was found stale: of whatever is there now.
unfoldable pub reclaim_lock : ℕ → ℕ → Directory → Directory
reclaim_lock i n d = to_stage i (next_attempt n) (record d { lock = none })

-- `ownsCoordinator`
abbrev pub owned_by : ℕ → Option LockFile → Bool
owned_by i none = false
owned_by i (some f) = f.creator == i && f.written

abbrev pub owns : ℕ → Directory → Bool
owns i d = owned_by i d.lock

-- `touchCoordinator`, and the write of the presence that follows it.
abbrev pub touched : ℕ → Option LockFile → Option LockFile
touched now none = none
touched now (some f) = some (record f { modified = now })

unfoldable pub touch_lock : ℕ → Directory → Directory
touch_lock i d = if owns i d then record d { lock = touched d.now d.lock } else d

unfoldable pub write_presence : ℕ → Directory → Directory
write_presence i d = record d {
  presence = some (record { pid = d.process i; nonce = i; updated_at = d.now });
}

-- The cleanup that `StartPresence` returns: the presence, if it is one's own, and
-- `releaseCoordinator` in two calls.
abbrev pub is_of : ℕ → ℕ → Option Presence → Bool
is_of pid i none = false
is_of pid i (some p) = p.pid == pid && p.nonce == i

unfoldable pub begin_cleanup : ℕ → Directory → Directory
begin_cleanup i d = to_stage i leaving d

unfoldable pub drop_presence : ℕ → Directory → Directory
drop_presence i d =
    if owns i d && is_of (d.process i) i d.presence then record d { presence = none } else d

unfoldable pub read_own : ℕ → Directory → Directory
read_own i d = to_stage i (if owns i d then removing_own else finished) d

unfoldable pub remove_own : ℕ → Directory → Directory
remove_own i d = to_stage i finished (record d { lock = none })

-- `CoordinatorOwned`, asked by the process with this PID: the states in which it reads the presence
-- and the lock. A nonce is never empty.
abbrev pub owned_through : ℕ → Option Presence → Option LockFile → Bool
owned_through pid none l = false
owned_through pid (some p) l = p.pid == pid && owned_by p.nonce l

unfoldable pub coordinator_owned : ℕ → Directory → Directory → Bool
coordinator_owned pid d e = owned_through pid d.presence e.lock

-- One call of one process, or the passing of time. `reclaims` says whether a lock may be found
-- stale.
pub data Step (reclaims : Bool) : Directory → Directory → Type 0 where
  tick : (d : Directory) (t : ℕ) → d.now ≤ t → Step reclaims d (record d { now = t })
  begin :
      (d : Directory) (i : ℕ) → d.stage i ≡ outside → Step reclaims d (to_stage i (creating 0) d)
  create : (d : Directory) (i n : ℕ) → d.stage i ≡ creating n → Step reclaims d (create_lock i n d)
  write : (d : Directory) (i : ℕ) → d.stage i ≡ writing → Step reclaims d (write_nonce i d)
  write_fails : (d : Directory) (i : ℕ) → d.stage i ≡ writing → Step reclaims d (write_failed i d)
  check :
      (d : Directory) (i n : ℕ) → d.stage i ≡ checking n → Step reclaims d (check_presence i n d)
  inspect :
      (d : Directory) (i n : ℕ)
      → d.stage i ≡ inspecting n
      → (reclaims ≡ true) ⊎ ((f : LockFile) → d.lock ≡ some f → is_fresh d.now f ≡ true)
      → Step reclaims d (inspect_lock i n d)
  reclaim :
      (d : Directory) (i n : ℕ) → d.stage i ≡ reclaiming n → Step reclaims d (reclaim_lock i n d)
  touch : (d : Directory) (i : ℕ) → d.stage i ≡ holding → Step reclaims d (touch_lock i d)
  publish : (d : Directory) (i : ℕ) → d.stage i ≡ holding → Step reclaims d (write_presence i d)
  cleanup : (d : Directory) (i : ℕ) → d.stage i ≡ holding → Step reclaims d (begin_cleanup i d)
  unpublish : (d : Directory) (i : ℕ) → d.stage i ≡ leaving → Step reclaims d (drop_presence i d)
  read : (d : Directory) (i : ℕ) → d.stage i ≡ leaving → Step reclaims d (read_own i d)
  release : (d : Directory) (i : ℕ) → d.stage i ≡ removing_own → Step reclaims d (remove_own i d)

abbrev pub empty_directory : (ℕ → ℕ) → Directory
empty_directory process = record {
  lock = none;
  presence = none;
  now = 0;
  process = process;
  stage = λ i. outside;
}

pub data Reachable (reclaims : Bool) : Directory → Type 0 where
  initially : (process : ℕ → ℕ) → Reachable reclaims (empty_directory process)
  after : (d e : Directory) → Reachable reclaims d → Step reclaims d e → Reachable reclaims e
