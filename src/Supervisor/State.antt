-- ===== src/Supervisor/State.antt =====
-- The runtime state that is persisted, internal/runtimesupervisor/state.go and state_store.go.
use credimi_runner.Prelude.{
  ◌≡◌, refl, Bool, true, false, String, str_eq, Option, none, some, if◌then◌else◌,
}
use credimi_runner.GoError.{GoError, message, wrap}

pub data DesiredState : Type 0 where
  running stopped : DesiredState

pub data ActualState : Type 0 where
  starting running stopping stopped failed : ActualState

-- `last_error` is the error whose text the source stores, `none` for the empty text. `UpdatedAt`,
-- which only `Save` writes and nothing reads, is left out.
pub record PersistentState : Type 0 where
  pub desired : DesiredState
  pub actual : ActualState
  pub last_error : Option GoError

abbrev pub is_running : ActualState → Bool
is_running running = true
is_running _ = false

abbrev pub is_failed : ActualState → Bool
is_failed failed = true
is_failed _ = false

abbrev pub wants_running : DesiredState → Bool
wants_running running = true
wants_running stopped = false

pub data LoadResult : Type 0 where
  loaded : PersistentState → LoadResult
  load_error : GoError → LoadResult

-- What reading and decoding the file gives: the texts of its two fields are still unchecked.
pub data StateFile : Type 0 where
  missing : StateFile
  unreadable : GoError → StateFile
  empty_file : StateFile
  undecodable : GoError → StateFile
  decoded : String → String → Option GoError → StateFile

desired_of : String → Option DesiredState
desired_of t =
    if str_eq t "running" then some running else if str_eq t "stopped" then some stopped else none

actual_of : String → Option ActualState
actual_of t =
    if str_eq t "starting"
    then some starting
    else if str_eq t "running"
    then some running
    else if str_eq t "stopping"
    then some stopping
    else if str_eq t "stopped"
    then some stopped
    else if str_eq t "failed"
    then some failed
    else none

abbrev pub default_state : DesiredState → PersistentState
default_state d = record { desired = d; actual = stopped; last_error = none }

check_state : Option DesiredState → Option ActualState → Option GoError → LoadResult
check_state none a e = load_error (message "invalid runtime desired state")
check_state (some d) none e = load_error (message "invalid runtime actual state")
check_state (some d) (some a) e = loaded (record { desired = d; actual = a; last_error = e })

unfoldable pub load_file : StateFile → LoadResult
unfolding desired_of actual_of check_state
load_file missing = loaded (default_state running)
load_file (unreadable e) = load_error (wrap "open runtime state" e)
load_file empty_file = load_error (message "runtime state is empty")
load_file (undecodable e) = load_error (wrap "decode runtime state" e)
load_file (decoded d a e) = check_state (desired_of d) (actual_of a) e

-- `StateStore.Load`: an unconfigured runner is stopped, a configured one without a state file is
-- to run.
unfoldable pub load : Bool → StateFile → LoadResult
unfolding load_file
load configured file = if configured then load_file file else loaded (default_state stopped)

-- The two fields as `Save` encodes them.
unfoldable pub desired_text : DesiredState → String
desired_text running = "running"
desired_text stopped = "stopped"

unfoldable pub actual_text : ActualState → String
actual_text starting = "starting"
actual_text running = "running"
actual_text stopping = "stopping"
actual_text stopped = "stopped"
actual_text failed = "failed"

unfoldable pub save_file : PersistentState → StateFile
unfolding desired_text actual_text
save_file s = decoded (desired_text s.desired) (actual_text s.actual) s.last_error

-- A state that was saved is read back as it was, whatever it is.
pub load-save_file : (s : PersistentState) → load true (save_file s) ≡ loaded s
unfolding load save_file
load-save_file s = go s.desired s.actual s.last_error
  where
    go :
        (d : DesiredState) (a : ActualState) (e : Option GoError)
        → load true (decoded (desired_text d) (actual_text a) e)
          ≡ loaded (record { desired = d; actual = a; last_error = e })
    go running starting e = refl
    go running running e = refl
    go running stopping e = refl
    go running stopped e = refl
    go running failed e = refl
    go stopped starting e = refl
    go stopped running e = refl
    go stopped stopping e = refl
    go stopped stopped e = refl
    go stopped failed e = refl
