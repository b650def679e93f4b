-- ===== src/Coordination/Tests.antt =====
-- The lock of a configuration directory at concrete runs.
use Prim.Native.String.{String}
use credimi_runner.Prelude.{ℕ, ◌+◌, Bool, true, false, ◌≡◌, ◌≢◌, refl, inl, none, eq_iff, arith}
use credimi_runner.GoError.{message, Result, ok, err}
use credimi_runner.Disk.{Entry, Disk, no_faults}
use credimi_runner.Coordination.{
  outside, checking, inspecting, reclaiming, writing, tick, begin, create, write, check, inspect,
  reclaim, Directory, holding, create_lock, write_nonce, check_presence, inspect_lock, reclaim_lock,
  to_stage, creating, owns, write_presence, coordinator_owned, publish, empty_directory, Reachable,
  initially, after,
}
use credimi_runner.Coordination.Laws.{HoldsFor, coordinator_owned-holds}
use credimi_runner.Coordination.Guarded.{holders_alone}
use credimi_runner.Coordination.Messages.{
  RestartRequest, RestartResult, write_restart_request, read_restart_request, write_restart_result,
  read_restart_result, read-write_restart,
}

abbrev holder : ℕ
holder = 1

abbrev no_files : Directory
no_files = empty_directory (λ i. 4200 + i)

-- The first call acquires the lock and publishes its presence.
abbrev first : Directory
first = write_presence 1 (write_nonce 1 (create_lock 1 0 (to_stage 1 (creating 0) no_files)))

first-Reachable : (b : Bool) → Reachable b first
unfolding create_lock write_nonce write_presence
first-Reachable b =
    after _ _
      (after _ _
        (after _ _ (after _ _ (initially _) (begin no_files 1 refl))
          (create (to_stage 1 (creating 0) no_files) 1 0 refl))
        (write (create_lock 1 0 (to_stage 1 (creating 0) no_files)) 1 refl))
      (publish (write_nonce 1 (create_lock 1 0 (to_stage 1 (creating 0) no_files))) 1 refl)

holders_alone_example : (holder ≡ holder) × (owns 1 first ≡ true)
unfolding create_lock write_nonce write_presence
holders_alone_example = holders_alone first 1 1 (first-Reachable false) refl refl

coordinator_owned-holds_example : HoldsFor 4201 (record first { now = 9 })
unfolding create_lock write_nonce write_presence coordinator_owned
coordinator_owned-holds_example =
    coordinator_owned-holds true first (record first { now = 9 }) 4201 (first-Reachable true)
      (after first _ (first-Reachable true) (tick first 9 (omega arith))) refl refl

-- The process of the first call is gone. Two others find its lock stale, both before either of them
-- removes it; the second to do so removes the lock that the first has made.
abbrev later : Directory
later = record first { now = 20 }

abbrev looked : ℕ → Directory → Directory
looked i d = inspect_lock i 0 (check_presence i 0 (create_lock i 0 (to_stage i (creating 0) d)))

abbrev taken : ℕ → Directory → Directory
taken i d = write_nonce i (create_lock i 1 (reclaim_lock i 0 d))

abbrev both_looked : Directory
both_looked = looked 3 (looked 2 later)

abbrev both_hold : Directory
both_hold = taken 3 (taken 2 both_looked)

two_holders :
    (both_hold.stage 2 ≡ holding)
    × (both_hold.stage 3 ≡ holding)
    × (owns 2 both_hold ≡ false)
    × (owns 3 both_hold ≡ true)
unfolding create_lock write_nonce write_presence check_presence inspect_lock reclaim_lock
two_holders = (refl, refl, refl, refl)

-- That run is one of the model.
looked-Reachable :
    (d : Directory) (i : ℕ)
    → Reachable true d
    → d.stage i ≡ outside
    → (to_stage i (creating 0) d).stage i ≡ creating 0
    → (create_lock i 0 (to_stage i (creating 0) d)).stage i ≡ checking 0
    → (check_presence i 0 (create_lock i 0 (to_stage i (creating 0) d))).stage i ≡ inspecting 0
    → Reachable true (looked i d)
looked-Reachable d i r a b c e =
    let begun = to_stage i (creating 0) d in
    let found = create_lock i 0 begun in
    let checked = check_presence i 0 found in
    after checked _
      (after found _ (after begun _ (after d _ r (begin d i a)) (create begun i 0 b))
        (check found i 0 c))
      (inspect checked i 0 e (inl refl))

taken-Reachable :
    (d : Directory) (i : ℕ)
    → Reachable true d
    → d.stage i ≡ reclaiming 0
    → (reclaim_lock i 0 d).stage i ≡ creating 1
    → (create_lock i 1 (reclaim_lock i 0 d)).stage i ≡ writing
    → Reachable true (taken i d)
taken-Reachable d i r a b c =
    let cleared = reclaim_lock i 0 d in
    let made = create_lock i 1 cleared in
    after made _ (after cleared _ (after d _ r (reclaim d i 0 a)) (create cleared i 1 b))
      (write made i c)

two_holders-Reachable : Reachable true both_hold
unfolding create_lock write_nonce write_presence check_presence inspect_lock reclaim_lock
two_holders-Reachable =
    let at_later = after first later (first-Reachable true) (tick first 20 (omega arith)) in
    let second = looked-Reachable later 2 at_later refl refl refl refl in
    let third = looked-Reachable (looked 2 later) 3 second refl refl refl refl in
    taken-Reachable (taken 2 both_looked) 3 (taken-Reachable both_looked 2 third refl refl refl)
      refl refl refl

abbrev request : RestartRequest
request = record {
  request_id = "ab12";
  requested_config_digest = "sha256:1";
  force_restart = true;
  created_at = 7;
}

abbrev result : RestartResult
result = record {
  request_id = "ab12";
  success = true;
  applied_fingerprint = "f";
  error = "";
  updated_at = 9;
}

abbrev empty_disk : Disk
empty_disk path = none

abbrev follow : Entry → Result String
follow e = err (message "not a file")

abbrev temporary : String
temporary = "/c/.tmp"

abbrev path : String
path = "/c/request.json"

temporary_apart : temporary ≢ path
temporary_apart e = let q = (eq_iff temporary path).1 e in cc

read-write_restart_example :
    ((write_restart_request no_faults temporary path none false (λ r. "{}") request empty_disk).1
        ≡ none
      → read_restart_request follow
          (λ t. ok request)
          path
          (write_restart_request no_faults temporary path none false
            (λ r. "{}")
            request
            empty_disk).0
        ≡ ok request)
    × ((write_restart_result no_faults temporary path none false (λ r. "{}") result empty_disk).1
          ≡ none
        → read_restart_result follow
            (λ t. ok result)
            path
            (write_restart_result no_faults temporary path none false
              (λ r. "{}")
              result
              empty_disk).0
          ≡ ok result)
read-write_restart_example =
    read-write_restart no_faults temporary path none false follow temporary_apart (λ r. "{}")
      (λ t. ok request) (λ r. "{}") (λ t. ok result) request result empty_disk refl refl
