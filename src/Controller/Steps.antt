-- ===== src/Controller/Steps.antt =====
-- The coordinator's critical sections as steps, in any interleaving of callers and goroutines.
use credimi_runner.Prelude.{ℕ, ◌<◌, Bool, ◌≡◌, Option}
use credimi_runner.GoError.{GoError}
use credimi_runner.Controller.Operation.{
  OperationKind, Progress, Snapshot, ready, acting, closing, settling, Coordinator, new_coordinator,
  submit, update, begin, settle, close_channel, enter_history,
}

-- Progress may be reported at any time: an action may hand its callback to others.
pub data Step (c : Coordinator) : Coordinator → Type 0 where
  submits :
      (has_action : Bool) (kind : OperationKind) (now : ℕ) → Step c (submit has_action kind now c).0
  begins : (a now : ℕ) → a < c.fresh → (c.heap a).stage ≡ ready → Step c (begin a now c)
  reports : (a : ℕ) (p : Progress) (now : ℕ) → a < c.fresh → Step c (update a p now c)
  settles :
      (a : ℕ) (result ctx : Option GoError) (now : ℕ)
      → a < c.fresh
      → (c.heap a).stage ≡ acting
      → Step c (settle a result ctx now c)
  closes :
      (a : ℕ) (s : Snapshot)
      → a < c.fresh
      → (c.heap a).stage ≡ closing s
      → Step c (close_channel a s c)
  enters :
      (a : ℕ) (s : Snapshot)
      → a < c.fresh
      → (c.heap a).stage ≡ settling s
      → Step c (enter_history a s c)

-- What a coordinator can become from a new one.
pub data Reachable : Coordinator → Type 0 where
  starts_empty : Reachable new_coordinator
  goes_on : {c d : Coordinator} → Reachable c → Step c d → Reachable d
