-- ===== src/Supervisor/Run.antt =====
-- The supervisor over a sequence of method calls. Methods hold `transitionMu`, so concurrent
-- callers and the monitors of failed generations interleave as such a sequence. `RequestStart`
-- does not take that lock: it stands here between two methods.
pub mod Stopping
pub mod Replacing
pub mod Laws
use credimi_runner.Prelude.{ℕ, Option, none, some, List, [], ◌∷◌}
use credimi_runner.GoError.{GoError}
use credimi_runner.Config.{Config}
use credimi_runner.Supervisor.Generation.{Env}
use credimi_runner.Supervisor.Machine.{Supervisor, request_start}
use credimi_runner.Supervisor.Transitions.{start, stop, close, handle_generation_failure}
use credimi_runner.Supervisor.Restart.{restart, reconcile}
use credimi_runner.Supervisor.Apply.{apply_inventory, apply_endpoint}

pub data Call : Type 0 where
  requests_start starts stops restarts closes : Call
  reconciles : Config → Call
  applies_inventory : Config → Call
  applies_endpoint : Config → Call
  -- the monitor of the generation with this identity receives an error
  reports_failure : ℕ → GoError → Call

module _ {W : Type 0} (env : Env W) where
  unfoldable pub step : Call → Supervisor W → Supervisor W
  step requests_start s = (request_start env s).0
  step starts s = (start env s).0
  step stops s = (stop env s).0
  step restarts s = (restart env s).0
  step closes s = (close env s).0
  step (reconciles cfg) s = (reconcile env cfg s).0
  step (applies_inventory cfg) s = (apply_inventory env cfg s).0
  step (applies_endpoint cfg) s = (apply_endpoint env cfg s).0
  step (reports_failure identity e) s = handle_generation_failure env identity e s

  unfoldable pub run : List Call → Supervisor W → Supervisor W
  unfolding step
  run [] s = s
  run (c ∷ cs) s = run cs (step c s)
