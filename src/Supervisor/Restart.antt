-- ===== src/Supervisor/Restart.antt =====
-- `Restart` and `Reconcile`, internal/runtimesupervisor/supervisor.go: the transitions that replace
-- a generation.
use credimi_runner.Prelude.{Bool, true, false, String, Option, none, some, [], ◌∷◌}
use credimi_runner.GoError.{GoError, message, joined, keep}
use credimi_runner.Config.{Config}
use credimi_runner.Supervisor.State.{DesiredState, ActualState, PersistentState, running, stopped}
use credimi_runner.Supervisor.Generation.{Generation, Env, local_resources_closed}
use credimi_runner.Supervisor.Teardown.{Torn, teardown}
use credimi_runner.Supervisor.Machine.{
  Supervisor, set_state, update_state, fail, after_teardown, drop_generation,
}
use credimi_runner.Supervisor.Transitions.{launch, start_locked}

module _ {W : Type 0} (env : Env W) where
  abbrev pub Ret : Type 0
  Ret = Supervisor W × Option GoError

  -- Go on with `next` once the teardown has closed everything without a local error.
  unfoldable pub replaced_with :
      DesiredState
      → String
      → Torn W
      → Option GoError
      → Bool
      → (Supervisor W → Ret)
      → Supervisor W
      → Ret
  replaced_with d text t (some e) closed next torn =
      fail env d (joined (keep (t.remote_err ∷ some e ∷ []))) torn
  replaced_with d text t none false next torn = fail env d (message text) torn
  replaced_with d text t none true next torn = next (drop_generation env torn)

  unfoldable pub replaced :
      DesiredState → String → Torn W → (Supervisor W → Ret) → Supervisor W → Ret
  unfolding replaced_with
  replaced d text t next s =
      replaced_with d text t t.local_err (local_resources_closed t.gen) next
        (after_teardown env t s)

  unfoldable pub restart_from : Option Generation → Supervisor W → Ret
  unfolding replaced
  restart_from none s = start_locked env false s
  restart_from (some g) s =
      replaced running "previous generation is not closed"
        (teardown env "runtime_restart" true g s.world) (start_locked env false) s

  unfoldable pub restart_saved : PersistentState → Option GoError → Supervisor W → Ret
  unfolding restart_from
  restart_saved previous none s = restart_from s.generation s
  restart_saved previous (some x) s = (record s { state = previous }, some x)

  unfoldable pub restart : Supervisor W → Ret
  unfolding restart_saved
  restart s =
      let (s₁, e) = update_state env (set_state running ActualState.stopping none) s in
      restart_saved s.state e s₁

  -- The desired state is stopped: a generation that is still held is given up.
  unfoldable pub settle_stopped : Supervisor W → Ret
  settle_stopped s =
      update_state env (λ st. record st { actual = ActualState.stopped; last_error = none }) s

  abbrev pub or_incomplete : Option GoError → GoError
  or_incomplete none = message "generation teardown incomplete"
  or_incomplete (some e) = e

  unfoldable pub given_up : Torn W → Option GoError → Bool → Supervisor W → Ret
  unfolding settle_stopped
  given_up t none true torn = settle_stopped (drop_generation env torn)
  given_up t e closed torn =
      fail env stopped (joined (keep (t.remote_err ∷ some (or_incomplete e) ∷ []))) torn

  unfoldable pub reconcile_stopped : Option Generation → Supervisor W → Ret
  unfolding given_up
  reconcile_stopped none s = settle_stopped s
  reconcile_stopped (some g) s =
      let t = teardown env "config_reconcile" false g s.world in
      given_up t t.local_err (local_resources_closed t.gen) (after_teardown env t s)

  -- The desired state is running: the runtime is launched anew with the new configuration.
  unfoldable pub relaunch_saved : Option GoError → Config → Supervisor W → Ret
  relaunch_saved (some e) cfg s = fail env running e s
  relaunch_saved none cfg s = launch env (λ st. record st { actual = ActualState.running }) cfg s

  unfoldable pub relaunch : Config → Supervisor W → Ret
  unfolding settle_stopped relaunch_saved
  relaunch cfg s = let (s₁, e) = settle_stopped s in relaunch_saved e cfg s₁

  -- A remote error of the teardown stops the reconciliation after the generation was dropped.
  unfoldable pub relaunch_unless : Option GoError → Config → Supervisor W → Ret
  unfolding relaunch
  relaunch_unless none cfg s = relaunch cfg s
  relaunch_unless (some e) cfg s = fail env running e s

  unfoldable pub reconcile_running : Option Generation → Config → Supervisor W → Ret
  unfolding relaunch relaunch_unless replaced
  reconcile_running none cfg s = relaunch cfg s
  reconcile_running (some g) cfg s =
      let t = teardown env "config_reconcile" true g s.world in
      replaced running "generation teardown incomplete" t (relaunch_unless t.remote_err cfg) s

  unfoldable pub reconcile_by : DesiredState → Config → Supervisor W → Ret
  unfolding reconcile_stopped reconcile_running
  reconcile_by stopped cfg s = reconcile_stopped s.generation s
  reconcile_by running cfg s = reconcile_running s.generation cfg s

  -- `Reconcile`. The desired state is one of the two, so the lines after the running case of the
  -- source are not reached.
  unfoldable pub reconcile : Config → Supervisor W → Ret
  unfolding reconcile_by
  reconcile cfg s = reconcile_by s.state.desired cfg s
