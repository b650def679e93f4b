-- ===== src/Supervisor/Transitions.antt =====
-- The methods that move the supervisor between its states, internal/runtimesupervisor/supervisor.go.
use credimi_runner.Prelude.{
  ℕ, suc, Bool, true, false, ◌&&◌, String, Option, none, some, [], ◌∷◌, ◌==◌, if◌then◌else◌,
}
use credimi_runner.GoError.{GoError, message, join, join_with}
use credimi_runner.Config.{Config}
use credimi_runner.Supervisor.State.{DesiredState, ActualState, PersistentState}
use credimi_runner.Supervisor.Generation.{Generation, Env, Result, ok, err, local_resources_closed}
use credimi_runner.Supervisor.Teardown.{Torn, teardown}
use credimi_runner.Supervisor.Act.{Live}
use credimi_runner.Supervisor.Activation.{activate}
use credimi_runner.Supervisor.Construction.{new_generation}
use credimi_runner.Supervisor.Machine.{
  Supervisor, Outcome, returned, panicked, set_state, update_state, fail, after_teardown,
  drop_generation, is_clean,
}

module _ {W : Type 0} (env : Env W) where
  abbrev pub Ret : Type 0
  Ret = Supervisor W × Option GoError

  -- The tail that `rollback` and `handleGenerationFailure` share: the generation is torn down, and
  -- the failure is recorded with the errors of that.
  unfoldable pub failed_with :
      String → GoError → Generation → Supervisor W → Supervisor W × GoError × Option GoError
  failed_with reason e g s =
      let t = teardown env reason true g s.world in
      let torn = after_teardown env t s in
      let s₁ : Supervisor W = if is_clean env t then drop_generation env torn else torn in
      let combined = join_with e (t.remote_err ∷ t.local_err ∷ []) in
      let (s₂, state_err) =
        update_state env (set_state DesiredState.running ActualState.failed (some combined)) s₁ in
      (s₂, combined, state_err)

  unfoldable pub rollback_by : Option Generation → GoError → Supervisor W → Ret
  unfolding failed_with
  rollback_by none e s = fail env DesiredState.running e s
  rollback_by (some g) e s =
      let (s₁, combined, state_err) = failed_with "start_failed" e g s in
      (s₁, join (some combined ∷ state_err ∷ []))

  unfoldable pub rollback : GoError → Supervisor W → Ret
  unfolding rollback_by
  rollback e s = rollback_by s.generation e s

  unfoldable pub or_rollback : Option GoError → Supervisor W → Ret
  or_rollback none s = (s, none)
  or_rollback (some e) s = rollback e s

  -- The end of an activation: the state is saved as running, or everything is rolled back.
  unfoldable pub activated :
      (PersistentState → PersistentState) → Live W × Result (Unit {0}) → Supervisor W → Ret
  unfolding or_rollback
  activated f (l, err e) s = rollback e (record s { generation = some l.gen; world = l.world })
  activated f (l, ok _) s =
      let (s₁, e) = update_state env f (record s { generation = some l.gen; world = l.world }) in
      or_rollback e s₁

  unfoldable pub constructed :
      (PersistentState → PersistentState) → Supervisor W → W × Result Generation → Ret
  unfolding activated
  constructed f s (w, err e) = fail env DesiredState.running e (record s { world = w })
  constructed f s (w, ok g) =
      let made : Supervisor W = record s {
        generation = some g;
        next_identity = suc s.next_identity;
        world = w;
      } in
      activated f (activate env (record { gen = g; world = w })) made

  -- A generation is made for the configuration, set and activated.
  unfoldable pub launch : (PersistentState → PersistentState) → Config → Supervisor W → Ret
  unfolding constructed
  launch f cfg s = constructed f s (new_generation env s.next_identity cfg s.world)

  unfoldable pub start_validated : Option GoError → Config → Supervisor W → Ret
  unfolding launch
  start_validated (some e) cfg s = fail env DesiredState.running e s
  start_validated none cfg s =
      launch (set_state DesiredState.running ActualState.running none) cfg s

  unfoldable pub start_configured : W × Result Config → Supervisor W → Ret
  unfolding start_validated
  start_configured (w, err e) s = fail env DesiredState.running e (record s { world = w })
  start_configured (w, ok cfg) s =
      start_validated (env.validate_config cfg) cfg (record s { world = w })

  unfoldable pub start_fresh : Supervisor W → Ret
  unfolding start_configured
  start_fresh s = start_configured (env.load_config s.world) s

  -- What is left of an earlier generation is torn down before a new one is made.
  unfoldable pub start_cleaned : Option GoError → Bool → Supervisor W → Ret
  start_cleaned (some e) closed torn = fail env DesiredState.running e torn
  start_cleaned none false torn =
      fail env DesiredState.running (message "previous runtime generation still owns resources")
        torn
  start_cleaned none true torn = start_fresh (drop_generation env torn)

  unfoldable pub start_torn : Torn W → Supervisor W → Ret
  unfolding start_cleaned
  start_torn t s = start_cleaned t.local_err (local_resources_closed t.gen) (after_teardown env t s)

  -- A generation that already executes is kept.
  unfoldable pub start_held : Bool → Generation → Supervisor W → Ret
  unfolding start_torn
  start_held true g s = update_state env (λ st. record st { actual = ActualState.running }) s
  start_held false g s = start_torn (teardown env "start_cleanup" false g s.world) s

  unfoldable pub start_from : Option Generation → Supervisor W → Ret
  unfolding start_held
  start_from none s = start_fresh s
  start_from (some g) s = start_held g.executing g s

  unfoldable pub start_saved : Bool → PersistentState → Option GoError → Supervisor W → Ret
  unfolding start_from
  start_saved restore previous none s = start_from s.generation s
  start_saved true previous (some x) s = (record s { state = previous }, some x)
  start_saved false previous (some x) s = fail env DesiredState.running x s

  -- `startLocked`.
  unfoldable pub start_locked : Bool → Supervisor W → Ret
  unfolding start_saved
  start_locked restore s =
      let (s₁, e) = update_state env (set_state DesiredState.running ActualState.starting none) s in
      start_saved restore s.state e s₁

  unfoldable pub start : Supervisor W → Ret
  unfolding start_locked
  start s = start_locked true s

  -- `handleGenerationFailure` of the generation that a monitor was started for.
  unfoldable pub component_failed : Bool → GoError → Generation → Supervisor W → Supervisor W
  unfolding failed_with
  component_failed true e g s = (failed_with "component_failed" e g s).0
  component_failed false e g s = s

  unfoldable pub handle_failure_by : Option Generation → ℕ → GoError → Supervisor W → Supervisor W
  unfolding component_failed
  handle_failure_by none identity e s = s
  handle_failure_by (some g) identity e s =
      component_failed ((g.identity == identity) && g.executing) e g s

  unfoldable pub handle_generation_failure : ℕ → GoError → Supervisor W → Supervisor W
  unfolding handle_failure_by
  handle_generation_failure identity e s = handle_failure_by s.generation identity e s

  -- The tail of `Stop` and `Close`. With neither an error nor everything closed, the nil
  -- `combined` is dereferenced.
  unfoldable pub stop_broken :
      DesiredState → Option GoError → Option GoError → Supervisor W → Supervisor W × Outcome
  stop_broken d none state_err torn = (torn, panicked)
  stop_broken d (some c) state_err torn =
      let (s₁, e) = update_state env (set_state d ActualState.failed (some c)) torn in
      (s₁, returned (join (state_err ∷ some c ∷ e ∷ [])))

  unfoldable pub stop_cleaned :
      Bool → DesiredState → Torn W → Option GoError → Supervisor W → Supervisor W × Outcome
  unfolding stop_broken
  stop_cleaned true d t state_err torn =
      let (s₁, e) =
        update_state env (set_state d ActualState.stopped t.remote_err)
          (drop_generation env torn) in
      (s₁, returned (join (state_err ∷ t.remote_err ∷ e ∷ [])))
  stop_cleaned false d t state_err torn =
      stop_broken d (join (t.remote_err ∷ t.local_err ∷ [])) state_err torn

  unfoldable pub finish_stop :
      DesiredState → Torn W → Option GoError → Supervisor W → Supervisor W × Outcome
  unfolding stop_cleaned
  finish_stop d t state_err s = stop_cleaned (is_clean env t) d t state_err (after_teardown env t s)

  unfoldable pub stop_from :
      Option Generation → Option GoError → Supervisor W → Supervisor W × Outcome
  unfolding finish_stop
  stop_from none state_err s =
      let (s₁, e) = update_state env (λ st. record st { actual = ActualState.stopped }) s in
      (s₁, returned (join (state_err ∷ e ∷ [])))
  stop_from (some g) state_err s =
      finish_stop DesiredState.stopped (teardown env "runtime_stop" true g s.world) state_err s

  unfoldable pub stop : Supervisor W → Supervisor W × Outcome
  unfolding stop_from
  stop s =
      let (s₁, e) = update_state env (set_state DesiredState.stopped ActualState.stopping none) s in
      stop_from s₁.generation e s₁

  unfoldable pub close_from : Option Generation → Supervisor W → Supervisor W × Outcome
  unfolding finish_stop
  close_from none s =
      let (s₁, e) = update_state env (λ st. record st { actual = ActualState.stopped }) s in
      (s₁, returned e)
  close_from (some g) s =
      finish_stop s.state.desired (teardown env "service_shutdown" true g s.world) none s

  -- `Close` keeps what is desired, so that the next process restores it.
  unfoldable pub close : Supervisor W → Supervisor W × Outcome
  unfolding close_from
  close s = close_from s.generation s
