-- ===== src/Supervisor/Promises.antt =====
-- What the methods of the supervisor promise their callers by the error that they return.
use credimi_runner.Prelude.{
  ℕ, Bool, true, false, ◌≡◌, ◌≢◌, refl, ◌⊎◌, String, Option, none, some, arith, [], ◌∷◌, ◌==◌, ◌&&◌,
}
use credimi_runner.GoError.{GoError, join}
use credimi_runner.Config.{Config}
use credimi_runner.Supervisor.State.{DesiredState, ActualState, PersistentState, running, stopped}
use credimi_runner.Supervisor.Generation.{Generation, Env, Result, ok, err, local_resources_closed}
use credimi_runner.Supervisor.Teardown.{Torn, teardown}
use credimi_runner.Supervisor.Act.{Live}
use credimi_runner.Supervisor.Machine.{
  Supervisor, Outcome, returned, set_state, update_state, fail, is_clean, after_teardown,
}
use credimi_runner.Supervisor.Transitions.{
  or_rollback, start_cleaned, start_saved, rollback, rollback_by, activated, constructed, launch,
  start_validated, start_configured, start_fresh, start_torn, start_held, start_from, start_locked,
  start, component_failed, handle_failure_by, handle_generation_failure, stop_broken, stop_cleaned,
  finish_stop, stop_from, stop, close_from, close,
}
use credimi_runner.Supervisor.Restart.{
  replaced_with, replaced, restart_from, restart_saved, restart,
}

-- A nil error means that the runtime was to run and runs.
abbrev Starts : {W : Type 0} → Supervisor W × Option GoError → Type 0
Starts r = r.1 ≡ none → (r.0.state.desired ≡ running) × (r.0.state.actual ≡ ActualState.running)

module _ {W : Type 0} (env : Env W) where
  fail-Starts : (d : DesiredState) (e : GoError) (s : Supervisor W) → Starts (fail env d e s)
  unfolding fail join
  fail-Starts d e s h = ground arith

  rollback_by-Starts :
      (g : Option Generation) (e : GoError) (s : Supervisor W) → Starts (rollback_by env g e s)
  unfolding rollback_by join
  rollback_by-Starts none e s h = fail-Starts running e s h
  rollback_by-Starts (some g) e s h = ground arith

  or_rollback-Starts :
      (e : Option GoError) (s : Supervisor W)
      → s.state.desired ≡ running
      → s.state.actual ≡ ActualState.running
      → Starts (or_rollback env e s)
  unfolding or_rollback rollback
  or_rollback-Starts none s d a h = (d, a)
  or_rollback-Starts (some e) s d a h = rollback_by-Starts s.generation e s h

  module _ (f : PersistentState → PersistentState) where
    abbrev RunsBy : PersistentState → Type 0
    RunsBy st = ((f st).desired ≡ running) × ((f st).actual ≡ ActualState.running)

    activated-Starts :
        (r : Live W × Result (Unit {0})) (s : Supervisor W)
        → RunsBy s.state
        → Starts (activated env f r s)
    unfolding activated rollback update_state
    activated-Starts (l, err e) s runs h =
        rollback_by-Starts (some l.gen) e (record s { generation = some l.gen; world = l.world }) h
    activated-Starts (l, ok _) s runs h =
        or_rollback-Starts
          (update_state env f (record s { generation = some l.gen; world = l.world })).1
          (update_state env f (record s { generation = some l.gen; world = l.world })).0 runs.0
          runs.1 h

    constructed-Starts :
        (s : Supervisor W) (r : W × Result Generation)
        → RunsBy s.state
        → Starts (constructed env f s r)
    unfolding constructed
    constructed-Starts s (w, err e) runs h = fail-Starts running e _ h
    constructed-Starts s (w, ok g) runs h = activated-Starts _ _ runs h

  start_validated-Starts :
      (e : Option GoError) (cfg : Config) (s : Supervisor W) → Starts (start_validated env e cfg s)
  unfolding start_validated launch
  start_validated-Starts none cfg s h = constructed-Starts _ s _ (refl, refl) h
  start_validated-Starts (some e) cfg s h = fail-Starts running e s h

  start_configured-Starts :
      (r : W × Result Config) (s : Supervisor W) → Starts (start_configured env r s)
  unfolding start_configured
  start_configured-Starts (w, err e) s h = fail-Starts running e _ h
  start_configured-Starts (w, ok cfg) s h = start_validated-Starts _ cfg _ h

  start_cleaned-Starts :
      (e : Option GoError) (closed : Bool) (s : Supervisor W)
      → Starts (start_cleaned env e closed s)
  unfolding start_cleaned start_fresh
  start_cleaned-Starts (some e) closed s h = fail-Starts running e s h
  start_cleaned-Starts none false s h = fail-Starts running _ s h
  start_cleaned-Starts none true s h = start_configured-Starts _ _ h

  start_held-Starts :
      (b : Bool) (g : Generation) (s : Supervisor W)
      → s.state.desired ≡ running
      → Starts (start_held env b g s)
  unfolding start_held start_torn update_state
  start_held-Starts true g s d h = (d, refl)
  start_held-Starts false g s d h = start_cleaned-Starts _ _ _ h

  start_from-Starts :
      (g : Option Generation) (s : Supervisor W)
      → s.state.desired ≡ running
      → Starts (start_from env g s)
  unfolding start_from start_fresh
  start_from-Starts none s d h = start_configured-Starts _ s h
  start_from-Starts (some g) s d h = start_held-Starts g.executing g s d h

  start_saved-Starts :
      (restore : Bool) (previous : PersistentState) (e : Option GoError) (s : Supervisor W)
      → s.state.desired ≡ running
      → Starts (start_saved env restore previous e s)
  unfolding start_saved
  start_saved-Starts restore previous none s d h = start_from-Starts s.generation s d h
  start_saved-Starts true previous (some e) s d h = cc
  start_saved-Starts false previous (some e) s d h = fail-Starts running e s h

  start_locked-Starts : (restore : Bool) (s : Supervisor W) → Starts (start_locked env restore s)
  unfolding start_locked update_state
  start_locked-Starts restore s h = start_saved-Starts restore s.state _ _ refl h

  -- `Start` returns nil only when the runtime is desired to run and is running.
  pub start_returns_nil :
      (s : Supervisor W)
      → (start env s).1 ≡ none
      → ((start env s).0.state.desired ≡ running)
        × ((start env s).0.state.actual ≡ ActualState.running)
  unfolding start
  start_returns_nil s h = start_locked-Starts true s h

  replaced_with-Starts :
      (d : DesiredState) (text : String) (t : Torn W) (e : Option GoError) (closed : Bool)
      (next : Supervisor W → Supervisor W × Option GoError) (s : Supervisor W)
      → ((r : Supervisor W) → Starts (next r))
      → Starts (replaced_with env d text t e closed next s)
  unfolding replaced_with
  replaced_with-Starts d text t (some e) closed next s n h = fail-Starts d _ s h
  replaced_with-Starts d text t none false next s n h = fail-Starts d _ s h
  replaced_with-Starts d text t none true next s n h = n _ h

  restart_from-Starts : (g : Option Generation) (s : Supervisor W) → Starts (restart_from env g s)
  unfolding restart_from replaced
  restart_from-Starts none s h = start_locked-Starts false s h
  restart_from-Starts (some g) s h =
      let t = teardown env "runtime_restart" true g s.world in
      replaced_with-Starts running "previous generation is not closed" t t.local_err
        (local_resources_closed t.gen) (start_locked env false) (after_teardown env t s)
        (λ r. start_locked-Starts false r) h

  restart_saved-Starts :
      (previous : PersistentState) (e : Option GoError) (s : Supervisor W)
      → Starts (restart_saved env previous e s)
  unfolding restart_saved
  restart_saved-Starts previous none s h = restart_from-Starts s.generation s h
  restart_saved-Starts previous (some e) s h = cc

  -- `Restart` returns nil only when the runtime is desired to run and is running.
  pub restart_returns_nil :
      (s : Supervisor W)
      → (restart env s).1 ≡ none
      → ((restart env s).0.state.desired ≡ running)
        × ((restart env s).0.state.actual ≡ ActualState.running)
  unfolding restart
  restart_returns_nil s h =
      let r = update_state env (set_state running ActualState.stopping none) s in
      restart_saved-Starts s.state r.1 r.0 h

  not_failed :
      (b : Bool) (e : GoError) (g : Generation) (s : Supervisor W)
      → b ≡ false
      → component_failed env b e g s ≡ s
  unfolding component_failed
  not_failed false e g s h = refl
  not_failed true e g s h = cc

  stale_by :
      (held : Option Generation) (identity : ℕ) (e : GoError) (s : Supervisor W)
      → ((g : Generation) → held ≡ some g → (g.identity ≢ identity) ⊎ (g.executing ≡ false))
      → handle_failure_by env held identity e s ≡ s
  unfolding handle_failure_by
  stale_by none identity e s stale = refl
  stale_by (some g) identity e s stale =
      not_failed ((g.identity == identity) && g.executing) e g s
        (let p = stale g refl in ground (arith, p))

  -- A failure that a monitor reports of a generation that is not the held one, or that no longer
  -- executes, changes nothing.
  pub stale_failure_ignored :
      (identity : ℕ) (e : GoError) (s : Supervisor W)
      → ((g : Generation) → s.generation ≡ some g → (g.identity ≢ identity) ⊎ (g.executing ≡ false))
      → handle_generation_failure env identity e s ≡ s
  unfolding handle_generation_failure
  stale_failure_ignored identity e s stale = stale_by s.generation identity e s stale

-- A stop that returns nil has stopped the runtime and holds no generation; whatever it returns, the
-- runtime is desired as it was asked for.
abbrev Stopped : {W : Type 0} → DesiredState → Supervisor W × Outcome → Type 0
Stopped d r =
    (r.0.state.desired ≡ d)
    × (r.1 ≡ returned none → (r.0.state.actual ≡ ActualState.stopped) × (r.0.generation ≡ none))

join_last : (a b : Option GoError) (c : GoError) → join (a ∷ some c ∷ b ∷ []) ≢ none
unfolding join
join_last none b c h = cc
join_last (some a) b c h = cc

returned_inv : (o : Option GoError) → returned o ≡ returned none → o ≡ none
returned_inv none h = refl
returned_inv (some e) h = cc

module _ {W : Type 0} (env : Env W) where
  stop_broken-Stopped :
      (d : DesiredState) (c e : Option GoError) (s : Supervisor W)
      → s.state.desired ≡ d
      → Stopped d (stop_broken env d c e s)
  unfolding stop_broken update_state
  stop_broken-Stopped d none e s p = (p, λ h. cc)
  stop_broken-Stopped d (some c) e s p = (refl, λ h. absurd (join_last e _ c (returned_inv _ h)))

  stop_cleaned-Stopped :
      (b : Bool) (d : DesiredState) (t : Torn W) (e : Option GoError) (s : Supervisor W)
      → s.state.desired ≡ d
      → Stopped d (stop_cleaned env b d t e s)
  unfolding stop_cleaned update_state
  stop_cleaned-Stopped true d t e s p = (refl, λ h. (refl, refl))
  stop_cleaned-Stopped false d t e s p =
      stop_broken-Stopped d (join (t.remote_err ∷ t.local_err ∷ [])) e s p

  finish_stop-Stopped :
      (d : DesiredState) (t : Torn W) (e : Option GoError) (s : Supervisor W)
      → s.state.desired ≡ d
      → Stopped d (finish_stop env d t e s)
  unfolding finish_stop
  finish_stop-Stopped d t e s p =
      stop_cleaned-Stopped (is_clean env t) d t e (after_teardown env t s) p

  stop_from-Stopped :
      (g : Option Generation) (e : Option GoError) (s : Supervisor W)
      → s.generation ≡ g
      → s.state.desired ≡ stopped
      → Stopped stopped (stop_from env g e s)
  unfolding stop_from update_state
  stop_from-Stopped none e s p d = (d, λ h. (refl, p))
  stop_from-Stopped (some g) e s p d =
      finish_stop-Stopped stopped (teardown env "runtime_stop" true g s.world) e s d

  -- After `Stop` the runtime is desired to be stopped, whatever happened. If it returns nil, the
  -- runtime is reported as stopped and no generation is held.
  pub stop_returns_nil :
      (s : Supervisor W)
      → ((stop env s).0.state.desired ≡ stopped)
        × ((stop env s).1 ≡ returned none
            → ((stop env s).0.state.actual ≡ ActualState.stopped)
              × ((stop env s).0.generation ≡ none))
  unfolding stop update_state
  stop_returns_nil s =
      let r = update_state env (set_state stopped ActualState.stopping none) s in
      stop_from-Stopped r.0.generation r.1 r.0 refl refl

  close_from-Stopped :
      (g : Option Generation) (s : Supervisor W)
      → s.generation ≡ g
      → Stopped s.state.desired (close_from env g s)
  unfolding close_from update_state
  close_from-Stopped none s p = (refl, λ h. (refl, p))
  close_from-Stopped (some g) s p =
      finish_stop-Stopped s.state.desired (teardown env "service_shutdown" true g s.world) none s
        refl

  -- `Close` never changes what is desired, so the next process restores it. If it returns nil, the
  -- runtime is reported as stopped and no generation is held.
  pub close_returns_nil :
      (s : Supervisor W)
      → ((close env s).0.state.desired ≡ s.state.desired)
        × ((close env s).1 ≡ returned none
            → ((close env s).0.state.actual ≡ ActualState.stopped)
              × ((close env s).0.generation ≡ none))
  unfolding close
  close_returns_nil s = close_from-Stopped s.generation s refl
