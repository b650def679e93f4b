-- ===== src/Supervisor/Run/Replacing.antt =====
-- The methods that replace a generation keep the invariant.
use credimi_runner.Prelude.{
  Bool, true, false, ◌≡◌, refl, sym, ap, subst, String, Option, none, some,
}
use credimi_runner.GoError.{GoError}
use credimi_runner.Config.{Config}
use credimi_runner.Supervisor.State.{DesiredState, PersistentState, is_running, running, stopped}
use credimi_runner.Supervisor.Generation.{Generation, Env, local_resources_closed}
use credimi_runner.Supervisor.Teardown.{Torn, teardown}
use credimi_runner.Supervisor.Teardown.Laws.{IsWellFormed}
use credimi_runner.Supervisor.Construction.Laws.{MakesParts}
use credimi_runner.Supervisor.Machine.{
  Supervisor, update_state, live_executing, after_teardown, drop_generation,
}
use credimi_runner.Supervisor.Restart.{
  replaced_with, replaced, restart_from, restart_saved, restart, settle_stopped, given_up,
  reconcile_stopped, relaunch_saved, relaunch, relaunch_unless, reconcile_running, reconcile_by,
}
use credimi_runner.Supervisor.Invariant.{
  Held, IsConsistent, IsQuiet, update-IsConsistent, fail-IsConsistent, teardown_quiet,
  start_locked-IsConsistent, launch-IsConsistent,
}

module _ {W : Type 0} (env : Env W) where
  replaced_with-IsConsistent :
      (d : DesiredState) (text : String) (t : Torn W) (e : Option GoError) (closed : Bool)
      (next : Supervisor W → Supervisor W × Option GoError) (s : Supervisor W)
      → IsQuiet s
      → IsConsistent (next (drop_generation env s)).0
      → IsConsistent (replaced_with env d text t e closed next s).0
  unfolding replaced_with
  replaced_with-IsConsistent d text t (some e) closed next s q n = fail-IsConsistent env d _ s q
  replaced_with-IsConsistent d text t none false next s q n = fail-IsConsistent env d _ s q
  replaced_with-IsConsistent d text t none true next s q n = n

  replaced-IsConsistent :
      (d : DesiredState) (text reason : String) (pause : Bool) (g : Generation)
      (next : Supervisor W → Supervisor W × Option GoError) (s : Supervisor W)
      → IsWellFormed g
      → ((r : Supervisor W) → r.generation ≡ none → IsConsistent (next r).0)
      → IsConsistent (replaced env d text (teardown env reason pause g s.world) next s).0
  unfolding replaced
  replaced-IsConsistent d text reason pause g next s wf n =
      let facts = teardown_quiet env reason pause g s.world wf in
      let t = teardown env reason pause g s.world in
      replaced_with-IsConsistent d text t t.local_err (local_resources_closed t.gen) next
        (after_teardown env t s) (record { held = facts.0; quiet = facts.1 }) (n _ refl)

  empty-IsQuiet : (s : Supervisor W) → s.generation ≡ none → IsQuiet s
  empty-IsQuiet s p = record {
    held = subst (Held IsWellFormed) (sym p) tt;
    quiet = ap live_executing p;
  }

  given_up-IsConsistent :
      (t : Torn W) (e : Option GoError) (closed : Bool) (s : Supervisor W)
      → IsQuiet s
      → IsConsistent (given_up env t e closed s).0
  unfolding given_up settle_stopped
  given_up-IsConsistent t none true s q = update-IsConsistent env _ (drop_generation env s) tt refl
  given_up-IsConsistent t none false s q = fail-IsConsistent env stopped _ s q
  given_up-IsConsistent t (some e) closed s q = fail-IsConsistent env stopped _ s q

  reconcile_stopped-IsConsistent :
      (g : Option Generation) (s : Supervisor W)
      → s.generation ≡ g
      → Held IsWellFormed g
      → IsConsistent (reconcile_stopped env g s).0
  unfolding reconcile_stopped settle_stopped
  reconcile_stopped-IsConsistent none s p h =
      update-IsConsistent env _ s (empty-IsQuiet s p).held (sym (ap live_executing p))
  reconcile_stopped-IsConsistent (some g) s p h =
      let facts = teardown_quiet env "config_reconcile" false g s.world h in
      let t = teardown env "config_reconcile" false g s.world in
      given_up-IsConsistent t t.local_err (local_resources_closed t.gen) (after_teardown env t s)
        (record { held = facts.0; quiet = facts.1 })

  module _ (parts : MakesParts env) where
    restart_from-IsConsistent :
        (g : Option Generation) (s : Supervisor W)
        → s.generation ≡ g
        → Held IsWellFormed g
        → IsConsistent (restart_from env g s).0
    unfolding restart_from
    restart_from-IsConsistent none s p h =
        let q = empty-IsQuiet s p in
        start_locked-IsConsistent env parts false s q.held (λ e. cc) (λ _. q.quiet)
    restart_from-IsConsistent (some g) s p h =
        replaced-IsConsistent running _ _ true g _ s h λ r empty.
          let q = empty-IsQuiet r empty in
          start_locked-IsConsistent env parts false r q.held (λ e. cc) (λ _. q.quiet)

    restart_saved-IsConsistent :
        (previous : PersistentState) (e : Option GoError) (s : Supervisor W)
        → Held IsWellFormed s.generation
        → is_running previous.actual ≡ live_executing s.generation
        → IsConsistent (restart_saved env previous e s).0
    unfolding restart_saved
    restart_saved-IsConsistent previous none s h a = restart_from-IsConsistent s.generation s refl h
    restart_saved-IsConsistent previous (some x) s h a = record { held = h; agrees = a }

    pub restart-IsConsistent : (s : Supervisor W) → IsConsistent s → IsConsistent (restart env s).0
    unfolding restart update_state
    restart-IsConsistent s c = restart_saved-IsConsistent s.state _ _ c.held c.agrees

    relaunch_saved-IsConsistent :
        (e : Option GoError) (cfg : Config) (s : Supervisor W)
        → IsQuiet s
        → IsConsistent (relaunch_saved env e cfg s).0
    unfolding relaunch_saved
    relaunch_saved-IsConsistent (some e) cfg s q = fail-IsConsistent env running e s q
    relaunch_saved-IsConsistent none cfg s q = launch-IsConsistent env parts _ cfg s (λ st. refl) q

    relaunch-IsConsistent :
        (cfg : Config) (s : Supervisor W)
        → s.generation ≡ none
        → IsConsistent (relaunch env cfg s).0
    unfolding relaunch settle_stopped update_state
    relaunch-IsConsistent cfg s p =
        let q = empty-IsQuiet s p in
        relaunch_saved-IsConsistent _ cfg _ (record { held = q.held; quiet = q.quiet })

    relaunch_unless-IsConsistent :
        (e : Option GoError) (cfg : Config) (s : Supervisor W)
        → s.generation ≡ none
        → IsConsistent (relaunch_unless env e cfg s).0
    unfolding relaunch_unless
    relaunch_unless-IsConsistent none cfg s p = relaunch-IsConsistent cfg s p
    relaunch_unless-IsConsistent (some e) cfg s p =
        fail-IsConsistent env running e s (empty-IsQuiet s p)

    reconcile_running-IsConsistent :
        (g : Option Generation) (cfg : Config) (s : Supervisor W)
        → s.generation ≡ g
        → Held IsWellFormed g
        → IsConsistent (reconcile_running env g cfg s).0
    unfolding reconcile_running
    reconcile_running-IsConsistent none cfg s p h = relaunch-IsConsistent cfg s p
    reconcile_running-IsConsistent (some g) cfg s p h =
        replaced-IsConsistent running _ _ true g _ s h
          λ r empty. relaunch_unless-IsConsistent _ cfg r empty

    pub reconcile_by-IsConsistent :
        (d : DesiredState) (cfg : Config) (s : Supervisor W)
        → IsConsistent s
        → IsConsistent (reconcile_by env d cfg s).0
    unfolding reconcile_by
    reconcile_by-IsConsistent stopped cfg s c =
        reconcile_stopped-IsConsistent s.generation s refl c.held
    reconcile_by-IsConsistent running cfg s c =
        reconcile_running-IsConsistent s.generation cfg s refl c.held
