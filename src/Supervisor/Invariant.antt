-- ===== src/Supervisor/Invariant.antt =====
-- The invariant of the supervisor between two methods.
use credimi_runner.Prelude.{
  Bool, true, false, ◌≡◌, refl, sym, ap, subst, ◌∙◌, String, Option, none, some, arith,
}
use credimi_runner.GoError.{GoError}
use credimi_runner.Config.{Config}
use credimi_runner.Supervisor.State.{
  DesiredState, ActualState, PersistentState, is_running, running,
}
use credimi_runner.Supervisor.Generation.{Generation, Env, Result, ok, err}
use credimi_runner.Supervisor.Teardown.{teardown}
use credimi_runner.Supervisor.Teardown.Laws.{
  IsWellFormed, teardown-Kept, teardown_stops, Kept-IsWellFormed,
}
use credimi_runner.Supervisor.Act.{Live}
use credimi_runner.Supervisor.Activation.Laws.{activate_ok, activate-IsWellFormed}
use credimi_runner.Supervisor.Construction.Laws.{MakesParts, new_generation-IsIdle}
use credimi_runner.Supervisor.Machine.{Supervisor, update_state, fail, live_executing}
use credimi_runner.Supervisor.Transitions.{
  or_rollback, start_cleaned, start_saved, failed_with, rollback, rollback_by, activated,
  constructed, launch, start_validated, start_configured, start_fresh, start_torn, start_held,
  start_from, start_locked, start,
}

abbrev pub Held : (Generation → Type 0) → Option Generation → Type 0
Held P none = Unit
Held P (some g) = P g

-- The runtime is reported as running exactly while a generation is held that executes, and a
-- generation that is held is well formed.
pub record IsConsistent {W : Type 0} (s : Supervisor W) : Type 0 where
  pub held : Held IsWellFormed s.generation
  pub agrees : is_running s.state.actual ≡ live_executing s.generation

-- Between two methods, or within one that has just changed the state: nothing executes.
pub record IsQuiet {W : Type 0} (s : Supervisor W) : Type 0 where
  pub held : Held IsWellFormed s.generation
  pub quiet : live_executing s.generation ≡ false

module _ {W : Type 0} (env : Env W) where
  pub teardown_quiet :
      (reason : String) (pause : Bool) (g : Generation) (w : W)
      → IsWellFormed g
      → let t = teardown env reason pause g w in IsWellFormed t.gen × (t.gen.executing ≡ false)
  teardown_quiet reason pause g w wf = (
    Kept-IsWellFormed (teardown-Kept env reason pause g w) wf,
    (teardown_stops env reason pause g w).0,
  )

  pub update-IsConsistent :
      (f : PersistentState → PersistentState) (s : Supervisor W)
      → Held IsWellFormed s.generation
      → is_running (f s.state).actual ≡ live_executing s.generation
      → IsConsistent (update_state env f s).0
  unfolding update_state
  update-IsConsistent f s h e = record { held = h; agrees = e }

  pub fail-IsConsistent :
      (d : DesiredState) (e : GoError) (s : Supervisor W)
      → IsQuiet s
      → IsConsistent (fail env d e s).0
  unfolding fail
  fail-IsConsistent d e s q = record { held = q.held; agrees = ground arith }

  pub failed_with-IsConsistent :
      (reason : String) (e : GoError) (g : Generation) (s : Supervisor W)
      → IsWellFormed g
      → IsConsistent (failed_with env reason e g s).0
  unfolding failed_with update_state
  failed_with-IsConsistent reason e g s wf =
      let facts = teardown_quiet reason true g s.world wf in
      record { held = ground (arith, facts); agrees = ground (arith, facts) }

  rollback_by-IsConsistent :
      (g : Option Generation) (e : GoError) (s : Supervisor W)
      → Held IsWellFormed g
      → s.generation ≡ g
      → IsConsistent (rollback_by env g e s).0
  unfolding rollback_by
  rollback_by-IsConsistent none e s h p =
      fail-IsConsistent running e s
        (record { held = subst (Held IsWellFormed) (sym p) h; quiet = ap live_executing p })
  rollback_by-IsConsistent (some g) e s h p = failed_with-IsConsistent "start_failed" e g s h

  rollback-IsConsistent :
      (e : GoError) (s : Supervisor W)
      → Held IsWellFormed s.generation
      → IsConsistent (rollback env e s).0
  unfolding rollback
  rollback-IsConsistent e s h = rollback_by-IsConsistent s.generation e s h refl

  or_rollback-IsConsistent :
      (e : Option GoError) (s : Supervisor W)
      → IsConsistent s
      → IsConsistent (or_rollback env e s).0
  unfolding or_rollback
  or_rollback-IsConsistent none s c = c
  or_rollback-IsConsistent (some x) s c = rollback-IsConsistent x s c.held

  activated-IsConsistent :
      (f : PersistentState → PersistentState) (r : Live W × Result (Unit {0})) (s : Supervisor W)
      → ((st : PersistentState) → (f st).actual ≡ ActualState.running)
      → IsWellFormed r.0.gen
      → (r.1 ≡ ok tt → r.0.gen.executing ≡ true)
      → IsConsistent (activated env f r s).0
  unfolding activated
  activated-IsConsistent f (l, err e) s runs wf done = rollback-IsConsistent e _ wf
  activated-IsConsistent f (l, ok _) s runs wf done =
      let here : Supervisor W = record s { generation = some l.gen; world = l.world } in
      or_rollback-IsConsistent _ (update_state env f here).0
        (update-IsConsistent f here wf (ground (arith, runs s.state, done refl)))

  constructed-IsConsistent :
      (f : PersistentState → PersistentState) (s : Supervisor W) (r : W × Result Generation)
      → ((st : PersistentState) → (f st).actual ≡ ActualState.running)
      → IsQuiet s
      → ((g : Generation) → r.1 ≡ ok g → IsWellFormed g)
      → IsConsistent (constructed env f s r).0
  unfolding constructed
  constructed-IsConsistent f s (w, err e) runs q made =
      fail-IsConsistent running e _ (record { held = q.held; quiet = q.quiet })
  constructed-IsConsistent f s (w, ok g) runs q made =
      let l : Live W = record { gen = g; world = w } in
      let wf = made g refl in
      activated-IsConsistent f _ _ runs (activate-IsWellFormed env l wf).0
        (λ e. (activate_ok env l wf e).0)

  module _ (parts : MakesParts env) where
    pub launch-IsConsistent :
        (f : PersistentState → PersistentState) (cfg : Config) (s : Supervisor W)
        → ((st : PersistentState) → (f st).actual ≡ ActualState.running)
        → IsQuiet s
        → IsConsistent (launch env f cfg s).0
    unfolding launch
    launch-IsConsistent f cfg s runs q =
        constructed-IsConsistent f s _ runs q
          (λ g e. (new_generation-IsIdle env s.next_identity cfg s.world g parts e).well_formed)

    start_validated-IsConsistent :
        (e : Option GoError) (cfg : Config) (s : Supervisor W)
        → IsQuiet s
        → IsConsistent (start_validated env e cfg s).0
    unfolding start_validated
    start_validated-IsConsistent none cfg s q = launch-IsConsistent _ cfg s (λ st. refl) q
    start_validated-IsConsistent (some e) cfg s q = fail-IsConsistent running e s q

    start_configured-IsConsistent :
        (r : W × Result Config) (s : Supervisor W)
        → IsQuiet s
        → IsConsistent (start_configured env r s).0
    unfolding start_configured
    start_configured-IsConsistent (w, err e) s q =
        fail-IsConsistent running e _ (record { held = q.held; quiet = q.quiet })
    start_configured-IsConsistent (w, ok cfg) s q =
        start_validated-IsConsistent _ cfg _ (record { held = q.held; quiet = q.quiet })

    start_fresh-IsConsistent : (s : Supervisor W) → IsQuiet s → IsConsistent (start_fresh env s).0
    unfolding start_fresh
    start_fresh-IsConsistent s q = start_configured-IsConsistent _ s q

    start_cleaned-IsConsistent :
        (e : Option GoError) (closed : Bool) (s : Supervisor W)
        → IsQuiet s
        → IsConsistent (start_cleaned env e closed s).0
    unfolding start_cleaned
    start_cleaned-IsConsistent (some e) closed s q = fail-IsConsistent running e s q
    start_cleaned-IsConsistent none false s q = fail-IsConsistent running _ s q
    start_cleaned-IsConsistent none true s q =
        start_fresh-IsConsistent _ (record { held = tt; quiet = refl })

    start_held-IsConsistent :
        (b : Bool) (g : Generation) (s : Supervisor W)
        → s.generation ≡ some g
        → g.executing ≡ b
        → IsWellFormed g
        → IsConsistent (start_held env b g s).0
    unfolding start_held start_torn
    start_held-IsConsistent true g s p e h =
        update-IsConsistent _ s (subst (Held IsWellFormed) (sym p) h)
          (sym (ap live_executing p ∙ e))
    start_held-IsConsistent false g s p e h =
        let facts = teardown_quiet "start_cleanup" false g s.world h in
        start_cleaned-IsConsistent _ _ _ (record { held = facts.0; quiet = facts.1 })

    start_from-IsConsistent :
        (g : Option Generation) (s : Supervisor W)
        → s.generation ≡ g
        → Held IsWellFormed g
        → IsConsistent (start_from env g s).0
    unfolding start_from
    start_from-IsConsistent none s p h =
        start_fresh-IsConsistent s
          (record { held = subst (Held IsWellFormed) (sym p) h; quiet = ap live_executing p })
    start_from-IsConsistent (some g) s p h = start_held-IsConsistent g.executing g s p refl h

    start_saved-IsConsistent :
        (restore : Bool) (previous : PersistentState) (e : Option GoError) (s : Supervisor W)
        → Held IsWellFormed s.generation
        → (restore ≡ true → is_running previous.actual ≡ live_executing s.generation)
        → (restore ≡ false → live_executing s.generation ≡ false)
        → IsConsistent (start_saved env restore previous e s).0
    unfolding start_saved
    start_saved-IsConsistent restore previous none s h back quiet =
        start_from-IsConsistent s.generation s refl h
    start_saved-IsConsistent true previous (some x) s h back quiet = record {
      held = h;
      agrees = back refl;
    }
    start_saved-IsConsistent false previous (some x) s h back quiet =
        fail-IsConsistent running x s (record { held = h; quiet = quiet refl })

    pub start_locked-IsConsistent :
        (restore : Bool) (s : Supervisor W)
        → Held IsWellFormed s.generation
        → (restore ≡ true → is_running s.state.actual ≡ live_executing s.generation)
        → (restore ≡ false → live_executing s.generation ≡ false)
        → IsConsistent (start_locked env restore s).0
    unfolding start_locked update_state
    start_locked-IsConsistent restore s h back quiet =
        start_saved-IsConsistent restore s.state _ _ h back quiet

    pub start-IsConsistent : (s : Supervisor W) → IsConsistent s → IsConsistent (start env s).0
    unfolding start
    start-IsConsistent s c = start_locked-IsConsistent true s c.held (λ _. c.agrees) (λ e. cc)
