-- ===== src/Supervisor/Run/Stopping.antt =====
-- The methods that stop the runtime keep the invariant.
use credimi_runner.Prelude.{
  ℕ, Bool, true, false, ◌≡◌, refl, sym, ap, subst, ◌∙◌, String, Option, none, some, arith, inl, inr,
  Option-cases, [], ◌∷◌, is_some, ◌≢◌, if◌then◌else◌,
}
use credimi_runner.GoError.{GoError, join}
use credimi_runner.Supervisor.State.{DesiredState, ActualState, is_running, is_failed, stopped}
use credimi_runner.Supervisor.Generation.{Generation, Env, local_resources_closed}
use credimi_runner.Supervisor.Teardown.{Torn, teardown}
use credimi_runner.Supervisor.Teardown.Laws.{IsWellFormed, teardown_closes}
use credimi_runner.Supervisor.Machine.{
  Supervisor, panicked, update_state, live_executing, is_clean, drop_generation, request_start,
}
use credimi_runner.Supervisor.Transitions.{
  component_failed, handle_failure_by, stop_broken, stop_cleaned, finish_stop, stop_from, stop,
  close_from, close,
}
use credimi_runner.Supervisor.Invariant.{
  Held, IsConsistent, IsQuiet, update-IsConsistent, failed_with-IsConsistent, teardown_quiet,
}

requested_agrees :
    (a : ActualState) → is_running (if is_failed a then ActualState.stopped else a) ≡ is_running a
requested_agrees ActualState.starting = refl
requested_agrees _ = refl

abbrev errors_of : {W : Type 0} → Torn W → Option GoError
errors_of t = join (t.remote_err ∷ t.local_err ∷ [])

is_some-join : (r : Option GoError) (e : GoError) → is_some (join (r ∷ some e ∷ [])) ≡ true
unfolding join
is_some-join none e = refl
is_some-join (some x) e = refl

module _ {W : Type 0} (env : Env W) where
  pub request_start-IsConsistent :
      (s : Supervisor W) → IsConsistent s → IsConsistent (request_start env s).0
  unfolding request_start
  request_start-IsConsistent s c = record {
    held = c.held;
    agrees = requested_agrees s.state.actual ∙ c.agrees;
  }

  -- A teardown that is not clean has an error to report.
  unclean_error :
      (t : Torn W)
      → (t.local_err ≡ none → local_resources_closed t.gen ≡ true)
      → is_clean env t ≡ false
      → is_some (errors_of t) ≡ true
  unclean_error t closed u = elim (Option-cases t.local_err) [
    | inl e ↦ ground (arith, closed e)
    | inr (x, e) ↦ ground (arith, is_some-join t.remote_err x)
  ]

  torn_down_error :
      (reason : String) (pause : Bool) (g : Generation) (w : W)
      → IsWellFormed g
      → let t = teardown env reason pause g w in
        is_clean env t ≡ false → is_some (errors_of t) ≡ true
  torn_down_error reason pause g w wf =
      unclean_error (teardown env reason pause g w) (teardown_closes env reason pause g w wf)

  stop_broken-IsConsistent :
      (d : DesiredState) (c e : Option GoError) (s : Supervisor W)
      → is_some c ≡ true
      → IsQuiet s
      → IsConsistent (stop_broken env d c e s).0 × ((stop_broken env d c e s).1 ≢ panicked)
  unfolding stop_broken
  stop_broken-IsConsistent d none e s h q = cc
  stop_broken-IsConsistent d (some c) e s h q =
      (update-IsConsistent env _ s q.held (sym q.quiet), λ p. cc)

  stop_cleaned-IsConsistent :
      (clean : Bool) (d : DesiredState) (t : Torn W) (e : Option GoError) (s : Supervisor W)
      → (clean ≡ false → is_some (errors_of t) ≡ true)
      → IsQuiet s
      → IsConsistent (stop_cleaned env clean d t e s).0
        × ((stop_cleaned env clean d t e s).1 ≢ panicked)
  unfolding stop_cleaned
  stop_cleaned-IsConsistent true d t e s h q =
      (update-IsConsistent env _ (drop_generation env s) tt refl, λ p. cc)
  stop_cleaned-IsConsistent false d t e s h q = stop_broken-IsConsistent d _ e s (h refl) q

  finish_stop-IsConsistent :
      (d : DesiredState) (reason : String) (g : Generation) (e : Option GoError) (s : Supervisor W)
      → IsWellFormed g
      → let out = finish_stop env d (teardown env reason true g s.world) e s in
        IsConsistent out.0 × (out.1 ≢ panicked)
  unfolding finish_stop
  finish_stop-IsConsistent d reason g e s wf =
      let facts = teardown_quiet env reason true g s.world wf in
      stop_cleaned-IsConsistent _ d _ e _ (torn_down_error reason true g s.world wf)
        (record { held = facts.0; quiet = facts.1 })

  stop_from-IsConsistent :
      (g : Option Generation) (e : Option GoError) (s : Supervisor W)
      → s.generation ≡ g
      → Held IsWellFormed g
      → IsConsistent (stop_from env g e s).0 × ((stop_from env g e s).1 ≢ panicked)
  unfolding stop_from
  stop_from-IsConsistent none e s p h = (
    update-IsConsistent env _ s (subst (Held IsWellFormed) (sym p) h) (sym (ap live_executing p)),
    λ q. cc,
  )
  stop_from-IsConsistent (some g) e s p h = finish_stop-IsConsistent stopped "runtime_stop" g e s h

  -- On a supervisor that satisfies the invariant, `Stop` keeps it and never dereferences a nil
  -- error.
  pub stop-IsConsistent :
      (s : Supervisor W)
      → IsConsistent s
      → IsConsistent (stop env s).0 × ((stop env s).1 ≢ panicked)
  unfolding stop update_state
  stop-IsConsistent s c = stop_from-IsConsistent s.generation _ _ refl c.held

  close_from-IsConsistent :
      (g : Option Generation) (s : Supervisor W)
      → s.generation ≡ g
      → Held IsWellFormed g
      → IsConsistent (close_from env g s).0 × ((close_from env g s).1 ≢ panicked)
  unfolding close_from
  close_from-IsConsistent none s p h = (
    update-IsConsistent env _ s (subst (Held IsWellFormed) (sym p) h) (sym (ap live_executing p)),
    λ q. cc,
  )
  close_from-IsConsistent (some g) s p h =
      finish_stop-IsConsistent s.state.desired "service_shutdown" g none s h

  pub close-IsConsistent :
      (s : Supervisor W)
      → IsConsistent s
      → IsConsistent (close env s).0 × ((close env s).1 ≢ panicked)
  unfolding close
  close-IsConsistent s c = close_from-IsConsistent s.generation s refl c.held

  component_failed-IsConsistent :
      (b : Bool) (e : GoError) (g : Generation) (s : Supervisor W)
      → IsWellFormed g
      → IsConsistent s
      → IsConsistent (component_failed env b e g s)
  unfolding component_failed
  component_failed-IsConsistent true e g s wf c =
      failed_with-IsConsistent env "component_failed" e g s wf
  component_failed-IsConsistent false e g s wf c = c

  pub failure-IsConsistent :
      (g : Option Generation) (i : ℕ) (e : GoError) (s : Supervisor W)
      → Held IsWellFormed g
      → IsConsistent s
      → IsConsistent (handle_failure_by env g i e s)
  unfolding handle_failure_by
  failure-IsConsistent none i e s h c = c
  failure-IsConsistent (some g) i e s h c = component_failed-IsConsistent _ e g s h c
