-- ===== src/Supervisor/Run/Laws.antt =====
-- The invariant over every sequence of calls.
use credimi_runner.Prelude.{
  Bool, true, false, ◌≡◌, refl, sym, ap, subst, ◌∙◌, String, Option, none, some, List, [], ◌∷◌,
  if◌then◌else◌,
}
use credimi_runner.GoError.{GoError}
use credimi_runner.Config.{Config}
use credimi_runner.Supervisor.State.{is_running, StateFile, LoadResult, loaded, load_error, load}
use credimi_runner.Supervisor.Generation.{Generation, Env}
use credimi_runner.Supervisor.Teardown.Laws.{IsWellFormed}
use credimi_runner.Supervisor.Construction.Laws.{MakesParts}
use credimi_runner.Supervisor.Machine.{Supervisor, live_executing, new, opened}
use credimi_runner.Supervisor.Transitions.{handle_generation_failure}
use credimi_runner.Supervisor.Restart.{restart, reconcile}
use credimi_runner.Supervisor.Apply.{
  enrolled, enrol, unless_refused, if_live, inventory_from, apply_inventory, endpoint_from,
  apply_endpoint,
}
use credimi_runner.Supervisor.Invariant.{Held, IsConsistent, start-IsConsistent}
use credimi_runner.Supervisor.Run.Stopping.{
  stop-IsConsistent, close-IsConsistent, failure-IsConsistent, request_start-IsConsistent,
}
use credimi_runner.Supervisor.Run.Replacing.{restart-IsConsistent, reconcile_by-IsConsistent}
use credimi_runner.Supervisor.Run.{
  Call, requests_start, starts, stops, restarts, closes, reconciles, applies_inventory,
  applies_endpoint, reports_failure, step, run,
}

-- The change that a method publishes keeps the generation well formed and executing.
record Publishes (publish : Generation → Generation) : Type 0 where
  keeps_form : (g : Generation) → IsWellFormed g → IsWellFormed (publish g)
  keeps_executing : (g : Generation) → (publish g).executing ≡ g.executing

mark-IsWellFormed :
    (g : Generation) (b : Bool) → IsWellFormed g → IsWellFormed (record g { remote_registered = b })
mark-IsWellFormed g b wf = record {
  api = wf.api;
  workers = wf.workers;
  edge = wf.edge;
  otel = wf.otel;
  beating = wf.beating;
}

adopt-Publishes : (cfg : Config) → Publishes (λ g. record g { config = cfg; active_config = cfg })
adopt-Publishes cfg = record {
  keeps_form = λ g wf. record {
    api = wf.api;
    workers = wf.workers;
    edge = wf.edge;
    otel = wf.otel;
    beating = wf.beating;
  };
  keeps_executing = λ g. refl;
}

endpoint-Publishes :
    (b : Bool) (cfg : Config) (url : String)
    → Publishes (λ g.
      let h : Generation = if b then (record g { public_url = url }) else g in
      record h { config = cfg; active_config = cfg })
endpoint-Publishes true cfg url = record {
  keeps_form = λ g wf. record {
    api = wf.api;
    workers = wf.workers;
    edge = wf.edge;
    otel = wf.otel;
    beating = wf.beating;
  };
  keeps_executing = λ g. refl;
}
endpoint-Publishes false cfg url = adopt-Publishes cfg

module _ {W : Type 0} (env : Env W) where
  enrolled-IsConsistent :
      (e : Option GoError) (text : String) (w : W) (publish : Generation → Generation)
      (g : Generation) (s : Supervisor W)
      → Publishes publish
      → IsWellFormed g
      → is_running s.state.actual ≡ g.executing
      → IsConsistent (enrolled env e text w publish g s).0
  unfolding enrolled
  enrolled-IsConsistent none text w publish g s p wf a =
      let h : Generation = record g { remote_registered = true } in
      record {
        held = p.keeps_form h (mark-IsWellFormed g true wf);
        agrees = a ∙ sym (p.keeps_executing h);
      }
  enrolled-IsConsistent (some x) text w publish g s p wf a = record {
    held = mark-IsWellFormed g _ wf;
    agrees = a;
  }

  enrol-IsConsistent :
      (r : Option (Config → String → W → W × Option GoError)) (text : String) (cfg : Config)
      (url : String) (publish : Generation → Generation) (g : Generation) (s : Supervisor W)
      → Publishes publish
      → IsWellFormed g
      → is_running s.state.actual ≡ g.executing
      → IsConsistent (enrol env r text cfg url publish g s).0
  unfolding enrol
  enrol-IsConsistent none text cfg url publish g s p wf a = record {
    held = p.keeps_form g wf;
    agrees = a ∙ sym (p.keeps_executing g);
  }
  enrol-IsConsistent (some r) text cfg url publish g s p wf a =
      enrolled-IsConsistent _ text _ publish g s p wf a

  refused-IsConsistent :
      (e : Option GoError) (text : String) (r : Supervisor W × Option GoError) (s : Supervisor W)
      → IsConsistent r.0
      → IsConsistent s
      → IsConsistent (unless_refused env e text r s).0
  unfolding unless_refused
  refused-IsConsistent none text r s c d = c
  refused-IsConsistent (some x) text r s c d = d

  live-IsConsistent :
      (b : Bool) (r : Supervisor W × Option GoError) (s : Supervisor W)
      → IsConsistent r.0
      → IsConsistent s
      → IsConsistent (if_live env b r s).0
  unfolding if_live
  live-IsConsistent true r s c d = c
  live-IsConsistent false r s c d = d

  moved-IsConsistent :
      (s : Supervisor W) (w : W) → IsConsistent s → IsConsistent (record s { world = w })
  moved-IsConsistent s w c = record { held = c.held; agrees = c.agrees }

  inventory-IsConsistent :
      (g : Option Generation) (cfg : Config) (s : Supervisor W)
      → s.generation ≡ g
      → Held IsWellFormed g
      → IsConsistent s
      → IsConsistent (inventory_from env g cfg s).0
  unfolding inventory_from
  inventory-IsConsistent none cfg s p h c = live-IsConsistent false (s, none) s c c
  inventory-IsConsistent (some g) cfg s p h c =
      let agrees = c.agrees ∙ ap live_executing p in
      live-IsConsistent g.executing _ s
        (refused-IsConsistent _ _ _ _
          (enrol-IsConsistent env.register _ cfg _ _ g _ (adopt-Publishes cfg) h agrees)
          (moved-IsConsistent s _ c))
        c

  endpoint-IsConsistent :
      (g : Option Generation) (cfg : Config) (s : Supervisor W)
      → s.generation ≡ g
      → Held IsWellFormed g
      → IsConsistent s
      → IsConsistent (endpoint_from env g cfg s).0
  unfolding endpoint_from
  endpoint-IsConsistent none cfg s p h c = live-IsConsistent false (s, none) s c c
  endpoint-IsConsistent (some g) cfg s p h c =
      let agrees = c.agrees ∙ ap live_executing p in
      live-IsConsistent g.executing _ s
        (refused-IsConsistent _ _ _ _
          (enrol-IsConsistent env.register _ cfg _ _ g _ (endpoint-Publishes _ cfg _) h agrees)
          (moved-IsConsistent s _ c))
        c

  module _ (parts : MakesParts env) where
    -- Every method keeps the invariant: the runtime is reported as running exactly while a
    -- generation is held that executes, and a held generation is well formed. The constructors of
    -- the parts are supposed to return a value or an error.
    pub step-IsConsistent :
        (c : Call) (s : Supervisor W) → IsConsistent s → IsConsistent (step env c s)
    unfolding step restart reconcile apply_inventory apply_endpoint handle_generation_failure
    step-IsConsistent requests_start s c = request_start-IsConsistent env s c
    step-IsConsistent starts s c = start-IsConsistent env parts s c
    step-IsConsistent stops s c = (stop-IsConsistent env s c).0
    step-IsConsistent restarts s c = restart-IsConsistent env parts s c
    step-IsConsistent closes s c = (close-IsConsistent env s c).0
    step-IsConsistent (reconciles cfg) s c =
        reconcile_by-IsConsistent env parts s.state.desired cfg s c
    step-IsConsistent (applies_inventory cfg) s c =
        inventory-IsConsistent s.generation cfg s refl c.held c
    step-IsConsistent (applies_endpoint cfg) s c =
        endpoint-IsConsistent s.generation cfg s refl c.held c
    step-IsConsistent (reports_failure i e) s c =
        failure-IsConsistent env s.generation i e s c.held c

    pub run-IsConsistent :
        (cs : List Call) (s : Supervisor W) → IsConsistent s → IsConsistent (run env cs s)
    unfolding run
    run-IsConsistent [] s c = c
    run-IsConsistent (x ∷ cs) s c = run-IsConsistent cs (step env x s) (step-IsConsistent x s c)

abbrev Opened : {W : Type 0} → Option (Supervisor W) → Type 0
Opened none = Unit
Opened (some s) = IsConsistent s

opened-IsConsistent :
    {W : Type 0} (r : LoadResult) (w : W) (s : Supervisor W)
    → (opened r w).0 ≡ some s
    → IsConsistent s
unfolding opened
opened-IsConsistent (load_error e) w s h = cc
opened-IsConsistent (loaded st) w s h =
    subst (λ (o : Option (Supervisor _)). Opened o) h (record { held = tt; agrees = refl })

-- Whatever a supervisor that was opened on a state file is called to do, in whatever order, with
-- whatever errors from its parts, it reports the runtime as running exactly while it holds a
-- generation that executes. The constructors of the parts are supposed to return a value or an
-- error.
pub run-new-IsConsistent :
    {W : Type 0} (env : Env W) (configured : Bool) (file : StateFile) (w : W) (s : Supervisor W)
    (cs : List Call)
    → MakesParts env
    → (new configured file w).0 ≡ some s
    → IsConsistent (run env cs s)
unfolding new
run-new-IsConsistent env configured file w s cs parts h =
    run-IsConsistent env parts cs s (opened-IsConsistent (load configured file) w s h)
