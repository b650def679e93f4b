-- ===== src/Supervisor/Construction.antt =====
-- `newGeneration`, internal/runtimesupervisor/supervisor.go: the parts of a generation are made in
-- order, and whatever was made is torn down again when a later part fails.
pub mod Laws
use credimi_runner.Prelude.{
  ℕ, Bool, true, false, not, String, Option, none, some, [], ◌∷◌, is_some, if◌then◌else◌,
}
use credimi_runner.GoError.{GoError, message, join_with}
use credimi_runner.Config.{Config}
use credimi_runner.Supervisor.Generation.{
  Generation, Env, Result, ok, err, Made, made, made_nil, refused, no_loop,
}
use credimi_runner.Supervisor.Teardown.{Torn, teardown}
use credimi_runner.Supervisor.Act.{Live, Act, ◌>>=◌, ◌>>◌}

-- The generation before any part is made: all of it counts as closed but its context.
unfoldable pub blank : ℕ → Config → Bool → Generation
blank identity cfg registered = record {
  identity = identity;
  config = cfg;
  active_config = cfg;
  has_api = false;
  has_workers = false;
  has_lifecycle = false;
  has_edge = false;
  has_observability = false;
  public_url = "";
  stop_heartbeat = no_loop;
  executing = false;
  heartbeat_active = false;
  workers_closed = true;
  api_closed = true;
  edge_closed = true;
  otel_closed = true;
  context_closed = false;
  remote_registered = registered;
}

abbrev is_made : Made → Bool
is_made made = true
is_made _ = false

module _ {W : Type 0} (env : Env W) where
  -- `cancel()` before an error return.
  abbrev give_up : Generation → W → GoError → Live W × Result (Unit {0})
  give_up g w e = (record { gen = g; world = env.cancel_context w }, err e)

  made_observability : Made → Generation → W → Live W × Result (Unit {0})
  made_observability (refused e) g w = give_up g w e
  made_observability made g w = (
    record { gen = record g { has_observability = true; otel_closed = false }; world = w },
    ok tt,
  )
  made_observability made_nil g w =
      (record { gen = record g { otel_closed = false }; world = w }, ok tt)

  make_observability : Option (Config → W → W × Made) → Config → Act W (Unit {0})
  unfolding made_observability
  make_observability none cfg l = (l, ok tt)
  make_observability (some init) cfg l =
      let (w, m) = init cfg l.world in made_observability m l.gen w

  made_api : Made → Generation → W → Live W × Result (Unit {0})
  made_api (refused e) g w = give_up g w e
  made_api made_nil g w = give_up g w (message "runtime API constructor returned nil")
  made_api made g w =
      (record { gen = record g { has_api = true; api_closed = false }; world = w }, ok tt)

  make_api : (Config → W → W × Made) → Config → Act W (Unit {0})
  unfolding made_api
  make_api new_api cfg l = let (w, m) = new_api cfg l.world in made_api m l.gen w

  make_workers : Option (Config → W → W × Bool) → Config → Act W (Unit {0})
  make_workers none cfg l = (l, ok tt)
  make_workers (some new) cfg l =
      let (w, there) = new cfg l.world in
      (record { gen = record l.gen { has_workers = there }; world = w }, ok tt)

  make_lifecycle : Option (Config → W → W × Bool) → Config → Act W (Unit {0})
  make_lifecycle none cfg l = (l, ok tt)
  make_lifecycle (some new) cfg l =
      let (w, there) = new cfg l.world in
      (record { gen = record l.gen { has_lifecycle = there }; world = w }, ok tt)

  made_edge : Made → Generation → W → Live W × Result (Unit {0})
  made_edge (refused e) g w = give_up g w e
  made_edge made g w =
      (record { gen = record g { has_edge = true; edge_closed = false }; world = w }, ok tt)
  made_edge made_nil g w = (record { gen = record g { edge_closed = false }; world = w }, ok tt)

  make_edge : Option (Config → W → W × Made) → Config → Act W (Unit {0})
  unfolding made_edge
  make_edge none cfg l = (l, ok tt)
  make_edge (some new) cfg l = let (w, m) = new cfg l.world in made_edge m l.gen w

  unfoldable pub construct : (Config → W → W × Made) → Config → Act W (Unit {0})
  unfolding make_observability make_api make_workers make_lifecycle make_edge
  construct new_api cfg = do
    make_observability env.init_observability cfg
    make_api new_api cfg
    make_workers env.new_workers cfg
    make_lifecycle env.new_lifecycle_client cfg
    make_edge env.new_edge cfg

  -- The deferred function: a generation that was not created is torn down, and the errors of that
  -- are joined to the one that is returned.
  abbrev created : Live W × Result (Unit {0}) → W × Result Generation
  created (l, ok _) = (l.world, ok l.gen)
  created (l, err e) =
      let t = teardown env "generation_create_failed" false l.gen l.world in
      (t.world, err (join_with e (t.remote_err ∷ t.local_err ∷ [])))

  new_generation_by : Option (Config → W → W × Made) → ℕ → Config → W → W × Result Generation
  unfolding construct blank
  new_generation_by none identity cfg w = (w, err (message "runtime API constructor is required"))
  new_generation_by (some new_api) identity cfg w =
      let g = blank identity cfg (not (is_some env.register)) in
      created (construct new_api cfg (record { gen = g; world = env.new_process_store w }))

  unfoldable pub new_generation : ℕ → Config → W → W × Result Generation
  unfolding new_generation_by
  new_generation identity cfg w = new_generation_by env.new_api identity cfg w
