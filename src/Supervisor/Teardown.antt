-- ===== src/Supervisor/Teardown.antt =====
-- `teardownGeneration`, internal/runtimesupervisor/supervisor.go: a stage for each part of a
-- generation, in the order of the source. Each stage that fails adds its error and goes on.
pub mod Laws
use credimi_runner.Prelude.{
  Bool, true, false, ◌&&◌, not, String, Option, none, some, [], ◌∷◌, if◌then◌else◌,
}
use credimi_runner.GoError.{GoError, join}
use credimi_runner.Supervisor.Generation.{Generation, Env, HeartbeatStop, no_loop, armed, spent}

-- The generation and the world during a teardown, and the errors that it will return.
pub record Torn (W : Type 0) : Type 0 where
  pub gen : Generation
  pub world : W
  pub remote_err : Option GoError
  pub local_err : Option GoError

abbrev pub add_local : {W : Type 0} → Torn W → W → GoError → Torn W
add_local t w e = record t { world = w; local_err = join (t.local_err ∷ some e ∷ []) }

module _ {W : Type 0} (env : Env W) where
  stop_heartbeat_by : HeartbeatStop → Torn W → Torn W
  stop_heartbeat_by armed t = record t {
    world = env.stop_heartbeat_loop t.world;
    gen = record t.gen { stop_heartbeat = spent; heartbeat_active = false };
  }
  stop_heartbeat_by no_loop t = t
  stop_heartbeat_by spent t = t

  unfoldable pub stop_heartbeat : Torn W → Torn W
  unfolding stop_heartbeat_by
  stop_heartbeat t = stop_heartbeat_by t.gen.stop_heartbeat t

  unfoldable pub pause_remote : String → Bool → Torn W → Torn W
  pause_remote reason pause t =
      let (w, e) = env.lifecycle_pause reason t.world in
      if pause && t.gen.has_lifecycle && t.gen.remote_registered
      then record t { world = w; remote_err = e }
      else t

  unfoldable pub stop_workers : Torn W → Torn W
  stop_workers t =
      if t.gen.has_workers
      then record t {
        world = env.workers_stop_all t.world;
        gen = record t.gen { workers_closed = false };
      }
      else t

  unfoldable pub close_api : Torn W → Torn W
  close_api t =
      let (w, e) = env.api_shutdown t.world in
      if t.gen.has_api && not t.gen.api_closed
      then elim e [
        | some x ↦ add_local t w x
        | none ↦ record t { world = w; gen = record t.gen { api_closed = true } }
      ]
      else t

  -- A stopped edge loses the public URL even if it then fails to close.
  unfoldable pub close_edge : Torn W → Torn W
  close_edge t =
      let (w, e) = env.edge_stop t.world in
      let (w', e') = env.edge_close w in
      let silent : Torn W = record t { gen = record t.gen { public_url = "" } } in
      if t.gen.has_edge && not t.gen.edge_closed
      then elim e [
        | some x ↦ add_local t w x
        | none ↦ elim e' [
          | some x ↦ add_local silent w' x
          | none ↦ record t {
            world = w';
            gen = record t.gen { public_url = ""; edge_closed = true };
          }
        ]
      ]
      else t

  unfoldable pub await_workers : Torn W → Torn W
  await_workers t =
      let (w, e) = env.workers_wait_all t.world in
      if t.gen.has_workers && not t.gen.workers_closed
      then elim e [
        | some x ↦ add_local t w x
        | none ↦ record t { world = w; gen = record t.gen { workers_closed = true } }
      ]
      else t

  unfoldable pub close_observability : Torn W → Torn W
  close_observability t =
      let (w, e) = env.shutdown_observability t.world in
      if t.gen.has_observability && not t.gen.otel_closed
      then elim e [
        | some x ↦ add_local t w x
        | none ↦ record t { world = w; gen = record t.gen { otel_closed = true } }
      ]
      else t

  unfoldable pub close_context : Torn W → Torn W
  close_context t = if t.gen.context_closed then t else record t {
    world = env.cancel_context t.world;
    gen = record t.gen { context_closed = true };
  }

  abbrev not_executing : Torn W → Torn W
  not_executing t = record t { gen = record t.gen { executing = false } }

  unfoldable pub teardown : String → Bool → Generation → W → Torn W
  teardown reason pause g w =
      let begin : Torn W = record { gen = g; world = w; remote_err = none; local_err = none } in
      let quiet = pause_remote reason pause (stop_heartbeat begin) in
      let api = close_api (stop_workers quiet) in
      not_executing (close_context (close_observability (await_workers (close_edge api))))
