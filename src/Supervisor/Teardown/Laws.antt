-- ===== src/Supervisor/Teardown/Laws.antt =====
-- What a teardown leaves of a generation.
use credimi_runner.Prelude.{Bool, true, false, ◌&&◌, ◌≡◌, refl, none, String, arith}
use credimi_runner.GoError.{join}
use credimi_runner.Supervisor.Generation.{Generation, Env, armed, local_resources_closed}
use credimi_runner.Supervisor.Teardown.{
  Torn, stop_heartbeat, pause_remote, stop_workers, close_api, close_edge, await_workers,
  close_observability, close_context, teardown,
}

-- A part that was never made counts as closed, and the heartbeat flag is set only while the
-- function that stops the loop is armed.
pub record IsWellFormed (g : Generation) : Type 0 where
  pub api : g.has_api ≡ false → g.api_closed ≡ true
  pub workers : g.has_workers ≡ false → g.workers_closed ≡ true
  pub edge : g.has_edge ≡ false → g.edge_closed ≡ true
  pub otel : g.has_observability ≡ false → g.otel_closed ≡ true
  pub beating : g.heartbeat_active ≡ true → g.stop_heartbeat ≡ armed

-- What every stage of a teardown keeps of the generation that it works on.
pub record Kept (g h : Generation) : Type 0 where
  pub identity : h.identity ≡ g.identity
  pub config : h.config ≡ g.config
  pub active_config : h.active_config ≡ g.active_config
  pub has_api : h.has_api ≡ g.has_api
  pub has_workers : h.has_workers ≡ g.has_workers
  pub has_edge : h.has_edge ≡ g.has_edge
  pub has_observability : h.has_observability ≡ g.has_observability
  pub remote : h.remote_registered ≡ g.remote_registered
  pub api_stays : g.api_closed ≡ true → h.api_closed ≡ true
  pub edge_stays : g.edge_closed ≡ true → h.edge_closed ≡ true
  pub otel_stays : g.otel_closed ≡ true → h.otel_closed ≡ true
  pub context_stays : g.context_closed ≡ true → h.context_closed ≡ true
  pub workers_absent : g.has_workers ≡ false → g.workers_closed ≡ true → h.workers_closed ≡ true
  pub heartbeat_quiet : g.heartbeat_active ≡ false → h.heartbeat_active ≡ false
  pub heartbeat_armed :
      h.heartbeat_active ≡ true
      → (g.heartbeat_active ≡ true) × (h.stop_heartbeat ≡ g.stop_heartbeat)

pub Kept-trans : {g h k : Generation} → Kept g h → Kept h k → Kept g k
Kept-trans p q = ground arith

pub Kept-IsWellFormed : {g h : Generation} → Kept g h → IsWellFormed g → IsWellFormed h
Kept-IsWellFormed k wf = ground arith

-- One stage: the generation is kept, and an error that was collected is not forgotten.
abbrev Stage : {W : Type 0} → Torn W → Torn W → Type 0
Stage t u = Kept t.gen u.gen × (u.local_err ≡ none → t.local_err ≡ none)

module _ {W : Type 0} (env : Env W) where
  stop_heartbeat-Stage : (t : Torn W) → Stage t (stop_heartbeat env t)
  unfolding stop_heartbeat
  stop_heartbeat-Stage t = (ground arith, ground arith)

  pause_remote-Stage :
      (reason : String) (pause : Bool) (t : Torn W) → Stage t (pause_remote env reason pause t)
  unfolding pause_remote
  pause_remote-Stage reason pause t = (ground arith, ground arith)

  stop_workers-Stage : (t : Torn W) → Stage t (stop_workers env t)
  unfolding stop_workers
  stop_workers-Stage t = (ground arith, ground arith)

  -- The stages that can fail also set their flag, unless they add an error.
  close_api-Stage :
      (t : Torn W)
      → Stage t (close_api env t)
        × ((close_api env t).local_err ≡ none
            → t.gen.has_api ≡ true
            → (close_api env t).gen.api_closed ≡ true)
  unfolding close_api join
  close_api-Stage t = ((ground arith, ground arith), ground arith)

  close_edge-Stage :
      (t : Torn W)
      → Stage t (close_edge env t)
        × ((close_edge env t).local_err ≡ none
            → t.gen.has_edge ≡ true
            → (close_edge env t).gen.edge_closed ≡ true)
  unfolding close_edge join
  close_edge-Stage t = ((ground arith, ground arith), ground arith)

  await_workers-Stage :
      (t : Torn W)
      → Stage t (await_workers env t)
        × ((await_workers env t).local_err ≡ none
            → t.gen.has_workers ≡ true
            → (await_workers env t).gen.workers_closed ≡ true)
  unfolding await_workers join
  await_workers-Stage t = ((ground arith, ground arith), ground arith)

  close_observability-Stage :
      (t : Torn W)
      → Stage t (close_observability env t)
        × ((close_observability env t).local_err ≡ none
            → t.gen.has_observability ≡ true
            → (close_observability env t).gen.otel_closed ≡ true)
        × ((close_observability env t).gen.workers_closed ≡ t.gen.workers_closed)
  unfolding close_observability join
  close_observability-Stage t = ((ground arith, ground arith), ground arith, ground arith)

  close_context-Stage :
      (t : Torn W)
      → Stage t (close_context env t)
        × ((close_context env t).gen.context_closed ≡ true)
        × ((close_context env t).gen.workers_closed ≡ t.gen.workers_closed)
  unfolding close_context join
  close_context-Stage t = ((ground arith, ground arith), ground arith, ground arith)

  -- The generation that a teardown returns is the one given, but for the flags that closing and
  -- stopping change.
  pub teardown-Kept :
      (reason : String) (pause : Bool) (g : Generation) (w : W)
      → Kept g (teardown env reason pause g w).gen
  unfolding teardown
  teardown-Kept reason pause g w =
      let t₀ : Torn W = record { gen = g; world = w; remote_err = none; local_err = none } in
      let t₁ = stop_heartbeat env t₀ in
      let t₂ = pause_remote env reason pause t₁ in
      let t₃ = stop_workers env t₂ in
      let t₄ = close_api env t₃ in
      let t₅ = close_edge env t₄ in
      let t₆ = await_workers env t₅ in
      let t₇ = close_observability env t₆ in
      let early =
        Kept-trans (stop_heartbeat-Stage t₀).0
          (Kept-trans (pause_remote-Stage reason pause t₁).0 (stop_workers-Stage t₂).0) in
      let late =
        Kept-trans (close_api-Stage t₃).0.0
          (Kept-trans (close_edge-Stage t₄).0.0 (await_workers-Stage t₅).0.0) in
      let last = Kept-trans (close_observability-Stage t₆).0.0 (close_context-Stage t₇).0.0 in
      let all = Kept-trans early (Kept-trans late last) in ground (arith, all)

  -- A teardown that reports no local error has closed every resource of a well-formed generation.
  pub teardown_closes :
      (reason : String) (pause : Bool) (g : Generation) (w : W)
      → IsWellFormed g
      → (teardown env reason pause g w).local_err ≡ none
      → local_resources_closed (teardown env reason pause g w).gen ≡ true
  unfolding teardown local_resources_closed
  teardown_closes reason pause g w wf h =
      let t₀ : Torn W = record { gen = g; world = w; remote_err = none; local_err = none } in
      let t₁ = stop_heartbeat env t₀ in
      let t₂ = pause_remote env reason pause t₁ in
      let t₃ = stop_workers env t₂ in
      let t₄ = close_api env t₃ in
      let t₅ = close_edge env t₄ in
      let t₆ = await_workers env t₅ in
      let t₇ = close_observability env t₆ in
      ground (
        arith,
        stop_heartbeat-Stage t₀,
        pause_remote-Stage reason pause t₁,
        stop_workers-Stage t₂,
        close_api-Stage t₃,
        close_edge-Stage t₄,
        await_workers-Stage t₅,
        close_observability-Stage t₆,
        close_context-Stage t₇,
      )

  -- Whatever fails, a torn down generation no longer executes and its context is cancelled.
  pub teardown_stops :
      (reason : String) (pause : Bool) (g : Generation) (w : W)
      → let h = (teardown env reason pause g w).gen in
        (h.executing ≡ false) × (h.context_closed ≡ true)
  unfolding teardown
  teardown_stops reason pause g w = (refl, (close_context-Stage _).1)

  -- Credimi is told of the pause only if that is asked for and the runner was registered.
  pub teardown_silent :
      (reason : String) (pause : Bool) (g : Generation) (w : W)
      → (pause && g.has_lifecycle && g.remote_registered) ≡ false
      → teardown env reason pause g w ≡ teardown env reason false g w
  unfolding teardown pause_remote stop_heartbeat
  teardown_silent reason pause g w h = ground arith
