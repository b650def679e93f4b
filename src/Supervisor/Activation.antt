-- ===== src/Supervisor/Activation.antt =====
-- Activating a generation, internal/runtimesupervisor/supervisor.go: `activate` and the registration with retries.
pub mod Laws
use credimi_runner.Prelude.{
  ℕ, suc, ◌+◌, Bool, true, false, ◌||◌, not, String, Option, none, some, [], ◌∷◌, if◌then◌else◌,
  is_some,
}
use credimi_runner.GoError.{GoError, message, wrap, join, deadline_exceeded}
use credimi_runner.Config.{Config}
use credimi_runner.Supervisor.Retry.{registration_loop, first_delay}
use credimi_runner.Supervisor.Generation.{
  Generation, Env, Result, ok, err, Made, made, made_nil, refused, no_loop, armed, registration_env,
}
use credimi_runner.Supervisor.Act.{
  Live, Act, return, ◌>>=◌, ◌>>◌, as_step, call, call_if, call_for, change, check_fatal, only_if,
}

-- The fuel of the loop is what `registration_loop_returns` asks for. Were it to run out, the
-- deadline has passed.
unfoldable pub register_with_retry :
    {W : Type 0}
    → Env W
    → (Config → String → W → W × Option GoError)
    → Config
    → String
    → W
    → W × Option GoError
register_with_retry env register cfg url w =
    elim (registration_loop (registration_env env register cfg url) (env.remaining w + 2)
      (first_delay env.retry_delay) w) [ none ↦ (w, some deadline_exceeded) | some r ↦ r ]

abbrev with_config :
    {W : Type 0}
    → Config
    → Option (Config → W → W × Option GoError)
    → Option (W → W × Option GoError)
with_config cfg none = none
with_config cfg (some f) = some (f cfg)

abbrev with_url :
    {W : Type 0}
    → Config
    → String
    → Option (Config → String → W → W × Option GoError)
    → Option (W → W × Option GoError)
with_url cfg url none = none
with_url cfg url (some f) = some (f cfg url)

module _ {W : Type 0} (env : Env W) where
  -- The edge of a generation that has one: its public URL, and the empty text otherwise.
  begin_edge : Act W String
  begin_edge = do
    origin ← call_for "build execution API local origin" env.api_local_origin
    url ← call_for "start edge" (env.edge_start origin)
    check_fatal env
    return url

  unfoldable pub start_edge : Act W String
  unfolding begin_edge
  start_edge = only_if (λ g. g.has_edge) "" begin_edge

  -- Up to the registration: the parts that make the runner reachable.
  unfoldable pub expose : Config → Act W String
  unfolding start_edge
  expose cfg = do
    call "start execution API" env.api_start
    check_fatal env
    url ← start_edge
    call_if "validate runtime capabilities" (with_config cfg env.validate_capabilities)
    call_if "verify public endpoint" (with_url cfg url env.verify_public_endpoint)
    check_fatal env
    return url

  -- The registration marks the generation when it succeeds, and also when the observer that the
  -- context carries was called before a later failure.
  register_by :
      Option (Config → String → W → W × Option GoError) → Config → String → Act W (Unit {0})
  register_by none cfg url l = (l, ok tt)
  register_by (some register) cfg url l =
      let (w, e) = register_with_retry env register cfg url l.world in
      (
        record {
          gen = record l.gen {
            remote_registered =
                l.gen.remote_registered || env.registration_observed w || not (is_some e);
          };
          world = w;
        },
        as_step e "register runtime",
      )

  unfoldable pub enlist : Config → String → Act W (Unit {0})
  unfolding register_by
  enlist cfg url = do register_by env.register cfg url; check_fatal env

  begin_workers : Act W (Unit {0})
  begin_workers = do
    change (λ g. record g { workers_closed = false })
    call "start workers" env.workers_start

  unfoldable pub start_workers : Act W (Unit {0})
  unfolding begin_workers
  start_workers = only_if (λ g. g.has_workers) tt begin_workers

  begin_lifecycle : Act W (Unit {0})
  begin_lifecycle = do
    check_fatal env
    call "resume lifecycle" (env.lifecycle_resume "runtime_start")
    call "initial heartbeat" env.lifecycle_heartbeat
    check_fatal env
    call "" (λ w. (env.start_heartbeat_loop w, none))
    change (λ g. record g { stop_heartbeat = armed; heartbeat_active = true })

  unfoldable pub start_lifecycle : Act W (Unit {0})
  unfolding begin_lifecycle
  start_lifecycle = only_if (λ g. g.has_lifecycle) tt begin_lifecycle

  -- Everything before the last two assignments of `activate`.
  unfoldable pub prepare : Config → Act W String
  unfolding expose enlist start_workers start_lifecycle
  prepare cfg = do
    url ← expose cfg
    enlist cfg url
    start_workers
    start_lifecycle
    check_fatal env
    return url

  -- The endpoint stays local until every step has succeeded.
  unfoldable pub publish : Live W × Result String → Live W × Result (Unit {0})
  publish (l, ok url) =
      (record l { gen = record l.gen { public_url = url; executing = true } }, ok tt)
  publish (l, err e) = (l, err e)

  unfoldable pub activate : Act W (Unit {0})
  unfolding publish prepare
  activate l = publish (prepare l.gen.config l)
