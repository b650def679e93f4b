-- ===== src/Supervisor/Tests.antt =====
-- A small concrete environment of the supervisor, and what its operations compute there.
mod Examples
use credimi_runner.Prelude.{
  leb, ◌+◌, ℕ, zero, suc, ◌-◌, ◌<◌, ◌≤◌, Bool, true, false, ◌≡◌, ◌≢◌, refl, ◌⊎◌, inl, inr, String,
  Option, none, some, arith, List, [], ◌∷◌, if◌then◌else◌, subst, is_some, ◌↔◌,
}
use credimi_runner.GoError.{
  GoError, message, status, deadline_exceeded, is_context, as_status, as_network, is_connection,
  join, wrap, joined, cons, nil,
}
use credimi_runner.Config.{Config, bootstrap, DeviceConfig, android_physical}
use credimi_runner.Supervisor.State.{
  PersistentState, running, stopped, missing, ActualState, load, load_file, default_state, loaded,
  save_file, load-save_file, failed,
}
use credimi_runner.Supervisor.Generation.{
  Generation, Env, Result, ok, err, Made, made, local_resources_closed, no_loop, armed,
  registration_env, made_nil,
}
use credimi_runner.Supervisor.Machine.{
  Supervisor, returned, panicked, new, update_state, fail, opened,
}
use credimi_runner.Supervisor.Transitions.{
  start, stop, close, start_fresh, activated, constructed, failed_with, launch, or_rollback,
  rollback, rollback_by, start_cleaned, start_configured, start_from, start_held, start_locked,
  start_saved, start_torn, start_validated, handle_generation_failure,
}
use credimi_runner.Supervisor.Retry.{
  registration_loop, transient_registration_error, joined_verdict, permanent_registration_error,
  RegistrationEnv,
}
use credimi_runner.Supervisor.Teardown.{
  await_workers, close_api, close_context, close_edge, close_observability, pause_remote,
  stop_heartbeat, stop_workers, teardown,
}
use credimi_runner.Supervisor.Act.{
  ◌>>◌, call, check_fatal, only_if, call_for, return, call_if, change, ◌>>=◌, Live,
}
use credimi_runner.Supervisor.Activation.{
  activate, register_with_retry, enlist, expose, prepare, publish, start_edge, start_lifecycle,
  start_workers,
}
use credimi_runner.Supervisor.Construction.{new_generation, blank, construct}
use credimi_runner.Supervisor.Restart.{
  restart, restart_saved, restart_from, replaced, replaced_with,
}
use credimi_runner.Supervisor.Teardown.Laws.{IsWellFormed, teardown_closes, teardown_silent}
use credimi_runner.Supervisor.Invariant.{IsConsistent}
use credimi_runner.Supervisor.Construction.Laws.{MakesParts, IsIdle, new_generation-IsIdle}
use credimi_runner.Supervisor.Retry.Progress.{Ticking, registration_loop_returns}
use credimi_runner.Supervisor.Retry.Classify.{
  permanent-not_transient, transient-joined_iff, AllTransient,
}
use credimi_runner.Supervisor.Run.{run, starts, stops, reports_failure}
use credimi_runner.Supervisor.Run.Laws.{run-new-IsConsistent}
use credimi_runner.Supervisor.Run.Stopping.{stop-IsConsistent}
use credimi_runner.Supervisor.Activation.Laws.{IsUnready, activate_fails, activate_ok}
use credimi_runner.Supervisor.Promises.{
  start_returns_nil, restart_returns_nil, stop_returns_nil, close_returns_nil,
  stale_failure_ignored,
}
use credimi_runner.Supervisor.Apply.{
  apply_inventory, inventory_from, inventory_live, enrol, enrolled, validate_devices,
  unless_refused, if_live, changed_enabled_physical_devices, apply_endpoint, endpoint_from,
  endpoint_live, verify, candidate_url, find_device,
}
use credimi_runner.Supervisor.Apply.Laws.{
  Refused, apply_inventory_refuses, apply_endpoint_refuses, changed_devices_none, FindsAll,
}

-- A deadline that waiting brings nearer, a registration that is refused a number of times, and
-- parts that can be made to fail.
pub record World : Type 0 where
  pub left : ℕ
  pub refusals : ℕ
  pub save_fails : Bool
  pub shutdown_fails : Bool
  pub heartbeat_fails : Bool

abbrev failing : Bool → String → Option GoError
failing b text = if b then some (message text) else none

abbrev wait_on : ℕ → ℕ → World → World × Option GoError
wait_on n d w =
    if leb n d
    then (record w { left = 0 }, some deadline_exceeded)
    else (record w { left = n - d }, none)

abbrev refuse : ℕ → World → World × Option GoError
refuse zero w = (w, none)
refuse (suc n) w = (record w { refusals = n }, some (status 503))

abbrev late : ℕ → Option GoError
late zero = some deadline_exceeded
late (suc n) = none

abbrev quiet : World → World × Option GoError
quiet w = (w, none)

abbrev pub a_config : Config
unfolding bootstrap
a_config = record bootstrap { temporal_address = "temporal:7233" }

abbrev pub env : Env World
env = record {
  save_state = λ st w. (w, failing w.save_fails "disk full");
  load_config = λ w. (w, ok a_config);
  validate_config = λ cfg. none;
  new_process_store = λ w. w;
  init_observability = none;
  new_api = some (λ cfg w. (w, made));
  new_workers = some (λ cfg w. (w, true));
  new_lifecycle_client = some (λ cfg w. (w, true));
  new_edge = some (λ cfg w. (w, made));
  validate_capabilities = none;
  validate_physical_devices = none;
  verify_public_endpoint = none;
  register = some (λ cfg url w. refuse w.refusals w);
  registration_observed = λ w. false;
  ctx_err = λ w. late w.left;
  remaining = λ w. w.left;
  retry_delay = 0;
  wait = λ d w. wait_on w.left d w;
  cancel_context = λ w. w;
  poll_fatal = quiet;
  api_start = quiet;
  api_shutdown = λ w. (w, failing w.shutdown_fails "busy");
  api_local_origin = λ w. (w, ok "http://127.0.0.1:8050");
  api_listening = λ w. true;
  edge_start = λ origin w. (w, ok "https://runner.example");
  edge_stop = quiet;
  edge_close = quiet;
  edge_running = λ w. true;
  workers_start = quiet;
  workers_stop_all = λ w. w;
  workers_wait_all = quiet;
  workers_running = λ w. true;
  lifecycle_pause = λ reason w. (w, none);
  lifecycle_resume = λ reason w. (w, none);
  lifecycle_heartbeat = λ w. (w, failing w.heartbeat_fails "no answer");
  start_heartbeat_loop = λ w. w;
  stop_heartbeat_loop = λ w. w;
  shutdown_observability = quiet;
}

abbrev pub calm : World
calm = record {
  left = 1000;
  refusals = 1;
  save_fails = false;
  shutdown_fails = false;
  heartbeat_fails = false;
}

abbrev pub fresh : Supervisor World
fresh = record {
  state = record { desired = running; actual = stopped; last_error = none };
  generation = none;
  next_identity = 0;
  world = calm;
}

pub started_well : (start env fresh).1 ≡ none
unfolding is_context as_status as_network is_connection join registration_loop
    transient_registration_error joined_verdict permanent_registration_error local_resources_closed
    await_workers close_api close_context close_edge close_observability pause_remote stop_heartbeat
    stop_workers teardown ◌>>◌ call check_fatal only_if call_for return call_if change ◌>>=◌
    activate register_with_retry enlist expose prepare publish start_edge start_lifecycle
    start_workers new_generation blank construct update_state fail start start_fresh activated
    constructed failed_with launch or_rollback rollback rollback_by start_cleaned start_configured
    start_from start_held start_locked start_saved start_torn start_validated
started_well = refl

abbrev pub idle_generation : Generation
idle_generation = record {
  identity = 0;
  config = a_config;
  active_config = a_config;
  has_api = true;
  has_workers = true;
  has_lifecycle = true;
  has_edge = true;
  has_observability = false;
  public_url = "";
  stop_heartbeat = no_loop;
  executing = false;
  heartbeat_active = false;
  workers_closed = true;
  api_closed = false;
  edge_closed = false;
  otel_closed = true;
  context_closed = false;
  remote_registered = false;
}

pub made_well : (new_generation env 0 a_config calm).1 ≡ ok idle_generation
unfolding new_generation construct blank ◌>>◌ ◌>>=◌
made_well = refl

pub idle_generation-IsWellFormed : IsWellFormed idle_generation
idle_generation-IsWellFormed = record {
  api = λ h. cc;
  workers = λ h. refl;
  edge = λ h. cc;
  otel = λ h. refl;
  beating = λ h. cc;
}

abbrev pub idle : Live World
idle = record { gen = idle_generation; world = calm }

pub activated_well : (activate env idle).1 ≡ ok tt
unfolding is_context as_status as_network is_connection join registration_loop
    transient_registration_error joined_verdict permanent_registration_error local_resources_closed
    await_workers close_api close_context close_edge close_observability pause_remote stop_heartbeat
    stop_workers teardown ◌>>◌ call check_fatal only_if call_for return call_if change ◌>>=◌
    activate register_with_retry enlist expose prepare publish start_edge start_lifecycle
    start_workers new_generation blank construct update_state fail start start_fresh activated
    constructed failed_with launch or_rollback rollback rollback_by start_cleaned start_configured
    start_from start_held start_locked start_saved start_torn start_validated
activated_well = refl

-- The heartbeat fails after the registration.
abbrev pub faint : Live World
faint = record { gen = idle_generation; world = record calm { heartbeat_fails = true } }

abbrev pub faint_error : GoError
faint_error = wrap "initial heartbeat" (message "no answer")

pub activated_badly : (activate env faint).1 ≡ err faint_error
unfolding is_context as_status as_network is_connection join registration_loop
    transient_registration_error joined_verdict permanent_registration_error local_resources_closed
    await_workers close_api close_context close_edge close_observability pause_remote stop_heartbeat
    stop_workers teardown ◌>>◌ call check_fatal only_if call_for return call_if change ◌>>=◌
    activate register_with_retry enlist expose prepare publish start_edge start_lifecycle
    start_workers new_generation blank construct update_state fail start start_fresh activated
    constructed failed_with launch or_rollback rollback rollback_by start_cleaned start_configured
    start_from start_held start_locked start_saved start_torn start_validated
activated_badly = refl

abbrev pub live_generation : Generation
live_generation = record idle_generation {
  public_url = "https://runner.example";
  stop_heartbeat = armed;
  heartbeat_active = true;
  executing = true;
  workers_closed = false;
  remote_registered = true;
}

pub live_generation-IsWellFormed : IsWellFormed live_generation
live_generation-IsWellFormed = record {
  api = λ h. cc;
  workers = λ h. cc;
  edge = λ h. cc;
  otel = λ h. refl;
  beating = λ h. refl;
}

pub closed_well : (teardown env "runtime_stop" true live_generation calm).local_err ≡ none
unfolding is_context as_status as_network is_connection join registration_loop
    transient_registration_error joined_verdict permanent_registration_error local_resources_closed
    await_workers close_api close_context close_edge close_observability pause_remote stop_heartbeat
    stop_workers teardown ◌>>◌ call check_fatal only_if call_for return call_if change ◌>>=◌
    activate register_with_retry enlist expose prepare publish start_edge start_lifecycle
    start_workers new_generation blank construct update_state fail start start_fresh activated
    constructed failed_with launch or_rollback rollback rollback_by start_cleaned start_configured
    start_from start_held start_locked start_saved start_torn start_validated
closed_well = refl

-- A running supervisor that has little time left and whose registrations are refused.
abbrev pub live : Supervisor World
live = record {
  state = record { desired = running; actual = ActualState.running; last_error = none };
  generation = some live_generation;
  next_identity = 1;
  world = record calm { left = 100; refusals = 5 };
}

pub live-IsConsistent : IsConsistent live
live-IsConsistent = record { held = live_generation-IsWellFormed; agrees = refl }

abbrev pub restartable : Supervisor World
restartable = record live { world = calm }

pub restarted_well : (restart env restartable).1 ≡ none
unfolding is_context as_status as_network is_connection join registration_loop
    transient_registration_error joined_verdict permanent_registration_error local_resources_closed
    await_workers close_api close_context close_edge close_observability pause_remote stop_heartbeat
    stop_workers teardown ◌>>◌ call check_fatal only_if call_for return call_if change ◌>>=◌
    activate register_with_retry enlist expose prepare publish start_edge start_lifecycle
    start_workers new_generation blank construct update_state fail start start_fresh activated
    constructed failed_with launch or_rollback rollback rollback_by start_cleaned start_configured
    start_from start_held start_locked start_saved start_torn start_validated restart restart_saved
    restart_from replaced replaced_with
restarted_well = refl

abbrev MakesOne : Option (Config → World → World × Made) → Type 0
MakesOne none = Unit
MakesOne (some f) = (cfg : Config) (w : World) → (f cfg w).1 ≢ made_nil

pub makes_parts : MakesParts env
makes_parts = record {
  observability = λ f cfg w h. cc;
  edge = λ f cfg w h. subst MakesOne h (λ cfg w q. cc) cfg w;
}

wait_on-ticks :
    (d : ℕ) (w : World) → (wait_on w.left d w).1 ≡ none → (wait_on w.left d w).0.left + d ≤ w.left
wait_on-ticks d w h = ground arith

refuse-ticks : (n : ℕ) (w : World) → (refuse n w).0.left ≤ w.left
refuse-ticks zero w = omega arith
refuse-ticks (suc n) w = omega arith

abbrev pub clock_env : RegistrationEnv World
clock_env =
    registration_env env (λ cfg url w. refuse w.refusals w) a_config "https://runner.example"

pub clock : Ticking clock_env
clock = record {
  wait_ticks = λ d w p h. inl (wait_on-ticks d w h);
  register_ticks = λ w. refuse-ticks w.refusals w;
}
