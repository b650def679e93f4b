-- ===== src/Supervisor/Tests/Examples.antt =====
-- The theorems on the supervisor at concrete inputs.
use credimi_runner.Prelude.{
  true, false, ◌≡◌, ◌≢◌, refl, ◌⊎◌, inl, String, Option, none, some, List, [], ◌∷◌, subst, is_some,
  ◌↔◌,
}
use credimi_runner.GoError.{
  GoError, message, status, is_context, as_status, as_network, is_connection, join, wrap, joined,
  cons, nil,
}
use credimi_runner.Config.{bootstrap, DeviceConfig, android_physical}
use credimi_runner.Supervisor.State.{running, missing, ActualState, load, load_file, default_state}
use credimi_runner.Supervisor.Generation.{Generation, local_resources_closed}
use credimi_runner.Supervisor.Machine.{panicked, new, update_state, fail, opened}
use credimi_runner.Supervisor.Transitions.{
  start, stop, start_fresh, activated, constructed, failed_with, launch, or_rollback, rollback,
  rollback_by, start_cleaned, start_configured, start_from, start_held, start_locked, start_saved,
  start_torn, start_validated,
}
use credimi_runner.Supervisor.Retry.{
  registration_loop, transient_registration_error, joined_verdict, permanent_registration_error,
  first_delay,
}
use credimi_runner.Supervisor.Teardown.{
  await_workers, close_api, close_context, close_edge, close_observability, pause_remote,
  stop_heartbeat, stop_workers, teardown,
}
use credimi_runner.Supervisor.Act.{
  ◌>>◌, call, check_fatal, only_if, call_for, return, call_if, change, ◌>>=◌,
}
use credimi_runner.Supervisor.Activation.{
  activate, register_with_retry, enlist, expose, prepare, publish, start_edge, start_lifecycle,
  start_workers,
}
use credimi_runner.Supervisor.Construction.{new_generation, blank, construct}
use credimi_runner.Supervisor.Teardown.Laws.{teardown_closes}
use credimi_runner.Supervisor.Invariant.{IsConsistent}
use credimi_runner.Supervisor.Retry.Progress.{registration_loop_returns}
use credimi_runner.Supervisor.Retry.Classify.{transient-joined_iff, AllTransient}
use credimi_runner.Supervisor.Run.{run, starts, stops, reports_failure}
use credimi_runner.Supervisor.Run.Laws.{run-new-IsConsistent}
use credimi_runner.Supervisor.Run.Stopping.{stop-IsConsistent}
use credimi_runner.Supervisor.Activation.Laws.{IsUnready, activate_fails, activate_ok}
use credimi_runner.Supervisor.Promises.{start_returns_nil}
use credimi_runner.Supervisor.Apply.{
  apply_inventory, inventory_from, inventory_live, enrol, enrolled, validate_devices,
  unless_refused, if_live, changed_enabled_physical_devices, apply_endpoint, endpoint_from,
  endpoint_live, verify, candidate_url, find_device,
}
use credimi_runner.Supervisor.Apply.Laws.{FindsAll}
use credimi_runner.Supervisor.Tests.{
  a_config, env, calm, fresh, started_well, idle_generation, idle_generation-IsWellFormed, idle,
  activated_well, faint, faint_error, activated_badly, live_generation,
  live_generation-IsWellFormed, closed_well, live, live-IsConsistent, makes_parts, clock_env, clock,
}

-- The theorems at these inputs.
run-new-IsConsistent_example : IsConsistent (
    run env
      (starts ∷ reports_failure 0 (message "tunnel lost") ∷ starts ∷ stops ∷ [])
      (record fresh { state = default_state running }))
unfolding new load opened load_file
run-new-IsConsistent_example =
    run-new-IsConsistent env true missing calm (record fresh { state = default_state running })
      (starts ∷ reports_failure 0 (message "tunnel lost") ∷ starts ∷ stops ∷ []) makes_parts refl

stop-IsConsistent_example : IsConsistent (stop env live).0 × ((stop env live).1 ≢ panicked)
stop-IsConsistent_example = stop-IsConsistent env live live-IsConsistent

teardown_closes_example :
    local_resources_closed (teardown env "runtime_stop" true live_generation calm).gen ≡ true
teardown_closes_example =
    teardown_closes env "runtime_stop" true live_generation calm live_generation-IsWellFormed
      closed_well

activate_fails_example : IsUnready idle_generation (activate env faint).0.gen
activate_fails_example =
    activate_fails env faint faint_error idle_generation-IsWellFormed activated_badly

activate_ok_example :
    let h = (activate env idle).0.gen in
    (h.executing ≡ true)
    × (is_some env.register ≡ true → h.remote_registered ≡ true)
    × (h.has_lifecycle ≡ true → h.heartbeat_active ≡ true)
activate_ok_example = activate_ok env idle idle_generation-IsWellFormed activated_well

start_returns_nil_example :
    ((start env fresh).0.state.desired ≡ running)
    × ((start env fresh).0.state.actual ≡ ActualState.running)
start_returns_nil_example = start_returns_nil env fresh started_well

abbrev OtherThanSeven : Option Generation → Type 0
OtherThanSeven none = Unit
OtherThanSeven (some g) = g.identity ≢ 7

-- A generation that was replaced by the live one.
stale_by_identity :
    (g : Generation) → live.generation ≡ some g → (g.identity ≢ 7) ⊎ (g.executing ≡ false)
stale_by_identity g h = inl (subst OtherThanSeven h (λ q. cc))

refused_registration : (apply_inventory env a_config live).1 ≢ none
unfolding is_context as_status as_network is_connection join registration_loop
    transient_registration_error joined_verdict permanent_registration_error local_resources_closed
    await_workers close_api close_context close_edge close_observability pause_remote stop_heartbeat
    stop_workers teardown ◌>>◌ call check_fatal only_if call_for return call_if change ◌>>=◌
    activate register_with_retry enlist expose prepare publish start_edge start_lifecycle
    start_workers new_generation blank construct update_state fail start start_fresh activated
    constructed failed_with launch or_rollback rollback rollback_by start_cleaned start_configured
    start_from start_held start_locked start_saved start_torn start_validated apply_inventory
    inventory_from inventory_live enrol enrolled validate_devices unless_refused if_live
    changed_enabled_physical_devices bootstrap
refused_registration = λ h. cc

refused_endpoint : (apply_endpoint env a_config live).1 ≢ none
unfolding is_context as_status as_network is_connection join registration_loop
    transient_registration_error joined_verdict permanent_registration_error local_resources_closed
    await_workers close_api close_context close_edge close_observability pause_remote stop_heartbeat
    stop_workers teardown ◌>>◌ call check_fatal only_if call_for return call_if change ◌>>=◌
    activate register_with_retry enlist expose prepare publish start_edge start_lifecycle
    start_workers new_generation blank construct update_state fail start start_fresh activated
    constructed failed_with launch or_rollback rollback rollback_by start_cleaned start_configured
    start_from start_held start_locked start_saved start_torn start_validated apply_endpoint
    endpoint_from endpoint_live enrol enrolled verify candidate_url unless_refused if_live bootstrap
refused_endpoint = λ h. cc

abbrev phone : String → DeviceConfig
phone id = record {
  id = id;
  name = "Phone";
  description = "";
  device_type = android_physical;
  enabled = true;
  physical = some (record { transport = "usb"; serial = id; wifi_ip = ""; wifi_port = "" });
  emulator = none;
  redroid_config = none;
  simulator = none;
}

abbrev phones : List DeviceConfig
phones = phone "p1" ∷ phone "p2" ∷ []

phones_found : FindsAll phones phones
unfolding find_device
phones_found = (refl, (refl, tt))

registration_loop_returns_example : registration_loop clock_env 1002 (first_delay 0) calm ≢ none
registration_loop_returns_example = registration_loop_returns clock_env calm clock

abbrev forbidden : GoError
forbidden = wrap "register" (joined (cons (status 404) (cons (status 503) nil)))

forbidden_for_good : permanent_registration_error forbidden ≡ true
unfolding permanent_registration_error as_status
forbidden_for_good = refl

transient-joined_iff_example :
    (transient_registration_error (joined (cons (status 503) (cons (status 429) nil))) ≡ true) ↔ (
      ((cons (status 503) (cons (status 429) nil)) ≢ nil)
      × AllTransient (cons (status 503) (cons (status 429) nil)))
transient-joined_iff_example = transient-joined_iff (cons (status 503) (cons (status 429) nil))
