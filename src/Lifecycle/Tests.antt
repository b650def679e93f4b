-- ===== src/Lifecycle/Tests.antt =====
-- The lifecycle client at concrete inputs.
use credimi_runner.Prelude.{
  ℕ, zero, suc, ◌≤◌, Bool, true, false, ◌≡◌, refl, String, str_eq, Option, none, some, List, [],
  ◌∷◌, length, if◌then◌else◌,
}
use credimi_runner.GoError.{GoError, deadline_exceeded, as_network}
use credimi_runner.Strings.{is_blank}
use credimi_runner.Lifecycle.{
  LifecycleConfig, LifecycleDevice, DeviceReadiness, current_devices, is_deadline,
  is_lifecycle_retryable, request_attempts, Requests, complete, post,
}
use credimi_runner.Lifecycle.Laws.{Ends, post-Ends}

abbrev device : String → Bool → LifecycleDevice
device id online = record { device_id = id; online = online; reason = "" }

abbrev inventory : List LifecycleDevice
inventory = device "acme/lab/a" true ∷ device "acme/lab/b" true ∷ device "acme/lab/c" false ∷ []

abbrev readiness : String → Option DeviceReadiness
readiness id =
    if str_eq id "acme/lab/a"
    then some (record { ready = true; state = "ready" })
    else if str_eq id "acme/lab/b"
    then some (record { ready = false; state = "offline" })
    else none

reports :
    current_devices [] (some (some inventory)) (some readiness)
    ≡ device "acme/lab/a" true
      ∷ record { device_id = "acme/lab/b"; online = false; reason = "offline" }
      ∷ record { device_id = "acme/lab/c"; online = false; reason = "disabled" }
      ∷ []
unfolding current_devices
reports = refl

-- A server that answers the third request.
abbrev answer : ℕ → Option GoError
answer zero = some deadline_exceeded
answer (suc zero) = some deadline_exceeded
answer (suc (suc n)) = none

abbrev requests : Requests ℕ
requests = record { post_once = λ n. (answer n, suc n); pause = λ d n. (none, n) }

abbrev config : LifecycleConfig
config = record {
  enabled = true;
  runner_id = "acme/lab";
  credimi_url = "https://credimi.io";
  api_key = "key";
}

third : post requests config 0 ≡ record {
  error = none;
  tried = none ∷ some deadline_exceeded ∷ some deadline_exceeded ∷ [];
  world = 3;
}
unfolding post is_blank is_lifecycle_retryable is_deadline as_network
third = refl

post-Ends_example :
    let p = post requests config 0 in
    (complete requests config ≡ true
      → Ends requests p.error p.tried p.world × (length p.tried ≤ request_attempts))
    × (complete requests config ≡ false → (p.error ≡ none) × (p.tried ≡ []))
post-Ends_example = post-Ends requests config 0
