-- ===== src/Lifecycle.antt =====
-- The lifecycle client that tells Credimi of a runner, pkg/server/lifecycle.go: the devices that it
-- reports and the attempts of a request.
pub mod Laws
mod Tests
use credimi_runner.Prelude.{
  ℕ, zero, suc, ◌+◌, ◌*◌, Bool, true, false, not, ◌||◌, ◌&&◌, String, str_eq, Option, none, some,
  is_some, List, [], ◌∷◌, map, if◌then◌else◌, ◌==◌,
}
use credimi_runner.GoError.{
  GoError, message, wrap, joined, canceled, deadline_exceeded, status, network, syscall, Errors,
  nil, cons, as_network,
}
use credimi_runner.Strings.{is_blank}

-- `RunnerLifecycleConfig`, without what only the requests carry.
pub record LifecycleConfig : Type 0 where
  pub enabled : Bool
  pub runner_id : String
  pub credimi_url : String
  pub api_key : String

pub record LifecycleDevice : Type 0 where
  pub device_id : String
  pub online : Bool
  pub reason : String

-- What the readiness of the runner says of a device.
pub record DeviceReadiness : Type 0 where
  pub ready : Bool
  pub state : String

-- One round of the loop of `currentDevices`.
abbrev pub not_ready_reason : String → String
not_ready_reason state = if str_eq state "" then "not ready" else state

abbrev pub found_by : Option DeviceReadiness → LifecycleDevice → LifecycleDevice
found_by none d = record d { online = false; reason = "not reported by runner readiness" }
found_by (some r) d =
    if not r.ready then record d { online = false; reason = not_ready_reason r.state } else d

abbrev pub report_device : (String → Option DeviceReadiness) → LifecycleDevice → LifecycleDevice
report_device ready d =
    if not d.online then record d { reason = "disabled" } else found_by (ready d.device_id) d

abbrev pub report_all :
    (String → Option DeviceReadiness) → List LifecycleDevice → List LifecycleDevice
report_all ready [] = []
report_all ready (d ∷ ds) = report_device ready d ∷ report_all ready ds

-- The inventory that the client reports: what the loader gives, if there is one and it succeeds.
abbrev pub inventory_of :
    Option (Option (List LifecycleDevice)) → List LifecycleDevice → List LifecycleDevice
inventory_of (some (some current)) devices = current
inventory_of (some none) devices = devices
inventory_of none devices = devices

abbrev by_readiness :
    Option (String → Option DeviceReadiness) → List LifecycleDevice → List LifecycleDevice
by_readiness none devices = devices
by_readiness (some ready) devices = report_all ready devices

-- `currentDevices`
unfoldable pub current_devices :
    List LifecycleDevice
    → Option (Option (List LifecycleDevice))
    → Option (String → Option DeviceReadiness)
    → List LifecycleDevice
current_devices devices inventory readiness =
    by_readiness readiness (inventory_of inventory devices)

-- `errors.Is(err, context.DeadlineExceeded)`
unfoldable mutual
  pub is_deadline : GoError → Bool
  is_deadline (wrap m e) = is_deadline e
  is_deadline (network t u e) = is_deadline e
  is_deadline (joined es) = any_deadline es
  is_deadline deadline_exceeded = true
  is_deadline canceled = false
  is_deadline (message m) = false
  is_deadline (status n) = false
  is_deadline (syscall s) = false

  pub any_deadline : Errors → Bool
  any_deadline nil = false
  any_deadline (cons e es) = is_deadline e || any_deadline es

abbrev passing : Option Bool → Bool
passing none = false
passing (some b) = b

-- `isLifecycleRetryable`
unfoldable pub is_lifecycle_retryable : GoError → Bool
is_lifecycle_retryable e = is_deadline e || passing (as_network e)

abbrev pub request_attempts : ℕ
request_attempts = 3

-- The requests act on a world `W`: one attempt, and the pause after an attempt, which may end with
-- the error of the context.
pub record Requests (W : Type 0) : Type 0 where
  pub post_once : W → Option GoError × W
  pub pause : ℕ → W → Option GoError × W

-- What `post` returns, and the outcomes of its attempts, the last one first.
pub record Posted (W : Type 0) : Type 0 where
  pub error : Option GoError
  pub tried : List (Option GoError)
  pub world : W

module _ {W : Type 0} (r : Requests W) where
  abbrev pub posted : Option GoError → List (Option GoError) → W → Posted W
  posted e tried w = record { error = e; tried = tried; world = w }

  -- After the pause: the context has ended, or the next attempt is made.
  abbrev pub resume : Option GoError → List (Option GoError) → W → Posted W → Posted W
  resume (some c) tried w rest = posted (some c) tried w
  resume none tried w rest = rest

  abbrev pub settle : Option GoError → List (Option GoError) → ℕ → W → Posted W → Posted W
  settle none tried attempt w rest = posted none (none ∷ tried) w
  settle (some e) tried attempt w rest =
      if not (is_lifecycle_retryable e) || attempt == request_attempts
      then posted (some e) (some e ∷ tried) w
      else resume (r.pause (attempt * 250) w).0 (some e ∷ tried) (r.pause (attempt * 250) w).1 rest

  -- The loop of `post` from an attempt on, with the attempts that are left.
  unfoldable pub post_loop : ℕ → ℕ → Option GoError → List (Option GoError) → W → Posted W
  post_loop zero attempt last tried w = posted last tried w
  post_loop (suc left) attempt last tried w =
      let (e, sent) = r.post_once w in
      settle e tried attempt sent
        (post_loop left (suc attempt) e (e ∷ tried) (r.pause (attempt * 250) sent).1)

  abbrev pub complete : LifecycleConfig → Bool
  complete cfg =
      cfg.enabled
      && not (is_blank cfg.credimi_url)
      && not (is_blank cfg.api_key)
      && not (is_blank cfg.runner_id)

  -- `post`
  unfoldable pub post : LifecycleConfig → W → Posted W
  unfolding post_loop
  post cfg w = if complete cfg then post_loop request_attempts 1 none [] w else posted none [] w
