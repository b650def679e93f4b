-- ===== src/Supervisor/Generation.antt =====
-- A runtime generation and what it is made of, internal/runtimesupervisor/supervisor.go.
--
-- The API, the edge, the workers and the lifecycle client are interfaces there, built by the
-- functions of `Dependencies`. Here they are the environment `Env W`: each call takes the state of
-- the outside world to a new one and may return an error. Contexts are part of the world.
use credimi_runner.Prelude.{ℕ, Bool, ◌&&◌, String, Option}
pub use credimi_runner.GoError.{Result, ok, err}
use credimi_runner.GoError.{GoError}
use credimi_runner.Config.{Config}
use credimi_runner.Supervisor.State.{PersistentState}
use credimi_runner.Supervisor.Retry.{RegistrationEnv}

-- What the constructor of an interface value returns: a value, nil without an error, or an error.
pub data Made : Type 0 where
  made : Made
  made_nil : Made
  refused : GoError → Made

-- The function that stops the heartbeat: the empty one of a new generation, one whose `sync.Once`
-- has not been used, or one that has run.
pub data HeartbeatStop : Type 0 where
  no_loop armed spent : HeartbeatStop

-- `generation`. Its pointers to the parts are non-nil as the fields `has_…` say. `identity` stands
-- for the address by which generations are compared.
pub record Generation : Type 0 where
  pub identity : ℕ
  pub config : Config
  pub active_config : Config
  pub has_api : Bool
  pub has_workers : Bool
  pub has_lifecycle : Bool
  pub has_edge : Bool
  pub has_observability : Bool
  pub public_url : String
  pub stop_heartbeat : HeartbeatStop
  pub executing : Bool
  pub heartbeat_active : Bool
  pub workers_closed : Bool
  pub api_closed : Bool
  pub edge_closed : Bool
  pub otel_closed : Bool
  pub context_closed : Bool
  pub remote_registered : Bool

-- A field that is a nilable function of `Dependencies` is an `Option`. `poll_fatal` reads the
-- generation's channel of fatal errors, which the goroutines of `watchFailureSource` fill at any
-- time: what has arrived is the world's choice.
pub record Env (W : Type 0) : Type 0 where
  pub save_state : PersistentState → W → W × Option GoError
  pub load_config : W → W × Result Config
  pub validate_config : Config → Option GoError
  pub new_process_store : W → W
  pub init_observability : Option (Config → W → W × Made)
  pub new_api : Option (Config → W → W × Made)
  pub new_workers : Option (Config → W → W × Bool)
  pub new_lifecycle_client : Option (Config → W → W × Bool)
  pub new_edge : Option (Config → W → W × Made)
  pub validate_capabilities : Option (Config → W → W × Option GoError)
  pub validate_physical_devices : Option (Config → W → W × Option GoError)
  pub verify_public_endpoint : Option (Config → String → W → W × Option GoError)
  pub register : Option (Config → String → W → W × Option GoError)
  pub registration_observed : W → Bool
  pub ctx_err : W → Option GoError
  pub remaining : W → ℕ
  pub retry_delay : ℕ
  pub wait : ℕ → W → W × Option GoError
  pub cancel_context : W → W
  pub poll_fatal : W → W × Option GoError
  pub api_start : W → W × Option GoError
  pub api_shutdown : W → W × Option GoError
  pub api_local_origin : W → W × Result String
  pub api_listening : W → Bool
  pub edge_start : String → W → W × Result String
  pub edge_stop : W → W × Option GoError
  pub edge_close : W → W × Option GoError
  pub edge_running : W → Bool
  pub workers_start : W → W × Option GoError
  pub workers_stop_all : W → W
  pub workers_wait_all : W → W × Option GoError
  pub workers_running : W → Bool
  pub lifecycle_pause : String → W → W × Option GoError
  pub lifecycle_resume : String → W → W × Option GoError
  pub lifecycle_heartbeat : W → W × Option GoError
  pub start_heartbeat_loop : W → W
  pub stop_heartbeat_loop : W → W
  pub shutdown_observability : W → W × Option GoError

unfoldable pub local_resources_closed : Generation → Bool
local_resources_closed g =
    g.workers_closed && g.api_closed && g.edge_closed && g.otel_closed && g.context_closed

-- The part of the environment that the retry loop of a registration uses.
abbrev pub registration_env :
    {W : Type 0}
    → Env W
    → (Config → String → W → W × Option GoError)
    → Config
    → String
    → RegistrationEnv W
registration_env env register cfg url = record {
  retry_delay = env.retry_delay;
  ctx_err = env.ctx_err;
  remaining = env.remaining;
  wait = env.wait;
  register = register cfg url;
}
