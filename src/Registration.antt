-- ===== src/Registration.antt =====
-- The registration of an activated generation at Credimi: `Register` of
-- internal/runtimesupervisor/registration.go. The client of Credimi, and the inventory that
-- internal/dashboard/runtime makes of the configuration, are arguments.
pub mod Laws
pub mod Reconciling
pub mod Endpoint
mod Tests
use Prim.Native.String.{String}
use credimi_runner.Prelude.{
  ℕ, Bool, true, false, ◌≡◌, Option, none, some, List, [], ◌∷◌, ◌++◌, map, if◌then◌else◌, str_eq,
  str_append,
}
use credimi_runner.GoError.{GoError, message, wrap, Result, ok, err, join_with}
use credimi_runner.Config.{Config, DeviceConfig, ExposureConfig}
use credimi_runner.Strings.{trim_space, is_blank, contains}
use credimi_runner.Disk.{wrapped}

-- `dashboardruntime.RegisterRunnerRequest`
pub record RunnerRequest : Type 0 where
  pub runner_id : String
  pub name : String
  pub ip : String
  pub port : String
  pub description : String
  pub organization : String
  pub published : Bool

-- `dashboardruntime.RegisterDeviceRequest`
pub record DeviceRequest : Type 0 where
  pub organization : String
  pub device_id : String
  pub runner_id : String
  pub name : String
  pub description : String
  pub type_name : String
  pub serial : String

-- `dashboardruntime.ReconcileDevicesRequest`
pub record ReconcileRequest : Type 0 where
  pub organization : String
  pub runner_id : String
  pub device_ids : List String

-- A device of the inventory, as far as it is registered.
pub record InventoryDevice : Type 0 where
  pub id : String
  pub name : String
  pub description : String
  pub type_name : String
  pub serial : String

-- What `Register` calls, in its order; `told` is `registrationSucceeded`.
pub data Call : Type 0 where
  registered_runner : RunnerRequest → Call
  told : Call
  registered_device : DeviceRequest → Call
  reconciled : ReconcileRequest → Call

-- The errors of the calls.
pub record Client : Type 0 where
  pub register_runner : RunnerRequest → Option GoError
  pub register_device : DeviceRequest → Option GoError
  pub reconcile : ReconcileRequest → Option GoError

abbrev pub with_https : String → String
with_https d = if contains d "://" then d else str_append "https://" d

-- `registrationEndpoint`
unfoldable pub registration_endpoint : ExposureConfig → String → Result (String × String)
unfolding trim_space is_blank contains
registration_endpoint x url =
    if str_eq x.mode "manual"
    then (if is_blank x.public_url
        then err (message "manual exposure requires public URL")
        else ok (trim_space x.public_url, trim_space x.public_port))
    else if str_eq x.mode "named_tunnel"
    then (if is_blank x.domain
        then err (message "managed tunnel exposure requires domain")
        else ok (with_https (trim_space x.domain), ""))
    else (if is_blank url
        then err (message "quick tunnel URL is unavailable")
        else ok (trim_space url, ""))

-- The key that `Register` uses.
unfoldable pub api_key : Config → String
unfolding trim_space
api_key cfg =
    let user = trim_space cfg.credimi.user_api_key in
    if str_eq user "" then trim_space cfg.credimi.internal_admin_key else user

unfoldable pub runner_request : Config → String × String → RunnerRequest
unfolding trim_space
runner_request cfg address = record {
  runner_id = trim_space cfg.runner.id;
  name = trim_space cfg.runner.name;
  ip = address.0;
  port = address.1;
  description = trim_space cfg.runner.description;
  organization = trim_space cfg.runner.organization;
  published = cfg.runner.published;
}

abbrev pub device_request : Config → InventoryDevice → DeviceRequest
device_request cfg d = record {
  organization = cfg.runner.organization;
  device_id = d.id;
  runner_id = cfg.runner.id;
  name = d.name;
  description = d.description;
  type_name = d.type_name;
  serial = d.serial;
}

abbrev pub reconcile_request : Config → List String → ReconcileRequest
reconcile_request cfg ids = record {
  organization = cfg.runner.organization;
  runner_id = cfg.runner.id;
  device_ids = ids;
}

-- What the loop over the devices has collected.
pub record Loop : Type 0 where
  pub ids : List String
  pub errors : List GoError
  pub calls : List Call

module _ (cfg : Config) (client : Client) where
  -- The rest of an iteration, after the request.
  abbrev pub after_device : InventoryDevice → Option GoError → Loop → Loop
  after_device d (some e) rest = record rest {
    errors = wrap "register device" e ∷ rest.errors;
    calls = registered_device (device_request cfg d) ∷ rest.calls;
  }
  after_device d none rest = record rest {
    ids = d.id ∷ rest.ids;
    calls = registered_device (device_request cfg d) ∷ rest.calls;
  }

  abbrev pub register_one : InventoryDevice → Loop → Loop
  unfolding is_blank
  register_one d rest =
      if is_blank d.id
      then record rest { errors = message "device has no canonical ID" ∷ rest.errors }
      else after_device d (client.register_device (device_request cfg d)) rest

  -- The loop over the devices.
  unfoldable pub register_devices : List InventoryDevice → Loop
  unfolding is_blank
  register_devices [] = record { ids = []; errors = []; calls = [] }
  register_devices (d ∷ ds) = register_one d (register_devices ds)

  -- `Register` after the loop.
  abbrev pub reconcile_all : List GoError → Loop → List Call × Option GoError
  reconcile_all (e ∷ es) l = (l.calls, some (join_with e (map some es)))
  reconcile_all [] l =
      let r = reconcile_request cfg l.ids in
      (l.calls ++ reconciled r ∷ [], wrapped "reconcile configured devices" (client.reconcile r))

  abbrev pub without_inventory : List DeviceConfig → GoError → Option GoError
  without_inventory [] e = none
  without_inventory (d ∷ ds) e = some (wrap "load device inventory for registration" e)

  -- `Register` after the runner has been registered.
  unfoldable pub register_inventory : Result (List InventoryDevice) → List Call × Option GoError
  unfolding register_devices
  register_inventory (err e) = ([], without_inventory cfg.devices e)
  register_inventory (ok ds) = let l = register_devices ds in reconcile_all l.errors l

  abbrev pub after_runner :
      Result (List InventoryDevice) → RunnerRequest → Option GoError → List Call × Option GoError
  unfolding register_inventory
  after_runner inventory r (some e) = (registered_runner r ∷ [], some e)
  after_runner inventory r none =
      let (calls, error) = register_inventory inventory in
      (registered_runner r ∷ told ∷ calls, error)

  abbrev pub at_endpoint :
      Result (List InventoryDevice) → Result (String × String) → List Call × Option GoError
  unfolding register_inventory runner_request
  at_endpoint inventory (err e) = ([], some e)
  at_endpoint inventory (ok address) =
      let r = runner_request cfg address in after_runner inventory r (client.register_runner r)

  -- `Register`
  unfoldable pub register : String → Result (List InventoryDevice) → List Call × Option GoError
  unfolding api_key registration_endpoint register_inventory runner_request
  register url inventory =
      if str_eq (api_key cfg) ""
      then ([], some (message "missing Credimi API key"))
      else at_endpoint inventory (registration_endpoint cfg.exposure url)
