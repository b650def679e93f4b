-- ===== src/Registration/Tests.antt =====
-- A registration at concrete answers of Credimi.
use Prim.Native.String.{String}
use credimi_runner.Prelude.{
  false, ◌≡◌, ◌↔◌, refl, inl, inr, none, some, List, [], ◌∷◌, str_eq, if◌then◌else◌,
}
use credimi_runner.GoError.{status, Result, ok}
use credimi_runner.Config.{Config, bootstrap}
use credimi_runner.Strings.{trim_space, trim_left, trim_right, is_blank, contains, has_prefix}
use credimi_runner.Registration.{
  InventoryDevice, Client, registered_runner, told, registered_device, ReconcileRequest,
  reconcile_request, device_request, runner_request, registration_endpoint, api_key,
  register_devices, register_inventory, register,
}
use credimi_runner.Registration.Laws.{EndpointTaken, endpoint_calls, register_succeeds}
use credimi_runner.Registration.Reconciling.{IsWholeAfterRunner, register-reconciles}

abbrev lab : Config
lab =
    let cfg = bootstrap in
    record cfg {
      credimi = record cfg.credimi { user_api_key = " key " };
      runner = record cfg.runner { id = "acme/lab"; name = "Lab" };
      exposure = record cfg.exposure { mode = "named_tunnel"; domain = "lab.example" };
    }

abbrev device : String → InventoryDevice
device id = record {
  id = id;
  name = "Phone";
  description = "";
  type_name = "android_physical";
  serial = "R58M";
}

abbrev taking : Client
taking = record {
  register_runner = λ r. none;
  register_device = λ r. if str_eq r.device_id "acme/lab/bad" then some (status 500) else none;
  reconcile = λ r. none;
}

abbrev two : Result (List InventoryDevice)
two = ok (device "acme/lab/a" ∷ device "acme/lab/b" ∷ [])

-- One device is refused, so nothing is reconciled.
refused_device :
    (register lab taking "" (ok (device "acme/lab/bad" ∷ device "acme/lab/b" ∷ []))).0
    ≡ registered_runner (runner_request lab ("https://lab.example", ""))
      ∷ told
      ∷ registered_device (device_request lab (device "acme/lab/bad"))
      ∷ registered_device (device_request lab (device "acme/lab/b"))
      ∷ []
unfolding register register_inventory register_devices registration_endpoint api_key runner_request
    trim_space trim_left trim_right is_blank contains has_prefix
refused_device = refl

register_succeeds_example :
    (((register lab taking "" two).1 ≡ none) ↔ (
      (str_eq (api_key lab) "" ≡ false)
      × EndpointTaken lab taking two (registration_endpoint lab.exposure "")))
    × ((register lab taking "" two).1 ≡ none
        → (register lab taking "" two).0
          ≡ endpoint_calls lab taking two (registration_endpoint lab.exposure ""))
register_succeeds_example = register_succeeds lab taking "" two

abbrev both : ReconcileRequest
both = reconcile_request lab ("acme/lab/a" ∷ "acme/lab/b" ∷ [])

register-reconciles_example : IsWholeAfterRunner lab taking two both (register lab taking "" two).0
unfolding register register_inventory register_devices registration_endpoint api_key runner_request
    trim_space trim_left trim_right is_blank contains has_prefix
register-reconciles_example =
    register-reconciles lab taking "" two both (inr (inr (inr (inr (inl refl)))))
