-- ===== src/Registration/Laws.antt =====
-- What a registration that succeeds has done, and when devices are reconciled.
use Prim.Native.String.{String}
use credimi_runner.Prelude.{
  by_test, false, ◌≡◌, ◌↔◌, refl, sym, ap, ◌∙◌, Option, none, some, List, [], ◌∷◌, ◌++◌, map, All,
  str_eq,
}
use credimi_runner.GoError.{GoError, Result, ok, err}
use credimi_runner.Config.{Config, DeviceConfig}
use credimi_runner.Strings.{is_blank}
use credimi_runner.Disk.{wrapped}
use credimi_runner.Registration.{
  InventoryDevice, Call, RunnerRequest, without_inventory, registered_runner, told,
  registered_device, reconciled, Client, registration_endpoint, api_key, runner_request,
  device_request, reconcile_request, Loop, after_device, register_devices, reconcile_all,
  register_inventory, after_runner, at_endpoint, register,
}

module _ (cfg : Config) (client : Client) where
  -- The device has an ID and Credimi has taken it.
  abbrev pub IsTaken : InventoryDevice → Type 0
  IsTaken d = (is_blank d.id ≡ false) × (client.register_device (device_request cfg d) ≡ none)

  abbrev pub id_of : InventoryDevice → String
  id_of d = d.id

  abbrev pub call_of : InventoryDevice → Call
  call_of d = registered_device (device_request cfg d)

  -- The loop collects no error exactly when every device is taken, and then all IDs and calls.
  abbrev pub IsLoop : List InventoryDevice → Loop → Type 0
  IsLoop ds l =
      ((l.errors ≡ []) ↔ All IsTaken ds)
      × (l.errors ≡ [] → (l.ids ≡ map id_of ds) × (l.calls ≡ map call_of ds))

  after_device-IsLoop :
      (d : InventoryDevice) (ds : List InventoryDevice) (o : Option GoError) (l : Loop)
      → client.register_device (device_request cfg d) ≡ o
      → is_blank d.id ≡ false
      → IsLoop ds l
      → IsLoop (d ∷ ds) (after_device cfg client d o l)
  after_device-IsLoop d ds (some e) l h b v = ((λ k. cc, λ k. let taken = k.0.1 in cc), λ k. cc)
  after_device-IsLoop d ds none l h b v = (
    (λ k. ((b, h), v.0.0 k), λ k. v.0.1 k.1),
    λ k. let rest = v.1 k in (ap (λ r. d.id ∷ r) rest.0, ap (λ r. call_of d ∷ r) rest.1),
  )

  pub register_devices-IsLoop :
      (ds : List InventoryDevice) → IsLoop ds (register_devices cfg client ds)
  unfolding register_devices
  register_devices-IsLoop [] = ((λ h. tt, λ h. refl), λ h. (refl, refl))
  register_devices-IsLoop (d ∷ ds) =
      let ih = register_devices-IsLoop ds in
      by_test (IsLoop (d ∷ ds)) (is_blank d.id) _ _
        (λ b. ((λ k. cc, λ k. let named = k.0.0 in cc), λ k. cc))
        (λ b. after_device-IsLoop d ds _ _ refl b ih)

  -- What a registration needs of the inventory, and the calls that it then makes.
  abbrev pub InventoryTaken : Result (List InventoryDevice) → Type 0
  InventoryTaken (err e) = cfg.devices ≡ []
  InventoryTaken (ok ds) =
      All IsTaken ds × (client.reconcile (reconcile_request cfg (map id_of ds)) ≡ none)

  abbrev pub inventory_calls : Result (List InventoryDevice) → List Call
  inventory_calls (err e) = []
  inventory_calls (ok ds) = map call_of ds ++ reconciled (reconcile_request cfg (map id_of ds)) ∷ []

  -- What is said of the result of a part of `Register` that needs `N` and makes these calls.
  abbrev IsPart : Type 0 → List Call → List Call × Option GoError → Type 0
  IsPart N calls r = ((r.1 ≡ none) ↔ N) × (r.1 ≡ none → r.0 ≡ calls)

  wrapped-none : (m : String) (o : Option GoError) → (wrapped m o ≡ none) ↔ (o ≡ none)
  wrapped-none m none = (λ h. refl, λ h. refl)
  wrapped-none m (some e) = (λ h. cc, λ h. cc)

  without-none :
      (ds : List DeviceConfig) (e : GoError)
      → (without_inventory cfg client ds e ≡ none) ↔ (ds ≡ [])
  without-none [] e = (λ h. refl, λ h. refl)
  without-none (d ∷ ds) e = (λ h. cc, λ h. cc)

  reconcile_all-IsPart :
      (ds : List InventoryDevice) (es : List GoError) (l : Loop)
      → l.errors ≡ es
      → IsLoop ds l
      → IsPart (InventoryTaken (ok ds)) (inventory_calls (ok ds)) (reconcile_all cfg client es l)
  reconcile_all-IsPart ds (e ∷ es) l h v =
      ((λ k. cc, λ k. let none_left = v.0.1 k.0 in cc), λ k. cc)
  reconcile_all-IsPart ds [] l h v =
      let w =
        wrapped-none "reconcile configured devices"
          (client.reconcile (reconcile_request cfg l.ids)) in
      let all = v.1 h in
      let same : client.reconcile (reconcile_request cfg l.ids)
          ≡ client.reconcile (reconcile_request cfg (map id_of ds)) =
        ap (λ i. client.reconcile (reconcile_request cfg i)) all.0 in
      (
        (λ k. (v.0.0 h, sym same ∙ w.0 k), λ k. w.1 (same ∙ k.1)),
        λ k.
            ap (λ c. c ++ reconciled (reconcile_request cfg l.ids) ∷ []) all.1
            ∙ ap (λ i. map call_of ds ++ reconciled (reconcile_request cfg i) ∷ []) all.0,
      )

  register_inventory-IsPart :
      (inventory : Result (List InventoryDevice))
      → IsPart
          (InventoryTaken inventory)
          (inventory_calls inventory)
          (register_inventory cfg client inventory)
  unfolding register_inventory
  register_inventory-IsPart (err e) = (without-none cfg.devices e, λ h. refl)
  register_inventory-IsPart (ok ds) = reconcile_all-IsPart ds _ _ refl (register_devices-IsLoop ds)

  after_runner-IsPart :
      (inventory : Result (List InventoryDevice)) (r : RunnerRequest) (o : Option GoError)
      → IsPart
          ((o ≡ none) × InventoryTaken inventory)
          (registered_runner r ∷ told ∷ inventory_calls inventory)
          (after_runner cfg client inventory r o)
  unfolding register_inventory
  after_runner-IsPart inventory r (some e) = ((λ h. cc, λ h. cc), λ h. cc)
  after_runner-IsPart inventory r none =
      let part = register_inventory-IsPart inventory in
      (
        (λ h. (refl, part.0.0 h), λ h. part.0.1 h.1),
        λ h. ap (λ c. registered_runner r ∷ told ∷ c) (part.1 h),
      )

  -- What `Register` needs to succeed with an endpoint.
  abbrev pub EndpointTaken : Result (List InventoryDevice) → Result (String × String) → Type 0
  EndpointTaken inventory (err e) = ⊥
  EndpointTaken inventory (ok address) =
      (client.register_runner (runner_request cfg address) ≡ none) × InventoryTaken inventory

  abbrev pub endpoint_calls : Result (List InventoryDevice) → Result (String × String) → List Call
  endpoint_calls inventory (err e) = []
  endpoint_calls inventory (ok address) =
      registered_runner (runner_request cfg address) ∷ told ∷ inventory_calls inventory

  at_endpoint-IsPart :
      (inventory : Result (List InventoryDevice)) (r : Result (String × String))
      → IsPart
          (EndpointTaken inventory r)
          (endpoint_calls inventory r)
          (at_endpoint cfg client inventory r)
  unfolding register_inventory runner_request
  at_endpoint-IsPart inventory (err e) = ((λ h. cc, λ h. absurd h), λ h. cc)
  at_endpoint-IsPart inventory (ok address) = after_runner-IsPart inventory _ _

  -- `Register` succeeds exactly when there is an API key and an endpoint, Credimi takes the runner,
  -- and then either takes every device, each of which has an ID, and their reconciliation, or there
  -- is no inventory and the configuration has no device. It has then registered the runner, told
  -- the supervisor so, registered the devices in their order and reconciled exactly these.
  pub register_succeeds :
      (url : String) (inventory : Result (List InventoryDevice))
      → (((register cfg client url inventory).1 ≡ none) ↔ (
          (str_eq (api_key cfg) "" ≡ false)
          × EndpointTaken inventory (registration_endpoint cfg.exposure url)))
        × ((register cfg client url inventory).1 ≡ none
            → (register cfg client url inventory).0
              ≡ endpoint_calls inventory (registration_endpoint cfg.exposure url))
  unfolding register
  register_succeeds url inventory =
      let address = registration_endpoint cfg.exposure url in
      let part = at_endpoint-IsPart inventory address in
      by_test
        (λ r.
          IsPart ((str_eq (api_key cfg) "" ≡ false) × EndpointTaken inventory address)
            (endpoint_calls inventory address) r)
        (str_eq (api_key cfg) "") _ _ (λ b. ((λ h. cc, λ h. let keyed = h.0 in cc), λ h. cc))
        (λ b. ((λ h. (b, part.0.0 h), λ h. part.0.1 h.1), part.1))
