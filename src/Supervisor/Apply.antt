-- ===== src/Supervisor/Apply.antt =====
-- `ApplyInventory` and `ApplyEndpoint`, internal/runtimesupervisor/supervisor.go: changes that are
-- published to Credimi without replacing the running generation.
pub mod Laws
use credimi_runner.Prelude.{
  Bool, true, false, ◌&&◌, ◌||◌, not, String, str_eq, Option, none, some, List, [], ◌∷◌,
  if◌then◌else◌, is_some,
}
use credimi_runner.GoError.{GoError, message, wrap}
use credimi_runner.Config.{
  Config, DeviceConfig, DeviceType, android_physical, AndroidPhysicalConfig,
}
use credimi_runner.Supervisor.Generation.{Generation, Env}
use credimi_runner.Supervisor.Activation.{register_with_retry}
use credimi_runner.Supervisor.Machine.{Supervisor}

abbrev pub is_physical : DeviceType → Bool
is_physical android_physical = true
is_physical _ = false

-- `previous[device.ID]`: of several devices with one ID the last was stored.
unfoldable pub find_device : String → List DeviceConfig → Option DeviceConfig
find_device id [] = none
find_device id (d ∷ ds) =
    let rest = find_device id ds in
    elim rest [ some x ↦ some x | none ↦ if str_eq d.id id then some d else none ]

abbrev pub same_address : AndroidPhysicalConfig → AndroidPhysicalConfig → Bool
same_address a b =
    str_eq a.transport b.transport
    && str_eq a.serial b.serial
    && str_eq a.wifi_ip b.wifi_ip
    && str_eq a.wifi_port b.wifi_port

-- Whether the old entry is an enabled physical device at the same address.
unfoldable pub unchanged_by : Option DeviceConfig → AndroidPhysicalConfig → Bool
unchanged_by none p = false
unchanged_by (some old) p =
    old.enabled
    && is_physical old.device_type
    && elim old.physical [ none ↦ false | some q ↦ same_address q p ]

-- The loop's test of one candidate device.
unfoldable pub needs_validation : List DeviceConfig → DeviceConfig → Bool
unfolding find_device unchanged_by
needs_validation active d =
    d.enabled
    && is_physical d.device_type
    && elim d.physical [ none ↦ false | some p ↦ not (unchanged_by (find_device d.id active) p) ]

unfoldable pub changed_enabled_physical_devices :
    List DeviceConfig → List DeviceConfig → List DeviceConfig
unfolding needs_validation
changed_enabled_physical_devices active [] = []
changed_enabled_physical_devices active (d ∷ ds) =
    let rest = changed_enabled_physical_devices active ds in
    if needs_validation active d then d ∷ rest else rest

module _ {W : Type 0} (env : Env W) where
  abbrev pub Ret : Type 0
  Ret = Supervisor W × Option GoError

  -- What follows the registration. The observer of the context may have marked the generation
  -- before a failure.
  unfoldable pub enrolled :
      Option GoError → String → W → (Generation → Generation) → Generation → Supervisor W → Ret
  enrolled none text w publish g s = (
    record s { generation = some (publish (record g { remote_registered = true })); world = w },
    none,
  )
  enrolled (some e) text w publish g s = (
    record s {
      generation =
          some
            (record g { remote_registered = g.remote_registered || env.registration_observed w });
      world = w;
    },
    some (wrap text e),
  )

  unfoldable pub enrol :
      Option (Config → String → W → W × Option GoError)
      → String
      → Config
      → String
      → (Generation → Generation)
      → Generation
      → Supervisor W
      → Ret
  unfolding enrolled
  enrol none text cfg url publish g s = (record s { generation = some (publish g) }, none)
  enrol (some register) text cfg url publish g s =
      let (w, e) = register_with_retry env register cfg url s.world in enrolled e text w publish g s

  -- A check that fails leaves all but the world as it was.
  unfoldable pub unless_refused : Option GoError → String → Ret → Supervisor W → Ret
  unless_refused none text next s = next
  unless_refused (some e) text next s = (s, some (wrap text e))

  unfoldable pub if_live : Bool → Ret → Supervisor W → Ret
  if_live true next s = next
  if_live false next s = (s, some (message "runtime generation is not running"))

  unfoldable pub validate_devices :
      Option (Config → W → W × Option GoError) → Config → List DeviceConfig → W → W × Option GoError
  validate_devices none cfg ds w = (w, none)
  validate_devices (some f) cfg [] w = (w, none)
  validate_devices (some f) cfg (d ∷ ds) w = f (record cfg { devices = d ∷ ds }) w

  -- The new configuration becomes the active one.
  abbrev pub adopt : Config → Generation → Generation
  adopt cfg g = record g { config = cfg; active_config = cfg }

  unfoldable pub inventory_live : Config → Generation → Supervisor W → Ret
  unfolding enrol validate_devices unless_refused
  inventory_live cfg g s =
      let changed = changed_enabled_physical_devices g.active_config.devices cfg.devices in
      let (w, e) = validate_devices env.validate_physical_devices cfg changed s.world in
      let s₁ : Supervisor W = record s { world = w } in
      unless_refused e "validate inventory devices"
        (enrol env.register "register inventory" cfg g.public_url (adopt cfg) g s₁) s₁

  unfoldable pub inventory_from : Option Generation → Config → Supervisor W → Ret
  unfolding inventory_live if_live
  inventory_from none cfg s = if_live false (s, none) s
  inventory_from (some g) cfg s = if_live g.executing (inventory_live cfg g s) s

  unfoldable pub apply_inventory : Config → Supervisor W → Ret
  unfolding inventory_from
  apply_inventory cfg s = inventory_from s.generation cfg s

  abbrev pub is_manual : Config → Bool
  is_manual cfg = str_eq cfg.exposure.mode "manual"

  unfoldable pub candidate_url : Config → String → String
  candidate_url cfg url = if is_manual cfg then cfg.exposure.public_url else url

  unfoldable pub verify :
      Option (Config → String → W → W × Option GoError) → Config → String → W → W × Option GoError
  verify none cfg url w = (w, none)
  verify (some f) cfg url w = f cfg url w

  -- The endpoint that a generation publishes once both steps have succeeded.
  abbrev pub adopt_endpoint : Config → String → Generation → Generation
  adopt_endpoint cfg url g =
      adopt cfg (if is_manual cfg then (record g { public_url = url }) else g)

  unfoldable pub endpoint_live : Config → Generation → Supervisor W → Ret
  unfolding enrol verify unless_refused candidate_url
  endpoint_live cfg g s =
      let url = candidate_url cfg g.public_url in
      let (w, e) = verify env.verify_public_endpoint cfg url s.world in
      let s₁ : Supervisor W = record s { world = w } in
      unless_refused e "verify public endpoint"
        (enrol env.register "register endpoint" cfg url (adopt_endpoint cfg url) g s₁) s₁

  unfoldable pub endpoint_from : Option Generation → Config → Supervisor W → Ret
  unfolding endpoint_live if_live
  endpoint_from none cfg s = if_live false (s, none) s
  endpoint_from (some g) cfg s = if_live g.executing (endpoint_live cfg g s) s

  unfoldable pub apply_endpoint : Config → Supervisor W → Ret
  unfolding endpoint_from
  apply_endpoint cfg s = endpoint_from s.generation cfg s
