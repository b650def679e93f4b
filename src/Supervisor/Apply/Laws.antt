-- ===== src/Supervisor/Apply/Laws.antt =====
-- What `ApplyInventory` and `ApplyEndpoint` keep when they refuse, and which devices they check.
use credimi_runner.Prelude.{
  Bool, true, false, ◌≡◌, ◌≢◌, refl, sym, subst, String, Option, none, some, arith, List, [], ◌∷◌,
  ◌&&◌, ◌||◌, not, str_eq_refl, All,
}
use credimi_runner.GoError.{GoError}
use credimi_runner.Config.{Config, DeviceConfig, AndroidPhysicalConfig}
use credimi_runner.Supervisor.Generation.{Generation, Env}
use credimi_runner.Supervisor.Activation.{register_with_retry}
use credimi_runner.Supervisor.Machine.{Supervisor}
use credimi_runner.Supervisor.Apply.{
  is_physical, find_device, same_address, unchanged_by, needs_validation,
  changed_enabled_physical_devices, enrolled, enrol, unless_refused, if_live, validate_devices,
  adopt, adopt_endpoint, inventory_live, inventory_from, apply_inventory, endpoint_live,
  endpoint_from, apply_endpoint, candidate_url, verify,
}

-- The same generation, but for the mark of its registration.
abbrev SameBut : Option Generation → Option Generation → Type 0
SameBut none none = Unit
SameBut (some g) (some h) = h ≡ record g { remote_registered = h.remote_registered }
SameBut none (some h) = ⊥
SameBut (some g) none = ⊥

SameBut-refl : (o : Option Generation) → SameBut o o
SameBut-refl none = tt
SameBut-refl (some g) = refl

marked-SameBut :
    (o : Option Generation) (g : Generation) (b : Bool)
    → o ≡ some g
    → SameBut o (some (record g { remote_registered = b }))
marked-SameBut o g b p =
    subst (λ o. SameBut o (some (record g { remote_registered = b }))) (sym p) refl

-- What a method that fails keeps: the reported state and the held generation.
pub record Refused {W : Type 0} (s r : Supervisor W) : Type 0 where
  pub state : r.state ≡ s.state
  pub generation : SameBut s.generation r.generation

Refused-refl : {W : Type 0} (s : Supervisor W) → Refused s s
Refused-refl s = record { state = refl; generation = SameBut-refl s.generation }

-- A method that fails has refused.
abbrev Refuses : {W : Type 0} → Supervisor W → Supervisor W × Option GoError → Type 0
Refuses s r = r.1 ≢ none → Refused s r.0

module _ {W : Type 0} (env : Env W) where
  enrolled-Refuses :
      (e : Option GoError) (text : String) (w : W) (f : Generation → Generation) (g : Generation)
      (s : Supervisor W)
      → s.generation ≡ some g
      → Refuses s (enrolled env e text w f g s)
  unfolding enrolled
  enrolled-Refuses none text w f g s p h = absurd (h refl)
  enrolled-Refuses (some e) text w f g s p h = record {
    state = refl;
    generation =
        marked-SameBut s.generation g (g.remote_registered || env.registration_observed w) p;
  }

  enrol-Refuses :
      (register : Option (Config → String → W → W × Option GoError)) (text : String) (cfg : Config)
      (url : String) (f : Generation → Generation) (g : Generation) (s : Supervisor W)
      → s.generation ≡ some g
      → Refuses s (enrol env register text cfg url f g s)
  unfolding enrol
  enrol-Refuses none text cfg url f g s p h = absurd (h refl)
  enrol-Refuses (some register) text cfg url f g s p h =
      let r = register_with_retry env register cfg url s.world in
      enrolled-Refuses r.1 text r.0 f g s p h

  unless-Refuses :
      (e : Option GoError) (text : String) (next : Supervisor W × Option GoError) (s : Supervisor W)
      → Refuses s next
      → Refuses s (unless_refused env e text next s)
  unfolding unless_refused
  unless-Refuses none text next s n h = n h
  unless-Refuses (some e) text next s n h = Refused-refl s

  if_live-Refuses :
      (b : Bool) (next : Supervisor W × Option GoError) (s : Supervisor W)
      → Refuses s next
      → Refuses s (if_live env b next s)
  unfolding if_live
  if_live-Refuses true next s n h = n h
  if_live-Refuses false next s n h = Refused-refl s

  inventory_live-Refuses :
      (cfg : Config) (g : Generation) (s : Supervisor W)
      → s.generation ≡ some g
      → Refuses s (inventory_live env cfg g s)
  unfolding inventory_live
  inventory_live-Refuses cfg g s p h =
      let changed = changed_enabled_physical_devices g.active_config.devices cfg.devices in
      let r = validate_devices env env.validate_physical_devices cfg changed s.world in
      let s₁ : Supervisor W = record s { world = r.0 } in
      let q =
        unless-Refuses r.1 "validate inventory devices"
          (enrol env env.register "register inventory" cfg g.public_url (adopt env cfg) g s₁) s₁
          (enrol-Refuses env.register "register inventory" cfg g.public_url (adopt env cfg) g s₁ p)
          h in
      record { state = q.state; generation = q.generation }

  inventory_from-Refuses :
      (held : Option Generation) (cfg : Config) (s : Supervisor W)
      → s.generation ≡ held
      → Refuses s (inventory_from env held cfg s)
  unfolding inventory_from
  inventory_from-Refuses none cfg s p = if_live-Refuses false (s, none) s (λ h. Refused-refl s)
  inventory_from-Refuses (some g) cfg s p =
      if_live-Refuses g.executing (inventory_live env cfg g s) s (inventory_live-Refuses cfg g s p)

  -- An inventory change that fails leaves the reported state, the configuration and the public URL
  -- of the held generation as they were; at most the mark of its registration changes.
  pub apply_inventory_refuses :
      (cfg : Config) (s : Supervisor W)
      → (apply_inventory env cfg s).1 ≢ none
      → Refused s (apply_inventory env cfg s).0
  unfolding apply_inventory
  apply_inventory_refuses cfg s h = inventory_from-Refuses s.generation cfg s refl h

  endpoint_live-Refuses :
      (cfg : Config) (g : Generation) (s : Supervisor W)
      → s.generation ≡ some g
      → Refuses s (endpoint_live env cfg g s)
  unfolding endpoint_live
  endpoint_live-Refuses cfg g s p h =
      let url = candidate_url env cfg g.public_url in
      let r = verify env env.verify_public_endpoint cfg url s.world in
      let s₁ : Supervisor W = record s { world = r.0 } in
      let f = adopt_endpoint env cfg url in
      let q =
        unless-Refuses r.1 "verify public endpoint"
          (enrol env env.register "register endpoint" cfg url f g s₁) s₁
          (enrol-Refuses env.register "register endpoint" cfg url f g s₁ p) h in
      record { state = q.state; generation = q.generation }

  endpoint_from-Refuses :
      (held : Option Generation) (cfg : Config) (s : Supervisor W)
      → s.generation ≡ held
      → Refuses s (endpoint_from env held cfg s)
  unfolding endpoint_from
  endpoint_from-Refuses none cfg s p = if_live-Refuses false (s, none) s (λ h. Refused-refl s)
  endpoint_from-Refuses (some g) cfg s p =
      if_live-Refuses g.executing (endpoint_live env cfg g s) s (endpoint_live-Refuses cfg g s p)

  -- An endpoint change that fails leaves the reported state, the configuration and the public URL
  -- of the held generation as they were; at most the mark of its registration changes.
  pub apply_endpoint_refuses :
      (cfg : Config) (s : Supervisor W)
      → (apply_endpoint env cfg s).1 ≢ none
      → Refused s (apply_endpoint env cfg s).0
  unfolding apply_endpoint
  apply_endpoint_refuses cfg s h = endpoint_from-Refuses s.generation cfg s refl h

-- Every device's ID finds that device: the IDs of the list are pairwise different.
abbrev pub FindsAll : List DeviceConfig → List DeviceConfig → Type 0
FindsAll all ds = All (λ d. find_device d.id all ≡ some d) ds

same_address_refl : (p : AndroidPhysicalConfig) → same_address p p ≡ true
same_address_refl p = ground (
  arith,
  str_eq_refl p.transport,
  str_eq_refl p.serial,
  str_eq_refl p.wifi_ip,
  str_eq_refl p.wifi_port,
)

old_passes : (e t b : Bool) → b ≡ true → (e && t && not (e && t && b)) ≡ false
old_passes e t b h = ground arith

same_physical :
    (q : Option AndroidPhysicalConfig) (p : AndroidPhysicalConfig)
    → q ≡ some p
    → elim q [ none ↦ false | some r ↦ same_address r p ] ≡ true
same_physical q p e =
    subst (λ o. elim o [ none ↦ false | some r ↦ same_address r p ] ≡ true) (sym e)
      (same_address_refl p)

old_passes_by :
    (q : Option AndroidPhysicalConfig) (e t : Bool) (same : AndroidPhysicalConfig → Bool)
    → ((p : AndroidPhysicalConfig) → q ≡ some p → same p ≡ true)
    → (e && t && elim q [ none ↦ false | some p ↦ not (e && t && same p) ]) ≡ false
old_passes_by none e t same h = ground arith
old_passes_by (some p) e t same h = old_passes e t (same p) (h p refl)

needs_validation_old :
    (active : List DeviceConfig) (d : DeviceConfig)
    → find_device d.id active ≡ some d
    → needs_validation active d ≡ false
unfolding needs_validation unchanged_by
needs_validation_old active d f =
    subst
      (λ o.
        (d.enabled
          && is_physical d.device_type
          && elim d.physical [ none ↦ false | some p ↦ not (unchanged_by o p) ])
        ≡ false)
      (sym f)
      (old_passes_by d.physical d.enabled (is_physical d.device_type)
        (λ p. elim d.physical [ none ↦ false | some r ↦ same_address r p ])
        (same_physical d.physical))

-- Devices that are each found by their ID in the active configuration as they are need no check
-- again.
pub changed_devices_none :
    (active ds : List DeviceConfig)
    → FindsAll active ds
    → changed_enabled_physical_devices active ds ≡ []
unfolding changed_enabled_physical_devices
changed_devices_none active [] h = refl
changed_devices_none active (d ∷ ds) h =
    let rest = changed_devices_none active ds h.1 in
    let old = needs_validation_old active d h.0 in rw old rest
