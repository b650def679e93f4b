-- ===== src/Device/Lookup.antt =====
-- What the registry of devices answers, and which inventories it takes.
use credimi_runner.Prelude.{
  Bool, true, false, ◌≡◌, ◌≢◌, refl, subst, ◌↔◌, ◌⊎◌, inl, inr, String, str_eq, eq_iff, codes,
  Option, none, some, List, [], ◌∷◌, if◌then◌else◌, any, Bool-cases,
}
use credimi_runner.Config.{DeviceConfig}
use credimi_runner.Device.Registry.{
  Device, DeviceError, invalid_id, duplicate, unknown, disabled, Answer, found, wrong, collect,
  sorted, devices_from_config, Registry, device_by_id, stored, replace, first_is_slash, in_snapshot,
  or_unknown, resolve, check_enabled, resolve_enabled,
}

-- The device that an optional lookup gave has the ID.
abbrev Named : String → Option Device → Type 0
Named id none = Unit
Named id (some d) = d.id ≡ id

Named-or :
    (id : String) (o : Option Device) (d : Device)
    → Named id o
    → Named id (elim o [ some x ↦ some x | none ↦ if str_eq d.id id then some d else none ])
Named-or id (some x) d h = h
Named-or id none d h = elim (Bool-cases (str_eq d.id id)) [
  | inl same ↦ rw same ((eq_iff d.id id).0 same)
  | inr differs ↦ rw differs tt
]

device_by_id-Named : (id : String) (ds : List Device) → Named id (device_by_id id ds)
device_by_id-Named id [] = tt
device_by_id-Named id (d ∷ ds) = Named-or id (device_by_id id ds) d (device_by_id-Named id ds)

in_snapshot-Named : (o : Option (List Device)) (id : String) → Named id (in_snapshot o id)
in_snapshot-Named none id = tt
in_snapshot-Named (some ds) id = device_by_id-Named id ds

-- What a successful answer promises.
abbrev Answered : (Device → Type 0) → Answer Device → Type 0
Answered P (found d) = P d
Answered P (wrong e) = Unit

or_unknown-Answered :
    (o : Option Device) (id : String) → Named id o → Answered (λ d. d.id ≡ id) (or_unknown o id)
or_unknown-Answered none id h = tt
or_unknown-Answered (some d) id h = h

guarded-Answered :
    (b : Bool) (id : String) (a : Answer Device)
    → Answered (λ d. d.id ≡ id) a
    → Answered (λ d. d.id ≡ id) (if b then wrong (unknown id) else a)
guarded-Answered true id a h = tt
guarded-Answered false id a h = h

resolve-Answered : (id : String) (r : Registry) → Answered (λ d. d.id ≡ id) (resolve id r)
unfolding resolve
resolve-Answered id r =
    guarded-Answered (first_is_slash (codes id)) id (or_unknown (in_snapshot r.current id) id)
      (or_unknown-Answered (in_snapshot r.current id) id (in_snapshot-Named r.current id))

if_enabled-Answered :
    (b : Bool) (id : String) (d : Device)
    → d.enabled ≡ b
    → d.id ≡ id
    → Answered (λ d. (d.id ≡ id) × (d.enabled ≡ true)) (if b then found d else wrong (disabled id))
if_enabled-Answered true id d e h = (h, e)
if_enabled-Answered false id d e h = tt

enabled-Answered :
    (id : String) (a : Answer Device)
    → Answered (λ d. d.id ≡ id) a
    → Answered (λ d. (d.id ≡ id) × (d.enabled ≡ true)) (check_enabled a id)
enabled-Answered id (wrong e) h = tt
enabled-Answered id (found d) h = if_enabled-Answered d.enabled id d refl h

-- A device that is resolved as enabled is enabled and has exactly the ID that was asked for.
pub resolve_enabled-found :
    (id : String) (r : Registry) (d : Device)
    → resolve_enabled id r ≡ found d
    → (d.id ≡ id) × (d.enabled ≡ true)
unfolding resolve_enabled
resolve_enabled-found id r d h =
    subst (Answered (λ x. (x.id ≡ id) × (x.enabled ≡ true))) h
      (enabled-Answered id (resolve id r) (resolve-Answered id r))

-- An inventory that the loop takes: every ID is there and is not among those before it.
abbrev pub IsProper : List String → List DeviceConfig → Type 0
IsProper seen [] = Unit
IsProper seen (cfg ∷ cfgs) =
    (str_eq cfg.id "" ≡ false) × (any (str_eq cfg.id) seen ≡ false) × IsProper (cfg.id ∷ seen) cfgs

-- The loop either takes the whole inventory or refuses it.
abbrev Decides : Answer (List Device) → List DeviceConfig → Type 0 → Type 0
Decides a cfgs P = ((a ≡ found cfgs) × P) ⊎ ((e : DeviceError) × (a ≡ wrong e) × (P → ⊥))

collected-Decides :
    (empty taken : Bool) (e₁ e₂ : DeviceError) (rest : Answer (List Device)) (cfg : DeviceConfig)
    (cfgs : List DeviceConfig) (P : Type 0)
    → Decides rest cfgs P
    → Decides
        (if empty
          then wrong e₁
          else if taken
          then wrong e₂
          else elim rest [ found ds ↦ found (cfg ∷ ds) | wrong e ↦ wrong e ])
        (cfg ∷ cfgs)
        ((empty ≡ false) × (taken ≡ false) × P)
collected-Decides true taken e₁ e₂ rest cfg cfgs P h = inr (e₁, refl, λ q. let x = q.0 in cc x)
collected-Decides false true e₁ e₂ rest cfg cfgs P h = inr (e₂, refl, λ q. let x = q.1 in cc x)
collected-Decides false false e₁ e₂ rest cfg cfgs P (inl (p, q)) = inl (rw p refl, (refl, refl, q))
collected-Decides false false e₁ e₂ rest cfg cfgs P (inr (e, p, n)) = inr (e, rw p refl, λ q. n q.2)

collect-Decides :
    (seen : List String) (cfgs : List DeviceConfig)
    → Decides (collect seen cfgs) cfgs (IsProper seen cfgs)
unfolding collect
collect-Decides seen [] = inl (refl, tt)
collect-Decides seen (cfg ∷ cfgs) =
    collected-Decides (str_eq cfg.id "") (any (str_eq cfg.id) seen) invalid_id (duplicate cfg.id)
      (collect (cfg.id ∷ seen) cfgs) cfg cfgs (IsProper (cfg.id ∷ seen) cfgs)
      (collect-Decides (cfg.id ∷ seen) cfgs)

abbrev Takes : Registry → Registry × Option DeviceError → Type 0 → Type 0
Takes r out P = ((out.1 ≡ none) ↔ P) × (out.1 ≢ none → out.0 ≡ r)

stored-Takes :
    (a : Answer (List Device)) (r : Registry) (cfgs : List DeviceConfig) (P : Type 0)
    → Decides a cfgs P
    → Takes r (stored (sorted a) r) P
stored-Takes (found ds) r cfgs P (inl (p, q)) = ((λ _. q, λ _. refl), λ n. absurd (n refl))
stored-Takes (found ds) r cfgs P (inr (e, p, n)) = cc p
stored-Takes (wrong e) r cfgs P (inl (p, q)) = cc p
stored-Takes (wrong e) r cfgs P (inr (x, p, n)) = ((λ h. cc h, λ q. absurd (n q)), λ _. refl)

-- The registry takes an inventory exactly when no ID is empty or repeated, and otherwise stays as
-- it was.
pub replace_takes :
    (cfgs : List DeviceConfig) (r : Registry)
    → (((replace cfgs r).1 ≡ none) ↔ IsProper [] cfgs)
      × ((replace cfgs r).1 ≢ none → (replace cfgs r).0 ≡ r)
unfolding replace devices_from_config
replace_takes cfgs r =
    stored-Takes (collect [] cfgs) r cfgs (IsProper [] cfgs) (collect-Decides [] cfgs)
