-- ===== src/Device/Registry.antt =====
-- The registry of devices, internal/device/registry.go, type.go and errors.go. A snapshot is
-- stored as a whole; the copies that the source makes of subtables are values here.
use Prim.Native.String.{compare}
use Prim.Native.Nat.{Ordering}
use credimi_runner.Prelude.{
  ℕ, Bool, true, false, String, str_eq, codes, Option, none, some, List, [], ◌∷◌, if◌then◌else◌,
  ◌==◌, any,
}
use credimi_runner.Config.{DeviceConfig}

-- The errors of errors.go.
pub data DeviceError : Type 0 where
  invalid_id : DeviceError
  duplicate unknown disabled : String → DeviceError

pub data Answer {ℓ} (A : Type ℓ) : Type ℓ where
  found : A → Answer A
  wrong : DeviceError → Answer A

-- `Device` has the fields of its configuration, which `fromConfig` copies.
abbrev pub Device : Type 0
Device = DeviceConfig

-- The loop of `devicesFromConfig`.
unfoldable pub collect : List String → List DeviceConfig → Answer (List Device)
collect seen [] = found []
collect seen (cfg ∷ cfgs) =
    let rest = collect (cfg.id ∷ seen) cfgs in
    if str_eq cfg.id ""
    then wrong invalid_id
    else if any (str_eq cfg.id) seen
    then wrong (duplicate cfg.id)
    else elim rest [ found ds ↦ found (cfg ∷ ds) | wrong e ↦ wrong e ]

abbrev text_lt : String → String → Bool
text_lt s t = elim (compare s t) [ Ordering.lt ↦ true | _ ↦ false ]

abbrev pub insert : Device → List Device → List Device
insert d [] = d ∷ []
insert d (x ∷ xs) = let rest = insert d xs in if text_lt d.id x.id then d ∷ x ∷ xs else x ∷ rest

-- `sort.Slice` by ID: the IDs are different, so there is one sorted order.
abbrev pub sort_by_id : List Device → List Device
sort_by_id [] = []
sort_by_id (d ∷ ds) = insert d (sort_by_id ds)

abbrev pub sorted : Answer (List Device) → Answer (List Device)
sorted (found ds) = found (sort_by_id ds)
sorted (wrong e) = wrong e

unfoldable pub devices_from_config : List DeviceConfig → Answer (List Device)
unfolding collect
devices_from_config cfgs = sorted (collect [] cfgs)

-- The current snapshot, `none` before the first one. `byID` is made of `devices`, the last of equal
-- IDs winning.
pub record Registry : Type 0 where
  pub current : Option (List Device)

abbrev pub device_by_id : String → List Device → Option Device
device_by_id id [] = none
device_by_id id (d ∷ ds) =
    let rest = device_by_id id ds in
    elim rest [ some x ↦ some x | none ↦ if str_eq d.id id then some d else none ]

abbrev pub stored : Answer (List Device) → Registry → Registry × Option DeviceError
stored (wrong e) r = (r, some e)
stored (found ds) r = (record { current = some ds }, none)

-- `Replace`
unfoldable pub replace : List DeviceConfig → Registry → Registry × Option DeviceError
replace cfgs r = stored (devices_from_config cfgs) r

abbrev pub first_is_slash : List ℕ → Bool
first_is_slash [] = false
first_is_slash (c ∷ cs) = c == 47

abbrev pub in_snapshot : Option (List Device) → String → Option Device
in_snapshot none id = none
in_snapshot (some ds) id = device_by_id id ds

abbrev pub or_unknown : Option Device → String → Answer Device
or_unknown none id = wrong (unknown id)
or_unknown (some d) id = found d

-- `Resolve`
unfoldable pub resolve : String → Registry → Answer Device
resolve id r =
    if first_is_slash (codes id)
    then wrong (unknown id)
    else or_unknown (in_snapshot r.current id) id

abbrev pub check_enabled : Answer Device → String → Answer Device
check_enabled (wrong e) id = wrong e
check_enabled (found d) id = if d.enabled then found d else wrong (disabled id)

-- `ResolveEnabled`
unfoldable pub resolve_enabled : String → Registry → Answer Device
unfolding resolve
resolve_enabled id r = check_enabled (resolve id r) id
