-- ===== src/Config/DeviceLoop.antt =====
-- The loop over the devices of `ValidateForPlatform`: what it accepts, and what it has counted.
use credimi_runner.Prelude.{
  ℕ, ◌+◌, true, false, ◌≡◌, ◌↔◌, refl, subst, String, str_eq, str_append, Option, none, some, List,
  [], ◌∷◌, any, arith, All, Distinct,
}
use credimi_runner.Strings.{has_prefix}
use credimi_runner.Config.{DeviceConfig, DeviceType}
use credimi_runner.Config.Checks.{ConfigError, is_duplicate, Outside, first_error, is_canonical}
use credimi_runner.Config.Devices.{
  requires, unique, then_unique, unique_address, device_error, validate_device, address, Seen,
  counted, id_error, check_device, Checked, accepted, rejected, after_round, check_devices,
  is_emulator, is_simulator,
}
use credimi_runner.Config.Valid.{FitsDevice, NotBlank, add_key, addresses, ids, names, count}
use credimi_runner.Config.DeviceRules.{Visits, device_error_iff}

-- A value that a check keeps apart from those seen.
abbrev Fresh : List String → String → Type 0
Fresh seen value = any (str_eq value) seen ≡ false

-- The answer of a check and the list after it: it passes exactly if `P` holds, and then the list
-- is the one given.
abbrev Passes : Option ConfigError × List String → Type 0 → List String → Type 0
Passes r P next = ((r.0 ≡ none) ↔ P) × (r.0 ≡ none → r.1 ≡ next)

then_unique-Passes :
    (e : Option ConfigError) (seen : List String) (value : String) (x : ConfigError)
    → Passes (then_unique e seen value x) ((e ≡ none) × Fresh seen value) (value ∷ seen)
unfolding unique
then_unique-Passes (some y) seen value x = ((λ h. cc, λ h. let q = h.0 in cc), λ h. cc)
then_unique-Passes none seen value x = ground arith

abbrev FreshKey : List String → Option (String × String) → Type 0
FreshKey seen none = Unit
FreshKey seen (some (key, label)) = Fresh seen key

three_errors :
    (a b c : Option ConfigError)
    → (first_error (a ∷ b ∷ c ∷ []) ≡ none) ↔ ((a ≡ none) × (b ≡ none) × (c ≡ none))
three_errors a b c = ground arith

address-Passes :
    (e : Option ConfigError) (o : Option (String × String)) (i : ℕ) (serials : List String)
    → Passes (unique_address e o i serials) ((e ≡ none) × FreshKey serials o) (add_key o serials)
address-Passes e none i serials = ((λ h. (h, tt), λ h. h.0), λ h. refl)
address-Passes e (some (key, label)) i serials = then_unique-Passes e serials key _

Distinct-add_key :
    (seen : List String) (o : Option (String × String)) (keys : List String)
    → Distinct seen (add_key o keys) ↔ (FreshKey seen o × Distinct (add_key o seen) keys)
Distinct-add_key seen none keys = (λ h. (tt, h), λ h. h.1)
Distinct-add_key seen (some (key, label)) keys = (λ h. h, λ h. h)

-- What a round leaves.
abbrev next : DeviceConfig → Seen → Seen
next d s = counted d.device_type (record s {
  ids = d.id ∷ s.ids;
  names = d.name ∷ s.names;
  serials = add_key (address d) s.serials;
})

name_iff : (i : ℕ) (d : DeviceConfig) → (requires i "name" d.name ≡ none) ↔ NotBlank d.name
name_iff i d = ground arith

seen_eq :
    (t : DeviceType) (s : Seen) {a b c a2 b2 c2 : List String}
    → a ≡ a2
    → b ≡ b2
    → c ≡ c2
    → counted t (record s { ids = a; names = b; serials = c })
      ≡ counted t (record s { ids = a2; names = b2; serials = c2 })
seen_eq t s e f g = cc

module _ (goos runner_id : String) where
  -- What one round asks of a device.
  abbrev RoundFits : DeviceConfig → Seen → Type 0
  RoundFits d s =
      FitsDevice goos runner_id d
      × Fresh s.ids d.id
      × Fresh s.names d.name
      × FreshKey s.serials (address d)

  id_error_iff :
      (i : ℕ) (d : DeviceConfig)
      → (id_error runner_id i d ≡ none) ↔ (
          NotBlank d.id
          × (has_prefix d.id (str_append runner_id "/") ≡ true)
          × (is_canonical d.id ≡ true))
  id_error_iff i d = ground arith

  -- What the loop asks of the devices that are left.
  abbrev pub LoopFits : List DeviceConfig → Seen → Type 0
  LoopFits ds s =
      All (FitsDevice goos runner_id) ds
      × Distinct s.ids (ids ds)
      × Distinct s.names (names ds)
      × Distinct s.serials (addresses ds)

  cons_iff :
      (d : DeviceConfig) (ds : List DeviceConfig) (s : Seen)
      → LoopFits (d ∷ ds) s ↔ (RoundFits d s × LoopFits ds (next d s))
  cons_iff d ds s =
      let keys = Distinct-add_key s.serials (address d) (addresses ds) in
      (
        λ h. let k = keys.0 h.3 in ((h.0.0, h.1.0, h.2.0, k.0), (h.0.1, h.1.1, h.2.1, k.1)),
        λ h. let f = h.0 in let r = h.1 in ((f.0, r.0), (f.1, r.1), (f.2, r.2), keys.1 (f.3, r.3)),
      )

  -- How the loop ends.
  abbrev pub Ends : List DeviceConfig → Seen → Checked → Type 0
  Ends ds s (accepted t) =
      LoopFits ds s
      × (t.emulators ≡ s.emulators + count is_emulator ds)
      × (t.simulators ≡ s.simulators + count is_simulator ds)
  Ends ds s (rejected e) = LoopFits ds s → ⊥

  accepted_more :
      (d : DeviceConfig) (ds : List DeviceConfig) (s : Seen) (r : Checked)
      → RoundFits d s
      → Ends ds (next d s) r
      → Ends (d ∷ ds) s r
  accepted_more d ds s (accepted t) f h =
      ((cons_iff d ds s).1 (f, h.0), omega (arith, h.1), omega (arith, h.2))
  accepted_more d ds s (rejected e) f h = λ fits. h ((cons_iff d ds s).0 fits).1

  after_round-Ends :
      (d : DeviceConfig) (ds : List DeviceConfig) (s t : Seen) (e : Option ConfigError)
      (r : Checked)
      → ((e ≡ none) ↔ RoundFits d s)
      → (e ≡ none → t ≡ next d s)
      → Ends ds t r
      → Ends (d ∷ ds) s (after_round e r)
  after_round-Ends d ds s t none r fits same h =
      accepted_more d ds s r (fits.0 refl) (subst (λ u. Ends ds u r) (same refl) h)
  after_round-Ends d ds s t (some x) r fits same h =
      λ f. let q = fits.1 ((cons_iff d ds s).0 f).0 in cc

  module _ (out : Outside) (visits : Visits out) where
    round_iff :
        (i : ℕ) (d : DeviceConfig) (s : Seen)
        → let r = check_device out goos runner_id i d s in
          ((r.0 ≡ none) ↔ RoundFits d s) × (r.0 ≡ none → r.1 ≡ next d s)
    unfolding check_device validate_device
    round_iff i d s =
        let new_id =
          then_unique-Passes (id_error runner_id i d) s.ids d.id (is_duplicate i "id" d.id) in
        let new_name =
          then_unique-Passes (requires i "name" d.name) s.names d.name
            (is_duplicate i "name" d.name) in
        let rest = address-Passes (device_error out goos i d) (address d) i s.serials in
        let fits = device_error_iff out goos visits i d in
        let id_fits = id_error_iff i d in
        let name_fits = name_iff i d in
        let parts = three_errors _ _ _ in
        (
          (
            λ h.
                let e = parts.0 h in
                let a = new_id.0.0 e.0 in
                let b = new_name.0.0 e.1 in
                let c = rest.0.0 e.2 in
                let f = id_fits.0 a.0 in
                ((f.0, f.1, f.2, name_fits.0 b.0, fits.0 c.0), a.1, b.1, c.1),
            λ f.
                let g = f.0 in
                parts.1 (
                  new_id.0.1 (id_fits.1 (g.0, g.1, g.2), f.1),
                  new_name.0.1 (name_fits.1 g.3, f.2),
                  rest.0.1 (fits.1 g.4, f.3),
                ),
          ),
          λ h.
              let e = parts.0 h in
              seen_eq d.device_type s (new_id.1 e.0) (new_name.1 e.1) (rest.1 e.2),
        )

    pub check_devices-Ends :
        (i : ℕ) (ds : List DeviceConfig) (s : Seen)
        → Ends ds s (check_devices out goos runner_id i ds s)
    unfolding check_devices
    check_devices-Ends i [] s = ((tt, tt, tt, tt), omega arith, omega arith)
    check_devices-Ends i (d ∷ ds) s =
        let round = round_iff i d s in
        after_round-Ends d ds s _ _ _ round.0 round.1
          (check_devices-Ends (i + 1) ds (check_device out goos runner_id i d s).1)
