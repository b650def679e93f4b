-- ===== src/Config/DeviceRules.antt =====
-- `validateDevice` without the look at other devices accepts exactly what `FitsType` says.
use credimi_runner.Prelude.{
  ℕ, Bool, true, false, ◌≡◌, ◌↔◌, refl, sym, ap, subst, ◌∙◌, String, str_append, eq_iff, Option,
  none, some, List, [], ◌∷◌, any, arith, ◌==◌,
}
use credimi_runner.Strings.{is_blank}
use credimi_runner.Config.{
  DeviceConfig, DeviceType, android_physical, android_emulator, redroid, ios_simulator, other_type,
  AndroidPhysicalConfig, AndroidEmulatorConfig, RedroidConfig, IosSimulatorConfig,
}
use credimi_runner.Config.Checks.{ConfigError, Outside, required_all}
use credimi_runner.Config.Devices.{
  subtables, physical_error, emulator_error, redroid_error, simulator_error, of_subtable,
  typed_error, device_error,
}
use credimi_runner.Config.Valid.{FitsPhysical, FitsEmulator, FitsRedroid, FitsSimulator, FitsType}

-- A `range` over a map visits each entry and nothing else.
pub record Visits (out : Outside) : Type 0 where
  pub all :
      (p : String × String → Bool) (fields : List (String × String))
      → any p (out.arrange fields) ≡ any p fields

abbrev pub blank_field : String × String → Bool
blank_field f = is_blank f.1

required_all_iff :
    (f : String → ConfigError) (fields : List (String × String))
    → (required_all f fields ≡ none) ↔ (any blank_field fields ≡ false)
unfolding required_all
required_all_iff f [] = (λ _. refl, λ _. refl)
required_all_iff f ((name, value) ∷ rest) = ground (arith, required_all_iff f rest)

pub arranged_iff :
    (out : Outside) (f : String → ConfigError) (fields : List (String × String))
    → Visits out
    → (required_all f (out.arrange fields) ≡ none) ↔ (any blank_field fields ≡ false)
arranged_iff out f fields v =
    let r = required_all_iff f (out.arrange fields) in
    let same = v.all blank_field fields in (λ h. sym same ∙ r.0 h, λ h. r.1 (same ∙ h))

physical_iff : (i : ℕ) (p : AndroidPhysicalConfig) → (physical_error i p ≡ none) ↔ FitsPhysical p
unfolding physical_error
physical_iff i p = ground (
  arith,
  eq_iff p.transport "usb",
  eq_iff p.transport "wifi",
  eq_iff p.transport "no_device",
  eq_iff p.serial "",
  eq_iff p.wifi_ip "",
  eq_iff p.wifi_port "",
  eq_iff "usb" "wifi",
  eq_iff "usb" "no_device",
  eq_iff "wifi" "no_device",
)

abbrev emulator_fields : AndroidEmulatorConfig → List (String × String)
emulator_fields e =
    ("abi", e.abi)
    ∷ ("system_image", e.system_image)
    ∷ ("base_name", e.base_name)
    ∷ ("golden_source", e.golden_source)
    ∷ []

abbrev redroid_fields : RedroidConfig → List (String × String)
redroid_fields r =
    ("host", r.host)
    ∷ ("image", r.image)
    ∷ ("data_dir", r.data_dir)
    ∷ ("data_archive", r.data_archive)
    ∷ []

abbrev or_given : {T : Type 0} → T → Option T → T
or_given t none = t
or_given t (some x) = x

module _ (out : Outside) (goos : String) (visits : Visits out) where
  emulator_iff :
      (i : ℕ) (e : AndroidEmulatorConfig)
      → (emulator_error out goos i e ≡ none) ↔ FitsEmulator goos e
  unfolding emulator_error
  emulator_iff i e = ground (
    arith,
    eq_iff goos "linux",
    eq_iff goos "darwin",
    arranged_iff out
        (λ (name : String). ConfigError.device_requires i (str_append "android_emulator." name))
        (emulator_fields e) visits,
  )

  redroid_iff :
      (i : ℕ) (r : RedroidConfig) → (redroid_error out goos i r ≡ none) ↔ FitsRedroid goos r
  unfolding redroid_error
  redroid_iff i r = ground (
    arith,
    eq_iff goos "linux",
    eq_iff goos "darwin",
    arranged_iff out (λ (name : String). ConfigError.device_requires i (str_append "redroid." name))
        (redroid_fields r) visits,
  )

  simulator_iff :
      (i : ℕ) (s : IosSimulatorConfig)
      → (simulator_error out goos i s ≡ none) ↔ FitsSimulator goos s
  unfolding simulator_error
  simulator_iff i s = ground (arith, eq_iff goos "darwin")

  -- The test of one subtable, over its option.
  one_subtable :
      {T : Type 0} (P : T → Type 0) (f : T → Option ConfigError) (wrong : ConfigError)
      (o : Option T)
      → ((t : T) → (f t ≡ none) ↔ P t)
      → (of_subtable out goos o f wrong ≡ none) ↔ ((t : T) × (o ≡ some t) × P t)
  one_subtable P f wrong none h = (λ e. cc, λ e. let q = e.1 in cc)
  one_subtable P f wrong (some t) h =
      (λ e. (t, refl, (h t).0 e), λ e. (h t).1 (subst P (sym (ap (or_given t) e.1)) e.2))

  -- The type and the number of the subtables leave the one.
  physical_alone :
      (d : DeviceConfig) (p : AndroidPhysicalConfig)
      → d.physical ≡ some p
      → ((subtables d == 1) ≡ true)
        ↔ ((d.emulator ≡ none) × (d.redroid_config ≡ none) × (d.simulator ≡ none))
  unfolding subtables
  physical_alone d p e = ground arith

  emulator_alone :
      (d : DeviceConfig) (p : AndroidEmulatorConfig)
      → d.emulator ≡ some p
      → ((subtables d == 1) ≡ true)
        ↔ ((d.physical ≡ none) × (d.redroid_config ≡ none) × (d.simulator ≡ none))
  unfolding subtables
  emulator_alone d p e = ground arith

  redroid_alone :
      (d : DeviceConfig) (p : RedroidConfig)
      → d.redroid_config ≡ some p
      → ((subtables d == 1) ≡ true)
        ↔ ((d.physical ≡ none) × (d.emulator ≡ none) × (d.simulator ≡ none))
  unfolding subtables
  redroid_alone d p e = ground arith

  simulator_alone :
      (d : DeviceConfig) (p : IosSimulatorConfig)
      → d.simulator ≡ some p
      → ((subtables d == 1) ≡ true)
        ↔ ((d.physical ≡ none) × (d.emulator ≡ none) × (d.redroid_config ≡ none))
  unfolding subtables
  simulator_alone d p e = ground arith

  typed_iff :
      (i : ℕ) (d : DeviceConfig) (t : DeviceType)
      → (((subtables d == 1) ≡ true) × (typed_error out goos i d t ≡ none)) ↔ FitsType goos d t
  unfolding typed_error
  typed_iff i d android_physical =
      let one = one_subtable FitsPhysical (physical_error i) _ d.physical (physical_iff i) in
      (
        λ h.
            let q = one.0 h.1 in
            let a = (physical_alone d q.0 q.1).0 h.0 in (q.0, q.1, a.0, a.1, a.2, q.2),
        λ f. ((physical_alone d f.0 f.1).1 (f.2, f.3, f.4), one.1 (f.0, f.1, f.5)),
      )
  typed_iff i d android_emulator =
      let one =
        one_subtable (FitsEmulator goos) (emulator_error out goos i) _ d.emulator
          (emulator_iff i) in
      (
        λ h.
            let q = one.0 h.1 in
            let a = (emulator_alone d q.0 q.1).0 h.0 in (q.0, a.0, q.1, a.1, a.2, q.2),
        λ f. ((emulator_alone d f.0 f.2).1 (f.1, f.3, f.4), one.1 (f.0, f.2, f.5)),
      )
  typed_iff i d redroid =
      let one =
        one_subtable (FitsRedroid goos) (redroid_error out goos i) _ d.redroid_config
          (redroid_iff i) in
      (
        λ h.
            let q = one.0 h.1 in
            let a = (redroid_alone d q.0 q.1).0 h.0 in (q.0, a.0, a.1, q.1, a.2, q.2),
        λ f. ((redroid_alone d f.0 f.3).1 (f.1, f.2, f.4), one.1 (f.0, f.3, f.5)),
      )
  typed_iff i d ios_simulator =
      let one =
        one_subtable (FitsSimulator goos) (simulator_error out goos i) _ d.simulator
          (simulator_iff i) in
      (
        λ h.
            let q = one.0 h.1 in
            let a = (simulator_alone d q.0 q.1).0 h.0 in (q.0, a.0, a.1, a.2, q.1, q.2),
        λ f. ((simulator_alone d f.0 f.4).1 (f.1, f.2, f.3), one.1 (f.0, f.4, f.5)),
      )
  typed_iff i d (other_type t) = (λ h. let e = h.1 in cc, λ f. absurd f)

  -- A device passes the checks that do not look at the others exactly when its subtables fit.
  pub device_error_iff :
      (i : ℕ) (d : DeviceConfig)
      → (device_error out goos i d ≡ none) ↔ FitsType goos d d.device_type
  unfolding device_error
  device_error_iff i d =
      let t = typed_iff i d d.device_type in
      (λ h. t.0 (ground arith), λ f. let back = t.1 f in ground (arith, back))
