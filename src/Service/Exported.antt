-- ===== src/Service/Exported.antt =====
-- The comparison by fingerprint against the comparison of configurations.
use Prim.Native.String.{String}
use credimi_runner.Prelude.{
  by_test, Bool, true, false, ◌&&◌, not, ◌≡◌, ◌⊎◌, inl, inr, sym, ap, ◌∙◌, arith, if◌then◌else◌,
  str_eq, eq_iff, Bool-cases,
}
use credimi_runner.Config.{Config}
use credimi_runner.Service.{Projection, Container, projection_for_host}
use credimi_runner.Service.Locality.{host_locality_unknown}
use credimi_runner.Service.Compatible.{
  Capabilities, is_superset, widened, covers, configs_compatible_with_host, host_of,
  covers_by_fingerprint, compatible_with_fingerprint,
}
use credimi_runner.Service.Laws.{Separates, SortsOnce, covers_iff, projection-sorted}

module _ (c : Container) where
  -- The container exports the capabilities of its own projection; it may leave out the network mode.
  pub record IsExported (k : Capabilities) (a : Projection) : Type 0 where
    pub adb : k.needs_host_adb ≡ a.needs_host_adb
    pub usb : k.needs_usb ≡ a.needs_usb
    pub emulator : k.needs_emulator ≡ a.needs_emulator
    pub hosts : k.redroid_known_hosts ≡ a.redroid_known_hosts
    pub mode : (k.network_mode ≡ "") ⊎ (k.network_mode ≡ a.network_mode)

  str_eq_swap : (s t : String) → str_eq s t ≡ str_eq t s
  str_eq_swap s t = elim (Bool-cases (str_eq s t)) [
    | inl h ↦ h ∙ sym ((eq_iff t s).1 (sym ((eq_iff s t).0 h)))
    | inr h ↦ elim (Bool-cases (str_eq t s)) [
      | inl k ↦ let back = (eq_iff s t).1 (sym ((eq_iff t s).0 k)) in cc
      | inr k ↦ h ∙ sym k
    ]
  ]

  by_fingerprint :
      (a d : Projection) (k : Capabilities)
      → IsExported k a
      → (if is_superset k.redroid_known_hosts d.redroid_known_hosts
          then str_eq
              (c.fingerprint
                (widened c k.needs_host_adb k.needs_usb k.needs_emulator k.redroid_known_hosts d))
              (c.fingerprint a)
          else false)
        ≡ covers c a d
  by_fingerprint a d k e =
      ap
        (λ h.
          if is_superset h d.redroid_known_hosts
          then str_eq (c.fingerprint (widened c k.needs_host_adb k.needs_usb k.needs_emulator h d))
              (c.fingerprint a)
          else false)
        e.hosts
      ∙ ap
          (λ x.
            if is_superset a.redroid_known_hosts d.redroid_known_hosts
            then str_eq
                (c.fingerprint (widened c x k.needs_usb k.needs_emulator a.redroid_known_hosts d))
                (c.fingerprint a)
            else false)
          e.adb
      ∙ ap
          (λ x.
            if is_superset a.redroid_known_hosts d.redroid_known_hosts
            then str_eq
                (c.fingerprint
                  (widened c a.needs_host_adb x k.needs_emulator a.redroid_known_hosts d))
                (c.fingerprint a)
            else false)
          e.usb
      ∙ ap
          (λ x.
            if is_superset a.redroid_known_hosts d.redroid_known_hosts
            then str_eq
                (c.fingerprint (widened c a.needs_host_adb a.needs_usb x a.redroid_known_hosts d))
                (c.fingerprint a)
            else false)
          e.emulator
      ∙ ap
          (λ (x : Bool).
            if is_superset a.redroid_known_hosts d.redroid_known_hosts then x else false)
          (str_eq_swap _ _)

  -- Another network mode is never covered.
  other_mode :
      (a d : Projection) (k : Capabilities)
      → Separates c a d
      → c.sort a.redroid_known_hosts ≡ a.redroid_known_hosts
      → IsExported k a
      → not (str_eq k.network_mode "") && not (str_eq d.network_mode k.network_mode) ≡ true
      → covers c a d ≡ false
  other_mode a d k apart s e h =
      let set : str_eq k.network_mode "" ≡ false = ground (arith, h) in
      let differs : str_eq d.network_mode k.network_mode ≡ false = ground (arith, h) in
      elim (Bool-cases (covers c a d)) [
        | inl covered ↦
            let same = ((covers_iff c a d apart s).0 covered).network in
            elim e.mode [
              | inl m ↦ let blank = (eq_iff k.network_mode "").1 m in cc
              | inr m ↦
                  let equal = (eq_iff d.network_mode k.network_mode).1 (sym same ∙ sym m) in cc
            ]
        | inr n ↦ n
      ]

  covers_by-covers :
      (a d : Projection) (k : Capabilities)
      → Separates c a d
      → c.sort a.redroid_known_hosts ≡ a.redroid_known_hosts
      → IsExported k a
      → covers_by_fingerprint c (c.fingerprint a) k d ≡ covers c a d
  covers_by-covers a d k apart s e =
      by_test (λ r. r ≡ covers c a d)
        (not (str_eq k.network_mode "") && not (str_eq d.network_mode k.network_mode)) _ _
        (λ h. sym (other_mode a d k apart s e h)) (λ h. by_fingerprint a d k e)

  -- If the digest tells the projections that are compared apart and sorting again changes nothing: the Dashboard, which
  -- has only the fingerprint of the container and the capabilities that it exports, decides as a
  -- comparison with the container's own configuration would on the same host.
  pub compatible_with_fingerprint-agrees :
      (applied desired : Config) (configured : Bool) (k : Capabilities)
      → Separates c
          (projection_for_host c applied configured (host_of c k))
          (projection_for_host c desired configured (host_of c k))
      → SortsOnce c
      → IsExported k (projection_for_host c applied configured (host_of c k))
      → compatible_with_fingerprint c desired configured
          (c.fingerprint (projection_for_host c applied configured (host_of c k)))
          k
        ≡ configs_compatible_with_host c applied desired configured (host_of c k)
  unfolding configs_compatible_with_host compatible_with_fingerprint
  compatible_with_fingerprint-agrees applied desired configured k apart once e =
      let host = host_of c k in
      ap (λ (b : Bool). if host_locality_unknown c.net desired host then false else b)
        (covers_by-covers (projection_for_host c applied configured host)
          (projection_for_host c desired configured host) k apart
          (projection-sorted c applied configured host once) e)
