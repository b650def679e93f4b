-- ===== src/Service/Laws.antt =====
-- When a service container is compatible with another configuration.
use Prim.Native.String.{String}
use credimi_runner.Prelude.{
  ◌⊎◌, inl, inr, ◌≢◌, Option, none, some, Bool-cases, str_eq, by_test, Bool, true, false, ◌≡◌, ◌↔◌,
  refl, sym, ap, ◌∙◌, not, ◌&&◌, ◌||◌, any, All, List, [], ◌∷◌, if◌then◌else◌, eq_iff,
}
use credimi_runner.Config.{Config}
use credimi_runner.Service.{Projection, Container, projection_for_host}
use credimi_runner.Service.Locality.{
  HostContext, host_name_locality, dependency_hostnames, is_unknown, is_nil, host_locality_unknown,
}
use credimi_runner.Service.Compatible.{is_superset, widened, covers, configs_compatible_with_host}

module _ (c : Container) where
  -- The desired projection with what the container of the other one may keep.
  abbrev pub wide : Projection → Projection → Projection
  wide a d = widened c a.needs_host_adb a.needs_usb a.needs_emulator a.redroid_known_hosts d

  -- The digest tells the two projections that are compared apart.
  abbrev pub Separates : Projection → Projection → Type 0
  Separates a d = c.fingerprint a ≡ c.fingerprint (wide a d) → a ≡ wide a d

  -- Sorting again changes nothing.
  abbrev pub SortsOnce : Type 0
  SortsOnce = (xs : List String) → c.sort (c.sort xs) ≡ c.sort xs

  -- The container of the one projection has all that the other one asks for: the same topology, and
  -- each capability and each known host.
  pub record Covers (a d : Projection) : Type 0 where
    pub configured : a.configured ≡ d.configured
    pub api_port : a.api_published_port ≡ d.api_published_port
    pub listen : a.dashboard_listen ≡ d.dashboard_listen
    pub dashboard_port : a.dashboard_published_port ≡ d.dashboard_published_port
    pub dashboard_host : a.dashboard_publish_host ≡ d.dashboard_publish_host
    pub header_timeout : a.read_header_timeout ≡ d.read_header_timeout
    pub timeout : a.shutdown_timeout ≡ d.shutdown_timeout
    pub api_host : a.api_publish_host ≡ d.api_publish_host
    pub network : a.network_mode ≡ d.network_mode
    pub images : a.android ≡ d.android
    pub adb : d.needs_host_adb ≡ true → a.needs_host_adb ≡ true
    pub usb : d.needs_usb ≡ true → a.needs_usb ≡ true
    pub emulator : d.needs_emulator ≡ true → a.needs_emulator ≡ true
    pub hosts : is_superset a.redroid_known_hosts d.redroid_known_hosts ≡ true

  widen_same : (x y : Bool) → (y ≡ true → x ≡ true) → x ≡ (if x then true else y)
  widen_same true y h = refl
  widen_same false true h = h refl
  widen_same false false h = refl

  same_widen : (x y : Bool) → x ≡ (if x then true else y) → y ≡ true → x ≡ true
  same_widen true y h k = refl
  same_widen false y h k = h ∙ k

  Covers-same :
      (a d : Projection)
      → c.sort a.redroid_known_hosts ≡ a.redroid_known_hosts
      → Covers a d
      → a ≡ wide a d
  Covers-same a d s v = λ i. record {
    configured = v.configured i;
    api_published_port = v.api_port i;
    dashboard_listen = v.listen i;
    dashboard_published_port = v.dashboard_port i;
    dashboard_publish_host = v.dashboard_host i;
    read_header_timeout = v.header_timeout i;
    shutdown_timeout = v.timeout i;
    api_publish_host = v.api_host i;
    network_mode = v.network i;
    android = v.images i;
    needs_host_adb = widen_same a.needs_host_adb d.needs_host_adb v.adb i;
    needs_usb = widen_same a.needs_usb d.needs_usb v.usb i;
    needs_emulator = widen_same a.needs_emulator d.needs_emulator v.emulator i;
    redroid_known_hosts = sym s i;
  }

  same-Covers :
      (a d : Projection)
      → is_superset a.redroid_known_hosts d.redroid_known_hosts ≡ true
      → a ≡ wide a d
      → Covers a d
  same-Covers a d h e = record {
    configured = ap (λ p. p.configured) e;
    api_port = ap (λ p. p.api_published_port) e;
    listen = ap (λ p. p.dashboard_listen) e;
    dashboard_port = ap (λ p. p.dashboard_published_port) e;
    dashboard_host = ap (λ p. p.dashboard_publish_host) e;
    header_timeout = ap (λ p. p.read_header_timeout) e;
    timeout = ap (λ p. p.shutdown_timeout) e;
    api_host = ap (λ p. p.api_publish_host) e;
    network = ap (λ p. p.network_mode) e;
    images = ap (λ p. p.android) e;
    adb = same_widen a.needs_host_adb d.needs_host_adb (ap (λ p. p.needs_host_adb) e);
    usb = same_widen a.needs_usb d.needs_usb (ap (λ p. p.needs_usb) e);
    emulator = same_widen a.needs_emulator d.needs_emulator (ap (λ p. p.needs_emulator) e);
    hosts = h;
  }

  pub covers_iff :
      (a d : Projection)
      → Separates a d
      → c.sort a.redroid_known_hosts ≡ a.redroid_known_hosts
      → (covers c a d ≡ true) ↔ Covers a d
  covers_iff a d apart s =
      by_test (λ r. (r ≡ true) ↔ Covers a d)
        (is_superset a.redroid_known_hosts d.redroid_known_hosts) _ _
        (λ h. (
          λ k. same-Covers a d h (apart ((eq_iff _ _).0 k)),
          λ v. (eq_iff _ _).1 (ap c.fingerprint (Covers-same a d s v)),
        ))
        (λ h. (λ k. cc, λ v. let all = v.hosts in cc))

  pub projection-sorted :
      (cfg : Config) (configured : Bool) (host : HostContext)
      → SortsOnce
      → c.sort (projection_for_host c cfg configured host).redroid_known_hosts
        ≡ (projection_for_host c cfg configured host).redroid_known_hosts
  unfolding projection_for_host
  projection-sorted cfg configured host once = once _

  -- What has to be known of the hosts that a configuration names: on Linux, with a map of
  -- addresses, of each of them whether it is this machine; nothing anywhere else.
  abbrev pub HostsKnown : Config → HostContext → Type 0
  HostsKnown desired host =
      (host.resolved ≡ none)
      ⊎ ((host.os ≢ "linux")
          ⊎ All (λ name. (host_name_locality c.net name host).1 ≡ true)
              (dependency_hostnames c.net desired))

  first_known : (x y : Bool) → (not x || y ≡ false) ↔ ((x ≡ true) × (y ≡ false))
  first_known true y = (λ h. (refl, h), λ h. h.1)
  first_known false y = (λ h. cc, λ h. cc)

  none_unknown_iff :
      (host : HostContext) (names : List String)
      → (any (is_unknown c.net host) names ≡ false)
        ↔ All (λ name. (host_name_locality c.net name host).1 ≡ true) names
  unfolding host_name_locality
  none_unknown_iff host [] = (λ h. tt, λ h. refl)
  none_unknown_iff host (name ∷ names) =
      let rest = none_unknown_iff host names in
      (
        λ h. let q = (first_known _ _).0 h in (q.0, rest.0 q.1),
        λ h. (first_known _ _).1 (h.0, rest.1 h.1),
      )

  nil_iff : (o : Option (String → Option String)) → (is_nil c.net o ≡ true) ↔ (o ≡ none)
  nil_iff none = (λ h. refl, λ h. refl)
  nil_iff (some lookup) = (λ h. cc, λ h. cc)

  excused : (a b d : Bool) → not a && b && d ≡ false → (a ≡ true) ⊎ ((b ≡ false) ⊎ (d ≡ false))
  excused true b d h = inl refl
  excused false false d h = inr (inl refl)
  excused false true d h = inr (inr h)

  excuse : (a b d : Bool) → (a ≡ true) ⊎ ((b ≡ false) ⊎ (d ≡ false)) → not a && b && d ≡ false
  excuse true b d h = refl
  excuse false false d h = refl
  excuse false true d (inl h) = cc
  excuse false true d (inr (inl h)) = cc
  excuse false true d (inr (inr h)) = h

  HostsKnown-iff :
      (desired : Config) (host : HostContext)
      → (host_locality_unknown c.net desired host ≡ false) ↔ HostsKnown desired host
  unfolding host_locality_unknown
  HostsKnown-iff desired host =
      let known = none_unknown_iff host (dependency_hostnames c.net desired) in
      let linux = eq_iff host.os "linux" in
      (
        λ h. elim (excused _ _ _ h) [
          | inl n ↦ inl ((nil_iff host.resolved).0 n)
          | inr (inl e) ↦ inr (inl (λ q. let on_linux = linux.1 q in cc))
          | inr (inr all) ↦ inr (inr (known.0 all))
        ],
        λ k. excuse _ _ _ (elim k [
          | inl n ↦ inl ((nil_iff host.resolved).1 n)
          | inr (inl other) ↦ inr (
              inl (elim (Bool-cases (str_eq host.os "linux")) [
                | inl same ↦ absurd (other (linux.0 same))
                | inr differs ↦ differs
              ]))
          | inr (inr all) ↦ inr (inr (known.1 all))
        ]),
      )

  -- If the digest tells the projections that are compared apart and sorting again changes nothing:
  -- a container is compatible with a configuration exactly when the topology is the same, the
  -- container has each capability and each known-hosts file that the configuration asks for, and,
  -- where the machine is a Linux one with a map of addresses that is not nil, it is known of every
  -- host that the configuration names whether it is this machine.
  pub configs_compatible_iff :
      (applied desired : Config) (configured : Bool) (host : HostContext)
      → Separates
          (projection_for_host c applied configured host)
          (projection_for_host c desired configured host)
      → SortsOnce
      → (configs_compatible_with_host c applied desired configured host ≡ true) ↔ (
          HostsKnown desired host
          × Covers
              (projection_for_host c applied configured host)
              (projection_for_host c desired configured host))
  unfolding configs_compatible_with_host
  configs_compatible_iff applied desired configured host apart once =
      let a = projection_for_host c applied configured host in
      let d = projection_for_host c desired configured host in
      let iff = covers_iff a d apart (projection-sorted applied configured host once) in
      let hosts = HostsKnown-iff desired host in
      by_test (λ r. (r ≡ true) ↔ (HostsKnown desired host × Covers a d))
        (host_locality_unknown c.net desired host) _ _
        (λ u. (λ k. cc, λ v. let known = hosts.1 v.0 in cc))
        (λ u. (λ k. (hosts.0 u, iff.0 k), λ v. iff.1 v.1))
