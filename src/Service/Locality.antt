-- ===== src/Service/Locality.antt =====
-- Which of the hosts that a configuration names are this machine:
-- internal/servicemanager/service_fingerprint.go.
use Prim.Native.Char.{code}
use Prim.Native.String.{String}
use credimi_runner.Prelude.{
  ℕ, Bool, true, false, ◌||◌, ◌&&◌, not, Option, none, some, List, [], ◌∷◌, ◌++◌, if◌then◌else◌,
  str_eq, any, ◌==◌,
}
use credimi_runner.Config.{Config}
use credimi_runner.Strings.{trim_space}

-- A `net.IP`: whether it is a loopback address, and its text.
pub record Ip : Type 0 where
  pub is_loopback : Bool
  pub text : String

-- What is used of `net`, `net/url` and `strings`: `hostname` is that of a URL that `url.Parse`
-- accepts, `split_host` the host that `net.SplitHostPort` splits off.
pub record Net : Type 0 where
  pub to_lower : String → String
  pub equal_fold : String → String → Bool
  pub parse_ip : String → Option Ip
  pub equal_ip : Ip → Ip → Bool
  pub hostname : String → Option String
  pub split_host : String → Option String

-- A nil map is `none`.
pub record HostContext : Type 0 where
  pub os : String
  pub before_setup : Bool
  pub host_addresses : List String
  pub resolved : Option (String → Option String)

-- `strings.Trim(s, "[]")`
abbrev pub is_bracket : ℕ → Bool
is_bracket n = n == 91 || n == 93

unfoldable pub trim_left_brackets : String → String
trim_left_brackets String.[] = String.[]
trim_left_brackets (String.◌∷◌ c s) =
    let rest = trim_left_brackets s in if is_bracket (code c) then rest else String.◌∷◌ c s

unfoldable pub trim_right_brackets : String → String
trim_right_brackets String.[] = String.[]
trim_right_brackets (String.◌∷◌ c s) =
    let rest = trim_right_brackets s in
    if str_eq rest "" && is_bracket (code c) then String.[] else String.◌∷◌ c rest

unfoldable pub trim_brackets : String → String
unfolding trim_left_brackets trim_right_brackets
trim_brackets s = trim_right_brackets (trim_left_brackets s)

-- `strings.TrimSuffix(s, ".")`
unfoldable pub without_dot : String → String
without_dot String.[] = String.[]
without_dot (String.◌∷◌ c s) =
    let rest = without_dot s in if str_eq s "" && code c == 46 then String.[] else String.◌∷◌ c rest

module _ (net : Net) where
  -- `normalizeHostname`
  unfoldable pub normalize_hostname : String → String
  unfolding trim_space trim_brackets without_dot
  normalize_hostname name = without_dot (trim_brackets (trim_space (net.to_lower name)))

  -- Whether a host is this machine, and whether that is known.
  abbrev pub recorded : Option String → Bool × Bool
  recorded none = (false, false)
  recorded (some address) = (not (str_eq address ""), true)

  abbrev pub is_address : Ip → Option Ip → Bool
  is_address ip none = false
  is_address ip (some candidate) = net.equal_ip candidate ip

  abbrev pub ip_locality : Ip → HostContext → Bool × Bool
  unfolding trim_brackets
  ip_locality ip host = if ip.is_loopback then (true, true) else elim host.resolved [
    | some lookup ↦ recorded (lookup ip.text)
    | none ↦ (any (λ a. is_address ip (net.parse_ip (trim_brackets a))) host.host_addresses, true)
  ]

  abbrev pub looked_up : Option (String → Option String) → String → Option String
  looked_up none name = none
  looked_up (some lookup) name = lookup name

  -- `hostNameLocality`
  unfoldable pub host_name_locality : String → HostContext → Bool × Bool
  unfolding trim_space trim_brackets normalize_hostname
  host_name_locality raw host =
      let name = trim_brackets (net.to_lower (trim_space raw)) in
      if str_eq name "localhost" then (true, true) else elim (net.parse_ip name) [
        | some ip ↦ ip_locality ip host
        | none ↦ recorded (looked_up host.resolved (normalize_hostname name))
      ]

  abbrev pub is_local_name : HostContext → Option String → Bool
  unfolding host_name_locality
  is_local_name host none = false
  is_local_name host (some name) = not (str_eq name "") && (host_name_locality name host).0

  -- `hostIsLocalURL` and `hostIsLocalAddress`
  unfoldable pub host_is_local_url : String → HostContext → Bool
  unfolding trim_space host_name_locality
  host_is_local_url raw host = is_local_name host (net.hostname (trim_space raw))

  abbrev pub or_trimmed : String → Option String → String
  unfolding trim_brackets
  or_trimmed raw none = trim_brackets raw
  or_trimmed raw (some name) = name

  unfoldable pub host_is_local_address : String → HostContext → Bool
  unfolding trim_space host_name_locality trim_brackets
  host_is_local_address raw host =
      let address = trim_space raw in
      (host_name_locality (or_trimmed address (net.split_host address)) host).0

  -- `isManualExposure`
  unfoldable pub is_manual_exposure : String → Bool
  unfolding trim_space
  is_manual_exposure mode = net.equal_fold (trim_space mode) "manual"

  -- `hostLocalDependencies`
  unfoldable pub host_local_dependencies : Config → HostContext → Bool
  unfolding host_is_local_url host_is_local_address is_manual_exposure
  host_local_dependencies cfg host =
      host_is_local_url cfg.credimi.url host
      || host_is_local_address cfg.temporal_address host
      || (is_manual_exposure cfg.exposure.mode && host_is_local_url cfg.exposure.public_url host)

  -- `serviceDependencyHostnames`
  abbrev pub named : Option String → List String
  named none = []
  named (some name) = if str_eq name "" then [] else name ∷ []

  -- The name of an address: what is split off, if it is not empty, or what is left of the brackets.
  abbrev pub address_names : String → Option String → List String
  unfolding trim_brackets
  address_names address none = named (some (trim_brackets address))
  address_names address (some name) =
      if str_eq name "" then named (some (trim_brackets address)) else name ∷ []

  unfoldable pub dependency_hostnames : Config → List String
  unfolding trim_space trim_brackets is_manual_exposure
  dependency_hostnames cfg =
      let address = trim_space cfg.temporal_address in
      named (net.hostname (trim_space cfg.credimi.url))
      ++ address_names address (net.split_host address)
      ++ (if is_manual_exposure cfg.exposure.mode
          then named (net.hostname (trim_space cfg.exposure.public_url))
          else [])

  abbrev pub is_unknown : HostContext → String → Bool
  unfolding host_name_locality
  is_unknown host name = not (host_name_locality name host).1

  abbrev pub is_nil : Option (String → Option String) → Bool
  is_nil none = true
  is_nil (some lookup) = false

  -- `ServiceHostLocalityUnknown`
  unfoldable pub host_locality_unknown : Config → HostContext → Bool
  unfolding dependency_hostnames host_name_locality
  host_locality_unknown cfg host =
      not (is_nil host.resolved)
      && str_eq host.os "linux"
      && any (is_unknown host) (dependency_hostnames cfg)
