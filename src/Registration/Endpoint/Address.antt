-- ===== src/Registration/Endpoint/Address.antt =====
-- The URL at which the runner checks itself: `publicEndpointVerificationURL` and
-- `isTryCloudflareHostname` of internal/runtimesupervisor/registration.go. `url.Parse`,
-- `net.ParseIP` and `strings.ToLower` are parameters; a URL is its parts, and `String` puts them
-- together.
use Prim.Native.Char.{Char, code}
use Prim.Native.String.{String}
use credimi_runner.Prelude.{
  ℕ, Bool, true, false, ◌||◌, ◌&&◌, not, Option, none, some, List, [], ◌∷◌, if◌then◌else◌, leb,
  ◌==◌, str_eq,
}
use credimi_runner.GoError.{message, wrap, Result, ok, err}
use credimi_runner.Config.{GoInt, ExposureConfig}
use credimi_runner.Strings.{trim_space, has_prefix, split_on}
use credimi_runner.Strings.Numbers.{atoi, is_port}
use credimi_runner.Strings.Addresses.{join_host_port}
use credimi_runner.Edge.QuickUrl.{glue}

-- A `url.URL` as far as it is read and changed: `Host`, `Hostname()`, `Port()`, `Path`, `RawPath`.
pub record WebUrl : Type 0 where
  pub scheme : String
  pub host : String
  pub hostname : String
  pub port : String
  pub path : String
  pub raw_path : String

-- `strings.TrimRight(s, "/")`
unfoldable pub trim_slashes : String → String
trim_slashes String.[] = String.[]
trim_slashes (String.◌∷◌ c s) =
    let rest = trim_slashes s in
    if str_eq rest "" && code c == 47 then String.[] else String.◌∷◌ c rest

-- `strings.TrimSuffix`, none where `strings.HasSuffix` is false.
abbrev pub put_back : Char → Option String → Option String
put_back c none = none
put_back c (some s) = some (String.◌∷◌ c s)

unfoldable pub without_suffix : String → String → Option String
without_suffix p String.[] = if str_eq p "" then some String.[] else none
without_suffix p (String.◌∷◌ c s) =
    let rest = without_suffix p s in
    if str_eq (String.◌∷◌ c s) p then some String.[] else put_back c rest

abbrev pub ends_in : String → String → Bool
unfolding without_suffix
ends_in p s = elim (without_suffix p s) [ none ↦ false | some t ↦ true ]

abbrev pub in_range : Option GoInt → Bool
in_range none = false
in_range (some n) = is_port n

abbrev pub is_label_char : ℕ → Bool
is_label_char c = (leb 97 c && leb c 122) || (leb 48 c && leb c 57) || c == 45

unfoldable pub label_chars : String → Bool
label_chars String.[] = true
label_chars (String.◌∷◌ c s) = is_label_char (code c) && label_chars s

-- The loop over the labels.
abbrev pub is_label : String → Bool
unfolding label_chars has_prefix without_suffix
is_label s = not (str_eq s "") && not (has_prefix s "-") && not (ends_in "-" s) && label_chars s

unfoldable pub all_labels : List String → Bool
unfolding label_chars has_prefix without_suffix
all_labels [] = true
all_labels (l ∷ ls) = is_label l && all_labels ls

module _ (to_lower : String → String) (is_ip : String → Bool) where
  abbrev pub or_whole : String → Option String → String
  or_whole s none = s
  or_whole s (some t) = t

  abbrev pub labels_before : String → Option String → Bool
  unfolding all_labels split_on
  labels_before host none = false
  labels_before host (some t) = not (str_eq t "") && not (is_ip host) && all_labels (split_on 46 t)

  -- `isTryCloudflareHostname`
  unfoldable pub is_try_cloudflare_hostname : String → Bool
  unfolding trim_space without_suffix all_labels split_on
  is_try_cloudflare_hostname s =
      let lower = to_lower (trim_space s) in
      let host = or_whole lower (without_suffix "." lower) in
      labels_before host (without_suffix ".trycloudflare.com" host)

module _ (parse_url : String → Result WebUrl) where
  -- The path of the check.
  abbrev pub at_readyz : WebUrl → WebUrl
  unfolding trim_slashes
  at_readyz u = record u {
    path = glue (trim_slashes u.path) "/readyz";
    raw_path = if str_eq u.raw_path "" then "" else glue (trim_slashes u.raw_path) "/readyz";
  }

  -- The port that a manual exposure configures for a URL without one.
  abbrev pub with_port : String → WebUrl → Result WebUrl
  unfolding atoi join_host_port trim_slashes
  with_port port u =
      if str_eq port ""
      then ok (at_readyz u)
      else if in_range (atoi port)
      then ok (at_readyz (record u { host = join_host_port u.hostname port }))
      else err (message "invalid manual public port")

  abbrev pub with_address : ExposureConfig → WebUrl → Result WebUrl
  unfolding atoi join_host_port trim_slashes trim_space
  with_address x u =
      if str_eq x.mode "manual" && str_eq u.port ""
      then with_port (trim_space x.public_port) u
      else ok (at_readyz u)

  abbrev pub checked_port : ExposureConfig → WebUrl → Result WebUrl
  unfolding atoi join_host_port trim_slashes trim_space without_suffix
  checked_port x u =
      if str_eq u.port ""
      then (if ends_in ":" u.host
          then err (message "public endpoint URL has an empty port")
          else with_address x u)
      else if in_range (atoi u.port)
      then with_address x u
      else err (message "public endpoint URL has invalid port")

  abbrev pub absolute : ExposureConfig → Result WebUrl → Result WebUrl
  unfolding atoi join_host_port trim_slashes trim_space without_suffix
  absolute x (err e) = err (wrap "parse public endpoint URL" e)
  absolute x (ok u) =
      if str_eq u.scheme "" || str_eq u.host "" || str_eq u.hostname ""
      then err (message "public endpoint URL must be absolute")
      else checked_port x u

  -- `publicEndpointVerificationURL`, before `String`.
  unfoldable pub verification_url : ExposureConfig → String → Result WebUrl
  unfolding atoi join_host_port trim_slashes trim_space without_suffix
  verification_url x url = absolute x (parse_url (trim_space url))
