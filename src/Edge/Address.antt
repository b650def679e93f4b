-- ===== src/Edge/Address.antt =====
-- Where a managed tunnel is reached: `normalizePublicURL` and the `switch` of `Start` of
-- internal/edge/cloudflared.go. `url.Parse` is a parameter.
use Prim.Native.String.{String}
use credimi_runner.Prelude.{
  Bool, ◌||◌, ◌&&◌, not, Option, none, some, if◌then◌else◌, str_eq, str_append,
}
use credimi_runner.GoError.{message, wrap, Result, ok, err}
use credimi_runner.Strings.{trim_space, contains}

-- What the program reads of a `url.URL`, and its `String()`.
pub record ParsedUrl : Type 0 where
  pub scheme : String
  pub host : String
  pub text : String

-- The fields of `Cloudflared` that `NewCloudflared` sets once.
pub record Options : Type 0 where
  pub mode : String
  pub token : String
  pub domain : String

-- `normalizePublicURL`
abbrev pub is_web : ParsedUrl → Bool
is_web u = (str_eq u.scheme "http" || str_eq u.scheme "https") && not (str_eq u.host "")

unfoldable pub checked_url : Result ParsedUrl → Result String
checked_url (err e) = err (wrap "parse cloudflared domain" e)
checked_url (ok u) = if is_web u then ok u.text else err (message "invalid cloudflared domain")

abbrev pub with_scheme : String → String
with_scheme s = if contains s "://" then s else str_append "https://" s

abbrev pub named : Result String → Result (Option String)
named (ok u) = ok (some u)
named (err e) = err e

module _ (parse_url : String → Result ParsedUrl) where
  unfoldable pub normalize_public_url : String → Result String
  unfolding trim_space contains checked_url
  normalize_public_url s =
      let d = trim_space s in
      if str_eq d ""
      then err (message "cloudflared domain is empty")
      else checked_url (parse_url (with_scheme d))

  -- The `switch` of `Start`: the URL of a named tunnel, none of a quick one.
  unfoldable pub tunnel_address : Options → Result (Option String)
  unfolding normalize_public_url
  tunnel_address o =
      if str_eq o.mode "quick_tunnel"
      then ok none
      else if str_eq o.mode "named_tunnel"
      then named (normalize_public_url o.domain)
      else err (message (str_append "unsupported cloudflared mode " o.mode))
