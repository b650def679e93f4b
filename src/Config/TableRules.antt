-- ===== src/Config/TableRules.antt =====
-- What the checks of `ValidateForPlatform` before its loop accept, table by table.
use credimi_runner.Prelude.{
  ℕ, Bool, true, ◌≡◌, ◌↔◌, refl, ◌&&◌, String, str_append, eq_iff, Option, none, some, List, [],
  ◌∷◌, arith, codes,
}
use credimi_runner.GoError.{or_else}
use credimi_runner.Strings.{has_prefix}
use credimi_runner.Strings.Numbers.{is_positive, int_eq}
use credimi_runner.Strings.Addresses.{split_host_port, host_and_port, wrong_address, Split}
use credimi_runner.Config.{
  Config, GoInt, pos, CredimiConfig, ExposureConfig, AndroidConfig, ServerConfig,
  schema_version_current,
}
use credimi_runner.Config.Checks.{
  ConfigError, Outside, must, required, is_canonical, is_absolute, is_abs, validate_auth,
  listen_error, validate_listen, validate_mode, validate_exposure, validate_android, android_fields,
}
use credimi_runner.Config.Validate.{validate_head}
use credimi_runner.Config.Valid.{
  NotBlank, Positive, FitsAuth, FitsListen, FitsMode, FitsExposure, FitsAndroid,
}
use credimi_runner.Config.DeviceRules.{Visits, arranged_iff}

-- A check that passes exactly if `P` holds.
abbrev pub Decides : Option ConfigError → Type 0 → Type 0
Decides e P = (e ≡ none) ↔ P

-- One check, and the checks after it.
pub and_then :
    {P Q : Type 0} (e f : Option ConfigError)
    → Decides e P
    → Decides f Q
    → Decides (or_else e f) (P × Q)
and_then none f d r = (λ h. (d.0 refl, r.0 h), λ h. r.1 h.1)
and_then (some x) f d r = (λ h. cc, λ h. let q = d.1 h.0 in cc)

-- Each of the propositions.
abbrev pub Each : List (Type 0) → Type 0
Each [] = Unit
Each (P ∷ Ps) = P × Each Ps

nothing_left : Decides none (Each [])
nothing_left = (λ h. tt, λ h. refl)

must_iff : (b : Bool) (e : ConfigError) → Decides (must b e) (b ≡ true)
must_iff b e = ground arith

required_iff : (name value : String) → Decides (required name value) (NotBlank value)
required_iff name value = ground arith

auth_iff : (c : CredimiConfig) → Decides (validate_auth c) (FitsAuth c)
unfolding validate_auth
auth_iff c = ground (
  arith,
  eq_iff c.auth_mode "user",
  eq_iff c.auth_mode "internal_admin",
  eq_iff "user" "internal_admin",
)

split_iff :
    (name : String) (r : Split)
    → (listen_error name r ≡ none) ↔ ((h : List ℕ) × (p : List ℕ) × (r ≡ host_and_port h p))
split_iff name (host_and_port h p) = (λ e. (h, p, refl), λ e. refl)
split_iff name (wrong_address e) = (λ h. cc, λ h. let q = h.2 in cc)

listen_iff : (name value : String) → (validate_listen name value ≡ none) ↔ FitsListen value
unfolding validate_listen
listen_iff name value = split_iff name (split_host_port (codes value))

version_error :
    (v : GoInt) (e : ConfigError)
    → Decides (must (int_eq v (pos schema_version_current)) e) (v ≡ pos schema_version_current)
version_error v e = ground arith

durations_error :
    (c : ServerConfig) (e : ConfigError)
    → Decides
        (must (is_positive c.read_header_timeout && is_positive c.shutdown_timeout) e)
        (Positive c.read_header_timeout × Positive c.shutdown_timeout)
durations_error c e = ground arith

module _ (out : Outside) where
  mode_iff : (x : ExposureConfig) → Decides (validate_mode out x) (FitsMode out x)
  unfolding validate_mode
  mode_iff x = ground (
    arith,
    eq_iff x.mode "manual",
    eq_iff x.mode "quick_tunnel",
    eq_iff x.mode "named_tunnel",
    eq_iff "manual" "quick_tunnel",
    eq_iff "manual" "named_tunnel",
    eq_iff "quick_tunnel" "named_tunnel",
  )

  exposure_iff : (x : ExposureConfig) → Decides (validate_exposure out x) (FitsExposure out x)
  unfolding validate_exposure
  exposure_iff x = ground (arith, mode_iff x)

  android_iff : (a : AndroidConfig) → Visits out → Decides (validate_android out a) (FitsAndroid a)
  unfolding validate_android
  android_iff a v = ground (
    arith,
    eq_iff a.pull_policy "always",
    eq_iff a.pull_policy "if-not-present",
    eq_iff a.pull_policy "never",
    arranged_iff out (λ (name : String). ConfigError.is_required (str_append "android." name))
        (android_fields a) v,
  )

  -- What the checks before the loop ask for.
  abbrev pub HeadFits : Config → Type 0
  HeadFits cfg = Each (
      (cfg.schema_version ≡ pos schema_version_current)
      ∷ (NotBlank cfg.runner.id)
      ∷ (is_canonical cfg.runner.id ≡ true)
      ∷ (NotBlank cfg.runner.name)
      ∷ (NotBlank cfg.runner.organization)
      ∷ (has_prefix cfg.runner.id (str_append cfg.runner.organization "/") ≡ true)
      ∷ (NotBlank cfg.credimi.url)
      ∷ (is_absolute (out.parse_request_uri cfg.credimi.url) ≡ true)
      ∷ (FitsAuth cfg.credimi)
      ∷ (NotBlank cfg.temporal_address)
      ∷ (FitsListen cfg.server.api_listen)
      ∷ (FitsListen cfg.server.dashboard_listen)
      ∷ (Positive cfg.server.read_header_timeout × Positive cfg.server.shutdown_timeout)
      ∷ (Positive cfg.storage.artifact_retention)
      ∷ (NotBlank cfg.storage.state_dir)
      ∷ (is_abs cfg.storage.state_dir ≡ true)
      ∷ (FitsExposure out cfg.exposure)
      ∷ (FitsAndroid cfg.android)
      ∷ [])

  pub head_iff : (cfg : Config) → Visits out → Decides (validate_head out cfg) (HeadFits cfg)
  unfolding validate_head
  head_iff cfg v = and_then _ _ (version_error cfg.schema_version _) (
      and_then _ _ (required_iff _ cfg.runner.id) (
        and_then _ _ (must_iff (is_canonical cfg.runner.id) _) (
          and_then _ _ (required_iff _ cfg.runner.name) (
            and_then _ _ (required_iff _ cfg.runner.organization) (
              and_then _ _
                (must_iff (has_prefix cfg.runner.id (str_append cfg.runner.organization "/")) _)
                (and_then _ _ (required_iff _ cfg.credimi.url) (
                  and_then _ _ (must_iff (is_absolute (out.parse_request_uri cfg.credimi.url)) _) (
                    and_then _ _ (auth_iff cfg.credimi) (
                      and_then _ _ (required_iff _ cfg.temporal_address) (
                        and_then _ _ (listen_iff _ cfg.server.api_listen) (
                          and_then _ _ (listen_iff _ cfg.server.dashboard_listen) (
                            and_then _ _ (durations_error cfg.server _) (
                              and_then _ _ (must_iff (is_positive cfg.storage.artifact_retention) _)
                                (and_then _ _ (required_iff _ cfg.storage.state_dir) (
                                  and_then _ _ (must_iff (is_abs cfg.storage.state_dir) _) (
                                    and_then _ _ (exposure_iff cfg.exposure) (
                                      and_then _ _ (android_iff cfg.android v)
                                        nothing_left)))))))))))))))))
