-- ===== src/Config/Filled.antt =====
-- What the defaults and the redaction keep.
use credimi_runner.Prelude.{
  false, ◌≡◌, refl, sym, ap, subst, ◌∙◌, String, str_eq, eq_iff, if◌then◌else◌, [], ◌∷◌, arith,
  Bool-cases, inl, inr,
}
use credimi_runner.GoError.{Result, ok, err}
use credimi_runner.Config.{Config, GoInt, ServerConfig, StorageConfig, AndroidConfig}
use credimi_runner.Config.Defaults.{
  Host, text_or, int_or, default_server, default_android, map_ok, identity, state_dir,
  with_state_dir, default_state_dir, apply_defaults, hidden, redacted, one_minute, half_minute,
  one_week,
}

-- A default that is not empty is not replaced again.
text_or_again : (s d : String) → str_eq d "" ≡ false → text_or (text_or s d) d ≡ text_or s d
text_or_again s d h = ground arith

int_or_again : (n d : GoInt) → int_or (int_or n d) d ≡ int_or n d
int_or_again n d = ground arith

-- `filepath.Join(dir, "tmp")` is not empty.
abbrev pub JoinsTmp : Host → Type 0
JoinsTmp host = (dir : String) → str_eq (host.join (dir ∷ "tmp" ∷ [])) "" ≡ false

abbrev or_value : {A : Type 0} → A → Result A → A
or_value a (ok x) = x
or_value a (err e) = a

pub ok_injective : {A : Type 0} (x y : A) → Result.ok x ≡ ok y → x ≡ y
ok_injective x y e = ap (or_value x) e

server_again : (s : ServerConfig) → default_server (default_server s) ≡ default_server s
server_again s = cc (
  text_or_again s.api_listen "0.0.0.0:8050" refl,
  text_or_again s.dashboard_listen "0.0.0.0:8051" refl,
  int_or_again s.read_header_timeout one_minute,
  int_or_again s.shutdown_timeout half_minute,
)

android_again : (a : AndroidConfig) → default_android (default_android a) ≡ default_android a
android_again a = cc (
  text_or_again a.runner_image "ghcr.io/forkbombeu/credimi-runner:latest" refl,
  text_or_again a.pull_policy "if-not-present" refl,
  text_or_again a.network "credimi-runner" refl,
  text_or_again a.state_volume "credimi-runner-state" refl,
  text_or_again a.tool_cache_volume "credimi-runner-tools" refl,
  text_or_again a.sdk_volume "credimi-runner-sdk" refl,
)

module _ (host : Host) where
  filled_again :
      (cfg : Config) (dir : String)
      → JoinsTmp host
      → with_state_dir host (with_state_dir host cfg dir) dir ≡ with_state_dir host cfg dir
  filled_again cfg dir h = cc (
    server_again cfg.server,
    android_again cfg.android,
    text_or_again cfg.exposure.mode "manual" refl,
    int_or_again cfg.storage.artifact_retention one_week,
    text_or_again cfg.storage.temp_dir (host.join (dir ∷ "tmp" ∷ [])) (h dir),
  )

  -- The directory that was found is found again.
  same_dir :
      (s : StorageConfig) (dir : String) (fallback : Result String)
      → (if str_eq s.state_dir "" then fallback else ok s.state_dir) ≡ ok dir
      → (if str_eq dir "" then fallback else ok dir) ≡ ok dir
  same_dir s dir fallback h = elim (Bool-cases (str_eq s.state_dir "")) [
    | inl e ↦ at_default (sym (ap (λ b. if b then fallback else ok s.state_dir) e) ∙ h)
    | inr e ↦ at_given e (sym (ap (λ b. if b then fallback else ok s.state_dir) e) ∙ h)
  ]
    where
      at_default : fallback ≡ ok dir → (if str_eq dir "" then fallback else ok dir) ≡ ok dir
      at_default f = ground arith

      at_given :
          str_eq s.state_dir "" ≡ false
          → ok s.state_dir ≡ ok dir
          → (if str_eq dir "" then fallback else ok dir) ≡ ok dir
      at_given e f =
          let same = ok_injective _ _ f in
          ap (λ b. if b then fallback else ok dir) (ap (λ t. str_eq t "") (sym same) ∙ e)

  filled_from :
      (cfg c : Config) (r : Result String)
      → map_ok (with_state_dir host cfg) identity r ≡ ok c
      → (dir : String) × (r ≡ ok dir) × (c ≡ with_state_dir host cfg dir)
  filled_from cfg c (ok dir) h = (dir, refl, sym (ok_injective _ _ h))
  filled_from cfg c (err e) h = cc

  -- A configuration that `ApplyDefaults` returns is a fixed point of it.
  pub apply_defaults-again :
      (cfg c : Config)
      → JoinsTmp host
      → apply_defaults host cfg ≡ ok c
      → apply_defaults host c ≡ ok c
  unfolding apply_defaults
  apply_defaults-again cfg c joins h =
      let f = filled_from cfg c (state_dir host cfg.storage) h in
      let w = with_state_dir host cfg f.0 in
      let dir = same_dir cfg.storage f.0 (default_state_dir host) f.1 in
      subst (λ x. map_ok (with_state_dir host x) identity (state_dir host x.storage) ≡ ok x)
        (sym f.2)
        (ap (map_ok (with_state_dir host w) identity) dir ∙ ap ok (filled_again cfg f.0 joins))

abbrev pub with_secrets : Config → String → String → String → String → Config
with_secrets cfg user admin dashboard cloudflare = record cfg {
  credimi = record cfg.credimi { user_api_key = user; internal_admin_key = admin };
  server = record cfg.server { dashboard_token = dashboard };
  exposure = record cfg.exposure { cloudflare_token = cloudflare };
}

hidden_same : (s t : String) → str_eq s "" ≡ str_eq t "" → hidden s ≡ hidden t
hidden_same s t e = ground (arith, eq_iff s "", eq_iff t "")

-- The redacted copy is the same whatever the four secrets are: it tells only which are empty.
pub redacted_hides :
    (cfg : Config) (user admin dashboard cloudflare : String)
    → str_eq user "" ≡ str_eq cfg.credimi.user_api_key ""
    → str_eq admin "" ≡ str_eq cfg.credimi.internal_admin_key ""
    → str_eq dashboard "" ≡ str_eq cfg.server.dashboard_token ""
    → str_eq cloudflare "" ≡ str_eq cfg.exposure.cloudflare_token ""
    → redacted (with_secrets cfg user admin dashboard cloudflare) ≡ redacted cfg
unfolding redacted
redacted_hides cfg user admin dashboard cloudflare u a d c = cc (
  hidden_same user cfg.credimi.user_api_key u,
  hidden_same admin cfg.credimi.internal_admin_key a,
  hidden_same dashboard cfg.server.dashboard_token d,
  hidden_same cloudflare cfg.exposure.cloudflare_token c,
)
