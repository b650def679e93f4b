-- ===== src/Supervisor/Construction/Laws.antt =====
-- The generation that is made.
use credimi_runner.Prelude.{
  ℕ, Bool, true, false, ◌≡◌, ◌≢◌, subst, Option, none, some, arith, inl, inr, Option-cases,
}
use credimi_runner.Config.{Config}
use credimi_runner.Supervisor.Generation.{Generation, Env, Result, ok, err, Made, made_nil}
use credimi_runner.Supervisor.Teardown.Laws.{IsWellFormed}
use credimi_runner.Supervisor.Act.{Live}
use credimi_runner.Supervisor.Act.Rules.{Keeps, >>-Keeps}
use credimi_runner.Supervisor.Construction.{
  blank, construct, make_observability, make_api, make_workers, make_lifecycle, make_edge, created,
  new_generation, new_generation_by,
}

-- The constructors of `Dependencies` return a value or an error, never nil without an error.
pub record MakesParts {W : Type 0} (env : Env W) : Type 0 where
  pub observability :
      (f : Config → W → W × Made) (cfg : Config) (w : W)
      → env.init_observability ≡ some f
      → (f cfg w).1 ≢ made_nil
  pub edge :
      (f : Config → W → W × Made) (cfg : Config) (w : W)
      → env.new_edge ≡ some f
      → (f cfg w).1 ≢ made_nil

-- A generation that nothing runs in yet.
pub record IsIdle (identity : ℕ) (cfg : Config) (g : Generation) : Type 0 where
  pub well_formed : IsWellFormed g
  pub same_identity : g.identity ≡ identity
  pub same_config : g.config ≡ cfg
  pub same_active : g.active_config ≡ cfg
  pub waits : g.executing ≡ false
  pub quiet : g.heartbeat_active ≡ false
  pub idle_workers : g.workers_closed ≡ true
  pub no_url : g.public_url ≡ ""

module _ {W : Type 0} (env : Env W) (parts : MakesParts env) (i : ℕ) (cfg : Config) where
  observability-IsIdle :
      (c : Config) → Keeps (IsIdle i cfg) (make_observability env env.init_observability c)
  unfolding make_observability
  observability-IsIdle c = record {
    keep = λ l h. elim (Option-cases env.init_observability) [
      | inl e ↦ ground arith
      | inr (f, e) ↦ ground (arith, parts.observability f c l.world)
    ];
  }

  edge-IsIdle : (c : Config) → Keeps (IsIdle i cfg) (make_edge env env.new_edge c)
  unfolding make_edge
  edge-IsIdle c = record {
    keep = λ l h. elim (Option-cases env.new_edge) [
      | inl e ↦ ground arith
      | inr (f, e) ↦ ground (arith, parts.edge f c l.world)
    ];
  }

  api-IsIdle :
      (new : Config → W → W × Made) (c : Config) → Keeps (IsIdle i cfg) (make_api env new c)
  unfolding make_api
  api-IsIdle new c = record { keep = λ l h. ground arith }

  workers-IsIdle :
      (new : Option (Config → W → W × Bool)) (c : Config)
      → Keeps (IsIdle i cfg) (make_workers env new c)
  unfolding make_workers
  workers-IsIdle new c = record { keep = λ l h. ground arith }

  lifecycle-IsIdle :
      (new : Option (Config → W → W × Bool)) (c : Config)
      → Keeps (IsIdle i cfg) (make_lifecycle env new c)
  unfolding make_lifecycle
  lifecycle-IsIdle new c = record { keep = λ l h. ground arith }

  construct-IsIdle :
      (new_api : Config → W → W × Made) (c : Config)
      → Keeps (IsIdle i cfg) (construct env new_api c)
  unfolding construct
  construct-IsIdle new_api c =
      search
        (>>-Keeps, observability-IsIdle, api-IsIdle, workers-IsIdle, lifecycle-IsIdle, edge-IsIdle)

created-ok :
    {W : Type 0} (env : Env W) (r : Live W × Result (Unit {0})) (P : Generation → Type 0)
    → P r.0.gen
    → (g : Generation) → (created env r).1 ≡ ok g
    → P g
created-ok env (l, ok _) P h g e = subst P (cc) h
created-ok env (l, err x) P h g e = cc

blank-IsIdle : (i : ℕ) (cfg : Config) (b : Bool) → IsIdle i cfg (blank i cfg b)
unfolding blank
blank-IsIdle i cfg b = ground arith

new_generation_by-IsIdle :
    {W : Type 0} (env : Env W) (new_api : Option (Config → W → W × Made)) (i : ℕ) (cfg : Config)
    (w : W) (g : Generation)
    → MakesParts env
    → (new_generation_by env new_api i cfg w).1 ≡ ok g
    → IsIdle i cfg g
unfolding new_generation_by
new_generation_by-IsIdle env none i cfg w g parts e = cc
new_generation_by-IsIdle env (some new_api) i cfg w g parts e =
    created-ok env _ (IsIdle i cfg)
      ((construct-IsIdle env parts i cfg new_api cfg).keep _ (blank-IsIdle i cfg _)) g e

-- If constructors return a value or an error, a generation that is created belongs to the
-- configuration given, is well formed, and neither executes nor beats nor has a public URL.
pub new_generation-IsIdle :
    {W : Type 0} (env : Env W) (i : ℕ) (cfg : Config) (w : W) (g : Generation)
    → MakesParts env
    → (new_generation env i cfg w).1 ≡ ok g
    → IsIdle i cfg g
unfolding new_generation
new_generation-IsIdle env i cfg w g parts e =
    new_generation_by-IsIdle env env.new_api i cfg w g parts e
