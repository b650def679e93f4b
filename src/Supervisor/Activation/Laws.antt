-- ===== src/Supervisor/Activation/Laws.antt =====
-- What an activation keeps and brings about.
use credimi_runner.Prelude.{true, ◌≡◌, refl, String, Option, none, some, arith, is_some}
use credimi_runner.GoError.{GoError}
use credimi_runner.Config.{Config}
use credimi_runner.Supervisor.Generation.{Generation, Env, Result, ok, err, armed}
use credimi_runner.Supervisor.Teardown.Laws.{IsWellFormed}
use credimi_runner.Supervisor.Act.{Live, change}
use credimi_runner.Supervisor.Act.Rules.{
  Keeps, Ends, >>-Keeps, >>=-Ends, >>-Ends, >>-Ends_first, change-Keeps, change-Ends, only_if-Keeps,
  only_if-Ends, chain_rules,
}
use credimi_runner.Supervisor.Activation.{
  start_edge, expose, enlist, register_by, start_workers, start_lifecycle, prepare, publish,
  activate,
}

-- The generation is well formed and not yet published: its identity, configuration, executing flag
-- and public URL are those given.
pub record IsUnready (g h : Generation) : Type 0 where
  pub well_formed : IsWellFormed h
  pub same_identity : h.identity ≡ g.identity
  pub same_config : h.config ≡ g.config
  pub same_active : h.active_config ≡ g.active_config
  pub same_executing : h.executing ≡ g.executing
  pub same_url : h.public_url ≡ g.public_url
  pub same_lifecycle : h.has_lifecycle ≡ g.has_lifecycle

module _ {W : Type 0} (env : Env W) (g : Generation) where
  start_edge-IsUnready : Keeps (IsUnready g) (start_edge env)
  unfolding start_edge
  start_edge-IsUnready = only_if-Keeps _ _ _ (search chain_rules depth 12)

  expose-IsUnready : (cfg : Config) → Keeps (IsUnready g) (expose env cfg)
  unfolding expose
  expose-IsUnready cfg = search (chain_rules, start_edge-IsUnready) depth 30

  register_by-IsUnready :
      (r : Option (Config → String → W → W × Option GoError)) (cfg : Config) (url : String)
      → Keeps (IsUnready g) (register_by env r cfg url)
  unfolding register_by
  register_by-IsUnready none cfg url = record { keep = λ l p. p }
  register_by-IsUnready (some f) cfg url = record { keep = λ l p. ground arith }

  enlist-IsUnready : (cfg : Config) (url : String) → Keeps (IsUnready g) (enlist env cfg url)
  unfolding enlist
  enlist-IsUnready cfg url = search (chain_rules, register_by-IsUnready) depth 12

  start_workers-IsUnready : Keeps (IsUnready g) (start_workers env)
  unfolding start_workers
  start_workers-IsUnready =
      only_if-Keeps _ _ _ (>>-Keeps (change-Keeps _ (λ h p. ground arith)) (search chain_rules))

  arm_heartbeat-IsUnready :
      Keeps {W = W}
        (λ h. IsUnready g h × (h.has_lifecycle ≡ true))
        (change (λ h. record h { stop_heartbeat = armed; heartbeat_active = true }))
  arm_heartbeat-IsUnready = change-Keeps _ (λ h p. ground arith)

  start_lifecycle-IsUnready : Keeps (IsUnready g) (start_lifecycle env)
  unfolding start_lifecycle
  start_lifecycle-IsUnready =
      only_if-Keeps _ _ _ (search (chain_rules, arm_heartbeat-IsUnready) depth 20)

  prepare-IsUnready : (cfg : Config) → Keeps (IsUnready g) (prepare env cfg)
  unfolding prepare
  prepare-IsUnready cfg =
      search
        (
          chain_rules, expose-IsUnready, enlist-IsUnready, start_workers-IsUnready,
          start_lifecycle-IsUnready,
        )
        depth 30

-- The flags that an activation sets.
abbrev IsRegistered : Generation → Type 0
IsRegistered g = g.remote_registered ≡ true

abbrev IsBeating : Generation → Type 0
IsBeating g = g.has_lifecycle ≡ true → g.heartbeat_active ≡ true

module _ {W : Type 0} (env : Env W) where
  register_by-IsRegistered :
      (r : Option (Config → String → W → W × Option GoError)) (cfg : Config) (url : String)
      → is_some r ≡ true
      → Ends IsRegistered (register_by env r cfg url)
  unfolding register_by
  register_by-IsRegistered none cfg url there = cc
  register_by-IsRegistered (some r) cfg url there = record { finish = λ l a. ground arith }

  start_workers-IsRegistered : Keeps IsRegistered (start_workers env)
  unfolding start_workers
  start_workers-IsRegistered =
      only_if-Keeps _ _ _ (>>-Keeps (change-Keeps _ (λ h p. p)) (search chain_rules))

  arm_heartbeat-IsRegistered :
      Keeps {W = W}
        (λ h. IsRegistered h × (h.has_lifecycle ≡ true))
        (change (λ h. record h { stop_heartbeat = armed; heartbeat_active = true }))
  arm_heartbeat-IsRegistered = change-Keeps _ (λ h p. p)

  start_lifecycle-IsRegistered : Keeps IsRegistered (start_lifecycle env)
  unfolding start_lifecycle
  start_lifecycle-IsRegistered =
      only_if-Keeps _ _ _ (search (chain_rules, arm_heartbeat-IsRegistered) depth 20)

  enlist-IsRegistered :
      (cfg : Config) (url : String)
      → is_some env.register ≡ true
      → Ends IsRegistered (enlist env cfg url)
  unfolding enlist
  enlist-IsRegistered cfg url there =
      search (>>-Ends_first, register_by-IsRegistered env.register cfg url there, chain_rules)

  prepare-IsRegistered :
      (cfg : Config) → is_some env.register ≡ true → Ends IsRegistered (prepare env cfg)
  unfolding prepare
  prepare-IsRegistered cfg there = >>=-Ends _ (λ url.
      let enlisted = enlist-IsRegistered cfg url there in
      >>-Ends_first enlisted
        (search (chain_rules, start_workers-IsRegistered, start_lifecycle-IsRegistered) depth 20))

  arm_heartbeat-IsBeating :
      Ends {W = W} IsBeating
        (change (λ h. record h { stop_heartbeat = armed; heartbeat_active = true }))
  arm_heartbeat-IsBeating = change-Ends _ (λ h _. refl)

  start_lifecycle-IsBeating : Ends IsBeating (start_lifecycle env)
  unfolding start_lifecycle
  start_lifecycle-IsBeating =
      only_if-Ends _ _ _ (search (>>-Ends, arm_heartbeat-IsBeating) depth 20) (λ g e there. cc)

  prepare-IsBeating : (cfg : Config) → Ends IsBeating (prepare env cfg)
  unfolding prepare
  prepare-IsBeating cfg =
      search (>>=-Ends, >>-Ends, >>-Ends_first, chain_rules, start_lifecycle-IsBeating) depth 12

  IsUnready-refl : (g : Generation) → IsWellFormed g → IsUnready g g
  IsUnready-refl g wf = ground arith

abbrev prepared : {W : Type 0} → Env W → Live W → Live W × Result String
prepared env l = prepare env l.gen.config l

module _ {W : Type 0} (env : Env W) where
  publish_fails :
      (g : Generation) (r : Live W × Result String) (x : GoError)
      → IsUnready g r.0.gen
      → (publish env r).1 ≡ err x
      → IsUnready g (publish env r).0.gen
  unfolding publish
  publish_fails g (l, ok url) x p e = cc
  publish_fails g (l, err y) x p e = p

  publish_ok :
      (r : Live W × Result String)
      → (publish env r).1 ≡ ok tt
      → let h = (publish env r).0.gen in
        (r.1 ≡ ok h.public_url)
        × (h ≡ record (r.0.gen) { public_url = h.public_url; executing = true })
  unfolding publish
  publish_ok (l, ok url) e = (refl, refl)
  publish_ok (l, err y) e = cc

  publish-IsWellFormed :
      (g : Generation) (r : Live W × Result String)
      → IsUnready g r.0.gen
      → let h = (publish env r).0.gen in IsWellFormed h × (h.identity ≡ g.identity)
  unfolding publish
  publish-IsWellFormed g (l, ok url) p = ground arith
  publish-IsWellFormed g (l, err y) p = ground arith

  prepared-IsUnready : (l : Live W) → IsWellFormed l.gen → IsUnready l.gen (prepared env l).0.gen
  prepared-IsUnready l wf = (prepare-IsUnready env l.gen l.gen.config).keep l (ground arith)

  -- Until every step of the activation of a well-formed generation has succeeded, nothing is
  -- published: when it fails, the generation is well formed, and its identity, executing flag,
  -- public URL and both configurations are those from before.
  pub activate_fails :
      (l : Live W) (x : GoError)
      → IsWellFormed l.gen
      → (activate env l).1 ≡ err x
      → IsUnready l.gen (activate env l).0.gen
  unfolding activate
  activate_fails l x wf e = publish_fails l.gen (prepared env l) x (prepared-IsUnready l wf) e

  -- An activation that succeeds leaves a well-formed generation executing; it is registered if there is a
  -- registration, and its heartbeat runs if it has a lifecycle client.
  pub activate_ok :
      (l : Live W)
      → IsWellFormed l.gen
      → (activate env l).1 ≡ ok tt
      → let h = (activate env l).0.gen in
        (h.executing ≡ true)
        × (is_some env.register ≡ true → h.remote_registered ≡ true)
        × (h.has_lifecycle ≡ true → h.heartbeat_active ≡ true)
  unfolding activate
  activate_ok l wf e =
      let r = prepared env l in
      let done = publish_ok r e in
      (
        ground (arith, done),
        λ there.
            let marked = (prepare-IsRegistered env l.gen.config there).finish l _ done.0 in
            ground (arith, done, marked),
        λ there.
            let beats = (prepare-IsBeating env l.gen.config).finish l _ done.0 in
            ground (arith, done, beats),
      )

  pub activate-IsWellFormed :
      (l : Live W)
      → IsWellFormed l.gen
      → let h = (activate env l).0.gen in IsWellFormed h × (h.identity ≡ l.gen.identity)
  unfolding activate
  activate-IsWellFormed l wf = publish-IsWellFormed l.gen (prepared env l) (prepared-IsUnready l wf)
