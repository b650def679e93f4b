-- ===== src/Supervisor/Machine.antt =====
-- The `Supervisor` struct and the helpers that its methods share,
-- internal/runtimesupervisor/supervisor.go. `transitionMu` makes each method but `RequestStart`,
-- `Status` and `ConfigDir` atomic, so a method is a function of the supervisor and the world.
use credimi_runner.Prelude.{ℕ, Bool, false, Option, none, some, [], ◌∷◌, if◌then◌else◌}
use credimi_runner.GoError.{GoError, join}
use credimi_runner.Supervisor.State.{
  DesiredState, ActualState, PersistentState, LoadResult, loaded, load_error, failed, is_failed,
  StateFile, load,
}
use credimi_runner.Supervisor.Generation.{Generation, Env, local_resources_closed}
use credimi_runner.Supervisor.Teardown.{Torn}

-- `next_identity` stands for the address of the next generation.
pub record Supervisor (W : Type 0) : Type 0 where
  pub state : PersistentState
  pub generation : Option Generation
  pub next_identity : ℕ
  pub world : W

-- What a method returns; dereferencing a nil error is a panic.
pub data Outcome : Type 0 where
  returned : Option GoError → Outcome
  panicked : Outcome

abbrev pub set_state :
    DesiredState → ActualState → Option GoError → PersistentState → PersistentState
set_state d a e st = record { desired = d; actual = a; last_error = e }

-- Whether a generation is held that executes.
abbrev pub live_executing : Option Generation → Bool
live_executing none = false
live_executing (some g) = g.executing

unfoldable pub opened : {W : Type 0} → LoadResult → W → Option (Supervisor W) × Option GoError
opened (load_error e) w = (none, some e)
opened (loaded s) w = (
  some (record {
    state = record s { actual = ActualState.stopped };
    generation = none;
    next_identity = 0;
    world = w;
  }),
  none,
)

-- `New`: what was running in another process is not running in this one.
unfoldable pub new : {W : Type 0} → Bool → StateFile → W → Option (Supervisor W) × Option GoError
unfolding opened
new configured file w = opened (load configured file) w

module _ {W : Type 0} (env : Env W) where
  -- The state in memory changes also when it cannot be saved.
  unfoldable pub update_state :
      (PersistentState → PersistentState) → Supervisor W → Supervisor W × Option GoError
  update_state f s =
      let next = f s.state in
      let (w, e) = env.save_state next s.world in (record s { state = next; world = w }, e)

  unfoldable pub fail : DesiredState → GoError → Supervisor W → Supervisor W × Option GoError
  unfolding update_state
  fail d e s =
      let (s₁, state_err) = update_state (set_state d failed (some e)) s in
      (s₁, join (some e ∷ state_err ∷ []))

  -- `RequestStart`.
  abbrev request_change : PersistentState → PersistentState
  request_change st = record {
    desired = DesiredState.running;
    actual = if is_failed st.actual then ActualState.stopped else st.actual;
    last_error = none;
  }

  unfoldable pub request_start : Supervisor W → Supervisor W × Option GoError
  unfolding update_state
  request_start s = update_state request_change s

  -- The supervisor after a teardown of its generation: the generation is dropped once it holds
  -- nothing, and kept for another attempt otherwise.
  abbrev pub after_teardown : Torn W → Supervisor W → Supervisor W
  after_teardown t s = record s { generation = some t.gen; world = t.world }

  abbrev pub drop_generation : Supervisor W → Supervisor W
  drop_generation s = record s { generation = none }

  -- `localErr == nil && g.localResourcesClosed()`
  abbrev pub is_clean : Torn W → Bool
  is_clean t = elim t.local_err [ none ↦ local_resources_closed t.gen | some e ↦ false ]
