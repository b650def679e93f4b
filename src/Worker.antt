-- ===== src/Worker.antt =====
-- The worker of one Temporal namespace, pkg/workermanager/worker_manager.go: the function that
-- `runTemporalWorker` returns. The Temporal client, the worker and the context act on a world `W`;
-- spans and logs are left out.
pub mod Laws
mod Tests
use credimi_runner.Prelude.{
  ℕ, zero, suc, ◌+◌, ◌-◌, ◌*◌, ◌≤◌, Bool, true, false, ◌≡◌, not, ◌||◌, String, str_eq, Option, none,
  some, List, [], ◌∷◌, if◌then◌else◌, ltb,
}
use credimi_runner.GoError.{GoError, message, wrap, is_canceled, Result, ok, err}
use credimi_runner.Strings.{trim_space, trim_left_of}

-- What the worker calls. `permanent` is `errors.As` against the four error types of Temporal that
-- are not retried; `wait` is the `select` on the context, none, and a fatal error of the worker.
pub record Temporal (W : Type 0) : Type 0 where
  pub context_error : W → Option GoError
  pub dial : W → Option GoError × W
  pub start_worker : W → Option GoError × W
  pub wait : W → Option GoError × W
  pub sleep : ℕ → W → Bool × W
  pub permanent : GoError → Bool

abbrev pub backoff_first : ℕ
backoff_first = 1000000000

abbrev pub backoff_max : ℕ
backoff_max = 30 * 1000000000

-- `growBackoff`
unfoldable pub grow_backoff : ℕ → ℕ → ℕ
grow_backoff now most = if ltb most (now * 2) then most else now * 2

-- The variables of the loop, and what has been done so far: clients and workers that are open, the
-- first value given to `ready`, the workers started and the durations slept.
pub record Loop (W : Type 0) : Type 0 where
  pub backoff : ℕ
  pub world : W
  pub clients : ℕ
  pub workers : ℕ
  pub ready : Option (Option GoError)
  pub started : ℕ
  pub slept : List ℕ

pub data Progress (W : Type 0) : Type 0 where
  going : Loop W → Progress W
  ended : Option GoError → Loop W → Progress W

module _ {W : Type 0} (t : Temporal W) where
  -- `shouldRetryTemporalWorker`
  unfoldable pub should_retry : Option GoError → Bool
  should_retry none = false
  should_retry (some e) = if is_canceled e then false else not (t.permanent e)

  -- `signalReady`: `ready` is called once.
  abbrev pub first_of : Option (Option GoError) → Option GoError → Option (Option GoError)
  first_of none e = some e
  first_of (some x) e = some x

  abbrev pub signal : Option GoError → Loop W → Loop W
  signal e l = record l { ready = first_of l.ready e }

  -- The sleep before the next round.
  abbrev pub slept_enough : Bool → Loop W → Progress W
  slept_enough true l = going (record l { backoff = grow_backoff l.backoff backoff_max })
  slept_enough false l = ended none (signal (t.context_error l.world) l)

  abbrev pub pause : Loop W → Progress W
  pause l =
      let (enough, world) = t.sleep l.backoff l.world in
      slept_enough enough (record l { world = world; slept = l.backoff ∷ l.slept })

  -- An error before the worker runs.
  abbrev pub init_failed : GoError → Loop W → Progress W
  init_failed e l = if should_retry (some e) then pause l else ended (some e) (signal (some e) l)

  abbrev pub close_client : Loop W → Loop W
  close_client l = record l { clients = l.clients - 1 }

  abbrev pub stop_worker : Loop W → Loop W
  stop_worker l = record l { workers = l.workers - 1 }

  -- The worker has stopped, because of the context or with a fatal error.
  abbrev pub stopped : Option GoError → Loop W → Progress W
  stopped none l = ended none l
  stopped (some e) l = elim (t.context_error l.world) [
    | some c ↦ ended none l
    | none ↦ if should_retry (some e) then pause l else ended (some e) l
  ]

  abbrev pub run_worker : Loop W → Progress W
  run_worker l =
      let (error, world) = t.wait l.world in
      stopped error (close_client (stop_worker (record l { world = world })))

  abbrev pub worker_made : Option GoError → Loop W → Progress W
  worker_made (some e) l = init_failed e (close_client l)
  worker_made none l =
      run_worker (signal none (record l { workers = suc l.workers; started = suc l.started }))

  abbrev pub dialed : Option GoError → Loop W → Progress W
  dialed (some e) l = init_failed e l
  dialed none l =
      let (error, world) = t.start_worker l.world in
      worker_made error (record l { world = world; clients = suc l.clients })

  abbrev pub begin_round : Option GoError → Loop W → Progress W
  begin_round (some c) l = ended none (signal (some c) l)
  begin_round none l =
      let (error, world) = t.dial l.world in dialed error (record l { world = world })

  -- One round of the loop.
  unfoldable pub round : Loop W → Progress W
  round l = begin_round (t.context_error l.world) l

  -- The state of the loop after so many rounds, or at its return.
  abbrev pub next_round : Progress W → Progress W
  next_round (going l) = round l
  next_round (ended e l) = ended e l

  unfoldable pub rounds : ℕ → Progress W → Progress W
  rounds zero p = p
  rounds (suc n) p = rounds n (next_round p)

  abbrev pub first_round : W → Loop W
  first_round w = record {
    backoff = backoff_first;
    world = w;
    clients = 0;
    workers = 0;
    ready = none;
    started = 0;
    slept = [];
  }

  -- The function up to the loop: the interceptor, and the runner's ID from the provider or from
  -- the environment.
  abbrev runner_id : String → String
  runner_id text = trim_left_of b'/' (trim_space text)

  abbrev refused : GoError → W → Progress W
  refused e w = ended (some e) (signal (some e) (first_round w))

  abbrev with_id : Result String → W → Progress W
  with_id (err e) w = refused (wrap "load runner device inventory" e) w
  with_id (ok text) w =
      if str_eq (runner_id text) ""
      then refused (message "runner ID is required") w
      else going (first_round w)

  unfoldable pub set_up : Option GoError → Result String → W → Progress W
  set_up (some e) id w = refused (wrap "unable to create temporal tracing interceptor" e) w
  set_up none id w = with_id id w

  unfoldable pub run_temporal_worker : ℕ → Option GoError → Result String → W → Progress W
  unfolding rounds set_up
  run_temporal_worker n interceptor id w = rounds n (set_up interceptor id w)
