-- ===== src/Process.antt =====
-- A worker process of the execution API, pkg/server/process.go. `Start` gives each worker
-- goroutine a number, a context, a `done` channel and a `ready` channel; here these are functions
-- of that number. A function is one critical section of the mutex, or one call outside it.
pub mod Laws
mod Tests
use credimi_runner.Prelude.{
  ℕ, zero, suc, ◌+◌, ◌≤◌, Bool, true, false, ◌≡◌, not, Option, none, some, if◌then◌else◌, ◌==◌,
}
use credimi_runner.GoError.{GoError, message}

-- `Process`, with the goroutines, channels and contexts that `Start` made.
pub record Process : Type 0 where
  pub running : Bool
  pub generation : ℕ
  -- whose context `CancelFunc` cancels, and whose channel `done` is
  pub cancel_func : Option ℕ
  pub done : Option ℕ
  -- by number: `done` is closed, the context is cancelled, `RunFunc` has returned, what it has
  -- returned, `readyOnce` is used, and what waits in `ready`
  pub closed : ℕ → Bool
  pub canceled : ℕ → Bool
  pub returned : ℕ → Bool
  pub outcome : ℕ → Option GoError
  pub signalled : ℕ → Bool
  pub ready : ℕ → Option (Option GoError)
  -- cancel functions that `Stop` has read and not called yet
  pub canceling : ℕ → Bool

abbrev pub set_at {ℓ} : {A : Type ℓ} → ℕ → A → (ℕ → A) → ℕ → A
set_at g a f = λ h. if h == g then a else f h

-- `NewProcess`
abbrev pub new_process : Process
new_process = record {
  running = false;
  generation = 0;
  cancel_func = none;
  done = none;
  closed = λ g. false;
  canceled = λ g. false;
  returned = λ g. false;
  outcome = λ g. none;
  signalled = λ g. false;
  ready = λ g. none;
  canceling = λ g. false;
}

-- What the critical section of `Start` finds.
pub data Started : Type 0 where
  already_running still_stopping : Started
  launched : ℕ → Started

abbrev launch : Process → Started × Process
launch p = (
  launched (suc p.generation),
  record p {
    running = true;
    generation = suc p.generation;
    cancel_func = some (suc p.generation);
    done = some (suc p.generation);
  },
)

-- The `select` on `done`.
abbrev pub is_closed : Option ℕ → (ℕ → Bool) → Bool
is_closed none closed = true
is_closed (some g) closed = closed g

-- The critical section of `Start`.
unfoldable pub start_locked : Process → Started × Process
start_locked p =
    if p.running
    then (already_running, p)
    else if not (is_closed p.done p.closed)
    then (still_stopping, p)
    else launch p

-- `signalReady`
unfoldable pub signal_ready : ℕ → Option GoError → Process → Process
signal_ready g e p =
    if p.signalled g
    then p
    else record p { signalled = set_at g true p.signalled; ready = set_at g (some e) p.ready }

-- `RunFunc` returns.
unfoldable pub run_returns : ℕ → Option GoError → Process → Process
run_returns g e p = record p { returned = set_at g true p.returned; outcome = set_at g e p.outcome }

-- The goroutine signals what `RunFunc` has returned.
unfoldable pub signal_outcome : ℕ → Process → Process
unfolding signal_ready
signal_outcome g p = signal_ready g (p.outcome g) p

-- The deferred function of the goroutine.
unfoldable pub finish : ℕ → Process → Process
finish g p = record p {
  running = if p.generation == g then false else p.running;
  closed = set_at g true p.closed;
}

-- The receive in the `select` of `Start`.
abbrev pub receive : ℕ → Process → Process
receive g p = record p { ready = set_at g none p.ready }

abbrev pub capture : Option ℕ → (ℕ → Bool) → ℕ → Bool
capture none f = f
capture (some g) f = set_at g true f

-- The critical section of `Stop`, and the call of the cancel function after it.
unfoldable pub stop_locked : Process → Process
stop_locked p =
    if p.running
    then record p { running = false; canceling = capture p.cancel_func p.canceling }
    else p

unfoldable pub call_cancel : ℕ → Process → Process
call_cancel g p = record p {
  canceled = set_at g true p.canceled;
  canceling = set_at g false p.canceling;
}

-- `Wait` returns nil without waiting.
unfoldable pub wait_returns : Process → Bool
wait_returns p = is_closed p.done p.closed

-- The worker goroutine of this number has been started and has not closed its channel.
abbrev pub Live : Process → ℕ → Type 0
Live p g = (1 ≤ g) × (g ≤ p.generation) × (p.closed g ≡ false)

-- One step of a caller or of a goroutine.
pub data Step : Process → Process → Type 0 where
  start : (p : Process) → Step p (start_locked p).1
  report :
      (p : Process) (g : ℕ) (e : Option GoError)
      → Live p g
      → p.returned g ≡ false
      → Step p (signal_ready g e p)
  return_from :
      (p : Process) (g : ℕ) (e : Option GoError)
      → Live p g
      → p.returned g ≡ false
      → Step p (run_returns g e p)
  answer : (p : Process) (g : ℕ) → Live p g → p.returned g ≡ true → Step p (signal_outcome g p)
  end :
      (p : Process) (g : ℕ)
      → Live p g
      → p.returned g ≡ true
      → p.signalled g ≡ true
      → Step p (finish g p)
  take_ready :
      (p : Process) (g : ℕ) (e : Option GoError) → p.ready g ≡ some e → Step p (receive g p)
  stop : (p : Process) → Step p (stop_locked p)
  cancel : (p : Process) (g : ℕ) → p.canceling g ≡ true → Step p (call_cancel g p)

pub data Reachable : Process → Type 0 where
  initially : Reachable new_process
  after : (p q : Process) → Reachable p → Step p q → Reachable q
