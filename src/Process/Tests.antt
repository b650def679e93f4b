-- ===== src/Process/Tests.antt =====
-- The worker process at concrete runs.
use credimi_runner.Prelude.{ℕ, suc, true, false, ◌≡◌, refl, Option, some, arith}
use credimi_runner.GoError.{GoError, message}
use credimi_runner.Process.{
  Process, new_process, start_locked, signal_ready, run_returns, signal_outcome, finish, receive,
  stop_locked, call_cancel, Live, start, return_from, answer, end, take_ready, stop, cancel,
  Reachable, initially, after,
}
use credimi_runner.Process.Laws.{IsSingle, Reachable-IsSingle, start_locked-launched}

abbrev failure : Option GoError
failure = some (message "start failed")

-- A worker whose run fails at once, and which is gone before its `Start` has read the error.
abbrev first : Process
first = (start_locked new_process).1

abbrev failed : Process
failed = signal_outcome 1 (run_returns 1 failure first)

abbrev gone : Process
gone = finish 1 failed

gone-Reachable : Reachable gone
unfolding finish run_returns signal_outcome signal_ready start_locked
gone-Reachable =
    after failed gone
      (after (run_returns 1 failure first) failed
        (after first _ (after new_process first initially (start new_process))
          (return_from first 1 failure (omega arith, omega arith, refl) refl))
        (answer (run_returns 1 failure first) 1 (omega arith, omega arith, refl) refl))
      (end failed 1 (omega arith, omega arith, refl) refl refl)

-- Another caller starts the next worker, and then the first `Start` reads its error and stops the
-- process: the worker of the other caller is cancelled.
abbrev second : Process
second = (start_locked gone).1

abbrev late : Process
late = call_cancel 2 (stop_locked (receive 1 second))

late_stop :
    (gone.ready 1 ≡ some failure)
    × (second.running ≡ true)
    × (late.canceled 2 ≡ true)
    × (late.running ≡ false)
unfolding finish run_returns signal_outcome signal_ready start_locked stop_locked call_cancel
late_stop = (refl, refl, refl, refl)

late-Reachable : Reachable late
unfolding finish run_returns signal_outcome signal_ready start_locked stop_locked call_cancel
late-Reachable =
    after _ late
      (after _ (stop_locked (receive 1 second))
        (after second (receive 1 second) (after gone second gone-Reachable (start gone))
          (take_ready second 1 failure refl))
        (stop (receive 1 second)))
      (cancel (stop_locked (receive 1 second)) 2 refl)

Reachable-IsSingle_example : IsSingle late
Reachable-IsSingle_example = Reachable-IsSingle late late-Reachable

start_locked-launched_example :
    (2 ≡ suc gone.generation)
    × ((h : ℕ) → Live gone h → ⊥)
    × Live second 2
    × ((h : ℕ) → Live second h → h ≡ 2)
unfolding finish run_returns signal_outcome signal_ready start_locked
start_locked-launched_example = start_locked-launched gone 2 gone-Reachable refl
