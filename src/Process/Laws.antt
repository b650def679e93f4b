-- ===== src/Process/Laws.antt =====
-- What holds of a worker process in every interleaving of its callers and goroutines.
use credimi_runner.Prelude.{
  by_test, ℕ, zero, suc, ◌≤◌, ◌<◌, true, false, ◌≡◌, inl, inr, refl, sym, ap, ◌∙◌, Bool-cases, not,
  ◌==◌, ==_iff, Option, none, some, arith,
}
use credimi_runner.GoError.{GoError}
use credimi_runner.Process.{
  Process, new_process, Started, launched, already_running, still_stopping, launch, is_closed,
  start_locked, signal_ready, run_returns, finish, stop_locked, call_cancel, wait_returns, Live,
  Step, start, report, return_from, answer, signal_outcome, end, take_ready, stop, cancel,
  Reachable, initially, after,
}

-- The number whose channel `done` is: the latest, if there is one.
abbrev done_of : ℕ → Option ℕ
done_of zero = none
done_of (suc g) = some (suc g)

-- The invariant of the process.
pub record IsSingle (p : Process) : Type 0 where
  -- only the latest goroutine is live
  pub alone : (g : ℕ) → Live p g → g ≡ p.generation
  -- a process that runs has a live goroutine
  pub backed : p.running ≡ true → (1 ≤ p.generation) × (p.closed p.generation ≡ false)
  pub latest : (p.done ≡ done_of p.generation) × (p.cancel_func ≡ done_of p.generation)
  -- a goroutine that is still to come has done nothing
  pub unused : (g : ℕ) → p.generation < g → p.closed g ≡ false
  -- a goroutine that has ended has left its run function and has answered who waits for readiness
  pub answered : (g : ℕ) → p.closed g ≡ true → (p.returned g ≡ true) × (p.signalled g ≡ true)

new_process-IsSingle : IsSingle new_process
new_process-IsSingle = record {
  alone = λ g l. omega (arith, l);
  backed = λ h. cc;
  latest = (refl, refl);
  unused = λ g h. refl;
  answered = λ g h. cc;
}

done_of_given : (n : ℕ) → 1 ≤ n → done_of n ≡ some n
done_of_given zero h = let no : ⊥ = omega (arith, h) in absurd no
done_of_given (suc n) h = refl

-- When the latest channel is closed, or there is none, no goroutine is live.
pub none_live : (p : Process) (g : ℕ) → IsSingle p → is_closed p.done p.closed ≡ true → Live p g → ⊥
none_live p g v c l =
    let same = v.alone g l in
    let given = done_of_given p.generation (omega (arith, l, same)) in
    let closed : p.closed p.generation ≡ true =
      sym (ap (λ o. is_closed o p.closed) (v.latest.0 ∙ given)) ∙ c in
    let open_now : p.closed p.generation ≡ false = sym (ap p.closed same) ∙ l.2 in cc

launch-IsSingle :
    (p : Process) → IsSingle p → is_closed p.done p.closed ≡ true → IsSingle (launch p).1
launch-IsSingle p v c = record {
  alone = λ g l. ground (arith, none_live p g v c);
  backed = λ h. (omega arith, v.unused (suc p.generation) (omega arith));
  latest = (refl, refl);
  unused = λ g h. v.unused g (omega (arith, h));
  answered = v.answered;
}

start-IsSingle : (p : Process) → IsSingle p → IsSingle (start_locked p).1
unfolding start_locked
start-IsSingle p v =
    let P = λ (r : Started × Process). IsSingle r.1 in
    by_test P p.running _ _ (λ r. v)
      (λ r.
        by_test P (not (is_closed p.done p.closed)) _ _ (λ c. v)
          (λ c. launch-IsSingle p v (ground arith)))

signal_ready-IsSingle :
    (p : Process) (g : ℕ) (e : Option GoError) → IsSingle p → IsSingle (signal_ready g e p)
unfolding signal_ready
signal_ready-IsSingle p g e v =
    by_test (λ (q : Process). IsSingle q) (p.signalled g) _ _ (λ s. v)
      (λ s. record {
        alone = v.alone;
        backed = v.backed;
        latest = v.latest;
        unused = v.unused;
        answered = λ h r. ground (arith, v.answered h r);
      })

stop-IsSingle : (p : Process) → IsSingle p → IsSingle (stop_locked p)
unfolding stop_locked
stop-IsSingle p v =
    by_test IsSingle p.running _ _
      (λ r. record {
        alone = v.alone;
        backed = λ h. cc;
        latest = v.latest;
        unused = v.unused;
        answered = v.answered;
      })
      (λ r. v)

finish-IsSingle :
    (p : Process) (g : ℕ)
    → IsSingle p
    → Live p g
    → p.returned g ≡ true
    → p.signalled g ≡ true
    → IsSingle (finish g p)
unfolding finish
finish-IsSingle p g v l r s = record {
  alone = λ h k. ground (arith, v.alone h);
  backed = λ h. ground (arith, v.alone g l);
  latest = v.latest;
  unused = λ h k. ground (arith, v.unused h);
  answered = λ h k.
      by_test (λ b. b ≡ true → (p.returned h ≡ true) × (p.signalled h ≡ true)) (h == g) _ _
        (λ e c. let same = (==_iff h g).0 e in (ap p.returned same ∙ r, ap p.signalled same ∙ s))
        (λ e c. v.answered h c) k;
}

run_returns-IsSingle :
    (p : Process) (g : ℕ) (e : Option GoError) → IsSingle p → IsSingle (run_returns g e p)
unfolding run_returns
run_returns-IsSingle p g e v = record {
  alone = v.alone;
  backed = v.backed;
  latest = v.latest;
  unused = v.unused;
  answered = λ h c. ground (arith, v.answered h c);
}

Step-IsSingle : (p q : Process) → Step p q → IsSingle p → IsSingle q
unfolding call_cancel signal_outcome
Step-IsSingle _ _ (start p) v = start-IsSingle p v
Step-IsSingle _ _ (report p g e l r) v = signal_ready-IsSingle p g e v
Step-IsSingle _ _ (return_from p g e l r) v = run_returns-IsSingle p g e v
Step-IsSingle _ _ (answer p g l r) v = signal_ready-IsSingle p g (p.outcome g) v
Step-IsSingle _ _ (end p g l r s) v = finish-IsSingle p g v l r s
Step-IsSingle _ _ (take_ready p g e r) v = record {
  alone = v.alone;
  backed = v.backed;
  latest = v.latest;
  unused = v.unused;
  answered = v.answered;
}
Step-IsSingle _ _ (stop p) v = stop-IsSingle p v
Step-IsSingle _ _ (cancel p g c) v = record {
  alone = v.alone;
  backed = v.backed;
  latest = v.latest;
  unused = v.unused;
  answered = v.answered;
}

-- Whatever callers and goroutines do, in whatever order: only the latest worker goroutine is live,
-- so there is at most one; a process that is marked as running has it; the channel that `Wait`
-- waits on is its channel; and a goroutine that has closed its channel `done` has returned from its
-- run function and has answered whoever waits in `Start`.
pub Reachable-IsSingle : (p : Process) → Reachable p → IsSingle p
Reachable-IsSingle _ initially = new_process-IsSingle
Reachable-IsSingle _ (after p q r s) = Step-IsSingle p q s (Reachable-IsSingle p r)

abbrev number_or : ℕ → Started → ℕ
number_or n (launched g) = g
number_or n already_running = n
number_or n still_stopping = n

-- What `Start` says of the worker that it launches.
abbrev IsOnly : Process → ℕ → Started × Process → Type 0
IsOnly p g r =
    r.0 ≡ launched g
    → (g ≡ suc p.generation)
      × ((h : ℕ) → Live p h → ⊥)
      × Live r.1 g
      × ((h : ℕ) → Live r.1 h → h ≡ g)

launch-IsOnly :
    (p : Process) (g : ℕ) → IsSingle p → is_closed p.done p.closed ≡ true → IsOnly p g (launch p)
launch-IsOnly p g v c e =
    let same : suc p.generation ≡ g = ap (number_or 0) e in
    let w = launch-IsSingle p v c in
    let unused = v.unused g (omega (arith, same)) in
    (
      sym same,
      λ h l. none_live p h v c l,
      (omega (arith, same), omega (arith, same), unused),
      λ h l. w.alone h l ∙ same,
    )

-- `Start` launches a worker only when no worker goroutine is live; the worker has a number of its
-- own and is then the only one live.
pub start_locked-launched :
    (p : Process) (g : ℕ)
    → Reachable p
    → (start_locked p).0 ≡ launched g
    → (g ≡ suc p.generation)
      × ((h : ℕ) → Live p h → ⊥)
      × Live (start_locked p).1 g
      × ((h : ℕ) → Live (start_locked p).1 h → h ≡ g)
unfolding start_locked
start_locked-launched p g r e =
    let v = Reachable-IsSingle p r in
    by_test (IsOnly p g) p.running _ _ (λ b h. cc)
      (λ b.
        by_test (IsOnly p g) (not (is_closed p.done p.closed)) _ _ (λ c h. cc)
          (λ c. launch-IsOnly p g v (ground arith)))
      e

-- When a `Wait` finds nothing to wait for, no worker goroutine is live and the process is not
-- marked as running.
pub wait_returns-settled :
    (p : Process)
    → Reachable p
    → wait_returns p ≡ true
    → (p.running ≡ false) × ((h : ℕ) → Live p h → ⊥)
unfolding wait_returns
wait_returns-settled p r w =
    let v = Reachable-IsSingle p r in
    let gone = λ (h : ℕ) (l : Live p h). none_live p h v w l in
    (
      elim (Bool-cases p.running) [
        | inl e ↦ absurd (gone p.generation ((v.backed e).0, omega arith, (v.backed e).1))
        | inr e ↦ e
      ],
      gone,
    )
