-- ===== src/Worker/Laws.antt =====
-- What holds of the worker after any number of rounds.
use credimi_runner.Prelude.{
  ℕ, zero, suc, ◌≤◌, Bool, true, false, ◌≡◌, ◌≢◌, refl, ap, Option, none, some, if◌then◌else◌, All,
  arith,
}
use credimi_runner.GoError.{GoError}
use credimi_runner.Worker.{
  Temporal, backoff_first, backoff_max, grow_backoff, Loop, Progress, going, ended, should_retry,
  first_of, signal, slept_enough, pause, init_failed, stopped, run_worker, worker_made, dialed,
  begin_round, round, rounds, first_round,
}

abbrev pub IsPause : ℕ → Type 0
IsPause n = (backoff_first ≤ n) × (n ≤ backoff_max)

-- A sleep that is cut short finds the context cancelled.
abbrev pub Cancels : {W : Type 0} → Temporal W → Type 0
Cancels {W} t = (n : ℕ) (w : W) → (t.sleep n w).0 ≡ false → t.context_error (t.sleep n w).1 ≢ none

-- The loop between its calls: so many clients and workers are open, every pause is between a
-- second and half a minute, and a worker has started if `ready` was told of a success.
pub record IsLoop {W : Type 0} (clients workers : ℕ) (l : Loop W) : Type 0 where
  pub clients_open : l.clients ≡ clients
  pub workers_open : l.workers ≡ workers
  pub pauses : IsPause l.backoff × All IsPause l.slept
  pub honest : l.ready ≡ some none → 1 ≤ l.started

grow_backoff-IsPause : (n : ℕ) → IsPause n → IsPause (grow_backoff n backoff_max)
unfolding grow_backoff
grow_backoff-IsPause n p = (ground arith, ground arith)

not_none : (e : GoError) → ◌≡◌ {A = Option GoError} (some e) none → ⊥
not_none e h = cc

module _ {W : Type 0} (t : Temporal W) where
  -- A state between rounds has nothing open. At the return, `ready` has been told besides, and an
  -- error that is returned is one that is not retried.
  abbrev pub IsFinal : Option GoError → Type 0
  IsFinal none = Unit
  IsFinal (some e) = should_retry t (some e) ≡ false

  abbrev pub IsProgress : Progress W → Type 0
  IsProgress (going l) = IsLoop 0 0 l
  IsProgress (ended e l) = IsLoop 0 0 l × (l.ready ≢ none) × IsFinal e

  abbrev Told : Loop W → Type 0
  Told l = l.ready ≢ none

  signal-IsLoop :
      (c k : ℕ) (e : Option GoError) (l : Loop W)
      → IsLoop c k l
      → (e ≡ none → 1 ≤ l.started)
      → IsLoop c k (signal t e l) × Told (signal t e l)
  signal-IsLoop c k e l v h = (
    record {
      clients_open = v.clients_open;
      workers_open = v.workers_open;
      pauses = v.pauses;
      honest = first_honest l.ready e v.honest h;
    },
    first_told l.ready e,
  )
    where
      first_honest :
          (r : Option (Option GoError)) (x : Option GoError)
          → (r ≡ some none → 1 ≤ l.started)
          → (x ≡ none → 1 ≤ l.started)
          → first_of t r x ≡ some none
          → 1 ≤ l.started
      first_honest none x old new q = new (ap (λ o. elim o [ none ↦ x | some y ↦ y ]) q)
      first_honest (some y) x old new q = old q

      first_told : (r : Option (Option GoError)) (x : Option GoError) → first_of t r x ≢ none
      first_told none x q = cc
      first_told (some y) x q = cc

  slept_enough-IsProgress :
      (b : Bool) (l : Loop W)
      → IsLoop 0 0 l
      → (b ≡ false → t.context_error l.world ≢ none)
      → IsProgress (slept_enough t b l)
  slept_enough-IsProgress true l v h = record {
    clients_open = v.clients_open;
    workers_open = v.workers_open;
    pauses = (grow_backoff-IsPause l.backoff v.pauses.0, v.pauses.1);
    honest = v.honest;
  }
  slept_enough-IsProgress false l v h =
      let s = signal-IsLoop 0 0 (t.context_error l.world) l v (λ e. absurd (h refl e)) in
      (s.0, s.1, tt)

  -- The world and the durations slept may change, and what is open by the numbers given.
  moved : (c k : ℕ) (l : Loop W) (w : W) → IsLoop c k l → IsLoop c k (record l { world = w })
  moved c k l w v = record {
    clients_open = v.clients_open;
    workers_open = v.workers_open;
    pauses = v.pauses;
    honest = v.honest;
  }

  module _ (cancels : Cancels t) where
    pause-IsProgress : (l : Loop W) → IsLoop 0 0 l → IsProgress (pause t l)
    pause-IsProgress l v =
        slept_enough-IsProgress (t.sleep l.backoff l.world).0 _
          (record {
            clients_open = v.clients_open;
            workers_open = v.workers_open;
            pauses = (v.pauses.0, (v.pauses.0, v.pauses.1));
            honest = v.honest;
          })
          (cancels l.backoff l.world)

    by_retry :
        (b : Bool) (p q : Progress W)
        → IsProgress p
        → (b ≡ false → IsProgress q)
        → IsProgress (if b then p else q)
    by_retry true p q f g = f
    by_retry false p q f g = g refl

    init_failed-IsProgress :
        (e : GoError) (l : Loop W) → IsLoop 0 0 l → IsProgress (init_failed t e l)
    init_failed-IsProgress e l v =
        by_retry (should_retry t (some e)) _ _ (pause-IsProgress l v) (λ r.
          let s = signal-IsLoop 0 0 (some e) l v (λ h. absurd (not_none e h)) in (s.0, s.1, r))

    stopped_by :
        (c : Option GoError) (e : GoError) (l : Loop W)
        → IsLoop 0 0 l
        → Told l
        → IsProgress (elim c [
          | some x ↦ ended none l
          | none ↦ if should_retry t (some e) then pause t l else ended (some e) l
        ])
    stopped_by (some x) e l v r = (v, r, tt)
    stopped_by none e l v r =
        by_retry (should_retry t (some e)) _ _ (pause-IsProgress l v) (λ h. (v, r, h))

    stopped-IsProgress :
        (e : Option GoError) (l : Loop W) → IsLoop 0 0 l → Told l → IsProgress (stopped t e l)
    stopped-IsProgress none l v r = (v, r, tt)
    stopped-IsProgress (some e) l v r = stopped_by (t.context_error l.world) e l v r

    run_worker-IsProgress : (l : Loop W) → IsLoop 1 1 l → Told l → IsProgress (run_worker t l)
    run_worker-IsProgress l v r =
        stopped-IsProgress _ _
          (record {
            clients_open = omega (arith, v.clients_open);
            workers_open = omega (arith, v.workers_open);
            pauses = v.pauses;
            honest = v.honest;
          })
          r

    worker_made-IsProgress :
        (e : Option GoError) (l : Loop W) → IsLoop 1 0 l → IsProgress (worker_made t e l)
    worker_made-IsProgress (some e) l v = init_failed-IsProgress e _ (record {
      clients_open = omega (arith, v.clients_open);
      workers_open = v.workers_open;
      pauses = v.pauses;
      honest = v.honest;
    })
    worker_made-IsProgress none l v =
        let made : Loop W = record l { workers = suc l.workers; started = suc l.started } in
        let s =
          signal-IsLoop 1 1 none made
            (record {
              clients_open = v.clients_open;
              workers_open = omega (arith, v.workers_open);
              pauses = v.pauses;
              honest = λ h. omega arith;
            })
            (λ h. omega arith) in
        run_worker-IsProgress _ s.0 s.1

    dialed-IsProgress : (e : Option GoError) (l : Loop W) → IsLoop 0 0 l → IsProgress (dialed t e l)
    dialed-IsProgress (some e) l v = init_failed-IsProgress e l v
    dialed-IsProgress none l v = worker_made-IsProgress (t.start_worker l.world).0 _ (record {
      clients_open = omega (arith, v.clients_open);
      workers_open = v.workers_open;
      pauses = v.pauses;
      honest = v.honest;
    })

    round-IsProgress : (l : Loop W) → IsLoop 0 0 l → IsProgress (round t l)
    unfolding round
    round-IsProgress l v = begun (t.context_error l.world)
      where
        begun : (c : Option GoError) → IsProgress (begin_round t c l)
        begun (some c) =
            let s = signal-IsLoop 0 0 (some c) l v (λ h. absurd (not_none c h)) in (s.0, s.1, tt)
        begun none = dialed-IsProgress (t.dial l.world).0 _ (moved 0 0 l (t.dial l.world).1 v)

    rounds_from : (n : ℕ) (p : Progress W) → IsProgress p → IsProgress (rounds t n p)
    unfolding rounds
    rounds_from zero p h = h
    rounds_from (suc n) (going l) h = rounds_from n (round t l) (round-IsProgress l h)
    rounds_from (suc n) (ended e l) h = rounds_from n (ended e l) h

    -- After any number of rounds no client and no worker is left open, every pause was between a
    -- second and half a minute, and `ready` was told of a success only if a worker had started.
    -- When the loop has returned, `ready` has been told, and an error that is returned is one that
    -- is not retried.
    pub rounds-IsProgress : (n : ℕ) (w : W) → IsProgress (rounds t n (going (first_round t w)))
    rounds-IsProgress n w = rounds_from n _ (record {
      clients_open = refl;
      workers_open = refl;
      pauses = ((omega arith, omega arith), tt);
      honest = λ h. cc;
    })
