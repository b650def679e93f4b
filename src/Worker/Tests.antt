-- ===== src/Worker/Tests.antt =====
-- The worker against a server that is reached at the second attempt.
use credimi_runner.Prelude.{
  ℕ, zero, suc, true, false, ◌≡◌, refl, Option, none, some, [], ◌∷◌, if◌then◌else◌, ltb, ◌-◌,
}
use credimi_runner.GoError.{GoError, message, canceled, is_canceled}
use credimi_runner.Worker.{
  Temporal, Progress, going, ended, rounds, round, first_round, grow_backoff, should_retry,
}
use credimi_runner.Worker.Laws.{Cancels, IsProgress, rounds-IsProgress}

-- The world counts down the calls: the context is cancelled at 0.
abbrev context_at : ℕ → Option GoError
context_at zero = some canceled
context_at (suc n) = none

abbrev answer_after : ℕ → Option GoError
answer_after n = if ltb 6 n then some (message "connection refused") else none

temporal : Temporal ℕ
temporal = record {
  context_error = context_at;
  dial = λ n. (answer_after n, n - 1);
  start_worker = λ n. (none, n - 1);
  wait = λ n. (none, 0);
  sleep = λ d n. (true, n - 1);
  permanent = λ e. false;
}

-- One failure, a pause of a second, and then a worker until the context ends.
abbrev outcome : Progress ℕ
outcome = rounds temporal 3 (going (first_round temporal 8))

runs :
    outcome
    ≡ ended none (record {
      backoff = 2000000000;
      world = 0;
      clients = 0;
      workers = 0;
      ready = some none;
      started = 1;
      slept = 1000000000 ∷ [];
    })
unfolding rounds round grow_backoff should_retry temporal is_canceled
runs = refl

temporal-Cancels : Cancels temporal
unfolding temporal
temporal-Cancels n w h = cc

rounds-IsProgress_example : IsProgress temporal outcome
rounds-IsProgress_example = rounds-IsProgress temporal temporal-Cancels 3 8
