-- ===== src/Supervisor/Retry/Progress.antt =====
-- The retry loop ends.
use credimi_runner.Prelude.{ℕ, zero, suc, ◌+◌, ◌≤◌, ◌<◌, ◌≡◌, ◌≢◌, ◌⊎◌, none, arith}
use credimi_runner.Supervisor.Retry.{RegistrationEnv, first_delay, next_delay, registration_loop}

-- What the loop relies on of `context` and `time`: a timer of at least a millisecond that fires
-- takes its time off what is left until the deadline, or the context is done after it; a request
-- does not move the deadline away. Nothing is said of a timer of no time at all.
pub record Ticking {W : Type 0} (env : RegistrationEnv W) : Type 0 where
  pub wait_ticks :
      (d : ℕ) (w : W)
      → 1 ≤ d
      → (env.wait d w).1 ≡ none
      → (env.remaining (env.wait d w).0 + d ≤ env.remaining w)
        ⊎ (env.ctx_err (env.wait d w).0 ≢ none)
  pub register_ticks : (w : W) → env.remaining (env.register w).0 ≤ env.remaining w

-- The loop never waits for no time.
first_delay_positive : (d : ℕ) → 1 ≤ first_delay d
first_delay_positive d = ground arith

next_delay_positive : (d : ℕ) → 1 ≤ d → 1 ≤ next_delay d
next_delay_positive d h = ground arith

module _ {W : Type 0} (env : RegistrationEnv W) where
  loop_done :
      (fuel delay : ℕ) (w : W)
      → env.ctx_err w ≢ none
      → registration_loop env (suc fuel) delay w ≢ none
  unfolding registration_loop
  loop_done fuel delay w h = ground arith

  loop_returns :
      (fuel delay : ℕ) (w : W)
      → Ticking env
      → 1 ≤ delay
      → env.remaining w + 1 < fuel
      → registration_loop env fuel delay w ≢ none
  unfolding registration_loop
  loop_returns zero delay w t d h = absurd (omega arith)
  loop_returns (suc zero) delay w t d h = absurd (omega arith)
  loop_returns (suc (suc fuel)) delay w t d h =
      let w₁ = (env.register w).0 in
      let w₂ = (env.wait delay w₁).0 in
      ground (
        arith,
        loop_done fuel (next_delay delay) w₂,
        loop_returns (suc fuel) (next_delay delay) w₂ t (next_delay_positive delay d),
        t.wait_ticks delay w₁ d,
        t.register_ticks w,
      )

  -- When a timer of at least a millisecond takes its time off what is left until the context's
  -- deadline: from the delay that `registerWithRetry` begins with, whatever the configured delay
  -- is, 0 included, the loop returns within as many rounds as the milliseconds that are left until
  -- the deadline, and two more.
  pub registration_loop_returns :
      (w : W)
      → Ticking env
      → registration_loop env (env.remaining w + 2) (first_delay env.retry_delay) w ≢ none
  registration_loop_returns w t =
      loop_returns (env.remaining w + 2) _ w t (first_delay_positive env.retry_delay) (omega arith)
