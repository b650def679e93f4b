-- ===== src/Supervisor/Retry.antt =====
-- Registration with retries, internal/runtimesupervisor/supervisor.go: which errors are worth
-- another attempt, and the loop with its growing delay.
pub mod Classify
pub mod Progress
use credimi_runner.Prelude.{
  ℕ, zero, suc, ◌*◌, Bool, true, false, ◌&&◌, ◌||◌, not, Option, none, some, [], ◌∷◌, if◌then◌else◌,
  ltb, leb, ◌==◌,
}
use credimi_runner.GoError.{
  GoError, Errors, message, wrap, joined, canceled, deadline_exceeded, status, network, syscall,
  nil, cons, is_context, is_connection, as_status, as_network, join,
}

-- Milliseconds.
abbrev pub default_registration_retry_delay : ℕ
default_registration_retry_delay = 250

abbrev pub max_registration_retry_delay : ℕ
max_registration_retry_delay = 2000

-- HTTP 429 and every 5xx.
abbrev pub status_is_transient : ℕ → Bool
status_is_transient n = n == 429 || leb 500 n

abbrev pub status_is_permanent : ℕ → Bool
status_is_permanent n = leb 400 n && ltb n 500 && not (n == 429)

abbrev option_holds : Option Bool → Bool
option_holds none = false
option_holds (some b) = b

abbrev status_holds : (ℕ → Bool) → Option ℕ → Bool
status_holds p none = false
status_holds p (some n) = p n

unfoldable pub permanent_registration_error : GoError → Bool
permanent_registration_error e = status_holds status_is_permanent (as_status e)

-- The tests that follow the one for joined errors: a status error decides alone.
abbrev pub leaf_verdict : Option ℕ → GoError → Bool
leaf_verdict (some n) e = status_is_transient n
leaf_verdict none e = option_holds (as_network e) || is_connection e

abbrev pub verdict : GoError → Option Bool → Bool
verdict e children =
    if is_context e
    then false
    else elim children [ some b ↦ b | none ↦ leaf_verdict (as_status e) e ]

-- The test that the loop over the children of a joined error makes of each child.
abbrev pub child_fails : GoError → Option Bool → Bool
child_fails e children = permanent_registration_error e || not (verdict e children)

-- `joined_verdict` is the answer of the loop over the children of the joined error that
-- `errors.As` finds first, if there is one and it has children.
unfoldable mutual
  pub joined_verdict : GoError → Option Bool
  joined_verdict (wrap m e) = joined_verdict e
  joined_verdict (network t u e) = joined_verdict e
  joined_verdict (joined es) = children_verdict es
  joined_verdict canceled = none
  joined_verdict deadline_exceeded = none
  joined_verdict (message m) = none
  joined_verdict (status n) = none
  joined_verdict (syscall s) = none

  pub children_verdict : Errors → Option Bool
  children_verdict nil = none
  children_verdict (cons e es) =
      some (if child_fails e (joined_verdict e) then false else all_transient es)

  pub all_transient : Errors → Bool
  all_transient nil = true
  all_transient (cons e es) = if child_fails e (joined_verdict e) then false else all_transient es

unfoldable pub transient_registration_error : GoError → Bool
unfolding joined_verdict
transient_registration_error e = verdict e (joined_verdict e)

-- What the loop asks of its surroundings: `ctx_err` is `ctx.Err()`, `wait` is the `select` between
-- the timer and `ctx.Done()` (the context's error if that came first), and `register` is the
-- request to Credimi. `remaining` is the time until the context's deadline, in whole milliseconds,
-- and `retry_delay` the variable `registrationRetryDelay`, where 0 stands for any delay of 0 or less.
pub record RegistrationEnv (W : Type 0) : Type 0 where
  pub retry_delay : ℕ
  pub ctx_err : W → Option GoError
  pub remaining : W → ℕ
  pub wait : ℕ → W → W × Option GoError
  pub register : W → W × Option GoError

-- The delay of the first round.
abbrev pub first_delay : ℕ → ℕ
first_delay delay = if delay == 0 then default_registration_retry_delay else delay

abbrev pub next_delay : ℕ → ℕ
next_delay delay =
    if ltb delay max_registration_retry_delay
    then (if ltb max_registration_retry_delay (delay * 2)
        then max_registration_retry_delay
        else delay * 2)
    else delay

module _ {W : Type 0} (env : RegistrationEnv W) where
  open env use {ctx_err, wait, register}

  -- `none` means that the fuel ran out.
  unfoldable pub registration_loop : ℕ → ℕ → W → Option (W × Option GoError)
  registration_loop zero delay w = none
  registration_loop (suc fuel) delay w = elim (ctx_err w) [
    | some e ↦ some (w, some e)
    | none ↦
        let (w₁, result) = register w in
        elim result [
          | none ↦ some (w₁, none)
          | some last ↦
              let (w₂, interrupted) = wait delay w₁ in
              let again : Option (W × Option GoError) =
                registration_loop fuel (next_delay delay) w₂ in
              if transient_registration_error last
              then elim interrupted [
                | some e ↦ some (w₂, join (some last ∷ some e ∷ []))
                | none ↦ again
              ]
              else some (w₁, some last)
        ]
  ]
