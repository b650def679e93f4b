-- ===== src/Supervisor/Retry/Classify.antt =====
-- Which registration errors are retried.
use credimi_runner.Prelude.{
  ℕ, ◌≡◌, refl, ◌≢◌, ◌↔◌, ◌⊎◌, inl, inr, true, false, none, some, arith, Option-cases,
}
use credimi_runner.GoError.{
  GoError, Errors, wrap, joined, network, nil, cons, is_context, any_context, is_connection,
  as_status, first_status, as_network,
}
use credimi_runner.Supervisor.Retry.{
  status_is_permanent, permanent_registration_error, joined_verdict, all_transient,
  transient_registration_error,
}

-- A permanent status anywhere among the children is the first of its own child.
all_transient-false :
    (es : Errors) (n : ℕ)
    → first_status es ≡ some n
    → status_is_permanent n ≡ true
    → all_transient es ≡ false
unfolding first_status all_transient permanent_registration_error
all_transient-false nil n h p = cc
all_transient-false (cons e es) n h p = elim (Option-cases (as_status e)) [
  | inl e₀ ↦ ground (arith, all_transient-false es n)
  | inr (m, e₁) ↦ ground arith
]

joined_verdict-false :
    (e : GoError) (n : ℕ)
    → as_status e ≡ some n
    → status_is_permanent n ≡ true
    → (joined_verdict e ≡ none) ⊎ (joined_verdict e ≡ some false)
unfolding joined_verdict as_status all_transient permanent_registration_error
joined_verdict-false (wrap m e) n h p = joined_verdict-false e n h p
joined_verdict-false (network t u e) n h p = joined_verdict-false e n h p
joined_verdict-false (joined nil) n h p = inl refl
joined_verdict-false (joined (cons e es)) n h p =
    inr (ground (arith, all_transient-false (cons e es) n))
joined_verdict-false _ n h p = inl refl

-- An error whose first status is permanent (a 4xx other than 429) is never retried, however it
-- is wrapped or joined with other errors.
pub permanent-not_transient :
    (e : GoError) → permanent_registration_error e ≡ true → transient_registration_error e ≡ false
unfolding permanent_registration_error transient_registration_error
permanent-not_transient e h = elim (Option-cases (as_status e)) [
  | inl none_found ↦ ground arith
  | inr (n, found) ↦ ground (arith, joined_verdict-false e n)
]

-- Every error of the list is transient.
abbrev pub AllTransient : Errors → Type 0
AllTransient nil = Unit
AllTransient (cons e es) = (transient_registration_error e ≡ true) × AllTransient es

all_transient_iff : (es : Errors) → (all_transient es ≡ true) ↔ AllTransient es
unfolding all_transient transient_registration_error
all_transient_iff nil = (λ _. tt, λ _. refl)
all_transient_iff (cons e es) = (
  λ h. (ground arith, (all_transient_iff es).0 (ground arith)),
  λ h. ground (arith, (all_transient_iff es).1 h.1, permanent-not_transient e),
)

transient_not_context : (e : GoError) → transient_registration_error e ≡ true → is_context e ≡ false
unfolding transient_registration_error
transient_not_context e h = ground arith

any_context-false : (es : Errors) → AllTransient es → any_context es ≡ false
unfolding is_context
any_context-false nil h = refl
any_context-false (cons e es) h =
    ground (arith, transient_not_context e h.0, any_context-false es h.1)

-- Joined errors are retried exactly when there are some and each of them would be retried alone.
pub transient-joined_iff :
    (es : Errors)
    → (transient_registration_error (joined es) ≡ true) ↔ ((es ≢ nil) × AllTransient es)
unfolding transient_registration_error is_context as_status as_network is_connection
transient-joined_iff nil = (λ h. cc, λ h. absurd (h.0 refl))
transient-joined_iff (cons e es) = (
  λ h. (λ e. cc, (all_transient_iff (cons e es)).0 (ground arith)),
  λ h. ground (arith, (all_transient_iff (cons e es)).1 h.1, any_context-false (cons e es) h.1),
)
