-- ===== src/Registration/Endpoint/Laws.antt =====
-- What the check of the public URL shows when it succeeds, and that it ends.
use Prim.Native.String.{String}
use credimi_runner.Prelude.{
  by_test, ℕ, zero, suc, ◌+◌, ◌≤◌, ◌<◌, Bool, true, false, ◌&&◌, ◌≡◌, ◌≢◌, ◌⊎◌, inl, inr, refl, sym,
  subst, Option, none, some, arith, ◌==◌, ==_iff, str_eq, eq_iff,
}
use credimi_runner.Strings.{trim_space}
use credimi_runner.Registration.Endpoint.{
  Response, no_response, answered, EndpointError, is_identity_error, is_dns_not_found, decoded,
  verify_attempt, Requests, Outcome, ready, out_of_fuel, refused, timed_out, next_round,
  after_fallback, after_request, verify_loop,
}

module _ (runner boot : String) where
  -- The response is a readiness answer of this runner and this boot.
  abbrev pub IsOurs : Response → Type 0
  IsOurs r =
      (ids : String × String) × (r ≡ answered 200 (some ids))
      × (trim_space ids.0 ≡ trim_space runner)
      × (trim_space ids.1 ≡ boot)

  -- The response names another runner or another boot.
  abbrev pub IsOther : Response → Type 0
  IsOther r =
      (ids : String × String) × (r ≡ answered 200 (some ids))
      × ((trim_space ids.0 ≢ trim_space runner) ⊎ (trim_space ids.1 ≢ boot))

  -- What an attempt's error tells of the response.
  abbrev pub Tells : Response → Option EndpointError → Type 0
  Tells r none = IsOurs r
  Tells r (some e) = is_identity_error e ≡ true → IsOther r

  decoded-Tells :
      (b : Option (String × String)) → Tells (answered 200 b) (decoded runner boot 200 b)
  unfolding trim_space
  decoded-Tells none = λ h. cc
  decoded-Tells (some ids) =
      by_test (Tells (answered 200 (some ids))) (str_eq (trim_space ids.0) (trim_space runner)) _ _
        (λ h.
          by_test (Tells (answered 200 (some ids))) (str_eq (trim_space ids.1) boot) _ _
            (λ k. (ids, refl, (eq_iff _ _).0 h, (eq_iff _ _).0 k))
            (λ k i. (ids, refl, inr (λ e. let same = (eq_iff _ _).1 e in cc))))
        (λ h i. (ids, refl, inl (λ e. let same = (eq_iff _ _).1 e in cc)))

  verify_attempt-Tells : (r : Response) → Tells r (verify_attempt runner boot r)
  unfolding verify_attempt
  verify_attempt-Tells (no_response b e) = λ h. cc
  verify_attempt-Tells (answered n b) =
      by_test (Tells (answered n b)) (n == 200) _ _
        (λ h.
          subst (λ m. Tells (answered m b) (decoded runner boot m b)) (sym ((==_iff n 200).0 h))
            (decoded-Tells b))
        (λ h k. cc)

module _ (runner boot : String) (use_fallback : Bool) (r : Requests) where
  -- What an iteration that ends the loop has met.
  abbrev pub EndsAt : ℕ → Outcome → Type 0
  EndsAt k ready =
      IsOurs runner boot (r.normal k) ⊎ ((use_fallback ≡ true) × IsOurs runner boot (r.fallback k))
  EndsAt k (refused e) = IsOther runner boot (r.normal k) ⊎ IsOther runner boot (r.fallback k)
  EndsAt k (timed_out e) = r.at_deadline k ≡ true
  EndsAt k out_of_fuel = ⊥

  abbrev pub BeforeDeadline : ℕ → ℕ → Type 0
  BeforeDeadline n k = (j : ℕ) → n ≤ j → j < k → r.at_deadline j ≡ false

  abbrev Round : ℕ → Outcome → Outcome → Type 0
  Round n rest out = EndsAt n out ⊎ ((out ≡ rest) × (r.at_deadline n ≡ false))

  next_round-Round :
      (n : ℕ) (e last : EndpointError) (rest : Outcome)
      → (is_identity_error e ≡ true → IsOther runner boot (r.normal n))
      → Round n rest (next_round runner boot use_fallback r n e last rest)
  next_round-Round n e last rest f =
      by_test (Round n rest) (is_identity_error e) _ _ (λ h. inl (inl (f h)))
        (λ h. by_test (Round n rest) (r.at_deadline n) _ _ (λ d. inl d) (λ d. inr (refl, d)))

  after_fallback-Round :
      (n : ℕ) (e : EndpointError) (o : Option EndpointError) (rest : Outcome)
      → use_fallback ≡ true
      → (is_identity_error e ≡ true → IsOther runner boot (r.normal n))
      → Tells runner boot (r.fallback n) o
      → Round n rest (after_fallback runner boot use_fallback r n e o rest)
  after_fallback-Round n e none rest u f t = inl (inr (u, t))
  after_fallback-Round n e (some g) rest u f t =
      by_test (Round n rest) (is_identity_error g) _ _ (λ h. inl (inr (t h)))
        (λ h. next_round-Round n e g rest f)

  after_request-Round :
      (n : ℕ) (o : Option EndpointError) (rest : Outcome)
      → Tells runner boot (r.normal n) o
      → Round n rest (after_request runner boot use_fallback r n o rest)
  unfolding verify_attempt
  after_request-Round n none rest t = inl (inl t)
  after_request-Round n (some e) rest t =
      by_test (Round n rest) (use_fallback && is_dns_not_found e) _ _
        (λ b.
          after_fallback-Round n e _ rest (ground (arith, b)) t
            (verify_attempt-Tells runner boot (r.fallback n)))
        (λ b. next_round-Round n e e rest t)

  -- The loop has ended, or met no deadline in as many iterations as there was fuel.
  abbrev pub Ended : ℕ → ℕ → Outcome → Type 0
  Ended fuel n out =
      ((out ≡ out_of_fuel) × BeforeDeadline n (n + fuel))
      ⊎ ((k : ℕ) × (n ≤ k) × (k < n + fuel) × BeforeDeadline n k × EndsAt k out)

  before-suc : (n k : ℕ) → r.at_deadline n ≡ false → BeforeDeadline (suc n) k → BeforeDeadline n k
  before-suc n k h f j l m = ground (arith, f j)

  verify_loop-Ended : (fuel n : ℕ) → Ended fuel n (verify_loop runner boot use_fallback r fuel n)
  unfolding verify_loop
  verify_loop-Ended zero n =
      inl (refl, λ j l m. let no_room : ⊥ = omega (arith, l, m) in absurd no_room)
  verify_loop-Ended (suc fuel) n =
      let rest = verify_loop runner boot use_fallback r fuel (suc n) in
      let out =
        after_request runner boot use_fallback r n (verify_attempt runner boot (r.normal n)) rest in
      elim (after_request-Round n _ rest (verify_attempt-Tells runner boot (r.normal n))) [
        | inl e ↦ inr (
          n,
          omega arith,
          omega arith,
          λ j l m. (let no_room : ⊥ = omega (arith, l, m) in absurd no_room),
          e,
        )
        | inr (same, d) ↦
            subst (Ended (suc fuel) n) (sym same)
              (later fuel n rest d (verify_loop-Ended fuel (suc n)))
      ]
    where
      later :
          (fuel n : ℕ) (out : Outcome)
          → r.at_deadline n ≡ false
          → Ended fuel (suc n) out
          → Ended (suc fuel) n out
      later fuel n out d e = elim e [
        | inl (same, f) ↦
            inl (same, before-suc n (n + suc fuel) d (λ j l m. f j l (omega (arith, m))))
        | inr (k, l, m, f, g) ↦ inr (k, omega (arith, l), omega (arith, m), before-suc n k d f, g)
      ]

  -- Once the deadline has passed after some attempt, the check has ended by that attempt, and not
  -- before an attempt that decides it: it returns nil only if a request, or one of the fallback
  -- client where that is allowed, was answered with status 200 by this runner and this boot; it
  -- returns an identity error only if one was answered with status 200 by another runner or
  -- another boot; and it gives up only when the deadline has passed.
  pub verify_loop-decides :
      (d : ℕ)
      → r.at_deadline d ≡ true
      → (k : ℕ) × (k ≤ d)
        × BeforeDeadline 0 k
        × EndsAt k (verify_loop runner boot use_fallback r (suc d) 0)
  verify_loop-decides d h = elim (verify_loop-Ended (suc d) 0) [
    | inl (same, f) ↦
        let open_still = f d (omega arith) (omega arith) in let clash : ⊥ = cc in absurd clash
    | inr (k, l, m, f, e) ↦ (k, omega (arith, m), f, e)
  ]
