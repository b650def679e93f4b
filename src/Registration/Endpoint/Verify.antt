-- ===== src/Registration/Endpoint/Verify.antt =====
-- The whole of `endpointVerifier.verify` of internal/runtimesupervisor/registration.go: what it
-- checks before the loop, and where it looks.
use Prim.Native.String.{String}
use credimi_runner.Prelude.{
  by_test, ℕ, suc, Bool, true, false, ◌&&◌, ◌≡◌, ◌⊎◌, inl, inr, refl, ap, if◌then◌else◌, str_eq,
  eq_iff,
}
use credimi_runner.GoError.{GoError, message, wrap, Result, ok, err}
use credimi_runner.Config.{Config}
use credimi_runner.Registration.Endpoint.{
  Requests, Outcome, ready, out_of_fuel, refused, timed_out, verify_loop, base_url,
}
use credimi_runner.Registration.Endpoint.Address.{
  WebUrl, is_try_cloudflare_hostname, verification_url,
}
use credimi_runner.Registration.Endpoint.Laws.{IsOurs, EndsAt, verify_loop-decides}

-- What `verify` returns: what its loop does, or the error of a guard before it.
pub data VerifyResult : Type 0 where
  verified : Outcome → VerifyResult
  failed : GoError → VerifyResult

-- The requests of a loop go to a URL; the deadline of `verify` passes after that many of them.
pub record World : Type 0 where
  pub parse_url : String → Result WebUrl
  pub render : WebUrl → String
  pub to_lower : String → String
  pub is_ip : String → Bool
  pub requests : String → Requests
  pub last_round : ℕ

module _ (w : World) (cfg : Config) (boot : String) where
  abbrev pub uses_fallback : WebUrl → Bool
  uses_fallback u =
      str_eq cfg.exposure.mode "quick_tunnel"
      && is_try_cloudflare_hostname w.to_lower w.is_ip u.hostname

  abbrev pub check_at : String → Result WebUrl → VerifyResult
  check_at endpoint (err e) = failed (wrap "parse public endpoint verification URL" e)
  check_at endpoint (ok u) =
      verified (
        verify_loop cfg.runner.id boot (uses_fallback u) (w.requests endpoint) (suc w.last_round) 0)

  abbrev pub check_address : Result WebUrl → VerifyResult
  check_address (err e) = failed e
  check_address (ok u) = check_at (w.render u) (w.parse_url (w.render u))

  -- `verify`, where `boot` is the trimmed boot ID of the environment.
  unfoldable pub verify : String → VerifyResult
  unfolding base_url verification_url verify_loop is_try_cloudflare_hostname
  verify url =
      let base = base_url cfg.exposure url in
      if str_eq base ""
      then verified ready
      else if str_eq boot ""
      then failed (message "current runner boot ID is unavailable")
      else check_address (verification_url w.parse_url cfg.exposure base)

  -- A response, to the request of some round or to that of the fallback client, at the URL that is
  -- made of the base URL.
  abbrev pub Answered : String → Type 0
  Answered base =
      (u : WebUrl) × (verification_url w.parse_url cfg.exposure base ≡ ok u)
      × ((k : ℕ) × (IsOurs cfg.runner.id boot ((w.requests (w.render u)).normal k)
            ⊎ IsOurs cfg.runner.id boot ((w.requests (w.render u)).fallback k)))

  -- What a result that is nil shows.
  abbrev Shows : String → VerifyResult → Type 0
  Shows base v = v ≡ verified ready → Answered base

  abbrev outcome_or : Outcome → VerifyResult → Outcome
  outcome_or o (verified p) = p
  outcome_or o (failed e) = o

  ready-Ours :
      (u : WebUrl) (b : Bool) (k : ℕ) (o : Outcome)
      → o ≡ ready
      → EndsAt cfg.runner.id boot b (w.requests (w.render u)) k o
      → IsOurs cfg.runner.id boot ((w.requests (w.render u)).normal k)
        ⊎ IsOurs cfg.runner.id boot ((w.requests (w.render u)).fallback k)
  ready-Ours u b k ready h e = elim e [ inl i ↦ inl i | inr i ↦ inr i.1 ]
  ready-Ours u b k out_of_fuel h e = absurd e
  ready-Ours u b k (refused f) h e = cc
  ready-Ours u b k (timed_out f) h e = cc

  module _
      (passes : (endpoint : String) → (w.requests endpoint).at_deadline w.last_round ≡ true) where
    check_at-Shows :
        (base : String) (u : WebUrl) (r : Result WebUrl)
        → verification_url w.parse_url cfg.exposure base ≡ ok u
        → Shows base (check_at (w.render u) r)
    check_at-Shows base u (err e) h = λ k. cc
    check_at-Shows base u (ok v) h = λ k.
        let decided =
          verify_loop-decides cfg.runner.id boot (uses_fallback v) (w.requests (w.render u))
            w.last_round (passes (w.render u)) in
        let (n, l, f, e) = decided in
        (u, h, (n, ready-Ours u (uses_fallback v) n _ (ap (outcome_or out_of_fuel) k) e))

    check_address-Shows :
        (base : String) (r : Result WebUrl)
        → verification_url w.parse_url cfg.exposure base ≡ r
        → Shows base (check_address r)
    check_address-Shows base (err e) h = λ k. cc
    check_address-Shows base (ok u) h = check_at-Shows base u _ h

    -- If the deadline of `verify` passes after some round, `verify` returns nil only when there is
    -- no URL to check, or when a request at the URL to check, by the default or the fallback
    -- client, was answered with status 200 by this runner and this boot, whose ID is known.
    pub verify-ours :
        (url : String)
        → verify url ≡ verified ready
        → (base_url cfg.exposure url ≡ "")
          ⊎ ((str_eq boot "" ≡ false) × Answered (base_url cfg.exposure url))
    unfolding verify
    verify-ours url h =
        let base = base_url cfg.exposure url in
        let P = λ (v : VerifyResult).
          v ≡ verified ready → (base ≡ "") ⊎ ((str_eq boot "" ≡ false) × Answered base) in
        by_test P (str_eq base "") _ _ (λ e k. inl ((eq_iff base "").0 e))
          (λ e.
            by_test P (str_eq boot "") _ _ (λ b k. cc)
              (λ b k. inr (b, check_address-Shows base _ refl k)))
          h
