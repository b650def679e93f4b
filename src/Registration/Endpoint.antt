-- ===== src/Registration/Endpoint.antt =====
-- The check that the public URL leads to this runner: `endpointVerifier.verify` and
-- `verifyPublicEndpointAttempt` of internal/runtimesupervisor/registration.go. What the requests
-- return and when the deadline has passed is an argument.
pub mod Address
pub mod Verify
pub mod Laws
mod Tests
use Prim.Native.String.{String}
use credimi_runner.Prelude.{
  ℕ, zero, suc, Bool, true, false, ◌&&◌, Option, none, some, if◌then◌else◌, ◌==◌, str_eq,
}
use credimi_runner.GoError.{GoError}
use credimi_runner.Config.{ExposureConfig}
use credimi_runner.Strings.{trim_space}

-- What a request gives: its error, with `DNSError.IsNotFound`, or a status with the runner and boot
-- ID of its body, if that is readiness JSON.
pub data Response : Type 0 where
  no_response : Bool → GoError → Response
  answered : ℕ → Option (String × String) → Response

-- The errors of an attempt. The first two are `endpointIdentityError`.
pub data EndpointError : Type 0 where
  belongs_to_runner belongs_to_boot : String → EndpointError
  bad_status : ℕ → EndpointError
  malformed : ℕ → EndpointError
  unreachable : Bool → GoError → EndpointError

-- `isEndpointIdentityError`
abbrev pub is_identity_error : EndpointError → Bool
is_identity_error (belongs_to_runner id) = true
is_identity_error (belongs_to_boot id) = true
is_identity_error (bad_status n) = false
is_identity_error (malformed n) = false
is_identity_error (unreachable b e) = false

-- `isDNSNotFound`
abbrev pub is_dns_not_found : EndpointError → Bool
is_dns_not_found (unreachable b e) = b
is_dns_not_found (belongs_to_runner id) = false
is_dns_not_found (belongs_to_boot id) = false
is_dns_not_found (bad_status n) = false
is_dns_not_found (malformed n) = false

-- The comparison of what an answer says of itself.
abbrev pub identify : String → String → String × String → Option EndpointError
unfolding trim_space
identify runner boot ids =
    if str_eq (trim_space ids.0) (trim_space runner)
    then if str_eq (trim_space ids.1) boot then none else some (belongs_to_boot ids.1)
    else some (belongs_to_runner ids.0)

abbrev pub decoded : String → String → ℕ → Option (String × String) → Option EndpointError
unfolding trim_space
decoded runner boot n none = some (malformed n)
decoded runner boot n (some ids) = identify runner boot ids

-- `verifyPublicEndpointAttempt`
unfoldable pub verify_attempt : String → String → Response → Option EndpointError
unfolding trim_space
verify_attempt runner boot (no_response b e) = some (unreachable b e)
verify_attempt runner boot (answered n body) =
    if n == 200 then decoded runner boot n body else some (bad_status n)

-- What the loop of `verify` meets: the responses to its n-th request and to the request of the
-- fallback client after it, and whether the `select` after both leaves by the deadline.
pub record Requests : Type 0 where
  pub normal : ℕ → Response
  pub fallback : ℕ → Response
  pub at_deadline : ℕ → Bool

-- What `verify` returns: nil, an identity error, or that the endpoint did not become ready.
-- `out_of_fuel` stands for a loop that goes on.
pub data Outcome : Type 0 where
  ready out_of_fuel : Outcome
  refused timed_out : EndpointError → Outcome

module _ (runner boot : String) (use_fallback : Bool) (r : Requests) where
  -- The end of an iteration with the error of the request and the last error.
  abbrev pub next_round : ℕ → EndpointError → EndpointError → Outcome → Outcome
  next_round n e last rest =
      if is_identity_error e then refused e else if r.at_deadline n then timed_out last else rest

  -- The end of an iteration after the fallback.
  abbrev pub after_fallback : ℕ → EndpointError → Option EndpointError → Outcome → Outcome
  after_fallback n e none rest = ready
  after_fallback n e (some f) rest =
      if is_identity_error f then refused f else next_round n e f rest

  abbrev pub after_request : ℕ → Option EndpointError → Outcome → Outcome
  unfolding verify_attempt
  after_request n none rest = ready
  after_request n (some e) rest =
      if use_fallback && is_dns_not_found e
      then after_fallback n e (verify_attempt runner boot (r.fallback n)) rest
      else next_round n e e rest

  -- The loop from its n-th iteration on.
  unfoldable pub verify_loop : ℕ → ℕ → Outcome
  unfolding verify_attempt
  verify_loop zero n = out_of_fuel
  verify_loop (suc fuel) n =
      after_request n (verify_attempt runner boot (r.normal n)) (verify_loop fuel (suc n))

-- The URL that `verify` checks.
unfoldable pub base_url : ExposureConfig → String → String
unfolding trim_space
base_url x url = if str_eq x.mode "manual" then trim_space x.public_url else trim_space url
