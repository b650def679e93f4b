-- ===== src/Registration/Endpoint/Tests.antt =====
-- The check of the public URL at concrete responses.
use Prim.Native.String.{String}
use credimi_runner.Prelude.{
  ℕ, ◌≤◌, Bool, true, false, ◌≡◌, ◌⊎◌, refl, str_eq, some, if◌then◌else◌, ◌==◌,
}
use credimi_runner.GoError.{message, Result, ok}
use credimi_runner.Strings.{trim_space, trim_left, trim_right, has_prefix, split_on}
use credimi_runner.Registration.Endpoint.{
  no_response, answered, Requests, ready, verify_attempt, verify_loop, base_url,
}
use credimi_runner.Registration.Endpoint.Address.{
  is_try_cloudflare_hostname, without_suffix, all_labels, label_chars, WebUrl, trim_slashes,
  verification_url,
}
use credimi_runner.Registration.Endpoint.Verify.{World, verify, Answered, verify-ours}
use credimi_runner.Config.{Config, bootstrap}
use credimi_runner.Edge.QuickUrl.{glue}
use credimi_runner.Registration.Endpoint.Laws.{BeforeDeadline, EndsAt, verify_loop-decides}

-- The name resolves for the fallback client at the second attempt.
abbrev requests : Requests
requests = record {
  normal = λ n. no_response true (message "no such host");
  fallback = λ n.
      if n == 0
      then no_response true (message "no such host")
      else answered 200 (some ("acme/lab", "boot-2"));
  at_deadline = λ n. n == 3;
}

ready_run : verify_loop "acme/lab" "boot-2" true requests 4 0 ≡ ready
unfolding verify_loop verify_attempt trim_space trim_left trim_right
ready_run = refl

verify_loop-decides_example :
    (k : ℕ) × (k ≤ 3)
    × BeforeDeadline "acme/lab" "boot-2" true requests 0 k
    × EndsAt "acme/lab" "boot-2" true requests k (verify_loop "acme/lab" "boot-2" true requests 4 0)
verify_loop-decides_example = verify_loop-decides "acme/lab" "boot-2" true requests 3 refl

abbrev lower : String → String
lower s = s

abbrev never_ip : String → Bool
never_ip s = false

hostnames :
    (is_try_cloudflare_hostname lower never_ip "a-b.trycloudflare.com." ≡ true)
    × (is_try_cloudflare_hostname lower never_ip "trycloudflare.com" ≡ false)
    × (is_try_cloudflare_hostname lower never_ip "-a.trycloudflare.com" ≡ false)
unfolding is_try_cloudflare_hostname trim_space trim_left trim_right has_prefix split_on
    without_suffix all_labels label_chars
hostnames = (refl, refl, refl)

abbrev parse : String → Result WebUrl
parse s = ok record {
  scheme = "https";
  host = "a-b.trycloudflare.com";
  hostname = "a-b.trycloudflare.com";
  port = "";
  path = "/";
  raw_path = "";
}

abbrev web : World
web = record {
  parse_url = parse;
  render = λ u. glue u.host u.path;
  to_lower = lower;
  is_ip = never_ip;
  requests = λ endpoint. requests;
  last_round = 3;
}

abbrev lab : Config
lab = record bootstrap { runner = record bootstrap.runner { id = "acme/lab" } }

abbrev public : String
public = "https://a-b.trycloudflare.com/"

verify-ours_example :
    (base_url lab.exposure public ≡ "")
    ⊎ ((str_eq "boot-2" "" ≡ false) × Answered web lab "boot-2" (base_url lab.exposure public))
unfolding verify base_url verification_url trim_slashes verify_loop verify_attempt
    is_try_cloudflare_hostname trim_space trim_left trim_right has_prefix split_on without_suffix
    all_labels label_chars bootstrap
verify-ours_example = verify-ours web lab "boot-2" (λ endpoint. refl) public refl
