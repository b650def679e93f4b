-- ===== src/Edge/Tests.antt =====
-- The managed tunnel at a concrete run: a quick tunnel starts, publishes its URL, dies unasked, and
-- is started again and stopped.
use Prim.Native.String.{String}
use credimi_runner.Prelude.{true, false, ◌&&◌, not, ◌≡◌, ◌≢◌, inr, refl, none, some, arith, [], ◌∷◌}
use credimi_runner.GoError.{GoError, Result, ok, canceled}
use credimi_runner.Strings.{has_prefix}
use credimi_runner.Edge.{
  Tunnel, new_tunnel, Attempt, is_running, start_locked, publish, wait_locked, report_exit,
  close_done, stop_locked, start, publish_url, consume, receive_url, redact, print, hear, exit,
  report, close, Follows, here, then_to, Reachable, Stopping, stop_call,
}
use credimi_runner.Edge.Address.{ParsedUrl, Options, tunnel_address}
use credimi_runner.Edge.Redacted.{redact_error, redact_error_text, format_exit_error}
use credimi_runner.Edge.QuickUrl.{quick_url, take_host, match_here, skip, replace_all, replace_from}
use credimi_runner.Edge.QuickUrl.Laws.{IsQuickUrl, Occurs, quick_url-finds}
use credimi_runner.Edge.Environment.{cloudflared_env, key_of}
use credimi_runner.Edge.Laws.{IsTunnel, Reachable-IsTunnel}
use credimi_runner.Edge.Promises.{exit-reported}
use credimi_runner.Edge.Ending.{stop_call-ends}

abbrev parse_url : String → Result ParsedUrl
parse_url s = ok record { scheme = "https"; host = "runner.example"; text = s }

abbrev error_text : GoError → String
error_text e = "exit status 1: bad token s3cret"

abbrev quick : Options
quick = record { mode = "quick_tunnel"; token = "s3cret"; domain = "" }

abbrev line : String
line = "INF |  https://a-b.trycloudflare.com  |"

abbrev url : String
url = "https://a-b.trycloudflare.com"

line_url : quick_url line ≡ some url
unfolding quick_url match_here take_host skip has_prefix
line_url = refl

no_url : quick_url "see https://trycloudflare.com/docs" ≡ none
unfolding quick_url match_here take_host skip has_prefix
no_url = refl

redacted_text :
    redact_error_text error_text "s3cret" (some canceled) ≡ "exit status 1: bad token [REDACTED]"
unfolding redact_error_text replace_all replace_from has_prefix skip
redacted_text = refl

quick_url-finds_example :
    ((u : String) → quick_url line ≡ some u → IsQuickUrl u × Occurs u line)
    × ((u : String) → IsQuickUrl u → Occurs u line → quick_url line ≢ none)
quick_url-finds_example = quick_url-finds line

abbrev fine : Attempt
fine = record { ctx_err = none; pipes = none; spawn = none }

abbrev launched : Tunnel
launched = (start_locked parse_url error_text quick fine new_tunnel).1

-- It prints a line with its token and one with its URL, and `Start` receives that.
abbrev logged : Tunnel
logged = consume quick 1 "INF token s3cret" launched

abbrev url_received : Tunnel
url_received = receive_url 1 (consume quick 1 line logged)

abbrev serving_url : Tunnel
serving_url = (publish parse_url error_text quick 1 url url_received).1

abbrev dead : Tunnel
dead = wait_locked 1 none serving_url

launched-Reachable : Reachable parse_url error_text quick launched
launched-Reachable = then_to _ _ _ (here new_tunnel) (start new_tunnel fine)

url_received-Reachable : Reachable parse_url error_text quick url_received
unfolding start_locked is_running tunnel_address redact_error consume receive_url redact quick_url
    match_here take_host skip has_prefix replace_all replace_from
url_received-Reachable =
    then_to _ (consume quick 1 line logged) _
      (then_to _ logged _
        (then_to _ launched _ launched-Reachable
          (print launched 1 "INF token s3cret" (omega arith, omega arith)))
        (print logged 1 line (omega arith, omega arith)))
      (hear (consume quick 1 line logged) 1 refl)

serving-Reachable : Reachable parse_url error_text quick serving_url
unfolding start_locked is_running tunnel_address redact_error consume receive_url redact quick_url
    match_here take_host skip has_prefix replace_all replace_from
serving-Reachable =
    then_to _ url_received _ url_received-Reachable
      (publish_url url_received 1 url refl (inr (refl, refl)))

Reachable-IsTunnel_example : IsTunnel parse_url error_text quick serving_url
Reachable-IsTunnel_example =
    Reachable-IsTunnel parse_url error_text quick serving_url serving-Reachable

exit-reported_example :
    (dead.process ≡ none)
    × (dead.public_url ≡ "")
    × (serving_url.started 1 && not (serving_url.expected_stop 1) ≡ true
        → (report_exit parse_url error_text quick 1 dead).failures ≢ none)
    × (serving_url.started 1 && not (serving_url.expected_stop 1) ≡ false
        → (report_exit parse_url error_text quick 1 dead).failures ≡ dead.failures)
unfolding start_locked is_running tunnel_address redact_error consume receive_url publish
    format_exit_error redact_error_text wait_locked
exit-reported_example =
    exit-reported parse_url error_text quick serving_url dead 1 none serving-Reachable
      (omega arith, omega arith, refl) (here dead) refl

-- The tunnel is stopped: the process ends after the first signal.
abbrev asked : Tunnel
asked = (stop_locked serving_url).1

abbrev ended : Tunnel
ended = close_done 1 (report_exit parse_url error_text quick 1 (wait_locked 1 none asked))

abbrev stopping : Stopping
stopping = record {
  terminate = none;
  kill = none;
  at_terminate = asked;
  at_wait = ended;
  prefers_done = true;
  at_kill = ended;
  at_end = ended;
  ctx_err = canceled;
}

ended-Follows : Follows parse_url error_text quick asked ended
unfolding start_locked is_running tunnel_address redact_error consume receive_url publish
    format_exit_error redact_error_text wait_locked stop_locked report_exit
ended-Follows =
    then_to asked _ ended
      (then_to asked _ _
        (then_to asked asked _ (here asked) (exit asked 1 none (omega arith, omega arith, refl)))
        (report (wait_locked 1 none asked) 1 refl refl))
      (close (report_exit parse_url error_text quick 1 (wait_locked 1 none asked)) 1 refl)

stop_call-ends_example : (ended.exited 1 ≡ true) × (ended.process ≡ some 1 → ⊥)
unfolding start_locked is_running tunnel_address redact_error consume receive_url publish
    format_exit_error redact_error_text wait_locked stop_locked report_exit stop_call
stop_call-ends_example =
    stop_call-ends parse_url error_text quick serving_url stopping 1 serving-Reachable (here asked)
      ended-Follows (here ended) (here ended) refl refl

env_test :
    cloudflared_env true "t" ("HOME=/" ∷ "TUNNEL_TOKEN=old" ∷ []) ≡ "HOME=/" ∷ "TUNNEL_TOKEN=t" ∷ []
unfolding cloudflared_env key_of
env_test = refl
