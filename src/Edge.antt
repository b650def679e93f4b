-- ===== src/Edge.antt =====
-- The managed tunnel, internal/edge/cloudflared.go. `Start` gives each cloudflared process a
-- number; the fields of `cloudflaredProcess` are functions of that number. A function is one
-- critical section of the mutex, or one call outside it. `url.Parse` and the texts of the errors
-- of other code are parameters.
pub mod QuickUrl
pub mod Address
pub mod Redacted
pub mod Laws
pub mod Promises
pub mod Ending
pub mod Environment
mod Tests
use Prim.Native.String.{String}
use credimi_runner.Prelude.{
  ℕ, suc, ◌≤◌, Bool, true, false, ◌&&◌, not, ◌≡◌, ◌⊎◌, Option, none, some, List, [], ◌∷◌,
  if◌then◌else◌, ◌==◌, str_eq, str_append,
}
use credimi_runner.GoError.{GoError, message, wrap, Result, ok, err, or_else}
use credimi_runner.Process.{set_at}
use credimi_runner.Edge.QuickUrl.{quick_url, replace_all}
use credimi_runner.Edge.Address.{ParsedUrl, Options, tunnel_address}
use credimi_runner.Edge.Redacted.{redact_error_text, redact_error, format_exit_error}

-- The rest of `Cloudflared`, and of its processes.
pub record Tunnel : Type 0 where
  pub process : Option ℕ
  pub public_url : String
  -- what waits in `failures`
  pub failures : Option GoError
  -- the number of the latest process
  pub latest : ℕ
  pub exit_err : ℕ → Option GoError
  pub exited : ℕ → Bool
  pub expected_stop : ℕ → Bool
  pub started : ℕ → Bool
  -- `done` is closed
  pub closed : ℕ → Bool
  -- the `Start` of this process has not returned
  pub starting : ℕ → Bool
  -- what `waitProcess` has read and not reported yet
  pub unreported : ℕ → Bool
  -- `waitProcess` has done all but close `done`
  pub reported : ℕ → Bool
  -- the lines of output that have been read, the newest first, without the token
  pub printed : ℕ → List String
  -- what waits in `urlCh`, and what `Start` has received from it
  pub urls : ℕ → Option String
  pub received : ℕ → Option String

-- `NewCloudflared`
abbrev pub new_tunnel : Tunnel
new_tunnel = record {
  process = none;
  public_url = "";
  failures = none;
  latest = 0;
  exit_err = λ p. none;
  exited = λ p. false;
  expected_stop = λ p. false;
  started = λ p. false;
  closed = λ p. false;
  starting = λ p. false;
  unreported = λ p. false;
  reported = λ p. false;
  printed = λ p. [];
  urls = λ p. none;
  received = λ p. none;
}

-- What `Start` asks of the operating system: the error of its context, of the two pipes, and of
-- `cmd.Start`.
pub record Attempt : Type 0 where
  pub ctx_err : Option GoError
  pub pipes : Option GoError
  pub spawn : Option GoError

-- What the critical section of `Start` finds.
pub data StartOutcome : Type 0 where
  serving : String → StartOutcome
  refused : GoError → StartOutcome
  launched_as : ℕ → StartOutcome

-- `Running`
abbrev pub runs : Option ℕ → (ℕ → Bool) → Bool
runs none exited = false
runs (some p) exited = not (exited p)

unfoldable pub is_running : Tunnel → Bool
is_running t = runs t.process t.exited

abbrev launch : Tunnel → StartOutcome × Tunnel
launch t = (
  launched_as (suc t.latest),
  record t {
    process = some (suc t.latest);
    public_url = "";
    latest = suc t.latest;
    starting = set_at (suc t.latest) true t.starting;
  },
)

-- `e.process == p`
abbrev pub is_current : Option ℕ → ℕ → Bool
is_current none p = false
is_current (some q) p = q == p

-- The critical section of `waitProcess`.
unfoldable pub wait_locked : ℕ → Option GoError → Tunnel → Tunnel
wait_locked p e t =
    let current = is_current t.process p in
    record t {
      exit_err = set_at p e t.exit_err;
      exited = set_at p true t.exited;
      process = if current then none else t.process;
      public_url = if current then "" else t.public_url;
      unreported = set_at p (t.started p && not (t.expected_stop p)) t.unreported;
    }

-- `reportFailure`: what does not fit into the channel is dropped.
abbrev pub put_failure : GoError → Tunnel → Tunnel
put_failure e t = record t { failures = or_else t.failures (some e) }

-- `close(p.done)`
abbrev pub close_done : ℕ → Tunnel → Tunnel
close_done p t = record t { closed = set_at p true t.closed }

-- `Start` returns because the process is gone or its context is.
abbrev pub give_up : ℕ → Tunnel → Tunnel
give_up p t = record t { starting = set_at p false t.starting }

-- A monitor receives from `failures`.
abbrev pub receive_failure : Tunnel → Tunnel
receive_failure t = record t { failures = none }

abbrev pub captured : Option ℕ → Tunnel → Option ℕ × Tunnel
captured none t = (none, t)
captured (some p) t =
    if t.exited p
    then (none, t)
    else (some p, record t { expected_stop = set_at p true t.expected_stop })

-- The critical section of `Stop`: the process that it goes on to terminate.
unfoldable pub stop_locked : Tunnel → Option ℕ × Tunnel
stop_locked t = captured t.process t

-- The process has been started, and `waitProcess` has not seen its end.
abbrev pub Live : Tunnel → ℕ → Type 0
Live t p = (1 ≤ p) × (p ≤ t.latest) × (t.exited p ≡ false)

-- `redact`
unfoldable pub redact : String → String → String
unfolding replace_all
redact token line = if str_eq token "" then line else replace_all token "[REDACTED]" line

-- `consumeOutput` has read a line: it is redacted, and the first URL in it goes into `urlCh` unless
-- one waits there.
unfoldable pub consume : Options → ℕ → String → Tunnel → Tunnel
unfolding redact
consume o p text t =
    let line = redact o.token text in
    record t {
      printed = set_at p (line ∷ t.printed p) t.printed;
      urls = set_at p (or_else (t.urls p) (quick_url line)) t.urls;
    }

-- `Start` receives from `urlCh`.
unfoldable pub receive_url : ℕ → Tunnel → Tunnel
receive_url p t = record t {
  urls = set_at p none t.urls;
  received = set_at p (t.urls p) t.received;
}

-- Among the lines of this process that have been read is one in which the URL is the first.
abbrev pub Shows : String → List String → Type 0
Shows url [] = ⊥
Shows url (line ∷ lines) = (quick_url line ≡ some url) ⊎ Shows url lines

-- What a call of `Stop` meets after its critical section: the answers of the two signals, the
-- state in which each question is asked, and what a `select` takes that can take either.
pub record Stopping : Type 0 where
  -- an error that is not `os.ErrProcessDone`
  pub terminate : Option GoError
  pub kill : Option GoError
  pub at_terminate : Tunnel
  pub at_wait : Tunnel
  pub prefers_done : Bool
  pub at_kill : Tunnel
  pub at_end : Tunnel
  pub ctx_err : GoError

abbrev pub unless_done : Bool → GoError → Option GoError
unless_done gone e = if gone then none else some e

abbrev pub answered : Option GoError → Tunnel → StartOutcome × Tunnel
answered (some e) t = (refused e, t)
answered none t = launch t

-- `Start` when no process runs, with the address of its mode and the first error it meets.
abbrev pub spawned : Result (Option String) → Option GoError → Tunnel → StartOutcome × Tunnel
spawned (err e) o t = (refused e, t)
spawned (ok u) o t = answered o t

abbrev pub mark_reported : ℕ → Tunnel → Tunnel
mark_reported p t = record t {
  unreported = set_at p false t.unreported;
  reported = set_at p true t.reported;
}

module _ (parse_url : String → Result ParsedUrl) (error_text : GoError → String) where
  -- The critical section of `Start`.
  unfoldable pub start_locked : Options → Attempt → Tunnel → StartOutcome × Tunnel
  unfolding is_running tunnel_address redact_error
  start_locked o a t =
      if is_running t
      then (serving t.public_url, t)
      else spawned (tunnel_address parse_url o)
          (or_else a.ctx_err (or_else a.pipes (redact_error error_text o.token a.spawn))) t

  -- The error of a process that is gone when `Start` is to publish.
  abbrev pub too_late : Options → Option GoError → GoError
  unfolding format_exit_error redact_error_text
  too_late o e =
      if str_eq o.mode "named_tunnel"
      then format_exit_error error_text o.token "cloudflared named tunnel exited during startup" e
      else message (
          str_append "cloudflared exited before publishing quick tunnel URL: "
            (redact_error_text error_text o.token e))

  -- The last critical section of `Start`, after the grace time of a named tunnel or with the URL
  -- that a quick one has printed.
  unfoldable pub publish : Options → ℕ → String → Tunnel → Result String × Tunnel
  unfolding format_exit_error redact_error_text
  publish o p url t =
      let done = record t { starting = set_at p false t.starting } in
      if t.exited p
      then (err (too_late o (t.exit_err p)), done)
      else (ok url, record done { started = set_at p true t.started; public_url = url })

  -- The report of `waitProcess`.
  unfoldable pub report_exit : Options → ℕ → Tunnel → Tunnel
  unfolding format_exit_error
  report_exit o p t =
      let failed =
        put_failure
          (format_exit_error error_text o.token "cloudflared exited unexpectedly" (t.exit_err p))
          t in
      let reported = if t.unreported p then failed else t in mark_reported p reported

  -- The URL that `Start` has at hand for its process: of the named tunnel, or the one received.
  abbrev pub AtHand : Options → ℕ → String → Tunnel → Type 0
  AtHand o p url t =
      (tunnel_address parse_url o ≡ ok (some url))
      ⊎ ((tunnel_address parse_url o ≡ ok none) × (t.received p ≡ some url))

  -- One step of a caller, of a goroutine or of the operating system.
  pub data Step (o : Options) : Tunnel → Tunnel → Type 0 where
    start : (t : Tunnel) (a : Attempt) → Step o t (start_locked o a t).1
    publish_url :
        (t : Tunnel) (p : ℕ) (url : String)
        → t.starting p ≡ true
        → AtHand o p url t
        → Step o t (publish o p url t).1
    print :
        (t : Tunnel) (p : ℕ) (line : String)
        → (1 ≤ p) × (p ≤ t.latest)
        → Step o t (consume o p line t)
    hear : (t : Tunnel) (p : ℕ) → t.starting p ≡ true → Step o t (receive_url p t)
    abandon : (t : Tunnel) (p : ℕ) → Step o t (give_up p t)
    exit : (t : Tunnel) (p : ℕ) (e : Option GoError) → Live t p → Step o t (wait_locked p e t)
    report :
        (t : Tunnel) (p : ℕ)
        → t.exited p ≡ true
        → t.reported p ≡ false
        → Step o t (report_exit o p t)
    close : (t : Tunnel) (p : ℕ) → t.reported p ≡ true → Step o t (close_done p t)
    receive : (t : Tunnel) → Step o t (receive_failure t)
    stop : (t : Tunnel) → Step o t (stop_locked t).1

  -- The states that follow a state, and the ones that follow `NewCloudflared`.
  pub data Follows (o : Options) : Tunnel → Tunnel → Type 0 where
    here : (t : Tunnel) → Follows o t t
    then_to : (s t u : Tunnel) → Follows o s t → Step o t u → Follows o s u

  abbrev pub Reachable : Options → Tunnel → Type 0
  Reachable o t = Follows o new_tunnel t

  -- The rest of `Stop`: after the second signal, after the first, and before it.
  abbrev pub killed : Options → ℕ → Option GoError → Stopping → Option GoError
  unfolding redact_error_text
  killed o p (some e) s =
      unless_done (s.at_kill.closed p)
        (message (str_append "kill cloudflared: " (redact_error_text error_text o.token (some e))))
  killed o p none s =
      unless_done (s.at_end.closed p) (wrap "cloudflared did not exit after termination" s.ctx_err)

  abbrev pub terminated : Options → ℕ → Option GoError → Stopping → Option GoError
  unfolding redact_error_text
  terminated o p (some e) s = unless_done (s.at_terminate.closed p) (
      message
        (str_append "terminate cloudflared: " (redact_error_text error_text o.token (some e))))
  terminated o p none s = if s.prefers_done && s.at_wait.closed p then none else killed o p s.kill s

  abbrev pub stop_found : Options → Option ℕ → Stopping → Option GoError
  unfolding redact_error_text
  stop_found o none s = none
  stop_found o (some p) s = terminated o p s.terminate s

  -- `Stop`
  unfoldable pub stop_call : Options → Tunnel → Stopping → Option GoError
  unfolding stop_locked redact_error_text
  stop_call o t s = stop_found o (stop_locked t).0 s
