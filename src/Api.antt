-- ===== src/Api.antt =====
-- The server of the execution API of a generation, `HTTPAPI` of
-- internal/runtimesupervisor/http_api.go. A function is one critical section of the mutex, or one
-- call outside it. `http.Server` and the listener are the world's: what they return is an argument.
pub mod Laws
pub mod Reports
mod Tests
use credimi_runner.Prelude.{Bool, true, false, ◌&&◌, not, ◌≡◌, Option, none, some, if◌then◌else◌}
use credimi_runner.GoError.{GoError, message, wrap, or_else}

-- Where the goroutine `serve` stands: not started, in `Serve`, after it with its error, after its
-- critical section with what it read, after it has closed `serveDone`, and at its end.
pub data Stage : Type 0 where
  absent serving over : Stage
  returned : Option GoError → Stage
  judged : Bool → Option GoError → Stage
  announced : Bool → Option GoError → Stage

-- `HTTPAPI`
pub record HttpApi : Type 0 where
  pub started : Bool
  pub shutdown_requested : Bool
  -- `serveDone` is closed
  pub serve_done : Bool
  -- what waits in `failures`
  pub failures : Option GoError
  pub stage : Stage

-- `newHTTPAPI`
abbrev pub new_http_api : HttpApi
new_http_api = record {
  started = false;
  shutdown_requested = false;
  serve_done = false;
  failures = none;
  stage = absent;
}

-- `Start`
unfoldable pub start_api : HttpApi → Option GoError × HttpApi
start_api a =
    if a.shutdown_requested
    then (some (message "execution API shutdown has already started"), a)
    else if a.started
    then (if a.serve_done then some (message "execution API has already stopped") else none, a)
    else (none, record a { started = true; stage = serving })

-- `Listening`
unfoldable pub is_listening : HttpApi → Bool
is_listening a = a.started && not a.serve_done

-- `reportFailure`: what does not fit into the channel is dropped.
abbrev pub put : GoError → HttpApi → HttpApi
put e a = record a { failures = or_else a.failures (some e) }

-- The error that `serve` reports.
abbrev pub serve_error : Option GoError → GoError
serve_error none = message "execution API exited unexpectedly"
serve_error (some e) = wrap "execution API serve failed" e

-- The statements of `serve`, after `Serve` has returned.
abbrev pub serve_on : Stage → HttpApi → HttpApi
serve_on (returned e) a = record a { stage = judged a.shutdown_requested e }
serve_on (judged expected e) a = record a { serve_done = true; stage = announced expected e }
serve_on (announced expected e) a = record (if expected then a else put (serve_error e) a) {
  stage = over;
}
serve_on absent a = a
serve_on serving a = a
serve_on over a = a

unfoldable pub serve_step : HttpApi → HttpApi
serve_step a = serve_on a.stage a

-- The critical section of `Shutdown`.
abbrev pub request_shutdown : HttpApi → HttpApi
request_shutdown a = record a { shutdown_requested = true }

-- What a call of `Shutdown` meets after its critical section: whether closing the listener fails,
-- and with `net.ErrClosed`; the error of `Server.Shutdown`; the state in which the last `select`
-- is left, whether it leaves by the context if it can leave by both, and the error of the context.
pub record Closing : Type 0 where
  pub listener_error : Option GoError
  pub listener_was_closed : Bool
  pub server_error : Option GoError
  pub at_wait : HttpApi
  pub prefers_context : Bool
  pub ctx_err : GoError

abbrev pub unless_closed : Bool → Option GoError → Option GoError
unless_closed closed e = if closed then none else e

-- `Shutdown`, called in this state.
abbrev pub drained : Option GoError → Closing → Option GoError
drained (some e) c = some e
drained none c = if c.at_wait.serve_done && not c.prefers_context then none else some c.ctx_err

unfoldable pub shutdown_call : HttpApi → Closing → Option GoError
shutdown_call a c =
    if a.started
    then drained c.server_error c
    else unless_closed c.listener_was_closed c.listener_error

-- One step of a caller or of the goroutine.
pub data Step : HttpApi → HttpApi → Type 0 where
  start : (a : HttpApi) → Step a (start_api a).1
  serve_returns :
      (a : HttpApi) (e : Option GoError)
      → a.stage ≡ serving
      → Step a (record a { stage = returned e })
  serve : (a : HttpApi) → Step a (serve_step a)
  shutdown : (a : HttpApi) → Step a (request_shutdown a)
  receive : (a : HttpApi) → Step a (record a { failures = none })

pub data Follows : HttpApi → HttpApi → Type 0 where
  here : (a : HttpApi) → Follows a a
  then_to : (a b c : HttpApi) → Follows a b → Step b c → Follows a c

abbrev pub Reachable : HttpApi → Type 0
Reachable a = Follows new_http_api a
