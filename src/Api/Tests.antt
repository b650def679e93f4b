-- ===== src/Api/Tests.antt =====
-- The server of the execution API at concrete runs.
use credimi_runner.Prelude.{false, ◌≡◌, ◌≢◌, refl, none, some}
use credimi_runner.GoError.{message, canceled}
use credimi_runner.Api.{
  HttpApi, new_http_api, start_api, is_listening, serve_step, request_shutdown, Closing,
  shutdown_call, start, serve_returns, serve, Follows, here, then_to, Reachable, returned,
}
use credimi_runner.Api.Laws.{shutdown_call-closes}
use credimi_runner.Api.Reports.{Reports, serve-Reports}

abbrev running : HttpApi
running = (start_api new_http_api).1

abbrev failed : HttpApi
failed = record running { stage = returned (some (message "accept failed")) }

abbrev told : HttpApi
told = serve_step (serve_step failed)

running-Reachable : Reachable running
running-Reachable = then_to _ _ _ (here new_http_api) (start new_http_api)

failed-Reachable : Reachable failed
unfolding start_api
failed-Reachable =
    then_to _ _ _ running-Reachable (serve_returns running (some (message "accept failed")) refl)

told_failure : (serve_step told).failures ≢ none
unfolding serve_step start_api
told_failure = λ e. cc

serve-Reports_example : Reports failed.shutdown_requested told (serve_step told)
unfolding serve_step start_api
serve-Reports_example =
    serve-Reports failed told false (some (message "accept failed"))
      (some (message "accept failed")) failed-Reachable refl
      (then_to _ _ _ (here (serve_step failed)) (serve (serve_step failed))) refl

-- A shutdown while the server runs.
abbrev asked : HttpApi
asked = request_shutdown running

abbrev left : HttpApi
left = serve_step (serve_step (record asked { stage = returned (some (message "closed")) }))

left-Follows : Follows asked left
unfolding serve_step start_api
left-Follows =
    then_to _ _ _
      (then_to _ _ _
        (then_to _ _ _ (here asked) (serve_returns asked (some (message "closed")) refl))
        (serve (record asked { stage = returned (some (message "closed")) })))
      (serve (serve_step (record asked { stage = returned (some (message "closed")) })))

abbrev closing : Closing
closing = record {
  listener_error = none;
  listener_was_closed = false;
  server_error = none;
  at_wait = left;
  prefers_context = false;
  ctx_err = canceled;
}

shutdown_call-closes_example : (is_listening left ≡ false) × ((start_api left).0 ≢ none)
unfolding serve_step start_api shutdown_call
shutdown_call-closes_example =
    shutdown_call-closes running left closing running-Reachable left-Follows refl (here left)
