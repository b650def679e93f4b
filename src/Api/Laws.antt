-- ===== src/Api/Laws.antt =====
-- What holds of the server of the execution API in every order of its steps.
use credimi_runner.Prelude.{
  by_test, Bool, true, false, ◌&&◌, not, ◌≡◌, ◌≢◌, ◌⊎◌, inl, inr, refl, sym, ap, ◌∙◌, Option, none,
  some, arith,
}
use credimi_runner.GoError.{GoError}
use credimi_runner.Api.{
  Stage, absent, serving, over, returned, judged, announced, HttpApi, new_http_api, start_api,
  is_listening, serve_on, serve_step, request_shutdown, Closing, drained, shutdown_call, Step,
  start, serve_returns, serve, shutdown, receive, Follows, here, then_to, Reachable,
}

-- The goroutine has begun, and has closed `serveDone`.
abbrev pub has_begun : Stage → Bool
has_begun absent = false
has_begun _ = true

abbrev has_announced : Stage → Bool
has_announced (announced expected e) = true
has_announced over = true
has_announced absent = false
has_announced serving = false
has_announced (returned e) = false
has_announced (judged expected e) = false

-- The invariant of the server: its marks tell where its goroutine stands.
pub record IsServer (a : HttpApi) : Type 0 where
  pub begun : a.started ≡ has_begun a.stage
  pub told : a.serve_done ≡ has_announced a.stage

not_begun : (s : Stage) → has_begun s ≡ false → has_announced s ≡ false
not_begun absent h = refl
not_begun serving h = refl
not_begun over h = cc
not_begun (returned e) h = refl
not_begun (judged expected e) h = refl
not_begun (announced expected e) h = cc

start-IsServer : (a : HttpApi) → IsServer a → IsServer (start_api a).1
unfolding start_api
start-IsServer a v =
    let P = λ (r : Option GoError × HttpApi). IsServer r.1 in
    by_test P a.shutdown_requested _ _ (λ s. v)
      (λ s.
        by_test P a.started _ _ (λ b. v)
          (λ b.
            let served : IsServer (record a { started = true; stage = serving }) = record {
              begun = refl;
              told = v.told ∙ not_begun a.stage (sym v.begun ∙ b);
            } in
            served))

serve_on-IsServer : (s : Stage) (a : HttpApi) → s ≡ a.stage → IsServer a → IsServer (serve_on s a)
serve_on-IsServer (returned e) a h v = record {
  begun = v.begun ∙ ap has_begun (sym h);
  told = v.told ∙ ap has_announced (sym h);
}
serve_on-IsServer (judged expected e) a h v = record {
  begun = v.begun ∙ ap has_begun (sym h);
  told = refl;
}
serve_on-IsServer (announced true e) a h v = record {
  begun = v.begun ∙ ap has_begun (sym h);
  told = v.told ∙ ap has_announced (sym h);
}
serve_on-IsServer (announced false e) a h v = record {
  begun = v.begun ∙ ap has_begun (sym h);
  told = v.told ∙ ap has_announced (sym h);
}
serve_on-IsServer absent a h v = v
serve_on-IsServer serving a h v = v
serve_on-IsServer over a h v = v

pub Step-IsServer : (a b : HttpApi) → Step a b → IsServer a → IsServer b
unfolding serve_step
Step-IsServer _ _ (start a) v = start-IsServer a v
Step-IsServer _ _ (serve_returns a e h) v = record {
  begun = v.begun ∙ ap has_begun h;
  told = v.told ∙ ap has_announced h;
}
Step-IsServer _ _ (serve a) v = serve_on-IsServer a.stage a refl v
Step-IsServer _ _ (shutdown a) v = record { begun = v.begun; told = v.told }
Step-IsServer _ _ (receive a) v = record { begun = v.begun; told = v.told }

pub Follows-IsServer : (a b : HttpApi) → Follows a b → IsServer a → IsServer b
Follows-IsServer _ _ (here a) v = v
Follows-IsServer _ _ (then_to a b c f s) v = Step-IsServer b c s (Follows-IsServer a b f v)

pub Reachable-IsServer : (a : HttpApi) → Reachable a → IsServer a
Reachable-IsServer a r = Follows-IsServer new_http_api a r (record { begun = refl; told = refl })

-- The server does not listen and never will.
abbrev Shut : HttpApi → Type 0
Shut a = ((a.started ≡ false) × (a.shutdown_requested ≡ true)) ⊎ (a.serve_done ≡ true)

start-Shut : (a : HttpApi) → Shut a → Shut (start_api a).1
unfolding start_api
start-Shut a h =
    let P = λ (r : Option GoError × HttpApi). Shut r.1 in
    by_test P a.shutdown_requested _ _ (λ s. h)
      (λ s. by_test P a.started _ _ (λ b. h) (λ b. elim h [ inl k ↦ cc | inr k ↦ inr k ]))

serve_on-Shut : (s : Stage) (a : HttpApi) → Shut a → Shut (serve_on s a)
serve_on-Shut (returned e) a h = h
serve_on-Shut (judged expected e) a h = inr refl
serve_on-Shut (announced true e) a h = h
serve_on-Shut (announced false e) a h = h
serve_on-Shut absent a h = h
serve_on-Shut serving a h = h
serve_on-Shut over a h = h

Step-Shut : (a b : HttpApi) → Step a b → Shut a → Shut b
unfolding serve_step
Step-Shut _ _ (start a) h = start-Shut a h
Step-Shut _ _ (serve_returns a e k) h = h
Step-Shut _ _ (serve a) h = serve_on-Shut a.stage a h
Step-Shut _ _ (shutdown a) h = elim h [ inl k ↦ inl (k.0, refl) | inr k ↦ inr k ]
Step-Shut _ _ (receive a) h = h

Follows-Shut : (a b : HttpApi) → Follows a b → Shut a → Shut b
Follows-Shut _ _ (here a) h = h
Follows-Shut _ _ (then_to a b c f s) h = Step-Shut b c s (Follows-Shut a b f h)

Shut-not_listening : (a : HttpApi) → Shut a → is_listening a ≡ false
unfolding is_listening
Shut-not_listening a h = elim h [ inl k ↦ ground (arith, k) | inr k ↦ ground (arith, k) ]

-- What a server that is asked to start answers when it does not listen.
Shut-refuses : (a : HttpApi) → IsServer a → Shut a → (start_api a).0 ≢ none
unfolding start_api
Shut-refuses a v h =
    let P = λ (r : Option GoError × HttpApi). r.0 ≢ none in
    by_test P a.shutdown_requested _ _ (λ s e. cc)
      (λ s.
        by_test P a.started _ _
          (λ b.
            by_test (λ (r : Option GoError). r ≢ none) a.serve_done _ _ (λ d e. cc)
              (λ d e. still_open b d))
          (λ b e. not_shut s b))
  where
    still_open : a.started ≡ true → a.serve_done ≡ false → ⊥
    still_open b d = elim h [ inl k ↦ cc | inr k ↦ cc ]

    not_shut : a.shutdown_requested ≡ false → a.started ≡ false → ⊥
    not_shut s b =
        let untold = v.told ∙ not_begun a.stage (sym v.begun ∙ b) in
        elim h [ inl k ↦ cc | inr k ↦ cc ]

drained-closed :
    (e : Option GoError) (c : Closing) → drained e c ≡ none → c.at_wait.serve_done ≡ true
drained-closed (some e) c h = cc
drained-closed none c h =
    by_test (λ r. r ≡ none → c.at_wait.serve_done ≡ true)
      (c.at_wait.serve_done && not c.prefers_context) _ _ (λ d k. ground (arith, d)) (λ d k. cc) h

-- `Shutdown` returns nil: from then on, whatever happens, the API does not listen, and every
-- `Start` is refused.
pub shutdown_call-closes :
    (a b : HttpApi) (c : Closing)
    → Reachable a
    → Follows (request_shutdown a) c.at_wait
    → shutdown_call a c ≡ none
    → Follows c.at_wait b
    → (is_listening b ≡ false) × ((start_api b).0 ≢ none)
unfolding shutdown_call
shutdown_call-closes a b c r f h g =
    let u : IsServer (request_shutdown a) =
      Step-IsServer a (request_shutdown a) (shutdown a) (Reachable-IsServer a r) in
    let v = Follows-IsServer c.at_wait b g (Follows-IsServer (request_shutdown a) c.at_wait f u) in
    let waited : Shut c.at_wait =
      by_test (λ r. r ≡ none → Shut c.at_wait) a.started _ _
        (λ s k. inr (drained-closed c.server_error c k))
        (λ s k. Follows-Shut (request_shutdown a) c.at_wait f (inl (s, refl))) h in
    let shut = Follows-Shut c.at_wait b g waited in
    (Shut-not_listening b shut, Shut-refuses b v shut)
