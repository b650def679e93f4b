-- ===== src/Api/Reports.antt =====
-- What the goroutine `serve` of the execution API reports when the server has ended.
use credimi_runner.Prelude.{
  by_test, Bool, true, false, ◌≡◌, ◌≢◌, refl, sym, subst, ◌∙◌, Option, none,
}
use credimi_runner.GoError.{GoError}
use credimi_runner.GoError.Laws.{or_else-some}
use credimi_runner.Api.{
  Stage, absent, serving, over, returned, judged, announced, HttpApi, start_api, serve_error,
  serve_on, serve_step, start, serve_returns, serve, shutdown, receive, Follows, here, then_to,
  Reachable,
}
use credimi_runner.Api.Laws.{
  has_begun, IsServer, Step-IsServer, Follows-IsServer, Reachable-IsServer,
}

-- What `serve` has read decides, whatever happens before it reports.
abbrev IsVerdict : Bool → Option GoError → Stage → Type 0
IsVerdict x e (judged y f) = (y ≡ x) × (f ≡ e)
IsVerdict x e (announced y f) = (y ≡ x) × (f ≡ e)
IsVerdict x e over = Unit
IsVerdict x e absent = ⊥
IsVerdict x e serving = ⊥
IsVerdict x e (returned f) = ⊥

serve_on-IsVerdict :
    (x : Bool) (e : Option GoError) (s : Stage) (a : HttpApi)
    → s ≡ a.stage
    → IsVerdict x e s
    → IsVerdict x e (serve_on s a).stage
serve_on-IsVerdict x e (judged y f) a h v = v
serve_on-IsVerdict x e (announced y f) a h v = tt
serve_on-IsVerdict x e over a h v = subst (IsVerdict x e) h tt
serve_on-IsVerdict x e absent a h v = absurd v
serve_on-IsVerdict x e serving a h v = absurd v
serve_on-IsVerdict x e (returned f) a h v = absurd v

start-IsVerdict :
    (x : Bool) (e : Option GoError) (a : HttpApi)
    → IsServer a
    → IsVerdict x e a.stage
    → IsVerdict x e (start_api a).1.stage
unfolding start_api
start-IsVerdict x e a v h =
    let P = λ (r : Option GoError × HttpApi). IsVerdict x e r.1.stage in
    by_test P a.shutdown_requested _ _ (λ s. h)
      (λ s.
        by_test P a.started _ _ (λ b. h) (λ b. absurd (verdict_begun a.stage (sym v.begun ∙ b) h)))
  where
    verdict_begun : (s : Stage) → has_begun s ≡ false → IsVerdict x e s → ⊥
    verdict_begun absent b h = h
    verdict_begun serving b h = h
    verdict_begun over b h = cc
    verdict_begun (returned f) b h = h
    verdict_begun (judged y f) b h = cc
    verdict_begun (announced y f) b h = cc

Follows-IsVerdict :
    (x : Bool) (e : Option GoError) (a b : HttpApi)
    → Follows a b
    → IsServer a
    → IsVerdict x e a.stage
    → IsVerdict x e b.stage
unfolding serve_step
Follows-IsVerdict x e _ _ (here a) v h = h
Follows-IsVerdict x e _ _ (then_to a _ _ f (start b)) v h =
    start-IsVerdict x e b (Follows-IsServer a b f v) (Follows-IsVerdict x e a b f v h)
Follows-IsVerdict x e _ _ (then_to a _ _ f (serve_returns b g k)) v h =
    absurd (subst (IsVerdict x e) k (Follows-IsVerdict x e a b f v h))
Follows-IsVerdict x e _ _ (then_to a _ _ f (serve b)) v h =
    serve_on-IsVerdict x e b.stage b refl (Follows-IsVerdict x e a b f v h)
Follows-IsVerdict x e _ _ (then_to a _ _ f (shutdown b)) v h = Follows-IsVerdict x e a b f v h
Follows-IsVerdict x e _ _ (then_to a _ _ f (receive b)) v h = Follows-IsVerdict x e a b f v h

-- What `serve` does at its end.
abbrev pub Reports : Bool → HttpApi → HttpApi → Type 0
Reports expected b c =
    (expected ≡ true → c.failures ≡ b.failures) × (expected ≡ false → c.failures ≢ none)

announced-Reports :
    (x y : Bool) (e : Option GoError) (b : HttpApi)
    → y ≡ x
    → Reports x b (serve_on (announced y e) b)
announced-Reports x true e b v = (λ k. refl, λ k. cc)
announced-Reports x false e b v = (λ k. cc, λ k. or_else-some b.failures (serve_error e))

-- When `Serve` has returned and a shutdown had been requested by the time `serve` looks, nothing
-- is reported, whatever the error; otherwise a failure waits in the channel once `serve` has
-- reported, whatever happens in between.
pub serve-Reports :
    (a b : HttpApi) (y : Bool) (e f : Option GoError)
    → Reachable a
    → a.stage ≡ returned e
    → Follows (serve_step a) b
    → b.stage ≡ announced y f
    → Reports a.shutdown_requested b (serve_step b)
unfolding serve_step
serve-Reports a b y e f r h g k =
    let v = Step-IsServer a (serve_step a) (serve a) (Reachable-IsServer a r) in
    let first : IsVerdict a.shutdown_requested e (serve_on a.stage a).stage =
      subst (λ s. IsVerdict a.shutdown_requested e (serve_on s a).stage) (sym h) (refl, refl) in
    let verdict : IsVerdict a.shutdown_requested e b.stage =
      Follows-IsVerdict a.shutdown_requested e (serve_step a) b g v first in
    let same : y ≡ a.shutdown_requested = (subst (IsVerdict a.shutdown_requested e) k verdict).0 in
    subst (λ s. Reports a.shutdown_requested b (serve_on s b)) (sym k)
      (announced-Reports a.shutdown_requested y f b same)
