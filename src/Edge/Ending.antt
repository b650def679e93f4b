-- ===== src/Edge/Ending.antt =====
-- What `Stop` of a managed tunnel promises: internal/edge/cloudflared.go.
use Prim.Native.String.{String}
use credimi_runner.Prelude.{
  by_test, ℕ, Bool, true, false, ◌≡◌, ◌⊎◌, inl, inr, refl, sym, ap, ◌∙◌, Option, none, some, arith,
  ◌&&◌,
}
use credimi_runner.GoError.{GoError, Result, ok, err}
use credimi_runner.Edge.{
  Tunnel, StartOutcome, captured, spawned, is_running, start_locked, publish, wait_locked,
  report_exit, mark_reported, stop_locked, Step, start, publish_url, print, hear, consume,
  receive_url, abandon, exit, report, close, receive, stop, Follows, here, then_to, Reachable,
  Stopping, unless_done, killed, terminated, stop_found, stop_call,
}
use credimi_runner.Edge.Address.{ParsedUrl, Options}
use credimi_runner.Edge.Redacted.{redact_error_text}
use credimi_runner.Edge.Laws.{Reachable-IsTunnel}

module _ (parse_url : String → Result ParsedUrl) (error_text : GoError → String) (o : Options) where
  pub Follows-trans :
      (s t u : Tunnel)
      → Follows parse_url error_text o s t
      → Follows parse_url error_text o t u
      → Follows parse_url error_text o s u
  Follows-trans s t _ f (here u) = f
  Follows-trans s _ _ f (then_to t u w g k) = then_to s u w (Follows-trans s t u f g) k

  spawned-exited :
      (p : ℕ) (a : Result (Option String)) (e : Option GoError) (t : Tunnel)
      → t.exited p ≡ true
      → (spawned a e t).1.exited p ≡ true
  spawned-exited p (err e) f t d = d
  spawned-exited p (ok u) (some e) t d = d
  spawned-exited p (ok u) none t d = d

  captured-exited :
      (p : ℕ) (q : Option ℕ) (t : Tunnel) → t.exited p ≡ true → (captured q t).1.exited p ≡ true
  captured-exited p none t d = d
  captured-exited p (some q) t d =
      by_test (λ (r : Option ℕ × Tunnel). r.1.exited p ≡ true) (t.exited q) _ _ (λ e. d) (λ e. d)

  Step-exited :
      (p : ℕ) (t u : Tunnel)
      → Step parse_url error_text o t u
      → t.exited p ≡ true
      → u.exited p ≡ true
  unfolding start_locked publish stop_locked wait_locked report_exit consume receive_url
  Step-exited p _ _ (start t a) d =
      by_test (λ (r : StartOutcome × Tunnel). r.1.exited p ≡ true) (is_running t) _ _ (λ r. d)
        (λ r. spawned-exited p _ _ t d)
  Step-exited p _ _ (publish_url t q url s a) d =
      by_test (λ (r : Result String × Tunnel). r.1.exited p ≡ true) (t.exited q) _ _ (λ r. d)
        (λ r. d)
  Step-exited p _ _ (print t q line l) d = d
  Step-exited p _ _ (hear t q s) d = d
  Step-exited p _ _ (abandon t q) d = d
  Step-exited p _ _ (exit t q e l) d = ground (arith, d)
  Step-exited p _ _ (report t q e n) d =
      by_test (λ u. (mark_reported q u).exited p ≡ true) (t.unreported q) _ _ (λ r. d) (λ r. d)
  Step-exited p _ _ (close t q r) d = d
  Step-exited p _ _ (receive t) d = d
  Step-exited p _ _ (stop t) d = captured-exited p t.process t d

  Follows-exited :
      (p : ℕ) (s t : Tunnel)
      → Follows parse_url error_text o s t
      → s.exited p ≡ true
      → t.exited p ≡ true
  Follows-exited p _ _ (here t) d = d
  Follows-exited p _ _ (then_to s t u f k) d = Step-exited p t u k (Follows-exited p s t f d)

  abbrev or_zero : Option ℕ → ℕ
  or_zero none = 0
  or_zero (some n) = n

  -- Some `select` of `Stop` has found `done` closed.
  abbrev SeenClosed : ℕ → Stopping → Type 0
  SeenClosed p s =
      (s.at_terminate.closed p ≡ true)
      ⊎ ((s.at_wait.closed p ≡ true) ⊎ ((s.at_kill.closed p ≡ true) ⊎ (s.at_end.closed p ≡ true)))

  unless_done-closed : (b : Bool) (e : GoError) → unless_done b e ≡ none → b ≡ true
  unless_done-closed true e h = refl
  unless_done-closed false e h = cc

  captured-found :
      (q : Option ℕ) (t : Tunnel) (p : ℕ)
      → q ≡ some p
      → t.exited p ≡ false
      → (captured q t).0 ≡ some p
  captured-found none t p h e = cc
  captured-found (some r) t p h e = ground (arith, ap (or_zero) h)

  killed-closed :
      (p : ℕ) (k : Option GoError) (s : Stopping)
      → killed parse_url error_text o p k s ≡ none
      → SeenClosed p s
  unfolding redact_error_text
  killed-closed p (some e) s h = inr (inr (inl (unless_done-closed _ _ h)))
  killed-closed p none s h = inr (inr (inr (unless_done-closed _ _ h)))

  terminated-closed :
      (p : ℕ) (k : Option GoError) (s : Stopping)
      → terminated parse_url error_text o p k s ≡ none
      → SeenClosed p s
  unfolding redact_error_text
  terminated-closed p (some e) s h = inl (unless_done-closed _ _ h)
  terminated-closed p none s h =
      by_test (λ r. r ≡ none → SeenClosed p s) (s.prefers_done && s.at_wait.closed p) _ _
        (λ b k. inr (inl (ground (arith, b)))) (λ b k. killed-closed p s.kill s k) h

  -- A process whose `done` is closed in a reachable state has ended in every later one.
  closed-exited :
      (p : ℕ) (t u : Tunnel)
      → Reachable parse_url error_text o t
      → Follows parse_url error_text o t u
      → t.closed p ≡ true
      → u.exited p ≡ true
  closed-exited p t u r f c =
      let v = Reachable-IsTunnel parse_url error_text o t r in
      Follows-exited p t u f (v.gone p (v.ended p c))

  -- `Stop` returns nil: the process that the tunnel held has ended and is held no more, whatever
  -- the signals, the context and the order of events were.
  pub stop_call-ends :
      (t : Tunnel) (s : Stopping) (p : ℕ)
      → Reachable parse_url error_text o t
      → Follows parse_url error_text o (stop_locked t).1 s.at_terminate
      → Follows parse_url error_text o s.at_terminate s.at_wait
      → Follows parse_url error_text o s.at_wait s.at_kill
      → Follows parse_url error_text o s.at_kill s.at_end
      → stop_call parse_url error_text o t s ≡ none
      → t.process ≡ some p
      → (s.at_end.exited p ≡ true) × (s.at_end.process ≡ some p → ⊥)
  unfolding stop_call stop_locked redact_error_text
  stop_call-ends t s p r f₀ f₁ f₂ f₃ h q =
      let r₀ = Follows-trans _ _ _ (then_to _ _ _ r (stop t)) f₀ in
      let r₁ = Follows-trans _ _ _ r₀ f₁ in
      let r₂ = Follows-trans _ _ _ r₁ f₂ in
      let r₃ = Follows-trans _ _ _ r₂ f₃ in
      let v = Reachable-IsTunnel parse_url error_text o t r in
      let found : (captured t.process t).0 ≡ some p =
        captured-found t.process t p q (v.current p q).2 in
      let seen =
        terminated-closed p s.terminate s
          (sym (ap (λ x. stop_found parse_url error_text o x s) found) ∙ h) in
      let over : s.at_end.exited p ≡ true = elim seen [
        | inl c ↦ closed-exited p _ _ r₀ (Follows-trans _ _ _ f₁ (Follows-trans _ _ _ f₂ f₃)) c
        | inr (inl c) ↦ closed-exited p _ _ r₁ (Follows-trans _ _ _ f₂ f₃) c
        | inr (inr (inl c)) ↦ closed-exited p _ _ r₂ f₃ c
        | inr (inr (inr c)) ↦ closed-exited p _ _ r₃ (here s.at_end) c
      ] in
      let w = Reachable-IsTunnel parse_url error_text o s.at_end r₃ in
      (over, λ k. let lives = (w.current p k).2 in cc)
