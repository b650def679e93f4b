-- ===== src/Edge/Promises.antt =====
-- What the operations of a managed tunnel promise their callers.
use Prim.Native.String.{String}
use credimi_runner.Prelude.{
  by_test, ℕ, suc, Bool, true, false, ◌≡◌, ◌≢◌, refl, sym, ap, ◌∙◌, not, Option, none, some, arith,
  ◌&&◌,
}
use credimi_runner.GoError.{GoError, Result, ok, err}
use credimi_runner.GoError.Laws.{or_else-some}
use credimi_runner.Edge.{
  Tunnel, Attempt, StartOutcome, serving, refused, launched_as, captured, spawned, is_running,
  start_locked, publish, wait_locked, report_exit, mark_reported, stop_locked, Live, Step, start,
  publish_url, print, hear, consume, receive_url, abandon, exit, report, close, receive, stop,
  Follows, here, then_to, Reachable,
}
use credimi_runner.Edge.Address.{ParsedUrl, Options}
use credimi_runner.Edge.Laws.{IsTunnel, idle, wait-clears, Reachable-IsTunnel}

module _ (parse_url : String → Result ParsedUrl) (error_text : GoError → String) (o : Options) where
  abbrev process_or : ℕ → StartOutcome → ℕ
  process_or n (launched_as p) = p
  process_or n (serving u) = n
  process_or n (refused e) = n

  abbrev url_or : String → Result String → String
  url_or s (ok u) = u
  url_or s (err e) = s

  abbrev Launches : Tunnel → ℕ → StartOutcome × Tunnel → Type 0
  Launches t p r =
      r.0 ≡ launched_as p
      → ((q : ℕ) → Live t q → ⊥) × Live r.1 p × (r.1.process ≡ some p) × (r.1.public_url ≡ "")

  spawned-Launches :
      (a : Result (Option String)) (e : Option GoError) (t : Tunnel) (p : ℕ)
      → IsTunnel parse_url error_text o t
      → is_running t ≡ false
      → Launches t p (spawned a e t)
  spawned-Launches (err e) f t p v r = λ h. cc
  spawned-Launches (ok u) (some e) t p v r = λ h. cc
  spawned-Launches (ok u) none t p v r = λ h.
      let same : suc t.latest ≡ p = ap (process_or 0) h in
      let fresh = v.unused p (omega (arith, same)) in
      (
        idle parse_url error_text o t v r,
        (omega (arith, same), omega (arith, same), fresh.0),
        ap some same,
        refl,
      )

  -- `Start` launches a process only when none lives; the new one is then held, without a URL.
  pub start_locked-launches :
      (t : Tunnel) (a : Attempt) (p : ℕ)
      → Reachable parse_url error_text o t
      → (start_locked parse_url error_text o a t).0 ≡ launched_as p
      → ((q : ℕ) → Live t q → ⊥)
        × Live (start_locked parse_url error_text o a t).1 p
        × ((start_locked parse_url error_text o a t).1.process ≡ some p)
        × ((start_locked parse_url error_text o a t).1.public_url ≡ "")
  unfolding start_locked
  start_locked-launches t a p r =
      let v = Reachable-IsTunnel parse_url error_text o t r in
      by_test (Launches t p) (is_running t) _ _ (λ b h. cc) (λ b. spawned-Launches _ _ t p v b)

  abbrev pub Serves : ℕ → String → String → Result String × Tunnel → Type 0
  Serves p url u r =
      (u ≡ url)
      × (r.1.process ≡ some p)
      × Live r.1 p
      × (r.1.started p ≡ true)
      × (r.1.public_url ≡ u)

  -- A URL that `Start` returns after it has launched a process is the one that is held, and the
  -- process lives, is the one held, and is marked as started.
  pub publish-Serves :
      (t : Tunnel) (p : ℕ) (url u : String)
      → Reachable parse_url error_text o t
      → t.starting p ≡ true
      → (publish parse_url error_text o p url t).0 ≡ ok u
      → Serves p url u (publish parse_url error_text o p url t)
  unfolding publish
  publish-Serves t p url u r s h =
      let v = Reachable-IsTunnel parse_url error_text o t r in
      let bounds = v.known p s in
      by_test (λ (q : Result String × Tunnel). q.0 ≡ ok u → Serves p url u q) (t.exited p) _ _
        (λ e k. cc)
        (λ e k.
          let same : url ≡ u = ap (url_or "") k in
          (
            sym same,
            v.alone p (bounds.0, bounds.1, e),
            (bounds.0, bounds.1, e),
            ground arith,
            same,
          ))
        h

  -- What `waitProcess` has decided about a process stands until it is reported.
  abbrev Decided : ℕ → Bool → Tunnel → Type 0
  Decided p b t = (t.exited p ≡ true) × (t.reported p ≡ false → t.unreported p ≡ b)

  spawned-keeps :
      (p : ℕ) (b : Bool) (a : Result (Option String)) (e : Option GoError) (t : Tunnel)
      → Decided p b t
      → Decided p b (spawned a e t).1
  spawned-keeps p b (err e) f t d = d
  spawned-keeps p b (ok u) (some e) t d = d
  spawned-keeps p b (ok u) none t d = d

  captured-keeps :
      (p : ℕ) (b : Bool) (q : Option ℕ) (t : Tunnel) → Decided p b t → Decided p b (captured q t).1
  captured-keeps p b none t d = d
  captured-keeps p b (some q) t d =
      by_test (λ (r : Option ℕ × Tunnel). Decided p b r.1) (t.exited q) _ _ (λ e. d) (λ e. d)

  Step-keeps :
      (p : ℕ) (b : Bool) (t u : Tunnel)
      → Step parse_url error_text o t u
      → Decided p b t
      → Decided p b u
  unfolding start_locked publish stop_locked wait_locked report_exit consume receive_url
  Step-keeps p b _ _ (start t a) d =
      by_test (λ (r : StartOutcome × Tunnel). Decided p b r.1) (is_running t) _ _ (λ r. d)
        (λ r. spawned-keeps p b _ _ t d)
  Step-keeps p b _ _ (publish_url t q url s a) d =
      by_test (λ (r : Result String × Tunnel). Decided p b r.1) (t.exited q) _ _ (λ r. d) (λ r. d)
  Step-keeps p b _ _ (print t q line l) d = d
  Step-keeps p b _ _ (hear t q s) d = d
  Step-keeps p b _ _ (abandon t q) d = d
  Step-keeps p b _ _ (exit t q e l) d = (ground (arith, d), λ n. ground (arith, d.1 n, l))
  Step-keeps p b _ _ (report t q e n) d =
      by_test (λ u. Decided p b (mark_reported q u)) (t.unreported q) _ _
        (λ r. (d.0, λ n. ground (arith, d.1))) (λ r. (d.0, λ n. ground (arith, d.1)))
  Step-keeps p b _ _ (close t q r) d = d
  Step-keeps p b _ _ (receive t) d = d
  Step-keeps p b _ _ (stop t) d = captured-keeps p b t.process t d

  Follows-keeps :
      (p : ℕ) (b : Bool) (s t : Tunnel)
      → Follows parse_url error_text o s t
      → Decided p b s
      → Decided p b t
  Follows-keeps p b _ _ (here t) d = d
  Follows-keeps p b _ _ (then_to s t u f k) d = Step-keeps p b t u k (Follows-keeps p b s t f d)

  wait-decides :
      (t : Tunnel) (p : ℕ) (e : Option GoError)
      → Decided p (t.started p && not (t.expected_stop p)) (wait_locked p e t)
  unfolding wait_locked
  wait-decides t p e = (ground arith, λ n. ground arith)

  reports :
      (u : Tunnel) (p : ℕ)
      → u.unreported p ≡ true
      → (report_exit parse_url error_text o p u).failures ≢ none
  unfolding report_exit
  reports u p h =
      by_test (λ w. (mark_reported p w).failures ≢ none) (u.unreported p) _ _
        (λ k. or_else-some u.failures _) (λ k. cc)

  passes :
      (u : Tunnel) (p : ℕ)
      → u.unreported p ≡ false
      → (report_exit parse_url error_text o p u).failures ≡ u.failures
  unfolding report_exit
  passes u p h =
      by_test (λ w. (mark_reported p w).failures ≡ u.failures) (u.unreported p) _ _ (λ k. cc)
        (λ k. refl)

  -- A process that lives ends: the tunnel holds neither a process nor a URL any more, and when
  -- `waitProcess` comes to report it, whatever has happened in between, a failure waits in the
  -- channel if the process had been started and nobody had asked it to stop, and the channel is as
  -- it was otherwise.
  pub exit-reported :
      (t u : Tunnel) (p : ℕ) (e : Option GoError)
      → Reachable parse_url error_text o t
      → Live t p
      → Follows parse_url error_text o (wait_locked p e t) u
      → u.reported p ≡ false
      → ((wait_locked p e t).process ≡ none)
        × ((wait_locked p e t).public_url ≡ "")
        × (t.started p && not (t.expected_stop p) ≡ true
            → (report_exit parse_url error_text o p u).failures ≢ none)
        × (t.started p && not (t.expected_stop p) ≡ false
            → (report_exit parse_url error_text o p u).failures ≡ u.failures)
  exit-reported t u p e r l f n =
      let v = Reachable-IsTunnel parse_url error_text o t r in
      let clear = wait-clears parse_url error_text o t p e (v.alone p l) in
      let decided = Follows-keeps p _ _ u f (wait-decides t p e) in
      (clear.0, clear.1, λ h. reports u p (decided.1 n ∙ h), λ h. passes u p (decided.1 n ∙ h))
