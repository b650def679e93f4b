-- ===== src/Edge/Laws.antt =====
-- What holds of a managed tunnel in every interleaving of its callers, its goroutines and the
-- operating system.
use Prim.Native.String.{String}
use credimi_runner.Prelude.{
  by_test, ℕ, ◌≤◌, ◌<◌, Bool, true, false, ◌≡◌, ◌⊎◌, inl, inr, refl, sym, subst, ap, ◌∙◌, Option,
  none, some, List, ◌∷◌, ◌==◌, ==_iff, arith, if◌then◌else◌,
}
use credimi_runner.GoError.{GoError, Result, ok, err, or_else}
use credimi_runner.Edge.{
  Tunnel, new_tunnel, Attempt, StartOutcome, launch, captured, spawned, is_running, runs,
  is_current, start_locked, publish, wait_locked, report_exit, mark_reported, stop_locked, consume,
  receive_url, redact, Shows, AtHand, print, hear, Live, Step, start, publish_url, abandon, exit,
  report, close, receive, stop, Follows, here, then_to, Reachable,
}
use credimi_runner.Edge.QuickUrl.{quick_url}
use credimi_runner.Edge.Address.{ParsedUrl, Options, tunnel_address}

-- A change of two functions at one place.
changed_both :
    {A B : Type 0} (same : Bool) (P : A → B → Type 0) {a c : A} {b d : B}
    → P a b
    → P c d
    → P (if same then a else c) (if same then b else d)
changed_both true P new old = new
changed_both false P new old = old

module _ (parse_url : String → Result ParsedUrl) (error_text : GoError → String) (o : Options) where
  -- The address of the named tunnel, or a URL that this process has printed.
  abbrev pub IsAnswer : ℕ → Tunnel → String → Type 0
  IsAnswer p t url =
      (tunnel_address parse_url o ≡ ok (some url))
      ⊎ ((tunnel_address parse_url o ≡ ok none) × Shows url (t.printed p))

  -- A URL is held only of a process that lives, has been started, and is the current one.
  abbrev pub Backed : Tunnel → Type 0
  Backed t =
      (t.public_url ≡ "")
      ⊎ ((p : ℕ) × (t.process ≡ some p) × (t.started p ≡ true) × IsAnswer p t t.public_url)

  -- A URL that waits in the channel or has been received is one that the process has printed.
  abbrev pub Heard : Tunnel → Type 0
  Heard t =
      (p : ℕ) (url : String)
      → (t.urls p ≡ some url → Shows url (t.printed p))
        × (t.received p ≡ some url → Shows url (t.printed p))

  -- The invariant of the tunnel.
  pub record IsTunnel (t : Tunnel) : Type 0 where
    -- a process that lives is the current one
    pub alone : (p : ℕ) → Live t p → t.process ≡ some p
    -- the current process lives
    pub current : (p : ℕ) → t.process ≡ some p → Live t p
    pub backed : Backed t
    -- a process whose `done` is closed has been reported, and is gone
    pub ended : (p : ℕ) → t.closed p ≡ true → t.reported p ≡ true
    pub gone : (p : ℕ) → t.reported p ≡ true → t.exited p ≡ true
    -- a process that is still to come has done nothing
    pub unused : (p : ℕ) → t.latest < p → (t.exited p ≡ false) × (t.reported p ≡ false)
    pub known : (p : ℕ) → t.starting p ≡ true → (1 ≤ p) × (p ≤ t.latest)
    pub heard : Heard t

  new_tunnel-IsTunnel : IsTunnel new_tunnel
  new_tunnel-IsTunnel = record {
    alone = λ p l. let no : ⊥ = omega (arith, l) in absurd no;
    current = λ p e. cc;
    backed = inl refl;
    ended = λ p e. cc;
    gone = λ p e. cc;
    unused = λ p h. (refl, refl);
    known = λ p e. cc;
    heard = λ p url. (λ e. cc, λ e. cc);
  }

  -- When no process runs, none lives.
  pub idle : (t : Tunnel) → IsTunnel t → is_running t ≡ false → (p : ℕ) → Live t p → ⊥
  unfolding is_running
  idle t v r p l = let now = ap (λ q. runs q t.exited) (v.alone p l) in ground (arith, now)

  launch-IsTunnel : (t : Tunnel) → IsTunnel t → is_running t ≡ false → IsTunnel (launch t).1
  launch-IsTunnel t v r = record {
    alone = λ p l. ground (arith, idle t v r p);
    current = λ p e. ground (arith, v.unused p);
    backed = inl refl;
    ended = v.ended;
    gone = v.gone;
    unused = λ p h. v.unused p (omega (arith, h));
    known = λ p e. ground (arith, v.known p);
    heard = v.heard;
  }

  spawned-IsTunnel :
      (a : Result (Option String)) (e : Option GoError) (t : Tunnel)
      → IsTunnel t
      → is_running t ≡ false
      → IsTunnel (spawned a e t).1
  spawned-IsTunnel (err e) o t v r = v
  spawned-IsTunnel (ok u) (some e) t v r = v
  spawned-IsTunnel (ok u) none t v r = launch-IsTunnel t v r

  captured-IsTunnel : (q : Option ℕ) (t : Tunnel) → IsTunnel t → IsTunnel (captured q t).1
  captured-IsTunnel none t v = v
  captured-IsTunnel (some p) t v =
      by_test (λ (r : Option ℕ × Tunnel). IsTunnel r.1) (t.exited p) _ _ (λ e. v)
        (λ e. record {
          alone = v.alone;
          current = v.current;
          backed = v.backed;
          ended = v.ended;
          gone = v.gone;
          unused = v.unused;
          known = v.known;
          heard = v.heard;
        })

  start-IsTunnel :
      (a : Attempt) (t : Tunnel) → IsTunnel t → IsTunnel (start_locked parse_url error_text o a t).1
  unfolding start_locked
  start-IsTunnel a t v =
      let P = λ (r : StartOutcome × Tunnel). IsTunnel r.1 in
      by_test P (is_running t) _ _ (λ r. v) (λ r. spawned-IsTunnel _ _ t v r)

  answers :
      (t : Tunnel) (p : ℕ) (url : String)
      → Heard t
      → AtHand parse_url error_text o p url t
      → IsAnswer p t url
  answers t p url h (inl named) = inl named
  answers t p url h (inr (quick, got)) = inr (quick, (h p url).1 got)

  publish-IsTunnel :
      (t : Tunnel) (p : ℕ) (url : String)
      → t.starting p ≡ true
      → AtHand parse_url error_text o p url t
      → IsTunnel t
      → IsTunnel (publish parse_url error_text o p url t).1
  unfolding publish
  publish-IsTunnel t p url s a v =
      by_test (λ (r : Result String × Tunnel). IsTunnel r.1) (t.exited p) _ _
        (λ e. record {
          alone = v.alone;
          current = v.current;
          backed = v.backed;
          ended = v.ended;
          gone = v.gone;
          unused = v.unused;
          known = λ q e. ground (arith, v.known q);
          heard = v.heard;
        })
        (λ e.
          let bounds = v.known p s in
          record {
            alone = v.alone;
            current = v.current;
            backed =
                inr (p, v.alone p (bounds.0, bounds.1, e), ground arith, answers t p url v.heard a);
            ended = v.ended;
            gone = v.gone;
            unused = v.unused;
            known = λ q e. ground (arith, v.known q);
            heard = v.heard;
          })

  -- What a line adds to what has been printed.
  offered :
      (old : Option String) (line : String) (lines : List String) (url : String)
      → (old ≡ some url → Shows url lines)
      → or_else old (quick_url line) ≡ some url
      → Shows url (line ∷ lines)
  offered none line lines url h e = inl e
  offered (some u) line lines url h e = inr (h e)

  consume-Shows :
      (t : Tunnel) (p q : ℕ) (text url : String)
      → Shows url (t.printed q)
      → Shows url ((consume o p text t).printed q)
  unfolding consume
  consume-Shows t p q text url s =
      by_test (λ (lines : List String). Shows url lines) (q == p) _ _
        (λ e. let same = (==_iff q p).0 e in inr (subst (λ r. Shows url (t.printed r)) same s))
        (λ e. s)

  consume-Heard : (t : Tunnel) (p : ℕ) (text : String) → Heard t → Heard (consume o p text t)
  unfolding consume
  consume-Heard t p text h q url =
      let line = redact o.token text in
      (
        changed_both (q == p)
            (λ (u : Option String) (lines : List String). u ≡ some url → Shows url lines)
            (offered (t.urls p) line (t.printed p) url (h p url).0) (h q url).0,
        λ e. consume-Shows t p q text url ((h q url).1 e),
      )

  consume-IsTunnel :
      (t : Tunnel) (p : ℕ) (text : String) → IsTunnel t → IsTunnel (consume o p text t)
  unfolding consume
  consume-IsTunnel t p text v = record {
    alone = v.alone;
    current = v.current;
    backed = elim v.backed [
      | inl e ↦ inl e
      | inr (q, now, up, inl named) ↦ inr (q, now, up, inl named)
      | inr (q, now, up, inr (quick, s)) ↦
          inr (q, now, up, inr (quick, consume-Shows t p q text t.public_url s))
    ];
    ended = v.ended;
    gone = v.gone;
    unused = v.unused;
    known = v.known;
    heard = consume-Heard t p text v.heard;
  }

  receive_url-IsTunnel : (t : Tunnel) (p : ℕ) → IsTunnel t → IsTunnel (receive_url p t)
  unfolding receive_url
  receive_url-IsTunnel t p v = record {
    alone = v.alone;
    current = v.current;
    backed = v.backed;
    ended = v.ended;
    gone = v.gone;
    unused = v.unused;
    known = v.known;
    heard = λ q url. (
      by_test (λ (u : Option String). u ≡ some url → Shows url (t.printed q)) (q == p) _ _
          (λ e k. cc) (λ e. (v.heard q url).0),
      by_test (λ (u : Option String). u ≡ some url → Shows url (t.printed q)) (q == p) _ _
          (λ e k.
            let same = (==_iff q p).0 e in
            subst (λ r. Shows url (t.printed r)) (sym same) ((v.heard p url).0 k))
          (λ e. (v.heard q url).1),
    );
  }

  -- A process that lives is the current one, so its end clears the process and the URL.
  pub wait-clears :
      (t : Tunnel) (p : ℕ) (e : Option GoError)
      → t.process ≡ some p
      → ((wait_locked p e t).process ≡ none) × ((wait_locked p e t).public_url ≡ "")
  unfolding wait_locked
  wait-clears t p e now =
      let same = ap (λ q. is_current q p) now in
      let this : is_current (some p) p ≡ true = ground arith in
      let hit = same ∙ this in
      (
        ap (λ (b : Bool). if b then none else t.process) hit,
        ap (λ (b : Bool). if b then "" else t.public_url) hit,
      )

  wait-IsTunnel :
      (t : Tunnel) (p : ℕ) (e : Option GoError)
      → Live t p
      → IsTunnel t
      → IsTunnel (wait_locked p e t)
  unfolding wait_locked
  wait-IsTunnel t p e l v =
      let now = v.alone p l in
      let clear = wait-clears t p e now in
      record {
        alone = λ q k. ground (arith, v.alone q, now);
        current = λ q k. cc;
        backed = inl clear.1;
        ended = v.ended;
        gone = λ q k. ground (arith, v.gone q);
        unused = λ q h. ground (arith, v.unused q h, l);
        known = v.known;
        heard = v.heard;
      }

  marked-IsTunnel :
      (t : Tunnel) (p : ℕ) (f : Option GoError)
      → t.exited p ≡ true
      → IsTunnel t
      → IsTunnel (mark_reported p (record t { failures = f }))
  marked-IsTunnel t p f e v = record {
    alone = v.alone;
    current = v.current;
    backed = v.backed;
    ended = λ q k. ground (arith, v.ended q);
    gone = λ q k. ground (arith, v.gone q);
    unused = λ q h. ground (arith, v.unused q h);
    known = v.known;
    heard = v.heard;
  }

  report-IsTunnel :
      (t : Tunnel) (p : ℕ)
      → t.exited p ≡ true
      → IsTunnel t
      → IsTunnel (report_exit parse_url error_text o p t)
  unfolding report_exit
  report-IsTunnel t p e v =
      by_test (λ u. IsTunnel (mark_reported p u)) (t.unreported p) _ _
        (λ r. marked-IsTunnel t p _ e v) (λ r. marked-IsTunnel t p t.failures e v)

  stop-IsTunnel : (t : Tunnel) → IsTunnel t → IsTunnel (stop_locked t).1
  unfolding stop_locked
  stop-IsTunnel t v = captured-IsTunnel t.process t v

  Step-IsTunnel : (t u : Tunnel) → Step parse_url error_text o t u → IsTunnel t → IsTunnel u
  Step-IsTunnel _ _ (start t a) v = start-IsTunnel a t v
  Step-IsTunnel _ _ (publish_url t p url s a) v = publish-IsTunnel t p url s a v
  Step-IsTunnel _ _ (print t p line l) v = consume-IsTunnel t p line v
  Step-IsTunnel _ _ (hear t p s) v = receive_url-IsTunnel t p v
  Step-IsTunnel _ _ (abandon t p) v = record {
    alone = v.alone;
    current = v.current;
    backed = v.backed;
    ended = v.ended;
    gone = v.gone;
    unused = v.unused;
    known = λ q e. ground (arith, v.known q);
    heard = v.heard;
  }
  Step-IsTunnel _ _ (exit t p e l) v = wait-IsTunnel t p e l v
  Step-IsTunnel _ _ (report t p e n) v = report-IsTunnel t p e v
  Step-IsTunnel _ _ (close t p r) v = record {
    alone = v.alone;
    current = v.current;
    backed = v.backed;
    ended = λ q e. ground (arith, v.ended q);
    gone = v.gone;
    unused = v.unused;
    known = v.known;
    heard = v.heard;
  }
  Step-IsTunnel _ _ (receive t) v = record {
    alone = v.alone;
    current = v.current;
    backed = v.backed;
    ended = v.ended;
    gone = v.gone;
    unused = v.unused;
    known = v.known;
    heard = v.heard;
  }
  Step-IsTunnel _ _ (stop t) v = stop-IsTunnel t v

  pub Follows-IsTunnel :
      (s t : Tunnel) → Follows parse_url error_text o s t → IsTunnel s → IsTunnel t
  Follows-IsTunnel _ _ (here t) v = v
  Follows-IsTunnel _ _ (then_to s t u f k) v = Step-IsTunnel t u k (Follows-IsTunnel s t f v)

  -- Whatever callers, goroutines and the operating system do, in whatever order: at most one
  -- cloudflared process lives, and it is the one that the tunnel holds; a URL is held only while
  -- that process lives and after it has been started, and it is the address of the named tunnel
  -- or, for a quick tunnel, the first URL in a line, without the token, that this very process has
  -- printed, as is every URL that waits in the channel of a process or has been received from it;
  -- and a process whose `done` is closed is gone and has been
  -- reported.
  pub Reachable-IsTunnel : (t : Tunnel) → Reachable parse_url error_text o t → IsTunnel t
  Reachable-IsTunnel t r = Follows-IsTunnel new_tunnel t r new_tunnel-IsTunnel
