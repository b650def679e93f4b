-- ===== src/Controller/Promises.antt =====
-- What the coordinator promises its callers.
use credimi_runner.Prelude.{
  ℕ, ◌<◌, ◌≡◌, refl, sym, ap, subst, ◌∙◌, true, false, String, Option, none, some, inl, inr, arith,
  ◌==◌, ==_iff, Bool-cases,
}
use credimi_runner.GoError.{GoError}
use credimi_runner.Controller.Operation.{
  OperationKind, OperationPhase, queued, Progress, Snapshot, acting, settling, ended, Operation,
  Coordinator, is_live, set_at, Submitted, accepted, conflict, refused, enqueue, blocking,
  submit_by, submit, update, begin, settle, close_channel, enter_history, get, updated, settled,
  outcome, next, queued_snapshot,
}
use credimi_runner.Controller.Steps.{
  Step, submits, begins, reports, settles, closes, enters, Reachable,
}
use credimi_runner.Controller.Laws.{Reachable-IsCoordinated}

-- At most one operation is queued or running, whatever the interleaving.
pub one_live_operation :
    (c : Coordinator) (a b : ℕ)
    → Reachable c
    → a < c.fresh
    → b < c.fresh
    → is_live (c.heap a).snap.phase ≡ true
    → is_live (c.heap b).snap.phase ≡ true
    → a ≡ b
one_live_operation c a b r la lb ha hb =
    let h = Reachable-IsCoordinated r in
    let p = h.alone a la ha in let q = h.alone b lb hb in cc (p, q)

set_at-keeps :
    (a b : ℕ) (op : Operation) (heap : ℕ → Operation)
    → (b ≡ a → op.snap ≡ (heap a).snap)
    → (set_at a op heap b).snap ≡ (heap b).snap
set_at-keeps a b op heap same = elim (Bool-cases (b == a)) [
  | inl equal ↦ let e = (==_iff b a).0 equal in rw equal (same e ∙ ap (λ x. (heap x).snap) (sym e))
  | inr differs ↦ rw differs refl
]

updated_ended :
    (p : Progress) (now : ℕ) (s : Snapshot) → is_live s.phase ≡ false → updated p now s ≡ s
updated_ended p now s h = rw h

submit-keeps :
    (blocker : Option Snapshot) (kind : OperationKind) (now : ℕ) (c : Coordinator) (a : ℕ)
    → a < c.fresh
    → (((submit_by blocker kind now c).0.heap a).snap ≡ (c.heap a).snap)
      × (a < (submit_by blocker kind now c).0.fresh)
submit-keeps (some s) kind now c a lt = (refl, lt)
submit-keeps none kind now c a lt =
    (set_at-keeps c.fresh a _ c.heap (λ e. absurd (omega (arith, e, lt))), omega (arith, lt))

ended_at :
    (c : Coordinator) (a b : ℕ)
    → a ≡ b
    → is_live (c.heap a).snap.phase ≡ false
    → is_live (c.heap b).snap.phase ≡ false
ended_at c a b q h = subst (λ x. is_live (c.heap x).snap.phase ≡ false) q h

settled_ended :
    (r : OperationPhase × String × Option GoError) (now : ℕ) (op : Operation)
    → is_live op.snap.phase ≡ false
    → (settled r now op).snap ≡ op.snap
settled_ended r now op h = rw h

-- Once an operation has ended, no step changes its snapshot any more, and it stays allocated.
pub ended_stays :
    (c d : Coordinator) (a : ℕ)
    → Step c d
    → a < c.fresh
    → is_live (c.heap a).snap.phase ≡ false
    → ((d.heap a).snap ≡ (c.heap a).snap) × (a < d.fresh)
unfolding submit update begin settle close_channel enter_history
ended_stays c _ a (submits true kind now) lt h =
    submit-keeps (blocking c.active c.heap) kind now c a lt
ended_stays c _ a (submits false kind now) lt h = (refl, lt)
ended_stays c _ a (begins b now lb e) lt h =
    let p : Progress = record { phase = "running"; text = "operation started" } in
    (
      set_at-keeps b a (record (c.heap b) { snap = updated p now (c.heap b).snap; stage = acting })
          c.heap (λ q. updated_ended p now (c.heap b).snap (ended_at c a b q h)),
      lt,
    )
ended_stays c _ a (reports b p now lb) lt h = (
  set_at-keeps b a (record (c.heap b) { snap = updated p now (c.heap b).snap }) c.heap
      (λ q. updated_ended p now (c.heap b).snap (ended_at c a b q h)),
  lt,
)
ended_stays c _ a (settles b result ctx now lb e) lt h = (
  set_at-keeps b a (settled (outcome result ctx) now (c.heap b)) c.heap
      (λ q. settled_ended (outcome result ctx) now (c.heap b) (ended_at c a b q h)),
  lt,
)
ended_stays c _ a (closes b s lb e) lt h = (
  set_at-keeps b a (record (c.heap b) { is_done = true; stage = settling s }) c.heap (λ q. refl),
  lt,
)
ended_stays c _ a (enters b s lb e) lt h =
    (set_at-keeps b a (record (c.heap b) { stage = ended }) c.heap (λ q. refl), lt)

==_refl : (n : ℕ) → (n == n) ≡ true
==_refl n = (==_iff n n).1 refl

-- What an accepted submission promises of the coordinator after it.
abbrev Got : Coordinator → Submitted → Type 0
Got c (accepted s) = (get s.id c ≡ some s) × (s.phase ≡ queued)
Got c (conflict s) = Unit
Got c (refused e) = Unit

enqueue-Got :
    (kind : OperationKind) (now : ℕ) (c : Coordinator)
    → Got (enqueue kind now c).0 (enqueue kind now c).1
unfolding get
enqueue-Got kind now c = (rw (==_refl (next c.next_id)) (rw (==_refl c.fresh) refl), refl)

submit-Got :
    (blocker : Option Snapshot) (kind : OperationKind) (now : ℕ) (c : Coordinator)
    → Got (submit_by blocker kind now c).0 (submit_by blocker kind now c).1
submit-Got none kind now c = enqueue-Got kind now c
submit-Got (some s) kind now c = tt

-- The snapshot that an accepted submission returns is queued, and `Get` then finds it by its ID.
pub submit-get :
    (kind : OperationKind) (now : ℕ) (c : Coordinator) (s : Snapshot)
    → (submit true kind now c).1 ≡ accepted s
    → (get s.id (submit true kind now c).0 ≡ some s) × (s.phase ≡ queued)
unfolding submit
submit-get kind now c s h =
    subst (Got (submit true kind now c).0) h (submit-Got (blocking c.active c.heap) kind now c)

blocking_at :
    (o : Option ℕ) (a : ℕ) (heap : ℕ → Operation)
    → o ≡ some a
    → is_live (heap a).snap.phase ≡ true
    → blocking o heap ≡ some (heap a).snap
blocking_at o a heap e l = subst (λ x. blocking x heap ≡ some (heap a).snap) (sym e) (rw l refl)

-- While an operation of a reachable coordinator is live, a submission changes nothing and returns
-- that operation.
pub submit_conflicts :
    (c : Coordinator) (kind : OperationKind) (now a : ℕ)
    → Reachable c
    → a < c.fresh
    → is_live (c.heap a).snap.phase ≡ true
    → submit true kind now c ≡ (c, conflict (c.heap a).snap)
unfolding submit
submit_conflicts c kind now a r lt l =
    let active = (Reachable-IsCoordinated r).alone a lt l in
    ap (λ x. submit_by x kind now c) (blocking_at c.active a c.heap active l)

blocking_idle :
    (o : Option ℕ) (heap : ℕ → Operation)
    → ((a : ℕ) → o ≡ some a → is_live (heap a).snap.phase ≡ false)
    → blocking o heap ≡ none
blocking_idle none heap h = refl
blocking_idle (some a) heap h = rw (h a refl) refl

-- While no operation of a reachable coordinator is live, a submission is accepted.
pub submit_accepts :
    (c : Coordinator) (kind : OperationKind) (now : ℕ)
    → Reachable c
    → ((a : ℕ) → a < c.fresh → is_live (c.heap a).snap.phase ≡ false)
    → (s : Snapshot) × ((submit true kind now c).1 ≡ accepted s)
unfolding submit
submit_accepts c kind now r idle =
    let h = Reachable-IsCoordinated r in
    let e = blocking_idle c.active c.heap (λ a q. idle a (h.allocated a q)) in
    (queued_snapshot (next c.next_id) kind now, ap (λ x. (submit_by x kind now c).1) e)
