-- ===== src/Controller/Laws.antt =====
-- The invariant of the coordinator: one live operation at most, and the active one is it.
use credimi_runner.Prelude.{
  ℕ, ◌-◌, ◌≤◌, ◌<◌, ◌≡◌, ◌≢◌, refl, sym, subst, ◌∙◌, inl, inr, Bool, true, false, String, Option,
  none, some, [], ◌∷◌, ◌++◌, arith, ◌==◌, ==_iff, length, length-append, length-drop, Bool-cases,
}
use credimi_runner.GoError.{GoError}
use credimi_runner.Controller.Operation.{
  OperationKind, OperationPhase, Progress, Snapshot, Stage, ready, acting, closing, settling, ended,
  Operation, Coordinator, max_history, is_live, new_coordinator, set_at, enqueue, blocking,
  submit_by, submit, update, begin, outcome, settle, close_channel, enter_history, release,
  queued_snapshot, updated, settled, next,
}
use credimi_runner.Controller.Steps.{
  Step, submits, begins, reports, settles, closes, enters, Reachable, starts_empty, goes_on,
}

abbrev pub is_pending : Stage → Bool
is_pending ready = true
is_pending acting = true
is_pending ended = false
is_pending (closing s) = false
is_pending (settling s) = false

-- The goroutine has come past the closing of `done`.
abbrev pub is_past_close : Stage → Bool
is_past_close ready = false
is_past_close acting = false
is_past_close (closing s) = false
is_past_close (settling s) = true
is_past_close ended = true

-- An operation is live exactly until its goroutine has settled it, and `done` is closed from the
-- goroutine's next step on.
pub record IsSound (op : Operation) : Type 0 where
  pub pending : is_live op.snap.phase ≡ is_pending op.stage
  pub closed : op.is_done ≡ is_past_close op.stage

-- Every allocated operation is sound, a live one is the active one, the active one is allocated,
-- and the history is bounded.
pub record IsCoordinated (c : Coordinator) : Type 0 where
  pub sound : (a : ℕ) → a < c.fresh → IsSound (c.heap a)
  pub alone : (a : ℕ) → a < c.fresh → is_live (c.heap a).snap.phase ≡ true → c.active ≡ some a
  pub allocated : (a : ℕ) → c.active ≡ some a → a < c.fresh
  pub bounded : length c.history ≤ max_history

updated-IsSound :
    (p : Progress) (now : ℕ) (op : Operation)
    → IsSound op
    → IsSound (record op { snap = updated p now op.snap })
      × (is_live (updated p now op.snap).phase ≡ is_live op.snap.phase)
updated-IsSound p now op h = ground arith

begun-IsSound :
    (p : Progress) (now : ℕ) (op : Operation)
    → IsSound op
    → op.stage ≡ ready
    → IsSound (record op { snap = updated p now op.snap; stage = acting })
      × (is_live (updated p now op.snap).phase ≡ is_live op.snap.phase)
begun-IsSound p now op h e = ground arith

outcome_ends : (r ctx : Option GoError) → is_live (outcome r ctx).0 ≡ false
unfolding outcome
outcome_ends r ctx = ground arith

settled-IsSound :
    (r : OperationPhase × String × Option GoError) (now : ℕ) (op : Operation)
    → is_live r.0 ≡ false
    → op.stage ≡ acting
    → IsSound op
    → IsSound (settled r now op) × (is_live (settled r now op).snap.phase ≡ false)
settled-IsSound r now op e q h = ground arith

closed-IsSound :
    (s : Snapshot) (op : Operation)
    → IsSound op
    → op.stage ≡ closing s
    → IsSound (record op { is_done = true; stage = settling s })
closed-IsSound s op h e = ground arith

ended-IsSound :
    (s : Snapshot) (op : Operation)
    → IsSound op
    → op.stage ≡ settling s
    → IsSound (record op { stage = ended }) × (is_live op.snap.phase ≡ false)
ended-IsSound s op h e = ground arith

-- What holds of the new operation, and of the old ones elsewhere, holds after the change.
set_at-cases :
    (P : ℕ → Operation → Type 0) (a : ℕ) (op : Operation) (heap : ℕ → Operation) (b : ℕ)
    → P a op
    → (b ≢ a → P b (heap b))
    → P b (set_at a op heap b)
set_at-cases P a op heap b here there = elim (Bool-cases (b == a)) [
  | inl same ↦ let e = (==_iff b a).0 same in rw same (subst (λ x. P x op) (sym e) here)
  | inr differs ↦ rw differs (there (λ e. ground arith))
]

changed-IsCoordinated :
    (a : ℕ) (op : Operation) (c : Coordinator)
    → IsCoordinated c
    → a < c.fresh
    → IsSound op
    → (is_live op.snap.phase ≡ true → is_live (c.heap a).snap.phase ≡ true)
    → IsCoordinated (record c { heap = set_at a op c.heap })
changed-IsCoordinated a op c h bound s live = record {
  sound = λ b lt. set_at-cases (λ x o. IsSound o) a op c.heap b s (λ _. h.sound b lt);
  alone = λ b lt.
      set_at-cases (λ x o. is_live o.snap.phase ≡ true → c.active ≡ some x) a op c.heap b
        (λ l. h.alone a bound (live l)) (λ _. h.alone b lt);
  allocated = h.allocated;
  bounded = h.bounded;
}

update-IsCoordinated :
    (a : ℕ) (p : Progress) (now : ℕ) (c : Coordinator)
    → IsCoordinated c
    → a < c.fresh
    → IsCoordinated (update a p now c)
unfolding update
update-IsCoordinated a p now c h lt =
    let s = updated-IsSound p now (c.heap a) (h.sound a lt) in
    changed-IsCoordinated a _ c h lt s.0 (λ l. sym s.1 ∙ l)

begin-IsCoordinated :
    (a now : ℕ) (c : Coordinator)
    → IsCoordinated c
    → a < c.fresh
    → (c.heap a).stage ≡ ready
    → IsCoordinated (begin a now c)
unfolding begin
begin-IsCoordinated a now c h lt e =
    let p : Progress = record { phase = "running"; text = "operation started" } in
    let s = begun-IsSound p now (c.heap a) (h.sound a lt) e in
    changed-IsCoordinated a _ c h lt s.0 (λ l. sym s.1 ∙ l)

settle-IsCoordinated :
    (a : ℕ) (result ctx : Option GoError) (now : ℕ) (c : Coordinator)
    → IsCoordinated c
    → a < c.fresh
    → (c.heap a).stage ≡ acting
    → IsCoordinated (settle a result ctx now c)
unfolding settle
settle-IsCoordinated a result ctx now c h lt e =
    let r = outcome result ctx in
    let s = settled-IsSound r now (c.heap a) (outcome_ends result ctx) e (h.sound a lt) in
    changed-IsCoordinated a _ c h lt s.0 (λ l. cc)

close_channel-IsCoordinated :
    (a : ℕ) (s : Snapshot) (c : Coordinator)
    → IsCoordinated c
    → a < c.fresh
    → (c.heap a).stage ≡ closing s
    → IsCoordinated (close_channel a s c)
unfolding close_channel
close_channel-IsCoordinated a s c h lt e =
    changed-IsCoordinated a _ c h lt (closed-IsSound s (c.heap a) (h.sound a lt) e) (λ l. l)

release-other : (a b : ℕ) (o : Option ℕ) → o ≡ some b → b ≢ a → release a o ≡ some b
release-other a b none e n = cc
release-other a b (some x) e n = ground arith

release-some : (a b : ℕ) (o : Option ℕ) → release a o ≡ some b → o ≡ some b
release-some a b none e = e
release-some a b (some x) e = ground arith

enter_history-IsCoordinated :
    (a : ℕ) (s : Snapshot) (c : Coordinator)
    → IsCoordinated c
    → a < c.fresh
    → (c.heap a).stage ≡ settling s
    → IsCoordinated (enter_history a s c)
unfolding enter_history
enter_history-IsCoordinated a s c h lt e =
    let t = ended-IsSound s (c.heap a) (h.sound a lt) e in
    let op : Operation = record (c.heap a) { stage = ended } in
    record {
      sound = λ b lt'. set_at-cases (λ x o. IsSound o) a op c.heap b t.0 (λ _. h.sound b lt');
      alone = λ b lt'.
          set_at-cases (λ x o. is_live o.snap.phase ≡ true → release a c.active ≡ some x) a op
            c.heap b (λ l. cc) (λ n l. release-other a b c.active (h.alone b lt' l) n);
      allocated = λ b q. h.allocated b (release-some a b c.active q);
      bounded =
          let all = c.history ++ (s ∷ []) in
          omega (
            arith,
            length-drop (length all - max_history) all,
            length-append c.history (s ∷ []),
            h.bounded,
          );
    }

-- A new operation is queued only when no live operation is active.
blocking-none :
    (o : Option ℕ) (a : ℕ) (heap : ℕ → Operation)
    → blocking o heap ≡ none
    → o ≡ some a
    → is_live (heap a).snap.phase ≡ true
    → ⊥
blocking-none o a heap b e l =
    let at_a = subst (λ x. blocking x heap ≡ none) e b in ground (arith, at_a)

enqueue-IsCoordinated :
    (kind : OperationKind) (now : ℕ) (c : Coordinator)
    → IsCoordinated c
    → blocking c.active c.heap ≡ none
    → IsCoordinated (enqueue kind now c).0
enqueue-IsCoordinated kind now c h none_blocks =
    let snap = queued_snapshot (next c.next_id) kind now in
    let op : Operation = record { snap = snap; is_done = false; stage = ready } in
    record {
      sound = λ b lt.
          set_at-cases (λ x o. IsSound o) c.fresh op c.heap b
            (record { pending = refl; closed = refl }) (λ n. h.sound b (omega (arith, lt, n)));
      alone = λ b lt.
          set_at-cases (λ x o. is_live o.snap.phase ≡ true → some c.fresh ≡ some x) c.fresh op
            c.heap b (λ l. refl)
            (λ n l.
              let older : b < c.fresh = omega (arith, lt, n) in
              absurd (blocking-none c.active b c.heap none_blocks (h.alone b older l) l));
      allocated = λ b q. ground arith;
      bounded = h.bounded;
    }

submit_by-IsCoordinated :
    (blocker : Option Snapshot) (kind : OperationKind) (now : ℕ) (c : Coordinator)
    → IsCoordinated c
    → blocking c.active c.heap ≡ blocker
    → IsCoordinated (submit_by blocker kind now c).0
submit_by-IsCoordinated none kind now c h e = enqueue-IsCoordinated kind now c h e
submit_by-IsCoordinated (some s) kind now c h e = h

submit-IsCoordinated :
    (has_action : Bool) (kind : OperationKind) (now : ℕ) (c : Coordinator)
    → IsCoordinated c
    → IsCoordinated (submit has_action kind now c).0
unfolding submit
submit-IsCoordinated false kind now c h = h
submit-IsCoordinated true kind now c h =
    submit_by-IsCoordinated (blocking c.active c.heap) kind now c h refl

Step-IsCoordinated : {c d : Coordinator} → Step c d → IsCoordinated c → IsCoordinated d
Step-IsCoordinated {c} (submits has_action kind now) h =
    submit-IsCoordinated has_action kind now c h
Step-IsCoordinated {c} (begins a now lt e) h = begin-IsCoordinated a now c h lt e
Step-IsCoordinated {c} (reports a p now lt) h = update-IsCoordinated a p now c h lt
Step-IsCoordinated {c} (settles a result ctx now lt e) h =
    settle-IsCoordinated a result ctx now c h lt e
Step-IsCoordinated {c} (closes a s lt e) h = close_channel-IsCoordinated a s c h lt e
Step-IsCoordinated {c} (enters a s lt e) h = enter_history-IsCoordinated a s c h lt e

new-IsCoordinated : IsCoordinated new_coordinator
unfolding new_coordinator
new-IsCoordinated = record {
  sound = λ a lt. absurd (omega (arith, lt));
  alone = λ a lt. absurd (omega (arith, lt));
  allocated = λ a e. cc;
  bounded = omega arith;
}

-- In every interleaving, each operation is live exactly until its goroutine has settled it, its
-- channel is closed exactly when that goroutine has come past the closing that follows, so never
-- while the operation is live, only the active operation is live, and the history has at most 32
-- entries.
pub Reachable-IsCoordinated : {c : Coordinator} → Reachable c → IsCoordinated c
Reachable-IsCoordinated starts_empty = new-IsCoordinated
Reachable-IsCoordinated (goes_on r s) = Step-IsCoordinated s (Reachable-IsCoordinated r)
