-- ===== src/Controller/Tests.antt =====
-- The coordinator at a concrete interleaving: a start that has been settled but not yet entered in
-- the history when a stop is submitted.
use credimi_runner.Prelude.{ℕ, ◌<◌, ◌≡◌, refl, true, false, none, arith}
use credimi_runner.Controller.Operation.{
  runtime_start, runtime_stop, queued, Snapshot, Coordinator, new_coordinator, is_live, accepted,
  conflict, submit, begin, outcome, settle,
}
use credimi_runner.Controller.Steps.{submits, begins, settles, Reachable, starts_empty, goes_on}
use credimi_runner.Controller.Laws.{IsCoordinated, Reachable-IsCoordinated}
use credimi_runner.Controller.Promises.{one_live_operation, ended_stays, submit_conflicts}

one_submitted : Coordinator
unfolding submit new_coordinator
one_submitted = (submit true runtime_start 5 new_coordinator).0

one_begun : Coordinator
unfolding one_submitted begin
one_begun = begin 0 6 one_submitted

one_settled : Coordinator
unfolding one_begun settle
one_settled = settle 0 none none 7 one_begun

two_submitted : Coordinator
unfolding one_settled
two_submitted = (submit true runtime_stop 8 one_settled).0

one_submitted-Reachable : Reachable one_submitted
unfolding one_submitted
one_submitted-Reachable = goes_on starts_empty (submits true runtime_start 5)

one_begun-Reachable : Reachable one_begun
unfolding one_begun one_submitted submit new_coordinator
one_begun-Reachable = goes_on one_submitted-Reachable (begins 0 6 (omega arith) refl)

one_settled-Reachable : Reachable one_settled
unfolding one_settled one_begun one_submitted submit new_coordinator begin
one_settled-Reachable = goes_on one_begun-Reachable (settles 0 none none 7 (omega arith) refl)

two_submitted-Reachable : Reachable two_submitted
unfolding two_submitted
two_submitted-Reachable = goes_on one_settled-Reachable (submits true runtime_stop 8)

second_allocated : 1 < two_submitted.fresh
unfolding two_submitted one_settled one_begun one_submitted submit new_coordinator begin settle
    outcome
second_allocated = omega arith

second_live : is_live (two_submitted.heap 1).snap.phase ≡ true
unfolding two_submitted one_settled one_begun one_submitted submit new_coordinator begin settle
    outcome
second_live = refl

first_allocated : 0 < one_settled.fresh
unfolding one_settled one_begun one_submitted submit new_coordinator begin settle outcome
first_allocated = omega arith

first_over : is_live (one_settled.heap 0).snap.phase ≡ false
unfolding one_settled one_begun one_submitted submit new_coordinator begin settle outcome
first_over = refl

all_over : (a : ℕ) → a < one_settled.fresh → is_live (one_settled.heap a).snap.phase ≡ false
unfolding one_settled one_begun one_submitted submit new_coordinator begin settle outcome
all_over a lt = ground arith

Reachable-IsCoordinated_example : IsCoordinated two_submitted
Reachable-IsCoordinated_example = Reachable-IsCoordinated two_submitted-Reachable

abbrev second : ℕ
second = 1

one_live_operation_example : second ≡ second
one_live_operation_example =
    one_live_operation two_submitted second second two_submitted-Reachable second_allocated
      second_allocated second_live second_live

ended_stays_example :
    ((two_submitted.heap 0).snap ≡ (one_settled.heap 0).snap) × (0 < two_submitted.fresh)
unfolding two_submitted
ended_stays_example =
    ended_stays one_settled two_submitted 0 (submits true runtime_stop 8) first_allocated first_over

abbrev first_snapshot : Snapshot
first_snapshot = record {
  id = 1;
  kind = runtime_start;
  phase = queued;
  started_at = 5;
  updated_at = 5;
  finished_at = none;
  text = "operation queued";
  error = none;
}

first_accepted : (submit true runtime_start 5 new_coordinator).1 ≡ accepted first_snapshot
unfolding submit new_coordinator
first_accepted = refl

submit_conflicts_example :
    submit true runtime_start 9 two_submitted
    ≡ (two_submitted, conflict (two_submitted.heap 1).snap)
submit_conflicts_example =
    submit_conflicts two_submitted runtime_start 9 1 two_submitted-Reachable second_allocated
      second_live
