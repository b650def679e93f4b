-- ===== src/Controller/Operation.antt =====
-- The coordinator of lifecycle operations, internal/controller/operation.go. Operations are shared
-- through pointers, which are addresses of `heap` here: the coordinator, its table of IDs and the
-- goroutine of an operation all name the same one.
use credimi_runner.Prelude.{
  ℕ, ◌+◌, ◌-◌, ◌%◌, ◌^◌, Bool, true, false, ◌||◌, String, str_eq, str_append, Option, none, some,
  List, [], ◌∷◌, ◌++◌, if◌then◌else◌, ◌==◌, length, take, drop,
}
use credimi_runner.GoError.{GoError, message, is_canceled}

pub data OperationKind : Type 0 where
  runtime_start runtime_stop runtime_restart registration config_apply : OperationKind

pub data OperationPhase : Type 0 where
  queued running succeeded failed cancelled : OperationPhase

pub record Progress : Type 0 where
  pub phase : String
  pub text : String

-- Times are numbers, and `finished_at` is `none` for the zero time. `error` is the error whose text
-- the source stores.
pub record Snapshot : Type 0 where
  pub id : ℕ
  pub kind : OperationKind
  pub phase : OperationPhase
  pub started_at : ℕ
  pub updated_at : ℕ
  pub finished_at : Option ℕ
  pub text : String
  pub error : Option GoError

-- Where the goroutine of an operation stands in `run`: before its first statement, in the action,
-- after the first critical section of `finish` with the snapshot that it took, after `done` has
-- been closed, or at its end.
pub data Stage : Type 0 where
  ready acting ended : Stage
  closing settling : Snapshot → Stage

-- `is_done` says whether the channel `done` is closed.
pub record Operation : Type 0 where
  pub snap : Snapshot
  pub is_done : Bool
  pub stage : Stage

-- Addresses below `fresh` are allocated. `by_id` has the pairs of an ID and an address, the newest
-- first.
pub record Coordinator : Type 0 where
  pub next_id : ℕ
  pub active : Option ℕ
  pub last : Option Snapshot
  pub by_id : List (ℕ × ℕ)
  pub history : List Snapshot
  pub heap : ℕ → Operation
  pub fresh : ℕ

abbrev pub max_history : ℕ
max_history = 32

abbrev pub is_live : OperationPhase → Bool
is_live queued = true
is_live running = true
is_live _ = false

-- An address that is not allocated holds this.
abbrev unallocated : Operation
unallocated = record {
  snap = record {
    id = 0;
    kind = registration;
    phase = cancelled;
    started_at = 0;
    updated_at = 0;
    finished_at = none;
    text = "";
    error = none;
  };
  is_done = true;
  stage = ended;
}

unfoldable pub new_coordinator : Coordinator
new_coordinator = record {
  next_id = 0;
  active = none;
  last = none;
  by_id = [];
  history = [];
  heap = λ a. unallocated;
  fresh = 0;
}

abbrev pub set_at : ℕ → Operation → (ℕ → Operation) → ℕ → Operation
set_at a op heap b = if b == a then op else heap b

-- `byID[id]`
abbrev pub lookup : ℕ → List (ℕ × ℕ) → Option ℕ
lookup id [] = none
lookup id ((i, a) ∷ ps) = if i == id then some a else lookup id ps

-- `delete(byID, id)`
abbrev pub delete : ℕ → List (ℕ × ℕ) → List (ℕ × ℕ)
delete id [] = []
delete id ((i, a) ∷ ps) = let rest = delete id ps in if i == id then rest else (i, a) ∷ rest

abbrev pub delete_all : List Snapshot → List (ℕ × ℕ) → List (ℕ × ℕ)
delete_all [] ps = ps
delete_all (s ∷ ss) ps = delete_all ss (delete s.id ps)

pub data Submitted : Type 0 where
  accepted : Snapshot → Submitted
  conflict : Snapshot → Submitted
  refused : GoError → Submitted

-- `nextID` is a `uint64`.
abbrev pub next : ℕ → ℕ
next n = (n + 1) % 2 ^ 64

abbrev pub queued_snapshot : ℕ → OperationKind → ℕ → Snapshot
queued_snapshot id kind now = record {
  id = id;
  kind = kind;
  phase = queued;
  started_at = now;
  updated_at = now;
  finished_at = none;
  text = "operation queued";
  error = none;
}

abbrev pub enqueue : OperationKind → ℕ → Coordinator → Coordinator × Submitted
enqueue kind now c =
    let snap = queued_snapshot (next c.next_id) kind now in
    let op : Operation = record { snap = snap; is_done = false; stage = ready } in
    (
      record c {
        next_id = next c.next_id;
        active = some c.fresh;
        by_id = (next c.next_id, c.fresh) ∷ c.by_id;
        heap = set_at c.fresh op c.heap;
        fresh = c.fresh + 1;
      },
      accepted snap,
    )

-- The snapshot of the active operation that stands in the way of a new one.
abbrev pub blocking : Option ℕ → (ℕ → Operation) → Option Snapshot
blocking none heap = none
blocking (some a) heap = if is_live (heap a).snap.phase then some (heap a).snap else none

abbrev pub submit_by : Option Snapshot → OperationKind → ℕ → Coordinator → Coordinator × Submitted
submit_by (some s) kind now c = (c, conflict s)
submit_by none kind now c = enqueue kind now c

-- `Submit`; `has_action` is false for a nil action.
unfoldable pub submit : Bool → OperationKind → ℕ → Coordinator → Coordinator × Submitted
submit has_action kind now c =
    if has_action
    then submit_by (blocking c.active c.heap) kind now c
    else (c, refused (message "operation action is nil"))

abbrev progress_text : Progress → String → String
progress_text p old =
    if str_eq p.phase ""
    then (if str_eq p.text "" then old else p.text)
    else str_append p.phase (str_append ": " p.text)

abbrev pub updated : Progress → ℕ → Snapshot → Snapshot
updated p now s =
    if is_live s.phase
    then record s { phase = running; text = progress_text p s.text; updated_at = now }
    else s

-- `update`
unfoldable pub update : ℕ → Progress → ℕ → Coordinator → Coordinator
update a p now c =
    let op = c.heap a in
    record c { heap = set_at a (record op { snap = updated p now op.snap }) c.heap }

-- The first statement of `run`.
unfoldable pub begin : ℕ → ℕ → Coordinator → Coordinator
begin a now c =
    let op = c.heap a in
    let p : Progress = record { phase = "running"; text = "operation started" } in
    record c { heap = set_at a (record op { snap = updated p now op.snap; stage = acting }) c.heap }

-- How `run` ends: the phase, the message and the error that it hands to `finish`.
abbrev is_canceled_by : Option GoError → Bool
is_canceled_by none = false
is_canceled_by (some e) = is_canceled e

unfoldable pub outcome : Option GoError → Option GoError → OperationPhase × String × Option GoError
outcome (some e) ctx =
    if is_canceled e || is_canceled_by ctx
    then (cancelled, "operation cancelled", some e)
    else (failed, "operation failed", some e)
outcome none (some e) = (cancelled, "operation cancelled", some e)
outcome none none = (succeeded, "operation completed", none)

-- The first critical section of `finish`.
abbrev pub settled : OperationPhase × String × Option GoError → ℕ → Operation → Operation
settled (phase, text, e) now op =
    let s : Snapshot = record op.snap {
      phase = phase;
      text = text;
      updated_at = now;
      finished_at = some now;
      error = elim e [ none ↦ op.snap.error | some x ↦ some x ];
    } in
    if is_live op.snap.phase
    then record op { snap = s; stage = closing s }
    else record op { stage = ended }

-- The end of the action, with its error and the error of the context.
unfoldable pub settle : ℕ → Option GoError → Option GoError → ℕ → Coordinator → Coordinator
unfolding outcome
settle a result ctx now c = record c {
  heap = set_at a (settled (outcome result ctx) now (c.heap a)) c.heap;
}

-- `close(op.done)`, between the two critical sections.
unfoldable pub close_channel : ℕ → Snapshot → Coordinator → Coordinator
close_channel a s c = record c {
  heap = set_at a (record (c.heap a) { is_done = true; stage = settling s }) c.heap;
}

abbrev pub release : ℕ → Option ℕ → Option ℕ
release a none = none
release a (some b) = if b == a then none else some b

-- The second critical section of `finish`: the snapshot joins the history, whose oldest entries
-- beyond the maximum are forgotten with their IDs.
unfoldable pub enter_history : ℕ → Snapshot → Coordinator → Coordinator
enter_history a s c =
    let all = c.history ++ (s ∷ []) in
    let cut = length all - max_history in
    record c {
      last = some s;
      history = drop cut all;
      by_id = delete_all (take cut all) c.by_id;
      active = release a c.active;
      heap = set_at a (record (c.heap a) { stage = ended }) c.heap;
    }

abbrev snap_at : Option ℕ → (ℕ → Operation) → Option Snapshot
snap_at none heap = none
snap_at (some a) heap = some (heap a).snap

abbrev or_last : Option Snapshot → Option Snapshot → Option Snapshot
or_last none last = last
or_last (some s) last = some s

-- `Current`; `none` is the zero snapshot of a coordinator that has finished nothing.
unfoldable pub current : Coordinator → Option Snapshot
current c = or_last (snap_at c.active c.heap) c.last

-- `Get`
unfoldable pub get : ℕ → Coordinator → Option Snapshot
get id c = snap_at (lookup id c.by_id) c.heap

abbrev done_at : Option ℕ → (ℕ → Operation) → Bool
done_at none heap = false
done_at (some a) heap = (heap a).is_done

-- Whether `Wait` on this ID returns at once with the snapshot of `Get`.
unfoldable pub returns_at_once : ℕ → Coordinator → Bool
returns_at_once id c = done_at (lookup id c.by_id) c.heap
