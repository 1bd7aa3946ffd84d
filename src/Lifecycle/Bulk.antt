-- ===== src/Lifecycle/Bulk.antt =====
-- The bulk transitions (server/internal/service/run_lifecycle.go) with their statements
-- (server/pkg/db/generated/agent.sql.go and runtime.sql.go): every target work item, its run and
-- its event, in one statement.
use agentra.Base.{
  ℕ, suc, ◌+◌, Bool, true, false, ◌&&◌, ◌||◌, List, [], ◌∷◌, ◌++◌, Option, none, some, Text, bytes,
  if◌then◌else◌, ◌==◌, opt_eq, ltb, text_eq, length,
}
use agentra.Store.Rows.{TaskStatus, TaskRow, RunRow, EventType, status_eq}
use agentra.Store.Tx.{
  Query, Tx, Db, Result, ok, err, unavailable, unique_violation, ◌>>=◌, return, query, put,
  statement,
}
use agentra.Store.Tasks.{is_active, is_open, is_pending, pending_on}
use agentra.Store.Runs.{latest_of}
use agentra.Store.Outbox.{new_event}
use agentra.Lifecycle.Guards.{RunLifecycle}

-- One bulk statement: which work items it takes, and what becomes of them. `run_of` picks the run
-- that is closed with a work item, `event` the fact that is recorded (or none).
pub record Sweep : Type 0 where
  pub target : TaskRow → Bool
  pub run_of : TaskRow → Option ℕ
  pub change_task : TaskRow → TaskRow
  pub change_run : RunRow → RunRow
  pub event : TaskRow → Option EventType

-- closed_runs: only a run that is still active.
abbrev pub close_active : Sweep → Option ℕ → (ℕ → Option RunRow) → ℕ → Option RunRow
close_active s none runs = runs
close_active s (some r) runs = elim (runs r) [
  | none ↦ runs
  | some run ↦ if is_active run.status then put r (s.change_run run) runs else runs
]

abbrev emit : Option EventType → ℕ → Option ℕ → TaskStatus → Db → Db
emit none w r payload db = db
emit (some event) w r payload db = record db {
  outbox = db.outbox ++ new_event db.next_id db.now w r event payload ∷ [];
  next_id = db.next_id + 1;
}

abbrev pub swept : Sweep → ℕ → TaskRow → Db → Db
swept s w t db = emit (s.event t) w (s.run_of t) (s.change_task t).status (record db {
  tasks = put w (s.change_task t) db.tasks;
  runs = close_active s (s.run_of t) db.runs;
})

-- The statement at one work item.
unfoldable pub sweep_one : Sweep → ℕ → Db → Db
sweep_one s w db = elim (db.tasks w) [
  | none ↦ db
  | some t ↦ if s.target t then swept s w t db else db
]

-- Targets are chosen before any row changes; a row that one target changes is its own work item and
-- the run that it names, so going through the rows in turn is the same.
unfoldable pub sweep : Sweep → List ℕ → Db → Db
unfolding sweep_one
sweep s [] db = db
sweep s (w ∷ ws) db = sweep s ws (sweep_one s w db)

-- The rows that the statement returns.
unfoldable pub targets : Sweep → (ℕ → Option TaskRow) → List ℕ → List ℕ
targets s tasks [] = []
targets s tasks (w ∷ ws) = elim (tasks w) [
  | none ↦ targets s tasks ws
  | some t ↦ if s.target t then w ∷ targets s tasks ws else targets s tasks ws
]

abbrev pub cancelling : (TaskRow → Bool) → Db → Sweep
cancelling chosen db = record {
  target = λ t. chosen t && is_open t.status;
  run_of = λ t. t.active_run_id;
  change_task = λ t. record t {
    status = TaskStatus.cancelled;
    completed_at = some db.now;
    active_run_id = none;
  };
  change_run = λ r. record r { status = TaskStatus.cancelled; completed_at = some db.now };
  event = λ t. some EventType.run_cancelled;
}

abbrev pub failing : (TaskRow → Bool) → Text → Db → Sweep
failing chosen message db = record {
  target = chosen;
  run_of = λ t. t.active_run_id;
  change_task = λ t. record t {
    status = TaskStatus.failed;
    completed_at = some db.now;
    error = some message;
    active_run_id = none;
  };
  change_run = λ r. record r {
    status = TaskStatus.failed;
    completed_at = some db.now;
    error = some message;
  };
  event = λ t. some EventType.run_failed;
}

-- A time that is set and lies more than `timeout` before `now`.
abbrev pub older : Option ℕ → ℕ → ℕ → Bool
older none timeout now = false
older (some at) timeout now = ltb (at + timeout) now

abbrev pub is_stale : ℕ → ℕ → ℕ → TaskRow → Bool
is_stale dispatch_timeout running_timeout now t =
    (status_eq t.status TaskStatus.dispatched && older t.dispatched_at dispatch_timeout now)
    || (status_eq t.status TaskStatus.running && older t.started_at running_timeout now)

abbrev pub is_orphan : Db → TaskRow → Bool
is_orphan db t =
    is_active t.status && elim t.runtime_id [ none ↦ false | some rt ↦ db.runtime_offline rt ]

bulk : Query → Sweep → Tx (List ℕ)
bulk q s db = query q (λ d. ok (targets s d.tasks d.task_ids, sweep s d.task_ids d)) db

counted : Bool → Tx (List ℕ) → Db → Result ℕ × Db
unfolding statement
counted true m db = statement (do events ← m; return (length events)) db
counted false m db = (err unavailable, db)

unfoldable pub cancel_for_issue : RunLifecycle → Option ℕ → Db → Result ℕ × Db
unfolding counted bulk
cancel_for_issue l none db = (err unavailable, db)
cancel_for_issue l (some issue) db =
    counted l.queries (bulk Query.cancel_by_issue (cancelling (λ t. t.issue_id == issue) db)) db

unfoldable pub cancel_for_agent : RunLifecycle → Option ℕ → Db → Result ℕ × Db
unfolding counted bulk
cancel_for_agent l none db = (err unavailable, db)
cancel_for_agent l (some agent) db =
    counted l.queries (bulk Query.cancel_by_agent (cancelling (λ t. t.agent_id == agent) db)) db

unfoldable pub fail_stale_tasks : RunLifecycle → ℕ → ℕ → Db → Result ℕ × Db
unfolding counted bulk
fail_stale_tasks l dispatch_timeout running_timeout db =
    counted l.queries
      (bulk Query.fail_stale
        (failing (is_stale dispatch_timeout running_timeout db.now) (bytes "task timed out") db))
      db

unfoldable pub fail_tasks_for_offline_runtimes : RunLifecycle → Db → Result ℕ × Db
unfolding counted bulk
fail_tasks_for_offline_runtimes l db =
    counted l.queries
      (bulk Query.fail_offline (failing (is_orphan db) (bytes "runtime went offline") db)) db

abbrev text_is : Option Text → Text → Bool
text_is none s = false
text_is (some e) s = text_eq e s

abbrev budget_left : TaskRow → Bool
budget_left t = ltb t.retry_count t.max_retries

abbrev run_or_latest : Db → TaskRow → Option ℕ → Option ℕ
run_or_latest db t (some r) = some r
run_or_latest db t none = elim (latest_of db.runs t.id db.run_ids none) [
  | none ↦ none
  | some run ↦ some run.id
]

unfoldable pub recovering : ℕ → Db → Sweep
unfolding latest_of
recovering runtime db = record {
  target = λ t.
      opt_eq t.runtime_id (some runtime)
      && (is_active t.status
          || (status_eq t.status TaskStatus.failed
              && text_is t.error (bytes "runtime went offline")));
  run_of = λ t. run_or_latest db t t.active_run_id;
  change_task = λ t. record t {
    status = if budget_left t then TaskStatus.queued else TaskStatus.failed;
    completed_at = if budget_left t then none else some db.now;
    error =
        if budget_left t
        then none
        else some (bytes "runtime restarted and retry budget was exhausted");
    retry_count = if budget_left t then t.retry_count + 1 else t.retry_count;
    dispatched_at = none;
    started_at = none;
    active_run_id = none;
  };
  change_run = λ r. record r {
    status = TaskStatus.failed;
    completed_at = some db.now;
    error = some (bytes "runtime restarted; task queued for resume");
  };
  event = λ t.
      if budget_left t
      then some EventType.run_retry_scheduled
      else (if is_active t.status then some EventType.run_failed else none);
}

-- How many of the listed work items have the given status.
count_status : (ℕ → Option TaskRow) → TaskStatus → List ℕ → ℕ
count_status tasks s [] = 0
count_status tasks s (w ∷ ws) = elim (tasks w) [
  | none ↦ count_status tasks s ws
  | some t ↦ if status_eq t.status s then suc (count_status tasks s ws) else count_status tasks s ws
]

-- The unique index on the issues of pending work items, over the whole table. PostgreSQL looks at one
-- row after another: a refusal for a row that moves away later in the statement is one of `fails`.
unfoldable pub duplicated : (ℕ → Option TaskRow) → List ℕ → Bool
unfolding pending_on
duplicated tasks [] = false
duplicated tasks (w ∷ ws) =
    elim (tasks w) [
      | none ↦ false
      | some t ↦ is_pending t.status && pending_on tasks t.issue_id w ws
    ]
    || duplicated tasks ws

recover_rows : Sweep → Tx (ℕ × ℕ)
unfolding count_status duplicated
recover_rows s db =
    query Query.recover_runtime
      (λ d.
        let d' = sweep s d.task_ids d in
        let rows = targets s d.tasks d.task_ids in
        if duplicated d'.tasks d'.task_ids
        then err unique_violation
        else ok (
          (
            count_status d'.tasks TaskStatus.queued rows,
            count_status d'.tasks TaskStatus.failed rows,
          ),
          d',
        ))
      db

recover_at : Bool → Option ℕ → Db → Result (ℕ × ℕ) × Db
unfolding recover_rows statement
recover_at false runtime db = (err unavailable, db)
recover_at true none db = (err unavailable, db)
recover_at true (some runtime) db = statement (recover_rows (recovering runtime db)) db

-- The numbers of work items put back on the queue and failed.
unfoldable pub recover_tasks_for_runtime : RunLifecycle → Option ℕ → Db → Result (ℕ × ℕ) × Db
unfolding recover_at
recover_tasks_for_runtime l runtime db = recover_at l.queries runtime db
