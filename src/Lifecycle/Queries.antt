-- ===== src/Lifecycle/Queries.antt =====
-- AssertRunning and Status (server/internal/service/run_lifecycle.go): reads outside a transaction,
-- with the subquery of GetActiveTaskRun (server/pkg/db/generated/task_message.sql.go).
use agentra.Base.{ℕ, ◌≡◌, true, false, ◌&&◌, Option, none, some, arith, if◌then◌else◌, ◌==◌, opt_eq}
use agentra.Store.Rows.{TaskStatus, TaskRow, RunRow, status_eq}
use agentra.Store.Tx.{
  Query, Tx, Db, ok, err, stale_run, unavailable, ◌>>=◌, ◌>>◌, return, check, or_error, query,
  one_row, throw,
}
use agentra.Store.Tasks.{get_agent_task}
use agentra.Store.Runs.{get_latest_task_run}
use agentra.Lifecycle.Guards.{RunLifecycle, RunRef}
use agentra.Lifecycle.Links.{Linked}

abbrev active_run_of : Option TaskRow → Option ℕ
active_run_of none = none
active_run_of (some t) = t.active_run_id

-- The run with the given id, if it is a running run of the task and the task's active one.
abbrev running_of : ℕ → ℕ → Option ℕ → Option RunRow → Option RunRow
running_of task_id id active none = none
running_of task_id id active (some r) =
    if (r.task_id == task_id) && (status_eq r.status TaskStatus.running && opt_eq (some id) active)
    then some r
    else none

unfoldable pub get_active_task_run : ℕ → ℕ → Tx RunRow
get_active_task_run task_id id db =
    query Query.get_active_task_run
      (one_row (running_of task_id id (active_run_of (db.tasks task_id)) (db.runs id))) db

assert_running_at : Option ℕ → Option ℕ → Tx TaskRow
unfolding get_active_task_run get_agent_task
assert_running_at none r = throw stale_run
assert_running_at (some w) none = throw stale_run
assert_running_at (some w) (some r) = do
  or_error (get_active_task_run w r) stale_run
  task ← or_error (get_agent_task w) stale_run
  check (status_eq task.status TaskStatus.running && opt_eq task.active_run_id (some r)) stale_run
  return task

unfoldable pub assert_running : RunLifecycle → RunRef → Tx TaskRow
unfolding assert_running_at
assert_running l ref db = elim l.queries [
  | true ↦ assert_running_at ref.work_item_id ref.run_id db
  | false ↦ err unavailable
]

-- The state of a task with no active run belongs to its latest run.
latest_or_stale : ℕ → ℕ → TaskRow → Option ℕ → Tx TaskRow
unfolding get_latest_task_run
latest_or_stale w r task (some active) = do check (active == r) stale_run; return task
latest_or_stale w r task none = do
  latest ← or_error (get_latest_task_run w) stale_run
  check (latest.id == r) stale_run
  return task

status_at : Option ℕ → Option ℕ → Tx TaskRow
unfolding get_agent_task latest_or_stale
status_at none r = throw stale_run
status_at (some w) none = throw stale_run
status_at (some w) (some r) = do
  task ← or_error (get_agent_task w) stale_run
  latest_or_stale w r task task.active_run_id

unfoldable pub status : RunLifecycle → RunRef → Tx TaskRow
unfolding status_at
status l ref db = elim l.queries [
  | true ↦ status_at ref.work_item_id ref.run_id db
  | false ↦ err stale_run
]

-- In ledgers that agree, and with a database that answers, AssertRunning gives the stored row of a
-- work item when it is running and the run is its active attempt, and ErrStaleRun otherwise.
pub assert_running_iff :
    (l : RunLifecycle) (w r : ℕ) (db : Db) (task : TaskRow)
    → l.queries ≡ true
    → ((q : Query) → db.fails q ≡ false)
    → Linked db
    → db.tasks w ≡ some task
    → assert_running l (record { work_item_id = some w; run_id = some r }) db ≡ (
        if status_eq task.status TaskStatus.running && opt_eq task.active_run_id (some r)
        then ok (task, db)
        else err stale_run)
unfolding assert_running
assert_running_iff l w r db task hq nf v ht =
    ground (arith, nf Query.get_active_task_run, nf Query.get_agent_task, v.task w, v.run r)

-- While a stored work item, which can be read, has an active run, Status answers for that run
-- only; another run is told ErrStaleRun.
pub status_active :
    (l : RunLifecycle) (w r active : ℕ) (db : Db) (task : TaskRow)
    → l.queries ≡ true
    → db.fails Query.get_agent_task ≡ false
    → db.tasks w ≡ some task
    → task.active_run_id ≡ some active
    → status l (record { work_item_id = some w; run_id = some r }) db
      ≡ (if active == r then ok (task, db) else err stale_run)
unfolding status
status_active l w r active db task hq nf ht act = ground arith
