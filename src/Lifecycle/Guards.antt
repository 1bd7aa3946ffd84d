-- ===== src/Lifecycle/Guards.antt =====
-- The receiver, the reference of a callback, and the locked transition that every attempt-scoped
-- method runs in (server/internal/service/run_lifecycle.go).
use agentra.Base.{
  ℕ, Bool, false, ◌&&◌, ◌||◌, List, [], ◌∷◌, Option, none, some, if◌then◌else◌, ◌==◌, opt_eq,
}
use agentra.Store.Rows.{TaskStatus, TaskRow, RunRow, EventType, status_eq}
use agentra.Store.Tx.{
  Tx, Db, Result, err, stale_run, unavailable, ◌>>=◌, ◌>>◌, return, check, or_error, transaction,
}
use agentra.Store.Tasks.{get_agent_task_for_update}
use agentra.Store.Runs.{get_task_run_for_update}
use agentra.Store.Outbox.{append_lifecycle_outbox_event}

-- Which of the receiver's collaborators are set; a nil receiver has neither.
pub record RunLifecycle : Type 0 where
  pub starter : Bool
  pub queries : Bool

pub record RunRef : Type 0 where
  pub work_item_id : Option ℕ
  pub run_id : Option ℕ

abbrev pub contains_status : List TaskStatus → TaskStatus → Bool
contains_status [] status = false
contains_status (candidate ∷ rest) status =
    status_eq candidate status || contains_status rest status

-- The checks under both row locks, then the change.
unfoldable pub locked :
    ℕ → ℕ → List TaskStatus → List TaskStatus → (TaskRow → RunRow → Tx TaskRow) → Tx TaskRow
unfolding get_agent_task_for_update get_task_run_for_update
locked w r task_statuses run_statuses apply = do
  task ← or_error (get_agent_task_for_update w) stale_run
  run ← or_error (get_task_run_for_update r) stale_run
  check
      ((run.task_id == w)
        && (opt_eq task.active_run_id (some r)
            && (status_eq task.status run.status
                && (contains_status task_statuses task.status
                    && contains_status run_statuses run.status))))
      stale_run
  apply task run

unfoldable pub locked_run :
    Option ℕ
    → Option ℕ
    → List TaskStatus
    → List TaskStatus
    → (ℕ → ℕ → TaskRow → RunRow → Tx TaskRow)
    → Db
    → Result TaskRow × Db
unfolding locked transaction
locked_run none r ts rs apply db = (err stale_run, db)
locked_run (some w) none ts rs apply db = (err stale_run, db)
locked_run (some w) (some r) ts rs apply db = transaction (locked w r ts rs (apply w r)) db

unfoldable pub with_locked_run :
    RunLifecycle
    → RunRef
    → List TaskStatus
    → List TaskStatus
    → (ℕ → ℕ → TaskRow → RunRow → Tx TaskRow)
    → Db
    → Result TaskRow × Db
unfolding locked_run
with_locked_run l ref task_statuses run_statuses apply db =
    if l.starter && l.queries
    then locked_run ref.work_item_id ref.run_id task_statuses run_statuses apply db
    else (err unavailable, db)

unfoldable pub append_event : EventType → TaskRow → Option ℕ → Tx (Unit {0})
unfolding append_lifecycle_outbox_event
append_event event_type task run_id = do
  append_lifecycle_outbox_event task.id run_id event_type task.status
  return tt
