-- ===== src/Loop/Projector.antt =====
-- The durable consumer of lifecycle events (server/internal/loop/lifecycle_projector.go).
use agentra.Base.{
  ℕ, zero, suc, Bool, true, false, Option, none, some, Text, if◌then◌else◌, ◌==◌, is_empty,
}
use agentra.Store.Rows.{TaskRow, RunRow, EventType, EventRow, LoopStatus, FailureReason, LoopRow}
use agentra.Store.Tx.{
  Query, Db, Error, Result, ok, err, no_rows, db_error, unsupported_version, no_run_id, wrong_run,
  unsupported_event,
}
use agentra.Store.Io.{Io, ◌>>=◌, ◌>>◌, return, throw, check, run}
use agentra.Store.Tasks.{get_agent_task}
use agentra.Store.Runs.{get_task_run}
use agentra.Store.Loops.{get_loop_for_update, task_type_eq}
use agentra.Store.Consumer.{
  claim_engineering_loop_lifecycle_event, record_engineering_loop_lifecycle_receipt,
  record_engineering_loop_lifecycle_failure,
}
use agentra.Loop.Policy.{TaskResult, fail, task_type_for_stage, decide_next_stage, classify_error}
use agentra.Loop.Verdict.{parse_task_result}
use agentra.Loop.Coordinator.{apply_decision}

-- l.Status == StatusRunning, its stage is set, and the task is that stage's.
abbrev pub is_current : LoopRow → TaskRow → Bool
is_current l task = elim l.status [
  | LoopStatus.running ↦ elim l.current_stage [
    | none ↦ false
    | some stage ↦ task_type_eq task.task_type (task_type_for_stage stage)
  ]
  | _ ↦ false
]

abbrev pub reason_of : Option Text → FailureReason
reason_of none = FailureReason.unrecoverable_error
reason_of (some message) =
    if is_empty message then FailureReason.unrecoverable_error else classify_error message

module _ (parse_uuid : Text → Option ℕ) (unmarshal : Text → Option TaskResult) where
  abbrev pub parsed : Option Text → Option TaskResult
  parsed none = none
  parsed (some output) = parse_task_result unmarshal output

  -- The switch on the type of the event, with the exact run.
  unfoldable pub apply_run : EventRow → LoopRow → RunRow → Io (Unit {0})
  apply_run event l r = elim event.event_type [
    | EventType.run_completed ↦ apply_decision parse_uuid l (decide_next_stage l (parsed r.output))
    | EventType.run_failed ↦ apply_decision parse_uuid l (fail (reason_of r.error))
    | _ ↦ throw unsupported_event
  ]

  unfoldable pub apply_terminal : EventRow → TaskRow → LoopRow → Option ℕ → Io (Unit {0})
  unfolding get_task_run
  apply_terminal event task l none = throw no_run_id
  apply_terminal event task l (some run_id) = do
    r ← run (get_task_run run_id)
    check (r.task_id == task.id) wrong_run
    apply_run event l r

  unfoldable pub apply_current : EventRow → TaskRow → LoopRow → Io (Unit {0})
  unfolding apply_terminal
  apply_current event task l = elim event.event_type [
    | EventType.work_item_rejected ↦
        apply_decision parse_uuid l (fail FailureReason.invalid_configuration)
    | _ ↦ apply_terminal event task l event.run_id
  ]

  unfoldable pub apply_loop : EventRow → TaskRow → Option ℕ → Io (Unit {0})
  unfolding get_loop_for_update
  apply_loop event task none = return tt
  apply_loop event task (some loop_id) = do
    l ← run (get_loop_for_update loop_id)
    (elim (is_current l task) [ true ↦ apply_current event task l | false ↦ return tt ])

  unfoldable pub apply : EventRow → Io (Unit {0})
  unfolding get_agent_task apply_loop
  apply event = do
    check (event.event_version == 1) unsupported_version
    task ← run (get_agent_task event.work_item_id)
    apply_loop event task task.loop_id

  -- Commit, or the database from before the transaction.
  abbrev pub commit_over : Db → Db → Result Bool × Db
  commit_over before db = elim (db.fails Query.commit) [
    | true ↦ (err (db_error Query.commit), before)
    | false ↦ (ok true, db)
  ]

  abbrev pub acknowledge : Db → EventRow → Db → Result Bool × Db
  acknowledge before event db =
      let r = run (record_engineering_loop_lifecycle_receipt event.id) db in
      elim r.0 [ ok _ ↦ commit_over before r.1 | err e ↦ (err e, before) ]

  -- The failure is recorded after the rollback, in a statement of its own.
  abbrev pub give_up : Db → EventRow → Error → Result Bool × Db
  give_up before event e =
      let r = run (record_engineering_loop_lifecycle_failure event.id) before in
      elim r.0 [ ok _ ↦ (err e, r.1) | err _ ↦ (err e, r.1) ]

  abbrev pub process : Db → EventRow → Result Bool × Db
  process before event =
      let r = apply event before in
      elim r.0 [ ok _ ↦ acknowledge before event r.1 | err e ↦ give_up before event e ]

  -- One event: whether there was one, or the error that stopped it.
  unfoldable pub process_next : Io Bool
  unfolding claim_engineering_loop_lifecycle_event record_engineering_loop_lifecycle_receipt
      record_engineering_loop_lifecycle_failure
  process_next db = elim (db.fails Query.begin) [
    | true ↦ (err (db_error Query.begin), db)
    | false ↦ elim (claim_engineering_loop_lifecycle_event db) [
      | err e ↦ elim e [ no_rows ↦ (ok false, db) | other ↦ (err other, db) ]
      | ok (event, db') ↦ process db event
    ]
  ]

  -- Drain with as many rounds as `fuel`; `none` means that events were left.
  unfoldable pub drain : ℕ → Db → Option Db
  drain zero db = none
  drain (suc fuel) db =
      let r = process_next db in
      elim r.0 [
        | err e ↦ some r.1
        | ok processed ↦ elim processed [ true ↦ drain fuel r.1 | false ↦ some r.1 ]
      ]
