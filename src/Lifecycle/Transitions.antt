-- ===== src/Lifecycle/Transitions.antt =====
-- The attempt-scoped transitions of server/internal/service/run_lifecycle.go: Start, Checkpoint,
-- Complete, Fail, RetryActive and Cancel.
use agentra.Base.{
  ℕ, ◌-◌, not, ◌&&◌, List, [], ◌∷◌, Option, none, some, Text, if◌then◌else◌, ◌==◌, ltb, is_empty,
}
use agentra.Store.Rows.{TaskStatus, TaskRow, RunRow, EventType, status_eq}
use agentra.Store.Tx.{
  Tx, Db, Result, ok, err, no_rows, stale_run, unavailable, ◌>>=◌, ◌>>◌, return, check, or_error,
  transaction,
}
use agentra.Store.Tasks.{
  get_agent_task_for_update, set_agent_task_running, checkpoint_agent_task_session_for_run,
  complete_agent_task_for_run, fail_agent_task_for_run, retry_agent_task, cancel_agent_task,
}
use agentra.Store.Runs.{
  CompleteTaskRunParams, get_task_run_for_update, set_task_run_running, checkpoint_task_run,
  complete_task_run,
}
use agentra.Lifecycle.Guards.{RunLifecycle, RunRef, contains_status, with_locked_run, append_event}

-- An int64: `negsuc n` is -(n + 1).
pub data ℤ : Type 0 where
  pos negsuc : ℕ → ℤ

unfoldable pub clamp_int32 : ℤ → ℕ
clamp_int32 (pos n) = if ltb 2147483647 n then 2147483647 else n
clamp_int32 (negsuc n) = 0

-- pgtype.Text{String: s, Valid: s != ""}.
abbrev pub text_or_null : Text → Option Text
text_or_null s = if is_empty s then none else some s

abbrev pub attempt : List TaskStatus
attempt = TaskStatus.dispatched ∷ TaskStatus.running ∷ []

abbrev pub only_running : List TaskStatus
only_running = TaskStatus.running ∷ []

unfoldable pub start_body : ℕ → ℕ → TaskRow → RunRow → Tx TaskRow
unfolding set_task_run_running set_agent_task_running append_event
start_body w r _ _ = do
  set_task_run_running r w
  updated ← set_agent_task_running w r
  append_event EventType.run_started updated (some r)
  return updated

unfoldable pub start : RunLifecycle → RunRef → Db → Result TaskRow × Db
start l ref =
    with_locked_run l ref (TaskStatus.dispatched ∷ []) (TaskStatus.dispatched ∷ []) start_body

unfoldable pub checkpoint_body : Text → Text → ℕ → ℕ → TaskRow → RunRow → Tx TaskRow
unfolding checkpoint_task_run checkpoint_agent_task_session_for_run append_event
checkpoint_body session_id work_dir w r _ _ = do
  checkpoint_task_run r (text_or_null session_id) (text_or_null work_dir)
  updated ←
      checkpoint_agent_task_session_for_run w r (text_or_null session_id) (text_or_null work_dir)
  append_event EventType.run_checkpointed updated (some r)
  return updated

unfoldable pub checkpoint : RunLifecycle → RunRef → Text → Text → Db → Result TaskRow × Db
checkpoint l ref session_id work_dir =
    with_locked_run l ref only_running only_running (checkpoint_body session_id work_dir)

pub record RunCompletion : Type 0 where
  pub result : Text
  pub session_id : Text
  pub work_dir : Text
  pub duration_ms : ℤ
  pub total_tokens : ℤ

abbrev pub completed_params : RunCompletion → CompleteTaskRunParams
completed_params c = record {
  status = TaskStatus.completed;
  duration_ms = some (clamp_int32 c.duration_ms);
  exit_code = some 0;
  total_steps = some 0;
  total_tokens = some (clamp_int32 c.total_tokens);
  total_cost = none;
  output = text_or_null c.result;
  error = none;
  session_id = text_or_null c.session_id;
  work_dir = text_or_null c.work_dir;
}

unfoldable pub complete_body : RunCompletion → ℕ → ℕ → TaskRow → RunRow → Tx TaskRow
unfolding complete_task_run complete_agent_task_for_run append_event
complete_body c w r _ _ = do
  complete_task_run r (completed_params c)
  updated ←
      complete_agent_task_for_run w r (text_or_null c.result) (text_or_null c.session_id)
        (text_or_null c.work_dir)
  append_event EventType.run_completed updated (some r)
  return updated

unfoldable pub complete : RunLifecycle → RunRef → RunCompletion → Db → Result TaskRow × Db
complete l ref completion =
    with_locked_run l ref only_running only_running (complete_body completion)

-- What a run that ends without a result keeps of its row.
abbrev pub ended : TaskStatus → Option ℕ → Option Text → RunRow → CompleteTaskRunParams
ended status duration error run = record {
  status = status;
  duration_ms = duration;
  exit_code = none;
  total_steps = run.total_steps;
  total_tokens = run.total_tokens;
  total_cost = run.total_cost;
  output = run.output;
  error = error;
  session_id = run.session_id;
  work_dir = run.work_dir;
}

-- time.Since(run.StartedAt) in milliseconds, or 0 for a run with no start.
abbrev pub elapsed : RunRow → ℕ → ℕ
elapsed run now = elim run.started_at [ none ↦ 0 | some s ↦ clamp_int32 (pos (now - s)) ]

unfoldable pub fail_body : Text → ℕ → ℕ → TaskRow → RunRow → Tx TaskRow
unfolding complete_task_run fail_agent_task_for_run append_event
fail_body message w r _ run db =
    (do
      complete_task_run r
          (ended TaskStatus.failed (some (elapsed run db.now)) (text_or_null message) run)
      updated ← fail_agent_task_for_run w r (some message)
      append_event EventType.run_failed updated (some r)
      return updated)
      db

unfoldable pub fail : RunLifecycle → RunRef → Text → Db → Result TaskRow × Db
fail l ref message = with_locked_run l ref attempt attempt (fail_body message)

unfoldable pub retry_body : Text → ℕ → ℕ → TaskRow → RunRow → Tx TaskRow
unfolding complete_task_run retry_agent_task append_event
retry_body message w r _ run = do
  complete_task_run r (ended TaskStatus.failed none (text_or_null message) run)
  updated ← retry_agent_task w
  append_event EventType.run_retry_scheduled updated (some r)
  return updated

-- A missing row, such as a spent retry budget, is no error: the answer is `none`, for (…, false, nil).
abbrev pub retry_result : Result TaskRow × Db → Result (Option TaskRow) × Db
retry_result (ok task, db) = (ok (some task), db)
retry_result (err no_rows, db) = (ok none, db)
retry_result (err e, db) = (err e, db)

unfoldable pub retry_active : RunLifecycle → RunRef → Text → Db → Result (Option TaskRow) × Db
retry_active l ref message db =
    retry_result (with_locked_run l ref attempt attempt (retry_body message) db)

-- The run of the locked work item, if it has one, is closed first.
unfoldable pub close_active : ℕ → TaskRow → Option ℕ → Tx (Unit {0})
unfolding get_task_run_for_update complete_task_run
close_active w task none = check (not (contains_status attempt task.status)) stale_run
close_active w task (some r) = do
  run ← or_error (get_task_run_for_update r) stale_run
  check
      ((run.task_id == w)
        && (status_eq task.status run.status && contains_status attempt run.status))
      stale_run
  complete_task_run run.id (ended TaskStatus.cancelled none run.error run)
  return tt

unfoldable pub cancel_body : ℕ → Tx (TaskRow × Option ℕ)
unfolding get_agent_task_for_update close_active cancel_agent_task append_event
cancel_body w = do
  task ← get_agent_task_for_update w
  close_active w task task.active_run_id
  updated ← cancel_agent_task w
  append_event EventType.run_cancelled updated task.active_run_id
  return (updated, task.active_run_id)

unfoldable pub cancel : RunLifecycle → Option ℕ → Db → Result (TaskRow × Option ℕ) × Db
cancel l none db = (err unavailable, db)
cancel l (some w) db =
    if l.starter && l.queries then transaction (cancel_body w) db else (err unavailable, db)
