-- ===== src/Lifecycle/Moves.antt =====
-- What a successful transition writes: its work item, its run and one event, and nothing else.
use agentra.Base.{
  ℕ, ◌+◌, ◌≤◌, ◌≡◌, refl, true, List, [], ◌∷◌, ◌++◌, Option, none, some, Text, arith, inl, inr,
  Option-cases,
}
use agentra.Store.Rows.{TaskStatus, TaskRow, RunRow, EventType}
use agentra.Store.Tx.{Tx, Db, ok, put}
use agentra.Store.Outbox.{new_event}
use agentra.Lifecycle.Guards.{locked_run, contains_status}
use agentra.Lifecycle.Transitions.{
  RunCompletion, start_body, checkpoint_body, complete_body, fail_body, retry_body,
  completed_params, elapsed, text_or_null,
}

-- The database after a transition of the attempt `r` at the work item `w`.
abbrev pub written : ℕ → TaskRow → ℕ → RunRow → EventType → Db → Db
written w t r run event db = record db {
  tasks = put w t db.tasks;
  runs = put r run db.runs;
  outbox = db.outbox ++ new_event db.next_id db.now t.id (some r) event t.status ∷ [];
  next_id = db.next_id + 1;
}

-- A locked transition that succeeds found its rows, found them pointing at one another with one
-- allowed status, and ran its body on them.
pub record Entered (w r : ℕ) (ts rs : List TaskStatus)
    (body : ℕ → ℕ → TaskRow → RunRow → Tx TaskRow) (db db' : Db) (t : TaskRow) : Type 0 where
  pub task : TaskRow
  pub run : RunRow
  pub had_task : db.tasks w ≡ some task
  pub had_run : db.runs r ≡ some run
  pub was_active : task.active_run_id ≡ some r
  pub was_of : run.task_id ≡ w
  pub one_status : task.status ≡ run.status
  pub allowed : contains_status ts task.status ≡ true
  pub ran : body w r task run db ≡ ok (t, db')

module _ (w r : ℕ) (ts rs : List TaskStatus) (body : ℕ → ℕ → TaskRow → RunRow → Tx TaskRow)
    (db db' : Db) (t : TaskRow) where
  Entered-with :
      (task : TaskRow) (run : RunRow)
      → db.tasks w ≡ some task
      → db.runs r ≡ some run
      → locked_run (some w) (some r) ts rs body db ≡ (ok t, db')
      → Entered w r ts rs body db db' t
  unfolding locked_run
  Entered-with task run ht hr h = record {
    task = task;
    run = run;
    had_task = ht;
    had_run = hr;
    was_active = ground arith;
    was_of = ground arith;
    one_status = ground arith;
    allowed = ground arith;
    ran = ground arith;
  }

  no_task : db.tasks w ≡ none → locked_run (some w) (some r) ts rs body db ≡ (ok t, db') → ⊥
  unfolding locked_run
  no_task e h = ground arith

  no_run : db.runs r ≡ none → locked_run (some w) (some r) ts rs body db ≡ (ok t, db') → ⊥
  unfolding locked_run
  no_run e h = ground arith

  pub entered :
      locked_run (some w) (some r) ts rs body db ≡ (ok t, db') → Entered w r ts rs body db db' t
  entered h = elim (Option-cases (db.tasks w)) [
    | inl e ↦ absurd (no_task e h)
    | inr (task, ht) ↦ elim (Option-cases (db.runs r)) [
      | inl e ↦ absurd (no_run e h)
      | inr (run, hr) ↦ Entered-with task run ht hr h
    ]
  ]

-- The rows that each body writes.
abbrev pub started_task : Db → TaskRow → TaskRow
started_task db t = record t { status = TaskStatus.running; started_at = some db.now }

abbrev pub started_run : Db → RunRow → RunRow
started_run db run = record run { status = TaskStatus.running; started_at = some db.now }

abbrev pub closed_run : Db → TaskStatus → Option ℕ → Option Text → RunRow → RunRow
closed_run db status duration error run = record run {
  status = status;
  completed_at = some db.now;
  duration_ms = duration;
  exit_code = none;
  error = error;
}

module _ (w r : ℕ) (task : TaskRow) (run : RunRow) (t : TaskRow) (db db' : Db)
    (ht : db.tasks w ≡ some task) (hr : db.runs r ≡ some run) where
  pub start_body-written :
      start_body w r task run db ≡ ok (t, db')
      → (t ≡ started_task db task)
        × (db' ≡ written w (started_task db task) r (started_run db run) EventType.run_started db)
  unfolding start_body
  start_body-written h = ground arith

  pub checkpoint_body-written :
      (s d : Text)
      → checkpoint_body s d w r task run db ≡ ok (t, db')
      → (t ≡ record task { session_id = text_or_null s; work_dir = text_or_null d })
        × (db'
            ≡ written w
                (record task { session_id = text_or_null s; work_dir = text_or_null d })
                r
                (record run { session_id = text_or_null s; work_dir = text_or_null d })
                EventType.run_checkpointed
                db)
  unfolding checkpoint_body
  checkpoint_body-written s d h = ground arith

  pub fail_body-written :
      (m : Text)
      → fail_body m w r task run db ≡ ok (t, db')
      → (t ≡ record task {
        status = TaskStatus.failed;
        completed_at = some db.now;
        error = some m;
        active_run_id = none;
      })
        × (db'
            ≡ written w t r
                (closed_run db TaskStatus.failed (some (elapsed run db.now)) (text_or_null m) run)
                EventType.run_failed
                db)
  unfolding fail_body
  fail_body-written m h = ground arith

  pub retry_body-written :
      (m : Text)
      → retry_body m w r task run db ≡ ok (t, db')
      → (t ≡ record task {
        status = TaskStatus.queued;
        completed_at = none;
        error = none;
        retry_count = task.retry_count + 1;
        dispatched_at = none;
        started_at = none;
        active_run_id = none;
      })
        × (task.retry_count + 1 ≤ task.max_retries)
        × (db'
            ≡ written w t r
                (closed_run db TaskStatus.failed none (text_or_null m) run)
                EventType.run_retry_scheduled
                db)
  unfolding retry_body
  retry_body-written m h = ground arith

  pub complete_body-written :
      (c : RunCompletion)
      → complete_body c w r task run db ≡ ok (t, db')
      → (t ≡ record task {
        status = TaskStatus.completed;
        completed_at = some db.now;
        result = text_or_null c.result;
        session_id = text_or_null c.session_id;
        work_dir = text_or_null c.work_dir;
        active_run_id = none;
      })
        × (run' : RunRow) × (run'.id ≡ run.id)
        × (run'.task_id ≡ run.task_id)
        × (run'.status ≡ TaskStatus.completed)
        × (run'.output ≡ text_or_null c.result)
        × (db' ≡ written w t r run' EventType.run_completed db)
  unfolding complete_body
  complete_body-written c h = (
    ground arith,
    record run {
      status = TaskStatus.completed;
      completed_at = some db.now;
      duration_ms = (completed_params c).duration_ms;
      exit_code = some 0;
      total_steps = some 0;
      total_tokens = (completed_params c).total_tokens;
      total_cost = none;
      output = text_or_null c.result;
      error = none;
      session_id = text_or_null c.session_id;
      work_dir = text_or_null c.work_dir;
    },
    refl,
    refl,
    refl,
    refl,
    ground arith,
  )
