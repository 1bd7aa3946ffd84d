-- ===== src/Lifecycle/Agreement.antt =====
-- The two ledgers agree after every transition, and a transition is one event and one attempt.
use agentra.Base.{ℕ, ◌≡◌, ◌≢◌, ap, true, false, [], ◌∷◌, ◌++◌, none, some, arith}
use agentra.Store.Rows.{TaskRow, RunRow}
use agentra.Store.Tx.{Db, ok, put}
use agentra.Store.Tasks.{is_active}
use agentra.Store.Outbox.{new_event}
use agentra.Lifecycle.Guards.{RunLifecycle, RunRef}
use agentra.Lifecycle.Calls.{Callback, perform, event_of}
use agentra.Lifecycle.Effects.{performed}
use agentra.Lifecycle.Links.{Linked, task_linked, Moves-Linked}

-- When a callback of an attempt succeeds, the two ledgers still agree if they did before.
pub perform-Linked :
    (l : RunLifecycle) (ref : RunRef) (call : Callback) (db db' : Db) (t : TaskRow)
    → perform l ref call db ≡ (ok (some t), db')
    → Linked db
    → Linked db'
perform-Linked l ref call db db' t h =
    let p = performed l ref call db db' t h in
    Moves-Linked p.w p.r db db' (record {
      task = p.before.task;
      run = p.before.run;
      task' = t;
      run' = p.wrote.run';
      had_task = p.before.had_task;
      had_run = p.before.had_run;
      was_active = p.before.was_active;
      was_of = p.before.was_of;
      tasks_put = ap (λ (d : Db). d.tasks) p.wrote.all;
      runs_put = ap (λ (d : Db). d.runs) p.wrote.all;
      same_task = p.wrote.same_task;
      same_run = p.wrote.same_run;
      same_owner = p.wrote.same_owner;
      agree = p.wrote.agree;
    })

-- A successful callback names a work item and a run, appends exactly one event about them, of the
-- type of the callback and with the new status, and writes exactly one work item and one run.
pub perform_effect :
    (l : RunLifecycle) (ref : RunRef) (call : Callback) (db db' : Db) (t : TaskRow)
    → perform l ref call db ≡ (ok (some t), db')
    → (w : ℕ) × (r : ℕ) × (ref.work_item_id ≡ some w)
      × (ref.run_id ≡ some r)
      × (db'.outbox
          ≡ db.outbox ++ new_event db.next_id db.now t.id (some r) (event_of call) t.status ∷ [])
      × (db'.tasks ≡ put w t db.tasks)
      × ((run : RunRow) × (db'.runs ≡ put r run db.runs))
perform_effect l ref call db db' t h =
    let p = performed l ref call db db' t h in
    (
      p.w,
      p.r,
      p.of_item,
      p.of_run,
      ap (λ (d : Db). d.outbox) p.wrote.all,
      ap (λ (d : Db). d.tasks) p.wrote.all,
      (p.wrote.run', ap (λ (d : Db). d.runs) p.wrote.all),
    )

rest_has_no_run :
    (db : Db) (w : ℕ) (task : TaskRow)
    → task_linked db.runs w (db.tasks w) ≡ true
    → db.tasks w ≡ some task
    → is_active task.status ≡ false
    → task.active_run_id ≡ none
rest_has_no_run db w task v ht rest = ground arith

-- In ledgers that agree, a work item at rest (queued or finished) refuses every callback, whatever
-- run it names.
pub rested_refuses :
    (l : RunLifecycle) (ref : RunRef) (w : ℕ) (call : Callback) (db db' : Db) (task t : TaskRow)
    → Linked db
    → ref.work_item_id ≡ some w
    → db.tasks w ≡ some task
    → is_active task.status ≡ false
    → perform l ref call db ≢ (ok (some t), db')
rested_refuses l ref w call db db' task t v ew ht rest h =
    let p = performed l ref call db db' t h in
    let same : p.before.task ≡ task = ground (arith, p.of_item, p.before.had_task) in
    let none_there = rest_has_no_run db w task (v.task w) ht rest in
    ground (arith, p.before.was_active, same)
