-- ===== src/Lifecycle/Cancel.antt =====
-- Cancel (server/internal/service/run_lifecycle.go): an open work item and its run end together.
use agentra.Base.{
  ℕ, ◌+◌, ◌≡◌, refl, Bool, true, false, [], ◌∷◌, ◌++◌, Option, none, some, arith, inl, inr,
  Option-cases, ==_refl,
}
use agentra.Store.Rows.{TaskStatus, TaskRow, RunRow, EventType, status_eq}
use agentra.Store.Tx.{Query, Db, Error, ok, err, put, transaction}
use agentra.Store.Tasks.{is_open}
use agentra.Store.Outbox.{new_event}
use agentra.Lifecycle.Guards.{RunLifecycle}
use agentra.Lifecycle.Transitions.{cancel, cancel_body}
use agentra.Lifecycle.Moves.{written, closed_run}
use agentra.Lifecycle.Links.{Linked, task_linked, run_linked, Moves-Linked, Rests-Linked}

abbrev pub cancelled_task : Db → TaskRow → TaskRow
cancelled_task db t = record t {
  status = TaskStatus.cancelled;
  completed_at = some db.now;
  active_run_id = none;
}

-- The database after the cancellation of a work item with no attempt.
abbrev pub cancelled_idle : ℕ → TaskRow → Db → Db
cancelled_idle w task db = record db {
  tasks = put w (cancelled_task db task) db.tasks;
  outbox =
      db.outbox
      ++ new_event db.next_id db.now task.id none EventType.run_cancelled TaskStatus.cancelled ∷ [];
  next_id = db.next_id + 1;
}

module _ (w : ℕ) (task : TaskRow) (db : Db) (ht : db.tasks w ≡ some task)
    (nf : (q : Query) → db.fails q ≡ false) (open_item : is_open task.status ≡ true) where
  cancel_body_idle :
      task.active_run_id ≡ none
      → task_linked db.runs w (db.tasks w) ≡ true
      → cancel_body w db ≡ ok ((cancelled_task db task, none), cancelled_idle w task db)
  unfolding cancel_body
  cancel_body_idle idle v =
      ground (
        arith,
        nf Query.get_agent_task_for_update,
        nf Query.cancel_agent_task,
        nf Query.append_event,
      )

  cancel_body_active :
      (r : ℕ) (run : RunRow)
      → task.active_run_id ≡ some r
      → db.runs r ≡ some run
      → task_linked db.runs w (db.tasks w) ≡ true
      → run_linked db.tasks r (db.runs r) ≡ true
      → cancel_body w db
        ≡ ok (
          (cancelled_task db task, some r),
          written w
              (cancelled_task db task)
              r
              (closed_run db TaskStatus.cancelled none run.error run)
              EventType.run_cancelled
              db,
        )
  unfolding cancel_body
  cancel_body_active r run act hr v u = ground (
    arith,
    nf Query.get_agent_task_for_update,
    nf Query.get_task_run_for_update,
    nf Query.complete_task_run,
    nf Query.cancel_agent_task,
    nf Query.append_event,
  )

abbrev ended_as_cancelled : Option RunRow → Bool
ended_as_cancelled none = false
ended_as_cancelled (some run) = status_eq run.status TaskStatus.cancelled

-- Whether the run of an attempt, if there is one, is cancelled.
abbrev pub attempt_cancelled : Option ℕ → (ℕ → Option RunRow) → Bool
attempt_cancelled none runs = true
attempt_cancelled (some r) runs = ended_as_cancelled (runs r)

-- What a cancellation promises of a work item `task` at `w`.
pub record Cancelled (w : ℕ) (task : TaskRow) (db db' : Db) : Type 0 where
  pub item : db'.tasks w ≡ some (cancelled_task db task)
  pub linked : Linked db'
  pub event :
      db'.outbox
      ≡ db.outbox
        ++ new_event db.next_id db.now task.id task.active_run_id EventType.run_cancelled
            TaskStatus.cancelled
          ∷ []
  pub run_ended : attempt_cancelled task.active_run_id db'.runs ≡ true

put_same {ℓ} : {A : Type ℓ} (k : ℕ) (v : A) (table : ℕ → Option A) → put k v table k ≡ some v
put_same k v table = ground arith

pub missing_run :
    (runs : ℕ → Option RunRow) (w r : ℕ) (task : TaskRow) (o : Option TaskRow)
    → o ≡ some task
    → task.active_run_id ≡ some r
    → task_linked runs w o ≡ true
    → runs r ≡ none
    → ⊥
missing_run runs w r task o ht act v e = ground arith

committed :
    (w : ℕ) (db db' : Db) (a : TaskRow × Option ℕ) (l : RunLifecycle)
    → l.starter ≡ true
    → l.queries ≡ true
    → db.fails Query.begin ≡ false
    → db'.fails Query.commit ≡ false
    → cancel_body w db ≡ ok (a, db')
    → cancel l (some w) db ≡ (ok a, db')
unfolding cancel transaction
committed w db db' a l hs hq nb nc e = ground arith

module _ (l : RunLifecycle) (w : ℕ) (task : TaskRow) (db : Db) (hs : l.starter ≡ true)
    (hq : l.queries ≡ true) (nf : (q : Query) → db.fails q ≡ false) (v : Linked db)
    (ht : db.tasks w ≡ some task) (open_item : is_open task.status ≡ true) where
  cancel_idle :
      task.active_run_id ≡ none
      → (db' : Db) × (cancel l (some w) db ≡ (ok (cancelled_task db task, task.active_run_id), db'))
        × Cancelled w task db db'
  cancel_idle idle = (
    cancelled_idle w task db,
    rw idle (
        committed w db _ _ l hs hq (nf Query.begin) (nf Query.commit)
          (cancel_body_idle w task db ht nf open_item idle (v.task w))),
    record {
      item = put_same w _ db.tasks;
      linked =
          Rests-Linked w db _
            (record {
              task = task;
              task' = cancelled_task db task;
              had_task = ht;
              was_idle = idle;
              tasks_put = refl;
              runs_same = refl;
              same_task = refl;
              idle = refl;
              at_rest = refl;
            })
            v;
      event = rw idle;
      run_ended = rw idle;
    },
  )

  cancel_active :
      (r : ℕ) (run : RunRow)
      → task.active_run_id ≡ some r
      → db.runs r ≡ some run
      → (db' : Db) × (cancel l (some w) db ≡ (ok (cancelled_task db task, task.active_run_id), db'))
        × Cancelled w task db db'
  cancel_active r run act hr = (
    written w (cancelled_task db task) r (closed_run db TaskStatus.cancelled none run.error run)
        EventType.run_cancelled db,
    rw act (
        committed w db _ _ l hs hq (nf Query.begin) (nf Query.commit)
          (cancel_body_active w task db ht nf open_item r run act hr (v.task w) (v.run r))),
    record {
      item = put_same w _ db.tasks;
      linked =
          Moves-Linked w r db _
            (record {
              task = task;
              run = run;
              task' = cancelled_task db task;
              run' = closed_run db TaskStatus.cancelled none run.error run;
              had_task = ht;
              had_run = hr;
              was_active = act;
              was_of = ground (arith, v.task w);
              tasks_put = refl;
              runs_put = refl;
              same_task = refl;
              same_run = refl;
              same_owner = refl;
              agree = refl;
            })
            v;
      event = rw act;
      run_ended = rw act (ground (arith, ==_refl r));
    },
  )

  -- In ledgers that agree, and with a database that answers, the cancellation of an open work item
  -- succeeds: it and its run (if it has one) are cancelled, one event says so, and the ledgers agree.
  pub cancel_ends :
      (db' : Db) × (cancel l (some w) db ≡ (ok (cancelled_task db task, task.active_run_id), db'))
      × Cancelled w task db db'
  cancel_ends = elim (Option-cases task.active_run_id) [
    | inl idle ↦ cancel_idle idle
    | inr (r, act) ↦ elim (Option-cases (db.runs r)) [
      | inl e ↦ absurd (missing_run db.runs w r task _ ht act (v.task w) e)
      | inr (run, hr) ↦ cancel_active r run act hr
    ]
  ]

-- A cancellation that fails changes nothing.
pub cancel_atomic :
    (l : RunLifecycle) (w : Option ℕ) (db : Db) (e : Error)
    → (cancel l w db).0 ≡ err e
    → (cancel l w db).1 ≡ db
unfolding cancel transaction
cancel_atomic l none db e h = refl
cancel_atomic l (some w) db e h = ground arith
