-- ===== src/System/Cancelling.antt =====
-- The cancellation of a work item keeps the invariant, whatever it answers.
use agentra.Base.{ℕ, ◌≡◌, refl, sym, subst, true, Option, none, some, arith, Option-cases, inl, inr}
use agentra.Store.Rows.{TaskStatus, TaskRow, RunRow, EventType}
use agentra.Store.Tx.{Db, ok, transaction}
use agentra.Lifecycle.Guards.{RunLifecycle}
use agentra.Lifecycle.Transitions.{cancel, cancel_body}
use agentra.Lifecycle.Cancel.{cancelled_task, cancelled_idle, cancel_atomic, missing_run}
use agentra.Lifecycle.Moves.{written, closed_run}
use agentra.Lifecycle.Phases.{at_most_one}
use agentra.Lifecycle.Links.{Moves-Linked, Rests-Linked}
use agentra.System.Sound.{Sound}
use agentra.System.Quiet.{Quiet, Evolves, Evolves-refl, Quiet-Evolves}
use agentra.System.Callbacks.{after_result, put-follows, put-Life, written-Quiet}

cancelled_idle-Quiet :
    (w : ℕ) (task : TaskRow) (db : Db)
    → db.tasks w ≡ some task
    → at_most_one task.status TaskStatus.cancelled ≡ true
    → Quiet db (cancelled_idle w task db)
cancelled_idle-Quiet w task db ht m = record {
  same_ids = refl;
  same_agents = refl;
  next = ground arith;
  tasks = put-follows w (cancelled_task db task) task db.tasks ht refl refl refl;
  life = λ j. put-Life w j (cancelled_task db task) task db.tasks ht m;
  runs = λ j. refl;
}

module _ (w : ℕ) (task : TaskRow) (db db' : Db) (a : TaskRow × Option ℕ)
    (ht : db.tasks w ≡ some task) where
  cancel_body-idle :
      task.active_run_id ≡ none → cancel_body w db ≡ ok (a, db') → db' ≡ cancelled_idle w task db
  unfolding cancel_body
  cancel_body-idle idle h = ground arith

  cancel_body-active :
      (r : ℕ) (run : RunRow)
      → task.active_run_id ≡ some r
      → db.runs r ≡ some run
      → run.id ≡ r
      → cancel_body w db ≡ ok (a, db')
      → db'
        ≡ written w
            (cancelled_task db task)
            r
            (closed_run db TaskStatus.cancelled none run.error run)
            EventType.run_cancelled
            db
  unfolding cancel_body
  cancel_body-active r run act hr same h = ground arith

cancels_open :
    (w : ℕ) (db db' : Db) (a : TaskRow × Option ℕ) (task : TaskRow)
    → db.tasks w ≡ some task
    → cancel_body w db ≡ ok (a, db')
    → at_most_one task.status TaskStatus.cancelled ≡ true
unfolding cancel_body
cancels_open w db db' a task ht h = elim (Option-cases task.active_run_id) [
  | inl idle ↦ ground arith
  | inr (r, act) ↦ ground arith
]

cancel_body-missing :
    (w : ℕ) (db db' : Db) (a : TaskRow × Option ℕ)
    → db.tasks w ≡ none
    → cancel_body w db ≡ ok (a, db')
    → ⊥
unfolding cancel_body
cancel_body-missing w db db' a e h = ground arith

module _ (w : ℕ) (db db' : Db) (a : TaskRow × Option ℕ) (h : cancel_body w db ≡ ok (a, db'))
    (s : Sound db) where
  idle-Evolves :
      (task : TaskRow) → db.tasks w ≡ some task → task.active_run_id ≡ none → Evolves db db'
  idle-Evolves task ht idle =
      let next = cancelled_idle w task db in
      let linked =
        Rests-Linked w db next
          (record {
            task = task;
            task' = cancelled_task db task;
            had_task = ht;
            was_idle = idle;
            tasks_put = refl;
            runs_same = refl;
            same_task = refl;
            idle = refl;
            at_rest = refl;
          })
          s.linked in
      subst (Evolves db) (sym (cancel_body-idle w task db db' a ht idle h)) (
        Quiet-Evolves db next
          (cancelled_idle-Quiet w task db ht (cancels_open w db db' a task ht h)) linked s)

  active-Evolves :
      (task : TaskRow) (r : ℕ) (run : RunRow)
      → db.tasks w ≡ some task
      → task.active_run_id ≡ some r
      → db.runs r ≡ some run
      → Evolves db db'
  active-Evolves task r run ht act hr =
      let run' = closed_run db TaskStatus.cancelled none run.error run in
      let next = written w (cancelled_task db task) r run' EventType.run_cancelled db in
      let linked =
        Moves-Linked w r db next
          (record {
            task = task;
            run = run;
            task' = cancelled_task db task;
            run' = run';
            had_task = ht;
            had_run = hr;
            was_active = act;
            was_of = ground (arith, s.linked.task w);
            tasks_put = refl;
            runs_put = refl;
            same_task = refl;
            same_run = refl;
            same_owner = refl;
            agree = refl;
          })
          s.linked in
      subst (Evolves db)
        (sym
          (cancel_body-active w task db db' a ht r run act hr (ground (arith, s.linked.run r)) h))
        (Quiet-Evolves db next
          (written-Quiet w r (cancelled_task db task) task run run' EventType.run_cancelled db ht hr
            refl refl refl (cancels_open w db db' a task ht h))
          linked s)

  cancel_body-Evolves : Evolves db db'
  cancel_body-Evolves = elim (Option-cases (db.tasks w)) [
    | inl e ↦ absurd (cancel_body-missing w db db' a e h)
    | inr (task, ht) ↦ elim (Option-cases task.active_run_id) [
      | inl idle ↦ idle-Evolves task ht idle
      | inr (r, act) ↦ elim (Option-cases (db.runs r)) [
        | inl e ↦ absurd (missing_run db.runs w r task _ ht act (s.linked.task w) e)
        | inr (run, hr) ↦ active-Evolves task r run ht act hr
      ]
    ]
  ]

cancel-committed :
    (l : RunLifecycle) (w : ℕ) (db db' : Db) (a : TaskRow × Option ℕ)
    → cancel l (some w) db ≡ (ok a, db')
    → cancel_body w db ≡ ok (a, db')
unfolding cancel transaction
cancel-committed l w db db' a h = ground arith

-- A cancellation keeps the invariant, whatever it answers.
pub cancel-Evolves :
    (l : RunLifecycle) (w : Option ℕ) (db : Db) → Sound db → Evolves db (cancel l w db).1
unfolding cancel
cancel-Evolves l none db s = Evolves-refl db s
cancel-Evolves l (some w) db s =
    after_result (cancel l (some w) db) db
      (λ a db' h. cancel_body-Evolves w db db' a (cancel-committed l w db db' a h) s)
      (cancel_atomic l (some w) db) s
