-- ===== src/System/Rejections.antt =====
-- rejectQueuedTask (server/internal/service/task.go) keeps the invariant, whatever it answers.
use agentra.Base.{
  ℕ, ◌≡◌, refl, true, false, none, some, Text, arith, Option-cases, Bool-cases, inl, inr,
}
use agentra.Store.Rows.{TaskStatus, TaskRow, status_eq}
use agentra.Store.Tx.{Query, Db}
use agentra.Store.Claims.{rejected, rejected_task}
use agentra.Queue.Claiming.{reject_queued_task}
use agentra.Lifecycle.Phases.{at_most_one}
use agentra.Lifecycle.Links.{task_linked, Rests-Linked}
use agentra.System.Sound.{Sound}
use agentra.System.Quiet.{Quiet-Evolves}
use agentra.System.Callbacks.{put-follows, put-Life}
use agentra.System.Requests.{Kept, same-Kept, put_agent}

module _ (w : ℕ) (message : Text) (db : Db) where
  reject_missing : db.tasks w ≡ none → (reject_queued_task w message db).1 ≡ db
  unfolding reject_queued_task
  reject_missing h = ground arith

  reject_not_queued :
      (t : TaskRow)
      → db.tasks w ≡ some t
      → status_eq t.status TaskStatus.queued ≡ false
      → (reject_queued_task w message db).1 ≡ db
  unfolding reject_queued_task
  reject_not_queued t h n = ground arith

  reject_down : db.fails Query.reject_queued ≡ true → (reject_queued_task w message db).1 ≡ db
  unfolding reject_queued_task
  reject_down h = ground arith

  pub reject_queued :
      (t : TaskRow)
      → db.tasks w ≡ some t
      → status_eq t.status TaskStatus.queued ≡ true
      → db.fails Query.reject_queued ≡ false
      → (reject_queued_task w message db).1 ≡ rejected w message t db
  unfolding reject_queued_task
  reject_queued t h q up = ground arith

queued_has_no_run :
    (db : Db) (w : ℕ) (t : TaskRow)
    → task_linked db.runs w (db.tasks w) ≡ true
    → db.tasks w ≡ some t
    → status_eq t.status TaskStatus.queued ≡ true
    → t.active_run_id ≡ none
queued_has_no_run db w t v ht q = ground arith

queued_moves :
    (t : TaskRow)
    → status_eq t.status TaskStatus.queued ≡ true
    → at_most_one t.status TaskStatus.failed ≡ true
queued_moves t h = ground arith

rejected-Kept :
    (w : ℕ) (message : Text) (t : TaskRow) (db : Db)
    → Sound db
    → db.tasks w ≡ some t
    → status_eq t.status TaskStatus.queued ≡ true
    → Kept db (rejected w message t db)
rejected-Kept w message t db s ht q =
    let idle = queued_has_no_run db w t (s.linked.task w) ht q in
    record {
      evolves =
          Quiet-Evolves db _
            (record {
              same_ids = refl;
              same_agents = refl;
              next = ground arith;
              tasks = put-follows w (rejected_task message db.now t) t db.tasks ht refl refl refl;
              life = λ j.
                  put-Life w j (rejected_task message db.now t) t db.tasks ht (queued_moves t q);
              runs = λ j. refl;
            })
            (Rests-Linked w db _
              (record {
                task = t;
                task' = rejected_task message db.now t;
                had_task = ht;
                was_idle = idle;
                tasks_put = refl;
                runs_same = refl;
                same_task = refl;
                idle = idle;
                at_rest = refl;
              })
              s.linked)
            s;
      agents = λ j. put_agent w j t (rejected_task message db.now t) db.tasks ht refl refl;
    }

pub reject_queued_task-Kept :
    (w : ℕ) (message : Text) (db : Db) → Sound db → Kept db (reject_queued_task w message db).1
reject_queued_task-Kept w message db s = elim (Option-cases (db.tasks w)) [
  | inl e ↦ rw (reject_missing w message db e) (same-Kept db s)
  | inr (t, ht) ↦ elim (Bool-cases (status_eq t.status TaskStatus.queued)) [
    | inr n ↦ rw (reject_not_queued w message db t ht n) (same-Kept db s)
    | inl q ↦ elim (Bool-cases (db.fails Query.reject_queued)) [
      | inl down ↦ rw (reject_down w message db down) (same-Kept db s)
      | inr up ↦ rw (reject_queued w message db t ht q up) (rejected-Kept w message t db s ht q)
    ]
  ]
]
