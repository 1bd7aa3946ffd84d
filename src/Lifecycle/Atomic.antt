-- ===== src/Lifecycle/Atomic.antt =====
-- Refusals: an error leaves every table as it was, and a reference that is not the active attempt of
-- its work item is refused.
use agentra.Base.{ℕ, ◌≡◌, ◌≢◌, refl, true, false, List, Option, none, some, arith, opt_eq_iff}
use agentra.Store.Rows.{TaskStatus, TaskRow, RunRow}
use agentra.Store.Tx.{Query, Tx, Db, Error, Result, err, stale_run, transaction}
use agentra.Lifecycle.Guards.{RunLifecycle, RunRef, locked_run, with_locked_run}
use agentra.Lifecycle.Calls.{
  Callback, starts, retries, perform, perform_lem, answer_of, allowed_of, body_of,
}

transaction_atomic {ℓ} :
    {A : Type ℓ} (m : Tx A) (db : Db) {e : Error}
    → (transaction m db).0 ≡ err e
    → (transaction m db).1 ≡ db
unfolding transaction
transaction_atomic m db h = ground arith

module _ (ts rs : List TaskStatus) (body : ℕ → ℕ → TaskRow → RunRow → Tx TaskRow) (db : Db) where
  locked_run_atomic :
      (w r : Option ℕ) {e : Error}
      → (locked_run w r ts rs body db).0 ≡ err e
      → (locked_run w r ts rs body db).1 ≡ db
  unfolding locked_run
  locked_run_atomic none r h = refl
  locked_run_atomic (some w) none h = refl
  locked_run_atomic (some w) (some r) h = ground arith

  pub with_locked_run_atomic :
      (l : RunLifecycle) (ref : RunRef) (e : Error)
      → (with_locked_run l ref ts rs body db).0 ≡ err e
      → (with_locked_run l ref ts rs body db).1 ≡ db
  unfolding with_locked_run
  with_locked_run_atomic l ref e h = ground (arith, locked_run_atomic ref.work_item_id ref.run_id)

  locked_run_stale :
      (w r : ℕ) (task : TaskRow)
      → db.tasks w ≡ some task
      → task.active_run_id ≢ some r
      → db.fails Query.begin ≡ false
      → locked_run (some w) (some r) ts rs body db ≡ (err stale_run, db)
  unfolding locked_run
  locked_run_stale w r task ht na nb = ground (arith, opt_eq_iff task.active_run_id (some r))

unanswered :
    (call : Callback) (r : Result TaskRow × Db) (db : Db)
    → ((x : Error) → r.0 ≡ err x → r.1 ≡ db)
    → (e : Error) → (answer_of call r).0 ≡ err e
    → (answer_of call r).1 ≡ db
unanswered starts r db same e h = ground (arith, same e)
unanswered (retries m) r db same e h = ground (arith, same e)
unanswered _ r db same e h = ground (arith, same e)

unanswered_stale :
    (call : Callback) (db : Db) → answer_of call (err stale_run, db) ≡ (err stale_run, db)
unanswered_stale starts db = refl
unanswered_stale _ db = refl

-- A callback that answers with an error has changed nothing.
pub perform_atomic :
    (l : RunLifecycle) (ref : RunRef) (call : Callback) (db : Db) (e : Error)
    → (perform l ref call db).0 ≡ err e
    → (perform l ref call db).1 ≡ db
perform_atomic l ref call db e h = rw (perform_lem l ref call db) (
    unanswered call _ db (with_locked_run_atomic _ _ _ db l ref) e
      (rw (perform_lem l ref call db) at h))

-- With a service that is set up and a transaction that can begin, a callback that names a stored
-- work item and a run which is not its active attempt is refused with ErrStaleRun, whatever it
-- asks for, and changes nothing.
pub perform_stale :
    (l : RunLifecycle) (w r : ℕ) (call : Callback) (db : Db) (task : TaskRow)
    → l.starter ≡ true
    → l.queries ≡ true
    → db.fails Query.begin ≡ false
    → db.tasks w ≡ some task
    → task.active_run_id ≢ some r
    → perform l (record { work_item_id = some w; run_id = some r }) call db ≡ (err stale_run, db)
unfolding with_locked_run
perform_stale l w r call db task hs hq nb ht na =
    rw
      (
        perform_lem l _ call db,
        with_locked_run,
        hs,
        hq,
        locked_run_stale (allowed_of call) (allowed_of call) (body_of call) db w r task ht na nb,
      )
      (unanswered_stale call db)
