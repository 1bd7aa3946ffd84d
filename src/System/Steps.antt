-- ===== src/System/Steps.antt =====
-- The operations of the server on work items as a step relation: the task service, the callbacks of
-- the runtime adapters, cancellations, the periodic sweeps and the recovery of a runtime, one after
-- another in any order, with time and the state of the database's connection moving in between.
use agentra.Base.{ℕ, ◌≡◌, Bool, Option, some, Text}
use agentra.Store.Rows.{TaskRow}
use agentra.Store.Tx.{Query, Db, ok}
use agentra.Store.Tasks.{CreateAgentTaskParams, create_agent_task}
use agentra.Adapter.Stages.{StageRejection}
use agentra.Lifecycle.Guards.{RunLifecycle, RunRef}
use agentra.Lifecycle.Calls.{Callback, perform}
use agentra.Lifecycle.Transitions.{cancel}
use agentra.Lifecycle.Phases.{stays, phase}
use agentra.Lifecycle.Sweeps.{BulkCall, perform_bulk}
use agentra.Lifecycle.Bulk.{recover_tasks_for_runtime}
use agentra.Queue.Enqueue.{Issue, enqueue_task_for_issue, enqueue_task_for_mention}
use agentra.Queue.Claiming.{claim_task, claim_task_for_runtime}
use agentra.System.Sound.{Sound}
use agentra.System.Quiet.{Evolves, Evolves-refl, Evolves-trans}
use agentra.System.Arrivals.{
  created-Evolves, enqueue_for_issue-Enqueued, enqueue_for_mention-Enqueued, Enqueued-Evolves,
}
use agentra.System.Callbacks.{perform-Evolves}
use agentra.System.Cancelling.{cancel-Evolves}
use agentra.System.Bulks.{perform_bulk-Evolves, recover-Evolves}
use agentra.System.Requests.{claim_task-Evolves}
use agentra.System.Dispatching.{claim_task_for_runtime-Evolves}

pub data Step (l : RunLifecycle) (describe : StageRejection → Text) : Db → Db → Type 0 where
  enqueues :
      (issue : Issue) (comment : Option ℕ) (db db' : Db) (t : TaskRow)
      → enqueue_task_for_issue issue comment db ≡ ok (t, db')
      → Step l describe db db'
  mentions :
      (issue : Issue) (agent : ℕ) (comment : Option ℕ) (db db' : Db) (t : TaskRow)
      → enqueue_task_for_mention issue agent comment db ≡ ok (t, db')
      → Step l describe db db'
  creates :
      (p : CreateAgentTaskParams) (db db' : Db) (t : TaskRow)
      → create_agent_task p db ≡ ok (t, db')
      → Step l describe db db'
  agent_claims : (agent : ℕ) (db : Db) → Step l describe db (claim_task agent db).1
  runtime_claims :
      (runtime : ℕ) (db : Db) → Step l describe db (claim_task_for_runtime describe runtime db).1
  calls_back :
      (ref : RunRef) (call : Callback) (db : Db) → Step l describe db (perform l ref call db).1
  cancels : (w : Option ℕ) (db : Db) → Step l describe db (cancel l w db).1
  sweeps_up : (c : BulkCall) (db : Db) → Step l describe db (perform_bulk l c db).1
  recovers :
      (runtime : ℕ) (db : Db) → Step l describe db (recover_tasks_for_runtime l (some runtime) db).1
  passes :
      (now : ℕ) (fails : Query → Bool) (offline : ℕ → Bool) (db : Db)
      → Step l describe db (record db { now = now; fails = fails; runtime_offline = offline })

pub data Reach (l : RunLifecycle) (describe : StageRejection → Text) (db : Db) : Db → Type 0 where
  here : Reach l describe db db
  then :
      (mid db' : Db) → Reach l describe db mid → Step l describe mid db' → Reach l describe db db'

module _ (l : RunLifecycle) (describe : StageRejection → Text) where
  passed-Sound :
      (now : ℕ) (fails : Query → Bool) (offline : ℕ → Bool) (db : Db)
      → Sound db
      → Sound (record db { now = now; fails = fails; runtime_offline = offline })
  passed-Sound now fails offline db s = record {
    linked = record { task = s.linked.task; run = s.linked.run };
    fresh = s.fresh;
    all_listed = s.all_listed;
    once = s.once;
    serial = s.serial;
    within = s.within;
  }

  pub Step-Evolves : (db db' : Db) → Step l describe db db' → Sound db → Evolves db db'
  Step-Evolves db db' (enqueues issue comment _ _ t h) s =
      let (agent, e, q) = enqueue_for_issue-Enqueued issue comment db db' t h in
      Enqueued-Evolves issue agent comment db db' t q s
  Step-Evolves db db' (mentions issue agent comment _ _ t h) s =
      Enqueued-Evolves issue agent comment db db' t
        (enqueue_for_mention-Enqueued issue agent comment db db' t h) s
  Step-Evolves db db' (creates p _ _ t h) s = created-Evolves p db db' t h s
  Step-Evolves db _ (agent_claims agent _) s = claim_task-Evolves agent db s
  Step-Evolves db _ (runtime_claims runtime _) s =
      claim_task_for_runtime-Evolves describe runtime db s
  Step-Evolves db _ (calls_back ref call _) s = perform-Evolves l ref call db s
  Step-Evolves db _ (cancels w _) s = cancel-Evolves l w db s
  Step-Evolves db _ (sweeps_up c _) s = perform_bulk-Evolves l c db s
  Step-Evolves db _ (recovers runtime _) s = recover-Evolves l runtime db s
  Step-Evolves db _ (passes now fails offline _) s = record {
    sound = passed-Sound now fails offline db s;
    life = λ j. stays (phase (db.tasks j));
  }

  pub Reach-Evolves : (db db' : Db) → Reach l describe db db' → Sound db → Evolves db db'
  Reach-Evolves db _ here s = Evolves-refl db s
  Reach-Evolves db db' (then mid _ before step) s =
      let past = Reach-Evolves db mid before s in
      Evolves-trans db mid db' past (Step-Evolves mid db' step past.sound)
