-- ===== src/Loop/Restoring.antt =====
-- A restart does not enqueue work twice (server/internal/loop/coordinator.go).
use agentra.Base.{ℕ, ◌≡◌, ◌||◌, Bool, true, false, Option, some, Text, arith, some_of}
use agentra.Store.Rows.{LoopStatus, LoopRow, Stage}
use agentra.Store.Tx.{Query, Db, ok, put}
use agentra.Store.Loops.{in_flight_for}
use agentra.Store.Consumer.{pending_for}
use agentra.Loop.Policy.{task_type_for_stage, stage_from_string, create_task}
use agentra.Loop.Coordinator.{ResolvedStageAgent, resolve_stage_agent}
use agentra.Loop.Progress.{enqueued, decided, stage_task}
use agentra.Store.Tasks.{pending_on, pending_on-put, new_task}
use agentra.Loop.Restore.{restore_one, timed_out}

-- The work of the stage of a loop: an open work item, or a terminal event that waits for its receipt.
abbrev pub has_work : Db → LoopRow → Stage → Bool
has_work db l stage =
    some_of (λ i. in_flight_for l.id (task_type_for_stage stage) (db.tasks i)) db.task_ids
    || some_of (λ e. pending_for db l.id (task_type_for_stage stage) e (db.tasks e.work_item_id))
        db.outbox

-- With a database that answers, restoring a running loop whose stage has an open work item or an
-- event that waits for its receipt changes nothing.
pub restore_one-has_work :
    (parse_uuid : Text → Option ℕ) (l : LoopRow) (stage : Stage) (db : Db)
    → ((q : Query) → db.fails q ≡ false)
    → l.status ≡ LoopStatus.running
    → l.current_stage ≡ some stage
    → has_work db l stage ≡ true
    → restore_one parse_uuid l db ≡ (ok tt, db)
unfolding restore_one
restore_one-has_work parse_uuid l stage db nf hs hc hw =
    ground (arith, nf Query.has_in_flight, nf Query.has_pending_event)

-- With a database that answers, restoring a stored running loop that has no such work, whose issue has
-- no queued or dispatched work item, that was not started longer ago than the limit, and whose stage
-- has an agent, puts one work item of the stage on
-- the queue; the loop keeps its stage and its iteration.
pub restore_one_enqueues :
    (parse_uuid : Text → Option ℕ) (l : LoopRow) (stage : Stage) (agent : ResolvedStageAgent)
    (db : Db)
    → ((q : Query) → db.fails q ≡ false)
    → db.loops l.id ≡ some l
    → l.status ≡ LoopStatus.running
    → l.current_stage ≡ some stage
    → has_work db l stage ≡ false
    → timed_out l.started_at db.now ≡ false
    → resolve_stage_agent parse_uuid l (task_type_for_stage stage) db ≡ (ok agent, db)
    → pending_on db.tasks l.issue_id db.next_id db.task_ids ≡ false
    → restore_one parse_uuid l db ≡ (
      ok tt,
      record (enqueued db l (task_type_for_stage stage) agent) {
        loops = put l.id (decided l db.now (create_task (task_type_for_stage stage) 0)) db.loops;
      },
    )
unfolding restore_one task_type_for_stage stage_from_string
restore_one_enqueues parse_uuid l stage agent db nf hl hs hc hw ht ha free = ground (
  arith,
  nf Query.has_in_flight,
  nf Query.has_pending_event,
  nf Query.create_agent_task,
  nf Query.update_loop_status,
  pending_on-put db.next_id l.issue_id
      (new_task db.next_id (stage_task l (task_type_for_stage stage) agent)) db.tasks db.task_ids,
)
