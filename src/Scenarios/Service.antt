-- ===== src/Scenarios/Service.antt =====
-- The task service: the running attempt is cancelled, and the waiting work item is claimed.
use agentra.Base.{
  ℕ, ◌≤◌, ◌<◌, ◌≡◌, refl, true, false, none, some, Text, bytes, arith, leb, some_of, is_some, ◌==◌,
}
use agentra.Store.Rows.{TaskRow, AgentRow, RuntimeRow}
use agentra.Store.Tx.{Db, Query, ok, transaction}
use agentra.Store.Claims.{count_for, claimed, dispatched_task, is_candidate}
use agentra.Adapter.Contract.{AdapterDescriptor, check_requested}
use agentra.Adapter.Stages.{
  StageRejection, validate_adapter_for_task_type, validate_trimmed, validate_policy,
}
use agentra.Lifecycle.Transitions.{cancel, cancel_body}
use agentra.Lifecycle.Phases.{phase, is_final}
use agentra.Queue.Claiming.{
  ClaimedTask, claim_task, claim_task_for_runtime, descriptor_of, task_type_text,
}
use agentra.System.Sound.{Sound, clash, listed, no_repeats}
use agentra.System.Steps.{Reach, here, then, cancels, agent_claims}
use agentra.System.Reach.{Reach-Sound, Reach_final}
use agentra.System.Serving.{claim_task_serves}
use agentra.System.Fitting.{claim_task_for_runtime_fits}
use agentra.Lifecycle.Bulk.{recover_tasks_for_runtime, targets, recovering, sweep}
use agentra.Lifecycle.Recovery.{recover_requeues, recovered}
use agentra.Store.Tasks.{pending_on}
use agentra.Scenarios.Data.{db0, db_alone, db0-Linked, service, worker, item, waiting_item}

db0-fresh : (i : ℕ) → leb db0.next_id i ≡ true → (db0.tasks i ≡ none) × (db0.runs i ≡ none)
db0-fresh i h = (ground arith, ground arith)

db0-listed : (i : ℕ) → listed i db0.task_ids ≡ is_some (db0.tasks i)
db0-listed i = ground arith

db0-once : no_repeats db0.task_ids ≡ true
unfolding no_repeats
db0-once = refl

db0-serial : (i j : ℕ) → clash i j (db0.tasks i) (db0.tasks j) ≡ false
db0-serial i j = ground arith

db0-within :
    (a : ℕ) (row : AgentRow)
    → db0.agents a ≡ some row
    → count_for a db0.tasks db0.task_ids ≤ row.max_concurrent_tasks
unfolding count_for
db0-within a row h = ground arith

db0-Sound : Sound db0
db0-Sound = record {
  linked = db0-Linked;
  fresh = db0-fresh;
  all_listed = db0-listed;
  once = db0-once;
  serial = db0-serial;
  within = db0-within;
}

abbrev describe : StageRejection → Text
describe r = bytes "unsupported"

abbrev after_cancel : Db
after_cancel = (cancel service (some 1) db0).1

abbrev after_claim : Db
after_claim = (claim_task 7 after_cancel).1

two_steps : Reach service describe db0 after_claim
two_steps =
    then after_cancel after_claim (then db0 after_cancel here (cancels (some 1) db0))
      (agent_claims 7 after_cancel)

Reach-Sound_example : Sound after_claim
Reach-Sound_example = Reach-Sound service describe db0 after_claim two_steps db0-Sound

claims_waiting : after_claim.tasks 4 ≡ some (dispatched_task waiting_item 100 51)
unfolding cancel cancel_body transaction claim_task
claims_waiting = refl

limit_one : after_claim.agents 7 ≡ some worker
unfolding cancel cancel_body transaction claim_task
limit_one = refl

cancel_step : Reach service describe db0 after_cancel
cancel_step = then db0 after_cancel here (cancels (some 1) db0)

claim_step : Reach service describe after_cancel after_claim
claim_step = then after_cancel after_claim here (agent_claims 7 after_cancel)

after_cancel-Sound : Sound after_cancel
after_cancel-Sound = Reach-Sound service describe db0 after_cancel cancel_step db0-Sound

is_cancelled : is_final (phase (after_cancel.tasks 1)) ≡ true
unfolding cancel cancel_body transaction
is_cancelled = refl

Reach_final_example : phase (after_claim.tasks 1) ≡ phase (after_cancel.tasks 1)
Reach_final_example =
    Reach_final service describe after_cancel after_claim claim_step after_cancel-Sound 1
      is_cancelled

answers_still : (q : Query) → after_cancel.fails q ≡ false
unfolding cancel cancel_body transaction
answers_still q = refl

free_again : count_for 7 after_cancel.tasks after_cancel.task_ids < 1
unfolding cancel cancel_body transaction count_for
free_again = omega arith

still_has_worker : after_cancel.agents 7 ≡ some worker
unfolding cancel cancel_body transaction
still_has_worker = refl

still_waits : after_cancel.tasks 4 ≡ some waiting_item
unfolding cancel cancel_body transaction
still_waits = refl

still_listed : some_of (λ i. i == 4) after_cancel.task_ids ≡ true
unfolding cancel cancel_body transaction
still_listed = refl

is_claimed_next : is_candidate after_cancel 7 waiting_item ≡ true
unfolding cancel cancel_body transaction
is_claimed_next = refl

claim_task_serves_example :
    (w : ℕ) × (t : TaskRow) × (after_cancel.tasks w ≡ some t)
    × (is_candidate after_cancel 7 t ≡ true)
    × (1 ≤ t.priority)
    × (claim_task 7 after_cancel ≡ (
      ok (
          some (record {
            task = dispatched_task t after_cancel.now after_cancel.next_id;
            run_id = after_cancel.next_id;
          })),
      claimed w t after_cancel,
    ))
claim_task_serves_example =
    claim_task_serves 7 worker after_cancel answers_still still_has_worker free_again 4 waiting_item
      still_listed still_waits is_claimed_next

abbrev served : ClaimedTask
served = record { task = dispatched_task waiting_item 100 51; run_id = 51 }

serves_runtime :
    claim_task_for_runtime describe 3 after_cancel
    ≡ (ok (some served), claimed 4 waiting_item after_cancel)
unfolding cancel cancel_body transaction claim_task_for_runtime descriptor_of
    validate_adapter_for_task_type validate_trimmed validate_policy check_requested
serves_runtime = refl

claim_task_for_runtime_fits_example :
    (row : RuntimeRow) × (d : AdapterDescriptor) × (after_cancel.runtimes 3 ≡ some row)
    × (descriptor_of row ≡ some d)
    × (validate_adapter_for_task_type d (task_type_text waiting_item.task_type) ≡ none)
claim_task_for_runtime_fits_example =
    claim_task_for_runtime_fits describe 3 after_cancel (claimed 4 waiting_item after_cancel) served
      after_cancel-Sound serves_runtime

abbrev recovered_db : Db
recovered_db = (recover_tasks_for_runtime service (some 3) db_alone).1

recovers_one : recover_tasks_for_runtime service (some 3) db_alone ≡ (ok (1, 0), recovered_db)
unfolding recover_tasks_for_runtime targets recovering sweep pending_on
recovers_one = refl

recover_requeues_example : recovered_db.tasks 1 ≡ some (recovered 100 item)
recover_requeues_example =
    recover_requeues service 3 1 db_alone recovered_db (1, 0) item recovers_one refl refl refl refl
