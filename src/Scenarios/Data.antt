-- ===== src/Scenarios/Data.antt =====
-- A running attempt of a loop's review stage, in a database that answers every statement.
use agentra.Base.{ℕ, ◌≡◌, Bool, true, false, [], ◌∷◌, Option, none, some, Text, bytes, arith}
use agentra.Store.Rows.{
  TaskStatus, TaskType, EventType, TaskRow, RunRow, EventRow, LoopStatus, Stage, LoopRow, AgentRow,
}
use agentra.Store.Tx.{Query, Db, put}
use agentra.Lifecycle.Guards.{RunLifecycle, RunRef}
use agentra.Lifecycle.Links.{Linked, task_linked, run_linked}
use agentra.Loop.Policy.{TaskResult}

abbrev pub item : TaskRow
item = record {
  id = 1;
  agent_id = 7;
  issue_id = 5;
  runtime_id = some 3;
  status = TaskStatus.running;
  priority = 1;
  dispatched_at = some 10;
  started_at = some 20;
  completed_at = none;
  result = none;
  error = none;
  session_id = none;
  work_dir = none;
  trigger_comment_id = none;
  retry_count = 0;
  max_retries = 3;
  task_type = TaskType.loop_review;
  loop_id = some 9;
  active_run_id = some 2;
}

-- A work item that waits for a runtime.
abbrev pub waiting_item : TaskRow
waiting_item = record item {
  id = 4;
  status = TaskStatus.queued;
  dispatched_at = none;
  started_at = none;
  active_run_id = none;
}

abbrev pub attempt_run : RunRow
attempt_run = record {
  id = 2;
  task_id = 1;
  agent_id = 7;
  status = TaskStatus.running;
  started_at = some 20;
  completed_at = none;
  duration_ms = none;
  exit_code = none;
  total_steps = none;
  total_tokens = none;
  total_cost = none;
  output = none;
  error = none;
  session_id = none;
  work_dir = none;
}

abbrev pub review_loop : LoopRow
review_loop = record {
  id = 9;
  issue_id = 5;
  workspace_id = 6;
  status = LoopStatus.running;
  current_stage = some Stage.review;
  iteration = 1;
  max_iterations = 3;
  pr_url = none;
  pr_number = none;
  branch_name = none;
  agent_id = some 7;
  stage_agents = [];
  failure_reason = none;
  started_at = some 0;
  completed_at = none;
}

abbrev pub worker : AgentRow
worker = record {
  id = 7;
  workspace_id = 6;
  name = bytes "worker";
  runtime_id = some 3;
  archived_at = none;
  max_concurrent_tasks = 1;
}

abbrev pub nothing {ℓ} : {A : Type ℓ} → ℕ → Option A
nothing i = none

abbrev pub answers : Query → Bool
answers q = false

abbrev pub db0 : Db
db0 = record {
  tasks = put 1 item (put 4 waiting_item nothing);
  task_ids = 1 ∷ 4 ∷ [];
  runs = put 2 attempt_run nothing;
  run_ids = 2 ∷ [];
  outbox = [];
  receipts = [];
  deliveries = [];
  loops = put 9 review_loop nothing;
  loop_ids = 9 ∷ [];
  agents = put 7 worker nothing;
  runtimes = put 3 (record { id = 3; provider = bytes " Claude" }) nothing;
  runtime_offline = λ r. false;
  now = 100;
  next_id = 50;
  fails = answers;
}

-- Only the running work item is there.
abbrev pub db_alone : Db
db_alone = record db0 { tasks = put 1 item nothing; task_ids = 1 ∷ [] }

abbrev pub service : RunLifecycle
service = record { starter = true; queries = true }

abbrev pub ref2 : RunRef
ref2 = record { work_item_id = some 1; run_id = some 2 }

db0-tasks : (w : ℕ) → task_linked db0.runs w (db0.tasks w) ≡ true
db0-tasks w = ground arith

db0-runs : (r : ℕ) → run_linked db0.tasks r (db0.runs r) ≡ true
db0-runs r = ground arith

pub db0-Linked : Linked db0
db0-Linked = record { task = db0-tasks; run = db0-runs }

-- The same with a lost connection.
abbrev pub db_down : Db
db_down = record db0 { fails = λ q. true }

-- The failed run's event waits in the outbox.
abbrev pub failed_event : EventRow
failed_event = record {
  id = 40;
  work_item_id = 1;
  run_id = some 2;
  event_type = EventType.run_failed;
  event_version = 1;
  payload = TaskStatus.failed;
  available_at = 0;
  locked_at = none;
  lock_token = none;
  processed_at = none;
  dead_lettered_at = none;
  attempts = 0;
}

abbrev pub db_event : Db
db_event = record db0 { outbox = failed_event ∷ [] }

abbrev pub parse_none : Text → Option ℕ
parse_none t = none

abbrev pub unmarshal_none : Text → Option TaskResult
unmarshal_none t = none
