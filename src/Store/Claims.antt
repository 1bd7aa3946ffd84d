-- ===== src/Store/Claims.antt =====
-- Statements by which work items leave the queue (server/pkg/db/generated/agent.sql.go), and
-- GetAgentRuntime.
use agentra.Base.{
  ℕ, suc, ◌+◌, Bool, true, false, not, ◌&&◌, List, [], ◌∷◌, ◌++◌, Option, none, some, Text,
  if◌then◌else◌, ◌==◌, opt_eq, some_of, leb,
}
use agentra.Store.Rows.{TaskStatus, TaskRow, RunRow, EventType, RuntimeRow, status_eq}
use agentra.Store.Tx.{Query, Tx, Db, ok, err, no_rows, query, one_row, put, return}
use agentra.Store.Tasks.{is_active}
use agentra.Store.Outbox.{new_event}

unfoldable pub get_agent_runtime : ℕ → Tx RuntimeRow
get_agent_runtime id db = query Query.get_agent_runtime (one_row (db.runtimes id)) db

abbrev pub runs_for : ℕ → Option TaskRow → Bool
runs_for agent none = false
runs_for agent (some t) = (t.agent_id == agent) && is_active t.status

-- How many of the listed work items are dispatched or running for an agent.
unfoldable pub count_for : ℕ → (ℕ → Option TaskRow) → List ℕ → ℕ
count_for agent tasks [] = 0
count_for agent tasks (w ∷ ws) =
    let rest = count_for agent tasks ws in if runs_for agent (tasks w) then suc rest else rest

unfoldable pub count_running_tasks : ℕ → Tx ℕ
unfolding count_for
count_running_tasks agent db =
    query Query.count_running (return (count_for agent db.tasks db.task_ids)) db

abbrev pub works_on : ℕ → Option TaskRow → Bool
works_on issue none = false
works_on issue (some t) = (t.issue_id == issue) && is_active t.status

-- EXISTS an active work item of the issue.
abbrev pub busy : Db → ℕ → Bool
busy db issue = some_of (λ i. works_on issue (db.tasks i)) db.task_ids

-- A queued work item of an issue that nothing works on.
abbrev pub is_claimable : Db → TaskRow → Bool
is_claimable db t = status_eq t.status TaskStatus.queued && not (busy db t.issue_id)

abbrev pub new_run : ℕ → ℕ → TaskRow → ℕ → RunRow
new_run id task_id t now = record {
  id = id;
  task_id = task_id;
  agent_id = t.agent_id;
  status = TaskStatus.dispatched;
  started_at = some now;
  completed_at = none;
  duration_ms = none;
  exit_code = none;
  total_steps = none;
  total_tokens = none;
  total_cost = none;
  output = none;
  error = none;
  session_id = none;
  work_dir = none;
}

abbrev pub dispatched_task : TaskRow → ℕ → ℕ → TaskRow
dispatched_task t now run_id = record t {
  status = TaskStatus.dispatched;
  dispatched_at = some now;
  active_run_id = some run_id;
}

-- claimed_run and claimed_task: the new run of a work item, which points at it.
abbrev pub claimed : ℕ → TaskRow → Db → Db
claimed w t db = record db {
  tasks = put w (dispatched_task t db.now db.next_id) db.tasks;
  runs = put db.next_id (new_run db.next_id w t db.now) db.runs;
  run_ids = db.run_ids ++ db.next_id ∷ [];
  next_id = db.next_id + 1;
}

-- The identifiers of the work item and of its new run.
abbrev pub claim_row : Option TaskRow → ℕ → Tx (ℕ × ℕ)
claim_row none w db = err no_rows
claim_row (some t) w db =
    if is_claimable db t then ok ((w, db.next_id), claimed w t db) else err no_rows

unfoldable pub claim_agent_task_run_by_id : ℕ → Tx (ℕ × ℕ)
claim_agent_task_run_by_id id db = query Query.claim_task_run_by_id (claim_row (db.tasks id) id) db

abbrev pub is_candidate : Db → ℕ → TaskRow → Bool
is_candidate db agent t = (t.agent_id == agent) && is_claimable db t

-- Of two candidates the one of the higher priority, and the first of two with the same.
abbrev pub preferred : ℕ → TaskRow → Option (ℕ × TaskRow) → Option (ℕ × TaskRow)
preferred w t none = some (w, t)
preferred w t (some (v, s)) = if leb s.priority t.priority then some (w, t) else some (v, s)

-- The first row in the order of priority DESC, created_at ASC.
unfoldable pub first_candidate : Db → ℕ → List ℕ → Option (ℕ × TaskRow)
first_candidate db agent [] = none
first_candidate db agent (w ∷ ws) =
    let rest = first_candidate db agent ws in
    elim (db.tasks w) [
      | none ↦ rest
      | some t ↦ if is_candidate db agent t then preferred w t rest else rest
    ]

abbrev pub claim_candidate : Option (ℕ × TaskRow) → Tx (ℕ × ℕ)
claim_candidate none db = err no_rows
claim_candidate (some (w, t)) db = ok ((w, db.next_id), claimed w t db)

unfoldable pub claim_agent_task_run : ℕ → Tx (ℕ × ℕ)
unfolding first_candidate
claim_agent_task_run agent db =
    query Query.claim_task_run (claim_candidate (first_candidate db agent db.task_ids)) db

abbrev pub is_pending : ℕ → TaskRow → Bool
is_pending runtime t =
    opt_eq t.runtime_id (some runtime)
    && (elim t.status [ TaskStatus.queued ↦ true | TaskStatus.dispatched ↦ true | _ ↦ false ])

unfoldable pub insert_by_priority : TaskRow → List TaskRow → List TaskRow
insert_by_priority t [] = t ∷ []
insert_by_priority t (s ∷ rest) =
    let later = s ∷ insert_by_priority t rest in
    if leb s.priority t.priority then t ∷ s ∷ rest else later

-- ORDER BY priority DESC, created_at ASC.
unfoldable pub pending_rows : (ℕ → Option TaskRow) → ℕ → List ℕ → List TaskRow
unfolding insert_by_priority
pending_rows tasks runtime [] = []
pending_rows tasks runtime (w ∷ ws) =
    let rest = pending_rows tasks runtime ws in
    elim (tasks w) [
      | none ↦ rest
      | some t ↦ if is_pending runtime t then insert_by_priority t rest else rest
    ]

unfoldable pub list_pending_tasks_by_runtime : ℕ → Tx (List TaskRow)
unfolding pending_rows
list_pending_tasks_by_runtime runtime db =
    query Query.list_pending (return (pending_rows db.tasks runtime db.task_ids)) db

abbrev pub rejected_task : Text → ℕ → TaskRow → TaskRow
rejected_task error now t = record t {
  status = TaskStatus.failed;
  completed_at = some now;
  error = some error;
}

-- The database after a queued work item is rejected, with the event that says so.
abbrev pub rejected : ℕ → Text → TaskRow → Db → Db
rejected id error t db = record db {
  tasks = put id (rejected_task error db.now t) db.tasks;
  outbox =
      db.outbox
      ++ new_event db.next_id db.now id none EventType.work_item_rejected TaskStatus.failed ∷ [];
  next_id = db.next_id + 1;
}

abbrev reject_row : Option TaskRow → ℕ → Text → Tx ℕ
reject_row none id error db = err no_rows
reject_row (some t) id error db =
    if status_eq t.status TaskStatus.queued then ok (id, rejected id error t db) else err no_rows

unfoldable pub reject_queued_agent_task_lifecycle : ℕ → Text → Tx ℕ
reject_queued_agent_task_lifecycle id error db =
    query Query.reject_queued (reject_row (db.tasks id) id error) db
