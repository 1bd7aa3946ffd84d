-- ===== src/Store/Tasks.antt =====
-- Statements on agent_task_queue (server/pkg/db/generated/agent.sql.go).
use agentra.Base.{
  ℕ, ◌+◌, ◌≡◌, ==_iff, arith, Bool, true, false, not, ◌&&◌, ◌||◌, ◌==◌, List, [], ◌∷◌, ◌++◌, Option,
  none, some, Text, if◌then◌else◌, opt_eq, ltb,
}
use agentra.Store.Rows.{TaskStatus, TaskType, TaskRow, status_eq}
use agentra.Store.Tx.{Query, Tx, Db, ok, err, no_rows, unique_violation, query, one_row, put}

-- UPDATE agent_task_queue SET … WHERE id = $1 AND … RETURNING *.
pub update_task : Query → ℕ → (TaskRow → Bool) → (Db → TaskRow → TaskRow) → Tx TaskRow
update_task q id guard change db =
    query q
      (λ db. elim (db.tasks id) [
        | none ↦ err no_rows
        | some t ↦
            if guard t
            then ok (change db t, record db { tasks = put id (change db t) db.tasks })
            else err no_rows
      ])
      db

unfoldable pub get_agent_task : ℕ → Tx TaskRow
get_agent_task id db = query Query.get_agent_task (one_row (db.tasks id)) db

unfoldable pub get_agent_task_for_update : ℕ → Tx TaskRow
get_agent_task_for_update id db = query Query.get_agent_task_for_update (one_row (db.tasks id)) db

-- status IN ('dispatched', 'running').
abbrev pub is_active : TaskStatus → Bool
is_active TaskStatus.dispatched = true
is_active TaskStatus.running = true
is_active _ = false

-- status IN ('queued', 'dispatched', 'running').
abbrev pub is_open : TaskStatus → Bool
is_open TaskStatus.queued = true
is_open s = is_active s

-- status IN ('queued', 'dispatched').
abbrev pub is_pending : TaskStatus → Bool
is_pending TaskStatus.queued = true
is_pending TaskStatus.dispatched = true
is_pending _ = false

abbrev pub pends_for : ℕ → Option TaskRow → Bool
pends_for issue none = false
pends_for issue (some t) = (t.issue_id == issue) && is_pending t.status

-- Whether a listed work item of the issue, other than `id`, is pending.
unfoldable pub pending_on : (ℕ → Option TaskRow) → ℕ → ℕ → List ℕ → Bool
pending_on tasks issue id [] = false
pending_on tasks issue id (w ∷ ws) =
    (not (w == id) && pends_for issue (tasks w)) || pending_on tasks issue id ws

-- The row that is written does not count, wherever it stands.
pub pending_on-put :
    (id issue : ℕ) (t : TaskRow) (tasks : ℕ → Option TaskRow) (ws : List ℕ)
    → pending_on (put id t tasks) issue id (ws ++ id ∷ []) ≡ pending_on tasks issue id ws
unfolding pending_on
pending_on-put id issue t tasks [] = ground (arith, ==_iff id id)
pending_on-put id issue t tasks (w ∷ ws) = ground (arith, pending_on-put id issue t tasks ws)

-- The unique index idx_one_pending_task_per_issue (server/migrations), when a statement writes the
-- work item `id`.
unfoldable pub indexed : ℕ → Tx TaskRow → Tx TaskRow
indexed id m db = elim (m db) [
  | err e ↦ err e
  | ok (t, db') ↦
      if is_pending t.status && pending_on db'.tasks t.issue_id id db'.task_ids
      then err unique_violation
      else ok (t, db')
]

-- What the index lets pass, the statement did.
pub indexed_ok :
    (id : ℕ) (m : Tx TaskRow) (db : Db) (r : TaskRow × Db) → indexed id m db ≡ ok r → m db ≡ ok r
unfolding indexed
indexed_ok id m db r h = ground arith

unfoldable pub set_agent_task_running : ℕ → ℕ → Tx TaskRow
unfolding update_task
set_agent_task_running id run_id =
    update_task Query.set_agent_task_running id
      (λ t. opt_eq t.active_run_id (some run_id) && status_eq t.status TaskStatus.dispatched)
      (λ db t. record t { status = TaskStatus.running; started_at = some db.now })

unfoldable pub checkpoint_agent_task_session_for_run :
    ℕ → ℕ → Option Text → Option Text → Tx TaskRow
unfolding update_task
checkpoint_agent_task_session_for_run id run_id session directory =
    update_task Query.checkpoint_agent_task id
      (λ t. opt_eq t.active_run_id (some run_id) && status_eq t.status TaskStatus.running)
      (λ db t. record t { session_id = session; work_dir = directory })

unfoldable pub complete_agent_task_for_run :
    ℕ → ℕ → Option Text → Option Text → Option Text → Tx TaskRow
unfolding update_task
complete_agent_task_for_run id run_id result session directory =
    update_task Query.complete_agent_task id
      (λ t. opt_eq t.active_run_id (some run_id) && status_eq t.status TaskStatus.running)
      (λ db t. record t {
        status = TaskStatus.completed;
        completed_at = some db.now;
        result = result;
        session_id = session;
        work_dir = directory;
        active_run_id = none;
      })

unfoldable pub fail_agent_task_for_run : ℕ → ℕ → Option Text → Tx TaskRow
unfolding update_task
fail_agent_task_for_run id run_id error =
    update_task Query.fail_agent_task id
      (λ t. opt_eq t.active_run_id (some run_id) && is_active t.status)
      (λ db t. record t {
        status = TaskStatus.failed;
        completed_at = some db.now;
        error = error;
        active_run_id = none;
      })

abbrev pub is_retryable : TaskStatus → Bool
is_retryable TaskStatus.failed = true
is_retryable s = is_active s

unfoldable pub requeued : ℕ → Tx TaskRow
unfolding update_task
requeued id =
    update_task Query.retry_agent_task id
      (λ t. is_retryable t.status && ltb t.retry_count t.max_retries)
      (λ db t. record t {
        status = TaskStatus.queued;
        completed_at = none;
        error = none;
        retry_count = t.retry_count + 1;
        dispatched_at = none;
        started_at = none;
        active_run_id = none;
      })

unfoldable pub retry_agent_task : ℕ → Tx TaskRow
unfolding indexed requeued
retry_agent_task id = indexed id (requeued id)

unfoldable pub cancel_agent_task : ℕ → Tx TaskRow
unfolding update_task
cancel_agent_task id =
    update_task Query.cancel_agent_task id (λ t. is_open t.status)
      (λ db t. record t {
        status = TaskStatus.cancelled;
        completed_at = some db.now;
        active_run_id = none;
      })

pub record CreateAgentTaskParams : Type 0 where
  pub agent_id : ℕ
  pub runtime_id : Option ℕ
  pub issue_id : ℕ
  pub priority : ℕ
  pub trigger_comment_id : Option ℕ
  pub task_type : Option TaskType
  pub loop_id : Option ℕ

abbrev or_standard : Option TaskType → TaskType
or_standard none = TaskType.standard
or_standard (some t) = t

-- The row that CreateAgentTask inserts; max_retries has the column's default.
abbrev pub new_task : ℕ → CreateAgentTaskParams → TaskRow
new_task id p = record {
  id = id;
  agent_id = p.agent_id;
  issue_id = p.issue_id;
  runtime_id = p.runtime_id;
  status = TaskStatus.queued;
  priority = p.priority;
  dispatched_at = none;
  started_at = none;
  completed_at = none;
  result = none;
  error = none;
  session_id = none;
  work_dir = none;
  trigger_comment_id = p.trigger_comment_id;
  retry_count = 0;
  max_retries = 3;
  task_type = or_standard p.task_type;
  loop_id = p.loop_id;
  active_run_id = none;
}

unfoldable pub inserted_task : CreateAgentTaskParams → Tx TaskRow
inserted_task p = query Query.create_agent_task (λ db. ok (
  new_task db.next_id p,
  record db {
    tasks = put db.next_id (new_task db.next_id p) db.tasks;
    task_ids = db.task_ids ++ db.next_id ∷ [];
    next_id = db.next_id + 1;
  },
))

unfoldable pub create_agent_task : CreateAgentTaskParams → Tx TaskRow
unfolding indexed inserted_task
create_agent_task p db = indexed db.next_id (inserted_task p) db
