-- ===== src/Queue/Enqueue.antt =====
-- EnqueueTaskForIssue, EnqueueTaskForMention and priorityToInt (server/internal/service/task.go).
use agentra.Base.{ℕ, not, Option, none, some, Text, bytes, text_eq, if◌then◌else◌, is_some}
use agentra.Store.Rows.{TaskRow, AgentRow}
use agentra.Store.Tx.{Tx, no_assignee, agent_archived, no_runtime, ◌>>=◌, ◌>>◌, check, throw}
use agentra.Store.Tasks.{CreateAgentTaskParams, create_agent_task}
use agentra.Store.Loops.{get_agent}

pub record Issue : Type 0 where
  pub id : ℕ
  pub assignee_id : Option ℕ
  pub priority : Text

unfoldable pub priority_to_int : Text → ℕ
priority_to_int p =
    if text_eq p (bytes "urgent")
    then 4
    else if text_eq p (bytes "high")
    then 3
    else if text_eq p (bytes "medium")
    then 2
    else if text_eq p (bytes "low")
    then 1
    else 0

unfoldable pub task_params : Issue → ℕ → AgentRow → Option ℕ → CreateAgentTaskParams
unfolding priority_to_int
task_params issue agent_id agent comment_id = record {
  agent_id = agent_id;
  runtime_id = agent.runtime_id;
  issue_id = issue.id;
  priority = priority_to_int issue.priority;
  trigger_comment_id = comment_id;
  task_type = none;
  loop_id = none;
}

unfoldable pub enqueue_task_for_mention : Issue → ℕ → Option ℕ → Tx TaskRow
unfolding get_agent create_agent_task task_params
enqueue_task_for_mention issue agent_id comment_id = do
  agent ← get_agent agent_id
  check (not (is_some agent.archived_at)) agent_archived
  check (is_some agent.runtime_id) no_runtime
  create_agent_task (task_params issue agent_id agent comment_id)

-- For the assignee of the issue.
abbrev enqueue_for_assignee : Issue → Option ℕ → Option ℕ → Tx TaskRow
enqueue_for_assignee issue none comment_id = throw no_assignee
enqueue_for_assignee issue (some agent_id) comment_id = do
  agent ← get_agent agent_id
  check (not (is_some agent.archived_at)) agent_archived
  check (is_some agent.runtime_id) no_runtime
  create_agent_task (task_params issue agent_id agent comment_id)

unfoldable pub enqueue_task_for_issue : Issue → Option ℕ → Tx TaskRow
unfolding get_agent create_agent_task task_params
enqueue_task_for_issue issue comment_id = enqueue_for_assignee issue issue.assignee_id comment_id
