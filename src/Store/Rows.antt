-- ===== src/Store/Rows.antt =====
-- The rows of server/pkg/db/generated/models.go. An identifier is a number, a nullable column an
-- option, a time is in milliseconds; a column with a CHECK constraint is an enumeration.
use agentra.Base.{ℕ, Bool, true, false, List, Option, Text}

-- agent_task_queue.status and task_runs.status.
pub data TaskStatus : Type 0 where
  queued dispatched running completed failed cancelled : TaskStatus

abbrev pub status_eq : TaskStatus → TaskStatus → Bool
status_eq TaskStatus.queued TaskStatus.queued = true
status_eq TaskStatus.dispatched TaskStatus.dispatched = true
status_eq TaskStatus.running TaskStatus.running = true
status_eq TaskStatus.completed TaskStatus.completed = true
status_eq TaskStatus.failed TaskStatus.failed = true
status_eq TaskStatus.cancelled TaskStatus.cancelled = true
status_eq _ _ = false

-- agent_task_queue.task_type.
pub data TaskType : Type 0 where
  standard loop_plan loop_develop loop_review loop_fix : TaskType

-- lifecycle_outbox.event_type.
pub data EventType : Type 0 where
  run_started run_checkpointed run_completed run_failed run_retry_scheduled run_cancelled
        work_item_rejected :
      EventType

pub record TaskRow : Type 0 where
  pub id : ℕ
  pub agent_id : ℕ
  pub issue_id : ℕ
  pub runtime_id : Option ℕ
  pub status : TaskStatus
  pub priority : ℕ
  pub dispatched_at : Option ℕ
  pub started_at : Option ℕ
  pub completed_at : Option ℕ
  pub result : Option Text
  pub error : Option Text
  pub session_id : Option Text
  pub work_dir : Option Text
  pub trigger_comment_id : Option ℕ
  pub retry_count : ℕ
  pub max_retries : ℕ
  pub task_type : TaskType
  pub loop_id : Option ℕ
  pub active_run_id : Option ℕ

pub record RunRow : Type 0 where
  pub id : ℕ
  pub task_id : ℕ
  pub agent_id : ℕ
  pub status : TaskStatus
  pub started_at : Option ℕ
  pub completed_at : Option ℕ
  pub duration_ms : Option ℕ
  pub exit_code : Option ℕ
  pub total_steps : Option ℕ
  pub total_tokens : Option ℕ
  pub total_cost : Option ℕ
  pub output : Option Text
  pub error : Option Text
  pub session_id : Option Text
  pub work_dir : Option Text

-- The payload of an event is the status of its work item, as appendEvent marshals it.
pub record EventRow : Type 0 where
  pub id : ℕ
  pub work_item_id : ℕ
  pub run_id : Option ℕ
  pub event_type : EventType
  pub event_version : ℕ
  pub payload : TaskStatus
  pub available_at : ℕ
  pub locked_at : Option ℕ
  pub lock_token : Option ℕ
  pub processed_at : Option ℕ
  pub dead_lettered_at : Option ℕ
  pub attempts : ℕ

-- lifecycle_event_delivery of the consumer engineering-loop.
pub record Delivery : Type 0 where
  pub event_id : ℕ
  pub attempts : ℕ
  pub available_at : ℕ
  pub dead_lettered_at : Option ℕ

pub data LoopStatus : Type 0 where
  pending running paused done failed cancelled : LoopStatus

pub data Stage : Type 0 where
  plan develop review fix : Stage

pub data FailureReason : Type 0 where
  max_iterations_exceeded loop_timeout stage_timeout pr_create_failed context_exceeded
        content_filter invalid_configuration unrecoverable_error :
      FailureReason

-- loops.config is kept as its stage_agents object; the other keys are never read.
pub record LoopRow : Type 0 where
  pub id : ℕ
  pub issue_id : ℕ
  pub workspace_id : ℕ
  pub status : LoopStatus
  pub current_stage : Option Stage
  pub iteration : ℕ
  pub max_iterations : ℕ
  pub pr_url : Option Text
  pub pr_number : Option ℕ
  pub branch_name : Option Text
  pub agent_id : Option ℕ
  pub stage_agents : List (Stage × Text)
  pub failure_reason : Option FailureReason
  pub started_at : Option ℕ
  pub completed_at : Option ℕ

pub record AgentRow : Type 0 where
  pub id : ℕ
  pub workspace_id : ℕ
  pub name : Text
  pub runtime_id : Option ℕ
  pub archived_at : Option ℕ
  pub max_concurrent_tasks : ℕ

pub record RuntimeRow : Type 0 where
  pub id : ℕ
  pub provider : Text
