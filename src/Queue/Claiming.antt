-- ===== src/Queue/Claiming.antt =====
-- ClaimTask, ClaimTaskForRuntime, claimTaskCandidate and rejectQueuedTask
-- (server/internal/service/task.go). Each statement is committed by itself. The text of an error is
-- given by `describe`.
use agentra.Base.{
  ℕ, Bool, true, false, List, [], ◌∷◌, ◌++◌, Option, none, some, Text, bytes, ◌==◌, leb, some_of,
  to_lower, trim_space,
}
use agentra.Store.Rows.{TaskStatus, TaskType, TaskRow, RuntimeRow, status_eq}
use agentra.Store.Tx.{Tx, ok, err, no_rows, no_adapter_contract}
use agentra.Store.Io.{Io, ◌>>=◌, return, run, throw}
use agentra.Store.Tasks.{get_agent_task}
use agentra.Store.Loops.{get_agent}
use agentra.Store.Claims.{
  get_agent_runtime, count_running_tasks, claim_agent_task_run, claim_agent_task_run_by_id,
  list_pending_tasks_by_runtime, reject_queued_agent_task_lifecycle,
}
use agentra.Adapter.Contract.{AdapterDescriptor}
use agentra.Adapter.Known.{descriptor_for}
use agentra.Adapter.Stages.{StageRejection, validate_adapter_for_task_type}

pub record ClaimedTask : Type 0 where
  pub task : TaskRow
  pub run_id : ℕ

-- The text of a type of task, as its column holds it.
unfoldable pub task_type_text : TaskType → Text
task_type_text TaskType.standard = bytes "standard"
task_type_text TaskType.loop_plan = bytes "loop_plan"
task_type_text TaskType.loop_develop = bytes "loop_develop"
task_type_text TaskType.loop_review = bytes "loop_review"
task_type_text TaskType.loop_fix = bytes "loop_fix"

-- A claim that finds no row is no error.
unfoldable pub claimed_or_none : Tx (ℕ × ℕ) → Io (Option ClaimedTask)
unfolding get_agent_task
claimed_or_none claim db = elim (claim db) [
  | ok ((task_id, run_id), db') ↦ elim (get_agent_task task_id db') [
    | ok (task, db'') ↦ (ok (some (record { task = task; run_id = run_id })), db'')
    | err e ↦ (err e, db')
  ]
  | err no_rows ↦ (ok none, db)
  | err e ↦ (err e, db)
]

-- `none` for an agent at its limit.
unfoldable pub with_capacity : ℕ → Tx (ℕ × ℕ) → Io (Option (Option ClaimedTask))
unfolding get_agent count_running_tasks claimed_or_none
with_capacity agent_id claim = do
  agent ← run (get_agent agent_id)
  running ← run (count_running_tasks agent_id)
  elim (leb agent.max_concurrent_tasks running) [
    | true ↦ return none
    | false ↦ do claimed ← claimed_or_none claim; return (some claimed)
  ]

abbrev pub flatten {ℓ} : {A : Type ℓ} → Option (Option A) → Option A
flatten none = none
flatten (some o) = o

unfoldable pub claim_task : ℕ → Io (Option ClaimedTask)
unfolding with_capacity claim_agent_task_run
claim_task agent_id = do
  claimed ← with_capacity agent_id (claim_agent_task_run agent_id)
  return (flatten claimed)

unfoldable pub claim_task_candidate : TaskRow → Io (Option (Option ClaimedTask))
unfolding with_capacity claim_agent_task_run_by_id
claim_task_candidate candidate =
    with_capacity candidate.agent_id (claim_agent_task_run_by_id candidate.id)

unfoldable pub reject_queued_task : ℕ → Text → Io TaskRow
unfolding reject_queued_agent_task_lifecycle get_agent_task
reject_queued_task task_id message = do
  work_item_id ← run (reject_queued_agent_task_lifecycle task_id message)
  run (get_agent_task work_item_id)

abbrev pub member : ℕ → List ℕ → Bool
member agent blocked = some_of (λ a. a == agent) blocked

-- One candidate that the adapter can run: whether its agent is at its limit, and what was claimed.
abbrev pub try_candidate :
    TaskRow → (List ℕ → Io (Option ClaimedTask)) → List ℕ → Io (Option ClaimedTask)
try_candidate candidate next blocked = elim (member candidate.agent_id blocked) [
  | true ↦ next blocked
  | false ↦ do
    claimed ← claim_task_candidate candidate
    elim claimed [
      | none ↦ next (candidate.agent_id ∷ blocked)
      | some none ↦ next blocked
      | some (some c) ↦ return (some c)
    ]
]

-- A rejection that finds the work item gone from the queue is no error.
abbrev pub reject_candidate : Text → TaskRow → Io (Option ClaimedTask) → Io (Option ClaimedTask)
reject_candidate message candidate next db =
    let r = reject_queued_task candidate.id message db in
    elim r.0 [ ok t ↦ next r.1 | err no_rows ↦ next r.1 | err e ↦ (err e, r.1) ]

-- The candidates in their order, with the agents that are known to be at their limit.
unfoldable pub claim_each :
    (StageRejection → Text) → AdapterDescriptor → List TaskRow → List ℕ → Io (Option ClaimedTask)
unfolding claim_task_candidate reject_queued_task task_type_text
claim_each describe d [] blocked = return none
claim_each describe d (candidate ∷ rest) blocked =
    elim (status_eq candidate.status TaskStatus.queued) [
      | false ↦ claim_each describe d rest blocked
      | true ↦ elim (validate_adapter_for_task_type d (task_type_text candidate.task_type)) [
        | some r ↦
            reject_candidate (bytes "task rejected before dispatch: " ++ describe r) candidate
              (claim_each describe d rest blocked)
        | none ↦ try_candidate candidate (claim_each describe d rest) blocked
      ]
    ]

-- The contract of the adapter that serves a runtime.
unfoldable pub descriptor_of : RuntimeRow → Option AdapterDescriptor
unfolding descriptor_for
descriptor_of runtime = descriptor_for (to_lower (trim_space runtime.provider))

unfoldable pub claim_task_for_runtime : (StageRejection → Text) → ℕ → Io (Option ClaimedTask)
unfolding get_agent_runtime list_pending_tasks_by_runtime claim_each
claim_task_for_runtime describe runtime_id = do
  runtime ← run (get_agent_runtime runtime_id)
  elim (descriptor_of runtime) [
    | none ↦ throw no_adapter_contract
    | some d ↦ do
      tasks ← run (list_pending_tasks_by_runtime runtime_id)
      claim_each describe d tasks []
  ]
