-- ===== src/Loop/Policy.antt =====
-- The decisions of the loop (server/internal/loop/coordinator.go and coordinator_helpers.go), with
-- no input or output.
use agentra.Base.{
  ℕ, Bool, ◌||◌, Option, none, some, Text, bytes, if◌then◌else◌, leb, contains_text, to_lower,
}
use agentra.Store.Rows.{TaskType, LoopStatus, Stage, FailureReason, LoopRow}

-- The output of a review, as the stage reports it.
pub record TaskResult : Type 0 where
  pub review_approved : Option Bool
  pub review_issues : Text
  pub pr_url : Text
  pub pr_number : Option ℕ
  pub branch_name : Text

-- A Decision with its action; each action carries the fields that it reads.
pub data Decision : Type 0 where
  create_task : TaskType → ℕ → Decision
  complete : Text → ℕ → Text → Decision
  fail : FailureReason → Decision
  noop : Decision

unfoldable pub stage_from_string : TaskType → Option Stage
stage_from_string TaskType.loop_plan = some Stage.plan
stage_from_string TaskType.loop_develop = some Stage.develop
stage_from_string TaskType.loop_review = some Stage.review
stage_from_string TaskType.loop_fix = some Stage.fix
stage_from_string TaskType.standard = none

unfoldable pub task_type_for_stage : Stage → TaskType
task_type_for_stage Stage.plan = TaskType.loop_plan
task_type_for_stage Stage.develop = TaskType.loop_develop
task_type_for_stage Stage.review = TaskType.loop_review
task_type_for_stage Stage.fix = TaskType.loop_fix

abbrev number_or_zero : Option ℕ → ℕ
number_or_zero none = 0
number_or_zero (some n) = n

abbrev rejected : LoopRow → Decision
rejected l =
    if leb l.max_iterations l.iteration
    then fail FailureReason.max_iterations_exceeded
    else create_task TaskType.loop_fix 1

abbrev pub approval : TaskResult → Decision
approval r = complete r.pr_url (number_or_zero r.pr_number) r.branch_name

after_review : LoopRow → Option TaskResult → Decision
after_review l none = rejected l
after_review l (some r) = elim r.review_approved [
  | none ↦ rejected l
  | some approved ↦ if approved then approval r else rejected l
]

next_of : LoopRow → Option TaskResult → Option Stage → Decision
unfolding after_review
next_of l result none = fail FailureReason.unrecoverable_error
next_of l result (some Stage.plan) = create_task TaskType.loop_develop 0
next_of l result (some Stage.develop) = create_task TaskType.loop_review 0
next_of l result (some Stage.review) = after_review l result
next_of l result (some Stage.fix) = create_task TaskType.loop_review 0

unfoldable pub decide_next_stage : LoopRow → Option TaskResult → Decision
unfolding next_of
decide_next_stage l result = elim l.status [
  | LoopStatus.paused ↦ noop
  | LoopStatus.cancelled ↦ noop
  | LoopStatus.done ↦ noop
  | LoopStatus.failed ↦ noop
  | _ ↦ next_of l result l.current_stage
]

unfoldable pub classify_error : Text → FailureReason
classify_error message =
    let lower = to_lower message in
    if contains_text lower (bytes "context")
    then FailureReason.context_exceeded
    else (if contains_text lower (bytes "filter") || contains_text lower (bytes "blocked")
        then FailureReason.content_filter
        else (if contains_text lower (bytes "timeout")
            then FailureReason.stage_timeout
            else (if contains_text lower (bytes "pr")
                then FailureReason.pr_create_failed
                else FailureReason.unrecoverable_error)))
