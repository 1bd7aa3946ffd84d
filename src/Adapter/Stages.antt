-- ===== src/Adapter/Stages.antt =====
-- What each stage of the loop asks of an adapter (server/internal/loop/stages/tools.go).
use agentra.Base.{
  ℕ, ◌||◌, List, [], ◌∷◌, ◌++◌, Option, none, some, Text, bytes, text_eq, trim_space, has_prefix,
  is_empty, if◌then◌else◌, map,
}
use Prim.Native.String.{String}
use agentra.Lifecycle.Transitions.{pos}
use agentra.Adapter.Contract.{AdapterDescriptor, ExecOptions, Rejection, validate_exec_options}

pub record ExecutionPolicy : Type 0 where
  pub tools : List Text
  pub max_turns : ℕ

abbrev words : List String → List Text
words ws = map bytes ws

abbrev pub plan_policy : ExecutionPolicy
plan_policy = record { tools = words ("read_file" ∷ "search_code" ∷ []); max_turns = 5 }

abbrev pub review_policy : ExecutionPolicy
review_policy = record {
  tools = words ("read_file" ∷ "search_code" ∷ "git_diff" ∷ []);
  max_turns = 10;
}

abbrev editing : List String
editing =
    "read_file" ∷ "search_code" ∷ "write_file" ∷ "run_command" ∷ "run_test" ∷ "git_status"
    ∷ "git_diff" ∷ "git_commit" ∷ "git_push" ∷ []

abbrev pub develop_policy : ExecutionPolicy
develop_policy = record {
  tools = words (editing ++ "create_branch" ∷ "github_pr_create" ∷ []);
  max_turns = 25;
}

abbrev pub fix_policy : ExecutionPolicy
fix_policy = record { tools = words editing; max_turns = 20 }

-- The entry of executionPolicies for a type of task.
unfoldable pub execution_policy : Text → Option ExecutionPolicy
execution_policy task_type =
    if text_eq task_type (bytes "loop_plan")
    then some plan_policy
    else if text_eq task_type (bytes "loop_review")
    then some review_policy
    else if text_eq task_type (bytes "loop_develop")
    then some develop_policy
    else if text_eq task_type (bytes "loop_fix")
    then some fix_policy
    else none

abbrev pub tools_of : Option ExecutionPolicy → List Text
tools_of none = []
tools_of (some policy) = policy.tools

unfoldable pub tools_for_stage : Text → List Text
unfolding execution_policy
tools_for_stage task_type = tools_of (execution_policy task_type)

abbrev turns_of : Option ExecutionPolicy → ℕ
turns_of none = 0
turns_of (some policy) = policy.max_turns

unfoldable pub max_turns_for_stage : Text → ℕ
unfolding execution_policy
max_turns_for_stage task_type = turns_of (execution_policy task_type)

abbrev pub options_of : ExecutionPolicy → ExecOptions
options_of policy = record {
  cwd = [];
  model = [];
  system_prompt = bytes "engineering-loop-stage";
  max_turns = pos policy.max_turns;
  timeout = pos 0;
  resume_session_id = [];
  tools = policy.tools;
}

pub data StageRejection : Type 0 where
  unsupported_loop_task_type : StageRejection
  refused_options : Rejection → StageRejection

unfoldable pub validate_policy :
    AdapterDescriptor → Text → Option ExecutionPolicy → Option StageRejection
unfolding validate_exec_options
validate_policy d task_type none =
    if has_prefix task_type (bytes "loop_")
    then some StageRejection.unsupported_loop_task_type
    else none
validate_policy d task_type (some policy) = elim (validate_exec_options d (options_of policy)) [
  | none ↦ none
  | some r ↦ some (StageRejection.refused_options r)
]

unfoldable pub validate_trimmed : AdapterDescriptor → Text → Option StageRejection
unfolding execution_policy
validate_trimmed d task_type =
    if is_empty task_type || text_eq task_type (bytes "standard")
    then none
    else validate_policy d task_type (execution_policy task_type)

unfoldable pub validate_adapter_for_task_type : AdapterDescriptor → Text → Option StageRejection
validate_adapter_for_task_type d task_type = validate_trimmed d (trim_space task_type)
