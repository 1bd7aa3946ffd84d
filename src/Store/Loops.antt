-- ===== src/Store/Loops.antt =====
-- Statements on loops (server/pkg/db/generated/loops.sql.go), and GetAgent.
use agentra.Base.{
  ℕ, ◌+◌, Bool, true, false, ◌&&◌, List, [], ◌∷◌, ◌++◌, Option, none, some, Text, if◌then◌else◌,
  opt_eq, some_of,
}
use agentra.Store.Rows.{TaskType, TaskRow, LoopStatus, Stage, FailureReason, LoopRow, AgentRow}
use agentra.Store.Tx.{Query, Tx, ok, err, no_rows, check_violation, query, one_row, put, return}
use agentra.Store.Tasks.{is_open}

abbrev pub task_type_eq : TaskType → TaskType → Bool
task_type_eq TaskType.standard TaskType.standard = true
task_type_eq TaskType.loop_plan TaskType.loop_plan = true
task_type_eq TaskType.loop_develop TaskType.loop_develop = true
task_type_eq TaskType.loop_review TaskType.loop_review = true
task_type_eq TaskType.loop_fix TaskType.loop_fix = true
task_type_eq _ _ = false

unfoldable pub get_agent : ℕ → Tx AgentRow
get_agent id db = query Query.get_agent (one_row (db.agents id)) db

unfoldable pub get_loop : ℕ → Tx LoopRow
get_loop id db = query Query.get_loop (one_row (db.loops id)) db

unfoldable pub get_loop_for_update : ℕ → Tx LoopRow
get_loop_for_update id db = query Query.get_loop_for_update (one_row (db.loops id)) db

-- An absent status is the empty string, which the column's CHECK refuses.
pub record UpdateLoopStatusParams : Type 0 where
  pub status : Option LoopStatus
  pub current_stage : Option Stage
  pub iteration : ℕ
  pub failure_reason : Option FailureReason
  pub started_at : Option ℕ
  pub completed_at : Option ℕ

abbrev pub coalesce {ℓ} : {A : Type ℓ} → Option A → Option A → Option A
coalesce none b = b
coalesce (some a) b = some a

abbrev pub with_status : LoopRow → LoopStatus → UpdateLoopStatusParams → LoopRow
with_status l s p = record l {
  status = s;
  current_stage = p.current_stage;
  iteration = p.iteration;
  failure_reason = p.failure_reason;
  started_at = coalesce l.started_at p.started_at;
  completed_at = p.completed_at;
}

-- UPDATE loops SET … WHERE id = $1 RETURNING *.
abbrev pub put_loop : ℕ → LoopRow → Tx LoopRow
put_loop id l db = ok (l, record db { loops = put id l db.loops })

abbrev checked_update : ℕ → Option LoopRow → Option LoopStatus → UpdateLoopStatusParams → Tx LoopRow
checked_update id none s p db = err no_rows
checked_update id (some l) none p db = err check_violation
checked_update id (some l) (some s) p db = put_loop id (with_status l s p) db

unfoldable pub update_loop_status : ℕ → UpdateLoopStatusParams → Tx LoopRow
update_loop_status id p db =
    query Query.update_loop_status (checked_update id (db.loops id) p.status p) db

abbrev with_pr : ℕ → Option LoopRow → Option Text → ℕ → Option Text → Tx LoopRow
with_pr id none url num branch db = err no_rows
with_pr id (some l) url num branch db =
    put_loop id (record l { pr_url = url; pr_number = some num; branch_name = branch }) db

unfoldable pub set_loop_pr : ℕ → Option Text → ℕ → Option Text → Tx LoopRow
set_loop_pr id url num branch db =
    query Query.set_loop_pr (with_pr id (db.loops id) url num branch) db

abbrev is_listed : Option LoopRow → Bool
is_listed none = false
is_listed (some l) = elim l.status [
  | LoopStatus.running ↦ true
  | LoopStatus.paused ↦ true
  | _ ↦ false
]

-- The running and paused loops, oldest first, `room` of them at most.
active_loops : (ℕ → Option LoopRow) → List ℕ → ℕ → List ℕ
active_loops loops [] room = []
active_loops loops (i ∷ is) ℕ.zero = []
active_loops loops (i ∷ is) (ℕ.suc room) =
    if is_listed (loops i)
    then i ∷ active_loops loops is room
    else active_loops loops is (ℕ.suc room)

-- LoadActiveLoops, as the identifiers of its rows.
unfoldable pub load_active_loops : Tx (List ℕ)
unfolding active_loops
load_active_loops db =
    query Query.load_active_loops (return (active_loops db.loops db.loop_ids 1000)) db

abbrev pub in_flight_for : ℕ → TaskType → Option TaskRow → Bool
in_flight_for loop_id type none = false
in_flight_for loop_id type (some t) =
    opt_eq t.loop_id (some loop_id) && (task_type_eq t.task_type type && is_open t.status)

unfoldable pub has_in_flight_task_for_loop_stage : ℕ → TaskType → Tx Bool
has_in_flight_task_for_loop_stage loop_id type db =
    query Query.has_in_flight
      (return (some_of (λ i. in_flight_for loop_id type (db.tasks i)) db.task_ids)) db

-- The columns of an INSERT into loops; the others take their defaults.
pub record CreateLoopParams : Type 0 where
  pub issue_id : ℕ
  pub workspace_id : ℕ
  pub max_iterations : Option ℕ
  pub agent_id : Option ℕ
  pub stage_agents : List (Stage × Text)

abbrev or_five : Option ℕ → ℕ
or_five none = 5
or_five (some n) = n

abbrev pub new_loop : ℕ → CreateLoopParams → LoopRow
new_loop id p = record {
  id = id;
  issue_id = p.issue_id;
  workspace_id = p.workspace_id;
  status = LoopStatus.pending;
  current_stage = none;
  iteration = 0;
  max_iterations = or_five p.max_iterations;
  pr_url = none;
  pr_number = none;
  branch_name = none;
  agent_id = p.agent_id;
  stage_agents = p.stage_agents;
  failure_reason = none;
  started_at = none;
  completed_at = none;
}

unfoldable pub create_loop : CreateLoopParams → Tx LoopRow
create_loop p db =
    query Query.create_loop
      (λ d. ok (
        new_loop d.next_id p,
        record d {
          loops = put d.next_id (new_loop d.next_id p) d.loops;
          loop_ids = d.loop_ids ++ d.next_id ∷ [];
          next_id = d.next_id + 1;
        },
      ))
      db
