-- ===== src/Loop/Coordinator.antt =====
-- The coordinator's statements (server/internal/loop/coordinator.go and store.go). Parsing a UUID is
-- pgtype's: the parameter `parse_uuid`.
use agentra.Base.{
  ℕ, ◌+◌, Bool, true, false, not, List, [], ◌∷◌, Option, none, some, Text, if◌then◌else◌, ◌==◌,
  trim_space, is_empty, is_some,
}
use agentra.Store.Rows.{TaskType, LoopStatus, Stage, FailureReason, LoopRow, AgentRow}
use agentra.Store.Tx.{ok, err, no_rows, not_pending, invalid_configuration}
use agentra.Store.Io.{Io, ◌>>=◌, ◌>>◌, return, throw, check, run, atomically}
use agentra.Store.Tasks.{create_agent_task}
use agentra.Store.Loops.{get_agent, get_loop_for_update, update_loop_status, set_loop_pr}
use agentra.Loop.Policy.{Decision, create_task, complete, fail, noop, stage_from_string}

-- UpdateStatusInput of store.go: `iteration` absent writes 0, as derefOrZero does.
pub record UpdateStatusInput : Type 0 where
  pub status : Option LoopStatus
  pub current_stage : Option Stage
  pub iteration : Option ℕ
  pub failure_reason : Option FailureReason
  pub started_at : Option ℕ
  pub completed_at : Option ℕ

abbrev pub deref_or_zero : Option ℕ → ℕ
deref_or_zero none = 0
deref_or_zero (some n) = n

unfoldable pub update_status : ℕ → UpdateStatusInput → Io LoopRow
unfolding update_loop_status
update_status id input = run (
    update_loop_status id (record {
      status = input.status;
      current_stage = input.current_stage;
      iteration = deref_or_zero input.iteration;
      failure_reason = input.failure_reason;
      started_at = input.started_at;
      completed_at = input.completed_at;
    }))

-- util.StrToText: the empty string is NULL.
abbrev pub str_to_text : Text → Option Text
str_to_text s = if is_empty s then none else some s

unfoldable pub set_pr : ℕ → Text → ℕ → Text → Io LoopRow
unfolding set_loop_pr
set_pr id url num branch = run (set_loop_pr id (str_to_text url) num (str_to_text branch))

abbrev stage_eq : Stage → Stage → Bool
stage_eq Stage.plan Stage.plan = true
stage_eq Stage.develop Stage.develop = true
stage_eq Stage.review Stage.review = true
stage_eq Stage.fix Stage.fix = true
stage_eq _ _ = false

-- An agent is named by the loop's agent_id column or by a text of its configuration.
pub data AgentRef : Type 0 where
  column : ℕ → AgentRef
  configured : Text → AgentRef

abbrev override : Stage → List (Stage × Text) → Option Text
override stage [] = none
override stage ((s, id) ∷ rest) = if stage_eq s stage then some id else override stage rest

abbrev agent_column : Option ℕ → Option AgentRef
agent_column none = none
agent_column (some id) = some (column id)

unfoldable pub stage_agent : LoopRow → Stage → Option AgentRef
stage_agent l stage = elim (override stage l.stage_agents) [
  | none ↦ agent_column l.agent_id
  | some id ↦ if is_empty id then agent_column l.agent_id else some (configured id)
]

-- The agent and the runtime of a stage.
pub record ResolvedStageAgent : Type 0 where
  pub agent_id : ℕ
  pub runtime_id : ℕ

-- The identifier that a reference stands for: none for a blank text or no UUID.
abbrev referred : (Text → Option ℕ) → Option AgentRef → Option ℕ
referred parse_uuid none = none
referred parse_uuid (some (column id)) = some id
referred parse_uuid (some (configured text)) =
    if is_empty (trim_space text) then none else parse_uuid (trim_space text)

abbrev runtime_or_invalid : ℕ → Option ℕ → Io ResolvedStageAgent
runtime_or_invalid id none = throw invalid_configuration
runtime_or_invalid id (some runtime) = return (record { agent_id = id; runtime_id = runtime })

-- GetAgent, with a missing row as an invalid configuration.
abbrev known_agent : ℕ → Io AgentRow
known_agent id db = elim (get_agent id db) [
  | ok (a, db') ↦ (ok a, db')
  | err e ↦ elim e [ no_rows ↦ (err invalid_configuration, db) | other ↦ (err other, db) ]
]

unfoldable pub fail_invalid_configuration : LoopRow → Io (Unit {0})
unfolding update_status
fail_invalid_configuration l db =
    (do
      update_status l.id (record {
        status = some LoopStatus.failed;
        current_stage = l.current_stage;
        iteration = some l.iteration;
        failure_reason = some FailureReason.invalid_configuration;
        started_at = none;
        completed_at = some db.now;
      })
      return tt)
      db

-- An invalid configuration closes the loop; any other error is passed on.
abbrev pub or_fail_loop : LoopRow → Io (Unit {0}) → Io (Unit {0})
or_fail_loop l m db =
    let r = m db in
    elim r.0 [
      | ok u ↦ (ok u, r.1)
      | err e ↦ elim e [
        | invalid_configuration ↦ fail_invalid_configuration l r.1
        | other ↦ (err other, r.1)
      ]
    ]

-- The final state of a loop, with neither stage nor iteration given.
abbrev pub ending : LoopStatus → Option FailureReason → ℕ → UpdateStatusInput
ending status reason now = record {
  status = some status;
  current_stage = none;
  iteration = none;
  failure_reason = reason;
  started_at = none;
  completed_at = some now;
}

module _ (parse_uuid : Text → Option ℕ) where
  resolve_stage : LoopRow → Option Stage → Io ResolvedStageAgent
  unfolding get_agent stage_agent
  resolve_stage l none = throw invalid_configuration
  resolve_stage l (some stage) = elim (referred parse_uuid (stage_agent l stage)) [
    | none ↦ throw invalid_configuration
    | some id ↦ do
      agent ← known_agent id
      check (agent.workspace_id == l.workspace_id) invalid_configuration
      check (not (is_some agent.archived_at)) invalid_configuration
      runtime_or_invalid id agent.runtime_id
  ]

  unfoldable pub resolve_stage_agent : LoopRow → TaskType → Io ResolvedStageAgent
  unfolding resolve_stage stage_from_string
  resolve_stage_agent l type = resolve_stage l (stage_from_string type)

  unfoldable pub create_task_for_stage_with_agent :
      LoopRow → TaskType → ℕ → ResolvedStageAgent → Io (Unit {0})
  unfolding create_agent_task update_status stage_from_string
  create_task_for_stage_with_agent l type iteration_bump agent = do
    run (
        create_agent_task (record {
          agent_id = agent.agent_id;
          runtime_id = some agent.runtime_id;
          issue_id = l.issue_id;
          priority = 1;
          trigger_comment_id = none;
          task_type = some type;
          loop_id = some l.id;
        }))
    update_status l.id (record {
      status = some LoopStatus.running;
      current_stage = stage_from_string type;
      iteration = some (l.iteration + iteration_bump);
      failure_reason = none;
      started_at = none;
      completed_at = none;
    })
    return tt

  unfoldable pub create_task_for_stage : LoopRow → TaskType → ℕ → Io (Unit {0})
  unfolding resolve_stage_agent create_task_for_stage_with_agent
  create_task_for_stage l type iteration_bump = do
    agent ← resolve_stage_agent l type
    create_task_for_stage_with_agent l type iteration_bump agent

  unfoldable pub apply_decision : LoopRow → Decision → Io (Unit {0})
  unfolding create_task_for_stage fail_invalid_configuration update_status set_pr
  apply_decision l (create_task type bump) db =
      or_fail_loop l (create_task_for_stage l type bump) db
  apply_decision l (complete url num branch) db =
      (do
        set_pr l.id url num branch
        update_status l.id (ending LoopStatus.done none db.now)
        return tt)
        db
  apply_decision l (fail reason) db =
      (do update_status l.id (ending LoopStatus.failed (some reason) db.now); return tt) db
  apply_decision l noop db = (ok tt, db)

  unfoldable pub start_locked : ℕ → Io (Unit {0})
  unfolding get_loop_for_update create_task_for_stage update_status
  start_locked id db =
      (do
        l ← run (get_loop_for_update id)
        check (elim l.status [ LoopStatus.pending ↦ true | _ ↦ false ]) not_pending
        create_task_for_stage l TaskType.loop_plan 0
        update_status l.id (record {
          status = some LoopStatus.running;
          current_stage = some Stage.plan;
          iteration = none;
          failure_reason = none;
          started_at = some db.now;
          completed_at = none;
        })
        return tt)
        db

  unfoldable pub start_loop : ℕ → Io (Unit {0})
  unfolding start_locked atomically
  start_loop id = atomically (start_locked id)
