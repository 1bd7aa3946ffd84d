-- ===== src/Loop/Progress.antt =====
-- The loop advances: what a decision writes, and why the stages end.
use agentra.Base.{
  ℕ, ◌+◌, ◌-◌, ◌*◌, ◌<◌, ◌≡◌, ◌≢◌, ◌⊎◌, refl, Bool, true, false, List, [], ◌∷◌, ◌++◌, Option, none,
  some, Text, arith, inl, inr, length,
}
use agentra.Store.Rows.{TaskType, LoopStatus, Stage, FailureReason, LoopRow}
use agentra.Store.Tx.{Query, Db, ok, err, put, invalid_configuration}
use agentra.Store.Tasks.{pending_on, pending_on-put, CreateAgentTaskParams, new_task}
use agentra.Loop.Policy.{
  TaskResult, Decision, create_task, complete, fail, noop, decide_next_stage, stage_from_string,
}
use agentra.Loop.Coordinator.{ResolvedStageAgent, apply_decision, resolve_stage_agent, str_to_text}

-- How many completed stages can still follow: a measure that every decision lowers.
abbrev pub stage_rounds : Option Stage → ℕ → ℕ
stage_rounds none left = 0
stage_rounds (some Stage.plan) left = 2 * left + 3
stage_rounds (some Stage.develop) left = 2 * left + 2
stage_rounds (some Stage.review) left = 2 * left + 1
stage_rounds (some Stage.fix) left = 2 * left + 2

abbrev pub rounds_left : LoopRow → ℕ
rounds_left l = stage_rounds l.current_stage (l.max_iterations - l.iteration)

-- The row that a decision leaves, when every statement succeeds and an agent is found.
abbrev pub decided : LoopRow → ℕ → Decision → LoopRow
decided l now (create_task type bump) = record l {
  status = LoopStatus.running;
  current_stage = stage_from_string type;
  iteration = l.iteration + bump;
  failure_reason = none;
  completed_at = none;
}
decided l now (complete url num branch) = record l {
  status = LoopStatus.done;
  current_stage = none;
  iteration = 0;
  pr_url = str_to_text url;
  pr_number = some num;
  branch_name = str_to_text branch;
  failure_reason = none;
  completed_at = some now;
}
decided l now (fail reason) = record l {
  status = LoopStatus.failed;
  current_stage = none;
  iteration = 0;
  failure_reason = some reason;
  completed_at = some now;
}
decided l now noop = l

abbrev pub is_running : LoopStatus → Bool
is_running LoopStatus.running = true
is_running _ = false

-- Every completed stage of a running loop either leaves the loop not running or leaves strictly fewer
-- stages to come, whatever the stage reported.
pub decide_next_stage_descends :
    (l : LoopRow) (result : Option TaskResult) (now : ℕ)
    → l.status ≡ LoopStatus.running
    → (is_running (decided l now (decide_next_stage l result)).status ≡ false)
      ⊎ (rounds_left (decided l now (decide_next_stage l result)) < rounds_left l)
unfolding decide_next_stage stage_from_string
decide_next_stage_descends l result now h = ground arith

-- The stages that a running loop goes through under a sequence of reports.
unfoldable pub stages_taken : LoopRow → List (Option TaskResult) → ℕ → LoopRow
stages_taken l [] now = l
stages_taken l (result ∷ rest) now =
    stages_taken (decided l now (decide_next_stage l result)) rest now

-- A loop that is not running stays so.
stages_taken_rest :
    (l : LoopRow) (results : List (Option TaskResult)) (now : ℕ)
    → (l.status ≡ LoopStatus.done) ⊎ (l.status ≡ LoopStatus.failed)
    → stages_taken l results now ≡ l
unfolding stages_taken decide_next_stage
stages_taken_rest l [] now h = refl
stages_taken_rest l (result ∷ rest) now h = ground (arith, stages_taken_rest l rest now)

ends_or_descends :
    (l : LoopRow) (result : Option TaskResult) (now : ℕ)
    → l.status ≡ LoopStatus.running
    → ((decided l now (decide_next_stage l result)).status ≡ LoopStatus.done)
      ⊎ ((decided l now (decide_next_stage l result)).status ≡ LoopStatus.failed)
      ⊎ (((decided l now (decide_next_stage l result)).status ≡ LoopStatus.running)
          × (rounds_left (decided l now (decide_next_stage l result)) < rounds_left l))
unfolding decide_next_stage stage_from_string
ends_or_descends l result now h = ground arith

-- A running loop is done or has failed after more reports of stages than `rounds_left` counts,
-- whatever they say.
pub stages_taken_ends :
    (l : LoopRow) (results : List (Option TaskResult)) (now : ℕ)
    → l.status ≡ LoopStatus.running
    → rounds_left l < length results
    → ((stages_taken l results now).status ≡ LoopStatus.done)
      ⊎ ((stages_taken l results now).status ≡ LoopStatus.failed)
unfolding stages_taken
stages_taken_ends l [] now h fuel = absurd (omega arith)
stages_taken_ends l (result ∷ rest) now h fuel = elim (ends_or_descends l result now h) [
  | inl d ↦
      inl (rw (stages_taken_rest (decided l now (decide_next_stage l result)) rest now (inl d)) d)
  | inr (inl f) ↦
      inr (rw (stages_taken_rest (decided l now (decide_next_stage l result)) rest now (inr f)) f)
  | inr (inr (r, less)) ↦
      stages_taken_ends (decided l now (decide_next_stage l result)) rest now r (omega arith)
]

-- The work item that a decision puts on the queue.
abbrev pub stage_task : LoopRow → TaskType → ResolvedStageAgent → CreateAgentTaskParams
stage_task l type agent = record {
  agent_id = agent.agent_id;
  runtime_id = some agent.runtime_id;
  issue_id = l.issue_id;
  priority = 1;
  trigger_comment_id = none;
  task_type = some type;
  loop_id = some l.id;
}

abbrev pub enqueued : Db → LoopRow → TaskType → ResolvedStageAgent → Db
enqueued db l type agent = record db {
  tasks = put db.next_id (new_task db.next_id (stage_task l type agent)) db.tasks;
  task_ids = db.task_ids ++ db.next_id ∷ [];
  next_id = db.next_id + 1;
}

module _ (parse_uuid : Text → Option ℕ) (l : LoopRow) (db : Db)
    (nf : (q : Query) → db.fails q ≡ false) (hl : db.loops l.id ≡ some l) where
  -- With a database that answers, a decision that completes or fails a stored loop succeeds and
  -- leaves the decided row (its stage cleared and its iteration 0), with the work items and the
  -- outbox kept.
  pub apply_decision_ends :
      (d : Decision)
      → ((type : TaskType) (bump : ℕ) → d ≢ create_task type bump)
      → d ≢ noop
      → (r : Db) × (apply_decision parse_uuid l d db ≡ (ok tt, r))
        × (r.loops l.id ≡ some (decided l db.now d))
        × (r.tasks ≡ db.tasks)
        × (r.outbox ≡ db.outbox)
  unfolding apply_decision
  apply_decision_ends (create_task type bump) nc nn = absurd (nc type bump refl)
  apply_decision_ends noop nc nn = absurd (nn refl)
  apply_decision_ends (complete url num branch) nc nn = (
    record db {
      loops = put l.id (decided l db.now (complete url num branch)) (
          put l.id
            (record l {
              pr_url = str_to_text url;
              pr_number = some num;
              branch_name = str_to_text branch;
            })
            db.loops);
    },
    ground (arith, nf Query.set_loop_pr, nf Query.update_loop_status),
    ground arith,
    refl,
    refl,
  )
  apply_decision_ends (fail reason) nc nn = (
    record db { loops = put l.id (decided l db.now (fail reason)) db.loops },
    ground (arith, nf Query.update_loop_status),
    ground arith,
    refl,
    refl,
  )

  -- With a database that answers, a stored loop whose issue has no queued or dispatched work item, and
  -- a resolved agent, a decision to go on puts one queued work item of the type of the stage on the
  -- queue, for the loop, its issue and the agent, and moves the loop to that stage with the iteration
  -- counted.
  pub apply_decision_goes_on :
      (type : TaskType) (bump : ℕ) (agent : ResolvedStageAgent)
      → resolve_stage_agent parse_uuid l type db ≡ (ok agent, db)
      → pending_on db.tasks l.issue_id db.next_id db.task_ids ≡ false
      → apply_decision parse_uuid l (create_task type bump) db ≡ (
        ok tt,
        record (enqueued db l type agent) {
          loops = put l.id (decided l db.now (create_task type bump)) db.loops;
        },
      )
  unfolding apply_decision
  apply_decision_goes_on type bump agent h free = ground (
    arith,
    nf Query.create_agent_task,
    nf Query.update_loop_status,
    pending_on-put db.next_id l.issue_id (new_task db.next_id (stage_task l type agent)) db.tasks
        db.task_ids,
  )

  -- With a database that answers, a stage with no usable agent fails a stored loop, which keeps
  -- its stage and iteration.
  pub apply_decision_no_agent :
      (type : TaskType) (bump : ℕ)
      → resolve_stage_agent parse_uuid l type db ≡ (err invalid_configuration, db)
      → apply_decision parse_uuid l (create_task type bump) db ≡ (
        ok tt,
        record db {
          loops =
              put l.id
                (record l {
                  status = LoopStatus.failed;
                  failure_reason = some FailureReason.invalid_configuration;
                  completed_at = some db.now;
                })
                db.loops;
        },
      )
  unfolding apply_decision
  apply_decision_no_agent type bump h = ground (arith, nf Query.update_loop_status)
