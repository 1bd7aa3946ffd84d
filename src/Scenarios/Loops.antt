-- ===== src/Scenarios/Loops.antt =====
-- The review loop: decisions, deliveries and requests.
use agentra.Base.{
  false, inl, ◌≡◌, ◌⊎◌, refl, true, List, [], ◌∷◌, Option, none, some, arith, is_some,
}
use agentra.Store.Rows.{TaskType, LoopStatus, Stage, LoopRow, EventRow}
use agentra.Store.Tx.{Query, Db, ok, err, db_error, invalid_configuration, put, unsupported_version}
use agentra.Store.Consumer.{first_claimable, claimable}
use agentra.Loop.Policy.{task_type_for_stage, TaskResult, create_task, stage_from_string}
use agentra.Loop.Coordinator.{
  ResolvedStageAgent, resolve_stage_agent, apply_decision, stage_agent, start_loop,
}
use agentra.Loop.Projector.{apply, process_next, drain}
use agentra.Loop.Restore.{restore_one}
use agentra.Loop.Restoring.{restore_one_enqueues}
use agentra.Loop.Progress.{
  decided, stages_taken, stages_taken_ends, apply_decision_goes_on, enqueued,
}
use agentra.Loop.Delivery.{
  Received, apply_not_current, process_next-Received, process_next_failed, drain_ends,
}
use agentra.Store.Tasks.{pending_on}
use agentra.Scenarios.Data.{
  db0, db_alone, db_down, db_event, item, review_loop, nothing, failed_event, parse_none,
  unmarshal_none,
}

abbrev pair : ResolvedStageAgent
pair = record { agent_id = 7; runtime_id = 3 }

resolved :
    resolve_stage_agent parse_none review_loop TaskType.loop_fix db_alone ≡ (ok pair, db_alone)
unfolding resolve_stage_agent stage_from_string stage_agent
resolved = refl

abbrev silence : List (Option TaskResult)
silence = none ∷ none ∷ none ∷ none ∷ none ∷ none ∷ []

stages_taken_ends_example :
    ((stages_taken review_loop silence 100).status ≡ LoopStatus.done)
    ⊎ ((stages_taken review_loop silence 100).status ≡ LoopStatus.failed)
stages_taken_ends_example = stages_taken_ends review_loop silence 100 refl (omega arith)

free : pending_on db_alone.tasks 5 50 db_alone.task_ids ≡ false
unfolding pending_on
free = refl

apply_decision_goes_on_example :
    apply_decision parse_none review_loop (create_task TaskType.loop_fix 1) db_alone ≡ (
      ok tt,
      record (enqueued db_alone review_loop TaskType.loop_fix pair) {
        loops = put 9 (decided review_loop 100 (create_task TaskType.loop_fix 1)) db_alone.loops;
      },
    )
apply_decision_goes_on_example =
    apply_decision_goes_on parse_none review_loop db_alone (λ q. refl) refl TaskType.loop_fix 1 pair
      resolved free

abbrev db_no_agent : Db
db_no_agent = record db0 { agents = nothing }

unresolved :
    resolve_stage_agent parse_none review_loop TaskType.loop_fix db_no_agent
    ≡ (err invalid_configuration, db_no_agent)
unfolding resolve_stage_agent stage_from_string stage_agent
unresolved = refl

abbrev paused_loop : LoopRow
paused_loop = record review_loop { status = LoopStatus.paused }

abbrev db_paused : Db
db_paused = record db_event { loops = put 9 paused_loop nothing }

apply_not_current_example :
    apply parse_none unmarshal_none failed_event db_paused ≡ (ok tt, db_paused)
apply_not_current_example =
    apply_not_current parse_none unmarshal_none failed_event item paused_loop 9 db_paused
      (λ q. refl) refl refl refl refl (inl (λ e. cc))

round_db : Db
round_db = (process_next parse_none unmarshal_none db_paused).1

round : process_next parse_none unmarshal_none db_paused ≡ (ok true, round_db)
unfolding process_next round_db apply first_claimable claimable
round = refl

process_next-Received_example :
    (e : EventRow) × (first_claimable db_paused (failed_event ∷ []) ≡ some e)
    × Received parse_none unmarshal_none db_paused round_db e
process_next-Received_example =
    process_next-Received parse_none unmarshal_none db_paused round_db round

abbrev old_event : EventRow
old_event = record failed_event { event_version = 2 }

abbrev db_old : Db
db_old = record db_event { outbox = old_event ∷ [] }

stopped_db : Db
stopped_db = (process_next parse_none unmarshal_none db_old).1

stopped : process_next parse_none unmarshal_none db_old ≡ (err unsupported_version, stopped_db)
unfolding process_next stopped_db apply first_claimable claimable
stopped = refl

process_next_failed_example : record stopped_db { deliveries = [] } ≡ db_old
process_next_failed_example =
    process_next_failed parse_none unmarshal_none db_old stopped_db unsupported_version stopped

drain_ends_example : is_some (drain parse_none unmarshal_none 2 db_event) ≡ true
drain_ends_example = drain_ends parse_none unmarshal_none 2 db_event (omega arith)

start_fails : (start_loop parse_none 9 db_down).0 ≡ err (db_error Query.begin)
unfolding start_loop
start_fails = refl

-- The work item of the stage was lost.
abbrev db_idle : Db
db_idle = record db0 { tasks = nothing; task_ids = [] }

resolved_idle :
    resolve_stage_agent parse_none review_loop TaskType.loop_review db_idle ≡ (ok pair, db_idle)
unfolding resolve_stage_agent stage_from_string stage_agent
resolved_idle = refl

free_idle : pending_on db_idle.tasks 5 50 [] ≡ false
unfolding pending_on
free_idle = refl

restore_one_enqueues_example : restore_one parse_none review_loop db_idle ≡ (
  ok tt,
  record (enqueued db_idle review_loop TaskType.loop_review pair) {
    loops = put 9 (decided review_loop 100 (create_task TaskType.loop_review 0)) db0.loops;
  },
)
unfolding task_type_for_stage
restore_one_enqueues_example =
    restore_one_enqueues parse_none review_loop Stage.review pair db_idle (λ q. refl) refl refl refl
      refl refl resolved_idle free_idle
