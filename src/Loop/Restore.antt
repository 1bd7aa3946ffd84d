-- ===== src/Loop/Restore.antt =====
-- RestoreOnStartup (server/internal/loop/coordinator.go): statements outside a transaction.
use agentra.Base.{ℕ, ◌-◌, Bool, true, false, List, [], ◌∷◌, Option, none, some, Text, ltb}
use agentra.Store.Rows.{LoopStatus, FailureReason, LoopRow, Stage, TaskType}
use agentra.Store.Tx.{Db, ok, err, invalid_configuration}
use agentra.Store.Io.{Io, ◌>>=◌, ◌>>◌, return, run}
use agentra.Store.Loops.{has_in_flight_task_for_loop_stage, load_active_loops}
use agentra.Store.Consumer.{has_pending_engineering_loop_lifecycle_event}
use agentra.Loop.Policy.{task_type_for_stage}
use agentra.Loop.Coordinator.{
  ResolvedStageAgent, resolve_stage_agent, create_task_for_stage_with_agent,
  fail_invalid_configuration, update_status, ending,
}

-- loopRestoreTimeout, in milliseconds.
abbrev pub loop_restore_timeout : ℕ
loop_restore_timeout = 1800000

abbrev pub timed_out : Option ℕ → ℕ → Bool
timed_out none now = false
timed_out (some started) now = ltb loop_restore_timeout (now - started)

module _ (parse_uuid : Text → Option ℕ) where
  -- With no work in flight: time the loop out, or enqueue its stage again.
  rearm : LoopRow → TaskType → ResolvedStageAgent → Io (Unit {0})
  unfolding update_status create_task_for_stage_with_agent
  rearm l type agent db = elim (timed_out l.started_at db.now) [
    | true ↦
        (do
          update_status l.id (ending LoopStatus.failed (some FailureReason.loop_timeout) db.now)
          return tt)
          db
    | false ↦ create_task_for_stage_with_agent parse_uuid l type 0 agent db
  ]

  resolve_and_rearm : LoopRow → TaskType → Io (Unit {0})
  unfolding rearm resolve_stage_agent fail_invalid_configuration
  resolve_and_rearm l type db =
      let r = resolve_stage_agent parse_uuid l type db in
      elim r.0 [
        | ok agent ↦ rearm l type agent r.1
        | err e ↦ elim e [
          | invalid_configuration ↦ fail_invalid_configuration l r.1
          | other ↦ (err other, r.1)
        ]
      ]

  restore_stage : LoopRow → Option Stage → Io (Unit {0})
  unfolding has_in_flight_task_for_loop_stage has_pending_engineering_loop_lifecycle_event
      resolve_and_rearm fail_invalid_configuration
  restore_stage l none = fail_invalid_configuration l
  restore_stage l (some stage) = do
    has ← run (has_in_flight_task_for_loop_stage l.id (task_type_for_stage stage))
    pending_terminal ← (elim has [
      | true ↦ return true
      | false ↦ run (has_pending_engineering_loop_lifecycle_event l.id (task_type_for_stage stage))
    ])
    (elim pending_terminal [
      | true ↦ return tt
      | false ↦ resolve_and_rearm l (task_type_for_stage stage)
    ])

  unfoldable pub restore_one : LoopRow → Io (Unit {0})
  unfolding restore_stage
  restore_one l = elim l.status [
    | LoopStatus.running ↦ restore_stage l l.current_stage
    | _ ↦ return tt
  ]

  -- The rows were read before the first loop is restored; an error of one loop is only logged.
  restore_all : List (Option LoopRow) → Db → Db
  restore_all [] db = db
  restore_all (none ∷ ls) db = restore_all ls db
  restore_all (some l ∷ ls) db = restore_all ls (restore_one l db).1

  rows_of : (ℕ → Option LoopRow) → List ℕ → List (Option LoopRow)
  rows_of loops [] = []
  rows_of loops (i ∷ is) = loops i ∷ rows_of loops is

  unfoldable pub restore_on_startup : Db → Db
  unfolding load_active_loops restore_all rows_of
  restore_on_startup db = elim (load_active_loops db) [
    | ok (ids, db') ↦ restore_all (rows_of db'.loops ids) db'
    | err e ↦ db
  ]
