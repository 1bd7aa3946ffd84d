-- ===== src/Lifecycle/Calls.antt =====
-- The calls that runtime adapters and operators make, as data, and what one of them does.
use agentra.Base.{ℕ, ◌≡◌, refl, List, [], ◌∷◌, Option, some, Text}
use agentra.Store.Rows.{TaskStatus, TaskRow, RunRow, EventType}
use agentra.Store.Tx.{Tx, Db, Result, ok, err}
use agentra.Lifecycle.Guards.{RunLifecycle, RunRef, with_locked_run}
use agentra.Lifecycle.Transitions.{
  RunCompletion, start, checkpoint, complete, fail, retry_active, attempt, only_running,
  retry_result, start_body, checkpoint_body, complete_body, fail_body, retry_body,
}

-- A callback of the attempt that a RunRef names.
pub data Callback : Type 0 where
  starts : Callback
  checkpoints : Text → Text → Callback
  completes : RunCompletion → Callback
  fails_with : Text → Callback
  retries : Text → Callback

-- A retry that is declined answers `none`.
abbrev pub answered : Result TaskRow × Db → Result (Option TaskRow) × Db
answered (ok t, db) = (ok (some t), db)
answered (err e, db) = (err e, db)

unfoldable pub perform : RunLifecycle → RunRef → Callback → Db → Result (Option TaskRow) × Db
perform l ref starts db = answered (start l ref db)
perform l ref (checkpoints s d) db = answered (checkpoint l ref s d db)
perform l ref (completes c) db = answered (complete l ref c db)
perform l ref (fails_with m) db = answered (fail l ref m db)
perform l ref (retries m) db = retry_active l ref m db

abbrev pub event_of : Callback → EventType
event_of starts = EventType.run_started
event_of (checkpoints s d) = EventType.run_checkpointed
event_of (completes c) = EventType.run_completed
event_of (fails_with m) = EventType.run_failed
event_of (retries m) = EventType.run_retry_scheduled

abbrev pub allowed_of : Callback → List TaskStatus
allowed_of starts = TaskStatus.dispatched ∷ []
allowed_of (checkpoints s d) = only_running
allowed_of (completes c) = only_running
allowed_of (fails_with m) = attempt
allowed_of (retries m) = attempt

abbrev pub body_of : Callback → ℕ → ℕ → TaskRow → RunRow → Tx TaskRow
body_of starts = start_body
body_of (checkpoints s d) = checkpoint_body s d
body_of (completes c) = complete_body c
body_of (fails_with m) = fail_body m
body_of (retries m) = retry_body m

abbrev pub answer_of : Callback → Result TaskRow × Db → Result (Option TaskRow) × Db
answer_of (retries m) r = retry_result r
answer_of _ r = answered r

-- Every callback is one locked transition.
pub perform_lem :
    (l : RunLifecycle) (ref : RunRef) (call : Callback) (db : Db)
    → perform l ref call db
      ≡ answer_of call (with_locked_run l ref (allowed_of call) (allowed_of call) (body_of call) db)
unfolding perform start checkpoint complete fail retry_active
perform_lem l ref starts db = refl
perform_lem l ref (checkpoints s d) db = refl
perform_lem l ref (completes c) db = refl
perform_lem l ref (fails_with m) db = refl
perform_lem l ref (retries m) db = refl
