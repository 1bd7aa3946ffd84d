-- ===== src/Scenarios/Attempts.antt =====
-- Callbacks, cancellations and bulk transitions on the running attempt.
use agentra.Base.{ℕ, ◌≡◌, refl, [], ◌∷◌, ◌++◌, none, some, Text, bytes}
use agentra.Store.Rows.{TaskStatus, TaskRow, RunRow, EventType}
use agentra.Store.Tx.{Query, Db, ok, err, stale_run, db_error, put, transaction}
use agentra.Store.Outbox.{new_event}
use agentra.Lifecycle.Guards.{RunRef, with_locked_run}
use agentra.Lifecycle.Transitions.{fail, fail_body}
use agentra.Lifecycle.Calls.{perform, fails_with}
use agentra.Lifecycle.Atomic.{perform_stale}
use agentra.Lifecycle.Agreement.{perform_effect}
use agentra.Lifecycle.Cancel.{cancel_ends, Cancelled, cancelled_task}
use agentra.Lifecycle.Bulk.{cancel_for_issue, sweep, targets}
use agentra.Lifecycle.Sweeps.{for_issue, perform_bulk}
use agentra.Lifecycle.Transitions.{cancel}
use agentra.Scenarios.Data.{db0, db_down, service, ref2, item, waiting_item, db0-Linked}

abbrev lost : Text
lost = bytes "lost"

refused : (perform service ref2 (fails_with lost) db_down).0 ≡ err (db_error Query.begin)
unfolding perform fail with_locked_run
refused = refl

perform_stale_example :
    perform service (record { work_item_id = some 1; run_id = some 8 }) (fails_with lost) db0
    ≡ (err stale_run, db0)
perform_stale_example =
    perform_stale service 1 8 (fails_with lost) db0 item refl refl refl refl (λ e. cc)

abbrev failed_item : TaskRow
failed_item = record item {
  status = TaskStatus.failed;
  completed_at = some 100;
  error = some lost;
  active_run_id = none;
}

after : Db
after = (perform service ref2 (fails_with lost) db0).1

fails : perform service ref2 (fails_with lost) db0 ≡ (ok (some failed_item), after)
unfolding perform fail with_locked_run after fail_body
fails = refl

perform_effect_example :
    (w : ℕ) × (r : ℕ) × (ref2.work_item_id ≡ some w)
    × (ref2.run_id ≡ some r)
    × (after.outbox ≡ [] ++ new_event 50 100 1 (some r) EventType.run_failed TaskStatus.failed ∷ [])
    × (after.tasks ≡ put w failed_item db0.tasks)
    × ((run : RunRow) × (after.runs ≡ put r run db0.runs))
perform_effect_example = perform_effect service ref2 (fails_with lost) db0 after failed_item fails

abbrev ref4 : RunRef
ref4 = record { work_item_id = some 4; run_id = some 2 }

cancel_ends_example :
    (db' : Db) × (cancel service (some 1) db0 ≡ (ok (cancelled_task db0 item, some 2), db'))
    × Cancelled 1 item db0 db'
cancel_ends_example = cancel_ends service 1 item db0 refl refl (λ q. refl) db0-Linked refl refl

cancel_refused : (cancel service (some 1) db_down).0 ≡ err (db_error Query.begin)
unfolding cancel transaction
cancel_refused = refl

swept_db : Db
swept_db = (perform_bulk service (for_issue 5) db0).1

sweeps : perform_bulk service (for_issue 5) db0 ≡ (ok 2, swept_db)
unfolding perform_bulk cancel_for_issue swept_db targets
sweeps = refl

abbrev cancelled_waiting : TaskRow
cancelled_waiting = record waiting_item { status = TaskStatus.cancelled; completed_at = some 100 }

swept_four : swept_db.tasks 4 ≡ some cancelled_waiting
unfolding perform_bulk cancel_for_issue swept_db sweep
swept_four = refl
