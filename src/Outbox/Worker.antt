-- ===== src/Outbox/Worker.antt =====
-- ProcessNext, processClaimed and drain (server/internal/service/lifecycle_outbox.go). What is done
-- with an event is given by `project`: any code on the database that may fail.
use agentra.Base.{ℕ, zero, suc, Bool, true, false, Option, none, some, ◌==◌}
use agentra.Store.Rows.{EventRow}
use agentra.Store.Tx.{Db, Error, Result, ok, err, no_rows, unavailable, lease_lost}
use agentra.Store.Io.{Io, ◌>>=◌, ◌>>◌, run, check, throw}
use agentra.Store.Leases.{
  claim_lifecycle_outbox_event, mark_lifecycle_outbox_event_processed,
  release_lifecycle_outbox_event,
}

-- The lease is given back, and the error is the projection's unless that fails too.
unfoldable pub release_after : EventRow → Error → Io (Unit {0})
unfolding release_lifecycle_outbox_event
release_after event e = do run (release_lifecycle_outbox_event event.id event.lock_token); throw e

unfoldable pub acknowledge : EventRow → Io (Unit {0})
unfolding mark_lifecycle_outbox_event_processed
acknowledge event = do
  updated ← run (mark_lifecycle_outbox_event_processed event.id event.lock_token)
  check (updated == 1) lease_lost

unfoldable pub process_claimed : (EventRow → Io (Unit {0})) → EventRow → Io (Unit {0})
unfolding release_after acknowledge
process_claimed project event db =
    let r = project event db in
    elim r.0 [ ok u ↦ acknowledge event r.1 | err e ↦ release_after event e r.1 ]

abbrev pub found : Result EventRow × Db → (EventRow → Io (Unit {0})) → Result Bool × Db
found (ok event, db) project =
    let r = process_claimed project event db in
    elim r.0 [ ok u ↦ (ok true, r.1) | err e ↦ (err e, r.1) ]
found (err no_rows, db) project = (ok false, db)
found (err e, db) project = (err e, db)

-- Whether there was an event; `queries` says whether the worker has them.
unfoldable pub process_next : Bool → (EventRow → Io (Unit {0})) → Io Bool
unfolding claim_lifecycle_outbox_event process_claimed
process_next false project db = (err unavailable, db)
process_next true project db = found (run claim_lifecycle_outbox_event db) project

-- Rounds until there is no event or one fails; `none` when the rounds run out.
unfoldable pub drain : ℕ → (EventRow → Io (Unit {0})) → Db → Option (Result (Unit {0})) × Db
unfolding process_next
drain zero project db = (none, db)
drain (suc rounds) project db =
    let r = process_next true project db in
    elim r.0 [
      | ok true ↦ drain rounds project r.1
      | ok false ↦ (some (ok tt), r.1)
      | err e ↦ (some (err e), r.1)
    ]
