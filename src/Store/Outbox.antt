-- ===== src/Store/Outbox.antt =====
-- Statements on lifecycle_outbox (server/pkg/db/generated/lifecycle_outbox.sql.go).
use agentra.Base.{ℕ, ◌+◌, [], ◌∷◌, ◌++◌, Option, none}
use agentra.Store.Rows.{TaskStatus, EventType, EventRow}
use agentra.Store.Tx.{Query, Tx, ok, query}

-- The row that an append inserts, with the defaults of its columns.
abbrev pub new_event : ℕ → ℕ → ℕ → Option ℕ → EventType → TaskStatus → EventRow
new_event id now work_item_id run_id event_type payload = record {
  id = id;
  work_item_id = work_item_id;
  run_id = run_id;
  event_type = event_type;
  event_version = 1;
  payload = payload;
  available_at = now;
  locked_at = none;
  lock_token = none;
  processed_at = none;
  dead_lettered_at = none;
  attempts = 0;
}

unfoldable pub append_lifecycle_outbox_event : ℕ → Option ℕ → EventType → TaskStatus → Tx EventRow
append_lifecycle_outbox_event work_item_id run_id event_type payload =
    query Query.append_event (λ db.
      let event = new_event db.next_id db.now work_item_id run_id event_type payload in
      ok (event, record db { outbox = db.outbox ++ event ∷ []; next_id = db.next_id + 1 }))
