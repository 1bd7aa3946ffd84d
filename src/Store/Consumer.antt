-- ===== src/Store/Consumer.antt =====
-- Statements of the consumer engineering-loop of the outbox
-- (server/pkg/db/generated/lifecycle_outbox.sql.go).
use agentra.Base.{
  ℕ, ◌+◌, ◌*◌, ◌^◌, Bool, true, false, not, ◌&&◌, List, [], ◌∷◌, ◌++◌, Option, none, some,
  if◌then◌else◌, ◌==◌, opt_eq, some_of, leb, is_some,
}
use Prim.Native.Nat.{min}
use agentra.Store.Rows.{TaskType, TaskRow, EventType, EventRow, Delivery}
use agentra.Store.Tx.{Query, Tx, Db, ok, query, one_row, return}
use agentra.Store.Loops.{task_type_eq}

-- event_type IN ('run.completed', 'run.failed', 'work_item.rejected').
abbrev pub is_terminal : EventType → Bool
is_terminal EventType.run_completed = true
is_terminal EventType.run_failed = true
is_terminal EventType.work_item_rejected = true
is_terminal _ = false

abbrev pub received : List ℕ → ℕ → Bool
received receipts id = some_of (λ r. r == id) receipts

-- A delivery that failed before waits until its time, and for ever once dead-lettered.
abbrev due : Option Delivery → ℕ → Bool
due none now = true
due (some d) now = leb d.available_at now && not (is_some d.dead_lettered_at)

delivery_of : ℕ → List Delivery → Option Delivery
delivery_of id [] = none
delivery_of id (d ∷ ds) = if d.event_id == id then some d else delivery_of id ds

abbrev of_loop : Option TaskRow → Bool
of_loop none = false
of_loop (some t) = is_some t.loop_id

unfoldable pub claimable : Db → EventRow → Bool
unfolding delivery_of
claimable db e =
    is_terminal e.event_type
    && (of_loop (db.tasks e.work_item_id)
        && (not (received db.receipts e.id) && due (delivery_of e.id db.deliveries) db.now))

unfoldable pub first_claimable : Db → List EventRow → Option EventRow
unfolding claimable
first_claimable db [] = none
first_claimable db (e ∷ es) = if claimable db e then some e else first_claimable db es

-- Other workers' locks (SKIP LOCKED) are left out: there is one projector.
unfoldable pub claim_engineering_loop_lifecycle_event : Tx EventRow
unfolding first_claimable
claim_engineering_loop_lifecycle_event db =
    query Query.claim_loop_event (one_row (first_claimable db db.outbox)) db

-- ON CONFLICT DO NOTHING.
unfoldable pub record_engineering_loop_lifecycle_receipt : ℕ → Tx (Unit {0})
record_engineering_loop_lifecycle_receipt id db =
    query Query.record_receipt
      (λ d.
        ok
          (tt, if received d.receipts id then d else record d { receipts = d.receipts ++ id ∷ [] }))
      db

-- The back-off in milliseconds after so many attempts: 2 ^ attempts seconds, 300 at most.
abbrev pub backoff : ℕ → ℕ
backoff attempts = min 300 (2 ^ min attempts 8) * 1000

abbrev pub retried : ℕ → Delivery → Delivery
retried now d = record d {
  attempts = d.attempts + 1;
  available_at = now + backoff (d.attempts + 1);
  dead_lettered_at = if leb 20 (d.attempts + 1) then some now else none;
}

record_attempt : ℕ → ℕ → List Delivery → List Delivery
record_attempt id now [] =
    record { event_id = id; attempts = 1; available_at = now + 2000; dead_lettered_at = none } ∷ []
record_attempt id now (d ∷ ds) =
    if d.event_id == id then retried now d ∷ ds else d ∷ record_attempt id now ds

unfoldable pub record_engineering_loop_lifecycle_failure : ℕ → Tx (Unit {0})
unfolding record_attempt
record_engineering_loop_lifecycle_failure id db =
    query Query.record_failure
      (λ d. ok (tt, record d { deliveries = record_attempt id d.now d.deliveries })) db

abbrev pub pending_for : Db → ℕ → TaskType → EventRow → Option TaskRow → Bool
pending_for db loop_id type e none = false
pending_for db loop_id type e (some t) =
    opt_eq t.loop_id (some loop_id)
    && (task_type_eq t.task_type type
        && (is_terminal e.event_type && not (received db.receipts e.id)))

unfoldable pub has_pending_engineering_loop_lifecycle_event : ℕ → TaskType → Tx Bool
has_pending_engineering_loop_lifecycle_event loop_id type db =
    query Query.has_pending_event
      (return (some_of (λ e. pending_for db loop_id type e (db.tasks e.work_item_id)) db.outbox)) db
