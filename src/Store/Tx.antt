-- ===== src/Store/Tx.antt =====
-- A database as the statements see it, and a transaction on it. A statement fails when the
-- database refuses it (`fails`), whatever the cause: a lost connection, a cancelled context or a
-- lock timeout; so does the beginning or the commit of a transaction.
use agentra.Base.{arith, ◌≡◌, ℕ, Bool, true, false, List, Option, none, some, if◌then◌else◌, ◌==◌}
use agentra.Store.Rows.{TaskRow, RunRow, EventRow, Delivery, LoopRow, AgentRow, RuntimeRow}

-- The statements, by the names of the generated functions.
pub data Query : Type 0 where
  begin commit get_agent_task get_agent_task_for_update get_task_run get_task_run_for_update
        get_active_task_run get_latest_task_run set_task_run_running set_agent_task_running
        checkpoint_task_run checkpoint_agent_task complete_task_run complete_agent_task
        fail_agent_task retry_agent_task cancel_agent_task append_event cancel_by_issue
        cancel_by_agent fail_stale fail_offline recover_runtime get_agent create_agent_task get_loop
        get_loop_for_update update_loop_status set_loop_pr create_loop load_active_loops
        has_in_flight has_pending_event claim_loop_event record_receipt record_failure claim_event
        mark_processed release_event get_agent_runtime count_running claim_task_run
        claim_task_run_by_id list_pending reject_queued get_issue create_task_message :
      Query

pub data Error : Type 0 where
  no_rows stale_run unavailable check_violation invalid_configuration not_pending loop_not_found
        unsupported_version no_run_id wrong_run unsupported_event lease_lost no_assignee
        agent_archived no_runtime no_adapter_contract unique_violation :
      Error
  db_error : Query → Error

pub data Result {ℓ} (A : Type ℓ) : Type ℓ where
  ok : A → Result A
  err : Error → Result A

-- `task_ids`, `run_ids` and `loop_ids` list the rows in the order of their creation, and
-- `receipts` the events that the consumer engineering-loop has finished.
pub record Db : Type 0 where
  pub tasks : ℕ → Option TaskRow
  pub task_ids : List ℕ
  pub runs : ℕ → Option RunRow
  pub run_ids : List ℕ
  pub outbox : List EventRow
  pub receipts : List ℕ
  pub deliveries : List Delivery
  pub loops : ℕ → Option LoopRow
  pub loop_ids : List ℕ
  pub agents : ℕ → Option AgentRow
  pub runtimes : ℕ → Option RuntimeRow
  pub runtime_offline : ℕ → Bool
  pub now : ℕ
  pub next_id : ℕ
  pub fails : Query → Bool

abbrev pub Tx {ℓ} : Type ℓ → Type ℓ
Tx A = Db → Result (A × Db)

infixl 5 ◌>>=◌ ◌>>◌
abbrev pub ◌>>=◌ {ℓ κ} : {A : Type ℓ} {B : Type κ} → Tx A → (A → Tx B) → Tx B
◌>>=◌ m f db = elim (m db) [ ok (a, db') ↦ f a db' | err e ↦ err e ]

abbrev pub ◌>>◌ {ℓ κ} : {A : Type ℓ} {B : Type κ} → Tx A → Tx B → Tx B
m >> k = m >>= λ _. k

abbrev pub return {ℓ} : {A : Type ℓ} → A → Tx A
return a db = ok (a, db)

abbrev pub throw {ℓ} : {A : Type ℓ} → Error → Tx A
throw e db = err e

abbrev pub check : Bool → Error → Tx (Unit {0})
check true e db = ok (tt, db)
check false e db = err e

-- Any failure of the statement is reported as the given error.
abbrev pub or_error {ℓ} : {A : Type ℓ} → Tx A → Error → Tx A
or_error m e db = elim (m db) [ ok r ↦ ok r | err _ ↦ err e ]

-- A statement, unless the database refuses it.
abbrev pub query {ℓ} : {A : Type ℓ} → Query → Tx A → Tx A
query q m db = elim (db.fails q) [ true ↦ err (db_error q) | false ↦ m db ]

-- SELECT … WHERE id = $1, with one row expected.
abbrev pub one_row {ℓ} : {A : Type ℓ} → Option A → Tx A
one_row none db = err no_rows
one_row (some a) db = ok (a, db)

-- A table with the row at a key replaced.
abbrev pub put {ℓ} : {A : Type ℓ} → ℕ → A → (ℕ → Option A) → ℕ → Option A
put k v table j = if j == k then some v else table j

-- starter.Begin, the body, and Commit; any error leaves the database as it was (the deferred
-- Rollback).
unfoldable pub transaction {ℓ} : {A : Type ℓ} → Tx A → Db → Result A × Db
transaction m db = if db.fails begin then (err (db_error begin), db) else elim (m db) [
  | ok (a, db') ↦ if db'.fails commit then (err (db_error commit), db) else (ok a, db')
  | err e ↦ (err e, db)
]

-- One statement outside a transaction: PostgreSQL applies it whole or not at all.
unfoldable pub statement {ℓ} : {A : Type ℓ} → Tx A → Db → Result A × Db
statement m db = elim (m db) [ ok (a, db') ↦ (ok a, db') | err e ↦ (err e, db) ]

-- A statement that succeeds did what it is to do.
pub answered_query {ℓ} :
    {A : Type ℓ} (q : Query) (m : Tx A) (db : Db) (r : A × Db) → query q m db ≡ ok r → m db ≡ ok r
answered_query q m db r h = ground arith
