-- ===== src/Outbox/Steps.antt =====
-- The outbox under several workers, with other code running in between: every statement on it is a
-- step, and the worker that runs one need not be the one that ran the last.
use agentra.Base.{ℕ, ◌+◌, ◌≤◌, ◌≡◌, [], ◌∷◌, ◌++◌, Option, arith}
use agentra.Store.Rows.{TaskStatus, EventType, EventRow}
use agentra.Store.Tx.{Db, ok}
use agentra.Store.Outbox.{append_lifecycle_outbox_event, new_event}
use agentra.Store.Leases.{
  claim_lifecycle_outbox_event, mark_lifecycle_outbox_event_processed,
  release_lifecycle_outbox_event,
}

pub data Step : Db → Db → Type 0 where
  claims :
      (x : EventRow) (db db' : Db) → claim_lifecycle_outbox_event db ≡ ok (x, db') → Step db db'
  marks :
      (id : ℕ) (token : Option ℕ) (n : ℕ) (db db' : Db)
      → mark_lifecycle_outbox_event_processed id token db ≡ ok (n, db')
      → Step db db'
  releases :
      (id : ℕ) (token : Option ℕ) (n : ℕ) (db db' : Db)
      → release_lifecycle_outbox_event id token db ≡ ok (n, db')
      → Step db db'
  appends :
      (w : ℕ) (r : Option ℕ) (event : EventType) (s : TaskStatus) (e : EventRow) (db db' : Db)
      → append_lifecycle_outbox_event w r event s db ≡ ok (e, db')
      → Step db db'
  elsewhere : (db db' : Db) → db'.outbox ≡ db.outbox → db.next_id ≤ db'.next_id → Step db db'

pub data Reach (db : Db) : Db → Type 0 where
  here : Reach db db
  then : (mid db' : Db) → Reach db mid → Step mid db' → Reach db db'

pub append_lem :
    (w : ℕ) (r : Option ℕ) (event : EventType) (s : TaskStatus) (e : EventRow) (db db' : Db)
    → append_lifecycle_outbox_event w r event s db ≡ ok (e, db')
    → db' ≡ record db {
      outbox = db.outbox ++ new_event db.next_id db.now w r event s ∷ [];
      next_id = db.next_id + 1;
    }
unfolding append_lifecycle_outbox_event
append_lem w r event s e db db' h = ground arith
