-- ===== src/Loop/Starting.antt =====
-- Starting a loop (server/internal/loop/coordinator.go).
use agentra.Base.{ℕ, ◌≡◌, ◌≢◌, false, Option, some, Text, arith}
use agentra.Store.Rows.{LoopStatus, LoopRow}
use agentra.Store.Tx.{Query, Db, Error, err, not_pending}
use agentra.Store.Io.{Io, atomically}
use agentra.Loop.Coordinator.{start_loop, start_locked}

atomically_lem :
    {A : Type 0} (m : Io A) (db : Db) (e : Error)
    → (atomically m db).0 ≡ err e
    → (atomically m db).1 ≡ db
unfolding atomically
atomically_lem m db e h = ground arith

-- A start that fails changes nothing: no work item is left behind, and the loop stays as it was.
pub start_loop_atomic :
    (parse_uuid : Text → Option ℕ) (id : ℕ) (db : Db) (e : Error)
    → (start_loop parse_uuid id db).0 ≡ err e
    → (start_loop parse_uuid id db).1 ≡ db
unfolding start_loop start_locked
start_loop_atomic parse_uuid id db e h = atomically_lem (start_locked parse_uuid id) db e h

-- With a database that answers, a stored loop that is not pending is not started, and nothing changes.
pub start_loop_refuses :
    (parse_uuid : Text → Option ℕ) (id : ℕ) (db : Db) (l : LoopRow)
    → ((q : Query) → db.fails q ≡ false)
    → db.loops id ≡ some l
    → l.status ≢ LoopStatus.pending
    → start_loop parse_uuid id db ≡ (err not_pending, db)
unfolding start_loop
start_loop_refuses parse_uuid id db l nf hl np =
    ground (arith, nf Query.begin, nf Query.get_loop_for_update)
