-- ===== src/Loop/Operators.antt =====
-- What an operator's request does to a loop (server/internal/handler/loop.go).
use agentra.Base.{ℕ, ◌≡◌, false, none, some, arith, if◌then◌else◌, ◌==◌}
use agentra.Store.Rows.{LoopStatus, LoopRow}
use agentra.Store.Tx.{Query, Db, put}
use agentra.Loop.Handler.{not_found, updated, transition_loop_status}

-- The row after a request: only the status changes, and what the loop ended with is forgotten.
abbrev pub moved : LoopStatus → LoopRow → LoopRow
moved target l = record l { status = target; failure_reason = none; completed_at = none }

-- With a database that answers, a request about a stored loop of another workspace is answered as
-- for a missing loop and changes nothing; for a loop of the workspace it sets the status, whatever
-- the status was, and clears the failure reason and the completion time.
pub transition_loop_status_lem :
    (workspace user id : ℕ) (target : LoopStatus) (l : LoopRow) (db : Db)
    → ((q : Query) → db.fails q ≡ false)
    → db.loops id ≡ some l
    → transition_loop_status (some workspace) (some user) id target db ≡ (
        if l.workspace_id == workspace
        then (updated (moved target l), record db { loops = put id (moved target l) db.loops })
        else (not_found, db))
unfolding transition_loop_status
transition_loop_status_lem workspace user id target l db nf hl =
    ground (arith, nf Query.get_loop, nf Query.update_loop_status)
