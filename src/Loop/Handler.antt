-- ===== src/Loop/Handler.antt =====
-- The operator's transitions (server/internal/handler/loop.go): PauseLoop, ResumeLoop, CancelLoop.
use agentra.Base.{ℕ, true, false, Option, none, some, ◌==◌}
use agentra.Store.Rows.{LoopStatus, LoopRow}
use agentra.Store.Tx.{Db, ok, err, no_rows, loop_not_found}
use agentra.Store.Io.{Io}
use agentra.Store.Loops
use agentra.Loop.Coordinator.{update_status}

-- GetLoop of store.go: a missing row is ErrLoopNotFound.
unfoldable pub get_loop : ℕ → Io LoopRow
unfolding Loops.get_loop
get_loop id db = elim (Loops.get_loop id db) [
  | ok (l, db') ↦ (ok l, db')
  | err e ↦ elim e [ no_rows ↦ (err loop_not_found, db) | other ↦ (err other, db) ]
]

pub data Response : Type 0 where
  bad_request unauthorized not_found server_error : Response
  updated : LoopRow → Response

abbrev write_update : LoopRow → LoopStatus → ℕ → Db → Response × Db
write_update existing target id db =
    let r =
      update_status id
        (record {
          status = some target;
          current_stage = existing.current_stage;
          iteration = some existing.iteration;
          failure_reason = none;
          started_at = none;
          completed_at = none;
        })
        db in
    elim r.0 [ ok l ↦ (updated l, r.1) | err e ↦ (server_error, r.1) ]

in_workspace : ℕ → ℕ → LoopStatus → Db → Response × Db
unfolding get_loop update_status
in_workspace workspace id target db =
    let r = get_loop id db in
    elim r.0 [
      | ok existing ↦ elim (existing.workspace_id == workspace) [
        | true ↦ write_update existing target id r.1
        | false ↦ (not_found, r.1)
      ]
      | err e ↦ elim e [ loop_not_found ↦ (not_found, r.1) | other ↦ (server_error, r.1) ]
    ]

-- The request names a workspace and a user; the path names the loop.
unfoldable pub transition_loop_status : Option ℕ → Option ℕ → ℕ → LoopStatus → Db → Response × Db
unfolding in_workspace
transition_loop_status none user id target db = (bad_request, db)
transition_loop_status (some workspace) none id target db = (unauthorized, db)
transition_loop_status (some workspace) (some user) id target db =
    in_workspace workspace id target db

unfoldable pub pause_loop : Option ℕ → Option ℕ → ℕ → Db → Response × Db
unfolding transition_loop_status
pause_loop workspace user id = transition_loop_status workspace user id LoopStatus.paused

unfoldable pub resume_loop : Option ℕ → Option ℕ → ℕ → Db → Response × Db
unfolding transition_loop_status
resume_loop workspace user id = transition_loop_status workspace user id LoopStatus.running

unfoldable pub cancel_loop : Option ℕ → Option ℕ → ℕ → Db → Response × Db
unfolding transition_loop_status
cancel_loop workspace user id = transition_loop_status workspace user id LoopStatus.cancelled
