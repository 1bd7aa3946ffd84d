-- ===== src/Loop/Agents.antt =====
-- Which agent a stage runs with (server/internal/loop/coordinator.go).
use agentra.Base.{ℕ, ◌≡◌, Option, none, some, Text, arith}
use agentra.Store.Rows.{TaskType, LoopRow, AgentRow}
use agentra.Store.Tx.{Db, ok}
use agentra.Loop.Coordinator.{ResolvedStageAgent, resolve_stage_agent}

module _ (parse_uuid : Text → Option ℕ) (l : LoopRow) (type : TaskType) (db db' : Db)
    (r : ResolvedStageAgent) (a : AgentRow) where
  -- A stage runs only with an agent that exists in the loop's own workspace, is not archived, and
  -- has the runtime that the stage is given; finding it changes nothing.
  pub resolve_stage_agent_sound :
      resolve_stage_agent parse_uuid l type db ≡ (ok r, db')
      → db.agents r.agent_id ≡ some a
      → (a.workspace_id ≡ l.workspace_id)
        × (a.archived_at ≡ none)
        × (a.runtime_id ≡ some r.runtime_id)
        × (db' ≡ db)
  unfolding resolve_stage_agent
  resolve_stage_agent_sound h ha = ground arith
