-- ===== src/System/Sound.antt =====
-- The invariant of the tables of agent_task_queue and task_runs.
use agentra.Base.{
  ℕ, ◌≤◌, ◌≡◌, Bool, true, false, not, ◌&&◌, List, [], ◌∷◌, Option, none, some, ◌==◌, leb, some_of,
  is_some,
}
use agentra.Store.Rows.{TaskRow, AgentRow}
use agentra.Store.Tx.{Db}
use agentra.Store.Tasks.{is_active}
use agentra.Store.Claims.{count_for}
use agentra.Lifecycle.Links.{Linked}

abbrev pub listed : ℕ → List ℕ → Bool
listed w ids = some_of (λ i. i == w) ids

-- Whether no identifier is listed twice.
unfoldable pub no_repeats : List ℕ → Bool
no_repeats [] = true
no_repeats (w ∷ ws) = not (listed w ws) && no_repeats ws

-- Two work items of one issue that are both dispatched or running.
abbrev pub clash : ℕ → ℕ → Option TaskRow → Option TaskRow → Bool
clash i j none u = false
clash i j (some t) none = false
clash i j (some t) (some u) =
    not (i == j) && ((t.issue_id == u.issue_id) && (is_active t.status && is_active u.status))

pub record Sound (db : Db) : Type 0 where
  pub linked : Linked db
  pub fresh : (i : ℕ) → leb db.next_id i ≡ true → (db.tasks i ≡ none) × (db.runs i ≡ none)
  pub all_listed : (i : ℕ) → listed i db.task_ids ≡ is_some (db.tasks i)
  pub once : no_repeats db.task_ids ≡ true
  pub serial : (i j : ℕ) → clash i j (db.tasks i) (db.tasks j) ≡ false
  pub within :
      (a : ℕ) (row : AgentRow)
      → db.agents a ≡ some row
      → count_for a db.tasks db.task_ids ≤ row.max_concurrent_tasks
