-- ===== src/Store/Runs.antt =====
-- Statements on task_runs (server/pkg/db/generated/traces.sql.go).
use agentra.Base.{ℕ, Bool, true, ◌&&◌, List, [], ◌∷◌, Option, none, some, Text, if◌then◌else◌, ◌==◌}
use agentra.Store.Rows.{TaskStatus, RunRow, status_eq}
use agentra.Store.Tx.{Query, Tx, Db, ok, err, no_rows, query, one_row, put}

-- UPDATE task_runs SET … WHERE id = $1 AND … RETURNING *.
pub update_run : Query → ℕ → (RunRow → Bool) → (Db → RunRow → RunRow) → Tx RunRow
update_run q id guard change db =
    query q
      (λ db. elim (db.runs id) [
        | none ↦ err no_rows
        | some r ↦
            if guard r
            then ok (change db r, record db { runs = put id (change db r) db.runs })
            else err no_rows
      ])
      db

unfoldable pub get_task_run : ℕ → Tx RunRow
get_task_run id db = query Query.get_task_run (one_row (db.runs id)) db

unfoldable pub get_task_run_for_update : ℕ → Tx RunRow
get_task_run_for_update id db = query Query.get_task_run_for_update (one_row (db.runs id)) db

-- The newest run of a task: the last one created, as `run_ids` lists them.
unfoldable pub latest_of : (ℕ → Option RunRow) → ℕ → List ℕ → Option RunRow → Option RunRow
latest_of runs task_id [] found = found
latest_of runs task_id (i ∷ is) found =
    latest_of runs task_id is
      (elim (runs i) [ none ↦ found | some r ↦ if r.task_id == task_id then some r else found ])

unfoldable pub get_latest_task_run : ℕ → Tx RunRow
unfolding latest_of
get_latest_task_run task_id db =
    query Query.get_latest_task_run (one_row (latest_of db.runs task_id db.run_ids none)) db

unfoldable pub set_task_run_running : ℕ → ℕ → Tx RunRow
unfolding update_run
set_task_run_running id task_id =
    update_run Query.set_task_run_running id
      (λ r. (r.task_id == task_id) && status_eq r.status TaskStatus.dispatched)
      (λ db r. record r { status = TaskStatus.running; started_at = some db.now })

unfoldable pub checkpoint_task_run : ℕ → Option Text → Option Text → Tx RunRow
unfolding update_run
checkpoint_task_run id session directory =
    update_run Query.checkpoint_task_run id (λ r. status_eq r.status TaskStatus.running)
      (λ db r. record r { session_id = session; work_dir = directory })

pub record CompleteTaskRunParams : Type 0 where
  pub status : TaskStatus
  pub duration_ms : Option ℕ
  pub exit_code : Option ℕ
  pub total_steps : Option ℕ
  pub total_tokens : Option ℕ
  pub total_cost : Option ℕ
  pub output : Option Text
  pub error : Option Text
  pub session_id : Option Text
  pub work_dir : Option Text

unfoldable pub complete_task_run : ℕ → CompleteTaskRunParams → Tx RunRow
unfolding update_run
complete_task_run id p =
    update_run Query.complete_task_run id (λ r. true)
      (λ db r. record r {
        status = p.status;
        completed_at = some db.now;
        duration_ms = p.duration_ms;
        exit_code = p.exit_code;
        total_steps = p.total_steps;
        total_tokens = p.total_tokens;
        total_cost = p.total_cost;
        output = p.output;
        error = p.error;
        session_id = p.session_id;
        work_dir = p.work_dir;
      })
