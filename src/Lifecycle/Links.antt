-- ===== src/Lifecycle/Links.antt =====
-- Agreement of the two ledgers: a work item and its run point at one another while the attempt is
-- active, with one status, and not otherwise.
use agentra.Base.{
  ℕ, ◌≡◌, Bool, true, false, not, ◌&&◌, ◌||◌, Option, none, some, arith, if◌then◌else◌, ◌==◌,
  opt_eq,
}
use agentra.Store.Rows.{TaskStatus, TaskRow, RunRow, status_eq}
use agentra.Store.Tx.{Db, put}
use agentra.Store.Tasks.{is_active}

abbrev run_agrees : Option RunRow → ℕ → TaskStatus → Bool
run_agrees none w status = false
run_agrees (some run) w status = (run.task_id == w) && status_eq run.status status

abbrev points_to_run : (ℕ → Option RunRow) → ℕ → TaskRow → Option ℕ → Bool
points_to_run runs w t none = not (is_active t.status)
points_to_run runs w t (some r) = is_active t.status && run_agrees (runs r) w t.status

abbrev pub task_linked : (ℕ → Option RunRow) → ℕ → Option TaskRow → Bool
task_linked runs w none = true
task_linked runs w (some t) = (t.id == w) && points_to_run runs w t t.active_run_id

abbrev task_agrees : Option TaskRow → ℕ → Bool
task_agrees none r = false
task_agrees (some t) r = opt_eq t.active_run_id (some r)

abbrev pub run_linked : (ℕ → Option TaskRow) → ℕ → Option RunRow → Bool
run_linked tasks r none = true
run_linked tasks r (some run) =
    (run.id == r) && (not (is_active run.status) || task_agrees (tasks run.task_id) r)

pub record Linked (db : Db) : Type 0 where
  pub task : (w : ℕ) → task_linked db.runs w (db.tasks w) ≡ true
  pub run : (r : ℕ) → run_linked db.tasks r (db.runs r) ≡ true

-- The new rows of an attempt agree: both active with one status, or both at rest.
abbrev pub attempt_agrees : ℕ → TaskRow → RunRow → Bool
attempt_agrees r t run =
    if is_active t.status
    then opt_eq t.active_run_id (some r) && status_eq run.status t.status
    else opt_eq t.active_run_id none && not (is_active run.status)

-- The rows of one attempt change together, and the others stay.
pub record Moves (w r : ℕ) (db db' : Db) : Type 0 where
  pub task : TaskRow
  pub run : RunRow
  pub task' : TaskRow
  pub run' : RunRow
  pub had_task : db.tasks w ≡ some task
  pub had_run : db.runs r ≡ some run
  pub was_active : task.active_run_id ≡ some r
  pub was_of : run.task_id ≡ w
  pub tasks_put : db'.tasks ≡ put w task' db.tasks
  pub runs_put : db'.runs ≡ put r run' db.runs
  pub same_task : task'.id ≡ task.id
  pub same_run : run'.id ≡ run.id
  pub same_owner : run'.task_id ≡ run.task_id
  pub agree : attempt_agrees r task' run' ≡ true

module _ (tasks : ℕ → Option TaskRow) (runs : ℕ → Option RunRow) (w0 r0 : ℕ) (t0 t' : TaskRow)
    (run0 run' : RunRow) (ht : tasks w0 ≡ some t0) (hr : runs r0 ≡ some run0)
    (act : t0.active_run_id ≡ some r0) (own : run0.task_id ≡ w0) (st : t'.id ≡ t0.id)
    (sr : run'.id ≡ run0.id) (so : run'.task_id ≡ run0.task_id)
    (agree : attempt_agrees r0 t' run' ≡ true) where
  put-task_linked :
      (w : ℕ)
      → task_linked runs w0 (tasks w0) ≡ true
      → task_linked runs w (tasks w) ≡ true
      → task_linked (put r0 run' runs) w (put w0 t' tasks w) ≡ true
  put-task_linked w h0 h = ground arith

  put-run_linked :
      (r : ℕ)
      → run_linked tasks r0 (runs r0) ≡ true
      → run_linked tasks r (runs r) ≡ true
      → run_linked (put w0 t' tasks) r (put r0 run' runs r) ≡ true
  put-run_linked r h0 h = ground arith

pub Moves-Linked : (w r : ℕ) (db db' : Db) → Moves w r db db' → Linked db → Linked db'
Moves-Linked w r db db' m h = record {
  task = λ j.
      rw (m.tasks_put, m.runs_put)
        (put-task_linked db.tasks db.runs w r m.task m.task' m.run m.run' m.had_task m.had_run
          m.was_active m.was_of m.same_task m.same_run m.same_owner m.agree j (h.task w)
          (h.task j));
  run = λ j.
      rw (m.tasks_put, m.runs_put)
        (put-run_linked db.tasks db.runs w r m.task m.task' m.run m.run' m.had_task m.had_run
          m.was_active m.was_of m.same_task m.same_run m.same_owner m.agree j (h.run r) (h.run j));
}

-- A work item with no attempt stays at rest, and no run is touched.
pub record Rests (w : ℕ) (db db' : Db) : Type 0 where
  pub task : TaskRow
  pub task' : TaskRow
  pub had_task : db.tasks w ≡ some task
  pub was_idle : task.active_run_id ≡ none
  pub tasks_put : db'.tasks ≡ put w task' db.tasks
  pub runs_same : db'.runs ≡ db.runs
  pub same_task : task'.id ≡ task.id
  pub idle : task'.active_run_id ≡ none
  pub at_rest : is_active task'.status ≡ false

module _ (tasks : ℕ → Option TaskRow) (runs : ℕ → Option RunRow) (w0 : ℕ) (t0 t' : TaskRow)
    (ht : tasks w0 ≡ some t0) (was : t0.active_run_id ≡ none) (st : t'.id ≡ t0.id)
    (idle : t'.active_run_id ≡ none) (rest : is_active t'.status ≡ false) where
  rest_task_linked :
      (w : ℕ)
      → task_linked runs w0 (tasks w0) ≡ true
      → task_linked runs w (tasks w) ≡ true
      → task_linked runs w (put w0 t' tasks w) ≡ true
  rest_task_linked w h0 h = ground arith

  rest_run_linked :
      (r : ℕ) → run_linked tasks r (runs r) ≡ true → run_linked (put w0 t' tasks) r (runs r) ≡ true
  rest_run_linked r h = ground arith

pub Rests-Linked : (w : ℕ) (db db' : Db) → Rests w db db' → Linked db → Linked db'
Rests-Linked w db db' m h = record {
  task = λ j.
      rw (m.tasks_put, m.runs_same)
        (rest_task_linked db.tasks db.runs w m.task m.task' m.had_task m.was_idle m.same_task m.idle
          m.at_rest j (h.task w) (h.task j));
  run = λ j.
      rw (m.tasks_put, m.runs_same)
        (rest_run_linked db.tasks db.runs w m.task m.task' m.had_task m.was_idle m.same_task m.idle
          m.at_rest j (h.run j));
}
