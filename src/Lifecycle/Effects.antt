-- ===== src/Lifecycle/Effects.antt =====
-- The effect of a successful callback, the same for all five: the rows of one attempt and one event.
use agentra.Base.{ℕ, ◌≡◌, refl, sym, ◌∙◌, true, List, Option, none, some, arith}
use agentra.Store.Rows.{TaskStatus, TaskRow, RunRow}
use agentra.Store.Tx.{Tx, Db, Result, ok}
use agentra.Lifecycle.Guards.{RunLifecycle, RunRef, locked_run, with_locked_run, contains_status}
use agentra.Lifecycle.Calls.{
  Callback, starts, checkpoints, completes, fails_with, retries, perform, perform_lem, answer_of,
  allowed_of, body_of, event_of,
}
use agentra.Lifecycle.Moves.{
  Entered, entered, written, start_body-written, checkpoint_body-written, complete_body-written,
  fail_body-written, retry_body-written, started_run, closed_run,
}
use agentra.Lifecycle.Transitions.{text_or_null, elapsed}
use agentra.Lifecycle.Phases.{at_most_one}
use agentra.Lifecycle.Links.{attempt_agrees}

-- What a body writes: the run of the attempt in step with its work item.
pub record Wrote (call : Callback) (w r : ℕ) (task : TaskRow) (run : RunRow) (db db' : Db)
    (t : TaskRow) : Type 0 where
  pub run' : RunRow
  pub same_task : t.id ≡ task.id
  pub same_run : run'.id ≡ run.id
  pub same_owner : run'.task_id ≡ run.task_id
  pub same_issue : t.issue_id ≡ task.issue_id
  pub same_agent : t.agent_id ≡ task.agent_id
  pub agree : attempt_agrees r t run' ≡ true
  pub moved : at_most_one task.status t.status ≡ true
  pub all : db' ≡ written w t r run' (event_of call) db

module _ (w r : ℕ) (task : TaskRow) (run : RunRow) (t : TaskRow) (db db' : Db)
    (ht : db.tasks w ≡ some task) (hr : db.runs r ≡ some run) (act : task.active_run_id ≡ some r)
    (same : task.status ≡ run.status) where
  wrote :
      (call : Callback)
      → contains_status (allowed_of call) task.status ≡ true
      → body_of call w r task run db ≡ ok (t, db')
      → Wrote call w r task run db db' t
  wrote starts s h =
      let (et, ed) = start_body-written w r task run t db db' ht hr h in
      record {
        run' = started_run db run;
        same_task = ground arith;
        same_run = refl;
        same_owner = refl;
        same_issue = ground arith;
        same_agent = ground arith;
        agree = ground arith;
        moved = ground arith;
        all = ground arith;
      }
  wrote (checkpoints sid d) s h =
      let (et, ed) = checkpoint_body-written w r task run t db db' ht hr sid d h in
      record {
        run' = record run { session_id = text_or_null sid; work_dir = text_or_null d };
        same_task = ground arith;
        same_run = refl;
        same_owner = refl;
        same_issue = ground arith;
        same_agent = ground arith;
        agree = ground arith;
        moved = ground arith;
        all = ground arith;
      }
  wrote (fails_with m) s h =
      let (et, ed) = fail_body-written w r task run t db db' ht hr m h in
      record {
        run' = closed_run db TaskStatus.failed (some (elapsed run db.now)) (text_or_null m) run;
        same_task = ground arith;
        same_run = refl;
        same_owner = refl;
        same_issue = ground arith;
        same_agent = ground arith;
        agree = ground arith;
        moved = ground arith;
        all = ed;
      }
  wrote (retries m) s h =
      let (et, _, ed) = retry_body-written w r task run t db db' ht hr m h in
      record {
        run' = closed_run db TaskStatus.failed none (text_or_null m) run;
        same_task = ground arith;
        same_run = refl;
        same_owner = refl;
        same_issue = ground arith;
        same_agent = ground arith;
        agree = ground arith;
        moved = ground arith;
        all = ed;
      }
  wrote (completes c) s h =
      let (et, run', same_id, same_of, done, _, ed) =
        complete_body-written w r task run t db db' ht hr c h in
      record {
        run' = run';
        same_task = ground arith;
        same_run = same_id;
        same_owner = same_of;
        same_issue = ground arith;
        same_agent = ground arith;
        agree = ground arith;
        moved = ground arith;
        all = ed;
      }

-- The callback ran for the attempt `r` of the work item `w`.
pub record Performed (ref : RunRef) (call : Callback) (db db' : Db) (t : TaskRow) : Type 0 where
  pub w : ℕ
  pub r : ℕ
  pub of_item : ref.work_item_id ≡ some w
  pub of_run : ref.run_id ≡ some r
  pub before : Entered w r (allowed_of call) (allowed_of call) (body_of call) db db' t
  pub wrote : Wrote call w r before.task before.run db db' t

unanswer :
    (call : Callback) (p : Result TaskRow × Db) (db' : Db) (t : TaskRow)
    → answer_of call p ≡ (ok (some t), db')
    → p ≡ (ok t, db')
unanswer starts p db' t h = ground arith
unanswer (retries m) p db' t h = ground arith
unanswer _ p db' t h = ground arith

with_locked-locked :
    (l : RunLifecycle) (ref : RunRef) (ts rs : List TaskStatus)
    (body : ℕ → ℕ → TaskRow → RunRow → Tx TaskRow) (db db' : Db) (t : TaskRow)
    → with_locked_run l ref ts rs body db ≡ (ok t, db')
    → locked_run ref.work_item_id ref.run_id ts rs body db ≡ (ok t, db')
unfolding with_locked_run
with_locked-locked l ref ts rs body db db' t h = ground arith

located :
    (w r : Option ℕ) (ts rs : List TaskStatus) (body : ℕ → ℕ → TaskRow → RunRow → Tx TaskRow)
    (db db' : Db) (t : TaskRow)
    → locked_run w r ts rs body db ≡ (ok t, db')
    → (i : ℕ) × (j : ℕ) × (w ≡ some i)
      × (r ≡ some j)
      × (locked_run (some i) (some j) ts rs body db ≡ (ok t, db'))
unfolding locked_run
located none r ts rs body db db' t h = cc
located (some w) none ts rs body db db' t h = cc
located (some w) (some r) ts rs body db db' t h = (w, r, refl, refl, h)

pub performed :
    (l : RunLifecycle) (ref : RunRef) (call : Callback) (db db' : Db) (t : TaskRow)
    → perform l ref call db ≡ (ok (some t), db')
    → Performed ref call db db' t
performed l ref call db db' t h =
    let ran = unanswer call _ db' t (sym (perform_lem l ref call db) ∙ h) in
    let (w, r, ew, er, inside) =
      located ref.work_item_id ref.run_id _ _ _ db db' t
        (with_locked-locked l ref _ _ _ db db' t ran) in
    let before = entered w r (allowed_of call) (allowed_of call) (body_of call) db db' t inside in
    record {
      w = w;
      r = r;
      of_item = ew;
      of_run = er;
      before = before;
      wrote =
          wrote w r before.task before.run t db db' before.had_task before.had_run before.was_active
            before.one_status call before.allowed before.ran;
    }
