-- ===== src/System/Callbacks.antt =====
-- The callbacks of an attempt keep the invariant, whatever they
-- answer.
use agentra.Base.{
  Bool-cases, ==_iff, ==_refl, ◌==◌, ℕ, ◌≡◌, refl, sym, subst, ◌∙◌, true, not, ◌||◌, Option, none,
  some, arith, inl, inr, is_some,
}
use agentra.Store.Rows.{TaskRow, RunRow, EventType}
use agentra.Store.Tx.{Db, Result, Error, ok, err, no_rows, put}
use agentra.Store.Tasks.{is_active}
use agentra.Lifecycle.Guards.{RunLifecycle, RunRef}
use agentra.Lifecycle.Calls.{Callback, starts, retries, perform, perform_lem, answer_of, event_of}
use agentra.Lifecycle.Effects.{performed}
use agentra.Lifecycle.Agreement.{perform-Linked}
use agentra.Lifecycle.Atomic.{perform_atomic, with_locked_run_atomic}
use agentra.Lifecycle.Moves.{written}
use agentra.Lifecycle.Phases.{Life, stays, phase, at_most_one, at_most_one-Life}
use agentra.Lifecycle.Links.{task_linked}
use agentra.System.Sound.{Sound}
use agentra.System.Quiet.{Quiet, Evolves, Evolves-refl, follows, Quiet-Evolves}

module _ (w : ℕ) (t task : TaskRow) (tasks : ℕ → Option TaskRow) (ht : tasks w ≡ some task)
    (issue : t.issue_id ≡ task.issue_id) (agent : t.agent_id ≡ task.agent_id)
    (live : (not (is_active t.status) || is_active task.status) ≡ true) where
  pub put-follows : (j : ℕ) → follows (tasks j) (put w t tasks j) ≡ true
  put-follows j = ground arith

pub put-Life :
    (w j : ℕ) (t task : TaskRow) (tasks : ℕ → Option TaskRow)
    → tasks w ≡ some task
    → at_most_one task.status t.status ≡ true
    → Life (phase (tasks j)) (phase (put w t tasks j))
put-Life w j t task tasks ht m = elim (Bool-cases (j == w)) [
  | inl e ↦ rw ((==_iff j w).0 e, ==_refl w, ht) (at_most_one-Life task.status t.status m)
  | inr n ↦ rw n (stays (phase (tasks j)))
]

pub put_stored {ℓ} :
    {A : Type ℓ} (r j : ℕ) (old new : A) (table : ℕ → Option A)
    → table r ≡ some old
    → is_some (put r new table j) ≡ is_some (table j)
put_stored r j old new table h = ground arith

-- The rows of one attempt change, and one event is appended.
pub written-Quiet :
    (w r : ℕ) (t task : TaskRow) (run run' : RunRow) (event : EventType) (db : Db)
    → db.tasks w ≡ some task
    → db.runs r ≡ some run
    → t.issue_id ≡ task.issue_id
    → t.agent_id ≡ task.agent_id
    → (not (is_active t.status) || is_active task.status) ≡ true
    → at_most_one task.status t.status ≡ true
    → Quiet db (written w t r run' event db)
written-Quiet w r t task run run' event db ht hr issue agent live m = record {
  same_ids = refl;
  same_agents = refl;
  next = ground arith;
  tasks = put-follows w t task db.tasks ht issue agent live;
  life = λ j. put-Life w j t task db.tasks ht m;
  runs = λ j. put_stored r j run run' db.runs hr;
}

active_lives :
    (w r : ℕ) (t task : TaskRow) (db : Db)
    → task_linked db.runs w (db.tasks w) ≡ true
    → db.tasks w ≡ some task
    → task.active_run_id ≡ some r
    → (not (is_active t.status) || is_active task.status) ≡ true
active_lives w r t task db v ht act = ground arith

declined :
    (call : Callback) (r : Result TaskRow × Db) (db db' : Db)
    → ((e : Error) → r.0 ≡ err e → r.1 ≡ db)
    → answer_of call r ≡ (ok none, db')
    → db' ≡ db
declined starts r db db' same h = ground (arith, same no_rows)
declined (retries m) r db db' same h = ground (arith, same no_rows)
declined _ r db db' same h = ground (arith, same no_rows)

pub after_result {ℓ} :
    {A : Type ℓ} (p : Result A × Db) (db : Db)
    → ((a : A) (db' : Db) → p ≡ (ok a, db') → Evolves db db')
    → ((e : Error) → p.0 ≡ err e → p.1 ≡ db)
    → Sound db
    → Evolves db p.1
after_result (ok a, d) db f g s = f a d refl
after_result (err e, d) db f g s = subst (Evolves db) (sym (g e refl)) (Evolves-refl db s)

module _ (l : RunLifecycle) (ref : RunRef) (call : Callback) (db : Db) (s : Sound db) where
  performed-Evolves :
      (db' : Db) (t : TaskRow) → perform l ref call db ≡ (ok (some t), db') → Evolves db db'
  performed-Evolves db' t h =
      let p = performed l ref call db db' t h in
      let live =
        active_lives p.w p.r t p.before.task db (s.linked.task p.w) p.before.had_task
          p.before.was_active in
      let quiet =
        written-Quiet p.w p.r t p.before.task p.before.run p.wrote.run' (event_of call) db
          p.before.had_task p.before.had_run p.wrote.same_issue p.wrote.same_agent live
          p.wrote.moved in
      Quiet-Evolves db db' (subst (Quiet db) (sym p.wrote.all) quiet)
        (perform-Linked l ref call db db' t h s.linked) s

  answered-Evolves :
      (o : Option TaskRow) (db' : Db) → perform l ref call db ≡ (ok o, db') → Evolves db db'
  answered-Evolves (some t) db' h = performed-Evolves db' t h
  answered-Evolves none db' h =
      subst (Evolves db)
        (sym (
          declined call _ db db' (with_locked_run_atomic _ _ _ db l ref)
            (sym (perform_lem l ref call db) ∙ h)))
        (Evolves-refl db s)

  -- A callback keeps the invariant, whatever it answers.
  pub perform-Evolves : Evolves db (perform l ref call db).1
  perform-Evolves =
      after_result (perform l ref call db) db answered-Evolves (perform_atomic l ref call db) s
