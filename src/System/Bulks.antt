-- ===== src/System/Bulks.antt =====
-- The bulk transitions keep the invariant, and so does the recovery of a runtime's work items.
use agentra.Base.{
  ℕ, ◌≤◌, ◌≡◌, refl, sym, subst, Bool, true, false, List, [], ◌∷◌, Option, none, some, Text, arith,
  Option-cases, Bool-cases, inl, inr, is_some,
}
use agentra.Store.Rows.{TaskStatus, TaskRow, RunRow}
use agentra.Store.Tx.{Db, Error, err, put}
use agentra.Store.Tasks.{is_active}
use agentra.Lifecycle.Bulk.{
  Sweep, swept, sweep_one, sweep, close_active, cancelling, failing, recovering, is_stale,
  is_orphan,
}
use agentra.Lifecycle.Phases.{at_most_one}
use agentra.Lifecycle.Bulk.{recover_tasks_for_runtime}
use agentra.Lifecycle.Guards.{RunLifecycle}
use agentra.Lifecycle.Sweeps.{
  BulkCall, for_issue, for_agent, stale_after, offline, sweep_of, perform_bulk, perform_bulk-swept,
  perform_bulk-Linked,
}
use agentra.Lifecycle.Recovery.{recover-swept, recover-Linked, recover_atomic}
use agentra.System.Sound.{Sound}
use agentra.System.Quiet.{Quiet, Evolves, Quiet-refl, Quiet-trans, Quiet-Evolves}
use agentra.System.Callbacks.{after_result, put-Life, put-follows}

-- A sweep whose work items keep their issue and agent and rest afterwards.
pub record Ending (s : Sweep) : Type 0 where
  pub issue : (t : TaskRow) → (s.change_task t).issue_id ≡ t.issue_id
  pub agent : (t : TaskRow) → (s.change_task t).agent_id ≡ t.agent_id
  pub life :
      (t : TaskRow) → s.target t ≡ true → at_most_one t.status (s.change_task t).status ≡ true
  pub rests : (t : TaskRow) → is_active (s.change_task t).status ≡ false

closed_stored :
    (s : Sweep) (o : Option ℕ) (runs : ℕ → Option RunRow) (j : ℕ)
    → is_some (close_active s o runs j) ≡ is_some (runs j)
closed_stored s none runs j = refl
closed_stored s (some r) runs j = ground arith

module _ (s : Sweep) (w : ℕ) (t : TaskRow) (db : Db) where
  swept_same : ((swept s w t db).task_ids ≡ db.task_ids) × ((swept s w t db).agents ≡ db.agents)
  swept_same = (ground arith, ground arith)

  swept_next : db.next_id ≤ (swept s w t db).next_id
  swept_next = ground arith

  swept_rows :
      ((swept s w t db).tasks ≡ put w (s.change_task t) db.tasks)
      × ((swept s w t db).runs ≡ close_active s (s.run_of t) db.runs)
  swept_rows = (ground arith, ground arith)

module _ (s : Sweep) (e : Ending s) where
  swept-Quiet :
      (w : ℕ) (t : TaskRow) (db : Db)
      → db.tasks w ≡ some t
      → s.target t ≡ true
      → Quiet db (swept s w t db)
  swept-Quiet w t db ht hit = record {
    same_ids = (swept_same s w t db).0;
    same_agents = (swept_same s w t db).1;
    next = swept_next s w t db;
    tasks = λ j. rw (swept_rows s w t db).0 (
        put-follows w (s.change_task t) t db.tasks ht (e.issue t) (e.agent t) (rw (e.rests t) refl)
          j);
    life = λ j.
        rw (swept_rows s w t db).0 (put-Life w j (s.change_task t) t db.tasks ht (e.life t hit));
    runs = λ j. rw (swept_rows s w t db).1 (closed_stored s (s.run_of t) db.runs j);
  }

  sweep_one-Quiet : (w : ℕ) (db : Db) → Quiet db (sweep_one s w db)
  unfolding sweep_one
  sweep_one-Quiet w db = elim (Option-cases (db.tasks w)) [
    | inl n ↦ rw (n, sweep_one) (Quiet-refl db)
    | inr (t, ht) ↦ elim (Bool-cases (s.target t)) [
      | inl hit ↦ rw (ht, sweep_one, hit) (swept-Quiet w t db ht hit)
      | inr miss ↦ rw (ht, sweep_one, miss) (Quiet-refl db)
    ]
  ]

  pub sweep-Quiet : (ws : List ℕ) (db : Db) → Quiet db (sweep s ws db)
  unfolding sweep
  sweep-Quiet [] db = Quiet-refl db
  sweep-Quiet (w ∷ ws) db =
      Quiet-trans db (sweep_one s w db) _ (sweep_one-Quiet w db) (sweep-Quiet ws (sweep_one s w db))

cancelling-Ending : (chosen : TaskRow → Bool) (db : Db) → Ending (cancelling chosen db)
cancelling-Ending chosen db = record {
  issue = λ t. refl;
  agent = λ t. refl;
  life = λ t h. ground arith;
  rests = λ t. refl;
}

failing-Ending :
    (chosen : TaskRow → Bool) (m : Text) (db : Db)
    → ((t : TaskRow) → chosen t ≡ true → at_most_one t.status TaskStatus.failed ≡ true)
    → Ending (failing chosen m db)
failing-Ending chosen m db live = record {
  issue = λ t. refl;
  agent = λ t. refl;
  life = live;
  rests = λ t. refl;
}

recovering-Ending : (runtime : ℕ) (db : Db) → Ending (recovering runtime db)
unfolding recovering
recovering-Ending runtime db = record {
  issue = λ t. refl;
  agent = λ t. refl;
  life = λ t h. ground arith;
  rests = λ t. ground arith;
}

stale_moves :
    (d r now : ℕ) (t : TaskRow)
    → is_stale d r now t ≡ true
    → at_most_one t.status TaskStatus.failed ≡ true
stale_moves d r now t h = ground arith

orphan_moves :
    (db : Db) (t : TaskRow) → is_orphan db t ≡ true → at_most_one t.status TaskStatus.failed ≡ true
orphan_moves db t h = ground arith

sweep_of-Ending : (c : BulkCall) (db : Db) → Ending (sweep_of c db)
sweep_of-Ending (for_issue i) db = cancelling-Ending _ db
sweep_of-Ending (for_agent a) db = cancelling-Ending _ db
sweep_of-Ending (stale_after d r) db = failing-Ending _ _ db (stale_moves d r db.now)
sweep_of-Ending offline db = failing-Ending _ _ db (orphan_moves db)

perform_bulk_atomic :
    (l : RunLifecycle) (c : BulkCall) (db : Db) (e : Error)
    → (perform_bulk l c db).0 ≡ err e
    → (perform_bulk l c db).1 ≡ db
unfolding perform_bulk
perform_bulk_atomic l (for_issue i) db e h = ground arith
perform_bulk_atomic l (for_agent a) db e h = ground arith
perform_bulk_atomic l (stale_after d r) db e h = ground arith
perform_bulk_atomic l offline db e h = ground arith

-- A bulk transition keeps the invariant, whatever it answers.
pub perform_bulk-Evolves :
    (l : RunLifecycle) (c : BulkCall) (db : Db) → Sound db → Evolves db (perform_bulk l c db).1
perform_bulk-Evolves l c db s =
    after_result (perform_bulk l c db) db
      (λ n db' h.
        Quiet-Evolves db db'
          (subst (Quiet db) (sym (perform_bulk-swept l c db db' n h))
            (sweep-Quiet (sweep_of c db) (sweep_of-Ending c db) db.task_ids db))
          (perform_bulk-Linked l c db db' n h s.linked) s)
      (perform_bulk_atomic l c db) s

-- The recovery of a runtime's work items keeps the invariant, whatever it answers.
pub recover-Evolves :
    (l : RunLifecycle) (runtime : ℕ) (db : Db)
    → Sound db
    → Evolves db (recover_tasks_for_runtime l (some runtime) db).1
recover-Evolves l runtime db s =
    after_result (recover_tasks_for_runtime l (some runtime) db) db
      (λ n db' h.
        Quiet-Evolves db db'
          (subst (Quiet db) (sym (recover-swept l runtime db db' n h))
            (sweep-Quiet (recovering runtime db) (recovering-Ending runtime db) db.task_ids db))
          (recover-Linked l runtime db db' n h s.linked) s)
      (recover_atomic l (some runtime) db) s
