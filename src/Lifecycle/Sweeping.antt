-- ===== src/Lifecycle/Sweeping.antt =====
-- One bulk statement keeps the ledgers in agreement, work item by work item.
use agentra.Base.{
  if◌then◌else◌, ℕ, ◌≡◌, refl, ◌∙◌, true, false, List, [], ◌∷◌, Option, none, some, arith, inl, inr,
  Option-cases, Bool-cases, ◌==◌, ==_iff, some_of,
}
use agentra.Store.Rows.{TaskRow, RunRow}
use agentra.Store.Tx.{Db, put}
use agentra.Store.Tasks.{is_active}
use agentra.Lifecycle.Links.{Linked, task_linked, run_linked, Moves-Linked, Rests-Linked}
use agentra.Lifecycle.Bulk.{Sweep, swept, sweep_one, sweep, close_active}

-- A sweep that ends attempts: its work items and the runs that it closes rest afterwards.
pub record Closing (s : Sweep) : Type 0 where
  pub rests :
      (t : TaskRow)
      → (is_active (s.change_task t).status ≡ false)
        × ((s.change_task t).active_run_id ≡ none)
        × ((s.change_task t).id ≡ t.id)
  pub closes :
      (r : RunRow)
      → (is_active (s.change_run r).status ≡ false)
        × ((s.change_run r).id ≡ r.id)
        × ((s.change_run r).task_id ≡ r.task_id)

pub swept_tasks :
    (s : Sweep) (w : ℕ) (t : TaskRow) (db : Db)
    → (swept s w t db).tasks ≡ put w (s.change_task t) db.tasks
swept_tasks s w t db = ground arith

swept_runs :
    (s : Sweep) (w : ℕ) (t : TaskRow) (db : Db)
    → (swept s w t db).runs ≡ close_active s (s.run_of t) db.runs
swept_runs s w t db = ground arith

close_active_run :
    (s : Sweep) (r : ℕ) (run : RunRow) (runs : ℕ → Option RunRow)
    → runs r ≡ some run
    → is_active run.status ≡ true
    → close_active s (some r) runs ≡ put r (s.change_run run) runs
close_active_run s r run runs hr act = ground arith

active_run_there :
    (w r : ℕ) (t : TaskRow) (db : Db)
    → task_linked db.runs w (db.tasks w) ≡ true
    → db.tasks w ≡ some t
    → t.active_run_id ≡ some r
    → (db.runs r ≡ none → ⊥)
      × ((run : RunRow) → db.runs r ≡ some run → (is_active run.status ≡ true) × (run.task_id ≡ w))
active_run_there w r t db v ht act = (λ e. ground arith, λ run hr. (ground arith, ground arith))

module _ (s : Sweep) (c : Closing s) (w : ℕ) (t : TaskRow) (db : Db) (ht : db.tasks w ≡ some t)
    (v : Linked db) where
  swept_idle-Linked :
      t.active_run_id ≡ none
      → close_active s (s.run_of t) db.runs ≡ db.runs
      → Linked (swept s w t db)
  swept_idle-Linked idle kept =
      Rests-Linked w db _
        (record {
          task = t;
          task' = s.change_task t;
          had_task = ht;
          was_idle = idle;
          tasks_put = swept_tasks s w t db;
          runs_same = swept_runs s w t db ∙ kept;
          same_task = (c.rests t).2;
          idle = (c.rests t).1;
          at_rest = (c.rests t).0;
        })
        v

  swept_active-Linked :
      (r : ℕ) → t.active_run_id ≡ some r → s.run_of t ≡ some r → Linked (swept s w t db)
  swept_active-Linked r act names =
      let (there, live) = active_run_there w r t db (v.task w) ht act in
      elim (Option-cases (db.runs r)) [
        | inl e ↦ absurd (there e)
        | inr (run, hr) ↦
            Moves-Linked w r db _
              (record {
                task = t;
                run = run;
                task' = s.change_task t;
                run' = s.change_run run;
                had_task = ht;
                had_run = hr;
                was_active = act;
                was_of = (live run hr).1;
                tasks_put = swept_tasks s w t db;
                runs_put =
                    swept_runs s w t db
                    ∙ rw names (close_active_run s r run db.runs hr (live run hr).0);
                same_task = (c.rests t).2;
                same_run = (c.closes run).1;
                same_owner = (c.closes run).2;
                agree = rw ((c.rests t).0, (c.rests t).1, (c.closes run).0);
              })
              v
      ]

abbrev pub owner_of : Option RunRow → Option ℕ
owner_of none = none
owner_of (some run) = some run.task_id

-- The run that is closed with a work item is its active one, or one of its own if it has none.
pub record Picking (s : Sweep) (runs : ℕ → Option RunRow) : Type 0 where
  pub of_active : (t : TaskRow) (r : ℕ) → t.active_run_id ≡ some r → s.run_of t ≡ some r
  pub of_idle :
      (t : TaskRow) (r : ℕ)
      → t.active_run_id ≡ none
      → s.run_of t ≡ some r
      → owner_of (runs r) ≡ some t.id

-- In ledgers that agree, a run of a work item with no attempt is closed.
own_run_closed :
    (s : Sweep) (w r : ℕ) (t : TaskRow) (db : Db)
    → db.tasks w ≡ some t
    → t.active_run_id ≡ none
    → owner_of (db.runs r) ≡ some t.id
    → task_linked db.runs w (db.tasks w) ≡ true
    → run_linked db.tasks r (db.runs r) ≡ true
    → close_active s (some r) db.runs ≡ db.runs
own_run_closed s w r t db ht idle own v u = ground arith

close_active-owner :
    (s : Sweep) (c : Closing s) (o : Option ℕ) (runs : ℕ → Option RunRow) (j : ℕ)
    → owner_of (close_active s o runs j) ≡ owner_of (runs j)
close_active-owner s c none runs j = refl
close_active-owner s c (some r) runs j = elim (Option-cases (runs r)) [
  | inl e ↦ ground arith
  | inr (run, e) ↦ ground (arith, (c.closes run).2)
]

module _ (s : Sweep) (c : Closing s) (runs : ℕ → Option RunRow) (p : Picking s runs) where
  idle_kept :
      (w : ℕ) (t : TaskRow) (db : Db)
      → db.tasks w ≡ some t
      → t.active_run_id ≡ none
      → Linked db
      → ((r : ℕ) → owner_of (db.runs r) ≡ owner_of (runs r))
      → close_active s (s.run_of t) db.runs ≡ db.runs
  idle_kept w t db ht idle v own = elim (Option-cases (s.run_of t)) [
    | inl e ↦ rw e refl
    | inr (r, e) ↦
        rw e (own_run_closed s w r t db ht idle (own r ∙ p.of_idle t r idle e) (v.task w) (v.run r))
  ]

  swept-Linked :
      (w : ℕ) (t : TaskRow) (db : Db)
      → db.tasks w ≡ some t
      → ((r : ℕ) → owner_of (db.runs r) ≡ owner_of (runs r))
      → Linked db
      → Linked (swept s w t db)
  swept-Linked w t db ht own v = elim (Option-cases t.active_run_id) [
    | inl idle ↦ swept_idle-Linked s c w t db ht v idle (idle_kept w t db ht idle v own)
    | inr (r, act) ↦ swept_active-Linked s c w t db ht v r act (p.of_active t r act)
  ]

  sweep_one-Linked :
      (w : ℕ) (db : Db)
      → ((r : ℕ) → owner_of (db.runs r) ≡ owner_of (runs r))
      → Linked db
      → Linked (sweep_one s w db)
  unfolding sweep_one
  sweep_one-Linked w db own v = elim (Option-cases (db.tasks w)) [
    | inl e ↦ rw (e, sweep_one) v
    | inr (t, e) ↦ elim (Bool-cases (s.target t)) [
      | inl hit ↦ rw (e, sweep_one, hit) (swept-Linked w t db e own v)
      | inr miss ↦ rw (e, sweep_one, miss) v
    ]
  ]

  sweep_one-owner :
      (w r : ℕ) (db : Db) → owner_of ((sweep_one s w db).runs r) ≡ owner_of (db.runs r)
  unfolding sweep_one
  sweep_one-owner w r db = elim (Option-cases (db.tasks w)) [
    | inl e ↦ rw (e, sweep_one) refl
    | inr (t, e) ↦ elim (Bool-cases (s.target t)) [
      | inl hit ↦
          rw (e, sweep_one, hit, swept_runs s w t db)
            (close_active-owner s c (s.run_of t) db.runs r)
      | inr miss ↦ rw (e, sweep_one, miss) refl
    ]
  ]

  pub sweep-Linked :
      (ws : List ℕ) (db : Db)
      → ((r : ℕ) → owner_of (db.runs r) ≡ owner_of (runs r))
      → Linked db
      → Linked (sweep s ws db)
  unfolding sweep
  sweep-Linked [] db own v = v
  sweep-Linked (w ∷ ws) db own v =
      sweep-Linked ws (sweep_one s w db) (λ r. sweep_one-owner w r db ∙ own r)
        (sweep_one-Linked w db own v)

module _ (s : Sweep) (settles : (t : TaskRow) → s.target (s.change_task t) ≡ false) where
  sweep_one_other : (w j : ℕ) (db : Db) → (w == j) ≡ false → (sweep_one s w db).tasks j ≡ db.tasks j
  unfolding sweep_one
  sweep_one_other w j db n = elim (Option-cases (db.tasks w)) [
    | inl e ↦ rw (e, sweep_one) refl
    | inr (t, e) ↦ elim (Bool-cases (s.target t)) [
      | inl hit ↦ rw (e, sweep_one, hit, swept_tasks s w t db) (ground arith)
      | inr miss ↦ rw (e, sweep_one, miss) refl
    ]
  ]

  sweep_one_here :
      (w : ℕ) (t : TaskRow) (db : Db)
      → db.tasks w ≡ some t
      → (sweep_one s w db).tasks w ≡ some (if s.target t then s.change_task t else t)
  unfolding sweep_one
  sweep_one_here w t db e = elim (Bool-cases (s.target t)) [
    | inl hit ↦ rw (e, sweep_one, hit, swept_tasks s w t db) (ground arith)
    | inr miss ↦ rw (e, sweep_one, miss) e
  ]

  sweep_passes :
      (ws : List ℕ) (j : ℕ) (t : TaskRow) (db : Db)
      → db.tasks j ≡ some t
      → s.target t ≡ false
      → (sweep s ws db).tasks j ≡ some t
  unfolding sweep
  sweep_passes [] j t db h m = h
  sweep_passes (w ∷ ws) j t db h m = elim (Bool-cases (w == j)) [
    | inl e ↦
        sweep_passes ws j t (sweep_one s w db)
          (rw ((==_iff w j).0 e, sweep_one_here j t db h, m) refl) m
    | inr n ↦ sweep_passes ws j t (sweep_one s w db) (sweep_one_other w j db n ∙ h) m
  ]

  -- A listed target is changed, and once.
  pub sweep-changes :
      (ws : List ℕ) (j : ℕ) (t : TaskRow) (db : Db)
      → some_of (λ w. w == j) ws ≡ true
      → db.tasks j ≡ some t
      → s.target t ≡ true
      → (sweep s ws db).tasks j ≡ some (s.change_task t)
  unfolding sweep
  sweep-changes [] j t db l h m = cc
  sweep-changes (w ∷ ws) j t db l h m = elim (Bool-cases (w == j)) [
    | inl e ↦
        sweep_passes ws j (s.change_task t) (sweep_one s w db)
          (rw ((==_iff w j).0 e, sweep_one_here j t db h, m) refl) (settles t)
    | inr n ↦ sweep-changes ws j t (sweep_one s w db) (rw n at l) (sweep_one_other w j db n ∙ h) m
  ]
