-- ===== src/Lifecycle/Sweeps.antt =====
-- What the bulk transitions leave behind: ledgers that agree, and no target.
use agentra.Base.{
  ℕ, ◌≡◌, ◌⊎◌, refl, sym, ◌∙◌, Bool, true, false, not, ◌&&◌, List, [], ◌∷◌, Option, none, some,
  Text, arith, inl, inr, Option-cases, some-none, Bool-cases, ◌==◌, ==_iff, some_of, bytes,
}
use agentra.Store.Rows.{TaskRow, RunRow}
use agentra.Store.Tx.{Db, Result, ok}
use agentra.Store.Tasks.{is_open}
use agentra.Lifecycle.Guards.{RunLifecycle}
use agentra.Lifecycle.Links.{Linked}
use agentra.Lifecycle.Bulk.{
  Sweep, sweep_one, sweep, cancelling, failing, cancel_for_issue, cancel_for_agent,
  fail_stale_tasks, fail_tasks_for_offline_runtimes, is_stale, is_orphan,
}
use agentra.Lifecycle.Sweeping.{Closing, Picking, sweep-Linked, swept_tasks}

cancelling-Picking :
    (chosen : TaskRow → Bool) (db : Db) (runs : ℕ → Option RunRow)
    → Picking (cancelling chosen db) runs
cancelling-Picking chosen db runs = record {
  of_active = λ t r e. e;
  of_idle = λ t r e h. absurd (some-none r (sym h ∙ e));
}

failing-Picking :
    (chosen : TaskRow → Bool) (m : Text) (db : Db) (runs : ℕ → Option RunRow)
    → Picking (failing chosen m db) runs
failing-Picking chosen m db runs = record {
  of_active = λ t r e. e;
  of_idle = λ t r e h. absurd (some-none r (sym h ∙ e));
}

pub cancelling-Closing : (chosen : TaskRow → Bool) (db : Db) → Closing (cancelling chosen db)
cancelling-Closing chosen db = record {
  rests = λ t. (refl, refl, refl);
  closes = λ r. (refl, refl, refl);
}

pub failing-Closing : (chosen : TaskRow → Bool) (m : Text) (db : Db) → Closing (failing chosen m db)
failing-Closing chosen m db = record {
  rests = λ t. (refl, refl, refl);
  closes = λ r. (refl, refl, refl);
}

-- After a statement the work item at `w` is no target, if it was listed.
abbrev pub missed : Sweep → Option TaskRow → Bool
missed s none = true
missed s (some t) = not (s.target t)

module _ (s : Sweep) (settles : (t : TaskRow) → s.target (s.change_task t) ≡ false) where
  sweep_one-missed :
      (w j : ℕ) (db : Db)
      → (missed s (db.tasks j) ≡ true) ⊎ (j ≡ w)
      → missed s ((sweep_one s w db).tasks j) ≡ true
  unfolding sweep_one
  sweep_one-missed w j db h = elim (Option-cases (db.tasks w)) [
    | inl e ↦ ground arith
    | inr (t, e) ↦ ground (arith, settles t, swept_tasks s w t db)
  ]

  sweep_keeps_missed :
      (ws : List ℕ) (j : ℕ) (db : Db)
      → missed s (db.tasks j) ≡ true
      → missed s ((sweep s ws db).tasks j) ≡ true
  unfolding sweep
  sweep_keeps_missed [] j db h = h
  sweep_keeps_missed (w ∷ ws) j db h =
      sweep_keeps_missed ws j (sweep_one s w db) (sweep_one-missed w j db (inl h))

  pub sweep-missed :
      (ws : List ℕ) (j : ℕ) (db : Db)
      → some_of (λ w. w == j) ws ≡ true
      → missed s ((sweep s ws db).tasks j) ≡ true
  unfolding sweep
  sweep-missed [] j db h = cc
  sweep-missed (w ∷ ws) j db h = elim (Bool-cases (w == j)) [
    | inl e ↦
        sweep_keeps_missed ws j (sweep_one s w db)
          (sweep_one-missed w j db (inr (sym ((==_iff w j).0 e))))
    | inr n ↦ sweep-missed ws j (sweep_one s w db) (rw n at h)
  ]

-- The four bulk transitions that end attempts, and the statement of each.
pub data BulkCall : Type 0 where
  for_issue for_agent : ℕ → BulkCall
  stale_after : ℕ → ℕ → BulkCall
  offline : BulkCall

unfoldable pub perform_bulk : RunLifecycle → BulkCall → Db → Result ℕ × Db
unfolding cancel_for_issue cancel_for_agent fail_stale_tasks fail_tasks_for_offline_runtimes
perform_bulk l (for_issue i) db = cancel_for_issue l (some i) db
perform_bulk l (for_agent a) db = cancel_for_agent l (some a) db
perform_bulk l (stale_after d r) db = fail_stale_tasks l d r db
perform_bulk l offline db = fail_tasks_for_offline_runtimes l db

-- The work items that a bulk transition is about.
abbrev pub concerns : BulkCall → Db → TaskRow → Bool
concerns (for_issue i) db t = (t.issue_id == i) && is_open t.status
concerns (for_agent a) db t = (t.agent_id == a) && is_open t.status
concerns (stale_after d r) db t = is_stale d r db.now t
concerns offline db t = is_orphan db t

abbrev pub sweep_of : BulkCall → Db → Sweep
sweep_of (for_issue i) db = cancelling (λ t. t.issue_id == i) db
sweep_of (for_agent a) db = cancelling (λ t. t.agent_id == a) db
sweep_of (stale_after d r) db = failing (is_stale d r db.now) (bytes "task timed out") db
sweep_of offline db = failing (is_orphan db) (bytes "runtime went offline") db

pub perform_bulk-swept :
    (l : RunLifecycle) (c : BulkCall) (db db' : Db) (n : ℕ)
    → perform_bulk l c db ≡ (ok n, db')
    → db' ≡ sweep (sweep_of c db) db.task_ids db
unfolding perform_bulk
perform_bulk-swept l (for_issue i) db db' n h = ground arith
perform_bulk-swept l (for_agent a) db db' n h = ground arith
perform_bulk-swept l (stale_after d r) db db' n h = ground arith
perform_bulk-swept l offline db db' n h = ground arith

sweep_of-Closing : (c : BulkCall) (db : Db) → Closing (sweep_of c db)
sweep_of-Closing (for_issue i) db = cancelling-Closing _ db
sweep_of-Closing (for_agent a) db = cancelling-Closing _ db
sweep_of-Closing (stale_after d r) db = failing-Closing _ _ db
sweep_of-Closing offline db = failing-Closing _ _ db

sweep_of_settles :
    (c : BulkCall) (db : Db) (t : TaskRow)
    → (sweep_of c db).target ((sweep_of c db).change_task t) ≡ false
sweep_of_settles (for_issue i) db t = ground arith
sweep_of_settles (for_agent a) db t = ground arith
sweep_of_settles (stale_after d r) db t = refl
sweep_of_settles offline db t = refl

missed-concerns :
    (c : BulkCall) (db : Db) (t : TaskRow) (o : Option TaskRow)
    → missed (sweep_of c db) o ≡ true
    → o ≡ some t
    → concerns c db t ≡ false
missed-concerns (for_issue i) db t o h e = ground arith
missed-concerns (for_agent a) db t o h e = ground arith
missed-concerns (stale_after d r) db t o h e = ground arith
missed-concerns offline db t o h e = ground arith

sweep_of-Picking : (c : BulkCall) (db : Db) → Picking (sweep_of c db) db.runs
sweep_of-Picking (for_issue i) db = cancelling-Picking _ db _
sweep_of-Picking (for_agent a) db = cancelling-Picking _ db _
sweep_of-Picking (stale_after d r) db = failing-Picking _ _ db _
sweep_of-Picking offline db = failing-Picking _ _ db _

-- A bulk transition that succeeds keeps the ledgers in agreement.
pub perform_bulk-Linked :
    (l : RunLifecycle) (c : BulkCall) (db db' : Db) (n : ℕ)
    → perform_bulk l c db ≡ (ok n, db')
    → Linked db
    → Linked db'
perform_bulk-Linked l c db db' n h v = rw (perform_bulk-swept l c db db' n h) (
    sweep-Linked (sweep_of c db) (sweep_of-Closing c db) db.runs (sweep_of-Picking c db) db.task_ids
      db (λ r. refl) v)

-- After a bulk transition that succeeds, no listed work item is left that it is about.
pub perform_bulk_ends :
    (l : RunLifecycle) (c : BulkCall) (db db' : Db) (n w : ℕ) (t : TaskRow)
    → perform_bulk l c db ≡ (ok n, db')
    → some_of (λ i. i == w) db.task_ids ≡ true
    → db'.tasks w ≡ some t
    → concerns c db t ≡ false
perform_bulk_ends l c db db' n w t h listed ht =
    missed-concerns c db t _
      (sweep-missed (sweep_of c db) (sweep_of_settles c db) db.task_ids w db listed)
      (rw (perform_bulk-swept l c db db' n h) at ht)
