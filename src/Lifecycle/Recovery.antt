-- ===== src/Lifecycle/Recovery.antt =====
-- RecoverTasksForRuntime (server/internal/service/run_lifecycle.go) keeps the ledgers in agreement,
-- though it closes the latest run of a work item that has no attempt.
use agentra.Base.{
  false, some_of, bytes, ltb, ◌+◌, ℕ, ◌≡◌, refl, ◌∙◌, true, List, [], ◌∷◌, Option, none, some,
  arith, Option-cases, Bool-cases, inl, inr, if◌then◌else◌, ◌==◌,
}
use agentra.Store.Rows.{TaskStatus, TaskRow, RunRow}
use agentra.Store.Tx.{Db, Error, ok, err}
use agentra.Store.Tasks.{is_active}
use agentra.Store.Runs.{latest_of}
use agentra.Lifecycle.Guards.{RunLifecycle}
use agentra.Lifecycle.Bulk.{sweep, recovering, recover_tasks_for_runtime}
use agentra.Lifecycle.Links.{Linked}
use agentra.Lifecycle.Sweeping.{Closing, Picking, sweep-Linked, owner_of, sweep-changes}

pub recovering-Closing : (runtime : ℕ) (db : Db) → Closing (recovering runtime db)
unfolding recovering
recovering-Closing runtime db = record {
  rests = λ t. (ground arith, refl, refl);
  closes = λ r. (refl, refl, refl);
}

latest_step :
    (runs : ℕ → Option RunRow) (w i : ℕ) (found : Option RunRow) (x : RunRow)
    → ((r : ℕ) (y : RunRow) → runs r ≡ some y → y.id ≡ r)
    → ((y : RunRow) → found ≡ some y → owner_of (runs y.id) ≡ some w)
    → (elim (runs i) [ none ↦ found | some r ↦ if r.task_id == w then some r else found ]) ≡ some x
    → owner_of (runs x.id) ≡ some w
latest_step runs w i found x names f e = elim (Option-cases (runs i)) [
  | inl n ↦ f x (rw n at e)
  | inr (y, h) ↦ elim (Bool-cases (y.task_id == w)) [
    | inl own ↦ ground (arith, names i y h)
    | inr other ↦ f x (rw (h, other) at e)
  ]
]

-- The latest run of a work item is stored, and its own.
latest_of-owner :
    (runs : ℕ → Option RunRow) (w : ℕ) (ids : List ℕ) (found : Option RunRow) (run : RunRow)
    → ((r : ℕ) (x : RunRow) → runs r ≡ some x → x.id ≡ r)
    → ((x : RunRow) → found ≡ some x → owner_of (runs x.id) ≡ some w)
    → latest_of runs w ids found ≡ some run
    → owner_of (runs run.id) ≡ some w
unfolding latest_of
latest_of-owner runs w [] found run names f h = f run h
latest_of-owner runs w (i ∷ is) found run names f h =
    latest_of-owner runs w is _ run names (λ x e. latest_step runs w i found x names f e) h

names_itself : (db : Db) → Linked db → (r : ℕ) (x : RunRow) → db.runs r ≡ some x → x.id ≡ r
names_itself db v r x h = ground (arith, v.run r)

picks_latest :
    (runs : ℕ → Option RunRow) (w r : ℕ) (o : Option RunRow)
    → ((x : RunRow) → o ≡ some x → owner_of (runs x.id) ≡ some w)
    → (elim o [ none ↦ none | some run ↦ some run.id ]) ≡ some r
    → owner_of (runs r) ≡ some w
picks_latest runs w r none f h = cc
picks_latest runs w r (some x) f h = ground (arith, f x refl)

recovering-Picking : (runtime : ℕ) (db : Db) → Linked db → Picking (recovering runtime db) db.runs
unfolding recovering
recovering-Picking runtime db v = record {
  of_active = λ t r e. rw e refl;
  of_idle = λ t r e h.
      picks_latest db.runs t.id r _
        (λ x. latest_of-owner db.runs t.id db.run_ids none x (names_itself db v) (λ y n. cc))
        (rw e at h);
}

pub recover-swept :
    (l : RunLifecycle) (runtime : ℕ) (db db' : Db) (n : ℕ × ℕ)
    → recover_tasks_for_runtime l (some runtime) db ≡ (ok n, db')
    → db' ≡ sweep (recovering runtime db) db.task_ids db
unfolding recover_tasks_for_runtime
recover-swept l runtime db db' n h = ground arith

-- When the recovery of a runtime's work items succeeds, the ledgers still agree if they did before.
pub recover-Linked :
    (l : RunLifecycle) (runtime : ℕ) (db db' : Db) (n : ℕ × ℕ)
    → recover_tasks_for_runtime l (some runtime) db ≡ (ok n, db')
    → Linked db
    → Linked db'
recover-Linked l runtime db db' n h v = rw (recover-swept l runtime db db' n h) (
    sweep-Linked (recovering runtime db) (recovering-Closing runtime db) db.runs
      (recovering-Picking runtime db v) db.task_ids db (λ r. refl) v)

pub recover_atomic :
    (l : RunLifecycle) (runtime : Option ℕ) (db : Db) (e : Error)
    → (recover_tasks_for_runtime l runtime db).0 ≡ err e
    → (recover_tasks_for_runtime l runtime db).1 ≡ db
unfolding recover_tasks_for_runtime
recover_atomic l none db e h = ground arith
recover_atomic l (some runtime) db e h = ground arith

recovering_settles :
    (runtime : ℕ) (db : Db) (t : TaskRow)
    → (recovering runtime db).target ((recovering runtime db).change_task t) ≡ false
unfolding recovering
recovering_settles runtime db t = ground arith

-- A work item that the recovery requeues, or fails when its retries are spent.
abbrev pub recovered : ℕ → TaskRow → TaskRow
recovered now t =
    if ltb t.retry_count t.max_retries
    then record t {
      status = TaskStatus.queued;
      completed_at = none;
      error = none;
      retry_count = t.retry_count + 1;
      dispatched_at = none;
      started_at = none;
      active_run_id = none;
    }
    else record t {
      status = TaskStatus.failed;
      completed_at = some now;
      error = some (bytes "runtime restarted and retry budget was exhausted");
      dispatched_at = none;
      started_at = none;
      active_run_id = none;
    }

recovering_lem :
    (runtime : ℕ) (db : Db) (t : TaskRow)
    → t.runtime_id ≡ some runtime
    → is_active t.status ≡ true
    → ((recovering runtime db).target t ≡ true)
      × ((recovering runtime db).change_task t ≡ recovered db.now t)
unfolding recovering
recovering_lem runtime db t hr ha = (ground arith, ground arith)

-- A recovery that succeeds puts every listed work item that was dispatched or running on the runtime
-- back on the queue with its retry counted, or fails it when its retries are spent.
pub recover_requeues :
    (l : RunLifecycle) (runtime w : ℕ) (db db' : Db) (n : ℕ × ℕ) (t : TaskRow)
    → recover_tasks_for_runtime l (some runtime) db ≡ (ok n, db')
    → some_of (λ i. i == w) db.task_ids ≡ true
    → db.tasks w ≡ some t
    → t.runtime_id ≡ some runtime
    → is_active t.status ≡ true
    → db'.tasks w ≡ some (recovered db.now t)
recover_requeues l runtime w db db' n t h listed ht hr ha =
    let (hit, change) = recovering_lem runtime db t hr ha in
    rw (recover-swept l runtime db db' n h) (
      sweep-changes (recovering runtime db) (recovering_settles runtime db) db.task_ids w t db
        listed ht hit
      ∙ rw change refl)
