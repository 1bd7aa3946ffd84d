-- ===== src/System/Growth.antt =====
-- A new work item and a new attempt keep the invariant.
use agentra.Base.{
  sym, ℕ, ◌+◌, ◌≤◌, ◌<◌, ◌≡◌, refl, Bool, true, false, List, [], ◌∷◌, Option, none, some, arith,
  ◌==◌, leb, some_of, is_some, Bool-cases, inl, inr, ==_iff, if◌then◌else◌,
}
use agentra.Store.Rows.{TaskRow, RunRow, AgentRow}
use agentra.Store.Tx.{Db, put}
use agentra.Store.Tasks.{is_active}
use agentra.Store.Claims.{
  count_for, works_on, busy, is_claimable, claimed, dispatched_task, new_run,
}
use agentra.Lifecycle.Links.{task_linked, run_linked}
use agentra.System.Sound.{Sound, clash, listed, no_repeats}

pub none_such :
    (p : ℕ → Bool) (i : ℕ) (ids : List ℕ)
    → some_of p ids ≡ false
    → listed i ids ≡ true
    → p i ≡ false
none_such p i [] h l = cc
none_such p i (w ∷ ws) h l = ground (arith, none_such p i ws, ==_iff w i)

module _ (w r now : ℕ) (t : TaskRow) (tasks : ℕ → Option TaskRow) (runs : ℕ → Option RunRow)
    (ht : tasks w ≡ some t) (hr : runs r ≡ none) (rest : is_active t.status ≡ false) where
  claimed-task_linked :
      (j : ℕ)
      → task_linked runs w (tasks w) ≡ true
      → task_linked runs j (tasks j) ≡ true
      → task_linked (put r (new_run r w t now) runs) j (put w (dispatched_task t now r) tasks j)
        ≡ true
  claimed-task_linked j h k = ground arith

  claimed-run_linked :
      (j : ℕ)
      → task_linked runs w (tasks w) ≡ true
      → run_linked tasks j (runs j) ≡ true
      → run_linked (put w (dispatched_task t now r) tasks) j (put r (new_run r w t now) runs j)
        ≡ true
  claimed-run_linked j h k = ground arith

  claimed_clash :
      (i j : ℕ)
      → ((k : ℕ) → works_on t.issue_id (tasks k) ≡ false)
      → clash i j (tasks i) (tasks j) ≡ false
      → clash i j
          (put w (dispatched_task t now r) tasks i)
          (put w (dispatched_task t now r) tasks j)
        ≡ false
  claimed_clash i j free h = ground (arith, free i, free j)

  count_unlisted :
      (a : ℕ) (ids : List ℕ)
      → listed w ids ≡ false
      → count_for a (put w (dispatched_task t now r) tasks) ids ≡ count_for a tasks ids
  unfolding count_for
  count_unlisted a [] h = refl
  count_unlisted a (v ∷ vs) h = ground (arith, count_unlisted a vs)

  count_claimed :
      (a : ℕ) (ids : List ℕ)
      → no_repeats ids ≡ true
      → count_for a (put w (dispatched_task t now r) tasks) ids
        ≤ count_for a tasks ids + (if t.agent_id == a then 1 else 0)
  unfolding count_for no_repeats
  count_claimed a [] h = ground arith
  count_claimed a (v ∷ vs) h = elim (Bool-cases (v == w)) [
    | inl e ↦ ground (arith, count_unlisted a vs, ==_iff v w)
    | inr n ↦ ground (arith, count_claimed a vs)
  ]

leb_refl : (n : ℕ) → leb n n ≡ true
leb_refl n = ground arith

leb_down : (n i : ℕ) → leb (n + 1) i ≡ true → leb n i ≡ true
leb_down n i h = ground arith

module _ {ℓ} {A : Type ℓ} where
  put_fresh :
      (k i n : ℕ) (v : A) (table : ℕ → Option A)
      → leb n k ≡ false
      → leb n i ≡ true
      → table i ≡ none
      → put k v table i ≡ none
  put_fresh k i n v table h l e = ground arith

  put_some :
      (k i : ℕ) (v : A) (table : ℕ → Option A)
      → is_some (table k) ≡ true
      → is_some (put k v table i) ≡ is_some (table i)
  put_some k i v table h = ground arith

not_free :
    (db : Db) (i : ℕ) (t : TaskRow) → Sound db → db.tasks i ≡ some t → leb db.next_id i ≡ false
not_free db i t s h = elim (Bool-cases (leb db.next_id i)) [
  | inl l ↦ ground (arith, (s.fresh i l).0)
  | inr l ↦ l
]

next_above : (n : ℕ) → leb (n + 1) n ≡ false
next_above n = ground arith

leb_next : (n i : ℕ) → leb n i ≡ false → leb (n + 1) i ≡ false
leb_next n i h = ground arith

claimable_rests :
    (db : Db) (t : TaskRow)
    → is_claimable db t ≡ true
    → (is_active t.status ≡ false) × (busy db t.issue_id ≡ false)
claimable_rests db t h = (ground arith, ground arith)

idle_issue :
    (issue : ℕ) (db : Db) (k : ℕ)
    → Sound db
    → busy db issue ≡ false
    → works_on issue (db.tasks k) ≡ false
idle_issue issue db k s h = elim (Bool-cases (is_some (db.tasks k))) [
  | inl e ↦ none_such (λ i. works_on issue (db.tasks i)) k db.task_ids h (rw (s.all_listed k) e)
  | inr e ↦ ground arith
]

grows :
    (c' c m : ℕ) (a b : ℕ) → c' ≤ c + (if b == a then 1 else 0) → c ≤ m → (b ≡ a → c < m) → c' ≤ m
grows c' c m a b h k r = elim (Bool-cases (b == a)) [
  | inl e ↦ ground (arith, r ((==_iff b a).0 e))
  | inr e ↦ ground arith
]

-- A claim for an agent that is under its limit keeps the invariant.
pub claimed-Sound :
    (w : ℕ) (t : TaskRow) (db : Db)
    → db.tasks w ≡ some t
    → is_claimable db t ≡ true
    → ((row : AgentRow)
        → db.agents t.agent_id ≡ some row
        → count_for t.agent_id db.tasks db.task_ids < row.max_concurrent_tasks)
    → Sound db
    → Sound (claimed w t db)
claimed-Sound w t db ht hc room s =
    let (rest, free) = claimable_rests db t hc in
    let unused : db.runs db.next_id ≡ none = (s.fresh db.next_id (leb_refl db.next_id)).1 in
    record {
      linked = record {
        task = λ j.
            claimed-task_linked w db.next_id db.now t db.tasks db.runs ht unused rest j
              (s.linked.task w) (s.linked.task j);
        run = λ j.
            claimed-run_linked w db.next_id db.now t db.tasks db.runs ht unused rest j
              (s.linked.task w) (s.linked.run j);
      };
      fresh = λ i h.
          let old = s.fresh i (leb_down db.next_id i h) in
          (
            put_fresh w i db.next_id _ db.tasks (not_free db w t s ht) (leb_down db.next_id i h)
                old.0,
            put_fresh db.next_id i (db.next_id + 1) _ db.runs (next_above db.next_id) h old.1,
          );
      all_listed = λ i.
          rw (s.all_listed i, put_some w i (dispatched_task t db.now db.next_id) db.tasks (rw ht))
            refl;
      once = s.once;
      serial = λ i j.
          claimed_clash w db.next_id db.now t db.tasks db.runs ht unused rest i j
            (λ k. idle_issue t.issue_id db k s free) (s.serial i j);
      within = λ a row h.
          grows _ _ _ a t.agent_id
            (count_claimed w db.next_id db.now t db.tasks db.runs ht unused rest a db.task_ids
              s.once)
            (s.within a row h) (λ e. rw (sym e) (room row (rw e h)));
    }
