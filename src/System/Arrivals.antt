-- ===== src/System/Arrivals.antt =====
-- A new work item waits in the queue, and keeps the invariant.
use agentra.Base.{
  ℕ, ◌+◌, ◌≡◌, refl, sym, subst, ◌∙◌, Option-cases, true, false, ◌||◌, List, [], ◌∷◌, ◌++◌, Option,
  none, some, arith, ◌==◌, ==_refl, leb, is_some, Bool-cases, inl, inr, ==_iff,
}
use agentra.Store.Rows.{TaskRow, RunRow, AgentRow}
use agentra.Store.Tx.{Db, ok, put}
use agentra.Store.Tasks.{CreateAgentTaskParams, new_task, create_agent_task}
use agentra.Store.Claims.{count_for}
use agentra.Queue.Enqueue.{Issue, task_params, enqueue_task_for_mention, enqueue_task_for_issue}
use agentra.Lifecycle.Links.{task_linked, run_linked}
use agentra.Lifecycle.Phases.{Life, stays, goes_on, phase}
use agentra.System.Quiet.{Evolves}
use agentra.System.Sound.{Sound, clash, listed, no_repeats}

-- The database with a new work item.
abbrev pub arrived : CreateAgentTaskParams → Db → Db
arrived p db = record db {
  tasks = put db.next_id (new_task db.next_id p) db.tasks;
  task_ids = db.task_ids ++ db.next_id ∷ [];
  next_id = db.next_id + 1;
}

listed_append : (i w : ℕ) (ids : List ℕ) → listed i (ids ++ w ∷ []) ≡ (listed i ids || (w == i))
listed_append i w [] = ground arith
listed_append i w (v ∷ vs) = ground (arith, listed_append i w vs)

no_repeats-append :
    (w : ℕ) (ids : List ℕ)
    → no_repeats ids ≡ true
    → listed w ids ≡ false
    → no_repeats (ids ++ w ∷ []) ≡ true
unfolding no_repeats
no_repeats-append w [] h l = refl
no_repeats-append w (v ∷ vs) h l = ground (arith, no_repeats-append w vs, listed_append v w vs)

module _ (w : ℕ) (p : CreateAgentTaskParams) (tasks : ℕ → Option TaskRow) (runs : ℕ → Option RunRow)
    (free : tasks w ≡ none) where
  arrived-task_linked :
      (j : ℕ)
      → task_linked runs j (tasks j) ≡ true
      → task_linked runs j (put w (new_task w p) tasks j) ≡ true
  arrived-task_linked j h = ground arith

  arrived-run_linked :
      (j : ℕ)
      → run_linked tasks j (runs j) ≡ true
      → run_linked (put w (new_task w p) tasks) j (runs j) ≡ true
  arrived-run_linked j h = ground arith

  arrived_clash :
      (i j : ℕ)
      → clash i j (tasks i) (tasks j) ≡ false
      → clash i j (put w (new_task w p) tasks i) (put w (new_task w p) tasks j) ≡ false
  arrived_clash i j h = ground arith

  arrived_listed :
      (i : ℕ) (ids : List ℕ)
      → listed i ids ≡ is_some (tasks i)
      → listed i (ids ++ w ∷ []) ≡ is_some (put w (new_task w p) tasks i)
  arrived_listed i ids h = ground (arith, listed_append i w ids)

  count_arrived :
      (a : ℕ) (ids : List ℕ)
      → count_for a (put w (new_task w p) tasks) (ids ++ w ∷ []) ≡ count_for a tasks ids
  unfolding count_for
  count_arrived a [] = ground arith
  count_arrived a (v ∷ vs) = ground (arith, count_arrived a vs)

leb_refl : (n : ℕ) → leb n n ≡ true
leb_refl n = ground arith

beyond : (n i : ℕ) → leb (n + 1) i ≡ true → (leb n i ≡ true) × ((i == n) ≡ false)
beyond n i h = (ground arith, ground arith)

-- A new work item keeps the invariant.
pub arrived-Sound : (p : CreateAgentTaskParams) (db : Db) → Sound db → Sound (arrived p db)
arrived-Sound p db s =
    let (free, unused) = s.fresh db.next_id (leb_refl db.next_id) in
    record {
      linked = record {
        task = λ j. arrived-task_linked db.next_id p db.tasks db.runs free j (s.linked.task j);
        run = λ j. arrived-run_linked db.next_id p db.tasks db.runs free j (s.linked.run j);
      };
      fresh = λ i h.
          let (past, other) = beyond db.next_id i h in
          let old = s.fresh i past in (rw other old.0, old.1);
      all_listed =
          λ i. arrived_listed db.next_id p db.tasks db.runs free i db.task_ids (s.all_listed i);
      once =
          no_repeats-append db.next_id db.task_ids s.once (rw (s.all_listed db.next_id, free) refl);
      serial = λ i j. arrived_clash db.next_id p db.tasks db.runs free i j (s.serial i j);
      within = λ a row h.
          rw (count_arrived db.next_id p db.tasks db.runs free a db.task_ids) (s.within a row h);
    }

-- A work item was put on the queue for an agent that is there, is not archived, and has a runtime.
pub record Enqueued (issue : Issue) (agent : ℕ) (comment : Option ℕ) (db db' : Db) (t : TaskRow)
    : Type 0 where
  pub row : AgentRow
  pub had_agent : db.agents agent ≡ some row
  pub not_archived : row.archived_at ≡ none
  pub has_runtime : is_some row.runtime_id ≡ true
  pub item : t ≡ new_task db.next_id (task_params issue agent row comment)
  pub all : db' ≡ arrived (task_params issue agent row comment) db

module _ (issue : Issue) (agent : ℕ) (comment : Option ℕ) (db db' : Db) (t : TaskRow) where
  no_agent_row :
      db.agents agent ≡ none → enqueue_task_for_mention issue agent comment db ≡ ok (t, db') → ⊥
  unfolding enqueue_task_for_mention
  no_agent_row e h = ground arith

  agent_row :
      (row : AgentRow)
      → db.agents agent ≡ some row
      → enqueue_task_for_mention issue agent comment db ≡ ok (t, db')
      → Enqueued issue agent comment db db' t
  unfolding enqueue_task_for_mention
  agent_row row e h = record {
    row = row;
    had_agent = e;
    not_archived = ground arith;
    has_runtime = ground arith;
    item = ground arith;
    all = ground arith;
  }

  -- A work item is enqueued for a mentioned agent only when the agent is stored, is not archived and
  -- has a runtime; it is then the one new row, queued with the priority of the issue.
  pub enqueue_for_mention-Enqueued :
      enqueue_task_for_mention issue agent comment db ≡ ok (t, db')
      → Enqueued issue agent comment db db' t
  enqueue_for_mention-Enqueued h = elim (Option-cases (db.agents agent)) [
    | inl e ↦ absurd (no_agent_row e h)
    | inr (row, e) ↦ agent_row row e h
  ]

as_mention :
    (issue : Issue) (agent : ℕ) (comment : Option ℕ) (db : Db)
    → issue.assignee_id ≡ some agent
    → enqueue_task_for_issue issue comment db ≡ enqueue_task_for_mention issue agent comment db
unfolding enqueue_task_for_issue enqueue_task_for_mention
as_mention issue agent comment db h = rw h refl

no_assignee_given :
    (issue : Issue) (comment : Option ℕ) (db db' : Db) (t : TaskRow)
    → issue.assignee_id ≡ none
    → enqueue_task_for_issue issue comment db ≡ ok (t, db')
    → ⊥
unfolding enqueue_task_for_issue
no_assignee_given issue comment db db' t e h = ground arith

-- A work item is enqueued for an issue only when it has an assignee, which is stored, is not
-- archived and has a runtime; it is then the one new row, queued with the priority of the issue.
pub enqueue_for_issue-Enqueued :
    (issue : Issue) (comment : Option ℕ) (db db' : Db) (t : TaskRow)
    → enqueue_task_for_issue issue comment db ≡ ok (t, db')
    → (agent : ℕ) × (issue.assignee_id ≡ some agent) × Enqueued issue agent comment db db' t
enqueue_for_issue-Enqueued issue comment db db' t h = elim (Option-cases issue.assignee_id) [
  | inl e ↦ absurd (no_assignee_given issue comment db db' t e h)
  | inr (agent, e) ↦ (
    agent,
    e,
    enqueue_for_mention-Enqueued issue agent comment db db' t
        (sym (as_mention issue agent comment db e) ∙ h),
  )
]

arrived-Life :
    (w j : ℕ) (p : CreateAgentTaskParams) (tasks : ℕ → Option TaskRow)
    → tasks w ≡ none
    → Life (phase (tasks j)) (phase (put w (new_task w p) tasks j))
arrived-Life w j p tasks free = elim (Bool-cases (j == w)) [
  | inl e ↦ rw ((==_iff j w).0 e, ==_refl w, free) (goes_on none none _ (stays none) refl)
  | inr n ↦ rw n (stays (phase (tasks j)))
]

arrived-Evolves : (p : CreateAgentTaskParams) (db : Db) → Sound db → Evolves db (arrived p db)
arrived-Evolves p db s = record {
  sound = arrived-Sound p db s;
  life = λ j. arrived-Life db.next_id j p db.tasks (s.fresh db.next_id (leb_refl db.next_id)).0;
}

created-arrived :
    (p : CreateAgentTaskParams) (db db' : Db) (t : TaskRow)
    → create_agent_task p db ≡ ok (t, db')
    → db' ≡ arrived p db
unfolding create_agent_task
created-arrived p db db' t h = ground arith

pub created-Evolves :
    (p : CreateAgentTaskParams) (db db' : Db) (t : TaskRow)
    → create_agent_task p db ≡ ok (t, db')
    → Sound db
    → Evolves db db'
created-Evolves p db db' t h s =
    subst (Evolves db) (sym (created-arrived p db db' t h)) (arrived-Evolves p db s)

pub Enqueued-Evolves :
    (issue : Issue) (agent : ℕ) (comment : Option ℕ) (db db' : Db) (t : TaskRow)
    → Enqueued issue agent comment db db' t
    → Sound db
    → Evolves db db'
Enqueued-Evolves issue agent comment db db' t q s =
    subst (Evolves db) (sym q.all) (arrived-Evolves (task_params issue agent q.row comment) db s)
