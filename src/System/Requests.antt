-- ===== src/System/Requests.antt =====
-- ClaimTask and ClaimTaskForRuntime (server/internal/service/task.go) keep the invariant, whatever
-- they answer.
use agentra.Base.{
  ℕ, ◌<◌, ◌≡◌, refl, sym, subst, true, false, ◌||◌, Option, none, some, arith, Option-cases,
  Bool-cases, inl, inr, leb, ◌⊎◌,
}
use agentra.Store.Rows.{TaskStatus, TaskType, TaskRow, AgentRow}
use agentra.Store.Tx.{Query, Tx, Db, Result, Error, ok, err, no_rows, put}
use agentra.Store.Claims.{
  count_for, is_claimable, dispatched_task, claim_agent_task_run, claim_agent_task_run_by_id,
}
use agentra.Queue.Claiming.{
  claimed_or_none, with_capacity, claim_task, claim_task_candidate, flatten,
}
use agentra.System.Sound.{Sound}
use agentra.System.Quiet.{Evolves, Evolves-refl}
use agentra.System.Callbacks.{put-Life}
use agentra.Lifecycle.Phases.{at_most_one}
use agentra.System.Growth.{claimed-Sound}
use agentra.System.Claims.{Took, claim-Took, claim_by_id-Took}

module _ (claim : Tx (ℕ × ℕ)) (db : Db) where
  claimed_or_none_ok :
      (w r : ℕ) (db' : Db) → claim db ≡ ok ((w, r), db') → (claimed_or_none claim db).1 ≡ db'
  unfolding claimed_or_none
  claimed_or_none_ok w r db' h = ground arith

  claimed_or_none_err : (e : Error) → claim db ≡ err e → (claimed_or_none claim db).1 ≡ db
  unfolding claimed_or_none
  claimed_or_none_err no_rows h = ground arith
  claimed_or_none_err _ h = ground arith

  with_capacity_refused :
      (agent : ℕ)
      → ((row : AgentRow)
          → db.agents agent ≡ some row
          → leb row.max_concurrent_tasks (count_for agent db.tasks db.task_ids) ≡ true)
      → (with_capacity agent claim db).1 ≡ db
  unfolding with_capacity
  with_capacity_refused agent h = elim (Option-cases (db.agents agent)) [
    | inl e ↦ ground arith
    | inr (row, e) ↦ ground (arith, h row e)
  ]

  with_capacity_down :
      (agent : ℕ)
      → (db.fails Query.get_agent || db.fails Query.count_running) ≡ true
      → (with_capacity agent claim db).1 ≡ db
  unfolding with_capacity
  with_capacity_down agent h = ground arith

  with_capacity_open :
      (agent : ℕ) (row : AgentRow)
      → (db.fails Query.get_agent || db.fails Query.count_running) ≡ false
      → db.agents agent ≡ some row
      → leb row.max_concurrent_tasks (count_for agent db.tasks db.task_ids) ≡ false
      → (with_capacity agent claim db).1 ≡ (claimed_or_none claim db).1
  unfolding with_capacity
  with_capacity_open agent row nf h e = ground arith

result_of {ℓ} : {A : Type ℓ} (r : Result A) → ((a : A) × (r ≡ ok a)) ⊎ ((e : Error) × (r ≡ err e))
result_of (ok a) = inl (a, refl)
result_of (err e) = inr (e, refl)

leb-false : (a b : ℕ) → leb a b ≡ false → b < a
leb-false a b h = ground arith

room_of :
    (agent other : ℕ) (row row' : AgentRow) (db : Db)
    → other ≡ agent
    → db.agents agent ≡ some row
    → db.agents other ≡ some row'
    → count_for agent db.tasks db.task_ids < row.max_concurrent_tasks
    → count_for other db.tasks db.task_ids < row'.max_concurrent_tasks
room_of agent other row row' db same h k room = rw same (ground (arith, same))

no_agent :
    (agent : ℕ) (row : AgentRow) (db : Db) → db.agents agent ≡ none → db.agents agent ≡ some row → ⊥
no_agent agent row db h k = cc

same_limit :
    (agent : ℕ) (row other : AgentRow) (db : Db)
    → db.agents agent ≡ some row
    → db.agents agent ≡ some other
    → leb row.max_concurrent_tasks (count_for agent db.tasks db.task_ids) ≡ true
    → leb other.max_concurrent_tasks (count_for agent db.tasks db.task_ids) ≡ true
same_limit agent row other db h k full = ground arith

-- Whose a work item is and of which type, which never change.
abbrev pub duty_of : Option TaskRow → Option (ℕ × TaskType)
duty_of none = none
duty_of (some t) = some (t.agent_id, t.task_type)

claimable_moves :
    (db : Db) (t : TaskRow)
    → is_claimable db t ≡ true
    → at_most_one t.status TaskStatus.dispatched ≡ true
claimable_moves db t h = ground arith

-- The invariant holds, and the work items have the agents and types that they had.
pub record Kept (db db' : Db) : Type 0 where
  pub evolves : Evolves db db'
  pub agents : (j : ℕ) → duty_of (db'.tasks j) ≡ duty_of (db.tasks j)

pub same-Kept : (db : Db) → Sound db → Kept db db
same-Kept db s = record { evolves = Evolves-refl db s; agents = λ j. refl }

pub put_agent :
    (w j : ℕ) (t t' : TaskRow) (tasks : ℕ → Option TaskRow)
    → tasks w ≡ some t
    → t'.agent_id ≡ t.agent_id
    → t'.task_type ≡ t.task_type
    → duty_of (put w t' tasks j) ≡ duty_of (tasks j)
put_agent w j t t' tasks h same type = ground arith

module _ (agent : ℕ) (claim : Tx (ℕ × ℕ)) (db : Db) (s : Sound db)
    (took : (w r : ℕ) (db' : Db) → claim db ≡ ok ((w, r), db') → Took agent w r db db') where
  taken-Kept :
      (row : AgentRow) (w r : ℕ) (db' : Db)
      → db.agents agent ≡ some row
      → count_for agent db.tasks db.task_ids < row.max_concurrent_tasks
      → claim db ≡ ok ((w, r), db')
      → Kept db db'
  taken-Kept row w r db' ha room h =
      let t = took w r db' h in
      subst (Kept db) (sym t.all) (record {
        evolves = record {
          sound =
              claimed-Sound w t.task db t.had_task t.was_claimable
                (λ other e. room_of agent t.task.agent_id row other db t.of_agent ha e room) s;
          life = λ j.
              put-Life w j (dispatched_task t.task db.now db.next_id) t.task db.tasks t.had_task
                (claimable_moves db t.task t.was_claimable);
        };
        agents = λ j.
            put_agent w j t.task (dispatched_task t.task db.now db.next_id) db.tasks t.had_task refl
              refl;
      })

  claimed_or_none-Kept :
      (row : AgentRow)
      → db.agents agent ≡ some row
      → count_for agent db.tasks db.task_ids < row.max_concurrent_tasks
      → Kept db (claimed_or_none claim db).1
  claimed_or_none-Kept row ha room = elim (result_of (claim db)) [
    | inl (((w, r), db'), h) ↦
        rw (claimed_or_none_ok claim db w r db' h) (taken-Kept row w r db' ha room h)
    | inr (e, h) ↦ rw (claimed_or_none_err claim db e h) (same-Kept db s)
  ]

  pub with_capacity-Kept : Kept db (with_capacity agent claim db).1
  with_capacity-Kept = elim (Option-cases (db.agents agent)) [
    | inl e ↦
        rw (with_capacity_refused claim db agent (λ row h. absurd (no_agent agent row db e h)))
          (same-Kept db s)
    | inr (row, ha) ↦
        elim (Bool-cases (leb row.max_concurrent_tasks (count_for agent db.tasks db.task_ids))) [
          | inl full ↦
              rw
                (with_capacity_refused claim db agent
                  (λ other h. same_limit agent row other db ha h full))
                (same-Kept db s)
          | inr room ↦
              elim (Bool-cases (db.fails Query.get_agent || db.fails Query.count_running)) [
                | inl down ↦ rw (with_capacity_down claim db agent down) (same-Kept db s)
                | inr up ↦
                    rw (with_capacity_open claim db agent row up ha room)
                      (claimed_or_none-Kept row ha (leb-false _ _ room))
              ]
        ]
  ]

then_same {ℓ κ} :
    {A : Type ℓ} {B : Type κ} (f : A → B) (r : Result A × Db)
    → (elim r.0 as (λ _. Result B × Db) [ ok a ↦ (ok (f a), r.1) | err e ↦ (err e, r.1) ]).1 ≡ r.1
then_same f (ok a, d) = refl
then_same f (err e, d) = refl

-- A request of an agent for work keeps the invariant, whatever it answers.
pub claim_task-Evolves : (agent : ℕ) (db : Db) → Sound db → Evolves db (claim_task agent db).1
unfolding claim_task
claim_task-Evolves agent db s =
    rw (then_same flatten (with_capacity agent (claim_agent_task_run agent) db))
      (with_capacity-Kept agent (claim_agent_task_run agent) db s
        (λ w r db' h. claim-Took agent w r db db' h)).evolves

same_agent :
    (c : TaskRow) (t : TaskRow) (db : Db)
    → duty_of (db.tasks c.id) ≡ some (c.agent_id, c.task_type)
    → db.tasks c.id ≡ some t
    → t.agent_id ≡ c.agent_id
same_agent c t db h e = ground arith

-- So does the claim of one candidate, when its work item has the agent that the candidate names.
pub claim_task_candidate-Kept :
    (c : TaskRow) (db : Db)
    → Sound db
    → duty_of (db.tasks c.id) ≡ some (c.agent_id, c.task_type)
    → Kept db (claim_task_candidate c db).1
unfolding claim_task_candidate
claim_task_candidate-Kept c db s cur =
    with_capacity-Kept c.agent_id (claim_agent_task_run_by_id c.id) db s (λ w r db' h.
      let (t, e, same, took) = claim_by_id-Took c.id w r db db' h in
      subst (λ a. Took a w r db db') (same_agent c t db cur e)
        (subst (λ v. Took t.agent_id v r db db') (sym same) took))
