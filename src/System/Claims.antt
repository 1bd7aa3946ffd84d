-- ===== src/System/Claims.antt =====
-- The requests that take work items from the queue keep the invariant: the limit of an agent and the
-- order within an issue hold whatever is claimed.
use agentra.Base.{
  ℕ, ◌≡◌, refl, sym, true, List, [], ◌∷◌, Option, none, some, arith, Option-cases, Bool-cases, inl,
  inr, leb, ◌⊎◌,
}
use agentra.Store.Rows.{TaskRow}
use agentra.Store.Tx.{answered_query, Query, Db, ok}
use agentra.Store.Claims.{
  is_claimable, is_candidate, claimed, claim_row, claim_candidate, preferred, first_candidate,
  claim_agent_task_run, claim_agent_task_run_by_id,
}

-- What a claiming statement did: it took a claimable work item of the agent.
pub record Took (agent w r : ℕ) (db db' : Db) : Type 0 where
  pub task : TaskRow
  pub had_task : db.tasks w ≡ some task
  pub of_agent : task.agent_id ≡ agent
  pub was_claimable : is_claimable db task ≡ true
  pub run_is : r ≡ db.next_id
  pub all : db' ≡ claimed w task db

none_claimed : (w v r : ℕ) (db db' : Db) → claim_row none w db ≡ ok ((v, r), db') → ⊥
none_claimed w v r db db' h = cc

preferred_cases :
    (v w : ℕ) (u t : TaskRow) (o : Option (ℕ × TaskRow))
    → preferred v u o ≡ some (w, t)
    → ((v ≡ w) × (u ≡ t)) ⊎ (o ≡ some (w, t))
preferred_cases v w u t none h = inl (ground arith, ground arith)
preferred_cases v w u t (some (x, s)) h = elim (Bool-cases (leb s.priority u.priority)) [
  | inl e ↦ inl (ground arith, ground arith)
  | inr e ↦ inr (rw e at h)
]

pub first_candidate_sound :
    (db : Db) (agent : ℕ) (ws : List ℕ) (w : ℕ) (t : TaskRow)
    → first_candidate db agent ws ≡ some (w, t)
    → (db.tasks w ≡ some t) × (is_candidate db agent t ≡ true)
unfolding first_candidate
first_candidate_sound db agent [] w t h = cc
first_candidate_sound db agent (v ∷ vs) w t h = elim (Option-cases (db.tasks v)) [
  | inl e ↦ first_candidate_sound db agent vs w t (rw (first_candidate, e) at h)
  | inr (u, e) ↦ elim (Bool-cases (is_candidate db agent u)) [
    | inl c ↦ elim (preferred_cases v w u t _ (rw (first_candidate, e, c) at h)) [
      | inl (p, q) ↦ (rw (sym p, e, q) refl, rw (sym q) c)
      | inr rest ↦ first_candidate_sound db agent vs w t rest
    ]
    | inr c ↦ first_candidate_sound db agent vs w t (rw (first_candidate, e, c) at h)
  ]
]

candidate_parts :
    (db : Db) (agent : ℕ) (t : TaskRow)
    → is_candidate db agent t ≡ true
    → (t.agent_id ≡ agent) × (is_claimable db t ≡ true)
candidate_parts db agent t h = (ground arith, ground arith)

claim_candidate_inv :
    (o : Option (ℕ × TaskRow)) (db db' : Db) (w r : ℕ)
    → claim_candidate o db ≡ ok ((w, r), db')
    → (t : TaskRow) × (o ≡ some (w, t)) × (r ≡ db.next_id) × (db' ≡ claimed w t db)
claim_candidate_inv none db db' w r h = cc
claim_candidate_inv (some (v, t)) db db' w r h = (t, ground arith, ground arith, ground arith)

-- ClaimAgentTaskRun took one of the agent's claimable work items.
pub claim-Took :
    (agent w r : ℕ) (db db' : Db)
    → claim_agent_task_run agent db ≡ ok ((w, r), db')
    → Took agent w r db db'
unfolding claim_agent_task_run
claim-Took agent w r db db' h =
    let (t, e, er, ed) = claim_candidate_inv (first_candidate db agent db.task_ids) db db' w r (
      answered_query Query.claim_task_run (claim_candidate (first_candidate db agent db.task_ids))
        db ((w, r), db') h) in
    let (ht, c) = first_candidate_sound db agent db.task_ids w t e in
    let (own, free) = candidate_parts db agent t c in
    record { task = t; had_task = ht; of_agent = own; was_claimable = free; run_is = er; all = ed }

claim_row-Took :
    (w v r : ℕ) (t : TaskRow) (db db' : Db)
    → db.tasks w ≡ some t
    → claim_row (some t) w db ≡ ok ((v, r), db')
    → (v ≡ w) × Took t.agent_id w r db db'
claim_row-Took w v r t db db' ht h = (
  ground arith,
  record {
    task = t;
    had_task = ht;
    of_agent = refl;
    was_claimable = ground arith;
    run_is = ground arith;
    all = ground arith;
  },
)

-- ClaimAgentTaskRunByID took the work item that it names.
pub claim_by_id-Took :
    (w v r : ℕ) (db db' : Db)
    → claim_agent_task_run_by_id w db ≡ ok ((v, r), db')
    → (t : TaskRow) × (db.tasks w ≡ some t) × (v ≡ w) × Took t.agent_id w r db db'
unfolding claim_agent_task_run_by_id
claim_by_id-Took w v r db db' h =
    let ran : claim_row (db.tasks w) w db ≡ ok ((v, r), db') =
      answered_query Query.claim_task_run_by_id (claim_row (db.tasks w) w) db ((v, r), db') h in
    elim (Option-cases (db.tasks w)) [
      | inl e ↦ absurd (none_claimed w v r db db' (rw e at ran))
      | inr (t, e) ↦
          let (same, took) = claim_row-Took w v r t db db' e (rw e at ran) in (t, e, same, took)
    ]
