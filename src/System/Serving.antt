-- ===== src/System/Serving.antt =====
-- What a request for work is given: the claimable work item of the highest priority.
use agentra.Base.{
  ℕ, ◌≤◌, ◌<◌, ◌≡◌, refl, sym, true, false, List, [], ◌∷◌, Option, none, some, arith, Option-cases,
  Bool-cases, inl, inr, leb, ◌==◌, ==_iff, ==_refl, some_of,
}
use agentra.Store.Rows.{TaskRow, AgentRow}
use agentra.Store.Tx.{Query, Db, ok}
use agentra.Store.Claims.{
  count_for, is_candidate, preferred, first_candidate, claimed, dispatched_task,
}
use agentra.System.Claims.{first_candidate_sound}
use agentra.Queue.Claiming.{claim_task}

better_of :
    (v : ℕ) (u : TaskRow) (o : Option (ℕ × TaskRow))
    → (w : ℕ) × (t : TaskRow) × (preferred v u o ≡ some (w, t)) × (u.priority ≤ t.priority)
better_of v u none = (v, u, refl, omega arith)
better_of v u (some (w, t)) = elim (Bool-cases (leb t.priority u.priority)) [
  | inl e ↦ (v, u, rw e refl, omega arith)
  | inr e ↦ (w, t, rw e refl, ground arith)
]

still_better :
    (v w : ℕ) (x t u : TaskRow)
    → u.priority ≤ t.priority
    → (i : ℕ) × (s : TaskRow) × (preferred v x (some (w, t)) ≡ some (i, s))
      × (u.priority ≤ s.priority)
still_better v w x t u h = elim (Bool-cases (leb t.priority x.priority)) [
  | inl e ↦ (v, x, rw e refl, ground arith)
  | inr e ↦ (w, t, rw e refl, h)
]

-- A candidate among some of the listed work items is no better than the first one.
first_candidate_best :
    (db : Db) (agent : ℕ) (ws : List ℕ) (j : ℕ) (u : TaskRow)
    → some_of (λ i. i == j) ws ≡ true
    → db.tasks j ≡ some u
    → is_candidate db agent u ≡ true
    → (w : ℕ) × (t : TaskRow) × (first_candidate db agent ws ≡ some (w, t))
      × (u.priority ≤ t.priority)
unfolding first_candidate
first_candidate_best db agent [] j u l h c = cc
first_candidate_best db agent (v ∷ vs) j u l h c = elim (Bool-cases (v == j)) [
  | inl e ↦
      let (w, t, p, q) = better_of v u (first_candidate db agent vs) in
      (w, t, rw (first_candidate, (==_iff v j).0 e, h, c, sym ((==_iff v j).0 e)) p, q)
  | inr n ↦
      let (w, t, p, q) = first_candidate_best db agent vs j u (rw n at l) h c in
      elim (Option-cases (db.tasks v)) [
        | inl e ↦ (w, t, rw (first_candidate, e) p, q)
        | inr (x, e) ↦ elim (Bool-cases (is_candidate db agent x)) [
          | inl k ↦
              let (i, s, a, b) = still_better v w x t u q in
              (i, s, rw (first_candidate, e, k, p) a, b)
          | inr k ↦ (w, t, rw (first_candidate, e, k) p, q)
        ]
      ]
]

module _ (agent : ℕ) (row : AgentRow) (db : Db) (nf : (q : Query) → db.fails q ≡ false)
    (ha : db.agents agent ≡ some row)
    (room : count_for agent db.tasks db.task_ids < row.max_concurrent_tasks) where
  claims_first :
      (w : ℕ) (t : TaskRow)
      → first_candidate db agent db.task_ids ≡ some (w, t)
      → claim_task agent db ≡ (
        ok (some (record { task = dispatched_task t db.now db.next_id; run_id = db.next_id })),
        claimed w t db,
      )
  unfolding claim_task
  claims_first w t e = ground (
    arith,
    nf Query.get_agent,
    nf Query.count_running,
    nf Query.claim_task_run,
    nf Query.get_agent_task,
    ==_refl w,
  )

  -- With a database that answers, an agent that is under its limit and has a claimable work item on
  -- the queue is given one of the highest priority among its claimable ones, dispatched as a new run.
  pub claim_task_serves :
      (j : ℕ) (u : TaskRow)
      → some_of (λ i. i == j) db.task_ids ≡ true
      → db.tasks j ≡ some u
      → is_candidate db agent u ≡ true
      → (w : ℕ) × (t : TaskRow) × (db.tasks w ≡ some t)
        × (is_candidate db agent t ≡ true)
        × (u.priority ≤ t.priority)
        × (claim_task agent db ≡ (
          ok (some (record { task = dispatched_task t db.now db.next_id; run_id = db.next_id })),
          claimed w t db,
        ))
  claim_task_serves j u l h c =
      let (w, t, e, q) = first_candidate_best db agent db.task_ids j u l h c in
      let (ht, k) = first_candidate_sound db agent db.task_ids w t e in
      (w, t, ht, k, q, claims_first w t e)
