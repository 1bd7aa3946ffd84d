-- ===== src/Loop/Frame.antt =====
-- What the projector's code leaves alone: the outbox and the receipts.
use agentra.Base.{ℕ, ◌≡◌, refl, ap, subst, Option, Text, arith, inl, inr, Option-cases}
use agentra.Store.Rows.{TaskType, TaskRow, RunRow, EventRow, LoopRow, FailureReason}
use agentra.Store.Tx.{Db, Result, ok, err, invalid_configuration}
use agentra.Loop.Policy.{TaskResult, Decision, create_task, complete, fail, noop, decide_next_stage}
use agentra.Loop.Coordinator.{
  ResolvedStageAgent, resolve_stage_agent, create_task_for_stage_with_agent,
  fail_invalid_configuration, create_task_for_stage, apply_decision,
}
use agentra.Loop.Projector.{apply, apply_run, apply_current, parsed, reason_of}

-- Two databases with one outbox and the same receipts.
abbrev pub Kept : Db → Db → Type 0
Kept db db' = (db'.receipts ≡ db.receipts) × (db'.outbox ≡ db.outbox)

module _ (parse_uuid : Text → Option ℕ) where
  resolve_kept :
      (l : LoopRow) (type : TaskType) (db : Db) → (resolve_stage_agent parse_uuid l type db).1 ≡ db
  unfolding resolve_stage_agent
  resolve_kept l type db = ground arith

  create-Kept :
      (l : LoopRow) (type : TaskType) (bump : ℕ) (agent : ResolvedStageAgent) (db : Db)
      → Kept db (create_task_for_stage_with_agent parse_uuid l type bump agent db).1
  unfolding create_task_for_stage_with_agent
  create-Kept l type bump agent db = ground arith

  fail-Kept : (l : LoopRow) (db : Db) → Kept db (fail_invalid_configuration l db).1
  unfolding fail_invalid_configuration
  fail-Kept l db = ground arith

  ends-Kept :
      (l : LoopRow) (d : Decision) (db : Db)
      → ((type : TaskType) (bump : ℕ) → d ≡ create_task type bump → ⊥)
      → Kept db (apply_decision parse_uuid l d db).1
  unfolding apply_decision
  ends-Kept l (create_task type bump) db nc = absurd (nc type bump refl)
  ends-Kept l (complete url num branch) db nc = ground arith
  ends-Kept l (fail reason) db nc = ground arith
  ends-Kept l noop db nc = (refl, refl)

  resolved-Kept :
      (l : LoopRow) (type : TaskType) (bump : ℕ) (db : Db) (r : Result ResolvedStageAgent × Db)
      → r.1 ≡ db
      → Kept db
          (elim r.0 as (λ _. Result (Unit {0}) × Db) [
            | ok agent ↦ create_task_for_stage_with_agent parse_uuid l type bump agent r.1
            | err e ↦ (err e, r.1)
          ]).1
  resolved-Kept l type bump db (ok agent, d) e =
      subst (λ x. Kept x (create_task_for_stage_with_agent parse_uuid l type bump agent d).1) e
        (create-Kept l type bump agent d)
  resolved-Kept l type bump db (err f, d) e =
      (ap (λ (x : Db). x.receipts) e, ap (λ (x : Db). x.outbox) e)

  or_fail-Kept :
      (l : LoopRow) (db : Db) (r : Result (Unit {0}) × Db)
      → Kept db r.1
      → Kept db
          (elim r.0 as (λ _. Result (Unit {0}) × Db) [
            | ok u ↦ (ok u, r.1)
            | err e ↦ elim e [
              | invalid_configuration ↦ fail_invalid_configuration l r.1
              | other ↦ (err other, r.1)
            ]
          ]).1
  or_fail-Kept l db (ok u, d) k = k
  or_fail-Kept l db (err e, d) k = ground (arith, k, fail-Kept l d)

  goes_on-Kept :
      (l : LoopRow) (type : TaskType) (bump : ℕ) (db : Db)
      → Kept db (apply_decision parse_uuid l (create_task type bump) db).1
  unfolding apply_decision create_task_for_stage
  goes_on-Kept l type bump db =
      or_fail-Kept l db (create_task_for_stage parse_uuid l type bump db) (
        resolved-Kept l type bump db (resolve_stage_agent parse_uuid l type db)
          (resolve_kept l type db))

  apply_decision-Kept :
      (l : LoopRow) (d : Decision) (db : Db) → Kept db (apply_decision parse_uuid l d db).1
  apply_decision-Kept l (create_task type bump) db = goes_on-Kept l type bump db
  apply_decision-Kept l (complete url num branch) db =
      ends-Kept l (complete url num branch) db (λ type bump e. cc)
  apply_decision-Kept l (fail reason) db = ends-Kept l (fail reason) db (λ type bump e. cc)
  apply_decision-Kept l noop db = ends-Kept l noop db (λ type bump e. cc)

module _ (parse_uuid : Text → Option ℕ) (unmarshal : Text → Option TaskResult) where
  apply_run-Kept :
      (event : EventRow) (l : LoopRow) (r : RunRow) (db : Db)
      → Kept db (apply_run parse_uuid unmarshal event l r db).1
  unfolding apply_run
  apply_run-Kept event l r db = ground (
    arith,
    apply_decision-Kept parse_uuid l (decide_next_stage l (parsed parse_uuid unmarshal r.output))
        db,
    apply_decision-Kept parse_uuid l (fail (reason_of r.error)) db,
  )

  apply_current-Kept :
      (event : EventRow) (task : TaskRow) (l : LoopRow) (db : Db)
      → Kept db (apply_current parse_uuid unmarshal event task l db).1
  unfolding apply_current
  apply_current-Kept event task l db = elim (Option-cases event.run_id) [
    | inl e ↦
        ground
          (arith, apply_decision-Kept parse_uuid l (fail FailureReason.invalid_configuration) db)
    | inr (r, e) ↦ elim (Option-cases (db.runs r)) [
      | inl n ↦
          ground
            (arith, apply_decision-Kept parse_uuid l (fail FailureReason.invalid_configuration) db)
      | inr (run, s) ↦ ground (
        arith,
        apply_decision-Kept parse_uuid l (fail FailureReason.invalid_configuration) db,
        apply_run-Kept event l run db,
      )
    ]
  ]

  -- Applying an event changes neither the outbox nor the receipts.
  pub apply-Kept : (event : EventRow) (db : Db) → Kept db (apply parse_uuid unmarshal event db).1
  unfolding apply
  apply-Kept event db = elim (Option-cases (db.tasks event.work_item_id)) [
    | inl e ↦ ground arith
    | inr (t, e) ↦ elim (Option-cases t.loop_id) [
      | inl n ↦ ground arith
      | inr (i, n) ↦ elim (Option-cases (db.loops i)) [
        | inl m ↦ ground arith
        | inr (l, m) ↦ ground (arith, apply_current-Kept event t l db)
      ]
    ]
  ]
