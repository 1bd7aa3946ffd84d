-- ===== src/Loop/Delivery.antt =====
-- Delivery of lifecycle events to the loop: once each, in one transaction with what they change.
use agentra.Base.{
  ℕ, zero, suc, ◌<◌, ◌≡◌, ◌⊎◌, ◌≢◌, Bool-cases, refl, Bool, true, false, [], ◌∷◌, ◌++◌, Option,
  none, some, Text, arith, inl, inr, Option-cases, is_some,
}
use agentra.Store.Rows.{TaskType, TaskRow, EventRow, LoopStatus, LoopRow, Stage}
use agentra.Store.Loops.{task_type_eq}
use agentra.Store.Tx.{Query, Db, Error, Result, ok, err}
use agentra.Store.Consumer.{
  claim_engineering_loop_lifecycle_event, first_claimable, received,
  record_engineering_loop_lifecycle_receipt, record_engineering_loop_lifecycle_failure,
}
use agentra.Loop.Waiting.{waiting, waiting_first, first_claimable-some, claimable_not_received}
use agentra.Loop.Frame.{apply-Kept}
use agentra.Loop.Policy.{TaskResult, task_type_for_stage}
use agentra.Loop.Projector.{apply, process_next, drain, acknowledge, process}

round_cases :
    (r : Result Bool × Db)
    → ((e : Error) × (db : Db) × (r ≡ (err e, db)))
      ⊎ (((db : Db) × (r ≡ (ok false, db))) ⊎ ((db : Db) × (r ≡ (ok true, db))))
round_cases (err e, db) = inl (e, db, refl)
round_cases (ok false, db) = inr (inl (db, refl))
round_cases (ok true, db) = inr (inr (db, refl))

task_type_eq_sound : (a b : TaskType) → task_type_eq a b ≡ true → a ≡ b
task_type_eq_sound TaskType.standard TaskType.standard h = refl
task_type_eq_sound TaskType.loop_plan TaskType.loop_plan h = refl
task_type_eq_sound TaskType.loop_develop TaskType.loop_develop h = refl
task_type_eq_sound TaskType.loop_review TaskType.loop_review h = refl
task_type_eq_sound TaskType.loop_fix TaskType.loop_fix h = refl
task_type_eq_sound a b h = absurd (cc h)

not_current :
    (s : LoopStatus) (o : Option Stage) (type : TaskType)
    → (s ≢ LoopStatus.running)
      ⊎ ((stage : Stage) → o ≡ some stage → type ≢ task_type_for_stage stage)
    → (elim s as (λ _. Bool) [
      | LoopStatus.running ↦ elim o as (λ _. Bool) [
        | none ↦ false
        | some stage ↦ task_type_eq type (task_type_for_stage stage)
      ]
      | _ ↦ false
    ])
      ≡ false
not_current LoopStatus.running none type d = refl
not_current LoopStatus.running (some stage) type (inl n) = absurd (n refl)
not_current LoopStatus.running (some stage) type (inr n) =
    elim (Bool-cases (task_type_eq type (task_type_for_stage stage))) [
      | inl b ↦ absurd (n stage refl (task_type_eq_sound type (task_type_for_stage stage) b))
      | inr b ↦ b
    ]
not_current s o type d = refl

module _ (parse_uuid : Text → Option ℕ) (unmarshal : Text → Option TaskResult) where
  -- With a database that answers, an event of version 1 about a stored work item changes nothing when
  -- its stored loop is not running, or is at no stage, or is at a stage with another type of work item.
  pub apply_not_current :
      (event : EventRow) (task : TaskRow) (l : LoopRow) (loop_id : ℕ) (db : Db)
      → ((q : Query) → db.fails q ≡ false)
      → event.event_version ≡ 1
      → db.tasks event.work_item_id ≡ some task
      → task.loop_id ≡ some loop_id
      → db.loops loop_id ≡ some l
      → (l.status ≢ LoopStatus.running)
        ⊎ ((stage : Stage)
            → l.current_stage ≡ some stage
            → task.task_type ≢ task_type_for_stage stage)
      → apply parse_uuid unmarshal event db ≡ (ok tt, db)
  unfolding apply
  apply_not_current event task l loop_id db nf hv ht hl hr other = ground (
    arith,
    nf Query.get_agent_task,
    nf Query.get_loop_for_update,
    not_current l.status l.current_stage task.task_type other,
  )

  abbrev pub Received : Db → Db → EventRow → Type 0
  Received db db' e = (db'.receipts ≡ db.receipts ++ e.id ∷ []) × (db'.outbox ≡ db.outbox)

  acknowledge-Received :
      (before db db' : Db) (e : EventRow) (b : Bool)
      → received db.receipts e.id ≡ false
      → acknowledge parse_uuid unmarshal before e db ≡ (ok b, db')
      → Received db db' e
  unfolding record_engineering_loop_lifecycle_receipt
  acknowledge-Received before db db' e b hr h = ground arith

  process-Received :
      (db db' : Db) (e : EventRow) (b : Bool)
      → received db.receipts e.id ≡ false
      → process parse_uuid unmarshal db e ≡ (ok b, db')
      → Received db db' e
  unfolding record_engineering_loop_lifecycle_failure
  process-Received db db' e b hr h = ground (
    arith,
    apply-Kept parse_uuid unmarshal e db,
    acknowledge-Received db (apply parse_uuid unmarshal e db).1 db' e b,
  )

  -- A round that took an event took the first claimable one, gave it its receipt, and kept the
  -- outbox.
  pub process_next-Received :
      (db db' : Db)
      → process_next parse_uuid unmarshal db ≡ (ok true, db')
      → (e : EventRow) × (first_claimable db db.outbox ≡ some e) × Received db db' e
  unfolding process_next claim_engineering_loop_lifecycle_event
  process_next-Received db db' h = elim (Option-cases (first_claimable db db.outbox)) [
    | inl n ↦ ground arith
    | inr (e, c) ↦ (
      e,
      c,
      process-Received db db' e true
          (claimable_not_received db e (first_claimable-some db db.outbox e c)) (ground arith),
    )
  ]

  -- A round that stopped at an error left the work items, their runs, the loops, the outbox and the
  -- receipts as they were: only the record of failed deliveries may have changed.
  pub process_next_failed :
      (db db' : Db) (e : Error)
      → process_next parse_uuid unmarshal db ≡ (err e, db')
      → record db' { deliveries = db.deliveries } ≡ db
  unfolding process_next claim_engineering_loop_lifecycle_event
      record_engineering_loop_lifecycle_failure
  process_next_failed db db' e h = elim (Option-cases (first_claimable db db.outbox)) [
    | inl n ↦ ground arith
    | inr (x, c) ↦ ground arith
  ]

  drain_goes_on :
      (db db' : Db) (fuel : ℕ)
      → waiting db.receipts db.outbox < suc fuel
      → process_next parse_uuid unmarshal db ≡ (ok true, db')
      → (e : EventRow) × (first_claimable db db.outbox ≡ some e) × Received db db' e
      → ((db : Db)
          → waiting db.receipts db.outbox < fuel
          → is_some (drain parse_uuid unmarshal fuel db) ≡ true)
      → is_some (drain parse_uuid unmarshal (suc fuel) db) ≡ true
  unfolding drain
  drain_goes_on db db' fuel h p (e, c, so) ends = ground (arith, ends db' fewer)
    where
      fewer : waiting db'.receipts db'.outbox < fuel
      fewer = ground (arith, waiting_first db db.outbox e c, so)

  -- A drain with more rounds than there are events without a receipt comes to an end.
  pub drain_ends :
      (fuel : ℕ) (db : Db)
      → waiting db.receipts db.outbox < fuel
      → is_some (drain parse_uuid unmarshal fuel db) ≡ true
  unfolding drain
  drain_ends zero db h = ground arith
  drain_ends (suc fuel) db h = elim (round_cases (process_next parse_uuid unmarshal db)) [
    | inl (e, db', p) ↦ ground arith
    | inr (inl (db', p)) ↦ ground arith
    | inr (inr (db', p)) ↦
        drain_goes_on db db' fuel h p (process_next-Received db db' p) (drain_ends fuel)
  ]
