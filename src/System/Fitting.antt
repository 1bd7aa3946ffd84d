-- ===== src/System/Fitting.antt =====
-- ClaimTaskForRuntime (server/internal/service/task.go) hands out no work item that the adapter of the
-- runtime cannot run.
use agentra.Base.{
  ℕ, ◌≡◌, refl, sym, subst, bytes, ◌∙◌, true, ◌||◌, List, [], ◌∷◌, ◌++◌, Option, none, some, Text,
  arith, Option-cases, Bool-cases, inl, inr, ==_refl,
}
use agentra.Store.Rows.{TaskStatus, TaskRow, RuntimeRow, status_eq}
use agentra.Store.Tx.{Query, Db, Result, ok, err, no_rows}
use agentra.Store.Io.{Io}
use agentra.Queue.Claiming.{
  ClaimedTask, reject_queued_task, try_candidate, claim_each, claim_task_candidate,
  claim_task_for_runtime, member, descriptor_of, task_type_text,
}
use agentra.Adapter.Contract.{AdapterDescriptor}
use agentra.Adapter.Stages.{StageRejection, validate_adapter_for_task_type}
use agentra.System.Sound.{Sound}
use agentra.System.Requests.{duty_of, claim_task_candidate-Kept}
use agentra.System.Rejections.{reject_queued_task-Kept}
use agentra.System.Dispatching.{Current, Current-Kept, pending_rows-Current, runtime_claims}

module _ (c : TaskRow) (db d : Db) (x : ClaimedTask) where
  candidate_missing : db.tasks c.id ≡ none → claim_task_candidate c db ≡ (ok (some (some x)), d) → ⊥
  unfolding claim_task_candidate
  candidate_missing e h = ground arith

  candidate_row :
      (t : TaskRow)
      → db.tasks c.id ≡ some t
      → claim_task_candidate c db ≡ (ok (some (some x)), d)
      → x.task.task_type ≡ t.task_type
  unfolding claim_task_candidate
  candidate_row t e h = ground (arith, ==_refl c.id)

duty_type :
    (c t : TaskRow) (o : Option TaskRow)
    → duty_of o ≡ some (c.agent_id, c.task_type)
    → o ≡ some t
    → t.task_type ≡ c.task_type
duty_type c t o h e = ground arith

candidate_type :
    (c : TaskRow) (db d : Db) (x : ClaimedTask)
    → duty_of (db.tasks c.id) ≡ some (c.agent_id, c.task_type)
    → claim_task_candidate c db ≡ (ok (some (some x)), d)
    → x.task.task_type ≡ c.task_type
candidate_type c db d x cur h = elim (Option-cases (db.tasks c.id)) [
  | inl e ↦ absurd (candidate_missing c db d x e h)
  | inr (t, e) ↦ candidate_row c db d x t e h ∙ duty_type c t _ cur e
]

-- Whether the adapter can run what was claimed.
Fits : AdapterDescriptor → ClaimedTask → Type 0
Fits d x = validate_adapter_for_task_type d (task_type_text x.task.task_type) ≡ none

-- Code that claims only what fits, wherever it starts with candidates that are current.
Fitting : AdapterDescriptor → List TaskRow → Io (Option ClaimedTask) → Type 0
Fitting d cs next =
    (db db' : Db) (x : ClaimedTask)
    → Sound db
    → Current db cs
    → next db ≡ (ok (some x), db')
    → Fits d x

same_claimed :
    (c x : ClaimedTask) (m db' : Db)
    → ◌≡◌ {A = Result (Option ClaimedTask) × Db} (ok (some c), m) (ok (some x), db')
    → c ≡ x
same_claimed c x m db' h = ground arith

own_type-Fits :
    (d : AdapterDescriptor) (c : TaskRow) (y : ClaimedTask)
    → y.task.task_type ≡ c.task_type
    → validate_adapter_for_task_type d (task_type_text c.task_type) ≡ none
    → Fits d y
unfolding Fits
own_type-Fits d c y e h = rw e h

module _ (d : AdapterDescriptor) (cs : List TaskRow) (x : ClaimedTask) (db' : Db) where
  after_rejection-Fitting :
      (next : Io (Option ClaimedTask)) (r : Result TaskRow × Db)
      → Fitting d cs next
      → Sound r.1
      → Current r.1 cs
      → (elim r.0 as (λ _. Result (Option ClaimedTask) × Db) [
        | ok t ↦ next r.1
        | err no_rows ↦ next r.1
        | err e ↦ (err e, r.1)
      ])
        ≡ (ok (some x), db')
      → Fits d x
  unfolding Fitting
  after_rejection-Fitting next (ok t, m) fit s cur h = fit m db' x s cur h
  after_rejection-Fitting next (err no_rows, m) fit s cur h = fit m db' x s cur h
  after_rejection-Fitting next (err _, m) fit s cur h = absurd (ground arith)

  after_claim-Fitting :
      (next : List ℕ → Io (Option ClaimedTask)) (agent : ℕ) (blocked : List ℕ)
      (r : Result (Option (Option ClaimedTask)) × Db)
      → ((b : List ℕ) → Fitting d cs (next b))
      → ((y : ClaimedTask) (m : Db) → r ≡ (ok (some (some y)), m) → Fits d y)
      → Sound r.1
      → Current r.1 cs
      → (elim r.0 as (λ _. Result (Option ClaimedTask) × Db) [
        | ok claimed ↦
            (elim claimed as (λ _. Io (Option ClaimedTask)) [
              | none ↦ next (agent ∷ blocked)
              | some none ↦ next blocked
              | some (some c) ↦ λ db. (ok (some c), db)
            ])
              r.1
        | err e ↦ (err e, r.1)
      ])
        ≡ (ok (some x), db')
      → Fits d x
  unfolding Fitting
  after_claim-Fitting next agent blocked (ok none, m) fit own s cur h =
      fit (agent ∷ blocked) m db' x s cur h
  after_claim-Fitting next agent blocked (ok (some none), m) fit own s cur h =
      fit blocked m db' x s cur h
  after_claim-Fitting next agent blocked (ok (some (some c)), m) fit own s cur h =
      subst (Fits d) (same_claimed c x m db' h) (own c m refl)
  after_claim-Fitting next agent blocked (err e, m) fit own s cur h = absurd (ground arith)

try_candidate-Fitting :
    (d : AdapterDescriptor) (c : TaskRow) (cs : List TaskRow)
    (next : List ℕ → Io (Option ClaimedTask)) (blocked : List ℕ)
    → validate_adapter_for_task_type d (task_type_text c.task_type) ≡ none
    → ((b : List ℕ) → Fitting d cs (next b))
    → Fitting d (c ∷ cs) (try_candidate c next blocked)
unfolding Fitting Current
try_candidate-Fitting d c cs next blocked ok_type fit db db' x s (cur, rest) h =
    elim (Bool-cases (member c.agent_id blocked)) [
      | inl m ↦ fit blocked db db' x s rest (rw (try_candidate, m) at h)
      | inr m ↦
          let k = claim_task_candidate-Kept c db s cur in
          after_claim-Fitting d cs x db' next c.agent_id blocked (claim_task_candidate c db) fit
            (λ y mid e. own_type-Fits d c y (candidate_type c db mid y cur e) ok_type)
            k.evolves.sound (Current-Kept cs db _ k rest) (rw (try_candidate, m) at h)
    ]

claim_each-Fitting :
    (describe : StageRejection → Text) (d : AdapterDescriptor) (cs : List TaskRow)
    (blocked : List ℕ)
    → Fitting d cs (claim_each describe d cs blocked)
unfolding Fitting claim_each Current
claim_each-Fitting describe d [] blocked db db' x s cur h = absurd (ground arith)
claim_each-Fitting describe d (c ∷ cs) blocked db db' x s (cur, rest) h =
    elim (Bool-cases (status_eq c.status TaskStatus.queued)) [
      | inr n ↦ claim_each-Fitting describe d cs blocked db db' x s rest (rw (claim_each, n) at h)
      | inl q ↦
          elim (Option-cases (validate_adapter_for_task_type d (task_type_text c.task_type))) [
            | inl fits ↦
                try_candidate-Fitting d c cs (claim_each describe d cs) blocked fits
                  (claim_each-Fitting describe d cs) db db' x s (cur, rest)
                  (rw (claim_each, q, fits) at h)
            | inr (r, misfit) ↦
                let k =
                  reject_queued_task-Kept c.id
                    (bytes "task rejected before dispatch: " ++ describe r) db s in
                after_rejection-Fitting d cs x db' (claim_each describe d cs blocked)
                  (reject_queued_task c.id (bytes "task rejected before dispatch: " ++ describe r)
                    db)
                  (claim_each-Fitting describe d cs blocked) k.evolves.sound
                  (Current-Kept cs db _ k rest) (rw (claim_each, q, misfit) at h)
          ]
    ]

module _ (describe : StageRejection → Text) (runtime : ℕ) (db db' : Db) (x : ClaimedTask)
    (h : claim_task_for_runtime describe runtime db ≡ (ok (some x), db')) where
  served_runtime : db.runtimes runtime ≡ none → ⊥
  unfolding claim_task_for_runtime
  served_runtime e = ground arith

  served_descriptor :
      (row : RuntimeRow) → db.runtimes runtime ≡ some row → descriptor_of row ≡ none → ⊥
  unfolding claim_task_for_runtime
  served_descriptor row e n = ground arith

  served_up : (db.fails Query.get_agent_runtime || db.fails Query.list_pending) ≡ true → ⊥
  unfolding claim_task_for_runtime
  served_up down = ground arith

-- A work item that a runtime is given is of a type that the adapter of the runtime's provider can
-- run, by the policy of the stages, provided the invariant holds.
pub claim_task_for_runtime_fits :
    (describe : StageRejection → Text) (runtime : ℕ) (db db' : Db) (x : ClaimedTask)
    → Sound db
    → claim_task_for_runtime describe runtime db ≡ (ok (some x), db')
    → (row : RuntimeRow) × (d : AdapterDescriptor) × (db.runtimes runtime ≡ some row)
      × (descriptor_of row ≡ some d)
      × (validate_adapter_for_task_type d (task_type_text x.task.task_type) ≡ none)
unfolding Fitting Fits
claim_task_for_runtime_fits describe runtime db db' x s h =
    elim (Option-cases (db.runtimes runtime)) [
      | inl e ↦ absurd (served_runtime describe runtime db db' x h e)
      | inr (row, e) ↦ elim (Option-cases (descriptor_of row)) [
        | inl n ↦ absurd (served_descriptor describe runtime db db' x h row e n)
        | inr (d, f) ↦
            elim (Bool-cases (db.fails Query.get_agent_runtime || db.fails Query.list_pending)) [
              | inl down ↦ absurd (served_up describe runtime db db' x h down)
              | inr up ↦ (
                row,
                d,
                e,
                f,
                claim_each-Fitting describe d _ [] db db' x s
                    (pending_rows-Current db runtime db.task_ids s)
                    (sym (runtime_claims describe runtime db row d up e f) ∙ h),
              )
            ]
      ]
    ]
