-- ===== src/System/Dispatching.antt =====
-- ClaimTaskForRuntime and the enqueueing of work items (server/internal/service/task.go) keep the
-- invariant, whatever they answer.
use agentra.Base.{
  ℕ, ◌≡◌, ◌∙◌, true, false, ◌||◌, List, [], ◌∷◌, Option, none, some, Text, arith, Option-cases,
  Bool-cases, inl, inr, leb,
}
use agentra.Store.Rows.{TaskStatus, TaskRow, RuntimeRow, status_eq}
use agentra.Store.Tx.{Query, Db, Result, ok, err, no_rows}
use agentra.Store.Io.{Io}
use agentra.Store.Claims.{pending_rows, insert_by_priority, is_pending}
use agentra.Queue.Claiming.{
  ClaimedTask, reject_queued_task, reject_candidate, try_candidate, claim_each,
  claim_task_candidate, claim_task_for_runtime, member, descriptor_of, task_type_text,
}
use agentra.Adapter.Contract.{AdapterDescriptor}
use agentra.Adapter.Stages.{StageRejection, validate_adapter_for_task_type}
use agentra.Lifecycle.Links.{task_linked}
use agentra.System.Sound.{Sound}
use agentra.System.Quiet.{Evolves, Evolves-refl, Evolves-trans}
use agentra.System.Requests.{Kept, duty_of, claim_task_candidate-Kept}
use agentra.System.Rejections.{reject_queued_task-Kept}

-- Each candidate names a stored work item, its agent and its type.
unfoldable pub Current : Db → List TaskRow → Type 0
Current db [] = Unit {0}
Current db (c ∷ cs) = (duty_of (db.tasks c.id) ≡ some (c.agent_id, c.task_type)) × Current db cs

pub Current-Kept : (cs : List TaskRow) (db db' : Db) → Kept db db' → Current db cs → Current db' cs
unfolding Current
Current-Kept [] db db' k h = tt
Current-Kept (c ∷ cs) db db' k (h, rest) = (k.agents c.id ∙ h, Current-Kept cs db db' k rest)

-- Code that keeps the invariant, wherever it starts with candidates that are current.
Safe {ℓ} : {A : Type ℓ} → List TaskRow → Io A → Type 0
Safe cs next = (db : Db) → Sound db → Current db cs → Evolves db (next db).1

after_rejection :
    (db : Db) (cs : List TaskRow) (next : Io (Option ClaimedTask)) (r : Result TaskRow × Db)
    → Safe cs next
    → Evolves db r.1
    → Current r.1 cs
    → Evolves db
        (elim r.0 as (λ _. Result (Option ClaimedTask) × Db) [
          | ok t ↦ next r.1
          | err no_rows ↦ next r.1
          | err e ↦ (err e, r.1)
        ]).1
unfolding Safe
after_rejection db cs next (ok t, d) safe s cur = Evolves-trans db d _ s (safe d s.sound cur)
after_rejection db cs next (err no_rows, d) safe s cur = Evolves-trans db d _ s (safe d s.sound cur)
after_rejection db cs next (err _, d) safe s cur = s

reject_candidate-Evolves :
    (message : Text) (c : TaskRow) (cs : List TaskRow) (next : Io (Option ClaimedTask))
    → Safe cs next
    → Safe cs (reject_candidate message c next)
unfolding Safe
reject_candidate-Evolves message c cs next safe db s cur =
    let k = reject_queued_task-Kept c.id message db s in
    after_rejection db cs next (reject_queued_task c.id message db) safe k.evolves
      (Current-Kept cs db _ k cur)

after_claim :
    (db : Db) (cs : List TaskRow) (next : List ℕ → Io (Option ClaimedTask)) (agent : ℕ)
    (blocked : List ℕ) (r : Result (Option (Option ClaimedTask)) × Db)
    → ((b : List ℕ) → Safe cs (next b))
    → Evolves db r.1
    → Current r.1 cs
    → Evolves db
        (elim r.0 as (λ _. Result (Option ClaimedTask) × Db) [
          | ok claimed ↦
              (elim claimed as (λ _. Io (Option ClaimedTask)) [
                | none ↦ next (agent ∷ blocked)
                | some none ↦ next blocked
                | some (some c) ↦ λ db. (ok (some c), db)
              ])
                r.1
          | err e ↦ (err e, r.1)
        ]).1
unfolding Safe
after_claim db cs next agent blocked (ok none, d) safe s cur =
    Evolves-trans db d _ s (safe (agent ∷ blocked) d s.sound cur)
after_claim db cs next agent blocked (ok (some none), d) safe s cur =
    Evolves-trans db d _ s (safe blocked d s.sound cur)
after_claim db cs next agent blocked (ok (some (some c)), d) safe s cur = s
after_claim db cs next agent blocked (err e, d) safe s cur = s

try_candidate-Evolves :
    (c : TaskRow) (cs : List TaskRow) (next : List ℕ → Io (Option ClaimedTask)) (blocked : List ℕ)
    → ((b : List ℕ) → Safe cs (next b))
    → Safe (c ∷ cs) (try_candidate c next blocked)
unfolding Safe Current
try_candidate-Evolves c cs next blocked safe db s (cur, rest) =
    elim (Bool-cases (member c.agent_id blocked)) [
      | inl m ↦ rw (try_candidate, m) (safe blocked db s rest)
      | inr m ↦
          let k = claim_task_candidate-Kept c db s cur in
          rw (try_candidate, m)
            (after_claim db cs next c.agent_id blocked (claim_task_candidate c db) safe k.evolves
              (Current-Kept cs db _ k rest))
    ]

claim_each-Evolves :
    (describe : StageRejection → Text) (d : AdapterDescriptor) (cs : List TaskRow)
    (blocked : List ℕ)
    → Safe cs (claim_each describe d cs blocked)
unfolding Safe claim_each Current
claim_each-Evolves describe d [] blocked db s cur = Evolves-refl db s
claim_each-Evolves describe d (c ∷ cs) blocked db s (cur, rest) =
    elim (Bool-cases (status_eq c.status TaskStatus.queued)) [
      | inr n ↦ rw (claim_each, n) (claim_each-Evolves describe d cs blocked db s rest)
      | inl q ↦
          elim (Option-cases (validate_adapter_for_task_type d (task_type_text c.task_type))) [
            | inl fits ↦
                rw (claim_each, q, fits)
                  (try_candidate-Evolves c cs (claim_each describe d cs) blocked
                    (claim_each-Evolves describe d cs) db s (cur, rest))
            | inr (r, misfit) ↦
                rw (claim_each, q, misfit)
                  (reject_candidate-Evolves _ c cs (claim_each describe d cs blocked)
                    (claim_each-Evolves describe d cs blocked) db s rest)
          ]
    ]

insert_by_priority-Current :
    (db : Db) (t : TaskRow) (cs : List TaskRow)
    → duty_of (db.tasks t.id) ≡ some (t.agent_id, t.task_type)
    → Current db cs
    → Current db (insert_by_priority t cs)
unfolding insert_by_priority Current
insert_by_priority-Current db t [] h k = (h, tt)
insert_by_priority-Current db t (c ∷ cs) h (k, rest) =
    elim (Bool-cases (leb c.priority t.priority)) [
      | inl e ↦ rw (insert_by_priority, e) (h, (k, rest))
      | inr e ↦ rw (insert_by_priority, e) (k, insert_by_priority-Current db t cs h rest)
    ]

names_own_agent :
    (db : Db) (w : ℕ) (t : TaskRow)
    → task_linked db.runs w (db.tasks w) ≡ true
    → db.tasks w ≡ some t
    → duty_of (db.tasks t.id) ≡ some (t.agent_id, t.task_type)
names_own_agent db w t v h = ground arith

pub pending_rows-Current :
    (db : Db) (runtime : ℕ) (ws : List ℕ) → Sound db → Current db (pending_rows db.tasks runtime ws)
unfolding pending_rows Current
pending_rows-Current db runtime [] s = tt
pending_rows-Current db runtime (w ∷ ws) s = elim (Option-cases (db.tasks w)) [
  | inl e ↦ rw (pending_rows, e) (pending_rows-Current db runtime ws s)
  | inr (t, e) ↦ elim (Bool-cases (is_pending runtime t)) [
    | inl p ↦
        rw (pending_rows, e, p)
          (insert_by_priority-Current db t _ (names_own_agent db w t (s.linked.task w) e)
            (pending_rows-Current db runtime ws s))
    | inr p ↦ rw (pending_rows, e, p) (pending_rows-Current db runtime ws s)
  ]
]

module _ (describe : StageRejection → Text) (runtime : ℕ) (db : Db) where
  no_runtime_row : db.runtimes runtime ≡ none → (claim_task_for_runtime describe runtime db).1 ≡ db
  unfolding claim_task_for_runtime
  no_runtime_row h = ground arith

  no_descriptor :
      (row : RuntimeRow)
      → db.runtimes runtime ≡ some row
      → descriptor_of row ≡ none
      → (claim_task_for_runtime describe runtime db).1 ≡ db
  unfolding claim_task_for_runtime
  no_descriptor row h n = ground arith

  runtime_down :
      (db.fails Query.get_agent_runtime || db.fails Query.list_pending) ≡ true
      → (claim_task_for_runtime describe runtime db).1 ≡ db
  unfolding claim_task_for_runtime
  runtime_down h = ground arith

  pub runtime_claims :
      (row : RuntimeRow) (d : AdapterDescriptor)
      → (db.fails Query.get_agent_runtime || db.fails Query.list_pending) ≡ false
      → db.runtimes runtime ≡ some row
      → descriptor_of row ≡ some d
      → claim_task_for_runtime describe runtime db
        ≡ claim_each describe d (pending_rows db.tasks runtime db.task_ids) [] db
  unfolding claim_task_for_runtime
  runtime_claims row d up h e = ground arith

-- A request of a runtime for work keeps the invariant, whatever it answers.
pub claim_task_for_runtime-Evolves :
    (describe : StageRejection → Text) (runtime : ℕ) (db : Db)
    → Sound db
    → Evolves db (claim_task_for_runtime describe runtime db).1
unfolding Safe
claim_task_for_runtime-Evolves describe runtime db s = elim (Option-cases (db.runtimes runtime)) [
  | inl e ↦ rw (no_runtime_row describe runtime db e) (Evolves-refl db s)
  | inr (row, h) ↦ elim (Option-cases (descriptor_of row)) [
    | inl e ↦ rw (no_descriptor describe runtime db row h e) (Evolves-refl db s)
    | inr (d, e) ↦
        elim (Bool-cases (db.fails Query.get_agent_runtime || db.fails Query.list_pending)) [
          | inl down ↦ rw (runtime_down describe runtime db down) (Evolves-refl db s)
          | inr up ↦ rw (runtime_claims describe runtime db row d up h e) (
              claim_each-Evolves describe d _ [] db s
                (pending_rows-Current db runtime db.task_ids s))
        ]
  ]
]
