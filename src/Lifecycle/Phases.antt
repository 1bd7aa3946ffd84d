-- ===== src/Lifecycle/Phases.antt =====
-- The abstract machine of a work item that the services implement
-- (server/internal/service/run_lifecycle.go, task.go): its phases and the moves between them. A
-- missing row is the phase before the first.
use agentra.Base.{
  Bool-cases, inl, inr, subst, ◌≡◌, refl, Bool, true, false, ◌||◌, Option, none, some, arith,
}
use agentra.Store.Rows.{TaskStatus, TaskRow, status_eq}

-- One move. Nothing leads out of `completed` and `cancelled`, and only `queued` leads to `dispatched`.
abbrev moves_from : TaskStatus → TaskStatus → Bool
moves_from TaskStatus.queued TaskStatus.dispatched = true
moves_from TaskStatus.queued TaskStatus.failed = true
moves_from TaskStatus.queued TaskStatus.cancelled = true
moves_from TaskStatus.dispatched TaskStatus.running = true
moves_from TaskStatus.dispatched TaskStatus.failed = true
moves_from TaskStatus.dispatched TaskStatus.queued = true
moves_from TaskStatus.dispatched TaskStatus.cancelled = true
moves_from TaskStatus.running TaskStatus.completed = true
moves_from TaskStatus.running TaskStatus.failed = true
moves_from TaskStatus.running TaskStatus.queued = true
moves_from TaskStatus.running TaskStatus.cancelled = true
moves_from TaskStatus.failed TaskStatus.queued = true
moves_from _ _ = false

abbrev pub moves : Option TaskStatus → Option TaskStatus → Bool
moves none none = false
moves none (some s) = status_eq s TaskStatus.queued
moves (some s) none = false
moves (some s) (some s') = moves_from s s'

-- Any number of moves.
pub data Life : Option TaskStatus → Option TaskStatus → Type 0 where
  stays : (a : Option TaskStatus) → Life a a
  goes_on : (a b c : Option TaskStatus) → Life a b → moves b c ≡ true → Life a c

pub Life-trans : (a b c : Option TaskStatus) → Life a b → Life b c → Life a c
Life-trans a b _ p (stays _) = p
Life-trans a b _ p (goes_on _ x c q m) = goes_on a x c (Life-trans a b x p q) m

-- A move, or none.
abbrev pub at_most_one : TaskStatus → TaskStatus → Bool
at_most_one s s' = moves_from s s' || status_eq s s'

status_eq_same : (s s' : TaskStatus) → status_eq s s' ≡ true → s ≡ s'
status_eq_same s s' h = ground arith

pub at_most_one-Life : (s s' : TaskStatus) → at_most_one s s' ≡ true → Life (some s) (some s')
at_most_one-Life s s' h = elim (Bool-cases (moves_from s s')) [
  | inl m ↦ goes_on (some s) (some s) (some s') (stays (some s)) m
  | inr n ↦ subst (λ x. Life (some s) (some x)) (status_eq_same s s' (rw n at h)) (stays (some s))
]

abbrev pub phase : Option TaskRow → Option TaskStatus
phase none = none
phase (some t) = some t.status

abbrev pub is_final : Option TaskStatus → Bool
is_final (some TaskStatus.completed) = true
is_final (some TaskStatus.cancelled) = true
is_final _ = false

final_moves : (a b : Option TaskStatus) → is_final a ≡ true → moves a b ≡ true → ⊥
final_moves a b h m = ground arith

-- A completed or cancelled work item stays so.
pub final-Life : (a b : Option TaskStatus) → is_final a ≡ true → Life a b → b ≡ a
final-Life a _ h (stays _) = refl
final-Life a _ h (goes_on _ x c p m) = absurd (final_moves x c (rw (final-Life a x h p) h) m)
