-- ===== src/Outbox/Order.antt =====
-- The order of the events of a work item, whatever the workers do.
use agentra.Base.{
  ℕ, ◌+◌, ◌≤◌, ◌≡◌, refl, true, false, List, [], ◌∷◌, ◌++◌, Option, none, some, arith, is_some,
}
use agentra.Store.Rows.{TaskStatus, EventType, EventRow}
use agentra.Store.Tx.{Db}
use agentra.Store.Outbox.{new_event}
use agentra.Store.Leases.{is_waiting, held_up, can_lease, holds, processed, released}
use agentra.Outbox.Orderly.{orderly, change_held-orderly, leased-orderly, tried_append}
use agentra.Outbox.Leasing.{Claimed, claim-Claimed, mark_lem, release_lem}
use agentra.Outbox.Steps.{
  Step, claims, marks, releases, appends, elsewhere, Reach, here, then, append_lem,
}

pub waiting_of :
    (now : ℕ) (fs : List EventRow) (e : EventRow)
    → can_lease now fs e ≡ true
    → (is_waiting e ≡ true) × (held_up fs e ≡ false)
waiting_of now fs e h = (ground arith, ground arith)

Claimed-orderly :
    (x : EventRow) (db db' : Db)
    → Claimed x db db'
    → orderly db.next_id db.outbox ≡ true
    → orderly db'.next_id db'.outbox ≡ true
Claimed-orderly x db db' c o =
    let l = c.lease in
    let (w, h) = waiting_of db.now l.before l.event l.could in
    rw (c.all, l.becomes)
      (leased-orderly db.next_id db.now l.event l.before l.after w h (rw l.was at o))

holds_token :
    (id : ℕ) (token : Option ℕ) (e : EventRow)
    → holds id token e ≡ true
    → is_some e.lock_token ≡ true
holds_token id none e h = cc
holds_token id (some k) e h = ground arith

appended-orderly :
    (n now w : ℕ) (r : Option ℕ) (event : EventType) (s : TaskStatus) (es : List EventRow)
    → orderly n es ≡ true
    → orderly (n + 1) (es ++ new_event n now w r event s ∷ []) ≡ true
unfolding orderly
appended-orderly n now w r event s [] o = refl
appended-orderly n now w r event s (e ∷ es) o = ground (
  arith,
  tried_append e (new_event n now w r event s) es [],
  appended-orderly n now w r event s es,
)

orderly_above : (n m : ℕ) (es : List EventRow) → n ≤ m → orderly n es ≡ true → orderly m es ≡ true
unfolding orderly
orderly_above n m [] l h = refl
orderly_above n m (e ∷ es) l h = ground (arith, orderly_above n m es l)

-- Every statement on the outbox keeps its rows orderly.
Step-orderly :
    (db db' : Db)
    → Step db db'
    → orderly db.next_id db.outbox ≡ true
    → orderly db'.next_id db'.outbox ≡ true
Step-orderly db db' (claims x _ _ h) o = Claimed-orderly x db db' (claim-Claimed x db db' h) o
Step-orderly db db' (marks id token n _ _ h) o = rw (mark_lem id token db db' n h) (
    change_held-orderly (holds id token) (processed db.now) (λ e. refl) (λ e. refl) (λ e. refl)
      (holds_token id token) db.next_id db.outbox o)
Step-orderly db db' (releases id token n _ _ h) o = rw (release_lem id token db db' n h) (
    change_held-orderly (holds id token) (released db.now) (λ e. refl) (λ e. refl) (λ e. refl)
      (holds_token id token) db.next_id db.outbox o)
Step-orderly db db' (appends w r event s e _ _ h) o =
    rw (append_lem w r event s e db db' h)
      (appended-orderly db.next_id db.now w r event s db.outbox o)
Step-orderly db db' (elsewhere _ _ same up) o =
    rw same (orderly_above db.next_id db'.next_id db.outbox up o)

-- In an outbox that starts orderly, such as an empty one, an event of a work item has been tried only
-- when every earlier one is processed or dead-lettered, however the workers and other code interleave.
pub Reach-orderly :
    (db db' : Db)
    → Reach db db'
    → orderly db.next_id db.outbox ≡ true
    → orderly db'.next_id db'.outbox ≡ true
Reach-orderly db _ here o = o
Reach-orderly db db' (then mid _ before step) o =
    Step-orderly mid db' step (Reach-orderly db mid before o)
