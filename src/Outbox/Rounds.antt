-- ===== src/Outbox/Rounds.antt =====
-- What a round of the worker leaves behind.
use agentra.Base.{
  ℕ, ◌≡◌, ◌∙◌, refl, ap, subst, Bool, true, not, ◌&&◌, ◌==◌, arith, List, [], ◌∷◌, some, none,
  if◌then◌else◌, opt_eq, is_some, keep, length,
}
use agentra.Store.Rows.{EventRow}
use agentra.Store.Tx.{Tx, Db, Error, Result, ok, err, no_rows}
use agentra.Store.Io.{Io, run}
use agentra.Store.Leases.{
  holds, change_held, count_held, processed, release_lifecycle_outbox_event,
  claim_lifecycle_outbox_event, mark_lifecycle_outbox_event_processed,
}
use agentra.Outbox.Leasing.{claim-Claimed}
use agentra.Outbox.Worker.{found, process_next, process_claimed, acknowledge, release_after}

acknowledge_lem :
    (x : EventRow) (db db' : Db)
    → acknowledge x db ≡ (ok tt, db')
    → (count_held (holds x.id x.lock_token) db.outbox ≡ 1)
      × (db' ≡ record db {
        outbox = change_held (holds x.id x.lock_token) (processed db.now) db.outbox;
      })
unfolding acknowledge mark_lifecycle_outbox_event_processed
acknowledge_lem x db db' h = (ground arith, ground arith)

release_after_fails :
    (x : EventRow) (e : Error) (db db' : Db) → release_after x e db ≡ (ok tt, db') → ⊥
unfolding release_after release_lifecycle_outbox_event
release_after_fails x e db db' h = ground arith

settled_inv :
    (x : EventRow) (r : Result (Unit {0}) × Db) (db' : Db)
    → (elim r.0 as (λ _. Result (Unit {0}) × Db) [
      | ok u ↦ acknowledge x r.1
      | err e ↦ release_after x e r.1
    ])
      ≡ (ok tt, db')
    → (r.0 ≡ ok tt) × (acknowledge x r.1 ≡ (ok tt, db'))
settled_inv x (ok tt, mid) db' h = (refl, h)
settled_inv x (err e, mid) db' h = absurd (release_after_fails x e mid db' h)

finished :
    (r : Result (Unit {0}) × Db) (db' : Db)
    → (elim r.0 as (λ _. Result Bool × Db) [ ok u ↦ (ok true, r.1) | err e ↦ (err e, r.1) ])
      ≡ (ok true, db')
    → r ≡ (ok tt, db')
finished (ok tt, d) db' h = ground arith
finished (err e, d) db' h = absurd (ground arith)

answered_run {ℓ} :
    {A : Type ℓ} (r : Result (A × Db)) (db : Db) (a : A)
    → (elim r as (λ _. Result A × Db) [ ok (b, d) ↦ (ok b, d) | err e ↦ (err e, db) ]).0 ≡ ok a
    → r ≡ ok (a, (elim r as (λ _. Result A × Db) [ ok (b, d) ↦ (ok b, d) | err e ↦ (err e, db) ]).1)
answered_run (ok (b, d)) db a h = ground arith
answered_run (err e) db a h = absurd (ground arith)

found_inv :
    (project : EventRow → Io (Unit {0})) (r : Result EventRow × Db) (db' : Db)
    → found r project ≡ (ok true, db')
    → (x : EventRow) × (r.0 ≡ ok x) × (process_claimed project x r.1 ≡ (ok tt, db'))
found_inv project (ok x, d) db' h = (x, refl, finished (process_claimed project x d) db' h)
found_inv project (err no_rows, d) db' h = absurd (ground arith)
found_inv project (err _, d) db' h = absurd (ground arith)

ran_inv {ℓ} :
    {A : Type ℓ} (m : Tx A) (db : Db) (a : A) → (run m db).0 ≡ ok a → m db ≡ ok (a, (run m db).1)
ran_inv m db a h = answered_run (m db) db a h

-- The row of an event that is not processed and has this lease.
abbrev pub is_leased : ℕ → ℕ → EventRow → Bool
is_leased id token e =
    (e.id == id) && (opt_eq e.lock_token (some token) && not (is_some e.processed_at))

-- The rows after an acknowledgement at the time `now`: the leased row is processed and has no lease.
unfoldable pub acknowledged : ℕ → ℕ → ℕ → List EventRow → List EventRow
acknowledged id token now [] = []
acknowledged id token now (e ∷ es) =
    let rest = acknowledged id token now es in
    if is_leased id token e
    then record e { processed_at = some now; locked_at = none; lock_token = none } ∷ rest
    else e ∷ rest

count_leased :
    (id token : ℕ) (es : List EventRow)
    → length (keep (is_leased id token) es) ≡ count_held (holds id (some token)) es
unfolding count_held
count_leased id token [] = refl
count_leased id token (e ∷ es) = ground (arith, count_leased id token es)

acknowledged_lem :
    (id token now : ℕ) (es : List EventRow)
    → change_held (holds id (some token)) (processed now) es ≡ acknowledged id token now es
unfolding change_held acknowledged
acknowledged_lem id token now [] = refl
acknowledged_lem id token now (e ∷ es) = ground (arith, acknowledged_lem id token now es)

-- A round of the worker that took an event and succeeded claimed it with a new token and projected it;
-- then one row of the outbox, and no more, had its identifier and this token and was not processed, and
-- exactly that row is processed now and has no lease; all else is as the projection left it.
pub process_next-acknowledged :
    (project : EventRow → Io (Unit {0})) (db db' : Db)
    → process_next true project db ≡ (ok true, db')
    → (x : EventRow) × (mid : Db) × (claim_lifecycle_outbox_event db ≡ ok (x, mid))
      × (x.lock_token ≡ some db.next_id)
      × ((project x mid).0 ≡ ok tt)
      × (length (keep (is_leased x.id db.next_id) (project x mid).1.outbox) ≡ 1)
      × (db' ≡ record (project x mid).1 {
        outbox = acknowledged x.id db.next_id (project x mid).1.now (project x mid).1.outbox;
      })
unfolding process_next process_claimed
process_next-acknowledged project db db' h =
    let (x, claimed, rest) = found_inv project (run claim_lifecycle_outbox_event db) db' h in
    let mid = (run claim_lifecycle_outbox_event db).1 in
    let (done, marked) = settled_inv x (project x mid) db' rest in
    let (one, all) = acknowledge_lem x (project x mid).1 db' marked in
    let claims = ran_inv claim_lifecycle_outbox_event db x claimed in
    let token : x.lock_token ≡ some db.next_id =
      ap (λ (e : EventRow). e.lock_token) (claim-Claimed x db mid claims).lease.gives in
    let after = (project x mid).1 in
    (
      x,
      mid,
      claims,
      token,
      done,
      count_leased x.id db.next_id after.outbox
          ∙ subst (λ t. count_held (holds x.id t) after.outbox ≡ 1) token one,
      all
          ∙ ap
              (λ t. record after {
                outbox = change_held (holds x.id t) (processed after.now) after.outbox;
              })
              token
          ∙ ap (λ es. record after { outbox = es })
              (acknowledged_lem x.id db.next_id after.now after.outbox),
    )
