-- ===== src/Outbox/Leasing.antt =====
-- What ClaimLifecycleOutboxEvent, MarkLifecycleOutboxEventProcessed and ReleaseLifecycleOutboxEvent
-- do to the rows of the outbox.
use agentra.Base.{
  ℕ, ◌+◌, ◌≡◌, refl, subst, ap, ◌∙◌, true, List, [], ◌∷◌, ◌++◌, Option, none, some, arith,
  Bool-cases, inl, inr,
}
use agentra.Store.Rows.{EventRow}
use agentra.Store.Tx.{Query, Db, ok, answered_query}
use agentra.Store.Leases.{
  can_lease, leased, lease_first, take_lease, with_first, holds, change_held, processed, released,
  claim_lifecycle_outbox_event, mark_lifecycle_outbox_event_processed,
  release_lifecycle_outbox_event,
}

append_one {ℓ} :
    {A : Type ℓ} (xs : List A) (y : A) (zs : List A) → (xs ++ y ∷ []) ++ zs ≡ xs ++ y ∷ zs
append_one [] y zs = refl
append_one (x ∷ xs) y zs = ap (λ r. x ∷ r) (append_one xs y zs)

-- Where the lease was taken: the row before and after, and the rows around it.
pub record Leased (now token : ℕ) (earlier es : List EventRow) (x : EventRow) (rows : List EventRow)
    : Type 0 where
  pub before : List EventRow
  pub event : EventRow
  pub after : List EventRow
  pub was : es ≡ before ++ event ∷ after
  pub could : can_lease now (earlier ++ before) event ≡ true
  pub gives : x ≡ leased now token event
  pub becomes : rows ≡ before ++ leased now token event ∷ after

append_nil {ℓ} : {A : Type ℓ} (xs : List A) → xs ++ [] ≡ xs
append_nil [] = refl
append_nil (x ∷ xs) = ap (λ r. x ∷ r) (append_nil xs)

with_first_inv :
    (e : EventRow) (o : Option (EventRow × List EventRow)) (x : EventRow) (rows : List EventRow)
    → with_first e o ≡ some (x, rows)
    → (rest : List EventRow) × (o ≡ some (x, rest)) × (rows ≡ e ∷ rest)
with_first_inv e none x rows h = cc
with_first_inv e (some (f, rest)) x rows h = (rest, ground arith, ground arith)

moved_on :
    (now token : ℕ) (e : EventRow) (earlier es : List EventRow) (x : EventRow)
    (rest rows : List EventRow)
    → Leased now token (earlier ++ e ∷ []) es x rest
    → rows ≡ e ∷ rest
    → Leased now token earlier (e ∷ es) x rows
moved_on now token e earlier es x rest rows l all = record {
  before = e ∷ l.before;
  event = l.event;
  after = l.after;
  was = ap (λ r. e ∷ r) l.was;
  could = subst (λ z. can_lease now z l.event ≡ true) (append_one earlier e l.before) l.could;
  gives = l.gives;
  becomes = all ∙ ap (λ r. e ∷ r) l.becomes;
}

lease_first_split :
    (now token : ℕ) (earlier es : List EventRow) (x : EventRow) (rows : List EventRow)
    → lease_first now token earlier es ≡ some (x, rows)
    → Leased now token earlier es x rows
unfolding lease_first
lease_first_split now token earlier [] x rows h = cc
lease_first_split now token earlier (e ∷ es) x rows h =
    elim (Bool-cases (can_lease now earlier e)) [
      | inl c ↦ record {
        before = [];
        event = e;
        after = es;
        was = refl;
        could = rw (append_nil earlier) c;
        gives = ground arith;
        becomes = ground arith;
      }
      | inr c ↦
          let (rest, found, all) = with_first_inv e _ x rows (rw (lease_first, c) at h) in
          moved_on now token e earlier es x rest rows
            (lease_first_split now token (earlier ++ e ∷ []) es x rest found) all
    ]

take_lease_inv :
    (o : Option (EventRow × List EventRow)) (x : EventRow) (db db' : Db)
    → take_lease o db ≡ ok (x, db')
    → (rows : List EventRow) × (o ≡ some (x, rows))
      × (db' ≡ record db { outbox = rows; next_id = db.next_id + 1 })
take_lease_inv none x db db' h = cc
take_lease_inv (some (e, rows)) x db db' h = (rows, ground arith, ground arith)

-- The claimed event is the claimable one, and only its row changed.
pub record Claimed (x : EventRow) (db db' : Db) : Type 0 where
  pub rows : List EventRow
  pub lease : Leased db.now db.next_id [] db.outbox x rows
  pub all : db' ≡ record db { outbox = rows; next_id = db.next_id + 1 }

pub claim-Claimed :
    (x : EventRow) (db db' : Db) → claim_lifecycle_outbox_event db ≡ ok (x, db') → Claimed x db db'
unfolding claim_lifecycle_outbox_event
claim-Claimed x db db' h =
    let (rows, found, all) = take_lease_inv (lease_first db.now db.next_id [] db.outbox) x db db' (
      answered_query Query.claim_event (take_lease (lease_first db.now db.next_id [] db.outbox)) db
        (x, db') h) in
    record {
      rows = rows;
      lease = lease_first_split db.now db.next_id [] db.outbox x rows found;
      all = all;
    }

module _ (id : ℕ) (token : Option ℕ) (db db' : Db) (n : ℕ) where
  pub mark_lem :
      mark_lifecycle_outbox_event_processed id token db ≡ ok (n, db')
      → db' ≡ record db { outbox = change_held (holds id token) (processed db.now) db.outbox }
  unfolding mark_lifecycle_outbox_event_processed
  mark_lem h = ground arith

  pub release_lem :
      release_lifecycle_outbox_event id token db ≡ ok (n, db')
      → db' ≡ record db { outbox = change_held (holds id token) (released db.now) db.outbox }
  unfolding release_lifecycle_outbox_event
  release_lem h = ground arith
