-- ===== src/Outbox/Fencing.antt =====
-- A worker whose lease was taken over can neither acknowledge nor release the event.
use agentra.Base.{
  ℕ, ◌<◌, ◌≡◌, refl, Bool, true, false, not, ◌&&◌, List, [], ◌∷◌, ◌++◌, none, some, arith, some_of,
  ◌==◌,
}
use agentra.Store.Rows.{EventRow}
use agentra.Store.Tx.{Query, Db, ok}
use agentra.Store.Leases.{
  leased, holds, change_held, count_held, processed, released, claim_lifecycle_outbox_event,
  mark_lifecycle_outbox_event_processed, release_lifecycle_outbox_event,
}
use agentra.Outbox.Leasing.{Claimed, claim-Claimed, mark_lem, release_lem}
use agentra.Outbox.Steps.{
  Step, claims, marks, releases, appends, elsewhere, Reach, here, then, append_lem,
}

-- Whether a row answers to a token.
abbrev pub answers_to : ℕ → ℕ → List EventRow → Bool
answers_to id k es = some_of (holds id (some k)) es

module _ (id k : ℕ) where
  change_held-silent :
      (held : EventRow → Bool) (change : EventRow → EventRow)
      → ((e : EventRow) → (change e).lock_token ≡ none)
      → (es : List EventRow) → answers_to id k es ≡ false
      → answers_to id k (change_held held change es) ≡ false
  unfolding change_held
  change_held-silent held change token [] h = h
  change_held-silent held change token (e ∷ es) h =
      ground (arith, token e, change_held-silent held change token es)

  leased-silent :
      (now n : ℕ) (e : EventRow) (fs es : List EventRow)
      → k < n
      → answers_to id k (fs ++ e ∷ es) ≡ false
      → answers_to id k (fs ++ leased now n e ∷ es) ≡ false
  leased-silent now n e [] es l h = ground arith
  leased-silent now n e (f ∷ fs) es l h = ground (arith, leased-silent now n e fs es l)

  appended-silent :
      (e : EventRow) (es : List EventRow)
      → e.lock_token ≡ none
      → answers_to id k es ≡ false
      → answers_to id k (es ++ e ∷ []) ≡ false
  appended-silent e [] t h = ground arith
  appended-silent e (f ∷ fs) t h = ground (arith, appended-silent e fs t)

  Step-silent :
      (db db' : Db)
      → Step db db'
      → k < db.next_id
      → answers_to id k db.outbox ≡ false
      → (k < db'.next_id) × (answers_to id k db'.outbox ≡ false)
  Step-silent db db' (claims x _ _ h) l o =
      let c = claim-Claimed x db db' h in
      let s = c.lease in
      (
        rw c.all (omega arith),
        rw (c.all, s.becomes)
            (leased-silent db.now db.next_id s.event s.before s.after l (rw s.was at o)),
      )
  Step-silent db db' (marks i token n _ _ h) l o =
      rw (mark_lem i token db db' n h)
        (l, change_held-silent (holds i token) (processed db.now) (λ e. refl) db.outbox o)
  Step-silent db db' (releases i token n _ _ h) l o =
      rw (release_lem i token db db' n h)
        (l, change_held-silent (holds i token) (released db.now) (λ e. refl) db.outbox o)
  Step-silent db db' (appends w r event s e _ _ h) l o =
      rw (append_lem w r event s e db db' h) (omega arith, appended-silent _ db.outbox refl o)
  Step-silent db db' (elsewhere _ _ same up) l o = (omega (arith, up, l), rw same o)

  Reach-silent :
      (db db' : Db)
      → Reach db db'
      → k < db.next_id
      → answers_to id k db.outbox ≡ false
      → (k < db'.next_id) × (answers_to id k db'.outbox ≡ false)
  Reach-silent db _ here l o = (l, o)
  Reach-silent db db' (then mid _ before step) l o =
      let (l', o') = Reach-silent db mid before l o in Step-silent mid db' step l' o'

unfoldable pub unique_ids : List EventRow → Bool
unique_ids [] = true
unique_ids (e ∷ es) = not (some_of (λ f. f.id == e.id) es) && unique_ids es

no_id_silent :
    (id k : ℕ) (es : List EventRow)
    → some_of (λ f. f.id == id) es ≡ false
    → answers_to id k es ≡ false
no_id_silent id k [] h = refl
no_id_silent id k (e ∷ es) h = ground (arith, no_id_silent id k es)

named_later :
    (id : ℕ) (e : EventRow) (fs es : List EventRow)
    → some_of (λ f. f.id == id) (fs ++ e ∷ es) ≡ false
    → (e.id == id) ≡ false
named_later id e [] es h = ground arith
named_later id e (f ∷ fs) es h = ground (arith, named_later id e fs es)

other_row_silent : (id k : ℕ) (f : EventRow) → (id == f.id) ≡ false → holds id (some k) f ≡ false
other_row_silent id k f h = ground arith

taken_over-silent :
    (k now n : ℕ) (e : EventRow) (fs es : List EventRow)
    → k < n
    → unique_ids (fs ++ e ∷ es) ≡ true
    → answers_to e.id k (fs ++ leased now n e ∷ es) ≡ false
unfolding unique_ids
taken_over-silent k now n e [] es l u = ground (arith, no_id_silent e.id k es)
taken_over-silent k now n e (f ∷ fs) es l u = ground (
  arith,
  named_later f.id e fs es,
  other_row_silent e.id k f,
  taken_over-silent k now n e fs es l,
)

silent_unchanged :
    (held : EventRow → Bool) (change : EventRow → EventRow) (es : List EventRow)
    → some_of held es ≡ false
    → (change_held held change es ≡ es) × (count_held held es ≡ 0)
unfolding change_held count_held
silent_unchanged held change [] h = (refl, refl)
silent_unchanged held change (e ∷ es) h =
    let (a, b) = silent_unchanged held change es (ground arith) in
    (ground (arith, a), ground (arith, b))

module _ (id k : ℕ) (db : Db) (nf : (q : Query) → db.fails q ≡ false)
    (silent : answers_to id k db.outbox ≡ false) where
  mark_refused : mark_lifecycle_outbox_event_processed id (some k) db ≡ ok (0, db)
  unfolding mark_lifecycle_outbox_event_processed
  mark_refused =
      let (a, b) = silent_unchanged (holds id (some k)) (processed db.now) db.outbox silent in
      ground (arith, nf Query.mark_processed, a, b)

  release_refused : release_lifecycle_outbox_event id (some k) db ≡ ok (0, db)
  unfolding release_lifecycle_outbox_event
  release_refused =
      let (a, b) = silent_unchanged (holds id (some k)) (released db.now) db.outbox silent in
      ground (arith, nf Query.release_event, a, b)

Claimed-silent :
    (k : ℕ) (x : EventRow) (db db' : Db)
    → Claimed x db db'
    → k < db.next_id
    → unique_ids db.outbox ≡ true
    → (k < db'.next_id) × (answers_to x.id k db'.outbox ≡ false)
Claimed-silent k x db db' c l u =
    let s = c.lease in
    (
      rw c.all (omega (arith, l)),
      rw (c.all, s.becomes, s.gives)
          (taken_over-silent k db.now db.next_id s.event s.before s.after l (rw s.was at u)),
    )

-- Once an event has been claimed from an outbox with one row to an identifier, every token that was
-- given before is void: in whatever database the workers and other code reach from there, and that
-- answers, acknowledging or releasing the event with that token changes no row.
pub fenced :
    (k : ℕ) (x : EventRow) (db db' later : Db)
    → claim_lifecycle_outbox_event db ≡ ok (x, db')
    → unique_ids db.outbox ≡ true
    → k < db.next_id
    → Reach db' later
    → ((q : Query) → later.fails q ≡ false)
    → (mark_lifecycle_outbox_event_processed x.id (some k) later ≡ ok (0, later))
      × (release_lifecycle_outbox_event x.id (some k) later ≡ ok (0, later))
fenced k x db db' later h u l steps nf =
    let (below, silent) = Claimed-silent k x db db' (claim-Claimed x db db' h) l u in
    let (_, still) = Reach-silent x.id k db' later steps below silent in
    (mark_refused x.id k later nf still, release_refused x.id k later nf still)
