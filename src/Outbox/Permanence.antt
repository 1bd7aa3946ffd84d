-- ===== src/Outbox/Permanence.antt =====
-- The processed events of the outbox, under the statements of the workers and other code.
use agentra.Base.{
  ℕ, ◌≡◌, Bool, true, false, ◌&&◌, List, [], ◌∷◌, ◌++◌, Option, none, some, arith, Bool-cases, inl,
  inr, is_some, some_of,
}
use agentra.Store.Rows.{EventRow}
use agentra.Store.Tx.{Db}
use agentra.Store.Leases.{is_waiting, leased, holds, change_held, processed, released}
use agentra.Outbox.Leasing.{claim-Claimed, mark_lem, release_lem}
use agentra.Outbox.Steps.{
  Step, claims, marks, releases, appends, elsewhere, Reach, here, then, append_lem,
}
use agentra.Outbox.Order.{waiting_of}

-- Whether some processed event passes a test.
abbrev pub some_processed : (EventRow → Bool) → List EventRow → Bool
some_processed p es = some_of (λ e. is_some e.processed_at && p e) es

holds_open :
    (id : ℕ) (token : Option ℕ) (e : EventRow)
    → holds id token e ≡ true
    → is_some e.processed_at ≡ false
holds_open id none e h = cc
holds_open id (some k) e h = ground arith

module _ (p : EventRow → Bool) where
  change_held-processed :
      (id : ℕ) (token : Option ℕ) (change : EventRow → EventRow) (es : List EventRow)
      → some_processed p es ≡ true
      → some_processed p (change_held (holds id token) change es) ≡ true
  unfolding change_held
  change_held-processed id token change [] h = h
  change_held-processed id token change (e ∷ es) h = elim (Bool-cases (holds id token e)) [
    | inl k ↦ ground (arith, holds_open id token e k, change_held-processed id token change es)
    | inr k ↦ ground (arith, change_held-processed id token change es)
  ]

  leased-processed :
      (now token : ℕ) (e : EventRow) (fs es : List EventRow)
      → is_waiting e ≡ true
      → some_processed p (fs ++ e ∷ es) ≡ true
      → some_processed p (fs ++ leased now token e ∷ es) ≡ true
  leased-processed now token e [] es w h = ground arith
  leased-processed now token e (f ∷ fs) es w h =
      ground (arith, leased-processed now token e fs es w)

  appended-processed :
      (e : EventRow) (es : List EventRow)
      → some_processed p es ≡ true
      → some_processed p (es ++ e ∷ []) ≡ true
  appended-processed e [] h = cc
  appended-processed e (f ∷ fs) h = ground (arith, appended-processed e fs)

  Step-processed :
      (db db' : Db)
      → Step db db'
      → some_processed p db.outbox ≡ true
      → some_processed p db'.outbox ≡ true
  Step-processed db db' (claims x _ _ h) o =
      let c = claim-Claimed x db db' h in
      let l = c.lease in
      rw (c.all, l.becomes)
        (leased-processed db.now db.next_id l.event l.before l.after
          (waiting_of db.now l.before l.event l.could).0 (rw l.was at o))
  Step-processed db db' (marks id token n _ _ h) o =
      rw (mark_lem id token db db' n h)
        (change_held-processed id token (processed db.now) db.outbox o)
  Step-processed db db' (releases id token n _ _ h) o =
      rw (release_lem id token db db' n h)
        (change_held-processed id token (released db.now) db.outbox o)
  Step-processed db db' (appends w r event s e _ _ h) o =
      rw (append_lem w r event s e db db' h) (appended-processed _ db.outbox o)
  Step-processed db db' (elsewhere _ _ same up) o = rw same o

  -- Whatever property a processed event has, the outbox keeps a processed event with that property,
  -- however the workers and other code interleave.
  pub Reach-processed :
      (db db' : Db)
      → Reach db db'
      → some_processed p db.outbox ≡ true
      → some_processed p db'.outbox ≡ true
  Reach-processed db _ here o = o
  Reach-processed db db' (then mid _ before step) o =
      Step-processed mid db' step (Reach-processed db mid before o)
