-- ===== src/Ledger/Repeats.antt =====
-- A report of messages that is sent again (server/internal/handler/daemon.go).
use agentra.Base.{
  ℕ, ◌≡◌, ◌∙◌, inl, inr, refl, sym, ap, subst, Bool, true, false, ◌&&◌, List, [], ◌∷◌, Text, arith,
  ==_iff, is_empty, some_of,
}
use agentra.Store.Tx.{Query}
use agentra.Lifecycle.Transitions.{ℤ}
use agentra.Daemon.Output.{TaskMessage}
use agentra.Ledger.Reports.{
  MessageRow, Ledger, clashes, is_active_run, Outcome, Reply, done, Report, row_of, persist_all,
  report_task_messages,
}
use agentra.Ledger.Guarded.{with_rows, Comes, report-Comes}
use agentra.Ledger.Storing.{
  some_of-append, seq_eq_refl, added, then_all, Persisted, fails, rests, again, adds,
  persist-Persisted,
}

module _ (redact_text : Text → Text) (redact_input : Text → Text) where
  -- Whether every message is stored for the run.
  all_stored : ℕ → List TaskMessage → List MessageRow → Bool
  all_stored run [] ms = true
  all_stored run (x ∷ xs) ms = some_of (clashes run x.seq) ms && all_stored run xs ms

  pub record Done (task run : ℕ) (xs : List TaskMessage) (l k : Ledger) : Type 0 where
    pub rest : k ≡ with_rows l k.messages k.published
    grows :
        (z : ℤ)
        → some_of (clashes run z) l.messages ≡ true
        → some_of (clashes run z) k.messages ≡ true
    stored : all_stored run xs k.messages ≡ true
    ready :
        is_empty xs ≡ false
        → (l.db.fails Query.create_task_message ≡ false) × (is_active_run l.db task run ≡ true)

  step-Done :
      (task run : ℕ) (m : TaskMessage) (xs : List TaskMessage) (l k : Ledger) (o : Outcome)
      → Persisted redact_text redact_input task run m l o
      → then_all redact_text redact_input task run xs l o ≡ (done, k)
      → ((n : Ledger)
          → persist_all redact_text redact_input task run xs n ≡ (done, k)
          → Done task run xs n k)
      → Done task run (m ∷ xs) l k
  unfolding all_stored
  step-Done task run m xs l k _ (fails e) h ih = absurd (cc)
  step-Done task run m xs l k _ (rests e) h ih = absurd (cc)
  step-Done task run m xs l k _ (again e f g) h ih =
      let d = ih l h in
      record {
        rest = d.rest;
        grows = d.grows;
        stored = ground (arith, d.stored, d.grows m.seq g);
        ready = λ _. (e, f);
      }
  step-Done task run m xs l k _ (adds e f g) h ih =
      let d = ih (added redact_text redact_input task run m l) h in
      let a =
        some_of-append (clashes run m.seq) l.messages
          (row_of redact_text redact_input task run m) in
      record {
        rest = d.rest;
        grows = λ z i. d.grows z (
            some_of-append (clashes run z) l.messages (row_of redact_text redact_input task run m)
            ∙ ground arith);
        stored = ground (arith, d.stored, d.grows m.seq, a, seq_eq_refl m.seq, ==_iff run run);
        ready = λ _. (e, f);
      }

  pub all-Done :
      (task run : ℕ) (xs : List TaskMessage) (l k : Ledger)
      → persist_all redact_text redact_input task run xs l ≡ (done, k)
      → Done task run xs l k
  unfolding persist_all all_stored
  all-Done task run [] l k h =
      subst (λ (x : Ledger). Done task run [] l x) (ap (λ (r : Reply × Ledger). r.1) h)
        (record { rest = refl; grows = λ z i. i; stored = refl; ready = λ e. absurd (cc) })
  all-Done task run (m ∷ xs) l k h =
      step-Done task run m xs l k _ (persist-Persisted redact_text redact_input task run m l) h
        (λ n e. all-Done task run xs n k e)

  step_again :
      (task run : ℕ) (m : TaskMessage) (xs : List TaskMessage) (l : Ledger) (o : Outcome)
      → Persisted redact_text redact_input task run m l o
      → l.db.fails Query.create_task_message ≡ false
      → is_active_run l.db task run ≡ true
      → some_of (clashes run m.seq) l.messages ≡ true
      → persist_all redact_text redact_input task run xs l ≡ (done, l)
      → then_all redact_text redact_input task run xs l o ≡ (done, l)
  step_again task run m xs l _ (fails e) f a c ih = absurd (cc)
  step_again task run m xs l _ (rests e) f a c ih = absurd (cc)
  step_again task run m xs l _ (again _ _ _) f a c ih = ih
  step_again task run m xs l _ (adds _ _ g) f a c ih = absurd (cc)

  stored_again :
      (task run : ℕ) (xs : List TaskMessage) (l : Ledger)
      → (is_empty xs ≡ false
          → (l.db.fails Query.create_task_message ≡ false) × (is_active_run l.db task run ≡ true))
      → all_stored run xs l.messages ≡ true
      → persist_all redact_text redact_input task run xs l ≡ (done, l)
  unfolding persist_all all_stored
  stored_again task run [] l e s = refl
  stored_again task run (m ∷ xs) l e s =
      let (f, a) = e refl in
      step_again task run m xs l _ (persist-Persisted redact_text redact_input task run m l) f a
        (ground arith) (stored_again task run xs l (λ _. (f, a)) (ground arith))

  come_again :
      (l k : Ledger) (m : List MessageRow → List MessageRow → Reply × Ledger)
      → Comes redact_text redact_input l m
      → m l.messages l.published ≡ (done, k)
      → (k ≡ with_rows l k.messages k.published) × (m k.messages k.published ≡ (done, k))
  come_again l k m (inl (q, e)) h =
      let same : l ≡ k = ap (λ (r : Reply × Ledger). r.1) (sym (e l.messages l.published) ∙ h) in
      (
        subst (λ (x : Ledger). x ≡ with_rows l x.messages x.published) same refl,
        subst (λ (x : Ledger). m x.messages x.published ≡ (done, x)) same
            (h ∙ ap (λ (x : Ledger). (done, x)) (sym same)),
      )
  come_again l k m (inr (task, run, xs, e)) h =
      let d = all-Done task run xs l k (sym (e l.messages l.published) ∙ h) in
      (
        d.rest,
        e k.messages k.published
            ∙ stored_again task run xs (with_rows l k.messages k.published) d.ready d.stored
            ∙ ap (λ (x : Ledger). (done, x)) (sym d.rest),
      )

  -- A report that was answered with success can be sent again: it is answered with success, and stores
  -- and publishes nothing.
  pub report_again :
      (r : Report) (l k : Ledger)
      → report_task_messages redact_text redact_input r l ≡ (done, k)
      → report_task_messages redact_text redact_input r k ≡ (done, k)
  report_again r l k h =
      let (rest, twice) =
        come_again l k
          (λ ms ps. report_task_messages redact_text redact_input r (with_rows l ms ps))
          (report-Comes redact_text redact_input r l) h in
      subst (λ (x : Ledger). report_task_messages redact_text redact_input r x ≡ (done, k))
        (sym rest) twice
