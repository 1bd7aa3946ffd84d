-- ===== src/Ledger/Once.antt =====
-- Messages of an agent are stored and published once each (server/internal/handler/daemon.go).
use agentra.Base.{ℕ, ◌≡◌, inl, inr, sym, ap, subst, true, false, List, [], ◌∷◌, ◌++◌, Text, some_of}
use agentra.Daemon.Output.{TaskMessage}
use agentra.Ledger.Reports.{
  MessageRow, Ledger, clashes, Outcome, Reply, Report, row_of, persist_all, report_task_messages,
}
use agentra.Ledger.Guarded.{with_rows, Comes, report-Comes}
use agentra.Ledger.Storing.{
  unique, unique-append, added, then_all, Persisted, fails, rests, again, adds, persist-Persisted,
}

-- What was stored is what was published, and no message is stored twice.
pub record Consistent (l : Ledger) : Type 0 where
  pub published_once : l.published ≡ l.messages
  pub stored_once : unique l.messages ≡ true

module _ (redact_text : Text → Text) (redact_input : Text → Text) where
  added-Consistent :
      (task run : ℕ) (m : TaskMessage) (l : Ledger)
      → some_of (clashes run m.seq) l.messages ≡ false
      → Consistent l
      → Consistent (added redact_text redact_input task run m l)
  added-Consistent task run m l h c = record {
    published_once =
        ap (λ xs. xs ++ row_of redact_text redact_input task run m ∷ []) c.published_once;
    stored_once =
        unique-append (row_of redact_text redact_input task run m) l.messages c.stored_once h;
  }

  step-Consistent :
      (task run : ℕ) (m : TaskMessage) (xs : List TaskMessage) (l : Ledger) (o : Outcome)
      → Persisted redact_text redact_input task run m l o
      → Consistent l
      → ((k : Ledger)
          → Consistent k
          → Consistent (persist_all redact_text redact_input task run xs k).1)
      → Consistent (then_all redact_text redact_input task run xs l o).1
  step-Consistent task run m xs l _ (fails e) c ih = c
  step-Consistent task run m xs l _ (rests e) c ih = c
  step-Consistent task run m xs l _ (again e f g) c ih = ih l c
  step-Consistent task run m xs l _ (adds e f g) c ih =
      ih (added redact_text redact_input task run m l) (added-Consistent task run m l g c)

  all-Consistent :
      (task run : ℕ) (xs : List TaskMessage) (l : Ledger)
      → Consistent l
      → Consistent (persist_all redact_text redact_input task run xs l).1
  unfolding persist_all
  all-Consistent task run [] l c = c
  all-Consistent task run (m ∷ xs) l c =
      step-Consistent task run m xs l _ (persist-Persisted redact_text redact_input task run m l) c
        (λ k d. all-Consistent task run xs k d)

  come-Consistent :
      (l : Ledger) (m : List MessageRow → List MessageRow → Reply × Ledger)
      → Comes redact_text redact_input l m
      → Consistent l
      → Consistent (m l.messages l.published).1
  come-Consistent l m (inl (q, e)) c =
      subst (λ r. Consistent r.1) (sym (e l.messages l.published)) c
  come-Consistent l m (inr (task, run, xs, e)) c =
      subst (λ r. Consistent r.1) (sym (e l.messages l.published)) (all-Consistent task run xs l c)

  -- From a ledger in which what was published is what is stored, with no run and number twice, such as
  -- an empty one, a report of messages leads to one, whatever it is answered.
  pub report-Consistent :
      (r : Report) (l : Ledger)
      → Consistent l
      → Consistent (report_task_messages redact_text redact_input r l).1
  report-Consistent r l c =
      come-Consistent l
        (λ ms ps. report_task_messages redact_text redact_input r (with_rows l ms ps))
        (report-Comes redact_text redact_input r l) c
