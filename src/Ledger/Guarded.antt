-- ===== src/Ledger/Guarded.antt =====
-- What a report comes to, past its checks (server/internal/handler/daemon.go).
use agentra.Base.{
  ℕ, ◌≡◌, ◌⊎◌, inl, inr, refl, Bool, true, false, not, ◌||◌, List, Option, none, some, Text,
  if◌then◌else◌, ltb, length, is_empty, some_of,
}
use agentra.Store.Tx.{Query, Result, ok, err}
use agentra.Store.Tasks.{get_agent_task}
use agentra.Lifecycle.Queries.{get_active_task_run}
use agentra.Members.Tables
use agentra.Members.Tables.{MemberRow, Directory, Answer}
use agentra.Members.Directory.{get_member_by_user_and_workspace}
use agentra.Members.Guards.{Param, is_absent, parse_uuid}
use agentra.Daemon.Output.{TaskMessage, task_message_batch_size}
use agentra.Ledger.Reports.{
  MessageRow, Ledger, validate_task_message, Reply, done, bad_request, unauthorized, not_found,
  conflict, persist_all, active_only, member_only, in_issue, of_task, of_run, of_body, Report,
  max_task_message_body_bytes, report_task_messages,
}

-- The ledger with other rows.
abbrev pub with_rows : Ledger → List MessageRow → List MessageRow → Ledger
with_rows l ms ps = record l { messages = ms; published = ps }

module _ (redact_text : Text → Text) (redact_input : Text → Text) where
  -- What a request comes to does not depend on the rows: an answer with nothing changed, or the
  -- messages one after another.
  abbrev pub Comes : Ledger → (List MessageRow → List MessageRow → Reply × Ledger) → Type 0
  Comes l m =
      ((q : Reply) × ((ms ps : List MessageRow) → m ms ps ≡ (q, with_rows l ms ps)))
      ⊎ ((task : ℕ) × (run : ℕ) × (xs : List TaskMessage) × ((ms ps : List MessageRow)
            → m ms ps ≡ persist_all redact_text redact_input task run xs (with_rows l ms ps)))

  when-Comes :
      (test : Bool) (q : Reply) (l : Ledger)
      (m : List MessageRow → List MessageRow → Reply × Ledger)
      → Comes l m
      → Comes l (λ ms ps. if test then (q, with_rows l ms ps) else m ms ps)
  when-Comes true q l m c = inl (q, λ ms ps. refl)
  when-Comes false q l m c = c

  result-Comes :
      {A : Type 0} (a : Result A) (q : Reply) (l : Ledger)
      (m : A → List MessageRow → List MessageRow → Reply × Ledger)
      → ((x : A) → Comes l (m x))
      → Comes l (λ ms ps. elim a as (λ _. Reply × Ledger) [
        | ok x ↦ m x ms ps
        | err e ↦ (q, with_rows l ms ps)
      ])
  result-Comes (ok x) q l m c = c x
  result-Comes (err e) q l m c = inl (q, λ ms ps. refl)

  answer-Comes :
      {A : Type 0} (a : Answer A) (q : Reply) (l : Ledger)
      (m : List MessageRow → List MessageRow → Reply × Ledger)
      → Comes l m
      → Comes l (λ ms ps. elim a as (λ _. Reply × Ledger) [
        | Tables.ok x ↦ m ms ps
        | Tables.err e ↦ (q, with_rows l ms ps)
      ])
  answer-Comes (Tables.ok x) q l m c = c
  answer-Comes (Tables.err e) q l m c = inl (q, λ ms ps. refl)

  active-Comes :
      (task run : ℕ) (xs : List TaskMessage) (l : Ledger)
      → Comes l (λ ms ps. active_only redact_text redact_input task run xs (with_rows l ms ps))
  active-Comes task run xs l =
      result-Comes (get_active_task_run task run l.db) conflict l
        (λ _ ms ps. persist_all redact_text redact_input task run xs (with_rows l ms ps))
        (λ _. inr (task, run, xs, λ ms ps. refl))

  issue-Comes :
      (task run : ℕ) (xs : List TaskMessage) (user : Param) (workspace : Option ℕ) (l : Ledger)
      → Comes l (λ ms ps.
        in_issue redact_text redact_input task run xs user workspace (with_rows l ms ps))
  issue-Comes task run xs user none l = inl (not_found, λ ms ps. refl)
  issue-Comes task run xs user (some workspace) l =
      when-Comes (l.db.fails Query.get_issue) not_found l
        (λ ms ps.
          member_only redact_text redact_input task run xs user workspace (with_rows l ms ps))
        (when-Comes (is_absent user) unauthorized l _ (
          answer-Comes
            (get_member_by_user_and_workspace (parse_uuid user) (some workspace) l.directory)
            not_found l
            (λ ms ps. active_only redact_text redact_input task run xs (with_rows l ms ps))
            (active-Comes task run xs l)))

  task-Comes :
      (task : Option ℕ) (run : ℕ) (xs : List TaskMessage) (user : Param) (l : Ledger)
      → Comes l (λ ms ps. of_task redact_text redact_input task run xs user (with_rows l ms ps))
  task-Comes none run xs user l = inl (not_found, λ ms ps. refl)
  task-Comes (some task) run xs user l =
      result-Comes (get_agent_task task l.db) not_found l
        (λ x ms ps.
          in_issue redact_text redact_input task run xs user (l.issues x.0.issue_id)
            (with_rows l ms ps))
        (λ x. issue-Comes task run xs user (l.issues x.0.issue_id) l)

  run-Comes :
      (task run : Option ℕ) (xs : List TaskMessage) (user : Param) (l : Ledger)
      → Comes l (λ ms ps. of_run redact_text redact_input task run xs user (with_rows l ms ps))
  run-Comes task none xs user l = inl (bad_request, λ ms ps. refl)
  run-Comes task (some run) xs user l =
      when-Comes
        (ltb task_message_batch_size (length xs) || some_of (λ m. not (validate_task_message m)) xs)
        bad_request l
        (λ ms ps. of_task redact_text redact_input task run xs user (with_rows l ms ps))
        (task-Comes task run xs user l)

  body-Comes :
      (task : Option ℕ) (user : Param) (body : Option (Option ℕ × List TaskMessage)) (l : Ledger)
      → Comes l (λ ms ps. of_body redact_text redact_input task user body (with_rows l ms ps))
  body-Comes task user none l = inl (bad_request, λ ms ps. refl)
  body-Comes task user (some (run, xs)) l =
      when-Comes (is_empty xs) done l
        (λ ms ps. of_run redact_text redact_input task run xs user (with_rows l ms ps))
        (run-Comes task run xs user l)

  pub report-Comes :
      (r : Report) (l : Ledger)
      → Comes l (λ ms ps. report_task_messages redact_text redact_input r (with_rows l ms ps))
  unfolding report_task_messages
  report-Comes r l =
      when-Comes (ltb max_task_message_body_bytes r.size) bad_request l
        (λ ms ps. of_body redact_text redact_input r.task r.user r.body (with_rows l ms ps))
        (body-Comes r.task r.user r.body l)
