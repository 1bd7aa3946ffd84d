-- ===== src/Ledger/Passing.antt =====
-- A report that passes the checks of server/internal/handler/daemon.go, and messages that are new.
use agentra.Base.{
  ℕ, ◌≤◌, ◌≡◌, refl, sym, subst, Bool, true, false, List, some, Text, arith, ==_iff, some_of,
}
use agentra.Store.Rows.{TaskStatus, TaskRow, RunRow, status_eq}
use agentra.Store.Tx.{Query, ok, query}
use agentra.Store.Tasks.{get_agent_task}
use agentra.Lifecycle.Queries.{get_active_task_run}
use agentra.Members.Tables
use agentra.Members.Tables.{MemberRow, Directory}
use agentra.Members.Directory.{get_member_by_user_and_workspace}
use agentra.Members.Guards.{named}
use agentra.Daemon.Output.{TaskMessage}
use agentra.Ledger.Reports.{
  in_issue, active_only, MessageRow, Ledger, clashes, is_active_run, kept, persist_task_message,
  persist_all, report_task_messages, max_task_message_body_bytes,
}
use agentra.Ledger.Guarded.{with_rows}
use agentra.Ledger.Storing.{added}
use agentra.Ledger.Delivered.{validated}
use agentra.Ledger.Posting.{request_of}

-- The database answers, the run is the active one of the work item, and the user is a member of the
-- workspace of its issue.
pub record Ready (task run user workspace : ℕ) (l : Ledger) : Type 0 where
  pub item : TaskRow
  pub attempt : RunRow
  pub row : MemberRow
  pub answers : (q : Query) → l.db.fails q ≡ false
  pub stored : l.db.tasks task ≡ some item
  pub running : status_eq item.status TaskStatus.running ≡ true
  pub current : item.active_run_id ≡ some run
  pub attempted : l.db.runs run ≡ some attempt
  pub of_item : attempt.task_id ≡ task
  pub in_progress : status_eq attempt.status TaskStatus.running ≡ true
  pub of_workspace : l.issues item.issue_id ≡ some workspace
  pub belongs :
      get_member_by_user_and_workspace (some user) (some workspace) l.directory
      ≡ Tables.ok (row, l.directory)

pub same_Ready :
    (task run user workspace : ℕ) (l : Ledger)
    → Ready task run user workspace l
    → (ms ps : List MessageRow) → Ready task run user workspace (with_rows l ms ps)
same_Ready task run user workspace l r ms ps = record {
  item = r.item;
  attempt = r.attempt;
  row = r.row;
  answers = r.answers;
  stored = r.stored;
  running = r.running;
  current = r.current;
  attempted = r.attempted;
  of_item = r.of_item;
  in_progress = r.in_progress;
  of_workspace = r.of_workspace;
  belongs = r.belongs;
}

module _ (task run user workspace : ℕ) (l : Ledger) (r : Ready task run user workspace l) where
  reads_task : get_agent_task task l.db ≡ ok (r.item, l.db)
  unfolding get_agent_task
  reads_task = rw (query, r.answers Query.get_agent_task, r.stored) refl

  reads_run : get_active_task_run task run l.db ≡ ok (r.attempt, l.db)
  unfolding get_active_task_run
  reads_run =
      rw
        (
          query,
          r.answers Query.get_active_task_run,
          r.stored,
          r.attempted,
          r.current,
          r.in_progress,
        )
        (rw ((==_iff r.attempt.task_id task).1 r.of_item, (==_iff run run).1 refl) refl)

  run_active : is_active_run l.db task run ≡ true
  unfolding is_active_run
  run_active =
      rw (r.stored, r.attempted, r.current, r.in_progress, r.running)
        (rw ((==_iff r.attempt.task_id task).1 r.of_item, (==_iff run run).1 refl) refl)

  module _ (redact_text : Text → Text) (redact_input : Text → Text) where
    reads_member :
        (canonical : Bool) (ms : List TaskMessage)
        → in_issue redact_text redact_input task run ms
            (named user canonical)
            (l.issues r.item.issue_id)
            l
          ≡ persist_all redact_text redact_input task run ms l
    reads_member canonical ms =
        rw r.of_workspace (rw (r.answers Query.get_issue, r.belongs, active_only, reads_run) refl)

    pub report_passes :
        (size : List TaskMessage → ℕ) (wire : List TaskMessage → List TaskMessage)
        (canonical : Bool) (ms : List TaskMessage)
        → size ms ≤ max_task_message_body_bytes
        → wire ms ≡ ms
        → validated ms ≡ true
        → report_task_messages redact_text redact_input
            (request_of size wire redact_text redact_input task run (named user canonical) ms)
            l
          ≡ persist_all redact_text redact_input task run ms l
    unfolding report_task_messages
    report_passes size wire canonical ms short same a =
        subst
          (λ (xs : List TaskMessage).
            report_task_messages redact_text redact_input
              (record {
                task = some task;
                user = named user canonical;
                size = size ms;
                body = some (some run, xs);
              })
              l
            ≡ persist_all redact_text redact_input task run ms l)
          (sym same) (ground (arith, short, a, reads_task, reads_member canonical ms))

    pub persist_new :
        (m : TaskMessage)
        → some_of (clashes run m.seq) l.messages ≡ false
        → persist_task_message redact_text redact_input task run m l
          ≡ kept (added redact_text redact_input task run m l)
    unfolding persist_task_message
    persist_new m h = rw (r.answers Query.create_task_message, run_active, h) refl
