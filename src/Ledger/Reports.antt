-- ===== src/Ledger/Reports.antt =====
-- validateTaskMessage, persistTaskMessage and ReportTaskMessages (server/internal/handler/daemon.go),
-- with CreateTaskMessage (server/pkg/db/generated/task_message.sql.go). The redaction of secrets
-- (server/pkg/redact) is given by `redact_text` and `redact_input`; traces are left out.
use agentra.Base.{
  ℕ, ◌^◌, Bool, true, false, not, ◌&&◌, ◌||◌, List, [], ◌∷◌, ◌++◌, Option, none, some, Text,
  if◌then◌else◌, ◌==◌, leb, ltb, length, is_empty, some_of, text_eq, bytes, opt_eq,
}
use agentra.Store.Rows.{TaskStatus, TaskRow, RunRow, status_eq}
use agentra.Store.Tx.{Query, Db, ok, err}
use agentra.Store.Tasks.{get_agent_task}
use agentra.Lifecycle.Transitions.{ℤ, pos, negsuc}
use agentra.Lifecycle.Queries.{get_active_task_run}
use agentra.Members.Tables
use agentra.Members.Tables.{Directory, MemberRow}
use agentra.Members.Directory.{get_member_by_user_and_workspace}
use agentra.Members.Guards.{Param, is_absent, parse_uuid}
use agentra.Daemon.Messages.{task_message_field_bytes}
use agentra.Daemon.Output.{TaskMessage, task_message_batch_size}

-- A row of task_message; an empty text is NULL.
pub record MessageRow : Type 0 where
  pub task_id : ℕ
  pub run_id : ℕ
  pub seq : ℤ
  pub type : Text
  pub tool : Option Text
  pub content : Option Text
  pub input : Option Text
  pub output : Option Text

-- The databases of runs and of members, the workspace of each issue, the rows of task_message in the
-- order of their insertion, and the messages published to clients.
pub record Ledger : Type 0 where
  pub db : Db
  pub directory : Directory
  pub issues : ℕ → Option ℕ
  pub messages : List MessageRow
  pub published : List MessageRow

abbrev pub seq_eq : ℤ → ℤ → Bool
seq_eq (pos a) (pos b) = a == b
seq_eq (pos a) (negsuc b) = false
seq_eq (negsuc a) (pos b) = false
seq_eq (negsuc a) (negsuc b) = a == b

-- The unique index on (run_id, seq).
abbrev pub clashes : ℕ → ℤ → MessageRow → Bool
clashes run seq m = (m.run_id == run) && seq_eq m.seq seq

-- The work item is running, with the run as its active one, and so is the run.
abbrev is_running : Option TaskRow → ℕ → Bool
is_running none run = false
is_running (some t) run = opt_eq t.active_run_id (some run) && status_eq t.status TaskStatus.running

abbrev run_is_running : Option RunRow → ℕ → Bool
run_is_running none task = false
run_is_running (some r) task = (r.task_id == task) && status_eq r.status TaskStatus.running

unfoldable pub is_active_run : Db → ℕ → ℕ → Bool
is_active_run db task run = is_running (db.tasks task) run && run_is_running (db.runs run) task

abbrev non_empty : Text → Option Text
non_empty s = if is_empty s then none else some s

-- The limits on a message; its input is measured as JSON.
abbrev pub types : List Text
types =
    bytes "text" ∷ bytes "thinking" ∷ bytes "tool_use" ∷ bytes "tool_result" ∷ bytes "error" ∷ []

abbrev pub in_range : ℤ → Bool
in_range (negsuc n) = false
in_range (pos n) = leb 1 n && ltb n (2 ^ 31)

abbrev pub fits : Text → Bool
fits s = leb (length s) task_message_field_bytes

abbrev pub input_fits : Option Text → Bool
input_fits none = true
input_fits (some json) = fits json

unfoldable pub validate_task_message : TaskMessage → Bool
validate_task_message m =
    in_range m.seq
    && (some_of (λ t. text_eq t m.type) types
        && (fits m.tool && (fits m.content && (fits m.output && input_fits m.input))))

pub data Outcome : Type 0 where
  kept : Ledger → Outcome
  stale refused : Outcome

-- The answers of the handler.
pub data Reply : Type 0 where
  done bad_request unauthorized not_found conflict server_error : Reply

-- maxTaskMessageBodyBytes, 8 * 1024 * 1024.
abbrev pub max_task_message_body_bytes : ℕ
max_task_message_body_bytes = 8388608

-- `size` is how many bytes are read of the body for its JSON, and `body` that JSON: the run, if its text
-- is a UUID, and the messages. `task` is that of the path.
pub record Report : Type 0 where
  pub task : Option ℕ
  pub user : Param
  pub size : ℕ
  pub body : Option (Option ℕ × List TaskMessage)

module _ (redact_text : Text → Text) (redact_input : Text → Text) where
  abbrev redacted : Option Text → Option Text
  redacted none = none
  redacted (some json) = some (redact_input json)

  abbrev pub row_of : ℕ → ℕ → TaskMessage → MessageRow
  row_of task run m = record {
    task_id = task;
    run_id = run;
    seq = m.seq;
    type = m.type;
    tool = non_empty m.tool;
    content = non_empty (redact_text m.content);
    input = redacted m.input;
    output = non_empty (redact_text m.output);
  }

  -- CreateTaskMessage, and what is done with its answer.
  unfoldable pub persist_task_message : ℕ → ℕ → TaskMessage → Ledger → Outcome
  persist_task_message task run m l =
      if l.db.fails Query.create_task_message
      then refused
      else if not (is_active_run l.db task run)
      then stale
      else if some_of (clashes run m.seq) l.messages
      then kept l
      else kept (record l {
        messages = l.messages ++ row_of task run m ∷ [];
        published = l.published ++ row_of task run m ∷ [];
      })

  unfoldable pub persist_all : ℕ → ℕ → List TaskMessage → Ledger → Reply × Ledger
  persist_all task run [] l = (done, l)
  persist_all task run (m ∷ ms) l = elim (persist_task_message task run m l) [
    | kept l' ↦ persist_all task run ms l'
    | stale ↦ (conflict, l)
    | refused ↦ (server_error, l)
  ]

  -- Past GetAgentTask: GetIssue, requireWorkspaceMember and GetActiveTaskRun.
  abbrev pub active_only : ℕ → ℕ → List TaskMessage → Ledger → Reply × Ledger
  active_only task run ms l = elim (get_active_task_run task run l.db) [
    | ok r ↦ persist_all task run ms l
    | err e ↦ (conflict, l)
  ]

  abbrev pub member_only : ℕ → ℕ → List TaskMessage → Param → ℕ → Ledger → Reply × Ledger
  member_only task run ms user workspace l =
      if is_absent user
      then (unauthorized, l)
      else (elim (get_member_by_user_and_workspace (parse_uuid user) (some workspace) l.directory) [
        | Tables.ok r ↦ active_only task run ms l
        | Tables.err e ↦ (not_found, l)
      ])

  abbrev pub in_issue : ℕ → ℕ → List TaskMessage → Param → Option ℕ → Ledger → Reply × Ledger
  in_issue task run ms user none l = (not_found, l)
  in_issue task run ms user (some workspace) l =
      if l.db.fails Query.get_issue
      then (not_found, l)
      else member_only task run ms user workspace l

  abbrev pub of_task : Option ℕ → ℕ → List TaskMessage → Param → Ledger → Reply × Ledger
  of_task none run ms user l = (not_found, l)
  of_task (some task) run ms user l = elim (get_agent_task task l.db) [
    | ok (t, db') ↦ in_issue task run ms user (l.issues t.issue_id) l
    | err e ↦ (not_found, l)
  ]

  abbrev pub of_run : Option ℕ → Option ℕ → List TaskMessage → Param → Ledger → Reply × Ledger
  of_run task none ms user l = (bad_request, l)
  of_run task (some run) ms user l =
      if ltb task_message_batch_size (length ms) || some_of (λ m. not (validate_task_message m)) ms
      then (bad_request, l)
      else of_task task run ms user l

  abbrev pub of_body :
      Option ℕ → Param → Option (Option ℕ × List TaskMessage) → Ledger → Reply × Ledger
  of_body task user none l = (bad_request, l)
  of_body task user (some (run, ms)) l =
      if is_empty ms then (done, l) else of_run task run ms user l

  unfoldable pub report_task_messages : Report → Ledger → Reply × Ledger
  report_task_messages r l =
      if ltb max_task_message_body_bytes r.size
      then (bad_request, l)
      else of_body r.task r.user r.body l
