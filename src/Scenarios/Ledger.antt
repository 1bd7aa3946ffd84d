-- ===== src/Scenarios/Ledger.antt =====
-- A turn of an agent, and the report of a message about it.
use agentra.Base.{
  ℕ, ◌*◌, length, ◌≡◌, refl, true, false, List, [], ◌∷◌, none, some, Text, bytes, arith,
}
use agentra.Lifecycle.Queries.{get_active_task_run}
use agentra.Lifecycle.Transitions.{pos}
use agentra.Store.Tasks.{get_agent_task}
use agentra.Daemon.Messages.{walk_back, chunk_end, chunks, split_task_message_content}
use agentra.Daemon.Output.{
  numbered, requests, TaskMessage, Action, reads, ticks, thinking, text, tool_use, tool_result,
  drain, empty_output, append_content, flush, add_message, on_message,
}
use agentra.Daemon.Numbers.{all_of, count_seq, taken}
use agentra.Daemon.Numbering.{drain_numbers}
use agentra.Daemon.Exchanges.{exchanges, exchanges_in, exchanges-drain}
use agentra.Members.Directory.{get_member_by_user_and_workspace, new_member}
use agentra.Members.Guards.{named}
use agentra.Ledger.Reports.{
  Ledger, MessageRow, Report, done, is_active_run, validate_task_message, persist_task_message,
  persist_all, report_task_messages,
}
use agentra.Ledger.Storing.{unique}
use agentra.Ledger.Once.{Consistent, report-Consistent}
use agentra.Ledger.Repeats.{report_again}
use agentra.Ledger.Limits.{all_modest}
use agentra.Ledger.Delivered.{all_validated, all_requests, drain_validated}
use agentra.Ledger.Guarded.{with_rows}
use agentra.Ledger.Posting.{Carried, deliver}
use agentra.Ledger.Passing.{Ready}
use agentra.Ledger.Fresh.{rows_of}
use agentra.Ledger.Arrival.{drain_delivered}
use agentra.Members.Tables.{Role}
use agentra.Scenarios.Data.{db0, item, attempt_run}
use agentra.Scenarios.Members.{team}

abbrev same : Text → Text
same s = s

abbrev turn : List Action
turn =
    reads false (thinking (bytes "hm"))
    ∷ reads false (tool_use (bytes "1") (bytes "bash") (some (bytes "{}")))
    ∷ ticks
    ∷ reads true (tool_result (bytes "1") [] (bytes "ok"))
    ∷ reads false (text (bytes "done"))
    ∷ []

four : (drain same turn empty_output).seq ≡ 4
unfolding drain flush append_content on_message add_message split_task_message_content chunks
    chunk_end walk_back
four = refl

drain_numbers_example :
    count_seq 3 (all_of (drain same turn empty_output).sent [])
    ≡ taken 3 (drain same turn empty_output).seq
drain_numbers_example = drain_numbers same turn 3 (omega (arith, four))

exchanges-drain_example :
    exchanges (all_of (drain same turn empty_output).sent []) ≡ exchanges_in turn
exchanges-drain_example = exchanges-drain same turn

turn_modest : all_modest turn ≡ true
unfolding all_modest
turn_modest = refl

drain_validated_example :
    (all_validated (all_requests (drain same turn empty_output).sent) ≡ true)
    × (all_of (all_requests (drain same turn empty_output).sent) []
        ≡ all_of (drain same turn empty_output).sent [])
drain_validated_example = drain_validated same turn turn_modest (omega (arith, four))

abbrev ledger : Ledger
ledger = record {
  db = db0;
  directory = team;
  issues = λ issue. some 1;
  messages = [];
  published = [];
}

abbrev said : TaskMessage
said = record {
  seq = pos 1;
  type = bytes "text";
  tool = [];
  content = bytes "done";
  input = none;
  output = [];
}

abbrev report : Report
report = record { task = some 1; user = named 3 true; size = 90; body = some (some 2, said ∷ []) }

ledger-Consistent : Consistent ledger
unfolding unique
ledger-Consistent = record { published_once = refl; stored_once = refl }

report-Consistent_example : Consistent (report_task_messages same same report ledger).1
report-Consistent_example = report-Consistent same same report ledger ledger-Consistent

abbrev reported : Ledger
reported = (report_task_messages same same report ledger).1

succeeds : report_task_messages same same report ledger ≡ (done, reported)
unfolding report_task_messages persist_all persist_task_message validate_task_message is_active_run
    get_agent_task get_active_task_run get_member_by_user_and_workspace
succeeds = refl

report_again_example : report_task_messages same same report reported ≡ (done, reported)
report_again_example = report_again same same report ledger reported succeeds

abbrev rows : List TaskMessage → List MessageRow
rows ms = rows_of same same 1 2 ms

ready : Ready 1 2 3 1 ledger
unfolding get_member_by_user_and_workspace
ready = record {
  item = item;
  attempt = attempt_run;
  row = new_member 10 1 3 Role.owner;
  answers = λ q. refl;
  stored = refl;
  running = refl;
  current = refl;
  attempted = refl;
  of_item = refl;
  in_progress = refl;
  of_workspace = refl;
  belongs = refl;
}

-- An estimate of the length of the JSON of a request.
abbrev size : List TaskMessage → ℕ
size ms = 200 * length ms

abbrev unchanged : List TaskMessage → List TaskMessage
unchanged ms = ms

carried : Carried size unchanged (all_requests (drain same turn empty_output).sent)
unfolding drain flush append_content on_message add_message split_task_message_content chunks
    chunk_end walk_back requests all_requests numbered
carried = (omega arith, refl, (omega arith, refl, tt))

drain_delivered_example :
    deliver size unchanged same same 1 2 (named 3 true) (drain same turn empty_output).sent ledger
    ≡ with_rows ledger
        (rows (all_of (drain same turn empty_output).sent []))
        (rows (all_of (drain same turn empty_output).sent []))
drain_delivered_example =
    drain_delivered same same 1 2 size unchanged 3 1 true same turn ledger ready refl turn_modest
      carried (omega (arith, four))
