-- ===== src/Ledger/Posting.antt =====
-- The daemon posts the requests of each batch (server/internal/daemon/client.go and daemon.go) to the
-- server (server/internal/handler/daemon.go), over a connection that is not lost. JSON stands between
-- them: `size` is the length of the JSON of a request with the messages, and `wire` what the server
-- decodes of what the client encoded.
use agentra.Base.{ℕ, ◌≤◌, ◌≡◌, List, [], ◌∷◌, some, Text}
use agentra.Daemon.Output.{TaskMessage}
use agentra.Members.Guards.{Param}
use agentra.Ledger.Reports.{
  Ledger, Report, Reply, done, max_task_message_body_bytes, report_task_messages,
}
use agentra.Ledger.Delivered.{requests_of}

-- An error ends the requests of a batch.
abbrev pub unless_failed : (Ledger → Reply × Ledger) → Reply × Ledger → Reply × Ledger
unless_failed next (done, l) = next l
unless_failed next (failed, l) = (failed, l)

-- Requests that arrive as they are: their JSON is no longer than the server reads, and encoding and
-- decoding give the same messages (as they do for texts in valid UTF-8).
abbrev pub Carried :
    (List TaskMessage → ℕ)
    → (List TaskMessage → List TaskMessage)
    → List (List TaskMessage)
    → Type 0
Carried size wire [] = Unit
Carried size wire (r ∷ rs) =
    (size r ≤ max_task_message_body_bytes) × (wire r ≡ r) × Carried size wire rs

module _ (size : List TaskMessage → ℕ) (wire : List TaskMessage → List TaskMessage)
    (redact_text : Text → Text) (redact_input : Text → Text) (task run : ℕ) (user : Param) where
  abbrev pub request_of : List TaskMessage → Report
  request_of ms = record {
    task = some task;
    user = user;
    size = size ms;
    body = some (some run, wire ms);
  }

  -- ReportTaskMessages of the client, on the requests of one batch.
  unfoldable pub post : List (List TaskMessage) → Ledger → Reply × Ledger
  post [] l = (done, l)
  post (r ∷ rs) l =
      unless_failed (post rs) (report_task_messages redact_text redact_input (request_of r) l)

  -- The batches, one flush after another; an error is only logged.
  unfoldable pub deliver : List (List TaskMessage) → Ledger → Ledger
  deliver [] l = l
  deliver (b ∷ bs) l = deliver bs (post (requests_of b) l).1
