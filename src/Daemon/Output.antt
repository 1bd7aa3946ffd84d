-- ===== src/Daemon/Output.antt =====
-- What the daemon reports of an agent's output: the goroutine of runTask that drains the agent's
-- messages, with its ticker (server/internal/daemon/daemon.go), and ReportTaskMessages
-- (server/internal/daemon/client.go). An input of a tool is kept as its JSON. The checkpoint of a
-- session and the log are left out. strings.ToValidUTF8 is the parameter `to_valid`.
use agentra.Base.{
  ℕ, zero, suc, ◌+◌, ◌-◌, ◌%◌, ◌^◌, Bool, List, [], ◌∷◌, ◌++◌, Option, none, some, Text,
  if◌then◌else◌, ltb, length, take, drop, is_empty, text_eq, bytes,
}
use agentra.Lifecycle.Transitions.{ℤ, pos, negsuc}
use agentra.Daemon.Messages.{split_task_message_content}

-- TaskMessageData, and TaskMessageRequest of the server.
pub record TaskMessage : Type 0 where
  pub seq : ℤ
  pub type : Text
  pub tool : Text
  pub content : Text
  pub input : Option Text
  pub output : Text

-- Messages of an agent: the call, the tool, and what the type carries.
pub data AgentMessage : Type 0 where
  tool_use : Text → Text → Option Text → AgentMessage
  tool_result : Text → Text → Text → AgentMessage
  thinking text error session : Text → AgentMessage
  other : AgentMessage

-- The variables of the goroutine. `seq` counts the calls of seq.Add, and `sent` has what each flush
-- handed to the client.
pub record Output : Type 0 where
  pub seq : ℕ
  pub pending_text : Text
  pub pending_thinking : Text
  pub batch : List TaskMessage
  pub tools : List (Text × Text)
  pub sent : List (List TaskMessage)

abbrev pub empty_output : Output
empty_output = record {
  seq = 0;
  pending_text = [];
  pending_thinking = [];
  batch = [];
  tools = [];
  sent = [];
}

-- The counter is an int32.
unfoldable pub to_int32 : ℕ → ℤ
to_int32 n =
    if ltb (n % 2 ^ 32) (2 ^ 31) then pos (n % 2 ^ 32) else negsuc (2 ^ 32 - 1 - n % 2 ^ 32)

abbrev pub content_message : ℕ → Text → Text → TaskMessage
content_message n type content = record {
  seq = to_int32 n;
  type = type;
  tool = [];
  content = content;
  input = none;
  output = [];
}

unfoldable pub numbered : ℕ → Text → List Text → List TaskMessage
numbered n type [] = []
numbered n type (c ∷ cs) = content_message (n + 1) type c ∷ numbered (n + 1) type cs

abbrev pub with_chunks : Text → Option (List Text) → Output → Output
with_chunks type none o = o
with_chunks type (some parts) o = record o {
  seq = o.seq + length parts;
  batch = o.batch ++ numbered o.seq type parts;
}

abbrev pub remember : Text → Text → Output → Output
remember call tool o = if is_empty call then o else record o { tools = (call, tool) ∷ o.tools }

abbrev pub tool_of : Text → List (Text × Text) → Text
tool_of call [] = []
tool_of call ((c, tool) ∷ rest) = if text_eq c call then tool else tool_of call rest

abbrev pub tool_name : Text → Text → Output → Text
tool_name call tool o =
    if is_empty tool then (if is_empty call then [] else tool_of call o.tools) else tool

abbrev pub max_output : ℕ
max_output = 8192

-- A message is read, with whether the ticker fires while it is added, or the ticker fires.
pub data Action : Type 0 where
  reads : Bool → AgentMessage → Action
  ticks : Action

abbrev pub send : Output → Output
send o = if is_empty o.batch then o else record o { batch = []; sent = o.sent ++ o.batch ∷ [] }

module _ (to_valid : Text → Text) where
  unfoldable pub append_content : Text → Text → Output → Output
  append_content type content o = with_chunks type (split_task_message_content to_valid content) o

  abbrev pub flush_thinking : Output → Output
  flush_thinking o =
      if is_empty o.pending_thinking
      then o
      else record (append_content (bytes "thinking") o.pending_thinking o) { pending_thinking = [] }

  abbrev pub flush_text : Output → Output
  flush_text o =
      if is_empty o.pending_text
      then o
      else record (append_content (bytes "text") o.pending_text o) { pending_text = [] }

  unfoldable pub flush : Output → Output
  flush o = send (flush_text (flush_thinking o))

  -- A number is taken, and then the message is added to the batch; the ticker may flush in between.
  unfoldable pub add_message : Bool → Text → Text → Option Text → Text → Output → Output
  add_message between type tool input output o =
      let o' = record o { seq = o.seq + 1 } in
      let o'' = if between then flush o' else o' in
      record o'' {
        batch =
            o''.batch
            ++ record {
              seq = to_int32 (o.seq + 1);
              type = type;
              tool = tool;
              content = [];
              input = input;
              output = output;
            }
              ∷ [];
      }

  unfoldable pub on_message : Bool → AgentMessage → Output → Output
  on_message between (tool_use call tool input) o =
      add_message between (bytes "tool_use") tool input [] (remember call tool o)
  on_message between (tool_result call tool output) o =
      add_message between (bytes "tool_result") (tool_name call tool o) none
        (if ltb max_output (length output) then take max_output output else output) o
  on_message between (thinking content) o = record o {
    pending_thinking = o.pending_thinking ++ content;
  }
  on_message between (text content) o = record o { pending_text = o.pending_text ++ content }
  on_message between (error content) o = append_content (bytes "error") content o
  on_message between (session id) o = o
  on_message between other o = o

  abbrev pub act : Action → Output → Output
  act (reads between m) o = on_message between m o
  act ticks o = flush o

  -- The messages and the ticks, one after another, and the last flush.
  unfoldable pub drain : List Action → Output → Output
  drain [] o = flush o
  drain (a ∷ rest) o = drain rest (act a o)

-- ReportTaskMessages of the client: in requests of TaskMessageBatchSize messages.
abbrev pub task_message_batch_size : ℕ
task_message_batch_size = 100

unfoldable pub requests : ℕ → List TaskMessage → List (List TaskMessage)
requests zero ms = []
requests (suc rounds) [] = []
requests (suc rounds) (m ∷ ms) =
    take task_message_batch_size (m ∷ ms) ∷ requests rounds (drop task_message_batch_size (m ∷ ms))
