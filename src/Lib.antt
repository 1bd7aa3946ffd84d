-- ===== src/Lib.antt =====
-- A model of the server of agentra: the lifecycle of agent runs, the task service that queues and
-- dispatches them, the outbox of their events, the engineering loop that is built on them, and the
-- smaller components around these.
--
-- The database is a record of tables (Store/Tx.antt, Db), and each statement of
-- server/pkg/db/generated is a function on it, named like the generated function: Store/Tasks,
-- Store/Runs, Store/Outbox, Store/Loops and Store/Consumer. A transaction (Tx) gives a result and
-- a new database, or an error and the old one; code that runs several statements outside of a
-- transaction (Io, Store/Io.antt) keeps what it wrote before an error. The field `fails` says
-- which statements the database refuses, so that every error path of the code can be taken.
--
-- Lifecycle/ is server/internal/service/run_lifecycle.go and lifecycle_event.go. A work item
-- (agent_task_queue) and its run (task_runs) are two ledgers of one attempt. Guards.antt has
-- withLockedRun and containsStatus, Transitions.antt Start, Checkpoint, Complete, Fail,
-- RetryActive and Cancel, Queries.antt AssertRunning and Status, Bulk.antt CancelForIssue,
-- CancelForAgent, FailStaleTasks, FailTasksForOfflineRuntimes and RecoverTasksForRuntime.
-- Calls.antt puts the callbacks of an attempt into one function, and Links.antt says what it is
-- for the ledgers to agree. Phases.antt is the abstract machine of a work item's status. Moves,
-- Effects, Agreement, Atomic, Cancel, Sweeping, Sweeps and Recovery hold the proofs.
--
-- Queue/ is server/internal/service/task.go: Enqueue.antt has EnqueueTaskForIssue and
-- EnqueueTaskForMention, Claiming.antt ClaimTask, ClaimTaskForRuntime and rejectQueuedTask, on the
-- statements of Store/Claims.antt. System/ puts the queue and the lifecycle together: Sound.antt
-- is the invariant of the tables, Steps.antt the operations as a step relation, and Reach.antt
-- what holds after any sequence of them; the other files of System/ treat one kind of operation
-- each.
--
-- Outbox/ is server/internal/service/lifecycle_outbox.go: Worker.antt has ProcessNext,
-- processClaimed and drain, on the leases of Store/Leases.antt; Steps.antt lets the statements of
-- several workers and other code interleave. Orderly, Order, Permanence, Leasing, Fencing and
-- Rounds hold the proofs.
--
-- Loop/ is server/internal/loop and server/internal/handler/loop.go. Policy.antt has the decisions
-- (decideNextStage, classifyError), Verdict.antt the search for the object in a report of a stage
-- (parseTaskResult), Coordinator.antt the statements (applyDecision, resolveStageAgent,
-- StartLoop), Projector.antt the consumer of lifecycle events (ProcessNext, Drain), Restore.antt
-- RestoreOnStartup, Handler.antt the requests to pause, resume and cancel. The projector reads the
-- events that the lifecycle appends to the outbox and puts new work items on the queue. Progress,
-- Starting, Restoring, Delivery, Waiting, Frame, Agents and Operators hold the proofs.
--
-- Adapter/ is server/pkg/agent/contract.go and server/internal/loop/stages/tools.go: the
-- descriptors of the runtime adapters, the validation of execution options, and the policy of each
-- stage. Planner/ is server/internal/service/planner.go: the planner's answer read, checked and
-- matched to agents. Runtime/ is server/internal/handler/runtime_update.go and runtime_ping.go,
-- the requests kept for a runtime. Realtime/ is server/internal/realtime/hub.go and origin.go and
-- server/internal/corsconfig, the web-socket clients and the origins they may come from.
--
-- Daemon/ is what a daemon reports of an agent's output: Messages.antt is
-- server/internal/daemon/task_messages.go, the splitting of long messages, and Output.antt the
-- goroutine of runTask (server/internal/daemon/daemon.go) that numbers and batches the messages,
-- with its ticker, and ReportTaskMessages of client.go; Splitting, Numbers, Numbering and
-- Exchanges hold the proofs. Ledger/ is the other end: ReportTaskMessages, persistTaskMessage and
-- validateTaskMessage of server/internal/handler/daemon.go, on the statement CreateTaskMessage
-- (Reports.antt). Posting.antt puts the two ends together: the client posts the requests of each
-- flush to the server, over a connection that is not lost, with the length of the JSON and what is
-- decoded of it as parameters. Guarded, Storing, Once, Repeats, Passing and Fresh hold proofs
-- about the server, and Limits, Accepted, Delivered and Arrival about both ends.
--
-- Members/ is who belongs to a workspace: Tables.antt and Directory.antt are the rows and
-- statements, Guards.antt the guard of the routes (server/internal/middleware/workspace.go) and
-- server/internal/handlerutil, Handlers.antt the handlers of server/internal/handler/workspace.go,
-- Requests.antt the routes of server/cmd/server/router.go. Rules, Changes, Joining, Altering,
-- Identifiers, Owners, Owned, Founding, Privileges and Serving hold the proofs.
--
-- Access/ is server/internal/onetimecode, server/internal/otpcode, server/internal/events and
-- server/internal/service/access_policy.go. Scenarios/ has concrete databases and inputs.
--
-- Identifiers and times are numbers (times in milliseconds), and a new identifier is the next
-- number, which stands for a fresh UUID. Columns with a CHECK constraint are enumerations. The
-- unique index of server/migrations/022_task_lifecycle_guards.up.sql on the issues of queued and
-- dispatched work items is checked by the statements that can violate it: CreateAgentTask,
-- RetryAgentTask and the recovery of a runtime. A text is its bytes; letter case and trimming are
-- those of ASCII. JSON decoding, the parsing of UUIDs and URLs, strings.ToValidUTF8 and
-- strconv.ParseBool are parameters of what uses them. The configuration of a loop is kept as its
-- agents of stages. What the outbox worker does with an event is any code that may fail.
-- Transactions run one after another, so row locks and SKIP LOCKED are left out; so are requests
-- of the task service that overlap, whose count and claim are separate statements. A commit that
-- fails is a rollback. An error is the sentinel that the code wraps. The context column of a work
-- item, logging, and the check for a missing transaction starter of the coordinator are left out.
-- The handlers that edit agents and runtimes are not modelled, so no step changes the limit of an
-- agent or the provider of a runtime. The iteration of a loop has no wrap-around, since
-- max_iterations bounds it. The redaction of secrets (server/pkg/redact) is a parameter of a
-- report. Requests about members run one after another. The settings of a workspace, single
-- sign-on, published events of members, the checkpoint of a session and the listing of messages
-- are not modelled.
--
-- `drain` of the projector takes its rounds as an argument; the number of events without a
-- receipt, plus one, is enough, since every round that goes on gives one of them its receipt.
-- `generate` tries ten words, as the code does. `drain` of the outbox worker takes its rounds as
-- an argument too, and no number is claimed to be enough. The splitting of messages has one round
-- per byte, plus one, each of which takes at least one byte. The requests of a batch have one
-- round per message, plus one, each of which sends at least one message.
pub mod Base
pub mod Store
pub mod Lifecycle
pub mod Loop
pub mod Adapter
pub mod Access
pub mod Planner
pub mod Scenarios
pub mod Queue
pub mod System
pub mod Outbox
pub mod Daemon
pub mod Runtime
pub mod Realtime
pub mod Members
pub mod Ledger
