-- ===== src/Lib.antt =====
-- A verification library for Eggy, an assistant that acts for its owner through tools. It follows the
-- parts that decide what may run and what is kept: approvals, the gate on tools, the state store,
-- admission of messages to a running turn, the model and tool loop with its live window, the registry
-- of tools, the assembly of a turn from all these, the rules of turns that nobody asked for, the
-- switches of the agent's runtime, scheduled jobs, and the dispatch of events; and three parts of
-- their own, the throttle of logins, the owner's ledger of money with its sums as they are read, kept
-- and reported, and the plan of what an installation of skills and servers would write.
--
-- How the parts interact. A gated tool call asks the approvals service, which stores a pending
-- approval in the account's state through the versioned store; the owner's tap decides it, and the
-- executor consumes it before the tool runs. A message is admitted to its conversation as the owner
-- of a turn or joins the turn that runs; the turn's loop takes its tools from the registry, shows the
-- model those that its allowlist grants, runs the calls that it allows, and keeps its request within
-- bounds by folding old steps of its window. Around the loop the assembly of a turn records what was
-- said, delivers the reply, and starts a turn of its own for the messages that joined too late. The
-- runtime keeps the account's model, its settings and its usage in the same store. The scheduler
-- claims due jobs in a table of its own, and the dispatcher runs a handler for each event that it has
-- not seen, under a lock of the event's own.
--
-- Which file models what:
--   Prelude        helpers: tests on numbers, lists, maps as association lists, results and errors
--   Text           Go's strings functions that the code calls, over lists of code points; Trimmed is
--                  what TrimSpace leaves
--   Context        internal/core/destination/destination.go and internal/ports/account.go
--   Store          internal/ports/state.go, and Load and Update of internal/storage/sqlite/state.go
--   Approvals      internal/core/approvals/approvals.go; in Service and Operations the operations of
--                  internal/core/services/approval_service.go (Request, Decide, Pending, Mode,
--                  SetMode, Invalidate, Authorize); the other modules are proofs
--   Gate           internal/core/services/approval_gate.go: RuleFor, Execute, ExecuteApproved
--   Message        internal/ports/messages.go
--   Turns          internal/core/services/turns.go: Admit, Pending, Release, Stop, as functions of one
--                  entry; Turns.Steps has their interleavings, and Turns.Table is the table of
--                  entries with their references
--   Window         internal/core/agent/compaction.go: the policy, summaries (Summary), steps (Steps),
--                  contextWindow (Fit) and its handoff (Handoff); the other modules are proofs
--   Loop           internal/core/agent/loop.go: resolve, filteredTools and allowsCall; Loop.Run is Run,
--                  with ModelUsage, ModelRequest and ModelResponse of internal/ports/model.go; the
--                  other modules are proofs
--   Registry       internal/core/services/tools.go: ToolRegistry
--   Proactive      internal/core/turns/policy.go: ReadOnlyTools, heartbeatTools and silentReply,
--                  with HeartbeatSentinels of internal/core/agent/prompt.go
--   Assembly       internal/core/turns: Options of collaborators.go as a record of calls; Parts is
--                  partKinds, unsupportedPartsMessage and durableMessageText, Steered is mergeSteered,
--                  Steps, Service, Replies and Pass are run of run.go, a pass of which is run_pass
--                  and whose loop is the relation Ran; Approved is Approval of approval.go, and
--                  Heartbeat is internal/core/services/heartbeat_tools.go; the other modules are
--                  proofs
--   Runtime        internal/core/services/agent_runtime.go
--   Throttle       internal/auth/session/throttle.go; Histories is what it promises, in terms of the
--                  failed logins themselves, and Abstract what it does but for the sweeping
--   Money          internal/extensions/finance/money.go: ParseAmount and FormatAmount
--   Finance        internal/extensions/finance/report.go: flowsOf, orderedCurrencies and findFlow;
--                  Dates and Entries are internal/extensions/finance/service.go (parseDate, Range,
--                  Log, Update), Ledger is internal/storage/sqlite/ext_finance.go, and Service puts
--                  them together with internal/extensions/finance/categories.go; the other modules
--                  are proofs
--   Marketplace    internal/extensions/marketplace/plan.go: planSkill, pluginSkillDirs and planMCP, with
--                  isTextPath of archive.go; the modules Sound, Plans and Declared are proofs
--   Schedule       internal/ports/schedules.go and internal/storage/sqlite/schedules.go;
--                  Schedule.Scheduler and Schedule.Cron are internal/schedule/local
--   Dispatcher     internal/core/services/dispatcher.go (Handle) and internal/core/events/events.go;
--                  Dispatcher.Locks is lockEvent, as steps of concurrent calls
--   Examples       the theorems applied at concrete states
--
-- How the code is represented. State is passed explicitly, an error is a value of one type, and the
-- faults of a database are fields of the call. Concurrent calls are sequences of writes (Approvals)
-- or of critical sections (Turns, the locks of Dispatcher). The assembly of a turn runs over a world
-- of any type, which its collaborators change as they are called. A turn of the loop is the rounds
-- that it meets: in each the context may have ended, messages may steer it, and the model answers the
-- request. Times are numbers, and a fault, a clock reading or a fresh identifier is given with the
-- call. Counters of 64 bits wrap, but for the steps of one turn and the failed logins of one key.
--
-- Parameters. Encoding, hashing, the parsing of arguments as JSON, the number of pages of a PDF, the
-- calendar of a time zone, the answers of the model, of the tools and of the providers of tools, and
-- the order of a listing belong to code that is not here, and are arguments. So do the collaborators
-- of a turn, the mapping of letters to lower case and the spaces of Unicode, the reading of a
-- duration, and the faults of a database.
--
-- Fuel. The loop of fit takes the length of the tail, as every fold takes a message off it. The loop
-- of AppendSummary takes the length of the text, as every round drops a newline. The search of
-- Cron.Next takes the minutes up to its limit, and the loop over the values of a cron segment the
-- number of values. The update of the runtime takes 32 attempts, as the code does. The passes of a
-- turn are chained by a relation without a bound, as only the messages that arrive bound them. The
-- printing of a number takes 20 digits, as many as 64 bits can have.
--
-- Not modelled: the channels, the panel, the other extensions and adapters; in the modelled files the
-- texts that are only shown, prompts and traces, the events to observers, costs in dollars, and the
-- listing, the summary and the insights of the ledger.
pub mod Prelude
pub mod Text
pub mod Context
pub mod Store
pub mod Approvals
pub mod Gate
pub mod Message
pub mod Turns
pub mod Window
pub mod Loop
pub mod Registry
pub mod Proactive
pub mod Throttle
pub mod Money
pub mod Finance
pub mod Schedule
pub mod Runtime
pub mod Assembly
pub mod Marketplace
pub mod Dispatcher
pub mod Examples
