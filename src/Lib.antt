-- ===== src/Lib.antt =====
-- Verification of the Gaoge Agent Runtime: the Kernel of durable Runs, its in-memory Store, the
-- delivery queue, the run feed, the run relations, the budget ledger and the Workflow of
-- go/agent-runtime.
--
-- The program. A Run is a record with a status, a revision, a deadline and a state that its Feature
-- owns. `kernel.Runtime` reads a Run, checks a mutation and hands a replacement to a Store, which
-- compares the revision and commits the record, its journal events and an outbox entry as one step.
-- A Store may also fence a Run: a worker acquires a lease of the Run's next epoch, each fenced
-- write and each dispatch needs the active lease, a control (cancel, deadline, approval, allowance,
-- signal) revokes it, and a quarantine blocks the Run until it is repaired. The queue delivers jobs
-- to workers under leases that expire, with retries and dead letters. A feed keeps the live events
-- of a Run for a while and lets subscribers replay and follow them, and a registry keeps which Run
-- owns which child, so that a scheduler can go through the relations page by page. A ledger holds
-- what the Runs of one scope have used and reserved, and admits work within the limits of the scope
-- and of each subtree. A Workflow is a Run whose state is an execution of a Definition, a list of
-- nodes that lead forward: its runner advances one write at a time, keeps each effect as an intent
-- before it dispatches it, and undoes what has completed when the execution fails.
--
-- The files.
--   Prelude: Boolean tests, lists, results, Go strings (`strings.TrimSpace`, `len`, `FormatUint`,
--   `<`).
--   Kernel: the data of go/agent-runtime/kernel (types.go, store.go, execution.go, quarantine.go,
--   control.go); Kernel/Validation the checks of runtime.go, execution.go and quarantine.go;
--   Kernel/Guard `ValidateControl` and the proof of internal/featurecontrol/proof.go.
--   Memory: go/agent-runtime/memory/store.go, with Memory/Execution (execution.go,
--   quarantine.go), Memory/Control (control.go) and Memory/Outbox (the transition outbox).
--   Memory/Steps makes each operation a `Call` and a history a list of calls; the other children
--   prove what holds of them.
--   Runtime: `Create`, `Load`, `ListEvents`, `apply` and `ApplyControl` of kernel/runtime.go and
--   control.go; Runtime/Commands `Cancel`, `Expire` and the execution commands. `propose` and
--   `commit` are the two halves of `apply`, so that calls of others may come between them.
--   Runtime/Identified is kernel/apply_evidence.go; Runtime/Scanning, Runtime/Matching,
--   Runtime/Committing and Runtime/Evidence go from the pages of the journal to the proof of a
--   write.
--   Queue: the data and checks of go/agent-runtime/queue/queue.go, and the backoff and the
--   release of memory.go; Queue/Delivery the operations of memory.go, Queue/Moves the steps of
--   one job, Queue/Evolution, Queue/Deliveries, Queue/Claims and Queue/Histories that the
--   operations refine those steps.
--   RunFeed: go/agent-runtime/runfeed/runfeed.go over go/agent-runtime/memory/runfeed.go. Its
--   children read the Store as logs of which it forgets the beginning; RunFeed/Following is a
--   subscriber.
--   RunRelation: go/agent-runtime/runrelation/runrelation.go over
--   go/agent-runtime/memory/runrelation.go; RunRelation/Listing has its lists; RunRelation/Index
--   and RunRelation/Owners are about its two indexes, RunRelation/Reconciling about the scan by
--   pages, whose cursor moves as in go/agent-runtime/continuation/scheduler.go.
--   Budget: the limits and usages of go/agent-runtime/budget/budget.go, their validation,
--   charging and tightening; Budget/Limiting, Budget/Charging and Budget/Accounting (with `ValidUsage` and
--   `AddUsage` of ledger_usage.go) prove what holds of them.
--   Budget/Ledger, Budget/Coordinator and Budget/Receipts are go/agent-runtime/budget/ledger.go,
--   memory_ledger.go and receipt_transfer.go: the view and admission of a ledger, its changes,
--   and the Store. Budget/Settlement, Budget/Steps, Budget/Transfers and Budget/Changes follow
--   one reservation through a history of changes, Budget/Admission is about the limits,
--   Budget/Ancestry about the ancestors.
--   Workflow: the data of go/agent-runtime/workflow/definition.go and nodes.go;
--   Workflow/Normalizing and Workflow/Names the normal form of a Definition, Workflow/Calls,
--   Workflow/Payloads and Workflow/Validation the checks of nodes.go, Workflow/Compiling
--   `CompileDefinition` and `ValidateDefinition`, Workflow/Successors the way from a node to the
--   next. Workflow/Canonical, Workflow/Frozen, Workflow/Positions and Workflow/Paths prove what
--   holds of them.
--   Execution: the state of go/agent-runtime/workflow/execution.go. A handler is a function from
--   the state to a `Write`, the mutation that it hands to `Apply` with the state not yet encoded:
--   Execution/Values, Execution/Plans, Execution/Starting, Execution/Outcomes and
--   Execution/Finishing are execution_advanced.go and the activation of a node,
--   Execution/Failing and Execution/Undoing compensation.go, Execution/Advancing the rounds of
--   `runSegment`, `ResolveWait` and `Cancel`. Where the code goes on after a write, the next round
--   goes on from the state that was written. Execution/Sums, Execution/Accounts,
--   Execution/Indices, Execution/Settling, Execution/Soundness, Execution/Reserving,
--   Execution/Activating, Execution/Closing, Execution/Answering, Execution/Repaying and
--   Execution/Budgeting follow the budget through every handler; Execution/Ordering is about Waits
--   and compensations.
--   Tests: sample Runs, stores, jobs, usages, feeds, relations, ledgers and
--   Workflows.
--
-- The state. A Go map is a function from texts to options, or, where the code walks the map, an
-- association list. An operation returns the new state beside its result, whatever the result is,
-- and the mutex makes an operation one step. A time is its nanoseconds since Go's zero time, 0
-- being `IsZero`; each reading of a clock, of the entropy and of a context is an argument. A uint64
-- or uint32 that the code increments wraps around (`next_u64`, the attempts of the outbox); a
-- queue's attempts and a time do not reach their bounds. Recursion is structural, but for
-- `format_uint`, whose fuel of 20 digits covers a uint64, the backoff, whose at most 63 rounds are
-- those of its loop, the scan of a journal, whose fuel is the event head, and the scan of the
-- relations, whose fuel is their number and one, and the walks over the ancestors of a Run in a
-- ledger, whose fuel is the number of registered Runs and one, or two in `contains`.
--
-- Not modelled. JSON validity, the digests and the identifiers come in as parameters (`Codec`,
-- `ProofCodec`), with no assumption on them but, where a theorem says so, that a proof decodes to
-- what was encoded and that the digest of a mutation has 64 bytes. A nil Runtime, Store or source
-- of identifiers, Stores without the optional capabilities, the isolation of clones, a negative
-- position or limit of a page, and the difference between nil and empty bytes are left out. The
-- queue's `List` and `truncate` are left out, the latter being an argument of `nack`. The channels,
-- tickers and the backpressure of a feed's subscription and the comparison of recorders by pointer
-- are left out. The remaining usage in a view of a ledger is left out. JSON, schemas and the digest
-- of a Definition are parameters of the Workflow (`Encoding`, `Reader`), as are its executor, the
-- recorder of child relations and new identifiers. The encoding of an execution with its limit of
-- size, the time of a wakeup, the request of a start, telemetry, and the request that an executor
-- is given beside the effect are left out; a failure that joins errors carries the text of the
-- first, and a payload that the check of a Definition excludes is a refusal where the code has a
-- nil pointer. A cost is an integer without a bound, which the budget keeps within an int64. The
-- registry of Definitions, the agent loop, teams and the adapters of databases, transports and
-- providers are outside this library.
pub mod Prelude
pub mod Kernel
pub mod Memory
pub mod Runtime
pub mod Queue
pub mod Budget
pub mod RunFeed
pub mod RunRelation
pub mod Tests
pub mod Workflow
pub mod Execution
