-- ===== src/Lib.antt =====
-- A model of the operation core of autback: the store of jobs, builds and the FIFO queue, the
-- dispatcher that admits operations onto the one worker, the coordinator that tears them down, the
-- capacity controller that guards each admission, the reconciler that compares the store with the
-- runtime, the resource manager that removes what an operation leaves, the retry loop, the writer that
-- redacts secrets in logs, and the accounts of the control plane: who may call, as whom, and on which
-- project.
--
-- Parts, and where they are modelled:
--   internal/protocol/types.go, internal/control/model.go: Protocol, Control. Structs are records,
--     string constants are data types, times and durations are natural numbers (in Retry, durations are
--     the bits of an int64), and a pointer that may be nil is an Option.
--   internal/control/sqlite/store.go: Sqlite. Tables holds the rows of control_queue, control_jobs and
--     control_builds, their unique constraints, and a monad of statements with transactions that roll
--     back. Jobs, Builds, Queue and Cleanup have one function per method, under the method's name in
--     snake case; each takes the time and the random identifier that the method reads. A method that
--     reads the clock twice takes one time. Columns with JSON are taken as decoded. Stale and Scheduled
--     have the listing queries. History runs a list of calls. Evolution states what a call may do, and
--     Advances, Steps and Methods prove it.
--   internal/operation/cleanup/coordinator.go: Coordinator runs RunOnce over the store;
--     Coordinator/Wakeups has the flags of Advance, advance and Drain, a goroutine as a place in the
--     code, and an interleaving as a list of sections. Coordinator/Chain is chain.go beside it.
--   internal/control/dispatcher/dispatcher.go: Dispatcher runs runOnce over the store, with the
--     scheduler, the preparer and the capacity as parameters; Dispatcher/Wakeups is its Advance, with
--     the channel of capacity one.
--   internal/control/sqlite/store.go on accounts: Identity. Tables holds the rows of the users, projects,
--     members, identities, tokens, enrollment codes, login states, device logins, trusts, image events
--     and audit events, and the same monad over them; Statements has the SQL that more than one method
--     uses. Users, Images, Logins, Devices, Tokens, Trusts and Listings have one function per method,
--     and Secrets, Text and Glob the functions that these call. History runs a list of calls; Rules,
--     Evolution, Advances, Methods and Workflows prove what a call may do.
--   internal/control/reconciler/reconciler.go: Reconciler. Model has the configuration, the parameters
--     and the calls of the store; Leases, Jobs and Passes have the three parts of RunOnce and RunOnce,
--     over the store, whose ScheduledJobs is Sqlite/Scheduled. Evidence and Removals prove what a pass
--     leaves alone, and Lost what it does with a job that has no service.
--   internal/operation/cleanup/resources.go: Resources, over Docker as a parameter, with the baselines
--     of the store. Sets has what the differences keep, Cleanups what a cleanup leaves, Owned what it
--     removes. It is a cleaner as the coordinator takes one.
--   internal/retry/retry.go: Retry, over a context, a clock, a wait and a jitter that are parameters,
--     with the wrap-around of int64 written out.
--   internal/capacity: Capacity/Policy has the thresholds, with the wrap-around of uint64 written out;
--     Capacity/Controller has runLocked, run, Admit and Check over a backend that is a parameter.
--   internal/operation/redact/writer.go: Redact, over a destination that is a parameter; Spec says what
--     a redaction is, and Creation is NewWriter.
--
-- The loop of Writer.process has a bound on its turns, the number of pending bytes: each turn that goes
-- on takes at least one byte, and Redact/Process shows that the loop ends by itself within it. The loop
-- of glob has as many turns as there are pairs of a place in the value and a place in the pattern, and
-- Identity/GlobLoop shows that it ends by itself within them. The turns of the loop of Do are an argument,
-- and Retry/Explained shows that it always answers within as many as the policy allows attempts.
-- Everything else is structural. The loop of runOnce returns on each of its paths, so a pass has no loop.
--
-- Parameters: the clock, the random bytes, the digest and the cases of text (Identity/Secrets,
-- Platform), the scheduler, the preparer, the cleaner, Docker, the contexts, the worker's backend and the
-- destination of the writer. The theorems on the writer suppose that the destination takes all
-- bytes that it is given (Redact/Stream, Reliable); the others suppose nothing of the parameters but
-- what each of them states.
--
-- Not modelled: the listings of jobs and builds by page, control changes and the metrics of the
-- store; errors of the database driver; the API server; the default timer and jitter of a retry; Wait of
-- the dispatcher and of the coordinator; adapters, command line, console and generated code.
pub mod Prelude
pub mod Protocol
pub mod Control
pub mod Sqlite
pub mod Redact
pub mod Capacity
pub mod Coordinator
pub mod Dispatcher
pub mod Identity
pub mod Reconciler
pub mod Retry
pub mod Resources
