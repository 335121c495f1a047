-- ===== src/Lib.antt =====
-- The manager of ovs-webui: what is executed against Open vSwitch, and what guards it.
--
-- The program is a Go daemon. A change that a user has validated is submitted as a field execution
-- (internal/repository/executions/engine.go): it gets a record in the journal and a job, and the
-- provider commits it. A reconciler reads what became of it. A change that may cut off the
-- management path is a Safe Apply (internal/repository/executions/safety.go): a watchdog probes the
-- path, and unless the user confirms in time it sends the rollback that was planned before. Jobs and
-- the journals of events and audit records are kept by internal/repository/evidence; all of it lives
-- in one SQLite database (internal/repository/sqlite). A request of the API leaves a receipt there
-- (internal/repository/requests), so that it can be sent again. Whether a change of a Bridge's
-- spanning tree settings may be executed at all is decided by internal/spanningtree; the options of
-- tunnels, multicast and mirrors are checked by packages of their own. The calls of each class pass
-- through two bounded channels (internal/ipc).
--
-- Which file models what:
--   Prelude           shared names, Boolean tests, association lists, signed integers
--   SpanningTree      internal/spanningtree: Parameters is parameters.go (`Validate`), Runtime and
--                     Transition are runtime.go and transition.go (`AssessTransition`), Execution is
--                     execution.go (`AssessSetterOrder`, `AssessExecutionTransition`)
--   Candidate         internal/candidate: the intents, their bindings and `Reverse`
--   Inventory         internal/repository/inventory/creation.go: the identities that are reserved;
--                     Registry is registry.go (`Classify`)
--   Execution         internal/execution/types.go
--   Safety            internal/safety/types.go and the clock of internal/tlscontrol/types.go
--   Jobs, Evidence    internal/repository/evidence/types.go and write.go; Creation is `CreateJob`
--   Receipts          internal/apitypes/types.go
--   Requests          internal/repository/requests/requests.go: the transaction of `Execute`; Calls is
--                     `Execute`, `Replay` and `Find`, Retention is `Prune`, Ledger the abstract map,
--                     Encoding is `canonicalValue`, Numbers what its numbers stand for, Documents
--                     what a fingerprint tells apart; Once runs requests and prunings in any order
--   Store             internal/repository/sqlite/store.go: `Write` over the tables of the database
--   Executions        engine.go: `stateFor`, `saveOutcome`, `transition`, `Reconcile`
--   Executions/Protections  engine.go and bridge_delete.go: the protections that an admission takes
--   Executions/Admission  engine.go and safety.go: the transactions of `submit` and of `beforeSend`,
--                     and `admitSafety`
--   Executions/Submit  engine.go: `submit`, `run`, and the worker of a Safe Apply; Run is what `run`
--                     sends
--   Executions/Moves  runs of all the transactions that write the journal of executions
--   Executions/Decision  safety.go: the checks and the transaction of `Decide`; Call is all of it, with
--                     the receipt of its request, and Call/History runs it among the workers
--   Executions/Watchdog  safety.go: `safetyStep`, `rollback`, `holdSafety`, `saveSafety`
--   Tunnel            internal/tunnel/config.go: `Validate`, `Merge`, `Decode`, `NativeIdentity`
--   Multicast         internal/multicast/config.go: `Validate`, `Merge`; Groups is
--                     groups.go (`DecodeGroups`)
--   Mirror            internal/mirror/config.go (`Validate`); Native is native.go (`Decode`, `Fields`)
--   Secret            internal/secret/envelope.go: `NewRing`, `Seal`, `Open`
--   Ipc               internal/ipc/budget.go: `acquire`, which sqlite/store.go has too
--
-- State and operations. A transaction is a function from the tables to a result with the tables; an
-- error discards what was written. `Store.write` runs one under a fault: stored, refused, refused
-- with the store closed, or a commit whose outcome is unknown, which retires the writer and may have
-- been kept or lost. An engine is a store, the set of claimed identifiers, and the list of what has
-- been sent to the provider; that list is no part of the program, and is there for the statements.
-- All that a call is told from outside (clock readings, answers of the provider and of the probe, the
-- authority, faults) is an argument, so that the theorems hold for any of it. Calls on one identifier
-- exclude each other by `claim`, and each call is taken as one turn; turns of different calls come in
-- any order.
--
-- Bounds. All loops are structural, and no fuel is needed. Times are nanoseconds since 1970; the
-- monotonic clock is a signed 64-bit number whose sum wraps. Identifiers and digests are numbers,
-- where 0 is the empty string; a Mirror has the bytes of its identifiers. The sizes of JSON documents are a parameter, the record `Budget`.
--
-- Not modelled: SQL and its driver, HTTP, authentication, the provider's own code, rendering, and the
-- operations of these packages that the files' comments do not name.
pub mod Prelude
pub mod SpanningTree
pub mod Execution
pub mod Safety
pub mod Jobs
pub mod Receipts
pub mod Store
pub mod Requests
pub mod Secret
pub mod Candidate
pub mod Inventory
pub mod Evidence
pub mod Executions
pub mod Tunnel
pub mod Multicast
pub mod Ipc
pub mod Mirror
