-- ===== src/Lib.antt =====
-- Verification of the deployment orchestrator's core (v1/internal): the store, the engine, the
-- permissions, and the redaction of secrets.
--
-- The store (v1/internal/store) keeps deployments, leases, steps, health samples, approvals,
-- freezes, a hash-chained audit log and an outbox of notifications in memory, behind an append-only
-- journal: an operation checks its guards, writes one group of records to the journal, and changes
-- the index once the group is durable. Opening a store replays the journal. The engine
-- (v1/internal/engine) drives deployments over the store's operations: a run takes the lease, persists
-- each state before its work, verifies, and on a failure plans a rollback and deploys the previous
-- version; a recovery settles what a crash has left, and a worker empties the outbox. The API asks
-- the tokens (v1/internal/auth) and the configuration's roles (v1/internal/config) what a caller may.
-- What a deploy prints passes through the redactor (v1/internal/redact) before it is stored, and a
-- deployment is named by an id that grows with time (v1/internal/ulid).
--
-- Files and code:
--   Prelude            shared names, Boolean tests, lists over the native numbers, Go's maps
--   Store/State        store/model.go: State, the table of transitions; State/Paths: histories
--   Store/Rows         store/model.go: the rows; store/journal.go: record
--   Store/Journal      store/journal.go: encodeRecord, appendGroup, replay; its children: one frame
--                      (Frames), the loop as a relation (Scans), reopening (Recovery), one append
--                      (Appends), failed writes (ShortWrites)
--   Store/Index        store/store.go: the maps of Store, applyRecord, putStep
--   Store/Transactions store/store.go: Tx, begin, add, commit, Open; Outcomes: how a commit ends
--   Store/Audit        store/store.go: auditHash, appendAuditTx, AppendAudit, VerifyAudit
--   Store/Leases       store/store.go: AcquireLease, RenewLease, ReleaseLease, BreakLease, LeaseHeld,
--                      checkFenceLocked; Exclusion: who passes the fence check
--   Store/Deployments  store/store.go: CreateDeployment, transition, UpdateDeployment; Outcomes
--   Store/Outbox       store/store.go: enqueueTx, Enqueue, DueOutbox, MarkDelivered, MarkFailed,
--                      backoff; Delivery: when notes are due
--   Store/Tables       store/store.go: RecordStep, RecordSample, RecordApproval, SetFreeze,
--                      Freeze; Approvals: one user approves once
--   Store/Queries      store/store.go: the reading methods
--   Store/Operations   the writing methods as one type, and sequences of calls
--   Store/Durability   the index and the journal stay in step, for each operation
--   Store/Progress     what no operation takes back, for each operation
--   Config/Schema      config/schema.go: what the engine reads, DenyWindow.Contains, Can; Access: what
--                      a permission takes
--   Engine/World       the executor's surroundings and its operations as a monad; Frames: what an
--                      operation does to the machine, one rule for each way to build one; Triples:
--                      what holds behind it, where it returns and where it fails
--   Engine/Events      engine/executor.go: the events, transitionAndNotify, recordError
--   Engine/Gates       engine/executor.go: awaitGates, checkSchedule, waitForApproval,
--                      ApprovalIsValid; Consent: what an approval has to be
--   Engine/Steps       engine/executor.go: preflight, deploy, verify, runCanary, promote;
--                      Preflight: what a preflight has seen to
--   Engine/Failure     engine/executor.go: handleFailure, executeRollback
--   Engine/Run         engine/executor.go: Run, Abort; Loaded, Success: the row that they end on;
--                      Calls, Order, Outside: what a run does to the store and outside
--   Engine/Reconcile   engine/reconcile.go: Reconcile, reconcileTransition, markUnknown
--   Engine/Within      every operation stays within the frames that admit its effects
--   Engine/Verify      engine/verify.go: EvaluateCriterion, sampleAll, Verify, on rounds that are given;
--                      Live: against the store; Rounds, Bake: what it returns
--   Engine/Rollback    engine/rollback.go: the comparison of versions, the migration floor, PlanRollback
--   Engine/Outbox      engine/outbox.go: Drain; Retries: what a refused note keeps
--   Auth/Tokens        auth/auth.go: Token, Issue, Add, Lookup, Revoke, Authorizer.Can; Lookups,
--                      Revocations, Scopes: what they promise
--   Redact/Writer      redact/redact.go: the redactor over bytes; Chunks: how a text is cut
--   Ulid/Ids           ulid/ulid.go: NewAt; Order: that ids grow
--   Fixtures and the modules whose names end in Tests hold examples.
--
-- How code becomes definitions: a method under the store's mutex is a function of an `Env` (the
-- clock's reading, and what the disk does with the group), its arguments and the `Store`, to a
-- `Result` and the next `Store`; a method that reads the clock twice sees one time. Errors are
-- values without their texts. Maps are association lists; times and counters are natural numbers; a
-- float64 is its bit pattern, with its arithmetic as the parameter `Floats`. JSON, CRC-32, SHA-256
-- and the text of a time are the parameter `Platform`; that a record which could be encoded decodes
-- to itself is the hypothesis `IsCodec`.
--
-- An operation of the executor is a function of the `Machine` (the store, the row in memory, the
-- number of calls so far, and what was done outside) to an `Outcome` and the next machine. What lies
-- outside is the `World`: the provider's answers, the clock, the cancellations and the loss of the
-- lease at each call, and the calls of other processes that fall before it, the heartbeat's included.
--
-- Bounds and fuel: the loop of `replay` runs on the length of the file, and each of its rounds
-- takes at least the twelve bytes of a header, so it never runs out; a wait for an
-- approval runs on the nanoseconds up to its deadline and one more; the other loops recurse on
-- their lists. Fence tokens and ids are not wrapped at 64 bits.
--
-- Not modelled: the API, the reading of configuration files, the dashboard, metrics, the executor's
-- calls of the redactor (its texts are taken as redacted), the text of a ULID, the adapters to
-- providers, verifiers and Slack, and the commands. InTx, SetLeaseTTL and the listing of freezes
-- are left out of the store; so are the log messages and the contexts of its calls, and of the
-- executor its constructor, the hooks, which are nil in production, and the texts of its errors.
pub mod Prelude
pub mod Store
pub mod Config
pub mod Engine
pub mod Auth
pub mod Redact
pub mod Ulid
