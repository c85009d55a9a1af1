-- ===== src/Lib.antt =====
-- A model of the queue, its runner, the spend ledger and the interchange library of this
-- repository, and what holds of it.
--
-- The parts, the files that model them, and the sources:
--   Core          crates/symbiotic-core/src: the closed vocabularies of diagnostics and failure
--                 classes (diagnostics.rs), and the identities (lib.rs)
--   Model         `ModelError` of crates/symbiotic-model/src/lib.rs
--   Spend         the spend ledger: the types of crates/symbiotic-model/src/spend.rs (Spend.Types),
--                 and its SQLite implementation, crates/symbiotic-ai-runtime/src/spend.rs, on the
--                 tables that crates/symbiotic-queue-sqlite/src/lib.rs creates. Spend.Store has the
--                 rows and `receipt_in`, `invocation_in`; Spend.Reserve `reserve_with_limit_in` and
--                 `reserve_handoff_in`; Spend.Finish `finish_in` and `release_in`; Spend.Recovery the
--                 saved answers; Spend.Calls the methods of `SpendLedger` on `SqliteSpendLedger`;
--                 Spend.Unavailable the ledger that refuses; Spend.Histories calls as data.
--   Queue         the queue contract and its in-process backend, crates/symbiotic-queue/src/lib.rs
--                 and memory.rs. Queue.Types has the records and enums of lib.rs, Queue.State the
--                 `State` behind the lock with `set_status`, `evict_terminal`, `reclaim_expired`,
--                 `retire_if_exhausted` and `lease`; Queue.Ready, Queue.Claim, Queue.Enqueue and
--                 Queue.Running the work under the lock of `claim`, `claim_item`, `enqueue_inner`,
--                 `heartbeat`, `complete` and `fail_with`; Queue.Reply the lock, the poisoning and the
--                 events; Queue.Backend the operations of `QueueBackend` under their own names;
--                 Queue.Calls a client's call as data, and histories of calls. Queue.Latency has the
--                 telemetry of lib.rs.
--   Jobs          the runner of crates/symbiotic-queue/src/runner.rs over the records of jobs.rs
--                 (Jobs.Types): Jobs.Runner has `observe_heartbeat` and `execute`, Jobs.Supervision
--                 `start`, `worker`, `maintain`, `start_owned` and the handle `JobRunner`.
--   Portability   crates/symbiotic-portability: Model (model.rs, lib.rs), Checks, Artifacts, Bundles,
--                 Bytes and Decode (validate.rs), Tables (table.rs).
--   Base          shared helpers: tests on numbers, maps, texts, loops that refuse repetitions.
--   Examples      each theorem at a concrete input.
-- The proofs about the queue go from the state outwards: Queue.Inv is the invariant of the state
-- and what each piece of work does to it, Queue.Safe that each call keeps a queue sound and
-- returns, and Queue.Contract what the calls promise. Those about the ledger are laid out alike:
-- Spend.Inv, Spend.Safe and Spend.Contract. Portability.Accepts, Scopes, Paths, Streams
-- and Presentations are the proofs about interchange. A queue carries codes of Core in its items,
-- its errors and its events, a ledger those of Model in its errors; the other parts do not depend
-- on each other.
--
-- Conventions. A `DateTime<Utc>` is a number of nanoseconds since the earliest one. The readings
-- of the clock that a call makes, and the identifier that it draws, are arguments. Chrono's
-- addition of seconds (`add_seconds`), its date parser (`is_date`), the csv crate, a `Read` and
-- SHA-256 are parameters. serde_json is three of them: the trees that it reads of some bytes,
-- where a visitor skips values and where it visits them, and the typed decoding. A JSON payload is
-- a type parameter. A hash map is an association list, a hash set a list without repetition.
-- `expect` and indexing that fail are the outcome `panicked`; a panic under the lock poisons it.
-- An operation holds the lock while it works, so that calls from many threads are a sequence of
-- calls in some order; events are sent after the lock is released, in the model at once. A call is
-- admissible when the identifier that it draws is new and chrono can express the date of a retry,
-- without which `fail` and `fail_with` panic. `saturating_add` on attempts and sizes is written
-- out, and so is the wrap of `as i64` in `fail` and of the count in `verify_artifact_bytes`. The
-- loop of `verify_artifact_bytes` has one turn more than the bytes that it may take. The loop
-- of `expire_recovery` has one turn more than there are expired answers. Text is compared by code
-- points, which is the order of its UTF-8.
--
-- Conventions of the ledger. An SQL statement is a function on the list of rows, newest first, with
-- the constraints of the tables written out. A column of JSON text holds the value that serde_json
-- wrote and reads back, so that equal texts are equal values; a date is a number, ordered as its
-- RFC 3339 text is for the years 0 to 9999. A transaction that answers is committed, and one that
-- fails leaves the tables; a poisoned lock refuses. Outside (`World`) are the tables of the job
-- store, serde_json's reading of an invocation and a binding, the digest of an identity, and chrono.
-- `attempts_used - 1` is on an unsigned number, which the invariant keeps above zero there.
--
-- Conventions of the runner. What `select!` sees is a sequence of events in their order: how the
-- handler ends, the answers of the store to heartbeats, claims and completions, the stop flag at the
-- head of each turn, the ends of the tasks. Requests are collected in the order in which they are
-- sent. Loops that go on for ever run over the turns that are given. A duration is a number of
-- nanoseconds.
--
-- Not modelled: the walk over the file system in validate.rs, the messages of the diagnostics, the
-- conformance tests of symbiotic-queue, the SQLite backend of the queue and of the jobs, failures
-- of SQLite itself, the rest of the crates symbiotic-ai-runtime and symbiotic-model, and the crates
-- symbiotic-credential-process, symbiotic-egress, symbiotic-trace (but for its usage record) and
-- symbiotic-supervise.
pub mod Base
pub mod Core
pub mod Model
pub mod Spend
pub mod Jobs
pub mod Queue
pub mod Portability
pub mod Examples
