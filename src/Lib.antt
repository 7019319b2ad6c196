-- ===== src/Lib.antt =====
-- Agora ETL runs records from a source through middlewares to a sink, with checkpoints, acknowledgements
-- to the source, and a dead-letter queue (DLQ) for what cannot be written. This library models the parts
-- of the runtime that decide what happens to a record: the middleware chain, the linear, the buffered
-- and the batch lane, the delivery engine with the owner of its pending writes, the sinks' fan-out,
-- the DLQ's redaction policy, retries, the circuit breaker, backpressure and the schema of the records;
-- and beside it the scheduler of runs, deduplication with its stores, and the JSONL source.
--
-- How the parts interact. A lane reads records or batches from the source, runs them through the
-- middleware chain, and hands each processed record, or a batch of them, to the delivery engine. The
-- engine asks the run fence, calls the writer (a fan-out of sinks), and turns the writer's answers into
-- outcomes. A failed record goes to the DLQ if the failure taxonomy finds it eligible. An
-- outcome that may be committed counts towards the next checkpoint and runs the record's success hooks.
-- Beside the engine, a circuit breaker guards the sources' calls, a controller moves the limit on
-- records in flight, and the schema modules infer and merge the columns of the records.
--
-- The files, and what they model:
--   Prelude, Prelude/Tests, Prelude/Lists: shared names, tests on numbers, lists.
--   Failures: src/agora/core/failures/__init__.py, `classify_failure`; the exceptions are a data type.
--     Failures/Laws has its theorem.
--   Delivery/Types, Delivery/World: the value objects (src/agora/core/runtime/_delivery_types.py,
--     src/agora/core/writer/_result.py), the state of a run and the collaborators. A record is named by
--     its identity. A collaborator (sink, DLQ sink, checkpoint store, hook, fence) is a function of the
--     calls made so far, so that it may answer differently each time and raise at any call.
--   Delivery/Exec: coroutines as functions from a state to a result and a state; what was done before an
--     exception stays done.
--   Delivery/Calls: src/agora/core/fencing.py, `WriterTransport.write_one` and `write_batch` of
--     src/agora/core/runtime/_writer_transport.py, the success hooks of
--     src/agora/core/context/_model.py.
--   Delivery/Checkpoints: `CheckpointState` of src/agora/core/runtime/_delivery_state.py and
--     `CheckpointManager` of src/agora/core/runtime/_delivery_support.py.
--   Delivery/Dlq: `DLQWriter` of src/agora/core/runtime/_delivery_support.py.
--   Delivery/Results: src/agora/core/runtime/_delivery_results.py.
--   Delivery/Batching: src/agora/core/runtime/_delivery_batching.py.
--   Delivery/Engine: `DeliveryEngine` of src/agora/core/runtime/_delivery.py: `drop_record`,
--     `write_processed_record`, `queue_success_record`, `queue_processed_record`,
--     `flush_pending_writes`, `dispatch_processed_result`.
--   Delivery/Direct: `DeliveryEngine.flush_batch_direct`.
--   Delivery/BatchWrite: src/agora/core/runtime/_delivery_batch_write.py and
--     `DeliveryEngine.write_batch_result`.
--   Delivery/Trace, Delivery/Gate, Delivery/Counts with their children: the calls that an action adds to
--     the log, what is known after each step of an action, and the counters of records.
--   Delivery/Accounting, Delivery/ForgottenHooks, Delivery/SuccessBatch, Delivery/Batching/Split,
--     Delivery/Gate/Records: theorems on the engine. Delivery/Samples and the Tests modules hold
--     concrete runs.
--   Delivery/Exec/Returns: actions that return from every state.
--   Middleware, Middleware/Losses: `MiddlewareChain` of src/agora/core/middleware/_chain.py,
--     `Middleware` of src/agora/core/middleware/base.py, map and filter of
--     src/agora/core/middleware/_builtins.py and `BatchMiddleware` of src/agora/core/batch.py.
--   Lanes/Arrow, Lanes/Batches, Lanes/Pipelined, Lanes/Stages: `BatchLaneStrategy` of
--     src/agora/core/runtime/_lanes/_batch.py. The two pipelined paths share their loops, which are
--     over entries of either kind. Lanes/ArrowLaws, Lanes/Passthrough, Lanes/Pipelined/Order,
--     Lanes/Pipelined/Room, Lanes/Pipelined/Commits and Lanes/ListCommits have the theorems,
--     Lanes/OutOfOrder two runs.
--   Lanes/Linear, Lanes/Gated, Lanes/Ahead: `LinearLaneStrategy` of
--     src/agora/core/runtime/_lanes/_linear.py.
--   Lanes/Buffered, Lanes/Buffered/Commits: `_run_single_buffered_stage` of
--     src/agora/core/runtime/_lanes/_buffered.py, on the loops of Lanes/Pipelined.
--   Pending, Pending/Invariant, Pending/Drains: src/agora/core/runtime/_delivery_pending.py. The owner
--     task and the producer are a step relation: each step is what one of them does between awaits.
--   Memory, Memory/Finds, Memory/Counts, Memory/Agrees, Memory/Refines: `MemoryBackend` of
--     src/agora/state/backend.py, with the time of each call as an argument. A map in which nothing is
--     removed for its age is its specification.
--   Membership, Membership/Keys: src/agora/state/membership.py and src/agora/state/cache.py.
--   Dedup, Dedup/Exact, Dedup/Apart: src/agora/middlewares/dedup/middleware.py over the interface of
--     stores/base.py. The keys of the success hooks that wait in the context stand for the records in
--     flight. Dedup/InMemory is stores/memory.py; Dedup/Marks, Dedup/Order, Dedup/Trim, Dedup/Recent and
--     Dedup/Stores have its theorems.
--   Scheduler, Scheduler/Told, Scheduler/Rounds, Scheduler/Streaks: src/agora/runner/runtime.py,
--     src/agora/runner/scheduled.py and src/agora/runner/policies.py. How the calls that the loop
--     awaits end is given round by round.
--   Redaction, Redaction/Safe: `DLQPayloadPolicy.apply` of src/agora/core/dlq_policy.py.
--   Retry, Retry/Attempts: src/agora/core/retry.py.
--   Sinks, Sinks/Paths: `SinkFanOut` of src/agora/core/sink/_writers.py. Sinks/Router, with its children,
--     is `SinkRouter`.
--   Sources: how a generator is read, and src/agora/sources/file/base.py. Sources/JsonLines:
--     `JsonLinesSource` of src/agora/sources/file/jsonlines.py over the lines of its file; its parser,
--     its row mapper and what the iteration over the file raises are parameters; Grouping, ReadAhead,
--     Reading, Saved, Resuming, Chunks, Batches and Cut compare its ways of reading and its runs. The
--     fuel of `read_records` is one more than the lines, and every turn that finds a row reads a line.
--     Sources/Limited: `LimitedSource` of src/agora/core/source/_wrappers.py.
--   Schema, Schema/Widening: src/agora/schema/types.py and src/agora/schema/inference.py.
--   Schema/Evolution, Schema/Merging, Schema/Lookup, Schema/Freezing: src/agora/schema/evolution.py.
--   Schema/Processor, Schema/Processor/Nulls, Schema/Processor/Frozen: `SchemaProcessor` of
--     src/agora/schema/runtime.py and src/agora/schema/records.py, for records that are dictionaries.
--   Schema/Dicts: `to_dict` and `from_dict` of src/agora/schema/types.py.
--   Breaker, Breaker/Runs: src/agora/sources/_internal/circuit_breaker.py. Calls overlap, so a run is a
--     sequence of admissions, successes, failures and resets.
--   Backpressure, Backpressure/Bounds: src/agora/core/runtime/_buffered_backpressure.py.
--
-- Bounds and fuel: the loop of `retry_async` runs on fuel, `max_attempts`, since each round but the last
-- is a retry that the policy allows. The loops of the pipelined lane that run while batches are pending
-- have as many rounds as there are batches, since each round commits one. `read_records` of the
-- JSONL source reads on fuel for one batch more than the file has lines. Every other loop of the source
-- that is modelled runs over a list.
-- Counters are Python integers, which do not overflow.
--
-- Not modelled: what a flush of the pending-write owner does while the producer goes on queueing, the
-- Rust buffers, concurrent writes of the fan-out and of the router, the jitter of retry delays,
-- cancellation of tasks but for the scheduler's, the hot counters of the lanes, log lines, tracing and
-- times of the wall clock; several buffered stages (whose tasks change the metrics while the lane runs)
-- and the adaptive limit, the process lane, the other middlewares, stores, sources (the Arrow and CSV
-- readers and prefetching among them) and sinks, the worker pool, CLI, configuration and AI components.
mod Prelude
pub mod Failures
pub mod Dedup
pub mod Delivery
pub mod Breaker
pub mod Backpressure
pub mod Sinks
pub mod Sources
pub mod Scheduler
pub mod Schema
pub mod Redaction
pub mod Retry
pub mod Membership
pub mod Memory
pub mod Pending
pub mod Lanes
pub mod Middleware
