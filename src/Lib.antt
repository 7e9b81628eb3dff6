-- ===== src/Lib.antt =====
-- Models and theorems for XERV, a workflow orchestration engine in Rust.
--
-- XERV runs traces: executions of a flow, a graph of nodes. A trigger asks for a trace, a dispatch
-- backend queues the request until a worker takes it, the circuit breaker of the pipeline lets it
-- through, the executor runs the nodes in the order of the graph and writes a record of each step to
-- the write-ahead log, and after a crash the log tells which traces to resume. In a cluster the
-- states of traces and pipelines are replicated by Raft, as commands applied to a state machine.
--
-- Files, by the code they model (paths from the repository's root):
--   CircuitBreaker    xerv-executor/src/circuit_breaker.rs: `allow_request`, `record_success`,
--                     `record_failure`, `failure_count` and `reset` on the state of the breaker
--   FlowGraph         xerv-executor/src/scheduler/graph.rs: building the graph and its indices,
--                     `topological_sort` (Sort), `reachable_nodes` (Reach), `validate` (Validate)
--   Dispatch.Request  xerv-core/src/dispatch/request.rs: a request for a trace and its builder
--   Dispatch.Memory   xerv-core/src/dispatch/memory.rs: the in-memory backend, with `enqueue`,
--                     `dequeue`, `ack`, `nack` and `shutdown`
--   Cluster           xerv-cluster/src/command.rs (Command), xerv-cluster/src/state/machine: the
--                     replicated state (State), `apply_command` (Apply), the state machine with its
--                     snapshots (Machine)
--   Wal               xerv-core/src/wal/record.rs (Record, RecordType), the bytes of records; and
--                     xerv-core/src/wal/writer/reader.rs (Reader), reading files and replaying records
--   Suspension        xerv-executor/src/suspension: suspended traces, the in-memory store (Store) and
--                     the processor of timeouts (Timeout)
--   NodeOutput        xerv-core/src/traits/node.rs, xerv-core/src/types/pointer.rs,
--                     xerv-core/src/suspension.rs: what a node returns to the executor
--   TraceState        xerv-executor/src/trace/mod.rs: what the executor knows of a running trace
--   Executor          xerv-executor/src/scheduler/executor.rs: building the executor, starting and
--                     finalizing a trace, and the loop of `execute_trace` (Run);
--                     xerv-executor/src/scheduler/suspension.rs: suspending and resuming (Suspend)
--   Arena             xerv-core/src/arena: the header of an arena's file (header.rs), and writing,
--                     reading, closing and opening an arena (writer.rs)
--   Recovery          xerv-executor/src/recovery: the crash replayer and its report
--   Errors, Ids       the errors, their codes and kinds, and the identifiers that these share
--                     (xerv-core/src/error.rs, xerv-core/src/types/ids.rs)
--   HashMap, Prelude  Rust's maps, and lists, tests and results
-- A component's file holds its state and operations, under the names of the source; the modules
-- below it hold proofs, and its Scenarios run it on concrete data.
--
-- Conventions. A method on `&mut self` is a function from the state to the state and the result. Locks
-- and atomics make each operation one step; where the code waits between two steps (`dequeue`), the
-- model has two functions, and calls may come between them. Clocks are arguments. Machine integers
-- are natural numbers that wrap where the code counts (`% 2 ^ 64`) and stop at 0 where it saturates.
-- A `HashMap` is an association list, whose order stands for the unspecified order of iteration.
-- `Result` is Prelude's; a panic is an error value of its own (`slice_panic`, `panic`). The loop of
-- `execute_trace` is a relation between states: at each of its await points an event says what
-- happens next, such as the end of a task, a permit for a waiting one, or a call for another trace,
-- and a theorem about it holds for every order of events. A task is in one of three lists: waiting for
-- the semaphore, holding a permit, or ended but not joined. The answers of the file system, of the
-- log and of a suspension store are arguments of the operations that ask for them.
--
-- Fuel. The loop of `topological_sort` gets one more round than there are nodes with an in-degree, as
-- each round sorts another node; the search of `reachable_nodes` gets one round for each entry
-- point and each edge, and one more, as a round takes one node off the queue and each edge is
-- followed once; the loop over a WAL file gets one more round than there are bytes, as each record
-- takes at least 29. Theorems show that the fuel is enough.
--
-- Parameters stand for code outside the repository: crc32fast's checksum, the decoder of bytes that
-- may not be UTF-8, serde_json's form of the cluster state and of metadata, openraft's memberships,
-- and the texts that `format!` makes of values. What the nodes of a flow return is an argument, and
-- any answer is allowed.
--
-- Not modelled: logging, metrics, input and output, the asynchronous runtime, the HTTP interface,
-- clients of Redis, NATS and Kubernetes, WebAssembly, and the command line, which have little logic
-- of their own; and the compaction of arenas, the writer of the log, Raft's storage, schemas, the
-- linker, the flow's nodes and the operator's controllers.
pub mod Prelude
pub mod HashMap
pub mod Errors
pub mod Ids
pub mod CircuitBreaker
pub mod FlowGraph
pub mod Dispatch
pub mod Cluster
pub mod Wal
pub mod Suspension
pub mod NodeOutput
pub mod TraceState
pub mod Executor
pub mod Arena
pub mod Recovery
