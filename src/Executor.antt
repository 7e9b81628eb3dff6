-- ===== src/Executor.antt =====
-- xerv-executor/src/scheduler/executor.rs: the executor's state, starting a trace, spawning its ready
-- nodes and processing their results. What the file system and the clock answer is an argument, and so
-- is what a node returns; logging is left out. Run has the loop of `execute_trace`.
pub mod Suspend
pub mod Scenarios
mod Losses
pub mod Run
use xerv.Prelude.{
  ℕ, ◌%◌, ◌^◌, String, Bool, true, false, not, ◌&&◌, Option, none, some, List, [], ◌∷◌, ◌++◌,
  if◌then◌else◌, filter_by, leb, ltb, Result, ok, err, ◌>>=◌, get_or, nat_eq,
}
use xerv.HashMap
use xerv.HashMap.{HashMap, HashSet, len, contains_key}
use xerv.Errors.{
  XervError, XervResult, node_execution, node_timeout, node_not_found, concurrency_limit,
}
use xerv.FlowGraph.{FlowGraph, topological_sort, validate}
use xerv.NodeOutput.{RelPtr, NodeOutput, SuspensionRequest, complete, error, suspend}
use xerv.Suspension.Store.{MemorySuspensionStore}
use xerv.TraceState.{
  TraceState, new_trace, is_node_ready, collect_inputs, mark_executing, record_output,
}
use xerv.Wal.Record.{Text, WalRecord}
use xerv.Wal.Record

-- The texts that the code formats: an error's, a node's name, a suspension's metadata in the log, and
-- the message of a taken hook; and the bytes of a text.
pub record Texts (Value : Type 0) : Type 0 where
  pub display : XervError → String
  pub node_name : ℕ → String
  pub suspension : SuspensionRequest Value → RelPtr → String
  pub hook_exists : String → String
  pub utf8 : String → Text

pub record ExecutorConfig : Type 0 where
  pub max_concurrent_traces : ℕ
  pub max_concurrent_nodes : ℕ
  pub node_timeout_ms : ℕ

-- ExecutorConfig::default
abbrev pub default_config : ExecutorConfig
default_config = record {
  max_concurrent_traces = 100;
  max_concurrent_nodes = 16;
  node_timeout_ms = 30_000;
}

-- The environment's variables, parsed.
abbrev pub from_env : Option ℕ → Option ℕ → Option ℕ → ExecutorConfig
from_env max_nodes max_traces timeout_ms = record {
  max_concurrent_traces = get_or max_traces 100;
  max_concurrent_nodes = get_or max_nodes 16;
  node_timeout_ms = get_or timeout_ms 30_000;
}

abbrev pub with_max_concurrent_nodes : ExecutorConfig → ℕ → ExecutorConfig
with_max_concurrent_nodes config max = record config {
  max_concurrent_nodes = if ltb max 1 then 1 else max;
}

-- `nodes` holds the identifiers of the nodes that have an implementation.
pub record Executor (Value : Type 0) : Type 0 where
  pub config : ExecutorConfig
  pub graph : FlowGraph
  pub nodes : HashSet ℕ
  pub traces : HashMap ℕ (TraceState Value)
  pub wal : List WalRecord
  pub execution_order : List ℕ
  pub pipeline_id : Option String
  pub suspension_store : Option (MemorySuspensionStore Value)

pub record TriggerEvent : Type 0 where
  pub trigger_id : String
  pub trace_id : ℕ
  pub data_ : RelPtr

-- A task of the `JoinSet`, with the inputs that its context captures.
pub record Task : Type 0 where
  pub node_id : ℕ
  pub inputs : HashMap String RelPtr

-- What `node.execute` under its timeout comes to.
pub data Answer (Value : Type 0) : Type 0 where
  returned : NodeOutput Value → Answer Value
  failed : XervError → Answer Value
  timed_out : Answer Value

-- What `join_next` returns. A panic does not name its node to the code.
pub data JoinResult (Value : Type 0) : Type 0 where
  finished : ℕ → XervResult (NodeOutput Value) → JoinResult Value
  panicked : ℕ → JoinResult Value

-- A semaphore of `max_concurrent_nodes` permits stands between the first two lists.
pub record JoinSet (Value : Type 0) : Type 0 where
  pub waiting : List Task
  pub running : List Task
  pub done : List (JoinResult Value)

-- The variables of `execute_trace`.
pub record Execution (Value : Type 0) : Type 0 where
  pub executor : Executor Value
  pub spawned : HashSet ℕ
  pub tasks : JoinSet Value

abbrev pub not_found : ℕ → ℕ → XervError
not_found node_id trace_id = node_execution node_id trace_id "Trace not found"

module _ {Value : Type 0} where
  abbrev pub idle_executor :
      ExecutorConfig
      → FlowGraph
      → HashSet ℕ
      → List WalRecord
      → Option String
      → Option (MemorySuspensionStore Value)
      → List ℕ
      → Executor Value
  idle_executor config graph nodes wal pipeline_id store order = record {
    config = config;
    graph = graph;
    nodes = nodes;
    traces = [];
    wal = wal;
    execution_order = order;
    pipeline_id = pipeline_id;
    suspension_store = store;
  }

  new_by :
      ExecutorConfig
      → FlowGraph
      → HashSet ℕ
      → List WalRecord
      → Option String
      → Option (MemorySuspensionStore Value)
      → XervResult (Unit {0})
      → Option (XervResult (List ℕ))
      → Option (XervResult (Executor Value))
  new_by config graph nodes wal pipeline_id store (err e) sorted = some (err e)
  new_by config graph nodes wal pipeline_id store (ok _) none = none
  new_by config graph nodes wal pipeline_id store (ok _) (some (err e)) = some (err e)
  new_by config graph nodes wal pipeline_id store (ok _) (some (ok order)) =
      some (ok (idle_executor config graph nodes wal pipeline_id store order))

  -- `Executor::new` and `with_suspension_store`; `none` when the fuel of the sort runs out.
  unfoldable pub new_executor :
      ExecutorConfig
      → FlowGraph
      → HashSet ℕ
      → List WalRecord
      → Option String
      → Option (MemorySuspensionStore Value)
      → Option (XervResult (Executor Value))
  unfolding new_by
  new_executor config graph nodes wal pipeline_id store = elim (validate graph) [
    | none ↦ none
    | some checked ↦
        new_by config graph nodes wal pipeline_id store checked (topological_sort graph)
  ]

  -- `wal.write`, which the file system answers.
  unfoldable pub write : XervResult (Unit {0}) → WalRecord → Executor Value → Executor Value
  write (ok _) r ex = record ex { wal = ex.wal ++ r ∷ [] }
  write (err _) r ex = ex

  abbrev pub insert_trace : Executor Value → ℕ → TraceState Value → Executor Value
  insert_trace ex trace_id trace = record ex { traces = HashMap.insert ex.traces trace_id trace }

  -- `self.traces.remove(&trace_id)`, and the deletion of its arena's file.
  abbrev pub remove_trace : Executor Value → ℕ → Executor Value
  remove_trace ex trace_id = record ex { traces = HashMap.remove ex.traces trace_id }

  -- `as u32`
  abbrev pub limit_error : Executor Value → XervError
  limit_error ex =
      concurrency_limit (get_or ex.pipeline_id "executor") (len ex.traces % 2 ^ 32)
        (ex.config.max_concurrent_traces % 2 ^ 32)

  -- The end of `start_trace`, with the arena and the answer of the log.
  start_with :
      Executor Value
      → TriggerEvent
      → ℕ
      → XervResult (Unit {0})
      → XervResult String
      → Executor Value × XervResult ℕ
  start_with ex event now io (err e) = (ex, err e)
  start_with ex event now io (ok arena) = (
    write io (Record.trace_start now event.trace_id) (
        insert_trace ex event.trace_id
          (new_trace event.trace_id arena event.trigger_id event.data_)),
    (io >>= λ _. ok event.trace_id),
  )

  unfoldable pub start_trace :
      Executor Value
      → TriggerEvent
      → ℕ
      → XervResult String
      → XervResult (Unit {0})
      → Executor Value × XervResult ℕ
  unfolding start_with
  start_trace ex event now arena io =
      if leb ex.config.max_concurrent_traces (len ex.traces)
      then (ex, err (limit_error ex))
      else start_with ex event now io arena

  abbrev pub is_due : Executor Value → TraceState Value → HashSet ℕ → ℕ → Bool
  is_due ex trace spawned node_id =
      not (contains_key spawned node_id) && is_node_ready trace node_id ex.graph

  unfoldable pub find_ready_nodes : Executor Value → ℕ → HashSet ℕ → XervResult (List ℕ)
  find_ready_nodes ex trace_id already_spawned = elim (HashMap.get ex.traces trace_id) [
    | none ↦ err (not_found 0 trace_id)
    | some trace ↦ ok (filter_by (is_due ex trace already_spawned) ex.execution_order)
  ]

  -- `traces.get_mut(&trace_id)` and a change through it.
  unfoldable pub change_trace :
      Executor Value → ℕ → (TraceState Value → TraceState Value) → Executor Value
  change_trace ex trace_id f = elim (HashMap.get ex.traces trace_id) [
    | none ↦ ex
    | some trace ↦ insert_trace ex trace_id (f trace)
  ]

  abbrev pub push_task : JoinSet Value → Task → JoinSet Value
  push_task tasks task = record tasks { waiting = tasks.waiting ++ task ∷ [] }

  -- The rest of the spawning, with the context of `prepare_node_execution`.
  spawn_with :
      Texts Value
      → ℕ
      → ℕ
      → Execution Value
      → Bool
      → Option (TraceState Value)
      → Execution Value × XervResult (Unit {0})
  spawn_with texts trace_id node_id x implemented none = (x, err (not_found node_id trace_id))
  spawn_with texts trace_id node_id x false (some trace) =
      (x, err (node_not_found (texts.node_name node_id)))
  spawn_with texts trace_id node_id x true (some trace) = (
    record x {
      executor = insert_trace x.executor trace_id (mark_executing trace node_id);
      tasks =
          push_task x.tasks
            (record { node_id = node_id; inputs = collect_inputs trace node_id x.executor.graph });
    },
    ok tt,
  )

  unfoldable pub spawn :
      Texts Value → ℕ → ℕ → Execution Value → Execution Value × XervResult (Unit {0})
  unfolding spawn_with
  spawn texts trace_id node_id x =
      spawn_with texts trace_id node_id (record x { spawned = HashMap.insert x.spawned node_id tt })
        (contains_key x.executor.nodes node_id) (HashMap.get x.executor.traces trace_id)

  spawn_on :
      Execution Value × XervResult (Unit {0})
      → (Execution Value → Execution Value × XervResult (Unit {0}))
      → Execution Value × XervResult (Unit {0})
  spawn_on (x, ok _) later = later x
  spawn_on (x, err e) later = (x, err e)

  -- `for node_id in ready_nodes`, which an error ends.
  unfoldable pub spawn_all :
      Texts Value → ℕ → List ℕ → Execution Value → Execution Value × XervResult (Unit {0})
  unfolding spawn_on
  spawn_all texts trace_id [] x = (x, ok tt)
  spawn_all texts trace_id (node_id ∷ ready) x =
      spawn_on (spawn texts trace_id node_id x) (λ y. spawn_all texts trace_id ready y)

  abbrev after_write :
      XervResult (Unit {0}) → XervResult (NodeOutput Value) → XervResult (NodeOutput Value)
  after_write io result = io >>= λ _. result

  -- The record that `execute_single_node` writes, if it writes one.
  abbrev pub node_record : Texts Value → ℕ → ℕ → ℕ → Answer Value → Option WalRecord
  node_record texts now trace_id node_id (returned (complete port ptr schema_hash)) =
      some (Record.node_done now trace_id node_id ptr.offset ptr.size schema_hash)
  node_record texts now trace_id node_id (returned (error message ptr)) =
      some (Record.node_error now trace_id node_id (texts.utf8 message))
  node_record texts now trace_id node_id (returned (suspend request ptr)) = none
  node_record texts now trace_id node_id (failed e) =
      some (Record.node_error now trace_id node_id (texts.utf8 (texts.display e)))
  node_record texts now trace_id node_id timed_out =
      some (Record.node_error now trace_id node_id (texts.utf8 "Timeout"))

  abbrev pub answer_result : ℕ → ℕ → ℕ → Answer Value → XervResult (NodeOutput Value)
  answer_result timeout_ms trace_id node_id (returned output) = ok output
  answer_result timeout_ms trace_id node_id (failed e) = err e
  answer_result timeout_ms trace_id node_id timed_out =
      err (node_timeout node_id trace_id timeout_ms)

  written :
      XervResult (Unit {0})
      → Option WalRecord
      → XervResult (NodeOutput Value)
      → Executor Value
      → Executor Value × XervResult (NodeOutput Value)
  written io none result ex = (ex, result)
  written io (some r) result ex = (write io r ex, after_write io result)

  unfoldable pub execute_single_node :
      Texts Value
      → ℕ
      → ℕ
      → ℕ
      → Answer Value
      → XervResult (Unit {0})
      → Executor Value
      → Executor Value × XervResult (NodeOutput Value)
  unfolding written
  execute_single_node texts now trace_id node_id answer io ex =
      written io (node_record texts now trace_id node_id answer)
        (answer_result ex.config.node_timeout_ms trace_id node_id answer) ex

  unfoldable pub finalize_trace :
      Executor Value → ℕ → ℕ → XervResult (Unit {0}) → Executor Value × XervResult (Unit {0})
  finalize_trace ex trace_id now (ok _) =
      (remove_trace (write (ok tt) (Record.trace_complete now trace_id) ex) trace_id, ok tt)
  finalize_trace ex trace_id now (err e) = (ex, err e)

  abbrev pub active_trace_count : Executor Value → ℕ
  active_trace_count ex = len ex.traces

  remove_traces : Executor Value → List ℕ → Executor Value
  remove_traces ex [] = ex
  remove_traces ex (id ∷ ids) = remove_traces (remove_trace ex id) ids

  unfoldable pub shutdown : Executor Value → Executor Value
  unfolding remove_traces
  shutdown ex = remove_traces ex (HashMap.keys ex.traces)
