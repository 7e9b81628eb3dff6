-- ===== src/Executor/Scenarios.antt =====
-- A trace of a small flow, executed, suspended and resumed; and the cases in which the executor loses
-- something.
use xerv.Prelude.{
  ℕ, ◌≡◌, ◌≤◌, ◌*◌, ◌&&◌, length, ◌+◌, refl, String, true, false, none, some, List, [], ◌∷◌, ok,
  arith, nat_eq, string_eq,
}
use xerv.HashMap
use xerv.HashMap.{HashMap, contains_key}
use xerv.FlowGraph.{
  predecessors, Edge, FlowGraph, new, graph_node, add_node, add_edge, incoming_edges,
  is_loop_back_edge, outgoing_edges,
}
use xerv.FlowGraph.Index.{node, edge, change, build}
use xerv.NodeOutput.{RelPtr, null, complete}
use xerv.Suspension.{Json}
use xerv.TraceState.{
  TraceState, is_node_ready, is_activated, has_pending_input, all_preds_complete, record_output,
  mark_executing, collect_inputs, new_trace,
}
use xerv.TraceState.Laws.{IsFresh, new_trace-IsFresh}
use xerv.Wal.Record
use xerv.Wal.Record.{WalRecord}
use xerv.Executor.{
  Texts, default_config, Executor, Execution, returned, find_ready_nodes, change_trace, spawn,
  spawn_all, execute_single_node, write, finalize_trace,
}
use xerv.Executor.Run.{
  going, stopped, Event, acquire, work, join, finalize, execute_trace, turn, process_node_result,
  background, step, Reachable, start, take_at, is_empty,
}
use xerv.Executor.Run.Induction.{run, run-Reachable}
use xerv.Executor.Run.Invariant.{IsOrdered}
use xerv.Executor.Run.Invariant.{tasks_of, bit, is_spawned}
use xerv.Executor.Run.Limits.{
  Steps, one_more, none_yet, execute_trace-steps_le, HasPermits, Reachable-HasPermits,
}
use xerv.Executor.Run.Outcomes.{Reachable-IsGone}
use xerv.Executor.Suspend.{resume_trace}
use xerv.Executor.Suspend.Restore.{resume_trace-restores}
use xerv.Wal.Reader.{TraceRecoveryState, node_finished}
use xerv.Wal.Reader.{change as change_traces}
use xerv.Executor.Run.Order.{HasInputs, spawned-HasInputs, spawned_once, ended-completed}
use xerv.Executor.Run.Durable.{located_at}
use xerv.Executor.Run.Durable.Holds.{recorded-location}
use xerv.Wal.Reader.Located.{location}
use xerv.Wal.Reader.{replay, apply_record_to_traces}

abbrev pub json : Json String
json = record { null = "null"; reason = λ r. r }

abbrev pub texts : Texts String
texts = record {
  display = λ e. "error";
  node_name = λ n. "node";
  suspension = λ r p. "suspended";
  hook_exists = λ h. h;
  utf8 = λ s. [];
}

abbrev pub to : ℕ → String → ℕ → Edge
to a port b = record { from_node = a; from_port = port; to_node = b; to_port = "in" }

abbrev pub chain : FlowGraph
chain = build new (node 0 "trigger::webhook" ∷ node 1 "std::map" ∷ edge (to 0 "out" 1) ∷ [])

abbrev pub waiting_trace : TraceState String
waiting_trace = new_trace 7 "/arenas/7" "webhook" null

abbrev pub ready : Executor String
ready = record {
  config = default_config;
  graph = chain;
  nodes = (0, tt) ∷ (1, tt) ∷ [];
  traces = (7, waiting_trace) ∷ [];
  wal = Record.trace_start 1 7 ∷ [];
  execution_order = 0 ∷ 1 ∷ [];
  pipeline_id = none;
  suspension_store = none;
}

abbrev pub at : RelPtr
at = record { offset = 64; size = 8 }

abbrev first_steps : List (Event String)
first_steps = acquire 0 ∷ work 0 (returned (complete "out" at 5)) 10 (ok tt) ∷ join 0 ∷ []

abbrev after_first : Execution String
after_first = record {
  executor = record ready {
    wal = Record.trace_start 1 7 ∷ Record.node_done 10 7 0 64 8 5 ∷ [];
    traces =
        (
          7,
          record waiting_trace {
            outputs = (0, complete "out" at 5) ∷ [];
            completed = (0, tt) ∷ [];
            executing = (1, tt) ∷ [];
          },
        )
        ∷ [];
  };
  spawned = (0, tt) ∷ (1, tt) ∷ [];
  tasks = record {
    waiting = record { node_id = 1; inputs = ("in", at) ∷ [] } ∷ [];
    running = [];
    done = [];
  };
}

after_first-run :
    run json texts 7 (execute_trace texts 7 ready) first_steps ≡ some (going after_first)
unfolding run execute_trace turn process_node_result background step take_at find_ready_nodes
    change_trace spawn spawn_all execute_single_node write is_node_ready is_activated
    has_pending_input all_preds_complete record_output mark_executing collect_inputs build change
    new graph_node add_node add_edge incoming_edges is_loop_back_edge outgoing_edges predecessors
    HashMap.get HashMap.insert HashMap.remove
after_first-run = refl

after_first_reached : Reachable json texts 7 ready (going after_first)
after_first_reached =
    run-Reachable json texts 7 ready (execute_trace texts 7 ready) first_steps (going after_first)
      start after_first-run

ready-IsOrdered : IsOrdered ready
ready-IsOrdered j = ground arith

ready-IsFresh : (t : TraceState String) → HashMap.get ready.traces 7 ≡ some t → IsFresh t
unfolding HashMap.get
ready-IsFresh t q =
    let same : waiting_trace ≡ t = cc in
    rw same at (new_trace-IsFresh {V = String} 7 "/arenas/7" "webhook" null)

abbrev first_trace : TraceState String
first_trace = record waiting_trace {
  outputs = (0, complete "out" at 5) ∷ [];
  completed = (0, tt) ∷ [];
  executing = (1, tt) ∷ [];
}

first_trace_known : HashMap.get after_first.executor.traces 7 ≡ some first_trace
unfolding HashMap.get
first_trace_known = refl

spawned-HasInputs_example : HasInputs first_trace 1 chain
unfolding HashMap.get
spawned-HasInputs_example =
    spawned-HasInputs json texts 7 ready ready-IsOrdered ready-IsFresh (going after_first)
      after_first first_trace 1 after_first_reached refl first_trace_known refl

recorded-location_example : location after_first.executor.wal 7 0 ≡ some (located_at at 5)
unfolding HashMap.get HashMap.insert replay apply_record_to_traces
recorded-location_example =
    recorded-location json texts 7 ready ready-IsOrdered ready-IsFresh refl (going after_first)
      after_first first_trace 0 "out" at 5 after_first_reached refl first_trace_known refl refl

abbrev last_steps : List (Event String)
last_steps = acquire 0 ∷ work 0 (returned (complete "out" at 9)) 20 (ok tt) ∷ join 0 ∷ []

abbrev both_done : TraceState String
both_done = record waiting_trace {
  outputs = (0, complete "out" at 5) ∷ (1, complete "out" at 9) ∷ [];
  completed = (0, tt) ∷ (1, tt) ∷ [];
  executing = [];
}

abbrev ended : Execution String
ended = record {
  executor = record ready {
    wal =
        Record.trace_start 1 7
        ∷ Record.node_done 10 7 0 64 8 5
        ∷ Record.node_done 20 7 1 64 8 9
        ∷ [];
    traces = (7, both_done) ∷ [];
  };
  spawned = (0, tt) ∷ (1, tt) ∷ [];
  tasks = record { waiting = []; running = []; done = [] };
}

ended-run : run json texts 7 (going after_first) last_steps ≡ some (going ended)
unfolding run execute_trace turn process_node_result background step take_at find_ready_nodes
    change_trace spawn spawn_all execute_single_node write is_node_ready is_activated
    has_pending_input all_preds_complete record_output mark_executing collect_inputs build change
    new graph_node add_node add_edge incoming_edges is_loop_back_edge outgoing_edges predecessors
    HashMap.get HashMap.insert HashMap.remove
ended-run = refl

ended_reached : Reachable json texts 7 ready (going ended)
ended_reached =
    run-Reachable json texts 7 ready (going after_first) last_steps (going ended)
      after_first_reached ended-run

spawned_once_example :
    (tasks_of 1 after_first.tasks
        + bit (contains_key first_trace.completed 1 && is_spawned after_first 1)
      ≡ bit (is_spawned after_first 1))
    × (tasks_of 1 after_first.tasks ≡ bit (contains_key first_trace.executing 1))
spawned_once_example =
    spawned_once json texts 7 ready ready-IsOrdered ready-IsFresh after_first first_trace 1
      after_first_reached first_trace_known

ended-completed_example : contains_key both_done.completed 1 ≡ true
unfolding HashMap.get is_activated has_pending_input all_preds_complete build change new graph_node
    add_node add_edge incoming_edges is_loop_back_edge outgoing_edges predecessors HashMap.insert
    is_empty
ended-completed_example =
    ended-completed json texts 7 ready ready-IsOrdered ready-IsFresh ended both_done 1 ended_reached
      refl refl refl refl

chain_steps : Steps json texts 7 3 (execute_trace texts 7 ready) (going after_first)
unfolding run execute_trace turn process_node_result background step take_at find_ready_nodes
    change_trace spawn spawn_all execute_single_node write is_node_ready is_activated
    has_pending_input all_preds_complete record_output mark_executing collect_inputs build change
    new graph_node add_node add_edge incoming_edges is_loop_back_edge outgoing_edges predecessors
    HashMap.get HashMap.insert HashMap.remove
chain_steps = one_more _ (acquire 0) _ refl (
    one_more _ (work 0 (returned (complete "out" at 5)) 10 (ok tt)) _ refl
      (one_more _ (join 0) _ refl (none_yet _)))

execute_trace-steps_le_example : 3 ≤ 3 * length ready.execution_order + 1
execute_trace-steps_le_example =
    execute_trace-steps_le json texts 7 ready ready-IsOrdered (going after_first) chain_steps

Reachable-HasPermits_example : HasPermits (going after_first)
Reachable-HasPermits_example =
    Reachable-HasPermits json texts 7 ready ready-IsOrdered (going after_first) after_first_reached

abbrev all_done : Executor String
all_done = record ended.executor {
  wal =
      Record.trace_start 1 7
      ∷ Record.node_done 10 7 0 64 8 5
      ∷ Record.node_done 20 7 1 64 8 9
      ∷ Record.trace_complete 30 7
      ∷ [];
  traces = [];
}

finished-run :
    run json texts 7 (going ended) (finalize 30 (ok tt) ∷ []) ≡ some (stopped all_done (ok tt))
unfolding run step finalize_trace write is_empty HashMap.remove
finished-run = refl

Reachable-IsGone_example : contains_key all_done.traces 7 ≡ false
Reachable-IsGone_example = Reachable-IsGone json texts 7 ready (stopped all_done (ok tt)) (
    run-Reachable json texts 7 ready (going ended) (finalize 30 (ok tt) ∷ []) _ ended_reached
      finished-run)

abbrev pub cut_off : TraceRecoveryState
cut_off = record {
  trace_id = 7;
  last_completed_node = some 0;
  suspended_at = none;
  started_nodes = [];
  completed_nodes = (0, located_at at 5) ∷ [];
  suspension_metadata = none;
}

abbrev pub restarted : Executor String
restarted = record ready { traces = []; wal = after_first.executor.wal }

resume_trace-restores_example :
    (t : TraceState String) × (HashMap.get
        (resume_trace restarted 40 "/arenas/7" cut_off (ok tt)).0.traces
        7
      ≡ some t)
    × (HashMap.get t.outputs 0 ≡ some (complete "out" at 5))
    × (contains_key t.completed 0 ≡ true)
    × IsFresh t
unfolding HashMap.get HashMap.insert replay apply_record_to_traces change_traces node_finished
resume_trace-restores_example =
    resume_trace-restores json texts 7 ready ready-IsOrdered ready-IsFresh refl (going after_first)
      after_first first_trace 0 "out" at 5 cut_off restarted 40 "/arenas/7" (ok tt)
      after_first_reached refl first_trace_known refl refl refl refl
