-- ===== src/Executor/Losses.antt =====
-- Runs in which the executor loses a branch, a decision, a trace or its limit.
use xerv.Prelude.{ℕ, ◌≡◌, refl, String, false, none, some, [], ◌∷◌, ok, err, nat_eq, string_eq}
use xerv.HashMap
use xerv.HashMap.{HashMap, contains_key}
use xerv.Errors.{XervResult, node_not_found, arena_create}
use xerv.FlowGraph.{
  predecessors, FlowGraph, new, graph_node, add_node, add_edge, incoming_edges, is_loop_back_edge,
  outgoing_edges,
}
use xerv.FlowGraph.Index.{node, edge, change, build}
use xerv.NodeOutput.{null, complete}
use xerv.TraceState.{TraceState, is_node_ready, is_activated, has_pending_input, all_preds_complete}
use xerv.Wal.Record
use xerv.Wal.Record.{WalRecord}
use xerv.Executor.{default_config, Executor, Execution, find_ready_nodes, spawn, spawn_all, write}
use xerv.Executor.Run.{
  going, stopped, acquire, join, finalize, execute_trace, turn, background, step, take_at, is_empty,
}
use xerv.Executor.{active_trace_count, from_env}
use xerv.TraceState.{from_recovery}
use xerv.Wal.Reader.{change as change_traces}
use xerv.Wal.Reader.Located.{location}
use xerv.Wal.Reader.{replay, apply_record_to_traces}
use xerv.Executor.Scenarios.{json, texts, to, waiting_trace, ready, at}
use xerv.Suspension.{SuspendedTraceState, new_state, ResumeDecision}
use xerv.Suspension.Store.{resume}
use xerv.Executor.Suspend.{resume_suspended_trace, after_resume, resumed_state}
use xerv.Wal.Reader.{resumed as log_resumed, suspended as log_suspended}

-- A switch with two branches that a merge joins.
abbrev forked : FlowGraph
forked = build new (
    node 0 "trigger::webhook"
    ∷ node 1 "std::switch"
    ∷ node 2 "std::map"
    ∷ node 3 "std::map"
    ∷ node 4 "std::merge"
    ∷ edge (to 0 "out" 1)
    ∷ edge (to 1 "true" 2)
    ∷ edge (to 1 "false" 3)
    ∷ edge (to 2 "out" 4)
    ∷ edge (to 3 "out" 4)
    ∷ [])

-- The switch has taken its first branch, which is done.
abbrev one_branch : TraceState String
one_branch = record waiting_trace {
  outputs = (0, complete "out" at 5) ∷ (1, complete "true" at 5) ∷ (2, complete "out" at 5) ∷ [];
  completed = (0, tt) ∷ (1, tt) ∷ (2, tt) ∷ [];
}

-- The merge waits for the branch that was not taken, which never runs: the trace ends without it.
merge_waits :
    (is_node_ready one_branch 4 forked ≡ false) × (is_node_ready one_branch 3 forked ≡ false)
unfolding is_node_ready is_activated has_pending_input all_preds_complete build change new
    graph_node add_node add_edge incoming_edges is_loop_back_edge outgoing_edges predecessors
    HashMap.get HashMap.insert
merge_waits = (refl, refl)

-- Without an implementation of node 0, the trace is still active after its execution failed.
left_active :
    execute_trace texts 7 (record ready { nodes = [] })
    ≡ stopped (record ready { nodes = [] }) (err (node_not_found "node"))
unfolding execute_trace turn find_ready_nodes spawn spawn_all is_node_ready is_activated
    has_pending_input all_preds_complete build change new graph_node add_node add_edge
    incoming_edges is_loop_back_edge outgoing_edges predecessors HashMap.get HashMap.insert
left_active = refl

abbrev asleep : SuspendedTraceState String
asleep = new_state json 1 "hook" 9 1 "/arenas/9" "p"

-- One trace is active, which is the limit, and another one is suspended.
abbrev at_limit : Executor String
at_limit = record ready {
  config = record default_config { max_concurrent_traces = 1 };
  suspension_store = some (record { suspensions = ("hook", asleep) ∷ []; pending_resumes = [] });
}

abbrev approved : Executor String × XervResult ℕ
approved =
    resume_suspended_trace texts at_limit 50 "hook" (ResumeDecision.approve none) (ok tt) (ok [])
      (ok null) (ok tt)

-- A resume by its hook does not look at the limit.
over_limit : (approved.1 ≡ ok 9) × (active_trace_count approved.0 ≡ 2)
unfolding resume_suspended_trace after_resume resumed_state from_recovery resume write HashMap.get
    HashMap.insert HashMap.remove
over_limit = (refl, refl)

-- The decision is not in the log: recovery does not find the waiting node completed.
decision_not_logged :
    location
      (Record.trace_start 1 9 ∷ Record.trace_suspended 2 9 1 ∷ Record.trace_resumed 50 9 ∷ [])
      9
      1
    ≡ none
unfolding replay apply_record_to_traces change_traces log_resumed log_suspended HashMap.get
    HashMap.insert
decision_not_logged = refl

-- An arena that cannot be opened: the hook is gone, and the trace is nowhere.
abbrev unopened : Executor String × XervResult ℕ
unopened =
    resume_suspended_trace texts at_limit 50 "hook" (ResumeDecision.approve none)
      (err (arena_create "/arenas/9" "gone")) (ok []) (ok null) (ok tt)

trace_lost :
    (unopened.0.suspension_store
      ≡ some (record {
        suspensions = [];
        pending_resumes = ("hook", ResumeDecision.approve none) ∷ [];
      }))
    × (contains_key unopened.0.traces 9 ≡ false)
unfolding resume_suspended_trace after_resume resume HashMap.get HashMap.insert HashMap.remove
trace_lost = (refl, refl)

-- Without permits, which XERV_MAX_CONCURRENT_NODES=0 gives, the loop waits for ever.
abbrev no_permits : Execution String
no_permits = record {
  executor = record ready {
    config = from_env (some 0) none none;
    traces = (7, record waiting_trace { executing = (0, tt) ∷ [] }) ∷ [];
  };
  spawned = (0, tt) ∷ [];
  tasks = record {
    waiting = record { node_id = 0; inputs = ("in", null) ∷ [] } ∷ [];
    running = [];
    done = [];
  };
}

stuck :
    (step json texts 7 (going no_permits) (acquire 0) ≡ none)
    × (step json texts 7 (going no_permits) (join 0) ≡ none)
    × (step json texts 7 (going no_permits) (finalize 1 (ok tt)) ≡ none)
unfolding step background take_at is_empty
stuck = (refl, refl, refl)
