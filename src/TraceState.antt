-- ===== src/TraceState.antt =====
-- xerv-executor/src/trace/mod.rs: the state of a running trace. Its arena stands for its file, of which
-- only the path is read here; `Value` stands for serde_json's values.
pub mod Laws
use xerv.Prelude.{
  ℕ, ◌+◌, ◌%◌, ◌^◌, String, Bool, true, false, not, ◌&&◌, Option, none, some, List, [], ◌∷◌,
  if◌then◌else◌, contains, all_by, any_by, ltb, nat_eq, string_eq,
}
use xerv.HashMap
use xerv.HashMap.{HashMap, HashSet, contains_key}
use xerv.FlowGraph.{FlowGraph, Edge, incoming_edges, predecessors}
use xerv.NodeOutput.{RelPtr, NodeOutput, matches_port, data_of}

pub record LoopState : Type 0 where
  pub iteration : ℕ
  pub max_iterations : ℕ
  pub exited : Bool

pub record TraceState (Value : Type 0) : Type 0 where
  pub trace_id : ℕ
  pub arena_path : String
  pub trigger_id : String
  pub initial_input : RelPtr
  pub outputs : HashMap ℕ (NodeOutput Value)
  pub completed : HashSet ℕ
  pub executing : HashSet ℕ
  pub loop_state : HashMap ℕ LoopState

-- `keys().copied().collect()`
pub key_set : {V : Type 0} → HashMap ℕ V → HashSet ℕ
key_set [] = []
key_set ((k, _) ∷ m) = HashMap.insert (key_set m) k tt

module _ {Value : Type 0} where
  abbrev pub new_trace : ℕ → String → String → RelPtr → TraceState Value
  new_trace trace_id arena_path trigger_id initial_input = record {
    trace_id = trace_id;
    arena_path = arena_path;
    trigger_id = trigger_id;
    initial_input = initial_input;
    outputs = [];
    completed = [];
    executing = [];
    loop_state = [];
  }

  unfoldable pub from_recovery :
      ℕ → String → String → RelPtr → HashMap ℕ (NodeOutput Value) → TraceState Value
  unfolding key_set
  from_recovery trace_id arena_path trigger_id initial_input completed_nodes = record {
    trace_id = trace_id;
    arena_path = arena_path;
    trigger_id = trigger_id;
    initial_input = initial_input;
    outputs = completed_nodes;
    completed = key_set completed_nodes;
    executing = [];
    loop_state = [];
  }

  -- Whether the edge's source has an output on the edge's port.
  abbrev pub carries : Option (NodeOutput Value) → Edge → Bool
  carries none edge = false
  carries (some output) edge = matches_port output edge.from_port

  unfoldable pub has_pending_input : TraceState Value → ℕ → FlowGraph → Bool
  has_pending_input t node_id graph =
      any_by (λ edge. carries (HashMap.get t.outputs edge.from_node) edge)
        (incoming_edges graph node_id)

  unfoldable pub all_preds_complete : TraceState Value → ℕ → FlowGraph → Bool
  all_preds_complete t node_id graph =
      all_by (λ pred. contains_key t.completed pred) (predecessors graph node_id)

  -- An entry point, or a node with an input whose predecessors have all completed.
  unfoldable pub is_activated : TraceState Value → ℕ → FlowGraph → Bool
  is_activated t node_id graph =
      if contains graph.entry_points node_id
      then true
      else has_pending_input t node_id graph && all_preds_complete t node_id graph

  unfoldable pub is_node_ready : TraceState Value → ℕ → FlowGraph → Bool
  unfolding is_activated
  is_node_ready t node_id graph =
      is_activated t node_id graph
      && (not (contains_key t.completed node_id) && not (contains_key t.executing node_id))

  collect : TraceState Value → List Edge → HashMap String RelPtr → HashMap String RelPtr
  collect t [] inputs = inputs
  collect t (edge ∷ edges) inputs = elim (HashMap.get t.outputs edge.from_node) [
    | none ↦ collect t edges inputs
    | some output ↦ collect t edges (
        if matches_port output edge.from_port
        then HashMap.insert inputs edge.to_port (data_of output)
        else inputs)
  ]

  unfoldable pub collect_inputs : TraceState Value → ℕ → FlowGraph → HashMap String RelPtr
  unfolding collect
  collect_inputs t node_id graph =
      if contains graph.entry_points node_id
      then ("in", t.initial_input) ∷ []
      else collect t (incoming_edges graph node_id) []

  unfoldable pub record_output : TraceState Value → ℕ → NodeOutput Value → TraceState Value
  record_output t node_id output = record t {
    executing = HashMap.remove t.executing node_id;
    completed = HashMap.insert t.completed node_id tt;
    outputs = HashMap.insert t.outputs node_id output;
  }

  unfoldable pub mark_executing : TraceState Value → ℕ → TraceState Value
  mark_executing t node_id = record t { executing = HashMap.insert t.executing node_id tt }

  abbrev pub is_completed : TraceState Value → ℕ → Bool
  is_completed t node_id = contains_key t.completed node_id

  abbrev pub get_output : TraceState Value → ℕ → Option (NodeOutput Value)
  get_output t node_id = HashMap.get t.outputs node_id

  unfoldable pub init_loop : TraceState Value → ℕ → ℕ → TraceState Value
  init_loop t node_id max_iterations = record t {
    loop_state =
        HashMap.insert t.loop_state node_id
          (record { iteration = 0; max_iterations = max_iterations; exited = false });
  }

  -- `iteration += 1` on a u32 (a debug build panics where this wraps).
  unfoldable pub increment_loop : TraceState Value → ℕ → TraceState Value × Bool
  increment_loop t node_id = elim (HashMap.get t.loop_state node_id) [
    | none ↦ (t, false)
    | some state ↦
        let iteration = (state.iteration + 1) % 2 ^ 32 in
        (
          record t {
            loop_state =
                HashMap.insert t.loop_state node_id (record state { iteration = iteration });
          },
          ltb iteration state.max_iterations,
        )
  ]

  unfoldable pub exit_loop : TraceState Value → ℕ → TraceState Value
  exit_loop t node_id = elim (HashMap.get t.loop_state node_id) [
    | none ↦ t
    | some state ↦ record t {
      loop_state = HashMap.insert t.loop_state node_id (record state { exited = true });
    }
  ]

  unfoldable pub reset_loop_body : TraceState Value → List ℕ → TraceState Value
  reset_loop_body t [] = t
  reset_loop_body t (node_id ∷ nodes) =
      reset_loop_body
        (record t {
          completed = HashMap.remove t.completed node_id;
          executing = HashMap.remove t.executing node_id;
          outputs = HashMap.remove t.outputs node_id;
        })
        nodes
