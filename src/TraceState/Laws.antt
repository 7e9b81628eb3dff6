-- ===== src/TraceState/Laws.antt =====
-- How the operations on a trace's state bear on the readiness of its nodes.
use xerv.Prelude.{
  ℕ, ◌≡◌, refl, String, true, false, not, ◌&&◌, none, [], ◌∷◌, arith, ◌==◌, any_by_mono,
  all_by_mono, nat_eq, nat_beq_iff,
}
use xerv.HashMap
use xerv.HashMap.{HashMap, HashSet, contains_key}
use xerv.HashMap.Laws.{get-insert}
use xerv.FlowGraph.{FlowGraph, Edge, incoming_edges, predecessors}
use xerv.NodeOutput.{RelPtr, NodeOutput}
use xerv.TraceState.{
  TraceState, carries, has_pending_input, all_preds_complete, is_activated, is_node_ready,
  record_output, mark_executing, key_set, from_recovery, new_trace,
}

-- A node has completed exactly when it has an output.
abbrev pub AreOutputs : {V : Type 0} → TraceState V → Type 0
AreOutputs t = (j : ℕ) → contains_key t.completed j ≡ contains_key t.outputs j

module _ {V : Type 0} where
  pub contains_key-key_set :
      (m : HashMap ℕ V) (j : ℕ) → contains_key (key_set m) j ≡ contains_key m j
  unfolding key_set HashMap.get
  contains_key-key_set [] j = refl
  contains_key-key_set ((k, v) ∷ m) j =
      ground (arith, get-insert (key_set m) k j tt, contains_key-key_set m j)

module _ {V : Type 0} (t : TraceState V) where
  pub is_node_ready-unfold :
      (j : ℕ) (g : FlowGraph)
      → is_node_ready t j g ≡ (
          is_activated t j g
          && (not (contains_key t.completed j) && not (contains_key t.executing j)))
  unfolding is_node_ready
  is_node_ready-unfold j g = refl

  pub is_activated-mark_executing :
      (k j : ℕ) (g : FlowGraph) → is_activated (mark_executing t k) j g ≡ is_activated t j g
  unfolding is_activated mark_executing has_pending_input all_preds_complete
  is_activated-mark_executing k j g = refl

  pub ready-mark_executing :
      (k j : ℕ) (g : FlowGraph)
      → is_node_ready (mark_executing t k) j g ≡ (not (k == j) && is_node_ready t j g)
  unfolding is_node_ready is_activated mark_executing has_pending_input all_preds_complete
  ready-mark_executing k j g = ground (arith, get-insert t.executing k j tt, nat_beq_iff k j)

  carries-record_output :
      (k : ℕ) (o : NodeOutput V)
      → HashMap.get t.outputs k ≡ none
      → (e : Edge) → carries (HashMap.get t.outputs e.from_node) e ≡ true
      → carries (HashMap.get (HashMap.insert t.outputs k o) e.from_node) e ≡ true
  carries-record_output k o free e h =
      ground (arith, get-insert t.outputs k e.from_node o, nat_beq_iff k e.from_node)

  -- A first output deactivates no node.
  pub is_activated-record_output :
      (k j : ℕ) (o : NodeOutput V) (g : FlowGraph)
      → HashMap.get t.outputs k ≡ none
      → is_activated t j g ≡ true
      → is_activated (record_output t k o) j g ≡ true
  unfolding is_activated record_output has_pending_input all_preds_complete
  is_activated-record_output k j o g free h =
      let pending =
        any_by_mono (λ e. carries (HashMap.get t.outputs e.from_node) e)
          (λ e. carries (HashMap.get (HashMap.insert t.outputs k o) e.from_node) e)
          (carries-record_output k o free) (incoming_edges g j) in
      let complete_ =
        all_by_mono (λ p. contains_key t.completed p)
          (λ p. contains_key (HashMap.insert t.completed k tt) p)
          (λ p q. ground (arith, get-insert t.completed k p tt)) (predecessors g j) in
      ground (arith, pending, complete_)

  pub record_output-AreOutputs :
      (k : ℕ) (o : NodeOutput V) → AreOutputs t → AreOutputs (record_output t k o)
  unfolding record_output
  record_output-AreOutputs k o h j =
      ground (arith, h j, get-insert t.completed k j tt, get-insert t.outputs k j o)

-- A state from which an execution can start: it executes nothing.
pub record IsFresh {V : Type 0} (t : TraceState V) : Type 0 where
  pub are_outputs : AreOutputs t
  pub idle : (j : ℕ) → contains_key t.executing j ≡ false

module _ {V : Type 0} where
  pub new_trace-IsFresh :
      (trace_id : ℕ) (arena trigger : String) (input : RelPtr)
      → IsFresh {V = V} (new_trace trace_id arena trigger input)
  unfolding HashMap.get
  new_trace-IsFresh trace_id arena trigger input = record {
    are_outputs = λ j. refl;
    idle = λ j. refl;
  }

  pub from_recovery-IsFresh :
      (trace_id : ℕ) (arena trigger : String) (input : RelPtr) (m : HashMap ℕ (NodeOutput V))
      → IsFresh (from_recovery trace_id arena trigger input m)
  unfolding from_recovery HashMap.get
  from_recovery-IsFresh trace_id arena trigger input m = record {
    are_outputs = contains_key-key_set m;
    idle = λ j. refl;
  }
