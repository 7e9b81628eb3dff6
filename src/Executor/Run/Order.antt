-- ===== src/Executor/Run/Order.antt =====
-- The order in which the loop of `execute_trace` spawns the nodes of a trace.
use xerv.Prelude.{
  ℕ, ◌+◌, ◌≤◌, ◌≡◌, length, refl, ◌⊎◌, true, ◌&&◌, some, List, [], ◌∷◌, arith, contains, nat_eq,
  ◌==◌, map, occurs, all_by, any_by, inl, inr, Bool-cases,
}
use xerv.HashMap
use xerv.HashMap.{contains_key}
use xerv.Suspension.{Json}
use xerv.NodeOutput.{SuspensionRequest, RelPtr}
use xerv.FlowGraph.{FlowGraph, predecessors, incoming_edges}
use xerv.TraceState.{TraceState, carries, is_activated, has_pending_input, all_preds_complete}
use xerv.TraceState.Laws.{IsFresh, is_node_ready-unfold}
use xerv.Executor.{Executor, Texts, Execution}
use xerv.Executor.Run.{Phase, going, draining, stopped, execution_of, Reachable, is_empty}
use xerv.Executor.Run.Invariant.{result_id, bit, tasks_of, is_spawned, IsOrdered, IsPhaseGood}
use xerv.Executor.Run.Steps.{Reachable-IsPhaseGood}

-- An entry point; or all predecessors have completed, and one edge brings an input.
abbrev pub HasInputs : {V : Type 0} → TraceState V → ℕ → FlowGraph → Type 0
HasInputs t j g =
    (contains g.entry_points j ≡ true)
    ⊎ ((all_by (λ pred. contains_key t.completed pred) (predecessors g j) ≡ true)
        × (any_by (λ e. carries (HashMap.get t.outputs e.from_node) e) (incoming_edges g j) ≡ true))

is_activated-HasInputs :
    {V : Type 0} (t : TraceState V) (j : ℕ) (g : FlowGraph)
    → is_activated t j g ≡ true
    → HasInputs t j g
unfolding is_activated has_pending_input all_preds_complete
is_activated-HasInputs t j g h = elim (Bool-cases (contains g.entry_points j)) [
  | inl q ↦ inl q
  | inr q ↦ inr (ground arith, ground arith)
]

none_occurs :
    {A : Type 0} (f : A → ℕ) (j : ℕ) (xs : List A)
    → (length xs == 0) ≡ true
    → occurs j (map f xs) ≡ 0
none_occurs f j [] h = refl
none_occurs f j (x ∷ xs) h = absurd (ground arith)

no_task : {V : Type 0} (x : Execution V) (j : ℕ) → is_empty x.tasks ≡ true → tasks_of j x.tasks ≡ 0
unfolding is_empty
no_task x j h = ground (
  arith,
  none_occurs (λ t. t.node_id) j x.tasks.waiting,
  none_occurs (λ t. t.node_id) j x.tasks.running,
  none_occurs result_id j x.tasks.done,
)

module _ {V : Type 0} (json : Json V) (texts : Texts V) (id : ℕ) (ex : Executor V)
    (ordered : IsOrdered ex)
    (fresh : (t : TraceState V) → HashMap.get ex.traces id ≡ some t → IsFresh t) where
  phase-activated :
      (p : Phase V) (x : Execution V) (t : TraceState V) (j : ℕ)
      → IsPhaseGood id p
      → execution_of p ≡ some x
      → HashMap.get x.executor.traces id ≡ some t
      → is_spawned x j ≡ true
      → is_activated t j x.executor.graph ≡ true
  phase-activated (going y) x t j g q known spawned =
      let same : y ≡ x = cc in (rw same at g.1 t known).0.activated j spawned
  phase-activated (draining y k s p) x t j g q known spawned =
      let same : y ≡ x = cc in (rw same at g t known).activated j spawned
  phase-activated (stopped ex' result) x t j g q known spawned = absurd (ground arith)

  -- A node is spawned only after its predecessors: wherever the loop awaits a task or drains the tasks
  -- before a suspension, every node that was spawned is an entry point, or all its predecessors have
  -- completed and one of its edges carries an output of its port. The executor's order has no
  -- duplicates, and the trace started with no node executing and with an output for just its completed
  -- nodes.
  pub spawned-HasInputs :
      (p : Phase V) (x : Execution V) (t : TraceState V) (j : ℕ)
      → Reachable json texts id ex p
      → execution_of p ≡ some x
      → HashMap.get x.executor.traces id ≡ some t
      → is_spawned x j ≡ true
      → HasInputs t j x.executor.graph
  spawned-HasInputs p x t j r q known spawned = is_activated-HasInputs t j x.executor.graph (
      phase-activated p x t j (Reachable-IsPhaseGood json texts id ex ordered fresh p r) q known
        spawned)

  -- Each node is spawned once: wherever the loop awaits, a node that was spawned either has exactly one
  -- task or has completed, and one that was not has no task; and the nodes marked as executing are those
  -- with a task. Under the same conditions on the order and the trace.
  pub spawned_once :
      (x : Execution V) (t : TraceState V) (j : ℕ)
      → Reachable json texts id ex (going x)
      → HashMap.get x.executor.traces id ≡ some t
      → (tasks_of j x.tasks + bit (contains_key t.completed j && is_spawned x j)
          ≡ bit (is_spawned x j))
        × (tasks_of j x.tasks ≡ bit (contains_key t.executing j))
  spawned_once x t j r known =
      let sound = ((Reachable-IsPhaseGood json texts id ex ordered fresh _ r).1 t known).0 in
      (sound.once j, sound.executes j)

  -- While the tasks are drained before a suspension, a node still has at most one task, and none once it
  -- has completed. Under the same conditions on the order and the trace.
  pub drained_once :
      (x : Execution V) (k : ℕ) (s : SuspensionRequest V) (p : RelPtr) (t : TraceState V) (j : ℕ)
      → Reachable json texts id ex (draining x k s p)
      → HashMap.get x.executor.traces id ≡ some t
      → is_spawned x j ≡ true
      → tasks_of j x.tasks + bit (contains_key t.completed j) ≤ 1
  drained_once x k s p t j r known spawned =
      let sound = Reachable-IsPhaseGood json texts id ex ordered fresh _ r t known in
      ground (arith, sound.at_most_once j)

  -- The loop ends only when nothing is left to do: where it has no task left, every node of the order
  -- that is an entry point, or has an input and all its predecessors completed, has completed itself.
  -- Under the same conditions on the order and the trace.
  pub ended-completed :
      (x : Execution V) (t : TraceState V) (j : ℕ)
      → Reachable json texts id ex (going x)
      → is_empty x.tasks ≡ true
      → HashMap.get x.executor.traces id ≡ some t
      → contains x.executor.execution_order j ≡ true
      → is_activated t j x.executor.graph ≡ true
      → contains_key t.completed j ≡ true
  ended-completed x t j r ended known in_order active =
      let (sound, idle) = (Reachable-IsPhaseGood json texts id ex ordered fresh _ r).1 t known in
      ground (
        arith,
        idle j,
        sound.executes j,
        no_task x j ended,
        is_node_ready-unfold t j x.executor.graph,
      )
