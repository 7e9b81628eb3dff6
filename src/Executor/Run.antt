-- ===== src/Executor/Run.antt =====
-- xerv-executor/src/scheduler/executor.rs: the loop of `execute_trace`, as steps between which the
-- environment chooses: a task gets its permit, executes its node, or panics; `join_next` returns any
-- result; and other traces go on.
pub mod Invariant
pub mod Background
pub mod Recorded
pub mod Induction
pub mod Steps
pub mod Turn
pub mod Termination
pub mod Limits
pub mod Order
pub mod Durable
pub mod Outcomes
use xerv.Prelude.{
  ◌≡◌, ℕ, zero, suc, String, Bool, true, false, not, ◌&&◌, Option, none, some, List, [], ◌∷◌, ◌++◌,
  if◌then◌else◌, ltb, ok, err, ◌==◌, nat_eq, length,
}
use xerv.HashMap
use xerv.HashMap.{HashMap, contains_key}
use xerv.Errors.{XervError, XervResult, node_execution, node_panic}
use xerv.NodeOutput.{RelPtr, NodeOutput, SuspensionRequest, complete, error, suspend}
use xerv.Suspension.{Json}
use xerv.TraceState.{TraceState, record_output}
use xerv.Wal.Record.{WalRecord}
use xerv.Executor.{
  Executor, Texts, Task, Answer, JoinResult, finished, panicked, JoinSet, Execution, not_found,
  find_ready_nodes, spawn_all, change_trace, insert_trace, remove_trace, execute_single_node,
  finalize_trace, write,
}
use xerv.Executor.Suspend.{suspend_trace}

-- Where the loop stands: it awaits a task, or the tasks that are left before a suspension, or it has
-- returned.
pub data Phase (Value : Type 0) : Type 0 where
  going : Execution Value → Phase Value
  draining : Execution Value → ℕ → SuspensionRequest Value → RelPtr → Phase Value
  stopped : Executor Value → XervResult (Unit {0}) → Phase Value

-- A choice of the environment, with the answers of the clock and the file system. The last three are
-- steps of other traces, and a `shutdown`.
pub data Event (Value : Type 0) : Type 0 where
  acquire : (i : ℕ) → Event Value
  work : (i : ℕ) → Answer Value → (now : ℕ) → XervResult (Unit {0}) → Event Value
  panic : (i : ℕ) → Event Value
  join : (i : ℕ) → Event Value
  finalize : (now : ℕ) → XervResult (Unit {0}) → Event Value
  suspend_now : (now : ℕ) → (flush io : XervResult (Unit {0})) → Event Value
  other_trace : ℕ → TraceState Value → Event Value
  other_removed : ℕ → Event Value
  other_logged : WalRecord → Event Value

-- The element at a position, and the list without it.
unfoldable pub take_at {ℓ} : {A : Type ℓ} → List A → ℕ → Option (A × List A)
take_at [] i = none
take_at (x ∷ xs) zero = some (x, xs)
take_at (x ∷ xs) (suc i) = elim (take_at xs i) [ none ↦ none | some (y, ys) ↦ some (y, x ∷ ys) ]

module _ {Value : Type 0} where
  abbrev pub no_tasks : JoinSet Value
  no_tasks = record { waiting = []; running = []; done = [] }

  unfoldable pub is_empty : JoinSet Value → Bool
  is_empty tasks =
      (length tasks.waiting == 0) && ((length tasks.running == 0) && (length tasks.done == 0))

  pub after_spawn : Execution Value × XervResult (Unit {0}) → Phase Value
  after_spawn (x, ok _) = going x
  after_spawn (x, err e) = stopped x.executor (err e)

  pub spawn_found : Texts Value → ℕ → Execution Value → XervResult (List ℕ) → Phase Value
  unfolding after_spawn
  spawn_found texts trace_id x (err e) = stopped x.executor (err e)
  spawn_found texts trace_id x (ok ready) = after_spawn (spawn_all texts trace_id ready x)

  -- From the top of the loop to its `join_next`.
  unfoldable pub turn : Texts Value → ℕ → Execution Value → Phase Value
  unfolding spawn_found
  turn texts trace_id x =
      spawn_found texts trace_id x (find_ready_nodes x.executor trace_id x.spawned)

  unfoldable pub execute_trace : Texts Value → ℕ → Executor Value → Phase Value
  unfolding turn
  execute_trace texts trace_id ex =
      if contains_key ex.traces trace_id
      then turn texts trace_id (record { executor = ex; spawned = []; tasks = no_tasks })
      else stopped ex (err (not_found 0 trace_id))

  abbrev pub record_in : ℕ → Execution Value → ℕ → NodeOutput Value → Execution Value
  record_in trace_id x node_id output = record x {
    executor = change_trace x.executor trace_id (λ t. record_output t node_id output);
  }

  -- `process_node_result`, and what the loop does with its action.
  unfoldable pub process_node_result :
      Texts Value → ℕ → Execution Value → JoinResult Value → Phase Value
  unfolding turn
  process_node_result texts trace_id x (finished node_id (ok (complete p d h))) =
      turn texts trace_id (record_in trace_id x node_id (complete p d h))
  process_node_result texts trace_id x (finished node_id (ok (error m d))) =
      turn texts trace_id (record_in trace_id x node_id (error m d))
  process_node_result texts trace_id x (finished node_id (ok (suspend request pending))) =
      draining x node_id request pending
  process_node_result texts trace_id x (finished node_id (err e)) =
      stopped (remove_trace x.executor trace_id)
        (err (node_execution node_id trace_id (texts.display e)))
  process_node_result texts trace_id x (panicked _) =
      stopped (remove_trace x.executor trace_id) (err (node_panic 0 trace_id "Node task panicked"))

  -- A result in the loop that drains the tasks: outputs are recorded, all else is dropped.
  unfoldable pub drain_result : ℕ → Execution Value → JoinResult Value → Execution Value
  drain_result trace_id x (finished node_id (ok (complete p d h))) =
      record_in trace_id x node_id (complete p d h)
  drain_result trace_id x (finished node_id (ok (error m d))) =
      record_in trace_id x node_id (error m d)
  drain_result trace_id x (finished node_id (ok (suspend _ _))) = x
  drain_result trace_id x (finished node_id (err _)) = x
  drain_result trace_id x (panicked _) = x

  abbrev with_tasks : Execution Value → JoinSet Value → Execution Value
  with_tasks x tasks = record x { tasks = tasks }

  abbrev with_executor : Execution Value → Executor Value → Execution Value
  with_executor x ex = record x { executor = ex }

  pub worked :
      Execution Value
      → Task
      → List Task
      → Executor Value × XervResult (NodeOutput Value)
      → Execution Value
  worked x task rest (ex, result) = record x {
    executor = ex;
    tasks = record x.tasks {
      running = rest;
      done = x.tasks.done ++ finished task.node_id result ∷ [];
    };
  }

  -- A step of a task or of another trace, in either loop.
  unfoldable pub background :
      Texts Value → ℕ → Execution Value → Event Value → Option (Execution Value)
  unfolding take_at worked
  background texts trace_id x (acquire i) = elim (take_at x.tasks.waiting i) [
    | none ↦ none
    | some (task, rest) ↦
        if ltb (length x.tasks.running) x.executor.config.max_concurrent_nodes
        then some (
            with_tasks x
              (record x.tasks { waiting = rest; running = x.tasks.running ++ task ∷ [] }))
        else none
  ]
  background texts trace_id x (work i answer now io) = elim (take_at x.tasks.running i) [
    | none ↦ none
    | some (task, rest) ↦ some (
        worked x task rest
          (execute_single_node texts now trace_id task.node_id answer io x.executor))
  ]
  background texts trace_id x (panic i) = elim (take_at x.tasks.running i) [
    | none ↦ none
    | some (task, rest) ↦ some (
        with_tasks x
          (record x.tasks { running = rest; done = x.tasks.done ++ panicked task.node_id ∷ [] }))
  ]
  background texts trace_id x (join i) = none
  background texts trace_id x (finalize now io) = none
  background texts trace_id x (suspend_now now flush io) = none
  background texts trace_id x (other_trace id trace) =
      if id == trace_id then none else some (with_executor x (insert_trace x.executor id trace))
  background texts trace_id x (other_removed id) =
      some (with_executor x (remove_trace x.executor id))
  background texts trace_id x (other_logged r) =
      if r.trace_id == trace_id then none else some (with_executor x (write (ok tt) r x.executor))

  pub joined :
      Texts Value
      → ℕ
      → Execution Value
      → Option (JoinResult Value × List (JoinResult Value))
      → Option (Phase Value)
  joined texts trace_id x none = none
  joined texts trace_id x (some (result, rest)) =
      some
        (process_node_result texts trace_id (with_tasks x (record x.tasks { done = rest })) result)

  pub drained :
      ℕ
      → Execution Value
      → ℕ
      → SuspensionRequest Value
      → RelPtr
      → Option (JoinResult Value × List (JoinResult Value))
      → Option (Phase Value)
  drained trace_id x node_id request pending none = none
  drained trace_id x node_id request pending (some (result, rest)) = some (
      draining (drain_result trace_id (with_tasks x (record x.tasks { done = rest })) result)
        node_id request pending)

  abbrev pub finish : Executor Value × XervResult (Unit {0}) → Phase Value
  finish (ex, result) = stopped ex result

  abbrev pub map_going : Option (Execution Value) → Option (Phase Value)
  map_going none = none
  map_going (some x) = some (going x)

  abbrev pub map_draining :
      ℕ → SuspensionRequest Value → RelPtr → Option (Execution Value) → Option (Phase Value)
  map_draining node_id request pending none = none
  map_draining node_id request pending (some x) = some (draining x node_id request pending)

  -- One step; `none` where the event cannot happen.
  unfoldable pub step :
      Json Value → Texts Value → ℕ → Phase Value → Event Value → Option (Phase Value)
  unfolding joined drained
  step json texts trace_id (going x) (join i) = joined texts trace_id x (take_at x.tasks.done i)
  step json texts trace_id (going x) (finalize now io) =
      if is_empty x.tasks then some (finish (finalize_trace x.executor trace_id now io)) else none
  step json texts trace_id (going x) event = map_going (background texts trace_id x event)
  step json texts trace_id (draining x n r p) (join i) =
      drained trace_id x n r p (take_at x.tasks.done i)
  step json texts trace_id (draining x n r p) (suspend_now now flush io) =
      if is_empty x.tasks
      then some (finish (suspend_trace json texts x.executor now trace_id n r p flush io))
      else none
  step json texts trace_id (draining x n r p) event =
      map_draining n r p (background texts trace_id x event)
  step json texts trace_id (stopped ex result) event = none

  -- The variables of the loop, while it has not returned.
  abbrev pub execution_of : Phase Value → Option (Execution Value)
  execution_of (going x) = some x
  execution_of (draining x _ _ _) = some x
  execution_of (stopped _ _) = none

  -- The phases that the execution of a trace can reach.
  pub data Reachable (json : Json Value) (texts : Texts Value) (trace_id : ℕ) (ex : Executor Value)
      : Phase Value → Type 0 where
    start : Reachable json texts trace_id ex (execute_trace texts trace_id ex)
    next :
        (p : Phase Value) (e : Event Value) (q : Phase Value)
        → Reachable json texts trace_id ex p
        → step json texts trace_id p e ≡ some q
        → Reachable json texts trace_id ex q
