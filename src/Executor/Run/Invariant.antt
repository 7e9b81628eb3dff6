-- ===== src/Executor/Run/Invariant.antt =====
-- What holds wherever the loop of `execute_trace` awaits: its tasks are the nodes that are executing,
-- each node is spawned once, after it was activated, and no other node is ready.
use xerv.Prelude.{
  ℕ, ◌+◌, ◌≤◌, ◌<◌, ◌≡◌, ◌⊎◌, sym, refl, Bool, true, false, ◌&&◌, some, List, [], ◌∷◌, ◌++◌, arith,
  if◌then◌else◌, occurs, filter_by, contains, nat_eq, nat_beq_iff, ◌==◌, ok, err, map, Bool-cases,
  Option-cases, inl, inr, occurs_pos,
}
use xerv.HashMap
use xerv.HashMap.{contains_key}
use xerv.HashMap.Laws.{get-insert}
use xerv.Errors.{XervError, XervResult, node_not_found}
use xerv.TraceState.{TraceState, is_activated, is_node_ready, mark_executing, collect_inputs}
use xerv.TraceState.Laws.{
  AreOutputs, is_node_ready-unfold, ready-mark_executing, is_activated-mark_executing,
}
use xerv.Executor.{
  not_found, Executor, Texts, Task, JoinResult, finished, panicked, JoinSet, Execution, spawn,
  spawn_with, spawn_all, spawn_on, find_ready_nodes, is_due,
}
use xerv.Executor.Run.{Phase, going, draining, stopped, turn, spawn_found, after_spawn}

abbrev pub bit : Bool → ℕ
bit b = if b then 1 else 0

abbrev pub task_ids : List Task → List ℕ
task_ids tasks = map (λ t. t.node_id) tasks

pub task_ids-snoc :
    (j : ℕ) (ts : List Task) (t : Task)
    → occurs j (task_ids (ts ++ t ∷ [])) ≡ occurs j (task_ids ts) + bit (t.node_id == j)
task_ids-snoc j [] t = ground arith
task_ids-snoc j (s ∷ ts) t = ground (arith, task_ids-snoc j ts t)

pub occurs-filter_by :
    (p : ℕ → Bool) (j : ℕ) (xs : List ℕ)
    → occurs j (filter_by p xs) ≡ (if p j then occurs j xs else 0)
occurs-filter_by p j [] = ground arith
occurs-filter_by p j (k ∷ xs) = ground (arith, occurs-filter_by p j xs, nat_beq_iff k j)

module _ {V : Type 0} where
  abbrev pub result_id : JoinResult V → ℕ
  result_id (finished node_id _) = node_id
  result_id (panicked node_id) = node_id

  abbrev pub result_ids : List (JoinResult V) → List ℕ
  result_ids results = map result_id results

  -- How many tasks a node has.
  abbrev pub tasks_of : ℕ → JoinSet V → ℕ
  tasks_of j tasks =
      occurs j (task_ids tasks.waiting)
      + (occurs j (task_ids tasks.running) + occurs j (result_ids tasks.done))

  abbrev pub is_spawned : Execution V → ℕ → Bool
  is_spawned x j = contains_key x.spawned j

  pub record IsSound (t : TraceState V) (x : Execution V) : Type 0 where
    pub are_outputs : AreOutputs t
    pub once :
        (j : ℕ)
        → tasks_of j x.tasks + bit (contains_key t.completed j && is_spawned x j)
          ≡ bit (is_spawned x j)
    pub executes : (j : ℕ) → tasks_of j x.tasks ≡ bit (contains_key t.executing j)
    pub activated : (j : ℕ) → is_spawned x j ≡ true → is_activated t j x.executor.graph ≡ true

  -- The nodes that are still to be spawned in this turn: those of the order that are ready.
  record ArePending (t : TraceState V) (x : Execution V) (js : List ℕ) : Type 0 where
    once : (j : ℕ) → occurs j js ≤ 1
    new_ones : (j : ℕ) → 0 < occurs j js → is_spawned x j ≡ false
    ready : (j : ℕ) → 0 < occurs j js → is_node_ready t j x.executor.graph ≡ true
    all_of_them :
        (j : ℕ)
        → contains x.executor.execution_order j ≡ true
        → is_node_ready t j x.executor.graph ≡ true
        → 0 < occurs j js

  abbrev pub IsIdle : TraceState V → Executor V → Type 0
  IsIdle t ex = (j : ℕ) → contains ex.execution_order j ≡ true → is_node_ready t j ex.graph ≡ false

  -- For a trace that is still active (a `shutdown` removes it).
  abbrev pub IsGoing : ℕ → Execution V → Type 0
  IsGoing id x =
      (t : TraceState V)
      → HashMap.get x.executor.traces id ≡ some t
      → IsSound t x × IsIdle t x.executor

  abbrev pub IsOrdered : Executor V → Type 0
  IsOrdered ex = (j : ℕ) → occurs j ex.execution_order ≤ 1

  unfoldable pub spawned_execution : Texts V → ℕ → ℕ → Execution V → TraceState V → Execution V
  unfolding spawn_with
  spawned_execution texts id k x t =
      (spawn_with texts id k (record x { spawned = HashMap.insert x.spawned k tt }) true (some t)).0

  module _ (texts : Texts V) (id k : ℕ) (x : Execution V) (t : TraceState V) where
    spawned-trace :
        HashMap.get (spawned_execution texts id k x t).executor.traces id
        ≡ some (mark_executing t k)
    unfolding spawned_execution spawn_with
    spawned-trace =
        ground (arith, get-insert x.executor.traces id id (mark_executing t k), nat_beq_iff id id)

    spawned-IsSound :
        IsSound t x
        → is_spawned x k ≡ false
        → is_node_ready t k x.executor.graph ≡ true
        → IsSound (mark_executing t k) (spawned_execution texts id k x t)
    unfolding spawned_execution spawn_with mark_executing
    spawned-IsSound s new_one ready =
        let eqs = is_node_ready-unfold t k x.executor.graph in
        let inputs_ = collect_inputs t k x.executor.graph in
        record {
          are_outputs = s.are_outputs;
          once = λ j. ground (
            arith,
            s.once j,
            task_ids-snoc j x.tasks.waiting (record { node_id = k; inputs = inputs_ }),
            get-insert x.spawned k j tt,
            nat_beq_iff k j,
            eqs,
          );
          executes = λ j. ground (
            arith,
            s.executes j,
            task_ids-snoc j x.tasks.waiting (record { node_id = k; inputs = inputs_ }),
            get-insert t.executing k j tt,
            nat_beq_iff k j,
            eqs,
          );
          activated = λ j h. ground (
            arith,
            s.activated j,
            is_activated-mark_executing t k j x.executor.graph,
            get-insert x.spawned k j tt,
            nat_beq_iff k j,
            eqs,
          );
        }

    spawned-ArePending :
        (js : List ℕ)
        → ArePending t x (k ∷ js)
        → ArePending (mark_executing t k) (spawned_execution texts id k x t) js
    unfolding spawned_execution spawn_with mark_executing
    spawned-ArePending js p = record {
      once = λ j. ground (arith, p.once j);
      new_ones = λ j h.
          ground (arith, p.once j, p.new_ones j, get-insert x.spawned k j tt, nat_beq_iff k j);
      ready = λ j h. ground (
        arith,
        p.once j,
        p.ready j,
        ready-mark_executing t k j x.executor.graph,
        nat_beq_iff k j,
      );
      all_of_them = λ j h r.
          ground
            (arith, p.all_of_them j, ready-mark_executing t k j x.executor.graph, nat_beq_iff k j);
    }

  -- In the loop that drains the tasks some results are dropped, and nothing is spawned.
  pub record IsDrainSound (t : TraceState V) (x : Execution V) : Type 0 where
    pub are_outputs : AreOutputs t
    pub at_most_once :
        (j : ℕ)
        → tasks_of j x.tasks + bit (contains_key t.completed j && is_spawned x j)
          ≤ bit (is_spawned x j)
    pub activated : (j : ℕ) → is_spawned x j ≡ true → is_activated t j x.executor.graph ≡ true

  abbrev pub IsDraining : ℕ → Execution V → Type 0
  IsDraining id x =
      (t : TraceState V) → HashMap.get x.executor.traces id ≡ some t → IsDrainSound t x

  abbrev pub IsPhaseGood : ℕ → Phase V → Type 0
  IsPhaseGood id (going x) = IsOrdered x.executor × IsGoing id x
  IsPhaseGood id (draining x _ _ _) = IsDraining id x
  IsPhaseGood id (stopped ex result) = Unit

  known-IsGoing :
      (id : ℕ) (x : Execution V) (t : TraceState V)
      → HashMap.get x.executor.traces id ≡ some t
      → IsSound t x
      → IsIdle t x.executor
      → IsGoing id x
  known-IsGoing id x t known s idle t' known' =
      let both : IsSound t x × IsIdle t x.executor = (s, idle) in
      let same : t ≡ t' = cc in rw same at both

  -- A spawn adds a task, or fails.
  pub spawn-cases :
      (texts : Texts V) (id k : ℕ) (x : Execution V)
      → ((t : TraceState V) × (HashMap.get x.executor.traces id ≡ some t)
          × (spawn texts id k x ≡ (spawned_execution texts id k x t, ok tt)))
        ⊎ ((e : XervError) × ((spawn texts id k x).1 ≡ err e))
  unfolding spawn spawn_with spawned_execution
  spawn-cases texts id k x = elim (Option-cases (HashMap.get x.executor.traces id)) [
    | inl q ↦ inr (not_found k id, rw (spawn, q) refl)
    | inr (t, q) ↦ elim (Bool-cases (contains_key x.executor.nodes k)) [
      | inl b ↦ inl (t, q, rw (spawn, q, b) refl)
      | inr b ↦ inr (node_not_found (texts.node_name k), rw (spawn, q, b) refl)
    ]
  ]

  spawn_on-error :
      (id : ℕ) (r : Execution V × XervResult (Unit {0}))
      (later : Execution V → Execution V × XervResult (Unit {0})) {e : XervError}
      → r.1 ≡ err e
      → IsPhaseGood id (after_spawn (spawn_on r later))
  unfolding spawn_on after_spawn
  spawn_on-error id (x, ok _) later h = ground arith
  spawn_on-error id (x, err e) later h = tt

  spawned-IsOrdered :
      (texts : Texts V) (id k : ℕ) (x : Execution V) (t : TraceState V)
      → IsOrdered x.executor
      → IsOrdered (spawned_execution texts id k x t).executor
  unfolding spawned_execution spawn_with
  spawned-IsOrdered texts id k x t o = o

  spawn_all-IsPhaseGood :
      (texts : Texts V) (id : ℕ) (js : List ℕ) (x : Execution V) (t : TraceState V)
      → IsOrdered x.executor
      → HashMap.get x.executor.traces id ≡ some t
      → IsSound t x
      → ArePending t x js
      → IsPhaseGood id (after_spawn (spawn_all texts id js x))
  unfolding spawn_all after_spawn spawn_on
  spawn_all-IsPhaseGood texts id [] x t o known s p =
      (o, known-IsGoing id x t known s (λ j h. ground (arith, p.all_of_them j)))
  spawn_all-IsPhaseGood texts id (k ∷ js) x t o known s p = elim (spawn-cases texts id k x) [
    | inl (t', q, spawns) ↦
        let same : t ≡ t' = cc in
        rw (spawn_all, spawns, sym same)
          (spawn_all-IsPhaseGood texts id js (spawned_execution texts id k x t) (mark_executing t k)
            (spawned-IsOrdered texts id k x t o) (spawned-trace texts id k x t)
            (spawned-IsSound texts id k x t s (p.new_ones k (ground arith))
              (p.ready k (ground arith)))
            (spawned-ArePending texts id k x t js p))
    | inr (e, fails) ↦ spawn_on-error id (spawn texts id k x) _ fails
  ]

  found-ArePending :
      (x : Execution V) (t : TraceState V)
      → IsOrdered x.executor
      → IsSound t x
      → ArePending t x (filter_by (is_due x.executor t x.spawned) x.executor.execution_order)
  found-ArePending x t o s =
      let found = occurs-filter_by (is_due x.executor t x.spawned) in
      let order = x.executor.execution_order in
      record {
        once = λ j. ground (arith, found j order, o j);
        new_ones = λ j h. ground (arith, found j order);
        ready = λ j h. ground (arith, found j order);
        all_of_them = λ j h r. ground (
          arith,
          found j order,
          s.once j,
          s.executes j,
          occurs_pos j order,
          is_node_ready-unfold t j x.executor.graph,
        );
      }

  pub turn-IsPhaseGood :
      (texts : Texts V) (id : ℕ) (x : Execution V)
      → IsOrdered x.executor
      → ((t : TraceState V) → HashMap.get x.executor.traces id ≡ some t → IsSound t x)
      → IsPhaseGood id (turn texts id x)
  unfolding turn spawn_found find_ready_nodes
  turn-IsPhaseGood texts id x o sound = elim (Option-cases (HashMap.get x.executor.traces id)) [
    | inl q ↦ rw (turn, find_ready_nodes, q) tt
    | inr (t, q) ↦
        rw (turn, find_ready_nodes, q)
          (spawn_all-IsPhaseGood texts id _ x t o q (sound t q)
            (found-ArePending x t o (sound t q)))
  ]
