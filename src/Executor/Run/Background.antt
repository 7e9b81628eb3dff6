-- ===== src/Executor/Run/Background.antt =====
-- The steps of tasks and of other traces, which leave the trace in question and its tasks' nodes.
use xerv.Prelude.{
  ℕ, zero, suc, ◌+◌, ◌≡◌, refl, Option, none, some, List, [], ◌∷◌, ◌++◌, arith, occurs, nat_eq,
  ◌==◌, ok, err, map, Bool-cases, Option-cases, inl, inr, ltb, length,
}
use xerv.HashMap
use xerv.HashMap.{contains_key}
use xerv.HashMap.Laws.{get-insert, get-remove}
use xerv.Errors.{XervResult}
use xerv.NodeOutput.{NodeOutput}
use xerv.TraceState.{TraceState}
use xerv.Wal.Record.{WalRecord}
use xerv.Executor.{
  Executor, Texts, JoinResult, finished, panicked, JoinSet, Execution, execute_single_node, written,
  write, Answer,
}
use xerv.Executor.Run.{
  going, Event, acquire, work, panic, join, finalize, suspend_now, other_trace, other_removed,
  other_logged, take_at, background, worked,
}
use xerv.Executor.Run.Invariant.{
  bit, task_ids-snoc, result_id, result_ids, tasks_of, IsSound, IsDrainSound, IsDraining,
  IsPhaseGood,
}

pub occurs-take_at :
    {A : Type 0} (f : A → ℕ) (j : ℕ) (xs : List A) (i : ℕ) {y : A} {ys : List A}
    → take_at xs i ≡ some (y, ys)
    → occurs j (map f xs) ≡ bit (f y == j) + occurs j (map f ys)
unfolding take_at
occurs-take_at f j [] i h = ground arith
occurs-take_at f j (x ∷ xs) zero h = ground arith
occurs-take_at f j (x ∷ xs) (suc i) {y} {ys} h = elim (Option-cases (take_at xs i)) [
  | inl q ↦ ground arith
  | inr ((z, zs), q) ↦ ground (arith, occurs-take_at f j xs i q)
]

module _ {V : Type 0} where
  pub result_ids-snoc :
      (j : ℕ) (rs : List (JoinResult V)) (r : JoinResult V)
      → occurs j (result_ids (rs ++ r ∷ [])) ≡ occurs j (result_ids rs) + bit (result_id r == j)
  result_ids-snoc j [] r = ground arith
  result_ids-snoc j (s ∷ rs) r = ground (arith, result_ids-snoc j rs r)

  -- What a step in the background leaves as it is, for the trace in question.
  pub record IsBackground (id : ℕ) (x y : Execution V) : Type 0 where
    pub same_spawned : y.spawned ≡ x.spawned
    pub same_graph : y.executor.graph ≡ x.executor.graph
    pub same_order : y.executor.execution_order ≡ x.executor.execution_order
    pub same_tasks : (j : ℕ) → tasks_of j y.tasks ≡ tasks_of j x.tasks
    pub same_trace :
        (t : TraceState V)
        → HashMap.get y.executor.traces id ≡ some t
        → HashMap.get x.executor.traces id ≡ some t

  abbrev pub IsBackgroundOf : ℕ → Execution V → Option (Execution V) → Type 0
  IsBackgroundOf id x none = Unit
  IsBackgroundOf id x (some y) = IsBackground id x y

  moved :
      (id : ℕ) (x : Execution V) (tasks : JoinSet V)
      → ((j : ℕ) → tasks_of j tasks ≡ tasks_of j x.tasks)
      → IsBackground id x (record x { tasks = tasks })
  moved id x tasks h = record {
    same_spawned = refl;
    same_graph = refl;
    same_order = refl;
    same_tasks = h;
    same_trace = λ t q. q;
  }

  written-wal :
      (io : XervResult (Unit {0})) (o : Option WalRecord) (result : XervResult (NodeOutput V))
      (ex : Executor V)
      → (written io o result ex).0 ≡ record ex { wal = (written io o result ex).0.wal }
  unfolding written write
  written-wal io none result ex = refl
  written-wal (ok _) (some r) result ex = refl
  written-wal (err e) (some r) result ex = refl

  -- A node's execution changes the log only.
  pub execute_single_node-wal :
      (texts : Texts V) (now id k : ℕ) (answer : Answer V) (io : XervResult (Unit {0}))
      (ex : Executor V)
      → (execute_single_node texts now id k answer io ex).0
        ≡ record ex { wal = (execute_single_node texts now id k answer io ex).0.wal }
  unfolding execute_single_node
  execute_single_node-wal texts now id k answer io ex = written-wal io _ _ ex

  written-IsBackground :
      (texts : Texts V) (id now k : ℕ) (answer : Answer V) (io : XervResult (Unit {0}))
      (x : Execution V)
      → IsBackground id x
          (record x { executor = (execute_single_node texts now id k answer io x.executor).0 })
  written-IsBackground texts id now k answer io x =
      rw (execute_single_node-wal texts now id k answer io x.executor) (record {
        same_spawned = refl;
        same_graph = refl;
        same_order = refl;
        same_tasks = λ j. refl;
        same_trace = λ t q. q;
      })

  pub background-IsBackgroundOf :
      (texts : Texts V) (id : ℕ) (x : Execution V) (e : Event V)
      → IsBackgroundOf id x (background texts id x e)
  unfolding background worked write
  background-IsBackgroundOf texts id x (acquire i) =
      elim (Option-cases (take_at x.tasks.waiting i)) [
        | inl q ↦ rw (background, q) tt
        | inr ((task, rest), q) ↦
            elim (Bool-cases
              (ltb (length x.tasks.running) x.executor.config.max_concurrent_nodes)) [
                | inl b ↦
                    rw (background, q, b)
                      (moved id x _ (λ j. ground (
                        arith,
                        occurs-take_at (λ t. t.node_id) j x.tasks.waiting i q,
                        task_ids-snoc j x.tasks.running task,
                      )))
                | inr b ↦ rw (background, q, b) tt
              ]
      ]
  background-IsBackgroundOf texts id x (work i answer now io) =
      elim (Option-cases (take_at x.tasks.running i)) [
        | inl q ↦ rw (background, q) tt
        | inr ((task, rest), q) ↦
            let w = written-IsBackground texts id now task.node_id answer io x in
            rw (background, q)
              (record {
                same_spawned = refl;
                same_graph = w.same_graph;
                same_order = w.same_order;
                same_tasks = λ j. ground (
                  arith,
                  occurs-take_at (λ t. t.node_id) j x.tasks.running i q,
                  result_ids-snoc j x.tasks.done (
                      finished task.node_id
                        (execute_single_node texts now id task.node_id answer io x.executor).1),
                );
                same_trace = w.same_trace;
              })
      ]
  background-IsBackgroundOf texts id x (panic i) = elim (Option-cases (take_at x.tasks.running i)) [
    | inl q ↦ rw (background, q) tt
    | inr ((task, rest), q) ↦
        rw (background, q)
          (moved id x _ (λ j. ground (
            arith,
            occurs-take_at (λ t. t.node_id) j x.tasks.running i q,
            result_ids-snoc j x.tasks.done (panicked task.node_id),
          )))
  ]
  background-IsBackgroundOf texts id x (join i) = tt
  background-IsBackgroundOf texts id x (finalize now io) = tt
  background-IsBackgroundOf texts id x (suspend_now now flush io) = tt
  background-IsBackgroundOf texts id x (other_trace k t) = elim (Bool-cases (k == id)) [
    | inl b ↦ rw (background, b) tt
    | inr b ↦
        rw (background, b)
          (record {
            same_spawned = refl;
            same_graph = refl;
            same_order = refl;
            same_tasks = λ j. refl;
            same_trace = λ t' q. ground (arith, b, q, get-insert x.executor.traces k id t);
          })
  ]
  background-IsBackgroundOf texts id x (other_removed k) = record {
    same_spawned = refl;
    same_graph = refl;
    same_order = refl;
    same_tasks = λ j. refl;
    same_trace = λ t' q. ground (arith, q, get-remove x.executor.traces k id);
  }
  background-IsBackgroundOf texts id x (other_logged r) = elim (Bool-cases (r.trace_id == id)) [
    | inl b ↦ rw (background, b) tt
    | inr b ↦
        rw (background, b, write)
          (record {
            same_spawned = refl;
            same_graph = refl;
            same_order = refl;
            same_tasks = λ j. refl;
            same_trace = λ t q. q;
          })
  ]

  background-IsSound :
      (id : ℕ) (x y : Execution V) (t : TraceState V)
      → IsBackground id x y
      → IsSound t x
      → IsSound t y
  background-IsSound id x y t b s = record {
    are_outputs = s.are_outputs;
    once = λ j. ground (arith, b.same_tasks j, b.same_spawned, s.once j);
    executes = λ j. ground (arith, b.same_tasks j, s.executes j);
    activated = λ j. rw (b.same_spawned, b.same_graph) (s.activated j);
  }

  background-IsDrainSound :
      (id : ℕ) (x y : Execution V) (t : TraceState V)
      → IsBackground id x y
      → IsDrainSound t x
      → IsDrainSound t y
  background-IsDrainSound id x y t b s = record {
    are_outputs = s.are_outputs;
    at_most_once = λ j. ground (arith, b.same_tasks j, b.same_spawned, s.at_most_once j);
    activated = λ j. rw (b.same_spawned, b.same_graph) (s.activated j);
  }

  pub background-IsPhaseGood :
      (id : ℕ) (x y : Execution V)
      → IsBackground id x y
      → IsPhaseGood id (going x)
      → IsPhaseGood id (going y)
  background-IsPhaseGood id x y b (o, g) = (
    rw (b.same_order) o,
    λ t q. (
      background-IsSound id x y t b (g t (b.same_trace t q)).0,
      rw (b.same_order, b.same_graph) (g t (b.same_trace t q)).1,
    ),
  )

  pub background-IsDraining :
      (id : ℕ) (x y : Execution V) → IsBackground id x y → IsDraining id x → IsDraining id y
  background-IsDraining id x y b g t q = background-IsDrainSound id x y t b (g t (b.same_trace t q))
