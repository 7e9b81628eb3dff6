-- ===== src/Executor/Run/Outcomes.antt =====
-- How the loop of `execute_trace` goes on, and how it returns.
use xerv.Prelude.{
  ℕ, ◌≡◌, Bool, true, false, Option, none, some, List, arith, if◌then◌else◌, nat_eq, nat_beq_iff,
  ok, err, Result, Option-cases, Bool-cases, inl, inr,
}
use xerv.HashMap
use xerv.HashMap.{HashSet, contains_key}
use xerv.HashMap.Laws.{get-remove}
use xerv.Errors.{XervResult}
use xerv.NodeOutput.{SuspensionRequest, RelPtr, complete, error, suspend}
use xerv.Suspension.{Json}
use xerv.Suspension.Store.{MemorySuspensionStore, SuspensionError}
use xerv.TraceState.{TraceState}
use xerv.Executor.{
  Executor, Texts, Task, Execution, finished, panicked, JoinResult, spawn_all, find_ready_nodes,
  finalize_trace, write,
}
use xerv.Executor.Suspend.{suspend_trace, after_suspend, flushed}
use xerv.Executor.Run.{
  Phase, stopped, Event, turn, spawn_found, after_spawn, execute_trace, step, Reachable, start,
  next, is_empty, process_node_result, joined, drained, map_going, map_draining, finish,
}
use xerv.Executor.Run.Induction.{step-cases}
use xerv.Executor.Run.Termination.{own}

module _ {V : Type 0} where
  -- What `execute_trace` returned, if it did, and whether the trace is still active then.
  abbrev pub IsGone : ℕ → Phase V → Type 0
  IsGone id (stopped ex (ok _)) = contains_key ex.traces id ≡ false
  IsGone id _ = Unit

  abbrev IsGoneIf : ℕ → Option (Phase V) → Type 0
  IsGoneIf id none = Unit
  IsGoneIf id (some p) = IsGone id p

  removed : (ex : Executor V) (id : ℕ) → contains_key (HashMap.remove ex.traces id) id ≡ false
  removed ex id = ground (arith, get-remove ex.traces id id, nat_beq_iff id id)

  finalize_trace-IsGone :
      (ex : Executor V) (id now : ℕ) (io : XervResult (Unit {0}))
      → IsGone id (finish (finalize_trace ex id now io))
  unfolding finalize_trace write
  finalize_trace-IsGone ex id now (ok _) = removed ex id
  finalize_trace-IsGone ex id now (err e) = tt

  after_suspend-IsGone :
      (texts : Texts V) (ex : Executor V) (now id k : ℕ) (r : SuspensionRequest V) (p : RelPtr)
      (io : XervResult (Unit {0})) (s : MemorySuspensionStore V × Result (Unit {0}) SuspensionError)
      → IsGone id (finish (after_suspend texts ex now id k r p io s))
  unfolding after_suspend write
  after_suspend-IsGone texts ex now id k r p io (store, err e) = tt
  after_suspend-IsGone texts ex now id k r p (err e) (store, ok _) = tt
  after_suspend-IsGone texts ex now id k r p (ok _) (store, ok _) = removed ex id

  flushed-IsGone :
      (json : Json V) (texts : Texts V) (ex : Executor V) (now id k : ℕ) (r : SuspensionRequest V)
      (p : RelPtr) (io : XervResult (Unit {0})) (store : MemorySuspensionStore V) (t : TraceState V)
      (flush : XervResult (Unit {0}))
      → IsGone id (finish (flushed json texts ex now id k r p io store t flush))
  unfolding flushed
  flushed-IsGone json texts ex now id k r p io store t (err e) = tt
  flushed-IsGone json texts ex now id k r p io store t (ok _) =
      after_suspend-IsGone texts ex now id k r p io _

  suspend_trace-IsGone :
      (json : Json V) (texts : Texts V) (ex : Executor V) (now id k : ℕ) (r : SuspensionRequest V)
      (p : RelPtr) (flush io : XervResult (Unit {0}))
      → IsGone id (finish (suspend_trace json texts ex now id k r p flush io))
  unfolding suspend_trace
  suspend_trace-IsGone json texts ex now id k r p flush io =
      elim (Option-cases ex.suspension_store) [
        | inl q ↦ rw (suspend_trace, q) tt
        | inr (store, q) ↦ elim (Option-cases (HashMap.get ex.traces id)) [
          | inl h ↦ rw (suspend_trace, q, h) tt
          | inr (t, h) ↦
              rw (suspend_trace, q, h) (flushed-IsGone json texts ex now id k r p io store t flush)
        ]
      ]

  module _ (texts : Texts V) (id : ℕ) where
    after_spawn-IsGone : (s : Execution V × XervResult (Unit {0})) → IsGone id (after_spawn s)
    unfolding after_spawn
    after_spawn-IsGone (x, ok _) = tt
    after_spawn-IsGone (x, err e) = tt

    spawn_found-IsGone :
        (x : Execution V) (found : XervResult (List ℕ)) → IsGone id (spawn_found texts id x found)
    unfolding spawn_found
    spawn_found-IsGone x (ok ready) = after_spawn-IsGone (spawn_all texts id ready x)
    spawn_found-IsGone x (err e) = tt

    turn-IsGone : (x : Execution V) → IsGone id (turn texts id x)
    unfolding turn
    turn-IsGone x = spawn_found-IsGone x (find_ready_nodes x.executor id x.spawned)

    processed-IsGone :
        (x : Execution V) (r : JoinResult V) → IsGone id (process_node_result texts id x r)
    unfolding process_node_result
    processed-IsGone x (finished k (ok (complete p d h))) = turn-IsGone _
    processed-IsGone x (finished k (ok (error m d))) = turn-IsGone _
    processed-IsGone x (finished k (ok (suspend r p))) = tt
    processed-IsGone x (finished k (err e)) = tt
    processed-IsGone x (panicked k) = tt

    joined-IsGone :
        (x : Execution V) (o : Option (JoinResult V × List (JoinResult V)))
        → IsGoneIf id (joined texts id x o)
    unfolding joined
    joined-IsGone x none = tt
    joined-IsGone x (some (r, rest)) = processed-IsGone _ r

    drained-IsGone :
        (x : Execution V) (k : ℕ) (r : SuspensionRequest V) (p : RelPtr)
        (o : Option (JoinResult V × List (JoinResult V)))
        → IsGoneIf id (drained id x k r p o)
    unfolding drained
    drained-IsGone x k r p none = tt
    drained-IsGone x k r p (some (result, rest)) = tt

  going-IsGone : (id : ℕ) (o : Option (Execution V)) → IsGoneIf id (map_going o)
  going-IsGone id none = tt
  going-IsGone id (some x) = tt

  draining-IsGone :
      (id k : ℕ) (r : SuspensionRequest V) (p : RelPtr) (o : Option (Execution V))
      → IsGoneIf id (map_draining k r p o)
  draining-IsGone id k r p none = tt
  draining-IsGone id k r p (some x) = tt

  stopped-IsGone :
      (id : ℕ) (b : Bool) (result : Executor V × XervResult (Unit {0}))
      → IsGone id (finish result)
      → IsGoneIf id (if b then some (finish result) else none)
  stopped-IsGone id true result h = h
  stopped-IsGone id false result h = tt

  module _ (json : Json V) (texts : Texts V) (id : ℕ) where
    step-IsGone : (p : Phase V) (e : Event V) → IsGoneIf id (step json texts id p e)
    step-IsGone =
        step-cases json texts id (λ p e o. IsGoneIf id o)
          (record {
            over = λ ex result e. tt;
            joins = λ x i. joined-IsGone texts id x _;
            finalizes = λ x now io.
                stopped-IsGone id (is_empty x.tasks) _ (finalize_trace-IsGone x.executor id now io);
            goes = λ x e. going-IsGone id _;
            drains = λ x k r p i. drained-IsGone texts id x k r p _;
            suspends = λ x k r p now flush io.
                stopped-IsGone id (is_empty x.tasks) _
                  (suspend_trace-IsGone json texts x.executor now id k r p flush io);
            drains_on = λ x k r p e. draining-IsGone id k r p _;
          })

    execute_trace-IsGone : (ex : Executor V) → IsGone id (execute_trace texts id ex)
    unfolding execute_trace
    execute_trace-IsGone ex = elim (Bool-cases (contains_key ex.traces id)) [
      | inl q ↦ rw (execute_trace, q) (turn-IsGone texts id _)
      | inr q ↦ rw (execute_trace, q) tt
    ]

    -- When `execute_trace` returns `Ok`, because the trace is complete or because it is suspended, the
    -- trace is no longer active.
    pub Reachable-IsGone :
        (ex : Executor V) (p : Phase V) → Reachable json texts id ex p → IsGone id p
    Reachable-IsGone ex _ start = execute_trace-IsGone ex
    Reachable-IsGone ex _ (next p e q r h) = rw h at (step-IsGone p e)

    abbrev pub CanStep : Phase V → Type 0
    CanStep p = (e : Event V) × (q : Phase V) × (own e ≡ 1) × (step json texts id p e ≡ some q)

    module _ (ex : Executor V) (spawned : HashSet ℕ) where
      abbrev with_lists : List Task → List Task → List (JoinResult V) → Execution V
      with_lists w r d = record {
        executor = ex;
        spawned = spawned;
        tasks = record { waiting = w; running = r; done = d };
      }
