-- ===== src/Executor/Suspend/Limit.antt =====
-- The limit on active traces, and what a new executor and a new trace provide.
use xerv.Prelude.{
  ℕ, ◌≡◌, ap, sym, refl, String, true, Option, none, some, List, [], arith, if◌then◌else◌, nat_eq,
  leb, ok, err, Bool-cases, Option-cases, inl, inr, ==-refl, occurs,
}
use xerv.HashMap
use xerv.HashMap.{HashMap, HashSet, contains_key, len}
use xerv.HashMap.Laws.{get-insert}
use xerv.Errors.{XervResult}
use xerv.FlowGraph.{FlowGraph, topological_sort, validate}
use xerv.FlowGraph.Index.{IsWf}
use xerv.FlowGraph.Sort.Order.{topological_sort-permutes}
use xerv.FlowGraph.Sort.Cycles.{IsRanked}
use xerv.FlowGraph.Validate.{validate_exact}
use xerv.Suspension.Store.{MemorySuspensionStore}
use xerv.TraceState.{TraceState, new_trace}
use xerv.TraceState.Laws.{IsFresh, new_trace-IsFresh}
use xerv.Wal.Record.{WalRecord}
use xerv.Wal.Reader.Located.{is_found, found-trace_start}
use xerv.Executor.{
  Executor, ExecutorConfig, TriggerEvent, start_trace, start_with, write, new_executor, new_by,
  idle_executor,
}

module _ {V : Type 0} where
  new_by-ok :
      (config : ExecutorConfig) (g : FlowGraph) (nodes : HashSet ℕ) (wal : List WalRecord)
      (pipeline_id : Option String) (store : Option (MemorySuspensionStore V))
      (checked : XervResult (Unit {0})) (sorted : Option (XervResult (List ℕ))) (ex : Executor V)
      → new_by config g nodes wal pipeline_id store checked sorted ≡ some (ok ex)
      → (sorted ≡ some (ok ex.execution_order))
        × (checked ≡ ok tt)
        × (ex.graph ≡ g)
        × (ex.traces ≡ [])
  unfolding new_by
  new_by-ok config g nodes wal pipeline_id store (err e) sorted ex h = absurd (ground arith)
  new_by-ok config g nodes wal pipeline_id store (ok _) none ex h = absurd (ground arith)
  new_by-ok config g nodes wal pipeline_id store (ok _) (some (err e)) ex h = absurd (ground arith)
  new_by-ok config g nodes wal pipeline_id store (ok _) (some (ok order)) ex h =
      let same : idle_executor config g nodes wal pipeline_id store order ≡ ex = cc in
      (
        ap (λ x. some (ok x.execution_order)) same,
        refl,
        sym (ap (λ x. x.graph) same),
        sym (ap (λ x. x.traces) same),
      )

  -- An executor that is built for a well-formed graph has an acyclic graph (but for declared loop
  -- back-edges) and executes each of its nodes once: its order holds every node of the graph exactly
  -- once and nothing else. It has no active trace.
  pub new_executor-order :
      (config : ExecutorConfig) (g : FlowGraph) (nodes : HashSet ℕ) (wal : List WalRecord)
      (pipeline_id : Option String) (store : Option (MemorySuspensionStore V)) (ex : Executor V)
      → IsWf g
      → new_executor config g nodes wal pipeline_id store ≡ some (ok ex)
      → ((j : ℕ) → occurs j ex.execution_order ≡ (if contains_key g.nodes j then 1 else 0))
        × (ex.graph ≡ g)
        × (ex.traces ≡ [])
        × ((rank : ℕ → ℕ) × IsRanked g rank g.edges)
  unfolding new_executor
  new_executor-order config g nodes wal pipeline_id store ex w built =
      elim (Option-cases (validate g)) [
        | inl q ↦ absurd (ground (arith, rw (new_executor, q) at built))
        | inr (checked, q) ↦
            let (sorted, passed, same, empty) =
              new_by-ok config g nodes wal pipeline_id store checked (topological_sort g) ex
                (rw (new_executor, q) at built) in
            let (k, ranked) = (validate_exact g w).0 (rw (← passed) q) in
            (topological_sort-permutes g w ex.execution_order sorted k, same, empty, ranked)
      ]

  start_with-started :
      (ex : Executor V) (event : TriggerEvent) (now : ℕ) (io : XervResult (Unit {0}))
      (arena : XervResult String) (id : ℕ)
      → (start_with ex event now io arena).1 ≡ ok id
      → (id ≡ event.trace_id)
        × (is_found (start_with ex event now io arena).0.wal event.trace_id ≡ true)
        × ((t : TraceState V) × (HashMap.get
                (start_with ex event now io arena).0.traces
                event.trace_id
              ≡ some t)
            × IsFresh t)
  unfolding start_with write
  start_with-started ex event now (ok _) (err e) id h = absurd (ground arith)
  start_with-started ex event now (err e') (err e) id h = absurd (ground arith)
  start_with-started ex event now (err e) (ok arena) id h = absurd (ground arith)
  start_with-started ex event now (ok _) (ok arena) id h =
      let trace = new_trace {Value = V} event.trace_id arena event.trigger_id event.data_ in
      (
        cc,
        found-trace_start ex.wal event.trace_id now,
        (
          trace,
          ground (
            arith,
            get-insert ex.traces event.trace_id event.trace_id trace,
            ==-refl event.trace_id,
          ),
          new_trace-IsFresh event.trace_id arena event.trigger_id event.data_,
        ),
      )

  -- A trace that `start_trace` reports as started can be executed and recovered: it is active, with no
  -- node executing and an output for just its completed nodes, and the log's reader finds it.
  pub start_trace-started :
      (ex : Executor V) (event : TriggerEvent) (now : ℕ) (arena : XervResult String)
      (io : XervResult (Unit {0})) (id : ℕ)
      → (start_trace ex event now arena io).1 ≡ ok id
      → (id ≡ event.trace_id)
        × (is_found (start_trace ex event now arena io).0.wal event.trace_id ≡ true)
        × ((t : TraceState V) × (HashMap.get
                (start_trace ex event now arena io).0.traces
                event.trace_id
              ≡ some t)
            × IsFresh t)
  unfolding start_trace
  start_trace-started ex event now arena io id h =
      elim (Bool-cases (leb ex.config.max_concurrent_traces (len ex.traces))) [
        | inl full ↦ absurd (ground (arith, h, full))
        | inr room ↦
            rw (start_trace, room)
              (start_with-started ex event now io arena id (rw (start_trace, room) at h))
      ]
