-- ===== src/Executor/Suspend/Restore.antt =====
-- What `resume_trace` restores from the log.
use xerv.Prelude.{
  ℕ, ◌≡◌, refl, String, true, false, Option, none, some, [], ◌∷◌, arith, nat_eq, leb, ok, err,
  ==-refl,
}
use xerv.HashMap
use xerv.HashMap.{HashMap, contains_key, len}
use xerv.HashMap.Laws.{get-insert}
use xerv.Errors.{XervResult}
use xerv.NodeOutput.{RelPtr, null, NodeOutput, complete}
use xerv.Suspension.{Json}
use xerv.TraceState.{TraceState, from_recovery}
use xerv.TraceState.Laws.{IsFresh, from_recovery-IsFresh}
use xerv.Wal.Record.{WalRecord, trace_resumed}
use xerv.Wal.Reader.{NodeOutputLocation, TraceRecoveryState, replay}
use xerv.Wal.Reader.Located.{is_found}
use xerv.Executor.{Executor, Texts, Execution, write, insert_trace}
use xerv.Executor.Suspend.{completed_outputs, restored, resume_trace}
use xerv.Executor.Run.{Phase, execution_of, Reachable}
use xerv.Executor.Run.Invariant.{IsOrdered, is_spawned}
use xerv.Executor.Run.Durable.Holds.{recorded-location}

module _ {V : Type 0} where
  abbrev pub from_location : Option NodeOutputLocation → Option (NodeOutput V)
  from_location none = none
  from_location (some loc) =
      some (complete "out" (record { offset = loc.offset; size = loc.size }) loc.schema_hash)

  get-completed_outputs :
      (m : HashMap ℕ NodeOutputLocation) (k : ℕ)
      → HashMap.get (completed_outputs {Value = V} m) k ≡ from_location (HashMap.get m k)
  unfolding completed_outputs HashMap.get
  get-completed_outputs [] k = refl
  get-completed_outputs ((j, loc) ∷ m) k = ground (
    arith,
    get-insert (completed_outputs {Value = V} m) j k
        (complete "out" (record { offset = loc.offset; size = loc.size }) loc.schema_hash),
    get-completed_outputs m k,
  )

  -- The trace that `resume_trace` starts from.
  abbrev pub recovered : ℕ → String → HashMap ℕ NodeOutputLocation → TraceState V
  recovered trace_id arena completed_nodes =
      from_recovery trace_id arena "recovered" null (completed_outputs completed_nodes)

  written-traces :
      (io : XervResult (Unit {0})) (r : WalRecord) (ex : Executor V)
      → (write io r ex).traces ≡ ex.traces
  unfolding write
  written-traces (ok _) r ex = refl
  written-traces (err e) r ex = refl

  pub resume_trace-recovered :
      (ex : Executor V) (now : ℕ) (arena : String) (s : TraceRecoveryState)
      (io : XervResult (Unit {0}))
      → leb ex.config.max_concurrent_traces (len ex.traces) ≡ false
      → HashMap.get (resume_trace ex now arena s io).0.traces s.trace_id
        ≡ some (recovered s.trace_id arena s.completed_nodes)
  unfolding resume_trace restored
  resume_trace-recovered ex now arena s io room =
      let trace = recovered s.trace_id arena s.completed_nodes in
      rw
        (
          resume_trace,
          room,
          restored,
          written-traces io (trace_resumed now s.trace_id) (insert_trace ex s.trace_id trace),
          get-insert ex.traces s.trace_id s.trace_id trace,
          ==-refl s.trace_id,
        )
        refl

  pub recovered-outputs :
      (id : ℕ) (arena : String) (m : HashMap ℕ NodeOutputLocation) (k : ℕ)
      → HashMap.get (recovered id arena m).outputs k ≡ from_location (HashMap.get m k)
  unfolding from_recovery
  recovered-outputs id arena m k = get-completed_outputs m k

module _ {V : Type 0} (json : Json V) (texts : Texts V) (id : ℕ) (ex : Executor V)
    (ordered : IsOrdered ex)
    (fresh : (t : TraceState V) → HashMap.get ex.traces id ≡ some t → IsFresh t)
    (started : is_found ex.wal id ≡ true) where
  -- Crash recovery restores what was done: if an execution is cut off anywhere, and a new executor with
  -- room for one more trace resumes the trace from what the log's reader finds, then every output that
  -- the first one had recorded as complete, of a node that it spawned, is an output of the resumed
  -- trace, at its place and with its schema hash, but on the port "out" whatever its port was; the node
  -- counts as completed, and nothing as executing. The log has the trace's start, the executor's order
  -- has no duplicates, and the trace started with no node executing and with an output for just its
  -- completed nodes.
  pub resume_trace-restores :
      (p : Phase V) (x : Execution V) (t : TraceState V) (k : ℕ) (port : String) (d : RelPtr)
      (h : ℕ) (found : TraceRecoveryState) (ex' : Executor V) (now : ℕ) (arena : String)
      (io : XervResult (Unit {0}))
      → Reachable json texts id ex p
      → execution_of p ≡ some x
      → HashMap.get x.executor.traces id ≡ some t
      → is_spawned x k ≡ true
      → HashMap.get t.outputs k ≡ some (complete port d h)
      → HashMap.get (replay [] x.executor.wal) id ≡ some found
      → leb ex'.config.max_concurrent_traces (len ex'.traces) ≡ false
      → (t' : TraceState V) × (HashMap.get
            (resume_trace ex' now arena found io).0.traces
            found.trace_id
          ≡ some t')
        × (HashMap.get t'.outputs k ≡ some (complete "out" d h))
        × (contains_key t'.completed k ≡ true)
        × IsFresh t'
  resume_trace-restores p x t k port d h found ex' now arena io r q known spawned out is_found_
        room =
      let at_ = rw is_found_ at (
        recorded-location json texts id ex ordered fresh started p x t k port d h r q known spawned
          out) in
      let outputs = recovered-outputs {V = V} found.trace_id arena found.completed_nodes k in
      let fresh' =
        from_recovery-IsFresh {V = V} found.trace_id arena "recovered" null
          (completed_outputs found.completed_nodes) in
      let there = rw at_ at outputs in
      (
        recovered found.trace_id arena found.completed_nodes,
        resume_trace-recovered ex' now arena found io room,
        there,
        ground (arith, fresh'.are_outputs k, there),
        fresh',
      )
