-- ===== src/Recovery/Restore.antt =====
-- xerv-executor/src/recovery/mod.rs: the traces that recovery resumes, and the suspensions that it puts
-- back into the store.
use xerv.Prelude.{
  ◌≡◌, refl, ℕ, String, none, some, List, [], ◌∷◌, false, if◌then◌else◌, arith, contains, nat_eq,
  string_eq, leb, ==-refl,
}
use xerv.HashMap
use xerv.HashMap.{HashMap, contains_key, len}
use xerv.HashMap.Laws.{get-insert, get-remove}
use xerv.Errors.{XervResult}
use xerv.NodeOutput.{null}
use xerv.Suspension.{SuspendedTraceState, Json, is_expired}
use xerv.Suspension.Store
use xerv.Suspension.Store.{MemorySuspensionStore, suspend_if_free}
use xerv.TraceState.{TraceState}
use xerv.TraceState.Laws.{IsFresh, from_recovery-IsFresh}
use xerv.Wal.Reader.{NodeOutputLocation, TraceRecoveryState}
use xerv.Executor.{Executor}
use xerv.Executor.Suspend.{resume_trace, completed_outputs}
use xerv.Executor.Suspend.Restore.{
  from_location, recovered, resume_trace-recovered, recovered-outputs,
}
use xerv.Recovery.{
  remove_nodes, modified_state, Metadata, CrashReplayer, logged_metadata, restored_state,
  restore_suspended_trace,
}

get-remove_nodes :
    (nodes : List ℕ) (m : HashMap ℕ NodeOutputLocation) (k : ℕ)
    → HashMap.get (remove_nodes nodes m) k ≡ (if contains nodes k then none else HashMap.get m k)
unfolding remove_nodes
get-remove_nodes [] m k = refl
get-remove_nodes (n ∷ nodes) m k =
    ground (arith, get-remove_nodes nodes (HashMap.remove m n) k, get-remove m n k)

module _ {V : Type 0} where
  -- A trace whose nodes are retried starts with an output for each node that the log has as done, at the
  -- place that the log tells, and with none for the nodes that are retried, which count as not
  -- completed; the executor has room for the trace.
  pub resume_trace-modified_state :
      (ex : Executor V) (now : ℕ) (arena : String) (state : TraceRecoveryState) (nodes : List ℕ)
      (io : XervResult (Unit {0}))
      → leb ex.config.max_concurrent_traces (len ex.traces) ≡ false
      → (t : TraceState V) × (HashMap.get
            (resume_trace ex now arena (modified_state nodes state) io).0.traces
            state.trace_id
          ≡ some t)
        × ((k : ℕ)
            → HashMap.get t.outputs k ≡ (
                if contains nodes k
                then none
                else from_location (HashMap.get state.completed_nodes k)))
        × IsFresh t
  resume_trace-modified_state ex now arena state nodes io room =
      let completed = remove_nodes nodes state.completed_nodes in
      (
        recovered state.trace_id arena completed,
        resume_trace-recovered ex now arena (modified_state nodes state) io room,
        λ k. ground (
          arith,
          recovered-outputs {V = V} state.trace_id arena completed k,
          get-remove_nodes nodes state.completed_nodes k,
        ),
        from_recovery-IsFresh {V = V} state.trace_id arena "recovered" null
            (completed_outputs completed),
      )

  -- A trace that the log has as suspended is put back into a store in which its hook is free, under that
  -- hook and at its node; and it never expires, whatever timeout it was suspended with.
  pub restored_never_expires :
      (json : Json V) (texts : Metadata V) (c : CrashReplayer V) (store : MemorySuspensionStore V)
      (now trace_id suspended_at : ℕ) (state : TraceRecoveryState)
      → c.suspension_store ≡ some store
      → contains_key store.suspensions
          (logged_metadata texts now trace_id state.suspension_metadata).0
        ≡ false
      → (after : MemorySuspensionStore V) × (s : SuspendedTraceState V) × ((restore_suspended_trace
            json texts c now trace_id suspended_at state).suspension_store
          ≡ some after)
        × (HashMap.get after.suspensions
              (logged_metadata texts now trace_id state.suspension_metadata).0
            ≡ some s)
        × (s.trace_id ≡ trace_id)
        × (s.suspended_at ≡ suspended_at)
        × ((later : ℕ) → is_expired later s ≡ false)
  unfolding restore_suspended_trace restored_state Store.suspend suspend_if_free
  restored_never_expires json texts c store now trace_id suspended_at state q free =
      let s = restored_state json texts c now trace_id suspended_at state.suspension_metadata in
      (
        record store { suspensions = HashMap.insert store.suspensions s.hook_id s },
        s,
        rw (q, free) refl,
        rw (get-insert store.suspensions s.hook_id s.hook_id s, ==-refl s.hook_id) refl,
        refl,
        refl,
        λ later. refl,
      )
