-- ===== src/Executor/Suspend.antt =====
-- xerv-executor/src/scheduler/suspension.rs: suspending a trace, and reading it back for execution. The
-- answers of the clock (read once), of the arena's file and of the log are arguments.
pub mod Restore
pub mod Limit
use xerv.Prelude.{
  ℕ, ◌%◌, ◌^◌, String, Option, none, some, [], ◌∷◌, if◌then◌else◌, leb, Result, ok, err, ◌>>=◌,
  get_or, nat_eq, string_eq,
}
use xerv.HashMap
use xerv.HashMap.{HashMap, len}
use xerv.Errors.{XervError, XervResult, node_execution, suspension_failed, hook_not_found}
use xerv.NodeOutput.{RelPtr, null, NodeOutput, SuspensionRequest, complete}
use xerv.Suspension.{
  SuspendedTraceState, ResumeDecision, TimeoutAction, Json, new_state, with_value, with_timeout,
  output_port,
}
use xerv.Suspension.Store
use xerv.Suspension.Store.{MemorySuspensionStore, SuspensionError, resume}
use xerv.TraceState.{TraceState, from_recovery}
use xerv.Wal.Record
use xerv.Wal.Record.{with_metadata}
use xerv.Wal.Reader.{NodeOutputLocation, TraceRecoveryState}
use xerv.Executor.{Executor, Texts, write, insert_trace, remove_trace, limit_error}

-- What the log says of the trace that is resumed.
abbrev logged_nodes : Option TraceRecoveryState → HashMap ℕ NodeOutputLocation
logged_nodes none = []
logged_nodes (some state) = state.completed_nodes

module _ {Value : Type 0} where
  -- The store's errors are values of `XervError`.
  pub lift : Texts Value → SuspensionError → XervError
  lift texts (Store.suspension_failed trace_id hook_id) =
      suspension_failed trace_id (texts.hook_exists hook_id)
  lift texts (Store.hook_not_found hook_id) = hook_not_found hook_id

  abbrev apply_timeout :
      SuspensionRequest Value → Option ℕ → SuspendedTraceState Value → SuspendedTraceState Value
  apply_timeout request none state = state
  apply_timeout request (some secs) state =
      with_timeout state state.created_at secs request.timeout_action

  -- The state that `suspend_trace` stores.
  unfoldable pub suspended_state :
      Json Value
      → Executor Value
      → ℕ
      → ℕ
      → ℕ
      → SuspensionRequest Value
      → TraceState Value
      → SuspendedTraceState Value
  suspended_state json ex now trace_id node_id request trace =
      apply_timeout request request.timeout_secs (
        with_value
          (new_state json now request.hook_id trace_id node_id trace.arena_path
            (get_or ex.pipeline_id "unknown"))
          request.metadata)

  -- Behind the store's answer: the log's record, and the trace leaves the active ones.
  unfoldable pub after_suspend :
      Texts Value
      → Executor Value
      → ℕ
      → ℕ
      → ℕ
      → SuspensionRequest Value
      → RelPtr
      → XervResult (Unit {0})
      → MemorySuspensionStore Value × Result (Unit {0}) SuspensionError
      → Executor Value × XervResult (Unit {0})
  after_suspend texts ex now trace_id node_id request pending io (store, err e) =
      (record ex { suspension_store = some store }, err (lift texts e))
  after_suspend texts ex now trace_id node_id request pending (err e) (store, ok _) =
      (record ex { suspension_store = some store }, err e)
  after_suspend texts ex now trace_id node_id request pending (ok _) (store, ok _) = (
    remove_trace
        (write (ok tt)
          (with_metadata (Record.trace_suspended now trace_id node_id)
            (texts.utf8 (texts.suspension request pending)))
          (record ex { suspension_store = some store }))
        trace_id,
    ok tt,
  )

  unfoldable pub flushed :
      Json Value
      → Texts Value
      → Executor Value
      → ℕ
      → ℕ
      → ℕ
      → SuspensionRequest Value
      → RelPtr
      → XervResult (Unit {0})
      → MemorySuspensionStore Value
      → TraceState Value
      → XervResult (Unit {0})
      → Executor Value × XervResult (Unit {0})
  unfolding after_suspend
  flushed json texts ex now trace_id node_id request pending io store trace (err e) = (ex, err e)
  flushed json texts ex now trace_id node_id request pending io store trace (ok _) =
      after_suspend texts ex now trace_id node_id request pending io
        (Store.suspend store (suspended_state json ex now trace_id node_id request trace))

  -- `flush` and `io` are the answers of the arena's file and of the log.
  unfoldable pub suspend_trace :
      Json Value
      → Texts Value
      → Executor Value
      → ℕ
      → ℕ
      → ℕ
      → SuspensionRequest Value
      → RelPtr
      → (flush io : XervResult (Unit {0})) → Executor Value × XervResult (Unit {0})
  unfolding flushed
  suspend_trace json texts ex now trace_id node_id request pending flush io =
      elim ex.suspension_store [
        | none ↦ (ex, err (suspension_failed trace_id "No suspension store configured"))
        | some store ↦ elim (HashMap.get ex.traces trace_id) [
          | none ↦ (ex, err (node_execution node_id trace_id "Trace not found during suspension"))
          | some trace ↦
              flushed json texts ex now trace_id node_id request pending io store trace flush
        ]
      ]

  -- The outputs that the log's locations stand for; the port is not in the log.
  unfoldable pub completed_outputs : HashMap ℕ NodeOutputLocation → HashMap ℕ (NodeOutput Value)
  completed_outputs [] = []
  completed_outputs ((node_id, loc) ∷ m) =
      HashMap.insert (completed_outputs m) node_id
        (complete "out" (record { offset = loc.offset; size = loc.size }) loc.schema_hash)

  -- The part of `resume_trace` before it executes the trace.
  unfoldable pub restored :
      Executor Value
      → ℕ
      → ℕ
      → String
      → HashMap ℕ NodeOutputLocation
      → XervResult (Unit {0})
      → Executor Value × XervResult (Unit {0})
  restored ex now trace_id arena completed_nodes io = (
    write io (Record.trace_resumed now trace_id) (
        insert_trace ex trace_id
          (from_recovery trace_id arena "recovered" null (completed_outputs completed_nodes))),
    io,
  )

  unfoldable pub resume_trace :
      Executor Value
      → ℕ
      → String
      → TraceRecoveryState
      → XervResult (Unit {0})
      → Executor Value × XervResult (Unit {0})
  unfolding restored
  resume_trace ex now arena state io =
      if leb ex.config.max_concurrent_traces (len ex.traces)
      then (ex, err (limit_error ex))
      else restored ex now state.trace_id arena state.completed_nodes io

  -- The trace state that `resume_suspended_trace` puts together.
  unfoldable pub resumed_state :
      SuspendedTraceState Value
      → ResumeDecision Value
      → Option TraceRecoveryState
      → RelPtr
      → TraceState Value
  resumed_state suspended decision logged data_ptr =
      from_recovery suspended.trace_id suspended.arena_path suspended.pipeline_id null (
        HashMap.insert (completed_outputs (logged_nodes logged)) suspended.suspended_at
          (complete (output_port decision) data_ptr 0))

  -- Behind the store's answer. `opened` answers for the arena's file, `traces` for the log, and
  -- `stored` for the decision's data.
  unfoldable pub after_resume :
      Texts Value
      → Executor Value
      → ℕ
      → ResumeDecision Value
      → XervResult (Unit {0})
      → XervResult (HashMap ℕ TraceRecoveryState)
      → XervResult RelPtr
      → XervResult (Unit {0})
      → MemorySuspensionStore Value × Result (SuspendedTraceState Value) SuspensionError
      → Executor Value × XervResult ℕ
  after_resume texts ex now decision opened traces stored io (store, err e) =
      (record ex { suspension_store = some store }, err (lift texts e))
  after_resume texts ex now decision (err e) traces stored io (store, ok suspended) =
      (record ex { suspension_store = some store }, err e)
  after_resume texts ex now decision (ok _) (err e) stored io (store, ok suspended) =
      (record ex { suspension_store = some store }, err e)
  after_resume texts ex now decision (ok _) (ok traces) (err e) io (store, ok suspended) =
      (record ex { suspension_store = some store }, err e)
  after_resume texts ex now decision (ok _) (ok traces) (ok ptr) io (store, ok suspended) = (
    write io (Record.trace_resumed now suspended.trace_id) (
        insert_trace (record ex { suspension_store = some store }) suspended.trace_id
          (resumed_state suspended decision (HashMap.get traces suspended.trace_id) ptr)),
    (io >>= λ _. ok suspended.trace_id),
  )

  -- The part of `resume_suspended_trace` before it executes the trace.
  unfoldable pub resume_suspended_trace :
      Texts Value
      → Executor Value
      → ℕ
      → String
      → ResumeDecision Value
      → XervResult (Unit {0})
      → XervResult (HashMap ℕ TraceRecoveryState)
      → XervResult RelPtr
      → XervResult (Unit {0})
      → Executor Value × XervResult ℕ
  unfolding after_resume
  resume_suspended_trace texts ex now hook_id decision opened traces stored io =
      elim ex.suspension_store [
        | none ↦ (ex, err (hook_not_found hook_id))
        | some store ↦
            after_resume texts ex now decision opened traces stored io
              (resume store hook_id decision)
      ]
