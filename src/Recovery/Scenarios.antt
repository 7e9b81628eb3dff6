-- ===== src/Recovery/Scenarios.antt =====
-- A start after a crash: a trace that is suspended, one that is executed, and one whose arena is lost.
use xerv.Prelude.{
  ◌≡◌, refl, ℕ, String, none, some, [], ◌∷◌, false, ok, err, occurs, contains, if◌then◌else◌,
  nat_eq, string_eq,
}
use xerv.HashMap
use xerv.HashMap.{HashMap}
use xerv.Errors.{XervError, arena_capacity}
use xerv.FlowGraph.{new}
use xerv.Suspension.{SuspendedTraceState, is_expired}
use xerv.Suspension.Store
use xerv.Suspension.Store.{MemorySuspensionStore, new_store}
use xerv.TraceState.{TraceState, from_recovery}
use xerv.TraceState.Laws.{IsFresh}
use xerv.Wal.Record
use xerv.Wal.Reader.{TraceRecoveryState, started_trace, Traces}
use xerv.Executor.{Executor, default_config, find_ready_nodes, spawn_all, finalize_trace, write}
use xerv.Executor.Suspend.{resume_trace, restored, completed_outputs}
use xerv.Executor.Suspend.Restore.{from_location}
use xerv.Executor.Run.{execute_trace, turn, step, is_empty, finalize, start}
use xerv.Executor.Run.Induction.{run, run-Reachable}
use xerv.Executor.Scenarios.{json, texts, restarted, cut_off}
use xerv.Recovery.{
  Metadata, CrashReplayer, with_suspension_store, determine_action, new_report, RecoveryReport,
  modified_state, restore_suspended_trace, restored_state, logged_metadata, Recovers, Resumes,
  resumes, retries, awaits, finished, next, not_loaded, executed,
}
use xerv.Recovery.Report.{settled, suspended_ids, interrupted_ids, Recovers-new_report}
use xerv.Recovery.Restore.{resume_trace-modified_state, restored_never_expires}

abbrev metadata : Metadata String
metadata = record {
  parse = λ bytes. ok "{}";
  hook_of = λ v. some "hook";
  marked = λ now v. v;
  unparsed = λ now e. e;
  missing = λ now. "{}";
  recovered_hook = λ id. "recovered";
  arena_path = λ dir id. dir;
  failed = λ what e. what;
}

-- An executor of an empty flow.
abbrev idle : Executor String
idle = record {
  config = default_config;
  graph = new;
  nodes = [];
  traces = [];
  wal = [];
  execution_order = [];
  pipeline_id = none;
  suspension_store = none;
}

abbrev replayer : CrashReplayer String
replayer = with_suspension_store idle new_store "pipeline"

abbrev waiting : TraceRecoveryState
waiting = record (started_trace 3) { suspended_at = some 1; suspension_metadata = some [] }

abbrev half_way : TraceRecoveryState
half_way = record (started_trace 5) { started_nodes = 2 ∷ [] }

abbrev traces : Traces
traces = (3, waiting) ∷ (5, half_way) ∷ (4, started_trace 4) ∷ []

restored_never_expires_example :
    (after : MemorySuspensionStore String) × (s : SuspendedTraceState String)
    × ((restore_suspended_trace json metadata replayer 9 3 1 waiting).suspension_store ≡ some after)
    × (HashMap.get after.suspensions (logged_metadata metadata 9 3 (some [])).0 ≡ some s)
    × (s.trace_id ≡ 3)
    × (s.suspended_at ≡ 1)
    × ((later : ℕ) → is_expired later s ≡ false)
unfolding logged_metadata HashMap.get
restored_never_expires_example =
    restored_never_expires json metadata replayer new_store 9 3 1 waiting refl refl

resume_trace-modified_state_example :
    (t : TraceState String) × (HashMap.get
        (resume_trace restarted 9 "/arenas/7" (modified_state (1 ∷ []) cut_off) (ok tt)).0.traces
        cut_off.trace_id
      ≡ some t)
    × ((k : ℕ)
        → HashMap.get t.outputs k ≡ (
            if contains (1 ∷ []) k
            then none
            else from_location (HashMap.get cut_off.completed_nodes k)))
    × IsFresh t
resume_trace-modified_state_example =
    resume_trace-modified_state restarted 9 "/arenas/7" cut_off (1 ∷ []) (ok tt) refl

abbrev lost : XervError
lost = arena_capacity 0 0

after_restore : CrashReplayer String
after_restore = record replayer {
  suspension_store =
      some ((Store.suspend new_store (restored_state json metadata replayer 9 3 1 (some []))).0);
}

abbrev completed : Executor String
completed = record idle { wal = Record.trace_resumed 8 4 ∷ Record.trace_complete 30 4 ∷ [] }

abbrev started : Executor String
started = (resume_trace idle 8 "/tmp/xerv" (started_trace 4) (ok tt)).0

abbrev completes : Resumes json texts idle "/tmp/xerv" (started_trace 4) completed (ok tt)
unfolding resume_trace restored from_recovery completed_outputs execute_trace turn find_ready_nodes
    run step spawn_all finalize_trace write is_empty HashMap.remove HashMap.get HashMap.insert
completes = executed 8 (ok tt) started completed (ok tt) refl (
    run-Reachable json texts 4 started (execute_trace texts 4 started) (finalize 30 (ok tt) ∷ []) _
      start refl)

abbrev last_report : RecoveryReport
last_report = record {
  recovered = 4 ∷ [];
  skipped = (5, "Retry failed") ∷ [];
  awaiting_resume = 3 ∷ [];
}

abbrev recovery :
    Recovers json texts metadata replayer new_report traces
      (record after_restore { executor = completed })
      last_report
unfolding determine_action restore_suspended_trace after_restore
recovery = next replayer after_restore _ new_report _ _ 3 waiting _ (awaits 1 9) (
    next after_restore after_restore _ _ _ _ 5 half_way _
      (retries (2 ∷ []) idle (err lost) (not_loaded lost))
      (next after_restore _ _ _ _ _ 4 (started_trace 4) _ (resumes 0 completed (ok tt) completes)
        (finished _ _)))

Recovers-new_report_example :
    (last_report.awaiting_resume ≡ suspended_ids traces)
    × ((k : ℕ) → settled last_report k ≡ occurs k (interrupted_ids traces))
Recovers-new_report_example =
    Recovers-new_report json texts metadata replayer (record after_restore { executor = completed })
      last_report traces recovery
