-- ===== src/Recovery.antt =====
-- xerv-executor/src/recovery: what is done at a start with each trace that the log holds as incomplete
-- (mod.rs), and the report of it (report.rs). The answers of the arena's file, of the clock and of the
-- log are chosen by the environment, as is the way a resumed trace executes.
pub mod Report
pub mod Restore
mod Scenarios
use xerv.Prelude.{
  ◌≡◌, ℕ, String, Bool, Option, none, some, List, [], ◌∷◌, ◌++◌, ok, err, Result, ◌+◌, ◌&&◌, length,
  ◌==◌, nat_eq,
}
use xerv.HashMap
use xerv.HashMap.{HashMap}
use xerv.Errors.{XervError, XervResult}
use xerv.Suspension.{SuspendedTraceState, Json, new_state, with_value}
use xerv.Suspension.Store
use xerv.Suspension.Store.{MemorySuspensionStore, SuspensionError}
use xerv.Wal.Record
use xerv.Wal.Record.{Text}
use xerv.Wal.Reader.{NodeOutputLocation, TraceRecoveryState, Traces}
use xerv.Executor.{Executor, Texts, write}
use xerv.Executor.Suspend.{resume_trace}
use xerv.Executor.Run.{Phase, stopped, Reachable}

pub data RecoveryAction : Type 0 where
  resume_from : (node_id : ℕ) → RecoveryAction
  retry_nodes : (nodes : List ℕ) → RecoveryAction
  await_resume : (suspended_at : ℕ) → RecoveryAction
  skip : (reason : String) → RecoveryAction

pub record RecoveryReport : Type 0 where
  pub recovered : List ℕ
  pub skipped : List (ℕ × String)
  pub awaiting_resume : List ℕ

abbrev pub new_report : RecoveryReport
new_report = record { recovered = []; skipped = []; awaiting_resume = [] }

abbrev pub add_recovered : RecoveryReport → ℕ → RecoveryReport
add_recovered r trace_id = record r { recovered = r.recovered ++ trace_id ∷ [] }

abbrev pub add_skipped : RecoveryReport → ℕ → String → RecoveryReport
add_skipped r trace_id reason = record r { skipped = r.skipped ++ (trace_id, reason) ∷ [] }

abbrev pub add_awaiting_resume : RecoveryReport → ℕ → RecoveryReport
add_awaiting_resume r trace_id = record r { awaiting_resume = r.awaiting_resume ++ trace_id ∷ [] }

abbrev pub total_processed : RecoveryReport → ℕ
total_processed r = length r.recovered + length r.skipped + length r.awaiting_resume

abbrev pub all_recovered : RecoveryReport → Bool
all_recovered r = (length r.skipped == 0) && (length r.awaiting_resume == 0)

after_last : Option ℕ → RecoveryAction
after_last (some last) = resume_from last
after_last none = resume_from 0

unless_started : List ℕ → Option ℕ → RecoveryAction
unfolding after_last
unless_started [] last = after_last last
unless_started (n ∷ nodes) last = retry_nodes (n ∷ nodes)

unless_suspended : Option ℕ → TraceRecoveryState → RecoveryAction
unfolding unless_started
unless_suspended (some suspended_at) state = await_resume suspended_at
unless_suspended none state = unless_started state.started_nodes state.last_completed_node

unfoldable pub determine_action : TraceRecoveryState → RecoveryAction
unfolding unless_suspended
determine_action state = unless_suspended state.suspended_at state

pub remove_nodes : List ℕ → HashMap ℕ NodeOutputLocation → HashMap ℕ NodeOutputLocation
remove_nodes [] m = m
remove_nodes (n ∷ nodes) m = remove_nodes nodes (HashMap.remove m n)

-- `modified_state` of `retry_nodes`
abbrev pub modified_state : List ℕ → TraceRecoveryState → TraceRecoveryState
modified_state nodes state = record state {
  completed_nodes = remove_nodes nodes state.completed_nodes;
}

-- The metadata of a suspension, as serde_json reads it from the log and as the code completes it, and
-- the texts that `format!` makes.
pub record Metadata (Value : Type 0) : Type 0 where
  pub parse : Text → Result Value String
  pub hook_of : Value → Option String
  pub marked : (now : ℕ) → Value → Value
  pub unparsed : (now : ℕ) → String → Value
  pub missing : (now : ℕ) → Value
  pub recovered_hook : (trace_id : ℕ) → String
  pub arena_path : (arena_dir : String) → (trace_id : ℕ) → String
  pub failed : (what : String) → XervError → String

-- The log of the replayer is the one of its executor; its suspension store is one that the traces it
-- resumes do not use.
pub record CrashReplayer (Value : Type 0) : Type 0 where
  pub executor : Executor Value
  pub suspension_store : Option (MemorySuspensionStore Value)
  pub pipeline_id : String
  pub arena_dir : String

module _ {Value : Type 0} where
  abbrev pub new_replayer : Executor Value → CrashReplayer Value
  new_replayer executor = record {
    executor = executor;
    suspension_store = none;
    pipeline_id = "unknown";
    arena_dir = "/tmp/xerv";
  }

  abbrev pub set_arena_dir : CrashReplayer Value → String → CrashReplayer Value
  set_arena_dir c arena_dir = record c { arena_dir = arena_dir }

  abbrev pub with_suspension_store :
      Executor Value → MemorySuspensionStore Value → String → CrashReplayer Value
  with_suspension_store executor store pipeline_id = record {
    executor = executor;
    suspension_store = some store;
    pipeline_id = pipeline_id;
    arena_dir = "/tmp/xerv";
  }

  parsed_hook : Metadata Value → ℕ → Option String → String
  parsed_hook texts trace_id (some hook_id) = hook_id
  parsed_hook texts trace_id none = texts.recovered_hook trace_id

  parsed_metadata : Metadata Value → ℕ → ℕ → Result Value String → String × Value
  unfolding parsed_hook
  parsed_metadata texts now trace_id (ok parsed) =
      (parsed_hook texts trace_id (texts.hook_of parsed), texts.marked now parsed)
  parsed_metadata texts now trace_id (err e) = (texts.recovered_hook trace_id, texts.unparsed now e)

  -- The hook and the metadata of the restored suspension.
  unfoldable pub logged_metadata : Metadata Value → ℕ → ℕ → Option Text → String × Value
  unfolding parsed_metadata
  logged_metadata texts now trace_id (some metadata_json) =
      parsed_metadata texts now trace_id (texts.parse metadata_json)
  logged_metadata texts now trace_id none = (texts.recovered_hook trace_id, texts.missing now)

  -- The state that `restore_suspended_trace` hands to the store.
  unfoldable pub restored_state :
      Json Value
      → Metadata Value
      → CrashReplayer Value
      → ℕ
      → ℕ
      → ℕ
      → Option Text
      → SuspendedTraceState Value
  unfolding logged_metadata
  restored_state json texts c now trace_id suspended_at metadata =
      let found = logged_metadata texts now trace_id metadata in
      with_value
        (new_state json now found.0 trace_id suspended_at (texts.arena_path c.arena_dir trace_id)
          c.pipeline_id)
        found.1

  -- What an await does: without a store nothing, and the store's error is only logged.
  unfoldable pub restore_suspended_trace :
      Json Value
      → Metadata Value
      → CrashReplayer Value
      → ℕ
      → ℕ
      → ℕ
      → TraceRecoveryState
      → CrashReplayer Value
  restore_suspended_trace json texts c now trace_id suspended_at state = elim c.suspension_store [
    | none ↦ c
    | some store ↦ record c {
      suspension_store = some (
          (Store.suspend store
            (restored_state json texts c now trace_id suspended_at state.suspension_metadata)).0);
    }
  ]

  abbrev with_executor : CrashReplayer Value → Executor Value → CrashReplayer Value
  with_executor c ex = record c { executor = ex }

  -- Loading the arena and `resume_trace`, which executes the trace before it returns.
  pub data Resumes (json : Json Value) (texts : Texts Value) (ex : Executor Value) (arena : String)
      (state : TraceRecoveryState) : Executor Value → XervResult (Unit {0}) → Type 0 where
    not_loaded : (e : XervError) → Resumes json texts ex arena state ex (err e)
    refused :
        (now : ℕ) (io : XervResult (Unit {0})) (ex' : Executor Value) (e : XervError)
        → resume_trace ex now arena state io ≡ (ex', err e)
        → Resumes json texts ex arena state ex' (err e)
    executed :
        (now : ℕ) (io : XervResult (Unit {0})) (ex' ex'' : Executor Value)
        (result : XervResult (Unit {0}))
        → resume_trace ex now arena state io ≡ (ex', ok tt)
        → Reachable json texts state.trace_id ex' (stopped ex'' result)
        → Resumes json texts ex arena state ex'' result

  abbrev pub add_result :
      Metadata Value → String → ℕ → XervResult (Unit {0}) → RecoveryReport → RecoveryReport
  add_result m what trace_id (ok _) r = add_recovered r trace_id
  add_result m what trace_id (err e) r = add_skipped r trace_id (m.failed what e)

  -- The body of the loop of `recover_all`, for each action.
  pub data Handles (json : Json Value) (texts : Texts Value) (m : Metadata Value)
      (c : CrashReplayer Value) (trace_id : ℕ) (state : TraceRecoveryState) (r : RecoveryReport)
      : RecoveryAction → CrashReplayer Value → RecoveryReport → Type 0 where
    resumes :
        (node_id : ℕ) (ex : Executor Value) (result : XervResult (Unit {0}))
        → Resumes json texts c.executor (m.arena_path c.arena_dir trace_id) state ex result
        → Handles json texts m c trace_id state r
            (resume_from node_id)
            (with_executor c ex)
            (add_result m "Resume failed" trace_id result r)
    retries :
        (nodes : List ℕ) (ex : Executor Value) (result : XervResult (Unit {0}))
        → Resumes json texts c.executor
            (m.arena_path c.arena_dir trace_id)
            (modified_state nodes state)
            ex
            result
        → Handles json texts m c trace_id state r
            (retry_nodes nodes)
            (with_executor c ex)
            (add_result m "Retry failed" trace_id result r)
    awaits :
        (suspended_at now : ℕ)
        → Handles json texts m c trace_id state r
            (await_resume suspended_at)
            (restore_suspended_trace json m c now trace_id suspended_at state)
            (add_awaiting_resume r trace_id)
    skips :
        (reason : String) (now : ℕ) (io : XervResult (Unit {0}))
        → Handles json texts m c trace_id state r
            (skip reason)
            (with_executor c
              (write io (Record.trace_failed now trace_id (texts.utf8 reason)) c.executor))
            (add_skipped r trace_id reason)

  -- The loop of `recover_all`, over the traces that the reader has found.
  pub data Recovers (json : Json Value) (texts : Texts Value) (m : Metadata Value)
      : CrashReplayer Value
        → RecoveryReport
        → Traces
        → CrashReplayer Value
        → RecoveryReport
        → Type 0 where
    finished : (c : CrashReplayer Value) (r : RecoveryReport) → Recovers json texts m c r [] c r
    next :
        (c c' c'' : CrashReplayer Value) (r r' r'' : RecoveryReport) (trace_id : ℕ)
        (state : TraceRecoveryState) (traces : Traces)
        → Handles json texts m c trace_id state r (determine_action state) c' r'
        → Recovers json texts m c' r' traces c'' r''
        → Recovers json texts m c r ((trace_id, state) ∷ traces) c'' r''
