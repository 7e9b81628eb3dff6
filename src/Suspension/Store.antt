-- ===== src/Suspension/Store.antt =====
-- xerv-executor/src/suspension/store.rs: the in-memory store of suspended traces. `suspend` takes its
-- lock twice, so that its check and its insertion are two steps; the other operations are one step.
pub mod Laws
pub mod Expiry
use xerv.Prelude.{
  ℕ, String, Bool, not, Option, none, some, List, [], ◌∷◌, map, Result, ok, err, ltb, if◌then◌else◌,
  ◌==◌, string_eq, filter_by, length,
}
use xerv.HashMap
use xerv.HashMap.{HashMap, keys, len, contains_key}
use xerv.Suspension.{SuspendedTraceState, ResumeDecision, is_expired}

pub data SuspensionError : Type 0 where
  suspension_failed : (trace_id : ℕ) (hook_id : String) → SuspensionError
  hook_not_found : String → SuspensionError

pub record MemorySuspensionStore (Value : Type 0) : Type 0 where
  pub suspensions : HashMap String (SuspendedTraceState Value)
  pub pending_resumes : HashMap String (ResumeDecision Value)

module _ {Value : Type 0} where
  abbrev pub new_store : MemorySuspensionStore Value
  new_store = record { suspensions = []; pending_resumes = [] }

  abbrev pub get_pending_resume :
      MemorySuspensionStore Value → String → Option (ResumeDecision Value)
  get_pending_resume s hook_id = HashMap.get s.pending_resumes hook_id

  abbrev pub has_suspensions : MemorySuspensionStore Value → Bool
  has_suspensions s = ltb 0 (len s.suspensions)

  unfoldable pub consume_pending_resume :
      MemorySuspensionStore Value
      → String
      → MemorySuspensionStore Value × Option (ResumeDecision Value)
  consume_pending_resume s hook_id = (
    record s { pending_resumes = HashMap.remove s.pending_resumes hook_id },
    HashMap.get s.pending_resumes hook_id,
  )

  -- The entries that have expired, as the filters of `cleanup_expired` and `get_expired` find them.
  abbrev pub expired_entries :
      ℕ → HashMap String (SuspendedTraceState Value) → HashMap String (SuspendedTraceState Value)
  expired_entries now entries = filter_by (λ e. is_expired now e.1) entries

  pub remove_each :
      HashMap String (SuspendedTraceState Value)
      → List String
      → HashMap String (SuspendedTraceState Value)
  remove_each suspensions [] = suspensions
  remove_each suspensions (id ∷ ids) = remove_each (HashMap.remove suspensions id) ids

  unfoldable pub cleanup_expired : MemorySuspensionStore Value → ℕ → MemorySuspensionStore Value × ℕ
  unfolding remove_each
  cleanup_expired s now =
      let expired_ids = keys (expired_entries now s.suspensions) in
      (record s { suspensions = remove_each s.suspensions expired_ids }, length expired_ids)

  -- The first step of `suspend`: whether its hook is taken.
  abbrev pub hook_taken : MemorySuspensionStore Value → SuspendedTraceState Value → Bool
  hook_taken s state = contains_key s.suspensions state.hook_id

  -- The second step of `suspend`, after the answer to the first.
  unfoldable pub suspend_if_free :
      Bool
      → MemorySuspensionStore Value
      → SuspendedTraceState Value
      → MemorySuspensionStore Value × Result (Unit {0}) SuspensionError
  suspend_if_free taken s state =
      if taken
      then (s, err (suspension_failed state.trace_id state.hook_id))
      else (record s { suspensions = HashMap.insert s.suspensions state.hook_id state }, ok tt)

  unfoldable pub suspend :
      MemorySuspensionStore Value
      → SuspendedTraceState Value
      → MemorySuspensionStore Value × Result (Unit {0}) SuspensionError
  unfolding suspend_if_free
  suspend s state = suspend_if_free (hook_taken s state) s state

  unfoldable pub resume :
      MemorySuspensionStore Value
      → String
      → ResumeDecision Value
      → MemorySuspensionStore Value × Result (SuspendedTraceState Value) SuspensionError
  resume s hook_id decision = elim (HashMap.get s.suspensions hook_id) [
    | none ↦ (s, err (hook_not_found hook_id))
    | some state ↦ (
      record {
        suspensions = HashMap.remove s.suspensions hook_id;
        pending_resumes = HashMap.insert s.pending_resumes hook_id decision;
      },
      ok state,
    )
  ]

  abbrev found :
      String
      → Option (SuspendedTraceState Value)
      → Result (SuspendedTraceState Value) SuspensionError
  found hook_id none = err (hook_not_found hook_id)
  found hook_id (some state) = ok state

  abbrev pub get_state :
      MemorySuspensionStore Value → String → Result (SuspendedTraceState Value) SuspensionError
  get_state s hook_id = found hook_id (HashMap.get s.suspensions hook_id)

  abbrev pub is_suspended : MemorySuspensionStore Value → String → Bool
  is_suspended s hook_id = contains_key s.suspensions hook_id

  abbrev pub get_expired :
      MemorySuspensionStore Value → ℕ → HashMap String (SuspendedTraceState Value)
  get_expired s now = expired_entries now s.suspensions

  unfoldable pub remove : MemorySuspensionStore Value → String → MemorySuspensionStore Value
  remove s hook_id = record {
    suspensions = HashMap.remove s.suspensions hook_id;
    pending_resumes = HashMap.remove s.pending_resumes hook_id;
  }

  abbrev pub list_all : MemorySuspensionStore Value → List (SuspendedTraceState Value)
  list_all s = map (λ e. e.1) s.suspensions

  abbrev pub list_by_pipeline :
      MemorySuspensionStore Value → String → List (SuspendedTraceState Value)
  list_by_pipeline s pipeline_id = filter_by (λ t. t.pipeline_id == pipeline_id) (list_all s)

  abbrev pub count : MemorySuspensionStore Value → ℕ
  count s = len s.suspensions
