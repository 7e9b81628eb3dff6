-- ===== src/Suspension/Timeout.antt =====
-- xerv-executor/src/suspension/timeout.rs: the processor of timeouts. A round reads the expired
-- suspensions once, and then resumes them one by one; an event is sent if a channel is set, and a
-- closed channel is only logged.
pub mod Round
use xerv.Prelude.{ℕ, String, none, some, List, [], ◌∷◌, ◌++◌, Result, ok, err}
use xerv.HashMap.{HashMap}
use xerv.Suspension.{
  TimeoutAction, SuspendedTraceState, ResumeDecision, approve, reject, escalate, Json,
}
use xerv.Suspension.Store.{MemorySuspensionStore, SuspensionError, resume, get_expired}

pub record TimeoutEvent : Type 0 where
  pub hook_id : String
  pub trace_id : ℕ
  pub action : TimeoutAction
  pub pipeline_id : String

module _ {Value : Type 0} (json : Json Value) where
  pub timeout_decision : TimeoutAction → ResumeDecision Value
  timeout_decision TimeoutAction.approve = approve none
  timeout_decision TimeoutAction.reject = reject (some "Timeout: auto-rejected")
  timeout_decision TimeoutAction.escalate = escalate (some (json.reason "Timeout: auto-escalated"))

module _ {Value : Type 0} where
  -- What is sent after a resume.
  abbrev event_of :
      String
      → TimeoutAction
      → Result (SuspendedTraceState Value) SuspensionError
      → List TimeoutEvent
  event_of hook_id action (ok resumed) =
      record {
        hook_id = hook_id;
        trace_id = resumed.trace_id;
        action = action;
        pipeline_id = resumed.pipeline_id;
      }
      ∷ []
  event_of hook_id action (err e) = []

module _ {Value : Type 0} (json : Json Value) where
  pub process_each :
      MemorySuspensionStore Value
      → HashMap String (SuspendedTraceState Value)
      → MemorySuspensionStore Value × List TimeoutEvent
  unfolding timeout_decision
  process_each s [] = (s, [])
  process_each s ((hook_id, state) ∷ expired) =
      let (s', result) = resume s hook_id (timeout_decision json state.timeout_action) in
      let (last, events) = process_each s' expired in
      (last, event_of hook_id state.timeout_action result ++ events)

  unfoldable pub process_expired :
      MemorySuspensionStore Value → ℕ → MemorySuspensionStore Value × List TimeoutEvent
  unfolding process_each
  process_expired s now = process_each s (get_expired s now)
