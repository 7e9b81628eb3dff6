-- ===== src/Suspension.antt =====
-- xerv-executor/src/suspension/request.rs, xerv-core/src/suspension.rs: suspended traces and the
-- decisions that resume them. A `DateTime` is its nanoseconds since the epoch, and a path its text;
-- `Value` stands for serde_json's values, of which the code makes two.
pub mod Store
pub mod Timeout
mod Scenarios
use xerv.Prelude.{
  ℕ, ◌+◌, ◌-◌, ◌*◌, ◌/◌, String, Bool, true, false, Option, none, some, leb, if◌then◌else◌,
}

pub data TimeoutAction : Type 0 where
  approve reject escalate : TimeoutAction

abbrev pub default_action : TimeoutAction
default_action = TimeoutAction.reject

pub action_port : TimeoutAction → String
action_port TimeoutAction.approve = "out"
action_port TimeoutAction.reject = "rejected"
action_port TimeoutAction.escalate = "escalated"

-- `Value::Null`, and `json!({"reason": text})`.
pub record Json (Value : Type 0) : Type 0 where
  pub null : Value
  pub reason : String → Value

pub record SuspendedTraceState (Value : Type 0) : Type 0 where
  pub hook_id : String
  pub trace_id : ℕ
  pub suspended_at : ℕ
  pub arena_path : String
  pub created_at : ℕ
  pub expires_at : Option ℕ
  pub timeout_action : TimeoutAction
  pub metadata : Value
  pub pipeline_id : String

abbrev pub second : ℕ
second = 1_000_000_000

abbrev pub passed : ℕ → Option ℕ → Bool
passed now none = false
passed now (some exp) = leb exp now

abbrev until_ : ℕ → Option ℕ → Option ℕ
until_ now none = none
until_ now (some exp) = if leb exp now then none else some ((exp - now) / second)

module _ {Value : Type 0} where
  abbrev pub new_state :
      Json Value → ℕ → String → ℕ → ℕ → String → String → SuspendedTraceState Value
  new_state json now hook_id trace_id suspended_at arena_path pipeline_id = record {
    hook_id = hook_id;
    trace_id = trace_id;
    suspended_at = suspended_at;
    arena_path = arena_path;
    created_at = now;
    expires_at = none;
    timeout_action = default_action;
    metadata = json.null;
    pipeline_id = pipeline_id;
  }

  abbrev pub with_expiry : SuspendedTraceState Value → ℕ → SuspendedTraceState Value
  with_expiry state expires_at = record state { expires_at = some expires_at }

  -- For timeouts that chrono's durations can hold.
  abbrev pub with_timeout :
      SuspendedTraceState Value → ℕ → ℕ → TimeoutAction → SuspendedTraceState Value
  with_timeout state now secs action = record state {
    expires_at = some (now + secs * second);
    timeout_action = action;
  }

  abbrev pub with_value : SuspendedTraceState Value → Value → SuspendedTraceState Value
  with_value state metadata = record state { metadata = metadata }

  abbrev pub is_expired : ℕ → SuspendedTraceState Value → Bool
  is_expired now state = passed now state.expires_at

  -- In whole seconds (`num_seconds`).
  abbrev pub time_until_expiry : ℕ → SuspendedTraceState Value → Option ℕ
  time_until_expiry now state = until_ now state.expires_at

pub data ResumeDecision (Value : Type 0) : Type 0 where
  approve : Option Value → ResumeDecision Value
  reject : Option String → ResumeDecision Value
  escalate : Option Value → ResumeDecision Value

pub output_port : {Value : Type 0} → ResumeDecision Value → String
output_port (approve _) = "out"
output_port (reject _) = "rejected"
output_port (escalate _) = "escalated"
