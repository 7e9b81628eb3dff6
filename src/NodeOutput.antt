-- ===== src/NodeOutput.antt =====
-- xerv-core/src/traits/node.rs, xerv-core/src/types/pointer.rs, xerv-core/src/suspension.rs: what a
-- node returns. `Value` stands for serde_json's values.
use xerv.Prelude.{ℕ, String, Bool, true, false, Option, none, some, ◌==◌, string_eq}
use xerv.Suspension.{TimeoutAction, default_action, Json}

-- RelPtr<()>
pub record RelPtr : Type 0 where
  pub offset : ℕ
  pub size : ℕ

abbrev pub null : RelPtr
null = record { offset = 0; size = 0 }

pub record SuspensionRequest (Value : Type 0) : Type 0 where
  pub hook_id : String
  pub timeout_secs : Option ℕ
  pub timeout_action : TimeoutAction
  pub metadata : Value

abbrev pub new_request : {Value : Type 0} → Json Value → String → SuspensionRequest Value
new_request json hook_id = record {
  hook_id = hook_id;
  timeout_secs = none;
  timeout_action = default_action;
  metadata = json.null;
}

pub data NodeOutput (Value : Type 0) : Type 0 where
  complete : (port : String) (data_ : RelPtr) (schema_hash : ℕ) → NodeOutput Value
  error : (message : String) (data_ : Option RelPtr) → NodeOutput Value
  suspend : (request : SuspensionRequest Value) (pending_data : RelPtr) → NodeOutput Value

abbrev or_null : Option RelPtr → RelPtr
or_null none = null
or_null (some ptr) = ptr

-- `self.port() == Some(expected_port)`
abbrev pub same_port : Option String → String → Bool
same_port none expected_port = false
same_port (some p) expected_port = p == expected_port

module _ {Value : Type 0} where
  abbrev pub is_suspended : NodeOutput Value → Bool
  is_suspended (suspend _ _) = true
  is_suspended _ = false

  abbrev pub port : NodeOutput Value → Option String
  port (complete p _ _) = some p
  port (error _ _) = some "error"
  port (suspend _ _) = none

  abbrev pub matches_port : NodeOutput Value → String → Bool
  matches_port output expected_port = same_port (port output) expected_port

  -- `data`
  abbrev pub data_of : NodeOutput Value → RelPtr
  data_of (complete _ d _) = d
  data_of (error _ d) = or_null d
  data_of (suspend _ d) = d
