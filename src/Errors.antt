-- ===== src/Errors.antt =====
-- xerv-core/src/error.rs: the errors, their codes and their kinds. A path is its text, and an `f64` its
-- bits.
pub mod Codes
use xerv.Prelude.{ℕ, List, String, Bool, true, false, Result}

pub data XervError : Type 0 where
  arena_create : (path : String) (cause : String) → XervError
  arena_mmap : (path : String) (cause : String) → XervError
  arena_write : (trace_id : ℕ) (offset : ℕ) (cause : String) → XervError
  arena_read : (offset : ℕ) (cause : String) → XervError
  arena_capacity : (requested : ℕ) (available : ℕ) → XervError
  arena_invalid_offset : (offset : ℕ) (cause : String) → XervError
  arena_corruption : (offset : ℕ) (cause : String) → XervError
  selector_resolution : (selector : String) (node_id : ℕ) (cause : String) → XervError
  non_deterministic_layout : (type_name : String) (cause : String) → XervError
  selector_syntax : (selector : String) (cause : String) → XervError
  selector_target_not_found : (field_ : String) (node_id : ℕ) → XervError
  selector_type_mismatch : (selector : String) (expected : String) (actual : String) → XervError
  schema_version_not_found : (schema : String) (version : String) → XervError
  schema_incompatible : (from_ : String) (to_ : String) (cause : String) → XervError
  migration_failed : (from_ : String) (to_ : String) (cause : String) → XervError
  breaking_schema_change : (schema : String) (change : String) → XervError
  migration_path_too_long : (from_ : String) (to_ : String) (max_hops : ℕ) → XervError
  missing_binary : (binary : String) (cause : String) → XervError
  runtime_mismatch : (runtime : String) (required : String) (found : String) → XervError
  container_image_unavailable : (image : String) → XervError
  unsupported_profile : (profile : String) → XervError
  node_execution : (node_id : ℕ) (trace_id : ℕ) (cause : String) → XervError
  node_timeout : (node_id : ℕ) (trace_id : ℕ) (timeout_ms : ℕ) → XervError
  node_panic : (node_id : ℕ) (trace_id : ℕ) (message : String) → XervError
  node_config : (node_id : ℕ) (cause : String) → XervError
  node_not_found : (node_name : String) → XervError
  no_compatible_version : (trace_id : ℕ) (cause : String) → XervError
  invalid_topology : (cause : String) → XervError
  uncontrolled_cycle : (nodes : List ℕ) → XervError
  invalid_port : (port : String) (node_id : ℕ) → XervError
  missing_edge : (from_node : ℕ) (from_port : String) (to_node : ℕ) (to_port : String) → XervError
  invalid_edge : (from_node : ℕ) (from_port : String) (to_node : ℕ) (to_port : String) → XervError
  pipeline_not_found : (pipeline_id : String) → XervError
  pipeline_exists : (pipeline_id : String) → XervError
  concurrency_limit : (pipeline_id : String) (current : ℕ) (max : ℕ) → XervError
  circuit_breaker_open : (pipeline_id : String) (error_rate : ℕ) → XervError
  drain_timeout : (pipeline_id : String) (pending_traces : ℕ) → XervError
  wal_write : (trace_id : ℕ) (cause : String) → XervError
  wal_read : (cause : String) → XervError
  wal_corruption : (position : ℕ) (cause : String) → XervError
  wal_replay : (trace_id : ℕ) (cause : String) → XervError
  wasm_load : (module_ : String) (cause : String) → XervError
  wasm_execution : (node_id : ℕ) (cause : String) → XervError
  wasm_memory_alloc : (requested : ℕ) → XervError
  wasm_host_function : (function : String) (cause : String) → XervError
  yaml_parse : (path : String) (cause : String) → XervError
  config_value : (field_ : String) (cause : String) → XervError
  schema_validation : (schema : String) (cause : String) → XervError
  serialization : (message : String) → XervError
  io : (path : String) (cause : String) → XervError
  network : (cause : String) → XervError
  authentication_failed : (cause : String) → XervError
  authorization_denied : (identity : String) (required_scope : String) (cause : String) → XervError
  hook_not_found : (hook_id : String) → XervError
  suspension_failed : (trace_id : ℕ) (cause : String) → XervError
  compaction_failed : (cause : String) → XervError
  snapshot_creation : (cause : String) → XervError
  snapshot_load : (cause : String) → XervError

abbrev pub XervResult {ℓ} : Type ℓ → Type ℓ
XervResult A = Result A XervError

unfoldable pub code : XervError → String
code (arena_create _ _) = "E001"
code (arena_mmap _ _) = "E002"
code (arena_write _ _ _) = "E003"
code (arena_read _ _) = "E004"
code (arena_capacity _ _) = "E005"
code (arena_invalid_offset _ _) = "E006"
code (arena_corruption _ _) = "E007"
code (selector_resolution _ _ _) = "E101"
code (non_deterministic_layout _ _) = "E102"
code (selector_syntax _ _) = "E103"
code (selector_target_not_found _ _) = "E104"
code (selector_type_mismatch _ _ _) = "E105"
code (schema_version_not_found _ _) = "E110"
code (schema_incompatible _ _ _) = "E111"
code (migration_failed _ _ _) = "E112"
code (breaking_schema_change _ _) = "E113"
code (migration_path_too_long _ _ _) = "E114"
code (missing_binary _ _) = "E201"
code (runtime_mismatch _ _ _) = "E202"
code (container_image_unavailable _) = "E203"
code (unsupported_profile _) = "E204"
code (node_execution _ _ _) = "E301"
code (node_timeout _ _ _) = "E302"
code (node_panic _ _ _) = "E303"
code (node_config _ _) = "E304"
code (node_not_found _) = "E305"
code (no_compatible_version _ _) = "E401"
code (invalid_topology _) = "E402"
code (uncontrolled_cycle _) = "E403"
code (invalid_port _ _) = "E404"
code (missing_edge _ _ _ _) = "E405"
code (invalid_edge _ _ _ _) = "E406"
code (pipeline_not_found _) = "E501"
code (pipeline_exists _) = "E502"
code (concurrency_limit _ _ _) = "E503"
code (circuit_breaker_open _ _) = "E504"
code (drain_timeout _ _) = "E505"
code (wal_write _ _) = "E601"
code (wal_read _) = "E602"
code (wal_corruption _ _) = "E603"
code (wal_replay _ _) = "E604"
code (wasm_load _ _) = "E701"
code (wasm_execution _ _) = "E702"
code (wasm_memory_alloc _) = "E703"
code (wasm_host_function _ _) = "E704"
code (yaml_parse _ _) = "E801"
code (config_value _ _) = "E802"
code (schema_validation _ _) = "E803"
code (serialization _) = "E804"
code (io _ _) = "E901"
code (network _) = "E902"
code (authentication_failed _) = "E1001"
code (authorization_denied _ _ _) = "E1002"
code (hook_not_found _) = "E1101"
code (suspension_failed _ _) = "E1102"
code (compaction_failed _) = "E1201"
code (snapshot_creation _) = "E1301"
code (snapshot_load _) = "E1302"

pub is_retriable : XervError → Bool
is_retriable (arena_write _ _ _) = true
is_retriable (node_timeout _ _ _) = true
is_retriable (wal_write _ _) = true
is_retriable (network _) = true
is_retriable _ = false

pub is_config_error : XervError → Bool
is_config_error (selector_resolution _ _ _) = true
is_config_error (non_deterministic_layout _ _) = true
is_config_error (selector_syntax _ _) = true
is_config_error (selector_target_not_found _ _) = true
is_config_error (selector_type_mismatch _ _ _) = true
is_config_error (schema_version_not_found _ _) = true
is_config_error (breaking_schema_change _ _) = true
is_config_error (invalid_topology _) = true
is_config_error (uncontrolled_cycle _) = true
is_config_error (invalid_port _ _) = true
is_config_error (missing_edge _ _ _ _) = true
is_config_error (yaml_parse _ _) = true
is_config_error (config_value _ _) = true
is_config_error (schema_validation _ _) = true
is_config_error _ = false

pub is_schema_error : XervError → Bool
is_schema_error (schema_version_not_found _ _) = true
is_schema_error (schema_incompatible _ _ _) = true
is_schema_error (migration_failed _ _ _) = true
is_schema_error (breaking_schema_change _ _) = true
is_schema_error (migration_path_too_long _ _ _) = true
is_schema_error (schema_validation _ _) = true
is_schema_error _ = false
