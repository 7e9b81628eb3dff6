-- ===== src/Errors/Codes.antt =====
-- The codes of the errors tell the variants apart.
use xerv.Prelude.{ℕ, ◌≡◌, ◌∙◌, ap, sym, refl, String, string_eq, List, [], ◌∷◌, index_of}
use xerv.Errors.{
  XervError, code, arena_create, arena_mmap, arena_write, arena_read, arena_capacity,
  arena_invalid_offset, arena_corruption, selector_resolution, non_deterministic_layout,
  selector_syntax, selector_target_not_found, selector_type_mismatch, schema_version_not_found,
  schema_incompatible, migration_failed, breaking_schema_change, migration_path_too_long,
  missing_binary, runtime_mismatch, container_image_unavailable, unsupported_profile,
  node_execution, node_timeout, node_panic, node_config, node_not_found, no_compatible_version,
  invalid_topology, uncontrolled_cycle, invalid_port, missing_edge, invalid_edge,
  pipeline_not_found, pipeline_exists, concurrency_limit, circuit_breaker_open, drain_timeout,
  wal_write, wal_read, wal_corruption, wal_replay, wasm_load, wasm_execution, wasm_memory_alloc,
  wasm_host_function, yaml_parse, config_value, schema_validation, serialization, io, network,
  authentication_failed, authorization_denied, hook_not_found, suspension_failed, compaction_failed,
  snapshot_creation, snapshot_load,
}

-- The place of a variant in the declaration.
abbrev pub variant : XervError → ℕ
variant (arena_create _ _) = 0
variant (arena_mmap _ _) = 1
variant (arena_write _ _ _) = 2
variant (arena_read _ _) = 3
variant (arena_capacity _ _) = 4
variant (arena_invalid_offset _ _) = 5
variant (arena_corruption _ _) = 6
variant (selector_resolution _ _ _) = 7
variant (non_deterministic_layout _ _) = 8
variant (selector_syntax _ _) = 9
variant (selector_target_not_found _ _) = 10
variant (selector_type_mismatch _ _ _) = 11
variant (schema_version_not_found _ _) = 12
variant (schema_incompatible _ _ _) = 13
variant (migration_failed _ _ _) = 14
variant (breaking_schema_change _ _) = 15
variant (migration_path_too_long _ _ _) = 16
variant (missing_binary _ _) = 17
variant (runtime_mismatch _ _ _) = 18
variant (container_image_unavailable _) = 19
variant (unsupported_profile _) = 20
variant (node_execution _ _ _) = 21
variant (node_timeout _ _ _) = 22
variant (node_panic _ _ _) = 23
variant (node_config _ _) = 24
variant (node_not_found _) = 25
variant (no_compatible_version _ _) = 26
variant (invalid_topology _) = 27
variant (uncontrolled_cycle _) = 28
variant (invalid_port _ _) = 29
variant (missing_edge _ _ _ _) = 30
variant (invalid_edge _ _ _ _) = 31
variant (pipeline_not_found _) = 32
variant (pipeline_exists _) = 33
variant (concurrency_limit _ _ _) = 34
variant (circuit_breaker_open _ _) = 35
variant (drain_timeout _ _) = 36
variant (wal_write _ _) = 37
variant (wal_read _) = 38
variant (wal_corruption _ _) = 39
variant (wal_replay _ _) = 40
variant (wasm_load _ _) = 41
variant (wasm_execution _ _) = 42
variant (wasm_memory_alloc _) = 43
variant (wasm_host_function _ _) = 44
variant (yaml_parse _ _) = 45
variant (config_value _ _) = 46
variant (schema_validation _ _) = 47
variant (serialization _) = 48
variant (io _ _) = 49
variant (network _) = 50
variant (authentication_failed _) = 51
variant (authorization_denied _ _ _) = 52
variant (hook_not_found _) = 53
variant (suspension_failed _ _) = 54
variant (compaction_failed _) = 55
variant (snapshot_creation _) = 56
variant (snapshot_load _) = 57

-- The codes in that order.
abbrev pub codes : List String
codes =
    "E001" ∷ "E002" ∷ "E003" ∷ "E004" ∷ "E005" ∷ "E006" ∷ "E007" ∷ "E101" ∷ "E102" ∷ "E103" ∷ "E104"
    ∷ "E105" ∷ "E110" ∷ "E111" ∷ "E112" ∷ "E113" ∷ "E114" ∷ "E201" ∷ "E202" ∷ "E203" ∷ "E204"
    ∷ "E301" ∷ "E302" ∷ "E303" ∷ "E304" ∷ "E305" ∷ "E401" ∷ "E402" ∷ "E403" ∷ "E404" ∷ "E405"
    ∷ "E406" ∷ "E501" ∷ "E502" ∷ "E503" ∷ "E504" ∷ "E505" ∷ "E601" ∷ "E602" ∷ "E603" ∷ "E604"
    ∷ "E701" ∷ "E702" ∷ "E703" ∷ "E704" ∷ "E801" ∷ "E802" ∷ "E803" ∷ "E804" ∷ "E901" ∷ "E902"
    ∷ "E1001" ∷ "E1002" ∷ "E1101" ∷ "E1102" ∷ "E1201" ∷ "E1301" ∷ "E1302" ∷ []

index_of-code : (e : XervError) → index_of (code e) codes ≡ variant e
unfolding code
index_of-code (arena_create _ _) = refl
index_of-code (arena_mmap _ _) = refl
index_of-code (arena_write _ _ _) = refl
index_of-code (arena_read _ _) = refl
index_of-code (arena_capacity _ _) = refl
index_of-code (arena_invalid_offset _ _) = refl
index_of-code (arena_corruption _ _) = refl
index_of-code (selector_resolution _ _ _) = refl
index_of-code (non_deterministic_layout _ _) = refl
index_of-code (selector_syntax _ _) = refl
index_of-code (selector_target_not_found _ _) = refl
index_of-code (selector_type_mismatch _ _ _) = refl
index_of-code (schema_version_not_found _ _) = refl
index_of-code (schema_incompatible _ _ _) = refl
index_of-code (migration_failed _ _ _) = refl
index_of-code (breaking_schema_change _ _) = refl
index_of-code (migration_path_too_long _ _ _) = refl
index_of-code (missing_binary _ _) = refl
index_of-code (runtime_mismatch _ _ _) = refl
index_of-code (container_image_unavailable _) = refl
index_of-code (unsupported_profile _) = refl
index_of-code (node_execution _ _ _) = refl
index_of-code (node_timeout _ _ _) = refl
index_of-code (node_panic _ _ _) = refl
index_of-code (node_config _ _) = refl
index_of-code (node_not_found _) = refl
index_of-code (no_compatible_version _ _) = refl
index_of-code (invalid_topology _) = refl
index_of-code (uncontrolled_cycle _) = refl
index_of-code (invalid_port _ _) = refl
index_of-code (missing_edge _ _ _ _) = refl
index_of-code (invalid_edge _ _ _ _) = refl
index_of-code (pipeline_not_found _) = refl
index_of-code (pipeline_exists _) = refl
index_of-code (concurrency_limit _ _ _) = refl
index_of-code (circuit_breaker_open _ _) = refl
index_of-code (drain_timeout _ _) = refl
index_of-code (wal_write _ _) = refl
index_of-code (wal_read _) = refl
index_of-code (wal_corruption _ _) = refl
index_of-code (wal_replay _ _) = refl
index_of-code (wasm_load _ _) = refl
index_of-code (wasm_execution _ _) = refl
index_of-code (wasm_memory_alloc _) = refl
index_of-code (wasm_host_function _ _) = refl
index_of-code (yaml_parse _ _) = refl
index_of-code (config_value _ _) = refl
index_of-code (schema_validation _ _) = refl
index_of-code (serialization _) = refl
index_of-code (io _ _) = refl
index_of-code (network _) = refl
index_of-code (authentication_failed _) = refl
index_of-code (authorization_denied _ _ _) = refl
index_of-code (hook_not_found _) = refl
index_of-code (suspension_failed _ _) = refl
index_of-code (compaction_failed _) = refl
index_of-code (snapshot_creation _) = refl
index_of-code (snapshot_load _) = refl

-- Errors with the same code are of the same variant: no two variants share a code.
pub code-injective : (e f : XervError) → code e ≡ code f → variant e ≡ variant f
code-injective e f same =
    sym (index_of-code e) ∙ (ap (λ c. index_of c codes) same ∙ index_of-code f)
