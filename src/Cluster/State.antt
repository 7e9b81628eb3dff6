-- ===== src/Cluster/State.antt =====
-- xerv-cluster/src/state/machine/types.rs, state.rs: the replicated state and the responses. What
-- openraft provides, log identifiers and memberships, stands for itself: a log identifier is its
-- term, leader and index.
use xerv.Prelude.{ℕ, String, Bool, true, false, Option, none, some, List, []}
use xerv.HashMap.{HashMap}
use xerv.Ids.{PipelineId}

-- xerv-core/src/traits/pipeline.rs
pub data PipelineState : Type 0 where
  initializing running paused draining stopped error : PipelineState

pub data TraceStatus : Type 0 where
  running suspended completed failed : TraceStatus

-- The derived `PartialEq`, where the code compares.
abbrev pub is_running : PipelineState → Bool
is_running PipelineState.running = true
is_running _ = false

abbrev pub is_paused : PipelineState → Bool
is_paused PipelineState.paused = true
is_paused _ = false

abbrev pub is_suspended : TraceStatus → Bool
is_suspended TraceStatus.suspended = true
is_suspended _ = false

-- The messages of error responses, by their `format!` strings.
pub data Message : Type 0 where
  pipeline_not_running pipeline_not_found pipeline_not_paused : PipelineId → Message
  trace_not_found trace_not_suspended node_not_found : ℕ → Message

pub record ClusterResponse : Type 0 where
  pub success : Bool
  pub error : Option Message
  pub response_data : Option (List ℕ)

abbrev pub ok_response : ClusterResponse
ok_response = record { success = true; error = none; response_data = none }

abbrev pub err_response : Message → ClusterResponse
err_response m = record { success = false; error = some m; response_data = none }

pub record TraceStateInfo : Type 0 where
  pub pipeline_id : PipelineId
  pub status : TraceStatus
  pub completed_nodes : List ℕ
  pub current_node : Option ℕ
  pub started_at_ms : ℕ
  pub completed_at_ms : Option ℕ
  pub error : Option String

pub record PipelineStateInfo : Type 0 where
  pub state : PipelineState
  pub config : List ℕ
  pub deployed_at_ms : ℕ
  pub active_traces : ℕ  -- u64

pub record ClusterNodeInfo : Type 0 where
  pub cluster_node_id : ℕ
  pub address : String
  pub registered_at_ms : ℕ

pub record ClusterLogId : Type 0 where
  pub term : ℕ
  pub leader : ℕ
  pub index : ℕ

-- openraft's `StoredMembership`: a membership, of a type that openraft provides, and the log entry
-- that set it.
pub record ClusterStoredMembership (Membership : Type 0) : Type 0 where
  pub log_id : Option ClusterLogId
  pub membership : Membership

pub record ClusterState (Membership : Type 0) : Type 0 where
  pub traces : HashMap ℕ TraceStateInfo
  pub pipelines : HashMap PipelineId PipelineStateInfo
  pub nodes : HashMap ℕ ClusterNodeInfo
  pub last_applied_log : Option ClusterLogId
  pub last_membership : ClusterStoredMembership Membership

-- `ClusterState::default()`, from openraft's default membership.
abbrev pub empty_state : {Membership : Type 0} → Membership → ClusterState Membership
empty_state membership = record {
  traces = [];
  pipelines = [];
  nodes = [];
  last_applied_log = none;
  last_membership = record { log_id = none; membership = membership };
}
