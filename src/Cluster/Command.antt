-- ===== src/Cluster/Command.antt =====
-- xerv-cluster/src/command.rs: the commands that the cluster replicates.
use xerv.Prelude.{ℕ, String, Option, none, some, List}
use xerv.Ids.{PipelineId}

pub data ClusterCommand : Type 0 where
  start_trace :
      (trace_id : ℕ) (pipeline_id : PipelineId) (trigger_data : List ℕ) (started_at_ms : ℕ)
      → ClusterCommand
  complete_node : (trace_id node_id output_offset duration_us : ℕ) → ClusterCommand
  complete_trace : (trace_id completed_at_ms : ℕ) → ClusterCommand
  fail_trace :
      (trace_id : ℕ) (failed_node : Option ℕ) (error : String) (failed_at_ms : ℕ) → ClusterCommand
  suspend_trace :
      (trace_id suspended_at_node : ℕ) (reason : String) (suspended_at_ms : ℕ) → ClusterCommand
  resume_trace :
      (trace_id : ℕ) (approval_data : Option (List ℕ)) (resumed_at_ms : ℕ) → ClusterCommand
  deploy_pipeline :
      (pipeline_id : PipelineId) (config : List ℕ) (deployed_at_ms : ℕ) → ClusterCommand
  start_pipeline : (pipeline_id : PipelineId) (started_at_ms : ℕ) → ClusterCommand
  pause_pipeline : (pipeline_id : PipelineId) (paused_at_ms : ℕ) → ClusterCommand
  resume_pipeline : (pipeline_id : PipelineId) (resumed_at_ms : ℕ) → ClusterCommand
  drain_pipeline : (pipeline_id : PipelineId) (drain_at_ms : ℕ) → ClusterCommand
  stop_pipeline : (pipeline_id : PipelineId) (stopped_at_ms : ℕ) → ClusterCommand
  undeploy_pipeline : (pipeline_id : PipelineId) (undeployed_at_ms : ℕ) → ClusterCommand
  register_node : (cluster_node_id : ℕ) (address : String) (registered_at_ms : ℕ) → ClusterCommand
  deregister_node : (cluster_node_id deregistered_at_ms : ℕ) → ClusterCommand

pub name : ClusterCommand → String
name (start_trace _ _ _ _) = "StartTrace"
name (complete_node _ _ _ _) = "CompleteNode"
name (complete_trace _ _) = "CompleteTrace"
name (fail_trace _ _ _ _) = "FailTrace"
name (suspend_trace _ _ _ _) = "SuspendTrace"
name (resume_trace _ _ _) = "ResumeTrace"
name (deploy_pipeline _ _ _) = "DeployPipeline"
name (start_pipeline _ _) = "StartPipeline"
name (pause_pipeline _ _) = "PausePipeline"
name (resume_pipeline _ _) = "ResumePipeline"
name (drain_pipeline _ _) = "DrainPipeline"
name (stop_pipeline _ _) = "StopPipeline"
name (undeploy_pipeline _ _) = "UndeployPipeline"
name (register_node _ _ _) = "RegisterNode"
name (deregister_node _ _) = "DeregisterNode"

unfoldable pub trace_id_of : ClusterCommand → Option ℕ
trace_id_of (start_trace trace_id _ _ _) = some trace_id
trace_id_of (complete_node trace_id _ _ _) = some trace_id
trace_id_of (complete_trace trace_id _) = some trace_id
trace_id_of (fail_trace trace_id _ _ _) = some trace_id
trace_id_of (suspend_trace trace_id _ _ _) = some trace_id
trace_id_of (resume_trace trace_id _ _) = some trace_id
trace_id_of _ = none

unfoldable pub pipeline_id_of : ClusterCommand → Option PipelineId
pipeline_id_of (start_trace _ pipeline_id _ _) = some pipeline_id
pipeline_id_of (deploy_pipeline pipeline_id _ _) = some pipeline_id
pipeline_id_of (start_pipeline pipeline_id _) = some pipeline_id
pipeline_id_of (pause_pipeline pipeline_id _) = some pipeline_id
pipeline_id_of (resume_pipeline pipeline_id _) = some pipeline_id
pipeline_id_of (drain_pipeline pipeline_id _) = some pipeline_id
pipeline_id_of (stop_pipeline pipeline_id _) = some pipeline_id
pipeline_id_of (undeploy_pipeline pipeline_id _) = some pipeline_id
pipeline_id_of _ = none
