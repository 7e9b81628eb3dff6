-- ===== src/Cluster/Apply.antt =====
-- xerv-cluster/src/state/machine/apply.rs: what a replicated command does to the state.
pub mod Refusals
pub mod Accuracy
pub mod Counting
pub mod Discipline
pub mod Settled
use xerv.Prelude.{
  ℕ, ◌+◌, ◌-◌, ◌%◌, ◌^◌, String, Bool, true, Option, none, some, List, [], ◌∷◌, ◌++◌, nat_eq,
  if◌then◌else◌, is_some,
}
use xerv.HashMap
use xerv.HashMap.{HashMap}
use xerv.Ids.{PipelineId, pipeline_eq}
use xerv.Cluster.Command.{
  ClusterCommand, start_trace, complete_node, complete_trace, fail_trace, suspend_trace,
  resume_trace, deploy_pipeline, start_pipeline, pause_pipeline, resume_pipeline, drain_pipeline,
  stop_pipeline, undeploy_pipeline, register_node, deregister_node,
}
use xerv.Cluster.State.{
  PipelineState, TraceStatus, is_running, is_paused, is_suspended, Message, pipeline_not_running,
  pipeline_not_found, pipeline_not_paused, trace_not_found, trace_not_suspended, node_not_found,
  ClusterResponse, ok_response, err_response, TraceStateInfo, PipelineStateInfo, ClusterNodeInfo,
  ClusterState,
}

-- `active_traces += 1` on a u64.
abbrev pub one_more : PipelineStateInfo → PipelineStateInfo
one_more pipeline = record pipeline { active_traces = (pipeline.active_traces + 1) % 2 ^ 64 }

-- `saturating_sub(1)`.
abbrev pub one_less : PipelineStateInfo → PipelineStateInfo
one_less pipeline = record pipeline { active_traces = pipeline.active_traces - 1 }

abbrev pub new_trace : PipelineId → ℕ → TraceStateInfo
new_trace pipeline_id started_at_ms = record {
  pipeline_id = pipeline_id;
  status = TraceStatus.running;
  completed_nodes = [];
  current_node = none;
  started_at_ms = started_at_ms;
  completed_at_ms = none;
  error = none;
}

module _ {Membership : Type 0} (s : ClusterState Membership) where
  -- A write through the reference of `get_mut`.
  abbrev pub set_trace : ℕ → TraceStateInfo → ClusterState Membership
  set_trace id trace = record s { traces = HashMap.insert s.traces id trace }

  abbrev pub set_pipeline : PipelineId → PipelineStateInfo → ClusterState Membership
  set_pipeline id pipeline = record s { pipelines = HashMap.insert s.pipelines id pipeline }

module _ {Membership : Type 0} where
  unfoldable pub apply_start_trace :
      ClusterState Membership → ℕ → PipelineId → ℕ → ClusterState Membership × ClusterResponse
  apply_start_trace s trace_id pipeline_id started_at_ms =
      elim (HashMap.get s.pipelines pipeline_id) [
        | none ↦ (s, err_response (pipeline_not_found pipeline_id))
        | some pipeline ↦
            if is_running pipeline.state
            then (
              set_trace (set_pipeline s pipeline_id (one_more pipeline)) trace_id
                  (new_trace pipeline_id started_at_ms),
              ok_response,
            )
            else (s, err_response (pipeline_not_running pipeline_id))
      ]

  unfoldable pub apply_complete_node :
      ClusterState Membership → ℕ → ℕ → ClusterState Membership × ClusterResponse
  apply_complete_node s trace_id node_id = elim (HashMap.get s.traces trace_id) [
    | none ↦ (s, err_response (trace_not_found trace_id))
    | some trace ↦ (
      set_trace s trace_id (record trace {
        completed_nodes = trace.completed_nodes ++ node_id ∷ [];
        current_node = none;
      }),
      ok_response,
    )
  ]

  -- The end of `apply_complete_trace` and `apply_fail_trace`: one trace less of the pipeline.
  unfoldable pub release : ClusterState Membership → PipelineId → ClusterState Membership
  release s pipeline_id = elim (HashMap.get s.pipelines pipeline_id) [
    | none ↦ s
    | some pipeline ↦ set_pipeline s pipeline_id (one_less pipeline)
  ]

  unfoldable pub apply_complete_trace :
      ClusterState Membership → ℕ → ℕ → ClusterState Membership × ClusterResponse
  apply_complete_trace s trace_id completed_at_ms = elim (HashMap.get s.traces trace_id) [
    | none ↦ (s, err_response (trace_not_found trace_id))
    | some trace ↦ (
      release
          (set_trace s trace_id (record trace {
            status = TraceStatus.completed;
            completed_at_ms = some completed_at_ms;
          }))
          trace.pipeline_id,
      ok_response,
    )
  ]

  unfoldable pub apply_fail_trace :
      ClusterState Membership → ℕ → String → ℕ → ClusterState Membership × ClusterResponse
  apply_fail_trace s trace_id error failed_at_ms = elim (HashMap.get s.traces trace_id) [
    | none ↦ (s, err_response (trace_not_found trace_id))
    | some trace ↦ (
      release
          (set_trace s trace_id (record trace {
            status = TraceStatus.failed;
            completed_at_ms = some failed_at_ms;
            error = some error;
          }))
          trace.pipeline_id,
      ok_response,
    )
  ]

  unfoldable pub apply_suspend_trace :
      ClusterState Membership → ℕ → ℕ → ClusterState Membership × ClusterResponse
  apply_suspend_trace s trace_id suspended_at_node = elim (HashMap.get s.traces trace_id) [
    | none ↦ (s, err_response (trace_not_found trace_id))
    | some trace ↦ (
      set_trace s trace_id
          (record trace { status = TraceStatus.suspended; current_node = some suspended_at_node }),
      ok_response,
    )
  ]

  unfoldable pub apply_resume_trace :
      ClusterState Membership → ℕ → ClusterState Membership × ClusterResponse
  apply_resume_trace s trace_id = elim (HashMap.get s.traces trace_id) [
    | none ↦ (s, err_response (trace_not_found trace_id))
    | some trace ↦
        if is_suspended trace.status
        then (set_trace s trace_id (record trace { status = TraceStatus.running }), ok_response)
        else (s, err_response (trace_not_suspended trace_id))
  ]

  unfoldable pub apply_deploy_pipeline :
      ClusterState Membership → PipelineId → List ℕ → ℕ → ClusterState Membership × ClusterResponse
  apply_deploy_pipeline s pipeline_id config deployed_at_ms = (
    set_pipeline s pipeline_id (record {
      state = PipelineState.initializing;
      config = config;
      deployed_at_ms = deployed_at_ms;
      active_traces = 0;
    }),
    ok_response,
  )

  unfoldable pub apply_pipeline_state_change :
      ClusterState Membership
      → PipelineId
      → PipelineState
      → ClusterState Membership × ClusterResponse
  apply_pipeline_state_change s pipeline_id new_state = elim (HashMap.get s.pipelines pipeline_id) [
    | none ↦ (s, err_response (pipeline_not_found pipeline_id))
    | some pipeline ↦
        (set_pipeline s pipeline_id (record pipeline { state = new_state }), ok_response)
  ]

  unfoldable pub apply_resume_pipeline :
      ClusterState Membership → PipelineId → ClusterState Membership × ClusterResponse
  apply_resume_pipeline s pipeline_id = elim (HashMap.get s.pipelines pipeline_id) [
    | none ↦ (s, err_response (pipeline_not_found pipeline_id))
    | some pipeline ↦
        if is_paused pipeline.state
        then (
          set_pipeline s pipeline_id (record pipeline { state = PipelineState.running }),
          ok_response,
        )
        else (s, err_response (pipeline_not_paused pipeline_id))
  ]

  unfoldable pub apply_undeploy_pipeline :
      ClusterState Membership → PipelineId → ClusterState Membership × ClusterResponse
  apply_undeploy_pipeline s pipeline_id =
      if is_some (HashMap.get s.pipelines pipeline_id)
      then (record s { pipelines = HashMap.remove s.pipelines pipeline_id }, ok_response)
      else (s, err_response (pipeline_not_found pipeline_id))

  unfoldable pub apply_register_node :
      ClusterState Membership → ℕ → String → ℕ → ClusterState Membership × ClusterResponse
  apply_register_node s cluster_node_id address registered_at_ms = (
    record s {
      nodes = HashMap.insert s.nodes cluster_node_id (record {
        cluster_node_id = cluster_node_id;
        address = address;
        registered_at_ms = registered_at_ms;
      });
    },
    ok_response,
  )

  unfoldable pub apply_deregister_node :
      ClusterState Membership → ℕ → ClusterState Membership × ClusterResponse
  apply_deregister_node s cluster_node_id =
      if is_some (HashMap.get s.nodes cluster_node_id)
      then (record s { nodes = HashMap.remove s.nodes cluster_node_id }, ok_response)
      else (s, err_response (node_not_found cluster_node_id))

  unfoldable pub apply_command :
      ClusterState Membership → ClusterCommand → ClusterState Membership × ClusterResponse
  apply_command s (start_trace trace_id pipeline_id _ started_at_ms) =
      apply_start_trace s trace_id pipeline_id started_at_ms
  apply_command s (complete_node trace_id node_id _ _) = apply_complete_node s trace_id node_id
  apply_command s (complete_trace trace_id completed_at_ms) =
      apply_complete_trace s trace_id completed_at_ms
  apply_command s (fail_trace trace_id _ error failed_at_ms) =
      apply_fail_trace s trace_id error failed_at_ms
  apply_command s (suspend_trace trace_id suspended_at_node _ _) =
      apply_suspend_trace s trace_id suspended_at_node
  apply_command s (resume_trace trace_id _ _) = apply_resume_trace s trace_id
  apply_command s (deploy_pipeline pipeline_id config deployed_at_ms) =
      apply_deploy_pipeline s pipeline_id config deployed_at_ms
  apply_command s (start_pipeline pipeline_id _) =
      apply_pipeline_state_change s pipeline_id PipelineState.running
  apply_command s (pause_pipeline pipeline_id _) =
      apply_pipeline_state_change s pipeline_id PipelineState.paused
  apply_command s (resume_pipeline pipeline_id _) = apply_resume_pipeline s pipeline_id
  apply_command s (drain_pipeline pipeline_id _) =
      apply_pipeline_state_change s pipeline_id PipelineState.draining
  apply_command s (stop_pipeline pipeline_id _) =
      apply_pipeline_state_change s pipeline_id PipelineState.stopped
  apply_command s (undeploy_pipeline pipeline_id _) = apply_undeploy_pipeline s pipeline_id
  apply_command s (register_node cluster_node_id address registered_at_ms) =
      apply_register_node s cluster_node_id address registered_at_ms
  apply_command s (deregister_node cluster_node_id _) = apply_deregister_node s cluster_node_id
