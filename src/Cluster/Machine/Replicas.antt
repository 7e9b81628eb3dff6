-- ===== src/Cluster/Machine/Replicas.antt =====
-- A command on two states that hold the same gives the same response and again such states, so that
-- replicas agree whatever the order of their maps.
use xerv.Prelude.{
  ℕ, refl, sym, ◌∙◌, none, some, List, [], ◌∷◌, arith, is_some, nat_eq, Option-cases, Bool-cases,
  inl, inr, String, ◌++◌,
}
use xerv.HashMap
use xerv.HashMap.{HashMap}
use xerv.HashMap.Laws.{get-insert, get-remove}
use xerv.Ids.{PipelineId, pipeline_eq}
use xerv.Cluster.Command.{
  ClusterCommand, start_trace, complete_node, complete_trace, fail_trace, suspend_trace,
  resume_trace, deploy_pipeline, start_pipeline, pause_pipeline, resume_pipeline, drain_pipeline,
  stop_pipeline, undeploy_pipeline, register_node, deregister_node,
}
use xerv.Cluster.State.{
  PipelineState, TraceStatus, is_running, is_paused, is_suspended, ClusterNodeInfo, ClusterState,
}
use xerv.Cluster.Apply.{
  apply_command, apply_start_trace, apply_complete_node, apply_complete_trace, apply_fail_trace,
  apply_suspend_trace, apply_resume_trace, apply_deploy_pipeline, apply_pipeline_state_change,
  apply_resume_pipeline, apply_undeploy_pipeline, apply_register_node, apply_deregister_node,
  new_trace,
}
use xerv.Cluster.Machine.Same.{IsSame, Agree, set_trace-IsSame, set_pipeline-IsSame, started, ended}

module _ {M : Type 0} (s t : ClusterState M) (h : IsSame s t) where
  apply_deploy_pipeline-Agree :
      (p : PipelineId) (config : List ℕ) (at : ℕ)
      → Agree (apply_deploy_pipeline s p config at) (apply_deploy_pipeline t p config at)
  unfolding apply_deploy_pipeline
  apply_deploy_pipeline-Agree p config at = (
    set_pipeline-IsSame s t h p (record {
      state = PipelineState.initializing;
      config = config;
      deployed_at_ms = at;
      active_traces = 0;
    }),
    refl,
  )

  apply_undeploy_pipeline-Agree :
      (p : PipelineId) → Agree (apply_undeploy_pipeline s p) (apply_undeploy_pipeline t p)
  unfolding apply_undeploy_pipeline
  apply_undeploy_pipeline-Agree p = elim (Bool-cases (is_some (HashMap.get s.pipelines p))) [
    | inl known ↦
        rw (apply_undeploy_pipeline, known, rw (h.pipelines p) at known)
          (
            record {
              traces = h.traces;
              pipelines = λ q.
                  ground
                    (arith, get-remove s.pipelines p q, get-remove t.pipelines p q, h.pipelines q);
              nodes = h.nodes;
              last_applied_log = h.last_applied_log;
              last_membership = h.last_membership;
            },
            refl,
          )
    | inr gone ↦ rw (apply_undeploy_pipeline, gone, rw (h.pipelines p) at gone) (h, refl)
  ]

  apply_register_node-Agree :
      (n at : ℕ) (address : String)
      → Agree (apply_register_node s n address at) (apply_register_node t n address at)
  unfolding apply_register_node
  apply_register_node-Agree n at address =
      let info : ClusterNodeInfo = record {
        cluster_node_id = n;
        address = address;
        registered_at_ms = at;
      } in
      (
        record {
          traces = h.traces;
          pipelines = h.pipelines;
          nodes = λ q.
              ground (arith, get-insert s.nodes n q info, get-insert t.nodes n q info, h.nodes q);
          last_applied_log = h.last_applied_log;
          last_membership = h.last_membership;
        },
        refl,
      )

  apply_deregister_node-Agree :
      (n : ℕ) → Agree (apply_deregister_node s n) (apply_deregister_node t n)
  unfolding apply_deregister_node
  apply_deregister_node-Agree n = elim (Bool-cases (is_some (HashMap.get s.nodes n))) [
    | inl known ↦
        rw (apply_deregister_node, known, rw (h.nodes n) at known)
          (
            record {
              traces = h.traces;
              pipelines = h.pipelines;
              nodes =
                  λ q. ground (arith, get-remove s.nodes n q, get-remove t.nodes n q, h.nodes q);
              last_applied_log = h.last_applied_log;
              last_membership = h.last_membership;
            },
            refl,
          )
    | inr gone ↦ rw (apply_deregister_node, gone, rw (h.nodes n) at gone) (h, refl)
  ]

  apply_start_trace-Agree :
      (id : ℕ) (p : PipelineId) (at : ℕ)
      → Agree (apply_start_trace s id p at) (apply_start_trace t id p at)
  unfolding apply_start_trace
  apply_start_trace-Agree id p at = elim (Option-cases (HashMap.get s.pipelines p)) [
    | inl gone ↦ rw (apply_start_trace, gone, sym (h.pipelines p) ∙ gone) (h, refl)
    | inr (i, known) ↦ elim (Bool-cases (is_running i.state)) [
      | inl r ↦
          rw (apply_start_trace, known, sym (h.pipelines p) ∙ known, r)
            (started s t h p i id (new_trace p at), refl)
      | inr r ↦ rw (apply_start_trace, known, sym (h.pipelines p) ∙ known, r) (h, refl)
    ]
  ]

  apply_complete_node-Agree :
      (id n : ℕ) → Agree (apply_complete_node s id n) (apply_complete_node t id n)
  unfolding apply_complete_node
  apply_complete_node-Agree id n = elim (Option-cases (HashMap.get s.traces id)) [
    | inl gone ↦ rw (apply_complete_node, gone, sym (h.traces id) ∙ gone) (h, refl)
    | inr (u, known) ↦
        rw (apply_complete_node, known, sym (h.traces id) ∙ known)
          (
            set_trace-IsSame s t h id
                (record u { completed_nodes = u.completed_nodes ++ n ∷ []; current_node = none }),
            refl,
          )
  ]

  apply_complete_trace-Agree :
      (id at : ℕ) → Agree (apply_complete_trace s id at) (apply_complete_trace t id at)
  unfolding apply_complete_trace
  apply_complete_trace-Agree id at = elim (Option-cases (HashMap.get s.traces id)) [
    | inl gone ↦ rw (apply_complete_trace, gone, sym (h.traces id) ∙ gone) (h, refl)
    | inr (u, known) ↦
        rw (apply_complete_trace, known, sym (h.traces id) ∙ known)
          (
            ended s t h id u.pipeline_id
                (record u { status = TraceStatus.completed; completed_at_ms = some at }),
            refl,
          )
  ]

  apply_fail_trace-Agree :
      (id at : ℕ) (e : String) → Agree (apply_fail_trace s id e at) (apply_fail_trace t id e at)
  unfolding apply_fail_trace
  apply_fail_trace-Agree id at e = elim (Option-cases (HashMap.get s.traces id)) [
    | inl gone ↦ rw (apply_fail_trace, gone, sym (h.traces id) ∙ gone) (h, refl)
    | inr (u, known) ↦
        rw (apply_fail_trace, known, sym (h.traces id) ∙ known)
          (
            ended s t h id u.pipeline_id (record u {
              status = TraceStatus.failed;
              completed_at_ms = some at;
              error = some e;
            }),
            refl,
          )
  ]

  apply_suspend_trace-Agree :
      (id n : ℕ) → Agree (apply_suspend_trace s id n) (apply_suspend_trace t id n)
  unfolding apply_suspend_trace
  apply_suspend_trace-Agree id n = elim (Option-cases (HashMap.get s.traces id)) [
    | inl gone ↦ rw (apply_suspend_trace, gone, sym (h.traces id) ∙ gone) (h, refl)
    | inr (u, known) ↦
        rw (apply_suspend_trace, known, sym (h.traces id) ∙ known)
          (
            set_trace-IsSame s t h id
                (record u { status = TraceStatus.suspended; current_node = some n }),
            refl,
          )
  ]

  apply_resume_trace-Agree : (id : ℕ) → Agree (apply_resume_trace s id) (apply_resume_trace t id)
  unfolding apply_resume_trace
  apply_resume_trace-Agree id = elim (Option-cases (HashMap.get s.traces id)) [
    | inl gone ↦ rw (apply_resume_trace, gone, sym (h.traces id) ∙ gone) (h, refl)
    | inr (u, known) ↦ elim (Bool-cases (is_suspended u.status)) [
      | inl r ↦
          rw (apply_resume_trace, known, sym (h.traces id) ∙ known, r)
            (set_trace-IsSame s t h id (record u { status = TraceStatus.running }), refl)
      | inr r ↦ rw (apply_resume_trace, known, sym (h.traces id) ∙ known, r) (h, refl)
    ]
  ]

  apply_pipeline_state_change-Agree :
      (p : PipelineId) (x : PipelineState)
      → Agree (apply_pipeline_state_change s p x) (apply_pipeline_state_change t p x)
  unfolding apply_pipeline_state_change
  apply_pipeline_state_change-Agree p x = elim (Option-cases (HashMap.get s.pipelines p)) [
    | inl gone ↦ rw (apply_pipeline_state_change, gone, sym (h.pipelines p) ∙ gone) (h, refl)
    | inr (i, known) ↦
        rw (apply_pipeline_state_change, known, sym (h.pipelines p) ∙ known)
          (set_pipeline-IsSame s t h p (record i { state = x }), refl)
  ]

  apply_resume_pipeline-Agree :
      (p : PipelineId) → Agree (apply_resume_pipeline s p) (apply_resume_pipeline t p)
  unfolding apply_resume_pipeline
  apply_resume_pipeline-Agree p = elim (Option-cases (HashMap.get s.pipelines p)) [
    | inl gone ↦ rw (apply_resume_pipeline, gone, sym (h.pipelines p) ∙ gone) (h, refl)
    | inr (i, known) ↦ elim (Bool-cases (is_paused i.state)) [
      | inl r ↦
          rw (apply_resume_pipeline, known, sym (h.pipelines p) ∙ known, r)
            (set_pipeline-IsSame s t h p (record i { state = PipelineState.running }), refl)
      | inr r ↦ rw (apply_resume_pipeline, known, sym (h.pipelines p) ∙ known, r) (h, refl)
    ]
  ]

  pub apply_command-Agree : (c : ClusterCommand) → Agree (apply_command s c) (apply_command t c)
  unfolding apply_command
  apply_command-Agree (start_trace id p d at) = apply_start_trace-Agree id p at
  apply_command-Agree (complete_node id n o d) = apply_complete_node-Agree id n
  apply_command-Agree (complete_trace id at) = apply_complete_trace-Agree id at
  apply_command-Agree (fail_trace id n e at) = apply_fail_trace-Agree id at e
  apply_command-Agree (suspend_trace id n r at) = apply_suspend_trace-Agree id n
  apply_command-Agree (resume_trace id a at) = apply_resume_trace-Agree id
  apply_command-Agree (deploy_pipeline p config at) = apply_deploy_pipeline-Agree p config at
  apply_command-Agree (start_pipeline p at) =
      apply_pipeline_state_change-Agree p PipelineState.running
  apply_command-Agree (pause_pipeline p at) =
      apply_pipeline_state_change-Agree p PipelineState.paused
  apply_command-Agree (resume_pipeline p at) = apply_resume_pipeline-Agree p
  apply_command-Agree (drain_pipeline p at) =
      apply_pipeline_state_change-Agree p PipelineState.draining
  apply_command-Agree (stop_pipeline p at) =
      apply_pipeline_state_change-Agree p PipelineState.stopped
  apply_command-Agree (undeploy_pipeline p at) = apply_undeploy_pipeline-Agree p
  apply_command-Agree (register_node n address at) = apply_register_node-Agree n at address
  apply_command-Agree (deregister_node n at) = apply_deregister_node-Agree n
