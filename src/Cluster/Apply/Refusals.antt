-- ===== src/Cluster/Apply/Refusals.antt =====
-- When a command is refused, and what it leaves alone.
use xerv.Prelude.{
  ℕ, ◌≡◌, ◌≢◌, ap, refl, Bool, true, false, not, Option, none, some, arith, nat_eq, if◌then◌else◌,
  is_some,
}
use xerv.HashMap
use xerv.HashMap.Laws.{get-insert_other}
use xerv.Ids.{PipelineId, pipeline_eq}
use xerv.Cluster.Command.{
  ClusterCommand, start_trace, complete_node, complete_trace, fail_trace, suspend_trace,
  resume_trace, deploy_pipeline, start_pipeline, pause_pipeline, resume_pipeline, drain_pipeline,
  stop_pipeline, undeploy_pipeline, register_node, deregister_node, trace_id_of,
}
use xerv.Cluster.State.{is_running, is_paused, is_suspended, ClusterState}
use xerv.Cluster.Apply.{
  apply_command, apply_start_trace, apply_complete_node, apply_complete_trace, apply_fail_trace,
  apply_suspend_trace, apply_resume_trace, apply_deploy_pipeline, apply_pipeline_state_change,
  apply_resume_pipeline, apply_undeploy_pipeline, apply_register_node, apply_deregister_node,
  release,
}

abbrev pub holds {ℓ} : {A : Type ℓ} → (A → Bool) → Option A → Bool
holds p none = false
holds p (some a) = p a

module _ {M : Type 0} where
  -- The conditions under which a command is carried out.
  abbrev pub allowed : ClusterState M → ClusterCommand → Bool
  allowed s (start_trace _ p _ _) = holds (λ i. is_running i.state) (HashMap.get s.pipelines p)
  allowed s (complete_node id _ _ _) = is_some (HashMap.get s.traces id)
  allowed s (complete_trace id _) = is_some (HashMap.get s.traces id)
  allowed s (fail_trace id _ _ _) = is_some (HashMap.get s.traces id)
  allowed s (suspend_trace id _ _ _) = is_some (HashMap.get s.traces id)
  allowed s (resume_trace id _ _) = holds (λ t. is_suspended t.status) (HashMap.get s.traces id)
  allowed s (deploy_pipeline _ _ _) = true
  allowed s (start_pipeline p _) = is_some (HashMap.get s.pipelines p)
  allowed s (pause_pipeline p _) = is_some (HashMap.get s.pipelines p)
  allowed s (resume_pipeline p _) = holds (λ i. is_paused i.state) (HashMap.get s.pipelines p)
  allowed s (drain_pipeline p _) = is_some (HashMap.get s.pipelines p)
  allowed s (stop_pipeline p _) = is_some (HashMap.get s.pipelines p)
  allowed s (undeploy_pipeline p _) = is_some (HashMap.get s.pipelines p)
  allowed s (register_node _ _ _) = true
  allowed s (deregister_node n _) = is_some (HashMap.get s.nodes n)

  -- A command succeeds exactly if it is allowed; a refused one carries an error message and changes
  -- nothing.
  pub apply_command-refusal :
      (s : ClusterState M) (c : ClusterCommand)
      → ((apply_command s c).1.success ≡ allowed s c)
        × (is_some (apply_command s c).1.error ≡ not (allowed s c))
        × ((apply_command s c).0 ≡ (if allowed s c then (apply_command s c).0 else s))
  unfolding apply_command apply_start_trace apply_complete_node apply_complete_trace
      apply_fail_trace apply_suspend_trace apply_resume_trace apply_deploy_pipeline
      apply_pipeline_state_change apply_resume_pipeline apply_undeploy_pipeline apply_register_node
      apply_deregister_node
  apply_command-refusal s (start_trace id p d t) = ground arith
  apply_command-refusal s (complete_node id n o d) = ground arith
  apply_command-refusal s (complete_trace id t) = ground arith
  apply_command-refusal s (fail_trace id n e t) = ground arith
  apply_command-refusal s (suspend_trace id n r t) = ground arith
  apply_command-refusal s (resume_trace id a t) = ground arith
  apply_command-refusal s (deploy_pipeline p c t) = ground arith
  apply_command-refusal s (start_pipeline p t) = ground arith
  apply_command-refusal s (pause_pipeline p t) = ground arith
  apply_command-refusal s (resume_pipeline p t) = ground arith
  apply_command-refusal s (drain_pipeline p t) = ground arith
  apply_command-refusal s (stop_pipeline p t) = ground arith
  apply_command-refusal s (undeploy_pipeline p t) = ground arith
  apply_command-refusal s (register_node n a t) = ground arith
  apply_command-refusal s (deregister_node n t) = ground arith

  pub traces-release : (s : ClusterState M) (p : PipelineId) → (release s p).traces ≡ s.traces
  unfolding release
  traces-release s p = ground arith

  -- A command changes no trace but the one that `trace_id` names.
  pub apply_command-frame :
      (s : ClusterState M) (c : ClusterCommand) (k : ℕ)
      → trace_id_of c ≢ some k
      → HashMap.get (apply_command s c).0.traces k ≡ HashMap.get s.traces k
  unfolding apply_command apply_start_trace apply_complete_node apply_complete_trace
      apply_fail_trace apply_suspend_trace apply_resume_trace apply_deploy_pipeline
      apply_pipeline_state_change apply_resume_pipeline apply_undeploy_pipeline apply_register_node
      apply_deregister_node trace_id_of
  apply_command-frame s (start_trace id p d t) k h =
      grind (arith, get-insert_other s.traces id k (λ e. h (ap some e)))
  apply_command-frame s (complete_node id n o d) k h =
      grind (arith, get-insert_other s.traces id k (λ e. h (ap some e)))
  apply_command-frame s (complete_trace id t) k h =
      grind (arith, get-insert_other s.traces id k (λ e. h (ap some e)), traces-release)
  apply_command-frame s (fail_trace id n e t) k h =
      grind (arith, get-insert_other s.traces id k (λ e. h (ap some e)), traces-release)
  apply_command-frame s (suspend_trace id n r t) k h =
      grind (arith, get-insert_other s.traces id k (λ e. h (ap some e)))
  apply_command-frame s (resume_trace id a t) k h =
      grind (arith, get-insert_other s.traces id k (λ e. h (ap some e)))
  apply_command-frame s (deploy_pipeline p c t) k h = refl
  apply_command-frame s (start_pipeline p t) k h = ground arith
  apply_command-frame s (pause_pipeline p t) k h = ground arith
  apply_command-frame s (resume_pipeline p t) k h = ground arith
  apply_command-frame s (drain_pipeline p t) k h = ground arith
  apply_command-frame s (stop_pipeline p t) k h = ground arith
  apply_command-frame s (undeploy_pipeline p t) k h = ground arith
  apply_command-frame s (register_node n a t) k h = refl
  apply_command-frame s (deregister_node n t) k h = ground arith
