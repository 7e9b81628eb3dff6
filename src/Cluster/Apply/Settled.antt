-- ===== src/Cluster/Apply/Settled.antt =====
-- Traces that have ended, and the commands that may reopen them.
use xerv.Prelude.{
  ℕ, ◌≡◌, ◌≢◌, Bool, true, false, not, ◌||◌, some, List, [], ◌∷◌, arith, nat_eq, nat_beq_iff, ◌==◌,
}
use xerv.HashMap
use xerv.HashMap.Laws.{get-insert}
use xerv.Cluster.Command.{
  ClusterCommand, start_trace, complete_node, complete_trace, fail_trace, suspend_trace,
  resume_trace, deploy_pipeline, start_pipeline, pause_pipeline, resume_pipeline, drain_pipeline,
  stop_pipeline, undeploy_pipeline, register_node, deregister_node, trace_id_of,
}
use xerv.Cluster.State.{ClusterState}
use xerv.Cluster.Apply.{
  apply_command, apply_complete_node, apply_complete_trace, apply_fail_trace, apply_resume_trace,
}
use xerv.Cluster.Apply.Refusals.{holds, apply_command-frame, traces-release}
use xerv.Cluster.Apply.Accuracy.{is_active}
use xerv.Cluster.Apply.Discipline.{replay}

-- The commands that start or suspend the trace.
abbrev pub reopens : ℕ → ClusterCommand → Bool
reopens k (start_trace id _ _ _) = id == k
reopens k (suspend_trace id _ _ _) = id == k
reopens k _ = false

abbrev pub any_reopens : ℕ → List ClusterCommand → Bool
any_reopens k [] = false
any_reopens k (c ∷ cs) = reopens k c || any_reopens k cs

module _ {M : Type 0} where
  abbrev pub is_over : ClusterState M → ℕ → Bool
  is_over s k = holds (λ t. not (is_active t.status)) (HashMap.get s.traces k)

  unnamed :
      (s : ClusterState M) (c : ClusterCommand) (k : ℕ)
      → is_over s k ≡ true
      → trace_id_of c ≢ some k
      → is_over (apply_command s c).0 k ≡ true
  unnamed s c k over other = rw (apply_command-frame s c k other) over

  apply_command_over :
      (s : ClusterState M) (c : ClusterCommand) (k : ℕ)
      → is_over s k ≡ true
      → reopens k c ≡ false
      → is_over (apply_command s c).0 k ≡ true
  unfolding apply_command apply_complete_node apply_complete_trace apply_fail_trace
      apply_resume_trace trace_id_of
  apply_command_over s (start_trace id p d t) k over keeps =
      unnamed s (start_trace id p d t) k over (ground (arith, keeps, nat_beq_iff id k))
  apply_command_over s (complete_node id n o d) k over keeps =
      grind (arith, over, nat_beq_iff id k, get-insert s.traces id k, traces-release)
  apply_command_over s (complete_trace id t) k over keeps =
      grind (arith, over, nat_beq_iff id k, get-insert s.traces id k, traces-release)
  apply_command_over s (fail_trace id n e t) k over keeps =
      grind (arith, over, nat_beq_iff id k, get-insert s.traces id k, traces-release)
  apply_command_over s (suspend_trace id n r t) k over keeps =
      unnamed s (suspend_trace id n r t) k over (ground (arith, keeps, nat_beq_iff id k))
  apply_command_over s (resume_trace id a t) k over keeps =
      grind (arith, over, nat_beq_iff id k, get-insert s.traces id k, traces-release)
  apply_command_over s (deploy_pipeline p c t) k over keeps =
      unnamed s (deploy_pipeline p c t) k over (ground arith)
  apply_command_over s (start_pipeline p t) k over keeps =
      unnamed s (start_pipeline p t) k over (ground arith)
  apply_command_over s (pause_pipeline p t) k over keeps =
      unnamed s (pause_pipeline p t) k over (ground arith)
  apply_command_over s (resume_pipeline p t) k over keeps =
      unnamed s (resume_pipeline p t) k over (ground arith)
  apply_command_over s (drain_pipeline p t) k over keeps =
      unnamed s (drain_pipeline p t) k over (ground arith)
  apply_command_over s (stop_pipeline p t) k over keeps =
      unnamed s (stop_pipeline p t) k over (ground arith)
  apply_command_over s (undeploy_pipeline p t) k over keeps =
      unnamed s (undeploy_pipeline p t) k over (ground arith)
  apply_command_over s (register_node n a t) k over keeps =
      unnamed s (register_node n a t) k over (ground arith)
  apply_command_over s (deregister_node n t) k over keeps =
      unnamed s (deregister_node n t) k over (ground arith)

  -- A trace that is completed or failed stays so under any log that neither starts nor suspends it.
  pub replay_over :
      (s : ClusterState M) (cs : List ClusterCommand) (k : ℕ)
      → is_over s k ≡ true
      → any_reopens k cs ≡ false
      → is_over (replay s cs) k ≡ true
  unfolding replay
  replay_over s [] k over keeps = over
  replay_over s (c ∷ cs) k over keeps =
      replay_over (apply_command s c).0 cs k (apply_command_over s c k over (ground (arith, keeps)))
        (ground (arith, keeps))
