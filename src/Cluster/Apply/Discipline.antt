-- ===== src/Cluster/Apply/Discipline.antt =====
-- Logs whose commands respect the traces' and pipelines' lives, and the counters after them.
use xerv.Prelude.{
  ◌+◌, ◌≤◌, ◌<◌, ◌^◌, ◌≡◌, refl, Bool, true, not, ◌&&◌, List, [], ◌∷◌, arith, nat_eq, length,
  nat_beq, is_some, suc,
}
use xerv.HashMap
use xerv.HashMap.{HashMap, len}
use xerv.HashMap.Laws.{len-insert_le}
use xerv.Ids.{pipeline_eq}
use xerv.Cluster.Command.{
  ClusterCommand, start_trace, complete_node, complete_trace, fail_trace, suspend_trace,
  resume_trace, deploy_pipeline, start_pipeline, pause_pipeline, resume_pipeline, drain_pipeline,
  stop_pipeline, undeploy_pipeline, register_node, deregister_node,
}
use xerv.Cluster.State.{PipelineState, ClusterState}
use xerv.Cluster.Apply.{
  apply_command, apply_start_trace, apply_complete_node, apply_complete_trace, apply_fail_trace,
  apply_suspend_trace, apply_resume_trace, apply_deploy_pipeline, apply_pipeline_state_change,
  apply_resume_pipeline, apply_undeploy_pipeline, apply_register_node, apply_deregister_node,
}
use xerv.Cluster.Apply.Refusals.{traces-release}
use xerv.Cluster.Apply.Counting.{
  absent_or, start_trace-IsAccurate, complete_node-IsAccurate, complete_trace-IsAccurate,
  fail_trace-IsAccurate, suspend_trace-IsAccurate, resume_trace-IsAccurate,
  pipeline_state-IsAccurate, resume_pipeline-IsAccurate, undeploy-IsAccurate,
}
use xerv.Cluster.Apply.Accuracy.{is_active, live, IsAccurate, deployed}

module _ {M : Type 0} where
  -- The commands that count correctly: a trace is started under a new identifier, it is suspended,
  -- completed or failed only while it is active, and a pipeline is deployed only while no trace
  -- of it is active.
  abbrev pub disciplined : ClusterState M → ClusterCommand → Bool
  disciplined s (start_trace id _ _ _) = not (is_some (HashMap.get s.traces id))
  disciplined s (complete_trace id _) =
      absent_or (λ t. is_active t.status) (HashMap.get s.traces id)
  disciplined s (fail_trace id _ _ _) =
      absent_or (λ t. is_active t.status) (HashMap.get s.traces id)
  disciplined s (suspend_trace id _ _ _) =
      absent_or (λ t. is_active t.status) (HashMap.get s.traces id)
  disciplined s (deploy_pipeline p _ _) = nat_beq (live s.traces p) 0
  disciplined s _ = true

  unfoldable pub replay : ClusterState M → List ClusterCommand → ClusterState M
  replay s [] = s
  replay s (c ∷ cs) = replay (apply_command s c).0 cs

  abbrev pub disciplined_log : ClusterState M → List ClusterCommand → Bool
  disciplined_log s [] = true
  disciplined_log s (c ∷ cs) = disciplined s c && disciplined_log (apply_command s c).0 cs

module _ {M : Type 0} (s : ClusterState M) (a : IsAccurate s) where
  same_counts :
      (t : ClusterState M) → t.traces ≡ s.traces → t.pipelines ≡ s.pipelines → IsAccurate t
  same_counts t e f = record {
    unique = rw e a.unique;
    counted = λ p i q. ground (arith, e, f, q, a.counted p i);
  }

  apply_command-IsAccurate :
      (c : ClusterCommand)
      → disciplined s c ≡ true
      → len s.traces + 1 < 2 ^ 64
      → IsAccurate (apply_command s c).0
  unfolding apply_command apply_deploy_pipeline apply_register_node apply_deregister_node
  apply_command-IsAccurate (start_trace id p d t) h f =
      start_trace-IsAccurate s a id p t (ground (arith, h)) f
  apply_command-IsAccurate (complete_node id n o d) h f = complete_node-IsAccurate s a id n
  apply_command-IsAccurate (complete_trace id t) h f = complete_trace-IsAccurate s a id t h
  apply_command-IsAccurate (fail_trace id n e t) h f = fail_trace-IsAccurate s a id t e h
  apply_command-IsAccurate (suspend_trace id n r t) h f = suspend_trace-IsAccurate s a id n h
  apply_command-IsAccurate (resume_trace id d t) h f = resume_trace-IsAccurate s a id
  apply_command-IsAccurate (deploy_pipeline p config t) h f =
      deployed s a p
        (record {
          state = PipelineState.initializing;
          config = config;
          deployed_at_ms = t;
          active_traces = 0;
        })
        refl (ground (arith, h))
  apply_command-IsAccurate (start_pipeline p t) h f =
      pipeline_state-IsAccurate s a p PipelineState.running
  apply_command-IsAccurate (pause_pipeline p t) h f =
      pipeline_state-IsAccurate s a p PipelineState.paused
  apply_command-IsAccurate (resume_pipeline p t) h f = resume_pipeline-IsAccurate s a p
  apply_command-IsAccurate (drain_pipeline p t) h f =
      pipeline_state-IsAccurate s a p PipelineState.draining
  apply_command-IsAccurate (stop_pipeline p t) h f =
      pipeline_state-IsAccurate s a p PipelineState.stopped
  apply_command-IsAccurate (undeploy_pipeline p t) h f = undeploy-IsAccurate s a p
  apply_command-IsAccurate (register_node n d t) h f =
      same_counts (apply_command s (register_node n d t)).0 refl refl
  apply_command-IsAccurate (deregister_node n t) h f =
      same_counts (apply_command s (deregister_node n t)).0 (ground arith) (ground arith)

module _ {M : Type 0} where
  len-apply_command :
      (s : ClusterState M) (c : ClusterCommand)
      → len (apply_command s c).0.traces ≤ suc (len s.traces)
  unfolding apply_command apply_start_trace apply_complete_node apply_complete_trace
      apply_fail_trace apply_suspend_trace apply_resume_trace apply_deploy_pipeline
      apply_pipeline_state_change apply_resume_pipeline apply_undeploy_pipeline apply_register_node
      apply_deregister_node
  len-apply_command s (start_trace id p d t) = grind (arith, len-insert_le s.traces id)
  len-apply_command s (complete_node id n o d) = grind (arith, len-insert_le s.traces id)
  len-apply_command s (complete_trace id t) =
      grind (arith, len-insert_le s.traces id, traces-release)
  len-apply_command s (fail_trace id n e t) =
      grind (arith, len-insert_le s.traces id, traces-release)
  len-apply_command s (suspend_trace id n r t) = grind (arith, len-insert_le s.traces id)
  len-apply_command s (resume_trace id a t) = grind (arith, len-insert_le s.traces id)
  len-apply_command s (deploy_pipeline p c t) = omega arith
  len-apply_command s (start_pipeline p t) = ground arith
  len-apply_command s (pause_pipeline p t) = ground arith
  len-apply_command s (resume_pipeline p t) = ground arith
  len-apply_command s (drain_pipeline p t) = ground arith
  len-apply_command s (stop_pipeline p t) = ground arith
  len-apply_command s (undeploy_pipeline p t) = ground arith
  len-apply_command s (register_node n a t) = omega arith
  len-apply_command s (deregister_node n t) = ground arith

  -- After a disciplined log, from a state whose counters are right, with fewer than 2^64 traces and
  -- commands together, the counter of every deployed pipeline is the number of its running and
  -- suspended traces.
  pub replay-IsAccurate :
      (s : ClusterState M) (cs : List ClusterCommand)
      → IsAccurate s
      → disciplined_log s cs ≡ true
      → len s.traces + length cs < 2 ^ 64
      → IsAccurate (replay s cs)
  unfolding replay
  replay-IsAccurate s [] a d f = a
  replay-IsAccurate s (c ∷ cs) a d f =
      replay-IsAccurate (apply_command s c).0 cs
        (apply_command-IsAccurate s a c (ground (arith, d)) (omega (arith, f))) (ground (arith, d))
        (omega (arith, f, len-apply_command s c))
