-- ===== src/Cluster/Apply/Counting.antt =====
-- Each command that changes a trace or a pipeline keeps the counters right, on every branch.
use xerv.Prelude.{
  ℕ, ◌+◌, ◌<◌, ◌^◌, ◌≡◌, refl, Bool, true, Option, none, some, [], ◌∷◌, ◌++◌, String, arith, nat_eq,
  is_some, Option-cases, Bool-cases, inl, inr,
}
use xerv.HashMap
use xerv.HashMap.{HashMap, len}
use xerv.Ids.{PipelineId, pipeline_eq}
use xerv.Cluster.State.{
  PipelineState, TraceStatus, is_running, is_paused, is_suspended, ClusterState,
}
use xerv.Cluster.Apply.{
  apply_start_trace, apply_complete_node, apply_complete_trace, apply_fail_trace,
  apply_suspend_trace, apply_resume_trace, apply_pipeline_state_change, apply_resume_pipeline,
  apply_undeploy_pipeline,
}
use xerv.Cluster.Apply.Accuracy.{
  is_active, live-le-len, IsAccurate, retraced, started, ended, restated, undeployed,
}

abbrev pub absent_or : {A : Type 0} → (A → Bool) → Option A → Bool
absent_or p none = true
absent_or p (some a) = p a

module _ {M : Type 0} (s : ClusterState M) (a : IsAccurate s) where
  pub start_trace-IsAccurate :
      (id : ℕ) (p : PipelineId) (at : ℕ)
      → HashMap.get s.traces id ≡ none
      → len s.traces + 1 < 2 ^ 64
      → IsAccurate (apply_start_trace s id p at).0
  unfolding apply_start_trace
  start_trace-IsAccurate id p at fresh fits = elim (Option-cases (HashMap.get s.pipelines p)) [
    | inl gone ↦ rw (apply_start_trace, gone) a
    | inr (i, known) ↦ elim (Bool-cases (is_running i.state)) [
      | inl r ↦
          rw (apply_start_trace, known, r)
            (started s a p i id at fresh known (omega (arith, fits, live-le-len s.traces p)))
      | inr r ↦ rw (apply_start_trace, known, r) a
    ]
  ]

  pub complete_node-IsAccurate : (id n : ℕ) → IsAccurate (apply_complete_node s id n).0
  unfolding apply_complete_node
  complete_node-IsAccurate id n = elim (Option-cases (HashMap.get s.traces id)) [
    | inl gone ↦ rw (apply_complete_node, gone) a
    | inr (t, known) ↦
        rw (apply_complete_node, known)
          (retraced s a id t
            (record t { completed_nodes = t.completed_nodes ++ n ∷ []; current_node = none }) known
            refl refl)
  ]

  pub complete_trace-IsAccurate :
      (id at : ℕ)
      → absent_or (λ t. is_active t.status) (HashMap.get s.traces id) ≡ true
      → IsAccurate (apply_complete_trace s id at).0
  unfolding apply_complete_trace
  complete_trace-IsAccurate id at d = elim (Option-cases (HashMap.get s.traces id)) [
    | inl gone ↦ rw (apply_complete_trace, gone) a
    | inr (t, known) ↦
        rw (apply_complete_trace, known)
          (ended s a id t (record t { status = TraceStatus.completed; completed_at_ms = some at })
            known refl (rw known at d) refl)
  ]

  pub fail_trace-IsAccurate :
      (id at : ℕ) (error : String)
      → absent_or (λ t. is_active t.status) (HashMap.get s.traces id) ≡ true
      → IsAccurate (apply_fail_trace s id error at).0
  unfolding apply_fail_trace
  fail_trace-IsAccurate id at error d = elim (Option-cases (HashMap.get s.traces id)) [
    | inl gone ↦ rw (apply_fail_trace, gone) a
    | inr (t, known) ↦
        rw (apply_fail_trace, known)
          (ended s a id t
            (record t {
              status = TraceStatus.failed;
              completed_at_ms = some at;
              error = some error;
            })
            known refl (rw known at d) refl)
  ]

  pub suspend_trace-IsAccurate :
      (id n : ℕ)
      → absent_or (λ t. is_active t.status) (HashMap.get s.traces id) ≡ true
      → IsAccurate (apply_suspend_trace s id n).0
  unfolding apply_suspend_trace
  suspend_trace-IsAccurate id n d = elim (Option-cases (HashMap.get s.traces id)) [
    | inl gone ↦ rw (apply_suspend_trace, gone) a
    | inr (t, known) ↦
        rw (apply_suspend_trace, known)
          (retraced s a id t (record t { status = TraceStatus.suspended; current_node = some n })
            known refl (rw known at d))
  ]

  pub resume_trace-IsAccurate : (id : ℕ) → IsAccurate (apply_resume_trace s id).0
  unfolding apply_resume_trace
  resume_trace-IsAccurate id = elim (Option-cases (HashMap.get s.traces id)) [
    | inl gone ↦ rw (apply_resume_trace, gone) a
    | inr (t, known) ↦ elim (Bool-cases (is_suspended t.status)) [
      | inl r ↦
          rw (apply_resume_trace, known, r)
            (retraced s a id t (record t { status = TraceStatus.running }) known refl
              (ground (arith, r)))
      | inr r ↦ rw (apply_resume_trace, known, r) a
    ]
  ]

  pub pipeline_state-IsAccurate :
      (p : PipelineId) (new_state : PipelineState)
      → IsAccurate (apply_pipeline_state_change s p new_state).0
  unfolding apply_pipeline_state_change
  pipeline_state-IsAccurate p new_state = elim (Option-cases (HashMap.get s.pipelines p)) [
    | inl gone ↦ rw (apply_pipeline_state_change, gone) a
    | inr (i, known) ↦
        rw (apply_pipeline_state_change, known)
          (restated s a p i (record i { state = new_state }) known refl)
  ]

  pub resume_pipeline-IsAccurate : (p : PipelineId) → IsAccurate (apply_resume_pipeline s p).0
  unfolding apply_resume_pipeline
  resume_pipeline-IsAccurate p = elim (Option-cases (HashMap.get s.pipelines p)) [
    | inl gone ↦ rw (apply_resume_pipeline, gone) a
    | inr (i, known) ↦ elim (Bool-cases (is_paused i.state)) [
      | inl r ↦
          rw (apply_resume_pipeline, known, r)
            (restated s a p i (record i { state = PipelineState.running }) known refl)
      | inr r ↦ rw (apply_resume_pipeline, known, r) a
    ]
  ]

  pub undeploy-IsAccurate : (p : PipelineId) → IsAccurate (apply_undeploy_pipeline s p).0
  unfolding apply_undeploy_pipeline
  undeploy-IsAccurate p = elim (Bool-cases (is_some (HashMap.get s.pipelines p))) [
    | inl known ↦ rw (apply_undeploy_pipeline, known) (undeployed s a p)
    | inr gone ↦ rw (apply_undeploy_pipeline, gone) a
  ]
