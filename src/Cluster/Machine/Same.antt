-- ===== src/Cluster/Machine/Same.antt =====
-- States that hold the same entries, in whatever order their maps keep them.
use xerv.Prelude.{ℕ, ◌≡◌, refl, sym, ◌∙◌, arith, nat_eq, Option-cases, inl, inr}
use xerv.HashMap
use xerv.HashMap.{HashMap}
use xerv.HashMap.Laws.{get-insert}
use xerv.Ids.{PipelineId, pipeline_eq}
use xerv.Cluster.State.{TraceStateInfo, PipelineStateInfo, ClusterState, ClusterResponse}
use xerv.Cluster.Apply.{release, set_trace, set_pipeline, one_more, one_less}

pub record IsSame {M : Type 0} (s t : ClusterState M) : Type 0 where
  pub traces : (k : ℕ) → HashMap.get s.traces k ≡ HashMap.get t.traces k
  pub pipelines : (p : PipelineId) → HashMap.get s.pipelines p ≡ HashMap.get t.pipelines p
  pub nodes : (n : ℕ) → HashMap.get s.nodes n ≡ HashMap.get t.nodes n
  pub last_applied_log : s.last_applied_log ≡ t.last_applied_log
  pub last_membership : s.last_membership ≡ t.last_membership

module _ {M : Type 0} where
  pub IsSame-refl : (s : ClusterState M) → IsSame s s
  IsSame-refl s = record {
    traces = λ k. refl;
    pipelines = λ p. refl;
    nodes = λ n. refl;
    last_applied_log = refl;
    last_membership = refl;
  }

  abbrev pub Agree : ClusterState M × ClusterResponse → ClusterState M × ClusterResponse → Type 0
  Agree x y = IsSame x.0 y.0 × (x.1 ≡ y.1)

module _ {M : Type 0} (s t : ClusterState M) (h : IsSame s t) where
  pub set_trace-IsSame :
      (id : ℕ) (u : TraceStateInfo) → IsSame (set_trace s id u) (set_trace t id u)
  set_trace-IsSame id u = record {
    traces =
        λ k. ground (arith, get-insert s.traces id k u, get-insert t.traces id k u, h.traces k);
    pipelines = h.pipelines;
    nodes = h.nodes;
    last_applied_log = h.last_applied_log;
    last_membership = h.last_membership;
  }

  pub set_pipeline-IsSame :
      (p : PipelineId) (i : PipelineStateInfo) → IsSame (set_pipeline s p i) (set_pipeline t p i)
  set_pipeline-IsSame p i = record {
    traces = h.traces;
    pipelines = λ q.
        ground (arith, get-insert s.pipelines p q i, get-insert t.pipelines p q i, h.pipelines q);
    nodes = h.nodes;
    last_applied_log = h.last_applied_log;
    last_membership = h.last_membership;
  }

  pub release-IsSame : (p : PipelineId) → IsSame (release s p) (release t p)
  unfolding release
  release-IsSame p = elim (Option-cases (HashMap.get s.pipelines p)) [
    | inl gone ↦ rw (release, gone, sym (h.pipelines p) ∙ gone) h
    | inr (i, known) ↦
        rw (release, known, sym (h.pipelines p) ∙ known) (set_pipeline-IsSame p (one_less i))
  ]

module _ {M : Type 0} (s t : ClusterState M) (h : IsSame s t) where
  pub started :
      (p : PipelineId) (i : PipelineStateInfo) (id : ℕ) (u : TraceStateInfo)
      → IsSame
          (set_trace (set_pipeline s p (one_more i)) id u)
          (set_trace (set_pipeline t p (one_more i)) id u)
  started p i id u =
      set_trace-IsSame (set_pipeline s p (one_more i)) (set_pipeline t p (one_more i))
        (set_pipeline-IsSame s t h p (one_more i)) id u

  pub ended :
      (id : ℕ) (p : PipelineId) (u : TraceStateInfo)
      → IsSame (release (set_trace s id u) p) (release (set_trace t id u) p)
  ended id p u =
      release-IsSame (set_trace s id u) (set_trace t id u) (set_trace-IsSame s t h id u) p
