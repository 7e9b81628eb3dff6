-- ===== src/Cluster/Apply/Accuracy.antt =====
-- The counters of active traces agree with the traces, under a discipline that the code leaves to
-- those who propose commands.
use xerv.Prelude.{
  ℕ, ◌+◌, ◌≤◌, ◌<◌, ◌^◌, ◌≡◌, Bool, true, false, ◌&&◌, Option, none, some, [], ◌∷◌, arith, nat_eq,
  if◌then◌else◌, count_by, ◌==◌, count_by-le-length, Option-cases, inl, inr,
}
use xerv.HashMap
use xerv.HashMap.{HashMap, len}
use xerv.HashMap.Laws.{get-insert, get-remove, IsUnique, insert-IsUnique}
use xerv.Ids.{PipelineId, pipeline_eq}
use xerv.Cluster.State.{TraceStatus, TraceStateInfo, PipelineStateInfo, ClusterState}
use xerv.Cluster.Apply.{release, set_trace, new_trace, one_more, one_less}
use xerv.Cluster.Apply.Refusals.{holds}

abbrev pub is_active : TraceStatus → Bool
is_active TraceStatus.running = true
is_active TraceStatus.suspended = true
is_active TraceStatus.completed = false
is_active TraceStatus.failed = false

abbrev pub is_active_of : PipelineId → TraceStateInfo → Bool
is_active_of p t = is_active t.status && (t.pipeline_id == p)

-- The number of active traces of a pipeline.
abbrev pub live : HashMap ℕ TraceStateInfo → PipelineId → ℕ
live traces p = count_by (λ e. is_active_of p e.1) traces

abbrev weight : PipelineId → Option TraceStateInfo → ℕ
weight p o = if holds (is_active_of p) o then 1 else 0

pub live-insert :
    (m : HashMap ℕ TraceStateInfo) (k : ℕ) (t : TraceStateInfo) (p : PipelineId)
    → live (HashMap.insert m k t) p + weight p (HashMap.get m k) ≡ live m p + weight p (some t)
unfolding HashMap.insert HashMap.get
live-insert [] k t p = omega arith
live-insert ((j, u) ∷ m) k t p = ground (arith, live-insert m k t p)

pub live-le-len : (m : HashMap ℕ TraceStateInfo) (p : PipelineId) → live m p ≤ len m
live-le-len m p = count_by-le-length (λ e. is_active_of p e.1) m

-- The counter of each pipeline is the number of its active traces.
pub record IsAccurate {M : Type 0} (s : ClusterState M) : Type 0 where
  pub unique : IsUnique s.traces
  pub counted :
      (p : PipelineId) (i : PipelineStateInfo)
      → HashMap.get s.pipelines p ≡ some i
      → i.active_traces ≡ live s.traces p

module _ {M : Type 0} (s : ClusterState M) (a : IsAccurate s) where
  -- A trace is changed, and stays as active as it was.
  pub retraced :
      (id : ℕ) (u t : TraceStateInfo)
      → HashMap.get s.traces id ≡ some u
      → u.pipeline_id ≡ t.pipeline_id
      → is_active u.status ≡ is_active t.status
      → IsAccurate (set_trace s id t)
  retraced id u t found same active = record {
    unique = insert-IsUnique s.traces id t a.unique;
    counted =
        λ p i q. ground (arith, a.counted p i, live-insert s.traces id t p, q, found, same, active);
  }

  pub started :
      (p : PipelineId) (i : PipelineStateInfo) (id at : ℕ)
      → HashMap.get s.traces id ≡ none
      → HashMap.get s.pipelines p ≡ some i
      → live s.traces p + 1 < 2 ^ 64
      → IsAccurate (record s {
        pipelines = HashMap.insert s.pipelines p (one_more i);
        traces = HashMap.insert s.traces id (new_trace p at);
      })
  started p i id at fresh found fits = record {
    unique = insert-IsUnique s.traces id (new_trace p at) a.unique;
    counted = λ q j e. ground (
      arith,
      e,
      a.counted q j,
      a.counted p i found,
      live-insert s.traces id (new_trace p at) q,
      fresh,
      fits,
      get-insert s.pipelines p q (one_more i),
      pipeline_eq.same_iff p q,
    );
  }

  -- An active trace ends, and its pipeline is released.
  pub ended :
      (id : ℕ) (u t : TraceStateInfo)
      → HashMap.get s.traces id ≡ some u
      → u.pipeline_id ≡ t.pipeline_id
      → is_active u.status ≡ true
      → is_active t.status ≡ false
      → IsAccurate (release (set_trace s id t) u.pipeline_id)
  unfolding release
  ended id u t found same active over =
      elim (Option-cases (HashMap.get s.pipelines u.pipeline_id)) [
        | inl gone ↦
            rw (release, gone)
              (record {
                unique = insert-IsUnique s.traces id t a.unique;
                counted = λ p i q. ground (
                  arith,
                  a.counted p i,
                  live-insert s.traces id t p,
                  q,
                  found,
                  same,
                  active,
                  over,
                  gone,
                  pipeline_eq.same_iff u.pipeline_id p,
                );
              })
        | inr (i, known) ↦
            rw (release, known)
              (record {
                unique = insert-IsUnique s.traces id t a.unique;
                counted = λ q j e. ground (
                  arith,
                  e,
                  a.counted q j,
                  a.counted u.pipeline_id i known,
                  live-insert s.traces id t q,
                  found,
                  same,
                  active,
                  over,
                  get-insert s.pipelines u.pipeline_id q (one_less i),
                  pipeline_eq.same_iff u.pipeline_id q,
                );
              })
      ]

  -- A pipeline changes its state but not its counter.
  pub restated :
      (p : PipelineId) (i j : PipelineStateInfo)
      → HashMap.get s.pipelines p ≡ some i
      → i.active_traces ≡ j.active_traces
      → IsAccurate (record s { pipelines = HashMap.insert s.pipelines p j })
  restated p i j found same = record {
    unique = a.unique;
    counted = λ q k e. ground (
      arith,
      e,
      a.counted q k,
      a.counted p i found,
      same,
      get-insert s.pipelines p q j,
      pipeline_eq.same_iff p q,
    );
  }

  pub deployed :
      (p : PipelineId) (j : PipelineStateInfo)
      → j.active_traces ≡ 0
      → live s.traces p ≡ 0
      → IsAccurate (record s { pipelines = HashMap.insert s.pipelines p j })
  deployed p j zero none_live = record {
    unique = a.unique;
    counted = λ q k e. ground (
      arith,
      e,
      a.counted q k,
      zero,
      none_live,
      get-insert s.pipelines p q j,
      pipeline_eq.same_iff p q,
    );
  }

  pub undeployed :
      (p : PipelineId) → IsAccurate (record s { pipelines = HashMap.remove s.pipelines p })
  undeployed p = record {
    unique = a.unique;
    counted = λ q k e. ground (arith, e, a.counted q k, get-remove s.pipelines p q);
  }
