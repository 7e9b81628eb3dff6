-- ===== src/Executor/Run/Steps.antt =====
-- Every step of an execution keeps what Invariant states.
use xerv.Prelude.{
  ℕ, ◌≡◌, refl, Bool, true, false, Option, none, some, List, [], arith, if◌then◌else◌, nat_eq, ok,
  err, Bool-cases, Option-cases, inl, inr,
}
use xerv.HashMap
use xerv.HashMap.{contains_key}
use xerv.Errors.{XervResult}
use xerv.NodeOutput.{SuspensionRequest, RelPtr, complete, error, suspend}
use xerv.Suspension.{Json}
use xerv.TraceState.{TraceState}
use xerv.TraceState.Laws.{IsFresh}
use xerv.Executor.{Executor, Texts, JoinResult, finished, panicked, Execution}
use xerv.Executor.Run.{
  map_going, map_draining, finish, Phase, going, Event, take_at, execute_trace, process_node_result,
  drain_result, joined, drained, step, Reachable, start, next, no_tasks, is_empty,
}
use xerv.Executor.Run.Invariant.{IsSound, IsOrdered, IsDraining, IsPhaseGood, turn-IsPhaseGood}
use xerv.Executor.Run.Background.{
  IsBackgroundOf, background-IsBackgroundOf, background-IsPhaseGood, background-IsDraining,
}
use xerv.Executor.Run.Induction.{step-cases}
use xerv.Executor.Run.Recorded.{
  dropped-IsDrainSound, drain-IsSound, recorded-turn, recorded-IsDraining,
}

module _ {V : Type 0} where
  processed-IsPhaseGood :
      (texts : Texts V) (id : ℕ) (x : Execution V) (r : JoinResult V) (rest : List (JoinResult V))
      (i : ℕ)
      → take_at x.tasks.done i ≡ some (r, rest)
      → IsPhaseGood id (going x)
      → IsPhaseGood id
          (process_node_result texts id (record x { tasks = record x.tasks { done = rest } }) r)
  unfolding process_node_result
  processed-IsPhaseGood texts id x (finished k (ok (complete p d h))) rest i q g =
      recorded-turn id k (complete p d h) x rest i q texts refl g
  processed-IsPhaseGood texts id x (finished k (ok (error m d))) rest i q g =
      recorded-turn id k (error m d) x rest i q texts refl g
  processed-IsPhaseGood texts id x (finished k (ok (suspend r p))) rest i q (o, g) =
      λ t known. dropped-IsDrainSound x rest i q t (drain-IsSound x t (g t known).0)
  processed-IsPhaseGood texts id x (finished k (err e)) rest i q g = tt
  processed-IsPhaseGood texts id x (panicked k) rest i q g = tt

  drained-IsDraining :
      (id : ℕ) (x : Execution V) (r : JoinResult V) (rest : List (JoinResult V)) (i : ℕ)
      → take_at x.tasks.done i ≡ some (r, rest)
      → IsDraining id x
      → IsDraining id (drain_result id (record x { tasks = record x.tasks { done = rest } }) r)
  unfolding drain_result
  drained-IsDraining id x (finished k (ok (complete p d h))) rest i q g =
      recorded-IsDraining id k (complete p d h) x rest i q refl g
  drained-IsDraining id x (finished k (ok (error m d))) rest i q g =
      recorded-IsDraining id k (error m d) x rest i q refl g
  drained-IsDraining id x (finished k (ok (suspend r p))) rest i q g =
      λ t known. dropped-IsDrainSound x rest i q t (g t known)
  drained-IsDraining id x (finished k (err e)) rest i q g =
      λ t known. dropped-IsDrainSound x rest i q t (g t known)
  drained-IsDraining id x (panicked k) rest i q g =
      λ t known. dropped-IsDrainSound x rest i q t (g t known)

  abbrev IsGoodIf : ℕ → Option (Phase V) → Type 0
  IsGoodIf id none = Unit
  IsGoodIf id (some p) = IsPhaseGood id p

  going-IsGoodIf :
      (id : ℕ) (x : Execution V) (o : Option (Execution V))
      → IsBackgroundOf id x o
      → IsPhaseGood id (going x)
      → IsGoodIf id (map_going o)
  going-IsGoodIf id x none b g = tt
  going-IsGoodIf id x (some y) b g = background-IsPhaseGood id x y b g

  draining-IsGoodIf :
      (id : ℕ) (x : Execution V) (k : ℕ) (r : SuspensionRequest V) (p : RelPtr)
      (o : Option (Execution V))
      → IsBackgroundOf id x o
      → IsDraining id x
      → IsGoodIf id (map_draining k r p o)
  draining-IsGoodIf id x k r p none b g = tt
  draining-IsGoodIf id x k r p (some y) b g = background-IsDraining id x y b g

  joined-IsGoodIf :
      (texts : Texts V) (id : ℕ) (x : Execution V) (i : ℕ)
      → IsPhaseGood id (going x)
      → IsGoodIf id (joined texts id x (take_at x.tasks.done i))
  unfolding joined
  joined-IsGoodIf texts id x i g = elim (Option-cases (take_at x.tasks.done i)) [
    | inl q ↦ rw (joined, q) tt
    | inr ((r, rest), q) ↦ rw (joined, q) (processed-IsPhaseGood texts id x r rest i q g)
  ]

  drained-IsGoodIf :
      (id : ℕ) (x : Execution V) (i k : ℕ) (r : SuspensionRequest V) (p : RelPtr)
      → IsDraining id x
      → IsGoodIf id (drained id x k r p (take_at x.tasks.done i))
  unfolding drained
  drained-IsGoodIf id x i k r p g = elim (Option-cases (take_at x.tasks.done i)) [
    | inl q ↦ rw (drained, q) tt
    | inr ((result, rest), q) ↦ rw (drained, q) (drained-IsDraining id x result rest i q g)
  ]

  stopped-IsGoodIf :
      (id : ℕ) (b : Bool) (result : Executor V × XervResult (Unit {0}))
      → IsGoodIf id (if b then some (finish result) else none)
  stopped-IsGoodIf id true result = tt
  stopped-IsGoodIf id false result = tt

  module _ (json : Json V) (texts : Texts V) (id : ℕ) where
    step-IsGoodIf :
        (p : Phase V) (e : Event V) → IsPhaseGood id p → IsGoodIf id (step json texts id p e)
    step-IsGoodIf =
        step-cases json texts id (λ p e o. IsPhaseGood id p → IsGoodIf id o)
          (record {
            over = λ ex result e g. tt;
            joins = λ x i g. joined-IsGoodIf texts id x i g;
            finalizes = λ x now io g. stopped-IsGoodIf id (is_empty x.tasks) _;
            goes = λ x e g. going-IsGoodIf id x _ (background-IsBackgroundOf texts id x e) g;
            drains = λ x k r p i g. drained-IsGoodIf id x i k r p g;
            suspends = λ x k r p now flush io g. stopped-IsGoodIf id (is_empty x.tasks) _;
            drains_on = λ x k r p e g.
                draining-IsGoodIf id x k r p _ (background-IsBackgroundOf texts id x e) g;
          })

    -- The trace that is executed, when it starts.
    module _ (ex : Executor V) (ordered : IsOrdered ex)
        (fresh : (t : TraceState V) → HashMap.get ex.traces id ≡ some t → IsFresh t) where
      started-IsSound :
          (t : TraceState V)
          → HashMap.get ex.traces id ≡ some t
          → IsSound t (record { executor = ex; spawned = []; tasks = no_tasks })
      unfolding HashMap.get
      started-IsSound t q = record {
        are_outputs = (fresh t q).are_outputs;
        once = λ j. ground arith;
        executes = λ j. ground (arith, (fresh t q).idle j);
        activated = λ j h. absurd (ground arith);
      }

      execute_trace-IsPhaseGood : IsPhaseGood id (execute_trace texts id ex)
      unfolding execute_trace
      execute_trace-IsPhaseGood = elim (Bool-cases (contains_key ex.traces id)) [
        | inl q ↦ rw (execute_trace, q) (turn-IsPhaseGood texts id _ ordered started-IsSound)
        | inr q ↦ rw (execute_trace, q) tt
      ]

      pub Reachable-IsPhaseGood : (p : Phase V) → Reachable json texts id ex p → IsPhaseGood id p
      Reachable-IsPhaseGood _ start = execute_trace-IsPhaseGood
      Reachable-IsPhaseGood _ (next p e q r h) =
          rw h at (step-IsGoodIf p e (Reachable-IsPhaseGood p r))
