-- ===== src/Executor/Run/Limits.antt =====
-- How long the loop of `execute_trace` runs, and how many nodes it runs at once.
use xerv.Prelude.{
  ℕ, suc, ◌+◌, ◌*◌, ◌≤◌, ◌≡◌, not, some, [], arith, Bool-cases, inl, inr, nat_eq,
  count_by-le-length, length,
}
use xerv.HashMap.{contains_key}
use xerv.Suspension.{Json}
use xerv.Executor.{Executor, Texts}
use xerv.Executor.Run.{
  Phase, going, draining, stopped, Event, execute_trace, step, Reachable, start, next, is_empty,
  no_tasks,
}
use xerv.Executor.Run.Induction.{step-cases}
use xerv.Executor.Run.Invariant.{IsOrdered}
use xerv.Executor.Run.Turn.{IsLessPhase, turn-IsLessPhase}
use xerv.Executor.Run.Termination.{
  own, work_left, IsWithinPhase, IsNextIf, background-IsLessIf, going-IsNextIf, draining-IsNextIf,
  joined-IsNextIf, drained-IsNextIf, stopped-IsNextIf, own_le, IsLess-IsWithin,
}

abbrev pub HasPermits : {V : Type 0} → Phase V → Type 0
HasPermits (going x) = length x.tasks.running ≤ x.executor.config.max_concurrent_nodes
HasPermits (draining x _ _ _) = length x.tasks.running ≤ x.executor.config.max_concurrent_nodes
HasPermits (stopped _ _) = Unit

module _ {V : Type 0} (json : Json V) (texts : Texts V) (id : ℕ) where
  step-IsNextIf :
      (p : Phase V) (e : Event V)
      → IsWithinPhase p
      → IsNextIf (own e) (work_left p) (step json texts id p e)
  step-IsNextIf =
      step-cases json texts id (λ p e o. IsWithinPhase p → IsNextIf (own e) (work_left p) o)
        (record {
          over = λ ex result e w. tt;
          joins = λ x i w. joined-IsNextIf texts id x w i;
          finalizes = λ x now io w. stopped-IsNextIf texts id x w (is_empty x.tasks) _;
          goes = λ x e w. going-IsNextIf x _ (own_le e) w (background-IsLessIf texts id x e);
          drains = λ x k r p i w. drained-IsNextIf texts id x w i k r p;
          suspends = λ x k r p now flush io w. stopped-IsNextIf texts id x w (is_empty x.tasks) _;
          drains_on = λ x k r p e w.
              draining-IsNextIf x k r p _ (own_le e) w (background-IsLessIf texts id x e);
        })

  -- Any number of steps, `n` of them the trace's own.
  pub data Steps : ℕ → Phase V → Phase V → Type 0 where
    none_yet : (p : Phase V) → Steps 0 p p
    one_more :
        {n : ℕ} (p : Phase V) (e : Event V) (q : Phase V) {r : Phase V}
        → step json texts id p e ≡ some q
        → Steps n q r
        → Steps (own e + n) p r

  steps-le :
      {n : ℕ} (p r : Phase V)
      → Steps n p r
      → IsWithinPhase p
      → (n + work_left r ≤ work_left p) × IsWithinPhase r
  steps-le p r (none_yet _) w = (omega arith, w)
  steps-le p r (one_more _ e q h later) w =
      let one = rw h at (step-IsNextIf p e w) in
      let rest = steps-le q r later one.1 in (omega (arith, one.0, rest.0), rest.1)

  module _ (ex : Executor V) (ordered : IsOrdered ex) where
    turned :
        (p : Phase V)
        → IsLessPhase 0 (record { executor = ex; spawned = []; tasks = no_tasks }) p
        → (work_left p ≤ suc (3 * length ex.execution_order)) × IsWithinPhase p
    turned (going y) l =
        let bound =
          count_by-le-length (λ k. not (contains_key {V = Unit {0}} [] k)) ex.execution_order in
        (omega (arith, l.less, bound), IsLess-IsWithin _ y l (ordered, omega arith))
    turned (draining y k r p) l =
        let bound =
          count_by-le-length (λ k. not (contains_key {V = Unit {0}} [] k)) ex.execution_order in
        (omega (arith, l.less, bound), IsLess-IsWithin _ y l (ordered, omega arith))
    turned (stopped ex' result) l = (omega arith, tt)

    execute_trace-work_left :
        (work_left (execute_trace texts id ex) ≤ suc (3 * length ex.execution_order))
        × IsWithinPhase (execute_trace texts id ex)
    unfolding execute_trace
    execute_trace-work_left = elim (Bool-cases (contains_key ex.traces id)) [
      | inl q ↦ rw (execute_trace, q) (turned _ (turn-IsLessPhase texts id _ ordered))
      | inr q ↦ rw (execute_trace, q) (omega arith, tt)
    ]

    -- Executing a trace ends: whatever the nodes return and however the tasks and the other traces are
    -- scheduled, at most `3 * n + 1` steps are its own, for `n` nodes in the executor's order (a node's
    -- task gets its permit, executes, and is awaited; then the loop returns), provided that the order
    -- has no duplicates.
    pub execute_trace-steps_le :
        {n : ℕ} (p : Phase V)
        → Steps n (execute_trace texts id ex) p
        → n ≤ 3 * length ex.execution_order + 1
    execute_trace-steps_le p steps =
        let start_ = execute_trace-work_left in
        let all = steps-le _ p steps start_.1 in omega (arith, all.0, start_.0)

    Reachable-IsWithinPhase : (p : Phase V) → Reachable json texts id ex p → IsWithinPhase p
    Reachable-IsWithinPhase _ start = execute_trace-work_left.1
    Reachable-IsWithinPhase _ (next p e q r h) =
        (rw h at (step-IsNextIf p e (Reachable-IsWithinPhase p r))).1

    -- No trace ever executes more nodes at once than `max_concurrent_nodes`, in its loop and while it
    -- drains its tasks, provided that the executor's order has no duplicates.
    pub Reachable-HasPermits : (p : Phase V) → Reachable json texts id ex p → HasPermits p
    Reachable-HasPermits (going x) r = (Reachable-IsWithinPhase (going x) r).1
    Reachable-HasPermits (draining x k s p) r = (Reachable-IsWithinPhase (draining x k s p) r).1
    Reachable-HasPermits (stopped ex' result) r = tt
