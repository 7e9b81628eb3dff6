-- ===== src/Executor/Run/Induction.antt =====
-- The cases of a step, once for all.
use xerv.Prelude.{
  ℕ, ◌≡◌, Option, none, some, List, [], ◌∷◌, if◌then◌else◌, Option-cases, inl, inr, arith,
}
use xerv.NodeOutput.{SuspensionRequest, RelPtr}
use xerv.Errors.{XervResult}
use xerv.Suspension.{Json}
use xerv.Executor.{Executor, Texts, Execution, finalize_trace}
use xerv.Executor.Suspend.{suspend_trace}
use xerv.Executor.Run.{
  Phase, going, draining, stopped, Event, acquire, work, panic, join, finalize, suspend_now,
  other_trace, other_removed, other_logged, take_at, background, joined, drained, map_going,
  map_draining, finish, is_empty, step, Reachable, next,
}

-- A step of a stopped execution, of the loop, of the loop that drains the tasks, or in the background.
pub record Cases {V : Type 0} (json : Json V) (texts : Texts V) (id : ℕ)
    (R : Phase V → Event V → Option (Phase V) → Type 0) : Type 0 where
  pub over :
      (ex : Executor V) (result : XervResult (Unit {0})) (e : Event V)
      → R (stopped ex result) e none
  pub joins :
      (x : Execution V) (i : ℕ) → R (going x) (join i) (joined texts id x (take_at x.tasks.done i))
  pub finalizes :
      (x : Execution V) (now : ℕ) (io : XervResult (Unit {0}))
      → R
          (going x)
          (finalize now io)
          (if is_empty x.tasks then some (finish (finalize_trace x.executor id now io)) else none)
  pub goes : (x : Execution V) (e : Event V) → R (going x) e (map_going (background texts id x e))
  pub drains :
      (x : Execution V) (k : ℕ) (r : SuspensionRequest V) (p : RelPtr) (i : ℕ)
      → R (draining x k r p) (join i) (drained id x k r p (take_at x.tasks.done i))
  pub suspends :
      (x : Execution V) (k : ℕ) (r : SuspensionRequest V) (p : RelPtr) (now : ℕ)
      (flush io : XervResult (Unit {0}))
      → R (draining x k r p) (suspend_now now flush io) (
          if is_empty x.tasks
          then some (finish (suspend_trace json texts x.executor now id k r p flush io))
          else none)
  pub drains_on :
      (x : Execution V) (k : ℕ) (r : SuspensionRequest V) (p : RelPtr) (e : Event V)
      → R (draining x k r p) e (map_draining k r p (background texts id x e))

module _ {V : Type 0} (json : Json V) (texts : Texts V) (id : ℕ)
    (R : Phase V → Event V → Option (Phase V) → Type 0) (cases_ : Cases json texts id R) where
  pub step-cases : (p : Phase V) (e : Event V) → R p e (step json texts id p e)
  unfolding step
  step-cases (stopped ex result) e = cases_.over ex result e
  step-cases (going x) (join i) = cases_.joins x i
  step-cases (going x) (finalize now io) = cases_.finalizes x now io
  step-cases (going x) (acquire i) = cases_.goes x (acquire i)
  step-cases (going x) (work i answer now io) = cases_.goes x (work i answer now io)
  step-cases (going x) (panic i) = cases_.goes x (panic i)
  step-cases (going x) (suspend_now now flush io) = cases_.goes x (suspend_now now flush io)
  step-cases (going x) (other_trace k t) = cases_.goes x (other_trace k t)
  step-cases (going x) (other_removed k) = cases_.goes x (other_removed k)
  step-cases (going x) (other_logged r) = cases_.goes x (other_logged r)
  step-cases (draining x k r p) (join i) = cases_.drains x k r p i
  step-cases (draining x k r p) (suspend_now now flush io) = cases_.suspends x k r p now flush io
  step-cases (draining x k r p) (acquire i) = cases_.drains_on x k r p (acquire i)
  step-cases (draining x k r p) (work i answer now io) =
      cases_.drains_on x k r p (work i answer now io)
  step-cases (draining x k r p) (panic i) = cases_.drains_on x k r p (panic i)
  step-cases (draining x k r p) (finalize now io) = cases_.drains_on x k r p (finalize now io)
  step-cases (draining x k r p) (other_trace j t) = cases_.drains_on x k r p (other_trace j t)
  step-cases (draining x k r p) (other_removed j) = cases_.drains_on x k r p (other_removed j)
  step-cases (draining x k r p) (other_logged s) = cases_.drains_on x k r p (other_logged s)

module _ {V : Type 0} (json : Json V) (texts : Texts V) (id : ℕ) where
  -- The phase after some events, if they can happen.
  unfoldable pub run : Phase V → List (Event V) → Option (Phase V)
  run p [] = some p
  run p (e ∷ es) = elim (step json texts id p e) [ none ↦ none | some q ↦ run q es ]

  pub run-Reachable :
      (ex : Executor V) (p : Phase V) (es : List (Event V)) (q : Phase V)
      → Reachable json texts id ex p
      → run p es ≡ some q
      → Reachable json texts id ex q
  unfolding run
  run-Reachable ex p [] q r h = let same : p ≡ q = cc in rw same at r
  run-Reachable ex p (e ∷ es) q r h = elim (Option-cases (step json texts id p e)) [
    | inl f ↦ absurd (ground arith)
    | inr (p', f) ↦ run-Reachable ex p' es q (next p e p' r f) (rw (run, f) at h)
  ]
