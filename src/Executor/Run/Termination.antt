-- ===== src/Executor/Run/Termination.antt =====
-- The loop of `execute_trace` ends: its own steps use up a measure. The tasks that run at once never
-- exceed the permits.
use xerv.Prelude.{
  ℕ, zero, suc, ◌+◌, ◌≤◌, ◌≡◌, refl, Bool, true, false, Option, none, some, List, [], ◌∷◌, arith,
  if◌then◌else◌, nat_eq, ok, err, Bool-cases, Option-cases, inl, inr, length, length-append, ltb,
  ◌==◌,
}
use xerv.HashMap
use xerv.HashMap.{contains_key}
use xerv.Errors.{XervResult}
use xerv.NodeOutput.{NodeOutput, SuspensionRequest, RelPtr, complete, error, suspend}
use xerv.Executor.{
  Executor, Texts, JoinResult, finished, panicked, Execution, change_trace, write,
  execute_single_node,
}
use xerv.Executor.Run.{
  Phase, going, draining, stopped, Event, acquire, work, panic, join, finalize, suspend_now,
  other_trace, other_removed, other_logged, take_at, turn, process_node_result, drain_result,
  background, worked, joined, drained, record_in, map_going, map_draining, finish,
}
use xerv.Executor.Run.Background.{execute_single_node-wal}
use xerv.Executor.Run.Invariant.{IsOrdered}
use xerv.Executor.Run.Turn.{
  potential, IsLess, IsLess-trans, IsLess-refl, IsLessPhase, IsLessPhase-trans, turn-IsLessPhase,
}

pub length-take_at :
    {A : Type 0} (xs : List A) (i : ℕ) {y : A} {ys : List A}
    → take_at xs i ≡ some (y, ys)
    → length xs ≡ suc (length ys)
unfolding take_at
length-take_at [] i h = ground arith
length-take_at (x ∷ xs) zero h = ground arith
length-take_at (x ∷ xs) (suc i) h = elim (Option-cases (take_at xs i)) [
  | inl q ↦ ground arith
  | inr ((z, zs), q) ↦ ground (arith, length-take_at xs i q)
]

module _ {V : Type 0} where
  -- A step of the trace itself: a task's, or the loop's.
  abbrev pub own : Event V → ℕ
  own (other_trace _ _) = 0
  own (other_removed _) = 0
  own (other_logged _) = 0
  own _ = 1

  abbrev pub IsLessIf : ℕ → Execution V → Option (Execution V) → Type 0
  IsLessIf n x none = Unit
  IsLessIf n x (some y) = IsLess n x y

  elsewhere :
      (x : Execution V) (ex : Executor V)
      → ex.config ≡ x.executor.config
      → ex.execution_order ≡ x.executor.execution_order
      → IsLess 0 x (record x { executor = ex })
  elsewhere x ex c o = record {
    same_config = c;
    same_order = o;
    less = rw o (omega arith);
    permits = λ h. rw c h;
  }

  pub background-IsLessIf :
      (texts : Texts V) (id : ℕ) (x : Execution V) (e : Event V)
      → IsLessIf (own e) x (background texts id x e)
  unfolding background worked write
  background-IsLessIf texts id x (acquire i) = elim (Option-cases (take_at x.tasks.waiting i)) [
    | inl q ↦ rw (background, q) tt
    | inr ((task, rest), q) ↦
        elim (Bool-cases (ltb (length x.tasks.running) x.executor.config.max_concurrent_nodes)) [
          | inl b ↦
              rw (background, q, b)
                (record {
                  same_config = refl;
                  same_order = refl;
                  less = omega (
                    arith,
                    length-take_at x.tasks.waiting i q,
                    length-append x.tasks.running (task ∷ []),
                  );
                  permits = λ h. ground (arith, length-append x.tasks.running (task ∷ []), b);
                })
          | inr b ↦ rw (background, q, b) tt
        ]
  ]
  background-IsLessIf texts id x (work i answer now io) =
      elim (Option-cases (take_at x.tasks.running i)) [
        | inl q ↦ rw (background, q) tt
        | inr ((task, rest), q) ↦
            let l = length-take_at x.tasks.running i q in
            rw
              (
                background,
                q,
                execute_single_node-wal texts now id task.node_id answer io x.executor,
              )
              (record {
                same_config = refl;
                same_order = refl;
                less = omega (
                  arith,
                  l,
                  length-append x.tasks.done (
                      finished task.node_id
                        (execute_single_node texts now id task.node_id answer io x.executor).1
                      ∷ []),
                );
                permits = λ h. omega (arith, l);
              })
      ]
  background-IsLessIf texts id x (panic i) = elim (Option-cases (take_at x.tasks.running i)) [
    | inl q ↦ rw (background, q) tt
    | inr ((task, rest), q) ↦
        let l = length-take_at x.tasks.running i q in
        rw (background, q)
          (record {
            same_config = refl;
            same_order = refl;
            less = omega (arith, l, length-append x.tasks.done (panicked task.node_id ∷ []));
            permits = λ h. omega (arith, l);
          })
  ]
  background-IsLessIf texts id x (join i) = tt
  background-IsLessIf texts id x (finalize now io) = tt
  background-IsLessIf texts id x (suspend_now now flush io) = tt
  background-IsLessIf texts id x (other_trace k t) = elim (Bool-cases (k == id)) [
    | inl b ↦ rw (background, b) tt
    | inr b ↦ rw (background, b) (elsewhere x _ refl refl)
  ]
  background-IsLessIf texts id x (other_removed k) = elsewhere x _ refl refl
  background-IsLessIf texts id x (other_logged r) = elim (Bool-cases (r.trace_id == id)) [
    | inl b ↦ rw (background, b) tt
    | inr b ↦ rw (background, b, write) (elsewhere x _ refl refl)
  ]

  recorded-IsLess :
      (id : ℕ) (x : Execution V) (k : ℕ) (o : NodeOutput V) → IsLess 0 x (record_in id x k o)
  unfolding change_trace
  recorded-IsLess id x k o = elim (Option-cases (HashMap.get x.executor.traces id)) [
    | inl q ↦ rw (change_trace, q) (elsewhere x _ refl refl)
    | inr (t, q) ↦ rw (change_trace, q) (elsewhere x _ refl refl)
  ]

  module _ (texts : Texts V) (id : ℕ) where
    taken-IsLess :
        (x : Execution V) (i : ℕ) {r : JoinResult V} {rest : List (JoinResult V)}
        → take_at x.tasks.done i ≡ some (r, rest)
        → IsLess 1 x (record x { tasks = record x.tasks { done = rest } })
    taken-IsLess x i q = record {
      same_config = refl;
      same_order = refl;
      less = omega (arith, length-take_at x.tasks.done i q);
      permits = λ h. h;
    }

    recorded-turn-IsLessPhase :
        (x : Execution V) (k : ℕ) (o : NodeOutput V)
        → IsOrdered x.executor
        → IsLessPhase 0 x (turn texts id (record_in id x k o))
    recorded-turn-IsLessPhase x k o ordered =
        let l = recorded-IsLess id x k o in
        IsLessPhase-trans texts id x (record_in id x k o) _ l
          (turn-IsLessPhase texts id (record_in id x k o) (rw l.same_order ordered))

    processed-IsLessPhase :
        (x : Execution V) (r : JoinResult V)
        → IsOrdered x.executor
        → IsLessPhase 0 x (process_node_result texts id x r)
    unfolding process_node_result
    processed-IsLessPhase x (finished k (ok (complete p d h))) o =
        recorded-turn-IsLessPhase x k (complete p d h) o
    processed-IsLessPhase x (finished k (ok (error m d))) o =
        recorded-turn-IsLessPhase x k (error m d) o
    processed-IsLessPhase x (finished k (ok (suspend r p))) o = IsLess-refl x
    processed-IsLessPhase x (finished k (err e)) o = tt
    processed-IsLessPhase x (panicked k) o = tt

    drained-IsLess : (x : Execution V) (r : JoinResult V) → IsLess 0 x (drain_result id x r)
    unfolding drain_result
    drained-IsLess x (finished k (ok (complete p d h))) = recorded-IsLess id x k (complete p d h)
    drained-IsLess x (finished k (ok (error m d))) = recorded-IsLess id x k (error m d)
    drained-IsLess x (finished k (ok (suspend r p))) = IsLess-refl x
    drained-IsLess x (finished k (err e)) = IsLess-refl x
    drained-IsLess x (panicked k) = IsLess-refl x

  -- What is left to do in a phase.
  abbrev pub work_left : Phase V → ℕ
  work_left (going x) = suc (potential x)
  work_left (draining x _ _ _) = suc (potential x)
  work_left (stopped ex result) = 0

  -- The order has no duplicates, and no more tasks run than there are permits.
  abbrev pub IsWithin : Execution V → Type 0
  IsWithin x =
      IsOrdered x.executor × (length x.tasks.running ≤ x.executor.config.max_concurrent_nodes)

  abbrev pub IsWithinPhase : Phase V → Type 0
  IsWithinPhase (going x) = IsWithin x
  IsWithinPhase (draining x _ _ _) = IsWithin x
  IsWithinPhase (stopped ex result) = Unit

  abbrev pub IsNextIf : ℕ → ℕ → Option (Phase V) → Type 0
  IsNextIf n before none = Unit
  IsNextIf n before (some p) = (n + work_left p ≤ before) × IsWithinPhase p

  pub IsLess-IsWithin : {n : ℕ} (x y : Execution V) → IsLess n x y → IsWithin x → IsWithin y
  IsLess-IsWithin x y l (o, p) = (rw l.same_order o, l.permits p)

  IsLessPhase-IsNextIf :
      {n : ℕ} (x : Execution V) (p : Phase V)
      → n ≤ 1
      → IsWithin x
      → IsLessPhase n x p
      → IsNextIf n (suc (potential x)) (some p)
  IsLessPhase-IsNextIf x (going y) h w l = (omega (arith, l.less), IsLess-IsWithin x y l w)
  IsLessPhase-IsNextIf x (draining y k r p) h w l = (omega (arith, l.less), IsLess-IsWithin x y l w)
  IsLessPhase-IsNextIf x (stopped ex result) h w l = (omega arith, tt)

  pub going-IsNextIf :
      {n : ℕ} (x : Execution V) (o : Option (Execution V))
      → n ≤ 1
      → IsWithin x
      → IsLessIf n x o
      → IsNextIf n (suc (potential x)) (map_going o)
  going-IsNextIf x none h w l = tt
  going-IsNextIf x (some y) h w l = IsLessPhase-IsNextIf x (going y) h w l

  pub draining-IsNextIf :
      {n : ℕ} (x : Execution V) (k : ℕ) (r : SuspensionRequest V) (p : RelPtr)
      (o : Option (Execution V))
      → n ≤ 1
      → IsWithin x
      → IsLessIf n x o
      → IsNextIf n (suc (potential x)) (map_draining k r p o)
  draining-IsNextIf x k r p none h w l = tt
  draining-IsNextIf x k r p (some y) h w l = IsLessPhase-IsNextIf x (draining y k r p) h w l

  pub own_le : (e : Event V) → own e ≤ 1
  own_le (acquire i) = omega arith
  own_le (work i answer now io) = omega arith
  own_le (panic i) = omega arith
  own_le (join i) = omega arith
  own_le (finalize now io) = omega arith
  own_le (suspend_now now flush io) = omega arith
  own_le (other_trace k t) = omega arith
  own_le (other_removed k) = omega arith
  own_le (other_logged r) = omega arith

  module _ (texts : Texts V) (id : ℕ) (x : Execution V) (w : IsWithin x) where
    pub joined-IsNextIf :
        (i : ℕ) → IsNextIf 1 (suc (potential x)) (joined texts id x (take_at x.tasks.done i))
    unfolding joined
    joined-IsNextIf i = elim (Option-cases (take_at x.tasks.done i)) [
      | inl q ↦ rw (joined, q) tt
      | inr ((r, rest), q) ↦
          let l = taken-IsLess texts id x i q in
          rw (joined, q)
            (IsLessPhase-IsNextIf x _ (omega arith) w
              (IsLessPhase-trans texts id x _ _ l (processed-IsLessPhase texts id _ r w.0)))
    ]

    pub drained-IsNextIf :
        (i k : ℕ) (r : SuspensionRequest V) (p : RelPtr)
        → IsNextIf 1 (suc (potential x)) (drained id x k r p (take_at x.tasks.done i))
    unfolding drained
    drained-IsNextIf i k r p = elim (Option-cases (take_at x.tasks.done i)) [
      | inl q ↦ rw (drained, q) tt
      | inr ((result, rest), q) ↦
          let l = taken-IsLess texts id x i q in
          rw (drained, q)
            (IsLessPhase-IsNextIf x (draining _ k r p) (omega arith) w
              (IsLess-trans x _ _ l (drained-IsLess texts id _ result)))
    ]

    pub stopped-IsNextIf :
        (b : Bool) (result : Executor V × XervResult (Unit {0}))
        → IsNextIf 1 (suc (potential x)) (if b then some (finish result) else none)
    stopped-IsNextIf true result = (omega arith, tt)
    stopped-IsNextIf false result = tt
