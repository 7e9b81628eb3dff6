-- ===== src/Executor/Run/Durable/Holds.antt =====
-- What the log holds wherever the loop of `execute_trace` awaits.
use xerv.Prelude.{
  ℕ, ◌≡◌, String, Bool, true, false, Option, none, some, arith, if◌then◌else◌, nat_eq, Option-cases,
  Bool-cases, inl, inr,
}
use xerv.HashMap
use xerv.HashMap.{contains_key}
use xerv.Errors.{XervResult}
use xerv.NodeOutput.{RelPtr, SuspensionRequest, complete}
use xerv.Suspension.{Json}
use xerv.TraceState.{TraceState}
use xerv.TraceState.Laws.{IsFresh}
use xerv.Wal.Reader.Located.{is_found, location}
use xerv.Executor.{Executor, Texts, Execution}
use xerv.Executor.Run.{Phase, going, draining, stopped, Event, take_at}
use xerv.Executor.Run.Invariant.{is_spawned, IsPhaseGood}
use xerv.Executor.Run.Durable.{located_at, AreLogged, AreLoggedPhase}
use xerv.Executor.Run.{
  execute_trace, joined, drained, step, Reachable, start, next, map_going, map_draining, finish,
  is_empty,
}
use xerv.Executor.Run.Invariant.{IsOrdered}
use xerv.Executor.Run.Recorded.{drain-IsSound}
use xerv.Executor.Run.Steps.{Reachable-IsPhaseGood}
use xerv.Executor.Run.Durable.Turn.{turn-AreLogged}
use xerv.Executor.Run.Durable.Steps.{AreLoggedIf, AreSound, background-AreLogged}
use xerv.Executor.Run.{execution_of}
use xerv.Executor.Run.Induction.{step-cases}
use xerv.Executor.Run.Durable.Log.{processed-AreLogged, drained-AreLogged}

module _ {V : Type 0} (id : ℕ) where
  abbrev IsLoggedIf : Option (Phase V) → Type 0
  IsLoggedIf none = Unit
  IsLoggedIf (some p) = AreLoggedPhase id p

  abbrev AreSoundPhase : Texts V → Phase V → Type 0
  AreSoundPhase texts (going x) = AreSound texts id x
  AreSoundPhase texts (draining x _ _ _) = AreSound texts id x
  AreSoundPhase texts (stopped ex result) = Unit

  good-AreSound : (texts : Texts V) (p : Phase V) → IsPhaseGood id p → AreSoundPhase texts p
  good-AreSound texts (going x) g = λ t known. drain-IsSound x t (g.1 t known).0
  good-AreSound texts (draining x k r p) g = g
  good-AreSound texts (stopped ex result) g = tt

  going-IsLoggedIf :
      (texts : Texts V) (o : Option (Execution V))
      → AreLoggedIf texts id o
      → IsLoggedIf (map_going o)
  going-IsLoggedIf texts none l = tt
  going-IsLoggedIf texts (some y) l = l

  draining-IsLoggedIf :
      (texts : Texts V) (k : ℕ) (r : SuspensionRequest V) (p : RelPtr) (o : Option (Execution V))
      → AreLoggedIf texts id o
      → IsLoggedIf (map_draining k r p o)
  draining-IsLoggedIf texts k r p none l = tt
  draining-IsLoggedIf texts k r p (some y) l = l

  stopped-IsLoggedIf :
      (b : Bool) (result : Executor V × XervResult (Unit {0}))
      → IsLoggedIf (if b then some (finish result) else none)
  stopped-IsLoggedIf true result = tt
  stopped-IsLoggedIf false result = tt

  module _ (texts : Texts V) (x : Execution V) where
    joined-IsLoggedIf :
        (i : ℕ)
        → AreSound texts id x
        → AreLogged id x
        → IsLoggedIf (joined texts id x (take_at x.tasks.done i))
    unfolding joined
    joined-IsLoggedIf i s l = elim (Option-cases (take_at x.tasks.done i)) [
      | inl q ↦ rw (joined, q) tt
      | inr ((r, rest), q) ↦ rw (joined, q) (processed-AreLogged id texts x r rest i q s l)
    ]

    drained-IsLoggedIf :
        (i k : ℕ) (r : SuspensionRequest V) (p : RelPtr)
        → AreLogged id x
        → IsLoggedIf (drained id x k r p (take_at x.tasks.done i))
    unfolding drained
    drained-IsLoggedIf i k r p l = elim (Option-cases (take_at x.tasks.done i)) [
      | inl q ↦ rw (drained, q) tt
      | inr ((result, rest), q) ↦ rw (drained, q) (drained-AreLogged id texts x result rest i q l)
    ]

module _ {V : Type 0} (json : Json V) (texts : Texts V) (id : ℕ) where
  step-IsLoggedIf :
      (p : Phase V) (e : Event V)
      → AreSoundPhase id texts p
      → AreLoggedPhase id p
      → IsLoggedIf id (step json texts id p e)
  step-IsLoggedIf =
      step-cases json texts id
        (λ p e o. AreSoundPhase id texts p → AreLoggedPhase id p → IsLoggedIf id o)
        (record {
          over = λ ex result e s l. tt;
          joins = λ x i s l. joined-IsLoggedIf id texts x i s l;
          finalizes = λ x now io s l. stopped-IsLoggedIf id (is_empty x.tasks) _;
          goes = λ x e s l. going-IsLoggedIf id texts _ (background-AreLogged texts id x s l e);
          drains = λ x k r p i s l. drained-IsLoggedIf id texts x i k r p l;
          suspends = λ x k r p now flush io s l. stopped-IsLoggedIf id (is_empty x.tasks) _;
          drains_on = λ x k r p e s l.
              draining-IsLoggedIf id texts k r p _ (background-AreLogged texts id x s l e);
        })

  module _ (ex : Executor V) (ordered : IsOrdered ex)
      (fresh : (t : TraceState V) → HashMap.get ex.traces id ≡ some t → IsFresh t)
      (started : is_found ex.wal id ≡ true) where
    execute_trace-AreLoggedPhase : AreLoggedPhase id (execute_trace texts id ex)
    unfolding execute_trace HashMap.get
    execute_trace-AreLoggedPhase = elim (Bool-cases (contains_key ex.traces id)) [
      | inl q ↦
          rw (execute_trace, q)
            (turn-AreLogged id texts _ (λ t known. (
              (fresh t known).are_outputs,
              record {
                entry = started;
                outputs = λ k p d h spawned out. absurd (ground arith);
                results = λ j k p d h at. absurd (ground arith);
              },
            )))
      | inr q ↦ rw (execute_trace, q) tt
    ]

    Reachable-AreLoggedPhase : (p : Phase V) → Reachable json texts id ex p → AreLoggedPhase id p
    Reachable-AreLoggedPhase _ start = execute_trace-AreLoggedPhase
    Reachable-AreLoggedPhase _ (next p e q r h) = rw h at (
        step-IsLoggedIf p e
          (good-AreSound id texts p (Reachable-IsPhaseGood json texts id ex ordered fresh p r))
          (Reachable-AreLoggedPhase p r))

    -- The log is ahead of the loop: wherever the loop awaits a task, or drains the tasks before a
    -- suspension, recovery from the log finds every output of a node that this execution spawned and
    -- recorded as complete, at its place in the arena and with its schema hash. The log has the trace's
    -- start, the executor's order has no duplicates, and the trace started with no node executing and
    -- with an output for just its completed nodes.
    pub recorded-location :
        (p : Phase V) (x : Execution V) (t : TraceState V) (k : ℕ) (port : String) (d : RelPtr)
        (h : ℕ)
        → Reachable json texts id ex p
        → execution_of p ≡ some x
        → HashMap.get x.executor.traces id ≡ some t
        → is_spawned x k ≡ true
        → HashMap.get t.outputs k ≡ some (complete port d h)
        → location x.executor.wal id k ≡ some (located_at d h)
    recorded-location (going y) x t k port d h r q known spawned out =
        let same : y ≡ x = cc in
        (rw same at (Reachable-AreLoggedPhase (going y) r) t known).outputs k port d h spawned out
    recorded-location (draining y n s p) x t k port d h r q known spawned out =
        let same : y ≡ x = cc in
        (rw same at (Reachable-AreLoggedPhase (draining y n s p) r) t known).outputs k port d h
          spawned out
    recorded-location (stopped y result) x t k port d h r q known spawned out =
        absurd (ground arith)
