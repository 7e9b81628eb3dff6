-- ===== src/Executor/Run/Durable/Turn.antt =====
-- A turn of the loop keeps the log, the results, and the outputs of the trace.
use xerv.Prelude.{
  ℕ, ◌≡◌, sym, false, some, List, [], ◌∷◌, arith, nat_eq, nat_beq_iff, filter_by, ok, err,
  Option-cases, inl, inr,
}
use xerv.HashMap
use xerv.HashMap.{contains_key}
use xerv.HashMap.Laws.{get-insert}
use xerv.Errors.{XervError, XervResult}
use xerv.TraceState.{TraceState, mark_executing}
use xerv.TraceState.Laws.{AreOutputs, is_node_ready-unfold}
use xerv.Executor.{
  Texts, Execution, spawn, spawn_with, spawn_all, spawn_on, find_ready_nodes, is_due,
}
use xerv.Executor.Run.{turn, spawn_found, after_spawn}
use xerv.Executor.Run.Invariant.{spawned_execution, spawn-cases}
use xerv.Executor.Run.Durable.{AreLogged, AreLoggedPhase, IsLogged}

module _ {V : Type 0} (id : ℕ) where
  -- Every node of a list is without an output in a trace.
  abbrev AreFree : TraceState V → List ℕ → Type 0
  AreFree t [] = Unit
  AreFree t (k ∷ ks) = (contains_key t.outputs k ≡ false) × AreFree t ks

  found-AreFree :
      (x : Execution V) (t : TraceState V) (ks : List ℕ)
      → AreOutputs t
      → AreFree t (filter_by (is_due x.executor t x.spawned) ks)
  found-AreFree x t [] o = tt
  found-AreFree x t (k ∷ ks) o =
      ground (arith, found-AreFree x t ks o, o k, is_node_ready-unfold t k x.executor.graph)

  module _ (texts : Texts V) where
    spawned-IsLogged :
        (k : ℕ) (x : Execution V) (t : TraceState V)
        → contains_key t.outputs k ≡ false
        → IsLogged id t x
        → IsLogged id (mark_executing t k) (spawned_execution texts id k x t)
    unfolding spawned_execution spawn_with mark_executing
    spawned-IsLogged k x t free l = record {
      entry = l.entry;
      outputs = λ j p d h s q.
          l.outputs j p d h (ground (arith, get-insert x.spawned k j tt, nat_beq_iff k j)) q;
      results = l.results;
    }

    -- `t` is the trace's state.
    abbrev Known : Execution V → TraceState V → Type 0
    Known x t = HashMap.get x.executor.traces id ≡ some t

    spawned-Known :
        (k : ℕ) (x : Execution V) (t : TraceState V)
        → Known (spawned_execution texts id k x t) (mark_executing t k)
    unfolding spawned_execution spawn_with
    spawned-Known k x t =
        ground (arith, get-insert x.executor.traces id id (mark_executing t k), nat_beq_iff id id)

    marked-AreFree :
        (k : ℕ) (t : TraceState V) (js : List ℕ) → AreFree t js → AreFree (mark_executing t k) js
    unfolding mark_executing
    marked-AreFree k t [] f = tt
    marked-AreFree k t (j ∷ js) f = (f.0, marked-AreFree k t js f.1)

    spawn_on-error :
        (r : Execution V × XervResult (Unit {0}))
        (later : Execution V → Execution V × XervResult (Unit {0})) {e : XervError}
        → r.1 ≡ err e
        → AreLoggedPhase id (after_spawn (spawn_on r later))
    unfolding spawn_on after_spawn
    spawn_on-error (y, ok _) later h = absurd (ground arith)
    spawn_on-error (y, err e) later h = tt

    only : (x : Execution V) (t : TraceState V) → Known x t → IsLogged id t x → AreLogged id x
    only x t known l t' known' = let same : t ≡ t' = cc in rw same at l

    spawn_all-AreLogged :
        (js : List ℕ) (x : Execution V) (t : TraceState V)
        → Known x t
        → AreFree t js
        → IsLogged id t x
        → AreLoggedPhase id (after_spawn (spawn_all texts id js x))
    unfolding spawn_all after_spawn spawn_on
    spawn_all-AreLogged [] x t known f l = only x t known l
    spawn_all-AreLogged (k ∷ js) x t known f l = elim (spawn-cases texts id k x) [
      | inl (t', q, spawns) ↦
          let same : t ≡ t' = cc in
          rw (spawn_all, spawns, sym same)
            (spawn_all-AreLogged js (spawned_execution texts id k x t) (mark_executing t k)
              (spawned-Known k x t) (marked-AreFree k t js f.1) (spawned-IsLogged k x t f.0 l))
      | inr (e, fails) ↦ spawn_on-error (spawn texts id k x) _ fails
    ]

    pub turn-AreLogged :
        (x : Execution V)
        → ((t : TraceState V)
            → HashMap.get x.executor.traces id ≡ some t
            → AreOutputs t × IsLogged id t x)
        → AreLoggedPhase id (turn texts id x)
    unfolding turn spawn_found find_ready_nodes
    turn-AreLogged x h = elim (Option-cases (HashMap.get x.executor.traces id)) [
      | inl q ↦ rw (turn, find_ready_nodes, q) tt
      | inr (t, q) ↦
          rw (turn, find_ready_nodes, q)
            (spawn_all-AreLogged _ x t q (found-AreFree x t x.executor.execution_order (h t q).0)
              (h t q).1)
    ]
