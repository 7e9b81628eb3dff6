-- ===== src/Executor/Run/Recorded.antt =====
-- A result that `join_next` returns, and recording its output.
use xerv.Prelude.{
  ℕ, ◌+◌, ◌≡◌, refl, some, List, arith, nat_eq, nat_beq_iff, ◌==◌, Option-cases, inl, inr,
}
use xerv.HashMap
use xerv.HashMap.{contains_key}
use xerv.HashMap.Laws.{get-insert, get-remove}
use xerv.NodeOutput.{NodeOutput}
use xerv.TraceState.{TraceState, record_output}
use xerv.TraceState.Laws.{is_activated-record_output, record_output-AreOutputs}
use xerv.Executor.{Texts, JoinResult, Execution, change_trace}
use xerv.Executor.Run.{going, take_at, turn, record_in}
use xerv.Executor.Run.Invariant.{
  bit, result_id, tasks_of, IsSound, IsDrainSound, IsDraining, IsPhaseGood, turn-IsPhaseGood,
}
use xerv.Executor.Run.Background.{occurs-take_at}

module _ {V : Type 0} where
  module _ (x : Execution V) (rest : List (JoinResult V)) where
    abbrev pub without : Execution V
    without = record x { tasks = record x.tasks { done = rest } }

    module _ (i : ℕ) {r : JoinResult V} (taken : take_at x.tasks.done i ≡ some (r, rest)) where
      pub taken-tasks_of :
          (j : ℕ) → tasks_of j x.tasks ≡ bit (result_id r == j) + tasks_of j without.tasks
      taken-tasks_of j = ground (arith, occurs-take_at result_id j x.tasks.done i taken)

      pub dropped-IsDrainSound : (t : TraceState V) → IsDrainSound t x → IsDrainSound t without
      dropped-IsDrainSound t s = record {
        are_outputs = s.are_outputs;
        at_most_once = λ j. ground (arith, s.at_most_once j, taken-tasks_of j);
        activated = s.activated;
      }

  pub drain-IsSound : (x : Execution V) (t : TraceState V) → IsSound t x → IsDrainSound t x
  drain-IsSound x t s = record {
    are_outputs = s.are_outputs;
    at_most_once = λ j. ground (arith, s.once j);
    activated = s.activated;
  }

  -- A result is taken out of the set, and recorded.
  module _ (id k : ℕ) (o : NodeOutput V) (x : Execution V) (rest : List (JoinResult V)) (i : ℕ)
      {r : JoinResult V} (taken : take_at x.tasks.done i ≡ some (r, rest)) where
    pub recorded-trace :
        (t : TraceState V)
        → HashMap.get (record_in id (without x rest) k o).executor.traces id ≡ some t
        → (t' : TraceState V) × (HashMap.get x.executor.traces id ≡ some t')
          × (record_output t' k o ≡ t)
    unfolding change_trace
    recorded-trace t h = elim (Option-cases (HashMap.get x.executor.traces id)) [
      | inl q ↦ absurd (ground (arith, q, rw (change_trace, q) at h))
      | inr (t', q) ↦
          let inserted = get-insert x.executor.traces id id (record_output t' k o) in
          (t', q, ground (arith, rw (change_trace, q) at h, inserted, nat_beq_iff id id))
    ]

    recorded-fields :
        ((record_in id (without x rest) k o).executor.graph ≡ x.executor.graph)
        × ((record_in id (without x rest) k o).executor.execution_order
            ≡ x.executor.execution_order)
    unfolding change_trace
    recorded-fields = elim (Option-cases (HashMap.get x.executor.traces id)) [
      | inl q ↦ rw (change_trace, q) (refl, refl)
      | inr (t', q) ↦ rw (change_trace, q) (refl, refl)
    ]

    recorded-IsSound :
        (t : TraceState V)
        → result_id r ≡ k
        → IsSound t x
        → IsSound (record_output t k o) (record_in id (without x rest) k o)
    unfolding record_output
    recorded-IsSound t own s = record {
      are_outputs = record_output-AreOutputs t k o s.are_outputs;
      once = λ j. ground (
        arith,
        s.once j,
        taken-tasks_of x rest i taken j,
        own,
        nat_beq_iff k j,
        get-insert t.completed k j tt,
      );
      executes = λ j. ground (
        arith,
        s.executes j,
        s.once j,
        taken-tasks_of x rest i taken j,
        own,
        nat_beq_iff k j,
        get-remove t.executing k j,
      );
      activated = λ j h. rw (recorded-fields.0) (
          is_activated-record_output t k j o x.executor.graph
            (ground (
              arith,
              s.once k,
              taken-tasks_of x rest i taken k,
              own,
              s.are_outputs k,
              nat_beq_iff k k,
            ))
            (s.activated j h));
    }

    recorded-IsDrainSound :
        (t : TraceState V)
        → result_id r ≡ k
        → IsDrainSound t x
        → IsDrainSound (record_output t k o) (record_in id (without x rest) k o)
    unfolding record_output
    recorded-IsDrainSound t own s = record {
      are_outputs = record_output-AreOutputs t k o s.are_outputs;
      at_most_once = λ j. ground (
        arith,
        s.at_most_once j,
        taken-tasks_of x rest i taken j,
        own,
        nat_beq_iff k j,
        get-insert t.completed k j tt,
      );
      activated = λ j h. rw (recorded-fields.0) (
          is_activated-record_output t k j o x.executor.graph
            (ground (
              arith,
              s.at_most_once k,
              taken-tasks_of x rest i taken k,
              own,
              s.are_outputs k,
              nat_beq_iff k k,
            ))
            (s.activated j h));
    }

    pub recorded-turn :
        (texts : Texts V)
        → result_id r ≡ k
        → IsPhaseGood id (going x)
        → IsPhaseGood id (turn texts id (record_in id (without x rest) k o))
    recorded-turn texts own (ordered, g) =
        turn-IsPhaseGood texts id (record_in id (without x rest) k o)
          (rw (recorded-fields.1) ordered)
          (λ t h.
            let (t', q, same) = recorded-trace t h in
            rw same at (recorded-IsSound t' own (g t' q).0))

    pub recorded-IsDraining :
        result_id r ≡ k → IsDraining id x → IsDraining id (record_in id (without x rest) k o)
    recorded-IsDraining own g t h =
        let (t', q, same) = recorded-trace t h in rw same at (recorded-IsDrainSound t' own (g t' q))
