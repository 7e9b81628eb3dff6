-- ===== src/Executor/Run/Durable/Steps.antt =====
-- Every step of an execution keeps the log ahead of the loop.
use xerv.Prelude.{
  ℕ, ◌≡◌, ◌∙◌, ap, refl, Option, none, some, List, [], ◌∷◌, ◌++◌, arith, nat_eq, nat_beq_iff, ◌==◌,
  Option-cases, Bool-cases, inl, inr, length, ltb,
}
use xerv.HashMap
use xerv.HashMap.{contains_key}
use xerv.HashMap.Laws.{get-insert, get-remove}
use xerv.Errors.{XervResult}
use xerv.TraceState.{TraceState}
use xerv.Wal.Reader.Located.{location, found_other}
use xerv.Executor.{Executor, Texts, Answer, Task, panicked, Execution, execute_single_node, write}
use xerv.Executor.Run.{
  Event, acquire, work, panic, join, finalize, suspend_now, other_trace, other_removed,
  other_logged, take_at, background, worked,
}
use xerv.Executor.Run.Invariant.{IsDrainSound}
use xerv.Wal.Reader.{replay}
use xerv.Executor.Run.Background.{occurs-take_at, execute_single_node-wal}
use xerv.Executor.Run.Durable.{IsLogged, AreLogged}
use xerv.Executor.Run.Durable.Written.{get_elem?-snoc, occurs_result, execute_single_node-IsWritten}

module _ {V : Type 0} (texts : Texts V) (id : ℕ) where
  abbrev pub AreLoggedIf : Option (Execution V) → Type 0
  AreLoggedIf none = Unit
  AreLoggedIf (some y) = AreLogged id y

  -- The sound states of the trace, in either loop.
  abbrev pub AreSound : Execution V → Type 0
  AreSound x = (t : TraceState V) → HashMap.get x.executor.traces id ≡ some t → IsDrainSound t x

  module _ (x : Execution V) (sound : AreSound x) (logged : AreLogged id x) where
    worked-IsLogged :
        (i now : ℕ) (answer : Answer V) (io : XervResult (Unit {0})) (task : Task)
        (rest : List Task) (t : TraceState V)
        → take_at x.tasks.running i ≡ some (task, rest)
        → HashMap.get x.executor.traces id ≡ some t
        → IsLogged id t (
            worked x task rest (execute_single_node texts now id task.node_id answer io x.executor))
    unfolding worked
    worked-IsLogged i now answer io task rest t q known =
        let l = logged t known in
        let s = sound t known in
        let w =
          execute_single_node-IsWritten texts now id task.node_id x.executor l.entry answer io in
        record {
          entry = w.found;
          outputs = λ k p d h spawned out.
              w.others k (
                ground (
                  arith,
                  s.at_most_once k,
                  s.are_outputs k,
                  spawned,
                  out,
                  occurs-take_at (λ t. t.node_id) k x.tasks.running i q,
                  nat_beq_iff task.node_id k,
                ))
              ∙ l.outputs k p d h spawned out;
          results = λ j k p d h at. elim (get_elem?-snoc x.tasks.done _ j at) [
            | inl before ↦
                w.others k (
                  ground (
                    arith,
                    s.at_most_once k,
                    occurs_result x.tasks.done j _ before,
                    occurs-take_at (λ t. t.node_id) k x.tasks.running i q,
                    nat_beq_iff task.node_id k,
                  ))
                ∙ l.results j k p d h before
            | inr new ↦ let same : k ≡ task.node_id = cc in ap (location _ id) same ∙ w.own p d h cc
          ];
        }

    known_before :
        (i now : ℕ) (answer : Answer V) (io : XervResult (Unit {0})) (task : Task)
        (rest : List Task) (t : TraceState V)
        → HashMap.get
            (worked x task rest
              (execute_single_node texts now id task.node_id answer io x.executor)).executor.traces
            id
          ≡ some t
        → HashMap.get x.executor.traces id ≡ some t
    unfolding worked
    known_before i now answer io task rest t known =
        rw (execute_single_node-wal texts now id task.node_id answer io x.executor) at known

    panicked-IsLogged :
        (task : Task) (rest : List Task) (t : TraceState V)
        → HashMap.get x.executor.traces id ≡ some t
        → IsLogged id t (record x {
          tasks = record x.tasks {
            running = rest;
            done = x.tasks.done ++ panicked task.node_id ∷ [];
          };
        })
    panicked-IsLogged task rest t known = record {
      entry = (logged t known).entry;
      outputs = (logged t known).outputs;
      results = λ j k p d h at. elim (get_elem?-snoc x.tasks.done _ j at) [
        | inl before ↦ (logged t known).results j k p d h before
        | inr new ↦ absurd (ground (arith, new))
      ];
    }

    -- A step that leaves the log's reading of the trace, and the results.
    elsewhere-IsLogged :
        (ex : Executor V) (t : TraceState V)
        → HashMap.get x.executor.traces id ≡ some t
        → HashMap.get (replay [] ex.wal) id ≡ HashMap.get (replay [] x.executor.wal) id
        → IsLogged id t (record x { executor = ex })
    elsewhere-IsLogged ex t known same =
        let l = logged t known in
        record {
          entry = rw same l.entry;
          outputs = λ k p d h spawned out. rw same (l.outputs k p d h spawned out);
          results = λ j k p d h at. rw same (l.results j k p d h at);
        }

    pub background-AreLogged : (e : Event V) → AreLoggedIf (background texts id x e)
    unfolding background write
    background-AreLogged (acquire i) = elim (Option-cases (take_at x.tasks.waiting i)) [
      | inl q ↦ rw (background, q) tt
      | inr ((task, rest), q) ↦
          elim (Bool-cases (ltb (length x.tasks.running) x.executor.config.max_concurrent_nodes)) [
            | inl b ↦
                rw (background, q, b)
                  (λ t known. record {
                    entry = (logged t known).entry;
                    outputs = (logged t known).outputs;
                    results = (logged t known).results;
                  })
            | inr b ↦ rw (background, q, b) tt
          ]
    ]
    background-AreLogged (work i answer now io) = elim (Option-cases (take_at x.tasks.running i)) [
      | inl q ↦ rw (background, q) tt
      | inr ((task, rest), q) ↦
          rw (background, q)
            (λ t known.
              worked-IsLogged i now answer io task rest t q
                (known_before i now answer io task rest t known))
    ]
    background-AreLogged (panic i) = elim (Option-cases (take_at x.tasks.running i)) [
      | inl q ↦ rw (background, q) tt
      | inr ((task, rest), q) ↦ rw (background, q) (panicked-IsLogged task rest)
    ]
    background-AreLogged (join i) = tt
    background-AreLogged (finalize now io) = tt
    background-AreLogged (suspend_now now flush io) = tt
    background-AreLogged (other_trace k t) = elim (Bool-cases (k == id)) [
      | inl b ↦ rw (background, b) tt
      | inr b ↦
          rw (background, b)
            (λ t' known.
              elsewhere-IsLogged _ t'
                (ground (arith, b, known, get-insert x.executor.traces k id t)) refl)
    ]
    background-AreLogged (other_removed k) = λ t' known.
        elsewhere-IsLogged _ t' (ground (arith, known, get-remove x.executor.traces k id)) refl
    background-AreLogged (other_logged r) = elim (Bool-cases (r.trace_id == id)) [
      | inl b ↦ rw (background, b) tt
      | inr b ↦
          rw (background, b, write)
            (λ t' known. elsewhere-IsLogged _ t' known (found_other x.executor.wal id r b))
    ]
