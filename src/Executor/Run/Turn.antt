-- ===== src/Executor/Run/Turn.antt =====
-- What a turn of the loop costs: a measure of the work that is left, which no turn increases, and the
-- permits that are taken.
use xerv.Prelude.{
  ℕ, ◌+◌, ◌*◌, ◌≤◌, ◌<◌, ◌≡◌, ◌∙◌, refl, Bool, true, false, not, List, [], ◌∷◌, arith, occurs,
  contains, nat_eq, nat_beq_iff, ok, err, Option-cases, inl, inr, contains_of_occurs, count_by,
  filter_by, length, length-append,
}
use xerv.HashMap
use xerv.HashMap.{contains_key}
use xerv.HashMap.Laws.{get-insert}
use xerv.Errors.{XervError, XervResult}
use xerv.TraceState.{TraceState}
use xerv.Executor.{
  Texts, Execution, spawn, spawn_with, spawn_all, spawn_on, find_ready_nodes, is_due,
}
use xerv.Executor.Run.{Phase, going, draining, stopped, turn, spawn_found, after_spawn}
use xerv.Executor.Run.Invariant.{
  is_spawned, IsOrdered, spawned_execution, spawn-cases, occurs-filter_by,
}

count_by-le :
    (p q : ℕ → Bool)
    → ((a : ℕ) → q a ≡ true → p a ≡ true)
    → (xs : List ℕ) → count_by q xs ≤ count_by p xs
count_by-le p q h [] = omega arith
count_by-le p q h (x ∷ xs) = ground (arith, h x, count_by-le p q h xs)

count_by-lt :
    (p q : ℕ → Bool)
    → ((a : ℕ) → q a ≡ true → p a ≡ true)
    → (k : ℕ) → p k ≡ true
    → q k ≡ false
    → (xs : List ℕ) → contains xs k ≡ true
    → count_by q xs < count_by p xs
count_by-lt p q h k holds fails [] c = ground arith
count_by-lt p q h k holds fails (x ∷ xs) c =
    ground (arith, h x, count_by-le p q h xs, count_by-lt p q h k holds fails xs, nat_beq_iff x k)

plus_zero : (n : ℕ) → n + 0 ≡ n
plus_zero n = omega arith

module _ {V : Type 0} where
  abbrev pub unspawned : Execution V → ℕ
  unspawned x = count_by (λ k. not (is_spawned x k)) x.executor.execution_order

  -- A node that is not spawned has a spawn, a permit and a result before it, and so on.
  abbrev pub potential : Execution V → ℕ
  potential x =
      3 * unspawned x
      + (3 * length x.tasks.waiting + (2 * length x.tasks.running + length x.tasks.done))

  pub record IsLess (n : ℕ) (x y : Execution V) : Type 0 where
    pub same_config : y.executor.config ≡ x.executor.config
    pub same_order : y.executor.execution_order ≡ x.executor.execution_order
    pub less : n + potential y ≤ potential x
    pub permits :
        length x.tasks.running ≤ x.executor.config.max_concurrent_nodes
        → length y.tasks.running ≤ y.executor.config.max_concurrent_nodes

  pub IsLess-trans :
      {n k : ℕ} (x y z : Execution V) → IsLess n x y → IsLess k y z → IsLess (n + k) x z
  IsLess-trans x y z a b = record {
    same_config = b.same_config ∙ a.same_config;
    same_order = b.same_order ∙ a.same_order;
    less = omega (arith, a.less, b.less);
    permits = λ h. b.permits (a.permits h);
  }

  pub IsLess-refl : (x : Execution V) → IsLess 0 x x
  IsLess-refl x = record {
    same_config = refl;
    same_order = refl;
    less = omega arith;
    permits = λ h. h;
  }

  -- The nodes that the turn spawns are in the order, once, and new.
  record AreNew (x : Execution V) (js : List ℕ) : Type 0 where
    once : (j : ℕ) → occurs j js ≤ 1
    new_ones : (j : ℕ) → 0 < occurs j js → is_spawned x j ≡ false
    in_order : (j : ℕ) → 0 < occurs j js → contains x.executor.execution_order j ≡ true

  abbrev pub IsLessPhase : ℕ → Execution V → Phase V → Type 0
  IsLessPhase n x (going y) = IsLess n x y
  IsLessPhase n x (draining y _ _ _) = IsLess n x y
  IsLessPhase n x (stopped ex result) = Unit

  module _ (texts : Texts V) (id : ℕ) where
    spawned-IsLess :
        (k : ℕ) (x : Execution V) (t : TraceState V)
        → is_spawned x k ≡ false
        → contains x.executor.execution_order k ≡ true
        → IsLess 0 x (spawned_execution texts id k x t)
    unfolding spawned_execution spawn_with
    spawned-IsLess k x t new_one in_order =
        let fewer =
          count_by-lt (λ j. not (is_spawned x j))
            (λ j. not (contains_key (HashMap.insert x.spawned k tt) j))
            (λ j h. ground (arith, get-insert x.spawned k j tt)) k (ground (arith, new_one))
            (ground (arith, get-insert x.spawned k k tt, nat_beq_iff k k))
            x.executor.execution_order in_order in
        record {
          same_config = refl;
          same_order = refl;
          less = omega (arith, fewer, length-append x.tasks.waiting);
          permits = λ h. h;
        }

    spawned-AreNew :
        (k : ℕ) (js : List ℕ) (x : Execution V) (t : TraceState V)
        → AreNew x (k ∷ js)
        → AreNew (spawned_execution texts id k x t) js
    unfolding spawned_execution spawn_with
    spawned-AreNew k js x t a = record {
      once = λ j. ground (arith, a.once j);
      new_ones = λ j h.
          ground (arith, a.once j, a.new_ones j, get-insert x.spawned k j tt, nat_beq_iff k j);
      in_order = λ j h. ground (arith, a.in_order j);
    }

    spawn_on-error :
        (x : Execution V) (r : Execution V × XervResult (Unit {0}))
        (later : Execution V → Execution V × XervResult (Unit {0})) {e : XervError}
        → r.1 ≡ err e
        → IsLessPhase 0 x (after_spawn (spawn_on r later))
    unfolding spawn_on after_spawn
    spawn_on-error x (y, ok _) later h = absurd (ground arith)
    spawn_on-error x (y, err e) later h = tt

    pub IsLessPhase-trans :
        {n : ℕ} (x y : Execution V) (p : Phase V)
        → IsLess n x y
        → IsLessPhase 0 y p
        → IsLessPhase n x p
    IsLessPhase-trans {n} x y (going z) a b = rw (plus_zero n) at (IsLess-trans x y z a b)
    IsLessPhase-trans {n} x y (draining z k r p) a b = rw (plus_zero n) at (IsLess-trans x y z a b)
    IsLessPhase-trans x y (stopped ex result) a b = tt

    spawn_all-IsLessPhase :
        (js : List ℕ) (x : Execution V)
        → AreNew x js
        → IsLessPhase 0 x (after_spawn (spawn_all texts id js x))
    unfolding spawn_all after_spawn spawn_on
    spawn_all-IsLessPhase [] x a = IsLess-refl x
    spawn_all-IsLessPhase (k ∷ js) x a = elim (spawn-cases texts id k x) [
      | inl (t, q, spawns) ↦
          rw (spawn_all, spawns)
            (IsLessPhase-trans x (spawned_execution texts id k x t) _
              (spawned-IsLess k x t (a.new_ones k (ground arith)) (a.in_order k (ground arith)))
              (spawn_all-IsLessPhase js (spawned_execution texts id k x t)
                (spawned-AreNew k js x t a)))
      | inr (e, fails) ↦ spawn_on-error x (spawn texts id k x) _ fails
    ]

    found-AreNew :
        (x : Execution V) (t : TraceState V)
        → IsOrdered x.executor
        → AreNew x (filter_by (is_due x.executor t x.spawned) x.executor.execution_order)
    found-AreNew x t o =
        let found = occurs-filter_by (is_due x.executor t x.spawned) in
        let order = x.executor.execution_order in
        record {
          once = λ j. ground (arith, found j order, o j);
          new_ones = λ j h. ground (arith, found j order);
          in_order = λ j h. ground (arith, found j order, contains_of_occurs j order);
        }

    pub turn-IsLessPhase :
        (x : Execution V) → IsOrdered x.executor → IsLessPhase 0 x (turn texts id x)
    unfolding turn spawn_found find_ready_nodes
    turn-IsLessPhase x o = elim (Option-cases (HashMap.get x.executor.traces id)) [
      | inl q ↦ rw (turn, find_ready_nodes, q) tt
      | inr (t, q) ↦ rw (turn, find_ready_nodes, q) (spawn_all-IsLessPhase _ x (found-AreNew x t o))
    ]
