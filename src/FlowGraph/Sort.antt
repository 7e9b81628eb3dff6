-- ===== src/FlowGraph/Sort.antt =====
-- The loop of `topological_sort` ends within its fuel, with its invariant.
pub mod Order
pub mod Cycles
use mathlib.Core.List.{append_assoc, append-nil}
use xerv.Prelude.{
  ℕ, zero, suc, ◌+◌, ◌-◌, ◌≤◌, ◌<◌, ◌≡◌, refl, Bool, true, false, ◌&&◌, ◌||◌, not, Option, none,
  some, List, [], ◌∷◌, ◌++◌, if◌then◌else◌, arith, ◌==◌, nat_eq, length, filter_by, count_by,
  contains, contains-snoc, occurs, occurs-append, Bool-cases, Option-cases, inl, inr, nat_beq_iff,
  ltb, get_elem?, length-append, length-le_of_occurs, ap, sym, ◌∙◌,
}
use xerv.HashMap
use xerv.HashMap.{HashMap, keys, contains_key, len}
use xerv.HashMap.Laws.{IsUnique, contains-keys, length-keys, occurs-keys}
use xerv.FlowGraph.{
  Edge, FlowGraph, counts, Kahn, initial_degrees, initial_kahn, round, visit, sort_loop,
}
use xerv.FlowGraph.Index.{IsWf}
use xerv.FlowGraph.Loop.{pending, toward, is_zero, Inv, visit-Inv, visit-sorted, visit-keys}
use xerv.FlowGraph.Start.{initial_kahn-Inv, initial_degrees-IsUnique}

-- Every node of a list comes after the sources of the edges into it, given those seen before.
abbrev pub IsOrderedFrom : FlowGraph → List ℕ → List ℕ → Type 0
IsOrderedFrom g seen [] = Unit
IsOrderedFrom g seen (v ∷ vs) = (pending g seen v ≡ 0) × IsOrderedFrom g (seen ++ v ∷ []) vs

IsOrderedFrom-snoc :
    (g : FlowGraph) (seen vs : List ℕ) (u : ℕ)
    → IsOrderedFrom g seen vs
    → pending g (seen ++ vs) u ≡ 0
    → IsOrderedFrom g seen (vs ++ u ∷ [])
IsOrderedFrom-snoc g seen [] u o p = (rw append-nil at p, tt)
IsOrderedFrom-snoc g seen (v ∷ vs) u o p =
    (o.0, IsOrderedFrom-snoc g (seen ++ v ∷ []) vs u o.1 (rw append_assoc p))

pub record LoopInv (g : FlowGraph) (s : Kahn) : Type 0 where
  pub inv : Inv g [] s
  pub same_keys : (v : ℕ) → contains_key s.in_degree v ≡ contains_key (initial_degrees g) v
  pub ordered : IsOrderedFrom g [] s.sorted

pub initial-LoopInv : (g : FlowGraph) → LoopInv g (initial_kahn g)
unfolding initial_kahn
initial-LoopInv g = record { inv = initial_kahn-Inv g; same_keys = λ v. refl; ordered = tt }

module _ (g : FlowGraph) (w : IsWf g) (s : Kahn) (h : LoopInv g s) where
  front_pending : (u : ℕ) (rest : List ℕ) → s.queue ≡ u ∷ rest → pending g s.sorted u ≡ 0
  unfolding toward
  front_pending u rest front = elim (Option-cases (HashMap.get s.in_degree u)) [
    | inl q ↦ absurd (ground (arith, front, q, h.inv.settled u, nat_beq_iff u u))
    | inr q ↦ ground (arith, front, q.1, h.inv.settled u, nat_beq_iff u u, h.inv.degree u q.0 q.1)
  ]

  visit-LoopInv : (u : ℕ) (rest : List ℕ) → s.queue ≡ u ∷ rest → LoopInv g (visit g u rest s)
  visit-LoopInv u rest front = record {
    inv = visit-Inv g w u rest s front h.inv;
    same_keys = λ v. visit-keys g w u rest s front h.inv v ∙ h.same_keys v;
    ordered =
        rw (visit-sorted g w u rest s front h.inv)
          (IsOrderedFrom-snoc g [] s.sorted u h.ordered (front_pending u rest front));
  }

  -- Sorted and queued nodes together are no more than the nodes with a degree.
  pub settled-le : length s.sorted + length s.queue ≤ len (initial_degrees g)
  settled-le = omega (
    arith,
    length-append s.sorted s.queue,
    length-keys (initial_degrees g),
    length-le_of_occurs (s.sorted ++ s.queue) (keys (initial_degrees g)) (λ a. settled_once a),
  )
    where
      settled_once : (a : ℕ) → occurs a (s.sorted ++ s.queue) ≤ occurs a (keys (initial_degrees g))
      settled_once a = ground (
        arith,
        occurs-append a s.sorted s.queue,
        h.inv.settled a,
        h.same_keys a,
        occurs-keys (initial_degrees g) a (initial_degrees-IsUnique g),
      )

sort_loop_done :
    (g : FlowGraph) (fuel : ℕ) (s : Kahn) → s.queue ≡ [] → sort_loop g (suc fuel) s ≡ some s
unfolding sort_loop
sort_loop_done g fuel s e = cc

sort_loop_next :
    (g : FlowGraph) (fuel : ℕ) (s : Kahn) (u : ℕ) (rest : List ℕ)
    → s.queue ≡ u ∷ rest
    → sort_loop g (suc fuel) s ≡ sort_loop g fuel (visit g u rest s)
unfolding sort_loop
sort_loop_next g fuel s u rest e = cc

module _ (g : FlowGraph) (w : IsWf g) where
  abbrev Ends : ℕ → Kahn → Type 0
  Ends fuel s = (t : Kahn) × (sort_loop g fuel s ≡ some t) × LoopInv g t × (t.queue ≡ [])

  Ends-next :
      (fuel : ℕ) (s : Kahn) (u : ℕ) (rest : List ℕ)
      → s.queue ≡ u ∷ rest
      → Ends fuel (visit g u rest s)
      → Ends (suc fuel) s
  Ends-next fuel s u rest e (t, runs, inv, empty) =
      (t, sort_loop_next g fuel s u rest e ∙ runs, inv, empty)

  pub sort_loop_total :
      (fuel : ℕ) (s : Kahn) (h : LoopInv g s)
      → len (initial_degrees g) < fuel + length s.sorted
      → (t : Kahn) × (sort_loop g fuel s ≡ some t) × LoopInv g t × (t.queue ≡ [])
  sort_loop_total zero s h f = absurd (omega (arith, settled-le g w s h))
  sort_loop_total (suc fuel) s h f = go s.queue refl (λ u rest e.
      sort_loop_total fuel (visit g u rest s) (visit-LoopInv g w s h u rest e) (
        omega (
          arith,
          ap (λ (l : List ℕ). length l) (visit-sorted g w u rest s e h.inv),
          length-append s.sorted (u ∷ []),
        )))
    where
      go :
          (q : List ℕ)
          → s.queue ≡ q
          → ((u : ℕ) (rest : List ℕ) → s.queue ≡ u ∷ rest → Ends fuel (visit g u rest s))
          → Ends (suc fuel) s
      go [] e later = (s, sort_loop_done g fuel s e, h, e)
      go (u ∷ rest) e later = Ends-next fuel s u rest e (later u rest e)
