-- ===== src/FlowGraph/Sort/Order.antt =====
-- `topological_sort` gives an answer, and a successful answer is an order of execution: each node
-- once, and after the sources of its edges.
use mathlib.Core.List.{append_assoc}
use xerv.Prelude.{
  ℕ, suc, ◌≤◌, ◌<◌, ◌≡◌, refl, true, false, some, List, [], ◌∷◌, ◌++◌, if◌then◌else◌, arith, ◌==◌,
  nat_eq, contains, contains-snoc, occurs, Bool-cases, inl, inr, nat_beq_iff, get_elem?, sym, ◌∙◌,
  occurs-eq_of_length, count_by-none, index_of, index_of-append_left, index_of-append_right,
}
use xerv.HashMap
use xerv.HashMap.{HashMap, keys, contains_key, len}
use xerv.HashMap.Laws.{length-keys, occurs-keys}
use xerv.Errors.{XervResult}
use xerv.Prelude.{ok}
use xerv.FlowGraph.{
  Edge, FlowGraph, counts, Kahn, initial_degrees, initial_kahn, conclude, topological_sort,
  is_loop_back_edge,
}
use xerv.FlowGraph.Index.{IsWf}
use xerv.FlowGraph.Loop.{pending, toward, is_zero}
use xerv.FlowGraph.Start.{contains-initial_degrees}
use xerv.FlowGraph.Sort.{IsOrderedFrom, LoopInv, initial-LoopInv, sort_loop_total}

-- What the loop ends with.
pub record Final (g : FlowGraph) (s : Kahn) : Type 0 where
  pub loop : LoopInv g s
  pub empty : s.queue ≡ []
  pub result : topological_sort g ≡ some (conclude g s)

pub final : (g : FlowGraph) → IsWf g → (s : Kahn) × Final g s
unfolding topological_sort
final g w =
    let (s, runs, inv, empty) =
      sort_loop_total g w (suc (len (initial_degrees g))) (initial_kahn g) (initial-LoopInv g)
        (omega arith) in
    (s, record { loop = inv; empty = empty; result = rw runs })

-- The loop of a well-formed graph ends within its fuel: there is an order, or an error.
pub topological_sort_total :
    (g : FlowGraph) → IsWf g → (r : XervResult (List ℕ)) × (topological_sort g ≡ some r)
topological_sort_total g w = let (s, f) = final g w in (conclude g s, f.result)

-- Both ends of every edge are nodes of the graph.
abbrev pub EndsKnown : FlowGraph → List Edge → Type 0
EndsKnown g [] = Unit
EndsKnown g (e ∷ es) =
    (contains_key g.nodes e.from_node ≡ true)
    × (contains_key g.nodes e.to_node ≡ true)
    × EndsKnown g es

toward-known :
    (g : FlowGraph) (v : ℕ) (es : List Edge)
    → EndsKnown g es
    → 0 < toward g v es
    → contains_key g.nodes v ≡ true
unfolding toward
toward-known g v [] k h = absurd (omega arith)
toward-known g v (e ∷ es) k h = ground (arith, toward-known g v es k.2, nat_beq_iff e.to_node v)

module _ (g : FlowGraph) (w : IsWf g) (k : EndsKnown g g.edges) (s : Kahn) (f : Final g s) where
  pub known-keys : (v : ℕ) → contains_key s.in_degree v ≡ contains_key g.nodes v
  known-keys v =
      ground (arith, f.loop.same_keys v, contains-initial_degrees g v, toward-known g v g.edges k)

  pub occurs-sorted : (v : ℕ) → occurs v s.sorted ≡ is_zero (HashMap.get s.in_degree v)
  occurs-sorted v = ground (arith, f.loop.inv.settled v, f.empty)

  pub occurs-sorted-le : (v : ℕ) → occurs v s.sorted ≤ occurs v (keys g.nodes)
  occurs-sorted-le v =
      ground (arith, occurs-sorted v, known-keys v, occurs-keys g.nodes v w.nodes_unique)

conclude-ok :
    (g : FlowGraph) (s : Kahn) (order : List ℕ)
    → conclude g s ≡ ok order
    → (s.sorted ≡ order) × (s.visited ≡ len g.nodes)
unfolding conclude
conclude-ok g s order h = ground (arith, nat_beq_iff s.visited (len g.nodes))

pub some-inj {ℓ} : {A : Type ℓ} (a b : A) → some a ≡ some b → a ≡ b
some-inj a b h = cc

module _ (g : FlowGraph) (w : IsWf g) (order : List ℕ)
    (done : topological_sort g ≡ some (ok order)) where
  sorted_is : (s : Kahn) → Final g s → (s.sorted ≡ order) × (s.visited ≡ len g.nodes)
  sorted_is s f = conclude-ok g s order (some-inj _ _ (sym f.result ∙ done))

  -- In a well-formed graph whose edges join its nodes, a successful sort holds each node of the
  -- graph exactly once, and nothing else.
  pub topological_sort-permutes :
      EndsKnown g g.edges → (v : ℕ) → occurs v order ≡ (if contains_key g.nodes v then 1 else 0)
  topological_sort-permutes k v =
      let (s, f) = final g w in
      let (is_order, all) = sorted_is s f in
      let counted =
        occurs-eq_of_length s.sorted (keys g.nodes) (occurs-sorted-le g w k s f)
          (omega (arith, all, f.loop.inv.visited, length-keys g.nodes)) v in
      rw (← is_order) (counted ∙ occurs-keys g.nodes v w.nodes_unique)

  ordered : IsOrderedFrom g [] order
  ordered = let (s, f) = final g w in rw (sorted_is s f).0 at f.loop.ordered

pending-none :
    (g : FlowGraph) (done : List ℕ) (i : ℕ) (e : Edge)
    → get_elem? g.edges i ≡ some e
    → counts g e ≡ true
    → pending g done e.to_node ≡ 0
    → contains done e.from_node ≡ true
unfolding pending
pending-none g done i e at c z =
    ground (arith, count_by-none _ g.edges i z at, nat_beq_iff e.to_node e.to_node)

-- Within an ordered rest, an edge leads forward.
forward :
    (g : FlowGraph) (i : ℕ) (e : Edge) (seen vs : List ℕ)
    → get_elem? g.edges i ≡ some e
    → counts g e ≡ true
    → IsOrderedFrom g seen vs
    → contains seen e.to_node ≡ false
    → contains vs e.to_node ≡ true
    → index_of e.from_node (seen ++ vs) < index_of e.to_node (seen ++ vs)
forward g i e seen [] at c o fresh inside = cc
forward g i e seen (v ∷ vs) at c o fresh inside = elim (Bool-cases (v == e.to_node)) [
  | inl here ↦
      let z : pending g seen e.to_node ≡ 0 = ground (arith, o.0, nat_beq_iff v e.to_node) in
      omega (
        arith,
        index_of-append_left e.from_node seen (v ∷ vs) (pending-none g seen i e at c z),
        index_of-append_right e.to_node seen (v ∷ vs) fresh,
      )
  | inr there ↦ rw append_assoc at (
      forward g i e (seen ++ v ∷ []) vs at c o.1 (ground (arith, contains-snoc e.to_node v seen))
        (ground arith))
]

-- In a successful sort of a well-formed graph the source of each edge that is no declared loop
-- back-edge stands before its target, if the target is in the order (as each node is).
pub topological_sort-orders :
    (g : FlowGraph) (i : ℕ) (e : Edge) (order : List ℕ)
    → IsWf g
    → topological_sort g ≡ some (ok order)
    → get_elem? g.edges i ≡ some e
    → is_loop_back_edge g e.from_node e.to_node ≡ false
    → contains order e.to_node ≡ true
    → index_of e.from_node order < index_of e.to_node order
topological_sort-orders g i e order w done at c inside =
    forward g i e [] order at (ground arith) (ordered g w order done) refl inside
