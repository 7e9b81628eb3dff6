-- ===== src/FlowGraph/Sort/Cycles.antt =====
-- When `topological_sort` succeeds and what its error reports.
use xerv.Prelude.{
  ℕ, zero, suc, ◌≤◌, ◌<◌, ◌≡◌, ◌≢◌, ◌⊎◌, refl, Bool, true, false, ◌&&◌, not, some, List, [], ◌∷◌,
  arith, nat_eq, filter_by, contains, occurs, Bool-cases, Option-cases, inl, inr, nat_beq_iff,
  get_elem?, length-le_of_occurs, ap, sym, ◌∙◌, occurs_pos, count_by-find, occurs_zero,
}
use xerv.HashMap
use xerv.HashMap.{HashMap, keys, contains_key, len}
use xerv.HashMap.Laws.{contains-keys, length-keys, occurs-keys}
use xerv.Errors.{XervError, uncontrolled_cycle}
use xerv.Prelude.{ok, err}
use xerv.FlowGraph.{Edge, FlowGraph, counts, Kahn, conclude, topological_sort, is_loop_back_edge}
use xerv.FlowGraph.Index.{IsWf}
use xerv.FlowGraph.Loop.{pending, toward}
use xerv.FlowGraph.Sort.Order.{
  Final, final, EndsKnown, known-keys, occurs-sorted, occurs-sorted-le, some-inj,
}

-- A number for each node that grows along every edge but the declared loop back-edges: there is
-- one exactly if the graph without those edges has no cycle.
abbrev pub IsRanked : FlowGraph → (ℕ → ℕ) → List Edge → Type 0
IsRanked g rank [] = Unit
IsRanked g rank (e ∷ es) =
    ((is_loop_back_edge g e.from_node e.to_node ≡ true) ⊎ (rank e.from_node < rank e.to_node))
    × IsRanked g rank es

rank-lt :
    (g : FlowGraph) (rank : ℕ → ℕ) (es : List Edge) (i : ℕ) (e : Edge)
    → IsRanked g rank es
    → get_elem? es i ≡ some e
    → counts g e ≡ true
    → rank e.from_node < rank e.to_node
rank-lt g rank [] i e r at c = cc
rank-lt g rank (x ∷ es) zero e r at c = ground arith
rank-lt g rank (x ∷ es) (suc i) e r at c = rank-lt g rank es i e r.1 at c

from-known :
    (g : FlowGraph) (es : List Edge) (i : ℕ) (e : Edge)
    → EndsKnown g es
    → get_elem? es i ≡ some e
    → contains_key g.nodes e.from_node ≡ true
from-known g [] i e k at = cc
from-known g (x ∷ es) zero e k at = ground arith
from-known g (x ∷ es) (suc i) e k at = from-known g es i e k.2 at

-- An edge from a node outside a list of nodes.
pub record Waits (g : FlowGraph) (done : List ℕ) (v : ℕ) : Type 0 where
  pub position : ℕ
  pub edge : Edge
  pub at : get_elem? g.edges position ≡ some edge
  pub into : edge.to_node ≡ v
  pub declared : is_loop_back_edge g edge.from_node edge.to_node ≡ false
  pub outside : contains done edge.from_node ≡ false

pending-Waits : (g : FlowGraph) (done : List ℕ) (v : ℕ) → 0 < pending g done v → Waits g done v
unfolding pending
pending-Waits g done v h =
    let (i, e, at, p) = count_by-find _ g.edges h in
    record {
      position = i;
      edge = e;
      at = at;
      into = ground (arith, p, nat_beq_iff e.to_node v);
      declared = ground (arith, p);
      outside = ground (arith, p);
    }

module _ (g : FlowGraph) (w : IsWf g) (k : EndsKnown g g.edges) (s : Kahn) (f : Final g s) where
  -- A node that was not sorted waits for another one.
  unsorted-Waits :
      (v : ℕ) → contains_key g.nodes v ≡ true → contains s.sorted v ≡ false → Waits g s.sorted v
  unfolding toward
  unsorted-Waits v known out = elim (Option-cases (HashMap.get s.in_degree v)) [
    | inl q ↦ absurd (ground (arith, q, known-keys g w k s f v))
    | inr q ↦ pending-Waits g s.sorted v (
        ground (
          arith,
          q.1,
          f.loop.inv.degree v q.0 q.1,
          occurs-sorted g w k s f v,
          occurs_zero v s.sorted,
        ))
  ]

  module _ (rank : ℕ → ℕ) (r : IsRanked g rank g.edges) where
    all_sorted : (n v : ℕ) → rank v < n → contains_key g.nodes v ≡ true → contains s.sorted v ≡ true
    all_sorted zero v h known = absurd (omega arith)
    all_sorted (suc n) v h known = elim (Bool-cases (contains s.sorted v)) [
      | inl yes_ ↦ yes_
      | inr out ↦
          let b = unsorted-Waits v known out in
          let lower =
            rank-lt g rank g.edges b.position b.edge r b.at (ground (arith, b.declared)) in
          let source = from-known g g.edges b.position b.edge k b.at in
          let inside = all_sorted n b.edge.from_node (ground (arith, lower, b.into)) source in
          ground (arith, inside, b.outside)
    ]

  module _ (all : (v : ℕ) → contains_key g.nodes v ≡ true → contains s.sorted v ≡ true) where
    nodes-le : (v : ℕ) → occurs v (keys g.nodes) ≤ occurs v s.sorted
    nodes-le v = ground (arith, occurs-keys g.nodes v w.nodes_unique, all v, occurs_pos v s.sorted)

    visits_all : s.visited ≡ len g.nodes
    visits_all = omega (
      arith,
      f.loop.inv.visited,
      length-keys g.nodes,
      length-le_of_occurs (keys g.nodes) s.sorted nodes-le,
      length-le_of_occurs s.sorted (keys g.nodes) (occurs-sorted-le g w k s f),
    )

conclude_all : (g : FlowGraph) (s : Kahn) → s.visited ≡ len g.nodes → conclude g s ≡ ok s.sorted
unfolding conclude
conclude_all g s h = ground (arith, nat_beq_iff s.visited (len g.nodes))

-- A well-formed graph whose edges join its nodes, and which has no cycle but through declared loop
-- back-edges, is sorted successfully.
pub topological_sort_acyclic :
    (g : FlowGraph) (rank : ℕ → ℕ)
    → IsWf g
    → EndsKnown g g.edges
    → IsRanked g rank g.edges
    → (order : List ℕ) × (topological_sort g ≡ some (ok order))
topological_sort_acyclic g rank w k r =
    let (s, f) = final g w in
    (
      s.sorted,
      f.result
          ∙ ap some (
              conclude_all g s (
                visits_all g w k s f
                  (λ v. all_sorted g w k s f rank r (suc (rank v)) v (omega arith)))),
    )

contains-filter_by :
    (p : ℕ → Bool) (ids : List ℕ) (v : ℕ) → contains (filter_by p ids) v ≡ (contains ids v && p v)
contains-filter_by p [] v = refl
contains-filter_by p (id ∷ ids) v = ground (arith, contains-filter_by p ids v, nat_beq_iff id v)

conclude-err :
    (g : FlowGraph) (s : Kahn) (x : XervError)
    → conclude g s ≡ err x
    → (x ≡ uncontrolled_cycle (filter_by (λ id. not (contains s.sorted id)) (keys g.nodes)))
      × (s.visited ≢ len g.nodes)
unfolding conclude
conclude-err g s x h = ground (arith, nat_beq_iff s.visited (len g.nodes))

-- The nodes that an error names: a node of the graph that has, among the named ones too, a
-- predecessor by an edge that is no declared loop back-edge.
pub record InCycle (g : FlowGraph) (named : List ℕ) (v : ℕ) : Type 0 where
  pub is_node : contains_key g.nodes v ≡ true
  pub position : ℕ
  pub edge : Edge
  pub at : get_elem? g.edges position ≡ some edge
  pub into : edge.to_node ≡ v
  pub declared : is_loop_back_edge g edge.from_node edge.to_node ≡ false
  pub from_named : contains named edge.from_node ≡ true

abbrev unsorted : FlowGraph → Kahn → List ℕ
unsorted g s = filter_by (λ id. not (contains s.sorted id)) (keys g.nodes)

module _ (g : FlowGraph) (w : IsWf g) (k : EndsKnown g g.edges) (s : Kahn) (f : Final g s) where
  unsorted-InCycle : (v : ℕ) → contains (unsorted g s) v ≡ true → InCycle g (unsorted g s) v
  unsorted-InCycle v inside =
      let here = contains-filter_by (λ id. not (contains s.sorted id)) (keys g.nodes) v in
      let known : contains_key g.nodes v ≡ true = ground (arith, here, contains-keys g.nodes v) in
      let b = unsorted-Waits g w k s f v known (ground (arith, here)) in
      let source = from-known g g.edges b.position b.edge k b.at in
      record {
        is_node = known;
        position = b.position;
        edge = b.edge;
        at = b.at;
        into = b.into;
        declared = b.declared;
        from_named = ground (
          arith,
          b.outside,
          source,
          contains-keys g.nodes b.edge.from_node,
          contains-filter_by (λ id. not (contains s.sorted id)) (keys g.nodes) b.edge.from_node,
        );
      }

  unsorted-nonempty :
      (l : List ℕ)
      → unsorted g s ≡ l
      → s.visited ≢ len g.nodes
      → (v : ℕ) × (rest : List ℕ) × (l ≡ v ∷ rest)
  unsorted-nonempty (v ∷ rest) q h = (v, rest, refl)
  unsorted-nonempty [] q h = absurd (h (visits_all g w k s f all))
    where
      all : (v : ℕ) → contains_key g.nodes v ≡ true → contains s.sorted v ≡ true
      all v known = ground (
        arith,
        q,
        known,
        contains-keys g.nodes v,
        contains-filter_by (λ id. not (contains s.sorted id)) (keys g.nodes) v,
      )

-- If a well-formed graph whose edges join its nodes is not sorted, the error is `UncontrolledCycle`
-- with at least one node.
pub topological_sort_error :
    (g : FlowGraph) (x : XervError)
    → IsWf g
    → EndsKnown g g.edges
    → topological_sort g ≡ some (err x)
    → (v : ℕ) × (rest : List ℕ) × (x ≡ uncontrolled_cycle (v ∷ rest))
topological_sort_error g x w k fails =
    let (s, f) = final g w in
    let (is_cycle, missing) = conclude-err g s x (some-inj _ _ (sym f.result ∙ fails)) in
    let (v, rest, named) = unsorted-nonempty g w k s f (unsorted g s) refl missing in
    (v, rest, is_cycle ∙ ap uncontrolled_cycle named)

cycle-inj : (a b : List ℕ) → uncontrolled_cycle a ≡ uncontrolled_cycle b → a ≡ b
cycle-inj a b h = cc

-- Each node that the error of a well-formed graph names, if the graph's edges join its nodes,
-- follows another named one: the named nodes, walked backwards, close a cycle of undeclared edges.
pub topological_sort_cycle :
    (g : FlowGraph) (named : List ℕ) (v : ℕ)
    → IsWf g
    → EndsKnown g g.edges
    → topological_sort g ≡ some (err (uncontrolled_cycle named))
    → contains named v ≡ true
    → InCycle g named v
topological_sort_cycle g named v w k fails inside =
    let (s, f) = final g w in
    let (is_cycle, _) = conclude-err g s _ (some-inj _ _ (sym f.result ∙ fails)) in
    let same = cycle-inj named (unsorted g s) is_cycle in
    rw same (unsorted-InCycle g w k s f v (rw same at inside))
