-- ===== src/FlowGraph/Validate.antt =====
-- Which graphs `validate` accepts.
use xerv.Prelude.{
  ℕ, zero, suc, ◌<◌, ◌≡◌, ◌↔◌, refl, true, false, some, List, [], ◌∷◌, arith, nat_eq,
  contains_of_occurs, Bool-cases, inl, inr, get_elem?, index_of,
}
use xerv.HashMap.{contains_key}
use xerv.Errors.{XervResult}
use xerv.Prelude.{ok, err}
use xerv.FlowGraph.{Edge, FlowGraph, check_edges, topological_sort, validate, is_loop_back_edge}
use xerv.FlowGraph.Index.{IsWf}
use xerv.FlowGraph.Sort.Order.{
  EndsKnown, topological_sort_total, topological_sort-permutes, topological_sort-orders,
}
use xerv.FlowGraph.Sort.Cycles.{IsRanked, topological_sort_acyclic}

check_edges_exact : (g : FlowGraph) (es : List Edge) → (check_edges g es ≡ ok tt) ↔ EndsKnown g es
unfolding check_edges
check_edges_exact g [] = (λ h. tt, λ k. refl)
check_edges_exact g (e ∷ es) =
    let rest = check_edges_exact g es in
    (λ h. ground (arith, rest.0), λ k. ground (arith, rest.1 k.2))

module _ (g : FlowGraph) (rank : ℕ → ℕ) where
  IsRanked-all :
      (es : List Edge)
      → ((i : ℕ) (e : Edge)
          → get_elem? es i ≡ some e
          → is_loop_back_edge g e.from_node e.to_node ≡ false
          → rank e.from_node < rank e.to_node)
      → IsRanked g rank es
  IsRanked-all [] h = tt
  IsRanked-all (e ∷ es) h = (
    elim (Bool-cases (is_loop_back_edge g e.from_node e.to_node)) [
      | inl q ↦ inl q
      | inr q ↦ inr (h 0 e refl q)
    ],
    IsRanked-all es (λ i x at c. h (suc i) x at c),
  )

target-known :
    (g : FlowGraph) (es : List Edge) (i : ℕ) (e : Edge)
    → EndsKnown g es
    → get_elem? es i ≡ some e
    → contains_key g.nodes e.to_node ≡ true
target-known g [] i e k at = cc
target-known g (x ∷ es) zero e k at = ground arith
target-known g (x ∷ es) (suc i) e k at = target-known g es i e k.2 at

-- The order of a successful sort is a ranking.
order-IsRanked :
    (g : FlowGraph) (order : List ℕ)
    → IsWf g
    → EndsKnown g g.edges
    → topological_sort g ≡ some (ok order)
    → IsRanked g (λ v. index_of v order) g.edges
order-IsRanked g order w k done =
    IsRanked-all g (λ v. index_of v order) g.edges
      λ i e at c. topological_sort-orders g i e order w done at c (
        contains_of_occurs e.to_node order (
          ground (
            arith,
            topological_sort-permutes g w order done k e.to_node,
            target-known g g.edges i e k at,
          )))

validate-ok :
    (g : FlowGraph) (r : XervResult (List ℕ))
    → topological_sort g ≡ some r
    → validate g ≡ some (ok tt)
    → (order : List ℕ) × (topological_sort g ≡ some (ok order)) × (check_edges g g.edges ≡ ok tt)
unfolding validate
validate-ok g (ok order) t v = (order, t, ground (arith, t))
validate-ok g (err x) t v = absurd (ground (arith, t))

-- `validate` accepts a well-formed graph exactly if its edges join its nodes and it has no cycle but
-- through declared loop back-edges, that is, a ranking of its nodes exists.
pub validate_exact :
    (g : FlowGraph)
    → IsWf g
    → (validate g ≡ some (ok tt))
      ↔ (EndsKnown g g.edges × ((rank : ℕ → ℕ) × IsRanked g rank g.edges))
unfolding validate
validate_exact g w = (
  λ v.
      let (r, t) = topological_sort_total g w in
      let (order, done, checked) = validate-ok g r t v in
      let k = (check_edges_exact g g.edges).0 checked in
      (k, (λ n. index_of n order, order-IsRanked g order w k done)),
  λ (k, (rank, ranked)).
      let (order, done) = topological_sort_acyclic g rank w k ranked in
      ground (arith, done, (check_edges_exact g g.edges).1 k),
)
