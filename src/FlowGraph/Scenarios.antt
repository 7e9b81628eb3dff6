-- ===== src/FlowGraph/Scenarios.antt =====
-- A diamond with a declared loop back-edge, and a graph with an undeclared cycle.
use xerv.Prelude.{
  ℕ, ◌<◌, ◌≡◌, ◌↔◌, refl, true, false, some, List, [], ◌∷◌, if◌then◌else◌, arith, contains, occurs,
  index_of, get_elem?, inl, inr, nat_eq,
}
use xerv.HashMap
use xerv.HashMap.{contains_key, keys}
use xerv.Errors.{uncontrolled_cycle}
use xerv.Prelude.{ok, err}
use xerv.FlowGraph.{
  Edge, FlowGraph, new, topological_sort, validate, reachable_nodes, is_loop_back_edge,
  outgoing_edges, graph_node, add_node, add_edge, declare_loop_edge,
}
use xerv.FlowGraph.Index.{IsWf, Change, node, edge, loop_edge, change, build, build-IsWf}
use xerv.FlowGraph.Sort.Order.{EndsKnown, topological_sort-permutes, topological_sort-orders}
use xerv.FlowGraph.Sort.Cycles.{IsRanked, InCycle, topological_sort_acyclic, topological_sort_cycle}
use xerv.FlowGraph.Reach.{IsReachable, reachable_nodes_exact}
use xerv.FlowGraph.Validate.{validate_exact}

abbrev join : ℕ → ℕ → Edge
join a b = record { from_node = a; from_port = "out"; to_node = b; to_port = "in" }

abbrev diamond_calls : List Change
diamond_calls =
    node 0 "trigger::webhook"
    ∷ node 1 "std::map"
    ∷ node 2 "std::map"
    ∷ node 3 "std::merge"
    ∷ edge (join 0 1)
    ∷ edge (join 0 2)
    ∷ edge (join 1 3)
    ∷ edge (join 2 3)
    ∷ edge (join 3 1)
    ∷ loop_edge 3 1
    ∷ []

abbrev diamond : FlowGraph
diamond = build new diamond_calls

abbrev cyclic_calls : List Change
cyclic_calls = node 1 "std::map" ∷ node 2 "std::map" ∷ edge (join 1 2) ∷ edge (join 2 1) ∷ []

abbrev cyclic : FlowGraph
cyclic = build new cyclic_calls

abbrev diamond_order : List ℕ
diamond_order = 0 ∷ 1 ∷ 2 ∷ 3 ∷ []

diamond_sorts : topological_sort diamond ≡ some (ok diamond_order)
unfolding topological_sort build change new graph_node add_node add_edge declare_loop_edge
    is_loop_back_edge HashMap.get HashMap.insert outgoing_edges
diamond_sorts = refl

cyclic_fails : topological_sort cyclic ≡ some (err (uncontrolled_cycle (1 ∷ 2 ∷ [])))
unfolding topological_sort build change new graph_node add_node add_edge is_loop_back_edge
    HashMap.get HashMap.insert outgoing_edges
cyclic_fails = refl

diamond_reaches : reachable_nodes diamond ≡ some (0 ∷ 1 ∷ 2 ∷ 3 ∷ [])
unfolding reachable_nodes build change new graph_node add_node add_edge declare_loop_edge
    HashMap.get HashMap.insert outgoing_edges
diamond_reaches = refl

diamond_known : EndsKnown diamond diamond.edges
unfolding build change new graph_node add_node add_edge declare_loop_edge HashMap.get HashMap.insert
diamond_known = (refl, refl, (refl, refl, (refl, refl, (refl, refl, (refl, refl, tt)))))

build-IsWf_example : IsWf diamond
build-IsWf_example = build-IsWf diamond_calls

cyclic_known : EndsKnown cyclic cyclic.edges
unfolding build change new graph_node add_node add_edge declare_loop_edge is_loop_back_edge
    HashMap.get HashMap.insert
cyclic_known = (refl, refl, (refl, refl, tt))

diamond-IsRanked : IsRanked diamond (λ v. v) diamond.edges
unfolding build change new graph_node add_node add_edge declare_loop_edge is_loop_back_edge
    HashMap.get HashMap.insert
diamond-IsRanked = (
  inr (omega arith),
  (inr (omega arith), (inr (omega arith), (inr (omega arith), (inl refl, tt)))),
)

topological_sort-permutes_example :
    occurs 3 diamond_order ≡ (if contains_key diamond.nodes 3 then 1 else 0)
topological_sort-permutes_example =
    topological_sort-permutes diamond (build-IsWf diamond_calls) diamond_order diamond_sorts
      diamond_known 3

fourth_edge : get_elem? diamond.edges 3 ≡ some (join 2 3)
unfolding build change new graph_node add_node add_edge declare_loop_edge is_loop_back_edge
    HashMap.get HashMap.insert
fourth_edge = refl

fourth_counts : is_loop_back_edge diamond 2 3 ≡ false
unfolding build change new graph_node add_node add_edge declare_loop_edge is_loop_back_edge
    HashMap.get HashMap.insert
fourth_counts = refl

topological_sort-orders_example : index_of 2 diamond_order < index_of 3 diamond_order
topological_sort-orders_example =
    topological_sort-orders diamond 3 (join 2 3) diamond_order (build-IsWf diamond_calls)
      diamond_sorts fourth_edge fourth_counts refl

topological_sort_acyclic_example : (order : List ℕ) × (topological_sort diamond ≡ some (ok order))
topological_sort_acyclic_example =
    topological_sort_acyclic diamond (λ v. v) (build-IsWf diamond_calls) diamond_known
      diamond-IsRanked

topological_sort_cycle_example : InCycle cyclic (1 ∷ 2 ∷ []) 2
topological_sort_cycle_example =
    topological_sort_cycle cyclic (1 ∷ 2 ∷ []) 2 (build-IsWf cyclic_calls) cyclic_known cyclic_fails
      refl

reachable_nodes_exact_example :
    (r : List ℕ) × (reachable_nodes diamond ≡ some r)
    × ((v : ℕ) → (contains r v ≡ true) ↔ IsReachable diamond v)
reachable_nodes_exact_example = reachable_nodes_exact diamond (build-IsWf diamond_calls)

validate_exact_example :
    (validate diamond ≡ some (ok tt))
    ↔ (EndsKnown diamond diamond.edges × ((rank : ℕ → ℕ) × IsRanked diamond rank diamond.edges))
validate_exact_example = validate_exact diamond (build-IsWf diamond_calls)

-- An edge to a node that was never added, in a graph without any cycle.
abbrev dangling : FlowGraph
dangling = build new (node 1 "std::map" ∷ edge (join 1 2) ∷ [])

dangling_is_cyclic : validate dangling ≡ some (err (uncontrolled_cycle []))
unfolding validate topological_sort build change new graph_node add_node add_edge is_loop_back_edge
    HashMap.get HashMap.insert outgoing_edges
dangling_is_cyclic = refl
