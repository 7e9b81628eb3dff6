-- ===== src/FlowGraph/Index.antt =====
-- The two indices of the graph: a graph built by the methods is well formed, so that no index is out
-- of bounds and the edges found through an index are the edges with that end.
use xerv.Prelude.{
  ℕ, zero, suc, ◌≤◌, ◌<◌, ◌≡◌, refl, Bool, String, some, List, [], ◌∷◌, ◌++◌, if◌then◌else◌, arith,
  ◌==◌, nat_eq, length, get_elem?, filter_by, filter_by-append, length-append,
  get_elem?-append_left, get_elem?-append_length, nat_beq_iff, Bool-cases, inl, inr, contains,
  pair_eq,
}
use mathlib.Core.List.{append-nil}
use xerv.HashMap
use xerv.HashMap.{HashMap}
use xerv.HashMap.Laws.{get-insert, insert-IsUnique, IsUnique}
use xerv.FlowGraph.{
  Edge, GraphNode, graph_node, FlowGraph, new, indices, or_default, push_index, add_node, add_edge,
  declare_loop_edge, set_entry_point, index_edges, outgoing_edges, incoming_edges,
}

abbrev pub AllBelow : ℕ → List ℕ → Type 0
AllBelow n [] = Unit
AllBelow n (i ∷ is) = (i < n) × AllBelow n is

-- The indices are in bounds, and they lead to the edges that pass the test, in order.
pub record IsIndexOf (edges : List Edge) (p : Edge → Bool) (is : List ℕ) : Type 0 where
  pub in_bounds : AllBelow (length edges) is
  pub exact : index_edges edges is ≡ filter_by p edges

pub record IsWf (g : FlowGraph) : Type 0 where
  pub nodes_unique : IsUnique g.nodes
  pub outgoing_wf :
      (n : ℕ) → IsIndexOf g.edges (λ e. e.from_node == n) (indices (HashMap.get g.outgoing n))
  pub incoming_wf :
      (n : ℕ) → IsIndexOf g.edges (λ e. e.to_node == n) (indices (HashMap.get g.incoming n))

indices-or_default :
    (m : HashMap ℕ (List ℕ)) (k n : ℕ)
    → indices (HashMap.get (or_default m k) n) ≡ indices (HashMap.get m n)
unfolding or_default
indices-or_default m k n = ground (arith, get-insert m k n [])

indices-push_index :
    (m : HashMap ℕ (List ℕ)) (k i n : ℕ)
    → indices (HashMap.get (push_index m k i) n)
      ≡ (if k == n then indices (HashMap.get m n) ++ i ∷ [] else indices (HashMap.get m n))
unfolding push_index
indices-push_index m k i n =
    ground (arith, get-insert m k n (indices (HashMap.get m k) ++ i ∷ []), nat_beq_iff k n)

AllBelow-later : (n k : ℕ) (is : List ℕ) → n ≤ k → AllBelow n is → AllBelow k is
AllBelow-later n k [] h a = tt
AllBelow-later n k (i ∷ is) h a = (omega arith, AllBelow-later n k is h a.1)

AllBelow-snoc : (n i : ℕ) (is : List ℕ) → i < n → AllBelow n is → AllBelow n (is ++ i ∷ [])
AllBelow-snoc n i [] h a = (h, tt)
AllBelow-snoc n i (j ∷ is) h a = (a.0, AllBelow-snoc n i is h a.1)

get_elem?_below : (es : List Edge) (i : ℕ) → i < length es → (e : Edge) × (get_elem? es i ≡ some e)
get_elem?_below [] i h = absurd (omega arith)
get_elem?_below (e ∷ es) zero h = (e, refl)
get_elem?_below (e ∷ es) (suc i) h = get_elem?_below es i (omega arith)

index_edges-snoc :
    (es : List Edge) (e : Edge) (is : List ℕ)
    → AllBelow (length es) is
    → index_edges (es ++ e ∷ []) is ≡ index_edges es is
unfolding index_edges
index_edges-snoc es e [] a = refl
index_edges-snoc es e (i ∷ is) a =
    let (x, found) = get_elem?_below es i a.0 in
    ground (
      arith,
      found,
      get_elem?-append_left es (e ∷ []) i {a = x} found,
      index_edges-snoc es e is a.1,
    )

index_edges-append :
    (es : List Edge) (is js : List ℕ)
    → index_edges es (is ++ js) ≡ index_edges es is ++ index_edges es js
unfolding index_edges
index_edges-append es [] js = refl
index_edges-append es (i ∷ is) js = ground (arith, index_edges-append es is js)

index_edges_last :
    (es : List Edge) (e : Edge) → index_edges (es ++ e ∷ []) (length es ∷ []) ≡ e ∷ []
unfolding index_edges
index_edges_last es e = ground (arith, get_elem?-append_length es e)

-- A new edge under its end's key keeps an index exact, and so it does under any other key.
IsIndexOf-snoc :
    (es : List Edge) (e : Edge) (p : Edge → Bool) (is : List ℕ)
    → IsIndexOf es p is
    → IsIndexOf (es ++ e ∷ []) p (if p e then is ++ length es ∷ [] else is)
IsIndexOf-snoc es e p is h = record {
  in_bounds = ground (
    arith,
    length-append es (e ∷ []),
    AllBelow-later (length es) (length (es ++ e ∷ [])) is,
    AllBelow-snoc (length (es ++ e ∷ [])) (length es) is,
  );
  exact = ground (
    arith,
    h.exact,
    filter_by-append p es (e ∷ []),
    index_edges-append (es ++ e ∷ []) is (length es ∷ []),
    index_edges_last es e,
    index_edges-snoc es e is,
    append-nil (filter_by p es),
  );
}

add_node-IsWf : (g : FlowGraph) (node : GraphNode) → IsWf g → IsWf (add_node g node)
unfolding add_node
add_node-IsWf g node w = record {
  nodes_unique = insert-IsUnique g.nodes node.id node w.nodes_unique;
  outgoing_wf = λ n. rw (indices-or_default g.outgoing node.id n) (w.outgoing_wf n);
  incoming_wf = λ n. rw (indices-or_default g.incoming node.id n) (w.incoming_wf n);
}

add_edge-IsWf : (g : FlowGraph) (e : Edge) → IsWf g → IsWf (add_edge g e)
unfolding add_edge
add_edge-IsWf g e w = record {
  nodes_unique = w.nodes_unique;
  outgoing_wf = λ n.
      rw (indices-push_index g.outgoing e.from_node (length g.edges) n)
        (IsIndexOf-snoc g.edges e (λ x. x.from_node == n) _ (w.outgoing_wf n));
  incoming_wf = λ n.
      rw (indices-push_index g.incoming e.to_node (length g.edges) n)
        (IsIndexOf-snoc g.edges e (λ x. x.to_node == n) _ (w.incoming_wf n));
}

declare_loop_edge-IsWf : (g : FlowGraph) (from to : ℕ) → IsWf g → IsWf (declare_loop_edge g from to)
unfolding declare_loop_edge
declare_loop_edge-IsWf g from to w = elim (Bool-cases (contains g.loop_back_edges (from, to))) [
  | inl e ↦ rw e w
  | inr e ↦ rw e (record {
    nodes_unique = w.nodes_unique;
    outgoing_wf = w.outgoing_wf;
    incoming_wf = w.incoming_wf;
  })
]

set_entry_point-IsWf : (g : FlowGraph) (n : ℕ) → IsWf g → IsWf (set_entry_point g n)
unfolding set_entry_point
set_entry_point-IsWf g n w = elim (Bool-cases (contains g.entry_points n)) [
  | inl e ↦ rw e w
  | inr e ↦ rw e (record {
    nodes_unique = w.nodes_unique;
    outgoing_wf = w.outgoing_wf;
    incoming_wf = w.incoming_wf;
  })
]

-- One call of a method that changes the graph.
pub data Change : Type 0 where
  node : ℕ → String → Change
  edge : Edge → Change
  loop_edge : ℕ → ℕ → Change
  entry : ℕ → Change

unfoldable pub change : FlowGraph → Change → FlowGraph
change g (node id node_type) = add_node g (graph_node id node_type)
change g (edge e) = add_edge g e
change g (loop_edge from to) = declare_loop_edge g from to
change g (entry id) = set_entry_point g id

unfoldable pub build : FlowGraph → List Change → FlowGraph
build g [] = g
build g (c ∷ cs) = build (change g c) cs

change-IsWf : (g : FlowGraph) (c : Change) → IsWf g → IsWf (change g c)
unfolding change
change-IsWf g (node id t) w = add_node-IsWf g (graph_node id t) w
change-IsWf g (edge e) w = add_edge-IsWf g e w
change-IsWf g (loop_edge from to) w = declare_loop_edge-IsWf g from to w
change-IsWf g (entry id) w = set_entry_point-IsWf g id w

build_from-IsWf : (g : FlowGraph) (cs : List Change) → IsWf g → IsWf (build g cs)
unfolding build
build_from-IsWf g [] w = w
build_from-IsWf g (c ∷ cs) w = build_from-IsWf (change g c) cs (change-IsWf g c w)

new-IsWf : IsWf new
unfolding new index_edges HashMap.get
new-IsWf = record {
  nodes_unique = tt;
  outgoing_wf = λ n. record { in_bounds = tt; exact = refl };
  incoming_wf = λ n. record { in_bounds = tt; exact = refl };
}

-- Every graph built by calls of its methods is well formed: node identifiers are unique, no stored
-- index is out of bounds, and each index holds exactly the edges with its end, in order of insertion.
pub build-IsWf : (cs : List Change) → IsWf (build new cs)
build-IsWf cs = build_from-IsWf new cs new-IsWf

pub outgoing_edges-eq-filter :
    (g : FlowGraph) (n : ℕ)
    → IsWf g
    → outgoing_edges g n ≡ filter_by (λ e. e.from_node == n) g.edges
unfolding outgoing_edges
outgoing_edges-eq-filter g n w = (w.outgoing_wf n).exact

pub incoming_edges-eq-filter :
    (g : FlowGraph) (n : ℕ) → IsWf g → incoming_edges g n ≡ filter_by (λ e. e.to_node == n) g.edges
unfolding incoming_edges
incoming_edges-eq-filter g n w = (w.incoming_wf n).exact
