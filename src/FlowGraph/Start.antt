-- ===== src/FlowGraph/Start.antt =====
-- The degrees and the queue with which Kahn's loop starts.
use xerv.Prelude.{
  ℕ, ◌+◌, ◌≡◌, refl, ◌&&◌, ◌||◌, not, none, some, List, [], ◌∷◌, if◌then◌else◌, arith, ◌==◌, nat_eq,
  count_by, contains, occurs, nat_beq_iff, ltb,
}
use xerv.HashMap
use xerv.HashMap.{HashMap, keys, contains_key}
use xerv.HashMap.Laws.{get-insert, IsUnique, insert-IsUnique, contains-keys}
use xerv.FlowGraph.{
  Edge, FlowGraph, counts, bump, zero_degrees, count_edges, initial_degrees, zero_keys,
  initial_kahn, degree_or_default,
}
use xerv.FlowGraph.Loop.{pending, toward, is_zero, Inv}

get-zero_degrees :
    (ids : List ℕ) (v : ℕ)
    → HashMap.get (zero_degrees ids) v ≡ (if contains ids v then some 0 else none)
unfolding zero_degrees HashMap.get
get-zero_degrees [] v = refl
get-zero_degrees (id ∷ ids) v =
    ground (arith, get-zero_degrees ids v, get-insert (zero_degrees ids) id v 0)

zero_degrees-IsUnique : (ids : List ℕ) → IsUnique (zero_degrees ids)
unfolding zero_degrees
zero_degrees-IsUnique [] = tt
zero_degrees-IsUnique (id ∷ ids) =
    insert-IsUnique (zero_degrees ids) id 0 (zero_degrees-IsUnique ids)

count_edges-IsUnique :
    (g : FlowGraph) (es : List Edge) (m : HashMap ℕ ℕ) → IsUnique m → IsUnique (count_edges g es m)
unfolding count_edges
count_edges-IsUnique g [] m u = u
count_edges-IsUnique g (e ∷ es) m u = count_edges-IsUnique g es _ (
    ground (arith, insert-IsUnique m e.to_node (degree_or_default (HashMap.get m e.to_node) + 1) u))

get-bump :
    (m : HashMap ℕ ℕ) (to v : ℕ)
    → HashMap.get (bump m to) v
      ≡ (if to == v then some (degree_or_default (HashMap.get m to) + 1) else HashMap.get m v)
unfolding bump
get-bump m to v = get-insert m to v _

-- Each edge adds one to the degree of its target.
count_edges-degree :
    (g : FlowGraph) (es : List Edge) (m : HashMap ℕ ℕ) (v : ℕ)
    → degree_or_default (HashMap.get (count_edges g es m) v)
      ≡ degree_or_default (HashMap.get m v) + toward g v es
unfolding count_edges toward
count_edges-degree g [] m v = ground arith
count_edges-degree g (e ∷ es) m v = ground (
  arith,
  count_edges-degree g es m v,
  count_edges-degree g es (bump m e.to_node) v,
  get-bump m e.to_node v,
  nat_beq_iff e.to_node v,
)

count_edges-keys :
    (g : FlowGraph) (es : List Edge) (m : HashMap ℕ ℕ) (v : ℕ)
    → contains_key (count_edges g es m) v ≡ (contains_key m v || ltb 0 (toward g v es))
unfolding count_edges toward
count_edges-keys g [] m v = ground arith
count_edges-keys g (e ∷ es) m v = ground (
  arith,
  count_edges-keys g es m v,
  count_edges-keys g es (bump m e.to_node) v,
  get-bump m e.to_node v,
  nat_beq_iff e.to_node v,
)

occurs-zero_keys :
    (m : HashMap ℕ ℕ) (v : ℕ) → IsUnique m → occurs v (zero_keys m) ≡ is_zero (HashMap.get m v)
unfolding zero_keys HashMap.get
occurs-zero_keys [] v u = refl
occurs-zero_keys ((k, d) ∷ m) v u = ground (arith, occurs-zero_keys m v, nat_beq_iff k v)

module _ (g : FlowGraph) where
  pub contains-initial_degrees :
      (v : ℕ)
      → contains_key (initial_degrees g) v ≡ (contains_key g.nodes v || ltb 0 (toward g v g.edges))
  unfolding initial_degrees
  contains-initial_degrees v = ground (
    arith,
    count_edges-keys g g.edges (zero_degrees (keys g.nodes)) v,
    get-zero_degrees (keys g.nodes) v,
    contains-keys g.nodes v,
  )

  pub initial_degrees-IsUnique : IsUnique (initial_degrees g)
  unfolding initial_degrees
  initial_degrees-IsUnique = count_edges-IsUnique g g.edges _ (zero_degrees-IsUnique (keys g.nodes))

  degree-initial :
      (v : ℕ) → degree_or_default (HashMap.get (initial_degrees g) v) ≡ toward g v g.edges
  unfolding initial_degrees
  degree-initial v = ground (
    arith,
    count_edges-degree g g.edges (zero_degrees (keys g.nodes)) v,
    get-zero_degrees (keys g.nodes) v,
  )

pending-nil :
    (g : FlowGraph) (v : ℕ) (es : List Edge)
    → count_by (λ e. (e.to_node == v) && (counts g e && not (contains [] e.from_node))) es
      ≡ toward g v es
unfolding toward
pending-nil g v [] = refl
pending-nil g v (e ∷ es) = ground (arith, pending-nil g v es)

pub initial_kahn-Inv : (g : FlowGraph) → Inv g [] (initial_kahn g)
unfolding initial_kahn pending toward
initial_kahn-Inv g = record {
  degree = λ v d q. ground (arith, q, degree-initial g v, pending-nil g v g.edges);
  settled = λ v. omega (arith, occurs-zero_keys (initial_degrees g) v (initial_degrees-IsUnique g));
  visited = refl;
}
