-- ===== src/FlowGraph.antt =====
-- xerv-executor/src/scheduler/graph.rs: the flow graph, its indices, Kahn's topological sort, the
-- nodes reachable from the entry points, and validation. A `NodeId` is its u32.
pub mod Index
pub mod Start
pub mod Loop
pub mod Sort
pub mod Reach
pub mod Validate
mod Scenarios
use text.Mathlib.Text.{starts_with}
use xerv.Prelude.{
  ℕ, zero, suc, ◌+◌, ◌-◌, ◌^◌, String, Bool, true, false, ◌&&◌, ◌||◌, not, Option, none, some, List,
  [], ◌∷◌, ◌++◌, if◌then◌else◌, length, get_elem?, filter_by, contains, ◌==◌, nat_eq, string_eq,
  pair_eq, is_some, all_by, map,
}
use xerv.HashMap
use xerv.HashMap.{HashMap, keys, len, contains_key}
use xerv.Errors.{XervError, uncontrolled_cycle, invalid_edge, XervResult}
use xerv.Prelude.{ok, err}

pub record Edge : Type 0 where
  pub from_node : ℕ
  pub from_port : String
  pub to_node : ℕ
  pub to_port : String

pub record GraphNode : Type 0 where
  pub id : ℕ
  pub node_type : String
  pub is_loop_controller : Bool
  pub is_merge : Bool
  pub is_trigger : Bool

-- GraphNode::new
unfoldable pub graph_node : ℕ → String → GraphNode
graph_node id node_type = record {
  id = id;
  node_type = node_type;
  is_loop_controller = node_type == "std::loop";
  is_merge = node_type == "std::merge";
  is_trigger = starts_with node_type "trigger::";
}

pub record FlowGraph : Type 0 where
  pub nodes : HashMap ℕ GraphNode
  pub edges : List Edge
  pub outgoing : HashMap ℕ (List ℕ)
  pub incoming : HashMap ℕ (List ℕ)
  pub entry_points : List ℕ
  pub loop_back_edges : List (ℕ × ℕ)  -- a HashSet

unfoldable pub new : FlowGraph
new = record {
  nodes = [];
  edges = [];
  outgoing = [];
  incoming = [];
  entry_points = [];
  loop_back_edges = [];
}

-- The indices stored for a node; none for a node without an entry.
abbrev pub indices : Option (List ℕ) → List ℕ
indices none = []
indices (some is) = is

-- index.entry(id).or_default()
or_default : HashMap ℕ (List ℕ) → ℕ → HashMap ℕ (List ℕ)
or_default index id = if contains_key index id then index else HashMap.insert index id []

-- index.entry(id).or_default().push(i)
push_index : HashMap ℕ (List ℕ) → ℕ → ℕ → HashMap ℕ (List ℕ)
push_index index id i = HashMap.insert index id (indices (HashMap.get index id) ++ i ∷ [])

unfoldable pub add_node : FlowGraph → GraphNode → FlowGraph
unfolding or_default
add_node g node = record g {
  entry_points = if node.is_trigger then g.entry_points ++ node.id ∷ [] else g.entry_points;
  nodes = HashMap.insert g.nodes node.id node;
  outgoing = or_default g.outgoing node.id;
  incoming = or_default g.incoming node.id;
}

unfoldable pub add_edge : FlowGraph → Edge → FlowGraph
unfolding push_index
add_edge g edge = record g {
  outgoing = push_index g.outgoing edge.from_node (length g.edges);
  incoming = push_index g.incoming edge.to_node (length g.edges);
  edges = g.edges ++ edge ∷ [];
}

unfoldable pub declare_loop_edge : FlowGraph → ℕ → ℕ → FlowGraph
declare_loop_edge g from to =
    if contains g.loop_back_edges (from, to)
    then g
    else record g { loop_back_edges = g.loop_back_edges ++ (from, to) ∷ [] }

unfoldable pub set_entry_point : FlowGraph → ℕ → FlowGraph
set_entry_point g node_id =
    if contains g.entry_points node_id
    then g
    else record g { entry_points = g.entry_points ++ node_id ∷ [] }

unfoldable pub is_loop_back_edge : FlowGraph → ℕ → ℕ → Bool
is_loop_back_edge g from to = contains g.loop_back_edges (from, to)

-- `indices.iter().map(|&i| &self.edges[i])`; an index out of bounds, which panics, is left out here
-- and ruled out by `IsWf` in Index.
pub index_edges : List Edge → List ℕ → List Edge
index_edges edges [] = []
index_edges edges (i ∷ is) = elim (get_elem? edges i) [
  | none ↦ index_edges edges is
  | some e ↦ e ∷ index_edges edges is
]

unfoldable pub outgoing_edges : FlowGraph → ℕ → List Edge
unfolding index_edges
outgoing_edges g node = index_edges g.edges (indices (HashMap.get g.outgoing node))

unfoldable pub incoming_edges : FlowGraph → ℕ → List Edge
unfolding index_edges
incoming_edges g node = index_edges g.edges (indices (HashMap.get g.incoming node))

-- Whether an edge counts in the sort: it is no declared loop back-edge.
abbrev pub counts : FlowGraph → Edge → Bool
counts g e = not (is_loop_back_edge g e.from_node e.to_node)

unfoldable pub predecessors : FlowGraph → ℕ → List ℕ
predecessors g node = map (λ e. e.from_node) (filter_by (counts g) (incoming_edges g node))

pub successors : FlowGraph → ℕ → List ℕ
successors g node = map (λ e. e.to_node) (outgoing_edges g node)

-- *in_degree.entry(to).or_default() += 1
abbrev degree_or_default : Option ℕ → ℕ
degree_or_default none = 0
degree_or_default (some d) = d

bump : HashMap ℕ ℕ → ℕ → HashMap ℕ ℕ
bump in_degree to = HashMap.insert in_degree to (degree_or_default (HashMap.get in_degree to) + 1)

zero_degrees : List ℕ → HashMap ℕ ℕ
zero_degrees [] = []
zero_degrees (id ∷ ids) = HashMap.insert (zero_degrees ids) id 0

count_edges : FlowGraph → List Edge → HashMap ℕ ℕ → HashMap ℕ ℕ
unfolding bump
count_edges g [] in_degree = in_degree
count_edges g (e ∷ es) in_degree =
    count_edges g es (if counts g e then bump in_degree e.to_node else in_degree)

pub initial_degrees : FlowGraph → HashMap ℕ ℕ
unfolding count_edges zero_degrees
initial_degrees g = count_edges g g.edges (zero_degrees (keys g.nodes))

-- The keys of degree 0, in the order of iteration.
zero_keys : HashMap ℕ ℕ → List ℕ
zero_keys [] = []
zero_keys ((id, d) ∷ m) = if d == 0 then id ∷ zero_keys m else zero_keys m

-- The variables of the loop of `topological_sort`.
pub record Kahn : Type 0 where
  pub in_degree : HashMap ℕ ℕ
  pub queue : List ℕ
  pub sorted : List ℕ
  pub visited : ℕ

-- `*degree -= 1` on a usize, which wraps below 0 (a debug build panics).
abbrev pub decrement : ℕ → ℕ
decrement d = if d == 0 then 2 ^ 64 - 1 else d - 1

lower : Option ℕ → ℕ → Kahn → Kahn
lower none to s = s
lower (some degree) to s =
    let s' = record s { in_degree = HashMap.insert s.in_degree to (decrement degree) } in
    if decrement degree == 0 then record s' { queue = s.queue ++ to ∷ [] } else s'

relax : FlowGraph → Edge → Kahn → Kahn
unfolding lower
relax g e s = if counts g e then lower (HashMap.get s.in_degree e.to_node) e.to_node s else s

relax_all : FlowGraph → List Edge → Kahn → Kahn
unfolding relax
relax_all g [] s = s
relax_all g (e ∷ es) s = relax_all g es (relax g e s)

pub visit : FlowGraph → ℕ → List ℕ → Kahn → Kahn
unfolding relax_all
visit g node_id rest s =
    relax_all g (outgoing_edges g node_id)
      (record s { queue = rest; sorted = s.sorted ++ node_id ∷ []; visited = s.visited + 1 })

-- One round of `while let Some(node_id) = queue.pop_front()`.
round : FlowGraph → List ℕ → Kahn → Option Kahn
unfolding visit
round g [] s = none
round g (node_id ∷ rest) s = some (visit g node_id rest s)

-- `none` means that the fuel ran out.
pub sort_loop : FlowGraph → ℕ → Kahn → Option Kahn
unfolding round
sort_loop g zero s = none
sort_loop g (suc fuel) s = elim (round g s.queue s) [
  | none ↦ some s
  | some s' ↦ sort_loop g fuel s'
]

pub initial_kahn : FlowGraph → Kahn
unfolding initial_degrees zero_keys
initial_kahn g = record {
  in_degree = initial_degrees g;
  queue = zero_keys (initial_degrees g);
  sorted = [];
  visited = 0;
}

-- The check for undeclared cycles behind the loop.
pub conclude : FlowGraph → Kahn → XervResult (List ℕ)
conclude g s =
    if s.visited == len g.nodes
    then ok s.sorted
    else err (uncontrolled_cycle (filter_by (λ id. not (contains s.sorted id)) (keys g.nodes)))

abbrev map_option {ℓ κ} : {A : Type ℓ} {B : Type κ} → (A → B) → Option A → Option B
map_option f none = none
map_option f (some a) = some (f a)

unfoldable pub topological_sort : FlowGraph → Option (XervResult (List ℕ))
unfolding initial_kahn conclude sort_loop
topological_sort g =
    map_option (conclude g) (sort_loop g (suc (len (initial_degrees g))) (initial_kahn g))

-- One round of the loop of `reachable_nodes`: the node that is popped, the visited nodes, the rest.
reach_step : FlowGraph → ℕ → List ℕ → List ℕ → List ℕ × List ℕ
reach_step g node_id visited queue =
    if contains visited node_id
    then (visited, queue)
    else (visited ++ node_id ∷ [], queue ++ map (λ e. e.to_node) (outgoing_edges g node_id))

-- `none` means that the fuel ran out.
reach_loop : FlowGraph → ℕ → List ℕ → List ℕ → Option (List ℕ)
unfolding reach_step
reach_loop g zero visited queue = none
reach_loop g (suc fuel) visited [] = some visited
reach_loop g (suc fuel) visited (node_id ∷ queue) =
    let (visited', queue') = reach_step g node_id visited queue in reach_loop g fuel visited' queue'

unfoldable pub reachable_nodes : FlowGraph → Option (List ℕ)
unfolding reach_loop
reachable_nodes g = reach_loop g (suc (length g.entry_points + length g.edges)) [] g.entry_points

-- The loop of `validate` over the edges.
pub check_edges : FlowGraph → List Edge → XervResult (Unit {0})
check_edges g [] = ok tt
check_edges g (e ∷ es) =
    let invalid = err (invalid_edge e.from_node e.from_port e.to_node e.to_port) in
    if not (contains_key g.nodes e.from_node)
    then invalid
    else if not (contains_key g.nodes e.to_node)
    then invalid
    else check_edges g es

then_check : FlowGraph → XervResult (List ℕ) → XervResult (Unit {0})
unfolding check_edges
then_check g (ok order) = check_edges g g.edges
then_check g (err e) = err e

-- `validate`: the warnings about unreachable nodes are logged only, and left out.
unfoldable pub validate : FlowGraph → Option (XervResult (Unit {0}))
unfolding then_check
validate g = map_option (then_check g) (topological_sort g)
